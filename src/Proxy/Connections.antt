-- ===== src/Proxy/Connections.antt =====
-- netfilter/UDPProxy.cpp: onComplete, init, free, createProxyConnection.
use qv_plugin_netfilter.Base.{ℕ, Bool, true, false, not, List, [], ◌∷◌, ◌==◌, if◌then◌else◌, take}
use qv_plugin_netfilter.Base.Bytes.{overwrite}
use qv_plugin_netfilter.Base.Map.{Map, put}
use qv_plugin_netfilter.Base.State.{M, pure, gets, modify, ◌>>=◌, ◌>>◌}
use qv_plugin_netfilter.System.{
  World, Os, perform, wsa_socket, close_socket, get_extension, sock_stream, sock_dgram,
}
use qv_plugin_netfilter.Iocp
use qv_plugin_netfilter.Iocp.{new_iocp_service, destroy_iocp_service, register_socket}
use qv_plugin_netfilter.Sync.{new_event_handle, new_critical_section, delete_critical_section}
use qv_plugin_netfilter.Proxy.Data.{
  invalid_socket, OvType, ovt_connect, ovt_tcp_send, ovt_tcp_receive, ovt_udp_send, ovt_udp_receive,
  OvData, ProxyData, new_proxy_data,
}
use qv_plugin_netfilter.Proxy.Overlapped.{UdpProxy, outside, delete_ov_data, start_connect}
use qv_plugin_netfilter.Proxy.Handshake.{on_tcp_receive_complete}
use qv_plugin_netfilter.Proxy.Receive.{
  UdpProxyHandler, on_udp_receive_complete, on_connect_complete, delete_proxy_connection, destroy,
}

module _ ⦃os : Os⦄ where
  unfoldable pub dispatch : UdpProxyHandler → OvType → ℕ → ℕ → OvData → ℕ → M UdpProxy (Unit {0})
  dispatch h ovt_udp_send socket transferred pov error = delete_ov_data pov
  dispatch h ovt_udp_receive socket transferred pov error =
      on_udp_receive_complete h socket transferred pov
  dispatch h ovt_connect socket transferred pov error =
      on_connect_complete socket transferred pov error
  dispatch h ovt_tcp_send socket transferred pov error = delete_ov_data pov
  dispatch h ovt_tcp_receive socket transferred pov error =
      on_tcp_receive_complete socket transferred pov

  -- onComplete, with onUdpSendComplete and onTcpSendComplete.
  unfoldable pub on_complete : UdpProxyHandler → ℕ → ℕ → OvData → ℕ → M UdpProxy (Unit {0})
  on_complete h socket transferred pov error = dispatch h pov.ov_type socket transferred pov error

  unfoldable pub init_extensions : M UdpProxy Bool
  init_extensions = do
    s ← outside (perform (wsa_socket sock_stream))
    if s == invalid_socket then pure false else (do
      p ← outside (perform (get_extension s))
      modify (λ t. record t { connect_ex_ptr = p })
      outside (perform (close_socket s))
      pure (not (p == 0)))

  unfoldable pub init_service : ℕ → M UdpProxy Bool
  init_service handler s =
      let ((done, service), w) = Iocp.init handler s.service s.world in
      (done, record s { service = service; world = w })

  -- `self` is the address of the proxy, which is the handler of its service.
  unfoldable pub init : ℕ → List ℕ → ℕ → List ℕ → List ℕ → M UdpProxy Bool
  init self proxy_address proxy_address_len user pass = do
    loaded ← init_extensions
    if loaded
        then (do
          started ← init_service self
          if started
              then (do
                modify (λ s. record s {
                  proxy_address = overwrite s.proxy_address (take proxy_address_len proxy_address);
                  proxy_address_len = proxy_address_len;
                  user_name = user;
                  user_password = pass;
                })
                pure true)
              else pure false)
        else pure false

  unfoldable pub destroy_all : Map ProxyData → M World (Unit {0})
  destroy_all [] = pure tt
  destroy_all ((id, pd) ∷ rest) = do destroy pd; destroy_all rest

  unfoldable pub free_service : M UdpProxy (Unit {0})
  free_service s =
      let (service, w) = Iocp.free s.service s.world in
      (tt, record s { service = service; world = w })

  unfoldable pub free : M UdpProxy (Unit {0})
  free = do
    free_service
    modify (λ s. record s { ov_data_set = [] })
    all ← gets (λ s. s.socket_map)
    outside (destroy_all all)
    modify (λ s. record s { socket_map = [] })

  -- The block under m_cs that makes the connection known.
  unfoldable pub insert_connection : ℕ → ℕ → ℕ → M UdpProxy (Unit {0})
  insert_connection id tcp_socket udp_socket = modify (λ s. record s {
    socket_map =
        put id
          (record new_proxy_data {
            tcp_socket = tcp_socket;
            udp_socket = udp_socket;
            user_name = s.user_name;
            user_password = s.user_password;
          })
          s.socket_map;
  })

  -- What follows when both sockets exist: the body of `for (;;)` from the insertion on.
  unfoldable pub open_connection : ℕ → ℕ → ℕ → M UdpProxy Bool
  unfolding insert_connection
  open_connection id tcp_socket udp_socket = do
    insert_connection id tcp_socket udp_socket
    service ← gets (λ s. s.service)
    tcp_registered ← outside (register_socket tcp_socket service)
    if tcp_registered
        then (do
          udp_registered ← outside (register_socket udp_socket service)
          if udp_registered
              then (λ s. start_connect tcp_socket s.proxy_address s.proxy_address_len id s)
              else pure false)
        else pure false

  unfoldable pub create_proxy_connection : ℕ → M UdpProxy Bool
  create_proxy_connection id = do
    tcp_socket ← outside (perform (wsa_socket sock_stream))
    if tcp_socket == invalid_socket then pure false else (do
      udp_socket ← outside (perform (wsa_socket sock_dgram))
      if udp_socket == invalid_socket
          then (do outside (perform (close_socket tcp_socket)); pure false)
          else (do
            result ← open_connection id tcp_socket udp_socket
            if result then pure true else (do delete_proxy_connection id; pure false)))

  -- UDPProxy(): `cs` is the address of m_cs, and the other arguments are what the memory of the
  -- fields held that it does not set.
  unfoldable pub new_udp_proxy : ℕ → ℕ → List ℕ → ℕ → World → UdpProxy
  new_udp_proxy cs connect_ex_ptr proxy_address proxy_address_len w =
      let (e, w') = new_event_handle w in
      record {
        service = new_iocp_service e;
        ov_data_set = [];
        socket_map = [];
        connect_ex_ptr = connect_ex_ptr;
        proxy_address = proxy_address;
        proxy_address_len = proxy_address_len;
        user_name = [];
        user_password = [];
        world = (new_critical_section cs w').1;
      }

  -- ~UDPProxy: its containers hold pointers, and what they point to is not deleted.
  unfoldable pub delete_udp_proxy : ℕ → M UdpProxy (Unit {0})
  delete_udp_proxy cs = do
    outside (delete_critical_section cs)
    service ← gets (λ s. s.service)
    outside (destroy_iocp_service service)
