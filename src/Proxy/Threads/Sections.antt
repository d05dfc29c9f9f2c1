-- ===== src/Proxy/Threads/Sections.antt =====
-- The methods of netfilter/UDPProxy.cpp, cut at the ends of their blocks under m_cs. What init and
-- free let the completion service do is one section, and so is each of the loops of free.
use qv_plugin_netfilter.Base.{ℕ, Bool, true, false, not, List, [], ◌==◌, if◌then◌else◌, take}
use qv_plugin_netfilter.Base.Bytes.{overwrite}
use qv_plugin_netfilter.Base.State.{gets, modify}
use qv_plugin_netfilter.System.{
  Os, perform, failed, bind_any, connect_ex, wsa_recv, wsa_recv_from, wsa_socket, close_socket,
  get_extension, sock_stream, sock_dgram,
}
use qv_plugin_netfilter.Iocp.{register_socket, post_completion}
use qv_plugin_netfilter.Proxy.Data.{
  nf_max_address_length, invalid_socket, OvType, ovt_connect, ovt_tcp_send, ovt_tcp_receive,
  ovt_udp_send, ovt_udp_receive, OvData,
}
use qv_plugin_netfilter.Proxy.Overlapped.{UdpProxy, outside, new_ov_data, delete_ov_data}
use qv_plugin_netfilter.Proxy.Send.{udp_send}
use qv_plugin_netfilter.Proxy.Receive.{UdpProxyHandler, deliver, delete_proxy_connection}
use qv_plugin_netfilter.Proxy.Connections.{
  insert_connection, init_service, free_service, destroy_all,
}
use qv_plugin_netfilter.Proxy.Handshake.{negotiate_received}
use qv_plugin_netfilter.Proxy.Receive.{greet_connected}
use qv_plugin_netfilter.Proxy.Threads.{Task, finished, atomic, ◌>>=◌, ◌>>◌}

-- What a thread may call: the methods for the client, and onComplete for the worker.
pub data Call : Type 0 where
  initialises :
      (self : ℕ) (proxy_address : List ℕ) (proxy_address_len : ℕ) (user pass : List ℕ) → Call
  frees : Call
  creates : (id : ℕ) → Call
  deletes : (id : ℕ) → Call
  sends : (id : ℕ) (buf addr : List ℕ) (addr_len : ℕ) → Call
  completes : (socket transferred : ℕ) → OvData → (error : ℕ) → Call

module _ ⦃os : Os⦄ where
  unfoldable pub repost_task : ℕ → OvData → Task UdpProxy (Unit {0})
  repost_task socket pov = do
    service ← atomic (gets (λ s. s.service))
    posted ← atomic (outside (post_completion socket 0 pov service))
    if posted then finished tt else atomic (delete_ov_data pov)

  unfoldable pub start_connect_task : ℕ → List ℕ → ℕ → ℕ → Task UdpProxy Bool
  start_connect_task socket addr addr_len id = do
    fresh ← atomic new_ov_data
    let pov = record fresh { ov_type = ovt_connect; id = id }
    atomic (outside (perform (bind_any socket)))
    r ← atomic (outside (perform (connect_ex socket addr addr_len pov)))
    if failed r then (do atomic (delete_ov_data pov); finished false) else finished true

  -- The object that the caller passes on is used again: the worker always passes one.
  unfoldable pub start_udp_receive_task : ℕ → OvData → Task UdpProxy Bool
  start_udp_receive_task socket given = do
    let pov = record given { remote_address_len = nf_max_address_length }
    r ← atomic (outside (perform (wsa_recv_from socket pov)))
    if failed r then (do repost_task socket pov; finished true) else finished true

  unfoldable pub start_tcp_receive_task : ℕ → OvData → Task UdpProxy Bool
  start_tcp_receive_task socket pov = do
    r ← atomic (outside (perform (wsa_recv socket pov)))
    if failed r then (do repost_task socket pov; finished true) else finished true

  -- createProxyConnection, from the insertion on.
  unfoldable pub open_connection_task : ℕ → ℕ → ℕ → Task UdpProxy Bool
  open_connection_task id tcp_socket udp_socket = do
    atomic (insert_connection id tcp_socket udp_socket)
    service ← atomic (gets (λ s. s.service))
    tcp_registered ← atomic (outside (register_socket tcp_socket service))
    if tcp_registered
        then (do
          udp_registered ← atomic (outside (register_socket udp_socket service))
          if udp_registered
              then (do
                address ← atomic (gets (λ s. s.proxy_address))
                address_len ← atomic (gets (λ s. s.proxy_address_len))
                start_connect_task tcp_socket address address_len id)
              else finished false)
        else finished false

  unfoldable pub create_proxy_connection_task : ℕ → Task UdpProxy Bool
  create_proxy_connection_task id = do
    tcp_socket ← atomic (outside (perform (wsa_socket sock_stream)))
    if tcp_socket == invalid_socket then finished false else (do
      udp_socket ← atomic (outside (perform (wsa_socket sock_dgram)))
      if udp_socket == invalid_socket
          then (do atomic (outside (perform (close_socket tcp_socket))); finished false)
          else (do
            result ← open_connection_task id tcp_socket udp_socket
            if result
                then finished true
                else (do atomic (delete_proxy_connection id); finished false)))

  -- onConnectComplete: all of it after the test of `error` is one block.
  unfoldable pub on_connect_complete_task : ℕ → OvData → ℕ → Task UdpProxy (Unit {0})
  on_connect_complete_task socket pov error =
      if error == 0
      then atomic (greet_connected socket pov)
      else (do atomic (delete_proxy_connection pov.id); atomic (delete_ov_data pov))

  unfoldable pub on_tcp_receive_complete_task : ℕ → ℕ → OvData → Task UdpProxy (Unit {0})
  on_tcp_receive_complete_task socket transferred pov =
      if transferred == 0 then atomic (delete_ov_data pov) else (do
        atomic (negotiate_received transferred pov)
        start_tcp_receive_task socket pov
        finished tt)

  unfoldable pub on_udp_receive_complete_task :
      UdpProxyHandler → ℕ → ℕ → OvData → Task UdpProxy (Unit {0})
  on_udp_receive_complete_task h socket transferred pov =
      if transferred == 0 then atomic (delete_ov_data pov) else (do
        atomic (outside (deliver h transferred pov.id pov.buffer))
        start_udp_receive_task socket pov
        finished tt)

  unfoldable pub dispatch_task :
      UdpProxyHandler → OvType → ℕ → ℕ → OvData → ℕ → Task UdpProxy (Unit {0})
  dispatch_task h ovt_udp_send socket transferred pov error = atomic (delete_ov_data pov)
  dispatch_task h ovt_udp_receive socket transferred pov error =
      on_udp_receive_complete_task h socket transferred pov
  dispatch_task h ovt_connect socket transferred pov error =
      on_connect_complete_task socket pov error
  dispatch_task h ovt_tcp_send socket transferred pov error = atomic (delete_ov_data pov)
  dispatch_task h ovt_tcp_receive socket transferred pov error =
      on_tcp_receive_complete_task socket transferred pov

  unfoldable pub init_extensions_task : Task UdpProxy Bool
  init_extensions_task = do
    s ← atomic (outside (perform (wsa_socket sock_stream)))
    if s == invalid_socket then finished false else (do
      p ← atomic (outside (perform (get_extension s)))
      atomic (modify (λ t. record t { connect_ex_ptr = p }))
      atomic (outside (perform (close_socket s)))
      finished (not (p == 0)))

  unfoldable pub init_task : ℕ → List ℕ → ℕ → List ℕ → List ℕ → Task UdpProxy Bool
  init_task self proxy_address proxy_address_len user pass = do
    loaded ← init_extensions_task
    if loaded
        then (do
          started ← atomic (init_service self)
          if started
              then (do
                atomic (
                    modify (λ s. record s {
                      proxy_address =
                          overwrite s.proxy_address (take proxy_address_len proxy_address);
                      proxy_address_len = proxy_address_len;
                      user_name = user;
                      user_password = pass;
                    }))
                finished true)
              else finished false)
        else finished false

  unfoldable pub free_task : Task UdpProxy (Unit {0})
  free_task = do
    atomic free_service
    atomic (modify (λ s. record s { ov_data_set = [] }))
    atomic (λ s. (tt, record s { socket_map = []; world = (destroy_all s.socket_map s.world).1 }))

  -- The task of a thread that makes the call.
  unfoldable pub sections : UdpProxyHandler → Call → Task UdpProxy (Unit {0})
  sections h (initialises self proxy_address proxy_address_len user pass) = do
    init_task self proxy_address proxy_address_len user pass
    finished tt
  sections h frees = free_task
  sections h (creates id) = do create_proxy_connection_task id; finished tt
  sections h (deletes id) = atomic (delete_proxy_connection id)
  sections h (sends id buf addr addr_len) = do atomic (udp_send id buf addr addr_len); finished tt
  sections h (completes socket transferred pov error) =
      dispatch_task h pov.ov_type socket transferred pov error
