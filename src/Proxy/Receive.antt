-- ===== src/Proxy/Receive.antt =====
-- netfilter/UDPProxy.cpp: onUdpReceiveComplete and onConnectComplete; netfilter/UDPContext.hpp: the
-- interface UDPProxyHandler through which the proxy hands datagrams back.
use qv_plugin_netfilter.Base.{ℕ, Option, none, some, List, [], ◌∷◌, ◌==◌, ltb, if◌then◌else◌, drop}
use qv_plugin_netfilter.Base.Int.{ℤ, to_int, sub_size}
use qv_plugin_netfilter.Base.Map.{find, erase}
use qv_plugin_netfilter.Base.State.{M, pure, gets, modify, ◌>>=◌, ◌>>◌}
use qv_plugin_netfilter.Socks.{
  socks_5, s5am_none, s5am_unpw, socks5_addr_ipv4, socks5_addr_ipv6, sizeof_udp_request,
  sizeof_udp_request_ipv4, sizeof_udp_request_ipv6, auth_request_bytes, udp_request_at,
  udp_request_ipv4_at, udp_request_ipv6_at,
}
use qv_plugin_netfilter.Sockaddr.{
  sockaddr_in, sockaddr_in6, sizeof_sockaddr_in, sizeof_sockaddr_in6,
}
use qv_plugin_netfilter.System.{
  World, Os, perform, tcp_no_delay, keep_alive, shutdown_both, close_socket,
}
use qv_plugin_netfilter.Proxy.Data.{invalid_socket, OvData, ps_auth, ProxyData}
use qv_plugin_netfilter.Proxy.Overlapped.{
  UdpProxy, outside, delete_ov_data, start_udp_receive, start_tcp_receive,
}
use qv_plugin_netfilter.Proxy.Handshake.{send_and_advance}

-- The arguments: endpoint, the memory from `buf` on, `len`, the address and its size.
pub record UdpProxyHandler : Type 0 where
  pub on_udp_receive_complete : ℕ → List ℕ → ℤ → List ℕ → ℕ → M World (Unit {0})

-- The authentication request that opens the negotiation.
unfoldable pub greeting : List ℕ → List ℕ
greeting [] = auth_request_bytes (record { version = socks_5; nmethods = 1; method = s5am_none })
greeting (c ∷ cs) =
    auth_request_bytes (record { version = socks_5; nmethods = 1; method = s5am_unpw })

-- The part of onUdpReceiveComplete that takes the header off.
unfoldable pub deliver : UdpProxyHandler → ℕ → ℕ → List ℕ → M World (Unit {0})
deliver h transferred id buffer =
    if ltb sizeof_udp_request transferred
    then (if (udp_request_at buffer).address_type == socks5_addr_ipv4
        then h.on_udp_receive_complete id (drop sizeof_udp_request_ipv4 buffer)
            (to_int (sub_size transferred sizeof_udp_request_ipv4))
            (sockaddr_in (udp_request_ipv4_at buffer).address (udp_request_ipv4_at buffer).port)
            sizeof_sockaddr_in
        else if (udp_request_at buffer).address_type == socks5_addr_ipv6
        then h.on_udp_receive_complete id (drop sizeof_udp_request_ipv6 buffer)
            (to_int (sub_size transferred sizeof_udp_request_ipv6))
            (sockaddr_in6 (udp_request_ipv6_at buffer).address (udp_request_ipv6_at buffer).port)
            sizeof_sockaddr_in6
        else pure tt)
    else pure tt

module _ ⦃os : Os⦄ where
  unfoldable pub on_udp_receive_complete : UdpProxyHandler → ℕ → ℕ → OvData → M UdpProxy (Unit {0})
  on_udp_receive_complete h socket transferred pov =
      if transferred == 0 then delete_ov_data pov else (do
        outside (deliver h transferred pov.id pov.buffer)
        start_udp_receive socket pov.id (some pov)
        pure tt)

  -- ~PROXY_DATA
  unfoldable pub destroy : ProxyData → M World (Unit {0})
  destroy pd = do
    if pd.tcp_socket == invalid_socket then pure tt else (do
      perform (shutdown_both pd.tcp_socket)
      perform (close_socket pd.tcp_socket)
      pure tt)
    if pd.udp_socket == invalid_socket
        then pure tt
        else (do perform (close_socket pd.udp_socket); pure tt)

  unfoldable pub delete_found : ℕ → Option ProxyData → M UdpProxy (Unit {0})
  delete_found id none = pure tt
  delete_found id (some pd) = do
    outside (destroy pd)
    modify (λ s. record s { socket_map = erase id s.socket_map })

  unfoldable pub delete_proxy_connection : ℕ → M UdpProxy (Unit {0})
  delete_proxy_connection id = do found ← gets (λ s. find id s.socket_map); delete_found id found

  unfoldable pub greet : ℕ → ℕ → Option ProxyData → M UdpProxy (Unit {0})
  greet socket id none = pure tt
  greet socket id (some pd) = do
    outside (perform (tcp_no_delay socket))
    outside (perform (keep_alive socket))
    send_and_advance id pd (greeting pd.user_name) ps_auth
    start_tcp_receive pd.tcp_socket id none
    pure tt

  -- The block under m_cs of onConnectComplete.
  abbrev pub greet_connected : ℕ → OvData → M UdpProxy (Unit {0})
  greet_connected socket pov = do
    found ← gets (λ s. find pov.id s.socket_map)
    greet socket pov.id found
    delete_ov_data pov

  unfoldable pub on_connect_complete : ℕ → ℕ → OvData → ℕ → M UdpProxy (Unit {0})
  on_connect_complete socket transferred pov error =
      if error == 0
      then greet_connected socket pov
      else (do delete_proxy_connection pov.id; delete_ov_data pov)
