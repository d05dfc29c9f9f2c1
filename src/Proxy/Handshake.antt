-- ===== src/Proxy/Handshake.antt =====
-- netfilter/UDPProxy.cpp: onTcpReceiveComplete, the client's side of the SOCKS 5 negotiation.
use qv_plugin_netfilter.Base.{
  ℕ, zero, suc, ◌%◌, Bool, true, false, not, ◌&&◌, ◌||◌, Option, none, some, List, [], ◌∷◌, ◌++◌,
  ◌==◌, ltb, if◌then◌else◌, length,
}
use qv_plugin_netfilter.Base.Bytes.{overwrite}
use qv_plugin_netfilter.Base.Map.{find, put}
use qv_plugin_netfilter.Base.State.{M, pure, gets, modify, ◌>>=◌, ◌>>◌}
use qv_plugin_netfilter.Socks.{
  socks_5, s5am_unpw, s5c_udp_associate, socks5_addr_ipv4, socks5_addr_ipv6, sizeof_auth_response,
  sizeof_response, request_ipv4_bytes, auth_response_at, response_at, response_ipv4_at,
  response_ipv6_at,
}
use qv_plugin_netfilter.Sockaddr.{
  sin_addr, sin6_addr, sockaddr_in, sockaddr_in6, sizeof_sockaddr_in, sizeof_sockaddr_in6,
}
use qv_plugin_netfilter.System.{Os}
use qv_plugin_netfilter.Proxy.Data.{
  OvData, ProxyState, ps_auth, ps_auth_negotiation, ps_udp_assoc, ps_connected, UdpPacket,
  ProxyData,
}
use qv_plugin_netfilter.Proxy.Overlapped.{
  UdpProxy, delete_ov_data, start_tcp_receive, start_tcp_send,
}
use qv_plugin_netfilter.Proxy.Send.{udp_send}

abbrev pub is_empty : List ℕ → Bool
is_empty [] = true
is_empty (x ∷ xs) = false

-- The request of RFC 1929. The lengths are cast to `char`.
unfoldable pub credentials : List ℕ → List ℕ → List ℕ
credentials user_name user_password =
    1 ∷ (length user_name % 256) ∷ (user_name ++ ((length user_password % 256) ∷ user_password))

unfoldable pub associate_request : List ℕ
associate_request = request_ipv4_bytes (record {
  version = socks_5;
  command = s5c_udp_associate;
  reserved = 0;
  address_type = socks5_addr_ipv4;
  address = 0;
  port = 0;
})

-- it->second->proxyState = …, and other writes through the iterator
unfoldable pub write : ℕ → ProxyData → M UdpProxy (Unit {0})
write id pd = modify (λ s. record s { socket_map = put id pd s.socket_map })

-- The address to which datagrams go from now on, and its size: the host is that of the proxy, the
-- port is the reply's. There is none for other address types.
unfoldable pub relay_address : List ℕ → List ℕ → Option (List ℕ × ℕ)
relay_address proxy_address buffer =
    if (response_at buffer).address_type == socks5_addr_ipv4
    then some
        (sockaddr_in (sin_addr proxy_address) (response_ipv4_at buffer).port, sizeof_sockaddr_in)
    else if (response_at buffer).address_type == socks5_addr_ipv6
    then some
        (sockaddr_in6 (sin6_addr proxy_address) (response_ipv6_at buffer).port, sizeof_sockaddr_in6)
    else none

abbrev pub tail {ℓ} : {A : Type ℓ} → List A → List A
tail [] = []
tail (x ∷ xs) = xs

abbrev pub front : Option ProxyData → List UdpPacket
front none = []
front (some pd) = pd.udp_send_packets

module _ ⦃os : Os⦄ where
  -- startTcpSend, and the next state if the call was accepted.
  unfoldable pub send_and_advance : ℕ → ProxyData → List ℕ → ProxyState → M UdpProxy (Unit {0})
  send_and_advance id pd message next = do
    sent ← start_tcp_send pd.tcp_socket message id
    if sent then write id (record pd { proxy_state = next }) else pure tt

  -- delete (*itp); udpSendPackets.erase(itp);
  unfoldable pub pop_packet : ℕ → Option ProxyData → M UdpProxy (Unit {0})
  pop_packet id none = pure tt
  pop_packet id (some pd) = write id (record pd { udp_send_packets = tail pd.udp_send_packets })

  -- The body of `while (!udpSendPackets.empty())`, before the `rest` of the rounds.
  unfoldable pub drain_step : M UdpProxy (Unit {0}) → ℕ → List UdpPacket → M UdpProxy (Unit {0})
  drain_step rest id [] = pure tt
  drain_step rest id (p ∷ ps) = do
    udp_send id p.buffer p.remote_address p.remote_address_len
    now ← gets (λ s. find id s.socket_map)
    pop_packet id now
    rest

  -- The loop on fuel.
  unfoldable pub drain : ℕ → ℕ → M UdpProxy (Unit {0})
  drain zero id = pure tt
  drain (suc fuel) id = do
    queue ← gets (λ s. front (find id s.socket_map))
    drain_step (drain fuel id) id queue

  unfoldable pub connect_relay : ℕ → ProxyData → Option (List ℕ × ℕ) → M UdpProxy (Unit {0})
  connect_relay id pd none = pure tt
  connect_relay id pd (some (addr, len)) = do
    write id (record pd {
      remote_address = overwrite pd.remote_address addr;
      remote_address_len = len;
      proxy_state = ps_connected;
    })
    drain (length pd.udp_send_packets) id

  -- The switch over the state of the connection.
  unfoldable pub negotiate : ProxyState → ℕ → OvData → ProxyData → M UdpProxy (Unit {0})
  negotiate ps_auth transferred pov pd =
      if ltb transferred sizeof_auth_response
        || not ((auth_response_at pov.buffer).version == socks_5)
      then pure tt
      else if (auth_response_at pov.buffer).method == s5am_unpw && not (is_empty pd.user_name)
      then send_and_advance pov.id pd (credentials pd.user_name pd.user_password)
          ps_auth_negotiation
      else send_and_advance pov.id pd associate_request ps_udp_assoc
  negotiate ps_auth_negotiation transferred pov pd =
      if ltb transferred sizeof_auth_response
        || (not ((auth_response_at pov.buffer).version == 1)
            || not ((auth_response_at pov.buffer).method == 0))
      then pure tt
      else send_and_advance pov.id pd associate_request ps_udp_assoc
  negotiate ps_udp_assoc transferred pov pd =
      if ltb transferred sizeof_response
        || (not ((response_at pov.buffer).version == socks_5)
            || not ((response_at pov.buffer).res_code == 0))
      then pure tt
      else (do
        proxy_address ← gets (λ s. s.proxy_address)
        connect_relay pov.id pd (relay_address proxy_address pov.buffer))
  negotiate _ transferred pov pd = pure tt

  unfoldable pub negotiate_found : ℕ → OvData → Option ProxyData → M UdpProxy (Unit {0})
  negotiate_found transferred pov none = pure tt
  negotiate_found transferred pov (some pd) = negotiate pd.proxy_state transferred pov pd

  -- The block under m_cs of onTcpReceiveComplete.
  unfoldable pub negotiate_received : ℕ → OvData → M UdpProxy (Unit {0})
  negotiate_received transferred pov = do
    found ← gets (λ s. find pov.id s.socket_map)
    negotiate_found transferred pov found

  unfoldable pub on_tcp_receive_complete : ℕ → ℕ → OvData → M UdpProxy (Unit {0})
  on_tcp_receive_complete socket transferred pov =
      if transferred == 0 then delete_ov_data pov else (do
        found ← gets (λ s. find pov.id s.socket_map)
        negotiate_found transferred pov found
        start_tcp_receive socket pov.id (some pov)
        pure tt)
