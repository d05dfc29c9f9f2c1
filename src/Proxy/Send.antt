-- ===== src/Proxy/Send.antt =====
-- netfilter/UDPProxy.cpp: udpSend. A buffer and its length are one list.
use qv_plugin_netfilter.Base.{
  ℕ, Bool, true, false, Option, none, some, List, [], ◌∷◌, ◌++◌, ◌==◌, if◌then◌else◌, replicate,
  take,
}
use qv_plugin_netfilter.Base.Bytes.{overwrite}
use qv_plugin_netfilter.Base.Map.{find, put}
use qv_plugin_netfilter.Base.State.{M, pure, gets, modify, ◌>>=◌, ◌>>◌}
use qv_plugin_netfilter.Socks.{
  socks5_addr_ipv4, socks5_addr_ipv6, udp_request_ipv4_bytes, udp_request_ipv6_bytes,
}
use qv_plugin_netfilter.Sockaddr.{af_inet, sa_family, sin_port, sin_addr, sin6_addr}
use qv_plugin_netfilter.System.{Os, perform, failed, wsa_send_to}
use qv_plugin_netfilter.Proxy.Data.{
  nf_max_address_length, ovt_udp_send, ovt_udp_receive, OvData, ProxyState, ps_connected, UdpPacket,
  ProxyData,
}
use qv_plugin_netfilter.Proxy.Overlapped.{UdpProxy, outside, new_ov_data, repost, start_udp_receive}

abbrev pub is_connected : ProxyState → Bool
is_connected ps_connected = true
is_connected _ = false

-- The datagram for the relay: the header and the payload. An empty payload has no header.
unfoldable pub relay_datagram : List ℕ → List ℕ → List ℕ
relay_datagram remote_address [] = []
relay_datagram remote_address (b ∷ bs) =
    if sa_family remote_address == af_inet
    then udp_request_ipv4_bytes (record {
      reserved = 0;
      frag = 0;
      address_type = socks5_addr_ipv4;
      address = sin_addr remote_address;
      port = sin_port remote_address;
    })
      ++ (b ∷ bs)
    else udp_request_ipv6_bytes (record {
      reserved = 0;
      frag = 0;
      address_type = socks5_addr_ipv6;
      address = sin6_addr remote_address;
      port = sin_port remote_address;
    })
      ++ (b ∷ bs)

-- What is kept until the relay is known. An empty payload is dropped.
unfoldable pub enqueue : List ℕ → List ℕ → ℕ → List UdpPacket → List UdpPacket
enqueue [] remote_address remote_address_len queue = queue
enqueue (b ∷ bs) remote_address remote_address_len queue =
    queue
    ++ record {
      remote_address =
          overwrite (replicate nf_max_address_length 0) (take remote_address_len remote_address);
      remote_address_len = remote_address_len;
      buffer = b ∷ bs;
    }
      ∷ []

module _ ⦃os : Os⦄ where
  -- The first datagram that leaves starts the receives of the relay's socket.
  unfoldable pub start_receiving : ℕ → ProxyData → M UdpProxy (Unit {0})
  start_receiving id pd = if pd.udp_recv_started then pure tt else (do
    modify
        (λ s. record s { socket_map = put id (record pd { udp_recv_started = true }) s.socket_map })
    start_udp_receive pd.udp_socket id none
    pure tt)

  -- What follows WSASendTo: its failure is completed by hand.
  unfoldable pub finish_send : ℕ → ProxyData → OvData → ℕ → M UdpProxy Bool
  finish_send id pd pov r =
      if failed r
      then (do
        repost pd.udp_socket (record pov { ov_type = ovt_udp_receive; buffer = [] })
        pure false)
      else (do start_receiving id pd; pure true)

  unfoldable pub transmit : ℕ → ProxyData → List ℕ → List ℕ → M UdpProxy Bool
  transmit id pd buf remote_address = do
    fresh ← new_ov_data
    let pov = record fresh {
      ov_type = ovt_udp_send;
      id = id;
      buffer = relay_datagram remote_address buf;
    }
    r ← outside (perform (wsa_send_to pd.udp_socket pov pd.remote_address pd.remote_address_len))
    finish_send id pd pov r

  unfoldable pub udp_send_by : ℕ → List ℕ → List ℕ → ℕ → Option ProxyData → M UdpProxy Bool
  udp_send_by id buf remote_address remote_address_len none = pure false
  udp_send_by id buf remote_address remote_address_len (some pd) =
      if is_connected pd.proxy_state then transmit id pd buf remote_address else (do
        modify (λ s. record s {
          socket_map =
              put id
                (record pd {
                  udp_send_packets =
                      enqueue buf remote_address remote_address_len pd.udp_send_packets;
                })
                s.socket_map;
        })
        pure true)

  unfoldable pub udp_send : ℕ → List ℕ → List ℕ → ℕ → M UdpProxy Bool
  udp_send id buf remote_address remote_address_len = do
    found ← gets (λ s. find id s.socket_map)
    udp_send_by id buf remote_address remote_address_len found
