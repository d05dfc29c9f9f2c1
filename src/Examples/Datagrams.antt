-- ===== src/Examples/Datagrams.antt =====
-- Datagrams to 8.8.8.8:53 and to an IPv6 address, and a relay that is granted on port 4660.
use qv_plugin_netfilter.Base.{
  ℕ, ◌+◌, ◌*◌, ◌≡◌, refl, some, none, Bool, false, List, [], ◌∷◌, ◌++◌, map, arith, replicate,
}
use qv_plugin_netfilter.Base.Bytes.{AreBytes, overwrite}
use qv_plugin_netfilter.Base.Int.{pos, negsuc}
use qv_plugin_netfilter.Base.Map.{find}
use qv_plugin_netfilter.Socks.{
  response_at, response_ipv4_at, udp_request_at, udp_request_ipv4_at, udp_request_ipv6_bytes,
}
use qv_plugin_netfilter.Sockaddr.{sockaddr_in, sockaddr_in6, sin_addr, sin6_addr, sin_port}
use qv_plugin_netfilter.Proxy.Data.{
  ovt_tcp_receive, OvData, UdpPacket, ProxyData, ps_udp_assoc, ps_connected,
}
use qv_plugin_netfilter.Proxy.Overlapped.{UdpProxy}
use qv_plugin_netfilter.Proxy.Send.{relay_datagram, udp_send}
use qv_plugin_netfilter.Proxy.Handshake.{credentials, relay_address, on_tcp_receive_complete}
use qv_plugin_netfilter.Proxy.Receive.{deliver}
use qv_plugin_netfilter.Proxy.Relay.{deliver-relay_datagram, deliver_short}
use qv_plugin_netfilter.Proxy.Queue.Transmit.{Sends}
use qv_plugin_netfilter.Proxy.Queue.Drain.{encode, on_tcp_receive_complete-Sends}
use qv_plugin_netfilter.Proxy.Ownership.History.{sends, here, next}
use qv_plugin_netfilter.Proxy.Isolation.{slot}
use qv_plugin_netfilter.Proxy.Progress.{Continues}
use qv_plugin_netfilter.Proxy.Progress.History.{IsLater, AreLater, Reach-Continues}
use qv_plugin_netfilter.Proxy.Credentials.{
  read_credentials, read_password, read_field, read_credentials-credentials,
  read_credentials_too_long,
}
use qv_plugin_netfilter.Proxy.Queue.Waiting.{send_all, padded, on_tcp_receive_complete-send_all}
use qv_plugin_netfilter.System.Sent.{sent}
use qv_plugin_netfilter.Events.Data.{UdpContext}
use qv_plugin_netfilter.Events.Handler.{EventHandler}
use qv_plugin_netfilter.Examples.Setting.{
  willing, deaf, proxy_address, fresh_proxy, resolver, resolver6,
}

pub resolver-AreBytes : AreBytes resolver
resolver-AreBytes = ground arith

resolver6-AreBytes : AreBytes resolver6
resolver6-AreBytes = ground arith

-- What `deliver` hands on for three bytes to a resolver.
deliver-relay_datagram_example :
    deliver deaf 25 7 (relay_datagram resolver6 (1 ∷ 2 ∷ 3 ∷ []) ++ (9 ∷ []))
    ≡ deaf.on_udp_receive_complete 7
        (1 ∷ 2 ∷ 3 ∷ 9 ∷ [])
        (pos 3)
        (sockaddr_in6 (sin6_addr resolver6) (sin_port resolver6))
        28
unfolding relay_datagram udp_request_ipv6_bytes
deliver-relay_datagram_example =
    deliver-relay_datagram deaf 7 resolver6 1 (2 ∷ 3 ∷ []) (9 ∷ []) resolver6-AreBytes refl
      (omega arith)

-- Six bytes, of which the fourth says IPv4.
abbrev runt : List ℕ
runt = 0 ∷ 0 ∷ 0 ∷ 1 ∷ 8 ∷ 8 ∷ []

deliver_short_example :
    deliver deaf 6 7 runt
    ≡ deaf.on_udp_receive_complete 7 []
        (negsuc 3)
        (sockaddr_in (udp_request_ipv4_at runt).address (udp_request_ipv4_at runt).port)
        16
unfolding udp_request_at
deliver_short_example = deliver_short deaf 7 6 runt (omega arith) (omega arith) refl

abbrev pub queued : UdpPacket
queued = record { remote_address = resolver; remote_address_len = 16; buffer = 1 ∷ 2 ∷ 3 ∷ [] }

-- A connection that waits for its relay, with a datagram in its queue.
abbrev pub waiting : ProxyData
waiting = record {
  tcp_socket = 100;
  udp_socket = 101;
  proxy_state = ps_udp_assoc;
  remote_address = replicate 28 0;
  remote_address_len = 0;
  user_name = [];
  user_password = [];
  udp_recv_started = false;
  udp_send_packets = queued ∷ [];
}

abbrev pub waiting_proxy : UdpProxy
waiting_proxy = record fresh_proxy { socket_map = (7, waiting) ∷ [] }

-- version 5, code 0, IPv4, 127.0.0.1:4660
abbrev pub granted : OvData
granted = record {
  ptr = 4096;
  id = 7;
  ov_type = ovt_tcp_receive;
  remote_address = [];
  remote_address_len = 0;
  buffer = 5 ∷ 0 ∷ 0 ∷ 1 ∷ 127 ∷ 0 ∷ 0 ∷ 1 ∷ 18 ∷ 52 ∷ [];
}

-- The socket address of the relay.
abbrev pub relay : List ℕ
relay = sockaddr_in (sin_addr proxy_address) (18 + 256 * 52)

on_tcp_receive_complete-Sends_example :
    (b : Bool) × Sends 7
      (record waiting {
        remote_address = overwrite waiting.remote_address relay;
        remote_address_len = 16;
        proxy_state = ps_connected;
        udp_recv_started = b;
        udp_send_packets = [];
      })
      (map (encode 7) (queued ∷ []))
      waiting_proxy
      (on_tcp_receive_complete 100 10 granted waiting_proxy).1
unfolding relay_address response_at response_ipv4_at find
on_tcp_receive_complete-Sends_example =
    on_tcp_receive_complete-Sends 100 10 granted waiting waiting_proxy relay 16 refl refl
      (omega arith) refl refl refl

-- On the open connection a datagram goes out at once.
abbrev pub opened : ProxyData
opened = record waiting { proxy_state = ps_connected; udp_send_packets = [] }

Reach-Continues_example :
    Continues waiting (slot 7 (udp_send 7 (1 ∷ 2 ∷ []) resolver 16 waiting_proxy).1)
unfolding AreLater IsLater find
Reach-Continues_example =
    Reach-Continues {h = deaf} 7 waiting
      (next here (sends 7 (1 ∷ 2 ∷ []) resolver 16 waiting_proxy)) (tt, tt) refl

read_credentials-credentials_example :
    read_credentials (credentials (117 ∷ []) (112 ∷ 119 ∷ [])) ≡ some (117 ∷ [], 112 ∷ 119 ∷ [])
read_credentials-credentials_example =
    read_credentials-credentials (117 ∷ []) (112 ∷ 119 ∷ []) (omega arith) (omega arith)

read_credentials_too_long_example :
    read_credentials (credentials (replicate 257 117) [])
    ≡ read_password (117 ∷ []) (read_field (replicate 256 117 ++ (0 ∷ [])))
read_credentials_too_long_example = read_credentials_too_long (replicate 257 117) [] (omega arith)

on_tcp_receive_complete-send_all_example :
    (sent (send_all 7 (queued ∷ []) waiting_proxy).1.world.trace ≡ sent waiting_proxy.world.trace)
    × (sent
          (on_tcp_receive_complete 100 10 granted
            (send_all 7 (queued ∷ []) waiting_proxy).1).1.world.trace
        ≡ sent waiting_proxy.world.trace
          ++ map (encode 7) (queued ∷ record queued { remote_address = padded queued } ∷ []))
unfolding relay_address response_at response_ipv4_at find
on_tcp_receive_complete-send_all_example =
    on_tcp_receive_complete-send_all 100 10 granted waiting (queued ∷ []) waiting_proxy relay 16
      refl refl (omega arith) refl refl refl

-- An event handler with that proxy, where the endpoint has its context.
abbrev pub known : UdpContext
known = record { m_options = none }

abbrev pub handler : EventHandler
handler = record {
  conn_info_map = [];
  udp_proxy = waiting_proxy;
  udp_ctx_map = (7, known) ∷ [];
  proxy_address = proxy_address;
}
