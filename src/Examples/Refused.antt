-- ===== src/Examples/Refused.antt =====
-- A relay is granted while a datagram waits, and the system refuses it.
use qv_plugin_netfilter.Base.{ℕ, ◌≡◌, refl, some, List, [], ◌∷◌, ◌++◌, map, arith}
use qv_plugin_netfilter.Base.Map.{find}
use qv_plugin_netfilter.Socks.{response_at, response_ipv4_at}
use qv_plugin_netfilter.System.{Event, SysCall, Os, wsa_send_to}
use qv_plugin_netfilter.System.Sent.{sent}
use qv_plugin_netfilter.Proxy.Data.{ProxyData, ps_connected}
use qv_plugin_netfilter.Proxy.Handshake.{relay_address, on_tcp_receive_complete}
use qv_plugin_netfilter.Proxy.Queue.Drain.{encode}
use qv_plugin_netfilter.Proxy.Queue.Refused.{RefusesSends, accepted, on_tcp_receive_complete-loses}
use qv_plugin_netfilter.Examples.Datagrams.{queued, waiting, waiting_proxy, granted, relay}

-- WSAENOBUFS
abbrev answer : List Event → SysCall → ℕ
answer trace (wsa_send_to socket pov addr len) = 10055
answer trace _ = 0

instance abbrev unwilling : Os
unwilling = record { answer = answer }

unwilling-RefusesSends : RefusesSends unwilling
unwilling-RefusesSends = record { refused = λ trace socket pov addr len. refl }

on_tcp_receive_complete-loses_example :
    (opened : ProxyData) × (find 7
        (on_tcp_receive_complete 100 10 granted waiting_proxy).1.socket_map
      ≡ some opened)
    × (opened.proxy_state ≡ ps_connected)
    × (opened.udp_send_packets ≡ [])
    × (sent (on_tcp_receive_complete 100 10 granted waiting_proxy).1.world.trace
        ≡ sent waiting_proxy.world.trace ++ map (encode 7) (queued ∷ []))
    × (accepted (on_tcp_receive_complete 100 10 granted waiting_proxy).1.world.trace
        ≡ accepted waiting_proxy.world.trace)
unfolding relay_address response_at response_ipv4_at find
on_tcp_receive_complete-loses_example =
    on_tcp_receive_complete-loses unwilling-RefusesSends 100 10 granted waiting waiting_proxy relay
      16 refl refl (omega arith) refl refl refl
