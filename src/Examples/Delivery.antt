-- ===== src/Examples/Delivery.antt =====
-- An application sends a datagram on an endpoint whose relay is asked for, and another endpoint opens.
use qv_plugin_netfilter.Base.{if◌then◌else◌, ◌≡◌, ◌≢◌, refl, none, [], ◌∷◌, ◌++◌, arith, replicate}
use qv_plugin_netfilter.Base.Map.{find, put}
use qv_plugin_netfilter.Base.State.{◌>>=◌, pure, gets, modify}
use qv_plugin_netfilter.Events.Data.{UdpConnInfo}
use qv_plugin_netfilter.Events.Handler.{EventHandler, on_proxy, on_system}
use qv_plugin_netfilter.Events.Udp
use qv_plugin_netfilter.Events.Udp.{udp_created, ensure_context, send_or_bypass}
use qv_plugin_netfilter.Events.Contexts.{Reach, here, next, udp_sends, udp_opens}
use qv_plugin_netfilter.Proxy.Send
use qv_plugin_netfilter.Proxy.Send.{udp_send_by}
use qv_plugin_netfilter.Proxy.Channel.{closed, channel, channels}
use qv_plugin_netfilter.Proxy.Channel.Fifo.{committed}
use qv_plugin_netfilter.Events.Delivery.History.{IsFair, AreFair, all_handed, Reach-delivered}
use qv_plugin_netfilter.Examples.Setting.{willing, resolver}
use qv_plugin_netfilter.Examples.Datagrams.{
  handler, known, opened, granted, resolver-AreBytes, waiting_proxy,
}
use qv_plugin_netfilter.Events.Client.{received, complete-received}
use qv_plugin_netfilter.Events.Udp.{as_handler}
use qv_plugin_netfilter.Proxy.Worker.{complete}
use qv_plugin_netfilter.Proxy.Overlapped.{outside, start_udp_receive}
use qv_plugin_netfilter.Proxy.Send.{relay_datagram}
use qv_plugin_netfilter.Sockaddr.{sockaddr_in, sin_addr, sin_port}
use qv_plugin_netfilter.Base.Int.{pos}
use qv_plugin_netfilter.Base.{length, some}
use qv_plugin_netfilter.Events.Routes.{send_answer, proxied, udp_send-open}
use qv_plugin_netfilter.System.{failed, perform, dequeued, nf_udp_post_receive, nf_udp_post_send}
use qv_plugin_netfilter.Examples.Lifecycle.{always}

abbrev endpoint : UdpConnInfo
endpoint = record { process_id = 1; local_address = replicate 28 0 }

abbrev asking : EventHandler
asking = (Udp.udp_send 7 resolver (4 ∷ 5 ∷ []) none handler).1

abbrev history : Reach handler (udp_created 8 endpoint asking).1
history =
    next (next here (udp_sends 7 resolver (4 ∷ 5 ∷ []) none handler)) (udp_opens 8 endpoint asking)

history-AreFair : AreFair 7 history
unfolding AreFair IsFair
history-AreFair = ((tt, record { filled = λ e. ground (arith, e); whole = refl; sized = refl }), tt)

still_open : channels (udp_created 8 endpoint asking).1.udp_proxy 7 ≢ closed
unfolding udp_created Udp.udp_send ensure_context send_or_bypass Send.udp_send udp_send_by on_proxy
    on_system ◌>>=◌ pure gets modify find put channel
still_open e = ground (arith, e)

Reach-delivered_example :
    committed 7 (udp_created 8 endpoint asking).1.udp_proxy
    ≡ committed 7 handler.udp_proxy ++ all_handed 7 history
unfolding find
Reach-delivered_example =
    Reach-delivered 7 history history-AreFair (λ e. ground (arith, e)) still_open

-- The endpoint with an open connection.
abbrev open_handler : EventHandler
open_handler = record handler { udp_proxy = record waiting_proxy { socket_map = (7, opened) ∷ [] } }

udp_send-open_example : (Udp.udp_send 7 resolver (4 ∷ []) none open_handler).1 ≡ (
    if failed (send_answer 7 resolver (4 ∷ []) opened open_handler.udp_proxy)
    then (on_system (perform (nf_udp_post_send 7 resolver (4 ∷ []) none)) (record open_handler {
      udp_proxy = (proxied 7 resolver (4 ∷ []) open_handler.udp_proxy).1;
    })).1
    else record open_handler { udp_proxy = (proxied 7 resolver (4 ∷ []) open_handler.udp_proxy).1 })
unfolding find
udp_send-open_example =
    udp_send-open 7 resolver (4 ∷ []) none known opened open_handler refl refl refl

complete-received_example :
    (on_proxy
      (complete
        (as_handler handler)
        101
        (length (relay_datagram resolver (1 ∷ 2 ∷ [])))
        (received granted resolver (1 ∷ 2 ∷ []) (9 ∷ []))
        0)
      handler).1
    ≡ record handler {
      udp_proxy =
          (start_udp_receive 101 7
            (some (received granted resolver (1 ∷ 2 ∷ []) (9 ∷ [])))
            (outside
              (perform (
                nf_udp_post_receive 7
                  (sockaddr_in (sin_addr resolver) (sin_port resolver))
                  (1 ∷ 2 ∷ 9 ∷ [])
                  (pos 2)
                  none))
              (outside
                (perform (dequeued (received granted resolver (1 ∷ 2 ∷ []) (9 ∷ []))))
                handler.udp_proxy).1).1).1;
    }
unfolding find
complete-received_example =
    complete-received handler known 101 0 granted resolver 1 (2 ∷ []) (9 ∷ []) refl
      resolver-AreBytes refl (omega arith)
