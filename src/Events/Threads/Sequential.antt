-- ===== src/Events/Threads/Sequential.antt =====
-- The sections of udpSend, udpClosed and the handlers of completions of
-- netfilter/NFEventHandler.cpp, one after the other, are the methods.
use qv_plugin_netfilter.Base.{
  ℕ, Bool, true, false, Option, none, some, List, ◌≡◌, ◌==◌, refl, ◌∙◌, ap, if◌then◌else◌,
}
use qv_plugin_netfilter.Base.State.{M, pure, gets}
use qv_plugin_netfilter.Base.State
use qv_plugin_netfilter.System.{Os}
use qv_plugin_netfilter.Proxy.Data.{
  OvType, ovt_connect, ovt_tcp_send, ovt_tcp_receive, ovt_udp_send, ovt_udp_receive, OvData,
}
use qv_plugin_netfilter.Proxy.Overlapped.{UdpProxy, outside, delete_ov_data, start_udp_receive}
use qv_plugin_netfilter.Proxy.Receive.{UdpProxyHandler, deliver, on_udp_receive_complete}
use qv_plugin_netfilter.Proxy.Connections.{dispatch, on_complete}
use qv_plugin_netfilter.Proxy.Threads.{Task, finished, section, atomic, run, Runs}
use qv_plugin_netfilter.Proxy.Threads.Sequential.{
  Runs-finished, Runs-atomic, Runs-if, Runs-bind, start_udp_receive_task-Runs,
  create_proxy_connection_task-Runs, on_connect_complete_task-Runs,
  on_tcp_receive_complete_task-Runs,
}
use qv_plugin_netfilter.Events.Data.{UdpConnInfo, UdpContext}
use qv_plugin_netfilter.Events.Handler.{EventHandler, Lookup, on_proxy}
use qv_plugin_netfilter.Events.Udp.{
  as_handler, udp_created, udp_receive, udp_closed, ensure_context, send_or_bypass, udp_send,
}
use qv_plugin_netfilter.Events.Tcp.{
  tcp_connect_request, tcp_connected, tcp_closed, tcp_receive, tcp_send,
}
use qv_plugin_netfilter.Events.Threads.History.{
  FilterEvent, tcp_connect_request_event, tcp_connected_event, tcp_closed_event, tcp_receive_event,
  tcp_send_event, udp_created_event, udp_closed_event, udp_receive_event, udp_send_event,
  event_task,
}
use qv_plugin_netfilter.Events.Threads.{
  on_proxy_task, ensure_context_task, send_or_bypass_task, udp_send_task, udp_closed_task,
  hand_back_task, complete_task,
}

run-on_proxy_task :
    {R : Type 0} (t : Task UdpProxy R) (s : EventHandler)
    → run (on_proxy_task t) s ≡ on_proxy (run t) s
unfolding run on_proxy_task on_proxy
run-on_proxy_task (finished a) s = refl
run-on_proxy_task (section m k) s = run-on_proxy_task (k (m s.udp_proxy).0) _

on_proxy_task-Runs :
    {R : Type 0} {t : Task UdpProxy R} {m : M UdpProxy R}
    → Runs t m
    → Runs (on_proxy_task t) (on_proxy m)
unfolding on_proxy
on_proxy_task-Runs {R} {t} {m} h = record {
  same = λ s.
      run-on_proxy_task t s
      ∙ ap (λ (r : R × UdpProxy). (r.0, record s { udp_proxy = r.1 })) (h.same s.udp_proxy);
}

module _ ⦃os : Os⦄ where
  ensure_context_task-Runs :
      (id : ℕ) (options : Option (List ℕ)) (found : Option UdpContext)
      → Runs (ensure_context_task id options found) (ensure_context id options found)
  unfolding ensure_context_task ensure_context
  ensure_context_task-Runs id options (some ctx) = Runs-finished true
  ensure_context_task-Runs id options none =
      Runs-bind (on_proxy_task-Runs (create_proxy_connection_task-Runs id)) λ made.
        Runs-if made (Runs-bind (Runs-atomic _) λ _. Runs-finished true) (Runs-finished false)

  send_or_bypass_task-Runs :
      (id : ℕ) (addr buf : List ℕ) (options : Option (List ℕ))
      → Runs (send_or_bypass_task id addr buf options) (send_or_bypass id addr buf options)
  unfolding send_or_bypass_task send_or_bypass
  send_or_bypass_task-Runs id addr buf options =
      Runs-bind (Runs-atomic _)
        λ sent. Runs-if sent (Runs-finished tt) (Runs-bind (Runs-atomic _) λ _. Runs-finished tt)

  udp_send_task-Runs :
      (id : ℕ) (addr buf : List ℕ) (options : Option (List ℕ))
      → Runs (udp_send_task id addr buf options) (udp_send id addr buf options)
  unfolding udp_send_task udp_send
  udp_send_task-Runs id addr buf options = Runs-bind (Runs-atomic _) λ found.
      Runs-bind (ensure_context_task-Runs id options found)
        λ ready. Runs-if ready (send_or_bypass_task-Runs id addr buf options) (Runs-finished tt)

  udp_closed_task-Runs :
      ⦃lookup : Lookup⦄ (id : ℕ) (info : UdpConnInfo)
      → Runs (udp_closed_task id info) (udp_closed id info)
  unfolding udp_closed_task udp_closed
  udp_closed_task-Runs id info =
      Runs-bind (Runs-atomic _) λ _. Runs-bind (Runs-atomic _) λ _. Runs-atomic _

  handler_if :
      (b : Bool) {t : Task EventHandler (Unit {0})} (m : M UdpProxy (Unit {0}))
      (n : UdpProxyHandler → M UdpProxy (Unit {0}))
      → Runs t (λ s. on_proxy (n (as_handler s)) s)
      → Runs
          (if b then atomic (on_proxy m) else t)
          (λ s. on_proxy (if b then m else n (as_handler s)) s)
  handler_if true m n h = record { same = (Runs-atomic (on_proxy m)).same }
  handler_if false m n h = h

  hand_back_task-Runs :
      (socket transferred : ℕ) (pov : OvData)
      → Runs
          (hand_back_task socket transferred pov)
          (λ s. on_proxy (on_udp_receive_complete (as_handler s) socket transferred pov) s)
  unfolding hand_back_task on_udp_receive_complete on_proxy State.◌>>=◌ pure
  hand_back_task-Runs socket transferred pov =
      handler_if (transferred == 0) (delete_ov_data pov)
        (λ h.
          State.◌>>=◌ (outside (deliver h transferred pov.id pov.buffer))
            (λ _. State.◌>>=◌ (start_udp_receive socket pov.id (some pov)) (λ _. pure tt)))
        (record {
          same =
              (Runs-bind
                (Runs-atomic (λ s.
                  on_proxy (outside (deliver (as_handler s) transferred pov.id pov.buffer)) s))
                λ _.
                  Runs-bind (on_proxy_task-Runs (start_udp_receive_task-Runs socket pov.id pov))
                    λ _. Runs-finished tt).same;
        })

  complete_task-Runs :
      (t : OvType) (socket transferred : ℕ) (pov : OvData) (error : ℕ)
      → Runs
          (complete_task t socket transferred pov error)
          (λ s. on_proxy (dispatch (as_handler s) t socket transferred pov error) s)
  unfolding complete_task dispatch
  complete_task-Runs ovt_udp_send socket transferred pov error = record {
    same = (Runs-atomic (on_proxy (delete_ov_data pov))).same;
  }
  complete_task-Runs ovt_udp_receive socket transferred pov error =
      hand_back_task-Runs socket transferred pov
  complete_task-Runs ovt_connect socket transferred pov error = record {
    same = (on_proxy_task-Runs (on_connect_complete_task-Runs socket transferred pov error)).same;
  }
  complete_task-Runs ovt_tcp_send socket transferred pov error = record {
    same = (Runs-atomic (on_proxy (delete_ov_data pov))).same;
  }
  complete_task-Runs ovt_tcp_receive socket transferred pov error = record {
    same = (on_proxy_task-Runs (on_tcp_receive_complete_task-Runs socket transferred pov)).same;
  }

module _ ⦃os : Os⦄ ⦃lookup : Lookup⦄ where
  -- The method of an event, with its result left out.
  unfoldable pub event_method : FilterEvent → M EventHandler (Unit {0})
  event_method (tcp_connect_request_event id info) s = (tt, (tcp_connect_request id info s).1)
  event_method (tcp_connected_event id info) s = tcp_connected id info s
  event_method (tcp_closed_event id info) s = tcp_closed id info s
  event_method (tcp_receive_event id buf) s = tcp_receive id buf s
  event_method (tcp_send_event id buf) s = tcp_send id buf s
  event_method (udp_created_event id info) s = udp_created id info s
  event_method (udp_closed_event id info) s = udp_closed id info s
  event_method (udp_receive_event id addr buf options) s = udp_receive id addr buf options s
  event_method (udp_send_event id addr buf options) s = udp_send id addr buf options s

  run-event_task : (e : FilterEvent) (s : EventHandler) → run (event_task e) s ≡ event_method e s
  unfolding run event_task event_method
  run-event_task (udp_closed_event id info) s = (udp_closed_task-Runs id info).same s
  run-event_task (udp_send_event id addr buf options) s =
      (udp_send_task-Runs id addr buf options).same s
  run-event_task (tcp_connect_request_event id info) s = refl
  run-event_task (tcp_connected_event id info) s = refl
  run-event_task (tcp_closed_event id info) s = refl
  run-event_task (tcp_receive_event id buf) s = refl
  run-event_task (tcp_send_event id buf) s = refl
  run-event_task (udp_created_event id info) s = refl
  run-event_task (udp_receive_event id addr buf options) s = refl

  -- Run with no other thread between them, the sections of an event of the filter change the event
  -- handler, its proxy and the world as the whole method does, and so do the sections that handle a
  -- completion, whichever branch they take.
  pub run-tasks :
      (e : FilterEvent) (socket transferred : ℕ) (pov : OvData) (error : ℕ) (s : EventHandler)
      → (run (event_task e) s ≡ event_method e s)
        × (run (complete_task pov.ov_type socket transferred pov error) s
            ≡ on_proxy (on_complete (as_handler s) socket transferred pov error) s)
  unfolding on_complete
  run-tasks e socket transferred pov error s =
      (run-event_task e s, (complete_task-Runs pov.ov_type socket transferred pov error).same s)
