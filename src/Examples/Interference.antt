-- ===== src/Examples/Interference.antt =====
-- The connect of an endpoint's connection fails, and the worker deletes the connection, before udpSend
-- has made the context.
use qv_plugin_netfilter.Base.{ℕ, zero, suc, ◌<◌, ◌≡◌, refl, true, none, [], ◌∷◌, arith, count}
use qv_plugin_netfilter.Base.Map.{find, put, erase}
use qv_plugin_netfilter.Base.State
use qv_plugin_netfilter.Base.State.{pure, gets, modify}
use qv_plugin_netfilter.System.{perform}
use qv_plugin_netfilter.System.Completions.{effect, in_flight}
use qv_plugin_netfilter.Iocp.{register_socket}
use qv_plugin_netfilter.Proxy.Data.{ovt_connect, OvData}
use qv_plugin_netfilter.Proxy.Overlapped.{outside, new_ov_data, delete_ov_data}
use qv_plugin_netfilter.Proxy.Send
use qv_plugin_netfilter.Proxy.Send.{udp_send_by}
use qv_plugin_netfilter.Proxy.Receive.{delete_proxy_connection, delete_found, destroy}
use qv_plugin_netfilter.Proxy.Connections.{insert_connection}
use qv_plugin_netfilter.Proxy.Threads.{advance, is_finished, turn, ◌>>=◌}
use qv_plugin_netfilter.Proxy.Threads.Sections.{
  start_connect_task, open_connection_task, create_proxy_connection_task, on_connect_complete_task,
}
use qv_plugin_netfilter.Events.Handler.{on_proxy, on_system}
use qv_plugin_netfilter.Events.Contexts.{HasContexts}
use qv_plugin_netfilter.Events.Threads.{
  on_proxy_task, ensure_context_task, send_or_bypass_task, udp_send_task, complete_task,
}
use qv_plugin_netfilter.Events.Threads.History.{
  udp_send_event, event_task, Running, filter_moved, worker_moved, taken_up, Reach, here, next,
  filter_turns, worker_turns, begins, takes_up, resting, Reach-Contexts_between,
}
use qv_plugin_netfilter.Examples.Setting.{willing, resolver}
use qv_plugin_netfilter.Examples.Streams.{events, events-HasContexts, unresolved}

-- The filter's thread does some sections.
abbrev goes_on : ℕ → Running → Running
goes_on zero x = x
goes_on (suc n) x = goes_on n (filter_moved x)

Reach-goes_on :
    (n : ℕ) (x : Running) → Reach (resting events) x → Reach (resting events) (goes_on n x)
Reach-goes_on zero x r = r
Reach-goes_on (suc n) x r = Reach-goes_on n (filter_moved x) (next r (filter_turns x))

abbrev connecting : OvData
connecting = record {
  ptr = 4096;
  id = 7;
  ov_type = ovt_connect;
  remote_address = [];
  remote_address_len = 0;
  buffer = [];
}

abbrev sending : Running
sending = record (resting events) { filter = event_task (udp_send_event 7 resolver (1 ∷ []) none) }

abbrev asked : Running
asked = goes_on 12 sending

-- ERROR_CONNECTION_REFUSED
abbrev refused : Running
refused = worker_moved 0 (worker_moved 0 (taken_up 100 0 connecting 1225 asked))

abbrev ended : Running
ended = goes_on 3 refused

connecting_in_flight : 0 < count 4096 (in_flight asked.events.udp_proxy.world.trace)
unfolding advance event_task udp_send_task ensure_context_task on_proxy_task on_proxy
    create_proxy_connection_task open_connection_task start_connect_task ◌>>=◌ insert_connection
    new_ov_data register_socket outside perform in_flight effect State.◌>>=◌ pure gets modify put
    find
connecting_in_flight = omega arith

Reach-ended : Reach (resting events) ended
unfolding is_finished
Reach-ended =
    let sent : Reach (resting events) sending =
      next here (begins (udp_send_event 7 resolver (1 ∷ []) none) (resting events) refl) in
    let taken : Reach (resting events) (taken_up 100 0 connecting 1225 asked) =
      next (Reach-goes_on 12 sending sent)
        (takes_up 100 0 connecting 1225 asked connecting_in_flight) in
    Reach-goes_on 3 refused (next (next taken (worker_turns 0 _)) (worker_turns 0 _))

done : is_finished ended.filter ≡ true
unfolding advance event_task udp_send_task ensure_context_task on_proxy_task on_proxy
    create_proxy_connection_task open_connection_task start_connect_task ◌>>=◌ insert_connection
    new_ov_data register_socket outside perform in_flight effect State.◌>>=◌ pure gets modify put
    find turn complete_task on_connect_complete_task delete_proxy_connection delete_found destroy
    erase delete_ov_data send_or_bypass_task Send.udp_send udp_send_by on_system is_finished
done = refl

Reach-Contexts_between_example : HasContexts ended.events
Reach-Contexts_between_example = Reach-Contexts_between Reach-ended events-HasContexts done
