-- ===== src/Events/Threads/History.antt =====
-- Histories of the event handler of netfilter/NFEventHandler.cpp: one thread of the filter with one
-- event after the other, while any number of completions are handled in between.
use qv_plugin_netfilter.Base.{ℕ, zero, suc, ◌<◌, ◌≡◌, refl, true, Option, List, [], ◌∷◌, count}
use qv_plugin_netfilter.System.{Os, perform, dequeued}
use qv_plugin_netfilter.System.Completions.{in_flight}
use qv_plugin_netfilter.Proxy.Data.{OvData}
use qv_plugin_netfilter.Proxy.Overlapped.{outside}
use qv_plugin_netfilter.Proxy.Isolation.{outside-slot}
use qv_plugin_netfilter.Proxy.Threads.{Task, finished, section, atomic, advance, is_finished, turn}
use qv_plugin_netfilter.Events.Data.{TcpConnInfo, UdpConnInfo}
use qv_plugin_netfilter.Events.Handler.{EventHandler, Lookup, on_proxy}
use qv_plugin_netfilter.Events.Tcp.{
  tcp_connect_request, tcp_connected, tcp_closed, tcp_receive, tcp_send,
}
use qv_plugin_netfilter.Events.Udp.{udp_created, udp_receive}
use qv_plugin_netfilter.Events.Contexts.{
  HasContexts, tcp_asks, tcp_opens, tcp_closes, tcp_receives, tcp_sends, udp_opens, udp_receives,
}
use qv_plugin_netfilter.Events.Contexts.History.{Step-Contexts}
use qv_plugin_netfilter.Events.Threads.{udp_send_task, udp_closed_task, complete_task}
use qv_plugin_netfilter.Events.Threads.Interference.{
  Every, Yields, on_proxy-Yields, Keeps-MakesNone, complete_task-Yields,
}
use qv_plugin_netfilter.Events.Threads.Phases.{
  Phase, clear, At, At-Interferes, Passes, Passes-finished, Passes-atomic,
}
use qv_plugin_netfilter.Events.Threads.Filter.Udp.{udp_send-Passes, udp_closed-Passes}

-- An event of the filter, with its arguments.
pub data FilterEvent : Type 0 where
  tcp_connect_request_event tcp_connected_event tcp_closed_event :
      (id : ℕ) → TcpConnInfo → FilterEvent
  tcp_receive_event tcp_send_event : (id : ℕ) (buf : List ℕ) → FilterEvent
  udp_created_event udp_closed_event : (id : ℕ) → UdpConnInfo → FilterEvent
  udp_receive_event udp_send_event :
      (id : ℕ) (addr buf : List ℕ) (options : Option (List ℕ)) → FilterEvent

abbrev pub Work : Type 1
Work = Task EventHandler (Unit {0})

pub record Running : Type 1 where
  pub events : EventHandler
  pub filter : Work
  pub workers : List Work

module _ ⦃os : Os⦄ ⦃lookup : Lookup⦄ where
  -- The method of the event: those that call nothing of the proxy are one section.
  unfoldable pub event_task : FilterEvent → Work
  event_task (tcp_connect_request_event id info) =
      atomic (λ s. (tt, (tcp_connect_request id info s).1))
  event_task (tcp_connected_event id info) = atomic (tcp_connected id info)
  event_task (tcp_closed_event id info) = atomic (tcp_closed id info)
  event_task (tcp_receive_event id buf) = atomic (tcp_receive id buf)
  event_task (tcp_send_event id buf) = atomic (tcp_send id buf)
  event_task (udp_created_event id info) = atomic (udp_created id info)
  event_task (udp_closed_event id info) = udp_closed_task id info
  event_task (udp_receive_event id addr buf options) = atomic (udp_receive id addr buf options)
  event_task (udp_send_event id addr buf options) = udp_send_task id addr buf options

  abbrev pub filter_moved : Running → Running
  filter_moved x = record x {
    events = (advance x.filter x.events).1;
    filter = (advance x.filter x.events).0;
  }

  abbrev pub worker_moved : ℕ → Running → Running
  worker_moved i x = record x {
    events = (turn i x.workers x.events).1;
    workers = (turn i x.workers x.events).0;
  }

  abbrev pub taken_up : ℕ → ℕ → OvData → ℕ → Running → Running
  taken_up socket transferred pov error x = record x {
    events = (on_proxy (outside (perform (dequeued pov))) x.events).1;
    workers = complete_task pov.ov_type socket transferred pov error ∷ x.workers;
  }

  pub data Step : Running → Running → Type 1 where
    filter_turns : (x : Running) → Step x (filter_moved x)
    worker_turns : (i : ℕ) (x : Running) → Step x (worker_moved i x)
    -- The filter's thread has no event under way when the next one comes.
    begins :
        (e : FilterEvent) (x : Running)
        → is_finished x.filter ≡ true
        → Step x (record x { filter = event_task e })
    takes_up :
        (socket transferred : ℕ) (pov : OvData) (error : ℕ) (x : Running)
        → 0 < count pov.ptr (in_flight x.events.udp_proxy.world.trace)
        → Step x (taken_up socket transferred pov error x)

  pub data Reach (x : Running) : Running → Type 1 where
    here : Reach x x
    next : {y z : Running} → Reach x y → Step y z → Reach x z

abbrev pub resting : EventHandler → Running
resting s = record { events = s; filter = finished tt; workers = [] }

-- The work of the worker's thread yields to the filter's.
abbrev AllYield : List Work → Type 0
AllYield [] = Unit
AllYield (t ∷ ts) = Every Yields t × AllYield ts

abbrev IsSound : Running → Type 0
IsSound x = (p : Phase) × At p x.events × Passes p x.filter (λ _. clear) × AllYield x.workers

advance-Passes :
    (p : Phase) (t : Work) (s : EventHandler)
    → At p s
    → Passes p t (λ _. clear)
    → (r : Phase) × At r (advance t s).1 × Passes r (advance t s).0 (λ _. clear)
unfolding advance Passes
advance-Passes p (finished a) s v h = (p, v, h)
advance-Passes p (section m k) s v h = (h.0 (m s).0, h.1.at s v, h.2 (m s).0)

turn-Yields :
    (i : ℕ) (ts : List Work) (p : Phase) (s : EventHandler)
    → AllYield ts
    → At p s
    → At p (turn i ts s).1 × AllYield (turn i ts s).0
unfolding turn advance Every
turn-Yields i [] p s h v = (v, tt)
turn-Yields zero (finished a ∷ ts) p s h v = (v, h)
turn-Yields zero (section m k ∷ ts) p s h v =
    let left : AllYield (k (m s).0 ∷ ts) = (h.0.1 (m s).0, h.1) in
    (At-Interferes p (h.0.0 s) v, left)
turn-Yields (suc i) (t ∷ ts) p s h v =
    let (v', h') = turn-Yields i ts p s h.1 v in
    let left : AllYield (t ∷ (turn i ts s).0) = (h.0, h') in (v', left)

-- A thread that has finished has left the phase clear.
finished-clear :
    (p : Phase) (t : Work) (s : EventHandler)
    → is_finished t ≡ true
    → Passes p t (λ _. clear)
    → At p s
    → At clear s
unfolding is_finished Passes
finished-clear p (finished a) s e h v = h s v
finished-clear p (section m k) s e h v = cc

module _ ⦃os : Os⦄ ⦃lookup : Lookup⦄ where
  event-Passes : (e : FilterEvent) → Passes clear (event_task e) (λ _. clear)
  unfolding event_task At
  event-Passes (udp_closed_event id info) = udp_closed-Passes id info
  event-Passes (udp_send_event id addr buf options) = udp_send-Passes id addr buf options
  event-Passes (tcp_connect_request_event id info) =
      Passes-atomic clear _ _ (record { at = λ s. Step-Contexts (tcp_asks id info s) })
  event-Passes (tcp_connected_event id info) =
      Passes-atomic clear _ _ (record { at = λ s. Step-Contexts (tcp_opens id info s) })
  event-Passes (tcp_closed_event id info) =
      Passes-atomic clear _ _ (record { at = λ s. Step-Contexts (tcp_closes id info s) })
  event-Passes (tcp_receive_event id buf) =
      Passes-atomic clear _ _ (record { at = λ s. Step-Contexts (tcp_receives id buf s) })
  event-Passes (tcp_send_event id buf) =
      Passes-atomic clear _ _ (record { at = λ s. Step-Contexts (tcp_sends id buf s) })
  event-Passes (udp_created_event id info) =
      Passes-atomic clear _ _ (record { at = λ s. Step-Contexts (udp_opens id info s) })
  event-Passes (udp_receive_event id addr buf options) =
      Passes-atomic clear _ _
        (record { at = λ s. Step-Contexts (udp_receives id addr buf options s) })

  Step-IsSound : {x y : Running} → Step x y → IsSound x → IsSound y
  Step-IsSound (filter_turns x) (p, v, h, ws) =
      let (r, v', h') = advance-Passes p x.filter x.events v h in (r, v', h', ws)
  Step-IsSound (worker_turns i x) (p, v, h, ws) =
      let (v', ws') = turn-Yields i x.workers p x.events ws v in (p, v', h, ws')
  Step-IsSound (begins e x done) (p, v, h, ws) =
      (clear, finished-clear p x.filter x.events done h v, event-Passes e, ws)
  Step-IsSound (takes_up socket transferred pov error x e) (p, v, h, ws) =
      let more : AllYield (complete_task pov.ov_type socket transferred pov error ∷ x.workers) =
        (complete_task-Yields pov.ov_type socket transferred pov error, ws) in
      (
        p,
        At-Interferes p (on_proxy-Yields _ (Keeps-MakesNone _ (λ j. outside-slot j _)) x.events) v,
        h,
        more,
      )

  Reach-IsSound : {s : EventHandler} {x : Running} → Reach (resting s) x → HasContexts s → IsSound x
  unfolding At
  Reach-IsSound here v = (clear, v, Passes-finished clear tt (λ _. clear) refl, tt)
  Reach-IsSound (next r st) v = Step-IsSound st (Reach-IsSound r v)

  -- Whenever the filter's thread is between two events, each connection of the proxy belongs to an
  -- endpoint that has a context, however the sections of the filter's thread and of the handlers of
  -- completions were interleaved before, if it was so at the start. The events of the filter come
  -- one after the other.
  pub Reach-Contexts_between :
      {s : EventHandler} {x : Running}
      → Reach (resting s) x
      → HasContexts s
      → is_finished x.filter ≡ true
      → HasContexts x.events
  unfolding At
  Reach-Contexts_between {x = x} r v done =
      let (p, at_p, h, ws) = Reach-IsSound r v in finished-clear p x.filter x.events done h at_p
