-- ===== src/Events/Threads/Filter.antt =====
-- createProxyConnection of netfilter/UDPProxy.cpp, as udpSend of netfilter/NFEventHandler.cpp calls
-- it, passes from phase to phase.
pub mod Udp
use qv_plugin_netfilter.Base.{
  ℕ, ◌≡◌, ◌≢◌, refl, ◌∙◌, Bool-cases, inl, inr, Bool, true, false, Option, none, some, List, ◌==◌,
  if◌then◌else◌, arith,
}
use qv_plugin_netfilter.Base.Map.{find, put, erase, find-put, find-put_self, find-erase}
use qv_plugin_netfilter.Base.State.{M, gets, modify, Triple, Triple-gets, Keeps, Keeps-gets}
use qv_plugin_netfilter.System.{World, Os}
use qv_plugin_netfilter.Proxy.Overlapped.{UdpProxy, outside, new_ov_data, delete_ov_data}
use qv_plugin_netfilter.Proxy.Receive.{delete_proxy_connection}
use qv_plugin_netfilter.Proxy.Connections.{insert_connection}
use qv_plugin_netfilter.Proxy.Isolation.{
  slot, put-slot, outside-slot, new_ov_data-slot, delete_ov_data-slot, delete_proxy_connection-slot,
}
use qv_plugin_netfilter.Proxy.Isolation.Absent.{delete_proxy_connection-absent}
use qv_plugin_netfilter.Proxy.Threads.{Task, finished, atomic, ◌>>=◌}
use qv_plugin_netfilter.Proxy.Threads.Sections.{
  start_connect_task, open_connection_task, create_proxy_connection_task,
}
use qv_plugin_netfilter.Events.Data.{UdpConnInfo, UdpContext}
use qv_plugin_netfilter.Events.Handler.{EventHandler, Lookup, on_proxy, on_system}
use qv_plugin_netfilter.Events.Contexts.{HasContexts, system-Contexts}
use qv_plugin_netfilter.Events.Contexts.History.{proxy_send-Contexts}
use qv_plugin_netfilter.Events.Threads.{
  on_proxy_task, ensure_context_task, send_or_bypass_task, udp_send_task, udp_closed_task,
}
use qv_plugin_netfilter.Events.Threads.Interference.{
  Every, Every-finished, Every-atomic, Every-if, Every-bind, LeavesOthers, on_proxy-Yields,
  Keeps-MakesNone,
}
use qv_plugin_netfilter.Events.Threads.Phases.{
  Phase, clear, bare, opened, usable, gone, At, At-Interferes, Passes, Passes-finished,
  Passes-atomic, Passes-if, Passes-from, Passes-bind, Passes-opened, Passes-proxy_if,
  Passes-proxy_finished, Passes-proxy_bind, Passes-proxy_then,
}

-- A call of the system by the proxy leaves every phase.
outside-stays :
    {A : Type 0} (p : Phase) (m : M World A) → Triple (At p) (on_proxy (outside m)) (λ _. At p)
outside-stays p m = record {
  at = λ s v. At-Interferes p (on_proxy-Yields _ (Keeps-MakesNone _ (λ j. outside-slot j m)) s) v;
}

module _ ⦃os : Os⦄ (id : ℕ) where
  section-leaves :
      {A : Type 0} (m : M UdpProxy A)
      → ((j : ℕ) → Keeps (slot j) m)
      → Every (LeavesOthers id) (atomic m)
  section-leaves m k = Every-atomic (LeavesOthers id) m (λ j n. k j)

  start_connect_task-leaves :
      (socket : ℕ) (addr : List ℕ) (addr_len : ℕ)
      → Every (LeavesOthers id) (start_connect_task socket addr addr_len id)
  unfolding start_connect_task
  start_connect_task-leaves socket addr addr_len =
      Every-bind (LeavesOthers id) _ _ (section-leaves _ new_ov_data-slot) λ fresh.
        Every-bind (LeavesOthers id) _ _ (section-leaves _ (λ j. outside-slot j _)) λ _.
          Every-bind (LeavesOthers id) _ _ (section-leaves _ (λ j. outside-slot j _)) λ r.
            Every-if (LeavesOthers id) _ _ _
              (Every-bind (LeavesOthers id) _ _ (section-leaves _ (λ j. delete_ov_data-slot j _))
                λ _. Every-finished (LeavesOthers id) false)
              (Every-finished (LeavesOthers id) true)

  open_connection_task-leaves :
      (tcp_socket udp_socket : ℕ)
      → Every (LeavesOthers id) (open_connection_task id tcp_socket udp_socket)
  unfolding open_connection_task insert_connection modify
  open_connection_task-leaves tcp_socket udp_socket =
      Every-bind (LeavesOthers id) _ _
        (Every-atomic (LeavesOthers id) (insert_connection id tcp_socket udp_socket)
          (λ j n. record { same = λ s. (put-slot id j n _).same s }))
        λ _. Every-bind (LeavesOthers id) _ _ (section-leaves _ (λ j. Keeps-gets _)) λ service.
          Every-bind (LeavesOthers id) _ _ (section-leaves _ (λ j. outside-slot j _)) λ tcp_ok.
            Every-if (LeavesOthers id) tcp_ok _ _
              (Every-bind (LeavesOthers id) _ _ (section-leaves _ (λ j. outside-slot j _)) λ udp_ok.
                Every-if (LeavesOthers id) udp_ok _ _
                  (Every-bind (LeavesOthers id) _ _ (section-leaves _ (λ j. Keeps-gets _))
                    λ address.
                      Every-bind (LeavesOthers id) _ _ (section-leaves _ (λ j. Keeps-gets _))
                        λ address_len. start_connect_task-leaves tcp_socket address address_len)
                  (Every-finished (LeavesOthers id) false))
              (Every-finished (LeavesOthers id) false)

  -- After createProxyConnection, by its result.
  abbrev pub made_phase : Bool → Phase
  made_phase made = if made then opened id else clear

  -- The connection that could not be opened is deleted.
  pub delete_opened :
      Triple (At (opened id)) (on_proxy (delete_proxy_connection id)) (λ _. At clear)
  unfolding At on_proxy
  delete_opened = record {
    at = λ s h. record {
      at = λ j e. elim (Bool-cases (id == j)) [
        | inl same ↦ ground (arith, delete_proxy_connection-absent id s.udp_proxy)
        | inr other ↦
            (delete_proxy_connection-slot id j (ground arith)).same s.udp_proxy
            ∙ h j (ground arith) e
      ];
    };
  }

  not_made : Passes (bare id) (on_proxy_task (finished false)) made_phase
  unfolding At
  not_made =
      Passes-from (bare id) clear _ made_phase (λ s h. h.0)
        (Passes-proxy_finished clear false made_phase refl)

  pub create-Passes : Passes (bare id) (on_proxy_task (create_proxy_connection_task id)) made_phase
  unfolding create_proxy_connection_task At
  create-Passes =
      Passes-proxy_then (bare id) _ _ (λ _. bare id) made_phase (outside-stays (bare id) _)
        λ tcp. Passes-proxy_if _ (bare id) _ _ made_phase not_made (
          Passes-proxy_then (bare id) _ _ (λ _. bare id) made_phase (outside-stays (bare id) _)
            λ udp.
              Passes-proxy_if _ (bare id) _ _ made_phase
                (Passes-proxy_then (bare id) _ _ (λ _. bare id) made_phase
                  (outside-stays (bare id) _) λ _. not_made)
                (Passes-proxy_bind (bare id) _ _ (λ _. opened id) made_phase
                  (Passes-from (bare id) (opened id) _ (λ _. opened id) (λ s h j n e. h.0.at j e)
                    (Passes-opened id _ (open_connection_task-leaves tcp udp)))
                  λ result.
                    Passes-proxy_if result (opened id) _ _ made_phase
                      (Passes-proxy_finished (opened id) true made_phase refl)
                      (Passes-proxy_then (opened id) _ _ (λ _. clear) made_phase delete_opened
                        λ _. Passes-proxy_finished clear false made_phase refl)))
