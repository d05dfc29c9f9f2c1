-- ===== src/Events/Threads/Filter/Udp.antt =====
-- udpSend and udpClosed of netfilter/NFEventHandler.cpp pass from phase to phase.
use qv_plugin_netfilter.Base.{
  ℕ, ◌≡◌, refl, Bool-cases, inl, inr, Bool, true, false, Option, none, some, List, ◌==◌,
  if◌then◌else◌, arith,
}
use qv_plugin_netfilter.Base.Map.{find, put, erase, find-put, find-put_self, find-erase}
use qv_plugin_netfilter.Base.State.{M, gets, modify, Triple, Triple-gets}
use qv_plugin_netfilter.System.{World, Os}
use qv_plugin_netfilter.Proxy.Receive.{delete_proxy_connection}
use qv_plugin_netfilter.Proxy.Isolation.Absent.{delete_proxy_connection-absent}
use qv_plugin_netfilter.Events.Data.{UdpConnInfo, UdpContext}
use qv_plugin_netfilter.Events.Handler.{EventHandler, Lookup, on_proxy, on_system}
use qv_plugin_netfilter.Events.Contexts.{HasContexts, system-Contexts}
use qv_plugin_netfilter.Events.Contexts.History.{proxy_send-Contexts}
use qv_plugin_netfilter.Events.Threads.{
  ensure_context_task, send_or_bypass_task, udp_send_task, udp_closed_task,
}
use qv_plugin_netfilter.Events.Threads.Phases.{
  Phase, clear, bare, opened, usable, gone, At, Passes, Passes-finished, Passes-atomic, Passes-if,
  Passes-bind,
}
use qv_plugin_netfilter.Events.Threads.Filter.{made_phase, create-Passes, delete_opened}

module _ ⦃os : Os⦄ (id : ℕ) where
  -- The context is made for the connection.
  put_context :
      (ctx : UdpContext)
      → Triple
          (At (opened id))
          (modify (λ s. record s { udp_ctx_map = put id ctx s.udp_ctx_map }))
          (λ _. At (usable id))
  unfolding At modify
  put_context ctx = record {
    at = λ s h. (
      record {
        at = λ j e. elim (Bool-cases (id == j)) [
          | inl same ↦ absurd (ground (arith, find-put id j ctx s.udp_ctx_map))
          | inr other ↦ h j (ground arith) (ground (arith, find-put id j ctx s.udp_ctx_map))
        ];
      },
      ground (arith, find-put_self id ctx s.udp_ctx_map),
    );
  }

  -- What is known when the contexts have been searched.
  abbrev found_phase : Option UdpContext → Phase
  found_phase none = bare id
  found_phase (some ctx) = usable id

  search_contexts :
      Triple (At clear) (gets (λ s. find id s.udp_ctx_map)) (λ found. At (found_phase found))
  unfolding At
  search_contexts = Triple-gets _ λ s h. known s h (find id s.udp_ctx_map) refl
    where
      known :
          (s : EventHandler)
          → HasContexts s
          → (found : Option UdpContext) → find id s.udp_ctx_map ≡ found
          → At (found_phase found) s
      known s h none e = (h, e)
      known s h (some ctx) e = (h, λ n. cc (n, e))

  abbrev ready_phase : Bool → Phase
  ready_phase ready = if ready then usable id else clear

  ensure-Passes :
      (options : Option (List ℕ)) (found : Option UdpContext)
      → Passes (found_phase found) (ensure_context_task id options found) ready_phase
  unfolding ensure_context_task
  ensure-Passes options (some ctx) = Passes-finished (usable id) true ready_phase refl
  ensure-Passes options none =
      Passes-bind (bare id) _ _ (made_phase id) ready_phase (create-Passes id) (elim [
        | true ↦
            Passes-bind (opened id) _ _ (λ _. usable id) ready_phase
              (Passes-atomic (opened id) _ (λ _. usable id) (put_context _))
              λ _. Passes-finished (usable id) true ready_phase refl
        | false ↦ Passes-finished clear false ready_phase refl
      ])

  system_stays : {A : Type 0} (m : M World A) → Triple (At clear) (on_system m) (λ _. At clear)
  unfolding At
  system_stays m = system-Contexts m

  send_or_bypass-Passes :
      (addr buf : List ℕ) (options : Option (List ℕ))
      → Passes (usable id) (send_or_bypass_task id addr buf options) (λ _. clear)
  unfolding send_or_bypass_task At
  send_or_bypass-Passes addr buf options =
      Passes-bind (usable id) _ _ (λ _. clear) (λ _. clear)
        (Passes-atomic (usable id) _ (λ _. clear) (proxy_send-Contexts id buf addr _))
        λ sent.
          Passes-if sent clear _ _ (λ _. clear) (Passes-finished clear tt (λ _. clear) refl)
            (Passes-bind clear _ _ (λ _. clear) (λ _. clear)
              (Passes-atomic clear _ (λ _. clear) (system_stays _))
              λ _. Passes-finished clear tt (λ _. clear) refl)

  pub udp_send-Passes :
      (addr buf : List ℕ) (options : Option (List ℕ))
      → Passes clear (udp_send_task id addr buf options) (λ _. clear)
  unfolding udp_send_task
  udp_send-Passes addr buf options =
      Passes-bind clear _ _ found_phase (λ _. clear)
        (Passes-atomic clear _ found_phase search_contexts)
        λ found.
          Passes-bind (found_phase found) _ _ ready_phase (λ _. clear) (ensure-Passes options found)
            (elim [
              | true ↦ send_or_bypass-Passes addr buf options
              | false ↦ Passes-finished clear tt (λ _. clear) refl
            ])

  delete_clear : Triple (At clear) (on_proxy (delete_proxy_connection id)) (λ _. At (gone id))
  unfolding At on_proxy
  delete_clear = record {
    at = λ s h. (
      (delete_opened id).at s (λ j n e. h.at j e),
      delete_proxy_connection-absent id s.udp_proxy,
    );
  }

  erase_context :
      Triple
        (At (gone id))
        (modify (λ s. record s { udp_ctx_map = erase id s.udp_ctx_map }))
        (λ _. At clear)
  unfolding At modify
  erase_context = record {
    at = λ s h. record {
      at = λ j e. elim (Bool-cases (id == j)) [
        | inl same ↦ ground (arith, h.1)
        | inr other ↦ h.0.at j (ground (arith, find-erase id j s.udp_ctx_map))
      ];
    };
  }

  pub udp_closed-Passes :
      ⦃lookup : Lookup⦄ (info : UdpConnInfo) → Passes clear (udp_closed_task id info) (λ _. clear)
  unfolding udp_closed_task
  udp_closed-Passes info =
      Passes-bind clear _ _ (λ _. clear) (λ _. clear)
        (Passes-atomic clear _ (λ _. clear) (system_stays _))
        λ _.
          Passes-bind clear _ _ (λ _. gone id) (λ _. clear)
            (Passes-atomic clear _ (λ _. gone id) delete_clear)
            λ _. Passes-atomic (gone id) _ (λ _. clear) erase_context
