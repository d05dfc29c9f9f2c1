-- ===== src/Events/Threads/Phases.antt =====
-- The thread of the filter between its sections: what holds of contexts and connections while
-- udpSend or udpClosed of netfilter/NFEventHandler.cpp is under way for an endpoint, and the worker
-- thread may interfere.
use qv_plugin_netfilter.Base.{
  ℕ, ◌≡◌, ◌≢◌, sym, subst, ◌∙◌, Bool, true, false, none, if◌then◌else◌, arith,
}
use qv_plugin_netfilter.Base.Map.{find}
use qv_plugin_netfilter.Base.State.{M, Triple}
use qv_plugin_netfilter.Proxy.Overlapped.{UdpProxy}
use qv_plugin_netfilter.Proxy.Isolation.{slot}
use qv_plugin_netfilter.Proxy.Threads.{Task, finished, section, atomic, ◌>>=◌}
use qv_plugin_netfilter.Events.Handler.{EventHandler, on_proxy}
use qv_plugin_netfilter.Events.Contexts.{HasContexts}
use qv_plugin_netfilter.Events.Threads.{on_proxy_task}
use qv_plugin_netfilter.Events.Threads.Interference.{Interferes, Every, LeavesOthers}

-- `clear`: no event is under way. `bare`: the endpoint has no context. `opened`: its connection may
-- be there before its context. `usable`: it has its context. `gone`: its connection is deleted.
pub data Phase : Type 0 where
  clear : Phase
  bare opened usable gone : ℕ → Phase

-- Each connection of another endpoint belongs to an endpoint with a context.
abbrev pub OthersHave : ℕ → EventHandler → Type 0
OthersHave id s = (j : ℕ) → j ≢ id → find j s.udp_ctx_map ≡ none → slot j s.udp_proxy ≡ none

unfoldable pub At : Phase → EventHandler → Type 0
At clear s = HasContexts s
At (bare id) s = HasContexts s × (find id s.udp_ctx_map ≡ none)
At (opened id) s = OthersHave id s
At (usable id) s = HasContexts s × (find id s.udp_ctx_map ≢ none)
At (gone id) s = HasContexts s × (slot id s.udp_proxy ≡ none)

HasContexts-Interferes : {s t : EventHandler} → Interferes s t → HasContexts s → HasContexts t
HasContexts-Interferes {s} i h = record {
  at = λ j e. i.none_made j (h.at j (ground (arith, i.same_contexts)));
}

-- What the worker does leaves the phase.
pub At-Interferes : (p : Phase) {s t : EventHandler} → Interferes s t → At p s → At p t
unfolding At
At-Interferes clear i h = HasContexts-Interferes i h
At-Interferes (bare id) i h = (HasContexts-Interferes i h.0, ground (arith, i.same_contexts, h.1))
At-Interferes (opened id) i h = λ j n e. i.none_made j (h j n (ground (arith, i.same_contexts)))
At-Interferes (usable id) i h =
    (HasContexts-Interferes i h.0, λ e. h.1 (ground (arith, i.same_contexts)))
At-Interferes (gone id) i h = (HasContexts-Interferes i h.0, i.none_made id h.1)

-- The task goes from phase to phase, and ends in one that its result says.
unfoldable pub Passes : {R : Type 0} → Phase → Task EventHandler R → (R → Phase) → Type 0
Passes p (finished a) q = (s : EventHandler) → At p s → At (q a) s
Passes p (section {A} m k) q =
    (after : A → Phase) × Triple (At p) m (λ a. At (after a)) × ((a : A) → Passes (after a) (k a) q)

module _ {R : Type 0} where
  pub Passes-finished : (p : Phase) (a : R) (q : R → Phase) → q a ≡ p → Passes p (finished a) q
  unfolding Passes
  Passes-finished p a q e s h = subst (λ r. At r s) (sym e) h

  pub Passes-atomic :
      (p : Phase) (m : M EventHandler R) (q : R → Phase)
      → Triple (At p) m (λ a. At (q a))
      → Passes p (atomic m) q
  unfolding Passes
  Passes-atomic p m q h = (q, h, λ a s v. v)

  pub Passes-if :
      (b : Bool) (p : Phase) (t u : Task EventHandler R) (q : R → Phase)
      → Passes p t q
      → Passes p u q
      → Passes p (if b then t else u) q
  Passes-if true p t u q ht hu = ht
  Passes-if false p t u q ht hu = hu

  -- A phase may be left for a weaker one at any time.
  pub Passes-from :
      (p r : Phase) (t : Task EventHandler R) (q : R → Phase)
      → ((s : EventHandler) → At p s → At r s)
      → Passes r t q
      → Passes p t q
  unfolding Passes
  Passes-from p r (finished a) q w h = λ s v. h s (w s v)
  Passes-from p r (section m k) q w h = (h.0, record { at = λ s v. h.1.at s (w s v) }, h.2)

module _ {A R : Type 0} where
  pub Passes-bind :
      (p : Phase) (t : Task EventHandler A) (f : A → Task EventHandler R) (r : A → Phase)
      (q : R → Phase)
      → Passes p t r
      → ((a : A) → Passes (r a) (f a) q)
      → Passes p (t >>= f) q
  unfolding Passes ◌>>=◌
  Passes-bind p (finished a) f r q ht hf = Passes-from p (r a) (f a) q ht (hf a)
  Passes-bind p (section m k) f r q ht hf =
      (ht.0, ht.1, λ a. Passes-bind (ht.0 a) (k a) f r q (ht.2 a) hf)

-- While a connection is being made, its sections leave the others alone.
pub Passes-opened :
    (id : ℕ) {R : Type 0} (t : Task UdpProxy R)
    → Every (LeavesOthers id) t
    → Passes (opened id) (on_proxy_task t) (λ _. opened id)
unfolding Passes Every on_proxy_task At on_proxy
Passes-opened id (finished a) h = λ s v. v
Passes-opened id (section m k) h = (
  λ _. opened id,
  record { at = λ s v j n e. (h.0 j n).same s.udp_proxy ∙ v j n e },
  λ a. Passes-opened id (k a) (h.1 a),
)

module _ {R : Type 0} where
  pub Passes-proxy_if :
      (b : Bool) (p : Phase) (t u : Task UdpProxy R) (q : R → Phase)
      → Passes p (on_proxy_task t) q
      → Passes p (on_proxy_task u) q
      → Passes p (on_proxy_task (if b then t else u)) q
  Passes-proxy_if true p t u q ht hu = ht
  Passes-proxy_if false p t u q ht hu = hu

  pub Passes-proxy_finished :
      (p : Phase) (a : R) (q : R → Phase) → q a ≡ p → Passes p (on_proxy_task (finished a)) q
  unfolding on_proxy_task
  Passes-proxy_finished = Passes-finished

module _ {A R : Type 0} where
  pub Passes-proxy_bind :
      (p : Phase) (t : Task UdpProxy A) (f : A → Task UdpProxy R) (r : A → Phase) (q : R → Phase)
      → Passes p (on_proxy_task t) r
      → ((a : A) → Passes (r a) (on_proxy_task (f a)) q)
      → Passes p (on_proxy_task (t >>= f)) q
  unfolding Passes on_proxy_task ◌>>=◌
  Passes-proxy_bind p (finished a) f r q ht hf =
      Passes-from p (r a) (on_proxy_task (f a)) q ht (hf a)
  Passes-proxy_bind p (section m k) f r q ht hf =
      (ht.0, ht.1, λ a. Passes-proxy_bind (ht.0 a) (k a) f r q (ht.2 a) hf)

  -- The first section, and the rest.
  pub Passes-proxy_then :
      (p : Phase) (m : M UdpProxy A) (f : A → Task UdpProxy R) (r : A → Phase) (q : R → Phase)
      → Triple (At p) (on_proxy m) (λ a. At (r a))
      → ((a : A) → Passes (r a) (on_proxy_task (f a)) q)
      → Passes p (on_proxy_task (atomic m >>= f)) q
  unfolding Passes on_proxy_task ◌>>=◌
  Passes-proxy_then p m f r q hm hf = (r, hm, hf)
