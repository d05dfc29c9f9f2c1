-- ===== src/Events/Threads/Interference.antt =====
-- What the sections of the worker thread may do to the event handler of
-- netfilter/NFEventHandler.cpp: they leave the contexts alone, and make no connection.
use qv_plugin_netfilter.Base.{
  ℕ, ◌≡◌, ◌≢◌, refl, sym, subst, ◌∙◌, Bool-cases, inl, inr, Bool, true, false, none, ◌==◌,
  if◌then◌else◌, arith,
}
use qv_plugin_netfilter.Base.State.{M, Keeps, Keeps-gets}
use qv_plugin_netfilter.System.{Os}
use qv_plugin_netfilter.Proxy.Data.{
  OvType, ovt_connect, ovt_tcp_send, ovt_tcp_receive, ovt_udp_send, ovt_udp_receive, OvData,
}
use qv_plugin_netfilter.Proxy.Overlapped.{UdpProxy, outside, delete_ov_data}
use qv_plugin_netfilter.Proxy.Receive.{deliver}
use qv_plugin_netfilter.Proxy.Isolation.{
  slot, outside-slot, delete_ov_data-slot, delete_proxy_connection-slot,
}
use qv_plugin_netfilter.Proxy.Isolation.Absent.{
  greet_connected-absent, negotiate_received-absent, delete_proxy_connection-absent,
}
use qv_plugin_netfilter.Proxy.Isolation.History.{greet_connected-slot, negotiate_received-slot}
use qv_plugin_netfilter.Proxy.Threads.{Task, finished, section, atomic, ◌>>=◌}
use qv_plugin_netfilter.Proxy.Threads.Sections.{
  repost_task, start_udp_receive_task, start_tcp_receive_task, on_connect_complete_task,
  on_tcp_receive_complete_task,
}
use qv_plugin_netfilter.Events.Handler.{EventHandler, on_proxy}
use qv_plugin_netfilter.Events.Udp.{as_handler}
use qv_plugin_netfilter.Events.Threads.{on_proxy_task, hand_back_task, complete_task}

-- What a state may become by sections of other threads.
pub record Interferes (s t : EventHandler) : Type 0 where
  pub same_contexts : t.udp_ctx_map ≡ s.udp_ctx_map
  pub none_made : (j : ℕ) → slot j s.udp_proxy ≡ none → slot j t.udp_proxy ≡ none

-- Every section of the task is of a kind.
unfoldable pub Every : {S R : Type 0} → ((A : Type 0) → M S A → Type 0) → Task S R → Type 0
Every P (finished a) = Unit
Every P (section {A} m k) = P A m × ((a : A) → Every P (k a))

module _ {S : Type 0} (P : (A : Type 0) → M S A → Type 0) where
  pub Every-finished : {R : Type 0} (a : R) → Every P (finished a)
  unfolding Every
  Every-finished a = tt

  pub Every-atomic : {A : Type 0} (m : M S A) → P A m → Every P (atomic m)
  unfolding Every
  Every-atomic m h = (h, λ a. tt)

  pub Every-if :
      {R : Type 0} (b : Bool) (t u : Task S R)
      → Every P t
      → Every P u
      → Every P (if b then t else u)
  Every-if true t u ht hu = ht
  Every-if false t u ht hu = hu

  pub Every-bind :
      {A R : Type 0} (t : Task S A) (f : A → Task S R)
      → Every P t
      → ((a : A) → Every P (f a))
      → Every P (t >>= f)
  unfolding Every ◌>>=◌
  Every-bind (finished a) f ht hf = hf a
  Every-bind (section m k) f ht hf = (ht.0, λ a. Every-bind (k a) f (ht.1 a) hf)

-- A section that makes no connection, one that leaves all connections alone, and one that
-- leaves the connections of all endpoints but one alone.
abbrev pub MakesNone : (A : Type 0) → M UdpProxy A → Type 0
MakesNone A m = (s : UdpProxy) (j : ℕ) → slot j s ≡ none → slot j (m s).1 ≡ none

abbrev pub LeavesOthers : ℕ → (A : Type 0) → M UdpProxy A → Type 0
LeavesOthers id A m = (j : ℕ) → j ≢ id → Keeps (slot j) m

abbrev pub Yields : (A : Type 0) → M EventHandler A → Type 0
Yields A m = (s : EventHandler) → Interferes s (m s).1

pub on_proxy-Yields : {A : Type 0} (m : M UdpProxy A) → MakesNone A m → Yields A (on_proxy m)
unfolding on_proxy
on_proxy-Yields m h s = record { same_contexts = refl; none_made = h s.udp_proxy }

pub on_proxy_task-Yields :
    {R : Type 0} (t : Task UdpProxy R) → Every MakesNone t → Every Yields (on_proxy_task t)
unfolding Every on_proxy_task
on_proxy_task-Yields (finished a) h = tt
on_proxy_task-Yields (section m k) h =
    (on_proxy-Yields m h.0, λ a. on_proxy_task-Yields (k a) (h.1 a))

module _ {A : Type 0} where
  pub Keeps-MakesNone : (m : M UdpProxy A) → ((j : ℕ) → Keeps (slot j) m) → MakesNone A m
  Keeps-MakesNone m k s j e = (k j).same s ∙ e

  -- It is enough to look at the endpoint that the section is about.
  about-MakesNone :
      (id : ℕ) (m : M UdpProxy A)
      → ((s : UdpProxy) → slot id s ≡ none → slot id (m s).1 ≡ none)
      → LeavesOthers id A m
      → MakesNone A m
  about-MakesNone id m own others s j e = elim (Bool-cases (id == j)) [
    | inl same ↦
        let here : id ≡ j = ground arith in
        subst (λ i. slot i (m s).1 ≡ none) here (own s (subst (λ i. slot i s ≡ none) (sym here) e))
    | inr other ↦ (others j (ground arith)).same s ∙ e
  ]

  outside-MakesNone : (m : M UdpProxy A) → ((j : ℕ) → Keeps (slot j) m) → Every MakesNone (atomic m)
  outside-MakesNone m k = Every-atomic MakesNone m (Keeps-MakesNone m k)

module _ ⦃os : Os⦄ where
  delete_ov_data-MakesNone : (pov : OvData) → Every MakesNone (atomic (delete_ov_data pov))
  delete_ov_data-MakesNone pov = outside-MakesNone _ (λ j. delete_ov_data-slot j pov)

  repost_task-MakesNone : (socket : ℕ) (pov : OvData) → Every MakesNone (repost_task socket pov)
  unfolding repost_task
  repost_task-MakesNone socket pov =
      Every-bind MakesNone _ _ (outside-MakesNone _ (λ j. Keeps-gets _)) λ service.
        Every-bind MakesNone _ _ (outside-MakesNone _ (λ j. outside-slot j _)) λ posted.
          Every-if MakesNone posted _ _ (Every-finished MakesNone tt) (delete_ov_data-MakesNone pov)

  start_udp_receive_task-MakesNone :
      (socket : ℕ) (pov : OvData) → Every MakesNone (start_udp_receive_task socket pov)
  unfolding start_udp_receive_task
  start_udp_receive_task-MakesNone socket pov =
      Every-bind MakesNone _ _ (outside-MakesNone _ (λ j. outside-slot j _)) λ r.
        Every-if MakesNone _ _ _
          (Every-bind MakesNone _ _ (repost_task-MakesNone socket _)
            λ _. Every-finished MakesNone true)
          (Every-finished MakesNone true)

  start_tcp_receive_task-MakesNone :
      (socket : ℕ) (pov : OvData) → Every MakesNone (start_tcp_receive_task socket pov)
  unfolding start_tcp_receive_task
  start_tcp_receive_task-MakesNone socket pov =
      Every-bind MakesNone _ _ (outside-MakesNone _ (λ j. outside-slot j _)) λ r.
        Every-if MakesNone _ _ _
          (Every-bind MakesNone _ _ (repost_task-MakesNone socket _)
            λ _. Every-finished MakesNone true)
          (Every-finished MakesNone true)

  on_connect_complete_task-MakesNone :
      (socket : ℕ) (pov : OvData) (error : ℕ)
      → Every MakesNone (on_connect_complete_task socket pov error)
  unfolding on_connect_complete_task
  on_connect_complete_task-MakesNone socket pov error =
      Every-if MakesNone _ _ _
        (Every-atomic MakesNone _ (
          about-MakesNone pov.id _ (greet_connected-absent pov socket).at
            (λ j n. greet_connected-slot j pov n socket)))
        (Every-bind MakesNone _ _
          (Every-atomic MakesNone _ (
            about-MakesNone pov.id _ (λ s e. delete_proxy_connection-absent pov.id s)
              (λ j n. delete_proxy_connection-slot pov.id j n)))
          λ _. delete_ov_data-MakesNone pov)

  on_tcp_receive_complete_task-MakesNone :
      (socket transferred : ℕ) (pov : OvData)
      → Every MakesNone (on_tcp_receive_complete_task socket transferred pov)
  unfolding on_tcp_receive_complete_task
  on_tcp_receive_complete_task-MakesNone socket transferred pov =
      Every-if MakesNone _ _ _ (delete_ov_data-MakesNone pov) (
        Every-bind MakesNone _ _
          (Every-atomic MakesNone _ (
            about-MakesNone pov.id _ (negotiate_received-absent pov transferred).at
              (λ j n. negotiate_received-slot j pov n transferred)))
          λ _.
            Every-bind MakesNone _ _ (start_tcp_receive_task-MakesNone socket pov)
              λ _. Every-finished MakesNone tt)

  delete-Yields : (pov : OvData) → Every Yields (atomic (on_proxy (delete_ov_data pov)))
  delete-Yields pov =
      Every-atomic Yields _ (on_proxy-Yields _ (Keeps-MakesNone _ (λ j. delete_ov_data-slot j pov)))

  -- The contexts are read, and the answer of the relay goes to the application.
  deliver-Yields :
      (transferred : ℕ) (pov : OvData)
      → Yields
          (Unit {0})
          (λ s. on_proxy (outside (deliver (as_handler s) transferred pov.id pov.buffer)) s)
  deliver-Yields transferred pov s = on_proxy-Yields _ (Keeps-MakesNone _ (λ j. outside-slot j _)) s

  hand_back_task-Yields :
      (socket transferred : ℕ) (pov : OvData) → Every Yields (hand_back_task socket transferred pov)
  unfolding hand_back_task
  hand_back_task-Yields socket transferred pov = Every-if Yields _ _ _ (delete-Yields pov) (
      Every-bind Yields _ _ (Every-atomic Yields _ (deliver-Yields transferred pov)) λ _.
        Every-bind Yields _ _ (on_proxy_task-Yields _ (start_udp_receive_task-MakesNone socket pov))
          λ _. Every-finished Yields tt)

  -- All sections of the worker thread.
  pub complete_task-Yields :
      (t : OvType) (socket transferred : ℕ) (pov : OvData) (error : ℕ)
      → Every Yields (complete_task t socket transferred pov error)
  unfolding complete_task
  complete_task-Yields ovt_udp_send socket transferred pov error = delete-Yields pov
  complete_task-Yields ovt_udp_receive socket transferred pov error =
      hand_back_task-Yields socket transferred pov
  complete_task-Yields ovt_connect socket transferred pov error =
      on_proxy_task-Yields _ (on_connect_complete_task-MakesNone socket pov error)
  complete_task-Yields ovt_tcp_send socket transferred pov error = delete-Yields pov
  complete_task-Yields ovt_tcp_receive socket transferred pov error =
      on_proxy_task-Yields _ (on_tcp_receive_complete_task-MakesNone socket transferred pov)
