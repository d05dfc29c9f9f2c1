-- ===== src/Events/Delivery.antt =====
-- netfilter/NFEventHandler.cpp with its UDP proxy: what the events do to the datagrams of one
-- endpoint, which were handed to the system or wait.
pub mod Others
pub mod Send
pub mod History
use mathlib.Core.List.{append-nil, append_assoc}
use qv_plugin_netfilter.Base.{
  ℕ, ◌≡◌, ◌≢◌, refl, sym, ap, subst, ◌∙◌, inl, inr, Bool-cases, Bool, true, false, Option, none,
  some, List, [], ◌∷◌, ◌++◌, arith, ◌==◌, if◌then◌else◌,
}
use qv_plugin_netfilter.Base.Map.{find, put, erase, find-put, find-erase}
use qv_plugin_netfilter.Base.State.{
  M, pure, gets, modify, ◌>>=◌, Keeps, Triple, Triple-if, Triple-bind, Triple-pure, Triple-gets,
}
use qv_plugin_netfilter.System.{World, Os, SysCall, perform}
use qv_plugin_netfilter.System.Sent.{sent, note, IsSilent}
use qv_plugin_netfilter.Proxy.Overlapped.{UdpProxy}
use qv_plugin_netfilter.Proxy.Queue.{perform-Keeps}
use qv_plugin_netfilter.Proxy.Channel.{Channel, closed, Action, channels, backlog, Does}
use qv_plugin_netfilter.Proxy.Channel.Balance.{to, submitted, NotMade}
use qv_plugin_netfilter.Proxy.Channel.Fifo.{committed, Does-committed}
use qv_plugin_netfilter.Events.Data.{OriginalConnInfo, UdpContext}
use qv_plugin_netfilter.Events.Handler.{EventHandler, on_proxy, on_system}

-- Since `start`, the datagrams `ds` were handed over for the endpoint, which has its context. If it
-- still has a connection, it had one at the start, and they were handed to the system
-- or wait.
pub record Carries (j : ℕ) (start : UdpProxy) (ds : List (List ℕ)) (s : EventHandler) : Type 0 where
  pub known : find j s.udp_ctx_map ≢ none
  pub carried :
      channels s.udp_proxy j ≢ closed
      → (channels start j ≢ closed) × (committed j s.udp_proxy ≡ committed j start ++ ds)

module _ (j : ℕ) (start : UdpProxy) where
  -- An action of the proxy.
  pub Does-Carries :
      {a : Action} {u : UdpProxy} (ds : List (List ℕ)) (s : EventHandler)
      → Carries j start ds s
      → Does a s.udp_proxy u
      → NotMade j a
      → Carries j start (ds ++ submitted j a) (record s { udp_proxy = u })
  Does-Carries {a} ds s c does not_made = record {
    known = c.known;
    carried = λ n.
        let (there, e) = Does-committed j does not_made n in
        let (before, e') = c.carried there in
        (
          before,
          e ∙ ap (λ x. x ++ submitted j a) e' ∙ append_assoc (committed j start) ds (submitted j a),
        );
  }

  pub more :
      {ds es : List (List ℕ)} {s : EventHandler}
      → es ≡ ds
      → Carries j start ds s
      → Carries j start es s
  more {s} e c = subst (λ x. Carries j start x s) (sym e) c

module _ (j : ℕ) (start : UdpProxy) (ds : List (List ℕ)) where
  -- A method that hands over nothing for the endpoint.
  abbrev pub Carrying : {A : Type 0} → M EventHandler A → Type 0
  Carrying m = Triple (Carries j start ds) m (λ _. Carries j start ds)

  pub Carrying-pure : {A : Type 0} (a : A) → Carrying (pure a)
  Carrying-pure a = Triple-pure a λ s h. h

  pub Carrying-gets : {A : Type 0} (f : EventHandler → A) → Carrying (gets f)
  Carrying-gets f = Triple-gets f λ s h. h

  pub Carrying-bind :
      {A B : Type 0} {m : M EventHandler A} {f : A → M EventHandler B}
      → Carrying m
      → ((a : A) → Carrying (f a))
      → Carrying (m >>= f)
  Carrying-bind hm hf = Triple-bind (λ _. Carries j start ds) hm hf

  pub Carrying-system :
      {A : Type 0} {m : M World A} → Keeps (λ w. sent w.trace) m → Carrying (on_system m)
  unfolding on_system committed
  Carrying-system k = record {
    at = λ s c. record {
      known = c.known;
      carried = λ n.
          let (before, e) = c.carried n in
          (
            before,
            ap (λ x. to j x ++ backlog (channels s.udp_proxy j)) (k.same s.udp_proxy.world) ∙ e,
          );
    };
  }

  pub Carrying-call :
      ⦃os : Os⦄ (call : SysCall) → IsSilent call → Carrying (on_system (perform call))
  Carrying-call call n = Carrying-system (perform-Keeps call n)

  pub Carrying-tcp :
      (f : EventHandler → List (ℕ × OriginalConnInfo))
      → Carrying (modify (λ s. record s { conn_info_map = f s }))
  unfolding modify
  Carrying-tcp f = record { at = λ s c. record { known = c.known; carried = c.carried } }

  pub Carrying-put :
      (id : ℕ) (ctx : UdpContext)
      → Carrying (modify (λ s. record s { udp_ctx_map = put id ctx s.udp_ctx_map }))
  unfolding modify
  Carrying-put id ctx = record {
    at = λ s c. record {
      known = λ e. ground (arith, find-put id j ctx s.udp_ctx_map, c.known, e);
      carried = c.carried;
    };
  }

  pub Carrying-erase :
      (id : ℕ) → id ≢ j → Carrying (modify (λ s. record s { udp_ctx_map = erase id s.udp_ctx_map }))
  unfolding modify
  Carrying-erase id n = record {
    at = λ s c. record {
      known = λ e. c.known (ground (arith, find-erase id j s.udp_ctx_map, e, n));
      carried = c.carried;
    };
  }
