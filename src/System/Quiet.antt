-- ===== src/System/Quiet.antt =====
-- Code that calls the systems and neither starts an overlapped operation nor ends one.
use qv_plugin_netfilter.Base.{◌≡◌, refl, ◌∙◌, Bool, true, false, if◌then◌else◌}
use qv_plugin_netfilter.Base.State.{M, pure, ◌>>=◌}
use qv_plugin_netfilter.System.{SysCall, World, Os, perform}
use qv_plugin_netfilter.System.Completions.{in_flight, IsNeutral}

pub record Quiet {A : Type 0} (m : M World A) : Type 0 where
  pub same_flight : (w : World) → in_flight (m w).1.trace ≡ in_flight w.trace
  pub same_ptr : (w : World) → (m w).1.next_ptr ≡ w.next_ptr

module _ {A : Type 0} where
  pub Quiet-pure : (a : A) → Quiet (pure a)
  unfolding pure
  Quiet-pure a = record { same_flight = λ w. refl; same_ptr = λ w. refl }

  pub Quiet-if : (b : Bool) {m n : M World A} → Quiet m → Quiet n → Quiet (if b then m else n)
  Quiet-if true hm hn = hm
  Quiet-if false hm hn = hn

  pub Quiet-bind :
      {B : Type 0} {m : M World A} {f : A → M World B}
      → Quiet m
      → ((a : A) → Quiet (f a))
      → Quiet (m >>= f)
  unfolding ◌>>=◌
  Quiet-bind {m} hm hf = record {
    same_flight = λ w. (hf (m w).0).same_flight (m w).1 ∙ hm.same_flight w;
    same_ptr = λ w. (hf (m w).0).same_ptr (m w).1 ∙ hm.same_ptr w;
  }

pub Quiet-perform : ⦃os : Os⦄ (c : SysCall) → IsNeutral c → Quiet (perform c)
unfolding perform in_flight
Quiet-perform ⦃os⦄ c n = record {
  same_flight = λ w. n (os.answer w.trace c) (in_flight w.trace);
  same_ptr = λ w. refl;
}
