-- ===== src/Base/State.antt =====
-- Methods that change an object: a state monad, and rules for what each step ensures.
use mathlib.Core.Path.{◌≡◌, refl, ◌∙◌}
use mathlib.Core.Bool.{Bool, true, false}
use qv_plugin_netfilter.Base.Tests.{if◌then◌else◌}

abbrev pub M : Type 0 → Type 0 → Type 0
M S A = S → A × S

module _ {S A : Type 0} where
  unfoldable pub pure : A → M S A
  pure a s = (a, s)

  unfoldable pub gets : (S → A) → M S A
  gets f s = (f s, s)

module _ {S : Type 0} where
  unfoldable pub modify : (S → S) → M S (Unit {0})
  modify f s = (tt, f s)

module _ {S A B : Type 0} where
  infixl 5 ◌>>=◌ ◌>>◌
  unfoldable pub ◌>>=◌ : M S A → (A → M S B) → M S B
  ◌>>=◌ m f s = let (a, s') = m s in f a s'

  abbrev pub ◌>>◌ : M S A → M S B → M S B
  m >> k = m >>= λ _. k

-- From a state with `P` the method ends in one with `Q`, which may speak of the result.
pub record Triple {S A : Type 0} (P : S → Type 0) (m : M S A) (Q : A → S → Type 0) : Type 0 where
  pub at : (s : S) → P s → Q (m s).0 (m s).1

module _ {S A : Type 0} {P : S → Type 0} {Q : A → S → Type 0} where
  pub Triple-if :
      (b : Bool) {m n : M S A} → Triple P m Q → Triple P n Q → Triple P (if b then m else n) Q
  Triple-if true hm hn = hm
  Triple-if false hm hn = hn

  pub Triple-pure : (a : A) → ((s : S) → P s → Q a s) → Triple P (pure a) Q
  unfolding pure
  Triple-pure a h = record { at = h }

  pub Triple-gets : (f : S → A) → ((s : S) → P s → Q (f s) s) → Triple P (gets f) Q
  unfolding gets
  Triple-gets f h = record { at = h }

module _ {S A B : Type 0} {P : S → Type 0} {Q : B → S → Type 0} where
  pub Triple-bind :
      (R : A → S → Type 0) {m : M S A} {f : A → M S B}
      → Triple P m R
      → ((a : A) → Triple (R a) (f a) Q)
      → Triple P (m >>= f) Q
  unfolding ◌>>=◌
  Triple-bind R {m} hm hf = record { at = λ s p. (hf (m s).0).at (m s).1 (hm.at s p) }

-- The method leaves a part of the state as it is.
pub record Keeps {S X A : Type 0} (f : S → X) (m : M S A) : Type 0 where
  pub same : (s : S) → f (m s).1 ≡ f s

module _ {S X A : Type 0} {f : S → X} where
  pub Keeps-pure : (a : A) → Keeps f (pure a)
  unfolding pure
  Keeps-pure a = record { same = λ s. refl }

  pub Keeps-gets : (g : S → A) → Keeps f (gets g)
  unfolding gets
  Keeps-gets g = record { same = λ s. refl }

  pub Keeps-if : (b : Bool) {m n : M S A} → Keeps f m → Keeps f n → Keeps f (if b then m else n)
  Keeps-if true hm hn = hm
  Keeps-if false hm hn = hn

  pub Keeps-bind :
      {B : Type 0} {m : M S A} {g : A → M S B}
      → Keeps f m
      → ((a : A) → Keeps f (g a))
      → Keeps f (m >>= g)
  unfolding ◌>>=◌
  Keeps-bind {m} hm hg = record { same = λ s. (hg (m s).0).same (m s).1 ∙ hm.same s }
