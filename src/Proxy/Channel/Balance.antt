-- ===== src/Proxy/Channel/Balance.antt =====
-- What one action on a channel keeps: every datagram that it accepts goes out or waits.
use mathlib.Core.List.{append-nil}
use qv_plugin_netfilter.Base.{
  ℕ, ◌≡◌, ◌≢◌, refl, sym, ap, ◌∙◌, inl, inr, Bool-cases, List, [], ◌∷◌, ◌++◌, arith, ◌==◌,
  if◌then◌else◌,
}
use qv_plugin_netfilter.System.Sent.{Datagrams}
use qv_plugin_netfilter.Proxy.Channel.{
  Channel, closed, waiting, ready, Action, idle, create, delete, submit, grant, accept, opened,
  passed, backlog, tagged, after, outputs,
}

-- Of the datagrams those to one endpoint.
unfoldable pub to : ℕ → Datagrams → List (List ℕ)
to j [] = []
to j ((id, d) ∷ ds) = let rest = to j ds in if id == j then d ∷ rest else rest

pub to-append : (j : ℕ) (ds es : Datagrams) → to j (ds ++ es) ≡ to j ds ++ to j es
unfolding to
to-append j [] es = refl
to-append j ((id, d) ∷ ds) es = elim (Bool-cases (id == j)) [
  | inl same ↦ rw same (ap (◌∷◌ d) (to-append j ds es))
  | inr other ↦ rw other (to-append j ds es)
]

to_own : (j : ℕ) (ds : List (List ℕ)) → to j (tagged j ds) ≡ ds
unfolding to
to_own j [] = refl
to_own j (d ∷ ds) = ground (arith, to_own j ds)

to_other : (j id : ℕ) (ds : List (List ℕ)) → id ≢ j → to j (tagged id ds) ≡ []
unfolding to
to_other j id [] n = refl
to_other j id (d ∷ ds) n = ground (arith, to_other j id ds n)

-- The datagrams that an action hands over for the endpoint.
unfoldable pub submitted : ℕ → Action → List (List ℕ)
submitted j (submit id d) = if id == j then d ∷ [] else []
submitted j a = []

unfoldable pub NotMade : ℕ → Action → Type 0
NotMade j (create id) = id ≢ j
NotMade j a = Unit

-- Before and after, what was handed to the system and what waits are the same, but for what is submitted.
abbrev pub Balanced : ℕ → Action → (ℕ → Channel) → Type 0
Balanced j a c =
    (c j ≢ closed) × (to j (outputs a c) ++ backlog (after a c j) ≡ backlog (c j) ++ submitted j a)

accept-Balanced :
    (j : ℕ) (d : List ℕ) (x : Channel)
    → accept d x ≢ closed
    → (x ≢ closed) × (to j (tagged j (passed d x)) ++ backlog (accept d x) ≡ backlog x ++ d ∷ [])
unfolding to
accept-Balanced j d closed n = absurd (n refl)
accept-Balanced j d (waiting q) n = ((λ e. n (ap (accept d) e)), refl)
accept-Balanced j d ready n = (n, ground arith)

opened-Balanced :
    (j : ℕ) (x : Channel)
    → opened x ≢ closed
    → (x ≢ closed) × (to j (tagged j (backlog x)) ++ backlog (opened x) ≡ backlog x ++ [])
unfolding to
opened-Balanced j closed n = absurd (n refl)
opened-Balanced j (waiting q) n = ((λ e. n (ap opened e)), ap (λ x. x ++ []) (to_own j q))
opened-Balanced j ready n = (n, refl)

module _ (j : ℕ) (a : Action) (c : ℕ → Channel) where
  -- An action by its effects on the endpoint.
  by_parts :
      (x : Channel) (ds ms : List (List ℕ))
      → after a c j ≡ x
      → to j (outputs a c) ≡ ds
      → submitted j a ≡ ms
      → after a c j ≢ closed
      → (x ≢ closed → (c j ≢ closed) × (ds ++ backlog x ≡ backlog (c j) ++ ms))
      → Balanced j a c
  by_parts x ds ms e o m n f =
      let (there, balance) = f (λ k. n (e ∙ k)) in
      (
        there,
        ap (λ y. to j (outputs a c) ++ backlog y) e
            ∙ ap (λ y. y ++ backlog x) o
            ∙ balance
            ∙ ap (λ y. backlog (c j) ++ y) (sym m),
      )

  -- An action on another endpoint.
  elsewhere :
      after a c j ≡ c j
      → to j (outputs a c) ≡ []
      → submitted j a ≡ []
      → after a c j ≢ closed
      → Balanced j a c
  elsewhere e o m n = by_parts (c j) [] [] e o m n λ k. (k, sym (append-nil (backlog (c j))))

pub after-Balanced :
    (j : ℕ) (a : Action) (c : ℕ → Channel) → NotMade j a → after a c j ≢ closed → Balanced j a c
unfolding NotMade after outputs submitted to
after-Balanced j idle c m n = elsewhere j idle c refl refl refl n
after-Balanced j (create id) c m n = elsewhere j (create id) c (ground arith) refl refl n
after-Balanced j (delete id) c m n = elim (Bool-cases (id == j)) [
  | inl same ↦ absurd (n (rw same refl))
  | inr other ↦ elsewhere j (delete id) c (rw other refl) refl refl n
]
after-Balanced j (submit id d) c m n = elim (Bool-cases (id == j)) [
  | inl same ↦
      by_parts j (submit id d) c (accept d (c j)) (to j (tagged j (passed d (c j)))) (d ∷ [])
        (rw same refl) (ap (λ i. to j (tagged i (passed d (c i)))) (ground (arith, same)))
        (rw same refl) n (accept-Balanced j d (c j))
  | inr other ↦
      elsewhere j (submit id d) c (rw other refl) (to_other j id _ (ground (arith, other)))
        (rw other refl) n
]
after-Balanced j (grant id) c m n = elim (Bool-cases (id == j)) [
  | inl same ↦
      by_parts j (grant id) c (opened (c j)) (to j (tagged j (backlog (c j)))) [] (rw same refl)
        (ap (λ i. to j (tagged i (backlog (c i)))) (ground (arith, same))) refl n
        (opened-Balanced j (c j))
  | inr other ↦
      elsewhere j (grant id) c (rw other refl) (to_other j id _ (ground (arith, other))) refl n
]
