-- ===== src/LinkedList/Ring.antt =====
-- The abstract view of a list of netfilter/linkedlist.h: a head and the entries in order.
use qv_plugin_netfilter.Base.{ℕ, ◌≡◌, refl, Bool, true, false, ◌||◌, List, [], ◌∷◌, ◌==◌, arith}
use qv_plugin_netfilter.LinkedList.{Heap, initialize_list_head, is_list_empty}

abbrev pub has : ℕ → List ℕ → Bool
has a [] = false
has a (x ∷ xs) = a == x || has a xs

-- From `p` both links lead through `xs` to `stop`.
abbrev pub Links : Heap → ℕ → List ℕ → ℕ → Type 0
Links h p [] stop = (h.flink p ≡ stop) × (h.blink stop ≡ p)
Links h p (x ∷ xs) stop = (h.flink p ≡ x) × (h.blink x ≡ p) × Links h x xs stop

abbrev pub Distinct : List ℕ → Type 0
Distinct [] = Unit
Distinct (x ∷ xs) = (has x xs ≡ false) × Distinct xs

pub record IsRing (h : Heap) (head : ℕ) (xs : List ℕ) : Type 0 where
  pub links : Links h head xs head
  pub distinct : Distinct (head ∷ xs)

-- Links survive writes elsewhere: at other forward links than those of `p` and `xs`, and other
-- backward links than those of `xs` and `stop`.
pub Links-frame :
    (h g : Heap) (p : ℕ) (xs : List ℕ) (stop : ℕ)
    → ((a : ℕ) → has a (p ∷ xs) ≡ true → g.flink a ≡ h.flink a)
    → ((a : ℕ) → has a (stop ∷ xs) ≡ true → g.blink a ≡ h.blink a)
    → Links h p xs stop
    → Links g p xs stop
Links-frame h g p [] stop hf hb l = (ground (arith, hf p), ground (arith, hb stop))
Links-frame h g p (x ∷ xs) stop hf hb l = (
  ground (arith, hf p),
  ground (arith, hb x),
  Links-frame h g x xs stop (λ a e. hf a (ground arith)) (λ a e. hb a (ground arith)) l.2,
)

-- The entry before the stop is the last of the entries, or the start.
pub Links-last :
    (h : Heap) (p : ℕ) (xs : List ℕ) (stop : ℕ)
    → Links h p xs stop
    → has (h.blink stop) (p ∷ xs) ≡ true
Links-last h p [] stop l = ground arith
Links-last h p (x ∷ xs) stop l = ground (arith, Links-last h x xs stop l.2)

pub initialize_list_head-IsRing :
    (head : ℕ) (h : Heap) → IsRing (initialize_list_head head h) head []
unfolding initialize_list_head
initialize_list_head-IsRing head h = record {
  links = (ground arith, ground arith);
  distinct = (refl, tt);
}

-- IsListEmpty is true of the list without entries, and false of every other.
pub is_list_empty-IsRing :
    (h : Heap) (head : ℕ) (xs : List ℕ)
    → IsRing h head xs
    → is_list_empty head h ≡ (elim xs [ [] ↦ true | x ∷ rest ↦ false ])
unfolding is_list_empty
is_list_empty-IsRing h head [] r = ground arith
is_list_empty-IsRing h head (x ∷ xs) r = ground arith
