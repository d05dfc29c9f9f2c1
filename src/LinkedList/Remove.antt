-- ===== src/LinkedList/Remove.antt =====
-- RemoveEntryList, RemoveHeadList and RemoveTailList of netfilter/linkedlist.h.
use mathlib.Core.List.{append-nil}
use qv_plugin_netfilter.Base.{
  ℕ, ◌≡◌, refl, subst, true, false, ◌||◌, List, [], ◌∷◌, ◌++◌, ◌==◌, arith,
}
use qv_plugin_netfilter.LinkedList.{Heap, remove_entry_list, remove_head_list, remove_tail_list}
use qv_plugin_netfilter.LinkedList.Ring.{has, Links, Distinct, IsRing, Links-frame}

has-middle : (a e : ℕ) (xs ys : List ℕ) → has a (xs ++ e ∷ ys) ≡ (a == e || has a (xs ++ ys))
has-middle a e [] ys = refl
has-middle a e (x ∷ xs) ys = ground (arith, has-middle a e xs ys)

Distinct-middle : (e : ℕ) (xs ys : List ℕ) → Distinct (xs ++ e ∷ ys) → Distinct (xs ++ ys)
Distinct-middle e [] ys d = d.1
Distinct-middle e (x ∷ xs) ys d =
    (ground (arith, has-middle x e xs ys), Distinct-middle e xs ys d.1)

has-append : (a : ℕ) (xs ys : List ℕ) → has a (xs ++ ys) ≡ (has a xs || has a ys)
has-append a [] ys = refl
has-append a (x ∷ xs) ys = ground (arith, has-append a xs ys)

module _ (h : Heap) (e : ℕ) where
  -- The neighbours of an entry.
  before_middle :
      (p : ℕ) (xs ys : List ℕ) (stop : ℕ)
      → Links h p (xs ++ e ∷ ys) stop
      → has (h.blink e) (p ∷ xs) ≡ true
  before_middle p [] ys stop l = ground arith
  before_middle p (x ∷ xs) ys stop l = ground (arith, before_middle x xs ys stop l.2)

  after_middle :
      (p : ℕ) (xs ys : List ℕ) (stop : ℕ)
      → Links h p (xs ++ e ∷ ys) stop
      → has (h.flink e) (stop ∷ ys) ≡ true
  after_middle p [] [] stop l = ground arith
  after_middle p [] (y ∷ ys) stop l = ground arith
  after_middle p (x ∷ xs) ys stop l = after_middle x xs ys stop l.2

module _ (h : Heap) (head e : ℕ) where
  -- The links from the start on, where the entry is the first, or stands further down.
  remove-Links :
      (p : ℕ) (xs ys : List ℕ)
      → Links h p (xs ++ e ∷ ys) head
      → Distinct (p ∷ (xs ++ e ∷ ys))
      → has head (xs ++ e ∷ ys) ≡ false
      → Links (remove_entry_list e h) p (xs ++ ys) head
  unfolding remove_entry_list
  remove-Links p [] [] l d n = (ground arith, ground arith)
  remove-Links p [] (y ∷ ys) l d n = (
    ground arith,
    ground arith,
    Links-frame h _ y ys head (λ a i. ground arith) (λ a i. ground arith) l.2.2,
  )
  remove-Links p (x ∷ xs) ys l d n = (
    ground (arith, before_middle h e x xs ys head l.2, has-append p xs (e ∷ ys)),
    ground (arith, after_middle h e x xs ys head l.2, has-append x xs (e ∷ ys)),
    remove-Links x xs ys l.2 d.1 (ground arith),
  )

  -- RemoveEntryList takes an entry out of a list wherever it stands, and the others keep their order.
  pub remove_entry_list-IsRing :
      (xs ys : List ℕ)
      → IsRing h head (xs ++ e ∷ ys)
      → IsRing (remove_entry_list e h) head (xs ++ ys)
  remove_entry_list-IsRing xs ys r = record {
    links = remove-Links head xs ys r.links r.distinct r.distinct.0;
    distinct = Distinct-middle e (head ∷ xs) ys r.distinct;
  }

-- RemoveHeadList of a list that is not empty takes out its first entry, and yields it.
pub remove_head_list-IsRing :
    (h : Heap) (head x : ℕ) (xs : List ℕ)
    → IsRing h head (x ∷ xs)
    → ((remove_head_list head h).0 ≡ x) × IsRing (remove_head_list head h).1 head xs
unfolding remove_head_list
remove_head_list-IsRing h head x xs r =
    (r.links.0, rw r.links.0 (remove_entry_list-IsRing h head x [] xs r))

last_middle :
    (h : Heap) (x p : ℕ) (xs : List ℕ) (stop : ℕ) → Links h p (xs ++ x ∷ []) stop → h.blink stop ≡ x
last_middle h x p [] stop l = l.2.1
last_middle h x p (y ∷ xs) stop l = last_middle h x y xs stop l.2

-- RemoveTailList of a list that is not empty takes out its last entry, and yields it.
pub remove_tail_list-IsRing :
    (h : Heap) (head x : ℕ) (xs : List ℕ)
    → IsRing h head (xs ++ x ∷ [])
    → ((remove_tail_list head h).0 ≡ x) × IsRing (remove_tail_list head h).1 head xs
unfolding remove_tail_list
remove_tail_list-IsRing h head x xs r =
    let e : h.blink head ≡ x = last_middle h x head xs head r.links in
    (
      e,
      rw e (
          subst (IsRing (remove_entry_list x h) head) (append-nil xs)
            (remove_entry_list-IsRing h head x xs [] r)),
    )
