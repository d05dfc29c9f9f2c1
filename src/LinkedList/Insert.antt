-- ===== src/LinkedList/Insert.antt =====
-- InsertTailList and InsertHeadList of netfilter/linkedlist.h.
use qv_plugin_netfilter.Base.{ℕ, ◌≡◌, refl, false, ◌||◌, List, [], ◌∷◌, ◌++◌, ◌==◌, arith}
use qv_plugin_netfilter.LinkedList.{Heap, insert_tail_list, insert_head_list}
use qv_plugin_netfilter.LinkedList.Ring.{has, Links, Distinct, IsRing, Links-frame, Links-last}

has-snoc : (a e : ℕ) (xs : List ℕ) → has a (xs ++ e ∷ []) ≡ (has a xs || a == e)
has-snoc a e [] = ground arith
has-snoc a e (x ∷ xs) = ground (arith, has-snoc a e xs)

Distinct-snoc : (e : ℕ) (xs : List ℕ) → has e xs ≡ false → Distinct xs → Distinct (xs ++ e ∷ [])
Distinct-snoc e [] n d = (refl, tt)
Distinct-snoc e (x ∷ xs) n d =
    (ground (arith, has-snoc x e xs), Distinct-snoc e xs (ground arith) d.1)

module _ (h : Heap) (head e : ℕ) where
  tail-Links :
      (p : ℕ) (xs : List ℕ)
      → Links h p xs head
      → Distinct (p ∷ xs)
      → has head xs ≡ false
      → has e (head ∷ p ∷ xs) ≡ false
      → Links (insert_tail_list head e h) p (xs ++ e ∷ []) head
  unfolding insert_tail_list
  tail-Links p [] l d n m = (ground arith, ground arith, (ground arith, ground arith))
  tail-Links p (x ∷ xs) l d n m = (
    ground (arith, Links-last h x xs head l.2),
    ground arith,
    tail-Links x xs l.2 d.1 (ground arith) (ground arith),
  )

  -- InsertTailList puts an entry that is not in the list behind its last one.
  pub insert_tail_list-IsRing :
      (xs : List ℕ)
      → IsRing h head xs
      → has e (head ∷ xs) ≡ false
      → IsRing (insert_tail_list head e h) head (xs ++ e ∷ [])
  insert_tail_list-IsRing xs r m = record {
    links = tail-Links head xs r.links r.distinct r.distinct.0 (ground arith);
    distinct = Distinct-snoc e (head ∷ xs) m r.distinct;
  }

  head-Links :
      (xs : List ℕ)
      → Links h head xs head
      → Distinct (head ∷ xs)
      → has e (head ∷ xs) ≡ false
      → Links (insert_head_list head e h) head (e ∷ xs) head
  unfolding insert_head_list
  head-Links [] l d m = (ground arith, ground arith, (ground arith, ground arith))
  head-Links (x ∷ xs) l d m = (
    ground arith,
    ground arith,
    (
      ground arith,
      ground arith,
      Links-frame h _ x xs head (λ a i. ground arith) (λ a i. ground arith) l.2,
    ),
  )

  -- InsertHeadList puts an entry that is not in the list before its first one.
  pub insert_head_list-IsRing :
      (xs : List ℕ)
      → IsRing h head xs
      → has e (head ∷ xs) ≡ false
      → IsRing (insert_head_list head e h) head (e ∷ xs)
  insert_head_list-IsRing xs r m = record {
    links = head-Links xs r.links r.distinct m;
    distinct = (ground arith, (ground arith, r.distinct.1));
  }
