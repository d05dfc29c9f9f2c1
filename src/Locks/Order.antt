-- ===== src/Locks/Order.antt =====
-- The order of the locks: `lock` is never taken with a lock held, m_cs may be, and nobody waits for
-- the worker thread with a lock held.
use qv_plugin_netfilter.Base.{
  ℕ, ◌≤◌, Bool, true, false, not, ◌&&◌, ◌≡◌, ◌≢◌, refl, List, [], ◌∷◌, ◌==◌, arith, Bool-cases, inl,
  inr,
}
use qv_plugin_netfilter.Locks.{
  Mutex, event_lock, section_lock, Code, skip, seq, either, repeat, locked, wait_worker, Op, code,
  leave, has, Stacks, Move, skips, splits, takes_first, takes_second, goes_on, stops, enters,
  leaves, joins, Step, turn, Reach, begin, later,
}

-- Whether the code keeps to the order, from a point where the locks are held or not; `may_wait`
-- says whether it may wait for the worker at all.
unfoldable pub is_ordered : Bool → Bool → Bool → Code → Bool
is_ordered may_wait ev cs skip = true
is_ordered may_wait ev cs (seq a b) = is_ordered may_wait ev cs a && is_ordered may_wait ev cs b
is_ordered may_wait ev cs (either a b) = is_ordered may_wait ev cs a && is_ordered may_wait ev cs b
is_ordered may_wait ev cs (repeat a) = is_ordered may_wait ev cs a
is_ordered may_wait ev cs (locked event_lock a) =
    (not ev && not cs) && is_ordered may_wait true cs a
is_ordered may_wait ev cs (locked section_lock a) = is_ordered may_wait ev true a
is_ordered may_wait ev cs wait_worker = may_wait && (not ev && not cs)

unfoldable pub stack_ordered : Bool → List Op → Bool
stack_ordered may_wait [] = true
stack_ordered may_wait (code c ∷ k) =
    is_ordered may_wait (has event_lock k) (has section_lock k) c && stack_ordered may_wait k
stack_ordered may_wait (leave l ∷ k) = stack_ordered may_wait k

pub Move-ordered :
    {x : Stacks} {i : ℕ} {k k' : List Op} (w : Bool)
    → Move x i k k'
    → stack_ordered w k ≡ true
    → stack_ordered w k' ≡ true
unfolding stack_ordered is_ordered
Move-ordered w (skips k) h = ground arith
Move-ordered w (splits a b k) h = ground arith
Move-ordered w (takes_first a b k) h = ground arith
Move-ordered w (takes_second a b k) h = ground arith
Move-ordered w (goes_on a k) h = ground arith
Move-ordered w (stops a k) h = ground arith
Move-ordered w (enters event_lock a k f) h = ground arith
Move-ordered w (enters section_lock a k f) h = ground arith
Move-ordered w (leaves l k) h = h
Move-ordered w (joins k e) h = ground arith

-- A move takes no lock but a free one.
pub Move-has :
    {x : Stacks} {i : ℕ} {k k' : List Op} (l : Mutex) (j : ℕ)
    → Move x i k k'
    → has l k' ≡ true
    → j ≢ i
    → has l (x j) ≡ true
    → has l k ≡ true
Move-has l j (skips k) h n e = h
Move-has l j (splits a b k) h n e = h
Move-has l j (takes_first a b k) h n e = h
Move-has l j (takes_second a b k) h n e = h
Move-has l j (goes_on a k) h n e = h
Move-has l j (stops a k) h n e = h
Move-has event_lock j (enters event_lock a k f) h n e = ground (arith, f j)
Move-has event_lock j (enters section_lock a k f) h n e = h
Move-has section_lock j (enters event_lock a k f) h n e = h
Move-has section_lock j (enters section_lock a k f) h n e = ground (arith, f j n)
Move-has l j (leaves m k) h n e = ground arith
Move-has l j (joins k e') h n e = h

-- Every thread keeps to the order, two threads never have one lock, and only the `n` threads that
-- there are have any.
pub record IsExclusive (n : ℕ) (may_wait : ℕ → Bool) (x : Stacks) : Type 0 where
  pub ordered : (i : ℕ) → stack_ordered (may_wait i) (x i) ≡ true
  pub alone : (l : Mutex) (i j : ℕ) → has l (x i) ≡ true → has l (x j) ≡ true → i ≡ j
  pub beyond : (l : Mutex) (i : ℕ) → n ≤ i → has l (x i) ≡ false

module _ {n : ℕ} {w : ℕ → Bool} where
  begin-IsExclusive :
      (start : ℕ → Code)
      → ((i : ℕ) → is_ordered (w i) false false (start i) ≡ true)
      → IsExclusive n w (λ i. code (start i) ∷ [])
  unfolding stack_ordered
  begin-IsExclusive start h = record {
    ordered = λ i. ground (arith, h i);
    alone = λ l i j p q. cc;
    beyond = λ l i p. refl;
  }

  Step-IsExclusive : {x y : Stacks} → Step n x y → IsExclusive n w x → IsExclusive n w y
  Step-IsExclusive {x = x} (turn i {k} lt mv) v = record {
    ordered = λ a. elim (Bool-cases (i == a)) [
      | inl own ↦ ground (arith, Move-ordered (w i) mv (v.ordered i))
      | inr other ↦ rw other (v.ordered a)
    ];
    alone = λ l a b ha hb.
        ground
          (arith, v.alone l a b, v.alone l i a, v.alone l i b, Move-has l a mv, Move-has l b mv);
    beyond = λ l a p. ground (arith, v.beyond l a);
  }

  pub Reach-IsExclusive :
      {start : ℕ → Code} {x : Stacks}
      → ((i : ℕ) → is_ordered (w i) false false (start i) ≡ true)
      → Reach n start x
      → IsExclusive n w x
  Reach-IsExclusive {start = start} h begin = begin-IsExclusive start h
  Reach-IsExclusive h (later r st) = Step-IsExclusive st (Reach-IsExclusive h r)
