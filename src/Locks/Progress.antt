-- ===== src/Locks/Progress.antt =====
-- No deadlock: a thread that is not done can move, or waits for one that will let it go on.
use qv_plugin_netfilter.Base.{
  ℕ, zero, suc, ◌<◌, Bool, true, false, not, ◌≡◌, ◌≢◌, ◌⊎◌, refl, sym, ap, subst, List, [], ◌∷◌,
  ◌==◌, arith, Bool-cases, inl, inr,
}
use native.Mathlib.Decide.{dec_lt}
use qv_plugin_netfilter.Locks.{
  Mutex, event_lock, section_lock, Code, skip, seq, either, repeat, locked, wait_worker, Op, code,
  leave, has, Stacks, worker, IsFree, Move, skips, splits, takes_first, stops, enters, leaves,
  joins, Reach, for_lock, for_worker, Unblocked, moves, waits,
}
use qv_plugin_netfilter.Locks.Methods.{program}
use qv_plugin_netfilter.Locks.Order.{is_ordered, stack_ordered, IsExclusive, Reach-IsExclusive}

-- Who of the first `n` threads has the lock.
holder :
    (x : Stacks) (l : Mutex) (n : ℕ)
    → ((j : ℕ) × (has l (x j) ≡ true)) ⊎ ((j : ℕ) → j < n → has l (x j) ≡ false)
holder x l zero = inr (λ j h. absurd (omega arith))
holder x l (suc n) = elim (Bool-cases (has l (x n))) [
  | inl h ↦ inl (n, h)
  | inr h ↦ elim (holder x l n) [
    | inl found ↦ inl found
    | inr rest ↦ inr (λ j lt. elim (Bool-cases (j == n)) [
      | inl e ↦ let same : j ≡ n = ground arith in rw same h
      | inr e ↦ rest j (ground arith)
    ])
  ]
]

module _ {x : Stacks} (i : ℕ) where
  pub moved : {k k' : List Op} → x i ≡ k → Move x i k k' → Unblocked x i
  moved {k' = k'} e mv = moves i k' (subst (λ s. Move x i s k') (sym e) mv)

  -- A thread can move unless it takes a lock or waits for the worker.
  moves_unless :
      (k : List Op)
      → x i ≡ k
      → k ≢ []
      → ((l : Mutex) (a : Code) (r : List Op) → k ≡ code (locked l a) ∷ r → Unblocked x i)
      → ((r : List Op) → k ≡ code wait_worker ∷ r → Unblocked x i)
      → Unblocked x i
  moves_unless [] e n hl hw = absurd (n refl)
  moves_unless (code skip ∷ k) e n hl hw = moved e (skips k)
  moves_unless (code (seq a b) ∷ k) e n hl hw = moved e (splits a b k)
  moves_unless (code (either a b) ∷ k) e n hl hw = moved e (takes_first a b k)
  moves_unless (code (repeat a) ∷ k) e n hl hw = moved e (stops a k)
  moves_unless (code (locked l a) ∷ k) e n hl hw = hl l a k refl
  moves_unless (code wait_worker ∷ k) e n hl hw = hw k refl
  moves_unless (leave l ∷ k) e n hl hw = moved e (leaves l k)

module _ {n : ℕ} {w : ℕ → Bool} {x : Stacks} (v : IsExclusive n w x) where
  ordered_at : (i : ℕ) {k : List Op} → x i ≡ k → stack_ordered (w i) k ≡ true
  ordered_at i e = subst (λ k. stack_ordered (w i) k ≡ true) e (v.ordered i)

  -- Who waits for the worker, or takes `lock`, has no lock.
  waiter :
      (i : ℕ) {k : List Op}
      → x i ≡ code wait_worker ∷ k
      → (w i ≡ true) × (has event_lock (x i) ≡ false) × (has section_lock (x i) ≡ false)
  unfolding stack_ordered is_ordered
  waiter i e = ground (arith, ordered_at i e)

  event_taker :
      (i : ℕ) {a : Code} {k : List Op}
      → x i ≡ code (locked event_lock a) ∷ k
      → (has event_lock (x i) ≡ false) × (has section_lock (x i) ≡ false)
  unfolding stack_ordered is_ordered
  event_taker i e = ground (arith, ordered_at i e)

  has-nonempty : (l : Mutex) (k : List Op) → has l k ≡ true → k ≢ []
  has-nonempty l k h e = cc (ap (has l) e)

  -- The owner of m_cs may enter it again.
  owner-IsFree : (i : ℕ) → has section_lock (x i) ≡ true → IsFree x section_lock i
  owner-IsFree i h j other = elim (Bool-cases (has section_lock (x j))) [
    | inl h' ↦ absurd (other (v.alone section_lock j i h' h))
    | inr h' ↦ h'
  ]

  owner_moves : (j : ℕ) → has section_lock (x j) ≡ true → Unblocked x j
  owner_moves j h =
      moves_unless j (x j) refl (has-nonempty section_lock (x j) h) (owner_enters h)
        (λ k e. cc (h, (waiter j e).2))
    where
      owner_enters :
          has section_lock (x j) ≡ true
          → (l : Mutex) (a : Code) (k : List Op) → x j ≡ code (locked l a) ∷ k
          → Unblocked x j
      owner_enters h event_lock a k e = cc (h, (event_taker j e).1)
      owner_enters h section_lock a k e = moved j e (enters section_lock a k (owner-IsFree j h))

  -- A thread that takes m_cs gets it, or its owner can move.
  section_taken :
      (i : ℕ) (a : Code) (k : List Op) → x i ≡ code (locked section_lock a) ∷ k → Unblocked x i
  section_taken i a k e = elim (holder x section_lock n) [
    | inl (j, h) ↦ elim (Bool-cases (j == i)) [
      | inl same ↦
          let own : j ≡ i = ground arith in
          owner_moves i (subst (λ t. has section_lock (x t) ≡ true) own h)
      | inr other ↦ waits i j (for_lock section_lock a k e h (ground arith)) (owner_moves j h)
    ]
    | inr free ↦ moved i e (
        enters section_lock a k (λ j d. elim (dec_lt j n) [
          | yes lt ↦ free j lt
          | no ge ↦ v.beyond section_lock j (omega arith)
        ]))
  ]

  -- The owner of `lock` can move, or waits for the owner of m_cs.
  event_owner : (j : ℕ) → has event_lock (x j) ≡ true → Unblocked x j
  event_owner j h =
      moves_unless j (x j) refl (has-nonempty event_lock (x j) h) (next_lock h)
        (λ k e. cc (h, (waiter j e).1))
    where
      next_lock :
          has event_lock (x j) ≡ true
          → (l : Mutex) (a : Code) (k : List Op) → x j ≡ code (locked l a) ∷ k
          → Unblocked x j
      next_lock h event_lock a k e = cc (h, (event_taker j e).0)
      next_lock h section_lock a k e = section_taken j a k e

  lock_taken :
      (i : ℕ) (l : Mutex) (a : Code) (k : List Op) → x i ≡ code (locked l a) ∷ k → Unblocked x i
  lock_taken i section_lock a k e = section_taken i a k e
  lock_taken i event_lock a k e = elim (holder x event_lock n) [
    | inl (j, h) ↦
        waits i j
          (for_lock event_lock a k e h
            (λ same. cc (ap (λ t. has event_lock (x t)) same, h, (event_taker i e).0)))
          (event_owner j h)
    | inr free ↦ moved i e (
        enters event_lock a k (λ j. elim (dec_lt j n) [
          | yes lt ↦ free j lt
          | no ge ↦ v.beyond event_lock j (omega arith)
        ]))
  ]

  -- The worker waits for nobody but the owner of a lock, and so who waits for it is let go on.
  worker-Unblocked : w worker ≡ false → x worker ≢ [] → Unblocked x worker
  worker-Unblocked never busy =
      moves_unless worker (x worker) refl busy (lock_taken worker)
        (λ k e. cc (never, (waiter worker e).0))

  pub all-Unblocked : w worker ≡ false → (i : ℕ) → x i ≢ [] → Unblocked x i
  all-Unblocked never i busy =
      moves_unless i (x i) refl busy (lock_taken i) (λ k e. join k e (x worker) refl)
    where
      join :
          (k : List Op) → x i ≡ code wait_worker ∷ k → (s : List Op) → x worker ≡ s → Unblocked x i
      join k e [] same = moved i e (joins k same)
      join k e (o ∷ r) same =
          waits i worker (for_worker k e refl) (worker-Unblocked never (λ q. cc (q, same)))

-- Only the threads that are not the worker may wait for it.
abbrev others : ℕ → Bool
others i = not (i == worker)

program-is_ordered : (i : ℕ) → is_ordered (others i) false false (program i) ≡ true
unfolding program is_ordered
program-is_ordered zero = refl
program-is_ordered (suc zero) = refl
program-is_ordered (suc (suc i)) = refl

-- The program never deadlocks on m_cs, on the lock of the event handler or on the end of the worker
-- thread: with any number of threads of the filter beside the worker thread and the thread that
-- starts and stops the plugin, every thread that has something left to do can move, or waits for a
-- thread that can move or again waits so, until one that can move.
pub Reach-Unblocked : {n : ℕ} {x : Stacks} → Reach n program x → (i : ℕ) → x i ≢ [] → Unblocked x i
Reach-Unblocked r = all-Unblocked (Reach-IsExclusive program-is_ordered r) refl
