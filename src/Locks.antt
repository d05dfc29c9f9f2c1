-- ===== src/Locks.antt =====
-- The two locks of the program and the threads that take them. m_cs of netfilter/UdpProxy.h is a
-- CRITICAL_SECTION, which its owner may enter again; `lock` of netfilter/NFEventHandler.hpp is a
-- std::mutex, which it may not. Here: code reduced to what it does with them. A test whose result
-- depends on data or on a system is a choice, and a loop goes any number of rounds.
pub mod Methods
pub mod Order
pub mod Progress
use qv_plugin_netfilter.Base.{
  ℕ, ◌<◌, Bool, true, false, ◌||◌, ◌≡◌, ◌≢◌, List, [], ◌∷◌, ◌==◌, if◌then◌else◌,
}

pub data Mutex : Type 0 where
  event_lock section_lock : Mutex

pub data Code : Type 0 where
  skip : Code
  seq : Code → Code → Code
  either : Code → Code → Code
  repeat : Code → Code
  -- a scope with an AutoLock or a lock_guard
  locked : Mutex → Code → Code
  -- WaitForSingleObject on the worker thread
  wait_worker : Code

-- What a thread has still to do; `leave` is the end of a scope with a lock.
pub data Op : Type 0 where
  code : Code → Op
  leave : Mutex → Op

abbrev pub same_mutex : Mutex → Mutex → Bool
same_mutex event_lock event_lock = true
same_mutex section_lock section_lock = true
same_mutex _ _ = false

-- A thread has a lock from its scope's start to its end.
abbrev pub has : Mutex → List Op → Bool
has l [] = false
has l (code c ∷ k) = has l k
has l (leave m ∷ k) = same_mutex l m || has l k

abbrev pub Stacks : Type 0
Stacks = ℕ → List Op

-- The worker thread of the service; any other number is another thread.
abbrev pub worker : ℕ
worker = 0

-- When the thread `i` gets the lock.
abbrev pub IsFree : Stacks → Mutex → ℕ → Type 0
IsFree x event_lock i = (j : ℕ) → has event_lock (x j) ≡ false
IsFree x section_lock i = (j : ℕ) → j ≢ i → has section_lock (x j) ≡ false

-- The next move of thread `i`, from its stack to another.
pub data Move (x : Stacks) (i : ℕ) : List Op → List Op → Type 0 where
  skips : (k : List Op) → Move x i (code skip ∷ k) k
  splits : (a b : Code) (k : List Op) → Move x i (code (seq a b) ∷ k) (code a ∷ code b ∷ k)
  takes_first : (a b : Code) (k : List Op) → Move x i (code (either a b) ∷ k) (code a ∷ k)
  takes_second : (a b : Code) (k : List Op) → Move x i (code (either a b) ∷ k) (code b ∷ k)
  goes_on : (a : Code) (k : List Op) → Move x i (code (repeat a) ∷ k) (code a ∷ code (repeat a) ∷ k)
  stops : (a : Code) (k : List Op) → Move x i (code (repeat a) ∷ k) k
  enters :
      (l : Mutex) (a : Code) (k : List Op)
      → IsFree x l i
      → Move x i (code (locked l a) ∷ k) (code a ∷ leave l ∷ k)
  leaves : (l : Mutex) (k : List Op) → Move x i (leave l ∷ k) k
  joins : (k : List Op) → x worker ≡ [] → Move x i (code wait_worker ∷ k) k

abbrev pub update : Stacks → ℕ → List Op → Stacks
update x i k j = if i == j then k else x j

-- `n` threads, in any order.
pub data Step (n : ℕ) (x : Stacks) : Stacks → Type 0 where
  turn : (i : ℕ) {k : List Op} → i < n → Move x i (x i) k → Step n x (update x i k)

pub data Reach (n : ℕ) (start : ℕ → Code) : Stacks → Type 0 where
  begin : Reach n start (λ i. code (start i) ∷ [])
  later : {x y : Stacks} → Reach n start x → Step n x y → Reach n start y

-- Thread `i` cannot go on before `j` has.
pub data Waits (x : Stacks) (i j : ℕ) : Type 0 where
  for_lock :
      (l : Mutex) (a : Code) (k : List Op)
      → x i ≡ code (locked l a) ∷ k
      → has l (x j) ≡ true
      → j ≢ i
      → Waits x i j
  for_worker : (k : List Op) → x i ≡ code wait_worker ∷ k → j ≡ worker → Waits x i j

-- The thread can move, or waits for one that can move, or waits for one that waits for one that can
-- move, and so on.
pub data Unblocked (x : Stacks) : ℕ → Type 0 where
  moves : (i : ℕ) (k : List Op) → Move x i (x i) k → Unblocked x i
  waits : (i j : ℕ) → Waits x i j → Unblocked x j → Unblocked x i
