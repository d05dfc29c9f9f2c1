-- ===== src/Proxy/Threads.antt =====
-- The methods of netfilter/UDPProxy.cpp as several threads run them: the filter's thread calls the
-- proxy while the worker thread of netfilter/iocp.h handles completions. A task is what a thread
-- has still to do, section by section. A section is a block under m_cs, or what the code does
-- outside of m_cs up to and with one call of the system.
pub mod Sections
pub mod Sequential
pub mod Ownership
pub mod History
use qv_plugin_netfilter.Base.{
  ℕ, zero, suc, Bool, true, false, ◌&&◌, ◌≡◌, refl, List, [], ◌∷◌, if◌then◌else◌,
}
use qv_plugin_netfilter.Base.State.{M}
use qv_plugin_netfilter.Base.State
use qv_plugin_netfilter.Proxy.Overlapped.{UdpProxy}

pub data Task (S R : Type 0) : Type 1 where
  finished : R → Task S R
  section : {A : Type 0} → M S A → (A → Task S R) → Task S R

module _ {S A : Type 0} where
  -- A task of one section.
  abbrev pub atomic : M S A → Task S A
  atomic m = section m finished

module _ {S A B : Type 0} where
  infixl 5 ◌>>=◌ ◌>>◌
  unfoldable pub ◌>>=◌ : Task S A → (A → Task S B) → Task S B
  finished a >>= f = f a
  section m k >>= f = section m (λ a. k a >>= f)

  abbrev pub ◌>>◌ : Task S A → Task S B → Task S B
  t >> u = t >>= λ _. u

module _ {S R : Type 0} where
  -- The task from start to end, with no other thread between its sections.
  unfoldable pub run : Task S R → M S R
  run (finished a) s = (a, s)
  run (section m k) s = let (a, s') = m s in run (k a) s'

  -- The task after its next section.
  unfoldable pub advance : Task S R → S → Task S R × S
  advance (finished a) s = (finished a, s)
  advance (section m k) s = let (a, s') = m s in (k a, s')

  -- Whether the method has returned.
  unfoldable pub is_finished : Task S R → Bool
  is_finished (finished a) = true
  is_finished (section m k) = false

  -- Of several threads the one at the index does its next section; one that has finished does
  -- nothing.
  unfoldable pub turn : ℕ → List (Task S R) → S → List (Task S R) × S
  turn i [] s = ([], s)
  turn zero (t ∷ ts) s = let (t', s') = advance t s in (t' ∷ ts, s')
  turn (suc i) (t ∷ ts) s = let (ts', s') = turn i ts s in (t ∷ ts', s')

  unfoldable pub all_finished : List (Task S R) → Bool
  all_finished [] = true
  all_finished (t ∷ ts) = is_finished t && all_finished ts

-- Run alone, the task is the method.
pub record Runs {S R : Type 0} (t : Task S R) (m : M S R) : Type 0 where
  pub same : (s : S) → run t s ≡ m s
