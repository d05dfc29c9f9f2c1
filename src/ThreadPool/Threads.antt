-- ===== src/ThreadPool/Threads.antt =====
-- The threads of a pool of netfilter/threadpool.h, from init to free.
use mathlib.Core.List.{append_assoc, append-nil}
use qv_plugin_netfilter.Base.{
  ℕ, zero, suc, ◌≡◌, refl, sym, ap, subst, ◌∙◌, inl, inr, Bool-cases, List, [], ◌∷◌, ◌++◌, arith,
  if◌then◌else◌,
}
use qv_plugin_netfilter.Base.Int.{ℤ, pos, negsuc}
use qv_plugin_netfilter.Base.State.{pure, ◌>>=◌}
use qv_plugin_netfilter.System.{
  SysCall, Event, World, Os, perform, begin_thread, close_handle, wait_for, processors, reset_event,
  set_event,
}
use qv_plugin_netfilter.ThreadPool.{
  ThreadPool, is_thread, keep_thread, thread_count, start_threads, init, end_threads, free,
}

-- The threads that the system created, and the handles that were closed, in order.
unfoldable pub created_by : SysCall → ℕ → List ℕ
created_by begin_thread h = if is_thread h then h ∷ [] else []
created_by _ h = []

unfoldable pub created : List Event → List ℕ
created [] = []
created (e ∷ trace) = created trace ++ created_by e.call e.answer

unfoldable pub closed_by : SysCall → List ℕ
closed_by (close_handle h) = h ∷ []
closed_by _ = []

unfoldable pub closed : List Event → List ℕ
closed [] = []
closed (e ∷ trace) = closed trace ++ closed_by e.call

-- From one world to another these threads were created, and these handles closed.
pub record Ran (new old : List ℕ) (w v : World) : Type 0 where
  pub begun : created v.trace ≡ created w.trace ++ new
  pub ended : closed v.trace ≡ closed w.trace ++ old

Ran-trans :
    {ms ns ps qs : List ℕ} (w v u : World)
    → Ran ms ps w v
    → Ran ns qs v u
    → Ran (ms ++ ns) (ps ++ qs) w u
Ran-trans {ms} {ns} {ps} {qs} w v u r q = record {
  begun = q.begun ∙ ap (λ x. x ++ ns) r.begun ∙ append_assoc (created w.trace) ms ns;
  ended = q.ended ∙ ap (λ x. x ++ qs) r.ended ∙ append_assoc (closed w.trace) ps qs;
}

keep_thread-threads :
    (h : ℕ) (pool : ThreadPool)
    → (keep_thread h pool).threads ≡ pool.threads ++ created_by begin_thread h
unfolding keep_thread created_by
keep_thread-threads h pool = elim (Bool-cases (is_thread h)) [
  | inl good ↦ rw good refl
  | inr bad ↦ rw bad (sym (append-nil pool.threads))
]

module _ ⦃os : Os⦄ where
  perform-Ran :
      (c : SysCall) (w : World)
      → Ran (created_by c (os.answer w.trace c)) (closed_by c) w (perform c w).1
  unfolding perform created closed
  perform-Ran c w = record { begun = refl; ended = refl }

  start_threads-Ran :
      (n : ℕ) (pool : ThreadPool) (w : World)
      → (new : List ℕ) × Ran new [] w (start_threads n pool w).1
        × ((start_threads n pool w).0.threads ≡ pool.threads ++ new)
  unfolding start_threads ◌>>=◌ pure perform closed_by
  start_threads-Ran zero pool w = (
    [],
    record { begun = sym (append-nil _); ended = sym (append-nil _) },
    sym (append-nil pool.threads),
  )
  start_threads-Ran (suc n) pool w =
      let h = os.answer w.trace begin_thread in
      let (new, ran, same) = start_threads-Ran n (keep_thread h pool) (perform begin_thread w).1 in
      (
        created_by begin_thread h ++ new,
        Ran-trans w (perform begin_thread w).1 (start_threads (suc n) pool w).1
            (perform-Ran begin_thread w) ran,
        same
            ∙ ap (λ x. x ++ new) (keep_thread-threads h pool)
            ∙ append_assoc pool.threads (created_by begin_thread h) new,
      )

  end_threads-Ran : (hs : List ℕ) (w : World) → Ran [] hs w (end_threads hs w).1
  unfolding end_threads ◌>>=◌ pure created closed created_by closed_by perform
  end_threads-Ran [] w = record { begun = sym (append-nil _); ended = sym (append-nil _) }
  end_threads-Ran (h ∷ hs) w =
      let rest = end_threads-Ran hs (perform (close_handle h) (perform (wait_for h) w).1).1 in
      record {
        begun = ground (arith, rest.begun, append-nil (created w.trace));
        ended = ground (
          arith,
          rest.ended,
          append-nil (closed w.trace),
          append_assoc (closed w.trace) (h ∷ []) hs,
        );
      }

  nothing_Ran : (w : World) → Ran [] [] w w
  nothing_Ran w = record { begun = sym (append-nil _); ended = sym (append-nil _) }

  thread_count-Ran : (count : ℤ) (w : World) → Ran [] [] w (thread_count count w).1
  unfolding thread_count ◌>>=◌ pure created_by closed_by
  thread_count-Ran (pos zero) w = perform-Ran processors w
  thread_count-Ran (pos (suc n)) w = nothing_Ran w
  thread_count-Ran (negsuc n) w = perform-Ran processors w

  init-Ran :
      (count : ℤ) (source : ℕ) (pool : ThreadPool) (w : World)
      → (new : List ℕ) × Ran new [] w (init count source pool w).1
        × ((init count source pool w).0.threads ≡ pool.threads ++ new)
  unfolding init ◌>>=◌ created_by closed_by
  init-Ran count source pool w =
      let w' = (perform (reset_event pool.stop_event) w).1 in
      let n = thread_count count w' in
      let (new, ran, same) = start_threads-Ran n.0 (record pool { job_source = source }) n.1 in
      (
        new,
        Ran-trans w _ _ (perform-Ran (reset_event pool.stop_event) w)
            (Ran-trans w' _ _ (thread_count-Ran count w') ran),
        same,
      )

  free-Ran :
      (pool : ThreadPool) (w : World)
      → Ran [] pool.threads w (free pool w).1 × ((free pool w).0.threads ≡ [])
  unfolding free ◌>>=◌ pure created_by closed_by
  free-Ran pool w = (
    Ran-trans w _ _ (perform-Ran (set_event pool.stop_event) w)
        (end_threads-Ran pool.threads (perform (set_event pool.stop_event) w).1),
    refl,
  )

  pub free-init :
      (count : ℤ) (source : ℕ) (pool : ThreadPool) (w : World)
      → pool.threads ≡ []
      → (new : List ℕ) × Ran new new w
          (free (init count source pool w).0 (init count source pool w).1).1
        × ((free (init count source pool w).0 (init count source pool w).1).0.threads ≡ [])
  free-init count source pool w e =
      let p = (init count source pool w).0 in
      let w1 = (init count source pool w).1 in
      let (new, ran, same) = init-Ran count source pool w in
      let (ended, empty) = free-Ran (init count source pool w).0 (init count source pool w).1 in
      let all : (init count source pool w).0.threads ≡ new = same ∙ ap (λ x. x ++ new) e in
      (
        new,
        subst (λ x. Ran x new w (free p w1).1) (append-nil new)
            (Ran-trans w w1 (free p w1).1 ran (subst (λ x. Ran [] x w1 (free p w1).1) all ended)),
        empty,
      )
