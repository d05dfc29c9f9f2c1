-- ===== src/Examples/Locks.antt =====
-- The thread that stops the plugin waits for the worker, while a thread of the filter has `lock`.
use qv_plugin_netfilter.Base.{ℕ, ◌≡◌, false, List, [], ◌∷◌, arith}
use qv_plugin_netfilter.Locks.{
  event_lock, skip, either, locked, wait_worker, Op, code, leave, has, Stacks, goes_on, splits,
  takes_first, takes_second, enters, update, turn, Reach, begin, later, Unblocked,
}
use qv_plugin_netfilter.Locks.Methods.{
  program, free_code, udp_created_code, udp_closed_code, event_udp_send_code, main_thread,
  filter_thread,
}
use qv_plugin_netfilter.Locks.Progress.{Reach-Unblocked}

abbrev started : Stacks
started i = code (program i) ∷ []

abbrev freeing : List Op
freeing = code wait_worker ∷ code (locked event_lock skip) ∷ code main_thread ∷ []

abbrev reporting : List Op
reporting = code (locked event_lock skip) ∷ code filter_thread ∷ []

abbrev inside : List Op
inside = code skip ∷ leave event_lock ∷ code filter_thread ∷ []

abbrev stopping : Stacks
stopping =
    update
      (update
        (update
          (update started 1
            (code (either (either skip free_code) free_code) ∷ code main_thread ∷ []))
          1 (code free_code ∷ code main_thread ∷ []))
        1 (code (either skip wait_worker) ∷ code (locked event_lock skip) ∷ code main_thread ∷ []))
      1 freeing

Reach-stopping : Reach 3 program stopping
unfolding program
Reach-stopping =
    later
      (later
        (later (later begin (turn 1 (omega arith) (goes_on _ _)))
          (turn 1 (omega arith) (takes_second _ _ _)))
        (turn 1 (omega arith) (splits _ _ _)))
      (turn 1 (omega arith) (takes_second _ _ _))

abbrev chosen : Stacks
chosen =
    update
      (update stopping 2 (
        code (either udp_created_code (either udp_closed_code event_udp_send_code))
        ∷ code filter_thread
        ∷ []))
      2 reporting

Reach-chosen : Reach 3 program chosen
unfolding program
Reach-chosen =
    later (later Reach-stopping (turn 2 (omega arith) (goes_on _ _)))
      (turn 2 (omega arith) (takes_first _ _ _))

event_lock_free : (j : ℕ) → has event_lock (chosen j) ≡ false
event_lock_free j = ground arith

Reach-held : Reach 3 program (update chosen 2 inside)
Reach-held = later Reach-chosen (turn 2 (omega arith) (enters event_lock skip _ event_lock_free))

Reach-Unblocked_example : Unblocked (update chosen 2 inside) 1
Reach-Unblocked_example = Reach-Unblocked Reach-held 1 (λ e. cc e)
