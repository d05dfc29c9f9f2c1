-- ===== src/System/Completions.antt =====
-- The completions of overlapped operations, as the documentation of Windows has them: a call that
-- returns 0 or ERROR_IO_PENDING is followed by one completion packet with its OVERLAPPED, a call
-- that fails otherwise by none, and a successful PostQueuedCompletionStatus by one.
use qv_plugin_netfilter.Base.{ℕ, ◌≡◌, List, [], ◌∷◌, ◌==◌, if◌then◌else◌, remove}
use qv_plugin_netfilter.System.{
  SysCall, Event, failed, connect_ex, wsa_send, wsa_recv, wsa_send_to, wsa_recv_from, post_queued,
  dequeued,
}

-- The objects whose completion is to come, after a call.
abbrev pub started : ℕ → ℕ → List ℕ → List ℕ
started ptr r pending = if failed r then pending else ptr ∷ pending

unfoldable pub effect : SysCall → ℕ → List ℕ → List ℕ
effect (connect_ex s a n pov) r pending = started pov.ptr r pending
effect (wsa_send s pov) r pending = started pov.ptr r pending
effect (wsa_recv s pov) r pending = started pov.ptr r pending
effect (wsa_send_to s pov a n) r pending = started pov.ptr r pending
effect (wsa_recv_from s pov) r pending = started pov.ptr r pending
effect (post_queued p n s pov) r pending = if r == 0 then pending else pov.ptr ∷ pending
effect (dequeued pov) r pending = remove pov.ptr pending
effect _ r pending = pending

unfoldable pub in_flight : List Event → List ℕ
in_flight [] = []
in_flight (e ∷ trace) = effect e.call e.answer (in_flight trace)

-- A call that neither starts an operation nor ends one.
abbrev pub IsNeutral : SysCall → Type 0
IsNeutral c = (r : ℕ) (pending : List ℕ) → effect c r pending ≡ pending

-- A call that starts an operation on the object.
abbrev pub Starts : ℕ → SysCall → Type 0
Starts ptr c = (r : ℕ) (pending : List ℕ) → effect c r pending ≡ started ptr r pending
