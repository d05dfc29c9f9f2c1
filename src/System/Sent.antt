-- ===== src/System/Sent.antt =====
-- The datagrams with which WSASendTo was called, in order, each with the endpoint it is for. A call
-- that the system refuses counts as well.
use qv_plugin_netfilter.Base.{ℕ, ◌≡◌, List, [], ◌∷◌, ◌++◌}
use qv_plugin_netfilter.System.{SysCall, Event, wsa_send_to}

abbrev pub Datagrams : Type 0
Datagrams = List (ℕ × List ℕ)

unfoldable pub note : SysCall → Datagrams → Datagrams
note (wsa_send_to socket pov addr len) before = before ++ (pov.id, pov.buffer) ∷ []
note _ before = before

unfoldable pub sent : List Event → Datagrams
sent [] = []
sent (e ∷ trace) = note e.call (sent trace)

-- A call that sends no datagram.
abbrev pub IsSilent : SysCall → Type 0
IsSilent c = (before : Datagrams) → note c before ≡ before
