-- ===== src/Proxy/Ownership/Calls.antt =====
-- The calls that start an overlapped operation hand the object over, or give it up.
use qv_plugin_netfilter.Base.{ℕ, List, ◌∷◌, Option, none, some, true, false, refl, if◌then◌else◌}
use qv_plugin_netfilter.Base.State.{M, Triple, Triple-pure, Triple-bind}
use qv_plugin_netfilter.System.{Os, failed, bind_any, connect_ex, wsa_send, wsa_recv, wsa_recv_from}
use qv_plugin_netfilter.System.Completions.{effect}
use qv_plugin_netfilter.System.Quiet.{Quiet-perform}
use qv_plugin_netfilter.Proxy.Data.{OvType, OvData}
use qv_plugin_netfilter.Proxy.Overlapped.{
  UdpProxy, repost, receive_object, start_connect, start_udp_receive, start_tcp_receive,
  start_tcp_send,
}
use qv_plugin_netfilter.Proxy.Ownership.{
  Tracked, Tracked-pure, Tracked-gets, Tracked-new, Tracked-delete, Tracked-outside, Tracked-start,
  Tracked-post_completion,
}

-- The object that the caller passes on to a receive: none, or the one it holds.
abbrev pub given_to : Option OvData → List ℕ → List ℕ
given_to none held = held
given_to (some pov) held = pov.ptr ∷ held

module _ ⦃os : Os⦄ (held : List ℕ) where
  pub repost-Tracked :
      (socket : ℕ) (pov : OvData)
      → Triple (Tracked (pov.ptr ∷ held)) (repost socket pov) (λ _. Tracked held)
  unfolding repost
  repost-Tracked socket pov =
      Triple-bind (λ _. Tracked (pov.ptr ∷ held)) (Tracked-gets _)
        λ service.
          Triple-bind (λ posted. Tracked (if posted then held else pov.ptr ∷ held))
            (Tracked-post_completion socket 0 pov service)
            (elim [ true ↦ Tracked-pure tt | false ↦ Tracked-delete pov ])

  -- What follows the start of an operation: `m` on failure, with the object, and `n` otherwise.
  pub started-Tracked :
      {A : Type 0} (p r : ℕ) {m n : M UdpProxy A}
      → Triple (Tracked (p ∷ held)) m (λ _. Tracked held)
      → Triple (Tracked held) n (λ _. Tracked held)
      → Triple
          (Tracked (if failed r then p ∷ held else held))
          (if failed r then m else n)
          (λ _. Tracked held)
  started-Tracked p r {m} {n} hm hn =
      elim (failed r)
        as (λ b.
          Triple (Tracked (if b then p ∷ held else held)) (if b then m else n)
            (λ _. Tracked held)) [ true ↦ hm | false ↦ hn ]

  pub start_connect-Tracked :
      (socket : ℕ) (addr : List ℕ) (addr_len id : ℕ)
      → Triple (Tracked held) (start_connect socket addr addr_len id) (λ _. Tracked held)
  unfolding start_connect effect
  start_connect-Tracked socket addr addr_len id =
      Triple-bind (λ pov. Tracked (pov.ptr ∷ held)) Tracked-new
        λ fresh.
          Triple-bind (λ _. Tracked (fresh.ptr ∷ held))
            (Tracked-outside (Quiet-perform (bind_any socket) λ r ps. refl))
            λ _.
              (Triple-bind (λ r. Tracked (if failed r then fresh.ptr ∷ held else held))
                (Tracked-start fresh.ptr (connect_ex socket addr addr_len _) λ r ps. refl)
                λ r.
                  started-Tracked fresh.ptr r
                    (Triple-bind (λ _. Tracked held) (Tracked-delete _) λ _. Tracked-pure false)
                    (Tracked-pure true))

  receive_object-Tracked :
      (t : OvType) (id : ℕ) (given : Option OvData)
      → Triple
          (Tracked (given_to given held))
          (receive_object t id given)
          (λ pov. Tracked (pov.ptr ∷ held))
  unfolding receive_object
  receive_object-Tracked t id none =
      Triple-bind (λ pov. Tracked (pov.ptr ∷ held)) Tracked-new λ fresh. Triple-pure _ λ s t. t
  receive_object-Tracked t id (some pov) = Triple-pure pov λ s t. t

  pub start_udp_receive-Tracked :
      (socket id : ℕ) (given : Option OvData)
      → Triple
          (Tracked (given_to given held))
          (start_udp_receive socket id given)
          (λ _. Tracked held)
  unfolding start_udp_receive effect
  start_udp_receive-Tracked socket id given =
      Triple-bind (λ pov. Tracked (pov.ptr ∷ held)) (receive_object-Tracked _ id given)
        λ pov.
          Triple-bind (λ r. Tracked (if failed r then pov.ptr ∷ held else held))
            (Tracked-start pov.ptr (wsa_recv_from socket _) λ r ps. refl)
            λ r.
              started-Tracked pov.ptr r
                (Triple-bind (λ _. Tracked held) (repost-Tracked socket _) λ _. Tracked-pure true)
                (Tracked-pure true)

  pub start_tcp_receive-Tracked :
      (socket id : ℕ) (given : Option OvData)
      → Triple
          (Tracked (given_to given held))
          (start_tcp_receive socket id given)
          (λ _. Tracked held)
  unfolding start_tcp_receive effect
  start_tcp_receive-Tracked socket id given =
      Triple-bind (λ pov. Tracked (pov.ptr ∷ held)) (receive_object-Tracked _ id given)
        λ pov.
          Triple-bind (λ r. Tracked (if failed r then pov.ptr ∷ held else held))
            (Tracked-start pov.ptr (wsa_recv socket _) λ r ps. refl)
            λ r.
              started-Tracked pov.ptr r
                (Triple-bind (λ _. Tracked held) (repost-Tracked socket _) λ _. Tracked-pure true)
                (Tracked-pure true)

  pub start_tcp_send-Tracked :
      (socket : ℕ) (buf : List ℕ) (id : ℕ)
      → Triple (Tracked held) (start_tcp_send socket buf id) (λ _. Tracked held)
  unfolding start_tcp_send effect
  start_tcp_send-Tracked socket buf id =
      Triple-bind (λ pov. Tracked (pov.ptr ∷ held)) Tracked-new
        λ fresh.
          Triple-bind (λ r. Tracked (if failed r then fresh.ptr ∷ held else held))
            (Tracked-start fresh.ptr (wsa_send socket _) λ r ps. refl)
            λ r.
              started-Tracked fresh.ptr r
                (Triple-bind (λ _. Tracked held) (repost-Tracked socket _) λ _. Tracked-pure false)
                (Tracked-pure true)
