-- ===== src/Proxy/Queue/Refused.antt =====
-- The queue of the datagrams that wait for the relay, in netfilter/UDPProxy.cpp, when the system refuses
-- the datagrams.
use qv_plugin_netfilter.Base.{
  ℕ, zero, suc, ◌≤◌, ◌≡◌, refl, Bool-cases, inl, inr, true, Option, none, some, List, [], ◌∷◌, ◌++◌,
  map, if◌then◌else◌,
}
use qv_plugin_netfilter.Base.Map.{find}
use qv_plugin_netfilter.Base.State.{M, Keeps, Keeps-pure, Keeps-gets, Keeps-if, Keeps-bind, modify}
use qv_plugin_netfilter.Socks.{response_at}
use qv_plugin_netfilter.System.{
  SysCall, Event, World, Os, perform, failed, wsa_send, wsa_send_to, wsa_recv, wsa_recv_from,
  post_queued,
}
use qv_plugin_netfilter.System.Sent.{Datagrams, note, sent, IsSilent}
use qv_plugin_netfilter.Iocp.{post_completion}
use qv_plugin_netfilter.Proxy.Data.{
  OvType, OvData, ProxyData, ProxyState, UdpPacket, ps_none, ps_auth, ps_auth_negotiation,
  ps_udp_assoc, ps_connected, ps_closed,
}
use qv_plugin_netfilter.Proxy.Overlapped.{
  UdpProxy, outside, new_ov_data, delete_ov_data, repost, receive_object, start_udp_receive,
  start_tcp_receive, start_tcp_send,
}
use qv_plugin_netfilter.Proxy.Send.{start_receiving, finish_send, transmit, udp_send_by, udp_send}
use qv_plugin_netfilter.Proxy.Handshake.{
  write, send_and_advance, pop_packet, drain_step, drain, connect_relay, relay_address, negotiate,
  negotiate_found, on_tcp_receive_complete,
}
use qv_plugin_netfilter.Proxy.Queue.Drain.{encode, on_tcp_receive_complete-Sends}

-- The datagrams that the system took, in order, each with the endpoint it is for.
unfoldable pub accepted : List Event → Datagrams
accepted [] = []
accepted (e ∷ trace) = if failed e.answer then accepted trace else note e.call (accepted trace)

-- The system refuses each WSASendTo, at once.
pub record RefusesSends (os : Os) : Type 0 where
  pub refused :
      (trace : List Event) (socket : ℕ) (pov : OvData) (addr : List ℕ) (len : ℕ)
      → failed (os.answer trace (wsa_send_to socket pov addr len)) ≡ true

abbrev taken : UdpProxy → Datagrams
taken s = accepted s.world.trace

modify-taken :
    (f : UdpProxy → UdpProxy) → ((s : UdpProxy) → (f s).world ≡ s.world) → Keeps taken (modify f)
unfolding modify
modify-taken f e = record { same = λ s. rw (e s) refl }

outside-taken :
    {A : Type 0} {m : M World A} → Keeps (λ w. accepted w.trace) m → Keeps taken (outside m)
unfolding outside
outside-taken k = record { same = λ s. k.same s.world }

new-taken : Keeps taken new_ov_data
unfolding new_ov_data
new-taken = record { same = λ s. refl }

delete-taken : (pov : OvData) → Keeps taken (delete_ov_data pov)
unfolding delete_ov_data modify
delete-taken pov = record { same = λ s. refl }

module _ ⦃os : Os⦄ where
  silent-accepted : (c : SysCall) → IsSilent c → Keeps (λ w. accepted w.trace) (perform c)
  unfolding perform accepted
  silent-accepted c n = record {
    same = λ w. elim (Bool-cases (failed (os.answer w.trace c))) [
      | inl bad ↦ rw bad refl
      | inr good ↦ rw good (n (accepted w.trace))
    ];
  }

  call-taken : (c : SysCall) → IsSilent c → Keeps taken (outside (perform c))
  call-taken c n = outside-taken (silent-accepted c n)

  repost-taken : (socket : ℕ) (pov : OvData) → Keeps taken (repost socket pov)
  unfolding repost post_completion note
  repost-taken socket pov = Keeps-bind (Keeps-gets _) λ service.
      Keeps-bind
        (outside-taken
          (Keeps-bind (silent-accepted (post_queued _ _ _ _) λ b. refl) λ r. Keeps-pure _))
        λ posted. Keeps-if posted (Keeps-pure tt) (delete-taken pov)

  object-taken :
      (t : OvType) (id : ℕ) (given : Option OvData) → Keeps taken (receive_object t id given)
  unfolding receive_object
  object-taken t id none = Keeps-bind new-taken λ fresh. Keeps-pure _
  object-taken t id (some pov) = Keeps-pure pov

  udp_receive-taken :
      (socket id : ℕ) (given : Option OvData) → Keeps taken (start_udp_receive socket id given)
  unfolding start_udp_receive note
  udp_receive-taken socket id given = Keeps-bind (object-taken _ id given) λ pov.
      Keeps-bind (call-taken (wsa_recv_from _ _) λ b. refl)
        λ r. Keeps-if _ (Keeps-bind (repost-taken socket _) λ _. Keeps-pure _) (Keeps-pure _)

  tcp_receive-taken :
      (socket id : ℕ) (given : Option OvData) → Keeps taken (start_tcp_receive socket id given)
  unfolding start_tcp_receive note
  tcp_receive-taken socket id given = Keeps-bind (object-taken _ id given) λ pov.
      Keeps-bind (call-taken (wsa_recv _ _) λ b. refl)
        λ r. Keeps-if _ (Keeps-bind (repost-taken socket _) λ _. Keeps-pure _) (Keeps-pure _)

  finish-taken :
      (id : ℕ) (pd : ProxyData) (pov : OvData) (r : ℕ) → Keeps taken (finish_send id pd pov r)
  unfolding finish_send start_receiving
  finish-taken id pd pov r = Keeps-if _ (Keeps-bind (repost-taken _ _) λ _. Keeps-pure _) (
      Keeps-bind
        (Keeps-if _ (Keeps-pure tt) (
          Keeps-bind (modify-taken _ λ s. refl)
            λ _. Keeps-bind (udp_receive-taken _ id none) λ _. Keeps-pure tt))
        λ _. Keeps-pure _)

  write-taken : (id : ℕ) (pd : ProxyData) → Keeps taken (write id pd)
  unfolding write
  write-taken id pd = modify-taken _ λ s. refl

  pop-taken : (id : ℕ) (found : Option ProxyData) → Keeps taken (pop_packet id found)
  unfolding pop_packet
  pop-taken id none = Keeps-pure tt
  pop-taken id (some pd) = write-taken id _

module _ ⦃os : Os⦄ (refuses : RefusesSends os) where
  send-accepted :
      (socket : ℕ) (pov : OvData) (addr : List ℕ) (len : ℕ)
      → Keeps (λ w. accepted w.trace) (perform (wsa_send_to socket pov addr len))
  unfolding perform accepted
  send-accepted socket pov addr len = record {
    same = λ w. rw (refuses.refused w.trace socket pov addr len) refl;
  }

  send_by-taken :
      (id : ℕ) (buf addr : List ℕ) (len : ℕ) (found : Option ProxyData)
      → Keeps taken (udp_send_by id buf addr len found)
  unfolding udp_send_by transmit
  send_by-taken id buf addr len none = Keeps-pure _
  send_by-taken id buf addr len (some pd) =
      Keeps-if _
        (Keeps-bind new-taken
          λ fresh. Keeps-bind (outside-taken (send-accepted _ _ _ _)) λ r. finish-taken id pd _ r)
        (Keeps-bind (modify-taken _ λ s. refl) λ _. Keeps-pure _)

  step-taken :
      (rest : M UdpProxy (Unit {0})) (id : ℕ) (ps : List UdpPacket)
      → Keeps taken rest
      → Keeps taken (drain_step rest id ps)
  unfolding drain_step udp_send
  step-taken rest id [] h = Keeps-pure tt
  step-taken rest id (p ∷ ps) h =
      Keeps-bind (Keeps-bind (Keeps-gets _) λ found. send_by-taken id _ _ _ found)
        λ _. Keeps-bind (Keeps-gets _) λ now. Keeps-bind (pop-taken id now) λ _. h

  drain-taken : (fuel id : ℕ) → Keeps taken (drain fuel id)
  unfolding drain
  drain-taken zero id = Keeps-pure tt
  drain-taken (suc fuel) id =
      Keeps-bind (Keeps-gets _) λ queue. step-taken (drain fuel id) id queue (drain-taken fuel id)

  relay-taken :
      (id : ℕ) (pd : ProxyData) (address : Option (List ℕ × ℕ))
      → Keeps taken (connect_relay id pd address)
  unfolding connect_relay
  relay-taken id pd none = Keeps-pure tt
  relay-taken id pd (some (addr, len)) = Keeps-bind (write-taken id _) λ _. drain-taken _ id

  advance-taken :
      (id : ℕ) (pd : ProxyData) (message : List ℕ) (after : ProxyState)
      → Keeps taken (send_and_advance id pd message after)
  unfolding send_and_advance start_tcp_send note
  advance-taken id pd message after =
      Keeps-bind
        (Keeps-bind new-taken λ fresh.
          Keeps-bind (call-taken (wsa_send _ _) λ b. refl)
            λ r. Keeps-if _ (Keeps-bind (repost-taken _ _) λ _. Keeps-pure _) (Keeps-pure _))
        λ sent. Keeps-if sent (write-taken id _) (Keeps-pure tt)

  negotiate-taken :
      (state : ProxyState) (transferred : ℕ) (pov : OvData) (pd : ProxyData)
      → Keeps taken (negotiate state transferred pov pd)
  unfolding negotiate
  negotiate-taken ps_none transferred pov pd = Keeps-pure tt
  negotiate-taken ps_auth transferred pov pd =
      Keeps-if _ (Keeps-pure tt)
        (Keeps-if _ (advance-taken pov.id pd _ _) (advance-taken pov.id pd _ _))
  negotiate-taken ps_auth_negotiation transferred pov pd =
      Keeps-if _ (Keeps-pure tt) (advance-taken pov.id pd _ _)
  negotiate-taken ps_udp_assoc transferred pov pd =
      Keeps-if _ (Keeps-pure tt) (Keeps-bind (Keeps-gets _) λ address. relay-taken pov.id pd _)
  negotiate-taken ps_connected transferred pov pd = Keeps-pure tt
  negotiate-taken ps_closed transferred pov pd = Keeps-pure tt

  received-taken :
      (socket transferred : ℕ) (pov : OvData)
      → Keeps taken (on_tcp_receive_complete socket transferred pov)
  unfolding on_tcp_receive_complete negotiate_found
  received-taken socket transferred pov = Keeps-if _ (delete-taken pov) (
      Keeps-bind (Keeps-gets _) λ found.
        Keeps-bind (found-taken found)
          λ _. Keeps-bind (tcp_receive-taken socket pov.id (some pov)) λ _. Keeps-pure tt)
    where
      found-taken : (found : Option ProxyData) → Keeps taken (negotiate_found transferred pov found)
      found-taken none = Keeps-pure tt
      found-taken (some pd) = negotiate-taken pd.proxy_state transferred pov pd

  pub on_tcp_receive_complete-loses :
      (socket transferred : ℕ) (pov : OvData) (pd : ProxyData) (s : UdpProxy) (addr : List ℕ)
      (len : ℕ)
      → find pov.id s.socket_map ≡ some pd
      → pd.proxy_state ≡ ps_udp_assoc
      → 5 ≤ transferred
      → (response_at pov.buffer).version ≡ 5
      → (response_at pov.buffer).res_code ≡ 0
      → relay_address s.proxy_address pov.buffer ≡ some (addr, len)
      → (opened : ProxyData) × (find pov.id
            (on_tcp_receive_complete socket transferred pov s).1.socket_map
          ≡ some opened)
        × (opened.proxy_state ≡ ps_connected)
        × (opened.udp_send_packets ≡ [])
        × (sent (on_tcp_receive_complete socket transferred pov s).1.world.trace
            ≡ sent s.world.trace ++ map (encode pov.id) pd.udp_send_packets)
        × (accepted (on_tcp_receive_complete socket transferred pov s).1.world.trace
            ≡ accepted s.world.trace)
  on_tcp_receive_complete-loses socket transferred pov pd s addr len e st n v r a =
      let (b, sends) =
        on_tcp_receive_complete-Sends socket transferred pov pd s addr len e st n v r a in
      (_, sends.hit, refl, refl, sends.out, (received-taken socket transferred pov).same s)
