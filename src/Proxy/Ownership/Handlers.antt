-- ===== src/Proxy/Ownership/Handlers.antt =====
-- The handlers of completions give their object up or hand it over again.
use qv_plugin_netfilter.Base.{
  ℕ, zero, suc, List, [], ◌∷◌, Option, none, some, refl, true, false, if◌then◌else◌,
}
use qv_plugin_netfilter.Base.Int.{ℤ}
use qv_plugin_netfilter.Base.State.{M, Triple, Triple-if, Triple-bind}
use qv_plugin_netfilter.System.{Os, failed, wsa_send_to, tcp_no_delay, keep_alive}
use qv_plugin_netfilter.System.Completions.{effect}
use qv_plugin_netfilter.System.Quiet.{Quiet, Quiet-pure, Quiet-if, Quiet-perform}
use qv_plugin_netfilter.Proxy.Data.{
  OvData, ProxyState, ps_auth, ps_auth_negotiation, ps_udp_assoc, UdpPacket, ProxyData,
}
use qv_plugin_netfilter.Proxy.Overlapped.{UdpProxy}
use qv_plugin_netfilter.Proxy.Send.{
  is_connected, start_receiving, finish_send, transmit, udp_send_by, udp_send,
}
use qv_plugin_netfilter.Proxy.Handshake.{
  write, send_and_advance, pop_packet, drain_step, drain, connect_relay, negotiate, negotiate_found,
  negotiate_received, on_tcp_receive_complete,
}
use qv_plugin_netfilter.Proxy.Receive.{UdpProxyHandler, deliver, on_udp_receive_complete, greet}
use qv_plugin_netfilter.Proxy.Ownership.{
  Tracked, Tracked-pure, Tracked-gets, Tracked-map, Tracked-new, Tracked-if, Tracked-bind,
  Tracked-delete, Tracked-outside, Tracked-start,
}
use qv_plugin_netfilter.Proxy.Ownership.Calls.{
  started-Tracked, repost-Tracked, start_udp_receive-Tracked, start_tcp_receive-Tracked,
  start_tcp_send-Tracked,
}

-- What the client of the proxy may do with a datagram that it is handed.
pub record IsQuiet (h : UdpProxyHandler) : Type 0 where
  pub quiet :
      (id : ℕ) (buf : List ℕ) (len : ℤ) (addr : List ℕ) (addr_len : ℕ)
      → Quiet (h.on_udp_receive_complete id buf len addr addr_len)

pub deliver-Quiet :
    (h : UdpProxyHandler) (transferred id : ℕ) (buffer : List ℕ)
    → IsQuiet h
    → Quiet (deliver h transferred id buffer)
unfolding deliver
deliver-Quiet h transferred id buffer q = search (Quiet-if, Quiet-pure, IsQuiet.quiet)

module _ ⦃os : Os⦄ (held : List ℕ) where
  write-Tracked :
      (id : ℕ) (pd : ProxyData) → Triple (Tracked held) (write id pd) (λ _. Tracked held)
  unfolding write
  write-Tracked id pd = Tracked-map _

  start_receiving-Tracked :
      (id : ℕ) (pd : ProxyData) → Triple (Tracked held) (start_receiving id pd) (λ _. Tracked held)
  unfolding start_receiving
  start_receiving-Tracked id pd = Tracked-if pd.udp_recv_started (Tracked-pure tt) (
      Tracked-bind (Tracked-map _) λ _.
        Tracked-bind (start_udp_receive-Tracked held pd.udp_socket id none) λ _. Tracked-pure tt)

  transmit-Tracked :
      (id : ℕ) (pd : ProxyData) (buf addr : List ℕ)
      → Triple (Tracked held) (transmit id pd buf addr) (λ _. Tracked held)
  unfolding transmit finish_send effect
  transmit-Tracked id pd buf addr =
      Triple-bind (λ pov. Tracked (pov.ptr ∷ held)) Tracked-new
        λ fresh.
          Triple-bind (λ r. Tracked (if failed r then fresh.ptr ∷ held else held))
            (Tracked-start fresh.ptr (wsa_send_to _ _ _ _) λ r ps. refl)
            λ r.
              started-Tracked held fresh.ptr r
                (Triple-bind (λ _. Tracked held) (repost-Tracked held _ _) λ _. Tracked-pure false)
                (Triple-bind (λ _. Tracked held) (start_receiving-Tracked id pd)
                  λ _. Tracked-pure true)

  udp_send_by-Tracked :
      (id : ℕ) (buf addr : List ℕ) (addr_len : ℕ) (found : Option ProxyData)
      → Triple (Tracked held) (udp_send_by id buf addr addr_len found) (λ _. Tracked held)
  unfolding udp_send_by
  udp_send_by-Tracked id buf addr addr_len none = Tracked-pure false
  udp_send_by-Tracked id buf addr addr_len (some pd) =
      Tracked-if (is_connected pd.proxy_state) (transmit-Tracked id pd buf addr)
        (Tracked-bind (Tracked-map _) λ _. Tracked-pure true)

  pub udp_send-Tracked :
      (id : ℕ) (buf addr : List ℕ) (addr_len : ℕ)
      → Triple (Tracked held) (udp_send id buf addr addr_len) (λ _. Tracked held)
  unfolding udp_send
  udp_send-Tracked id buf addr addr_len =
      Tracked-bind (Tracked-gets _) (udp_send_by-Tracked id buf addr addr_len)

  pub send_and_advance-Tracked :
      (id : ℕ) (pd : ProxyData) (message : List ℕ) (next : ProxyState)
      → Triple (Tracked held) (send_and_advance id pd message next) (λ _. Tracked held)
  unfolding send_and_advance
  send_and_advance-Tracked id pd message next =
      Tracked-bind (start_tcp_send-Tracked held pd.tcp_socket message id)
        λ sent. Tracked-if sent (write-Tracked id _) (Tracked-pure tt)

  pop_packet-Tracked :
      (id : ℕ) (found : Option ProxyData)
      → Triple (Tracked held) (pop_packet id found) (λ _. Tracked held)
  unfolding pop_packet
  pop_packet-Tracked id none = Tracked-pure tt
  pop_packet-Tracked id (some pd) = write-Tracked id _

  drain_step-Tracked :
      {rest : M UdpProxy (Unit {0})} (id : ℕ) (queue : List UdpPacket)
      → Triple (Tracked held) rest (λ _. Tracked held)
      → Triple (Tracked held) (drain_step rest id queue) (λ _. Tracked held)
  unfolding drain_step
  drain_step-Tracked id [] t = Tracked-pure tt
  drain_step-Tracked id (p ∷ ps) t =
      Tracked-bind (udp_send-Tracked id p.buffer p.remote_address p.remote_address_len)
        λ _. Tracked-bind (Tracked-gets _) λ now. Tracked-bind (pop_packet-Tracked id now) λ _. t

  drain-Tracked : (fuel id : ℕ) → Triple (Tracked held) (drain fuel id) (λ _. Tracked held)
  unfolding drain
  drain-Tracked zero id = Tracked-pure tt
  drain-Tracked (suc fuel) id =
      Tracked-bind (Tracked-gets _) λ queue. drain_step-Tracked id queue (drain-Tracked fuel id)

  connect_relay-Tracked :
      (id : ℕ) (pd : ProxyData) (relay : Option (List ℕ × ℕ))
      → Triple (Tracked held) (connect_relay id pd relay) (λ _. Tracked held)
  unfolding connect_relay
  connect_relay-Tracked id pd none = Tracked-pure tt
  connect_relay-Tracked id pd (some (addr, len)) =
      Tracked-bind (write-Tracked id _) λ _. drain-Tracked _ id

  negotiate-Tracked :
      (state : ProxyState) (transferred : ℕ) (pov : OvData) (pd : ProxyData)
      → Triple (Tracked held) (negotiate state transferred pov pd) (λ _. Tracked held)
  unfolding negotiate
  negotiate-Tracked ps_auth transferred pov pd =
      Tracked-if _ (Tracked-pure tt)
        (Tracked-if _ (send_and_advance-Tracked _ _ _ _) (send_and_advance-Tracked _ _ _ _))
  negotiate-Tracked ps_auth_negotiation transferred pov pd =
      Tracked-if _ (Tracked-pure tt) (send_and_advance-Tracked _ _ _ _)
  negotiate-Tracked ps_udp_assoc transferred pov pd =
      Tracked-if _ (Tracked-pure tt)
        (Tracked-bind (Tracked-gets _) λ address. connect_relay-Tracked _ _ _)
  negotiate-Tracked _ transferred pov pd = Tracked-pure tt

  negotiate_found-Tracked :
      (transferred : ℕ) (pov : OvData) (found : Option ProxyData)
      → Triple (Tracked held) (negotiate_found transferred pov found) (λ _. Tracked held)
  unfolding negotiate_found
  negotiate_found-Tracked transferred pov none = Tracked-pure tt
  negotiate_found-Tracked transferred pov (some pd) = negotiate-Tracked _ _ _ _

  pub negotiate_received-Tracked :
      (transferred : ℕ) (pov : OvData)
      → Triple (Tracked held) (negotiate_received transferred pov) (λ _. Tracked held)
  unfolding negotiate_received
  negotiate_received-Tracked transferred pov =
      Tracked-bind (Tracked-gets _) (negotiate_found-Tracked transferred pov)

  pub greet-Tracked :
      (socket id : ℕ) (found : Option ProxyData)
      → Triple (Tracked held) (greet socket id found) (λ _. Tracked held)
  unfolding greet effect
  greet-Tracked socket id none = Tracked-pure tt
  greet-Tracked socket id (some pd) =
      Tracked-bind (Tracked-outside (Quiet-perform (tcp_no_delay socket) λ r ps. refl)) λ _.
        Tracked-bind (Tracked-outside (Quiet-perform (keep_alive socket) λ r ps. refl)) λ _.
          Tracked-bind (send_and_advance-Tracked id pd _ _) λ _.
            Tracked-bind (start_tcp_receive-Tracked held pd.tcp_socket id none) λ _. Tracked-pure tt

module _ ⦃os : Os⦄ (held : List ℕ) where
  pub on_tcp_receive_complete-Tracked :
      (socket transferred : ℕ) (pov : OvData)
      → Triple
          (Tracked (pov.ptr ∷ held))
          (on_tcp_receive_complete socket transferred pov)
          (λ _. Tracked held)
  unfolding on_tcp_receive_complete
  on_tcp_receive_complete-Tracked socket transferred pov = Triple-if _ (Tracked-delete pov) (
      Triple-bind (λ _. Tracked (pov.ptr ∷ held)) (Tracked-gets _)
        λ found.
          Triple-bind (λ _. Tracked (pov.ptr ∷ held))
            (negotiate_found-Tracked (pov.ptr ∷ held) transferred pov found)
            λ _.
              Triple-bind (λ _. Tracked held)
                (start_tcp_receive-Tracked held socket pov.id (some pov)) λ _. Tracked-pure tt)

  pub on_udp_receive_complete-Tracked :
      (h : UdpProxyHandler) (socket transferred : ℕ) (pov : OvData)
      → IsQuiet h
      → Triple
          (Tracked (pov.ptr ∷ held))
          (on_udp_receive_complete h socket transferred pov)
          (λ _. Tracked held)
  unfolding on_udp_receive_complete
  on_udp_receive_complete-Tracked h socket transferred pov q = Triple-if _ (Tracked-delete pov) (
      Triple-bind (λ _. Tracked (pov.ptr ∷ held))
        (Tracked-outside (deliver-Quiet h transferred pov.id pov.buffer q))
        λ _.
          Triple-bind (λ _. Tracked held) (start_udp_receive-Tracked held socket pov.id (some pov))
            λ _. Tracked-pure tt)
