-- ===== src/Proxy/Progress.antt =====
-- netfilter/UDPProxy.cpp: a connection of m_socketMap after its TCP connection is made. Its state
-- only advances, and its sockets and credentials stay.
pub mod History
pub mod Answers
pub mod Promotes
use native.Mathlib.Nat.{le_refl}
use qv_plugin_netfilter.Base.{
  ℕ, zero, suc, ◌≤◌, ◌≡◌, refl, sym, ap, subst, ◌∙◌, Option, none, some, List, [], ◌∷◌, Bool, true,
  false, arith, ◌==◌, if◌then◌else◌,
}
use qv_plugin_netfilter.Base.Map.{find, put, find-put_self}
use qv_plugin_netfilter.Base.State.{
  M, pure, gets, modify, ◌>>=◌, Keeps, Triple, Triple-if, Triple-bind, Triple-pure, Triple-gets,
}
use qv_plugin_netfilter.System.{Os, failed}
use qv_plugin_netfilter.Proxy.Data.{
  OvData, ProxyState, ps_none, ps_auth, ps_auth_negotiation, ps_udp_assoc, ps_connected, ps_closed,
  UdpPacket, ProxyData,
}
use qv_plugin_netfilter.Proxy.Overlapped.{UdpProxy}
use qv_plugin_netfilter.Proxy.Send.{
  is_connected, start_receiving, finish_send, transmit, udp_send_by, udp_send,
}
use qv_plugin_netfilter.Proxy.Handshake.{
  write, send_and_advance, pop_packet, drain_step, drain, connect_relay, negotiate, negotiate_found,
  on_tcp_receive_complete,
}
use qv_plugin_netfilter.Proxy.Queue.{
  repost-Keeps, start_udp_receive-Keeps, start_tcp_receive-Keeps, start_tcp_send-Keeps,
}
use qv_plugin_netfilter.Proxy.Isolation.{
  slot, slot-view, outside-slot, delete_ov_data-slot, new_ov_data-slot,
}

-- The order of the states in the negotiation. No connection has the state ps_closed.
unfoldable pub rank : ProxyState → ℕ
rank ps_none = 0
rank ps_auth = 1
rank ps_auth_negotiation = 2
rank ps_udp_assoc = 3
rank ps_connected = 4
rank ps_closed = 0

pub record Later (old pd : ProxyData) : Type 0 where
  pub advanced : rank old.proxy_state ≤ rank pd.proxy_state
  pub same_tcp : pd.tcp_socket ≡ old.tcp_socket
  pub same_udp : pd.udp_socket ≡ old.udp_socket
  pub same_name : pd.user_name ≡ old.user_name
  pub same_password : pd.user_password ≡ old.user_password

-- What is left of a connection: nothing, or a later state of it.
abbrev pub Continues : ProxyData → Option ProxyData → Type 0
Continues old none = Unit
Continues old (some pd) = Later old pd

-- A change to nothing but the state, which goes up, the address of the relay, the queue, and the
-- mark that receives have started.
pub Later-update :
    (old pd : ProxyData) (state : ProxyState) (addr : List ℕ) (len : ℕ) (packets : List UdpPacket)
    (b : Bool)
    → Later old pd
    → rank pd.proxy_state ≤ rank state
    → Later old (record pd {
      proxy_state = state;
      remote_address = addr;
      remote_address_len = len;
      udp_send_packets = packets;
      udp_recv_started = b;
    })
Later-update old pd state addr len packets b l h = record {
  advanced = omega (arith, l.advanced);
  same_tcp = l.same_tcp;
  same_udp = l.same_udp;
  same_name = l.same_name;
  same_password = l.same_password;
}

pub Later-same : (old : ProxyData) → Later old old
Later-same old = record {
  advanced = le_refl _;
  same_tcp = refl;
  same_udp = refl;
  same_name = refl;
  same_password = refl;
}

module _ (old : ProxyData) (id : ℕ) where
  abbrev pub Kept : UdpProxy → Type 0
  Kept s = Continues old (slot id s)

  -- A method that lets the connection continue.
  abbrev pub Lets : {A : Type 0} → M UdpProxy A → Type 0
  Lets m = Triple Kept m (λ _. Kept)

  pub Lets-pure : {A : Type 0} (a : A) → Lets (pure a)
  Lets-pure a = Triple-pure a λ s h. h

  pub Lets-slot : {A : Type 0} {m : M UdpProxy A} → Keeps (slot id) m → Lets m
  Lets-slot k = record { at = λ s h. subst (Continues old) (sym (k.same s)) h }

  pub Lets-bind :
      {A B : Type 0} {m : M UdpProxy A} {f : A → M UdpProxy B}
      → Lets m
      → ((a : A) → Lets (f a))
      → Lets (m >>= f)
  Lets-bind hm hf = Triple-bind (λ _. Kept) hm hf

  -- The method goes on from what it finds.
  pub Lets-find :
      {A : Type 0} (f : Option ProxyData → M UdpProxy A)
      → ((found : Option ProxyData) → Continues old found → Lets (f found))
      → Lets (gets (λ s. find id s.socket_map) >>= f)
  unfolding ◌>>=◌ gets
  Lets-find f h = record { at = λ s c. (h (slot id s) c).at s c }

  pub Lets-gets : {A : Type 0} (f : UdpProxy → A) → Lets (gets f)
  Lets-gets f = Triple-gets f λ s h. h

  put-Lets :
      (pd : ProxyData)
      → Later old pd
      → Lets (modify (λ s. record s { socket_map = put id pd s.socket_map }))
  unfolding modify
  put-Lets pd l = record {
    at = λ s h. subst (Continues old) (sym (find-put_self id pd s.socket_map)) l;
  }

  write-Lets : (pd : ProxyData) → Later old pd → Lets (write id pd)
  unfolding write
  write-Lets pd l = put-Lets pd l

  module _ ⦃os : Os⦄ where
    pub start_receiving-Lets : (pd : ProxyData) → Later old pd → Lets (start_receiving id pd)
    unfolding start_receiving
    start_receiving-Lets pd l = Triple-if _ (Lets-pure tt) (
        Lets-bind (put-Lets _ (Later-update old pd _ _ _ _ _ l (le_refl _))) λ _.
          Lets-bind (Lets-slot (slot-view id (start_udp_receive-Keeps pd.udp_socket id none)))
            λ _. Lets-pure tt)

    transmit-Lets :
        (pd : ProxyData) (buf addr : List ℕ) → Later old pd → Lets (transmit id pd buf addr)
    unfolding transmit finish_send
    transmit-Lets pd buf addr l = Lets-bind (Lets-slot (new_ov_data-slot id)) λ fresh.
        Lets-bind (Lets-slot (outside-slot id _)) λ r.
          Triple-if (failed r)
            (Lets-bind (Lets-slot (slot-view id (repost-Keeps pd.udp_socket _)))
              λ _. Lets-pure false)
            (Lets-bind (start_receiving-Lets pd l) λ _. Lets-pure true)

    udp_send_by-Lets :
        (buf addr : List ℕ) (addr_len : ℕ) (found : Option ProxyData)
        → Continues old found
        → Lets (udp_send_by id buf addr addr_len found)
    unfolding udp_send_by
    udp_send_by-Lets buf addr addr_len none l = Lets-pure false
    udp_send_by-Lets buf addr addr_len (some pd) l =
        Triple-if (is_connected pd.proxy_state) (transmit-Lets pd buf addr l)
          (Lets-bind (put-Lets _ (Later-update old pd _ _ _ _ _ l (le_refl _))) λ _. Lets-pure true)

    pub udp_send-Lets : (buf addr : List ℕ) (addr_len : ℕ) → Lets (udp_send id buf addr addr_len)
    unfolding udp_send
    udp_send-Lets buf addr addr_len = Lets-find _ (udp_send_by-Lets buf addr addr_len)

    pub send_and_advance-Lets :
        (pd : ProxyData) (message : List ℕ) (state : ProxyState)
        → Later old pd
        → rank pd.proxy_state ≤ rank state
        → Lets (send_and_advance id pd message state)
    unfolding send_and_advance
    send_and_advance-Lets pd message state l h =
        Lets-bind (Lets-slot (slot-view id (start_tcp_send-Keeps pd.tcp_socket message id))) λ sent.
          Triple-if sent (write-Lets _ (Later-update old pd state _ _ _ _ l h)) (Lets-pure tt)

    pop_packet-Lets : (found : Option ProxyData) → Continues old found → Lets (pop_packet id found)
    unfolding pop_packet
    pop_packet-Lets none l = Lets-pure tt
    pop_packet-Lets (some pd) l = write-Lets _ (Later-update old pd _ _ _ _ _ l (le_refl _))

    drain_step-Lets :
        {rest : M UdpProxy (Unit {0})} (queue : List UdpPacket)
        → Lets rest
        → Lets (drain_step rest id queue)
    unfolding drain_step
    drain_step-Lets [] t = Lets-pure tt
    drain_step-Lets {rest} (p ∷ ps) t =
        Lets-bind (udp_send-Lets p.buffer p.remote_address p.remote_address_len)
          λ _. Lets-find _ λ now l. Lets-bind (pop_packet-Lets now l) λ _. t

    drain-Lets : (fuel : ℕ) → Lets (drain fuel id)
    unfolding drain
    drain-Lets zero = Lets-pure tt
    drain-Lets (suc fuel) = Lets-bind (Lets-gets _) λ queue. drain_step-Lets queue (drain-Lets fuel)

    pub connect_relay-Lets :
        (pd : ProxyData) (relay : Option (List ℕ × ℕ))
        → Later old pd
        → rank pd.proxy_state ≤ 4
        → Lets (connect_relay id pd relay)
    unfolding connect_relay rank
    connect_relay-Lets pd none l h = Lets-pure tt
    connect_relay-Lets pd (some (addr, len)) l h =
        Lets-bind (write-Lets _ (Later-update old pd ps_connected _ _ _ _ l h)) λ _. drain-Lets _
