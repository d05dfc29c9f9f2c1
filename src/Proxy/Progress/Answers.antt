-- ===== src/Proxy/Progress/Answers.antt =====
-- netfilter/UDPProxy.cpp: the completions that a connection waits for. Each brings it on.
use qv_plugin_netfilter.Base.{
  ℕ, ◌≤◌, ◌≡◌, ◌≢◌, refl, sym, subst, ◌⊎◌, inl, inr, some, List, Bool, true, false, not, ◌&&◌, ◌==◌,
  if◌then◌else◌, arith,
}
use qv_plugin_netfilter.Base.Map.{find-put_self}
use qv_plugin_netfilter.Base.State.{pure, modify, ◌>>=◌}
use qv_plugin_netfilter.Socks.{s5am_unpw, auth_response_at, response_at}
use qv_plugin_netfilter.System.{Event, Os, perform, failed, wsa_send}
use qv_plugin_netfilter.Proxy.Data.{
  ovt_connect, ovt_tcp_send, ovt_tcp_receive, OvData, ProxyState, ps_none, ps_auth,
  ps_auth_negotiation, ps_udp_assoc, ps_connected, ps_closed, ProxyData,
}
use qv_plugin_netfilter.Proxy.Overlapped.{UdpProxy, outside, new_ov_data, start_tcp_send}
use qv_plugin_netfilter.Proxy.Handshake.{is_empty, write, send_and_advance, relay_address}
use qv_plugin_netfilter.Proxy.Isolation.{slot}
use qv_plugin_netfilter.Proxy.Progress.{rank, Later, Continues}

-- The system takes every WSASend.
pub record Accepts (os : Os) : Type 0 where
  pub accepts :
      (trace : List Event) (socket : ℕ) (pov : OvData)
      → failed (os.answer trace (wsa_send socket pov)) ≡ false

-- The completion that a connection in this state waits for: that of its connect, the choice of a
-- method, the acceptance of the credentials, and the grant of the relay.
unfoldable pub Fits : ProxyState → ℕ → OvData → ℕ → List ℕ → Type 0
Fits ps_none transferred pov error address = (pov.ov_type ≡ ovt_connect) × (error ≡ 0)
Fits ps_auth transferred pov error address =
    (pov.ov_type ≡ ovt_tcp_receive)
    × (2 ≤ transferred)
    × ((auth_response_at pov.buffer).version ≡ 5)
Fits ps_auth_negotiation transferred pov error address =
    (pov.ov_type ≡ ovt_tcp_receive)
    × (2 ≤ transferred)
    × ((auth_response_at pov.buffer).version ≡ 1)
    × ((auth_response_at pov.buffer).method ≡ 0)
Fits ps_udp_assoc transferred pov error address =
    (pov.ov_type ≡ ovt_tcp_receive)
    × (5 ≤ transferred)
    × ((response_at pov.buffer).version ≡ 5)
    × ((response_at pov.buffer).res_code ≡ 0)
    × (addr : List ℕ) × (len : ℕ) × (relay_address address pov.buffer ≡ some (addr, len))
Fits _ transferred pov error address = ⊥

-- The server asks for credentials, and the connection has some.
abbrev pub asks : OvData → ProxyData → Bool
asks pov pd = (auth_response_at pov.buffer).method == s5am_unpw && not (is_empty pd.user_name)

unfoldable pub following : Bool → ProxyState → ProxyState
following asked ps_none = ps_auth
following asked ps_auth = if asked then ps_auth_negotiation else ps_udp_assoc
following asked ps_auth_negotiation = ps_udp_assoc
following asked _ = ps_connected

-- How many states it goes on.
unfoldable pub stride : Bool → ProxyState → ℕ
stride asked ps_auth = if asked then 1 else 2
stride asked _ = 1

pub before_connect : (state : ProxyState) → (state ≡ ps_none) ⊎ (state ≢ ps_none)
before_connect ps_none = inl refl
before_connect ps_auth = inr (λ e. ground (arith, e))
before_connect ps_auth_negotiation = inr (λ e. ground (arith, e))
before_connect ps_udp_assoc = inr (λ e. ground (arith, e))
before_connect ps_connected = inr (λ e. ground (arith, e))
before_connect ps_closed = inr (λ e. ground (arith, e))

-- The connection after its answer.
abbrev pub promoted : Bool → ProxyData → ProxyData
promoted asked pd = record pd { proxy_state = following asked pd.proxy_state }

module _ ⦃os : Os⦄ (accepted : Accepts os) (id : ℕ) (asked : Bool) (pd : ProxyData) where
  start_tcp_send-accepted :
      (socket : ℕ) (message : List ℕ) (s : UdpProxy) → (start_tcp_send socket message id s).0 ≡ true
  unfolding start_tcp_send ◌>>=◌ outside perform new_ov_data pure
  start_tcp_send-accepted socket message s =
      rw
        (accepted.accepts s.world.trace socket
          (record ((new_ov_data s).0) { id = id; ov_type = ovt_tcp_send; buffer = message }))
        refl

  promoted-Later :
      (state : ProxyState)
      → rank (following asked pd.proxy_state) ≤ rank state
      → Later (promoted asked pd) (record pd { proxy_state = state })
  promoted-Later state h = record {
    advanced = h;
    same_tcp = refl;
    same_udp = refl;
    same_name = refl;
    same_password = refl;
  }

  -- The message is taken, so the state is the next one.
  pub send_and_advance-Continues :
      (message : List ℕ) (state : ProxyState) (s : UdpProxy)
      → rank (following asked pd.proxy_state) ≤ rank state
      → Continues (promoted asked pd) (slot id (send_and_advance id pd message state s).1)
  unfolding send_and_advance ◌>>=◌ write modify
  send_and_advance-Continues message state s h =
      rw (start_tcp_send-accepted pd.tcp_socket message s) (
        subst (Continues (promoted asked pd)) (sym (find-put_self id _ _)) (promoted-Later state h))
