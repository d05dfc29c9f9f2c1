-- ===== src/Proxy/Channel/Answers.antt =====
-- The actions that a completion of netfilter/UDPProxy.cpp can be, and the grant of the relay.
use mathlib.Core.List.{append-nil}
use qv_plugin_netfilter.Base.{
  ℕ, ◌≡◌, refl, sym, ap, ◌∙◌, Option, none, some, false, List, [], ◌∷◌, ◌++◌, map, arith,
}
use qv_plugin_netfilter.Base.Int.{ℤ}
use qv_plugin_netfilter.Base.Map.{find}
use qv_plugin_netfilter.Base.State.{M, ◌>>=◌, Keeps, Triple, Triple-bind}
use qv_plugin_netfilter.System.{Os}
use qv_plugin_netfilter.System.Sent.{Datagrams, sent}
use qv_plugin_netfilter.Proxy.Data.{UdpPacket, ProxyData}
use qv_plugin_netfilter.Proxy.Overlapped.{UdpProxy}
use qv_plugin_netfilter.Proxy.Send.{is_connected}
use qv_plugin_netfilter.Proxy.Handshake.{connect_relay}
use qv_plugin_netfilter.Proxy.Receive.{UdpProxyHandler}
use qv_plugin_netfilter.Proxy.Queue.{view}
use qv_plugin_netfilter.Proxy.Queue.Drain.{encode, connect_relay-Sends}
use qv_plugin_netfilter.Proxy.Channel.{
  Channel, waiting, Action, idle, delete, grant, after, outputs, channel, channels, IsAbout,
  wrapped, tagged, backlog, delete-IsAbout, grant-IsAbout,
}
use qv_plugin_netfilter.Proxy.Channel.Calm.{Calm, Stays, Stays-pure, channel-waiting, channel-ready}

-- The actions that a completion can be.
pub data Answers (id : ℕ) : Action → Type 0 where
  nothing : Answers id idle
  granted : Answers id (grant id)
  dropped : Answers id (delete id)

-- The client's handler sends no datagram of the proxy from its own thread.
pub record IsMute (h : UdpProxyHandler) : Type 0 where
  pub mute :
      (id : ℕ) (buf : List ℕ) (len : ℤ) (addr : List ℕ) (addr_len : ℕ)
      → Keeps (λ w. sent w.trace) (h.on_udp_receive_complete id buf len addr addr_len)

pub Answers-IsAbout : (id : ℕ) (a : Action) → Answers id a → IsAbout id a
unfolding after
Answers-IsAbout id a nothing c j n = refl
Answers-IsAbout id a granted c j n = grant-IsAbout id c j n
Answers-IsAbout id a dropped c j n = delete-IsAbout id c j n

encode-wrapped : (id : ℕ) (ps : List UdpPacket) → map (encode id) ps ≡ tagged id (map wrapped ps)
encode-wrapped id [] = refl
encode-wrapped id (p ∷ ps) = ap (◌∷◌ (encode id p)) (encode-wrapped id ps)

module _ ⦃os : Os⦄ (id : ℕ) (cs : ℕ → Channel) (ds : Datagrams) where
  abbrev pub Quietly : {A : Type 0} → M UdpProxy A → Type 0
  Quietly m = Stays id (cs id) ds m

  -- The state is that after one of the answers.
  unfoldable pub Answered : UdpProxy → Type 0
  Answered s =
      (a : Action) × Answers id a
      × (channels s id ≡ after a cs id)
      × (sent s.world.trace ≡ ds ++ outputs a cs)

  abbrev pub Ends : {A : Type 0} → M UdpProxy A → Type 0
  Ends m = Triple (Calm id (cs id) ds) m (λ _. Answered)

  pub quiet : {A : Type 0} {m : M UdpProxy A} → Quietly m → Ends m
  unfolding Answered after outputs
  quiet st = record {
    at = λ s h. (idle, nothing, (st.at s h).0, (st.at s h).1 ∙ sym (append-nil ds));
  }

  -- What follows an answer and concerns neither.
  pub then_view :
      {A B : Type 0} {m : M UdpProxy A} {f : A → M UdpProxy B}
      → Ends m
      → ((a : A) → Keeps view (f a))
      → Ends (m >>= f)
  unfolding Answered
  then_view hm k =
      Triple-bind (λ _. Answered) hm
        λ a. record {
          at = λ s (act, an, here, out). (
            act,
            an,
            ap (λ v. channel (find id v.0)) ((k a).same s) ∙ here,
            ap (λ v. v.1) ((k a).same s) ∙ out,
          );
        }

  pub connect_relay-Ends :
      (pd : ProxyData) (found : Option (List ℕ × ℕ))
      → channel (some pd) ≡ cs id
      → is_connected pd.proxy_state ≡ false
      → Ends (connect_relay id pd found)
  unfolding Answered after outputs connect_relay
  connect_relay-Ends pd none e c = quiet (Stays-pure id (cs id) ds tt)
  connect_relay-Ends pd (some (addr, len)) e c = record {
    at = λ s h.
        let (b, sends) = connect_relay-Sends id pd addr len s in
        let was : cs id ≡ waiting (map wrapped pd.udp_send_packets) =
          sym e ∙ channel-waiting pd c in
        (
          grant id,
          granted,
          ap channel sends.hit ∙ channel-ready _ refl ∙ ground (arith, was),
          sends.out
              ∙ ap (λ x. x ++ map (encode id) pd.udp_send_packets) h.1
              ∙ ap (λ x. ds ++ x) (encode-wrapped id _ ∙ ap (λ x. tagged id (backlog x)) (sym was)),
        );
  }
