-- ===== src/Proxy/Channel/Calm.antt =====
-- Methods of netfilter/UDPProxy.cpp during which the channel of an endpoint stays what it is, and no
-- datagram goes out.
use qv_plugin_netfilter.Base.{
  ℕ, ◌≡◌, ◌≢◌, refl, sym, ap, ◌∙◌, Option, none, some, true, false, List, map, Bool-cases, inl, inr,
}
use qv_plugin_netfilter.Base.Map.{find, find-put_self}
use qv_plugin_netfilter.Base.State.{
  M, pure, gets, modify, ◌>>=◌, Keeps, Triple, Triple-if, Triple-bind, Triple-pure,
}
use qv_plugin_netfilter.System.{SysCall, Os, perform, tcp_no_delay, keep_alive}
use qv_plugin_netfilter.System.Sent.{Datagrams, sent, note, IsSilent}
use qv_plugin_netfilter.Proxy.Data.{ProxyState, ps_auth, ProxyData}
use qv_plugin_netfilter.Proxy.Overlapped.{UdpProxy, outside}
use qv_plugin_netfilter.Proxy.Send.{is_connected}
use qv_plugin_netfilter.Proxy.Handshake.{write, send_and_advance}
use qv_plugin_netfilter.Proxy.Receive.{greet}
use qv_plugin_netfilter.Proxy.Queue.{
  view, outside-Keeps, perform-Keeps, start_tcp_send-Keeps, start_tcp_receive-Keeps,
}
use qv_plugin_netfilter.Proxy.Channel.{Channel, waiting, ready, channel, channels, wrapped}

pub channel-waiting :
    (pd : ProxyData)
    → is_connected pd.proxy_state ≡ false
    → channel (some pd) ≡ waiting (map wrapped pd.udp_send_packets)
unfolding channel
channel-waiting pd e = rw e

pub channel-ready :
    (pd : ProxyData) → is_connected pd.proxy_state ≡ true → channel (some pd) ≡ ready
unfolding channel
channel-ready pd e = rw e

not_ready :
    (pd : ProxyData) (c : Channel)
    → channel (some pd) ≡ c
    → c ≢ ready
    → is_connected pd.proxy_state ≡ false
not_ready pd c e n = elim (Bool-cases (is_connected pd.proxy_state)) [
  | inl open' ↦ absurd (n (sym e ∙ channel-ready pd open'))
  | inr shut ↦ shut
]

module _ (id : ℕ) (c : Channel) (ds : Datagrams) where
  abbrev pub Calm : UdpProxy → Type 0
  Calm s = (channels s id ≡ c) × (sent s.world.trace ≡ ds)

  abbrev pub Stays : {A : Type 0} → M UdpProxy A → Type 0
  Stays m = Triple Calm m (λ _. Calm)

  pub Stays-pure : {A : Type 0} (a : A) → Stays (pure a)
  Stays-pure a = Triple-pure a λ s h. h

  pub Stays-view : {A : Type 0} {m : M UdpProxy A} → Keeps view m → Stays m
  Stays-view k = record {
    at = λ s h. (ap (λ v. channel (find id v.0)) (k.same s) ∙ h.0, ap (λ v. v.1) (k.same s) ∙ h.1);
  }

  pub Stays-call : ⦃os : Os⦄ (call : SysCall) → IsSilent call → Stays (outside (perform call))
  Stays-call call n = Stays-view (outside-Keeps (perform-Keeps call n))

  pub Stays-bind :
      {A B : Type 0} {m : M UdpProxy A} {f : A → M UdpProxy B}
      → Stays m
      → ((a : A) → Stays (f a))
      → Stays (m >>= f)
  Stays-bind hm hf = Triple-bind (λ _. Calm) hm hf

  -- A method that finds the connection finds one with this channel.
  pub Stays-find :
      {A : Type 0} (f : Option ProxyData → M UdpProxy A)
      → ((found : Option ProxyData) → channel found ≡ c → Stays (f found))
      → Stays (gets (λ s. find id s.socket_map) >>= f)
  unfolding ◌>>=◌ gets
  Stays-find f h = record { at = λ s k. (h (find id s.socket_map) k.0).at s k }

  write-Stays : (pd : ProxyData) → channel (some pd) ≡ c → Stays (write id pd)
  unfolding write modify
  write-Stays pd e = record { at = λ s k. (ap channel (find-put_self id pd s.socket_map) ∙ e, k.1) }

  -- From one state before `ps_connected` to another.
  pub send_and_advance-Stays :
      ⦃os : Os⦄ (pd : ProxyData) (message : List ℕ) (state : ProxyState)
      → channel (some pd) ≡ c
      → is_connected pd.proxy_state ≡ false
      → is_connected state ≡ false
      → Stays (send_and_advance id pd message state)
  unfolding send_and_advance
  send_and_advance-Stays pd message state e old new =
      Stays-bind (Stays-view (start_tcp_send-Keeps pd.tcp_socket message id)) λ sent.
        Triple-if sent (write-Stays _ (channel-waiting _ new ∙ sym (channel-waiting pd old) ∙ e))
          (Stays-pure tt)

  pub greet-Stays :
      ⦃os : Os⦄ (socket : ℕ) (found : Option ProxyData)
      → channel found ≡ c
      → c ≢ ready
      → Stays (greet socket id found)
  unfolding greet note channel
  greet-Stays socket none e n = Stays-pure tt
  greet-Stays socket (some pd) e n = Stays-bind (Stays-call (tcp_no_delay socket) λ b. refl) λ _.
      Stays-bind (Stays-call (keep_alive socket) λ b. refl) λ _.
        Stays-bind (send_and_advance-Stays pd _ ps_auth e (not_ready pd c e n) refl) λ _.
          Stays-bind (Stays-view (start_tcp_receive-Keeps pd.tcp_socket id none)) λ _. Stays-pure tt
