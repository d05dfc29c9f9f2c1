-- ===== src/Proxy/Channel/Submit.antt =====
-- udpSend of netfilter/UDPProxy.cpp as an action on the channel of its endpoint.
use mathlib.Core.List.{append-nil, map-append}
use qv_plugin_netfilter.Base.{
  ℕ, ◌≡◌, ◌≢◌, refl, sym, ap, ◌∙◌, inl, inr, Bool-cases, Option, none, some, true, false, List, [],
  ◌∷◌, ◌++◌, map, arith, length, take, replicate,
}
use qv_plugin_netfilter.Base.Bytes.{overwrite}
use qv_plugin_netfilter.Base.State.{pure, gets, ◌>>=◌}
use qv_plugin_netfilter.Sockaddr.{address_length}
use qv_plugin_netfilter.System.{Os}
use qv_plugin_netfilter.System.Sent.{sent}
use qv_plugin_netfilter.Proxy.Data.{UdpPacket, ProxyData}
use qv_plugin_netfilter.Proxy.Overlapped.{UdpProxy}
use qv_plugin_netfilter.Proxy.Send.{is_connected, relay_datagram, enqueue, udp_send_by, udp_send}
use qv_plugin_netfilter.Proxy.Queue.Transmit.{udp_send-Sends}
use qv_plugin_netfilter.Proxy.Queue.Waiting.{queue_one, enqueue-packet}
use qv_plugin_netfilter.Proxy.Isolation.{slot}
use qv_plugin_netfilter.Proxy.Channel.{
  waiting, ready, submit, after, outputs, channel, channels, wrapped, passed, tagged, Does,
  Does-Sends, submit-IsAbout,
}
use qv_plugin_netfilter.Proxy.Channel.Calm.{channel-waiting, channel-ready}
use qv_plugin_netfilter.Proxy.Channel.Padding.{relay_datagram-padded}

-- A datagram that the driver hands over: it has a payload, and its address the size of its family.
pub record IsAddressed (buf addr : List ℕ) (addr_len : ℕ) : Type 0 where
  pub filled : buf ≢ []
  pub whole : length addr ≡ 28
  pub sized : addr_len ≡ address_length addr

module _ ⦃os : Os⦄ (id b : ℕ) (bs addr : List ℕ) (addr_len : ℕ) (s : UdpProxy) where
  abbrev d : List ℕ
  d = relay_datagram addr (b ∷ bs)

  abbrev given : UdpPacket
  given = record { remote_address = addr; remote_address_len = addr_len; buffer = [] }

  submit-none : slot id s ≡ none → Does (submit id d) s (udp_send id (b ∷ bs) addr addr_len s).1
  unfolding udp_send udp_send_by ◌>>=◌ gets pure after outputs channel
  submit-none e =
      rw (e, udp_send_by)
        (record {
          moves = λ j. ground (arith, e);
          sends = ground (arith, e, append-nil (sent s.world.trace));
        })

  submit-ready :
      (pd : ProxyData)
      → slot id s ≡ some pd
      → is_connected pd.proxy_state ≡ true
      → Does (submit id d) s (udp_send id (b ∷ bs) addr addr_len s).1
  unfolding after outputs
  submit-ready pd e c =
      let was : channels s id ≡ ready = ap channel e ∙ channel-ready pd c in
      let (started, sends) = udp_send-Sends id pd (b ∷ bs) addr addr_len s e c in
      Does-Sends _ (submit-IsAbout id d) sends (channel-ready _ c ∙ ground (arith, was))
        (ap (λ x. tagged id (passed d x)) (sym was))

  -- The packet that is queued stands for the datagram.
  queued :
      (queue : List UdpPacket)
      → length addr ≡ 28
      → addr_len ≡ address_length addr
      → map wrapped (enqueue (b ∷ bs) addr addr_len queue) ≡ map wrapped queue ++ d ∷ []
  queued queue l n =
      ap (map wrapped) (enqueue-packet given (b ∷ bs) queue)
      ∙ map-append wrapped queue _
      ∙ ap (λ x. map wrapped queue ++ x ∷ [])
          (ap (λ k. relay_datagram (overwrite (replicate 28 0) (take k addr)) (b ∷ bs)) n
            ∙ relay_datagram-padded addr l b bs)

  submit-waiting :
      (pd : ProxyData)
      → slot id s ≡ some pd
      → is_connected pd.proxy_state ≡ false
      → length addr ≡ 28
      → addr_len ≡ address_length addr
      → Does (submit id d) s (udp_send id (b ∷ bs) addr addr_len s).1
  unfolding after outputs
  submit-waiting pd e c l n =
      let was : channels s id ≡ waiting (map wrapped pd.udp_send_packets) =
        ap channel e ∙ channel-waiting pd c in
      let (sends, same) = queue_one id pd (record given { buffer = b ∷ bs }) s e c in
      Does-Sends _ (submit-IsAbout id d) sends
        (channel-waiting _ c ∙ ap waiting (queued pd.udp_send_packets l n) ∙ ground (arith, was))
        (ap (λ x. tagged id (passed d x)) (sym was))

  submit-found :
      (found : Option ProxyData)
      → slot id s ≡ found
      → length addr ≡ 28
      → addr_len ≡ address_length addr
      → Does (submit id d) s (udp_send id (b ∷ bs) addr addr_len s).1
  submit-found none e l n = submit-none e
  submit-found (some pd) e l n = elim (Bool-cases (is_connected pd.proxy_state)) [
    | inl open' ↦ submit-ready pd e open'
    | inr shut ↦ submit-waiting pd e shut l n
  ]

pub submit-Does :
    ⦃os : Os⦄ (id : ℕ) (buf addr : List ℕ) (addr_len : ℕ) (s : UdpProxy)
    → IsAddressed buf addr addr_len
    → Does (submit id (relay_datagram addr buf)) s (udp_send id buf addr addr_len s).1
submit-Does id [] addr addr_len s a = absurd (a.filled refl)
submit-Does id (b ∷ bs) addr addr_len s a =
    submit-found id b bs addr addr_len s (slot id s) refl a.whole a.sized
