-- ===== src/Proxy/Channel/Live.antt =====
-- Histories of the UDP proxy of netfilter/UDPProxy.cpp: when the server answers, the datagrams go out.
use mathlib.Core.List.{append-nil}
use qv_plugin_netfilter.Base.{
  ℕ, ◌+◌, ◌≤◌, ◌≡◌, ◌≢◌, refl, sym, ap, subst, ◌∙◌, ◌⊎◌, inl, inr, Option, none, some, Bool, true,
  false, List, ◌++◌, arith,
}
use qv_plugin_netfilter.System.{Os}
use qv_plugin_netfilter.System.Sent.{sent}
use qv_plugin_netfilter.Proxy.Data.{
  OvData, ProxyState, ps_none, ps_auth, ps_auth_negotiation, ps_udp_assoc, ps_connected, ps_closed,
  ProxyData,
}
use qv_plugin_netfilter.Proxy.Overlapped.{UdpProxy}
use qv_plugin_netfilter.Proxy.Send.{is_connected}
use qv_plugin_netfilter.Proxy.Receive.{UdpProxyHandler}
use qv_plugin_netfilter.Proxy.Worker.{complete}
use qv_plugin_netfilter.Proxy.Ownership.History.{
  Step, creates, deletes, sends, completes, Reach, here, next,
}
use qv_plugin_netfilter.Proxy.Isolation.{slot}
use qv_plugin_netfilter.Proxy.Progress.{rank, Later, Continues, Later-same}
use qv_plugin_netfilter.Proxy.Progress.History.{IsLater, Step-Continues}
use qv_plugin_netfilter.Proxy.Progress.Answers.{Accepts, Fits, asks, following, stride, promoted}
use qv_plugin_netfilter.Proxy.Progress.Promotes.{complete-Continues}
use qv_plugin_netfilter.Proxy.Channel.{closed, ready, channel, channels, backlog}
use qv_plugin_netfilter.Proxy.Channel.Calm.{channel-ready}
use qv_plugin_netfilter.Proxy.Channel.Balance.{to}
use qv_plugin_netfilter.Proxy.Channel.Answers.{IsMute}
use qv_plugin_netfilter.Proxy.Channel.History.{AreOrderly}
use qv_plugin_netfilter.Proxy.Channel.Fifo.{
  NeverMade, all_handed, committed, Step-committed, Reach-committed,
}

-- The completion that a connection waits for, where there is one, and how far it brings it.
abbrev pub Expected : Option ProxyData → ℕ → OvData → ℕ → List ℕ → ℕ → Type 0
Expected none transferred pov error address k = ⊥
Expected (some pd) transferred pov error address k =
    Fits pd.proxy_state transferred pov error address × (k ≡ stride (asks pov pd) pd.proxy_state)

rank-following :
    (asked : Bool) (state : ProxyState) (transferred : ℕ) (pov : OvData) (error : ℕ)
    (address : List ℕ)
    → Fits state transferred pov error address
    → rank (following asked state) ≡ stride asked state + rank state
unfolding Fits rank following stride
rank-following asked ps_none transferred pov error address f = refl
rank-following true ps_auth transferred pov error address f = refl
rank-following false ps_auth transferred pov error address f = refl
rank-following asked ps_auth_negotiation transferred pov error address f = refl
rank-following asked ps_udp_assoc transferred pov error address f = refl
rank-following asked ps_connected transferred pov error address f = absurd f
rank-following asked ps_closed transferred pov error address f = absurd f

present : (found : Option ProxyData) → channel found ≢ closed → (pd : ProxyData) × (found ≡ some pd)
unfolding channel
present none n = absurd (n refl)
present (some pd) n = (pd, refl)

rank-is_connected :
    (state : ProxyState) → rank ps_connected ≤ rank state → is_connected state ≡ true
unfolding rank
rank-is_connected ps_none l = absurd (omega (arith, l))
rank-is_connected ps_auth l = absurd (omega (arith, l))
rank-is_connected ps_auth_negotiation l = absurd (omega (arith, l))
rank-is_connected ps_udp_assoc l = absurd (omega (arith, l))
rank-is_connected ps_connected l = refl
rank-is_connected ps_closed l = absurd (omega (arith, l))

module _ ⦃os : Os⦄ {h : UdpProxyHandler} (j : ℕ) where
  -- The step is the completion that the endpoint's connection waits for, and brings it `k` states on.
  unfoldable pub IsAnswer : {s t : UdpProxy} → Step h s t → ℕ → Type 0
  IsAnswer (completes socket transferred pov error s e) k =
      (pov.id ≡ j) × Expected (slot j s) transferred pov error s.proxy_address k
  IsAnswer step k = ⊥

  -- The completions that the connection waits for bring it `n` states on. No other one is of its
  -- connect, and no step makes it.
  unfoldable pub Answered : {s t : UdpProxy} → Reach h s t → ℕ → Type 0
  Answered here n = n ≡ 0
  Answered (next r step) n =
      (Answered r n × IsLater j step)
      ⊎ ((m : ℕ) × (k : ℕ) × (n ≡ k + m) × Answered r m × IsAnswer step k)

  Answer-Continues :
      {s t : UdpProxy} (accepted : Accepts os) (pd : ProxyData) (k : ℕ) (step : Step h s t)
      → IsAnswer step k
      → slot j s ≡ some pd
      → (asked : Bool) × Continues (promoted asked pd) (slot j t)
        × (rank (following asked pd.proxy_state) ≡ k + rank pd.proxy_state)
  unfolding IsAnswer
  Answer-Continues accepted pd k (creates id s) a e = absurd a
  Answer-Continues accepted pd k (deletes id s) a e = absurd a
  Answer-Continues accepted pd k (sends id buf addr addr_len s) a e = absurd a
  Answer-Continues accepted pd k (completes socket transferred pov error s q) (same, x) e =
      let (fits, far) = subst (λ f. Expected f transferred pov error s.proxy_address k) e x in
      (
        asks pov pd,
        subst
            (λ i.
              Continues (promoted (asks pov pd) pd)
                (slot i (complete h socket transferred pov error s).1))
            same
            (complete-Continues accepted pov pd h socket transferred error s
              (ap (λ i. slot i s) same ∙ e) fits),
        rank-following (asks pov pd) pd.proxy_state transferred pov error s.proxy_address fits
            ∙ ap (λ x. x + rank pd.proxy_state) (sym far),
      )

  -- The connection that is left after a step is as far as it could be.
  Step-far :
      {s t : UdpProxy} (accepted : Accepts os) (old pd : ProxyData) (m n : ℕ) (step : Step h s t)
      → slot j s ≡ some old
      → slot j t ≡ some pd
      → ((m ≡ n) × IsLater j step) ⊎ ((k : ℕ) × (n ≡ k + m) × IsAnswer step k)
      → rank old.proxy_state + n ≤ rank pd.proxy_state + m
  Step-far accepted old pd m n step e f (inl (k, later)) =
      let l : Later old pd =
        subst (Continues old) f
          (Step-Continues j old step later (subst (Continues old) (sym e) (Later-same old))) in
      omega (arith, l.advanced)
  Step-far accepted old pd m n step e f (inr (k, sum, answer)) =
      let (asked, c, up) = Answer-Continues accepted old k step answer e in
      let l : Later (promoted asked old) pd = subst (Continues (promoted asked old)) f c in
      omega (arith, l.advanced)

  Reach-far :
      {s t : UdpProxy} (accepted : Accepts os) (mute : IsMute h) (old : ProxyData) (n : ℕ)
      (r : Reach h s t)
      → AreOrderly r
      → NeverMade j r
      → Answered r n
      → slot j s ≡ some old
      → channels t j ≢ closed
      → (pd : ProxyData) × (slot j t ≡ some pd) × (rank old.proxy_state + n ≤ rank pd.proxy_state)
  unfolding AreOrderly NeverMade Answered
  Reach-far accepted mute old n here o u a e c = (old, e, omega (arith, a))
  Reach-far {t} accepted mute old n (next r step) o u (inl (a, later)) e c =
      let (there, _) = Step-committed j mute step o.1 u.1 c in
      let (mid, f, l) = Reach-far accepted mute old n r o.0 u.0 a e there in
      let (pd, g) = present (slot j t) c in
      (pd, g, omega (arith, l, Step-far accepted mid pd n n step f g (inl (refl, later))))
  Reach-far {t} accepted mute old n (next r step) o u (inr (m, k, sum, a, answer)) e c =
      let (there, _) = Step-committed j mute step o.1 u.1 c in
      let (mid, f, l) = Reach-far accepted mute old m r o.0 u.0 a e there in
      let (pd, g) = present (slot j t) c in
      (pd, g, omega (arith, sum, l, Step-far accepted mid pd m n step f g (inr (k, sum, answer))))

  -- A connection is made or being negotiated, and the system takes every WSASend. In every history
  -- in which the server's answers that the connection waits for, with the completion of its
  -- connect, bring it as many states on as it lacks, and whose end finds the endpoint with a
  -- connection, it is open at the end, and every datagram that waited at the start or that udpSend
  -- got since was handed to the system, once and in order, behind those that had been before. Other
  -- steps are in any order between, but none makes the connection or completes its connect again;
  -- datagrams have a payload and an address of 28 bytes with the size of its family, no connect
  -- completes with success for an open connection, and the client's handler sends no datagram of
  -- the proxy.
  pub Reach-Answered :
      {s t : UdpProxy} (accepted : Accepts os) (mute : IsMute h) (old : ProxyData) (n : ℕ)
      (r : Reach h s t)
      → AreOrderly r
      → NeverMade j r
      → Answered r n
      → slot j s ≡ some old
      → rank ps_connected ≤ rank old.proxy_state + n
      → channels t j ≢ closed
      → (channels t j ≡ ready) × (to j (sent t.world.trace) ≡ committed j s ++ all_handed j r)
  unfolding committed
  Reach-Answered {t} accepted mute old n r o u a e l c =
      let (pd, g, far) = Reach-far accepted mute old n r o u a e c in
      let is_ready : channels t j ≡ ready =
        ap channel g
        ∙ channel-ready pd (rank-is_connected pd.proxy_state (omega (arith, l, far))) in
      (
        is_ready,
        sym (append-nil _)
            ∙ ap (λ x. to j (sent t.world.trace) ++ backlog x) (sym is_ready)
            ∙ Reach-committed j mute r o u c,
      )
