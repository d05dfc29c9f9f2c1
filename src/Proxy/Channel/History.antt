-- ===== src/Proxy/Channel/History.antt =====
-- Histories of the UDP proxy of netfilter/UDPProxy.cpp as runs of its channels.
use mathlib.Core.List.{append-nil, append_assoc}
use qv_plugin_netfilter.Base.{ℕ, ◌≡◌, ◌≢◌, refl, sym, ap, ◌∙◌, List, [], ◌∷◌, ◌++◌}
use qv_plugin_netfilter.System.{Os}
use qv_plugin_netfilter.System.Sent.{Datagrams, sent}
use qv_plugin_netfilter.Proxy.Data.{ovt_connect}
use qv_plugin_netfilter.Proxy.Overlapped.{UdpProxy}
use qv_plugin_netfilter.Proxy.Send.{relay_datagram}
use qv_plugin_netfilter.Proxy.Receive.{UdpProxyHandler}
use qv_plugin_netfilter.Proxy.Connections.{create_proxy_connection}
use qv_plugin_netfilter.Proxy.Ownership.History.{
  Step, creates, deletes, sends, completes, Reach, here, next,
}
use qv_plugin_netfilter.Proxy.Channel.{
  Channel, ready, Action, delete, submit, after, outputs, channels, Does,
}
use qv_plugin_netfilter.Proxy.Channel.Calls.{Creates, create-Does, delete-Does}
use qv_plugin_netfilter.Proxy.Channel.Submit.{IsAddressed, submit-Does}
use qv_plugin_netfilter.Proxy.Channel.Answers.{Answers, IsMute}
use qv_plugin_netfilter.Proxy.Channel.Completions.{complete-Does}

module _ ⦃os : Os⦄ {h : UdpProxyHandler} where
  -- The datagrams of the history are those of the driver, and no open connection is connected again.
  unfoldable pub IsOrderly : {s t : UdpProxy} → Step h s t → Type 0
  IsOrderly (creates id s) = Unit
  IsOrderly (deletes id s) = Unit
  IsOrderly (sends id buf addr addr_len s) = IsAddressed buf addr addr_len
  IsOrderly (completes socket transferred pov error s e) =
      pov.ov_type ≡ ovt_connect → error ≡ 0 → channels s pov.id ≢ ready

  unfoldable pub AreOrderly : {s t : UdpProxy} → Reach h s t → Type 0
  AreOrderly here = Unit
  AreOrderly (next r step) = AreOrderly r × IsOrderly step

  -- What a step may be as an action, and a history as a list of them.
  unfoldable pub Means : {s t : UdpProxy} → Step h s t → Action → Type 0
  Means (creates id s) a = Creates id (create_proxy_connection id s).0 a
  Means (deletes id s) a = a ≡ delete id
  Means (sends id buf addr addr_len s) a = a ≡ submit id (relay_datagram addr buf)
  Means (completes socket transferred pov error s e) a = Answers pov.id a

  unfoldable pub MeanAll : {s t : UdpProxy} → Reach h s t → List Action → Type 0
  MeanAll here acts = acts ≡ []
  MeanAll (next r step) acts =
      (before : List Action) × (a : Action) × MeanAll r before
      × Means step a
      × (acts ≡ before ++ a ∷ [])

  pub Step-Does :
      {s t : UdpProxy} (m : IsMute h) (step : Step h s t)
      → IsOrderly step
      → (a : Action) × Means step a × Does a s t
  unfolding IsOrderly Means
  Step-Does m (creates id s) o = let (a, c, d) = create-Does id s in (a, c, d)
  Step-Does m (deletes id s) o = (delete id, refl, delete-Does id s)
  Step-Does m (sends id buf addr addr_len s) o =
      (submit id (relay_datagram addr buf), refl, submit-Does id buf addr addr_len s o)
  Step-Does m (completes socket transferred pov error s e) o =
      let (a, c, d) = complete-Does m socket transferred pov error s o in (a, c, d)

-- The channels after a run of actions, and the datagrams that go out with it.
unfoldable pub run : List Action → (ℕ → Channel) → ℕ → Channel
run [] c = c
run (a ∷ acts) c = run acts (after a c)

unfoldable pub emitted : List Action → (ℕ → Channel) → Datagrams
emitted [] c = []
emitted (a ∷ acts) c = outputs a c ++ emitted acts (after a c)

run-append :
    (acts more : List Action) (c : ℕ → Channel) → run (acts ++ more) c ≡ run more (run acts c)
unfolding run
run-append [] more c = refl
run-append (a ∷ acts) more c = run-append acts more (after a c)

emitted-append :
    (acts more : List Action) (c : ℕ → Channel)
    → emitted (acts ++ more) c ≡ emitted acts c ++ emitted more (run acts c)
unfolding run emitted
emitted-append [] more c = refl
emitted-append (a ∷ acts) more c =
    ap (λ x. outputs a c ++ x) (emitted-append acts more (after a c))
    ∙ sym (
        append_assoc (outputs a c) (emitted acts (after a c)) (emitted more (run acts (after a c))))

-- One action more.
emitted-snoc :
    (acts : List Action) (a : Action) (c mid : ℕ → Channel) (base : Datagrams) {ds es : Datagrams}
    → ds ≡ base ++ emitted acts c
    → mid ≡ run acts c
    → es ≡ ds ++ outputs a mid
    → es ≡ base ++ emitted (acts ++ a ∷ []) c
unfolding emitted
emitted-snoc acts a c mid base d m e =
    e
    ∙ ap (λ x. x ++ outputs a mid) d
    ∙ ap (λ x. (base ++ emitted acts c) ++ outputs a x) m
    ∙ append_assoc base (emitted acts c) _
    ∙ ap (λ x. base ++ (emitted acts c ++ x)) (sym (append-nil _))
    ∙ ap (λ x. base ++ x) (sym (emitted-append acts (a ∷ []) c))

module _ ⦃os : Os⦄ {h : UdpProxyHandler} where
  -- In every history in which each datagram of the client has a payload and an address of 28 bytes
  -- with the size of its family, no connect completes with success for an open connection, and the
  -- client's handler sends no datagram of the proxy, each call and completion is an action on one
  -- channel, the channels at the end are those after the actions, and the datagrams that were
  -- handed to the system are those of the actions, in their order, whatever the system answers.
  -- createProxyConnection that succeeds makes the channel anew, and one that fails closes it or
  -- does nothing to it; deleteProxyConnection closes it; udpSend hands it a datagram; a completion
  -- grants the relay, closes the channel, or is no action.
  pub Reach-run :
      {s t : UdpProxy} (m : IsMute h) (r : Reach h s t)
      → AreOrderly r
      → (acts : List Action) × MeanAll r acts
        × (channels t ≡ run acts (channels s))
        × (sent t.world.trace ≡ sent s.world.trace ++ emitted acts (channels s))
  unfolding AreOrderly MeanAll run emitted
  Reach-run m here o = ([], refl, refl, sym (append-nil _))
  Reach-run {s} {t} m (next r step) o =
      let (acts, means, moved, out) = Reach-run m r o.0 in
      let (a, mean, does) = Step-Does m step o.1 in
      let moved' : channels t ≡ after a (run acts (channels s)) =
        (λ i j. does.moves j i) ∙ ap (after a) moved in
      (
        acts ++ a ∷ [],
        (acts, a, means, mean, refl),
        moved' ∙ sym (run-append acts (a ∷ []) (channels s)),
        emitted-snoc acts a (channels s) _ _ out moved does.sends,
      )
