-- ===== src/Proxy/Channel/Fifo.antt =====
-- Histories of the UDP proxy of netfilter/UDPProxy.cpp: the datagrams of an endpoint with which
-- WSASendTo is called, and those that wait for it.
use mathlib.Core.List.{append-nil, append_assoc}
use qv_plugin_netfilter.Base.{
  ℕ, ◌≡◌, ◌≢◌, refl, sym, ap, subst, ◌∙◌, Bool, List, [], ◌∷◌, ◌++◌, ◌==◌, if◌then◌else◌,
}
use qv_plugin_netfilter.System.{Os}
use qv_plugin_netfilter.System.Sent.{sent}
use qv_plugin_netfilter.Proxy.Overlapped.{UdpProxy}
use qv_plugin_netfilter.Proxy.Send.{relay_datagram}
use qv_plugin_netfilter.Proxy.Receive.{UdpProxyHandler}
use qv_plugin_netfilter.Proxy.Ownership.History.{
  Step, creates, deletes, sends, completes, Reach, here, next,
}
use qv_plugin_netfilter.Proxy.Channel.{Action, Does, backlog, channels, closed, outputs}
use qv_plugin_netfilter.Proxy.Channel.Calls.{Creates, made, removed, refused}
use qv_plugin_netfilter.Proxy.Channel.Answers.{Answers, nothing, granted, dropped, IsMute}
use qv_plugin_netfilter.Proxy.Channel.Balance.{to, to-append, submitted, NotMade, after-Balanced}
use qv_plugin_netfilter.Proxy.Channel.History.{IsOrderly, AreOrderly, Means, Step-Does}

pub Creates-NotMade :
    (j id : ℕ) (b : Bool) (a : Action)
    → id ≢ j
    → Creates id b a
    → NotMade j a × (submitted j a ≡ [])
unfolding NotMade submitted
Creates-NotMade j id b a n made = (n, refl)
Creates-NotMade j id b a n removed = (tt, refl)
Creates-NotMade j id b a n refused = (tt, refl)

pub Answers-NotMade : (j id : ℕ) (a : Action) → Answers id a → NotMade j a × (submitted j a ≡ [])
unfolding NotMade submitted
Answers-NotMade j id a nothing = (tt, refl)
Answers-NotMade j id a granted = (tt, refl)
Answers-NotMade j id a dropped = (tt, refl)

-- The datagrams to an endpoint with which WSASendTo was called, refused or not, and then those that wait.
unfoldable pub committed : ℕ → UdpProxy → List (List ℕ)
committed j s = to j (sent s.world.trace) ++ backlog (channels s j)

pub Does-committed :
    {a : Action} {s t : UdpProxy} (j : ℕ)
    → Does a s t
    → NotMade j a
    → channels t j ≢ closed
    → (channels s j ≢ closed) × (committed j t ≡ committed j s ++ submitted j a)
unfolding committed
Does-committed {a} {s} {t} j does not_made n =
    let (there, balance) = after-Balanced j a (channels s) not_made (λ k. n (does.moves j ∙ k)) in
    (
      there,
      ap (λ x. x ++ backlog (channels t j))
            (ap (to j) does.sends ∙ to-append j (sent s.world.trace) _)
          ∙ ap (λ x. (to j (sent s.world.trace) ++ to j (outputs a (channels s))) ++ backlog x)
              (does.moves j)
          ∙ append_assoc (to j (sent s.world.trace)) _ _
          ∙ ap (λ x. to j (sent s.world.trace) ++ x) balance
          ∙ sym (append_assoc (to j (sent s.world.trace)) _ _),
    )

module _ ⦃os : Os⦄ {h : UdpProxyHandler} where
  -- The calls of udpSend for the endpoint, in order, as datagrams for the relay.
  unfoldable pub handed : {s t : UdpProxy} → ℕ → Step h s t → List (List ℕ)
  handed j (creates id s) = []
  handed j (deletes id s) = []
  handed j (sends id buf addr addr_len s) = if id == j then relay_datagram addr buf ∷ [] else []
  handed j (completes socket transferred pov error s e) = []

  unfoldable pub all_handed : {s t : UdpProxy} → ℕ → Reach h s t → List (List ℕ)
  all_handed j here = []
  all_handed j (next r step) = all_handed j r ++ handed j step

  -- The history does not make the connection of the endpoint.
  unfoldable pub Unmade : {s t : UdpProxy} → ℕ → Step h s t → Type 0
  Unmade j (creates id s) = id ≢ j
  Unmade j step = Unit

  unfoldable pub NeverMade : {s t : UdpProxy} → ℕ → Reach h s t → Type 0
  NeverMade j here = Unit
  NeverMade j (next r step) = NeverMade j r × Unmade j step

  -- What a step hands over is what its action submits.
  Means-handed :
      {s t : UdpProxy} (j : ℕ) (step : Step h s t) (a : Action)
      → Unmade j step
      → Means step a
      → NotMade j a × (submitted j a ≡ handed j step)
  unfolding Unmade Means handed NotMade submitted
  Means-handed j (creates id s) a u m = Creates-NotMade j id _ a u m
  Means-handed j (deletes id s) a u m =
      subst (λ x. NotMade j x × (submitted j x ≡ [])) (sym m) (tt, refl)
  Means-handed j (sends id buf addr addr_len s) a u m =
      subst
        (λ x.
          NotMade j x × (submitted j x ≡ (if id == j then relay_datagram addr buf ∷ [] else [])))
        (sym m) (tt, refl)
  Means-handed j (completes socket transferred pov error s e) a u m = Answers-NotMade j pov.id a m

  pub Step-committed :
      {s t : UdpProxy} (j : ℕ) (mute : IsMute h) (step : Step h s t)
      → IsOrderly step
      → Unmade j step
      → channels t j ≢ closed
      → (channels s j ≢ closed) × (committed j t ≡ committed j s ++ handed j step)
  Step-committed {s} {t} j mute step o u n =
      let (a, means, does) = Step-Does mute step o in
      let (not_made, same) = Means-handed j step a u means in
      let (there, e) = Does-committed j does not_made n in
      (there, e ∙ ap (λ x. committed j s ++ x) same)

  -- In every history without a connection made for an endpoint, whose end finds the endpoint with a
  -- connection, the datagrams to it with which WSASendTo was called, and then those that wait, are
  -- at the end those of the start and then those that udpSend got since, in order: none is passed
  -- over, none is in a second call, and none is overtaken. A call that the system refuses counts as
  -- well. Datagrams have a payload and an
  -- address of 28 bytes with the size of its family, no connect completes with success for an open
  -- connection, and the client's handler sends no datagram of the proxy.
  pub Reach-committed :
      {s t : UdpProxy} (j : ℕ) (mute : IsMute h) (r : Reach h s t)
      → AreOrderly r
      → NeverMade j r
      → channels t j ≢ closed
      → committed j t ≡ committed j s ++ all_handed j r
  unfolding AreOrderly NeverMade all_handed
  Reach-committed j mute here o u n = sym (append-nil _)
  Reach-committed j mute (next r step) o u n =
      let (there, last) = Step-committed j mute step o.1 u.1 n in
      last
      ∙ ap (λ x. x ++ handed j step) (Reach-committed j mute r o.0 u.0 there)
      ∙ append_assoc (committed j _) (all_handed j r) (handed j step)
