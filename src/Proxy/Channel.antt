-- ===== src/Proxy/Channel.antt =====
-- What the UDP proxy of netfilter/UDPProxy.cpp and netfilter/UdpProxy.h promises its client: each
-- endpoint has a channel, which is closed, or keeps datagrams, or passes them on.
pub mod Padding
pub mod Calm
pub mod Calls
pub mod Submit
pub mod Answers
pub mod Completions
pub mod Balance
pub mod History
pub mod Fifo
pub mod Live
use mathlib.Core.List.{append-nil}
use qv_plugin_netfilter.Base.{
  ℕ, ◌≡◌, ◌≢◌, refl, sym, ap, subst, ◌∙◌, inl, inr, Bool-cases, Option, none, some, List, [], ◌∷◌,
  ◌++◌, map, arith, ◌==◌, if◌then◌else◌,
}
use qv_plugin_netfilter.System.Sent.{Datagrams, sent}
use qv_plugin_netfilter.Proxy.Data.{UdpPacket, ProxyData}
use qv_plugin_netfilter.Proxy.Overlapped.{UdpProxy}
use qv_plugin_netfilter.Proxy.Send.{is_connected, relay_datagram}
use qv_plugin_netfilter.Proxy.Queue.{view}
use qv_plugin_netfilter.Proxy.Queue.Transmit.{Sends}
use qv_plugin_netfilter.Proxy.Isolation.{slot}

-- A datagram is the bytes that go to the relay.
pub data Channel : Type 0 where
  closed : Channel
  waiting : List (List ℕ) → Channel
  ready : Channel

pub data Action : Type 0 where
  idle : Action
  create : ℕ → Action
  delete : ℕ → Action
  submit : ℕ → List ℕ → Action
  grant : ℕ → Action

abbrev pub accept : List ℕ → Channel → Channel
accept d closed = closed
accept d (waiting q) = waiting (q ++ d ∷ [])
accept d ready = ready

abbrev pub opened : Channel → Channel
opened closed = closed
opened _ = ready

-- The channels after an action.
unfoldable pub after : Action → (ℕ → Channel) → ℕ → Channel
after idle c j = c j
after (create id) c j = if id == j then waiting [] else c j
after (delete id) c j = if id == j then closed else c j
after (submit id d) c j = if id == j then accept d (c j) else c j
after (grant id) c j = if id == j then opened (c j) else c j

abbrev pub passed : List ℕ → Channel → List (List ℕ)
passed d ready = d ∷ []
passed d _ = []

abbrev pub backlog : Channel → List (List ℕ)
backlog (waiting q) = q
backlog _ = []

abbrev pub tagged : ℕ → List (List ℕ) → Datagrams
tagged id ds = map (λ d. (id, d)) ds

-- The datagrams that go out with an action.
unfoldable pub outputs : Action → (ℕ → Channel) → Datagrams
outputs (submit id d) c = tagged id (passed d (c id))
outputs (grant id) c = tagged id (backlog (c id))
outputs _ c = []

abbrev pub wrapped : UdpPacket → List ℕ
wrapped p = relay_datagram p.remote_address p.buffer

-- The channel that a connection of the proxy stands for.
unfoldable pub channel : Option ProxyData → Channel
channel none = closed
channel (some pd) =
    if is_connected pd.proxy_state then ready else waiting (map wrapped pd.udp_send_packets)

abbrev pub channels : UdpProxy → ℕ → Channel
channels s j = channel (slot j s)

-- From `s` to `t` the proxy does what the action says.
pub record Does (a : Action) (s t : UdpProxy) : Type 0 where
  pub moves : (j : ℕ) → channels t j ≡ after a (channels s) j
  pub sends : sent t.world.trace ≡ sent s.world.trace ++ outputs a (channels s)

-- An action is about one endpoint.
abbrev pub IsAbout : ℕ → Action → Type 0
IsAbout id a = (c : ℕ → Channel) (j : ℕ) → j ≢ id → after a c j ≡ c j

pub create-IsAbout : (id : ℕ) → IsAbout id (create id)
unfolding after
create-IsAbout id c j n = ground arith

pub delete-IsAbout : (id : ℕ) → IsAbout id (delete id)
unfolding after
delete-IsAbout id c j n = ground arith

pub submit-IsAbout : (id : ℕ) (d : List ℕ) → IsAbout id (submit id d)
unfolding after
submit-IsAbout id d c j n = ground arith

pub grant-IsAbout : (id : ℕ) → IsAbout id (grant id)
unfolding after
grant-IsAbout id c j n = ground arith

module _ {id : ℕ} {a : Action} {s t : UdpProxy} where
  -- What is to be shown of an action: its own channel, its datagrams, and that it leaves the others.
  pub Does-about :
      IsAbout id a
      → ((j : ℕ) → j ≢ id → slot j t ≡ slot j s)
      → channels t id ≡ after a (channels s) id
      → sent t.world.trace ≡ sent s.world.trace ++ outputs a (channels s)
      → Does a s t
  Does-about about others here out = record {
    moves = λ j. elim (Bool-cases (j == id)) [
      | inl same ↦ subst (λ i. channels t i ≡ after a (channels s) i) (ground (arith, same)) here
      | inr other ↦
          let n : j ≢ id = ground (arith, other) in
          ap channel (others j n) ∙ sym (about (channels s) j n)
    ];
    sends = out;
  }

  pub Does-Sends :
      (pd : ProxyData) {ds : Datagrams}
      → IsAbout id a
      → Sends id pd ds s t
      → channel (some pd) ≡ after a (channels s) id
      → ds ≡ outputs a (channels s)
      → Does a s t
  Does-Sends pd about r here out =
      Does-about about r.others (ap channel r.hit ∙ here)
        (r.out ∙ ap (λ x. sent s.world.trace ++ x) out)
