-- ===== src/Proxy/Queue/Transmit.antt =====
-- udpSend of netfilter/UDPProxy.cpp on an open connection: one datagram goes to the relay.
use mathlib.Core.List.{append-nil, append_assoc}
use qv_plugin_netfilter.Base.{
  ℕ, ◌≡◌, ◌≢◌, refl, sym, ap, ◌∙◌, inl, inr, Bool, true, none, some, List, [], ◌∷◌, ◌++◌, arith,
  Bool-cases,
}
use qv_plugin_netfilter.Base.Map.{find, put, find-put, find-put_self}
use qv_plugin_netfilter.Base.State.{pure, gets, modify, ◌>>=◌}
use qv_plugin_netfilter.System.{Os, perform, failed, wsa_send_to}
use qv_plugin_netfilter.System.Sent.{Datagrams, note, sent}
use qv_plugin_netfilter.Proxy.Data.{OvData, ProxyData, ovt_udp_send}
use qv_plugin_netfilter.Proxy.Overlapped.{UdpProxy, outside, new_ov_data}
use qv_plugin_netfilter.Proxy.Send.{
  is_connected, relay_datagram, start_receiving, finish_send, transmit, udp_send_by, udp_send,
}
use qv_plugin_netfilter.Proxy.Queue.{view, repost-Keeps, start_udp_receive-Keeps}

-- From `s` to `t` the datagrams `out` were sent, and of the connections only `id` changed, to `pd`.
pub record Sends (id : ℕ) (pd : ProxyData) (ds : Datagrams) (s t : UdpProxy) : Type 0 where
  pub hit : find id t.socket_map ≡ some pd
  pub others : (j : ℕ) → j ≢ id → find j t.socket_map ≡ find j s.socket_map
  pub out : sent t.world.trace ≡ sent s.world.trace ++ ds

-- A step that both views agree on.
pub Sends-view :
    {id : ℕ} {pd : ProxyData} {ds : Datagrams} {s : UdpProxy} (t u : UdpProxy)
    → Sends id pd ds s t
    → view u ≡ view t
    → Sends id pd ds s u
Sends-view t u r e = record {
  hit = ground (arith, r.hit);
  others = λ j n. ground (arith, r.others j n);
  out = ground (arith, r.out);
}

pub Sends-trans :
    {id : ℕ} {pd pd' : ProxyData} {ds es : Datagrams} (s t u : UdpProxy)
    → Sends id pd ds s t
    → Sends id pd' es t u
    → Sends id pd' (ds ++ es) s u
Sends-trans {ds} {es} s t u r q = record {
  hit = q.hit;
  others = λ j n. q.others j n ∙ r.others j n;
  out = q.out ∙ ap (λ x. x ++ es) r.out ∙ append_assoc (sent s.world.trace) ds es;
}

pub Sends-here :
    {id : ℕ} {pd : ProxyData} (s : UdpProxy) → find id s.socket_map ≡ some pd → Sends id pd [] s s
Sends-here s e = record { hit = e; others = λ j n. refl; out = sym (append-nil _) }

module _ ⦃os : Os⦄ (id : ℕ) (pd : ProxyData) where
  start_receiving-Sends :
      (s : UdpProxy)
      → find id s.socket_map ≡ some pd
      → (b : Bool) × Sends id (record pd { udp_recv_started = b }) [] s (start_receiving id pd s).1
  unfolding start_receiving ◌>>=◌ modify pure
  start_receiving-Sends s e = elim (Bool-cases pd.udp_recv_started) [
    | inl old ↦ (
      true,
      record {
        hit = ground (arith, e);
        others = λ j n. ground arith;
        out = ground (arith, append-nil (sent s.world.trace));
      },
    )
    | inr new ↦ (
      true,
      rw (new, start_receiving)
          (Sends-view marked _ marked-Sends
            ((start_udp_receive-Keeps pd.udp_socket id none).same marked)),
    )
  ]
    where
      marked : UdpProxy
      marked = record s { socket_map = put id (record pd { udp_recv_started = true }) s.socket_map }

      marked-Sends : Sends id (record pd { udp_recv_started = true }) [] s marked
      marked-Sends = record {
        hit = find-put_self id _ s.socket_map;
        others = λ j n.
            ground (arith, find-put id j (record pd { udp_recv_started = true }) s.socket_map);
        out = sym (append-nil (sent s.world.trace));
      }

  -- The object of the datagram, and the state after the system has it.
  datagram_object : List ℕ → List ℕ → UdpProxy → OvData
  datagram_object buf addr s = record ((new_ov_data s).0) {
    ov_type = ovt_udp_send;
    id = id;
    buffer = relay_datagram addr buf;
  }

  handed_over : List ℕ → List ℕ → UdpProxy → ℕ × UdpProxy
  handed_over buf addr s =
      outside
        (perform (
          wsa_send_to pd.udp_socket (datagram_object buf addr s) pd.remote_address
            pd.remote_address_len))
        (new_ov_data s).1

  handed_over-Sends :
      (buf addr : List ℕ) (s : UdpProxy)
      → find id s.socket_map ≡ some pd
      → Sends id pd ((id, relay_datagram addr buf) ∷ []) s (handed_over buf addr s).1
  unfolding handed_over datagram_object outside perform new_ov_data sent note
  handed_over-Sends buf addr s e = record { hit = e; others = λ j n. refl; out = refl }

  finish_send-Sends :
      (pov : OvData) (r : ℕ) (s : UdpProxy)
      → find id s.socket_map ≡ some pd
      → (b : Bool) × Sends id
          (record pd { udp_recv_started = b })
          []
          s
          (finish_send id pd pov r s).1
  unfolding finish_send ◌>>=◌ pure
  finish_send-Sends pov r s e = elim (Bool-cases (failed r)) [
    | inl bad ↦ (
      pd.udp_recv_started,
      rw (bad, finish_send)
          (Sends-view s _ (Sends-here s e) ((repost-Keeps pd.udp_socket _).same s)),
    )
    | inr good ↦ rw (good, finish_send) (start_receiving-Sends s e)
  ]

  -- Whether or not the system takes it, the datagram is the only one that is handed over.
  pub transmit-Sends :
      (buf addr : List ℕ) (s : UdpProxy)
      → find id s.socket_map ≡ some pd
      → (b : Bool) × Sends id
          (record pd { udp_recv_started = b })
          ((id, relay_datagram addr buf) ∷ [])
          s
          (transmit id pd buf addr s).1
  unfolding transmit ◌>>=◌ handed_over datagram_object
  transmit-Sends buf addr s e =
      let first = handed_over-Sends buf addr s e in
      let (b, rest) =
        finish_send-Sends (datagram_object buf addr s) (handed_over buf addr s).0
          (handed_over buf addr s).1 first.hit in
      (b, Sends-trans _ _ _ first rest)

  -- On an open connection udpSend sends its datagram at once.
  pub udp_send-Sends :
      (buf addr : List ℕ) (addr_len : ℕ) (s : UdpProxy)
      → find id s.socket_map ≡ some pd
      → is_connected pd.proxy_state ≡ true
      → (b : Bool) × Sends id
          (record pd { udp_recv_started = b })
          ((id, relay_datagram addr buf) ∷ [])
          s
          (udp_send id buf addr addr_len s).1
  unfolding udp_send udp_send_by ◌>>=◌ gets
  udp_send-Sends buf addr addr_len s e c = rw (e, udp_send_by) (rw c (transmit-Sends buf addr s e))
