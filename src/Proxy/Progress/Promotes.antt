-- ===== src/Proxy/Progress/Promotes.antt =====
-- The handlers of completions in netfilter/UDPProxy.cpp bring a connection on, when it gets the
-- completion that it waits for.
use native.Mathlib.Nat.{le_refl}
use qv_plugin_netfilter.Base.{
  ℕ, ◌<◌, ◌≤◌, ◌≡◌, ◌≢◌, refl, sym, ap, subst, ◌∙◌, inl, inr, Bool-cases, none, some, List, Bool,
  true, false, not, ◌||◌, ◌==◌, ltb, if◌then◌else◌, arith, ==_ne,
}
use qv_plugin_netfilter.Base.State.{M, pure, gets, ◌>>=◌, Triple}
use qv_plugin_netfilter.Socks.{
  sizeof_auth_response, sizeof_response, socks_5, auth_response_at, response_at,
}
use qv_plugin_netfilter.System.{Os, perform}
use qv_plugin_netfilter.Proxy.Data.{
  OvType, ovt_tcp_receive, OvData, ProxyState, ps_none, ps_auth, ps_auth_negotiation, ps_udp_assoc,
  ps_connected, ps_closed, ProxyData,
}
use qv_plugin_netfilter.Proxy.Overlapped.{UdpProxy, outside}
use qv_plugin_netfilter.Proxy.Handshake.{
  send_and_advance, connect_relay, relay_address, negotiate, negotiate_found,
  on_tcp_receive_complete,
}
use qv_plugin_netfilter.Proxy.Receive.{UdpProxyHandler, greet, on_connect_complete}
use qv_plugin_netfilter.Proxy.Connections.{dispatch, on_complete}
use qv_plugin_netfilter.Proxy.Worker.{complete}
use qv_plugin_netfilter.Proxy.Queue.{start_tcp_receive-Keeps}
use qv_plugin_netfilter.Proxy.Queue.Drain.{connect_relay-Sends}
use qv_plugin_netfilter.Proxy.Isolation.{slot, slot-view, delete_ov_data-slot}
use qv_plugin_netfilter.Proxy.Progress.{rank, Continues}
use qv_plugin_netfilter.Proxy.Progress.Answers.{
  Accepts, Fits, asks, following, before_connect, promoted, send_and_advance-Continues,
}

module _ ⦃os : Os⦄ (accepted : Accepts os) (pov : OvData) (pd : ProxyData) where
  greet-Continues :
      (socket : ℕ) (s : UdpProxy)
      → pd.proxy_state ≡ ps_none
      → Continues (promoted (asks pov pd) pd) (slot pov.id (greet socket pov.id (some pd) s).1)
  unfolding greet following ◌>>=◌ pure
  greet-Continues socket s e =
      subst (Continues (promoted (asks pov pd) pd))
        (sym ((slot-view pov.id (start_tcp_receive-Keeps pd.tcp_socket pov.id none)).same _))
        (send_and_advance-Continues accepted pov.id (asks pov pd) pd _ ps_auth _
          (rw (ap (following (asks pov pd)) e) (le_refl _)))

  -- A method that promotes the connection, where the proxy's address is `address`.
  abbrev Promotes : List ℕ → M UdpProxy (Unit {0}) → Type 0
  Promotes address m =
      Triple (λ s. s.proxy_address ≡ address) m
        (λ _ s. Continues (promoted (asks pov pd) pd) (slot pov.id s))

  unguarded :
      (address : List ℕ) (g : Bool) (m n : M UdpProxy (Unit {0}))
      → g ≡ false
      → Promotes address n
      → Promotes address (if g then m else n)
  unguarded address g m n e p = rw e p

  passing :
      (address : List ℕ) (g : Bool) (m n : M UdpProxy (Unit {0}))
      → g ≡ true
      → Promotes address m
      → Promotes address (if g then m else n)
  passing address g m n e p = rw e p

  sends-Promotes :
      (address message : List ℕ) (state : ProxyState)
      → rank (following (asks pov pd) pd.proxy_state) ≤ rank state
      → Promotes address (send_and_advance pov.id pd message state)
  sends-Promotes address message state h = record {
    at = λ s k. send_and_advance-Continues accepted pov.id (asks pov pd) pd message state s h;
  }

  connect_relay-Promotes :
      (address addr : List ℕ) (len : ℕ)
      → pd.proxy_state ≡ ps_udp_assoc
      → Promotes address (connect_relay pov.id pd (some (addr, len)))
  unfolding following
  connect_relay-Promotes address addr len e = record {
    at = λ s k.
        let (b, sends) = connect_relay-Sends pov.id pd addr len s in
        subst (Continues (promoted (asks pov pd) pd)) (sym sends.hit) (record {
          advanced = rw (ap (following (asks pov pd)) e) (le_refl _);
          same_tcp = refl;
          same_udp = refl;
          same_name = refl;
          same_password = refl;
        });
  }

  -- A negotiation that gets the answer it waits for.
  negotiate-Promotes :
      (transferred error : ℕ) (address : List ℕ) (state : ProxyState)
      → pd.proxy_state ≡ state
      → state ≢ ps_none
      → Fits state transferred pov error address
      → Promotes address (negotiate state transferred pov pd)
  unfolding Fits negotiate following rank ◌>>=◌ gets
  negotiate-Promotes transferred error address ps_none e n f = absurd (n refl)
  negotiate-Promotes transferred error address ps_auth e n (t, l, v) =
      unguarded address
        (ltb transferred sizeof_auth_response
          || not ((auth_response_at pov.buffer).version == socks_5))
        _ _ (ground arith)
        (elim (Bool-cases (asks pov pd)) [
          | inl asked ↦
              passing address (asks pov pd) _ _ asked
                (sends-Promotes address _ ps_auth_negotiation (rw (e, asked) (le_refl _)))
          | inr free ↦
              unguarded address (asks pov pd) _ _ free
                (sends-Promotes address _ ps_udp_assoc (rw (e, free) (le_refl _)))
        ])
  negotiate-Promotes transferred error address ps_auth_negotiation e n (t, l, v, m) =
      unguarded address
        (ltb transferred sizeof_auth_response
          || (not ((auth_response_at pov.buffer).version == 1)
              || not ((auth_response_at pov.buffer).method == 0)))
        _ _ (ground arith) (sends-Promotes address _ ps_udp_assoc (rw e (le_refl _)))
  negotiate-Promotes transferred error address ps_udp_assoc e n (t, l, v, r, addr, len, a) =
      unguarded address
        (ltb transferred sizeof_response
          || (not ((response_at pov.buffer).version == socks_5)
              || not ((response_at pov.buffer).res_code == 0)))
        _ _ (ground arith)
        (record {
          at = λ s k.
              rw (ap (λ x. relay_address x pov.buffer) k ∙ a)
                ((connect_relay-Promotes address addr len e).at s k);
        })
  negotiate-Promotes transferred error address ps_connected e n f = absurd f
  negotiate-Promotes transferred error address ps_closed e n f = absurd f

  on_connect_complete-Continues :
      (socket transferred error : ℕ) (s : UdpProxy)
      → slot pov.id s ≡ some pd
      → pd.proxy_state ≡ ps_none
      → error ≡ 0
      → Continues
          (promoted (asks pov pd) pd)
          (slot pov.id (on_connect_complete socket transferred pov error s).1)
  unfolding on_connect_complete ◌>>=◌ gets
  on_connect_complete-Continues socket transferred error s e st z =
      rw (z, e)
        (subst (Continues (promoted (asks pov pd) pd))
          (sym ((delete_ov_data-slot pov.id pov).same _)) (greet-Continues socket s st))

  on_tcp_receive_complete-Continues :
      (socket transferred error : ℕ) (s : UdpProxy)
      → slot pov.id s ≡ some pd
      → pd.proxy_state ≢ ps_none
      → 0 < transferred
      → Fits pd.proxy_state transferred pov error s.proxy_address
      → Continues
          (promoted (asks pov pd) pd)
          (slot pov.id (on_tcp_receive_complete socket transferred pov s).1)
  unfolding on_tcp_receive_complete negotiate_found ◌>>=◌ gets pure
  on_tcp_receive_complete-Continues socket transferred error s e n l f =
      rw (==_ne transferred 0 (omega arith), e, negotiate_found)
        (subst (Continues (promoted (asks pov pd) pd))
          (sym ((slot-view pov.id (start_tcp_receive-Keeps socket pov.id (some pov))).same _))
          ((negotiate-Promotes transferred error s.proxy_address pd.proxy_state refl n f).at s
            refl))

  -- What the answer is about, and its size.
  received :
      (state : ProxyState) (transferred error : ℕ) (address : List ℕ)
      → state ≢ ps_none
      → Fits state transferred pov error address
      → (pov.ov_type ≡ ovt_tcp_receive) × (0 < transferred)
  unfolding Fits
  received ps_none transferred error address n f = absurd (n refl)
  received ps_auth transferred error address n f = (f.0, omega (arith, f.1))
  received ps_auth_negotiation transferred error address n f = (f.0, omega (arith, f.1))
  received ps_udp_assoc transferred error address n f = (f.0, omega (arith, f.1))
  received ps_connected transferred error address n f = absurd f
  received ps_closed transferred error address n f = absurd f

  abbrev Promoted : UdpProxy → Type 0
  Promoted s = Continues (promoted (asks pov pd) pd) (slot pov.id s)

  dispatch-connect :
      (h : UdpProxyHandler) (t : OvType) (socket transferred error : ℕ) (s : UdpProxy)
      → pd.proxy_state ≡ ps_none
      → pov.ov_type ≡ t
      → slot pov.id s ≡ some pd
      → Fits ps_none transferred pov error s.proxy_address
      → Promoted (dispatch h t socket transferred pov error s).1
  unfolding dispatch Fits
  dispatch-connect h t socket transferred error s st k e f =
      subst (λ x. Promoted (dispatch h x socket transferred pov error s).1) (sym f.0 ∙ k)
        (on_connect_complete-Continues socket transferred error s e st f.1)

  dispatch-receive :
      (h : UdpProxyHandler) (t : OvType) (socket transferred error : ℕ) (s : UdpProxy)
      → pd.proxy_state ≢ ps_none
      → pov.ov_type ≡ t
      → slot pov.id s ≡ some pd
      → Fits pd.proxy_state transferred pov error s.proxy_address
      → Promoted (dispatch h t socket transferred pov error s).1
  unfolding dispatch
  dispatch-receive h t socket transferred error s n k e f =
      let (is_receive, l) = received pd.proxy_state transferred error s.proxy_address n f in
      subst (λ x. Promoted (dispatch h x socket transferred pov error s).1) (sym is_receive ∙ k)
        (on_tcp_receive_complete-Continues socket transferred error s e n l f)

  -- The completion that a connection waits for brings it on.
  pub complete-Continues :
      (h : UdpProxyHandler) (socket transferred error : ℕ) (s : UdpProxy)
      → slot pov.id s ≡ some pd
      → Fits pd.proxy_state transferred pov error s.proxy_address
      → Promoted (complete h socket transferred pov error s).1
  unfolding complete on_complete ◌>>=◌ outside perform
  complete-Continues h socket transferred error s e f = elim (before_connect pd.proxy_state) [
    | inl fresh ↦
        dispatch-connect h pov.ov_type socket transferred error _ fresh refl e
          (subst (λ x. Fits x transferred pov error s.proxy_address) fresh f)
    | inr later ↦ dispatch-receive h pov.ov_type socket transferred error _ later refl e f
  ]
