-- ===== src/Proxy/Progress/History.antt =====
-- The completions of netfilter/UDPProxy.cpp other than that of the connect, and histories: a
-- connection advances or is deleted.
use qv_plugin_netfilter.Base.{
  ℕ, ◌≡◌, ◌≢◌, refl, sym, subst, inl, inr, Bool-cases, Option, none, some, ◌==◌, if◌then◌else◌,
  arith,
}
use qv_plugin_netfilter.Base.State.{Triple-if}
use qv_plugin_netfilter.System.{Os}
use qv_plugin_netfilter.Proxy.Data.{
  OvType, ovt_connect, ovt_tcp_send, ovt_tcp_receive, ovt_udp_send, ovt_udp_receive, OvData,
  ProxyState, ps_none, ps_auth, ps_auth_negotiation, ps_udp_assoc, ps_connected, ps_closed,
  ProxyData,
}
use qv_plugin_netfilter.Proxy.Overlapped.{UdpProxy}
use qv_plugin_netfilter.Proxy.Send.{udp_send}
use qv_plugin_netfilter.Proxy.Handshake.{negotiate, negotiate_found, on_tcp_receive_complete}
use qv_plugin_netfilter.Proxy.Receive.{
  UdpProxyHandler, on_udp_receive_complete, delete_proxy_connection,
}
use qv_plugin_netfilter.Proxy.Connections.{dispatch, on_complete}
use qv_plugin_netfilter.Proxy.Worker.{complete}
use qv_plugin_netfilter.Proxy.Queue.{start_udp_receive-Keeps, start_tcp_receive-Keeps}
use qv_plugin_netfilter.Proxy.Isolation.{slot, slot-view, outside-slot, delete_ov_data-slot}
use qv_plugin_netfilter.Proxy.Isolation.History.{subject, Step-slot}
use qv_plugin_netfilter.Proxy.Isolation.Absent.{delete_proxy_connection-absent}
use qv_plugin_netfilter.Proxy.Ownership.History.{
  Step, creates, deletes, sends, completes, Reach, here, next,
}
use qv_plugin_netfilter.Proxy.Progress.{
  rank, Later, Later-same, Continues, Kept, Lets, Lets-pure, Lets-slot, Lets-bind, Lets-find,
  Lets-gets, udp_send-Lets, send_and_advance-Lets, connect_relay-Lets,
}

module _ ⦃os : Os⦄ (old : ProxyData) (pov : OvData) where
  negotiate-Lets :
      (state : ProxyState) (transferred : ℕ) (pd : ProxyData)
      → pd.proxy_state ≡ state
      → Later old pd
      → Lets old pov.id (negotiate state transferred pov pd)
  unfolding negotiate rank
  negotiate-Lets ps_auth transferred pd e l = Triple-if _ (Lets-pure old pov.id tt) (
      Triple-if _ (send_and_advance-Lets old pov.id pd _ ps_auth_negotiation l (ground (arith, e)))
        (send_and_advance-Lets old pov.id pd _ ps_udp_assoc l (ground (arith, e))))
  negotiate-Lets ps_auth_negotiation transferred pd e l =
      Triple-if _ (Lets-pure old pov.id tt)
        (send_and_advance-Lets old pov.id pd _ ps_udp_assoc l (ground (arith, e)))
  negotiate-Lets ps_udp_assoc transferred pd e l = Triple-if _ (Lets-pure old pov.id tt) (
      Lets-bind old pov.id (Lets-gets old pov.id _)
        λ address. connect_relay-Lets old pov.id pd _ l (ground (arith, e)))
  negotiate-Lets ps_none transferred pd e l = Lets-pure old pov.id tt
  negotiate-Lets ps_connected transferred pd e l = Lets-pure old pov.id tt
  negotiate-Lets ps_closed transferred pd e l = Lets-pure old pov.id tt

  negotiate_found-Lets :
      (transferred : ℕ) (found : Option ProxyData)
      → Continues old found
      → Lets old pov.id (negotiate_found transferred pov found)
  unfolding negotiate_found
  negotiate_found-Lets transferred none l = Lets-pure old pov.id tt
  negotiate_found-Lets transferred (some pd) l = negotiate-Lets pd.proxy_state transferred pd refl l

  on_tcp_receive_complete-Lets :
      (socket transferred : ℕ) → Lets old pov.id (on_tcp_receive_complete socket transferred pov)
  unfolding on_tcp_receive_complete
  on_tcp_receive_complete-Lets socket transferred =
      Triple-if _ (Lets-slot old pov.id (delete_ov_data-slot pov.id pov)) (
        Lets-find old pov.id _ λ found l.
          Lets-bind old pov.id (negotiate_found-Lets transferred found l) λ _.
            Lets-bind old pov.id
              (Lets-slot old pov.id
                (slot-view pov.id (start_tcp_receive-Keeps socket pov.id (some pov))))
              λ _. Lets-pure old pov.id tt)

  on_udp_receive_complete-Lets :
      (h : UdpProxyHandler) (socket transferred : ℕ)
      → Lets old pov.id (on_udp_receive_complete h socket transferred pov)
  unfolding on_udp_receive_complete
  on_udp_receive_complete-Lets h socket transferred =
      Triple-if _ (Lets-slot old pov.id (delete_ov_data-slot pov.id pov)) (
        Lets-bind old pov.id (Lets-slot old pov.id (outside-slot pov.id _)) λ _.
          Lets-bind old pov.id
            (Lets-slot old pov.id
              (slot-view pov.id (start_udp_receive-Keeps socket pov.id (some pov))))
            λ _. Lets-pure old pov.id tt)

  dispatch-Lets :
      (h : UdpProxyHandler) (t : OvType) (socket transferred error : ℕ)
      → t ≢ ovt_connect
      → Lets old pov.id (dispatch h t socket transferred pov error)
  unfolding dispatch
  dispatch-Lets h ovt_udp_send socket transferred error n =
      Lets-slot old pov.id (delete_ov_data-slot pov.id pov)
  dispatch-Lets h ovt_udp_receive socket transferred error n =
      on_udp_receive_complete-Lets h socket transferred
  dispatch-Lets h ovt_connect socket transferred error n = absurd (n refl)
  dispatch-Lets h ovt_tcp_send socket transferred error n =
      Lets-slot old pov.id (delete_ov_data-slot pov.id pov)
  dispatch-Lets h ovt_tcp_receive socket transferred error n =
      on_tcp_receive_complete-Lets socket transferred

  complete-Lets :
      (h : UdpProxyHandler) (socket transferred error : ℕ)
      → pov.ov_type ≢ ovt_connect
      → Lets old pov.id (complete h socket transferred pov error)
  unfolding complete on_complete
  complete-Lets h socket transferred error n =
      Lets-bind old pov.id (Lets-slot old pov.id (outside-slot pov.id _))
        λ _. dispatch-Lets h pov.ov_type socket transferred error n

module _ ⦃os : Os⦄ {h : UdpProxyHandler} (j : ℕ) where
  -- The step does not make the connection, and does not report that it is made.
  unfoldable pub IsLater : {s t : UdpProxy} → Step h s t → Type 0
  IsLater (creates id s) = j ≢ id
  IsLater (deletes id s) = Unit
  IsLater (sends id buf addr addr_len s) = Unit
  IsLater (completes socket transferred pov error s e) =
      if pov.id == j then (pov.ov_type ≢ ovt_connect) else Unit

  unfoldable pub AreLater : {s t : UdpProxy} → Reach h s t → Type 0
  AreLater here = Unit
  AreLater (next r step) = AreLater r × IsLater step

  other-Continues :
      (old : ProxyData) {s t : UdpProxy} (step : Step h s t)
      → j ≢ subject step
      → Continues old (slot j s)
      → Continues old (slot j t)
  other-Continues old step n c = subst (Continues old) (sym (Step-slot j step n)) c

  pub Step-Continues :
      (old : ProxyData) {s t : UdpProxy} (step : Step h s t)
      → IsLater step
      → Continues old (slot j s)
      → Continues old (slot j t)
  unfolding IsLater subject
  Step-Continues old (creates id s) n c = other-Continues old (creates id s) n c
  Step-Continues old (deletes id s) n c = elim (Bool-cases (id == j)) [
    | inl same ↦
        subst (λ i. Continues old (slot i (delete_proxy_connection id s).1)) (ground (arith, same))
          (subst (Continues old) (sym (delete_proxy_connection-absent id s)) tt)
    | inr other ↦ other-Continues old (deletes id s) (ground (arith, other)) c
  ]
  Step-Continues old (sends id buf addr addr_len s) n c = elim (Bool-cases (id == j)) [
    | inl same ↦
        subst (λ i. Kept old i s → Kept old i (udp_send id buf addr addr_len s).1)
          (ground (arith, same)) ((udp_send-Lets old id buf addr addr_len).at s) c
    | inr other ↦ other-Continues old (sends id buf addr addr_len s) (ground (arith, other)) c
  ]
  Step-Continues old (completes socket transferred pov error s e) n c =
      elim (Bool-cases (pov.id == j)) [
        | inl same ↦
            subst (λ i. Kept old i s → Kept old i (complete h socket transferred pov error s).1)
              (ground (arith, same))
              ((complete-Lets old pov h socket transferred error (ground (arith, n, same))).at s) c
        | inr other ↦
            other-Continues old (completes socket transferred pov error s e) (ground (arith, other))
              c
      ]

  -- In every history from a state where an endpoint has a connection, in which no connection is made
  -- for that endpoint and no connect completes for it, the connection is deleted, or its state has
  -- advanced or is the same, and it has the same sockets, user name and password.
  pub Reach-Continues :
      (old : ProxyData) {s t : UdpProxy} (r : Reach h s t)
      → AreLater r
      → slot j s ≡ some old
      → Continues old (slot j t)
  unfolding AreLater
  Reach-Continues old here l e = subst (Continues old) (sym e) (Later-same old)
  Reach-Continues old (next r step) l e = Step-Continues old step l.1 (Reach-Continues old r l.0 e)
