-- ===== src/Proxy/Isolation/History.antt =====
-- The handlers of completions in netfilter/UDPProxy.cpp, createProxyConnection, and histories of
-- both: what happens to the other connections.
use qv_plugin_netfilter.Base.{ℕ, ◌≡◌, ◌≢◌, refl, ◌∙◌, Option, none, some, List, true, false}
use qv_plugin_netfilter.Base.State.{modify, Keeps, Keeps-pure, Keeps-gets, Keeps-if, Keeps-bind}
use qv_plugin_netfilter.System.{Os}
use qv_plugin_netfilter.Proxy.Data.{
  OvType, ovt_connect, ovt_tcp_send, ovt_tcp_receive, ovt_udp_send, ovt_udp_receive, OvData,
  ProxyState, ps_auth, ps_auth_negotiation, ps_udp_assoc, ProxyData,
}
use qv_plugin_netfilter.Proxy.Overlapped.{UdpProxy, start_connect}
use qv_plugin_netfilter.Proxy.Handshake.{
  negotiate, negotiate_found, negotiate_received, on_tcp_receive_complete,
}
use qv_plugin_netfilter.Proxy.Receive.{
  UdpProxyHandler, on_udp_receive_complete, greet_connected, on_connect_complete,
}
use qv_plugin_netfilter.Proxy.Connections.{
  dispatch, on_complete, open_connection, create_proxy_connection,
}
use qv_plugin_netfilter.Proxy.Worker.{complete}
use qv_plugin_netfilter.Proxy.Ownership.History.{
  Step, creates, deletes, sends, completes, Reach, here, next,
}
use qv_plugin_netfilter.Proxy.Queue.{start_udp_receive-Keeps, start_tcp_receive-Keeps}
use qv_plugin_netfilter.Proxy.Isolation.{
  slot, slot-view, outside-slot, delete_ov_data-slot, new_ov_data-slot, put-slot, udp_send-slot,
  send_and_advance-slot, connect_relay-slot, greet-slot, delete_proxy_connection-slot,
}

module _ ⦃os : Os⦄ (id j : ℕ) (n : j ≢ id) where
  start_connect-slot :
      (socket : ℕ) (addr : List ℕ) (addr_len : ℕ)
      → Keeps (slot j) (start_connect socket addr addr_len id)
  unfolding start_connect
  start_connect-slot socket addr addr_len = Keeps-bind (new_ov_data-slot j) λ fresh.
      Keeps-bind (outside-slot j _) λ bound. Keeps-bind (outside-slot j _) λ r.
        Keeps-if _ (Keeps-bind (delete_ov_data-slot j _) λ _. Keeps-pure false) (Keeps-pure true)

  open_connection-slot :
      (tcp_socket udp_socket : ℕ) → Keeps (slot j) (open_connection id tcp_socket udp_socket)
  unfolding open_connection modify
  open_connection-slot tcp_socket udp_socket =
      Keeps-bind (record { same = λ s. (put-slot id j n _).same s })
        λ _. Keeps-bind (Keeps-gets _) λ service. Keeps-bind (outside-slot j _) λ tcp_ok.
          Keeps-if tcp_ok
            (Keeps-bind (outside-slot j _) λ udp_ok.
              Keeps-if udp_ok (record { same = λ s. (start_connect-slot tcp_socket _ _).same s })
                (Keeps-pure false))
            (Keeps-pure false)

  pub create_proxy_connection-slot : Keeps (slot j) (create_proxy_connection id)
  unfolding create_proxy_connection
  create_proxy_connection-slot = Keeps-bind (outside-slot j _) λ tcp.
      Keeps-if _ (Keeps-pure false) (
        Keeps-bind (outside-slot j _) λ udp.
          Keeps-if _ (Keeps-bind (outside-slot j _) λ _. Keeps-pure false) (
            Keeps-bind (open_connection-slot tcp udp) λ result.
              Keeps-if result (Keeps-pure true)
                (Keeps-bind (delete_proxy_connection-slot id j n) λ _. Keeps-pure false)))

module _ ⦃os : Os⦄ (j : ℕ) (pov : OvData) (n : j ≢ pov.id) where
  negotiate-slot :
      (state : ProxyState) (transferred : ℕ) (pd : ProxyData)
      → Keeps (slot j) (negotiate state transferred pov pd)
  unfolding negotiate
  negotiate-slot ps_auth transferred pd =
      Keeps-if _ (Keeps-pure tt)
        (Keeps-if _ (send_and_advance-slot _ j n _ _ _) (send_and_advance-slot _ j n _ _ _))
  negotiate-slot ps_auth_negotiation transferred pd =
      Keeps-if _ (Keeps-pure tt) (send_and_advance-slot _ j n _ _ _)
  negotiate-slot ps_udp_assoc transferred pd =
      Keeps-if _ (Keeps-pure tt) (Keeps-bind (Keeps-gets _) λ address. connect_relay-slot _ j n _ _)
  negotiate-slot _ transferred pd = Keeps-pure tt

  negotiate_found-slot :
      (transferred : ℕ) (found : Option ProxyData)
      → Keeps (slot j) (negotiate_found transferred pov found)
  unfolding negotiate_found
  negotiate_found-slot transferred none = Keeps-pure tt
  negotiate_found-slot transferred (some pd) = negotiate-slot _ _ _

  pub negotiate_received-slot :
      (transferred : ℕ) → Keeps (slot j) (negotiate_received transferred pov)
  unfolding negotiate_received
  negotiate_received-slot transferred = Keeps-bind (Keeps-gets _) (negotiate_found-slot transferred)

  pub greet_connected-slot : (socket : ℕ) → Keeps (slot j) (greet_connected socket pov)
  greet_connected-slot socket =
      Keeps-bind (Keeps-gets _)
        λ found. Keeps-bind (greet-slot pov.id j n socket found) λ _. delete_ov_data-slot j pov

  on_tcp_receive_complete-slot :
      (socket transferred : ℕ) → Keeps (slot j) (on_tcp_receive_complete socket transferred pov)
  unfolding on_tcp_receive_complete
  on_tcp_receive_complete-slot socket transferred = Keeps-if _ (delete_ov_data-slot j pov) (
      Keeps-bind (Keeps-gets _) λ found. Keeps-bind (negotiate_found-slot transferred found) λ _.
        Keeps-bind (slot-view j (start_tcp_receive-Keeps socket pov.id (some pov)))
          λ _. Keeps-pure tt)

  on_udp_receive_complete-slot :
      (h : UdpProxyHandler) (socket transferred : ℕ)
      → Keeps (slot j) (on_udp_receive_complete h socket transferred pov)
  unfolding on_udp_receive_complete
  on_udp_receive_complete-slot h socket transferred = Keeps-if _ (delete_ov_data-slot j pov) (
      Keeps-bind (outside-slot j _) λ _.
        Keeps-bind (slot-view j (start_udp_receive-Keeps socket pov.id (some pov)))
          λ _. Keeps-pure tt)

  on_connect_complete-slot :
      (socket transferred error : ℕ)
      → Keeps (slot j) (on_connect_complete socket transferred pov error)
  unfolding on_connect_complete
  on_connect_complete-slot socket transferred error =
      Keeps-if _ (greet_connected-slot socket)
        (Keeps-bind (delete_proxy_connection-slot pov.id j n) λ _. delete_ov_data-slot j pov)

  dispatch-slot :
      (h : UdpProxyHandler) (t : OvType) (socket transferred error : ℕ)
      → Keeps (slot j) (dispatch h t socket transferred pov error)
  unfolding dispatch
  dispatch-slot h ovt_udp_send socket transferred error = delete_ov_data-slot j pov
  dispatch-slot h ovt_udp_receive socket transferred error =
      on_udp_receive_complete-slot h socket transferred
  dispatch-slot h ovt_connect socket transferred error =
      on_connect_complete-slot socket transferred error
  dispatch-slot h ovt_tcp_send socket transferred error = delete_ov_data-slot j pov
  dispatch-slot h ovt_tcp_receive socket transferred error =
      on_tcp_receive_complete-slot socket transferred

  pub complete-slot :
      (h : UdpProxyHandler) (socket transferred error : ℕ)
      → Keeps (slot j) (complete h socket transferred pov error)
  unfolding complete on_complete
  complete-slot h socket transferred error =
      Keeps-bind (outside-slot j _) λ _. dispatch-slot h pov.ov_type socket transferred error

module _ ⦃os : Os⦄ {h : UdpProxyHandler} where
  -- The endpoint that a step is about.
  unfoldable pub subject : {s t : UdpProxy} → Step h s t → ℕ
  subject (creates id s) = id
  subject (deletes id s) = id
  subject (sends id buf addr addr_len s) = id
  subject (completes socket transferred pov error s e) = pov.id

  -- No step of the history is about the endpoint.
  unfoldable pub Avoids : {s t : UdpProxy} → ℕ → Reach h s t → Type 0
  Avoids j here = Unit
  Avoids j (next r step) = Avoids j r × (j ≢ subject step)

  pub Step-slot :
      {s t : UdpProxy} (j : ℕ) (step : Step h s t) → j ≢ subject step → slot j t ≡ slot j s
  unfolding subject
  Step-slot j (creates id s) n = (create_proxy_connection-slot id j n).same s
  Step-slot j (deletes id s) n = (delete_proxy_connection-slot id j n).same s
  Step-slot j (sends id buf addr addr_len s) n = (udp_send-slot id j n buf addr addr_len).same s
  Step-slot j (completes socket transferred pov error s e) n =
      (complete-slot j pov n h socket transferred error).same s

  -- In every history in which no call and no completion is about an endpoint, its connection stays
  -- as it was: its state, its sockets, its queue, and whether there is one.
  pub Reach-slot : {s t : UdpProxy} (j : ℕ) (r : Reach h s t) → Avoids j r → slot j t ≡ slot j s
  unfolding Avoids
  Reach-slot j here a = refl
  Reach-slot j (next r step) a = Step-slot j step a.1 ∙ Reach-slot j r a.0
