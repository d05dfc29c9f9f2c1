-- ===== src/Proxy/Isolation/Absent.antt =====
-- netfilter/UDPProxy.cpp: connections that are not there. Completions make none; a connection that
-- could not be made, and one that was deleted, is not there.
use qv_plugin_netfilter.Base.{ℕ, ◌≡◌, refl, sym, subst, ◌∙◌, Option, none, some, true, false, arith}
use qv_plugin_netfilter.Base.Map.{find, find-erase}
use qv_plugin_netfilter.Base.State.{
  M, modify, gets, pure, ◌>>=◌, Keeps, Triple, Triple-if, Triple-bind, Triple-pure,
}
use qv_plugin_netfilter.System.{Os}
use qv_plugin_netfilter.Proxy.Data.{
  OvType, ovt_connect, ovt_tcp_send, ovt_tcp_receive, ovt_udp_send, ovt_udp_receive, OvData,
  ProxyData,
}
use qv_plugin_netfilter.Proxy.Overlapped.{UdpProxy, outside}
use qv_plugin_netfilter.Proxy.Handshake.{
  negotiate_found, negotiate_received, on_tcp_receive_complete,
}
use qv_plugin_netfilter.Proxy.Receive.{
  UdpProxyHandler, on_udp_receive_complete, delete_found, delete_proxy_connection, greet,
  greet_connected, on_connect_complete,
}
use qv_plugin_netfilter.Proxy.Connections.{dispatch, on_complete, create_proxy_connection}
use qv_plugin_netfilter.Proxy.Worker.{complete}
use qv_plugin_netfilter.Proxy.Queue.{start_udp_receive-Keeps, start_tcp_receive-Keeps}
use qv_plugin_netfilter.Proxy.Isolation.{slot, slot-view, outside-slot, delete_ov_data-slot}

abbrev pub IsAbsent : ℕ → UdpProxy → Type 0
IsAbsent id s = slot id s ≡ none

module _ ⦃os : Os⦄ (id : ℕ) where
  kept :
      {A : Type 0} {m : M UdpProxy A}
      → Keeps (slot id) m
      → Triple (IsAbsent id) m (λ _. IsAbsent id)
  kept k = record { at = λ s e. k.same s ∙ e }

  -- A method that looks for the connection does not find it.
  looked :
      (f : Option ProxyData → M UdpProxy (Unit {0}))
      → Triple (IsAbsent id) (f none) (λ _. IsAbsent id)
      → Triple (IsAbsent id) (gets (λ s. find id s.socket_map) >>= f) (λ _. IsAbsent id)
  unfolding ◌>>=◌ gets
  looked f t = record { at = λ s e. subst (λ x. IsAbsent id (f x s).1) (sym e) (t.at s e) }

  delete_found-absent :
      (found : Option ProxyData) (s : UdpProxy)
      → slot id s ≡ found
      → IsAbsent id (delete_found id found s).1
  unfolding delete_found ◌>>=◌ outside modify pure
  delete_found-absent none s e = e
  delete_found-absent (some pd) s e = ground (arith, find-erase id id s.socket_map)

  pub delete_proxy_connection-absent : (s : UdpProxy) → IsAbsent id (delete_proxy_connection id s).1
  unfolding delete_proxy_connection ◌>>=◌ gets
  delete_proxy_connection-absent s = delete_found-absent (slot id s) s refl

module _ ⦃os : Os⦄ (pov : OvData) where
  -- The blocks under m_cs of the handlers find no connection, and make none.
  pub negotiate_received-absent :
      (transferred : ℕ)
      → Triple (IsAbsent pov.id) (negotiate_received transferred pov) (λ _. IsAbsent pov.id)
  unfolding negotiate_received negotiate_found
  negotiate_received-absent transferred = looked pov.id _ (Triple-pure tt λ s e. e)

  pub greet_connected-absent :
      (socket : ℕ) → Triple (IsAbsent pov.id) (greet_connected socket pov) (λ _. IsAbsent pov.id)
  unfolding greet
  greet_connected-absent socket = looked pov.id _ (
      Triple-bind (λ _. IsAbsent pov.id) (Triple-pure tt λ s e. e)
        λ _. kept pov.id (delete_ov_data-slot pov.id pov))

  on_tcp_receive_complete-absent :
      (socket transferred : ℕ)
      → Triple
          (IsAbsent pov.id)
          (on_tcp_receive_complete socket transferred pov)
          (λ _. IsAbsent pov.id)
  unfolding on_tcp_receive_complete negotiate_found
  on_tcp_receive_complete-absent socket transferred =
      Triple-if _ (kept pov.id (delete_ov_data-slot pov.id pov)) (
        looked pov.id _ (
          Triple-bind (λ _. IsAbsent pov.id) (Triple-pure tt λ s e. e)
            λ _.
              Triple-bind (λ _. IsAbsent pov.id)
                (kept pov.id (slot-view pov.id (start_tcp_receive-Keeps socket pov.id (some pov))))
                λ _. Triple-pure tt λ s e. e))

  on_udp_receive_complete-absent :
      (h : UdpProxyHandler) (socket transferred : ℕ)
      → Triple
          (IsAbsent pov.id)
          (on_udp_receive_complete h socket transferred pov)
          (λ _. IsAbsent pov.id)
  unfolding on_udp_receive_complete
  on_udp_receive_complete-absent h socket transferred =
      Triple-if _ (kept pov.id (delete_ov_data-slot pov.id pov)) (
        Triple-bind (λ _. IsAbsent pov.id) (kept pov.id (outside-slot pov.id _))
          λ _.
            Triple-bind (λ _. IsAbsent pov.id)
              (kept pov.id (slot-view pov.id (start_udp_receive-Keeps socket pov.id (some pov))))
              λ _. Triple-pure tt λ s e. e)

  on_connect_complete-absent :
      (socket transferred error : ℕ)
      → Triple
          (IsAbsent pov.id)
          (on_connect_complete socket transferred pov error)
          (λ _. IsAbsent pov.id)
  unfolding on_connect_complete greet
  on_connect_complete-absent socket transferred error =
      Triple-if _ (greet_connected-absent socket) (
        Triple-bind (λ _. IsAbsent pov.id)
          (record { at = λ s e. delete_proxy_connection-absent pov.id s })
          λ _. kept pov.id (delete_ov_data-slot pov.id pov))

  dispatch-absent :
      (h : UdpProxyHandler) (t : OvType) (socket transferred error : ℕ)
      → Triple (IsAbsent pov.id) (dispatch h t socket transferred pov error) (λ _. IsAbsent pov.id)
  unfolding dispatch
  dispatch-absent h ovt_udp_send socket transferred error =
      kept pov.id (delete_ov_data-slot pov.id pov)
  dispatch-absent h ovt_udp_receive socket transferred error =
      on_udp_receive_complete-absent h socket transferred
  dispatch-absent h ovt_connect socket transferred error =
      on_connect_complete-absent socket transferred error
  dispatch-absent h ovt_tcp_send socket transferred error =
      kept pov.id (delete_ov_data-slot pov.id pov)
  dispatch-absent h ovt_tcp_receive socket transferred error =
      on_tcp_receive_complete-absent socket transferred

  pub complete-absent :
      (h : UdpProxyHandler) (socket transferred error : ℕ)
      → Triple (IsAbsent pov.id) (complete h socket transferred pov error) (λ _. IsAbsent pov.id)
  unfolding complete on_complete
  complete-absent h socket transferred error =
      Triple-bind (λ _. IsAbsent pov.id) (kept pov.id (outside-slot pov.id _))
        λ _. dispatch-absent h pov.ov_type socket transferred error

module _ ⦃os : Os⦄ (id : ℕ) where
  -- A connection that could not be made is not there.
  pub create_proxy_connection-absent :
      Triple (IsAbsent id) (create_proxy_connection id) (λ made s. made ≡ false → IsAbsent id s)
  unfolding create_proxy_connection
  create_proxy_connection-absent =
      Triple-bind (λ _. IsAbsent id) (kept id (outside-slot id _))
        λ tcp. Triple-if _ (Triple-pure false λ s e f. e) (
          Triple-bind (λ _. IsAbsent id) (kept id (outside-slot id _))
            λ udp.
              Triple-if _
                (Triple-bind (λ _. IsAbsent id) (kept id (outside-slot id _))
                  λ _. Triple-pure false λ s e f. e)
                (Triple-bind (λ _ s. Unit {0}) (record { at = λ s e. tt })
                  λ result. Triple-if result (Triple-pure true λ s e f. ground (arith, f)) (
                    Triple-bind (λ _. IsAbsent id)
                      (record { at = λ s e. delete_proxy_connection-absent id s })
                      λ _. Triple-pure false λ s e f. e)))
