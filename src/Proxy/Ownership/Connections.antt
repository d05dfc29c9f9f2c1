-- ===== src/Proxy/Ownership/Connections.antt =====
-- Connections are made and deleted, and completions are dispatched, without losing an object.
use qv_plugin_netfilter.Base.{ℕ, List, ◌∷◌, Option, none, some, true, false, refl}
use qv_plugin_netfilter.Base.State.{Triple, Triple-if, Triple-bind}
use qv_plugin_netfilter.System.{
  Os, perform, wsa_socket, close_socket, shutdown_both, associate, create_port, reset_event,
  begin_thread, sock_stream, sock_dgram,
}
use qv_plugin_netfilter.System.Completions.{effect}
use qv_plugin_netfilter.System.Quiet.{Quiet, Quiet-pure, Quiet-if, Quiet-bind, Quiet-perform}
use qv_plugin_netfilter.Iocp
use qv_plugin_netfilter.Iocp.{IocpService, register_socket}
use qv_plugin_netfilter.Proxy.Data.{
  OvType, ovt_connect, ovt_tcp_send, ovt_tcp_receive, ovt_udp_send, ovt_udp_receive, OvData,
  ProxyData,
}
use qv_plugin_netfilter.Proxy.Overlapped.{outside}
use qv_plugin_netfilter.Proxy.Receive.{
  UdpProxyHandler, destroy, delete_found, delete_proxy_connection, greet_connected,
  on_connect_complete,
}
use qv_plugin_netfilter.Proxy.Connections.{
  init_service, dispatch, on_complete, insert_connection, open_connection, create_proxy_connection,
}
use qv_plugin_netfilter.Proxy.Ownership.{
  Tracked, Tracked-pure, Tracked-gets, Tracked-if, Tracked-bind, Tracked-map, Tracked-delete,
  Tracked-outside,
}
use qv_plugin_netfilter.Proxy.Ownership.Calls.{start_connect-Tracked}
use qv_plugin_netfilter.Proxy.Ownership.Handlers.{
  IsQuiet, on_tcp_receive_complete-Tracked, on_udp_receive_complete-Tracked, greet-Tracked,
}

module _ ⦃os : Os⦄ where
  pub close_socket-Quiet : (s : ℕ) → Quiet (perform (close_socket s))
  unfolding effect
  close_socket-Quiet s = Quiet-perform (close_socket s) λ r ps. refl

  pub destroy-Quiet : (pd : ProxyData) → Quiet (destroy pd)
  unfolding destroy effect
  destroy-Quiet pd =
      Quiet-bind
        (Quiet-if _ (Quiet-pure tt) (
          Quiet-bind (Quiet-perform (shutdown_both pd.tcp_socket) λ r ps. refl)
            λ _. Quiet-bind (close_socket-Quiet pd.tcp_socket) λ _. Quiet-pure tt))
        λ _.
          Quiet-if _ (Quiet-pure tt)
            (Quiet-bind (close_socket-Quiet pd.udp_socket) λ _. Quiet-pure tt)

  pub register_socket-Quiet :
      (socket : ℕ) (service : IocpService) → Quiet (register_socket socket service)
  unfolding register_socket effect
  register_socket-Quiet socket service =
      Quiet-bind (Quiet-perform (associate service.h_iocp socket) λ r ps. refl) λ r. Quiet-pure _

  init-Quiet : (handler : ℕ) (service : IocpService) → Quiet (Iocp.init handler service)
  unfolding Iocp.init effect
  init-Quiet handler service = Quiet-if _ (Quiet-pure _) (
      Quiet-bind (Quiet-perform create_port λ r ps. refl) λ port. Quiet-if _ (Quiet-pure _) (
        Quiet-bind (Quiet-perform (reset_event service.stop_event) λ r ps. refl)
          λ _. Quiet-bind (Quiet-perform begin_thread λ r ps. refl) λ thread. Quiet-pure _))

module _ ⦃os : Os⦄ (held : List ℕ) where
  pub init_service-Tracked :
      (handler : ℕ) → Triple (Tracked held) (init_service handler) (λ _. Tracked held)
  unfolding init_service outside
  init_service-Tracked handler = record {
    at = λ s t.
        let v = (Tracked-outside {held = held} (init-Quiet handler s.service)).at s t in
        record { once = v.once; single = v.single; fresh = v.fresh };
  }

  delete_found-Tracked :
      (id : ℕ) (found : Option ProxyData)
      → Triple (Tracked held) (delete_found id found) (λ _. Tracked held)
  unfolding delete_found
  delete_found-Tracked id none = Tracked-pure tt
  delete_found-Tracked id (some pd) =
      Tracked-bind (Tracked-outside (destroy-Quiet pd)) λ _. Tracked-map _

  pub delete_proxy_connection-Tracked :
      (id : ℕ) → Triple (Tracked held) (delete_proxy_connection id) (λ _. Tracked held)
  unfolding delete_proxy_connection
  delete_proxy_connection-Tracked id = Tracked-bind (Tracked-gets _) (delete_found-Tracked id)

  pub insert_connection-Tracked :
      (id tcp_socket udp_socket : ℕ)
      → Triple (Tracked held) (insert_connection id tcp_socket udp_socket) (λ _. Tracked held)
  unfolding insert_connection
  insert_connection-Tracked id tcp_socket udp_socket = Tracked-map _

  open_connection-Tracked :
      (id tcp_socket udp_socket : ℕ)
      → Triple (Tracked held) (open_connection id tcp_socket udp_socket) (λ _. Tracked held)
  unfolding open_connection
  open_connection-Tracked id tcp_socket udp_socket =
      Tracked-bind (insert_connection-Tracked id tcp_socket udp_socket) λ _.
        Tracked-bind (Tracked-gets _) λ service.
          Tracked-bind (Tracked-outside (register_socket-Quiet tcp_socket service)) λ tcp_ok.
            Tracked-if tcp_ok
              (Tracked-bind (Tracked-outside (register_socket-Quiet udp_socket service)) λ udp_ok.
                Tracked-if udp_ok
                  (record { at = λ s t. (start_connect-Tracked held tcp_socket _ _ id).at s t })
                  (Tracked-pure false))
              (Tracked-pure false)

  pub create_proxy_connection-Tracked :
      (id : ℕ) → Triple (Tracked held) (create_proxy_connection id) (λ _. Tracked held)
  unfolding create_proxy_connection effect
  create_proxy_connection-Tracked id =
      Tracked-bind (Tracked-outside (Quiet-perform (wsa_socket sock_stream) λ r ps. refl)) λ tcp.
        Tracked-if _ (Tracked-pure false) (
          Tracked-bind (Tracked-outside (Quiet-perform (wsa_socket sock_dgram) λ r ps. refl)) λ udp.
            Tracked-if _
              (Tracked-bind (Tracked-outside (close_socket-Quiet tcp)) λ _. Tracked-pure false)
              (Tracked-bind (open_connection-Tracked id tcp udp) λ result.
                Tracked-if result (Tracked-pure true)
                  (Tracked-bind (delete_proxy_connection-Tracked id) λ _. Tracked-pure false)))

module _ ⦃os : Os⦄ (held : List ℕ) where
  pub greet_connected-Tracked :
      (socket : ℕ) (pov : OvData)
      → Triple (Tracked (pov.ptr ∷ held)) (greet_connected socket pov) (λ _. Tracked held)
  greet_connected-Tracked socket pov =
      Triple-bind (λ _. Tracked (pov.ptr ∷ held)) (Tracked-gets _)
        λ found.
          Triple-bind (λ _. Tracked (pov.ptr ∷ held))
            (greet-Tracked (pov.ptr ∷ held) socket pov.id found) λ _. Tracked-delete pov

  on_connect_complete-Tracked :
      (socket transferred : ℕ) (pov : OvData) (error : ℕ)
      → Triple
          (Tracked (pov.ptr ∷ held))
          (on_connect_complete socket transferred pov error)
          (λ _. Tracked held)
  unfolding on_connect_complete
  on_connect_complete-Tracked socket transferred pov error =
      Triple-if _ (greet_connected-Tracked socket pov) (
        Triple-bind (λ _. Tracked (pov.ptr ∷ held))
          (delete_proxy_connection-Tracked (pov.ptr ∷ held) pov.id) λ _. Tracked-delete pov)

  dispatch-Tracked :
      (h : UdpProxyHandler) (t : OvType) (socket transferred : ℕ) (pov : OvData) (error : ℕ)
      → IsQuiet h
      → Triple
          (Tracked (pov.ptr ∷ held))
          (dispatch h t socket transferred pov error)
          (λ _. Tracked held)
  unfolding dispatch
  dispatch-Tracked h ovt_udp_send socket transferred pov error q = Tracked-delete pov
  dispatch-Tracked h ovt_udp_receive socket transferred pov error q =
      on_udp_receive_complete-Tracked held h socket transferred pov q
  dispatch-Tracked h ovt_connect socket transferred pov error q =
      on_connect_complete-Tracked socket transferred pov error
  dispatch-Tracked h ovt_tcp_send socket transferred pov error q = Tracked-delete pov
  dispatch-Tracked h ovt_tcp_receive socket transferred pov error q =
      on_tcp_receive_complete-Tracked held socket transferred pov

  -- Whatever completes, the object of the completion is deleted, or is in flight again.
  pub on_complete-Tracked :
      (h : UdpProxyHandler) (socket transferred : ℕ) (pov : OvData) (error : ℕ)
      → IsQuiet h
      → Triple
          (Tracked (pov.ptr ∷ held))
          (on_complete h socket transferred pov error)
          (λ _. Tracked held)
  unfolding on_complete
  on_complete-Tracked h socket transferred pov error q =
      dispatch-Tracked h pov.ov_type socket transferred pov error q
