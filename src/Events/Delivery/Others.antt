-- ===== src/Events/Delivery/Others.antt =====
-- The methods of netfilter/NFEventHandler.cpp that hand over no datagram of the endpoint.
use mathlib.Core.List.{append-nil}
use qv_plugin_netfilter.Base.{
  ℕ, ◌≢◌, refl, sym, ap, ◌∙◌, Bool, false, Option, none, some, List, [], ◌∷◌, ◌++◌,
}
use qv_plugin_netfilter.Base.State.{Triple-if}
use qv_plugin_netfilter.System.{
  Os, do_log, nf_tcp_post_send, nf_tcp_post_receive, nf_tcp_disable_filtering,
}
use qv_plugin_netfilter.System.Sent.{note}
use qv_plugin_netfilter.Proxy.Overlapped.{UdpProxy}
use qv_plugin_netfilter.Proxy.Receive.{delete_proxy_connection}
use qv_plugin_netfilter.Proxy.Connections.{create_proxy_connection}
use qv_plugin_netfilter.Proxy.Channel.Balance.{NotMade, submitted}
use qv_plugin_netfilter.Proxy.Channel.Calls.{create-Does, delete-Does}
use qv_plugin_netfilter.Proxy.Channel.Fifo.{Creates-NotMade}
use qv_plugin_netfilter.Events.Data.{TcpConnInfo, UdpConnInfo, OriginalConnInfo}
use qv_plugin_netfilter.Events.Handler.{Lookup, on_proxy, on_system, log_tcp, log_udp}
use qv_plugin_netfilter.Events.Tcp.{tcp_connect_request, tcp_send_by, tcp_receive_by, flush_pended}
use qv_plugin_netfilter.Events.Udp.{udp_closed}
use qv_plugin_netfilter.Events.Delivery.{
  Does-Carries, more, Carrying, Carrying-pure, Carrying-gets, Carrying-bind, Carrying-call,
  Carrying-tcp, Carrying-erase,
}

module _ ⦃os : Os⦄ (j : ℕ) (start : UdpProxy) (ds : List (List ℕ)) where
  pub flush_pended-Carrying : (id : ℕ) (kept : List ℕ) → Carrying j start ds (flush_pended id kept)
  unfolding flush_pended note
  flush_pended-Carrying id [] = Carrying-pure j start ds tt
  flush_pended-Carrying id (b ∷ bs) =
      Carrying-bind j start ds (Carrying-call j start ds (nf_tcp_post_send id (b ∷ bs)) λ x. refl)
        λ _. Carrying-pure j start ds tt

  pub tcp_receive_by-Carrying :
      (id : ℕ) (buf : List ℕ) (found : Option OriginalConnInfo)
      → Carrying j start ds (tcp_receive_by id buf found)
  unfolding tcp_receive_by note
  tcp_receive_by-Carrying id buf none =
      Carrying-bind j start ds (Carrying-call j start ds (nf_tcp_post_receive id buf) λ x. refl)
        λ _.
          Carrying-bind j start ds
            (Carrying-call j start ds (nf_tcp_disable_filtering id) λ x. refl)
            λ _. Carrying-pure j start ds tt
  tcp_receive_by-Carrying id buf (some info) =
      Carrying-bind j start ds (flush_pended-Carrying id info.pended_sends)
        λ _. Carrying-tcp j start ds _

  pub tcp_send_by-Carrying :
      (id : ℕ) (buf : List ℕ) (found : Option OriginalConnInfo)
      → Carrying j start ds (tcp_send_by id buf found)
  unfolding tcp_send_by note
  tcp_send_by-Carrying id buf none =
      Carrying-bind j start ds (Carrying-call j start ds (nf_tcp_post_send id buf) λ x. refl)
        λ _. Carrying-pure j start ds tt
  tcp_send_by-Carrying id buf (some info) = Triple-if _ (Carrying-pure j start ds tt) (
      Carrying-bind j start ds (Carrying-call j start ds (nf_tcp_post_send id _) λ x. refl)
        λ _. Carrying-tcp j start ds _)

  pub log_tcp-Carrying :
      ⦃lookup : Lookup⦄ (connected : Bool) (id : ℕ) (info : TcpConnInfo)
      → Carrying j start ds (on_system (log_tcp connected id info))
  unfolding log_tcp note
  log_tcp-Carrying connected id info = Carrying-call j start ds (do_log _) λ x. refl

  pub log_udp-Carrying :
      ⦃lookup : Lookup⦄ (created : Bool) (id : ℕ) (info : UdpConnInfo)
      → Carrying j start ds (on_system (log_udp created id info))
  unfolding log_udp note
  log_udp-Carrying created id info = Carrying-call j start ds (do_log _) λ x. refl

  pub tcp_connect_request-Carrying :
      (id : ℕ) (info : TcpConnInfo) → Carrying j start ds (tcp_connect_request id info)
  unfolding tcp_connect_request
  tcp_connect_request-Carrying id info =
      Carrying-bind j start ds (Carrying-tcp j start ds _)
        λ _. Carrying-bind j start ds (Carrying-gets j start ds _) λ _. Carrying-pure j start ds _

  -- Another endpoint makes its connection.
  pub create-Carrying :
      (id : ℕ) → id ≢ j → Carrying j start ds (on_proxy (create_proxy_connection id))
  unfolding on_proxy
  create-Carrying id n = record {
    at = λ s c.
        let (a, creates, does) = create-Does id s.udp_proxy in
        let (not_made, same) = Creates-NotMade j id _ a n creates in
        more j start (sym (ap (λ x. ds ++ x) same ∙ append-nil ds))
          (Does-Carries j start ds s c does not_made);
  }

  pub delete-Carrying : (id : ℕ) → Carrying j start ds (on_proxy (delete_proxy_connection id))
  unfolding on_proxy NotMade submitted
  delete-Carrying id = record {
    at = λ s c.
        more j start (sym (append-nil ds))
          (Does-Carries j start ds s c (delete-Does id s.udp_proxy) tt);
  }

  pub udp_closed-Carrying :
      ⦃lookup : Lookup⦄ (id : ℕ) (info : UdpConnInfo)
      → id ≢ j
      → Carrying j start ds (udp_closed id info)
  unfolding udp_closed
  udp_closed-Carrying id info n =
      Carrying-bind j start ds (log_udp-Carrying false id info)
        λ _. Carrying-bind j start ds (delete-Carrying id) λ _. Carrying-erase j start ds id n
