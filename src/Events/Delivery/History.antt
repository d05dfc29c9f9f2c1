-- ===== src/Events/Delivery/History.antt =====
-- Histories of the filter's events and of the proxy's completions: the datagrams that an application
-- sends on an endpoint, until it is closed.
use mathlib.Core.List.{append-nil}
use qv_plugin_netfilter.Base.{ℕ, ◌≡◌, ◌≢◌, refl, sym, ap, ◌∙◌, true, false, none, List, [], ◌++◌}
use qv_plugin_netfilter.Base.Map.{find}
use qv_plugin_netfilter.System.{Os, nf_udp_post_receive}
use qv_plugin_netfilter.System.Sent.{note}
use qv_plugin_netfilter.Proxy.Data.{OvData, ovt_connect}
use qv_plugin_netfilter.Proxy.Overlapped.{UdpProxy}
use qv_plugin_netfilter.Proxy.Worker.{complete}
use qv_plugin_netfilter.Proxy.Channel.{closed, ready, channels}
use qv_plugin_netfilter.Proxy.Channel.Submit.{IsAddressed}
use qv_plugin_netfilter.Proxy.Channel.Completions.{complete-Does}
use qv_plugin_netfilter.Proxy.Channel.Fifo.{committed, Answers-NotMade}
use qv_plugin_netfilter.Sockaddr.{address_length}
use qv_plugin_netfilter.Events.Handler.{EventHandler, Lookup, on_proxy}
use qv_plugin_netfilter.Events.Tcp.{tcp_send, tcp_receive, tcp_connected, tcp_closed}
use qv_plugin_netfilter.Events.Udp.{as_handler, udp_created, udp_receive}
use qv_plugin_netfilter.Events.Contexts.{
  Step, tcp_asks, tcp_opens, tcp_closes, tcp_receives, tcp_sends, udp_opens, udp_closes,
  udp_receives, udp_sends, completes, Reach, here, next,
}
use qv_plugin_netfilter.Events.Client.{as_handler-IsMute}
use qv_plugin_netfilter.Events.Delivery.{
  Carries, Does-Carries, more, Carrying-pure, Carrying-gets, Carrying-bind, Carrying-call,
  Carrying-tcp,
}
use qv_plugin_netfilter.Events.Delivery.Others.{
  tcp_receive_by-Carrying, tcp_send_by-Carrying, log_tcp-Carrying, log_udp-Carrying,
  tcp_connect_request-Carrying, udp_closed-Carrying,
}
use qv_plugin_netfilter.Events.Delivery.Send.{sent_for, udp_send-Carries}

module _ ⦃os : Os⦄ ⦃lookup : Lookup⦄ (j : ℕ) where
  -- The endpoint is not closed, datagrams are those of the driver, and no open connection is
  -- connected again.
  unfoldable pub IsFair : {s t : EventHandler} → Step s t → Type 0
  IsFair (udp_closes id info s) = id ≢ j
  IsFair (udp_sends id addr buf options s) = IsAddressed buf addr (address_length addr)
  IsFair (completes socket transferred pov error s) =
      pov.ov_type ≡ ovt_connect → error ≡ 0 → channels s.udp_proxy pov.id ≢ ready
  IsFair step = Unit

  unfoldable pub AreFair : {s t : EventHandler} → Reach s t → Type 0
  AreFair here = Unit
  AreFair (next r step) = AreFair r × IsFair step

  unfoldable pub handed : {s t : EventHandler} → Step s t → List (List ℕ)
  handed (udp_sends id addr buf options s) = sent_for j id addr buf
  handed step = []

  -- The datagrams of the application for the endpoint, in order, as the relay gets them.
  unfoldable pub all_handed : {s t : EventHandler} → Reach s t → List (List ℕ)
  all_handed here = []
  all_handed (next r step) = all_handed r ++ handed step

  completed-Carrying :
      (start : UdpProxy) (ds : List (List ℕ)) (socket transferred : ℕ) (pov : OvData) (error : ℕ)
      (s : EventHandler)
      → (pov.ov_type ≡ ovt_connect → error ≡ 0 → channels s.udp_proxy pov.id ≢ ready)
      → Carries j start ds s
      → Carries j start ds (on_proxy (complete (as_handler s) socket transferred pov error) s).1
  unfolding on_proxy
  completed-Carrying start ds socket transferred pov error s o c =
      let (a, answers, does) =
        complete-Does (as_handler-IsMute s) socket transferred pov error s.udp_proxy o in
      let (not_made, same) = Answers-NotMade j pov.id a answers in
      more j start (sym (ap (λ x. ds ++ x) same ∙ append-nil ds))
        (Does-Carries j start ds s c does not_made)

module _ ⦃os : Os⦄ ⦃lookup : Lookup⦄ (j : ℕ) (start : UdpProxy) (ds : List (List ℕ)) where
  -- What a step adds.
  Step-Carries :
      {s t : EventHandler} (step : Step s t)
      → IsFair j step
      → Carries j start ds s
      → Carries j start (ds ++ handed j step) t
  unfolding IsFair handed tcp_receive tcp_send tcp_connected tcp_closed udp_created udp_receive note
  Step-Carries (tcp_asks id info s) f c =
      more j start (append-nil ds) ((tcp_connect_request-Carrying j start ds id info).at s c)
  Step-Carries (tcp_opens id info s) f c = more j start (append-nil ds) (
      (Carrying-bind j start ds (log_tcp-Carrying j start ds true id info)
          λ _. Carrying-pure j start ds tt).at
        s c)
  Step-Carries (tcp_closes id info s) f c = more j start (append-nil ds) (
      (Carrying-bind j start ds (log_tcp-Carrying j start ds false id info)
          λ _. Carrying-tcp j start ds _).at
        s c)
  Step-Carries (tcp_receives id buf s) f c = more j start (append-nil ds) (
      (Carrying-bind j start ds (Carrying-gets j start ds _)
          (tcp_receive_by-Carrying j start ds id buf)).at
        s c)
  Step-Carries (tcp_sends id buf s) f c = more j start (append-nil ds) (
      (Carrying-bind j start ds (Carrying-gets j start ds _)
          (tcp_send_by-Carrying j start ds id buf)).at
        s c)
  Step-Carries (udp_opens id info s) f c = more j start (append-nil ds) (
      (Carrying-bind j start ds (log_udp-Carrying j start ds true id info)
          λ _. Carrying-pure j start ds tt).at
        s c)
  Step-Carries (udp_closes id info s) f c =
      more j start (append-nil ds) ((udp_closed-Carrying j start ds id info f).at s c)
  Step-Carries (udp_receives id addr buf options s) f c = more j start (append-nil ds) (
      (Carrying-bind j start ds
          (Carrying-call j start ds (nf_udp_post_receive id addr buf _ options) λ x. refl)
          λ _. Carrying-pure j start ds tt).at
        s c)
  Step-Carries (udp_sends id addr buf options s) f c =
      (udp_send-Carries j start ds id addr buf options f).at s c
  Step-Carries (completes socket transferred pov error s) f c =
      more j start (append-nil ds)
        (completed-Carrying j start ds socket transferred pov error s f c)

module _ ⦃os : Os⦄ ⦃lookup : Lookup⦄ (j : ℕ) where
  Reach-Carries :
      {s t : EventHandler} (r : Reach s t)
      → AreFair j r
      → find j s.udp_ctx_map ≢ none
      → Carries j s.udp_proxy (all_handed j r) t
  unfolding AreFair all_handed
  Reach-Carries here f known = record { known = known; carried = λ n. (n, sym (append-nil _)) }
  Reach-Carries {s} (next r step) f known =
      Step-Carries j s.udp_proxy (all_handed j r) step f.1 (Reach-Carries r f.0 known)

  -- In every history of events and completions in which an endpoint that has its context is not
  -- closed, and whose end finds it with a connection, the datagrams to it with which WSASendTo was
  -- called for the relay, and then those that wait, are at the end those of the start and then
  -- those that the application sent since, in order: none is passed over, none is in a second call,
  -- and none is overtaken. A call that the system refuses counts as well. This is so whatever the
  -- system answers and whatever happens on TCP connections and other endpoints. Each
  -- datagram has a payload and an address of 28 bytes, and no connect completes with success for an
  -- open connection.
  pub Reach-delivered :
      {s t : EventHandler} (r : Reach s t)
      → AreFair j r
      → find j s.udp_ctx_map ≢ none
      → channels t.udp_proxy j ≢ closed
      → committed j t.udp_proxy ≡ committed j s.udp_proxy ++ all_handed j r
  Reach-delivered r f known n = ((Reach-Carries r f known).carried n).1
