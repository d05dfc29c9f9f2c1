-- ===== src/Events/Contexts.antt =====
-- netfilter/NFEventHandler.cpp with its UDP proxy: histories of the filter's events and of the
-- proxy's completions, and the contexts of the UDP endpoints in them.
pub mod History
use qv_plugin_netfilter.Base.{
  ℕ, ◌≡◌, ◌≢◌, refl, sym, ap, subst, ◌∙◌, inl, inr, Bool-cases, Option, none, some, Bool, true,
  false, List, [], ◌∷◌, arith, ◌==◌, if◌then◌else◌,
}
use qv_plugin_netfilter.Base.Map.{find, put, erase, find-put, find-put_self, find-erase}
use qv_plugin_netfilter.Base.State.{
  M, modify, gets, pure, ◌>>=◌, Triple, Triple-if, Triple-bind, Triple-pure, Triple-gets,
}
use qv_plugin_netfilter.System.{World, Os}
use qv_plugin_netfilter.Proxy.Data.{OvData}
use qv_plugin_netfilter.Proxy.Overlapped.{UdpProxy}
use qv_plugin_netfilter.Proxy.Send
use qv_plugin_netfilter.Proxy.Receive.{delete_proxy_connection}
use qv_plugin_netfilter.Proxy.Connections.{create_proxy_connection}
use qv_plugin_netfilter.Proxy.Worker.{complete}
use qv_plugin_netfilter.Proxy.Isolation.{slot, udp_send-slot, delete_proxy_connection-slot}
use qv_plugin_netfilter.Proxy.Isolation.History.{complete-slot, create_proxy_connection-slot}
use qv_plugin_netfilter.Proxy.Isolation.Absent.{
  complete-absent, create_proxy_connection-absent, delete_proxy_connection-absent,
}
use qv_plugin_netfilter.Events.Data.{TcpConnInfo, UdpConnInfo, UdpContext, OriginalConnInfo}
use qv_plugin_netfilter.Events.Handler.{EventHandler, Lookup, on_proxy, on_system, log_udp}
use qv_plugin_netfilter.Events.Tcp.{
  tcp_connect_request, tcp_send, tcp_send_by, tcp_receive, tcp_receive_by, flush_pended,
  tcp_connected, tcp_closed,
}
use qv_plugin_netfilter.Events.Udp.{
  as_handler, udp_created, udp_closed, udp_receive, ensure_context, send_or_bypass, udp_send,
}

-- Each connection of the proxy belongs to an endpoint with a context.
pub record HasContexts (s : EventHandler) : Type 0 where
  pub at : (j : ℕ) → find j s.udp_ctx_map ≡ none → slot j s.udp_proxy ≡ none

module _ ⦃os : Os⦄ ⦃lookup : Lookup⦄ where
  pub data Step : EventHandler → EventHandler → Type 0 where
    tcp_asks :
        (id : ℕ) (info : TcpConnInfo) (s : EventHandler) → Step s (tcp_connect_request id info s).1
    tcp_opens :
        (id : ℕ) (info : TcpConnInfo) (s : EventHandler) → Step s (tcp_connected id info s).1
    tcp_closes : (id : ℕ) (info : TcpConnInfo) (s : EventHandler) → Step s (tcp_closed id info s).1
    tcp_receives : (id : ℕ) (buf : List ℕ) (s : EventHandler) → Step s (tcp_receive id buf s).1
    tcp_sends : (id : ℕ) (buf : List ℕ) (s : EventHandler) → Step s (tcp_send id buf s).1
    udp_opens : (id : ℕ) (info : UdpConnInfo) (s : EventHandler) → Step s (udp_created id info s).1
    udp_closes : (id : ℕ) (info : UdpConnInfo) (s : EventHandler) → Step s (udp_closed id info s).1
    udp_receives :
        (id : ℕ) (addr buf : List ℕ) (options : Option (List ℕ)) (s : EventHandler)
        → Step s (udp_receive id addr buf options s).1
    udp_sends :
        (id : ℕ) (addr buf : List ℕ) (options : Option (List ℕ)) (s : EventHandler)
        → Step s (udp_send id addr buf options s).1
    completes :
        (socket transferred : ℕ) (pov : OvData) (error : ℕ) (s : EventHandler)
        → Step s (on_proxy (complete (as_handler s) socket transferred pov error) s).1

  pub data Reach (s : EventHandler) : EventHandler → Type 0 where
    here : Reach s s
    next : {t u : EventHandler} → Reach s t → Step t u → Reach s u

-- A method that keeps the invariant.
abbrev pub Contexts : {A : Type 0} → M EventHandler A → Type 0
Contexts m = Triple HasContexts m (λ _. HasContexts)

module _ where
  pub pure-Contexts : {A : Type 0} (a : A) → Contexts (pure a)
  pure-Contexts a = Triple-pure a λ s h. h

  pub system-Contexts : {A : Type 0} (m : M World A) → Contexts (on_system m)
  unfolding on_system
  system-Contexts m = record { at = λ s h. record { at = h.at } }

  pub tcp-Contexts :
      (f : EventHandler → List (ℕ × OriginalConnInfo))
      → Contexts (modify (λ s. record s { conn_info_map = f s }))
  unfolding modify
  tcp-Contexts f = record { at = λ s h. record { at = h.at } }

  pub then-Contexts :
      {A B : Type 0} {m : M EventHandler A} {f : A → M EventHandler B}
      → Contexts m
      → ((a : A) → Contexts (f a))
      → Contexts (m >>= f)
  then-Contexts hm hf = Triple-bind (λ _. HasContexts) hm hf

  pub gets-Contexts : {A : Type 0} (f : EventHandler → A) → Contexts (gets f)
  gets-Contexts f = Triple-gets f λ s h. h

module _ ⦃os : Os⦄ where
  pub tcp_connect_request-Contexts :
      (id : ℕ) (info : TcpConnInfo) → Contexts (tcp_connect_request id info)
  unfolding tcp_connect_request
  tcp_connect_request-Contexts id info =
      then-Contexts (tcp-Contexts _) λ _. then-Contexts (gets-Contexts _) λ _. pure-Contexts _

  flush_pended-Contexts : (id : ℕ) (kept : List ℕ) → Contexts (flush_pended id kept)
  unfolding flush_pended
  flush_pended-Contexts id [] = pure-Contexts tt
  flush_pended-Contexts id (b ∷ bs) = then-Contexts (system-Contexts _) λ _. pure-Contexts tt

  pub tcp_receive_by-Contexts :
      (id : ℕ) (buf : List ℕ) (found : Option OriginalConnInfo)
      → Contexts (tcp_receive_by id buf found)
  unfolding tcp_receive_by
  tcp_receive_by-Contexts id buf none =
      then-Contexts (system-Contexts _) λ _. then-Contexts (system-Contexts _) λ _. pure-Contexts tt
  tcp_receive_by-Contexts id buf (some info) =
      then-Contexts (flush_pended-Contexts id info.pended_sends) λ _. tcp-Contexts _

  pub tcp_send_by-Contexts :
      (id : ℕ) (buf : List ℕ) (found : Option OriginalConnInfo)
      → Contexts (tcp_send_by id buf found)
  unfolding tcp_send_by
  tcp_send_by-Contexts id buf none = then-Contexts (system-Contexts _) λ _. pure-Contexts tt
  tcp_send_by-Contexts id buf (some info) =
      Triple-if _ (pure-Contexts tt) (then-Contexts (system-Contexts _) λ _. tcp-Contexts _)
