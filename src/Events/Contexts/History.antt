-- ===== src/Events/Contexts/History.antt =====
-- udpSend, udpClosed and onComplete, and histories of the event handler of
-- netfilter/NFEventHandler.cpp: no connection of the proxy without a context.
use qv_plugin_netfilter.Base.{
  ℕ, ◌≡◌, ◌≢◌, refl, ◌∙◌, inl, inr, Bool-cases, Option, none, some, Bool, true, false, List, arith,
  ◌==◌, if◌then◌else◌,
}
use qv_plugin_netfilter.Base.Map.{find, put, find-put, find-put_self, find-erase}
use qv_plugin_netfilter.Base.State.{
  modify, pure, ◌>>=◌, Triple, Triple-if, Triple-bind, Triple-pure, Triple-gets,
}
use qv_plugin_netfilter.System.{Os}
use qv_plugin_netfilter.Proxy.Data.{OvData}
use qv_plugin_netfilter.Proxy.Send
use qv_plugin_netfilter.Proxy.Receive.{UdpProxyHandler}
use qv_plugin_netfilter.Proxy.Connections.{create_proxy_connection}
use qv_plugin_netfilter.Proxy.Worker.{complete}
use qv_plugin_netfilter.Proxy.Isolation.{slot, udp_send-slot, delete_proxy_connection-slot}
use qv_plugin_netfilter.Proxy.Isolation.History.{complete-slot, create_proxy_connection-slot}
use qv_plugin_netfilter.Proxy.Isolation.Absent.{
  complete-absent, create_proxy_connection-absent, delete_proxy_connection-absent,
}
use qv_plugin_netfilter.Events.Data.{UdpConnInfo, UdpContext}
use qv_plugin_netfilter.Events.Handler.{EventHandler, Lookup, on_proxy}
use qv_plugin_netfilter.Events.Tcp.{tcp_send, tcp_receive, tcp_connected, tcp_closed}
use qv_plugin_netfilter.Events.Udp.{
  as_handler, udp_created, udp_closed, udp_receive, ensure_context, send_or_bypass, udp_send,
}
use qv_plugin_netfilter.Events.Contexts.{
  HasContexts, Contexts, Step, tcp_asks, tcp_opens, tcp_closes, tcp_receives, tcp_sends, udp_opens,
  udp_closes, udp_receives, udp_sends, completes, Reach, here, next, pure-Contexts, system-Contexts,
  tcp-Contexts, then-Contexts, gets-Contexts, tcp_connect_request-Contexts, tcp_receive_by-Contexts,
  tcp_send_by-Contexts,
}

module _ ⦃os : Os⦄ (id : ℕ) where
  -- The endpoint has its context.
  abbrev pub Ready : EventHandler → Type 0
  Ready s = HasContexts s × (find id s.udp_ctx_map ≢ none)

  pub proxy_send-Contexts :
      (buf addr : List ℕ) (addr_len : ℕ)
      → Triple Ready (on_proxy (Send.udp_send id buf addr addr_len)) (λ _. HasContexts)
  unfolding on_proxy
  proxy_send-Contexts buf addr addr_len = record {
    at = λ s h. record {
      at = λ j e. elim (Bool-cases (id == j)) [
        | inl same ↦ absurd (ground (arith, h.1))
        | inr other ↦
            (udp_send-slot id j (ground arith) buf addr addr_len).same s.udp_proxy ∙ h.0.at j e
      ];
    };
  }

  send_or_bypass-Contexts :
      (addr buf : List ℕ) (options : Option (List ℕ))
      → Triple Ready (send_or_bypass id addr buf options) (λ _. HasContexts)
  unfolding send_or_bypass
  send_or_bypass-Contexts addr buf options =
      Triple-bind (λ _. HasContexts) (proxy_send-Contexts buf addr _)
        λ sent.
          Triple-if sent (pure-Contexts tt)
            (then-Contexts (system-Contexts _) λ _. pure-Contexts tt)

  -- Between the two steps the connection may be there before its context.
  abbrev Made : Bool → EventHandler → Type 0
  Made made s =
      ((j : ℕ) → j ≢ id → find j s.udp_ctx_map ≡ none → slot j s.udp_proxy ≡ none)
      × (made ≡ false → slot id s.udp_proxy ≡ none)

  create-Made :
      Triple
        (λ s. HasContexts s × (find id s.udp_ctx_map ≡ none))
        (on_proxy (create_proxy_connection id))
        Made
  unfolding on_proxy
  create-Made = record {
    at = λ s h. (
      λ j n e. (create_proxy_connection-slot id j n).same s.udp_proxy ∙ h.0.at j e,
      (create_proxy_connection-absent id).at s.udp_proxy (h.0.at id h.1),
    );
  }

  put-Ready :
      (ctx : UdpContext)
      → Triple
          (Made true)
          (modify (λ s. record s { udp_ctx_map = put id ctx s.udp_ctx_map }))
          (λ _. Ready)
  unfolding modify
  put-Ready ctx = record {
    at = λ s h. (
      record {
        at = λ j e. elim (Bool-cases (id == j)) [
          | inl same ↦ absurd (ground (arith, find-put id j ctx s.udp_ctx_map))
          | inr other ↦ h.0 j (ground arith) (ground (arith, find-put id j ctx s.udp_ctx_map))
        ];
      },
      ground (arith, find-put_self id ctx s.udp_ctx_map),
    );
  }

  unmade-Contexts : (s : EventHandler) → Made false s → HasContexts s
  unmade-Contexts s h = record {
    at = λ j e. elim (Bool-cases (id == j)) [
      | inl same ↦ ground (arith, h.1 refl)
      | inr other ↦ h.0 j (ground arith) e
    ];
  }

  AsReady : Bool → EventHandler → Type 0
  AsReady ready s = if ready then Ready s else HasContexts s

  settled :
      (ctx : UdpContext) (made : Bool)
      → Triple
          (Made made)
          (if made
            then (modify (λ s. record s { udp_ctx_map = put id ctx s.udp_ctx_map }) >>= λ _.
                pure true)
            else pure false)
          AsReady
  unfolding AsReady
  settled ctx true = Triple-bind (λ _. Ready) (put-Ready ctx) λ _. Triple-pure true λ s h. h
  settled ctx false = Triple-pure false unmade-Contexts

  ensure_context-Ready :
      (options : Option (List ℕ)) (found : Option UdpContext)
      → Triple
          (λ s. HasContexts s × (find id s.udp_ctx_map ≡ found))
          (ensure_context id options found)
          AsReady
  unfolding ensure_context AsReady
  ensure_context-Ready options (some ctx) = Triple-pure true λ s h. (h.0, ground (arith, h.1))
  ensure_context-Ready options none = Triple-bind Made create-Made (settled _)

  send_ready-Contexts :
      (addr buf : List ℕ) (options : Option (List ℕ)) (ready : Bool)
      → Triple
          (AsReady ready)
          (if ready then send_or_bypass id addr buf options else pure tt)
          (λ _. HasContexts)
  unfolding AsReady
  send_ready-Contexts addr buf options true = send_or_bypass-Contexts addr buf options
  send_ready-Contexts addr buf options false = pure-Contexts tt

  udp_send-Contexts :
      (addr buf : List ℕ) (options : Option (List ℕ)) → Contexts (udp_send id addr buf options)
  unfolding udp_send
  udp_send-Contexts addr buf options =
      Triple-bind (λ found s. HasContexts s × (find id s.udp_ctx_map ≡ found))
        (Triple-gets _ λ s h. (h, refl))
        λ found.
          Triple-bind AsReady (ensure_context-Ready options found)
            (send_ready-Contexts addr buf options)

  -- First the connection goes, then the context.
  udp_closed-Contexts : ⦃lookup : Lookup⦄ (info : UdpConnInfo) → Contexts (udp_closed id info)
  unfolding udp_closed on_proxy modify
  udp_closed-Contexts info = then-Contexts (system-Contexts _) λ _.
      Triple-bind (λ _ s. HasContexts s × (slot id s.udp_proxy ≡ none))
        (record {
          at = λ s h. (
            record {
              at = λ j e. elim (Bool-cases (id == j)) [
                | inl same ↦ ground (arith, delete_proxy_connection-absent id s.udp_proxy)
                | inr other ↦
                    (delete_proxy_connection-slot id j (ground arith)).same s.udp_proxy ∙ h.at j e
              ];
            },
            delete_proxy_connection-absent id s.udp_proxy,
          );
        })
        λ _. record {
          at = λ s h. record {
            at = λ j e. elim (Bool-cases (id == j)) [
              | inl same ↦ ground (arith, h.1)
              | inr other ↦ h.0.at j (ground (arith, find-erase id j s.udp_ctx_map))
            ];
          };
        }

module _ ⦃os : Os⦄ where
  completed-Contexts :
      (h : UdpProxyHandler) (socket transferred : ℕ) (pov : OvData) (error : ℕ)
      → Contexts (on_proxy (complete h socket transferred pov error))
  unfolding on_proxy
  completed-Contexts h socket transferred pov error = record {
    at = λ s i. record {
      at = λ j e. elim (Bool-cases (pov.id == j)) [
        | inl same ↦
            ground
              (arith, (complete-absent pov h socket transferred error).at s.udp_proxy, i.at j e)
        | inr other ↦
            (complete-slot j pov (ground arith) h socket transferred error).same s.udp_proxy
            ∙ i.at j e
      ];
    };
  }

module _ ⦃os : Os⦄ ⦃lookup : Lookup⦄ where
  pub Step-Contexts : {s t : EventHandler} → Step s t → HasContexts s → HasContexts t
  unfolding tcp_receive tcp_send tcp_connected tcp_closed udp_created udp_receive
  Step-Contexts (tcp_asks id info s) = (tcp_connect_request-Contexts id info).at s
  Step-Contexts (tcp_opens id info s) =
      (then-Contexts (system-Contexts _) λ _. pure-Contexts tt).at s
  Step-Contexts (tcp_closes id info s) =
      (then-Contexts (system-Contexts _) λ _. tcp-Contexts _).at s
  Step-Contexts (tcp_receives id buf s) =
      (then-Contexts (gets-Contexts _) (tcp_receive_by-Contexts id buf)).at s
  Step-Contexts (tcp_sends id buf s) =
      (then-Contexts (gets-Contexts _) (tcp_send_by-Contexts id buf)).at s
  Step-Contexts (udp_opens id info s) =
      (then-Contexts (system-Contexts _) λ _. pure-Contexts tt).at s
  Step-Contexts (udp_closes id info s) = (udp_closed-Contexts id info).at s
  Step-Contexts (udp_receives id addr buf options s) =
      (then-Contexts (system-Contexts _) λ _. pure-Contexts tt).at s
  Step-Contexts (udp_sends id addr buf options s) = (udp_send-Contexts id addr buf options).at s
  Step-Contexts (completes socket transferred pov error s) =
      (completed-Contexts (as_handler s) socket transferred pov error).at s

  -- In every history of events and completions each connection of the proxy belongs to an endpoint
  -- that has a context, if it was so at the start: what comes from the relay on a connection finds
  -- the options to hand it to the application with.
  pub Reach-Contexts : {s t : EventHandler} → Reach s t → HasContexts s → HasContexts t
  Reach-Contexts here h = h
  Reach-Contexts (next r step) h = Step-Contexts step (Reach-Contexts r h)
