-- ===== src/Events/Delivery/Send.antt =====
-- udpSend of netfilter/NFEventHandler.cpp hands the datagram over, for its endpoint.
use mathlib.Core.List.{append-nil}
use qv_plugin_netfilter.Base.{
  ℕ, ◌≡◌, ◌≢◌, refl, sym, ap, ◌∙◌, Bool, true, false, Option, none, some, List, [], ◌∷◌, ◌++◌,
  arith, ◌==◌, if◌then◌else◌,
}
use qv_plugin_netfilter.Base.Map.{find, put}
use qv_plugin_netfilter.Base.State.{
  pure, modify, ◌>>=◌, Triple, Triple-if, Triple-bind, Triple-pure, Triple-gets,
}
use qv_plugin_netfilter.System.{Os, nf_udp_post_send}
use qv_plugin_netfilter.System.Sent.{note}
use qv_plugin_netfilter.Proxy.Overlapped.{UdpProxy}
use qv_plugin_netfilter.Proxy.Send
use qv_plugin_netfilter.Proxy.Send.{relay_datagram}
use qv_plugin_netfilter.Proxy.Channel.Balance.{NotMade, submitted}
use qv_plugin_netfilter.Proxy.Channel.Submit.{IsAddressed, submit-Does}
use qv_plugin_netfilter.Sockaddr.{address_length}
use qv_plugin_netfilter.Events.Data.{UdpContext}
use qv_plugin_netfilter.Events.Handler.{EventHandler, on_proxy}
use qv_plugin_netfilter.Events.Udp.{ensure_context, send_or_bypass, udp_send}
use qv_plugin_netfilter.Events.Delivery.{
  Carries, Does-Carries, more, Carrying-pure, Carrying-bind, Carrying-call, Carrying-put,
}
use qv_plugin_netfilter.Events.Delivery.Others.{create-Carrying}

-- A datagram of the application, for one endpoint.
abbrev pub sent_for : ℕ → ℕ → List ℕ → List ℕ → List (List ℕ)
sent_for j id addr buf = if id == j then relay_datagram addr buf ∷ [] else []

module _ ⦃os : Os⦄ (j : ℕ) (start : UdpProxy) (ds : List (List ℕ)) (id : ℕ) where
  -- With a context, or for another endpoint.
  abbrev MayGo : Bool → EventHandler → Type 0
  MayGo may s = Carries j start ds s × (id ≡ j → may ≡ true)

  created_context :
      (ctx : UdpContext) (made : Bool)
      → id ≢ j
      → Triple
          (Carries j start ds)
          (if made
            then (modify (λ s. record s { udp_ctx_map = put id ctx s.udp_ctx_map }) >>= λ _.
                pure true)
            else pure false)
          MayGo
  created_context ctx made n =
      Triple-if made
        (Triple-bind (λ _. Carries j start ds) (Carrying-put j start ds id ctx)
          λ _. Triple-pure true λ s c. (c, λ e. refl))
        (Triple-pure false λ s c. (c, λ e. absurd (n e)))

  ensure_context-MayGo :
      (options : Option (List ℕ)) (found : Option UdpContext)
      → Triple
          (λ s. Carries j start ds s × (find id s.udp_ctx_map ≡ found))
          (ensure_context id options found)
          MayGo
  unfolding ensure_context
  ensure_context-MayGo options (some ctx) = Triple-pure true λ s h. (h.0, λ e. refl)
  ensure_context-MayGo options none = record {
    at = λ s (c, absent).
        let n : id ≢ j = λ e. c.known (ap (λ i. find i s.udp_ctx_map) (sym e) ∙ absent) in
        (Triple-bind (λ _. Carries j start ds) (create-Carrying j start ds id n)
            λ made. created_context _ made n).at
          s c;
  }

  submit-Carries :
      (addr buf : List ℕ) (addr_len : ℕ)
      → IsAddressed buf addr addr_len
      → Triple
          (Carries j start ds)
          (on_proxy (Send.udp_send id buf addr addr_len))
          (λ _. Carries j start (ds ++ sent_for j id addr buf))
  unfolding on_proxy NotMade submitted
  submit-Carries addr buf addr_len a = record {
    at = λ s c. Does-Carries j start ds s c (submit-Does id buf addr addr_len s.udp_proxy a) tt;
  }

  send_or_bypass-Carries :
      (addr buf : List ℕ) (options : Option (List ℕ))
      → IsAddressed buf addr (address_length addr)
      → Triple
          (Carries j start ds)
          (send_or_bypass id addr buf options)
          (λ _. Carries j start (ds ++ sent_for j id addr buf))
  unfolding send_or_bypass note
  send_or_bypass-Carries addr buf options a =
      Triple-bind (λ _. Carries j start (ds ++ sent_for j id addr buf))
        (submit-Carries addr buf _ a)
        λ gone. Triple-if gone (Carrying-pure j start _ tt) (
          Carrying-bind j start _
            (Carrying-call j start _ (nf_udp_post_send id addr buf options) λ x. refl)
            λ _. Carrying-pure j start _ tt)

  send_ready-Carries :
      (addr buf : List ℕ) (options : Option (List ℕ)) (may : Bool)
      → IsAddressed buf addr (address_length addr)
      → Triple
          (MayGo may)
          (if may then send_or_bypass id addr buf options else pure tt)
          (λ _. Carries j start (ds ++ sent_for j id addr buf))
  unfolding pure
  send_ready-Carries addr buf options true a = record {
    at = λ s h. (send_or_bypass-Carries addr buf options a).at s h.0;
  }
  send_ready-Carries addr buf options false a = record {
    at = λ s h.
        let other : (id == j) ≡ false = ground (arith, h.1) in
        more j start (rw other (append-nil ds)) h.0;
  }

  pub udp_send-Carries :
      (addr buf : List ℕ) (options : Option (List ℕ))
      → IsAddressed buf addr (address_length addr)
      → Triple
          (Carries j start ds)
          (udp_send id addr buf options)
          (λ _. Carries j start (ds ++ sent_for j id addr buf))
  unfolding udp_send
  udp_send-Carries addr buf options a =
      Triple-bind (λ found s. Carries j start ds s × (find id s.udp_ctx_map ≡ found))
        (Triple-gets _ λ s c. (c, refl))
        λ found.
          Triple-bind MayGo (ensure_context-MayGo options found)
            λ may. send_ready-Carries addr buf options may a
