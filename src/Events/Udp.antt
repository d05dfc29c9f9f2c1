-- ===== src/Events/Udp.antt =====
-- netfilter/NFEventHandler.cpp: the UDP events, and the way back from the proxy.
use qv_plugin_netfilter.Base.{ℕ, Bool, true, false, Option, none, some, List, ◌==◌, if◌then◌else◌}
use qv_plugin_netfilter.Base.Int.{ℤ, pos}
use qv_plugin_netfilter.Base.Map.{Map, find, put, erase}
use qv_plugin_netfilter.Base.State.{M, pure, gets, modify, ◌>>=◌, ◌>>◌}
use qv_plugin_netfilter.System.{World, Os, perform, nf_udp_post_send, nf_udp_post_receive}
use qv_plugin_netfilter.Sockaddr.{af_inet, sa_family, sizeof_sockaddr_in, sizeof_sockaddr_in6}
use qv_plugin_netfilter.Proxy.Send
use qv_plugin_netfilter.Proxy.Receive.{UdpProxyHandler, delete_proxy_connection}
use qv_plugin_netfilter.Proxy.Connections.{create_proxy_connection}
use qv_plugin_netfilter.Base.{length}
use qv_plugin_netfilter.Events.Data.{UdpConnInfo, UdpContext, new_udp_context}
use qv_plugin_netfilter.Events.Handler.{EventHandler, Lookup, on_proxy, on_system, log_udp}

module _ ⦃os : Os⦄ where
  unfoldable pub hand_back : Option UdpContext → ℕ → List ℕ → ℤ → List ℕ → M World (Unit {0})
  hand_back none id buf len remote_address = pure tt
  hand_back (some ctx) id buf len remote_address = do
    perform (nf_udp_post_receive id remote_address buf len ctx.m_options)
    pure tt

  unfoldable pub on_udp_receive_complete :
      Map UdpContext → ℕ → List ℕ → ℤ → List ℕ → ℕ → M World (Unit {0})
  on_udp_receive_complete ctx_map id buf len remote_address remote_address_len =
      hand_back (find id ctx_map) id buf len remote_address

  -- The event handler as the client of the proxy.
  abbrev pub as_handler : EventHandler → UdpProxyHandler
  as_handler s = record { on_udp_receive_complete = on_udp_receive_complete s.udp_ctx_map }

  unfoldable pub udp_created : ⦃lookup : Lookup⦄ → ℕ → UdpConnInfo → M EventHandler (Unit {0})
  udp_created id info = do on_system (log_udp true id info); pure tt

  unfoldable pub udp_closed : ⦃lookup : Lookup⦄ → ℕ → UdpConnInfo → M EventHandler (Unit {0})
  udp_closed id info = do
    on_system (log_udp false id info)
    on_proxy (delete_proxy_connection id)
    modify (λ s. record s { udp_ctx_map = erase id s.udp_ctx_map })

  unfoldable pub udp_receive : ℕ → List ℕ → List ℕ → Option (List ℕ) → M EventHandler (Unit {0})
  udp_receive id remote_address buf options = do
    on_system (perform (nf_udp_post_receive id remote_address buf (pos (length buf)) options))
    pure tt

  -- The first datagram of an endpoint makes its connection: whether there is one now.
  unfoldable pub ensure_context : ℕ → Option (List ℕ) → Option UdpContext → M EventHandler Bool
  ensure_context id options (some ctx) = pure true
  ensure_context id options none = do
    made ← on_proxy (create_proxy_connection id)
    if made
        then (do
          modify (λ s. record s { udp_ctx_map = put id (new_udp_context options) s.udp_ctx_map })
          pure true)
        else pure false

  -- Through the proxy, or directly if the proxy has no connection for the endpoint.
  unfoldable pub send_or_bypass : ℕ → List ℕ → List ℕ → Option (List ℕ) → M EventHandler (Unit {0})
  send_or_bypass id remote_address buf options = do
    sent ← on_proxy (
        Send.udp_send id buf remote_address
          (if sa_family remote_address == af_inet then sizeof_sockaddr_in else sizeof_sockaddr_in6))
    if sent
        then pure tt
        else (do on_system (perform (nf_udp_post_send id remote_address buf options)); pure tt)

  unfoldable pub udp_send : ℕ → List ℕ → List ℕ → Option (List ℕ) → M EventHandler (Unit {0})
  udp_send id remote_address buf options = do
    found ← gets (λ s. find id s.udp_ctx_map)
    ready ← ensure_context id options found
    if ready then send_or_bypass id remote_address buf options else pure tt
