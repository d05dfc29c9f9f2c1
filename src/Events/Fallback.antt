-- ===== src/Events/Fallback.antt =====
-- What follows when the connect of an endpoint's connection fails: onConnectComplete of
-- netfilter/UDPProxy.cpp, and then udpSend of netfilter/NFEventHandler.cpp.
use qv_plugin_netfilter.Base.{ℕ, ◌≡◌, refl, ap, ◌∙◌, false, Option, none, some, List, [], ◌∷◌, ◌==◌}
use qv_plugin_netfilter.Base.Map.{find}
use qv_plugin_netfilter.Base.State.{◌>>=◌, modify}
use qv_plugin_netfilter.System.{Os, perform, nf_udp_post_send}
use qv_plugin_netfilter.System.Sent.{sent}
use qv_plugin_netfilter.Proxy.Data.{OvData}
use qv_plugin_netfilter.Proxy.Overlapped.{delete_ov_data}
use qv_plugin_netfilter.Proxy.Receive.{on_connect_complete, delete_proxy_connection}
use qv_plugin_netfilter.Proxy.Isolation.{slot}
use qv_plugin_netfilter.Proxy.Isolation.Absent.{delete_proxy_connection-absent}
use qv_plugin_netfilter.Proxy.Channel.Calls.{delete_proxy_connection-out}
use qv_plugin_netfilter.Events.Data.{UdpContext}
use qv_plugin_netfilter.Events.Handler.{EventHandler, on_proxy, on_system}
use qv_plugin_netfilter.Events.Udp.{udp_send}
use qv_plugin_netfilter.Events.Routes.{udp_send-direct}

-- A datagram of the application, as the filter has it.
pub record Outgoing : Type 0 where
  pub remote_address : List ℕ
  pub buf : List ℕ
  pub options : Option (List ℕ)

module _ ⦃os : Os⦄ (id : ℕ) where
  unfoldable pub send_each : List Outgoing → EventHandler → EventHandler
  send_each [] s = s
  send_each (d ∷ ds) s = send_each ds (udp_send id d.remote_address d.buf d.options s).1

  -- The filter sends the datagrams itself.
  unfoldable pub post_each : List Outgoing → EventHandler → EventHandler
  post_each [] s = s
  post_each (d ∷ ds) s =
      post_each ds (on_system (perform (nf_udp_post_send id d.remote_address d.buf d.options)) s).1

  send_each-direct :
      (ds : List Outgoing) (ctx : UdpContext) (s : EventHandler)
      → find id s.udp_ctx_map ≡ some ctx
      → slot id s.udp_proxy ≡ none
      → send_each ds s ≡ post_each ds s
  unfolding send_each post_each on_system
  send_each-direct [] ctx s e a = refl
  send_each-direct (d ∷ ds) ctx s e a =
      ap (send_each ds) (udp_send-direct id d.remote_address d.buf d.options ctx s e a)
      ∙ send_each-direct ds ctx _ e a

-- The connect of the connection of an endpoint that has a context fails: the connection is gone, and
-- of the datagrams that waited in it none was passed to WSASendTo. All datagrams that the application
-- sends on the endpoint from then on, one after the other, are sent by the filter itself, each once,
-- unchanged and in order, and nothing else happens.
pub connect_failed-direct :
    ⦃os : Os⦄ (socket transferred : ℕ) (pov : OvData) (error : ℕ) (ctx : UdpContext)
    (ds : List Outgoing) (s : EventHandler)
    → (error == 0) ≡ false
    → find pov.id s.udp_ctx_map ≡ some ctx
    → (slot pov.id (on_proxy (on_connect_complete socket transferred pov error) s).1.udp_proxy
        ≡ none)
      × (sent
            (on_proxy (on_connect_complete socket transferred pov error) s).1.udp_proxy.world.trace
          ≡ sent s.udp_proxy.world.trace)
      × (send_each pov.id ds (on_proxy (on_connect_complete socket transferred pov error) s).1
          ≡ post_each pov.id ds (on_proxy (on_connect_complete socket transferred pov error) s).1)
unfolding on_proxy on_connect_complete ◌>>=◌ delete_ov_data modify delete_proxy_connection
connect_failed-direct socket transferred pov error ctx ds s f e = rw f (
  delete_proxy_connection-absent pov.id s.udp_proxy,
  delete_proxy_connection-out pov.id s.udp_proxy,
  send_each-direct pov.id ds ctx _ e (delete_proxy_connection-absent pov.id s.udp_proxy),
)
