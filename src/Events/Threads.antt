-- ===== src/Events/Threads.antt =====
-- The methods of netfilter/NFEventHandler.cpp as threads run them: those that call the proxy are cut
-- where the proxy's methods are cut, so that the worker thread may do its sections in between. The
-- mutex `lock` keeps the worker out of some of these places; here it is kept out of none.
pub mod Sequential
pub mod Interference
pub mod Phases
pub mod Filter
pub mod History
use qv_plugin_netfilter.Base.{ℕ, Bool, true, false, Option, none, some, List, ◌==◌, if◌then◌else◌}
use qv_plugin_netfilter.Base.Map.{find, put, erase}
use qv_plugin_netfilter.Base.State.{M, gets, modify}
use qv_plugin_netfilter.System.{Os, perform, nf_udp_post_send}
use qv_plugin_netfilter.Sockaddr.{af_inet, sa_family, sizeof_sockaddr_in, sizeof_sockaddr_in6}
use qv_plugin_netfilter.Proxy.Data.{
  OvType, ovt_connect, ovt_tcp_send, ovt_tcp_receive, ovt_udp_send, ovt_udp_receive, OvData,
}
use qv_plugin_netfilter.Proxy.Overlapped.{UdpProxy, outside, delete_ov_data}
use qv_plugin_netfilter.Proxy.Send
use qv_plugin_netfilter.Proxy.Receive.{deliver, delete_proxy_connection}
use qv_plugin_netfilter.Proxy.Threads.{Task, finished, section, atomic, ◌>>=◌, ◌>>◌}
use qv_plugin_netfilter.Proxy.Threads.Sections.{
  start_udp_receive_task, create_proxy_connection_task, on_connect_complete_task,
  on_tcp_receive_complete_task,
}
use qv_plugin_netfilter.Events.Data.{UdpConnInfo, UdpContext, new_udp_context}
use qv_plugin_netfilter.Events.Handler.{EventHandler, Lookup, on_proxy, on_system, log_udp}
use qv_plugin_netfilter.Events.Udp.{as_handler}

-- A call of the proxy, section by section.
unfoldable pub on_proxy_task : {R : Type 0} → Task UdpProxy R → Task EventHandler R
on_proxy_task (finished a) = finished a
on_proxy_task (section m k) = section (on_proxy m) (λ a. on_proxy_task (k a))

module _ ⦃os : Os⦄ where
  -- The block of udpSend under `lock`, where the endpoint has no context yet.
  unfoldable pub ensure_context_task :
      ℕ → Option (List ℕ) → Option UdpContext → Task EventHandler Bool
  ensure_context_task id options (some ctx) = finished true
  ensure_context_task id options none = do
    made ← on_proxy_task (create_proxy_connection_task id)
    if made
        then (do
          atomic (
              modify
                (λ s. record s { udp_ctx_map = put id (new_udp_context options) s.udp_ctx_map }))
          finished true)
        else finished false

  unfoldable pub send_or_bypass_task :
      ℕ → List ℕ → List ℕ → Option (List ℕ) → Task EventHandler (Unit {0})
  send_or_bypass_task id remote_address buf options = do
    sent ← atomic (
        on_proxy (
          Send.udp_send id buf remote_address (
            if sa_family remote_address == af_inet
            then sizeof_sockaddr_in
            else sizeof_sockaddr_in6)))
    if sent then finished tt else (do
      atomic (on_system (perform (nf_udp_post_send id remote_address buf options)))
      finished tt)

  unfoldable pub udp_send_task :
      ℕ → List ℕ → List ℕ → Option (List ℕ) → Task EventHandler (Unit {0})
  udp_send_task id remote_address buf options = do
    found ← atomic (gets (λ s. find id s.udp_ctx_map))
    ready ← ensure_context_task id options found
    if ready then send_or_bypass_task id remote_address buf options else finished tt

  -- udpClosed: what is deleted first is under m_cs, what is erased then is under `lock`.
  unfoldable pub udp_closed_task :
      ⦃lookup : Lookup⦄ → ℕ → UdpConnInfo → Task EventHandler (Unit {0})
  udp_closed_task id info = do
    atomic (on_system (log_udp false id info))
    atomic (on_proxy (delete_proxy_connection id))
    atomic (modify (λ s. record s { udp_ctx_map = erase id s.udp_ctx_map }))

  -- onUdpReceiveComplete of the proxy: what it hands back goes to the contexts that are there then.
  unfoldable pub hand_back_task : ℕ → ℕ → OvData → Task EventHandler (Unit {0})
  hand_back_task socket transferred pov =
      if transferred == 0 then atomic (on_proxy (delete_ov_data pov)) else (do
        atomic (λ s. on_proxy (outside (deliver (as_handler s) transferred pov.id pov.buffer)) s)
        on_proxy_task (start_udp_receive_task socket pov)
        finished tt)

  unfoldable pub complete_task : OvType → ℕ → ℕ → OvData → ℕ → Task EventHandler (Unit {0})
  complete_task ovt_udp_send socket transferred pov error = atomic (on_proxy (delete_ov_data pov))
  complete_task ovt_udp_receive socket transferred pov error = hand_back_task socket transferred pov
  complete_task ovt_connect socket transferred pov error =
      on_proxy_task (on_connect_complete_task socket pov error)
  complete_task ovt_tcp_send socket transferred pov error = atomic (on_proxy (delete_ov_data pov))
  complete_task ovt_tcp_receive socket transferred pov error =
      on_proxy_task (on_tcp_receive_complete_task socket transferred pov)
