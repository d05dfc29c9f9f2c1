-- ===== src/Proxy/Ownership/History.antt =====
-- Histories of the UDP proxy of netfilter/UDPProxy.cpp: the calls of its client and the completions
-- that the worker thread of netfilter/iocp.h takes off the port, in any order.
use qv_plugin_netfilter.Base.{ℕ, ◌<◌, ◌≡◌, refl, List, [], ◌∷◌, arith, count, count-remove}
use qv_plugin_netfilter.Base.Map.{Map}
use qv_plugin_netfilter.Base.State.{gets, modify, ◌>>=◌}
use qv_plugin_netfilter.System.{Os, perform, set_event, wait_for, close_handle, dequeued}
use qv_plugin_netfilter.System.Completions.{effect, in_flight}
use qv_plugin_netfilter.System.Quiet.{Quiet, Quiet-pure, Quiet-if, Quiet-bind, Quiet-perform}
use qv_plugin_netfilter.Sync
use qv_plugin_netfilter.Iocp
use qv_plugin_netfilter.Iocp.{IocpService, close_port}
use qv_plugin_netfilter.Proxy.Data.{OvData, ProxyData}
use qv_plugin_netfilter.Proxy.Overlapped.{UdpProxy, outside}
use qv_plugin_netfilter.Proxy.Send.{udp_send}
use qv_plugin_netfilter.Proxy.Receive.{UdpProxyHandler, delete_proxy_connection}
use qv_plugin_netfilter.Proxy.Connections.{create_proxy_connection, destroy_all, free_service, free}
use qv_plugin_netfilter.Proxy.Worker.{complete}
use qv_plugin_netfilter.Proxy.Ownership.{Tracked}
use qv_plugin_netfilter.Proxy.Ownership.Handlers.{IsQuiet, udp_send-Tracked}
use qv_plugin_netfilter.Proxy.Ownership.Connections.{
  destroy-Quiet, delete_proxy_connection-Tracked, create_proxy_connection-Tracked,
  on_complete-Tracked,
}

module _ ⦃os : Os⦄ where
  -- A completion comes only for an operation that is in flight.
  pub data Step (h : UdpProxyHandler) : UdpProxy → UdpProxy → Type 0 where
    creates : (id : ℕ) (s : UdpProxy) → Step h s (create_proxy_connection id s).1
    deletes : (id : ℕ) (s : UdpProxy) → Step h s (delete_proxy_connection id s).1
    sends :
        (id : ℕ) (buf addr : List ℕ) (addr_len : ℕ) (s : UdpProxy)
        → Step h s (udp_send id buf addr addr_len s).1
    completes :
        (socket transferred : ℕ) (pov : OvData) (error : ℕ) (s : UdpProxy)
        → 0 < count pov.ptr (in_flight s.world.trace)
        → Step h s (complete h socket transferred pov error s).1

  pub data Reach (h : UdpProxyHandler) (s : UdpProxy) : UdpProxy → Type 0 where
    here : Reach h s s
    next : {t u : UdpProxy} → Reach h s t → Step h t u → Reach h s u

  -- The object of a completion is in the hands of the worker, and nowhere else.
  pub dequeue-Tracked :
      (held : List ℕ) (pov : OvData) (s : UdpProxy)
      → Tracked held s
      → 0 < count pov.ptr (in_flight s.world.trace)
      → Tracked (pov.ptr ∷ held) (outside (perform (dequeued pov)) s).1
  unfolding outside perform in_flight effect
  dequeue-Tracked held pov s t h = record {
    once =
        λ p. ground (arith, t.once p, t.single p, count-remove pov.ptr p (in_flight s.world.trace));
    single = t.single;
    fresh = t.fresh;
  }

module _ ⦃os : Os⦄ {h : UdpProxyHandler} (q : IsQuiet h) where
  Step-Tracked : {s t : UdpProxy} → Step h s t → Tracked [] s → Tracked [] t
  unfolding complete ◌>>=◌
  Step-Tracked (creates id s) t = (create_proxy_connection-Tracked [] id).at s t
  Step-Tracked (deletes id s) t = (delete_proxy_connection-Tracked [] id).at s t
  Step-Tracked (sends id buf addr addr_len s) t = (udp_send-Tracked [] id buf addr addr_len).at s t
  Step-Tracked (completes socket transferred pov error s e) t =
      (on_complete-Tracked [] h socket transferred pov error q).at _ (dequeue-Tracked [] pov s t e)

  -- In every history, from a state in which each object of `m_ovDataSet` has one completion to come
  -- and no other completion is to come, that stays so: no object is lost, none is deleted twice,
  -- and no completion comes for an object that was deleted.
  pub Reach-Tracked : {s t : UdpProxy} → Reach h s t → Tracked [] s → Tracked [] t
  Reach-Tracked here v = v
  Reach-Tracked (next r st) v = Step-Tracked st (Reach-Tracked r v)

module _ ⦃os : Os⦄ where
  destroy_all-Quiet : (m : Map ProxyData) → Quiet (destroy_all m)
  unfolding destroy_all
  destroy_all-Quiet [] = Quiet-pure tt
  destroy_all-Quiet ((id, pd) ∷ rest) = Quiet-bind (destroy-Quiet pd) λ _. destroy_all-Quiet rest

  close-Quiet : (m_h : ℕ) → Quiet (Sync.close m_h)
  unfolding Sync.close effect
  close-Quiet m_h =
      Quiet-if _ (Quiet-pure m_h)
        (Quiet-bind (Quiet-perform (close_handle m_h) λ r ps. refl) λ _. Quiet-pure _)

  close_port-Quiet : (service : IocpService) → Quiet (close_port service)
  unfolding close_port effect
  close_port-Quiet service =
      Quiet-if _ (Quiet-pure service)
        (Quiet-bind (Quiet-perform (close_handle service.h_iocp) λ r ps. refl) λ _. Quiet-pure _)

  free_iocp-Quiet : (service : IocpService) → Quiet (Iocp.free service)
  unfolding Iocp.free effect
  free_iocp-Quiet service = Quiet-if _ (Quiet-pure service) (
      Quiet-bind (Quiet-perform (set_event service.stop_event) λ r ps. refl) λ _.
        Quiet-bind (Quiet-perform (wait_for service.worker_thread) λ r ps. refl)
          λ _. Quiet-bind (close-Quiet service.worker_thread) λ thread. close_port-Quiet _)

  -- After `free` the proxy has no object and no connection, and each operation that was in flight
  -- is so still: its object is deleted before its completion, while the system may write to it.
  pub free-in_flight :
      (s : UdpProxy)
      → ((free s).1.ov_data_set ≡ [])
        × ((free s).1.socket_map ≡ [])
        × (in_flight (free s).1.world.trace ≡ in_flight s.world.trace)
  unfolding free free_service outside ◌>>=◌ modify gets
  free-in_flight s = (
    refl,
    refl,
    ground (
      arith,
      (free_iocp-Quiet s.service).same_flight s.world,
      (destroy_all-Quiet s.socket_map).same_flight (Iocp.free s.service s.world).1,
    ),
  )
