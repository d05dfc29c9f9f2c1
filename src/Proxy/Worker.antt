-- ===== src/Proxy/Worker.antt =====
-- netfilter/iocp.h: IOCPService::workerThread, with the UDP proxy as the handler of the service.
use qv_plugin_netfilter.Base.{ℕ, Bool, List, [], ◌∷◌, if◌then◌else◌}
use qv_plugin_netfilter.Base.State.{M, pure, ◌>>◌}
use qv_plugin_netfilter.System.{Os, perform, dequeued}
use qv_plugin_netfilter.Proxy.Data.{OvData}
use qv_plugin_netfilter.Proxy.Overlapped.{UdpProxy, outside}
use qv_plugin_netfilter.Proxy.Receive.{UdpProxyHandler}
use qv_plugin_netfilter.Proxy.Connections.{on_complete}

-- What GetQueuedCompletionStatus yields: a packet with the error of its operation, which is 0 where
-- the call returns TRUE, or a timeout.
pub data Dequeue : Type 0 where
  packet : (socket transferred : ℕ) → OvData → (error : ℕ) → Dequeue
  timeout : Dequeue

module _ ⦃os : Os⦄ where
  -- The worker takes a completion off the port, and calls the proxy with its object.
  unfoldable pub complete : UdpProxyHandler → ℕ → ℕ → OvData → ℕ → M UdpProxy (Unit {0})
  complete h socket transferred pov error = do
    outside (perform (dequeued pov))
    on_complete h socket transferred pov error

  unfoldable pub worker_round : UdpProxyHandler → Dequeue → M UdpProxy (Unit {0})
  worker_round h (packet socket transferred pov error) = complete h socket transferred pov error
  worker_round h timeout = pure tt

  -- The loop, over what the rounds meet: a result of the port, and whether the stop event is set
  -- at the end of the round.
  unfoldable pub worker_thread : UdpProxyHandler → List (Dequeue × Bool) → M UdpProxy (Unit {0})
  worker_thread h [] = pure tt
  worker_thread h ((d, stop) ∷ rounds) = do
    worker_round h d
    if stop then pure tt else worker_thread h rounds
