-- ===== src/Iocp/Restart.antt =====
-- IOCPService of netfilter/iocp.h: init and free, one after the other.
use qv_plugin_netfilter.Base.{ℕ, ◌≡◌, ◌≢◌, true, false, arith}
use qv_plugin_netfilter.Base.State.{pure, ◌>>=◌}
use qv_plugin_netfilter.System.{World, Os, perform, invalid_handle_value}
use qv_plugin_netfilter.Sync.{close, attach}
use qv_plugin_netfilter.Iocp.{IocpService, init, close_port, free}

-- No port and no thread.
pub record IsIdle (s : IocpService) : Type 0 where
  pub no_port : s.h_iocp ≡ invalid_handle_value
  pub no_thread : s.worker_thread ≡ invalid_handle_value

module _ ⦃os : Os⦄ where
  -- A service with a thread is idle after `free`.
  pub free-IsIdle :
      (s : IocpService) (w : World) → s.worker_thread ≢ invalid_handle_value → IsIdle (free s w).0
  unfolding free close close_port perform ◌>>=◌ pure
  free-IsIdle s w n = record { no_port = ground arith; no_thread = ground arith }

  -- An idle service that was initialised with success, but whose thread could not be created, stays
  -- as it is at `free`, which calls nothing, and every later `init` fails.
  pub init-stuck :
      (handler again : ℕ) (s : IocpService) (w : World)
      → IsIdle s
      → (init handler s w).0.0 ≡ true
      → (init handler s w).0.1.worker_thread ≡ invalid_handle_value
      → (free (init handler s w).0.1 (init handler s w).1
          ≡ ((init handler s w).0.1, (init handler s w).1))
        × ((init again (init handler s w).0.1 (init handler s w).1).0.0 ≡ false)
  unfolding init free attach perform ◌>>=◌ pure
  init-stuck handler again s w i ok t = (ground (arith, t), ground (arith, ok))
