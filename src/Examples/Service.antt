-- ===== src/Examples/Service.antt =====
-- A completion service that starts and stops, and one whose thread cannot be created.
use qv_plugin_netfilter.Base.{ℕ, ◌≡◌, refl, false, arith, List, []}
use qv_plugin_netfilter.System.{Os, Event, SysCall, create_port, perform}
use qv_plugin_netfilter.Base.State.{pure, ◌>>=◌}
use qv_plugin_netfilter.Iocp.{new_iocp_service, init, free}
use qv_plugin_netfilter.Iocp.Restart.{IsIdle, free-IsIdle, init-stuck}
use qv_plugin_netfilter.Base.Int.{pos}
use qv_plugin_netfilter.Sync.{new_auto_handle, of_handle, assign}
use qv_plugin_netfilter.Sync.Owners.{
  Objects, HasOwners, closes, adopts, assigns, unused, and_then, Uses-HasOwners,
}
use qv_plugin_netfilter.Sync.Owners.Moves.{store}
use qv_plugin_netfilter.ThreadPool
use qv_plugin_netfilter.ThreadPool.{ThreadPool}
use qv_plugin_netfilter.ThreadPool.Threads.{Ran, free-init}
use qv_plugin_netfilter.Examples.Setting.{willing, service, world}

free-IsIdle_example : IsIdle (free service world).0
free-IsIdle_example = free-IsIdle service world (omega arith)

abbrev no_threads : List Event → SysCall → ℕ
no_threads trace create_port = 60
no_threads trace _ = 0

abbrev exhausted : Os
exhausted = record { answer = no_threads }

new-IsIdle : IsIdle (new_iocp_service 50)
new-IsIdle = record { no_port = refl; no_thread = refl }

init-stuck_example :
    (free ⦃os = exhausted⦄
        (init ⦃os = exhausted⦄ 9 (new_iocp_service 50) world).0.1
        (init ⦃os = exhausted⦄ 9 (new_iocp_service 50) world).1
      ≡ (
        (init ⦃os = exhausted⦄ 9 (new_iocp_service 50) world).0.1,
        (init ⦃os = exhausted⦄ 9 (new_iocp_service 50) world).1,
      ))
    × ((init ⦃os = exhausted⦄ 9
          (init ⦃os = exhausted⦄ 9 (new_iocp_service 50) world).0.1
          (init ⦃os = exhausted⦄ 9 (new_iocp_service 50) world).1).0.0
        ≡ false)
unfolding init perform ◌>>=◌ pure
init-stuck_example =
    init-stuck ⦃os = exhausted⦄ 9 9 (new_iocp_service 50) world new-IsIdle refl refl

abbrev idle_pool : ThreadPool
idle_pool = record { job_source = 0; threads = []; job_available_event = 51; stop_event = 52 }

free-init_example :
    (new : List ℕ) × Ran new new world
      (ThreadPool.free
        (ThreadPool.init (pos 2) 9 idle_pool world).0
        (ThreadPool.init (pos 2) 9 idle_pool world).1).1
    × ((ThreadPool.free
          (ThreadPool.init (pos 2) 9 idle_pool world).0
          (ThreadPool.init (pos 2) 9 idle_pool world).1).0.threads
        ≡ [])
free-init_example = free-init (pos 2) 9 idle_pool world refl

-- Two objects, of which the second takes the handle over and closes it.
abbrev empty : Objects
empty = record { handle = λ i. new_auto_handle; world = world }

empty-HasOwners : HasOwners empty
unfolding closes
empty-HasOwners = record {
  alone = λ i k same n. absurd (n refl);
  alive = λ i n. absurd (n refl);
  once = λ h. omega arith;
}

abbrev adopted : Objects
adopted = record empty { handle = store 0 (of_handle 60) empty.handle }

abbrev taken : Objects
taken = record {
  handle =
      store 1 (assign (adopted.handle 0) (adopted.handle 1) world).0.1
        (store 0 (assign (adopted.handle 0) (adopted.handle 1) world).0.0 adopted.handle);
  world = (assign (adopted.handle 0) (adopted.handle 1) world).1;
}

Uses-HasOwners_example : HasOwners taken
unfolding closes
Uses-HasOwners_example =
    Uses-HasOwners
      (and_then (and_then unused (adopts 0 60 empty refl (λ i e. ground (arith, e)) refl))
        (assigns 0 1 adopted (omega arith)))
      empty-HasOwners
