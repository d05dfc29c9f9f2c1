-- ===== src/ThreadPool.antt =====
-- netfilter/threadpool.h: ThreadPool, a number of threads that execute the jobs of one source.
pub mod Threads
use qv_plugin_netfilter.Base.{
  ℕ, zero, suc, Bool, true, false, ◌||◌, List, [], ◌∷◌, ◌++◌, ◌==◌, if◌then◌else◌,
}
use qv_plugin_netfilter.Base.Int.{ℤ, pos, negsuc}
use qv_plugin_netfilter.Base.State.{M, pure, ◌>>=◌, ◌>>◌}
use qv_plugin_netfilter.System.{
  World, Os, perform, invalid_handle_value, reset_event, set_event, begin_thread, processors,
  wait_for, close_handle, create_event, job_thread_started, job_execute, job_thread_stopped,
}
use qv_plugin_netfilter.Sync
use qv_plugin_netfilter.Sync.{new_auto_handle, attach, new_event_handle, destroy_event_handle}

-- `job_source` is an address.
pub record ThreadPool : Type 0 where
  pub job_source : ℕ
  pub threads : List ℕ
  pub job_available_event : ℕ
  pub stop_event : ℕ

unfoldable pub is_thread : ℕ → Bool
is_thread h = if h == 0 || h == invalid_handle_value then false else true

-- m_threads.push_back(hThread), if it is a thread
unfoldable pub keep_thread : ℕ → ThreadPool → ThreadPool
keep_thread h pool = if is_thread h then record pool { threads = pool.threads ++ h ∷ [] } else pool

module _ ⦃os : Os⦄ where
  -- The number of threads to create.
  unfoldable pub thread_count : ℤ → M World ℕ
  thread_count (pos (suc n)) = pure (suc n)
  thread_count _ = do n ← perform processors; pure (if n == 0 then 1 else n)

  unfoldable pub start_threads : ℕ → ThreadPool → M World ThreadPool
  start_threads zero pool = pure pool
  start_threads (suc n) pool = do h ← perform begin_thread; start_threads n (keep_thread h pool)

  -- The result is always true.
  unfoldable pub init : ℤ → ℕ → ThreadPool → M World ThreadPool
  init count job_source pool = do
    perform (reset_event pool.stop_event)
    n ← thread_count count
    start_threads n (record pool { job_source = job_source })

  unfoldable pub end_threads : List ℕ → M World (Unit {0})
  end_threads [] = pure tt
  end_threads (h ∷ hs) = do perform (wait_for h); perform (close_handle h); end_threads hs

  unfoldable pub free : ThreadPool → M World ThreadPool
  free pool = do
    perform (set_event pool.stop_event)
    end_threads pool.threads
    pure (record pool { threads = [] })

  unfoldable pub job_available : ThreadPool → M World (Unit {0})
  job_available pool = do perform (set_event pool.job_available_event); pure tt

  -- The loop, over what WaitForMultipleObjects returns; 1 is the stop event.
  unfoldable pub rounds : List ℕ → M World (Unit {0})
  rounds [] = pure tt
  rounds (r ∷ rs) =
      if r == 1
      then (do perform job_thread_stopped; pure tt)
      else (do perform job_execute; rounds rs)

  unfoldable pub thread_proc : List ℕ → M World (Unit {0})
  thread_proc rs = do perform job_thread_started; rounds rs

  -- ThreadPool()
  unfoldable pub new_thread_pool : M World ThreadPool
  new_thread_pool = do
    job_available_event ← new_event_handle
    stop_event ← perform (create_event true)
    pure (record {
      job_source = 0;
      threads = [];
      job_available_event = job_available_event;
      stop_event = attach new_auto_handle stop_event;
    })

  -- ~ThreadPool, and the destructors of its fields, the last one first
  unfoldable pub delete_thread_pool : ThreadPool → M World (Unit {0})
  delete_thread_pool pool = do
    freed ← free pool
    Sync.destroy freed.stop_event
    destroy_event_handle freed.job_available_event
    pure tt
