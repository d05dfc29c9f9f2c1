-- ===== src/Iocp.antt =====
-- netfilter/iocp.h: the completion port with its one worker thread. The objects that the service
-- waits on are handles; the thread itself takes part as the caller of `on_complete` in Proxy.
pub mod Restart
use qv_plugin_netfilter.Base.{ℕ, Bool, true, false, not, ◌==◌, if◌then◌else◌}
use qv_plugin_netfilter.Base.State.{M, pure, ◌>>=◌, ◌>>◌}
use qv_plugin_netfilter.Proxy.Data.{OvData}
use qv_plugin_netfilter.System.{
  World, Os, perform, invalid_handle_value, create_port, associate, post_queued, begin_thread,
  wait_for, set_event, reset_event, close_handle,
}
use qv_plugin_netfilter.Sync
use qv_plugin_netfilter.Sync.{attach, close, destroy_event_handle}

pub record IocpService : Type 0 where
  pub h_iocp : ℕ
  pub stop_event : ℕ
  pub worker_thread : ℕ
  pub handler : ℕ

-- The constructor; `e` is the handle that AutoEventHandle() got from CreateEvent.
abbrev pub new_iocp_service : ℕ → IocpService
new_iocp_service e = record {
  h_iocp = invalid_handle_value;
  stop_event = e;
  worker_thread = invalid_handle_value;
  handler = 0;
}

module _ ⦃os : Os⦄ where
  unfoldable pub init : ℕ → IocpService → M World (Bool × IocpService)
  init handler s =
      if not (s.h_iocp == invalid_handle_value)
      then pure (false, record s { handler = handler })
      else (do
        port ← perform create_port
        if port == invalid_handle_value
            then pure (false, record s { handler = handler; h_iocp = port })
            else (do
              perform (reset_event s.stop_event)
              thread ← perform begin_thread
              pure (
                true,
                record s {
                  handler = handler;
                  h_iocp = port;
                  worker_thread =
                      if thread == 0 then s.worker_thread else attach s.worker_thread thread;
                },
              )))

  unfoldable pub close_port : IocpService → M World IocpService
  close_port s =
      if s.h_iocp == invalid_handle_value
      then pure s
      else (do perform (close_handle s.h_iocp); pure (record s { h_iocp = invalid_handle_value }))

  unfoldable pub free : IocpService → M World IocpService
  free s = if s.worker_thread == invalid_handle_value then pure s else (do
    perform (set_event s.stop_event)
    perform (wait_for s.worker_thread)
    thread ← close s.worker_thread
    close_port (record s { worker_thread = thread }))

  unfoldable pub register_socket : ℕ → IocpService → M World Bool
  register_socket socket s = do r ← perform (associate s.h_iocp socket); pure (not (r == 0))

  unfoldable pub post_completion : ℕ → ℕ → OvData → IocpService → M World Bool
  post_completion socket transferred pov s = do
    r ← perform (post_queued s.h_iocp transferred socket pov)
    pure (not (r == 0))

  -- ~IOCPService, which is the destructors of its fields, the last one first. It neither stops the
  -- thread nor closes the port.
  unfoldable pub destroy_iocp_service : IocpService → M World (Unit {0})
  destroy_iocp_service s = do
    Sync.destroy s.worker_thread
    destroy_event_handle s.stop_event
    pure tt
