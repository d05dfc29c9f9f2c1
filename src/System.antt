-- ===== src/System.antt =====
-- The systems that the program calls: Winsock, the kernel's objects, and the filtering SDK. They
-- are not part of the repository: `Os` answers each call by a function of all calls so far and of
-- the call itself, and every theorem holds for all such functions. What was called, and what was
-- answered, stays in the `trace` of the world, the latest event first.
pub mod Completions
pub mod Quiet
pub mod Sent
use qv_plugin_netfilter.Base.{ℕ, Bool, not, ◌&&◌, Option, List, ◌∷◌, ◌==◌}
use qv_plugin_netfilter.Base.Int.{ℤ}
use qv_plugin_netfilter.Base.State.{M}
use qv_plugin_netfilter.Proxy.Data.{OvData}
use qv_plugin_netfilter.Events.Data.{LogEntry}
use qv_plugin_netfilter.Redirector.Rules.{NfRule, NfRuleEx}

abbrev pub invalid_handle_value : ℕ
invalid_handle_value = 0xffff_ffff_ffff_ffff

abbrev pub error_io_pending : ℕ
error_io_pending = 997

abbrev pub sock_stream : ℕ
sock_stream = 1

abbrev pub sock_dgram : ℕ
sock_dgram = 2

-- The answers: of `wsa_socket` the socket, of the calls that create an object its handle, of
-- `get_extension` the pointer; of `processors` their number; of the overlapped calls 0 or the code of WSAGetLastError(); of
-- `associate` and `post_queued` 0 for failure; of
-- `nf_init` its status; of the others a code that the program ignores.
pub data SysCall : Type 0 where
  wsa_socket : ℕ → SysCall
  close_socket : ℕ → SysCall
  shutdown_both : ℕ → SysCall
  tcp_no_delay : ℕ → SysCall
  keep_alive : ℕ → SysCall
  bind_any : ℕ → SysCall
  get_extension : ℕ → SysCall
  connect_ex : ℕ → List ℕ → ℕ → OvData → SysCall
  wsa_send : ℕ → OvData → SysCall
  wsa_recv : ℕ → OvData → SysCall
  wsa_send_to : ℕ → OvData → List ℕ → ℕ → SysCall
  wsa_recv_from : ℕ → OvData → SysCall
  create_port : SysCall
  associate : ℕ → ℕ → SysCall
  post_queued : ℕ → ℕ → ℕ → OvData → SysCall
  begin_thread : SysCall
  processors : SysCall
  -- the methods of ThreadJobSource
  job_thread_started : SysCall
  job_execute : SysCall
  job_thread_stopped : SysCall
  wait_for : ℕ → SysCall
  set_event : ℕ → SysCall
  reset_event : ℕ → SysCall
  close_handle : ℕ → SysCall
  -- the flag is `bManualReset`
  create_event : Bool → SysCall
  -- the critical section at an address
  init_section : ℕ → SysCall
  delete_section : ℕ → SysCall
  enter_section : ℕ → SysCall
  leave_section : ℕ → SysCall
  -- the worker thread takes a completion off the port
  dequeued : OvData → SysCall
  nf_tcp_post_send : ℕ → List ℕ → SysCall
  nf_tcp_post_receive : ℕ → List ℕ → SysCall
  nf_tcp_disable_filtering : ℕ → SysCall
  nf_udp_post_send : ℕ → List ℕ → List ℕ → Option (List ℕ) → SysCall
  nf_udp_post_receive : ℕ → List ℕ → List ℕ → ℤ → Option (List ℕ) → SysCall
  do_log : LogEntry → SysCall
  wsa_startup : SysCall
  wsa_cleanup : SysCall
  nf_init : SysCall
  nf_free : SysCall
  -- the flag is `toHead`
  nf_add_rule : NfRule → Bool → SysCall
  nf_add_rule_ex : NfRuleEx → Bool → SysCall

pub record Event : Type 0 where
  pub call : SysCall
  pub answer : ℕ

-- `next_ptr` is the allocator of the program: `new` returns an address that no object had before.
pub record World : Type 0 where
  pub trace : List Event
  pub next_ptr : ℕ

pub record Os : Type 0 where
  pub answer : List Event → SysCall → ℕ

-- The trace after a call.
abbrev pub log : Event → World → World
log e w = record w { trace = e ∷ w.trace }

module _ ⦃os : Os⦄ where
  unfoldable pub perform : SysCall → M World ℕ
  perform c w = (os.answer w.trace c, log (record { call = c; answer = os.answer w.trace c }) w)

-- An overlapped call failed: no completion will come.
abbrev pub failed : ℕ → Bool
failed r = not (r == 0) && not (r == error_io_pending)
