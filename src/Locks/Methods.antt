-- ===== src/Locks/Methods.antt =====
-- The methods of netfilter/UDPProxy.cpp and netfilter/NFEventHandler.cpp as code over the two
-- locks, and the threads that run them.
use qv_plugin_netfilter.Base.{ℕ, zero, suc}
use qv_plugin_netfilter.Locks.{
  Code, skip, seq, either, repeat, locked, wait_worker, event_lock, section_lock,
}

-- newOV_DATA and deleteOV_DATA
abbrev pub new_ov_data_code : Code
new_ov_data_code = locked section_lock skip

abbrev pub delete_ov_data_code : Code
delete_ov_data_code = locked section_lock skip

-- The ways an overlapped call goes: accepted, or refused; then postCompletion may fail too.
abbrev pub start_connect_code : Code
start_connect_code = seq new_ov_data_code (either skip delete_ov_data_code)

abbrev pub start_again : Code
start_again = either skip (either skip delete_ov_data_code)

-- startUdpReceive, startTcpReceive and startTcpSend; a receive may be given its object.
abbrev pub start_new : Code
start_new = seq new_ov_data_code start_again

-- udpSend: unknown, queued, refused, or sent, with the first receive or without.
abbrev pub udp_send_code : Code
udp_send_code = locked section_lock (
    either skip
      (seq new_ov_data_code (either (either skip delete_ov_data_code) (either skip start_new))))

abbrev pub delete_proxy_connection_code : Code
delete_proxy_connection_code = locked section_lock skip

-- The insertion, registerSocket and startConnect, and the deletion on failure.
abbrev pub create_proxy_connection_code : Code
create_proxy_connection_code = either skip (
    seq (locked section_lock skip)
      (seq (either skip start_connect_code) (either skip (locked section_lock skip))))

-- The block of the negotiation sends a message, or sends what was kept, or neither.
abbrev pub on_tcp_receive_complete_code : Code
on_tcp_receive_complete_code =
    either delete_ov_data_code (
      seq (locked section_lock (either skip (either start_new (repeat udp_send_code)))) start_again)

abbrev pub on_connect_complete_code : Code
on_connect_complete_code =
    either (seq delete_proxy_connection_code delete_ov_data_code)
      (locked section_lock (seq (either skip (seq start_new start_new)) delete_ov_data_code))

-- EventHandler::onUdpReceiveComplete
abbrev pub hand_back_code : Code
hand_back_code = locked event_lock skip

abbrev pub on_udp_receive_complete_code : Code
on_udp_receive_complete_code =
    either delete_ov_data_code (seq (either skip hand_back_code) start_again)

-- onComplete, with onTcpSendComplete and onUdpSendComplete
abbrev pub on_complete_code : Code
on_complete_code = either delete_ov_data_code (
    either on_udp_receive_complete_code
      (either on_connect_complete_code on_tcp_receive_complete_code))

-- EventHandler::udpCreated, udpClosed and udpSend; the other events take no lock.
abbrev pub udp_created_code : Code
udp_created_code = locked event_lock skip

abbrev pub udp_closed_code : Code
udp_closed_code = seq delete_proxy_connection_code (locked event_lock skip)

abbrev pub event_udp_send_code : Code
event_udp_send_code =
    seq (locked event_lock (either skip create_proxy_connection_code)) (either skip udp_send_code)

-- EventHandler::free: UDPProxy::free waits for the worker, and `lock` is taken after it.
abbrev pub free_code : Code
free_code = seq (either skip wait_worker) (locked event_lock skip)

-- IOCPService::workerThread
abbrev pub worker_thread_code : Code
worker_thread_code = repeat on_complete_code

-- The thread on which the plugin is started and stopped: a failed init frees too.
abbrev pub main_thread : Code
main_thread = repeat (either (either skip free_code) free_code)

-- A thread of the filter.
abbrev pub filter_thread : Code
filter_thread = repeat (either udp_created_code (either udp_closed_code event_udp_send_code))

unfoldable pub program : ℕ → Code
program zero = worker_thread_code
program (suc zero) = main_thread
program (suc (suc i)) = filter_thread
