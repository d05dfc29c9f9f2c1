-- ===== src/Examples/Setting.antt =====
-- A system whose calls all succeed, and the objects that the examples start from.
use qv_plugin_netfilter.Base.{ℕ, ◌+◌, List, [], ◌∷◌, ◌++◌, length, replicate}
use qv_plugin_netfilter.Base.State.{pure}
use qv_plugin_netfilter.System.{
  Os, Event, SysCall, World, wsa_socket, get_extension, create_port, associate, post_queued,
  begin_thread,
}
use qv_plugin_netfilter.Iocp.{IocpService}
use qv_plugin_netfilter.Sockaddr.{af_inet}
use qv_plugin_netfilter.Proxy.Overlapped.{UdpProxy}
use qv_plugin_netfilter.Proxy.Receive.{UdpProxyHandler}

-- Each socket is a new number; the overlapped calls answer 0.
abbrev pub answer : List Event → SysCall → ℕ
answer trace (wsa_socket kind) = 100 + length trace
answer trace (get_extension s) = 1
answer trace create_port = 60
answer trace begin_thread = 61
answer trace (associate port s) = 1
answer trace (post_queued port n s pov) = 1
answer trace _ = 0

instance abbrev pub willing : Os
willing = record { answer = answer }

abbrev pub world : World
world = record { trace = []; next_ptr = 4096 }

-- 127.0.0.1:1080
abbrev pub proxy_address : List ℕ
proxy_address = af_inet ∷ 0 ∷ 4 ∷ 56 ∷ 127 ∷ 0 ∷ 0 ∷ 1 ∷ replicate 20 0

abbrev pub service : IocpService
service = record { h_iocp = 60; stop_event = 50; worker_thread = 61; handler = 9 }

abbrev pub fresh_proxy : UdpProxy
fresh_proxy = record {
  service = service;
  ov_data_set = [];
  socket_map = [];
  connect_ex_ptr = 1;
  proxy_address = proxy_address;
  proxy_address_len = 16;
  user_name = [];
  user_password = [];
  world = world;
}

abbrev pub deaf : UdpProxyHandler
deaf = record { on_udp_receive_complete = λ id buf len addr addr_len. pure tt }

-- 8.8.8.8:53
abbrev pub resolver : List ℕ
resolver = 2 ∷ 0 ∷ 0 ∷ 53 ∷ 8 ∷ 8 ∷ 8 ∷ 8 ∷ replicate 20 0

abbrev pub resolver6 : List ℕ
resolver6 = 23 ∷ 0 ∷ 0 ∷ 53 ∷ replicate 19 0 ++ (1 ∷ replicate 4 0)
