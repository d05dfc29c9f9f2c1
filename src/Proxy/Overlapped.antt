-- ===== src/Proxy/Overlapped.antt =====
-- netfilter/UDPProxy.cpp: the state of the proxy, the set of its OV_DATA objects, and the calls
-- that start an overlapped operation.
use qv_plugin_netfilter.Base.{
  ℕ, zero, suc, ◌+◌, Bool, true, false, Option, none, some, List, [], ◌∷◌, if◌then◌else◌, remove,
}
use qv_plugin_netfilter.Base.Map.{Map}
use qv_plugin_netfilter.Base.State.{M, pure, gets, modify, ◌>>=◌, ◌>>◌}
use qv_plugin_netfilter.System.{
  World, Os, perform, failed, bind_any, connect_ex, wsa_send, wsa_recv, wsa_recv_from,
}
use qv_plugin_netfilter.Iocp.{IocpService, post_completion}
use qv_plugin_netfilter.Proxy.Data.{
  packet_size, nf_max_address_length, OvType, ovt_connect, ovt_tcp_send, ovt_tcp_receive,
  ovt_udp_receive, OvData, ProxyData,
}

-- class UDPProxy; `connect_ex_ptr` is m_pConnectEx. The critical section m_cs is not a field: here
-- each method is one step, and Proxy.Threads cuts the methods at the ends of their blocks under m_cs.
pub record UdpProxy : Type 0 where
  pub service : IocpService
  pub ov_data_set : List ℕ
  pub socket_map : Map ProxyData
  pub connect_ex_ptr : ℕ
  pub proxy_address : List ℕ
  pub proxy_address_len : ℕ
  pub user_name : List ℕ
  pub user_password : List ℕ
  pub world : World

-- A call of the system, or of the service, by a method of the proxy.
unfoldable pub outside : {A : Type 0} → M World A → M UdpProxy A
outside m s = let (a, w) = m s.world in (a, record s { world = w })

-- buffer.resize(n) of an empty vector.
unfoldable pub zeroed : ℕ → List ℕ
zeroed zero = []
zeroed (suc n) = 0 ∷ zeroed n

-- newOV_DATA; the callers set `id` and `ov_type` before anything reads them.
unfoldable pub new_ov_data : M UdpProxy OvData
new_ov_data s = (
  record {
    ptr = s.world.next_ptr;
    id = 0;
    ov_type = ovt_connect;
    remote_address = zeroed nf_max_address_length;
    remote_address_len = 0;
    buffer = [];
  },
  record s {
    ov_data_set = s.world.next_ptr ∷ s.ov_data_set;
    world = record s.world { next_ptr = s.world.next_ptr + 1 };
  },
)

unfoldable pub delete_ov_data : OvData → M UdpProxy (Unit {0})
delete_ov_data pov = modify (λ s. record s { ov_data_set = remove pov.ptr s.ov_data_set })

module _ ⦃os : Os⦄ where
  -- The tail of each failed start: queue a completion by hand, or give the object up.
  unfoldable pub repost : ℕ → OvData → M UdpProxy (Unit {0})
  repost socket pov = do
    service ← gets (λ s. s.service)
    posted ← outside (post_completion socket 0 pov service)
    if posted then pure tt else delete_ov_data pov

  unfoldable pub start_connect : ℕ → List ℕ → ℕ → ℕ → M UdpProxy Bool
  start_connect socket addr addr_len id = do
    fresh ← new_ov_data
    let pov = record fresh { ov_type = ovt_connect; id = id }
    outside (perform (bind_any socket))
    r ← outside (perform (connect_ex socket addr addr_len pov))
    if failed r then (do delete_ov_data pov; pure false) else pure true

  -- A `none` is the null pointer: a new object with a buffer of PACKET_SIZE.
  unfoldable pub receive_object : OvType → ℕ → Option OvData → M UdpProxy OvData
  receive_object t id none = do
    fresh ← new_ov_data
    pure (record fresh { ov_type = t; id = id; buffer = zeroed packet_size })
  receive_object t id (some pov) = pure pov

  unfoldable pub start_udp_receive : ℕ → ℕ → Option OvData → M UdpProxy Bool
  start_udp_receive socket id given = do
    pov' ← receive_object ovt_udp_receive id given
    let pov = record pov' { remote_address_len = nf_max_address_length }
    r ← outside (perform (wsa_recv_from socket pov))
    if failed r then (do repost socket pov; pure true) else pure true

  unfoldable pub start_tcp_receive : ℕ → ℕ → Option OvData → M UdpProxy Bool
  start_tcp_receive socket id given = do
    pov ← receive_object ovt_tcp_receive id given
    r ← outside (perform (wsa_recv socket pov))
    if failed r then (do repost socket pov; pure true) else pure true

  unfoldable pub start_tcp_send : ℕ → List ℕ → ℕ → M UdpProxy Bool
  start_tcp_send socket buf id = do
    fresh ← new_ov_data
    let pov = record fresh { id = id; ov_type = ovt_tcp_send; buffer = buf }
    r ← outside (perform (wsa_send socket pov))
    if failed r
        then (do repost socket (record pov { ov_type = ovt_tcp_receive; buffer = [] }); pure false)
        else pure true
