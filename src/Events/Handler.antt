-- ===== src/Events/Handler.antt =====
-- class EventHandler of netfilter/NFEventHandler.hpp: its state, its logging, init and free.
use qv_plugin_netfilter.Base.{
  ℕ, Bool, true, false, Option, none, some, List, [], ◌==◌, if◌then◌else◌, replicate,
}
use qv_plugin_netfilter.Base.Bytes.{overwrite}
use qv_plugin_netfilter.Base.Map.{Map}
use qv_plugin_netfilter.Base.State.{M, pure, gets, modify, ◌>>=◌, ◌>>◌}
use qv_plugin_netfilter.System.{World, Os, perform, do_log}
use qv_plugin_netfilter.Sockaddr.{
  af_inet, af_inet6, sa_family, sizeof_sockaddr_in, sizeof_sockaddr_in6,
}
use qv_plugin_netfilter.Proxy.Data.{nf_max_address_length}
use qv_plugin_netfilter.Proxy.Overlapped.{UdpProxy}
use qv_plugin_netfilter.Proxy.Connections
use qv_plugin_netfilter.Events.Data.{
  tcp, udp, TcpConnInfo, UdpConnInfo, OriginalConnInfo, UdpContext,
}

-- g_proxyAddress is `proxy_address`. The mutex `lock` is not a field: each method is one step.
pub record EventHandler : Type 0 where
  pub conn_info_map : Map OriginalConnInfo
  pub udp_proxy : UdpProxy
  pub udp_ctx_map : Map UdpContext
  pub proxy_address : List ℕ

-- Functions of Windows and of the SDK that read nothing of the program's state.
pub record Lookup : Type 0 where
  -- WSAStringToAddress, by string and family: what is written, or failure
  pub string_to_address : List ℕ → ℕ → Option (List ℕ)
  -- WSAAddressToString
  pub address_to_string : List ℕ → ℕ → List ℕ
  -- nf_getProcessNameFromKernel: the result, and the string in the buffer after the call
  pub process_name : ℕ → Bool × List ℕ

-- A call of the proxy, and of the system, by a method of the event handler.
unfoldable pub on_proxy : {A : Type 0} → M UdpProxy A → M EventHandler A
on_proxy m s = let (a, p) = m s.udp_proxy in (a, record s { udp_proxy = p })

unfoldable pub on_system : {A : Type 0} → M World A → M EventHandler A
on_system m s =
    let (a, w) = m s.udp_proxy.world in
    (a, record s { udp_proxy = record s.udp_proxy { world = w } })

-- The size of an address by its family, as most of the methods compute it.
abbrev pub address_size : List ℕ → ℕ
address_size a = if sa_family a == af_inet6 then sizeof_sockaddr_in6 else sizeof_sockaddr_in

module _ ⦃os : Os⦄ where
  -- EventHandler(logfunc) with its UDP proxy: what `doLog` does is the call do_log of the system.
  unfoldable pub new_event_handler : List ℕ → UdpProxy → EventHandler
  new_event_handler proxy_address udp_proxy = record {
    conn_info_map = [];
    udp_proxy = udp_proxy;
    udp_ctx_map = [];
    proxy_address = proxy_address;
  }

  -- ~EventHandler
  unfoldable pub delete_event_handler : ℕ → M EventHandler (Unit {0})
  delete_event_handler cs = on_proxy (Connections.delete_udp_proxy cs)

  -- The events that do nothing.
  unfoldable pub tcp_can_receive : ℕ → M EventHandler (Unit {0})
  tcp_can_receive id = pure tt

  unfoldable pub tcp_can_send : ℕ → M EventHandler (Unit {0})
  tcp_can_send id = pure tt

  unfoldable pub udp_connect_request : ℕ → M EventHandler (Unit {0})
  udp_connect_request id = pure tt

  unfoldable pub udp_can_receive : ℕ → M EventHandler (Unit {0})
  udp_can_receive id = pure tt

  unfoldable pub udp_can_send : ℕ → M EventHandler (Unit {0})
  udp_can_send id = pure tt

  unfoldable pub thread_start : M EventHandler (Unit {0})
  thread_start = pure tt

  unfoldable pub thread_end : M EventHandler (Unit {0})
  thread_end = pure tt

  unfoldable pub free : M EventHandler (Unit {0})
  free = do on_proxy Connections.free; modify (λ s. record s { udp_ctx_map = [] })

module _ ⦃os : Os⦄ ⦃lookup : Lookup⦄ where
  unfoldable pub log_tcp : Bool → ℕ → TcpConnInfo → M World ℕ
  log_tcp connected id info =
      let (found, name) = lookup.process_name info.process_id in
      perform (
        do_log (record {
          id = id;
          protocol = tcp;
          is_opening = connected;
          local_addr =
              lookup.address_to_string info.local_address (address_size info.local_address);
          remote_addr =
              lookup.address_to_string info.remote_address (address_size info.remote_address);
          process_id = info.process_id;
          process_name = if found then name else [];
        }))

  unfoldable pub log_udp : Bool → ℕ → UdpConnInfo → M World ℕ
  log_udp created id info =
      let (found, name) = lookup.process_name info.process_id in
      perform (
        do_log (record {
          id = id;
          protocol = udp;
          is_opening = created;
          local_addr =
              lookup.address_to_string info.local_address (address_size info.local_address);
          remote_addr = [];
          process_id = info.process_id;
          process_name = if found then [] else name;
        }))

  -- The two attempts to parse the address of the proxy.
  unfoldable pub parse_address : List ℕ → Option (List ℕ)
  parse_address address = elim (lookup.string_to_address address af_inet) [
    | some a ↦ some a
    | none ↦ lookup.string_to_address address af_inet6
  ]

  unfoldable pub init_proxy : ℕ → Option (List ℕ) → List ℕ → List ℕ → M EventHandler Bool
  init_proxy self none user_name user_password = pure false
  init_proxy self (some a) user_name user_password = do
    modify (λ s. record s { proxy_address = overwrite s.proxy_address a })
    proxy_address ← gets (λ s. s.proxy_address)
    started ←
        on_proxy
          (Connections.init self proxy_address (address_size proxy_address) user_name user_password)
    if started then pure true else (do free; pure false)

  -- `self` is the address of the UDP proxy.
  unfoldable pub init : ℕ → List ℕ → List ℕ → List ℕ → M EventHandler Bool
  init self address user_name user_password = do
    modify (λ s. record s { proxy_address = replicate nf_max_address_length 0 })
    init_proxy self (parse_address address) user_name user_password
