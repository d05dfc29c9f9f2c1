-- ===== src/Examples/Streams.antt =====
-- TCP connections to 8.8.8.8:53 and to an IPv6 address, and the rules of the filter.
use qv_plugin_netfilter.Base.{
  ℕ, ◌≡◌, refl, List, [], ◌∷◌, ◌++◌, arith, map, replicate, none, some, true, false, ◌==◌,
  if◌then◌else◌,
}
use qv_plugin_netfilter.Base.Map.{find}
use qv_plugin_netfilter.System.{nf_init}
use qv_plugin_netfilter.Events.Data.{TcpConnInfo, UdpConnInfo, UdpContext}
use qv_plugin_netfilter.Events.Handler.{EventHandler, Lookup, address_size, on_proxy}
use qv_plugin_netfilter.Events.Tcp.{same_address, tcp_connect_request, tcp_receive}
use qv_plugin_netfilter.Events.Posted.{
  posted, requests, send_all, tcp_receive-send_all, tcp_receive-send_all_ipv6,
}
use qv_plugin_netfilter.Events.Contexts.{HasContexts}
use qv_plugin_netfilter.Events.Redirects.{tcp_connect_request-redirects}
use qv_plugin_netfilter.Events.Fallback.{Outgoing, send_each, post_each, connect_failed-direct}
use qv_plugin_netfilter.Proxy.Data.{ovt_connect, OvData, new_proxy_data}
use qv_plugin_netfilter.Proxy.Receive.{on_connect_complete}
use qv_plugin_netfilter.Proxy.Isolation.{slot}
use qv_plugin_netfilter.System.Sent.{sent}
use qv_plugin_netfilter.Redirector.{install, nf_status_success}
use qv_plugin_netfilter.Redirector.Rules.{Inet, private_rules, proxy_all}
use qv_plugin_netfilter.Redirector.Order.{
  TakesRules, driver_rules, stacked, plain, extended, install-order,
}
use qv_plugin_netfilter.Plugin.{default_rules}
use qv_plugin_netfilter.Examples.Setting.{
  willing, fresh_proxy, proxy_address, world, resolver, resolver6,
}

abbrev pub events : EventHandler
events = record {
  conn_info_map = [];
  udp_proxy = fresh_proxy;
  udp_ctx_map = [];
  proxy_address = proxy_address;
}

abbrev asked : List ℕ → TcpConnInfo
asked addr = record {
  filtering_flag = 0;
  process_id = 1;
  local_address = replicate 28 0;
  remote_address = addr;
}

abbrev chunks : List (List ℕ)
chunks = (1 ∷ 2 ∷ []) ∷ (3 ∷ []) ∷ []

tcp_receive-send_all_example :
    (posted 7
        (tcp_receive 7 [] (send_all 7 chunks (tcp_connect_request 7 (asked resolver) events).1).1).1
      ≡ posted 7 events ++ (requests resolver chunks ++ (1 ∷ 2 ∷ 3 ∷ [])))
    × (find 7
          (tcp_receive 7 []
            (send_all 7 chunks (tcp_connect_request 7 (asked resolver) events).1).1).1.conn_info_map
        ≡ none)
tcp_receive-send_all_example =
    tcp_receive-send_all 7 (asked resolver) chunks [] events (omega arith)

tcp_receive-send_all_ipv6_example :
    posted 7
      (tcp_receive 7 [] (send_all 7 chunks (tcp_connect_request 7 (asked resolver6) events).1).1).1
    ≡ posted 7 events
tcp_receive-send_all_ipv6_example =
    tcp_receive-send_all_ipv6 7 (asked resolver6) chunks [] events refl

-- An inet_pton that knows no address.
instance abbrev blind : Inet
blind = record { inet_pton = λ family text. none }

willing-TakesRules : TakesRules willing
willing-TakesRules = record { plain_taken = λ trace r b. refl; extended_taken = λ trace r b. refl }

install-order_example : driver_rules (install default_rules world).1.trace ≡ (
    if willing.answer [] nf_init == nf_status_success
    then stacked default_rules (driver_rules world.trace ++ map plain private_rules)
      ++ map extended proxy_all
    else driver_rules world.trace)
install-order_example = install-order willing-TakesRules default_rules world

-- A system that resolves nothing.
instance abbrev pub unresolved : Lookup
unresolved = record {
  string_to_address = λ text family. none;
  address_to_string = λ address size. [];
  process_name = λ process. (false, []);
}

abbrev pub endpoint : UdpConnInfo
endpoint = record { process_id = 1; local_address = replicate 28 0 }

pub events-HasContexts : HasContexts events
unfolding find
events-HasContexts = record { at = λ j e. refl }

tcp_connect_request-redirects_example :
    (same_address
        (address_size (tcp_connect_request 7 (asked resolver) events).0.remote_address)
        (tcp_connect_request 7 (asked resolver) events).0.remote_address
        proxy_address
      ≡ true)
    × (find 7 (tcp_connect_request 7 (asked resolver) events).1.conn_info_map
        ≡ some (record { remote_address = resolver; pended_sends = [] }))
    × ((tcp_connect_request 7
          (tcp_connect_request 7 (asked resolver) events).0
          (tcp_connect_request 7 (asked resolver) events).1).0
        ≡ (tcp_connect_request 7 (asked resolver) events).0)
tcp_connect_request-redirects_example = tcp_connect_request-redirects 7 7 (asked resolver) events

-- Endpoint 7 with its context.
abbrev known : UdpContext
known = record { m_options = none }

-- Its connection waits for its connect, with a datagram in the queue.
abbrev connecting : EventHandler
connecting = record events {
  udp_proxy = record fresh_proxy {
    socket_map =
        (
          7,
          record new_proxy_data {
            tcp_socket = 100;
            udp_socket = 101;
            udp_send_packets =
                record { buffer = 9 ∷ []; remote_address = resolver; remote_address_len = 16 } ∷ [];
          },
        )
        ∷ [];
  };
  udp_ctx_map = (7, known) ∷ [];
}

abbrev refused : OvData
refused = record {
  ptr = 4096;
  id = 7;
  ov_type = ovt_connect;
  remote_address = [];
  remote_address_len = 0;
  buffer = [];
}

abbrev outgoing : List Outgoing
outgoing =
    record { remote_address = resolver; buf = 1 ∷ []; options = none }
    ∷ record { remote_address = resolver6; buf = 2 ∷ 3 ∷ []; options = none }
    ∷ []

-- ERROR_CONNECTION_REFUSED
connect_failed-direct_example :
    (slot 7 (on_proxy (on_connect_complete 100 0 refused 1225) connecting).1.udp_proxy ≡ none)
    × (sent (on_proxy (on_connect_complete 100 0 refused 1225) connecting).1.udp_proxy.world.trace
        ≡ [])
    × (send_each 7 outgoing (on_proxy (on_connect_complete 100 0 refused 1225) connecting).1
        ≡ post_each 7 outgoing (on_proxy (on_connect_complete 100 0 refused 1225) connecting).1)
unfolding find sent
connect_failed-direct_example =
    connect_failed-direct 100 0 refused 1225 known outgoing connecting refl refl
