-- ===== src/Examples/Lifecycle.antt =====
-- A core that runs, with a connection and a context, is stopped or started again.
use qv_plugin_netfilter.Base.{ℕ, ◌≡◌, refl, false, some, none, List, [], arith}
use qv_plugin_netfilter.Base.Int.{ℤ, pos}
use qv_plugin_netfilter.Events.Handler.{Lookup, parse_address}
use qv_plugin_netfilter.Redirector.{start, stop}
use qv_plugin_netfilter.Redirector.Rules.{Inet}
use qv_plugin_netfilter.Redirector.Lifecycle.{Runs, IsCleared, rules_of, stop-clears}
use qv_plugin_netfilter.Redirector.Lifecycle.Restart.{start-running}
use qv_plugin_netfilter.Plugin.{default_rules}
use qv_plugin_netfilter.Examples.Setting.{willing, proxy_address}
use qv_plugin_netfilter.Examples.Datagrams.{handler}

-- Every string is the address of the proxy, and no number has digits.
instance abbrev pub always : Lookup
always = record {
  string_to_address = λ text family. some proxy_address;
  address_to_string = λ address size. [];
  process_name = λ process. (false, []);
}

instance abbrev pub nowhere : Inet
nowhere = record { inet_pton = λ family text. none }

abbrev pub no_digits : ℤ → List ℕ
no_digits n = []

handler-Runs : Runs handler
handler-Runs = record { has_port = λ e. ground (arith, e); has_thread = λ e. ground (arith, e) }

stop-clears_example :
    IsCleared (stop handler).1 × ((stop handler).1.conn_info_map ≡ handler.conn_info_map)
stop-clears_example = stop-clears handler handler-Runs

start-running_example :
    ((start no_digits 9 default_rules [] (pos 1080) [] [] handler).0 ≡ false)
    × IsCleared (start no_digits 9 default_rules [] (pos 1080) [] [] handler).1
    × (rules_of (start no_digits 9 default_rules [] (pos 1080) [] [] handler).1.udp_proxy.world
        ≡ rules_of handler.udp_proxy.world)
unfolding parse_address
start-running_example =
    start-running no_digits 9 default_rules [] (pos 1080) [] [] proxy_address handler handler-Runs
      refl
