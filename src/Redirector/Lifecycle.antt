-- ===== src/Redirector/Lifecycle.antt =====
-- NetFilterCore of netfilter/SocksRedirector.cpp with its event handler and UDP proxy: what Stop
-- leaves.
pub mod Restart
use qv_plugin_netfilter.Base.{
  ℕ, ◌≡◌, ◌≢◌, refl, sym, ap, subst, ◌∙◌, inl, inr, Bool-cases, Option, none, some, Bool, true,
  false, List, [], ◌∷◌, ◌++◌, arith, ◌==◌, if◌then◌else◌,
}
use qv_plugin_netfilter.Base.Int.{ℤ}
use qv_plugin_netfilter.Base.Map.{Map}
use qv_plugin_netfilter.Base.State.{
  M, pure, gets, modify, ◌>>=◌, Keeps, Keeps-if, Keeps-pure, Keeps-gets, Keeps-bind, Triple,
  Triple-if, Triple-bind, Triple-pure, Triple-gets,
}
use qv_plugin_netfilter.System.{
  World, Os, SysCall, perform, invalid_handle_value, wsa_socket, get_extension, close_socket,
  shutdown_both, close_handle, set_event, wait_for, nf_free, sock_stream,
}
use qv_plugin_netfilter.Sync
use qv_plugin_netfilter.Sync.{close}
use qv_plugin_netfilter.Iocp
use qv_plugin_netfilter.Iocp.{IocpService, close_port}
use qv_plugin_netfilter.Iocp.Restart.{IsIdle, free-IsIdle}
use qv_plugin_netfilter.Proxy.Data.{ProxyData}
use qv_plugin_netfilter.Proxy.Overlapped.{UdpProxy, outside}
use qv_plugin_netfilter.Proxy.Receive.{destroy}
use qv_plugin_netfilter.Proxy.Connections
use qv_plugin_netfilter.Proxy.Connections.{init_extensions, init_service, free_service, destroy_all}
use qv_plugin_netfilter.Events.Handler
use qv_plugin_netfilter.Events.Handler.{
  EventHandler, Lookup, on_proxy, on_system, parse_address, init_proxy,
}
use qv_plugin_netfilter.Redirector.{start, stop}
use qv_plugin_netfilter.Redirector.Rules.{FilterRule, Inet}
use qv_plugin_netfilter.Redirector.Order.{DriverRule, driver_rules, place, driver_rules-skip}

abbrev pub rules_of : World → List DriverRule
rules_of w = driver_rules w.trace

module _ ⦃os : Os⦄ where
  pub perform-rules :
      (c : SysCall)
      → ((rules : List DriverRule) → place c rules ≡ rules)
      → Keeps rules_of (perform c)
  perform-rules c n = record { same = λ w. driver_rules-skip c w n }

  destroy-rules : (pd : ProxyData) → Keeps rules_of (destroy pd)
  unfolding destroy place
  destroy-rules pd =
      Keeps-bind
        (Keeps-if _ (Keeps-pure tt) (
          Keeps-bind (perform-rules (shutdown_both _) λ r. refl)
            λ _. Keeps-bind (perform-rules (close_socket _) λ r. refl) λ _. Keeps-pure tt))
        λ _.
          Keeps-if _ (Keeps-pure tt)
            (Keeps-bind (perform-rules (close_socket _) λ r. refl) λ _. Keeps-pure tt)

  destroy_all-rules : (m : Map ProxyData) → Keeps rules_of (destroy_all m)
  unfolding destroy_all
  destroy_all-rules [] = Keeps-pure tt
  destroy_all-rules ((id, pd) ∷ rest) = Keeps-bind (destroy-rules pd) λ _. destroy_all-rules rest

  free_iocp-rules : (service : IocpService) → Keeps rules_of (Iocp.free service)
  unfolding Iocp.free close_port Sync.close place
  free_iocp-rules service = Keeps-if _ (Keeps-pure service) (
      Keeps-bind (perform-rules (set_event service.stop_event) λ r. refl) λ _.
        Keeps-bind (perform-rules (wait_for service.worker_thread) λ r. refl) λ _.
          Keeps-bind
            (Keeps-if _ (Keeps-pure service.worker_thread)
              (Keeps-bind (perform-rules (close_handle _) λ r. refl) λ _. Keeps-pure _))
            λ thread.
              Keeps-if _ (Keeps-pure _)
                (Keeps-bind (perform-rules (close_handle _) λ r. refl) λ _. Keeps-pure _))

-- The handler has a thread and a port.
pub record Runs (s : EventHandler) : Type 0 where
  pub has_port : s.udp_proxy.service.h_iocp ≢ invalid_handle_value
  pub has_thread : s.udp_proxy.service.worker_thread ≢ invalid_handle_value

-- No thread, no port, no object, no connection and no context.
pub record IsCleared (s : EventHandler) : Type 0 where
  pub idle : IsIdle s.udp_proxy.service
  pub no_objects : s.udp_proxy.ov_data_set ≡ []
  pub no_connections : s.udp_proxy.socket_map ≡ []
  pub no_contexts : s.udp_ctx_map ≡ []

module _ ⦃os : Os⦄ where
  -- EventHandler::free
  pub free-clears :
      (s : EventHandler)
      → Runs s
      → IsCleared (Handler.free s).1
        × ((Handler.free s).1.conn_info_map ≡ s.conn_info_map)
        × (rules_of (Handler.free s).1.udp_proxy.world ≡ rules_of s.udp_proxy.world)
  unfolding Handler.free Connections.free free_service on_proxy outside ◌>>=◌ modify gets
  free-clears s r = (
    record {
      idle = free-IsIdle s.udp_proxy.service s.udp_proxy.world r.has_thread;
      no_objects = refl;
      no_connections = refl;
      no_contexts = refl;
    },
    refl,
    (destroy_all-rules s.udp_proxy.socket_map).same
          (Iocp.free s.udp_proxy.service s.udp_proxy.world).1
        ∙ (free_iocp-rules s.udp_proxy.service).same s.udp_proxy.world,
  )

  -- Stop of a core that runs leaves its event handler without thread, port, object, connection and
  -- context, but with what it kept of TCP connections.
  pub stop-clears :
      (s : EventHandler)
      → Runs s
      → IsCleared (stop s).1 × ((stop s).1.conn_info_map ≡ s.conn_info_map)
  unfolding stop on_system perform ◌>>=◌ pure
  stop-clears s r =
      let (cleared, kept, _) = free-clears s r in
      (
        record {
          idle = cleared.idle;
          no_objects = cleared.no_objects;
          no_connections = cleared.no_connections;
          no_contexts = cleared.no_contexts;
        },
        kept,
      )
