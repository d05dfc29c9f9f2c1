-- ===== src/Redirector.antt =====
-- netfilter/SocksRedirector.cpp and netfilter/SocksRedirector.hpp: NetFilterCore, which starts and
-- stops the filter. Its state is that of its event handler.
pub mod Rules
pub mod Order
pub mod Lifecycle
use qv_plugin_netfilter.Base.{ℕ, Bool, true, false, not, List, [], ◌∷◌, ◌++◌, ◌==◌, if◌then◌else◌}
use qv_plugin_netfilter.Base.Int.{ℤ}
use qv_plugin_netfilter.Base.State.{M, pure, ◌>>=◌, ◌>>◌}
use qv_plugin_netfilter.System.{
  World, Os, perform, wsa_startup, wsa_cleanup, nf_init, nf_free, nf_add_rule, nf_add_rule_ex,
}
use qv_plugin_netfilter.Events.Handler.{
  EventHandler, Lookup, on_system, new_event_handler, delete_event_handler, init, free,
}
use qv_plugin_netfilter.Events.Data.{Protocol, tcp, udp, LogEntry}
use qv_plugin_netfilter.Proxy.Connections.{new_udp_proxy}
use qv_plugin_netfilter.Redirector.Rules.{
  NfRule, NfRuleEx, FilterRule, user_rule, proxy_all, Inet, private_rules,
}

-- The line of the log, in the signal OnLogMessageReady.
pub record LogMessage : Type 0 where
  pub cid : ℕ
  pub protocol : List ℕ
  pub is_open : Bool
  pub local : List ℕ
  pub remote : List ℕ
  pub pid : ℕ
  pub path : List ℕ

abbrev protocol_name : Protocol → List ℕ
protocol_name tcp = b'T' ∷ b'C' ∷ b'P' ∷ []
protocol_name udp = b'U' ∷ b'D' ∷ b'P' ∷ []

-- The function that the constructor gives to the event handler; `from_wide` is
-- QString::fromStdWString.
unfoldable pub log_message : (List ℕ → List ℕ) → LogEntry → LogMessage
log_message from_wide e = record {
  cid = e.id;
  protocol = protocol_name e.protocol;
  is_open = e.is_opening;
  local = from_wide e.local_addr;
  remote = from_wide e.remote_addr;
  pid = e.process_id;
  path = from_wide e.process_name;
}

abbrev pub nf_status_success : ℕ
nf_status_success = 0

module _ ⦃os : Os⦄ where
  -- nf_addRule(&rule, FALSE), one after the other
  unfoldable pub add_rules : List NfRule → M World (Unit {0})
  add_rules [] = pure tt
  add_rules (r ∷ rs) = do perform (nf_add_rule r false); add_rules rs

  unfoldable pub add_rules_ex : Bool → List NfRuleEx → M World (Unit {0})
  add_rules_ex to_head [] = pure tt
  add_rules_ex to_head (r ∷ rs) = do perform (nf_add_rule_ex r to_head); add_rules_ex to_head rs

  -- for (const auto &rule : rules) …
  unfoldable pub add_user_rules : List FilterRule → M World (Unit {0})
  add_user_rules [] = pure tt
  add_user_rules (r ∷ rs) = do perform (nf_add_rule_ex (user_rule r) true); add_user_rules rs

  -- From nf_init on, whose failure leaves the event handler as it is.
  unfoldable pub install : ⦃inet : Inet⦄ → List FilterRule → M World Bool
  install rules = do
    status ← perform nf_init
    if status == nf_status_success
        then (do
          add_rules private_rules
          add_user_rules rules
          add_rules_ex false proxy_all
          pure true)
        else pure false

  -- `number` is QString::number, and `self` the address of the UDP proxy.
  unfoldable pub start :
      ⦃inet : Inet⦄ ⦃lookup : Lookup⦄
      → (ℤ → List ℕ)
      → ℕ
      → List FilterRule
      → List ℕ
      → ℤ
      → List ℕ
      → List ℕ
      → M EventHandler Bool
  start number self rules address port username password = do
    ready ← init self (address ++ (b':' ∷ number port)) username password
    if ready then on_system (install rules) else pure false

  unfoldable pub stop : M EventHandler (Unit {0})
  stop = do free; on_system (perform nf_free); pure tt

  -- NetFilterCore(): the arguments are those of the UDP proxy, and the memory of g_proxyAddress.
  unfoldable pub new_net_filter_core : ℕ → ℕ → List ℕ → ℕ → List ℕ → World → EventHandler
  new_net_filter_core cs connect_ex_ptr m_proxy_address m_proxy_address_len g_proxy_address w =
      (on_system (perform wsa_startup) (
        new_event_handler g_proxy_address
          (new_udp_proxy cs connect_ex_ptr m_proxy_address m_proxy_address_len w))).1

  -- ~NetFilterCore
  unfoldable pub delete_net_filter_core : ℕ → M EventHandler (Unit {0})
  delete_net_filter_core cs = do on_system (perform wsa_cleanup); delete_event_handler cs
