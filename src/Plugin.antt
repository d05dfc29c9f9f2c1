-- ===== src/Plugin.antt =====
-- core/EventHandler.cpp and core/Settings.hpp: the plugin reacts to the events of Qv2ray.
pub mod Settings
pub mod Entry
use qv_plugin_netfilter.Base.{ℕ, List, [], ◌∷◌, if◌then◌else◌}
use qv_plugin_netfilter.Base.Int.{ℤ, pos}
use qv_plugin_netfilter.Base.State.{M, pure, ◌>>◌}
use qv_plugin_netfilter.System.{Os}
use qv_plugin_netfilter.Events.Handler.{EventHandler, Lookup}
use qv_plugin_netfilter.Events.Tcp.{bytes_equal}
use qv_plugin_netfilter.Redirector.{start, stop}
use qv_plugin_netfilter.Redirector.Rules.{FilterRule, network_unspecified, network_udp, Inet}

abbrev qv2ray_exe : List ℕ
qv2ray_exe = b'q' ∷ b'v' ∷ b'2' ∷ b'r' ∷ b'a' ∷ b'y' ∷ b'.' ∷ b'e' ∷ b'x' ∷ b'e' ∷ []

abbrev v2ray_exe : List ℕ
v2ray_exe = b'v' ∷ b'2' ∷ b'r' ∷ b'a' ∷ b'y' ∷ b'.' ∷ b'e' ∷ b'x' ∷ b'e' ∷ []

abbrev pub rule : ℕ → FilterRule
rule port = record {
  port_from = pos port;
  port_to = pos 0;
  network_type = network_udp;
  process_name = [];
}

abbrev process_rule : List ℕ → FilterRule
process_rule name = record {
  port_from = pos 0;
  port_to = pos 0;
  network_type = network_unspecified;
  process_name = name;
}

-- DefaultRules
unfoldable pub default_rules : List FilterRule
default_rules = process_rule qv2ray_exe ∷ process_rule v2ray_exe ∷ rule 67 ∷ rule 123 ∷ []

-- An inbound of EventObject: protocol, and the first port.
pub record Inbound : Type 0 where
  pub protocol : List ℕ
  pub port_from : ℤ

pub data EventType : Type 0 where
  connected disconnecting other : EventType

abbrev socks : List ℕ
socks = b's' ∷ b'o' ∷ b'c' ∷ b'k' ∷ b's' ∷ []

abbrev localhost : List ℕ
localhost = b'1' ∷ b'2' ∷ b'7' ∷ b'.' ∷ b'0' ∷ b'.' ∷ b'0' ∷ b'.' ∷ b'1' ∷ []

-- The port of the first socks inbound, or 0.
unfoldable pub socks_port : List Inbound → ℤ
socks_port [] = pos 0
socks_port (i ∷ is) = if bytes_equal i.protocol socks then i.port_from else socks_port is

module _ ⦃os : Os⦄ ⦃inet : Inet⦄ ⦃lookup : Lookup⦄ where
  -- ProcessEvent; `rules` are those of the plugin's options.
  unfoldable pub process_event :
      (ℤ → List ℕ) → ℕ → List FilterRule → EventType → List Inbound → M EventHandler (Unit {0})
  process_event number self rules connected inbounds = do
    start number self rules localhost (socks_port inbounds) [] []
    pure tt
  process_event number self rules disconnecting inbounds = stop
  process_event number self rules other inbounds = pure tt
