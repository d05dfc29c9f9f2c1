-- ===== src/Plugin/Settings.antt =====
-- core/Settings.hpp: PluginOptions. QJS_JSON, which reads and writes it as JSON, and Bindable, which
-- ties a field to a widget, come from a submodule and are parameters.
use qv_plugin_netfilter.Base.{Bool, false, List}
use qv_plugin_netfilter.Redirector.Rules.{FilterRule}
use qv_plugin_netfilter.Plugin.{default_rules}

pub record PluginOptions : Type 0 where
  pub rules : List FilterRule
  pub auto_start : Bool

unfoldable pub new_plugin_options : PluginOptions
new_plugin_options = record { rules = default_rules; auto_start = false }

-- toJson, and loadJson on options that have values already.
pub record JsonConversion (Json : Type 0) : Type 0 where
  pub to_json : PluginOptions → Json
  pub load_json : Json → PluginOptions → PluginOptions

-- ReadWriteBind of a Boolean field: what the check box shows after a write of the field, from the
-- value and what it showed, and what the field has after the box is toggled.
pub record Binding : Type 0 where
  pub shown : Bool → Bool → Bool
  pub taken : Bool → Bool → Bool
