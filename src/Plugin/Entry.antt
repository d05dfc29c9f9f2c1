-- ===== src/Plugin/Entry.antt =====
-- NetfilterPlugin.cpp and NetfilterPlugin.hpp: the plugin object that Qv2ray loads. Its base class,
-- with the field m_Settings, comes from a submodule.
use qv_plugin_netfilter.Base.{ℕ, Bool, true, Option, none, some, List, [], ◌∷◌}
use qv_plugin_netfilter.Base.Int.{ℤ}
use qv_plugin_netfilter.System.{Os}
use qv_plugin_netfilter.Events.Handler.{EventHandler, Lookup}
use qv_plugin_netfilter.Redirector.Rules.{FilterRule, Inet}
use qv_plugin_netfilter.Plugin.{EventType, Inbound, process_event}
use qv_plugin_netfilter.Plugin.Settings.{PluginOptions, JsonConversion}
use qv_plugin_netfilter.Ui.{SimpleGuiInterface, new_gui_interface}

pub data Component : Type 0 where
  component_event_handler component_gui : Component

-- The part of QvPluginMetadata that says what the plugin has.
abbrev pub metadata_components : List Component
metadata_components = component_event_handler ∷ component_gui ∷ []

-- The plugin: `m_event_handler` is the event handler that process_event works on, and `none` in the
-- last two fields is a null pointer.
pub record NetfilterPlugin (Json : Type 0) : Type 0 where
  pub m_settings : Json
  pub options : PluginOptions
  pub m_event_handler : Option EventHandler
  pub m_gui_interface : Option SimpleGuiInterface

module _ {Json : Type 0} ⦃j : JsonConversion Json⦄ where
  -- InitializePlugin; `core` is the state of a new NetfilterPluginEventHandler.
  unfoldable pub initialize_plugin :
      EventHandler → NetfilterPlugin Json → Bool × NetfilterPlugin Json
  initialize_plugin core p = (
    true,
    record p {
      options = j.load_json p.m_settings p.options;
      m_event_handler = some core;
      m_gui_interface = some new_gui_interface;
    },
  )

  -- SettingsUpdated
  unfoldable pub settings_updated : NetfilterPlugin Json → NetfilterPlugin Json
  settings_updated p = p

  -- Qv2ray has new settings for the plugin: it writes them to m_Settings, and says so.
  unfoldable pub update_settings : Json → NetfilterPlugin Json → NetfilterPlugin Json
  update_settings settings p = settings_updated (record p { m_settings = settings })

-- An event of Qv2ray goes to the event handler, with the rules of PluginInstance->options.
module _ ⦃os : Os⦄ ⦃inet : Inet⦄ ⦃lookup : Lookup⦄ (number : ℤ → List ℕ) (self : ℕ) where
  unfoldable pub handle :
      EventType → List Inbound → List FilterRule → Option EventHandler → Option EventHandler
  handle type inbounds rules none = none
  handle type inbounds rules (some core) =
      some (process_event number self rules type inbounds core).1

  unfoldable pub plugin_event :
      {Json : Type 0} → EventType → List Inbound → NetfilterPlugin Json → NetfilterPlugin Json
  plugin_event type inbounds p = record p {
    m_event_handler = handle type inbounds p.options.rules p.m_event_handler;
  }
