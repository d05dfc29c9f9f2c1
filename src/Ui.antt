-- ===== src/Ui.antt =====
-- ui/Interface.hpp, ui/PluginSettingsWidget.cpp, ui/PluginSettingsWidget.hpp,
-- ui/PluginMainWindowWidget.cpp and ui/PluginMainWindowWidget.hpp: the widgets. Qt, and what its
-- compiler makes of the .ui files, are calls in a trace.
use qv_plugin_netfilter.Base.{Bool, List, [], ◌∷◌, ◌++◌}
use qv_plugin_netfilter.Plugin.Settings.{PluginOptions, new_plugin_options, JsonConversion, Binding}

pub data GuiComponent : Type 0 where
  gui_component_settings gui_component_main_window_actions : GuiComponent

-- QEvent::type()
pub data QtEvent : Type 0 where
  language_change : QtEvent
  other_change : QtEvent

pub data QtCall : Type 0 where
  setup_ui : QtCall
  base_change_event : QtEvent → QtCall
  retranslate_ui : QtCall

-- SimpleGUIInterface::GetComponents
unfoldable pub get_components : List GuiComponent
get_components = gui_component_settings ∷ gui_component_main_window_actions ∷ []

-- changeEvent, the same in both widgets
unfoldable pub change_event : QtEvent → List QtCall
change_event language_change = base_change_event language_change ∷ retranslate_ui ∷ []
change_event other_change = base_change_event other_change ∷ []

-- SimpleGUIInterface has no fields.
pub data SimpleGuiInterface : Type 0 where
  new_gui_interface : SimpleGuiInterface

-- SimplePluginMainWindowWidget: its calls so far, the latest last.
pub record MainWindowWidget : Type 0 where
  pub calls : List QtCall

unfoldable pub new_main_window_widget : MainWindowWidget
new_main_window_widget = record { calls = setup_ui ∷ [] }

unfoldable pub main_change_event : QtEvent → MainWindowWidget → MainWindowWidget
main_change_event e w = record { calls = w.calls ++ change_event e }

-- SimpleGUIInterface::GetMainWindowWidget
unfoldable pub get_main_window_widget : SimpleGuiInterface → MainWindowWidget
get_main_window_widget new_gui_interface = new_main_window_widget

-- SimplePluginSettingsWidget; `settings` belongs to its base class, and `auto_start_cb` is the
-- property "checked" of the box.
pub record SettingsWidget (Json : Type 0) : Type 0 where
  pub settings : Json
  pub option : PluginOptions
  pub auto_start_cb : Bool
  pub calls : List QtCall

module _ {Json : Type 0} ⦃j : JsonConversion Json⦄ ⦃b : Binding⦄ where
  -- The constructor; `box` is what the .ui file gives the box.
  unfoldable pub new_settings_widget : Json → Bool → SettingsWidget Json
  new_settings_widget settings box = record {
    settings = settings;
    option = new_plugin_options;
    auto_start_cb = b.shown new_plugin_options.auto_start box;
    calls = setup_ui ∷ [];
  }

  -- SimpleGUIInterface::GetSettingsWidget
  unfoldable pub get_settings_widget : SimpleGuiInterface → Json → Bool → SettingsWidget Json
  get_settings_widget new_gui_interface settings box = new_settings_widget settings box

  -- The values that loadJson writes to a bound field are shown.
  unfoldable pub load : SettingsWidget Json → SettingsWidget Json
  load w =
      let o = j.load_json w.settings w.option in
      record w { option = o; auto_start_cb = b.shown o.auto_start w.auto_start_cb }

  unfoldable pub store : SettingsWidget Json → SettingsWidget Json
  store w = record w { settings = j.to_json w.option }

  -- The user toggles the box.
  unfoldable pub toggle : Bool → SettingsWidget Json → SettingsWidget Json
  toggle checked w = record w {
    option = record (w.option) { auto_start = b.taken checked w.option.auto_start };
    auto_start_cb = checked;
  }

  unfoldable pub settings_change_event : QtEvent → SettingsWidget Json → SettingsWidget Json
  settings_change_event e w = record w { calls = w.calls ++ change_event e }
