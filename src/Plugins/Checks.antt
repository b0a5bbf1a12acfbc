-- ===== src/Plugins/Checks.antt =====
-- Three plugins, and the theorems of the plugin manager at them.
use keel_s.Common.{ℕ, ◌≡◌, ◌↔◌, refl, true, false, List, [], ◌∷◌, none, arith, inl, inr, All}
use keel_s.Text.{Bytes, tolower, isdigit, equal_insensitive}
use keel_s.Text.Decimal.{from_chars}
use keel_s.Manifest.{
  Dependency, dependency_version_matches, parse_semantic_version, parse_component, split_dot,
  version_ge, version_eq,
}
use keel_s.Plugins.{Host, Plugin, loaded, no_diagnostic, known_plugins, remove_plugin_record}
use keel_s.Plugins.Select.{selected, select_plugin, plugin_display_index, plugin_display_id}
use keel_s.Plugins.Naming.{Fits, select_plugin-Fits, select_plugin-plugin_display_id}
use keel_s.Plugins.Depend.{
  is_ready, dependencies_ready, has_running_dependent, plugin_command_active,
}
use keel_s.Plugins.Running.{
  Served, Supported, dependencies_ready_iff, remove_plugin_record-Supported,
}

-- "Core", "Shop", "1.9.0" and "sho".
abbrev pub core : Bytes
core = b'C' ∷ b'o' ∷ b'r' ∷ b'e' ∷ []

abbrev pub shop : Bytes
shop = b'S' ∷ b'h' ∷ b'o' ∷ b'p' ∷ []

abbrev version_text : Bytes
version_text = b'1' ∷ b'.' ∷ b'9' ∷ b'.' ∷ b'0' ∷ []

abbrev pub sho : Bytes
sho = b's' ∷ b'h' ∷ b'o' ∷ []

abbrev pub running : ℕ → Bytes → List Dependency → Plugin
running handle name dependencies = record {
  handle = handle;
  library_open = true;
  load = true;
  unload = true;
  prepare_pause = false;
  prepare_pause_active = false;
  prepare_unload = false;
  prepare_unload_active = false;
  file = [];
  name = name;
  version = version_text;
  diagnostic = no_diagnostic;
  dependencies = dependencies;
  state = loaded;
  selectable = true;
  accepting_resources = true;
  is_starting = false;
  transitioning = false;
  cleanup_pending = false;
  cleanup_callback_active = false;
  factory_dispatch_enabled = true;
  active_native_operations = 0;
}

abbrev pub core_plugin : Plugin
core_plugin = running 1 core []

-- The shop needs the core in its version or a later one.
abbrev pub shop_plugin : Plugin
shop_plugin = running 2 shop (record { name = core; version = version_text; requirement = 2 } ∷ [])

abbrev pub host : Host
host = record {
  plugins = core_plugin ∷ shop_plugin ∷ [];
  disabled_plugins = [];
  commands = [];
  retired_commands = [];
  load_order = 1 ∷ 2 ∷ [];
  next_plugin = 3;
  accepting_resources = true;
}

core_is_held : has_running_dependent host none false core_plugin true ≡ true
unfolding has_running_dependent plugin_command_active equal_insensitive tolower
core_is_held = refl

select_plugin-plugin_display_id_example :
    (p : Plugin) × (p.handle ≡ 2) × (select_plugin host (plugin_display_id host 2) ≡ selected p)
unfolding plugin_display_index known_plugins
select_plugin-plugin_display_id_example =
    select_plugin-plugin_display_id host 2 (omega arith) (ground arith)

select_plugin-Fits_example : Fits sho (known_plugins host) (select_plugin host sho)
unfolding isdigit
select_plugin-Fits_example = select_plugin-Fits host sho refl

dependencies_ready_iff_example :
    (is_ready (dependencies_ready host shop_plugin) ≡ true)
    ↔ All (Served (core_plugin ∷ shop_plugin ∷ []) 2) shop_plugin.dependencies
dependencies_ready_iff_example = dependencies_ready_iff host shop_plugin

remove_plugin_record-Supported_example : Supported (remove_plugin_record host 2)
unfolding has_running_dependent plugin_command_active equal_insensitive tolower dependencies_ready
    dependency_version_matches parse_semantic_version parse_component split_dot version_ge
    version_eq from_chars isdigit
remove_plugin_record-Supported_example =
    remove_plugin_record-Supported host none false shop_plugin true
      (inl (λ e. omega arith), (inr refl, tt)) refl refl
