-- ===== src/Plugins.antt =====
-- host/src/host.h and the tables of host/src/plugin_manager.cpp: the plugins that the host knows.
-- A path is its file name, a loaded image is a flag, and a function pointer is whether it is set.
-- Pointers to records are handles: a record is updated where its handle stands.
pub mod Select
pub mod Naming
pub mod Depend
pub mod Running
pub mod Environment
pub mod Transitions
pub mod Fields
pub mod Writes
pub mod Marks
pub mod Sound
pub mod Respects
pub mod Calls
pub mod Suspension
pub mod Starting
pub mod Unloading
pub mod Waiting
pub mod Termination
pub mod Reentry
pub mod Rounds
pub mod Startup
pub mod Discovery
pub mod Removal
pub mod Departure
mod Checks
mod Scenarios
use keel_s.Common.{
  ℕ, ◌==◌, Bool, true, false, ◌&&◌, List, [], ◌∷◌, ◌++◌, Option, map, find, filter, not,
  if◌then◌else◌,
}
use keel_s.Text.{Bytes, equal_insensitive}
use keel_s.Manifest.{Dependency}

pub data PluginState : Type 0 where
  loading loaded paused disabled invalid error : PluginState

-- `state == PluginState::loaded` and so on.
abbrev pub is_loading : PluginState → Bool
is_loading loading = true
is_loading _ = false

abbrev pub is_loaded : PluginState → Bool
is_loaded loaded = true
is_loaded _ = false

abbrev pub is_paused : PluginState → Bool
is_paused paused = true
is_paused _ = false

-- The diagnostic of a plugin, by the kind of its text.
pub data Diagnostic : Type 0 where
  no_diagnostic load_threw dependency_changed dependency_missing dependency_itself : Diagnostic
  dependency_mismatch dependency_stopped dependency_cycle pause_refused : Diagnostic
  cleanup_incomplete rollback_failed load_rejected quarantined retained : Diagnostic

-- PluginRecord.
pub record Plugin : Type 0 where
  pub handle : ℕ
  pub library_open : Bool
  pub load : Bool
  pub unload : Bool
  pub prepare_pause : Bool
  pub prepare_pause_active : Bool
  pub prepare_unload : Bool
  pub prepare_unload_active : Bool
  pub file : Bytes
  pub name : Bytes
  pub version : Bytes
  pub diagnostic : Diagnostic
  pub dependencies : List Dependency
  pub state : PluginState
  pub selectable : Bool
  pub accepting_resources : Bool
  pub is_starting : Bool
  pub transitioning : Bool
  pub cleanup_pending : Bool
  pub cleanup_callback_active : Bool
  pub factory_dispatch_enabled : Bool
  pub active_native_operations : ℕ

-- CommandRecord, by the fields that the plugin manager reads and writes.
pub record Command : Type 0 where
  pub handle : ℕ
  pub owner : ℕ
  pub enabled : Bool
  pub active : ℕ

-- The fields of Host that the plugin manager keeps.
pub record Host : Type 0 where
  pub plugins : List Plugin
  pub disabled_plugins : List Plugin
  pub commands : List Command
  pub retired_commands : List Command
  pub load_order : List ℕ
  pub next_plugin : ℕ
  pub accepting_resources : Bool

abbrev pub plugin_in : ℕ → List Plugin → Option Plugin
plugin_in handle plugins = find (λ p. p.handle == handle) plugins

-- PluginByHandle.
unfoldable pub plugin_by_handle : Host → ℕ → Option Plugin
plugin_by_handle host handle = plugin_in handle host.plugins

-- A write through a pointer to the record with the handle.
abbrev pub write_plugin : ℕ → (Plugin → Plugin) → List Plugin → List Plugin
write_plugin handle f [] = []
write_plugin handle f (p ∷ plugins) =
    (if p.handle == handle then f p else p) ∷ write_plugin handle f plugins

abbrev pub put_plugin : ℕ → (Plugin → Plugin) → Host → Host
put_plugin handle f host = record host { plugins = write_plugin handle f host.plugins }

-- KnownPlugins.
unfoldable pub known_plugins : Host → List Plugin
known_plugins host = host.plugins ++ host.disabled_plugins

-- RemovePluginRecord.
unfoldable pub remove_plugin_record : Host → ℕ → Host
remove_plugin_record host handle = record host {
  load_order = filter (λ h. not (h == handle)) host.load_order;
  plugins = filter (λ p. not (p.handle == handle)) host.plugins;
}

-- The search for a dependency's target, the same in every function that has it.
abbrev pub target_in : Bytes → List Plugin → Option Plugin
target_in name plugins = find (λ p. p.selectable && equal_insensitive p.name name) plugins

-- RemoveCommandsOwnedBy, but for the engine's own registration of the command.
abbrev pub remove_commands_owned_by : Host → ℕ → Host
remove_commands_owned_by host owner = record host {
  commands = filter (λ c. not (c.owner == owner)) host.commands;
  retired_commands =
      host.retired_commands
      ++ map {A = Command} (λ c. record c { enabled = false })
          (filter {A = Command} (λ c. c.owner == owner) host.commands);
}

-- SetCommandsOwnedEnabled.
abbrev pub enable_owned : ℕ → Bool → List Command → List Command
enable_owned owner enabled =
    map (λ c. if c.owner == owner then record c { enabled = enabled } else c)

unfoldable pub set_commands_owned_enabled : Host → ℕ → Bool → Host
set_commands_owned_enabled host owner enabled = record host {
  commands = enable_owned owner enabled host.commands;
}
