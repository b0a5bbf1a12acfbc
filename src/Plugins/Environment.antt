-- ===== src/Plugins/Environment.antt =====
-- What the plugin manager (host/src/plugin_manager.cpp) calls while it changes a plugin's state: the code
-- of plugins, and the layers that keep resources for plugins. Each is a function on the host, since
-- plugin code may call back into it. A layer that does not exist stands in no list.
use keel_s.Common.{
  ℕ, Bool, true, false, List, [], ◌∷◌, Option, KeelResult, ok, is_ok, if◌then◌else◌,
}
use keel_s.Plugins.{Host}
use keel_s.Services

-- KeelPluginEventType, by the events that the plugin manager publishes.
pub data PluginEvent : Type 0 where
  loaded_event paused_event resumed_event : PluginEvent

-- What a plugin's load callback does: it returns KEEL_TRUE or not, or throws.
pub data LoadOutcome : Type 0 where
  accepted rejected threw : LoadOutcome

abbrev pub Layer : Type 0
Layer = ℕ → Host → KeelResult × Host

pub record Environment : Type 0 where
  pub load : ℕ → Host → LoadOutcome × Host
  pub unload : ℕ → Host → Host
  pub prepare_pause : ℕ → Host → Bool × Host
  pub prepare_unload : ℕ → Host → Bool × Host
  pub is_game_thread : Bool
  pub releases : List Layer
  pub deactivates : List Layer
  pub activates : List (ℕ → Host → Host)
  pub publish : PluginEvent → ℕ → Host → Host
  pub publish_all_loaded : Host → Host
  pub published_services : Option Services.Registry
  pub pinned : ℕ → Bool

-- Deactivate of one layer after the other, up to the first that refuses.
abbrev pub deactivate_all : List Layer → ℕ → Host → KeelResult × Host
deactivate_all [] handle host = (ok, host)
deactivate_all (layer ∷ layers) handle host =
    let (result, host') = layer handle host in
    let rest = deactivate_all layers handle host' in if is_ok result then rest else (result, host')

-- ReleasePlugin of every layer, and whether all of them were OK.
abbrev pub release_all : List Layer → ℕ → Host → Bool × Host
release_all [] handle host = (true, host)
release_all (layer ∷ layers) handle host =
    let (result, host') = layer handle host in
    let (released, host'') = release_all layers handle host' in
    (if is_ok result then released else false, host'')

abbrev pub activate_all : List (ℕ → Host → Host) → ℕ → Host → Host
activate_all [] handle host = host
activate_all (layer ∷ layers) handle host = activate_all layers handle (layer handle host)
