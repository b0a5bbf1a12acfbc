-- ===== src/Plugins/Scenarios.antt =====
-- Plugin code and layers that pause and resume other plugins, and the theorems of the plugin manager at them.
use keel_s.Common.{
  map, ℕ, ◌≡◌, refl, subst, ◌==◌, if◌then◌else◌, true, false, [], ◌∷◌, none, some, arith,
  KeelResult, ok, busy,
}
use keel_s.Text.{Bytes, tolower, isdigit, equal_insensitive, starts_with_insensitive}
use keel_s.Text.Decimal.{from_chars}
use keel_s.Manifest.{
  dependency_version_matches, parse_semantic_version, parse_component, split_dot, version_ge,
  version_eq,
}
use keel_s.Plugins.{
  set_commands_owned_enabled, Host, Plugin, loading, loaded, paused, plugin_by_handle,
  known_plugins,
}
use keel_s.Plugins.Select.{selected, select_plugin}
use keel_s.Plugins.Depend.{dependencies_ready, has_running_dependent, plugin_command_active}
use keel_s.Plugins.Running.{Supported}
use keel_s.Plugins.Environment.{Environment, accepted}
use keel_s.Plugins.Transitions.{
  prepare_plugin_unload, restore_plugin_dispatch, pause_plugin, resume_plugin,
}
use keel_s.Plugins.Starting.{start_discovered_plugins}
use keel_s.Plugins.Waiting.{NeverDiscovers}
use keel_s.Plugins.Reentry.{resume_plugin-NoneNew}
use keel_s.Plugins.Rounds.{Ended, start_discovered_plugins-Ended}
use keel_s.Plugins.Unloading.{UnloadLayers, unload_plugin, deactivate_layers, release_layers}
use keel_s.Plugins.Sound.{Sound, Distinct, handles}
use keel_s.Plugins.Respects.{KeepsHeld, Respects-refl, Reentrant}
use keel_s.Plugins.Departure.{ReentrantLayers, unload_plugin-Respects}
use keel_s.Plugins.Discovery.{start_discovered_plugins-Supported}
use keel_s.Plugins.Suspension.{
  Reopened, pause_plugin-Respects, pause_plugin_refused, resume_plugin-Respects,
}
use keel_s.Plugins.Checks.{core_plugin, host, running, sho, shop_plugin}

-- One layer, which refuses to let go of the core, and plugin code that does nothing.
abbrev keeps_core : ℕ → Host → KeelResult × Host
keeps_core n h = (if n == 1 then busy else ok, h)

abbrev env : Environment
env = record {
  load = λ n h. (accepted, h);
  unload = λ n h. h;
  prepare_pause = λ n h. (true, h);
  prepare_unload = λ n h. (true, h);
  is_game_thread = true;
  releases = [];
  deactivates = keeps_core ∷ [];
  activates = [];
  publish = λ e n h. h;
  publish_all_loaded = λ h. h;
  published_services = none;
  pinned = λ n. false;
}

env-NeverDiscovers : NeverDiscovers env
env-NeverDiscovers = record {
  load = λ n h m l. l;
  unload = λ n h m l. l;
  prepare_pause = λ n h m l. l;
  prepare_unload = λ n h m l. l;
  releases = tt;
  activates = tt;
  publish = λ e n h m l. l;
  publish_all_loaded = λ h m l. l;
}

env-Reentrant : Reentrant env
env-Reentrant = record {
  load = λ n h. Respects-refl h;
  unload = λ n h. Respects-refl h;
  prepare_pause = λ n h. Respects-refl h;
  prepare_unload = λ n h. Respects-refl h;
  releases = tt;
  deactivates = ((λ n h. Respects-refl h), tt);
  activates = tt;
  publish = λ e n h. Respects-refl h;
  publish_all_loaded = λ h. Respects-refl h;
}

-- The core has not started yet, and the shop waits for it.
abbrev discovered_host : Host
discovered_host = record host {
  plugins = record core_plugin { state = loading } ∷ record shop_plugin { state = loading } ∷ [];
}

start_discovered_plugins-Ended_example :
    Ended (2 ∷ 1 ∷ []) (start_discovered_plugins env (2 ∷ 1 ∷ []) discovered_host)
start_discovered_plugins-Ended_example =
    start_discovered_plugins-Ended env env-NeverDiscovers (2 ∷ 1 ∷ []) discovered_host

-- Plugin code that resumes the statistics while it is loaded, and whenever an event is published.
abbrev waking_env : Environment
waking_env = record env {
  load = λ n h. (accepted, (resume_plugin env h 3).1);
  publish = λ e n h. (resume_plugin env h 3).1;
}

waking_env-NeverDiscovers : NeverDiscovers waking_env
waking_env-NeverDiscovers = record {
  load = λ n h. resume_plugin-NoneNew env env-NeverDiscovers 3 h;
  unload = λ n h m l. l;
  prepare_pause = λ n h m l. l;
  prepare_unload = λ n h m l. l;
  releases = tt;
  activates = tt;
  publish = λ e n h. resume_plugin-NoneNew env env-NeverDiscovers 3 h;
  publish_all_loaded = λ h m l. l;
}

waking_env-Reentrant : Reentrant waking_env
waking_env-Reentrant = record {
  load = λ n h. resume_plugin-Respects env env-Reentrant h 3;
  unload = λ n h. Respects-refl h;
  prepare_pause = λ n h. Respects-refl h;
  prepare_unload = λ n h. Respects-refl h;
  releases = tt;
  deactivates = ((λ n h. Respects-refl h), tt);
  activates = tt;
  publish = λ e n h. resume_plugin-Respects env env-Reentrant h 3;
  publish_all_loaded = λ h. Respects-refl h;
}

abbrev stats : Bytes
stats = b's' ∷ b't' ∷ b'a' ∷ b't' ∷ []

-- The statistics depend on no plugin.
abbrev stats_plugin : Plugin
stats_plugin = running 3 stats []

-- The core has not started yet, the shop waits for it, and the statistics are paused.
abbrev sleeping_host : Host
sleeping_host = record host {
  plugins =
      record core_plugin { state = loading }
      ∷ record shop_plugin { state = loading }
      ∷ record stats_plugin { state = paused }
      ∷ [];
}

start_discovered_plugins-Supported_example :
    (after : Host) × (start_discovered_plugins waking_env (2 ∷ 1 ∷ []) sleeping_host ≡ some after)
    × Supported after
start_discovered_plugins-Supported_example =
    start_discovered_plugins-Supported waking_env waking_env-NeverDiscovers waking_env-Reentrant
      (2 ∷ 1 ∷ []) sleeping_host
      (((λ e. omega arith), ((λ e. omega arith), tt)), (((λ e. omega arith), tt), (tt, tt))) refl

-- Layers that refuse nothing.
abbrev quiet_layer : ℕ → Host → KeelResult × Host
quiet_layer n h = (ok, h)

abbrev layers : UnloadLayers
layers = record {
  deactivate_factories = quiet_layer;
  deactivate_source2 = quiet_layer;
  activate_source2 = λ n h. h;
  deactivate_others = [];
  release_keelhook = quiet_layer;
  release_others = [];
  release_published = quiet_layer;
  release_factories = quiet_layer;
  publish_unloaded = λ n h. h;
}

shop_is_disabled : (unload_plugin env layers host sho true).0 ≡ true
unfolding unload_plugin select_plugin known_plugins equal_insensitive tolower
    starts_with_insensitive isdigit has_running_dependent plugin_command_active deactivate_layers
    release_layers prepare_plugin_unload set_commands_owned_enabled plugin_by_handle
shop_is_disabled = refl

-- A layer from which the statistics are paused, by whoever loses a service of the plugin.
abbrev pausing_layers : UnloadLayers
pausing_layers = record layers { release_published = λ n h. (ok, (pause_plugin env h 3).1) }

-- Plugin code that pauses the statistics before it is paused itself, and resumes them at every event.
abbrev loud_env : Environment
loud_env = record env {
  prepare_pause = λ n h. (true, (pause_plugin env h 3).1);
  publish = λ e n h. (resume_plugin env h 3).1;
}

loud_env-Reentrant : Reentrant loud_env
loud_env-Reentrant = record {
  load = λ n h. Respects-refl h;
  unload = λ n h. Respects-refl h;
  prepare_pause = λ n h. pause_plugin-Respects env env-Reentrant h 3;
  prepare_unload = λ n h. Respects-refl h;
  releases = tt;
  deactivates = ((λ n h. Respects-refl h), tt);
  activates = tt;
  publish = λ e n h. resume_plugin-Respects env env-Reentrant h 3;
  publish_all_loaded = λ h. Respects-refl h;
}

pausing_layers-ReentrantLayers : ReentrantLayers pausing_layers
pausing_layers-ReentrantLayers = record {
  deactivate_factories = λ n h. Respects-refl h;
  deactivate_source2 = λ n h. Respects-refl h;
  activate_source2 = λ n h. Respects-refl h;
  deactivate_others = tt;
  release_keelhook = λ n h. Respects-refl h;
  release_others = tt;
  release_published = λ n h. pause_plugin-Respects env env-Reentrant h 3;
  release_factories = λ n h. Respects-refl h;
  publish_unloaded = λ n h. Respects-refl h;
}

-- The shop, with a callback that prepares its pause.
abbrev busy_shop : Plugin
busy_shop = record shop_plugin { prepare_pause = true }

abbrev full_host : Host
full_host = record host { plugins = core_plugin ∷ busy_shop ∷ stats_plugin ∷ [] }

full-Distinct : Distinct (handles full_host.plugins)
full-Distinct =
    (((λ e. omega arith), ((λ e. omega arith), tt)), (((λ e. omega arith), tt), (tt, tt)))

full-Sound : Sound full_host.plugins
unfolding dependencies_ready equal_insensitive tolower dependency_version_matches
    parse_semantic_version parse_component split_dot version_ge version_eq from_chars isdigit
full-Sound = (refl, full-Distinct)

some_plugin : {a b : Plugin} → some a ≡ some b → a ≡ b
some_plugin e = cc

selected_plugin : {a b : Plugin} → selected a ≡ selected b → a ≡ b
selected_plugin e = cc

shop_is_known :
    (p : Plugin)
    → select_plugin full_host sho ≡ selected p
    → plugin_by_handle full_host p.handle ≡ some p
unfolding select_plugin known_plugins equal_insensitive tolower starts_with_insensitive isdigit
    plugin_by_handle
shop_is_known p e =
    subst (λ q. plugin_by_handle full_host q.handle ≡ some q) (selected_plugin e) refl

-- The statistics are paused from within the unload of the shop.
unload_plugin-Respects_example :
    Sound (unload_plugin env pausing_layers full_host sho true).1.plugins
    × KeepsHeld full_host.plugins (unload_plugin env pausing_layers full_host sho true).1.plugins
unload_plugin-Respects_example =
    unload_plugin-Respects env pausing_layers env-Reentrant pausing_layers-ReentrantLayers full_host
      sho true shop_is_known full-Sound

-- The statistics are paused and resumed from within the pause of the shop.
pause_plugin-Respects_example :
    Sound (pause_plugin loud_env full_host 2).1.plugins
    × KeepsHeld full_host.plugins (pause_plugin loud_env full_host 2).1.plugins
pause_plugin-Respects_example =
    pause_plugin-Respects loud_env loud_env-Reentrant full_host 2 full-Sound

-- The shop and the statistics are paused.
abbrev paused_host : Host
paused_host = record host {
  plugins =
      core_plugin
      ∷ record shop_plugin { state = paused }
      ∷ record stats_plugin { state = paused }
      ∷ [];
}

paused-Sound : Sound paused_host.plugins
paused-Sound = (refl, full-Distinct)

-- The statistics are resumed from within the resume of the shop.
resume_plugin-Respects_example :
    Sound (resume_plugin loud_env paused_host 2).1.plugins
    × KeepsHeld paused_host.plugins (resume_plugin loud_env paused_host 2).1.plugins
resume_plugin-Respects_example =
    resume_plugin-Respects loud_env loud_env-Reentrant paused_host 2 paused-Sound

both_run :
    map {A = Plugin} (λ p. p.state) (resume_plugin loud_env paused_host 2).1.plugins
    ≡ loaded ∷ loaded ∷ loaded ∷ []
unfolding resume_plugin plugin_by_handle dependencies_ready equal_insensitive tolower
    dependency_version_matches parse_semantic_version parse_component split_dot version_ge
    version_eq from_chars isdigit restore_plugin_dispatch set_commands_owned_enabled
both_run = refl

-- The shop is paused for good: it accepts no resources. A factory that is in use refuses to rest.
abbrev resting_host : Host
resting_host = record host {
  plugins = core_plugin ∷ record shop_plugin { state = paused; accepting_resources = false } ∷ [];
}

abbrev busy_layers : UnloadLayers
busy_layers = record layers { deactivate_factories = λ n h. (busy, h) }

-- The refused unload leaves it paused, and lets it accept resources again.
paused_shop_reopens : unload_plugin env busy_layers resting_host sho false ≡ (
  false,
  record host {
    plugins = core_plugin ∷ record shop_plugin { state = paused; accepting_resources = true } ∷ [];
  },
)
unfolding unload_plugin select_plugin known_plugins equal_insensitive tolower
    starts_with_insensitive isdigit has_running_dependent plugin_command_active deactivate_layers
    set_commands_owned_enabled restore_plugin_dispatch
paused_shop_reopens = refl

-- The core alone, which the layer keeps.
abbrev lone_host : Host
lone_host = record host { plugins = core_plugin ∷ [] }

pause_plugin_refused_example : Reopened 1 core_plugin (pause_plugin loud_env lone_host 1).1.plugins
unfolding plugin_by_handle has_running_dependent plugin_command_active pause_plugin
pause_plugin_refused_example =
    pause_plugin_refused loud_env loud_env-Reentrant lone_host 1 core_plugin (refl, (tt, tt)) refl
      refl
