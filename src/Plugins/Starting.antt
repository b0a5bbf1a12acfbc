-- ===== src/Plugins/Starting.antt =====
-- StartPlugin, StartDiscoveredPlugins and RejectUnstartedPlugin of host/src/plugin_manager.cpp.
use keel_s.Common.{
  ℕ, zero, suc, ◌+◌, ◌==◌, Bool, true, false, ◌&&◌, not, List, [], ◌∷◌, ◌++◌, Option, none, some,
  filter, length, if◌then◌else◌,
}
use keel_s.Manifest.{Dependency, dependency_version_matches}
use keel_s.Plugins.{
  Plugin, loaded, paused, error, Diagnostic, no_diagnostic, load_threw, dependency_changed,
  dependency_missing, dependency_itself, dependency_mismatch, dependency_stopped, dependency_cycle,
  pause_refused, cleanup_incomplete, rollback_failed, load_rejected, Host, is_loading, is_loaded,
  is_paused, plugin_by_handle, put_plugin, target_in, set_commands_owned_enabled,
  remove_commands_owned_by,
}
use keel_s.Plugins.Depend.{is_ready, dependencies_ready}
use keel_s.Plugins.Environment.{
  Environment, LoadOutcome, accepted, rejected, threw, release_all, loaded_event, paused_event,
}
use keel_s.Plugins.Transitions.{
  restore_plugin_dispatch, prepare_plugin_pause, prepare_plugin_unload,
}

-- ClosePluginImage.
abbrev pub closed_image : Plugin → Plugin
closed_image p = record p { prepare_pause = false; prepare_unload = false; library_open = false }

-- RejectUnstartedPlugin.
unfoldable pub reject_unstarted_plugin : Diagnostic → ℕ → Host → Host
reject_unstarted_plugin diagnostic = λ handle. put_plugin handle (λ p. closed_image (record p {
  accepting_resources = false;
  is_starting = false;
  state = error;
  diagnostic = diagnostic;
  load = false;
  unload = false;
}))

abbrev pub has_load : Option Plugin → Bool
has_load none = false
has_load (some p) = p.load

abbrev pub is_accepted : LoadOutcome → Bool
is_accepted accepted = true
is_accepted rejected = false
is_accepted threw = false

abbrev pub is_threw : LoadOutcome → Bool
is_threw threw = true
is_threw accepted = false
is_threw rejected = false

abbrev pub ready_in : Host → Option Plugin → Bool
ready_in host none = false
ready_in host (some p) = is_ready (dependencies_ready host p)

abbrev pub set_diagnostic : Diagnostic → Plugin → Plugin
set_diagnostic d p = record p { diagnostic = d }

-- The record before its load callback runs.
abbrev pub begin_start : ℕ → Host → Host
begin_start handle host =
    record (put_plugin handle (λ p. record p { accepting_resources = true; is_starting = true })
      host) { load_order = host.load_order ++ handle ∷ [] }

-- The load callback, the check of the dependencies behind it, and the end of `loading`.
abbrev pub run_load : Environment → ℕ → Host → Bool × Host
run_load env handle host =
    let (outcome, host') =
      if has_load (plugin_by_handle host handle) then env.load handle host else (rejected, host) in
    let thrown =
      if is_threw outcome then put_plugin handle (set_diagnostic load_threw) host' else host' in
    let is_satisfied = ready_in thrown (plugin_by_handle thrown handle) in
    let checked =
      if is_accepted outcome && not is_satisfied
      then put_plugin handle (set_diagnostic dependency_changed) thrown
      else thrown in
    (
      is_accepted outcome && is_satisfied,
      put_plugin handle (λ p. record p { is_starting = false }) checked,
    )

abbrev pub keeps_diagnostic : Diagnostic → Diagnostic
keeps_diagnostic no_diagnostic = load_rejected
keeps_diagnostic d = d

-- The unload callback of a plugin that did not start, and the end of its image.
abbrev pub unload_rejected : Environment → ℕ → Host → Host
unload_rejected env handle host =
    let called =
      env.unload handle
        (put_plugin handle (λ p. record p { cleanup_callback_active = true }) host) in
    let closed =
      put_plugin handle
        (λ p. closed_image (record p {
          cleanup_callback_active = false;
          diagnostic = keeps_diagnostic p.diagnostic;
          load = false;
          unload = false;
        }))
        called in
    record closed { load_order = filter (λ h. not (h == handle)) closed.load_order }

-- `if (!loaded)`: the layers give up what the plugin registered while it started.
unfoldable pub reject_start : Environment → ℕ → Host → Host
reject_start env handle host =
    let stopped =
      set_commands_owned_enabled
        (put_plugin handle (λ p. record p { accepting_resources = false }) host) handle false in
    let (released, host') = release_all env.releases handle stopped in
    let failed =
      put_plugin handle (λ p. record p { state = error }) (remove_commands_owned_by host' handle) in
    if not released
    then put_plugin handle (λ p. record p { cleanup_pending = true; diagnostic = rollback_failed })
        failed
    else unload_rejected env handle failed

abbrev pub pauses : Option Plugin → Bool
pauses none = false
pauses (some p) = is_paused p.state

-- The end of a start that went through.
unfoldable pub accept_start : Environment → Bool → ℕ → Host → Host
accept_start env active handle host =
    let started =
      put_plugin handle
        (λ p. record p {
          state = if active then loaded else paused;
          accepting_resources = active;
          factory_dispatch_enabled = active;
        })
        host in
    let restored = if active then restore_plugin_dispatch env handle started else started in
    let published = env.publish loaded_event handle restored in
    if not active && pauses (plugin_by_handle published handle)
    then env.publish paused_event handle published
    else published

-- A replacement that starts paused prepares to pause; where it refuses it is rejected, and where it
-- refuses to unload as well, its module is kept.
unfoldable pub start_paused : Environment → ℕ → Host → Host
start_paused env handle host =
    let stopped =
      set_commands_owned_enabled
        (put_plugin handle (λ p. record p { accepting_resources = false }) host) handle false in
    let (is_prepared, host') = prepare_plugin_pause env handle stopped in
    let refused =
      put_plugin handle (λ p. record p { state = error; diagnostic = pause_refused }) host' in
    let (can_unload, host'') = prepare_plugin_unload env handle refused in
    if is_prepared
    then accept_start env false handle host'
    else if not can_unload
    then put_plugin handle
        (λ p. record p { cleanup_pending = true; diagnostic = cleanup_incomplete }) host''
    else reject_start env handle host''

unfoldable pub start_plugin : Environment → Bool → ℕ → Host → Host
start_plugin env active handle host =
    let (is_started, host') = run_load env handle (begin_start handle host) in
    if not is_started
    then reject_start env handle host'
    else if not active
    then start_paused env handle host'
    else accept_start env true handle host'

-- What the loop over the dependencies of a discovered plugin finds.
pub data Verdict : Type 0 where
  starts waits : Verdict
  refuses : Diagnostic → Verdict

abbrev pub waits_for : Verdict → Verdict
waits_for (refuses d) = refuses d
waits_for starts = waits
waits_for waits = waits

-- The body of that loop for one target, with what the rest of the loop finds.
abbrev pub judge_target : ℕ → Dependency → Verdict → Option Plugin → Verdict
judge_target handle d rest none = refuses dependency_missing
judge_target handle d rest (some target) =
    if target.handle == handle
    then refuses dependency_itself
    else if not (dependency_version_matches target.version d)
    then refuses dependency_mismatch
    else if is_loading target.state
    then waits_for rest
    else if not (is_loaded target.state)
    then refuses dependency_stopped
    else rest

abbrev pub judge : List Plugin → ℕ → List Dependency → Verdict
judge plugins handle [] = starts
judge plugins handle (d ∷ ds) =
    judge_target handle d (judge plugins handle ds) (target_in d.name plugins)

-- Whether some plugin was still loading, and whether one was started or rejected.
pub record Round : Type 0 where
  pub host : Host
  pub remaining : Bool
  pub progress : Bool

abbrev pub decide : Environment → ℕ → Round → Verdict → Round
decide env handle r (refuses d) = record {
  host = reject_unstarted_plugin d handle r.host;
  remaining = true;
  progress = true;
}
decide env handle r starts = record {
  host = start_plugin env true handle r.host;
  remaining = true;
  progress = true;
}
decide env handle r waits = record r { remaining = true }

-- The body of the loop over the discovered handles.
abbrev pub visit : Environment → ℕ → Round → Option Plugin → Round
visit env handle r none = r
visit env handle r (some p) =
    if not (is_loading p.state)
    then r
    else decide env handle r (judge r.host.plugins p.handle p.dependencies)

unfoldable pub round : Environment → List ℕ → Round → Round
round env [] r = r
round env (handle ∷ handles) r =
    round env handles (visit env handle r (plugin_by_handle r.host handle))

abbrev pub loads : Option Plugin → Bool
loads none = false
loads (some p) = is_loading p.state

abbrev pub is_loading_at : Host → ℕ → Bool
is_loading_at host handle = loads (plugin_by_handle host handle)

-- The plugins that wait for one another are rejected.
unfoldable pub reject_cycle : List ℕ → Host → Host
reject_cycle [] host = host
reject_cycle (handle ∷ handles) host = reject_cycle handles (
    if is_loading_at host handle
    then reject_unstarted_plugin dependency_cycle handle host
    else host)

-- The rounds, as many as there is fuel for.
unfoldable pub rounds : ℕ → Environment → List ℕ → Host → Option Host
rounds zero env discovered host = none
rounds (suc fuel) env discovered host =
    let r = round env discovered (record { host = host; remaining = false; progress = false }) in
    let rest = rounds fuel env discovered r.host in
    if not r.remaining
    then some r.host
    else if not r.progress
    then some (reject_cycle discovered r.host)
    else rest

abbrev pub publish_started : Environment → Option Host → Option Host
publish_started env none = none
publish_started env (some host) = some (env.publish_all_loaded host)

-- StartDiscoveredPlugins. Every round but the last ends the start of a plugin.
unfoldable pub start_discovered_plugins : Environment → List ℕ → Host → Option Host
start_discovered_plugins env discovered host =
    publish_started env (rounds (length discovered + 1) env discovered host)
