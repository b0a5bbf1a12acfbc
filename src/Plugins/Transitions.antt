-- ===== src/Plugins/Transitions.antt =====
-- PausePlugin, ResumePlugin, RestorePluginDispatch and PluginTransition of host/src/plugin_manager.cpp,
-- and the preparation callbacks of host/src/host.cpp.
use keel_s.Common.{
  ℕ, Bool, true, false, ◌&&◌, ◌||◌, not, Option, none, some, if◌then◌else◌, KeelResult, ok, is_ok,
  invalid_argument, not_ready, not_found, already_exists, busy,
}
use keel_s.Plugins.{
  Plugin, loaded, paused, Host, is_loaded, is_paused, plugin_by_handle, put_plugin,
  set_commands_owned_enabled,
}
use keel_s.Plugins.Depend.{is_ready, dependencies_ready, has_running_dependent}
use keel_s.Plugins.Environment.{
  Environment, deactivate_all, activate_all, paused_event, resumed_event,
}

abbrev pub set_transitioning : Bool → Plugin → Plugin
set_transitioning active p = record p { transitioning = active }

-- RestorePluginDispatch.
unfoldable pub restore_plugin_dispatch : Environment → ℕ → Host → Host
restore_plugin_dispatch env target host =
    let accepting = put_plugin target (λ p. record p { accepting_resources = true }) host in
    let dispatching =
      put_plugin target (λ p. record p { factory_dispatch_enabled = true })
        (set_commands_owned_enabled accepting target true) in
    activate_all env.activates target dispatching

-- ApiSetPreparePause: the callback is whether it is set, and so is its data.
unfoldable pub set_prepare_pause : Host → ℕ → Bool → Bool → KeelResult × Host
set_prepare_pause host plugin callback user_data = elim (plugin_by_handle host plugin) [
  | none ↦ (invalid_argument, host)
  | some owner ↦
      if not callback && user_data
      then (invalid_argument, host)
      else if owner.prepare_pause_active
      then (busy, host)
      else if callback
          && (not host.accepting_resources
              || not owner.accepting_resources
              || owner.transitioning
              || owner.cleanup_pending)
      then (not_ready, host)
      else (ok, put_plugin plugin (λ p. record p { prepare_pause = callback }) host)
]

-- ApiSetPrepareUnload.
unfoldable pub set_prepare_unload : Host → ℕ → Bool → Bool → KeelResult × Host
set_prepare_unload host plugin callback user_data = elim (plugin_by_handle host plugin) [
  | none ↦ (invalid_argument, host)
  | some owner ↦
      if not callback && user_data
      then (invalid_argument, host)
      else if owner.prepare_unload_active
      then (busy, host)
      else if callback
          && (not host.accepting_resources
              || not owner.accepting_resources
              || owner.transitioning
              || owner.cleanup_pending)
      then (not_ready, host)
      else (ok, put_plugin plugin (λ p. record p { prepare_unload = callback }) host)
]

abbrev pub pausing : Bool → Plugin → Plugin
pausing active p = record p { prepare_pause_active = active; cleanup_callback_active = active }

abbrev pub unloading : Bool → Plugin → Plugin
unloading active p = record p { prepare_unload_active = active; cleanup_callback_active = active }

-- The callback of PreparePluginPause, with the flags that stand while it runs.
abbrev pub run_prepare_pause : Environment → ℕ → Host → Bool × Host
run_prepare_pause env target host =
    let (is_prepared, host') = env.prepare_pause target (put_plugin target (pausing true) host) in
    (is_prepared, put_plugin target (pausing false) host')

abbrev pub has_prepare_pause : Option Plugin → Bool
has_prepare_pause none = false
has_prepare_pause (some p) = p.prepare_pause

-- PreparePluginPause.
unfoldable pub prepare_plugin_pause : Environment → ℕ → Host → Bool × Host
prepare_plugin_pause env target host =
    if not (has_prepare_pause (plugin_by_handle host target))
    then (true, host)
    else if not env.is_game_thread
    then (false, host)
    else run_prepare_pause env target host

abbrev pub run_prepare_unload : Environment → ℕ → Host → Bool × Host
run_prepare_unload env target host =
    let (is_prepared, host') =
      env.prepare_unload target (put_plugin target (unloading true) host) in
    (is_prepared, put_plugin target (unloading false) host')

abbrev pub has_prepare_unload : Option Plugin → Bool
has_prepare_unload none = false
has_prepare_unload (some p) = p.prepare_unload

-- PreparePluginUnload.
unfoldable pub prepare_plugin_unload : Environment → ℕ → Host → Bool × Host
prepare_plugin_unload env target host =
    if not (has_prepare_unload (plugin_by_handle host target))
    then (true, host)
    else if not env.is_game_thread
    then (false, host)
    else run_prepare_unload env target host

-- The destructor of PluginTransition, which every return behind it runs.
abbrev pub end_transition : ℕ → Host → Host
end_transition target = put_plugin target (set_transitioning false)

-- The rest of PausePlugin, once the layers were asked.
abbrev pub finish_pause : Environment → ℕ → KeelResult × Host → KeelResult × Host
finish_pause env target (result, host) =
    let (is_prepared, host') = prepare_plugin_pause env target host in
    if not (is_ok result)
    then (result, restore_plugin_dispatch env target host)
    else if not is_prepared
    then (busy, restore_plugin_dispatch env target host')
    else (
      ok,
      env.publish paused_event target (put_plugin target (λ p. record p { state = paused }) host'),
    )

-- PausePlugin behind its transition.
abbrev pub pause_in_transition : Environment → ℕ → Plugin → Host → KeelResult × Host
pause_in_transition env target plugin host =
    let stopped =
      set_commands_owned_enabled
        (put_plugin target (λ p. record p { accepting_resources = false }) host) target false in
    if has_running_dependent host env.published_services (env.pinned target) plugin false
    then (busy, host)
    else finish_pause env target (deactivate_all env.deactivates target stopped)

abbrev pub pause_found : Environment → ℕ → Host → Option Plugin → KeelResult × Host
pause_found env target host none = (not_found, host)
pause_found env target host (some p) =
    let (result, host') =
      pause_in_transition env target (set_transitioning true p)
        (put_plugin target (set_transitioning true) host) in
    if is_paused p.state
    then (already_exists, host)
    else if not (is_loaded p.state)
    then (not_ready, host)
    else if p.transitioning
    then (busy, host)
    else (result, end_transition target host')

unfoldable pub pause_plugin : Environment → Host → ℕ → KeelResult × Host
pause_plugin env host target = pause_found env target host (plugin_by_handle host target)

-- ResumePlugin behind its transition.
abbrev pub resume_in_transition : Environment → ℕ → Plugin → Host → KeelResult × Host
resume_in_transition env target plugin host =
    if not (is_ready (dependencies_ready host plugin)) then (not_ready, host) else (
      ok,
      env.publish resumed_event target (
          restore_plugin_dispatch env target
            (put_plugin target (λ p. record p { state = loaded }) host)),
    )

abbrev pub resume_found : Environment → ℕ → Host → Option Plugin → KeelResult × Host
resume_found env target host none = (not_found, host)
resume_found env target host (some p) =
    let (result, host') =
      resume_in_transition env target (set_transitioning true p)
        (put_plugin target (set_transitioning true) host) in
    if is_loaded p.state
    then (already_exists, host)
    else if not (is_paused p.state)
    then (not_ready, host)
    else if p.transitioning
    then (busy, host)
    else (result, end_transition target host')

unfoldable pub resume_plugin : Environment → Host → ℕ → KeelResult × Host
resume_plugin env host target = resume_found env target host (plugin_by_handle host target)
