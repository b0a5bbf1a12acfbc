-- ===== src/Plugins/Unloading.antt =====
-- UnloadPluginCommand of host/src/plugin_manager.cpp.
use keel_s.Common.{
  ℕ, ◌==◌, Bool, true, false, ◌&&◌, ◌||◌, not, List, [], ◌∷◌, ◌++◌, Option, none, some, filter, ltb,
  if◌then◌else◌, KeelResult, ok, busy, is_ok,
}
use keel_s.Text.{Bytes}
use keel_s.Plugins.{
  Plugin, disabled, quarantined, retained, Host, is_loaded, is_paused, plugin_by_handle, put_plugin,
  remove_plugin_record, set_commands_owned_enabled, remove_commands_owned_by,
}
use keel_s.Plugins.Select.{Selection, selected, not_found, ambiguous, required, select_plugin}
use keel_s.Plugins.Depend.{has_running_dependent}
use keel_s.Plugins.Environment.{Environment, Layer, deactivate_all}
use keel_s.Plugins.Transitions.{
  set_transitioning, end_transition, restore_plugin_dispatch, prepare_plugin_unload,
}
use keel_s.Plugins.Starting.{closed_image}

-- The layers that UnloadPluginCommand asks, in its order. The others of the first list are the lifecycle,
-- the console variables, the plugin events and KeelHook; those of the second are the lifecycle, the
-- Source 2 callbacks, the console variables, the entities and the plugin events. A layer that does not
-- exist answers OK and changes nothing.
pub record UnloadLayers : Type 0 where
  pub deactivate_factories : Layer
  pub deactivate_source2 : Layer
  pub activate_source2 : ℕ → Host → Host
  pub deactivate_others : List Layer
  pub release_keelhook : Layer
  pub release_others : List Layer
  pub release_published : Layer
  pub release_factories : Layer
  pub publish_unloaded : ℕ → Host → Host

-- A call of layers, what follows where it was refused, and what follows where it was OK.
abbrev pub stage : KeelResult × Host → (Host → Bool × Host) → (Host → Bool × Host) → Bool × Host
stage (result, host) refuse next = if not (is_ok result) then refuse host else next host

abbrev pub refused : Host → Bool × Host
refused host = (false, host)

abbrev pub when : Bool → Layer → Layer
when b layer = λ handle host. if b then layer handle host else (ok, host)

abbrev pub quarantine : ℕ → Host → Host
quarantine handle =
    put_plugin handle (λ p. record p { cleanup_pending = true; diagnostic = quarantined })

abbrev pub is_busy : KeelResult → Bool
is_busy busy = true
is_busy _ = false

abbrev pub pends : Option Plugin → Bool
pends none = false
pends (some p) = p.cleanup_pending

abbrev pub has_unload : Option Plugin → Bool
has_unload none = false
has_unload (some p) = p.unload

-- The unload callback, where there is one, and the end of the image.
abbrev pub run_unload : Environment → ℕ → Host → Host
run_unload env handle host =
    let called =
      put_plugin handle (λ p. record p { cleanup_callback_active = false })
        (env.unload handle
          (put_plugin handle (λ p. record p { cleanup_callback_active = true }) host)) in
    put_plugin handle (λ p. closed_image (record p { load = false; unload = false }))
      (if has_unload (plugin_by_handle host handle) then called else host)

-- The order of file names that std::sort goes by.
abbrev pub precedes : Bytes → Bytes → Bool
precedes [] [] = false
precedes [] (c ∷ b) = true
precedes (c ∷ a) [] = false
precedes (c ∷ a) (d ∷ b) =
    let rest = precedes a b in if ltb c d then true else if ltb d c then false else rest

abbrev pub insert_by_file : Plugin → List Plugin → List Plugin
insert_by_file p [] = p ∷ []
insert_by_file p (q ∷ plugins) =
    let rest = insert_by_file p plugins in
    if precedes p.file q.file then p ∷ q ∷ plugins else q ∷ rest

-- std::sort of the disabled plugins by their file names.
abbrev pub sort_by_file : List Plugin → List Plugin
sort_by_file [] = []
sort_by_file (p ∷ plugins) = insert_by_file p (sort_by_file plugins)

-- plugins_.erase of the entry that std::find_if finds.
abbrev pub erase_plugin : ℕ → List Plugin → List Plugin
erase_plugin handle [] = []
erase_plugin handle (p ∷ plugins) =
    let rest = erase_plugin handle plugins in if p.handle == handle then plugins else p ∷ rest

abbrev pub disable_found : ℕ → Host → Option Plugin → Host
disable_found handle host none = host
disable_found handle host (some p) = record host {
  plugins = erase_plugin handle host.plugins;
  load_order = filter (λ h. not (h == handle)) host.load_order;
  disabled_plugins =
      sort_by_file
        (host.disabled_plugins ++ record p { state = disabled; transitioning = false } ∷ []);
}

-- The record moves to the disabled plugins.
abbrev pub disable_record : ℕ → Host → Host
disable_record handle host = disable_found handle host (plugin_by_handle host handle)

-- The end of an unload that nothing refused.
abbrev pub finish_unload : Environment → UnloadLayers → Bool → ℕ → Host → Bool × Host
finish_unload env layers disable handle host =
    let closed = run_unload env handle (remove_commands_owned_by host handle) in
    (
      true,
      layers.publish_unloaded handle
          (if disable then disable_record handle closed else remove_plugin_record closed handle),
    )

-- The releases, behind the preparation of the plugin.
unfoldable pub release_layers : Environment → UnloadLayers → Bool → Bool → ℕ → Host → Bool × Host
release_layers env layers disable was_running handle host =
    let (keelhook, _) = layers.release_keelhook handle host in
    stage (layers.release_keelhook handle host)
      (λ h. refused (
        if is_busy keelhook && not (pends (plugin_by_handle h handle)) && was_running
        then restore_plugin_dispatch env handle h
        else quarantine handle h))
      (λ h.
        stage (deactivate_all layers.release_others handle h) (λ h. refused (quarantine handle h))
          (λ h.
            stage (layers.release_published handle h)
              (λ h. refused (restore_plugin_dispatch env handle h))
              (λ h.
                stage (layers.release_factories handle h)
                  (λ h. refused (
                    put_plugin handle
                      (λ p. record p { cleanup_pending = true; diagnostic = retained }) h))
                  (finish_unload env layers disable handle))))

abbrev pub of_prepared : Bool × Host → KeelResult × Host
of_prepared (is_prepared, host) = (if is_prepared then ok else busy, host)

-- The layers come to rest and the plugin prepares its unload.
unfoldable pub deactivate_layers : Environment → UnloadLayers → Bool → Bool → ℕ → Host → Bool × Host
deactivate_layers env layers disable was_running handle host =
    stage (layers.deactivate_factories handle host)
      (λ h. refused (restore_plugin_dispatch env handle h))
      (λ h.
        stage (when was_running layers.deactivate_source2 handle h)
          (λ h. refused (
            layers.activate_source2 handle (
              set_commands_owned_enabled
                (put_plugin handle (λ p. record p { accepting_resources = true }) h) handle true)))
          (λ h.
            stage (when was_running (deactivate_all layers.deactivate_others) handle h)
              (λ h. refused (restore_plugin_dispatch env handle h))
              (λ h.
                stage (of_prepared (prepare_plugin_unload env handle h))
                  (λ h. refused (if was_running then restore_plugin_dispatch env handle h else h))
                  (release_layers env layers disable was_running handle))))

-- UnloadPluginCommand behind its transition.
abbrev pub unload_in_transition : Environment → UnloadLayers → Bool → Plugin → Host → Bool × Host
unload_in_transition env layers disable plugin host =
    let handle = plugin.handle in
    let stopped =
      set_commands_owned_enabled
        (put_plugin handle (λ p. record p { accepting_resources = false }) host) handle false in
    if has_running_dependent host env.published_services (env.pinned handle) plugin true
    then (false, host)
    else deactivate_layers env layers disable (is_loaded plugin.state) handle stopped

-- The transition ends where the plugin stays.
abbrev pub stays : ℕ → Bool × Host → Bool × Host
stays handle (true, host) = (true, host)
stays handle (false, host) = (false, end_transition handle host)

abbrev pub unload_selected : Environment → UnloadLayers → Bool → Host → Selection → Bool × Host
unload_selected env layers disable host (selected p) =
    let result =
      unload_in_transition env layers disable (set_transitioning true p)
        (put_plugin p.handle (set_transitioning true) host) in
    if not (is_loaded p.state || is_paused p.state)
    then (false, host)
    else if p.transitioning
    then (false, host)
    else stays p.handle result
unload_selected env layers disable host required = (false, host)
unload_selected env layers disable host not_found = (false, host)
unload_selected env layers disable host (ambiguous matches) = (false, host)

unfoldable pub unload_plugin : Environment → UnloadLayers → Host → Bytes → Bool → Bool × Host
unload_plugin env layers host selector disable =
    unload_selected env layers disable host (select_plugin host selector)
