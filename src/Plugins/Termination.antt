-- ===== src/Plugins/Termination.antt =====
-- StartDiscoveredPlugins of host/src/plugin_manager.cpp ends, and leaves no discovered plugin waiting.
use keel_s.Common.{ℕ, Bool, true, false, ◌&&◌, not, if◌then◌else◌, ◌≡◌, refl, sym, ◌∙◌, arith}
use keel_s.Plugins.{
  loaded, paused, error, rollback_failed, load_threw, dependency_changed, pause_refused,
  cleanup_incomplete, Host, is_loading, plugin_by_handle, put_plugin, set_commands_owned_enabled,
  remove_commands_owned_by,
}
use keel_s.Plugins.Environment.{Environment, rejected, release_all, loaded_event, paused_event}
use keel_s.Plugins.Transitions.{
  restore_plugin_dispatch, prepare_plugin_pause, prepare_plugin_unload, has_prepare_pause,
  has_prepare_unload,
}
use keel_s.Plugins.Starting.{
  closed_image, keeps_diagnostic, set_diagnostic, begin_start, run_load, has_load, is_threw,
  is_accepted, ready_in, unload_rejected, reject_start, accept_start, start_paused, start_plugin,
  pauses, is_loading_at,
}
use keel_s.Plugins.Waiting.{
  contradiction, NoneNew, NeverDiscovers, NoneNew-trans, NoneNew-refl, NoneNew-if, put-NoneNew,
  put-ends, ended_later, NoneNew-if_result, minor-NoneNew, same_plugins-NoneNew,
  release_all-NoneNew, activate_all-NoneNew,
}

-- The call makes no plugin wait, and the plugin itself waits no longer.
abbrev pub Ends : ℕ → Host → Host → Type 0
Ends n host host' = NoneNew host host' × (is_loading_at host' n ≡ false)

module _ (env : Environment) (quiet : NeverDiscovers env) (n : ℕ) where
  pub restore_plugin_dispatch-NoneNew :
      (host : Host) → NoneNew host (restore_plugin_dispatch env n host)
  unfolding restore_plugin_dispatch set_commands_owned_enabled
  restore_plugin_dispatch-NoneNew host =
      let accepting = put_plugin n (λ p. record p { accepting_resources = true }) host in
      let enabled = set_commands_owned_enabled accepting n true in
      NoneNew-trans host accepting _ (minor-NoneNew _ n host (λ p. (refl, refl))) (
        NoneNew-trans accepting
          (put_plugin n (λ p. record p { factory_dispatch_enabled = true }) enabled) _
          (NoneNew-trans accepting enabled _ (same_plugins-NoneNew accepting enabled refl)
            (minor-NoneNew _ n enabled (λ p. (refl, refl))))
          (activate_all-NoneNew env.activates n _ quiet.activates))

  stopped-NoneNew :
      (host : Host)
      → NoneNew host (
          set_commands_owned_enabled
            (put_plugin n (λ p. record p { accepting_resources = false }) host)
            n
            false)
  unfolding set_commands_owned_enabled
  stopped-NoneNew host =
      let refusing = put_plugin n (λ p. record p { accepting_resources = false }) host in
      NoneNew-trans host refusing (set_commands_owned_enabled refusing n false)
        (minor-NoneNew _ n host (λ p. (refl, refl))) (same_plugins-NoneNew refusing _ refl)

  prepare_plugin_pause-NoneNew : (host : Host) → NoneNew host (prepare_plugin_pause env n host).1
  unfolding prepare_plugin_pause
  prepare_plugin_pause-NoneNew host =
      let marked =
        put_plugin n (λ p. record p { prepare_pause_active = true; cleanup_callback_active = true })
          host in
      NoneNew-if_result (not (has_prepare_pause (plugin_by_handle host n))) host _ _
        (NoneNew-refl host)
        (NoneNew-if_result (not env.is_game_thread) host _ _ (NoneNew-refl host) (
          NoneNew-trans host marked _ (minor-NoneNew _ n host (λ p. (refl, refl))) (
            NoneNew-trans marked (env.prepare_pause n marked).1 _ (quiet.prepare_pause n marked)
              (minor-NoneNew _ n _ (λ p. (refl, refl))))))

  prepare_plugin_unload-NoneNew : (host : Host) → NoneNew host (prepare_plugin_unload env n host).1
  unfolding prepare_plugin_unload
  prepare_plugin_unload-NoneNew host =
      let marked =
        put_plugin n
          (λ p. record p { prepare_unload_active = true; cleanup_callback_active = true }) host in
      NoneNew-if_result (not (has_prepare_unload (plugin_by_handle host n))) host _ _
        (NoneNew-refl host)
        (NoneNew-if_result (not env.is_game_thread) host _ _ (NoneNew-refl host) (
          NoneNew-trans host marked _ (minor-NoneNew _ n host (λ p. (refl, refl))) (
            NoneNew-trans marked (env.prepare_unload n marked).1 _ (quiet.prepare_unload n marked)
              (minor-NoneNew _ n _ (λ p. (refl, refl))))))

  unload_rejected-NoneNew : (host : Host) → NoneNew host (unload_rejected env n host)
  unload_rejected-NoneNew host =
      let marked = put_plugin n (λ p. record p { cleanup_callback_active = true }) host in
      let called = env.unload n marked in
      let closed =
        put_plugin n
          (λ p. closed_image (record p {
            cleanup_callback_active = false;
            diagnostic = keeps_diagnostic p.diagnostic;
            load = false;
            unload = false;
          }))
          called in
      NoneNew-trans host marked _ (minor-NoneNew _ n host (λ p. (refl, refl))) (
        NoneNew-trans marked called _ (quiet.unload n marked) (
          NoneNew-trans called closed _ (minor-NoneNew _ n called (λ p. (refl, refl)))
            (same_plugins-NoneNew closed _ refl)))

  reject_start-Ends : (host : Host) → Ends n host (reject_start env n host)
  unfolding reject_start
  reject_start-Ends host =
      let stopped =
        set_commands_owned_enabled
          (put_plugin n (λ p. record p { accepting_resources = false }) host) n false in
      let released = (release_all env.releases n stopped).1 in
      let removed = remove_commands_owned_by released n in
      let failed = put_plugin n (λ p. record p { state = error }) removed in
      let kept : NoneNew host failed = NoneNew-trans host stopped failed (stopped-NoneNew host) (
        NoneNew-trans stopped released failed
          (release_all-NoneNew env.releases n stopped quiet.releases)
          (NoneNew-trans released removed failed (same_plugins-NoneNew released removed refl)
            (put-NoneNew _ n removed (λ p. refl) (λ p l. absurd (contradiction l))))) in
      let behind : NoneNew failed _ =
        NoneNew-if (not (release_all env.releases n stopped).0) failed
          (put_plugin n (λ p. record p { cleanup_pending = true; diagnostic = rollback_failed })
            failed)
          (unload_rejected env n failed) (minor-NoneNew _ n failed (λ p. (refl, refl)))
          (unload_rejected-NoneNew failed) in
      (
        NoneNew-trans host failed _ kept behind,
        ended_later n failed _ (put-ends _ n removed (λ p. refl) (λ p. refl)) behind,
      )

  accept_start-Ends : (active : Bool) (host : Host) → Ends n host (accept_start env active n host)
  unfolding accept_start
  accept_start-Ends active host =
      let started =
        put_plugin n
          (λ p. record p {
            state = if active then loaded else paused;
            accepting_resources = active;
            factory_dispatch_enabled = active;
          })
          host in
      let running : is_loading (if active then loaded else paused) ≡ false = ground arith in
      let restored = if active then restore_plugin_dispatch env n started else started in
      let published = env.publish loaded_event n restored in
      let ending : NoneNew started _ =
        NoneNew-trans started restored _
          (NoneNew-if active started _ _ (restore_plugin_dispatch-NoneNew started)
            (NoneNew-refl started))
          (NoneNew-trans restored published _ (quiet.publish loaded_event n restored) (
            NoneNew-if (not active && pauses (plugin_by_handle published n)) published
              (env.publish paused_event n published) published
              (quiet.publish paused_event n published) (NoneNew-refl published))) in
      (
        NoneNew-trans host started _
            (put-NoneNew _ n host (λ p. refl) (λ p l. absurd (contradiction (sym running ∙ l))))
            ending,
        ended_later n started _ (put-ends _ n host (λ p. refl) (λ p. running)) ending,
      )

  pub Ends-trans : (a b c : Host) → NoneNew a b → Ends n b c → Ends n a c
  Ends-trans a b c h (k, e) = (NoneNew-trans a b c h k, e)

  Ends-if : (b : Bool) (a x y : Host) → Ends n a x → Ends n a y → Ends n a (if b then x else y)
  Ends-if true a x y h k = h
  Ends-if false a x y h k = k

  refused-NoneNew :
      (host : Host)
      → NoneNew host
          (put_plugin n (λ p. record p { state = error; diagnostic = pause_refused }) host)
  refused-NoneNew host = put-NoneNew _ n host (λ p. refl) (λ p l. absurd (contradiction l))

  -- A replacement that refuses to pause and to unload is an error whose module is kept.
  kept_module :
      (host : Host)
      → Ends n host (
          put_plugin n
            (λ p. record p { cleanup_pending = true; diagnostic = cleanup_incomplete })
            (prepare_plugin_unload env n
              (put_plugin n (λ p. record p { state = error; diagnostic = pause_refused }) host)).1)
  kept_module host =
      let refused =
        put_plugin n (λ p. record p { state = error; diagnostic = pause_refused }) host in
      let unloading = (prepare_plugin_unload env n refused).1 in
      let behind : NoneNew refused _ =
        NoneNew-trans refused unloading _ (prepare_plugin_unload-NoneNew refused) (
          minor-NoneNew (λ p. record p { cleanup_pending = true; diagnostic = cleanup_incomplete })
            n unloading (λ p. (refl, refl))) in
      (
        NoneNew-trans host refused _ (refused-NoneNew host) behind,
        ended_later n refused _ (put-ends _ n host (λ p. refl) (λ p. refl)) behind,
      )

  start_paused-Ends : (host : Host) → Ends n host (start_paused env n host)
  unfolding start_paused
  start_paused-Ends host =
      let stopped =
        set_commands_owned_enabled
          (put_plugin n (λ p. record p { accepting_resources = false }) host) n false in
      let prepared = (prepare_plugin_pause env n stopped).1 in
      let refused =
        put_plugin n (λ p. record p { state = error; diagnostic = pause_refused }) prepared in
      let unloading = (prepare_plugin_unload env n refused).1 in
      Ends-trans host prepared _
        (NoneNew-trans host stopped prepared (stopped-NoneNew host)
          (prepare_plugin_pause-NoneNew stopped))
        (Ends-if (prepare_plugin_pause env n stopped).0 prepared _ _
          (accept_start-Ends false prepared)
          (Ends-if (not (prepare_plugin_unload env n refused).0) prepared _ _ (kept_module prepared)
            (Ends-trans prepared unloading _
              (NoneNew-trans prepared refused unloading (refused-NoneNew prepared)
                (prepare_plugin_unload-NoneNew refused))
              (reject_start-Ends unloading))))

  run_load-NoneNew : (host : Host) → NoneNew host (run_load env n host).1
  run_load-NoneNew host =
      let outcome =
        if has_load (plugin_by_handle host n) then env.load n host else (rejected, host) in
      let thrown =
        if is_threw outcome.0
        then put_plugin n (set_diagnostic load_threw) outcome.1
        else outcome.1 in
      let is_satisfied = ready_in thrown (plugin_by_handle thrown n) in
      let checked =
        if is_accepted outcome.0 && not is_satisfied
        then put_plugin n (set_diagnostic dependency_changed) thrown
        else thrown in
      NoneNew-trans host outcome.1 _
        (NoneNew-if_result (has_load (plugin_by_handle host n)) host (env.load n host)
          (rejected, host) (quiet.load n host) (NoneNew-refl host))
        (NoneNew-trans outcome.1 thrown _
          (NoneNew-if (is_threw outcome.0) outcome.1 _ _
            (minor-NoneNew _ n outcome.1 (λ p. (refl, refl))) (NoneNew-refl outcome.1))
          (NoneNew-trans thrown checked _
            (NoneNew-if (is_accepted outcome.0 && not is_satisfied) thrown _ _
              (minor-NoneNew _ n thrown (λ p. (refl, refl))) (NoneNew-refl thrown))
            (minor-NoneNew _ n checked (λ p. (refl, refl)))))

  begin_start-NoneNew : (host : Host) → NoneNew host (begin_start n host)
  begin_start-NoneNew host =
      let marked =
        put_plugin n (λ p. record p { accepting_resources = true; is_starting = true }) host in
      NoneNew-trans host marked _ (minor-NoneNew _ n host (λ p. (refl, refl)))
        (same_plugins-NoneNew marked _ refl)

  -- A plugin that StartPlugin was called for is loaded, paused or an error, whatever its code does.
  pub start_plugin-Ends :
      (active : Bool) (host : Host) → Ends n host (start_plugin env active n host)
  unfolding start_plugin
  start_plugin-Ends active host =
      let begun = begin_start n host in
      let (is_started, host') = run_load env n begun in
      Ends-trans host host' _
        (NoneNew-trans host begun host' (begin_start-NoneNew host) (run_load-NoneNew begun))
        (Ends-if (not is_started) host' _ _ (reject_start-Ends host')
          (Ends-if (not active) host' _ _ (start_paused-Ends host') (accept_start-Ends true host')))
