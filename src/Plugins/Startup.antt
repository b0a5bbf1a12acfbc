-- ===== src/Plugins/Startup.antt =====
-- StartPlugin and RejectUnstartedPlugin of host/src/plugin_manager.cpp, and the table of plugins that they leave.
use keel_s.Common.{
  ℕ, ◌==◌, Bool, true, false, ◌&&◌, not, List, Option, none, some, if◌then◌else◌, ◌≡◌, refl, sym,
  ap, ◌∙◌, subst, arith, inr, ==_iff, find-found,
}
use keel_s.Plugins.{
  Plugin, PluginState, loading, loaded, paused, disabled, invalid, error, Diagnostic, load_threw,
  dependency_changed, Host, is_loading, is_loaded, plugin_in, plugin_by_handle, write_plugin,
  put_plugin, set_commands_owned_enabled, remove_commands_owned_by,
}
use keel_s.Plugins.Depend.{is_ready, dependencies_ready, check_dependencies}
use keel_s.Plugins.Environment.{Environment, rejected, release_all, loaded_event}
use keel_s.Plugins.Transitions.{restore_plugin_dispatch}
use keel_s.Plugins.Starting.{
  reject_unstarted_plugin, begin_start, run_load, has_load, is_threw, is_accepted, ready_in,
  set_diagnostic, unload_rejected, reject_start, accept_start, start_plugin,
}
use keel_s.Plugins.Fields.{Keeps, Keeps-intro}
use keel_s.Plugins.Writes.{ready_own}
use keel_s.Plugins.Sound.{Sound, Ready, some_plugin, flags-Sound, write-Sound}
use keel_s.Plugins.Respects.{
  Reentrant, Step, Step-call, Step-write, Step-flags, written_at, release_all-Respects,
  activate_all-Respects,
}
use keel_s.Plugins.Calls.{if_plugins, if_pair, never, stopped-Step}

-- The plugin is found, and its dependencies are ready.
abbrev Fit : ℕ → List Plugin → Type 0
Fit t qs = (p : Plugin) × (plugin_in t qs ≡ some p) × Ready qs p

Fit-write :
    (t : ℕ) (f : Plugin → Plugin) (qs : List Plugin)
    → Keeps f
    → Fit t qs
    → Fit t (write_plugin t f qs)
Fit-write t f qs k (p, e, r) =
    let here : p.handle ≡ t = (==_iff p.handle t).0 (find-found (λ q. q.handle == t) qs p e) in
    let qs' = write_plugin t f qs in
    (
      f p,
      written_at t f qs p k e,
      ap (λ n. is_ready (check_dependencies qs' n (f p).dependencies)) (k.handle p ∙ here)
          ∙ (ap (λ ds. is_ready (check_dependencies qs' t ds)) (k.dependencies p)
              ∙ ready_own f t k qs p.dependencies
                  (ap (λ n. is_ready (check_dependencies qs n p.dependencies)) (sym here) ∙ r)),
    )

ready_of :
    (t : ℕ) (host : Host) (o : Option Plugin)
    → plugin_in t host.plugins ≡ o
    → ready_in host o ≡ true
    → Fit t host.plugins
unfolding dependencies_ready
ready_of t host none e h = never h
ready_of t host (some p) e h = (p, e, h)

Fit-ready :
    (t : ℕ) (host : Host) → ready_in host (plugin_by_handle host t) ≡ true → Fit t host.plugins
unfolding plugin_by_handle
Fit-ready t host h = ready_of t host (plugin_in t host.plugins) refl h

and_last : (a b : Bool) → (a && b) ≡ true → b ≡ true
and_last a b h = ground arith

not-false : (b : Bool) → not b ≡ false → b ≡ true
not-false b h = ground arith

module _ (env : Environment) (re : Reentrant env) (t : ℕ) (moving : Bool) (ps : List Plugin) where
  abbrev Loading : List Plugin → Type 0
  Loading qs = Step t loading moving false ps qs

  flagged :
      (f : Plugin → Plugin) (host : Host)
      → ((p : Plugin)
          → ((f p).handle ≡ p.handle)
            × ((f p).name ≡ p.name)
            × ((f p).selectable ≡ p.selectable)
            × ((f p).version ≡ p.version)
            × ((f p).dependencies ≡ p.dependencies))
      → ((p : Plugin) → ((f p).state ≡ p.state) × ((f p).transitioning ≡ p.transitioning))
      → Loading host.plugins
      → Loading (put_plugin t f host).plugins
  flagged f host k same step =
      Step-flags t loading moving false ps false f host.plugins (Keeps-intro f k) same
        (λ p a o. never o) step

  run_load-Step :
      (host : Host)
      → Loading host.plugins
      → Loading (run_load env t host).1.plugins
        × ((run_load env t host).0 ≡ true → Fit t (run_load env t host).1.plugins)
  run_load-Step host step =
      let called =
        if has_load (plugin_by_handle host t) then env.load t host else (rejected, host) in
      let thrown =
        if is_threw called.0 then put_plugin t (set_diagnostic load_threw) called.1 else called.1 in
      let satisfied = ready_in thrown (plugin_by_handle thrown t) in
      let change = set_diagnostic dependency_changed in
      let test = is_accepted called.0 && not satisfied in
      let checked = if test then put_plugin t change thrown else thrown in
      let finish = λ (p : Plugin). record p { is_starting = false } in
      let called-Step : Loading called.1.plugins =
        if_pair (λ r. Loading r.1.plugins) (has_load (plugin_by_handle host t)) (env.load t host)
          (rejected, host)
          (λ _.
            Step-call t loading moving false ps host (env.load t host).1 (inr refl) (re.load t host)
              step)
          (λ _. step) in
      let thrown-Step : Loading thrown.plugins =
        if_plugins Loading (is_threw called.0) (put_plugin t (set_diagnostic load_threw) called.1)
          called.1
          (λ _.
            flagged (set_diagnostic load_threw) called.1 (λ p. (refl, refl, refl, refl, refl))
              (λ p. (refl, refl)) called-Step)
          (λ _. called-Step) in
      let checked-Step : Loading checked.plugins =
        if_plugins Loading test (put_plugin t change thrown) thrown
          (λ _.
            flagged change thrown (λ p. (refl, refl, refl, refl, refl)) (λ p. (refl, refl))
              thrown-Step)
          (λ _. thrown-Step) in
      (
        flagged finish checked (λ p. (refl, refl, refl, refl, refl)) (λ p. (refl, refl))
            checked-Step,
        (λ ok.
            let fit = Fit-ready t thrown (and_last (is_accepted called.0) satisfied ok) in
            Fit-write t finish checked.plugins
              (Keeps-intro finish (λ p. (refl, refl, refl, refl, refl)))
              (if_plugins (Fit t) test (put_plugin t change thrown) thrown
                (λ _.
                  Fit-write t change thrown.plugins
                    (Keeps-intro change (λ p. (refl, refl, refl, refl, refl))) fit)
                (λ _. fit))),
      )

  flags_at :
      (f : Plugin → Plugin) (host : Host)
      → ((p : Plugin)
          → ((f p).handle ≡ p.handle)
            × ((f p).name ≡ p.name)
            × ((f p).selectable ≡ p.selectable)
            × ((f p).version ≡ p.version)
            × ((f p).dependencies ≡ p.dependencies))
      → ((p : Plugin) → ((f p).state ≡ p.state) × ((f p).transitioning ≡ p.transitioning))
      → Sound host.plugins
      → Sound (put_plugin t f host).plugins
  flags_at f host k same s = flags-Sound t f host.plugins (Keeps-intro f k) same s

  unload_rejected-Sound :
      (host : Host) → Sound host.plugins → Sound (unload_rejected env t host).plugins
  unload_rejected-Sound host s =
      let marked = put_plugin t (λ p. record p { cleanup_callback_active = true }) host in
      flags_at _ (env.unload t marked) (λ p. (refl, refl, refl, refl, refl)) (λ p. (refl, refl))
        (re.unload t marked
          (flags_at _ host (λ p. (refl, refl, refl, refl, refl)) (λ p. (refl, refl)) s)).0

  reject_start-Sound :
      (host : Host) → Loading host.plugins → Sound (reject_start env t host).plugins
  unfolding reject_start set_commands_owned_enabled
  reject_start-Sound host step =
      let stopped =
        set_commands_owned_enabled
          (put_plugin t (λ p. record p { accepting_resources = false }) host) t false in
      let released = release_all env.releases t stopped in
      let fail = λ (p : Plugin). record p { state = error } in
      let failed = put_plugin t fail (remove_commands_owned_by released.1 t) in
      let failed-Step : Step t error moving false ps failed.plugins =
        Step-write t loading moving false ps error moving false fail released.1.plugins
          (Keeps-intro fail (λ p. (refl, refl, refl, refl, refl))) (λ p es em. (refl, em))
          (λ p a o. never o) (λ l m. never l) (λ p e l m. never l)
          (Step-call t loading moving false ps stopped released.1 (inr refl)
            (release_all-Respects env.releases t stopped re.releases)
            (stopped-Step env re t loading moving false ps (inr refl) host step)) in
      if_plugins Sound (not released.0) _ _
        (λ _.
          flags_at _ failed (λ p. (refl, refl, refl, refl, refl)) (λ p. (refl, refl)) failed-Step.0)
        (λ _. unload_rejected-Sound failed failed-Step.0)

  restore_plugin_dispatch-Sound :
      (host : Host) → Sound host.plugins → Sound (restore_plugin_dispatch env t host).plugins
  unfolding restore_plugin_dispatch set_commands_owned_enabled
  restore_plugin_dispatch-Sound host s =
      let enabled =
        set_commands_owned_enabled
          (put_plugin t (λ p. record p { accepting_resources = true }) host) t true in
      let dispatching = put_plugin t (λ p. record p { factory_dispatch_enabled = true }) enabled in
      (activate_all-Respects env.activates t dispatching re.activates (
        flags_at _ enabled (λ p. (refl, refl, refl, refl, refl)) (λ p. (refl, refl))
          (flags_at _ host (λ p. (refl, refl, refl, refl, refl)) (λ p. (refl, refl)) s))).0

  accept_start-Sound :
      (host : Host)
      → Loading host.plugins
      → Fit t host.plugins
      → Sound (accept_start env true t host).plugins
  unfolding accept_start
  accept_start-Sound host step (p, e, ready) =
      let g = λ (p : Plugin). record p {
        state = loaded;
        accepting_resources = true;
        factory_dispatch_enabled = true;
      } in
      let started = put_plugin t g host in
      let started-Step : Step t loaded moving true ps started.plugins =
        Step-write t loading moving false ps loaded moving true g host.plugins
          (Keeps-intro g (λ p. (refl, refl, refl, refl, refl))) (λ p es em. (refl, em))
          (λ p a o. refl) (λ l m. never l)
          (λ q e' l m. subst (Ready host.plugins) (some_plugin (sym e ∙ e')) ready) step in
      let restored = restore_plugin_dispatch env t started in
      (re.publish loaded_event t restored (restore_plugin_dispatch-Sound started started-Step.0)).0

idle_loading : (s : PluginState) → is_loading s ≡ true → is_loaded s ≡ true → ⊥
idle_loading loaded h l = never h
idle_loading loading h l = never l
idle_loading paused h l = never l
idle_loading disabled h l = never l
idle_loading invalid h l = never l
idle_loading error h l = never l

loading_of : (s : PluginState) → is_loading s ≡ true → s ≡ loading
loading_of loading h = refl
loading_of loaded h = never h
loading_of paused h = never h
loading_of disabled h = never h
loading_of invalid h = never h
loading_of error h = never h

module _ (t : ℕ) (host : Host) (p : Plugin) (sound : Sound host.plugins)
    (found : plugin_in t host.plugins ≡ some p) (waiting : is_loading p.state ≡ true) where
  pub reject_unstarted_plugin-Sound :
      (d : Diagnostic) → Sound (reject_unstarted_plugin d t host).plugins
  unfolding reject_unstarted_plugin
  reject_unstarted_plugin-Sound d =
      write-Sound t _ (Keeps-intro _ (λ q. (refl, refl, refl, refl, refl))) host.plugins p sound
        found (λ l m. never l) (λ serving. absurd (idle_loading p.state waiting serving.0))

  pub start_plugin-Sound :
      (env : Environment) → Reentrant env → Sound (start_plugin env true t host).plugins
  unfolding start_plugin
  start_plugin-Sound env re =
      let start = λ (p : Plugin). record p { accepting_resources = true; is_starting = true } in
      let begun = begin_start t host in
      let ran = run_load env t begun in
      let begun-Step : Step t loading p.transitioning false host.plugins begun.plugins =
        Step-flags t loading p.transitioning false host.plugins false start host.plugins
          (Keeps-intro start (λ p. (refl, refl, refl, refl, refl))) (λ p. (refl, refl))
          (λ p a o. never o)
          (
            sound,
            (p, found, loading_of p.state waiting, refl, (λ o. never o)),
            (λ k q away e h. (q, e, refl, refl, refl)),
          ) in
      let (ran-Step, fit) = run_load-Step env re t p.transitioning host.plugins begun begun-Step in
      if_plugins Sound (not ran.0) _ _
        (λ _. reject_start-Sound env re t p.transitioning host.plugins ran.1 ran-Step)
        (λ started.
          accept_start-Sound env re t p.transitioning host.plugins ran.1 ran-Step
            (fit (not-false ran.0 started)))
