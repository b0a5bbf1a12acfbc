-- ===== src/Plugins/Departure.antt =====
-- UnloadPluginCommand of host/src/plugin_manager.cpp, from the table of plugins before to the table behind,
-- through every layer that may refuse.
use keel_s.Common.{
  ℕ, ◌==◌, Bool, true, false, ◌&&◌, ◌||◌, not, List, some, All, if◌then◌else◌, KeelResult, is_ok,
  ◌≡◌, refl, sym, ◌∙◌, subst, arith, Bool-cases, inl, inr, ==_iff,
}
use keel_s.Text.{Bytes}
use keel_s.Plugins.{
  Plugin, PluginState, loading, loaded, paused, disabled, invalid, error, Host, is_loading,
  is_loaded, is_paused, retained, plugin_in, plugin_by_handle, write_plugin, put_plugin,
  remove_plugin_record, set_commands_owned_enabled, remove_commands_owned_by,
}
use keel_s.Plugins.Select.{Selection, selected, not_found, ambiguous, required, select_plugin}
use keel_s.Plugins.Depend.{has_running_dependent}
use keel_s.Plugins.Environment.{Environment, deactivate_all}
use keel_s.Plugins.Transitions.{set_transitioning, restore_plugin_dispatch, prepare_plugin_unload}
use keel_s.Plugins.Unloading.{
  UnloadLayers, stage, refused, when, quarantine, is_busy, pends, has_unload, run_unload,
  disable_record, finish_unload, release_layers, of_prepared, deactivate_layers,
  unload_in_transition, stays, unload_selected, unload_plugin,
}
use keel_s.Plugins.Fields.{Keeps-intro}
use keel_s.Plugins.Sound.{Sound, some_plugin}
use keel_s.Plugins.Respects.{
  KeepsHeld, KeepsHeld-one, Respects, Respects-refl, Reentrant, Step, Step-call, Step-flags,
  deactivate_all-Respects,
}
use keel_s.Plugins.Calls.{
  if_plugins, if_pair, never, stopped-Step, restored-Step, prepare_unload-Step, cleanup-Step,
  ended-Step,
}
use keel_s.Plugins.Suspension.{in_table, not_held, Step-mark, Step-unmarked, Step-Respects}
use keel_s.Plugins.Removal.{gone, Gone, others-Gone}

-- What the program relies on: the layers that UnloadPluginCommand asks, and who hears of its end, respect
-- the table of plugins.
pub record ReentrantLayers (layers : UnloadLayers) : Type 0 where
  pub deactivate_factories :
      (n : ℕ) (host : Host) → Respects host (layers.deactivate_factories n host).1
  pub deactivate_source2 :
      (n : ℕ) (host : Host) → Respects host (layers.deactivate_source2 n host).1
  pub activate_source2 : (n : ℕ) (host : Host) → Respects host (layers.activate_source2 n host)
  pub deactivate_others :
      All (λ layer. (n : ℕ) (host : Host) → Respects host (layer n host).1) layers.deactivate_others
  pub release_keelhook : (n : ℕ) (host : Host) → Respects host (layers.release_keelhook n host).1
  pub release_others :
      All (λ layer. (n : ℕ) (host : Host) → Respects host (layer n host).1) layers.release_others
  pub release_published : (n : ℕ) (host : Host) → Respects host (layers.release_published n host).1
  pub release_factories : (n : ℕ) (host : Host) → Respects host (layers.release_factories n host).1
  pub publish_unloaded : (n : ℕ) (host : Host) → Respects host (layers.publish_unloaded n host)

-- A plugin that stays is in its state and in the transition still, and one that goes is gone.
abbrev Outcome : ℕ → PluginState → List Plugin → Bool × Host → Type 0
Outcome t s ps r =
    (r.0 ≡ false → Step t s true false ps r.1.plugins) × (r.0 ≡ true → Gone t ps r.1.plugins)

true_false : {A : Type 0} → true ≡ false → A
true_false e = never (sym e)

module _ (env : Environment) (layers : UnloadLayers) (re : Reentrant env)
    (rl : ReentrantLayers layers) (disable : Bool) (t : ℕ) (s : PluginState)
    (ps : List Plugin) where
  abbrev Moving : Host → Type 0
  Moving h = Step t s true false ps h.plugins

  abbrev Leaves : (Host → Bool × Host) → Type 0
  Leaves k = (h : Host) → Moving h → Outcome t s ps (k h)

  called : (a b : Host) → Respects a b → Moving a → Moving b
  called a b r step = Step-call t s true false ps a b (inl refl) r step

  lower : (qs : List Plugin) → Step t s true true ps qs → Step t s true false ps qs
  lower qs (sound, (p, e, es, em, eo), others) = (sound, (p, e, es, em, (λ o. never o)), others)

  restored : (h : Host) → Moving h → Moving (restore_plugin_dispatch env t h)
  restored h step = lower _ (restored-Step env re t s true false ps (inl refl) h step)

  flagged :
      (f : Plugin → Plugin) (h : Host)
      → ((p : Plugin)
          → ((f p).handle ≡ p.handle)
            × ((f p).name ≡ p.name)
            × ((f p).selectable ≡ p.selectable)
            × ((f p).version ≡ p.version)
            × ((f p).dependencies ≡ p.dependencies))
      → ((p : Plugin) → ((f p).state ≡ p.state) × ((f p).transitioning ≡ p.transitioning))
      → Moving h
      → Moving (put_plugin t f h)
  flagged f h k same step =
      Step-flags t s true false ps false f h.plugins (Keeps-intro f k) same (λ p a o. never o) step

  refused-Leaves :
      (g : Host → Host) → ((h : Host) → Moving h → Moving (g h)) → Leaves (λ h. refused (g h))
  refused-Leaves g o h step = ((λ _. o h step), (λ e. never e))

  stage-Leaves :
      (layer : Host → KeelResult × Host) (refuse next : Host → Bool × Host)
      → ((h : Host) → Moving h → Moving (layer h).1)
      → Leaves refuse
      → Leaves next
      → Leaves (λ h. stage (layer h) refuse next)
  stage-Leaves layer refuse next o r n h step = elim (Bool-cases (is_ok (layer h).0)) [
    | inl e ↦ rw e (n (layer h).1 (o h step))
    | inr e ↦ rw e (r (layer h).1 (o h step))
  ]

  run_unload-Moving : (h : Host) → Moving h → Moving (run_unload env t h)
  run_unload-Moving h step =
      let ended = λ (p : Plugin). record p { cleanup_callback_active = false } in
      let called =
        put_plugin t ended
          (env.unload t (put_plugin t (λ p. record p { cleanup_callback_active = true }) h)) in
      let ran = if has_unload (plugin_by_handle h t) then called else h in
      flagged _ ran (λ p. (refl, refl, refl, refl, refl)) (λ p. (refl, refl))
        (if_plugins (Step t s true false ps) (has_unload (plugin_by_handle h t)) called h
          (λ _.
            cleanup-Step env re t s true false ps (inl refl) ended h
              (Keeps-intro ended (λ p. (refl, refl, refl, refl, refl))) (λ p. (refl, refl))
              (λ p. refl) step)
          (λ _. step))

  finish_unload-Leaves : Leaves (finish_unload env layers disable t)
  finish_unload-Leaves h step =
      let closed = run_unload env t (remove_commands_owned_by h t) in
      let closed-Step : Moving closed = run_unload-Moving (remove_commands_owned_by h t) step in
      let left = if disable then disable_record t closed else remove_plugin_record closed t in
      let left-Gone : Gone t ps left.plugins =
        subst (Gone t ps) (sym (gone disable t closed closed-Step.0.1))
          (others-Gone t s false ps closed.plugins closed-Step) in
      let (sound, keeps) = rl.publish_unloaded t left left-Gone.0 in
      let after = layers.publish_unloaded t left in
      (
        (λ e. true_false e),
        (λ _. (
          sound,
          (λ k q away found held.
              KeepsHeld-one ps left.plugins k q after.plugins keeps held
                (left-Gone.1 k q away found held)),
        )),
      )

  quarantined-Moving : (h : Host) → Moving h → Moving (quarantine t h)
  quarantined-Moving h step =
      flagged _ h (λ p. (refl, refl, refl, refl, refl)) (λ p. (refl, refl)) step

  release_layers-Leaves :
      (was_running : Bool) → Leaves (release_layers env layers disable was_running t)
  unfolding release_layers
  release_layers-Leaves was_running host step =
      let keelhook = (layers.release_keelhook t host).0 in
      let restore = restore_plugin_dispatch env t in
      let restores =
        λ (h : Host). is_busy keelhook && not (pends (plugin_by_handle h t)) && was_running in
      let give_up = λ (h : Host). if restores h then restore h else quarantine t h in
      let retain = put_plugin t (λ p. record p { cleanup_pending = true; diagnostic = retained }) in
      let factories = λ (h : Host).
        stage (layers.release_factories t h) (λ h. refused (retain h))
          (finish_unload env layers disable t) in
      let published =
        λ (h : Host). stage (layers.release_published t h) (λ h. refused (restore h)) factories in
      let rest = λ (h : Host).
        stage (deactivate_all layers.release_others t h) (λ h. refused (quarantine t h))
          published in
      stage-Leaves (layers.release_keelhook t) (λ h. refused (give_up h)) rest
        (λ h m. called h (layers.release_keelhook t h).1 (rl.release_keelhook t h) m)
        (refused-Leaves give_up (λ h m.
          if_plugins (Step t s true false ps) (restores h) (restore h) (quarantine t h)
            (λ _. restored h m) (λ _. quarantined-Moving h m)))
        (stage-Leaves (deactivate_all layers.release_others t) (λ h. refused (quarantine t h))
          published
          (λ h m.
            called h (deactivate_all layers.release_others t h).1
              (deactivate_all-Respects layers.release_others t h rl.release_others) m)
          (refused-Leaves (quarantine t) quarantined-Moving)
          (stage-Leaves (layers.release_published t) (λ h. refused (restore h)) factories
            (λ h m. called h (layers.release_published t h).1 (rl.release_published t h) m)
            (refused-Leaves restore restored)
            (stage-Leaves (layers.release_factories t) (λ h. refused (retain h))
              (finish_unload env layers disable t)
              (λ h m. called h (layers.release_factories t h).1 (rl.release_factories t h) m)
              (refused-Leaves retain
                (λ h m. flagged _ h (λ p. (refl, refl, refl, refl, refl)) (λ p. (refl, refl)) m))
              finish_unload-Leaves)))
        host step

  reopened-Moving :
      (h : Host)
      → Moving h
      → Moving (
          layers.activate_source2 t (
            set_commands_owned_enabled
              (put_plugin t (λ p. record p { accepting_resources = true }) h)
              t
              true))
  unfolding set_commands_owned_enabled
  reopened-Moving h m =
      let accepting = put_plugin t (λ p. record p { accepting_resources = true }) h in
      let enabled = set_commands_owned_enabled accepting t true in
      called enabled (layers.activate_source2 t enabled) (rl.activate_source2 t enabled)
        (flagged _ h (λ p. (refl, refl, refl, refl, refl)) (λ p. (refl, refl)) m)

  when-Moving :
      (b : Bool) (layer : ℕ → Host → KeelResult × Host) (h : Host)
      → Respects h (layer t h).1
      → Moving h
      → Moving (when b layer t h).1
  when-Moving true layer h r m = called h (layer t h).1 r m
  when-Moving false layer h r m = m

  pub deactivate_layers-Leaves :
      (was_running : Bool) → Leaves (deactivate_layers env layers disable was_running t)
  unfolding deactivate_layers
  deactivate_layers-Leaves was_running =
      let restore = restore_plugin_dispatch env t in
      let reopen = λ (h : Host). layers.activate_source2 t (
        set_commands_owned_enabled (put_plugin t (λ p. record p { accepting_resources = true }) h) t
          true) in
      let resume = λ (h : Host). if was_running then restore h else h in
      let releases = release_layers env layers disable was_running t in
      let prepared = λ (h : Host).
        stage (of_prepared (prepare_plugin_unload env t h)) (λ h. refused (resume h)) releases in
      let rest = λ (h : Host).
        stage (when was_running (deactivate_all layers.deactivate_others) t h)
          (λ h. refused (restore h)) prepared in
      let source2 = λ (h : Host).
        stage (when was_running layers.deactivate_source2 t h) (λ h. refused (reopen h)) rest in
      stage-Leaves (layers.deactivate_factories t) (λ h. refused (restore h)) source2
        (λ h m. called h (layers.deactivate_factories t h).1 (rl.deactivate_factories t h) m)
        (refused-Leaves restore restored)
        (stage-Leaves (when was_running layers.deactivate_source2 t) (λ h. refused (reopen h)) rest
          (λ h m. when-Moving was_running layers.deactivate_source2 h (rl.deactivate_source2 t h) m)
          (refused-Leaves reopen reopened-Moving)
          (stage-Leaves (when was_running (deactivate_all layers.deactivate_others) t)
            (λ h. refused (restore h)) prepared
            (λ h m.
              when-Moving was_running (deactivate_all layers.deactivate_others) h
                (deactivate_all-Respects layers.deactivate_others t h rl.deactivate_others) m)
            (refused-Leaves restore restored)
            (stage-Leaves (λ h. of_prepared (prepare_plugin_unload env t h))
              (λ h. refused (resume h)) releases
              (prepare_unload-Step env re t s true false ps (inl refl))
              (refused-Leaves resume (λ h m.
                if_plugins (Step t s true false ps) was_running (restore h) h (λ _. restored h m)
                  (λ _. m)))
              (release_layers-Leaves was_running))))

-- A plugin that is loaded or paused is not loading.
runs_calm : (s : PluginState) → (is_loaded s || is_paused s) ≡ true → is_loading s ≡ false
runs_calm loading h = never h
runs_calm loaded h = refl
runs_calm paused h = refl
runs_calm disabled h = never h
runs_calm invalid h = never h
runs_calm error h = never h

not-false : (b : Bool) → not b ≡ false → b ≡ true
not-false b h = ground arith

module _ (env : Environment) (layers : UnloadLayers) (re : Reentrant env)
    (rl : ReentrantLayers layers) (disable : Bool) (host : Host) (sound : Sound host.plugins)
    (p : Plugin) (found : plugin_by_handle host p.handle ≡ some p) where
  abbrev Respected : Bool × Host → Type 0
  Respected r = Sound r.1.plugins × KeepsHeld host.plugins r.1.plugins

  Gone-Respected :
      (r : Bool × Host)
      → p.transitioning ≡ false
      → is_loading p.state ≡ false
      → Gone p.handle host.plugins r.1.plugins
      → Respected r
  Gone-Respected r still calm (sound', kept) = (
    sound',
    (λ k q e held. elim (Bool-cases (k == p.handle)) [
      | inl same ↦
          let at = (==_iff k p.handle).0 same in
          let q_is : p ≡ q = some_plugin (
            sym (in_table p.handle host p found)
            ∙ subst (λ n. plugin_in n host.plugins ≡ some q) at e) in
          absurd (
            not_held q (subst (λ x. x.transitioning ≡ false) q_is still)
              (subst (λ x. is_loading x.state ≡ false) q_is calm) held)
      | inr away ↦ kept k q (λ z. never (sym away ∙ (==_iff k p.handle).1 z)) e held
    ]),
  )

  stays-Respected :
      (r : Bool × Host)
      → p.transitioning ≡ false
      → is_loading p.state ≡ false
      → Outcome p.handle p.state host.plugins r
      → Respected (stays p.handle r)
  stays-Respected (true, h) still calm (_, left) = Gone-Respected (true, h) still calm (left refl)
  stays-Respected (false, h) still calm (kept, _) =
      Step-Respects p.handle host p sound found still p.state false
        (write_plugin p.handle (set_transitioning false) h.plugins) calm
        (ended-Step p.handle p.state false host.plugins h.plugins (kept refl))

  unload_in_transition-Respected :
      p.transitioning ≡ false
      → is_loading p.state ≡ false
      → Respected (
          stays p.handle (
            unload_in_transition env layers disable
              (set_transitioning true p)
              (put_plugin p.handle (set_transitioning true) host)))
  unload_in_transition-Respected still calm =
      let t = p.handle in
      let takes = p.accepting_resources in
      let marked = put_plugin t (set_transitioning true) host in
      let stopped =
        set_commands_owned_enabled
          (put_plugin t (λ q. record q { accepting_resources = false }) marked) t false in
      if_pair (λ r. Respected (stays t r))
        (has_running_dependent marked env.published_services (env.pinned t)
          (set_transitioning true p) true)
        _ _
        (λ _.
          Step-Respects t host p sound found still p.state takes
            (write_plugin t (set_transitioning false) marked.plugins) calm
            (Step-unmarked t host p sound found still))
        (λ free.
          stays-Respected (deactivate_layers env layers disable (is_loaded p.state) t stopped) still
            calm
            (deactivate_layers-Leaves env layers re rl disable t p.state host.plugins
              (is_loaded p.state) stopped
              (stopped-Step env re t p.state true takes host.plugins (inl refl) marked (
                Step-mark t host p sound found still p.state env.published_services (env.pinned t)
                  true refl free))))

  unload_selected-Respected : Respected (unload_selected env layers disable host (selected p))
  unload_selected-Respected =
      if_pair Respected (not (is_loaded p.state || is_paused p.state)) _ _
        (λ _. Respects-refl host sound)
        (λ runs.
          if_pair Respected p.transitioning _ _ (λ _. Respects-refl host sound)
            (λ still. unload_in_transition-Respected still (runs_calm p.state (not-false _ runs))))

unload_of-Respects :
    (env : Environment) (layers : UnloadLayers) (re : Reentrant env) (rl : ReentrantLayers layers)
    (disable : Bool) (host : Host) (selection : Selection)
    → ((p : Plugin) → selection ≡ selected p → plugin_by_handle host p.handle ≡ some p)
    → Respects host (unload_selected env layers disable host selection).1
unload_of-Respects env layers re rl disable host (selected p) known sound =
    unload_selected-Respected env layers re rl disable host sound p (known p refl)
unload_of-Respects env layers re rl disable host required known sound = Respects-refl host sound
unload_of-Respects env layers re rl disable host not_found known sound = Respects-refl host sound
unload_of-Respects env layers re rl disable host (ambiguous matches) known sound =
    Respects-refl host sound

-- Every callback and layer respects the table of plugins, in which every running plugin has its
-- dependencies running and no handle stands twice, and a plugin that the selector selects is the one that
-- its handle finds in the table. Then so it is after UnloadPluginCommand, whether the plugin is unloaded,
-- disabled or refused by whatever layer, and whatever other plugins the callbacks pause or resume, and
-- every plugin that was in a transition or still loading is found again in its state, its transition and
-- its acceptance of resources.
pub unload_plugin-Respects :
    (env : Environment) (layers : UnloadLayers)
    → Reentrant env
    → ReentrantLayers layers
    → (host : Host) (selector : Bytes) (disable : Bool)
    → ((p : Plugin)
        → select_plugin host selector ≡ selected p
        → plugin_by_handle host p.handle ≡ some p)
    → Sound host.plugins
    → Sound (unload_plugin env layers host selector disable).1.plugins
      × KeepsHeld host.plugins (unload_plugin env layers host selector disable).1.plugins
unfolding unload_plugin
unload_plugin-Respects env layers re rl host selector disable known =
    unload_of-Respects env layers re rl disable host (select_plugin host selector) known
