-- ===== src/Plugins/Calls.antt =====
-- The steps of host/src/plugin_manager.cpp that call plugin code and layers about one plugin, while that
-- plugin is in a transition or loads.
use keel_s.Common.{ℕ, Bool, true, false, not, List, if◌then◌else◌, ◌≡◌, ◌⊎◌, refl, sym, ◌∙◌, arith}
use keel_s.Plugins.{
  Plugin, PluginState, Host, is_loading, plugin_by_handle, write_plugin, put_plugin,
  set_commands_owned_enabled,
}
use keel_s.Plugins.Environment.{Environment, activate_all}
use keel_s.Plugins.Transitions.{
  pausing, unloading, set_transitioning, restore_plugin_dispatch, prepare_plugin_pause,
  prepare_plugin_unload, has_prepare_pause, has_prepare_unload,
}
use keel_s.Plugins.Fields.{Keeps, Keeps-intro}
use keel_s.Plugins.Respects.{
  Reentrant, Respects, Step, Step-call, Step-write, Step-flags, activate_all-Respects,
}

pub if_plugins :
    (P : List Plugin → Type 0) (b : Bool) (x y : Host)
    → (b ≡ true → P x.plugins)
    → (b ≡ false → P y.plugins)
    → P (if b then x else y).plugins
if_plugins P true x y h k = h refl
if_plugins P false x y h k = k refl

pub if_pair :
    {A : Type 0} (P : A × Host → Type 0) (b : Bool) (x y : A × Host)
    → (b ≡ true → P x)
    → (b ≡ false → P y)
    → P (if b then x else y)
if_pair P true x y h k = h refl
if_pair P false x y h k = k refl

pub never : {A : Type 0} → false ≡ true → A
never e = absurd (ground arith)

module _ (env : Environment) (re : Reentrant env) (t : ℕ) (s : PluginState) (moving takes : Bool)
    (ps : List Plugin) (held : (moving ≡ true) ⊎ (is_loading s ≡ true)) where
  pub stopped-Step :
      (host : Host)
      → Step t s moving takes ps host.plugins
      → Step t s moving false ps
          (set_commands_owned_enabled
            (put_plugin t (λ p. record p { accepting_resources = false }) host)
            t
            false).plugins
  unfolding set_commands_owned_enabled
  stopped-Step host step =
      Step-flags t s moving takes ps false (λ p. record p { accepting_resources = false })
        host.plugins (Keeps-intro _ (λ p. (refl, refl, refl, refl, refl))) (λ p. (refl, refl))
        (λ p a o. never o) step

  pub restored-Step :
      (host : Host)
      → Step t s moving takes ps host.plugins
      → Step t s moving true ps (restore_plugin_dispatch env t host).plugins
  unfolding restore_plugin_dispatch set_commands_owned_enabled
  restored-Step host step =
      let accept = λ (p : Plugin). record p { accepting_resources = true } in
      let serve = λ (p : Plugin). record p { factory_dispatch_enabled = true } in
      let enabled = set_commands_owned_enabled (put_plugin t accept host) t true in
      let dispatching = put_plugin t serve enabled in
      Step-call t s moving true ps dispatching (activate_all env.activates t dispatching) held
        (activate_all-Respects env.activates t dispatching re.activates)
        (Step-flags t s moving true ps true serve enabled.plugins
          (Keeps-intro _ (λ p. (refl, refl, refl, refl, refl))) (λ p. (refl, refl)) (λ p a. a)
          (Step-flags t s moving takes ps true accept host.plugins
            (Keeps-intro _ (λ p. (refl, refl, refl, refl, refl))) (λ p. (refl, refl))
            (λ p a o. refl) step))

  -- A call between two writes of flags.
  called-Step :
      (before after : Plugin → Plugin) (host called : Host)
      → Keeps before
      → Keeps after
      → ((p : Plugin) → ((before p).state ≡ p.state) × ((before p).transitioning ≡ p.transitioning))
      → ((p : Plugin) → ((after p).state ≡ p.state) × ((after p).transitioning ≡ p.transitioning))
      → ((p : Plugin) → (before p).accepting_resources ≡ p.accepting_resources)
      → ((p : Plugin) → (after p).accepting_resources ≡ p.accepting_resources)
      → Respects (put_plugin t before host) called
      → Step t s moving takes ps host.plugins
      → Step t s moving takes ps (write_plugin t after called.plugins)
  called-Step before after host called k l sb sa ob oa r step =
      Step-flags t s moving takes ps takes after called.plugins l sa (λ p a o. oa p ∙ a o)
        (Step-call t s moving takes ps (put_plugin t before host) called held r (
          Step-flags t s moving takes ps takes before host.plugins k sb (λ p a o. ob p ∙ a o) step))

  pub prepare_pause-Step :
      (host : Host)
      → Step t s moving takes ps host.plugins
      → Step t s moving takes ps (prepare_plugin_pause env t host).1.plugins
  unfolding prepare_plugin_pause
  prepare_pause-Step host step =
      let marked = put_plugin t (pausing true) host in
      if_pair (λ r. Step t s moving takes ps r.1.plugins)
        (not (has_prepare_pause (plugin_by_handle host t))) _ _ (λ _. step)
        (λ _.
          if_pair (λ r. Step t s moving takes ps r.1.plugins) (not env.is_game_thread) _ _
            (λ _. step)
            (λ _.
              called-Step (pausing true) (pausing false) host (env.prepare_pause t marked).1
                (Keeps-intro _ (λ p. (refl, refl, refl, refl, refl)))
                (Keeps-intro _ (λ p. (refl, refl, refl, refl, refl))) (λ p. (refl, refl))
                (λ p. (refl, refl)) (λ p. refl) (λ p. refl) (re.prepare_pause t marked) step))

  pub prepare_unload-Step :
      (host : Host)
      → Step t s moving takes ps host.plugins
      → Step t s moving takes ps (prepare_plugin_unload env t host).1.plugins
  unfolding prepare_plugin_unload
  prepare_unload-Step host step =
      let marked = put_plugin t (unloading true) host in
      if_pair (λ r. Step t s moving takes ps r.1.plugins)
        (not (has_prepare_unload (plugin_by_handle host t))) _ _ (λ _. step)
        (λ _.
          if_pair (λ r. Step t s moving takes ps r.1.plugins) (not env.is_game_thread) _ _
            (λ _. step)
            (λ _.
              called-Step (unloading true) (unloading false) host (env.prepare_unload t marked).1
                (Keeps-intro _ (λ p. (refl, refl, refl, refl, refl)))
                (Keeps-intro _ (λ p. (refl, refl, refl, refl, refl))) (λ p. (refl, refl))
                (λ p. (refl, refl)) (λ p. refl) (λ p. refl) (re.prepare_unload t marked) step))

  pub cleanup-Step :
      (after : Plugin → Plugin) (host : Host)
      → Keeps after
      → ((p : Plugin) → ((after p).state ≡ p.state) × ((after p).transitioning ≡ p.transitioning))
      → ((p : Plugin) → (after p).accepting_resources ≡ p.accepting_resources)
      → Step t s moving takes ps host.plugins
      → Step t s moving takes ps (
          write_plugin t after
            (env.unload t
              (put_plugin t (λ p. record p { cleanup_callback_active = true }) host)).plugins)
  cleanup-Step after host k same takes_on step =
      let before = λ (p : Plugin). record p { cleanup_callback_active = true } in
      called-Step before after host (env.unload t (put_plugin t before host))
        (Keeps-intro _ (λ p. (refl, refl, refl, refl, refl))) k (λ p. (refl, refl)) same (λ p. refl)
        takes_on (re.unload t (put_plugin t before host)) step

-- The end of a transition that a plugin came out of in some state.
pub ended-Step :
    (t : ℕ) (s : PluginState) (takes : Bool) (ps qs : List Plugin)
    → Step t s true takes ps qs
    → Step t s false takes ps (write_plugin t (set_transitioning false) qs)
ended-Step t s takes ps qs step =
    Step-write t s true takes ps s false takes (set_transitioning false) qs
      (Keeps-intro _ (λ p. (refl, refl, refl, refl, refl))) (λ p es em. (es, refl)) (λ p a. a)
      (λ l m. never (sym m)) (λ p e l m. never (sym m ∙ l)) step
