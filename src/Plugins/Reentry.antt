-- ===== src/Plugins/Reentry.antt =====
-- ResumePlugin of host/src/plugin_manager.cpp, as plugin code may call it while plugins are started: it leaves
-- no plugin waiting to be started that did not wait before.
use keel_s.Common.{ℕ, true, not, Option, none, some, refl}
use keel_s.Plugins.{Plugin, loaded, Host, is_loaded, is_paused, plugin_by_handle, put_plugin}
use keel_s.Plugins.Depend.{is_ready, dependencies_ready}
use keel_s.Plugins.Environment.{Environment, resumed_event}
use keel_s.Plugins.Transitions.{
  set_transitioning, restore_plugin_dispatch, resume_in_transition, resume_found, resume_plugin,
}
use keel_s.Plugins.Waiting.{
  contradiction, NoneNew, NeverDiscovers, NoneNew-trans, NoneNew-refl, put-NoneNew,
  NoneNew-if_result, minor-NoneNew,
}
use keel_s.Plugins.Termination.{restore_plugin_dispatch-NoneNew}

module _ (env : Environment) (quiet : NeverDiscovers env) (n : ℕ) where
  resume_in_transition-NoneNew :
      (p : Plugin) (host : Host) → NoneNew host (resume_in_transition env n p host).1
  resume_in_transition-NoneNew p host =
      let running = put_plugin n (λ p. record p { state = loaded }) host in
      let restored = restore_plugin_dispatch env n running in
      NoneNew-if_result (not (is_ready (dependencies_ready host p))) host _ _ (NoneNew-refl host) (
        NoneNew-trans host running _
          (put-NoneNew _ n host (λ p. refl) (λ p l. absurd (contradiction l)))
          (NoneNew-trans running restored _ (restore_plugin_dispatch-NoneNew env quiet n running)
            (quiet.publish resumed_event n restored)))

  resume_found-NoneNew :
      (host : Host) (o : Option Plugin) → NoneNew host (resume_found env n host o).1
  resume_found-NoneNew host none = NoneNew-refl host
  resume_found-NoneNew host (some p) =
      let marked = put_plugin n (set_transitioning true) host in
      let resumed = (resume_in_transition env n (set_transitioning true p) marked).1 in
      NoneNew-if_result (is_loaded p.state) host _ _ (NoneNew-refl host) (
        NoneNew-if_result (not (is_paused p.state)) host _ _ (NoneNew-refl host) (
          NoneNew-if_result p.transitioning host _ _ (NoneNew-refl host) (
            NoneNew-trans host marked _ (minor-NoneNew _ n host (λ p. (refl, refl))) (
              NoneNew-trans marked resumed _
                (resume_in_transition-NoneNew (set_transitioning true p) marked)
                (minor-NoneNew _ n resumed (λ p. (refl, refl)))))))

  pub resume_plugin-NoneNew : (host : Host) → NoneNew host (resume_plugin env host n).1
  unfolding resume_plugin
  resume_plugin-NoneNew host = resume_found-NoneNew host (plugin_by_handle host n)
