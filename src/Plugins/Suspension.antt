-- ===== src/Plugins/Suspension.antt =====
-- PausePlugin and ResumePlugin of host/src/plugin_manager.cpp, from the table of plugins before to the
-- table behind, through every call of plugin code.
use keel_s.Common.{
  ℕ, ◌==◌, Bool, true, false, not, List, Option, some, any, KeelResult, busy, already_exists,
  not_ready, is_ok, ◌≡◌, ◌⊎◌, refl, sym, ap, ◌∙◌, subst, arith, Bool-cases, Option-cases, inl, inr,
  ==_iff,
}
use keel_s.Plugins.{
  Plugin, PluginState, loading, loaded, paused, disabled, invalid, error, Host, is_loading,
  is_loaded, is_paused, plugin_in, plugin_by_handle, write_plugin, put_plugin,
  set_commands_owned_enabled,
}
use keel_s.Plugins.Depend.{is_ready, dependencies_ready, holds, has_running_dependent}
use keel_s.Plugins.Environment.{Environment, paused_event, resumed_event, deactivate_all}
use keel_s.Plugins.Transitions.{
  set_transitioning, restore_plugin_dispatch, prepare_plugin_pause, finish_pause,
  pause_in_transition, pause_found, pause_plugin, resume_in_transition, resume_found, resume_plugin,
}
use keel_s.Plugins.Fields.{Keeps, Keeps-intro}
use keel_s.Plugins.Marks.{any-holds-marked}
use keel_s.Plugins.Sound.{Sound, Ready, some_plugin, free-Sound}
use keel_s.Plugins.Respects.{
  IsHeld, Kept, KeepsHeld, Respects-refl, Reentrant, Step, Step-call, Step-write, Kept-write,
  written_at, write-write, Step-weaken, deactivate_all-Respects,
}
use keel_s.Plugins.Calls.{
  if_pair, never, stopped-Step, restored-Step, prepare_pause-Step, ended-Step,
}
use keel_s.Services

pub loaded_of : (s : PluginState) → is_loaded s ≡ true → s ≡ loaded
loaded_of loading h = never h
loaded_of loaded h = refl
loaded_of paused h = never h
loaded_of disabled h = never h
loaded_of invalid h = never h
loaded_of error h = never h

paused_of : (s : PluginState) → is_paused s ≡ true → s ≡ paused
paused_of loading h = never h
paused_of loaded h = never h
paused_of paused h = refl
paused_of disabled h = never h
paused_of invalid h = never h
paused_of error h = never h

held_by :
    (host : Host) (services : Option Services.Registry) (pinned : Bool) (plugin : Plugin)
    (include_retained : Bool)
    → has_running_dependent host services pinned plugin include_retained ≡ false
    → any (holds include_retained plugin) host.plugins ≡ false
unfolding has_running_dependent
held_by host services pinned plugin include_retained h = ground arith

pub not_held : (q : Plugin) → q.transitioning ≡ false → is_loading q.state ≡ false → IsHeld q → ⊥
not_held q m l (inl h) = never (sym m ∙ h)
not_held q m l (inr h) = never (sym l ∙ h)

pub in_table :
    (t : ℕ) (host : Host) (p : Plugin)
    → plugin_by_handle host t ≡ some p
    → plugin_in t host.plugins ≡ some p
unfolding plugin_by_handle
in_table t host p e = e

module _ (t : ℕ) (host : Host) (p : Plugin) (sound : Sound host.plugins)
    (found : plugin_by_handle host t ≡ some p) (still : p.transitioning ≡ false) where
  pub found_in : plugin_in t host.plugins ≡ some p
  found_in = in_table t host p found

  -- The operation begins.
  pub Step-begin : Step t p.state false p.accepting_resources host.plugins host.plugins
  Step-begin =
      (sound, (p, found_in, refl, still, (λ o. o)), (λ k q away e h. (q, e, refl, refl, refl)))

  -- Nothing that runs depends on the plugin, which is marked as in a transition.
  pub Step-mark :
      (s : PluginState) (services : Option Services.Registry) (pinned include_retained : Bool)
      → p.state ≡ s
      → has_running_dependent
          (put_plugin t (set_transitioning true) host)
          services
          pinned
          (set_transitioning true p)
          include_retained
        ≡ false
      → Step t s true p.accepting_resources host.plugins
          (put_plugin t (set_transitioning true) host).plugins
  Step-mark s services pinned include_retained es free =
      let f = set_transitioning true in
      let k : Keeps f = Keeps-intro f (λ q. (refl, refl, refl, refl, refl)) in
      (
        free-Sound t f k host.plugins p sound found_in (λ l m. never (sym m ∙ l)) include_retained
            (sym (any-holds-marked t include_retained p host.plugins)
              ∙ held_by (put_plugin t f host) services pinned (f p) include_retained free),
        (f p, written_at t f host.plugins p k found_in, es, refl, (λ o. o)),
        (λ n q away e h. Kept-write t n f q host.plugins k away (q, e, refl, refl, refl)),
      )

  -- The mark is taken back at once.
  pub Step-unmarked : Step t p.state false p.accepting_resources host.plugins (
      write_plugin t (set_transitioning false) (put_plugin t (set_transitioning true) host).plugins)
  Step-unmarked =
      let f = λ (q : Plugin). set_transitioning false (set_transitioning true q) in
      subst (Step t p.state false p.accepting_resources host.plugins)
        (sym (
          write-write (set_transitioning true) (set_transitioning false) t host.plugins
            (λ q. refl)))
        (Step-write t p.state false p.accepting_resources host.plugins p.state false
          p.accepting_resources f host.plugins (Keeps-intro f (λ q. (refl, refl, refl, refl, refl)))
          (λ q es em. (es, refl)) (λ q a. a) (λ l m. (l, refl)) (λ q e l m. never (sym m ∙ l))
          Step-begin)

  -- A plugin that neither loads nor is in a transition is held by nobody.
  pub Step-Respects :
      (s : PluginState) (takes : Bool) (qs : List Plugin)
      → is_loading p.state ≡ false
      → Step t s false takes host.plugins qs
      → Sound qs
        × ((k : ℕ) (q : Plugin) → plugin_in k host.plugins ≡ some q → IsHeld q → Kept k q qs)
  Step-Respects s takes qs calm (sound', at, others) = (
    sound',
    (λ k q e held. elim (Bool-cases (k == t)) [
      | inl same ↦
          let at_t = (==_iff k t).0 same in
          let q_is : p ≡ q =
            some_plugin (sym found_in ∙ subst (λ n. plugin_in n host.plugins ≡ some q) at_t e) in
          absurd (
            not_held q (subst (λ x. x.transitioning ≡ false) q_is still)
              (subst (λ x. is_loading x.state ≡ false) q_is calm) held)
      | inr away ↦ others k q (λ z. never (sym away ∙ (==_iff k t).1 z)) e held
    ]),
  )

calm_of : (s : PluginState) → is_loaded s ≡ true → is_loading s ≡ false
calm_of s h = ap is_loading (loaded_of s h)

calm_paused : (s : PluginState) → is_paused s ≡ true → is_loading s ≡ false
calm_paused s h = ap is_loading (paused_of s h)

-- The record is found again in its state and as much in a transition as it was, and takes resources if it
-- did.
abbrev pub Reopened : ℕ → Plugin → List Plugin → Type 0
Reopened t p qs =
    (p' : Plugin) × (plugin_in t qs ≡ some p')
    × (p'.state ≡ p.state)
    × (p'.transitioning ≡ p.transitioning)
    × (p.accepting_resources ≡ true → p'.accepting_resources ≡ true)

-- How a pause ends: refused, with the plugin in its state, or with the plugin paused.
abbrev pub Paused : ℕ → PluginState → Bool → List Plugin → KeelResult × Host → Type 0
Paused t s takes ps r =
    ((is_ok r.0 ≡ false) × Step t s false takes ps r.1.plugins)
    ⊎ ((is_ok r.0 ≡ true) × Step t paused false false ps r.1.plugins)

-- The same, before the transition ends.
abbrev Ending : ℕ → PluginState → Bool → List Plugin → KeelResult × Host → Type 0
Ending t s takes ps (result, host) =
    Paused t s takes ps (result, put_plugin t (set_transitioning false) host)

module _ (env : Environment) (re : Reentrant env) (t : ℕ) (takes : Bool) (ps : List Plugin) where
  refused-Ending :
      (result : KeelResult) (known : Bool) (host : Host)
      → is_ok result ≡ false
      → Step t loaded true known ps host.plugins
      → Ending t loaded takes ps (result, restore_plugin_dispatch env t host)
  refused-Ending result known host refused step = inl (
    refused,
    Step-weaken t loaded takes ps _ (
        ended-Step t loaded true ps (restore_plugin_dispatch env t host).plugins
          (restored-Step env re t loaded true known ps (inl refl) host step)),
  )

  finish_pause-Ending :
      (r : KeelResult × Host)
      → Step t loaded true false ps r.1.plugins
      → Ending t loaded takes ps (finish_pause env t r)
  finish_pause-Ending (result, host) step =
      let prepared = prepare_plugin_pause env t host in
      let step' = prepare_pause-Step env re t loaded true false ps (inl refl) host step in
      let pause = λ (p : Plugin). record p { state = paused } in
      let paused_host = put_plugin t pause prepared.1 in
      if_pair (Ending t loaded takes ps) (not (is_ok result)) _ _
        (λ bad. refused-Ending result false host (ground arith) step)
        (λ _.
          if_pair (Ending t loaded takes ps) (not prepared.0) _ _
            (λ _. refused-Ending busy false prepared.1 refl step')
            (λ _. inr (
              refl,
              ended-Step t paused false ps (env.publish paused_event t paused_host).plugins (
                  Step-call t paused true false ps paused_host
                    (env.publish paused_event t paused_host) (inl refl)
                    (re.publish paused_event t paused_host)
                    (Step-write t loaded true false ps paused true false pause prepared.1.plugins
                      (Keeps-intro pause (λ p. (refl, refl, refl, refl, refl)))
                      (λ p es em. (refl, em)) (λ p a. a) (λ l m. never (sym m)) (λ p e l m. never l)
                      step')),
            )))

module _ (env : Environment) (re : Reentrant env) (t : ℕ) (host : Host) (p : Plugin)
    (sound : Sound host.plugins) (found : plugin_by_handle host t ≡ some p) where
  abbrev Outcome : KeelResult × Host → Type 0
  Outcome = Paused t p.state p.accepting_resources host.plugins

  unchanged-Outcome :
      (result : KeelResult)
      → is_ok result ≡ false
      → p.transitioning ≡ false
      → Outcome (result, host)
  unchanged-Outcome result bad still = inl (bad, Step-begin t host p sound found still)

  pause_in_transition-Ending :
      p.transitioning ≡ false
      → is_loaded p.state ≡ true
      → Ending t p.state p.accepting_resources host.plugins (
          pause_in_transition env t
            (set_transitioning true p)
            (put_plugin t (set_transitioning true) host))
  pause_in_transition-Ending still runs =
      let marked = put_plugin t (set_transitioning true) host in
      let stopped =
        set_commands_owned_enabled
          (put_plugin t (λ q. record q { accepting_resources = false }) marked) t false in
      let asked = deactivate_all env.deactivates t stopped in
      let es = loaded_of p.state runs in
      if_pair (Ending t p.state p.accepting_resources host.plugins)
        (has_running_dependent marked env.published_services (env.pinned t)
          (set_transitioning true p) false)
        _ _ (λ _. inl (refl, Step-unmarked t host p sound found still))
        (λ free.
          subst (λ s. Ending t s p.accepting_resources host.plugins (finish_pause env t asked))
            (sym es)
            (finish_pause-Ending env re t p.accepting_resources host.plugins asked (
              Step-call t loaded true false host.plugins stopped asked.1 (inl refl)
                (deactivate_all-Respects env.deactivates t stopped re.deactivates)
                (stopped-Step env re t loaded true p.accepting_resources host.plugins (inl refl)
                  marked
                  (Step-mark t host p sound found still loaded env.published_services (env.pinned t)
                    false es free)))))

  -- The table is respected, and a plugin that is not paused is as open as before.
  abbrev Answer : KeelResult × Host → Type 0
  Answer r =
      (Sound r.1.plugins × KeepsHeld host.plugins r.1.plugins)
      × (is_ok r.0 ≡ false → Reopened t p r.1.plugins)

  early-Answer : (result : KeelResult) → Answer (result, host)
  early-Answer result =
      (Respects-refl host sound, (λ _. (p, in_table t host p found, refl, refl, (λ o. o))))

  transition-Answer :
      (r : KeelResult × Host)
      → p.transitioning ≡ false
      → is_loading p.state ≡ false
      → Outcome r
      → Answer r
  transition-Answer r still calm (inl (bad, step)) =
      let (sound', (q, e, es, em, eo), others) = step in
      (
        Step-Respects t host p sound found still p.state p.accepting_resources r.1.plugins calm
            step,
        (λ _. (q, e, es, em ∙ sym still, eo)),
      )
  transition-Answer r still calm (inr (good, step)) = (
    Step-Respects t host p sound found still paused false r.1.plugins calm step,
    (λ bad. never (sym bad ∙ good)),
  )

  pause_found-Answer : Answer (pause_found env t host (some p))
  pause_found-Answer =
      if_pair Answer (is_paused p.state) _ _ (λ _. early-Answer already_exists)
        (λ _.
          if_pair Answer (not (is_loaded p.state)) _ _ (λ _. early-Answer not_ready)
            (λ runs.
              if_pair Answer p.transitioning _ _ (λ _. early-Answer busy)
                (λ still.
                  let r =
                    pause_in_transition env t (set_transitioning true p)
                      (put_plugin t (set_transitioning true) host) in
                  transition-Answer (r.0, put_plugin t (set_transitioning false) r.1) still
                    (calm_of p.state (ground arith))
                    (pause_in_transition-Ending still (ground arith)))))

-- Every callback and layer respects the table of plugins, in which every running plugin has its
-- dependencies running and no handle stands twice. Then so it is after PausePlugin, whatever it returns and
-- whatever other plugins the callbacks pause or resume, and every plugin that was in a transition or
-- still loading is found again in its state, its transition and its acceptance of resources.
pub pause_plugin-Respects :
    (env : Environment)
    → Reentrant env
    → (host : Host) (t : ℕ) → Sound host.plugins
    → Sound (pause_plugin env host t).1.plugins
      × KeepsHeld host.plugins (pause_plugin env host t).1.plugins
unfolding pause_plugin
pause_plugin-Respects env re host t sound = elim (Option-cases (plugin_by_handle host t)) [
  | inl e ↦ rw e (Respects-refl host sound)
  | inr (p, e) ↦ rw e (pause_found-Answer env re t host p sound e).0
]

-- Every callback and layer respects the table of plugins, in which every running plugin has its
-- dependencies running and no handle stands twice. Where PausePlugin returns anything but
-- KEEL_RESULT_OK, at whatever point it gave up and whatever it called until then, the plugin is found
-- again in its state, in a transition only if it was in one before, and it accepts resources if it did.
pub pause_plugin_refused :
    (env : Environment)
    → Reentrant env
    → (host : Host) (t : ℕ) (p : Plugin) → Sound host.plugins
    → plugin_by_handle host t ≡ some p
    → is_ok (pause_plugin env host t).0 ≡ false
    → Reopened t p (pause_plugin env host t).1.plugins
unfolding pause_plugin
pause_plugin_refused env re host t p sound e = rw e (pause_found-Answer env re t host p sound e).1

module _ (env : Environment) (re : Reentrant env) (t : ℕ) (host : Host) (p : Plugin)
    (sound : Sound host.plugins) (found : plugin_by_handle host t ≡ some p) where
  -- How a resume ends.
  abbrev Resumed : KeelResult × Host → Type 0
  Resumed r =
      Step t p.state false p.accepting_resources host.plugins r.1.plugins
      ⊎ Step t loaded false true host.plugins r.1.plugins

  abbrev ResumedEnding : KeelResult × Host → Type 0
  ResumedEnding (result, h) = Resumed (result, put_plugin t (set_transitioning false) h)

  resume_in_transition-Ending :
      p.transitioning ≡ false
      → is_loaded p.state ≡ false
      → ResumedEnding (
          resume_in_transition env t
            (set_transitioning true p)
            (put_plugin t (set_transitioning true) host))
  unfolding dependencies_ready
  resume_in_transition-Ending still stands =
      let mark = set_transitioning true in
      let marked = put_plugin t mark host in
      let start = λ (q : Plugin). record q { state = loaded } in
      let running = put_plugin t start marked in
      let dispatched = restore_plugin_dispatch env t running in
      let takes = p.accepting_resources in
      let same : Keeps mark = Keeps-intro mark (λ q. (refl, refl, refl, refl, refl)) in
      let marked-Step : Step t p.state true takes host.plugins marked.plugins =
        Step-write t p.state false takes host.plugins p.state true takes mark host.plugins same
          (λ q es em. (es, refl)) (λ q a. a) (λ l m. never (sym stands ∙ l))
          (λ q e l m. never (sym m ∙ l)) (Step-begin t host p sound found still) in
      let there : plugin_in t marked.plugins ≡ some (mark p) =
        written_at t mark host.plugins p same (found_in t host p sound found still) in
      if_pair ResumedEnding (not (is_ready (dependencies_ready marked (mark p)))) _ _
        (λ _. inl (Step-unmarked t host p sound found still))
        (λ ready. inr (
          ended-Step t loaded true host.plugins (env.publish resumed_event t dispatched).plugins (
            Step-call t loaded true true host.plugins dispatched
              (env.publish resumed_event t dispatched) (inl refl)
              (re.publish resumed_event t dispatched)
              (restored-Step env re t loaded true takes host.plugins (inl refl) running (
                Step-write t p.state true takes host.plugins loaded true takes start marked.plugins
                  (Keeps-intro start (λ q. (refl, refl, refl, refl, refl))) (λ q es em. (refl, em))
                  (λ q a. a) (λ l m. never (sym m))
                  (λ q e l m.
                    subst (Ready marked.plugins) (some_plugin (sym there ∙ e)) (ground arith))
                  marked-Step)))))

  Resumed-Respects :
      (r : KeelResult × Host)
      → p.transitioning ≡ false
      → is_loading p.state ≡ false
      → Resumed r
      → Sound r.1.plugins × KeepsHeld host.plugins r.1.plugins
  Resumed-Respects r still calm (inl step) =
      Step-Respects t host p sound found still p.state p.accepting_resources r.1.plugins calm step
  Resumed-Respects r still calm (inr step) =
      Step-Respects t host p sound found still loaded true r.1.plugins calm step

  resume_found-Respects :
      Sound (resume_found env t host (some p)).1.plugins
      × KeepsHeld host.plugins (resume_found env t host (some p)).1.plugins
  resume_found-Respects =
      let P = λ (r : KeelResult × Host). Sound r.1.plugins × KeepsHeld host.plugins r.1.plugins in
      let unchanged = Respects-refl host sound in
      if_pair P (is_loaded p.state) _ _ (λ _. unchanged)
        (λ stands.
          if_pair P (not (is_paused p.state)) _ _ (λ _. unchanged)
            (λ rests.
              if_pair P p.transitioning _ _ (λ _. unchanged)
                (λ still.
                  let r =
                    resume_in_transition env t (set_transitioning true p)
                      (put_plugin t (set_transitioning true) host) in
                  Resumed-Respects (r.0, put_plugin t (set_transitioning false) r.1) still
                    (calm_paused p.state (ground arith))
                    (resume_in_transition-Ending still stands))))

-- Every callback and layer respects the table of plugins, in which every running plugin has its
-- dependencies running and no handle stands twice. Then so it is after ResumePlugin, a plugin that was
-- resumed included, whatever it returns and whatever other plugins the callbacks pause or resume, and every
-- plugin that was in a transition or still loading is found again in its state, its transition and its
-- acceptance of resources.
pub resume_plugin-Respects :
    (env : Environment)
    → Reentrant env
    → (host : Host) (t : ℕ) → Sound host.plugins
    → Sound (resume_plugin env host t).1.plugins
      × KeepsHeld host.plugins (resume_plugin env host t).1.plugins
unfolding resume_plugin
resume_plugin-Respects env re host t sound = elim (Option-cases (plugin_by_handle host t)) [
  | inl e ↦ rw e (Respects-refl host sound)
  | inr (p, e) ↦ rw e (resume_found-Respects env re t host p sound e)
]
