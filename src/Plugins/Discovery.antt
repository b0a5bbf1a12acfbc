-- ===== src/Plugins/Discovery.antt =====
-- The loop of StartDiscoveredPlugins, host/src/plugin_manager.cpp, and the table of plugins that it leaves.
use keel_s.Common.{
  ℕ, zero, suc, ◌+◌, Bool, true, false, not, List, [], ◌∷◌, length, Option, none, some,
  if◌then◌else◌, ◌≡◌, refl, Bool-cases, Option-cases, inl, inr,
}
use keel_s.Plugins.{Plugin, dependency_cycle, Host, is_loading, plugin_by_handle}
use keel_s.Plugins.Running.{Supported}
use keel_s.Plugins.Environment.{Environment}
use keel_s.Plugins.Starting.{
  reject_unstarted_plugin, Verdict, starts, waits, refuses, Round, decide, visit, judge, round,
  is_loading_at, loads, reject_cycle, rounds, publish_started, start_discovered_plugins,
}
use keel_s.Plugins.Fields.{Supported-list, list-Supported}
use keel_s.Plugins.Sound.{Distinct, handles, Sound}
use keel_s.Plugins.Respects.{Reentrant}
use keel_s.Plugins.Calls.{if_plugins, never}
use keel_s.Plugins.Suspension.{in_table}
use keel_s.Plugins.Startup.{start_plugin-Sound, reject_unstarted_plugin-Sound}
use keel_s.Plugins.Waiting.{NeverDiscovers}
use keel_s.Plugins.Rounds.{Ended, start_discovered_plugins-Ended}

loads-some :
    (o : Option Plugin) → loads o ≡ true → (p : Plugin) × (o ≡ some p) × (is_loading p.state ≡ true)
loads-some none h = never h
loads-some (some p) h = (p, refl, h)

module _ (env : Environment) (re : Reentrant env) where
  decide-Sound :
      (t : ℕ) (r : Round) (p : Plugin) (v : Verdict)
      → plugin_by_handle r.host t ≡ some p
      → is_loading p.state ≡ true
      → Sound r.host.plugins
      → Sound (decide env t r v).host.plugins
  decide-Sound t r p starts found waiting s =
      start_plugin-Sound t r.host p s (in_table t r.host p found) waiting env re
  decide-Sound t r p waits found waiting s = s
  decide-Sound t r p (refuses d) found waiting s =
      reject_unstarted_plugin-Sound t r.host p s (in_table t r.host p found) waiting d

  visit-Sound :
      (t : ℕ) (r : Round)
      → Sound r.host.plugins
      → Sound (visit env t r (plugin_by_handle r.host t)).host.plugins
  visit-Sound t r s = elim (Option-cases (plugin_by_handle r.host t)) [
    | inl e ↦ rw e s
    | inr (p, e) ↦ elim (Bool-cases (is_loading p.state)) [
      | inl l ↦
          rw e (rw l (decide-Sound t r p (judge r.host.plugins p.handle p.dependencies) e l s))
      | inr l ↦ rw e (rw l s)
    ]
  ]

  round-Sound :
      (ns : List ℕ) (r : Round) → Sound r.host.plugins → Sound (round env ns r).host.plugins
  unfolding round
  round-Sound [] r s = s
  round-Sound (n ∷ ns) r s =
      round-Sound ns (visit env n r (plugin_by_handle r.host n)) (visit-Sound n r s)

  rejected-Sound :
      (n : ℕ) (host : Host)
      → Sound host.plugins
      → Sound
          (if is_loading_at host n
            then reject_unstarted_plugin dependency_cycle n host
            else host).plugins
  rejected-Sound n host s =
      if_plugins Sound (is_loading_at host n) _ _
        (λ l.
          let (p, e, waiting) = loads-some (plugin_by_handle host n) l in
          reject_unstarted_plugin-Sound n host p s (in_table n host p e) waiting dependency_cycle)
        (λ _. s)

  reject_cycle-Sound :
      (ns : List ℕ) (host : Host) → Sound host.plugins → Sound (reject_cycle ns host).plugins
  unfolding reject_cycle
  reject_cycle-Sound [] host s = s
  reject_cycle-Sound (n ∷ ns) host s = reject_cycle-Sound ns _ (rejected-Sound n host s)

  abbrev SoundResult : Option Host → Type 0
  SoundResult none = Unit
  SoundResult (some host) = Sound host.plugins

  last-SoundResult :
      (b c : Bool) (x y : Host) (z : Option Host)
      → Sound x.plugins
      → Sound y.plugins
      → SoundResult z
      → SoundResult (if not b then some x else if not c then some y else z)
  last-SoundResult false c x y z h k l = h
  last-SoundResult true false x y z h k l = k
  last-SoundResult true true x y z h k l = l

  rounds-SoundResult :
      (fuel : ℕ) (discovered : List ℕ) (host : Host)
      → Sound host.plugins
      → SoundResult (rounds fuel env discovered host)
  unfolding rounds
  rounds-SoundResult zero discovered host s = tt
  rounds-SoundResult (suc fuel) discovered host s =
      let r = round env discovered (record { host = host; remaining = false; progress = false }) in
      let s' =
        round-Sound discovered (record { host = host; remaining = false; progress = false }) s in
      last-SoundResult r.remaining r.progress r.host _ _ s'
        (reject_cycle-Sound discovered r.host s') (rounds-SoundResult fuel discovered r.host s')

  published-SoundResult : (o : Option Host) → SoundResult o → SoundResult (publish_started env o)
  published-SoundResult none s = tt
  published-SoundResult (some host) s = (re.publish_all_loaded host s).0

  started-SoundResult :
      (discovered : List ℕ) (host : Host)
      → Sound host.plugins
      → SoundResult (start_discovered_plugins env discovered host)
  unfolding start_discovered_plugins
  started-SoundResult discovered host s =
      published-SoundResult _ (rounds-SoundResult (length discovered + 1) discovered host s)

  result_of :
      (discovered : List ℕ) (o : Option Host)
      → Ended discovered o
      → SoundResult o
      → (host : Host) × (o ≡ some host) × Supported host
  result_of discovered none ended s = absurd ended
  result_of discovered (some host) ended s = (host, refl, list-Supported host s.0)

-- Plugin code, layers and subscribers discover no plugins and respect the table of plugins, in which they
-- may pause and resume other plugins at any time. The handles of the plugins are distinct, and every
-- running plugin has its dependencies running: the start of the discovered plugins ends, and then as well
-- every running plugin has its dependencies running, in a version that serves, whatever order the plugins
-- were discovered in.
pub start_discovered_plugins-Supported :
    (env : Environment)
    → NeverDiscovers env
    → Reentrant env
    → (discovered : List ℕ) (host : Host) → Distinct (handles host.plugins)
    → Supported host
    → (after : Host) × (start_discovered_plugins env discovered host ≡ some after) × Supported after
start_discovered_plugins-Supported env quiet re discovered host distinct supported =
    result_of env re discovered (start_discovered_plugins env discovered host)
      (start_discovered_plugins-Ended env quiet discovered host)
      (started-SoundResult env re discovered host (Supported-list host supported, distinct))
