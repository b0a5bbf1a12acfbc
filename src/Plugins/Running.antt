-- ===== src/Plugins/Running.antt =====
-- Stopping a plugin that nothing holds takes no dependency from a running plugin:
-- DependenciesReady and HasRunningDependent of host/src/plugin_manager.cpp.
use keel_s.Common.{
  ℕ, ◌==◌, Bool, true, false, ◌&&◌, ◌||◌, not, List, [], ◌∷◌, Option, some, any, all, find, filter,
  All, ◌≡◌, ◌≢◌, ◌↔◌, ◌⊎◌, refl, sym, ◌∙◌, subst, arith, Bool-cases, and_right, find-head,
  Option-cases, inl, inr,
}
use keel_s.Text.{Bytes, equal_insensitive}
use keel_s.Text.Laws.{equal_insensitive_iff}
use keel_s.Manifest.{Dependency, dependency_version_matches}
use keel_s.Plugins.{Plugin, Host, is_loaded, target_in, remove_plugin_record}
use keel_s.Plugins.Depend.{
  dependency_ready, is_ready, check_dependencies, dependencies_ready, depends_on, holds,
  has_running_dependent,
}
use keel_s.Services

-- The dependency has a target in the list: another plugin, of a version that serves, that runs.
abbrev pub Served : List Plugin → ℕ → Dependency → Type 0
Served plugins handle d =
    (target : Plugin) × (target_in d.name plugins ≡ some target)
    × (target.handle ≢ handle)
    × (dependency_version_matches target.version d ≡ true)
    × (is_loaded target.state ≡ true)
    × (target.transitioning ≡ false)

pub Served-of_ready :
    (plugins : List Plugin) (handle : ℕ) (d : Dependency)
    → is_ready (dependency_ready handle d (target_in d.name plugins)) ≡ true
    → Served plugins handle d
Served-of_ready plugins handle d h = elim (Option-cases (target_in d.name plugins)) [
  | inl nobody ↦ absurd (ground arith)
  | inr (t, e) ↦ (t, e, ground arith, ground arith, ground arith, ground arith)
]

pub ready_of_Served :
    (plugins : List Plugin) (handle : ℕ) (d : Dependency)
    → Served plugins handle d
    → is_ready (dependency_ready handle d (target_in d.name plugins)) ≡ true
ready_of_Served plugins handle d (t, e, other, version, runs, still) = ground arith

pub check_sound :
    (plugins : List Plugin) (handle : ℕ) (ds : List Dependency)
    → is_ready (check_dependencies plugins handle ds) ≡ true
    → All (Served plugins handle) ds
check_sound plugins handle [] h = tt
check_sound plugins handle (d ∷ ds) h =
    (Served-of_ready plugins handle d (ground arith), check_sound plugins handle ds (ground arith))

pub check_complete :
    (plugins : List Plugin) (handle : ℕ) (ds : List Dependency)
    → All (Served plugins handle) ds
    → is_ready (check_dependencies plugins handle ds) ≡ true
check_complete plugins handle [] h = refl
check_complete plugins handle (d ∷ ds) (h, hs) =
    ground (arith, ready_of_Served plugins handle d h, check_complete plugins handle ds hs)

-- A plugin is ready to run exactly when each of its dependencies names another plugin, whose version
-- serves, which runs and is in no transition.
pub dependencies_ready_iff :
    (host : Host) (plugin : Plugin)
    → (is_ready (dependencies_ready host plugin) ≡ true)
      ↔ All (Served host.plugins plugin.handle) plugin.dependencies
unfolding dependencies_ready
dependencies_ready_iff host plugin = (
  check_sound host.plugins plugin.handle plugin.dependencies,
  check_complete host.plugins plugin.handle plugin.dependencies,
)

-- A plugin that does not run, or whose dependencies are ready.
abbrev pub healthy : Host → Plugin → Bool
healthy host q = not (is_loaded q.state) || is_ready (dependencies_ready host q)

-- Every running plugin has its dependencies running.
abbrev pub Supported : Host → Type 0
Supported host = all (healthy host) host.plugins ≡ true

-- No other plugin of the host has the handle.
abbrev pub OnlyRecord : Host → Plugin → Type 0
OnlyRecord host plugin = All (λ p. (p.handle ≢ plugin.handle) ⊎ (p.name ≡ plugin.name)) host.plugins

clash : false ≡ true → ⊥
clash e = ground arith

equal_insensitive_sym : (a b : Bytes) → equal_insensitive a b ≡ true → equal_insensitive b a ≡ true
equal_insensitive_sym a b h = (equal_insensitive_iff b a).1 (sym ((equal_insensitive_iff a b).0 h))

pub find-filter :
    (test : Plugin → Bool) (handle : ℕ) (plugins : List Plugin) (t : Plugin)
    → find test plugins ≡ some t
    → t.handle ≢ handle
    → find test (filter (λ p. not (p.handle == handle)) plugins) ≡ some t
find-filter test handle [] t h other = absurd (ground arith)
find-filter test handle (p ∷ plugins) t h other = elim (Bool-cases (test p)) [
  | inl e ↦
      let here : p ≡ t = find-head test p plugins t e h in
      let far : p.handle ≢ handle = subst (λ x. x.handle ≢ handle) (sym here) other in ground arith
  | inr e ↦ ground (arith, find-filter test handle plugins t)
]

other_name :
    (plugin : Plugin) (name : Bytes) (p : Plugin)
    → equal_insensitive name plugin.name ≡ false
    → (p.handle ≢ plugin.handle) ⊎ (p.name ≡ plugin.name)
    → equal_insensitive p.name name ≡ true
    → p.handle ≢ plugin.handle
other_name plugin name p h (inl far) e = far
other_name plugin name p h (inr same_name) e = absurd (
    clash (
      sym h
      ∙ equal_insensitive_sym plugin.name name
          (subst (λ x. equal_insensitive x name ≡ true) same_name e)))

-- The target of a dependency that does not name the plugin is another record.
pub target_other :
    (plugin : Plugin) (name : Bytes) (plugins : List Plugin) (t : Plugin)
    → equal_insensitive name plugin.name ≡ false
    → All (λ p. (p.handle ≢ plugin.handle) ⊎ (p.name ≡ plugin.name)) plugins
    → target_in name plugins ≡ some t
    → t.handle ≢ plugin.handle
target_other plugin name [] t h only e = absurd (ground arith)
target_other plugin name (p ∷ plugins) t h (o, only) e =
    elim (Bool-cases (p.selectable && equal_insensitive p.name name)) [
      | inl found ↦
          subst (λ x. x.handle ≢ plugin.handle)
            (find-head (λ x. x.selectable && equal_insensitive x.name name) p plugins t found e)
            (other_name plugin name p h o (and_right p.selectable _ found))
      | inr passed ↦ target_other plugin name plugins t h only (ground arith)
    ]

module _ (host : Host) (plugin : Plugin) (only : OnlyRecord host plugin) where
  still-Served :
      (handle : ℕ) (ds : List Dependency)
      → any (λ d. equal_insensitive d.name plugin.name) ds ≡ false
      → All (Served host.plugins handle) ds
      → All (Served (remove_plugin_record host plugin.handle).plugins handle) ds
  unfolding remove_plugin_record
  still-Served handle [] h served = tt
  still-Served handle (d ∷ ds) h ((t, e, far, version, runs, still), served) =
      let other = target_other plugin d.name host.plugins t (ground arith) only e in
      (
        (t, find-filter _ plugin.handle host.plugins t e other, far, version, runs, still),
        still-Served handle ds (ground arith) served,
      )

  still_ready :
      (q : Plugin)
      → depends_on plugin q ≡ false
      → is_ready (dependencies_ready host q) ≡ true
      → is_ready (dependencies_ready (remove_plugin_record host plugin.handle) q) ≡ true
  still_ready q h r =
      (dependencies_ready_iff (remove_plugin_record host plugin.handle) q).1
        (still-Served q.handle q.dependencies h ((dependencies_ready_iff host q).0 r))

  still_healthy :
      (include_retained : Bool) (qs : List Plugin)
      → any (holds include_retained plugin) qs ≡ false
      → all (healthy host) qs ≡ true
      → all
          (healthy (remove_plugin_record host plugin.handle))
          (filter (λ p. not (p.handle == plugin.handle)) qs)
        ≡ true
  still_healthy include_retained [] h r = refl
  still_healthy include_retained (q ∷ qs) h r =
      ground (arith, still_ready q, still_healthy include_retained qs)

pub removed_healthy :
    (host : Host) (plugin : Plugin)
    → OnlyRecord host plugin
    → any (holds true plugin) host.plugins ≡ false
    → Supported host
    → Supported (remove_plugin_record host plugin.handle)
unfolding remove_plugin_record
removed_healthy host plugin only free supported =
    still_healthy host plugin only true host.plugins free supported

-- In a host where every running plugin has its dependencies running, a plugin that nothing holds and
-- whose handle no record of another name has can be removed: every running plugin that is left still
-- has all its dependencies running.
pub remove_plugin_record-Supported :
    (host : Host) (services : Option Services.Registry) (pinned : Bool) (plugin : Plugin)
    (include_retained : Bool)
    → OnlyRecord host plugin
    → Supported host
    → has_running_dependent host services pinned plugin include_retained ≡ false
    → Supported (remove_plugin_record host plugin.handle)
unfolding has_running_dependent remove_plugin_record
remove_plugin_record-Supported host services pinned plugin include_retained only supported free =
    still_healthy host plugin only include_retained host.plugins (ground arith) supported
