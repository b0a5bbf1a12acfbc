-- ===== src/Plugins/Depend.antt =====
-- DependenciesReady, PluginCommandActive and HasRunningDependent of host/src/plugin_manager.cpp: what a
-- plugin needs before it runs, and what keeps it from being stopped.
use keel_s.Common.{
  ℕ, ◌==◌, Bool, true, false, ◌&&◌, ◌||◌, not, List, [], ◌∷◌, Option, none, some, any,
  if◌then◌else◌,
}
use keel_s.Text.{Bytes, equal_insensitive}
use keel_s.Manifest.{Dependency, dependency_version_matches}
use keel_s.Plugins.{Plugin, Command, Host, is_loaded, target_in}
use keel_s.Services
use keel_s.Services.{has_leased_publication}

-- The diagnostic of DependenciesReady, or that there is none.
pub data Readiness : Type 0 where
  ready : Readiness
  missing_dependency : Dependency → Readiness
  itself : Readiness
  version_mismatch : Dependency → Bytes → Readiness
  not_running : Dependency → Readiness

-- The body of the loop, for the plugin that the name finds.
abbrev pub dependency_ready : ℕ → Dependency → Option Plugin → Readiness
dependency_ready handle d none = missing_dependency d
dependency_ready handle d (some target) =
    if target.handle == handle
    then itself
    else if not (dependency_version_matches target.version d)
    then version_mismatch d target.version
    else if not (is_loaded target.state) || target.transitioning
    then not_running d
    else ready

abbrev pub is_ready : Readiness → Bool
is_ready ready = true
is_ready _ = false

-- The loop returns at the first dependency that is not ready.
abbrev pub check_dependencies : List Plugin → ℕ → List Dependency → Readiness
check_dependencies plugins handle [] = ready
check_dependencies plugins handle (d ∷ rest) =
    let later = check_dependencies plugins handle rest in
    let here = dependency_ready handle d (target_in d.name plugins) in
    if is_ready here then later else here

unfoldable pub dependencies_ready : Host → Plugin → Readiness
dependencies_ready host plugin = check_dependencies host.plugins plugin.handle plugin.dependencies

abbrev pub command_active : ℕ → Command → Bool
command_active owner c = c.owner == owner && not (c.active == 0)

unfoldable pub plugin_command_active : Host → ℕ → Bool
plugin_command_active host owner =
    any (command_active owner) host.commands || any (command_active owner) host.retired_commands

-- A plugin of the loop that depends on the given one and holds it.
abbrev pub depends_on : Plugin → Plugin → Bool
depends_on plugin candidate = any (λ d. equal_insensitive d.name plugin.name) candidate.dependencies

abbrev pub holds : Bool → Plugin → Plugin → Bool
holds include_retained plugin candidate =
    not (candidate.handle == plugin.handle)
    && (is_loaded candidate.state || include_retained && candidate.library_open)
    && depends_on plugin candidate

abbrev pub leased_by_others : Option Services.Registry → ℕ → Bool
leased_by_others none handle = false
leased_by_others (some registry) handle = has_leased_publication registry handle

-- HasRunningDependent, without the name that it reports. `pinned` is the answer of the factory service,
-- which is false where there is none.
unfoldable pub has_running_dependent : Host → Option Services.Registry → Bool → Plugin → Bool → Bool
has_running_dependent host services pinned plugin include_retained =
    if not (plugin.active_native_operations == 0)
    then true
    else if plugin_command_active host plugin.handle
    then true
    else if any (holds include_retained plugin) host.plugins
    then true
    else if pinned
    then true
    else leased_by_others services plugin.handle
