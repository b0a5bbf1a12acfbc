-- ===== src/Manifest/Dependencies.antt =====
-- What ValidatePluginManifest of host/src/plugin_manifest_validation.cpp accepts.
use keel_s.Common.{
  sym, subst, ◌∙◌, ℕ, zero, suc, ◌≤◌, ◌==◌, ◌≡◌, refl, ◌↔◌, Bool, true, false, ◌||◌, List, [], ◌∷◌,
  ◌++◌, Option, none, some, map, any, take, length, arith,
}
use keel_s.Text.{Bytes, equal_insensitive}
use mathlib.Core.List.{append_assoc, append-nil}
use keel_s.Text.Laws.{equal_insensitive_comm}
use keel_s.Manifest.{
  Dependency, PluginDependency, PluginManifest, to_dependency, text_of, valid_dependency,
  validate_entries, validate_plugin_manifest, valid_plugin_name, valid_metadata_text,
  parse_semantic_version, sizeof_dependency, sizeof_manifest, dependency_exact, dependency_at_least,
}

-- Some dependency of the list has the name.
abbrev named : Bytes → List Dependency → Bool
named name deps = any (λ d. equal_insensitive d.name name) deps

-- No two dependencies have one name.
abbrev pub Distinct : List Dependency → Type 0
Distinct [] = Unit
Distinct (d ∷ deps) = (named d.name deps ≡ false) × Distinct deps

-- An entry that is well formed by itself.
abbrev pub IsEntry : PluginDependency → Type 0
IsEntry d =
    (d.size ≡ sizeof_dependency)
    × ((d.requirement == dependency_exact || d.requirement == dependency_at_least) ≡ true)
    × (valid_plugin_name d.name ≡ true)
    × (valid_metadata_text d.version 63 false ≡ true)
    × ((parse_semantic_version (text_of d.version)).0 ≡ true)

abbrev pub AllEntries : List PluginDependency → Type 0
AllEntries [] = Unit
AllEntries (d ∷ entries) = IsEntry d × AllEntries entries

valid_dependency_parts :
    (accepted : List Dependency) (d : PluginDependency)
    → valid_dependency accepted d ≡ true
    → IsEntry d × (named (text_of d.name) accepted ≡ false)
unfolding valid_dependency
valid_dependency_parts accepted d h = ground arith

valid_dependency_intro :
    (accepted : List Dependency) (d : PluginDependency)
    → IsEntry d
    → named (text_of d.name) accepted ≡ false
    → valid_dependency accepted d ≡ true
unfolding valid_dependency
valid_dependency_intro accepted d e h = ground arith

named-snoc :
    (name : Bytes) (deps : List Dependency) (d : Dependency)
    → named name deps ≡ false
    → equal_insensitive d.name name ≡ false
    → named name (deps ++ d ∷ []) ≡ false
named-snoc name [] d h k = ground arith
named-snoc name (x ∷ deps) d h k = ground (arith, named-snoc name deps d)

Distinct-snoc :
    (deps : List Dependency) (d : Dependency)
    → Distinct deps
    → named d.name deps ≡ false
    → Distinct (deps ++ d ∷ [])
Distinct-snoc [] d h k = (refl, tt)
Distinct-snoc (x ∷ deps) d h k = (
  named-snoc x.name deps d h.0 (ground (arith, equal_insensitive_comm d.name x.name)),
  Distinct-snoc deps d h.1 (ground arith),
)

named-middle :
    (name : Bytes) (deps rest : List Dependency) (d : Dependency)
    → named name (deps ++ (d ∷ rest)) ≡ false
    → equal_insensitive d.name name ≡ false
named-middle name [] rest d h = ground arith
named-middle name (x ∷ deps) rest d h = named-middle name deps rest d (ground arith)

Distinct-middle :
    (deps rest : List Dependency) (d : Dependency)
    → Distinct (deps ++ (d ∷ rest))
    → named d.name deps ≡ false
Distinct-middle [] rest d h = refl
Distinct-middle (x ∷ deps) rest d h = ground (
  arith,
  named-middle x.name deps rest d h.0,
  equal_insensitive_comm d.name x.name,
  Distinct-middle deps rest d h.1,
)

-- The dependencies that the first entries stand for.
abbrev pub read_entries : ℕ → List PluginDependency → List Dependency
read_entries count entries = map to_dependency (take count entries)

-- What the loop has read when it accepts every entry.
abbrev Accepted : ℕ → List PluginDependency → List Dependency → List Dependency → Type 0
Accepted count entries accepted deps =
    (count ≤ length entries)
    × AllEntries (take count entries)
    × (deps ≡ accepted ++ read_entries count entries)
    × Distinct deps

validate_step :
    (count : ℕ) (d : PluginDependency) (entries : List PluginDependency)
    (accepted deps : List Dependency)
    → validate_entries (suc count) (d ∷ entries) accepted ≡ (true, deps)
    → (valid_dependency accepted d ≡ true)
      × (validate_entries count entries (accepted ++ to_dependency d ∷ []) ≡ (true, deps))
unfolding validate_entries
validate_step count d entries accepted deps h = ground arith

validate_entries_sound :
    (count : ℕ) (entries : List PluginDependency) (accepted deps : List Dependency)
    → validate_entries count entries accepted ≡ (true, deps)
    → Distinct accepted
    → Accepted count entries accepted deps
unfolding validate_entries
validate_entries_sound zero entries accepted deps h distinct =
    (omega arith, tt, ground (arith, append-nil accepted), ground arith)
validate_entries_sound (suc count) [] accepted deps h distinct = ground arith
validate_entries_sound (suc count) (d ∷ entries) accepted deps h distinct =
    let (valid, later) = validate_step count d entries accepted deps h in
    let (entry, fresh) = valid_dependency_parts accepted d valid in
    let (enough, entries_valid, e, distinct') =
      validate_entries_sound count entries (accepted ++ to_dependency d ∷ []) deps later
        (Distinct-snoc accepted (to_dependency d) distinct fresh) in
    (
      omega arith,
      (entry, entries_valid),
      e ∙ append_assoc accepted (to_dependency d ∷ []) (read_entries count entries),
      distinct',
    )

validate_entries_complete :
    (count : ℕ) (entries : List PluginDependency) (accepted : List Dependency)
    → count ≤ length entries
    → AllEntries (take count entries)
    → Distinct (accepted ++ read_entries count entries)
    → validate_entries count entries accepted ≡ (true, accepted ++ read_entries count entries)
unfolding validate_entries
validate_entries_complete zero entries accepted enough valid distinct =
    ground (arith, append-nil accepted)
validate_entries_complete (suc count) [] accepted enough valid distinct = elim enough [ ]
validate_entries_complete (suc count) (d ∷ entries) accepted enough valid distinct =
    let assoc = append_assoc accepted (to_dependency d ∷ []) (read_entries count entries) in
    let entry_valid =
      valid_dependency_intro accepted d valid.0
        (Distinct-middle accepted (read_entries count entries) (to_dependency d) distinct) in
    let later =
      validate_entries_complete count entries (accepted ++ to_dependency d ∷ []) (omega arith)
        valid.1 (subst Distinct (sym assoc) distinct) in
    ground (arith, entry_valid, later, assoc)

-- A failed loop leaves nothing behind.
validate_entries_failed :
    (count : ℕ) (entries : List PluginDependency) (accepted : List Dependency)
    → (validate_entries count entries accepted).0 ≡ false
    → (validate_entries count entries accepted).1 ≡ []
unfolding validate_entries
validate_entries_failed zero entries accepted h = ground arith
validate_entries_failed (suc count) [] accepted h = refl
validate_entries_failed (suc count) (d ∷ entries) accepted h =
    ground (arith, validate_entries_failed count entries (accepted ++ to_dependency d ∷ []))

abbrev pub entries_of : Option (List PluginDependency) → List PluginDependency
entries_of none = []
entries_of (some entries) = entries

-- A manifest and the dependencies that it declares.
abbrev pub IsManifest : PluginManifest → List Dependency → Type 0
IsManifest m deps =
    (m.size ≡ sizeof_manifest)
    × (m.manifest_version ≡ 1)
    × (m.reserved ≡ 0)
    × (m.dependency_count ≤ 64)
    × Accepted m.dependency_count (entries_of m.dependencies) [] deps

validate_sound :
    (m : PluginManifest) (deps : List Dependency)
    → validate_plugin_manifest m ≡ (true, deps)
    → IsManifest m deps
unfolding validate_plugin_manifest
validate_sound m deps h =
    ground (arith, validate_entries_sound m.dependency_count (entries_of m.dependencies) [] deps)

validate_complete :
    (m : PluginManifest) (deps : List Dependency)
    → IsManifest m deps
    → validate_plugin_manifest m ≡ (true, deps)
unfolding validate_plugin_manifest
validate_complete m deps h =
    ground (arith, validate_entries_complete m.dependency_count (entries_of m.dependencies) [])

-- A manifest is accepted exactly when its fixed fields are right, it states at most 64 dependencies
-- and has them, each entry is well formed, and no two of them have one name, case ignored; the result
-- is then the entries in their order.
pub validate_plugin_manifest_iff :
    (m : PluginManifest) (deps : List Dependency)
    → (validate_plugin_manifest m ≡ (true, deps)) ↔ IsManifest m deps
validate_plugin_manifest_iff m deps = (validate_sound m deps, validate_complete m deps)

-- A refused manifest leaves no dependencies in the output.
pub validate_plugin_manifest_refused :
    (m : PluginManifest)
    → (validate_plugin_manifest m).0 ≡ false
    → (validate_plugin_manifest m).1 ≡ []
unfolding validate_plugin_manifest
validate_plugin_manifest_refused m h =
    ground (arith, validate_entries_failed m.dependency_count (entries_of m.dependencies) [])
