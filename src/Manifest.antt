-- ===== src/Manifest.antt =====
-- host/src/plugin_manifest_validation.cpp, and DependencyVersionMatches of host/src/plugin_manager.cpp.
-- The data is that of sdk/include/keels2/plugin.h. A null pointer is `none`; the array of dependencies
-- is the list of its entries. Memory exhaustion, the only exception there, is not modelled.
pub mod Metadata
pub mod Versions
pub mod Dependencies
mod Checks
use keel_s.Common.{
  ℕ, zero, suc, ◌+◌, ◌==◌, leb, u32_max, Bool, true, false, not, ◌&&◌, ◌||◌, List, [], ◌∷◌, ◌++◌,
  Option, none, some, all, any, is_some, if◌then◌else◌,
}
use keel_s.Text.{Bytes, iscntrl, isspace, isdigit, equal_insensitive}
use keel_s.Text.Decimal.{FromChars, parsed, out_of_range, no_digits, from_chars}

-- The byte before the terminator.
abbrev last_byte : ℕ → Bytes → ℕ
last_byte c [] = c
last_byte c (d ∷ text) = last_byte d text

-- `while (length <= maximum && text[length])`; `none` is the return at a control byte. `room` is
-- `maximum + 1 - length`.
scan_metadata : ℕ → Bytes → ℕ → Option ℕ
scan_metadata zero text length = some length
scan_metadata (suc room) [] length = some length
scan_metadata (suc room) (c ∷ text) length =
    let rest = scan_metadata room text (suc length) in if iscntrl c then none else rest

-- What follows the loop.
finish_metadata : Option ℕ → Bytes → ℕ → Bool → Bool
finish_metadata none text maximum allow_empty = false
finish_metadata (some length) [] maximum allow_empty = allow_empty
finish_metadata (some length) (c ∷ text) maximum allow_empty =
    if length == 0
    then allow_empty
    else leb length maximum && not (isspace c) && not (isspace (last_byte c text))

unfoldable pub valid_metadata_text : Option Bytes → ℕ → Bool → Bool
unfolding scan_metadata finish_metadata
valid_metadata_text none maximum allow_empty = allow_empty
valid_metadata_text (some text) maximum allow_empty =
    finish_metadata (scan_metadata (suc maximum) text 0) text maximum allow_empty

-- The text behind a pointer that was tested before.
abbrev pub text_of : Option Bytes → Bytes
text_of none = []
text_of (some text) = text

unfoldable pub valid_plugin_name : Option Bytes → Bool
valid_plugin_name name = valid_metadata_text name 127 false && not (all isdigit (text_of name))

-- `std::array<std::uint32_t, 3>`.
pub record Version : Type 0 where
  pub major : ℕ
  pub minor : ℕ
  pub patch : ℕ

abbrev pub no_version : Version
no_version = record { major = 0; minor = 0; patch = 0 }

-- `version.find('.', begin)`: the text before the dot and the text after it.
unfoldable pub split_dot : Bytes → Option (Bytes × Bytes)
split_dot [] = none
split_dot (c ∷ text) =
    if c == b'.'
    then some ([], text)
    else elim (split_dot text) [ none ↦ none | some (before, after) ↦ some (c ∷ before, after) ]

-- One round of the loop: whether the component was accepted, and the number that it leaves in the
-- output. An empty component is refused before it is read.
unfoldable pub parse_component : Bytes → Bool × ℕ
parse_component [] = (false, 0)
parse_component (c ∷ text) = elim (from_chars u32_max (c ∷ text)) [
  | parsed number [] ↦ (true, number)
  | parsed number (d ∷ rest) ↦ (false, number)
  | out_of_range rest ↦ (false, 0)
  | no_digits ↦ (false, 0)
]

-- The round for the last component, which runs to the end of the text.
parse_patch : ℕ → ℕ → Bytes → Bool × Version
parse_patch major minor text =
    let (accepted, patch) = parse_component text in
    (
      accepted && not (is_some (split_dot text)),
      record { major = major; minor = minor; patch = patch },
    )

parse_minor : ℕ → Bytes → Bool × Version
unfolding parse_patch
parse_minor major text = elim (split_dot text) [
  | none ↦ (false, record { major = major; minor = 0; patch = 0 })
  | some (component, rest) ↦
      let (accepted, minor) = parse_component component in
      if accepted
      then parse_patch major minor rest
      else (false, record { major = major; minor = minor; patch = 0 })
]

unfoldable pub parse_semantic_version : Bytes → Bool × Version
unfolding parse_minor
parse_semantic_version text = elim (split_dot text) [
  | none ↦ (false, no_version)
  | some (component, rest) ↦
      let (accepted, major) = parse_component component in
      if accepted
      then parse_minor major rest
      else (false, record { major = major; minor = 0; patch = 0 })
]

abbrev pub dependency_exact : ℕ
dependency_exact = 1

abbrev pub dependency_at_least : ℕ
dependency_at_least = 2

-- `==` and `>=` of two arrays, the second by lexicographic order.
unfoldable pub version_eq : Version → Version → Bool
version_eq a b = a.major == b.major && a.minor == b.minor && a.patch == b.patch

unfoldable pub version_ge : Version → Version → Bool
version_ge a b =
    if a.major == b.major
    then (if a.minor == b.minor then leb b.patch a.patch else leb b.minor a.minor)
    else leb b.major a.major

-- PluginDependencyRecord and ValidatedPluginDependency.
pub record Dependency : Type 0 where
  pub name : Bytes
  pub version : Bytes
  pub requirement : ℕ

unfoldable pub dependency_version_matches : Bytes → Dependency → Bool
dependency_version_matches actual dependency =
    let (actual_parsed, actual_version) = parse_semantic_version actual in
    let (required_parsed, required_version) = parse_semantic_version dependency.version in
    if not actual_parsed || not required_parsed
    then false
    else if dependency.requirement == dependency_exact
    then version_eq actual_version required_version
    else if dependency.requirement == dependency_at_least
    then version_ge actual_version required_version
    else false

-- KeelPluginDependency and KeelPluginManifest, with their sizes on the 64-bit platforms.
pub record PluginDependency : Type 0 where
  pub size : ℕ
  pub requirement : ℕ
  pub name : Option Bytes
  pub version : Option Bytes

pub record PluginManifest : Type 0 where
  pub size : ℕ
  pub manifest_version : ℕ
  pub dependency_count : ℕ
  pub reserved : ℕ
  pub dependencies : Option (List PluginDependency)

abbrev pub sizeof_dependency : ℕ
sizeof_dependency = 24

abbrev pub sizeof_manifest : ℕ
sizeof_manifest = 24

-- The test in the loop, against the dependencies accepted so far.
unfoldable pub valid_dependency : List Dependency → PluginDependency → Bool
valid_dependency accepted d =
    d.size == sizeof_dependency
    && (d.requirement == dependency_exact || d.requirement == dependency_at_least)
    && valid_plugin_name d.name
    && valid_metadata_text d.version 63 false
    && (parse_semantic_version (text_of d.version)).0
    && not (any (λ existing. equal_insensitive existing.name (text_of d.name)) accepted)

abbrev pub to_dependency : PluginDependency → Dependency
to_dependency d = record {
  name = text_of d.name;
  version = text_of d.version;
  requirement = d.requirement;
}

-- The loop over `index`, by the entries left to read. A list that ends before the count stands for
-- an array that is shorter than its plugin says, which the code cannot see: it is refused here.
validate_entries : ℕ → List PluginDependency → List Dependency → Bool × List Dependency
validate_entries zero entries accepted = (true, accepted)
validate_entries (suc count) [] accepted = (false, [])
validate_entries (suc count) (d ∷ entries) accepted =
    let rest = validate_entries count entries (accepted ++ to_dependency d ∷ []) in
    if valid_dependency accepted d then rest else (false, [])

unfoldable pub validate_plugin_manifest : PluginManifest → Bool × List Dependency
unfolding validate_entries
validate_plugin_manifest m =
    if not (m.size == sizeof_manifest)
      || not (m.manifest_version == 1)
      || not (m.reserved == 0)
      || not (leb m.dependency_count 64)
      || (not (m.dependency_count == 0) && not (is_some m.dependencies))
    then (false, [])
    else elim m.dependencies [
      | none ↦ validate_entries m.dependency_count [] []
      | some entries ↦ validate_entries m.dependency_count entries []
    ]
