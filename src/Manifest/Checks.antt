-- ===== src/Manifest/Checks.antt =====
-- Runs of the manifest's validation, and its theorems at concrete manifests.
use keel_s.Common.{◌≡◌, refl, ◌↔◌, true, false, [], ◌∷◌, some}
use keel_s.Text.{Bytes, isdigit}
use keel_s.Text.Decimal.{from_chars}
use keel_s.Manifest.{
  Version, Dependency, PluginDependency, PluginManifest, valid_metadata_text, valid_plugin_name,
  split_dot, parse_component, parse_semantic_version, version_eq, version_ge,
  dependency_version_matches, validate_plugin_manifest,
}
use keel_s.Manifest.Metadata.{
  IsMetadata, IsPluginName, valid_metadata_text_iff, valid_plugin_name_iff,
}
use keel_s.Manifest.Versions.{
  IsVersion, Accepts, parse_semantic_version_iff, dependency_version_matches_iff,
}
use keel_s.Manifest.Dependencies.{IsManifest, validate_plugin_manifest_iff}

-- "Core", "1.12.3" and "1.9.0".
abbrev core : Bytes
core = b'C' ∷ b'o' ∷ b'r' ∷ b'e' ∷ []

abbrev newer_text : Bytes
newer_text = b'1' ∷ b'.' ∷ b'1' ∷ b'2' ∷ b'.' ∷ b'3' ∷ []

abbrev older_text : Bytes
older_text = b'1' ∷ b'.' ∷ b'9' ∷ b'.' ∷ b'0' ∷ []

abbrev newer : Version
newer = record { major = 1; minor = 12; patch = 3 }

abbrev needs_core : Dependency
needs_core = record { name = core; version = older_text; requirement = 2 }

newer_parses : parse_semantic_version newer_text ≡ (true, newer)
unfolding parse_semantic_version parse_component split_dot from_chars isdigit
newer_parses = refl

newer_meets_older : dependency_version_matches newer_text needs_core ≡ true
unfolding dependency_version_matches parse_semantic_version parse_component split_dot from_chars
    isdigit version_ge version_eq
newer_meets_older = refl

valid_metadata_text_iff_example :
    (valid_metadata_text (some core) 127 false ≡ true) ↔ IsMetadata core 127 false
valid_metadata_text_iff_example = valid_metadata_text_iff core 127 false

valid_plugin_name_iff_example : (valid_plugin_name (some core) ≡ true) ↔ IsPluginName (some core)
valid_plugin_name_iff_example = valid_plugin_name_iff (some core)

parse_semantic_version_iff_example :
    (parse_semantic_version newer_text ≡ (true, newer)) ↔ IsVersion newer_text newer
parse_semantic_version_iff_example = parse_semantic_version_iff newer_text newer

dependency_version_matches_iff_example :
    (dependency_version_matches newer_text needs_core ≡ true) ↔ (
      (a r : Version) × IsVersion newer_text a
      × IsVersion needs_core.version r
      × Accepts needs_core r a)
dependency_version_matches_iff_example = dependency_version_matches_iff newer_text needs_core

abbrev core_entry : PluginDependency
core_entry = record { size = 24; requirement = 2; name = some core; version = some older_text }

abbrev one_dependency : PluginManifest
one_dependency = record {
  size = 24;
  manifest_version = 1;
  dependency_count = 1;
  reserved = 0;
  dependencies = some (core_entry ∷ []);
}

-- The same name twice.
abbrev repeated : PluginManifest
repeated = record one_dependency {
  dependency_count = 2;
  dependencies = some (core_entry ∷ core_entry ∷ []);
}

validate_plugin_manifest_iff_example :
    (validate_plugin_manifest one_dependency ≡ (true, needs_core ∷ []))
    ↔ IsManifest one_dependency (needs_core ∷ [])
validate_plugin_manifest_iff_example = validate_plugin_manifest_iff one_dependency (needs_core ∷ [])
