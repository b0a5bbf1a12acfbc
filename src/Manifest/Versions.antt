-- ===== src/Manifest/Versions.antt =====
-- The grammar that ParseSemanticVersion reads, and what DependencyVersionMatches decides.
use keel_s.Common.{
  Option-cases, ◌≢◌, ℕ, ◌≤◌, ◌<◌, ◌≡◌, refl, ap, ◌∙◌, ◌↔◌, ◌⊎◌, inl, inr, true, false, [], ◌∷◌,
  ◌++◌, none, some, all, is_empty, arith, u32_max,
}
use keel_s.Text.{Bytes, isdigit}
use keel_s.Text.Decimal.{value, from_chars-digits, from_chars_inv}
use keel_s.Manifest.{
  Version, Dependency, split_dot, parse_component, parse_patch, parse_minor, parse_semantic_version,
  version_eq, version_ge, dependency_version_matches, dependency_exact, dependency_at_least,
}

-- Digits, at least one, for a number of 32 bits. Leading zeros are allowed.
abbrev pub IsNumber : Bytes → ℕ → Type 0
IsNumber text n =
    (is_empty text ≡ false) × (all isdigit text ≡ true) × (value text ≡ n) × (n ≤ u32_max)

parse_component_sound : (text : Bytes) (n : ℕ) → parse_component text ≡ (true, n) → IsNumber text n
unfolding parse_component
parse_component_sound [] n h = ground arith
parse_component_sound (c ∷ text) n h = ground (arith, from_chars_inv u32_max (c ∷ text) n)

parse_component_complete :
    (text : Bytes) (n : ℕ) → IsNumber text n → parse_component text ≡ (true, n)
unfolding parse_component
parse_component_complete [] n h = ground arith
parse_component_complete (c ∷ text) n h = ground (arith, from_chars-digits u32_max c text)

split_dot-digits :
    (digits rest : Bytes)
    → all isdigit digits ≡ true
    → split_dot (digits ++ (b'.' ∷ rest)) ≡ some (digits, rest)
unfolding split_dot isdigit
split_dot-digits [] rest h = refl
split_dot-digits (c ∷ digits) rest h = ground (arith, split_dot-digits digits rest)

split_dot-none : (digits : Bytes) → all isdigit digits ≡ true → split_dot digits ≡ none
unfolding split_dot isdigit
split_dot-none [] h = refl
split_dot-none (c ∷ digits) h = ground (arith, split_dot-none digits)

split_dot_inv :
    (text before after : Bytes)
    → split_dot text ≡ some (before, after)
    → text ≡ before ++ (b'.' ∷ after)
unfolding split_dot
split_dot_inv [] before after h = ground arith
split_dot_inv (c ∷ text) [] after h = ground arith
split_dot_inv (c ∷ text) (b ∷ before) after h = ground (arith, split_dot_inv text before after)

-- Three numbers with dots between them.
abbrev pub IsVersion : Bytes → Version → Type 0
IsVersion text v =
    (a b c : Bytes) × (text ≡ a ++ (b'.' ∷ (b ++ (b'.' ∷ c))))
    × IsNumber a v.major
    × IsNumber b v.minor
    × IsNumber c v.patch

parse_patch_complete :
    (major minor : ℕ) (text : Bytes) (n : ℕ)
    → IsNumber text n
    → parse_patch major minor text ≡ (true, record { major = major; minor = minor; patch = n })
unfolding parse_patch
parse_patch_complete major minor text n h =
    rw (parse_component_complete text n h, split_dot-none text h.1)

parse_minor_complete :
    (major : ℕ) (b c : Bytes) (m n : ℕ)
    → IsNumber b m
    → IsNumber c n
    → parse_minor major (b ++ (b'.' ∷ c)) ≡ (true, record { major = major; minor = m; patch = n })
unfolding parse_minor
parse_minor_complete major b c m n hb hc = ground (
  arith,
  split_dot-digits b c hb.1,
  parse_component_complete b m hb,
  parse_patch_complete major m c n hc,
)

parse_complete :
    (text : Bytes) (v : Version) → IsVersion text v → parse_semantic_version text ≡ (true, v)
unfolding parse_semantic_version
parse_complete text v (a, b, c, e, ha, hb, hc) = ground (
  arith,
  split_dot-digits a (b ++ (b'.' ∷ c)) ha.1,
  parse_component_complete a v.major ha,
  parse_minor_complete v.major b c v.minor v.patch hb hc,
)

parse_patch_sound :
    (major minor : ℕ) (text : Bytes) (v : Version)
    → parse_patch major minor text ≡ (true, v)
    → (v.major ≡ major) × (v.minor ≡ minor) × IsNumber text v.patch
unfolding parse_patch
parse_patch_sound major minor text v h = ground (arith, parse_component_sound text v.patch)

parse_minor-some :
    (major : ℕ) (text b c : Bytes) (v : Version)
    → split_dot text ≡ some (b, c)
    → parse_minor major text ≡ (true, v)
    → (v.major ≡ major) × IsNumber b v.minor × IsNumber c v.patch
unfolding parse_minor
parse_minor-some major text b c v e h =
    ground (arith, parse_component_sound b v.minor, parse_patch_sound major v.minor c v)

parse_minor_sound :
    (major : ℕ) (text : Bytes) (v : Version)
    → parse_minor major text ≡ (true, v)
    → (b c : Bytes) × (text ≡ b ++ (b'.' ∷ c))
      × (v.major ≡ major)
      × IsNumber b v.minor
      × IsNumber c v.patch
unfolding parse_minor
parse_minor_sound major text v h = elim (Option-cases (split_dot text)) [
  | inl e ↦ absurd (ground arith)
  | inr ((b, c), e) ↦
      let (p, q, r) = parse_minor-some major text b c v e h in
      (b, c, split_dot_inv text b c e, p, q, r)
]

parse_some :
    (text a rest : Bytes) (v : Version)
    → split_dot text ≡ some (a, rest)
    → parse_semantic_version text ≡ (true, v)
    → IsNumber a v.major × (parse_minor v.major rest ≡ (true, v))
unfolding parse_semantic_version
parse_some text a rest v e h =
    ground (arith, parse_component_sound a v.major, parse_minor_sound v.major rest v)

parse_none :
    (text : Bytes) (v : Version) → split_dot text ≡ none → parse_semantic_version text ≢ (true, v)
unfolding parse_semantic_version
parse_none text v e = ground arith

parse_sound :
    (text : Bytes) (v : Version) → parse_semantic_version text ≡ (true, v) → IsVersion text v
parse_sound text v h = elim (Option-cases (split_dot text)) [
  | inl e ↦ absurd (parse_none text v e h)
  | inr ((a, rest), e) ↦
      let (ha, later) = parse_some text a rest v e h in
      let (b, c, f, _, hb, hc) = parse_minor_sound v.major rest v later in
      (a, b, c, split_dot_inv text a rest e ∙ ap (λ r. a ++ (b'.' ∷ r)) f, ha, hb, hc)
]

-- The parser accepts a text with a version exactly when the text is three numbers with dots between
-- them, each of digits alone and below 2 ^ 32, and the version is those numbers.
pub parse_semantic_version_iff :
    (text : Bytes) (v : Version) → (parse_semantic_version text ≡ (true, v)) ↔ IsVersion text v
parse_semantic_version_iff text v = (parse_sound text v, parse_complete text v)

-- `r` is at most `a`, compared number by number.
abbrev pub VersionLe : Version → Version → Type 0
VersionLe r a =
    (r.major < a.major)
    ⊎ ((r.major ≡ a.major) × ((r.minor < a.minor) ⊎ ((r.minor ≡ a.minor) × (r.patch ≤ a.patch))))

pub version_ge_iff : (a r : Version) → (version_ge a r ≡ true) ↔ VersionLe r a
unfolding version_ge
version_ge_iff a r = (λ h. ground arith, λ h. ground arith)

pub version_eq_iff : (a r : Version) → (version_eq a r ≡ true) ↔ (a ≡ r)
unfolding version_eq
version_eq_iff a r = (λ h. ground arith, λ h. ground arith)

-- What a dependency asks of a version.
abbrev pub Accepts : Dependency → Version → Version → Type 0
Accepts d required actual =
    ((d.requirement ≡ dependency_exact) × (actual ≡ required))
    ⊎ ((d.requirement ≡ dependency_at_least) × VersionLe required actual)

matches_parts :
    (actual : Bytes) (d : Dependency)
    → dependency_version_matches actual d ≡ true
    → ((parse_semantic_version actual).0 ≡ true)
      × ((parse_semantic_version d.version).0 ≡ true)
      × Accepts d (parse_semantic_version d.version).1 (parse_semantic_version actual).1
unfolding dependency_version_matches
matches_parts actual d h =
    let a = (parse_semantic_version actual).1 in
    let r = (parse_semantic_version d.version).1 in
    ground (arith, version_ge_iff a r, version_eq_iff a r)

matches_intro :
    (actual : Bytes) (d : Dependency) (a r : Version)
    → parse_semantic_version actual ≡ (true, a)
    → parse_semantic_version d.version ≡ (true, r)
    → Accepts d r a
    → dependency_version_matches actual d ≡ true
unfolding dependency_version_matches
matches_intro actual d a r ha hr h = ground (arith, version_ge_iff a r, version_eq_iff a r)

parsed_pair :
    (text : Bytes)
    → (parse_semantic_version text).0 ≡ true
    → IsVersion text (parse_semantic_version text).1
parsed_pair text h = parse_sound text (parse_semantic_version text).1 (ground arith)

-- A dependency is met exactly by a plugin whose version parses, and is the required version where it
-- is to be exact, or is not before it where it is a least version.
pub dependency_version_matches_iff :
    (actual : Bytes) (d : Dependency)
    → (dependency_version_matches actual d ≡ true)
      ↔ ((a r : Version) × IsVersion actual a × IsVersion d.version r × Accepts d r a)
dependency_version_matches_iff actual d = (
  λ h.
      let (p, q, ok) = matches_parts actual d h in
      (
        (parse_semantic_version actual).1,
        (parse_semantic_version d.version).1,
        parsed_pair actual p,
        parsed_pair d.version q,
        ok,
      ),
  λ (a, r, ha, hr, h).
      matches_intro actual d a r (parse_complete actual a ha) (parse_complete d.version r hr) h,
)
