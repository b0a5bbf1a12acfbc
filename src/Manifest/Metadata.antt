-- ===== src/Manifest/Metadata.antt =====
-- What ValidMetadataText and ValidPluginName of host/src/plugin_manifest_validation.cpp accept.
use keel_s.Common.{
  and_right, not_inv, and_intro, and_left, ℕ, zero, suc, ◌+◌, ◌≤◌, ◌≡◌, refl, ◌↔◌, Bool, true,
  false, not, [], ◌∷◌, Option, none, some, all, take, length, min, arith, if◌then◌else◌,
}
use keel_s.Text.{Bytes, iscntrl, isspace, isdigit}
use keel_s.Manifest.{last_byte, scan_metadata, valid_metadata_text, valid_plugin_name}

abbrev printable : ℕ → Bool
printable c = not (iscntrl c)

-- The loop sees one byte more than the maximum.
scan_metadata_lem :
    (room : ℕ) (text : Bytes) (n : ℕ)
    → scan_metadata room text n
      ≡ (if all printable (take room text) then some (n + min room (length text)) else none)
unfolding scan_metadata
scan_metadata_lem zero text n = ground arith
scan_metadata_lem (suc room) [] n = ground arith
scan_metadata_lem (suc room) (c ∷ text) n = ground (arith, scan_metadata_lem room text (suc n))

all-take : (p : ℕ → Bool) (n : ℕ) (text : Bytes) → length text ≤ n → take n text ≡ text
all-take p zero [] h = refl
all-take p (suc n) [] h = refl
all-take p zero (c ∷ text) h = elim h [ ]
all-take p (suc n) (c ∷ text) h = ground (arith, all-take p n text)

-- Text of at most `maximum` bytes, none of them a control byte, with no space at either end.
abbrev pub IsMetadata : Bytes → ℕ → Bool → Type 0
IsMetadata [] maximum allow_empty = allow_empty ≡ true
IsMetadata (c ∷ text) maximum allow_empty =
    (length (c ∷ text) ≤ maximum)
    × (all printable (c ∷ text) ≡ true)
    × (isspace c ≡ false)
    × (isspace (last_byte c text) ≡ false)

-- ValidMetadataText accepts exactly that text, and the empty text where it is allowed.
pub valid_metadata_text_iff :
    (text : Bytes) (maximum : ℕ) (allow_empty : Bool)
    → (valid_metadata_text (some text) maximum allow_empty ≡ true)
      ↔ IsMetadata text maximum allow_empty
unfolding valid_metadata_text
valid_metadata_text_iff [] maximum allow_empty = (ground arith, ground arith)
valid_metadata_text_iff (c ∷ text) maximum allow_empty = (
  λ h.
      ground (arith, scan_metadata_lem (suc maximum) (c ∷ text) 0, all-take printable maximum text),
  λ h.
      ground (arith, scan_metadata_lem (suc maximum) (c ∷ text) 0, all-take printable maximum text),
)

plugin_name_intro :
    (c : ℕ) (text : Bytes)
    → IsMetadata (c ∷ text) 127 false
    → all isdigit (c ∷ text) ≡ false
    → valid_plugin_name (some (c ∷ text)) ≡ true
unfolding valid_plugin_name
plugin_name_intro c text m d =
    and_intro _ _ ((valid_metadata_text_iff (c ∷ text) 127 false).1 m) (rw d)

-- A text that may name a plugin.
abbrev pub IsPluginName : Option Bytes → Type 0
IsPluginName name =
    (c : ℕ) × (text : Bytes) × (name ≡ some (c ∷ text))
    × IsMetadata (c ∷ text) 127 false
    × (all isdigit (c ∷ text) ≡ false)

IsPluginName-inv : (name : Option Bytes) → valid_plugin_name name ≡ true → IsPluginName name
unfolding valid_plugin_name valid_metadata_text
IsPluginName-inv none h = ground arith
IsPluginName-inv (some []) h = ground arith
IsPluginName-inv (some (c ∷ text)) h = (
  c,
  text,
  refl,
  (valid_metadata_text_iff (c ∷ text) 127 false).0 (and_left _ _ h),
  not_inv _ (and_right _ _ h),
)

-- A plugin name is never empty, never longer than 127 bytes and never a number, so that a numeric
-- selector cannot mean a name.
pub valid_plugin_name_iff :
    (name : Option Bytes) → (valid_plugin_name name ≡ true) ↔ IsPluginName name
valid_plugin_name_iff name =
    (IsPluginName-inv name, λ (c, text, e, m, d). rw e (plugin_name_intro c text m d))
