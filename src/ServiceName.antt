-- ===== src/ServiceName.antt =====
-- host/src/service_name_validation.cpp: the canonical spelling of a service's name.
pub mod Laws
mod Checks
use keel_s.Common.{
  ℕ, zero, suc, ◌==◌, leb, Bool, true, false, ◌&&◌, ◌||◌, List, [], ◌∷◌, ◌++◌, Option, none, some,
  is_empty, if◌then◌else◌,
}
use keel_s.Text.{Bytes, isalnum, tolower}

abbrev pub name_capacity : ℕ
name_capacity = 128

-- "keels2."
abbrev pub reserved_prefix : Bytes
reserved_prefix = b'k' ∷ b'e' ∷ b'e' ∷ b'l' ∷ b's' ∷ b'2' ∷ b'.' ∷ []

unfoldable pub service_character : ℕ → Bool
service_character c = isalnum c || c == b'.' || c == b'_' || c == b'-'

-- `canonical.rfind(prefix, 0) == 0`.
abbrev pub has_prefix : Bytes → Bytes → Bool
has_prefix [] text = true
has_prefix (p ∷ prefix) [] = false
has_prefix (p ∷ prefix) (c ∷ text) = p == c && has_prefix prefix text

-- The loop; `room` is the capacity less `length`, and `none` the return at a character that no name
-- has. What is left over is the canonical text and whether the capacity was reached.
canonical_loop : ℕ → Bytes → Bytes → Option (Bytes × Bool)
canonical_loop zero text canonical = some (canonical, true)
canonical_loop (suc room) [] canonical = some (canonical, false)
canonical_loop (suc room) (c ∷ text) canonical =
    let rest = canonical_loop room text (canonical ++ tolower c ∷ []) in
    if service_character c then rest else none

-- What follows the loop. `length == 0` is an empty canonical text.
canonical_end : Option (Bytes × Bool) → Bool × Bytes
canonical_end none = (false, [])
canonical_end (some (canonical, full)) =
    if is_empty canonical || full || has_prefix reserved_prefix canonical
    then (false, [])
    else (true, canonical)

unfoldable pub canonical_service_name : Option Bytes → Bool × Bytes
unfolding canonical_loop canonical_end
canonical_service_name none = (false, [])
canonical_service_name (some name) = canonical_end (canonical_loop name_capacity name [])
