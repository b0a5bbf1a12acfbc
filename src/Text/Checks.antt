-- ===== src/Text/Checks.antt =====
-- Runs of the text comparisons, and their theorems at concrete texts.
use keel_s.Common.{◌≡◌, refl, ◌↔◌, true, false, [], ◌∷◌}
use keel_s.Text.{Bytes, tolower, equal_insensitive, contains_insensitive, starts_with_insensitive}
use keel_s.Text.Laws.{Contains, contains_insensitive_iff}

-- "Admin" and "MIN".
abbrev admin : Bytes
admin = b'A' ∷ b'd' ∷ b'm' ∷ b'i' ∷ b'n' ∷ []

abbrev min_part : Bytes
min_part = b'M' ∷ b'I' ∷ b'N' ∷ []

admin_contains : contains_insensitive admin min_part ≡ true
unfolding contains_insensitive equal_insensitive tolower
admin_contains = refl

admin_starts : starts_with_insensitive admin min_part ≡ false
unfolding starts_with_insensitive equal_insensitive tolower
admin_starts = refl

contains_insensitive_iff_example :
    (contains_insensitive admin min_part ≡ true) ↔ Contains admin min_part
contains_insensitive_iff_example = contains_insensitive_iff admin min_part
