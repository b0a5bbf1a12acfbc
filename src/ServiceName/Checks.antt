-- ===== src/ServiceName/Checks.antt =====
-- Runs of CanonicalServiceName, and its theorems at concrete names.
use keel_s.Common.{◌≡◌, refl, ◌↔◌, true, [], ◌∷◌, some}
use keel_s.Text.{Bytes, tolower, isalnum, isdigit, equal_insensitive}
use keel_s.ServiceName.{canonical_service_name, service_character}
use keel_s.ServiceName.Laws.{
  IsServiceName, canonical_service_name_iff, canonical_service_name_insensitive,
}

-- "My.Bank", "my.BANK" and "my.bank".
abbrev spoken : Bytes
spoken = b'M' ∷ b'y' ∷ b'.' ∷ b'B' ∷ b'a' ∷ b'n' ∷ b'k' ∷ []

abbrev shouted : Bytes
shouted = b'm' ∷ b'y' ∷ b'.' ∷ b'B' ∷ b'A' ∷ b'N' ∷ b'K' ∷ []

abbrev canonical : Bytes
canonical = b'm' ∷ b'y' ∷ b'.' ∷ b'b' ∷ b'a' ∷ b'n' ∷ b'k' ∷ []

spoken-canonical : canonical_service_name (some spoken) ≡ (true, canonical)
unfolding canonical_service_name service_character isalnum isdigit tolower
spoken-canonical = refl

spoken-shouted : equal_insensitive spoken shouted ≡ true
unfolding equal_insensitive tolower
spoken-shouted = refl

canonical_service_name_iff_example :
    (canonical_service_name (some spoken) ≡ (true, canonical)) ↔ IsServiceName spoken canonical
canonical_service_name_iff_example = canonical_service_name_iff spoken canonical

canonical_service_name_insensitive_example :
    canonical_service_name (some shouted) ≡ (true, canonical)
canonical_service_name_insensitive_example =
    canonical_service_name_insensitive spoken shouted canonical spoken-shouted spoken-canonical
