-- ===== src/Text.antt =====
-- The text helpers of host/src/plugin_manager.cpp and host/src/plugin_manifest_validation.cpp.
-- A text is the list of its bytes; a C string is the list of the bytes before its terminator.
-- The <cctype> tests are those of the "C" locale, in which a byte above 127 has no class.
pub mod Laws
pub mod Decimal
mod Checks
use keel_s.Common.{
  ℕ, suc, ◌+◌, ◌==◌, leb, ltb, Bool, true, false, ◌&&◌, ◌||◌, List, [], ◌∷◌, length, take,
  if◌then◌else◌,
}

abbrev pub Bytes : Type 0
Bytes = List ℕ

-- std::tolower.
unfoldable pub tolower : ℕ → ℕ
tolower c = if leb b'A' c && leb c b'Z' then c + 32 else c

-- std::iscntrl.
unfoldable pub iscntrl : ℕ → Bool
iscntrl c = ltb c 32 || c == 127

-- std::isspace.
unfoldable pub isspace : ℕ → Bool
isspace c = c == b' ' || (leb 9 c && leb c 13)

-- std::isdigit.
unfoldable pub isdigit : ℕ → Bool
isdigit c = leb b'0' c && leb c b'9'

-- std::isalnum.
unfoldable pub isalnum : ℕ → Bool
unfolding isdigit
isalnum c = isdigit c || (leb b'A' c && leb c b'Z') || (leb b'a' c && leb c b'z')

-- std::equal over two texts of one length, with the case of letters ignored.
equal_lower : Bytes → Bytes → Bool
equal_lower [] right = true
equal_lower (a ∷ left) [] = false
equal_lower (a ∷ left) (b ∷ right) = tolower a == tolower b && equal_lower left right

unfoldable pub equal_insensitive : Bytes → Bytes → Bool
unfolding equal_lower
equal_insensitive left right = length left == length right && equal_lower left right

unfoldable pub starts_with_insensitive : Bytes → Bytes → Bool
starts_with_insensitive text prefix =
    leb (length prefix) (length text) && equal_insensitive (take (length prefix) text) prefix

-- The loop over `position`: the list is the text from there on.
contains_from : Bytes → Bytes → Bool
contains_from [] part = leb (length part) 0 && equal_insensitive (take (length part) []) part
contains_from (c ∷ text) part =
    (leb (length part) (suc (length text))
      && equal_insensitive (take (length part) (c ∷ text)) part)
    || contains_from text part

unfoldable pub contains_insensitive : Bytes → Bytes → Bool
unfolding contains_from
contains_insensitive text [] = true
contains_insensitive text (c ∷ part) = contains_from text (c ∷ part)
