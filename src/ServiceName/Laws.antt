-- ===== src/ServiceName/Laws.antt =====
-- What CanonicalServiceName of host/src/service_name_validation.cpp accepts and returns.
use mathlib.Core.List.{append_assoc, append-nil}
use keel_s.Common.{
  subst, ℕ, zero, suc, ◌<◌, ◌≡◌, refl, sym, ap, ◌∙◌, ◌↔◌, Bool, true, false, ◌||◌, List, [], ◌∷◌,
  ◌++◌, none, some, all, take, length, is_empty, arith, if◌then◌else◌, Bool-cases, inl, inr, leb,
}
use keel_s.Text.{Bytes, tolower, isalnum, isdigit, equal_insensitive}
use keel_s.Text.Laws.{lower, lower_of_equal}
use keel_s.ServiceName.{
  service_character, canonical_loop, canonical_end, canonical_service_name, has_prefix,
  reserved_prefix, name_capacity,
}

canonical_loop_lem :
    (room : ℕ) (text canonical : Bytes)
    → canonical_loop room text canonical ≡ (
        if all service_character (take room text)
        then some (canonical ++ lower (take room text), leb room (length text))
        else none)
unfolding canonical_loop
canonical_loop_lem zero text canonical = ground (arith, append-nil canonical)
canonical_loop_lem (suc room) [] canonical = ground (arith, append-nil canonical)
canonical_loop_lem (suc room) (c ∷ text) canonical = ground (
  arith,
  canonical_loop_lem room text (canonical ++ tolower c ∷ []),
  append_assoc canonical (tolower c ∷ []) (lower (take room text)),
)

-- A name in its canonical spelling: 1 to 127 letters, digits, dots, underscores and dashes, not in
-- the framework's own name space.
abbrev pub IsServiceName : Bytes → Bytes → Type 0
IsServiceName name canonical =
    (all service_character name ≡ true)
    × (is_empty name ≡ false)
    × (length name < name_capacity)
    × (canonical ≡ lower name)
    × (has_prefix reserved_prefix canonical ≡ false)

take_all : {A : Type 0} (n : ℕ) (xs : List A) → length xs < n → take n xs ≡ xs
take_all zero xs h = elim h [ ]
take_all (suc n) [] h = refl
take_all (suc n) (x ∷ xs) h = ap (◌∷◌ x) (take_all n xs (omega arith))

canonical_lem :
    (name : Bytes)
    → canonical_service_name (some name) ≡ (
        if all service_character (take name_capacity name)
        then (if is_empty (lower (take name_capacity name))
              || leb name_capacity (length name)
              || has_prefix reserved_prefix (lower (take name_capacity name))
            then (false, [])
            else (true, lower (take name_capacity name)))
        else (false, []))
unfolding canonical_service_name
canonical_lem name =
    rw (canonical_loop_lem name_capacity name [])
      (elim (Bool-cases (all service_character (take name_capacity name))) [
        | inl e ↦ rw (e, canonical_end) refl
        | inr e ↦ rw (e, canonical_end) refl
      ])

chosen :
    (a b : Bool) (t c : Bytes)
    → ◌≡◌ {A = Bool × Bytes}
        (if a then (if b then (false, []) else (true, t)) else (false, []))
        (true, c)
    → (a ≡ true) × (b ≡ false) × (c ≡ t)
chosen a b t c h = ground arith

none_of : (a b c : Bool) → (a || b || c) ≡ false → (a ≡ false) × (b ≡ false) × (c ≡ false)
none_of a b c h = ground arith

is_empty-lower : (text : Bytes) → is_empty (lower text) ≡ is_empty text
is_empty-lower [] = refl
is_empty-lower (c ∷ text) = refl

below_of_leb : (m n : ℕ) → leb m n ≡ false → n < m
below_of_leb m n h = ground arith

leb_of_below : (m n : ℕ) → n < m → leb m n ≡ false
leb_of_below m n h = ground arith

canonical_sound :
    (name canonical : Bytes)
    → canonical_service_name (some name) ≡ (true, canonical)
    → IsServiceName name canonical
canonical_sound name canonical h =
    let (letters, rest, e) = chosen _ _ _ _ (sym (canonical_lem name) ∙ h) in
    let (nonempty, short, free) = none_of _ _ _ rest in
    let whole = take_all name_capacity name (below_of_leb _ _ short) in
    (
      ap (all service_character) (sym whole) ∙ letters,
      sym (ap is_empty (ap lower whole) ∙ is_empty-lower name) ∙ nonempty,
      below_of_leb _ _ short,
      e ∙ ap lower whole,
      ap (has_prefix reserved_prefix) e ∙ free,
    )

canonical_complete :
    (name canonical : Bytes)
    → IsServiceName name canonical
    → canonical_service_name (some name) ≡ (true, canonical)
canonical_complete name canonical (letters, nonempty, short, e, free) = rw (
  canonical_lem name,
  take_all name_capacity name short,
  letters,
  is_empty-lower name,
  nonempty,
  leb_of_below name_capacity (length name) short,
  ← e,
  free,
)

-- A name is accepted exactly when it has 1 to 127 letters, digits, dots, underscores or dashes and
-- does not begin with the framework's prefix in any case; the result is the name in lower case.
pub canonical_service_name_iff :
    (name canonical : Bytes)
    → (canonical_service_name (some name) ≡ (true, canonical)) ↔ IsServiceName name canonical
canonical_service_name_iff name canonical =
    (canonical_sound name canonical, canonical_complete name canonical)

tolower_idem : (c : ℕ) → tolower (tolower c) ≡ tolower c
unfolding tolower
tolower_idem c = ground arith

service_character-tolower : (c : ℕ) → service_character (tolower c) ≡ service_character c
unfolding service_character isalnum isdigit tolower
service_character-tolower c = ground arith

lower_idem : (text : Bytes) → lower (lower text) ≡ lower text
lower_idem [] = refl
lower_idem (c ∷ text) = rw (tolower_idem c, lower_idem text)

all-lower : (text : Bytes) → all service_character (lower text) ≡ all service_character text
all-lower [] = refl
all-lower (c ∷ text) = rw (service_character-tolower c, all-lower text)

length-lower : (text : Bytes) → length (lower text) ≡ length text
length-lower [] = refl
length-lower (c ∷ text) = ap suc (length-lower text)

-- A canonical name is its own canonical spelling.
pub canonical_service_name_idem :
    (name canonical : Bytes)
    → canonical_service_name (some name) ≡ (true, canonical)
    → canonical_service_name (some canonical) ≡ (true, canonical)
canonical_service_name_idem name canonical h =
    let (letters, nonempty, short, e, free) = canonical_sound name canonical h in
    canonical_complete canonical canonical (
      ap (all service_character) e ∙ all-lower name ∙ letters,
      ap is_empty e ∙ is_empty-lower name ∙ nonempty,
      subst (λ n. n < name_capacity) (sym (ap length e ∙ length-lower name)) short,
      e ∙ sym (lower_idem name) ∙ ap lower (sym e),
      free,
    )

-- Names that differ in the case of letters alone are one name: they are accepted together, with one
-- canonical spelling.
pub canonical_service_name_insensitive :
    (name other canonical : Bytes)
    → equal_insensitive name other ≡ true
    → canonical_service_name (some name) ≡ (true, canonical)
    → canonical_service_name (some other) ≡ (true, canonical)
canonical_service_name_insensitive name other canonical same h =
    let (letters, nonempty, short, e, free) = canonical_sound name canonical h in
    let lowers : lower other ≡ lower name = sym (lower_of_equal name other same) in
    canonical_complete other canonical (
      sym (all-lower other) ∙ ap (all service_character) lowers ∙ all-lower name ∙ letters,
      sym (is_empty-lower other) ∙ ap is_empty lowers ∙ is_empty-lower name ∙ nonempty,
      subst (λ n. n < name_capacity)
          (sym (sym (length-lower other) ∙ ap length lowers ∙ length-lower name)) short,
      e ∙ sym lowers,
      free,
    )
