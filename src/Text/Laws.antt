-- ===== src/Text/Laws.antt =====
-- What the comparisons of texts decide.
use keel_s.Common.{
  and_right, or_cases, or_right, ℕ, ◌≡◌, refl, sym, ap, ◌∙◌, ◌↔◌, true, ◌||◌, [], ◌∷◌, ◌++◌, map,
  take, drop, take-append, take-append-drop, length, length-append, inl, inr, arith,
}
use keel_s.Text.{
  Bytes, tolower, equal_insensitive, starts_with_insensitive, contains_from, contains_insensitive,
}

-- The text with its letters in lower case.
abbrev pub lower : Bytes → Bytes
lower = map tolower

pub lower_of_equal :
    (left right : Bytes) → equal_insensitive left right ≡ true → lower left ≡ lower right
unfolding equal_insensitive
lower_of_equal [] [] h = refl
lower_of_equal [] (b ∷ right) h = ground arith
lower_of_equal (a ∷ left) [] h = ground arith
lower_of_equal (a ∷ left) (b ∷ right) h = ground (arith, lower_of_equal left right)

pub equal_of_lower :
    (left right : Bytes) → lower left ≡ lower right → equal_insensitive left right ≡ true
unfolding equal_insensitive
equal_of_lower [] [] h = refl
equal_of_lower [] (b ∷ right) h = ground arith
equal_of_lower (a ∷ left) [] h = ground arith
equal_of_lower (a ∷ left) (b ∷ right) h = ground (arith, equal_of_lower left right)

pub equal_insensitive_refl : (text : Bytes) → equal_insensitive text text ≡ true
equal_insensitive_refl text = equal_of_lower text text refl

pub equal_insensitive_symm :
    (left right : Bytes) → equal_insensitive left right ≡ true → equal_insensitive right left ≡ true
equal_insensitive_symm left right h = equal_of_lower right left (sym (lower_of_equal left right h))

pub equal_insensitive_trans :
    (a b c : Bytes)
    → equal_insensitive a b ≡ true
    → equal_insensitive b c ≡ true
    → equal_insensitive a c ≡ true
equal_insensitive_trans a b c h k = equal_of_lower a c (lower_of_equal a b h ∙ lower_of_equal b c k)

pub equal_insensitive_comm :
    (left right : Bytes) → equal_insensitive left right ≡ equal_insensitive right left
equal_insensitive_comm left right =
    ground (arith, equal_insensitive_symm left right, equal_insensitive_symm right left)

length_of_equal :
    (left right : Bytes) → equal_insensitive left right ≡ true → length left ≡ length right
unfolding equal_insensitive
length_of_equal left right h = ground arith

-- A text starts with whatever equals its first part.
pub starts_with_of_equal :
    (middle after part : Bytes)
    → equal_insensitive middle part ≡ true
    → starts_with_insensitive (middle ++ after) part ≡ true
unfolding starts_with_insensitive
starts_with_of_equal middle after part h =
    rw (take-append (length part) middle after (sym (length_of_equal middle part h)))
      (ground (arith, length_of_equal middle part h, length-append middle after))

contains_from_step :
    (c : ℕ) (text part : Bytes)
    → contains_from (c ∷ text) part
      ≡ (starts_with_insensitive (c ∷ text) part || contains_from text part)
unfolding contains_from starts_with_insensitive
contains_from_step c text part = refl

contains_from_end : (part : Bytes) → contains_from [] part ≡ starts_with_insensitive [] part
unfolding contains_from starts_with_insensitive
contains_from_end part = refl

abbrev pub Contains : Bytes → Bytes → Type 0
Contains text part =
    (before middle after : Bytes) × (text ≡ before ++ (middle ++ after))
    × (equal_insensitive middle part ≡ true)

starts_with-Contains :
    (text part : Bytes) → starts_with_insensitive text part ≡ true → Contains text part
unfolding starts_with_insensitive
starts_with-Contains text part h = (
  [],
  take (length part) text,
  drop (length part) text,
  sym (take-append-drop (length part) text),
  and_right _ _ h,
)

after_byte : (c : ℕ) (text part : Bytes) → Contains text part → Contains (c ∷ text) part
after_byte c text part (before, middle, after, e, h) = (c ∷ before, middle, after, ap (◌∷◌ c) e, h)

contains_from_here :
    (text part : Bytes) → starts_with_insensitive text part ≡ true → contains_from text part ≡ true
contains_from_here [] part h = rw (contains_from_end part) h
contains_from_here (c ∷ text) part h = rw (contains_from_step c text part, h)

contains_from_sound : (text part : Bytes) → contains_from text part ≡ true → Contains text part
contains_from_sound [] part h = starts_with-Contains [] part (sym (contains_from_end part) ∙ h)
contains_from_sound (c ∷ text) part h =
    elim (or_cases _ _ (sym (contains_from_step c text part) ∙ h)) [
      | inl here ↦ starts_with-Contains (c ∷ text) part here
      | inr later ↦ after_byte c text part (contains_from_sound text part later)
    ]

contains_from_complete :
    (before middle after part : Bytes)
    → equal_insensitive middle part ≡ true
    → contains_from (before ++ (middle ++ after)) part ≡ true
contains_from_complete [] middle after part h =
    contains_from_here (middle ++ after) part (starts_with_of_equal middle after part h)
contains_from_complete (b ∷ before) middle after part h =
    rw (contains_from_step b (before ++ (middle ++ after)) part)
      (or_right _ _ (contains_from_complete before middle after part h))

-- A text contains a part exactly when some stretch of it equals the part, case ignored.
pub contains_insensitive_iff :
    (text part : Bytes) → (contains_insensitive text part ≡ true) ↔ Contains text part
unfolding contains_insensitive
contains_insensitive_iff text [] = (λ _. ([], [], text, refl, equal_insensitive_refl []), λ _. refl)
contains_insensitive_iff text (c ∷ part) = (
  contains_from_sound text (c ∷ part),
  λ (before, middle, after, e, h). rw e (contains_from_complete before middle after (c ∷ part) h),
)

-- Two texts are equal with case ignored exactly when they are one text in lower case.
pub equal_insensitive_iff :
    (left right : Bytes) → (equal_insensitive left right ≡ true) ↔ (lower left ≡ lower right)
equal_insensitive_iff left right = (lower_of_equal left right, equal_of_lower left right)
