-- ===== src/Text/Decimal.antt =====
-- std::to_string and std::from_chars for unsigned numbers in base ten, as the host uses them.
use keel_s.Common.{
  ℕ, zero, suc, ◌+◌, ◌-◌, ◌*◌, ◌/◌, ◌%◌, ◌≤◌, ◌<◌, ◌^◌, ◌≡◌, refl, length, Bool-cases, inl, inr,
  leb, ltb, true, [], ◌∷◌, all, arith, if◌then◌else◌,
}
use keel_s.Text.{Bytes, isdigit}

-- The digits of `n` before `acc`; a number has fewer digits than its successor.
digits_before : ℕ → ℕ → Bytes → Bytes
digits_before zero n acc = acc
digits_before (suc fuel) n acc =
    let rest = digits_before fuel (n / 10) ((b'0' + n % 10) ∷ acc) in
    if ltb n 10 then (b'0' + n) ∷ acc else rest

unfoldable pub to_string : ℕ → Bytes
unfolding digits_before
to_string n = digits_before (suc n) n []

-- The number that a run of digits continues from `acc`.
abbrev pub value_from : ℕ → Bytes → ℕ
value_from acc [] = acc
value_from acc (c ∷ text) = value_from (acc * 10 + (c - b'0')) text

abbrev pub value : Bytes → ℕ
value text = value_from 0 text

-- The result of std::from_chars: `ec`, and `ptr` as the text that is left.
pub data FromChars : Type 0 where
  parsed : ℕ → Bytes → FromChars
  out_of_range : Bytes → FromChars
  no_digits : FromChars

read_digits : ℕ → ℕ → Bytes → FromChars
read_digits limit acc [] = if leb acc limit then parsed acc [] else out_of_range []
read_digits limit acc (c ∷ text) =
    let rest = read_digits limit (acc * 10 + (c - b'0')) text in
    if isdigit c
    then rest
    else if leb acc limit
    then parsed acc (c ∷ text)
    else out_of_range (c ∷ text)

unfoldable pub from_chars : ℕ → Bytes → FromChars
unfolding read_digits
from_chars limit [] = no_digits
from_chars limit (c ∷ text) = if isdigit c then read_digits limit 0 (c ∷ text) else no_digits

read_digits-digits :
    (limit acc : ℕ) (text : Bytes)
    → all isdigit text ≡ true
    → read_digits limit acc text ≡ (
        if leb (value_from acc text) limit
        then parsed (value_from acc text) []
        else out_of_range [])
unfolding read_digits
read_digits-digits limit acc [] h = refl
read_digits-digits limit acc (c ∷ text) h =
    ground (arith, read_digits-digits limit (acc * 10 + (c - b'0')) text)

-- A number that is written in digits alone is read whole.
pub from_chars-digits :
    (limit c : ℕ) (text : Bytes)
    → all isdigit (c ∷ text) ≡ true
    → value (c ∷ text) ≤ limit
    → from_chars limit (c ∷ text) ≡ parsed (value (c ∷ text)) []
unfolding from_chars
from_chars-digits limit c text h le = ground (arith, read_digits-digits limit 0 (c ∷ text))

read_digits_inv :
    (limit acc : ℕ) (text : Bytes) (v : ℕ)
    → read_digits limit acc text ≡ parsed v []
    → (all isdigit text ≡ true) × (v ≡ value_from acc text) × (v ≤ limit)
unfolding read_digits
read_digits_inv limit acc [] v h = ground arith
read_digits_inv limit acc (c ∷ text) v h =
    ground (arith, read_digits_inv limit (acc * 10 + (c - b'0')) text v)

-- Nothing else is: what is read whole is a run of digits, and the number it stands for.
pub from_chars_inv :
    (limit : ℕ) (text : Bytes) (v : ℕ)
    → from_chars limit text ≡ parsed v []
    → (all isdigit text ≡ true) × (v ≡ value text) × (v ≤ limit)
unfolding from_chars
from_chars_inv limit [] v h = ground arith
from_chars_inv limit (c ∷ text) v h = ground (arith, read_digits_inv limit 0 (c ∷ text) v)

digits_before-value :
    (fuel n : ℕ) (acc : Bytes) → n < fuel → value (digits_before fuel n acc) ≡ value_from n acc
unfolding digits_before
digits_before-value zero n acc h = elim h [ ]
digits_before-value (suc fuel) n acc h =
    ground (arith, digits_before-value fuel (n / 10) ((b'0' + n % 10) ∷ acc))

digits_before-digits :
    (fuel n : ℕ) (acc : Bytes)
    → all isdigit acc ≡ true
    → all isdigit (digits_before fuel n acc) ≡ true
unfolding digits_before isdigit
digits_before-digits zero n acc h = h
digits_before-digits (suc fuel) n acc h =
    ground (arith, digits_before-digits fuel (n / 10) ((b'0' + n % 10) ∷ acc))

pub value-to_string : (n : ℕ) → value (to_string n) ≡ n
unfolding to_string
value-to_string n = digits_before-value (suc n) n [] (omega arith)

pub to_string-digits : (n : ℕ) → all isdigit (to_string n) ≡ true
unfolding to_string
to_string-digits n = digits_before-digits (suc n) n [] refl

-- 10 to the power of `k`.
abbrev decimal_limit : ℕ → ℕ
decimal_limit zero = 1
decimal_limit (suc k) = 10 * decimal_limit k

below_ten : (n : ℕ) → n < 10 → ltb n 10 ≡ true
below_ten n h = ground arith

digits_before-length :
    (fuel n k : ℕ) (acc : Bytes)
    → n < fuel
    → n < decimal_limit (suc k)
    → length (digits_before fuel n acc) ≤ suc k + length acc
unfolding digits_before
digits_before-length zero n k acc h l = absurd (omega arith)
digits_before-length (suc fuel) n zero acc h l = rw (below_ten n l) (omega arith)
digits_before-length (suc fuel) n (suc k) acc h l = elim (Bool-cases (ltb n 10)) [
  | inl e ↦ rw e (omega arith)
  | inr e ↦
      let below : n / 10 < decimal_limit (suc k) = omega arith in
      let rest =
        digits_before-length fuel (n / 10) k ((b'0' + n % 10) ∷ acc) (ground arith) below in
      rw e (omega (arith, rest))
]

-- A number of 64 bits has 20 digits at most.
pub to_string-length : (n : ℕ) → n < 2 ^ 64 → length (to_string n) ≤ 20
unfolding to_string
to_string-length n h =
    let below : n < decimal_limit 20 = omega arith in
    let short : length (digits_before (suc n) n []) ≤ 20 + 0 =
      digits_before-length (suc n) n 19 [] (omega arith) below in
    short
