-- ===== src/Fingerprint/Format.antt =====
-- FormatFingerprint of platform/src/file_fingerprint.cpp: its text stands for one fingerprint.
use keel_s.Common.{
  ℕ, zero, suc, ◌+◌, ◌-◌, ◌*◌, ◌/◌, ◌%◌, ◌^◌, ◌<◌, ◌≤◌, true, [], ◌∷◌, ◌++◌, length, length-append,
  length-replicate, replicate, all, ◌≡◌, refl, sym, ap, ◌∙◌, arith, ltb, ◌==◌, Bool-cases, inl, inr,
  if◌then◌else◌,
}
use keel_s.Text.{Bytes, isdigit}
use keel_s.Text.Decimal.{to_string, value, value-to_string, to_string-digits}
use keel_s.Fingerprint.{
  FileFingerprint, hex_digit, hex_before, pad, size_label, hash_label, format_fingerprint,
}

-- The number that a digit stands for.
abbrev hex_of : ℕ → ℕ
hex_of c = if ltb c b'a' then c - b'0' else c - b'a' + 10

-- The number that a run of digits in base sixteen continues from `acc`.
abbrev pub hex_value_from : ℕ → Bytes → ℕ
hex_value_from acc [] = acc
hex_value_from acc (c ∷ text) = hex_value_from (acc * 16 + hex_of c) text

abbrev pub hex_value : Bytes → ℕ
hex_value text = hex_value_from 0 text

hex_of-hex_digit : (n : ℕ) → n < 16 → hex_of (hex_digit n) ≡ n
hex_of-hex_digit n h = ground arith

below_true : (a b : ℕ) → a < b → ltb a b ≡ true
below_true a b h = ground arith

zero_add : (n : ℕ) → 0 + n ≡ n
zero_add n = omega arith

digits_join : (n : ℕ) → (n / 16) * 16 + n % 16 ≡ n
digits_join n = omega arith

hex_before-value :
    (fuel n : ℕ) (text : Bytes)
    → n < fuel
    → hex_value (hex_before fuel n text) ≡ hex_value_from n text
unfolding hex_before
hex_before-value zero n text h = absurd (omega arith)
hex_before-value (suc fuel) n text h = elim (Bool-cases (ltb n 16)) [
  | inl e ↦ rw e (
      ap (λ m. hex_value_from m text)
        (zero_add (hex_of (hex_digit n)) ∙ hex_of-hex_digit n (ground arith)))
  | inr e ↦ rw e (
      hex_before-value fuel (n / 16) (hex_digit (n % 16) ∷ text) (ground arith)
      ∙ ap (λ m. hex_value_from m text)
          (ap (λ d. (n / 16) * 16 + d) (hex_of-hex_digit (n % 16) (omega arith)) ∙ digits_join n))
]

zeros-value : (k : ℕ) (text : Bytes) → hex_value (replicate k b'0' ++ text) ≡ hex_value text
zeros-value zero text = refl
zeros-value (suc k) text = zeros-value k text

pub pad-value : (width : ℕ) (text : Bytes) → hex_value (pad width text) ≡ hex_value text
pad-value width text = zeros-value (width - length text) text

-- The text up to the first blank, and behind it.
abbrev before_blank : Bytes → Bytes
before_blank [] = []
before_blank (c ∷ text) = let rest = before_blank text in if c == b' ' then [] else c ∷ rest

abbrev after_blank : Bytes → Bytes
after_blank [] = []
after_blank (c ∷ text) = if c == b' ' then text else after_blank text

digits-before_blank : (xs ys : Bytes) → all isdigit xs ≡ true → before_blank (xs ++ b' ' ∷ ys) ≡ xs
unfolding isdigit
digits-before_blank [] ys h = refl
digits-before_blank (x ∷ xs) ys h = ground (arith, digits-before_blank xs ys)

digits-after_blank : (xs ys : Bytes) → all isdigit xs ≡ true → after_blank (xs ++ b' ' ∷ ys) ≡ ys
unfolding isdigit
digits-after_blank [] ys h = refl
digits-after_blank (x ∷ xs) ys h = ground (arith, digits-after_blank xs ys)

abbrev behind : ℕ → Bytes → Bytes
behind zero text = text
behind (suc n) [] = []
behind (suc n) (c ∷ text) = behind n text

-- What the text stands for.
abbrev parse : Bytes → FileFingerprint
parse text = record {
  size = value (before_blank (behind 5 text));
  fnv1a64 = hex_value (behind 8 (after_blank (behind 5 text)));
}

parse-format_fingerprint : (f : FileFingerprint) → parse (format_fingerprint f) ≡ f
unfolding format_fingerprint
parse-format_fingerprint f =
    let hash = pad 16 (hex_before (suc f.fnv1a64) f.fnv1a64 []) in
    let rest = behind 1 hash_label ++ hash in
    let digits = to_string-digits f.size in
    ap
      (λ text. record {
        size = value text;
        fnv1a64 = hex_value (behind 8 (after_blank (to_string f.size ++ b' ' ∷ rest)));
      })
      (digits-before_blank (to_string f.size) rest digits)
    ∙ (ap (λ text. record { size = value (to_string f.size); fnv1a64 = hex_value (behind 8 text) })
          (digits-after_blank (to_string f.size) rest digits)
        ∙ (ap (λ n. record { size = n; fnv1a64 = hex_value hash }) (value-to_string f.size)
            ∙ ap (λ n. record { size = f.size; fnv1a64 = n })
                (pad-value 16 (hex_before (suc f.fnv1a64) f.fnv1a64 [])
                  ∙ hex_before-value (suc f.fnv1a64) f.fnv1a64 [] (omega arith))))

-- Fingerprints with the same text are the same.
pub format_fingerprint_injective :
    (f g : FileFingerprint) → format_fingerprint f ≡ format_fingerprint g → f ≡ g
format_fingerprint_injective f g same =
    sym (parse-format_fingerprint f) ∙ (ap parse same ∙ parse-format_fingerprint g)

-- 16 to the power of `k`.
abbrev hex_limit : ℕ → ℕ
hex_limit zero = 1
hex_limit (suc k) = 16 * hex_limit k

hex_before-length :
    (fuel n k : ℕ) (text : Bytes)
    → n < fuel
    → n < hex_limit (suc k)
    → length (hex_before fuel n text) ≤ suc k + length text
unfolding hex_before
hex_before-length zero n k text h l = absurd (omega arith)
hex_before-length (suc fuel) n zero text h l = rw (below_true n 16 l) (omega arith)
hex_before-length (suc fuel) n (suc k) text h l = elim (Bool-cases (ltb n 16)) [
  | inl e ↦ rw e (omega arith)
  | inr e ↦
      let below : n / 16 < hex_limit (suc k) = omega arith in
      let rest =
        hex_before-length fuel (n / 16) k (hex_digit (n % 16) ∷ text) (ground arith) below in
      rw e (omega (arith, rest))
]

-- The hash is written in 16 digits.
pad-hex_before-length : (n : ℕ) → n < 2 ^ 64 → length (pad 16 (hex_before (suc n) n [])) ≡ 16
pad-hex_before-length n h =
    let text = hex_before (suc n) n [] in
    let short : length text ≤ 16 + 0 = hex_before-length (suc n) n 15 [] (omega arith) h in
    length-append (replicate (16 - length text) b'0') text
    ∙ (ap (λ k. k + length text) (length-replicate (16 - length text) b'0') ∙ omega arith)

-- Both labels, the digits of the size, and 16 digits of the hash.
pub format_fingerprint-length :
    (f : FileFingerprint)
    → f.fnv1a64 < 2 ^ 64
    → length (format_fingerprint f) ≡ 30 + length (to_string f.size)
unfolding format_fingerprint
format_fingerprint-length f h =
    let hash = pad 16 (hex_before (suc f.fnv1a64) f.fnv1a64 []) in
    let digits : length hash ≡ 16 = pad-hex_before-length f.fnv1a64 h in
    let five : length size_label ≡ 5 = refl in
    let nine : length hash_label ≡ 9 = refl in
    let whole = length-append size_label (to_string f.size ++ (hash_label ++ hash)) in
    let behind_size = length-append (to_string f.size) (hash_label ++ hash) in
    let behind_label = length-append hash_label hash in
    omega (arith, digits, five, nine, whole, behind_size, behind_label)
