-- ===== src/Fingerprint/Chunks.antt =====
-- FingerprintFile of platform/src/file_fingerprint.cpp: the chunks of the stream do not show.
use keel_s.Common.{
  ℕ, ◌+◌, ◌%◌, ◌^◌, ◌<◌, ◌≤◌, true, false, Bool, List, [], ◌∷◌, ◌++◌, length, length-append, ◌≡◌,
  refl, sym, ap, ◌∙◌, arith, subst, if◌then◌else◌, not,
}
use keel_s.Text.{Bytes}
use keel_s.Fingerprint.{
  FileFingerprint, offset, mix, mix_all, read_chunk, read_chunks, Stream, FingerprintResult,
  fingerprinted, failed, could_not_open, could_not_read, fingerprint_file, format_fingerprint,
}
use keel_s.Fingerprint.Format.{format_fingerprint-length}
use keel_s.Text.Decimal.{to_string, to_string-length}

-- The bytes of the file.
abbrev pub concat : List Bytes → Bytes
concat [] = []
concat (chunk ∷ chunks) = chunk ++ concat chunks

-- The fingerprint of bytes in one pass.
abbrev pub one_pass : Bytes → FileFingerprint
one_pass bytes = record { size = length bytes % 2 ^ 64; fnv1a64 = mix_all offset bytes }

mix_all-append : (hash : ℕ) (xs ys : Bytes) → mix_all hash (xs ++ ys) ≡ mix_all (mix_all hash xs) ys
unfolding mix_all
mix_all-append hash [] ys = refl
mix_all-append hash (x ∷ xs) ys = mix_all-append (mix hash x) xs ys

zero_add : (n : ℕ) → 0 + n ≡ n
zero_add n = omega arith

size_step : (a b c : ℕ) → (((a + b) % 2 ^ 64) + c) % 2 ^ 64 ≡ (a + (b + c)) % 2 ^ 64
size_step a b c = omega arith

read_chunks-concat :
    (r : FileFingerprint) (chunks : List Bytes)
    → r.size < 2 ^ 64
    → read_chunks r chunks ≡ record {
      size = (r.size + length (concat chunks)) % 2 ^ 64;
      fnv1a64 = mix_all r.fnv1a64 (concat chunks);
    }
unfolding read_chunks mix_all
read_chunks-concat r [] h = ap (λ n. record r { size = n }) (omega arith)
read_chunks-concat r (chunk ∷ chunks) h =
    read_chunks-concat (read_chunk r chunk) chunks (omega arith)
    ∙ (ap (λ n. record { size = n; fnv1a64 = mix_all (mix_all r.fnv1a64 chunk) (concat chunks) })
          (size_step r.size (length chunk) (length (concat chunks))
            ∙ ap (λ n. (r.size + n) % 2 ^ 64) (sym (length-append chunk (concat chunks))))
        ∙ ap
            (λ n. record {
              size = (r.size + length (chunk ++ concat chunks)) % 2 ^ 64;
              fnv1a64 = n;
            })
            (sym (mix_all-append r.fnv1a64 chunk (concat chunks))))

-- A file that could be opened and read to its end has the fingerprint of its bytes in one pass, however
-- the stream split them into chunks; one that could not be opened, or not be read to its end, has none.
pub fingerprint_file-one_pass :
    (stream : Stream)
    → fingerprint_file stream ≡ (
        if not stream.is_open
        then failed could_not_open
        else if not stream.is_eof
        then failed could_not_read
        else fingerprinted (one_pass (concat stream.chunks)))
unfolding fingerprint_file
fingerprint_file-one_pass stream =
    ap
      (λ r.
        if not stream.is_open
        then failed could_not_open
        else if not stream.is_eof
        then failed could_not_read
        else fingerprinted r)
      (read_chunks-concat (record { size = 0; fnv1a64 = offset }) stream.chunks (omega arith)
        ∙ ap (λ n. record { size = n % 2 ^ 64; fnv1a64 = mix_all offset (concat stream.chunks) })
            (zero_add (length (concat stream.chunks))))

mix_all-lt : (hash : ℕ) (bytes : Bytes) → hash < 2 ^ 64 → mix_all hash bytes < 2 ^ 64
unfolding mix_all
mix_all-lt hash [] h = h
mix_all-lt hash (x ∷ xs) h = mix_all-lt (mix hash x) xs (omega arith)

abbrev pub Bounded : FingerprintResult → Type 0
Bounded (fingerprinted f) =
    (f.size < 2 ^ 64)
    × (f.fnv1a64 < 2 ^ 64)
    × (length (format_fingerprint f) ≡ 30 + length (to_string f.size))
    × (length (format_fingerprint f) ≤ 50)
Bounded (failed e) = Unit

if_Bounded :
    (b c : Bool) (x y z : FingerprintResult)
    → Bounded x
    → Bounded y
    → Bounded z
    → Bounded (if b then x else if c then y else z)
if_Bounded true c x y z h k l = h
if_Bounded false true x y z h k l = k
if_Bounded false false x y z h k l = l

pass-Bounded :
    (n hash : ℕ)
    → hash < 2 ^ 64
    → Bounded (fingerprinted (record { size = n % 2 ^ 64; fnv1a64 = hash }))
pass-Bounded n hash h =
    let f : FileFingerprint = record { size = n % 2 ^ 64; fnv1a64 = hash } in
    let below : f.size < 2 ^ 64 = omega arith in
    let long = format_fingerprint-length f h in
    let short = to_string-length f.size below in (below, h, long, omega (arith, long, short))

-- The size and the hash of a fingerprint that FingerprintFile gives fit in 64 bits; FormatFingerprint
-- writes it in 30 bytes and the digits of the size, which is 50 bytes at most.
pub fingerprint_file-Bounded : (stream : Stream) → Bounded (fingerprint_file stream)
fingerprint_file-Bounded stream = subst Bounded (sym (fingerprint_file-one_pass stream)) (
    if_Bounded (not stream.is_open) (not stream.is_eof) _ _ _ tt tt (
      pass-Bounded (length (concat stream.chunks)) (mix_all offset (concat stream.chunks))
        (mix_all-lt offset (concat stream.chunks) (omega arith))))
