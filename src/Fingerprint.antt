-- ===== src/Fingerprint.antt =====
-- platform/src/file_fingerprint.cpp: FileFingerprint, FingerprintFile and FormatFingerprint.
-- A file is what its stream delivers: chunks of at most 65536 bytes, and whether the end was reached.
pub mod Chunks
pub mod Format
mod Checks
use keel_s.Common.{
  ℕ, zero, suc, ◌+◌, ◌*◌, ◌/◌, ◌%◌, ◌^◌, Bool, true, false, List, [], ◌∷◌, ◌++◌, Option, none, some,
  length, ltb, not, ◌-◌, if◌then◌else◌, replicate,
}
use keel_s.Text.{Bytes}
use keel_s.Text.Decimal.{to_string}
use Prim.Native.Nat.{bit_xor}

-- FileFingerprint.
pub record FileFingerprint : Type 0 where
  pub size : ℕ
  pub fnv1a64 : ℕ

abbrev pub offset : ℕ
offset = 14695981039346656037

abbrev pub prime : ℕ
prime = 1099511628211

-- One byte goes into the hash.
abbrev pub mix : ℕ → ℕ → ℕ
mix hash byte = (bit_xor hash byte * prime) % 2 ^ 64

-- The loop over the bytes of the buffer.
unfoldable pub mix_all : ℕ → Bytes → ℕ
mix_all hash [] = hash
mix_all hash (byte ∷ bytes) = mix_all (mix hash byte) bytes

-- The body of the loop over the stream.
abbrev pub read_chunk : FileFingerprint → Bytes → FileFingerprint
read_chunk result chunk = record {
  size = (result.size + length chunk) % 2 ^ 64;
  fnv1a64 = mix_all result.fnv1a64 chunk;
}

unfoldable pub read_chunks : FileFingerprint → List Bytes → FileFingerprint
read_chunks result [] = result
read_chunks result (chunk ∷ chunks) = read_chunks (read_chunk result chunk) chunks

-- What std::ifstream gives: whether the file was opened, the chunks that were read, and whether the
-- reading stopped at the end of the file.
pub record Stream : Type 0 where
  pub is_open : Bool
  pub chunks : List Bytes
  pub is_eof : Bool

-- The texts of FingerprintFile's errors.
pub data FingerprintError : Type 0 where
  could_not_open could_not_read : FingerprintError

pub data FingerprintResult : Type 0 where
  fingerprinted : FileFingerprint → FingerprintResult
  failed : FingerprintError → FingerprintResult

-- FingerprintFile.
unfoldable pub fingerprint_file : Stream → FingerprintResult
fingerprint_file stream =
    let result = read_chunks (record { size = 0; fnv1a64 = offset }) stream.chunks in
    if not stream.is_open
    then failed could_not_open
    else if not stream.is_eof
    then failed could_not_read
    else fingerprinted result

-- A digit of a number in base sixteen, as std::hex writes it.
abbrev pub hex_digit : ℕ → ℕ
hex_digit n = if ltb n 10 then b'0' + n else b'a' + (n - 10)

-- The digits of a number before `text`; a number has fewer digits than its successor.
unfoldable pub hex_before : ℕ → ℕ → Bytes → Bytes
hex_before zero n text = text
hex_before (suc fuel) n text =
    let rest = hex_before fuel (n / 16) (hex_digit (n % 16) ∷ text) in
    if ltb n 16 then hex_digit n ∷ text else rest

-- std::setw and std::setfill('0').
abbrev pub pad : ℕ → Bytes → Bytes
pad width text = replicate (width - length text) b'0' ++ text

-- "size=" and " fnv1a64=".
abbrev pub size_label : Bytes
size_label = b's' ∷ b'i' ∷ b'z' ∷ b'e' ∷ b'=' ∷ []

abbrev pub hash_label : Bytes
hash_label = b' ' ∷ b'f' ∷ b'n' ∷ b'v' ∷ b'1' ∷ b'a' ∷ b'6' ∷ b'4' ∷ b'=' ∷ []

-- FormatFingerprint.
unfoldable pub format_fingerprint : FileFingerprint → Bytes
format_fingerprint fingerprint =
    size_label
    ++ (to_string fingerprint.size
        ++ (hash_label ++ pad 16 (hex_before (suc fingerprint.fnv1a64) fingerprint.fnv1a64 [])))
