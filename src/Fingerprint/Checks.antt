-- ===== src/Fingerprint/Checks.antt =====
-- The fingerprint of a small file, and the theorems of the fingerprints at it.
use keel_s.Common.{true, [], ◌∷◌, ◌++◌, ◌≡◌, refl}
use keel_s.Text.{Bytes}
use keel_s.Fingerprint.{FileFingerprint, Stream, mix_all, fingerprinted, fingerprint_file}
use keel_s.Fingerprint.Chunks.{
  Bounded, concat, one_pass, fingerprint_file-one_pass, fingerprint_file-Bounded,
}
use keel_s.Fingerprint.Format.{format_fingerprint_injective}

-- "foo" and "bar".
abbrev foo : Bytes
foo = b'f' ∷ b'o' ∷ b'o' ∷ []

abbrev bar : Bytes
bar = b'b' ∷ b'a' ∷ b'r' ∷ []

abbrev stream : Stream
stream = record { is_open = true; chunks = foo ∷ bar ∷ []; is_eof = true }

-- The published FNV-1a hash of "foobar".
foobar_hash : (one_pass (concat stream.chunks)).fnv1a64 ≡ 0x85944171f73967e8
unfolding mix_all
foobar_hash = refl

fingerprint_file-one_pass_example : fingerprint_file stream ≡ fingerprinted (one_pass (foo ++ bar))
fingerprint_file-one_pass_example = fingerprint_file-one_pass stream

fingerprint_file-Bounded_example : Bounded (fingerprint_file stream)
fingerprint_file-Bounded_example = fingerprint_file-Bounded stream

abbrev fingerprint : FileFingerprint
fingerprint = record { size = 6; fnv1a64 = 255 }

format_fingerprint_injective_example : fingerprint ≡ fingerprint
format_fingerprint_injective_example = format_fingerprint_injective fingerprint fingerprint refl
