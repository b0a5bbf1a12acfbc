-- ===== src/Common/Result.antt =====
-- sdk/include/keels2/plugin.h: the result codes of the C interface, and the widths of its numbers.
use Prim.Native.Nat.{ℕ}
use mathlib.Core.Bool.{Bool, true, false}

-- `KEEL_RESULT_OK` and the codes after it.
pub data KeelResult : Type 0 where
  ok invalid_argument not_ready not_found already_exists engine_failure : KeelResult
  reserved_name incompatible unsupported ambiguous busy wrong_thread : KeelResult

-- The test `result == KEEL_RESULT_OK`.
abbrev pub is_ok : KeelResult → Bool
is_ok ok = true
is_ok _ = false

abbrev pub u32_max : ℕ
u32_max = 4294967295

abbrev pub u32_mod : ℕ
u32_mod = 4294967296

abbrev pub u64_mod : ℕ
u64_mod = 18446744073709551616
