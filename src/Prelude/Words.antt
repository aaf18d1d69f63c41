-- ===== src/Prelude/Words.antt =====
-- Machine words. A word is its bit pattern, a number below 2 ^ w: an `int` below 2 ^ 32, an
-- `rs_long_t` (int64_t) and a `size_t` below 2 ^ 64.
use Prim.Native.Nat.{◌%◌, ℕ, ◌+◌, ◌-◌, ◌*◌, ◌/◌, ◌^◌, ◌<◌}
use mathlib.Core.Bool.{Bool}
use librsync.Prelude.Tests.{leb, if◌then◌else◌}

abbrev pub u32 : ℕ
u32 = 2 ^ 32

abbrev pub u64 : ℕ
u64 = 2 ^ 64

abbrev pub IsByte : ℕ → Type 0
IsByte b = b < 256

-- The sign bit of an int and of an int64_t.
abbrev pub is_neg32 : ℕ → Bool
is_neg32 v = leb (2 ^ 31) v

-- `a - b` of unsigned 64-bit numbers.
abbrev pub sub64 : ℕ → ℕ → ℕ
sub64 a b = (a + (u64 - b % u64)) % u64

abbrev pub is_neg64 : ℕ → Bool
is_neg64 v = leb (2 ^ 63) v

-- The conversion of an int to an int64_t keeps the signed value.
abbrev pub sign_extend : ℕ → ℕ
sign_extend v = if is_neg32 v then v + (2 ^ 64 - 2 ^ 32) else v

-- `val >> 8` of an int64_t copies the sign bit in.
abbrev pub shift_right8 : ℕ → ℕ
shift_right8 v = if is_neg64 v then v / 256 + 255 * 2 ^ 56 else v / 256
