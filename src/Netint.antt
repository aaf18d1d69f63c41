-- ===== src/Netint.antt =====
-- src/netint.c: network integers of 1 to 8 bytes through the tube and the scoop.
pub mod Bytes
pub mod RoundTrip
pub mod IntLen
pub mod Squirt
use librsync.Prelude.{
  ℕ, zero, suc, ◌+◌, ◌*◌, ◌/◌, ◌%◌, ◌^◌, bit_or, u32, u64, sign_extend, shift_right8, is_neg64, not,
}
use librsync.Prelude.{Bool, ltb, leb, ◌==◌, if◌then◌else◌, List, [], ◌∷◌, get_or}
use librsync.Result.{RsResult, is_done}
use librsync.Io.{Io, assert_that}
use librsync.Scoop.{scoop_read}
use librsync.Tube.{tube_write}

-- `RS_MAX_INT_BYTES`
abbrev pub max_int_bytes : ℕ
max_int_bytes = 8

-- `rs_squirt_byte` and the other `squirt` functions answer RS_DONE always; they return the job.
unfoldable pub squirt_byte : ℕ → Io → Io
squirt_byte val io = tube_write (val ∷ []) io

-- `for (i = len - 1; i >= 0; i--) { buf[i] = val; val >>= 8; }`: `buf` is filled from its end.
unfoldable pub netint_bytes : ℕ → ℕ → List ℕ → List ℕ
netint_bytes zero val buf = buf
netint_bytes (suc i) val buf = netint_bytes i (shift_right8 val) ((val % 256) ∷ buf)

unfoldable pub squirt_netint : ℕ → ℕ → Io → Io
squirt_netint val len io =
    tube_write (netint_bytes len val []) (assert_that (leb len max_int_bytes) io)

-- The int is widened to an `rs_long_t`.
unfoldable pub squirt_n4 : ℕ → Io → Io
squirt_n4 val io = squirt_netint (sign_extend val) 4 io

-- The value is meant where the result is `done`; so in the other `suck` functions.
unfoldable pub suck_byte : Io → RsResult × ℕ × Io
suck_byte io = let (r, buf, io') = scoop_read 1 io in (r, get_or buf 0 0, io')

-- `for (i = 0; i < len; i++) *val = (*val << 8) | buf[i]`
unfoldable pub netint_value : ℕ → List ℕ → ℕ
netint_value val [] = val
netint_value val (b ∷ buf) = netint_value (bit_or (val * 256 % u64) b) buf

unfoldable pub suck_netint : ℕ → Io → RsResult × ℕ × Io
suck_netint len io =
    let (r, buf, io') = scoop_read len (assert_that (leb len max_int_bytes) io) in
    (r, netint_value 0 buf, io')

unfoldable pub suck_n4 : Io → RsResult × ℕ × Io
suck_n4 io = let (r, val, io') = suck_netint 4 io in (r, val % u32, io')

-- `val & ~(2 ^ k - 1)` is zero exactly when `val / 2 ^ k` is.
unfoldable pub int_width : ℕ → ℕ
int_width val =
    if val / 2 ^ 8 == 0
    then 1
    else if val / 2 ^ 16 == 0
    then 2
    else if val / 2 ^ 32 == 0
    then 4
    else 8

-- `rs_int_len`: the width, and whether its assertion `val >= 0` holds; the one on the high bits always
-- does.
unfoldable pub int_len : ℕ → ℕ × Bool
unfolding int_width
int_len val = (int_width val, not (is_neg64 val))
