-- ===== src/Rollsum.antt =====
-- src/rollsum.h and src/rollsum.c: the rolling checksum of rsync. `size_t` and `uint_fast16_t` are 64
-- bits wide, as in glibc on 64-bit machines.
pub mod Sums
pub mod Unrolled
pub mod Window
use librsync.Prelude.{ℕ, zero, suc, ◌+◌, ◌-◌, ◌*◌, ◌/◌, ◌%◌, ◌^◌, u64, sub64, leb, if◌then◌else◌}
use librsync.Prelude.{List, [], ◌∷◌, length, drop, get_or, bit_or}

-- `ROLLSUM_CHAR_OFFSET`
abbrev pub char_offset : ℕ
char_offset = 31

pub record Rollsum : Type 0 where
  pub count : ℕ
  pub s1 : ℕ
  pub s2 : ℕ

unfoldable pub rollsum_init : Rollsum
rollsum_init = record { count = 0; s1 = 0; s2 = 0 }

-- `DO1` to `DO16` on the pair of `s1` and `s2`.
unfoldable pub do1 : List ℕ → ℕ → ℕ × ℕ → ℕ × ℕ
do1 buf i (s1, s2) = ((s1 + get_or buf i 0) % u64, (s2 + (s1 + get_or buf i 0) % u64) % u64)

unfoldable pub do2 : List ℕ → ℕ → ℕ × ℕ → ℕ × ℕ
do2 buf i s = do1 buf (i + 1) (do1 buf i s)

unfoldable pub do4 : List ℕ → ℕ → ℕ × ℕ → ℕ × ℕ
do4 buf i s = do2 buf (i + 2) (do2 buf i s)

unfoldable pub do8 : List ℕ → ℕ → ℕ × ℕ → ℕ × ℕ
do8 buf i s = do4 buf (i + 4) (do4 buf i s)

unfoldable pub do16 : List ℕ → ℕ × ℕ → ℕ × ℕ
do16 buf s = do8 buf 8 (do8 buf 0 s)

-- `while (n != 0) { s1 += *buf++; s2 += s1; n--; }`
unfoldable pub update_bytes : List ℕ → ℕ × ℕ → ℕ × ℕ
update_bytes [] s = s
update_bytes (b ∷ buf) (s1, s2) = update_bytes buf ((s1 + b) % u64, (s2 + (s1 + b) % u64) % u64)

-- Both loops. A round of the first takes 16 bytes, so `length buf` rounds are enough.
unfoldable pub update_loops : ℕ → List ℕ → ℕ × ℕ → ℕ × ℕ
update_loops zero buf s = update_bytes buf s
update_loops (suc fuel) buf s =
    let rest = update_loops fuel (drop 16 buf) (do16 buf s) in
    if leb 16 (length buf) then rest else update_bytes buf s

unfoldable pub rollsum_update : List ℕ → Rollsum → Rollsum
rollsum_update buf sum =
    let len = length buf in
    let (s1, s2) = update_loops len buf (sum.s1, sum.s2) in
    record {
      count = (sum.count + len) % u64;
      s1 = (s1 + len * char_offset) % u64;
      s2 = (s2 + (len * (len + 1) % u64 / 2) * char_offset) % u64;
    }

-- `out` and `in` are bytes; `in - out` is an int that is converted to 64 bits.
unfoldable pub rollsum_rotate : ℕ → ℕ → Rollsum → Rollsum
rollsum_rotate out new sum =
    let s1 = sub64 (sum.s1 + new) out in
    record {
      count = sum.count;
      s1 = s1;
      s2 = sub64 (sum.s2 + s1) (sum.count * (out + char_offset));
    }

unfoldable pub rollsum_rollin : ℕ → Rollsum → Rollsum
rollsum_rollin new sum =
    let s1 = (sum.s1 + (new + char_offset)) % u64 in
    record { count = (sum.count + 1) % u64; s1 = s1; s2 = (sum.s2 + s1) % u64 }

unfoldable pub rollsum_rollout : ℕ → Rollsum → Rollsum
rollsum_rollout out sum = record {
  count = sub64 sum.count 1;
  s1 = sub64 sum.s1 (out + char_offset);
  s2 = sub64 sum.s2 (sum.count * (out + char_offset));
}

-- `((uint32_t)s2 << 16) | ((uint32_t)s1 & 0xffff)`; the halves do not overlap.
unfoldable pub rollsum_digest : Rollsum → ℕ
rollsum_digest sum = bit_or (sum.s2 * 2 ^ 16 % 2 ^ 32) (sum.s1 % 2 ^ 16)
