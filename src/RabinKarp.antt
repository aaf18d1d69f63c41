-- ===== src/RabinKarp.antt =====
-- src/rabinkarp.h and src/rabinkarp.c: the rolling hash that new signatures use.
pub mod Power
pub mod Blocks
pub mod Hash
use librsync.Prelude.{
  ℕ, zero, suc, ◌+◌, ◌-◌, ◌*◌, ◌/◌, ◌%◌, ◌^◌, u32, u64, leb, ◌==◌, if◌then◌else◌,
}
use librsync.Prelude.{List, [], ◌∷◌, length, drop, get_or}

-- `RABINKARP_SEED`, `RABINKARP_MULT`, `RABINKARP_INVM`, `RABINKARP_ADJ` and `RABINKARP_MULT2`
abbrev pub rk_seed : ℕ
rk_seed = 1

abbrev pub rk_mult : ℕ
rk_mult = 0x08104225

abbrev pub rk_invm : ℕ
rk_invm = 0x98f009ad

abbrev pub rk_adj : ℕ
rk_adj = 0x08104224

abbrev pub rk_mult2 : ℕ
rk_mult2 = 0xa5b71959

-- `rabinkarp_t`
pub record RabinKarpSum : Type 0 where
  pub count : ℕ
  pub hash : ℕ
  pub mult : ℕ

-- `a - b` of unsigned 32-bit and 64-bit numbers.
abbrev pub sub32 : ℕ → ℕ → ℕ
sub32 a b = (a + (u32 - b % u32)) % u32

-- `RABINKARP_MULT_POW2`
abbrev pub mult_pow2 : List ℕ
mult_pow2 =
    0x08104225 ∷ 0xa5b71959 ∷ 0xf9c080f1 ∷ 0x7c71e2e1 ∷ 0x0bb409c1 ∷ 0x4dc72381 ∷ 0xd17a8701
    ∷ 0x96260e01 ∷ 0x55101c01 ∷ 0x2d303801 ∷ 0x66a07001 ∷ 0xfe40e001 ∷ 0xc081c001 ∷ 0x91038001
    ∷ 0x62070001 ∷ 0xc40e0001 ∷ 0x881c0001 ∷ 0x10380001 ∷ 0x20700001 ∷ 0x40e00001 ∷ 0x81c00001
    ∷ 0x03800001 ∷ 0x07000001 ∷ 0x0e000001 ∷ 0x1c000001 ∷ 0x38000001 ∷ 0x70000001 ∷ 0xe0000001
    ∷ 0xc0000001 ∷ 0x80000001 ∷ 0x00000001 ∷ 0x00000001 ∷ []

-- `while (n) { if (n & 1) ans *= *m; m++; n >>= 1; }` with `m` walking along the table.
unfoldable pub pow_loop : List ℕ → ℕ → ℕ → ℕ
pow_loop [] n ans = ans
pow_loop (m ∷ ms) n ans =
    let rest = pow_loop ms (n / 2) (if n % 2 == 1 then ans * m % u32 else ans) in
    if n == 0 then ans else rest

unfoldable pub rabinkarp_pow : ℕ → ℕ
rabinkarp_pow n = pow_loop mult_pow2 n 1

-- `PAR2X1` to `PAR2X8`
unfoldable pub par2x1 : ℕ → List ℕ → ℕ → ℕ
par2x1 hash buf i = (rk_mult2 * hash + rk_mult * get_or buf i 0 + get_or buf (i + 1) 0) % u32

unfoldable pub par2x2 : ℕ → List ℕ → ℕ → ℕ
par2x2 hash buf i = par2x1 (par2x1 hash buf i) buf (i + 2)

unfoldable pub par2x4 : ℕ → List ℕ → ℕ → ℕ
par2x4 hash buf i = par2x2 (par2x2 hash buf i) buf (i + 4)

unfoldable pub par2x8 : ℕ → List ℕ → ℕ
par2x8 hash buf = par2x4 (par2x4 hash buf 0) buf 8

-- `while (n) { hash = RABINKARP_MULT * hash + *buf++; n--; }`
unfoldable pub hash_bytes : List ℕ → ℕ → ℕ
hash_bytes [] hash = hash
hash_bytes (b ∷ buf) hash = hash_bytes buf ((rk_mult * hash + b) % u32)

-- Both loops. A round of the first takes 16 bytes, so `length buf` rounds are enough.
unfoldable pub hash_loops : ℕ → List ℕ → ℕ → ℕ
hash_loops zero buf hash = hash_bytes buf hash
hash_loops (suc fuel) buf hash =
    let rest = hash_loops fuel (drop 16 buf) (par2x8 hash buf) in
    if leb 16 (length buf) then rest else hash_bytes buf hash

unfoldable pub rabinkarp_init : RabinKarpSum
rabinkarp_init = record { count = 0; hash = rk_seed; mult = 1 }

unfoldable pub rabinkarp_update : List ℕ → RabinKarpSum → RabinKarpSum
rabinkarp_update buf sum =
    let len = length buf in
    record {
      count = (sum.count + len) % u64;
      hash = hash_loops len buf sum.hash;
      mult = sum.mult * rabinkarp_pow (len % u32) % u32;
    }

unfoldable pub rabinkarp_rotate : ℕ → ℕ → RabinKarpSum → RabinKarpSum
rabinkarp_rotate out new sum = record sum {
  hash = sub32 (sum.hash * rk_mult + new) (sum.mult * (out + rk_adj));
}

unfoldable pub rabinkarp_rollin : ℕ → RabinKarpSum → RabinKarpSum
rabinkarp_rollin new sum = record {
  count = (sum.count + 1) % u64;
  hash = (sum.hash * rk_mult + new) % u32;
  mult = sum.mult * rk_mult % u32;
}

unfoldable pub rabinkarp_rollout : ℕ → RabinKarpSum → RabinKarpSum
rabinkarp_rollout out sum =
    let mult = sum.mult * rk_invm % u32 in
    record {
      count = (sum.count + (u64 - 1)) % u64;
      hash = sub32 sum.hash (mult * (out + rk_adj));
      mult = mult;
    }

unfoldable pub rabinkarp_digest : RabinKarpSum → ℕ
rabinkarp_digest sum = sum.hash
