-- ===== src/Util.antt =====
-- src/util.c: the integer logarithm and square root.
pub mod Root
use librsync.Prelude.{
  ℕ, zero, suc, ◌*◌, ◌/◌, ◌^◌, ◌%◌, u64, is_neg64, bit_or, bit_xor, ltb, ◌==◌, if◌then◌else◌,
}

-- `for (n = 0; (v >>= 1); n++)`. A value that is not negative has 63 bits, so 64 rounds are enough.
unfoldable pub ln2_loop : ℕ → ℕ → ℕ → ℕ
ln2_loop zero v n = n
ln2_loop (suc fuel) v n = let rest = ln2_loop fuel (v / 2) (suc n) in if v / 2 == 0 then n else rest

unfoldable pub long_ln2 : ℕ → ℕ
long_ln2 v = ln2_loop 64 v 0

-- `for (b = 1, n = v; (n >>= 2); b <<= 1)`: the exponent of `b`, which is always a power of 2.
unfoldable pub root_bits : ℕ → ℕ → ℕ → ℕ
root_bits zero n k = k
root_bits (suc fuel) n k =
    let rest = root_bits fuel (n / 4) (suc k) in if n / 4 == 0 then k else rest

-- The walk down the bits of the root; `k` bits are left, so that `b` is 2 ^ (k - 1). The square is
-- meant for values whose root has no more than 31 bits: there it does not overflow.
unfoldable pub root_walk : ℕ → ℕ → ℕ → ℕ
root_walk zero v n = n
root_walk (suc k) v n =
    let tried = bit_or n (2 ^ k) in
    root_walk k v (if ltb v (tried * tried) then bit_xor tried (2 ^ k) else tried)

unfoldable pub long_sqrt : ℕ → ℕ
long_sqrt v = root_walk (suc (root_bits 32 v 0)) v 0
