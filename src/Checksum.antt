-- ===== src/Checksum.antt =====
-- src/checksum.h and src/checksum.c: one interface to both weak sums, and `mix32` of
-- src/hashtable.h.
pub mod Rolling
pub mod Count
pub mod Width
use librsync.Prelude.{ℕ, ◌+◌, ◌*◌, ◌/◌, ◌%◌, ◌^◌, u32, bit_xor, List, []}
use librsync.Rollsum.{
  Rollsum, rollsum_init, rollsum_update, rollsum_rotate, rollsum_rollin, rollsum_rollout,
}
use librsync.Rollsum.{rollsum_digest}
use librsync.RabinKarp.{
  RabinKarpSum, rabinkarp_init, rabinkarp_update, rabinkarp_rotate, rabinkarp_rollin,
}
use librsync.RabinKarp.{rabinkarp_rollout, rabinkarp_digest}
use librsync.Mdfour.{mdfour}

-- `weaksum_kind_t`
pub data WeaksumKind : Type 0 where
  rs_rollsum rs_rabinkarp : WeaksumKind

-- `weaksum_t`: the kind and the union as one sum type.
pub data Weaksum : Type 0 where
  rs : Rollsum → Weaksum
  rk : RabinKarpSum → Weaksum

unfoldable pub kind_of : Weaksum → WeaksumKind
kind_of (rs sum) = rs_rollsum
kind_of (rk sum) = rs_rabinkarp

-- `h ^ (h >> k)` of 32 bits
abbrev pub xor_shift : ℕ → ℕ → ℕ
xor_shift k h = bit_xor h (h / 2 ^ k)

unfoldable pub mix32 : ℕ → ℕ
mix32 h =
    let h1 = xor_shift 16 h in
    let h2 = h1 * 0x85ebca6b % u32 in
    let h3 = xor_shift 13 h2 in let h4 = h3 * 0xc2b2ae35 % u32 in xor_shift 16 h4

-- `weaksum_init`, which is `weaksum_reset` of a kind.
unfoldable pub weaksum_init : WeaksumKind → Weaksum
weaksum_init rs_rollsum = rs rollsum_init
weaksum_init rs_rabinkarp = rk rabinkarp_init

unfoldable pub weaksum_reset : Weaksum → Weaksum
weaksum_reset sum = weaksum_init (kind_of sum)

unfoldable pub weaksum_count : Weaksum → ℕ
weaksum_count (rs sum) = sum.count
weaksum_count (rk sum) = sum.count

unfoldable pub weaksum_update : List ℕ → Weaksum → Weaksum
weaksum_update buf (rs sum) = rs (rollsum_update buf sum)
weaksum_update buf (rk sum) = rk (rabinkarp_update buf sum)

unfoldable pub weaksum_rotate : ℕ → ℕ → Weaksum → Weaksum
weaksum_rotate out new (rs sum) = rs (rollsum_rotate out new sum)
weaksum_rotate out new (rk sum) = rk (rabinkarp_rotate out new sum)

unfoldable pub weaksum_rollin : ℕ → Weaksum → Weaksum
weaksum_rollin new (rs sum) = rs (rollsum_rollin new sum)
weaksum_rollin new (rk sum) = rk (rabinkarp_rollin new sum)

unfoldable pub weaksum_rollout : ℕ → Weaksum → Weaksum
weaksum_rollout out (rs sum) = rs (rollsum_rollout out sum)
weaksum_rollout out (rk sum) = rk (rabinkarp_rollout out sum)

-- A rollsum's digest goes through `mix32`.
unfoldable pub weaksum_digest : Weaksum → ℕ
weaksum_digest (rs sum) = mix32 (rollsum_digest sum)
weaksum_digest (rk sum) = rabinkarp_digest sum

-- `rs_calc_weak_sum`, without `mix32`: what a signature file holds.
unfoldable pub calc_weak_sum : WeaksumKind → List ℕ → ℕ
calc_weak_sum rs_rollsum buf = rollsum_digest (rollsum_update buf rollsum_init)
calc_weak_sum rs_rabinkarp buf = rabinkarp_digest (rabinkarp_update buf rabinkarp_init)

-- `strongsum_kind_t`
pub data StrongsumKind : Type 0 where
  rs_md4 rs_blake2 : StrongsumKind

-- `rs_calc_strong_sum`, where `blake2` is blake2b with a digest of 32 bytes.
unfoldable pub calc_strong_sum : (List ℕ → List ℕ) → StrongsumKind → List ℕ → List ℕ
calc_strong_sum blake2 rs_md4 buf = mdfour buf
calc_strong_sum blake2 rs_blake2 buf = blake2 buf
