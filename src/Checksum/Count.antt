-- ===== src/Checksum/Count.antt =====
-- src/checksum.h: how many bytes a weak sum has rolled over, after each of its operations.
use librsync.Prelude.{ℕ, ◌+◌, ◌-◌, ◌%◌, ◌<◌, ◌≡◌, refl, arith, u64, List, length}
use librsync.Checksum.{
  Weaksum, rs, rk, weaksum_count, weaksum_update, weaksum_rotate, weaksum_rollout, weaksum_reset,
  weaksum_init, kind_of,
}
use librsync.Rollsum.{rollsum_update, rollsum_rotate, rollsum_rollout, rollsum_init}
use librsync.RabinKarp.{rabinkarp_update, rabinkarp_rotate, rabinkarp_rollout, rabinkarp_init}

pub weaksum_count-update :
    (buf : List ℕ) (sum : Weaksum)
    → weaksum_count (weaksum_update buf sum) ≡ (weaksum_count sum + length buf) % u64
unfolding weaksum_count weaksum_update rollsum_update rabinkarp_update
weaksum_count-update buf (rs sum) = refl
weaksum_count-update buf (rk sum) = refl

pub weaksum_count-rotate :
    (out new : ℕ) (sum : Weaksum) → weaksum_count (weaksum_rotate out new sum) ≡ weaksum_count sum
unfolding weaksum_count weaksum_rotate rollsum_rotate rabinkarp_rotate
weaksum_count-rotate out new (rs sum) = refl
weaksum_count-rotate out new (rk sum) = refl

pub weaksum_count-rollout :
    (out c : ℕ) (sum : Weaksum)
    → weaksum_count sum ≡ c
    → 0 < c
    → c < u64
    → weaksum_count (weaksum_rollout out sum) ≡ c - 1
unfolding weaksum_count weaksum_rollout rollsum_rollout rabinkarp_rollout
weaksum_count-rollout out c (rs sum) is some_bytes small = omega arith
weaksum_count-rollout out c (rk sum) is some_bytes small = omega arith

pub weaksum_count-reset : (sum : Weaksum) → weaksum_count (weaksum_reset sum) ≡ 0
unfolding weaksum_count weaksum_reset weaksum_init kind_of rollsum_init rabinkarp_init
weaksum_count-reset (rs sum) = refl
weaksum_count-reset (rk sum) = refl
