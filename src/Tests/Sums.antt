-- ===== src/Tests/Sums.antt =====
-- Weak sums of small windows.
use librsync.Prelude.{ℕ, ◌≡◌, ◌%◌, ◌^◌, arith, List, [], ◌∷◌, ◌++◌, u32}
use librsync.Rollsum.{Rollsum, rollsum_init, rollsum_update}
use librsync.Rollsum.Window.{IsSum, rollsum_init-IsSum, rollsum_update-IsSum}
use librsync.RabinKarp.{
  RabinKarpSum, rabinkarp_init, rabinkarp_update, rabinkarp_rotate, rabinkarp_pow,
}
use librsync.RabinKarp.{rk_mult}
use librsync.RabinKarp.Hash.{
  IsHash, rabinkarp_init-IsHash, rabinkarp_update-IsHash, rabinkarp_rotate-IsHash,
}
use librsync.RabinKarp.Power.{rabinkarp_pow_lem}
use librsync.Checksum.{
  Weaksum, rs_rollsum, weaksum_init, weaksum_update, weaksum_rotate, weaksum_digest,
}
use librsync.Checksum.{kind_of, calc_weak_sum}
use librsync.Checksum.Rolling.{Covers, weaksum_init-Covers, weaksum_update-Covers, mixed}
use librsync.Checksum.Rolling.{weaksum_digest-calc, weaksum_digest-rotate}

-- More than 16 bytes, so that both loops take part.
abbrev window : List ℕ
window = 1 ∷ 2 ∷ 3 ∷ 4 ∷ 5 ∷ 6 ∷ 7 ∷ 8 ∷ 9 ∷ 10 ∷ 11 ∷ 12 ∷ 13 ∷ 14 ∷ 15 ∷ 16 ∷ 17 ∷ []

abbrev old_sum : Rollsum
old_sum = rollsum_update (0 ∷ window) rollsum_init

old_sum-IsSum : IsSum (0 ∷ window) old_sum
old_sum-IsSum = rollsum_update-IsSum [] (0 ∷ window) rollsum_init rollsum_init-IsSum (omega arith)

rollsum_update-IsSum_example : IsSum ((0 ∷ window) ++ (5 ∷ [])) (rollsum_update (5 ∷ []) old_sum)
rollsum_update-IsSum_example =
    rollsum_update-IsSum (0 ∷ window) (5 ∷ []) old_sum old_sum-IsSum (omega arith)

abbrev old_hash : RabinKarpSum
old_hash = rabinkarp_update (0 ∷ window) rabinkarp_init

old_hash-IsHash : IsHash (0 ∷ window) old_hash
old_hash-IsHash =
    rabinkarp_update-IsHash [] (0 ∷ window) rabinkarp_init rabinkarp_init-IsHash (omega arith)

rabinkarp_update-IsHash_example :
    IsHash ((0 ∷ window) ++ (5 ∷ [])) (rabinkarp_update (5 ∷ []) old_hash)
rabinkarp_update-IsHash_example =
    rabinkarp_update-IsHash (0 ∷ window) (5 ∷ []) old_hash old_hash-IsHash (omega arith)

rabinkarp_rotate-IsHash_example : IsHash (window ++ (18 ∷ [])) (rabinkarp_rotate 0 18 old_hash)
rabinkarp_rotate-IsHash_example = rabinkarp_rotate-IsHash 0 18 window old_hash old_hash-IsHash

rabinkarp_pow_lem_example : rabinkarp_pow 18 ≡ rk_mult ^ 18 % u32
rabinkarp_pow_lem_example = rabinkarp_pow_lem 18 (omega arith)

abbrev rolling : Weaksum
rolling = weaksum_update (0 ∷ window) (weaksum_init rs_rollsum)

rolling-Covers : Covers (0 ∷ window) rolling
rolling-Covers =
    weaksum_update-Covers [] (0 ∷ window) (weaksum_init rs_rollsum) (omega arith)
      (weaksum_init-Covers rs_rollsum)

weaksum_digest-calc_example :
    weaksum_digest rolling ≡ mixed (kind_of rolling) (calc_weak_sum (kind_of rolling) (0 ∷ window))
weaksum_digest-calc_example = weaksum_digest-calc (0 ∷ window) rolling (omega arith) rolling-Covers

weaksum_digest-rotate_example :
    weaksum_digest (weaksum_rotate 0 18 rolling)
    ≡ mixed (kind_of rolling) (calc_weak_sum (kind_of rolling) (window ++ (18 ∷ [])))
weaksum_digest-rotate_example =
    weaksum_digest-rotate 0 18 window rolling (omega arith) rolling-Covers
