-- ===== src/Checksum/Rolling.antt =====
-- src/checksum.h: which bytes a weak sum of either kind covers, under each operation.
use librsync.Prelude.{ℕ, ◌+◌, ◌*◌, ◌^◌, ◌<◌, ◌≡◌, refl, sym, ap, ◌∙◌, arith, u64}
use librsync.Prelude.{List, [], ◌∷◌, ◌++◌, length, length-append}
use native.Mathlib.Nat.{mul-le-mul}
use librsync.Rollsum.{rollsum_update, rollsum_init}
use librsync.Rollsum.Window.{IsSum, rollsum_init-IsSum, rollsum_update-IsSum, rollsum_rollin-IsSum}
use librsync.Rollsum.Window.{rollsum_rollout-IsSum, rollsum_rotate-IsSum, rollsum_digest-IsSum}
use librsync.RabinKarp.{rabinkarp_digest, rabinkarp_init}
use librsync.RabinKarp.Hash.{IsHash, rabinkarp_init-IsHash, rabinkarp_update-IsHash}
use librsync.RabinKarp.Hash.{
  rabinkarp_rollin-IsHash, rabinkarp_rollout-IsHash, rabinkarp_rotate-IsHash,
}
use librsync.Checksum.{
  WeaksumKind, rs_rollsum, rs_rabinkarp, Weaksum, rs, rk, kind_of, mix32, weaksum_init,
}
use librsync.Checksum.{weaksum_update, weaksum_rotate, weaksum_rollin, weaksum_rollout}
use librsync.Checksum.{weaksum_digest, calc_weak_sum}

-- The bytes that a sum is the sum of.
abbrev pub Covers : List ℕ → Weaksum → Type 0
Covers window (rs sum) = IsSum window sum
Covers window (rk sum) = IsHash window sum

-- The length of a block: an int.
abbrev pub Short : List ℕ → Type 0
Short buf = length buf < 2 ^ 31

short_product : (n : ℕ) → n < 2 ^ 31 → n * (n + 1) < u64
short_product n h = omega (
  arith,
  mul-le-mul {n₁ = n} {m₁ = n + 1} {n₂ = 2 ^ 31} {m₂ = 2 ^ 31} (omega arith) (omega arith),
)

pub weaksum_init-Covers : (k : WeaksumKind) → Covers [] (weaksum_init k)
unfolding weaksum_init
weaksum_init-Covers rs_rollsum = rollsum_init-IsSum
weaksum_init-Covers rs_rabinkarp = rabinkarp_init-IsHash

pub weaksum_update-Covers :
    (window buf : List ℕ) (sum : Weaksum)
    → Short buf
    → Covers window sum
    → Covers (window ++ buf) (weaksum_update buf sum)
unfolding weaksum_update
weaksum_update-Covers window buf (rs sum) h v =
    rollsum_update-IsSum window buf sum v (short_product (length buf) h)
weaksum_update-Covers window buf (rk sum) h v =
    rabinkarp_update-IsHash window buf sum v (omega arith)

pub weaksum_rollin-Covers :
    (window : List ℕ) (new : ℕ) (sum : Weaksum)
    → Covers window sum
    → Covers (window ++ (new ∷ [])) (weaksum_rollin new sum)
unfolding weaksum_rollin
weaksum_rollin-Covers window new (rs sum) v = rollsum_rollin-IsSum window new sum v
weaksum_rollin-Covers window new (rk sum) v = rabinkarp_rollin-IsHash window new sum v

pub weaksum_rollout-Covers :
    (out : ℕ) (window : List ℕ) (sum : Weaksum)
    → Short window
    → Covers (out ∷ window) sum
    → Covers window (weaksum_rollout out sum)
unfolding weaksum_rollout
weaksum_rollout-Covers out window (rs sum) h v =
    rollsum_rollout-IsSum out window sum (omega arith) v
weaksum_rollout-Covers out window (rk sum) h v = rabinkarp_rollout-IsHash out window sum v

pub weaksum_rotate-Covers :
    (out new : ℕ) (window : List ℕ) (sum : Weaksum)
    → Short window
    → Covers (out ∷ window) sum
    → Covers (window ++ (new ∷ [])) (weaksum_rotate out new sum)
unfolding weaksum_rotate
weaksum_rotate-Covers out new window (rs sum) h v =
    rollsum_rotate-IsSum out new window sum (omega arith) v
weaksum_rotate-Covers out new window (rk sum) h v = rabinkarp_rotate-IsHash out new window sum v

-- The digest that a delta looks for: `calc_weak_sum` of the window, mixed where a signature mixes.
unfoldable pub mixed : WeaksumKind → ℕ → ℕ
mixed rs_rollsum n = mix32 n
mixed rs_rabinkarp n = n

-- The digest of a weak sum that covers a window of less than 2^31 bytes is rs_calc_weak_sum of that
-- window, mixed by mix32 for a rollsum only, however the sum was reached.
pub weaksum_digest-calc :
    (window : List ℕ) (sum : Weaksum)
    → Short window
    → Covers window sum
    → weaksum_digest sum ≡ mixed (kind_of sum) (calc_weak_sum (kind_of sum) window)
unfolding weaksum_digest mixed calc_weak_sum kind_of rabinkarp_digest
weaksum_digest-calc window (rs sum) h v = ap mix32 (
    rollsum_digest-IsSum window sum v
    ∙ sym (
        rollsum_digest-IsSum window (rollsum_update window rollsum_init) (
          rollsum_update-IsSum [] window rollsum_init rollsum_init-IsSum
            (short_product (length window) h))))
weaksum_digest-calc window (rk sum) h v =
    v.hash_is
    ∙ sym (
        IsHash.hash_is
          (rabinkarp_update-IsHash [] window rabinkarp_init rabinkarp_init-IsHash (omega arith)))

kind_of-rotate : (out new : ℕ) (sum : Weaksum) → kind_of (weaksum_rotate out new sum) ≡ kind_of sum
unfolding weaksum_rotate kind_of
kind_of-rotate out new (rs sum) = refl
kind_of-rotate out new (rk sum) = refl

-- For either kind of weak sum over a window shorter than 2^31 bytes, rotating a byte out and a byte
-- in gives the digest of rs_calc_weak_sum on the new window, mixed by mix32 for a rollsum.
pub weaksum_digest-rotate :
    (out new : ℕ) (window : List ℕ) (sum : Weaksum)
    → length window + 1 < 2 ^ 31
    → Covers (out ∷ window) sum
    → weaksum_digest (weaksum_rotate out new sum)
      ≡ mixed (kind_of sum) (calc_weak_sum (kind_of sum) (window ++ (new ∷ [])))
weaksum_digest-rotate out new window sum h v =
    weaksum_digest-calc (window ++ (new ∷ [])) (weaksum_rotate out new sum)
      (omega (arith, length-append window (new ∷ [])))
      (weaksum_rotate-Covers out new window sum (omega arith) v)
    ∙ ap (λ k. mixed k (calc_weak_sum k (window ++ (new ∷ [])))) (kind_of-rotate out new sum)
