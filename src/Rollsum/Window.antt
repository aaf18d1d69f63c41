-- ===== src/Rollsum/Window.antt =====
-- src/rollsum.h: which bytes a sum is the sum of, under each operation.
use librsync.Prelude.{ℕ, suc, ◌+◌, ◌*◌, ◌/◌, ◌%◌, ◌^◌, ◌<◌, ◌≡◌, refl, sym, ap, ◌∙◌, arith, u64}
use librsync.Prelude.{List, [], ◌∷◌, ◌++◌, length, length-append, bit_or}
use librsync.Rollsum.{
  Rollsum, char_offset, rollsum_init, rollsum_update, rollsum_rotate, rollsum_rollin,
}
use librsync.Rollsum.{rollsum_rollout, rollsum_digest, update_bytes}
use librsync.Rollsum.Sums.{sum1, sum2, update_bytes-sums, sum1-append, sum2-append}
use librsync.Prelude.Bits.{bit_or-shift}
use librsync.Rollsum.Unrolled.{update_loops-bytes}

pub record IsSum (window : List ℕ) (sum : Rollsum) : Type 0 where
  pub count_is : sum.count ≡ length window % u64
  pub s1_is : sum.s1 ≡ sum1 window % u64
  pub s2_is : sum.s2 ≡ sum2 window % u64

pub rollsum_init-IsSum : IsSum [] rollsum_init
unfolding rollsum_init
rollsum_init-IsSum = record { count_is = refl; s1_is = refl; s2_is = refl }

-- RollsumUpdate with a buffer of n bytes, where n (n + 1) < 2^64, turns the sum of a window into
-- the sum of the window with the buffer behind it.
pub rollsum_update-IsSum :
    (window buf : List ℕ) (sum : Rollsum)
    → IsSum window sum
    → length buf * (length buf + 1) < u64
    → IsSum (window ++ buf) (rollsum_update buf sum)
unfolding rollsum_update
rollsum_update-IsSum window buf sum v h =
    rw (update_loops-bytes (length buf) buf (sum.s1, sum.s2), v.s1_is, v.s2_is)
      (record {
        count_is = omega (arith, v.count_is, length-append window buf);
        s1_is = u.0 ∙ ap (λ n. n % u64) (sym (sum1-append window buf));
        s2_is = u.1 ∙ ap (λ n. n % u64) (sym (sum2-append window buf));
      })
  where
    u :
        let (s1, s2) = update_bytes buf (sum1 window % u64, sum2 window % u64) in
        ((s1 + length buf * char_offset) % u64 ≡ (sum1 window + sum1 buf) % u64)
        × ((s2 + (length buf * (length buf + 1) % u64 / 2) * char_offset) % u64
            ≡ (sum2 window + (length buf * sum1 window + sum2 buf)) % u64)
    u = update_bytes-sums buf (sum1 window) (sum2 window) h

-- `RollsumRollin` adds a byte at the end.
pub rollsum_rollin-IsSum :
    (window : List ℕ) (new : ℕ) (sum : Rollsum)
    → IsSum window sum
    → IsSum (window ++ (new ∷ [])) (rollsum_rollin new sum)
unfolding rollsum_rollin
rollsum_rollin-IsSum window new sum v = record {
  count_is = omega (arith, v.count_is, length-append window (new ∷ []));
  s1_is = omega (arith, v.s1_is, sum1-append window (new ∷ []));
  s2_is = omega (arith, v.s1_is, v.s2_is, sum2-append window (new ∷ []));
}

-- RollsumRollout turns the sum of a window of less than 2^64 bytes into the sum of the window
-- without its first byte.
pub rollsum_rollout-IsSum :
    (out : ℕ) (window : List ℕ) (sum : Rollsum)
    → length window + 1 < u64
    → IsSum (out ∷ window) sum
    → IsSum window (rollsum_rollout out sum)
unfolding rollsum_rollout
rollsum_rollout-IsSum out window sum h v = record {
  count_is = omega (arith, v.count_is);
  s1_is = omega (arith, v.s1_is);
  s2_is = rw whole (omega (arith, v.s2_is));
}
  where
    whole : sum.count ≡ suc (length window)
    whole = omega (arith, v.count_is)

-- RollsumRotate turns the sum of a window of less than 2^64 bytes into the sum of the window
-- without its first byte and with the new byte at the end.
pub rollsum_rotate-IsSum :
    (out new : ℕ) (window : List ℕ) (sum : Rollsum)
    → length window + 1 < u64
    → IsSum (out ∷ window) sum
    → IsSum (window ++ (new ∷ [])) (rollsum_rotate out new sum)
unfolding rollsum_rotate
rollsum_rotate-IsSum out new window sum h v = record {
  count_is = omega (arith, v.count_is, length-append window (new ∷ []));
  s1_is = omega (arith, v.s1_is, sum1-append window (new ∷ []));
  s2_is = rw whole (
      omega
        (arith, v.s1_is, v.s2_is, sum1-append window (new ∷ []), sum2-append window (new ∷ [])));
}
  where
    whole : sum.count ≡ suc (length window)
    whole = omega (arith, v.count_is)

-- `RollsumDigest` packs the low halves of the two sums of the window.
pub rollsum_digest-IsSum :
    (window : List ℕ) (sum : Rollsum)
    → IsSum window sum
    → rollsum_digest sum ≡ sum2 window % 2 ^ 16 * 2 ^ 16 + sum1 window % 2 ^ 16
unfolding rollsum_digest
rollsum_digest-IsSum window sum v =
    ap (λ n. bit_or n (sum.s1 % 2 ^ 16)) high
    ∙ bit_or-shift 16 (sum2 window % 2 ^ 16) (sum.s1 % 2 ^ 16) (omega arith)
    ∙ omega (arith, v.s1_is)
  where
    high : sum.s2 * 2 ^ 16 % 2 ^ 32 ≡ sum2 window % 2 ^ 16 * 2 ^ 16
    high = omega (arith, v.s2_is)
