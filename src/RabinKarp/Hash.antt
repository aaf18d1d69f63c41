-- ===== src/RabinKarp/Hash.antt =====
-- src/rabinkarp.h: which bytes a hash is the hash of, under each operation.
use librsync.Prelude.{ℕ, suc, ◌+◌, ◌*◌, ◌%◌, ◌^◌, ◌<◌, ◌≡◌, refl, sym, ap, ◌∙◌, arith, u32, u64}
use librsync.Prelude.{List, [], ◌∷◌, ◌++◌, length, length-append}
use librsync.Prelude.Modular.{mod_mul, mod_mul_right, pow_add}
use librsync.RabinKarp.{RabinKarpSum, rk_seed, rk_mult, rk_invm, rk_adj, hash_bytes, rabinkarp_init}
use librsync.RabinKarp.{rabinkarp_update, rabinkarp_rotate, rabinkarp_rollin, rabinkarp_rollout}
use librsync.RabinKarp.Power.{rabinkarp_pow_lem}
use librsync.RabinKarp.Blocks.{hash_loops-bytes}
use native.Mathlib.Nat.{pow-suc, mod-eq_of_lt}

-- The bytes as digits of a number in base `RABINKARP_MULT`.
abbrev pub digits : List ℕ → ℕ
digits [] = 0
digits (b ∷ bs) = b * rk_mult ^ length bs + digits bs

-- The hash of a window: the seed is a digit in front of it.
abbrev pub hash_of : List ℕ → ℕ
hash_of window = rk_seed * rk_mult ^ length window + digits window

pub record IsHash (window : List ℕ) (sum : RabinKarpSum) : Type 0 where
  pub count_is : sum.count ≡ length window % u64
  pub hash_is : sum.hash ≡ hash_of window % u32
  pub mult_is : sum.mult ≡ rk_mult ^ length window % u32

hash_bytes-digits :
    (bs : List ℕ) (h : ℕ) → hash_bytes bs (h % u32) ≡ (h * rk_mult ^ length bs + digits bs) % u32
unfolding hash_bytes
hash_bytes-digits [] h = ap (λ t. t % u32) nothing
  where
    nothing : h ≡ h * 1 + 0
    nothing = omega arith
hash_bytes-digits (b ∷ bs) h =
    ap (hash_bytes bs) step
    ∙ hash_bytes-digits bs (rk_mult * h + b)
    ∙ ap (λ t. t % u32) (rw (pow-suc rk_mult (length bs)) (omega arith))
  where
    step : (rk_mult * (h % u32) + b) % u32 ≡ (rk_mult * h + b) % u32
    step = omega arith

digits-append : (xs ys : List ℕ) → digits (xs ++ ys) ≡ digits xs * rk_mult ^ length ys + digits ys
digits-append [] ys = omega arith
digits-append (x ∷ xs) ys =
    rw (length-append xs ys, pow_add rk_mult (length xs) (length ys))
      (omega (arith, digits-append xs ys))

hash_of-append :
    (xs ys : List ℕ) → hash_of (xs ++ ys) ≡ hash_of xs * rk_mult ^ length ys + digits ys
hash_of-append xs ys =
    rw (length-append xs ys, pow_add rk_mult (length xs) (length ys))
      (omega (arith, digits-append xs ys))

pub rabinkarp_init-IsHash : IsHash [] rabinkarp_init
unfolding rabinkarp_init
rabinkarp_init-IsHash = record { count_is = refl; hash_is = refl; mult_is = refl }

-- rabinkarp_update with a buffer of less than 2^32 bytes turns the hash, the count and the power of
-- a window into those of the window with the buffer behind it.
pub rabinkarp_update-IsHash :
    (window buf : List ℕ) (sum : RabinKarpSum)
    → IsHash window sum
    → length buf < u32
    → IsHash (window ++ buf) (rabinkarp_update buf sum)
unfolding rabinkarp_update
rabinkarp_update-IsHash window buf sum v h = record {
  count_is = omega (arith, v.count_is, length-append window buf);
  hash_is =
      hash_loops-bytes (length buf) buf sum.hash
      ∙ ap (hash_bytes buf) v.hash_is
      ∙ hash_bytes-digits buf (hash_of window)
      ∙ ap (λ t. t % u32) (sym (hash_of-append window buf));
  mult_is =
      rw (mod-eq_of_lt h, rabinkarp_pow_lem (length buf) h, v.mult_is, length-append window buf)
        (mod_mul u32 (rk_mult ^ length window) (rk_mult ^ length buf % u32)
          ∙ mod_mul_right u32 (rk_mult ^ length window) (rk_mult ^ length buf)
          ∙ ap (λ t. t % u32) (sym (pow_add rk_mult (length window) (length buf))));
}

pow-snoc :
    (window : List ℕ) (new : ℕ)
    → rk_mult ^ length (window ++ (new ∷ [])) ≡ rk_mult ^ length window * rk_mult
pow-snoc window new = ap (λ k. rk_mult ^ k) one_more ∙ pow-suc rk_mult (length window)
  where
    one_more : length (window ++ (new ∷ [])) ≡ suc (length window)
    one_more = omega (arith, length-append window (new ∷ []))

hash_of-snoc :
    (window : List ℕ) (new : ℕ) → hash_of (window ++ (new ∷ [])) ≡ hash_of window * rk_mult + new
hash_of-snoc window new = hash_of-append window (new ∷ []) ∙ omega arith

-- `rabinkarp_rollin` adds a byte at the end.
pub rabinkarp_rollin-IsHash :
    (window : List ℕ) (new : ℕ) (sum : RabinKarpSum)
    → IsHash window sum
    → IsHash (window ++ (new ∷ [])) (rabinkarp_rollin new sum)
unfolding rabinkarp_rollin
rabinkarp_rollin-IsHash window new sum v = record {
  count_is = omega (arith, v.count_is, length-append window (new ∷ []));
  hash_is = rw (hash_of-snoc window new, v.hash_is) (omega arith);
  mult_is = rw (pow-snoc window new, v.mult_is) (omega arith);
}

-- What the byte in front contributes.
front_byte :
    (window : List ℕ) (out : ℕ)
    → hash_of (out ∷ window) ≡ rk_mult ^ length window * (out + rk_mult) + digits window
front_byte window out = rw (pow-suc rk_mult (length window)) (omega arith)

-- rabinkarp_rotate turns the hash of a window into the hash of the window without its first byte
-- and with the new byte at the end.
pub rabinkarp_rotate-IsHash :
    (out new : ℕ) (window : List ℕ) (sum : RabinKarpSum)
    → IsHash (out ∷ window) sum
    → IsHash (window ++ (new ∷ [])) (rabinkarp_rotate out new sum)
unfolding rabinkarp_rotate
rabinkarp_rotate-IsHash out new window sum v = record {
  count_is = omega (arith, v.count_is, length-append window (new ∷ []));
  hash_is = rw (away, hash_of-snoc window new) (omega (arith, v.hash_is, front_byte window out));
  mult_is =
      v.mult_is ∙ ap (λ t. t % u32) (pow-suc rk_mult (length window) ∙ sym (pow-snoc window new));
}
  where
    away :
        sum.mult * (out + rk_adj) % u32 ≡ rk_mult ^ length window * rk_mult * (out + rk_adj) % u32
    away =
        ap (λ t. t * (out + rk_adj) % u32)
          (v.mult_is ∙ ap (λ t. t % u32) (pow-suc rk_mult (length window)))
        ∙ mod_mul u32 (rk_mult ^ length window * rk_mult) (out + rk_adj)

-- rabinkarp_rollout turns the hash of a window into the hash of the window without its first byte:
-- RABINKARP_INVM undoes a multiplication by RABINKARP_MULT.
pub rabinkarp_rollout-IsHash :
    (out : ℕ) (window : List ℕ) (sum : RabinKarpSum)
    → IsHash (out ∷ window) sum
    → IsHash window (rabinkarp_rollout out sum)
unfolding rabinkarp_rollout
rabinkarp_rollout-IsHash out window sum v = record {
  count_is = omega (arith, v.count_is);
  hash_is = rw (away) (omega (arith, v.hash_is, front_byte window out));
  mult_is = divided;
}
  where
    divided : sum.mult * rk_invm % u32 ≡ rk_mult ^ length window % u32
    divided = omega (arith, v.mult_is, pow-suc rk_mult (length window))

    away :
        (sum.mult * rk_invm % u32) * (out + rk_adj) % u32
        ≡ rk_mult ^ length window * (out + rk_adj) % u32
    away =
        ap (λ t. t * (out + rk_adj) % u32) divided
        ∙ mod_mul u32 (rk_mult ^ length window) (out + rk_adj)
