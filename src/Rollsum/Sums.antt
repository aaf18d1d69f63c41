-- ===== src/Rollsum/Sums.antt =====
-- src/rollsum.c: the two sums in closed form, and the byte loop.
use librsync.Prelude.{ℕ, zero, suc, ◌+◌, ◌*◌, ◌/◌, ◌%◌, ◌<◌, ◌≡◌, ◌∙◌, arith, u64}
use librsync.Prelude.{List, [], ◌∷◌, ◌++◌, length, length-append}
use mathlib.Core.Path.{ap₂}
use librsync.Rollsum.{char_offset, update_bytes}

-- The sum of the bytes, each with the offset.
abbrev pub sum1 : List ℕ → ℕ
sum1 [] = 0
sum1 (b ∷ bs) = (b + char_offset) + sum1 bs

-- The sum of all sums of the front parts: the first byte counts xs often xs there are bytes.
abbrev pub sum2 : List ℕ → ℕ
sum2 [] = 0
sum2 (b ∷ bs) = suc (length bs) * (b + char_offset) + sum2 bs

abbrev raw1 : List ℕ → ℕ
raw1 [] = 0
raw1 (b ∷ bs) = b + raw1 bs

abbrev raw2 : List ℕ → ℕ
raw2 [] = 0
raw2 (b ∷ bs) = suc (length bs) * b + raw2 bs

update_bytes-raw :
    (bs : List ℕ) (x y : ℕ)
    → update_bytes bs (x % u64, y % u64)
      ≡ ((x + raw1 bs) % u64, (y + (length bs * x + raw2 bs)) % u64)
unfolding update_bytes
update_bytes-raw [] x y = ap₂ (λ a b. (a, b)) (omega arith) (omega arith)
update_bytes-raw (b ∷ bs) x y =
    ap₂ (λ p q. update_bytes bs (p, q)) step1 step2
    ∙ update_bytes-raw bs (x + b) (y + (x + b))
    ∙ ap₂ (λ p q. (p % u64, q % u64)) (omega arith) (omega arith)
  where
    step1 : (x % u64 + b) % u64 ≡ (x + b) % u64
    step1 = omega arith

    step2 : (y % u64 + (x % u64 + b) % u64) % u64 ≡ (y + (x + b)) % u64
    step2 = omega arith

raw1-sum1 : (bs : List ℕ) → raw1 bs + length bs * char_offset ≡ sum1 bs
raw1-sum1 [] = omega arith
raw1-sum1 (b ∷ bs) = omega (arith, raw1-sum1 bs)

-- The triangular number of `len * (len + 1) / 2`.
abbrev triangle : ℕ → ℕ
triangle zero = 0
triangle (suc n) = suc n + triangle n

triangle_lem : (n : ℕ) → 2 * triangle n ≡ n * (n + 1)
triangle_lem zero = omega arith
triangle_lem (suc n) = omega (arith, triangle_lem n)

raw2-sum2 : (bs : List ℕ) → raw2 bs + triangle (length bs) * char_offset ≡ sum2 bs
raw2-sum2 [] = omega arith
raw2-sum2 (b ∷ bs) = omega (arith, raw2-sum2 bs)

half_product : (n : ℕ) → n * (n + 1) < u64 → n * (n + 1) % u64 / 2 ≡ triangle n
half_product n h = omega (arith, triangle_lem n)

-- The loop and the offsets added after it, behind sums `x` and `y` that were there before.
pub update_bytes-sums :
    (bs : List ℕ) (x y : ℕ)
    → length bs * (length bs + 1) < u64
    → let (s1, s2) = update_bytes bs (x % u64, y % u64) in
      ((s1 + length bs * char_offset) % u64 ≡ (x + sum1 bs) % u64)
      × ((s2 + (length bs * (length bs + 1) % u64 / 2) * char_offset) % u64
          ≡ (y + (length bs * x + sum2 bs)) % u64)
update_bytes-sums bs x y h =
    rw (update_bytes-raw bs x y, half_product (length bs) h)
      (omega (arith, raw1-sum1 bs), omega (arith, raw2-sum2 bs))

pub sum1-append : (xs bs : List ℕ) → sum1 (xs ++ bs) ≡ sum1 xs + sum1 bs
sum1-append [] bs = omega arith
sum1-append (x ∷ xs) bs = omega (arith, sum1-append xs bs)

pub sum2-append : (xs bs : List ℕ) → sum2 (xs ++ bs) ≡ sum2 xs + (length bs * sum1 xs + sum2 bs)
sum2-append [] bs = omega arith
sum2-append (x ∷ xs) bs = rw (length-append xs bs) (omega (arith, sum2-append xs bs))
