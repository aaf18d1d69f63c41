-- ===== src/Util/Root.antt =====
-- src/util.c: `rs_long_sqrt`.
use librsync.Prelude.{
  ℕ, zero, suc, ◌+◌, ◌*◌, ◌/◌, ◌^◌, ◌≤◌, ◌<◌, ◌≡◌, refl, sym, ap, subst, ◌∙◌, arith, bit_or,
  bit_xor,
}
use librsync.Prelude.{ltb, ◌==◌, Bool-cases, inl, inr, tests}
use librsync.Prelude.Bits.{bit_or-shift, bit_xor-clear}
use librsync.Util.{root_bits, root_walk, long_sqrt}
use native.Mathlib.Nat.{pow-suc, pow-zero, one-le-pow, mul-le-mul_right}

-- The square root, rounded down.
abbrev pub IsRoot : ℕ → ℕ → Type 0
IsRoot v n = (n * n ≤ v) × (v < (n + 1) * (n + 1))

tried_bit : (k m : ℕ) → bit_or (m * 2 ^ suc k) (2 ^ k) ≡ m * 2 ^ suc k + 2 ^ k
tried_bit k m = bit_or-shift (suc k) m (2 ^ k) (omega (arith, pow-suc 2 k, one-le-pow k 2))

root_walk-IsRoot :
    (k v m n : ℕ)
    → n ≡ m * 2 ^ k
    → n * n ≤ v
    → v < (n + 2 ^ k) * (n + 2 ^ k)
    → IsRoot v (root_walk k v n)
unfolding root_walk
root_walk-IsRoot zero v m n e low high = (low, rw (sym (pow-zero 2)) high)
root_walk-IsRoot (suc k) v m n e low high =
    rw tried (elim (Bool-cases (ltb v ((n + 2 ^ k) * (n + 2 ^ k)))) [
      | inl over ↦
          rw (over, cleared) (root_walk-IsRoot k v (2 * m) n (omega (arith, e')) low (omega tests))
      | inr under ↦ rw under (
          root_walk-IsRoot k v (2 * m + 1) (n + 2 ^ k) (omega (arith, e')) (omega tests)
            (subst (λ t. v < t * t) whole high))
    ])
  where
    half : 2 ^ suc k ≡ 2 ^ k * 2
    half = pow-suc 2 k

    e' : n ≡ m * (2 ^ k * 2)
    e' = e ∙ ap (λ t. m * t) half

    tried : bit_or n (2 ^ k) ≡ n + 2 ^ k
    tried = rw e (tried_bit k m)

    cleared : bit_xor (n + 2 ^ k) (2 ^ k) ≡ n
    cleared = rw e (bit_xor-clear k m)

    whole : n + 2 ^ suc k ≡ n + 2 ^ k + 2 ^ k
    whole = omega (arith, half)

root_bits_bound :
    (fuel n k v : ℕ) → v < (n + 1) * 4 ^ k → n < 4 ^ fuel → v < 4 ^ suc (root_bits fuel n k)
unfolding root_bits
root_bits_bound zero n k v h small =
    subst (λ t. v < t) (sym (pow-suc 4 k))
      (omega (arith, h, mul-le-mul_right {m = n + 1} {n = 4} (4 ^ k) one))
  where
    one : n + 1 ≤ 4
    one = omega (arith, small, pow-zero 4)
root_bits_bound (suc fuel) n k v h small = elim (Bool-cases (n / 4 == 0)) [
  | inl last ↦ rw last (
      subst (λ t. v < t) (sym (pow-suc 4 k))
        (omega (arith, h, mul-le-mul_right {m = n + 1} {n = 4} (4 ^ k) (omega tests))))
  | inr more ↦ rw more (
      root_bits_bound fuel (n / 4) (suc k) v
        (subst (λ t. v < (n / 4 + 1) * t) (sym (pow-suc 4 k))
          (omega
            (arith, h, mul-le-mul_right {m = n + 1} {n = (n / 4 + 1) * 4} (4 ^ k) (omega arith))))
        (omega (arith, small, pow-suc 4 fuel)))
]

four_pow : (k : ℕ) → 4 ^ k ≡ 2 ^ k * 2 ^ k
four_pow zero = refl
four_pow (suc k) = rw (pow-suc 4 k, pow-suc 2 k, four_pow k) (omega arith)

-- rs_long_sqrt of a value below 2^62 is its square root, rounded down.
pub long_sqrt-IsRoot : (v : ℕ) → v < 2 ^ 62 → IsRoot v (long_sqrt v)
unfolding long_sqrt
long_sqrt-IsRoot v h =
    root_walk-IsRoot (suc r) v 0 0 (omega arith) (omega arith)
      (subst (λ t. v < t) (four_pow (suc r) ∙ square) bound)
  where
    r : ℕ
    r = root_bits 32 v 0

    square : 2 ^ suc r * 2 ^ suc r ≡ (0 + 2 ^ suc r) * (0 + 2 ^ suc r)
    square = omega arith

    bound : v < 4 ^ suc r
    bound = root_bits_bound 32 v 0 v (omega (arith, pow-zero 4)) (omega arith)
