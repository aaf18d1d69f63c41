-- ===== src/RabinKarp/Power.antt =====
-- src/rabinkarp.c: the table of powers and the loop over it.
use librsync.Prelude.{
  ℕ, zero, suc, ◌+◌, ◌*◌, ◌/◌, ◌%◌, ◌^◌, ◌<◌, ◌≡◌, refl, sym, ap, ◌∙◌, arith, u32,
}
use librsync.Prelude.{List, [], ◌∷◌, length, ◌==◌, Bool-cases, inl, inr, tests, ==→eq}
use librsync.Prelude.Modular.{mod_mul, mod_mul_right, pow_add}
use librsync.RabinKarp.{pow_loop, rabinkarp_pow, mult_pow2, rk_mult}
use native.Mathlib.Nat.{pow-suc, pow-zero}

-- Each entry is the square of the one before it; the first stands for the base.
abbrev Squares : ℕ → List ℕ → Type 0
Squares b [] = Unit {0}
Squares b (m ∷ ms) = (m ≡ b % u32) × Squares (m * m) ms

square_pow : (m n : ℕ) → (m * m) ^ n ≡ m ^ (n + n)
square_pow m zero = rw (pow-zero (m * m), pow-zero m) refl
square_pow m (suc n) =
    pow-suc (m * m) n
    ∙ ap (λ t. t * (m * m)) (square_pow m n)
    ∙ sym (
        ap (λ k. m ^ k) (omega arith)
        ∙ pow-suc m (suc (n + n))
        ∙ ap (λ t. t * m) (pow-suc m (n + n))
        ∙ omega arith)

mod_pow : (m b n : ℕ) → (b % m) ^ n % m ≡ b ^ n % m
mod_pow m b zero = rw (pow-zero (b % m), pow-zero b) refl
mod_pow m b (suc n) =
    rw (pow-suc (b % m) n, pow-suc b n)
      (mod_mul_right m ((b % m) ^ n) b
        ∙ sym (mod_mul m ((b % m) ^ n) b)
        ∙ ap (λ t. t * b % m) (mod_pow m b n)
        ∙ mod_mul m (b ^ n) b)

halves : (m n : ℕ) → m ^ n ≡ (m * m) ^ (n / 2) * m ^ (n % 2)
halves m n =
    ap (λ k. m ^ k) (omega arith)
    ∙ pow_add m (n / 2 + n / 2) (n % 2)
    ∙ ap (λ t. t * m ^ (n % 2)) (sym (square_pow m (n / 2)))

-- Powers of the square of a reduced base.
square_mod : (m b k c : ℕ) → m ≡ b % u32 → c * (m * m) ^ k % u32 ≡ c * (b * b) ^ k % u32
square_mod m b k c e =
    sym (mod_mul_right u32 c ((m * m) ^ k))
    ∙ ap (λ t. c * t % u32)
        (sym (mod_pow u32 (m * m) k) ∙ ap (λ t. t ^ k % u32) squares ∙ mod_pow u32 (b * b) k)
    ∙ mod_mul_right u32 c ((b * b) ^ k)
  where
    squares : m * m % u32 ≡ b * b % u32
    squares = rw e (mod_mul u32 b (b % u32) ∙ mod_mul_right u32 b b)

-- The loop multiplies by the power of the entry that it has reached.
pow_loop_lem :
    (ms : List ℕ) (b n ans : ℕ)
    → Squares b ms
    → n < 2 ^ length ms
    → pow_loop ms n (ans % u32) ≡ ans * b ^ n % u32
unfolding pow_loop
pow_loop_lem [] b n ans sq h =
    ap (λ t. t % u32) (sym (ap (λ k. ans * b ^ k) none_left ∙ rw (pow-zero b) one))
  where
    none_left : n ≡ 0
    none_left = omega (arith, pow-zero 2)

    one : ans * 1 ≡ ans
    one = omega arith
pow_loop_lem (m ∷ ms) b n ans (e, sq) h = elim (Bool-cases (n == 0)) [
  | inl over ↦
      rw over
        (ap (λ t. t % u32) (sym (ap (λ k. ans * b ^ k) (==→eq n 0 over) ∙ rw (pow-zero b) one)))
  | inr more ↦ rw more (elim (Bool-cases (n % 2 == 1)) [
    | inl odd ↦ rw odd (
        ap (pow_loop ms (n / 2)) times
        ∙ pow_loop_lem ms (m * m) (n / 2) (ans * b) sq small
        ∙ square_mod m b (n / 2) (ans * b) e
        ∙ ap (λ t. t % u32) (odd_power (==→eq _ _ odd)))
    | inr even ↦ rw even (
        pow_loop_lem ms (m * m) (n / 2) ans sq small
        ∙ square_mod m b (n / 2) ans e
        ∙ ap (λ t. ans * t % u32) (even_power (omega tests)))
  ])
]
  where
    one : ans * 1 ≡ ans
    one = omega arith

    times : ans % u32 * m % u32 ≡ ans * b % u32
    times = mod_mul u32 ans m ∙ ap (λ t. ans * t % u32) e ∙ mod_mul_right u32 ans b

    small : n / 2 < 2 ^ length ms
    small = omega (arith, pow-suc 2 (length ms))

    even_power : n % 2 ≡ 0 → (b * b) ^ (n / 2) ≡ b ^ n
    even_power z = sym (halves b n ∙ rw (z, pow-zero b) (omega arith))

    odd_power : n % 2 ≡ 1 → ans * b * (b * b) ^ (n / 2) ≡ ans * b ^ n
    odd_power o =
        sym (ap (λ t. ans * t) (halves b n) ∙ rw (o, pow-suc b 0, pow-zero b) (omega arith))

-- The table holds `RABINKARP_MULT ^ (2 ^ i)` at `i`.
mult_pow2-Squares : Squares rk_mult mult_pow2
mult_pow2-Squares = (
  refl,
  (
    refl,
    (
      refl,
      (
        refl,
        (
          refl,
          (
            refl,
            (
              refl,
              (
                refl,
                (
                  refl,
                  (
                    refl,
                    (
                      refl,
                      (
                        refl,
                        (
                          refl,
                          (
                            refl,
                            (
                              refl,
                              (
                                refl,
                                (
                                  refl,
                                  (
                                    refl,
                                    (
                                      refl,
                                      (
                                        refl,
                                        (
                                          refl,
                                          (
                                            refl,
                                            (
                                              refl,
                                              (
                                                refl,
                                                (
                                                  refl,
                                                  (
                                                    refl,
                                                    (
                                                      refl,
                                                      (refl, (refl, (refl, (refl, (refl, tt))))),
                                                    ),
                                                  ),
                                                ),
                                              ),
                                            ),
                                          ),
                                        ),
                                      ),
                                    ),
                                  ),
                                ),
                              ),
                            ),
                          ),
                        ),
                      ),
                    ),
                  ),
                ),
              ),
            ),
          ),
        ),
      ),
    ),
  ),
)

-- rabinkarp_pow of a 32-bit exponent, by its table of squares, is that power of RABINKARP_MULT
-- modulo 2^32.
pub rabinkarp_pow_lem : (n : ℕ) → n < u32 → rabinkarp_pow n ≡ rk_mult ^ n % u32
unfolding rabinkarp_pow
rabinkarp_pow_lem n h =
    pow_loop_lem mult_pow2 rk_mult n 1 mult_pow2-Squares h ∙ ap (λ t. t % u32) (omega arith)
