-- ===== src/Prelude/Bits.antt =====
-- `&` and `|` of C on words, as arithmetic where one operand is a mask or the fields are disjoint.
use Prim.Native.Nat.{ℕ, zero, suc, ◌+◌, ◌-◌, ◌*◌, ◌/◌, ◌%◌, ◌^◌, ◌≤◌, ◌<◌, min, max}
use Prim.Native.Nat.{
  bit_xor, bit_xor-bitwise, differ, bit_and, bit_or, digits, bit_or-bitwise, bit_and-bitwise,
}
use mathlib.Core.Path.{◌≡◌, refl, sym, ap, ap₂, ◌∙◌}
use native.Mathlib.Nat.{pow-suc, one-le-pow, pow-succ', div-div-eq-div-mul}
use native.Mathlib.Omega.{arith}

-- A number of at most `n` has at most `n` binary digits, so more fuel changes nothing.
module _ (z : ℕ → ℕ) (f : ℕ → ℕ → ℕ) where
  digits_enough : (n a b : ℕ) → a ≤ n → digits z f n a b ≡ digits z f (suc n) a b
  digits_enough zero zero b h = refl
  digits_enough zero (suc a) b h = absurd (omega arith)
  digits_enough (suc n) zero b h = refl
  digits_enough (suc n) (suc a) b h =
      ap (λ (t : ℕ). t * 2 + f (suc a % 2) (b % 2))
        (digits_enough n (suc a / 2) (b / 2) (omega arith))

  digits_more : (k n a b : ℕ) → a ≤ n → digits z f n a b ≡ digits z f (n + k) a b
  digits_more zero n a b h = ap (λ (m : ℕ). digits z f m a b) (omega arith)
  digits_more (suc k) n a b h =
      rw (digits_more k n a b h, digits_enough (n + k) a b (omega arith), succ)
    where
      succ : n + suc k ≡ suc (n + k)
      succ = omega arith

  digits_own : (n a b : ℕ) → a ≤ n → digits z f n a b ≡ digits z f a a b
  digits_own n a b h = rw (digits_more (n - a) a a b (omega arith), gap)
    where
      gap : a + (n - a) ≡ n
      gap = omega arith

  digits-suc :
      (a b : ℕ)
      → digits z f (suc a) (suc a) b
        ≡ digits z f (suc a / 2) (suc a / 2) (b / 2) * 2 + f (suc a % 2) (b % 2)
  digits-suc a b = rw (digits_own a (suc a / 2) (b / 2) (omega arith))

bit_or_digit : (a b : ℕ) → bit_or a b ≡ bit_or (a / 2) (b / 2) * 2 + max (a % 2) (b % 2)
bit_or_digit zero b = omega (arith, bit_or-bitwise 0 b, bit_or-bitwise 0 (b / 2))
bit_or_digit (suc a) b = omega (
  arith,
  bit_or-bitwise (suc a) b,
  bit_or-bitwise (suc a / 2) (b / 2),
  digits-suc (λ y. y) max a b,
)

bit_and_digit : (a b : ℕ) → bit_and a b ≡ bit_and (a / 2) (b / 2) * 2 + min (a % 2) (b % 2)
bit_and_digit zero b = omega (arith, bit_and-bitwise 0 b, bit_and-bitwise 0 (b / 2))
bit_and_digit (suc a) b = omega (
  arith,
  bit_and-bitwise (suc a) b,
  bit_and-bitwise (suc a / 2) (b / 2),
  digits-suc (λ y. 0) min a b,
)

bit_or-zero_below : (n a : ℕ) → a ≤ n → bit_or a 0 ≡ a
bit_or-zero_below zero a h = omega (arith, bit_or-bitwise 0 0, ap (λ (t : ℕ). bit_or t 0) zero_a)
  where
    zero_a : a ≡ 0
    zero_a = omega arith
bit_or-zero_below (suc n) zero h = bit_or-bitwise 0 0
bit_or-zero_below (suc n) (suc a) h =
    omega (arith, bit_or_digit (suc a) 0, bit_or-zero_below n (suc a / 2) (omega arith))

bit_and-zero_below : (n a : ℕ) → a ≤ n → bit_and a 0 ≡ 0
bit_and-zero_below zero a h = omega (arith, bit_and-bitwise 0 0, ap (λ (t : ℕ). bit_and t 0) zero_a)
  where
    zero_a : a ≡ 0
    zero_a = omega arith
bit_and-zero_below (suc n) zero h = bit_and-bitwise 0 0
bit_and-zero_below (suc n) (suc a) h =
    omega (arith, bit_and_digit (suc a) 0, bit_and-zero_below n (suc a / 2) (omega arith))

half-shift : (q k : ℕ) → q * 2 ^ suc k ≡ q * 2 ^ k * 2
half-shift q k = omega (arith, ap (λ (t : ℕ). q * t) (pow-suc 2 k))

-- `(q << k) | r`, where `r` fits the `k` low bits.
pub bit_or-shift : (k q r : ℕ) → r < 2 ^ k → bit_or (q * 2 ^ k) r ≡ q * 2 ^ k + r
bit_or-shift zero q r h = ground (arith, bit_or-zero_below q q)
bit_or-shift (suc k) q r h =
    ground
      (arith, pow-suc 2 k, half-shift q k, bit_or_digit (q * 2 ^ suc k) r, bit_or-shift k q (r / 2))

mask-shift : (k q r : ℕ) → r < 2 ^ k → bit_and (q * 2 ^ k + r) (2 ^ k - 1) ≡ r
mask-shift zero q r h = ground (arith, bit_and-zero_below (q * 1 + r) (q * 1 + r))
mask-shift (suc k) q r h = ground (
  arith,
  pow-suc 2 k,
  one-le-pow k 2,
  half-shift q k,
  bit_and_digit (q * 2 ^ suc k + r) (2 ^ suc k - 1),
  mask-shift k q (r / 2),
)

-- `a & (2 ^ k - 1)`.
pub bit_and-mask : (k a : ℕ) → bit_and a (2 ^ k - 1) ≡ a % 2 ^ k
bit_and-mask k a = ground (arith, one-le-pow k 2, mask-shift k (a / 2 ^ k) (a % 2 ^ k))

bit_xor_digit : (a b : ℕ) → bit_xor a b ≡ bit_xor (a / 2) (b / 2) * 2 + differ (a % 2) (b % 2)
bit_xor_digit zero b = omega (arith, bit_xor-bitwise 0 b, bit_xor-bitwise 0 (b / 2))
bit_xor_digit (suc a) b = omega (
  arith,
  bit_xor-bitwise (suc a) b,
  bit_xor-bitwise (suc a / 2) (b / 2),
  digits-suc (λ y. y) differ a b,
)

-- Bit `j` of `a | b`.
pub bit_or-bit : (j a b : ℕ) → bit_or a b / 2 ^ j % 2 ≡ max (a / 2 ^ j % 2) (b / 2 ^ j % 2)
bit_or-bit zero a b = omega (arith, bit_or_digit a b)
bit_or-bit (suc j) a b =
    ap (λ t. t % 2) (halved j (bit_or a b) ∙ ap (λ t. t / 2 ^ j) (omega (arith, bit_or_digit a b)))
    ∙ bit_or-bit j (a / 2) (b / 2)
    ∙ ap₂ (λ s t. max (s % 2) (t % 2)) (sym (halved j a)) (sym (halved j b))
  where
    halved : (j n : ℕ) → n / 2 ^ suc j ≡ n / 2 / 2 ^ j
    halved j n = ap (λ t. n / t) (pow-succ' 2 j) ∙ sym (div-div-eq-div-mul n 2 (2 ^ j))

differ_zero : (d : ℕ) → differ d 0 ≡ d
differ_zero zero = refl
differ_zero (suc d) = refl

bit_xor-zero_below : (n a : ℕ) → a ≤ n → bit_xor a 0 ≡ a
bit_xor-zero_below zero a h = omega (arith, bit_xor-bitwise 0 0, ap (λ (t : ℕ). bit_xor t 0) zero_a)
  where
    zero_a : a ≡ 0
    zero_a = omega arith
bit_xor-zero_below (suc n) zero h = bit_xor-bitwise 0 0
bit_xor-zero_below (suc n) (suc a) h = omega (
  arith,
  bit_xor_digit (suc a) 0,
  differ_zero (suc a % 2),
  bit_xor-zero_below n (suc a / 2) (omega arith),
)

-- `n ^ b`, where `b` is the lowest bit of `n` that may be set.
pub bit_xor-clear : (k m : ℕ) → bit_xor (m * 2 ^ suc k + 2 ^ k) (2 ^ k) ≡ m * 2 ^ suc k
bit_xor-clear zero m =
    bit_xor_digit (m * 2 + 1) 1
    ∙ ap₂ (λ h d. bit_xor h 0 * 2 + differ d 1) high low
    ∙ ap (λ t. t * 2 + 0) (bit_xor-zero_below m m (omega arith))
    ∙ omega arith
  where
    high : (m * 2 + 1) / 2 ≡ m
    high = omega arith

    low : (m * 2 + 1) % 2 ≡ 1
    low = omega arith
bit_xor-clear (suc k) m =
    ap₂ bit_xor double single
    ∙ bit_xor_digit (2 * x) (2 * y)
    ∙ ap₂ (λ h d. h * 2 + d) (ap₂ bit_xor (half x) (half y)) (ap₂ differ (even x) (even y))
    ∙ ap (λ t. t * 2 + 0) (bit_xor-clear k m)
    ∙ omega (arith, half-shift m (suc k))
  where
    x : ℕ
    x = m * 2 ^ suc k + 2 ^ k

    y : ℕ
    y = 2 ^ k

    double : m * 2 ^ suc (suc k) + 2 ^ suc k ≡ 2 * x
    double = omega (arith, half-shift m (suc k), pow-suc 2 k)

    single : 2 ^ suc k ≡ 2 * y
    single = omega (arith, pow-suc 2 k)

    half : (n : ℕ) → 2 * n / 2 ≡ n
    half n = omega arith

    even : (n : ℕ) → 2 * n % 2 ≡ 0
    even n = omega arith

differ_bit : (a b : ℕ) → a < 2 → b < 2 → differ a b < 2
differ_bit zero zero h k = omega arith
differ_bit zero (suc b) h k = omega arith
differ_bit (suc a) zero h k = omega arith
differ_bit (suc zero) (suc zero) h k = omega arith
differ_bit (suc zero) (suc (suc b)) h k = absurd (omega arith)
differ_bit (suc (suc a)) (suc b) h k = absurd (omega arith)

-- Numbers of `k` bits have an exclusive or of `k` bits.
pub bit_xor-lt : (k a b : ℕ) → a < 2 ^ k → b < 2 ^ k → bit_xor a b < 2 ^ k
bit_xor-lt zero a b h1 h2 = omega (arith, ap₂ bit_xor none_left none_right, bit_xor-bitwise 0 0)
  where
    none_left : a ≡ 0
    none_left = omega arith

    none_right : b ≡ 0
    none_right = omega arith
bit_xor-lt (suc k) a b h1 h2 = omega (
  arith,
  pow-suc 2 k,
  bit_xor_digit a b,
  bit_xor-lt k (a / 2) (b / 2) (omega (arith, h1, pow-suc 2 k)) (omega (arith, h2, pow-suc 2 k)),
  differ_bit (a % 2) (b % 2) (omega arith) (omega arith),
)
