-- ===== src/Prelude/Modular.antt =====
-- Products under a modulus.
use Prim.Native.Nat.{ℕ, zero, suc, ◌+◌, ◌*◌, ◌/◌, ◌%◌, ◌^◌}
use mathlib.Core.Path.{◌≡◌, sym, ap, ◌∙◌}
use native.Mathlib.Omega.{arith}
use native.Mathlib.Nat.{add-mul-mod_self_left, div-add-mod, pow-suc, pow-zero}

-- A factor may be reduced before or after the product is taken.
pub mod_mul : (m a b : ℕ) → (a % m) * b % m ≡ a * b % m
mod_mul m a b =
    sym (add-mul-mod_self_left ((a % m) * b) m (a / m * b)) ∙ ap (λ n. n % m) (omega (arith, split))
  where
    split : (a % m) * b + m * (a / m * b) ≡ a * b
    split = omega (arith, ap (λ n. n * b) (div-add-mod a m))

pub mod_mul_right : (m a b : ℕ) → a * (b % m) % m ≡ a * b % m
mod_mul_right m a b = ap (λ n. n % m) (omega arith) ∙ mod_mul m b a ∙ ap (λ n. n % m) (omega arith)

pub pow_add : (b m n : ℕ) → b ^ (m + n) ≡ b ^ m * b ^ n
pow_add b m zero = ap (λ k. b ^ k) m_zero ∙ rw (pow-zero b) (omega arith)
  where
    m_zero : m + zero ≡ m
    m_zero = omega arith
pow_add b m (suc n) =
    ap (λ k. b ^ k) m_suc
    ∙ pow-suc b (m + n)
    ∙ ap (λ t. t * b) (pow_add b m n)
    ∙ rw (pow-suc b n) (omega arith)
  where
    m_suc : m + suc n ≡ suc (m + n)
    m_suc = omega arith
