-- ===== src/Hashtable/Bloom.antt =====
-- src/hashtable.h: hashtable_setbloom and hashtable_getbloom on the bits of the filter.
use librsync.Prelude.{
  ℕ, zero, suc, ◌/◌, ◌%◌, ◌^◌, ◌<◌, max, ◌≡◌, sym, ap, ◌∙◌, arith, List, length, get_or, set, true,
  bit_or, get_or-set_self, get_or-set_other, length-set, ℕ_discrete, ==_iff,
}
use librsync.Prelude.Bits.{bit_or-bit}
use librsync.Hashtable.{set_bit, get_bit}
use native.Mathlib.Nat.{one-le-pow, div_self}

-- The low byte keeps its bits.
byte_bit : (j x : ℕ) → j < 8 → x % 256 / 2 ^ j % 2 ≡ x / 2 ^ j % 2
byte_bit zero x h = omega arith
byte_bit (suc zero) x h = omega arith
byte_bit (suc (suc zero)) x h = omega arith
byte_bit (suc (suc (suc zero))) x h = omega arith
byte_bit (suc (suc (suc (suc zero)))) x h = omega arith
byte_bit (suc (suc (suc (suc (suc zero))))) x h = omega arith
byte_bit (suc (suc (suc (suc (suc (suc zero)))))) x h = omega arith
byte_bit (suc (suc (suc (suc (suc (suc (suc zero))))))) x h = omega arith
byte_bit (suc (suc (suc (suc (suc (suc (suc (suc n)))))))) x h = absurd (omega arith)

-- Bit `j` of the byte that `set_bit` writes.
or_bit :
    (j k b : ℕ)
    → j < 8
    → bit_or b (2 ^ k) % 256 / 2 ^ j % 2 ≡ max (b / 2 ^ j % 2) (2 ^ k / 2 ^ j % 2)
or_bit j k b h = byte_bit j (bit_or b (2 ^ k)) h ∙ bit_or-bit j b (2 ^ k)

one_bit : (j : ℕ) → 2 ^ j / 2 ^ j % 2 ≡ 1
one_bit j = ap (λ t. t % 2) (div_self {n = 2 ^ j} (one-le-pow j 2 (omega arith)))

-- A bit that is set reads as set.
pub get_bit-set_bit :
    (kbloom : List ℕ) (i : ℕ) → i / 8 < length kbloom → get_bit (set_bit kbloom i) i ≡ true
unfolding set_bit get_bit
get_bit-set_bit kbloom i h = (==_iff _ 1).1 (
    ap (λ b. b / 2 ^ (i % 8) % 2) (get_or-set_self kbloom (i / 8) _ 0 h)
    ∙ or_bit (i % 8) (i % 8) (get_or kbloom (i / 8) 0) (omega arith)
    ∙ omega (arith, one_bit (i % 8)))

-- Setting a bit clears none.
pub get_bit-set_bit_other :
    (kbloom : List ℕ) (i j : ℕ)
    → i / 8 < length kbloom
    → get_bit kbloom j ≡ true
    → get_bit (set_bit kbloom i) j ≡ true
unfolding set_bit get_bit
get_bit-set_bit_other kbloom i j h old = elim (ℕ_discrete (i / 8) (j / 8)) [
  | no ne ↦
      rw
        (get_or-set_other kbloom (i / 8) (j / 8)
          (bit_or (get_or kbloom (i / 8) 0) (2 ^ (i % 8)) % 256) 0 ne)
        old
  | yes e ↦ (==_iff _ 1).1 (
      ap
        (λ n.
          get_or (set kbloom (i / 8) (bit_or (get_or kbloom (i / 8) 0) (2 ^ (i % 8)) % 256)) n 0
          / 2 ^ (j % 8)
          % 2)
        (sym e)
      ∙ ap (λ b. b / 2 ^ (j % 8) % 2) (get_or-set_self kbloom (i / 8) _ 0 h)
      ∙ or_bit (j % 8) (i % 8) (get_or kbloom (i / 8) 0) (omega arith)
      ∙ omega (arith, (==_iff _ 1).0 old, ap (λ n. get_or kbloom n 0 / 2 ^ (j % 8) % 2) e))
]

pub length-set_bit : (kbloom : List ℕ) (i : ℕ) → length (set_bit kbloom i) ≡ length kbloom
unfolding set_bit
length-set_bit kbloom i = length-set kbloom (i / 8) _
