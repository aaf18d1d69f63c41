-- ===== src/Text/HexDigits.antt =====
-- src/hex.c: reading hexadecimal digits back.
use librsync.Prelude.{
  ℕ, zero, suc, ◌+◌, ◌-◌, ◌*◌, ◌/◌, ◌%◌, ◌<◌, ◌≡◌, refl, ap, ◌∙◌, arith, Bool, true, ◌&&◌,
}
use librsync.Prelude.{ltb, ◌==◌, ==→eq, if◌then◌else◌, List, [], ◌∷◌, get_or, All, IsByte, dec_lt}
use mathlib.Core.Path.{ap₂}
use librsync.Text.{hex_chars, hexify}

-- The value of a digit.
abbrev pub hex_value : ℕ → ℕ
hex_value c = if ltb c 58 then c - 48 else c - 87

abbrev pub unhex : List ℕ → List ℕ
unhex [] = []
unhex (c ∷ []) = []
unhex (c ∷ d ∷ cs) = (hex_value c * 16 + hex_value d) ∷ unhex cs

abbrev all_below : (ℕ → Bool) → ℕ → Bool
all_below test zero = true
all_below test (suc k) = test k && all_below test k

and_both : (a b : Bool) → (a && b) ≡ true → (a ≡ true) × (b ≡ true)
and_both a b h = ground arith

all_below-at : (test : ℕ → Bool) (k n : ℕ) → all_below test k ≡ true → n < k → test n ≡ true
all_below-at test zero n h lt = absurd (omega arith)
all_below-at test (suc k) n h lt = elim (dec_lt n k) [
  | yes below ↦ all_below-at test k n (and_both _ _ h).1 below
  | no top ↦ ap test (omega arith) ∙ (and_both _ _ h).0
]

hex_value-char : (n : ℕ) → n < 16 → hex_value (get_or hex_chars n 0) ≡ n
hex_value-char n h =
    ==→eq _ _ (all_below-at (λ m. hex_value (get_or hex_chars m 0) == m) 16 n refl h)

-- The digits that rs_hexify writes for bytes, read back in pairs as hexadecimal numbers, are the
-- bytes.
pub unhex-hexify : (bytes : List ℕ) → All IsByte bytes → unhex (hexify bytes) ≡ bytes
unfolding hexify
unhex-hexify [] h = refl
unhex-hexify (b ∷ bytes) (small, h) =
    ap₂ (λ c cs. c ∷ cs)
      (ap₂ (λ x y. x * 16 + y) (hex_value-char (b / 16 % 16) (omega arith))
          (hex_value-char (b % 16) (omega arith))
        ∙ omega arith)
      (unhex-hexify bytes h)
