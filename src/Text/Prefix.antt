-- ===== src/Text/Prefix.antt =====
-- src/isprefix.c: what `isprefix` decides.
use librsync.Prelude.{ℕ, ◌≡◌, ◌↔◌, refl, sym, ap, arith, Bool, true, false, ◌==◌, ==_iff}
use librsync.Prelude.{if◌then◌else◌, List, [], ◌∷◌, length, take, drop, get_or}
use mathlib.Core.Path.{ap₂}
use librsync.Text.{isprefix}

both : (c d : ℕ) (rest : Bool) → (if c == d then rest else false) ≡ true → (c ≡ d) × (rest ≡ true)
both c d rest h = ground arith

starts : (tip iceberg : List ℕ) → isprefix tip iceberg ≡ true → take (length tip) iceberg ≡ tip
unfolding isprefix
starts [] iceberg h = refl
starts (c ∷ tip) [] h = absurd (ground arith)
starts (c ∷ tip) (d ∷ iceberg) h = by_test c d (isprefix tip iceberg) h (starts tip iceberg)
  where
    by_test :
        (c d : ℕ) (rest : Bool)
        → (if c == d then rest else false) ≡ true
        → (rest ≡ true → take (length tip) iceberg ≡ tip)
        → d ∷ take (length tip) iceberg ≡ c ∷ tip
    by_test c d rest h ih =
        let parts = both c d rest h in ap₂ (λ x xs. x ∷ xs) (sym parts.0) (ih parts.1)

decided : (tip iceberg : List ℕ) → take (length tip) iceberg ≡ tip → isprefix tip iceberg ≡ true
unfolding isprefix
decided [] iceberg h = refl
decided (c ∷ tip) [] h = absurd (omega (arith, ap (λ (l : List ℕ). length l) h))
decided (c ∷ tip) (d ∷ iceberg) h =
    rw ((==_iff c d).1 (sym (ap (λ l. get_or l 0 0) h))) (decided tip iceberg (ap (drop 1) h))

-- isprefix answers true exactly when the second string starts with the first.
pub isprefix_iff :
    (tip iceberg : List ℕ) → (isprefix tip iceberg ≡ true) ↔ (take (length tip) iceberg ≡ tip)
isprefix_iff tip iceberg = (starts tip iceberg, decided tip iceberg)
