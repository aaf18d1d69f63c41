-- ===== src/Tests/Strings.antt =====
-- Hexadecimal digits and prefixes.
use librsync.Prelude.{ℕ, ◌≡◌, arith, [], ◌∷◌, All, IsByte, take, length, true, ◌↔◌}
use librsync.Text.{hexify, isprefix}
use librsync.Text.HexDigits.{unhex, unhex-hexify}
use librsync.Text.Prefix.{isprefix_iff}

unhex-hexify_example : unhex (hexify (0 ∷ 171 ∷ 255 ∷ [])) ≡ 0 ∷ 171 ∷ 255 ∷ []
unhex-hexify_example = unhex-hexify (0 ∷ 171 ∷ 255 ∷ []) bytes
  where
    bytes : All IsByte (0 ∷ 171 ∷ 255 ∷ [])
    bytes = ground arith

isprefix_iff_example :
    (isprefix (97 ∷ 98 ∷ []) (97 ∷ 98 ∷ 99 ∷ []) ≡ true)
    ↔ (take {A = ℕ} (length {A = ℕ} (97 ∷ 98 ∷ [])) (97 ∷ 98 ∷ 99 ∷ []) ≡ 97 ∷ 98 ∷ [])
isprefix_iff_example = isprefix_iff (97 ∷ 98 ∷ []) (97 ∷ 98 ∷ 99 ∷ [])
