-- ===== src/Netint/IntLen.antt =====
-- `rs_int_len`: the number of bytes that a value is sent in.
use librsync.Prelude.{ℕ, true, ◌^◌, ◌≤◌, ◌<◌, ◌≡◌, arith, subst, ◌⊎◌, inl, inr}
use librsync.Netint.{int_width, int_len}

-- A value that is not negative fits in as many bytes as rs_int_len names.
pub int_width-fits : (v : ℕ) → v < 2 ^ 63 → v < 256 ^ int_width v
unfolding int_width
int_width-fits v h = ground arith

-- The widths of a network integer.
abbrev pub IsWidth : ℕ → Type 0
IsWidth n = (n ≡ 1) ⊎ ((n ≡ 2) ⊎ ((n ≡ 4) ⊎ (n ≡ 8)))

pub int_width_cases : (v : ℕ) → IsWidth (int_width v)
unfolding int_width
int_width_cases v = ground arith

least : (v n : ℕ) → IsWidth n → v < 256 ^ n → int_width v ≤ n
unfolding int_width
least v n (inl e) fits = ground (arith, subst (λ m. v < 256 ^ m) e fits)
least v n (inr (inl e)) fits = ground (arith, subst (λ m. v < 256 ^ m) e fits)
least v n (inr (inr (inl e))) fits = ground (arith, subst (λ m. v < 256 ^ m) e fits)
least v n (inr (inr (inr e))) fits = ground arith

-- The assertion of rs_int_len holds for a value that is not negative, below 2^63, and its answer is
-- the least of the widths 1, 2, 4 and 8 that the value fits in: it is one of them, the value fits
-- in it, and it is no more than any width that the value fits in.
pub int_len_least :
    (v n : ℕ)
    → v < 2 ^ 63
    → IsWidth n
    → v < 256 ^ n
    → ((int_len v).1 ≡ true)
      × IsWidth (int_len v).0
      × (v < 256 ^ (int_len v).0)
      × ((int_len v).0 ≤ n)
unfolding int_len
int_len_least v n h w fits = (ground arith, int_width_cases v, int_width-fits v h, least v n w fits)
