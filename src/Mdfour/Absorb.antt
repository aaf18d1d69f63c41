-- ===== src/Mdfour/Absorb.antt =====
-- src/mdfour.c: blocks of 64 bytes taken one by one from a buffer.
use librsync.Prelude.{
  ℕ, zero, suc, ◌+◌, ◌*◌, ◌≤◌, ◌<◌, ◌≡◌, refl, ap, ◌∙◌, arith, leb, Bool-cases, inl, inr, leb→le,
  leb_false→lt,
}
use librsync.Prelude.{List, [], ◌∷◌, ◌++◌, length, get_or, drop, length-drop}
use librsync.Prelude.Slices.{drop-append_le, drop-drop}
use librsync.Mdfour.{Regs, mdfour64, words_le, mdfour_block, take_blocks}

-- The registers after the first `n` blocks of `p`.
unfoldable pub absorb : ℕ → Regs → List ℕ → Regs
absorb zero r p = r
absorb (suc n) r p = absorb n (mdfour_block r p) (drop 64 p)

get_or-append : (xs ys : List ℕ) (i : ℕ) → i < length xs → get_or (xs ++ ys) i 0 ≡ get_or xs i 0
get_or-append [] ys i h = absurd (omega arith)
get_or-append (x ∷ xs) ys zero h = refl
get_or-append (x ∷ xs) ys (suc i) h = get_or-append xs ys i (omega arith)

words_le-append :
    (n : ℕ) (xs ys : List ℕ) → 4 * n ≤ length xs → words_le n (xs ++ ys) ≡ words_le n xs
unfolding words_le
words_le-append zero xs ys h = refl
words_le-append (suc n) xs ys h =
    rw
      (
        get_or-append xs ys 0 (omega arith),
        get_or-append xs ys 1 (omega arith),
        get_or-append xs ys 2 (omega arith),
        get_or-append xs ys 3 (omega arith),
        drop-append_le 4 xs ys (omega arith),
      )
      (rw (words_le-append n (drop 4 xs) ys (omega (arith, length-drop 4 xs))))

-- A block is the first 64 bytes.
block-append :
    (r : Regs) (xs ys : List ℕ) → 64 ≤ length xs → mdfour_block r (xs ++ ys) ≡ mdfour_block r xs
unfolding mdfour_block
block-append r xs ys h = ap (λ w. mdfour64 w r) (words_le-append 16 xs ys h)

pub absorb-append :
    (n : ℕ) (r : Regs) (xs ys : List ℕ) → 64 * n ≤ length xs → absorb n r (xs ++ ys) ≡ absorb n r xs
unfolding absorb
absorb-append zero r xs ys h = refl
absorb-append (suc n) r xs ys h =
    rw (block-append r xs ys (omega arith), drop-append_le 64 xs ys (omega arith))
      (absorb-append n (mdfour_block r xs) (drop 64 xs) ys (omega (arith, length-drop 64 xs)))

pub absorb-add :
    (m n : ℕ) (r : Regs) (p : List ℕ)
    → absorb (m + n) r p ≡ absorb n (absorb m r p) (drop (64 * m) p)
unfolding absorb
absorb-add zero n r p = ap (λ k. absorb k r p) zero_out
  where
    zero_out : 0 + n ≡ n
    zero_out = omega arith
absorb-add (suc m) n r p =
    ap (λ k. absorb k r p) suc_out
    ∙ absorb-add m n (mdfour_block r p) (drop 64 p)
    ∙ ap (λ l. absorb n (absorb m (mdfour_block r p) (drop 64 p)) l)
        (drop-drop 64 (64 * m) p ∙ ap (λ k. drop k p) (omega arith))
  where
    suc_out : suc m + n ≡ suc (m + n)
    suc_out = omega arith

pub take_blocks_lem :
    (fuel : ℕ) (r : Regs) (inp : List ℕ)
    → length inp ≤ fuel
    → (n m : ℕ) × (length inp ≡ 64 * n + m)
      × (m < 64)
      × (take_blocks fuel r inp ≡ (absorb n r inp, drop (64 * n) inp))
unfolding take_blocks absorb
take_blocks_lem zero r inp h = (0, 0, omega arith, omega arith, refl)
take_blocks_lem (suc fuel) r inp h = elim (Bool-cases (leb 64 (length inp))) [
  | inr few ↦ (0, length inp, omega arith, leb_false→lt _ _ few, rw few refl)
  | inl enough ↦
      let (n, m, whole, short, e) =
        take_blocks_lem fuel (mdfour_block r inp) (drop 64 inp)
          (omega (arith, length-drop 64 inp, leb→le _ _ enough)) in
      (
        suc n,
        m,
        omega (arith, whole, length-drop 64 inp, leb→le _ _ enough),
        short,
        rw enough (
            e
            ∙ ap (λ l. (absorb n (mdfour_block r inp) (drop 64 inp), l))
                (drop-drop 64 (64 * n) inp ∙ ap (λ k. drop k inp) (omega arith))),
      )
]
