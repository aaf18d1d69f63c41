-- ===== src/Sumset/Match/Compare.antt =====
-- src/sumset.c: rs_block_match_cmp compares the strong sums, and calculates that of the buffer once.
use librsync.Prelude.{ℕ, ◌+◌, ◌≡◌, refl, ap, ◌∙◌, arith, ==_refl, Bool, true}
use librsync.Prelude.{List, [], ◌∷◌, take, Option, none, some}
use librsync.Sumset.{Signature, BlockSig, signature_calc_strong_sum}
use librsync.Sumset.Match.{
  BlockMatch, same_bytes, block_at, with_strong_sum, block_match_cmp, match_of_block, match_of_buf,
}

pub same_bytes_refl : (xs : List ℕ) → same_bytes xs xs ≡ true
unfolding same_bytes
same_bytes_refl [] = refl
same_bytes_refl (x ∷ xs) = rw (==_refl x, same_bytes_refl xs) refl

pub same_bytes→eq : (xs ys : List ℕ) → same_bytes xs ys ≡ true → xs ≡ ys
unfolding same_bytes
same_bytes→eq [] [] h = refl
same_bytes→eq [] (y ∷ ys) h = cc
same_bytes→eq (x ∷ xs) [] h = cc
same_bytes→eq (x ∷ xs) (y ∷ ys) h = ground (arith, same_bytes→eq xs ys)

module _ (blake2 : List ℕ → List ℕ) (sig : Signature) where
  -- The strong sum that a match object stands for.
  pub sum_of : BlockMatch → Option (List ℕ) → List ℕ
  sum_of m none = m.strong_sum
  sum_of m (some buf) = signature_calc_strong_sum blake2 sig buf

  -- The calculations that are still to be made.
  pub to_calculate : Option (List ℕ) → ℕ
  to_calculate none = 0
  to_calculate (some buf) = 1

  -- A match object for the strong sum `target`, with `calcs` calculations made at its end at most.
  abbrev pub StandsFor : List ℕ → ℕ → BlockMatch → Type 0
  StandsFor target calcs m =
      (sum_of m m.buf ≡ target) × (m.calc_strong_count + to_calculate m.buf ≡ calcs)

  -- A block whose strong sum is `target`, as far as the signature keeps it.
  abbrev pub strong_matches : List ℕ → ℕ → Bool
  strong_matches target idx =
      same_bytes (take sig.strong_sum_len target)
        (take sig.strong_sum_len (block_at sig idx).strong_sum)

  with_strong_sum_lem :
      (m : BlockMatch) (o : Option (List ℕ))
      → m.buf ≡ o
      → ((with_strong_sum blake2 sig m o).strong_sum ≡ sum_of m o)
        × (sum_of (with_strong_sum blake2 sig m o) (with_strong_sum blake2 sig m o).buf
            ≡ sum_of m o)
        × ((with_strong_sum blake2 sig m o).calc_strong_count
              + to_calculate (with_strong_sum blake2 sig m o).buf
            ≡ m.calc_strong_count + to_calculate o)
  unfolding with_strong_sum sum_of to_calculate
  with_strong_sum_lem m none e = rw e (refl, refl, refl)
  with_strong_sum_lem m (some buf) e = (refl, refl, omega arith)

  pub block_match_cmp-StandsFor :
      (target : List ℕ) (calcs : ℕ) (m : BlockMatch) (idx : ℕ)
      → StandsFor target calcs m
      → StandsFor target calcs (block_match_cmp blake2 sig m idx).0
        × ((block_match_cmp blake2 sig m idx).1 ≡ strong_matches target idx)
  unfolding block_match_cmp
  block_match_cmp-StandsFor target calcs m idx (stands, count) =
      let (now, later, counted) = with_strong_sum_lem m m.buf refl in
      (
        (later ∙ stands, counted ∙ count),
        ap
            (λ l.
              same_bytes (take sig.strong_sum_len l)
                (take sig.strong_sum_len (block_at sig idx).strong_sum))
            (now ∙ stands),
      )

  pub match_of_block-StandsFor :
      (b : BlockSig)
      → StandsFor
          (take sig.strong_sum_len b.strong_sum)
          sig.calc_strong_count
          (match_of_block sig b)
  unfolding match_of_block sum_of to_calculate
  match_of_block-StandsFor b = (refl, omega arith)

  pub match_of_buf-StandsFor :
      (weak_sum : ℕ) (buf : List ℕ)
      → StandsFor
          (signature_calc_strong_sum blake2 sig buf)
          (sig.calc_strong_count + 1)
          (match_of_buf sig weak_sum buf)
  unfolding match_of_buf sum_of to_calculate
  match_of_buf-StandsFor weak_sum buf = (refl, refl)
