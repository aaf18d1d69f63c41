-- ===== src/Mksum/Spec.antt =====
-- src/mksum.c: the bytes of a whole signature, with no buffers: a header, and for each block of the file
-- its weak sum and the front of its strong sum.
use librsync.Prelude.{
  ℕ, zero, suc, ◌+◌, ◌-◌, ◌≤◌, ◌<◌, ◌≡◌, refl, sym, ap, ◌∙◌, arith, List, [], ◌∷◌, ◌++◌, length,
  take, drop, length-drop,
}
use librsync.Netint.Bytes.{big_endian}
use librsync.Sumset.{Signature, signature_calc_weak_sum, signature_calc_strong_sum}

-- A file in blocks of `block_len` bytes, of which the last may be shorter.
unfoldable pub blocks_from : ℕ → ℕ → List ℕ → List (List ℕ)
blocks_from zero block_len file = []
blocks_from (suc fuel) block_len [] = []
blocks_from (suc fuel) block_len (b ∷ file) =
    take block_len (b ∷ file) ∷ blocks_from fuel block_len (drop block_len (b ∷ file))

-- A block takes a byte at least.
unfoldable pub blocks_of : ℕ → List ℕ → List (List ℕ)
unfolding blocks_from
blocks_of block_len file = blocks_from (length file) block_len file

unfoldable pub block_sums : (List ℕ → List ℕ) → Signature → List ℕ → List ℕ
block_sums blake2 sig block =
    big_endian 4 (signature_calc_weak_sum sig block)
    ++ take sig.strong_sum_len (signature_calc_strong_sum blake2 sig block)

unfoldable pub all_sums : (List ℕ → List ℕ) → Signature → List (List ℕ) → List ℕ
unfolding block_sums
all_sums blake2 sig [] = []
all_sums blake2 sig (block ∷ blocks) = block_sums blake2 sig block ++ all_sums blake2 sig blocks

unfoldable pub header_bytes : Signature → List ℕ
header_bytes sig =
    big_endian 4 sig.magic ++ (big_endian 4 sig.block_len ++ big_endian 4 sig.strong_sum_len)

-- The signature file.
unfoldable pub sig_spec : (List ℕ → List ℕ) → Signature → List ℕ → List ℕ
unfolding header_bytes all_sums blocks_of
sig_spec blake2 sig file = header_bytes sig ++ all_sums blake2 sig (blocks_of sig.block_len file)

-- More fuel than bytes changes nothing.
blocks_from_enough :
    (fuel block_len : ℕ) (file : List ℕ)
    → 0 < block_len
    → length file ≤ fuel
    → blocks_from fuel block_len file ≡ blocks_from (suc fuel) block_len file
unfolding blocks_from
blocks_from_enough zero block_len [] pos h = refl
blocks_from_enough zero block_len (b ∷ file) pos h = absurd (omega arith)
blocks_from_enough (suc fuel) block_len [] pos h = refl
blocks_from_enough (suc fuel) block_len (b ∷ file) pos h =
    ap (λ l. take block_len (b ∷ file) ∷ l)
      (blocks_from_enough fuel block_len (drop block_len (b ∷ file)) pos
        (omega (arith, length-drop block_len (b ∷ file))))

blocks_from_more :
    (k fuel block_len : ℕ) (file : List ℕ)
    → 0 < block_len
    → length file ≤ fuel
    → blocks_from fuel block_len file ≡ blocks_from (k + fuel) block_len file
blocks_from_more zero fuel block_len file pos h = ap (λ n. blocks_from n block_len file) zero_out
  where
    zero_out : fuel ≡ 0 + fuel
    zero_out = omega arith
blocks_from_more (suc k) fuel block_len file pos h =
    blocks_from_more k fuel block_len file pos h
    ∙ blocks_from_enough (k + fuel) block_len file pos (omega arith)
    ∙ ap (λ n. blocks_from n block_len file) out
  where
    out : suc (k + fuel) ≡ suc k + fuel
    out = omega arith

-- The first block of a file that has one.
pub blocks_of-cons :
    (block_len : ℕ) (b : ℕ) (file : List ℕ)
    → 0 < block_len
    → blocks_of block_len (b ∷ file)
      ≡ take block_len (b ∷ file) ∷ blocks_of block_len (drop block_len (b ∷ file))
unfolding blocks_of blocks_from
blocks_of-cons block_len b file pos =
    ap (λ l. take block_len (b ∷ file) ∷ l)
      (ap (λ n. blocks_from n block_len (drop block_len (b ∷ file))) total
        ∙ sym (
            blocks_from_more (length file - length (drop block_len (b ∷ file)))
              (length (drop block_len (b ∷ file))) block_len (drop block_len (b ∷ file)) pos
              (omega arith)))
  where
    total :
        length file
        ≡ length file - length (drop block_len (b ∷ file)) + length (drop block_len (b ∷ file))
    total = omega (arith, length-drop block_len (b ∷ file))
