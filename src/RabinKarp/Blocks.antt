-- ===== src/RabinKarp/Blocks.antt =====
-- src/rabinkarp.c: the loop of `rabinkarp_update` that takes 16 bytes in a round.
use librsync.Prelude.{
  ℕ, zero, suc, ◌+◌, ◌*◌, ◌%◌, ◌≤◌, ◌≡◌, refl, sym, ap, ◌∙◌, arith, u32, Bool-cases, inl, inr,
  tests,
}
use librsync.Prelude.{leb}
use librsync.Prelude.{List, [], ◌∷◌, ◌++◌, length, take, drop, get_or}
use librsync.Prelude.Slices.{take-append-drop, take-add, drop-drop}
use librsync.RabinKarp.{rk_mult, par2x1, par2x2, par2x4, par2x8, hash_bytes, hash_loops}

hash_bytes-append :
    (xs ys : List ℕ) (h : ℕ) → hash_bytes (xs ++ ys) h ≡ hash_bytes ys (hash_bytes xs h)
unfolding hash_bytes
hash_bytes-append [] ys h = refl
hash_bytes-append (x ∷ xs) ys h = hash_bytes-append xs ys _

two_bytes :
    (buf : List ℕ) (i : ℕ)
    → i + 2 ≤ length buf
    → take 2 (drop i buf) ≡ get_or buf i 0 ∷ get_or buf (i + 1) 0 ∷ []
two_bytes [] i h = absurd (omega arith)
two_bytes (x ∷ []) zero h = absurd (omega arith)
two_bytes (x ∷ y ∷ buf) zero h = refl
two_bytes (x ∷ buf) (suc i) h =
    two_bytes buf i (omega arith) ∙ ap (λ k. get_or buf i 0 ∷ get_or (x ∷ buf) k 0 ∷ []) next
  where
    next : suc (i + 1) ≡ suc i + 1
    next = omega arith

-- A step of the unrolled loop that takes the `n` bytes from `i`.
Takes : ℕ → List ℕ → ℕ → (ℕ → ℕ) → Type 0
Takes n buf i f = (h : ℕ) → f h ≡ hash_bytes (take n (drop i buf)) h

par2x1-Takes : (buf : List ℕ) (i : ℕ) → i + 2 ≤ length buf → Takes 2 buf i (λ h. par2x1 h buf i)
unfolding par2x1 hash_bytes Takes
par2x1-Takes buf i h hash = together ∙ sym (ap (λ l. hash_bytes l hash) (two_bytes buf i h))
  where
    together :
        par2x1 hash buf i
        ≡ (rk_mult * ((rk_mult * hash + get_or buf i 0) % u32) + get_or buf (i + 1) 0) % u32
    together = omega arith

-- Two of them one after the other.
twice :
    (n : ℕ) (buf : List ℕ) (i : ℕ) (f g : ℕ → ℕ)
    → Takes n buf i f
    → Takes n buf (i + n) g
    → Takes (n + n) buf i (λ h. g (f h))
unfolding Takes
twice n buf i f g p q h =
    q (f h)
    ∙ ap (hash_bytes (take n (drop (i + n) buf))) (p h)
    ∙ sym (hash_bytes-append (take n (drop i buf)) (take n (drop (i + n) buf)) h)
    ∙ ap (λ l. hash_bytes l h)
        (ap (λ l. take n (drop i buf) ++ take n l) (sym (drop-drop i n buf))
          ∙ sym (take-add n n (drop i buf)))

par2x2-Takes : (buf : List ℕ) (i : ℕ) → i + 4 ≤ length buf → Takes 4 buf i (λ h. par2x2 h buf i)
unfolding par2x2
par2x2-Takes buf i h =
    twice 2 buf i (λ h. par2x1 h buf i) (λ h. par2x1 h buf (i + 2))
      (par2x1-Takes buf i (omega arith)) (par2x1-Takes buf (i + 2) (omega arith))

par2x4-Takes : (buf : List ℕ) (i : ℕ) → i + 8 ≤ length buf → Takes 8 buf i (λ h. par2x4 h buf i)
unfolding par2x4
par2x4-Takes buf i h =
    twice 4 buf i (λ h. par2x2 h buf i) (λ h. par2x2 h buf (i + 4))
      (par2x2-Takes buf i (omega arith)) (par2x2-Takes buf (i + 4) (omega arith))

par2x8-Takes : (buf : List ℕ) → 16 ≤ length buf → Takes 16 buf 0 (λ h. par2x8 h buf)
unfolding par2x8
par2x8-Takes buf h =
    twice 8 buf 0 (λ h. par2x4 h buf 0) (λ h. par2x4 h buf 8) (par2x4-Takes buf 0 (omega arith))
      (par2x4-Takes buf 8 (omega arith))

-- The loop of rabinkarp_update that takes 16 bytes in a round with the squared multiplier and the
-- loop for the rest compute what the loop over single bytes does, whatever the fuel.
pub hash_loops-bytes : (fuel : ℕ) (buf : List ℕ) (h : ℕ) → hash_loops fuel buf h ≡ hash_bytes buf h
unfolding hash_loops Takes
hash_loops-bytes zero buf h = refl
hash_loops-bytes (suc fuel) buf h = elim (Bool-cases (leb 16 (length buf))) [
  | inl many ↦ rw many (
      hash_loops-bytes fuel (drop 16 buf) (par2x8 h buf)
      ∙ ap (hash_bytes (drop 16 buf)) (par2x8-Takes buf (omega tests) h)
      ∙ sym (hash_bytes-append (take 16 buf) (drop 16 buf) h)
      ∙ ap (λ l. hash_bytes l h) (take-append-drop 16 buf))
  | inr few ↦ rw few refl
]
