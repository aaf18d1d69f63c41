-- ===== src/Rollsum/Unrolled.antt =====
-- src/rollsum.c: the loop of `RollsumUpdate` that takes 16 bytes in a round.
use librsync.Prelude.{
  ℕ, zero, suc, ◌+◌, ◌≤◌, ◌<◌, ◌≡◌, refl, sym, ap, ◌∙◌, arith, Bool-cases, inl, inr, tests,
}
use librsync.Prelude.{leb}
use librsync.Prelude.{List, [], ◌∷◌, ◌++◌, length, take, drop, get_or}
use librsync.Prelude.Slices.{take-append-drop, take-add, drop-drop}
use librsync.Rollsum.{do1, do2, do4, do8, do16, update_bytes, update_loops}

update_bytes-append :
    (xs bs : List ℕ) (s : ℕ × ℕ) → update_bytes (xs ++ bs) s ≡ update_bytes bs (update_bytes xs s)
unfolding update_bytes
update_bytes-append [] bs s = refl
update_bytes-append (x ∷ xs) bs s = update_bytes-append xs bs _

one_byte : (buf : List ℕ) (i : ℕ) → i < length buf → take 1 (drop i buf) ≡ get_or buf i 0 ∷ []
one_byte [] i h = absurd (omega arith)
one_byte (b ∷ buf) zero h = refl
one_byte (b ∷ buf) (suc i) h = one_byte buf i (omega arith)

-- A step of the unrolled loop that takes the `n` bytes from `i`.
Takes : ℕ → List ℕ → ℕ → (ℕ × ℕ → ℕ × ℕ) → Type 0
Takes n buf i f = (s : ℕ × ℕ) → f s ≡ update_bytes (take n (drop i buf)) s

do1-Takes : (buf : List ℕ) (i : ℕ) → i + 1 ≤ length buf → Takes 1 buf i (do1 buf i)
unfolding do1 update_bytes Takes
do1-Takes buf i h s = sym (ap (λ l. update_bytes l s) (one_byte buf i (omega arith)))

-- Two of them one after the other.
twice :
    (n : ℕ) (buf : List ℕ) (i : ℕ) (f g : ℕ × ℕ → ℕ × ℕ)
    → Takes n buf i f
    → Takes n buf (i + n) g
    → Takes (n + n) buf i (λ s. g (f s))
unfolding Takes
twice n buf i f g h k s =
    k (f s)
    ∙ ap (update_bytes (take n (drop (i + n) buf))) (h s)
    ∙ sym (update_bytes-append (take n (drop i buf)) (take n (drop (i + n) buf)) s)
    ∙ ap (λ l. update_bytes l s)
        (ap (λ l. take n (drop i buf) ++ take n l) (sym (drop-drop i n buf))
          ∙ sym (take-add n n (drop i buf)))

do2-Takes : (buf : List ℕ) (i : ℕ) → i + 2 ≤ length buf → Takes 2 buf i (do2 buf i)
unfolding do2
do2-Takes buf i h =
    twice 1 buf i (do1 buf i) (do1 buf (i + 1)) (do1-Takes buf i (omega arith))
      (do1-Takes buf (i + 1) (omega arith))

do4-Takes : (buf : List ℕ) (i : ℕ) → i + 4 ≤ length buf → Takes 4 buf i (do4 buf i)
unfolding do4
do4-Takes buf i h =
    twice 2 buf i (do2 buf i) (do2 buf (i + 2)) (do2-Takes buf i (omega arith))
      (do2-Takes buf (i + 2) (omega arith))

do8-Takes : (buf : List ℕ) (i : ℕ) → i + 8 ≤ length buf → Takes 8 buf i (do8 buf i)
unfolding do8
do8-Takes buf i h =
    twice 4 buf i (do4 buf i) (do4 buf (i + 4)) (do4-Takes buf i (omega arith))
      (do4-Takes buf (i + 4) (omega arith))

do16-Takes : (buf : List ℕ) → 16 ≤ length buf → Takes 16 buf 0 (do16 buf)
unfolding do16
do16-Takes buf h =
    twice 8 buf 0 (do8 buf 0) (do8 buf 8) (do8-Takes buf 0 (omega arith))
      (do8-Takes buf 8 (omega arith))

-- The loop of RollsumUpdate that takes 16 bytes in a round and the loop for the rest compute what
-- the loop over single bytes does, whatever the fuel.
pub update_loops-bytes :
    (fuel : ℕ) (buf : List ℕ) (s : ℕ × ℕ) → update_loops fuel buf s ≡ update_bytes buf s
unfolding update_loops Takes
update_loops-bytes zero buf s = refl
update_loops-bytes (suc fuel) buf s = elim (Bool-cases (leb 16 (length buf))) [
  | inl many ↦ rw many (
      update_loops-bytes fuel (drop 16 buf) (do16 buf s)
      ∙ ap (update_bytes (drop 16 buf)) (do16-Takes buf (omega tests) s)
      ∙ sym (update_bytes-append (take 16 buf) (drop 16 buf) s)
      ∙ ap (λ l. update_bytes l s) (take-append-drop 16 buf))
  | inr few ↦ rw few refl
]
