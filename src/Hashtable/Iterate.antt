-- ===== src/Hashtable/Iterate.antt =====
-- src/hashtable.h: NAME_iter and NAME_next go through all entries.
use librsync.Prelude.{ℕ, zero, suc, ◌+◌, ◌-◌, ◌≤◌, ◌<◌, ◌≡◌, refl, sym, ap, ◌∙◌, arith, ◌≢◌, ne→==}
use librsync.Prelude.{List, [], ◌∷◌, length, get_or, drop, Option, none, some}
use librsync.Prelude.Slices.{drop-all}
use librsync.Hashtable.{HashTable, nozero, next_entry, next_from, hashtable_next, hashtable_iter}
use librsync.Hashtable.Valid.{filled, Placed, IsValid}

nozero-ne-zero : (h : ℕ) → nozero h ≢ 0
unfolding nozero
nozero-ne-zero h z = ground (arith, z)

module _ {ℓ} {E : Type ℓ} where
  -- The entries of a table, bucket by bucket.
  pub entries_of : List (Option E) → List E
  entries_of [] = []
  entries_of (none ∷ etable) = entries_of etable
  entries_of (some e ∷ etable) = e ∷ entries_of etable

  -- The loop `for (e = iter(t, &i); e != NULL; e = next(t, &i))`.
  unfoldable pub iterate : ℕ → HashTable E → ℕ × Option E → List E
  iterate zero t r = []
  iterate (suc fuel) t (i, none) = []
  iterate (suc fuel) t (i, some e) = e ∷ iterate fuel t (hashtable_next t i)

  drop-get_or :
      (etable : List (Option E)) (i : ℕ)
      → i < length etable
      → entries_of (drop i etable) ≡ entries_of (get_or etable i none ∷ drop (i + 1) etable)
  unfolding entries_of
  drop-get_or [] i h = absurd (omega arith)
  drop-get_or (x ∷ etable) zero h = refl
  drop-get_or (x ∷ etable) (suc i) h = rw (suc_first) (drop-get_or etable i (omega arith))
    where
      suc_first : suc i + 1 ≡ suc (i + 1)
      suc_first = omega arith

  -- What a step of the iteration leaves to do.
  Advanced : List (Option E) → ℕ → ℕ × Option E → Type ℓ
  Advanced etable i (i', none) = entries_of (drop i etable) ≡ []
  Advanced etable i (i', some e) =
      (entries_of (drop i etable) ≡ e ∷ entries_of (drop i' etable))
      × (i < i')
      × (i' ≤ length etable)

  next_entry-Advanced :
      (etable : List (Option E)) (i : ℕ) (o : Option E) (rest : ℕ × Option E)
      → i < length etable
      → entries_of (drop i etable) ≡ entries_of (o ∷ drop (i + 1) etable)
      → Advanced etable (i + 1) rest
      → Advanced etable i (next_entry o i rest)
  unfolding Advanced entries_of next_entry
  next_entry-Advanced etable i (some e) rest h here a = (here, omega arith, omega arith)
  next_entry-Advanced etable i none (i', none) h here a = here ∙ a
  next_entry-Advanced etable i none (i', some e) h here a = (here ∙ a.0, omega (arith, a.1), a.2)

  next_from-Advanced :
      (left : ℕ) (etable : List (Option E)) (i : ℕ)
      → left ≡ length etable - i
      → Advanced etable i (next_from left etable i)
  unfolding next_from Advanced entries_of
  next_from-Advanced zero etable i h = ap entries_of (drop-all i etable (omega arith))
  next_from-Advanced (suc left) etable i h =
      next_entry-Advanced etable i (get_or etable i none) (next_from left etable (i + 1))
        (omega arith) (drop-get_or etable i (omega arith))
        (next_from-Advanced left etable (i + 1) (omega arith))

  iterate-Advanced :
      (fuel : ℕ) (t : HashTable E) (i : ℕ) (r : ℕ × Option E)
      → length t.etable ≡ t.size
      → t.size - i < fuel
      → Advanced t.etable i r
      → iterate fuel t r ≡ entries_of (drop i t.etable)
  unfolding iterate Advanced hashtable_next
  iterate-Advanced zero t i r len enough a = absurd (omega arith)
  iterate-Advanced (suc fuel) t i (i', none) len enough a = sym a
  iterate-Advanced (suc fuel) t i (i', some e) len enough a =
      ap (λ l. e ∷ l)
        (iterate-Advanced fuel t i' (hashtable_next t i') len (omega (arith, a.1, a.2))
          (next_from-Advanced (t.size - i') t.etable i' (omega (arith, len))))
      ∙ sym a.0

  length-entries_of :
      (hash : E → ℕ) (ktable : List ℕ) (etable : List (Option E))
      → length ktable ≡ length etable
      → ((i : ℕ) → Placed hash (get_or ktable i 0) (get_or etable i none))
      → length (entries_of etable) ≡ filled ktable
  unfolding entries_of filled
  length-entries_of hash [] [] h p = refl
  length-entries_of hash [] (o ∷ etable) h p = absurd (omega arith)
  length-entries_of hash (key ∷ ktable) [] h p = absurd (omega arith)
  length-entries_of hash (key ∷ ktable) (none ∷ etable) h p =
      rw (p 0) (omega (arith, length-entries_of hash ktable etable (omega arith) (λ i. p (suc i))))
  length-entries_of hash (key ∷ ktable) (some e ∷ etable) h p =
      rw (ne→== key 0 (λ z. nozero-ne-zero (hash e) (sym (p 0) ∙ z)))
        (omega (arith, length-entries_of hash ktable etable (omega arith) (λ i. p (suc i))))

  -- The loop over NAME_iter and NAME_next of a valid table gives the entry of each bucket in use,
  -- in the order of the buckets, and there are as many of them as the table counts.
  pub iterate-entries_of :
      (hash : E → ℕ) (k : ℕ) (t : HashTable E)
      → IsValid hash k t
      → (iterate (t.size + 1) t (hashtable_iter t) ≡ entries_of t.etable)
        × (length (entries_of t.etable) ≡ t.count)
  unfolding hashtable_iter hashtable_next
  iterate-entries_of hash k t v = (
    iterate-Advanced (t.size + 1) t 0 (hashtable_iter t) (v.entries ∙ sym v.sized) (omega arith)
        (next_from-Advanced (t.size - 0) t.etable 0 (omega (arith, v.entries, v.sized))),
    length-entries_of hash t.ktable t.etable (v.keys ∙ sym v.entries) v.placed ∙ v.counted,
  )
