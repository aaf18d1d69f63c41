-- ===== src/Delta/SameBlocks.antt =====
-- src/sumset.c, as src/delta.c uses it: the block length across rs_signature_find_match.
use librsync.Prelude.{ℕ, ◌≡◌, refl, Bool-cases, inl, inr, List, Option, none, some}
use librsync.Hashtable.{HashTable, Found}
use librsync.Sumset.{Signature, signature_check}
use librsync.Sumset.Match.{BlockMatch, signature_find_match, find_in, found_at}

-- That what a search returns has the same block length.
unfoldable pub SameBlocks : Signature → Option (Signature × ℕ) → Type 0
SameBlocks sig none = Unit
SameBlocks sig (some (sig', pos)) = sig'.block_len ≡ sig.block_len

found_at-SameBlocks : (sig : Signature) (r : Found ℕ BlockMatch) → SameBlocks sig (found_at sig r)
unfolding found_at SameBlocks
found_at-SameBlocks sig none = tt
found_at-SameBlocks sig (some (t, m, some idx)) = refl
found_at-SameBlocks sig (some (t, m, none)) = refl

module _ (blake2 : List ℕ → List ℕ) where
  find_in-SameBlocks :
      (sig : Signature) (weak_sum : ℕ) (buf : List ℕ) (o : Option (HashTable ℕ))
      → SameBlocks sig (find_in blake2 sig weak_sum buf o)
  unfolding find_in SameBlocks
  find_in-SameBlocks sig weak_sum buf none = tt
  find_in-SameBlocks sig weak_sum buf (some t) = found_at-SameBlocks sig _

  pub find_match-SameBlocks :
      (sig : Signature) (weak_sum : ℕ) (buf : List ℕ)
      → SameBlocks sig (signature_find_match blake2 sig weak_sum buf)
  unfolding signature_find_match SameBlocks
  find_match-SameBlocks sig weak_sum buf = elim (Bool-cases (signature_check sig)) [
    | inl passes ↦ rw passes (find_in-SameBlocks sig weak_sum buf sig.hashtable)
    | inr fails ↦ rw fails tt
  ]
