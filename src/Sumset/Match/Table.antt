-- ===== src/Sumset/Match/Table.antt =====
-- src/sumset.c: rs_build_hash_table.
use librsync.Prelude.{ℕ, ◌*◌, ◌^◌, ◌<◌, ◌≡◌, refl, sym, ap, ◌∙◌, arith, u32, Bool, true, false}
use librsync.Prelude.{List, get_or, Option, none, some}
use librsync.Result.{RsResult, done, mem_error}
use librsync.Hashtable.{HashTable, hashtable_new, stats_init}
use librsync.Hashtable.Valid.{
  Placed, IsValid, Counted, NewOk, hashtable_new-NewOk, stats_init-IsValid, filled_none,
}
use librsync.Hashtable.Add.{nozero_bounds}
use librsync.Sumset.{Signature, signature_check}
use librsync.Sumset.Blocks.{table-checked}
use librsync.Sumset.Match.{block_hash, built, build_from, build_hash_table}
use librsync.Sumset.Match.Build.{Built, build_blocks-Built}
use mathlib.Core.Path.{subst}

module _ (blake2 : List ℕ → List ℕ) (sig : Signature) where
  -- What rs_build_hash_table leaves: NULL where calloc refused a block, or a table that covers all blocks.
  pub data BuildOk (calloc : ℕ → Bool) : Option (RsResult × Signature) → Type 0 where
    no_memory :
        (r : Option (RsResult × Signature)) (n : ℕ)
        → calloc n ≡ false
        → r ≡ some (mem_error, record sig { hashtable = none })
        → BuildOk calloc r
    table_built :
        (r : Option (RsResult × Signature)) (t : HashTable ℕ)
        → Built blake2 sig sig.count t
        → r ≡ some (done, record sig { hashtable = some t })
        → signature_check (record sig { hashtable = some t }) ≡ true
        → BuildOk calloc r

  module _ (small : (idx : ℕ) → block_hash sig idx < u32)
      (checked : signature_check sig ≡ true) where
    no_entries :
        (k : ℕ) (t : HashTable ℕ)
        → IsValid (block_hash sig) k t
        → t.count ≡ 0
        → (b e : ℕ) → get_or t.etable b none ≡ some e
        → e < 0
    no_entries k t v empty b e here = absurd (
        (nozero_bounds (block_hash sig e) (small e)).0 (
          sym (subst (λ o. Placed (block_hash sig) (get_or t.ktable b 0) o) here (v.placed b))
          ∙ filled_none t.ktable b (v.counted ∙ empty)))

    start-Built :
        (k : ℕ) (t : HashTable ℕ)
        → IsValid (block_hash sig) k t
        → Counted t
        → t.count ≡ 0
        → sig.count < t.size
        → Built blake2 sig 0 t
    start-Built k t v c empty large = record {
      bits = k;
      valid = v;
      counts = c;
      few = omega (arith, empty);
      enough = large;
      among = no_entries k t v empty;
      covers = λ idx lt. absurd (omega arith);
    }

    stats_init-Built :
        (t : HashTable ℕ) → Built blake2 sig sig.count t → Built blake2 sig sig.count (stats_init t)
    unfolding stats_init
    stats_init-Built t b = record {
      bits = b.bits;
      valid = stats_init-IsValid (block_hash sig) b.bits t b.valid;
      counts = record { matched = omega arith; compared = omega arith; called = omega arith };
      few = b.few;
      enough = b.enough;
      among = b.among;
      covers = b.covers;
    }

    build_from-BuildOk :
        (calloc : ℕ → Bool) (o : Option (HashTable ℕ))
        → NewOk (block_hash sig) calloc sig.count o
        → BuildOk calloc (build_from blake2 sig o)
    unfolding build_from built
    build_from-BuildOk calloc none (n, refused, _) = no_memory _ n refused refl
    build_from-BuildOk calloc (some t) (k, v, empty, large, c) =
        let (t', e, b) =
          build_blocks-Built blake2 sig small sig.count 0 t (omega arith)
            (start-Built k t v c empty large) in
        table_built _ (stats_init t') (stats_init-Built t' b) (ap (built sig) e) (
          table-checked sig (stats_init t') sig.calc_strong_count checked
            (stats_init-Built t' b).few)

-- rs_build_hash_table, for a signature that passes rs_signature_check, whose weak sums are unsigned
-- ints and of whose blocks ten times the number is an int, returns RS_MEM_ERROR only if calloc has
-- refused a block of memory, and otherwise RS_DONE with a valid hash table, all of whose entries
-- are blocks of the signature, and which has for each block an entry with the same strong sum and
-- the same hash; the signature then passes rs_signature_check too.
pub build_hash_table-BuildOk :
    (blake2 : List ℕ → List ℕ) (sig : Signature) (calloc : ℕ → Bool)
    → signature_check sig ≡ true
    → ((idx : ℕ) → block_hash sig idx < u32)
    → sig.count * 10 < 2 ^ 31
    → BuildOk blake2 sig calloc (build_hash_table blake2 calloc sig)
unfolding build_hash_table
build_hash_table-BuildOk blake2 sig calloc checked small few = rw checked (
    build_from-BuildOk blake2 sig small checked calloc (hashtable_new calloc sig.count)
      (hashtable_new-NewOk (block_hash sig) calloc sig.count few))
