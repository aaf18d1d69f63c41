-- ===== src/Tests/Tables.antt =====
-- A hash table of four buckets, a signature of two blocks, and MD4.
use librsync.Prelude.{
  ℕ, ◌+◌, ◌-◌, ◌^◌, sym, ◌≡◌, ◌==◌, refl, arith, Bool, true, false, List, [], ◌∷◌, length, Option,
  none, some, ap, ◌∙◌,
}
use librsync.Hashtable.{
  HashTable, hashtable_new, hashtable_add, hashtable_find, hashtable_iter, setbloom, set_bit,
  nozero, probe, next_index, add_at,
}
use librsync.Hashtable.Triangle.{slot}
use librsync.Hashtable.Valid.{
  filled, IsValid, NewOk, new_table, new_table-IsValid, hashtable_new-NewOk,
}
use librsync.Hashtable.Probe.{FirstEmpty, probe_ends}
use librsync.Hashtable.Add.{AddOk, full, new_entry, hashtable_add-AddOk}
use librsync.Hashtable.Find.{FindOk, hashtable_find-FindOk}
use librsync.Hashtable.Iterate.{iterate, entries_of, iterate-entries_of}
use librsync.Mdfour.{
  mdfour, mdfour_begin, mdfour_update, mdfour_result, mdfour_tail, mdfour_block, mdfour64, words_le,
  fill_tail, update_after, take_blocks, keep_rest, put_tail, digest, copy4, copy8,
}
use librsync.Mdfour.Digest.{md4, update_all, joined, update_all-md4}
use mathlib.Core.Path.{subst}
use librsync.Prelude.{bit_and}

-- RFC 1320, appendix A.5.
mdfour_abc :
    mdfour (97 ∷ 98 ∷ 99 ∷ [])
    ≡ 0xa4 ∷ 0x48 ∷ 0x01 ∷ 0x7a ∷ 0xaf ∷ 0x21 ∷ 0xd8 ∷ 0x52 ∷ 0x5f ∷ 0xc1 ∷ 0x0a ∷ 0xe8 ∷ 0x7a
      ∷ 0xa6 ∷ 0x72 ∷ 0x9d ∷ []
unfolding mdfour mdfour_begin mdfour_update mdfour_result mdfour_tail mdfour_block mdfour64 words_le
    fill_tail update_after take_blocks keep_rest put_tail digest copy4 copy8
mdfour_abc = refl

update_all-md4_example :
    mdfour_result (update_all ((97 ∷ []) ∷ (98 ∷ 99 ∷ []) ∷ []) mdfour_begin)
    ≡ md4 (joined ((97 ∷ []) ∷ (98 ∷ 99 ∷ []) ∷ []))
update_all-md4_example = update_all-md4 ((97 ∷ []) ∷ (98 ∷ 99 ∷ []) ∷ [])

abbrev ktable : List ℕ
ktable = 0 ∷ 5 ∷ 9 ∷ 0 ∷ []

probe_ends_example :
    (m : ℕ) × FirstEmpty 2 ktable 13 m
    × (probe (2 ^ 2) ktable (2 ^ 2 - 1) (bit_and 13 (2 ^ 2 - 1)) 0 ≡ some (slot 2 13 m))
unfolding filled
probe_ends_example = probe_ends 2 ktable 13 (omega arith) refl (omega arith)

-- An entry is its own hash.
abbrev itself : ℕ → ℕ
itself e = e

abbrev enough_memory : ℕ → Bool
enough_memory n = true

hashtable_new-NewOk_example : NewOk itself enough_memory 100 (hashtable_new enough_memory 100)
hashtable_new-NewOk_example = hashtable_new-NewOk itself enough_memory 100 (omega arith)

abbrev one_entry : HashTable ℕ
one_entry = record {
  size = 4;
  count = 1;
  tmask = 3;
  bshift = 30;
  find_count = 0;
  match_count = 0;
  hashcmp_count = 0;
  entrycmp_count = 0;
  kbloom = 1 ∷ [];
  etable = none ∷ some 5 ∷ none ∷ none ∷ [];
  ktable = 0 ∷ 5 ∷ 0 ∷ 0 ∷ [];
}

-- The second entry meets the first, and goes on to the next bucket.
abbrev two_entries : HashTable ℕ
two_entries = record one_entry {
  count = 2;
  etable = none ∷ some 5 ∷ some 9 ∷ none ∷ [];
  ktable = ktable;
}

added_table : Option (HashTable ℕ × Bool) → Option (HashTable ℕ)
added_table none = none
added_table (some (t, false)) = none
added_table (some (t, true)) = some t

some_inj : {t t' : HashTable ℕ} → some t ≡ some t' → t ≡ t'
some_inj e = cc

grown-IsValid :
    (t : HashTable ℕ) (v : IsValid itself 2 t) (e : ℕ) (r : Option (HashTable ℕ × Bool))
    (t' : HashTable ℕ)
    → AddOk itself 2 t v e r
    → added_table r ≡ some t'
    → IsValid itself 2 t'
unfolding added_table
grown-IsValid t v e r t' (full _ _ same) is = absurd (cc (sym (ap added_table same) ∙ is))
grown-IsValid t v e r t' (new_entry _ u i _ same valid _ _ _ _ _ _) is =
    subst (IsValid itself 2) (some_inj (sym (ap added_table same) ∙ is)) valid

abbrev start : IsValid itself 2 (new_table itself 2)
start = new_table-IsValid itself 2 (omega arith) (omega arith)

one_entry-IsValid : IsValid itself 2 one_entry
unfolding hashtable_add new_table setbloom set_bit nozero probe next_index add_at added_table
one_entry-IsValid =
    grown-IsValid (new_table itself 2) start 5 _ one_entry
      (hashtable_add-AddOk itself 2 (new_table itself 2) start 5 (omega arith)) refl

hashtable_add-AddOk_example :
    AddOk itself 2 one_entry one_entry-IsValid 9 (hashtable_add itself one_entry 9)
hashtable_add-AddOk_example =
    hashtable_add-AddOk itself 2 one_entry one_entry-IsValid 9 (omega arith)

two_entries-IsValid : IsValid itself 2 two_entries
unfolding hashtable_add setbloom set_bit nozero probe next_index add_at added_table
two_entries-IsValid =
    grown-IsValid one_entry one_entry-IsValid 9 _ two_entries
      (hashtable_add-AddOk itself 2 one_entry one_entry-IsValid 9 (omega arith)) refl

iterate-entries_of_example :
    (iterate (4 + 1) two_entries (hashtable_iter two_entries) ≡ entries_of two_entries.etable)
    × (length (entries_of two_entries.etable) ≡ 2)
iterate-entries_of_example = iterate-entries_of itself 2 two_entries two_entries-IsValid

-- The match object is the entry looked for.
abbrev compare : ℕ → ℕ → ℕ × Bool
compare m e = (m, m == e)

abbrev LooksFor9 : ℕ → Type 0
LooksFor9 m = m ≡ 9

compare_lem : (m e : ℕ) → LooksFor9 m → LooksFor9 (compare m e).0 × ((compare m e).1 ≡ (9 == e))
compare_lem m e is = (is, ap (λ n. n == e) is)

hashtable_find-FindOk_example :
    FindOk compare LooksFor9
      (λ e. 9 == e)
      compare_lem
      (record two_entries { find_count = 1 })
      (nozero 9)
      (hashtable_find compare two_entries 9 9)
hashtable_find-FindOk_example =
    hashtable_find-FindOk compare LooksFor9 (λ e. 9 == e) compare_lem itself 2 two_entries 9 9
      two_entries-IsValid
      (record { matched = omega arith; compared = omega arith; called = omega arith }) (omega arith)
      refl
