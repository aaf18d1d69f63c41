-- ===== src/Sumset/Match.antt =====
-- src/sumset.c: the match object and the hash table of a signature, rs_block_match_cmp,
-- rs_build_hash_table and rs_signature_find_match.
pub mod Compare
pub mod Build
pub mod Table
pub mod Lookup
use librsync.Prelude.{
  ℕ, zero, suc, ◌+◌, ◌-◌, ◌*◌, ◌^◌, u64, ◌==◌, ◌&&◌, if◌then◌else◌, Bool, true, false,
}
use librsync.Prelude.{List, [], ◌∷◌, take, get_or, Option, none, some}
use librsync.Result.{RsResult, done, mem_error}
use librsync.Hashtable.{HashTable, Found, hashtable_new, hashtable_add, hashtable_find, stats_init}
use librsync.Sumset.{signature_check, BlockSig, Signature, signature_calc_strong_sum}

-- `rs_block_match_t`; its signature is passed beside it, but for the counter of that signature that
-- the comparison changes.
pub record BlockMatch : Type 0 where
  pub weak_sum : ℕ
  pub strong_sum : List ℕ
  pub buf : Option (List ℕ)
  pub calc_strong_count : ℕ

-- `rs_block_match_init`, where the strong sum is known
unfoldable pub match_of_block : Signature → BlockSig → BlockMatch
match_of_block sig b = record {
  weak_sum = b.weak_sum;
  strong_sum = take sig.strong_sum_len b.strong_sum;
  buf = none;
  calc_strong_count = sig.calc_strong_count;
}

-- `rs_block_match_init`, where it is yet to be calculated
unfoldable pub match_of_buf : Signature → ℕ → List ℕ → BlockMatch
match_of_buf sig weak_sum buf = record {
  weak_sum = weak_sum;
  strong_sum = [];
  buf = some buf;
  calc_strong_count = sig.calc_strong_count;
}

-- `!memcmp(a, b, n)` of lists of `n` bytes
unfoldable pub same_bytes : List ℕ → List ℕ → Bool
same_bytes [] [] = true
same_bytes [] (y ∷ ys) = false
same_bytes (x ∷ xs) [] = false
same_bytes (x ∷ xs) (y ∷ ys) = (x == y) && same_bytes xs ys

-- An entry that is not there has no sums.
abbrev pub block_at : Signature → ℕ → BlockSig
block_at sig idx = get_or sig.block_sigs idx (record { weak_sum = 0; strong_sum = [] })

unfoldable pub with_strong_sum :
    (List ℕ → List ℕ) → Signature → BlockMatch → Option (List ℕ) → BlockMatch
with_strong_sum blake2 sig m none = m
with_strong_sum blake2 sig m (some buf) = record m {
  strong_sum = signature_calc_strong_sum blake2 sig buf;
  buf = none;
  calc_strong_count = m.calc_strong_count + 1;
}

-- `!rs_block_match_cmp(match, block_sig)`, for the block of index `idx`
unfoldable pub block_match_cmp : (List ℕ → List ℕ) → Signature → BlockMatch → ℕ → BlockMatch × Bool
block_match_cmp blake2 sig m0 idx =
    let m = with_strong_sum blake2 sig m0 m0.buf in
    (
      m,
      same_bytes (take sig.strong_sum_len m.strong_sum)
          (take sig.strong_sum_len (block_at sig idx).strong_sum),
    )

-- `rs_block_sig_hash`
abbrev pub block_hash : Signature → ℕ → ℕ
block_hash sig idx = (block_at sig idx).weak_sum

unfoldable pub table_of : Option (HashTable ℕ × Bool) → Option (HashTable ℕ)
table_of none = none
table_of (some (t, added)) = some t

unfoldable pub add_unless : Signature → ℕ → Found ℕ BlockMatch → Option (HashTable ℕ)
add_unless sig i none = none
add_unless sig i (some (t, m, some e)) = some t
add_unless sig i (some (t, m, none)) = table_of (hashtable_add (block_hash sig) t i)

-- One round of the loop of `rs_build_hash_table`.
unfoldable pub build_block : (List ℕ → List ℕ) → Signature → ℕ → HashTable ℕ → Option (HashTable ℕ)
build_block blake2 sig i t = add_unless sig i (
    hashtable_find (block_match_cmp blake2 sig) t (block_hash sig i)
      (match_of_block sig (block_at sig i)))

-- The loop, with `n` blocks left.
unfoldable pub build_blocks :
    (List ℕ → List ℕ) → Signature → ℕ → ℕ → Option (HashTable ℕ) → Option (HashTable ℕ)
build_blocks blake2 sig i n none = none
build_blocks blake2 sig i zero (some t) = some t
build_blocks blake2 sig i (suc n) (some t) =
    build_blocks blake2 sig (i + 1) n (build_block blake2 sig i t)

unfoldable pub built : Signature → Option (HashTable ℕ) → Option (RsResult × Signature)
built sig none = none
built sig (some t) = some (done, record sig { hashtable = some (stats_init t) })

unfoldable pub build_from :
    (List ℕ → List ℕ) → Signature → Option (HashTable ℕ) → Option (RsResult × Signature)
build_from blake2 sig none = some (mem_error, record sig { hashtable = none })
build_from blake2 sig (some t) = built sig (build_blocks blake2 sig 0 sig.count (some t))

-- `rs_build_hash_table`; `none` is a failed assertion, or would be a probe that does not end.
unfoldable pub build_hash_table :
    (List ℕ → List ℕ) → (ℕ → Bool) → Signature → Option (RsResult × Signature)
build_hash_table blake2 calloc sig =
    if signature_check sig then build_from blake2 sig (hashtable_new calloc sig.count) else none

unfoldable pub found_at : Signature → Found ℕ BlockMatch → Option (Signature × ℕ)
found_at sig none = none
found_at sig (some (t, m, some idx)) = some (
  record sig { hashtable = some t; calc_strong_count = m.calc_strong_count },
  idx * sig.block_len,
)
found_at sig (some (t, m, none)) =
    some (record sig { hashtable = some t; calc_strong_count = m.calc_strong_count }, u64 - 1)

unfoldable pub find_in :
    (List ℕ → List ℕ) → Signature → ℕ → List ℕ → Option (HashTable ℕ) → Option (Signature × ℕ)
find_in blake2 sig weak_sum buf none = none
find_in blake2 sig weak_sum buf (some t) =
    found_at sig
      (hashtable_find (block_match_cmp blake2 sig) t weak_sum (match_of_buf sig weak_sum buf))

-- `rs_signature_find_match`: the position of the block in its file, or -1; `none` is a failed assertion,
-- a signature with no hash table, or would be a probe that does not end.
unfoldable pub signature_find_match :
    (List ℕ → List ℕ) → Signature → ℕ → List ℕ → Option (Signature × ℕ)
signature_find_match blake2 sig weak_sum buf =
    if signature_check sig then find_in blake2 sig weak_sum buf sig.hashtable else none
