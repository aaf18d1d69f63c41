-- ===== src/Tests/Matching.antt =====
-- A signature of two blocks with its hash table.
use librsync.Prelude.{
  ℕ, false, zero, suc, sym, ◌≡◌, ◌<◌, refl, arith, u32, Bool, true, List, [], ◌∷◌, Option, none,
  some, ap, ◌∙◌,
}
use librsync.Result.{RsResult, done}
use librsync.Hashtable.{
  HashTable, hashtable_new, hashtable_add, hashtable_find, next_size, new_of_size, allocated,
  setbloom, set_bit, nozero, probe, next_index, add_at, stats_init, find_loop, find_bucket,
  find_entry, find_compared, getbloom, get_bit,
}
use librsync.Sumset.{signature_check, sig_args_check, table_check, Signature, weaksum_kind}
use librsync.Sumset.Match.{
  block_hash, build_hash_table, signature_find_match, match_of_block, same_bytes, with_strong_sum,
  block_match_cmp, table_of, add_unless, build_block, build_blocks, built, build_from,
}
use librsync.Sumset.Match.Build.{Built}
use librsync.Sumset.Match.Table.{BuildOk, no_memory, table_built, build_hash_table-BuildOk}
use librsync.Sumset.Match.Lookup.{MatchOk, signature_find_match-MatchOk}
use mathlib.Core.Path.{subst}
use librsync.Io.{new_io}
use librsync.Stats.{no_stats}
use librsync.Checksum.{weaksum_count, rs_rabinkarp, kind_of, weaksum_init, weaksum_update}
use librsync.RabinKarp.{rabinkarp_update, rabinkarp_init}
use librsync.Checksum.Rolling.{weaksum_init-Covers, weaksum_update-Covers}
use librsync.Delta.{DeltaJob, s_flush, findmatch, scan_loop, flush_loop}
use librsync.Delta.Rounds.{scans_on, flushes_on, loops_end}
use librsync.Delta.Match.{FoundMatch, findmatch-FoundMatch}

abbrev table : HashTable ℕ
table = record {
  size = 4;
  count = 2;
  tmask = 3;
  bshift = 30;
  find_count = 0;
  match_count = 0;
  hashcmp_count = 0;
  entrycmp_count = 0;
  kbloom = 1 ∷ [];
  etable = none ∷ some 0 ∷ some 1 ∷ none ∷ [];
  ktable = 0 ∷ 5 ∷ 9 ∷ 0 ∷ [];
}

abbrev signature : Signature
signature = record {
  magic = 0x72730147;
  block_len = 2048;
  strong_sum_len = 2;
  count = 2;
  size = 16;
  block_sigs =
      (record { weak_sum = 5; strong_sum = 1 ∷ 2 ∷ [] })
      ∷ (record { weak_sum = 9; strong_sum = 3 ∷ 4 ∷ [] })
      ∷ [];
  hashtable = some table;
  calc_strong_count = 0;
}

abbrev strong_sum : List ℕ → List ℕ
strong_sum buf = 3 ∷ 4 ∷ []

abbrev enough_memory : ℕ → Bool
enough_memory n = true

signature-checked : signature_check signature ≡ true
unfolding signature_check sig_args_check table_check
signature-checked = refl

weak_sums_lt : (idx : ℕ) → block_hash signature idx < u32
weak_sums_lt zero = omega arith
weak_sums_lt (suc zero) = omega arith
weak_sums_lt (suc (suc idx)) = omega arith

build_hash_table-BuildOk_example :
    BuildOk strong_sum signature enough_memory (build_hash_table strong_sum enough_memory signature)
build_hash_table-BuildOk_example =
    build_hash_table-BuildOk strong_sum signature enough_memory signature-checked weak_sums_lt
      (omega arith)

table_in : Option (RsResult × Signature) → Option (HashTable ℕ)
table_in none = none
table_in (some (r, sig)) = sig.hashtable

some_inj : {t t' : HashTable ℕ} → some t ≡ some t' → t ≡ t'
some_inj e = cc

from_build :
    (r : Option (RsResult × Signature))
    → BuildOk strong_sum signature enough_memory r
    → table_in r ≡ some table
    → Built strong_sum signature 2 table
unfolding table_in
from_build r (no_memory _ n refused same) is = absurd (cc (sym (ap table_in same) ∙ is))
from_build r (table_built _ t b same _) is =
    subst (Built strong_sum signature 2) (some_inj (sym (ap table_in same) ∙ is)) b

table-Built : Built strong_sum signature 2 table
unfolding signature_check sig_args_check table_check build_hash_table build_from build_blocks
    build_block add_unless table_of built stats_init hashtable_new new_of_size next_size allocated
    hashtable_add setbloom set_bit nozero probe next_index add_at hashtable_find find_loop
    find_bucket find_entry find_compared getbloom get_bit match_of_block block_match_cmp
    with_strong_sum same_bytes table_in
table-Built =
    from_build _
      (build_hash_table-BuildOk strong_sum signature enough_memory signature-checked weak_sums_lt
        (omega arith))
      refl

signature_find_match-MatchOk_example :
    MatchOk strong_sum signature table 9
      (7 ∷ 8 ∷ [])
      (signature_find_match strong_sum signature 9 (7 ∷ 8 ∷ []))
signature_find_match-MatchOk_example =
    signature_find_match-MatchOk strong_sum signature table 9 (7 ∷ 8 ∷ []) signature-checked
      table-Built refl (omega arith)

-- A delta job whose weak sum covers the two bytes that are left.
abbrev window : List ℕ
window = 7 ∷ 8 ∷ []

abbrev scanning : DeltaJob
scanning = record {
  io = new_io [] true 0;
  statefn = some s_flush;
  final_result = done;
  stats = no_stats;
  vars = record {
    signature = some signature;
    weak_sum = weaksum_update window (weaksum_init rs_rabinkarp);
    scan_buf = 6 ∷ 7 ∷ 8 ∷ [];
    scan_len = 3;
    scan_pos = 1;
    basis_pos = 0;
    basis_len = 0;
  };
}

findmatch-FoundMatch_example :
    FoundMatch strong_sum signature table scanning (findmatch strong_sum signature scanning)
unfolding weaksum_update weaksum_init kind_of weaksum_kind
findmatch-FoundMatch_example =
    findmatch-FoundMatch strong_sum signature table scanning window signature-checked table-Built
      refl
      (weaksum_update-Covers [] window (weaksum_init rs_rabinkarp) (omega arith)
        (weaksum_init-Covers rs_rabinkarp))
      refl (omega arith) refl refl (omega arith) (omega arith)

loops_end_example :
    (scans_on 2048 (scan_loop strong_sum 3 2048 (done, scanning)) ≡ false)
    × (flushes_on (flush_loop strong_sum 3 (done, scanning)) ≡ false)
unfolding weaksum_count weaksum_update weaksum_init rabinkarp_update rabinkarp_init
loops_end_example =
    loops_end strong_sum signature scanning refl (omega arith) (omega arith) (omega arith)
      (omega arith) (omega arith) (omega arith) (omega arith)
