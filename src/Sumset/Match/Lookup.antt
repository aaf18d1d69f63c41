-- ===== src/Sumset/Match/Lookup.antt =====
-- src/sumset.c: rs_signature_find_match answers with a block that has the sums looked for, if there is
-- one.
use librsync.Prelude.{
  ℕ, ◌+◌, ◌-◌, ◌*◌, ◌≤◌, ◌<◌, ◌≡◌, refl, sym, ap, ◌∙◌, arith, u32, u64, true, false,
}
use librsync.Prelude.{List, get_or, take, Option, none, some}
use librsync.Prelude.Slices.{take-take}
use librsync.Hashtable.{HashTable, Found, nozero}
use librsync.Hashtable.Find.{Answer, answered, unanswered, FindOk, hashtable_find-FindOk}
use librsync.Hashtable.Counters.{SameTable}
use librsync.Sumset.Blocks.{table-checked}
use librsync.Sumset.{signature_check, Signature, signature_calc_strong_sum}
use librsync.Sumset.Match.{
  BlockMatch, block_at, block_hash, block_match_cmp, match_of_buf, same_bytes, found_at, find_in,
  signature_find_match,
}
use librsync.Sumset.Match.Compare.{
  StandsFor, strong_matches, same_bytes→eq, same_bytes_refl, block_match_cmp-StandsFor,
  match_of_buf-StandsFor,
}
use librsync.Sumset.Match.Build.{Built, key_of_entry, counted-Built, SameTable-Built}
use mathlib.Core.Path.{subst}

module _ (blake2 : List ℕ → List ℕ) (sig : Signature) where
  -- The block of index `idx` has the weak sum, as the hash table keeps it, and the strong sum of `buf`.
  pub record SameSums (weak_sum : ℕ) (buf : List ℕ) (idx : ℕ) : Type 0 where
    pub weak : nozero (block_hash sig idx) ≡ nozero weak_sum
    pub strong :
        take sig.strong_sum_len (block_at sig idx).strong_sum
        ≡ take sig.strong_sum_len (signature_calc_strong_sum blake2 sig buf)

  -- The position that rs_signature_find_match returns.
  pub data Position (weak_sum : ℕ) (buf : List ℕ) : ℕ → Type 0 where
    block :
        (pos idx : ℕ)
        → idx < sig.count
        → SameSums weak_sum buf idx
        → pos ≡ idx * sig.block_len
        → Position weak_sum buf pos
    no_block :
        (pos : ℕ)
        → ((idx : ℕ) → idx < sig.count → SameSums weak_sum buf idx → ⊥)
        → pos ≡ u64 - 1
        → Position weak_sum buf pos

  -- What rs_signature_find_match leaves of a signature with the table `t`.
  pub record MatchOk (t : HashTable ℕ) (weak_sum : ℕ) (buf : List ℕ) (r : Option (Signature × ℕ))
      : Type 0 where
    pub table : HashTable ℕ
    pub calcs : ℕ
    pub pos : ℕ
    pub returns : r ≡ some (record sig { hashtable = some table; calc_strong_count = calcs }, pos)
    pub once : calcs ≤ sig.calc_strong_count + 1
    pub still : Built blake2 sig sig.count table
    pub same : SameTable (record t { find_count = t.find_count + 1 }) table
    pub checked :
        signature_check (record sig { hashtable = some table; calc_strong_count = calcs }) ≡ true
    pub position : Position weak_sum buf pos

  module _ (weak_sum : ℕ) (buf : List ℕ) (t : HashTable ℕ) (b : Built blake2 sig sig.count t)
      (checked : signature_check sig ≡ true) where
    abbrev FindDone : Found ℕ BlockMatch → Type 0
    FindDone =
        FindOk (block_match_cmp blake2 sig)
          (StandsFor blake2 sig (signature_calc_strong_sum blake2 sig buf)
            (sig.calc_strong_count + 1))
          (strong_matches blake2 sig (signature_calc_strong_sum blake2 sig buf))
          (block_match_cmp-StandsFor blake2 sig (signature_calc_strong_sum blake2 sig buf)
            (sig.calc_strong_count + 1))
          (record t { find_count = t.find_count + 1 }) (nozero weak_sum)

    abbrev Answered : Option ℕ → Type 0
    Answered =
        Answer (block_match_cmp blake2 sig)
          (StandsFor blake2 sig (signature_calc_strong_sum blake2 sig buf)
            (sig.calc_strong_count + 1))
          (strong_matches blake2 sig (signature_calc_strong_sum blake2 sig buf))
          (block_match_cmp-StandsFor blake2 sig (signature_calc_strong_sum blake2 sig buf)
            (sig.calc_strong_count + 1))
          (record t { find_count = t.find_count + 1 }) (nozero weak_sum)

    -- No entry matches, so no block has the sums: each has an entry with the same sums.
    none_there :
        ((p e : ℕ)
          → get_or t.ktable p 0 ≡ nozero weak_sum
          → get_or t.etable p none ≡ some e
          → strong_matches blake2 sig (signature_calc_strong_sum blake2 sig buf) e ≡ false)
        → (idx : ℕ) → idx < sig.count
        → SameSums weak_sum buf idx
        → ⊥
    none_there nothing idx lt s = absurd (cc (sym yes_matched ∙ nothing p e key here))
      where
        p : ℕ
        p = (b.covers idx lt).0

        e : ℕ
        e = (b.covers idx lt).1

        here : get_or t.etable p none ≡ some e
        here = (b.covers idx lt).2

        key : get_or t.ktable p 0 ≡ nozero weak_sum
        key = key_of_entry blake2 sig b p e here ∙ (b.covers idx lt).3 ∙ s.weak

        equal :
            take sig.strong_sum_len (signature_calc_strong_sum blake2 sig buf)
            ≡ take sig.strong_sum_len (block_at sig e).strong_sum
        equal =
            sym s.strong
            ∙ sym (
                take-take sig.strong_sum_len sig.strong_sum_len (block_at sig idx).strong_sum
                  (omega arith))
            ∙ same_bytes→eq _ _ (b.covers idx lt).4

        yes_matched : strong_matches blake2 sig (signature_calc_strong_sum blake2 sig buf) e ≡ true
        yes_matched =
            subst
              (λ l.
                same_bytes (take sig.strong_sum_len (signature_calc_strong_sum blake2 sig buf)) l
                ≡ true)
              equal (same_bytes_refl _)

    answer-Position :
        (o : Option ℕ)
        → Answered o
        → (pos : ℕ) × Position weak_sum buf pos
          × ((u : HashTable ℕ) (m : BlockMatch)
              → found_at sig (some (u, m, o))
                ≡ some (
                  record sig { hashtable = some u; calc_strong_count = m.calc_strong_count },
                  pos,
                ))
    unfolding found_at
    answer-Position o (answered e p key here matched) = (
      e * sig.block_len,
      block _ e (b.among p e here)
          (record {
            weak = sym (key_of_entry blake2 sig b p e here) ∙ key;
            strong = sym (same_bytes→eq _ _ matched);
          })
          refl,
      λ u m. refl,
    )
    answer-Position o (unanswered nothing) =
        (u64 - 1, no_block _ (none_there nothing) refl, λ u m. refl)

    found-MatchOk : (r : Found ℕ BlockMatch) → FindDone r → MatchOk t weak_sum buf (found_at sig r)
    found-MatchOk r f =
        let (pos, position, returns) = answer-Position f.entry f.answer in
        record {
          table = f.table;
          calcs = f.match_state.calc_strong_count;
          pos = pos;
          returns = ap (found_at sig) f.ended ∙ returns f.table f.match_state;
          once = omega (arith, f.good.1);
          still =
              SameTable-Built blake2 sig sig.count (record t { find_count = t.find_count + 1 })
                f.table f.same f.counts (counted-Built blake2 sig sig.count t b);
          same = f.same;
          checked =
              table-checked sig f.table f.match_state.calc_strong_count checked
                (omega (arith, f.same.count, b.few));
          position = position;
        }

    find_in-MatchOk :
        weak_sum < u32 → MatchOk t weak_sum buf (find_in blake2 sig weak_sum buf (some t))
    unfolding find_in
    find_in-MatchOk small = found-MatchOk _ (
        hashtable_find-FindOk (block_match_cmp blake2 sig)
          (StandsFor blake2 sig (signature_calc_strong_sum blake2 sig buf)
            (sig.calc_strong_count + 1))
          (strong_matches blake2 sig (signature_calc_strong_sum blake2 sig buf))
          (block_match_cmp-StandsFor blake2 sig (signature_calc_strong_sum blake2 sig buf)
            (sig.calc_strong_count + 1))
          (block_hash sig) b.bits t weak_sum (match_of_buf sig weak_sum buf) b.valid b.counts small
          (match_of_buf-StandsFor blake2 sig weak_sum buf))

-- rs_signature_find_match on a signature that passes rs_signature_check and has the hash table of
-- all its blocks, for a weak sum that is an unsigned: it ends, and the signature changes only in
-- the counters: the buckets, the keys and the filter of the table are the same, one more search is
-- counted, the strong sum is calculated once at most, the table stays valid and the signature
-- passes rs_signature_check as before. The answer is the position of a block with the strong sum of
-- the buffer and the weak sum looked for, or -1 if no block has both; of the weak sums, zero and
-- 2^32 - 1 count as equal.
pub signature_find_match-MatchOk :
    (blake2 : List ℕ → List ℕ) (sig : Signature) (t : HashTable ℕ) (weak_sum : ℕ) (buf : List ℕ)
    → signature_check sig ≡ true
    → Built blake2 sig sig.count t
    → sig.hashtable ≡ some t
    → weak_sum < u32
    → MatchOk blake2 sig t weak_sum buf (signature_find_match blake2 sig weak_sum buf)
unfolding signature_find_match
signature_find_match-MatchOk blake2 sig t weak_sum buf checked b there small = rw checked (
    subst (λ o. MatchOk blake2 sig t weak_sum buf (find_in blake2 sig weak_sum buf o)) (sym there)
      (find_in-MatchOk blake2 sig weak_sum buf t b checked small))
