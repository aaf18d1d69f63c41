-- ===== src/Delta/Match.antt =====
-- src/delta.c: what rs_findmatch finds, where the weak sum has rolled over the data.
use librsync.Prelude.{
  ℕ, ◌^◌, ◌≤◌, ◌<◌, ◌≡◌, refl, sym, ap, ◌∙◌, arith, u32, u64, sub64, sign_extend, ◌+◌, ltb, ◌==◌,
  ==→eq, Bool-cases, inl, inr, if◌then◌else◌,
}
use librsync.Prelude.{
  List, [], ◌∷◌, length, take, drop, Option, some, length-take, length-drop, true,
}
use librsync.Hashtable.{HashTable}
use librsync.Checksum.{
  WeaksumKind, rs_rollsum, rs_rabinkarp, Weaksum, rs, rk, kind_of, weaksum_count, weaksum_update,
  weaksum_digest, calc_weak_sum,
}
use librsync.Checksum.Rolling.{Covers, Short, mixed, weaksum_digest-calc, weaksum_update-Covers}
use librsync.Checksum.Width.{calc_weak_sum-lt, mix32-lt}
use librsync.Sumset.{Signature, weaksum_kind, signature_check}
use librsync.Sumset.Blocks.{checked-block_len}
use librsync.Hashtable.Counters.{SameTable}
use librsync.Sumset.Match.{signature_find_match}
use librsync.Sumset.Match.Build.{Built}
use librsync.Sumset.Match.Lookup.{MatchOk, Position, signature_find_match-MatchOk}
use librsync.Delta.{DeltaJob, findmatch, searched}
use mathlib.Core.Path.{subst}

-- The weak sum that a signature keeps of a block with the bytes `buf`.
abbrev pub stored_sum : Signature → List ℕ → ℕ
stored_sum sig buf = mixed (weaksum_kind sig) (calc_weak_sum (weaksum_kind sig) buf)

mixed-lt : (k : WeaksumKind) (n : ℕ) → n < u32 → mixed k n < u32
unfolding mixed
mixed-lt rs_rollsum n lt = mix32-lt n lt
mixed-lt rs_rabinkarp n lt = lt

stored_sum-lt : (sig : Signature) (buf : List ℕ) → stored_sum sig buf < u32
stored_sum-lt sig buf = mixed-lt (weaksum_kind sig) _ (calc_weak_sum-lt (weaksum_kind sig) buf)

digest-stored_sum :
    (sig : Signature) (window : List ℕ) (sum : Weaksum)
    → Short window
    → Covers window sum
    → kind_of sum ≡ weaksum_kind sig
    → weaksum_digest sum ≡ stored_sum sig window
digest-stored_sum sig window sum short covers kind =
    weaksum_digest-calc window sum short covers ∙ ap (λ k. mixed k (calc_weak_sum k window)) kind

count-Covers :
    (window : List ℕ) (sum : Weaksum)
    → Short window
    → Covers window sum
    → weaksum_count sum ≡ length window
unfolding weaksum_count
count-Covers window (rs sum) short v = omega (arith, v.count_is, short)
count-Covers window (rk sum) short v = omega (arith, v.count_is, short)

kind_of-update : (buf : List ℕ) (sum : Weaksum) → kind_of (weaksum_update buf sum) ≡ kind_of sum
unfolding kind_of weaksum_update
kind_of-update buf (rs sum) = refl
kind_of-update buf (rk sum) = refl

none_left : (window : List ℕ) → length window ≡ 0 → window ≡ []
none_left [] h = refl
none_left (b ∷ window) h = absurd (omega arith)

-- The data that is not scanned yet.
abbrev pub to_scan : DeltaJob → List ℕ
to_scan j = drop j.vars.scan_pos j.vars.scan_buf

module _ (blake2 : List ℕ → List ℕ) (sig : Signature) (t : HashTable ℕ) where
  -- What rs_findmatch leaves: a position and a length of the data to scan, which the weak sum covers,
  -- such that the position is of a block with the sums of that data, or -1 if there is none.
  pub record FoundMatch (j : DeltaJob) (r : DeltaJob × ℕ × ℕ) : Type 0 where
    pub inside : r.2 ≤ length (to_scan j)
    pub covers : Covers (take r.2 (to_scan j)) r.0.vars.weak_sum
    pub same_kind : kind_of r.0.vars.weak_sum ≡ weaksum_kind sig
    pub position :
        Position blake2 sig (stored_sum sig (take r.2 (to_scan j))) (take r.2 (to_scan j)) r.1
    pub table : HashTable ℕ
    pub calcs : ℕ
    pub still : Built blake2 sig sig.count table
    pub same : SameTable (record t { find_count = t.find_count + 1 }) table
    pub checked :
        signature_check (record sig { hashtable = some table; calc_strong_count = calcs }) ≡ true
    pub signature :
        r.0.vars.signature ≡ some (record sig { hashtable = some table; calc_strong_count = calcs })
    pub same_io : r.0.io ≡ j.io

  module _ (checked : signature_check sig ≡ true) (b : Built blake2 sig sig.count t)
      (there : sig.hashtable ≡ some t) (j : DeltaJob) where
    abbrev with_sum : Weaksum → DeltaJob
    with_sum weak_sum = record j { vars = record (j.vars) { weak_sum = weak_sum } }

    search-FoundMatch :
        (n : ℕ) (weak_sum : Weaksum) (r : Option (Signature × ℕ))
        → n ≤ length (to_scan j)
        → Covers (take n (to_scan j)) weak_sum
        → kind_of weak_sum ≡ weaksum_kind sig
        → MatchOk blake2 sig t (stored_sum sig (take n (to_scan j))) (take n (to_scan j)) r
        → FoundMatch j ((searched r (with_sum weak_sum)).0, (searched r (with_sum weak_sum)).1, n)
    unfolding searched
    search-FoundMatch n weak_sum r le covers kind m =
        subst
          (λ r.
            FoundMatch j
              ((searched r (with_sum weak_sum)).0, (searched r (with_sum weak_sum)).1, n))
          (sym m.returns)
          (record {
            inside = le;
            covers = covers;
            same_kind = kind;
            position = m.position;
            table = m.table;
            calcs = m.calcs;
            still = m.still;
            same = m.same;
            checked = m.checked;
            signature = refl;
            same_io = refl;
          })

    searched-FoundMatch :
        (n : ℕ) (weak_sum : Weaksum)
        → n ≤ length (to_scan j)
        → n < 2 ^ 31
        → Covers (take n (to_scan j)) weak_sum
        → kind_of weak_sum ≡ weaksum_kind sig
        → FoundMatch j (
          (searched
              (signature_find_match blake2 sig (weaksum_digest weak_sum) (take n (to_scan j)))
              (with_sum weak_sum)).0,
          (searched
              (signature_find_match blake2 sig (weaksum_digest weak_sum) (take n (to_scan j)))
              (with_sum weak_sum)).1,
          n,
        )
    searched-FoundMatch n weak_sum le small covers kind =
        search-FoundMatch n weak_sum _ le covers kind (
          subst
            (λ s.
              MatchOk blake2 sig t (stored_sum sig (take n (to_scan j))) (take n (to_scan j))
                (signature_find_match blake2 sig s (take n (to_scan j))))
            (sym (
              digest-stored_sum sig (take n (to_scan j)) weak_sum
                (omega (arith, length-take n (to_scan j), small)) covers kind))
            (signature_find_match-MatchOk blake2 sig t _ (take n (to_scan j)) checked b there
              (stored_sum-lt sig (take n (to_scan j)))))

-- rs_findmatch for a signature that passes rs_signature_check and has the hash table of its blocks,
-- in a job that has scanned no more than the data it has, less than 2^64 bytes, and whose weak sum,
-- of the kind of the signature, covers a front, empty or not, of the data to scan, shorter than
-- 2^31 bytes: the match length lies in that data, and the weak sum then covers as much of it; the
-- position is that of a block whose strong sum is that of this data and whose weak sum is what
-- rs_signature_add_block stores for it, or -1 if there is none, where of the weak sums zero and
-- 2^32 - 1 count as equal; the signature changes only in the counters of the table and of the
-- strong sums, the table stays valid, the signature passes rs_signature_check as before, and the
-- stream is left alone.
pub findmatch-FoundMatch :
    (blake2 : List ℕ → List ℕ) (sig : Signature) (t : HashTable ℕ) (j : DeltaJob) (window : List ℕ)
    → signature_check sig ≡ true
    → Built blake2 sig sig.count t
    → sig.hashtable ≡ some t
    → Covers window j.vars.weak_sum
    → kind_of j.vars.weak_sum ≡ weaksum_kind sig
    → Short window
    → take (length window) (to_scan j) ≡ window
    → j.vars.scan_len ≡ length j.vars.scan_buf
    → j.vars.scan_len < u64
    → j.vars.scan_pos ≤ j.vars.scan_len
    → FoundMatch blake2 sig t j (findmatch blake2 sig j)
unfolding findmatch
findmatch-FoundMatch blake2 sig t j window checked b there covers kind short front all small
      inside =
    elim (Bool-cases (weaksum_count j.vars.weak_sum == 0)) [
      | inl fresh ↦ rw fresh (
          searched-FoundMatch blake2 sig t checked b there j n
            (weaksum_update (take n (to_scan j)) j.vars.weak_sum)
            (ground (arith, length-drop j.vars.scan_pos j.vars.scan_buf, all, small, inside))
            n_small
            (weaksum_update-Covers [] (take n (to_scan j)) j.vars.weak_sum
              (omega (arith, length-take n (to_scan j), n_small))
              (subst (λ l. Covers l j.vars.weak_sum)
                (none_left window (omega (arith, count, ==→eq _ _ fresh))) covers))
            (kind_of-update (take n (to_scan j)) j.vars.weak_sum ∙ kind))
      | inr rolled ↦ rw rolled (
          searched-FoundMatch blake2 sig t checked b there j (weaksum_count j.vars.weak_sum)
            j.vars.weak_sum
            (omega (arith, count, ap length front, length-take (length window) (to_scan j)))
            (omega (arith, count, short))
            (subst (λ l. Covers l j.vars.weak_sum)
              (sym front ∙ ap (λ n. take n (to_scan j)) (sym count)) covers)
            kind)
    ]
  where
    n : ℕ
    n =
        if ltb (sign_extend sig.block_len) (sub64 j.vars.scan_len j.vars.scan_pos)
        then sign_extend sig.block_len
        else sub64 j.vars.scan_len j.vars.scan_pos

    n_small : n < 2 ^ 31
    n_small = ground (arith, (checked-block_len sig checked).1)

    count : weaksum_count j.vars.weak_sum ≡ length window
    count = count-Covers window j.vars.weak_sum short covers
