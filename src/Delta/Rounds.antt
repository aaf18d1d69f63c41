-- ===== src/Delta/Rounds.antt =====
-- src/delta.c: the rounds of the loops of rs_delta_s_scan and rs_delta_s_flush.
use librsync.Prelude.{
  ℕ, zero, suc, ◌+◌, ◌-◌, ◌%◌, ◌^◌, ◌≤◌, ◌<◌, ◌≡◌, refl, sym, ◌∙◌, arith, ltb, ◌==◌, ==→eq,
  Bool-cases, inl, inr, ◌&&◌, u64, sub64, sign_extend, if◌then◌else◌, Bool, false,
}
use librsync.Prelude.{List, Option, none, some, length, take, drop, length-take, length-drop}
use librsync.Result.{RsResult, done, is_done}
use mathlib.Core.Path.{subst}
use librsync.Checksum.{Weaksum, weaksum_count, weaksum_update}
use librsync.Sumset.{Signature}
use librsync.Delta.{
  DeltaVars, DeltaJob, searched, reset_sum, scan_step, findmatch, scan_round, scan_loop, flush_loop,
  roll_on, roll_out,
}
use librsync.Delta.Left.{Left, Blocks, appendmatch-Left, appendmiss-Left}
use librsync.Checksum.Count.{
  weaksum_count-update, weaksum_count-rotate, weaksum_count-rollout, weaksum_count-reset,
}
use librsync.Delta.SameBlocks.{SameBlocks, find_match-SameBlocks}

-- The conditions of the loops.
abbrev pub scans_on : ℕ → RsResult × DeltaJob → Bool
scans_on block_len (r, j) = is_done r && ltb ((j.vars.scan_pos + block_len) % u64) j.vars.scan_len

abbrev pub flushes_on : RsResult × DeltaJob → Bool
flushes_on (r, j) = is_done r && ltb j.vars.scan_pos j.vars.scan_len

module _ (blake2 : List ℕ → List ℕ) where
  module _ (b : ℕ) (some_b : 0 < b) (small_b : b < 2 ^ 31) where
    -- A job with `n` bytes left to scan, whose weak sum is of no more than these and a block.
    abbrev pub Scanning : ℕ → DeltaVars → Type 0
    Scanning n v = (c : ℕ) × Left b c n v × (c ≤ n) × (c ≤ b)

    -- What becomes of the weak sum at a miss with `n` bytes left to scan after it.
    abbrev pub RollsTo : ℕ → (DeltaVars → Weaksum) → Type 0
    RollsTo n roll =
        (c : ℕ) (v : DeltaVars)
        → weaksum_count v.weak_sum ≡ c
        → 0 < c
        → c ≤ suc n
        → c ≤ b
        → (c' : ℕ) × (weaksum_count (roll v) ≡ c') × (c' ≤ n) × (c' ≤ b)

    roll_on-RollsTo : (n : ℕ) → b ≤ n → RollsTo n (roll_on b)
    unfolding roll_on
    roll_on-RollsTo n room c v is some_c most few =
        (c, weaksum_count-rotate _ _ v.weak_sum ∙ is, omega arith, few)

    roll_out-RollsTo : (n : ℕ) → RollsTo n roll_out
    unfolding roll_out
    roll_out-RollsTo n c v is some_c most few = (
      c - 1,
      weaksum_count-rollout _ c v.weak_sum is some_c (omega arith),
      omega arith,
      omega arith,
    )

    searched-Left :
        (sig : Signature) (r : Option (Signature × ℕ)) (c n : ℕ) (j : DeltaJob)
        → sig.block_len ≡ b
        → SameBlocks sig r
        → Left b c n j.vars
        → Left b c n (searched r j).0.vars
    unfolding searched SameBlocks
    searched-Left sig none c n j is same s = s
    searched-Left sig (some (sig', p)) c n j is same s = (same ∙ is, s.1, s.2, s.3, s.4)

    scan_step-Scanning :
        (roll : DeltaVars → Weaksum) (j : DeltaJob) (pos c n : ℕ)
        → RollsTo n roll
        → Left b c (suc n) j.vars
        → 0 < c
        → c ≤ suc n
        → c ≤ b
        → (n' : ℕ) × (n' ≤ n) × Scanning n' (scan_step roll (j, pos, c)).1.vars
    unfolding scan_step reset_sum
    scan_step-Scanning roll j pos c n rolls s some_c most few =
        let (c', is, most', few') = rolls c j.vars s.1 some_c most few in
        elim (Bool-cases (pos == u64 - 1)) [
          | inl missed ↦ rw missed (
            suc n - 1,
            omega arith,
            (
              c',
              appendmiss-Left b c' (suc n) 1
                  (record j { vars = record (j.vars) { weak_sum = roll j.vars } }) (omega arith)
                  (s.0, is, s.2, s.3, s.4),
              omega (arith, most'),
              few',
            ),
          )
          | inr matched ↦
              let m = appendmatch-Left b c (suc n) pos c j most s in
              rw matched (
                suc n - c,
                omega arith,
                (0, (m.0, weaksum_count-reset _, m.2, m.3, m.4), omega arith, omega arith),
              )
        ]

    -- A search leaves a weak sum of one byte at least, as many as it gives for the length.
    findmatch-Left :
        (sig : Signature) (j : DeltaJob) (c n : ℕ)
        → sig.block_len ≡ b
        → Left b c (suc n) j.vars
        → c ≤ suc n
        → c ≤ b
        → Left b (findmatch blake2 sig j).2 (suc n) (findmatch blake2 sig j).0.vars
          × (0 < (findmatch blake2 sig j).2)
          × ((findmatch blake2 sig j).2 ≤ suc n)
          × ((findmatch blake2 sig j).2 ≤ b)
    unfolding findmatch
    findmatch-Left sig j c n is s most few =
        elim (Bool-cases (weaksum_count j.vars.weak_sum == 0)) [
          | inl fresh ↦ rw fresh (
            searched-Left sig _ m (suc n)
                (record j {
                  vars = record (j.vars) {
                    weak_sum = weaksum_update (take m scan) j.vars.weak_sum;
                  };
                })
                is (find_match-SameBlocks blake2 sig _ _)
                (s.0, updated (==→eq _ _ fresh), s.2, s.3, s.4),
            ground (arith, left_is, is),
            ground (arith, left_is, is),
            ground (arith, left_is, is),
          )
          | inr rolled ↦ rw rolled (
            searched-Left sig _ (weaksum_count j.vars.weak_sum) (suc n) j is
                (find_match-SameBlocks blake2 sig _ _) (s.0, refl, s.2, s.3, s.4),
            ground (arith, rolled),
            omega (arith, s.1),
            omega (arith, s.1),
          )
        ]
      where
        scan : List ℕ
        scan = drop j.vars.scan_pos j.vars.scan_buf

        left : ℕ
        left = sub64 j.vars.scan_len j.vars.scan_pos

        left_is : left ≡ suc n
        left_is = omega (arith, s.2, s.3)

        m : ℕ
        m = if ltb (sign_extend sig.block_len) left then sign_extend sig.block_len else left

        updated :
            weaksum_count j.vars.weak_sum ≡ 0
            → weaksum_count (weaksum_update (take m scan) j.vars.weak_sum) ≡ m
        updated zeroed =
            weaksum_count-update (take m scan) j.vars.weak_sum
            ∙ ground (
              arith,
              zeroed,
              left_is,
              is,
              s.2,
              s.3,
              s.4,
              length-take m scan,
              length-drop j.vars.scan_pos j.vars.scan_buf,
            )

    scan_round-Scanning :
        (roll : DeltaVars → Weaksum) (o : Option Signature) (j : DeltaJob) (n : ℕ)
        → RollsTo n roll
        → j.vars.signature ≡ o
        → Scanning (suc n) j.vars
        → (n' : ℕ) × (n' ≤ n) × Scanning n' (scan_round blake2 roll o j).1.vars
    unfolding scan_round
    scan_round-Scanning roll none j n rolls is s = absurd (subst (Blocks b) is s.1.0)
    scan_round-Scanning roll (some sig) j n rolls is s =
        let f = findmatch-Left sig j s.0 n (subst (Blocks b) is s.1.0) s.1 s.2 s.3 in
        scan_step-Scanning roll (findmatch blake2 sig j).0 (findmatch blake2 sig j).1
          (findmatch blake2 sig j).2 n rolls f.0 f.1 f.2 f.3

    one_left : (n : ℕ) (j : DeltaJob) → 0 < n → Scanning n j.vars → Scanning (suc (n - 1)) j.vars
    one_left n j some_n s = subst (λ n. Scanning n j.vars) (omega arith) s

    scan_loop_ends :
        (fuel n : ℕ) (p : RsResult × DeltaJob)
        → n ≤ fuel
        → Scanning n p.1.vars
        → scans_on b (scan_loop blake2 fuel b p) ≡ false
    unfolding scan_loop
    scan_loop_ends zero n (r, j) le s = ground (arith, s.1.2, s.1.3, le)
    scan_loop_ends (suc fuel) n (r, j) le s = elim (Bool-cases (scans_on b (r, j))) [
      | inr stops ↦ rw stops stops
      | inl goes ↦ rw goes (
          let (n', le', s') =
            scan_round-Scanning (roll_on b) j.vars.signature j (n - 1)
              (roll_on-RollsTo (n - 1) (ground (arith, s.1.2, s.1.3, goes))) refl
              (one_left n j (ground (arith, s.1.2, s.1.3, goes)) s) in
          scan_loop_ends fuel n' (scan_round blake2 (roll_on b) j.vars.signature j)
            (omega (arith, le, le')) s')
    ]

    flush_loop_ends :
        (fuel n : ℕ) (p : RsResult × DeltaJob)
        → n ≤ fuel
        → Scanning n p.1.vars
        → flushes_on (flush_loop blake2 fuel p) ≡ false
    unfolding flush_loop
    flush_loop_ends zero n (r, j) le s = ground (arith, s.1.2, le)
    flush_loop_ends (suc fuel) n (r, j) le s = elim (Bool-cases (flushes_on (r, j))) [
      | inr stops ↦ rw stops stops
      | inl goes ↦ rw goes (
          let (n', le', s') =
            scan_round-Scanning roll_out j.vars.signature j (n - 1) (roll_out-RollsTo (n - 1)) refl
              (one_left n j (ground (arith, s.1.2, goes)) s) in
          flush_loop_ends fuel n' (scan_round blake2 roll_out j.vars.signature j)
            (omega (arith, le, le')) s')
    ]

-- The loops of rs_delta_s_scan and rs_delta_s_flush, in a job with a signature whose block length
-- is a positive int, where the scanned position is not behind the length to scan, that length is
-- below 2^63 and no more than the bytes at scan_buf, and the weak sum has rolled over no more bytes
-- than are left to scan and than a block has, are at their end after scan_len rounds: the result is
-- not RS_DONE or the condition on the position is false.
pub loops_end :
    (blake2 : List ℕ → List ℕ) (sig : Signature) (j : DeltaJob)
    → j.vars.signature ≡ some sig
    → 0 < sig.block_len
    → sig.block_len < 2 ^ 31
    → j.vars.scan_pos ≤ j.vars.scan_len
    → j.vars.scan_len < 2 ^ 63
    → j.vars.scan_len ≤ length j.vars.scan_buf
    → weaksum_count j.vars.weak_sum ≤ j.vars.scan_len - j.vars.scan_pos
    → weaksum_count j.vars.weak_sum ≤ sig.block_len
    → (scans_on sig.block_len (scan_loop blake2 j.vars.scan_len sig.block_len (done, j)) ≡ false)
      × (flushes_on (flush_loop blake2 j.vars.scan_len (done, j)) ≡ false)
loops_end blake2 sig j is some_b small inside short there most few = (
  scan_loop_ends blake2 sig.block_len some_b small j.vars.scan_len n (done, j) (omega arith)
      scanning,
  flush_loop_ends blake2 sig.block_len some_b small j.vars.scan_len n (done, j) (omega arith)
      scanning,
)
  where
    n : ℕ
    n = j.vars.scan_len - j.vars.scan_pos

    scanning : Scanning blake2 sig.block_len some_b small n j.vars
    scanning = (
      weaksum_count j.vars.weak_sum,
      (subst (Blocks sig.block_len) (sym is) refl, refl, omega arith, short, there),
      most,
      few,
    )
