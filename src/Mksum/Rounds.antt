-- ===== src/Mksum/Rounds.antt =====
-- src/mksum.c: the rounds of a signature job with the whole file in the caller's buffer.
use librsync.Prelude.{
  ℕ, zero, suc, ◌+◌, ◌-◌, ◌^◌, ◌≤◌, ◌<◌, ◌≡◌, refl, sym, ap, ◌∙◌, arith, true, false, if◌then◌else◌,
}
use librsync.Prelude.{
  List, [], ◌∷◌, ◌++◌, length, take, drop, length-append, length-drop, append_assoc, append-nil,
  none, some,
}
use librsync.Result.{done, is_done}
use librsync.Scoop.Queue.{input, IsValid}
use librsync.Tube.{tube_is_idle}
use librsync.Tube.Write.{flushed}
use librsync.Job.{again, job_check_result, job_call, job_round, job_work}
use librsync.Sumset.{Signature}
use librsync.Mksum.{s_generate, SigJob, sig_call, sig_s_generate}
use librsync.Mksum.Spec.{blocks_of, blocks_of-cons, block_sums, all_sums}
use librsync.Mksum.Generate.{BlockDone, FileDone, sig_s_generate-FileDone, sig_s_generate-BlockDone}
use librsync.Job.Rounds.{empty_tube_is_idle, job_round-flush, job_work-again, job_work-done}
use mathlib.Core.Path.{ap₂, subst}

-- A job in the middle of its work: `queue` is not read yet, `out` is written or waits in the tube.
pub record Going (sig : Signature) (queue out : List ℕ) (j : SigJob) : Type 0 where
  pub valid : IsValid j.io
  pub eof : j.io.eof_in ≡ true
  pub idle : j.io.copy_len ≡ 0
  pub unread : input j.io ≡ queue
  pub sent : j.io.written ++ j.io.write_buf ≡ out
  pub state : j.statefn ≡ some s_generate
  pub same_sig : j.vars.signature ≡ sig

-- The job when it is done, with all its output written.
pub record Finished (out : List ℕ) (j : SigJob) : Type 0 where
  pub written : j.io.written ≡ out
  pub idle : tube_is_idle j.io ≡ true
  pub unharmed : j.io.aborted ≡ false
  pub all_read : input j.io ≡ []
  pub no_state : j.statefn ≡ none

module _ (blake2 : List ℕ → List ℕ) (sig : Signature) (pos : 0 < sig.block_len)
    (small : sig.block_len < 2 ^ 31) (few : sig.strong_sum_len ≤ 32) where
  flushed-Going :
      (queue out : List ℕ) (j : SigJob)
      → Going sig queue out j
      → Going sig queue out (record j { io = flushed j.io })
  flushed-Going queue out j g = record {
    valid = record {
      allocated = g.valid.allocated;
      inside = g.valid.inside;
      unharmed = g.valid.unharmed;
    };
    eof = g.eof;
    idle = g.idle;
    unread = g.unread;
    sent = append-nil _ ∙ g.sent;
    state = g.state;
    same_sig = g.same_sig;
  }

  -- A round with a block left: its sums wait in the tube after it.
  record Moved (queue out : List ℕ) (j : SigJob) : Type 0 where
    after : SigJob
    moves : job_round (sig_call blake2) j ≡ again after
    going :
        Going sig
          (drop sig.block_len queue)
          (out ++ block_sums blake2 sig (take sig.block_len queue))
          after
    waiting : after.io.write_buf ≡ block_sums blake2 sig (take sig.block_len queue)
    room : after.io.avail_out ≡ j.io.avail_out - length j.io.write_buf

  block_round :
      (queue out : List ℕ) (j : SigJob)
      → Going sig queue out j
      → length j.io.write_buf ≤ j.io.avail_out
      → 0 < length queue
      → Moved queue out j
  unfolding job_call job_check_result sig_call
  block_round queue out j g room some_left = record {
    after = record j {
      io = record (d.rest) {
        write_buf =
            block_sums blake2 j.vars.signature (take j.vars.signature.block_len (input j.io));
      };
      stats = record (j.stats) { sig_blocks = j.stats.sig_blocks + 1 };
    };
    moves =
        job_round-flush (sig_call blake2) j g.idle room
        ∙ ap (λ f. job_call (sig_call blake2) f (record j { io = flushed j.io })) g.state
        ∙ ap
            (λ p.
              if is_done p.0
              then again (record (p.1) { statefn = none })
              else job_check_result p.0 p.1)
            d.returns;
    going = record {
      valid = record {
        allocated = d.still_valid.allocated;
        inside = d.still_valid.inside;
        unharmed = d.still_valid.unharmed;
      };
      eof = ap (λ t. t.0) d.same_outputs ∙ g.eof;
      idle = ap (λ t. t.4) d.same_outputs ∙ g.idle;
      unread = d.rest_of_input ∙ ap₂ (λ s l. drop s.block_len l) g.same_sig g.unread;
      sent = ap₂ (λ l m. l ++ m) (ap (λ t. t.2) d.same_outputs ∙ g.sent) sums;
      state = g.state;
      same_sig = g.same_sig;
    };
    waiting = sums;
    room = ap (λ t. t.1) d.same_outputs;
  }
    where
      j0 : SigJob
      j0 = record j { io = flushed j.io }

      d :
          BlockDone blake2 j.vars.signature.block_len
            (record j { io = flushed j.io })
            (sig_s_generate blake2 (record j { io = flushed j.io }))
      d =
          sig_s_generate-BlockDone blake2 (record j { io = flushed j.io })
            (flushed-Going queue out j g).valid g.eof
            (omega (arith, pos, ap (λ s. s.block_len) g.same_sig))
            (omega (arith, small, ap (λ s. s.block_len) g.same_sig))
            (omega (arith, some_left, ap length g.unread)) refl g.idle
            (omega (arith, few, ap (λ s. s.strong_sum_len) g.same_sig))

      sums :
          block_sums blake2 j.vars.signature (take j.vars.signature.block_len (input j.io))
          ≡ block_sums blake2 sig (take sig.block_len queue)
      sums = ap₂ (λ s l. block_sums blake2 s (take s.block_len l)) g.same_sig g.unread

  -- The two rounds at the end of the file.
  end_rounds :
      (n : ℕ) (out : List ℕ) (j : SigJob)
      → Going sig [] out j
      → length j.io.write_buf ≤ j.io.avail_out
      → (j' : SigJob) × (job_work (sig_call blake2) (suc (suc n)) j ≡ some (done, j'))
        × Finished out j'
  unfolding job_call sig_call
  end_rounds n out j g room = (
    record last { final_result = done },
    job_work-done (sig_call blake2) n j last ends refl empty idle,
    record {
      written = ap (λ t. t.2) d.same_outputs ∙ g.sent;
      idle = empty_tube_is_idle d.rest empty idle;
      unharmed = d.still_valid.unharmed;
      all_read = d.rest_of_input;
      no_state = refl;
    },
  )
    where
      d :
          FileDone
            (record j { io = flushed j.io })
            (sig_s_generate blake2 (record j { io = flushed j.io }))
      d =
          sig_s_generate-FileDone blake2 (record j { io = flushed j.io })
            (flushed-Going [] out j g).valid g.eof
            (omega (arith, pos, ap (λ s. s.block_len) g.same_sig))
            (omega (arith, small, ap (λ s. s.block_len) g.same_sig)) g.unread

      last : SigJob
      last = record j { io = d.rest; statefn = none }

      empty : d.rest.write_buf ≡ []
      empty = ap (λ t. t.3) d.same_outputs

      idle : d.rest.copy_len ≡ 0
      idle = ap (λ t. t.4) d.same_outputs ∙ g.idle

      ends : job_round (sig_call blake2) j ≡ again last
      ends =
          job_round-flush (sig_call blake2) j g.idle room
          ∙ ap (λ f. job_call (sig_call blake2) f (record j { io = flushed j.io })) g.state
          ∙ ap
              (λ p.
                if is_done p.0
                then again (record (p.1) { statefn = none })
                else job_check_result p.0 p.1)
              d.returns

  pub run :
      (n : ℕ) (queue out : List ℕ) (j : SigJob)
      → length queue ≤ n
      → Going sig queue out j
      → length j.io.write_buf + length (all_sums blake2 sig (blocks_of sig.block_len queue))
        ≤ j.io.avail_out
      → (j' : SigJob) × (job_work (sig_call blake2) (suc (suc n)) j ≡ some (done, j'))
        × Finished (out ++ all_sums blake2 sig (blocks_of sig.block_len queue)) j'
  unfolding blocks_of all_sums
  run n [] out j h g room =
      let (j', works, f) = end_rounds n out j g (omega (arith, room)) in
      (j', works, subst (λ l. Finished l j') (sym (append-nil out)) f)
  run zero (b ∷ queue) out j h g room = absurd (omega arith)
  run (suc n) (b ∷ queue) out j h g room =
      let m = block_round (b ∷ queue) out j g (omega (arith, room)) (omega arith) in
      let (j', works, f) =
        run n (drop sig.block_len (b ∷ queue)) _ m.after
          (omega (arith, length-drop sig.block_len (b ∷ queue), pos)) m.going
          (omega (
            arith,
            ap length m.waiting,
            m.room,
            room,
            ap length first,
            length-append (block_sums blake2 sig (take sig.block_len (b ∷ queue)))
                (all_sums blake2 sig (blocks_of sig.block_len (drop sig.block_len (b ∷ queue)))),
          )) in
      (
        j',
        job_work-again (sig_call blake2) (suc (suc n)) j m.after m.moves ∙ works,
        subst (λ l. Finished l j') (append_assoc out _ _ ∙ ap (λ l. out ++ l) (sym first)) f,
      )
    where
      first :
          all_sums blake2 sig (blocks_of sig.block_len (b ∷ queue))
          ≡ block_sums blake2 sig (take sig.block_len (b ∷ queue))
            ++ all_sums blake2 sig (blocks_of sig.block_len (drop sig.block_len (b ∷ queue)))
      first = ap (all_sums blake2 sig) (blocks_of-cons sig.block_len b queue pos)
