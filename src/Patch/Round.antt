-- ===== src/Patch/Round.antt =====
-- src/job.c: one round of `rs_job_work` for a patch, the tube and then the state function.
use librsync.Prelude.{ℕ, ◌<◌, ◌≡◌, ◌⊎◌, ◌||◌, refl, sym, ap, ◌∙◌, arith}
use librsync.Prelude.{Bool, true, false, if◌then◌else◌, inl, inr}
use librsync.Prelude.{List, [], append-nil}
use librsync.Prelude.{lt→leb}
use librsync.Result.{RsResult, done, blocked, input_ended, is_done, is_blocked, is_running}
use librsync.Io.{Io}
use librsync.Scoop.Queue.{input}
use librsync.Tube.{tube_catchup}
use librsync.Tube.Catchup.{
  Outcome as TubeOutcome, caught_up, no_room, starved, cut_short, Caught, tube_catchup-Caught,
}
use librsync.Job.{Round, job_check_result, job_call, job_round}
use librsync.Patch.{PatchJob, CopyCb, patch_call}
use librsync.Patch.Spec.{literal_spec}
use librsync.Patch.Meaning.{MeetsIf, full, Possible, Meets, PatchValid, StepOk}
use librsync.Patch.Step.{true≢false}
use librsync.Patch.Copying.{ReadsBasis}
use librsync.Patch.Tubes.{caught_full, caught_valid, caught_room, caught_left}
use librsync.Patch.Call.{RoundOk, went, returned, check-RoundOk, call-RoundOk}

module _ (basis : List ℕ) where
  pub same_waits : {b c : Bool} {n : ℕ} → b ≡ c → (b ≡ false) ⊎ (n ≡ 0) → (c ≡ false) ⊎ (n ≡ 0)
  same_waits e (inl h) = inl (sym e ∙ h)
  same_waits e (inr h) = inr h

  pub Meets-full :
      (j1 j j' : PatchJob) (r : RsResult) (future : List ℕ)
      → full basis j1 future ≡ full basis j future
      → Meets basis j1 r j' future
      → Meets basis j r j' future
  Meets-full j1 j j' r future e m = by_result (is_running r || is_blocked r) m
    where
      by_result : (b : Bool) → MeetsIf basis b j1 r j' future → MeetsIf basis b j r j' future
      by_result true m = m ∙ e
      by_result false m = sym e ∙ m

  -- The outcome seen from after the tube's work is the one seen from before it.
  module _ (j : PatchJob) (v : PatchValid j) (r : RsResult) (io' : Io) (c : Caught j.io r io') where
    from_before : {R : Round PatchJob} → RoundOk basis (record j { io = io' }) R → RoundOk basis j R
    from_before (went w) = went (record {
      valid = w.valid;
      same_eof = w.same_eof ∙ c.same_eof;
      room = w.room ∙ caught_room basis j v r io' c;
      same_full = λ future possible.
          w.same_full future (λ e. possible (sym c.same_eof ∙ e))
          ∙ caught_full basis j v r io' c future;
      smaller = omega (arith, w.smaller, caught_left basis j v r io' c);
    })
    from_before (returned {r = r'} w) = returned (record {
      valid = w.valid;
      same_eof = w.same_eof ∙ c.same_eof;
      room = w.room ∙ caught_room basis j v r io' c;
      not_running = w.not_running;
      meets = λ future possible.
          Meets-full (record j { io = io' }) j _ r' future (caught_full basis j v r io' c future)
            (w.meets future (λ e. possible (sym c.same_eof ∙ e)));
      waits = λ e. same_waits c.same_eof (w.waits e);
    })

  -- A tube that is held up, seen as a step.
  stays :
      (j : PatchJob) (r : RsResult)
      → PatchValid j
      → is_running r ≡ false
      → is_done r ≡ false
      → (is_blocked r ≡ true → (j.io.eof_in ≡ false) ⊎ (j.io.avail_out ≡ 0))
      → ((future : List ℕ) → Possible basis j.io.eof_in future → Meets basis j r j future)
      → StepOk basis j r j
  stays j r v not_running not_done waits meets = record {
    valid = v;
    same_eof = refl;
    room = refl;
    meets = meets;
    waits = waits;
    progress = λ e. absurd (true≢false (sym e ∙ not_running));
    finishes = λ e. absurd (true≢false (sym e ∙ not_done));
  }

  -- With nothing left to copy from and no more to come, the literal is cut off.
  cut_full :
      (j : PatchJob) (future : List ℕ)
      → 0 < j.io.copy_len
      → input j.io ≡ []
      → future ≡ []
      → full basis j future ≡ (j.io.written, input_ended)
  unfolding full literal_spec
  cut_full j future more dry over =
      rw (dry, over, lt→leb j.io.copy_len 0 more)
        (ap (λ l. (l, input_ended)) (append-nil j.io.written))

  round_after :
      (copy_cb : CopyCb) (j : PatchJob) (r : RsResult) (io' : Io)
      → ReadsBasis basis copy_cb
      → PatchValid j
      → Caught j.io r io'
      → RoundOk basis j (
          if is_done r
          then job_call (patch_call copy_cb) j.statefn (record j { io = io' })
          else job_check_result r (record j { io = io' }))
  round_after copy_cb j r io' reads v c = from_before j v r io' c (by_outcome r c.outcome)
    where
      j' : PatchJob
      j' = record j { io = io' }

      v' : PatchValid j'
      v' = caught_valid basis j v r io' c

      by_outcome :
          (r : RsResult)
          → TubeOutcome io' r
          → RoundOk basis j' (
              if is_done r
              then job_call (patch_call copy_cb) j.statefn j'
              else job_check_result r j')
      by_outcome done (caught_up _ idle) =
          call-RoundOk basis copy_cb j.statefn j' reads v' idle refl
      by_outcome blocked (no_room no_space _) =
          check-RoundOk basis blocked j' j'
            (stays j' blocked v' refl refl (λ _. inr no_space) (λ _ _. refl)) refl
      by_outcome blocked (starved _ _ _ going) =
          check-RoundOk basis blocked j' j'
            (stays j' blocked v' refl refl (λ _. inl going) (λ _ _. refl)) refl
      by_outcome input_ended (cut_short _ more dry eof) =
          check-RoundOk basis input_ended j' j'
            (stays j' input_ended v' refl refl (λ e. absurd (true≢false (sym e)))
              (λ future possible. cut_full j' future more dry (possible eof)))
            refl
      by_outcome _ o = elim o [ ]

  -- One round of the loop in rs_job_work, from any valid patch job whose callback reads the basis,
  -- ends in one of two ways: the loop goes on with a valid job that has the same outcome and less
  -- work left, or it returns a result that the outcome justifies.
  pub job_round-RoundOk :
      (copy_cb : CopyCb) (j : PatchJob)
      → ReadsBasis basis copy_cb
      → PatchValid j
      → RoundOk basis j (job_round (patch_call copy_cb) j)
  unfolding job_round
  job_round-RoundOk copy_cb j reads v =
      round_after copy_cb j (tube_catchup j.io).0 (tube_catchup j.io).1 reads v
        (tube_catchup-Caught j.io v.io_valid)
