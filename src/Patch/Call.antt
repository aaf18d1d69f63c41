-- ===== src/Patch/Call.antt =====
-- src/job.c: the call of a state function, and what the loop makes of its result.
use librsync.Prelude.{ℕ, ◌+◌, ◌<◌, ◌≡◌, ◌⊎◌, ◌||◌, refl, sym, ap, subst, ◌∙◌, arith}
use librsync.Prelude.{Bool, true, false, ◌&&◌, not, Bool-cases, inl, inr}
use librsync.Prelude.{List, ◌++◌, length, Option, none, some, append-nil}
use librsync.Result.{RsResult, done, blocked, running, is_done, is_blocked, is_running, is_done→eq}
use librsync.Io.{assert_that}
use librsync.Scoop.Queue.{input}
use librsync.Tube.{tube_is_idle}
use librsync.Job.{Round, again, stop, job_complete, job_check_result, job_call}
use librsync.Patch.{PatchState, s_header, s_cmdbyte, s_params, s_run, s_literal, s_copy, s_copying}
use librsync.Patch.{PatchJob, CopyCb, patch_call}
use librsync.Patch.Spec.{prepend}
use librsync.Patch.Meaning.{
  StatefnOk, statefn_spec, full, full-idle, Possible, Meets, PatchValid, StepOk,
}
use librsync.Patch.Meaning.{work_left}
use librsync.Patch.Step.{true≢false}
use librsync.Patch.Header.{patch_s_header-StepOk}
use librsync.Patch.Read.{patch_s_cmdbyte-StepOk}
use librsync.Patch.Params.{patch_s_params-StepOk}
use librsync.Patch.Run.{patch_s_run-StepOk, patch_s_literal-StepOk, patch_s_copy-StepOk}
use librsync.Patch.Copying.{ReadsBasis, patch_s_copying-StepOk}

module _ (basis : List ℕ) where
  -- Any state function, whatever the state.
  patch_call-StepOk :
      (copy_cb : CopyCb) (f : PatchState) (j : PatchJob)
      → ReadsBasis basis copy_cb
      → PatchValid j
      → j.io.copy_len ≡ 0
      → j.statefn ≡ some f
      → StepOk basis j (patch_call copy_cb f j).0 (patch_call copy_cb f j).1
  unfolding patch_call
  patch_call-StepOk copy_cb s_header j reads v idle at = patch_s_header-StepOk basis j v idle at
  patch_call-StepOk copy_cb s_cmdbyte j reads v idle at = patch_s_cmdbyte-StepOk basis j v idle at
  patch_call-StepOk copy_cb s_params j reads v idle at =
      patch_s_params-StepOk basis j v idle at (subst (λ s. StatefnOk s j.vars) at v.state_ok)
  patch_call-StepOk copy_cb s_run j reads v idle at = patch_s_run-StepOk basis j v idle at
  patch_call-StepOk copy_cb s_literal j reads v idle at = patch_s_literal-StepOk basis j v idle at
  patch_call-StepOk copy_cb s_copy j reads v idle at = patch_s_copy-StepOk basis j v idle at
  patch_call-StepOk copy_cb s_copying j reads v idle at =
      patch_s_copying-StepOk basis j v idle copy_cb reads at
        (subst (λ s. StatefnOk s j.vars) at v.state_ok)

-- A round that the loop goes on after.
pub record Went (basis : List ℕ) (j j' : PatchJob) : Type 0 where
  pub valid : PatchValid j'
  pub same_eof : j'.io.eof_in ≡ j.io.eof_in
  pub room : length j'.io.written + j'.io.avail_out ≡ length j.io.written + j.io.avail_out
  pub same_full :
      (future : List ℕ)
      → Possible basis j.io.eof_in future
      → full basis j' future ≡ full basis j future
  pub smaller : work_left j' < work_left j

-- What `rs_job_work` returns.
pub record Returned (basis : List ℕ) (j : PatchJob) (r : RsResult) (j' : PatchJob) : Type 0 where
  pub valid : PatchValid j'
  pub same_eof : j'.io.eof_in ≡ j.io.eof_in
  pub room : length j'.io.written + j'.io.avail_out ≡ length j.io.written + j.io.avail_out
  pub not_running : is_running r ≡ false
  pub meets : (future : List ℕ) → Possible basis j.io.eof_in future → Meets basis j r j' future
  pub waits : is_blocked r ≡ true → (j.io.eof_in ≡ false) ⊎ (j'.io.avail_out ≡ 0)

pub data RoundOk (basis : List ℕ) (j : PatchJob) : Round PatchJob → Type 0 where
  went : {j' : PatchJob} → Went basis j j' → RoundOk basis j (again j')
  returned : {r : RsResult} {j' : PatchJob} → Returned basis j r j' → RoundOk basis j (stop r j')

module _ (basis : List ℕ) where
  -- The assertions of `rs_job_complete` hold, so that it changes nothing but the result.
  job_complete_lem :
      (r : RsResult) (j : PatchJob)
      → (is_running r || is_blocked r) ≡ false
      → (tube_is_idle j.io || not (is_done r)) ≡ true
      → job_complete r j ≡ (r, record j { final_result = r })
  unfolding job_complete assert_that
  job_complete_lem r j over idle = rw (idle, final r over) refl
    where
      final :
          (r : RsResult)
          → (is_running r || is_blocked r) ≡ false
          → (not (is_running r) && not (is_blocked r)) ≡ true
      final r over = ground arith

  valid_complete :
      (r : RsResult) (j : PatchJob) → PatchValid j → PatchValid (record j { final_result = r })
  valid_complete r j v = record {
    io_valid = v.io_valid;
    no_commands = v.no_commands;
    bytes = v.bytes;
    state_ok = v.state_ok;
  }

  or_true : (b : Bool) → (b || true) ≡ true
  or_true true = refl
  or_true false = refl

  -- The result of a job that is over.
  complete-Returned :
      (r : RsResult) (j j' : PatchJob)
      → PatchValid j'
      → j'.io.eof_in ≡ j.io.eof_in
      → length j'.io.written + j'.io.avail_out ≡ length j.io.written + j.io.avail_out
      → (is_running r || is_blocked r) ≡ false
      → (tube_is_idle j'.io || not (is_done r)) ≡ true
      → ((future : List ℕ)
          → Possible basis j.io.eof_in future
          → full basis j future ≡ (j'.io.written, r))
      → RoundOk basis j (stop r (job_complete r j').1)
  complete-Returned r j j' v eof room over idle meets = rw (job_complete_lem r j' over idle) (
      returned (record {
        valid = valid_complete r j' v;
        same_eof = eof;
        room = room;
        not_running = not_running r over;
        meets = λ future possible. rw (over, Meets) (meets future possible);
        waits = λ e. absurd (true≢false (sym e ∙ not_blocked r over));
      }))
    where
      not_running : (r : RsResult) → (is_running r || is_blocked r) ≡ false → is_running r ≡ false
      not_running r h = ground arith

      not_blocked : (r : RsResult) → (is_running r || is_blocked r) ≡ false → is_blocked r ≡ false
      not_blocked r h = ground arith

  pub check-RoundOk :
      (r : RsResult) (j j' : PatchJob)
      → StepOk basis j r j'
      → is_done r ≡ false
      → RoundOk basis j (job_check_result r j')
  unfolding job_check_result
  check-RoundOk done j j' ok going = absurd (true≢false going)
  check-RoundOk blocked j j' ok going = returned (record {
    valid = ok.valid;
    same_eof = ok.same_eof;
    room = ok.room;
    not_running = refl;
    meets = ok.meets;
    waits = ok.waits;
  })
  check-RoundOk running j j' ok going = went (record {
    valid = ok.valid;
    same_eof = ok.same_eof;
    room = ok.room;
    same_full = ok.meets;
    smaller = ok.progress refl;
  })
  check-RoundOk _ j j' ok going =
      complete-Returned _ j j' ok.valid ok.same_eof ok.room refl (or_true (tube_is_idle j'.io))
        ok.meets

  idle_tube : (j : PatchJob) → PatchValid j → j.io.copy_len ≡ 0 → tube_is_idle j.io ≡ true
  unfolding tube_is_idle
  idle_tube j v idle = rw (v.no_commands, idle) refl

  -- A state function that ends the job: it keeps running for what is in the tube.
  done-RoundOk :
      (j j' : PatchJob)
      → StepOk basis j done j'
      → j'.io.copy_len ≡ 0
      → RoundOk basis j (again (record j' { statefn = none }))
  unfolding statefn_spec
  done-RoundOk j j' ok idle = went (record {
    valid = record {
      io_valid = ok.valid.io_valid;
      no_commands = ok.valid.no_commands;
      bytes = ok.valid.bytes;
      state_ok = tt;
    };
    same_eof = ok.same_eof;
    room = ok.room;
    same_full = λ future possible.
        full-idle basis (record j' { statefn = none }) future idle
        ∙ ap (λ l. (l, done)) (append-nil j'.io.written)
        ∙ sym (ok.meets future possible);
    smaller = omega (arith, (ok.finishes refl).0);
  })

  -- The call of the state function once the tube is idle.
  pub call-RoundOk :
      (copy_cb : CopyCb) (f : Option PatchState) (j : PatchJob)
      → ReadsBasis basis copy_cb
      → PatchValid j
      → j.io.copy_len ≡ 0
      → j.statefn ≡ f
      → RoundOk basis j (job_call (patch_call copy_cb) f j)
  unfolding job_call statefn_spec
  call-RoundOk copy_cb none j reads v idle at =
      unfold job_check_result in
      complete-Returned done j j v refl refl refl (rw (idle_tube j v idle) refl) (λ future possible.
        full-idle basis j future idle
        ∙ ap (λ s. prepend j.io.written (statefn_spec basis s j.vars (input j.io ++ future))) at
        ∙ ap (λ l. (l, done)) (append-nil j.io.written))
  call-RoundOk copy_cb (some f) j reads v idle at = elim (Bool-cases (is_done r)) [
    | inl over ↦ rw over (
        done-RoundOk j j' (subst (λ s. StepOk basis j s j') (is_done→eq r over) ok)
          (ok.finishes over).1)
    | inr going ↦ rw going (check-RoundOk r j j' ok going)
  ]
    where
      r : RsResult
      r = (patch_call copy_cb f j).0

      j' : PatchJob
      j' = (patch_call copy_cb f j).1

      ok : StepOk basis j r j'
      ok = patch_call-StepOk basis copy_cb f j reads v idle at
