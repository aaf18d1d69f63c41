-- ===== src/Patch/Work.antt =====
-- src/job.c: `rs_job_work` for a patch job, round after round.
use librsync.Prelude.{ℕ, zero, suc, ◌<◌, ◌≡◌, refl, sym, ◌∙◌, arith}
use librsync.Prelude.{List, Option, some}
use librsync.Result.{RsResult}
use librsync.Job.{Round, again, stop, job_round, job_work}
use librsync.Patch.{PatchJob, CopyCb, patch_call}
use librsync.Patch.Meaning.{PatchValid, work_left}
use librsync.Patch.Copying.{ReadsBasis}
use librsync.Patch.Call.{Went, Returned, RoundOk, went, returned}
use librsync.Patch.Round.{Meets-full, same_waits, job_round-RoundOk}

-- The call returned, with `Returned`.
pub record Works (basis : List ℕ) (j : PatchJob) (answer : Option (RsResult × PatchJob))
    : Type 0 where
  pub result : RsResult
  pub job : PatchJob
  pub returns : answer ≡ some (result, job)
  pub is_right : Returned basis j result job

module _ (basis : List ℕ) where
  after_round :
      (j j1 : PatchJob) (answer : Option (RsResult × PatchJob))
      → Went basis j j1
      → Works basis j1 answer
      → Works basis j answer
  after_round j j1 answer w rest = record {
    result = rest.result;
    job = rest.job;
    returns = rest.returns;
    is_right = record {
      valid = rest.is_right.valid;
      same_eof = rest.is_right.same_eof ∙ w.same_eof;
      room = rest.is_right.room ∙ w.room;
      not_running = rest.is_right.not_running;
      meets = λ future possible.
          Meets-full basis j1 j rest.job rest.result future (w.same_full future possible)
            (rest.is_right.meets future (λ e. possible (sym w.same_eof ∙ e)));
      waits = λ e. same_waits basis w.same_eof (rest.is_right.waits e);
    };
  }

  -- rs_job_work on a valid patch job whose callback reads the basis returns within the rounds that
  -- work_left counts, with a result other than running; the job stays valid, no assertion fails, a
  -- blocked job keeps the whole outcome and lacks input or room, and any other result is the
  -- outcome that the delta has.
  pub job_work-Works :
      (copy_cb : CopyCb) (fuel : ℕ) (j : PatchJob)
      → ReadsBasis basis copy_cb
      → PatchValid j
      → work_left j < fuel
      → Works basis j (job_work (patch_call copy_cb) fuel j)
  unfolding job_work
  job_work-Works copy_cb zero j reads v h = absurd (omega arith)
  job_work-Works copy_cb (suc fuel) j reads v h =
      by_round (job_round (patch_call copy_cb) j) (job_round-RoundOk basis copy_cb j reads v)
        (λ j' v' h'. job_work-Works copy_cb fuel j' reads v' h')
    where
      by_round :
          (R : Round PatchJob)
          → RoundOk basis j R
          → ((j' : PatchJob)
              → PatchValid j'
              → work_left j' < fuel
              → Works basis j' (job_work (patch_call copy_cb) fuel j'))
          → Works basis j (elim R [
            | again j' ↦ job_work (patch_call copy_cb) fuel j'
            | stop r j' ↦ some (r, j')
          ])
      by_round (again j') (went w) rest =
          after_round j j' _ w (rest j' w.valid (omega (arith, w.smaller)))
      by_round (stop r j') (returned w) rest = record {
        result = r;
        job = j';
        returns = refl;
        is_right = w;
      }
