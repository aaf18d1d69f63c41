-- ===== src/Job/Rounds.antt =====
-- src/job.c: how rs_job_work goes from round to round, for any kind of job.
use librsync.Prelude.{ℕ, suc, ◌≤◌, ◌≡◌, refl, sym, ap, ◌∙◌, arith, true, false, ◌||◌, if◌then◌else◌}
use librsync.Prelude.{[], length, length-append, none, some}
use librsync.Result.{RsResult, done, internal_error}
use librsync.Io.{Io, assert_that, assert_that-true}
use librsync.Tube.{tube_is_idle}
use librsync.Tube.Write.{flushed, nothing_flushed, tube_catchup_flush}
use librsync.Job.{
  Job, again, stop, job_complete, job_check_result, job_call, job_round, job_work, job_iter,
  no_progress,
}
use librsync.Scoop.{live}
use librsync.Scoop.Queue.{input}

pub empty_tube_is_idle : (io : Io) → io.write_buf ≡ [] → io.copy_len ≡ 0 → tube_is_idle io ≡ true
unfolding tube_is_idle
empty_tube_is_idle io e idle = rw (e, idle) refl

module _ {F V : Type 0} (call : F → Job F V → RsResult × Job F V) where
  pub job_work-again :
      (fuel : ℕ) (j j' : Job F V)
      → job_round call j ≡ again j'
      → job_work call (suc fuel) j ≡ job_work call fuel j'
  unfolding job_work
  job_work-again fuel j j' e = rw (e, job_work) refl

  pub job_work-stop :
      (fuel : ℕ) (j j' : Job F V) (r : RsResult)
      → job_round call j ≡ stop r j'
      → job_work call (suc fuel) j ≡ some (r, j')
  unfolding job_work
  job_work-stop fuel j j' r e = rw (e, job_work) refl

  -- A round that starts with no copy in the tube and room for its command bytes calls the state
  -- function with an empty tube.
  pub job_round-flush :
      (j : Job F V)
      → j.io.copy_len ≡ 0
      → length j.io.write_buf ≤ j.io.avail_out
      → job_round call j ≡ job_call call j.statefn (record j { io = flushed j.io })
  unfolding job_round
  job_round-flush j idle room = rw (tube_catchup_flush j.io idle room) refl

  -- A round with an idle tube only calls the state function.
  pub job_round-idle :
      (j : Job F V)
      → j.io.write_buf ≡ []
      → j.io.copy_len ≡ 0
      → job_round call j ≡ job_call call j.statefn j
  job_round-idle j empty idle =
      job_round-flush j idle (omega (arith, ap length empty))
      ∙ ap (λ io. job_call call j.statefn (record j { io = io })) (sym (nothing_flushed j.io empty))

  -- The last round of a job that is done.
  job_round_last :
      (j : Job F V)
      → j.statefn ≡ none
      → j.io.write_buf ≡ []
      → j.io.copy_len ≡ 0
      → job_round call j ≡ stop done (record j { final_result = done })
  unfolding job_call job_check_result job_complete
  job_round_last j no_state empty idle =
      job_round-idle j empty idle
      ∙ ap (λ f. job_call call f j) no_state
      ∙ ap (λ io. stop done (record j { io = io; final_result = done })) sound
    where
      sound : assert_that (tube_is_idle j.io || false) (assert_that true j.io) ≡ j.io
      sound =
          ap (assert_that (tube_is_idle j.io || false)) (assert_that-true true j.io refl)
          ∙ assert_that-true (tube_is_idle j.io || false) j.io
              (ap (λ b. b || false) (empty_tube_is_idle j.io empty idle))

  -- A state function that answers RS_DONE with an empty tube ends the job.
  pub job_work-done :
      (fuel : ℕ) (j j' : Job F V)
      → job_round call j ≡ again j'
      → j'.statefn ≡ none
      → j'.io.write_buf ≡ []
      → j'.io.copy_len ≡ 0
      → job_work call (suc (suc fuel)) j ≡ some (done, record j' { final_result = done })
  job_work-done fuel j j' e no_state empty idle =
      job_work-again (suc fuel) j j' e
      ∙ job_work-stop fuel j' _ done (job_round_last j' no_state empty idle)

  -- A job that is done has made progress if it has used up its input.
  pub job_iter-done :
      (fuel : ℕ) (j j' : Job F V)
      → job_work call fuel j ≡ some (done, j')
      → input j'.io ≡ []
      → job_iter call fuel j ≡ some (done, j')
  unfolding job_iter
  job_iter-done fuel j j' e used =
      rw (e, job_iter) (ap (λ b. some (if b then internal_error else done, j')) moved)
    where
      read_all : (io : Io) → input io ≡ [] → length io.next_in ≡ 0
      read_all io none_left = omega (arith, ap length none_left, length-append (live io) io.next_in)

      moved : no_progress call done j.io j'.io ≡ false
      moved = unfold no_progress in ground (arith, read_all j'.io used)
