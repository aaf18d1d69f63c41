-- ===== src/Job.antt =====
-- src/job.h and src/job.c: the loop that drives any job's state functions.
pub mod Rounds
pub mod Stream
use librsync.Prelude.{ℕ, zero, suc, Bool, not, ◌&&◌, ◌||◌, ◌==◌, if◌then◌else◌}
use librsync.Prelude.{length, Option, none, some}
use librsync.Result.{RsResult, done, internal_error}
use librsync.Result.{is_done, is_blocked, is_running}
use librsync.Io.{Io, assert_that}
use librsync.Stats.{Stats}
use librsync.Tube.{tube_catchup, tube_is_idle}

-- `struct rs_job`: the stream, scoop and tube in `io`, the state function (`none` is NULL) by its
-- name in `F`, and the fields that one kind of job uses in `vars`.
pub record Job (F V : Type 0) : Type 0 where
  pub io : Io
  pub statefn : Option F
  pub final_result : RsResult
  pub stats : Stats
  pub vars : V

-- What one round of the loop in `rs_job_work` leads to.
pub data Round (J : Type 0) : Type 0 where
  again : J → Round J
  stop : RsResult → J → Round J

module _ {F V : Type 0} where
  unfoldable pub job_complete : RsResult → Job F V → RsResult × Job F V
  unfolding assert_that tube_is_idle
  job_complete r j =
      let io' =
        assert_that (tube_is_idle j.io || not (is_done r))
          (assert_that (not (is_running r) && not (is_blocked r)) j.io) in
      (r, record j { io = io'; final_result = r })

  -- The tests on the result at the end of the loop's body.
  unfoldable pub job_check_result : RsResult → Job F V → Round (Job F V)
  job_check_result r j =
      if is_blocked r
      then stop r j
      else if is_running r
      then again j
      else stop r (job_complete r j).1

  -- `call f` is the call of the state function `f`.
  module _ (call : F → Job F V → RsResult × Job F V) where
    -- The state function, where there is one: a job that is done keeps running without one.
    unfoldable pub job_call : Option F → Job F V → Round (Job F V)
    job_call none j = job_check_result done j
    job_call (some f) j =
        let (r, j') = call f j in
        if is_done r then again (record j' { statefn = none }) else job_check_result r j'

    unfoldable pub job_round : Job F V → Round (Job F V)
    job_round j =
        let (r, io') = tube_catchup j.io in
        let j' = record j { io = io' } in
        if is_done r then job_call j'.statefn j' else job_check_result r j'

    -- `none` means that the rounds allowed ran out.
    unfoldable pub job_work : ℕ → Job F V → Option (RsResult × Job F V)
    job_work zero j = none
    job_work (suc fuel) j = elim (job_round j) [
      | again j' ↦ job_work fuel j'
      | stop r j' ↦ some (r, j')
    ]

    -- The test for a call that used neither input nor output, though it had both.
    unfoldable pub no_progress : RsResult → Io → Io → Bool
    no_progress r orig io =
        (is_blocked r || is_done r)
        && ((length orig.next_in == length io.next_in)
            && ((orig.avail_out == io.avail_out)
                && (not (length orig.next_in == 0) && not (orig.avail_out == 0))))

    unfoldable pub job_iter : ℕ → Job F V → Option (RsResult × Job F V)
    job_iter fuel j = elim (job_work fuel j) [
      | none ↦ none
      | some (r, j') ↦ some (if no_progress r j.io j'.io then internal_error else r, j')
    ]
