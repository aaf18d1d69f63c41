-- ===== src/Job/Stream.antt =====
-- src/job.c: the stream of a job at whose end the input ends, and that has room for its output; one
-- round sends all that waits in the tube.
use librsync.Prelude.{ℕ, ◌+◌, ◌≤◌, ◌≡◌, refl, ap, ◌∙◌, arith, true, false, ◌||◌, if◌then◌else◌}
use librsync.Prelude.{List, [], ◌++◌, length, take, drop, none}
use librsync.Result.{RsResult, done, is_done}
use librsync.Io.{Io, assert_that, assert_that-true}
use librsync.Scoop.Queue.{input, IsValid}
use librsync.Tube.{tube_catchup, tube_is_idle}
use librsync.Tube.Drain.{AllSent, tube_catchup-AllSent}
use librsync.Job.{Job, stop, job_complete, job_check_result, job_call, job_round}
use librsync.Job.Rounds.{empty_tube_is_idle}
use mathlib.Core.Path.{ap₂}

-- `out` is written, `waiting` and `n` bytes to copy are in the tube, `queue` is not read, and there is
-- room for `room` bytes more.
pub record Waiting (out waiting : List ℕ) (n : ℕ) (queue : List ℕ) (room : ℕ) (io : Io)
    : Type 0 where
  pub valid : IsValid io
  pub eof : io.eof_in ≡ true
  pub sent : io.written ≡ out
  pub commands : io.write_buf ≡ waiting
  pub copy : io.copy_len ≡ n
  pub unread : input io ≡ queue
  pub left : room ≤ io.avail_out

-- A stream with an empty tube.
abbrev pub Ready : List ℕ → List ℕ → ℕ → Io → Type 0
Ready out queue room io = Waiting out [] 0 queue room io

-- Bytes put into an empty tube wait there.
pub queued-Waiting :
    {out queue : List ℕ} {room : ℕ} {io : Io} (waiting : List ℕ)
    → Ready out queue room io
    → Waiting out waiting 0 queue room (record io { write_buf = waiting })
queued-Waiting waiting r = record {
  valid = record {
    allocated = r.valid.allocated;
    inside = r.valid.inside;
    unharmed = r.valid.unharmed;
  };
  eof = r.eof;
  sent = r.sent;
  commands = refl;
  copy = r.copy;
  unread = r.unread;
  left = r.left;
}

pub tube_catchup-Ready :
    (out waiting : List ℕ) (n : ℕ) (queue : List ℕ) (room : ℕ) (io : Io)
    → Waiting out waiting n queue (length waiting + n + room) io
    → n ≤ length queue
    → ((tube_catchup io).0 ≡ done)
      × Ready (out ++ (waiting ++ take n queue)) (drop n queue) room (tube_catchup io).1
tube_catchup-Ready out waiting n queue room io w enough = (
  s.finished,
  record {
    valid = s.still_valid;
    eof = s.same_eof ∙ w.eof;
    sent =
        s.to_output
        ∙ ap₂ (λ o m. o ++ m) w.sent (ap₂ (λ a b. a ++ b) w.commands (ap₂ take w.copy w.unread));
    commands = s.nothing_waits;
    copy = s.no_copy;
    unread = s.rest_of_input ∙ ap₂ drop w.copy w.unread;
    left = omega (arith, s.room_left, w.left, ap length w.commands, w.copy);
  },
)
  where
    s : AllSent io (tube_catchup io).0 (tube_catchup io).1
    s =
        tube_catchup-AllSent io w.valid (omega (arith, w.left, ap length w.commands, w.copy))
          (omega (arith, w.copy, ap length w.unread, enough))

module _ {F V : Type 0} (call : F → Job F V → RsResult × Job F V) where
  pub job_round-sent :
      (j : Job F V)
      → (tube_catchup j.io).0 ≡ done
      → job_round call j ≡ job_call call j.statefn (record j { io = (tube_catchup j.io).1 })
  unfolding job_round
  job_round-sent j e =
      ap
        (λ r.
          if is_done r
          then job_call call j.statefn (record j { io = (tube_catchup j.io).1 })
          else job_check_result r (record j { io = (tube_catchup j.io).1 }))
        e

  -- The last round, in which a job that is done sends what still waits.
  pub job_round-ends :
      (j : Job F V)
      → j.statefn ≡ none
      → (tube_catchup j.io).0 ≡ done
      → (tube_catchup j.io).1.write_buf ≡ []
      → (tube_catchup j.io).1.copy_len ≡ 0
      → job_round call j ≡ stop done (record j { io = (tube_catchup j.io).1; final_result = done })
  unfolding job_call job_check_result job_complete
  job_round-ends j no_state e empty idle =
      job_round-sent j e
      ∙ ap (λ f. job_call call f (record j { io = (tube_catchup j.io).1 })) no_state
      ∙ ap (λ io. stop done (record j { io = io; final_result = done })) sound
    where
      io' : Io
      io' = (tube_catchup j.io).1

      sound : assert_that (tube_is_idle io' || false) (assert_that true io') ≡ io'
      sound =
          ap (assert_that (tube_is_idle io' || false)) (assert_that-true true io' refl)
          ∙ assert_that-true (tube_is_idle io' || false) io'
              (ap (λ b. b || false) (empty_tube_is_idle io' empty idle))
