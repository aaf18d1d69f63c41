-- ===== src/Delta/Ending.antt =====
-- src/delta.c: the end of a delta for no signature.
use librsync.Prelude.{
  ℕ, ◌+◌, ◌%◌, ◌≤◌, ◌≡◌, refl, ap, ◌∙◌, arith, u32, true, not, ◌&&◌, ◌==◌, if◌then◌else◌,
}
use librsync.Prelude.{List, [], ◌∷◌, ◌++◌, length, take, drop, none, some}
use librsync.Result.{done, blocked, running}
use librsync.Scoop.{scoop_eof}
use librsync.Tube.{tube_catchup, tube_copy}
use librsync.Tube.Catchup.{scoop_eof_lem}
use librsync.Job.{again, job_check_result}
use librsync.Job.Stream.{Ready, queued-Waiting}
use librsync.Emit.{emit_literal_cmd}
use librsync.Emit.Commands.{emit_end_cmd_lem}
use librsync.Delta.{s_slack, s_end, DeltaJob, go_to, delta_s_slack, delta_s_end, delta_call}
use mathlib.Core.Path.{ap₂, subst}
use librsync.Delta.Slack.{At, Goes, answered, ready, avail_lem, calls}

module _ (blake2 : List ℕ → List ℕ) (out waiting : List ℕ) (n : ℕ) (queue : List ℕ) (room : ℕ)
    (j : DeltaJob) (enough : n ≤ length queue) where
  -- At the end of the file.
  pub eof_round :
      At blake2 (some s_slack) out waiting n queue (length waiting + n + room) j
      → drop n queue ≡ []
      → Goes blake2 (some s_end) (out ++ (waiting ++ take n queue)) [] 0 [] room j
  unfolding delta_call delta_s_slack job_check_result go_to
  eof_round a none_left = record {
    next = record j { io = (tube_catchup j.io).1; statefn = some s_end };
    moves =
        calls blake2 out waiting n queue room j enough s_slack a
        ∙ ap
            (λ avail. answered blake2 (
              if not (avail == 0)
              then (
                running,
                record (emit_literal_cmd (avail % u32) sj) {
                  io = tube_copy avail (emit_literal_cmd (avail % u32) sj).io;
                },
              )
              else if scoop_eof (tube_catchup j.io).1
              then go_to s_end sj
              else (blocked, sj)))
            (avail_lem blake2 out waiting n queue room j enough a ∙ ap length none_left)
        ∙ ap (λ b. answered blake2 (if b then go_to s_end sj else (blocked, sj))) ended;
    at_next = record {
      stream =
          subst (λ l. Ready (out ++ (waiting ++ take n queue)) l room (tube_catchup j.io).1)
            none_left r;
      state = refl;
      no_signature = a.no_signature;
    };
  }
    where
      sj : DeltaJob
      sj = record j { io = (tube_catchup j.io).1 }

      r : Ready (out ++ (waiting ++ take n queue)) (drop n queue) room (tube_catchup j.io).1
      r = ready blake2 out waiting n queue room j enough a

      ended : scoop_eof (tube_catchup j.io).1 ≡ true
      ended =
          scoop_eof_lem (tube_catchup j.io).1 r.valid
          ∙ ap₂ (λ l b. (length l == 0) && b) (r.unread ∙ none_left) r.eof

  pub end_round :
      At blake2 (some s_end) out waiting n queue (length waiting + n + room) j
      → drop n queue ≡ []
      → Goes blake2 none (out ++ (waiting ++ take n queue)) (0 ∷ []) 0 [] room j
  unfolding delta_call delta_s_end job_check_result
  end_round a none_left = record {
    next = record j { io = record ((tube_catchup j.io).1) { write_buf = 0 ∷ [] }; statefn = none };
    moves =
        calls blake2 out waiting n queue room j enough s_end a
        ∙ ap (λ j. answered blake2 (done, j))
            (emit_end_cmd_lem (record j { io = (tube_catchup j.io).1 }) r.copy
              (omega (arith, ap length r.commands)))
        ∙ ap
            (λ l. again (record j {
              io = record ((tube_catchup j.io).1) { write_buf = l ++ (0 ∷ []) };
              statefn = none;
            }))
            r.commands;
    at_next = record {
      stream = queued-Waiting (0 ∷ []) (
          subst (λ l. Ready (out ++ (waiting ++ take n queue)) l room (tube_catchup j.io).1)
            none_left r);
      state = refl;
      no_signature = a.no_signature;
    };
  }
    where
      r : Ready (out ++ (waiting ++ take n queue)) (drop n queue) room (tube_catchup j.io).1
      r = ready blake2 out waiting n queue room j enough a
