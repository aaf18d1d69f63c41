-- ===== src/Delta/Slack.antt =====
-- src/delta.c: a delta for no signature has one literal with the whole file.
use librsync.Prelude.{
  ℕ, ◌+◌, ◌%◌, ◌^◌, ◌≤◌, ◌<◌, ◌≡◌, refl, sym, ap, ◌∙◌, arith, u32, true, not, ◌==◌, if◌then◌else◌,
}
use librsync.Prelude.{List, ◌++◌, length, take, drop, Option, none, some}
use librsync.Result.{RsResult, blocked, running, is_done}
use librsync.Scoop.{scoop_avail, scoop_eof}
use librsync.Scoop.Readahead.{length-input}
use librsync.Tube.{tube_catchup, tube_copy}
use librsync.Tube.Write.{tube_copy_lem}
use librsync.Netint.Bytes.{big_endian}
use librsync.Job.{Round, again, job_check_result, job_call, job_round}
use librsync.Job.Stream.{Waiting, Ready, queued-Waiting, tube_catchup-Ready, job_round-sent}
use librsync.Patch.{delta_magic}
use librsync.Emit.{emit_delta_header, emit_literal_cmd}
use librsync.Emit.Commands.{literal_bytes, emit_delta_header_lem, emit_literal_cmd_lem}
use librsync.Delta.{
  DeltaState, s_header, s_slack, s_end, DeltaVars, DeltaJob, go_to, delta_s_header, delta_s_slack,
  header_next, delta_call,
}

literal_keeps :
    (len : ℕ) (j : DeltaJob)
    → ◌≡◌ {A = Option DeltaState × DeltaVars}
        ((emit_literal_cmd len j).statefn, (emit_literal_cmd len j).vars)
        (j.statefn, j.vars)
unfolding emit_literal_cmd
literal_keeps len j = refl

module _ (blake2 : List ℕ → List ℕ) where
  -- A job in a state, whose stream is as described.
  pub record At (f : Option DeltaState) (out waiting : List ℕ) (n : ℕ) (queue : List ℕ) (room : ℕ)
      (j : DeltaJob) : Type 0 where
    pub stream : Waiting out waiting n queue room j.io
    pub state : j.statefn ≡ f
    pub no_signature : j.vars.signature ≡ none

  -- The next job, in a given state.
  pub record Goes (f : Option DeltaState) (out waiting : List ℕ) (n : ℕ) (queue : List ℕ) (room : ℕ)
      (j : DeltaJob) : Type 0 where
    pub next : DeltaJob
    pub moves : job_round (delta_call blake2) j ≡ again next
    pub at_next : At f out waiting n queue room next

  -- What the round makes of the answer of the state function.
  abbrev pub answered : RsResult × DeltaJob → Round DeltaJob
  answered p =
      if is_done p.0 then again (record (p.1) { statefn = none }) else job_check_result p.0 p.1

  module _ (out waiting : List ℕ) (n : ℕ) (queue : List ℕ) (room : ℕ) (j : DeltaJob)
      (enough : n ≤ length queue) where
    pub ready :
        {f : Option DeltaState}
        → At f out waiting n queue (length waiting + n + room) j
        → Ready (out ++ (waiting ++ take n queue)) (drop n queue) room (tube_catchup j.io).1
    ready a = (tube_catchup-Ready out waiting n queue room j.io a.stream enough).1

    pub avail_lem :
        {f : Option DeltaState}
        → At f out waiting n queue (length waiting + n + room) j
        → scoop_avail (tube_catchup j.io).1 ≡ length (drop n queue)
    unfolding scoop_avail
    avail_lem a =
        sym (length-input (tube_catchup j.io).1 (ready a).valid) ∙ ap length (ready a).unread

    pub calls :
        (f : DeltaState)
        → At (some f) out waiting n queue (length waiting + n + room) j
        → job_round (delta_call blake2) j
          ≡ answered (delta_call blake2 f (record j { io = (tube_catchup j.io).1 }))
    unfolding job_call
    calls f a =
        job_round-sent (delta_call blake2) j
          (tube_catchup-Ready out waiting n queue room j.io a.stream enough).0
        ∙ ap (λ f. job_call (delta_call blake2) f (record j { io = (tube_catchup j.io).1 })) a.state

    pub header_round :
        At (some s_header) out waiting n queue (length waiting + n + room) j
        → Goes
            (some s_slack)
            (out ++ (waiting ++ take n queue))
            (big_endian 4 delta_magic)
            0
            (drop n queue)
            room
            j
    unfolding delta_call delta_s_header header_next go_to job_check_result
    header_round a = record {
      next = record j {
        io = record ((tube_catchup j.io).1) { write_buf = big_endian 4 delta_magic };
        statefn = some s_slack;
      };
      moves =
          calls s_header a
          ∙ ap
              (λ s. answered (
                go_to (header_next s)
                  (emit_delta_header (record j { io = (tube_catchup j.io).1 }))))
              a.no_signature
          ∙ ap (λ j. answered (go_to s_slack j))
              (emit_delta_header_lem (record j { io = (tube_catchup j.io).1 }) r.copy
                (omega (arith, ap length r.commands)))
          ∙ ap
              (λ l. again (record j {
                io = record ((tube_catchup j.io).1) { write_buf = l ++ big_endian 4 delta_magic };
                statefn = some s_slack;
              }))
              r.commands;
      at_next = record {
        stream = queued-Waiting (big_endian 4 delta_magic) r;
        state = refl;
        no_signature = a.no_signature;
      };
    }
      where
        r : Ready (out ++ (waiting ++ take n queue)) (drop n queue) room (tube_catchup j.io).1
        r = ready a

    -- With the whole file still to be read.
    pub slack_round :
        At (some s_slack) out waiting n queue (length waiting + n + room) j
        → 0 < length (drop n queue)
        → length (drop n queue) < 2 ^ 31
        → Goes
            (some s_slack)
            (out ++ (waiting ++ take n queue))
            (literal_bytes (length (drop n queue)))
            (length (drop n queue))
            (drop n queue)
            room
            j
    unfolding delta_call delta_s_slack job_check_result
    slack_round a some_left small = record {
      next = record (emit_literal_cmd m sj) {
        io = record ((tube_catchup j.io).1) { write_buf = literal_bytes m; copy_len = m };
      };
      moves =
          calls s_slack a
          ∙ ap (λ avail. answered (body avail)) (avail_lem a)
          ∙ ap
              (λ b. answered (
                if b
                then (
                  running,
                  record (emit_literal_cmd (m % u32) sj) {
                    io = tube_copy m (emit_literal_cmd (m % u32) sj).io;
                  },
                )
                else otherwise))
              test
          ∙ ap
              (λ k.
                again
                  (record (emit_literal_cmd k sj) { io = tube_copy m (emit_literal_cmd k sj).io }))
              whole
          ∙ ap (λ io. again (record (emit_literal_cmd m sj) { io = io })) queued;
      at_next = record {
        stream = record {
          valid = record {
            allocated = r.valid.allocated;
            inside = r.valid.inside;
            unharmed = r.valid.unharmed;
          };
          eof = r.eof;
          sent = r.sent;
          commands = refl;
          copy = refl;
          unread = r.unread;
          left = r.left;
        };
        state = ap (λ p. p.0) (literal_keeps m sj) ∙ a.state;
        no_signature = ap (λ p. p.1.signature) (literal_keeps m sj) ∙ a.no_signature;
      };
    }
      where
        m : ℕ
        m = length (drop n queue)

        sj : DeltaJob
        sj = record j { io = (tube_catchup j.io).1 }

        r : Ready (out ++ (waiting ++ take n queue)) (drop n queue) room (tube_catchup j.io).1
        r = ready a

        otherwise : RsResult × DeltaJob
        otherwise = if scoop_eof (tube_catchup j.io).1 then go_to s_end sj else (blocked, sj)

        body : ℕ → RsResult × DeltaJob
        body avail =
            if not (avail == 0)
            then (
              running,
              record (emit_literal_cmd (avail % u32) sj) {
                io = tube_copy avail (emit_literal_cmd (avail % u32) sj).io;
              },
            )
            else otherwise

        test : not (m == 0) ≡ true
        test = ground (arith, some_left)

        whole : m % u32 ≡ m
        whole = omega (arith, small)

        queued :
            tube_copy m (emit_literal_cmd m sj).io
            ≡ record ((tube_catchup j.io).1) { write_buf = literal_bytes m; copy_len = m }
        queued =
            ap (tube_copy m)
              (emit_literal_cmd_lem m sj small r.copy (omega (arith, ap length r.commands)))
            ∙ tube_copy_lem m
                (record ((tube_catchup j.io).1) {
                  write_buf = (tube_catchup j.io).1.write_buf ++ literal_bytes m;
                })
                r.copy
            ∙ ap
                (λ l. record ((tube_catchup j.io).1) {
                  write_buf = l ++ literal_bytes m;
                  copy_len = m;
                })
                r.commands
