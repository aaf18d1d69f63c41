-- ===== src/Delta/Whole.antt =====
-- src/delta.c: a whole delta for no signature, and what src/patch.c makes of it.
use librsync.Prelude.{ℕ, suc, ◌+◌, ◌^◌, ◌≤◌, ◌<◌, ◌≡◌, refl, ap, ◌∙◌, arith, true}
use librsync.Prelude.{
  List, [], ◌∷◌, ◌++◌, length, take, append_assoc, append-nil, length-append, Option, none, some,
}
use librsync.Prelude.Slices.{take-all, drop-all}
use librsync.Result.{RsResult, done}
use librsync.Io.{new_io, assert_that}
use librsync.Tube.{tube_catchup}
use librsync.Netint.Bytes.{big_endian}
use librsync.Job.{job_work, job_iter}
use librsync.Job.Rounds.{job_work-again, job_work-stop, job_iter-done}
use librsync.Job.Stream.{Ready, tube_catchup-Ready, job_round-ends}
use librsync.Patch.{delta_magic}
use librsync.Emit.Commands.{literal_bytes}
use librsync.Emit.Delta.{DeltaCommand, new_bytes, encode_command, encode_commands, encode_delta}
use librsync.Delta.{
  DeltaState, s_header, s_slack, s_end, DeltaJob, delta_call, delta_begin, signature_for, sum_for,
}
use mathlib.Core.Path.{ap₂, subst}
use librsync.Patch.Spec.{patch_spec}
use librsync.Emit.Delta.{AllEncodable, Encodable, meaning, meanings, patch_spec-encode_delta}
use librsync.Delta.Slack.{At, Goes, header_round, slack_round}
use librsync.Delta.Ending.{eof_round, end_round}

-- The commands of a slack delta.
unfoldable pub slack_commands : List ℕ → List DeltaCommand
slack_commands [] = []
slack_commands (b ∷ file) = new_bytes (b ∷ file) ∷ []

slack_commands-meanings : (basis file : List ℕ) → meanings basis (slack_commands file) ≡ file
unfolding slack_commands meanings meaning
slack_commands-meanings basis [] = refl
slack_commands-meanings basis (b ∷ file) = append-nil (b ∷ file)

slack_commands-AllEncodable :
    (basis file : List ℕ) → length file < 2 ^ 31 → AllEncodable basis (slack_commands file)
unfolding slack_commands AllEncodable Encodable
slack_commands-AllEncodable basis [] small = tt
slack_commands-AllEncodable basis (b ∷ file) small = ((omega arith, small), tt)

-- A job that is done and has written `out`.
record SlackDone (blake2 : List ℕ → List ℕ) (fuel : ℕ) (out : List ℕ) (j : DeltaJob) : Type 0 where
  last : DeltaJob
  works : job_work (delta_call blake2) fuel j ≡ some (done, last)
  stream : Ready out [] 0 last.io

module _ (blake2 : List ℕ → List ℕ) where
  less_room :
      {f : Option DeltaState} {out waiting queue : List ℕ} {n room : ℕ} {j : DeltaJob} (room' : ℕ)
      → room' ≤ room
      → At blake2 f out waiting n queue room j
      → At blake2 f out waiting n queue room' j
  less_room room' le a = record {
    stream = record {
      valid = a.stream.valid;
      eof = a.stream.eof;
      sent = a.stream.sent;
      commands = a.stream.commands;
      copy = a.stream.copy;
      unread = a.stream.unread;
      left = omega (arith, a.stream.left);
    };
    state = a.state;
    no_signature = a.no_signature;
  }

  then_work :
      {f : Option DeltaState} {out waiting out' queue : List ℕ} {n room : ℕ} (fuel : ℕ)
      (j : DeltaJob) (g : Goes blake2 f out waiting n queue room j)
      → SlackDone blake2 fuel out' g.next
      → SlackDone blake2 (suc fuel) out' j
  then_work fuel j g d = record {
    last = d.last;
    works = job_work-again (delta_call blake2) fuel j g.next g.moves ∙ d.works;
    stream = d.stream;
  }

  -- The last two rounds but one, and the last.
  from_end :
      (fuel : ℕ) (out : List ℕ) (j : DeltaJob)
      → At blake2 (some s_end) out [] 0 [] 1 j
      → SlackDone blake2 (suc (suc fuel)) (out ++ (0 ∷ [])) j
  from_end fuel out j a = then_work (suc fuel) j e (record {
    last = record (e.next) { io = (tube_catchup e.next.io).1; final_result = done };
    works = job_work-stop (delta_call blake2) fuel e.next _ done (
        job_round-ends (delta_call blake2) e.next e.at_next.state sent.0 sent.1.commands
          sent.1.copy);
    stream =
        subst (λ o. Ready (o ++ (0 ∷ [])) [] 0 (tube_catchup e.next.io).1) (append-nil out) sent.1;
  })
    where
      e : Goes blake2 none (out ++ []) (0 ∷ []) 0 [] 1 j
      e = end_round blake2 out [] 0 [] 1 j (omega arith) (less_room 1 (omega arith) a) refl

      sent :
          ((tube_catchup e.next.io).0 ≡ done)
          × Ready ((out ++ []) ++ ((0 ∷ []) ++ [])) [] 0 (tube_catchup e.next.io).1
      sent =
          tube_catchup-Ready (out ++ []) (0 ∷ []) 0 [] 0 e.next.io
            (less_room 1 (omega arith) e.at_next).stream (omega arith)

  started :
      (file : List ℕ) (room : ℕ)
      → At blake2 (some s_header) [] [] 0 file room (delta_begin none (new_io file true room))
  unfolding delta_begin new_io signature_for sum_for assert_that
  started file room = record {
    stream = record {
      valid = record { allocated = refl; inside = omega arith; unharmed = refl };
      eof = refl;
      sent = refl;
      commands = refl;
      copy = refl;
      unread = refl;
      left = omega arith;
    };
    state = refl;
    no_signature = refl;
  }

  abbrev magic : List ℕ
  magic = big_endian 4 delta_magic

  length-magic : length magic ≡ 4
  length-magic = refl

  after_header :
      (file : List ℕ) (room : ℕ)
      → Goes blake2 (some s_slack) [] magic 0 file room (delta_begin none (new_io file true room))
  after_header file room =
      header_round blake2 [] [] 0 file room _ (omega arith)
        (less_room (0 + 0 + room) (omega arith) (started file room))

  slack_empty :
      (room : ℕ)
      → 5 ≤ room
      → SlackDone blake2 5 (encode_delta []) (delta_begin none (new_io [] true room))
  unfolding encode_delta encode_commands
  slack_empty room enough = then_work 4 _ h (
      then_work 3 h.next e (
        subst (λ o. SlackDone blake2 3 (o ++ (0 ∷ [])) e.next) (append-nil magic)
          (from_end 1 (magic ++ []) e.next e.at_next)))
    where
      h : Goes blake2 (some s_slack) [] magic 0 [] room (delta_begin none (new_io [] true room))
      h = after_header [] room

      e : Goes blake2 (some s_end) (magic ++ []) [] 0 [] 1 h.next
      e =
          eof_round blake2 [] magic 0 [] 1 h.next (omega arith)
            (less_room (length magic + 0 + 1) (omega (arith, length-magic)) h.at_next) refl

  slack_bytes :
      (b : ℕ) (file : List ℕ) (room : ℕ)
      → length (b ∷ file) < 2 ^ 31
      → length (literal_bytes (length (b ∷ file)) ++ (b ∷ file)) + 5 ≤ room
      → SlackDone blake2 5
          (encode_delta (slack_commands (b ∷ file)))
          (delta_begin none (new_io (b ∷ file) true room))
  unfolding encode_delta encode_commands encode_command slack_commands
  slack_bytes b file room small enough = then_work 4 _ h (
      then_work 3 h.next l (
        then_work 2 l.next e
          (subst (λ o. SlackDone blake2 2 o e.next) whole (from_end 0 _ e.next e.at_next))))
    where
      whole_file : List ℕ
      whole_file = b ∷ file

      m : ℕ
      m = length whole_file

      lit : List ℕ
      lit = literal_bytes m

      h :
          Goes blake2
            (some s_slack)
            []
            magic
            0
            whole_file
            room
            (delta_begin none (new_io whole_file true room))
      h = after_header whole_file room

      l : Goes blake2 (some s_slack) (magic ++ []) lit m whole_file (length lit + m + 1) h.next
      l =
          slack_round blake2 [] magic 0 whole_file (length lit + m + 1) h.next (omega arith)
            (less_room (length magic + 0 + (length lit + m + 1))
              (omega (arith, length-magic, enough, length-append lit whole_file)) h.at_next)
            (omega arith) small

      e : Goes blake2 (some s_end) ((magic ++ []) ++ (lit ++ take m whole_file)) [] 0 [] 1 l.next
      e =
          eof_round blake2 (magic ++ []) lit m whole_file 1 l.next (omega arith) l.at_next
            (drop-all m whole_file (omega arith))

      whole :
          ((magic ++ []) ++ (lit ++ take m whole_file)) ++ (0 ∷ [])
          ≡ magic ++ ((lit ++ whole_file) ++ (0 ∷ []))
      whole =
          ap₂ (λ o t. (o ++ (lit ++ t)) ++ (0 ∷ [])) (append-nil magic)
            (take-all m whole_file (omega arith))
          ∙ append_assoc magic (lit ++ whole_file) (0 ∷ [])

  slack_done :
      (file : List ℕ) (room : ℕ)
      → length file < 2 ^ 31
      → length (encode_delta (slack_commands file)) ≤ room
      → SlackDone blake2 5
          (encode_delta (slack_commands file))
          (delta_begin none (new_io file true room))
  unfolding encode_delta encode_commands encode_command slack_commands
  slack_done [] room small enough = slack_empty room (omega (arith, enough))
  slack_done (b ∷ file) room small enough = slack_bytes b file room small (
      omega (
        arith,
        enough,
        length-magic,
        length-append magic ((literal_bytes (length (b ∷ file)) ++ (b ∷ file)) ++ (0 ∷ [])),
        length-append (literal_bytes (length (b ∷ file)) ++ (b ∷ file)) (0 ∷ []),
      ))

-- What a delta job for no signature comes to.
pub record SlackDelta (basis file : List ℕ) (answer : Option (RsResult × DeltaJob)) : Type 0 where
  pub last : DeltaJob
  pub returns : answer ≡ some (done, last)
  pub written : last.io.written ≡ encode_delta (slack_commands file)
  pub patches : patch_spec basis last.io.written ≡ (file, done)

-- A delta job with no signature, the whole file of less than 2^31 bytes as its input, its end told,
-- and room for the output: rs_job_iter returns RS_DONE within five rounds, and has written the
-- header, one literal with the whole file unless it is empty, and the END command, which patch_spec
-- turns into the file for any basis.
pub job_iter-SlackDelta :
    (blake2 : List ℕ → List ℕ) (basis file : List ℕ) (room : ℕ)
    → length file < 2 ^ 31
    → length (encode_delta (slack_commands file)) ≤ room
    → SlackDelta basis file
        (job_iter (delta_call blake2) 5 (delta_begin none (new_io file true room)))
job_iter-SlackDelta blake2 basis file room small enough = record {
  last = d.last;
  returns = job_iter-done (delta_call blake2) 5 _ d.last d.works d.stream.unread;
  written = d.stream.sent;
  patches =
      ap (patch_spec basis) d.stream.sent
      ∙ patch_spec-encode_delta basis (slack_commands file)
          (slack_commands-AllEncodable basis file small)
      ∙ ap (λ f. (f, done)) (slack_commands-meanings basis file);
}
  where
    d :
        SlackDone blake2 5
          (encode_delta (slack_commands file))
          (delta_begin none (new_io file true room))
    d = slack_done blake2 file room small enough
