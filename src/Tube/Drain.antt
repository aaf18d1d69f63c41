-- ===== src/Tube/Drain.antt =====
-- `rs_tube_catchup` with room for all that waits in the tube.
use librsync.Prelude.{◌+◌, ◌-◌, ◌≤◌, ◌≡◌, refl, sym, ap, ◌∙◌, arith, inl, inr}
use librsync.Prelude.{[], ◌++◌, length, take, drop, length-drop}
use librsync.Prelude.Slices.{take-all}
use librsync.Result.{RsResult, done}
use librsync.Io.{Io}
use librsync.Scoop.Queue.{input, IsValid}
use librsync.Tube.{tube_catchup}
use librsync.Tube.Catchup.{
  Caught, Outcome, caught_up, no_room, starved, cut_short, tube_catchup-Caught,
}

-- The command bytes and the copied input are all sent.
pub record AllSent (io : Io) (r : RsResult) (io' : Io) : Type 0 where
  pub finished : r ≡ done
  pub to_output : io'.written ≡ io.written ++ (io.write_buf ++ take io.copy_len (input io))
  pub nothing_waits : io'.write_buf ≡ []
  pub no_copy : io'.copy_len ≡ 0
  pub rest_of_input : input io' ≡ drop io.copy_len (input io)
  pub room_left : io'.avail_out + length io.write_buf + io.copy_len ≡ io.avail_out
  pub same_eof : io'.eof_in ≡ io.eof_in
  pub still_valid : IsValid io'

module _ (io io' : Io) (r : RsResult) (c : Caught io r io')
    (room : length io.write_buf + io.copy_len ≤ io.avail_out)
    (enough : io.copy_len ≤ length (input io)) where
  left_over : length io'.write_buf ≡ length io.write_buf - c.sent
  left_over = ap length c.write_left ∙ length-drop c.sent io.write_buf

  unread : length (input io') ≡ length (input io) - c.copied
  unread = ap length c.rest_of_input ∙ length-drop c.copied (input io)

  sent_all : io'.write_buf ≡ [] → io'.copy_len ≡ 0 → r ≡ done → AllSent io r io'
  sent_all empty idle e = record {
    finished = e;
    to_output =
        c.to_output
        ∙ ap (λ l. io.written ++ (l ++ take c.copied (input io)))
            (take-all c.sent io.write_buf (omega (arith, left_over, ap length empty)))
        ∙ ap (λ n. io.written ++ (io.write_buf ++ take n (input io))) copied_all;
    nothing_waits = empty;
    no_copy = idle;
    rest_of_input = c.rest_of_input ∙ ap (λ n. drop n (input io)) copied_all;
    room_left = omega (arith, c.room_left, c.sent_real, left_over, ap length empty, copied_all);
    same_eof = c.same_eof;
    still_valid = c.still_valid;
  }
    where
      copied_all : c.copied ≡ io.copy_len
      copied_all = omega (arith, c.copy_left, idle)

  by_outcome : (s : RsResult) → Outcome io' s → s ≡ r → AllSent io r io'
  by_outcome s (caught_up empty idle) e = sent_all empty idle (sym e)
  by_outcome s (no_room full (inl more)) e =
      absurd (omega (arith, left_over, c.room_left, c.sent_real, c.copy_left, full))
  by_outcome s (no_room full (inr more)) e =
      absurd (omega (arith, left_over, c.room_left, c.sent_real, c.copy_left, full))
  by_outcome s (starved empty more none_left _) e =
      absurd (omega (arith, unread, ap length none_left, c.copy_left, c.copied_real))
  by_outcome s (cut_short empty more none_left _) e =
      absurd (omega (arith, unread, ap length none_left, c.copy_left, c.copied_real))

pub tube_catchup-AllSent :
    (io : Io)
    → IsValid io
    → length io.write_buf + io.copy_len ≤ io.avail_out
    → io.copy_len ≤ length (input io)
    → AllSent io (tube_catchup io).0 (tube_catchup io).1
tube_catchup-AllSent io v room enough =
    by_outcome io (tube_catchup io).1 (tube_catchup io).0 (tube_catchup-Caught io v) room enough
      (tube_catchup io).0 (tube_catchup-Caught io v).outcome refl
