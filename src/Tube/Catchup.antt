-- ===== src/Tube/Catchup.antt =====
-- `rs_tube_catchup`: what it sends, and what each of its results means.
use librsync.Prelude.{ℕ, ◌+◌, ◌≤◌, ◌<◌, ◌≡◌, refl, sym, ap, subst, ◌∙◌, arith, inl, inr}
use librsync.Prelude.{
  ◌≢◌, ◌⊎◌, Bool, true, false, ◌&&◌, ltb, ◌==◌, if◌then◌else◌, Bool-cases, tests,
}
use librsync.Prelude.{List, [], ◌++◌, length, take, drop, append_assoc, append-nil}
use librsync.Prelude.{length-drop, ==→eq, ==_false→ne}
use librsync.Prelude.Slices.{nil_of_length, take-empty, drop-empty}
use mathlib.Core.Path.{ap₂}
use librsync.Result.{RsResult, done, blocked, input_ended}
use librsync.Io.{Io}
use librsync.Scoop.{scoop_avail, scoop_eof}
use librsync.Scoop.Queue.{input, IsValid}
use librsync.Scoop.Readahead.{length-input}
use librsync.Tube.{tube_catchup_write, tube_catchup_copy, tube_finish_copy, tube_catchup}
use librsync.Tube.Copy.{Copied, copy_amount, tube_catchup_copy-Copied}

-- Why the function stopped.
pub data Outcome (io : Io) : RsResult → Type 0 where
  caught_up : io.write_buf ≡ [] → io.copy_len ≡ 0 → Outcome io done
  no_room : io.avail_out ≡ 0 → (0 < length io.write_buf) ⊎ (0 < io.copy_len) → Outcome io blocked
  starved :
      io.write_buf ≡ [] → 0 < io.copy_len → input io ≡ [] → io.eof_in ≡ false → Outcome io blocked
  cut_short :
      io.write_buf ≡ []
      → 0 < io.copy_len
      → input io ≡ []
      → io.eof_in ≡ true
      → Outcome io input_ended

-- The command bytes go out before the copied ones.
pub record Caught (io : Io) (r : RsResult) (io' : Io) : Type 0 where
  pub sent : ℕ
  pub copied : ℕ
  pub to_output : io'.written ≡ io.written ++ (take sent io.write_buf ++ take copied (input io))
  pub write_left : io'.write_buf ≡ drop sent io.write_buf
  pub rest_of_input : input io' ≡ drop copied (input io)
  pub room_left : io'.avail_out + sent + copied ≡ io.avail_out
  pub copy_left : io'.copy_len + copied ≡ io.copy_len
  pub sent_first : (copied ≡ 0) ⊎ (io'.write_buf ≡ [])
  pub sent_real : sent ≤ length io.write_buf
  pub copied_real : copied ≤ length (input io)
  pub same_eof : io'.eof_in ≡ io.eof_in
  pub still_valid : IsValid io'
  pub outcome : Outcome io' r

pub scoop_eof_lem : (io : Io) → IsValid io → scoop_eof io ≡ ((length (input io) == 0) && io.eof_in)
unfolding scoop_eof scoop_avail
scoop_eof_lem io v = rw (length-input io v)

-- A copy that is not finished is held up by the output or by the input.
copied_outcome :
    (io io' : Io)
    → Copied (copy_amount io) io io'
    → io.write_buf ≡ []
    → (io'.copy_len == 0) ≡ false
    → Outcome io' (if scoop_eof io' then input_ended else blocked)
copied_outcome io io' c idle more = elim (Bool-cases (length (input io') == 0)) [
  | inl dry ↦ elim (Bool-cases io'.eof_in) [
    | inl eof ↦
        answer (ap₂ ◌&&◌ dry eof)
          (cut_short (c.same_write_buf ∙ idle) (omega tests) (nil_of_length _ (==→eq _ _ dry)) eof)
    | inr going ↦
        answer (ap₂ ◌&&◌ dry going)
          (starved (c.same_write_buf ∙ idle) (omega tests) (nil_of_length _ (==→eq _ _ dry)) going)
  ]
  | inr wet ↦
      answer (ap (λ b. b && io'.eof_in) wet)
        (no_room (full (==_false→ne _ _ wet)) (inr (omega tests)))
]
  where
    answer :
        {b : Bool}
        → ((length (input io') == 0) && io'.eof_in) ≡ b
        → Outcome io' (if b then input_ended else blocked)
        → Outcome io' (if scoop_eof io' then input_ended else blocked)
    answer e o =
        subst (λ t. Outcome io' (if t then input_ended else blocked))
          (sym (scoop_eof_lem io' c.still_valid ∙ e)) o

    full : length (input io') ≢ 0 → io'.avail_out ≡ 0
    full w =
        unfold copy_amount in
        omega (
          tests,
          c.room_left,
          c.copy_left,
          ==_false→ne _ _ more,
          ap (λ (l : List ℕ). length l) c.rest_of_input,
          length-drop (copy_amount io) (input io),
        )

Caught-by_copy :
    (io io' : Io) (r : RsResult)
    → io.write_buf ≡ []
    → Copied (copy_amount io) io io'
    → Outcome io' r
    → Caught io r io'
Caught-by_copy io io' r idle c o = record {
  sent = 0;
  copied = copy_amount io;
  to_output = c.to_output;
  write_left = c.same_write_buf;
  rest_of_input = c.rest_of_input;
  room_left = unfold copy_amount in omega (arith, c.room_left);
  copy_left = unfold copy_amount in omega (arith, c.copy_left);
  sent_first = inr (c.same_write_buf ∙ idle);
  sent_real = omega arith;
  copied_real = unfold copy_amount in omega arith;
  same_eof = c.same_eof;
  still_valid = c.still_valid;
  outcome = o;
}

-- With no command bytes left, the copy instruction alone.
tube_finish_copy-Caught :
    (io : Io)
    → IsValid io
    → io.write_buf ≡ []
    → Caught io (tube_finish_copy io).0 (tube_finish_copy io).1
unfolding tube_finish_copy
tube_finish_copy-Caught io v idle = elim (Bool-cases (io.copy_len == 0)) [
  | inl nothing ↦ rw nothing (record {
    sent = 0;
    copied = 0;
    to_output = sym (append-nil io.written);
    write_left = refl;
    rest_of_input = refl;
    room_left = omega arith;
    copy_left = omega arith;
    sent_first = inl refl;
    sent_real = omega arith;
    copied_real = omega arith;
    same_eof = refl;
    still_valid = v;
    outcome = caught_up idle (==→eq _ _ nothing);
  })
  | inr something ↦
      let c = tube_catchup_copy-Copied io v idle (omega tests) in
      rw something (elim (Bool-cases ((tube_catchup_copy io).copy_len == 0)) [
        | inl finished ↦ rw finished (
            Caught-by_copy io _ _ idle c (caught_up (c.same_write_buf ∙ idle) (==→eq _ _ finished)))
        | inr more ↦ rw more (Caught-by_copy io _ _ idle c (copied_outcome io _ c idle more))
      ])
]

-- What `rs_tube_catchup_write` does: the front of the command bytes, as many as fit.
record Sent (n : ℕ) (io io' : Io) : Type 0 where
  to_output : io'.written ≡ io.written ++ take n io.write_buf
  write_left : io'.write_buf ≡ drop n io.write_buf
  same_input : input io' ≡ input io
  room_left : io'.avail_out + n ≡ io.avail_out
  copy_left : io'.copy_len ≡ io.copy_len
  real : n ≤ length io.write_buf
  all_or_full : (length io'.write_buf ≡ 0) ⊎ (io'.avail_out ≡ 0)
  same_eof : io'.eof_in ≡ io.eof_in
  still_valid : IsValid io'

write_amount : Io → ℕ
write_amount io =
    if ltb io.avail_out (length io.write_buf) then io.avail_out else length io.write_buf

tube_catchup_write-Sent : (io : Io) → IsValid io → Sent (write_amount io) io (tube_catchup_write io)
unfolding tube_catchup_write write_amount
tube_catchup_write-Sent io v = record {
  to_output = refl;
  write_left = refl;
  same_input = refl;
  room_left = ground arith;
  copy_left = refl;
  real = ground arith;
  all_or_full = ground (arith, length-drop (write_amount io) io.write_buf);
  same_eof = refl;
  still_valid = record { allocated = v.allocated; inside = v.inside; unharmed = v.unharmed };
}

Caught-after_send :
    (n : ℕ) (io io' io'' : Io) (r : RsResult)
    → Sent n io io'
    → io'.write_buf ≡ []
    → Caught io' r io''
    → Caught io r io''
Caught-after_send n io io' io'' r s idle c = record {
  sent = n;
  copied = c.copied;
  to_output = s_out ∙ append_assoc io.written (take n io.write_buf) (take c.copied (input io));
  write_left = c.write_left ∙ drop-empty c.sent io'.write_buf none ∙ sym (sym s.write_left ∙ idle);
  rest_of_input = c.rest_of_input ∙ ap (drop c.copied) s.same_input;
  room_left =
      omega (arith, c.room_left, c.sent_real, s.room_left, ap (λ (l : List ℕ). length l) idle);
  copy_left = omega (arith, c.copy_left, s.copy_left);
  sent_first = inr (c.write_left ∙ drop-empty c.sent io'.write_buf none);
  sent_real = s.real;
  copied_real = omega (arith, c.copied_real, ap (λ (l : List ℕ). length l) s.same_input);
  same_eof = c.same_eof ∙ s.same_eof;
  still_valid = c.still_valid;
  outcome = c.outcome;
}
  where
    none : length io'.write_buf ≡ 0
    none = ap (λ (l : List ℕ). length l) idle

    s_out : io''.written ≡ (io.written ++ take n io.write_buf) ++ take c.copied (input io)
    s_out =
        c.to_output
        ∙ ap (λ l. io'.written ++ (l ++ take c.copied (input io')))
            (take-empty c.sent io'.write_buf none)
        ∙ ap₂ (λ l q. l ++ take c.copied q) s.to_output s.same_input

-- rs_tube_catchup on a valid stream sends the waiting command bytes and then copies input, in that
-- order, as far as input and output room allow; its result says whether the tube is empty (done),
-- waits for room or for input (blocked), or was cut off by the end of the input (input_ended), and
-- no assertion fails.
pub tube_catchup-Caught : (io : Io) → IsValid io → Caught io (tube_catchup io).0 (tube_catchup io).1
unfolding tube_catchup
tube_catchup-Caught io v = elim (Bool-cases (length io.write_buf == 0)) [
  | inl idle ↦ rw (idle, idle) (tube_finish_copy-Caught io v (nil_of_length _ (==→eq _ _ idle)))
  | inr busy ↦ rw busy (elim (Bool-cases (length io'.write_buf == 0)) [
    | inl sent ↦
        let none = nil_of_length io'.write_buf (==→eq _ _ sent) in
        rw sent (
          Caught-after_send (write_amount io) io io' _ _ s none
            (tube_finish_copy-Caught io' s.still_valid none))
    | inr left ↦ rw left (blocked_by_output (==_false→ne _ _ left))
  ])
]
  where
    io' : Io
    io' = tube_catchup_write io

    s : Sent (write_amount io) io io'
    s = tube_catchup_write-Sent io v

    blocked_by_output : length io'.write_buf ≢ 0 → Caught io blocked io'
    blocked_by_output w = record {
      sent = write_amount io;
      copied = 0;
      to_output =
          s.to_output
          ∙ ap (λ l. io.written ++ l) (sym (append-nil (take (write_amount io) io.write_buf)));
      write_left = s.write_left;
      rest_of_input = s.same_input;
      room_left = omega (arith, s.room_left);
      copy_left = omega (arith, s.copy_left);
      sent_first = inl refl;
      sent_real = s.real;
      copied_real = omega arith;
      same_eof = s.same_eof;
      still_valid = s.still_valid;
      outcome = no_room (full s.all_or_full) (inl (omega arith));
    }
      where
        full : (length io'.write_buf ≡ 0) ⊎ (io'.avail_out ≡ 0) → io'.avail_out ≡ 0
        full (inl e) = absurd (w e)
        full (inr e) = e
