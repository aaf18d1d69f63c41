-- ===== src/Tube/Copy.antt =====
-- `rs_tube_catchup_copy`: bytes of the input go to the output, as many as both sides allow.
use librsync.Prelude.{
  ℕ, zero, suc, ◌+◌, ◌-◌, ◌≤◌, ◌<◌, ◌≡◌, refl, sym, ap, subst, ◌∙◌, arith, min, ◌⊎◌, inl, inr,
}
use librsync.Prelude.{true, ◌&&◌, ltb, ◌==◌, if◌then◌else◌, Bool-cases, tests}
use librsync.Prelude.{List, [], ◌++◌, length, take, drop, append_assoc, append-nil}
use librsync.Prelude.{length-drop, ==→eq, lt→ltb}
use librsync.Prelude.Slices.{take-append_le, take-add, drop-drop}
use mathlib.Core.Path.{ap₂}
use librsync.Io.{Io, assert_that}
use librsync.Scoop.{live, scoop_avail, scoop_len, scoop_ptr, scoop_getbuf, scoop_advance}
use librsync.Scoop.Queue.{input, IsValid}
use librsync.Scoop.Input.{length-live}
use librsync.Scoop.Readahead.{
  Contiguous, Advanced, scoop_advance-Advanced, length-input, input-next_in,
}
use librsync.Tube.{copy_loop, tube_copy_len, tube_catchup_copy}

-- One piece: how long it is, and that it is the front of the queue.
scoop_getbuf_lem :
    (len : ℕ) (io : Io)
    → IsValid io
    → len ≤ length (input io)
    → let (ilen, next) = scoop_getbuf io len in
      (next ≡ take ilen (input io)) × (ilen ≤ len) × Contiguous ilen io × (ilen ≡ 0 → len ≡ 0)
unfolding scoop_getbuf scoop_len scoop_ptr
scoop_getbuf_lem len io v fits = elim (Bool-cases (io.scoop_avail == 0)) [
  | inl empty ↦ rw empty (
    front (length io.next_in) (==→eq _ _ empty),
    cut_le (length io.next_in),
    inl (==→eq _ _ empty, cut_le_max (length io.next_in)),
    λ z. cut-zero (length io.next_in) z (inl (omega (tests, length-input io v))),
  )
  | inr some_left ↦ rw some_left (
    piece (cut io.scoop_avail) (cut_le_max io.scoop_avail),
    cut_le io.scoop_avail,
    inr (omega tests, cut_le_max io.scoop_avail),
    λ z. cut-zero io.scoop_avail z (inr (omega tests)),
  )
]
  where
    cut : ℕ → ℕ
    cut most = if ltb most len then most else len

    cut_le : (most : ℕ) → cut most ≤ len
    cut_le most = ground arith

    cut_le_max : (most : ℕ) → cut most ≤ most
    cut_le_max most = ground arith

    cut-zero : (most : ℕ) → cut most ≡ 0 → (len ≤ most) ⊎ (0 < most) → len ≡ 0
    cut-zero most z h = ground arith

    front :
        (most : ℕ) → io.scoop_avail ≡ 0 → take (cut most) io.next_in ≡ take (cut most) (input io)
    front most z = ap (take (cut most)) (sym (input-next_in io z))

    piece : (n : ℕ) → n ≤ io.scoop_avail → take n (live io) ≡ take n (input io)
    piece n h = sym (take-append_le n (live io) io.next_in (omega (arith, length-live io v)))

-- What copying `n` bytes does.
pub record Copied (n : ℕ) (io io' : Io) : Type 0 where
  pub to_output : io'.written ≡ io.written ++ take n (input io)
  pub rest_of_input : input io' ≡ drop n (input io)
  pub room_left : io'.avail_out ≡ io.avail_out - n
  pub copy_left : io'.copy_len ≡ io.copy_len - n
  pub same_write_buf : io'.write_buf ≡ io.write_buf
  pub same_eof : io'.eof_in ≡ io.eof_in
  pub still_valid : IsValid io'

Copied-none : (io : Io) → IsValid io → Copied 0 io io
Copied-none io v = record {
  to_output = sym (append-nil io.written);
  rest_of_input = refl;
  room_left = omega arith;
  copy_left = omega arith;
  same_write_buf = refl;
  same_eof = refl;
  still_valid = v;
}

Copied-trans : (a b : ℕ) (x y z : Io) → Copied a x y → Copied b y z → Copied (a + b) x z
Copied-trans a b x y z p q = record {
  to_output =
      q.to_output
      ∙ ap₂ (λ l m. l ++ take b m) p.to_output p.rest_of_input
      ∙ append_assoc x.written (take a (input x)) (take b (drop a (input x)))
      ∙ ap (λ l. x.written ++ l) (sym (take-add a b (input x)));
  rest_of_input = q.rest_of_input ∙ ap (drop b) p.rest_of_input ∙ drop-drop a b (input x);
  room_left = omega (arith, p.room_left, q.room_left);
  copy_left = omega (arith, p.copy_left, q.copy_left);
  same_write_buf = q.same_write_buf ∙ p.same_write_buf;
  same_eof = q.same_eof ∙ p.same_eof;
  still_valid = q.still_valid;
}

-- One round of the loop: a piece of `n` bytes.
copy_round :
    (n : ℕ) (next : List ℕ) (io : Io)
    → IsValid io
    → Contiguous n io
    → next ≡ take n (input io)
    → Copied n io (
        scoop_advance n (record io {
          written = io.written ++ next;
          avail_out = io.avail_out - n;
          copy_len = io.copy_len - n;
        }))
copy_round n next io v c e = record {
  to_output = ap (λ o. o.2) a.same_outputs ∙ ap (λ l. io.written ++ l) e;
  rest_of_input = a.rest_of_input;
  room_left = ap (λ o. o.1) a.same_outputs;
  copy_left = ap (λ o. o.4) a.same_outputs;
  same_write_buf = ap (λ o. o.3) a.same_outputs;
  same_eof = ap (λ o. o.0) a.same_outputs;
  still_valid = a.still_valid;
}
  where
    io' : Io
    io' = record io {
      written = io.written ++ next;
      avail_out = io.avail_out - n;
      copy_len = io.copy_len - n;
    }

    v' : IsValid io'
    v' = record { allocated = v.allocated; inside = v.inside; unharmed = v.unharmed }

    a : Advanced n io' (scoop_advance n io')
    a = scoop_advance-Advanced n io' v' c

-- The loop ends with all `len` bytes copied, and never reads past what the queue holds.
copy_loop-Copied :
    (fuel len : ℕ) (io : Io)
    → len < fuel
    → len ≤ length (input io)
    → IsValid io
    → Copied len io (copy_loop fuel len io)
unfolding copy_loop
copy_loop-Copied zero len io enough fits v = absurd (omega arith)
copy_loop-Copied (suc fuel) len io enough fits v =
    let (next_eq, le, contiguous, stops) = scoop_getbuf_lem len io v fits in
    let ilen = (scoop_getbuf io len).0 in
    elim (Bool-cases (ilen == 0)) [
      | inl stop ↦
          rw stop (subst (λ n. Copied n io io) (sym (stops (==→eq _ _ stop))) (Copied-none io v))
      | inr more ↦
          let round = copy_round ilen (scoop_getbuf io len).1 io v contiguous next_eq in
          let io' = scoop_advance ilen (record io {
            written = io.written ++ (scoop_getbuf io len).1;
            avail_out = io.avail_out - ilen;
            copy_len = io.copy_len - ilen;
          }) in
          rw more (
            subst (λ n. Copied n io (copy_loop fuel (len - ilen) io')) (whole ilen le)
              (Copied-trans ilen (len - ilen) io io' (copy_loop fuel (len - ilen) io') round (
                copy_loop-Copied fuel (len - ilen) io' (omega tests)
                  (rw round.rest_of_input (omega (arith, length-drop ilen (input io))))
                  round.still_valid)))
    ]
  where
    whole : (n : ℕ) → n ≤ len → n + (len - n) ≡ len
    whole n h = omega arith

-- As many bytes as the instruction wants, the queue has and the output has room for.
unfoldable pub copy_amount : Io → ℕ
copy_amount io = min io.copy_len (min (length (input io)) io.avail_out)

pub tube_catchup_copy-Copied :
    (io : Io)
    → IsValid io
    → io.write_buf ≡ []
    → 0 < io.copy_len
    → Copied (copy_amount io) io (tube_catchup_copy io)
unfolding tube_catchup_copy assert_that copy_amount
tube_catchup_copy-Copied io v idle some_left =
    rw (asserted, ← amount)
      (copy_loop-Copied (suc (tube_copy_len io)) (tube_copy_len io) io (omega arith)
        (omega (arith, amount)) v)
  where
    asserted : ((length io.write_buf == 0) && ltb 0 io.copy_len) ≡ true
    asserted = rw idle (lt→ltb 0 io.copy_len some_left)

    amount : tube_copy_len io ≡ min io.copy_len (min (length (input io)) io.avail_out)
    amount = unfold tube_copy_len scoop_avail in ground (arith, length-input io v)
