-- ===== src/Scoop/Readahead.antt =====
-- `rs_scoop_readahead` and `rs_scoop_advance` on the queue of unread bytes.
use librsync.Prelude.{ℕ, ◌+◌, ◌-◌, ◌^◌, ◌≤◌, ◌<◌, ◌≡◌, refl, sym, ap, ◌∙◌, ◌⊎◌, inl, inr}
use librsync.Prelude.{arith, Bool, not, ◌&&◌, ltb, leb, ◌==◌, if◌then◌else◌}
use librsync.Prelude.{Bool-cases, List, [], ◌++◌, length, take, drop}
use librsync.Prelude.{length-append}
use librsync.Prelude.{le→leb, ==_iff, leb→le, lt→leb, leb_false→lt, ne→==, dec_le, tests}
use mathlib.Core.Path.{ap₂}
use librsync.Prelude.Slices.{take-take, drop-take, drop-drop, take-append_le, drop-append_le}
use librsync.Result.{RsResult, done, blocked, input_ended}
use librsync.Io.{Io, assert_that}
use librsync.Scoop.{live, scoop_input, scoop_check, scoop_readahead, scoop_advance}
use librsync.Scoop.Queue.{input, IsValid, outputs}
use librsync.Scoop.Input.{length-live, TookInput, scoop_input-TookInput}

-- `len` bytes can be consumed in one piece.
abbrev pub Contiguous : ℕ → Io → Type 0
Contiguous len io =
    ((io.scoop_avail ≡ 0) × (len ≤ length io.next_in))
    ⊎ ((0 < io.scoop_avail) × (len ≤ io.scoop_avail))

-- The queue's own account of a readahead: `done` with the first `len` bytes if there are as many,
-- else `input_ended` at the end of the input and `blocked` before it.
unfoldable pub peek : ℕ → List ℕ → Bool → RsResult × List ℕ
peek len queue eof =
    if leb len (length queue)
    then (done, take len queue)
    else (if eof then input_ended else blocked, [])

pub record ReadAhead (len : ℕ) (io : Io) (r : RsResult × List ℕ × Io) : Type 0 where
  pub answer : (r.0, r.1) ≡ peek len (input io) io.eof_in
  pub same_input : input r.2 ≡ input io
  pub still_valid : IsValid r.2
  pub same_outputs : outputs r.2 ≡ outputs io
  pub in_one_piece : len ≤ length (input io) → Contiguous len r.2
  pub shorter_next_in : length r.2.next_in ≤ length io.next_in

pub length-input : (io : Io) → IsValid io → length (input io) ≡ io.scoop_avail + length io.next_in
length-input io v = omega (arith, length-append (live io) io.next_in, length-live io v)

-- The first `len` bytes of the queue lie in the scoop when that holds as many.
take-input :
    (len : ℕ) (io : Io)
    → IsValid io
    → len ≤ io.scoop_avail
    → take len (input io) ≡ take len (drop io.scoop_next io.scoop_buf)
take-input len io v h =
    take-append_le len (live io) io.next_in (omega (arith, length-live io v))
    ∙ take-take len io.scoop_avail (drop io.scoop_next io.scoop_buf) h

pub peek-done :
    (len : ℕ) (queue : List ℕ) (eof : Bool)
    → len ≤ length queue
    → peek len queue eof ≡ (done, take len queue)
unfolding peek
peek-done len queue eof h = rw (le→leb len (length queue) h)

pub peek_short :
    (len : ℕ) (queue : List ℕ) (eof : Bool)
    → length queue < len
    → peek len queue eof ≡ (if eof then input_ended else blocked, [])
unfolding peek
peek_short len queue eof h = rw (lt→leb len (length queue) h)

-- The end of the function, once the scoop has `len` bytes or the caller's buffer is empty.
scoop_check-ReadAhead :
    (len : ℕ) (io : Io)
    → IsValid io
    → 0 < len
    → (len ≤ io.scoop_avail) ⊎ (length io.next_in ≡ 0)
    → ReadAhead len io (scoop_check len io)
unfolding scoop_check
scoop_check-ReadAhead len io v pos enough = elim (Bool-cases (leb len io.scoop_avail)) [
  | inl all ↦ rw all (record {
    answer =
        ap (λ l. (done, l)) (sym (take-input len io v (leb→le _ _ all)))
        ∙ sym (peek-done len (input io) io.eof_in (omega (tests, length-input io v)));
    same_input = refl;
    still_valid = v;
    same_outputs = refl;
    in_one_piece = λ h. inr (omega tests, omega tests);
    shorter_next_in = omega arith;
  })
  | inr few ↦ rw few (record {
    answer = sym (
        peek_short len (input io) io.eof_in
          (omega (tests, leb_false→lt _ _ few, length-input io v)));
    same_input = refl;
    still_valid = v;
    same_outputs = refl;
    in_one_piece = λ h. absurd (omega (tests, leb_false→lt _ _ few, length-input io v));
    shorter_next_in = omega arith;
  })
]

-- A readahead that first took input in is one of the state before.
ReadAhead-after :
    (len : ℕ) (io io' : Io) (r : RsResult × List ℕ × Io)
    → IsValid io
    → io.scoop_avail < len
    → TookInput len io io'
    → ReadAhead len io' r
    → ReadAhead len io r
ReadAhead-after len io io' r v lt t h = record {
  answer = h.answer ∙ ap₂ (peek len) t.same_input (ap (λ o. o.0) t.same_fields);
  same_input = h.same_input ∙ t.same_input;
  still_valid = h.still_valid;
  same_outputs = h.same_outputs ∙ t.same_fields;
  in_one_piece = λ e. h.in_one_piece (rw t.same_input e);
  shorter_next_in = omega (
    arith,
    h.shorter_next_in,
    t.now_avail,
    length-input io v,
    length-input io' t.still_valid,
    ap (λ (l : List ℕ). length l) t.same_input,
  );
}

pub input-next_in : (io : Io) → io.scoop_avail ≡ 0 → input io ≡ io.next_in
input-next_in io e = ap (λ n. take n (drop io.scoop_next io.scoop_buf) ++ io.next_in) e

-- rs_scoop_readahead of 1 to 2^63 bytes on a valid stream answers as one queue of the scoop and the
-- input would: done with its first bytes if there are as many, else input_ended or blocked by
-- eof_in; the queue and the output side stay the same, no assertion fails, and the bytes lie in one
-- piece.
pub scoop_readahead-ReadAhead :
    (len : ℕ) (io : Io)
    → IsValid io
    → 0 < len
    → len ≤ 2 ^ 63
    → ReadAhead len io (scoop_readahead len io)
unfolding scoop_readahead
scoop_readahead-ReadAhead len io v pos small =
    elim (Bool-cases ((io.scoop_avail == 0) && leb len (length io.next_in))) [
      | inl direct ↦ rw direct (record {
        answer =
            ap (λ l. (done, take len l)) (sym (input-next_in io (ground arith)))
            ∙ sym (peek-done len (input io) io.eof_in (ground (arith, length-input io v)));
        same_input = refl;
        still_valid = v;
        same_outputs = refl;
        in_one_piece = λ e. inl (ground arith, ground arith);
        shorter_next_in = omega arith;
      })
      | inr indirect ↦
          rw indirect (elim (Bool-cases (ltb io.scoop_avail len && not (length io.next_in == 0))) [
            | inl more ↦ rw more (
                let t = scoop_input-TookInput len io small (ground arith) v in
                ReadAhead-after len io (scoop_input len io) _ v (ground arith) t (
                  scoop_check-ReadAhead len (scoop_input len io) t.still_valid pos
                    (all_or_empty t)))
            | inr stay ↦ rw stay (scoop_check-ReadAhead len io v pos (ground arith))
          ])
    ]
  where
    all_or_empty :
        TookInput len io (scoop_input len io)
        → (len ≤ (scoop_input len io).scoop_avail) ⊎ (length (scoop_input len io).next_in ≡ 0)
    all_or_empty t = elim (dec_le len (io.scoop_avail + length io.next_in)) [
      | yes all ↦ inl (omega (arith, t.now_avail))
      | no few ↦ inr (
          omega (
            arith,
            t.now_avail,
            length-input io v,
            length-input (scoop_input len io) t.still_valid,
            ap (λ (l : List ℕ). length l) t.same_input,
          ))
    ]

-- What `rs_scoop_advance` does to a piece that a readahead found: exactly those bytes leave the queue.
pub record Advanced (len : ℕ) (io io' : Io) : Type 0 where
  pub rest_of_input : input io' ≡ drop len (input io)
  pub still_valid : IsValid io'
  pub same_outputs : outputs io' ≡ outputs io

-- rs_scoop_advance over bytes that lie in one piece takes exactly these off the front of the queue;
-- the stream stays valid and the output side stays the same.
pub scoop_advance-Advanced :
    (len : ℕ) (io : Io) → IsValid io → Contiguous len io → Advanced len io (scoop_advance len io)
unfolding scoop_advance assert_that
scoop_advance-Advanced len io v (inl (empty, fits)) =
    rw ((==_iff io.scoop_avail 0).1 empty, le→leb len (length io.next_in) fits)
      (record {
        rest_of_input =
            ap (λ n. take n (drop io.scoop_next io.scoop_buf) ++ drop len io.next_in) empty
            ∙ ap (drop len) (sym (input-next_in io empty));
        still_valid = record { allocated = v.allocated; inside = v.inside; unharmed = v.unharmed };
        same_outputs = refl;
      })
scoop_advance-Advanced len io v (inr (some_left, fits)) =
    rw (ne→== io.scoop_avail 0 (omega arith), le→leb len io.scoop_avail fits)
      (record {
        rest_of_input =
            ap (λ l. take (io.scoop_avail - len) l ++ io.next_in)
              (sym (drop-drop io.scoop_next len io.scoop_buf))
            ∙ ap (λ l. l ++ io.next_in)
                (sym (drop-take len io.scoop_avail (drop io.scoop_next io.scoop_buf)))
            ∙ sym (drop-append_le len (live io) io.next_in (omega (arith, length-live io v)));
        still_valid = record {
          allocated = v.allocated;
          inside = omega arith;
          unharmed = v.unharmed;
        };
        same_outputs = refl;
      })
