-- ===== src/Scoop/Read.antt =====
-- `rs_scoop_read` and `rs_scoop_read_rest`: readahead that also consumes.
use librsync.Prelude.{ℕ, ◌^◌, ◌≤◌, ◌<◌, ◌≡◌, refl, sym, ap, ◌∙◌, inl, inr}
use librsync.Prelude.{arith, Bool, leb, ◌==◌, if◌then◌else◌, Bool-cases}
use librsync.Prelude.{List, [], ◌∷◌, length, drop, le→leb, leb→le, tests}
use librsync.Prelude.Slices.{take-all, drop-all}
use librsync.Result.{RsResult, done, blocked, input_ended, is_done}
use librsync.Io.{Io}
use librsync.Scoop.{scoop_avail, scoop_readahead, scoop_advance, scoop_read, scoop_read_rest}
use librsync.Scoop.Queue.{input, IsValid, outputs}
use librsync.Scoop.Readahead.{peek, peek-done, ReadAhead, scoop_readahead-ReadAhead}
use librsync.Scoop.Readahead.{scoop_advance-Advanced, length-input}

-- The queue after a read: shorter by `len` bytes if there were as many.
abbrev pub after_read : ℕ → List ℕ → List ℕ
after_read len queue = if leb len (length queue) then drop len queue else queue

pub record ReadAway (len : ℕ) (io : Io) (r : RsResult × List ℕ × Io) : Type 0 where
  pub answer : (r.0, r.1) ≡ peek len (input io) io.eof_in
  pub rest_of_input : input r.2 ≡ after_read len (input io)
  pub still_valid : IsValid r.2
  pub same_outputs : outputs r.2 ≡ outputs io

-- rs_scoop_read of 1 to 2^63 bytes on a valid stream answers what the queue says and takes exactly
-- the bytes that it returns off the queue; on any other result than done the queue stays the same.
pub scoop_read-ReadAway :
    (len : ℕ) (io : Io) → IsValid io → 0 < len → len ≤ 2 ^ 63 → ReadAway len io (scoop_read len io)
unfolding scoop_read
scoop_read-ReadAway len io v pos small =
    go (scoop_readahead len io) (scoop_readahead-ReadAhead len io v pos small)
  where
    -- `done` means that there were enough bytes.
    enough :
        (r : RsResult) (bytes : List ℕ)
        → (r, bytes) ≡ peek len (input io) io.eof_in
        → leb len (length (input io)) ≡ is_done r
    enough r bytes e = unfold peek in ground arith

    go :
        (r : RsResult × List ℕ × Io)
        → ReadAhead len io r
        → ReadAway len io
            (if is_done r.0 then (r.0, r.1, scoop_advance len r.2) else (r.0, r.1, r.2))
    go (r, bytes, io') h = elim (Bool-cases (is_done r)) [
      | inl good ↦
          let all = enough r bytes h.answer ∙ good in
          let a = scoop_advance-Advanced len io' h.still_valid (h.in_one_piece (leb→le _ _ all)) in
          rw good (record {
            answer = h.answer;
            rest_of_input = rw all (a.rest_of_input ∙ ap (drop len) h.same_input);
            still_valid = a.still_valid;
            same_outputs = a.same_outputs ∙ h.same_outputs;
          })
      | inr bad ↦ rw bad (record {
        answer = h.answer;
        rest_of_input = rw (enough r bytes h.answer ∙ bad) h.same_input;
        still_valid = h.still_valid;
        same_outputs = h.same_outputs;
      })
    ]

-- All that is left: `done` with the whole queue, or the reason why it is empty.
unfoldable pub peek_rest : List ℕ → Bool → RsResult × List ℕ
peek_rest [] eof = (if eof then input_ended else blocked, [])
peek_rest (x ∷ xs) eof = (done, x ∷ xs)

pub record ReadRest (io : Io) (r : RsResult × List ℕ × Io) : Type 0 where
  pub answer : (r.0, r.1) ≡ peek_rest (input io) io.eof_in
  pub nothing_left : input r.2 ≡ []
  pub still_valid : IsValid r.2
  pub same_outputs : outputs r.2 ≡ outputs io

-- rs_scoop_read_rest on a valid stream with at most 2^63 bytes returns the whole queue and empties
-- it, or says by eof_in why there is nothing.
pub scoop_read_rest-ReadRest :
    (io : Io) → IsValid io → length (input io) ≤ 2 ^ 63 → ReadRest io (scoop_read_rest io)
unfolding scoop_read_rest scoop_avail
scoop_read_rest-ReadRest io v small = elim (Bool-cases (scoop_avail io == 0)) [
  | inl none_left ↦ rw none_left (record {
    answer = empty (input io) (omega (tests, length-input io v));
    nothing_left = nil (input io) (omega (tests, length-input io v));
    still_valid = v;
    same_outputs = refl;
  })
  | inr some_left ↦
      let r =
        scoop_read-ReadAway (scoop_avail io) io v (omega tests)
          (omega (tests, length-input io v)) in
      rw some_left (record {
        answer =
            r.answer ∙ whole (input io) (scoop_avail io) (sym (length-input io v)) (omega tests);
        nothing_left = r.rest_of_input ∙ left (input io) (scoop_avail io) (sym (length-input io v));
        still_valid = r.still_valid;
        same_outputs = r.same_outputs;
      })
]
  where
    empty :
        (q : List ℕ)
        → length q ≡ 0
        → (if io.eof_in then input_ended else blocked, []) ≡ peek_rest q io.eof_in
    empty [] e = unfold peek_rest in refl
    empty (x ∷ q) e = absurd (omega arith)

    whole : (q : List ℕ) (n : ℕ) → n ≡ length q → 0 < n → peek n q io.eof_in ≡ peek_rest q io.eof_in
    whole [] n e h = absurd (omega arith)
    whole (x ∷ q) n e h =
        peek-done n (x ∷ q) io.eof_in (omega arith)
        ∙ ap (λ l. (done, l)) (take-all n (x ∷ q) (omega arith))
        ∙ (unfold peek_rest in refl)

    left : (q : List ℕ) (n : ℕ) → n ≡ length q → after_read n q ≡ []
    left q n e = rw (le→leb n (length q) (omega arith)) (drop-all n q (omega arith))

    nil : (q : List ℕ) → length q ≡ 0 → q ≡ []
    nil [] e = refl
    nil (x ∷ q) e = absurd (omega arith)
