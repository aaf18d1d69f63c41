-- ===== src/Patch/Whole.antt =====
-- src/job.c and src/patch.c: a sequence of calls on a delta in pieces, beside the meaning of the delta.
use librsync.Prelude.{
  ℕ, suc, ◌+◌, ◌≤◌, ◌<◌, ◌≡◌, ◌⊎◌, inl, inr, refl, sym, ap, ◌∙◌, arith, Bool-cases,
}
use librsync.Prelude.{Bool, true, false, ◌||◌, subst}
use librsync.Prelude.{List, [], ◌∷◌, ◌++◌, length, length-append, append_assoc, All, IsByte}
use librsync.Prelude.{some}
use librsync.Result.{RsResult, is_blocked, is_running}
use librsync.Io.{new_io}
use librsync.Scoop.{live}
use librsync.Scoop.Queue.{input}
use librsync.Netint.Bytes.{All-append}
use librsync.Job.{job_work}
use librsync.Patch.{PatchJob, CopyCb, patch_call, patch_begin}
use librsync.Patch.Spec.{prepend, literal_spec, patch_spec}
use librsync.Patch.Meaning.{
  state_spec, statefn_spec, full, full-idle, Possible, MeetsIf, PatchValid, work_left,
}
use librsync.Patch.Copying.{ReadsBasis}
use librsync.Patch.Call.{Returned}
use librsync.Patch.Step.{true≢false}
use librsync.Patch.Work.{Works, job_work-Works}
use librsync.Patch.Delivery.{
  Piece, hand_over, calls, bytes_of, room_of, IsDelivery, ends, outcome_of,
}

module _ (basis : List ℕ) where
  hand_over-valid :
      (p : Piece) (j : PatchJob) → All IsByte p.bytes → PatchValid j → PatchValid (hand_over p j)
  unfolding hand_over
  hand_over-valid p j b v = record {
    io_valid = record {
      allocated = v.io_valid.allocated;
      inside = v.io_valid.inside;
      unharmed = v.io_valid.unharmed;
    };
    no_commands = v.no_commands;
    bytes =
        subst (All IsByte) (append_assoc (live j.io) j.io.next_in p.bytes)
          (All-append IsByte (input j.io) p.bytes v.bytes b);
    state_ok = v.state_ok;
  }

  hand_over-full :
      (p : Piece) (j : PatchJob) (future : List ℕ)
      → full basis (hand_over p j) future ≡ full basis j (p.bytes ++ future)
  unfolding hand_over full
  hand_over-full p j future =
      ap
        (λ q.
          prepend j.io.written (literal_spec (statefn_spec basis j.statefn j.vars) j.io.copy_len q))
        (ap (λ q. q ++ future) (sym (append_assoc (live j.io) j.io.next_in p.bytes))
          ∙ append_assoc (input j.io) p.bytes future)

  -- What has been written is the front of the outcome.
  full_room :
      (j : PatchJob) (future : List ℕ) → length j.io.written ≤ length (full basis j future).0
  unfolding full
  full_room j future = omega (
    arith,
    length-append j.io.written
        (literal_spec (statefn_spec basis j.statefn j.vars) j.io.copy_len (input j.io ++ future)).0,
  )

  -- A call is not blocked when all of the input is there and room is left.
  not_stuck :
      (j j' : PatchJob) (r : RsResult)
      → Returned basis j r j'
      → is_blocked r ≡ true
      → j.io.eof_in ≡ true
      → length j.io.written + j.io.avail_out ≤ length (full basis j' []).0
  not_stuck j j' r w b eof = by_wait (w.waits b)
    where
      by_wait :
          (j.io.eof_in ≡ false) ⊎ (j'.io.avail_out ≡ 0)
          → length j.io.written + j.io.avail_out ≤ length (full basis j' []).0
      by_wait (inl going) = absurd (true≢false (sym eof ∙ going))
      by_wait (inr no_space) = omega (arith, w.room, no_space, full_room j' [])

  Returned-over :
      (j j' : PatchJob) (r : RsResult)
      → Returned basis j r j'
      → is_blocked r ≡ false
      → (future : List ℕ) → Possible basis j.io.eof_in future
      → full basis j future ≡ (j'.io.written, r)
  Returned-over j j' r w b future possible =
      subst (λ t. MeetsIf basis t j r j' future)
        (or_false (is_running r) (is_blocked r) w.not_running b) (w.meets future possible)
    where
      or_false : (b c : Bool) → b ≡ false → c ≡ false → (b || c) ≡ false
      or_false b c h k = ground arith

  Returned-blocked :
      (j j' : PatchJob) (r : RsResult)
      → Returned basis j r j'
      → is_blocked r ≡ true
      → (future : List ℕ) → Possible basis j.io.eof_in future
      → full basis j' future ≡ full basis j future
  Returned-blocked j j' r w b future possible =
      subst (λ t. MeetsIf basis t j r j' future) (or_true (is_running r) (is_blocked r) b)
        (w.meets future possible)
    where
      or_true : (b c : Bool) → c ≡ true → (b || c) ≡ true
      or_true b c h = ground arith

  -- After a call, the rest of the calls.
  after_call :
      (copy_cb : CopyCb) (p : Piece) (ps : List Piece) (j : PatchJob)
      → ReadsBasis basis copy_cb
      → PatchValid j
      → All IsByte p.bytes
      → (p.last ≡ true → bytes_of ps ≡ [])
      → ((j' : PatchJob) (r : RsResult)
          → Returned basis (hand_over p j) r j'
          → is_blocked r ≡ true
          → outcome_of (calls copy_cb ps j') ≡ some (full basis j' (bytes_of ps)))
      → outcome_of (calls copy_cb (p ∷ ps) j) ≡ some (full basis j (bytes_of (p ∷ ps)))
  unfolding calls outcome_of bytes_of
  after_call copy_cb p ps j reads v b last rest =
      rw (w.returns, outcome_of)
        (elim (Bool-cases (is_blocked w.result)) [
          | inl wait ↦ rw wait (
              rest w.job w.result w.is_right wait
              ∙ ap some (
                  Returned-blocked j1 w.job w.result w.is_right wait (bytes_of ps) possible
                  ∙ hand_over-full p j (bytes_of ps)))
          | inr over ↦ rw over (
              ap some (
                sym (
                  sym (hand_over-full p j (bytes_of ps))
                  ∙ Returned-over j1 w.job w.result w.is_right over (bytes_of ps) possible)))
        ])
    where
      j1 : PatchJob
      j1 = hand_over p j

      w : Works basis j1 (job_work (patch_call copy_cb) (suc (work_left j1)) j1)
      w =
          job_work-Works basis copy_cb (suc (work_left j1)) j1 reads (hand_over-valid p j b v)
            (omega arith)

      possible : Possible basis j1.io.eof_in (bytes_of ps)
      possible = unfold hand_over in last

  same_outcome :
      (p : Piece) (ps : List Piece) (j j' : PatchJob) (r : RsResult)
      → Returned basis (hand_over p j) r j'
      → is_blocked r ≡ true
      → (p.last ≡ true → bytes_of ps ≡ [])
      → full basis j' (bytes_of ps) ≡ full basis j (bytes_of (p ∷ ps))
  unfolding bytes_of
  same_outcome p ps j j' r w wait last =
      Returned-blocked (hand_over p j) j' r w wait (bytes_of ps) (unfold hand_over in last)
      ∙ hand_over-full p j (bytes_of ps)

  -- The room that is left is enough for what is left.
  room_after :
      (p : Piece) (ps : List Piece) (j j' : PatchJob) (r : RsResult) (n : ℕ)
      → Returned basis (hand_over p j) r j'
      → is_blocked r ≡ true
      → (p.last ≡ true → bytes_of ps ≡ [])
      → length (full basis j (bytes_of (p ∷ ps))).0
        < length j.io.written + (j.io.avail_out + (p.room + n))
      → length (full basis j' (bytes_of ps)).0 < length j'.io.written + (j'.io.avail_out + n)
  room_after p ps j j' r n w wait last room =
      unfold hand_over in
      omega (arith, room, w.room, ap (λ o. length o.0) (same_outcome p ps j j' r w wait last))

  stuck :
      (p : Piece) (j j' : PatchJob) (r : RsResult)
      → Returned basis (hand_over p j) r j'
      → is_blocked r ≡ true
      → p.last ≡ true
      → length (full basis j (bytes_of (p ∷ []))).0
        < length j.io.written + (j.io.avail_out + (p.room + 0))
      → ⊥
  unfolding hand_over bytes_of
  stuck p j j' r w wait end room = omega (
    arith,
    room_after p [] j j' r 0 w wait (λ _. refl) room,
    not_stuck (hand_over p j) j' r w wait end,
    w.room,
  )

  calls_lem :
      (copy_cb : CopyCb) (p : Piece) (ps : List Piece) (j : PatchJob)
      → ReadsBasis basis copy_cb
      → PatchValid j
      → IsDelivery (p ∷ ps)
      → ends (p ∷ ps) ≡ true
      → length (full basis j (bytes_of (p ∷ ps))).0
        < length j.io.written + (j.io.avail_out + room_of (p ∷ ps))
      → outcome_of (calls copy_cb (p ∷ ps) j) ≡ some (full basis j (bytes_of (p ∷ ps)))
  unfolding IsDelivery ends room_of
  calls_lem copy_cb p [] j reads v (b, last, more) end room =
      after_call copy_cb p [] j reads v b last
        (λ j' r w wait. absurd (stuck p j j' r w wait end room))
  calls_lem copy_cb p (q ∷ qs) j reads v (b, last, more) end room =
      after_call copy_cb p (q ∷ qs) j reads v b last (λ j' r w wait.
        calls_lem copy_cb q qs j' reads w.valid more end
          (room_after p (q ∷ qs) j j' r (room_of (q ∷ qs)) w wait last room))

  pub begin-valid : PatchValid (patch_begin (new_io [] false 0))
  unfolding patch_begin new_io
  begin-valid = record {
    io_valid = record { allocated = refl; inside = omega arith; unharmed = refl };
    no_commands = refl;
    bytes = tt;
    state_ok = tt;
  }

  begin-full :
      (delta : List ℕ) → full basis (patch_begin (new_io [] false 0)) delta ≡ patch_spec basis delta
  unfolding patch_begin new_io statefn_spec state_spec
  begin-full delta = full-idle basis (patch_begin (new_io [] false 0)) delta refl

  begin-room :
      (delta : List ℕ) (room : ℕ)
      → length (patch_spec basis delta).0 < room
      → let j = patch_begin (new_io [] false 0) in
        length (full basis j delta).0 < length j.io.written + (j.io.avail_out + room)
  unfolding patch_begin new_io
  begin-room delta room h = rw (begin-full delta) (omega (arith, h))

  -- A delta handed to a new patch job in any pieces, through any number of rs_job_work calls, with
  -- any room in each: if the copy callback reads the basis, all numbers are bytes, eof_in is set
  -- with the last bytes or later and is set in the last call, and the whole room exceeds the
  -- output, then the calls return and what is written and the final result are those of patch_spec
  -- for the whole delta.
  pub calls-patch_spec :
      (copy_cb : CopyCb) (ps : List Piece)
      → ReadsBasis basis copy_cb
      → IsDelivery ps
      → ends ps ≡ true
      → length (patch_spec basis (bytes_of ps)).0 < room_of ps
      → outcome_of (calls copy_cb ps (patch_begin (new_io [] false 0)))
        ≡ some (patch_spec basis (bytes_of ps))
  unfolding ends
  calls-patch_spec copy_cb [] reads d end room = absurd (true≢false (sym end))
  calls-patch_spec copy_cb (p ∷ ps) reads d end room =
      calls_lem copy_cb p ps (patch_begin (new_io [] false 0)) reads begin-valid d end
        (begin-room (bytes_of (p ∷ ps)) (room_of (p ∷ ps)) room)
      ∙ ap some (begin-full (bytes_of (p ∷ ps)))
