-- ===== src/Patch/Step.antt =====
-- src/patch.c: what the state functions have in common, the three ways in which one returns.
use librsync.Prelude.{
  ◌⊎◌, length-drop, ℕ, ◌+◌, ◌*◌, ◌≤◌, ◌<◌, ◌≡◌, ◌≢◌, ◌||◌, refl, sym, ap, subst, ◌∙◌, arith,
}
use librsync.Prelude.{Bool, true, false, if◌then◌else◌, inl}
use librsync.Prelude.{List, [], ◌++◌, length, drop, append-nil, All, IsByte}
use mathlib.Core.Path.{ap₂}
use librsync.Result.{RsResult, blocked, running, input_ended}
use librsync.Result.{is_done, is_running, is_blocked}
use librsync.Io.{Io}
use librsync.Scoop.Queue.{input, IsValid, outputs}
use librsync.Netint.RoundTrip.{drop-All}
use librsync.Patch.{PatchJob}
use librsync.Patch.Spec.{prepend}
use librsync.Patch.Meaning.{statefn_spec, full, full-idle, full-same, StatefnOk, Meets}
use librsync.Patch.Meaning.{rank, PatchValid, StepOk}

pub not_done : (eof : Bool) → is_done (if eof then input_ended else blocked) ≡ false
not_done true = refl
not_done false = refl

pub true≢false : true ≢ false
true≢false e = ground arith

going :
    {A : Type 0} (eof : Bool)
    → is_blocked (if eof then input_ended else blocked) ≡ true
    → (eof ≡ false) ⊎ A
going true e = absurd (true≢false (sym e))
going false e = inl refl

not_running : (eof : Bool) → is_running (if eof then input_ended else blocked) ≢ true
not_running true e = true≢false (sym e)
not_running false e = true≢false (sym e)

ends_not_blocked : (r : RsResult) → (is_running r || is_blocked r) ≡ false → is_blocked r ≢ true
ends_not_blocked r over e = ground arith

ends_not_running : (r : RsResult) → (is_running r || is_blocked r) ≡ false → is_running r ≢ true
ends_not_running r over e = ground arith

module _ (basis : List ℕ) where
  same_room :
      (io io' : Io)
      → outputs io' ≡ outputs io
      → length io'.written + io'.avail_out ≡ length io.written + io.avail_out
  same_room io io' e = ap (λ o. length o.2 + o.1) e

  -- A read that found too little: nothing is lost, and at the end of the input the delta is cut off.
  pub short_read :
      (j : PatchJob) (len : ℕ) (io' : Io)
      → PatchValid j
      → j.io.copy_len ≡ 0
      → length (input j.io) < len
      → input io' ≡ input j.io
      → outputs io' ≡ outputs j.io
      → IsValid io'
      → ((queue : List ℕ)
          → length queue < len
          → statefn_spec basis j.statefn j.vars queue ≡ ([], input_ended))
      → StepOk basis j (if j.io.eof_in then input_ended else blocked) (record j { io = io' })
  short_read j len io' v idle short same_in same_out valid' cut = record {
    valid = record {
      io_valid = valid';
      no_commands = ap (λ o. o.3) same_out ∙ v.no_commands;
      bytes = subst (All IsByte) (sym same_in) v.bytes;
      state_ok = v.state_ok;
    };
    same_eof = ap (λ o. o.0) same_out;
    room = same_room j.io io' same_out;
    meets = λ future possible. go j.io.eof_in future possible;
    waits = going j.io.eof_in;
    progress = λ e. absurd (not_running j.io.eof_in e);
    finishes = λ e. absurd (true≢false (sym e ∙ not_done j.io.eof_in));
  }
    where
      ended : (future : List ℕ) → future ≡ [] → full basis j future ≡ (io'.written, input_ended)
      ended future e =
          full-idle basis j future idle
          ∙ ap (prepend j.io.written) (cut (input j.io ++ future) (rw (e, append-nil) short))
          ∙ ap (λ l. (l, input_ended)) (append-nil j.io.written ∙ sym (ap (λ o. o.2) same_out))

      go :
          (eof : Bool) (future : List ℕ)
          → (eof ≡ true → future ≡ [])
          → Meets basis j (if eof then input_ended else blocked) (record j { io = io' }) future
      go true future p = ended future (p refl)
      go false future p = full-same basis j io' future same_in same_out

  -- A step that consumed `n` bytes and goes on.
  pub step_running :
      (j j' : PatchJob) (n : ℕ)
      → PatchValid j
      → j.io.copy_len ≡ 0
      → n ≤ length (input j.io)
      → input j'.io ≡ drop n (input j.io)
      → outputs j'.io ≡ outputs j.io
      → IsValid j'.io
      → StatefnOk j'.statefn j'.vars
      → rank j'.statefn < 4 * n + rank j.statefn
      → ((future : List ℕ)
          → statefn_spec basis j.statefn j.vars (input j.io ++ future)
            ≡ statefn_spec basis j'.statefn j'.vars (drop n (input j.io) ++ future))
      → StepOk basis j running j'
  step_running j j' n v idle some_left same_in same_out valid' ok less spec = record {
    valid = record {
      io_valid = valid';
      no_commands = ap (λ o. o.3) same_out ∙ v.no_commands;
      bytes = subst (All IsByte) (sym same_in) (drop-All IsByte n (input j.io) v.bytes);
      state_ok = ok;
    };
    same_eof = ap (λ o. o.0) same_out;
    room = same_room j.io j'.io same_out;
    waits = λ e. absurd (true≢false (sym e));
    progress = λ _. omega (
      arith,
      less,
      some_left,
      ap (λ (l : List ℕ). length l) same_in,
      length-drop n (input j.io),
      ap (λ o. o.1) same_out,
    );
    finishes = λ e. absurd (true≢false (sym e));
    meets = λ future possible.
        full-idle basis j' future (ap (λ o. o.4) same_out ∙ idle)
        ∙ ap (λ q. prepend j'.io.written (statefn_spec basis j'.statefn j'.vars (q ++ future)))
            same_in
        ∙ ap₂ prepend (ap (λ o. o.2) same_out) (sym (spec future))
        ∙ sym (full-idle basis j future idle);
  }

  -- A step that ends the job with result `r`.
  pub step_ends :
      (j j' : PatchJob) (n : ℕ) (r : RsResult)
      → PatchValid j
      → j.io.copy_len ≡ 0
      → input j'.io ≡ drop n (input j.io)
      → outputs j'.io ≡ outputs j.io
      → IsValid j'.io
      → StatefnOk j'.statefn j'.vars
      → (is_running r || is_blocked r) ≡ false
      → (is_done r ≡ true → 0 < rank j.statefn)
      → ((future : List ℕ) → statefn_spec basis j.statefn j.vars (input j.io ++ future) ≡ ([], r))
      → StepOk basis j r j'
  step_ends j j' n r v idle same_in same_out valid' ok over ranked spec = record {
    valid = record {
      io_valid = valid';
      no_commands = ap (λ o. o.3) same_out ∙ v.no_commands;
      bytes = subst (All IsByte) (sym same_in) (drop-All IsByte n (input j.io) v.bytes);
      state_ok = ok;
    };
    same_eof = ap (λ o. o.0) same_out;
    room = same_room j.io j'.io same_out;
    waits = λ e. absurd (ends_not_blocked r over e);
    progress = λ e. absurd (ends_not_running r over e);
    finishes = λ e. (
      omega (
        arith,
        ranked e,
        ap (λ (l : List ℕ). length l) same_in,
        length-drop n (input j.io),
        ap (λ o. o.1) same_out,
      ),
      ap (λ o. o.4) same_out ∙ idle,
    );
    meets = λ future possible.
        rw (over, Meets)
          (full-idle basis j future idle
            ∙ ap (prepend j.io.written) (spec future)
            ∙ ap (λ l. (l, r)) (append-nil j.io.written ∙ sym (ap (λ o. o.2) same_out)));
  }
