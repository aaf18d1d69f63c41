-- ===== src/Patch/Tubes.antt =====
-- src/tube.c: what `rs_tube_catchup` does to a patch job.
use librsync.Prelude.{ℕ, ◌+◌, ◌-◌, ◌≤◌, ◌≡◌, sym, ap, subst, ◌∙◌, arith}
use librsync.Prelude.{List, [], ◌++◌, length, take, drop, All}
use librsync.Prelude.{length-take, length-append, length-drop, IsByte}
use librsync.Prelude.Slices.{take-append_le, drop-append_le, take-empty, drop-empty}
use mathlib.Core.Path.{ap₂}
use librsync.Result.{RsResult}
use librsync.Io.{Io}
use librsync.Scoop.Queue.{input}
use librsync.Tube.Catchup.{Caught}
use librsync.Netint.RoundTrip.{drop-All}
use librsync.Patch.{PatchJob}
use librsync.Patch.Spec.{Outcome, prepend, prepend-prepend, literal_spec, literal_spec-split}
use librsync.Patch.Meaning.{statefn_spec, full, PatchValid}
use librsync.Patch.Meaning.{buffers_left}

module _ (basis : List ℕ) where
  -- What the tube sends was part of the outcome already.
  module _ (j : PatchJob) (v : PatchValid j) (r : RsResult) (io' : Io) (c : Caught j.io r io') where
    nothing_sent : take c.sent j.io.write_buf ≡ []
    nothing_sent = take-empty c.sent j.io.write_buf (ap (λ (l : List ℕ). length l) v.no_commands)

    copied_only : io'.written ≡ j.io.written ++ take c.copied (input j.io)
    copied_only =
        c.to_output ∙ ap (λ l. j.io.written ++ (l ++ take c.copied (input j.io))) nothing_sent

    pub caught_full :
        (future : List ℕ) → full basis (record j { io = io' }) future ≡ full basis j future
    unfolding full
    caught_full future =
        ap₂ (λ w q. prepend w (literal_spec go io'.copy_len (q ++ future))) copied_only
          c.rest_of_input
        ∙ prepend-prepend j.io.written (take c.copied (input j.io))
            (literal_spec go io'.copy_len (drop c.copied (input j.io) ++ future))
        ∙ ap (prepend j.io.written) (sym split)
      where
        go : List ℕ → Outcome
        go = statefn_spec basis j.statefn j.vars

        left : j.io.copy_len - c.copied ≡ io'.copy_len
        left = omega (arith, c.copy_left)

        split :
            literal_spec go j.io.copy_len (input j.io ++ future)
            ≡ prepend
                (take c.copied (input j.io))
                (literal_spec go io'.copy_len (drop c.copied (input j.io) ++ future))
        split =
            literal_spec-split go c.copied j.io.copy_len (input j.io ++ future)
              (omega (arith, c.copy_left))
              (omega (arith, c.copied_real, length-append (input j.io) future))
            ∙ ap₂ (λ t d. prepend t (literal_spec go (j.io.copy_len - c.copied) d))
                (take-append_le c.copied (input j.io) future c.copied_real)
                (drop-append_le c.copied (input j.io) future c.copied_real)
            ∙ ap
                (λ m.
                  prepend (take c.copied (input j.io))
                    (literal_spec go m (drop c.copied (input j.io) ++ future)))
                left

    pub caught_valid : PatchValid (record j { io = io' })
    caught_valid = record {
      io_valid = c.still_valid;
      no_commands =
          c.write_left
          ∙ drop-empty c.sent j.io.write_buf (ap (λ (l : List ℕ). length l) v.no_commands);
      bytes =
          subst (All IsByte) (sym c.rest_of_input) (drop-All IsByte c.copied (input j.io) v.bytes);
      state_ok = v.state_ok;
    }

    pub caught_room : length io'.written + io'.avail_out ≡ length j.io.written + j.io.avail_out
    caught_room = omega (
      arith,
      ap (λ (l : List ℕ). length l) copied_only,
      length-append j.io.written (take c.copied (input j.io)),
      length-take c.copied (input j.io),
      c.copied_real,
      c.room_left,
      c.sent_real,
      ap (λ (l : List ℕ). length l) v.no_commands,
    )

    pub caught_left : buffers_left io' ≤ buffers_left j.io
    caught_left = omega (
      arith,
      ap (λ (l : List ℕ). length l) c.rest_of_input,
      length-drop c.copied (input j.io),
      c.room_left,
    )
