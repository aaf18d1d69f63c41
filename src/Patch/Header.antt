-- ===== src/Patch/Header.antt =====
-- src/patch.c: `rs_patch_s_header`.
use librsync.Prelude.{ℕ, ◌≤◌, ◌<◌, ◌≡◌, refl, sym, ap, ◌∙◌, arith}
use librsync.Prelude.{◌==◌, if◌then◌else◌, Bool-cases, inl, inr}
use librsync.Prelude.{List, [], ◌++◌, length, take, drop}
use librsync.Prelude.{le→leb, lt→leb, some, dec_le}
use librsync.Result.{input_ended, bad_magic}
use librsync.Io.{Io}
use librsync.Scoop.Queue.{input}
use librsync.Scoop.Readahead.{peek-done, peek_short}
use librsync.Netint.{suck_n4}
use librsync.Netint.Bytes.{from_big_endian}
use librsync.Netint.RoundTrip.{Sucked, suck_n4-Sucked}
use librsync.Patch.{s_header, s_cmdbyte, PatchJob, go_to}
use librsync.Patch.{patch_s_header, delta_magic}
use librsync.Patch.Spec.{patch_spec, commands_spec}
use librsync.Patch.Meaning.{state_spec, statefn_spec}
use librsync.Patch.Meaning.{rank, PatchValid, StepOk, queue-Front}
use librsync.Patch.Step.{not_done, short_read, step_running, step_ends, true≢false}

module _ (basis : List ℕ) where
  patch_spec-front :
      (queue future : List ℕ)
      → 4 ≤ length queue
      → patch_spec basis (queue ++ future) ≡ (
          if from_big_endian 0 (take 4 queue) == delta_magic
          then commands_spec basis (drop 4 queue ++ future)
          else ([], bad_magic))
  unfolding patch_spec
  patch_spec-front queue future h =
      let f = queue-Front 4 queue future h in rw (f.enough, f.front_take, f.front_drop)

  patch_spec_short :
      (queue : List ℕ) → length queue < 4 → patch_spec basis queue ≡ ([], input_ended)
  unfolding patch_spec
  patch_spec_short queue h = rw (lt→leb 4 (length queue) h)

  pub patch_s_header-StepOk :
      (j : PatchJob)
      → PatchValid j
      → j.io.copy_len ≡ 0
      → j.statefn ≡ some s_header
      → StepOk basis j (patch_s_header j).0 (patch_s_header j).1
  unfolding patch_s_header go_to statefn_spec state_spec
  patch_s_header-StepOk j v idle at = elim (dec_le 4 (length (input j.io))) [
    | yes enough ↦
        rw (s.answer ∙ ap (λ t. t.0) (peek-done 4 (input j.io) j.io.eof_in enough))
          (elim (Bool-cases (val == delta_magic)) [
            | inl good ↦ rw good (
                step_running basis j (record j { io = io'; statefn = some s_cmdbyte }) 4 v idle
                  enough (dropped enough) s.same_outputs s.still_valid tt
                  (omega (arith, ap rank at))
                  (λ future. spec future enough ∙ rw (magic enough ∙ good)))
            | inr bad ↦ rw bad (
                step_ends basis j (record j { io = io' }) 4 bad_magic v idle (dropped enough)
                  s.same_outputs s.still_valid v.state_ok refl (λ e. absurd (true≢false (sym e)))
                  (λ future. spec future enough ∙ rw (magic enough ∙ bad)))
          ])
    | no short ↦
        rw
          (
            s.answer ∙ ap (λ t. t.0) (peek_short 4 (input j.io) j.io.eof_in (omega arith)),
            not_done j.io.eof_in,
          )
          (short_read basis j 4 io' v idle (omega arith) (kept (omega arith)) s.same_outputs
            s.still_valid
            (λ queue h. ap (λ f. statefn_spec basis f j.vars queue) at ∙ patch_spec_short queue h))
  ]
    where
      val : ℕ
      val = (suck_n4 j.io).1

      io' : Io
      io' = (suck_n4 j.io).2

      s : Sucked 4 j.io (suck_n4 j.io).0 val io'
      s = suck_n4-Sucked j.io v.io_valid v.bytes

      dropped : 4 ≤ length (input j.io) → input io' ≡ drop 4 (input j.io)
      dropped h = s.rest_of_input ∙ rw (le→leb 4 _ h)

      kept : length (input j.io) < 4 → input io' ≡ input j.io
      kept h = s.rest_of_input ∙ rw (lt→leb 4 _ h)

      magic :
          4 ≤ length (input j.io)
          → (from_big_endian 0 (take 4 (input j.io)) == delta_magic) ≡ (val == delta_magic)
      magic h = ap (λ t. t == delta_magic) (sym (s.value h))

      spec :
          (future : List ℕ)
          → 4 ≤ length (input j.io)
          → statefn_spec basis j.statefn j.vars (input j.io ++ future) ≡ (
              if from_big_endian 0 (take 4 (input j.io)) == delta_magic
              then commands_spec basis (drop 4 (input j.io) ++ future)
              else ([], bad_magic))
      spec future h =
          ap (λ f. statefn_spec basis f j.vars (input j.io ++ future)) at
          ∙ patch_spec-front (input j.io) future h
