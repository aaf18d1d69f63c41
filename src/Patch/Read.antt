-- ===== src/Patch/Read.antt =====
-- src/patch.c: `rs_patch_s_cmdbyte`.
use librsync.Prelude.{ℕ, ◌+◌, ◌*◌, ◌≤◌, ◌<◌, ◌≡◌, ◌≢◌, refl, sym, ap, ◌∙◌, arith}
use librsync.Prelude.{◌==◌, Bool-cases, inl, inr, tests}
use librsync.Prelude.{List, [], ◌∷◌, ◌++◌, length, take, drop}
use librsync.Prelude.{le→leb, lt→leb, ==→eq, some, dec_le}
use librsync.Result.{input_ended}
use librsync.Io.{Io}
use librsync.Scoop.Queue.{input}
use librsync.Scoop.Readahead.{peek-done, peek_short}
use librsync.Netint.{suck_byte}
use librsync.Netint.Bytes.{from_big_endian}
use librsync.Netint.RoundTrip.{Sucked, suck_byte-Sucked}
use librsync.Command.{OpKind, copy, literal}
use librsync.Prototab.{Entry, prototab}
use librsync.Prototab.Shape.{prototab-len, prototab-len_1, prototab-len_2}
use librsync.Patch.{s_cmdbyte, s_params, s_run, PatchJob, go_to}
use librsync.Patch.{patch_s_cmdbyte}
use librsync.Patch.Spec.{commands_spec, entry_spec, commands_spec-nil}
use librsync.Patch.Spec.{commands_spec-cons, run_spec, param1_spec}
use librsync.Patch.Meaning.{state_spec, statefn_spec}
use librsync.Patch.Meaning.{rank, PatchValid, StepOk}
use librsync.Patch.Step.{not_done, short_read, step_running}

module _ (basis : List ℕ) where
  commands_spec-front :
      (queue future : List ℕ)
      → 1 ≤ length queue
      → commands_spec basis (queue ++ future)
        ≡ entry_spec basis
            (commands_spec basis)
            (prototab (from_big_endian 0 (take 1 queue)))
            (drop 1 queue ++ future)
  commands_spec-front [] future h = absurd (omega arith)
  commands_spec-front (x ∷ queue) future h =
      commands_spec-cons basis x (queue ++ future)
      ∙ ap (λ op. entry_spec basis (commands_spec basis) (prototab op) (queue ++ future)) number
    where
      number : x ≡ 0 * 256 + x
      number = omega arith

  commands_spec_short :
      (queue : List ℕ) → length queue < 1 → commands_spec basis queue ≡ ([], input_ended)
  commands_spec_short [] h = commands_spec-nil basis
  commands_spec_short (x ∷ queue) h = absurd (omega arith)

  -- Only a copy looks at the second parameter.
  pub run_spec-param2 :
      (k : OpKind) (a b c : ℕ) (queue : List ℕ)
      → k ≢ copy
      → run_spec basis (commands_spec basis) k a b queue
        ≡ run_spec basis (commands_spec basis) k a c queue
  unfolding run_spec
  run_spec-param2 literal a b c queue h = refl
  run_spec-param2 copy a b c queue h = absurd (h refl)
  run_spec-param2 _ a b c queue h = refl

  -- A command with no parameters to read.
  entry_spec-immediate :
      (e : Entry) (queue : List ℕ) (other : ℕ)
      → e.len_1 ≡ 0
      → e.len_2 ≡ 0
      → e.kind ≢ copy
      → entry_spec basis (commands_spec basis) e queue
        ≡ run_spec basis (commands_spec basis) e.kind e.immediate other queue
  unfolding entry_spec param1_spec
  entry_spec-immediate e queue other h1 h2 k =
      rw (h1, h2, le→leb 0 (length queue) (omega arith))
        (run_spec-param2 e.kind e.immediate _ other queue k)

  pub patch_s_cmdbyte-StepOk :
      (j : PatchJob)
      → PatchValid j
      → j.io.copy_len ≡ 0
      → j.statefn ≡ some s_cmdbyte
      → StepOk basis j (patch_s_cmdbyte j).0 (patch_s_cmdbyte j).1
  unfolding patch_s_cmdbyte go_to statefn_spec state_spec
  patch_s_cmdbyte-StepOk j v idle at = elim (dec_le 1 (length (input j.io))) [
    | yes enough ↦
        rw (s.answer ∙ ap (λ t. t.0) (peek-done 1 (input j.io) j.io.eof_in enough))
          (elim (Bool-cases ((prototab op).len_1 == 0)) [
            | inl short ↦ rw short (
                step_running basis j
                  (record j {
                    io = io';
                    statefn = some s_run;
                    vars = record (j.vars) {
                      op = op;
                      cmd = prototab op;
                      param1 = (prototab op).immediate;
                    };
                  })
                  1 v idle enough (dropped enough) s.same_outputs s.still_valid tt
                  (omega (arith, ap rank at))
                  (λ future.
                    spec future enough
                    ∙ entry_spec-immediate (prototab op) (drop 1 (input j.io) ++ future)
                        j.vars.param2 (==→eq _ _ short) (prototab-len_1 op (==→eq _ _ short))
                        (prototab-len_2 op (prototab-len_1 op (==→eq _ _ short)))))
            | inr long ↦ rw long (
                step_running basis j
                  (record j {
                    io = io';
                    statefn = some s_params;
                    vars = record (j.vars) { op = op; cmd = prototab op };
                  })
                  1 v idle enough (dropped enough) s.same_outputs s.still_valid
                  ((prototab-len op).0, (prototab-len op).1, omega tests, prototab-len_2 op)
                  (omega (arith, ap rank at)) (λ future. spec future enough))
          ])
    | no short ↦
        rw
          (
            s.answer ∙ ap (λ t. t.0) (peek_short 1 (input j.io) j.io.eof_in (omega arith)),
            not_done j.io.eof_in,
          )
          (short_read basis j 1 io' v idle (omega arith) (kept (omega arith)) s.same_outputs
            s.still_valid
            (λ queue h.
              ap (λ f. statefn_spec basis f j.vars queue) at ∙ commands_spec_short queue h))
  ]
    where
      op : ℕ
      op = (suck_byte j.io).1

      io' : Io
      io' = (suck_byte j.io).2

      s : Sucked 1 j.io (suck_byte j.io).0 op io'
      s = suck_byte-Sucked j.io v.io_valid

      dropped : 1 ≤ length (input j.io) → input io' ≡ drop 1 (input j.io)
      dropped h = s.rest_of_input ∙ rw (le→leb 1 _ h)

      kept : length (input j.io) < 1 → input io' ≡ input j.io
      kept h = s.rest_of_input ∙ rw (lt→leb 1 _ h)

      spec :
          (future : List ℕ)
          → 1 ≤ length (input j.io)
          → statefn_spec basis j.statefn j.vars (input j.io ++ future)
            ≡ entry_spec basis (commands_spec basis) (prototab op) (drop 1 (input j.io) ++ future)
      spec future h =
          ap (λ f. statefn_spec basis f j.vars (input j.io ++ future)) at
          ∙ commands_spec-front (input j.io) future h
          ∙ ap
              (λ t.
                entry_spec basis (commands_spec basis) (prototab t) (drop 1 (input j.io) ++ future))
              (sym (s.value h))
