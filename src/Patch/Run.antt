-- ===== src/Patch/Run.antt =====
-- src/patch.c: `rs_patch_s_run`, `rs_patch_s_literal` and `rs_patch_s_copy`.
use librsync.Prelude.{ℕ, ◌+◌, ◌-◌, ◌<◌, ◌≡◌, ◌||◌, refl, sym, ap, subst, ◌∙◌, arith}
use librsync.Prelude.{true, false, ltb, if◌then◌else◌, Bool-cases, inl, inr}
use librsync.Prelude.{List, [], ◌++◌, some, u64, is_neg64}
use librsync.Result.{RsResult, is_done, done, running, corrupt, is_running, is_blocked}
use librsync.Scoop.Queue.{input, IsValid, outputs}
use librsync.Command.{OpKind, end, literal, copy}
use librsync.Tube.Write.{tube_copy_lem}
use librsync.Patch.{s_run, s_literal, s_copy, s_copying, PatchJob, go_to}
use librsync.Patch.{patch_run_kind, patch_s_run, patch_s_literal, patch_s_copy, not_positive}
use librsync.Patch.Spec.{
  prepend, good_len, good_pos, literal_spec, copy_spec, run_spec, commands_spec,
}
use librsync.Patch.Meaning.{
  rank, state_spec, statefn_spec, full, full-idle, StatefnOk, PatchValid, StepOk,
}
use librsync.Patch.Step.{true≢false, step_running, step_ends}

not_positive→bad_len : (len : ℕ) → not_positive len ≡ true → good_len len ≡ false
not_positive→bad_len len h = ground arith

positive→good_len : (len : ℕ) → not_positive len ≡ false → good_len len ≡ true
positive→good_len len h = ground arith

positive→small : (len : ℕ) → not_positive len ≡ false → ltb (u64 - 1) len ≡ false
positive→small len h = ground arith

neg→bad_pos : (pos : ℕ) → is_neg64 pos ≡ true → good_pos pos ≡ false
neg→bad_pos pos h = ground arith

not_neg→good_pos : (pos : ℕ) → is_neg64 pos ≡ false → good_pos pos ≡ true
not_neg→good_pos pos h = ground arith

module _ (basis : List ℕ) (j : PatchJob) (v : PatchValid j) (idle : j.io.copy_len ≡ 0) where
  -- A step that leaves the stream alone and goes on.
  turns_to :
      (j' : PatchJob)
      → j'.io ≡ j.io
      → StatefnOk j'.statefn j'.vars
      → rank j'.statefn < rank j.statefn
      → ((queue : List ℕ)
          → statefn_spec basis j.statefn j.vars queue ≡ statefn_spec basis j'.statefn j'.vars queue)
      → StepOk basis j running j'
  turns_to j' same ok less spec =
      step_running basis j j' 0 v idle (omega arith) (ap (λ io. input io) same)
        (ap (λ io. outputs io) same) (subst IsValid (sym same) v.io_valid) ok (omega (arith, less))
        (λ future. spec (input j.io ++ future))

  -- A step that leaves everything alone and ends the job.
  gives_up :
      (r : RsResult)
      → (is_running r || is_blocked r) ≡ false
      → (is_done r ≡ true → 0 < rank j.statefn)
      → ((queue : List ℕ) → statefn_spec basis j.statefn j.vars queue ≡ ([], r))
      → StepOk basis j r j
  gives_up r over ranked spec =
      step_ends basis j j 0 r v idle refl refl v.io_valid v.state_ok over ranked
        (λ future. spec (input j.io ++ future))

  patch_run_kind-StepOk :
      (k : OpKind)
      → rank j.statefn ≡ 3
      → ((queue : List ℕ)
          → statefn_spec basis j.statefn j.vars queue
            ≡ run_spec basis (commands_spec basis) k j.vars.param1 j.vars.param2 queue)
      → StepOk basis j (patch_run_kind k j).0 (patch_run_kind k j).1
  unfolding patch_run_kind go_to statefn_spec state_spec run_spec
  patch_run_kind-StepOk literal at spec =
      turns_to (record j { statefn = some s_literal }) refl tt (omega (arith, at)) spec
  patch_run_kind-StepOk end at spec = gives_up done refl (λ _. omega (arith, at)) spec
  patch_run_kind-StepOk copy at spec =
      turns_to (record j { statefn = some s_copy }) refl tt (omega (arith, at)) spec
  patch_run_kind-StepOk _ at spec = gives_up corrupt refl (λ e. absurd (true≢false (sym e))) spec

  pub patch_s_run-StepOk :
      j.statefn ≡ some s_run → StepOk basis j (patch_s_run j).0 (patch_s_run j).1
  unfolding patch_s_run state_spec statefn_spec
  patch_s_run-StepOk at =
      patch_run_kind-StepOk j.vars.cmd.kind (ap rank at)
        (λ queue. ap (λ f. statefn_spec basis f j.vars queue) at)

  pub patch_s_literal-StepOk :
      j.statefn ≡ some s_literal → StepOk basis j (patch_s_literal j).0 (patch_s_literal j).1
  unfolding patch_s_literal go_to state_spec statefn_spec full
  patch_s_literal-StepOk at = elim (Bool-cases (not_positive j.vars.param1)) [
    | inl bad ↦ rw bad (
        gives_up corrupt refl (λ e. absurd (true≢false (sym e)))
          (λ queue. spec queue ∙ rw (not_positive→bad_len _ bad)))
    | inr good ↦
        rw (good, positive→small _ good, tube_copy_lem j.vars.param1 j.io idle)
          (record {
            valid = record {
              io_valid = record {
                allocated = v.io_valid.allocated;
                inside = v.io_valid.inside;
                unharmed = v.io_valid.unharmed;
              };
              no_commands = v.no_commands;
              bytes = v.bytes;
              state_ok = tt;
            };
            same_eof = refl;
            room = refl;
            waits = λ e. absurd (true≢false (sym e));
            progress = λ _. omega (arith, ap rank at);
            finishes = λ e. absurd (true≢false (sym e));
            meets = λ future possible. sym (
                full-idle basis j future idle
                ∙ ap (prepend j.io.written)
                    (spec (input j.io ++ future) ∙ rw (positive→good_len _ good)));
          })
  ]
    where
      spec :
          (queue : List ℕ)
          → statefn_spec basis j.statefn j.vars queue ≡ (
              if good_len j.vars.param1
              then literal_spec (commands_spec basis) j.vars.param1 queue
              else ([], corrupt))
      spec queue = ap (λ f. statefn_spec basis f j.vars queue) at

  pub patch_s_copy-StepOk :
      j.statefn ≡ some s_copy → StepOk basis j (patch_s_copy j).0 (patch_s_copy j).1
  unfolding patch_s_copy go_to state_spec statefn_spec
  patch_s_copy-StepOk at = elim (Bool-cases (not_positive j.vars.param2)) [
    | inl bad ↦ rw bad (
        gives_up corrupt refl (λ e. absurd (true≢false (sym e)))
          (λ queue. spec queue ∙ rw (not_positive→bad_len _ bad)))
    | inr good ↦ rw good (elim (Bool-cases (is_neg64 j.vars.param1)) [
      | inl bad ↦ rw bad (
          gives_up corrupt refl (λ e. absurd (true≢false (sym e)))
            (λ queue. spec queue ∙ rw (positive→good_len _ good, neg→bad_pos _ bad)))
      | inr there ↦ rw there (
          turns_to
            (record j {
              stats = record (j.stats) {
                copy_cmds = j.stats.copy_cmds + 1;
                copy_bytes = j.stats.copy_bytes + j.vars.param2;
                copy_cmdbytes = j.stats.copy_cmdbytes + 1 + j.vars.cmd.len_1 + j.vars.cmd.len_2;
              };
              statefn = some s_copying;
              vars = record (j.vars) { basis_pos = j.vars.param1; basis_len = j.vars.param2 };
            })
            refl (pos_len good) (omega (arith, ap rank at))
            (λ queue. spec queue ∙ rw (positive→good_len _ good, not_neg→good_pos _ there)))
    ])
  ]
    where
      pos_len : not_positive j.vars.param2 ≡ false → 0 < j.vars.param2
      pos_len h = ground arith

      spec :
          (queue : List ℕ)
          → statefn_spec basis j.statefn j.vars queue ≡ (
              if good_len j.vars.param2
              then (if good_pos j.vars.param1
                  then copy_spec basis (commands_spec basis) j.vars.param1 j.vars.param2 queue
                  else ([], corrupt))
              else ([], corrupt))
      spec queue = ap (λ f. statefn_spec basis f j.vars queue) at
