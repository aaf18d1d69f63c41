-- ===== src/Patch/Meaning.antt =====
-- What a patch job will have written, and how it will end, seen from the middle of its work.
use librsync.Prelude.{◌⊎◌, ◌*◌, ℕ, ◌+◌, ◌≤◌, ◌<◌, ◌≡◌, ◌≢◌, ◌||◌, ap, ◌∙◌, arith}
use librsync.Prelude.{Bool, true, false, leb, if◌then◌else◌}
use librsync.Prelude.{List, [], ◌++◌, length, take, drop, All, IsByte}
use librsync.Prelude.{length-append, le→leb, Option, none, some}
use librsync.Prelude.Slices.{take-append_le, drop-append_le}
use librsync.Result.{RsResult, done, corrupt, is_running, is_blocked, is_done}
use librsync.Io.{Io}
use librsync.Scoop.Queue.{input, IsValid, outputs}
use librsync.Command.{copy}
use librsync.Patch.{PatchState, s_header, s_cmdbyte, s_params, s_run, s_literal, s_copy, s_copying}
use librsync.Patch.{PatchVars, PatchJob}
use librsync.Patch.Spec.{Outcome, prepend, good_len, good_pos, literal_spec, copy_spec, run_spec}
use librsync.Patch.Spec.{entry_spec, commands_spec, patch_spec}

module _ (basis : List ℕ) where
  -- From each state: what the rest of the delta stands for.
  unfoldable pub state_spec : PatchState → PatchVars → List ℕ → Outcome
  state_spec s_header v queue = patch_spec basis queue
  state_spec s_cmdbyte v queue = commands_spec basis queue
  state_spec s_params v queue = entry_spec basis (commands_spec basis) v.cmd queue
  state_spec s_run v queue = run_spec basis (commands_spec basis) v.cmd.kind v.param1 v.param2 queue
  state_spec s_literal v queue =
      if good_len v.param1 then literal_spec (commands_spec basis) v.param1 queue else ([], corrupt)
  state_spec s_copy v queue =
      if good_len v.param2
      then (if good_pos v.param1
          then copy_spec basis (commands_spec basis) v.param1 v.param2 queue
          else ([], corrupt))
      else ([], corrupt)
  state_spec s_copying v queue = copy_spec basis (commands_spec basis) v.basis_pos v.basis_len queue

  unfoldable pub statefn_spec : Option PatchState → PatchVars → List ℕ → Outcome
  statefn_spec none v queue = ([], done)
  statefn_spec (some f) v queue = state_spec f v queue

  -- The whole output and the final result of job `j`, if `future` is what its input still brings.
  unfoldable pub full : PatchJob → List ℕ → Outcome
  full j future =
      prepend j.io.written
        (literal_spec (statefn_spec j.statefn j.vars) j.io.copy_len (input j.io ++ future))

  -- Nothing comes after the end of the input.
  abbrev pub Possible : Bool → List ℕ → Type 0
  Possible eof future = eof ≡ true → future ≡ []

  -- A step that goes on keeps the whole outcome; one that ends the job has reached it.
  abbrev pub MeetsIf : Bool → PatchJob → RsResult → PatchJob → List ℕ → Type 0
  MeetsIf true j r j' future = full j' future ≡ full j future
  MeetsIf false j r j' future = full j future ≡ (j'.io.written, r)

  abbrev pub Meets : PatchJob → RsResult → PatchJob → List ℕ → Type 0
  Meets j r j' future = MeetsIf (is_running r || is_blocked r) j r j' future

-- What is true of the fields in each state.
abbrev pub StateOk : PatchState → PatchVars → Type 0
StateOk s_params v =
    (v.cmd.len_1 ≤ 8)
    × (v.cmd.len_2 ≤ 8)
    × (0 < v.cmd.len_1)
    × (v.cmd.len_2 ≡ 0 → v.cmd.kind ≢ copy)
StateOk s_copying v = 0 < v.basis_len
StateOk _ v = Unit {0}

abbrev pub StatefnOk : Option PatchState → PatchVars → Type 0
StatefnOk none v = Unit {0}
StatefnOk (some f) v = StateOk f v

pub record PatchValid (j : PatchJob) : Type 0 where
  pub io_valid : IsValid j.io
  pub no_commands : j.io.write_buf ≡ []
  pub bytes : All IsByte (input j.io)
  pub state_ok : StatefnOk j.statefn j.vars

-- The front of the queue does not change by what comes later.
pub record Front (n : ℕ) (queue future : List ℕ) : Type 0 where
  pub enough : leb n (length (queue ++ future)) ≡ true
  pub front_take : take n (queue ++ future) ≡ take n queue
  pub front_drop : drop n (queue ++ future) ≡ drop n queue ++ future

pub queue-Front : (n : ℕ) (queue future : List ℕ) → n ≤ length queue → Front n queue future
queue-Front n queue future h = record {
  enough = le→leb n _ (omega (arith, length-append queue future));
  front_take = take-append_le n queue future h;
  front_drop = drop-append_le n queue future h;
}

module _ (basis : List ℕ) where
  literal_spec-zero : (go : List ℕ → Outcome) (queue : List ℕ) → literal_spec go 0 queue ≡ go queue
  unfolding literal_spec
  literal_spec-zero go queue = rw (le→leb 0 (length queue) (omega arith))

  -- With an idle tube the outcome is what the state says.
  pub full-idle :
      (j : PatchJob) (future : List ℕ)
      → j.io.copy_len ≡ 0
      → full basis j future
        ≡ prepend j.io.written (statefn_spec basis j.statefn j.vars (input j.io ++ future))
  unfolding full
  full-idle j future idle =
      ap
        (λ n.
          prepend j.io.written
            (literal_spec (statefn_spec basis j.statefn j.vars) n (input j.io ++ future)))
        idle
      ∙ ap (prepend j.io.written) (literal_spec-zero _ (input j.io ++ future))

  -- Moving bytes inside the input side changes no outcome.
  pub full-same :
      (j : PatchJob) (io' : Io) (future : List ℕ)
      → input io' ≡ input j.io
      → outputs io' ≡ outputs j.io
      → full basis (record j { io = io' }) future ≡ full basis j future
  unfolding full
  full-same j io' future e o =
      ap (λ p. prepend p.2 (literal_spec go p.4 (input io' ++ future))) o
      ∙ ap (λ q. prepend j.io.written (literal_spec go j.io.copy_len (q ++ future))) e
    where
      go : List ℕ → Outcome
      go = statefn_spec basis j.statefn j.vars

-- How many steps a state may take before it reads or writes again.
abbrev pub rank : Option PatchState → ℕ
rank (some s_params) = 3
rank (some s_run) = 3
rank (some s_copy) = 2
rank (some s_literal) = 1
rank (some s_copying) = 1
rank _ = 0

-- What the buffers still allow.
abbrev pub buffers_left : Io → ℕ
buffers_left io = 4 * length (input io) + io.avail_out

-- Every step of the loop makes it smaller.
abbrev pub work_left : PatchJob → ℕ
work_left j = buffers_left j.io + rank j.statefn

pub record StepOk (basis : List ℕ) (j : PatchJob) (r : RsResult) (j' : PatchJob) : Type 0 where
  pub valid : PatchValid j'
  pub same_eof : j'.io.eof_in ≡ j.io.eof_in
  pub room : length j'.io.written + j'.io.avail_out ≡ length j.io.written + j.io.avail_out
  pub meets : (future : List ℕ) → Possible basis j.io.eof_in future → Meets basis j r j' future
  pub waits : is_blocked r ≡ true → (j.io.eof_in ≡ false) ⊎ (j'.io.avail_out ≡ 0)
  pub progress : is_running r ≡ true → work_left j' < work_left j
  pub finishes : is_done r ≡ true → (buffers_left j'.io < work_left j) × (j'.io.copy_len ≡ 0)
