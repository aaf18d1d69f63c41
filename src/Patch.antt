-- ===== src/Patch.antt =====
-- src/patch.c: the job that applies a delta, one state function at a time.
pub mod Spec
pub mod Meaning
pub mod Step
pub mod Header
pub mod Read
pub mod Params
pub mod Run
pub mod Copying
pub mod Tubes
pub mod Call
pub mod Round
pub mod Work
pub mod Delivery
pub mod Whole
use librsync.Prelude.{ℕ, zero, suc, ◌+◌, ◌-◌, ◌^◌, ◌||◌, u64, is_neg64}
use librsync.Prelude.{Bool, true, false, ltb, leb, ◌==◌, if◌then◌else◌}
use librsync.Prelude.{List, [], ◌∷◌, ◌++◌, length, take, Option, none, some}
use librsync.Result.{RsResult, done, blocked, running, bad_magic, corrupt, is_done}
use librsync.Io.{Io, assert_that, new_io}
use librsync.Scoop.{scoop_readahead}
use librsync.Tube.{tube_copy}
use librsync.Netint.{suck_byte, suck_netint, suck_n4}
use librsync.Command.{OpKind, end, literal, copy}
use librsync.Prototab.{Entry, prototab}
use librsync.Stats.{Stats, no_stats}
use librsync.Job.{Job}

-- `RS_DELTA_MAGIC`
abbrev pub delta_magic : ℕ
delta_magic = 0x72730236

-- The state functions, `rs_patch_s_header` to `rs_patch_s_copying`.
pub data PatchState : Type 0 where
  s_header s_cmdbyte s_params s_run s_literal s_copy s_copying : PatchState

-- The fields of `struct rs_job` that patching uses. Parameters are 64-bit patterns.
pub record PatchVars : Type 0 where
  pub op : ℕ
  pub cmd : Entry
  pub param1 : ℕ
  pub param2 : ℕ
  pub basis_pos : ℕ
  pub basis_len : ℕ

abbrev pub PatchJob : Type 0
PatchJob = Job PatchState PatchVars

-- `job->statefn = f; return RS_RUNNING;`
unfoldable pub go_to : PatchState → PatchJob → RsResult × PatchJob
go_to f j = (running, record j { statefn = some f })

unfoldable pub patch_s_header : PatchJob → RsResult × PatchJob
unfolding go_to
patch_s_header j =
    let (r, v, io') = suck_n4 j.io in
    let j' = record j { io = io' } in
    if is_done r
    then (if v == delta_magic then go_to s_cmdbyte j' else (bad_magic, j'))
    else (r, j')

unfoldable pub patch_s_cmdbyte : PatchJob → RsResult × PatchJob
unfolding go_to
patch_s_cmdbyte j =
    let (r, op, io') = suck_byte j.io in
    let e = prototab op in
    let vars' = record (j.vars) { op = op; cmd = e } in
    if is_done r
    then (if e.len_1 == 0
        then go_to s_run (record j { io = io'; vars = record vars' { param1 = e.immediate } })
        else go_to s_params (record j { io = io'; vars = vars' }))
    else (r, record j { io = io' })

-- Both parameters, once as many bytes as they take are known to be there.
unfoldable pub patch_take_params : PatchJob → PatchJob
unfolding assert_that
patch_take_params j =
    let (r1, param1, io1) = suck_netint j.vars.cmd.len_1 j.io in
    let io1' = assert_that (is_done r1) io1 in
    let (r2, param2, io2) = suck_netint j.vars.cmd.len_2 io1' in
    if j.vars.cmd.len_2 == 0
    then record j { io = io1'; vars = record (j.vars) { param1 = param1 } }
    else record j {
      io = assert_that (is_done r2) io2;
      vars = record (j.vars) { param1 = param1; param2 = param2 };
    }

unfoldable pub patch_s_params : PatchJob → RsResult × PatchJob
unfolding assert_that go_to
patch_s_params j =
    let len = j.vars.cmd.len_1 + j.vars.cmd.len_2 in
    let (r, _, io') = scoop_readahead len (assert_that (ltb 0 len) j.io) in
    let j' = record j { io = io' } in
    if is_done r then go_to s_run (patch_take_params j') else (r, j')

-- The `switch (job->cmd->kind)` of `rs_patch_s_run`.
unfoldable pub patch_run_kind : OpKind → PatchJob → RsResult × PatchJob
unfolding go_to
patch_run_kind literal j = go_to s_literal j
patch_run_kind end j = (done, j)
patch_run_kind copy j = go_to s_copy j
patch_run_kind _ j = (corrupt, j)

unfoldable pub patch_s_run : PatchJob → RsResult × PatchJob
patch_s_run j = patch_run_kind j.vars.cmd.kind j

-- `len <= 0` of an `rs_long_t`.
abbrev pub not_positive : ℕ → Bool
not_positive len = (len == 0) || is_neg64 len

-- `len > SIZE_MAX` compares unsigned 64-bit numbers, so it never holds.
unfoldable pub patch_s_literal : PatchJob → RsResult × PatchJob
unfolding go_to
patch_s_literal j =
    let len = j.vars.param1 in
    let stats' = record (j.stats) {
      lit_cmds = j.stats.lit_cmds + 1;
      lit_bytes = j.stats.lit_bytes + len;
      lit_cmdbytes = j.stats.lit_cmdbytes + 1 + j.vars.cmd.len_1;
    } in
    if not_positive len || ltb (u64 - 1) len
    then (corrupt, j)
    else go_to s_cmdbyte (record j { io = tube_copy len j.io; stats = stats' })

unfoldable pub patch_s_copy : PatchJob → RsResult × PatchJob
unfolding go_to
patch_s_copy j =
    let pos = j.vars.param1 in
    let len = j.vars.param2 in
    let stats' = record (j.stats) {
      copy_cmds = j.stats.copy_cmds + 1;
      copy_bytes = j.stats.copy_bytes + len;
      copy_cmdbytes = j.stats.copy_cmdbytes + 1 + j.vars.cmd.len_1 + j.vars.cmd.len_2;
    } in
    if not_positive len
    then (corrupt, j)
    else if is_neg64 pos
    then (corrupt, j)
    else go_to s_copying
        (record j { stats = stats'; vars = record (j.vars) { basis_pos = pos; basis_len = len } })

-- `rs_copy_cb`: from a position and a number of bytes to a result and the bytes that came back.
abbrev pub CopyCb : Type 0
CopyCb = ℕ → ℕ → RsResult × List ℕ

-- The callback's bytes are cut to `req`, as a build without assertions does.
unfoldable pub patch_copy_bytes : ℕ → List ℕ → PatchJob → RsResult × PatchJob
unfolding assert_that
patch_copy_bytes req bytes j =
    let got = take req bytes in
    let n = length got in
    let io1 = assert_that (leb (length bytes) req) j.io in
    let io' = record io1 { written = j.io.written ++ got; avail_out = j.io.avail_out - n } in
    let vars' = record (j.vars) {
      basis_pos = j.vars.basis_pos + n;
      basis_len = j.vars.basis_len - n;
    } in
    (
      running,
      record j {
        io = io';
        vars = vars';
        statefn = if vars'.basis_len == 0 then some s_cmdbyte else j.statefn;
      },
    )

module _ (copy_cb : CopyCb) where
  unfoldable pub patch_s_copying : PatchJob → RsResult × PatchJob
  unfolding patch_copy_bytes
  patch_s_copying j =
      let room = j.io.avail_out in
      let req = if ltb room j.vars.basis_len then room else j.vars.basis_len in
      let (r, bytes) = copy_cb j.vars.basis_pos req in
      if room == 0 then (blocked, j) else if is_done r then patch_copy_bytes req bytes j else (r, j)

  unfoldable pub patch_call : PatchState → PatchJob → RsResult × PatchJob
  patch_call s_header = patch_s_header
  patch_call s_cmdbyte = patch_s_cmdbyte
  patch_call s_params = patch_s_params
  patch_call s_run = patch_s_run
  patch_call s_literal = patch_s_literal
  patch_call s_copy = patch_s_copy
  patch_call s_copying = patch_s_copying

-- `rs_patch_begin`; the io is the caller's first buffers.
unfoldable pub patch_begin : Io → PatchJob
unfolding no_stats
patch_begin io = record {
  io = io;
  statefn = some s_header;
  final_result = done;
  stats = no_stats;
  vars = record {
    op = 0;
    cmd = record { kind = end; immediate = 0; len_1 = 0; len_2 = 0 };
    param1 = 0;
    param2 = 0;
    basis_pos = 0;
    basis_len = 0;
  };
}
