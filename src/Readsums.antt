-- ===== src/Readsums.antt =====
-- src/readsums.c: the job that reads a signature into memory. The trace messages are left out.
pub mod Spec
pub mod Read
pub mod Load
pub mod Whole
pub mod RoundTrip
use librsync.Prelude.{ℕ, ◌+◌, Bool, ltb, is_neg32, ◌||◌, ◌==◌, if◌then◌else◌, sign_extend}
use librsync.Prelude.{List, Option, none, some}
use librsync.Result.{RsResult, done, running, corrupt, is_done, is_input_ended}
use librsync.Io.{Io, assert_that}
use librsync.Scoop.{scoop_read}
use librsync.Netint.{suck_n4}
use librsync.Stats.{Stats, no_stats}
use librsync.Job.{Job}
use librsync.Sumset.{Signature, no_signature, signature_init, signature_add_block}

-- The state functions, `rs_loadsig_s_magic` to `rs_loadsig_s_strong`.
pub data LoadState : Type 0 where
  s_magic s_blocklen s_stronglen s_weak s_strong : LoadState

-- The fields of `struct rs_job` that loading a signature uses.
pub record LoadVars : Type 0 where
  pub signature : Signature
  pub sig_magic : ℕ
  pub sig_block_len : ℕ
  pub sig_strong_len : ℕ
  pub sig_fsize : ℕ
  pub weak_sig : ℕ

abbrev pub LoadJob : Type 0
LoadJob = Job LoadState LoadVars

-- `job->statefn = f; return RS_RUNNING;`
unfoldable pub go_to : LoadState → LoadJob → RsResult × LoadJob
go_to f j = (running, record j { statefn = some f })

unfoldable pub loadsig_add_sum : List ℕ → LoadJob → RsResult × LoadJob
loadsig_add_sum strong j =
    let (sig, ok) = signature_add_block j.vars.weak_sig strong j.vars.signature in
    (
      running,
      record j {
        io = assert_that ok j.io;
        vars = record (j.vars) { signature = sig };
        stats = record (j.stats) { sig_blocks = j.stats.sig_blocks + 1 };
      },
    )

-- What each state function does with the int that `rs_suck_n4` has read.
unfoldable pub loadsig_got_weak : RsResult × ℕ × Io → LoadJob → RsResult × LoadJob
unfolding go_to
loadsig_got_weak (r, l, io') j =
    let j' = record j { io = io' } in
    if is_done r
    then go_to s_strong (record j' { vars = record (j.vars) { weak_sig = l } })
    else (if is_input_ended r then done else r, j')

unfoldable pub loadsig_s_weak : LoadJob → RsResult × LoadJob
loadsig_s_weak j = loadsig_got_weak (suck_n4 j.io) j

unfoldable pub loadsig_got_strong : RsResult × List ℕ × Io → LoadJob → RsResult × LoadJob
loadsig_got_strong (r, strongsum, io') j =
    let j' = record j { io = io' } in
    if is_done r then loadsig_add_sum strongsum (record j' { statefn = some s_weak }) else (r, j')

unfoldable pub loadsig_s_strong : LoadJob → RsResult × LoadJob
loadsig_s_strong j =
    loadsig_got_strong (scoop_read (sign_extend j.vars.signature.strong_sum_len) j.io) j

unfoldable pub loadsig_start : RsResult × Option Signature → LoadJob → RsResult × LoadJob
unfolding go_to
loadsig_start (r, none) j = (r, j)
loadsig_start (r, some sig) j =
    go_to s_weak (record j { vars = record (j.vars) { signature = sig } })

-- `l < 0 || l > RS_MAX_STRONG_SUM_LENGTH` of an int
unfoldable pub loadsig_got_stronglen : RsResult × ℕ × Io → LoadJob → RsResult × LoadJob
unfolding loadsig_start
loadsig_got_stronglen (r, l, io') j =
    let j1 = record j { io = io' } in
    let j2 = record j1 { vars = record (j.vars) { sig_strong_len = l } } in
    let started =
      loadsig_start
        (signature_init j.vars.sig_magic (sign_extend j.vars.sig_block_len) (sign_extend l)
          j.vars.sig_fsize)
        j2 in
    if is_done r then (if is_neg32 l || ltb 32 l then (corrupt, j1) else started) else (r, j1)

unfoldable pub loadsig_s_stronglen : LoadJob → RsResult × LoadJob
loadsig_s_stronglen j = loadsig_got_stronglen (suck_n4 j.io) j

-- `l < 1` of an int
unfoldable pub loadsig_got_blocklen : RsResult × ℕ × Io → LoadJob → RsResult × LoadJob
unfolding go_to
loadsig_got_blocklen (r, l, io') j =
    let j' = record j { io = io' } in
    if is_done r
    then (if (l == 0) || is_neg32 l
        then (corrupt, j')
        else go_to s_stronglen (record j' {
          vars = record (j.vars) { sig_block_len = l };
          stats = record (j.stats) { block_len = l };
        }))
    else (r, j')

unfoldable pub loadsig_s_blocklen : LoadJob → RsResult × LoadJob
loadsig_s_blocklen j = loadsig_got_blocklen (suck_n4 j.io) j

unfoldable pub loadsig_got_magic : RsResult × ℕ × Io → LoadJob → RsResult × LoadJob
unfolding go_to
loadsig_got_magic (r, l, io') j =
    let j' = record j { io = io' } in
    if is_done r
    then go_to s_blocklen (record j' { vars = record (j.vars) { sig_magic = l } })
    else (r, j')

unfoldable pub loadsig_s_magic : LoadJob → RsResult × LoadJob
loadsig_s_magic j = loadsig_got_magic (suck_n4 j.io) j

unfoldable pub loadsig_call : LoadState → LoadJob → RsResult × LoadJob
loadsig_call s_magic = loadsig_s_magic
loadsig_call s_blocklen = loadsig_s_blocklen
loadsig_call s_stronglen = loadsig_s_stronglen
loadsig_call s_weak = loadsig_s_weak
loadsig_call s_strong = loadsig_s_strong

-- `rs_loadsig_begin`; the io is the caller's first buffers. The fields begin as zero.
unfoldable pub loadsig_begin : Io → LoadJob
unfolding no_stats no_signature
loadsig_begin io = record {
  io = io;
  statefn = some s_magic;
  final_result = done;
  stats = no_stats;
  vars = record {
    signature = no_signature;
    sig_magic = 0;
    sig_block_len = 0;
    sig_strong_len = 0;
    sig_fsize = 0;
    weak_sig = 0;
  };
}
