-- ===== src/Mksum.antt =====
-- src/mksum.c: the job that writes the signature of a file. The trace messages are left out.
pub mod Spec
pub mod Generate
pub mod Rounds
pub mod Whole
use librsync.Prelude.{ℕ, ◌+◌, ◌%◌, u32, if◌then◌else◌, sign_extend}
use librsync.Prelude.{List, take, Option, none, some}
use librsync.Result.{RsResult, done, running, is_done, is_input_ended}
use librsync.Io.{Io}
use librsync.Scoop.{scoop_read, scoop_read_rest}
use librsync.Tube.{tube_write}
use librsync.Netint.{squirt_n4}
use librsync.Stats.{Stats, no_stats}
use librsync.Job.{Job}
use librsync.Sumset.{
  Signature, no_signature, signature_init, signature_calc_weak_sum, signature_calc_strong_sum,
}

-- The state functions `rs_sig_s_header` and `rs_sig_s_generate`.
pub data SigState : Type 0 where
  s_header s_generate : SigState

-- The fields of `struct rs_job` that signature generation uses; the last two are ints.
pub record SigVars : Type 0 where
  pub signature : Signature
  pub sig_magic : ℕ
  pub sig_block_len : ℕ
  pub sig_strong_len : ℕ

abbrev pub SigJob : Type 0
SigJob = Job SigState SigVars

-- The rest of `rs_sig_s_header`, after `rs_signature_init`.
unfoldable pub sig_send_header : RsResult × Option Signature → SigJob → RsResult × SigJob
sig_send_header (r, none) j = (r, j)
sig_send_header (r, some sig) j = (
  running,
  record j {
    io = squirt_n4 sig.strong_sum_len (squirt_n4 sig.block_len (squirt_n4 sig.magic j.io));
    statefn = some s_generate;
    stats = record (j.stats) { block_len = sig.block_len };
    vars = record (j.vars) { signature = sig };
  },
)

-- The two ints become size_t.
unfoldable pub sig_s_header : SigJob → RsResult × SigJob
unfolding sig_send_header
sig_s_header j =
    sig_send_header
      (signature_init j.vars.sig_magic (sign_extend j.vars.sig_block_len)
        (sign_extend j.vars.sig_strong_len) 0)
      j

-- `rs_scoop_read_rest` where the input has ended before a whole block.
unfoldable pub sig_read : RsResult × List ℕ × Io → RsResult × List ℕ × Io
sig_read (r, block, io') = if is_input_ended r then scoop_read_rest io' else (r, block, io')

module _ (blake2 : List ℕ → List ℕ) where
  unfoldable pub sig_do_block : List ℕ → SigJob → RsResult × SigJob
  sig_do_block block j =
      let sig = j.vars.signature in
      let weak_sum = signature_calc_weak_sum sig block in
      let strong_sum = signature_calc_strong_sum blake2 sig block in
      (
        running,
        record j {
          io = tube_write (take sig.strong_sum_len strong_sum) (squirt_n4 weak_sum j.io);
          stats = record (j.stats) { sig_blocks = j.stats.sig_blocks + 1 };
        },
      )

  -- The rest of `rs_sig_s_generate`, after its reads.
  unfoldable pub sig_got : RsResult × List ℕ × Io → SigJob → RsResult × SigJob
  sig_got (r, block, io') j =
      let j' = record j { io = io' } in
      if is_input_ended r then (done, j') else if is_done r then sig_do_block block j' else (r, j')

  unfoldable pub sig_s_generate : SigJob → RsResult × SigJob
  sig_s_generate j = sig_got (sig_read (scoop_read (sign_extend j.vars.signature.block_len) j.io)) j

  unfoldable pub sig_call : SigState → SigJob → RsResult × SigJob
  sig_call s_header = sig_s_header
  sig_call s_generate = sig_s_generate

-- `rs_sig_begin`, where the two lengths are cut to ints; the io is the caller's first buffers.
unfoldable pub sig_begin : ℕ → ℕ → ℕ → Io → SigJob
unfolding no_stats no_signature
sig_begin block_len strong_len sig_magic io = record {
  io = io;
  statefn = some s_header;
  final_result = done;
  stats = no_stats;
  vars = record {
    signature = no_signature;
    sig_magic = sig_magic;
    sig_block_len = block_len % u32;
    sig_strong_len = strong_len % u32;
  };
}
