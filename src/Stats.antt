-- ===== src/Stats.antt =====
-- src/librsync.h: `rs_stats_t`, the counters of a job. They are plain numbers: no run comes near
-- their range. The name of the job and its two times are left out.
use librsync.Prelude.{ℕ}

pub record Stats : Type 0 where
  pub lit_cmds : ℕ
  pub lit_bytes : ℕ
  pub lit_cmdbytes : ℕ
  pub copy_cmds : ℕ
  pub copy_bytes : ℕ
  pub copy_cmdbytes : ℕ
  pub sig_cmds : ℕ
  pub sig_bytes : ℕ
  pub false_matches : ℕ
  pub sig_blocks : ℕ
  pub block_len : ℕ
  pub in_bytes : ℕ
  pub out_bytes : ℕ

-- `rs_job_new` zeroes them.
unfoldable pub no_stats : Stats
no_stats = record {
  lit_cmds = 0;
  lit_bytes = 0;
  lit_cmdbytes = 0;
  copy_cmds = 0;
  copy_bytes = 0;
  copy_cmdbytes = 0;
  sig_cmds = 0;
  sig_bytes = 0;
  false_matches = 0;
  sig_blocks = 0;
  block_len = 0;
  in_bytes = 0;
  out_bytes = 0;
}
