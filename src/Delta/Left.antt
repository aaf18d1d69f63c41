-- ===== src/Delta/Left.antt =====
-- src/delta.c: how much of the data rs_processmatch, rs_appendmatch and rs_appendmiss leave to scan.
use librsync.Prelude.{
  ℕ, ◌+◌, ◌-◌, ◌%◌, ◌^◌, ◌≤◌, ◌<◌, ◌≡◌, arith, ◌==◌, Bool-cases, inl, inr, not, ◌&&◌, ◌||◌, leb,
  u32,
}
use librsync.Prelude.{Option, none, some, length, length-drop}
use librsync.Result.{RsResult, done, is_done}
use librsync.Checksum.{weaksum_count}
use librsync.Sumset.{Signature}
use librsync.Emit.{emit_copy_cmd, emit_literal_cmd}
use librsync.Delta.{
  DeltaVars, DeltaJob, catchup, pass_scanned, processmatch, processmiss, appendflush, scan_past,
  match_appended, appendmatch, appendmiss, max_miss_len,
}

-- A signature whose blocks have `b` bytes.
abbrev pub Blocks : ℕ → Option Signature → Type 0
Blocks b none = ⊥
Blocks b (some sig) = sig.block_len ≡ b

-- A job with blocks of `b` bytes, whose weak sum has rolled over `c` bytes and that has `n` bytes left
-- to scan, all of them in `scan_buf`.
abbrev pub Left : ℕ → ℕ → ℕ → DeltaVars → Type 0
Left b c n v =
    Blocks b v.signature
    × (weaksum_count v.weak_sum ≡ c)
    × (v.scan_pos + n ≡ v.scan_len)
    × (v.scan_len < 2 ^ 63)
    × (v.scan_len ≤ length v.scan_buf)

module _ (b c : ℕ) where
  pass_scanned-Left : (n : ℕ) (v : DeltaVars) → Left b c n v → Left b c n (pass_scanned v)
  unfolding pass_scanned
  pass_scanned-Left n v s = (
    s.0,
    s.1,
    omega (arith, s.2, s.3),
    omega (arith, s.2, s.3),
    omega (arith, s.2, s.3, s.4, length-drop v.scan_pos v.scan_buf),
  )

  processmatch-Left :
      (n : ℕ) (j : DeltaJob) → Left b c n j.vars → Left b c n (processmatch j).1.vars
  unfolding processmatch catchup
  processmatch-Left n j s = pass_scanned-Left n j.vars s

  processmiss-Left : (n : ℕ) (j : DeltaJob) → Left b c n j.vars → Left b c n (processmiss j).1.vars
  unfolding processmiss catchup
  processmiss-Left n j s = pass_scanned-Left n j.vars s

  appendflush-Left : (n : ℕ) (j : DeltaJob) → Left b c n j.vars → Left b c n (appendflush j).1.vars
  unfolding appendflush emit_copy_cmd emit_literal_cmd
  appendflush-Left n j s = elim (Bool-cases (j.vars.basis_len == 0)) [
    | inr some_match ↦ rw some_match (
        processmatch-Left n
          (record (emit_copy_cmd j.vars.basis_pos j.vars.basis_len j) {
            vars = record (j.vars) { basis_len = 0 };
          })
          s)
    | inl no_match ↦ rw no_match (elim (Bool-cases (j.vars.scan_pos == 0)) [
      | inl nothing ↦ rw nothing s
      | inr some_miss ↦
          rw some_miss (processmiss-Left n (emit_literal_cmd (j.vars.scan_pos % u32) j) s)
    ])
  ]

  scan_past-Left :
      (n : ℕ) (k : ℕ) (j : DeltaJob)
      → k ≤ n
      → Left b c n j.vars
      → Left b c (n - k) (scan_past k j).vars
  unfolding scan_past
  scan_past-Left n k j le s = (s.0, s.1, omega (arith, s.2, s.3), s.3, s.4)

  match_appended-Left :
      (n : ℕ) (k : ℕ) (r : RsResult) (j : DeltaJob)
      → k ≤ n
      → Left b c n j.vars
      → Left b c (n - k) (match_appended k (r, j)).1.vars
  unfolding match_appended
  match_appended-Left n k r j le s = elim (Bool-cases (is_done r)) [
    | inl finished ↦
        rw finished (processmatch-Left (n - k) (scan_past k j) (scan_past-Left n k j le s))
    | inr blocked ↦ rw blocked (scan_past-Left n k j le s)
  ]

  pub appendmatch-Left :
      (n : ℕ) (pos k : ℕ) (j : DeltaJob)
      → k ≤ n
      → Left b c n j.vars
      → Left b c (n - k) (appendmatch pos k j).1.vars
  unfolding appendmatch
  appendmatch-Left n pos k j le s =
      elim (Bool-cases
        (not (j.vars.basis_len == 0) && (j.vars.basis_pos + j.vars.basis_len == pos))) [
          | inl extends ↦ rw extends (
              match_appended-Left n k done
                (record j { vars = record (j.vars) { basis_len = j.vars.basis_len + k } }) le s)
          | inr fresh ↦ rw fresh (
              match_appended-Left n k (appendflush j).0
                (record ((appendflush j).1) {
                  vars = record ((appendflush j).1.vars) { basis_pos = pos; basis_len = k };
                })
                le (appendflush-Left n j s))
        ]

  pub appendmiss-Left :
      (n : ℕ) (k : ℕ) (j : DeltaJob)
      → k ≤ n
      → Left b c n j.vars
      → Left b c (n - k) (appendmiss k j).1.vars
  unfolding appendmiss
  appendmiss-Left n k j le s =
      elim (Bool-cases (not (j.vars.basis_len == 0) || leb max_miss_len j.vars.scan_pos)) [
        | inl flushes ↦
            rw flushes (scan_past-Left n k (appendflush j).1 le (appendflush-Left n j s))
        | inr waits ↦ rw waits (scan_past-Left n k j le s)
      ]
