-- ===== src/Delta.antt =====
-- src/delta.c: the job that compares a file with a signature and writes a delta. The trace messages are
-- left out. `scan_buf` is the bytes that the C pointer leads to, in the scoop or in the caller's
-- buffer, neither of which moves before the next rs_getinput sets the pointer anew.
pub mod Slack
pub mod Ending
pub mod Whole
pub mod Match
pub mod Left
pub mod SameBlocks
pub mod Rounds
use librsync.Prelude.{
  ℕ, zero, suc, ◌+◌, ◌-◌, ◌%◌, ◌^◌, u32, u64, sub64, ltb, leb, ◌==◌, ◌&&◌, ◌||◌, not, if◌then◌else◌,
  sign_extend, Bool, true, false,
}
use librsync.Prelude.{List, [], length, take, drop, get_or, Option, none, some}
use librsync.Result.{RsResult, done, blocked, running, is_done}
use librsync.Io.{Io, assert_that}
use librsync.Scoop.{scoop_avail, scoop_eof, scoop_readahead, scoop_advance}
use librsync.Tube.{tube_catchup, tube_copy}
use librsync.Stats.{no_stats}
use librsync.Job.{Job}
use librsync.Emit.{emit_delta_header, emit_literal_cmd, emit_copy_cmd, emit_end_cmd}
use librsync.Checksum.{
  Weaksum, rs_rollsum, weaksum_init, weaksum_reset, weaksum_count, weaksum_update, weaksum_rotate,
  weaksum_rollout, weaksum_digest,
}
use librsync.Hashtable.{HashTable}
use librsync.Sumset.{Signature, signature_check, weaksum_kind}
use librsync.Sumset.Match.{signature_find_match}

-- `MAX_DELTA_CMD` of src/job.h, and `MAX_MISS_LEN`
abbrev pub max_delta_cmd : ℕ
max_delta_cmd = 2 ^ 16

abbrev pub max_miss_len : ℕ
max_miss_len = max_delta_cmd - 3

-- The state functions, `rs_delta_s_header` to `rs_delta_s_end`.
pub data DeltaState : Type 0 where
  s_header s_scan s_flush s_slack s_end : DeltaState

-- The fields of `struct rs_job` that a delta uses; the signature is NULL for a slack delta.
pub record DeltaVars : Type 0 where
  pub signature : Option Signature
  pub weak_sum : Weaksum
  pub scan_buf : List ℕ
  pub scan_len : ℕ
  pub scan_pos : ℕ
  pub basis_pos : ℕ
  pub basis_len : ℕ

abbrev pub DeltaJob : Type 0
DeltaJob = Job DeltaState DeltaVars

-- `job->statefn = f; return RS_RUNNING;`
unfoldable pub go_to : DeltaState → DeltaJob → RsResult × DeltaJob
go_to f j = (running, record j { statefn = some f })

-- `rs_tube_catchup(job)`
unfoldable pub catchup : DeltaJob → RsResult × DeltaJob
catchup j = let (r, io') = tube_catchup j.io in (r, record j { io = io' })

-- `scan_buf += scan_pos; scan_len -= scan_pos; scan_pos = 0;`
unfoldable pub pass_scanned : DeltaVars → DeltaVars
pass_scanned v = record v {
  scan_buf = drop v.scan_pos v.scan_buf;
  scan_len = sub64 v.scan_len v.scan_pos;
  scan_pos = 0;
}

unfoldable pub processmatch : DeltaJob → RsResult × DeltaJob
unfolding pass_scanned catchup
processmatch j =
    let io' = scoop_advance j.vars.scan_pos (assert_that (j.io.copy_len == 0) j.io) in
    catchup (record j { io = io'; vars = pass_scanned j.vars })

unfoldable pub processmiss : DeltaJob → RsResult × DeltaJob
unfolding pass_scanned catchup
processmiss j =
    let io' = tube_copy j.vars.scan_pos (assert_that (ltb 0 (length j.io.write_buf)) j.io) in
    catchup (record j { io = io'; vars = pass_scanned j.vars })

unfoldable pub appendflush : DeltaJob → RsResult × DeltaJob
unfolding processmatch processmiss
appendflush j =
    let copied = emit_copy_cmd j.vars.basis_pos j.vars.basis_len j in
    if not (j.vars.basis_len == 0)
    then processmatch (record copied { vars = record (j.vars) { basis_len = 0 } })
    else if not (j.vars.scan_pos == 0)
    then processmiss (emit_literal_cmd (j.vars.scan_pos % u32) j)
    else (done, j)

-- `job->scan_pos += len`
unfoldable pub scan_past : ℕ → DeltaJob → DeltaJob
scan_past len j = record j { vars = record (j.vars) { scan_pos = (j.vars.scan_pos + len) % u64 } }

-- The end of `rs_appendmatch`.
unfoldable pub match_appended : ℕ → RsResult × DeltaJob → RsResult × DeltaJob
unfolding scan_past
match_appended match_len (r, j) =
    if is_done r then processmatch (scan_past match_len j) else (r, scan_past match_len j)

unfoldable pub appendmatch : ℕ → ℕ → DeltaJob → RsResult × DeltaJob
unfolding match_appended
appendmatch match_pos match_len j =
    let (r, j') = appendflush j in
    if not (j.vars.basis_len == 0) && (j.vars.basis_pos + j.vars.basis_len == match_pos)
    then match_appended match_len
        (done, record j { vars = record (j.vars) { basis_len = j.vars.basis_len + match_len } })
    else match_appended match_len
        (r, record j' { vars = record (j'.vars) { basis_pos = match_pos; basis_len = match_len } })

unfoldable pub appendmiss : ℕ → DeltaJob → RsResult × DeltaJob
unfolding scan_past
appendmiss miss_len j =
    let (r, j') = appendflush j in
    if not (j.vars.basis_len == 0) || leb max_miss_len j.vars.scan_pos
    then (r, scan_past miss_len j')
    else (done, scan_past miss_len j)

unfoldable pub getinput : ℕ → DeltaJob → RsResult × DeltaJob
getinput block_len j =
    let min_len = (block_len + max_delta_cmd) % u64 in
    let avail = scoop_avail j.io in
    let scan_len = if ltb avail min_len && not j.io.eof_in then min_len else avail in
    let (r, bytes, io') = scoop_readahead scan_len j.io in
    (r, record j { io = io'; vars = record (j.vars) { scan_len = scan_len; scan_buf = bytes } })

-- The signature of a job that has one, of which a search changes the counters. A search that finds no
-- hash table or does not end is marked as a failed assertion.
unfoldable pub searched : Option (Signature × ℕ) → DeltaJob → DeltaJob × ℕ
searched none j = (record j { io = record (j.io) { aborted = true } }, u64 - 1)
searched (some (sig, match_pos)) j =
    (record j { vars = record (j.vars) { signature = some sig } }, match_pos)

unfoldable pub reset_sum : RsResult × DeltaJob → RsResult × DeltaJob
reset_sum (r, j) =
    (r, record j { vars = record (j.vars) { weak_sum = weaksum_reset j.vars.weak_sum } })

-- The body of the loops, where `roll` is what becomes of the weak sum at a miss.
unfoldable pub scan_step : (DeltaVars → Weaksum) → DeltaJob × ℕ × ℕ → RsResult × DeltaJob
unfolding reset_sum
scan_step roll (j, match_pos, match_len) =
    let matched = reset_sum (appendmatch match_pos match_len j) in
    let missed = appendmiss 1 (record j { vars = record (j.vars) { weak_sum = roll j.vars } }) in
    if match_pos == u64 - 1 then missed else matched

unfoldable pub roll_on : ℕ → DeltaVars → Weaksum
roll_on block_len v =
    weaksum_rotate (get_or v.scan_buf v.scan_pos 0) (get_or v.scan_buf (v.scan_pos + block_len) 0)
      v.weak_sum

unfoldable pub roll_out : DeltaVars → Weaksum
roll_out v = weaksum_rollout (get_or v.scan_buf v.scan_pos 0) v.weak_sum

unfoldable pub scan_ended : RsResult × DeltaJob → RsResult × DeltaJob
unfolding go_to
scan_ended (r, j) =
    if is_done r then (if j.io.eof_in then go_to s_flush j else (blocked, j)) else (r, j)

unfoldable pub flush_finish : RsResult × DeltaJob → RsResult × DeltaJob
unfolding appendflush
flush_finish (r, j) =
    let (r', j') = appendflush j in
    if is_done r
    then (if is_done r' then running else r', record j' { statefn = some s_end })
    else (r, j)

-- `rs_tube_catchup` and `rs_getinput`, and `go` with the length scanned where both are done
unfoldable pub with_input : ℕ → (DeltaJob → RsResult × DeltaJob) → DeltaJob → RsResult × DeltaJob
unfolding catchup getinput
with_input block_len go j =
    let (r1, j1) = catchup j in
    let (r2, j2) = getinput block_len j1 in
    if is_done r1 then (if is_done r2 then go j2 else (r2, j2)) else (r1, j1)

abbrev pub block_len_of : Option Signature → ℕ
block_len_of none = 0
block_len_of (some sig) = sign_extend sig.block_len

unfoldable pub delta_s_end : DeltaJob → RsResult × DeltaJob
delta_s_end j = (done, emit_end_cmd j)

unfoldable pub delta_s_slack : DeltaJob → RsResult × DeltaJob
unfolding go_to
delta_s_slack j =
    let avail = scoop_avail j.io in
    let j' = emit_literal_cmd (avail % u32) j in
    if not (avail == 0)
    then (running, record j' { io = tube_copy avail j'.io })
    else if scoop_eof j.io
    then go_to s_end j
    else (blocked, j)

unfoldable pub header_next : Option Signature → DeltaState
header_next none = s_slack
header_next (some sig) = s_scan

unfoldable pub delta_s_header : DeltaJob → RsResult × DeltaJob
unfolding go_to header_next
delta_s_header j = go_to (header_next j.vars.signature) (emit_delta_header j)

module _ (blake2 : List ℕ → List ℕ) where
  -- `rs_findmatch`: the job, `*match_pos` and `*match_len`.
  unfoldable pub findmatch : Signature → DeltaJob → DeltaJob × ℕ × ℕ
  unfolding searched
  findmatch sig j =
      let scan = drop j.vars.scan_pos j.vars.scan_buf in
      let block_len = sign_extend sig.block_len in
      let left = sub64 j.vars.scan_len j.vars.scan_pos in
      let fresh = weaksum_count j.vars.weak_sum == 0 in
      let match_len =
        if fresh
        then (if ltb block_len left then block_len else left)
        else weaksum_count j.vars.weak_sum in
      let weak_sum =
        if fresh then weaksum_update (take match_len scan) j.vars.weak_sum else j.vars.weak_sum in
      let (j', match_pos) =
        searched (signature_find_match blake2 sig (weaksum_digest weak_sum) (take match_len scan))
          (record j { vars = record (j.vars) { weak_sum = weak_sum } }) in
      (j', match_pos, match_len)

  -- A round scans a byte at least, so `scan_len` rounds are enough. The signature is the one of the job,
  -- which a search replaces.
  unfoldable pub scan_round :
      (DeltaVars → Weaksum) → Option Signature → DeltaJob → RsResult × DeltaJob
  unfolding findmatch scan_step
  scan_round roll none j = (done, j)
  scan_round roll (some sig) j = scan_step roll (findmatch sig j)

  unfoldable pub scan_loop : ℕ → ℕ → RsResult × DeltaJob → RsResult × DeltaJob
  unfolding scan_round roll_on
  scan_loop zero block_len (r, j) = (r, j)
  scan_loop (suc fuel) block_len (r, j) =
      let rest = scan_loop fuel block_len (scan_round (roll_on block_len) j.vars.signature j) in
      if is_done r && ltb ((j.vars.scan_pos + block_len) % u64) j.vars.scan_len
      then rest
      else (r, j)

  unfoldable pub flush_loop : ℕ → RsResult × DeltaJob → RsResult × DeltaJob
  unfolding scan_round roll_out
  flush_loop zero (r, j) = (r, j)
  flush_loop (suc fuel) (r, j) =
      let rest = flush_loop fuel (scan_round roll_out j.vars.signature j) in
      if is_done r && ltb j.vars.scan_pos j.vars.scan_len then rest else (r, j)

  unfoldable pub delta_s_scan : DeltaJob → RsResult × DeltaJob
  unfolding with_input scan_loop scan_ended
  delta_s_scan j =
      let block_len = block_len_of j.vars.signature in
      with_input block_len (λ j2. scan_ended (scan_loop j2.vars.scan_len block_len (done, j2))) j

  unfoldable pub delta_s_flush : DeltaJob → RsResult × DeltaJob
  unfolding with_input flush_loop flush_finish
  delta_s_flush j =
      with_input (block_len_of j.vars.signature)
        (λ j2. flush_finish (flush_loop j2.vars.scan_len (done, j2))) j

  unfoldable pub delta_call : DeltaState → DeltaJob → RsResult × DeltaJob
  delta_call s_header = delta_s_header
  delta_call s_scan = delta_s_scan
  delta_call s_flush = delta_s_flush
  delta_call s_slack = delta_s_slack
  delta_call s_end = delta_s_end

unfoldable pub has_table : Option (HashTable ℕ) → Bool
has_table none = false
has_table (some t) = true

-- The signature that the job keeps, and whether the assertions on it hold.
unfoldable pub signature_for : Option Signature → Option Signature × Bool
signature_for none = (none, true)
signature_for (some sig) =
    if sig.count == 0
    then (none, true)
    else (some sig, signature_check sig && has_table sig.hashtable)

-- The union is zeroed memory where there is no signature.
unfoldable pub sum_for : Option Signature → Weaksum
sum_for none = weaksum_init rs_rollsum
sum_for (some sig) = weaksum_init (weaksum_kind sig)

-- `rs_delta_begin`; the io is the caller's first buffers.
unfoldable pub delta_begin : Option Signature → Io → DeltaJob
unfolding no_stats signature_for sum_for has_table
delta_begin sig io =
    let (sig', ok) = signature_for sig in
    record {
      io = assert_that ok io;
      statefn = some s_header;
      final_result = done;
      stats = no_stats;
      vars = record {
        signature = sig';
        weak_sum = sum_for sig';
        scan_buf = [];
        scan_len = 0;
        scan_pos = 0;
        basis_pos = 0;
        basis_len = 0;
      };
    }
