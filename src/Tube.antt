-- ===== src/Tube.antt =====
-- src/tube.c: command bytes and one copy instruction that wait for room in the output.
pub mod Copy
pub mod Catchup
pub mod Write
pub mod Drain
use librsync.Prelude.{
  ℕ, zero, suc, ◌+◌, ◌-◌, Bool, true, false, ◌&&◌, not, ltb, leb, ◌==◌, if◌then◌else◌,
}
use librsync.Prelude.{List, [], ◌∷◌, ◌++◌, length, take, drop}
use librsync.Result.{RsResult, done, blocked, input_ended}
use librsync.Io.{Io, assert_that}
use librsync.Scoop.{scoop_avail, scoop_eof, scoop_getbuf, scoop_advance}

-- `sizeof(job->write_buf)`
abbrev pub write_buf_size : ℕ
write_buf_size = 36

unfoldable pub tube_catchup_write : Io → Io
tube_catchup_write io =
    let len =
      if ltb io.avail_out (length io.write_buf) then io.avail_out else length io.write_buf in
    record io {
      written = io.written ++ take len io.write_buf;
      avail_out = io.avail_out - len;
      write_buf = drop len io.write_buf;
    }

-- The loop over `rs_scoop_iterbuf` and `rs_scoop_nextbuf`: `len` is what is left to copy. Each
-- round copies a byte at least, so `len + 1` rounds are enough.
unfoldable pub copy_loop : ℕ → ℕ → Io → Io
copy_loop zero len io = io
copy_loop (suc fuel) len io =
    let (ilen, next) = scoop_getbuf io len in
    let rest = copy_loop fuel (len - ilen) (
      scoop_advance ilen (record io {
        written = io.written ++ next;
        avail_out = io.avail_out - ilen;
        copy_len = io.copy_len - ilen;
      })) in
    if ilen == 0 then io else rest

-- How much `rs_tube_catchup_copy` copies: the instruction cut to what can be read and written.
unfoldable pub tube_copy_len : Io → ℕ
tube_copy_len io =
    let len = if ltb (scoop_avail io) io.copy_len then scoop_avail io else io.copy_len in
    if ltb io.avail_out len then io.avail_out else len

unfoldable pub tube_catchup_copy : Io → Io
tube_catchup_copy io =
    copy_loop (suc (tube_copy_len io)) (tube_copy_len io)
      (assert_that ((length io.write_buf == 0) && ltb 0 io.copy_len) io)

-- The second half of `rs_tube_catchup`.
unfoldable pub tube_finish_copy : Io → RsResult × Io
tube_finish_copy io =
    if io.copy_len == 0
    then (done, io)
    else if (tube_catchup_copy io).copy_len == 0
    then (done, tube_catchup_copy io)
    else (if scoop_eof (tube_catchup_copy io) then input_ended else blocked, tube_catchup_copy io)

unfoldable pub tube_catchup : Io → RsResult × Io
tube_catchup io =
    let io' = if length io.write_buf == 0 then io else tube_catchup_write io in
    if length io'.write_buf == 0 then tube_finish_copy io' else (blocked, io')

unfoldable pub tube_is_idle : Io → Bool
tube_is_idle io = (length io.write_buf == 0) && (io.copy_len == 0)

unfoldable pub tube_copy : ℕ → Io → Io
tube_copy len io = record (assert_that (io.copy_len == 0) io) { copy_len = len }

unfoldable pub tube_write : List ℕ → Io → Io
tube_write bytes io =
    record (assert_that
      ((io.copy_len == 0) && leb (length bytes) (write_buf_size - length io.write_buf)) io) {
        write_buf = io.write_buf ++ bytes;
      }
