-- ===== src/Scoop.antt =====
-- src/scoop.c and the inline functions of src/scoop.h: readahead from the caller's buffers.
-- A pointer to bytes is the list of the bytes it points at.
pub mod Queue
pub mod Input
pub mod Readahead
pub mod Read
use librsync.Prelude.{ℕ, zero, suc, ◌+◌, ◌-◌, ◌*◌, ◌%◌, ◌^◌, min, u64}
use librsync.Prelude.{Bool, true, false, not, ◌&&◌, ltb, leb, ◌==◌, if◌then◌else◌}
use librsync.Prelude.{List, [], ◌∷◌, ◌++◌, length, take, drop, replicate}
use librsync.Result.{RsResult, done, blocked, input_ended, is_done}
use librsync.Io.{Io, assert_that}

-- The bytes `scoop_next[0 .. scoop_avail]`.
abbrev pub live : Io → List ℕ
live io = take io.scoop_avail (drop io.scoop_next io.scoop_buf)

unfoldable pub scoop_avail : Io → ℕ
scoop_avail io = io.scoop_avail + length io.next_in

unfoldable pub scoop_eof : Io → Bool
unfolding scoop_avail
scoop_eof io = (scoop_avail io == 0) && io.eof_in

-- `rs_scoop_buf`: the contiguous bytes that its pointer leads to.
unfoldable pub scoop_ptr : Io → List ℕ
scoop_ptr io = if io.scoop_avail == 0 then io.next_in else live io

unfoldable pub scoop_len : Io → ℕ
scoop_len io = if io.scoop_avail == 0 then length io.next_in else io.scoop_avail

-- `rs_scoop_getbuf`, and so `rs_scoop_iterbuf`: the length cut to what is contiguous, and the bytes.
unfoldable pub scoop_getbuf : Io → ℕ → ℕ × List ℕ
unfolding scoop_len scoop_ptr
scoop_getbuf io len =
    let len' = if ltb (scoop_len io) len then scoop_len io else len in
    (len', take len' (scoop_ptr io))

-- `for (newsize = 64; newsize < len; newsize <<= 1)`. A size_t doubles modulo 2 ^ 64.
unfoldable pub grow : ℕ → ℕ → ℕ → ℕ
grow zero size len = size
grow (suc fuel) size len =
    let rest = grow fuel (size * 2 % u64) len in if ltb size len then rest else size

-- 2 ^ 63 is 57 doublings of 64.
unfoldable pub scoop_newsize : ℕ → ℕ
unfolding grow
scoop_newsize len = grow 58 64 len

-- `memcpy(buf + at, bytes, length bytes)`
abbrev pub write_at : ℕ → List ℕ → List ℕ → List ℕ
write_at at bytes buf = take at buf ++ (bytes ++ drop (at + length bytes) buf)

-- The first part of `rs_scoop_input`: a larger scoop, or the data moved to its front.
unfoldable pub scoop_make_room : ℕ → Io → Io
scoop_make_room len io =
    if ltb io.scoop_alloc len
    then record io {
      scoop_buf = live io ++ replicate (scoop_newsize len - io.scoop_avail) 0;
      scoop_next = 0;
      scoop_alloc = scoop_newsize len;
    }
    else if ltb io.scoop_alloc (io.scoop_next + len)
    then record io { scoop_buf = write_at 0 (live io) io.scoop_buf; scoop_next = 0 }
    else io

-- `tocopy`: as much as is missing, cut to what the caller's buffer has.
unfoldable pub scoop_tocopy : ℕ → Io → ℕ
scoop_tocopy len io =
    let want = len - io.scoop_avail in
    if ltb (length io.next_in) want then length io.next_in else want

-- The second part: take as much input as is available, up to `len` bytes in the scoop.
unfoldable pub scoop_take : ℕ → Io → Io
unfolding assert_that
scoop_take len io =
    let tocopy = scoop_tocopy len io in
    let io' = assert_that (leb (io.scoop_next + tocopy + io.scoop_avail) io.scoop_alloc) io in
    record io' {
      scoop_buf = write_at (io.scoop_next + io.scoop_avail) (take tocopy io.next_in) io.scoop_buf;
      scoop_avail = io.scoop_avail + tocopy;
      next_in = drop tocopy io.next_in;
    }

unfoldable pub scoop_input : ℕ → Io → Io
scoop_input len io = scoop_take len (scoop_make_room len (assert_that (ltb io.scoop_avail len) io))

unfoldable pub scoop_advance : ℕ → Io → Io
unfolding assert_that
scoop_advance len io =
    if io.scoop_avail == 0
    then record (assert_that (leb len (length io.next_in)) io) { next_in = drop len io.next_in }
    else record (assert_that (leb len io.scoop_avail) io) {
      scoop_avail = io.scoop_avail - len;
      scoop_next = io.scoop_next + len;
    }

-- The end of `rs_scoop_readahead`, after any input was taken in.
unfoldable pub scoop_check : ℕ → Io → RsResult × List ℕ × Io
scoop_check len io =
    if leb len io.scoop_avail
    then (done, take len (drop io.scoop_next io.scoop_buf), io)
    else (if io.eof_in then input_ended else blocked, [], io)

-- The bytes are those that the C function's `*ptr` leads to; on `done` there are `len` of them.
unfoldable pub scoop_readahead : ℕ → Io → RsResult × List ℕ × Io
scoop_readahead len io =
    if (io.scoop_avail == 0) && leb len (length io.next_in)
    then (done, take len io.next_in, io)
    else scoop_check len
        (if ltb io.scoop_avail len && not (length io.next_in == 0) then scoop_input len io else io)

unfoldable pub scoop_read : ℕ → Io → RsResult × List ℕ × Io
scoop_read len io =
    let (r, bytes, io') = scoop_readahead len io in
    if is_done r then (r, bytes, scoop_advance len io') else (r, bytes, io')

-- `*len` is the number of bytes that are returned.
unfoldable pub scoop_read_rest : Io → RsResult × List ℕ × Io
scoop_read_rest io =
    if scoop_avail io == 0
    then (if io.eof_in then input_ended else blocked, [], io)
    else scoop_read (scoop_avail io) io
