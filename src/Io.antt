-- ===== src/Io.antt =====
-- The input and output side of a job: `rs_buffers_t` (src/librsync.h) and the scoop and tube fields
-- of `struct rs_job` (src/job.h).
use librsync.Prelude.{ℕ, Bool, true, false, List, [], if◌then◌else◌, ◌≡◌, refl}

-- `next_in` holds the `avail_in` bytes at the C pointer. `written` is ghost state: the bytes stored
-- through `next_out` since the job began, of which the caller has the front part already.
-- `scoop_buf` is the allocation of `scoop_alloc` bytes, and `scoop_next` an offset into it.
-- `write_buf` holds the first `write_len` bytes of the 36-byte array.
-- `aborted` is set by an `assert` that fails; C would stop there.
pub record Io : Type 0 where
  pub next_in : List ℕ
  pub eof_in : Bool
  pub avail_out : ℕ
  pub written : List ℕ
  pub scoop_buf : List ℕ
  pub scoop_next : ℕ
  pub scoop_alloc : ℕ
  pub scoop_avail : ℕ
  pub write_buf : List ℕ
  pub copy_len : ℕ
  pub aborted : Bool

-- `assert(test)`.
unfoldable pub assert_that : Bool → Io → Io
assert_that test io = record io { aborted = if test then io.aborted else true }

-- `rs_job_new` allocates zeroed memory; the stream is what the caller passes in.
unfoldable pub new_io : List ℕ → Bool → ℕ → Io
new_io bytes eof room = record {
  next_in = bytes;
  eof_in = eof;
  avail_out = room;
  written = [];
  scoop_buf = [];
  scoop_next = 0;
  scoop_alloc = 0;
  scoop_avail = 0;
  write_buf = [];
  copy_len = 0;
  aborted = false;
}

pub assert_that-true : (test : Bool) (io : Io) → test ≡ true → assert_that test io ≡ io
unfolding assert_that
assert_that-true true io h = refl
assert_that-true false io h = cc
