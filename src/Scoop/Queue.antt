-- ===== src/Scoop/Queue.antt =====
-- The abstract view of a job's input: one queue of bytes, the scoop's before the caller's.
use librsync.Prelude.{ℕ, ◌+◌, ◌≤◌, ◌≡◌, List, ◌++◌, length, Bool, false}
use librsync.Io.{Io}
use librsync.Scoop.{live}

-- What the job has not consumed yet.
abbrev pub input : Io → List ℕ
input io = live io ++ io.next_in

-- `scoop_next` and `scoop_avail` stay inside the allocation, and no assertion has failed.
pub record IsValid (io : Io) : Type 0 where
  pub allocated : length io.scoop_buf ≡ io.scoop_alloc
  pub inside : io.scoop_next + io.scoop_avail ≤ io.scoop_alloc
  pub unharmed : io.aborted ≡ false

-- The fields that the scoop's operations leave alone.
abbrev pub outputs : Io → Bool × ℕ × List ℕ × List ℕ × ℕ
outputs io = (io.eof_in, io.avail_out, io.written, io.write_buf, io.copy_len)
