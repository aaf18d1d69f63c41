-- ===== src/Tube/Write.antt =====
-- Queueing into the tube, where there is room for it.
use librsync.Prelude.{
  ℕ, ◌+◌, ◌-◌, ◌≤◌, ◌≡◌, arith, List, [], ◌++◌, length, le→leb, ==_iff, append-nil,
}
use librsync.Prelude.Slices.{take-all, drop-all, nil_of_length}
use librsync.Result.{done}
use librsync.Io.{Io, assert_that}
use librsync.Tube.{
  tube_copy, tube_write, write_buf_size, tube_catchup, tube_catchup_write, tube_finish_copy,
}

-- `rs_tube_write` appends to the waiting command bytes, and its assertions hold.
pub tube_write_lem :
    (bytes : List ℕ) (io : Io)
    → io.copy_len ≡ 0
    → length io.write_buf + length bytes ≤ write_buf_size
    → tube_write bytes io ≡ record io { write_buf = io.write_buf ++ bytes }
unfolding tube_write assert_that
tube_write_lem bytes io idle room =
    simp (
      (==_iff io.copy_len 0).1 idle,
      le→leb (length bytes) (36 - length io.write_buf) (omega arith),
    )

-- `rs_tube_copy` takes a copy instruction where none waits.
pub tube_copy_lem :
    (n : ℕ) (io : Io) → io.copy_len ≡ 0 → tube_copy n io ≡ record io { copy_len = n }
unfolding tube_copy assert_that
tube_copy_lem n io idle = simp ((==_iff io.copy_len 0).1 idle)

-- The command bytes sent, with no copy behind them.
abbrev pub flushed : Io → Io
flushed io = record io {
  written = io.written ++ io.write_buf;
  avail_out = io.avail_out - length io.write_buf;
  write_buf = [];
}

pub nothing_flushed : (io : Io) → io.write_buf ≡ [] → io ≡ flushed io
nothing_flushed io e = ground (arith, append-nil io.written)

-- `rs_tube_catchup` with room for all command bytes, and no copy waiting.
pub tube_catchup_flush :
    (io : Io)
    → io.copy_len ≡ 0
    → length io.write_buf ≤ io.avail_out
    → tube_catchup io ≡ (done, flushed io)
unfolding tube_catchup tube_catchup_write tube_finish_copy
tube_catchup_flush io idle room = ground (
  arith,
  append-nil io.written,
  take-all (length io.write_buf) io.write_buf,
  drop-all (length io.write_buf) io.write_buf,
  nil_of_length io.write_buf,
)
