-- ===== src/Tests/Buffers.antt =====
-- A stream with two bytes in the scoop, three from the caller, and a copy instruction in the tube.
use librsync.Prelude.{◌≤◌, ◌<◌, ◌≡◌, ◌%◌, ◌^◌, refl, arith, true, false, [], ◌∷◌, ◌++◌, inl, inr}
use librsync.Prelude.{All, IsByte}
use librsync.Result.{done}
use librsync.Io.{Io, new_io}
use librsync.Scoop.{scoop_readahead, scoop_advance, scoop_read, scoop_read_rest}
use librsync.Scoop.Queue.{input, IsValid}
use librsync.Scoop.Readahead.{
  ReadAhead, scoop_readahead-ReadAhead, Advanced, scoop_advance-Advanced,
}
use librsync.Scoop.Read.{ReadAway, scoop_read-ReadAway, ReadRest, scoop_read_rest-ReadRest}
use librsync.Tube.{tube_catchup, tube_write}
use librsync.Tube.Catchup.{Caught, tube_catchup-Caught}
use librsync.Tube.Write.{tube_write_lem}
use librsync.Netint.{netint_bytes, suck_netint, int_len}
use librsync.Netint.IntLen.{IsWidth, int_len_least}
use librsync.Netint.RoundTrip.{suck_netint-squirt}
use librsync.Emit.{emit_literal_cmd, emit_copy_cmd}
use librsync.Emit.Commands.{literal_bytes, copy_bytes, emit_literal_cmd_lem, emit_copy_cmd_lem}
use librsync.Patch.{PatchJob, patch_begin}

abbrev io : Io
io = record {
  next_in = 3 ∷ 4 ∷ 5 ∷ [];
  eof_in = false;
  avail_out = 2;
  written = [];
  scoop_buf = 0 ∷ 1 ∷ 2 ∷ 0 ∷ [];
  scoop_next = 1;
  scoop_alloc = 4;
  scoop_avail = 2;
  write_buf = [];
  copy_len = 4;
  aborted = false;
}

io-IsValid : IsValid io
io-IsValid = record { allocated = refl; inside = omega arith; unharmed = refl }

scoop_readahead-ReadAhead_example : ReadAhead 4 io (scoop_readahead 4 io)
scoop_readahead-ReadAhead_example =
    scoop_readahead-ReadAhead 4 io io-IsValid (omega arith) (omega arith)

scoop_advance-Advanced_example : Advanced 2 io (scoop_advance 2 io)
scoop_advance-Advanced_example = scoop_advance-Advanced 2 io io-IsValid (inr (omega arith))

scoop_read-ReadAway_example : ReadAway 4 io (scoop_read 4 io)
scoop_read-ReadAway_example = scoop_read-ReadAway 4 io io-IsValid (omega arith) (omega arith)

scoop_read_rest-ReadRest_example : ReadRest io (scoop_read_rest io)
scoop_read_rest-ReadRest_example = scoop_read_rest-ReadRest io io-IsValid (omega arith)

-- Two of the four bytes fit.
tube_catchup-Caught_example : Caught io (tube_catchup io).0 (tube_catchup io).1
tube_catchup-Caught_example = tube_catchup-Caught io io-IsValid

abbrev idle_io : Io
idle_io = new_io [] false 0

tube_write_lem_example :
    tube_write (1 ∷ 2 ∷ []) idle_io
    ≡ record idle_io { write_buf = idle_io.write_buf ++ (1 ∷ 2 ∷ []) }
unfolding new_io
tube_write_lem_example = tube_write_lem (1 ∷ 2 ∷ []) idle_io refl (omega arith)

int_len_least_example :
    ((int_len 300).1 ≡ true)
    × IsWidth (int_len 300).0
    × (300 < 256 ^ (int_len 300).0)
    × ((int_len 300).0 ≤ 2)
int_len_least_example = int_len_least 300 2 (omega arith) (inr (inl refl)) (omega arith)

abbrev sent_io : Io
sent_io = new_io (3 ∷ 232 ∷ 9 ∷ []) false 0

sent_io-IsValid : IsValid sent_io
unfolding new_io
sent_io-IsValid = record { allocated = refl; inside = omega arith; unharmed = refl }

suck_netint-squirt_example :
    let (r, v, io') = suck_netint 2 sent_io in
    (r ≡ done) × (v ≡ 1000 % 256 ^ 2) × (input io' ≡ 9 ∷ []) × IsValid io'
unfolding new_io
suck_netint-squirt_example =
    suck_netint-squirt 2 1000 (9 ∷ []) sent_io sent_io-IsValid (omega arith) (omega arith) nine
      sent_front
  where
    nine : All IsByte (9 ∷ [])
    nine = ground arith

    sent_front : input sent_io ≡ netint_bytes 2 1000 [] ++ (9 ∷ [])
    sent_front = unfold netint_bytes in refl

abbrev job : PatchJob
job = patch_begin idle_io

emit_literal_cmd_lem_example :
    (emit_literal_cmd 300 job).io
    ≡ record (job.io) { write_buf = job.io.write_buf ++ literal_bytes 300 }
unfolding patch_begin new_io
emit_literal_cmd_lem_example = emit_literal_cmd_lem 300 job (omega arith) refl (omega arith)

emit_copy_cmd_lem_example :
    (emit_copy_cmd 2 300 job).io
    ≡ record (job.io) { write_buf = job.io.write_buf ++ copy_bytes 2 300 }
unfolding patch_begin new_io
emit_copy_cmd_lem_example =
    emit_copy_cmd_lem 2 300 job (omega arith) (omega arith) refl (omega arith)
