-- ===== src/Tests/Patching.antt =====
-- A small delta against a basis of six bytes, handed over in pieces.
use librsync.Prelude.{ℕ, suc, ◌<◌, ◌≡◌, refl, arith, true, false, List, [], ◌∷◌, length, some}
use librsync.Result.{done, bad_magic}
use librsync.Io.{new_io}
use librsync.Job.{job_round, job_work}
use librsync.Prototab.{prototab}
use librsync.Patch.Copying.{ReadsBasis}
use librsync.FileUtil.{file_copy_cb, file_copy_cb-ReadsBasis}
use librsync.Patch.{PatchJob, patch_call, patch_begin}
use librsync.Patch.Spec.{
  commands_spec, commands_on_fuel, entry_spec, patch_spec, run_spec, param1_spec, param2_spec,
  literal_spec, copy_spec, commands_spec-cons,
}
use librsync.Patch.Meaning.{work_left}
use librsync.Patch.Call.{RoundOk}
use librsync.Patch.Round.{job_round-RoundOk}
use librsync.Patch.Work.{Works, job_work-Works}
use librsync.Patch.Delivery.{Piece, calls, bytes_of, room_of, IsDelivery, ends, outcome_of}
use librsync.Patch.Whole.{calls-patch_spec, begin-valid}
use librsync.Emit.Delta.{
  DeltaCommand, new_bytes, old_bytes, encode_delta, AllEncodable, Encodable, meanings,
  patch_spec-encode_delta,
}

abbrev basis : List ℕ
basis = 10 ∷ 11 ∷ 12 ∷ 13 ∷ 14 ∷ 15 ∷ []

-- The magic number, a literal of two bytes, a copy of three bytes from offset 2, and the end.
abbrev delta : List ℕ
delta = 0x72 ∷ 0x73 ∷ 2 ∷ 0x36 ∷ 2 ∷ 7 ∷ 8 ∷ 0x45 ∷ 2 ∷ 3 ∷ 0 ∷ []

-- The same bytes, cut inside the magic number and inside the literal; the last piece is empty.
abbrev pieces : List Piece
pieces =
    (record { bytes = 0x72 ∷ 0x73 ∷ []; last = false; room = 0 })
    ∷ (record { bytes = 2 ∷ 0x36 ∷ 2 ∷ 7 ∷ []; last = false; room = 1 })
    ∷ (record { bytes = 8 ∷ 0x45 ∷ 2 ∷ 3 ∷ 0 ∷ []; last = false; room = 2 })
    ∷ (record { bytes = []; last = true; room = 3 })
    ∷ []

patch_spec-delta : patch_spec basis delta ≡ (7 ∷ 8 ∷ 12 ∷ 13 ∷ 14 ∷ [], done)
unfolding patch_spec commands_spec commands_on_fuel entry_spec run_spec param1_spec param2_spec
    literal_spec copy_spec prototab
patch_spec-delta = refl

patch_spec_magic : patch_spec basis (0 ∷ 0 ∷ 0 ∷ 0 ∷ []) ≡ ([], bad_magic)
unfolding patch_spec
patch_spec_magic = refl

pieces-IsDelivery : IsDelivery pieces
unfolding IsDelivery bytes_of
pieces-IsDelivery = ground arith

pieces_room : length (patch_spec basis (bytes_of pieces)).0 < room_of pieces
unfolding bytes_of room_of
pieces_room = rw patch_spec-delta (omega arith)

pieces_end : ends pieces ≡ true
unfolding ends
pieces_end = refl

calls-patch_spec_example :
    outcome_of (calls (file_copy_cb basis) pieces (patch_begin (new_io [] false 0)))
    ≡ some (patch_spec basis (bytes_of pieces))
calls-patch_spec_example =
    calls-patch_spec basis (file_copy_cb basis) pieces (file_copy_cb-ReadsBasis basis)
      pieces-IsDelivery pieces_end pieces_room

abbrev job : PatchJob
job = patch_begin (new_io [] false 0)

job_round-RoundOk_example : RoundOk basis job (job_round (patch_call (file_copy_cb basis)) job)
job_round-RoundOk_example =
    job_round-RoundOk basis (file_copy_cb basis) job (file_copy_cb-ReadsBasis basis)
      (begin-valid basis)

job_work-Works_example :
    Works basis job (job_work (patch_call (file_copy_cb basis)) (suc (work_left job)) job)
job_work-Works_example =
    job_work-Works basis (file_copy_cb basis) (suc (work_left job)) job
      (file_copy_cb-ReadsBasis basis) (begin-valid basis) (omega arith)

abbrev commands : List DeltaCommand
commands = new_bytes (7 ∷ 8 ∷ []) ∷ old_bytes 2 3 ∷ []

commands-AllEncodable : AllEncodable basis commands
unfolding AllEncodable Encodable
commands-AllEncodable = ground arith

patch_spec-encode_delta_example :
    patch_spec basis (encode_delta commands) ≡ (meanings basis commands, done)
patch_spec-encode_delta_example = patch_spec-encode_delta basis commands commands-AllEncodable

commands_spec-cons_example :
    commands_spec basis (2 ∷ 7 ∷ 8 ∷ [])
    ≡ entry_spec basis (commands_spec basis) (prototab 2) (7 ∷ 8 ∷ [])
commands_spec-cons_example = commands_spec-cons basis 2 (7 ∷ 8 ∷ [])

file_copy_cb-ReadsBasis_example : ReadsBasis basis (file_copy_cb basis)
file_copy_cb-ReadsBasis_example = file_copy_cb-ReadsBasis basis
