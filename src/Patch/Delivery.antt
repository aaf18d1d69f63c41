-- ===== src/Patch/Delivery.antt =====
-- A caller of `rs_job_work` (src/job.c) that hands over a delta in pieces, with room for each call.
use librsync.Prelude.{ℕ, suc, ◌+◌, ◌≡◌}
use librsync.Prelude.{Bool, true, false, if◌then◌else◌}
use librsync.Prelude.{List, [], ◌∷◌, ◌++◌, All, IsByte}
use librsync.Prelude.{Option, none, some}
use librsync.Result.{RsResult, blocked, is_blocked}
use librsync.Job.{job_work}
use librsync.Patch.{PatchJob, CopyCb, patch_call}
use librsync.Patch.Spec.{Outcome}
use librsync.Patch.Meaning.{work_left}

-- What the caller adds to its buffers before a call.
pub record Piece : Type 0 where
  pub bytes : List ℕ
  pub last : Bool
  pub room : ℕ

unfoldable pub hand_over : Piece → PatchJob → PatchJob
hand_over p j = record j {
  io = record (j.io) {
    next_in = j.io.next_in ++ p.bytes;
    eof_in = p.last;
    avail_out = j.io.avail_out + p.room;
  };
}

-- The calls, until one is not blocked. The fuel is one round more than can be taken.
unfoldable pub calls : CopyCb → List Piece → PatchJob → Option (RsResult × PatchJob)
calls copy_cb [] j = some (blocked, j)
calls copy_cb (p ∷ ps) j =
    elim (job_work (patch_call copy_cb) (suc (work_left (hand_over p j))) (hand_over p j)) [
      | none ↦ none
      | some (r, j') ↦ if is_blocked r then calls copy_cb ps j' else some (r, j')
    ]

-- The whole delta and the whole room.
unfoldable pub bytes_of : List Piece → List ℕ
bytes_of [] = []
bytes_of (p ∷ ps) = p.bytes ++ bytes_of ps

unfoldable pub room_of : List Piece → ℕ
room_of [] = 0
room_of (p ∷ ps) = p.room + room_of ps

-- All numbers are bytes, and `eof_in` is set with the last of them, or later.
unfoldable pub IsDelivery : List Piece → Type 0
IsDelivery [] = Unit {0}
IsDelivery (p ∷ ps) = All IsByte p.bytes × (p.last ≡ true → bytes_of ps ≡ []) × IsDelivery ps

-- Whether the last call has `eof_in` set.
unfoldable pub ends : List Piece → Bool
ends [] = false
ends (p ∷ []) = p.last
ends (p ∷ q ∷ ps) = ends (q ∷ ps)

-- What the caller sees in the end.
unfoldable pub outcome_of : Option (RsResult × PatchJob) → Option Outcome
outcome_of none = none
outcome_of (some (r, j)) = some (j.io.written, r)
