-- ===== src/Result.antt =====
-- src/librsync.h: `rs_result`, the return codes of all operations, and the comparisons with them.
use mathlib.Core.Path.{◌≡◌}
use native.Mathlib.Omega.{arith}
use mathlib.Core.Bool.{Bool, true, false}

pub data RsResult : Type 0 where
  done blocked running test_skipped io_error syntax_error mem_error : RsResult
  input_ended bad_magic unimplemented corrupt internal_error param_error : RsResult

-- `result == RS_DONE`, and so on.
abbrev pub is_done : RsResult → Bool
is_done r = elim r [ done ↦ true | _ ↦ false ]

abbrev pub is_blocked : RsResult → Bool
is_blocked r = elim r [ blocked ↦ true | _ ↦ false ]

abbrev pub is_running : RsResult → Bool
is_running r = elim r [ running ↦ true | _ ↦ false ]

abbrev pub is_input_ended : RsResult → Bool
is_input_ended r = elim r [ input_ended ↦ true | _ ↦ false ]

pub is_done→eq : (r : RsResult) → is_done r ≡ true → r ≡ done
is_done→eq r h = ground arith
