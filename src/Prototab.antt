-- ===== src/Prototab.antt =====
-- src/prototab.h and src/prototab.c: what each command byte of a delta stands for.
pub mod Shape
use librsync.Prelude.{ℕ, ◌+◌, ◌-◌, ◌*◌, ◌/◌, ◌%◌, ◌^◌, leb, ◌==◌, if◌then◌else◌}
use librsync.Command.{OpKind, end, literal, copy, reserved}

-- `rs_prototab_ent`
pub record Entry : Type 0 where
  pub kind : OpKind
  pub immediate : ℕ
  pub len_1 : ℕ
  pub len_2 : ℕ

-- The widths 1, 2, 4 and 8, in the table's order.
abbrev pub width : ℕ → ℕ
width i = if i == 0 then 1 else if i == 1 then 2 else if i == 2 then 4 else 8

-- `RS_OP_LITERAL_N1` and `RS_OP_COPY_N1_N1`
abbrev pub op_literal_n1 : ℕ
op_literal_n1 = 0x41

abbrev pub op_copy_n1_n1 : ℕ
op_copy_n1_n1 = 0x45

-- The 256 rows of `rs_prototab` by their runs: END, the literals of 1 to 64 bytes, the literals with
-- a length of 1, 2, 4 or 8 bytes, the copies with both parameters in each of these widths, and the
-- reserved rows.
unfoldable pub prototab : ℕ → Entry
prototab op =
    if op == 0
    then record { kind = end; immediate = 0; len_1 = 0; len_2 = 0 }
    else if leb op 0x40
    then record { kind = literal; immediate = op; len_1 = 0; len_2 = 0 }
    else if leb op 0x44
    then record { kind = literal; immediate = 0; len_1 = width (op - op_literal_n1); len_2 = 0 }
    else if leb op 0x54
    then record {
      kind = copy;
      immediate = 0;
      len_1 = width ((op - op_copy_n1_n1) / 4);
      len_2 = width ((op - op_copy_n1_n1) % 4);
    }
    else record { kind = reserved; immediate = op; len_1 = 0; len_2 = 0 }
