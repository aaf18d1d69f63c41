-- ===== src/Emit.antt =====
-- src/emit.c: the commands of a delta, written into the tube.
pub mod Commands
pub mod Decode
pub mod Delta
use librsync.Prelude.{ℕ, ◌+◌, ◌%◌, ◌||◌, ◌&&◌, leb, ◌==◌, if◌then◌else◌, is_neg32, sign_extend}
use librsync.Io.{Io, assert_that}
use librsync.Netint.{squirt_byte, squirt_netint, squirt_n4, int_width, int_len}
use librsync.Prototab.{op_literal_n1, op_copy_n1_n1}
use librsync.Stats.{Stats}
use librsync.Patch.{delta_magic}
use librsync.Job.{Job}

-- `len <= 64 ? 0 : rs_int_len(len)` of an int.
unfoldable pub literal_param_len : ℕ → ℕ
literal_param_len len = if is_neg32 len || leb len 64 then 0 else int_width len

-- `RS_OP_LITERAL_N1`, `_N2` and `_N4` are 0x41, 0x42 and 0x43.
unfoldable pub literal_cmd : ℕ → ℕ
literal_cmd len =
    let param_len = literal_param_len len in
    if param_len == 0
    then len
    else if param_len == 1
    then op_literal_n1
    else if param_len == 2
    then op_literal_n1 + 1
    else op_literal_n1 + 2

-- `RS_OP_COPY_N1_N1`, `_N2_N1`, `_N4_N1` and `_N8_N1` are 0x45, 0x49, 0x4d and 0x51.
unfoldable pub copy_cmd : ℕ → ℕ → ℕ
copy_cmd where_bytes len_bytes =
    (if where_bytes == 8
      then op_copy_n1_n1 + 12
      else if where_bytes == 4
      then op_copy_n1_n1 + 8
      else if where_bytes == 2
      then op_copy_n1_n1 + 4
      else op_copy_n1_n1)
    + (if len_bytes == 1 then 0 else if len_bytes == 2 then 1 else if len_bytes == 4 then 2 else 3)

module _ {F V : Type 0} where
  unfoldable pub emit_delta_header : Job F V → Job F V
  emit_delta_header j = record j { io = squirt_n4 delta_magic j.io }

  unfoldable pub emit_literal_cmd : ℕ → Job F V → Job F V
  emit_literal_cmd len j =
      let param_len = literal_param_len len in
      let io0 = assert_that (leb param_len 2 || (param_len == 4)) j.io in
      let io1 = squirt_byte (literal_cmd len % 256) io0 in
      record j {
        io = if param_len == 0 then io1 else squirt_netint (sign_extend len) param_len io1;
        stats = record (j.stats) {
          lit_cmds = j.stats.lit_cmds + 1;
          lit_bytes = j.stats.lit_bytes + len;
          lit_cmdbytes = j.stats.lit_cmdbytes + (1 + param_len);
        };
      }

  unfoldable pub emit_copy_cmd : ℕ → ℕ → Job F V → Job F V
  unfolding int_len
  emit_copy_cmd pos len j =
      let (where_bytes, pos_ok) = int_len pos in
      let (len_bytes, len_ok) = int_len len in
      let io0 =
        assert_that
          ((len_bytes == 1) || ((len_bytes == 2) || ((len_bytes == 4) || (len_bytes == 8))))
          (assert_that
            ((where_bytes == 8)
              || ((where_bytes == 4) || ((where_bytes == 2) || (where_bytes == 1))))
            (assert_that (pos_ok && len_ok) j.io)) in
      let io1 = squirt_byte (copy_cmd where_bytes len_bytes % 256) io0 in
      record j {
        io = squirt_netint len len_bytes (squirt_netint pos where_bytes io1);
        stats = record (j.stats) {
          copy_cmds = j.stats.copy_cmds + 1;
          copy_bytes = j.stats.copy_bytes + len;
          copy_cmdbytes = j.stats.copy_cmdbytes + (1 + where_bytes + len_bytes);
        };
      }

  -- `RS_OP_END` is 0.
  unfoldable pub emit_end_cmd : Job F V → Job F V
  emit_end_cmd j = record j { io = squirt_byte 0 j.io }
