-- ===== src/Emit/Commands.antt =====
-- src/emit.c: the bytes that each function puts into the tube.
use librsync.Prelude.{ℕ, ◌+◌, ◌%◌, ◌^◌, ◌≤◌, ◌<◌, ◌≡◌, ◌||◌, refl, sym, ap, ◌∙◌, arith}
use librsync.Prelude.{Bool, true, false, leb, ◌==◌, if◌then◌else◌, sign_extend}
use librsync.Prelude.{List, [], ◌∷◌, ◌++◌, length, length-append, append_assoc, ==→eq}
use mathlib.Core.Path.{ap₂}
use librsync.Io.{Io, assert_that, assert_that-true}
use librsync.Tube.{write_buf_size}
use librsync.Netint.{squirt_byte, squirt_netint, squirt_n4, int_width}
use librsync.Netint.Bytes.{big_endian, length-big_endian}
use librsync.Netint.Squirt.{sign_extend_small, squirt_byte_lem, squirt_netint_lem}
use librsync.Job.{Job}
use librsync.Patch.{delta_magic}
use librsync.Emit.{
  literal_param_len, literal_cmd, copy_cmd, emit_delta_header, emit_literal_cmd, emit_copy_cmd,
  emit_end_cmd,
}

-- The encoding of each command.
unfoldable pub literal_bytes : ℕ → List ℕ
literal_bytes len = (literal_cmd len % 256) ∷ big_endian (literal_param_len len) len

unfoldable pub copy_bytes : ℕ → ℕ → List ℕ
copy_bytes pos len =
    (copy_cmd (int_width pos) (int_width len) % 256)
    ∷ (big_endian (int_width pos) pos ++ big_endian (int_width len) len)

literal_param_len_width :
    (len : ℕ)
    → len < 2 ^ 31
    → (leb (literal_param_len len) 2 || (literal_param_len len == 4)) ≡ true
unfolding literal_param_len int_width
literal_param_len_width len h = ground arith

literal_param_len_le : (len : ℕ) → len < 2 ^ 31 → literal_param_len len ≤ 4
unfolding literal_param_len int_width
literal_param_len_le len h = ground arith

int_width_le : (v : ℕ) → int_width v ≤ 8
unfolding int_width
int_width_le v = ground arith

pos_width :
    (v : ℕ)
    → ((int_width v == 8) || ((int_width v == 4) || ((int_width v == 2) || (int_width v == 1))))
      ≡ true
unfolding int_width
pos_width v = ground arith

len_width :
    (v : ℕ)
    → ((int_width v == 1) || ((int_width v == 2) || ((int_width v == 4) || (int_width v == 8))))
      ≡ true
unfolding int_width
len_width v = ground arith

module _ {F V : Type 0} where
  pub emit_delta_header_lem :
      (j : Job F V)
      → j.io.copy_len ≡ 0
      → length j.io.write_buf + 4 ≤ write_buf_size
      → emit_delta_header j
        ≡ record j { io = record (j.io) { write_buf = j.io.write_buf ++ big_endian 4 delta_magic } }
  unfolding emit_delta_header squirt_n4
  emit_delta_header_lem j idle room =
      ap (λ io. record j { io = io }) (squirt_netint_lem delta_magic 4 j.io (omega arith) idle room)

  pub emit_end_cmd_lem :
      (j : Job F V)
      → j.io.copy_len ≡ 0
      → length j.io.write_buf + 1 ≤ write_buf_size
      → emit_end_cmd j ≡ record j { io = record (j.io) { write_buf = j.io.write_buf ++ (0 ∷ []) } }
  unfolding emit_end_cmd
  emit_end_cmd_lem j idle room = ap (λ io. record j { io = io }) (squirt_byte_lem 0 j.io idle room)

  -- rs_emit_literal_cmd of a length below 2^31, with no copy waiting in the tube and room for 5
  -- command bytes, appends the encoded command to the command bytes and changes no other part of
  -- the stream: its assertions hold.
  pub emit_literal_cmd_lem :
      (len : ℕ) (j : Job F V)
      → len < 2 ^ 31
      → j.io.copy_len ≡ 0
      → length j.io.write_buf + 5 ≤ write_buf_size
      → (emit_literal_cmd len j).io
        ≡ record (j.io) { write_buf = j.io.write_buf ++ literal_bytes len }
  unfolding emit_literal_cmd literal_bytes
  emit_literal_cmd_lem len j small idle room = by_len (literal_param_len len == 0) refl
    where
      n : ℕ
      n = literal_param_len len

      c : ℕ
      c = literal_cmd len % 256

      first :
          squirt_byte c (assert_that (leb n 2 || (n == 4)) j.io)
          ≡ record (j.io) { write_buf = j.io.write_buf ++ (c ∷ []) }
      first =
          ap (squirt_byte c)
            (assert_that-true (leb n 2 || (n == 4)) j.io (literal_param_len_width len small))
          ∙ squirt_byte_lem c j.io idle (omega arith)

      rest :
          squirt_netint (sign_extend len) n (squirt_byte c (assert_that (leb n 2 || (n == 4)) j.io))
          ≡ record (j.io) { write_buf = j.io.write_buf ++ (c ∷ big_endian n len) }
      rest =
          ap₂ (λ v io. squirt_netint v n io) (sign_extend_small len small) first
          ∙ squirt_netint_lem len n (record (j.io) { write_buf = j.io.write_buf ++ (c ∷ []) })
              (omega (arith, literal_param_len_le len small)) idle
              (omega (arith, literal_param_len_le len small, length-append j.io.write_buf (c ∷ [])))
          ∙ ap (λ l. record (j.io) { write_buf = l })
              (append_assoc j.io.write_buf (c ∷ []) (big_endian n len))

      by_len :
          (b : Bool)
          → (n == 0) ≡ b
          → (if b
              then squirt_byte c (assert_that (leb n 2 || (n == 4)) j.io)
              else squirt_netint
                  (sign_extend len)
                  n
                  (squirt_byte c (assert_that (leb n 2 || (n == 4)) j.io)))
            ≡ record (j.io) { write_buf = j.io.write_buf ++ (c ∷ big_endian n len) }
      by_len true e =
          first
          ∙ ap (λ m. record (j.io) { write_buf = j.io.write_buf ++ (c ∷ big_endian m len) })
              (sym (==→eq _ _ e))
      by_len false e = rest

  -- rs_emit_copy_cmd of a position and a length below 2^63, with no copy waiting in the tube and
  -- room for 17 command bytes, appends the encoded command to the command bytes and changes no
  -- other part of the stream: its assertions hold, those of rs_int_len included.
  pub emit_copy_cmd_lem :
      (pos len : ℕ) (j : Job F V)
      → pos < 2 ^ 63
      → len < 2 ^ 63
      → j.io.copy_len ≡ 0
      → length j.io.write_buf + 17 ≤ write_buf_size
      → (emit_copy_cmd pos len j).io
        ≡ record (j.io) { write_buf = j.io.write_buf ++ copy_bytes pos len }
  unfolding emit_copy_cmd copy_bytes
  emit_copy_cmd_lem pos len j pos_small len_small idle room =
      ap (λ io. squirt_netint len m (squirt_netint pos n (squirt_byte c io)))
        (assert_that-true _ _ (len_width len)
          ∙ assert_that-true _ _ (pos_width pos)
          ∙ assert_that-true _ j.io (ground (arith, pos_small, len_small)))
      ∙ ap (λ io. squirt_netint len m (squirt_netint pos n io))
          (squirt_byte_lem c j.io idle (omega arith))
      ∙ ap (squirt_netint len m) (
          squirt_netint_lem pos n io1 (int_width_le pos) idle
            (omega (arith, int_width_le pos, length-append wb (c ∷ []))))
      ∙ squirt_netint_lem len m io2 (int_width_le len) idle (
          omega (
            arith,
            int_width_le pos,
            int_width_le len,
            length-append wb (c ∷ []),
            length-append (wb ++ (c ∷ [])) (big_endian n pos),
            length-big_endian n pos,
          ))
      ∙ ap (λ l. record (j.io) { write_buf = l })
          (append_assoc (wb ++ (c ∷ [])) (big_endian n pos) (big_endian m len)
            ∙ append_assoc wb (c ∷ []) (big_endian n pos ++ big_endian m len))
    where
      n : ℕ
      n = int_width pos

      m : ℕ
      m = int_width len

      c : ℕ
      c = copy_cmd n m % 256

      wb : List ℕ
      wb = j.io.write_buf

      io1 : Io
      io1 = record (j.io) { write_buf = wb ++ (c ∷ []) }

      io2 : Io
      io2 = record (j.io) { write_buf = (wb ++ (c ∷ [])) ++ big_endian n pos }
