-- ===== src/Netint/Squirt.antt =====
-- src/netint.c: the bytes that the squirt functions put into the tube.
use librsync.Prelude.{
  ℕ, ◌+◌, ◌-◌, ◌^◌, ◌≤◌, ◌<◌, ◌≡◌, refl, ap, ◌∙◌, arith, leb, le→leb, Bool-cases, inl, inr,
  is_neg32, sign_extend,
}
use librsync.Prelude.{[], ◌∷◌, ◌++◌, length}
use librsync.Io.{Io, assert_that-true}
use librsync.Tube.{write_buf_size, tube_write}
use librsync.Tube.Write.{tube_write_lem}
use librsync.Netint.{squirt_byte, squirt_netint, squirt_n4, netint_bytes}
use librsync.Netint.Bytes.{big_endian, big_endian-add, length-big_endian, netint_bytes-big_endian}

pub squirt_byte_lem :
    (b : ℕ) (io : Io)
    → io.copy_len ≡ 0
    → length io.write_buf + 1 ≤ write_buf_size
    → squirt_byte b io ≡ record io { write_buf = io.write_buf ++ (b ∷ []) }
unfolding squirt_byte
squirt_byte_lem b io idle room = tube_write_lem (b ∷ []) io idle (omega arith)

pub squirt_netint_lem :
    (val len : ℕ) (io : Io)
    → len ≤ 8
    → io.copy_len ≡ 0
    → length io.write_buf + len ≤ write_buf_size
    → squirt_netint val len io ≡ record io { write_buf = io.write_buf ++ big_endian len val }
unfolding squirt_netint
squirt_netint_lem val len io small idle room =
    ap (tube_write (netint_bytes len val [])) (assert_that-true (leb len 8) io (le→leb len 8 small))
    ∙ ap (λ l. tube_write l io) (netint_bytes-big_endian len val small)
    ∙ tube_write_lem (big_endian len val) io idle (omega (arith, length-big_endian len val))

pub sign_extend_small : (v : ℕ) → v < 2 ^ 31 → sign_extend v ≡ v
sign_extend_small v h = ground arith

-- The sign of an int does not show in its four bytes.
sign_extend_bytes : (val : ℕ) → big_endian 4 (sign_extend val) ≡ big_endian 4 val
sign_extend_bytes val = elim (Bool-cases (is_neg32 val)) [
  | inr positive ↦ rw positive refl
  | inl negative ↦ rw negative (big_endian-add 4 4 val (2 ^ 32 - 1) (omega arith))
]

pub squirt_n4_lem :
    (val : ℕ) (io : Io)
    → io.copy_len ≡ 0
    → length io.write_buf + 4 ≤ write_buf_size
    → squirt_n4 val io ≡ record io { write_buf = io.write_buf ++ big_endian 4 val }
unfolding squirt_n4
squirt_n4_lem val io idle room =
    squirt_netint_lem (sign_extend val) 4 io (omega arith) idle room
    ∙ ap (λ l. record io { write_buf = io.write_buf ++ l }) (sign_extend_bytes val)
