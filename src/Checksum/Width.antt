-- ===== src/Checksum/Width.antt =====
-- src/checksum.c, src/rollsum.h, src/rabinkarp.h, src/mdfour.c: how wide the sums are.
use librsync.Prelude.{
  ℕ, zero, suc, ◌+◌, ◌*◌, ◌/◌, ◌%◌, ◌^◌, ◌<◌, ◌≡◌, refl, ap, ◌∙◌, arith, u32, leb, Bool-cases, inl,
  inr, IsByte, All,
}
use librsync.Prelude.{List, [], ◌∷◌, ◌++◌, length, drop, bit_or}
use librsync.Prelude.Bits.{bit_or-shift, bit_xor-lt}
use librsync.Checksum.{xor_shift, mix32}
use native.Mathlib.Nat.{div-le_self}
use librsync.Netint.Bytes.{All-append}
use librsync.Rollsum.{Rollsum, rollsum_digest}
use librsync.RabinKarp.{
  rabinkarp_init, rabinkarp_update, rabinkarp_digest, hash_bytes, hash_loops, par2x8, par2x4,
  par2x2, par2x1,
}
use librsync.Mdfour.{
  Regs, mdfour, mdfour_result, mdfour_tail, mdfour_update, mdfour_begin, digest, copy4,
}
use librsync.Checksum.{WeaksumKind, rs_rollsum, rs_rabinkarp, calc_weak_sum}

rollsum_digest-lt : (sum : Rollsum) → rollsum_digest sum < u32
unfolding rollsum_digest
rollsum_digest-lt sum = omega (arith, e)
  where
    e :
        bit_or (sum.s2 * 2 ^ 16 % 2 ^ 32) (sum.s1 % 2 ^ 16)
        ≡ sum.s2 % 2 ^ 16 * 2 ^ 16 + sum.s1 % 2 ^ 16
    e =
        ap (λ t. bit_or t (sum.s1 % 2 ^ 16)) high
        ∙ bit_or-shift 16 (sum.s2 % 2 ^ 16) (sum.s1 % 2 ^ 16) (omega arith)
      where
        high : sum.s2 * 2 ^ 16 % 2 ^ 32 ≡ sum.s2 % 2 ^ 16 * 2 ^ 16
        high = omega arith

hash_bytes-lt : (buf : List ℕ) (hash : ℕ) → hash < u32 → hash_bytes buf hash < u32
unfolding hash_bytes
hash_bytes-lt [] hash h = h
hash_bytes-lt (b ∷ buf) hash h = hash_bytes-lt buf _ (omega arith)

hash_loops-lt : (fuel : ℕ) (buf : List ℕ) (hash : ℕ) → hash < u32 → hash_loops fuel buf hash < u32
unfolding hash_loops par2x8 par2x4 par2x2 par2x1
hash_loops-lt zero buf hash h = hash_bytes-lt buf hash h
hash_loops-lt (suc fuel) buf hash h = elim (Bool-cases (leb 16 (length buf))) [
  | inl more ↦ rw more (hash_loops-lt fuel (drop 16 buf) _ (omega arith))
  | inr few ↦ rw few (hash_bytes-lt buf hash h)
]

-- A weak sum is an unsigned int of 32 bits.
pub calc_weak_sum-lt : (kind : WeaksumKind) (buf : List ℕ) → calc_weak_sum kind buf < u32
unfolding calc_weak_sum rabinkarp_digest rabinkarp_update rabinkarp_init
calc_weak_sum-lt rs_rollsum buf = rollsum_digest-lt _
calc_weak_sum-lt rs_rabinkarp buf = hash_loops-lt (length buf) buf _ (omega arith)

copy4-IsByte : (x : ℕ) → All IsByte (copy4 x)
unfolding copy4
copy4-IsByte x = (omega arith, (omega arith, (omega arith, (omega arith, tt))))

digest_width :
    (r : Regs)
    → (length (copy4 r.a ++ (copy4 r.b ++ (copy4 r.c ++ copy4 r.d))) ≡ 16)
      × All IsByte (copy4 r.a ++ (copy4 r.b ++ (copy4 r.c ++ copy4 r.d)))
unfolding copy4
digest_width r = (
  refl,
  All-append IsByte (copy4 r.a) (copy4 r.b ++ (copy4 r.c ++ copy4 r.d)) (copy4-IsByte r.a) (
      All-append IsByte (copy4 r.b) (copy4 r.c ++ copy4 r.d) (copy4-IsByte r.b)
        (All-append IsByte (copy4 r.c) (copy4 r.d) (copy4-IsByte r.c) (copy4-IsByte r.d))),
)

-- An MD4 digest is 16 bytes.
pub mdfour_width : (buf : List ℕ) → (length (mdfour buf) ≡ 16) × All IsByte (mdfour buf)
unfolding mdfour mdfour_result digest
mdfour_width buf = digest_width (mdfour_tail (mdfour_update buf mdfour_begin)).regs

xor_shift-lt : (k h : ℕ) → h < u32 → xor_shift k h < u32
xor_shift-lt k h small =
    bit_xor-lt 32 h (h / 2 ^ k) small (omega (arith, small, div-le_self h (2 ^ k)))

-- The mixed sums have 32 bits too.
pub mix32-lt : (h : ℕ) → h < u32 → mix32 h < u32
unfolding mix32
mix32-lt h small = xor_shift-lt 16 _ (omega arith)
