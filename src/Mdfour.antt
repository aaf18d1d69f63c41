-- ===== src/Mdfour.antt =====
-- src/mdfour.c and src/mdfour.h: the MD4 digest, on a machine with 64-bit integers. An `unsigned int`
-- is a number below 2 ^ 32. The copies to aligned or byte-swapped words are one reading of 16
-- little-endian words.
pub mod Absorb
pub mod Update
pub mod Digest
use librsync.Prelude.{
  ℕ, zero, suc, ◌+◌, ◌-◌, ◌*◌, ◌/◌, ◌%◌, ◌^◌, u32, u64, ltb, leb, ◌==◌, if◌then◌else◌, bit_and,
  bit_or, bit_xor,
}
use librsync.Prelude.{List, [], ◌∷◌, ◌++◌, length, get_or, take, drop, replicate}

-- The registers `A` to `D` of `rs_mdfour_t`.
pub record Regs : Type 0 where
  pub a : ℕ
  pub b : ℕ
  pub c : ℕ
  pub d : ℕ

-- `rs_mdfour_t`; `tail` is an array of 64 bytes, of which `tail_len` wait for a block.
pub record Mdfour : Type 0 where
  pub regs : Regs
  pub total : ℕ
  pub tail_len : ℕ
  pub tail : List ℕ

-- The register that a step writes.
pub data Reg : Type 0 where
  ra rb rc rd : Reg

-- `F`, `G`, `H` and `lshift`
unfoldable pub select : ℕ → ℕ → ℕ → ℕ
select x y z = bit_or (bit_and x y) (bit_and (u32 - 1 - x) z)

unfoldable pub majority : ℕ → ℕ → ℕ → ℕ
majority x y z = bit_or (bit_or (bit_and x y) (bit_and x z)) (bit_and y z)

unfoldable pub parity : ℕ → ℕ → ℕ → ℕ
parity x y z = bit_xor (bit_xor x y) z

unfoldable pub lshift : ℕ → ℕ → ℕ
lshift x s = bit_or (x * 2 ^ s % u32) (x / 2 ^ (32 - s))

-- `a = lshift(a + F(b,c,d) + X[k] + constant, s)`
unfoldable pub mixed : (ℕ → ℕ → ℕ → ℕ) → ℕ → ℕ → ℕ → ℕ → ℕ → ℕ → ℕ → ℕ
unfolding lshift
mixed f constant a b c d x s = lshift ((a + f b c d + x + constant) % u32) s

-- `ROUND1` to `ROUND3` with the registers in the order that begins with the one written.
unfoldable pub step : (ℕ → ℕ → ℕ → ℕ) → ℕ → List ℕ → Reg × ℕ × ℕ → Regs → Regs
unfolding mixed
step f constant x (ra, k, s) r = record r { a = mixed f constant r.a r.b r.c r.d (get_or x k 0) s }
step f constant x (rd, k, s) r = record r { d = mixed f constant r.d r.a r.b r.c (get_or x k 0) s }
step f constant x (rc, k, s) r = record r { c = mixed f constant r.c r.d r.a r.b (get_or x k 0) s }
step f constant x (rb, k, s) r = record r { b = mixed f constant r.b r.c r.d r.a (get_or x k 0) s }

unfoldable pub steps : (ℕ → ℕ → ℕ → ℕ) → ℕ → List ℕ → List (Reg × ℕ × ℕ) → Regs → Regs
unfolding step
steps f constant x [] r = r
steps f constant x (i ∷ is) r = steps f constant x is (step f constant x i r)

-- The calls of `ROUND1`: the register that a call writes, the word and the shift.
abbrev pub steps1 : List (Reg × ℕ × ℕ)
steps1 =
    (ra, 0, 3)
    ∷ (rd, 1, 7)
    ∷ (rc, 2, 11)
    ∷ (rb, 3, 19)
    ∷ (ra, 4, 3)
    ∷ (rd, 5, 7)
    ∷ (rc, 6, 11)
    ∷ (rb, 7, 19)
    ∷ (ra, 8, 3)
    ∷ (rd, 9, 7)
    ∷ (rc, 10, 11)
    ∷ (rb, 11, 19)
    ∷ (ra, 12, 3)
    ∷ (rd, 13, 7)
    ∷ (rc, 14, 11)
    ∷ (rb, 15, 19)
    ∷ []

-- The calls of `ROUND2`: the register that a call writes, the word and the shift.
abbrev pub steps2 : List (Reg × ℕ × ℕ)
steps2 =
    (ra, 0, 3)
    ∷ (rd, 4, 5)
    ∷ (rc, 8, 9)
    ∷ (rb, 12, 13)
    ∷ (ra, 1, 3)
    ∷ (rd, 5, 5)
    ∷ (rc, 9, 9)
    ∷ (rb, 13, 13)
    ∷ (ra, 2, 3)
    ∷ (rd, 6, 5)
    ∷ (rc, 10, 9)
    ∷ (rb, 14, 13)
    ∷ (ra, 3, 3)
    ∷ (rd, 7, 5)
    ∷ (rc, 11, 9)
    ∷ (rb, 15, 13)
    ∷ []

-- The calls of `ROUND3`: the register that a call writes, the word and the shift.
abbrev pub steps3 : List (Reg × ℕ × ℕ)
steps3 =
    (ra, 0, 3)
    ∷ (rd, 8, 9)
    ∷ (rc, 4, 11)
    ∷ (rb, 12, 15)
    ∷ (ra, 2, 3)
    ∷ (rd, 10, 9)
    ∷ (rc, 6, 11)
    ∷ (rb, 14, 15)
    ∷ (ra, 1, 3)
    ∷ (rd, 9, 9)
    ∷ (rc, 5, 11)
    ∷ (rb, 13, 15)
    ∷ (ra, 3, 3)
    ∷ (rd, 11, 9)
    ∷ (rc, 7, 11)
    ∷ (rb, 15, 15)
    ∷ []

-- `rs_mdfour64`
unfoldable pub mdfour64 : List ℕ → Regs → Regs
unfolding steps step mixed lshift select majority parity
mdfour64 x m =
    let r1 = steps select 0 x steps1 m in
    let r2 = steps majority 0x5A827999 x steps2 r1 in
    let r = steps parity 0x6ED9EBA1 x steps3 r2 in
    record {
      a = (r.a + m.a) % u32;
      b = (r.b + m.b) % u32;
      c = (r.c + m.c) % u32;
      d = (r.d + m.d) % u32;
    }

unfoldable pub copy4 : ℕ → List ℕ
copy4 x = (x % 256) ∷ (x / 2 ^ 8 % 256) ∷ (x / 2 ^ 16 % 256) ∷ (x / 2 ^ 24 % 256) ∷ []

unfoldable pub copy8 : ℕ → List ℕ
copy8 x =
    (x % 256)
    ∷ (x / 2 ^ 8 % 256)
    ∷ (x / 2 ^ 16 % 256)
    ∷ (x / 2 ^ 24 % 256)
    ∷ (x / 2 ^ 32 % 256)
    ∷ (x / 2 ^ 40 % 256)
    ∷ (x / 2 ^ 48 % 256)
    ∷ (x / 2 ^ 56 % 256)
    ∷ []

-- `copy64` of `n` words
unfoldable pub words_le : ℕ → List ℕ → List ℕ
words_le zero p = []
words_le (suc n) p =
    (get_or p 3 0 * 2 ^ 24 + get_or p 2 0 * 2 ^ 16 + get_or p 1 0 * 2 ^ 8 + get_or p 0 0)
    ∷ words_le n (drop 4 p)

-- `rs_mdfour_block`
unfoldable pub mdfour_block : Regs → List ℕ → Regs
mdfour_block r p = mdfour64 (words_le 16 p) r

unfoldable pub mdfour_begin : Mdfour
mdfour_begin = record {
  regs = record { a = 0x67452301; b = 0xefcdab89; c = 0x98badcfe; d = 0x10325476 };
  total = 0;
  tail_len = 0;
  tail = replicate 64 0;
}

-- `memcpy(&tail[tail_len], in, n)`
unfoldable pub put_tail : List ℕ → ℕ → List ℕ → List ℕ
put_tail tail tail_len inp = take tail_len tail ++ (inp ++ drop (tail_len + length inp) tail)

-- The part of `rs_mdfour_update` that fills the tail up to a block.
unfoldable pub fill_tail : Mdfour → List ℕ → Mdfour × List ℕ
unfolding put_tail
fill_tail md inp =
    let tail_gap = 64 - md.tail_len in
    let tail = put_tail md.tail md.tail_len (take tail_gap inp) in
    if md.tail_len == 0
    then (md, inp)
    else if leb tail_gap (length inp)
    then (
      record md { regs = mdfour_block md.regs tail; tail = tail; tail_len = 0 },
      drop tail_gap inp,
    )
    else (md, inp)

-- `while (n >= 64)`. A round takes 64 bytes, so as many rounds as bytes are enough.
unfoldable pub take_blocks : ℕ → Regs → List ℕ → Regs × List ℕ
take_blocks zero r inp = (r, inp)
take_blocks (suc fuel) r inp =
    let rest = take_blocks fuel (mdfour_block r inp) (drop 64 inp) in
    if leb 64 (length inp) then rest else (r, inp)

-- The part of `rs_mdfour_update` that keeps the bytes left over; none left over change nothing.
unfoldable pub keep_rest : Mdfour → Regs × List ℕ → Mdfour
unfolding put_tail
keep_rest md (r, inp) = record md {
  regs = r;
  tail = put_tail md.tail md.tail_len inp;
  tail_len = md.tail_len + length inp;
}

unfoldable pub update_after : Mdfour × List ℕ → Mdfour
unfolding take_blocks keep_rest
update_after (md, inp) = keep_rest md (take_blocks (length inp) md.regs inp)

-- `rs_mdfour_update`
unfoldable pub mdfour_update : List ℕ → Mdfour → Mdfour
unfolding fill_tail update_after
mdfour_update inp md =
    update_after (fill_tail (record md { total = (md.total + length inp) % u64 }) inp)

-- `PADDING`
abbrev pub padding : List ℕ
padding = 0x80 ∷ replicate 63 0

-- `rs_mdfour_tail`
unfoldable pub mdfour_tail : Mdfour → Mdfour
mdfour_tail m =
    let buf = copy8 (m.total * 8 % u64) in
    let pad_len = if ltb m.tail_len 56 then 56 - m.tail_len else 120 - m.tail_len in
    mdfour_update buf (mdfour_update (take pad_len padding) m)

unfoldable pub digest : Regs → List ℕ
unfolding copy4
digest r = copy4 r.a ++ (copy4 r.b ++ (copy4 r.c ++ copy4 r.d))

-- `rs_mdfour_result`
unfoldable pub mdfour_result : Mdfour → List ℕ
mdfour_result md = digest (mdfour_tail md).regs

-- `rs_mdfour`
unfoldable pub mdfour : List ℕ → List ℕ
mdfour inp = mdfour_result (mdfour_update inp mdfour_begin)
