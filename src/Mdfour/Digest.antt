-- ===== src/Mdfour/Digest.antt =====
-- src/mdfour.c: the digest of rs_mdfour_begin, rs_mdfour_update and rs_mdfour_result is that of the whole
-- message, for every way to cut the message into calls.
use librsync.Prelude.{
  ℕ, ◌+◌, ◌-◌, ◌*◌, ◌/◌, ◌%◌, ◌<◌, ◌≡◌, refl, sym, ap, ◌∙◌, arith, u64, ltb, if◌then◌else◌,
}
use librsync.Prelude.{
  List, [], ◌∷◌, ◌++◌, length, take, append-nil, append_assoc, length-append, length-take,
}
use librsync.Mdfour.{
  Mdfour, mdfour_begin, mdfour_update, mdfour_tail, mdfour_result, mdfour, padding, copy8, digest,
}
use librsync.Mdfour.Absorb.{absorb}
use librsync.Mdfour.Update.{Fed, mdfour_update-Fed}
use mathlib.Core.Path.{ap₂, subst}

-- Padding to 8 bytes less than a whole number of blocks, one byte at least, and the number of bits.
unfoldable pub padded : List ℕ → List ℕ
padded msg = msg ++ (take (64 - (length msg + 8) % 64) padding ++ copy8 (length msg * 8 % u64))

-- MD4 of a whole message.
unfoldable pub md4 : List ℕ → List ℕ
md4 msg = let p = padded msg in digest (absorb (length p / 64) mdfour_begin.regs p)

-- Calls of rs_mdfour_update.
unfoldable pub update_all : List (List ℕ) → Mdfour → Mdfour
update_all [] md = md
update_all (inp ∷ inps) md = update_all inps (mdfour_update inp md)

unfoldable pub joined : List (List ℕ) → List ℕ
joined [] = []
joined (inp ∷ inps) = inp ++ joined inps

Given : List ℕ → Mdfour → Type 0
Given bytes md = Fed mdfour_begin.regs bytes md × (md.total ≡ length bytes % u64)

begin-Given : Given [] mdfour_begin
unfolding Given mdfour_begin absorb
begin-Given = (
  record {
    blocks = 0;
    whole = refl;
    short = omega arith;
    absorbed = refl;
    waiting = refl;
    width = refl;
  },
  refl,
)

update-Given :
    (bytes inp : List ℕ) (md : Mdfour)
    → Given bytes md
    → Given (bytes ++ inp) (mdfour_update inp md)
unfolding Given
update-Given bytes inp md g =
    let (fed, total) = mdfour_update-Fed mdfour_begin.regs bytes inp md g.0 in
    (fed, total ∙ omega (arith, g.1, length-append bytes inp))

update_all-Given :
    (inps : List (List ℕ)) (bytes : List ℕ) (md : Mdfour)
    → Given bytes md
    → Given (bytes ++ joined inps) (update_all inps md)
unfolding update_all joined
update_all-Given [] bytes md g = subst (λ l. Given l md) (sym (append-nil bytes)) g
update_all-Given (inp ∷ inps) bytes md g =
    subst (λ l. Given l (update_all inps (mdfour_update inp md)))
      (append_assoc bytes inp (joined inps))
      (update_all-Given inps (bytes ++ inp) (mdfour_update inp md) (update-Given bytes inp md g))

pad_len_lem :
    (len tail_len blocks : ℕ)
    → len ≡ 64 * blocks + tail_len
    → tail_len < 64
    → (if ltb tail_len 56 then 56 - tail_len else 120 - tail_len) ≡ 64 - (len + 8) % 64
pad_len_lem len tail_len blocks e short = ground arith

length-padded : (msg : List ℕ) → length (padded msg) % 64 ≡ 0
unfolding padded copy8
length-padded msg = omega (
  arith,
  length-append msg (take (64 - (length msg + 8) % 64) padding ++ copy8 (length msg * 8 % u64)),
  length-append (take (64 - (length msg + 8) % 64) padding) (copy8 (length msg * 8 % u64)),
  length-take (64 - (length msg + 8) % 64) padding,
)

tail-Fed :
    (msg : List ℕ) (md : Mdfour)
    → Given msg md
    → Fed mdfour_begin.regs (padded msg) (mdfour_tail md)
unfolding Given mdfour_tail padded
tail-Fed msg md (fed, total) =
    subst (λ l. Fed mdfour_begin.regs l (mdfour_tail md)) same
      (mdfour_update-Fed mdfour_begin.regs (msg ++ take pad_len padding)
        (copy8 (md.total * 8 % u64)) _
        (mdfour_update-Fed mdfour_begin.regs msg (take pad_len padding) md fed).0).0
  where
    pad_len : ℕ
    pad_len = if ltb md.tail_len 56 then 56 - md.tail_len else 120 - md.tail_len

    bits : md.total * 8 % u64 ≡ length msg * 8 % u64
    bits = omega (arith, total)

    same : (msg ++ take pad_len padding) ++ copy8 (md.total * 8 % u64) ≡ padded msg
    same =
        append_assoc msg (take pad_len padding) (copy8 (md.total * 8 % u64))
        ∙ ap₂ (λ p b. msg ++ (take p padding ++ copy8 b))
            (pad_len_lem (length msg) md.tail_len fed.blocks fed.whole fed.short) bits

tail_regs :
    (p : List ℕ) (md : Mdfour)
    → Fed mdfour_begin.regs p md
    → length p % 64 ≡ 0
    → md.regs ≡ absorb (length p / 64) mdfour_begin.regs p
tail_regs p md fed even =
    fed.absorbed ∙ ap (λ n. absorb n mdfour_begin.regs p) (omega (arith, fed.whole, fed.short))

result_lem : (msg : List ℕ) (md : Mdfour) → Given msg md → mdfour_result md ≡ md4 msg
unfolding mdfour_result md4
result_lem msg md g =
    ap digest (tail_regs (padded msg) (mdfour_tail md) (tail-Fed msg md g) (length-padded msg))

-- rs_mdfour_result, after any sequence of calls of rs_mdfour_update from rs_mdfour_begin, gives the
-- digest of all the input together: of the message, padded to whole blocks with its length in bits,
-- as if it was absorbed at once in blocks of 64 bytes.
pub update_all-md4 :
    (inps : List (List ℕ)) → mdfour_result (update_all inps mdfour_begin) ≡ md4 (joined inps)
update_all-md4 inps =
    result_lem (joined inps) (update_all inps mdfour_begin)
      (update_all-Given inps [] mdfour_begin begin-Given)

-- rs_mdfour gives the MD4 digest of its input.
pub mdfour-md4 : (inp : List ℕ) → mdfour inp ≡ md4 inp
unfolding mdfour
mdfour-md4 inp =
    result_lem inp (mdfour_update inp mdfour_begin) (update-Given [] inp mdfour_begin begin-Given)
