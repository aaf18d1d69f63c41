-- ===== src/Mdfour/Update.antt =====
-- src/mdfour.c: what rs_mdfour_update makes of the bytes that it has been given, however they were cut
-- into calls: the blocks of 64 bytes taken one by one, and the bytes left over in the tail.
use librsync.Prelude.{
  ℕ, ◌+◌, ◌-◌, ◌*◌, ◌%◌, ◌≤◌, ◌<◌, ◌≡◌, refl, sym, ap, ◌∙◌, arith, u64, leb, ◌==◌, Bool-cases, inl,
  inr, ◌⊎◌, ==→eq, leb→le, leb_false→lt,
}
use librsync.Prelude.{
  List, [], ◌++◌, length, take, drop, append_assoc, length-append, length-take, length-drop,
}
use librsync.Prelude.Slices.{
  take-append-drop, take-all, drop-all, drop-append_le, take-append_at, drop-drop,
}
use librsync.Mdfour.{
  Regs, Mdfour, mdfour_block, put_tail, fill_tail, take_blocks, keep_rest, update_after,
  mdfour_update,
}
use librsync.Mdfour.Absorb.{absorb, absorb-append, absorb-add, take_blocks_lem}
use mathlib.Core.Path.{ap₂, subst}

-- An accumulator that began with the registers `r0` and has been given `bytes`.
pub record Fed (r0 : Regs) (bytes : List ℕ) (md : Mdfour) : Type 0 where
  pub blocks : ℕ
  pub whole : length bytes ≡ 64 * blocks + md.tail_len
  pub short : md.tail_len < 64
  pub absorbed : md.regs ≡ absorb blocks r0 bytes
  pub waiting : take md.tail_len md.tail ≡ drop (64 * blocks) bytes
  pub width : length md.tail ≡ 64

length-put_tail :
    (tail inp : List ℕ) (n : ℕ)
    → length tail ≡ 64
    → n + length inp ≤ 64
    → length (put_tail tail n inp) ≡ 64
unfolding put_tail
length-put_tail tail inp n w h = omega (
  arith,
  length-append (take n tail) (inp ++ drop (n + length inp) tail),
  length-append inp (drop (n + length inp) tail),
  length-take n tail,
  length-drop (n + length inp) tail,
)

take-put_tail :
    (tail inp : List ℕ) (n : ℕ)
    → length tail ≡ 64
    → n + length inp ≤ 64
    → take (n + length inp) (put_tail tail n inp) ≡ take n tail ++ inp
unfolding put_tail
take-put_tail tail inp n w h =
    ap (λ l. take (n + length inp) l)
      (sym (append_assoc (take n tail) inp (drop (n + length inp) tail)))
    ∙ take-append_at (n + length inp) (take n tail ++ inp) (drop (n + length inp) tail)
        (omega (arith, length-append (take n tail) inp, length-take n tail))

-- `n` blocks after `b` blocks, where the tail is empty or no block is taken.
module _ (r0 : Regs) (bytes inp : List ℕ) (b n tail_len : ℕ)
    (whole : length bytes ≡ 64 * b + tail_len) where
  dropped : drop (64 * b) (bytes ++ inp) ≡ drop (64 * b) bytes ++ inp
  dropped = drop-append_le (64 * b) bytes inp (omega arith)

  nothing_left : tail_len ≡ 0 → drop (64 * b) bytes ≡ []
  nothing_left e = drop-all (64 * b) bytes (omega arith)

  absorb_on :
      (r : Regs)
      → r ≡ absorb b r0 bytes
      → (tail_len ≡ 0) ⊎ (n ≡ 0)
      → absorb n r inp ≡ absorb (b + n) r0 (bytes ++ inp)
  unfolding absorb
  absorb_on r e (inl empty) =
      ap₂ (λ r l. absorb n r l) (e ∙ sym (absorb-append b r0 bytes inp (omega arith)))
        (sym (dropped ∙ ap (λ l. l ++ inp) (nothing_left empty)))
      ∙ sym (absorb-add b n r0 (bytes ++ inp))
  absorb_on r e (inr none_taken) =
      ap (λ k. absorb k r inp) none_taken
      ∙ e
      ∙ sym (absorb-append b r0 bytes inp (omega arith))
      ∙ ap (λ k. absorb k r0 (bytes ++ inp)) same
    where
      same : b ≡ b + n
      same = omega arith

  left_over :
      (tail_len ≡ 0) ⊎ (n ≡ 0)
      → drop (64 * b) bytes ++ drop (64 * n) inp ≡ drop (64 * (b + n)) (bytes ++ inp)
  left_over how =
      split how
      ∙ ap (λ l. drop (64 * n) l) (sym dropped)
      ∙ drop-drop (64 * b) (64 * n) (bytes ++ inp)
      ∙ ap (λ k. drop k (bytes ++ inp)) total
    where
      total : 64 * b + 64 * n ≡ 64 * (b + n)
      total = omega arith

      split :
          (tail_len ≡ 0) ⊎ (n ≡ 0)
          → drop (64 * b) bytes ++ drop (64 * n) inp ≡ drop (64 * n) (drop (64 * b) bytes ++ inp)
      split (inl empty) = rw (nothing_left empty) refl
      split (inr none_taken) = rw none_taken refl

-- The loop over blocks and the bytes left over, where no tail waits or the input does not fill it.
update_after-Fed :
    (r0 : Regs) (bytes inp : List ℕ) (md : Mdfour)
    → Fed r0 bytes md
    → (md.tail_len ≡ 0) ⊎ (md.tail_len + length inp < 64)
    → Fed r0 (bytes ++ inp) (update_after (md, inp))
unfolding update_after keep_rest
update_after-Fed r0 bytes inp md f room =
    let (n, m, whole, short, e) = take_blocks_lem (length inp) md.regs inp (omega arith) in
    kept n m whole short e
  where
    kept :
        (n m : ℕ)
        → length inp ≡ 64 * n + m
        → m < 64
        → take_blocks (length inp) md.regs inp ≡ (absorb n md.regs inp, drop (64 * n) inp)
        → Fed r0 (bytes ++ inp) (keep_rest md (take_blocks (length inp) md.regs inp))
    kept n m whole short e =
        subst (λ r. Fed r0 (bytes ++ inp) (keep_rest md r)) (sym e)
          (record {
            blocks = f.blocks + n;
            whole = omega (arith, length-append bytes inp, f.whole, rest);
            short = fits room;
            absorbed = absorb_on r0 bytes inp f.blocks n md.tail_len f.whole md.regs f.absorbed how;
            waiting =
                take-put_tail md.tail (drop (64 * n) inp) md.tail_len f.width
                  (omega (arith, fits room))
                ∙ ap (λ l. l ++ drop (64 * n) inp) f.waiting
                ∙ left_over r0 bytes inp f.blocks n md.tail_len f.whole how;
            width =
                length-put_tail md.tail (drop (64 * n) inp) md.tail_len f.width
                  (omega (arith, fits room));
          })
      where
        rest : length (drop (64 * n) inp) ≡ m
        rest = omega (arith, length-drop (64 * n) inp)

        fits :
            (md.tail_len ≡ 0) ⊎ (md.tail_len + length inp < 64)
            → md.tail_len + length (drop (64 * n) inp) < 64
        fits (inl empty) = omega (arith, rest)
        fits (inr small) = omega (arith, rest)

        how : (md.tail_len ≡ 0) ⊎ (n ≡ 0)
        how = ground (arith, room)

module _ (r0 : Regs) (bytes inp : List ℕ) (md : Mdfour) (f : Fed r0 bytes md)
    (enough : 64 - md.tail_len ≤ length inp) where
  gap : ℕ
  gap = 64 - md.tail_len

  gap_bytes : length (take (64 - md.tail_len) inp) ≡ 64 - md.tail_len
  gap_bytes = omega (arith, length-take (64 - md.tail_len) inp)

  filled_tail :
      put_tail md.tail md.tail_len (take (64 - md.tail_len) inp)
      ≡ take md.tail_len md.tail ++ take (64 - md.tail_len) inp
  filled_tail =
      sym (
        take-all (md.tail_len + length (take (64 - md.tail_len) inp))
          (put_tail md.tail md.tail_len (take (64 - md.tail_len) inp))
          (omega (
            arith,
            gap_bytes,
            f.short,
            length-put_tail md.tail (take (64 - md.tail_len) inp) md.tail_len f.width
                (omega (arith, gap_bytes, f.short)),
          )))
      ∙ take-put_tail md.tail (take (64 - md.tail_len) inp) md.tail_len f.width
          (omega (arith, gap_bytes, f.short))

  -- The tail made up to a block and taken.
  filled-Fed : Fed r0 (bytes ++ take (64 - md.tail_len) inp) (record md {
    regs = mdfour_block md.regs (put_tail md.tail md.tail_len (take (64 - md.tail_len) inp));
    tail = put_tail md.tail md.tail_len (take (64 - md.tail_len) inp);
    tail_len = 0;
  })
  unfolding absorb
  filled-Fed = record {
    blocks = f.blocks + 1;
    whole =
        omega
          (arith, length-append bytes (take (64 - md.tail_len) inp), gap_bytes, f.whole, f.short);
    short = omega arith;
    absorbed =
        ap₂ (λ r l. mdfour_block r l)
          (f.absorbed
            ∙ sym (
                absorb-append f.blocks r0 bytes (take (64 - md.tail_len) inp)
                  (omega (arith, f.whole))))
          (filled_tail
            ∙ ap (λ l. l ++ take (64 - md.tail_len) inp) f.waiting
            ∙ sym (
                drop-append_le (64 * f.blocks) bytes (take (64 - md.tail_len) inp)
                  (omega (arith, f.whole))))
        ∙ sym (absorb-add f.blocks 1 r0 (bytes ++ take (64 - md.tail_len) inp));
    waiting = sym (
        drop-all (64 * (f.blocks + 1)) (bytes ++ take (64 - md.tail_len) inp) (
          omega (
            arith,
            length-append bytes (take (64 - md.tail_len) inp),
            gap_bytes,
            f.whole,
            f.short,
          )));
    width =
        length-put_tail md.tail (take (64 - md.tail_len) inp) md.tail_len f.width
          (omega (arith, gap_bytes, f.short));
  }

fill_tail-Fed :
    (r0 : Regs) (bytes inp : List ℕ) (md : Mdfour)
    → Fed r0 bytes md
    → Fed r0 (bytes ++ inp) (update_after (fill_tail md inp))
unfolding fill_tail
fill_tail-Fed r0 bytes inp md f = elim (Bool-cases (md.tail_len == 0)) [
  | inl empty ↦ rw empty (update_after-Fed r0 bytes inp md f (inl (==→eq _ _ empty)))
  | inr some_left ↦ rw some_left (elim (Bool-cases (leb (64 - md.tail_len) (length inp))) [
    | inr few ↦
        rw few
          (update_after-Fed r0 bytes inp md f (inr (omega (arith, leb_false→lt _ _ few, f.short))))
    | inl enough ↦ rw enough (
        subst (λ l. Fed r0 l (update_after (full, drop (64 - md.tail_len) inp)))
          (append_assoc bytes (take (64 - md.tail_len) inp) (drop (64 - md.tail_len) inp)
            ∙ ap (λ l. bytes ++ l) (take-append-drop (64 - md.tail_len) inp))
          (update_after-Fed r0 _ (drop (64 - md.tail_len) inp) full
            (filled-Fed r0 bytes inp md f (leb→le _ _ enough)) (inl refl)))
  ])
]
  where
    full : Mdfour
    full = record md {
      regs = mdfour_block md.regs (put_tail md.tail md.tail_len (take (64 - md.tail_len) inp));
      tail = put_tail md.tail md.tail_len (take (64 - md.tail_len) inp);
      tail_len = 0;
    }

total_kept : (md : Mdfour) (inp : List ℕ) → (update_after (fill_tail md inp)).total ≡ md.total
unfolding update_after fill_tail keep_rest
total_kept md inp = ground arith

-- rs_mdfour_update of an accumulator that has been given some bytes leaves one that has been given the
-- input after them, and adds the length of the input to the total.
pub mdfour_update-Fed :
    (r0 : Regs) (bytes inp : List ℕ) (md : Mdfour)
    → Fed r0 bytes md
    → Fed r0 (bytes ++ inp) (mdfour_update inp md)
      × ((mdfour_update inp md).total ≡ (md.total + length inp) % u64)
unfolding mdfour_update
mdfour_update-Fed r0 bytes inp md f = (
  fill_tail-Fed r0 bytes inp (record md { total = (md.total + length inp) % u64 })
      (record {
        blocks = f.blocks;
        whole = f.whole;
        short = f.short;
        absorbed = f.absorbed;
        waiting = f.waiting;
        width = f.width;
      }),
  total_kept (record md { total = (md.total + length inp) % u64 }) inp,
)
