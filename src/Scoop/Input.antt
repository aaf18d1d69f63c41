-- ===== src/Scoop/Input.antt =====
-- `rs_scoop_input`: what the scoop holds after more input was taken in.
use librsync.Prelude.{ℕ, zero, suc, ◌+◌, ◌-◌, ◌*◌, ◌%◌, ◌^◌, ◌≤◌, ◌<◌, ◌≡◌, refl, sym, ap, ◌∙◌}
use librsync.Prelude.{arith, min, u64, ltb, inl, inr, Bool-cases}
use librsync.Prelude.{List, ◌++◌, length, take, drop, replicate, append_assoc}
use librsync.Prelude.{length-append, length-take, length-drop, length-replicate}
use librsync.Prelude.{ltb_false→le, le→leb, lt→ltb}
use librsync.Prelude.Slices.{take-append_at, drop-append_le}
use librsync.Prelude.Slices.{drop-take, take-append-drop}
use librsync.Io.{Io, assert_that}
use librsync.Scoop.{live, grow, scoop_newsize, write_at, scoop_make_room, scoop_take, scoop_input}
use librsync.Scoop.{scoop_tocopy}
use librsync.Scoop.Queue.{input, IsValid, outputs}
use mathlib.Core.Path.{ap₂}
use native.Mathlib.Nat.{pow-suc}

-- The doubling loop ends with a size that is large enough, before a size_t could wrap to 0.
grow-le : (fuel size len : ℕ) → len ≤ 2 ^ 63 → size * 2 ^ fuel ≡ 2 ^ 64 → len ≤ grow fuel size len
unfolding grow
grow-le zero size len h e = omega arith
grow-le (suc fuel) size len h e =
    ground (arith, double size fuel, pow-suc 2 fuel, grow-le fuel (size * 2 % u64) len, no_wrap)
  where
    no_wrap : size < len → size * 2 % u64 ≡ size * 2
    no_wrap lt = omega arith

    double : (s f : ℕ) → s * 2 ^ suc f ≡ s * 2 * 2 ^ f
    double s f = omega (arith, ap (λ (t : ℕ). s * t) (pow-suc 2 f))

-- `live` looks at nothing but the three fields that it names.
pub length-live : (io : Io) → IsValid io → length (live io) ≡ io.scoop_avail
length-live io v = omega (
  arith,
  length-take io.scoop_avail (drop io.scoop_next io.scoop_buf),
  length-drop io.scoop_next io.scoop_buf,
)

length-write_at :
    (at : ℕ) (bytes buf : List ℕ)
    → at + length bytes ≤ length buf
    → length (write_at at bytes buf) ≡ length buf
length-write_at at bytes buf h = omega (
  arith,
  length-append (take at buf) (bytes ++ drop (at + length bytes) buf),
  length-append bytes (drop (at + length bytes) buf),
  length-take at buf,
  length-drop (at + length bytes) buf,
)

-- Bytes written just behind a slice extend it.
slice-write_at :
    (start n : ℕ) (bytes buf : List ℕ)
    → start + n + length bytes ≤ length buf
    → take (n + length bytes) (drop start (write_at (start + n) bytes buf))
      ≡ take n (drop start buf) ++ bytes
slice-write_at start n bytes buf h =
    rw
      (
        drop-append_le start (take (start + n) buf) (bytes ++ drop (start + n + length bytes) buf)
            (omega (arith, length-take (start + n) buf)),
        drop-take start (start + n) buf,
        front,
        ← append_assoc (take n (drop start buf)) bytes (drop (start + n + length bytes) buf),
      )
      (take-append_at (n + length bytes) (take n (drop start buf) ++ bytes) _ (
        omega (
          arith,
          length-append (take n (drop start buf)) bytes,
          length-take n (drop start buf),
          length-drop start buf,
        )))
  where
    front : start + n - start ≡ n
    front = omega arith

scoop_newsize-le : (len : ℕ) → len ≤ 2 ^ 63 → len ≤ scoop_newsize len
unfolding scoop_newsize
scoop_newsize-le len h = grow-le 58 64 len h refl

-- After `scoop_make_room` the scoop holds the same bytes, with room for `len`.
record HasRoom (len : ℕ) (io io' : Io) : Type 0 where
  kept : live io' ≡ live io
  valid : IsValid io'
  room : io'.scoop_next + len ≤ io'.scoop_alloc
  same_avail : io'.scoop_avail ≡ io.scoop_avail
  same_next_in : io'.next_in ≡ io.next_in
  same_output : outputs io' ≡ outputs io

scoop_make_room-HasRoom :
    (len : ℕ) (io : Io)
    → len ≤ 2 ^ 63
    → io.scoop_avail < len
    → IsValid io
    → HasRoom len io (scoop_make_room len io)
unfolding scoop_make_room
scoop_make_room-HasRoom len io h lt v = elim (Bool-cases (ltb io.scoop_alloc len)) [
  | inl small ↦ rw small (record {
    kept = take-append_at _ (live io) _ (sym (length-live io v));
    valid = record {
      allocated = omega (
        arith,
        length-append (live io) (replicate (scoop_newsize len - io.scoop_avail) 0),
        length-replicate {A = ℕ} (scoop_newsize len - io.scoop_avail) 0,
        length-live io v,
        scoop_newsize-le len h,
      );
      inside = omega (arith, scoop_newsize-le len h);
      unharmed = v.unharmed;
    };
    room = omega (arith, scoop_newsize-le len h);
    same_avail = refl;
    same_next_in = refl;
    same_output = refl;
  })
  | inr big ↦ rw big (elim (Bool-cases (ltb io.scoop_alloc (io.scoop_next + len))) [
    | inl full ↦ rw full (record {
      kept = take-append_at _ (live io) _ (sym (length-live io v));
      valid = record {
        allocated = length-write_at 0 (live io) io.scoop_buf fits ∙ v.allocated;
        inside = omega arith;
        unharmed = v.unharmed;
      };
      room = omega (arith, ltb_false→le io.scoop_alloc len big);
      same_avail = refl;
      same_next_in = refl;
      same_output = refl;
    })
    | inr fitting ↦ rw fitting (record {
      kept = refl;
      valid = v;
      room = ltb_false→le _ _ fitting;
      same_avail = refl;
      same_next_in = refl;
      same_output = refl;
    })
  ])
]
  where
    fits : 0 + length (live io) ≤ length io.scoop_buf
    fits = omega (arith, length-live io v)

-- What taking input in does: bytes go from the caller's buffer to the end of the scoop.
pub record TookInput (len : ℕ) (io io' : Io) : Type 0 where
  pub same_input : input io' ≡ input io
  pub still_valid : IsValid io'
  pub now_avail : io'.scoop_avail ≡ min len (io.scoop_avail + length io.next_in)
  pub same_fields : outputs io' ≡ outputs io

tocopy-min :
    (len : ℕ) (io : Io) → scoop_tocopy len io ≡ min (len - io.scoop_avail) (length io.next_in)
unfolding scoop_tocopy
tocopy-min len io = ground arith

scoop_take-TookInput :
    (len : ℕ) (io : Io)
    → io.scoop_avail < len
    → IsValid io
    → io.scoop_next + len ≤ io.scoop_alloc
    → TookInput len io (scoop_take len io)
unfolding scoop_take
scoop_take-TookInput len io lt v room = record {
  same_input =
      ap (λ n. take (io.scoop_avail + n) (drop io.scoop_next grown) ++ drop t io.next_in) (sym size)
      ∙ ap (λ l. l ++ drop t io.next_in)
          (slice-write_at io.scoop_next io.scoop_avail (take t io.next_in) io.scoop_buf fits)
      ∙ append_assoc (live io) (take t io.next_in) (drop t io.next_in)
      ∙ ap (λ l. live io ++ l) (take-append-drop t io.next_in);
  still_valid = record {
    allocated = length-write_at _ (take t io.next_in) io.scoop_buf fits ∙ v.allocated;
    inside = omega (arith, tocopy-min len io);
    unharmed =
        rw
          (le→leb (io.scoop_next + t + io.scoop_avail) io.scoop_alloc
            (omega (arith, tocopy-min len io)))
          v.unharmed;
  };
  now_avail = omega (arith, tocopy-min len io);
  same_fields = refl;
}
  where
    t : ℕ
    t = scoop_tocopy len io

    size : length (take t io.next_in) ≡ t
    size = omega (arith, length-take t io.next_in, tocopy-min len io)

    fits : io.scoop_next + io.scoop_avail + length (take t io.next_in) ≤ length io.scoop_buf
    fits = omega (arith, size, tocopy-min len io)

    grown : List ℕ
    grown = write_at (io.scoop_next + io.scoop_avail) (take t io.next_in) io.scoop_buf

-- Taking input in moves bytes from the caller's buffer to the end of the scoop: the queue of unread
-- bytes is the same, the scoop has `len` bytes or all that there are, and no assertion fails.
pub scoop_input-TookInput :
    (len : ℕ) (io : Io)
    → len ≤ 2 ^ 63
    → io.scoop_avail < len
    → IsValid io
    → TookInput len io (scoop_input len io)
unfolding scoop_input assert_that
scoop_input-TookInput len io h lt v =
    let r = scoop_make_room-HasRoom len io h lt v in
    let t = scoop_take-TookInput len (scoop_make_room len io) (rw r.same_avail lt) r.valid r.room in
    rw (lt→ltb io.scoop_avail len lt) (record {
      same_input = t.same_input ∙ ap₂ ◌++◌ r.kept r.same_next_in;
      still_valid = t.still_valid;
      now_avail =
          t.now_avail ∙ ap₂ (λ a (b : List ℕ). min len (a + length b)) r.same_avail r.same_next_in;
      same_fields = t.same_fields ∙ r.same_output;
    })
