-- ===== src/Patch/Copying.antt =====
-- src/patch.c: `rs_patch_s_copying`, with a callback that reads the basis.
use librsync.Prelude.{ℕ, ◌+◌, ◌-◌, ◌≤◌, ◌<◌, ◌≡◌, ◌≢◌, refl, sym, ap, subst, ◌∙◌, arith, min}
use librsync.Prelude.{Bool, true, false, leb, ltb, ◌==◌, if◌then◌else◌, Bool-cases, inl, inr, tests}
use librsync.Prelude.{List, [], ◌++◌, length, take, drop, some, dec_lt, dec_le}
use librsync.Prelude.{length-take, length-append, length-drop, le→leb, lt→leb, ==→eq, ==_false→ne}
use librsync.Prelude.Slices.{take-add, drop-drop, take-all, take-append-drop, nil_of_length}
use librsync.Result.{done, running, input_ended}
use librsync.Scoop.Queue.{input}
use librsync.Patch.{s_cmdbyte, s_copying, PatchVars, PatchJob, CopyCb}
use librsync.Patch.{patch_copy_bytes, patch_s_copying}
use librsync.Patch.Spec.{Outcome, prepend, copy_spec, commands_spec, prepend-prepend}
use librsync.Patch.Meaning.{
  rank, state_spec, statefn_spec, full-idle, StatefnOk, PatchValid, StepOk,
}
use librsync.Patch.Step.{true≢false, step_ends}

-- `rs_copy_cb` as src/librsync.h documents it: it reads from the basis, some bytes at least where
-- there are any, and reports the end of the basis.
pub record ReadsBasis (basis : List ℕ) (copy_cb : CopyCb) : Type 0 where
  pub amount : ℕ → ℕ → ℕ
  pub within :
      (pos len : ℕ)
      → pos < length basis
      → 0 < len
      → copy_cb pos len ≡ (done, take (amount pos len) (drop pos basis))
  pub some_bytes : (pos len : ℕ) → pos < length basis → 0 < len → 0 < amount pos len
  pub not_more : (pos len : ℕ) → pos < length basis → 0 < len → amount pos len ≤ len
  pub beyond : (pos len : ℕ) → length basis ≤ pos → 0 < len → copy_cb pos len ≡ (input_ended, [])

take-length-take : (a : ℕ) (xs : List ℕ) → take a xs ≡ take (length (take a xs)) xs
take-length-take a xs = elim (dec_le a (length xs)) [
  | yes h ↦ ap (λ m. take m xs) (omega (arith, length-take a xs))
  | no h ↦
      take-all a xs (omega arith)
      ∙ sym (take-all (length (take a xs)) xs (omega (arith, length-take a xs)))
]

-- The front `n` bytes of a copy may be handed over first.
copy_spec-split :
    (basis : List ℕ) (go : List ℕ → Outcome) (pos n len : ℕ) (queue : List ℕ)
    → n ≤ len
    → pos + n ≤ length basis
    → copy_spec basis go pos len queue
      ≡ prepend (take n (drop pos basis)) (copy_spec basis go (pos + n) (len - n) queue)
unfolding copy_spec
copy_spec-split basis go pos n len queue h k = elim (Bool-cases (leb (pos + len) (length basis))) [
  | inl all ↦
      rw (all, ap (λ m. leb m (length basis)) whole ∙ all)
        (ap (λ t. prepend t (go queue)) taken
          ∙ prepend-prepend (take n (drop pos basis)) (take (len - n) (drop (pos + n) basis))
              (go queue))
  | inr few ↦
      rw (few, ap (λ m. leb m (length basis)) whole ∙ few)
        (ap (λ l. (l, input_ended))
          (sym (take-append-drop n (drop pos basis))
            ∙ ap (λ l. take n (drop pos basis) ++ l) (drop-drop pos n basis)))
]
  where
    whole : (pos + n) + (len - n) ≡ pos + len
    whole = omega arith

    parts : n + (len - n) ≡ len
    parts = omega arith

    taken :
        take len (drop pos basis) ≡ take n (drop pos basis) ++ take (len - n) (drop (pos + n) basis)
    taken =
        ap (λ m. take m (drop pos basis)) (sym parts)
        ∙ take-add n (len - n) (drop pos basis)
        ∙ ap (λ l. take n (drop pos basis) ++ take (len - n) l) (drop-drop pos n basis)

-- At the end of the copy the delta goes on.
copy_spec-zero :
    (basis : List ℕ) (go : List ℕ → Outcome) (pos : ℕ) (queue : List ℕ)
    → pos ≤ length basis
    → copy_spec basis go pos 0 queue ≡ go queue
unfolding copy_spec
copy_spec-zero basis go pos queue h = rw (le→leb (pos + 0) (length basis) (omega arith))

copy_spec_beyond :
    (basis : List ℕ) (go : List ℕ → Outcome) (pos len : ℕ) (queue : List ℕ)
    → length basis ≤ pos
    → 0 < len
    → copy_spec basis go pos len queue ≡ ([], input_ended)
unfolding copy_spec
copy_spec_beyond basis go pos len queue h k = rw (lt→leb (pos + len) (length basis) (omega arith)) (
    ap (λ l. (l, input_ended))
      (nil_of_length (drop pos basis) (omega (arith, length-drop pos basis))))

module _ (basis : List ℕ) (j : PatchJob) (v : PatchValid j) (idle : j.io.copy_len ≡ 0) where
  -- Bytes from the basis that fit.
  patch_copy_bytes-StepOk :
      (req amount : ℕ)
      → j.statefn ≡ some s_copying
      → j.vars.basis_pos < length basis
      → 0 < amount
      → amount ≤ req
      → req ≤ j.vars.basis_len
      → req ≤ j.io.avail_out
      → StepOk basis j running
          (patch_copy_bytes req (take amount (drop j.vars.basis_pos basis)) j).1
  unfolding patch_copy_bytes state_spec statefn_spec
  patch_copy_bytes-StepOk req amount at inside some_there fits wanted fits_room =
      rw (whole, le→leb n req (omega (arith, length-got)))
        (record {
          valid = record {
            io_valid = record {
              allocated = v.io_valid.allocated;
              inside = v.io_valid.inside;
              unharmed = v.io_valid.unharmed;
            };
            no_commands = v.no_commands;
            bytes = v.bytes;
            state_ok = next_ok (j.vars.basis_len - n == 0) refl;
          };
          same_eof = refl;
          room = omega (arith, length-got, fits_room, length-append j.io.written got);
          waits = λ e. absurd (true≢false (sym e));
          progress = λ _. omega (arith, length-got, fits_room, ap rank at, next_rank);
          finishes = λ e. absurd (true≢false (sym e));
          meets = λ future possible.
              full-idle basis j' future idle
              ∙ ap (prepend (j.io.written ++ got))
                  (next_spec (j.vars.basis_len - n == 0) refl (input j.io ++ future))
              ∙ prepend-prepend j.io.written got _
              ∙ ap (prepend j.io.written) (sym (handed_over (input j.io ++ future)))
              ∙ sym (full-idle basis j future idle);
        })
    where
      got : List ℕ
      got = take amount (drop j.vars.basis_pos basis)

      n : ℕ
      n = length got

      length-got : n ≡ min amount (length basis - j.vars.basis_pos)
      length-got = omega (
        arith,
        length-take amount (drop j.vars.basis_pos basis),
        length-drop j.vars.basis_pos basis,
      )

      whole : take req got ≡ got
      whole = take-all req got (omega (arith, length-got))

      vars' : PatchVars
      vars' = record (j.vars) { basis_pos = j.vars.basis_pos + n; basis_len = j.vars.basis_len - n }

      j' : PatchJob
      j' = record j {
        io = record (j.io) { written = j.io.written ++ got; avail_out = j.io.avail_out - n };
        vars = vars';
        statefn = if j.vars.basis_len - n == 0 then some s_cmdbyte else j.statefn;
      }

      handed_over :
          (queue : List ℕ)
          → statefn_spec basis j.statefn j.vars queue
            ≡ prepend got (
                copy_spec basis
                  (commands_spec basis)
                  (j.vars.basis_pos + n)
                  (j.vars.basis_len - n)
                  queue)
      handed_over queue =
          ap (λ f. statefn_spec basis f j.vars queue) at
          ∙ copy_spec-split basis (commands_spec basis) j.vars.basis_pos n j.vars.basis_len queue
              (omega (arith, length-got)) (omega (arith, length-got))
          ∙ ap
              (λ l. prepend l (
                copy_spec basis (commands_spec basis) (j.vars.basis_pos + n) (j.vars.basis_len - n)
                  queue))
              (sym (take-length-take amount (drop j.vars.basis_pos basis)))

      next_ok :
          (b : Bool)
          → (j.vars.basis_len - n == 0) ≡ b
          → StatefnOk (if b then some s_cmdbyte else j.statefn) vars'
      next_ok true e = tt
      next_ok false e = subst (λ f. StatefnOk f vars') (sym at) (omega (tests))

      next_rank : rank (if j.vars.basis_len - n == 0 then some s_cmdbyte else j.statefn) ≤ 1
      next_rank = elim (Bool-cases (j.vars.basis_len - n == 0)) [
        | inl e ↦ rw e (omega arith)
        | inr e ↦ rw e (omega (arith, ap rank at))
      ]

      next_spec :
          (b : Bool)
          → (j.vars.basis_len - n == 0) ≡ b
          → (queue : List ℕ)
          → statefn_spec basis (if b then some s_cmdbyte else j.statefn) vars' queue
            ≡ copy_spec basis
                (commands_spec basis)
                (j.vars.basis_pos + n)
                (j.vars.basis_len - n)
                queue
      next_spec true e queue = sym (
          ap (λ m. copy_spec basis (commands_spec basis) (j.vars.basis_pos + n) m queue)
            (==→eq _ _ e)
          ∙ copy_spec-zero basis (commands_spec basis) (j.vars.basis_pos + n) queue
              (omega (arith, length-got)))
      next_spec false e queue = ap (λ f. statefn_spec basis f vars' queue) at

  pub patch_s_copying-StepOk :
      (copy_cb : CopyCb)
      → ReadsBasis basis copy_cb
      → j.statefn ≡ some s_copying
      → 0 < j.vars.basis_len
      → StepOk basis j (patch_s_copying copy_cb j).0 (patch_s_copying copy_cb j).1
  unfolding patch_s_copying state_spec statefn_spec
  patch_s_copying-StepOk copy_cb reads at more = elim (Bool-cases (room == 0)) [
    | inl none_left ↦ rw none_left (record {
      valid = v;
      same_eof = refl;
      room = refl;
      meets = λ future possible. refl;
      waits = λ _. inr (==→eq _ _ none_left);
      progress = λ e. absurd (true≢false (sym e));
      finishes = λ e. absurd (true≢false (sym e));
    })
    | inr some_left ↦ rw some_left (elim (dec_lt pos (length basis)) [
      | yes inside ↦ rw (reads.within pos req inside (asks (==_false→ne _ _ some_left))) (
          patch_copy_bytes-StepOk req (reads.amount pos req) at inside
            (reads.some_bytes pos req inside (asks (==_false→ne _ _ some_left)))
            (reads.not_more pos req inside (asks (==_false→ne _ _ some_left))) (ground arith)
            (ground arith))
      | no outside ↦ rw (reads.beyond pos req (omega arith) (asks (==_false→ne _ _ some_left))) (
          step_ends basis j j 0 input_ended v idle refl refl v.io_valid v.state_ok refl
            (λ e. absurd (true≢false (sym e)))
            (λ future.
              ap (λ f. statefn_spec basis f j.vars (input j.io ++ future)) at
              ∙ ended (input j.io ++ future) (omega arith)))
    ])
  ]
    where
      room : ℕ
      room = j.io.avail_out

      pos : ℕ
      pos = j.vars.basis_pos

      req : ℕ
      req = if ltb room j.vars.basis_len then room else j.vars.basis_len

      asks : room ≢ 0 → 0 < req
      asks h = ground arith

      ended :
          (queue : List ℕ)
          → length basis ≤ pos
          → state_spec basis s_copying j.vars queue ≡ ([], input_ended)
      ended queue h = copy_spec_beyond basis (commands_spec basis) pos j.vars.basis_len queue h more
