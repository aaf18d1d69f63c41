-- ===== src/Patch/Spec.antt =====
-- What a delta means, read as a whole: doc/formats.md and the table of commands. It knows nothing
-- of buffers, states or blocking.
use librsync.Prelude.{ℕ, zero, suc, ◌+◌, ◌-◌, ◌≤◌, ◌≡◌, ◌^◌, refl, sym, ap, ◌∙◌, arith}
use librsync.Prelude.{Bool, false, leb, ltb, ◌==◌, if◌then◌else◌}
use librsync.Prelude.{List, [], ◌∷◌, ◌++◌, length, length-drop, take, drop, append_assoc}
use librsync.Prelude.{Bool-cases, inl, inr, le→leb, lt→leb, tests}
use librsync.Prelude.Slices.{take-append-drop, take-add, drop-drop}
use mathlib.Core.Path.{ap₂}
use librsync.Result.{RsResult, done, input_ended, bad_magic, corrupt, internal_error}
use librsync.Command.{OpKind, end, literal, copy}
use librsync.Prototab.{Entry, prototab}
use librsync.Netint.Bytes.{from_big_endian}

-- The output of a patch and the result that it ends with.
abbrev pub Outcome : Type 0
Outcome = List ℕ × RsResult

abbrev pub prepend : List ℕ → Outcome → Outcome
prepend bytes o = (bytes ++ o.0, o.1)

-- A length that a command may have: an int64_t above 0.
abbrev pub good_len : ℕ → Bool
good_len len = if len == 0 then false else ltb len (2 ^ 63)

abbrev pub good_pos : ℕ → Bool
good_pos pos = ltb pos (2 ^ 63)

-- The bytes of a literal command, and then `rest` of the delta.
unfoldable pub literal_spec : (List ℕ → Outcome) → ℕ → List ℕ → Outcome
literal_spec go len queue =
    if leb len (length queue)
    then prepend (take len queue) (go (drop len queue))
    else (queue, input_ended)

-- `len` bytes of the basis from `pos`, and then the delta goes on.
unfoldable pub copy_spec : List ℕ → (List ℕ → Outcome) → ℕ → ℕ → List ℕ → Outcome
copy_spec basis go pos len queue =
    if leb (pos + len) (length basis)
    then prepend (take len (drop pos basis)) (go queue)
    else (drop pos basis, input_ended)

unfoldable pub run_spec : List ℕ → (List ℕ → Outcome) → OpKind → ℕ → ℕ → List ℕ → Outcome
run_spec basis go literal param1 param2 queue =
    if good_len param1 then literal_spec go param1 queue else ([], corrupt)
run_spec basis go copy param1 param2 queue =
    if good_len param2
    then (if good_pos param1 then copy_spec basis go param1 param2 queue else ([], corrupt))
    else ([], corrupt)
run_spec basis go end param1 param2 queue = ([], done)
run_spec basis go _ param1 param2 queue = ([], corrupt)

-- The parameters of a command, from the front of the queue or from the table.
unfoldable pub param1_spec : Entry → List ℕ → ℕ
param1_spec e queue = if e.len_1 == 0 then e.immediate else from_big_endian 0 (take e.len_1 queue)

unfoldable pub param2_spec : Entry → List ℕ → ℕ
param2_spec e queue = from_big_endian 0 (take e.len_2 (drop e.len_1 queue))

unfoldable pub entry_spec : List ℕ → (List ℕ → Outcome) → Entry → List ℕ → Outcome
entry_spec basis go e queue =
    if leb (e.len_1 + e.len_2) (length queue)
    then run_spec basis go e.kind (param1_spec e queue) (param2_spec e queue)
        (drop (e.len_1 + e.len_2) queue)
    else ([], input_ended)

-- The commands of a delta. A command takes a byte at least, so `length queue` rounds are enough.
unfoldable pub commands_on_fuel : List ℕ → ℕ → List ℕ → Outcome
commands_on_fuel basis fuel [] = ([], input_ended)
commands_on_fuel basis zero (op ∷ queue) = ([], internal_error)
commands_on_fuel basis (suc fuel) (op ∷ queue) =
    entry_spec basis (commands_on_fuel basis fuel) (prototab op) queue

unfoldable pub commands_spec : List ℕ → List ℕ → Outcome
commands_spec basis queue = commands_on_fuel basis (length queue) queue

-- A whole delta.
unfoldable pub patch_spec : List ℕ → List ℕ → Outcome
patch_spec basis queue =
    if leb 4 (length queue)
    then (if from_big_endian 0 (take 4 queue) == 0x72730236
        then commands_spec basis (drop 4 queue)
        else ([], bad_magic))
    else ([], input_ended)

-- `entry_spec` goes on with a part of its queue only.
module _ (basis : List ℕ) (f g : List ℕ → Outcome) (n : ℕ)
    (agree : (q : List ℕ) → length q ≤ n → f q ≡ g q) where
  literal_spec-cong :
      (len : ℕ) (queue : List ℕ)
      → length queue ≤ n
      → literal_spec f len queue ≡ literal_spec g len queue
  unfolding literal_spec
  literal_spec-cong len queue h =
      ap (λ o. if leb len (length queue) then prepend (take len queue) o else (queue, input_ended))
        (agree (drop len queue) (omega (arith, length-drop len queue)))

  run_spec-cong :
      (k : OpKind) (a b : ℕ) (queue : List ℕ)
      → length queue ≤ n
      → run_spec basis f k a b queue ≡ run_spec basis g k a b queue
  unfolding run_spec copy_spec
  run_spec-cong literal a b queue h =
      ap (λ (o : Outcome). if good_len a then o else ([], corrupt)) (literal_spec-cong a queue h)
  run_spec-cong copy a b queue h = rw (agree queue h)
  run_spec-cong _ a b queue h = refl

  entry_spec-cong :
      (e : Entry) (queue : List ℕ)
      → length queue ≤ n
      → entry_spec basis f e queue ≡ entry_spec basis g e queue
  unfolding entry_spec
  entry_spec-cong e queue h =
      ap (λ (o : Outcome). if leb (e.len_1 + e.len_2) (length queue) then o else ([], input_ended))
        (run_spec-cong e.kind _ _ (drop (e.len_1 + e.len_2) queue)
          (omega (arith, length-drop (e.len_1 + e.len_2) queue)))

commands_on_fuel_enough :
    (basis : List ℕ) (a b : ℕ) (queue : List ℕ)
    → length queue ≤ a
    → length queue ≤ b
    → commands_on_fuel basis a queue ≡ commands_on_fuel basis b queue
unfolding commands_on_fuel
commands_on_fuel_enough basis a b [] p q = refl
commands_on_fuel_enough basis zero b (op ∷ queue) p q = absurd (omega arith)
commands_on_fuel_enough basis (suc a) zero (op ∷ queue) p q = absurd (omega arith)
commands_on_fuel_enough basis (suc a) (suc b) (op ∷ queue) p q =
    entry_spec-cong basis (commands_on_fuel basis a) (commands_on_fuel basis b) (length queue)
      (λ r h. commands_on_fuel_enough basis a b r (omega arith) (omega arith)) (prototab op) queue
      (omega arith)

-- The commands one after the other, with no fuel in sight.
pub commands_spec-cons :
    (basis : List ℕ) (op : ℕ) (queue : List ℕ)
    → commands_spec basis (op ∷ queue) ≡ entry_spec basis (commands_spec basis) (prototab op) queue
unfolding commands_spec commands_on_fuel
commands_spec-cons basis op queue =
    entry_spec-cong basis (commands_on_fuel basis (length queue)) (commands_spec basis)
      (length queue)
      (λ r h. commands_on_fuel_enough basis (length queue) (length r) r h (omega arith))
      (prototab op) queue (omega arith)

pub commands_spec-nil : (basis : List ℕ) → commands_spec basis [] ≡ ([], input_ended)
unfolding commands_spec commands_on_fuel
commands_spec-nil basis = refl

pub prepend-prepend : (a b : List ℕ) (o : Outcome) → prepend (a ++ b) o ≡ prepend a (prepend b o)
prepend-prepend a b o = ap (λ l. (l, o.1)) (append_assoc a b o.0)

-- The front `n` bytes of a literal may be handed over first.
pub literal_spec-split :
    (go : List ℕ → Outcome) (n len : ℕ) (queue : List ℕ)
    → n ≤ len
    → n ≤ length queue
    → literal_spec go len queue ≡ prepend (take n queue) (literal_spec go (len - n) (drop n queue))
unfolding literal_spec
literal_spec-split go n len queue h k = elim (Bool-cases (leb len (length queue))) [
  | inl all ↦
      rw (all, le→leb (len - n) (length (drop n queue)) (omega (tests, length-drop n queue)))
        (ap₂ (λ t d. prepend t (go d)) taken dropped
          ∙ prepend-prepend (take n queue) (take (len - n) (drop n queue))
              (go (drop (len - n) (drop n queue))))
  | inr few ↦
      rw (few, lt→leb (len - n) (length (drop n queue)) (omega (tests, length-drop n queue)))
        (ap (λ l. (l, input_ended)) (sym (take-append-drop n queue)))
]
  where
    whole : n + (len - n) ≡ len
    whole = omega arith

    taken : take len queue ≡ take n queue ++ take (len - n) (drop n queue)
    taken = ap (λ m. take m queue) (sym whole) ∙ take-add n (len - n) queue

    dropped : drop len queue ≡ drop (len - n) (drop n queue)
    dropped = sym (drop-drop n (len - n) queue ∙ ap (λ m. drop m queue) whole)
