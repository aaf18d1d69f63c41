-- ===== src/Emit/Decode.antt =====
-- What a reader of the delta makes of the commands that emit.c writes.
use librsync.Prelude.{ℕ, ◌+◌, ◌%◌, ◌^◌, ◌≤◌, ◌<◌, ◌≡◌, ◌⊎◌, refl, sym, ap, ◌∙◌, arith}
use librsync.Prelude.{
  List, [], ◌∷◌, ◌++◌, length, take, drop, length-append, append_assoc, ne→==, le→leb, lt→ltb,
  dec_le,
}
use librsync.Prelude.Slices.{take-append_at, drop-append_at}
use librsync.Result.{done}
use librsync.Command.{literal, copy}
use librsync.Netint.{int_width}
use librsync.Netint.Bytes.{big_endian, length-big_endian, from_big_endian-big_endian}
use librsync.Netint.IntLen.{int_width-fits, int_width_cases}
use mathlib.Core.Path.{ap₂}
use librsync.Prototab.{Entry, prototab}
use librsync.Patch.{delta_magic}
use librsync.Patch.Spec.{literal_spec, copy_spec, run_spec, param1_spec, param2_spec, entry_spec}
use librsync.Patch.Spec.{commands_spec, patch_spec, commands_spec-cons}
use librsync.Emit.{literal_param_len, literal_cmd, copy_cmd}
use librsync.Emit.Commands.{literal_bytes, copy_bytes}
use native.Mathlib.Nat.{mod-eq_of_lt}

module _ (basis : List ℕ) where
  -- Both parameters are read back from their big-endian forms.
  entry_spec-big_endian :
      (e : Entry) (a b : ℕ) (queue : List ℕ)
      → 0 < e.len_1
      → entry_spec basis
          (commands_spec basis)
          e
          (big_endian e.len_1 a ++ (big_endian e.len_2 b ++ queue))
        ≡ run_spec basis (commands_spec basis) e.kind (a % 256 ^ e.len_1) (b % 256 ^ e.len_2) queue
  unfolding entry_spec param1_spec param2_spec
  entry_spec-big_endian e a b queue pos =
      rw
        (
          le→leb (e.len_1 + e.len_2) (length whole) (omega (arith, lengths)),
          ne→== e.len_1 0 (omega arith),
          front,
          back,
          from_big_endian-big_endian e.len_1 a,
          take-append_at e.len_2 (big_endian e.len_2 b) queue (sym (length-big_endian e.len_2 b)),
          from_big_endian-big_endian e.len_2 b,
          both,
        )
        refl
    where
      whole : List ℕ
      whole = big_endian e.len_1 a ++ (big_endian e.len_2 b ++ queue)

      lengths : length whole ≡ e.len_1 + (e.len_2 + length queue)
      lengths = omega (
        arith,
        length-append (big_endian e.len_1 a) (big_endian e.len_2 b ++ queue),
        length-append (big_endian e.len_2 b) queue,
        length-big_endian e.len_1 a,
        length-big_endian e.len_2 b,
      )

      front : take e.len_1 whole ≡ big_endian e.len_1 a
      front = take-append_at e.len_1 (big_endian e.len_1 a) _ (sym (length-big_endian e.len_1 a))

      back : drop e.len_1 whole ≡ big_endian e.len_2 b ++ queue
      back = drop-append_at e.len_1 (big_endian e.len_1 a) _ (sym (length-big_endian e.len_1 a))

      both : drop (e.len_1 + e.len_2) whole ≡ queue
      both =
          ap (drop (e.len_1 + e.len_2))
            (sym (append_assoc (big_endian e.len_1 a) (big_endian e.len_2 b) queue))
          ∙ drop-append_at (e.len_1 + e.len_2) (big_endian e.len_1 a ++ big_endian e.len_2 b) queue
              (omega (
                arith,
                length-append (big_endian e.len_1 a) (big_endian e.len_2 b),
                length-big_endian e.len_1 a,
                length-big_endian e.len_2 b,
              ))

abbrev Width : ℕ → Type 0
Width n = (n ≡ 1) ⊎ ((n ≡ 2) ⊎ ((n ≡ 4) ⊎ (n ≡ 8)))

copy_entry :
    (n m : ℕ)
    → Width n
    → Width m
    → prototab (copy_cmd n m % 256) ≡ record { kind = copy; immediate = 0; len_1 = n; len_2 = m }
unfolding prototab copy_cmd
copy_entry n m h k = ground arith

literal_entry_short :
    (len : ℕ)
    → 0 < len
    → len ≤ 64
    → prototab (literal_cmd len % 256)
      ≡ record { kind = literal; immediate = len; len_1 = 0; len_2 = 0 }
unfolding prototab literal_cmd literal_param_len
literal_entry_short len pos short = ground arith

literal_entry_long :
    (len : ℕ)
    → 64 < len
    → len < 2 ^ 31
    → prototab (literal_cmd len % 256)
      ≡ record { kind = literal; immediate = 0; len_1 = literal_param_len len; len_2 = 0 }
unfolding prototab literal_cmd literal_param_len int_width
literal_entry_long len long small = ground arith

param_len_short : (len : ℕ) → len ≤ 64 → literal_param_len len ≡ 0
unfolding literal_param_len
param_len_short len h = ground arith

param_len_long : (len : ℕ) → 64 < len → len < 2 ^ 31 → 0 < literal_param_len len
unfolding literal_param_len int_width
param_len_long len h k = ground arith

param_len-fits : (len : ℕ) → 64 < len → len < 2 ^ 31 → len < 256 ^ literal_param_len len
unfolding literal_param_len int_width
param_len-fits len h k = ground arith

int_width_pos : (v : ℕ) → 0 < int_width v
unfolding int_width
int_width_pos v = ground arith

module _ (basis : List ℕ) where
  run_literal :
      (len other : ℕ) (queue : List ℕ)
      → 0 < len
      → len < 2 ^ 31
      → run_spec basis (commands_spec basis) literal len other queue
        ≡ literal_spec (commands_spec basis) len queue
  unfolding run_spec
  run_literal len other queue pos small =
      rw (ne→== len 0 (omega arith), lt→ltb len (2 ^ 63) (omega arith)) refl

  commands-literal_short :
      (len : ℕ) (queue : List ℕ)
      → 0 < len
      → len ≤ 64
      → commands_spec basis (literal_bytes len ++ queue)
        ≡ literal_spec (commands_spec basis) len queue
  unfolding literal_bytes entry_spec param1_spec
  commands-literal_short len queue pos short =
      ap (λ n. commands_spec basis ((literal_cmd len % 256) ∷ (big_endian n len ++ queue)))
        none_needed
      ∙ commands_spec-cons basis (literal_cmd len % 256) queue
      ∙ ap (λ e. entry_spec basis (commands_spec basis) e queue) (literal_entry_short len pos short)
      ∙ rw (le→leb 0 (length queue) (omega arith)) (run_literal len _ queue pos (omega arith))
    where
      none_needed : literal_param_len len ≡ 0
      none_needed = param_len_short len short

  commands-literal_long :
      (len : ℕ) (queue : List ℕ)
      → 64 < len
      → len < 2 ^ 31
      → commands_spec basis (literal_bytes len ++ queue)
        ≡ literal_spec (commands_spec basis) len queue
  unfolding literal_bytes
  commands-literal_long len queue long small =
      commands_spec-cons basis (literal_cmd len % 256)
        (big_endian (literal_param_len len) len ++ queue)
      ∙ ap
          (λ e.
            entry_spec basis (commands_spec basis) e
              (big_endian (literal_param_len len) len ++ queue))
          (literal_entry_long len long small)
      ∙ entry_spec-big_endian basis e len 0 queue (param_len_long len long small)
      ∙ rw (mod-eq_of_lt (param_len-fits len long small))
          (run_literal len 0 queue (omega arith) small)
    where
      e : Entry
      e = record { kind = literal; immediate = 0; len_1 = literal_param_len len; len_2 = 0 }

  -- The command that emit.c encodes for a copy, with a position below 2^63 and a length from 1
  -- below 2^63, is read back, in front of any bytes, as that copy.
  pub commands-copy_bytes :
      (pos len : ℕ) (queue : List ℕ)
      → pos < 2 ^ 63
      → 0 < len
      → len < 2 ^ 63
      → commands_spec basis (copy_bytes pos len ++ queue)
        ≡ copy_spec basis (commands_spec basis) pos len queue
  unfolding copy_bytes run_spec
  commands-copy_bytes pos len queue small_pos more small_len =
      commands_spec-cons basis (copy_cmd n m % 256)
        ((big_endian n pos ++ big_endian m len) ++ queue)
      ∙ ap₂ (λ e q. entry_spec basis (commands_spec basis) e q)
          (copy_entry n m (int_width_cases pos) (int_width_cases len))
          (append_assoc (big_endian n pos) (big_endian m len) queue)
      ∙ entry_spec-big_endian basis e pos len queue (int_width_pos pos)
      ∙ rw
          (
            mod-eq_of_lt (int_width-fits pos small_pos),
            mod-eq_of_lt (int_width-fits len small_len),
            ne→== len 0 (omega arith),
            lt→ltb len (2 ^ 63) small_len,
            lt→ltb pos (2 ^ 63) small_pos,
          )
          refl
    where
      n : ℕ
      n = int_width pos

      m : ℕ
      m = int_width len

      e : Entry
      e = record { kind = copy; immediate = 0; len_1 = n; len_2 = m }

  pub commands-end : (queue : List ℕ) → commands_spec basis (0 ∷ queue) ≡ ([], done)
  unfolding prototab entry_spec run_spec
  commands-end queue =
      commands_spec-cons basis 0 queue ∙ rw (le→leb 0 (length queue) (omega arith)) refl

  pub patch_spec-header :
      (queue : List ℕ)
      → patch_spec basis (big_endian 4 delta_magic ++ queue) ≡ commands_spec basis queue
  unfolding patch_spec
  patch_spec-header queue =
      rw (le→leb 4 (length (big_endian 4 delta_magic ++ queue)) (omega arith)) refl

  -- The command that emit.c encodes for a literal of 1 to 2^31 - 1 bytes is read back, in front of
  -- any bytes, as a literal of that length.
  pub commands-literal_bytes :
      (len : ℕ) (queue : List ℕ)
      → 0 < len
      → len < 2 ^ 31
      → commands_spec basis (literal_bytes len ++ queue)
        ≡ literal_spec (commands_spec basis) len queue
  commands-literal_bytes len queue pos small = elim (dec_le len 64) [
    | yes short ↦ commands-literal_short len queue pos short
    | no long ↦ commands-literal_long len queue (omega arith) small
  ]
