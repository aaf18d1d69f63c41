-- ===== src/Emit/Delta.antt =====
-- A delta as a list of commands: the encoding that the functions of emit.c build, one call after the
-- other, and what it stands for.
use librsync.Prelude.{ℕ, ◌+◌, ◌^◌, ◌≤◌, ◌<◌, ◌≡◌, refl, ap, ◌∙◌, arith}
use librsync.Prelude.{List, [], ◌∷◌, ◌++◌, length, take, drop, append_assoc, length-append, le→leb}
use librsync.Prelude.Slices.{take-append_at, drop-append_at}
use librsync.Result.{done}
use librsync.Netint.Bytes.{big_endian}
use librsync.Patch.{delta_magic}
use librsync.Patch.Spec.{prepend, literal_spec, copy_spec, commands_spec, patch_spec}
use librsync.Emit.Commands.{literal_bytes, copy_bytes}
use librsync.Emit.Decode.{
  commands-literal_bytes, commands-copy_bytes, commands-end, patch_spec-header,
}

pub data DeltaCommand : Type 0 where
  new_bytes : List ℕ → DeltaCommand
  old_bytes : (pos len : ℕ) → DeltaCommand

-- The bytes of a command, the literal's own included.
unfoldable pub encode_command : DeltaCommand → List ℕ
encode_command (new_bytes bytes) = literal_bytes (length bytes) ++ bytes
encode_command (old_bytes pos len) = copy_bytes pos len

unfoldable pub encode_commands : List DeltaCommand → List ℕ
encode_commands [] = 0 ∷ []
encode_commands (c ∷ cs) = encode_command c ++ encode_commands cs

unfoldable pub encode_delta : List DeltaCommand → List ℕ
encode_delta cs = big_endian 4 delta_magic ++ encode_commands cs

-- Lengths that the types of emit.c hold, and copies that lie in the basis.
unfoldable pub Encodable : List ℕ → DeltaCommand → Type 0
Encodable basis (new_bytes bytes) = (0 < length bytes) × (length bytes < 2 ^ 31)
Encodable basis (old_bytes pos len) =
    (0 < len) × (pos + len ≤ length basis) × (pos < 2 ^ 63) × (len < 2 ^ 63)

unfoldable pub AllEncodable : List ℕ → List DeltaCommand → Type 0
AllEncodable basis [] = Unit {0}
AllEncodable basis (c ∷ cs) = Encodable basis c × AllEncodable basis cs

unfoldable pub meaning : List ℕ → DeltaCommand → List ℕ
meaning basis (new_bytes bytes) = bytes
meaning basis (old_bytes pos len) = take len (drop pos basis)

unfoldable pub meanings : List ℕ → List DeltaCommand → List ℕ
meanings basis [] = []
meanings basis (c ∷ cs) = meaning basis c ++ meanings basis cs

module _ (basis : List ℕ) where
  commands-encode_command :
      (c : DeltaCommand) (queue : List ℕ)
      → Encodable basis c
      → commands_spec basis (encode_command c ++ queue)
        ≡ prepend (meaning basis c) (commands_spec basis queue)
  unfolding encode_command meaning Encodable literal_spec copy_spec
  commands-encode_command (new_bytes bytes) queue (pos, small) =
      ap (commands_spec basis) (append_assoc (literal_bytes (length bytes)) bytes queue)
      ∙ commands-literal_bytes basis (length bytes) (bytes ++ queue) pos small
      ∙ rw
          (
            le→leb (length bytes) (length (bytes ++ queue))
                (omega (arith, length-append bytes queue)),
            take-append_at (length bytes) bytes queue refl,
            drop-append_at (length bytes) bytes queue refl,
          )
          refl
  commands-encode_command (old_bytes pos len) queue (more, inside, small_pos, small_len) =
      commands-copy_bytes basis pos len queue small_pos more small_len
      ∙ rw (le→leb (pos + len) (length basis) inside) refl

  commands-encode_commands :
      (cs : List DeltaCommand)
      → AllEncodable basis cs
      → commands_spec basis (encode_commands cs) ≡ (meanings basis cs, done)
  unfolding encode_commands AllEncodable meanings
  commands-encode_commands [] h = commands-end basis []
  commands-encode_commands (c ∷ cs) (h, hs) =
      commands-encode_command c (encode_commands cs) h
      ∙ ap (prepend (meaning basis c)) (commands-encode_commands cs hs)

  -- For any list of commands, literals of 1 to 2^31 - 1 bytes and copies that lie in the basis, the
  -- delta made of the header, the encodings of emit.c and the END command is read by patch_spec as
  -- the concatenated meaning of the commands, with result done.
  pub patch_spec-encode_delta :
      (cs : List DeltaCommand)
      → AllEncodable basis cs
      → patch_spec basis (encode_delta cs) ≡ (meanings basis cs, done)
  unfolding encode_delta
  patch_spec-encode_delta cs h =
      patch_spec-header basis (encode_commands cs) ∙ commands-encode_commands cs h
