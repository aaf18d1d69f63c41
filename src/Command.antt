-- ===== src/Command.antt =====
-- src/command.h and src/command.c: the kinds of delta command and their names.
use librsync.Prelude.{ℕ, ◌==◌, if◌then◌else◌, List, [], ◌∷◌, Option, none, some}
use Prim.Native.String.{String}

-- `RS_KIND_END` and so on.
pub data OpKind : Type 0 where
  end literal signature copy checksum reserved invalid : OpKind

-- The values of the enumeration.
unfoldable pub kind_code : OpKind → ℕ
kind_code end = 1000
kind_code literal = 1001
kind_code signature = 1002
kind_code copy = 1003
kind_code checksum = 1004
kind_code reserved = 1005
kind_code invalid = 1006

-- `rs_op_kind_names`, without the entry that marks its end.
abbrev pub op_kind_names : List (String × OpKind)
op_kind_names =
    ("END", end)
    ∷ ("COPY", copy)
    ∷ ("LITERAL", literal)
    ∷ ("SIGNATURE", signature)
    ∷ ("CHECKSUM", checksum)
    ∷ ("INVALID", invalid)
    ∷ []

unfoldable pub find_kind : OpKind → List (String × OpKind) → Option String
unfolding kind_code
find_kind kind [] = none
find_kind kind ((name, k) ∷ ks) =
    let rest = find_kind kind ks in if kind_code k == kind_code kind then some name else rest

-- `none` is NULL.
unfoldable pub op_kind_name : OpKind → Option String
unfolding find_kind
op_kind_name kind = find_kind kind op_kind_names
