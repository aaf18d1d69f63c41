-- ===== src/Text.antt =====
-- src/hex.c, src/isprefix.c and `rs_strerror` of src/msg.c. A C string is the list of its characters
-- before the NUL.
pub mod HexDigits
pub mod Prefix
use librsync.Prelude.{
  ℕ, ◌+◌, ◌/◌, ◌%◌, Bool, true, false, ◌==◌, if◌then◌else◌, List, [], ◌∷◌, get_or,
}
use librsync.Result.{
  RsResult, done, blocked, running, io_error, syntax_error, mem_error, input_ended, bad_magic,
}
use librsync.Result.{unimplemented, corrupt, internal_error}
use Prim.Native.String.{String}

-- "0123456789abcdef"
abbrev pub hex_chars : List ℕ
hex_chars = 48 ∷ 49 ∷ 50 ∷ 51 ∷ 52 ∷ 53 ∷ 54 ∷ 55 ∷ 56 ∷ 57 ∷ 97 ∷ 98 ∷ 99 ∷ 100 ∷ 101 ∷ 102 ∷ []

-- `rs_hexify` without the NUL that it ends with.
unfoldable pub hexify : List ℕ → List ℕ
hexify [] = []
hexify (b ∷ from) = get_or hex_chars (b / 16 % 16) 0 ∷ get_or hex_chars (b % 16) 0 ∷ hexify from

-- The NUL at the end of `iceberg` differs from any character of `tip`.
unfoldable pub isprefix : List ℕ → List ℕ → Bool
isprefix [] iceberg = true
isprefix (c ∷ tip) [] = false
isprefix (c ∷ tip) (d ∷ iceberg) = let rest = isprefix tip iceberg in if c == d then rest else false

unfoldable pub strerror : RsResult → String
strerror done = "OK"
strerror running = "still running"
strerror blocked = "blocked waiting for input or output buffers"
strerror bad_magic = "bad magic number at start of stream"
strerror input_ended = "unexpected end of input"
strerror corrupt = "stream corrupt"
strerror unimplemented = "unimplemented case"
strerror mem_error = "out of memory"
strerror io_error = "IO error"
strerror syntax_error = "bad command line syntax"
strerror internal_error = "library internal error"
strerror _ = "unexplained problem"
