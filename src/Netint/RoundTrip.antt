-- ===== src/Netint/RoundTrip.antt =====
-- src/netint.c: numbers read from the scoop, and the bytes of `rs_squirt_netint`.
use librsync.Prelude.{ℕ, zero, suc, ◌%◌, ◌^◌, ◌≤◌, ◌<◌, ◌≡◌, sym, ap, ◌∙◌, arith, u32}
use librsync.Prelude.{
  Bool, List, [], ◌∷◌, ◌++◌, length, length-take, length-append, take, drop, All, IsByte, le→leb,
  get_or,
}
use librsync.Prelude.Slices.{take-append_at, drop-append_at}
use librsync.Result.{RsResult, done}
use librsync.Io.{Io, assert_that}
use librsync.Scoop.Queue.{input, IsValid, outputs}
use librsync.Scoop.Readahead.{peek, peek-done}
use librsync.Scoop.Read.{after_read, scoop_read-ReadAway}
use librsync.Netint.{netint_bytes, netint_value}
use librsync.Netint.{suck_byte, suck_netint, suck_n4}
use librsync.Netint.Bytes.{big_endian, from_big_endian, length-big_endian, big_endian-IsByte}
use librsync.Netint.Bytes.{netint_bytes-big_endian, netint_value-big_endian}
use librsync.Netint.Bytes.{from_big_endian-big_endian, from_big_endian-lt, All-append}
use native.Mathlib.Nat.{mod-eq_of_lt}

-- The answer of the queue to a number of `len` bytes.
pub record Sucked (len : ℕ) (io : Io) (r : RsResult) (val : ℕ) (io' : Io) : Type 0 where
  pub answer : r ≡ (peek len (input io) io.eof_in).0
  pub value : len ≤ length (input io) → val ≡ from_big_endian 0 (take len (input io))
  pub rest_of_input : input io' ≡ after_read len (input io)
  pub still_valid : IsValid io'
  pub same_outputs : outputs io' ≡ outputs io

pub take-All {κ} : (P : ℕ → Type κ) (n : ℕ) (xs : List ℕ) → All P xs → All P (take n xs)
take-All P zero xs h = tt
take-All P (suc n) [] h = tt
take-All P (suc n) (x ∷ xs) (p, h) = (p, take-All P n xs h)

pub drop-All {κ} : (P : ℕ → Type κ) (n : ℕ) (xs : List ℕ) → All P xs → All P (drop n xs)
drop-All P zero xs h = h
drop-All P (suc n) [] h = tt
drop-All P (suc n) (x ∷ xs) (p, h) = drop-All P n xs h

peek_bytes :
    (len : ℕ) (queue : List ℕ) (eof : Bool) (r : RsResult) (bytes : List ℕ)
    → (r, bytes) ≡ peek len queue eof
    → len ≤ length queue
    → bytes ≡ take len queue
peek_bytes len queue eof r bytes e h = ap (λ t. t.1) (e ∙ peek-done len queue eof h)

-- `rs_suck_netint` of 1 to 8 bytes: the number that the front of the queue spells, or the reason why
-- there is none yet.
pub suck_netint-Sucked :
    (len : ℕ) (io : Io)
    → IsValid io
    → 0 < len
    → len ≤ 8
    → All IsByte (input io)
    → let (r, val, io') = suck_netint len io in Sucked len io r val io'
unfolding suck_netint assert_that
suck_netint-Sucked len io v pos small bytes =
    let r = scoop_read-ReadAway len io v pos (omega arith) in
    rw (le→leb len 8 small) (record {
      answer = ap (λ t. t.0) r.answer;
      value = λ enough.
          ap (netint_value 0) (peek_bytes len (input io) io.eof_in _ _ r.answer enough)
          ∙ netint_value-big_endian (take len (input io))
              (omega (arith, length-take len (input io))) (take-All IsByte len (input io) bytes);
      rest_of_input = r.rest_of_input;
      still_valid = r.still_valid;
      same_outputs = r.same_outputs;
    })

pub suck_n4-Sucked :
    (io : Io)
    → IsValid io
    → All IsByte (input io)
    → let (r, val, io') = suck_n4 io in Sucked 4 io r val io'
unfolding suck_n4
suck_n4-Sucked io v bytes =
    let s = suck_netint-Sucked 4 io v (omega arith) (omega arith) bytes in
    record {
      answer = s.answer;
      value = λ enough. mod-eq_of_lt (rw (s.value enough) (fits enough)) ∙ s.value enough;
      rest_of_input = s.rest_of_input;
      still_valid = s.still_valid;
      same_outputs = s.same_outputs;
    }
  where
    fits : 4 ≤ length (input io) → from_big_endian 0 (take 4 (input io)) < u32
    fits enough =
        from_big_endian-lt 0 4 0 (take 4 (input io)) (omega arith)
          (omega (arith, length-take 4 (input io))) (take-All IsByte 4 (input io) bytes)

pub suck_byte-Sucked :
    (io : Io) → IsValid io → let (r, val, io') = suck_byte io in Sucked 1 io r val io'
unfolding suck_byte
suck_byte-Sucked io v =
    let r = scoop_read-ReadAway 1 io v (omega arith) (omega arith) in
    record {
      answer = ap (λ t. t.0) r.answer;
      value = λ enough.
          ap (λ l. get_or l 0 0) (peek_bytes 1 (input io) io.eof_in _ _ r.answer enough)
          ∙ head (input io) enough;
      rest_of_input = r.rest_of_input;
      still_valid = r.still_valid;
      same_outputs = r.same_outputs;
    }
  where
    head : (q : List ℕ) → 1 ≤ length q → get_or (take 1 q) 0 0 ≡ from_big_endian 0 (take 1 q)
    head [] h = absurd (omega arith)
    head (x ∷ q) h = omega arith

-- The bytes that rs_squirt_netint sends for a value in 1 to 8 bytes, in front of any other bytes of
-- a valid stream, are read by rs_suck_netint as the value modulo the width; the other bytes stay in
-- the queue.
pub suck_netint-squirt :
    (n val : ℕ) (rest : List ℕ) (io : Io)
    → IsValid io
    → 0 < n
    → n ≤ 8
    → All IsByte rest
    → input io ≡ netint_bytes n val [] ++ rest
    → let (r, v, io') = suck_netint n io in
      (r ≡ done) × (v ≡ val % 256 ^ n) × (input io' ≡ rest) × IsValid io'
suck_netint-squirt n val rest io v pos small bytes front = (
  s.answer ∙ ap (λ t. t.0) (peek-done n (input io) io.eof_in enough),
  s.value enough ∙ ap (from_big_endian 0) taken ∙ from_big_endian-big_endian n val,
  s.rest_of_input ∙ rw (le→leb n (length (input io)) enough) dropped,
  s.still_valid,
)
  where
    front' : input io ≡ big_endian n val ++ rest
    front' = front ∙ ap (λ l. l ++ rest) (netint_bytes-big_endian n val small)

    enough : n ≤ length (input io)
    enough =
        rw front' (omega (arith, length-append (big_endian n val) rest, length-big_endian n val))

    taken : take n (input io) ≡ big_endian n val
    taken =
        ap (take n) front'
        ∙ take-append_at n (big_endian n val) rest (sym (length-big_endian n val))

    dropped : drop n (input io) ≡ rest
    dropped =
        ap (drop n) front'
        ∙ drop-append_at n (big_endian n val) rest (sym (length-big_endian n val))

    s : let (r, v, io') = suck_netint n io in Sucked n io r v io'
    s =
        suck_netint-Sucked n io v pos small
          (rw front' (All-append IsByte (big_endian n val) rest (big_endian-IsByte n val) bytes))
