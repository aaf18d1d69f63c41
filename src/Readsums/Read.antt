-- ===== src/Readsums/Read.antt =====
-- src/readsums.c: the reads of a job that loads a signature, from a queue at whose end the input ends.
use librsync.Prelude.{
  ℕ, ◌^◌, ◌≤◌, ◌<◌, ◌≡◌, refl, sym, ap, ◌∙◌, arith, true, u32, IsByte, All, if◌then◌else◌, le→leb,
}
use librsync.Prelude.{List, [], ◌++◌, length, take, drop, length-append}
use librsync.Prelude.Slices.{take-append_at, drop-append_at}
use librsync.Result.{RsResult, done, input_ended, blocked}
use librsync.Io.{Io}
use librsync.Scoop.{scoop_read}
use librsync.Scoop.Queue.{input, IsValid, outputs}
use librsync.Scoop.Readahead.{peek-done, peek_short}
use librsync.Scoop.Read.{after_read, ReadAway, scoop_read-ReadAway}
use librsync.Netint.{suck_n4}
use librsync.Netint.Bytes.{
  big_endian, big_endian-IsByte, from_big_endian, from_big_endian-big_endian, All-append,
}
use librsync.Netint.RoundTrip.{Sucked, suck_n4-Sucked}
use mathlib.Core.Path.{ap₂, subst}

-- The stream of a job that writes nothing and whose input ends with `queue`.
pub record Reading (queue : List ℕ) (io : Io) : Type 0 where
  pub valid : IsValid io
  pub eof : io.eof_in ≡ true
  pub empty : io.write_buf ≡ []
  pub idle : io.copy_len ≡ 0
  pub unread : input io ≡ queue

same_outputs-Reading :
    (io io' : Io) (queue queue' : List ℕ)
    → Reading queue io
    → outputs io' ≡ outputs io
    → IsValid io'
    → input io' ≡ queue'
    → Reading queue' io'
same_outputs-Reading io io' queue queue' r same v e = record {
  valid = v;
  eof = ap (λ t. t.0) same ∙ r.eof;
  empty = ap (λ t. t.3) same ∙ r.empty;
  idle = ap (λ t. t.4) same ∙ r.idle;
  unread = e;
}

-- An int read off the front of the queue.
pub record ReadInt (v : ℕ) (rest : List ℕ) (io : Io) : Type 0 where
  pub after : Io
  pub reads : suck_n4 io ≡ (done, v, after)
  pub reading : Reading rest after

pub read_int :
    (v : ℕ) (rest : List ℕ) (io : Io)
    → v < u32
    → All IsByte rest
    → Reading (big_endian 4 v ++ rest) io
    → ReadInt v rest io
read_int v rest io small bytes r = record {
  after = (suck_n4 io).2;
  reads = ap₂ (λ a b. (a, b, (suck_n4 io).2)) result value;
  reading =
      same_outputs-Reading io (suck_n4 io).2 (big_endian 4 v ++ rest) rest r s.same_outputs
        s.still_valid
        (s.rest_of_input
          ∙ ap (λ b. if b then drop 4 (input io) else input io) (le→leb 4 _ enough)
          ∙ ap (drop 4) r.unread
          ∙ drop-append_at 4 (big_endian 4 v) rest refl);
}
  where
    s : Sucked 4 io (suck_n4 io).0 (suck_n4 io).1 (suck_n4 io).2
    s = suck_n4-Sucked io r.valid (
        subst (All IsByte) (sym r.unread)
          (All-append IsByte (big_endian 4 v) rest (big_endian-IsByte 4 v) bytes))

    enough : 4 ≤ length (input io)
    enough = omega (arith, ap length r.unread, length-append (big_endian 4 v) rest)

    result : (suck_n4 io).0 ≡ done
    result = s.answer ∙ ap (λ p. p.0) (peek-done 4 (input io) io.eof_in enough)

    value : (suck_n4 io).1 ≡ v
    value =
        s.value enough
        ∙ ap (λ l. from_big_endian 0 l)
            (ap (take 4) r.unread ∙ take-append_at 4 (big_endian 4 v) rest refl)
        ∙ from_big_endian-big_endian 4 v
        ∙ omega (arith, small)

-- The end of the queue.
pub record ReadEnd (io : Io) : Type 0 where
  pub after : Io
  pub val : ℕ
  pub reads : suck_n4 io ≡ (input_ended, val, after)
  pub reading : Reading [] after

pub read_end : (io : Io) → Reading [] io → ReadEnd io
read_end io r = record {
  after = (suck_n4 io).2;
  val = (suck_n4 io).1;
  reads = ap (λ a. (a, (suck_n4 io).1, (suck_n4 io).2)) result;
  reading =
      same_outputs-Reading io (suck_n4 io).2 [] [] r s.same_outputs s.still_valid
        (s.rest_of_input ∙ ap (after_read 4) r.unread);
}
  where
    s : Sucked 4 io (suck_n4 io).0 (suck_n4 io).1 (suck_n4 io).2
    s = suck_n4-Sucked io r.valid (subst (All IsByte) (sym r.unread) tt)

    result : (suck_n4 io).0 ≡ input_ended
    result =
        s.answer
        ∙ ap (λ p. p.0) (peek_short 4 (input io) io.eof_in (omega (arith, ap length r.unread)))
        ∙ ap (λ b. if b then input_ended else blocked) r.eof

-- A strong sum read off the front of the queue.
pub record ReadBytes (bytes rest : List ℕ) (io : Io) (r : RsResult × List ℕ × Io) : Type 0 where
  pub after : Io
  pub reads : r ≡ (done, bytes, after)
  pub reading : Reading rest after

pub read_bytes :
    (n : ℕ) (bytes rest : List ℕ) (io : Io)
    → 0 < n
    → n ≤ 2 ^ 63
    → length bytes ≡ n
    → Reading (bytes ++ rest) io
    → ReadBytes bytes rest io (scoop_read n io)
read_bytes n bytes rest io pos small len r = record {
  after = (scoop_read n io).2;
  reads =
      ap (λ p. (p.0, p.1, (scoop_read n io).2))
        (a.answer
          ∙ peek-done n (input io) io.eof_in enough
          ∙ ap (λ l. (done, l)) (ap (take n) r.unread ∙ take-append_at n bytes rest (sym len)));
  reading =
      same_outputs-Reading io (scoop_read n io).2 (bytes ++ rest) rest r a.same_outputs
        a.still_valid
        (a.rest_of_input
          ∙ ap (λ b. if b then drop n (input io) else input io) (le→leb n _ enough)
          ∙ ap (drop n) r.unread
          ∙ drop-append_at n bytes rest (sym len));
}
  where
    a : ReadAway n io (scoop_read n io)
    a = scoop_read-ReadAway n io r.valid pos small

    enough : n ≤ length (input io)
    enough = omega (arith, ap length r.unread, length-append bytes rest)
