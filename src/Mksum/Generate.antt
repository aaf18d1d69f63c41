-- ===== src/Mksum/Generate.antt =====
-- src/mksum.c: rs_sig_s_generate reads the next block of the file and writes its sums.
use librsync.Prelude.{
  ℕ, ◌+◌, ◌^◌, ◌≤◌, ◌<◌, ◌≡◌, refl, sym, ap, ◌∙◌, arith, true, leb, le→leb, lt→leb, dec_le,
  sign_extend, if◌then◌else◌,
}
use librsync.Prelude.{List, [], ◌∷◌, ◌++◌, length, take, drop, length-take}
use librsync.Prelude.Slices.{take-all, drop-all}
use librsync.Result.{RsResult, done, blocked, running, input_ended}
use librsync.Io.{Io}
use librsync.Scoop.{scoop_read, scoop_read_rest}
use librsync.Scoop.Queue.{input, IsValid, outputs}
use librsync.Scoop.Readahead.{peek-done, peek_short}
use librsync.Scoop.Read.{
  ReadAway, scoop_read-ReadAway, ReadRest, peek_rest, scoop_read_rest-ReadRest,
}
use librsync.Tube.{tube_write}
use librsync.Tube.Write.{tube_write_lem}
use librsync.Netint.{squirt_n4}
use librsync.Netint.Bytes.{big_endian, length-big_endian}
use librsync.Netint.Squirt.{squirt_n4_lem, sign_extend_small}
use librsync.Sumset.{signature_calc_weak_sum, signature_calc_strong_sum}
use librsync.Mksum.{SigJob, sig_do_block, sig_got, sig_read, sig_s_generate}
use librsync.Mksum.Spec.{block_sums}
use mathlib.Core.Path.{ap₂, subst}

-- The next `n` bytes of a queue at whose end the input ends, or all that it has.
pub record GotBlock (n : ℕ) (io : Io) (r : RsResult × List ℕ × Io) : Type 0 where
  rest : Io
  read : r ≡ (if leb (length (input io)) 0 then input_ended else done, take n (input io), rest)
  rest_of_input : input rest ≡ drop n (input io)
  still_valid : IsValid rest
  same_outputs : outputs rest ≡ outputs io

pair_left :
    {r r' : RsResult} {l l' : List ℕ}
    → ◌≡◌ {A = RsResult × List ℕ} (r, l) (r', l')
    → (r ≡ r') × (l ≡ l')
pair_left e = (ap (λ p. p.0) e, ap (λ p. p.1) e)

got_whole :
    (n : ℕ) (io : Io) (r : RsResult × List ℕ × Io)
    → 0 < n
    → n ≤ length (input io)
    → ReadAway n io r
    → GotBlock n io (sig_read r)
unfolding sig_read
got_whole n io (r, bytes, io') pos enough a =
    let (e1, e2) = pair_left (a.answer ∙ peek-done n (input io) io.eof_in enough) in
    rw (e1, e2)
      (record {
        rest = io';
        read =
            ap (λ b. (if b then input_ended else done, take n (input io), io'))
              (sym (lt→leb _ _ (omega arith)));
        rest_of_input =
            a.rest_of_input
            ∙ ap (λ b. if b then drop n (input io) else input io) (le→leb n _ enough);
        still_valid = a.still_valid;
        same_outputs = a.same_outputs;
      })

got_rest_lem :
    (n : ℕ) (io io1 : Io) (queue : List ℕ) (r : RsResult × List ℕ × Io)
    → input io ≡ queue
    → input io1 ≡ queue
    → length queue < n
    → io1.eof_in ≡ true
    → outputs io1 ≡ outputs io
    → ReadRest io1 r
    → GotBlock n io r
unfolding peek_rest
got_rest_lem n io io1 [] (r, bytes, io') q q1 short eof same a =
    let (e1, e2) = pair_left (a.answer ∙ ap₂ peek_rest q1 eof) in
    record {
      rest = io';
      read =
          ap₂ (λ r l. (r, l, io'))
            (e1 ∙ ap (λ l. if leb (length l) 0 then input_ended else done) (sym q))
            (e2 ∙ sym (take-all n [] (omega arith)) ∙ ap (take n) (sym q));
      rest_of_input = a.nothing_left ∙ sym (ap (drop n) q ∙ drop-all n [] (omega arith));
      still_valid = a.still_valid;
      same_outputs = a.same_outputs ∙ same;
    }
got_rest_lem n io io1 (b ∷ queue) (r, bytes, io') q q1 short eof same a =
    let (e1, e2) = pair_left (a.answer ∙ ap₂ peek_rest q1 eof) in
    record {
      rest = io';
      read =
          ap₂ (λ r l. (r, l, io'))
            (e1
              ∙ ap (λ t. if t then input_ended else done)
                  (sym (lt→leb (length (b ∷ queue)) 0 (omega arith)))
              ∙ ap (λ l. if leb (length l) 0 then input_ended else done) (sym q))
            (e2 ∙ sym (take-all n (b ∷ queue) (omega arith)) ∙ ap (take n) (sym q));
      rest_of_input = a.nothing_left ∙ sym (ap (drop n) q ∙ drop-all n (b ∷ queue) (omega arith));
      still_valid = a.still_valid;
      same_outputs = a.same_outputs ∙ same;
    }

got_rest :
    (n : ℕ) (io : Io) (r : RsResult × List ℕ × Io)
    → 0 < n
    → length (input io) < n
    → n ≤ 2 ^ 63
    → io.eof_in ≡ true
    → ReadAway n io r
    → GotBlock n io (sig_read r)
unfolding sig_read
got_rest n io (r, bytes, io') pos short small eof a =
    let (e1, e2) = pair_left (a.answer ∙ peek_short n (input io) io.eof_in short) in
    rw (e1 ∙ ap (λ b. if b then input_ended else blocked) eof) (
      got_rest_lem n io io' (input io) (scoop_read_rest io') refl same short
        (ap (λ t. t.0) a.same_outputs ∙ eof) a.same_outputs
        (scoop_read_rest-ReadRest io' a.still_valid (omega (arith, ap length same))))
  where
    same : input io' ≡ input io
    same = a.rest_of_input ∙ ap (λ b. if b then drop n (input io) else input io) (lt→leb n _ short)

sig_read-GotBlock :
    (n : ℕ) (io : Io)
    → IsValid io
    → 0 < n
    → n ≤ 2 ^ 63
    → io.eof_in ≡ true
    → GotBlock n io (sig_read (scoop_read n io))
sig_read-GotBlock n io v pos small eof = elim (dec_le n (length (input io))) [
  | yes enough ↦ got_whole n io (scoop_read n io) pos enough (scoop_read-ReadAway n io v pos small)
  | no short ↦
      got_rest n io (scoop_read n io) pos (omega arith) small eof
        (scoop_read-ReadAway n io v pos small)
]

-- What rs_sig_s_generate does where there is a block, of `n` bytes or what is left.
pub record BlockDone (blake2 : List ℕ → List ℕ) (n : ℕ) (j : SigJob) (r : RsResult × SigJob)
    : Type 0 where
  pub rest : Io
  pub returns : r ≡ (
    running,
    record j {
      io = record rest { write_buf = block_sums blake2 j.vars.signature (take n (input j.io)) };
      stats = record (j.stats) { sig_blocks = j.stats.sig_blocks + 1 };
    },
  )
  pub rest_of_input : input rest ≡ drop n (input j.io)
  pub still_valid : IsValid rest
  pub same_outputs : outputs rest ≡ outputs j.io

-- What it does at the end of the file.
pub record FileDone (j : SigJob) (r : RsResult × SigJob) : Type 0 where
  pub rest : Io
  pub returns : r ≡ (done, record j { io = rest })
  pub rest_of_input : input rest ≡ []
  pub still_valid : IsValid rest
  pub same_outputs : outputs rest ≡ outputs j.io

module _ (blake2 : List ℕ → List ℕ) (j : SigJob) (v : IsValid j.io) (eof : j.io.eof_in ≡ true)
    (pos : 0 < j.vars.signature.block_len) (small : j.vars.signature.block_len < 2 ^ 31) where
  got :
      GotBlock j.vars.signature.block_len j.io
        (sig_read (scoop_read (sign_extend j.vars.signature.block_len) j.io))
  got =
      subst (λ n. GotBlock j.vars.signature.block_len j.io (sig_read (scoop_read n j.io)))
        (sym (sign_extend_small j.vars.signature.block_len small))
        (sig_read-GotBlock j.vars.signature.block_len j.io v pos (omega arith) eof)

  pub sig_s_generate-FileDone : input j.io ≡ [] → FileDone j (sig_s_generate blake2 j)
  unfolding sig_s_generate sig_got
  sig_s_generate-FileDone e = record {
    rest = got.rest;
    returns =
        ap (λ r. sig_got blake2 r j)
          (got.read
            ∙ ap
                (λ l. (
                  if leb (length l) 0 then input_ended else done,
                  take j.vars.signature.block_len l,
                  got.rest,
                ))
                e);
    rest_of_input =
        got.rest_of_input
        ∙ ap (drop j.vars.signature.block_len) e
        ∙ drop-all j.vars.signature.block_len [] (omega arith);
    still_valid = got.still_valid;
    same_outputs = got.same_outputs;
  }

  pub sig_s_generate-BlockDone :
      0 < length (input j.io)
      → j.io.write_buf ≡ []
      → j.io.copy_len ≡ 0
      → j.vars.signature.strong_sum_len ≤ 32
      → BlockDone blake2 j.vars.signature.block_len j (sig_s_generate blake2 j)
  unfolding sig_s_generate sig_got sig_do_block block_sums
  sig_s_generate-BlockDone some_left empty idle few = record {
    rest = got.rest;
    returns =
        ap (λ r. sig_got blake2 r j)
          (got.read
            ∙ ap
                (λ b. (
                  if b then input_ended else done,
                  take j.vars.signature.block_len (input j.io),
                  got.rest,
                ))
                (lt→leb _ _ some_left))
        ∙ ap
            (λ io. (
              running,
              record j {
                io = io;
                stats = record (j.stats) { sig_blocks = j.stats.sig_blocks + 1 };
              },
            ))
            sent;
    rest_of_input = got.rest_of_input;
    still_valid = got.still_valid;
    same_outputs = got.same_outputs;
  }
    where
      block : List ℕ
      block = take j.vars.signature.block_len (input j.io)

      weak : List ℕ
      weak = big_endian 4 (signature_calc_weak_sum j.vars.signature block)

      strong : List ℕ
      strong =
          take j.vars.signature.strong_sum_len
            (signature_calc_strong_sum blake2 j.vars.signature block)

      no_bytes : got.rest.write_buf ≡ []
      no_bytes = ap (λ t. t.3) got.same_outputs ∙ empty

      no_copy : got.rest.copy_len ≡ 0
      no_copy = ap (λ t. t.4) got.same_outputs ∙ idle

      first :
          squirt_n4 (signature_calc_weak_sum j.vars.signature block) got.rest
          ≡ record (got.rest) { write_buf = weak }
      first =
          squirt_n4_lem (signature_calc_weak_sum j.vars.signature block) got.rest no_copy
            (omega (arith, ap length no_bytes))
          ∙ ap (λ l. record (got.rest) { write_buf = l ++ weak }) no_bytes

      sent :
          tube_write strong (squirt_n4 (signature_calc_weak_sum j.vars.signature block) got.rest)
          ≡ record (got.rest) { write_buf = weak ++ strong }
      sent =
          ap (tube_write strong) first
          ∙ tube_write_lem strong (record (got.rest) { write_buf = weak }) no_copy
              (omega (
                arith,
                few,
                length-big_endian 4 (signature_calc_weak_sum j.vars.signature block),
                length-take j.vars.signature.strong_sum_len
                    (signature_calc_strong_sum blake2 j.vars.signature block),
              ))
