-- ===== src/Mksum/Whole.antt =====
-- src/mksum.c: a whole signature. With the whole file in the caller's buffer and room for all of the
-- signature, rs_job_iter ends with RS_DONE and has written it.
use librsync.Prelude.{
  ℕ, suc, ◌+◌, ◌%◌, u32, ◌^◌, ◌≤◌, ◌<◌, ◌≡◌, refl, ap, ◌∙◌, arith, true, sign_extend, if◌then◌else◌,
}
use librsync.Prelude.{List, ◌++◌, length, length-append, none, some}
use librsync.Result.{RsResult, done, is_done}
use librsync.Io.{Io, new_io}
use librsync.Tube.Write.{flushed}
use librsync.Job.{Round, again, job_check_result, job_call, job_round, job_work, job_iter}
use librsync.Sumset.{Signature, signature_init}
use librsync.Sumset.Blocks.{Sized, made-Sized}
use librsync.Mksum.{s_generate, SigJob, sig_call, sig_begin, sig_s_header, sig_send_header}
use librsync.Mksum.Rounds.{Going, Finished, run}
use librsync.Mksum.Spec.{blocks_of, all_sums, header_bytes, sig_spec}
use librsync.Job.Rounds.{job_round-flush, job_work-again, job_iter-done}
use librsync.Netint.{squirt_n4}
use librsync.Netint.Bytes.{big_endian}
use librsync.Netint.Squirt.{squirt_n4_lem}

-- The first round sends the header.
header_round :
    (blake2 : List ℕ → List ℕ) (block_len strong_len magic room : ℕ) (file : List ℕ)
    (sig : Signature)
    → signature_init magic (sign_extend (block_len % u32)) (sign_extend (strong_len % u32)) 0
      ≡ (done, some sig)
    → (j : SigJob) × (job_round
          (sig_call blake2)
          (sig_begin block_len strong_len magic (new_io file true room))
        ≡ again j)
      × Going sig file (header_bytes sig) j
      × (j.io.write_buf ≡ header_bytes sig)
      × (j.io.avail_out ≡ room)
unfolding job_call job_check_result sig_call sig_begin sig_s_header sig_send_header new_io
    header_bytes
header_round blake2 block_len strong_len magic room file sig init = (
  after,
  job_round-flush (sig_call blake2) (sig_begin block_len strong_len magic (new_io file true room))
        refl (omega arith)
      ∙ ap (λ r. job_sent (sig_send_header r (sig_begin block_len strong_len magic start))) init
      ∙ ap (λ io. again (with_header io)) header_sent,
  record {
    valid = record { allocated = refl; inside = omega arith; unharmed = refl };
    eof = refl;
    idle = refl;
    unread = refl;
    sent = refl;
    state = refl;
    same_sig = refl;
  },
  refl,
  omega arith,
)
  where
    start : Io
    start = flushed (new_io file true room)

    job_sent : RsResult × SigJob → Round SigJob
    job_sent p =
        if is_done p.0 then again (record (p.1) { statefn = none }) else job_check_result p.0 p.1

    with_header : Io → SigJob
    with_header io = record (sig_begin block_len strong_len magic start) {
      io = io;
      statefn = some s_generate;
      stats = record ((sig_begin block_len strong_len magic start).stats) {
        block_len = sig.block_len;
      };
      vars = record ((sig_begin block_len strong_len magic start).vars) { signature = sig };
    }

    after : SigJob
    after = with_header (record start { write_buf = header_bytes sig })

    header_sent :
        squirt_n4 sig.strong_sum_len (squirt_n4 sig.block_len (squirt_n4 sig.magic start))
        ≡ record start { write_buf = header_bytes sig }
    header_sent =
        ap (λ io. squirt_n4 sig.strong_sum_len (squirt_n4 sig.block_len io))
          (squirt_n4_lem sig.magic start refl (omega arith))
        ∙ ap (squirt_n4 sig.strong_sum_len) (
            squirt_n4_lem sig.block_len (record start { write_buf = big_endian 4 sig.magic }) refl
              (omega arith))
        ∙ squirt_n4_lem sig.strong_sum_len
            (record start { write_buf = big_endian 4 sig.magic ++ big_endian 4 sig.block_len }) refl
            (omega arith)

-- A signature job with the whole file as its input, the end of the input told, and room for the
-- whole signature, whose arguments rs_signature_init takes and whose block length is below 2^31:
-- rs_job_iter returns RS_DONE, within three rounds more than the file has bytes, and has written
-- the header and the sums of all blocks, read the whole file and failed no assertion.
pub job_iter-sig_spec :
    (blake2 : List ℕ → List ℕ) (block_len strong_len magic room : ℕ) (file : List ℕ)
    (sig : Signature)
    → block_len < 2 ^ 31
    → signature_init magic (sign_extend (block_len % u32)) (sign_extend (strong_len % u32)) 0
      ≡ (done, some sig)
    → length (sig_spec blake2 sig file) ≤ room
    → (j : SigJob) × (job_iter
          (sig_call blake2)
          (length file + 3)
          (sig_begin block_len strong_len magic (new_io file true room))
        ≡ some (done, j))
      × Finished (sig_spec blake2 sig file) j
unfolding sig_spec
job_iter-sig_spec blake2 block_len strong_len magic room file sig small init enough =
    let (j, moves, going, waiting, room_left) =
      header_round blake2 block_len strong_len magic room file sig init in
    let (j', works, f) =
      run blake2 sig z.block_pos z.block_int z.strong_small (length file) file (header_bytes sig) j
        (omega arith) going
        (omega (
          arith,
          enough,
          ap length waiting,
          room_left,
          length-append (header_bytes sig) (all_sums blake2 sig (blocks_of sig.block_len file)),
        )) in
    (
      j',
      job_iter-done (sig_call blake2) (length file + 3) begun j'
          (ap (λ n. job_work (sig_call blake2) n begun) rounds
            ∙ job_work-again (sig_call blake2) (suc (suc (length file))) begun j moves
            ∙ works)
          f.all_read,
      f,
    )
  where
    begun : SigJob
    begun = sig_begin block_len strong_len magic (new_io file true room)

    rounds : length file + 3 ≡ suc (suc (suc (length file)))
    rounds = omega arith

    z : Sized sig
    z =
        made-Sized magic (sign_extend (block_len % u32)) (sign_extend (strong_len % u32)) 0 sig
          (ground (arith, small)) init
