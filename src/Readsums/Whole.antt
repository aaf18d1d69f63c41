-- ===== src/Readsums/Whole.antt =====
-- src/readsums.c: a whole signature file, header and blocks.
use librsync.Prelude.{
  ℕ, suc, ◌+◌, ◌*◌, ◌^◌, ◌≤◌, ◌<◌, ◌≡◌, refl, sym, ap, ◌∙◌, arith, true, false, u32, IsByte, All,
  sign_extend, if◌then◌else◌, ltb, is_neg32, ◌||◌, ◌==◌,
}
use librsync.Prelude.{List, ◌++◌, length, Option, some, map}
use librsync.Result.{RsResult, done, corrupt}
use librsync.Io.{new_io}
use librsync.Netint.Bytes.{big_endian, big_endian-IsByte, All-append}
use librsync.Job.{again, job_check_result, job_call, job_round, job_work, job_iter}
use librsync.Job.Rounds.{job_work-again, job_iter-done}
use librsync.Sumset.{Signature, signature_init}
use librsync.Sumset.Blocks.{Sized, made-Sized}
use librsync.Sumset.Growth.{Growing, made-Growing}
use librsync.Readsums.{
  LoadState, s_magic, s_blocklen, s_stronglen, s_weak, LoadVars, LoadJob, go_to, loadsig_call,
  loadsig_begin, loadsig_start, loadsig_s_stronglen, loadsig_got_stronglen, loadsig_s_blocklen,
  loadsig_got_blocklen, loadsig_s_magic, loadsig_got_magic,
}
use librsync.Readsums.Read.{read_int}
use librsync.Readsums.Load.{Going, calls, answered, Loaded, blocks_run}
use librsync.Readsums.Spec.{Sums, IsSums, sums_bytes, stored, sums_bytes-IsByte}
use mathlib.Core.Path.{ap₂, subst}

-- The bytes of a signature file.
unfoldable pub sig_bytes : ℕ → ℕ → ℕ → List Sums → List ℕ
sig_bytes magic block_len strong_len sums =
    big_endian 4 magic ++ (big_endian 4 block_len ++ (big_endian 4 strong_len ++ sums_bytes sums))

-- A round of the header: the job goes on to state `f` with the fields `vars`.
record HeaderRound (f : LoadState) (rest : List ℕ) (vars : LoadVars) (j : LoadJob) : Type 0 where
  next : LoadJob
  moves : job_round loadsig_call j ≡ again next
  going : Going f rest next
  same_vars : next.vars ≡ vars

module _ (v : ℕ) (rest : List ℕ) (j : LoadJob) (small : v < u32) (bytes : All IsByte rest) where
  magic_round :
      Going s_magic (big_endian 4 v ++ rest) j
      → HeaderRound s_blocklen rest (record (j.vars) { sig_magic = v }) j
  unfolding loadsig_call loadsig_s_magic loadsig_got_magic job_call job_check_result go_to
  magic_round g =
      let i = read_int v rest j.io small bytes g.reading in
      record {
        next = record j {
          io = i.after;
          statefn = some s_blocklen;
          vars = record (j.vars) { sig_magic = v };
        };
        moves = calls j g ∙ ap (λ r. answered (loadsig_got_magic r j)) i.reads;
        going = record { reading = i.reading; state = refl };
        same_vars = refl;
      }

  blocklen_round :
      Going s_blocklen (big_endian 4 v ++ rest) j
      → 0 < v
      → v < 2 ^ 31
      → HeaderRound s_stronglen rest (record (j.vars) { sig_block_len = v }) j
  unfolding loadsig_call loadsig_s_blocklen loadsig_got_blocklen job_call job_check_result go_to
  blocklen_round g pos positive =
      let i = read_int v rest j.io small bytes g.reading in
      record {
        next = record j {
          io = i.after;
          statefn = some s_stronglen;
          vars = record (j.vars) { sig_block_len = v };
          stats = record (j.stats) { block_len = v };
        };
        moves =
            calls j g
            ∙ ap (λ r. answered (loadsig_got_blocklen r j)) i.reads
            ∙ ap
                (λ b. answered (
                  if b
                  then (corrupt, record j { io = i.after })
                  else go_to s_stronglen (record j {
                    io = i.after;
                    vars = record (j.vars) { sig_block_len = v };
                    stats = record (j.stats) { block_len = v };
                  })))
                test;
        going = record { reading = i.reading; state = refl };
        same_vars = refl;
      }
    where
      test : ((v == 0) || is_neg32 v) ≡ false
      test = ground arith

  stronglen_round :
      (sig : Signature)
      → Going s_stronglen (big_endian 4 v ++ rest) j
      → v ≤ 32
      → signature_init j.vars.sig_magic
          (sign_extend j.vars.sig_block_len)
          (sign_extend v)
          j.vars.sig_fsize
        ≡ (done, some sig)
      → HeaderRound s_weak rest (record (j.vars) { sig_strong_len = v; signature = sig }) j
  unfolding loadsig_call loadsig_s_stronglen loadsig_got_stronglen loadsig_start job_call
      job_check_result go_to
  stronglen_round sig g few init =
      let i = read_int v rest j.io small bytes g.reading in
      record {
        next = record j {
          io = i.after;
          statefn = some s_weak;
          vars = record (j.vars) { sig_strong_len = v; signature = sig };
        };
        moves =
            calls j g
            ∙ ap (λ r. answered (loadsig_got_stronglen r j)) i.reads
            ∙ ap₂
                (λ b o. answered (
                  if b
                  then (corrupt, record j { io = i.after })
                  else loadsig_start o
                      (record j { io = i.after; vars = record (j.vars) { sig_strong_len = v } })))
                test init;
        going = record { reading = i.reading; state = refl };
        same_vars = refl;
      }
    where
      test : (is_neg32 v || ltb 32 v) ≡ false
      test = ground arith

begin-Going :
    (magic block_len strong_len room : ℕ) (sums : List Sums)
    → Going s_magic
        (sig_bytes magic block_len strong_len sums)
        (loadsig_begin (new_io (sig_bytes magic block_len strong_len sums) true room))
unfolding loadsig_begin new_io
begin-Going magic block_len strong_len room sums = record {
  reading = record {
    valid = record { allocated = refl; inside = omega arith; unharmed = refl };
    eof = refl;
    empty = refl;
    idle = refl;
    unread = refl;
  };
  state = refl;
}

-- rs_loadsig of a whole signature file of at most 2^28 blocks in one buffer, with a block length
-- that is a positive int and strong sums of 32 bytes at most, whose numbers rs_signature_init
-- takes, a magic number and weak sums below 2^32, and strong sums that are as many bytes as the
-- signature says: rs_job_iter returns RS_DONE within 2 * n + 5 rounds for n blocks, has read the
-- whole file and failed no assertion, and the signature has the numbers of rs_signature_init and
-- one entry for each block in their order, with the weak sum of the file, mixed by mix32 for a
-- rollsum, and the strong sum of the file; it passes rs_signature_check.
pub job_iter-Loaded :
    (magic block_len strong_len room : ℕ) (sums : List Sums) (sig : Signature)
    → magic < u32
    → 0 < block_len
    → block_len < 2 ^ 31
    → strong_len ≤ 32
    → signature_init magic (sign_extend block_len) (sign_extend strong_len) 0 ≡ (done, some sig)
    → All (IsSums sig.strong_sum_len) sums
    → length sums ≤ 2 ^ 28
    → (j : LoadJob) × (job_iter loadsig_call
          (length sums * 2 + 5)
          (loadsig_begin (new_io (sig_bytes magic block_len strong_len sums) true room))
        ≡ some (done, j))
      × Loaded sig sums j
      × (j.vars.signature.block_sigs ≡ map (stored sig) sums)
unfolding loadsig_begin sig_bytes
job_iter-Loaded magic block_len strong_len room sums sig m_small b_pos b_small few init all count =
    let (j, works, loaded0) =
      blocks_run sums three.next three.going
        (subst (λ s. All (IsSums s.strong_sum_len) sums) (sym same_sig) all)
        (omega (arith, z.strong_pos, ap (λ s. s.strong_sum_len) same_sig))
        (omega (arith, z.strong_small, ap (λ s. s.strong_sum_len) same_sig))
        (subst Growing (sym same_sig) (
          made-Growing magic (sign_extend block_len) (sign_extend strong_len) sig
            (ground (arith, b_small)) init))
        (omega (arith, ap (λ s. s.count) same_sig, z.none_counted, count)) in
    let loaded = subst (λ s. Loaded s sums j) same_sig loaded0 in
    (
      j,
      job_iter-done loadsig_call (length sums * 2 + 5) begun j
          (ap (λ n. job_work loadsig_call n begun) rounds
            ∙ job_work-again loadsig_call (suc (suc (length sums * 2 + 2))) begun one.next one.moves
            ∙ job_work-again loadsig_call (suc (length sums * 2 + 2)) one.next two.next two.moves
            ∙ job_work-again loadsig_call (length sums * 2 + 2) two.next three.next three.moves
            ∙ works)
          loaded.reading.unread,
      loaded,
      loaded.has.blocks ∙ ap (λ l. l ++ map (stored sig) sums) z.no_blocks_yet,
    )
  where
    begun : LoadJob
    begun = loadsig_begin (new_io (sig_bytes magic block_len strong_len sums) true room)

    rounds : length sums * 2 + 5 ≡ suc (suc (suc (length sums * 2 + 2)))
    rounds = omega arith

    z : Sized sig
    z =
        made-Sized magic (sign_extend block_len) (sign_extend strong_len) 0 sig
          (ground (arith, b_small)) init

    bytes : All IsByte (sums_bytes sums)
    bytes = sums_bytes-IsByte sig.strong_sum_len sums all

    after_two : All IsByte (big_endian 4 strong_len ++ sums_bytes sums)
    after_two =
        All-append IsByte (big_endian 4 strong_len) (sums_bytes sums)
          (big_endian-IsByte 4 strong_len) bytes

    after_one : All IsByte (big_endian 4 block_len ++ (big_endian 4 strong_len ++ sums_bytes sums))
    after_one =
        All-append IsByte (big_endian 4 block_len) (big_endian 4 strong_len ++ sums_bytes sums)
          (big_endian-IsByte 4 block_len) after_two

    init_of : LoadVars → RsResult × Option Signature
    init_of v =
        signature_init v.sig_magic (sign_extend v.sig_block_len) (sign_extend strong_len)
          v.sig_fsize

    with_block_len : LoadVars → LoadVars
    with_block_len v = record v { sig_block_len = block_len }

    one :
        HeaderRound s_blocklen
          (big_endian 4 block_len ++ (big_endian 4 strong_len ++ sums_bytes sums))
          (record (begun.vars) { sig_magic = magic })
          begun
    one =
        magic_round magic _ begun m_small after_one
          (begin-Going magic block_len strong_len room sums)

    two :
        HeaderRound s_stronglen
          (big_endian 4 strong_len ++ sums_bytes sums)
          (record (one.next.vars) { sig_block_len = block_len })
          one.next
    two =
        blocklen_round block_len _ one.next (omega (arith, b_small)) after_two one.going b_pos
          b_small

    three :
        HeaderRound s_weak
          (sums_bytes sums)
          (record (two.next.vars) { sig_strong_len = strong_len; signature = sig })
          two.next
    three =
        stronglen_round strong_len _ two.next (omega (arith, few)) bytes sig two.going few
          (ap init_of (two.same_vars ∙ ap with_block_len one.same_vars) ∙ init)

    same_sig : three.next.vars.signature ≡ sig
    same_sig = ap (λ v. v.signature) three.same_vars
