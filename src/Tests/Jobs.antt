-- ===== src/Tests/Jobs.antt =====
-- Signature, loading and delta jobs for a file of three bytes.
use librsync.Prelude.{
  ℕ, ◌+◌, ◌*◌, ◌%◌, ◌≡◌, refl, arith, u32, true, List, [], ◌∷◌, length, none, some, replicate,
  IsByte, All, sign_extend,
}
use librsync.Result.{done}
use librsync.Io.{new_io}
use librsync.Job.{job_iter}
use librsync.Sumset.{
  Signature, signature_init, signature_size, sig_args, sig_args_after, sig_strong_len,
  max_strong_len, rec_block_len, min_strong_len, signature_calc_strong_sum, strongsum_kind,
}
use librsync.Checksum.{calc_strong_sum}
use librsync.Emit.{literal_param_len}
use librsync.Mksum.{SigJob, sig_call, sig_begin}
use librsync.Mksum.Spec.{sig_spec, header_bytes, all_sums, block_sums, blocks_of, blocks_from}
use librsync.Mksum.Rounds.{Finished}
use librsync.Mksum.Whole.{job_iter-sig_spec}
use librsync.Readsums.{LoadJob, loadsig_call, loadsig_begin}
use librsync.Readsums.Spec.{Sums, stored}
use librsync.Readsums.Load.{Loaded}
use librsync.Readsums.Whole.{sig_bytes, job_iter-Loaded}
use librsync.Readsums.RoundTrip.{entry_of, loadsig-sig}
use librsync.Sumset.Blocks.{SigValid}
use librsync.Prelude.{map, false}
use librsync.Delta.{delta_call, delta_begin}
use librsync.Delta.Whole.{slack_commands, SlackDelta, job_iter-SlackDelta}
use librsync.Emit.Delta.{encode_delta, encode_commands, encode_command}
use librsync.Emit.Commands.{literal_bytes}

abbrev file : List ℕ
file = 1 ∷ 2 ∷ 3 ∷ []

-- In place of BLAKE2, a sum of the same width.
abbrev sum32 : List ℕ → List ℕ
sum32 buf = (length buf % 256) ∷ replicate 31 0

abbrev signature : Signature
signature = record {
  magic = 0x72730147;
  block_len = 2;
  strong_sum_len = 8;
  count = 0;
  size = 0;
  block_sigs = [];
  hashtable = none;
  calc_strong_count = 0;
}

signature_made :
    signature_init 0x72730147 (sign_extend (2 % u32)) (sign_extend (8 % u32)) 0
    ≡ (done, some signature)
unfolding signature_init signature_size sig_args sig_args_after sig_strong_len max_strong_len
    rec_block_len min_strong_len
signature_made = refl

length-sig_spec : length (sig_spec sum32 signature file) ≡ 36
unfolding sig_spec header_bytes all_sums block_sums blocks_of blocks_from signature_calc_strong_sum
    calc_strong_sum strongsum_kind
length-sig_spec = refl

job_iter-sig_spec_example :
    (j : SigJob) × (job_iter
        (sig_call sum32)
        (3 + 3)
        (sig_begin 2 8 0x72730147 (new_io file true 36))
      ≡ some (done, j))
    × Finished (sig_spec sum32 signature file) j
job_iter-sig_spec_example =
    job_iter-sig_spec sum32 2 8 0x72730147 36 file signature (omega arith) signature_made
      (omega (arith, length-sig_spec))

abbrev sums : List Sums
sums = (7, replicate 8 1) ∷ (9, replicate 8 2) ∷ []

job_iter-Loaded_example :
    (j : LoadJob) × (job_iter loadsig_call
        (2 * 2 + 5)
        (loadsig_begin (new_io (sig_bytes 0x72730147 2 8 sums) true 0))
      ≡ some (done, j))
    × Loaded signature sums j
    × (j.vars.signature.block_sigs ≡ map (stored signature) sums)
job_iter-Loaded_example =
    job_iter-Loaded 0x72730147 2 8 0 sums signature (omega arith) (omega arith) (omega arith)
      (omega arith) signature_made (ground arith) (omega arith)

sum32_width : (buf : List ℕ) → (length (sum32 buf) ≡ 32) × All IsByte (sum32 buf)
sum32_width buf = (refl, ground arith)

length-blocks_of : length (blocks_of 2 file) ≡ 2
unfolding blocks_of blocks_from
length-blocks_of = refl

loadsig-sig_example :
    (j : SigJob) × (job_iter
        (sig_call sum32)
        (3 + 3)
        (sig_begin 2 8 0x72730147 (new_io file true 36))
      ≡ some (done, j))
    × (l : LoadJob) × (job_iter loadsig_call
          (length (blocks_of 2 file) * 2 + 5)
          (loadsig_begin (new_io j.io.written true 0))
        ≡ some (done, l))
    × (l.vars.signature.block_sigs ≡ map (entry_of sum32 signature) (blocks_of 2 file))
    × (l.vars.signature.count ≡ length (blocks_of 2 file))
    × (l.vars.signature.magic ≡ 0x72730147)
    × (l.vars.signature.block_len ≡ 2)
    × (l.vars.signature.strong_sum_len ≡ 8)
    × SigValid l.vars.signature
    × (l.io.aborted ≡ false)
loadsig-sig_example =
    loadsig-sig sum32 signature 36 0 file sum32_width (omega arith) (omega arith) signature_made
      (omega (arith, length-sig_spec)) (omega (arith, length-blocks_of))

length-slack : length (encode_delta (slack_commands file)) ≡ 9
unfolding encode_delta encode_commands encode_command slack_commands literal_bytes literal_param_len
length-slack = refl

job_iter-SlackDelta_example :
    SlackDelta (5 ∷ []) file (job_iter (delta_call sum32) 5 (delta_begin none (new_io file true 9)))
job_iter-SlackDelta_example =
    job_iter-SlackDelta sum32 (5 ∷ []) file 9 (omega arith) (omega (arith, length-slack))
