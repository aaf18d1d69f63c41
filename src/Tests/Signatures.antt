-- ===== src/Tests/Signatures.antt =====
-- Signature arguments and blocks, and the functions of util.c.
use librsync.Prelude.{◌≡◌, refl, arith, true, [], ◌∷◌, inr, none, ◌-◌, u64}
use librsync.Util.{long_sqrt}
use librsync.Util.Root.{IsRoot, long_sqrt-IsRoot}
use librsync.Sumset.{
  Signature, sig_args, signature_init, signature_add_block, signature_check, table_check,
  sig_args_check,
}
use librsync.Sumset.Args.{sig_args-check}
use librsync.Sumset.Blocks.{SigValid, InitOk, signature_init-InitOk, signature_add_block-SigValid}

long_sqrt-IsRoot_example : IsRoot 1000 (long_sqrt 1000)
long_sqrt-IsRoot_example = long_sqrt-IsRoot 1000 (omega arith)

sig_args-check_example : (sig_args 100000 0x72730136 0 (u64 - 1)).4 ≡ true
sig_args-check_example = sig_args-check 100000 0x72730136 0 (u64 - 1) (inr (omega arith))

signature_init-InitOk_example : InitOk (signature_init 0x72730137 2048 8 100)
signature_init-InitOk_example =
    signature_init-InitOk 0x72730137 2048 8 100 (omega arith) (inr (omega arith))

abbrev signature : Signature
signature = record {
  magic = 0x72730136;
  block_len = 2048;
  strong_sum_len = 8;
  count = 0;
  size = 0;
  block_sigs = [];
  hashtable = none;
  calc_strong_count = 0;
}

signature-SigValid : SigValid signature
unfolding signature_check table_check sig_args_check
signature-SigValid = record { checked = refl; counted = refl }

signature_add_block-SigValid_example :
    ((signature_add_block 5 (1 ∷ 2 ∷ []) signature).1 ≡ true)
    × SigValid (signature_add_block 5 (1 ∷ 2 ∷ []) signature).0
signature_add_block-SigValid_example =
    signature_add_block-SigValid 5 (1 ∷ 2 ∷ []) signature signature-SigValid (omega arith)
