-- ===== src/Sumset/Growth.antt =====
-- src/sumset.c: the ints of a signature that grows block by block.
use librsync.Prelude.{
  ℕ, ◌+◌, ◌-◌, ◌*◌, ◌^◌, ◌≤◌, ◌<◌, ◌≡◌, refl, arith, u64, true, false, Bool-cases, inl, inr, Option,
  none, some, List,
}
use librsync.Result.{RsResult, done, is_done}
use librsync.Sumset.{Signature, signature_init, signature_size, signature_add_block, sig_args}
use librsync.Sumset.Blocks.{SigValid, InitOk, signature_init-InitOk, signature_add_block-SigValid}
use mathlib.Core.Path.{subst}

-- A valid signature that has no more room than twice its blocks and the first allocation.
pub record Growing (sig : Signature) : Type 0 where
  pub valid : SigValid sig
  pub roomy : sig.size ≤ 2 * sig.count + 16

pub signature_add_block-Growing :
    (weak_sum : ℕ) (strong_sum : List ℕ) (sig : Signature)
    → Growing sig
    → sig.count < 2 ^ 28
    → ((signature_add_block weak_sum strong_sum sig).1 ≡ true)
      × Growing (signature_add_block weak_sum strong_sum sig).0
      × ((signature_add_block weak_sum strong_sum sig).0.count ≡ sig.count + 1)
unfolding signature_add_block
signature_add_block-Growing weak_sum strong_sum sig g few =
    let (checked, valid) =
      signature_add_block-SigValid weak_sum strong_sum sig g.valid (omega (arith, g.roomy, few)) in
    (checked, record { valid = valid; roomy = ground (arith, g.roomy, few) }, omega (arith, few))

-- What rs_signature_init leaves where the size of the signature file is zero.
abbrev InitEmpty : RsResult × Option Signature → Type 0
InitEmpty (r, none) = is_done r ≡ false
InitEmpty (r, some sig) = sig.size ≡ 0

signature_init-InitEmpty :
    (magic block_len strong_len : ℕ) → InitEmpty (signature_init magic block_len strong_len 0)
unfolding signature_init signature_size
signature_init-InitEmpty magic block_len strong_len =
    elim (Bool-cases (is_done (sig_args (u64 - 1) magic block_len strong_len).0)) [
      | inl good ↦ rw good refl
      | inr bad ↦ rw bad bad
    ]

pub made-Growing :
    (magic block_len strong_len : ℕ) (sig : Signature)
    → block_len < 2 ^ 31
    → signature_init magic block_len strong_len 0 ≡ (done, some sig)
    → Growing sig
made-Growing magic block_len strong_len sig small e = record {
  valid =
      (subst InitOk e
        (signature_init-InitOk magic block_len strong_len 0 small (inr (omega arith)))).1;
  roomy = omega (arith, subst InitEmpty e (signature_init-InitEmpty magic block_len strong_len));
}
