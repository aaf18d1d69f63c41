-- ===== src/Sumset/Blocks.antt =====
-- src/sumset.c: `rs_signature_init` and `rs_signature_add_block`.
use librsync.Prelude.{ℕ, ◌+◌, ◌-◌, ◌*◌, ◌/◌, ◌%◌, ◌^◌, ◌≤◌, ◌<◌, ◌≡◌, refl, ◌∙◌, arith}
use librsync.Prelude.{
  leb, not, ◌⊎◌, is_neg32, is_neg64, ◌==◌, ◌&&◌, if◌then◌else◌, Bool, true, false, Bool-cases, inl,
  inr,
}
use librsync.Prelude.{List, [], ◌∷◌, length, length-append, take, Option, none, some, u32, u64}
use native.Mathlib.Nat.{div-le_of_le-mul}
use librsync.Result.{RsResult, done, is_done}
use librsync.Sumset.{
  sig_args_check, sig_args, Signature, BlockSig, signature_check, table_check, signature_size,
  signature_init,
}
use librsync.Sumset.{weaksum_kind, block_weak_sum, signature_add_block}
use librsync.Sumset.Args.{sig_args-checked, sig_args-block_len}
use librsync.Checksum.{WeaksumKind, rs_rollsum, rs_rabinkarp}
use librsync.Checksum.Rolling.{mixed}
use librsync.Hashtable.{HashTable}
use mathlib.Core.Path.{ap₂, subst}

pub record SigValid (sig : Signature) : Type 0 where
  pub checked : signature_check sig ≡ true
  pub counted : sig.count ≡ length sig.block_sigs

and_both : (a b : Bool) → (a && b) ≡ true → (a ≡ true) × (b ≡ true)
and_both a b h = ground arith

and_intro : (a b : Bool) → a ≡ true → b ≡ true → (a && b) ≡ true
and_intro a b h k = ground arith

new_size : ℕ → ℕ → ℕ
new_size count size = if count == size then (if size == 0 then 16 else size * 2 % u32) else size

-- The test of the two ints.
room_test : ℕ → ℕ → Bool
room_test count size = not (is_neg32 count) && (not (is_neg32 size) && leb count size)

new_size_enough :
    (count size : ℕ)
    → size < 2 ^ 30
    → room_test count size ≡ true
    → room_test ((count + 1) % u32) (new_size count size) ≡ true
unfolding new_size room_test
new_size_enough count size small h = ground arith

no_blocks : (size : ℕ) → size < 2 ^ 31 → room_test 0 size ≡ true
unfolding room_test
no_blocks size h = ground arith

-- One block more leaves room for the entries of the hash table.
table_check_suc :
    (o : Option (HashTable ℕ)) (count : ℕ)
    → table_check o count ≡ true
    → count < 2 ^ 31
    → table_check o ((count + 1) % u32) ≡ true
unfolding table_check
table_check_suc none count h small = refl
table_check_suc (some t) count h small = ground arith

signature_size_bound :
    (sig_fsize strong_len : ℕ)
    → (is_neg64 sig_fsize ≡ true) ⊎ (sig_fsize < 2 ^ 33)
    → signature_size sig_fsize strong_len < 2 ^ 31
unfolding signature_size
signature_size_bound sig_fsize strong_len (inl unknown) = rw unknown (omega arith)
signature_size_bound sig_fsize strong_len (inr known) = ground (arith, few)
  where
    few : (sig_fsize - 12) / (4 + strong_len) ≤ 2 ^ 31 - 1
    few = div-le_of_le-mul (4 + strong_len) (omega arith)

small_count : (count size : ℕ) → room_test count size ≡ true → count < 2 ^ 31
unfolding room_test
small_count count size h = ground arith

-- The parts of rs_signature_check.
checked_parts :
    (sig : Signature)
    → signature_check sig ≡ true
    → ((sig_args_check sig.magic sig.block_len sig.strong_sum_len && not (is_neg32 sig.block_len))
        ≡ true)
      × (room_test sig.count sig.size ≡ true)
      × (table_check sig.hashtable sig.count ≡ true)
unfolding signature_check room_test
checked_parts sig checked =
    let both =
      and_both
        (sig_args_check sig.magic sig.block_len sig.strong_sum_len && not (is_neg32 sig.block_len))
        (room_test sig.count sig.size && table_check sig.hashtable sig.count) checked in
    let rest =
      and_both (room_test sig.count sig.size) (table_check sig.hashtable sig.count) both.1 in
    (both.0, rest.0, rest.1)

-- A block length that passes the assertions is a positive int.
pub checked-block_len :
    (sig : Signature) → signature_check sig ≡ true → (0 < sig.block_len) × (sig.block_len < 2 ^ 31)
unfolding sig_args_check
checked-block_len sig checked =
    (ground (arith, (checked_parts sig checked).0), ground (arith, (checked_parts sig checked).0))

-- A hash table with no more entries than blocks keeps the assertions true.
pub table-checked :
    (sig : Signature) (t : HashTable ℕ) (calcs : ℕ)
    → signature_check sig ≡ true
    → t.count ≤ sig.count
    → signature_check (record sig { hashtable = some t; calc_strong_count = calcs }) ≡ true
unfolding signature_check room_test table_check
table-checked sig t calcs checked few =
    let (args, room, table) = checked_parts sig checked in
    and_intro _ _ args (and_intro _ _ room (ground (arith, few)))

-- The assertion of rs_signature_add_block holds on a signature that passes rs_signature_check, with
-- room for less than 2^30 blocks, and the signature passes it still, its count the number of its
-- blocks.
pub signature_add_block-SigValid :
    (weak_sum : ℕ) (strong_sum : List ℕ) (sig : Signature)
    → SigValid sig
    → sig.size < 2 ^ 30
    → ((signature_add_block weak_sum strong_sum sig).1 ≡ true)
      × SigValid (signature_add_block weak_sum strong_sum sig).0
unfolding signature_add_block signature_check new_size room_test
signature_add_block-SigValid weak_sum strong_sum sig v small = (
  v.checked,
  record {
    checked =
        let (args, room, table) = checked_parts sig v.checked in
        and_intro _ _ args (
          and_intro _ _ (new_size_enough sig.count sig.size small room)
            (table_check_suc sig.hashtable sig.count table (small_count sig.count sig.size room)));
    counted = omega (
      arith,
      v.counted,
      length-append sig.block_sigs (new_block ∷ []),
      small_count sig.count sig.size (checked_parts sig v.checked).1,
    );
  },
)
  where
    new_block : BlockSig
    new_block = record {
      weak_sum = block_weak_sum (weaksum_kind sig) weak_sum;
      strong_sum = take sig.strong_sum_len strong_sum;
    }

check_parts : (m b n : ℕ) → sig_args_check m b n ≡ true → n ≤ 32
unfolding sig_args_check
check_parts m b n h = ground arith

-- What `rs_signature_init` leaves: on success an empty signature that is valid.
abbrev pub InitOk : RsResult × Option Signature → Type 0
InitOk (r, none) = is_done r ≡ false
InitOk (r, some sig) = (is_done r ≡ true) × SigValid sig × (sig.count ≡ 0)

-- rs_signature_init with a block length below 2^31 and a signature size that is unknown or below
-- 2^33 either fails or leaves an empty signature that passes rs_signature_check.
pub signature_init-InitOk :
    (magic block_len strong_len sig_fsize : ℕ)
    → block_len < 2 ^ 31
    → (is_neg64 sig_fsize ≡ true) ⊎ (sig_fsize < 2 ^ 33)
    → InitOk (signature_init magic block_len strong_len sig_fsize)
unfolding signature_init signature_check room_test table_check
signature_init-InitOk magic block_len strong_len sig_fsize small fsize =
    elim (Bool-cases (is_done r)) [
      | inl good ↦ rw good (
        good,
        record {
          checked =
              and_intro _ _
                (and_intro _ _ (whole good)
                  (ground (arith, sig_args-block_len magic block_len strong_len small)))
                (and_intro _ _ (no_blocks _ (signature_size_bound sig_fsize n fsize)) refl);
          counted = refl;
        },
        refl,
      )
      | inr bad ↦ rw bad bad
    ]
  where
    r : RsResult
    r = (sig_args (u64 - 1) magic block_len strong_len).0

    m : ℕ
    m = (sig_args (u64 - 1) magic block_len strong_len).1

    b : ℕ
    b = (sig_args (u64 - 1) magic block_len strong_len).2

    n : ℕ
    n = (sig_args (u64 - 1) magic block_len strong_len).3

    checked : is_done r ≡ true → sig_args_check m b n ≡ true
    checked = sig_args-checked (u64 - 1) magic block_len strong_len (inl refl)

    whole : is_done r ≡ true → sig_args_check m (b % 2 ^ 32) (n % 2 ^ 32) ≡ true
    whole good =
        ap₂ (λ x y. sig_args_check m x y)
          (omega (arith, sig_args-block_len magic block_len strong_len small))
          (omega (arith, check_parts m b n (checked good)))
        ∙ checked good

check_sizes :
    (m b n : ℕ)
    → sig_args_check m b n ≡ true
    → (0 < b) × (0 < n) × (n ≤ 32) × ((m % 16 == 6) ≡ true → n ≤ 16)
unfolding sig_args_check
check_sizes m b n h = (ground arith, ground arith, ground arith, λ md4. ground (arith, md4))

-- The lengths of a signature that `rs_signature_init` has made.
pub record Sized (sig : Signature) : Type 0 where
  pub block_pos : 0 < sig.block_len
  pub block_int : sig.block_len < 2 ^ 31
  pub strong_pos : 0 < sig.strong_sum_len
  pub strong_small : sig.strong_sum_len ≤ 32
  pub strong_md4 : (sig.magic % 16 == 6) ≡ true → sig.strong_sum_len ≤ 16
  pub no_blocks_yet : sig.block_sigs ≡ []
  pub none_counted : sig.count ≡ 0
  pub no_table : sig.hashtable ≡ none

abbrev pub InitSized : RsResult × Option Signature → Type 0
InitSized (r, none) = is_done r ≡ false
InitSized (r, some sig) = Sized sig

pub signature_init-InitSized :
    (magic block_len strong_len sig_fsize : ℕ)
    → block_len < 2 ^ 31
    → InitSized (signature_init magic block_len strong_len sig_fsize)
unfolding signature_init
signature_init-InitSized magic block_len strong_len sig_fsize small =
    elim (Bool-cases (is_done r)) [
      | inr bad ↦ rw bad bad
      | inl good ↦
          let (block, strong, few, md4) =
            check_sizes m b n
              (sig_args-checked (u64 - 1) magic block_len strong_len (inl refl) good) in
          rw good (record {
            block_pos = omega (arith, block, sig_args-block_len magic block_len strong_len small);
            block_int = omega (arith, sig_args-block_len magic block_len strong_len small);
            strong_pos = omega (arith, strong, few);
            strong_small = omega (arith, few);
            strong_md4 = λ e. omega (arith, few, md4 e);
            no_blocks_yet = refl;
            none_counted = refl;
            no_table = refl;
          })
    ]
  where
    r : RsResult
    r = (sig_args (u64 - 1) magic block_len strong_len).0

    m : ℕ
    m = (sig_args (u64 - 1) magic block_len strong_len).1

    b : ℕ
    b = (sig_args (u64 - 1) magic block_len strong_len).2

    n : ℕ
    n = (sig_args (u64 - 1) magic block_len strong_len).3

pub made-Sized :
    (magic block_len strong_len sig_fsize : ℕ) (sig : Signature)
    → block_len < 2 ^ 31
    → signature_init magic block_len strong_len sig_fsize ≡ (done, some sig)
    → Sized sig
made-Sized magic block_len strong_len sig_fsize sig small e =
    subst InitSized e (signature_init-InitSized magic block_len strong_len sig_fsize small)

-- The mixing of a stored weak sum, as the checksums describe it.
pub mixed_stored : (k : WeaksumKind) (n : ℕ) → mixed k n ≡ block_weak_sum k n
unfolding mixed block_weak_sum
mixed_stored rs_rollsum n = refl
mixed_stored rs_rabinkarp n = refl
