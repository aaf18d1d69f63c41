-- ===== src/Sumset.antt =====
-- src/sumset.c and src/sumset.h: the arguments of a signature, and the signature in memory. The hash
-- table that finds its blocks is in Sumset.Match.
pub mod Args
pub mod Blocks
pub mod Growth
pub mod Match
use librsync.Prelude.{
  ℕ, zero, suc, ◌+◌, ◌-◌, ◌*◌, ◌/◌, ◌%◌, ◌^◌, ◌||◌, ◌&&◌, not, u32, u64, is_neg32, is_neg64, ltb,
  leb, ◌==◌, if◌then◌else◌,
}
use librsync.Prelude.{Bool, true, false, List, [], ◌∷◌, ◌++◌, length, take, Option, none, some}
use librsync.Result.{RsResult, done, bad_magic, param_error, is_done}
use librsync.Util.{long_ln2, long_sqrt}
use librsync.Checksum.{WeaksumKind, rs_rollsum, rs_rabinkarp, mix32}
use librsync.Checksum.{StrongsumKind, rs_md4, rs_blake2, calc_weak_sum, calc_strong_sum}
use librsync.Hashtable.{HashTable}

-- `rs_magic_number`, for signatures
abbrev pub md4_sig_magic : ℕ
md4_sig_magic = 0x72730136

abbrev pub blake2_sig_magic : ℕ
blake2_sig_magic = 0x72730137

abbrev pub rk_md4_sig_magic : ℕ
rk_md4_sig_magic = 0x72730146

abbrev pub rk_blake2_sig_magic : ℕ
rk_blake2_sig_magic = 0x72730147

-- The assertions of `rs_sig_args_check`: masks of hexadecimal digits as arithmetic.
unfoldable pub sig_args_check : ℕ → ℕ → ℕ → Bool
sig_args_check magic block_len strong_len =
    (magic / 256 == md4_sig_magic / 256)
    && (((magic / 16 % 16 == 3) || (magic / 16 % 16 == 4))
        && ((((magic % 16 == 6) && leb strong_len 16) || ((magic % 16 == 7) && leb strong_len 32))
            && (ltb 0 block_len && (ltb 0 strong_len && leb strong_len 32))))

-- The `switch` on the magic number: the longest strong sum, if the number is known.
unfoldable pub max_strong_len : ℕ → Option ℕ
max_strong_len magic =
    if (magic == blake2_sig_magic) || (magic == rk_blake2_sig_magic)
    then some 32
    else if (magic == md4_sig_magic) || (magic == rk_md4_sig_magic)
    then some 16
    else none

-- `rec_block_len`; a size is a 64-bit pattern, negative if unknown.
unfoldable pub rec_block_len : ℕ → ℕ
rec_block_len old_fsize =
    if is_neg64 old_fsize
    then 2048
    else if leb old_fsize (256 * 256)
    then 256
    else long_sqrt old_fsize / 128 * 128

unfoldable pub min_strong_len : ℕ → ℕ → ℕ
min_strong_len old_fsize block_len =
    if is_neg64 old_fsize
    then 12
    else 2 + (long_ln2 (old_fsize + 2 ^ 24) + long_ln2 (old_fsize / block_len + 1) + 7) / 8

-- `rs_sig_args` after the switch: the checks and defaults of `*strong_len`, where u64 - 1 is -1.
unfoldable pub sig_strong_len : ℕ → ℕ → ℕ → ℕ → RsResult × ℕ
sig_strong_len old_fsize min_len max_len strong_len =
    if strong_len == 0
    then (done, max_len)
    else if strong_len == u64 - 1
    then (done, min_len)
    else if not (is_neg64 old_fsize) && ltb strong_len min_len
    then (done, strong_len)
    else if ltb max_len strong_len
    then (param_error, strong_len)
    else (done, strong_len)

-- `rs_sig_args` after its `switch`, which finds no longest strong sum for an unknown magic number.
unfoldable pub sig_args_after : Option ℕ → ℕ → ℕ → ℕ → ℕ → RsResult × ℕ × ℕ × ℕ × Bool
sig_args_after none old_fsize magic block_len0 strong_len0 =
    (bad_magic, magic, block_len0, strong_len0, true)
sig_args_after (some max_len) old_fsize magic block_len0 strong_len0 =
    let block_len = if block_len0 == 0 then rec_block_len old_fsize else block_len0 in
    let (r, strong_len) =
      sig_strong_len old_fsize (min_strong_len old_fsize block_len) max_len strong_len0 in
    (
      r,
      magic,
      block_len,
      strong_len,
      if is_done r then sig_args_check magic block_len strong_len else true,
    )

-- `rs_sig_args`: the result, the three arguments as they are left, and whether its assertions held.
unfoldable pub sig_args : ℕ → ℕ → ℕ → ℕ → RsResult × ℕ × ℕ × ℕ × Bool
sig_args old_fsize magic0 block_len0 strong_len0 =
    let magic = if magic0 == 0 then rk_blake2_sig_magic else magic0 in
    sig_args_after (max_strong_len magic) old_fsize magic block_len0 strong_len0

-- `rs_block_sig_t`
pub record BlockSig : Type 0 where
  pub weak_sum : ℕ
  pub strong_sum : List ℕ

-- `struct rs_signature`; `block_sigs` holds the `count` entries of the array of `size` entries, and the
-- hash table has pointers to them, each as its index.
pub record Signature : Type 0 where
  pub magic : ℕ
  pub block_len : ℕ
  pub strong_sum_len : ℕ
  pub count : ℕ
  pub size : ℕ
  pub block_sigs : List BlockSig
  pub hashtable : Option (HashTable ℕ)
  pub calc_strong_count : ℕ

-- `rs_alloc_struct(rs_signature_t)` is zeroed memory.
unfoldable pub no_signature : Signature
no_signature = record {
  magic = 0;
  block_len = 0;
  strong_sum_len = 0;
  count = 0;
  size = 0;
  block_sigs = [];
  hashtable = none;
  calc_strong_count = 0;
}

unfoldable pub table_check : Option (HashTable ℕ) → ℕ → Bool
table_check none count = true
table_check (some t) count = leb t.count count

-- `rs_signature_check`: `0 < block_len` of an int, `0 <= count && count <= size` of two ints, and the
-- entries of the hash table.
unfoldable pub signature_check : Signature → Bool
signature_check sig =
    (sig_args_check sig.magic sig.block_len sig.strong_sum_len && not (is_neg32 sig.block_len))
    && ((not (is_neg32 sig.count) && (not (is_neg32 sig.size) && leb sig.count sig.size))
        && table_check sig.hashtable sig.count)

-- The size is a 64-bit pattern; the block length and the number of blocks are cut to an int.
unfoldable pub signature_size : ℕ → ℕ → ℕ
signature_size sig_fsize strong_len =
    if is_neg64 sig_fsize || ltb sig_fsize 12
    then 0
    else (sig_fsize - 12) / (4 + strong_len) % 2 ^ 32

-- `rs_signature_init`; `none` where the result is not `done`.
unfoldable pub signature_init : ℕ → ℕ → ℕ → ℕ → RsResult × Option Signature
signature_init magic0 block_len0 strong_len0 sig_fsize =
    let (r, magic, block_len, strong_len, _) = sig_args (u64 - 1) magic0 block_len0 strong_len0 in
    (
      r,
      if is_done r
          then some (record {
            magic = magic;
            block_len = block_len % 2 ^ 32;
            strong_sum_len = strong_len % 2 ^ 32;
            count = 0;
            size = signature_size sig_fsize strong_len;
            block_sigs = [];
            hashtable = none;
            calc_strong_count = 0;
          })
          else none,
    )

-- `rs_signature_weaksum_kind`
unfoldable pub weaksum_kind : Signature → WeaksumKind
weaksum_kind sig = if sig.magic / 16 % 16 == 3 then rs_rollsum else rs_rabinkarp

-- `rs_signature_strongsum_kind`
unfoldable pub strongsum_kind : Signature → StrongsumKind
strongsum_kind sig = if sig.magic % 16 == 6 then rs_md4 else rs_blake2

-- `rs_signature_calc_weak_sum` and `rs_signature_calc_strong_sum`
unfoldable pub signature_calc_weak_sum : Signature → List ℕ → ℕ
signature_calc_weak_sum sig buf = calc_weak_sum (weaksum_kind sig) buf

unfoldable pub signature_calc_strong_sum : (List ℕ → List ℕ) → Signature → List ℕ → List ℕ
signature_calc_strong_sum blake2 sig buf = calc_strong_sum blake2 (strongsum_kind sig) buf

unfoldable pub block_weak_sum : WeaksumKind → ℕ → ℕ
block_weak_sum rs_rollsum weak_sum = mix32 weak_sum
block_weak_sum rs_rabinkarp weak_sum = weak_sum

-- `rs_signature_add_block`, and whether its assertion holds; of the strong sum the entry keeps
-- `strong_sum_len` bytes. The two counters are ints, as patterns of 32 bits.
unfoldable pub signature_add_block : ℕ → List ℕ → Signature → Signature × Bool
unfolding signature_check
signature_add_block weak_sum strong_sum sig =
    let size =
      if sig.count == sig.size
      then (if sig.size == 0 then 16 else sig.size * 2 % u32)
      else sig.size in
    (
      record sig {
        size = size;
        count = (sig.count + 1) % u32;
        block_sigs =
            sig.block_sigs
            ++ ((record {
              weak_sum = block_weak_sum (weaksum_kind sig) weak_sum;
              strong_sum = take sig.strong_sum_len strong_sum;
            })
                ∷ []);
      },
      signature_check sig,
    )

-- `rs_signature_done`: the memory is released and the fields are zero.
unfoldable pub signature_done : Signature → Signature
unfolding no_signature
signature_done sig = no_signature
