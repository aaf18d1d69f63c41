-- ===== src/Readsums/RoundTrip.antt =====
-- src/mksum.c and src/readsums.c: loading a signature that was generated.
use librsync.Prelude.{
  ℕ, suc, ◌+◌, ◌*◌, ◌%◌, ◌^◌, ◌≤◌, ◌<◌, ◌≡◌, refl, ap, ◌∙◌, arith, true, u32, IsByte, All,
  sign_extend, ◌==◌, Bool-cases, inl, inr,
}
use librsync.Prelude.{
  List, [], ◌∷◌, ◌++◌, length, take, length-take, append_assoc, some, map, false,
}
use librsync.Result.{done}
use librsync.Io.{new_io}
use librsync.Netint.Bytes.{big_endian}
use librsync.Netint.RoundTrip.{take-All}
use librsync.Job.{job_iter}
use librsync.Checksum.{calc_strong_sum, calc_weak_sum}
use librsync.Checksum.Rolling.{mixed}
use librsync.Checksum.Width.{calc_weak_sum-lt, mdfour_width}
use librsync.Sumset.{
  Signature, BlockSig, signature_init, signature_calc_weak_sum, signature_calc_strong_sum,
  weaksum_kind, strongsum_kind,
}
use librsync.Sumset.Blocks.{SigValid, Sized, made-Sized}
use librsync.Mksum.{SigJob, sig_call, sig_begin}
use librsync.Mksum.Spec.{blocks_of, block_sums, all_sums, header_bytes, sig_spec}
use librsync.Mksum.Whole.{job_iter-sig_spec}
use librsync.Readsums.{LoadJob, loadsig_call, loadsig_begin}
use librsync.Readsums.Spec.{Sums, IsSums, sums_bytes, stored}
use librsync.Readsums.Whole.{sig_bytes, job_iter-Loaded}
use mathlib.Core.Path.{ap₂}

module _ (blake2 : List ℕ → List ℕ) (sig : Signature) where
  -- The sums of each block, as the signature file has them.
  unfoldable pub sums_of : List (List ℕ) → List Sums
  sums_of [] = []
  sums_of (block ∷ blocks) =
      (
        signature_calc_weak_sum sig block,
        take sig.strong_sum_len (signature_calc_strong_sum blake2 sig block),
      )
      ∷ sums_of blocks

  length-sums_of : (blocks : List (List ℕ)) → length (sums_of blocks) ≡ length blocks
  unfolding sums_of
  length-sums_of [] = refl
  length-sums_of (block ∷ blocks) = ap suc (length-sums_of blocks)

  sums_bytes-sums_of :
      (blocks : List (List ℕ)) → all_sums blake2 sig blocks ≡ sums_bytes (sums_of blocks)
  unfolding sums_of sums_bytes all_sums block_sums
  sums_bytes-sums_of [] = refl
  sums_bytes-sums_of (block ∷ blocks) =
      append_assoc (big_endian 4 (signature_calc_weak_sum sig block))
        (take sig.strong_sum_len (signature_calc_strong_sum blake2 sig block))
        (all_sums blake2 sig blocks)
      ∙ ap
          (λ l.
            big_endian 4 (signature_calc_weak_sum sig block)
            ++ (take sig.strong_sum_len (signature_calc_strong_sum blake2 sig block) ++ l))
          (sums_bytes-sums_of blocks)

  sig_spec-sig_bytes :
      (file : List ℕ)
      → sig_spec blake2 sig file
        ≡ sig_bytes sig.magic sig.block_len sig.strong_sum_len
            (sums_of (blocks_of sig.block_len file))
  unfolding sig_spec sig_bytes header_bytes
  sig_spec-sig_bytes file =
      ap (λ l. header_bytes sig ++ l) (sums_bytes-sums_of (blocks_of sig.block_len file))

  module _ (blake2_width : (buf : List ℕ) → (length (blake2 buf) ≡ 32) × All IsByte (blake2 buf))
      (z : Sized sig) where
    strong_width :
        (buf : List ℕ)
        → (sig.strong_sum_len ≤ length (signature_calc_strong_sum blake2 sig buf))
          × All IsByte (signature_calc_strong_sum blake2 sig buf)
    unfolding signature_calc_strong_sum calc_strong_sum strongsum_kind
    strong_width buf = elim (Bool-cases (sig.magic % 16 == 6)) [
      | inl md4 ↦
          rw md4 (omega (arith, (mdfour_width buf).0, z.strong_md4 md4), (mdfour_width buf).1)
      | inr other ↦
          rw other (omega (arith, (blake2_width buf).0, z.strong_small), (blake2_width buf).1)
    ]

    sums_of-IsSums : (blocks : List (List ℕ)) → All (IsSums sig.strong_sum_len) (sums_of blocks)
    unfolding sums_of signature_calc_weak_sum
    sums_of-IsSums [] = tt
    sums_of-IsSums (block ∷ blocks) = (
      (
        calc_weak_sum-lt (weaksum_kind sig) block,
        omega (
          arith,
          length-take sig.strong_sum_len (signature_calc_strong_sum blake2 sig block),
          (strong_width block).0,
        ),
        take-All IsByte sig.strong_sum_len (signature_calc_strong_sum blake2 sig block)
            (strong_width block).1,
      ),
      sums_of-IsSums blocks,
    )

-- The entry of a block in memory.
abbrev pub entry_of : (List ℕ → List ℕ) → Signature → List ℕ → BlockSig
entry_of blake2 sig block = record {
  weak_sum = mixed (weaksum_kind sig) (calc_weak_sum (weaksum_kind sig) block);
  strong_sum = take sig.strong_sum_len (calc_strong_sum blake2 (strongsum_kind sig) block);
}

entries_of_sums :
    (blake2 : List ℕ → List ℕ) (sig : Signature) (blocks : List (List ℕ))
    → map (stored sig) (sums_of blake2 sig blocks) ≡ map (entry_of blake2 sig) blocks
unfolding sums_of signature_calc_weak_sum signature_calc_strong_sum
entries_of_sums blake2 sig [] = refl
entries_of_sums blake2 sig (block ∷ blocks) =
    ap (λ l. entry_of blake2 sig block ∷ l) (entries_of_sums blake2 sig blocks)

-- A signature job with the whole file as its input, and a loading job with what it has written as
-- its input, both end with RS_DONE, for a file of at most 2^28 blocks. The signature in memory then
-- has one entry for each block of the file, in their order: the weak sum is rs_calc_weak_sum of the
-- block, mixed by mix32 for a rollsum, and the strong sum is the strong sum of the block, cut to
-- the length the signature says. Its count is the number of the blocks, the magic number and both
-- lengths are those of the signature job, it passes rs_signature_check, and the loading has failed
-- no assertion. The signature is one that rs_signature_init makes of its own three numbers, the
-- magic number below 2^32 and the block length below 2^31; the output has room, and BLAKE2 gives 32
-- bytes.
pub loadsig-sig :
    (blake2 : List ℕ → List ℕ) (sig : Signature) (room room' : ℕ) (file : List ℕ)
    → ((buf : List ℕ) → (length (blake2 buf) ≡ 32) × All IsByte (blake2 buf))
    → sig.magic < u32
    → sig.block_len < 2 ^ 31
    → signature_init sig.magic (sign_extend sig.block_len) (sign_extend sig.strong_sum_len) 0
      ≡ (done, some sig)
    → length (sig_spec blake2 sig file) ≤ room
    → length (blocks_of sig.block_len file) ≤ 2 ^ 28
    → (j : SigJob) × (job_iter
          (sig_call blake2)
          (length file + 3)
          (sig_begin sig.block_len sig.strong_sum_len sig.magic (new_io file true room))
        ≡ some (done, j))
      × (l : LoadJob) × (job_iter loadsig_call
            (length (blocks_of sig.block_len file) * 2 + 5)
            (loadsig_begin (new_io j.io.written true room'))
          ≡ some (done, l))
      × (l.vars.signature.block_sigs ≡ map (entry_of blake2 sig) (blocks_of sig.block_len file))
      × (l.vars.signature.count ≡ length (blocks_of sig.block_len file))
      × (l.vars.signature.magic ≡ sig.magic)
      × (l.vars.signature.block_len ≡ sig.block_len)
      × (l.vars.signature.strong_sum_len ≡ sig.strong_sum_len)
      × SigValid l.vars.signature
      × (l.io.aborted ≡ false)
loadsig-sig blake2 sig room room' file width m_small b_small init enough few =
    let (j, works, finished) =
      job_iter-sig_spec blake2 sig.block_len sig.strong_sum_len sig.magic room file sig b_small args
        enough in
    let (l, loads, loaded, blocks) =
      job_iter-Loaded sig.magic sig.block_len sig.strong_sum_len room' sums sig m_small z.block_pos
        b_small z.strong_small init
        (sums_of-IsSums blake2 sig width z (blocks_of sig.block_len file))
        (omega (arith, length-sums_of blake2 sig (blocks_of sig.block_len file), few)) in
    (
      j,
      works,
      l,
      ap₂ (λ n bytes. job_iter loadsig_call n (loadsig_begin (new_io bytes true room')))
            (count (blocks_of sig.block_len file))
            (finished.written ∙ sig_spec-sig_bytes blake2 sig file)
          ∙ loads,
      blocks ∙ entries_of_sums blake2 sig (blocks_of sig.block_len file),
      omega (
        arith,
        loaded.has.count,
        z.none_counted,
        length-sums_of blake2 sig (blocks_of sig.block_len file),
      ),
      loaded.has.magic,
      loaded.has.block_len,
      loaded.has.strong_sum_len,
      loaded.has.valid,
      loaded.reading.valid.unharmed,
    )
  where
    z : Sized sig
    z =
        made-Sized sig.magic (sign_extend sig.block_len) (sign_extend sig.strong_sum_len) 0 sig
          (ground (arith, b_small)) init

    sums : List Sums
    sums = sums_of blake2 sig (blocks_of sig.block_len file)

    cut : (v : ℕ) → v < 2 ^ 31 → sign_extend (v % u32) ≡ sign_extend v
    cut v small = ap (λ n. sign_extend n) {x = v % u32} {y = v} (omega arith)

    args :
        signature_init sig.magic
          (sign_extend (sig.block_len % u32))
          (sign_extend (sig.strong_sum_len % u32))
          0
        ≡ (done, some sig)
    args =
        ap₂ (λ b n. signature_init sig.magic b n 0) (cut sig.block_len b_small)
          (cut sig.strong_sum_len (omega (arith, z.strong_small)))
        ∙ init

    count :
        (blocks : List (List ℕ))
        → length blocks * 2 + 5 ≡ length (sums_of blake2 sig blocks) * 2 + 5
    count blocks = omega (arith, length-sums_of blake2 sig blocks)
