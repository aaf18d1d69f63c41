-- ===== src/Readsums/Spec.antt =====
-- src/readsums.c: what a signature file means, with no buffers.
use librsync.Prelude.{ℕ, ◌<◌, ◌≡◌, u32, IsByte, All, List, [], ◌∷◌, ◌++◌, length, map, ◌+◌}
use librsync.Netint.Bytes.{big_endian, big_endian-IsByte, All-append}
use librsync.Checksum.Rolling.{mixed}
use librsync.Sumset.{Signature, BlockSig, weaksum_kind}
use librsync.Sumset.Blocks.{SigValid}

-- A weak sum and a strong sum, as the file has them.
abbrev pub Sums : Type 0
Sums = ℕ × List ℕ

abbrev pub IsSums : ℕ → Sums → Type 0
IsSums strong_len s = (s.0 < u32) × (length s.1 ≡ strong_len) × All IsByte s.1

unfoldable pub sums_bytes : List Sums → List ℕ
sums_bytes [] = []
sums_bytes (s ∷ sums) = big_endian 4 s.0 ++ (s.1 ++ sums_bytes sums)

-- The entry of a block: its weak sum, mixed where the kind asks for it, and its strong sum.
abbrev pub stored : Signature → Sums → BlockSig
stored sig s = record { weak_sum = mixed (weaksum_kind sig) s.0; strong_sum = s.1 }

-- The signature `loaded` is `sig` with the entries of `sums` after its own, and passes the assertions.
pub record HasSums (sig : Signature) (sums : List Sums) (loaded : Signature) : Type 0 where
  pub magic : loaded.magic ≡ sig.magic
  pub block_len : loaded.block_len ≡ sig.block_len
  pub strong_sum_len : loaded.strong_sum_len ≡ sig.strong_sum_len
  pub hashtable : loaded.hashtable ≡ sig.hashtable
  pub count : loaded.count ≡ sig.count + length sums
  pub blocks : loaded.block_sigs ≡ sig.block_sigs ++ map (stored sig) sums
  pub valid : SigValid loaded

pub sums_bytes-IsByte :
    (strong_len : ℕ) (sums : List Sums)
    → All (IsSums strong_len) sums
    → All IsByte (sums_bytes sums)
unfolding sums_bytes
sums_bytes-IsByte strong_len [] h = tt
sums_bytes-IsByte strong_len (s ∷ sums) ((weak, len, strong), h) =
    All-append IsByte (big_endian 4 s.0) (s.1 ++ sums_bytes sums) (big_endian-IsByte 4 s.0)
      (All-append IsByte s.1 (sums_bytes sums) strong (sums_bytes-IsByte strong_len sums h))
