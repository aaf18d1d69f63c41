-- ===== src/Sumset/Args.antt =====
-- src/sumset.c: `rs_sig_args` and its assertions.
use librsync.Prelude.{
  ℕ, zero, suc, ◌+◌, ◌-◌, ◌*◌, ◌/◌, ◌^◌, ◌≤◌, ◌<◌, ◌≡◌, ◌≢◌, ◌⊎◌, inl, inr, dec_le, refl, sym,
  subst, arith,
}
use librsync.Prelude.{
  u64, is_neg64, leb, ◌==◌, if◌then◌else◌, Bool, true, false, Bool-cases, tests, Option, none, some,
}
use librsync.Result.{is_done}
use librsync.Util.{long_ln2, ln2_loop, long_sqrt}
use librsync.Util.Root.{long_sqrt-IsRoot}
use librsync.Sumset.{
  sig_args_check, max_strong_len, rec_block_len, min_strong_len, sig_strong_len, sig_args_after,
  sig_args,
}
use native.Mathlib.Nat.{pow-suc, pow-zero, mul-le-mul, div-le_self}

ln2_loop_bound : (fuel v n k : ℕ) → v < 2 ^ suc k → ln2_loop fuel v n ≤ n + k
unfolding ln2_loop
ln2_loop_bound zero v n k h = omega arith
ln2_loop_bound (suc fuel) v n zero h = ground (arith, pow-suc 2 0, pow-zero 2)
ln2_loop_bound (suc fuel) v n (suc k) h = elim (Bool-cases (v / 2 == 0)) [
  | inl last ↦ rw last (omega arith)
  | inr more ↦
      rw more
        (omega (arith, ln2_loop_bound fuel (v / 2) (suc n) k (omega (arith, h, pow-suc 2 (suc k)))))
]

true≢false : true ≢ false
true≢false e = ground arith

-- A size that is unknown, or one that any real file has.
abbrev pub IsFileSize : ℕ → Type 0
IsFileSize size = (is_neg64 size ≡ true) ⊎ (size < 2 ^ 56)

min_strong_len_bound :
    (size block_len : ℕ) → IsFileSize size → 0 < block_len → min_strong_len size block_len ≤ 16
unfolding min_strong_len long_ln2
min_strong_len_bound size block_len (inl unknown) pos = rw unknown (omega arith)
min_strong_len_bound size block_len (inr known) pos = rw small (
    omega (
      arith,
      ln2_loop_bound 64 (size + 2 ^ 24) 0 56 (omega arith),
      ln2_loop_bound 64 (size / block_len + 1) 0 56 quotient,
    ))
  where
    quotient : size / block_len + 1 < 2 ^ 57
    quotient = omega (arith, div-le_self size block_len)

    small : is_neg64 size ≡ false
    small = ground arith

rec_block_len_pos : (size : ℕ) → IsFileSize size → 0 < rec_block_len size
unfolding rec_block_len
rec_block_len_pos size (inl unknown) = rw unknown (omega arith)
rec_block_len_pos size (inr known) = rw small (elim (Bool-cases (leb size (256 * 256))) [
  | inl little ↦ rw little (omega arith)
  | inr big ↦ rw big (elim (dec_le (long_sqrt size + 1) 256) [
    | yes few ↦ absurd (
        omega (
          tests,
          (root).1,
          mul-le-mul {n₁ = long_sqrt size + 1} {m₁ = long_sqrt size + 1} {n₂ = 256} {m₂ = 256} few
              few,
        ))
    | no many ↦ omega arith
  ])
])
  where
    small : is_neg64 size ≡ false
    small = ground arith

    root :
        (long_sqrt size * long_sqrt size ≤ size)
        × (size < (long_sqrt size + 1) * (long_sqrt size + 1))
    root = long_sqrt-IsRoot size (omega arith)

-- What is left of `*strong_len` when the result is `done`.
sig_strong_len_bound :
    (old_fsize min_len max_len strong_len : ℕ)
    → 0 < min_len
    → min_len ≤ 16
    → (max_len ≡ 16) ⊎ (max_len ≡ 32)
    → is_done (sig_strong_len old_fsize min_len max_len strong_len).0 ≡ true
    → let n = (sig_strong_len old_fsize min_len max_len strong_len).1 in (0 < n) × (n ≤ max_len)
unfolding sig_strong_len
sig_strong_len_bound old_fsize min_len max_len strong_len pos small max h = ground arith

min_strong_len_pos : (size block_len : ℕ) → 0 < min_strong_len size block_len
unfolding min_strong_len
min_strong_len_pos size block_len = ground arith

known_magic :
    (magic block_len strong_len max_len : ℕ)
    → max_strong_len magic ≡ some max_len
    → ((max_len ≡ 16) ⊎ (max_len ≡ 32))
      × (0 < block_len
          → 0 < strong_len
          → strong_len ≤ max_len
          → sig_args_check magic block_len strong_len ≡ true)
unfolding max_strong_len sig_args_check
known_magic magic block_len strong_len max_len e = ground arith

block_len_pos :
    (old_fsize block_len : ℕ)
    → IsFileSize old_fsize
    → 0 < (if block_len == 0 then rec_block_len old_fsize else block_len)
block_len_pos old_fsize block_len known = ground (arith, rec_block_len_pos old_fsize known)

after_switch :
    (max : Option ℕ) (old_fsize magic block_len strong_len : ℕ)
    → IsFileSize old_fsize
    → max_strong_len magic ≡ max
    → (sig_args_after max old_fsize magic block_len strong_len).4 ≡ true
unfolding sig_args_after
after_switch none old_fsize magic block_len strong_len known e = refl
after_switch (some max_len) old_fsize magic block_len strong_len known e =
    elim (Bool-cases (is_done (sig_strong_len old_fsize min_len max_len strong_len).0)) [
      | inl good ↦ rw good (
          let b =
            sig_strong_len_bound old_fsize min_len max_len strong_len
              (min_strong_len_pos old_fsize block) (min_strong_len_bound old_fsize block known pos)
              m.0 good in
          m.1 pos b.0 b.1)
      | inr bad ↦ rw bad refl
    ]
  where
    block : ℕ
    block = if block_len == 0 then rec_block_len old_fsize else block_len

    pos : 0 < block
    pos = block_len_pos old_fsize block_len known

    min_len : ℕ
    min_len = min_strong_len old_fsize block

    m :
        ((max_len ≡ 16) ⊎ (max_len ≡ 32))
        × (0 < block
            → 0 < (sig_strong_len old_fsize min_len max_len strong_len).1
            → (sig_strong_len old_fsize min_len max_len strong_len).1 ≤ max_len
            → sig_args_check magic block (sig_strong_len old_fsize min_len max_len strong_len).1
              ≡ true)
    m = known_magic magic block (sig_strong_len old_fsize min_len max_len strong_len).1 max_len e

-- For any magic number, block length and strong sum length, rs_sig_args on a size that is unknown
-- or below 2^56 does not fail its assertions: where it succeeds, the arguments that it leaves pass
-- rs_sig_args_check.
pub sig_args-check :
    (old_fsize magic block_len strong_len : ℕ)
    → IsFileSize old_fsize
    → (sig_args old_fsize magic block_len strong_len).4 ≡ true
unfolding sig_args
sig_args-check old_fsize magic block_len strong_len known =
    after_switch _ old_fsize _ block_len strong_len known refl

after_switch-checked :
    (max : Option ℕ) (old_fsize magic block_len strong_len : ℕ)
    → let (r, m, b, n, held) = sig_args_after max old_fsize magic block_len strong_len in
      held ≡ true → is_done r ≡ true → sig_args_check m b n ≡ true
unfolding sig_args_after
after_switch-checked none old_fsize magic block_len strong_len held good =
    absurd (true≢false (sym good))
after_switch-checked (some max_len) old_fsize magic block_len strong_len held good =
    subst (λ (t : Bool). (if t then check else true) ≡ true) good held
  where
    block : ℕ
    block = if block_len == 0 then rec_block_len old_fsize else block_len

    check : Bool
    check =
        sig_args_check magic block
          (sig_strong_len old_fsize (min_strong_len old_fsize block) max_len strong_len).1

after_switch-block_len :
    (max : Option ℕ) (magic block_len strong_len : ℕ)
    → block_len < 2 ^ 31
    → (sig_args_after max (u64 - 1) magic block_len strong_len).2 < 2 ^ 31
unfolding sig_args_after rec_block_len
after_switch-block_len none magic block_len strong_len h = h
after_switch-block_len (some max_len) magic block_len strong_len h = ground arith

-- A successful call leaves arguments that pass the check.
pub sig_args-checked :
    (old_fsize magic block_len strong_len : ℕ)
    → IsFileSize old_fsize
    → let (r, m, b, n, held) = sig_args old_fsize magic block_len strong_len in
      is_done r ≡ true → sig_args_check m b n ≡ true
unfolding sig_args
sig_args-checked old_fsize magic block_len strong_len known =
    after_switch-checked _ old_fsize _ block_len strong_len
      (after_switch _ old_fsize _ block_len strong_len known refl)

pub sig_args-block_len :
    (magic block_len strong_len : ℕ)
    → block_len < 2 ^ 31
    → (sig_args (u64 - 1) magic block_len strong_len).2 < 2 ^ 31
unfolding sig_args
sig_args-block_len magic block_len strong_len h = after_switch-block_len _ _ block_len strong_len h
