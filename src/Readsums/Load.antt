-- ===== src/Readsums/Load.antt =====
-- src/readsums.c: a whole signature file in the caller's buffer is loaded, block by block.
use librsync.Prelude.{
  ℕ, suc, ◌+◌, ◌*◌, ◌^◌, ◌≤◌, ◌<◌, ◌≡◌, refl, sym, ap, ◌∙◌, arith, u32, IsByte, All, sign_extend,
  if◌then◌else◌,
}
use librsync.Prelude.{
  List, [], ◌∷◌, ◌++◌, length, none, some, map, take, append_assoc, append-nil, true,
}
use librsync.Prelude.Slices.{take-all}
use librsync.Io.{Io, assert_that-true}
use librsync.Checksum.Rolling.{mixed}
use librsync.Sumset.Blocks.{SigValid, mixed_stored}
use librsync.Sumset.Growth.{Growing, signature_add_block-Growing}
use librsync.Result.{RsResult, done, is_done}
use librsync.Scoop.{scoop_read}
use librsync.Netint.Bytes.{big_endian, All-append}
use librsync.Netint.Squirt.{sign_extend_small}
use librsync.Job.{Round, again, job_check_result, job_call, job_round, job_work}
use librsync.Job.Rounds.{job_round-idle, job_work-again, job_work-done}
use librsync.Sumset.{Signature, BlockSig, weaksum_kind, block_weak_sum, signature_add_block}
use librsync.Readsums.{
  LoadState, s_weak, s_strong, LoadJob, go_to, loadsig_call, loadsig_s_weak, loadsig_got_weak,
  loadsig_s_strong, loadsig_got_strong, loadsig_add_sum,
}
use librsync.Readsums.Read.{Reading, ReadInt, read_int, ReadEnd, read_end, ReadBytes, read_bytes}
use librsync.Readsums.Spec.{Sums, IsSums, sums_bytes, stored, HasSums, sums_bytes-IsByte}
use mathlib.Core.Path.{ap₂, subst}

-- A job in the middle of its work.
pub record Going (f : LoadState) (queue : List ℕ) (j : LoadJob) : Type 0 where
  pub reading : Reading queue j.io
  pub state : j.statefn ≡ some f

module _ {f : LoadState} {queue : List ℕ} (j : LoadJob) (g : Going f queue j) where
  -- A round calls the state function.
  pub calls : job_round loadsig_call j ≡ job_call loadsig_call (some f) j
  calls =
      job_round-idle loadsig_call j g.reading.empty g.reading.idle
      ∙ ap (λ f. job_call loadsig_call f j) g.state

-- What job_call makes of the answer of a state function.
abbrev pub answered : RsResult × LoadJob → Round LoadJob
answered p =
    if is_done p.0 then again (record (p.1) { statefn = none }) else job_check_result p.0 p.1

-- A job that has the signature `sig` and goes on to state `f`.
pub record Next (f : LoadState) (queue : List ℕ) (sig : Signature) (j : LoadJob) : Type 0 where
  pub next : LoadJob
  pub moves : job_round loadsig_call j ≡ again next
  pub going : Going f queue next
  pub same_sig : next.vars.signature ≡ sig

weak_round :
    (weak : ℕ) (rest : List ℕ) (j : LoadJob)
    → Going s_weak (big_endian 4 weak ++ rest) j
    → weak < u32
    → All IsByte rest
    → (n : Next s_strong rest j.vars.signature j) × (n.next.vars.weak_sig ≡ weak)
unfolding loadsig_call loadsig_s_weak loadsig_got_weak job_call job_check_result go_to
weak_round weak rest j g small bytes = (
  record {
    next = record j {
      io = i.after;
      statefn = some s_strong;
      vars = record (j.vars) { weak_sig = weak };
    };
    moves = calls j g ∙ ap (λ r. answered (loadsig_got_weak r j)) i.reads;
    going = record { reading = i.reading; state = refl };
    same_sig = refl;
  },
  refl,
)
  where
    i : ReadInt weak rest j.io
    i = read_int weak rest j.io small bytes g.reading

strong_round :
    (strong rest : List ℕ) (j : LoadJob)
    → Going s_strong (strong ++ rest) j
    → length strong ≡ j.vars.signature.strong_sum_len
    → 0 < j.vars.signature.strong_sum_len
    → j.vars.signature.strong_sum_len ≤ 32
    → (signature_add_block j.vars.weak_sig strong j.vars.signature).1 ≡ true
    → Next s_weak rest (signature_add_block j.vars.weak_sig strong j.vars.signature).0 j
unfolding loadsig_call loadsig_s_strong loadsig_got_strong loadsig_add_sum job_call job_check_result
strong_round strong rest j g len pos few checked = record {
  next = next b.after;
  moves =
      calls j g
      ∙ ap (λ r. answered (loadsig_got_strong r j)) b.reads
      ∙ ap (λ io. again (next io)) (assert_that-true _ b.after checked);
  going = record { reading = b.reading; state = refl };
  same_sig = refl;
}
  where
    next : Io → LoadJob
    next io = record j {
      io = io;
      statefn = some s_weak;
      vars = record (j.vars) {
        signature = (signature_add_block j.vars.weak_sig strong j.vars.signature).0;
      };
      stats = record (j.stats) { sig_blocks = j.stats.sig_blocks + 1 };
    }

    b : ReadBytes strong rest j.io (scoop_read (sign_extend j.vars.signature.strong_sum_len) j.io)
    b =
        subst (λ n. ReadBytes strong rest j.io (scoop_read n j.io))
          (sym (sign_extend_small j.vars.signature.strong_sum_len (omega arith)))
          (read_bytes j.vars.signature.strong_sum_len strong rest j.io pos (omega arith) len
            g.reading)

-- A job that is done, with the blocks of `sums` in its signature after those of `sig`.
pub record Loaded (sig : Signature) (sums : List Sums) (j : LoadJob) : Type 0 where
  pub reading : Reading [] j.io
  pub has : HasSums sig sums j.vars.signature

end_rounds :
    (n : ℕ) (j : LoadJob)
    → Going s_weak [] j
    → SigValid j.vars.signature
    → (j' : LoadJob) × (job_work loadsig_call (suc (suc n)) j ≡ some (done, j'))
      × Loaded j.vars.signature [] j'
unfolding loadsig_call loadsig_s_weak loadsig_got_weak job_call job_check_result
end_rounds n j g v = (
  record j { io = e.after; statefn = none; final_result = done },
  job_work-done loadsig_call n j (record j { io = e.after; statefn = none })
      (calls j g ∙ ap (λ r. answered (loadsig_got_weak r j)) e.reads) refl e.reading.empty
      e.reading.idle,
  record {
    reading = e.reading;
    has = record {
      magic = refl;
      block_len = refl;
      strong_sum_len = refl;
      hashtable = refl;
      count = omega arith;
      blocks = sym (append-nil j.vars.signature.block_sigs);
      valid = v;
    };
  },
)
  where
    e : ReadEnd j.io
    e = read_end j.io g.reading

-- One block more.
block_more :
    (weak : ℕ) (strong : List ℕ) (sums : List Sums) (sig : Signature) (loaded : Signature)
    → length strong ≡ sig.strong_sum_len
    → sig.count < 2 ^ 28
    → HasSums (signature_add_block weak strong sig).0 sums loaded
    → HasSums sig ((weak, strong) ∷ sums) loaded
unfolding signature_add_block block_weak_sum mixed weaksum_kind
block_more weak strong sums sig loaded len few h = record {
  magic = h.magic;
  block_len = h.block_len;
  strong_sum_len = h.strong_sum_len;
  hashtable = h.hashtable;
  count = omega (arith, h.count, few);
  blocks =
      h.blocks
      ∙ append_assoc sig.block_sigs (entry (take sig.strong_sum_len strong) ∷ [])
          (map (stored sig) sums)
      ∙ ap₂
          (λ w l.
            sig.block_sigs ++ ((record { weak_sum = w; strong_sum = l }) ∷ map (stored sig) sums))
          (sym (mixed_stored (weaksum_kind sig) weak))
          (take-all sig.strong_sum_len strong (omega arith));
  valid = h.valid;
}
  where
    entry : List ℕ → BlockSig
    entry l = record { weak_sum = block_weak_sum (weaksum_kind sig) weak; strong_sum = l }

-- The blocks of the file, one after the other.
pub blocks_run :
    (sums : List Sums) (j : LoadJob)
    → Going s_weak (sums_bytes sums) j
    → All (IsSums j.vars.signature.strong_sum_len) sums
    → 0 < j.vars.signature.strong_sum_len
    → j.vars.signature.strong_sum_len ≤ 32
    → Growing j.vars.signature
    → j.vars.signature.count + length sums ≤ 2 ^ 28
    → (j' : LoadJob) × (job_work loadsig_call (length sums * 2 + 2) j ≡ some (done, j'))
      × Loaded j.vars.signature sums j'
unfolding sums_bytes signature_add_block
blocks_run [] j g all pos few grows room = end_rounds 0 j g grows.valid
blocks_run (s ∷ sums) j g ((weak, len, strong), all) pos few grows room =
    let (j', works, loaded) =
      blocks_run sums n.next n.going (subst (λ m. All (IsSums m) sums) (sym kept) all)
        (omega (arith, kept)) (omega (arith, kept)) (subst Growing (sym added) grown.1)
        (omega (arith, grown.2, ap (λ sig. sig.count) added, room)) in
    (
      j',
      ap (λ k. job_work loadsig_call k j) rounds
          ∙ job_work-again loadsig_call (suc (length sums * 2 + 2)) j w.0.next w.0.moves
          ∙ job_work-again loadsig_call (length sums * 2 + 2) w.0.next n.next n.moves
          ∙ works,
      record {
        reading = loaded.reading;
        has =
            block_more s.0 s.1 sums j.vars.signature j'.vars.signature len (omega (arith, room))
              (subst (λ sig. HasSums sig sums j'.vars.signature) added loaded.has);
      },
    )
  where
    rounds : length (s ∷ sums) * 2 + 2 ≡ suc (suc (length sums * 2 + 2))
    rounds = omega arith

    w :
        (n : Next s_strong (s.1 ++ sums_bytes sums) j.vars.signature j) × (n.next.vars.weak_sig
          ≡ s.0)
    w = weak_round s.0 (s.1 ++ sums_bytes sums) j g weak (
        All-append IsByte s.1 (sums_bytes sums) strong
          (sums_bytes-IsByte j.vars.signature.strong_sum_len sums all))

    same : w.0.next.vars.signature.strong_sum_len ≡ j.vars.signature.strong_sum_len
    same = ap (λ sig. sig.strong_sum_len) w.0.same_sig

    grown :
        ((signature_add_block s.0 s.1 j.vars.signature).1 ≡ true)
        × Growing (signature_add_block s.0 s.1 j.vars.signature).0
        × ((signature_add_block s.0 s.1 j.vars.signature).0.count ≡ j.vars.signature.count + 1)
    grown = signature_add_block-Growing s.0 s.1 j.vars.signature grows (omega (arith, room))

    same_block :
        signature_add_block w.0.next.vars.weak_sig s.1 w.0.next.vars.signature
        ≡ signature_add_block s.0 s.1 j.vars.signature
    same_block = ap₂ (λ a sig. signature_add_block a s.1 sig) w.1 w.0.same_sig

    n :
        Next s_weak
          (sums_bytes sums)
          (signature_add_block w.0.next.vars.weak_sig s.1 w.0.next.vars.signature).0
          w.0.next
    n =
        strong_round s.1 (sums_bytes sums) w.0.next w.0.going (len ∙ sym same) (omega (arith, same))
          (omega (arith, same)) (ap (λ p. p.1) same_block ∙ grown.0)

    added : n.next.vars.signature ≡ (signature_add_block s.0 s.1 j.vars.signature).0
    added = n.same_sig ∙ ap (λ p. p.0) same_block

    kept : n.next.vars.signature.strong_sum_len ≡ j.vars.signature.strong_sum_len
    kept = ap (λ sig. sig.strong_sum_len) added
