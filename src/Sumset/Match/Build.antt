-- ===== src/Sumset/Match/Build.antt =====
-- src/sumset.c: rs_build_hash_table puts a block of each kind into the hash table.
use librsync.Prelude.{
  ℕ, zero, suc, ◌+◌, ◌≤◌, ◌<◌, ◌≡◌, refl, sym, ap, ◌∙◌, arith, u32, ℕ_discrete, Bool, true,
}
use librsync.Prelude.{
  List, length, get_or, set, take, Option, none, some, get_or-set_self, get_or-set_other,
  get_or-past, length-set, dec_lt,
}
use librsync.Hashtable.{HashTable, Found, nozero, hashtable_add}
use librsync.Hashtable.Valid.{Counted, Placed, IsValid}
use librsync.Hashtable.Add.{nozero_bounds, AddOk, full, new_entry, hashtable_add-AddOk}
use librsync.Hashtable.Counters.{SameTable, SameTable-IsValid, counted_IsValid}
use librsync.Hashtable.Find.{Answer, answered, unanswered, FindOk, hashtable_find-FindOk}
use librsync.Sumset.{Signature}
use librsync.Sumset.Match.{
  BlockMatch, block_at, block_hash, match_of_block, block_match_cmp, table_of, add_unless,
  build_block, build_blocks, built,
}
use librsync.Sumset.Match.Compare.{
  StandsFor, strong_matches, same_bytes_refl, block_match_cmp-StandsFor, match_of_block-StandsFor,
}
use librsync.Prelude.Slices.{take-take}
use mathlib.Core.Path.{subst, ap₂}

some_inj : {m n : ℕ} → some m ≡ some n → m ≡ n
some_inj e = cc

past : {n : ℕ} → none ≡ some n → ⊥
past e = cc

module _ (blake2 : List ℕ → List ℕ) (sig : Signature) where
  -- The hash table has an entry for the sums of each of the first `n` blocks, and all its entries are
  -- among these blocks.
  pub record Built (n : ℕ) (t : HashTable ℕ) : Type 0 where
    pub bits : ℕ
    pub valid : IsValid (block_hash sig) bits t
    pub counts : Counted t
    pub few : t.count ≤ n
    pub enough : sig.count < t.size
    pub among : (b e : ℕ) → get_or t.etable b none ≡ some e → e < n
    pub covers :
        (idx : ℕ)
        → idx < n
        → (b e : ℕ) × (get_or t.etable b none ≡ some e)
          × (nozero (block_hash sig e) ≡ nozero (block_hash sig idx))
          × (strong_matches blake2 sig (take sig.strong_sum_len (block_at sig idx).strong_sum) e
              ≡ true)

  -- A hash in a bucket is that of the entry there.
  pub key_of_entry :
      {n : ℕ} {t : HashTable ℕ} (built : Built n t) (b e : ℕ)
      → get_or t.etable b none ≡ some e
      → get_or t.ktable b 0 ≡ nozero (block_hash sig e)
  key_of_entry {t = t} built b e here =
      subst (λ o. Placed (block_hash sig) (get_or t.ktable b 0) o) here (built.valid.placed b)

  pub counted-Built :
      (n : ℕ) (t : HashTable ℕ) → Built n t → Built n (record t { find_count = t.find_count + 1 })
  counted-Built n t b = record {
    bits = b.bits;
    valid = counted_IsValid (block_hash sig) b.bits t b.valid;
    counts = record {
      matched = b.counts.matched;
      compared = b.counts.compared;
      called = omega (arith, b.counts.called);
    };
    few = b.few;
    enough = b.enough;
    among = b.among;
    covers = b.covers;
  }

  pub SameTable-Built :
      (n : ℕ) (t t' : HashTable ℕ) → SameTable t t' → Counted t' → Built n t → Built n t'
  SameTable-Built n t t' s c b = record {
    bits = b.bits;
    valid = SameTable-IsValid (block_hash sig) b.bits t t' s b.valid;
    counts = c;
    few = omega (arith, s.count, b.few);
    enough = omega (arith, s.size, b.enough);
    among = rw s.etable b.among;
    covers = rw s.etable b.covers;
  }

  module _ (small : (idx : ℕ) → block_hash sig idx < u32) where
    -- The block of index `i` is found: nothing is added.
    found_one :
        (i e : ℕ) (t : HashTable ℕ)
        → Built i t
        → (b : ℕ) → get_or t.ktable b 0 ≡ nozero (block_hash sig i)
        → get_or t.etable b none ≡ some e
        → strong_matches blake2 sig (take sig.strong_sum_len (block_at sig i).strong_sum) e ≡ true
        → Built (suc i) t
    found_one i e t built b key here matched = record {
      bits = built.bits;
      valid = built.valid;
      counts = built.counts;
      few = omega (arith, built.few);
      enough = built.enough;
      among = λ b e here. omega (arith, built.among b e here);
      covers = λ idx lt. elim (ℕ_discrete idx i) [
        | no ne ↦ built.covers idx (omega arith)
        | yes same ↦ rw same (b, e, here, sym (key_of_entry built b e here) ∙ key, matched)
      ];
    }

    module _ (i : ℕ) (t : HashTable ℕ) (b : Built i t) (p : ℕ) where
      now_among : (p' e : ℕ) → get_or (set t.etable p (some i)) p' none ≡ some e → e < suc i
      now_among p' e here = elim (ℕ_discrete p p') [
        | no ne ↦
            omega
              (arith, b.among p' e (sym (get_or-set_other t.etable p p' (some i) none ne) ∙ here))
        | yes same ↦
            at_new (dec_lt p (length t.etable))
              (subst (λ q. get_or (set t.etable p (some i)) q none ≡ some e) (sym same) here)
      ]
        where
          at_new :
              Dec (p < length t.etable)
              → get_or (set t.etable p (some i)) p none ≡ some e
              → e < suc i
          at_new (yes lt) h =
              omega (arith, some_inj (sym (get_or-set_self t.etable p (some i) none lt) ∙ h))
          at_new (no ge) h = absurd (
              past (
                sym (
                  get_or-past (set t.etable p (some i)) p none
                    (omega (arith, length-set t.etable p (some i))))
                ∙ h))

      -- An entry that is there stays.
      stays :
          get_or t.ktable p 0 ≡ 0
          → (p' e : ℕ) → get_or t.etable p' none ≡ some e
          → get_or (set t.etable p (some i)) p' none ≡ some e
      stays vacant p' e here = elim (ℕ_discrete p p') [
        | no ne ↦ get_or-set_other t.etable p p' (some i) none ne ∙ here
        | yes same ↦ absurd (
            (nozero_bounds (block_hash sig e) (small e)).0
              (sym (key_of_entry b p' e here) ∙ rw (← same) vacant))
      ]

      now_covers :
          get_or t.ktable p 0 ≡ 0
          → p < length t.etable
          → (idx : ℕ) → idx < suc i
          → (p' e : ℕ) × (get_or (set t.etable p (some i)) p' none ≡ some e)
            × (nozero (block_hash sig e) ≡ nozero (block_hash sig idx))
            × (strong_matches blake2 sig (take sig.strong_sum_len (block_at sig idx).strong_sum) e
                ≡ true)
      now_covers vacant inside idx lt = elim (ℕ_discrete idx i) [
        | no ne ↦
            let (p', e, here, weak, strong) = b.covers idx (omega arith) in
            (p', e, stays vacant p' e here, weak, strong)
        | yes same ↦ rw same (p, i, get_or-set_self t.etable p (some i) none inside, refl, own)
      ]
        where
          own :
              strong_matches blake2 sig (take sig.strong_sum_len (block_at sig i).strong_sum) i
              ≡ true
          own =
              rw
                (take-take sig.strong_sum_len sig.strong_sum_len (block_at sig i).strong_sum
                  (omega arith))
                (same_bytes_refl _)

    added_one :
        (i : ℕ) (t : HashTable ℕ)
        → i < sig.count
        → Built i t
        → (t' : HashTable ℕ) × (table_of (hashtable_add (block_hash sig) t i) ≡ some t')
          × Built (suc i) t'
    unfolding table_of
    added_one i t lt b = split (hashtable_add-AddOk (block_hash sig) b.bits t b.valid i (small i))
      where
        split :
            {r : Option (HashTable ℕ × Bool)}
            → AddOk (block_hash sig) b.bits t b.valid i r
            → (t' : HashTable ℕ) × (table_of r ≡ some t') × Built (suc i) t'
        split (full r whole e) = absurd (omega (arith, b.few, b.enough))
        split (new_entry r t' p ne e valid inside vacant count size etable kept) = (
          t',
          ap table_of e,
          record {
            bits = b.bits;
            valid = valid;
            counts = record {
              matched = omega (arith, kept.match_count, kept.entrycmp_count, b.counts.matched);
              compared = omega (arith, kept.hashcmp_count, kept.entrycmp_count, b.counts.compared);
              called = omega (arith, kept.match_count, kept.find_count, b.counts.called);
            };
            few = omega (arith, count, b.few);
            enough = omega (arith, size, b.enough);
            among = rw etable (now_among i t b p);
            covers =
                rw etable (
                  now_covers i t b p vacant
                    (omega (arith, inside, b.valid.sized, b.valid.entries)));
          },
        )

    build_block-Built :
        (i : ℕ) (t : HashTable ℕ)
        → i < sig.count
        → Built i t
        → (t' : HashTable ℕ) × (build_block blake2 sig i t ≡ some t') × Built (suc i) t'
    unfolding build_block add_unless
    build_block-Built i t lt b = searched (
        hashtable_find-FindOk (block_match_cmp blake2 sig)
          (StandsFor blake2 sig target sig.calc_strong_count) (strong_matches blake2 sig target)
          (block_match_cmp-StandsFor blake2 sig target sig.calc_strong_count) (block_hash sig)
          b.bits t (block_hash sig i) (match_of_block sig (block_at sig i)) b.valid b.counts
          (small i) (match_of_block-StandsFor blake2 sig (block_at sig i)))
      where
        target : List ℕ
        target = take sig.strong_sum_len (block_at sig i).strong_sum

        start : HashTable ℕ
        start = record t { find_count = t.find_count + 1 }

        answer_of :
            (t' : HashTable ℕ) (m : BlockMatch) (o : Option ℕ)
            → SameTable start t'
            → Built i t'
            → Answer
                (block_match_cmp blake2 sig)
                (StandsFor blake2 sig target sig.calc_strong_count)
                (strong_matches blake2 sig target)
                (block_match_cmp-StandsFor blake2 sig target sig.calc_strong_count)
                start
                (nozero (block_hash sig i))
                o
            → (t'' : HashTable ℕ) × (add_unless sig i (some (t', m, o)) ≡ some t'')
              × Built (suc i) t''
        answer_of t' m o s b' (answered e p key here matched) =
            (t', refl, found_one i e t' b' p (rw s.ktable key) (rw s.etable here) matched)
        answer_of t' m o s b' (unanswered nothing) = added_one i t' lt b'

        searched :
            {r : Found ℕ BlockMatch}
            → FindOk
                (block_match_cmp blake2 sig)
                (StandsFor blake2 sig target sig.calc_strong_count)
                (strong_matches blake2 sig target)
                (block_match_cmp-StandsFor blake2 sig target sig.calc_strong_count)
                start
                (nozero (block_hash sig i))
                r
            → (t'' : HashTable ℕ) × (add_unless sig i r ≡ some t'') × Built (suc i) t''
        searched f =
            let (t'', e, b'') =
              answer_of f.table f.match_state f.entry f.same
                (SameTable-Built i start f.table f.same f.counts (counted-Built i t b)) f.answer in
            (t'', ap (add_unless sig i) f.ended ∙ e, b'')

    pub build_blocks-Built :
        (n i : ℕ) (t : HashTable ℕ)
        → i + n ≡ sig.count
        → Built i t
        → (t' : HashTable ℕ) × (build_blocks blake2 sig i n (some t) ≡ some t') × Built sig.count t'
    unfolding build_blocks
    build_blocks-Built zero i t total b = (t, refl, subst (λ n. Built n t) (omega arith) b)
    build_blocks-Built (suc n) i t total b =
        let (t', e, b') = build_block-Built i t (omega arith) b in
        let (t'', e', b'') = build_blocks-Built n (suc i) t' (omega arith) b' in
        (t'', ap₂ (λ k r. build_blocks blake2 sig k n r) add_one e ∙ e', b'')
      where
        add_one : i + 1 ≡ suc i
        add_one = omega arith
