-- ===== src/Hashtable/Add.antt =====
-- src/hashtable.h: NAME_add keeps the invariant and the entries that are there.
use librsync.Prelude.{
  ℕ, ◌+◌, ◌-◌, ◌*◌, ◌/◌, ◌^◌, ◌<◌, ◌≡◌, refl, sym, ap, ◌∙◌, arith, u32, ◌==◌, ◌≢◌, bit_and,
  ℕ_discrete, dec_lt, inl, inr, Bool, true, false, Bool-cases, ==_false→ne, ne→==, ==_refl,
}
use librsync.Prelude.{
  List, length, get_or, set, Option, none, some, get_or-past, length-set, get_or-set_self,
  get_or-set_other,
}
use librsync.Hashtable.{HashTable, set_bit, get_bit, setbloom, nozero, probe, add_at, hashtable_add}
use librsync.Hashtable.Triangle.{slot, slot-lt}
use librsync.Hashtable.Bloom.{get_bit-set_bit, get_bit-set_bit_other, length-set_bit}
use librsync.Hashtable.Valid.{filled-set, Placed, OnPath, IsValid, SameCounts}
use librsync.Hashtable.Probe.{FirstEmpty, first_empty, probe-FirstEmpty}
use native.Mathlib.Nat.{one-le-pow, div-lt_iff_lt-mul}
use librsync.Prelude.Modular.{pow_add}
use mathlib.Core.Path.{subst}

pub nozero_bounds : (h : ℕ) → h < u32 → (nozero h ≢ 0) × (nozero h < u32)
unfolding nozero
nozero_bounds h lt = elim (Bool-cases (h == 0)) [
  | inl e ↦ rw e ((λ z. absurd (omega (arith, z))), omega arith)
  | inr e ↦ rw e (==_false→ne h 0 e, lt)
]

-- A write of a key that is not zero empties no bucket.
set-ne-zero :
    (ktable : List ℕ) (i b key : ℕ)
    → key ≢ 0
    → get_or ktable b 0 ≢ 0
    → get_or (set ktable i key) b 0 ≢ 0
set-ne-zero ktable i b key ne used = elim (ℕ_discrete i b) [
  | no other ↦ rw (get_or-set_other ktable i b key 0 other) used
  | yes e ↦ λ gone. absurd (self e gone)
]
  where
    self : i ≡ b → get_or (set ktable i key) b 0 ≡ 0 → ⊥
    self e gone = ne (
        sym (get_or-set_self ktable i key 0 (inside e))
        ∙ ap (λ n. get_or (set ktable i key) n 0) e
        ∙ gone)
      where
        inside : i ≡ b → i < length ktable
        inside e = elim (dec_lt i (length ktable)) [
          | yes lt ↦ lt
          | no ge ↦ absurd (used (get_or-past ktable b 0 (omega arith)))
        ]

-- What holds at the bucket written and at the buckets in use holds at all buckets in use after it.
write_all {κ} :
    (P : ℕ → ℕ → Type κ) (ktable : List ℕ) (i key : ℕ)
    → i < length ktable
    → P i key
    → ((j : ℕ) → get_or ktable j 0 ≢ 0 → P j (get_or ktable j 0))
    → (j : ℕ) → get_or (set ktable i key) j 0 ≢ 0
    → P j (get_or (set ktable i key) j 0)
write_all P ktable i key lt new old j = elim (ℕ_discrete i j) [
  | no other ↦ rw (get_or-set_other ktable i j key 0 other) (old j)
  | yes e ↦ λ _.
      subst (λ n. P n (get_or (set ktable i key) n 0)) e
        (subst (P i) (sym (get_or-set_self ktable i key 0 lt)) new)
]

module _ {ℓ} {E : Type ℓ} (hash : E → ℕ) (k : ℕ) (t : HashTable E) (v : IsValid hash k t) where
  -- The upper bits of a hash give a byte of the filter.
  bloom_index : (h : ℕ) → h < u32 → h / 2 ^ (32 - k) / 8 < length t.kbloom
  bloom_index h lt =
      omega (arith, v.blooms, (div-lt_iff_lt-mul (one-le-pow (32 - k) 2 (omega arith))).1 whole)
    where
      total : k + (32 - k) ≡ 32
      total = omega (arith, v.few_bits)

      whole : h < 2 ^ k * 2 ^ (32 - k)
      whole = rw (← pow_add 2 k (32 - k)) (rw total lt)

  module _ (e : E) (small : hash e < u32) (m : ℕ)
      (first : FirstEmpty k t.ktable (nozero (hash e)) m) where
    inside : slot k (nozero (hash e)) m < length t.ktable
    inside = omega (arith, v.keys, slot-lt k (nozero (hash e)) m)

    inside_entries : slot k (nozero (hash e)) m < length t.etable
    inside_entries = omega (arith, v.entries, slot-lt k (nozero (hash e)) m)

    hashed : nozero (hash e) ≢ 0
    hashed = (nozero_bounds (hash e) small).0

    bloom_inside : nozero (hash e) / 2 ^ t.bshift / 8 < length t.kbloom
    bloom_inside = rw v.shifted (bloom_index (nozero (hash e)) (nozero_bounds (hash e) small).1)

    pub added : HashTable E
    added = record t {
      kbloom = set_bit t.kbloom (nozero (hash e) / 2 ^ t.bshift);
      count = t.count + 1;
      ktable = set t.ktable (slot k (nozero (hash e)) m) (nozero (hash e));
      etable = set t.etable (slot k (nozero (hash e)) m) (some e);
    }

    added-Placed : (i : ℕ) → Placed hash (get_or added.ktable i 0) (get_or added.etable i none)
    unfolding added
    added-Placed i = elim (ℕ_discrete (slot k (nozero (hash e)) m) i) [
      | no other ↦
          rw
            (
              get_or-set_other t.ktable (slot k (nozero (hash e)) m) i (nozero (hash e)) 0 other,
              get_or-set_other t.etable (slot k (nozero (hash e)) m) i (some e) none other,
            )
            (v.placed i)
      | yes here ↦ rw (← here) (
          rw
            (
              get_or-set_self t.ktable (slot k (nozero (hash e)) m) (nozero (hash e)) 0 inside,
              get_or-set_self t.etable (slot k (nozero (hash e)) m) (some e) none inside_entries,
            )
            refl)
    ]

    added-OnPath :
        (i : ℕ) → get_or added.ktable i 0 ≢ 0 → OnPath k added.ktable (get_or added.ktable i 0) i
    unfolding added
    added-OnPath =
        write_all
          (λ i key. OnPath k (set t.ktable (slot k (nozero (hash e)) m) (nozero (hash e))) key i)
          t.ktable _ _ inside (m, refl, λ j lt. set-ne-zero t.ktable _ _ _ hashed (first.used j lt))
          (λ i used.
            let (j, there, path) = v.on_path i used in
            (j, there, λ j' lt. set-ne-zero t.ktable _ _ _ hashed (path j' lt)))

    added-bloomed :
        (i : ℕ)
        → get_or added.ktable i 0 ≢ 0
        → get_bit added.kbloom (get_or added.ktable i 0 / 2 ^ (32 - k)) ≡ true
    unfolding added
    added-bloomed =
        write_all
          (λ i key.
            get_bit (set_bit t.kbloom (nozero (hash e) / 2 ^ t.bshift)) (key / 2 ^ (32 - k)) ≡ true)
          t.ktable _ _ inside
          (rw v.shifted (
            get_bit-set_bit t.kbloom (nozero (hash e) / 2 ^ (32 - k))
              (bloom_index (nozero (hash e)) (nozero_bounds (hash e) small).1)))
          (λ i used. get_bit-set_bit_other t.kbloom _ _ bloom_inside (v.bloomed i used))

    added-IsValid : t.count + 1 ≢ t.size → IsValid hash k added
    unfolding added
    added-IsValid ne = record {
      sized = v.sized;
      some_bits = v.some_bits;
      few_bits = v.few_bits;
      masked = v.masked;
      shifted = v.shifted;
      keys = length-set t.ktable _ _ ∙ v.keys;
      entries = length-set t.etable _ _ ∙ v.entries;
      blooms = length-set_bit t.kbloom _ ∙ v.blooms;
      counted = filled-set t.ktable _ _ inside first.vacant hashed ∙ ap (λ n. n + 1) v.counted;
      roomy = omega (arith, v.roomy, v.sized, ne);
      placed = added-Placed;
      on_path = added-OnPath;
      bloomed = added-bloomed;
    }

  -- What NAME_add leaves: nothing where only one bucket is empty, and otherwise a valid table with the
  -- entry in a bucket that was empty and the other buckets as they were.
  pub data AddOk (e : E) : Option (HashTable E × Bool) → Type ℓ where
    full :
        (r : Option (HashTable E × Bool)) → t.count + 1 ≡ t.size → r ≡ some (t, false) → AddOk e r
    new_entry :
        (r : Option (HashTable E × Bool)) (t' : HashTable E) (i : ℕ)
        → t.count + 1 ≢ t.size
        → r ≡ some (t', true)
        → IsValid hash k t'
        → i < t.size
        → get_or t.ktable i 0 ≡ 0
        → t'.count ≡ t.count + 1
        → t'.size ≡ t.size
        → t'.etable ≡ set t.etable i (some e)
        → SameCounts t t'
        → AddOk e r

  -- NAME_add in a valid table of an entry whose hash is an unsigned: the loop ends, and it adds
  -- nothing and returns NULL where count + 1 is size; otherwise the table stays valid, count grows
  -- by one, and the entry stands in a bucket that was empty, with all other buckets and the
  -- counters as they were.
  pub hashtable_add-AddOk : (e : E) → hash e < u32 → AddOk e (hashtable_add hash t e)
  unfolding hashtable_add add_at setbloom added
  hashtable_add-AddOk e small = elim (ℕ_discrete (t.count + 1) t.size) [
    | yes full_up ↦ full _ full_up (rw full_up (rw (==_refl t.size) refl))
    | no ne ↦
        let (m, first) =
          first_empty k t.ktable (nozero (hash e)) v.keys (omega (arith, v.counted, v.roomy)) in
        new_entry _ (added e small m first) (slot k (nozero (hash e)) m) ne
          (rw (ne→== _ _ ne) (ended m first)) (added-IsValid e small m first ne)
          (omega (arith, v.sized, slot-lt k (nozero (hash e)) m)) first.vacant refl refl refl
          (record {
            find_count = refl;
            match_count = refl;
            hashcmp_count = refl;
            entrycmp_count = refl;
          })
  ]
    where
      ended :
          (m : ℕ) (first : FirstEmpty k t.ktable (nozero (hash e)) m)
          → add_at
              (setbloom t (nozero (hash e)))
              (nozero (hash e))
              e
              (probe t.size t.ktable t.tmask (bit_and (nozero (hash e)) t.tmask) 0)
            ≡ some (added e small m first, true)
      ended m first = ap (λ o. add_at (setbloom t (nozero (hash e))) (nozero (hash e)) e o) stops
        where
          stops :
              probe t.size t.ktable t.tmask (bit_and (nozero (hash e)) t.tmask) 0
              ≡ some (slot k (nozero (hash e)) m)
          stops =
              rw (v.sized, v.masked)
                (probe-FirstEmpty k v.few_bits t.ktable (nozero (hash e)) m first)
