-- ===== src/Hashtable/Valid.antt =====
-- src/hashtable.c: the invariant of a hash table of 2 ^ k buckets, and the table that _hashtable_new
-- makes.
use librsync.Prelude.{
  ℕ, zero, suc, ◌+◌, ◌-◌, ◌*◌, ◌/◌, ◌%◌, ◌^◌, ◌≤◌, ◌<◌, ◌≡◌, refl, sym, ◌∙◌, arith, u32, leb, ltb,
  ◌==◌, ◌||◌, ◌&&◌, ◌⊎◌, ◌≢◌, if◌then◌else◌, Bool, true, false, Bool-cases, inl, inr, dec_lt,
}
use librsync.Prelude.{
  List, [], ◌∷◌, length, get_or, replicate, Option, none, some, get_or-replicate, length-replicate,
  set,
}
use librsync.Hashtable.{
  sizeof_hashtable, HashTable, get_bit, nozero, next_size, allocated, new_of_size, hashtable_new,
  stats_init,
}
use mathlib.Core.Path.{ap₂}
use native.Mathlib.Nat.{pow-suc, one-le-pow, mod-eq_of_lt, pow-le-pow_right}
use librsync.Hashtable.Triangle.{slot}

-- The buckets that are not empty.
unfoldable pub filled : List ℕ → ℕ
filled [] = 0
filled (key ∷ ktable) = (if key == 0 then 0 else 1) + filled ktable

pub filled-replicate : (n : ℕ) → filled (replicate n 0) ≡ 0
unfolding filled
filled-replicate zero = refl
filled-replicate (suc n) = omega (arith, filled-replicate n)

pub filled_none : (ktable : List ℕ) (i : ℕ) → filled ktable ≡ 0 → get_or ktable i 0 ≡ 0
unfolding filled
filled_none [] i h = refl
filled_none (key ∷ ktable) zero h = ground arith
filled_none (key ∷ ktable) (suc i) h = filled_none ktable i (ground arith)

-- Filling an empty bucket adds one to their number.
pub filled-set :
    (ktable : List ℕ) (i key : ℕ)
    → i < length ktable
    → get_or ktable i 0 ≡ 0
    → key ≢ 0
    → filled (set ktable i key) ≡ filled ktable + 1
unfolding filled
filled-set [] i key h e ne = absurd (omega arith)
filled-set (x ∷ ktable) zero key h e ne = ground arith
filled-set (x ∷ ktable) (suc i) key h e ne =
    omega (arith, filled-set ktable i key (omega arith) e ne)

-- Where not all buckets are filled, one is empty.
pub filled_gap :
    (ktable : List ℕ)
    → filled ktable < length ktable
    → (i : ℕ) × (i < length ktable) × (get_or ktable i 0 ≡ 0)
unfolding filled
filled_gap [] h = absurd (omega arith)
filled_gap (zero ∷ ktable) h = (0, omega arith, refl)
filled_gap (suc key ∷ ktable) h =
    let (i, below, e) = filled_gap ktable (ground arith) in (suc i, omega arith, e)

-- A bucket is empty in both tables, or has an entry and the hash of its key.
abbrev pub Placed {ℓ} : {E : Type ℓ} → (E → ℕ) → ℕ → Option E → Type 0
Placed hash key none = key ≡ 0
Placed hash key (some e) = key ≡ nozero (hash e)

-- The probe for `key` passes only buckets in use before it comes to the bucket `i`.
abbrev pub OnPath : ℕ → List ℕ → ℕ → ℕ → Type 0
OnPath k ktable key i =
    (j : ℕ) × (slot k key j ≡ i) × ((j' : ℕ) → j' < j → get_or ktable (slot k key j') 0 ≢ 0)

pub record IsValid {ℓ} {E : Type ℓ} (hash : E → ℕ) (k : ℕ) (t : HashTable E) : Type ℓ where
  pub sized : t.size ≡ 2 ^ k
  pub some_bits : 0 < k
  pub few_bits : k ≤ 30
  pub masked : t.tmask ≡ 2 ^ k - 1
  pub shifted : t.bshift ≡ 32 - k
  pub keys : length t.ktable ≡ 2 ^ k
  pub entries : length t.etable ≡ 2 ^ k
  pub blooms : length t.kbloom ≡ (2 ^ k + 7) / 8
  pub counted : filled t.ktable ≡ t.count
  pub roomy : t.count < 2 ^ k
  pub placed : (i : ℕ) → Placed hash (get_or t.ktable i 0) (get_or t.etable i none)
  pub on_path : (i : ℕ) → get_or t.ktable i 0 ≢ 0 → OnPath k t.ktable (get_or t.ktable i 0) i
  pub bloomed :
      (i : ℕ)
      → get_or t.ktable i 0 ≢ 0
      → get_bit t.kbloom (get_or t.ktable i 0 / 2 ^ (32 - k)) ≡ true

-- The counters of NAME_find never count more matches than compares of entries, more of these than
-- compares of hashes, or more matches than calls.
pub record Counted {ℓ} {E : Type ℓ} (t : HashTable E) : Type ℓ where
  pub matched : t.match_count ≤ t.entrycmp_count
  pub compared : t.entrycmp_count ≤ t.hashcmp_count
  pub called : t.match_count ≤ t.find_count

-- Two tables with the same counters of NAME_find.
pub record SameCounts {ℓ} {E : Type ℓ} (t t' : HashTable E) : Type ℓ where
  pub find_count : t'.find_count ≡ t.find_count
  pub match_count : t'.match_count ≡ t.match_count
  pub hashcmp_count : t'.hashcmp_count ≡ t.hashcmp_count
  pub entrycmp_count : t'.entrycmp_count ≡ t.entrycmp_count

-- What the loop of _hashtable_new finds: a power of two that is large enough.
NextOk : ℕ → Option (ℕ × ℕ) → Type 0
NextOk size none = ⊥
NextOk size (some (size2, bits2)) =
    (size2 ≡ 2 ^ bits2) × (size ≤ size2) × (0 < bits2) × (bits2 ≤ 30)

next_size-NextOk :
    (fuel size bits2 : ℕ)
    → size ≤ 2 ^ 30
    → 0 < bits2
    → bits2 + fuel ≡ 32
    → bits2 ≤ 30
    → NextOk size (next_size fuel size (2 ^ bits2) bits2)
unfolding next_size NextOk
next_size-NextOk zero size bits2 small pos f b = absurd (omega arith)
next_size-NextOk (suc fuel) size bits2 small pos f b =
    elim (Bool-cases (leb (2 ^ 31) (2 ^ bits2) || ltb (2 ^ bits2) size)) [
      | inl more ↦ rw more (
          rw doubled
            (next_size-NextOk fuel size (suc bits2) small (omega arith) (omega arith) (fewer more)))
      | inr stop ↦ rw stop (refl, large stop, pos, b)
    ]
  where
    bound : 2 ^ bits2 ≤ 2 ^ 30
    bound = pow-le-pow_right {n = 2} (omega arith) {i = bits2} {j = 30} b

    doubled_suc : 2 ^ bits2 * 2 % u32 ≡ 2 ^ suc bits2
    doubled_suc = mod-eq_of_lt (omega (arith, bound)) ∙ sym (pow-suc 2 bits2)

    doubled :
        next_size fuel size (2 ^ bits2 * 2 % u32) (bits2 + 1)
        ≡ next_size fuel size (2 ^ suc bits2) (suc bits2)
    doubled = ap₂ (λ a b. next_size fuel size a b) doubled_suc (omega arith)

    large : (leb (2 ^ 31) (2 ^ bits2) || ltb (2 ^ bits2) size) ≡ false → size ≤ 2 ^ bits2
    large e = ground (arith, e)

    fewer : (leb (2 ^ 31) (2 ^ bits2) || ltb (2 ^ bits2) size) ≡ true → suc bits2 ≤ 30
    fewer e = elim (dec_lt bits2 30) [
      | yes lt ↦ lt
      | no ge ↦
          absurd
            (not_more (pow-le-pow_right {n = 2} (omega arith) {i = 30} {j = bits2} (omega arith)) e)
    ]
      where
        not_more :
            2 ^ 30 ≤ 2 ^ bits2 → (leb (2 ^ 31) (2 ^ bits2) || ltb (2 ^ bits2) size) ≡ true → ⊥
        not_more big test = ground (arith, bound)

module _ {ℓ} {E : Type ℓ} (hash : E → ℕ) where
  unfoldable pub new_table : ℕ → HashTable E
  new_table k = record {
    size = 2 ^ k;
    count = 0;
    tmask = 2 ^ k - 1;
    bshift = 32 - k;
    find_count = 0;
    match_count = 0;
    hashcmp_count = 0;
    entrycmp_count = 0;
    kbloom = replicate ((2 ^ k + 7) / 8) 0;
    etable = replicate (2 ^ k) none;
    ktable = replicate (2 ^ k) 0;
  }

  pub new_table-IsValid : (k : ℕ) → 0 < k → k ≤ 30 → IsValid hash k (new_table k)
  unfolding new_table
  new_table-IsValid k pos few = record {
    sized = refl;
    some_bits = pos;
    few_bits = few;
    masked = refl;
    shifted = refl;
    keys = length-replicate (2 ^ k) 0;
    entries = length-replicate (2 ^ k) none;
    blooms = length-replicate ((2 ^ k + 7) / 8) 0;
    counted = filled-replicate (2 ^ k);
    roomy = one-le-pow k 2 (omega arith);
    placed = λ i.
        rw (get_or-replicate {A = ℕ} (2 ^ k) i 0, get_or-replicate {A = Option E} (2 ^ k) i none)
          refl;
    on_path = λ i ne. absurd (ne (get_or-replicate (2 ^ k) i 0));
    bloomed = λ i ne. absurd (ne (get_or-replicate (2 ^ k) i 0));
  }

  -- What _hashtable_new leaves: NULL if a block of memory is refused, and otherwise a valid table that
  -- has no entries and takes at least `size` of them.
  abbrev pub NewOk : (ℕ → Bool) → ℕ → Option (HashTable E) → Type ℓ
  NewOk calloc size none = (n : ℕ) × (calloc n ≡ false) × Unit {ℓ}
  NewOk calloc size (some t) =
      (k : ℕ) × IsValid hash k t × (t.count ≡ 0) × (size < t.size) × Counted t

  new_of_size-NewOk :
      (calloc : ℕ → Bool) (size : ℕ) (next : Option (ℕ × ℕ))
      → NextOk (1 + size * 10 / 7) next
      → NewOk calloc size (new_of_size calloc next)
  unfolding new_of_size NextOk new_table allocated
  new_of_size-NewOk calloc size none bad = absurd bad
  new_of_size-NewOk calloc size (some (size2, bits2)) (pow, large, pos, few) =
      elim (Bool-cases (allocated calloc size2)) [
        | inl e ↦
            rw (e, pow)
              (
                bits2,
                new_table-IsValid bits2 pos few,
                refl,
                omega (arith, large),
                (record { matched = omega arith; compared = omega arith; called = omega arith }),
              )
        | inr e ↦ rw e (
            refused (Bool-cases (calloc (sizeof_hashtable + size2 * 4)))
              (Bool-cases (calloc (size2 * 8))) e)
      ]
    where
      refused :
          (calloc (sizeof_hashtable + size2 * 4) ≡ true)
            ⊎ (calloc (sizeof_hashtable + size2 * 4) ≡ false)
          → (calloc (size2 * 8) ≡ true) ⊎ (calloc (size2 * 8) ≡ false)
          → (calloc (sizeof_hashtable + size2 * 4)
              && (calloc (size2 * 8) && calloc ((size2 + 7) / 8)))
            ≡ false
          → (n : ℕ) × (calloc n ≡ false) × Unit {ℓ}
      refused (inr a) b e = (sizeof_hashtable + size2 * 4, a, tt)
      refused (inl a) (inr b) e = (size2 * 8, b, tt)
      refused (inl a) (inl b) e = ((size2 + 7) / 8, ground (arith, e), tt)

  -- _hashtable_new, for a size of which ten times is an int, returns NULL only if calloc has
  -- refused a block, and otherwise an empty table that meets the invariant and has more buckets
  -- than `size`.
  pub hashtable_new-NewOk :
      (calloc : ℕ → Bool) (size : ℕ)
      → size * 10 < 2 ^ 31
      → NewOk calloc size (hashtable_new calloc size)
  unfolding hashtable_new
  hashtable_new-NewOk calloc size small =
      new_of_size-NewOk calloc size (next_size 31 (1 + size * 10 / 7) 2 1)
        (next_size-NextOk 31 (1 + size * 10 / 7) 1 (omega arith) (omega arith) refl (omega arith))

  -- hashtable_stats_init clears the counters and nothing else.
  pub stats_init-IsValid :
      (k : ℕ) (t : HashTable E) → IsValid hash k t → IsValid hash k (stats_init t)
  unfolding stats_init
  stats_init-IsValid k t v = record {
    sized = v.sized;
    some_bits = v.some_bits;
    few_bits = v.few_bits;
    masked = v.masked;
    shifted = v.shifted;
    keys = v.keys;
    entries = v.entries;
    blooms = v.blooms;
    counted = v.counted;
    roomy = v.roomy;
    placed = v.placed;
    on_path = v.on_path;
    bloomed = v.bloomed;
  }
