-- ===== src/Hashtable/Counters.antt =====
-- src/hashtable.h: the counters of NAME_find, which are no part of the table.
use librsync.Prelude.{ℕ, ◌+◌, ◌≤◌, ◌<◌, ◌≡◌, sym, ap, ◌∙◌, arith}
use librsync.Prelude.{length}
use librsync.Hashtable.{HashTable}
use librsync.Hashtable.Valid.{filled, IsValid}

-- Two tables that differ in their counters only.
pub record SameTable {ℓ} {E : Type ℓ} (t t' : HashTable E) : Type ℓ where
  pub size : t'.size ≡ t.size
  pub count : t'.count ≡ t.count
  pub tmask : t'.tmask ≡ t.tmask
  pub bshift : t'.bshift ≡ t.bshift
  pub kbloom : t'.kbloom ≡ t.kbloom
  pub etable : t'.etable ≡ t.etable
  pub ktable : t'.ktable ≡ t.ktable
  pub find_count : t'.find_count ≡ t.find_count

-- The counters are no part of the invariant.
pub SameTable-IsValid {ℓ} :
    {E : Type ℓ} (hash : E → ℕ) (k : ℕ) (t t' : HashTable E)
    → SameTable t t'
    → IsValid hash k t
    → IsValid hash k t'
SameTable-IsValid hash k t t' s v = record {
  sized = s.size ∙ v.sized;
  some_bits = v.some_bits;
  few_bits = v.few_bits;
  masked = s.tmask ∙ v.masked;
  shifted = s.bshift ∙ v.shifted;
  keys = ap length s.ktable ∙ v.keys;
  entries = ap length s.etable ∙ v.entries;
  blooms = ap length s.kbloom ∙ v.blooms;
  counted = ap filled s.ktable ∙ v.counted ∙ sym s.count;
  roomy = omega (arith, s.count, v.roomy);
  placed = λ i. rw (s.ktable, s.etable) (v.placed i);
  on_path = rw s.ktable v.on_path;
  bloomed = rw (s.ktable, s.kbloom) v.bloomed;
}

pub counted_IsValid {ℓ} :
    {E : Type ℓ} (hash : E → ℕ) (k : ℕ) (t : HashTable E)
    → IsValid hash k t
    → IsValid hash k (record t { find_count = t.find_count + 1 })
counted_IsValid hash k t v = record {
  sized = v.sized;
  some_bits = v.some_bits;
  few_bits = v.few_bits;
  masked = v.masked;
  shifted = v.shifted;
  keys = v.keys;
  entries = v.entries;
  blooms = v.blooms;
  counted = v.counted;
  roomy = v.roomy;
  placed = v.placed;
  on_path = v.on_path;
  bloomed = v.bloomed;
}

-- The counters while a call is under way.
pub record Busy {ℓ} {E : Type ℓ} (t : HashTable E) : Type ℓ where
  pub matched : t.match_count ≤ t.entrycmp_count
  pub compared : t.entrycmp_count ≤ t.hashcmp_count
  pub called : t.match_count < t.find_count

pub same_counts {ℓ} :
    {E : Type ℓ} {t u : HashTable E} (a b c : ℕ)
    → SameTable t u
    → SameTable t (record u { match_count = a; hashcmp_count = b; entrycmp_count = c })
same_counts a b c s = record {
  size = s.size;
  count = s.count;
  tmask = s.tmask;
  bshift = s.bshift;
  kbloom = s.kbloom;
  etable = s.etable;
  ktable = s.ktable;
  find_count = s.find_count;
}
