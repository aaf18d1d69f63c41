-- ===== src/Hashtable.antt =====
-- src/hashtable.h and src/hashtable.c: an open-addressing hash table with triangular probing and a
-- Bloom filter, generic in its entries, as the macros NAME_new to NAME_next make it. An `unsigned`
-- is a number below 2 ^ 32. A key of zero marks an empty bucket.
pub mod Triangle
pub mod Bloom
pub mod Valid
pub mod Probe
pub mod Add
pub mod Counters
pub mod Search
pub mod Find
pub mod Iterate
use librsync.Prelude.{
  ℕ, zero, suc, ◌+◌, ◌-◌, ◌*◌, ◌/◌, ◌%◌, ◌^◌, u32, ltb, leb, ◌==◌, if◌then◌else◌, bit_and, bit_or,
}
use librsync.Prelude.{
  Bool, true, false, ◌||◌, ◌&&◌, List, [], ◌∷◌, get_or, set, replicate, Option, none, some,
}

-- `hashtable_t`; `kbloom` is bytes, and the tables have a bucket for each index below `size`.
pub record HashTable {ℓ} (E : Type ℓ) : Type ℓ where
  pub size : ℕ
  pub count : ℕ
  pub tmask : ℕ
  pub bshift : ℕ
  pub find_count : ℕ
  pub match_count : ℕ
  pub hashcmp_count : ℕ
  pub entrycmp_count : ℕ
  pub kbloom : List ℕ
  pub etable : List (Option E)
  pub ktable : List ℕ

-- `kbloom[i / 8] |= 1 << (i % 8)`, for the index that the upper bits of a hash give
unfoldable pub set_bit : List ℕ → ℕ → List ℕ
set_bit kbloom i = set kbloom (i / 8) (bit_or (get_or kbloom (i / 8) 0) (2 ^ (i % 8)) % 256)

unfoldable pub get_bit : List ℕ → ℕ → Bool
get_bit kbloom i = get_or kbloom (i / 8) 0 / 2 ^ (i % 8) % 2 == 1

unfoldable pub setbloom {ℓ} : {E : Type ℓ} → HashTable E → ℕ → HashTable E
unfolding set_bit
setbloom t h = record t { kbloom = set_bit t.kbloom (h / 2 ^ t.bshift) }

unfoldable pub getbloom {ℓ} : {E : Type ℓ} → HashTable E → ℕ → Bool
unfolding get_bit
getbloom t h = get_bit t.kbloom (h / 2 ^ t.bshift)

unfoldable pub nozero : ℕ → ℕ
nozero h = if h == 0 then u32 - 1 else h

-- The loop `for (size2 = 2, bits2 = 1; (int)size2 < size; size2 <<= 1, bits2++)`: a power of two is a
-- negative int when it is 2 ^ 31.
unfoldable pub next_size : ℕ → ℕ → ℕ → ℕ → Option (ℕ × ℕ)
next_size zero size size2 bits2 = none
next_size (suc fuel) size size2 bits2 =
    let rest = next_size fuel size (size2 * 2 % u32) (bits2 + 1) in
    if leb (2 ^ 31) size2 || ltb size2 size then rest else some (size2, bits2)

-- `sizeof(hashtable_t)`, on a machine with pointers of eight bytes
abbrev pub sizeof_hashtable : ℕ
sizeof_hashtable = 64

-- The three blocks that `_hashtable_new` asks for, where `calloc n` tells whether there is one.
unfoldable pub allocated : (ℕ → Bool) → ℕ → Bool
allocated calloc size2 =
    calloc (sizeof_hashtable + size2 * 4) && (calloc (size2 * 8) && calloc ((size2 + 7) / 8))

unfoldable pub new_of_size {ℓ} : {E : Type ℓ} → (ℕ → Bool) → Option (ℕ × ℕ) → Option (HashTable E)
new_of_size calloc none = none
new_of_size calloc (some (size2, bits2)) =
    if allocated calloc size2
    then some (record {
      size = size2;
      count = 0;
      tmask = size2 - 1;
      bshift = 32 - bits2;
      find_count = 0;
      match_count = 0;
      hashcmp_count = 0;
      entrycmp_count = 0;
      kbloom = replicate ((size2 + 7) / 8) 0;
      etable = replicate size2 none;
      ktable = replicate size2 0;
    })
    else none

-- `_hashtable_new`, for a size whose multiple by ten is an int; `none` is NULL.
unfoldable pub hashtable_new {ℓ} : {E : Type ℓ} → (ℕ → Bool) → ℕ → Option (HashTable E)
unfolding new_of_size next_size
hashtable_new calloc size = new_of_size calloc (next_size 31 (1 + size * 10 / 7) 2 1)

unfoldable pub stats_init {ℓ} : {E : Type ℓ} → HashTable E → HashTable E
stats_init t = record t { find_count = 0; match_count = 0; hashcmp_count = 0; entrycmp_count = 0 }

-- `i = (i + ++s) & tmask`, where `s` is the new value of the counter
unfoldable pub next_index : ℕ → ℕ → ℕ → ℕ
next_index tmask i s = bit_and ((i + s) % u32) tmask

-- `_for_probe` with an empty body: the empty bucket at which the loop ends.
unfoldable pub probe : ℕ → List ℕ → ℕ → ℕ → ℕ → Option ℕ
unfolding next_index
probe zero ktable tmask i s = none
probe (suc fuel) ktable tmask i s =
    let rest = probe fuel ktable tmask (next_index tmask i ((s + 1) % u32)) ((s + 1) % u32) in
    if get_or ktable i 0 == 0 then some i else rest

unfoldable pub add_at {ℓ} :
    {E : Type ℓ} → HashTable E → ℕ → E → Option ℕ → Option (HashTable E × Bool)
add_at t he e none = none
add_at t he e (some i) = some (
  record t { count = t.count + 1; ktable = set t.ktable i he; etable = set t.etable i (some e) },
  true,
)

-- `NAME_add` of an entry whose key has the hash `hash`: the table, and whether the entry was added.
-- `none` is a loop that does not end within `size` buckets.
unfoldable pub hashtable_add {ℓ} :
    {E : Type ℓ} → (E → ℕ) → HashTable E → E → Option (HashTable E × Bool)
unfolding nozero setbloom probe add_at
hashtable_add hash t e =
    let he = nozero (hash e) in
    let added =
      add_at (setbloom t he) he e (probe t.size t.ktable t.tmask (bit_and he t.tmask) 0) in
    if t.count + 1 == t.size then some (t, false) else added

abbrev pub Found {ℓ κ} : Type ℓ → Type κ → Type (ℓ ⊔ κ)
Found E M = Option (HashTable E × M × Option E)

module _ {ℓ κ} {E : Type ℓ} {M : Type κ} (cmp : M → E → M × Bool) where
  -- `!MATCH_cmp(m, e)`, which may change the match object, is true when they match.
  unfoldable pub find_compared :
      (HashTable E → M → Found E M) → HashTable E → E → M × Bool → Found E M
  find_compared next t e (m, true) = some (record t { match_count = t.match_count + 1 }, m, some e)
  find_compared next t e (m, false) = next t m

  -- An entry of NULL would be a fault.
  unfoldable pub find_entry : (HashTable E → M → Found E M) → HashTable E → M → Option E → Found E M
  unfolding find_compared
  find_entry next t m none = none
  find_entry next t m (some e) = find_compared next t e (cmp m e)

  -- The loop of `NAME_find` at a bucket of key `he`, and what follows the loop at an empty one.
  unfoldable pub find_bucket :
      (HashTable E → M → Found E M) → HashTable E → ℕ → M → ℕ → ℕ → Found E M
  unfolding find_entry
  find_bucket next t0 hm m he i =
      let t = record t0 { hashcmp_count = t0.hashcmp_count + 1 } in
      if he == 0
      then some (t, m, none)
      else if hm == he
      then find_entry next (record t { entrycmp_count = t.entrycmp_count + 1 }) m
          (get_or t.etable i none)
      else next t m

  unfoldable pub find_loop : ℕ → HashTable E → ℕ → M → ℕ → ℕ → Found E M
  unfolding find_bucket next_index
  find_loop zero t hm m i s = none
  find_loop (suc fuel) t hm m i s =
      find_bucket
        (λ t' m'. find_loop fuel t' hm m' (next_index t.tmask i ((s + 1) % u32)) ((s + 1) % u32)) t
        hm m (get_or t.ktable i 0) i

  -- `NAME_find` of a match object whose key has the hash `hash`
  unfoldable pub hashtable_find : HashTable E → ℕ → M → Found E M
  unfolding find_loop getbloom nozero
  hashtable_find t0 hash m =
      let hm = nozero hash in
      let t = record t0 { find_count = t0.find_count + 1 } in
      let found = find_loop t.size t hm m (bit_and hm t.tmask) 0 in
      if getbloom t hm then found else some (t, m, none)

unfoldable pub next_entry {ℓ} : {E : Type ℓ} → Option E → ℕ → ℕ × Option E → ℕ × Option E
next_entry none i rest = rest
next_entry (some e) i rest = (i + 1, some e)

-- `NAME_next` from the index `i`: the index after it and the entry; the fuel is the buckets left.
unfoldable pub next_from {ℓ} : {E : Type ℓ} → ℕ → List (Option E) → ℕ → ℕ × Option E
unfolding next_entry
next_from zero etable i = (i, none)
next_from (suc left) etable i = next_entry (get_or etable i none) i (next_from left etable (i + 1))

unfoldable pub hashtable_next {ℓ} : {E : Type ℓ} → HashTable E → ℕ → ℕ × Option E
unfolding next_from
hashtable_next t i = next_from (t.size - i) t.etable i

unfoldable pub hashtable_iter {ℓ} : {E : Type ℓ} → HashTable E → ℕ × Option E
unfolding hashtable_next
hashtable_iter t = hashtable_next t 0
