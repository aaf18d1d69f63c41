-- ===== src/Hashtable/Find.antt =====
-- src/hashtable.h: NAME_find ends, and its answer is right: an entry with the hash of the match object
-- that matches it, or NULL where there is none.
use librsync.Prelude.{
  ℕ, zero, suc, ◌+◌, ◌-◌, ◌/◌, ◌^◌, ◌%◌, ◌≤◌, ◌<◌, ◌≡◌, refl, sym, ap, ◌∙◌, arith, u32, ◌==◌, ◌≢◌,
  bit_and, ℕ_discrete, inl, inr, Bool, true, false, Bool-cases, ==→eq, ==_false→ne, ne→==,
}
use librsync.Prelude.{get_or, Option, none, some}
use librsync.Hashtable.{
  HashTable, Found, nozero, get_bit, getbloom, find_compared, find_entry, find_bucket, find_loop,
  hashtable_find, next_index,
}
use librsync.Hashtable.Triangle.{slot, slot-zero, slot-suc}
use librsync.Hashtable.Valid.{Placed, IsValid, Counted}
use librsync.Hashtable.Add.{nozero_bounds}
use librsync.Hashtable.Probe.{FirstEmpty, first_empty, counter-suc}
use librsync.Hashtable.Counters.{SameTable, counted_IsValid, Busy, same_counts}
use librsync.Hashtable.Search
use mathlib.Core.Path.{subst, ap₂}

module _ {ℓ κ ι} {E : Type ℓ} {M : Type κ} (cmp : M → E → M × Bool) (Good : M → Type ι)
    (matches : E → Bool)
    (cmp_ok : (m : M) (e : E) → Good m → Good (cmp m e).0 × ((cmp m e).1 ≡ matches e)) where
  -- The answer for the hash `hm` that the table `t` allows.
  pub data Answer (t : HashTable E) (hm : ℕ) : Option E → Type ℓ where
    answered :
        (e : E) (i : ℕ)
        → get_or t.ktable i 0 ≡ hm
        → get_or t.etable i none ≡ some e
        → matches e ≡ true
        → Answer t hm (some e)
    unanswered :
        ((i : ℕ) (e : E)
          → get_or t.ktable i 0 ≡ hm
          → get_or t.etable i none ≡ some e
          → matches e ≡ false)
        → Answer t hm none

  -- A search that has ended, with the counters right and the table otherwise as it was.
  pub record FindOk (t : HashTable E) (hm : ℕ) (r : Found E M) : Type (ℓ ⊔ κ ⊔ ι) where
    pub table : HashTable E
    pub match_state : M
    pub entry : Option E
    pub ended : r ≡ some (table, match_state, entry)
    pub same : SameTable t table
    pub counts : Counted table
    pub good : Good match_state
    pub answer : Answer t hm entry

  module _ (hash : E → ℕ) (k : ℕ) (t : HashTable E) (v : IsValid hash k t) (hm : ℕ) (hm_ne : hm ≢ 0)
      (last : ℕ) (first : FirstEmpty k t.ktable hm last) where
    abbrev Passed : ℕ → Type ℓ
    Passed = Search.Passed matches hash k t v hm hm_ne last first

    -- The rest of the search, from the next round.
    Goes : ℕ → (HashTable E → M → Found E M) → Type (ℓ ⊔ κ ⊔ ι)
    Goes j next =
        (u : HashTable E) (m : M)
        → SameTable t u
        → Busy u
        → Good m
        → Passed (suc j)
        → FindOk t hm (next u m)

    compared-FindOk :
        (j : ℕ) (next : HashTable E → M → Found E M) (u : HashTable E) (e : E) (r : M × Bool)
        → Goes j next
        → SameTable t u
        → Busy u
        → u.match_count < u.entrycmp_count
        → Good r.0
        → r.1 ≡ matches e
        → Passed j
        → get_or t.ktable (slot k hm j) 0 ≡ hm
        → get_or t.etable (slot k hm j) none ≡ some e
        → FindOk t hm (find_compared cmp next u e r)
    unfolding find_compared Goes
    compared-FindOk j next u e (m, true) goes s b more good is passed key entry = record {
      table = record u { match_count = u.match_count + 1 };
      match_state = m;
      entry = some e;
      ended = refl;
      same = same_counts (u.match_count + 1) u.hashcmp_count u.entrycmp_count s;
      counts = record {
        matched = omega arith;
        compared = b.compared;
        called = omega (arith, b.called);
      };
      good = good;
      answer = answered e (slot k hm j) key entry (sym is);
    }
    compared-FindOk j next u e (m, false) goes s b more good is passed key entry =
        goes u m s b good (
          Search.one_more matches hash k t v hm hm_ne last first j passed
            (λ e' _ entry'. unmatched e' (sym entry ∙ entry')))
      where
        unmatched : (e' : E) → some e ≡ some e' → matches e' ≡ false
        unmatched e' same = cc

    entry-FindOk :
        (j : ℕ) (next : HashTable E → M → Found E M) (u : HashTable E) (m : M) (o : Option E)
        → Goes j next
        → SameTable t u
        → Busy u
        → u.match_count < u.entrycmp_count
        → Good m
        → Passed j
        → get_or t.ktable (slot k hm j) 0 ≡ hm
        → get_or t.etable (slot k hm j) none ≡ o
        → FindOk t hm (find_entry cmp next u m o)
    unfolding find_entry
    entry-FindOk j next u m none goes s b more good passed key entry = absurd (
        hm_ne (
          sym key
          ∙ subst (λ o. Placed hash (get_or t.ktable (slot k hm j) 0) o) entry
              (v.placed (slot k hm j))))
    entry-FindOk j next u m (some e) goes s b more good passed key entry =
        compared-FindOk j next u e (cmp m e) goes s b more (cmp_ok m e good).0 (cmp_ok m e good).1
          passed key entry

    bucket-FindOk :
        (j : ℕ) (next : HashTable E → M → Found E M) (u : HashTable E) (m : M)
        → j ≤ last
        → (j < last → Goes j next)
        → SameTable t u
        → Busy u
        → Good m
        → Passed j
        → FindOk t hm (find_bucket cmp next u hm m (get_or t.ktable (slot k hm j) 0) (slot k hm j))
    unfolding find_bucket Goes
    bucket-FindOk j next u m le goes s b good passed = elim (ℕ_discrete j last) [
      | yes e ↦ rw (vacant e) (record {
        table = record u { hashcmp_count = u.hashcmp_count + 1 };
        match_state = m;
        entry = none;
        ended = refl;
        same = same_counts u.match_count (u.hashcmp_count + 1) u.entrycmp_count s;
        counts = record {
          matched = b.matched;
          compared = omega (arith, b.compared);
          called = omega (arith, b.called);
        };
        good = good;
        answer =
            unanswered
              (Search.all-Passed matches hash k t v hm hm_ne last first (subst Passed e passed));
      })
      | no ne ↦
          rw (ne→== _ 0 (first.used j (omega arith)))
            (elim (Bool-cases (hm == get_or t.ktable (slot k hm j) 0)) [
              | inl hit ↦ rw hit (
                  entry-FindOk j next
                    (record u {
                      hashcmp_count = u.hashcmp_count + 1;
                      entrycmp_count = u.entrycmp_count + 1;
                    })
                    m (get_or u.etable (slot k hm j) none) (goes (omega arith))
                    (same_counts u.match_count (u.hashcmp_count + 1) (u.entrycmp_count + 1) s)
                    (record {
                      matched = omega (arith, b.matched);
                      compared = omega (arith, b.compared);
                      called = b.called;
                    })
                    (omega (arith, b.matched)) good passed (sym (==→eq _ _ hit))
                    (ap (λ l. get_or l (slot k hm j) none) (sym s.etable)))
              | inr miss ↦ rw miss (
                  goes (omega arith) (record u { hashcmp_count = u.hashcmp_count + 1 }) m
                    (same_counts u.match_count (u.hashcmp_count + 1) u.entrycmp_count s)
                    (record {
                      matched = b.matched;
                      compared = omega (arith, b.compared);
                      called = b.called;
                    })
                    good
                    (Search.one_more matches hash k t v hm hm_ne last first j passed
                      (λ e key _. absurd (==_false→ne _ _ miss (sym key)))))
            ])
    ]
      where
        vacant : j ≡ last → get_or t.ktable (slot k hm j) 0 ≡ 0
        vacant e = ap (λ n. get_or t.ktable (slot k hm n) 0) e ∙ first.vacant

    loop-FindOk :
        (fuel j : ℕ) (u : HashTable E) (m : M)
        → j ≤ last
        → last - j < fuel
        → SameTable t u
        → Busy u
        → Good m
        → Passed j
        → FindOk t hm (find_loop cmp fuel u hm m (slot k hm j) j)
    unfolding find_loop Goes
    loop-FindOk zero j u m le enough s b good passed = absurd (omega arith)
    loop-FindOk (suc fuel) j u m le enough s b good passed =
        subst
          (λ l. FindOk t hm (find_bucket cmp next u hm m (get_or l (slot k hm j) 0) (slot k hm j)))
          (sym s.ktable)
          (bucket-FindOk j next u m le (goes (loop-FindOk fuel (suc j))) s b good passed)
      where
        next : HashTable E → M → Found E M
        next u' m' =
            find_loop cmp fuel u' hm m' (next_index u.tmask (slot k hm j) ((j + 1) % u32))
              ((j + 1) % u32)

        Rest : Type (ℓ ⊔ κ ⊔ ι)
        Rest =
            (u' : HashTable E) (m' : M)
            → suc j ≤ last
            → last - suc j < fuel
            → SameTable t u'
            → Busy u'
            → Good m'
            → Passed (suc j)
            → FindOk t hm (find_loop cmp fuel u' hm m' (slot k hm (suc j)) (suc j))

        goes : Rest → j < last → Goes j next
        goes rest lt u' m' s' b' good' passed' =
            subst (λ r. FindOk t hm r) (sym moved) (rest u' m' lt (omega arith) s' b' good' passed')
          where
            moved : next u' m' ≡ find_loop cmp fuel u' hm m' (slot k hm (suc j)) (suc j)
            moved =
                ap₂ (λ i n. find_loop cmp fuel u' hm m' i n)
                  (ap (λ mask. next_index mask (slot k hm j) ((j + 1) % u32)) (s.tmask ∙ v.masked)
                    ∙ slot-suc k hm j (omega (arith, v.few_bits)) (omega (arith, first.below)))
                  (counter-suc k j v.few_bits (omega (arith, first.below)))

  -- NAME_find in a valid table with consistent counters, for a hash that is an unsigned, where the
  -- comparison of two entries tells whether they match whatever it has stored in the match object:
  -- the search ends, it changes only the counters, which stay consistent, with one more call, and
  -- its answer is an entry that matches, with the hash of the match object, or NULL where there is
  -- none.
  pub hashtable_find-FindOk :
      (hash : E → ℕ) (k : ℕ) (t : HashTable E) (h : ℕ) (m : M)
      → IsValid hash k t
      → Counted t
      → h < u32
      → Good m
      → FindOk (record t { find_count = t.find_count + 1 }) (nozero h) (hashtable_find cmp t h m)
  unfolding hashtable_find getbloom
  hashtable_find-FindOk hash k t h m v c small good =
      elim (Bool-cases (get_bit t.kbloom (nozero h / 2 ^ t.bshift))) [
        | inr unset ↦ rw unset (record {
          table = t';
          match_state = m;
          entry = none;
          ended = refl;
          same = same_counts t.match_count t.hashcmp_count t.entrycmp_count (start);
          counts = record {
            matched = c.matched;
            compared = c.compared;
            called = omega (arith, c.called);
          };
          good = good;
          answer = unanswered (λ i e key _. absurd (set_anyway unset i key));
        })
        | inl isset ↦ rw isset searched
      ]
    where
      t' : HashTable E
      t' = record t { find_count = t.find_count + 1 }

      start : SameTable t' t'
      start = record {
        size = refl;
        count = refl;
        tmask = refl;
        bshift = refl;
        kbloom = refl;
        etable = refl;
        ktable = refl;
        find_count = refl;
      }

      ne : nozero h ≢ 0
      ne = (nozero_bounds h small).0

      set_anyway :
          get_bit t.kbloom (nozero h / 2 ^ t.bshift) ≡ false
          → (i : ℕ) → get_or t.ktable i 0 ≡ nozero h
          → ⊥
      set_anyway unset i key = cc (isset)
        where
          isset : get_bit t.kbloom (nozero h / 2 ^ t.bshift) ≡ true
          isset =
              ap₂ (λ key s. get_bit t.kbloom (key / 2 ^ s)) (sym key) v.shifted
              ∙ v.bloomed i (λ z. ne (sym key ∙ z))

      searched :
          FindOk t' (nozero h) (find_loop cmp t.size t' (nozero h) m (bit_and (nozero h) t.tmask) 0)
      searched =
          let (last, first) =
            first_empty k t.ktable (nozero h) v.keys (omega (arith, v.counted, v.roomy)) in
          subst (FindOk t' (nozero h)) (sym begins) (
            loop-FindOk hash k t' (counted_IsValid hash k t v) (nozero h) ne last first (2 ^ k) 0 t'
              m (omega arith) (omega (arith, first.below)) start
              (record {
                matched = c.matched;
                compared = c.compared;
                called = omega (arith, c.called);
              })
              good (λ j lt. absurd (omega arith)))
        where
          begins :
              find_loop cmp t.size t' (nozero h) m (bit_and (nozero h) t.tmask) 0
              ≡ find_loop cmp (2 ^ k) t' (nozero h) m (slot k (nozero h) 0) 0
          begins =
              ap₂ (λ f i. find_loop cmp f t' (nozero h) m i 0) v.sized
                (ap (λ mask. bit_and (nozero h) mask) v.masked ∙ slot-zero k (nozero h))
