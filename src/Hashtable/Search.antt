-- ===== src/Hashtable/Search.antt =====
-- src/hashtable.h: the buckets that NAME_find has passed.
use librsync.Prelude.{ℕ, suc, ◌<◌, ◌≡◌, sym, ap, ◌∙◌, arith, ◌≢◌, ℕ_discrete, dec_lt, Bool, false}
use librsync.Prelude.{get_or, none, some}
use librsync.Hashtable.{HashTable}
use librsync.Hashtable.Triangle.{slot}
use librsync.Hashtable.Valid.{IsValid}
use librsync.Hashtable.Probe.{FirstEmpty}
use mathlib.Core.Path.{subst}

module _ {ℓ} {E : Type ℓ} (matches : E → Bool) (hash : E → ℕ) (k : ℕ) (t : HashTable E)
    (v : IsValid hash k t) (hm : ℕ) (hm_ne : hm ≢ 0) (last : ℕ)
    (first : FirstEmpty k t.ktable hm last) where
  -- The buckets of the rounds before `j` have no entry that matches.
  abbrev pub Passed : ℕ → Type ℓ
  Passed j =
      (j' : ℕ)
      → j' < j
      → (e : E) → get_or t.ktable (slot k hm j') 0 ≡ hm
      → get_or t.etable (slot k hm j') none ≡ some e
      → matches e ≡ false

  -- An entry with the hash stands in a bucket that the probe has passed when it ends.
  before_last : (i : ℕ) → get_or t.ktable i 0 ≡ hm → (j : ℕ) × (j < last) × (slot k hm j ≡ i)
  before_last i key =
      let (j, there, path) = v.on_path i (λ z. hm_ne (sym key ∙ z)) in
      (
        j,
        sooner j (subst (λ h. slot k h j ≡ i) key there)
            (subst (λ h. (j' : ℕ) → j' < j → get_or t.ktable (slot k h j') 0 ≢ 0) key path),
        subst (λ h. slot k h j ≡ i) key there,
      )
    where
      sooner :
          (j : ℕ)
          → slot k hm j ≡ i
          → ((j' : ℕ) → j' < j → get_or t.ktable (slot k hm j') 0 ≢ 0)
          → j < last
      sooner j there path = elim (dec_lt j last) [
        | yes lt ↦ lt
        | no ge ↦ elim (ℕ_discrete j last) [
          | no ne ↦ absurd (path last (omega arith) first.vacant)
          | yes e ↦ absurd (
              hm_ne (
                sym key
                ∙ ap (λ b. get_or t.ktable b 0) (sym there ∙ ap (λ n. slot k hm n) e)
                ∙ first.vacant))
        ]
      ]

  pub all-Passed :
      Passed last
      → (i : ℕ) (e : E) → get_or t.ktable i 0 ≡ hm
      → get_or t.etable i none ≡ some e
      → matches e ≡ false
  all-Passed passed i e key entry =
      let (j, lt, there) = before_last i key in
      passed j lt e (ap (λ n. get_or t.ktable n 0) there ∙ key)
        (ap (λ n. get_or t.etable n none) there ∙ entry)

  pub one_more :
      (j : ℕ)
      → Passed j
      → ((e : E)
          → get_or t.ktable (slot k hm j) 0 ≡ hm
          → get_or t.etable (slot k hm j) none ≡ some e
          → matches e ≡ false)
      → Passed (suc j)
  one_more j passed now j' lt e key entry = elim (ℕ_discrete j' j) [
    | no ne ↦ passed j' (omega arith) e key entry
    | yes here ↦
        now e (ap (λ n. get_or t.ktable (slot k hm n) 0) (sym here) ∙ key)
          (ap (λ n. get_or t.etable (slot k hm n) none) (sym here) ∙ entry)
  ]
