-- ===== src/Hashtable/Probe.antt =====
-- src/hashtable.h: _for_probe ends. Its buckets are all different for as many rounds as there are
-- buckets, so it comes to an empty one if there is any.
use librsync.Prelude.{
  ℕ, zero, suc, ◌+◌, ◌-◌, ◌^◌, ◌%◌, ◌≤◌, ◌<◌, ◌≡◌, refl, ap, ◌∙◌, arith, u32, ◌≢◌, bit_and,
  ℕ_discrete, ne→==,
}
use librsync.Prelude.{List, length, get_or, some}
use librsync.Hashtable.{probe}
use librsync.Hashtable.Triangle.{slot, slot-zero, slot-suc, slot-surjective}
use librsync.Hashtable.Valid.{filled, filled_gap}
use mathlib.Core.Path.{ap₂}
use native.Mathlib.Nat.{mod-eq_of_lt, pow-le-pow_right}

before :
    (p : ℕ → ℕ) (n : ℕ)
    → p 0 ≢ 0
    → ((j : ℕ) → j < n → p (suc j) ≢ 0)
    → (j : ℕ) → j < suc n
    → p j ≢ 0
before p n first later zero h = first
before p n first later (suc j) h = later j (omega arith)

-- The first zero of a sequence that has one.
least : (p : ℕ → ℕ) (n : ℕ) → p n ≡ 0 → (m : ℕ) × (m ≤ n) × (p m ≡ 0) × ((j : ℕ) → j < m → p j ≢ 0)
least p zero e = (0, omega arith, e, λ j h. absurd (omega arith))
least p (suc n) e = elim (ℕ_discrete (p 0) 0) [
  | yes here ↦ (0, omega arith, here, λ j h. absurd (omega arith))
  | no ne ↦
      let (m, below, zero_there, later) = least (λ j. p (suc j)) n e in
      (suc m, omega arith, zero_there, before p m ne later)
]

-- The probe for `h` comes in round `m` to its first empty bucket.
pub record FirstEmpty (k : ℕ) (ktable : List ℕ) (h m : ℕ) : Type 0 where
  pub below : m < 2 ^ k
  pub vacant : get_or ktable (slot k h m) 0 ≡ 0
  pub used : (j : ℕ) → j < m → get_or ktable (slot k h j) 0 ≢ 0

pub first_empty :
    (k : ℕ) (ktable : List ℕ) (h : ℕ)
    → length ktable ≡ 2 ^ k
    → filled ktable < 2 ^ k
    → (m : ℕ) × FirstEmpty k ktable h m
first_empty k ktable h len gap =
    let (i, below, vacant) = filled_gap ktable (omega arith) in
    let (n, n_below, there) = slot-surjective k h i (omega arith) in
    let (m, m_le, zero_there, used) =
      least (λ j. get_or ktable (slot k h j) 0) n (ap (λ b. get_or ktable b 0) there ∙ vacant) in
    (m, record { below = omega arith; vacant = zero_there; used = used })

pub counter-suc : (k j : ℕ) → k ≤ 30 → j < 2 ^ k → (j + 1) % u32 ≡ suc j
counter-suc k j few below =
    mod-eq_of_lt (omega (arith, pow-le-pow_right {n = 2} (omega arith) {i = k} {j = 30} few))
    ∙ omega arith

module _ (k : ℕ) (few : k ≤ 30) (ktable : List ℕ) (h m : ℕ) (first : FirstEmpty k ktable h m) where
  probe_from :
      (fuel j : ℕ)
      → j ≤ m
      → m - j < fuel
      → probe fuel ktable (2 ^ k - 1) (slot k h j) j ≡ some (slot k h m)
  unfolding probe
  probe_from zero j le enough = absurd (omega arith)
  probe_from (suc fuel) j le enough = elim (ℕ_discrete j m) [
    | yes e ↦ rw (e, first.vacant) refl
    | no ne ↦ rw (ne→== _ 0 (first.used j (omega arith))) (
        ap₂ (λ i s. probe fuel ktable (2 ^ k - 1) i s)
          (slot-suc k h j (omega arith) (omega (arith, first.below)))
          (counter-suc k j few (omega (arith, first.below)))
        ∙ probe_from fuel (suc j) (omega arith) (omega arith))
  ]

  pub probe-FirstEmpty :
      probe (2 ^ k) ktable (2 ^ k - 1) (bit_and h (2 ^ k - 1)) 0 ≡ some (slot k h m)
  probe-FirstEmpty =
      ap (λ i. probe (2 ^ k) ktable (2 ^ k - 1) i 0) (slot-zero k h)
      ∙ probe_from (2 ^ k) 0 (omega arith) (omega (arith, first.below))

-- In a table of 2^k buckets, k at most 30, of which one at least is empty, the probe of any hash h
-- ends within 2^k rounds, at an empty bucket, and all buckets that it passes before are in use.
pub probe_ends :
    (k : ℕ) (ktable : List ℕ) (h : ℕ)
    → k ≤ 30
    → length ktable ≡ 2 ^ k
    → filled ktable < 2 ^ k
    → (m : ℕ) × FirstEmpty k ktable h m
      × (probe (2 ^ k) ktable (2 ^ k - 1) (bit_and h (2 ^ k - 1)) 0 ≡ some (slot k h m))
probe_ends k ktable h few len gap =
    let (m, first) = first_empty k ktable h len gap in
    (m, first, probe-FirstEmpty k few ktable h m first)
