-- ===== src/Hashtable/Triangle.antt =====
-- src/hashtable.h: the buckets that _for_probe visits. The index moves on by one, then by two, and so
-- on, so the bucket of round `j` lies the triangular number of `j` beyond the first.
use librsync.Prelude.{
  ℕ, zero, suc, ◌+◌, ◌-◌, ◌*◌, ◌%◌, ◌/◌, ◌^◌, ◌≤◌, ◌<◌, ◌≡◌, refl, sym, ap, ◌∙◌, arith, ◌⊎◌, inl,
  inr, u32,
}
use librsync.Prelude.Bits.{bit_and-mask}
use librsync.Hashtable.{next_index}
use librsync.Prelude.{bit_and}
use native.Mathlib.Nat.{
  pow-le-pow_right, mod-eq_of_lt, add-mod_right, add-mod-mod, two-mul, pow-suc, one-le-pow, add-mod,
  mod-add-mod, mod-lt, add-mul-mod_self_left, div-add-mod,
}

pub triangle : ℕ → ℕ
triangle zero = 0
triangle (suc j) = triangle j + suc j

twice-triangle : (j : ℕ) → 2 * triangle j ≡ j * (j + 1)
unfolding triangle
twice-triangle zero = refl
twice-triangle (suc j) = omega (arith, twice-triangle j)

-- The round that lies as far before `2 * n` as `j` lies after zero.
mirror : (n j j' : ℕ) → j + j' + 1 ≡ 2 * n → triangle j' + n * (2 * j + 1) ≡ 2 * n * n + triangle j
mirror n j j' h = omega (
  arith,
  twice-triangle j,
  twice-triangle j',
  ap (λ t. t * j') h,
  ap (λ t. t * j) h,
  ap (λ t. t * (2 * n)) h,
)

parity : (q : ℕ) → (q ≡ 2 * (q / 2)) ⊎ (q ≡ 2 * (q / 2) + 1)
parity q = ground arith

-- A residue modulo `n` is one of two modulo `2 * n`.
lifted : (n x : ℕ) → 0 < n → (x % (2 * n) ≡ x % n) ⊎ (x % (2 * n) ≡ x % n + n)
lifted n x h = elim (parity (x / n)) [
  | inl e ↦ inl (
      sym (ap (λ t. t % (2 * n)) (omega (arith, whole, ap (λ t. n * t) e)))
      ∙ add-mul-mod_self_left (x % n) (2 * n) (x / n / 2)
      ∙ mod-eq_of_lt (omega (arith, rest)))
  | inr e ↦ inr (
      sym (ap (λ t. t % (2 * n)) (omega (arith, whole, ap (λ t. n * t) e)))
      ∙ add-mul-mod_self_left (x % n + n) (2 * n) (x / n / 2)
      ∙ mod-eq_of_lt (omega (arith, rest)))
]
  where
    whole : n * (x / n) + x % n ≡ x
    whole = div-add-mod x n

    rest : x % n < n
    rest = mod-lt x h

mirror-mod : (n j j' : ℕ) → j + j' + 1 ≡ 2 * n → triangle j' % (2 * n) ≡ (triangle j + n) % (2 * n)
mirror-mod n j j' h =
    sym (add-mul-mod_self_left (triangle j') (2 * n) (j + 1))
    ∙ ap (λ t. t % (2 * n)) (omega (arith, mirror n j j' h))
    ∙ add-mul-mod_self_left (triangle j + n) (2 * n) n

module _ (n x r : ℕ) (pos : 0 < n) where
  -- Adding `n` changes a residue modulo `2 * n` to the other one.
  up :
      x % (2 * n) ≡ x % n
      → r % (2 * n) ≡ r % n + n
      → x % n ≡ r % n
      → (x + n) % (2 * n) ≡ r % (2 * n)
  up a b e =
      sym (mod-add-mod x (2 * n) n) ∙ mod-eq_of_lt (omega (arith, mod-lt x pos)) ∙ omega arith

  down :
      x % (2 * n) ≡ x % n + n
      → r % (2 * n) ≡ r % n
      → x % n ≡ r % n
      → (x + n) % (2 * n) ≡ r % (2 * n)
  down a b e =
      sym (mod-add-mod x (2 * n) n)
      ∙ ap (λ t. t % (2 * n)) (omega (arith, two-mul n))
      ∙ add-mul-mod_self_left (x % n) (2 * n) 1
      ∙ mod-eq_of_lt (omega (arith, mod-lt x pos))
      ∙ omega arith

-- In a table of 2 ^ k buckets, the triangular numbers below 2 ^ k have every residue.
pub triangle_surjective : (k r : ℕ) → r < 2 ^ k → (j : ℕ) × (j < 2 ^ k) × (triangle j % 2 ^ k ≡ r)
triangle_surjective zero r h = (0, omega arith, omega arith)
triangle_surjective (suc k) r h =
    let (j, below, there) = triangle_surjective k (r % 2 ^ k) (mod-lt r pos) in
    choose j below (lifted (2 ^ k) (triangle j) pos) (lifted (2 ^ k) r pos) there
  where
    pos : 0 < 2 ^ k
    pos = one-le-pow k 2 (omega arith)

    double : 2 ^ suc k ≡ 2 * 2 ^ k
    double = omega (arith, pow-suc 2 k)

    own : r % (2 * 2 ^ k) ≡ r
    own = mod-eq_of_lt (omega (arith, double))

    here :
        (j : ℕ)
        → j < 2 ^ k
        → triangle j % (2 * 2 ^ k) ≡ r
        → (j : ℕ) × (j < 2 ^ suc k) × (triangle j % 2 ^ suc k ≡ r)
    here j below e = (j, omega (arith, double), rw double e)

    there' :
        (j : ℕ)
        → j < 2 ^ k
        → (triangle j + 2 ^ k) % (2 * 2 ^ k) ≡ r
        → (j : ℕ) × (j < 2 ^ suc k) × (triangle j % 2 ^ suc k ≡ r)
    there' j below e = (
      2 * 2 ^ k - 1 - j,
      omega (arith, double),
      rw double (mirror-mod (2 ^ k) j (2 * 2 ^ k - 1 - j) (omega arith) ∙ e),
    )

    choose :
        (j : ℕ)
        → j < 2 ^ k
        → (triangle j % (2 * 2 ^ k) ≡ triangle j % 2 ^ k)
          ⊎ (triangle j % (2 * 2 ^ k) ≡ triangle j % 2 ^ k + 2 ^ k)
        → (r % (2 * 2 ^ k) ≡ r % 2 ^ k) ⊎ (r % (2 * 2 ^ k) ≡ r % 2 ^ k + 2 ^ k)
        → triangle j % 2 ^ k ≡ r % 2 ^ k
        → (j : ℕ) × (j < 2 ^ suc k) × (triangle j % 2 ^ suc k ≡ r)
    choose j below (inl a) (inl b) e = here j below (omega (arith, own))
    choose j below (inr a) (inr b) e = here j below (omega (arith, own))
    choose j below (inl a) (inr b) e = there' j below (up (2 ^ k) (triangle j) r pos a b e ∙ own)
    choose j below (inr a) (inl b) e = there' j below (down (2 ^ k) (triangle j) r pos a b e ∙ own)

-- The bucket of round `j` for the hash `h` in a table of 2 ^ k buckets.
pub slot : ℕ → ℕ → ℕ → ℕ
unfolding triangle
slot k h j = (h + triangle j) % 2 ^ k

pub slot-surjective : (k h i : ℕ) → i < 2 ^ k → (j : ℕ) × (j < 2 ^ k) × (slot k h j ≡ i)
unfolding slot
slot-surjective k h i lt =
    let (j, below, there) =
      triangle_surjective k ((i + 2 ^ k - h % 2 ^ k) % 2 ^ k)
        (mod-lt _ (one-le-pow k 2 (omega arith))) in
    (j, below, ap (λ t. t % 2 ^ k) refl ∙ shifted (triangle j) there)
  where
    pos : 0 < 2 ^ k
    pos = one-le-pow k 2 (omega arith)

    shifted : (t : ℕ) → t % 2 ^ k ≡ (i + 2 ^ k - h % 2 ^ k) % 2 ^ k → (h + t) % 2 ^ k ≡ i
    shifted t e =
        add-mod h t (2 ^ k)
        ∙ ap (λ u. (h % 2 ^ k + u) % 2 ^ k) e
        ∙ add-mod-mod (h % 2 ^ k) (i + 2 ^ k - h % 2 ^ k) (2 ^ k)
        ∙ ap (λ u. u % 2 ^ k) whole
        ∙ add-mod_right i (2 ^ k)
        ∙ mod-eq_of_lt lt
      where
        whole : h % 2 ^ k + (i + 2 ^ k - h % 2 ^ k) ≡ i + 2 ^ k
        whole = omega (arith, mod-lt h pos)

pub slot-lt : (k h m : ℕ) → slot k h m < 2 ^ k
unfolding slot
slot-lt k h m = mod-lt _ (one-le-pow k 2 (omega arith))

pub slot-zero : (k h : ℕ) → bit_and h (2 ^ k - 1) ≡ slot k h 0
unfolding slot triangle
slot-zero k h = bit_and-mask k h ∙ ap (λ t. t % 2 ^ k) (omega arith)

pub slot-suc :
    (k h j : ℕ)
    → k ≤ 31
    → j < 2 ^ k
    → next_index (2 ^ k - 1) (slot k h j) ((j + 1) % u32) ≡ slot k h (suc j)
unfolding slot triangle next_index
slot-suc k h j small below =
    bit_and-mask k _
    ∙ ap (λ t. t % 2 ^ k)
        (mod-eq_of_lt fits
          ∙ ap (λ t. (h + triangle j) % 2 ^ k + t) (mod-eq_of_lt (omega (arith, pow31))))
    ∙ mod-add-mod (h + triangle j) (2 ^ k) (j + 1)
    ∙ ap (λ t. t % 2 ^ k) (omega arith)
  where
    pow31 : 2 ^ k ≤ 2 ^ 31
    pow31 = pow-le-pow_right {n = 2} (omega arith) {i = k} {j = 31} small

    fits : (h + triangle j) % 2 ^ k + (j + 1) % u32 < u32
    fits = omega (
      arith,
      pow31,
      mod-lt (h + triangle j) (one-le-pow k 2 (omega arith)),
      mod-eq_of_lt {n = j + 1} {m = u32} (omega (arith, pow31)),
    )
