-- ===== src/Prelude/Slices.antt =====
-- Laws of `take` and `drop`: how the pieces of a buffer fit together.
use Prim.Native.Nat.{ℕ, zero, suc, ◌+◌, ◌-◌, ◌≤◌}
use mathlib.Core.Path.{◌≡◌, refl, ap}
use mathlib.Core.List.{List, [], ◌∷◌, ◌++◌}
use native.Mathlib.Omega.{arith}
use librsync.Prelude.Lists.{length, take, drop}

module _ {ℓ} {A : Type ℓ} where
  pub take-append-drop : (n : ℕ) (xs : List A) → take n xs ++ drop n xs ≡ xs
  take-append-drop zero xs = refl
  take-append-drop (suc n) [] = refl
  take-append-drop (suc n) (x ∷ xs) = rw (take-append-drop n xs)

  pub take-all : (n : ℕ) (xs : List A) → length xs ≤ n → take n xs ≡ xs
  take-all zero [] h = refl
  take-all zero (x ∷ xs) h = absurd (omega arith)
  take-all (suc n) [] h = refl
  take-all (suc n) (x ∷ xs) h = ap (◌∷◌ x) (take-all n xs (omega arith))

  pub drop-all : (n : ℕ) (xs : List A) → length xs ≤ n → drop n xs ≡ []
  drop-all zero [] h = refl
  drop-all zero (x ∷ xs) h = absurd (omega arith)
  drop-all (suc n) [] h = refl
  drop-all (suc n) (x ∷ xs) h = drop-all n xs (omega arith)

  pub take-append_le : (n : ℕ) (xs ys : List A) → n ≤ length xs → take n (xs ++ ys) ≡ take n xs
  take-append_le zero xs ys h = refl
  take-append_le (suc n) [] ys h = absurd (omega arith)
  take-append_le (suc n) (x ∷ xs) ys h = ap (◌∷◌ x) (take-append_le n xs ys (omega arith))

  pub drop-append_le :
      (n : ℕ) (xs ys : List A) → n ≤ length xs → drop n (xs ++ ys) ≡ drop n xs ++ ys
  drop-append_le zero xs ys h = refl
  drop-append_le (suc n) [] ys h = absurd (omega arith)
  drop-append_le (suc n) (x ∷ xs) ys h = drop-append_le n xs ys (omega arith)

  -- The front part ends where `n` says.
  pub take-append_at : (n : ℕ) (xs ys : List A) → n ≡ length xs → take n (xs ++ ys) ≡ xs
  take-append_at zero [] ys h = refl
  take-append_at zero (x ∷ xs) ys h = absurd (omega arith)
  take-append_at (suc n) [] ys h = absurd (omega arith)
  take-append_at (suc n) (x ∷ xs) ys h = ap (◌∷◌ x) (take-append_at n xs ys (omega arith))

  pub drop-append_at : (n : ℕ) (xs ys : List A) → n ≡ length xs → drop n (xs ++ ys) ≡ ys
  drop-append_at zero [] ys h = refl
  drop-append_at zero (x ∷ xs) ys h = absurd (omega arith)
  drop-append_at (suc n) [] ys h = absurd (omega arith)
  drop-append_at (suc n) (x ∷ xs) ys h = drop-append_at n xs ys (omega arith)

  pub take-append_ge :
      (n : ℕ) (xs ys : List A) → length xs ≤ n → take n (xs ++ ys) ≡ xs ++ take (n - length xs) ys
  take-append_ge n [] ys h = rw sub_zero
    where
      sub_zero : n - 0 ≡ n
      sub_zero = omega arith
  take-append_ge zero (x ∷ xs) ys h = absurd (omega arith)
  take-append_ge (suc n) (x ∷ xs) ys h = rw (sub-suc, take-append_ge n xs ys (omega arith))
    where
      sub-suc : suc n - suc (length xs) ≡ n - length xs
      sub-suc = omega arith

  pub drop-append_ge :
      (n : ℕ) (xs ys : List A) → length xs ≤ n → drop n (xs ++ ys) ≡ drop (n - length xs) ys
  drop-append_ge n [] ys h = rw sub_zero
    where
      sub_zero : n - 0 ≡ n
      sub_zero = omega arith
  drop-append_ge zero (x ∷ xs) ys h = absurd (omega arith)
  drop-append_ge (suc n) (x ∷ xs) ys h = rw (sub-suc, drop-append_ge n xs ys (omega arith))
    where
      sub-suc : suc n - suc (length xs) ≡ n - length xs
      sub-suc = omega arith

  pub take-add : (a b : ℕ) (xs : List A) → take (a + b) xs ≡ take a xs ++ take b (drop a xs)
  take-add zero b xs = rw zero_add
    where
      zero_add : zero + b ≡ b
      zero_add = omega arith
  take-add (suc a) b [] = rw (suc_add, take-nil b)
    where
      suc_add : suc a + b ≡ suc (a + b)
      suc_add = omega arith

      take-nil : (n : ℕ) → take {A = A} n [] ≡ []
      take-nil zero = refl
      take-nil (suc n) = refl
  take-add (suc a) b (x ∷ xs) = rw (suc_add, take-add a b xs)
    where
      suc_add : suc a + b ≡ suc (a + b)
      suc_add = omega arith

  pub drop-drop : (a b : ℕ) (xs : List A) → drop b (drop a xs) ≡ drop (a + b) xs
  drop-drop zero b xs = rw zero_add
    where
      zero_add : zero + b ≡ b
      zero_add = omega arith
  drop-drop (suc a) zero [] = rw suc_add
    where
      suc_add : suc a + zero ≡ suc a
      suc_add = omega arith
  drop-drop (suc a) (suc b) [] = rw suc_add
    where
      suc_add : suc a + suc b ≡ suc (a + suc b)
      suc_add = omega arith
  drop-drop (suc a) b (x ∷ xs) = rw (suc_add, drop-drop a b xs)
    where
      suc_add : suc a + b ≡ suc (a + b)
      suc_add = omega arith

  pub take-take : (a b : ℕ) (xs : List A) → a ≤ b → take a (take b xs) ≡ take a xs
  take-take zero b xs h = refl
  take-take (suc a) zero xs h = absurd (omega arith)
  take-take (suc a) (suc b) [] h = refl
  take-take (suc a) (suc b) (x ∷ xs) h = ap (◌∷◌ x) (take-take a b xs (omega arith))

  pub drop-take : (a b : ℕ) (xs : List A) → drop a (take b xs) ≡ take (b - a) (drop a xs)
  drop-take zero b xs = rw sub_zero
    where
      sub_zero : b - 0 ≡ b
      sub_zero = omega arith
  drop-take (suc a) zero [] = rw sub_zero
    where
      sub_zero : zero - suc a ≡ 0
      sub_zero = omega arith
  drop-take (suc a) zero (x ∷ xs) = rw sub_zero
    where
      sub_zero : zero - suc a ≡ 0
      sub_zero = omega arith
  drop-take (suc a) (suc b) [] = go (suc b - suc a)
    where
      go : (n : ℕ) → [] ≡ take {A = A} n []
      go zero = refl
      go (suc n) = refl
  drop-take (suc a) (suc b) (x ∷ xs) = rw (sub_suc, drop-take a b xs)
    where
      sub_suc : suc b - suc a ≡ b - a
      sub_suc = omega arith

  pub nil_of_length : (xs : List A) → length xs ≡ 0 → xs ≡ []
  nil_of_length [] e = refl
  nil_of_length (x ∷ xs) e = absurd (omega arith)

  pub take-empty : (n : ℕ) (xs : List A) → length xs ≡ 0 → take n xs ≡ []
  take-empty n (x ∷ xs) e = absurd (omega arith)
  take-empty zero [] e = refl
  take-empty (suc n) [] e = refl

  pub drop-empty : (n : ℕ) (xs : List A) → length xs ≡ 0 → drop n xs ≡ []
  drop-empty n xs e = drop-all n xs (omega arith)
