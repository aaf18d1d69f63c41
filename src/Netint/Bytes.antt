-- ===== src/Netint/Bytes.antt =====
-- src/netint.c: big-endian numbers in plain arithmetic, beside the loops.
use librsync.Prelude.{
  ℕ, zero, suc, ◌+◌, ◌*◌, ◌/◌, ◌%◌, ◌^◌, ◌≤◌, ◌<◌, ◌≡◌, refl, sym, ap, subst, ◌∙◌,
}
use librsync.Prelude.{arith, bit_or, u64, is_neg64, shift_right8, IsByte, All}
use librsync.Prelude.{List, [], ◌∷◌, ◌++◌, append_assoc, append-nil, length, length-append}
use librsync.Prelude.{Bool-cases, inl, inr}
use librsync.Prelude.Bits.{bit_or-shift}
use librsync.Netint.{netint_bytes, netint_value}
use native.Mathlib.Nat.{pow-suc, pow-le-pow_right, mod-eq_of_lt, one-le-pow}
use native.Mathlib.Nat.{add-mul-mod_self_left, mod-add-div, mod-lt}

-- The `n` low bytes of a number, highest first.
abbrev pub big_endian : ℕ → ℕ → List ℕ
big_endian zero v = []
big_endian (suc n) v = big_endian n (v / 256) ++ ((v % 256) ∷ [])

-- The number that bytes spell, behind the digits that were read before.
abbrev pub from_big_endian : ℕ → List ℕ → ℕ
from_big_endian acc [] = acc
from_big_endian acc (b ∷ bs) = from_big_endian (acc * 256 + b) bs

pub length-big_endian : (n v : ℕ) → length (big_endian n v) ≡ n
length-big_endian zero v = refl
length-big_endian (suc n) v =
    omega (
      arith,
      length-append (big_endian n (v / 256)) ((v % 256) ∷ []),
      length-big_endian n (v / 256),
    )

pub All-append {κ} : (P : ℕ → Type κ) (xs ys : List ℕ) → All P xs → All P ys → All P (xs ++ ys)
All-append P [] ys h k = k
All-append P (x ∷ xs) ys (p, h) k = (p, All-append P xs ys h k)

pub big_endian-IsByte : (n v : ℕ) → All IsByte (big_endian n v)
big_endian-IsByte zero v = tt
big_endian-IsByte (suc n) v =
    All-append IsByte (big_endian n (v / 256)) ((v % 256) ∷ []) (big_endian-IsByte n (v / 256))
      (omega arith, tt)

-- What is added above the `n` low bytes does not show in them.
pub big_endian-add : (n m v c : ℕ) → n ≤ m → big_endian n (v + c * 256 ^ m) ≡ big_endian n v
big_endian-add zero m v c h = refl
big_endian-add (suc n) zero v c h = absurd (omega arith)
big_endian-add (suc n) (suc m) v c h =
    rw (shifted, low)
      (ap (λ l. l ++ ((v % 256) ∷ [])) (big_endian-add n m (v / 256) c (omega arith)))
  where
    power : c * 256 ^ suc m ≡ c * 256 ^ m * 256
    power = omega (arith, ap (λ (t : ℕ). c * t) (pow-suc 256 m))

    shifted : (v + c * 256 ^ suc m) / 256 ≡ v / 256 + c * 256 ^ m
    shifted = omega (arith, power)

    low : (v + c * 256 ^ suc m) % 256 ≡ v % 256
    low = omega (arith, power)

-- The arithmetic shift of a negative number shows only above the seven low bytes.
big_endian-shift : (n v : ℕ) → n ≤ 7 → big_endian n (shift_right8 v) ≡ big_endian n (v / 256)
big_endian-shift n v h = elim (Bool-cases (is_neg64 v)) [
  | inl neg ↦ rw neg (big_endian-add n 7 (v / 256) 255 h)
  | inr pos ↦ rw pos
]

netint_bytes-append :
    (n v : ℕ) (buf : List ℕ) → n ≤ 8 → netint_bytes n v buf ≡ big_endian n v ++ buf
unfolding netint_bytes
netint_bytes-append zero v buf h = refl
netint_bytes-append (suc n) v buf h =
    netint_bytes-append n (shift_right8 v) ((v % 256) ∷ buf) (omega arith)
    ∙ ap (λ l. l ++ ((v % 256) ∷ buf)) (big_endian-shift n v (omega arith))
    ∙ sym (append_assoc (big_endian n (v / 256)) ((v % 256) ∷ []) buf)

netint_value-from :
    (k acc : ℕ) (bs : List ℕ)
    → acc < 256 ^ k
    → k + length bs ≤ 8
    → All IsByte bs
    → netint_value acc bs ≡ from_big_endian acc bs
unfolding netint_value
netint_value-from k acc [] lt small bytes = refl
netint_value-from k acc (b ∷ bs) lt small (byte, bytes) =
    ap (λ v. netint_value v bs) digit
    ∙ netint_value-from (suc k) (acc * 256 + b) bs (omega (arith, pow-suc 256 k)) (omega arith)
        bytes
  where
    fits : acc * 256 < u64
    fits = omega (arith, pow-le-pow_right {n = 256} (omega arith) {i = k} {j = 7} (omega arith))

    digit : bit_or (acc * 256 % u64) b ≡ acc * 256 + b
    digit = rw (mod-eq_of_lt fits) (bit_or-shift 8 acc b byte)

-- The loop of rs_squirt_netint, which shifts a signed value to the right, fills up to 8 bytes with
-- the big-endian digits of the value.
pub netint_bytes-big_endian : (n v : ℕ) → n ≤ 8 → netint_bytes n v [] ≡ big_endian n v
netint_bytes-big_endian n v h = netint_bytes-append n v [] h ∙ append-nil (big_endian n v)

pub netint_value-big_endian :
    (bs : List ℕ) → length bs ≤ 8 → All IsByte bs → netint_value 0 bs ≡ from_big_endian 0 bs
netint_value-big_endian bs h bytes = netint_value-from 0 0 bs (omega arith) (omega arith) bytes

from_big_endian-append :
    (acc : ℕ) (xs : List ℕ) (b : ℕ)
    → from_big_endian acc (xs ++ (b ∷ [])) ≡ from_big_endian acc xs * 256 + b
from_big_endian-append acc [] b = refl
from_big_endian-append acc (x ∷ xs) b = from_big_endian-append (acc * 256 + x) xs b

mod-times_256 : (m v : ℕ) → 0 < m → v % (m * 256) ≡ v / 256 % m * 256 + v % 256
mod-times_256 m v pos =
    ap (λ t. t % (m * 256)) split
    ∙ add-mul-mod_self_left (v / 256 % m * 256 + v % 256) (m * 256) (v / 256 / m)
    ∙ mod-eq_of_lt (omega (arith, mod-lt (v / 256) pos))
  where
    split : v ≡ v / 256 % m * 256 + v % 256 + m * 256 * (v / 256 / m)
    split = omega (arith, mod-add-div (v / 256) m)

-- Reading back what was written gives the low bytes of the number.
pub from_big_endian-big_endian : (n v : ℕ) → from_big_endian 0 (big_endian n v) ≡ v % 256 ^ n
from_big_endian-big_endian zero v = omega arith
from_big_endian-big_endian (suc n) v =
    from_big_endian-append 0 (big_endian n (v / 256)) (v % 256)
    ∙ ap (λ t. t * 256 + v % 256) (from_big_endian-big_endian n (v / 256))
    ∙ sym (rw (pow-suc 256 n) (mod-times_256 (256 ^ n) v (one-le-pow n 256 (omega arith))))

pub from_big_endian-lt :
    (k m acc : ℕ) (bs : List ℕ)
    → acc < 256 ^ k
    → k + length bs ≡ m
    → All IsByte bs
    → from_big_endian acc bs < 256 ^ m
from_big_endian-lt k m acc [] lt e bytes = subst (λ j. acc < 256 ^ j) (omega arith) lt
from_big_endian-lt k m acc (b ∷ bs) lt e (byte, bytes) =
    from_big_endian-lt (suc k) m (acc * 256 + b) bs (omega (arith, pow-suc 256 k)) (omega arith)
      bytes
