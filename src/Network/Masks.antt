-- ===== src/Network/Masks.antt =====
-- `x & mask` for a mask of ones above `k` zeros, as the code builds them by shifts.
use Prim.Native.Nat.{bit_and, digits, bit_and-bitwise}
use native.Mathlib.Nat.{one-le-pow, div-div-eq-div-mul}
use high_performance_gaming.Common.{
  ℕ, zero, suc, ◌-◌, ◌*◌, ◌/◌, ◌%◌, ◌^◌, ◌≤◌, ◌<◌, ◌≡◌, min, arith, refl, sym, ap, ◌∙◌,
}

-- `j` ones above `k` zeros
abbrev pub ones_above : ℕ → ℕ → ℕ
ones_above j zero = 2 ^ j - 1
ones_above j (suc k) = 2 * ones_above j k

-- The number without its lowest `k` digits, and with zeros in their place.
abbrev pub top : ℕ → ℕ → ℕ
top zero x = x
top (suc k) x = top k (x / 2)

abbrev pub cleared : ℕ → ℕ → ℕ
cleared zero x = x
cleared (suc k) x = 2 * cleared k (x / 2)

top-zero : (k : ℕ) → top k 0 ≡ 0
top-zero zero = refl
top-zero (suc k) = top-zero k

cleared-zero : (k : ℕ) → cleared k 0 ≡ 0
cleared-zero zero = refl
cleared-zero (suc k) = omega (arith, cleared-zero k)

abbrev and_digits : ℕ → ℕ → ℕ → ℕ
and_digits n x m = digits (λ b. zero) min n x m

and_digits-ones_above :
    (n k j x : ℕ) → x ≤ n → top k x < 2 ^ j → and_digits n x (ones_above j k) ≡ cleared k x
and_digits-ones_above zero k j zero h t = sym (cleared-zero k)
and_digits-ones_above zero k j (suc x) h t = absurd (omega arith)
and_digits-ones_above (suc n) k j zero h t = sym (cleared-zero k)
and_digits-ones_above (suc n) zero zero (suc x) h t = absurd (omega arith)
and_digits-ones_above (suc n) zero (suc j) (suc x) h t =
    let half : (2 ^ suc j - 1) / 2 ≡ 2 ^ j - 1 = omega (arith, one-le-pow j 2 (omega arith)) in
    let low : (2 ^ suc j - 1) % 2 ≡ 1 = omega (arith, one-le-pow j 2 (omega arith)) in
    rw (half, low)
      (omega (arith, and_digits-ones_above n zero j (suc x / 2) (omega arith) (omega arith)))
and_digits-ones_above (suc n) (suc k) j (suc x) h t =
    let half : 2 * ones_above j k / 2 ≡ ones_above j k = omega arith in
    let low : 2 * ones_above j k % 2 ≡ 0 = omega arith in
    rw (half, low) (omega (arith, and_digits-ones_above n k j (suc x / 2) (omega arith) t))

pub bit_and-ones_above : (k j x : ℕ) → top k x < 2 ^ j → bit_and x (ones_above j k) ≡ cleared k x
bit_and-ones_above k j x t =
    bit_and-bitwise x (ones_above j k) ∙ and_digits-ones_above x k j x (omega arith) t

pub cleared-inj : (k x y : ℕ) → cleared k x ≡ cleared k y → top k x ≡ top k y
cleared-inj zero x y h = h
cleared-inj (suc k) x y h = cleared-inj k (x / 2) (y / 2) (omega arith)

pub cleared-top : (k x y : ℕ) → top k x ≡ top k y → cleared k x ≡ cleared k y
cleared-top zero x y h = h
cleared-top (suc k) x y h = omega (arith, cleared-top k (x / 2) (y / 2) h)

pub top-div : (k x : ℕ) → top k x ≡ x / 2 ^ k
top-div zero x = omega arith
top-div (suc k) x =
    let e : 2 * 2 ^ k ≡ 2 ^ suc k = omega arith in
    top-div k (x / 2) ∙ div-div-eq-div-mul x 2 (2 ^ k) ∙ ap (λ d. x / d) e

pub top-le : (k x y : ℕ) → x ≤ y → top k x ≤ top k y
top-le zero x y h = h
top-le (suc k) x y h = top-le k (x / 2) (y / 2) (omega arith)

-- One digit more.
pub top-suc : (k x : ℕ) → top (suc k) x ≡ top k x / 2
top-suc zero x = refl
top-suc (suc k) x = top-suc k (x / 2)
