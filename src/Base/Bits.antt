-- ===== src/Base/Bits.antt =====
-- The binary digits of a word, and what `|`, `&` and `~` do to each of them.
use Prim.Native.Nat.{
  digits, bit_and-bitwise, bit_or-bitwise, ℕ, zero, suc, ◌+◌, ◌-◌, ◌*◌, ◌/◌, ◌%◌, ◌^◌, ◌≤◌, ◌<◌,
  min, max, bit_and, bit_or,
}
use native.Mathlib.Nat.{pow-suc, one-le-pow, div-add-mod}
use unos.Base.Tests.{◌==◌, if◌then◌else◌}
use mathlib.Core.Path.{◌≡◌, refl, ◌∙◌, ap}
use native.Mathlib.Omega.{arith}

-- digit `k` of `w`
abbrev pub bit : ℕ → ℕ → ℕ
bit w zero = w % 2
bit w (suc k) = bit (w / 2) k

pub bit-le-one : (w k : ℕ) → bit w k ≤ 1
bit-le-one w zero = omega arith
bit-le-one w (suc k) = bit-le-one (w / 2) k

-- The native operations stand for a recursion on digits with fuel: enough fuel makes no difference.
module _ (z : ℕ → ℕ) (f : ℕ → ℕ → ℕ) where
  digits-enough : (n m a b : ℕ) → a ≤ n → a ≤ m → digits z f n a b ≡ digits z f m a b
  digits-enough zero zero a b p q = refl
  digits-enough (suc n) zero zero b p q = refl
  digits-enough (suc n) zero (suc a) b p q = absurd (omega arith)
  digits-enough zero (suc m) zero b p q = refl
  digits-enough zero (suc m) (suc a) b p q = absurd (omega arith)
  digits-enough (suc n) (suc m) zero b p q = refl
  digits-enough (suc n) (suc m) (suc a) b p q =
      omega (arith, digits-enough n m (suc a / 2) (b / 2) (omega arith) (omega arith))

pub or_digit : (a b : ℕ) → bit_or a b ≡ bit_or (a / 2) (b / 2) * 2 + max (a % 2) (b % 2)
or_digit zero b = omega (arith, bit_or-bitwise 0 b, bit_or-bitwise 0 (b / 2))
or_digit (suc a) b = omega (
  arith,
  bit_or-bitwise (suc a) b,
  bit_or-bitwise (suc a / 2) (b / 2),
  digits-enough (λ y. y) max a (suc a / 2) (suc a / 2) (b / 2) (omega arith) (omega arith),
)

pub and_digit : (a b : ℕ) → bit_and a b ≡ bit_and (a / 2) (b / 2) * 2 + min (a % 2) (b % 2)
and_digit zero b = omega (arith, bit_and-bitwise 0 b, bit_and-bitwise 0 (b / 2))
and_digit (suc a) b = omega (
  arith,
  bit_and-bitwise (suc a) b,
  bit_and-bitwise (suc a / 2) (b / 2),
  digits-enough (λ y. 0) min a (suc a / 2) (suc a / 2) (b / 2) (omega arith) (omega arith),
)

bit_and_with_zero_fuel : (n a : ℕ) → a ≤ n → bit_and a 0 ≡ 0
bit_and_with_zero_fuel n zero h = omega (arith, bit_and-bitwise 0 0)
bit_and_with_zero_fuel zero (suc a) h = absurd (omega arith)
bit_and_with_zero_fuel (suc n) (suc a) h =
    omega (arith, and_digit (suc a) 0, bit_and_with_zero_fuel n (suc a / 2) (omega arith))

pub bit_and_with_zero : (a : ℕ) → bit_and a 0 ≡ 0
bit_and_with_zero a = bit_and_with_zero_fuel a a (omega arith)

half-bit_or : (a b : ℕ) → bit_or a b / 2 ≡ bit_or (a / 2) (b / 2)
half-bit_or a b = omega (arith, or_digit a b)

half-bit_and : (a b : ℕ) → bit_and a b / 2 ≡ bit_and (a / 2) (b / 2)
half-bit_and a b = omega (arith, and_digit a b)

-- `|` and `&` work digit by digit.
pub bit-bit_or : (a b k : ℕ) → bit (bit_or a b) k ≡ max (bit a k) (bit b k)
bit-bit_or a b zero = omega (arith, or_digit a b)
bit-bit_or a b (suc k) = ap (λ w. bit w k) (half-bit_or a b) ∙ bit-bit_or (a / 2) (b / 2) k

pub bit-bit_and : (a b k : ℕ) → bit (bit_and a b) k ≡ min (bit a k) (bit b k)
bit-bit_and a b zero = omega (arith, and_digit a b)
bit-bit_and a b (suc k) = ap (λ w. bit w k) (half-bit_and a b) ∙ bit-bit_and (a / 2) (b / 2) k

pub bit_of_zero : (k : ℕ) → bit 0 k ≡ 0
bit_of_zero zero = refl
bit_of_zero (suc k) = bit_of_zero k

half-pow : (j : ℕ) → 2 ^ suc j / 2 ≡ 2 ^ j
half-pow j = omega (arith, pow-suc 2 j)

-- `1 << j` has one digit.
pub bit-pow : (j k : ℕ) → bit (2 ^ j) k ≡ (if j == k then 1 else 0)
bit-pow zero zero = refl
bit-pow zero (suc k) = bit_of_zero k ∙ ground arith
bit-pow (suc j) zero = ground (arith, pow-suc 2 j)
bit-pow (suc j) (suc k) = ap (λ w. bit w k) (half-pow j) ∙ bit-pow j k ∙ ground arith

-- `w & (1 << j)` keeps digit `j` alone.
pub bit_and-pow : (w j : ℕ) → bit_and w (2 ^ j) ≡ bit w j * 2 ^ j
bit_and-pow w zero = omega (arith, and_digit w 1, bit_and_with_zero (w / 2))
bit_and-pow w (suc j) =
    grind (arith, and_digit w (2 ^ suc j), pow-suc 2 j, half-pow j, bit_and-pow (w / 2) j)

-- `~` turns each digit of an `n`-bit word.
pub bit-complement : (n w k : ℕ) → w < 2 ^ n → k < n → bit (2 ^ n - 1 - w) k ≡ 1 - bit w k
bit-complement zero w k h kn = absurd (omega arith)
bit-complement (suc n) w zero h kn = omega (arith, pow-suc 2 n)
bit-complement (suc n) w (suc k) h kn =
    let e : (2 ^ suc n - 1 - w) / 2 ≡ 2 ^ n - 1 - w / 2 = omega (arith, pow-suc 2 n) in
    ap (λ v. bit v k) e ∙ bit-complement n (w / 2) k (omega (arith, pow-suc 2 n)) (omega arith)

-- A word is its digits.
pub bit_ext : (n a b : ℕ) → a < 2 ^ n → b < 2 ^ n → ((k : ℕ) → k < n → bit a k ≡ bit b k) → a ≡ b
bit_ext zero a b ha hb same = omega arith
bit_ext (suc n) a b ha hb same = omega (
  arith,
  same 0 (omega arith),
  bit_ext n (a / 2) (b / 2) (omega (arith, pow-suc 2 n)) (omega (arith, pow-suc 2 n))
      (λ k h. same (suc k) (omega arith)),
)

pub bit_or-lt : (n a b : ℕ) → a < 2 ^ n → b < 2 ^ n → bit_or a b < 2 ^ n
bit_or-lt zero a b ha hb =
    let ea : a ≡ 0 = omega arith in let eb : b ≡ 0 = omega arith in rw (ea, eb) (omega arith)
bit_or-lt (suc n) a b ha hb = omega (
  arith,
  or_digit a b,
  pow-suc 2 n,
  bit_or-lt n (a / 2) (b / 2) (omega (arith, pow-suc 2 n)) (omega (arith, pow-suc 2 n)),
)

pub bit_and-le_fuel : (n a b : ℕ) → a ≤ n → bit_and a b ≤ a
bit_and-le_fuel n zero b h = omega (arith, bit_and-bitwise 0 b)
bit_and-le_fuel zero (suc a) b h = absurd (omega arith)
bit_and-le_fuel (suc n) (suc a) b h =
    omega (arith, and_digit (suc a) b, bit_and-le_fuel n (suc a / 2) (b / 2) (omega arith))

pub bit_and-le : (a b : ℕ) → bit_and a b ≤ a
bit_and-le a b = bit_and-le_fuel a a b (omega arith)

pub pow-lt-pow : (j n : ℕ) → j < n → 2 ^ j < 2 ^ n
pow-lt-pow j zero h = absurd (omega arith)
pow-lt-pow zero (suc n) h = omega (arith, pow-suc 2 n, one-le-pow n 2 (omega arith))
pow-lt-pow (suc j) (suc n) h = omega (arith, pow-suc 2 n, pow-suc 2 j, pow-lt-pow j n (omega arith))

pub pow_pos : (j : ℕ) → 0 < 2 ^ j
pow_pos j = one-le-pow j 2 (omega arith)

module _ (q : ℕ) where
  bit_of_ones : (m k : ℕ) → k < m → bit (q * 2 ^ m + (2 ^ m - 1)) k ≡ 1
  bit_of_ones zero k h = absurd (omega arith)
  bit_of_ones (suc m) zero h =
      omega (arith, pow-suc 2 m, ap (λ (t : ℕ). q * t) (pow-suc 2 m), pow_pos m)
  bit_of_ones (suc m) (suc k) h =
      let e : (q * 2 ^ suc m + (2 ^ suc m - 1)) / 2 ≡ q * 2 ^ m + (2 ^ m - 1) =
        omega (arith, pow-suc 2 m, ap (λ (t : ℕ). q * t) (pow-suc 2 m), pow_pos m) in
      ap (λ w. bit w k) e ∙ bit_of_ones m k (omega arith)

-- With its low `m` digits set to 1 a word has 1 in each of them.
pub bit_of_filled : (w m k : ℕ) → k < m → bit (w - w % 2 ^ m + (2 ^ m - 1)) k ≡ 1
bit_of_filled w m k h =
    let e : w - w % 2 ^ m ≡ w / 2 ^ m * 2 ^ m = omega (arith, div-add-mod w (2 ^ m)) in
    ap (λ v. bit (v + (2 ^ m - 1)) k) e ∙ bit_of_ones (w / 2 ^ m) m k h
