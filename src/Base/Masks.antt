-- ===== src/Base/Masks.antt =====
-- Masks of consecutive ones, and operands that share no digit.
use Prim.Native.Nat.{
  ℕ, zero, suc, ◌+◌, ◌-◌, ◌*◌, ◌/◌, ◌%◌, ◌^◌, ◌≤◌, ◌<◌, bit_and, bit_or, bit_or-bitwise,
}
use native.Mathlib.Nat.{
  pow-suc, div-add-mod, div-div-eq-div-mul, mod-lt, mod-eq_of_lt, mul-add-mod_self_right,
}
use mathlib.Core.Path.{◌≡◌, sym, ap, ◌∙◌}
use native.Mathlib.Omega.{arith}
use unos.Base.Bits.{and_digit, or_digit, bit_and_with_zero, pow_pos}

-- A mask of ones keeps the lowest digits.
pub bit_and-ones : (w n : ℕ) → bit_and w (2 ^ n - 1) ≡ w % 2 ^ n
bit_and-ones w zero = omega (arith, bit_and_with_zero w)
bit_and-ones w (suc n) =
    let half : (2 ^ suc n - 1) / 2 ≡ 2 ^ n - 1 = omega (arith, pow-suc 2 n, pow_pos n) in
    let q : ℕ = w / 2 / 2 ^ n in
    let r : ℕ = 2 * (w / 2 % 2 ^ n) + w % 2 in
    let p : 2 ^ suc n ≡ 2 * 2 ^ n = omega (arith, pow-suc 2 n) in
    let split : w ≡ q * (2 * 2 ^ n) + r = grind (arith, div-add-mod (w / 2) (2 ^ n)) in
    let small : r < 2 * 2 ^ n = omega (arith, mod-lt (w / 2) (pow_pos n)) in
    let rest : w % (2 * 2 ^ n) ≡ r =
      ap (λ v. v % (2 * 2 ^ n)) split
      ∙ mul-add-mod_self_right q (2 * 2 ^ n) r
      ∙ mod-eq_of_lt small in
    omega (
      arith,
      and_digit w (2 ^ suc n - 1),
      ap (bit_and (w / 2)) half,
      bit_and-ones (w / 2) n,
      rest,
      p,
      ap (λ v. w % v) p,
      pow_pos n,
    )

bit_or_with_zero_fuel : (n a : ℕ) → a ≤ n → bit_or a 0 ≡ a
bit_or_with_zero_fuel n zero h = omega (arith, bit_or-bitwise 0 0)
bit_or_with_zero_fuel zero (suc a) h = absurd (omega arith)
bit_or_with_zero_fuel (suc n) (suc a) h =
    omega (arith, or_digit (suc a) 0, bit_or_with_zero_fuel n (suc a / 2) (omega arith))

-- Where the lower operand has no digit of the upper one, `|` adds.
pub bit_or-disjoint : (a b n : ℕ) → b < 2 ^ n → bit_or (a * 2 ^ n) b ≡ a * 2 ^ n + b
bit_or-disjoint a b zero h =
    let e : b ≡ 0 = omega arith in
    rw e (bit_or_with_zero_fuel (a * 2 ^ 0) (a * 2 ^ 0) (omega arith) ∙ omega arith)
bit_or-disjoint a b (suc n) h =
    let p : 2 ^ suc n ≡ 2 * 2 ^ n = omega (arith, pow-suc 2 n) in
    let double : a * 2 ^ suc n ≡ 2 * (a * 2 ^ n) = ap (λ v. a * v) p ∙ grind arith in
    let half : a * 2 ^ suc n / 2 ≡ a * 2 ^ n = omega (arith, double) in
    omega (
      arith,
      or_digit (a * 2 ^ suc n) b,
      ap (λ v. bit_or v (b / 2)) half,
      bit_or-disjoint a (b / 2) n (omega (arith, p)),
      double,
    )

pub bit_or-add : (x a b n : ℕ) → x ≡ a * 2 ^ n → b < 2 ^ n → bit_or x b ≡ x + b
bit_or-add x a b n e h = rw e (bit_or-disjoint a b n h)

-- A mask with `n` zeros at its end.
pub bit_and-shift : (w q n : ℕ) → bit_and w (q * 2 ^ n) ≡ bit_and (w / 2 ^ n) q * 2 ^ n
bit_and-shift w q zero =
    let one : q * 2 ^ 0 ≡ q = omega arith in
    let whole : w / 2 ^ 0 ≡ w = omega arith in rw (one, whole) (omega arith)
bit_and-shift w q (suc n) =
    let p : 2 ^ suc n ≡ 2 * 2 ^ n = omega (arith, pow-suc 2 n) in
    let double : q * 2 ^ suc n ≡ 2 * (q * 2 ^ n) = ap (λ v. q * v) p ∙ grind arith in
    let half : q * 2 ^ suc n / 2 ≡ q * 2 ^ n = omega (arith, double) in
    let deep : w / 2 ^ suc n ≡ w / 2 / 2 ^ n =
      ap (λ v. w / v) p ∙ sym (div-div-eq-div-mul w 2 (2 ^ n)) in
    let top : bit_and (w / 2 ^ suc n) q * 2 ^ suc n ≡ 2 * (bit_and (w / 2 / 2 ^ n) q * 2 ^ n) =
      rw (deep, p) (grind arith) in
    omega (
      arith,
      and_digit w (q * 2 ^ suc n),
      ap (λ v. bit_and (w / 2) v) half,
      bit_and-shift (w / 2) q n,
      double,
      top,
    )
