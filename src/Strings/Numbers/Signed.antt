-- ===== src/Strings/Numbers/Signed.antt =====
-- `itoa` on both signs.
use unos.Base.{
  ℕ, suc, ◌+◌, ◌-◌, ◌^◌, ◌<◌, ◌≤◌, ◌≡◌, ◌≢◌, inl, arith, true, false, some, List, ◌∷◌, leb, refl,
  ◌∙◌, update,
}
use unos.Memory.{Memory}
use unos.Strings.Text.Strings.{IsText}
use unos.Strings.Numbers.{signed_char, turn_round, write_digits, uitoa, itoa}
use unos.Strings.Numbers.Written.{Written, turn_round-Written}

-- A number that is not negative is written as `uitoa` writes it.
pub itoa-uitoa :
    (fuel val buf radix : ℕ) (m : Memory)
    → val < 2 ^ 31
    → itoa fuel val buf radix m ≡ uitoa fuel val buf radix m
unfolding itoa uitoa
itoa-uitoa fuel val buf radix m h =
    let sign : leb (2 ^ 31) val ≡ false = ground (arith, h) in rw sign refl

-- The digit that stands for a character of a negative number: counted down from the character 0.
abbrev pub below_zero : ℕ → ℕ
below_zero c = 48 - c

below_zero-signed_char :
    (a : ℕ) → a < 10 → (signed_char true a ≢ 0) × (below_zero (signed_char true a) ≡ a)
below_zero-signed_char a h = (ground arith, ground arith)

itoa-minus :
    (fuel val buf : ℕ) (m : Memory)
    → 2 ^ 31 ≤ val
    → itoa fuel val buf 10 m
      ≡ turn_round fuel buf 1
          (write_digits (signed_char true) fuel 1 (2 ^ 32 - val) buf 10 (update m buf 45))
unfolding itoa
itoa-minus fuel val buf m low =
    let sign : leb (2 ^ 31) val ≡ true = ground (arith, low) in rw sign refl

-- A negative number in radix 10 becomes a minus sign and a text whose characters are as far below
-- the character 0 as the digits are above it: each digit but 0 is written wrong.
pub itoa_negative :
    (fuel val buf : ℕ) (m : Memory)
    → 2 ^ 31 ≤ val
    → val < 2 ^ 32
    → 2 ^ 32 - val < 2 ^ fuel
    → (m' : Memory) × (cs : List ℕ) × (itoa (suc fuel) val buf 10 m ≡ some m')
      × IsText m' buf (45 ∷ cs)
      × Written below_zero (update m buf 45) m' (2 ^ 32 - val) (buf + 1) 10 fuel cs
itoa_negative fuel val buf m low high small =
    let (m', cs, e, w) =
      turn_round-Written (signed_char true) below_zero 10 fuel (2 ^ 32 - val) buf 1
        (update m buf 45) (λ a h. below_zero-signed_char a h) (omega arith) small in
    let minus : m' buf ≡ 45 = w.same buf (inl (omega arith)) ∙ ground arith in
    (m', cs, itoa-minus (suc fuel) val buf m low ∙ e, (minus, omega arith, w.text), w)
