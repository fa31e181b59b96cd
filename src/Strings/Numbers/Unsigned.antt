-- ===== src/Strings/Numbers/Unsigned.antt =====
-- A number written by `uitoa` and read back.
use mathlib.Core.Path.{subst}
use unos.Base.{ℕ, suc, ◌+◌, ◌-◌, ◌^◌, ◌<◌, ◌≤◌, ◌≡◌, ◌≢◌, arith, some, List, ltb, if◌then◌else◌}
use unos.Memory.{Memory}
use unos.Strings.Numbers.{digit_char, uitoa}
use unos.Strings.Numbers.Written.{Written, turn_round-Written}

-- The digit that a character stands for.
abbrev pub digit_value : ℕ → ℕ
digit_value c = if ltb c 58 then c - 48 else c - 87

digit_value-digit_char : (a : ℕ) → a < 36 → (digit_char a ≢ 0) × (digit_value (digit_char a) ≡ a)
digit_value-digit_char a h = (ground arith, ground arith)

-- With a radix from 2 to 36 and a round for each binary digit, `uitoa` ends. It leaves a text of
-- digits of that radix, the highest one first, that reads as the number, and writes nowhere else.
pub uitoa-Written :
    (fuel val buf radix : ℕ) (m : Memory)
    → 2 ≤ radix
    → radix ≤ 36
    → val < 2 ^ fuel
    → (m' : Memory) × (cs : List ℕ) × (uitoa (suc fuel) val buf radix m ≡ some m')
      × Written digit_value m m' val buf radix fuel cs
unfolding uitoa
uitoa-Written fuel val buf radix m two most small =
    let (m', cs, e, w) =
      turn_round-Written digit_char digit_value radix fuel val buf 0 m
        (λ a h. digit_value-digit_char a (omega arith)) two small in
    let start : buf + 0 ≡ buf = omega arith in
    (m', cs, e, subst (λ a. Written digit_value m m' val a radix fuel cs) start w)
