-- ===== src/Strings/Tests.antt =====
-- The string routines' theorems at a few bytes.
use unos.Base.{◌+◌, ◌-◌, ◌^◌, ◌≡◌, arith, if◌then◌else◌, ◌==◌, some, List, [], ◌∷◌, ℕ, update}
use unos.Memory.{Memory}
use unos.Strings.Text.Strings.{IsText}
use unos.Strings.Numbers.{uitoa, itoa}
use unos.Strings.Numbers.Written.{Written}
use unos.Strings.Numbers.Unsigned.{digit_value, uitoa-Written}
use unos.Strings.Numbers.Signed.{below_zero, itoa_negative}

-- "ab" at 100 and "a" at 200
abbrev texts : Memory
texts j = if j == 100 then 97 else if j == 101 then 98 else if j == 200 then 97 else 0

abbrev ab : List ℕ
ab = 97 ∷ 98 ∷ []

abbrev a : List ℕ
a = 97 ∷ []

uitoa-Written_example :
    (m' : Memory) × (cs : List ℕ) × (uitoa 33 0xdead_beef 100 16 texts ≡ some m')
    × Written digit_value texts m' 0xdead_beef 100 16 32 cs
uitoa-Written_example =
    uitoa-Written 32 0xdead_beef 100 16 texts (omega arith) (omega arith) (omega arith)

itoa_negative_example :
    (m' : Memory) × (cs : List ℕ) × (itoa 33 (2 ^ 32 - 42) 100 10 texts ≡ some m')
    × IsText m' 100 (45 ∷ cs)
    × Written below_zero (update texts 100 45) m' (2 ^ 32 - (2 ^ 32 - 42)) (100 + 1) 10 32 cs
itoa_negative_example =
    itoa_negative 32 (2 ^ 32 - 42) 100 texts (omega arith) (omega arith) (omega arith)
