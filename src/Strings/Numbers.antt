-- ===== src/Strings/Numbers.antt =====
-- `uitoa` and `itoa` of lib/string.c. The loop over the digits and the loop that turns them round run
-- on fuel: `none` is running out of it. `radix` is not 0, the processor's divide error.
pub mod Digits
pub mod Written
pub mod Unsigned
pub mod Signed
use unos.Base.{
  ℕ, zero, suc, ◌+◌, ◌-◌, ◌*◌, ◌/◌, ◌%◌, ◌^◌, Bool, true, false, ◌&&◌, Option, none, some, ltb, leb,
  ◌==◌, if◌then◌else◌, u8, u32, update,
}
use unos.Memory.{Memory}

-- the character of the digit `a`, stored as a byte
abbrev pub digit_char : ℕ → ℕ
digit_char a = if ltb a 10 then u8 (a + 48) else u8 (a + 97 - 10)

-- the character of the remainder `a`, or of `-a`, in `itoa`
abbrev pub signed_char : (negative : Bool) → ℕ → ℕ
signed_char false a = digit_char a
signed_char true a = u8 (256 + 48 - a)

-- the `do` loop of both functions on the number `x`, or on `-x`, with the character of a remainder:
-- the index behind the last digit. Division cuts towards 0.
pub write_digits : (char : ℕ → ℕ) (fuel i x buf radix : ℕ) → Memory → Option (ℕ × Memory)
write_digits char zero i x buf radix m = none
write_digits char (suc fuel) i x buf radix m =
    let m' = update m (buf + i) (char (x % radix)) in
    let rest = write_digits char fuel (i + 1) (x / radix) buf radix m' in
    if x / radix == 0 then some (i + 1, m') else rest

-- the loop that turns the digits round
pub reverse_loop : (fuel s e : ℕ) → Memory → Option Memory
reverse_loop zero s e m = none
reverse_loop (suc fuel) s e m =
    let m' = update (update m s (m e)) e (m s) in
    let rest = reverse_loop fuel (s + 1) (e - 1) m' in if ltb s e then rest else some m

-- `buf[i] = 0` behind the digits turned round
pub end_text : (at : ℕ) → Option Memory → Option Memory
end_text at none = none
end_text at (some m) = some (update m at 0)

-- both functions from the second loop on, with the digits from `start` to `i`
pub turn_round : (fuel buf start : ℕ) → Option (ℕ × Memory) → Option Memory
unfolding reverse_loop end_text
turn_round fuel buf start none = none
turn_round fuel buf start (some (i, m)) =
    end_text (buf + i) (reverse_loop fuel (buf + start) (buf + (i - 1)) m)

pub uitoa : (fuel val buf radix : ℕ) → Memory → Option Memory
unfolding turn_round write_digits
uitoa fuel val buf radix m = turn_round fuel buf 0 (write_digits digit_char fuel 0 val buf radix m)

-- `val` is kept modulo 2 ^ 32; `radix` is positive
pub itoa : (fuel val buf radix : ℕ) → Memory → Option Memory
unfolding turn_round write_digits
itoa fuel val buf radix m =
    let negative = leb (2 ^ 31) val in
    let x = if negative then 2 ^ 32 - val else val in
    let minus = negative && (radix == 10) in
    let start = if minus then 1 else 0 in
    let m' = if minus then update m buf 45 else m in
    turn_round fuel buf start (write_digits (signed_char negative) fuel start x buf radix m')
