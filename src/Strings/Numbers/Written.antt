-- ===== src/Strings/Numbers/Written.antt =====
-- The text that the two loops leave, and the number that it reads as.
use mathlib.Core.Path.{subst}
use unos.Base.{
  ℕ, zero, suc, ◌+◌, ◌-◌, ◌*◌, ◌%◌, ◌^◌, ◌<◌, ◌≤◌, ◌≡◌, ◌≢◌, ◌⊎◌, inl, inr, refl, arith, some, List,
  [], ◌∷◌, length, update, ap, ◌∙◌, sym,
}
use native.Mathlib.Nat.{div-add-mod, mod-lt}
use unos.Memory.{Memory}
use unos.Strings.Text.Strings.{IsText}
use unos.Strings.Numbers.{write_digits, turn_round, end_text}
use unos.Strings.Numbers.Digits.{without, without-suc, write_digits_lem, reverse_loop_lem}

-- The value of the digits of a text, the first one the highest, behind those of `high`.
abbrev pub number : (value : ℕ → ℕ) (radix high : ℕ) → List ℕ → ℕ
number value radix high [] = high
number value radix high (c ∷ cs) = number value radix (high * radix + value c) cs

-- Each byte stands for a digit below `radix`.
abbrev pub AreDigits : (value : ℕ → ℕ) → ℕ → List ℕ → Type 0
AreDigits value radix [] = Unit
AreDigits value radix (c ∷ cs) = (value c < radix) × AreDigits value radix cs

abbrev pub bytes_at : Memory → (a n : ℕ) → List ℕ
bytes_at m a zero = []
bytes_at m a (suc n) = m a ∷ bytes_at m (a + 1) n

length-bytes_at : (m : Memory) (a n : ℕ) → length (bytes_at m a n) ≡ n
length-bytes_at m a zero = refl
length-bytes_at m a (suc n) = ap suc (length-bytes_at m (a + 1) n)

-- What is left in memory: a text that reads as `x`, and all else as it was.
pub record Written (value : ℕ → ℕ) (m m' : Memory) (x at radix fuel : ℕ) (cs : List ℕ)
    : Type 0 where
  pub text : IsText m' at cs
  pub some_digit : 1 ≤ length cs
  pub most_digits : length cs ≤ suc fuel
  pub digits : AreDigits value radix cs
  pub reads : number value radix 0 cs ≡ x
  pub same : (j : ℕ) → (j < at) ⊎ (at + length cs < j) → m' j ≡ m j

-- `value` is what the character that `char` gives stands for.
module _ (char value : ℕ → ℕ) (radix : ℕ) where
  bytes-digits :
      (x n at : ℕ) (m : Memory) (k : ℕ)
      → ((a : ℕ) → a < radix → (char a ≢ 0) × (value (char a) ≡ a))
      → 0 < radix
      → m (at + n) ≡ 0
      → ((j : ℕ) → j < n → m (at + (n - suc j)) ≡ char (without radix j x % radix))
      → k ≤ n
      → let cs = bytes_at m (at + (n - k)) k in
        IsText m (at + (n - k)) cs
        × AreDigits value radix cs
        × (number value radix (without radix k x) cs ≡ x)
  bytes-digits x n at m zero good pos end turned h = (ap m (omega arith) ∙ end, tt, refl)
  bytes-digits x n at m (suc k) good pos end turned h =
      let next : at + (n - suc k) + 1 ≡ at + (n - k) = omega arith in
      let a = without radix k x % radix in
      let here = turned k h in
      let small : a < radix = mod-lt (without radix k x) pos in
      let (filled, back) = good a small in
      let (text, digits, reads) = bytes-digits x n at m k good pos end turned (omega arith) in
      let read : value (m (at + (n - suc k))) ≡ a = ap value here ∙ back in
      let whole : without radix (suc k) x * radix + value (m (at + (n - suc k)))
          ≡ without radix k x =
        omega (
          arith,
          read,
          ap (λ (q : ℕ). q * radix) (without-suc radix k x),
          div-add-mod (without radix k x) radix,
        ) in
      rw next (
        (refl, (λ z. filled (sym here ∙ z)), text),
        (omega (arith, read, small), digits),
        ap (λ q. number value radix q (bytes_at m (at + (n - k)) k)) whole ∙ reads,
      )

  -- Both functions from their first loop on.
  pub turn_round-Written :
      (fuel x buf start : ℕ) (m : Memory)
      → ((a : ℕ) → a < radix → (char a ≢ 0) × (value (char a) ≡ a))
      → 2 ≤ radix
      → x < 2 ^ fuel
      → (m' : Memory) × (cs : List ℕ) × (turn_round
            (suc fuel)
            buf
            start
            (write_digits char (suc fuel) start x buf radix m)
          ≡ some m')
        × Written value m m' x (buf + start) radix fuel cs
  unfolding turn_round end_text
  turn_round-Written fuel x buf start m good two small =
      let (n, m1, e, few, d) = write_digits_lem char fuel start x buf radix m two small in
      let at = buf + start in
      let last = buf + (start + n - 1) in
      let (m2, r, inside, outside) =
        reverse_loop_lem fuel at last m1 (omega (arith, few, d.some_digit)) in
      let m' = update m2 (buf + (start + n)) 0 in
      let sum : buf + (start + n) ≡ at + n = omega arith in
      let long = length-bytes_at m' at n in
      let turned : (k : ℕ) → k < n → m' (at + (n - suc k)) ≡ char (without radix k x % radix) =
        λ k h.
          let place : at + last - (at + (n - suc k)) ≡ buf + start + k = omega arith in
          update-ne m2 (buf + (start + n)) (at + (n - suc k)) (omega arith)
          ∙ inside (at + (n - suc k)) (omega arith) (omega arith)
          ∙ ap m1 place
          ∙ d.digit k h in
      let end : m' (at + n) ≡ 0 = ground (arith, sum) in
      let start_at : at + (n - n) ≡ at = omega arith in
      let (text, digits, reads) =
        subst
          (λ a.
            let cs = bytes_at m' a n in
            IsText m' a cs
            × AreDigits value radix cs
            × (number value radix (without radix n x) cs ≡ x))
          start_at (bytes-digits x n at m' n good (omega arith) end turned (omega arith)) in
      (
        m',
        bytes_at m' at n,
        ap (turn_round (suc fuel) buf start) e ∙ ap (end_text (buf + (start + n))) r,
        record {
          text = text;
          some_digit = omega (arith, long, d.some_digit);
          most_digits = omega (arith, long, few);
          digits = digits;
          reads = ap (λ q. number value radix q (bytes_at m' at n)) (sym d.all) ∙ reads;
          same = λ j out.
              let away = beyond at n (length (bytes_at m' at n)) j long out in
              update-ne m2 (buf + (start + n)) j (omega (arith, away))
              ∙ outside j (before_last j at n last (omega (arith, d.some_digit)) away)
              ∙ d.same j (up_to j at n away);
        },
      )
    where
      update-ne : (m : Memory) (a j : ℕ) → j ≢ a → update m a 0 j ≡ m j
      update-ne m a j h = ground (arith, h)

      beyond : (at n l j : ℕ) → l ≡ n → (j < at) ⊎ (at + l < j) → (j < at) ⊎ (at + n < j)
      beyond at n l j e (inl lo) = inl lo
      beyond at n l j e (inr hi) = inr (omega arith)

      before_last :
          (j at n last : ℕ) → last ≤ at + n → (j < at) ⊎ (at + n < j) → (j < at) ⊎ (last < j)
      before_last j at n last e (inl lo) = inl lo
      before_last j at n last e (inr hi) = inr (omega arith)

      up_to : (j at n : ℕ) → (j < at) ⊎ (at + n < j) → (j < at) ⊎ (at + n ≤ j)
      up_to j at n (inl lo) = inl lo
      up_to j at n (inr hi) = inr (omega arith)
