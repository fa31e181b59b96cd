-- ===== src/Strings/Numbers/Digits.antt =====
-- The two loops: which digits are written, and that they are turned round.
use unos.Base.{
  ℕ, zero, suc, ◌+◌, ◌-◌, ◌*◌, ◌/◌, ◌%◌, ◌^◌, ◌<◌, ◌≤◌, ◌≡◌, ◌⊎◌, inl, inr, refl, arith, true,
  false, some, ◌==◌, ltb, update, ap, ◌∙◌,
}
use native.Mathlib.Nat.{div-add-mod, pow-suc, mul-le-mul_left}
use native.Mathlib.Decide.{dec_lt, ℕ_discrete}
use unos.Memory.{Memory}
use unos.Strings.Numbers.{write_digits, reverse_loop}

-- What is left of a number without its `k` lowest digits.
abbrev pub without : (radix k x : ℕ) → ℕ
without radix zero x = x
without radix (suc k) x = without radix k (x / radix)

pub without-suc : (radix k x : ℕ) → without radix (suc k) x ≡ without radix k x / radix
without-suc radix zero x = refl
without-suc radix (suc k) x = without-suc radix k (x / radix)

pub quotient-small : (n x radix : ℕ) → 2 ≤ radix → x < 2 ^ suc n → x / radix < 2 ^ n
quotient-small n x radix two h =
    omega (arith, pow-suc 2 n, div-add-mod x radix, mul-le-mul_left (x / radix) two)

-- What the first loop leaves: digit `k` at place `i + k`.
pub record Digits (char : ℕ → ℕ) (m m' : Memory) (x buf radix i n : ℕ) : Type 0 where
  pub some_digit : 1 ≤ n
  pub all : without radix n x ≡ 0
  pub digit : (k : ℕ) → k < n → m' (buf + i + k) ≡ char (without radix k x % radix)
  pub same : (j : ℕ) → (j < buf + i) ⊎ (buf + i + n ≤ j) → m' j ≡ m j

-- The last round, which writes one digit.
Digits-last :
    (char : ℕ → ℕ) (i x buf radix : ℕ) (m : Memory)
    → x / radix ≡ 0
    → Digits char m (update m (buf + i) (char (x % radix))) x buf radix i 1
Digits-last char i x buf radix m done = record {
  some_digit = omega arith;
  all = done;
  digit = λ k h. first k (omega arith);
  same = λ j out. ground (arith, out);
}
  where
    first :
        (k : ℕ)
        → k ≡ 0
        → update m (buf + i) (char (x % radix)) (buf + i + k) ≡ char (without radix k x % radix)
    first zero h = ground arith
    first (suc k) h = absurd (omega arith)

-- A round before the others.
Digits-more :
    (char : ℕ → ℕ) (i x buf radix n : ℕ) (m m' : Memory)
    → Digits char (update m (buf + i) (char (x % radix))) m' (x / radix) buf radix (i + 1) n
    → Digits char m m' x buf radix i (suc n)
Digits-more char i x buf radix n m m' d = record {
  some_digit = omega arith;
  all = d.all;
  digit = digit;
  same = λ j out.
      d.same j (elim out [ inl lo ↦ inl (omega arith) | inr hi ↦ inr (omega arith) ])
      ∙ ground (arith, out);
}
  where
    digit : (k : ℕ) → k < suc n → m' (buf + i + k) ≡ char (without radix k x % radix)
    digit zero h =
        let at : buf + i + 0 ≡ buf + i = omega arith in
        ap m' at ∙ d.same (buf + i) (inl (omega arith)) ∙ ground arith
    digit (suc k) h =
        let at : buf + i + suc k ≡ buf + (i + 1) + k = omega arith in
        ap m' at ∙ d.digit k (omega arith)

pub write_digits_lem :
    (char : ℕ → ℕ) (fuel i x buf radix : ℕ) (m : Memory)
    → 2 ≤ radix
    → x < 2 ^ fuel
    → (n : ℕ) × (m' : Memory) × (write_digits char (suc fuel) i x buf radix m ≡ some (i + n, m'))
      × (n ≤ suc fuel)
      × Digits char m m' x buf radix i n
unfolding write_digits
write_digits_lem char zero i x buf radix m two small =
    let end : x / radix ≡ 0 = omega (arith, quotient-small 0 x radix two (omega arith)) in
    let stop : (x / radix == 0) ≡ true = ground (arith, end) in
    rw stop (1, _, refl, omega arith, Digits-last char i x buf radix m end)
write_digits_lem char (suc fuel) i x buf radix m two small = elim (ℕ_discrete (x / radix) 0) [
  | yes end ↦
      let stop : (x / radix == 0) ≡ true = ground (arith, end) in
      rw stop (1, _, refl, omega arith, Digits-last char i x buf radix m end)
  | no more ↦
      let m1 = update m (buf + i) (char (x % radix)) in
      let on : (x / radix == 0) ≡ false = ground (arith, more) in
      let (n, m', e, few, d) =
        write_digits_lem char fuel (i + 1) (x / radix) buf radix m1 two
          (quotient-small fuel x radix two small) in
      rw on (
        suc n,
        m',
        e ∙ ap (λ k. some (k, m')) (omega arith),
        omega arith,
        Digits-more char i x buf radix n m m' d,
      )
]

turned :
    (s e : ℕ) (m m' : Memory)
    → let m1 = update (update m s (m e)) e (m s) in
      ((j : ℕ) → s + 1 ≤ j → j ≤ e - 1 → m' j ≡ m1 (s + 1 + (e - 1) - j))
      → ((j : ℕ) → (j < s + 1) ⊎ (e - 1 < j) → m' j ≡ m1 j)
      → (j : ℕ) → s < e
      → s ≤ j
      → j ≤ e
      → m' j ≡ m (s + e - j)
turned s e m m' inside outside j lt p q = elim (ℕ_discrete j s) [
  | yes low ↦
      let at : s + e - j ≡ e = omega arith in
      rw at (outside j (inl (omega arith)) ∙ ground (arith, low))
  | no not_low ↦ elim (ℕ_discrete j e) [
    | yes high ↦
        let at : s + e - j ≡ s = omega arith in
        rw at (outside j (inr (omega arith)) ∙ ground (arith, high))
    | no not_high ↦
        let at : s + 1 + (e - 1) - j ≡ s + e - j = omega arith in
        inside j (omega arith) (omega arith)
        ∙ ap (update (update m s (m e)) e (m s)) at
        ∙ ground (arith, p, q, not_low, not_high)
  ]
]

-- The second loop turns the range round and ends.
pub reverse_loop_lem :
    (fuel s e : ℕ) (m : Memory)
    → e < s + 2 * fuel + 1
    → (m' : Memory) × (reverse_loop (suc fuel) s e m ≡ some m')
      × ((j : ℕ) → s ≤ j → j ≤ e → m' j ≡ m (s + e - j))
      × ((j : ℕ) → (j < s) ⊎ (e < j) → m' j ≡ m j)
unfolding reverse_loop
reverse_loop_lem zero s e m h =
    let stop : ltb s e ≡ false = ground (arith, h) in
    rw stop (m, refl, (λ j p q. ap m (omega arith)), λ j out. refl)
reverse_loop_lem (suc fuel) s e m h = elim (dec_lt s e) [
  | no end ↦
      let stop : ltb s e ≡ false = ground (arith, end) in
      rw stop (m, refl, (λ j p q. ap m (omega arith)), λ j out. refl)
  | yes lt ↦
      let m1 = update (update m s (m e)) e (m s) in
      let on : ltb s e ≡ true = ground (arith, lt) in
      let (m', r, inside, outside) = reverse_loop_lem fuel (s + 1) (e - 1) m1 (omega arith) in
      rw on (
        m',
        r,
        (λ j p q. turned s e m m' inside outside j lt p q),
        λ j out.
            outside j (elim out [ inl lo ↦ inl (omega arith) | inr hi ↦ inr (omega arith) ])
            ∙ ground (arith, out),
      )
]
