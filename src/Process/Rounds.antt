-- ===== src/Process/Rounds.antt =====
-- The processes that the timer's ticks choose, one after the other.
use unos.Base.{
  ◌*◌, u32, ◌≢◌, inl, inr, ◌%◌, ℕ, ◌^◌, suc, ◌+◌, ◌-◌, ◌<◌, ◌≤◌, ◌≡◌, refl, arith, some, List, [],
  ◌∷◌, length, get_or, ap, ◌∙◌, ltb, ◌++◌, if◌then◌else◌,
}
use native.Mathlib.Decide.{ℕ_discrete}
use native.Mathlib.Nat.{mod-lt, suc-mul, mul-le-mul_right}
use unos.Process.Ticks.{next_due, tick_due, tick_between}
use unos.Process.{Scheduler, Registers, tick, ticks, then_ticks}
use unos.Process.Ring.{nowhere, IsRing, follow}

-- how many switches lead from place `i` to place `j` of `n`
abbrev pub distance : (n i j : ℕ) → ℕ
distance n i j = if ltb i j then j - i else j + n - i

-- A first part of the ticks after which the process at place `j` runs.
pub record Chosen (offset jiffies : ℕ) (ts : List Registers) (s : Scheduler) (xs : List (ℕ × ℕ))
    (j : ℕ) : Type 0 where
  pub done : List Registers
  pub left : List Registers
  pub split : done ++ left ≡ ts
  pub result : Scheduler
  pub runs : ticks offset jiffies done s ≡ some result
  pub current : result.current_process ≡ (get_or xs j nowhere).1

module _ (offset : ℕ) (pos : 0 < offset) where
  -- the next tick's part in `Chosen`
  Chosen-tick :
      (t : Registers) (ts : List Registers) (s s' : Scheduler) (xs : List (ℕ × ℕ)) (jiffies j : ℕ)
      → tick offset (u32 (jiffies + 1)) t s ≡ some s'
      → Chosen offset (u32 (jiffies + 1)) ts s' xs j
      → Chosen offset jiffies (t ∷ ts) s xs j
  unfolding ticks then_ticks
  Chosen-tick t ts s s' xs jiffies j e c = record {
    done = t ∷ c.done;
    left = c.left;
    split = ap (λ us. t ∷ us) c.split;
    result = c.result;
    runs = rw e c.runs;
    current = c.current;
  }

  Chosen-distance :
      (ts : List Registers) (jiffies : ℕ) (s : Scheduler) (xs : List (ℕ × ℕ)) (i j k : ℕ)
      → IsRing s xs
      → i < length xs
      → j < length xs
      → s.current_process ≡ (get_or xs i nowhere).1
      → jiffies + length ts < 2 ^ 32
      → distance (length xs) i j ≡ suc k
      → k * offset + (offset - jiffies % offset) ≤ length ts
      → Chosen offset jiffies ts s xs j
  Chosen-distance [] jiffies s xs i j k r hi hj at low far h =
      absurd (omega (arith, mod-lt jiffies pos))
  Chosen-distance (t ∷ ts) jiffies s xs i j k r hi hj at low far h =
      let count : u32 (jiffies + 1) ≡ jiffies + 1 = omega arith in
      let low' : u32 (jiffies + 1) + length ts < 2 ^ 32 = omega (arith, count) in
      elim (next_due offset (u32 (jiffies + 1)) jiffies pos count) [
        | inl (due, end) ↦
            let (s', e, w) = tick_due offset (u32 (jiffies + 1)) t s xs i pos due r hi at in
            elim (ℕ_discrete (follow (length xs) i) j) [
              | yes here ↦ Chosen-tick t ts s s' xs jiffies j e (record {
                done = [];
                left = ts;
                split = refl;
                result = s';
                runs = unfold ticks in refl;
                current = w.current ∙ ap (λ m. (get_or xs m nowhere).1) here;
              })
              | no later ↦
                  let (m, closer, less) = closer later far in
                  Chosen-tick t ts s s' xs jiffies j e (
                    Chosen-distance ts (u32 (jiffies + 1)) s' xs (follow (length xs) i) j m w.ring
                      (ground (arith, hi)) hj w.current low' closer
                      (omega (arith, h, due, end, ap (λ v. v * offset) less, suc-mul m offset)))
            ]
        | inr (rest, more) ↦
            Chosen-tick t ts s (record s { saved_context = t }) xs jiffies j
              (tick_between offset (u32 (jiffies + 1)) t s pos (omega (arith, rest)))
              (Chosen-distance ts (u32 (jiffies + 1)) (record s { saved_context = t }) xs i j k
                (record { list = r.list; alive = r.alive }) hi hj at low' far
                (omega (arith, h, rest)))
      ]
    where
      closer :
          follow (length xs) i ≢ j
          → distance (length xs) i j ≡ suc k
          → (m : ℕ) × (distance (length xs) (follow (length xs) i) j ≡ suc m) × (k ≡ suc m)
      closer later far =
          (k - 1, ground (arith, hi, hj, later, far), ground (arith, hi, hj, later, far))

  -- While no process is created and none exits, and the count of ticks does not wrap: in `offset` ticks
  -- for each process each of them is chosen, whatever registers the ticks save. After a first part of the
  -- ticks it is the one that runs.
  pub every_process_runs :
      (ts : List Registers) (jiffies : ℕ) (s : Scheduler) (xs : List (ℕ × ℕ)) (i j : ℕ)
      → IsRing s xs
      → i < length xs
      → s.current_process ≡ (get_or xs i nowhere).1
      → jiffies + length ts < 2 ^ 32
      → length ts ≡ length xs * offset
      → j < length xs
      → Chosen offset jiffies ts s xs j
  every_process_runs ts jiffies s xs i j r hi at low e hj =
      let k : ℕ = distance (length xs) i j - 1 in
      let far : distance (length xs) i j ≡ suc k = ground (arith, hi, hj) in
      let within : suc k ≤ length xs = ground (arith, hi, hj) in
      Chosen-distance ts jiffies s xs i j k r hi hj at low far
        (omega (arith, e, mul-le-mul_right offset within, suc-mul k offset))
