-- ===== src/Process/Switch.antt =====
-- The registers of a process while others run.
use unos.Process.Rounds.{distance}
use unos.Process.Ticks.{next_due, tick_due, tick_between}
use native.Mathlib.Nat.{mod-lt, suc-mul}
use unos.Base.{
  ◌-◌, ◌*◌, ◌%◌, ◌^◌, inl, inr, u32, ℕ, ◌+◌, zero, suc, ◌<◌, ◌≡◌, ◌≢◌, refl, arith, some, List, [],
  ◌∷◌, length, get_or, ap, ◌∙◌, sym,
}
use native.Mathlib.Decide.{ℕ_discrete}
use unos.LinkedList.Front.{Fresh, AreDistinct}
use unos.Process.{Scheduler, Context, Registers, saved_regs, tick, ticks, then_ticks}
use unos.Process.Ring.{nowhere, IsRing, AreAlive-get_or, follow}

Fresh-get_or :
    (a : ℕ) (xs : List (ℕ × ℕ)) (i : ℕ) → i < length xs → Fresh a xs → a ≢ (get_or xs i nowhere).0
Fresh-get_or a [] i h f = absurd (omega arith)
Fresh-get_or a (x ∷ xs) zero h (ne, f) = ne
Fresh-get_or a (x ∷ xs) (suc i) h (ne, f) = Fresh-get_or a xs i (omega arith) f

AreDistinct-get_or :
    (xs : List (ℕ × ℕ)) (i j : ℕ)
    → i < length xs
    → j < length xs
    → i ≢ j
    → AreDistinct xs
    → (get_or xs i nowhere).0 ≢ (get_or xs j nowhere).0
AreDistinct-get_or [] i j hi hj ne d = absurd (omega arith)
AreDistinct-get_or (x ∷ xs) zero zero hi hj ne d = absurd (ne refl)
AreDistinct-get_or (x ∷ xs) zero (suc j) hi hj ne (f, d) = Fresh-get_or x.0 xs j (omega arith) f
AreDistinct-get_or (x ∷ xs) (suc i) zero hi hj ne (f, d) =
    λ e. Fresh-get_or x.0 xs i (omega arith) f (sym e)
AreDistinct-get_or (x ∷ xs) (suc i) (suc j) hi hj ne (f, d) =
    AreDistinct-get_or xs i j (omega arith) (omega arith) (λ e. ne (ap suc e)) d

-- Two places hold two control blocks.
pub IsRing-apart :
    (s : Scheduler) (xs : List (ℕ × ℕ)) (i j : ℕ)
    → IsRing s xs
    → i < length xs
    → j < length xs
    → i ≢ j
    → (get_or xs i nowhere).1 ≢ (get_or xs j nowhere).1
IsRing-apart s xs i j r hi hj ne = λ e.
    let (some_i, node_i, live_i) = AreAlive-get_or s.processes xs i hi r.alive in
    let (some_j, node_j, live_j) = AreAlive-get_or s.processes xs j hj r.alive in
    AreDistinct-get_or xs i j hi hj ne r.list.distinct
      (sym node_i ∙ ap (λ p. (s.processes p).self) e ∙ node_j)

-- The process at place `i` runs, and the next switch stores its registers.
pub record IsRunning (s : Scheduler) (xs : List (ℕ × ℕ)) (i : ℕ) : Type 0 where
  pub ring : IsRing s xs
  pub current : s.current_process ≡ (get_or xs i nowhere).1
  pub last : s.last_process ≡ s.current_process

-- A due tick stores the registers of the process that runs, and leaves those of the others.
pub tick-regs :
    (offset jiffies : ℕ) (regs : Registers) (s : Scheduler) (xs : List (ℕ × ℕ)) (i : ℕ)
    → 0 < offset
    → jiffies % offset ≡ 0
    → IsRunning s xs i
    → i < length xs
    → (s' : Scheduler) × (tick offset jiffies regs s ≡ some s')
      × IsRunning s' xs (follow (length xs) i)
      × (s'.entered ≡ (s'.processes s'.current_process).regs)
      × ((s'.processes (get_or xs i nowhere).1).regs ≡ saved_regs regs s.vmm.cr3)
      × ((j : ℕ)
          → j < length xs
          → j ≢ i
          → (s'.processes (get_or xs j nowhere).1).regs
            ≡ (s.processes (get_or xs j nowhere).1).regs)
tick-regs offset jiffies regs s xs i pos due r h =
    let (s', e, w) = tick_due offset jiffies regs s xs i pos due r.ring h r.current in
    let (ne, node, live) = AreAlive-get_or s.processes xs i h r.ring.alive in
    let at : s.last_process ≡ (get_or xs i nowhere).1 = r.last ∙ r.current in
    (
      s',
      e,
      record { ring = w.ring; current = w.current; last = w.last },
      w.entered,
      ground (arith, w.regs (get_or xs i nowhere).1, at, ne),
      λ j hj apart.
          ground (
            arith,
            w.regs (get_or xs j nowhere).1,
            at,
            ne,
            IsRing-apart s xs j i r.ring hj h apart,
          ),
    )

no_ticks : (us : List Registers) → length us ≡ 0 → us ≡ []
no_ticks [] h = refl
no_ticks (u ∷ us) h = absurd (omega arith)

-- `ticks` on a list whose first tick is known
ticks_first :
    (offset jiffies : ℕ) (t : Registers) (ts : List Registers) (s s1 : Scheduler)
    → tick offset (u32 (jiffies + 1)) t s ≡ some s1
    → ticks offset jiffies (t ∷ ts) s ≡ ticks offset (u32 (jiffies + 1)) ts s1
unfolding ticks then_ticks
ticks_first offset jiffies t ts s s1 e =
    ap (λ o. then_ticks o (ticks offset (u32 (jiffies + 1)) ts)) e

ticks_none :
    (offset jiffies : ℕ) (us : List Registers) (s : Scheduler)
    → length us ≡ 0
    → ticks offset jiffies us s ≡ some s
unfolding ticks
ticks_none offset jiffies us s h = ap (λ ts. ticks offset jiffies ts s) (no_ticks us h)

-- how many switches are left behind one that does not reach the place
closer :
    (n k i d : ℕ)
    → k < n
    → i < n
    → follow n k ≢ i
    → distance n k i ≡ suc d
    → (m : ℕ) × (distance n (follow n k) i ≡ suc m) × (d ≡ suc m)
closer n k i d hk hi later far =
    (d - 1, ground (arith, hi, hk, later, far), ground (arith, hi, hk, later, far))

module _ (offset : ℕ) (pos : 0 < offset) where
  ticks_until :
      (ts : List Registers) (jiffies : ℕ) (s : Scheduler) (xs : List (ℕ × ℕ)) (k i d : ℕ)
      (c : Context)
      → IsRunning s xs k
      → k < length xs
      → i < length xs
      → i ≢ k
      → (s.processes (get_or xs i nowhere).1).regs ≡ c
      → jiffies + length ts < 2 ^ 32
      → distance (length xs) k i ≡ suc d
      → length ts ≡ d * offset + (offset - jiffies % offset)
      → (s' : Scheduler) × (ticks offset jiffies ts s ≡ some s')
        × IsRunning s' xs i
        × (s'.entered ≡ c)
  ticks_until [] jiffies s xs k i d c r hk hi ne has low far h =
      absurd (omega (arith, mod-lt jiffies pos))
  ticks_until (t ∷ ts) jiffies s xs k i d c r hk hi ne has low far h =
      let count : u32 (jiffies + 1) ≡ jiffies + 1 = omega arith in
      let low' : u32 (jiffies + 1) + length ts < 2 ^ 32 = omega (arith, count) in
      elim (next_due offset (u32 (jiffies + 1)) jiffies pos count) [
        | inl (due, end) ↦
            let (s1, e, r1, entered, saved, others) =
              tick-regs offset (u32 (jiffies + 1)) t s xs k pos due r hk in
            let kept : (s1.processes (get_or xs i nowhere).1).regs ≡ c = others i hi ne ∙ has in
            let first = ticks_first offset jiffies t ts s s1 e in
            elim (ℕ_discrete (follow (length xs) k) i) [
              | yes here ↦
                  let place = ap (λ j. (get_or xs j nowhere).1) here in
                  let over : d ≡ 0 = ground (arith, far, here, hk, hi) in
                  let none_left : length ts ≡ 0 =
                    omega (arith, h, end, ap (λ v. v * offset) over) in
                  (
                    s1,
                    first ∙ ticks_none offset (u32 (jiffies + 1)) ts s1 none_left,
                    record { ring = r1.ring; current = r1.current ∙ place; last = r1.last },
                    entered ∙ ap (λ p. (s1.processes p).regs) (r1.current ∙ place) ∙ kept,
                  )
              | no later ↦
                  let (m, far', less) = closer (length xs) k i d hk hi later far in
                  let (s', e', r', at) =
                    ticks_until ts (u32 (jiffies + 1)) s1 xs (follow (length xs) k) i m c r1
                      (ground (arith, hk)) hi (λ back. later (sym back)) kept low' far'
                      (omega (arith, h, due, end, ap (λ v. v * offset) less, suc-mul m offset)) in
                  (s', first ∙ e', r', at)
            ]
        | inr (rest, more) ↦
            let s1 = record s { saved_context = t } in
            let e = tick_between offset (u32 (jiffies + 1)) t s pos (omega (arith, rest)) in
            let (s', e', r', at) =
              ticks_until ts (u32 (jiffies + 1)) s1 xs k i d c
                (record {
                  ring = record { list = r.ring.list; alive = r.ring.alive };
                  current = r.current;
                  last = r.last;
                })
                hk hi ne has low' far (omega (arith, h, rest)) in
            (s', ticks_first offset jiffies t ts s s1 e ∙ e', r', at)
      ]

  -- While no process is created and none exits, and the count of ticks does not wrap: a process that a
  -- due tick interrupts is back after exactly `offset` ticks for each of the `others` other processes,
  -- and `user_regs_switch` gets the registers that the tick saved: `useresp` for its stack pointer, and
  -- the page directory of that moment.
  pub ticks-resume :
      (jiffies others : ℕ) (regs : Registers) (ts : List Registers) (s : Scheduler)
      (xs : List (ℕ × ℕ)) (i : ℕ)
      → IsRunning s xs i
      → i < length xs
      → (jiffies + 1) % offset ≡ 0
      → jiffies + 1 + length ts < 2 ^ 32
      → length xs ≡ others + 1
      → length ts ≡ others * offset
      → (s' : Scheduler) × (ticks offset jiffies (regs ∷ ts) s ≡ some s')
        × IsRunning s' xs i
        × (s'.entered ≡ saved_regs regs s.vmm.cr3)
  ticks-resume jiffies others regs ts s xs i r h due low few e =
      let count : u32 (jiffies + 1) ≡ jiffies + 1 = omega arith in
      let now : u32 (jiffies + 1) % offset ≡ 0 = ap (λ v. v % offset) count ∙ due in
      let (s1, e1, r1, entered, saved, kept) =
        tick-regs offset (u32 (jiffies + 1)) regs s xs i pos now r h in
      let first = ticks_first offset jiffies regs ts s s1 e1 in
      elim (ℕ_discrete (follow (length xs) i) i) [
        | yes here ↦
            let place = ap (λ j. (get_or xs j nowhere).1) here in
            let alone : others ≡ 0 = ground (arith, few, here, h) in
            (
              s1,
              first
                  ∙ ticks_none offset (u32 (jiffies + 1)) ts s1
                      (omega (arith, e, ap (λ v. v * offset) alone)),
              record { ring = r1.ring; current = r1.current ∙ place; last = r1.last },
              entered ∙ ap (λ p. (s1.processes p).regs) (r1.current ∙ place) ∙ saved,
            )
        | no later ↦
            let d : ℕ = others - 1 in
            let more : others ≡ suc d = ground (arith, few, later, h) in
            let (s', e', r', at) =
              ticks_until ts (u32 (jiffies + 1)) s1 xs (follow (length xs) i) i d
                (saved_regs regs s.vmm.cr3) r1 (ground (arith, h)) h (λ back. later (sym back))
                saved (omega (arith, count, low)) (ground (arith, few, h, later))
                (omega (arith, e, now, ap (λ v. v * offset) more, suc-mul d offset)) in
            (s', first ∙ e', r', at)
      ]
