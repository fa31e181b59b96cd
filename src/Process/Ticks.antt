-- ===== src/Process/Ticks.antt =====
-- What one of the timer's ticks does: a switch if it is due, else no more than saving the registers.
use unos.Base.{
  ◌≢◌, ℕ, suc, ◌+◌, ◌%◌, ◌<◌, ◌≡◌, ◌⊎◌, inl, inr, refl, arith, false, true, some, List, [], ◌∷◌,
  ◌==◌, length, get_or, ap, ◌∙◌, sym, if◌then◌else◌,
}
use native.Mathlib.Decide.{ℕ_discrete}
use native.Mathlib.Nat.{mod-lt, mod-add-mod, mod-eq_of_lt, mod_self}
use unos.LinkedList.{list_size, list_peek_front}
use unos.LinkedList.Front.{IsList}
use unos.Process.{Scheduler, Registers, task_zombie, drop_zombie, choose_next, schedule, tick}
use unos.Process.Ring.{
  nowhere, IsRing, AreAlive-get_or, Segment-get_or, Segment-next, Segment-last, list_peek_front_lem,
  follow, Switched, choose_next_lem,
}

drop_zombie-awake :
    (s : Scheduler) → ((s.processes s.current_process).state ≢ task_zombie) → drop_zombie s ≡ s
unfolding drop_zombie
drop_zombie-awake s live =
    let awake : ((s.processes s.current_process).state == task_zombie) ≡ false =
      ground (arith, live) in
    rw awake refl

pub schedule-choose_next :
    (jiffies : ℕ) (s : Scheduler)
    → list_size s.process_list ≢ 0
    → s.current_process ≢ 0
    → schedule jiffies s
      ≡ choose_next (s.process_list.nodes (s.processes s.current_process).self).next (drop_zombie s)
unfolding schedule
schedule-choose_next jiffies s filled started =
    let full : (list_size s.process_list == 0) ≡ false = ground (arith, filled) in
    let runs : (s.current_process == 0) ≡ false = ground (arith, started) in rw (full, runs) refl

-- With no zombie in the list, `schedule` goes on to the process behind the one that runs, and from
-- the last one to the first one.
pub schedule_lem :
    (jiffies : ℕ) (s : Scheduler) (xs : List (ℕ × ℕ)) (i : ℕ)
    → IsRing s xs
    → i < length xs
    → s.current_process ≡ (get_or xs i nowhere).1
    → (s' : Scheduler) × (schedule jiffies s ≡ some s') × Switched s s' xs (follow (length xs) i)
schedule_lem jiffies s xs i r h at =
    let x : ℕ × ℕ = get_or xs i nowhere in
    let (ne, node, live) = AreAlive-get_or s.processes xs i h r.alive in
    let awake = drop_zombie-awake s (λ e. live (ap (λ p. (s.processes p).state) (sym at) ∙ e)) in
    let self : (s.processes s.current_process).self ≡ x.0 =
      ap (λ p. (s.processes p).self) at ∙ node in
    let (s', e, w) =
      choose_next_lem (s.process_list.nodes x.0).next s xs (follow (length xs) i) r
        (ground (arith, h)) (behind xs r.list h) in
    (
      s',
      schedule-choose_next jiffies s (omega (arith, r.list.counted)) (λ e. ne (sym at ∙ e))
          ∙ ap (λ n. choose_next (s.process_list.nodes n).next (drop_zombie s)) self
          ∙ ap (choose_next (s.process_list.nodes x.0).next) awake
          ∙ e,
      w,
    )
  where
    behind :
        (ys : List (ℕ × ℕ))
        → IsList s.process_list ys
        → i < length ys
        → let nextnode = (s.process_list.nodes (get_or ys i nowhere).0).next in
          (if nextnode == 0
            then list_peek_front s.process_list
            else (s.process_list.nodes nextnode).val)
          ≡ (get_or ys (follow (length ys) i) nowhere).1
    behind [] l lt = absurd (omega arith)
    behind (y ∷ ys) l lt = elim (ℕ_discrete (suc i) (length (y ∷ ys))) [
      | yes end ↦
          let over : (suc i == length (y ∷ ys)) ≡ true = ground (arith, end) in
          let last =
            Segment-last s.process_list.nodes 0 s.process_list.head s.process_list.tail (y ∷ ys) i
              end l.linked in
          rw (over, last) (list_peek_front_lem s.process_list y ys l)
      | no more ↦
          let on : (suc i == length (y ∷ ys)) ≡ false = ground (arith, more) in
          let next =
            Segment-next s.process_list.nodes 0 s.process_list.head s.process_list.tail (y ∷ ys) i
              (omega arith) l.linked in
          let (ne, value) =
            Segment-get_or s.process_list.nodes 0 s.process_list.head s.process_list.tail (y ∷ ys)
              (suc i) (omega arith) l.linked in
          let there : ((get_or (y ∷ ys) (suc i) nowhere).0 == 0) ≡ false = ground (arith, ne) in
          rw (on, next, there) value
    ]

-- Counting on by one comes to a multiple of `n`, or to one more behind the last multiple.
pub next_due :
    (n c j : ℕ)
    → 0 < n
    → c ≡ j + 1
    → ((c % n ≡ 0) × (j % n + 1 ≡ n)) ⊎ ((c % n ≡ j % n + 1) × (j % n + 1 < n))
next_due n c j pos e = elim (ℕ_discrete (j % n + 1) n) [
  | yes end ↦
      inl (ap (λ v. v % n) e ∙ sym (mod-add-mod j n 1) ∙ ap (λ v. v % n) end ∙ mod_self n, end)
  | no more ↦
      let less : j % n + 1 < n = omega (arith, mod-lt j pos) in
      inr (ap (λ v. v % n) e ∙ sym (mod-add-mod j n 1) ∙ mod-eq_of_lt less, less)
]

pub tick_due :
    (offset jiffies : ℕ) (regs : Registers) (s : Scheduler) (xs : List (ℕ × ℕ)) (i : ℕ)
    → 0 < offset
    → jiffies % offset ≡ 0
    → IsRing s xs
    → i < length xs
    → s.current_process ≡ (get_or xs i nowhere).1
    → (s' : Scheduler) × (tick offset jiffies regs s ≡ some s')
      × Switched (record s { saved_context = regs }) s' xs (follow (length xs) i)
unfolding tick
tick_due offset jiffies regs s xs i pos due r h at =
    let positive : (offset == 0) ≡ false = ground arith in
    let now : (jiffies % offset == 0) ≡ true = ground (arith, due) in
    rw (positive, now)
      (schedule_lem jiffies (record s { saved_context = regs }) xs i
        (record { list = r.list; alive = r.alive }) h at)

pub tick_between :
    (offset jiffies : ℕ) (regs : Registers) (s : Scheduler)
    → 0 < offset
    → 0 < jiffies % offset
    → tick offset jiffies regs s ≡ some (record s { saved_context = regs })
unfolding tick
tick_between offset jiffies regs s pos rest =
    let positive : (offset == 0) ≡ false = ground arith in
    let later : (jiffies % offset == 0) ≡ false = ground (arith, rest) in rw (positive, later) refl
