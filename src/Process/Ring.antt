-- ===== src/Process/Ring.antt =====
-- The order in which the scheduler chooses the processes of its list.
use unos.Base.{
  ℕ, zero, suc, ◌<◌, ◌≡◌, ◌≢◌, refl, arith, false, some, List, [], ◌∷◌, ◌==◌, if◌then◌else◌, length,
  get_or, ◌∙◌, sym,
}
use unos.LinkedList.{Node, LinkedList, list_peek_front}
use unos.LinkedList.Front.{IsList, Segment}
use unos.Process.{Scheduler, Pcb, Registers, task_zombie, saved_regs, context_switch, choose_next}

abbrev pub nowhere : ℕ × ℕ
nowhere = (0, 0)

-- Each block of the list knows its node, and is no zombie.
abbrev pub AreAlive : (ℕ → Pcb) → List (ℕ × ℕ) → Type 0
AreAlive processes [] = Unit
AreAlive processes (x ∷ xs) =
    (x.1 ≢ 0)
    × ((processes x.1).self ≡ x.0)
    × ((processes x.1).state ≢ task_zombie)
    × AreAlive processes xs

pub record IsRing (s : Scheduler) (xs : List (ℕ × ℕ)) : Type 0 where
  pub list : IsList s.process_list xs
  pub alive : AreAlive s.processes xs

pub AreAlive-ext :
    (p q : ℕ → Pcb) (xs : List (ℕ × ℕ))
    → ((j : ℕ) → (q j).self ≡ (p j).self)
    → ((j : ℕ) → (q j).state ≡ (p j).state)
    → AreAlive p xs
    → AreAlive q xs
AreAlive-ext p q [] same same' a = a
AreAlive-ext p q (x ∷ xs) same same' (ne, node, live, rest) =
    (ne, same x.1 ∙ node, λ e. live (sym (same' x.1) ∙ e), AreAlive-ext p q xs same same' rest)

pub AreAlive-get_or :
    (p : ℕ → Pcb) (xs : List (ℕ × ℕ)) (i : ℕ)
    → i < length xs
    → AreAlive p xs
    → let x = get_or xs i nowhere in
      (x.1 ≢ 0) × ((p x.1).self ≡ x.0) × ((p x.1).state ≢ task_zombie)
AreAlive-get_or p [] i h a = absurd (omega arith)
AreAlive-get_or p (x ∷ xs) zero h (ne, node, live, rest) = (ne, node, live)
AreAlive-get_or p (x ∷ xs) (suc i) h (ne, node, live, rest) =
    AreAlive-get_or p xs i (omega arith) rest

pub Segment-get_or :
    (n : ℕ → Node) (before p last : ℕ) (xs : List (ℕ × ℕ)) (i : ℕ)
    → i < length xs
    → Segment n before p last xs
    → let x = get_or xs i nowhere in (x.0 ≢ 0) × ((n x.0).val ≡ x.1)
Segment-get_or n before p last [] i h seg = absurd (omega arith)
Segment-get_or n before p last (x ∷ xs) zero h (at, ne, back, value, rest) = (ne, value)
Segment-get_or n before p last (x ∷ xs) (suc i) h (at, ne, back, value, rest) =
    Segment-get_or n x.0 (n x.0).next last xs i (omega arith) rest

pub Segment-next :
    (n : ℕ → Node) (before p last : ℕ) (xs : List (ℕ × ℕ)) (i : ℕ)
    → suc i < length xs
    → Segment n before p last xs
    → (n (get_or xs i nowhere).0).next ≡ (get_or xs (suc i) nowhere).0
Segment-next n before p last [] i h seg = absurd (omega arith)
Segment-next n before p last (x ∷ []) i h seg = absurd (omega arith)
Segment-next n before p last (x ∷ y ∷ xs) zero h (at, ne, back, value, rest) = rest.0
Segment-next n before p last (x ∷ y ∷ xs) (suc i) h (at, ne, back, value, rest) =
    Segment-next n x.0 (n x.0).next last (y ∷ xs) i (omega arith) rest

pub Segment-last :
    (n : ℕ → Node) (before p last : ℕ) (xs : List (ℕ × ℕ)) (i : ℕ)
    → suc i ≡ length xs
    → Segment n before p last xs
    → (n (get_or xs i nowhere).0).next ≡ 0
Segment-last n before p last [] i h seg = absurd (omega arith)
Segment-last n before p last (x ∷ []) zero h (at, ne, back, value, (next, rest)) = next
Segment-last n before p last (x ∷ []) (suc i) h seg = absurd (omega arith)
Segment-last n before p last (x ∷ y ∷ xs) zero h seg = absurd (omega arith)
Segment-last n before p last (x ∷ y ∷ xs) (suc i) h (at, ne, back, value, rest) =
    Segment-last n x.0 (n x.0).next last (y ∷ xs) i (omega arith) rest

pub list_peek_front_lem :
    (l : LinkedList) (x : ℕ × ℕ) (xs : List (ℕ × ℕ)) → IsList l (x ∷ xs) → list_peek_front l ≡ x.1
list_peek_front_lem l x xs is =
    let (at, ne, back, value, rest) = is.linked in
    let full : (x.0 == 0) ≡ false = ground arith in rw (at, full) value

-- the place behind place `i` of `n`, the first one behind the last one
abbrev pub follow : (n i : ℕ) → ℕ
follow n i = if suc i == n then 0 else suc i

-- What one switch leaves.
pub record Switched (s s' : Scheduler) (xs : List (ℕ × ℕ)) (i : ℕ) : Type 0 where
  pub ring : IsRing s' xs
  pub current : s'.current_process ≡ (get_or xs i nowhere).1
  pub last : s'.last_process ≡ s'.current_process
  pub same_list : s'.process_list ≡ s.process_list
  pub entered : s'.entered ≡ (s'.processes s'.current_process).regs
  pub regs :
      (p : ℕ)
      → (s'.processes p).regs ≡ (
          if s.last_process == 0
          then (s.processes p).regs
          else if p == s.last_process
          then saved_regs s.saved_context s.vmm.cr3
          else (s.processes p).regs)

context_switch-IsRing :
    (p : Registers) (next : ℕ) (s : Scheduler) (xs : List (ℕ × ℕ))
    → IsRing s xs
    → IsRing (context_switch p next s) xs
unfolding context_switch
context_switch-IsRing p next s xs r = record {
  list = r.list;
  alive =
      AreAlive-ext s.processes (context_switch p next s).processes xs (λ j. ground arith)
        (λ j. ground arith) r.alive;
}

pub choose_next_lem :
    (nextnode : ℕ) (s : Scheduler) (xs : List (ℕ × ℕ)) (i : ℕ)
    → IsRing s xs
    → i < length xs
    → (if nextnode == 0
        then list_peek_front s.process_list
        else (s.process_list.nodes nextnode).val)
      ≡ (get_or xs i nowhere).1
    → (s' : Scheduler) × (choose_next nextnode s ≡ some s') × Switched s s' xs i
unfolding choose_next
choose_next_lem nextnode s xs i r h e =
    let next : ℕ = (get_or xs i nowhere).1 in
    let (ne, node, live) = AreAlive-get_or s.processes xs i h r.alive in
    let some_process : (next == 0) ≡ false = ground (arith, ne) in
    let s1 = record s { current_process = next } in
    rw (e, some_process)
      (
        context_switch s.saved_context next s1,
        refl,
        record {
          ring =
              context_switch-IsRing s.saved_context next s1 xs
                (record { list = r.list; alive = r.alive });
          current = unfold context_switch in refl;
          last = unfold context_switch in refl;
          same_list = unfold context_switch in refl;
          entered = unfold context_switch in refl;
          regs = λ p. unfold context_switch in ground arith;
        },
      )
