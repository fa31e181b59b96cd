-- ===== src/Process/Exit.antt =====
-- A process that exits.
use unos.Base.{
  ℕ, ◌+◌, ◌^◌, ◌<◌, ◌≡◌, ◌≢◌, refl, arith, true, false, some, List, [], ◌∷◌, ◌++◌, ◌==◌, length,
  get_or, ap, ◌∙◌, sym, length-append, if◌then◌else◌,
}
use mathlib.Core.Path.{subst}
use unos.Process.Ticks.{schedule-choose_next}
use unos.LinkedList.{LinkedList, list_peek_front, list_remove_node, Node}
use unos.LinkedList.Front.{Fresh, IsList, Segment}
use unos.LinkedList.Links.{AreDistinct-behind, Segment-at}
use unos.LinkedList.Remove.{list_remove_node_lem}
use unos.Process.{Scheduler, Pcb, set_state, task_zombie, drop_zombie, choose_next, exit_}
use unos.Process.Ring.{
  nowhere, AreAlive, IsRing, Segment-get_or, list_peek_front_lem, choose_next_lem,
}

Fresh-join : (a : ℕ) (xs ys : List (ℕ × ℕ)) → Fresh a xs → Fresh a ys → Fresh a (xs ++ ys)
Fresh-join a [] ys f g = g
Fresh-join a (x ∷ xs) ys (ne, f) g = (ne, Fresh-join a xs ys f g)

module _ (p : ℕ → Pcb) (x : ℕ × ℕ) where
  AreAlive-at :
      (xs ys : List (ℕ × ℕ))
      → AreAlive p (xs ++ (x ∷ ys))
      → (x.1 ≢ 0) × ((p x.1).self ≡ x.0) × AreAlive p (xs ++ ys)
  AreAlive-at [] ys (ne, node, live, rest) = (ne, node, rest)
  AreAlive-at (z ∷ xs) ys (ne, node, live, rest) =
      let (ne', node', rest') = AreAlive-at xs ys rest in (ne', node', (ne, node, live, rest'))

  AreAlive-set_state :
      (state : ℕ) (xs : List (ℕ × ℕ))
      → (p x.1).self ≡ x.0
      → Fresh x.0 xs
      → AreAlive p xs
      → AreAlive (set_state x.1 state p) xs
  AreAlive-set_state state [] self f a = a
  AreAlive-set_state state (z ∷ xs) self (apart, f) (ne, node, live, rest) =
      let other : z.1 ≢ x.1 = λ e. apart (sym self ∙ ap (λ q. (p q).self) (sym e) ∙ node) in
      let miss : (z.1 == x.1) ≡ false = ground (arith, other) in
      rw miss (ne, node, live, AreAlive-set_state state xs self f rest)

get_or-append : (xs ys : List (ℕ × ℕ)) → get_or (xs ++ ys) (length xs) nowhere ≡ get_or ys 0 nowhere
get_or-append [] ys = refl
get_or-append (x ∷ xs) ys = get_or-append xs ys

-- the process behind place `length xs` once that place is gone
abbrev pub place_after : (xs ys : List (ℕ × ℕ)) → ℕ
place_after xs [] = 0
place_after xs (y ∷ ys) = length xs

choice :
    (l : LinkedList) (xs : List (ℕ × ℕ)) (ys : List (ℕ × ℕ)) (nextnode : ℕ)
    → IsList l (xs ++ ys)
    → 0 < length (xs ++ ys)
    → (nextnode ≡ (get_or ys 0 nowhere).0)
    → (if nextnode == 0 then list_peek_front l else (l.nodes nextnode).val)
      ≡ (get_or (xs ++ ys) (place_after xs ys) nowhere).1
choice l [] [] nextnode is filled e = absurd (omega arith)
choice l (x ∷ xs) [] nextnode is filled e = rw e (list_peek_front_lem l x (xs ++ []) is)
choice l xs (y ∷ ys) nextnode is filled e =
    let here = get_or-append xs (y ∷ ys) in
    let (ne, value) =
      Segment-get_or l.nodes 0 l.head l.tail (xs ++ (y ∷ ys)) (length xs)
        (ground (arith, length-append {0} xs (y ∷ ys))) is.linked in
    let full : (nextnode == 0) ≡ false = ground (arith, ne, e, ap (λ (q : ℕ × ℕ). q.0) here) in
    rw full (ap (λ a. (l.nodes a).val) (e ∙ sym (ap (λ (q : ℕ × ℕ). q.0) here)) ∙ value)

next_first :
    (n : ℕ → Node) (before p last : ℕ) (ys : List (ℕ × ℕ))
    → Segment n before p last ys
    → p ≡ (get_or ys 0 nowhere).0
next_first n before p last [] seg = seg.0
next_first n before p last (y ∷ ys) seg = seg.0

drop_zombie-zombie :
    (s : Scheduler) (node : ℕ)
    → (s.processes s.current_process).state ≡ task_zombie
    → (s.processes s.current_process).self ≡ node
    → drop_zombie s
      ≡ record s { process_list = (list_remove_node node s.process_list).1; last_process = 0 }
unfolding drop_zombie
drop_zombie-zombie s node dead self =
    let asleep : ((s.processes s.current_process).state == task_zombie) ≡ true =
      ground (arith, dead) in
    rw (asleep, self) refl

first-place_after :
    (xs ys : List (ℕ × ℕ))
    → (get_or (xs ++ ys) (place_after xs ys) nowhere) ≡ (get_or (ys ++ xs) 0 nowhere)
first-place_after [] [] = refl
first-place_after (x ∷ xs) [] = refl
first-place_after xs (y ∷ ys) = get_or-append xs (y ∷ ys)

place_after-lt :
    (xs ys : List (ℕ × ℕ)) → 0 < length (xs ++ ys) → place_after xs ys < length (xs ++ ys)
place_after-lt xs [] h = h
place_after-lt xs (y ∷ ys) h = omega (arith, length-append {0} xs (y ∷ ys))

-- What an exit leaves: the process that goes on, and the registers of all of them untouched.
pub record Exited (s s' : Scheduler) (x : ℕ × ℕ) (xs ys : List (ℕ × ℕ)) : Type 0 where
  pub ring : IsRing s' (xs ++ ys)
  pub current : s'.current_process ≡ (get_or (ys ++ xs) 0 nowhere).1
  pub last : s'.last_process ≡ s'.current_process
  pub freed : s'.process_list.freed ≡ x.0 ∷ s.process_list.freed
  pub regs : (p : ℕ) → (s'.processes p).regs ≡ (s.processes p).regs
  pub entered : s'.entered ≡ (s.processes s'.current_process).regs

-- Of two processes or more the one that runs goes off the list when it exits, and its node is freed,
-- not its block. The process behind it is next, or the first one where it was last. The registers
-- that the system call saved are stored nowhere.
pub exit__lem :
    (jiffies : ℕ) (s : Scheduler) (xs : List (ℕ × ℕ)) (x : ℕ × ℕ) (ys : List (ℕ × ℕ))
    → IsRing s (xs ++ (x ∷ ys))
    → s.current_process ≡ x.1
    → length (xs ++ (x ∷ ys)) < 2 ^ 32
    → 1 < length (xs ++ (x ∷ ys))
    → (s' : Scheduler) × (exit_ jiffies s ≡ some s') × Exited s s' x xs ys
unfolding exit_
exit__lem jiffies s xs x ys r at few more =
    let (ne, self, rest) = AreAlive-at s.processes x xs ys r.alive in
    let (fresh_ys, fresh_xs) = AreDistinct-behind xs x ys r.list.distinct in
    let away = Fresh-join x.0 xs ys fresh_xs fresh_ys in
    let current = s.current_process in
    let s1 = record s { processes = set_state current task_zombie s.processes } in
    let out = list_remove_node_lem s.process_list xs x ys r.list few more in
    let s2 = record s1 {
      process_list = (list_remove_node x.0 s.process_list).1;
      last_process = 0;
    } in
    let (front, value, behind) =
      Segment-at s.process_list.nodes x ys s.process_list.tail 0 s.process_list.head xs
        r.list.linked in
    let next = (s.process_list.nodes x.0).next in
    let lengths : length (xs ++ (x ∷ ys)) ≡ length (xs ++ ys) + 1 =
      omega (arith, length-append {0} xs ys, length-append {0} xs (x ∷ ys)) in
    let dead : (s1.processes current).state ≡ task_zombie = ground arith in
    let self1 : (s1.processes current).self ≡ x.0 =
      ground (arith, ap (λ p. (s.processes p).self) at, self) in
    let alive : AreAlive s2.processes (xs ++ ys) =
      subst (λ p. AreAlive (set_state p task_zombie s.processes) (xs ++ ys)) (sym at)
        (AreAlive-set_state s.processes x task_zombie (xs ++ ys) self away rest) in
    let (s', e, w) =
      choose_next_lem next s2 (xs ++ ys) (place_after xs ys)
        (record { list = out.list; alive = alive }) (place_after-lt xs ys (omega arith))
        (choice s2.process_list xs ys next out.list (omega arith)
          (next_first s.process_list.nodes x.0 next s.process_list.tail ys behind)) in
    let kept = λ (p : ℕ). w.regs p ∙ same_regs current s.processes p in
    (
      s',
      schedule-choose_next jiffies s1 (omega (arith, r.list.counted)) (λ z. ne (sym at ∙ z))
          ∙ ap (λ n. choose_next (s.process_list.nodes n).next (drop_zombie s1)) self1
          ∙ ap (choose_next next) (drop_zombie-zombie s1 x.0 dead self1)
          ∙ e,
      record {
        ring = w.ring;
        current = w.current ∙ ap (λ (q : ℕ × ℕ). q.1) (first-place_after xs ys);
        last = w.last;
        freed = ap (λ (l : LinkedList). l.freed) w.same_list ∙ out.freed;
        regs = kept;
        entered = w.entered ∙ kept s'.current_process;
      },
    )
  where
    same_regs :
        (current : ℕ) (processes : ℕ → Pcb) (p : ℕ)
        → (set_state current task_zombie processes p).regs ≡ (processes p).regs
    same_regs current processes p = ground arith
