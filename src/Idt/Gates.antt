-- ===== src/Idt/Gates.antt =====
-- Which routine each vector reaches.
use mathlib.Core.Path.{sym, subst}
use unos.Idt.{
  pic_init, are_interrupts_enabled, idt_flush, init_idt, gates, Idt, IdtEntry, idt_selector,
  zero_entry, gate_flags, idt_set_gate, set_gates,
}
use unos.Base.{
  true, ◌∙◌, ap, ℕ, zero, suc, ◌+◌, ◌-◌, ◌*◌, ◌/◌, ◌%◌, ◌^◌, ◌<◌, ◌≤◌, ◌≡◌, refl, arith, Option,
  none, some, List, [], ◌∷◌, ◌++◌, ◌==◌, ltb, leb, ◌&&◌, if◌then◌else◌,
}
use unos.Base.Masks.{bit_and-ones}

-- An entry as the processor reads it: an interrupt gate of 32 bits in the kernel's code segment,
-- present and open to ring 3, to the routine at `address`.
pub record IsGate (address : ℕ) (e : IdtEntry) : Type 0 where
  pub offset : e.base_low + 65536 * e.base_high ≡ address
  pub selector : e.segment_selector ≡ 8
  pub type :
      e.flags.gate_type + 8 * e.flags.d + 16 * e.flags.zero_bit + 32 * e.flags.dpl + 128 * e.flags.p
      ≡ 0xee

abbrev gate : ℕ → IdtEntry
gate base = record {
  base_low = base % 2 ^ 16;
  segment_selector = 8;
  reserved = 0;
  flags = gate_flags;
  base_high = base / 2 ^ 16 % 2 ^ 16;
}

abbrev numbered : (count n : ℕ) → (ℕ → ℕ) → List (ℕ × ℕ)
numbered zero n f = []
numbered (suc count) n f = (n, f n) ∷ numbered count (n + 1) f

set_gates-append :
    (xs ys : List (ℕ × ℕ)) (s : Idt) → set_gates (xs ++ ys) s ≡ set_gates ys (set_gates xs s)
unfolding set_gates
set_gates-append [] ys s = refl
set_gates-append (x ∷ xs) ys s =
    set_gates-append xs ys (idt_set_gate x.0 x.1 idt_selector gate_flags s)

idt_set_gate_lem :
    (n base i : ℕ) (s : Idt)
    → n < 256
    → (idt_set_gate n base idt_selector gate_flags s).idt_entries i
      ≡ (if i == n then gate base else s.idt_entries i)
unfolding idt_set_gate
idt_set_gate_lem n base i s h =
    let at : n % 2 ^ 8 ≡ n = omega arith in
    let low = bit_and-ones base 16 in
    let high = bit_and-ones (base / 2 ^ 16) 16 in rw (at, low, high) refl

set_gates-numbered :
    (count n i : ℕ) (f : ℕ → ℕ) (s : Idt)
    → n + count ≤ 256
    → (set_gates (numbered count n f) s).idt_entries i
      ≡ (if leb n i && ltb i (n + count) then gate (f i) else s.idt_entries i)
unfolding set_gates
set_gates-numbered zero n i f s h = ground arith
set_gates-numbered (suc count) n i f s h = ground (
  arith,
  set_gates-numbered count (n + 1) i f (idt_set_gate n (f n) idt_selector gate_flags s)
      (omega arith),
  idt_set_gate_lem n (f n) i s (omega arith),
)

-- the routine of a vector, if it has one
abbrev pub routine : (isr irq : ℕ → ℕ) → ℕ → Option ℕ
routine isr irq n =
    if ltb n 32
    then some (isr n)
    else if ltb n 48
    then some (irq (n - 32))
    else if n == 128
    then some (isr 128)
    else none

abbrev pub Reaches : Option ℕ → IdtEntry → Type 0
Reaches none e = e ≡ zero_entry
Reaches (some address) e = IsGate address e

-- what the calls leave at place `n`
abbrev entry_of : Option ℕ → IdtEntry
entry_of none = zero_entry
entry_of (some address) = gate address

gates-numbered :
    (isr irq : ℕ → ℕ)
    → gates isr irq
      ≡ numbered 32 0 isr ++ (numbered 16 32 (λ n. irq (n - 32)) ++ ((128, isr 128) ∷ []))
gates-numbered isr irq = refl

pick :
    (e : Option ℕ → IdtEntry) (isr irq : ℕ → ℕ) (n : ℕ)
    → (if n == 128
        then e (some (isr 128))
        else if leb 32 n && ltb n (32 + 16)
        then e (some (irq (n - 32)))
        else if leb 0 n && ltb n (0 + 32)
        then e (some (isr n))
        else e none)
      ≡ e (routine isr irq n)
pick e isr irq n = ground arith

abbrev pointer : Idt → ℕ × ℕ
pointer s = (s.limit, s.base)

set_gates-pointer : (gs : List (ℕ × ℕ)) (s : Idt) → pointer (set_gates gs s) ≡ pointer s
unfolding set_gates idt_set_gate
set_gates-pointer [] s = refl
set_gates-pointer (g ∷ gs) s = set_gates-pointer gs (idt_set_gate g.0 g.1 idt_selector gate_flags s)

gates_lem :
    (isr irq : ℕ → ℕ) (n : ℕ) (s : Idt)
    → s.idt_entries n ≡ zero_entry
    → (set_gates (gates isr irq) s).idt_entries n ≡ entry_of (routine isr irq n)
unfolding set_gates
gates_lem isr irq n s zeroed =
    let s1 = set_gates (numbered 32 0 isr) s in
    let s2 = set_gates (numbered 16 32 (λ m. irq (m - 32))) s1 in
    let rest : List (ℕ × ℕ) = (128, isr 128) ∷ [] in
    ap (λ gs. (set_gates gs s).idt_entries n) (gates-numbered isr irq)
    ∙ ap (λ t. t.idt_entries n)
        (set_gates-append (numbered 32 0 isr) (numbered 16 32 (λ m. irq (m - 32)) ++ rest) s)
    ∙ ap (λ t. t.idt_entries n) (set_gates-append (numbered 16 32 (λ m. irq (m - 32))) rest s1)
    ∙ idt_set_gate_lem 128 (isr 128) n s2 (omega arith)
    ∙ ap (λ e. if n == 128 then gate (isr 128) else e)
        (set_gates-numbered 16 32 n (λ m. irq (m - 32)) s1 (omega arith))
    ∙ ap
        (λ e.
          if n == 128
          then gate (isr 128)
          else if leb 32 n && ltb n (32 + 16)
          then gate (irq (n - 32))
          else e)
        (set_gates-numbered 32 0 n isr s (omega arith)
          ∙ ap (λ e. if leb 0 n && ltb n (0 + 32) then gate (isr n) else e) zeroed)
    ∙ pick entry_of isr irq n

reaches : (o : Option ℕ) → ((a : ℕ) → o ≡ some a → a < 2 ^ 32) → Reaches o (entry_of o)
reaches none small = refl
reaches (some a) small = record {
  offset = omega (arith, small a refl);
  selector = refl;
  type = refl;
}

-- `init_idt` ends with interrupts enabled and the table loaded. Each of the first 48 vectors and
-- vector 128 has an interrupt gate, which any ring may enter, to its own routine: the exceptions'
-- below 32, the hardware's from 32 on. Every other vector has no gate.
pub init_idt_lem :
    (isr irq : ℕ → ℕ) (table : ℕ) (s : Idt)
    → ((n a : ℕ) → routine isr irq n ≡ some a → a < 2 ^ 32)
    → (r : Idt) × (init_idt isr irq table s ≡ some r)
      × ((n : ℕ) → Reaches (routine isr irq n) (r.idt_entries n))
      × (r.loaded ≡ some (2047, table))
      × (r.interrupts ≡ true)
unfolding init_idt idt_flush are_interrupts_enabled
init_idt_lem isr irq table s small =
    let s2 : Idt = record s {
      limit = 2047;
      base = table;
      idt_entries = λ i. zero_entry;
      ports = pic_init 0x20 0x28 s.ports;
    } in
    let r : Idt = record (idt_flush (set_gates (gates isr irq) s2)) { interrupts = true } in
    (
      r,
      refl,
      (λ n.
          subst (Reaches (routine isr irq n)) (sym (gates_lem isr irq n s2 refl))
            (reaches (routine isr irq n) (small n))),
      ap some (set_gates-pointer (gates isr irq) s2),
      refl,
    )
