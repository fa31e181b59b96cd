-- ===== src/Process/Create.antt =====
-- A process that is created.
use unos.Base.{
  ◌-◌, ℕ, ◌+◌, ◌^◌, ◌<◌, ◌≤◌, ◌≡◌, ◌≢◌, ◌⊎◌, inl, inr, ◌∙◌, ap, sym, arith, Option, some, List, [],
  ◌∷◌, ◌==◌, length, if◌then◌else◌, u32,
}
use unos.Base.Take.{Take}
use unos.Memory.{Memory}
use unos.Strings.Text.{strcpy}
use unos.Strings.Text.Strings.{IsText, IsText-ext, Copied, strcpy_lem}
use unos.Malloc.{Mm}
use unos.Malloc.Owners.{Owned, IsUsed}
use unos.Malloc.Served.{Allocated-clear, IsKept}
use unos.Malloc.Cleared.{Cleared, kcalloc-Cleared}
use unos.Malloc.Writes.{IsUsed-owner}
use unos.LinkedList.{sizeof_listnode}
use unos.Process.{Scheduler, sizeof_pcb, enlist}
use unos.Vmm.{virt2phys}
use unos.Process.Ring.{IsRing}

-- The block is none of the list's.
abbrev pub IsNew : ℕ → List (ℕ × ℕ) → Type 0
IsNew p [] = Unit
IsNew p (x ∷ xs) = (x.1 ≢ p) × IsNew p xs

-- The blocks and the nodes of the list are owned.
abbrev pub AreOwned : List Owned → List (ℕ × ℕ) → Type 0
AreOwned os [] = Unit
AreOwned os (x ∷ xs) =
    ((rest : List Owned) × Take (x.1, sizeof_pcb) os rest)
    × ((rest : List Owned) × Take (x.0, sizeof_listnode) os rest)
    × AreOwned os xs

-- What a creation leaves, of the heap and of the processes.
pub record Created (mm : Mm) (os : List Owned) (s : Scheduler) (routine : ℕ) (name : List ℕ)
    (xs : List (ℕ × ℕ)) (r : Option (Mm × Scheduler)) : Type 0 where
  pub mm' : Mm
  pub s' : Scheduler
  pub result : r ≡ some (mm', s')
  pub p1 : ℕ
  pub node : ℕ
  pub used : IsUsed mm' ((node, sizeof_listnode) ∷ (p1, sizeof_pcb) ∷ os)
  pub kept : (a n i : ℕ) → IsKept mm os a n → i < n → mm'.memory (a + i) ≡ mm.memory (a + i)
  pub outside :
      (j : ℕ)
      → (j + 8 < p1) ⊎ (p1 + sizeof_pcb ≤ j)
      → (j + 8 < node) ⊎ (node + sizeof_listnode ≤ j)
      → mm'.memory j ≡ mm.memory j
  pub ring : IsRing s' ((node, p1) ∷ xs)
  pub current : s'.current_process ≡ (if s.current_process == 0 then p1 else s.current_process)
  pub pid : (s'.processes p1).pid ≡ s.curr_pid
  pub next_pid : s'.curr_pid ≡ u32 (s.curr_pid + 1)
  pub eip : (s'.processes p1).regs.eip ≡ routine
  pub eflags : (s'.processes p1).regs.eflags ≡ 0x206
  pub esp : (s'.processes p1).regs.esp ≡ 0xc0400000
  pub page_dir : (s'.processes p1).page_dir ≡ s.vmm.cur_dir
  pub filename : IsText mm'.memory p1 name
  pub named : Memory
  pub named_same : (j : ℕ) → (j + 8 < p1) ⊎ (p1 + sizeof_pcb ≤ j) → named j ≡ mm.memory j
  pub cr3 :
      (s'.processes p1).regs.cr3
      ≡ virt2phys s.vmm.cur_dir s.vmm.cur_dir (record s.vmm { memory = named })
  pub same_memory : s'.vmm.memory ≡ mm'.memory
  pub others : (p : ℕ) → p ≢ p1 → s'.processes p ≡ s.processes p

-- a text that was kept, in a memory that keeps it
IsText-kept :
    (m n : Memory) (a : ℕ) (cs : List ℕ)
    → ((i : ℕ) → i < length cs + 1 → n (a + i) ≡ m (a + i))
    → IsText m a cs
    → IsText n a cs
IsText-kept m n a cs same t =
    IsText-ext m n a cs
      (λ j lo hi.
        let at : a + (j - a) ≡ j = omega arith in
        ap n (sym at) ∙ same (j - a) (omega arith) ∙ ap m at)
      t

module _ (fuel routine name : ℕ) (mm : Mm) (os : List Owned) (s : Scheduler) (xs : List (ℕ × ℕ))
    (cs : List ℕ) (u : IsUsed mm os) (r : IsRing s xs) (own : AreOwned os xs)
    (room : mm.last_alloc + 612 < mm.heap_end) (text : IsText mm.memory name cs)
    (kept_text : IsKept mm os name (length cs + 1)) (short : length cs < 512)
    (enough : length cs < fuel) (few : length xs + 1 < 2 ^ 32) where
  pcb_room : mm.last_alloc + sizeof_pcb + 8 < mm.heap_end
  pcb_room = omega arith

  pcb : Cleared mm os sizeof_pcb
  pcb = kcalloc-Cleared mm os sizeof_pcb u (omega arith) pcb_room

  copied :
      (m : Memory) × (strcpy fuel pcb.block.p name 0 pcb.after.memory ≡ some (0 + length cs, m))
      × Copied pcb.after.memory m pcb.block.p cs
  copied =
      strcpy_lem fuel pcb.block.p name 0 pcb.after.memory cs
        (IsText-kept mm.memory pcb.after.memory name cs
          (λ i h. pcb.same name (length cs + 1) i kept_text h) text)
        order enough
    where
      order : (pcb.block.p ≤ name) ⊎ (name + length cs < pcb.block.p)
      order =
          elim (Allocated-clear mm os sizeof_pcb u (omega arith) pcb_room pcb.block name
            (length cs + 1) kept_text) [ inl lo ↦ inr (omega arith) | inr hi ↦ inl (omega arith) ]

  -- the heap with the name in the block
  abbrev named : Mm
  named = record pcb.after { memory = copied.0 }

  named_used : IsUsed named ((pcb.block.p, sizeof_pcb) ∷ os)
  named_used =
      IsUsed-owner pcb.after copied.0 pcb.block.p sizeof_pcb os
        (λ j apart. copied.2.same j (beyond j apart)) pcb.used
    where
      beyond :
          (j : ℕ)
          → (j < pcb.block.p) ⊎ (pcb.block.p + sizeof_pcb ≤ j)
          → (j < pcb.block.p) ⊎ (pcb.block.p + length cs < j)
      beyond j (inl lo) = inl lo
      beyond j (inr hi) = inr (omega arith)

  node_room : named.last_alloc + sizeof_listnode + 8 < named.heap_end
  node_room = omega (arith, pcb.top, pcb.end, room)

  node : Cleared named ((pcb.block.p, sizeof_pcb) ∷ os) sizeof_listnode
  node =
      kcalloc-Cleared named ((pcb.block.p, sizeof_pcb) ∷ os) sizeof_listnode named_used
        (omega arith) node_room

  abbrev created : Scheduler
  created = enlist pcb.block.p node.block.p routine copied.0 node.after.memory s
