-- ===== src/Process.antt =====
-- kernel/scheduler/process.c and kernel/syscall/_exit.c: the processes and the scheduler.
--
-- A control block is its address; its fields but the name are a record at that address, and the
-- name's bytes stand in the memory at the address itself, where the block begins: a name of 512 bytes
-- or more, which reaches the other fields, is outside the model. A creation takes the block and the
-- list's node from the heap of Malloc. `user_regs_switch` is in assembly and does not come back: the
-- state holds the registers that it was given last. `PANIC` stops the machine, and so does a copy that
-- runs out of fuel, or an offset of 0: the result is `none`. Messages are left out.
pub mod Ring
pub mod Ticks
pub mod Rounds
pub mod Exit
pub mod Create
pub mod Switch
mod Tests
use unos.Base.{
  ℕ, ◌+◌, ◌%◌, ◌^◌, Option, none, some, List, [], ◌∷◌, u32, ◌==◌, if◌then◌else◌, update,
}
use unos.LinkedList.{
  Node, LinkedList, sizeof_listnode, list_create, list_size, list_peek_front, list_remove_node,
  list_insert_front,
}
use unos.Memory.{Memory}
use unos.Malloc.{Mm, Outcome, returned, panic, out_of_fuel, kcalloc}
use unos.Strings.Text.{strcpy}
use unos.Vmm.{Vmm, virt2phys}
use unos.Ports.{Ports}
use unos.Pic.{ack_irq}

abbrev pub task_running : ℕ
task_running = 0

abbrev pub task_zombie : ℕ
task_zombie = 4

abbrev pub task_created : ℕ
task_created = 64

-- `sizeof(pcb_t)`
abbrev pub sizeof_pcb : ℕ
sizeof_pcb = 580

-- `context_t`
pub record Context : Type 0 where
  pub eax : ℕ
  pub ecx : ℕ
  pub edx : ℕ
  pub ebx : ℕ
  pub esp : ℕ
  pub ebp : ℕ
  pub esi : ℕ
  pub edi : ℕ
  pub eflags : ℕ
  pub cr3 : ℕ
  pub eip : ℕ

-- the fields of `register_t` but those that no code here reads
pub record Registers : Type 0 where
  pub edi : ℕ
  pub esi : ℕ
  pub ebp : ℕ
  pub esp : ℕ
  pub ebx : ℕ
  pub edx : ℕ
  pub ecx : ℕ
  pub eax : ℕ
  pub eip : ℕ
  pub eflags : ℕ
  pub useresp : ℕ

pub record Pcb : Type 0 where
  pub regs : Context
  pub pid : ℕ
  pub self : ℕ
  pub stack : ℕ
  pub state : ℕ
  pub time_slice : ℕ
  pub page_dir : ℕ

pub record Scheduler : Type 0 where
  pub processes : ℕ → Pcb
  pub process_list : LinkedList
  pub current_process : ℕ
  pub last_process : ℕ
  pub prev_jiffies : ℕ
  pub curr_pid : ℕ
  pub saved_context : Registers
  pub vmm : Vmm
  pub ports : Ports
  pub entered : Context

abbrev pub allocate_pid : Scheduler → ℕ × Scheduler
allocate_pid s = (s.curr_pid, record s { curr_pid = u32 (s.curr_pid + 1) })

-- what `context_switch` stores of the registers and of `cr3`
abbrev pub saved_regs : Registers → (cr3 : ℕ) → Context
saved_regs p cr3 = record {
  eax = p.eax;
  ecx = p.ecx;
  edx = p.edx;
  ebx = p.ebx;
  esp = p.useresp;
  ebp = p.ebp;
  esi = p.esi;
  edi = p.edi;
  eflags = p.eflags;
  cr3 = cr3;
  eip = p.eip;
}

abbrev pub set_regs : (p : ℕ) → Context → (ℕ → Pcb) → ℕ → Pcb
set_regs p c processes = update processes p (record (processes p) { regs = c })

abbrev pub set_state : (p state : ℕ) → (ℕ → Pcb) → ℕ → Pcb
set_state p state processes = update processes p (record (processes p) { state = state })

-- The new registers are read behind the pointer `&next->regs`, after the old ones are stored.
pub context_switch : Registers → (next : ℕ) → Scheduler → Scheduler
unfolding ack_irq
context_switch p_regs next s =
    let saved =
      if s.last_process == 0
      then s.processes
      else set_regs s.last_process (saved_regs p_regs s.vmm.cr3) s.processes in
    record s {
      processes = saved;
      ports = ack_irq 0 s.ports;
      last_process = s.current_process;
      entered = (saved next).regs;
    }

-- the part of `schedule` that takes a zombie off the list
pub drop_zombie : Scheduler → Scheduler
drop_zombie s =
    let current = s.processes s.current_process in
    if current.state == task_zombie
    then record s {
      process_list = (list_remove_node current.self s.process_list).1;
      last_process = 0;
    }
    else s

-- the end of `schedule`, with the node behind the one of the process that ran
pub choose_next : (nextnode : ℕ) → Scheduler → Option Scheduler
unfolding context_switch
choose_next nextnode s =
    let next =
      if nextnode == 0
      then list_peek_front s.process_list
      else (s.process_list.nodes nextnode).val in
    if next == 0
    then none
    else some (context_switch s.saved_context next (record s { current_process = next }))

pub schedule : (jiffies : ℕ) → Scheduler → Option Scheduler
unfolding drop_zombie choose_next
schedule jiffies s =
    let first = list_peek_front s.process_list in
    let nextnode = (s.process_list.nodes (s.processes s.current_process).self).next in
    if list_size s.process_list == 0
    then some s
    else if s.current_process == 0
    then some (
        context_switch s.saved_context first
          (record s { prev_jiffies = jiffies; current_process = first; last_process = 0 }))
    else choose_next nextnode (drop_zombie s)

-- The fields of the block at `p1`, in the memory with the name, and the new node of the list at
-- `node`; `memory'` is the memory after the allocation of the node.
pub enlist : (p1 node routine : ℕ) (memory memory' : Memory) → Scheduler → Scheduler
enlist p1 node routine memory memory' s =
    let (pid, s1) = allocate_pid s in
    let regs : Context = record {
      eax = 0;
      ecx = 0;
      edx = 0;
      ebx = 0;
      esp = 0xC0400000;
      ebp = 0;
      esi = 0;
      edi = 0;
      eflags = 0x206;
      cr3 = virt2phys s.vmm.cur_dir s.vmm.cur_dir (record s.vmm { memory = memory });
      eip = routine;
    } in
    let (self, list) = list_insert_front node p1 s.process_list in
    let pcb : Pcb = record {
      regs = regs;
      pid = pid;
      self = self;
      stack = 0;
      state = task_created;
      time_slice = 0;
      page_dir = s.vmm.cur_dir;
    } in
    record s1 {
      processes = update s.processes p1 pcb;
      process_list = list;
      current_process = if s.current_process == 0 then p1 else s.current_process;
      vmm = record s.vmm { memory = memory' };
    }

-- a call of `kcalloc`, and what follows it
pub after_kcalloc : {A : Type 0} → Outcome → (ℕ → Mm → Option A) → Option A
after_kcalloc (returned p mm) next = next p mm
after_kcalloc panic next = none
after_kcalloc out_of_fuel next = none

-- the block of `kcalloc`, and then the copied name
pub with_name : (p1 routine : ℕ) → Mm → Option (ℕ × Memory) → Scheduler → Option (Mm × Scheduler)
unfolding enlist after_kcalloc
with_name p1 routine mm none s = none
with_name p1 routine mm (some (length, memory)) s =
    after_kcalloc (kcalloc sizeof_listnode 1 (record mm { memory = memory }))
      (λ node mm'. some (mm', enlist p1 node routine memory mm'.memory s))

-- The heap comes with the memory, before and after; that of the state's paging is set to it.
pub create_process_from_routine : (fuel routine name : ℕ) → Mm → Scheduler → Option (Mm × Scheduler)
unfolding with_name after_kcalloc
create_process_from_routine fuel routine name mm s =
    after_kcalloc (kcalloc sizeof_pcb 1 mm)
      (λ p1 mm'. with_name p1 routine mm' (strcpy fuel p1 name 0 mm'.memory) s)

-- the first statement of `process_init`; `nodes` is the memory that the list's nodes will take
abbrev pub process_init : (nodes : ℕ → Node) → Scheduler → Scheduler
process_init nodes s = record s { process_list = list_create nodes }

-- `_exit`, with what `schedule` goes on to
pub exit_ : (jiffies : ℕ) → Scheduler → Option Scheduler
unfolding schedule
exit_ jiffies s =
    schedule jiffies (record s { processes = set_state s.current_process task_zombie s.processes })

-- The timer's interrupt at the count `jiffies`: it saves the registers, and its callback `schedule`
-- runs if the count is a multiple of the `offset` with which it was registered. That is the product
-- of 30.0 / frequency_g and frequency_g in the source's `double`, as a `uint32_t`. The callback that
-- the kernel registers before it stands behind it at the list's end, where the handler does not come.
pub tick : (offset jiffies : ℕ) → Registers → Scheduler → Option Scheduler
unfolding schedule
tick offset jiffies regs s =
    let saved = record s { saved_context = regs } in
    if offset == 0
    then none
    else if jiffies % offset == 0
    then schedule jiffies saved
    else some saved

pub then_ticks : Option Scheduler → (Scheduler → Option Scheduler) → Option Scheduler
then_ticks none rest = none
then_ticks (some s) rest = rest s

-- Several ticks, each with the registers that it saves, until the machine stops: each counts first,
-- from `jiffies` on.
pub ticks : (offset jiffies : ℕ) → List Registers → Scheduler → Option Scheduler
unfolding then_ticks
ticks offset jiffies [] s = some s
ticks offset jiffies (regs ∷ rest) s =
    then_ticks (tick offset (u32 (jiffies + 1)) regs s) (ticks offset (u32 (jiffies + 1)) rest)
