-- ===== src/Process/Tests.antt =====
-- Two processes at 0x4000 and 0x5000, the first of which runs.
use unos.Base.{ℕ, ◌≡◌, refl, arith, some, List, [], ◌∷◌, ◌==◌, if◌then◌else◌, ◌||◌}
use unos.Vmm.{Vmm}
use unos.Malloc.{Mm}
use unos.Malloc.Owners.{Owned}
use unos.LinkedList.{LinkedList}
use unos.LinkedList.Front.{IsList}
use unos.Process.{Context, Registers, Pcb, Scheduler, saved_regs, exit_, ticks}
use unos.Process.Ring.{IsRing}
use unos.Process.Rounds.{Chosen, every_process_runs}
use unos.Process.Switch.{IsRunning, ticks-resume}
use unos.Process.Exit.{Exited, exit__lem}

abbrev list : LinkedList
list = record {
  nodes = λ j.
      if j == 0x100
      then record { prev = 0; next = 0x200; val = 0x4000 }
      else if j == 0x200
      then record { prev = 0x100; next = 0; val = 0x5000 }
      else record { prev = 0; next = 0; val = 0 };
  head = 0x100;
  tail = 0x200;
  size = 2;
  freed = [];
}

abbrev blocks : List (ℕ × ℕ)
blocks = (0x100, 0x4000) ∷ (0x200, 0x5000) ∷ []

abbrev start : ℕ → Context
start routine = record {
  eax = 0;
  ecx = 0;
  edx = 0;
  ebx = 0;
  esp = 0xC0400000;
  ebp = 0;
  esi = 0;
  edi = 0;
  eflags = 0x206;
  cr3 = 0x3000;
  eip = routine;
}

abbrev regs : Registers
regs = record {
  edi = 1;
  esi = 2;
  ebp = 3;
  esp = 4;
  ebx = 5;
  edx = 6;
  ecx = 7;
  eax = 8;
  eip = 0x123;
  eflags = 0x206;
  useresp = 0xC03FFF00;
}

abbrev pcb_at : ℕ → Pcb
pcb_at j =
    if j == 0x4000
    then record {
      regs = start 0x1234;
      pid = 0;
      self = 0x100;
      stack = 0;
      state = 64;
      time_slice = 0;
      page_dir = 0x3000;
    }
    else record {
      regs = start 0x5678;
      pid = 1;
      self = 0x200;
      stack = 0;
      state = 64;
      time_slice = 0;
      page_dir = 0x3000;
    }

abbrev space : Vmm
space = record {
  memory = λ j. if j == 0x900 then 97 else 0;
  pmm = record { memory_size = 0; used_blocks = 0; max_blocks = 0; memory_map = λ i. 0 };
  cur_dir = 0x3000;
  cr3 = 0x3000;
  cr0 = 0;
}

abbrev system : Scheduler
system = record {
  processes = pcb_at;
  process_list = list;
  current_process = 0x4000;
  last_process = 0x4000;
  prev_jiffies = 0;
  curr_pid = 2;
  saved_context = regs;
  vmm = space;
  ports = record { writes = [] };
  entered = start 0x1234;
}

list-IsList : IsList list blocks
list-IsList = record {
  linked = (refl, omega arith, refl, refl, (refl, omega arith, refl, refl, (refl, refl)));
  distinct = ((omega arith, tt), (tt, tt));
  counted = refl;
}

system-IsRing : IsRing system blocks
system-IsRing = record {
  list = list-IsList;
  alive = (omega arith, refl, omega arith, (omega arith, refl, omega arith, tt));
}

-- with a switch every second tick
abbrev four : List Registers
four = regs ∷ regs ∷ regs ∷ regs ∷ []

every_process_runs_example : Chosen 2 10 four system blocks 1
every_process_runs_example =
    every_process_runs 2 (omega arith) four 10 system blocks 0 1 system-IsRing (omega arith) refl
      (omega arith) refl (omega arith)

ticks-resume_example :
    (s' : Scheduler) × (ticks 2 9 (regs ∷ regs ∷ regs ∷ []) system ≡ some s')
    × IsRunning s' blocks 0
    × (s'.entered ≡ saved_regs regs 0x3000)
ticks-resume_example =
    ticks-resume 2 (omega arith) 9 1 regs (regs ∷ regs ∷ []) system blocks 0
      (record { ring = system-IsRing; current = refl; last = refl }) (omega arith) (omega arith)
      (omega arith) refl refl

exit__lem_example :
    (s' : Scheduler) × (exit_ 5 system ≡ some s')
    × Exited system s' (0x100, 0x4000) [] ((0x200, 0x5000) ∷ [])
exit__lem_example =
    exit__lem 5 system [] (0x100, 0x4000) ((0x200, 0x5000) ∷ []) system-IsRing refl (omega arith)
      (omega arith)

-- A heap with the node and the block of one process.
abbrev heap : Mm
heap = record {
  memory = λ j.
      if (j == 4096) || (j == 4120)
      then 1
      else if j == 4100
      then 12
      else if j == 4124
      then 68
      else if j == 4125
      then 2
      else if j == 0x900
      then 97
      else 0;
  last_alloc = 4712;
  heap_end = 8192;
  heap_begin = 4096;
  pheap_begin = 8192;
  pheap_end = 139264;
  pheap_desc = 0;
  memory_used = 608;
}

abbrev owned : List Owned
owned = (4128, 580) ∷ (4104, 12) ∷ []

abbrev one_process : Scheduler
one_process = record system {
  processes = λ p. record (pcb_at p) { self = 4104 };
  process_list = record {
    nodes = λ j. record { prev = 0; next = 0; val = 4128 };
    head = 4104;
    tail = 4104;
    size = 1;
    freed = [];
  };
  current_process = 4128;
  last_process = 4128;
}

abbrev one_block : List (ℕ × ℕ)
one_block = (4104, 4128) ∷ []
