-- ===== src/Syscall.antt =====
-- kernel/syscall/syscall.c: the call of a kernel function by its number.
--
-- `S` is the state on which the functions act and `call` what each of them does, with the words on the
-- stack, the uppermost first, as its arguments. A function that returns leaves the stack and `ebx` as
-- they were; `schedule` and `_exit` end in `user_regs_switch` and do not return. The registers that the
-- entry code saved are a record.
pub mod Calls
mod Tests
use unos.Process.{Registers}
use unos.Base.{ℕ, ◌+◌, List, [], ◌∷◌, Option, none, some, leb, ◌==◌, if◌then◌else◌}

pub data Api : Type 0 where
  schedule_api : Api
  printf_api : Api
  create_process_api : Api
  exit_api : Api

abbrev pub num_syscalls : ℕ
num_syscalls = 5

-- a null pointer in the table is `none`
pub syscall_table : ℕ → Option Api
syscall_table n =
    if n == 1
    then some schedule_api
    else if n == 2
    then some printf_api
    else if n == 3
    then some create_process_api
    else if n == 4
    then some exit_api
    else none

-- what becomes of a call: a result, or another process's registers are loaded and it never returns
pub data Reply (S : Type 0) : Type 0 where
  returns : ℕ → S → Reply S
  leaves : S → Reply S

-- the dispatcher's own machine: its stack and the register that it pops into
pub record Machine (S : Type 0) : Type 0 where
  pub stack : List ℕ
  pub ebx : ℕ
  pub saved_context : Registers
  pub rest : S

pub data Dispatched (S : Type 0) : Type 0 where
  -- the dispatcher is back, with the registers for the caller
  back : Registers → Machine S → Dispatched S
  -- the function called does not return: the arguments stay on the stack
  away : Machine S → Dispatched S
  -- a call of the address 0
  jump_to_null : Machine S → Dispatched S

module _ {S : Type 0} (call : Api → List ℕ → S → Reply S) where
  pub push : ℕ → Machine S → Machine S
  push v m = record m { stack = v ∷ m.stack }

  pub pop_from : List ℕ → Machine S → Machine S
  pop_from [] m = m
  pop_from (v ∷ stack) m = record m { stack = stack; ebx = v }

  pub pop_ebx : Machine S → Machine S
  unfolding pop_from
  pop_ebx m = pop_from m.stack m

  -- what follows the call in the source, if anything does
  pub after_call : Reply S → Registers → Machine S → Dispatched S
  unfolding pop_ebx
  after_call (returns ret rest) regs m =
      back (record regs { eax = ret })
        (pop_ebx (pop_ebx (pop_ebx (pop_ebx (pop_ebx (record m { rest = rest }))))))
  after_call (leaves rest) regs m = away (record m { rest = rest })

  pub call_api : Option Api → Registers → Machine S → Dispatched S
  unfolding after_call
  call_api none regs m = jump_to_null m
  call_api (some api) regs m = after_call (call api m.stack m.rest) regs m

  pub syscall_dispatcher : Registers → Machine S → Dispatched S
  unfolding syscall_table push call_api
  syscall_dispatcher regs m =
      let m1 = record m { saved_context = regs } in
      let m2 = push regs.edi m1 in
      let m3 = push regs.esi m2 in
      let m4 = push regs.edx m3 in
      let m5 = push regs.ecx m4 in
      if leb num_syscalls regs.eax
      then back regs m
      else call_api (syscall_table regs.eax) regs (push regs.ebx m5)
