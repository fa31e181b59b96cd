-- ===== src/Syscall/Tests.antt =====
-- A caller with number 3.
use unos.Base.{refl, ℕ, ◌≤◌, ◌≡◌, ◌⊎◌, List, [], ◌∷◌, some}
use unos.Process.{Registers}
use unos.Syscall.{
  Reply, returns, leaves, schedule_api, printf_api, create_process_api, exit_api, call_api,
  after_call, Api, Machine, back, jump_to_null, syscall_table, syscall_dispatcher,
}
use unos.Syscall.Calls.{answer, syscall_dispatcher_lem}

abbrev caller : Registers
caller = record {
  edi = 15;
  esi = 14;
  ebp = 0;
  esp = 0;
  ebx = 11;
  edx = 13;
  ecx = 12;
  eax = 3;
  eip = 4096;
  eflags = 2;
  useresp = 0;
}

abbrev machine : Machine (List ℕ)
machine = record { stack = 77 ∷ []; ebx = 1; saved_context = caller; rest = [] }

-- `schedule` and `_exit` do not return; every function keeps its arguments
abbrev keep : Api → List ℕ → List ℕ → Reply (List ℕ)
keep schedule_api arguments s = leaves arguments
keep printf_api arguments s = returns 42 arguments
keep create_process_api arguments s = returns 42 arguments
keep exit_api arguments s = leaves arguments

kept :
    syscall_dispatcher keep caller machine
    ≡ back
        (record caller { eax = 42 })
        (record machine {
          ebx = 15;
          saved_context = caller;
          rest = 11 ∷ 12 ∷ 13 ∷ 14 ∷ 15 ∷ 77 ∷ [];
        })
unfolding syscall_dispatcher call_api after_call syscall_table
kept = refl

syscall_dispatcher_lem_example :
    ((5 ≤ 3) × (syscall_dispatcher keep caller machine ≡ back caller machine))
    ⊎ (((◌≡◌ {A = ℕ} 3 0)
          × (syscall_dispatcher keep caller machine
              ≡ jump_to_null (record machine {
                stack = 11 ∷ 12 ∷ 13 ∷ 14 ∷ 15 ∷ 77 ∷ [];
                saved_context = caller;
              })))
        ⊎ ((api : Api) × (syscall_table 3 ≡ some api)
            × (syscall_dispatcher keep caller machine
                ≡ answer (keep api (11 ∷ 12 ∷ 13 ∷ 14 ∷ 15 ∷ 77 ∷ []) []) caller machine)))
syscall_dispatcher_lem_example = syscall_dispatcher_lem keep caller machine
