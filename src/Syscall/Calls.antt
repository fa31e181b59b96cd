-- ===== src/Syscall/Calls.antt =====
-- What a caller of the dispatcher gets.
use unos.Base.{
  zero, suc, ap, ◌∙◌, Bool-cases, ℕ, ◌<◌, ◌≤◌, ◌≡◌, ◌⊎◌, inl, inr, refl, arith, List, ◌∷◌, some,
  leb, false, true,
}
use unos.Process.{Registers}
use unos.Syscall.{
  Reply, returns, leaves, away, Dispatched, after_call, schedule_api, printf_api,
  create_process_api, exit_api, call_api, Api, Machine, back, jump_to_null, syscall_table,
  syscall_dispatcher,
}

table-cases : (n : ℕ) → n < 5 → (n ≡ 0) ⊎ ((api : Api) × (syscall_table n ≡ some api))
unfolding syscall_table
table-cases zero h = inl refl
table-cases (suc zero) h = inr (schedule_api, refl)
table-cases (suc (suc zero)) h = inr (printf_api, refl)
table-cases (suc (suc (suc zero))) h = inr (create_process_api, refl)
table-cases (suc (suc (suc (suc zero)))) h = inr (exit_api, refl)
table-cases (suc (suc (suc (suc (suc n))))) h = absurd (omega arith)

-- What the caller gets of a call whose function has the reply `r`.
abbrev pub answer : {S : Type 0} → Reply S → Registers → Machine S → Dispatched S
answer (returns ret rest) regs m =
    back (record regs { eax = ret })
      (record m { ebx = regs.edi; saved_context = regs; rest = rest })
answer (leaves rest) regs m = away (record m {
  stack = regs.ebx ∷ regs.ecx ∷ regs.edx ∷ regs.esi ∷ regs.edi ∷ m.stack;
  saved_context = regs;
  rest = rest;
})

module _ {S : Type 0} (call : Api → List ℕ → S → Reply S) (regs : Registers) (m : Machine S) where
  abbrev pushed : Machine S
  pushed = record m {
    stack = regs.ebx ∷ regs.ecx ∷ regs.edx ∷ regs.esi ∷ regs.edi ∷ m.stack;
    saved_context = regs;
  }

  called :
      leb 5 regs.eax ≡ false
      → syscall_dispatcher call regs m ≡ call_api call (syscall_table regs.eax) regs pushed
  unfolding syscall_dispatcher
  called small = rw (small) refl

  beyond : leb 5 regs.eax ≡ true → syscall_dispatcher call regs m ≡ back regs m
  unfolding syscall_dispatcher
  beyond large = rw large refl

  nothing : call_api call (syscall_table 0) regs pushed ≡ jump_to_null pushed
  unfolding call_api syscall_table
  nothing = refl

  by_reply : (r : Reply S) → after_call call r regs pushed ≡ answer r regs m
  unfolding after_call
  by_reply (returns ret rest) = refl
  by_reply (leaves rest) = refl

  answered :
      (api : Api)
      → call_api call (some api) regs pushed
        ≡ answer
            (call api (regs.ebx ∷ regs.ecx ∷ regs.edx ∷ regs.esi ∷ regs.edi ∷ m.stack) m.rest)
            regs
            m
  unfolding call_api
  answered api =
      by_reply (call api (regs.ebx ∷ regs.ecx ∷ regs.edx ∷ regs.esi ∷ regs.edi ∷ m.stack) m.rest)

  -- A number from 5 on does nothing. Number 0 is a call of the address 0. Else the table has a function:
  -- it is called with `ebx`, `ecx`, `edx`, `esi` and `edi` as its first arguments, in this order. If it
  -- returns, its result is the caller's `eax` and no other register of the caller changes; the stack is
  -- as before, the context is saved, but the dispatcher's `ebx` is left with the caller's `edi`. If it
  -- does not, the five arguments stay on the stack, and the context is saved.
  pub syscall_dispatcher_lem :
      ((5 ≤ regs.eax) × (syscall_dispatcher call regs m ≡ back regs m))
      ⊎ (((regs.eax ≡ 0) × (syscall_dispatcher call regs m ≡ jump_to_null pushed))
          ⊎ ((api : Api) × (syscall_table regs.eax ≡ some api)
              × (syscall_dispatcher call regs m
                  ≡ answer
                      (call api
                        (regs.ebx ∷ regs.ecx ∷ regs.edx ∷ regs.esi ∷ regs.edi ∷ m.stack)
                        m.rest)
                      regs
                      m)))
  unfolding call_api
  syscall_dispatcher_lem = elim (Bool-cases (leb 5 regs.eax)) [
    | inl large ↦ inl (ground (arith, large), beyond large)
    | inr small ↦ elim (table-cases regs.eax (ground (arith, small))) [
      | inl null ↦ inr (
          inl (
            null,
            called small ∙ ap (λ n. call_api call (syscall_table n) regs pushed) null ∙ nothing,
          ))
      | inr (api, is) ↦
          inr
            (inr (api, is, called small ∙ ap (λ t. call_api call t regs pushed) is ∙ answered api))
    ]
  ]
