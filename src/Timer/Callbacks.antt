-- ===== src/Timer/Callbacks.antt =====
-- Which callbacks a tick runs.
use unos.Base.{
  Bool, ℕ, ◌+◌, ◌%◌, ◌<◌, ◌≡◌, refl, arith, some, List, [], ◌∷◌, ◌++◌, u32, ◌==◌, if◌then◌else◌,
  true, false, ap, ◌∙◌,
}
use unos.Timer.{TimeListNode, Timer, visit, run_callbacks, call_all, put_rest, timer_handler}

-- The callbacks whose offset divides the tick, one after the other.
abbrev pub due : {S : Type 0} → ℕ → List (TimeListNode S) → S → S
due jiffies [] s = s
due jiffies (x ∷ xs) s = due jiffies xs (if jiffies % x.offset == 0 then x.callback s else s)

abbrev pub ArePositive : {S : Type 0} → List (TimeListNode S) → Type 0
ArePositive [] = Unit
ArePositive (x ∷ xs) = (0 < x.offset) × ArePositive xs

module _ {S : Type 0} where
  visit_lem :
      (j : ℕ) (x : TimeListNode S) (s : S)
      → 0 < x.offset
      → visit j x s ≡ some (if j % x.offset == 0 then x.callback s else s)
  unfolding visit
  visit_lem j x s pos =
      let some_offset : (x.offset == 0) ≡ false = ground arith in
      rw some_offset (step (j % x.offset == 0))
    where
      step :
          (b : Bool)
          → (if b then some (x.callback s) else some s) ≡ some (if b then x.callback s else s)
      step true = refl
      step false = refl

  run_callbacks_lem :
      (j : ℕ) (x : TimeListNode S) (xs : List (TimeListNode S)) (last : TimeListNode S) (s : S)
      → ArePositive (x ∷ xs)
      → run_callbacks j x (xs ++ (last ∷ [])) (some s) ≡ some (due j (x ∷ xs) s)
  unfolding run_callbacks
  run_callbacks_lem j x [] last s (pos, rest) = visit_lem j x s pos
  run_callbacks_lem j x (y ∷ []) last s (pos, rest) =
      ap (λ o. run_callbacks j y (last ∷ []) o) (visit_lem j x s pos)
      ∙ run_callbacks_lem j y [] last _ rest
  run_callbacks_lem j x (y ∷ z ∷ zs) last s (pos, rest) =
      ap (λ o. run_callbacks j y (z ∷ (zs ++ (last ∷ []))) o) (visit_lem j x s pos)
      ∙ run_callbacks_lem j y (z ∷ zs) last _ rest

-- With two callbacks or more a tick counts, saves the registers and runs those that are due, but
-- never the one that was registered first; a callback that is the only one runs when it is due. The
-- offsets must not be 0.
pub timer_handler_lem :
    {R S : Type 0} (regs : R) (s : Timer R S) (x : TimeListNode S) (xs : List (TimeListNode S))
    (last : TimeListNode S)
    → ArePositive (x ∷ xs)
    → let j = u32 (s.jiffies + 1) in
      (s.head ≡ x ∷ (xs ++ (last ∷ []))
        → timer_handler regs s
          ≡ some (record s { jiffies = j; saved_context = regs; rest = due j (x ∷ xs) s.rest }))
      × (s.head ≡ x ∷ []
          → timer_handler regs s
            ≡ some (record s { jiffies = j; saved_context = regs; rest = due j (x ∷ []) s.rest }))
unfolding timer_handler call_all put_rest run_callbacks
timer_handler_lem regs s x xs last pos =
    let j = u32 (s.jiffies + 1) in
    let s' = record s { jiffies = j; saved_context = regs } in
    (
      (λ e.
          ap (λ h. put_rest s' (call_all j h s.rest)) e
          ∙ ap (put_rest s') (run_callbacks_lem j x xs last s.rest pos)),
      λ e.
          ap (λ h. put_rest s' (call_all j h s.rest)) e
          ∙ ap (put_rest s') (visit_lem j x s.rest pos.0),
    )
