-- ===== src/Timer.antt =====
-- kernel/drivers/timer.c: the counter of ticks and the callbacks.
--
-- `R` is the saved registers' type and `S` the rest of the kernel's state, on which the callbacks act.
-- The list of nodes is a list with the last registered callback first. The offset, the product of
-- two floating-point numbers cut to an integer, is an argument. The remainder by an offset of 0
-- raises the processor's divide error: the result is `none`.
pub mod Callbacks
pub mod Divisor
mod Tests
use unos.Ports.{Ports, outb}
use unos.Base.{
  ℕ, ◌/◌, bit_and, shr, ◌+◌, ◌%◌, ◌^◌, Option, none, some, List, [], ◌∷◌, u16, u32, ◌==◌,
  if◌then◌else◌,
}

abbrev pub pit_timer_max_hz : ℕ
pit_timer_max_hz = 1193180

abbrev pub pit_data_port0 : ℕ
pit_data_port0 = 0x40

abbrev pub pit_command_port : ℕ
pit_command_port = 0x43

abbrev pub pit_repeat : ℕ
pit_repeat = 0x36

pub record TimeListNode (S : Type 0) : Type 0 where
  pub callback : S → S
  pub offset : ℕ
  pub t : ℕ

pub record Timer (R S : Type 0) : Type 0 where
  pub jiffies : ℕ
  pub frequency_g : ℕ
  pub head : List (TimeListNode S)
  pub saved_context : R
  pub rest : S

module _ {S : Type 0} where
  -- the body of the loop
  pub visit : (jiffies : ℕ) → TimeListNode S → S → Option S
  visit jiffies current s =
      if current.offset == 0
      then none
      else if jiffies % current.offset == 0
      then some (current.callback s)
      else some s

  -- the loop, at `current` with `nodes` behind it: it goes on only to a node that has one behind it
  pub run_callbacks : (jiffies : ℕ) → TimeListNode S → List (TimeListNode S) → Option S → Option S
  unfolding visit
  run_callbacks jiffies current nodes none = none
  run_callbacks jiffies current [] (some s) = visit jiffies current s
  run_callbacks jiffies current (last ∷ []) (some s) = visit jiffies current s
  run_callbacks jiffies current (next ∷ behind ∷ nodes) (some s) =
      run_callbacks jiffies next (behind ∷ nodes) (visit jiffies current s)

  pub call_all : (jiffies : ℕ) → List (TimeListNode S) → S → Option S
  unfolding run_callbacks
  call_all jiffies [] s = some s
  call_all jiffies (current ∷ nodes) s = run_callbacks jiffies current nodes (some s)

module _ {R S : Type 0} where
  pub register_timer_callback : (S → S) → (offset : ℕ) → Timer R S → Timer R S
  register_timer_callback callback offset s = record s {
    head = record { callback = callback; offset = offset; t = u32 (s.jiffies + offset) } ∷ s.head;
  }

  pub put_rest : Timer R S → Option S → Option (Timer R S)
  put_rest s none = none
  put_rest s (some rest) = some (record s { rest = rest })

  pub timer_handler : R → Timer R S → Option (Timer R S)
  unfolding call_all put_rest
  timer_handler regs s =
      let s' = record s { jiffies = u32 (s.jiffies + 1); saved_context = regs } in
      put_rest s' (call_all s'.jiffies s'.head s'.rest)

  -- The handler is entered into the table of Isr, under the number 32. A frequency of 0 raises the
  -- divide error.
  pub init_timer : (frequency : ℕ) → Ports → Timer R S → Option (Ports × Timer R S)
  unfolding outb
  init_timer frequency p s =
      let divisor = pit_timer_max_hz / frequency in
      let low = bit_and divisor 0xff in
      let high = bit_and (shr divisor 8) 0xff in
      let p1 = outb pit_command_port pit_repeat p in
      if frequency == 0
      then none
      else some (
        outb pit_data_port0 high (outb pit_data_port0 low p1),
        record s { frequency_g = frequency },
      )
