-- ===== src/Timer/Tests.antt =====
-- A tick where two callbacks are registered and both are due.
use unos.Base.{◌<◌, ℕ, ◌+◌, ◌*◌, ◌≡◌, arith, some, [], ◌∷◌, ◌++◌, u32}
use unos.Timer.{init_timer, TimeListNode, Timer, timer_handler}
use unos.Ports.{Ports}
use unos.Timer.Divisor.{init_timer_lem}
use unos.Timer.Callbacks.{due, timer_handler_lem}

abbrev counting : TimeListNode ℕ
counting = record { callback = λ n. n + 1; offset = 3; t = 3 }

abbrev doubling : TimeListNode ℕ
doubling = record { callback = λ n. 2 * n; offset = 2; t = 2 }

abbrev ticking : Timer ℕ ℕ
ticking = record {
  jiffies = 5;
  frequency_g = 100;
  head = counting ∷ doubling ∷ [];
  saved_context = 0;
  rest = 10;
}

timer_handler_lem_example :
    let j = u32 (5 + 1) in
    (ticking.head ≡ counting ∷ ([] ++ (doubling ∷ []))
      → timer_handler 9 ticking
        ≡ some (record ticking { jiffies = j; saved_context = 9; rest = due j (counting ∷ []) 10 }))
    × (ticking.head ≡ counting ∷ []
        → timer_handler 9 ticking
          ≡ some
              (record ticking { jiffies = j; saved_context = 9; rest = due j (counting ∷ []) 10 }))
timer_handler_lem_example = timer_handler_lem 9 ticking counting [] doubling (omega arith, tt)

init_timer_lem_example :
    (low : ℕ) × (high : ℕ) × ((q : Ports) × (init_timer 100 (record { writes = [] }) ticking
        ≡ some (q, record ticking { frequency_g = 100 }))
      × (q.writes ≡ (0x40, high) ∷ (0x40, low) ∷ (0x43, 0x36) ∷ []))
    × (low + 256 * high ≡ 11931)
    × (18 < 100 → low + 256 * high ≡ 11931)
init_timer_lem_example = init_timer_lem 100 (record { writes = [] }) ticking (omega arith)
