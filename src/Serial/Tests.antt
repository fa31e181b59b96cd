-- ===== src/Serial/Tests.antt =====
-- Two bytes where every second read finds the transmitter free.
use unos.Base.{ℕ, ◌+◌, ◌-◌, ◌%◌, ◌≡◌, arith, some, [], ◌∷◌, ◌==◌, if◌then◌else◌, bit_and, ap}
use unos.Memory.{Memory}
use unos.Ports.{Ports}
use unos.Serial.{serial_write}
use unos.Serial.Sent.{Answers, sent, serial_write_lem}

abbrev every_second : ℕ → ℕ
every_second k = if k % 2 == 1 then 0x20 else 0

every_second-Answers : Answers 2 every_second
every_second-Answers k =
    let free : every_second (k + (1 - k % 2)) ≡ 0x20 = ground arith in
    (1 - k % 2, omega arith, λ e. omega (arith, ap (λ v. bit_and v 0x20) free, e))

abbrev bytes : Memory
bytes j = if j == 0x500 then 72 else 105

abbrev quiet : Ports
quiet = record { writes = [] }

serial_write_lem_example :
    (s' : Ports) × (serial_write 2 0x500 2 every_second bytes quiet ≡ some s')
    × (s'.writes ≡ sent bytes 0x500 2 ((0x3FB, 3) ∷ (0x3F8, 3) ∷ (0x3F8, 0) ∷ (0x3FB, 0x80) ∷ []))
serial_write_lem_example = serial_write_lem 2 0x500 2 every_second bytes quiet every_second-Answers
