-- ===== src/Pic/Tests.antt =====
-- The masks where every port answers with 0xb8.
use unos.Base.{ℕ, ◌<◌, ◌≡◌, arith, [], ◌∷◌}
use unos.Base.Bits.{bit}
use unos.Pic.{enable_irq, pic2_data}
use unos.Pic.Masks.{enable_irq_vector}
use unos.Ports.{Ports}

abbrev silent : Ports
silent = record { writes = [] }

abbrev answers : ℕ → ℕ
answers port = 0xb8

enable_irq_vector_example :
    (v : ℕ) × ((enable_irq answers 35 silent).writes ≡ (pic2_data, v) ∷ [])
    × ((k : ℕ) → k < 8 → bit v k ≡ bit 0xb8 k)
enable_irq_vector_example = enable_irq_vector answers 3 silent (omega arith) (λ p. omega arith)
