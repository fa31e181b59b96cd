-- ===== src/Pmm/Count.antt =====
-- The number of frames in use, and the states in which `_pmm_used_blocks` is that number.
use unos.Base.{ℕ, zero, suc, ◌+◌, ◌/◌, ◌%◌, ◌^◌, ◌<◌, ◌≤◌, ◌≡◌, refl, arith, ◌==◌, if◌then◌else◌}
use native.Mathlib.Decide.{dec_lt}
use unos.Base.Bits.{bit-le-one}
use unos.Pmm.{Pmm}
use unos.Pmm.Frames.{used}

-- d 0 + … + d (n - 1)
abbrev pub total : (ℕ → ℕ) → ℕ → ℕ
total d zero = 0
total d (suc n) = total d n + d n

pub total_ext : (n : ℕ) (d e : ℕ → ℕ) → ((f : ℕ) → f < n → d f ≡ e f) → total d n ≡ total e n
total_ext zero d e same = refl
total_ext (suc n) d e same =
    omega (arith, total_ext n d e (λ f h. same f (omega arith)), same n (omega arith))

module _ (d e : ℕ → ℕ) (b v : ℕ) (changed : (f : ℕ) → e f ≡ (if b == f then v else d f)) where
  total_beyond : (n : ℕ) → n ≤ b → total e n ≡ total d n
  total_beyond n h = total_ext n e d (λ f k. ground (arith, changed f))

  -- A change at one place below `n` shows in the total.
  pub total_change : (n : ℕ) → b < n → total e n + d b ≡ total d n + v
  total_change zero h = absurd (omega arith)
  total_change (suc n) h = elim (dec_lt b n) [
    | yes below ↦ ground (arith, total_change n below, changed n)
    | no at ↦
        let same : n ≡ b = omega arith in
        ground (arith, total_beyond n (omega arith), changed n, same)
  ]

module _ (d : ℕ → ℕ) (small : (f : ℕ) → d f ≤ 1) where
  pub total-le : (n : ℕ) → total d n ≤ n
  total-le zero = omega arith
  total-le (suc n) = omega (arith, total-le n, small n)

  pub ones_of_total : (n f : ℕ) → total d n ≡ n → f < n → d f ≡ 1
  ones_of_total zero f e h = absurd (omega arith)
  ones_of_total (suc n) f e h = elim (dec_lt f n) [
    | yes below ↦ ones_of_total n f (omega (arith, total-le n, small n)) below
    | no at ↦ let same : f ≡ n = omega arith in rw same (omega (arith, total-le n, small n))
  ]

pub used-le-one : (p : Pmm) (f : ℕ) → used p f ≤ 1
used-le-one p f = bit-le-one (p.memory_map (f / 32)) (f % 32)

-- how many of the managed frames are marked
abbrev pub frames_in_use : Pmm → ℕ
frames_in_use p = total (used p) p.max_blocks

pub record IsAccurate (p : Pmm) : Type 0 where
  -- `size_t` memory holds fewer than 2 ^ 20 blocks
  pub fits : p.max_blocks < 2 ^ 20
  pub counted : p.used_blocks ≡ frames_in_use p
