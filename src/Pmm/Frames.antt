-- ===== src/Pmm/Frames.antt =====
-- What `mmap_set`, `mmap_unset` and `mmap_test` mean frame by frame.
use unos.Base.{ℕ, ◌/◌, ◌%◌, ◌^◌, ◌<◌, ◌≡◌, bit_and, not, arith, ◌==◌, if◌then◌else◌, not32}
use unos.Base.Bits.{
  bit, bit-le-one, bit-bit_or, bit-bit_and, bit-pow, bit-complement, bit_and-pow, pow-lt-pow,
  pow_pos,
}
use unos.Pmm.{Pmm, mmap_set, mmap_unset, mmap_test}

-- 1 while frame `f` is marked in use, else 0
abbrev pub used : Pmm → ℕ → ℕ
used p f = bit (p.memory_map (f / 32)) (f % 32)

pub used-mmap_set : (b f : ℕ) (p : Pmm) → used (mmap_set b p) f ≡ (if b == f then 1 else used p f)
unfolding mmap_set
used-mmap_set b f p = ground (
  arith,
  bit-bit_or (p.memory_map (b / 32)) (2 ^ (b % 32)) (f % 32),
  bit-pow (b % 32) (f % 32),
  bit-le-one (p.memory_map (f / 32)) (f % 32),
)

pub used-mmap_unset :
    (b f : ℕ) (p : Pmm) → used (mmap_unset b p) f ≡ (if b == f then 0 else used p f)
unfolding mmap_unset
used-mmap_unset b f p = ground (
  arith,
  bit-bit_and (p.memory_map (b / 32)) (not32 (2 ^ (b % 32))) (f % 32),
  bit-complement 32 (2 ^ (b % 32)) (f % 32) (pow-lt-pow (b % 32) 32 (omega arith)) (omega arith),
  bit-pow (b % 32) (f % 32),
  bit-le-one (p.memory_map (f / 32)) (f % 32),
)

pub digit_test : (w j : ℕ) → (bit_and w (2 ^ j) == 0) ≡ (bit w j == 0)
digit_test w j = grind (arith, bit_and-pow w j, pow_pos j, bit-le-one w j)

-- The test of a bit that is not negative answers whether the frame is in use.
pub mmap_test_lem : (b : ℕ) (p : Pmm) → b < 2 ^ 31 → mmap_test b p ≡ not (used p b == 0)
unfolding mmap_test
mmap_test_lem b p h = ground (arith, digit_test (p.memory_map (b / 32)) (b % 32))
