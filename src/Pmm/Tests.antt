-- ===== src/Pmm/Tests.antt =====
-- Runs of the memory manager, and its theorems at states of 64 frames.
use unos.Base.{
  [], ◌∷◌, ℕ, zero, suc, ◌+◌, ◌*◌, ◌≤◌, ◌<◌, ◌≡◌, ◌≢◌, ◌⊎◌, refl, arith, ◌==◌, if◌then◌else◌, some,
}
use unos.Pmm.{
  Pmm, pmm_block_size, mmap_set, mmap_test, scan_bits, scan_words, mmap_first_free,
  mmap_first_free_s, scan_words_s, scan_bits_s, run_fits, pmm_alloc_block, pmm_free_block,
  pmm_alloc_blocks, pmm_get_free_block_count,
}
use unos.Pmm.Frames.{used}
use unos.Pmm.Count.{frames_in_use, IsAccurate}
use unos.Pmm.Search.{FirstZero, mmap_first_free_lem}
use unos.Base.Take.{here, there}
use unos.Pmm.Runs.{Hands, begin, grant, give_back, Reach-Hands}
use unos.Pmm.Alloc.{IsFull, Granted, pmm_alloc_block_lem}
use unos.Pmm.Blocks.{pmm_alloc_blocks_overlap}

abbrev bitmap : ℕ → ℕ → Pmm
bitmap word counted = record {
  memory_size = 64 * 4096;
  used_blocks = counted;
  max_blocks = 64;
  memory_map = λ i. if i == 0 then word else 0;
}

-- frames 0, 1 and 2 in use
abbrev low_three : Pmm
low_three = bitmap 7 3

-- frames 0 and 2 in use
abbrev gap : Pmm
gap = bitmap 5 2

low_three-IsAccurate : IsAccurate low_three
low_three-IsAccurate = record { fits = omega arith; counted = refl }

gap-IsAccurate : IsAccurate gap
gap-IsAccurate = record { fits = omega arith; counted = refl }

ones : (f : ℕ) → 0 ≤ f → f < 0 + 3 → used low_three f ≡ 1
ones zero _ _ = refl
ones (suc zero) _ _ = refl
ones (suc (suc zero)) _ _ = refl
ones (suc (suc (suc f))) _ h = absurd (omega arith)

zeros : (f : ℕ) → 3 ≤ f → f < 3 + 2 → used low_three f ≡ 0
zeros zero h _ = absurd (omega arith)
zeros (suc zero) h _ = absurd (omega arith)
zeros (suc (suc zero)) h _ = absurd (omega arith)
zeros (suc (suc (suc zero))) _ _ = refl
zeros (suc (suc (suc (suc zero)))) _ _ = refl
zeros (suc (suc (suc (suc (suc f))))) _ h = absurd (omega arith)

first_free_run : mmap_first_free low_three ≡ some 3
unfolding mmap_first_free scan_words scan_bits
first_free_run = refl

alloc_run : (pmm_alloc_block low_three).0 ≡ 3 * 4096
unfolding pmm_alloc_block mmap_first_free scan_words scan_bits
alloc_run = refl

alloc_blocks_run : (pmm_alloc_blocks 2 gap).0 ≡ 4096
unfolding pmm_alloc_blocks mmap_first_free_s scan_words_s scan_bits_s run_fits mmap_test
alloc_blocks_run = refl

mmap_first_free_lem_example : FirstZero (used low_three) 0 64 (mmap_first_free low_three)
mmap_first_free_lem_example = mmap_first_free_lem low_three

pmm_alloc_block_lem_example :
    ((pmm_alloc_block low_three ≡ (0, low_three)) × IsFull low_three)
    ⊎ ((g : ℕ) × Granted low_three (pmm_alloc_block low_three) g)
pmm_alloc_block_lem_example = pmm_alloc_block_lem low_three low_three-IsAccurate

granted_address : (pmm_alloc_block low_three).0 ≢ 0
granted_address = omega (arith, alloc_run)

second_run : (pmm_alloc_block (pmm_alloc_block low_three).1).0 ≡ 4 * 4096
unfolding pmm_alloc_block mmap_first_free scan_words scan_bits mmap_set
second_run = refl

gap_search : mmap_first_free_s 2 gap ≡ some 1
unfolding mmap_first_free_s scan_words_s scan_bits_s run_fits mmap_test
gap_search = refl

pmm_alloc_blocks_overlap_example :
    let r = pmm_alloc_blocks 2 gap in
    (r.0 ≡ 1 * pmm_block_size)
    × (r.1.used_blocks ≡ 2 + 2)
    × (frames_in_use r.1 ≡ frames_in_use gap + 1)
unfolding pmm_get_free_block_count
pmm_alloc_blocks_overlap_example =
    pmm_alloc_blocks_overlap gap refl refl refl refl refl gap-IsAccurate (omega arith) room
  where
    room : 2 < pmm_get_free_block_count gap
    room = omega arith

-- frame 3 is granted, then frame 4, and 3 is given back
Reach-Hands_example :
    Hands low_three
      (pmm_free_block (3 * 4096) (pmm_alloc_block (pmm_alloc_block low_three).1).1)
      (4 ∷ [])
Reach-Hands_example = Reach-Hands low_three low_three-IsAccurate refl (
    give_back (grant 4 (grant 3 begin (omega arith) alloc_run) (omega arith) second_run)
      (there here))
