-- ===== src/Pmm/Blocks.antt =====
-- `pmm_alloc_blocks` and `pmm_free_blocks`: several frames in a row.
use unos.Base.{
  ℕ, zero, suc, ◌+◌, ◌*◌, ◌/◌, ◌%◌, ◌^◌, ◌<◌, ◌≤◌, ◌≡◌, refl, ap, arith, ◌==◌, some, u32, leb, not,
  true, false, ◌∙◌, bit_and,
}
use unos.Base.Bits.{bit}
use unos.Pmm.{
  Pmm, mmap_set, mmap_unset, pmm_block_size, pmm_get_free_block_count, set_frames, unset_frames,
  mmap_first_free_s, scan_bits_s, scan_words_s, run_fits, take_frames, pmm_alloc_blocks,
  pmm_free_blocks, mmap_test,
}
use unos.Pmm.Frames.{used, used-mmap_set, used-mmap_unset, digit_test, mmap_test_lem}
use unos.Pmm.Setup.{RegionMarked}
use unos.Pmm.Count.{total_change, total-le, used-le-one, frames_in_use, IsAccurate}

set_frames_lem :
    (n a : ℕ) (p : Pmm)
    → RegionMarked 1 a n p (set_frames n a p) × ((set_frames n a p).used_blocks ≡ p.used_blocks)
unfolding set_frames mmap_set
set_frames_lem zero a p = (ground arith, refl)
set_frames_lem (suc n) a p =
    let (marked, counter) = set_frames_lem n (a + 1) (mmap_set a p) in
    (λ f. ground (arith, marked f, used-mmap_set a f p), counter)

unset_frames_lem :
    (n a : ℕ) (p : Pmm)
    → RegionMarked 0 a n p (unset_frames n a p) × ((unset_frames n a p).used_blocks ≡ p.used_blocks)
unfolding unset_frames mmap_unset
unset_frames_lem zero a p = (ground arith, refl)
unset_frames_lem (suc n) a p =
    let (marked, counter) = unset_frames_lem n (a + 1) (mmap_unset a p) in
    (λ f. ground (arith, marked f, used-mmap_unset a f p), counter)

-- Taking `n` frames that are free and giving them back with `pmm_free_blocks` leaves every frame and
-- the counter as they were.
pub pmm_free_blocks-take_frames :
    (p : Pmm) (n g : ℕ)
    → g + n < 2 ^ 20
    → p.used_blocks + n < 2 ^ 32
    → ((f : ℕ) → g ≤ f → f < g + n → used p f ≡ 0)
    → let r = take_frames n (some g) p in
      ((f : ℕ) → used (pmm_free_blocks r.0 n r.1) f ≡ used p f)
      × ((pmm_free_blocks r.0 n r.1).used_blocks ≡ p.used_blocks)
unfolding take_frames pmm_free_blocks
pmm_free_blocks-take_frames p n g small fits idle =
    let frame : u32 (g * pmm_block_size) / pmm_block_size ≡ g = omega arith in
    let q : Pmm = set_frames n g p in
    let s : Pmm = record q { used_blocks = u32 (q.used_blocks + n) } in
    let (marked, counter) = set_frames_lem n g p in
    let (cleared, counter') = unset_frames_lem n g s in
    rw frame (λ f. ground (arith, marked f, cleared f, idle f), omega (arith, counter, counter'))

-- What the search for `size` frames has looked at when it answers with frame `g`.
abbrev pub Found : ℕ → Pmm → ℕ → Type 0
Found size p g =
    (used p g ≡ 0) × (run_fits (size + 1) (u32 (g / 32 * 32 + 2 ^ (g % 32))) size 0 0 p ≡ true)

scan_bits_s_lem :
    (rounds size i j g : ℕ) (p : Pmm)
    → j + rounds ≡ 32
    → scan_bits_s rounds size i j p ≡ some g
    → Found size p g
unfolding scan_bits_s
scan_bits_s_lem zero size i j g p e h = ground arith
scan_bits_s_lem (suc rounds) size i j g p e h =
    let later = scan_bits_s_lem rounds size i (j + 1) g p (omega arith) in
    let here : i * 4 * 8 + j ≡ g
        → (bit_and (p.memory_map i) (2 ^ j) == 0) ≡ true
        → run_fits (size + 1) (u32 (i * 32 + 2 ^ j)) size 0 0 p ≡ true
        → Found size p g =
      λ at free fits.
        let word : g / 32 ≡ i = omega arith in
        let digit : g % 32 ≡ j = omega arith in
        rw (word, digit) (ground (arith, digit_test (p.memory_map i) j), fits) in
    ground (arith, later, here)

scan_words_s_lem :
    (rounds size i g : ℕ) (p : Pmm) → scan_words_s rounds size i p ≡ some g → Found size p g
unfolding scan_words_s
scan_words_s_lem zero size i g p h = ground arith
scan_words_s_lem (suc rounds) size i g p h =
    ground (arith, scan_words_s_lem rounds size (i + 1) g p, scan_bits_s_lem 32 size i 0 g p refl)

-- For two frames or more the search answers with a frame that is free, but the row that it has
-- tested begins at 32 * (g / 32) + 2 ^ (g % 32), the mask of the frame's bit in place of its number.
pub mmap_first_free_s_lem :
    (size : ℕ) (p : Pmm) {g : ℕ} → 2 ≤ size → mmap_first_free_s size p ≡ some g → Found size p g
unfolding mmap_first_free_s
mmap_first_free_s_lem size p {g} h e = ground (arith, scan_words_s_lem p.max_blocks size 0 g p)

module _ (rounds size i j : ℕ) (p : Pmm) where
  skip_used :
      bit (p.memory_map i) j ≡ 1
      → scan_bits_s (suc rounds) size i j p ≡ scan_bits_s rounds size i (j + 1) p
  unfolding scan_bits_s
  skip_used h = rw (digit_test (p.memory_map i) j, h)

  take_fitting :
      bit (p.memory_map i) j ≡ 0
      → run_fits (size + 1) (u32 (i * 32 + 2 ^ j)) size 0 0 p ≡ true
      → scan_bits_s (suc rounds) size i j p ≡ some (i * 4 * 8 + j)
  unfolding scan_bits_s
  take_fitting h fits = rw (digit_test (p.memory_map i) j, h, fits)

module _ (p : Pmm) (zero_used : used p 0 ≡ 1) (one : used p 1 ≡ 0) (two : used p 2 ≡ 1)
    (three : used p 3 ≡ 0) (four : used p 4 ≡ 0) where
  tested : (b v : ℕ) → b < 2 ^ 31 → used p b ≡ v → mmap_test b p ≡ not (v == 0)
  tested b v h e = mmap_test_lem b p h ∙ ap (λ x. not (x == 0)) e

  -- a row of three frames of which two are free, though not in a row
  fits_later : run_fits 3 2 2 0 0 p ≡ true
  unfolding run_fits
  fits_later = ground (
    arith,
    tested 2 1 (omega arith) two,
    tested 3 0 (omega arith) three,
    tested 4 0 (omega arith) four,
  )

  first_word : scan_bits_s 32 2 0 0 p ≡ some 1
  first_word = skip_used 31 2 0 0 p zero_used ∙ take_fitting 30 2 0 1 p one fits_later

  not_full : (p.memory_map 0 == 0xffff_ffff) ≡ false
  not_full = ground (arith, one, ap (λ w. bit w 1))

  from_first_word : (rounds : ℕ) → 0 < rounds → scan_words_s rounds 2 0 p ≡ some 1
  unfolding scan_words_s
  from_first_word zero h = absurd (omega arith)
  from_first_word (suc rounds) h = rw (not_full, first_word)

  first_free_one : 0 < p.max_blocks → mmap_first_free_s 2 p ≡ some 1
  unfolding mmap_first_free_s
  first_free_one pos = from_first_word p.max_blocks pos

  -- Where frames 0 and 2 are in use and 1, 3 and 4 are free, a call for two frames hands out frame
  -- 1 and frame 2: it counts two frames, though only one more is in use than before.
  pub pmm_alloc_blocks_overlap :
      IsAccurate p
      → 4 < p.max_blocks
      → 2 < pmm_get_free_block_count p
      → let r = pmm_alloc_blocks 2 p in
        (r.0 ≡ 1 * pmm_block_size)
        × (r.1.used_blocks ≡ p.used_blocks + 2)
        × (frames_in_use r.1 ≡ frames_in_use p + 1)
  unfolding pmm_alloc_blocks take_frames set_frames mmap_set
  pmm_alloc_blocks_overlap acc big room =
      let few : leb (pmm_get_free_block_count p) 2 ≡ false = ground arith in
      let at : mmap_first_free_s 2 p ≡ some 1 = first_free_one (omega arith) in
      let q : Pmm = mmap_set 1 p in
      let once =
        total_change (used p) (used q) 1 1 (λ f. used-mmap_set 1 f p) p.max_blocks (omega arith) in
      let twice =
        total_change (used q) (used (mmap_set 2 q)) 2 1 (λ f. used-mmap_set 2 f q) p.max_blocks
          (omega arith) in
      let still = used-mmap_set 1 2 p in
      let all = total-le (used p) (used-le-one p) p.max_blocks in
      rw (few, at)
        (
          refl,
          omega (arith, acc.fits, acc.counted, all),
          omega (arith, once, twice, still, one, two),
        )
