-- ===== src/Pmm/Setup.antt =====
-- `init_pmm`, `pmm_init_region` and `pmm_deinit_region`, which the kernel calls at boot.
use unos.Base.{
  ℕ, zero, suc, ◌+◌, ◌-◌, ◌*◌, ◌/◌, ◌%◌, ◌^◌, ◌<◌, ◌≤◌, ◌≡◌, refl, arith, ◌==◌, if◌then◌else◌, inl,
  inr, Bool-cases, u32, leb, ltb, ◌&&◌, min,
}
use unos.Pmm.{
  Pmm, mmap_set, mmap_unset, pmm_block_size, init_pmm, unset_region, set_region, pmm_init_region,
  pmm_deinit_region, pmm_blocks_per_byte, pmm_bitmap_size,
}
use unos.Base.Bits.{bit_of_filled}
use unos.Pmm.Count.{total, total_change, total-le, used-le-one, frames_in_use, IsAccurate}
use unos.Pmm.Frames.{used, used-mmap_set, used-mmap_unset}

-- Frames `a` to `a + n - 1` of `q` are marked `v`, and the others are as in `p`.
abbrev pub RegionMarked : (v a n : ℕ) → Pmm → Pmm → Type 0
RegionMarked v a n p q = (f : ℕ) → used q f ≡ (if leb a f && ltb f (a + n) then v else used p f)

-- Each round of the loop clears one frame and takes one off the counter, whatever the frame was.
unset_region_lem :
    (n a : ℕ) (p : Pmm)
    → n ≤ p.used_blocks
    → p.used_blocks < 2 ^ 32
    → RegionMarked 0 a n p (unset_region n a p)
      × ((unset_region n a p).used_blocks + n ≡ p.used_blocks)
      × ((unset_region n a p).max_blocks ≡ p.max_blocks)
unfolding unset_region mmap_unset
unset_region_lem zero a p le fits = (ground arith, omega arith, refl)
unset_region_lem (suc n) a p le fits =
    let q : Pmm = record (mmap_unset a p) { used_blocks = u32 (p.used_blocks + 2 ^ 32 - 1) } in
    let (marked, counter, limit) = unset_region_lem n (a + 1) q (omega arith) (omega arith) in
    (λ f. ground (arith, marked f, used-mmap_unset a f p), omega (arith, counter), limit)

set_region_lem :
    (n a : ℕ) (p : Pmm)
    → p.used_blocks + n < 2 ^ 32
    → RegionMarked 1 a n p (set_region n a p)
      × ((set_region n a p).used_blocks ≡ p.used_blocks + n)
      × ((set_region n a p).max_blocks ≡ p.max_blocks)
unfolding set_region mmap_set
set_region_lem zero a p fits = (ground arith, omega arith, refl)
set_region_lem (suc n) a p fits =
    let q : Pmm = record (mmap_set a p) { used_blocks = u32 (p.used_blocks + 1) } in
    let (marked, counter, limit) = set_region_lem n (a + 1) q (omega arith) in
    (λ f. ground (arith, marked f, used-mmap_set a f p), omega (arith, counter), limit)

-- Clearing the frames `a` to `a + n - 1`, all of them ones, takes their number off the total.
module _ (d e : ℕ → ℕ) (a n : ℕ) where
  total_region :
      ((f : ℕ) → a ≤ f → f < a + n → d f ≡ 1)
      → ((f : ℕ) → e f ≡ (if leb a f && ltb f (a + n) then 0 else d f))
      → (m : ℕ) → total e m + (min m (a + n) - a) ≡ total d m
  total_region ones cleared zero = omega arith
  total_region ones cleared (suc m) = elim (Bool-cases (leb a m && ltb m (a + n))) [
    | inl inside ↦
        ground (arith, total_region ones cleared m, cleared m, ones m (ground arith) (ground arith))
    | inr outside ↦ ground (arith, total_region ones cleared m, cleared m)
  ]

-- Handing a region of frames in use to `pmm_init_region` frees each of them but frame 0, marks no
-- other frame but 0, and leaves the counter accurate if the region does not hold frame 0, which is
-- in use. If the region begins with frame 0 the counter is one too low, since the frame that
-- `mmap_set(0)` takes back is not counted.
pub pmm_init_region_lem :
    (p : Pmm) (a n r : ℕ)
    → IsAccurate p
    → a + n ≤ p.max_blocks
    → r < pmm_block_size
    → 0 < n
    → used p 0 ≡ 1
    → ((f : ℕ) → a ≤ f → f < a + n → used p f ≡ 1)
    → let q = pmm_init_region (a * pmm_block_size) (n * pmm_block_size + r) p in
      ((f : ℕ)
        → used q f ≡ (if f == 0 then 1 else if leb a f && ltb f (a + n) then 0 else used p f))
      × (q.used_blocks + n ≡ p.used_blocks)
      × (frames_in_use q ≡ q.used_blocks + (if a == 0 then 1 else 0))
unfolding pmm_init_region mmap_set
pmm_init_region_lem p a n r acc within rest pos zero_used busy =
    let base : a * pmm_block_size / pmm_block_size ≡ a = omega arith in
    let size : (n * pmm_block_size + r) / pmm_block_size ≡ n = omega arith in
    rw (base, size)
      (let room = total-le (used p) (used-le-one p) p.max_blocks in
        let inside =
          total_region (used p) (λ f. if leb a f && ltb f (a + n) then 0 else used p f) a n busy
            (λ f. refl) p.max_blocks in
        let (cleared, counter, limit) =
          unset_region_lem n a p (omega (arith, acc.counted, inside))
            (omega (arith, acc.fits, acc.counted, room)) in
        let u : Pmm = unset_region n a p in
        let region = total_region (used p) (used u) a n busy cleared p.max_blocks in
        let first =
          total_change (used u) (used (mmap_set 0 u)) 0 1 (λ f. used-mmap_set 0 f u) p.max_blocks
            (omega arith) in
        (
          λ f. ground (arith, used-mmap_set 0 f u, cleared f),
          counter,
          ground (arith, first, region, cleared 0, limit, acc.counted, counter),
        ))

-- `pmm_deinit_region` on a region of free frames marks each of them and no other, and keeps the
-- counter accurate.
pub pmm_deinit_region_lem :
    (p : Pmm) (a n r : ℕ)
    → IsAccurate p
    → a + n ≤ p.max_blocks
    → r < pmm_block_size
    → ((f : ℕ) → a ≤ f → f < a + n → used p f ≡ 0)
    → let q = pmm_deinit_region (a * pmm_block_size) (n * pmm_block_size + r) p in
      RegionMarked 1 a n p q × (q.used_blocks ≡ p.used_blocks + n) × IsAccurate q
unfolding pmm_deinit_region
pmm_deinit_region_lem p a n r acc within rest idle =
    let base : a * pmm_block_size / pmm_block_size ≡ a = omega arith in
    let size : (n * pmm_block_size + r) / pmm_block_size ≡ n = omega arith in
    rw (base, size)
      (let room = total-le (used p) (used-le-one p) p.max_blocks in
        let (marked, counter, limit) =
          set_region_lem n a p (omega (arith, acc.fits, acc.counted, room)) in
        let q : Pmm = set_region n a p in
        let region =
          total_region (used q) (used p) a n (λ f lo hi. ground (arith, marked f))
            (λ f. ground (arith, marked f, idle f)) p.max_blocks in
        (
          marked,
          counter,
          record {
            fits = omega (arith, limit, acc.fits);
            counted = rw limit (omega (arith, region, counter, acc.counted));
          },
        ))

-- After `init_pmm` the limit is the memory's blocks, all of them are counted as used, the `memset`
-- has stayed inside the array, and every frame of the bytes that it filled is in use.
pub init_pmm_lem :
    (mem_size : ℕ) (p : Pmm)
    → mem_size < 2 ^ 32
    → let q = init_pmm mem_size p in
      (q.max_blocks ≡ mem_size / pmm_block_size)
      × (q.used_blocks ≡ q.max_blocks)
      × (q.max_blocks / pmm_blocks_per_byte ≤ 4 * pmm_bitmap_size)
      × ((f : ℕ) → f < q.max_blocks / pmm_blocks_per_byte * 8 → used q f ≡ 1)
unfolding init_pmm
init_pmm_lem mem_size p h = (
  refl,
  refl,
  omega arith,
  λ f k.
      bit_of_filled (p.memory_map (f / 32))
        (8 * min 4 (mem_size / pmm_block_size / pmm_blocks_per_byte - 4 * (f / 32))) (f % 32)
        (omega arith),
)

-- The marks alone, for any region and any counter.
unset_region-used :
    (n a : ℕ) (p : Pmm) (f : ℕ)
    → used (unset_region n a p) f ≡ (if leb a f && ltb f (a + n) then 0 else used p f)
unfolding unset_region mmap_unset
unset_region-used zero a p f = ground arith
unset_region-used (suc n) a p f =
    let q : Pmm = record (mmap_unset a p) { used_blocks = u32 (p.used_blocks + 2 ^ 32 - 1) } in
    ground (arith, unset_region-used n (a + 1) q f, used-mmap_unset a f p)

set_region-used :
    (n a : ℕ) (p : Pmm) (f : ℕ)
    → used (set_region n a p) f ≡ (if leb a f && ltb f (a + n) then 1 else used p f)
unfolding set_region mmap_set
set_region-used zero a p f = ground arith
set_region-used (suc n) a p f =
    let q : Pmm = record (mmap_set a p) { used_blocks = u32 (p.used_blocks + 1) } in
    ground (arith, set_region-used n (a + 1) q f, used-mmap_set a f p)

pub pmm_init_region-used :
    (base size : ℕ) (p : Pmm) (f : ℕ)
    → 0 < f
    → used (pmm_init_region base size p) f
      ≡ (if leb (base / 4096) f && ltb f (base / 4096 + size / 4096) then 0 else used p f)
unfolding pmm_init_region
pmm_init_region-used base size p f pos =
    let u = unset_region (size / 4096) (base / 4096) p in
    ground (arith, used-mmap_set 0 f u, unset_region-used (size / 4096) (base / 4096) p f)

pub pmm_deinit_region-used :
    (base size : ℕ) (p : Pmm) (f : ℕ)
    → used (pmm_deinit_region base size p) f
      ≡ (if leb (base / 4096) f && ltb f (base / 4096 + size / 4096) then 1 else used p f)
unfolding pmm_deinit_region
pmm_deinit_region-used base size p f = set_region-used (size / 4096) (base / 4096) p f
