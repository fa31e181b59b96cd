-- ===== src/Boot/Frames.antt =====
-- Which frames are free when `kmain` has read the memory map.
use unos.Base.{
  ℕ, zero, suc, ◌+◌, ◌-◌, ◌*◌, ◌/◌, ◌^◌, ◌<◌, ◌≤◌, ◌≡◌, refl, arith, Bool, true, false, ◌==◌, ◌&&◌,
  ◌||◌, not, ltb, leb, if◌then◌else◌, u32, ◌∙◌, ap, Bool-cases, inl, inr,
}
use unos.Pmm.{Pmm, pmm_bitmap_size, init_pmm, pmm_init_region, pmm_deinit_region}
use unos.Pmm.Frames.{used}
use unos.Pmm.Setup.{pmm_init_region-used, pmm_deinit_region-used, init_pmm_lem}
use unos.Boot.{MmapEntry, MultibootInfo, init_regions, map_size, kmain_frames}

-- Frame `f` is one of the whole frames counted from that of `base`.
abbrev pub within : (base size f : ℕ) → Bool
within base size f = leb (base / 4096) f && ltb f (base / 4096 + size / 4096)

-- one of the entries from `i` on, `rounds` of them, is available memory that has the frame
abbrev pub is_available : (rounds i : ℕ) (map : ℕ → MmapEntry) (f : ℕ) → Bool
is_available zero i map f = false
is_available (suc rounds) i map f =
    (((map i).type == 1) && within (map i).addr_low (map i).len_low f)
    || is_available rounds (i + 1) map f

init_regions-used :
    (rounds i : ℕ) (map : ℕ → MmapEntry) (p : Pmm) (f : ℕ)
    → 0 < f
    → used (init_regions rounds i map p) f ≡ (if is_available rounds i map f then 0 else used p f)
unfolding init_regions
init_regions-used zero i map p f pos = refl
init_regions-used (suc rounds) i map p f pos =
    let region = pmm_init_region-used (map i).addr_low (map i).len_low p f pos in
    let next =
      if (map i).type == 1 then pmm_init_region (map i).addr_low (map i).len_low p else p in
    init_regions-used rounds (i + 1) map next f pos ∙ elim (Bool-cases ((map i).type == 1)) [
      | inl is ↦ rw (is) (ground (arith, region))
      | inr not_is ↦ rw (not_is) (ground arith)
    ]

-- The kernel's first byte is not above its end. Once `kmain` has read the map, a frame other than 0,
-- below the memory's end by whole bytes of the bitmap, is free exactly where an entry of available
-- memory has it and neither of two regions does, each by whole frames: the one from `kernel_start` whose
-- size is a quarter of the kernel's bytes, and the one from `kernel_end` whose size is 0x400000 less
-- `kernel_end`, modulo 2 ^ 32.
pub kmain_frames-used :
    (kernel_start kernel_end f : ℕ) (mb_info : MultibootInfo) (p : Pmm)
    → kernel_start ≤ kernel_end
    → kernel_end < 2 ^ 32
    → 0 < f
    → f < u32 (0x100000 + u32 (mb_info.mem_upper * 1024)) / 4096 / 8 * 8
    → used (kmain_frames kernel_start kernel_end mb_info p) f ≡ (
        if is_available (map_size mb_info) 0 mb_info.mmap f
          && not (
              within kernel_start ((kernel_end - kernel_start) / 4) f
              || within kernel_end (u32 (0x400000 + 2 ^ 32 - kernel_end)) f)
        then 0
        else 1)
unfolding kmain_frames
kmain_frames-used kernel_start kernel_end f mb_info p order last pos low =
    let mem = u32 (0x100000 + u32 (mb_info.mem_upper * 1024)) in
    let p1 = init_pmm mem p in
    let p2 = init_regions (map_size mb_info) 0 mb_info.mmap p1 in
    let p3 = pmm_deinit_region kernel_start (u32 (kernel_end + 2 ^ 32 - kernel_start) / 4) p2 in
    let (limit, counter, inside, filled) = init_pmm_lem mem p (omega arith) in
    let all = filled f (omega (arith, limit, low)) in
    let read = init_regions-used (map_size mb_info) 0 mb_info.mmap p1 f pos in
    let bytes : u32 (kernel_end + 2 ^ 32 - kernel_start) ≡ kernel_end - kernel_start =
      omega arith in
    let first =
      pmm_deinit_region-used kernel_start (u32 (kernel_end + 2 ^ 32 - kernel_start) / 4) p2 f in
    let second = pmm_deinit_region-used kernel_end (u32 (0x400000 + 2 ^ 32 - kernel_end)) p3 f in
    second ∙ ground (arith, first, read, all, ap (λ d. d / 4) bytes)

-- The linker puts both symbols above 0xc0000000, not at the addresses in physical memory: then no frame
-- below 0xc0000000 is reserved, those of the kernel neither. Each is free that available memory has.
pub kmain_frames_of_kernel :
    (kernel_start kernel_end f : ℕ) (mb_info : MultibootInfo) (p : Pmm)
    → 0xc000_0000 ≤ kernel_start
    → kernel_start ≤ kernel_end
    → kernel_end < 2 ^ 32
    → 0 < f
    → f < 0xc0000
    → f < u32 (0x100000 + u32 (mb_info.mem_upper * 1024)) / 4096 / 8 * 8
    → is_available (map_size mb_info) 0 mb_info.mmap f ≡ true
    → used (kmain_frames kernel_start kernel_end mb_info p) f ≡ 0
kmain_frames_of_kernel kernel_start kernel_end f mb_info p high order last pos small low free =
    kmain_frames-used kernel_start kernel_end f mb_info p order last pos low ∙ ground (arith, free)

-- With such symbols the second region goes beyond the bitmap: the 1024 digits behind its last word, in
-- whatever lies there, are set.
pub kmain_frames-past_bitmap :
    (kernel_start pages i : ℕ) (mb_info : MultibootInfo) (p : Pmm)
    → 0xc0000 ≤ pages
    → pages < 2 ^ 20
    → i < 1024
    → used (kmain_frames kernel_start (pages * 4096) mb_info p) (pmm_bitmap_size * 32 + i) ≡ 1
unfolding kmain_frames
kmain_frames-past_bitmap kernel_start pages i mb_info p high low small =
    let kernel_end = pages * 4096 in
    let mem = u32 (0x100000 + u32 (mb_info.mem_upper * 1024)) in
    let p2 = init_regions (map_size mb_info) 0 mb_info.mmap (init_pmm mem p) in
    let p3 = pmm_deinit_region kernel_start (u32 (kernel_end + 2 ^ 32 - kernel_start) / 4) p2 in
    ground (
      arith,
      pmm_deinit_region-used kernel_end (u32 (0x400000 + 2 ^ 32 - kernel_end)) p3
          (pmm_bitmap_size * 32 + i),
    )
