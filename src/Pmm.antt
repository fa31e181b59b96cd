-- ===== src/Pmm.antt =====
-- kernel/mm/pmm.c, the physical memory manager: one bit of a bitmap for each 4 KB frame, set while
-- the frame is in use.
--
-- The record holds the four static variables of the file. `memory_map` is the array `bitmap_addr`
-- seen as a function from a word's index, so an index beyond the array reads and writes what lies
-- there. A pointer is its address, and NULL is 0. The two searches return an index; `none` is -1.
pub mod Frames
pub mod Count
pub mod Search
pub mod Alloc
pub mod Setup
pub mod Blocks
pub mod Runs
mod Tests
use unos.Base.{
  ℕ, zero, suc, ◌+◌, ◌-◌, ◌*◌, ◌/◌, ◌%◌, ◌^◌, min, bit_and, bit_or, Bool, true, false, not, Option,
  none, some, ltb, leb, ◌==◌, if◌then◌else◌, u32, not32, update,
}

pub record Pmm : Type 0 where
  pub memory_size : ℕ
  pub used_blocks : ℕ
  pub max_blocks : ℕ
  pub memory_map : ℕ → ℕ

abbrev pub pmm_block_size : ℕ
pmm_block_size = 4096

abbrev pub pmm_blocks_per_byte : ℕ
pmm_blocks_per_byte = 8

abbrev pub pmm_bitmap_size : ℕ
pmm_bitmap_size = 32768

unfoldable pub mmap_set : ℕ → Pmm → Pmm
mmap_set bit p = record p {
  memory_map = update p.memory_map (bit / 32) (bit_or (p.memory_map (bit / 32)) (2 ^ (bit % 32)));
}

pub mmap_unset : ℕ → Pmm → Pmm
mmap_unset bit p = record p {
  memory_map =
      update p.memory_map (bit / 32) (bit_and (p.memory_map (bit / 32)) (not32 (2 ^ (bit % 32))));
}

-- `bit` is an `int`: at a negative one the division rounds to 0, the index goes below the array
-- (addresses have 2 ^ 30 words) and the shift counts modulo 32, as on the x86.
pub mmap_test : ℕ → Pmm → Bool
mmap_test bit p =
    let below = 2 ^ 32 - bit in
    if ltb bit (2 ^ 31)
    then not (bit_and (p.memory_map (bit / 32)) (2 ^ (bit % 32)) == 0)
    else not (
        bit_and (p.memory_map ((2 ^ 30 - below / 32) % 2 ^ 30)) (2 ^ ((32 - below % 32) % 32)) == 0)

pub pmm_get_memory_size : Pmm → ℕ
pmm_get_memory_size p = p.memory_size

abbrev pub pmm_get_block_size : ℕ
pmm_get_block_size = pmm_block_size

unfoldable pub pmm_get_free_block_count : Pmm → ℕ
pmm_get_free_block_count p = u32 (p.max_blocks + 2 ^ 32 - p.used_blocks)

pub pmm_get_used_block_count : Pmm → ℕ
pmm_get_used_block_count p = p.used_blocks

pub pmm_get_block_count : Pmm → ℕ
pmm_get_block_count p = p.max_blocks

-- the inner loop of `mmap_first_free` from bit `j` on, with `rounds` bits left
unfoldable pub scan_bits : (rounds word j : ℕ) → Option ℕ
scan_bits zero word j = none
scan_bits (suc rounds) word j =
    let rest = scan_bits rounds word (j + 1) in if bit_and word (2 ^ j) == 0 then some j else rest

-- the outer loop from word `i` on, with `rounds` words left
unfoldable pub scan_words : (rounds i : ℕ) → Pmm → Option ℕ
scan_words zero i p = none
scan_words (suc rounds) i p =
    let rest = scan_words rounds (i + 1) p in
    let inner = scan_bits 32 (p.memory_map i) 0 in
    if p.memory_map i == 0xffff_ffff
    then rest
    else elim inner [ none ↦ rest | some j ↦ some (i * 4 * 8 + j) ]

unfoldable pub mmap_first_free : Pmm → Option ℕ
unfolding pmm_get_block_count
mmap_first_free p = scan_words (pmm_get_block_count p / 32) 0 p

-- the innermost loop of `mmap_first_free_s`: does `free` reach `size` within `rounds` more bits?
pub run_fits : (rounds start size count free : ℕ) → Pmm → Bool
run_fits zero start size count free p = false
run_fits (suc rounds) start size count free p =
    let free' = if mmap_test (u32 (start + count)) p then free else free + 1 in
    let rest = run_fits rounds start size (count + 1) free' p in
    if free' == size then true else rest

-- `startingBit` is `i * 32 + bit`, where `bit` is the mask `1 << j`
pub scan_bits_s : (rounds size i j : ℕ) → Pmm → Option ℕ
scan_bits_s zero size i j p = none
scan_bits_s (suc rounds) size i j p =
    let rest = scan_bits_s rounds size i (j + 1) p in
    let fits = run_fits (size + 1) (u32 (i * 32 + 2 ^ j)) size 0 0 p in
    if bit_and (p.memory_map i) (2 ^ j) == 0
    then (if fits then some (i * 4 * 8 + j) else rest)
    else rest

pub scan_words_s : (rounds size i : ℕ) → Pmm → Option ℕ
scan_words_s zero size i p = none
scan_words_s (suc rounds) size i p =
    let rest = scan_words_s rounds size (i + 1) p in
    let inner = scan_bits_s 32 size i 0 p in
    if p.memory_map i == 0xffff_ffff
    then rest
    else elim inner [ none ↦ rest | some frame ↦ some frame ]

pub mmap_first_free_s : ℕ → Pmm → Option ℕ
unfolding pmm_get_block_count
mmap_first_free_s size p =
    if size == 0
    then none
    else if size == 1
    then mmap_first_free p
    else scan_words_s (pmm_get_block_count p) size 0 p

-- `memset(_pmm_memory_map, 0xff, n)`: the first `n` bytes of the little-endian words become 0xff
pub memset_map : ℕ → (ℕ → ℕ) → ℕ → ℕ
memset_map n words i =
    let bytes = min 4 (n - 4 * i) in words i - words i % 2 ^ (8 * bytes) + (2 ^ (8 * bytes) - 1)

pub init_pmm : ℕ → Pmm → Pmm
unfolding memset_map
init_pmm mem_size p = record {
  memory_size = mem_size;
  used_blocks = mem_size / pmm_block_size;
  max_blocks = mem_size / pmm_block_size;
  memory_map = memset_map (mem_size / pmm_block_size / pmm_blocks_per_byte) p.memory_map;
}

-- the loop of `pmm_init_region`
pub unset_region : (blocks align : ℕ) → Pmm → Pmm
unset_region zero align p = p
unset_region (suc blocks) align p =
    let q = mmap_unset align p in
    unset_region blocks (align + 1) (record q { used_blocks = u32 (q.used_blocks + 2 ^ 32 - 1) })

pub pmm_init_region : (base size : ℕ) → Pmm → Pmm
pmm_init_region base size p =
    mmap_set 0 (unset_region (size / pmm_block_size) (base / pmm_block_size) p)

-- the loop of `pmm_deinit_region`
pub set_region : (blocks align : ℕ) → Pmm → Pmm
set_region zero align p = p
set_region (suc blocks) align p =
    let q = mmap_set align p in
    set_region blocks (align + 1) (record q { used_blocks = u32 (q.used_blocks + 1) })

pub pmm_deinit_region : (base size : ℕ) → Pmm → Pmm
pmm_deinit_region base size p = set_region (size / pmm_block_size) (base / pmm_block_size) p

-- what follows the search: a frame is taken and its address returned
pub take_frame : Option ℕ → Pmm → ℕ × Pmm
take_frame none p = (0, p)
take_frame (some frame) p =
    let q = mmap_set frame p in
    (u32 (frame * pmm_block_size), record q { used_blocks = u32 (q.used_blocks + 1) })

unfoldable pub pmm_alloc_block : Pmm → ℕ × Pmm
unfolding take_frame pmm_get_free_block_count
pmm_alloc_block p =
    if leb (pmm_get_free_block_count p) 0 then (0, p) else take_frame (mmap_first_free p) p

pub pmm_free_block : ℕ → Pmm → Pmm
pmm_free_block addr p =
    let q = mmap_unset (addr / pmm_block_size) p in
    record q { used_blocks = u32 (q.used_blocks + 2 ^ 32 - 1) }

-- the marking loops of `pmm_alloc_blocks` and `pmm_free_blocks`
pub set_frames : (size frame : ℕ) → Pmm → Pmm
set_frames zero frame p = p
set_frames (suc size) frame p = set_frames size (frame + 1) (mmap_set frame p)

pub unset_frames : (size frame : ℕ) → Pmm → Pmm
unset_frames zero frame p = p
unset_frames (suc size) frame p = unset_frames size (frame + 1) (mmap_unset frame p)

pub take_frames : ℕ → Option ℕ → Pmm → ℕ × Pmm
take_frames size none p = (0, p)
take_frames size (some frame) p =
    let q = set_frames size frame p in
    (u32 (frame * pmm_block_size), record q { used_blocks = u32 (q.used_blocks + size) })

pub pmm_alloc_blocks : ℕ → Pmm → ℕ × Pmm
unfolding take_frames pmm_get_free_block_count
pmm_alloc_blocks size p =
    if leb (pmm_get_free_block_count p) size
    then (0, p)
    else take_frames size (mmap_first_free_s size p) p

pub pmm_free_blocks : (addr size : ℕ) → Pmm → Pmm
pmm_free_blocks addr size p =
    let q = unset_frames size (addr / pmm_block_size) p in
    record q { used_blocks = u32 (q.used_blocks + 2 ^ 32 - size) }
