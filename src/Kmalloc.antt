-- ===== src/Kmalloc.antt =====
-- kernel/mm/kmalloc.c: a heap of blocks with a header and a footer, its boundary tags.
--
-- A block's pointer goes to its payload, 4 bytes behind its header. The search over the blocks runs on
-- fuel. The check of the heap and the printing of a block only print.
pub mod Tags
pub mod Blocks
pub mod Coalesce
pub mod Extend
pub mod Place
pub mod Heap
pub mod Serve
pub mod Start
pub mod Runs
pub mod Free
mod Tests
use unos.Base.{
  ℕ, zero, suc, ◌+◌, ◌*◌, ◌/◌, ◌%◌, ◌^◌, ◌-◌, Bool, true, false, not, ◌&&◌, Option, none, some,
  bit_and, bit_or, ltb, leb, ◌==◌, if◌then◌else◌, u32,
}
use unos.Memory.{Memory, load32, store32}
use unos.Dmm.{Dmm, dmm_sbrk}

abbrev pub wsize : ℕ
wsize = 4

abbrev pub dsize : ℕ
dsize = 8

abbrev pub chunksize : ℕ
chunksize = 4096

abbrev pub overhead : ℕ
overhead = 8

pub record Kheap : Type 0 where
  pub memory : Memory
  pub heap_listp : ℕ
  pub dmm : Dmm

abbrev pub pack : (size alloc : ℕ) → ℕ
pack size alloc = bit_or size alloc

unfoldable pub get_size : ℕ → Memory → ℕ
get_size p m = bit_and (load32 p m) 0xffff_fff8

unfoldable pub get_alloc : ℕ → Memory → ℕ
get_alloc p m = bit_and (load32 p m) 0xffff_fffe

abbrev pub hdrp : ℕ → ℕ
hdrp bp = u32 (bp + 2 ^ 32 - wsize)

abbrev pub ftrp : ℕ → Memory → ℕ
ftrp bp m = u32 (bp + get_size (hdrp bp) m + 2 ^ 32 - dsize)

abbrev pub next_blkp : ℕ → Memory → ℕ
next_blkp bp m = u32 (bp + get_size (hdrp bp) m)

abbrev pub prev_blkp : ℕ → Memory → ℕ
prev_blkp bp m = u32 (bp + 2 ^ 32 - get_size (u32 (bp + 2 ^ 32 - dsize)) m)

-- a block's header and then its footer, whose place the header gives
pub put_tags : (bp size alloc : ℕ) → Memory → Memory
put_tags bp size alloc m =
    let m' = store32 (hdrp bp) (pack size alloc) m in store32 (ftrp bp m') (pack size alloc) m'

-- the two branches of `coalesce` with a free block before `bp`
pub join_prev : (bp size : ℕ) → Memory → ℕ × Memory
join_prev bp size m =
    let total = u32 (size + get_size (hdrp (prev_blkp bp m)) m) in
    let m1 = store32 (ftrp bp m) (pack total 0) m in
    let m2 = store32 (hdrp (prev_blkp bp m1)) (pack total 0) m1 in (prev_blkp bp m2, m2)

pub join_both : (bp size : ℕ) → Memory → ℕ × Memory
join_both bp size m =
    let total =
      u32 (size + (get_size (hdrp (prev_blkp bp m)) m + get_size (ftrp (next_blkp bp m) m) m)) in
    let m1 = store32 (hdrp (prev_blkp bp m)) (pack total 0) m in
    let m2 = store32 (ftrp (next_blkp bp m1) m1) (pack total 0) m1 in (prev_blkp bp m2, m2)

pub coalesce : ℕ → Memory → ℕ × Memory
unfolding put_tags join_prev join_both
coalesce bp m =
    let prev_alloc = get_alloc (ftrp (prev_blkp bp m) m) m in
    let next_alloc = get_alloc (hdrp (next_blkp bp m)) m in
    let size = get_size (hdrp bp) m in
    if not (prev_alloc == 0) && not (next_alloc == 0)
    then (bp, m)
    else if not (prev_alloc == 0)
    then (bp, put_tags bp (u32 (size + get_size (hdrp (next_blkp bp m)) m)) 0 m)
    else if not (next_alloc == 0)
    then join_prev bp size m
    else join_both bp size m

-- the new block's tags and the new end, where the memory is there
pub new_block : (bp size : ℕ) → Memory → ℕ × Memory
unfolding put_tags coalesce
new_block bp size m =
    let m' = put_tags bp size 0 m in coalesce bp (store32 (hdrp (next_blkp bp m')) (pack 0 1) m')

-- how much `extend_heap` asks for
abbrev pub even_words : ℕ → ℕ
even_words words = if words % 2 == 0 then u32 (words * wsize) else u32 (u32 (words + 1) * wsize)

pub extend_with : (size : ℕ) → Option (ℕ × Dmm) → Kheap → Option (ℕ × Kheap)
unfolding new_block
extend_with size none s = none
extend_with size (some (bp, dmm)) s =
    let block = new_block bp size s.memory in
    if leb (2 ^ 31) bp
    then some (0, record s { dmm = dmm })
    else some (block.0, record s { dmm = dmm; memory = block.1 })

-- the pointer is 0 where the break is negative as an `int`
pub extend_heap : (words : ℕ) → Kheap → Option (ℕ × Kheap)
unfolding extend_with
extend_heap words s = extend_with (even_words words) (dmm_sbrk (even_words words) s.dmm) s

-- the rest of a block that is too large becomes a free block
pub place : (bp asize : ℕ) → Memory → Memory
unfolding put_tags
place bp asize m =
    let csize = get_size (hdrp bp) m in
    let rest = u32 (csize + 2 ^ 32 - asize) in
    let m' = put_tags bp asize 1 m in
    if leb (dsize + overhead) rest
    then put_tags (next_blkp bp m') rest 0 m'
    else put_tags bp csize 1 m

pub data Fit : Type 0 where
  fit : ℕ → Fit
  no_fit : Fit
  no_fuel : Fit

pub find_fit : (fuel bp asize : ℕ) → Memory → Fit
find_fit zero bp asize m = no_fuel
find_fit (suc fuel) bp asize m =
    let rest = find_fit fuel (next_blkp bp m) asize m in
    if get_size (hdrp bp) m == 0
    then no_fit
    else if (get_alloc (hdrp bp) m == 0) && leb asize (get_size (hdrp bp) m)
    then fit bp
    else rest

pub data Outcome : Type 0 where
  returned : ℕ → Kheap → Outcome
  panic : Outcome
  out_of_fuel : Outcome

-- the end of `mm_malloc`, with the memory that it got
pub place_new : (asize : ℕ) → Option (ℕ × Kheap) → Outcome
unfolding place
place_new asize none = panic
place_new asize (some (bp, s)) =
    if bp == 0 then returned 0 s else returned bp (record s { memory = place bp asize s.memory })

-- `mm_malloc` from the result of the search on
pub take_fit : (asize : ℕ) → Fit → Kheap → Outcome
unfolding place place_new extend_heap
take_fit asize (fit bp) s = returned bp (record s { memory = place bp asize s.memory })
take_fit asize no_fit s =
    place_new asize (extend_heap ((if ltb chunksize asize then asize else chunksize) / wsize) s)
take_fit asize no_fuel s = out_of_fuel

-- the size with its tags, a multiple of 8
abbrev pub adjusted : ℕ → ℕ
adjusted size =
    if leb size dsize
    then dsize + overhead
    else u32 (dsize * (u32 (size + overhead + (dsize - 1)) / dsize))

pub mm_malloc : (fuel size : ℕ) → Kheap → Outcome
unfolding take_fit find_fit
mm_malloc fuel size s =
    if size == 0
    then returned 0 s
    else take_fit (adjusted size) (find_fit fuel s.heap_listp (adjusted size) s.memory) s

pub mm_free : (bp : ℕ) → Kheap → Kheap
unfolding coalesce put_tags
mm_free bp s =
    let size = get_size (hdrp bp) s.memory in
    record s { memory = (coalesce bp (put_tags bp size 0 s.memory)).1 }

-- the four words at the start, and the first chunk; the pointer is 0 where either fails
pub init_with : Option (ℕ × Dmm) → Kheap → Option (ℕ × Kheap)
unfolding extend_heap
init_with none s = none
init_with (some (p, dmm)) s =
    let m1 = store32 p 0 s.memory in
    let m2 = store32 (u32 (p + wsize)) (pack overhead 1) m1 in
    let m3 = store32 (u32 (p + dsize)) (pack overhead 1) m2 in
    let m4 = store32 (u32 (p + wsize + dsize)) (pack 0 1) m3 in
    if p == 0
    then some (0, record s { dmm = dmm; heap_listp = 0 })
    else extend_heap (chunksize / wsize)
        (record s { dmm = dmm; heap_listp = u32 (p + dsize); memory = m4 })

-- the result of `mm_init`: 0, or -1 where the heap has no first block
pub init_result : Option (ℕ × Kheap) → Option (ℕ × Kheap)
init_result none = none
init_result (some (bp, s)) = some (if bp == 0 then 2 ^ 32 - 1 else 0, s)

pub mm_init : Kheap → Option (ℕ × Kheap)
unfolding init_with init_result
mm_init s = init_result (init_with (dmm_sbrk (4 * wsize) s.dmm) s)
