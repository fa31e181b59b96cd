-- ===== src/Malloc.antt =====
-- kernel/mm/malloc.c, the kernel's heap: blocks one behind the other, each a header of 8 bytes
-- (`alloc_t`: the status byte at offset 0, the size at offset 4), the payload, and 4 bytes more.
--
-- The record holds the file's globals and the memory. `PANIC` stops the machine: an outcome. The
-- walk over the blocks runs on fuel; running out of it is an outcome of its own, which a heap of
-- well-formed blocks never has. The messages that `printf` writes are left out.
pub mod Chain
pub mod Walk
pub mod Laws
pub mod Account
pub mod Live
pub mod Owners
pub mod Runs
pub mod Writes
pub mod Served
pub mod Cleared
mod Tests
use unos.Base.{
  ℕ, zero, suc, ◌+◌, ◌-◌, ◌*◌, ◌%◌, ◌^◌, Bool, true, false, not, ltb, leb, ◌==◌, if◌then◌else◌, u32,
  update,
}
use unos.Memory.{Memory, load32, store32}
use unos.Strings.{memset}

pub record Mm : Type 0 where
  pub memory : Memory
  pub last_alloc : ℕ
  pub heap_end : ℕ
  pub heap_begin : ℕ
  pub pheap_begin : ℕ
  pub pheap_end : ℕ
  pub pheap_desc : ℕ
  pub memory_used : ℕ

abbrev pub max_page_aligned_allocs : ℕ
max_page_aligned_allocs = 32

-- `sizeof(alloc_t)`
abbrev pub sizeof_alloc : ℕ
sizeof_alloc = 8

abbrev pub status_at : ℕ → Memory → ℕ
status_at a m = m a

abbrev pub size_at : ℕ → Memory → ℕ
size_at a m = load32 (a + 4) m

-- how the walk over the blocks ends: at the label `nalloc`, or with a block to use again
pub data Found : Type 0 where
  nalloc : Found
  reuse : ℕ → Found
  no_fuel : Found

pub find_block : (fuel mem size : ℕ) → Mm → Found
find_block zero mem size mm = no_fuel
find_block (suc fuel) mem size mm =
    let a_size = size_at mem mm.memory in
    let rest = find_block fuel (u32 (u32 (u32 (mem + a_size) + sizeof_alloc) + 4)) size mm in
    if ltb mem mm.last_alloc
    then (if a_size == 0
        then nalloc
        else if not (status_at mem mm.memory == 0)
        then rest
        else if leb size a_size
        then reuse mem
        else rest)
    else nalloc

pub data Outcome : Type 0 where
  returned : ℕ → Mm → Outcome
  panic : Outcome
  out_of_fuel : Outcome

-- a block that was found free
pub reuse_block : (mem size : ℕ) → Mm → Outcome
reuse_block mem size mm = returned (u32 (mem + sizeof_alloc)) (record mm {
  memory = memset (mem + sizeof_alloc) 0 size (update mm.memory mem 1);
  memory_used = u32 (mm.memory_used + size + sizeof_alloc);
})

-- the label `nalloc`: a new block at the end
pub new_block : ℕ → Mm → Outcome
new_block size mm =
    let alloc = mm.last_alloc in
    if leb mm.heap_end (u32 (mm.last_alloc + size + sizeof_alloc))
    then panic
    else returned (u32 (alloc + sizeof_alloc)) (record mm {
      memory =
          memset (u32 (alloc + sizeof_alloc)) 0 size
            (store32 (alloc + 4) size (update mm.memory alloc 1));
      last_alloc = u32 (u32 (u32 (mm.last_alloc + size) + sizeof_alloc) + 4);
      memory_used = u32 (mm.memory_used + size + 4 + sizeof_alloc);
    })

pub place : ℕ → Found → Mm → Outcome
unfolding reuse_block new_block
place size nalloc mm = new_block size mm
place size (reuse mem) mm = reuse_block mem size mm
place size no_fuel mm = out_of_fuel

pub malloc : ℕ → Mm → Outcome
unfolding place find_block
malloc size mm =
    if size == 0
    then returned 0 mm
    else place size (find_block (mm.last_alloc + 1) mm.heap_begin size mm) mm

pub free : ℕ → Mm → Mm
free mem mm =
    let alloc = u32 (mem + 2 ^ 32 - sizeof_alloc) in
    record mm {
      memory_used = u32 (mm.memory_used + 2 ^ 32 - u32 (size_at alloc mm.memory + sizeof_alloc));
      memory = update mm.memory alloc 0;
    }

abbrev pub kfree : ℕ → Mm → Mm
kfree ptr mm = free ptr mm

-- what `kcalloc` does with the result of `malloc`
pub clear_result : (bytes : ℕ) → Outcome → Outcome
clear_result bytes (returned ptr mm) =
    returned ptr (record mm { memory = memset ptr 0 bytes mm.memory })
clear_result bytes panic = panic
clear_result bytes out_of_fuel = out_of_fuel

pub kcalloc : (num size : ℕ) → Mm → Outcome
unfolding clear_result malloc
kcalloc num size mm = clear_result (u32 (num * size)) (malloc (u32 (num * size)) mm)

-- what `init_mm` does with the result of `malloc`
pub set_desc : Outcome → Outcome
set_desc (returned ptr mm) = returned ptr (record mm { pheap_desc = ptr })
set_desc panic = panic
set_desc out_of_fuel = out_of_fuel

pub init_mm : (start end : ℕ) → Mm → Outcome
unfolding set_desc malloc
init_mm start end mm =
    let pheap_begin = u32 (end + 2 ^ 32 - max_page_aligned_allocs * 4096) in
    set_desc (
      malloc max_page_aligned_allocs (record mm {
        memory = memset start 0 (u32 (pheap_begin + 2 ^ 32 - start)) mm.memory;
        last_alloc = start;
        heap_begin = start;
        pheap_end = end;
        pheap_begin = pheap_begin;
        heap_end = pheap_begin;
      }))
