-- ===== src/Boot.antt =====
-- kernel/kernel.c: what `kmain` does with the memory map of the boot loader.
--
-- The map's entries are a function of their number. The addresses of the kernel's first byte and of its
-- end, which the linker sets, are arguments, the first not above the second. The lines that `kmain` prints are left out.
pub mod Frames
mod Tests
use unos.Base.{ℕ, zero, suc, ◌+◌, ◌-◌, ◌*◌, ◌/◌, ◌^◌, ◌==◌, if◌then◌else◌, u8, u32}
use unos.Pmm.{Pmm, init_pmm, pmm_init_region, pmm_deinit_region}

pub record MmapEntry : Type 0 where
  pub addr_low : ℕ
  pub len_low : ℕ
  pub type : ℕ

pub record MultibootInfo : Type 0 where
  pub mem_upper : ℕ
  pub mmap_length : ℕ
  pub mmap : ℕ → MmapEntry

abbrev pub multiboot_memory_available : ℕ
multiboot_memory_available = 1

-- `sizeof(multiboot_memory_map_t)`
abbrev pub sizeof_entry : ℕ
sizeof_entry = 24

abbrev pub mem_1mb : ℕ
mem_1mb = 0x100000

-- the loop over the entries from `i` on, with `rounds` left
pub init_regions : (rounds i : ℕ) (map : ℕ → MmapEntry) → Pmm → Pmm
init_regions zero i map p = p
init_regions (suc rounds) i map p = init_regions rounds (i + 1) map (
    if (map i).type == multiboot_memory_available
    then pmm_init_region (map i).addr_low (map i).len_low p
    else p)

abbrev pub map_size : MultibootInfo → ℕ
map_size mb_info = u8 (mb_info.mmap_length / sizeof_entry)

-- The lines of `kmain` on the frames. Both symbols are declared `uint32_t`, so the difference of their
-- addresses counts words of 4 bytes; the second size is a difference of two numbers, in bytes.
pub kmain_frames : (kernel_start kernel_end : ℕ) (mb_info : MultibootInfo) → Pmm → Pmm
unfolding init_regions
kmain_frames kernel_start kernel_end mb_info p =
    let p1 = init_pmm (u32 (mem_1mb + u32 (mb_info.mem_upper * 2 ^ 10))) p in
    let p2 = init_regions (map_size mb_info) 0 mb_info.mmap p1 in
    let p3 = pmm_deinit_region kernel_start (u32 (kernel_end + 2 ^ 32 - kernel_start) / 4) p2 in
    pmm_deinit_region kernel_end (u32 (0x400000 + 2 ^ 32 - kernel_end)) p3
