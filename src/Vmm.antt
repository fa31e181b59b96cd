-- ===== src/Vmm.antt =====
-- kernel/mm/vmm.c: page directories and page tables, two levels of 1024 entries.
--
-- The record holds the memory, in which the tables lie at their physical addresses, the state of the
-- physical memory manager, the file's globals and the two control registers. `vmm_flush_tlb_entry`
-- and the page fault's message leave that state alone.
pub mod Map
pub mod Boot
mod Tests
use unos.Base.{
  ℕ, zero, suc, ◌+◌, ◌-◌, ◌*◌, ◌^◌, Bool, true, false, not, Option, none, some, bit_and, bit_or,
  u32, shl, shr, leb, ◌==◌, if◌then◌else◌,
}
use unos.Memory.{Memory, load32, store32}
use unos.Strings.{memset}
use unos.Pmm.{Pmm, pmm_block_size, pmm_alloc_block, pmm_alloc_blocks, pmm_free_block}

pub record Vmm : Type 0 where
  pub memory : Memory
  pub pmm : Pmm
  pub cur_dir : ℕ
  pub cr3 : ℕ
  pub cr0 : ℕ

abbrev pub pte_present : ℕ
pte_present = 1

-- `sizeof(pt_t)`
abbrev pub sizeof_pt : ℕ
sizeof_pt = 4096

abbrev pub page_directory_index : ℕ → ℕ
page_directory_index x = bit_and (shr x 22) 0x3ff

abbrev pub page_table_index : ℕ → ℕ
page_table_index x = bit_and (shr x 12) 0x3ff

abbrev pub page_frame_index : ℕ → ℕ
page_frame_index x = shr (bit_and (u32 (shl x 20)) 0xfff0_0000) 20

abbrev pub page_get_physical_address : ℕ → ℕ
page_get_physical_address x = bit_and x 0xffff_f000

pub virt2phys : (dir virt_addr : ℕ) → Vmm → ℕ
virt2phys dir virt_addr s =
    let table = load32 (dir + 4 * page_directory_index virt_addr) s.memory in
    let frame = load32 (bit_and table 0xf_ffff_f000 + 4 * page_table_index virt_addr) s.memory in
    if dir == 0
    then u32 (virt_addr + 2 ^ 32 - 0xc000_0000)
    else if table == 0
    then 0
    else if frame == 0
    then 0
    else u32 (bit_or (bit_and frame 0xf_ffff_f000) (page_frame_index virt_addr))

-- the addresses of the two entries
abbrev pub vmm_pt_lookup_entry : (p virt_addr : ℕ) → ℕ
vmm_pt_lookup_entry p virt_addr = if p == 0 then 0 else p + 4 * page_table_index virt_addr

abbrev pub vmm_pd_lookup_entry : (p virt_addr : ℕ) → ℕ
vmm_pd_lookup_entry p virt_addr = if p == 0 then 0 else p + 4 * page_directory_index virt_addr

pub vmm_free_page : (e : ℕ) → Vmm → Vmm
vmm_free_page e s =
    let p = bit_and (load32 e s.memory) 0xffff_f000 in
    record s {
      pmm = if p == 0 then s.pmm else pmm_free_block p s.pmm;
      memory = store32 e (bit_and (load32 e s.memory) (2 ^ 32 - 1 - pte_present)) s.memory;
    }

pub switch_page_directory : ℕ → Vmm → Bool × Vmm
switch_page_directory dir s =
    if dir == 0 then (false, s) else (true, record s { cur_dir = dir; cr3 = dir })

pub enable_paging : Bool → Vmm → Vmm
enable_paging true s = record s { cr0 = bit_or s.cr0 0x8000_0000 }
enable_paging false s = record s { cr0 = bit_and s.cr0 0x7fff_ffff }

abbrev pub vmm_get_directory : Vmm → ℕ
vmm_get_directory s = s.cur_dir

-- the last two statements of `vmm_map_page`: the entry of the page in the table of `e`
pub map_entry : (e phys virt attr : ℕ) → Vmm → Vmm
map_entry e phys virt attr s =
    let table = page_get_physical_address (load32 e s.memory) in
    record s {
      memory =
          store32 (table + 4 * page_table_index virt) (bit_or (bit_and phys 0xf_ffff_f000) attr)
            s.memory;
    }

-- the new table's entry in the directory
pub add_table : (e table attr : ℕ) → Vmm → Vmm
add_table e table attr s = record s {
  memory = store32 e (bit_or (bit_and table 0xffff_f000) attr) (memset table 0 sizeof_pt s.memory);
}

pub vmm_map_page : (dir phys virt attr : ℕ) → Vmm → Vmm
unfolding map_entry add_table
vmm_map_page dir phys virt attr s =
    let e = dir + 4 * page_directory_index virt in
    let grant = pmm_alloc_block s.pmm in
    let s' = record s { pmm = grant.1 } in
    if bit_and (load32 e s.memory) pte_present == pte_present
    then map_entry e phys virt attr s
    else if grant.0 == 0
    then s'
    else map_entry e phys virt attr (add_table e grant.0 attr s')

-- The loop of `vmm_alloc_page`, on fuel: `none` is running out of it.
pub alloc_loop : (fuel i page_count dir p va attr : ℕ) → Vmm → Option Vmm
unfolding vmm_map_page
alloc_loop zero i page_count dir p va attr s = none
alloc_loop (suc fuel) i page_count dir p va attr s =
    let mapped =
      vmm_map_page dir (u32 (p + i * pmm_block_size)) (u32 (va + i * pmm_block_size)) attr s in
    let rest = alloc_loop fuel i (u32 (page_count + 1)) dir p va attr mapped in
    if leb i page_count then rest else some s

pub vmm_alloc_page : (fuel dir va sz attr : ℕ) → Vmm → Option Vmm
unfolding alloc_loop
vmm_alloc_page fuel dir va sz attr s =
    let page_count = u32 (sz + 2 ^ 32 - 1) in
    let grant = pmm_alloc_blocks (u32 (page_count + 1)) s.pmm in
    if dir == 0
    then none
    else alloc_loop fuel 0 page_count dir grant.0 va attr (record s { pmm = grant.1 })
