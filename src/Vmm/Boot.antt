-- ===== src/Vmm/Boot.antt =====
-- `init_paging` of kernel/mm/vmm.c: the tables that the kernel starts with. The handler of page faults,
-- which the function registers, is left out.
pub mod Identity
pub mod Paging
use unos.Base.{
  ℕ, zero, suc, ◌+◌, ◌*◌, true, Option, none, some, bit_and, bit_or, ◌==◌, if◌then◌else◌,
}
use unos.Memory.{Memory, store32}
use unos.Strings.{memset}
use unos.Pmm.{pmm_alloc_block}
use unos.Vmm.{
  Vmm, sizeof_pt, page_directory_index, page_table_index, switch_page_directory, enable_paging,
}

-- `PTE_PRESENT | PTE_WRITABLE | PTE_USER`, and the same of the directory's entries
abbrev pub page_attributes : ℕ
page_attributes = 7

-- the loops that fill a table, with `rounds` left
pub fill_table : (rounds frame virt table : ℕ) → Memory → Memory
fill_table zero frame virt table m = m
fill_table (suc rounds) frame virt table m =
    let page = bit_or (bit_and frame 0xffff_f000) page_attributes in
    fill_table rounds (frame + 4096) (virt + 4096) table
      (store32 (table + 4 * page_table_index virt) page m)

-- a directory's entry for a table
pub enter_table : (dir virt table : ℕ) → Memory → Memory
enter_table dir virt table m =
    store32 (dir + 4 * page_directory_index virt)
      (bit_or (bit_and table 0xffff_f000) page_attributes) m

-- the end of the function, with the directory's frame
pub start_paging : (identity_table kernel_table dir : ℕ) → Vmm → Vmm
unfolding enter_table
start_paging identity_table kernel_table dir s =
    let m =
      enter_table dir 0xC000_0000 kernel_table
        (enter_table dir 0 identity_table (memset dir 0 sizeof_pt s.memory)) in
    enable_paging true (switch_page_directory dir (record s { memory = m })).1

-- the function from the two loops on
pub make_directory : (identity_table kernel_table : ℕ) → Vmm → Option ℕ × Vmm
unfolding start_paging
make_directory identity_table kernel_table s =
    let m =
      fill_table 1024 0 0xC000_0000 kernel_table (fill_table 1024 0 0 identity_table s.memory) in
    let grant = pmm_alloc_block s.pmm in
    let s' = record s { memory = m; pmm = grant.1 } in
    if grant.0 == 0
    then (some 0, s')
    else (some grant.0, start_paging identity_table kernel_table grant.0 s')

-- the function from the second table on
pub make_kernel_table : (identity_table : ℕ) → Vmm → Option ℕ × Vmm
make_kernel_table identity_table s =
    let grant = pmm_alloc_block s.pmm in
    let s' = record s { pmm = grant.1 } in
    if grant.0 == 0
    then (none, s')
    else make_directory identity_table grant.0
        (record s' { memory = memset grant.0 0 sizeof_pt s.memory })

-- What it leaves in `kpage_dir` comes first; `none` is that it returns before it writes there.
pub init_paging : Vmm → Option ℕ × Vmm
init_paging s =
    let grant = pmm_alloc_block s.pmm in
    let s' = record s { pmm = grant.1 } in
    if grant.0 == 0
    then (none, s')
    else make_kernel_table grant.0 (record s' { memory = memset grant.0 0 sizeof_pt s.memory })
