-- ===== src/Vmm/Tests.antt =====
-- Mapping a page through a table that the directory has, with no frame free, and the first tables.
use unos.Base.{◌<◌, ℕ, ◌+◌, ◌*◌, ◌/◌, ◌%◌, ◌≡◌, ◌≢◌, ◌⊎◌, arith, ◌==◌, if◌then◌else◌, refl, some}
use unos.Pmm.{
  mmap_first_free, scan_words, scan_bits, mmap_set, pmm_get_free_block_count, Pmm, pmm_alloc_block,
}
use unos.Pmm.Count.{IsAccurate}
use unos.Vmm.Boot.{init_paging}
use unos.Vmm.Boot.Paging.{IsStarted, init_paging-IsStarted}
use unos.Memory.{load32}
use unos.Vmm.{Vmm, page_directory_index, virt2phys, vmm_map_page}
use unos.Vmm.Map.{virt2phys-vmm_map_page}

abbrev no_frame : Pmm
no_frame = record {
  memory_size = 262144;
  used_blocks = 64;
  max_blocks = 64;
  memory_map = λ i. 0xffff_ffff;
}

-- the directory is page 2, its entry for addresses from 0xc0000000 on names the table in page 3
abbrev tables : Vmm
tables = record {
  memory = λ j. if j == 11264 then 3 else if j == 11265 then 0x30 else 0;
  pmm = no_frame;
  cur_dir = 8192;
  cr3 = 8192;
  cr0 = 0;
}

tables-bytes : (j : ℕ) → tables.memory j < 256
tables-bytes j = ground arith

no_grant : (pmm_alloc_block no_frame).0 ≢ 2 * 4096
unfolding pmm_alloc_block pmm_get_free_block_count
no_grant = omega arith

other_page : 2 ≢ load32 (2 * 4096 + 4 * page_directory_index 0xc0001234) tables.memory / 4096
unfolding load32
other_page = omega arith

virt2phys-vmm_map_page_example :
    ((load32 (2 * 4096 + 4 * page_directory_index 0xc0001234) tables.memory % 2 ≡ 0)
      × ((pmm_alloc_block no_frame).0 ≡ 0)
      × (vmm_map_page (2 * 4096) 0x5678 0xc0001234 7 tables
          ≡ record tables { pmm = (pmm_alloc_block no_frame).1 }))
    ⊎ (virt2phys (2 * 4096) 0xc0001234 (vmm_map_page (2 * 4096) 0x5678 0xc0001234 7 tables)
        ≡ 0x5678 / 4096 * 4096 + 0xc0001234 % 4096)
virt2phys-vmm_map_page_example =
    virt2phys-vmm_map_page 2 0x5678 0xc0001234 7 tables (omega arith) (omega arith) (omega arith)
      (omega arith) (omega arith) tables-bytes other_page no_grant

-- 64 frames, the lowest three of them in use
abbrev some_frames : Pmm
some_frames = record {
  memory_size = 262144;
  used_blocks = 3;
  max_blocks = 64;
  memory_map = λ i. if i == 0 then 7 else 0;
}

abbrev boot : Vmm
boot = record { memory = λ j. 0; pmm = some_frames; cur_dir = 0; cr3 = 0; cr0 = 0x11 }

some_frames-IsAccurate : IsAccurate some_frames
some_frames-IsAccurate = record { fits = omega arith; counted = refl }

first_frame : (pmm_alloc_block some_frames).0 ≡ 3 * 4096
unfolding pmm_alloc_block mmap_first_free scan_words scan_bits mmap_set pmm_get_free_block_count
first_frame = refl

second_frame : (pmm_alloc_block (pmm_alloc_block some_frames).1).0 ≡ 4 * 4096
unfolding pmm_alloc_block mmap_first_free scan_words scan_bits mmap_set pmm_get_free_block_count
second_frame = refl

third_frame : (pmm_alloc_block (pmm_alloc_block (pmm_alloc_block some_frames).1).1).0 ≡ 5 * 4096
unfolding pmm_alloc_block mmap_first_free scan_words scan_bits mmap_set pmm_get_free_block_count
third_frame = refl

init_paging-IsStarted_example :
    (dir : ℕ) × ((init_paging boot).0 ≡ some dir) × IsStarted boot (init_paging boot).1 dir
init_paging-IsStarted_example =
    init_paging-IsStarted boot some_frames-IsAccurate (omega (arith, first_frame))
      (omega (arith, second_frame)) (omega (arith, third_frame))
