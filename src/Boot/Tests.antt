-- ===== src/Boot/Tests.antt =====
-- A machine with 32 MB, and the kernel from 0xc0102000 to 0xc0112000, at 0x102000 in physical memory.
use unos.Base.{ℕ, ◌+◌, ◌*◌, ◌≡◌, arith, refl, true, ◌==◌, if◌then◌else◌}
use unos.Pmm.{Pmm, pmm_bitmap_size}
use unos.Pmm.Frames.{used}
use unos.Boot.{MmapEntry, MultibootInfo, kmain_frames, map_size}
use unos.Boot.Frames.{
  is_available, kmain_frames-used, kmain_frames_of_kernel, kmain_frames-past_bitmap,
}

abbrev entries : ℕ → MmapEntry
entries i =
    if i == 0
    then record { addr_low = 0; len_low = 0x9_fc00; type = 1 }
    else if i == 1
    then record { addr_low = 0x10_0000; len_low = 0x1f0_0000; type = 1 }
    else record { addr_low = 0xfffc_0000; len_low = 0x4_0000; type = 2 }

abbrev machine : MultibootInfo
machine = record { mem_upper = 31744; mmap_length = 72; mmap = entries }

abbrev no_frames : Pmm
no_frames = record { memory_size = 0; used_blocks = 0; max_blocks = 0; memory_map = λ i. 0 }

-- frame 0xa0 lies between the two regions
kmain_frames-used_example : used (kmain_frames 0xc010_2000 0xc011_2000 machine no_frames) 0xa0 ≡ 1
kmain_frames-used_example =
    kmain_frames-used 0xc010_2000 0xc011_2000 0xa0 machine no_frames (omega arith) (omega arith)
      (omega arith) (omega arith)

kernel_frame-free : is_available (map_size machine) 0 entries 0x102 ≡ true
kernel_frame-free = refl

kmain_frames_of_kernel_example :
    used (kmain_frames 0xc010_2000 0xc011_2000 machine no_frames) 0x102 ≡ 0
kmain_frames_of_kernel_example =
    kmain_frames_of_kernel 0xc010_2000 0xc011_2000 0x102 machine no_frames (omega arith)
      (omega arith) (omega arith) (omega arith) (omega arith) (omega arith) kernel_frame-free

kmain_frames-past_bitmap_example :
    used (kmain_frames 0xc010_2000 (0xc0112 * 4096) machine no_frames) (pmm_bitmap_size * 32 + 5)
    ≡ 1
kmain_frames-past_bitmap_example =
    kmain_frames-past_bitmap 0xc010_2000 0xc0112 5 machine no_frames (omega arith) (omega arith)
      (omega arith)
