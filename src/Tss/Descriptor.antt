-- ===== src/Tss/Descriptor.antt =====
-- The descriptor of the task state segment, and the stack it names.
use unos.Base.{ℕ, ◌+◌, ◌%◌, ◌^◌, ◌<◌, ◌≡◌, ◌≢◌, refl, arith, u32}
use unos.Gdt.Segments.{base_of, limit_of, byte, gdt_set_entry_lem}
use unos.Gdt.{gdt_access, gdt_set_entry}
use unos.Tss.{Tss, sizeof_tss_entry, tss_init, tss_flush}

-- After `tss_init` the descriptor is that of a present task segment of type 9 at the structure's
-- address, other descriptors are as they were, and the structure names the kernel's stack. The
-- limit holds the low 20 bits of the address of the structure's end, where the processor expects
-- the offset of its last byte.
pub tss_init_lem :
    (address idx kss kesp : ℕ) (s : Tss)
    → address < 2 ^ 32
    → let r = tss_init address idx kss kesp s in
      (base_of (r.gdt.gdt_entries idx) ≡ address)
      × (byte 5 (r.gdt.gdt_entries idx) ≡ 0xe9)
      × (limit_of (r.gdt.gdt_entries idx) ≡ (address + 104) % 2 ^ 20)
      × ((i : ℕ) → i ≢ idx → r.gdt.gdt_entries i ≡ s.gdt.gdt_entries i)
      × (r.kernel_tss.ss0 ≡ kss)
      × (r.kernel_tss.esp0 ≡ kesp)
unfolding tss_init tss_flush gdt_set_entry
tss_init_lem address idx kss kesp s h =
    let (at, limit, flags, others) =
      gdt_set_entry_lem idx address (u32 (address + sizeof_tss_entry)) (gdt_access 9 0 3 1) 0 0
        s.gdt h (omega arith) (omega arith) (omega arith) in
    (at, access, omega (arith, limit), others, refl, refl)
  where
    access : byte 5 ((tss_init address idx kss kesp s).gdt.gdt_entries idx) ≡ 0xe9
    access = ground arith
