-- ===== src/Tss.antt =====
-- kernel/tss.c: the task state segment, which tells the processor the kernel's stack.
--
-- Of the structure's fields those that the code writes are fields of the record; the others are 0
-- from the `memset` on. The address of `kernel_tss` is an argument, as the linker chooses it.
-- `tss_flush` (assembly) loads the selector 0x28, which the field `task` records.
pub mod Descriptor
use unos.Base.{ℕ, ◌+◌, u32}
use unos.Gdt.{Gdt, gdt_access, gdt_set_entry}

pub record TssEntry : Type 0 where
  pub esp0 : ℕ
  pub ss0 : ℕ
  pub es : ℕ
  pub cs : ℕ
  pub ss : ℕ
  pub ds : ℕ
  pub fs : ℕ
  pub gs : ℕ

pub record Tss : Type 0 where
  pub kernel_tss : TssEntry
  pub gdt : Gdt
  pub task : ℕ

-- `sizeof(tss_entry_t)`: 25 words and two half words
abbrev pub sizeof_tss_entry : ℕ
sizeof_tss_entry = 104

abbrev pub gdt_system_tss : ℕ
gdt_system_tss = 9

pub tss_flush : Tss → Tss
tss_flush s = record s { task = 0x28 }

pub tss_init : (address idx kss kesp : ℕ) → Tss → Tss
unfolding gdt_set_entry tss_flush
tss_init address idx kss kesp s = tss_flush (record s {
  gdt =
      gdt_set_entry idx address (u32 (address + sizeof_tss_entry)) (gdt_access gdt_system_tss 0 3 1)
        0 0 s.gdt;
  kernel_tss = record {
    esp0 = kesp;
    ss0 = kss;
    es = 0x13;
    cs = 0x0b;
    ss = 0x13;
    ds = 0x13;
    fs = 0x13;
    gs = 0x13;
  };
})

pub tss_set_stack : (kss kesp : ℕ) → Tss → Tss
tss_set_stack kss kesp s = record s { kernel_tss = record s.kernel_tss { ss0 = kss; esp0 = kesp } }
