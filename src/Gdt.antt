-- ===== src/Gdt.antt =====
-- kernel/gdt.c and the types of includes/kernel/gdt.h: the table of segment descriptors.
--
-- A bit field keeps the lowest bits of what is assigned to it. `gdt_entries` has six places; the
-- address of the array is an argument, as the linker chooses it. `gdt_flush` (boot code in assembly)
-- loads the register from `gdt_ptr`, which the field `loaded` records.
pub mod Segments
use unos.Base.{
  ℕ, ◌+◌, ◌-◌, ◌*◌, ◌/◌, ◌%◌, ◌^◌, Option, none, some, List, [], ◌∷◌, bit_and, bit_or, update,
}

pub record GdtAccess : Type 0 where
  pub type : ℕ
  pub dt : ℕ
  pub dpl : ℕ
  pub p : ℕ

pub record GdtEntry : Type 0 where
  pub limit_low : ℕ
  pub base_low : ℕ
  pub access : GdtAccess
  pub limit_high : ℕ
  pub a : ℕ
  pub unused : ℕ
  pub d : ℕ
  pub g : ℕ
  pub base_high : ℕ

pub record Gdt : Type 0 where
  pub gdt_entries : ℕ → GdtEntry
  pub limit : ℕ
  pub base : ℕ
  pub loaded : Option (ℕ × ℕ)

abbrev pub gdt_entry_size : ℕ
gdt_entry_size = 6

-- `sizeof(gdt_entry_t)`
abbrev pub sizeof_gdt_entry : ℕ
sizeof_gdt_entry = 8

abbrev pub segment_type_code : ℕ
segment_type_code = 8

abbrev pub segment_type_data : ℕ
segment_type_data = 0

abbrev pub execute_read : ℕ
execute_read = 2

abbrev pub read_write : ℕ
read_write = 2

-- an initializer of `gdt_access`
abbrev pub gdt_access : (type dt dpl p : ℕ) → GdtAccess
gdt_access type dt dpl p = record { type = type % 2 ^ 4; dt = dt % 2; dpl = dpl % 2 ^ 2; p = p % 2 }

-- the eight bytes of a packed entry, from the lowest bit of each field up
abbrev pub entry_bytes : GdtEntry → List ℕ
entry_bytes e =
    (e.limit_low % 256)
    ∷ (e.limit_low / 256)
    ∷ (e.base_low % 256)
    ∷ (e.base_low / 256 % 256)
    ∷ (e.base_low / 65536)
    ∷ (e.access.type + 16 * e.access.dt + 32 * e.access.dpl + 128 * e.access.p)
    ∷ (e.limit_high + 16 * e.a + 32 * e.unused + 64 * e.d + 128 * e.g)
    ∷ e.base_high
    ∷ []

unfoldable pub gdt_set_entry : (idx base limit : ℕ) → GdtAccess → (d g : ℕ) → Gdt → Gdt
gdt_set_entry idx base limit access d g t = record t {
  gdt_entries = update t.gdt_entries idx (record {
    limit_low = bit_and limit 0xffff % 2 ^ 16;
    base_low = bit_and base 0xffffff % 2 ^ 24;
    access = access;
    limit_high = bit_and (limit / 2 ^ 16) 0xf % 2 ^ 4;
    a = 0;
    unused = 0;
    d = d % 2;
    g = g % 2;
    base_high = bit_and (base / 2 ^ 24) 0xffff % 2 ^ 8;
  });
}

pub gdt_flush : Gdt → Gdt
gdt_flush t = record t { loaded = some (t.limit, t.base) }

pub init_gdt : (table : ℕ) → Gdt → Gdt
unfolding gdt_set_entry gdt_flush
init_gdt table t =
    let t0 = record t { limit = sizeof_gdt_entry * gdt_entry_size - 1; base = table } in
    let t1 = gdt_set_entry 0 0 0 (gdt_access 0 0 0 0) 0 0 t0 in
    let t2 =
      gdt_set_entry 1 0 0xffff_ffff (gdt_access (bit_or segment_type_code execute_read) 1 0 1) 1 1
        t1 in
    let t3 =
      gdt_set_entry 2 0 0xffff_ffff (gdt_access (bit_or segment_type_data read_write) 1 0 1) 1 1
        t2 in
    let t4 =
      gdt_set_entry 3 0 0xffff_ffff (gdt_access (bit_or segment_type_code execute_read) 1 3 1) 1 1
        t3 in
    let t5 =
      gdt_set_entry 4 0 0xffff_ffff (gdt_access (bit_or segment_type_data read_write) 1 3 1) 1 1
        t4 in
    gdt_flush t5
