-- ===== src/Gdt/Segments.antt =====
-- What the processor reads from the descriptors.
use unos.Base.{
  refl, some, ◌≤◌, true, ℕ, zero, suc, ◌+◌, ◌*◌, ◌/◌, ◌%◌, ◌^◌, ◌<◌, ◌≡◌, ◌≢◌, arith, get_or,
  if◌then◌else◌, ◌==◌,
}
use unos.Gdt.{gdt_flush, init_gdt, Gdt, GdtEntry, GdtAccess, entry_bytes, gdt_set_entry}
use unos.Base.Masks.{bit_and-ones}

abbrev pub byte : ℕ → GdtEntry → ℕ
byte i e = get_or (entry_bytes e) i 0

-- The base address in a descriptor: bytes 2, 3, 4 and 7.
abbrev pub base_of : GdtEntry → ℕ
base_of e = byte 2 e + 256 * byte 3 e + 65536 * byte 4 e + 16777216 * byte 7 e

-- The limit: bytes 0 and 1 and the low half of byte 6.
abbrev pub limit_of : GdtEntry → ℕ
limit_of e = byte 0 e + 256 * byte 1 e + 65536 * (byte 6 e % 16)

-- The last offset that the limit lets through: with the granularity bit, in units of 4096 bytes.
abbrev pub last_offset : GdtEntry → ℕ
last_offset e = if byte 6 e / 128 == 1 then limit_of e * 4096 + 4095 else limit_of e

-- `gdt_set_entry` writes a descriptor from whose bytes the processor reads the base, the low 20 bits
-- of the limit, and the two flags, and no other entry.
pub gdt_set_entry_lem :
    (idx base limit : ℕ) (access : GdtAccess) (d g : ℕ) (t : Gdt)
    → base < 2 ^ 32
    → limit < 2 ^ 32
    → d < 2
    → g < 2
    → let e = (gdt_set_entry idx base limit access d g t).gdt_entries idx in
      (base_of e ≡ base)
      × (limit_of e ≡ limit % 2 ^ 20)
      × (byte 6 e / 64 ≡ d + 2 * g)
      × ((i : ℕ)
          → i ≢ idx
          → (gdt_set_entry idx base limit access d g t).gdt_entries i ≡ t.gdt_entries i)
unfolding gdt_set_entry
gdt_set_entry_lem idx base limit access d g t hb hl hd hg =
    let here : (idx == idx) ≡ true = ground arith in
    rw here (
      omega (arith, bit_and-ones base 24, bit_and-ones (base / 2 ^ 24) 16),
      omega (arith, bit_and-ones limit 16, bit_and-ones (limit / 2 ^ 16) 4),
      omega (arith, bit_and-ones (limit / 2 ^ 16) 4),
      λ i ne. ground arith,
    )

abbrev pub privilege : GdtEntry → ℕ
privilege e = byte 5 e / 32 % 4

-- A present code segment (`x` is 1) or data segment (0) of the whole address space.
abbrev pub IsFlat : (x dpl : ℕ) → GdtEntry → Type 0
IsFlat x dpl e =
    (base_of e ≡ 0)
    × (last_offset e ≡ 0xffff_ffff)
    × (privilege e ≡ dpl)
    × (byte 5 e / 8 % 4 ≡ 2 + x)
    × (byte 5 e / 128 ≡ 1)

-- After `init_gdt` the table's first descriptor is null, the next two are the code and the data
-- segment of ring 0 and the two after them those of ring 3, each of the whole address space; the
-- places from 5 on are as they were, and the register holds the table's address and last byte.
pub init_gdt_lem :
    (table : ℕ) (t : Gdt)
    → let r = init_gdt table t in
      ((i : ℕ) → byte i (r.gdt_entries 0) ≡ 0)
      × IsFlat 1 0 (r.gdt_entries 1)
      × IsFlat 0 0 (r.gdt_entries 2)
      × IsFlat 1 3 (r.gdt_entries 3)
      × IsFlat 0 3 (r.gdt_entries 4)
      × ((i : ℕ) → 5 ≤ i → r.gdt_entries i ≡ t.gdt_entries i)
      × (r.loaded ≡ some (47, table))
unfolding init_gdt gdt_set_entry gdt_flush
init_gdt_lem table t = (
  null,
  (refl, refl, refl, refl, refl),
  (refl, refl, refl, refl, refl),
  (refl, refl, refl, refl, refl),
  (refl, refl, refl, refl, refl),
  (λ i h. ground arith),
  refl,
)
  where
    null : (i : ℕ) → byte i ((init_gdt table t).gdt_entries 0) ≡ 0
    null zero = refl
    null (suc zero) = refl
    null (suc (suc zero)) = refl
    null (suc (suc (suc zero))) = refl
    null (suc (suc (suc (suc zero)))) = refl
    null (suc (suc (suc (suc (suc zero))))) = refl
    null (suc (suc (suc (suc (suc (suc zero)))))) = refl
    null (suc (suc (suc (suc (suc (suc (suc zero))))))) = refl
    null (suc (suc (suc (suc (suc (suc (suc (suc i)))))))) = refl
