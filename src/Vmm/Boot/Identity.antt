-- ===== src/Vmm/Boot/Identity.antt =====
-- What the kernel's first tables map.
use unos.Base.{
  ℕ, zero, suc, ◌+◌, ◌*◌, ◌/◌, ◌%◌, ◌^◌, ◌<◌, ◌≤◌, ◌≡◌, ◌≢◌, ◌⊎◌, inl, inr, refl, arith, true,
  false, bit_and, bit_or, ◌==◌, if◌then◌else◌, ap, ◌∙◌, sym, shr,
}
use unos.Base.Masks.{bit_and-ones, bit_or-add}
use native.Mathlib.Decide.{dec_lt, ℕ_discrete}
use unos.Memory.{Memory, load32, store32, load32-store32, load32-store32_apart, load32_ext}
use unos.Strings.{memset}
use unos.Strings.Bytes.{memset_lem}
use unos.Vmm.{Vmm, page_directory_index, page_table_index, page_frame_index, virt2phys}
use unos.Vmm.Map.{page_get_physical_address_lem, wide_mask, page_frame_index_lem}
use unos.Vmm.Boot.{fill_table, enter_table, page_attributes}

-- A translation by the two entries on its way.
pub virt2phys-entries :
    (d k f virt : ℕ) (s : Vmm)
    → 0 < d
    → k < 2 ^ 20
    → f < 2 ^ 20
    → load32 (d * 4096 + 4 * page_directory_index virt) s.memory ≡ k * 4096 + page_attributes
    → load32 (k * 4096 + 4 * page_table_index virt) s.memory ≡ f * 4096 + page_attributes
    → virt2phys (d * 4096) virt s ≡ f * 4096 + virt % 4096
unfolding virt2phys
virt2phys-entries d k f virt s some_dir hk hf e e' =
    let wide : bit_and (k * 4096 + page_attributes) 0xf_ffff_f000 ≡ k * 4096 =
      wide_mask (k * 4096 + page_attributes) (omega arith) ∙ omega arith in
    let value = f * 4096 + page_attributes in
    let t0 : (d * 4096 == 0) ≡ false = ground arith in
    let t1 : (k * 4096 + page_attributes == 0) ≡ false = ground arith in
    let t2 : (f * 4096 + page_attributes == 0) ≡ false = ground arith in
    let joined =
      bit_or-add (bit_and value 0xf_ffff_f000) f (page_frame_index virt) 12
        (wide_mask value (omega arith) ∙ omega arith) (omega (arith, page_frame_index_lem virt)) in
    rw (e, wide, e', t0, t1, t2)
      (omega (arith, joined, wide_mask value (omega arith), page_frame_index_lem virt))

pub page_table_index_lem : (v : ℕ) → page_table_index v ≡ v / 4096 % 1024
page_table_index_lem v = omega (arith, bit_and-ones (shr v 12) 10)

pub page_directory_index_lem : (v : ℕ) → page_directory_index v ≡ v / 2 ^ 22 % 1024
page_directory_index_lem v = omega (arith, bit_and-ones (shr v 22) 10)

-- The entry for a table or a frame.
entry_lem :
    (f : ℕ)
    → f < 2 ^ 20
    → bit_or (bit_and (f * 4096) 0xffff_f000) page_attributes ≡ f * 4096 + page_attributes
entry_lem f h =
    let masked = page_get_physical_address_lem (f * 4096) (omega arith) in
    bit_or-add (bit_and (f * 4096) 0xffff_f000) f page_attributes 12 (masked ∙ omega arith)
      (omega arith)
    ∙ omega (arith, masked)

-- The loop fills the entries from `i` on, one for each frame, and writes nothing else. The address
-- `base` that the table maps is the first of a table.
fill_table_lem :
    (rounds i base table : ℕ) (m : Memory)
    → i + rounds ≤ 1024
    → base % 2 ^ 22 ≡ 0
    → ((k : ℕ)
        → i ≤ k
        → k < i + rounds
        → load32 (table + 4 * k) (fill_table rounds (i * 4096) (base + i * 4096) table m)
          ≡ k * 4096 + page_attributes)
      × ((a : ℕ)
          → (a + 4 ≤ table + 4 * i) ⊎ (table + 4 * (i + rounds) ≤ a)
          → load32 a (fill_table rounds (i * 4096) (base + i * 4096) table m) ≡ load32 a m)
unfolding fill_table
fill_table_lem zero i base table m h aligned = ((λ k lo hi. absurd (omega arith)), λ a out. refl)
fill_table_lem (suc rounds) i base table m h aligned =
    let slot : table + 4 * page_table_index (base + i * 4096) ≡ table + 4 * i =
      omega (arith, page_table_index_lem (base + i * 4096)) in
    let value = entry_lem i (omega arith) in
    let m1 = store32 (table + 4 * i) (i * 4096 + page_attributes) m in
    let next_frame : i * 4096 + 4096 ≡ suc i * 4096 = omega arith in
    let next_virt : base + i * 4096 + 4096 ≡ base + suc i * 4096 = omega arith in
    let (filled, kept) = fill_table_lem rounds (suc i) base table m1 (omega arith) aligned in
    rw (slot, value, next_frame, next_virt)
      (
        (λ k lo hi. elim (ℕ_discrete k i) [
          | yes same ↦
              kept (table + 4 * k) (inl (omega arith))
              ∙ ap (λ j. load32 (table + 4 * j) m1) same
              ∙ load32-store32 (table + 4 * i) (i * 4096 + page_attributes) m (omega arith)
              ∙ ap (λ j. j * 4096 + page_attributes) (sym same)
          | no other ↦ filled k (omega arith) (omega arith)
        ]),
        λ a out.
            kept a (elim out [ inl lo ↦ inl (omega arith) | inr hi ↦ inr (omega arith) ])
            ∙ load32-store32_apart (table + 4 * i) a (i * 4096 + page_attributes) m
                (elim out [ inl lo ↦ inl (omega arith) | inr hi ↦ inr (omega arith) ]),
      )

load32-cleared : (a o : ℕ) (m : Memory) → o + 4 ≤ 4096 → load32 (a + o) (memset a 0 4096 m) ≡ 0
unfolding load32
load32-cleared a o m h = ground (
  arith,
  memset_lem a 0 4096 m (a + o),
  memset_lem a 0 4096 m (a + o + 1),
  memset_lem a 0 4096 m (a + o + 2),
  memset_lem a 0 4096 m (a + o + 3),
)

-- words of two pages
pages_apart :
    (p d o q : ℕ)
    → p ≢ d
    → o + 4 ≤ 4096
    → q + 4 ≤ 4096
    → (p * 4096 + o + 4 ≤ d * 4096 + q) ⊎ (d * 4096 + q + 4 ≤ p * 4096 + o)
pages_apart p d o q ne ho hq = elim (dec_lt p d) [
  | yes lt ↦ inl (omega arith)
  | no ge ↦ inr (omega arith)
]

elsewhere :
    (p d o : ℕ)
    → p ≢ d
    → o + 4 ≤ 4096
    → (p * 4096 + o + 4 ≤ d * 4096) ⊎ (d * 4096 + 4 ≤ p * 4096 + o)
elsewhere p d o ne ho = elim (dec_lt p d) [ yes lt ↦ inl (omega arith) | no ge ↦ inr (omega arith) ]

-- The three frames of the first tables.
module _ (i k d : ℕ) (m : Memory) where
  pub record ArePages : Type 0 where
    pub below : (0 < i) × (0 < k) × (0 < d) × (i < 2 ^ 20) × (k < 2 ^ 20) × (d < 2 ^ 20)
    pub differ : (i ≢ k) × (i ≢ d) × (k ≢ d)

  unfoldable pub both_tables : Memory
  both_tables = fill_table 1024 0 0xC000_0000 (k * 4096) (fill_table 1024 0 0 (i * 4096) m)

  unfoldable pub directory : Memory
  directory =
      enter_table (d * 4096) 0xC000_0000 (k * 4096)
        (enter_table (d * 4096) 0 (i * 4096) (memset (d * 4096) 0 4096 both_tables))

  pub both_tables-entries :
      ArePages
      → (j : ℕ) → j < 1024
      → (load32 (i * 4096 + 4 * j) both_tables ≡ j * 4096 + page_attributes)
        × (load32 (k * 4096 + 4 * j) both_tables ≡ j * 4096 + page_attributes)
  unfolding both_tables
  both_tables-entries pages j h =
      let (first, kept) = fill_table_lem 1024 0 0 (i * 4096) m (omega arith) (omega arith) in
      let (second, kept') =
        fill_table_lem 1024 0 0xC000_0000 (k * 4096) (fill_table 1024 0 0 (i * 4096) m)
          (omega arith) (omega arith) in
      (
        kept' (i * 4096 + 4 * j) (elim (dec_lt i k) [
          | yes lt ↦ inl (omega arith)
          | no ge ↦ inr (omega (arith, pages.differ.0))
        ])
            ∙ first j (omega arith) (omega arith),
        second j (omega arith) (omega arith),
      )

  pub directory-entry :
      ArePages
      → (j : ℕ) → j < 1024
      → load32 (d * 4096 + 4 * j) directory ≡ (
          if j == 768
          then k * 4096 + page_attributes
          else if j == 0
          then i * 4096 + page_attributes
          else 0)
  unfolding directory enter_table
  directory-entry pages j h =
      let cleared = memset (d * 4096) 0 4096 both_tables in
      let low : d * 4096 + 4 * page_directory_index 0 ≡ d * 4096 =
        omega (arith, page_directory_index_lem 0) in
      let high : d * 4096 + 4 * page_directory_index 0xC000_0000 ≡ d * 4096 + 3072 =
        omega (arith, page_directory_index_lem 0xC000_0000) in
      let value_i = entry_lem i (pages.below.3) in
      let value_k = entry_lem k (pages.below.4) in
      let m1 = store32 (d * 4096) (i * 4096 + page_attributes) cleared in
      rw (low, high, value_i, value_k)
        (elim (ℕ_discrete j 768) [
          | yes top ↦
              let at : d * 4096 + 4 * j ≡ d * 4096 + 3072 = omega arith in
              let hit : (j == 768) ≡ true = ground (arith, top) in
              rw (at, hit)
                (load32-store32 (d * 4096 + 3072) (k * 4096 + page_attributes) m1
                  (omega (arith, pages.below.4)))
          | no not_top ↦ elim (ℕ_discrete j 0) [
            | yes bottom ↦
                let at : d * 4096 + 4 * j ≡ d * 4096 = omega arith in
                let miss : (j == 768) ≡ false = ground (arith, not_top) in
                let hit : (j == 0) ≡ true = ground (arith, bottom) in
                rw (at, miss, hit)
                  (load32-store32_apart (d * 4096 + 3072) (d * 4096) (k * 4096 + page_attributes) m1
                      (inl (omega arith))
                    ∙ load32-store32 (d * 4096) (i * 4096 + page_attributes) cleared
                        (omega (arith, pages.below.3)))
            | no not_bottom ↦
                let miss : (j == 768) ≡ false = ground (arith, not_top) in
                let miss' : (j == 0) ≡ false = ground (arith, not_bottom) in
                rw (miss, miss')
                  (load32-store32_apart (d * 4096 + 3072) (d * 4096 + 4 * j)
                      (k * 4096 + page_attributes) m1 (beside j h not_top)
                    ∙ load32-store32_apart (d * 4096) (d * 4096 + 4 * j)
                        (i * 4096 + page_attributes) cleared (inr (omega arith))
                    ∙ load32-cleared (d * 4096) (4 * j) both_tables (omega arith))
          ]
        ])
    where
      beside :
          (j : ℕ)
          → j < 1024
          → j ≢ 768
          → (d * 4096 + 4 * j + 4 ≤ d * 4096 + 3072) ⊎ (d * 4096 + 3072 + 4 ≤ d * 4096 + 4 * j)
      beside j h ne = elim (dec_lt j 768) [ yes lt ↦ inl (omega arith) | no ge ↦ inr (omega arith) ]

  pub directory-keeps :
      (p j : ℕ)
      → p ≢ d
      → j < 1024
      → load32 (p * 4096 + 4 * j) directory ≡ load32 (p * 4096 + 4 * j) both_tables
  unfolding directory enter_table
  directory-keeps p j ne h =
      let low : d * 4096 + 4 * page_directory_index 0 ≡ d * 4096 =
        omega (arith, page_directory_index_lem 0) in
      let high : d * 4096 + 4 * page_directory_index 0xC000_0000 ≡ d * 4096 + 3072 =
        omega (arith, page_directory_index_lem 0xC000_0000) in
      rw (low, high)
        (load32-store32_apart (d * 4096 + 3072) (p * 4096 + 4 * j) _ _
            (pages_apart p d (4 * j) 3072 ne (omega arith) (omega arith))
          ∙ load32-store32_apart (d * 4096) (p * 4096 + 4 * j) _ _
              (elsewhere p d (4 * j) ne (omega arith))
          ∙ load32_ext (p * 4096 + 4 * j) both_tables (memset (d * 4096) 0 4096 both_tables)
              (λ b lo hi. untouched b lo hi))
    where
      untouched :
          (b : ℕ)
          → p * 4096 + 4 * j ≤ b
          → b < p * 4096 + 4 * j + 4
          → memset (d * 4096) 0 4096 both_tables b ≡ both_tables b
      untouched b lo hi = elim (dec_lt p d) [
        | yes lt ↦ ground (arith, memset_lem (d * 4096) 0 4096 both_tables b, lo, hi, lt, h)
        | no ge ↦ ground (arith, memset_lem (d * 4096) 0 4096 both_tables b, lo, hi, ge, ne, h)
      ]
