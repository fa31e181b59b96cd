-- ===== src/Vmm/Map.antt =====
-- A page that has been mapped is found again.
use unos.Pmm.{pmm_block_size, pmm_alloc_blocks, pmm_alloc_block}
use unos.Base.{
  leb, suc, none, ℕ, zero, ◌+◌, ◌-◌, ◌*◌, ◌/◌, ◌%◌, ◌^◌, ◌<◌, ◌≤◌, ◌≡◌, ◌≢◌, ◌⊎◌, inl, inr, refl,
  arith, true, false, bit_and, bit_or, u32, shl, shr, ◌==◌, Bool-cases, ap, ◌∙◌,
}
use unos.Vmm.{
  alloc_loop, vmm_alloc_page, Vmm, page_directory_index, page_table_index, page_frame_index,
  pte_present, page_get_physical_address, virt2phys, map_entry, add_table, vmm_map_page,
}
use unos.Base.Masks.{bit_and-ones, bit_and-shift, bit_or-add}
use unos.Memory.{Memory, load32, store32, load32-store32, load32-store32_apart}
use unos.Strings.{memset}
use unos.Pmm.Alloc.{pmm_alloc_block-aligned}
use native.Mathlib.Decide.{dec_lt}

pub page_get_physical_address_lem :
    (w : ℕ) → w < 2 ^ 32 → page_get_physical_address w ≡ w / 4096 * 4096
page_get_physical_address_lem w h =
    omega (arith, bit_and-shift w (2 ^ 20 - 1) 12, bit_and-ones (w / 2 ^ 12) 20)

pub wide_mask : (w : ℕ) → w < 2 ^ 32 → bit_and w 0xf_ffff_f000 ≡ w / 4096 * 4096
wide_mask w h = omega (arith, bit_and-shift w (2 ^ 24 - 1) 12, bit_and-ones (w / 2 ^ 12) 24)

pub page_frame_index_lem : (v : ℕ) → page_frame_index v ≡ v % 4096
page_frame_index_lem v = omega (
  arith,
  bit_and-shift (u32 (shl v 20)) (2 ^ 12 - 1) 20,
  bit_and-ones (u32 (shl v 20) / 2 ^ 20) 12,
)

page_directory_index-lt : (v : ℕ) → page_directory_index v < 1024
page_directory_index-lt v = omega (arith, bit_and-ones (shr v 22) 10)

page_table_index-lt : (v : ℕ) → page_table_index v < 1024
page_table_index-lt v = omega (arith, bit_and-ones (shr v 12) 10)

-- words of two different pages
apart :
    (d k i j : ℕ)
    → d ≢ k
    → i < 1024
    → j < 1024
    → (d * 4096 + 4 * i + 4 ≤ k * 4096 + 4 * j) ⊎ (k * 4096 + 4 * j + 4 ≤ d * 4096 + 4 * i)
apart d k i j ne hi hj = elim (dec_lt d k) [
  | yes lt ↦ inl (omega arith)
  | no ge ↦ inr (omega arith)
]

module _ (d phys virt attr : ℕ) (hd : 0 < d) (hp : phys < 2 ^ 32) (ha : attr < 4096)
    (present : attr % 2 ≡ 1) where
  entry_written : bit_or (bit_and phys 0xf_ffff_f000) attr ≡ phys / 4096 * 4096 + attr
  entry_written =
      bit_or-add (bit_and phys 0xf_ffff_f000) (phys / 4096) attr 12
        (omega (arith, wide_mask phys hp)) ha
      ∙ omega (arith, wide_mask phys hp)

  mapped :
      (k a : ℕ) (s : Vmm)
      → load32 (d * 4096 + 4 * page_directory_index virt) s.memory ≡ k * 4096 + a
      → 0 < a
      → a < 4096
      → k * 4096 + a < 2 ^ 32
      → d ≢ k
      → virt2phys
          (d * 4096)
          virt
          (map_entry (d * 4096 + 4 * page_directory_index virt) phys virt attr s)
        ≡ phys / 4096 * 4096 + virt % 4096
  unfolding virt2phys map_entry
  mapped k a s e some_bit few small ne =
      let at = d * 4096 + 4 * page_directory_index virt in
      let slot = k * 4096 + 4 * page_table_index virt in
      let value = phys / 4096 * 4096 + attr in
      let table : page_get_physical_address (load32 at s.memory) ≡ k * 4096 =
        ap page_get_physical_address e
        ∙ page_get_physical_address_lem (k * 4096 + a) small
        ∙ omega arith in
      let memory : Memory = store32 slot value s.memory in
      let again : load32 at memory ≡ k * 4096 + a =
        load32-store32_apart slot at value s.memory (
          apart d k (page_directory_index virt) (page_table_index virt) ne
            (page_directory_index-lt virt) (page_table_index-lt virt))
        ∙ e in
      let wide : bit_and (k * 4096 + a) 0xf_ffff_f000 ≡ k * 4096 =
        wide_mask (k * 4096 + a) small ∙ omega arith in
      let found : load32 slot memory ≡ value = load32-store32 slot value s.memory (omega arith) in
      let t0 : (d * 4096 == 0) ≡ false = ground arith in
      let t1 : (k * 4096 + a == 0) ≡ false = ground arith in
      let t2 : (phys / 4096 * 4096 + attr == 0) ≡ false = ground arith in
      let joined =
        bit_or-add (bit_and value 0xf_ffff_f000) (phys / 4096) (page_frame_index virt) 12
          (wide_mask value (omega arith) ∙ omega arith)
          (omega (arith, page_frame_index_lem virt)) in
      rw (table, entry_written, again, wide, found, t0, t1, t2)
        (omega (arith, joined, wide_mask value (omega arith), page_frame_index_lem virt))

  fresh :
      (g : ℕ) (s : Vmm)
      → 0 < g
      → g % 4096 ≡ 0
      → g < 2 ^ 32
      → g ≢ d * 4096
      → virt2phys (d * 4096) virt (
          map_entry
            (d * 4096 + 4 * page_directory_index virt)
            phys
            virt
            attr
            (add_table (d * 4096 + 4 * page_directory_index virt) g attr s))
        ≡ phys / 4096 * 4096 + virt % 4096
  unfolding add_table
  fresh g s some aligned small ne =
      let at = d * 4096 + 4 * page_directory_index virt in
      let k : g ≡ g / 4096 * 4096 = omega arith in
      let masked = page_get_physical_address_lem g small in
      let value : bit_or (bit_and g 0xffff_f000) attr ≡ g / 4096 * 4096 + attr =
        bit_or-add (bit_and g 0xffff_f000) (g / 4096) attr 12 masked ha ∙ omega (arith, masked) in
      mapped (g / 4096) attr (add_table at g attr s)
        (load32-store32 at (bit_or (bit_and g 0xffff_f000) attr) (memset g 0 4096 s.memory)
            (omega (arith, value))
          ∙ value)
        (omega arith) ha (omega arith) (λ same. ne (omega arith))

load32-lt : (a : ℕ) (m : Memory) → ((j : ℕ) → m j < 256) → load32 a m < 2 ^ 32
unfolding load32
load32-lt a m bytes = omega (arith, bytes a, bytes (a + 1), bytes (a + 2), bytes (a + 3))

-- After `vmm_map_page` with a present page, `virt2phys` in the same directory takes the page's
-- address to that of the frame, with the offset kept; this holds with the table that the directory
-- has for the address and with a new one. Only if a new table is needed and no frame is free does
-- the call return with nothing mapped. The directory is a page that is neither the table in use nor
-- handed out for the new one.
pub virt2phys-vmm_map_page :
    (d phys virt attr : ℕ) (s : Vmm)
    → 0 < d
    → d < 2 ^ 20
    → phys < 2 ^ 32
    → attr < 4096
    → attr % 2 ≡ 1
    → ((j : ℕ) → s.memory j < 256)
    → let e = load32 (d * 4096 + 4 * page_directory_index virt) s.memory in
      d ≢ e / 4096
      → (pmm_alloc_block s.pmm).0 ≢ d * 4096
      → ((e % 2 ≡ 0)
          × ((pmm_alloc_block s.pmm).0 ≡ 0)
          × (vmm_map_page (d * 4096) phys virt attr s
              ≡ record s { pmm = (pmm_alloc_block s.pmm).1 }))
        ⊎ (virt2phys (d * 4096) virt (vmm_map_page (d * 4096) phys virt attr s)
            ≡ phys / 4096 * 4096 + virt % 4096)
unfolding vmm_map_page
virt2phys-vmm_map_page d phys virt attr s hd small hp ha present bytes table_apart grant_apart =
    let at = d * 4096 + 4 * page_directory_index virt in
    let e = load32 at s.memory in
    let bounded = load32-lt at s.memory bytes in
    let g = (pmm_alloc_block s.pmm).0 in
    let s' : Vmm = record s { pmm = (pmm_alloc_block s.pmm).1 } in
    let (aligned, below) = pmm_alloc_block-aligned s.pmm in
    let low : bit_and e pte_present ≡ e % 2 = bit_and-ones e 1 in
    elim (Bool-cases (bit_and e pte_present == pte_present)) [
      | inl there ↦
          let odd : e % 2 ≡ 1 = ground (arith, low) in
          rw there (
            inr (
              mapped d phys virt attr hd hp ha present (e / 4096) (e % 4096) s (omega arith)
                (omega arith) (omega arith) (omega (arith, bounded)) table_apart))
      | inr absent ↦
          let even : e % 2 ≡ 0 = ground (arith, low) in
          elim (Bool-cases (g == 0)) [
            | inl refused ↦ rw (absent, refused) (inl (even, ground arith, refl))
            | inr granted ↦
                rw (absent, granted)
                  (inr (
                    fresh d phys virt attr hd hp ha present g s' (ground arith) aligned below
                      grant_apart))
          ]
    ]

alloc_loop-none :
    (fuel count dir p va attr : ℕ) (s : Vmm) → alloc_loop fuel 0 count dir p va attr s ≡ none
unfolding alloc_loop
alloc_loop-none zero count dir p va attr s = refl
alloc_loop-none (suc fuel) count dir p va attr s =
    let on : leb 0 count ≡ true = ground arith in
    rw on (
      alloc_loop-none fuel (u32 (count + 1)) dir p va attr
        (vmm_map_page dir (u32 (p + 0 * pmm_block_size)) (u32 (va + 0 * pmm_block_size)) attr s))

-- `vmm_alloc_page` never returns: its loop counts the bound up and not the index.
pub vmm_alloc_page_lem :
    (fuel dir va sz attr : ℕ) (s : Vmm) → vmm_alloc_page fuel dir va sz attr s ≡ none
unfolding vmm_alloc_page
vmm_alloc_page_lem fuel dir va sz attr s = elim (Bool-cases (dir == 0)) [
  | inl null ↦ rw null refl
  | inr some ↦ rw some (
      alloc_loop-none fuel (u32 (sz + 2 ^ 32 - 1)) dir (pmm_alloc_blocks _ s.pmm).0 va attr
        (record s { pmm = (pmm_alloc_blocks _ s.pmm).1 }))
]
