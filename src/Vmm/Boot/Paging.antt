-- ===== src/Vmm/Boot/Paging.antt =====
-- `init_paging` with three frames to take.
use unos.Base.{
  ℕ, zero, suc, ◌+◌, ◌*◌, ◌/◌, ◌^◌, ◌<◌, ◌≡◌, ◌≢◌, inl, inr, refl, arith, false, bit_or, ◌==◌, ap,
  ◌∙◌, sym, some,
}
use mathlib.Core.Path.{subst}
use unos.Memory.{Memory, load32}
use unos.Strings.{memset}
use unos.Pmm.{Pmm, pmm_alloc_block}
use unos.Pmm.Frames.{used}
use unos.Pmm.Count.{IsAccurate}
use unos.Pmm.Alloc.{Granted, pmm_alloc_block_lem}
use unos.Vmm.{
  Vmm, page_directory_index, page_table_index, virt2phys, switch_page_directory, enable_paging,
}
use unos.Vmm.Boot.{
  fill_table, enter_table, start_paging, make_directory, make_kernel_table, init_paging,
}
use unos.Vmm.Boot.Identity.{
  ArePages, both_tables, directory, both_tables-entries, directory-entry, directory-keeps,
  virt2phys-entries, page_table_index_lem, page_directory_index_lem,
}

-- The first 4 MB are mapped to themselves and once more from 0xC0000000 on, and nothing else is.
pub record IsIdentity (s : Vmm) (dir : ℕ) : Type 0 where
  pub low : (a : ℕ) → a < 2 ^ 22 → virt2phys dir a s ≡ a
  pub high : (a : ℕ) → a < 2 ^ 22 → virt2phys dir (0xC000_0000 + a) s ≡ a
  pub other : (a : ℕ) → a < 2 ^ 32 → a / 2 ^ 22 ≢ 0 → a / 2 ^ 22 ≢ 768 → virt2phys dir a s ≡ 0

module _ (i k d : ℕ) (s t : Vmm) (pages : ArePages i k d s.memory)
    (at : t.memory ≡ directory i k d s.memory) where
  low-page : (a : ℕ) → a < 2 ^ 22 → virt2phys (d * 4096) a t ≡ a
  low-page a h =
      let index : page_directory_index a ≡ 0 = omega (arith, page_directory_index_lem a) in
      let slot : page_table_index a ≡ a / 4096 = omega (arith, page_table_index_lem a) in
      virt2phys-entries d i (a / 4096) a t pages.below.2 pages.below.3 (omega arith)
        (rw (at, index) (directory-entry i k d s.memory pages 0 (omega arith)))
        (rw (at, slot)
          (directory-keeps i k d s.memory i (a / 4096) pages.differ.1 (omega arith)
            ∙ (both_tables-entries i k d s.memory pages (a / 4096) (omega arith)).0))
      ∙ omega arith

  high-page : (a : ℕ) → a < 2 ^ 22 → virt2phys (d * 4096) (0xC000_0000 + a) t ≡ a
  high-page a h =
      let index : page_directory_index (0xC000_0000 + a) ≡ 768 =
        omega (arith, page_directory_index_lem (0xC000_0000 + a)) in
      let slot : page_table_index (0xC000_0000 + a) ≡ a / 4096 =
        omega (arith, page_table_index_lem (0xC000_0000 + a)) in
      virt2phys-entries d k (a / 4096) (0xC000_0000 + a) t pages.below.2 pages.below.4 (omega arith)
        (rw (at, index) (directory-entry i k d s.memory pages 768 (omega arith)))
        (rw (at, slot)
          (directory-keeps i k d s.memory k (a / 4096) pages.differ.2 (omega arith)
            ∙ (both_tables-entries i k d s.memory pages (a / 4096) (omega arith)).1))
      ∙ omega arith

  no-page : (a : ℕ) → a < 2 ^ 32 → a / 2 ^ 22 ≢ 0 → a / 2 ^ 22 ≢ 768 → virt2phys (d * 4096) a t ≡ 0
  unfolding virt2phys
  no-page a h not_low not_high =
      let index : page_directory_index a ≡ a / 2 ^ 22 = omega (arith, page_directory_index_lem a) in
      let empty : load32 (d * 4096 + 4 * page_directory_index a) t.memory ≡ 0 =
        rw (at, index)
          (directory-entry i k d s.memory pages (a / 2 ^ 22) (omega arith)
            ∙ ground (arith, not_low, not_high)) in
      let t0 : (d * 4096 == 0) ≡ false = ground (arith, pages.below.2) in rw (empty, t0) refl

grant_of :
    (p : Pmm)
    → IsAccurate p
    → (pmm_alloc_block p).0 ≢ 0
    → (g : ℕ) × Granted p (pmm_alloc_block p) g × (0 < g) × (g < 2 ^ 20)
grant_of p acc got = elim (pmm_alloc_block_lem p acc) [
  | inl (e, full) ↦ absurd (got (ap (λ r. r.0) e))
  | inr (g, is) ↦ (g, is, above g is, omega (arith, is.lowest.1, acc.fits))
]
  where
    above : (g : ℕ) → Granted p (pmm_alloc_block p) g → 0 < g
    above zero is = absurd (got (is.address ∙ omega arith))
    above (suc g) is = omega arith

start_paging-fields :
    (i k d : ℕ) (m : Memory) (s : Vmm)
    → 0 < d
    → let t =
        start_paging (i * 4096) (k * 4096) (d * 4096) (record s { memory = both_tables i k d m }) in
      (t.memory ≡ directory i k d m)
      × (t.cur_dir ≡ d * 4096)
      × (t.cr3 ≡ d * 4096)
      × (t.cr0 ≡ bit_or s.cr0 0x8000_0000)
      × (t.pmm ≡ s.pmm)
unfolding start_paging switch_page_directory enable_paging directory enter_table both_tables
start_paging-fields i k d m s h =
    let some_dir : (d * 4096 == 0) ≡ false = ground (arith, h) in
    rw some_dir (refl, refl, refl, refl, refl)

-- The end of the function, with the addresses of its three pages.
start_paging-IsIdentity :
    (i k d a b c : ℕ) (m : Memory) (s : Vmm)
    → a ≡ i * 4096
    → b ≡ k * 4096
    → c ≡ d * 4096
    → ArePages i k d m
    → let t =
        start_paging a b c
          (record s { memory = fill_table 1024 0 0xC000_0000 b (fill_table 1024 0 0 a m) }) in
      IsIdentity t c
      × (t.cur_dir ≡ c)
      × (t.cr3 ≡ c)
      × (t.cr0 ≡ bit_or s.cr0 0x8000_0000)
      × (t.pmm ≡ s.pmm)
unfolding both_tables
start_paging-IsIdentity i k d a b c m s ea eb ec pages =
    let t =
      start_paging (i * 4096) (k * 4096) (d * 4096) (record s { memory = both_tables i k d m }) in
    let (at, current, cr3, cr0, pmm) = start_paging-fields i k d m s pages.below.2 in
    let identity : IsIdentity t (d * 4096) = record {
      low = low-page i k d (record s { memory = m }) t pages at;
      high = high-page i k d (record s { memory = m }) t pages at;
      other = no-page i k d (record s { memory = m }) t pages at;
    } in
    rw (ea, eb, ec) (identity, current, cr3, cr0, pmm)

-- What `init_paging` leaves where it can take its three frames.
pub record IsStarted (s s' : Vmm) (dir : ℕ) : Type 0 where
  pub some_dir : dir ≢ 0
  pub maps : IsIdentity s' dir
  pub current : s'.cur_dir ≡ dir
  pub cr3 : s'.cr3 ≡ dir
  pub cr0 : s'.cr0 ≡ bit_or s.cr0 0x8000_0000
  pub accurate : IsAccurate s'.pmm
  pub counted : s'.pmm.used_blocks ≡ s.pmm.used_blocks + 3

-- With an accurate counter and three frames to take, `init_paging` gives the directory's address,
-- and turns paging on with it. The directory takes each address of the first 4 MB to itself, and
-- each of the 4 MB from 0xC0000000 on to the same place; it maps nothing else. The three frames are
-- counted.
pub init_paging-IsStarted :
    (s : Vmm)
    → IsAccurate s.pmm
    → let p1 = pmm_alloc_block s.pmm in
      p1.0 ≢ 0
      → (pmm_alloc_block p1.1).0 ≢ 0
      → (pmm_alloc_block (pmm_alloc_block p1.1).1).0 ≢ 0
      → (dir : ℕ) × ((init_paging s).0 ≡ some dir) × IsStarted s (init_paging s).1 dir
unfolding init_paging make_kernel_table make_directory
init_paging-IsStarted s acc got1 got2 got3 =
    let (g1, is1, pos1, small1) = grant_of s.pmm acc got1 in
    let q1 = (pmm_alloc_block s.pmm).1 in
    let (g2, is2, pos2, small2) = grant_of q1 is1.accurate got2 in
    let q2 = (pmm_alloc_block q1).1 in
    let (g3, is3, pos3, small3) = grant_of q2 is2.accurate got3 in
    let n1 : ((pmm_alloc_block s.pmm).0 == 0) ≡ false = ground (arith, got1) in
    let n2 : ((pmm_alloc_block q1).0 == 0) ≡ false = ground (arith, got2) in
    let n3 : ((pmm_alloc_block q2).0 == 0) ≡ false = ground (arith, got3) in
    let both = record s {
      memory =
          memset (pmm_alloc_block q1).0 0 4096 (memset (pmm_alloc_block s.pmm).0 0 4096 s.memory);
    } in
    let differ12 : g1 ≢ g2 = λ e. ground (arith, is1.marked g1, is2.lowest.2, ap (used q1) e) in
    let differ13 : g1 ≢ g3 =
      λ e. ground (arith, is1.marked g1, is2.marked g1, is3.lowest.2, ap (used q2) e) in
    let differ23 : g2 ≢ g3 = λ e. ground (arith, is2.marked g2, is3.lowest.2, ap (used q2) e) in
    let (maps, current, cr3, cr0, pmm) =
      start_paging-IsIdentity g1 g2 g3 (pmm_alloc_block s.pmm).0 (pmm_alloc_block q1).0
        (pmm_alloc_block q2).0 both.memory (record s { pmm = (pmm_alloc_block q2).1 }) is1.address
        is2.address is3.address
        (record {
          below = (pos1, pos2, pos3, small1, small2, small3);
          differ = (differ12, differ13, differ23);
        }) in
    rw (n1, n2, n3)
      (
        (pmm_alloc_block q2).0,
        refl,
        record {
          some_dir = got3;
          maps = maps;
          current = current;
          cr3 = cr3;
          cr0 = cr0;
          accurate = subst IsAccurate (sym pmm) is3.accurate;
          counted =
              ap (λ (p : Pmm). p.used_blocks) pmm
              ∙ omega (arith, is1.counter, is2.counter, is3.counter);
        },
      )
