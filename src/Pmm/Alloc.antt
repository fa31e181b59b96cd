-- ===== src/Pmm/Alloc.antt =====
-- `pmm_alloc_block` and `pmm_free_block`: one frame at a time.
use unos.Base.{
  ◌%◌, ◌^◌, ℕ, ◌+◌, ◌-◌, ◌*◌, ◌/◌, ◌<◌, ◌≤◌, ◌≡◌, ◌≢◌, refl, ap, arith, ◌==◌, if◌then◌else◌, inl,
  inr, ◌⊎◌, Option, none, some, Bool-cases, leb,
}
use unos.Pmm.{
  Pmm, mmap_set, mmap_unset, pmm_block_size, pmm_get_free_block_count, mmap_first_free, take_frame,
  pmm_alloc_block, pmm_free_block,
}
use unos.Pmm.Frames.{used, used-mmap_set, used-mmap_unset}
use unos.Pmm.Count.{total_change, total-le, ones_of_total, used-le-one, IsAccurate}
use unos.Pmm.Search.{FirstZero, mmap_first_free_lem}

-- `q` is `p` but for frame `g`, which is marked `v`.
abbrev pub Marked : ℕ → ℕ → Pmm → Pmm → Type 0
Marked g v p q = (f : ℕ) → used q f ≡ (if g == f then v else used p f)

-- Every frame that the search looks at is in use.
abbrev pub IsFull : Pmm → Type 0
IsFull p = (f : ℕ) → 0 ≤ f → f < 32 * (p.max_blocks / 32) → used p f ≡ 1

-- Frame `g`, the lowest free one, has been handed out by its address.
pub record Granted (p : Pmm) (r : ℕ × Pmm) (g : ℕ) : Type 0 where
  pub lowest : FirstZero (used p) 0 (32 * (p.max_blocks / 32)) (some g)
  pub address : r.0 ≡ g * pmm_block_size
  pub marked : Marked g 1 p r.1
  pub counter : r.1.used_blocks ≡ p.used_blocks + 1
  pub limit : r.1.max_blocks ≡ p.max_blocks
  pub accurate : IsAccurate r.1

module _ (p : Pmm) (acc : IsAccurate p) where
  free_count : pmm_get_free_block_count p ≡ p.max_blocks - p.used_blocks
  unfolding pmm_get_free_block_count
  free_count = omega (arith, acc.fits, acc.counted, total-le (used p) (used-le-one p) p.max_blocks)

  IsFull-of_count : p.max_blocks ≤ p.used_blocks → IsFull p
  IsFull-of_count h = λ f _ k.
      ones_of_total (used p) (used-le-one p) p.max_blocks f
        (omega (arith, acc.counted, total-le (used p) (used-le-one p) p.max_blocks)) (omega arith)

  granted :
      (g : ℕ)
      → FirstZero (used p) 0 (32 * (p.max_blocks / 32)) (some g)
      → Granted p (take_frame (some g) p) g
  unfolding take_frame mmap_set
  granted g low =
      let counted =
        total_change (used p) (used (mmap_set g p)) g 1 (λ f. used-mmap_set g f p) p.max_blocks
          (omega (arith, low.1)) in
      let room = total-le (used (mmap_set g p)) (used-le-one (mmap_set g p)) p.max_blocks in
      record {
        lowest = low;
        address = omega (arith, low.1, acc.fits);
        marked = λ f. used-mmap_set g f p;
        counter = omega (arith, low.2, acc.fits, acc.counted, counted, room);
        limit = refl;
        accurate = record {
          fits = acc.fits;
          counted = omega (arith, low.2, acc.fits, acc.counted, counted, room);
        };
      }

  alloc_by_search :
      (r : Option ℕ)
      → FirstZero (used p) 0 (32 * (p.max_blocks / 32)) r
      → ((take_frame r p ≡ (0, p)) × IsFull p) ⊎ ((g : ℕ) × Granted p (take_frame r p) g)
  unfolding take_frame
  alloc_by_search none found = inl (refl, found)
  alloc_by_search (some g) found = inr (g, granted g found)

  -- With an accurate counter, `pmm_alloc_block` returns NULL and changes nothing exactly where no
  -- frame of the bitmap's whole words is free; otherwise it hands out the lowest free frame by its
  -- address, marks that frame and no other, counts it, and leaves the counter accurate.
  pub pmm_alloc_block_lem :
      ((pmm_alloc_block p ≡ (0, p)) × IsFull p) ⊎ ((g : ℕ) × Granted p (pmm_alloc_block p) g)
  unfolding pmm_alloc_block
  pmm_alloc_block_lem = elim (Bool-cases (leb (pmm_get_free_block_count p) 0)) [
    | inl out ↦ rw out (inl (refl, IsFull-of_count (ground (arith, free_count, acc.counted))))
    | inr more ↦ rw more (alloc_by_search (mmap_first_free p) (mmap_first_free_lem p))
  ]

-- Once frame 0 is in use, no grant has the address 0: NULL means a refusal, and frame 0 stays in use.
pub pmm_alloc_block-ne-null :
    (p : Pmm)
    → IsAccurate p
    → used p 0 ≡ 1
    → (used (pmm_alloc_block p).1 0 ≡ 1)
      × ((pmm_alloc_block p).0 ≡ 0 → (pmm_alloc_block p ≡ (0, p)) × IsFull p)
pmm_alloc_block-ne-null p acc zero_used = elim (pmm_alloc_block_lem p acc) [
  | inl (e, full) ↦ (rw e zero_used, λ _. (e, full))
  | inr (g, is) ↦ (ground (arith, is.marked 0), λ null. absurd (ne g is null))
]
  where
    ne : (g : ℕ) → Granted p (pmm_alloc_block p) g → (pmm_alloc_block p).0 ≡ 0 → ⊥
    ne g is null =
        let e : g ≡ 0 = omega (arith, is.address) in ground (arith, is.lowest.2, ap (used p) e)

-- Freeing a frame that is in use and counted marks that frame free and no other, counts it, and
-- keeps the counter accurate. Nothing checks the frame: freeing one twice breaks the counter.
pub pmm_free_block_lem :
    (p : Pmm) (g : ℕ)
    → IsAccurate p
    → g < p.max_blocks
    → used p g ≡ 1
    → Marked g 0 p (pmm_free_block (g * pmm_block_size) p)
      × ((pmm_free_block (g * pmm_block_size) p).used_blocks + 1 ≡ p.used_blocks)
      × IsAccurate (pmm_free_block (g * pmm_block_size) p)
unfolding pmm_free_block mmap_unset
pmm_free_block_lem p g acc within busy =
    let frame : g * pmm_block_size / pmm_block_size ≡ g = omega arith in
    let q : Pmm = mmap_unset (g * pmm_block_size / pmm_block_size) p in
    let marked : Marked g 0 p q = rw frame (λ f. used-mmap_unset g f p) in
    let counted = total_change (used p) (used q) g 0 marked p.max_blocks within in
    let room = total-le (used p) (used-le-one p) p.max_blocks in
    (
      marked,
      omega (arith, acc.fits, acc.counted, busy, counted, room),
      record {
        fits = acc.fits;
        counted = omega (arith, acc.fits, acc.counted, busy, counted, room);
      },
    )

-- What `pmm_alloc_block` has granted `pmm_free_block` takes back: every frame and the counter are
-- again as they were, and the counter is accurate.
pub pmm_free_block-alloc_block :
    (p : Pmm)
    → IsAccurate p
    → (pmm_alloc_block p).0 ≢ 0
    → ((f : ℕ) → used (pmm_free_block (pmm_alloc_block p).0 (pmm_alloc_block p).1) f ≡ used p f)
      × ((pmm_free_block (pmm_alloc_block p).0 (pmm_alloc_block p).1).used_blocks ≡ p.used_blocks)
      × IsAccurate (pmm_free_block (pmm_alloc_block p).0 (pmm_alloc_block p).1)
pmm_free_block-alloc_block p acc got = elim (pmm_alloc_block_lem p acc) [
  | inl (e, full) ↦ absurd (got (ap (λ r. r.0) e))
  | inr (g, is) ↦
      let q : Pmm = (pmm_alloc_block p).1 in
      let busy : used q g ≡ 1 = ground (arith, is.marked g) in
      let (marked, counter, accurate) =
        pmm_free_block_lem q g is.accurate (omega (arith, is.limit, is.lowest.1)) busy in
      rw (is.address) (
        λ f. ground (arith, marked f, is.marked f, is.lowest.2, ap (used p)),
        omega (arith, counter, is.counter),
        accurate,
      )
]

-- Two grants in a row are of different frames.
pub pmm_alloc_block-ne-alloc_block :
    (p : Pmm)
    → IsAccurate p
    → (pmm_alloc_block p).0 ≢ 0
    → (pmm_alloc_block (pmm_alloc_block p).1).0 ≢ 0
    → (pmm_alloc_block (pmm_alloc_block p).1).0 ≢ (pmm_alloc_block p).0
pmm_alloc_block-ne-alloc_block p acc one two = elim (pmm_alloc_block_lem p acc) [
  | inl (e, _) ↦ absurd (one (ap (λ r. r.0) e))
  | inr (g, is) ↦ elim (pmm_alloc_block_lem (pmm_alloc_block p).1 is.accurate) [
    | inl (e, _) ↦ absurd (two (ap (λ r. r.0) e))
    | inr (h, js) ↦ λ same.
        let e : h ≡ g = omega (arith, is.address, js.address) in
        ground (arith, is.marked h, js.lowest.2)
  ]
]

-- An address that is handed out is that of a whole frame.
pub pmm_alloc_block-aligned :
    (p : Pmm) → ((pmm_alloc_block p).0 % 4096 ≡ 0) × ((pmm_alloc_block p).0 < 2 ^ 32)
unfolding pmm_alloc_block take_frame
pmm_alloc_block-aligned p = elim (Bool-cases (leb (pmm_get_free_block_count p) 0)) [
  | inl full ↦ rw full (omega arith, omega arith)
  | inr room ↦ rw room (aligned (mmap_first_free p))
]
  where
    aligned : (r : Option ℕ) → ((take_frame r p).0 % 4096 ≡ 0) × ((take_frame r p).0 < 2 ^ 32)
    aligned none = (omega arith, omega arith)
    aligned (some frame) = (omega arith, omega arith)
