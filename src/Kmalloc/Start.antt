-- ===== src/Kmalloc/Start.antt =====
-- `mm_init`: the heap it makes.
use mathlib.Core.Path.{subst}
use unos.Base.{
  ℕ, ◌+◌, ◌-◌, ◌*◌, ◌/◌, ◌^◌, ◌<◌, ◌≤◌, ◌≡◌, inl, refl, arith, false, [], ◌∷◌, ◌==◌, ap, ◌∙◌, sym,
  u32, Option, some,
}
use unos.Memory.{Memory, load32, store32, load32-store32, load32-store32_apart}
use unos.Dmm.{dmm_sbrk, dmm_sbrk-within, dmm_init}
use unos.Kmalloc.{
  Kheap, extend_heap, mm_init, init_with, init_result, chunksize, wsize, dsize, new_block,
}
use unos.Kmalloc.Blocks.{IsBlocks, IsBlocks-append}
use unos.Kmalloc.Heap.{IsHeap, prologue, extend_heap-within}
use unos.Kmalloc.Coalesce.{IsBlocks-last}
use unos.Kmalloc.Extend.{New, new_block-New}

-- The four words at the start.
module _ (m : Memory) (p : ℕ) where
  abbrev pub words : Memory
  words = store32 (p + 12) 1 (store32 (p + 8) 9 (store32 (p + 4) 9 (store32 p 0 m)))

  pub words-IsBlocks : IsBlocks words (p + 4) (p + 12) (prologue ∷ [])
  words-IsBlocks =
      let m1 = store32 p 0 m in
      let m2 = store32 (p + 4) 9 m1 in
      let m3 = store32 (p + 8) 9 m2 in
      let foot : p + 4 + 8 - 4 ≡ p + 8 = omega arith in
      let end : p + 4 + 8 ≡ p + 12 = omega arith in
      (
        load32-store32_apart (p + 12) (p + 4) 1 m3 (inl (omega arith))
            ∙ load32-store32_apart (p + 8) (p + 4) 9 m2 (inl (omega arith))
            ∙ load32-store32 (p + 4) 9 m1 (omega arith),
        ap (λ a. load32 a words) foot
            ∙ load32-store32_apart (p + 12) (p + 8) 1 m3 (inl (omega arith))
            ∙ load32-store32 (p + 8) 9 m2 (omega arith),
        refl,
        omega arith,
        omega arith,
        (end, ap (λ a. load32 a words) end ∙ load32-store32 (p + 12) 1 m3 (omega arith)),
      )

-- A first heap, made from nothing, of one free block of 4096 bytes.
pub record IsStarted (r : Option (ℕ × Kheap)) (p size : ℕ) : Type 0 where
  pub after : Kheap
  pub result : r ≡ some (0, after)
  pub most : after.dmm.mem_max_adrr ≡ p + size
  pub heap : IsHeap after (p + 4) (p + 12 + 4096) (record { size = 4096; alloc = 0 } ∷ [])

init_result-some : (bp : ℕ) (t : Kheap) → 0 < bp → init_result (some (bp, t)) ≡ some (0, t)
unfolding init_result
init_result-some bp t h = let there : (bp == 0) ≡ false = ground arith in rw (there) refl

module _ (m : Memory) (listp p size : ℕ) (some_place : 0 < p) (room : 4112 ≤ size)
    (low : p + size < 2 ^ 31) where
  abbrev fresh : Kheap
  fresh = record { memory = m; heap_listp = listp; dmm = dmm_init p size }

  abbrev first : Kheap
  first = record {
    memory = words m p;
    heap_listp = p + 8;
    dmm = record { mem_heap = p; mem_brk = p + 16; mem_max_adrr = p + size };
  }

  started :
      init_with (dmm_sbrk (4 * wsize) (dmm_init p size)) fresh
      ≡ extend_heap (chunksize / wsize) first
  unfolding init_with extend_heap
  started =
      let top : u32 (p + size) ≡ p + size = omega arith in
      let got =
        dmm_sbrk-within (4 * wsize) (dmm_init p size) (omega arith) (omega arith) (omega arith) in
      let there : (p == 0) ≡ false = ground arith in
      let w1 : u32 (p + wsize) ≡ p + 4 = omega arith in
      let w2 : u32 (p + dsize) ≡ p + 8 = omega arith in
      let w3 : u32 (p + wsize + dsize) ≡ p + 12 = omega arith in
      rw (got, top, there, w1, w2, w3) refl

  assoc : p + 12 + 4 ≡ p + 16
  assoc = omega arith

  new : New (words m p) (p + 12) 4096 (new_block (p + 12 + 4) 4096 (words m p))
  new =
      new_block-New (words m p) (p + 12) 4096
        (IsBlocks-last (words m p) (p + 4) (p + 12) prologue [] (words-IsBlocks m p)) refl
        (omega arith) (omega arith)

  abbrev ready : Kheap
  ready = record {
    memory = (new_block (p + 16) 4096 (words m p)).1;
    heap_listp = p + 8;
    dmm = record { mem_heap = p; mem_brk = p + 16 + 4096; mem_max_adrr = p + size };
  }

  mm_init-ready : mm_init fresh ≡ some (0, ready)
  unfolding mm_init
  mm_init-ready =
      let got =
        extend_heap-within 4096 first refl (omega arith) (omega arith) (omega arith)
          (omega arith) in
      ap init_result (
        started
        ∙ got
        ∙ ap (λ q. some (q, ready))
            (ap (λ a. (new_block a 4096 (words m p)).0) (sym assoc) ∙ new.place))
      ∙ init_result-some (p + 12 + 4) ready (omega arith)

  -- On any memory, with a limit that `dmm_init` set from a start that is not 0 and a size of 4112 bytes
  -- or more that ends below 2 ^ 31: `mm_init` succeeds and makes a heap with one free block of 4096 bytes.
  pub mm_init-IsStarted :
      IsStarted (mm_init (record { memory = m; heap_listp = listp; dmm = dmm_init p size })) p size
  mm_init-IsStarted = record {
    after = ready;
    result = mm_init-ready;
    most = refl;
    heap = record {
      listp = omega arith;
      blocks =
          subst
            (λ a.
              IsBlocks (new_block a 4096 (words m p)).1 (p + 4) (p + 12 + 4096)
                (prologue ∷ record { size = 4096; alloc = 0 } ∷ []))
            assoc
            (IsBlocks-append (words m p) (new_block (p + 12 + 4) 4096 (words m p)).1 (p + 4)
              (p + 12) (p + 12 + 4096) (prologue ∷ []) (record { size = 4096; alloc = 0 } ∷ [])
              (λ j q r. new.below j r) (words-IsBlocks m p) new.blocks);
      brk = omega arith;
      most = omega arith;
      low = low;
    };
  }
