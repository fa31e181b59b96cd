-- ===== src/Kmalloc/Serve.antt =====
-- `mm_malloc`, from the search on.
use unos.Base.{
  Bool-cases, ◌≢◌, ℕ, ◌+◌, ◌-◌, ◌/◌, ◌^◌, ◌<◌, ◌≤◌, ◌≡◌, inl, inr, refl, arith, true, false, List,
  ◌∷◌, ◌==◌, leb, length, ◌∙◌, sym, Option, some, none,
}
use mathlib.Core.Path.{subst}
use unos.Kmalloc.{
  place_new, extend_with, fit, no_fuel, Fit, even_words, wsize, Kheap, find_fit, no_fit, take_fit,
  adjusted, mm_malloc, returned, panic,
}
use unos.Dmm.{Dmm, dmm_sbrk}
use unos.Kmalloc.Blocks.{Block, find_fit-IsBlocks, find_fit-finds_nothing}
use unos.Kmalloc.Heap.{
  IsHeap, IsServed, prologue, grow, adjusted-whole, adjusted-bounds, take_fit-beyond,
  take_fit-IsServed,
}

module _ (fuel size : ℕ) (s : Kheap) (start e : ℕ) (bs : List Block) (heap : IsHeap s start e bs)
    (some_size : 0 < size) (small : size < 2 ^ 32 - 15) (enough : length bs + 1 < fuel) where
  searched : mm_malloc fuel size s ≡ take_fit (adjusted size) no_fit s
  unfolding mm_malloc
  searched =
      let h : (size == 0) ≡ false = ground arith in
      let found =
        find_fit-IsBlocks fuel start e (adjusted size) s.memory (prologue ∷ bs) heap.blocks
          (omega (arith, heap.most, heap.low)) (omega (arith, enough)) in
      rw (h, heap.listp, found) refl

  -- In a heap of the blocks `bs` that ends at `e`, a request of `size` bytes, more than 0 and less than
  -- 2 ^ 32 - 15, with fuel for the search, and with room for what the heap grows by: the result is the
  -- payload of a new block at the old end, whatever blocks were freed; the heap then holds the blocks as
  -- before and behind them the new one in use, and its rest as a free block where 16 bytes or more are
  -- left; no byte below the old end is changed.
  pub mm_malloc-IsServed :
      e + 4 + grow (adjusted size) ≤ s.dmm.mem_max_adrr
      → IsServed s (mm_malloc fuel size s) start e (adjusted size) bs
  mm_malloc-IsServed room =
      let (least, more) = adjusted-bounds size small in
      subst (λ r. IsServed s r start e (adjusted size) bs) (sym searched)
        (take_fit-IsServed s start e (adjusted size) bs heap (adjusted-whole size)
          (omega (arith, least)) (ground arith) room)

  -- In such a heap, without that room, the allocator panics.
  pub mm_malloc-panic :
      s.dmm.mem_max_adrr < e + 4 + grow (adjusted size) → mm_malloc fuel size s ≡ panic
  mm_malloc-panic full =
      let (least, more) = adjusted-bounds size small in
      searched
      ∙ take_fit-beyond s start e (adjusted size) bs heap (adjusted-whole size)
          (omega (arith, least)) (ground arith) full

extended-high :
    (asize size q : ℕ) (got : Option (ℕ × Dmm)) (s t : Kheap)
    → ((bp : ℕ) (d : Dmm) → got ≡ some (bp, d) → 2 ^ 31 ≤ bp)
    → place_new asize (extend_with size got s) ≡ returned q t
    → q ≡ 0
unfolding place_new extend_with
extended-high asize size q none s t high h = cc
extended-high asize size q (some (bp, d)) s t high h =
    let up : leb (2 ^ 31) bp ≡ true = ground (arith, high bp d refl) in
    let null : place_new asize (extend_with size (some (bp, d)) s)
        ≡ returned 0 (record s { dmm = d }) =
      rw (up) refl in
    cc

dmm_sbrk-place : (incr bp : ℕ) (d d' : Dmm) → dmm_sbrk incr d ≡ some (bp, d') → d.mem_brk ≡ bp
unfolding dmm_sbrk
dmm_sbrk-place incr bp d d' h = ground arith

taken-high :
    (asize q : ℕ) (f : Fit) (s t : Kheap)
    → ((bp : ℕ) → f ≢ fit bp)
    → 2 ^ 31 ≤ s.dmm.mem_brk
    → take_fit asize f s ≡ returned q t
    → q ≡ 0
unfolding take_fit
taken-high asize q (fit bp) s t nothing high h = absurd (nothing bp refl)
taken-high asize q no_fuel s t nothing high h = cc
taken-high asize q no_fit s t nothing high h =
    extended-high asize (even_words (grow asize / wsize)) q
      (dmm_sbrk (even_words (grow asize / wsize)) s.dmm) s t
      (λ bp d g. omega (arith, dmm_sbrk-place (even_words (grow asize / wsize)) bp s.dmm d g, high))
      h

-- Where the memory is at 2 ^ 31 or above, as an `int` negative, the allocator gives no block: a result is
-- the pointer 0, whatever the heap holds.
pub mm_malloc-high :
    (fuel size q : ℕ) (s t : Kheap)
    → 2 ^ 31 ≤ s.dmm.mem_brk
    → mm_malloc fuel size s ≡ returned q t
    → q ≡ 0
unfolding mm_malloc
mm_malloc-high fuel size q s t high h = elim (Bool-cases (size == 0)) [
  | inl none_asked ↦ let null : mm_malloc fuel size s ≡ returned 0 s = rw (none_asked) refl in cc
  | inr some_asked ↦
      let found = find_fit fuel s.heap_listp (adjusted size) s.memory in
      let searched' : mm_malloc fuel size s ≡ take_fit (adjusted size) found s =
        rw (some_asked) refl in
      taken-high (adjusted size) q found s t
        (λ bp. find_fit-finds_nothing fuel s.heap_listp (adjusted size) bp s.memory) high
        (sym searched' ∙ h)
]
