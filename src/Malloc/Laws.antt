-- ===== src/Malloc/Laws.antt =====
-- What `malloc` and `free` do to the list of blocks.
use unos.Base.{
  false, ℕ, ◌+◌, ◌<◌, ◌≤◌, ◌≡◌, ◌^◌, refl, arith, List, [], ◌∷◌, ◌++◌, u32, ltb, leb, ◌==◌,
  if◌then◌else◌, Bool-cases, inl, inr, ◌∙◌, ap, update, ◌⊎◌, sym, ◌&&◌,
}
use unos.Memory.{Memory, store32, load32-store32, load32_ext, store32_apart}
use unos.Strings.{memset}
use unos.Strings.Bytes.{memset_lem}
use unos.Malloc.{
  Mm, size_at, status_at, sizeof_alloc, Found, nalloc, reuse, no_fuel, Outcome, returned, panic,
  reuse_block, new_block, place, malloc,
}
use unos.Malloc.Chain.{
  first_fit-ne-no_fuel, Block, IsChain, IsChain-le, first_fit-ge, IsChain-below, IsChain-append,
  IsChain-occupy, first_fit, occupy,
}
use unos.Malloc.Walk.{find_block-first_fit}

pub record IsHeap (mm : Mm) (bs : List Block) : Type 0 where
  pub chain : IsChain mm.memory mm.heap_begin mm.last_alloc bs
  -- the test at `nalloc` lets the last block's padding pass the end
  pub room : mm.last_alloc < mm.heap_end + 4
  pub small : mm.heap_end + 4 ≤ 2 ^ 32

abbrev pub new : ℕ → Block
new size = record { status = 1; size = size }

-- The result `p` with its `size` bytes zeroed, the blocks after the call, and no other byte changed
-- but in the block's header.
pub record Gives (old : Memory) (size p : ℕ) (mm : Mm) (bs : List Block) : Type 0 where
  pub outside : (j : ℕ) → (j + 8 < p) ⊎ (p + size ≤ j) → mm.memory j ≡ old j
  pub heap : IsHeap mm bs
  pub zeroed : (j : ℕ) → p ≤ j → j < p + size → mm.memory j ≡ 0
  pub within : (mm.heap_begin + 8 ≤ p) × (p + size ≤ mm.heap_end)

-- What `malloc` should do, by the walk's specification.
abbrev pub Serves : (size : ℕ) (mm : Mm) (bs : List Block) → Found → Outcome → Type 0
Serves size mm bs (reuse a) out =
    (mm' : Mm) × (out ≡ returned (a + 8) mm') × Gives mm.memory size (a + 8) mm' (occupy size bs)
Serves size mm bs nalloc out =
    ((mm.heap_end ≤ mm.last_alloc + size + 8) × (out ≡ panic))
    ⊎ ((mm' : Mm) × (out ≡ returned (mm.last_alloc + 8) mm')
        × Gives mm.memory size (mm.last_alloc + 8) mm' (bs ++ (new size ∷ [])))
Serves size mm bs no_fuel out = ⊥

module _ (mm : Mm) (bs : List Block) (size : ℕ) (ok : IsHeap mm bs) (pos : 0 < size) where
  serve_reuse :
      (a : ℕ)
      → first_fit size mm.heap_begin bs ≡ reuse a
      → Serves size mm bs (reuse a) (reuse_block a size mm)
  unfolding reuse_block
  serve_reuse a h =
      let old : Memory = update mm.memory a 1 in
      let m : Memory = memset (a + sizeof_alloc) 0 size old in
      let (chain, room) =
        IsChain-occupy mm.memory m size mm.heap_begin mm.last_alloc a bs ok.chain h
          (ground (arith, memset_lem (a + sizeof_alloc) 0 size old a))
          (λ j ne out. ground (arith, memset_lem (a + sizeof_alloc) 0 size old j, out)) in
      let far = first_fit-ge size mm.heap_begin a bs h in
      let mm' : Mm = record mm {
        memory = m;
        memory_used = u32 (mm.memory_used + size + sizeof_alloc);
      } in
      (
        mm',
        ap (λ p. returned p mm') (omega (arith, ok.room, ok.small)),
        record {
          outside = λ j h. ground (arith, memset_lem (a + sizeof_alloc) 0 size old j, h);
          heap = record { chain = chain; room = ok.room; small = ok.small };
          zeroed = λ j p q. ground (arith, memset_lem (a + sizeof_alloc) 0 size old j);
          within = (omega arith, omega (arith, ok.room));
        },
      )

  module _ (fits : mm.last_alloc + size + 8 < 2 ^ 32) where
    grow : Mm
    grow = record mm {
      memory =
          memset (u32 (mm.last_alloc + sizeof_alloc)) 0 size
            (store32 (mm.last_alloc + 4) size (update mm.memory mm.last_alloc 1));
      last_alloc = u32 (u32 (u32 (mm.last_alloc + size) + sizeof_alloc) + 4);
      memory_used = u32 (mm.memory_used + size + 4 + sizeof_alloc);
    }

    -- what the new block's memory is made of
    marked : Memory
    marked = store32 (mm.last_alloc + 4) size (update mm.memory mm.last_alloc 1)

    payload : u32 (mm.last_alloc + sizeof_alloc) ≡ mm.last_alloc + 8
    payload = omega arith

    grow_bytes :
        (j : ℕ)
        → grow.memory j
          ≡ (if leb (mm.last_alloc + 8) j && ltb j (mm.last_alloc + 8 + size) then 0 else marked j)
    unfolding grow marked
    grow_bytes j =
        memset_lem (u32 (mm.last_alloc + sizeof_alloc)) 0 size
          (store32 (mm.last_alloc + 4) size (update mm.memory mm.last_alloc 1)) j
        ∙ ground (arith, payload)

    marked_below : (j : ℕ) → j < mm.last_alloc → marked j ≡ mm.memory j
    unfolding marked
    marked_below j h =
        store32_apart (mm.last_alloc + 4) size j (update mm.memory mm.last_alloc 1)
          (inl (omega arith))
        ∙ ground arith

    grow_outside :
        (j : ℕ)
        → (j + 8 < mm.last_alloc + 8) ⊎ (mm.last_alloc + 8 + size ≤ j)
        → grow.memory j ≡ mm.memory j
    unfolding marked
    grow_outside j (inl lo) = ground (arith, grow_bytes j, marked_below j (omega arith))
    grow_outside j (inr hi) = ground (
      arith,
      grow_bytes j,
      store32_apart (mm.last_alloc + 4) size j (update mm.memory mm.last_alloc 1)
          (inr (omega arith)),
    )

    new_header :
        (status_at mm.last_alloc grow.memory ≡ 1) × (size_at mm.last_alloc grow.memory ≡ size)
    unfolding marked
    new_header =
        let old : Memory = update mm.memory mm.last_alloc 1 in
        let at = grow_bytes mm.last_alloc in
        (
          ground (
            arith,
            grow_bytes mm.last_alloc,
            store32_apart (mm.last_alloc + 4) size mm.last_alloc old (inl (omega arith)),
          ),
          load32_ext (mm.last_alloc + 4) marked grow.memory (λ j p q. ground (arith, grow_bytes j))
              ∙ load32-store32 (mm.last_alloc + 4) size old (omega arith),
        )

    new_last : mm.last_alloc + size + 12 < 2 ^ 32 → grow.last_alloc ≡ mm.last_alloc + size + 12
    unfolding grow
    new_last h = omega arith

    grow-Gives :
        mm.last_alloc + size + 8 < mm.heap_end
        → Gives mm.memory size (mm.last_alloc + 8) grow (bs ++ (new size ∷ []))
    unfolding grow
    grow-Gives h =
        let last = new_last (omega (arith, ok.small)) in
        let (st, sz) = new_header in
        let old =
          IsChain-below mm.memory grow.memory mm.heap_begin mm.last_alloc bs
            (λ j p. ground (arith, grow_bytes j, marked_below j)) ok.chain in
        record {
          outside = grow_outside;
          heap = record {
            chain =
                IsChain-append grow.memory mm.heap_begin mm.last_alloc grow.last_alloc bs (new size)
                  old (st, sz, pos, sym last);
            room = omega (arith, last, h);
            small = ok.small;
          };
          zeroed = λ j p q. ground (arith, grow_bytes j);
          within = (
            omega (arith, IsChain-le mm.memory mm.heap_begin mm.last_alloc bs ok.chain),
            omega (arith, h),
          );
        }

    serve_new : Serves size mm bs nalloc (new_block size mm)
    unfolding new_block grow
    serve_new = elim (Bool-cases (leb mm.heap_end (u32 (mm.last_alloc + size + sizeof_alloc)))) [
      | inl out ↦ rw out (inl (ground (arith, out), refl))
      | inr room ↦
          rw room (inr (grow, ap (λ p. returned p grow) payload, grow-Gives (ground (arith, room))))
    ]

    serve :
        (r : Found) → first_fit size mm.heap_begin bs ≡ r → Serves size mm bs r (place size r mm)
    unfolding place
    serve nalloc h = serve_new
    serve (reuse a) h = serve_reuse a h
    serve no_fuel h = first_fit-ne-no_fuel size mm.heap_begin bs h

    -- On a well-formed heap `malloc` ends. It takes the first free block that is large enough, or
    -- else puts a new block at the end, or stops the machine if that would reach the heap's end.
    -- Its result lies in the heap and is zeroed, and the heap is well-formed with that block in use
    -- and all others as they were; no byte outside that block is changed. The request must not be so
    -- large that the sum in the test wraps.
    pub malloc_lem : Serves size mm bs (first_fit size mm.heap_begin bs) (malloc size mm)
    unfolding malloc
    malloc_lem =
        let some_size : (size == 0) ≡ false = ground arith in
        let walk =
          find_block-first_fit (mm.last_alloc + 1) mm.heap_begin size mm bs ok.chain
            (omega (arith, ok.room, ok.small)) (omega arith) in
        rw (some_size, walk) (serve (first_fit size mm.heap_begin bs) refl)
