-- ===== src/Malloc/Cleared.antt =====
-- A call of `kcalloc` for which there is room, with what its caller may rely on.
use unos.Base.{ℕ, ◌+◌, ◌<◌, ◌≤◌, ◌≡◌, ◌⊎◌, inl, inr, arith, List, ◌∷◌, ◌∙◌, ap, u32, ◌*◌}
use unos.Memory.{Memory}
use unos.Strings.{memset}
use unos.Strings.Bytes.{memset_lem}
use unos.Malloc.{Mm, returned, malloc, clear_result, kcalloc}
use unos.Malloc.Owners.{Owned, IsUsed}
use unos.Malloc.Served.{Allocated, malloc-Allocated, Allocated-clear, Allocated-same, IsKept}
use unos.Malloc.Writes.{IsUsed-owner}

-- A new block, all its bytes 0, with what was kept before as it was.
pub record Cleared (mm : Mm) (os : List Owned) (size : ℕ) : Type 0 where
  pub block : Allocated mm os size
  pub after : Mm
  pub result : kcalloc size 1 mm ≡ returned block.p after
  pub used : IsUsed after ((block.p, size) ∷ os)
  pub cleared : (i : ℕ) → i < size → after.memory (block.p + i) ≡ 0
  pub outside : (j : ℕ) → (j + 8 < block.p) ⊎ (block.p + size ≤ j) → after.memory j ≡ mm.memory j
  pub same : (a n i : ℕ) → IsKept mm os a n → i < n → after.memory (a + i) ≡ mm.memory (a + i)
  pub start : after.heap_begin ≡ mm.heap_begin
  pub end : after.heap_end ≡ mm.heap_end
  pub top : after.last_alloc ≤ mm.last_alloc + size + 12

module _ (mm : Mm) (os : List Owned) (size : ℕ) (u : IsUsed mm os) (pos : 0 < size)
    (room : mm.last_alloc + size + 8 < mm.heap_end) where
  got : Allocated mm os size
  got = malloc-Allocated mm os size u pos room

  abbrev zeros : Memory
  zeros = memset got.p 0 size got.after.memory

  beside : (j : ℕ) → (j < got.p) ⊎ (got.p + size ≤ j) → zeros j ≡ got.after.memory j
  beside j apart = ground (arith, memset_lem got.p 0 size got.after.memory j, apart)

  kcalloc_result : kcalloc size 1 mm ≡ returned got.p (record got.after { memory = zeros })
  unfolding kcalloc clear_result
  kcalloc_result =
      let bytes : u32 (size * 1) ≡ size = omega (arith, u.heap.small) in
      ap (λ n. clear_result n (malloc n mm)) bytes ∙ ap (clear_result size) got.result

  pub kcalloc-Cleared : Cleared mm os size
  kcalloc-Cleared = record {
    block = got;
    after = record got.after { memory = zeros };
    result = kcalloc_result;
    used = IsUsed-owner got.after zeros got.p size os beside got.used;
    cleared = λ i h. ground (arith, memset_lem got.p 0 size got.after.memory (got.p + i), h);
    outside = λ j apart. beside j (narrow j apart) ∙ got.outside j apart;
    same = λ a n i kept h.
        beside (a + i) (side a n i h (Allocated-clear mm os size u pos room got a n kept))
        ∙ Allocated-same mm os size u pos room got a n i kept h;
    start = got.start;
    end = got.end;
    top = got.top;
  }
    where
      side :
          (a n i : ℕ)
          → i < n
          → (a + n + 8 ≤ got.p) ⊎ (got.p + size ≤ a)
          → (a + i < got.p) ⊎ (got.p + size ≤ a + i)
      side a n i h (inl lo) = inl (omega arith)
      side a n i h (inr hi) = inr (omega arith)

      narrow : (j : ℕ) → (j + 8 < got.p) ⊎ (got.p + size ≤ j) → (j < got.p) ⊎ (got.p + size ≤ j)
      narrow j (inl lo) = inl (omega arith)
      narrow j (inr hi) = inr hi
