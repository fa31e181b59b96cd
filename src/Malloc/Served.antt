-- ===== src/Malloc/Served.antt =====
-- A call of `malloc` for which there is room, with what its caller may rely on.
use unos.Base.{
  ℕ, ◌+◌, ◌^◌, ◌<◌, ◌≤◌, ◌≡◌, ◌⊎◌, inl, inr, refl, arith, List, [], ◌∷◌, ◌++◌, ◌∙◌, sym, ap,
}
use unos.Base.Take.{Take, there}
use unos.Malloc.{Mm, Found, nalloc, reuse, no_fuel, returned, malloc, place, new_block, reuse_block}
use unos.Malloc.Chain.{Block, first_fit, occupy}
use unos.Malloc.Laws.{new, Gives, Serves, malloc_lem}
use unos.Malloc.Account.{state, state_or, malloc_by_walk, malloc_far}
use unos.Malloc.Owners.{Owned, IsUsed, Holds-Take}
use unos.Malloc.Runs.{allocate-IsUsed}

-- A range of bytes that no allocation touches: outside the heap, or an owner's.
abbrev pub IsKept : Mm → List Owned → (a n : ℕ) → Type 0
IsKept mm os a n =
    (a + n ≤ mm.heap_begin) ⊎ ((mm.heap_end ≤ a) ⊎ ((rest : List Owned) × Take (a, n) os rest))

pub record Allocated (mm : Mm) (os : List Owned) (size : ℕ) : Type 0 where
  pub p : ℕ
  pub after : Mm
  pub result : malloc size mm ≡ returned p after
  pub used : IsUsed after ((p, size) ∷ os)
  pub outside : (j : ℕ) → (j + 8 < p) ⊎ (p + size ≤ j) → after.memory j ≡ mm.memory j
  pub within : (mm.heap_begin + 8 ≤ p) × (p + size ≤ mm.heap_end)
  pub start : after.heap_begin ≡ mm.heap_begin
  pub end : after.heap_end ≡ mm.heap_end
  pub top : after.last_alloc ≤ mm.last_alloc + size + 12

place-ends :
    (size p : ℕ) (r : Found) (mm mm' : Mm)
    → mm.last_alloc + size + 12 < 2 ^ 32
    → place size r mm ≡ returned p mm'
    → (mm'.heap_begin ≡ mm.heap_begin)
      × (mm'.heap_end ≡ mm.heap_end)
      × (mm'.last_alloc ≤ mm.last_alloc + size + 12)
unfolding place new_block reuse_block
place-ends size p nalloc mm mm' low e =
    let same = state_or _ p _ mm' _ e in
    (
      ap (λ m. m.heap_begin) (sym same),
      ap (λ m. m.heap_end) (sym same),
      omega (arith, ap (λ m. m.last_alloc) same),
    )
place-ends size p (reuse a) mm mm' low e =
    let same = ap (state mm) e in
    (
      ap (λ m. m.heap_begin) (sym same),
      ap (λ m. m.heap_end) (sym same),
      omega (arith, ap (λ m. m.last_alloc) same),
    )
place-ends size p no_fuel mm mm' low e = absurd cc

module _ (mm : Mm) (os : List Owned) (size : ℕ) (u : IsUsed mm os) (pos : 0 < size)
    (room : mm.last_alloc + size + 8 < mm.heap_end) where
  served :
      (p : ℕ) (mm' : Mm) (bs : List Block)
      → malloc size mm ≡ returned p mm'
      → Gives mm.memory size p mm' bs
      → Allocated mm os size
  served p mm' bs out gives =
      let (start, end, top) =
        place-ends size p (first_fit size mm.heap_begin u.blocks) mm mm'
          (omega (arith, u.heap.small, room))
          (sym (malloc_by_walk mm u.blocks u.heap size pos) ∙ out) in
      record {
        p = p;
        after = mm';
        result = out;
        used = allocate-IsUsed size p mm mm' os pos (omega (arith, u.heap.small)) out u;
        outside = gives.outside;
        within = (omega (arith, gives.within.0, start), omega (arith, gives.within.1, end));
        start = start;
        end = end;
        top = top;
      }

  allocated :
      (r : Found)
      → first_fit size mm.heap_begin u.blocks ≡ r
      → Serves size mm u.blocks r (malloc size mm)
      → Allocated mm os size
  allocated nalloc h (inl (full, stopped)) = absurd (omega arith)
  allocated nalloc h (inr (mm', out, gives)) =
      served (mm.last_alloc + 8) mm' (u.blocks ++ (new size ∷ [])) out gives
  allocated (reuse a) h (mm', out, gives) = served (a + 8) mm' (occupy size u.blocks) out gives
  allocated no_fuel h none = absurd none

  pub malloc-Allocated : Allocated mm os size
  malloc-Allocated =
      allocated (first_fit size mm.heap_begin u.blocks) refl
        (malloc_lem mm u.blocks size u.heap pos (omega (arith, u.heap.small)))

  pub Allocated-owner :
      (r : Allocated mm os size) (a n : ℕ) {rest : List Owned}
      → Take (a, n) os rest
      → (a + n + 8 ≤ r.p) ⊎ (r.p + size + 12 ≤ a)
  Allocated-owner r a n t =
      let ((x, s, at, some_size, fits, live), _) = Holds-Take mm.heap_begin u.blocks t u.hold in
      elim (malloc_far mm u.blocks u.heap size x s r.p pos live (omega (arith, u.heap.small))
        r.result) [ inl lo ↦ inl (omega arith) | inr hi ↦ inr (omega arith) ]

  -- The new block is clear of every range that is kept, with its header.
  pub Allocated-clear :
      (r : Allocated mm os size) (a n : ℕ) → IsKept mm os a n → (a + n + 8 ≤ r.p) ⊎ (r.p + size ≤ a)
  Allocated-clear r a n (inl below) = inl (omega (arith, r.within))
  Allocated-clear r a n (inr (inl above)) = inr (omega (arith, r.within))
  Allocated-clear r a n (inr (inr (rest, t))) = elim (Allocated-owner r a n t) [
    | inl lo ↦ inl lo
    | inr hi ↦ inr (omega arith)
  ]

  -- What was kept is kept.
  pub Allocated-IsKept :
      (r : Allocated mm os size) (a n : ℕ)
      → IsKept mm os a n
      → IsKept r.after ((r.p, size) ∷ os) a n
  Allocated-IsKept r a n (inl below) = inl (omega (arith, r.start))
  Allocated-IsKept r a n (inr (inl above)) = inr (inl (omega (arith, r.end)))
  Allocated-IsKept r a n (inr (inr (rest, t))) = inr (inr ((r.p, size) ∷ rest, there t))

  pub Allocated-same :
      (r : Allocated mm os size) (a n i : ℕ)
      → IsKept mm os a n
      → i < n
      → r.after.memory (a + i) ≡ mm.memory (a + i)
  Allocated-same r a n i kept h = r.outside (a + i) (side (Allocated-clear r a n kept))
    where
      side : (a + n + 8 ≤ r.p) ⊎ (r.p + size ≤ a) → (a + i + 8 < r.p) ⊎ (r.p + size ≤ a + i)
      side (inl lo) = inl (omega arith)
      side (inr hi) = inr (omega arith)
