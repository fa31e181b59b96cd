-- ===== src/Malloc/Writes.antt =====
-- Writes that leave the blocks: in a payload, or outside the heap.
use unos.Base.{ℕ, ◌^◌, ◌≢◌, ◌+◌, ◌-◌, ◌<◌, ◌≤◌, ◌≡◌, ◌⊎◌, inl, inr, arith, List, [], ◌∷◌, ◌∙◌}
use unos.Memory.{Memory, load32_ext}
use unos.Malloc.{Mm, free}
use unos.Malloc.Chain.{Block, IsChain, IsChain-le, IsChain-above, IsLive, IsLive-within}
use unos.Malloc.Owners.{Owned, IsUsed}

IsChain-payload :
    (m n : Memory) (x s a e : ℕ) (bs : List Block)
    → IsChain m a e bs
    → IsLive x s a bs
    → ((j : ℕ) → (j < x + 8) ⊎ (x + 8 + s ≤ j) → n j ≡ m j)
    → IsChain n a e bs
IsChain-payload m n x s a e [] c l same = absurd l
IsChain-payload m n x s a e (b ∷ bs) (st, sz, pos, c) (inl (at, size, busy)) same = (
  same a (inl (omega arith)) ∙ st,
  load32_ext (a + 4) m n (λ j p q. same j (inl (omega arith))) ∙ sz,
  pos,
  IsChain-above m n (a + b.size + 12) e bs (λ j p. same j (inr (omega arith))) c,
)
IsChain-payload m n x s a e (b ∷ bs) (st, sz, pos, c) (inr later) same =
    let (below, _) = IsLive-within m x s (a + b.size + 12) e bs c later in
    (
      same a (inl (omega arith)) ∙ st,
      load32_ext (a + 4) m n (λ j p q. same j (inl (omega arith))) ∙ sz,
      pos,
      IsChain-payload m n x s (a + b.size + 12) e bs c later same,
    )

IsChain-outer :
    (m n : Memory) (a e : ℕ) (bs : List Block)
    → ((j : ℕ) → a ≤ j → j + 5 ≤ e → n j ≡ m j)
    → IsChain m a e bs
    → IsChain n a e bs
IsChain-outer m n a e [] same c = c
IsChain-outer m n a e (b ∷ bs) same (st, sz, pos, c) =
    let le = IsChain-le m (a + b.size + 12) e bs c in
    (
      same a (omega arith) (omega arith) ∙ st,
      load32_ext (a + 4) m n (λ j p q. same j (omega arith) (omega arith)) ∙ sz,
      pos,
      IsChain-outer m n (a + b.size + 12) e bs (λ j p q. same j (omega arith) q) c,
    )

-- The first owner's writes.
pub IsUsed-owner :
    (mm : Mm) (m : Memory) (p size : ℕ) (os : List Owned)
    → ((j : ℕ) → (j < p) ⊎ (p + size ≤ j) → m j ≡ mm.memory j)
    → IsUsed mm ((p, size) ∷ os)
    → IsUsed (record mm { memory = m }) ((p, size) ∷ os)
IsUsed-owner mm m p size os same u =
    let ((x, n, at, pos, fits, live), rest) = u.hold in
    record {
      blocks = u.blocks;
      heap = record {
        chain =
            IsChain-payload mm.memory m x n mm.heap_begin mm.last_alloc u.blocks u.heap.chain live
              (λ j out. same j (outer j x n at fits out));
        room = u.heap.room;
        small = u.heap.small;
      };
      hold = u.hold;
      disjoint = u.disjoint;
    }
  where
    outer :
        (j x n : ℕ)
        → p ≡ x + 8
        → size ≤ n
        → (j < x + 8) ⊎ (x + 8 + n ≤ j)
        → (j < p) ⊎ (p + size ≤ j)
    outer j x n at fits (inl lo) = inl (omega arith)
    outer j x n at fits (inr hi) = inr (omega arith)

-- Writes outside the heap.
pub IsUsed-outer :
    (mm : Mm) (m : Memory) (os : List Owned)
    → ((j : ℕ) → mm.heap_begin ≤ j → j < mm.heap_end → m j ≡ mm.memory j)
    → IsUsed mm os
    → IsUsed (record mm { memory = m }) os
IsUsed-outer mm m os same u = record {
  blocks = u.blocks;
  heap = record {
    chain =
        IsChain-outer mm.memory m mm.heap_begin mm.last_alloc u.blocks
          (λ j lo hi. same j lo (omega (arith, u.heap.room))) u.heap.chain;
    room = u.heap.room;
    small = u.heap.small;
  };
  hold = u.hold;
  disjoint = u.disjoint;
}

pub free-same :
    (p j : ℕ) (mm : Mm) → 8 ≤ p → p < 2 ^ 32 → j + 8 ≢ p → (free p mm).memory j ≡ mm.memory j
unfolding free
free-same p j mm lo hi other = ground arith

-- A freed block's status byte says that it is free.
pub free-status : (p : ℕ) (mm : Mm) → 8 ≤ p → p < 2 ^ 32 → (free p mm).memory (p - 8) ≡ 0
unfolding free
free-status p mm lo hi = ground arith
