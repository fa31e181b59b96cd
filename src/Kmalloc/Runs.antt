-- ===== src/Kmalloc/Runs.antt =====
-- The runs of the allocator, and the heaps that they reach.
use mathlib.Core.Path.{subst}
use unos.Base.{
  ℕ, ◌+◌, ◌-◌, ◌^◌, ◌<◌, ◌≤◌, ◌≡◌, inl, inr, arith, List, [], ◌∷◌, ◌++◌, length, ap, ◌∙◌, sym,
  Option, some, none, Bool-cases, ltb,
}
use unos.Memory.{Memory}
use unos.Dmm.{dmm_init}
use unos.Kmalloc.{
  Kheap, Outcome, returned, panic, out_of_fuel, adjusted, mm_malloc, mm_free, mm_init,
}
use unos.Kmalloc.Blocks.{Block, behind}
use unos.Kmalloc.Heap.{IsHeap, grow}
use unos.Kmalloc.Place.{taken}
use unos.Kmalloc.Serve.{mm_malloc-IsServed, mm_malloc-panic}
use unos.Kmalloc.Free.{mm_free-IsFreed}
use unos.Kmalloc.Start.{mm_init-IsStarted}

-- A run from `mm_init` on, with the blocks that it makes between `start` and `e`. Requests are not empty,
-- and not so large that their size with the tags wraps.
pub data Reach : Kheap → (start e : ℕ) → List Block → Type 0 where
  begin :
      {s : Kheap} (m : Memory) (listp p size : ℕ)
      → 0 < p
      → 4112 ≤ size
      → p + size < 2 ^ 31
      → mm_init (record { memory = m; heap_listp = listp; dmm = dmm_init p size }) ≡ some (0, s)
      → Reach s (p + 4) (p + 12 + 4096) (record { size = 4096; alloc = 0 } ∷ [])
  serve :
      {s t : Kheap} {start e q : ℕ} {bs : List Block} (fuel size : ℕ)
      → Reach s start e bs
      → 0 < size
      → size < 2 ^ 32 - 15
      → length bs + 1 < fuel
      → mm_malloc fuel size s ≡ returned q t
      → Reach t start
          (e + grow (adjusted size))
          (bs ++ taken (adjusted size) (grow (adjusted size)))
  give_back :
      {s : Kheap} {start e : ℕ} (xs : List Block) (b : Block) (ys : List Block)
      → Reach s start e (xs ++ (b ∷ ys))
      → Reach
          (mm_free (behind (start + 8) xs + 4) s)
          start
          e
          (xs ++ (record { size = b.size; alloc = 0 } ∷ ys))

panic-ne-returned : (q : ℕ) (t : Kheap) → panic ≡ returned q t → ⊥
panic-ne-returned q t e = cc

abbrev heap_of : Kheap → Outcome → Kheap
heap_of s (returned q t) = t
heap_of s panic = s
heap_of s out_of_fuel = s

abbrev state_of : Kheap → Option (ℕ × Kheap) → Kheap
state_of s none = s
state_of s (some (q, t)) = t

-- In every heap that a run reaches there are just the run's blocks, one behind the other, each with its
-- size and mark in header and footer alike, from the prologue to the end at the break.
pub Reach-IsHeap :
    {s : Kheap} {start e : ℕ} {bs : List Block} → Reach s start e bs → IsHeap s start e bs
Reach-IsHeap (begin {s} m listp p size pos least low made) =
    let first = mm_init-IsStarted m listp p size pos least low in
    let same : first.after ≡ s = ap (state_of s) (sym first.result ∙ made) in
    subst (λ t. IsHeap t (p + 4) (p + 12 + 4096) (record { size = 4096; alloc = 0 } ∷ [])) same
      first.heap
Reach-IsHeap (serve {s} {t} {start} {e} {q} {bs} fuel size r pos small enough got) =
    let heap = Reach-IsHeap r in
    elim (Bool-cases (ltb s.dmm.mem_max_adrr (e + 4 + grow (adjusted size)))) [
      | inl full ↦
          let stopped =
            mm_malloc-panic fuel size s start e bs heap pos small enough (ground (arith, full)) in
          absurd (panic-ne-returned q t (sym stopped ∙ got))
      | inr room ↦
          let served =
            mm_malloc-IsServed fuel size s start e bs heap pos small enough
              (ground (arith, room)) in
          let same : served.after ≡ t = ap (heap_of s) (sym served.result ∙ got) in
          subst
            (λ n.
              IsHeap n start (e + grow (adjusted size))
                (bs ++ taken (adjusted size) (grow (adjusted size))))
            same served.heap
    ]
Reach-IsHeap (give_back {s} {start} {e} xs b ys r) =
    (mm_free-IsFreed s start e xs b ys (Reach-IsHeap r)).heap
