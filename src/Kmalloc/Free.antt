-- ===== src/Kmalloc/Free.antt =====
-- `mm_free` in a heap of blocks.
use unos.Base.{ℕ, ◌+◌, ◌-◌, ◌%◌, ◌<◌, ◌≤◌, ◌≡◌, refl, arith, ◌⊎◌, List, [], ◌∷◌, ◌++◌}
use unos.Memory.{Memory, load32}
use unos.Kmalloc.{Kheap, put_tags, mm_free}
use unos.Kmalloc.Tags.{size_lem, Put, put_tags-Put}
use unos.Kmalloc.Blocks.{Block, IsBlocks, IsBlocks-le, IsBlocks-put, behind}
use unos.Kmalloc.Coalesce.{IsBlocks-Before, IsBlocks-behind, coalesce-Put}
use unos.Kmalloc.Heap.{IsHeap, prologue}

-- The header that follows a block: the next one's, or the end's.
record Next (m : Memory) (c e : ℕ) : Type 0 where
  size : ℕ
  alloc : ℕ
  header : load32 c m ≡ size + alloc
  whole : size % 8 ≡ 0
  mark : alloc < 2
  room : c + size ≤ e

IsBlocks-Next : (m : Memory) (c e : ℕ) (ys : List Block) → IsBlocks m c e ys → Next m c e
IsBlocks-Next m c e [] (at, last) = record {
  size = 0;
  alloc = 1;
  header = last;
  whole = refl;
  mark = omega arith;
  room = omega (arith, at);
}
IsBlocks-Next m c e (y ∷ ys) (head, foot, whole, least, mark, c') = record {
  size = y.size;
  alloc = y.alloc;
  header = head;
  whole = whole;
  mark = mark;
  room = IsBlocks-le m (c + y.size) e ys c';
}

-- A block of which only the mark is changed, in the heap and in the bytes.
pub record IsFreed (s t : Kheap) (start e : ℕ) (xs : List Block) (b : Block) (ys : List Block)
    : Type 0 where
  pub heap : IsHeap t start e (xs ++ (record { size = b.size; alloc = 0 } ∷ ys))
  pub same :
      (j : ℕ)
      → (j < behind (start + 8) xs) ⊎ (behind (start + 8) xs + 4 ≤ j)
      → (j < behind (start + 8) xs + b.size - 4) ⊎ (behind (start + 8) xs + b.size ≤ j)
      → t.memory j ≡ s.memory j

module _ (s : Kheap) (start e : ℕ) (xs : List Block) (b : Block) (ys : List Block)
    (heap : IsHeap s start e (xs ++ (b ∷ ys))) where
  freed :
      Put s.memory (mm_free (behind (start + 8) xs + 4) s).memory (behind (start + 8) xs) b.size 0
  unfolding mm_free
  freed =
      let a = behind (start + 8) xs in
      let (head, foot, whole, least, mark, rest) =
        IsBlocks-behind s.memory start e (prologue ∷ xs) (b ∷ ys) heap.blocks in
      let le = IsBlocks-le s.memory (a + b.size) e ys rest in
      let size =
        size_lem a b.size b.alloc s.memory head whole mark (omega (arith, heap.most, heap.low)) in
      let n = put_tags (a + 4) b.size 0 s.memory in
      let put =
        put_tags-Put a b.size 0 s.memory whole least (omega arith)
          (omega (arith, heap.most, heap.low)) in
      let blocks =
        IsBlocks-put s.memory n start e 0 (prologue ∷ xs) b ys (omega arith) heap.blocks put in
      let p =
        IsBlocks-Before n start e prologue xs (record { size = b.size; alloc = 0 } ∷ ys) blocks in
      let (_, _, _, _, _, rest') =
        IsBlocks-behind n start e (prologue ∷ xs) (record { size = b.size; alloc = 0 } ∷ ys)
          blocks in
      let q = IsBlocks-Next n (a + b.size) e ys rest' in
      rw (size) (
        coalesce-Put s.memory n a p (omega (arith, heap.most, heap.low)) b.size q.size q.alloc put
          whole least q.header q.whole q.mark (omega (arith, q.room, heap.most, heap.low)))

  -- In a heap of the blocks `xs`, `b` and `ys`, the freeing of the payload of `b` marks `b` as free and
  -- leaves all blocks as they are: none is joined with another; only the two words of `b` are written.
  pub mm_free-IsFreed : IsFreed s (mm_free (behind (start + 8) xs + 4) s) start e xs b ys
  unfolding mm_free
  mm_free-IsFreed = record {
    heap = record {
      listp = heap.listp;
      blocks =
          IsBlocks-put s.memory (mm_free (behind (start + 8) xs + 4) s).memory start e 0
            (prologue ∷ xs) b ys (omega arith) heap.blocks freed;
      brk = heap.brk;
      most = heap.most;
      low = heap.low;
    };
    same = freed.same;
  }
