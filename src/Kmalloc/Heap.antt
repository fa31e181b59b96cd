-- ===== src/Kmalloc/Heap.antt =====
-- The heap's state, and an allocation in it.
use unos.Base.{
  ℕ, ◌+◌, ◌-◌, ◌/◌, ◌%◌, ◌^◌, ◌<◌, ◌≤◌, ◌≡◌, refl, arith, false, List, ◌∷◌, ◌++◌, ◌==◌,
  if◌then◌else◌, leb, ltb, ap, ◌∙◌, some, none,
}
use unos.Memory.{Memory}
use unos.Dmm.{dmm_sbrk-within, dmm_sbrk-beyond}
use unos.Kmalloc.{
  Kheap, no_fit, new_block, extend_with, extend_heap, even_words, place, place_new, take_fit,
  adjusted, chunksize, wsize, Outcome, returned, panic,
}
use unos.Kmalloc.Blocks.{Block, IsBlocks, IsBlocks-append}
use unos.Kmalloc.Coalesce.{Before, IsBlocks-last}
use unos.Kmalloc.Extend.{New, new_block-New}
use unos.Kmalloc.Place.{taken, IsTaken, place-IsTaken}

-- The block at the start, in use, which has no payload.
abbrev pub prologue : Block
prologue = record { size = 8; alloc = 1 }

-- The state of a heap from `start` to the header of its end at `e`.
pub record IsHeap (s : Kheap) (start e : ℕ) (bs : List Block) : Type 0 where
  pub listp : s.heap_listp ≡ start + 4
  pub blocks : IsBlocks s.memory start e (prologue ∷ bs)
  pub brk : s.dmm.mem_brk ≡ e + 4
  pub most : e + 4 ≤ s.dmm.mem_max_adrr
  pub low : s.dmm.mem_max_adrr < 2 ^ 31

-- how much the heap grows for a block
abbrev pub grow : ℕ → ℕ
grow asize = if ltb chunksize asize then asize else chunksize

pub adjusted-whole : (size : ℕ) → adjusted size % 8 ≡ 0
adjusted-whole size = ground arith

pub adjusted-bounds :
    (size : ℕ) → size < 2 ^ 32 - 15 → (16 ≤ adjusted size) × (size + 8 ≤ adjusted size)
adjusted-bounds size h = (ground arith, ground arith)

pub grow-whole : (asize : ℕ) → asize % 8 ≡ 0 → grow asize % 8 ≡ 0
grow-whole asize h = ground arith

pub le-grow : (asize : ℕ) → asize ≤ grow asize
le-grow asize = ground arith

module _ (size : ℕ) (s : Kheap) (whole : size % 8 ≡ 0) (small : size < 2 ^ 32)
    (lower : s.dmm.mem_brk < 2 ^ 31) where
  pub extend_heap-within :
      s.dmm.mem_brk + size ≤ s.dmm.mem_max_adrr
      → s.dmm.mem_max_adrr < 2 ^ 31
      → extend_heap (size / wsize) s ≡ (
          let r = new_block s.dmm.mem_brk size s.memory in
          some
            (r.0, record s { dmm = record s.dmm { mem_brk = s.dmm.mem_brk + size }; memory = r.1 }))
  unfolding extend_heap extend_with
  extend_heap-within room low =
      let ask : even_words (size / wsize) ≡ size = ground arith in
      let got = dmm_sbrk-within size s.dmm lower room low in
      let up : leb (2 ^ 31) s.dmm.mem_brk ≡ false = ground arith in rw (ask, got, up) refl

  extend_heap-beyond :
      s.dmm.mem_max_adrr < s.dmm.mem_brk + size → extend_heap (size / wsize) s ≡ none
  unfolding extend_heap extend_with
  extend_heap-beyond full =
      let ask : even_words (size / wsize) ≡ size = ground arith in
      let got = dmm_sbrk-beyond size s.dmm lower full in rw (ask, got) refl

place_new-some :
    (asize bp : ℕ) (t : Kheap)
    → 0 < bp
    → place_new asize (some (bp, t)) ≡ returned bp (record t { memory = place bp asize t.memory })
unfolding place_new
place_new-some asize bp t h = let there : (bp == 0) ≡ false = ground arith in rw (there) refl

-- The end of a heap that serves a request: the block is at the end `e`, and below it all stays.
pub record IsServed (s : Kheap) (r : Outcome) (start e asize : ℕ) (bs : List Block) : Type 0 where
  pub after : Kheap
  pub result : r ≡ returned (e + 4) after
  pub heap : IsHeap after start (e + grow asize) (bs ++ taken asize (grow asize))
  pub most : after.dmm.mem_max_adrr ≡ s.dmm.mem_max_adrr
  pub below : (j : ℕ) → j < e → after.memory j ≡ s.memory j

module _ (s : Kheap) (start e asize : ℕ) (bs : List Block) (heap : IsHeap s start e bs)
    (whole : asize % 8 ≡ 0) (least : 8 ≤ asize) (small : asize < 2 ^ 32) where
  pub take_fit-beyond : s.dmm.mem_max_adrr < e + 4 + grow asize → take_fit asize no_fit s ≡ panic
  unfolding take_fit
  take_fit-beyond full =
      let h = grow-whole asize whole in
      rw
        (extend_heap-beyond (grow asize) s h (ground arith)
          (omega (arith, heap.brk, heap.most, heap.low)) (omega (arith, heap.brk)))
        refl

  -- the heap's last block, before the end
  before : Before s.memory e
  before = IsBlocks-last s.memory start e prologue bs heap.blocks

  module _ (room : e + 4 + grow asize ≤ s.dmm.mem_max_adrr) where
    abbrev grown : Memory
    grown = (new_block (e + 4) (grow asize) s.memory).1

    abbrev served : Kheap
    served = record s {
      dmm = record s.dmm { mem_brk = s.dmm.mem_brk + grow asize };
      memory = place (e + 4) asize grown;
    }

    new : New s.memory e (grow asize) (new_block (e + 4) (grow asize) s.memory)
    new =
        new_block-New s.memory e (grow asize) before (grow-whole asize whole)
          (omega (arith, le-grow asize)) (omega (arith, heap.low))

    take_fit-served : take_fit asize no_fit s ≡ returned (e + 4) served
    unfolding take_fit
    take_fit-served =
        let gs = grow-whole asize whole in
        let got =
          extend_heap-within (grow asize) s gs (ground arith)
            (omega (arith, heap.brk, heap.most, heap.low)) (omega (arith, heap.brk)) heap.low in
        let size = grow asize in
        ap (place_new asize) got
        ∙ ap
            (λ b.
              (let r = new_block b size s.memory in
                place_new asize (
                  some (
                    r.0,
                    record s {
                      dmm = record s.dmm { mem_brk = s.dmm.mem_brk + size };
                      memory = r.1;
                    },
                  ))))
            heap.brk
        ∙ ap
            (λ q. place_new asize (
              some (
                q,
                record s { dmm = record s.dmm { mem_brk = s.dmm.mem_brk + size }; memory = grown },
              )))
            new.place
        ∙ place_new-some asize (e + 4)
            (record s { dmm = record s.dmm { mem_brk = s.dmm.mem_brk + size }; memory = grown })
            (omega arith)

    taken_new :
        IsTaken grown (place (e + 4) asize grown) e (e + grow asize) (taken asize (grow asize))
    taken_new =
        let (head, foot, wide, large, mark, (at, last)) = new.blocks in
        place-IsTaken grown e asize (grow asize) (omega (arith, head)) last wide whole least
          (le-grow asize) (omega (arith, heap.low))

    pub take_fit-IsServed : IsServed s (take_fit asize no_fit s) start e asize bs
    take_fit-IsServed =
        let below : (j : ℕ) → j < e → served.memory j ≡ s.memory j =
          λ j h. taken_new.below j h ∙ new.below j h in
        record {
          after = served;
          result = take_fit-served;
          heap = record {
            listp = heap.listp;
            blocks =
                IsBlocks-append s.memory served.memory start e (e + grow asize) (prologue ∷ bs)
                  (taken asize (grow asize)) (λ j p q. below j q) heap.blocks taken_new.blocks;
            brk = omega (arith, heap.brk);
            most = omega (arith, room);
            low = heap.low;
          };
          most = refl;
          below = below;
        }
