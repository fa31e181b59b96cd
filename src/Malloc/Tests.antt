-- ===== src/Malloc/Tests.antt =====
-- The heap's theorems at a heap of two blocks, 16 bytes in use at 4096 and 32 bytes free at 4124.
use unos.Malloc.{
  set_desc, init_mm, memset, Mm, sizeof_alloc, returned, malloc, free, place, find_block, new_block,
  reuse_block,
}
use unos.Malloc.Account.{state, grown}
use unos.Base.{update, ◌+◌, ◌≡◌, refl, arith, List, [], ◌∷◌, u32, ◌==◌, if◌then◌else◌}
use unos.Memory.{load32}
use unos.Malloc.Chain.{Block, first_fit}
use unos.Base.Take.{here}
use unos.Malloc.Owners.{IsUsed, boot, write, give_back}
use unos.Malloc.Runs.{Reach-IsUsed}
use unos.Malloc.Laws.{IsHeap, Serves, malloc_lem}

abbrev two_blocks : Mm
two_blocks = record {
  memory = λ j. if j == 4096 then 1 else if j == 4100 then 16 else if j == 4128 then 32 else 0;
  last_alloc = 4168;
  heap_end = 8192;
  heap_begin = 4096;
  pheap_begin = 8192;
  pheap_end = 139264;
  pheap_desc = 0;
  memory_used = 28;
}

abbrev blocks : List Block
blocks = record { status = 1; size = 16 } ∷ record { status = 0; size = 32 } ∷ []

two_blocks-IsHeap : IsHeap two_blocks blocks
unfolding load32
two_blocks-IsHeap = record {
  chain = (refl, refl, omega arith, (refl, refl, omega arith, refl));
  room = omega arith;
  small = omega arith;
}

abbrev reused : Mm
reused = record two_blocks {
  memory = memset (4124 + sizeof_alloc) 0 20 (update two_blocks.memory 4124 1);
  memory_used = u32 (28 + 20 + sizeof_alloc);
}

reuse_run : malloc 20 two_blocks ≡ returned 4132 reused
unfolding malloc place find_block reuse_block load32
reuse_run = refl

malloc_lem_example : Serves 20 two_blocks blocks (first_fit 20 4096 blocks) (malloc 20 two_blocks)
malloc_lem_example = malloc_lem two_blocks blocks 20 two_blocks-IsHeap (omega arith) (omega arith)

new_run : malloc 40 two_blocks ≡ returned 4176 (grown 40 two_blocks)
unfolding malloc place find_block new_block load32
new_run = refl

-- a heap of 200 bytes
abbrev cold : Mm
cold = record two_blocks { memory = λ j. 255; memory_used = 0 }

abbrev booted : Mm
booted = state cold (init_mm 4096 135368 cold)

booted_run : init_mm 4096 135368 cold ≡ returned 4104 booted
unfolding init_mm malloc place find_block new_block load32 set_desc
booted_run = refl

Reach-IsUsed_example :
    IsUsed (free 4104 (record booted { memory = update booted.memory 4110 7 })) []
Reach-IsUsed_example = Reach-IsUsed (
    give_back
      (write 4110 7 (boot cold 4096 135368 (omega arith) (omega arith) booted_run) here
        (omega arith) (omega arith))
      here)
