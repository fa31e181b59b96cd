-- ===== src/Kmalloc/Tests.antt =====
-- Runs of the allocator on a heap at 4096.
use unos.Base.{ℕ, ◌≡◌, ◌≢◌, refl, arith, [], ◌∷◌}
use unos.Memory.{load32, Memory, store32}
use unos.Dmm.{dmm_sbrk, dmm_init}
use unos.Kmalloc.{get_size, Kheap, fit, find_fit, mm_malloc, mm_free, mm_init, returned}
use unos.Kmalloc.Blocks.{find_fit-finds_nothing}
use unos.Kmalloc.Start.{IsStarted, mm_init-IsStarted}
use unos.Kmalloc.Runs.{Reach, begin, serve, give_back, Reach-IsHeap}
use unos.Kmalloc.Heap.{IsHeap, IsServed}
use unos.Kmalloc.Serve.{mm_malloc-IsServed, mm_malloc-high}
use unos.Kmalloc.Free.{IsFreed, mm_free-IsFreed}

abbrev no_memory : Memory
no_memory j = 0

abbrev fresh : Kheap
fresh = record { memory = no_memory; heap_listp = 0; dmm = dmm_init 4096 16384 }

abbrev start : IsStarted (mm_init fresh) 4096 16384
start = mm_init-IsStarted no_memory 0 4096 16384 (omega arith) (omega arith) (omega arith)

mm_malloc-IsServed_example :
    IsServed start.after
      (mm_malloc 9 100 start.after)
      4100
      8204
      112
      (record { size = 4096; alloc = 0 } ∷ [])
mm_malloc-IsServed_example =
    mm_malloc-IsServed 9 100 start.after 4100 8204 (record { size = 4096; alloc = 0 } ∷ [])
      start.heap (omega arith) (omega arith) (omega arith) (omega (arith, start.most))

abbrev used :
    IsServed start.after
      (mm_malloc 9 100 start.after)
      4100
      8204
      112
      (record { size = 4096; alloc = 0 } ∷ [])
used =
    mm_malloc-IsServed 9 100 start.after 4100 8204 (record { size = 4096; alloc = 0 } ∷ [])
      start.heap (omega arith) (omega arith) (omega arith) (omega (arith, start.most))

-- The block of 112 bytes, between two free ones.
mm_free-IsFreed_example :
    IsFreed used.after
      (mm_free 8208 used.after)
      4100
      12300
      (record { size = 4096; alloc = 0 } ∷ [])
      (record { size = 112; alloc = 1 })
      (record { size = 3984; alloc = 0 } ∷ [])
mm_free-IsFreed_example =
    mm_free-IsFreed used.after 4100 12300 (record { size = 4096; alloc = 0 } ∷ [])
      (record { size = 112; alloc = 1 }) (record { size = 3984; alloc = 0 } ∷ []) used.heap

-- a free block of 64 bytes at 100
abbrev free_block : Memory
free_block = store32 100 64 no_memory

find_fit-finds_nothing_example : find_fit 9 104 16 free_block ≢ fit 104
find_fit-finds_nothing_example = find_fit-finds_nothing 9 104 16 104 free_block

abbrev high_heap : Kheap
high_heap = record { memory = no_memory; heap_listp = 8; dmm = dmm_init 0xc010_0000 0x10_0000 }

high_run :
    mm_malloc 9 100 high_heap
    ≡ returned 0 (record {
      memory = no_memory;
      heap_listp = 8;
      dmm = record { mem_heap = 0xc010_0000; mem_brk = 0xc010_1000; mem_max_adrr = 0xc020_0000 };
    })
unfolding mm_malloc dmm_sbrk get_size load32
high_run = refl

mm_malloc-high_example : ◌≡◌ {A = ℕ} 0 0
mm_malloc-high_example =
    mm_malloc-high 9 100 0 high_heap
      (record {
        memory = no_memory;
        heap_listp = 8;
        dmm = record { mem_heap = 0xc010_0000; mem_brk = 0xc010_1000; mem_max_adrr = 0xc020_0000 };
      })
      (omega arith) high_run

-- A block of 112 bytes taken and given back.
abbrev run : Reach (mm_free 8208 used.after) 4100 12300 (
    record { size = 4096; alloc = 0 }
    ∷ record { size = 112; alloc = 0 }
    ∷ record { size = 3984; alloc = 0 }
    ∷ [])
run =
    give_back (record { size = 4096; alloc = 0 } ∷ []) (record { size = 112; alloc = 1 })
      (record { size = 3984; alloc = 0 } ∷ [])
      (serve 9 100
        (begin no_memory 0 4096 16384 (omega arith) (omega arith) (omega arith) start.result)
        (omega arith) (omega arith) (omega arith) used.result)

Reach-IsHeap_example : IsHeap (mm_free 8208 used.after) 4100 12300 (
    record { size = 4096; alloc = 0 }
    ∷ record { size = 112; alloc = 0 }
    ∷ record { size = 3984; alloc = 0 }
    ∷ [])
Reach-IsHeap_example = Reach-IsHeap run
