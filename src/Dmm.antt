-- ===== src/Dmm.antt =====
-- kernel/mm/dmm.c: the memory that the heap of kmalloc.c grows into. `PANIC` stops the machine: the
-- result is `none`.
use unos.Base.{
  ℕ, ◌<◌, ◌≤◌, ◌≡◌, arith, ◌+◌, ◌^◌, Option, none, some, ◌||◌, ltb, leb, if◌then◌else◌, u32,
}

pub record Dmm : Type 0 where
  pub mem_heap : ℕ
  pub mem_brk : ℕ
  pub mem_max_adrr : ℕ

abbrev pub dmm_init : (start size : ℕ) → Dmm
dmm_init start size = record {
  mem_heap = start;
  mem_brk = start;
  mem_max_adrr = u32 (start + size);
}

-- `incr` is an `int`, kept modulo 2 ^ 32
unfoldable pub dmm_sbrk : (incr : ℕ) → Dmm → Option (ℕ × Dmm)
dmm_sbrk incr d =
    if leb (2 ^ 31) incr || ltb d.mem_max_adrr (u32 (d.mem_brk + incr))
    then none
    else some (d.mem_brk, record d { mem_brk = u32 (d.mem_brk + incr) })

module _ (incr : ℕ) (d : Dmm) (lower : d.mem_brk < 2 ^ 31) where
  pub dmm_sbrk-within :
      d.mem_brk + incr ≤ d.mem_max_adrr
      → d.mem_max_adrr < 2 ^ 31
      → dmm_sbrk incr d ≡ some (d.mem_brk, record d { mem_brk = d.mem_brk + incr })
  unfolding dmm_sbrk
  dmm_sbrk-within room low = ground arith

  pub dmm_sbrk-beyond : d.mem_max_adrr < d.mem_brk + incr → dmm_sbrk incr d ≡ none
  unfolding dmm_sbrk
  dmm_sbrk-beyond full = ground arith
