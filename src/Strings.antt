-- ===== src/Strings.antt =====
-- lib/string.c over the memory of Memory.antt. A pointer is its address, NULL is 0, and a `char` is
-- its byte.
pub mod Bytes
pub mod Text
pub mod Numbers
mod Tests
use unos.Base.{
  ℕ, zero, suc, ◌+◌, ◌-◌, ◌*◌, ◌/◌, ◌%◌, ◌^◌, Bool, true, false, not, ◌||◌, Option, none, some, ltb,
  leb, ◌==◌, if◌then◌else◌, u8, u16, u32, update,
}
use unos.Memory.{Memory, store16, store32}

-- the loop of `memset` from index `i` on, with `rounds` left
pub memset_loop : (rounds i s c : ℕ) → Memory → Memory
memset_loop zero i s c m = m
memset_loop (suc rounds) i s c m = memset_loop rounds (i + 1) s c (update m (s + i) c)

pub memset : (s c n : ℕ) → Memory → Memory
unfolding memset_loop
memset s c n m = memset_loop n 0 s (u8 c) m

-- the loop of `memmove`: upwards, one byte after the other
pub memmove_loop : (rounds i dst src : ℕ) → Memory → Memory
memmove_loop zero i dst src m = m
memmove_loop (suc rounds) i dst src m =
    memmove_loop rounds (i + 1) dst src (update m (dst + i) (m (src + i)))

pub memmove : (dst src len : ℕ) → Memory → Memory
unfolding memmove_loop
memmove dst src len m = memmove_loop len 0 dst src m

-- `*p++ = *q++`
pub memcpy : (dst src n : ℕ) → Memory → Memory
memcpy p q zero m = m
memcpy p q (suc n) m = memcpy (p + 1) (q + 1) n (update m p (m q))

pub memsetw : (dest val count : ℕ) → Memory → Memory
memsetw temp val zero m = m
memsetw temp val (suc count) m = memsetw (temp + 2) val count (store16 temp val m)

pub memsetdw : (dest val count : ℕ) → Memory → Memory
memsetdw temp val zero m = m
memsetdw temp val (suc count) m = memsetdw (temp + 4) val count (store32 temp val m)
