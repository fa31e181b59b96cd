-- ===== src/Memory.antt =====
-- The memory that the kernel's pointers go to: a byte at every address. The address space is taken
-- flat; the ranges that the theorems speak of do not reach its end.
use unos.Base.{ℕ, ◌+◌, ◌*◌, ◌/◌, ◌%◌, ◌^◌, ◌<◌, ◌≤◌, ◌≡◌, arith, update, ◌⊎◌, inl, inr}

abbrev pub Memory : Type 0
Memory = ℕ → ℕ

-- `*(uint32_t *)a` of a little-endian machine
unfoldable pub load32 : ℕ → Memory → ℕ
load32 a m = m a + 256 * m (a + 1) + 65536 * m (a + 2) + 16777216 * m (a + 3)

unfoldable pub store32 : (a v : ℕ) → Memory → Memory
store32 a v m =
    update
      (update (update (update m a (v % 256)) (a + 1) (v / 256 % 256)) (a + 2) (v / 65536 % 256))
      (a + 3) (v / 16777216 % 256)

-- `*(uint16_t *)a`
unfoldable pub load16 : ℕ → Memory → ℕ
load16 a m = m a + 256 * m (a + 1)

unfoldable pub store16 : (a v : ℕ) → Memory → Memory
store16 a v m = update (update m a (v % 256)) (a + 1) (v / 256 % 256)

-- what stays when a word is written
pub store32_apart : (a v j : ℕ) (m : Memory) → (j < a) ⊎ (a + 4 ≤ j) → store32 a v m j ≡ m j
unfolding store32
store32_apart a v j m h = ground arith

pub load32-store32 : (a v : ℕ) (m : Memory) → v < 2 ^ 32 → load32 a (store32 a v m) ≡ v
unfolding load32 store32
load32-store32 a v m h = ground arith

pub load32-store32_apart :
    (a b v : ℕ) (m : Memory) → (b + 4 ≤ a) ⊎ (a + 4 ≤ b) → load32 b (store32 a v m) ≡ load32 b m
unfolding load32
load32-store32_apart a b v m (inl h) = ground (
  arith,
  store32_apart a v b m (inl (omega arith)),
  store32_apart a v (b + 1) m (inl (omega arith)),
  store32_apart a v (b + 2) m (inl (omega arith)),
  store32_apart a v (b + 3) m (inl (omega arith)),
)
load32-store32_apart a b v m (inr h) = ground (
  arith,
  store32_apart a v b m (inr (omega arith)),
  store32_apart a v (b + 1) m (inr (omega arith)),
  store32_apart a v (b + 2) m (inr (omega arith)),
  store32_apart a v (b + 3) m (inr (omega arith)),
)

-- A word depends on its four bytes alone.
pub load32_ext :
    (a : ℕ) (m n : Memory) → ((j : ℕ) → a ≤ j → j < a + 4 → n j ≡ m j) → load32 a n ≡ load32 a m
unfolding load32
load32_ext a m n same = ground (
  arith,
  same a (omega arith) (omega arith),
  same (a + 1) (omega arith) (omega arith),
  same (a + 2) (omega arith) (omega arith),
  same (a + 3) (omega arith) (omega arith),
)

pub store16_apart : (a v j : ℕ) (m : Memory) → (j < a) ⊎ (a + 2 ≤ j) → store16 a v m j ≡ m j
unfolding store16
store16_apart a v j m h = ground arith

pub load16-store16 : (a v : ℕ) (m : Memory) → v < 2 ^ 16 → load16 a (store16 a v m) ≡ v
unfolding load16 store16
load16-store16 a v m h = ground arith
