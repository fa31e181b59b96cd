-- ===== src/Kmalloc/Tags.antt =====
-- Words that hold a size and a mark, and the two that a block has.
use unos.Base.{
  ℕ, ◌+◌, ◌-◌, ◌*◌, ◌/◌, ◌%◌, ◌^◌, ◌<◌, ◌≤◌, ◌≡◌, ◌⊎◌, inl, inr, arith, bit_and, ap, u32, ◌∙◌,
}
use unos.Base.Masks.{bit_and-ones, bit_and-shift, bit_or-add}
use unos.Memory.{Memory, load32, store32, store32_apart, load32-store32, load32-store32_apart}
use unos.Kmalloc.{get_size, get_alloc, hdrp, ftrp, next_blkp, pack, put_tags, dsize}

-- A size is what is left of a word without its three lowest digits; the mark's test keeps all digits
-- but the lowest.
pub size_mask : (w : ℕ) → bit_and w 0xffff_fff8 ≡ w / 8 % 2 ^ 29 * 8
size_mask w = omega (arith, bit_and-shift w (2 ^ 29 - 1) 3, bit_and-ones (w / 2 ^ 3) 29)

pub alloc_mask : (w : ℕ) → bit_and w 0xffff_fffe ≡ w / 2 % 2 ^ 31 * 2
alloc_mask w = omega (arith, bit_and-shift w (2 ^ 31 - 1) 1, bit_and-ones (w / 2 ^ 1) 31)

pub pack_lem : (size alloc : ℕ) → size % 8 ≡ 0 → alloc < 8 → pack size alloc ≡ size + alloc
pack_lem size alloc whole small = bit_or-add size (size / 8) alloc 3 (omega arith) small

module _ (a size alloc : ℕ) (m : Memory) (word : load32 a m ≡ size + alloc) (whole : size % 8 ≡ 0)
    (small : alloc < 2) (low : size < 2 ^ 31) where
  pub get_size-word : get_size a m ≡ size
  unfolding get_size
  get_size-word = omega (arith, size_mask (load32 a m), word)

  pub get_alloc-word : get_alloc a m ≡ size
  unfolding get_alloc
  get_alloc-word = omega (arith, alloc_mask (load32 a m), word)

pub hdrp_lem : (a : ℕ) → a < 2 ^ 31 → hdrp (a + 4) ≡ a
hdrp_lem a h = omega arith

-- From a block's header the place of its footer and the next block's pointer.
module _ (a size alloc : ℕ) (m : Memory) (word : load32 a m ≡ size + alloc) (whole : size % 8 ≡ 0)
    (small : alloc < 2) (low : a + size < 2 ^ 31) where
  pub size_lem : get_size (hdrp (a + 4)) m ≡ size
  size_lem =
      ap (λ p. get_size p m) (hdrp_lem a (omega arith))
      ∙ get_size-word a size alloc m word whole small (omega arith)

  pub ftrp_lem : 8 ≤ size → ftrp (a + 4) m ≡ a + size - 4
  ftrp_lem least = omega (arith, size_lem)

  pub next_blkp_lem : next_blkp (a + 4) m ≡ a + size + 4
  next_blkp_lem = omega (arith, size_lem)

-- What writing a block's two words leaves.
pub record Put (m m' : Memory) (a size alloc : ℕ) : Type 0 where
  pub header : load32 a m' ≡ size + alloc
  pub footer : load32 (a + size - 4) m' ≡ size + alloc
  pub same : (j : ℕ) → (j < a) ⊎ (a + 4 ≤ j) → (j < a + size - 4) ⊎ (a + size ≤ j) → m' j ≡ m j

pub put_tags-Put :
    (a size alloc : ℕ) (m : Memory)
    → size % 8 ≡ 0
    → 8 ≤ size
    → alloc < 2
    → a + size < 2 ^ 31
    → Put m (put_tags (a + 4) size alloc m) a size alloc
unfolding put_tags
put_tags-Put a size alloc m whole least small low =
    let word = pack_lem size alloc whole (omega arith) in
    let m1 = store32 a (size + alloc) m in
    let head = load32-store32 a (size + alloc) m (omega arith) in
    let place = hdrp_lem a (omega arith) in
    let read = get_size-word a size alloc m1 head whole small (omega arith) in
    let last : u32 (a + 4 + size + 2 ^ 32 - dsize) ≡ a + size - 4 = omega arith in
    rw (place, word, read, last)
      (record {
        header = load32-store32_apart (a + size - 4) a (size + alloc) m1 (inl (omega arith)) ∙ head;
        footer = load32-store32 (a + size - 4) (size + alloc) m1 (omega arith);
        same = λ j p q.
            store32_apart (a + size - 4) (size + alloc) j m1 (footer_apart j q)
            ∙ store32_apart a (size + alloc) j m p;
      })
  where
    footer_apart :
        (j : ℕ) → (j < a + size - 4) ⊎ (a + size ≤ j) → (j < a + size - 4) ⊎ (a + size - 4 + 4 ≤ j)
    footer_apart j (inl lo) = inl lo
    footer_apart j (inr hi) = inr (omega arith)
