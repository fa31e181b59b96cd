-- ===== src/Kmalloc/Blocks.antt =====
-- The heap as a list of blocks, and the search over it.
use unos.Kmalloc.Tags.{
  alloc_mask, size_mask, get_size-word, get_alloc-word, hdrp_lem, next_blkp_lem, Put,
}
use unos.Kmalloc.{hdrp, next_blkp, fit, get_alloc, get_size, no_fit, find_fit}
use unos.Base.{
  ◌≢◌, ℕ, zero, suc, ◌+◌, ◌-◌, ◌%◌, ◌^◌, ◌<◌, ◌≤◌, ◌≡◌, inl, inr, refl, arith, false, List, [], ◌∷◌,
  ◌++◌, ◌==◌, length, ◌∙◌, sym,
}
use mathlib.Core.Path.{subst}
use unos.Memory.{Memory, load32, load32_ext}

pub record Block : Type 0 where
  pub size : ℕ
  pub alloc : ℕ

-- From the header at `a` on the memory holds the blocks `bs`, header and footer alike, and at `e` the
-- header of the end, a block in use of size 0.
abbrev pub IsBlocks : Memory → ℕ → ℕ → List Block → Type 0
IsBlocks m a e [] = (a ≡ e) × (load32 a m ≡ 1)
IsBlocks m a e (b ∷ bs) =
    (load32 a m ≡ b.size + b.alloc)
    × (load32 (a + b.size - 4) m ≡ b.size + b.alloc)
    × (b.size % 8 ≡ 0)
    × (8 ≤ b.size)
    × (b.alloc < 2)
    × IsBlocks m (a + b.size) e bs

-- the place behind the blocks
abbrev pub behind : ℕ → List Block → ℕ
behind a [] = a
behind a (b ∷ bs) = behind (a + b.size) bs

pub IsBlocks-le : (m : Memory) (a e : ℕ) (bs : List Block) → IsBlocks m a e bs → a ≤ e
IsBlocks-le m a e [] c = omega arith
IsBlocks-le m a e (b ∷ bs) (_, _, _, _, _, c) = omega (arith, IsBlocks-le m (a + b.size) e bs c)

pub le-behind : (a : ℕ) (bs : List Block) → a ≤ behind a bs
le-behind a [] = omega arith
le-behind a (b ∷ bs) = omega (arith, le-behind (a + b.size) bs)

pub IsBlocks-ext :
    (m n : Memory) (a e : ℕ) (bs : List Block)
    → ((j : ℕ) → a ≤ j → j < e + 4 → n j ≡ m j)
    → IsBlocks m a e bs
    → IsBlocks n a e bs
IsBlocks-ext m n a e [] same (at, last) =
    (at, load32_ext a m n (λ j p q. same j p (omega arith)) ∙ last)
IsBlocks-ext m n a e (b ∷ bs) same (head, foot, whole, least, mark, c) =
    let le = IsBlocks-le m (a + b.size) e bs c in
    (
      load32_ext a m n (λ j p q. same j p (omega arith)) ∙ head,
      load32_ext (a + b.size - 4) m n (λ j p q. same j (omega arith) (omega arith)) ∙ foot,
      whole,
      least,
      mark,
      IsBlocks-ext m n (a + b.size) e bs (λ j p q. same j (omega arith) q) c,
    )

-- Blocks put in the place of the end.
pub IsBlocks-append :
    (m n : Memory) (a e f : ℕ) (bs cs : List Block)
    → ((j : ℕ) → a ≤ j → j < e → n j ≡ m j)
    → IsBlocks m a e bs
    → IsBlocks n e f cs
    → IsBlocks n a f (bs ++ cs)
IsBlocks-append m n a e f [] cs same (at, last) d = subst (λ x. IsBlocks n x f cs) (sym at) d
IsBlocks-append m n a e f (b ∷ bs) cs same (head, foot, whole, least, mark, c) d =
    let le = IsBlocks-le m (a + b.size) e bs c in
    (
      load32_ext a m n (λ j p q. same j p (omega arith)) ∙ head,
      load32_ext (a + b.size - 4) m n (λ j p q. same j (omega arith) (omega arith)) ∙ foot,
      whole,
      least,
      mark,
      IsBlocks-append m n (a + b.size) e f bs cs (λ j p q. same j (omega arith) q) c d,
    )

-- A block whose words are written again with another mark.
pub IsBlocks-put :
    (m n : Memory) (a e alloc : ℕ) (xs : List Block) (b : Block) (ys : List Block)
    → alloc < 2
    → IsBlocks m a e (xs ++ (b ∷ ys))
    → Put m n (behind a xs) b.size alloc
    → IsBlocks n a e (xs ++ (record { size = b.size; alloc = alloc } ∷ ys))
IsBlocks-put m n a e alloc [] b ys new (head, foot, whole, least, mark, c) put = (
  put.header,
  put.footer,
  whole,
  least,
  new,
  IsBlocks-ext m n (a + b.size) e ys (λ j p q. put.same j (inr (omega arith)) (inr (omega arith)))
      c,
)
IsBlocks-put m n a e alloc (x ∷ xs) b ys new (head, foot, whole, least, mark, c) put =
    let le = le-behind (a + x.size) xs in
    let least_b = inside m (a + x.size) e xs b ys c in
    (
      load32_ext a m n (λ j p q. put.same j (inl (omega arith)) (inl (omega arith))) ∙ head,
      load32_ext (a + x.size - 4) m n (λ j p q. put.same j (inl (omega arith)) (inl (omega arith)))
          ∙ foot,
      whole,
      least,
      mark,
      IsBlocks-put m n (a + x.size) e alloc xs b ys new c put,
    )
  where
    inside :
        (m : Memory) (a e : ℕ) (xs : List Block) (b : Block) (ys : List Block)
        → IsBlocks m a e (xs ++ (b ∷ ys))
        → 8 ≤ b.size
    inside m a e [] b ys (head, foot, whole, least, mark, c) = least
    inside m a e (x ∷ xs) b ys (head, foot, whole, least, mark, c) =
        inside m (a + x.size) e xs b ys c

-- The search goes over all blocks, free or in use, and finds none.
pub find_fit-IsBlocks :
    (fuel a e asize : ℕ) (m : Memory) (bs : List Block)
    → IsBlocks m a e bs
    → e < 2 ^ 31
    → length bs < fuel
    → find_fit fuel (a + 4) asize m ≡ no_fit
unfolding find_fit
find_fit-IsBlocks zero a e asize m bs c low h = absurd (omega arith)
find_fit-IsBlocks (suc fuel) a e asize m [] (at, last) low h =
    let place = hdrp_lem a (omega arith) in
    let size : get_size a m ≡ 0 = unfold get_size in omega (arith, size_mask (load32 a m), last) in
    rw (place, size) refl
find_fit-IsBlocks (suc fuel) a e asize m (b ∷ bs) (head, foot, whole, least, mark, c) low h =
    let le = IsBlocks-le m (a + b.size) e bs c in
    let place = hdrp_lem a (omega arith) in
    let size = get_size-word a b.size b.alloc m head whole mark (omega arith) in
    let word = get_alloc-word a b.size b.alloc m head whole mark (omega arith) in
    let next = next_blkp_lem a b.size b.alloc m head whole mark (omega arith) in
    let rest = find_fit-IsBlocks fuel (a + b.size) e asize m bs c low (omega arith) in
    let some_size : (b.size == 0) ≡ false = ground (arith, least) in
    rw (next, rest, place, size, word, some_size) refl

-- No block is found, whatever the memory holds: a word with a size is in use by its test.
pub find_fit-finds_nothing : (fuel bp asize q : ℕ) (m : Memory) → find_fit fuel bp asize m ≢ fit q
unfolding find_fit get_size get_alloc
find_fit-finds_nothing zero bp asize q m h = cc
find_fit-finds_nothing (suc fuel) bp asize q m h =
    let rest = find_fit-finds_nothing fuel (next_blkp bp m) asize q m in
    ground (arith, size_mask (load32 (hdrp bp) m), alloc_mask (load32 (hdrp bp) m))
