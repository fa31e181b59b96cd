-- ===== src/Malloc/Walk.antt =====
-- The walk over the blocks finds the first fit, and the fuel that `malloc` gives it is enough.
use unos.Base.{ℕ, zero, suc, ◌+◌, ◌<◌, ◌≡◌, ◌^◌, arith, List, [], ◌∷◌, u32, ◌∙◌, ap}
use unos.Malloc.{Mm, size_at, find_block, sizeof_alloc}
use unos.Malloc.Chain.{IsChain, IsChain-le, first_fit, Block}

-- The address of the next block.
next_block :
    (a s : ℕ) → a + s + 12 < 2 ^ 32 → u32 (u32 (u32 (a + s) + sizeof_alloc) + 4) ≡ a + s + 12
next_block a s h = omega arith

pub find_block-first_fit :
    (fuel a size : ℕ) (mm : Mm) (bs : List Block)
    → IsChain mm.memory a mm.last_alloc bs
    → mm.last_alloc < 2 ^ 32
    → mm.last_alloc < a + fuel
    → find_block fuel a size mm ≡ first_fit size a bs
unfolding find_block
find_block-first_fit zero a size mm bs c h f =
    absurd (omega (arith, IsChain-le mm.memory a mm.last_alloc bs c))
find_block-first_fit (suc fuel) a size mm [] c h f = ground arith
find_block-first_fit (suc fuel) a size mm (b ∷ bs) (st, sz, pos, c) h f =
    let le = IsChain-le mm.memory (a + b.size + 12) mm.last_alloc bs c in
    let ih = find_block-first_fit fuel (a + b.size + 12) size mm bs c h (omega arith) in
    let step : find_block fuel (u32 (u32 (u32 (a + size_at a mm.memory) + sizeof_alloc) + 4)) size
          mm
        ≡ first_fit size (a + b.size + 12) bs =
      ap (λ x. find_block fuel x size mm)
        (ap (λ s. u32 (u32 (u32 (a + s) + sizeof_alloc) + 4)) sz
          ∙ next_block a b.size (omega arith))
      ∙ ih in
    ground (arith, step, sz, st)
