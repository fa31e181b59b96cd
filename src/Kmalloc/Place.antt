-- ===== src/Kmalloc/Place.antt =====
-- A new block marked as in use, and its rest split off.
use unos.Base.{
  ℕ, ◌+◌, ◌-◌, ◌%◌, ◌^◌, ◌<◌, ◌≤◌, ◌≡◌, inl, inr, refl, arith, List, [], ◌∷◌, if◌then◌else◌, leb,
  ap, ◌∙◌, u32, Bool-cases,
}
use unos.Memory.{Memory, load32, load32_ext}
use unos.Kmalloc.{put_tags, dsize, overhead, place}
use unos.Kmalloc.Tags.{size_lem, next_blkp_lem, put_tags-Put}
use unos.Kmalloc.Blocks.{Block, IsBlocks}

-- The blocks that a new one of `grow` bytes becomes.
abbrev pub taken : (asize grow : ℕ) → List Block
taken asize grow =
    if leb (dsize + overhead) (grow - asize)
    then record { size = asize; alloc = 1 } ∷ record { size = grow - asize; alloc = 0 } ∷ []
    else record { size = grow; alloc = 1 } ∷ []

-- Below `a` the memory stays, and between `a` and `e` there are the blocks.
pub record IsTaken (m n : Memory) (a e : ℕ) (bs : List Block) : Type 0 where
  pub below : (j : ℕ) → j < a → n j ≡ m j
  pub blocks : IsBlocks n a e bs

module _ (m : Memory) (a asize grow : ℕ) (header : load32 a m ≡ grow)
    (last : load32 (a + grow) m ≡ 1) (whole : grow % 8 ≡ 0) (awhole : asize % 8 ≡ 0)
    (least : 8 ≤ asize) (fits : asize ≤ grow) (room : a + grow < 2 ^ 31) where
  placed : place (a + 4) asize m ≡ (
      if leb (dsize + overhead) (grow - asize)
      then put_tags (a + asize + 4) (grow - asize) 0 (put_tags (a + 4) asize 1 m)
      else put_tags (a + 4) grow 1 m)
  unfolding place put_tags
  placed =
      let size = size_lem a grow 0 m (omega (arith, header)) whole (omega arith) (omega arith) in
      let rest : u32 (grow + 2 ^ 32 - asize) ≡ grow - asize = omega arith in
      let put = put_tags-Put a asize 1 m awhole least (omega arith) (omega arith) in
      let next =
        next_blkp_lem a asize 1 (put_tags (a + 4) asize 1 m) put.header awhole (omega arith)
          (omega arith) in
      rw (size, rest, next) refl

  pub place-split :
      8 ≤ grow - asize
      → IsTaken m
          (put_tags (a + asize + 4) (grow - asize) 0 (put_tags (a + 4) asize 1 m))
          a
          (a + grow)
          (record { size = asize; alloc = 1 } ∷ record { size = grow - asize; alloc = 0 } ∷ [])
  place-split some_rest =
      let n = put_tags (a + 4) asize 1 m in
      let one = put_tags-Put a asize 1 m awhole least (omega arith) (omega arith) in
      let two =
        put_tags-Put (a + asize) (grow - asize) 0 n (omega arith) some_rest (omega arith)
          (omega arith) in
      let k = put_tags (a + asize + 4) (grow - asize) 0 n in
      let e : a + asize + (grow - asize) ≡ a + grow = omega arith in
      record {
        below = λ j h.
            two.same j (inl (omega arith)) (inl (omega arith))
            ∙ one.same j (inl h) (inl (omega arith));
        blocks = (
          load32_ext a n k (λ j p q. two.same j (inl (omega arith)) (inl (omega arith)))
              ∙ one.header,
          load32_ext (a + asize - 4) n k
                (λ j p q. two.same j (inl (omega arith)) (inl (omega arith)))
              ∙ one.footer,
          awhole,
          least,
          omega arith,
          (
            two.header,
            two.footer,
            omega arith,
            some_rest,
            omega arith,
            (
              e,
              load32_ext (a + asize + (grow - asize)) m k (λ j p q.
                    two.same j (inr (omega arith)) (inr (omega arith))
                    ∙ one.same j (inr (omega arith)) (inr (omega arith)))
                  ∙ ap (λ q. load32 q m) e
                  ∙ last,
            ),
          ),
        );
      }

  pub place-whole :
      IsTaken m (put_tags (a + 4) grow 1 m) a (a + grow) (record { size = grow; alloc = 1 } ∷ [])
  place-whole =
      let one = put_tags-Put a grow 1 m whole (omega arith) (omega arith) room in
      record {
        below = λ j h. one.same j (inl h) (inl (omega arith));
        blocks = (
          one.header,
          one.footer,
          whole,
          omega arith,
          omega arith,
          (
            refl,
            load32_ext (a + grow) m (put_tags (a + 4) grow 1 m)
                  (λ j p q. one.same j (inr (omega arith)) (inr (omega arith)))
                ∙ last,
          ),
        );
      }

  pub place-IsTaken : IsTaken m (place (a + 4) asize m) a (a + grow) (taken asize grow)
  place-IsTaken = elim (Bool-cases (leb (dsize + overhead) (grow - asize))) [
    | inl large ↦ rw (placed, large) (place-split (ground (arith, large)))
    | inr small ↦ rw (placed, small) place-whole
  ]
