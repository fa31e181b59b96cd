-- ===== src/Kmalloc/Extend.antt =====
-- The end of the heap moved: a new block in its place.
use mathlib.Core.Path.{subst}
use unos.Base.{
  inl, inr, refl, sym, ℕ, ◌+◌, ◌-◌, ◌%◌, ◌^◌, ◌<◌, ◌≤◌, ◌≡◌, inl, inr, refl, arith, [], ◌∷◌, ap,
  ◌∙◌, sym,
}
use unos.Memory.{
  load32-store32_apart, load32-store32, store32_apart, store32, Memory, load32_ext, store32,
  store32_apart, load32-store32,
}
use unos.Kmalloc.{hdrp, next_blkp, put_tags, coalesce, new_block}
use unos.Kmalloc.Tags.{next_blkp_lem, next_blkp_lem, Put, put_tags-Put}
use unos.Kmalloc.Blocks.{IsBlocks}
use unos.Kmalloc.Coalesce.{coalesce-place, coalesce-Put, Before, coalesce-Put, coalesce-place}

Before-ext : (m n : Memory) (c : ℕ) → ((j : ℕ) → j < c → n j ≡ m j) → Before m c → Before n c
Before-ext m n c same p = record {
  size = p.size;
  alloc = p.alloc;
  start = p.start;
  header = load32_ext p.start m n (λ j q r. same j (omega (arith, p.ends, p.least))) ∙ p.header;
  footer =
      load32_ext (p.start + p.size - 4) m n (λ j q r. same j (omega (arith, p.ends, p.least)))
      ∙ p.footer;
  whole = p.whole;
  least = p.least;
  mark = p.mark;
  ends = p.ends;
}

-- What a new block of `size` bytes at `e` leaves.
pub record New (m : Memory) (e size : ℕ) (r : ℕ × Memory) : Type 0 where
  pub place : r.0 ≡ e + 4
  pub below : (j : ℕ) → j < e → r.1 j ≡ m j
  pub blocks : IsBlocks r.1 e (e + size) (record { size = size; alloc = 0 } ∷ [])

new_block_lem :
    (e size : ℕ) (m : Memory)
    → new_block (e + 4) size m ≡ (
        let n = put_tags (e + 4) size 0 m in
        coalesce (e + 4) (store32 (hdrp (next_blkp (e + 4) n)) 1 n))
unfolding new_block
new_block_lem e size m = refl

module _ (m : Memory) (e size : ℕ) (p : Before m e) (whole : size % 8 ≡ 0) (least : 8 ≤ size)
    (room : e + size < 2 ^ 31) where
  abbrev ended : Memory
  ended = store32 (e + size) 1 (put_tags (e + 4) size 0 m)

  tags : Put m (put_tags (e + 4) size 0 m) e size 0
  tags = put_tags-Put e size 0 m whole least (omega arith) room

  ended-below : (j : ℕ) → j < e → ended j ≡ m j
  ended-below j h =
      let before = tags.same j (inl h) (inl (omega arith)) in
      store32_apart (e + size) 1 j (put_tags (e + 4) size 0 m) (inl (omega arith)) ∙ before

  own : Put ended ended e size 0
  own =
      let head =
        load32-store32_apart (e + size) e 1 (put_tags (e + 4) size 0 m) (inl (omega arith)) in
      let foot =
        load32-store32_apart (e + size) (e + size - 4) 1 (put_tags (e + 4) size 0 m)
          (inl (omega arith)) in
      record { header = head ∙ tags.header; footer = foot ∙ tags.footer; same = λ j q r. refl }

  new_block-joined : new_block (e + 4) size m ≡ coalesce (e + 4) ended
  new_block-joined =
      let next =
        next_blkp_lem e size 0 (put_tags (e + 4) size 0 m) tags.header whole (omega arith)
          (omega arith) in
      let place : hdrp (next_blkp (e + 4) (put_tags (e + 4) size 0 m)) ≡ e + size =
        omega (arith, next) in
      new_block_lem e size m
      ∙ ap (λ a. coalesce (e + 4) (store32 a 1 (put_tags (e + 4) size 0 m))) place

  pub new_block-New : New m e size (new_block (e + 4) size m)
  new_block-New =
      let last = load32-store32 (e + size) 1 (put_tags (e + 4) size 0 m) (omega arith) in
      let q = Before-ext m ended e ended-below p in
      let put =
        coalesce-Put ended ended e q (omega arith) size 0 1 own whole least last refl (omega arith)
          (omega arith) in
      let place =
        coalesce-place ended ended e q (omega arith) size 0 1 own whole least last refl
          (omega arith) (omega arith) in
      subst (New m e size) (sym new_block-joined) (record {
        place = place;
        below = λ j h. put.same j (inl h) (inl (omega arith)) ∙ ended-below j h;
        blocks = (
          omega (arith, put.header),
          omega (arith, put.footer),
          whole,
          least,
          omega arith,
          (
            refl,
            load32_ext (e + size) ended (coalesce (e + 4) ended).1
                  (λ j lo hi. put.same j (inr (omega arith)) (inr lo))
                ∙ last,
          ),
        );
      })
