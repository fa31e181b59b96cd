-- ===== src/Kmalloc/Coalesce.antt =====
-- The joining of blocks: it joins none.
use mathlib.Core.Path.{subst}
use unos.Base.{
  inl, inr, Bool-cases, ◌==◌, if◌then◌else◌, false, ◌∙◌, sym, ℕ, ◌+◌, ◌-◌, ◌%◌, ◌^◌, ◌<◌, ◌≤◌, ◌≡◌,
  refl, arith, List, [], ◌∷◌, ◌++◌, ap, u32,
}
use unos.Kmalloc.Tags.{
  Put, put_tags-Put, next_blkp_lem, size_lem, get_alloc-word, ftrp_lem, get_size-word,
}
use unos.Kmalloc.{next_blkp, put_tags, coalesce, hdrp, get_alloc, ftrp, get_size, prev_blkp, dsize}
use unos.Memory.{Memory, load32}
use unos.Kmalloc.Blocks.{Block, IsBlocks, behind}

-- A block that ends at `c`.
pub record Before (m : Memory) (c : ℕ) : Type 0 where
  pub size : ℕ
  pub alloc : ℕ
  pub start : ℕ
  pub header : load32 start m ≡ size + alloc
  pub footer : load32 (start + size - 4) m ≡ size + alloc
  pub whole : size % 8 ≡ 0
  pub least : 8 ≤ size
  pub mark : alloc < 2
  pub ends : start + size ≡ c

pub IsBlocks-behind :
    (m : Memory) (a e : ℕ) (xs bs : List Block)
    → IsBlocks m a e (xs ++ bs)
    → IsBlocks m (behind a xs) e bs
IsBlocks-behind m a e [] bs c = c
IsBlocks-behind m a e (x ∷ xs) bs (_, _, _, _, _, c) = IsBlocks-behind m (a + x.size) e xs bs c

pub IsBlocks-Before :
    (m : Memory) (a e : ℕ) (x : Block) (xs bs : List Block)
    → IsBlocks m a e (x ∷ (xs ++ bs))
    → Before m (behind a (x ∷ xs))
IsBlocks-Before m a e x [] bs (head, foot, whole, least, mark, c) = record {
  size = x.size;
  alloc = x.alloc;
  start = a;
  header = head;
  footer = foot;
  whole = whole;
  least = least;
  mark = mark;
  ends = refl;
}
IsBlocks-Before m a e x (y ∷ xs) bs (_, _, _, _, _, c) = IsBlocks-Before m (a + x.size) e y xs bs c

-- The block before always counts as one in use.
module _ (m : Memory) (c : ℕ) (p : Before m c) (low : c < 2 ^ 31) where
  prev_blkp_lem : prev_blkp (c + 4) m ≡ p.start + 4
  prev_blkp_lem =
      let foot : u32 (c + 4 + 2 ^ 32 - dsize) ≡ p.start + p.size - 4 =
        omega (arith, p.ends, p.least) in
      let size =
        get_size-word (p.start + p.size - 4) p.size p.alloc m p.footer p.whole p.mark
          (omega (arith, p.ends)) in
      omega (arith, ap (λ q. get_size q m) foot, size, p.ends)

  prev_ftrp_lem : ftrp (prev_blkp (c + 4) m) m ≡ c - 4
  prev_ftrp_lem =
      let foot =
        ftrp_lem p.start p.size p.alloc m p.header p.whole p.mark (omega (arith, p.ends)) p.least in
      rw (prev_blkp_lem) (omega (arith, foot, p.ends))

  prev_alloc_lem : get_alloc (ftrp (prev_blkp (c + 4) m) m) m ≡ p.size
  prev_alloc_lem =
      let word =
        get_alloc-word (p.start + p.size - 4) p.size p.alloc m p.footer p.whole p.mark
          (omega (arith, p.ends)) in
      let place : p.start + p.size - 4 ≡ c - 4 = omega (arith, p.ends) in
      rw (prev_ftrp_lem) (ap (λ q. get_alloc q m) (sym place) ∙ word)

  -- Between a block and the next there is no joining but with the end, and that leaves the size.
  module _ (size nsize nalloc : ℕ) (header : load32 c m ≡ size) (whole : size % 8 ≡ 0)
      (least : 8 ≤ size) (next : load32 (c + size) m ≡ nsize + nalloc) (nwhole : nsize % 8 ≡ 0)
      (nmark : nalloc < 2) (room : c + size + nsize < 2 ^ 31) where
    next_hdrp_lem : hdrp (next_blkp (c + 4) m) ≡ c + size
    next_hdrp_lem =
        let there =
          next_blkp_lem c size 0 m (omega (arith, header)) whole (omega arith) (omega arith) in
        omega (arith, there)

    pub coalesce_lem :
        coalesce (c + 4) m ≡ (c + 4, if nsize == 0 then put_tags (c + 4) size 0 m else m)
    unfolding coalesce put_tags
    coalesce_lem =
        let before = prev_alloc_lem in
        let after =
          ap (λ q. get_alloc q m) next_hdrp_lem
          ∙ get_alloc-word (c + size) nsize nalloc m next nwhole nmark (omega arith) in
        let after_size =
          ap (λ q. get_size q m) next_hdrp_lem
          ∙ get_size-word (c + size) nsize nalloc m next nwhole nmark (omega arith) in
        let own = size_lem c size 0 m (omega (arith, header)) whole (omega arith) (omega arith) in
        let in_use : (p.size == 0) ≡ false = ground (arith, p.least) in
        elim (Bool-cases (nsize == 0)) [
          | inl none_after ↦
              let total : u32 (size + nsize) ≡ size = ground (arith, none_after) in
              rw (before, after, after_size, own, in_use, none_after, total) refl
          | inr some_after ↦ rw (before, after, in_use, some_after) refl
        ]

-- A free block's words, written once more at most.
module _ (m n : Memory) (c : ℕ) (p : Before n c) (low : c < 2 ^ 31) (size nsize nalloc : ℕ)
    (put : Put m n c size 0) (whole : size % 8 ≡ 0) (least : 8 ≤ size)
    (next : load32 (c + size) n ≡ nsize + nalloc) (nwhole : nsize % 8 ≡ 0) (nmark : nalloc < 2)
    (room : c + size + nsize < 2 ^ 31) where
  joined : coalesce (c + 4) n ≡ (c + 4, if nsize == 0 then put_tags (c + 4) size 0 n else n)
  joined =
      coalesce_lem n c p low size nsize nalloc (omega (arith, put.header)) whole least next nwhole
        nmark room

  pub coalesce-place : (coalesce (c + 4) n).0 ≡ c + 4
  coalesce-place = ap (λ q. q.0) joined

  pub coalesce-Put : Put m (coalesce (c + 4) n).1 c size 0
  coalesce-Put = elim (Bool-cases (nsize == 0)) [
    | inl none_after ↦
        let again = put_tags-Put c size 0 n whole least (omega arith) (omega arith) in
        let eq : (coalesce (c + 4) n).1 ≡ put_tags (c + 4) size 0 n =
          ap (λ q. q.1) joined ∙ ap (λ t. if t then put_tags (c + 4) size 0 n else n) none_after in
        subst (λ k. Put m k c size 0) (sym eq)
          (record {
            header = again.header;
            footer = again.footer;
            same = λ j q r. again.same j q r ∙ put.same j q r;
          })
    | inr some_after ↦
        let eq : (coalesce (c + 4) n).1 ≡ n =
          ap (λ q. q.1) joined ∙ ap (λ t. if t then put_tags (c + 4) size 0 n else n) some_after in
        subst (λ k. Put m k c size 0) (sym eq) put
  ]

pub IsBlocks-last :
    (m : Memory) (a e : ℕ) (x : Block) (xs : List Block) → IsBlocks m a e (x ∷ xs) → Before m e
IsBlocks-last m a e x [] (head, foot, whole, least, mark, (at, last)) = record {
  size = x.size;
  alloc = x.alloc;
  start = a;
  header = head;
  footer = foot;
  whole = whole;
  least = least;
  mark = mark;
  ends = at;
}
IsBlocks-last m a e x (y ∷ xs) (_, _, _, _, _, c) = IsBlocks-last m (a + x.size) e y xs c
