-- ===== src/Malloc/Runs.antt =====
-- Each call keeps the heap and the owners' ranges.
use unos.Base.{
  ℕ, ◌+◌, ◌-◌, ◌*◌, ◌<◌, ◌≤◌, ◌≡◌, ◌^◌, inl, inr, arith, refl, List, [], ◌∷◌, ◌++◌, sym, ap, ◌∙◌,
  u32, update,
}
use mathlib.Core.Path.{subst}
use unos.Strings.{memset}
use unos.Malloc.{
  Mm, Outcome, returned, panic, out_of_fuel, Found, nalloc, reuse, no_fuel, malloc, free, place,
  reuse_block, new_block, init_mm, set_desc, max_page_aligned_allocs,
}
use unos.Malloc.Chain.{Block, IsLive, first_fit, occupy, release}
use unos.Malloc.Laws.{new, IsHeap, Serves, malloc_lem}
use unos.Malloc.Account.{
  state, state_or, IsLive-last, address, malloc_by_walk, malloc_apart, free_lem, panic_or,
}
use unos.Malloc.Live.{IsLive-occupy, IsLive-first_fit, IsLive-append, IsChain-write}
use unos.Base.Take.{Take}
use unos.Malloc.Owners.{
  Owned, Reach, boot, allocate, give_back, write, Holds, AllHold, IsUsed, AllHold-map,
  ApartFrom-new, Holds-Take, AreApart-Take, AllHold-release,
}

-- The beginning of the heap stays.
place-begin :
    (size p : ℕ) (r : Found) (mm mm' : Mm)
    → place size r mm ≡ returned p mm'
    → mm'.heap_begin ≡ mm.heap_begin
unfolding place new_block reuse_block
place-begin size p nalloc mm mm' e = ap (λ m. m.heap_begin) (sym (state_or _ p _ mm' _ e))
place-begin size p (reuse a) mm mm' e = ap (λ m. m.heap_begin) (sym (ap (state mm) e))
place-begin size p no_fuel mm mm' e = absurd cc

module _ (size p : ℕ) (mm mm' : Mm) (os : List Owned) (pos : 0 < size)
    (fits : mm.last_alloc + size + 8 < 2 ^ 32) (e : malloc size mm ≡ returned p mm')
    (u : IsUsed mm os) where
  extend :
      (cs : List Block)
      → IsHeap mm' cs
      → ((x n : ℕ) → IsLive x n mm.heap_begin u.blocks → IsLive x n mm.heap_begin cs)
      → Holds mm.heap_begin cs (p, size)
      → IsUsed mm' ((p, size) ∷ os)
  extend cs heap keep holds =
      let start : mm.heap_begin ≡ mm'.heap_begin = sym (
        place-begin size p (first_fit size mm.heap_begin u.blocks) mm mm'
          (sym (malloc_by_walk mm u.blocks u.heap size pos) ∙ e)) in
      record {
        blocks = cs;
        heap = heap;
        hold =
            subst (λ a. AllHold a cs ((p, size) ∷ os)) start
              (holds, AllHold-map mm.heap_begin u.blocks cs os keep u.hold);
        disjoint = (
          ApartFrom-new mm.heap_begin size p u.blocks os
              (λ x n live. malloc_apart mm u.blocks u.heap size x n p pos live fits e) u.hold,
          u.disjoint,
        );
      }

  served :
      (r : Found)
      → first_fit size mm.heap_begin u.blocks ≡ r
      → Serves size mm u.blocks r (malloc size mm)
      → IsUsed mm' ((p, size) ∷ os)
  served (reuse a) h (mm'', out, gives) =
      let same : mm'' ≡ mm' = ap (state mm) (sym out ∙ e) in
      let at : a + 8 ≡ p = ap address (sym out ∙ e) in
      let (n, live, big) = IsLive-first_fit size mm.heap_begin a u.blocks h in
      extend (occupy size u.blocks) (subst (λ m. IsHeap m (occupy size u.blocks)) same gives.heap)
        (λ x k l. IsLive-occupy size x k mm.heap_begin u.blocks l) (a, n, sym at, pos, big, live)
  served nalloc h (inl (full, stopped)) = absurd (panic_or p mm' (sym stopped ∙ e))
  served nalloc h (inr (mm'', out, gives)) =
      let same : mm'' ≡ mm' = ap (state mm) (sym out ∙ e) in
      let at : mm.last_alloc + 8 ≡ p = ap address (sym out ∙ e) in
      let cs = u.blocks ++ (new size ∷ []) in
      extend cs (subst (λ m. IsHeap m cs) same gives.heap)
        (λ x k l. IsLive-append x k mm.heap_begin u.blocks (new size ∷ []) l)
        (
          mm.last_alloc,
          size,
          sym at,
          pos,
          omega arith,
          IsLive-last mm.memory size mm.heap_begin mm.last_alloc u.blocks u.heap.chain,
        )
  served no_fuel h none = absurd none

  pub allocate-IsUsed : IsUsed mm' ((p, size) ∷ os)
  allocate-IsUsed =
      served (first_fit size mm.heap_begin u.blocks) refl
        (malloc_lem mm u.blocks size u.heap pos fits)

write-IsUsed :
    (mm : Mm) (os rest : List Owned) (o : Owned) (j v : ℕ)
    → Take o os rest
    → o.0 ≤ j
    → j < o.0 + o.1
    → IsUsed mm os
    → IsUsed (record mm { memory = update mm.memory j v }) os
write-IsUsed mm os rest o j v t lo hi u =
    let ((x, n, at, pos, fits, live), _) = Holds-Take mm.heap_begin u.blocks t u.hold in
    record {
      blocks = u.blocks;
      heap = record {
        chain =
            IsChain-write mm.memory x n j v mm.heap_begin mm.last_alloc u.blocks u.heap.chain live
              (omega arith) (omega arith);
        room = u.heap.room;
        small = u.heap.small;
      };
      hold = u.hold;
      disjoint = u.disjoint;
    }

pub give_back-IsUsed :
    (mm : Mm) (os rest : List Owned) (o : Owned)
    → Take o os rest
    → IsUsed mm os
    → IsUsed (free o.0 mm) rest
unfolding free
give_back-IsUsed mm os rest o t u =
    let ((x, n, at, pos, fits, live), held) = Holds-Take mm.heap_begin u.blocks t u.hold in
    let (mine, others) = AreApart-Take t u.disjoint in
    let (heap, _) = free_lem mm u.blocks u.heap x n live in
    record {
      blocks = release x mm.heap_begin u.blocks;
      heap = subst (λ q. IsHeap (free q mm) (release x mm.heap_begin u.blocks)) (sym at) heap;
      hold = AllHold-release x n mm.heap_begin u.blocks o rest at pos mine held;
      disjoint = others;
    }

-- the state in which `init_mm` calls `malloc`
abbrev blank : (start end : ℕ) → Mm → Mm
blank start end mm =
    let pheap_begin = u32 (end + 2 ^ 32 - max_page_aligned_allocs * 4096) in
    record mm {
      memory = memset start 0 (u32 (pheap_begin + 2 ^ 32 - start)) mm.memory;
      last_alloc = start;
      heap_begin = start;
      pheap_end = end;
      pheap_begin = pheap_begin;
      heap_end = pheap_begin;
    }

set_desc-IsUsed :
    (start end p : ℕ) (before mm : Mm) (r : Outcome)
    → max_page_aligned_allocs * 4096 + start ≤ end
    → end + 4 ≤ 2 ^ 32
    → malloc max_page_aligned_allocs (blank start end before) ≡ r
    → set_desc r ≡ returned p mm
    → IsUsed mm ((p, max_page_aligned_allocs) ∷ [])
unfolding set_desc
set_desc-IsUsed start end p before mm (returned q mm') room small e d =
    let m0 = blank start end before in
    let empty : IsUsed m0 [] = record {
      blocks = [];
      heap = record { chain = refl; room = omega arith; small = omega arith };
      hold = tt;
      disjoint = tt;
    } in
    let u =
      allocate-IsUsed max_page_aligned_allocs q m0 mm' [] (omega arith) (omega arith) e empty in
    let same : record mm' { pheap_desc = q } ≡ mm = ap (state mm') d in
    let at : q ≡ p = ap address d in
    subst (λ m. IsUsed m ((p, max_page_aligned_allocs) ∷ [])) same
      (subst (λ a. IsUsed (record mm' { pheap_desc = q }) ((a, max_page_aligned_allocs) ∷ [])) at
        (record {
          blocks = u.blocks;
          heap = record { chain = u.heap.chain; room = u.heap.room; small = u.heap.small };
          hold = u.hold;
          disjoint = u.disjoint;
        }))
set_desc-IsUsed start end p before mm panic room small e d = absurd (panic_or p mm d)
set_desc-IsUsed start end p before mm out_of_fuel room small e d = absurd cc

-- In every heap that a run reaches, the blocks are well-formed, each owner's range is the payload of
-- a block in use or the front of it, and no two owners share a byte.
pub Reach-IsUsed : {mm : Mm} {os : List Owned} → Reach mm os → IsUsed mm os
unfolding init_mm
Reach-IsUsed (boot before {mm} {desc} start end room small e) =
    set_desc-IsUsed start end desc before mm _ room small refl e
Reach-IsUsed (allocate {mm} {mm'} {os} {p} size r pos fits e) =
    allocate-IsUsed size p mm mm' os pos fits e (Reach-IsUsed r)
Reach-IsUsed (give_back {mm} {os} {rest} {o} r t) = give_back-IsUsed mm os rest o t (Reach-IsUsed r)
Reach-IsUsed (write {mm} {os} {rest} {o} j v r t lo hi) =
    write-IsUsed mm os rest o j v t lo hi (Reach-IsUsed r)
