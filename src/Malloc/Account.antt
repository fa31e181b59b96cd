-- ===== src/Malloc/Account.antt =====
-- What a client may rely on across calls of `malloc` and `free`, and the count of memory in use.
use unos.Base.{
  false, ℕ, ◌+◌, ◌-◌, ◌<◌, ◌≤◌, ◌≡◌, ◌^◌, refl, arith, List, [], ◌∷◌, ◌++◌, u32, ◌==◌,
  if◌then◌else◌, inl, inr, ◌∙◌, ap, update, ◌⊎◌, sym, Bool, true,
}
use unos.Memory.{Memory, store32}
use mathlib.Core.Path.{subst}
use unos.Strings.{memset}
use unos.Malloc.{
  Mm, sizeof_alloc, Found, nalloc, reuse, no_fuel, Outcome, returned, panic, out_of_fuel,
  reuse_block, new_block, place, malloc, free,
}
use unos.Malloc.Chain.{
  Block, IsChain, first_fit, first_fit_apart, IsLive, IsLive-within, release, IsChain-release,
  first_fit-ne-no_fuel, first_fit-within,
}
use unos.Malloc.Walk.{find_block-first_fit}
use unos.Malloc.Laws.{new, IsHeap, Serves, malloc_lem}

abbrev pub address : Outcome → ℕ
address (returned p mm) = p
address panic = 0
address out_of_fuel = 0

address_or :
    (t : Bool) (p q : ℕ) (m n : Mm) → (if t then panic else returned q n) ≡ returned p m → q ≡ p
address_or true p q m n e = cc
address_or false p q m n e = ap address e

abbrev pub state : Mm → Outcome → Mm
state n (returned p mm) = mm
state n panic = n
state n out_of_fuel = n

pub state_or :
    (t : Bool) (p q : ℕ) (m n : Mm) → (if t then panic else returned q n) ≡ returned p m → n ≡ m
state_or true p q m n e = cc
state_or false p q m n e = ap (state n) e

pub panic_or : (p : ℕ) (m : Mm) → panic ≡ returned p m → ⊥
panic_or p m e = cc

pub IsLive-last :
    (m : Memory) (size a e : ℕ) (bs : List Block)
    → IsChain m a e bs
    → IsLive e size a (bs ++ (new size ∷ []))
IsLive-last m size a e [] c = inl (c, refl, omega arith)
IsLive-last m size a e (b ∷ bs) (_, _, _, c) = inr (IsLive-last m size (a + b.size + 12) e bs c)

-- the state that `new_block` leaves
abbrev pub grown : ℕ → Mm → Mm
grown size mm = record mm {
  memory =
      memset (u32 (mm.last_alloc + sizeof_alloc)) 0 size
        (store32 (mm.last_alloc + 4) size (update mm.memory mm.last_alloc 1));
  last_alloc = u32 (u32 (u32 (mm.last_alloc + size) + sizeof_alloc) + 4);
  memory_used = u32 (mm.memory_used + size + 4 + sizeof_alloc);
}

pub new_block-address :
    (size p : ℕ) (mm mm' : Mm)
    → new_block size mm ≡ returned p mm'
    → u32 (mm.last_alloc + sizeof_alloc) ≡ p
unfolding new_block
new_block-address size p mm mm' e = address_or _ p _ mm' _ e

pub new_block-grown :
    (size p : ℕ) (mm mm' : Mm) → new_block size mm ≡ returned p mm' → grown size mm ≡ mm'
unfolding new_block
new_block-grown size p mm mm' e = state_or _ p _ mm' _ e

pub reuse_block-address :
    (a size p : ℕ) (mm mm' : Mm)
    → reuse_block a size mm ≡ returned p mm'
    → u32 (a + sizeof_alloc) ≡ p
unfolding reuse_block
reuse_block-address a size p mm mm' e = ap address e

module _ (mm : Mm) (bs : List Block) (ok : IsHeap mm bs) where
  pub malloc_by_walk :
      (size : ℕ) → 0 < size → malloc size mm ≡ place size (first_fit size mm.heap_begin bs) mm
  unfolding malloc
  malloc_by_walk size pos =
      let some_size : (size == 0) ≡ false = ground arith in
      let walk =
        find_block-first_fit (mm.last_alloc + 1) mm.heap_begin size mm bs ok.chain
          (omega (arith, ok.room, ok.small)) (omega arith) in
      rw (some_size, walk)

  module _ (size x s p : ℕ) (mm' : Mm) (pos : 0 < size) (live : IsLive x s mm.heap_begin bs)
      (fits : mm.last_alloc + size + 8 < 2 ^ 32) where
    apart_of :
        (r : Found)
        → first_fit size mm.heap_begin bs ≡ r
        → place size r mm ≡ returned p mm'
        → (x + s + 20 ≤ p) ⊎ (p + size + 4 ≤ x)
    unfolding place
    apart_of nalloc h e =
        let within = IsLive-within mm.memory x s mm.heap_begin mm.last_alloc bs ok.chain live in
        let at = new_block-address size p mm mm' e in inl (omega (arith, at, within))
    apart_of (reuse a) h e =
        let at = reuse_block-address a size p mm mm' e in
        let sides =
          first_fit_apart mm.memory size x s mm.heap_begin mm.last_alloc a bs ok.chain h live in
        let small : a + 8 < 2 ^ 32 =
          omega
            (arith, first_fit-within mm.memory size mm.heap_begin mm.last_alloc a bs ok.chain h) in
        let same : a + 8 ≡ p = omega arith in
        elim sides [ inl l ↦ inl (omega arith) | inr r ↦ inr (omega arith) ]
    apart_of no_fuel h e = absurd (first_fit-ne-no_fuel size mm.heap_begin bs h)

  -- The block that `malloc` returns, header and padding included, is apart from every block in use.
  pub malloc_far :
      (size x s p : ℕ) {mm' : Mm}
      → 0 < size
      → IsLive x s mm.heap_begin bs
      → mm.last_alloc + size + 8 < 2 ^ 32
      → malloc size mm ≡ returned p mm'
      → (x + s + 20 ≤ p) ⊎ (p + size + 4 ≤ x)
  malloc_far size x s p {mm'} pos live fits e =
      apart_of size x s p mm' pos live fits (first_fit size mm.heap_begin bs) refl
        (sym (malloc_by_walk size pos) ∙ e)

  -- What `malloc` returns shares no byte with the payload of any block in use, if the sum in the test
  -- for the heap's end does not wrap.
  pub malloc_apart :
      (size x s p : ℕ) {mm' : Mm}
      → 0 < size
      → IsLive x s mm.heap_begin bs
      → mm.last_alloc + size + 8 < 2 ^ 32
      → malloc size mm ≡ returned p mm'
      → (x + 8 + s ≤ p) ⊎ (p + size ≤ x + 8)
  malloc_apart size x s p {mm'} pos live fits e = elim (malloc_far size x s p pos live fits e) [
    | inl l ↦ inl (omega arith)
    | inr r ↦ inr (omega arith)
  ]

  -- `free` of a block in use marks that block free, leaves the others, and takes its size and header
  -- off the count.
  pub free_lem :
      (x s : ℕ)
      → IsLive x s mm.heap_begin bs
      → IsHeap (free (x + 8) mm) (release x mm.heap_begin bs)
        × ((free (x + 8) mm).memory_used ≡ u32 (mm.memory_used + 2 ^ 32 - (s + sizeof_alloc)))
  unfolding free
  free_lem x s live =
      let within = IsLive-within mm.memory x s mm.heap_begin mm.last_alloc bs ok.chain live in
      let at : u32 (x + 8 + 2 ^ 32 - sizeof_alloc) ≡ x = omega (arith, ok.room, ok.small, within) in
      let (chain, size) =
        IsChain-release mm.memory (update mm.memory x 0) x s mm.heap_begin mm.last_alloc bs ok.chain
          live (ground arith) (λ j ne. ground arith) in
      rw (at, size)
        (
          record { chain = chain; room = ok.room; small = ok.small },
          omega (arith, ok.room, ok.small, within),
        )

-- Freeing what `malloc` has just put at the end leaves 4 bytes more on the count than before.
pub free-malloc_used :
    (mm : Mm) (bs : List Block) (ok : IsHeap mm bs) (size p : ℕ) {mm' : Mm}
    → 0 < size
    → mm.last_alloc + size + 8 < 2 ^ 32
    → first_fit size mm.heap_begin bs ≡ nalloc
    → malloc size mm ≡ returned p mm'
    → (free p mm').memory_used ≡ u32 (mm.memory_used + 4)
unfolding place
free-malloc_used mm bs ok size p {mm'} pos fits none_fits e =
    let served = malloc_lem mm bs size ok pos fits in
    let placed : place size nalloc mm ≡ returned p mm' =
      ap (λ r. place size r mm) (sym none_fits) ∙ sym (malloc_by_walk mm bs ok size pos) ∙ e in
    let at = new_block-address size p mm mm' placed in
    let grew = new_block-grown size p mm mm' placed in
    elim (subst (λ r. Serves size mm bs r (malloc size mm)) none_fits served) [
      | inl (full, stopped) ↦ absurd (panic_or p mm' (sym stopped ∙ e))
      | inr (mm'', out, gives) ↦
          let same : mm'' ≡ grown size mm = ap (state mm) (sym out ∙ e) ∙ sym grew in
          let heap = subst (λ n. IsHeap n (bs ++ (new size ∷ []))) same gives.heap in
          let live = IsLive-last mm.memory size mm.heap_begin mm.last_alloc bs ok.chain in
          let (_, count) =
            free_lem (grown size mm) (bs ++ (new size ∷ [])) heap mm.last_alloc size live in
          let there : mm.last_alloc + 8 ≡ p = omega (arith, at) in
          rw (← there, ← grew) (count ∙ omega (arith, fits))
    ]
