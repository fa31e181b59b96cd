-- ===== src/Malloc/Owners.antt =====
-- Who owns what in the heap: the runs of calls of `malloc` and `free` and of writes by the owners, from
-- `init_mm` on, and the invariant of the owners' ranges.
use unos.Base.{ℕ, ◌+◌, ◌*◌, ◌<◌, ◌≤◌, ◌≡◌, ◌⊎◌, ◌^◌, inl, inr, arith, List, [], ◌∷◌, update}
use unos.Base.Take.{Take, here, there}
use unos.Malloc.{Mm, returned, malloc, free, init_mm, max_page_aligned_allocs}
use unos.Malloc.Chain.{Block, IsLive, release}
use unos.Malloc.Laws.{IsHeap}
use unos.Malloc.Live.{IsLive-release}

-- what a client has: the address that `malloc` returned, and the size it asked for
abbrev pub Owned : Type 0
Owned = ℕ × ℕ

-- The heaps that a run reaches, with what is owned. Requests are not empty, and not so large that
-- the sum in the test for the heap's end wraps.
pub data Reach : Mm → List Owned → Type 0 where
  boot :
      (before : Mm) {mm : Mm} {desc : ℕ} (start end : ℕ)
      → max_page_aligned_allocs * 4096 + start ≤ end
      → end + 4 ≤ 2 ^ 32
      → init_mm start end before ≡ returned desc mm
      → Reach mm ((desc, max_page_aligned_allocs) ∷ [])
  allocate :
      {mm mm' : Mm} {os : List Owned} {p : ℕ} (size : ℕ)
      → Reach mm os
      → 0 < size
      → mm.last_alloc + size + 8 < 2 ^ 32
      → malloc size mm ≡ returned p mm'
      → Reach mm' ((p, size) ∷ os)
  give_back :
      {mm : Mm} {os rest : List Owned} {o : Owned}
      → Reach mm os
      → Take o os rest
      → Reach (free o.0 mm) rest
  write :
      {mm : Mm} {os rest : List Owned} {o : Owned} (j v : ℕ)
      → Reach mm os
      → Take o os rest
      → o.0 ≤ j
      → j < o.0 + o.1
      → Reach (record mm { memory = update mm.memory j v }) os

-- The ranges of two owners have no byte in common.
abbrev pub Apart : Owned → Owned → Type 0
Apart o o' = (o.0 + o.1 ≤ o'.0) ⊎ (o'.0 + o'.1 ≤ o.0)

abbrev pub ApartFrom : Owned → List Owned → Type 0
ApartFrom o [] = Unit
ApartFrom o (x ∷ xs) = Apart o x × ApartFrom o xs

abbrev pub AreApart : List Owned → Type 0
AreApart [] = Unit
AreApart (x ∷ xs) = ApartFrom x xs × AreApart xs

-- The owner's range is the payload of a block in use, or the front of it.
abbrev pub Holds : ℕ → List Block → Owned → Type 0
Holds start bs o = (x : ℕ) × (n : ℕ) × (o.0 ≡ x + 8) × (0 < o.1) × (o.1 ≤ n) × IsLive x n start bs

abbrev pub AllHold : ℕ → List Block → List Owned → Type 0
AllHold start bs [] = Unit
AllHold start bs (o ∷ os) = Holds start bs o × AllHold start bs os

pub record IsUsed (mm : Mm) (os : List Owned) : Type 0 where
  pub blocks : List Block
  pub heap : IsHeap mm blocks
  pub hold : AllHold mm.heap_begin blocks os
  pub disjoint : AreApart os

-- what the transition to other blocks does to the owners
pub AllHold-map :
    (start : ℕ) (bs cs : List Block) (os : List Owned)
    → ((x n : ℕ) → IsLive x n start bs → IsLive x n start cs)
    → AllHold start bs os
    → AllHold start cs os
AllHold-map start bs cs [] f h = tt
AllHold-map start bs cs (o ∷ os) f ((x, n, at, pos, fits, live), rest) =
    ((x, n, at, pos, fits, f x n live), AllHold-map start bs cs os f rest)

pub ApartFrom-new :
    (start size p : ℕ) (bs : List Block) (os : List Owned)
    → ((x n : ℕ) → IsLive x n start bs → (x + 8 + n ≤ p) ⊎ (p + size ≤ x + 8))
    → AllHold start bs os
    → ApartFrom (p, size) os
ApartFrom-new start size p bs [] f h = tt
ApartFrom-new start size p bs (o ∷ os) f ((x, n, at, pos, fits, live), rest) = (
  (elim (f x n live) [ inl lo ↦ inr (omega arith) | inr hi ↦ inl (omega arith) ]),
  ApartFrom-new start size p bs os f rest,
)

pub Holds-Take :
    (start : ℕ) (bs : List Block) {o : Owned} {os rest : List Owned}
    → Take o os rest
    → AllHold start bs os
    → Holds start bs o × AllHold start bs rest
Holds-Take start bs here (h, hs) = (h, hs)
Holds-Take start bs (there t) (h, hs) =
    let (found, others) = Holds-Take start bs t hs in (found, (h, others))

ApartFrom-Take :
    (x : Owned) {o : Owned} {os rest : List Owned}
    → Take o os rest
    → ApartFrom x os
    → Apart x o × ApartFrom x rest
ApartFrom-Take x here (a, apart) = (a, apart)
ApartFrom-Take x (there t) (a, apart) =
    let (found, others) = ApartFrom-Take x t apart in (found, (a, others))

Apart-sym : (o o' : Owned) → Apart o o' → Apart o' o
Apart-sym o o' (inl h) = inr h
Apart-sym o o' (inr h) = inl h

pub AreApart-Take :
    {o : Owned} {os rest : List Owned}
    → Take o os rest
    → AreApart os
    → ApartFrom o rest × AreApart rest
AreApart-Take here (a, apart) = (a, apart)
AreApart-Take {o} (there {x} t) (a, apart) =
    let (found, others) = ApartFrom-Take x t a in
    let (mine, rest) = AreApart-Take t apart in ((Apart-sym x o found, mine), (others, rest))

-- Owners apart from a block that is given back keep theirs.
pub AllHold-release :
    (y n start : ℕ) (bs : List Block) (o : Owned) (os : List Owned)
    → o.0 ≡ y + 8
    → 0 < o.1
    → ApartFrom o os
    → AllHold start bs os
    → AllHold start (release y start bs) os
AllHold-release y n start bs o [] at pos a h = tt
AllHold-release y n start bs o (o' ∷ os) at pos (a, apart) ((x, m, at', pos', fits, live), rest) = (
  (x, m, at', pos', fits, IsLive-release y x m start bs (λ e. other e a) live),
  AllHold-release y n start bs o os at pos apart rest,
)
  where
    other : x ≡ y → Apart o o' → ⊥
    other e (inl h) = omega arith
    other e (inr h) = omega arith
