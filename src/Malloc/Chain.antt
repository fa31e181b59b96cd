-- ===== src/Malloc/Chain.antt =====
-- The heap as a list of blocks.
use unos.Base.{
  true, false, ℕ, ◌+◌, ◌<◌, ◌≤◌, ◌≡◌, ◌≢◌, Bool, leb, ◌==◌, if◌then◌else◌, ◌&&◌, arith, List, [],
  ◌∷◌, ◌++◌, ◌⊎◌, inl, inr, ◌∙◌, Bool-cases,
}
use unos.Memory.{Memory, load32_ext}
use unos.Malloc.{status_at, size_at, Found, nalloc, reuse, no_fuel}

pub record Block : Type 0 where
  pub status : ℕ
  pub size : ℕ

-- From address `a` to `e` the memory holds the headers of `bs`.
abbrev pub IsChain : Memory → ℕ → ℕ → List Block → Type 0
IsChain m a e [] = a ≡ e
IsChain m a e (b ∷ bs) =
    (status_at a m ≡ b.status)
    × (size_at a m ≡ b.size)
    × (0 < b.size)
    × IsChain m (a + b.size + 12) e bs

pub IsChain-le : (m : Memory) (a e : ℕ) (bs : List Block) → IsChain m a e bs → a ≤ e
IsChain-le m a e [] c = omega arith
IsChain-le m a e (b ∷ bs) (_, _, _, c) = omega (arith, IsChain-le m (a + b.size + 12) e bs c)

-- The walk's specification: the first block that is free and large enough, by its address.
abbrev pub is_fit : ℕ → Block → Bool
is_fit size b = (b.status == 0) && leb size b.size

abbrev pub first_fit : (size a : ℕ) → List Block → Found
first_fit size a [] = nalloc
first_fit size a (b ∷ bs) =
    let rest = first_fit size (a + b.size + 12) bs in if is_fit size b then reuse a else rest

-- that block taken
abbrev pub occupy : ℕ → List Block → List Block
occupy size [] = []
occupy size (b ∷ bs) =
    let rest = occupy size bs in if is_fit size b then record b { status = 1 } ∷ bs else b ∷ rest

-- Only bytes below `a` differ, or only bytes from `e` on: the chain stays.
pub IsChain-above :
    (m n : Memory) (a e : ℕ) (bs : List Block)
    → ((j : ℕ) → a ≤ j → n j ≡ m j)
    → IsChain m a e bs
    → IsChain n a e bs
IsChain-above m n a e [] same c = c
IsChain-above m n a e (b ∷ bs) same (st, sz, pos, c) = (
  same a (omega arith) ∙ st,
  load32_ext (a + 4) m n (λ j p q. same j (omega arith)) ∙ sz,
  pos,
  IsChain-above m n (a + b.size + 12) e bs (λ j p. same j (omega arith)) c,
)

pub IsChain-below :
    (m n : Memory) (a e : ℕ) (bs : List Block)
    → ((j : ℕ) → j < e → n j ≡ m j)
    → IsChain m a e bs
    → IsChain n a e bs
IsChain-below m n a e [] same c = c
IsChain-below m n a e (b ∷ bs) same (st, sz, pos, c) =
    let le = IsChain-le m (a + b.size + 12) e bs c in
    (
      same a (omega arith) ∙ st,
      load32_ext (a + 4) m n (λ j p q. same j (omega arith)) ∙ sz,
      pos,
      IsChain-below m n (a + b.size + 12) e bs same c,
    )

-- A block put at the end.
pub IsChain-append :
    (m : Memory) (a e f : ℕ) (bs : List Block) (b : Block)
    → IsChain m a e bs
    → IsChain m e f (b ∷ [])
    → IsChain m a f (bs ++ (b ∷ []))
IsChain-append m a e f [] b c d = rw c d
IsChain-append m a e f (x ∷ bs) b (st, sz, pos, c) d =
    (st, sz, pos, IsChain-append m (a + x.size + 12) e f bs b c d)

pub first_fit-ge : (size a at : ℕ) (bs : List Block) → first_fit size a bs ≡ reuse at → a ≤ at
first_fit-ge size a at [] h = ground arith
first_fit-ge size a at (b ∷ bs) h = ground (arith, first_fit-ge size (a + b.size + 12) at bs)

-- The first fit taken: its status byte becomes 1, and of the rest at most the first `size` bytes of
-- its payload change.
pub IsChain-occupy :
    (m n : Memory) (size a e at : ℕ) (bs : List Block)
    → IsChain m a e bs
    → first_fit size a bs ≡ reuse at
    → n at ≡ 1
    → ((j : ℕ) → j ≢ at → (j < at + 8) ⊎ (at + 8 + size ≤ j) → n j ≡ m j)
    → IsChain n a e (occupy size bs) × (at + size + 12 ≤ e)
IsChain-occupy m n size a e at [] c h one same = ground arith
IsChain-occupy m n size a e at (b ∷ bs) (st, sz, pos, c) h one same =
    elim (Bool-cases (is_fit size b)) [
      | inl fit ↦
          let here : a ≡ at = ground (arith, h, fit) in
          let big : size ≤ b.size = ground (arith, fit) in
          let le = IsChain-le m (a + b.size + 12) e bs c in
          rw fit (
            (
              rw here one,
              load32_ext (a + 4) m n (λ j p q. same j (omega arith) (inl (omega arith))) ∙ sz,
              pos,
              IsChain-above m n (a + b.size + 12) e bs
                  (λ j p. same j (omega arith) (inr (omega arith))) c,
            ),
            omega arith,
          )
      | inr miss ↦
          let later : first_fit size (a + b.size + 12) bs ≡ reuse at = ground (arith, h, miss) in
          let far = first_fit-ge size (a + b.size + 12) at bs later in
          let (rest, room) = IsChain-occupy m n size (a + b.size + 12) e at bs c later one same in
          rw miss (
            (
              same a (omega arith) (inl (omega arith)) ∙ st,
              load32_ext (a + 4) m n (λ j p q. same j (omega arith) (inl (omega arith))) ∙ sz,
              pos,
              rest,
            ),
            room,
          )
    ]

-- There is a block in use at address `x` with `s` bytes of payload.
abbrev pub IsLive : (x s a : ℕ) → List Block → Type 0
IsLive x s a [] = ⊥
IsLive x s a (b ∷ bs) = ((a ≡ x) × (b.size ≡ s) × (b.status ≢ 0)) ⊎ IsLive x s (a + b.size + 12) bs

pub IsLive-within :
    (m : Memory) (x s a e : ℕ) (bs : List Block)
    → IsChain m a e bs
    → IsLive x s a bs
    → (a ≤ x) × (x + s + 12 ≤ e)
IsLive-within m x s a e [] c l = absurd l
IsLive-within m x s a e (b ∷ bs) (_, _, _, c) (inl (at, size, _)) =
    omega (arith, IsChain-le m (a + b.size + 12) e bs c)
IsLive-within m x s a e (b ∷ bs) (_, _, _, c) (inr later) =
    omega (arith, IsLive-within m x s (a + b.size + 12) e bs c later)

-- The first fit is apart from every block in use, with its header and the bytes behind its payload.
pub first_fit_apart :
    (m : Memory) (size x s a e at : ℕ) (bs : List Block)
    → IsChain m a e bs
    → first_fit size a bs ≡ reuse at
    → IsLive x s a bs
    → (x + s + 12 ≤ at) ⊎ (at + size + 12 ≤ x)
first_fit_apart m size x s a e at [] c h l = absurd l
first_fit_apart m size x s a e at (b ∷ bs) (_, _, _, c) h (inl (here, same, busy)) =
    let miss : is_fit size b ≡ false = ground arith in
    let later : first_fit size (a + b.size + 12) bs ≡ reuse at = ground (arith, h, miss) in
    inl (omega (arith, first_fit-ge size (a + b.size + 12) at bs later))
first_fit_apart m size x s a e at (b ∷ bs) (_, _, _, c) h (inr live) =
    elim (Bool-cases (is_fit size b)) [
      | inl fit ↦
          let here : a ≡ at = ground (arith, h, fit) in
          let big : size ≤ b.size = ground (arith, fit) in
          inr (omega (arith, IsLive-within m x s (a + b.size + 12) e bs c live))
      | inr miss ↦
          first_fit_apart m size x s (a + b.size + 12) e at bs c (ground (arith, h, miss)) live
    ]

-- the block at address `x` given back
abbrev pub release : (x a : ℕ) → List Block → List Block
release x a [] = []
release x a (b ∷ bs) =
    let rest = release x (a + b.size + 12) bs in
    if a == x then record b { status = 0 } ∷ bs else b ∷ rest

pub IsChain-release :
    (m n : Memory) (x s a e : ℕ) (bs : List Block)
    → IsChain m a e bs
    → IsLive x s a bs
    → n x ≡ 0
    → ((j : ℕ) → j ≢ x → n j ≡ m j)
    → IsChain n a e (release x a bs) × (size_at x m ≡ s)
IsChain-release m n x s a e [] c l zeroed same = absurd l
IsChain-release m n x s a e (b ∷ bs) (st, sz, pos, c) (inl (at, size, _)) zeroed same =
    let hit : (a == x) ≡ true = ground arith in
    rw hit (
      (
        rw at zeroed,
        load32_ext (a + 4) m n (λ j p q. same j (omega arith)) ∙ sz,
        pos,
        IsChain-above m n (a + b.size + 12) e bs (λ j p. same j (omega arith)) c,
      ),
      rw (← at) (sz ∙ size),
    )
IsChain-release m n x s a e (b ∷ bs) (st, sz, pos, c) (inr live) zeroed same =
    let (below, _) = IsLive-within m x s (a + b.size + 12) e bs c live in
    let miss : (a == x) ≡ false = ground arith in
    let (rest, size) = IsChain-release m n x s (a + b.size + 12) e bs c live zeroed same in
    rw miss (
      (
        same a (omega arith) ∙ st,
        load32_ext (a + 4) m n (λ j p q. same j (omega arith)) ∙ sz,
        pos,
        rest,
      ),
      size,
    )

pub first_fit-ne-no_fuel : (size a : ℕ) (bs : List Block) → first_fit size a bs ≢ no_fuel
first_fit-ne-no_fuel size a [] h = ground arith
first_fit-ne-no_fuel size a (b ∷ bs) h =
    ground (arith, first_fit-ne-no_fuel size (a + b.size + 12) bs)

pub first_fit-within :
    (m : Memory) (size a e at : ℕ) (bs : List Block)
    → IsChain m a e bs
    → first_fit size a bs ≡ reuse at
    → at + size + 12 ≤ e
first_fit-within m size a e at [] c h = ground arith
first_fit-within m size a e at (b ∷ bs) (_, _, _, c) h = ground (
  arith,
  IsChain-le m (a + b.size + 12) e bs c,
  first_fit-within m size (a + b.size + 12) e at bs c,
)
