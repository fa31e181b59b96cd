-- ===== src/Malloc/Live.antt =====
-- Blocks in use, while other blocks come and go and clients write to their memory.
use unos.Base.{
  refl, ℕ, ◌+◌, ◌<◌, ◌≤◌, ◌≡◌, ◌≢◌, inl, inr, arith, false, List, [], ◌∷◌, ◌++◌, ◌==◌, Bool-cases,
  update, ◌∙◌,
}
use unos.Memory.{Memory, load32_ext}
use unos.Malloc.{reuse}
use unos.Malloc.Chain.{
  Block, IsChain, IsChain-above, IsLive, IsLive-within, first_fit, is_fit, occupy, release,
}

-- taking a free block leaves a block in use in use
pub IsLive-occupy :
    (size x s a : ℕ) (bs : List Block) → IsLive x s a bs → IsLive x s a (occupy size bs)
IsLive-occupy size x s a [] l = l
IsLive-occupy size x s a (b ∷ bs) (inl (at, same, busy)) =
    let miss : is_fit size b ≡ false = ground arith in rw miss (inl (at, same, busy))
IsLive-occupy size x s a (b ∷ bs) (inr later) = elim (Bool-cases (is_fit size b)) [
  | inl fit ↦ rw fit (inr later)
  | inr miss ↦ rw miss (inr (IsLive-occupy size x s (a + b.size + 12) bs later))
]

-- the block taken is in use, and as large as asked for
pub IsLive-first_fit :
    (size a at : ℕ) (bs : List Block)
    → first_fit size a bs ≡ reuse at
    → (n : ℕ) × IsLive at n a (occupy size bs) × (size ≤ n)
IsLive-first_fit size a at [] h = absurd (ground arith)
IsLive-first_fit size a at (b ∷ bs) h = elim (Bool-cases (is_fit size b)) [
  | inl fit ↦
      let here : a ≡ at = ground (arith, h, fit) in
      let big : size ≤ b.size = ground (arith, fit) in
      rw fit (b.size, inl (here, refl, omega arith), big)
  | inr miss ↦
      let (n, live, big) =
        IsLive-first_fit size (a + b.size + 12) at bs (ground (arith, h, miss)) in
      rw miss (n, inr live, big)
]

pub IsLive-append : (x s a : ℕ) (bs cs : List Block) → IsLive x s a bs → IsLive x s a (bs ++ cs)
IsLive-append x s a [] cs l = absurd l
IsLive-append x s a (b ∷ bs) cs (inl here) = inl here
IsLive-append x s a (b ∷ bs) cs (inr later) = inr (IsLive-append x s (a + b.size + 12) bs cs later)

-- giving one block back leaves the others in use
pub IsLive-release :
    (y x s a : ℕ) (bs : List Block) → x ≢ y → IsLive x s a bs → IsLive x s a (release y a bs)
IsLive-release y x s a [] ne l = l
IsLive-release y x s a (b ∷ bs) ne (inl (at, same, busy)) =
    let miss : (a == y) ≡ false = ground arith in rw miss (inl (at, same, busy))
IsLive-release y x s a (b ∷ bs) ne (inr later) = elim (Bool-cases (a == y)) [
  | inl hit ↦ rw hit (inr later)
  | inr miss ↦ rw miss (inr (IsLive-release y x s (a + b.size + 12) bs ne later))
]

-- A write to the payload of a block in use leaves every header.
pub IsChain-write :
    (m : Memory) (x s j v a e : ℕ) (bs : List Block)
    → IsChain m a e bs
    → IsLive x s a bs
    → x + 8 ≤ j
    → j < x + 8 + s
    → IsChain (update m j v) a e bs
IsChain-write m x s j v a e [] c l lo hi = absurd l
IsChain-write m x s j v a e (b ∷ bs) (st, sz, pos, c) (inl (at, same, busy)) lo hi = (
  ground arith,
  load32_ext (a + 4) m (update m j v) (λ i p q. ground arith) ∙ sz,
  pos,
  IsChain-above m (update m j v) (a + b.size + 12) e bs (λ i p. ground arith) c,
)
IsChain-write m x s j v a e (b ∷ bs) (st, sz, pos, c) (inr later) lo hi =
    let (below, _) = IsLive-within m x s (a + b.size + 12) e bs c later in
    (
      ground arith,
      load32_ext (a + 4) m (update m j v) (λ i p q. ground arith) ∙ sz,
      pos,
      IsChain-write m x s j v (a + b.size + 12) e bs c later lo hi,
    )
