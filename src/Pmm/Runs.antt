-- ===== src/Pmm/Runs.antt =====
-- Any sequence of grants and returns of single frames, against the set of the frames handed out.
use unos.Base.{
  ℕ, Bool-cases, ◌+◌, ◌*◌, ◌<◌, ◌≡◌, ◌≢◌, inl, inr, refl, arith, Bool, true, false, ◌||◌, List, [],
  ◌∷◌, ◌==◌, if◌then◌else◌, length, ap, ◌∙◌, sym,
}
use unos.Base.Take.{Take, here, there}
use unos.Pmm.{Pmm, mmap_unset, pmm_block_size, pmm_alloc_block, pmm_free_block}
use unos.Pmm.Frames.{used}
use unos.Pmm.Count.{IsAccurate}
use mathlib.Core.Path.{subst}
use unos.Pmm.Alloc.{pmm_alloc_block-ne-null, pmm_alloc_block_lem, pmm_free_block_lem}

-- The states that a run reaches from `start`, with the numbers of the frames that the callers have.
pub data Reach (start : Pmm) : Pmm → List ℕ → Type 0 where
  begin : Reach start start []
  grant :
      {p : Pmm} {gs : List ℕ} (g : ℕ)
      → Reach start p gs
      → g ≢ 0
      → (pmm_alloc_block p).0 ≡ g * pmm_block_size
      → Reach start (pmm_alloc_block p).1 (g ∷ gs)
  refuse :
      {p : Pmm} {gs : List ℕ}
      → Reach start p gs
      → (pmm_alloc_block p).0 ≡ 0
      → Reach start (pmm_alloc_block p).1 gs
  give_back :
      {p : Pmm} {gs rest : List ℕ} {g : ℕ}
      → Reach start p gs
      → Take g gs rest
      → Reach start (pmm_free_block (g * pmm_block_size) p) rest

abbrev pub contains : List ℕ → ℕ → Bool
contains [] f = false
contains (g ∷ gs) f = (g == f) || contains gs f

abbrev pub AreDistinct : List ℕ → Type 0
AreDistinct [] = Unit
AreDistinct (g ∷ gs) = (contains gs g ≡ false) × AreDistinct gs

-- Frames in use are those that were so at the start and those that the callers have; no caller has
-- a frame that was in use at the start, and none is handed out twice.
pub record Hands (start p : Pmm) (gs : List ℕ) : Type 0 where
  pub accurate : IsAccurate p
  pub limit : p.max_blocks ≡ start.max_blocks
  pub counter : p.used_blocks ≡ start.used_blocks + length gs
  pub frames : (f : ℕ) → used p f ≡ (if contains gs f then 1 else used start f)
  pub fresh : (f : ℕ) → contains gs f ≡ true → (used start f ≡ 0) × (f < start.max_blocks)
  pub distinct : AreDistinct gs

contains-Take : (g : ℕ) {gs rest : List ℕ} → Take g gs rest → contains gs g ≡ true
contains-Take g here = ground arith
contains-Take g (there t) = ground (arith, contains-Take g t)

contains-rest :
    (g f : ℕ) {gs rest : List ℕ} → Take g gs rest → contains gs f ≡ ((g == f) || contains rest f)
contains-rest g f here = refl
contains-rest g f (there t) = ground (arith, contains-rest g f t)

length-Take : (g : ℕ) {gs rest : List ℕ} → Take g gs rest → length gs ≡ length rest + 1
length-Take g here = omega arith
length-Take g (there t) = omega (arith, length-Take g t)

AreDistinct-Take :
    (g : ℕ) {gs rest : List ℕ}
    → Take g gs rest
    → AreDistinct gs
    → (contains rest g ≡ false) × AreDistinct rest
AreDistinct-Take g here d = d
AreDistinct-Take g (there {x} t) (miss, d) =
    let (out, rest) = AreDistinct-Take g t d in
    (ground (arith, contains-rest g x t), (ground (arith, contains-rest g x t), rest))

grant-Hands :
    (start p : Pmm) (gs : List ℕ) (g : ℕ)
    → g ≢ 0
    → (pmm_alloc_block p).0 ≡ g * pmm_block_size
    → Hands start p gs
    → Hands start (pmm_alloc_block p).1 (g ∷ gs)
grant-Hands start p gs g ne at h = elim (pmm_alloc_block_lem p h.accurate) [
  | inl (e, full) ↦ absurd (ne (omega (arith, at, ap (λ r. r.0) e)))
  | inr (k, is) ↦
      let same : k ≡ g = omega (arith, at, is.address) in
      let free : used p g ≡ 0 = ap (used p) (sym same) ∙ is.lowest.2 in
      let out : contains gs g ≡ false = ground (arith, h.frames g) in
      let unused : used start g ≡ 0 = ground (arith, h.frames g) in
      record {
        accurate = is.accurate;
        limit = is.limit ∙ h.limit;
        counter = omega (arith, is.counter, h.counter);
        frames = λ f. ground (arith, is.marked f, h.frames f, same);
        fresh = λ f e. fresh_or f (omega (arith, same, is.lowest, h.limit)) unused e;
        distinct = (out, h.distinct);
      }
]
  where
    fresh_or :
        (f : ℕ)
        → g < start.max_blocks
        → used start g ≡ 0
        → contains (g ∷ gs) f ≡ true
        → (used start f ≡ 0) × (f < start.max_blocks)
    fresh_or f below unused e = elim (Bool-cases (g == f)) [
      | inl hit ↦
          let same : g ≡ f = ground (arith, hit) in
          subst (λ k. (used start k ≡ 0) × (k < start.max_blocks)) same (unused, below)
      | inr miss ↦ h.fresh f (ground (arith, e, miss))
    ]

refuse-Hands :
    (start p : Pmm) (gs : List ℕ)
    → used start 0 ≡ 1
    → (pmm_alloc_block p).0 ≡ 0
    → Hands start p gs
    → Hands start (pmm_alloc_block p).1 gs
refuse-Hands start p gs zero_used null h =
    let zero_now : used p 0 ≡ 1 = ground (arith, h.frames 0) in
    let (e, _) = (pmm_alloc_block-ne-null p h.accurate zero_now).1 null in
    subst (λ r. Hands start r gs) (sym (ap (λ r. r.1) e)) h

max_blocks-free_block : (a : ℕ) (p : Pmm) → (pmm_free_block a p).max_blocks ≡ p.max_blocks
unfolding pmm_free_block mmap_unset
max_blocks-free_block a p = refl

give_back-Hands :
    (start p : Pmm) (gs rest : List ℕ) (g : ℕ)
    → Take g gs rest
    → Hands start p gs
    → Hands start (pmm_free_block (g * pmm_block_size) p) rest
give_back-Hands start p gs rest g t h =
    let (clean, below) = h.fresh g (contains-Take g t) in
    let busy : used p g ≡ 1 = ground (arith, h.frames g, contains-Take g t) in
    let (out, distinct) = AreDistinct-Take g t h.distinct in
    let (marked, counter, accurate) =
      pmm_free_block_lem p g h.accurate (omega (arith, below, h.limit)) busy in
    record {
      accurate = accurate;
      limit = max_blocks-free_block (g * pmm_block_size) p ∙ h.limit;
      counter = omega (arith, counter, h.counter, length-Take g t);
      frames = λ f. ground (arith, marked f, h.frames f, contains-rest g f t, out, clean);
      fresh = λ f e. h.fresh f (ground (arith, contains-rest g f t, e));
      distinct = distinct;
    }

-- From a state with an accurate counter and frame 0 in use, through any grants, refusals and returns:
-- the frames in use are those in use at the start and those that the callers have, the counter is
-- their number, and no frame is handed out that was in use at the start or that a caller has.
pub Reach-Hands :
    (start : Pmm) {p : Pmm} {gs : List ℕ}
    → IsAccurate start
    → used start 0 ≡ 1
    → Reach start p gs
    → Hands start p gs
Reach-Hands start acc zero_used begin = record {
  accurate = acc;
  limit = refl;
  counter = omega arith;
  frames = λ f. refl;
  fresh = λ f e. absurd cc;
  distinct = tt;
}
Reach-Hands start acc zero_used (grant {p} {gs} g r ne at) =
    grant-Hands start p gs g ne at (Reach-Hands start acc zero_used r)
Reach-Hands start acc zero_used (refuse {p} {gs} r null) =
    refuse-Hands start p gs zero_used null (Reach-Hands start acc zero_used r)
Reach-Hands start acc zero_used (give_back {p} {gs} {rest} {g} r t) =
    give_back-Hands start p gs rest g t (Reach-Hands start acc zero_used r)
