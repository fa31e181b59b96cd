-- ===== src/Pmm/Search.antt =====
-- `mmap_first_free` finds the first free frame of the words that it scans.
use unos.Base.{
  ℕ, zero, suc, ◌+◌, ◌*◌, ◌/◌, ◌%◌, ◌<◌, ◌≤◌, ◌≡◌, ◌∙◌, refl, false, inl, inr, Option, none, some,
  arith, ◌==◌, Bool-cases, ==_iff, ap,
}
use mathlib.Core.Path.{subst}
use native.Mathlib.Decide.{dec_lt}
use unos.Base.Bits.{bit, bit-complement, bit_of_zero, bit-le-one}
use unos.Pmm.{Pmm, scan_bits, scan_words, mmap_first_free}
use unos.Pmm.Frames.{used, digit_test}

-- `r` is the first place of `d` from `lo` to `hi` that holds 0, and `none` if all hold 1.
abbrev pub FirstZero : (ℕ → ℕ) → ℕ → ℕ → Option ℕ → Type 0
FirstZero d lo hi none = (f : ℕ) → lo ≤ f → f < hi → d f ≡ 1
FirstZero d lo hi (some g) = (lo ≤ g) × (g < hi) × (d g ≡ 0) × ((f : ℕ) → lo ≤ f → f < g → d f ≡ 1)

module _ (d : ℕ → ℕ) (lo mid hi : ℕ) where
  FirstZero-join :
      (r : Option ℕ)
      → lo ≤ mid
      → ((f : ℕ) → lo ≤ f → f < mid → d f ≡ 1)
      → FirstZero d mid hi r
      → FirstZero d lo hi r
  FirstZero-join none le front rest = λ f p q. elim (dec_lt f mid) [
    | yes small ↦ front f p small
    | no large ↦ rest f (omega arith) q
  ]
  FirstZero-join (some g) le front (a, b, z, rest) = (
    omega arith,
    b,
    z,
    λ f p q. elim (dec_lt f mid) [
      | yes small ↦ front f p small
      | no large ↦ rest f (omega arith) q
    ],
  )

one_of_not_zero : (w k : ℕ) → (bit w k == 0) ≡ false → bit w k ≡ 1
one_of_not_zero w k h = ground (arith, bit-le-one w k)

scan_bits_lem :
    (rounds w j hi : ℕ) → j + rounds ≡ hi → FirstZero (bit w) j hi (scan_bits rounds w j)
unfolding scan_bits
scan_bits_lem zero w j hi e = λ f p q. absurd (omega arith)
scan_bits_lem (suc rounds) w j hi e = elim (Bool-cases (bit w j == 0)) [
  | inl z ↦
      rw (digit_test w j, z) (omega arith, omega arith, ground arith, λ f p q. absurd (omega arith))
  | inr o ↦
      rw (digit_test w j, o)
        (FirstZero-join (bit w) j (j + 1) hi (scan_bits rounds w (j + 1)) (omega arith)
          (λ f p q. let same : f ≡ j = omega arith in rw same (one_of_not_zero w j o))
          (scan_bits_lem rounds w (j + 1) hi (omega arith)))
]

pub full_word : (k : ℕ) → k < 32 → bit 0xffff_ffff k ≡ 1
full_word k h = omega (arith, bit-complement 32 0 k (omega arith) h, bit_of_zero k)

pub used_in_word : (i f : ℕ) (p : Pmm) → f / 32 ≡ i → used p f ≡ bit (p.memory_map i) (f % 32)
used_in_word i f p e = rw e

module _ (i : ℕ) (p : Pmm) where
  word_frames :
      (j : ℕ)
      → FirstZero (bit (p.memory_map i)) 0 32 (some j)
      → FirstZero (used p) (32 * i) (32 * i + 32) (some (i * 4 * 8 + j))
  word_frames j (_, b, z, front) = (
    omega arith,
    omega arith,
    let e : (i * 4 * 8 + j) % 32 ≡ j = omega arith in
        used_in_word i (i * 4 * 8 + j) p (omega arith) ∙ rw e z,
    λ f lo hi. used_in_word i f p (omega arith) ∙ front (f % 32) (omega arith) (omega arith),
  )

  full_frames :
      ((k : ℕ) → 0 ≤ k → k < 32 → bit (p.memory_map i) k ≡ 1)
      → (f : ℕ) → 32 * i ≤ f
      → f < 32 * i + 32
      → used p f ≡ 1
  full_frames all f lo hi =
      used_in_word i f p (omega arith) ∙ all (f % 32) (omega arith) (omega arith)

module _ (i hi : ℕ) (p : Pmm) (rest : Option ℕ) (within : 32 * i + 32 ≤ hi) where
  word_step :
      (r : Option ℕ)
      → FirstZero (bit (p.memory_map i)) 0 32 r
      → FirstZero (used p) (32 * i + 32) hi rest
      → FirstZero (used p) (32 * i) hi (elim r [ none ↦ rest | some j ↦ some (i * 4 * 8 + j) ])
  word_step none here later =
      FirstZero-join (used p) (32 * i) (32 * i + 32) hi rest (omega arith) (full_frames i p here)
        later
  word_step (some j) here later =
      let (a, b, z, front) = word_frames i p j here in (a, omega arith, z, front)

scan_words_lem :
    (rounds i hi : ℕ) (p : Pmm)
    → 32 * (i + rounds) ≡ hi
    → FirstZero (used p) (32 * i) hi (scan_words rounds i p)
unfolding scan_words
scan_words_lem zero i hi p e = λ f a b. absurd (omega arith)
scan_words_lem (suc rounds) i hi p e =
    let later : FirstZero (used p) (32 * i + 32) hi (scan_words rounds (i + 1) p) =
      let next : 32 * (i + 1) ≡ 32 * i + 32 = omega arith in
      subst (λ lo. FirstZero (used p) lo hi (scan_words rounds (i + 1) p)) next
        (scan_words_lem rounds (i + 1) hi p (omega arith)) in
    elim (Bool-cases (p.memory_map i == 0xffff_ffff)) [
      | inl full ↦ rw full (
          FirstZero-join (used p) (32 * i) (32 * i + 32) hi (scan_words rounds (i + 1) p)
            (omega arith)
            (full_frames i p (λ k _ h. ap (λ w. bit w k) ((==_iff _ _).0 full) ∙ full_word k h))
            later)
      | inr free ↦ rw free (
          word_step i hi p (scan_words rounds (i + 1) p) (omega arith)
            (scan_bits 32 (p.memory_map i) 0) (scan_bits_lem 32 (p.memory_map i) 0 32 refl) later)
    ]

-- The search answers with the lowest free frame among the whole words of the bitmap, that is below
-- 32 * (max_blocks / 32), and with -1 exactly if all of these are in use.
pub mmap_first_free_lem :
    (p : Pmm) → FirstZero (used p) 0 (32 * (p.max_blocks / 32)) (mmap_first_free p)
unfolding mmap_first_free
mmap_first_free_lem p =
    scan_words_lem (p.max_blocks / 32) 0 (32 * (p.max_blocks / 32)) p (omega arith)
