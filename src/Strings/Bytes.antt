-- ===== src/Strings/Bytes.antt =====
-- `memset`, `memcpy` and `memmove`: which bytes they write, and with what.
use unos.Memory.{store16, Memory}
use unos.Strings.{memsetw, memset_loop, memset, memmove_loop, memmove, memcpy}
use unos.Base.{
  ℕ, zero, suc, ◌+◌, ◌/◌, ◌-◌, ◌*◌, ◌==◌, ◌<◌, ◌≤◌, ◌≡◌, refl, arith, if◌then◌else◌, update, ◌⊎◌,
  inl, inr, leb, ltb, ◌&&◌, ap, ◌∙◌, u8, ◌%◌, ◌^◌,
}
use native.Mathlib.Decide.{dec_lt, ℕ_discrete}
use native.Mathlib.Nat.{add-zero}

memset_loop_lem :
    (rounds i s c : ℕ) (m : Memory) (j : ℕ)
    → memset_loop rounds i s c m j ≡ (if leb (s + i) j && ltb j (s + i + rounds) then c else m j)
unfolding memset_loop
memset_loop_lem zero i s c m j = ground arith
memset_loop_lem (suc rounds) i s c m j =
    ground (arith, memset_loop_lem rounds (i + 1) s c (update m (s + i) c) j)

-- `memset` writes the byte to the `n` places from `s` on, and to no other.
pub memset_lem :
    (s c n : ℕ) (m : Memory) (j : ℕ)
    → memset s c n m j ≡ (if leb s j && ltb j (s + n) then c % 2 ^ 8 else m j)
unfolding memset
memset_lem s c n m j = ground (arith, memset_loop_lem n 0 s (u8 c) m j)

-- `memcpy` copies `n` bytes if the destination does not begin inside the source: the source may
-- begin inside the destination. It writes nothing else.
pub memcpy_lem :
    (p q n : ℕ) (m : Memory) (j : ℕ)
    → (p ≤ q) ⊎ (q + n ≤ p)
    → memcpy p q n m j ≡ (if leb p j && ltb j (p + n) then m (j - p + q) else m j)
unfolding memcpy
memcpy_lem p q zero m j h = ground arith
memcpy_lem p q (suc n) m j h =
    let rest = memcpy_lem (p + 1) (q + 1) n (update m p (m q)) j in
    let later : (p + 1 ≤ q + 1) ⊎ (q + 1 + n ≤ p + 1) = elim h [
      | inl le ↦ inl (omega arith)
      | inr le ↦ inr (omega arith)
    ] in
    elim (dec_lt p j) [
      | yes past ↦
          let shift : j - (p + 1) + (q + 1) ≡ j - p + q = omega arith in
          ground (arith, rest later, ap m shift, h)
      | no before ↦ elim (ℕ_discrete j p) [
        | yes at ↦ let here : j - p + q ≡ q = omega arith in ground (arith, rest later, ap m here)
        | no other ↦ ground (arith, rest later)
      ]
    ]

-- `memsetw` writes the two bytes of the value, the lower one first, to each of `count` places.
pub memsetw_lem :
    (d val count : ℕ) (m : Memory) (j : ℕ)
    → memsetw d val count m j ≡ (
        if leb d j && ltb j (d + 2 * count)
        then (if (j - d) % 2 == 0 then val % 256 else val / 256 % 256)
        else m j)
unfolding memsetw store16
memsetw_lem d val zero m j = ground arith
memsetw_lem d val (suc count) m j =
    ground (arith, memsetw_lem (d + 2) val count (store16 d val m) j)

memmove_loop-memcpy :
    (rounds i dst src : ℕ) (m : Memory)
    → memmove_loop rounds i dst src m ≡ memcpy (dst + i) (src + i) rounds m
unfolding memmove_loop memcpy
memmove_loop-memcpy zero i dst src m = refl
memmove_loop-memcpy (suc rounds) i dst src m =
    let m' : Memory = update m (dst + i) (m (src + i)) in
    let d : dst + (i + 1) ≡ dst + i + 1 = omega arith in
    let s : src + (i + 1) ≡ src + i + 1 = omega arith in
    memmove_loop-memcpy rounds (i + 1) dst src m'
    ∙ ap (λ x. memcpy x (src + (i + 1)) rounds m') d
    ∙ ap (λ x. memcpy (dst + i + 1) x rounds m') s

-- `memmove` is `memcpy`: it copies upwards, whatever the two ranges are.
pub memmove-memcpy : (dst src len : ℕ) (m : Memory) → memmove dst src len m ≡ memcpy dst src len m
unfolding memmove
memmove-memcpy dst src len m =
    memmove_loop-memcpy len 0 dst src m
    ∙ ap (λ x. memcpy x (src + 0) len m) (add-zero dst)
    ∙ ap (λ x. memcpy dst x len m) (add-zero src)

memcpy_below : (p q n : ℕ) (m : Memory) (j : ℕ) → j < p → memcpy p q n m j ≡ m j
unfolding memcpy
memcpy_below p q zero m j h = refl
memcpy_below p q (suc n) m j h = ground (arith, memcpy_below (p + 1) (q + 1) n (update m p (m q)) j)

smear : (s n j : ℕ) (m : Memory) → j < n → memcpy (s + 1) s n m (s + 1 + j) ≡ m s
unfolding memcpy
smear s zero j m h = absurd (omega arith)
smear s (suc n) zero m h =
    let e : s + 1 + 0 ≡ s + 1 = omega arith in
    rw e (
      memcpy_below (s + 1 + 1) (s + 1) n (update m (s + 1) (m s)) (s + 1) (omega arith)
      ∙ ground arith)
smear s (suc n) (suc j) m h =
    let e : s + 1 + suc j ≡ s + 1 + 1 + j = omega arith in
    rw e (smear (s + 1) n j (update m (s + 1) (m s)) (omega arith) ∙ ground arith)

-- Moved up by one place, a range is not preserved: each of its `n` bytes becomes the first one.
pub memmove_smears : (s n j : ℕ) (m : Memory) → j < n → memmove (s + 1) s n m (s + 1 + j) ≡ m s
memmove_smears s n j m h = ap (λ f. f (s + 1 + j)) (memmove-memcpy (s + 1) s n m) ∙ smear s n j m h
