-- ===== src/Strings/Text/Strings.antt =====
-- `strlen`, `strcmp`, `strcpy` and `strcat` on lists of bytes.
use unos.Base.{
  ℕ, zero, suc, ◌+◌, ◌-◌, ◌<◌, ◌≤◌, ◌≡◌, ◌≢◌, ◌⊎◌, inl, inr, refl, arith, some, List, [], ◌∷◌, ◌++◌,
  ◌==◌, length, length-append, true, false, update, ap, ◌∙◌, sym,
}
use unos.Memory.{Memory}
use unos.Strings.{memcpy}
use native.Mathlib.Decide.{ℕ_discrete, dec_lt}
use mathlib.Core.Path.{subst}
use unos.Strings.Bytes.{memcpy_lem}
use unos.Strings.Text.{
  strlen_loop, strlen, strcmp_loop, strcmp, strcpy, strcat, strcat_at, strcat_end,
}

-- At address `a` stands the text `cs`, none of whose bytes is 0, and a 0 behind it.
abbrev pub IsText : Memory → ℕ → List ℕ → Type 0
IsText m a [] = m a ≡ 0
IsText m a (c ∷ cs) = (m a ≡ c) × (c ≢ 0) × IsText m (a + 1) cs

pub IsText-ext :
    (m n : Memory) (a : ℕ) (cs : List ℕ)
    → ((j : ℕ) → a ≤ j → j < a + length cs + 1 → n j ≡ m j)
    → IsText m a cs
    → IsText n a cs
IsText-ext m n a [] same t = same a (omega arith) (omega arith) ∙ t
IsText-ext m n a (c ∷ cs) same (at, ne, t) = (
  same a (omega arith) (omega arith) ∙ at,
  ne,
  IsText-ext m n (a + 1) cs (λ j p q. same j (omega arith) (omega arith)) t,
)

strlen_loop_lem :
    (fuel i a : ℕ) (m : Memory) (cs : List ℕ)
    → IsText m (a + i) cs
    → length cs < fuel
    → strlen_loop fuel i a m ≡ some (i + length cs)
unfolding strlen_loop
strlen_loop_lem zero i a m cs t h = absurd (omega arith)
strlen_loop_lem (suc fuel) i a m [] t h = ground (arith, t)
strlen_loop_lem (suc fuel) i a m (c ∷ cs) (at, ne, t) h =
    let step : a + (i + 1) ≡ a + i + 1 = omega arith in
    let more : (m (a + i) == 0) ≡ false = ground (arith, at, ne) in
    let rest = strlen_loop_lem fuel (i + 1) a m cs (rw step t) (omega arith) in
    rw (more, rest) (ap some (omega arith))

-- `strlen` ends, with the number of bytes before the 0.
pub strlen_lem :
    (fuel a : ℕ) (m : Memory) (cs : List ℕ)
    → IsText m a cs
    → length cs < fuel
    → strlen fuel a m ≡ some (length cs)
unfolding strlen
strlen_lem fuel a m cs t h =
    let start : a + 0 ≡ a = omega arith in
    strlen_loop_lem fuel 0 a m cs (rw start t) h ∙ ap some (omega arith)

strcmp_loop_lem :
    (fuel i a b : ℕ) (m : Memory) (cs ds : List ℕ)
    → IsText m (a + i) cs
    → IsText m (b + i) ds
    → length cs < fuel
    → ((cs ≡ ds) × (strcmp_loop fuel i a b m ≡ some 0))
      ⊎ ((cs ≢ ds) × (strcmp_loop fuel i a b m ≡ some 1))
unfolding strcmp_loop
strcmp_loop_lem zero i a b m cs ds t u h = absurd (omega arith)
strcmp_loop_lem (suc fuel) i a b m [] [] t u h = inl (refl, ground (arith, t, u))
strcmp_loop_lem (suc fuel) i a b m [] (d ∷ ds) t (at, ne, u) h =
    inr (λ e. absurd cc, ground (arith, t, at, ne))
strcmp_loop_lem (suc fuel) i a b m (c ∷ cs) [] (at, ne, t) u h =
    inr (λ e. absurd cc, ground (arith, u, at, ne))
strcmp_loop_lem (suc fuel) i a b m (c ∷ cs) (d ∷ ds) (at, ne, t) (bt, nd, u) h =
    let stepa : a + (i + 1) ≡ a + i + 1 = omega arith in
    let stepb : b + (i + 1) ≡ b + i + 1 = omega arith in
    let rest = strcmp_loop_lem fuel (i + 1) a b m cs ds (rw stepa t) (rw stepb u) (omega arith) in
    elim (ℕ_discrete c d) [
      | yes same ↦
          let eq : (m (a + i) == m (b + i)) ≡ true = ground (arith, at, bt, same) in
          let more : (m (b + i) == 0) ≡ false = ground (arith, bt, nd) in
          rw (eq, more)
            (elim rest [
              | inl (e, r) ↦ inl (cc, r)
              | inr (e, r) ↦ inr ((λ whole. e (cons_tail whole)), r)
            ])
      | no other ↦
          let ne : (m (a + i) == m (b + i)) ≡ false = ground (arith, at, bt, other) in
          rw ne (inr ((λ whole. other (cons_head whole)), refl))
    ]
  where
    cons_tail : {c d : ℕ} {cs ds : List ℕ} → ◌≡◌ {A = List ℕ} (c ∷ cs) (d ∷ ds) → cs ≡ ds
    cons_tail e = cc

    cons_head : {c d : ℕ} {cs ds : List ℕ} → ◌≡◌ {A = List ℕ} (c ∷ cs) (d ∷ ds) → c ≡ d
    cons_head e = cc

-- `strcmp` ends, with 0 for equal texts and with 1 for different ones.
pub strcmp_lem :
    (fuel a b : ℕ) (m : Memory) (cs ds : List ℕ)
    → IsText m a cs
    → IsText m b ds
    → length cs < fuel
    → ((cs ≡ ds) × (strcmp fuel a b m ≡ some 0)) ⊎ ((cs ≢ ds) × (strcmp fuel a b m ≡ some 1))
unfolding strcmp
strcmp_lem fuel a b m cs ds t u h =
    let starta : a + 0 ≡ a = omega arith in
    let startb : b + 0 ≡ b = omega arith in
    strcmp_loop_lem fuel 0 a b m cs ds (rw starta t) (rw startb u) h

-- What a copy should leave: the text at `dst`, and every byte outside it as it was.
pub record Copied (m m' : Memory) (dst : ℕ) (cs : List ℕ) : Type 0 where
  pub text : IsText m' dst cs
  pub same : (j : ℕ) → (j < dst) ⊎ (dst + length cs < j) → m' j ≡ m j

-- `strcpy` ends, with the text copied and its length returned, if the destination does not begin
-- inside the source: the source may begin inside the destination.
pub strcpy_lem :
    (fuel dst src i : ℕ) (m : Memory) (cs : List ℕ)
    → IsText m src cs
    → (dst ≤ src) ⊎ (src + length cs < dst)
    → length cs < fuel
    → (m' : Memory) × (strcpy fuel dst src i m ≡ some (i + length cs, m')) × Copied m m' dst cs
unfolding strcpy
strcpy_lem zero dst src i m cs t apart h = absurd (omega arith)
strcpy_lem (suc fuel) dst src i m [] t apart h =
    let stop : (m src == 0) ≡ true = ground (arith, t) in
    let m' : Memory = update m dst (m src) in
    rw stop (
      m',
      ap (λ k. some (k, m')) (omega arith),
      record { text = ground (arith, t); same = λ j out. ground (arith, out) },
    )
strcpy_lem (suc fuel) dst src i m (c ∷ cs) (at, ne, t) apart h =
    let m' : Memory = update m dst (m src) in
    let more : (m src == 0) ≡ false = ground (arith, at, ne) in
    let kept = IsText-ext m m' (src + 1) cs (λ j p q. ground (arith, apart)) t in
    let later : (dst + 1 ≤ src + 1) ⊎ (src + 1 + length cs < dst + 1) = elim apart [
      | inl le ↦ inl (omega arith)
      | inr lt ↦ inr (omega arith)
    ] in
    let (n, out, copy) =
      strcpy_lem fuel (dst + 1) (src + 1) (i + 1) m' cs kept later (omega arith) in
    rw more (
      n,
      out ∙ ap (λ k. some (k, n)) (omega arith),
      record {
        text = (copy.same dst (inl (omega arith)) ∙ ground (arith, at), ne, copy.text);
        same = λ j away. copy.same j (shift j away) ∙ ground (arith, away);
      },
    )
  where
    shift :
        (j : ℕ)
        → (j < dst) ⊎ (dst + length (c ∷ cs) < j)
        → (j < dst + 1) ⊎ (dst + 1 + length cs < j)
    shift j (inl lo) = inl (omega arith)
    shift j (inr hi) = inr (omega arith)

IsText-end : (m : Memory) (a : ℕ) (cs : List ℕ) → IsText m a cs → m (a + length cs) ≡ 0
IsText-end m a [] t = ap m (omega arith) ∙ t
IsText-end m a (c ∷ cs) (at, ne, t) = ap m (omega arith) ∙ IsText-end m (a + 1) cs t

IsText-join :
    (m n : Memory) (a : ℕ) (ds cs : List ℕ)
    → ((j : ℕ) → a ≤ j → j < a + length ds → n j ≡ m j)
    → IsText m a ds
    → IsText n (a + length ds) cs
    → IsText n a (ds ++ cs)
IsText-join m n a [] cs same t u = let e : a + 0 ≡ a = omega arith in subst (λ b. IsText n b cs) e u
IsText-join m n a (d ∷ ds) cs same (at, ne, t) u =
    let e : a + length (d ∷ ds) ≡ a + 1 + length ds = omega arith in
    (
      same a (omega arith) (omega arith) ∙ at,
      ne,
      IsText-join m n (a + 1) ds cs (λ j p q. same j (omega arith) (omega arith)) t
          (subst (λ b. IsText n b cs) e u),
    )

IsText-shift :
    (m n : Memory) (a b : ℕ) (cs : List ℕ)
    → ((i : ℕ) → i ≤ length cs → n (b + i) ≡ m (a + i))
    → IsText m a cs
    → IsText n b cs
IsText-shift m n a b [] same t =
    let ea : a + 0 ≡ a = omega arith in
    let eb : b + 0 ≡ b = omega arith in ap n (sym eb) ∙ same 0 (omega arith) ∙ ap m ea ∙ t
IsText-shift m n a b (c ∷ cs) same (at, ne, t) =
    let ea : a + 0 ≡ a = omega arith in
    let eb : b + 0 ≡ b = omega arith in
    (
      ap n (sym eb) ∙ same 0 (omega arith) ∙ ap m ea ∙ at,
      ne,
      IsText-shift m n (a + 1) (b + 1) cs
          (λ i le. ap n (omega arith) ∙ same (i + 1) (omega arith) ∙ ap m (omega arith)) t,
    )

-- `strcat` ends, with the second text put behind the first one, if the source and the destination
-- with its new end are apart.
pub strcat_lem :
    (fuel dest src : ℕ) (m : Memory) (ds cs : List ℕ)
    → IsText m dest ds
    → IsText m src cs
    → (dest + length ds + length cs < src) ⊎ (src + length cs < dest)
    → length ds < fuel
    → length cs < fuel
    → (m' : Memory) × (strcat fuel dest src m ≡ some m') × Copied m m' dest (ds ++ cs)
unfolding strcat strcat_at strcat_end
strcat_lem fuel dest src m ds cs t u apart hd hc =
    let n = length ds in
    let k = length cs in
    let copied : Memory = memcpy (dest + n) src k m in
    let m' : Memory = update copied (dest + n + k) 0 in
    let copy = λ (j : ℕ). memcpy_lem (dest + n) src k m j clear in
    let kept = IsText-ext m copied src cs (λ j p q. ground (arith, copy j, apart)) u in
    rw (strlen_lem fuel dest m ds t hd, strlen_lem fuel src m cs u hc)
      (
        m',
        ap (λ l. strcat_end (dest + n) l copied) (strlen_lem fuel src copied cs kept hc),
        record {
          text =
              IsText-join m m' dest ds cs (λ j p q. ground (arith, copy j)) t
                (IsText-shift m m' src (dest + n) cs (λ i le. moved i le) u);
          same = λ j out. ground (arith, copy j, out, length-append ds cs);
        },
      )
  where
    clear : (dest + length ds ≤ src) ⊎ (src + length cs ≤ dest + length ds)
    clear = elim apart [ inl lo ↦ inl (omega arith) | inr hi ↦ inr (omega arith) ]

    moved :
        (i : ℕ)
        → i ≤ length cs
        → update
            (memcpy (dest + length ds) src (length cs) m)
            (dest + length ds + length cs)
            0
            (dest + length ds + i)
          ≡ m (src + i)
    moved i le =
        let copy = memcpy_lem (dest + length ds) src (length cs) m (dest + length ds + i) clear in
        let where_from : dest + length ds + i - (dest + length ds) + src ≡ src + i = omega arith in
        elim (dec_lt i (length cs)) [
          | yes lt ↦ ground (arith, copy, ap m where_from)
          | no ge ↦
              let last : i ≡ length cs = omega arith in
              ground (arith, IsText-end m src cs u, last, ap (λ (j : ℕ). m (src + j)) last)
        ]
