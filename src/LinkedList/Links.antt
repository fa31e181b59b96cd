-- ===== src/LinkedList/Links.antt =====
-- What the links of a list say of a node inside, and links that go past it.
use unos.Base.{ℕ, ◌≡◌, ◌≢◌, List, [], ◌∷◌, ◌++◌, ◌∙◌, sym}
use mathlib.Core.Path.{subst}
use unos.LinkedList.{Node}
use unos.LinkedList.Front.{Segment, Fresh, AreDistinct}

pub Fresh-split : (a : ℕ) (xs ys : List (ℕ × ℕ)) → Fresh a (xs ++ ys) → Fresh a xs × Fresh a ys
Fresh-split a [] ys f = (tt, f)
Fresh-split a (x ∷ xs) ys (ne, f) = let (g, h) = Fresh-split a xs ys f in ((ne, g), h)

Fresh-drop :
    (a : ℕ) (xs : List (ℕ × ℕ)) (x : ℕ × ℕ) (ys : List (ℕ × ℕ))
    → Fresh a (xs ++ (x ∷ ys))
    → Fresh a (xs ++ ys)
Fresh-drop a [] x ys (ne, f) = f
Fresh-drop a (z ∷ xs) x ys (ne, f) = (ne, Fresh-drop a xs x ys f)

pub AreDistinct-drop :
    (xs : List (ℕ × ℕ)) (x : ℕ × ℕ) (ys : List (ℕ × ℕ))
    → AreDistinct (xs ++ (x ∷ ys))
    → AreDistinct (xs ++ ys)
AreDistinct-drop [] x ys (f, d) = d
AreDistinct-drop (z ∷ xs) x ys (f, d) = (Fresh-drop z.0 xs x ys f, AreDistinct-drop xs x ys d)

pub AreDistinct-behind :
    (xs : List (ℕ × ℕ)) (x : ℕ × ℕ) (ys : List (ℕ × ℕ))
    → AreDistinct (xs ++ (x ∷ ys))
    → Fresh x.0 ys × Fresh x.0 xs
AreDistinct-behind [] x ys (f, d) = (f, tt)
AreDistinct-behind (z ∷ xs) x ys (f, d) =
    let (g, h) = AreDistinct-behind xs x ys d in
    let (front, (ne, more)) = Fresh-split z.0 xs (x ∷ ys) f in (g, (λ e. ne (sym e), h))

pub AreDistinct-end :
    (xs : List (ℕ × ℕ)) (x : ℕ × ℕ) (ys : List (ℕ × ℕ))
    → AreDistinct (xs ++ (x ∷ ys))
    → AreDistinct (x ∷ ys)
AreDistinct-end [] x ys d = d
AreDistinct-end (z ∷ xs) x ys (f, d) = AreDistinct-end xs x ys d

module _ (n : ℕ → Node) (x : ℕ × ℕ) (ys : List (ℕ × ℕ)) (last : ℕ) where
  -- What the segment says of a node inside.
  pub Segment-at :
      (before p : ℕ) (xs : List (ℕ × ℕ))
      → Segment n before p last (xs ++ (x ∷ ys))
      → (x.0 ≢ 0) × ((n x.0).val ≡ x.1) × Segment n x.0 (n x.0).next last ys
  Segment-at before p [] (at, ne, back, value, rest) = (ne, value, rest)
  Segment-at before p (z ∷ xs) (at, ne, back, value, rest) = Segment-at z.0 (n z.0).next xs rest

  -- The node before it is one of those before it.
  prev-ne :
      (a before p : ℕ) (z : ℕ × ℕ) (xs : List (ℕ × ℕ))
      → Segment n before p last (z ∷ (xs ++ (x ∷ ys)))
      → Fresh a (z ∷ xs)
      → a ≢ (n x.0).prev
  prev-ne a before p z [] (at, ne, back, value, (at', ne', back', value', rest)) (apart, f) =
      λ e. apart (e ∙ back')
  prev-ne a before p z (w ∷ xs) (at, ne, back, value, rest) (apart, f) =
      prev-ne a z.0 (n z.0).next w xs rest f

  pub prev_some :
      (before p : ℕ) (z : ℕ × ℕ) (xs : List (ℕ × ℕ))
      → Segment n before p last (z ∷ (xs ++ (x ∷ ys)))
      → (n x.0).prev ≢ 0
  prev_some before p z [] (at, ne, back, value, (at', ne', back', value', rest)) =
      λ e. ne (sym back' ∙ e)
  prev_some before p z (w ∷ xs) (at, ne, back, value, rest) = prev_some z.0 (n z.0).next w xs rest

  pub prev-Fresh :
      (before p : ℕ) (z : ℕ × ℕ) (xs : List (ℕ × ℕ))
      → Segment n before p last (z ∷ (xs ++ (x ∷ ys)))
      → AreDistinct (z ∷ (xs ++ (x ∷ ys)))
      → Fresh (n x.0).prev ys
  prev-Fresh before p z [] (at, ne, back, value, (at', ne', back', value', rest)) (f, d) =
      subst (λ a. Fresh a ys) (sym back') f.1
  prev-Fresh before p z (w ∷ xs) (at, ne, back, value, rest) (f, d) =
      prev-Fresh z.0 (n z.0).next w xs rest d

  next-ne : (a : ℕ) → Segment n x.0 (n x.0).next last ys → a ≢ 0 → Fresh a ys → a ≢ (n x.0).next
  next-ne a = go ys
    where
      go :
          (zs : List (ℕ × ℕ))
          → Segment n x.0 (n x.0).next last zs
          → a ≢ 0
          → Fresh a zs
          → a ≢ (n x.0).next
      go [] (at, end) some f = λ e. some (e ∙ at)
      go (z ∷ zs) (at, filled, back, value, rest) some (ne, f) = λ e. ne (e ∙ at)

  -- Another memory whose links go past the node.
  pub Segment-unlink :
      (m : ℕ → Node) (last' : ℕ)
      → Segment m (n x.0).prev (n x.0).next last' ys
      → ((m (n x.0).prev).next ≡ (n x.0).next)
      → ((j : ℕ) → (m j).val ≡ (n j).val)
      → ((j : ℕ) → j ≢ (n x.0).prev → (m j).next ≡ (n j).next)
      → ((j : ℕ) → j ≢ (n x.0).next → (m j).prev ≡ (n j).prev)
      → (before p : ℕ) (z : ℕ × ℕ) (xs : List (ℕ × ℕ))
      → Segment n before p last (z ∷ (xs ++ (x ∷ ys)))
      → AreDistinct (z ∷ (xs ++ (x ∷ ys)))
      → Segment m before p last' (z ∷ (xs ++ ys))
  Segment-unlink m last' behind link vals nexts prevs before p z [] (at, ne, back, value, rest)
        (f, d) =
      let (at', ne', back', value', more) = rest in
      let first : Segment m z.0 (m z.0).next last' ys =
        subst (λ q. Segment m q (m q).next last' ys) back'
          (subst (λ q. Segment m (n x.0).prev q last' ys) (sym link) behind) in
      (at, ne, prevs z.0 (next-ne z.0 more ne f.1) ∙ back, vals z.0 ∙ value, first)
  Segment-unlink m last' behind link vals nexts prevs before p z (w ∷ xs)
        (at, ne, back, value, rest) (f, d) =
      let (some, value', more) = Segment-at z.0 (n z.0).next (w ∷ xs) rest in
      let (fresh, (ne_x, fresh')) = Fresh-split z.0 (w ∷ xs) (x ∷ ys) f in
      let later =
        Segment-unlink m last' behind link vals nexts prevs z.0 (n z.0).next w xs rest d in
      (
        at,
        ne,
        prevs z.0 (next-ne z.0 more ne fresh') ∙ back,
        vals z.0 ∙ value,
        subst (λ q. Segment m z.0 q last' (w ∷ (xs ++ ys)))
            (sym (nexts z.0 (prev-ne z.0 z.0 (n z.0).next w xs rest fresh))) later,
      )

pub last-ne :
    (n : ℕ → Node) (a before p last : ℕ) (y : ℕ × ℕ) (ys : List (ℕ × ℕ))
    → Segment n before p last (y ∷ ys)
    → Fresh a (y ∷ ys)
    → last ≢ a
last-ne n a before p last y [] (at, ne, back, value, rest) (apart, f) = λ e. apart (sym e ∙ rest.1)
last-ne n a before p last y (z ∷ ys) (at, ne, back, value, rest) (apart, f) =
    last-ne n a y.0 (n y.0).next last z ys rest f
