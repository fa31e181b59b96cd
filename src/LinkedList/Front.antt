-- ===== src/LinkedList/Front.antt =====
-- The front of the list, against a list of values.
use unos.Base.{
  ℕ, ◌+◌, ◌^◌, ◌<◌, ◌≡◌, ◌≢◌, refl, arith, true, false, List, [], ◌∷◌, ◌==◌, length, update,
}
use mathlib.Core.Path.{subst}
use unos.LinkedList.{
  Node, LinkedList, set_prev, set_next, set_val, new_node, link_front, list_insert_front,
  list_remove_front,
}

-- From the pointer `p` on, with `before` behind it, the nodes are those of `xs`, pairs of an address
-- and a value, and `last` is the last one.
abbrev pub Segment : (n : ℕ → Node) (before p last : ℕ) → List (ℕ × ℕ) → Type 0
Segment n before p last [] = (p ≡ 0) × (last ≡ before)
Segment n before p last (x ∷ xs) =
    (p ≡ x.0)
    × (x.0 ≢ 0)
    × ((n x.0).prev ≡ before)
    × ((n x.0).val ≡ x.1)
    × Segment n x.0 (n x.0).next last xs

abbrev pub Fresh : ℕ → List (ℕ × ℕ) → Type 0
Fresh a [] = Unit
Fresh a (x ∷ xs) = (a ≢ x.0) × Fresh a xs

abbrev pub AreDistinct : List (ℕ × ℕ) → Type 0
AreDistinct [] = Unit
AreDistinct (x ∷ xs) = Fresh x.0 xs × AreDistinct xs

pub record IsList (s : LinkedList) (xs : List (ℕ × ℕ)) : Type 0 where
  pub linked : Segment s.nodes 0 s.head s.tail xs
  pub distinct : AreDistinct xs
  pub counted : s.size ≡ length xs

-- A write to a node elsewhere keeps the segment.
pub Segment-update :
    (n : ℕ → Node) (a : ℕ) (v : Node) (before p last : ℕ) (xs : List (ℕ × ℕ))
    → Fresh a xs
    → Segment n before p last xs
    → Segment (update n a v) before p last xs
Segment-update n a v before p last [] away seg = seg
Segment-update n a v before p last (x ∷ xs) (ne, away) (at, some, back, value, rest) =
    let miss : (x.0 == a) ≡ false = ground arith in
    rw miss (at, some, back, value, Segment-update n a v x.0 (n x.0).next last xs away rest)

-- The first node gets another node before it.
pub Segment-set_prev :
    (n : ℕ → Node) (q before p last a v : ℕ) (xs : List (ℕ × ℕ))
    → Fresh a xs
    → Segment n before p last ((a, v) ∷ xs)
    → Segment (set_prev a q n) q p last ((a, v) ∷ xs)
Segment-set_prev n q before p last a v xs away (at, some, back, value, rest) =
    let hit : (a == a) ≡ true = ground arith in
    rw hit (
      at,
      some,
      refl,
      value,
      Segment-update n a (record (n a) { prev = q }) a (n a).next last xs away rest,
    )

-- a cleared node as the first one
link_front_lem :
    (t val : ℕ) (s : LinkedList) (xs : List (ℕ × ℕ))
    → IsList s xs
    → t ≢ 0
    → Fresh t xs
    → (s.nodes t).prev ≡ 0
    → length xs + 1 < 2 ^ 32
    → ((link_front t val s).0 ≡ t)
      × IsList (link_front t val s).1 ((t, val) ∷ xs)
      × (xs ≡ [] → ((link_front t val s).1.nodes 0).prev ≡ t)
unfolding link_front
link_front_lem t val s [] l some fresh cleared few =
    let (at, end) = l.linked in
    let self : (t == t) ≡ true = ground arith in
    let ne : (t == 0) ≡ false = ground arith in
    let ne' : (0 == t) ≡ false = ground arith in
    let empty : (s.head == 0) ≡ true = ground arith in
    rw at (
      refl,
      record {
        linked = rw (self, ne) (refl, some, cleared, refl, (refl, refl));
        distinct = (tt, tt);
        counted = omega (arith, l.counted);
      },
      λ e. rw ne' refl,
    )
link_front_lem t val s (x ∷ xs) l some fresh cleared few =
    let (at, some', back, value, rest) = l.linked in
    let self : (t == t) ≡ true = ground arith in
    let other : (t == x.0) ≡ false = ground (arith, fresh.0) in
    let full : (x.0 == 0) ≡ false = ground arith in
    let n1 = set_prev x.0 t s.nodes in
    let n2 = set_next t x.0 n1 in
    let moved =
      Segment-set_prev s.nodes t 0 x.0 s.tail x.0 x.1 xs l.distinct.0
        (refl, some', back, value, rest) in
    let kept =
      Segment-update n2 t (record (n2 t) { val = val }) t x.0 s.tail (x ∷ xs) fresh
        (Segment-update n1 t (record (n1 t) { next = x.0 }) t x.0 s.tail (x ∷ xs) fresh moved) in
    rw (at, full)
      (
        refl,
        record {
          linked = (
            refl,
            some,
            rw (self, other) cleared,
            rw self refl,
            subst (λ p. Segment (set_val t val n2) t p s.tail (x ∷ xs)) (rw self refl) kept,
          );
          distinct = (fresh, l.distinct);
          counted = omega (arith, l.counted);
        },
        λ e. cc,
      )

-- A node at an address `t` that is not NULL and no node's of the list: whatever it held, it becomes the
-- first one, with the value, and is the result. On an empty list the call also writes through NULL.
pub list_insert_front_lem :
    (t val : ℕ) (s : LinkedList) (xs : List (ℕ × ℕ))
    → IsList s xs
    → t ≢ 0
    → Fresh t xs
    → length xs + 1 < 2 ^ 32
    → ((list_insert_front t val s).0 ≡ t)
      × IsList (list_insert_front t val s).1 ((t, val) ∷ xs)
      × (xs ≡ [] → ((list_insert_front t val s).1.nodes 0).prev ≡ t)
unfolding list_insert_front
list_insert_front_lem t val s xs l some fresh few =
    let self : (t == t) ≡ true = ground arith in
    link_front_lem t val (record s { nodes = new_node t s.nodes }) xs
      (record {
        linked = Segment-update s.nodes t _ 0 s.head s.tail xs fresh l.linked;
        distinct = l.distinct;
        counted = l.counted;
      })
      some fresh (rw self refl) few

-- Of two nodes or more the first one is taken off and freed, its value is the result, and the others
-- stay. Taking off the only node leaves the tail pointing to it, though it has been freed. An empty
-- list is left as it is.
pub list_remove_front_lem :
    (s : LinkedList) (xs : List (ℕ × ℕ)) (x y : ℕ × ℕ)
    → length xs + 2 < 2 ^ 32
    → let r = list_remove_front s in
      (IsList s (x ∷ y ∷ xs) → (r.0 ≡ x.1) × IsList r.1 (y ∷ xs) × (r.1.freed ≡ x.0 ∷ s.freed))
      × (IsList s (x ∷ [])
          → (r.0 ≡ x.1)
            × (r.1.head ≡ 0)
            × (r.1.size ≡ 0)
            × (r.1.tail ≡ x.0)
            × (r.1.freed ≡ x.0 ∷ s.freed))
      × (IsList s [] → r ≡ (0, s))
unfolding list_remove_front
list_remove_front_lem s xs x y few = (two, one, none)
  where
    two :
        IsList s (x ∷ y ∷ xs)
        → let r = list_remove_front s in
          (r.0 ≡ x.1) × IsList r.1 (y ∷ xs) × (r.1.freed ≡ x.0 ∷ s.freed)
    two l =
        let (at, some, back, value, (next, some', back', value', rest)) = l.linked in
        let full : (x.0 == 0) ≡ false = ground arith in
        let full' : (y.0 == 0) ≡ false = ground arith in
        rw (at, full, next, full')
          (
            value,
            record {
              linked =
                  Segment-set_prev s.nodes 0 x.0 y.0 s.tail y.0 y.1 xs l.distinct.1.0
                    (refl, some', back', value', rest);
              distinct = l.distinct.1;
              counted = omega (arith, l.counted);
            },
            refl,
          )

    one :
        IsList s (x ∷ [])
        → let r = list_remove_front s in
          (r.0 ≡ x.1)
          × (r.1.head ≡ 0)
          × (r.1.size ≡ 0)
          × (r.1.tail ≡ x.0)
          × (r.1.freed ≡ x.0 ∷ s.freed)
    one l =
        let (at, some, back, value, (next, last)) = l.linked in
        let full : (x.0 == 0) ≡ false = ground arith in
        rw (at, full) (value, next, omega (arith, l.counted), last, refl)

    none : IsList s [] → list_remove_front s ≡ (0, s)
    none l = let (at, last) = l.linked in let t : (s.head == 0) ≡ true = ground arith in rw t refl
