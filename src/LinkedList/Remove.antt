-- ===== src/LinkedList/Remove.antt =====
-- A node taken out of the list at any place.
use unos.Base.{
  ℕ, ◌+◌, ◌-◌, ◌^◌, ◌<◌, ◌≡◌, refl, arith, true, false, List, [], ◌∷◌, ◌++◌, ◌==◌, length, sym,
  length-append, u32,
}
use mathlib.Core.Path.{subst}
use unos.LinkedList.{Node, LinkedList, set_prev, set_next, list_remove_back, list_remove_node}
use unos.LinkedList.Front.{Segment, IsList, Segment-update, Segment-set_prev, list_remove_front_lem}
use unos.LinkedList.Links.{
  AreDistinct-drop, AreDistinct-behind, AreDistinct-end, Segment-at, Segment-unlink, prev_some,
  prev-Fresh, last-ne,
}

-- What is left of a list without one node.
pub record Removed (s : LinkedList) (r : ℕ × LinkedList) (x : ℕ × ℕ) (xs : List (ℕ × ℕ))
    : Type 0 where
  pub value : r.0 ≡ x.1
  pub list : IsList r.1 xs
  pub freed : r.1.freed ≡ x.0 ∷ s.freed

module _ (s : LinkedList) (z x : ℕ × ℕ) (xs : List (ℕ × ℕ)) where
  list_remove_back_lem :
      IsList s (z ∷ (xs ++ (x ∷ [])))
      → length (z ∷ (xs ++ (x ∷ []))) < 2 ^ 32
      → Removed s (list_remove_back s) x (z ∷ (xs ++ []))
  unfolding list_remove_back
  list_remove_back_lem l few =
      let n = s.nodes in
      let (ne, value, (next, end)) = Segment-at n x [] s.tail 0 s.head (z ∷ xs) l.linked in
      let full : (s.head == 0) ≡ false = ground (arith, l.linked.0, l.linked.1) in
      let filled = prev_some n x [] s.tail 0 s.head z xs l.linked in
      let before : ((n x.0).prev == 0) ≡ false = ground (arith, filled) in
      let m = set_next (n x.0).prev 0 n in
      rw (full, end, before)
        (record {
          value = value;
          list = record {
            linked =
                Segment-unlink n x [] s.tail m (n x.0).prev (next, refl) (ground (arith, next))
                  (λ j. ground arith) (λ j apart. ground (arith, apart)) (λ j apart. ground arith) 0
                  s.head z xs l.linked l.distinct;
            distinct = AreDistinct-drop (z ∷ xs) x [] l.distinct;
            counted =
                ground (arith, l.counted, length-append {0} xs (x ∷ []), length-append {0} xs []);
          };
          freed = refl;
        })

  list_remove_middle_lem :
      (y : ℕ × ℕ) (ys : List (ℕ × ℕ))
      → IsList s (z ∷ (xs ++ (x ∷ y ∷ ys)))
      → length (z ∷ (xs ++ (x ∷ y ∷ ys))) < 2 ^ 32
      → Removed s (list_remove_node x.0 s) x (z ∷ (xs ++ (y ∷ ys)))
  unfolding list_remove_node
  list_remove_middle_lem y ys l few =
      let n = s.nodes in
      let prev = (n x.0).prev in
      let next = (n x.0).next in
      let n1 = set_prev next prev n in
      let m = set_next prev next n1 in
      let (ne, value, more) = Segment-at n x (y ∷ ys) s.tail 0 s.head (z ∷ xs) l.linked in
      let (behind, ahead) = AreDistinct-behind (z ∷ xs) x (y ∷ ys) l.distinct in
      let front : (s.head == x.0) ≡ false = ground (arith, l.linked.0, ahead.0) in
      let end : (s.tail == x.0) ≡ false =
        ground (arith, last-ne n x.0 x.0 next s.tail y ys more behind) in
      let same : n1 x.0 ≡ n x.0 = ground (arith, behind.0, more.0) in
      let moved =
        subst (λ q. Segment (set_prev q prev n) prev next s.tail (y ∷ ys)) (sym more.0)
          (Segment-set_prev n prev x.0 next s.tail y.0 y.1 ys
            (AreDistinct-end (z ∷ xs) x (y ∷ ys) l.distinct).1.0 more) in
      let rest =
        Segment-update n1 prev (record (n1 prev) { next = next }) prev next s.tail (y ∷ ys)
          (prev-Fresh n x (y ∷ ys) s.tail 0 s.head z xs l.linked l.distinct) moved in
      rw (front, end)
        (subst
          (λ (nd : Node).
            Removed s
              (
                (n x.0).val,
                record s {
                  nodes = set_next nd.prev nd.next n1;
                  size = u32 (s.size + 2 ^ 32 - 1);
                  freed = x.0 ∷ s.freed;
                },
              )
              x (z ∷ (xs ++ (y ∷ ys))))
          (sym same)
          (record {
            value = value;
            list = record {
              linked =
                  Segment-unlink n x (y ∷ ys) s.tail m s.tail rest (ground arith)
                    (λ j. ground arith) (λ j apart. ground (arith, apart))
                    (λ j apart. ground (arith, apart)) 0 s.head z xs l.linked l.distinct;
              distinct = AreDistinct-drop (z ∷ xs) x (y ∷ ys) l.distinct;
              counted = ground (
                arith,
                l.counted,
                length-append {0} xs (x ∷ y ∷ ys),
                length-append {0} xs (y ∷ ys),
              );
            };
            freed = refl;
          }))

-- `list_remove_node` takes the node out of a list of two or more, wherever it stands: its value is the
-- result, it is freed, and the other nodes stay linked in their order.
pub list_remove_node_lem :
    (s : LinkedList) (xs : List (ℕ × ℕ)) (x : ℕ × ℕ) (ys : List (ℕ × ℕ))
    → IsList s (xs ++ (x ∷ ys))
    → length (xs ++ (x ∷ ys)) < 2 ^ 32
    → 1 < length (xs ++ (x ∷ ys))
    → Removed s (list_remove_node x.0 s) x (xs ++ ys)
unfolding list_remove_node
list_remove_node_lem s [] x [] l few more = absurd (omega arith)
list_remove_node_lem s [] x (y ∷ ys) l few more =
    let front : (s.head == x.0) ≡ true = ground (arith, l.linked.0) in
    let (two, one, empty) = list_remove_front_lem s ys x y (omega arith) in
    let (value, list, freed) = two l in
    rw front (record { value = value; list = list; freed = freed })
list_remove_node_lem s (z ∷ xs) x [] l few more =
    let (ne, value, (next, end)) = Segment-at s.nodes x [] s.tail 0 s.head (z ∷ xs) l.linked in
    let (behind, ahead) = AreDistinct-behind (z ∷ xs) x [] l.distinct in
    let front : (s.head == x.0) ≡ false = ground (arith, l.linked.0, ahead.0) in
    let last : (s.tail == x.0) ≡ true = ground (arith, end) in
    rw (front, last) (list_remove_back_lem s z x xs l few)
list_remove_node_lem s (z ∷ xs) x (y ∷ ys) l few more = list_remove_middle_lem s z x xs y ys l few
