-- ===== src/LinkedList/Tests.antt =====
-- The theorems on the front at a list of two nodes, 5 at address 0x100 and 6 at 0x200.
use unos.Base.{ℕ, ◌≡◌, refl, arith, List, [], ◌∷◌, ◌==◌, if◌then◌else◌}
use unos.LinkedList.{LinkedList, list_insert_front, list_remove_node}
use unos.LinkedList.Remove.{Removed, list_remove_node_lem}
use unos.LinkedList.Front.{IsList, list_insert_front_lem}

abbrev two : LinkedList
two = record {
  nodes = λ j.
      if j == 0x100
      then record { prev = 0; next = 0x200; val = 5 }
      else if j == 0x200
      then record { prev = 0x100; next = 0; val = 6 }
      else record { prev = 0; next = 0; val = 0 };
  head = 0x100;
  tail = 0x200;
  size = 2;
  freed = [];
}

abbrev values : List (ℕ × ℕ)
values = (0x100, 5) ∷ (0x200, 6) ∷ []

two-IsList : IsList two values
two-IsList = record {
  linked = (refl, omega arith, refl, refl, (refl, omega arith, refl, refl, (refl, refl)));
  distinct = ((omega arith, tt), (tt, tt));
  counted = refl;
}

list_remove_node_lem_example : Removed two (list_remove_node 0x200 two) (0x200, 6) ((0x100, 5) ∷ [])
list_remove_node_lem_example =
    list_remove_node_lem two ((0x100, 5) ∷ []) (0x200, 6) [] two-IsList (omega arith) (omega arith)

list_insert_front_lem_example :
    ((list_insert_front 0x300 7 two).0 ≡ 0x300)
    × IsList (list_insert_front 0x300 7 two).1 ((0x300, 7) ∷ values)
    × (values ≡ [] → ((list_insert_front 0x300 7 two).1.nodes 0).prev ≡ 0x300)
list_insert_front_lem_example =
    list_insert_front_lem 0x300 7 two values two-IsList (omega arith)
      (omega arith, (omega arith, tt)) (omega arith)
