-- ===== src/LinkedList.antt =====
-- lib/list.c: the doubly linked list of the kernel.
--
-- The nodes are a function from addresses, since the blocks of the heap do not overlap. NULL is 0, and
-- there is memory there too: a write through NULL goes to the node of address 0. The address that
-- `kcalloc` returns is an argument of the operations that allocate, which begin by clearing the node
-- there; `kfree` records the address and leaves the node as it is. Loops over the nodes run on fuel.
pub mod Front
pub mod Links
pub mod Remove
mod Tests
use unos.Base.{
  ℕ, zero, suc, ◌+◌, ◌-◌, ◌^◌, Bool, true, false, not, ◌||◌, Option, none, some, List, [], ◌∷◌, u32,
  ltb, leb, ◌==◌, if◌then◌else◌, update,
}

pub record Node : Type 0 where
  pub prev : ℕ
  pub next : ℕ
  pub val : ℕ

pub record LinkedList : Type 0 where
  pub nodes : ℕ → Node
  pub head : ℕ
  pub tail : ℕ
  pub size : ℕ
  pub freed : List ℕ

-- `list_create`: the structure is cleared
abbrev pub list_create : (nodes : ℕ → Node) → LinkedList
list_create nodes = record { nodes = nodes; head = 0; tail = 0; size = 0; freed = [] }

abbrev pub set_prev : (a p : ℕ) → (ℕ → Node) → ℕ → Node
set_prev a p n = update n a (record (n a) { prev = p })

abbrev pub set_next : (a p : ℕ) → (ℕ → Node) → ℕ → Node
set_next a p n = update n a (record (n a) { next = p })

abbrev pub set_val : (a v : ℕ) → (ℕ → Node) → ℕ → Node
set_val a v n = update n a (record (n a) { val = v })

-- an `int32_t`
abbrev pub list_size : LinkedList → ℕ
list_size s = s.size

-- `sizeof(listnode_t)`
abbrev pub sizeof_listnode : ℕ
sizeof_listnode = 12

-- a new node at the address `t`, as `kcalloc` leaves it
abbrev pub new_node : (t : ℕ) → (ℕ → Node) → ℕ → Node
new_node t n = update n t (record { prev = 0; next = 0; val = 0 })

-- the new node becomes the first one
pub link_front : (t val : ℕ) → LinkedList → ℕ × LinkedList
link_front t val s =
    let nodes = set_val t val (set_next t s.head (set_prev s.head t s.nodes)) in
    (
      t,
      record s {
        nodes = nodes;
        tail = if s.head == 0 then t else s.tail;
        head = t;
        size = u32 (s.size + 1);
      },
    )

pub list_insert_front : (t val : ℕ) → LinkedList → ℕ × LinkedList
unfolding link_front
list_insert_front t val s = link_front t val (record s { nodes = new_node t s.nodes })

pub list_insert_back : (t val : ℕ) → LinkedList → LinkedList
list_insert_back t val s =
    let n1 = set_prev t s.tail (new_node t s.nodes) in
    let n2 = if s.tail == 0 then n1 else set_next s.tail t n1 in
    record s {
      nodes = set_val t val n2;
      head = if s.head == 0 then t else s.head;
      tail = t;
      size = u32 (s.size + 1);
    }

pub list_remove_front : LinkedList → ℕ × LinkedList
list_remove_front s =
    let t = s.head in
    let next = (s.nodes t).next in
    if s.head == 0 then (0, s) else (
      (s.nodes t).val,
      record s {
        nodes = if next == 0 then s.nodes else set_prev next 0 s.nodes;
        head = next;
        freed = t ∷ s.freed;
        size = u32 (s.size + 2 ^ 32 - 1);
      },
    )

pub list_remove_back : LinkedList → ℕ × LinkedList
list_remove_back s =
    let t = s.tail in
    let prev = (s.nodes t).prev in
    if s.head == 0 then (0, s) else (
      (s.nodes t).val,
      record s {
        nodes = if prev == 0 then s.nodes else set_next prev 0 s.nodes;
        tail = prev;
        freed = t ∷ s.freed;
        size = u32 (s.size + 2 ^ 32 - 1);
      },
    )

pub list_remove_node : (node : ℕ) → LinkedList → ℕ × LinkedList
unfolding list_remove_front list_remove_back
list_remove_node node s =
    let n = s.nodes node in
    let n1 = set_prev n.next n.prev s.nodes in
    let n2 = set_next (n1 node).prev (n1 node).next n1 in
    if s.head == node
    then list_remove_front s
    else if s.tail == node
    then list_remove_back s
    else (n.val, record s { nodes = n2; size = u32 (s.size + 2 ^ 32 - 1); freed = node ∷ s.freed })

abbrev pub list_push : (t val : ℕ) → LinkedList → LinkedList
list_push t val s = list_insert_back t val s

pub list_pop : LinkedList → ℕ × LinkedList
list_pop s =
    let t = s.tail in
    let prev = (s.nodes t).prev in
    if s.head == 0 then (0, s) else (
      t,
      record s {
        nodes = if prev == 0 then s.nodes else set_next prev 0 s.nodes;
        tail = prev;
        size = u32 (s.size + 2 ^ 32 - 1);
      },
    )

abbrev pub list_enqueue : (t val : ℕ) → LinkedList → LinkedList
list_enqueue t val s = (list_insert_front t val s).1

abbrev pub list_dequeue : LinkedList → ℕ × LinkedList
list_dequeue s = list_pop s

abbrev pub list_peek_front : LinkedList → ℕ
list_peek_front s = if s.head == 0 then 0 else (s.nodes s.head).val

abbrev pub list_peek_back : LinkedList → ℕ
list_peek_back s = if s.tail == 0 then 0 else (s.nodes s.tail).val

-- the loop of `list_contain` from node `node` on, with the index `idx`; `none` is -1
pub contain_from : (fuel node idx val : ℕ) → LinkedList → Option ℕ
contain_from zero node idx val s = none
contain_from (suc fuel) node idx val s =
    let rest = contain_from fuel (s.nodes node).next (idx + 1) val s in
    if node == 0 then none else if (s.nodes node).val == val then some idx else rest

pub list_contain : (fuel val : ℕ) → LinkedList → Option ℕ
unfolding contain_from
list_contain fuel val s = contain_from fuel s.head 0 val s

-- the loop of `list_get_node_by_index`
pub node_from : (fuel node curr index : ℕ) → LinkedList → ℕ
node_from zero node curr index s = 0
node_from (suc fuel) node curr index s =
    let rest = node_from fuel (s.nodes node).next (curr + 1) index s in
    if node == 0 then 0 else if index == curr then node else rest

-- `index` is not negative
pub list_get_node_by_index : (fuel index : ℕ) → LinkedList → ℕ
unfolding node_from
list_get_node_by_index fuel index s =
    if leb (list_size s) index then 0 else node_from fuel s.head 0 index s

pub list_remove_by_index : (fuel index : ℕ) → LinkedList → ℕ × LinkedList
unfolding list_get_node_by_index list_remove_node
list_remove_by_index fuel index s = list_remove_node (list_get_node_by_index fuel index s) s

-- the loop of `list_destroy`
pub free_from : (fuel node : ℕ) → LinkedList → LinkedList
free_from zero node s = s
free_from (suc fuel) node s =
    let rest = free_from fuel (s.nodes node).next (record s { freed = node ∷ s.freed }) in
    if node == 0 then s else rest

-- the list itself is a block of the heap as well: its address is the last one freed
pub list_destroy : (fuel list : ℕ) → LinkedList → LinkedList
unfolding free_from
list_destroy fuel list s = let s' = free_from fuel s.head s in record s' { freed = list ∷ s'.freed }

pub listnode_destroy : (node : ℕ) → LinkedList → LinkedList
listnode_destroy node s = record s { freed = node ∷ s.freed }
