-- ===== src/Linked.antt =====
-- src/lib/list.c: doubly linked lists of nodes that their owners embed, with a head and a tail node of
-- the list's own. A store gives the two fields of the node at each address; an access through `NULL`
-- is a fault. The loops run on fuel: they fault when it is used up, which Walk rules out.
mod Examples
pub mod Chain
pub mod Splice
pub mod Ops
pub mod Walk
pub mod Ends
pub mod Sorted
use yuios.Common.{
  ℕ, zero, suc, Bool, true, false, not, ltb, ◌==◌, if◌then◌else◌, fault, Outcome, ok, halt, ◌>>=◌,
  ◌>>◌, assert, access, add32, int_order,
}

abbrev pub Ptr : Type 0
Ptr = ℕ

abbrev pub null : Ptr
null = 0

-- the fields `prev` and `next` of every node
pub record Store : Type 0 where
  pub prev : Ptr → Ptr
  pub next : Ptr → Ptr

-- the addresses of `list->head` and `list->tail`
pub record Handle : Type 0 where
  pub head : Ptr
  pub tail : Ptr

abbrev pub update : (Ptr → Ptr) → Ptr → Ptr → Ptr → Ptr
update f p v q = if p == q then v else f q

abbrev pub set_prev : Store → Ptr → Ptr → Outcome Store
set_prev s p v = access (not (p == null)) >>= λ _. ok (record s { prev = update s.prev p v })

abbrev pub set_next : Store → Ptr → Ptr → Outcome Store
set_next s p v = access (not (p == null)) >>= λ _. ok (record s { next = update s.next p v })

-- `list_init`
unfoldable pub init : Store → Handle → Outcome Store
init s l = do
  s ← set_prev s l.head null
  s ← set_next s l.tail null
  s ← set_next s l.head l.tail
  set_prev s l.tail l.head

-- `list_insert_before`
unfoldable pub insert_before : Store → (anchor node : Ptr) → Outcome Store
insert_before s anchor node = do
  access (not (anchor == null))
  s ← set_prev s node (s.prev anchor)
  s ← set_next s node anchor
  s ← set_next s (s.prev anchor) node
  set_prev s anchor node

-- `list_insert_after`
unfoldable pub insert_after : Store → (anchor node : Ptr) → Outcome Store
insert_after s anchor node = do
  access (not (anchor == null))
  s ← set_prev s node anchor
  s ← set_next s node (s.next anchor)
  s ← set_prev s (s.next anchor) node
  set_next s anchor node

-- `list_remove`
unfoldable pub remove : Store → Ptr → Outcome Store
remove s node = do
  access (not (node == null))
  assert (not (s.prev node == null))
  assert (not (s.next node == null))
  s ← set_next s (s.prev node) (s.next node)
  s ← set_prev s (s.next node) (s.prev node)
  s ← set_next s node null
  set_prev s node null

-- `list_empty`
unfoldable pub empty : Store → Handle → Bool
empty s l = s.next l.head == l.tail

-- The loop of `list_search`, from node `at` on.
unfoldable pub search_from : ℕ → Store → Handle → (at node : Ptr) → Outcome Bool
search_from zero s l at node = halt fault
search_from (suc fuel) s l at node =
    let rest = access (not (at == null)) >>= λ _. search_from fuel s l (s.next at) node in
    if at == l.tail then ok false else if at == node then ok true else rest

-- `list_search`
unfoldable pub search : ℕ → Store → Handle → Ptr → Outcome Bool
search fuel s l node = search_from fuel s l (s.next l.head) node

-- `list_size`, with its loop
unfoldable pub size_from : ℕ → Store → Handle → Ptr → ℕ → Outcome ℕ
size_from zero s l at size = halt fault
size_from (suc fuel) s l at size =
    let rest = access (not (at == null)) >>= λ _. size_from fuel s l (s.next at) (add32 size 1) in
    if at == l.tail then ok size else rest

unfoldable pub size : ℕ → Store → Handle → Outcome ℕ
size fuel s l = size_from fuel s l (s.next l.head) 0

-- `list_push` and `list_pushback`
unfoldable pub push : ℕ → Store → Handle → Ptr → Outcome Store
push fuel s l node = do found ← search fuel s l node; assert (not found); insert_after s l.head node

unfoldable pub pushback : ℕ → Store → Handle → Ptr → Outcome Store
pushback fuel s l node = do
  found ← search fuel s l node
  assert (not found)
  insert_before s l.tail node

-- `list_pop` and `list_popback`: the node and the new store
unfoldable pub pop : Store → Handle → Outcome (Ptr × Store)
pop s l = do assert (not (empty s l)); s' ← remove s (s.next l.head); ok (s.next l.head, s')

unfoldable pub popback : Store → Handle → Outcome (Ptr × Store)
popback s l = do assert (not (empty s l)); s' ← remove s (s.prev l.tail); ok (s.prev l.tail, s')

-- `element_node_key` reads the 32 bits of a key as an `int`: its place in the order of the signed
-- numbers.
abbrev pub as_int : (Ptr → ℕ) → Ptr → ℕ
as_int key p = int_order (key p)

-- The loop of `list_insert_sort`: the first node with a greater key, or the tail.
unfoldable pub anchor_from : ℕ → Store → Handle → (Ptr → ℕ) → Ptr → ℕ → Outcome Ptr
anchor_from zero s l key at k = halt fault
anchor_from (suc fuel) s l key at k =
    let rest = access (not (at == null)) >>= λ _. anchor_from fuel s l key (s.next at) k in
    if at == l.tail then ok l.tail else if ltb k (key at) then ok at else rest

-- `list_insert_sort`
unfoldable pub insert_sort : ℕ → Store → Handle → (Ptr → ℕ) → Ptr → Outcome Store
insert_sort fuel s l key node = do
  anchor ← anchor_from fuel s l (as_int key) (s.next l.head) (as_int key node)
  assert (s.next node == null)
  assert (s.prev node == null)
  insert_before s anchor node
