-- ===== src/Links.antt =====
-- include/nanosig/nanosig_list.h: the doubly linked lists, as fields of nodes at addresses.
pub mod Chain
pub mod Ring
pub mod Remove
pub mod Apart
pub mod Single
mod Tests
use nanosig.Base.{ℕ, Bool, Option, some, none, if◌then◌else◌, ◌==◌, update}

-- The `next` and `prev` fields of the node at each address; 0 is NULL.
pub record Heap : Type 0 where
  pub next : ℕ → ℕ
  pub prev : ℕ → ℕ

abbrev pub set_next : Heap → ℕ → ℕ → Heap
set_next h a v = record h { next = update h.next a v }

abbrev pub set_prev : Heap → ℕ → ℕ → Heap
set_prev h a v = record h { prev = update h.prev a v }

pub list_init : Heap → ℕ → Heap
list_init h head = set_prev (set_next h head head) head head

pub list_empty : Heap → ℕ → Bool
list_empty h head = h.next head == head

pub insert_between : Heap → ℕ → ℕ → ℕ → Heap
insert_between h node prev next =
    set_next (set_prev (set_next (set_prev h next node) node next) node prev) prev node

pub push_front : Heap → ℕ → ℕ → Heap
push_front h head node = insert_between h node head (h.next head)

pub push_back : Heap → ℕ → ℕ → Heap
push_back h head node = insert_between h node (h.prev head) head

-- The two writes that leave the node out: the second reads `prev` after the first.
pub bypass : Heap → ℕ → Heap
bypass h node =
    let h' = set_prev h (h.next node) (h.prev node) in set_next h' (h'.prev node) (h'.next node)

pub list_remove : Heap → ℕ → Heap
list_remove h node = set_prev (set_next (bypass h node) node 0) node 0

pub remove_init : Heap → ℕ → Heap
remove_init h node = list_init (bypass h node) node

-- 0 is NULL, which an empty list gives.
pub front : Heap → ℕ → ℕ
front h head = if list_empty h head then 0 else h.next head

pub back : Heap → ℕ → ℕ
back h head = if list_empty h head then 0 else h.prev head

pub pop_front : Heap → ℕ → ℕ × Heap
pop_front h head = let node = front h head in (node, if node == 0 then h else list_remove h node)

pub pop_back : Heap → ℕ → ℕ × Heap
pop_back h head = let node = back h head in (node, if node == 0 then h else list_remove h node)

pub move_back : Heap → ℕ → ℕ → Heap
move_back h head node = push_back (list_remove h node) head node

pub splice_back_init : Heap → ℕ → ℕ → Heap
splice_back_init h head other =
    let first = h.next other in
    let last = h.prev other in
    let h1 = set_prev h first (h.prev head) in
    let h2 = set_next h1 (h1.prev head) first in
    let h3 = set_next h2 last head in
    let h4 = set_prev h3 head last in
    if list_empty h other then h else if head == other then h else list_init h4 other
