-- ===== src/Rbtree/Search.antt =====
-- src/ds/ns_rbtree.c: the searches by a key, and the traversal of children before their parents.
pub mod Exact
pub mod Added
pub mod Postorder
use nanosig.Base.{ℕ, Bool, true, false, Option, some, none, List, [], ◌∷◌, if◌then◌else◌}
use nanosig.Rbtree.{
  Color, RbTree, nil, node, Step, left_of, right_of, Parents, Place, Root, insert_fix, next,
}

-- The sign of what `match(key, node)` or `cmp` returns: the key comes before the node, is the
-- node's, or comes behind it.
pub data Sign : Type 0 where
  negative zero_sign positive : Sign

abbrev pub by_sign {ℓ} : {A : Type ℓ} → Sign → A → A → A → A
by_sign negative x y z = x
by_sign zero_sign x y z = y
by_sign positive x y z = z

-- `ns_rbtree_match_find`, from a subtree on.
pub match_find : (ℕ → Sign) → RbTree → Option ℕ
match_find match nil = none
match_find match (node c l a r) =
    let on_left = match_find match l in
    let on_right = match_find match r in by_sign (match a) on_left (some a) on_right

-- `ns_rbtree_find_first`, from a subtree on and with what matched so far.
pub find_first : (ℕ → Sign) → RbTree → Option ℕ → Option ℕ
find_first match nil match_node = match_node
find_first match (node c l a r) match_node =
    let passed = find_first match l match_node in
    let matched = find_first match l (some a) in
    let on_right = find_first match r match_node in by_sign (match a) passed matched on_right

abbrev pub only_if_same : (ℕ → Sign) → Option ℕ → Option ℕ
only_if_same match none = none
only_if_same match (some y) = by_sign (match y) none (some y) none

-- `ns_rbtree_next_match`.
pub next_match : (ℕ → Sign) → Place → Option ℕ
next_match match q = only_if_same match (next q)

-- What the loops of `ns_rbtree_find_add` and `ns_rbtree_find_new_add` end with: a node that
-- matches, or the parents of the new node's place and whether it is leftmost.
pub data Searched : Type 0 where
  matches : ℕ → Searched
  free_at : Parents → Bool → Searched

pub find_place : (ℕ → Sign) → RbTree → Parents → Bool → Searched
find_place match nil path leftmost = free_at path leftmost
find_place match (node c l a r) path leftmost =
    let on_left = find_place match l (left_of c a r ∷ path) leftmost in
    let on_right = find_place match r (right_of c l a ∷ path) false in
    by_sign (match a) on_left (matches a) on_right

abbrev pub linked_at : ℕ → Parents → Bool → Root → Root
linked_at x path leftmost tree = record {
  rb_node = insert_fix nil x nil path;
  rb_leftmost = if leftmost then some x else tree.rb_leftmost;
}

abbrev pub find_added : ℕ → Root → Searched → Root × ℕ
find_added x tree (matches a) = (tree, a)
find_added x tree (free_at path leftmost) = (linked_at x path leftmost tree, x)

-- `ns_rbtree_find_add`; `match` is `tree->cmp` of the new node.
pub find_add : (ℕ → Sign) → ℕ → Root → Root × ℕ
find_add match x tree = find_added x tree (find_place match tree.rb_node [] true)

abbrev pub new_added : Option ℕ → (ℕ → Bool) → Root → Searched → Root × Option ℕ
new_added made is_empty tree (matches a) = (tree, some a)
new_added none is_empty tree (free_at path leftmost) = (tree, none)
new_added (some x) is_empty tree (free_at path leftmost) =
    if is_empty x then (linked_at x path leftmost tree, some x) else (tree, none)

-- `ns_rbtree_find_new_add`; `made` is what `new_node` returns, and `is_empty` is
-- `ns_rbtree_node_is_empty` of it.
pub find_new_add : (ℕ → Sign) → Option ℕ → (ℕ → Bool) → Root → Root × Option ℕ
find_new_add match made is_empty tree =
    new_added made is_empty tree (find_place match tree.rb_node [] true)

-- `ns_rb_left_deepest_node` of a subtree's root: on the left if there is a child, or else on the
-- right, or else the node itself. Of no subtree, it is the second argument.
pub left_deepest : RbTree → ℕ → ℕ
left_deepest nil a = a
left_deepest (node c l b r) a = left_deepest l (left_deepest r b)

-- `ns_rbtree_first_postorder`.
pub first_postorder : Root → Option ℕ
first_postorder tree = elim tree.rb_node [
  | nil ↦ none
  | node c l a r ↦ some (left_deepest l (left_deepest r a))
]

-- `ns_rbtree_next_postorder` of a node with these parents.
pub next_postorder : Parents → Option ℕ
next_postorder [] = none
next_postorder (left_of c a r ∷ path) = some (left_deepest r a)
next_postorder (right_of c l a ∷ path) = some a
