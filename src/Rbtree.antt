-- ===== src/Rbtree.antt =====
-- src/ds/ns_rbtree.c: the red-black tree, with a place in it as a subtree and its parents.
pub mod Shape
pub mod Insert
pub mod Erase
pub mod Rebalance
pub mod Delete
pub mod Ordered
pub mod Walk
pub mod Remove
pub mod Depth
pub mod Search
mod Tests
use nanosig.Base.{
  ℕ, Bool, true, false, not, ◌||◌, Option, some, none, List, [], ◌∷◌, ◌++◌, if◌then◌else◌, ltb,
  ◌==◌,
}

pub data Color : Type 0 where
  red black : Color

-- A node's colour, its left child, its address and its right child; `nil` is NULL.
pub data RbTree : Type 0 where
  nil : RbTree
  node : Color → RbTree → ℕ → RbTree → RbTree

-- A parent of a node: the node is its left child, and the right one is given, or the other way.
pub data Step : Type 0 where
  left_of : Color → ℕ → RbTree → Step
  right_of : Color → RbTree → ℕ → Step

-- The parents of a node up to the root, as its `parent_and_color` and those of the parents give them.
abbrev pub Parents : Type 0
Parents = List Step

-- `ns_rbtree_t` without its comparison, which the calls take.
pub record Root : Type 0 where
  pub rb_node : RbTree
  pub rb_leftmost : Option ℕ

abbrev pub is_black : RbTree → Bool
is_black nil = true
is_black (node red l a r) = false
is_black (node black l a r) = true

abbrev pub black_color : Color → Bool
black_color red = false
black_color black = true

-- `ns_rb_set_parent_color(tmp, parent, c)` of a node that may be NULL.
abbrev pub paint : Color → RbTree → RbTree
paint c nil = nil
paint c (node d l a r) = node c l a r

-- The tree that a subtree is at a place of.
pub zip : RbTree → Parents → RbTree
zip t [] = t
zip t (left_of c a r ∷ p) = zip (node c t a r) p
zip t (right_of c l a ∷ p) = zip (node c l a t) p

-- `__ns_rb_insert` from a red node on, which has these children and parents.
pub insert_fix : RbTree → ℕ → RbTree → Parents → RbTree
insert_fix l x r [] = node black l x r
insert_fix l x r (left_of black p s ∷ path) = zip (node red l x r) (left_of black p s ∷ path)
insert_fix l x r (right_of black s p ∷ path) = zip (node red l x r) (right_of black s p ∷ path)
insert_fix l x r (left_of red p s ∷ []) = zip (node red l x r) (left_of red p s ∷ [])
insert_fix l x r (right_of red s p ∷ []) = zip (node red l x r) (right_of red s p ∷ [])
insert_fix l x r (left_of red p s ∷ left_of gc g u ∷ path) =
    let flipped = insert_fix (node black (node red l x r) p s) g (paint black u) path in
    if is_black u
    then zip (node gc (node red l x r) p (node red (paint black s) g u)) path
    else flipped
insert_fix l x r (right_of red s p ∷ left_of gc g u ∷ path) =
    let flipped = insert_fix (node black s p (node red l x r)) g (paint black u) path in
    if is_black u
    then zip (node gc (node red s p (paint black l)) x (node red (paint black r) g u)) path
    else flipped
insert_fix l x r (right_of red s p ∷ right_of gc u g ∷ path) =
    let flipped = insert_fix (paint black u) g (node black s p (node red l x r)) path in
    if is_black u
    then zip (node gc (node red u g (paint black s)) p (node red l x r)) path
    else flipped
insert_fix l x r (left_of red p s ∷ right_of gc u g ∷ path) =
    let flipped = insert_fix (paint black u) g (node black (node red l x r) p s) path in
    if is_black u
    then zip (node gc (node red u g (paint black l)) x (node red (paint black r) p s)) path
    else flipped

-- The loop of `ns_rbtree_add`: the parents of the place of x, and whether it is leftmost.
pub add_place : (ℕ → ℕ → Bool) → ℕ → RbTree → Parents → Bool → Parents × Bool
add_place less x nil path leftmost = (path, leftmost)
add_place less x (node c l a r) path leftmost =
    let on_left = add_place less x l (left_of c a r ∷ path) leftmost in
    let on_right = add_place less x r (right_of c l a ∷ path) false in
    if less x a then on_left else on_right

-- `ns_rbtree_add`; `less` is `tree->cmp(a, b) < 0`. The Boolean says that x came leftmost.
pub add : (ℕ → ℕ → Bool) → ℕ → Root → Root × Bool
add less x tree =
    let (path, leftmost) = add_place less x tree.rb_node [] true in
    (
      record {
        rb_node = insert_fix nil x nil path;
        rb_leftmost = if leftmost then some x else tree.rb_leftmost;
      },
      leftmost,
    )

-- Case 3 and Case 4, about a sibling s with a red left child.
pub rotated_left : RbTree → Color → ℕ → Color → RbTree → ℕ → RbTree → RbTree
rotated_left n pc p sc nil s sr = node pc n p (node sc nil s sr)
rotated_left n pc p sc (node tc tl t tr) s sr =
    node pc (node black n p tl) t (node black (paint black tr) s sr)

-- On the other side.
pub rotated_right : RbTree → Color → ℕ → Color → RbTree → ℕ → RbTree → RbTree
rotated_right n pc p sc sl s nil = node pc (node sc sl s nil) p n
rotated_right n pc p sc sl s (node tc tl t tr) =
    node pc (node black sl s (paint black tl)) t (node black tr p n)

-- The left child's side of `____ns_rb_erase_color` for a black sibling, from its Case 2 on: what
-- stands in the parent's place then, and whether black nodes are still missing there.
pub fix_left : RbTree → Color → ℕ → RbTree → RbTree × Bool
fix_left n pc p nil = (node pc n p nil, false)
fix_left n pc p (node sc sl s sr) =
    if is_black sr
    then (if is_black sl
        then (node black n p (node red sl s sr), black_color pc)
        else (rotated_left n pc p sc sl s sr, false))
    else (node pc (node black n p sl) s (paint black sr), false)

-- The right child's side.
pub fix_right : RbTree → Color → ℕ → RbTree → RbTree × Bool
fix_right n pc p nil = (node pc nil p n, false)
fix_right n pc p (node sc sl s sr) =
    if is_black sl
    then (if is_black sr
        then (node black (node red sl s sr) p n, black_color pc)
        else (rotated_right n pc p sc sl s sr, false))
    else (node pc (paint black sl) s (node black sr p n), false)

-- One round of the loop: with a red sibling there is its Case 1 first, in which the parent becomes
-- red, so that no black nodes are missing after the round.
pub round_left : RbTree → Color → ℕ → RbTree → RbTree × Bool
round_left n pc p (node red sl s sr) = (node pc (fix_left n red p (paint black sl)).0 s sr, false)
round_left n pc p s = fix_left n pc p s

pub round_right : RbTree → Color → ℕ → RbTree → RbTree × Bool
round_right n pc p (node red sl s sr) = (node pc sl s (fix_right n red p (paint black sr)).0, false)
round_right n pc p s = fix_right n pc p s

-- `____ns_rb_erase_color`, from a node on in whose subtree a black node is missing.
pub erase_fix : RbTree → Parents → RbTree
erase_fix n [] = n
erase_fix n (left_of pc p s ∷ path) =
    let (t, missing) = round_left n pc p s in
    let rest = erase_fix t path in if missing then rest else zip t path
erase_fix n (right_of pc s p ∷ path) =
    let (t, missing) = round_right n pc p s in
    let rest = erase_fix t path in if missing then rest else zip t path

-- The leftmost node of a subtree with this root: its colour, its address, its right child, and its
-- parents within the subtree.
pub successor : Color → RbTree → ℕ → RbTree → Parents → Color × ℕ × RbTree × Parents
successor c nil a r path = (c, a, r, path)
successor c (node d ll b lr) a r path = successor d ll b lr (left_of c a r ∷ path)

-- What comes in the place of a node of this colour that goes: its only child, or nothing.
pub replaced : Color → RbTree → Parents → RbTree
replaced c nil path = if black_color c then erase_fix nil path else zip nil path
replaced c (node d l a r) path = zip (node c l a r) path

-- The child of a successor comes in its place.
pub moved_up : Color → RbTree → Parents → RbTree
moved_up c nil path = if black_color c then erase_fix nil path else zip nil path
moved_up c (node d l a r) path = zip (node black l a r) path

-- `__ns_rb_del` and the rebalancing, of a node with this colour and these children and parents.
pub del_at : Color → RbTree → RbTree → Parents → RbTree
del_at c nil r path = replaced c r path
del_at c (node lc ll la lr) nil path = replaced c (node lc ll la lr) path
del_at c (node lc ll la lr) (node rc rl ra rr) path =
    let (sc, s, child2, inner) = successor rc rl ra rr [] in
    moved_up sc child2 (inner ++ right_of c (node lc ll la lr) s ∷ path)

-- A node's colour, children and parents, which its address gives.
pub record Place : Type 0 where
  pub color : Color
  pub left : RbTree
  pub right : RbTree
  pub path : Parents

abbrev pub place_or : Option Place → Option Place → Option Place
place_or none q = q
place_or (some p) q = some p

pub locate : ℕ → RbTree → Parents → Option Place
locate x nil path = none
locate x (node c l a r) path = place_or (locate x l (left_of c a r ∷ path)) (
    if x == a
    then some (record { color = c; left = l; right = r; path = path })
    else locate x r (right_of c l a ∷ path))

-- The loop `while(node->rb_left) node = node->rb_left`, from a node with this left child on.
pub leftmost_from : RbTree → ℕ → ℕ
leftmost_from nil a = a
leftmost_from (node c l b r) a = leftmost_from l b

pub rightmost_from : ℕ → RbTree → ℕ
rightmost_from a nil = a
rightmost_from a (node c l b r) = rightmost_from b r

-- The loops of `ns_rbtree_next` and `ns_rbtree_prev` up the parents.
pub up_next : Parents → Option ℕ
up_next [] = none
up_next (left_of c a r ∷ path) = some a
up_next (right_of c l a ∷ path) = up_next path

pub up_prev : Parents → Option ℕ
up_prev [] = none
up_prev (left_of c a r ∷ path) = up_prev path
up_prev (right_of c l a ∷ path) = some a

-- `ns_rbtree_next` and `ns_rbtree_prev` of a node in a tree; `none` is NULL.
pub next : Place → Option ℕ
next q = elim q.right [ nil ↦ up_next q.path | node c l a r ↦ some (leftmost_from l a) ]

pub prev : Place → Option ℕ
prev q = elim q.left [ nil ↦ up_prev q.path | node c l a r ↦ some (rightmost_from a r) ]

-- `ns_rbtree_last`.
pub last : Root → Option ℕ
last tree = elim tree.rb_node [ nil ↦ none | node c l a r ↦ some (rightmost_from a r) ]

abbrev pub is_this : ℕ → Option ℕ → Bool
is_this x none = false
is_this x (some y) = x == y

abbrev pub is_node : Option ℕ → Bool
is_node none = false
is_node (some y) = true

abbrev pub del_place : ℕ → Root → Option Place → Root × Bool
del_place x tree none = (tree, false)
del_place x tree (some q) =
    let first = is_this x tree.rb_leftmost in
    (
      record {
        rb_node = del_at q.color q.left q.right q.path;
        rb_leftmost = if first then next q else tree.rb_leftmost;
      },
      if first then is_node (next q) else false,
    )

-- `ns_rbtree_del`; the Boolean says that it returns a node and not NULL. An address that is in the
-- tree is asked for, and otherwise nothing is done here.
pub del : ℕ → Root → Root × Bool
del x tree = del_place x tree (locate x tree.rb_node [])
