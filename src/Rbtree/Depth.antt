-- ===== src/Rbtree/Depth.antt =====
-- src/ds/ns_rbtree.c: how far `ns_rbtree_add` goes down a tree.
use nanosig.Base.{
  ℕ, suc, ◌+◌, ◌*◌, ◌^◌, ◌≤◌, ◌≡◌, refl, ap, Bool, true, false, [], ◌∷◌, length, length-append,
  arith, if◌then◌else◌, if_either,
}
use native.Mathlib.Nat.{pow-suc}
use nanosig.Rbtree.{
  red, black, RbTree, nil, node, left_of, right_of, Parents, Root, is_black, add_place,
}
use nanosig.Rbtree.Shape.{elements, black_height, IsRedBlack}
use nanosig.Rbtree.Ordered.{IsRoot}

-- The most nodes on a way down.
abbrev rank : RbTree → ℕ
rank t = 2 * black_height t + (if is_black t then 0 else 1)

rank_below_black :
    (l r : RbTree) → black_height l ≡ black_height r → suc (rank r) ≤ 2 * suc (black_height l)
rank_below_black l r h =
    if_either (λ (k : ℕ). suc (2 * black_height r + k) ≤ 2 * suc (black_height l)) (is_black r) 0 1
      (λ _. omega (arith, h)) (λ _. omega (arith, h))

add_place-rank :
    (less : ℕ → ℕ → Bool) (x : ℕ) (t : RbTree) (p : Parents) (leftmost : Bool)
    → IsRedBlack t
    → length (add_place less x t p leftmost).0 ≤ length p + rank t
unfolding add_place
add_place-rank less x nil p leftmost v = omega arith
add_place-rank less x (node black l a r) p leftmost (vl, vr, h, _) =
    if_either (λ (q : Parents × Bool). length q.0 ≤ length p + rank (node black l a r)) (less x a) _
      _
      (λ _. omega (
        arith,
        add_place-rank less x l (left_of black a r ∷ p) leftmost vl,
        rank_below_black l l refl,
      ))
      (λ _.
        omega (
          arith,
          add_place-rank less x r (right_of black l a ∷ p) false vr,
          rank_below_black l r h,
        ))
add_place-rank less x (node red l a r) p leftmost (vl, vr, h, (bl, br)) =
    if_either (λ (q : Parents × Bool). length q.0 ≤ length p + rank (node red l a r)) (less x a) _ _
      (λ _. omega (
        arith,
        add_place-rank less x l (left_of red a r ∷ p) leftmost vl,
        ap {B = ℕ} (λ b. if b then 0 else 1) bl,
      ))
      (λ _. omega (
        arith,
        add_place-rank less x r (right_of red l a ∷ p) false vr,
        ap {B = ℕ} (λ b. if b then 0 else 1) br,
        h,
      ))

black_height_size : (t : RbTree) → IsRedBlack t → 2 ^ black_height t ≤ suc (length (elements t))
black_height_size nil v = omega arith
black_height_size (node red l a r) (vl, vr, h, _) =
    omega (arith, length-append (elements l) (a ∷ elements r), black_height_size l vl)
black_height_size (node black l a r) (vl, vr, h, _) = omega (
  arith,
  length-append (elements l) (a ∷ elements r),
  black_height_size l vl,
  black_height_size r vr,
  pow-suc 2 (black_height l),
  ap (λ k. 2 ^ k) h,
)

-- The search for a new node's place takes at most 2 k steps, for a k such that the tree has at least
-- 2 ^ k - 1 nodes.
pub add_place_bound :
    (less : ℕ → ℕ → Bool) (x : ℕ) (tree : Root)
    → IsRoot tree
    → (k : ℕ) × (length (add_place less x tree.rb_node [] true).0 ≤ 2 * k)
      × (2 ^ k ≤ suc (length (elements tree.rb_node)))
add_place_bound less x tree v = (
  black_height tree.rb_node,
  omega (
    arith,
    add_place-rank less x tree.rb_node [] true v.whole.0,
    ap {B = ℕ} (λ b. if b then 0 else 1) v.whole.1,
  ),
  black_height_size tree.rb_node v.whole.0,
)
