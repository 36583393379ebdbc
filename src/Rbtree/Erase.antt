-- ===== src/Rbtree/Erase.antt =====
-- src/ds/ns_rbtree.c: `____ns_rb_erase_color` keeps the order.
use nanosig.Base.{
  false, ◌≡◌, refl, sym, ◌∙◌, ap, ℕ, Bool, [], ◌∷◌, ◌++◌, append_assoc, append-nil, if_either,
}
use nanosig.Rbtree.{
  Color, red, black, RbTree, nil, node, left_of, right_of, Parents, is_black, black_color, paint,
  rotated_left, rotated_right, fix_left, fix_right, round_left, round_right, erase_fix,
}
use nanosig.Rbtree.Shape.{elements, around, elements-zip}
use nanosig.Rbtree.Insert.{elements-paint}

elements-rotated_left :
    (n : RbTree) (pc : Color) (p : ℕ) (sc : Color) (sl : RbTree) (s : ℕ) (sr : RbTree)
    → elements (rotated_left n pc p sc sl s sr) ≡ elements n ++ p ∷ elements (node sc sl s sr)
unfolding rotated_left
elements-rotated_left n pc p sc nil s sr = refl
elements-rotated_left n pc p sc (node tc tl t tr) s sr = simp (append_assoc, elements-paint)

elements-rotated_right :
    (n : RbTree) (pc : Color) (p : ℕ) (sc : Color) (sl : RbTree) (s : ℕ) (sr : RbTree)
    → elements (rotated_right n pc p sc sl s sr) ≡ elements (node sc sl s sr) ++ p ∷ elements n
unfolding rotated_right
elements-rotated_right n pc p sc sl s nil = refl
elements-rotated_right n pc p sc sl s (node tc tl t tr) = simp (append_assoc, elements-paint)

elements-fix_left :
    (n : RbTree) (pc : Color) (p : ℕ) (s : RbTree)
    → elements (fix_left n pc p s).0 ≡ elements n ++ p ∷ elements s
unfolding fix_left
elements-fix_left n pc p nil = refl
elements-fix_left n pc p (node sc sl s sr) =
    if_either
      (λ (q : RbTree × Bool). elements q.0 ≡ elements n ++ p ∷ (elements sl ++ s ∷ elements sr))
      (is_black sr) _ _
      (λ _.
        if_either
          (λ (q : RbTree × Bool). elements q.0 ≡ elements n ++ p ∷ (elements sl ++ s ∷ elements sr))
          (is_black sl) (node black n p (node red sl s sr), black_color pc)
          (rotated_left n pc p sc sl s sr, false) (λ _. refl)
          (λ _. elements-rotated_left n pc p sc sl s sr))
      (λ _. simp (append_assoc, elements-paint))

elements-fix_right :
    (n : RbTree) (pc : Color) (p : ℕ) (s : RbTree)
    → elements (fix_right n pc p s).0 ≡ elements s ++ p ∷ elements n
unfolding fix_right
elements-fix_right n pc p nil = refl
elements-fix_right n pc p (node sc sl s sr) =
    if_either
      (λ (q : RbTree × Bool). elements q.0 ≡ (elements sl ++ s ∷ elements sr) ++ p ∷ elements n)
      (is_black sl) _ _
      (λ _.
        if_either
          (λ (q : RbTree × Bool). elements q.0 ≡ (elements sl ++ s ∷ elements sr) ++ p ∷ elements n)
          (is_black sr) (node black (node red sl s sr) p n, black_color pc)
          (rotated_right n pc p sc sl s sr, false) (λ _. refl)
          (λ _. elements-rotated_right n pc p sc sl s sr))
      (λ _. simp (append_assoc, elements-paint))

elements-round_left :
    (n : RbTree) (pc : Color) (p : ℕ) (s : RbTree)
    → elements (round_left n pc p s).0 ≡ elements n ++ p ∷ elements s
unfolding round_left
elements-round_left n pc p nil = elements-fix_left n pc p nil
elements-round_left n pc p (node black sl s sr) = elements-fix_left n pc p (node black sl s sr)
elements-round_left n pc p (node red sl s sr) =
    ap (λ xs. xs ++ s ∷ elements sr) (elements-fix_left n red p (paint black sl))
    ∙ simp (append_assoc, elements-paint)

elements-round_right :
    (n : RbTree) (pc : Color) (p : ℕ) (s : RbTree)
    → elements (round_right n pc p s).0 ≡ elements s ++ p ∷ elements n
unfolding round_right
elements-round_right n pc p nil = elements-fix_right n pc p nil
elements-round_right n pc p (node black sl s sr) = elements-fix_right n pc p (node black sl s sr)
elements-round_right n pc p (node red sl s sr) =
    ap (λ xs. elements sl ++ s ∷ xs) (elements-fix_right n red p (paint black sr))
    ∙ simp (append_assoc, elements-paint)

-- The rebalancing keeps the nodes in order.
pub elements-erase_fix :
    (n : RbTree) (p : Parents) → elements (erase_fix n p) ≡ around (elements n) p
unfolding erase_fix
elements-erase_fix n [] = sym (append-nil (elements n))
elements-erase_fix n (left_of pc a s ∷ p) =
    let t : RbTree = (round_left n pc a s).0 in
    if_either (λ u. elements u ≡ around (elements n) (left_of pc a s ∷ p)) (round_left n pc a s).1 _
      _
      (λ _.
        elements-erase_fix t p
        ∙ ap (λ xs. around xs p) (elements-round_left n pc a s)
        ∙ simp (append_assoc))
      (λ _.
        elements-zip t p
        ∙ ap (λ xs. around xs p) (elements-round_left n pc a s)
        ∙ simp (append_assoc))
elements-erase_fix n (right_of pc s a ∷ p) =
    let t : RbTree = (round_right n pc a s).0 in
    if_either (λ u. elements u ≡ around (elements n) (right_of pc s a ∷ p)) (round_right n pc a s).1
      _ _
      (λ _.
        elements-erase_fix t p
        ∙ ap (λ xs. around xs p) (elements-round_right n pc a s)
        ∙ simp (append_assoc))
      (λ _.
        elements-zip t p
        ∙ ap (λ xs. around xs p) (elements-round_right n pc a s)
        ∙ simp (append_assoc))
