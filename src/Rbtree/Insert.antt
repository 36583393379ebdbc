-- ===== src/Rbtree/Insert.antt =====
-- src/ds/ns_rbtree.c: `__ns_rb_insert` keeps the order and makes the tree red-black again.
use nanosig.Base.{
  inl, inr, ℕ, suc, ◌≡◌, refl, sym, ◌∙◌, ap, subst, true, false, Bool-cases, [], ◌∷◌, ◌++◌,
  append_assoc, append-nil, arith, if◌then◌else◌, if_true, if_false, if_either,
}
use nanosig.Rbtree.{
  Color, red, black, RbTree, nil, node, left_of, right_of, Parents, is_black, paint, insert_fix,
}
use nanosig.Rbtree.Shape.{
  elements, around, elements-zip, black_height, IsRedBlack, Fits, IsWhole, zip-IsWhole,
}

pub false-true : false ≡ true → ⊥
false-true e = absurd (omega (arith, ap {B = ℕ} (λ b. if b then 1 else 0) e))

pub elements-paint : (c : Color) (t : RbTree) → elements (paint c t) ≡ elements t
elements-paint c nil = refl
elements-paint c (node d l a r) = refl

-- The rebalancing keeps the nodes in order.
pub elements-insert_fix :
    (l : RbTree) (x : ℕ) (r : RbTree) (p : Parents)
    → elements (insert_fix l x r p) ≡ around (elements l ++ x ∷ elements r) p
unfolding insert_fix
elements-insert_fix l x r [] = sym (append-nil (elements l ++ x ∷ elements r))
elements-insert_fix l x r (left_of black p s ∷ path) =
    elements-zip (node red l x r) (left_of black p s ∷ path)
elements-insert_fix l x r (right_of black s p ∷ path) =
    elements-zip (node red l x r) (right_of black s p ∷ path)
elements-insert_fix l x r (left_of red p s ∷ []) =
    elements-zip (node red l x r) (left_of red p s ∷ [])
elements-insert_fix l x r (right_of red s p ∷ []) =
    elements-zip (node red l x r) (right_of red s p ∷ [])
elements-insert_fix l x r (left_of red p s ∷ left_of gc g u ∷ path) =
    elim (Bool-cases (is_black u)) [
      | inl e ↦
          ap elements (if_true _ _ e)
          ∙ elements-zip (node gc (node red l x r) p (node red (paint black s) g u)) path
          ∙ simp (append_assoc, elements-paint)
      | inr e ↦
          ap elements (if_false _ _ e)
          ∙ elements-insert_fix (node black (node red l x r) p s) g (paint black u) path
          ∙ simp (append_assoc, elements-paint)
    ]
elements-insert_fix l x r (right_of red s p ∷ left_of gc g u ∷ path) =
    elim (Bool-cases (is_black u)) [
      | inl e ↦
          ap elements (if_true _ _ e)
          ∙ elements-zip (node gc (node red s p (paint black l)) x (node red (paint black r) g u))
              path
          ∙ simp (append_assoc, elements-paint)
      | inr e ↦
          ap elements (if_false _ _ e)
          ∙ elements-insert_fix (node black s p (node red l x r)) g (paint black u) path
          ∙ simp (append_assoc, elements-paint)
    ]
elements-insert_fix l x r (right_of red s p ∷ right_of gc u g ∷ path) =
    elim (Bool-cases (is_black u)) [
      | inl e ↦
          ap elements (if_true _ _ e)
          ∙ elements-zip (node gc (node red u g (paint black s)) p (node red l x r)) path
          ∙ simp (append_assoc, elements-paint)
      | inr e ↦
          ap elements (if_false _ _ e)
          ∙ elements-insert_fix (paint black u) g (node black s p (node red l x r)) path
          ∙ simp (append_assoc, elements-paint)
    ]
elements-insert_fix l x r (left_of red p s ∷ right_of gc u g ∷ path) =
    elim (Bool-cases (is_black u)) [
      | inl e ↦
          ap elements (if_true _ _ e)
          ∙ elements-zip (node gc (node red u g (paint black l)) x (node red (paint black r) p s))
              path
          ∙ simp (append_assoc, elements-paint)
      | inr e ↦
          ap elements (if_false _ _ e)
          ∙ elements-insert_fix (paint black u) g (node black (node red l x r) p s) path
          ∙ simp (append_assoc, elements-paint)
    ]

pub paint_same : (t : RbTree) → is_black t ≡ true → paint black t ≡ t
paint_same nil b = refl
paint_same (node red l a r) b = absurd (false-true b)
paint_same (node black l a r) b = refl

pub IsRedBlack-paint : (t : RbTree) → IsRedBlack t → IsRedBlack (paint black t)
IsRedBlack-paint nil v = tt
IsRedBlack-paint (node c l a r) (vl, vr, h, _) = (vl, vr, h, tt)

pub is_black-paint : (t : RbTree) → is_black (paint black t) ≡ true
is_black-paint nil = refl
is_black-paint (node c l a r) = refl

pub black_height-paint :
    (t : RbTree) → is_black t ≡ false → black_height (paint black t) ≡ suc (black_height t)
black_height-paint nil b = absurd (false-true (sym b))
black_height-paint (node red l a r) b = refl
black_height-paint (node black l a r) b = absurd (false-true (sym b))

-- A node that is inserted as a red one with black children: the whole tree is red-black then.
pub insert_fix-IsWhole :
    (l : RbTree) (x : ℕ) (r : RbTree) (p : Parents)
    → IsRedBlack (node red l x r)
    → Fits p (black_height l) true
    → IsWhole (insert_fix l x r p)
unfolding insert_fix
insert_fix-IsWhole l x r [] (vl, vr, h, _) f = ((vl, vr, h, tt), refl)
insert_fix-IsWhole l x r (left_of black p s ∷ path) v f =
    zip-IsWhole (node red l x r) (left_of black p s ∷ path) v f
insert_fix-IsWhole l x r (right_of black s p ∷ path) v f =
    zip-IsWhole (node red l x r) (right_of black s p ∷ path) v f
insert_fix-IsWhole l x r (left_of red p s ∷ []) v f = absurd (false-true f.3)
insert_fix-IsWhole l x r (right_of red s p ∷ []) v f = absurd (false-true f.3)
insert_fix-IsWhole l x r (left_of red p s ∷ left_of red g u ∷ path) v f =
    absurd (false-true f.3.2.0)
insert_fix-IsWhole l x r (right_of red s p ∷ left_of red g u ∷ path) v f =
    absurd (false-true f.3.2.0)
insert_fix-IsWhole l x r (right_of red s p ∷ right_of red u g ∷ path) v f =
    absurd (false-true f.3.2.0)
insert_fix-IsWhole l x r (left_of red p s ∷ right_of red u g ∷ path) v f =
    absurd (false-true f.3.2.0)
insert_fix-IsWhole l x r (left_of red p s ∷ left_of black g u ∷ path) v
      (vs, hs, (_, bs), (vu, hu, _, f)) =
    if_either IsWhole (is_black u) _ _
      (λ bu. rw (paint_same s bs) (
        zip-IsWhole (node black (node red l x r) p (node red s g u)) path
          (v, (vs, vu, hs ∙ sym hu, (bs, bu)), sym hs, tt) f))
      (λ ru.
        insert_fix-IsWhole (node black (node red l x r) p s) g (paint black u) path
          (
            (v, vs, sym hs, tt),
            IsRedBlack-paint u vu,
            ap suc (sym hu) ∙ sym (black_height-paint u ru),
            (refl, is_black-paint u),
          )
          f)
insert_fix-IsWhole l x r (right_of red s p ∷ left_of black g u ∷ path) (vl, vr, h, (bl, br))
      (vs, hs, (_, bs), (vu, hu, _, f)) =
    if_either IsWhole (is_black u) _ _
      (λ bu.
        rw (paint_same l bl, paint_same r br)
          (zip-IsWhole (node black (node red s p l) x (node red r g u)) path
            ((vs, vl, hs, (bs, bl)), (vr, vu, sym h ∙ sym hu, (br, bu)), hs ∙ h, tt)
            (subst (λ n. Fits path (suc n) true) (sym hs) f)))
      (λ ru.
        insert_fix-IsWhole (node black s p (node red l x r)) g (paint black u) path
          (
            (vs, (vl, vr, h, (bl, br)), hs, tt),
            IsRedBlack-paint u vu,
            ap suc (hs ∙ sym hu) ∙ sym (black_height-paint u ru),
            (refl, is_black-paint u),
          )
          (subst (λ n. Fits path (suc n) true) (sym hs) f))
insert_fix-IsWhole l x r (right_of red s p ∷ right_of black u g ∷ path) v
      (vs, hs, (_, bs), (vu, hu, _, f)) =
    if_either IsWhole (is_black u) _ _
      (λ bu. rw (paint_same s bs) (
        zip-IsWhole (node black (node red u g s) p (node red l x r)) path
          ((vu, vs, hu ∙ sym hs, (bu, bs)), v, hu, tt)
          (subst (λ n. Fits path (suc n) true) (sym hu) f)))
      (λ ru.
        insert_fix-IsWhole (paint black u) g (node black s p (node red l x r)) path
          (
            IsRedBlack-paint u vu,
            (vs, v, hs, tt),
            black_height-paint u ru ∙ ap suc (hu ∙ sym hs),
            (is_black-paint u, refl),
          )
          (subst (λ n. Fits path n true) (sym (black_height-paint u ru ∙ ap suc hu)) f))
insert_fix-IsWhole l x r (left_of red p s ∷ right_of black u g ∷ path) (vl, vr, h, (bl, br))
      (vs, hs, (_, bs), (vu, hu, _, f)) =
    if_either IsWhole (is_black u) _ _
      (λ bu.
        rw (paint_same l bl, paint_same r br)
          (zip-IsWhole (node black (node red u g l) x (node red r p s)) path
            ((vu, vl, hu, (bu, bl)), (vr, vs, sym h ∙ sym hs, (br, bs)), hu ∙ h, tt)
            (subst (λ n. Fits path (suc n) true) (sym hu) f)))
      (λ ru.
        insert_fix-IsWhole (paint black u) g (node black (node red l x r) p s) path
          (
            IsRedBlack-paint u vu,
            ((vl, vr, h, (bl, br)), vs, sym hs, tt),
            black_height-paint u ru ∙ ap suc hu,
            (is_black-paint u, refl),
          )
          (subst (λ n. Fits path n true) (sym (black_height-paint u ru ∙ ap suc hu)) f))
