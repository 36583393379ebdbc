-- ===== src/Rbtree/Rebalance.antt =====
-- src/ds/ns_rbtree.c: `____ns_rb_erase_color` makes the tree red-black again.
use nanosig.Base.{
  inl, inr, ℕ, suc, ◌≡◌, refl, sym, ◌∙◌, ap, subst, Bool, true, false, Bool-cases, [], ◌∷◌, arith,
  if◌then◌else◌, if_either,
}
use nanosig.Rbtree.{
  Color, red, black, RbTree, nil, node, left_of, right_of, Parents, zip, is_black, black_color,
  paint, rotated_left, rotated_right, fix_left, fix_right, round_left, round_right, erase_fix,
}
use nanosig.Rbtree.Shape.{
  black_height, IsRedBlack, height_above, Fits, IsUnder, IsWhole, zip-IsWhole,
}
use nanosig.Rbtree.Insert.{
  false-true, paint_same, IsRedBlack-paint, is_black-paint, black_height-paint,
}

-- A round's result in the place of a node of this colour, of which one subtree had this black height
-- and the other one more.
abbrev pub IsRounded : Color → ℕ → RbTree × Bool → Type 0
IsRounded red h (t, false) = IsRedBlack t × (black_height t ≡ suc h)
IsRounded red h (t, true) = ⊥
IsRounded black h (t, false) = IsRedBlack t × (black_height t ≡ suc (suc h)) × (is_black t ≡ true)
IsRounded black h (t, true) = IsRedBlack t × (black_height t ≡ suc h) × (is_black t ≡ true)

-- A node of the old colour with two black children of the full height.
IsRounded-node :
    (c : Color) (l : RbTree) (a : ℕ) (r : RbTree) (h : ℕ)
    → IsRedBlack l
    → IsRedBlack r
    → black_height l ≡ suc h
    → black_height r ≡ suc h
    → is_black l ≡ true
    → is_black r ≡ true
    → IsRounded c h (node c l a r, false)
IsRounded-node red l a r h vl vr hl hr bl br = ((vl, vr, hl ∙ sym hr, (bl, br)), hl)
IsRounded-node black l a r h vl vr hl hr bl br = ((vl, vr, hl ∙ sym hr, tt), ap suc hl, refl)

-- A black node whose subtrees both miss one.
IsRounded-short :
    (c : Color) (l : RbTree) (a : ℕ) (r : RbTree) (h : ℕ)
    → IsRedBlack l
    → IsRedBlack r
    → black_height l ≡ h
    → black_height r ≡ h
    → IsRounded c h (node black l a r, black_color c)
IsRounded-short red l a r h vl vr hl hr = ((vl, vr, hl ∙ sym hr, tt), ap suc hl)
IsRounded-short black l a r h vl vr hl hr = ((vl, vr, hl ∙ sym hr, tt), ap suc hl, refl)

IsRounded-red :
    (h : ℕ) (q : RbTree × Bool) → IsRounded red h q → IsRedBlack q.0 × (black_height q.0 ≡ suc h)
IsRounded-red h (t, false) v = v
IsRounded-red h (t, true) v = absurd v

suc_eq : (a b : ℕ) → suc a ≡ suc b → a ≡ b
suc_eq a b e = omega (arith, e)

pub zero_suc : (b : ℕ) → 0 ≡ suc b → ⊥
zero_suc b e = absurd (omega (arith, e))

rotated_left-IsRounded :
    (n : RbTree) (pc : Color) (p : ℕ) (sl : RbTree) (s : ℕ) (sr : RbTree)
    → IsRedBlack n
    → IsRedBlack sl
    → IsRedBlack sr
    → black_height sl ≡ black_height n
    → black_height sr ≡ black_height n
    → is_black sl ≡ false
    → IsRounded pc (black_height n) (rotated_left n pc p black sl s sr, false)
unfolding rotated_left
rotated_left-IsRounded n pc p nil s sr vn vl vr hl hr e = absurd (false-true (sym e))
rotated_left-IsRounded n pc p (node black tl t tr) s sr vn vl vr hl hr e =
    absurd (false-true (sym e))
rotated_left-IsRounded n pc p (node red tl t tr) s sr vn (vtl, vtr, ht, (btl, btr)) vr hl hr e =
    rw (paint_same tr btr) (
      IsRounded-node pc (node black n p tl) t (node black tr s sr) (black_height n)
        (vn, vtl, sym hl, tt) (vtr, vr, sym ht ∙ hl ∙ sym hr, tt) refl (ap suc (sym ht ∙ hl)) refl
        refl)

rotated_right-IsRounded :
    (n : RbTree) (pc : Color) (p : ℕ) (sl : RbTree) (s : ℕ) (sr : RbTree)
    → IsRedBlack n
    → IsRedBlack sl
    → IsRedBlack sr
    → black_height sl ≡ black_height n
    → black_height sr ≡ black_height n
    → is_black sr ≡ false
    → IsRounded pc (black_height n) (rotated_right n pc p black sl s sr, false)
unfolding rotated_right
rotated_right-IsRounded n pc p sl s nil vn vl vr hl hr e = absurd (false-true (sym e))
rotated_right-IsRounded n pc p sl s (node black tl t tr) vn vl vr hl hr e =
    absurd (false-true (sym e))
rotated_right-IsRounded n pc p sl s (node red tl t tr) vn vl (vtl, vtr, ht, (btl, btr)) hl hr e =
    rw (paint_same tl btl) (
      IsRounded-node pc (node black sl s tl) t (node black tr p n) (black_height n)
        (vl, vtl, hl ∙ sym hr, tt) (vtr, vn, sym ht ∙ hr, tt) (ap suc hl) (ap suc (sym ht ∙ hr))
        refl refl)

fix_left-IsRounded :
    (n : RbTree) (pc : Color) (p : ℕ) (s : RbTree)
    → IsRedBlack n
    → is_black n ≡ true
    → IsRedBlack s
    → is_black s ≡ true
    → black_height s ≡ suc (black_height n)
    → IsRounded pc (black_height n) (fix_left n pc p s)
unfolding fix_left
fix_left-IsRounded n pc p nil vn bn vs bs h = absurd (zero_suc _ h)
fix_left-IsRounded n pc p (node red sl s sr) vn bn vs bs h = absurd (false-true bs)
fix_left-IsRounded n pc p (node black sl s sr) vn bn (vl, vr, hs, _) bs h =
    let hl : black_height sl ≡ black_height n = suc_eq _ _ h in
    if_either (λ (q : RbTree × Bool). IsRounded pc (black_height n) q) (is_black sr)
      (if is_black sl
        then (node black n p (node red sl s sr), black_color pc)
        else (rotated_left n pc p black sl s sr, false))
      (node pc (node black n p sl) s (paint black sr), false)
      (λ br.
        if_either (λ (q : RbTree × Bool). IsRounded pc (black_height n) q) (is_black sl)
          (node black n p (node red sl s sr), black_color pc)
          (rotated_left n pc p black sl s sr, false)
          (λ bl.
            IsRounded-short pc n p (node red sl s sr) (black_height n) vn (vl, vr, hs, (bl, br))
              refl hl)
          (λ rl. rotated_left-IsRounded n pc p sl s sr vn vl vr hl (sym hs ∙ hl) rl))
      (λ rr.
        IsRounded-node pc (node black n p sl) s (paint black sr) (black_height n)
          (vn, vl, sym hl, tt) (IsRedBlack-paint sr vr) refl
          (black_height-paint sr rr ∙ ap suc (sym hs ∙ hl)) refl (is_black-paint sr))

fix_right-IsRounded :
    (n : RbTree) (pc : Color) (p : ℕ) (s : RbTree)
    → IsRedBlack n
    → is_black n ≡ true
    → IsRedBlack s
    → is_black s ≡ true
    → black_height s ≡ suc (black_height n)
    → IsRounded pc (black_height n) (fix_right n pc p s)
unfolding fix_right
fix_right-IsRounded n pc p nil vn bn vs bs h = absurd (zero_suc _ h)
fix_right-IsRounded n pc p (node red sl s sr) vn bn vs bs h = absurd (false-true bs)
fix_right-IsRounded n pc p (node black sl s sr) vn bn (vl, vr, hs, _) bs h =
    let hl : black_height sl ≡ black_height n = suc_eq _ _ h in
    if_either (λ (q : RbTree × Bool). IsRounded pc (black_height n) q) (is_black sl)
      (if is_black sr
        then (node black (node red sl s sr) p n, black_color pc)
        else (rotated_right n pc p black sl s sr, false))
      (node pc (paint black sl) s (node black sr p n), false)
      (λ bl.
        if_either (λ (q : RbTree × Bool). IsRounded pc (black_height n) q) (is_black sr)
          (node black (node red sl s sr) p n, black_color pc)
          (rotated_right n pc p black sl s sr, false)
          (λ br.
            IsRounded-short pc (node red sl s sr) p n (black_height n) (vl, vr, hs, (bl, br)) vn hl
              refl)
          (λ rr. rotated_right-IsRounded n pc p sl s sr vn vl vr hl (sym hs ∙ hl) rr))
      (λ rl.
        IsRounded-node pc (paint black sl) s (node black sr p n) (black_height n)
          (IsRedBlack-paint sl vl) (vr, vn, sym hs ∙ hl, tt) (black_height-paint sl rl ∙ ap suc hl)
          (ap suc (sym hs ∙ hl)) (is_black-paint sl) refl)

-- A round of the loop, with a sibling of either colour.
round_left-IsRounded :
    (n : RbTree) (pc : Color) (p : ℕ) (s : RbTree)
    → IsRedBlack n
    → is_black n ≡ true
    → IsRedBlack s
    → IsUnder pc true s
    → black_height s ≡ suc (black_height n)
    → IsRounded pc (black_height n) (round_left n pc p s)
unfolding round_left
round_left-IsRounded n pc p nil vn bn vs us h = absurd (zero_suc _ h)
round_left-IsRounded n pc p (node black sl s sr) vn bn vs us h =
    fix_left-IsRounded n pc p (node black sl s sr) vn bn vs refl h
round_left-IsRounded n red p (node red sl s sr) vn bn vs us h = absurd (false-true us.1)
round_left-IsRounded n black p (node red sl s sr) vn bn (vl, vr, hs, (bl, br)) us h =
    let (v, ht) =
      IsRounded-red (black_height n) (fix_left n red p sl)
        (fix_left-IsRounded n red p sl vn bn vl bl h) in
    rw (paint_same sl bl) ((v, vr, ht ∙ sym h ∙ hs, tt), ap suc ht, refl)

round_right-IsRounded :
    (n : RbTree) (pc : Color) (p : ℕ) (s : RbTree)
    → IsRedBlack n
    → is_black n ≡ true
    → IsRedBlack s
    → IsUnder pc true s
    → black_height s ≡ suc (black_height n)
    → IsRounded pc (black_height n) (round_right n pc p s)
unfolding round_right
round_right-IsRounded n pc p nil vn bn vs us h = absurd (zero_suc _ h)
round_right-IsRounded n pc p (node black sl s sr) vn bn vs us h =
    fix_right-IsRounded n pc p (node black sl s sr) vn bn vs refl h
round_right-IsRounded n red p (node red sl s sr) vn bn vs us h = absurd (false-true us.1)
round_right-IsRounded n black p (node red sl s sr) vn bn (vl, vr, hs, (bl, br)) us h =
    let (v, ht) =
      IsRounded-red (black_height n) (fix_right n red p sr)
        (fix_right-IsRounded n red p sr vn bn vr br (sym hs ∙ h)) in
    rw (paint_same sr br) ((vl, v, h ∙ sym ht, tt), ap suc h, refl)

pub Fits-black : (p : Parents) (h : ℕ) → Fits p h false → Fits p h true
Fits-black [] h f = absurd (false-true f)
Fits-black (left_of red a s ∷ p) h f = absurd (false-true f.2.0)
Fits-black (left_of black a s ∷ p) h f = f
Fits-black (right_of red s a ∷ p) h f = absurd (false-true f.2.0)
Fits-black (right_of black s a ∷ p) h f = f

-- The loop after a round, with what the parents' rounds do.
rounds-IsWhole :
    (c : Color) (h : ℕ) (q : RbTree × Bool) (p : Parents)
    → IsRounded c h q
    → Fits p (height_above c (suc h)) (black_color c)
    → (IsRedBlack q.0
        → is_black q.0 ≡ true
        → Fits p (suc (black_height q.0)) true
        → IsWhole (erase_fix q.0 p))
    → IsWhole (if q.1 then erase_fix q.0 p else zip q.0 p)
rounds-IsWhole red h (t, true) p v f rest = absurd v
rounds-IsWhole black h (t, true) p (v, e, b) f rest =
    rest v b (subst (λ n. Fits p (suc n) true) (sym e) f)
rounds-IsWhole black h (t, false) p (v, e, b) f rest =
    zip-IsWhole t p v
      (subst (λ n. Fits p n (is_black t)) (sym e) (subst (Fits p (suc (suc h))) (sym b) f))
rounds-IsWhole red h (t, false) p (v, e) f rest = zip-IsWhole t p v (
    subst (λ n. Fits p n (is_black t)) (sym e)
      (elim (Bool-cases (is_black t)) [
        | inl b ↦ subst (Fits p (suc h)) (sym b) (Fits-black p (suc h) f)
        | inr b ↦ subst (Fits p (suc h)) (sym b) f
      ]))

-- From a black subtree on in which a black node is missing.
pub erase_fix-IsWhole :
    (n : RbTree) (p : Parents)
    → IsRedBlack n
    → is_black n ≡ true
    → Fits p (suc (black_height n)) true
    → IsWhole (erase_fix n p)
unfolding erase_fix
erase_fix-IsWhole n [] v b f = (v, b)
erase_fix-IsWhole n (left_of red a s ∷ p) v b (vs, h, us, f) =
    rounds-IsWhole red (black_height n) (round_left n red a s) p
      (round_left-IsRounded n red a s v b vs us h) f
      (λ w c g. erase_fix-IsWhole (round_left n red a s).0 p w c g)
erase_fix-IsWhole n (left_of black a s ∷ p) v b (vs, h, us, f) =
    rounds-IsWhole black (black_height n) (round_left n black a s) p
      (round_left-IsRounded n black a s v b vs us h) f
      (λ w c g. erase_fix-IsWhole (round_left n black a s).0 p w c g)
erase_fix-IsWhole n (right_of red s a ∷ p) v b (vs, h, us, f) =
    rounds-IsWhole red (black_height n) (round_right n red a s) p
      (round_right-IsRounded n red a s v b vs us h) f
      (λ w c g. erase_fix-IsWhole (round_right n red a s).0 p w c g)
erase_fix-IsWhole n (right_of black s a ∷ p) v b (vs, h, us, f) =
    rounds-IsWhole black (black_height n) (round_right n black a s) p
      (round_right-IsRounded n black a s v b vs us h) f
      (λ w c g. erase_fix-IsWhole (round_right n black a s).0 p w c g)
