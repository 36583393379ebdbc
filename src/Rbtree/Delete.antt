-- ===== src/Rbtree/Delete.antt =====
-- src/ds/ns_rbtree.c: `ns_rbtree_del` takes a node out of the order.
use nanosig.Base.{
  ℕ, suc, ◌≡◌, refl, sym, ◌∙◌, ap, subst, true, false, [], ◌∷◌, ◌++◌, append_assoc, append-nil,
  if_either,
}
use nanosig.Rbtree.{
  Color, red, black, RbTree, nil, node, left_of, right_of, Parents, is_black, black_color,
  successor, replaced, moved_up, del_at,
}
use nanosig.Rbtree.Shape.{
  elements, elements-zip, before, behind, around, black_height, IsRedBlack, height_above, Fits,
  IsUnder, IsWhole, zip-IsWhole, Fits-left, Fits-right,
}
use nanosig.Rbtree.Insert.{false-true}
use nanosig.Rbtree.Erase.{elements-erase_fix}
use nanosig.Rbtree.Rebalance.{zero_suc, erase_fix-IsWhole, Fits-black}

before-append : (p q : Parents) → before (p ++ q) ≡ before q ++ before p
before-append [] q = sym (append-nil (before q))
before-append (left_of c a r ∷ p) q = before-append p q
before-append (right_of c l a ∷ p) q =
    ap (λ xs. xs ++ elements l ++ a ∷ []) (before-append p q) ∙ simp (append_assoc)

behind-append : (p q : Parents) → behind (p ++ q) ≡ behind p ++ behind q
behind-append [] q = refl
behind-append (left_of c a r ∷ p) q =
    ap (λ xs. a ∷ elements r ++ xs) (behind-append p q) ∙ simp (append_assoc)
behind-append (right_of c l a ∷ p) q = behind-append p q

-- The successor is the first node of the subtree, and there is none before it.
successor-before :
    (c : Color) (l : RbTree) (a : ℕ) (r : RbTree) (p : Parents)
    → before (successor c l a r p).3 ≡ before p
unfolding successor
successor-before c nil a r p = refl
successor-before c (node d ll b lr) a r p = successor-before d ll b lr (left_of c a r ∷ p)

successor-elements :
    (c : Color) (l : RbTree) (a : ℕ) (r : RbTree) (p : Parents)
    → (successor c l a r p).1 ∷ elements (successor c l a r p).2 ++ behind (successor c l a r p).3
      ≡ elements l ++ a ∷ elements r ++ behind p
unfolding successor
successor-elements c nil a r p = refl
successor-elements c (node d ll b lr) a r p =
    successor-elements d ll b lr (left_of c a r ∷ p) ∙ (simp (append_assoc))

elements-moved_up :
    (c : Color) (t : RbTree) (p : Parents) → elements (moved_up c t p) ≡ around (elements t) p
unfolding moved_up
elements-moved_up c nil p =
    if_either (λ u. elements u ≡ around [] p) (black_color c) _ _ (λ _. elements-erase_fix nil p)
      (λ _. elements-zip nil p)
elements-moved_up c (node d l a r) p = elements-zip (node black l a r) p

elements-replaced :
    (c : Color) (t : RbTree) (p : Parents) → elements (replaced c t p) ≡ around (elements t) p
unfolding replaced
elements-replaced c nil p =
    if_either (λ u. elements u ≡ around [] p) (black_color c) _ _ (λ _. elements-erase_fix nil p)
      (λ _. elements-zip nil p)
elements-replaced c (node d l a r) p = elements-zip (node c l a r) p

-- All other nodes stay, in order.
pub elements-del_at :
    (c : Color) (l r : RbTree) (p : Parents)
    → elements (del_at c l r p) ≡ around (elements l ++ elements r) p
unfolding del_at
elements-del_at c nil r p = elements-replaced c r p
elements-del_at c (node lc ll la lr) nil p =
    elements-replaced c (node lc ll la lr) p
    ∙ ap (λ xs. around xs p) (sym (append-nil (elements (node lc ll la lr))))
elements-del_at c (node lc ll la lr) (node rc rl ra rr) p =
    elements-moved_up s.0 s.2 (s.3 ++ outer)
    ∙ rw (before-append s.3 outer, behind-append s.3 outer, successor-before rc rl ra rr [])
        ((simp (append_assoc))
          ∙ ap (λ xs. before p ++ (elements (node lc ll la lr) ++ (xs ++ behind p)))
              (successor-elements rc rl ra rr [])
          ∙ (simp (append_assoc, append-nil)))
  where
    s : Color × ℕ × RbTree × Parents
    s = successor rc rl ra rr []

    outer : Parents
    outer = right_of c (node lc ll la lr) s.1 ∷ p

-- The invariants at the successor's place.
successor-Fits :
    (c : Color) (l : RbTree) (a : ℕ) (r : RbTree) (p outer : Parents)
    → IsRedBlack (node c l a r)
    → Fits (p ++ outer) (black_height (node c l a r)) (is_black (node c l a r))
    → (0 ≡ black_height (successor c l a r p).2)
      × IsRedBlack (successor c l a r p).2
      × IsUnder (successor c l a r p).0 true (successor c l a r p).2
      × Fits
          ((successor c l a r p).3 ++ outer)
          (height_above (successor c l a r p).0 0)
          (black_color (successor c l a r p).0)
unfolding successor
successor-Fits red nil a r p outer (_, vr, h, (_, br)) f = (h, vr, (refl, br), f)
successor-Fits black nil a r p outer (_, vr, h, _) f = (h, vr, tt, f)
successor-Fits c (node d ll b lr) a r p outer v f =
    successor-Fits d ll b lr (left_of c a r ∷ p) outer v.0
      (Fits-left c (node d ll b lr) a r (p ++ outer) v f)

-- A removed node with no child or with one, which is red then.
replaced-IsWhole :
    (c : Color) (t : RbTree) (p : Parents)
    → 0 ≡ black_height t
    → IsRedBlack t
    → IsUnder c true t
    → Fits p (height_above c 0) (black_color c)
    → IsWhole (replaced c t p)
unfolding replaced
replaced-IsWhole red nil p h v u f = zip-IsWhole nil p tt (Fits-black p 0 f)
replaced-IsWhole black nil p h v u f = erase_fix-IsWhole nil p tt refl f
replaced-IsWhole c (node black l a r) p h v u f = absurd (zero_suc _ h)
replaced-IsWhole red (node red l a r) p h v u f = absurd (false-true u.1)
replaced-IsWhole black (node red l a r) p h (vl, vr, e, _) u f =
    zip-IsWhole (node black l a r) p (vl, vr, e, tt) (subst (λ n. Fits p (suc n) true) h f)

moved_up-IsWhole :
    (c : Color) (t : RbTree) (p : Parents)
    → 0 ≡ black_height t
    → IsRedBlack t
    → IsUnder c true t
    → Fits p (height_above c 0) (black_color c)
    → IsWhole (moved_up c t p)
unfolding moved_up
moved_up-IsWhole red nil p h v u f = zip-IsWhole nil p tt (Fits-black p 0 f)
moved_up-IsWhole black nil p h v u f = erase_fix-IsWhole nil p tt refl f
moved_up-IsWhole c (node black l a r) p h v u f = absurd (zero_suc _ h)
moved_up-IsWhole red (node red l a r) p h v u f = absurd (false-true u.1)
moved_up-IsWhole black (node red l a r) p h (vl, vr, e, _) u f =
    zip-IsWhole (node black l a r) p (vl, vr, e, tt) (subst (λ n. Fits p (suc n) true) h f)

-- The tree without a node is red-black, with a black root.
pub del_at-IsWhole :
    (c : Color) (l : RbTree) (x : ℕ) (r : RbTree) (p : Parents)
    → IsRedBlack (node c l x r)
    → Fits p (black_height (node c l x r)) (is_black (node c l x r))
    → IsWhole (del_at c l r p)
unfolding del_at
del_at-IsWhole red nil x r p (_, vr, h, u) f = replaced-IsWhole red r p h vr (refl, u.1) f
del_at-IsWhole black nil x r p (_, vr, h, u) f = replaced-IsWhole black r p h vr tt f
del_at-IsWhole red (node lc ll la lr) x nil p (vl, _, h, u) f =
    replaced-IsWhole red (node lc ll la lr) p (sym h) vl (refl, u.0)
      (subst (λ n. Fits p n false) h f)
del_at-IsWhole black (node lc ll la lr) x nil p (vl, _, h, u) f =
    replaced-IsWhole black (node lc ll la lr) p (sym h) vl tt (subst (λ n. Fits p (suc n) true) h f)
del_at-IsWhole c (node lc ll la lr) x (node rc rl ra rr) p v f =
    let (h, vt, u, g) =
      successor-Fits rc rl ra rr [] (right_of c (node lc ll la lr) (successor rc rl ra rr []).1 ∷ p)
        v.1 (Fits-right c (node lc ll la lr) x (node rc rl ra rr) p v f) in
    moved_up-IsWhole (successor rc rl ra rr []).0 (successor rc rl ra rr []).2 _ h vt u g
