-- ===== src/Rbtree/Shape.antt =====
-- src/ds/ns_rbtree.c: the nodes of a tree in order, and what makes it red-black.
use nanosig.Base.{
  ℕ, suc, ◌≡◌, sym, ◌∙◌, subst, Bool, true, false, List, [], ◌∷◌, ◌++◌, append_assoc, append-nil,
}
use nanosig.Rbtree.{Color, red, black, RbTree, nil, node, left_of, right_of, Parents, zip, is_black}

abbrev pub elements : RbTree → List ℕ
elements nil = []
elements (node c l a r) = elements l ++ a ∷ elements r

-- The nodes before a place and behind it.
abbrev pub before : Parents → List ℕ
before [] = []
before (left_of c a r ∷ p) = before p
before (right_of c l a ∷ p) = before p ++ elements l ++ a ∷ []

abbrev pub behind : Parents → List ℕ
behind [] = []
behind (left_of c a r ∷ p) = a ∷ elements r ++ behind p
behind (right_of c l a ∷ p) = behind p

abbrev pub around : List ℕ → Parents → List ℕ
around xs p = before p ++ xs ++ behind p

pub elements-zip : (t : RbTree) (p : Parents) → elements (zip t p) ≡ around (elements t) p
unfolding zip
elements-zip t [] = sym (append-nil (elements t))
elements-zip t (left_of c a r ∷ p) = elements-zip (node c t a r) p ∙ simp (append_assoc)
elements-zip t (right_of c l a ∷ p) = elements-zip (node c l a t) p ∙ simp (append_assoc)

-- As many black nodes on each way down, and no red node under a red one.
abbrev pub black_height : RbTree → ℕ
black_height nil = 0
black_height (node red l a r) = black_height l
black_height (node black l a r) = suc (black_height l)

abbrev pub IsLegal : Color → RbTree → RbTree → Type 0
IsLegal red l r = (is_black l ≡ true) × (is_black r ≡ true)
IsLegal black l r = Unit {0}

abbrev pub IsRedBlack : RbTree → Type 0
IsRedBlack nil = Unit {0}
IsRedBlack (node c l a r) =
    IsRedBlack l × IsRedBlack r × (black_height l ≡ black_height r) × IsLegal c l r

abbrev pub height_above : Color → ℕ → ℕ
height_above red h = h
height_above black h = suc h

abbrev pub IsUnder : Color → Bool → RbTree → Type 0
IsUnder red b s = (b ≡ true) × (is_black s ≡ true)
IsUnder black b s = Unit {0}

-- A place for a subtree with this black height; the Boolean says that its root is black.
abbrev pub Fits : Parents → ℕ → Bool → Type 0
Fits [] h b = b ≡ true
Fits (left_of c a s ∷ p) h b =
    IsRedBlack s
    × (black_height s ≡ h)
    × IsUnder c b s
    × Fits p (height_above c h) (elim c [ red ↦ false | black ↦ true ])
Fits (right_of c s a ∷ p) h b =
    IsRedBlack s
    × (black_height s ≡ h)
    × IsUnder c b s
    × Fits p (height_above c h) (elim c [ red ↦ false | black ↦ true ])

-- A whole tree: red-black, with a black root.
abbrev pub IsWhole : RbTree → Type 0
IsWhole t = IsRedBlack t × (is_black t ≡ true)

pub zip-IsWhole :
    (t : RbTree) (p : Parents)
    → IsRedBlack t
    → Fits p (black_height t) (is_black t)
    → IsWhole (zip t p)
unfolding zip
zip-IsWhole t [] v f = (v, f)
zip-IsWhole t (left_of red a s ∷ p) v (vs, h, (b, bs), f) =
    zip-IsWhole (node red t a s) p (v, vs, sym h, (b, bs)) f
zip-IsWhole t (left_of black a s ∷ p) v (vs, h, _, f) =
    zip-IsWhole (node black t a s) p (v, vs, sym h, tt) f
zip-IsWhole t (right_of red s a ∷ p) v (vs, h, (b, bs), f) =
    zip-IsWhole (node red s a t) p (vs, v, h, (bs, b)) (subst (λ n. Fits p n false) (sym h) f)
zip-IsWhole t (right_of black s a ∷ p) v (vs, h, _, f) =
    zip-IsWhole (node black s a t) p (vs, v, h, tt) (subst (λ n. Fits p (suc n) true) (sym h) f)

-- The places of a node's children fit when its own does.
pub Fits-left :
    (c : Color) (l : RbTree) (a : ℕ) (r : RbTree) (p : Parents)
    → IsRedBlack (node c l a r)
    → Fits p (black_height (node c l a r)) (is_black (node c l a r))
    → Fits (left_of c a r ∷ p) (black_height l) (is_black l)
Fits-left red l a r p (vl, vr, h, (bl, br)) f = (vr, sym h, (bl, br), f)
Fits-left black l a r p (vl, vr, h, _) f = (vr, sym h, tt, f)

pub Fits-right :
    (c : Color) (l : RbTree) (a : ℕ) (r : RbTree) (p : Parents)
    → IsRedBlack (node c l a r)
    → Fits p (black_height (node c l a r)) (is_black (node c l a r))
    → Fits (right_of c l a ∷ p) (black_height r) (is_black r)
Fits-right red l a r p (vl, vr, h, (bl, br)) f = (vl, h, (br, bl), subst (λ n. Fits p n false) h f)
Fits-right black l a r p (vl, vr, h, _) f = (vl, h, tt, subst (λ n. Fits p (suc n) true) h f)
