-- ===== src/Rbtree/Walk.antt =====
-- src/ds/ns_rbtree.c: a node's place in the order, and the nodes next to it.
use nanosig.Base.{
  IsFresh, IsFresh-append, ℕ, ◌≡◌, ◌≢◌, refl, sym, ◌∙◌, ap, subst, Option, some, none, List, [],
  ◌∷◌, ◌++◌, append_assoc, append-nil, if_either, ◌==◌, ==→eq, ==→ne,
}
use nanosig.Timer.Order.{head}
use nanosig.Rbtree.{
  Color, RbTree, nil, node, left_of, right_of, Parents, Place, Root, is_black, place_or, locate,
  leftmost_from, rightmost_from, up_next, up_prev, next, prev, last,
}
use nanosig.Rbtree.Shape.{
  elements, before, behind, around, black_height, IsRedBlack, Fits, Fits-left, Fits-right,
}

-- What is found of x: it stands between these nodes, for the first time; or it is not there.
abbrev pub IsLocated : ℕ → List ℕ → Option Place → Type 0
IsLocated x xs none = IsFresh x xs
IsLocated x xs (some q) =
    (before q.path ++ elements q.left ++ x ∷ (elements q.right ++ behind q.path) ≡ xs)
    × IsFresh x (before q.path ++ elements q.left)

-- Among the nodes of a subtree at a place.
abbrev IsLocatedAt : ℕ → RbTree → Parents → Option Place → Type 0
IsLocatedAt x t p none = IsFresh x (elements t)
IsLocatedAt x t p (some q) = IsLocated x (around (elements t) p) (some q)

located_left :
    (x : ℕ) (c : Color) (l : RbTree) (a : ℕ) (r : RbTree) (p : Parents) (o other : Option Place)
    → IsLocatedAt x l (left_of c a r ∷ p) o
    → (IsFresh x (elements l) → IsLocatedAt x (node c l a r) p other)
    → IsLocatedAt x (node c l a r) p (place_or o other)
located_left x c l a r p none other h k = k h
located_left x c l a r p (some q) other (e, f) k = (e ∙ simp (append_assoc), f)

located_right :
    (x : ℕ) (c : Color) (l : RbTree) (a : ℕ) (r : RbTree) (p : Parents) (o : Option Place)
    → x ≢ a
    → IsFresh x (elements l)
    → IsLocatedAt x r (right_of c l a ∷ p) o
    → IsLocatedAt x (node c l a r) p o
located_right x c l a r p none ne fl h = IsFresh-append x (elements l) (a ∷ elements r) fl (ne, h)
located_right x c l a r p (some q) ne fl (e, f) = (e ∙ simp (append_assoc), f)

locate-IsLocatedAt :
    (x : ℕ) (t : RbTree) (p : Parents) → IsFresh x (before p) → IsLocatedAt x t p (locate x t p)
unfolding locate
locate-IsLocatedAt x nil p f = tt
locate-IsLocatedAt x (node c l a r) p f =
    located_left x c l a r p _ _ (locate-IsLocatedAt x l (left_of c a r ∷ p) f) (λ fl.
      if_either (IsLocatedAt x (node c l a r) p) (x == a) _ _
        (λ e. (
          ap (λ b. before p ++ elements l ++ b ∷ (elements r ++ behind p)) (==→eq x a e)
              ∙ simp (append_assoc),
          IsFresh-append x (before p) (elements l) f fl,
        ))
        (λ e. located_right x c l a r p _ (==→ne x a e) fl (
          locate-IsLocatedAt x r (right_of c l a ∷ p) (
            IsFresh-append x (before p ++ elements l) (a ∷ [])
              (IsFresh-append x (before p) (elements l) f fl) (==→ne x a e, tt)))))

pub locate-IsLocated : (x : ℕ) (t : RbTree) → IsLocated x (elements t) (locate x t [])
locate-IsLocated x t = whole (locate x t []) (locate-IsLocatedAt x t [] tt)
  where
    whole : (o : Option Place) → IsLocatedAt x t [] o → IsLocated x (elements t) o
    whole none h = h
    whole (some q) (e, f) = (e ∙ append-nil (elements t), f)

-- A place that fits, with the node in it.
abbrev pub IsInPlace : ℕ → Option Place → Type 0
IsInPlace x none = Unit {0}
IsInPlace x (some q) =
    IsRedBlack (node q.color q.left x q.right)
    × Fits q.path (black_height (node q.color q.left x q.right))
        (is_black (node q.color q.left x q.right))

IsInPlace-or :
    (x : ℕ) (o other : Option Place)
    → IsInPlace x o
    → IsInPlace x other
    → IsInPlace x (place_or o other)
IsInPlace-or x none other h k = k
IsInPlace-or x (some q) other h k = h

pub locate-IsInPlace :
    (x : ℕ) (t : RbTree) (p : Parents)
    → IsRedBlack t
    → Fits p (black_height t) (is_black t)
    → IsInPlace x (locate x t p)
unfolding locate
locate-IsInPlace x nil p v f = tt
locate-IsInPlace x (node c l a r) p v f =
    IsInPlace-or x _ _ (locate-IsInPlace x l (left_of c a r ∷ p) v.0 (Fits-left c l a r p v f)) (
      if_either (IsInPlace x) (x == a) _ _
        (λ e.
          subst
            (λ b.
              IsRedBlack (node c l b r)
              × Fits p (black_height (node c l b r)) (is_black (node c l b r)))
            (sym (==→eq x a e)) (v, f))
        (λ _. locate-IsInPlace x r (right_of c l a ∷ p) v.1 (Fits-right c l a r p v f)))

abbrev pub final : List ℕ → Option ℕ
final [] = none
final (x ∷ []) = some x
final (x ∷ y ∷ xs) = final (y ∷ xs)

final-append : (xs : List ℕ) (a : ℕ) → final (xs ++ a ∷ []) ≡ some a
final-append [] a = refl
final-append (x ∷ []) a = refl
final-append (x ∷ y ∷ xs) a = final-append (y ∷ xs) a

final-tail : (xs : List ℕ) (a : ℕ) (ys : List ℕ) → final (xs ++ a ∷ ys) ≡ final (a ∷ ys)
final-tail [] a ys = refl
final-tail (x ∷ []) a ys = refl
final-tail (x ∷ y ∷ xs) a ys = final-tail (y ∷ xs) a ys

leftmost_from-head :
    (l : RbTree) (a : ℕ) (xs : List ℕ) → some (leftmost_from l a) ≡ head (elements l ++ a ∷ xs)
unfolding leftmost_from
leftmost_from-head nil a xs = refl
leftmost_from-head (node c l b r) a xs =
    leftmost_from-head l b (elements r ++ a ∷ xs) ∙ ap head (simp (append_assoc))

rightmost_from-final : (a : ℕ) (r : RbTree) → some (rightmost_from a r) ≡ final (a ∷ elements r)
unfolding rightmost_from
rightmost_from-final a nil = refl
rightmost_from-final a (node c l b r) =
    rightmost_from-final b r ∙ sym (final-tail (a ∷ elements l) b (elements r))

up_next-head : (p : Parents) → up_next p ≡ head (behind p)
unfolding up_next
up_next-head [] = refl
up_next-head (left_of c a r ∷ p) = refl
up_next-head (right_of c l a ∷ p) = up_next-head p

up_prev-final : (p : Parents) → up_prev p ≡ final (before p)
unfolding up_prev
up_prev-final [] = refl
up_prev-final (left_of c a r ∷ p) = up_prev-final p
up_prev-final (right_of c l a ∷ p) = sym (final-append (before p ++ elements l) a)

next_at : (q : Place) (r : RbTree) → q.right ≡ r → next q ≡ head (elements r ++ behind q.path)
unfolding next
next_at q nil e = rw e (up_next-head q.path)
next_at q (node c l a r) e =
    rw e (leftmost_from-head l a (elements r ++ behind q.path) ∙ ap head (simp (append_assoc)))

prev_at : (q : Place) (l : RbTree) → q.left ≡ l → prev q ≡ final (before q.path ++ elements l)
unfolding prev
prev_at q nil e = rw e (up_prev-final q.path ∙ ap final (sym (append-nil (before q.path))))
prev_at q (node c l a r) e = rw e (
    rightmost_from-final a r
    ∙ sym (final-tail (before q.path ++ elements l) a (elements r))
    ∙ (simp (append_assoc)))

pub next-head : (q : Place) → next q ≡ head (elements q.right ++ behind q.path)
next-head q = next_at q q.right refl

-- Of a node in the tree, `ns_rbtree_next` gives the node behind it in the order and
-- `ns_rbtree_prev` the one before it, or NULL where there is none.
pub next-prev :
    (x : ℕ) (tree : Root) (q : Place)
    → locate x tree.rb_node [] ≡ some q
    → (xs : List ℕ) × (ys : List ℕ) × (elements tree.rb_node ≡ xs ++ x ∷ ys)
      × (prev q ≡ final xs)
      × (next q ≡ head ys)
next-prev x tree q e = (
  before q.path ++ elements q.left,
  elements q.right ++ behind q.path,
  sym (subst (IsLocated x (elements tree.rb_node)) e (locate-IsLocated x tree.rb_node)).0,
  prev_at q q.left refl,
  next-head q,
)

pub last-final : (tree : Root) → last tree ≡ final (elements tree.rb_node)
unfolding last
last-final tree = of tree.rb_node refl
  where
    of : (t : RbTree) → tree.rb_node ≡ t → last tree ≡ final (elements t)
    of nil e = rw e refl
    of (node c l a r) e =
        rw e (rightmost_from-final a r ∙ sym (final-tail (elements l) a (elements r)))
