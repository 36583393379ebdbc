-- ===== src/Rbtree/Search/Postorder.antt =====
-- src/ds/ns_rbtree.c: the traversal meets each node once, behind its children.
use nanosig.Base.{ℕ, ◌≡◌, refl, sym, ◌∙◌, ap, some, List, [], ◌∷◌, ◌++◌, append_assoc, append-nil}
use nanosig.Timer.Order.{head}
use nanosig.Rbtree.{Color, RbTree, nil, node, left_of, right_of, Parents, Root, zip}
use nanosig.Rbtree.Search.{left_deepest, first_postorder, next_postorder}

abbrev pub postorder : RbTree → List ℕ
postorder nil = []
postorder (node c l a r) = postorder l ++ (postorder r ++ a ∷ [])

-- What comes before a place and behind it.
abbrev pub earlier : Parents → List ℕ
earlier [] = []
earlier (left_of c a r ∷ p) = earlier p
earlier (right_of c l a ∷ p) = earlier p ++ postorder l

abbrev pub later : Parents → List ℕ
later [] = []
later (left_of c a r ∷ p) = postorder r ++ a ∷ later p
later (right_of c l a ∷ p) = a ∷ later p

postorder-zip :
    (t : RbTree) (p : Parents) → postorder (zip t p) ≡ earlier p ++ (postorder t ++ later p)
unfolding zip
postorder-zip t [] = sym (append-nil (postorder t))
postorder-zip t (left_of c a r ∷ p) = postorder-zip (node c t a r) p ∙ simp (append_assoc)
postorder-zip t (right_of c l a ∷ p) = postorder-zip (node c l a t) p ∙ simp (append_assoc)

head_either :
    (xs : List ℕ) (a : ℕ) (ys : List ℕ) → some a ≡ head ys → head (xs ++ a ∷ []) ≡ head (xs ++ ys)
head_either [] a ys e = e
head_either (x ∷ xs) a ys e = refl

left_deepest-head :
    (t : RbTree) (a : ℕ) (xs : List ℕ) → some (left_deepest t a) ≡ head (postorder t ++ a ∷ xs)
unfolding left_deepest
left_deepest-head nil a xs = refl
left_deepest-head (node c l b r) a xs =
    left_deepest-head l (left_deepest r b) []
    ∙ head_either (postorder l) _ _ (left_deepest-head r b (a ∷ xs))
    ∙ ap head (simp (append_assoc))

next_postorder-head : (p : Parents) → next_postorder p ≡ head (later p)
unfolding next_postorder
next_postorder-head [] = refl
next_postorder-head (left_of c a r ∷ p) = left_deepest-head r a (later p)
next_postorder-head (right_of c l a ∷ p) = refl

first_postorder-head :
    (t : RbTree) (tree : Root) → tree.rb_node ≡ t → first_postorder tree ≡ head (postorder t)
unfolding first_postorder
first_postorder-head nil tree e = rw e refl
first_postorder-head (node c l a r) tree e = rw e (
    left_deepest-head l (left_deepest r a) []
    ∙ head_either (postorder l) _ _ (left_deepest-head r a []))

-- The traversal begins with the first node in postorder; and behind a node at a place the next one
-- is the one that stands behind it in the postorder of the whole tree.
pub next_postorder_lem :
    (tree : Root) (c : Color) (l : RbTree) (a : ℕ) (r : RbTree) (p : Parents)
    → tree.rb_node ≡ zip (node c l a r) p
    → (first_postorder tree ≡ head (postorder tree.rb_node))
      × (postorder tree.rb_node ≡ (earlier p ++ postorder l ++ postorder r) ++ a ∷ later p)
      × (next_postorder p ≡ head (later p))
next_postorder_lem tree c l a r p e = (
  first_postorder-head tree.rb_node tree refl,
  ap postorder e ∙ postorder-zip (node c l a r) p ∙ (simp (append_assoc)),
  next_postorder-head p,
)
