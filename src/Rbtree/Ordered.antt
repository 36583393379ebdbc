-- ===== src/Rbtree/Ordered.antt =====
-- src/ds/ns_rbtree.c: `ns_rbtree_add` puts a node in its place in the order.
use nanosig.Base.{
  IsFresh, IsFresh-split, inl, inr, ℕ, ◌≡◌, refl, sym, ◌∙◌, ap, subst, Bool, true, false,
  Bool-cases, some, List, [], ◌∷◌, ◌++◌, append_assoc, append-nil, if◌then◌else◌, if_either,
  ==_refl, ne→==,
}
use nanosig.Timer.Order.{AllAfter, IsCut, insert, head, is_head}
use nanosig.Rbtree.{
  RbTree, nil, node, left_of, right_of, Parents, Root, is_black, insert_fix, add_place, add,
}
use nanosig.Rbtree.Shape.{
  elements, before, behind, around, black_height, IsRedBlack, Fits, IsWhole, Fits-left, Fits-right,
}
use nanosig.Rbtree.Insert.{false-true, elements-insert_fix, insert_fix-IsWhole}

-- What the calls keep: a red-black tree with a black root, and its first node in `rb_leftmost`.
pub record IsRoot (tree : Root) : Type 0 where
  pub whole : IsWhole tree.rb_node
  pub first : tree.rb_leftmost ≡ head (elements tree.rb_node)

abbrev is_nil : List ℕ → Bool
is_nil [] = true
is_nil (x ∷ xs) = false

is_nil-append : (xs ys : List ℕ) → is_nil ys ≡ false → is_nil (xs ++ ys) ≡ false
is_nil-append [] ys e = e
is_nil-append (x ∷ xs) ys e = refl

head_leftmost : (x : ℕ) (xs ys : List ℕ) → is_nil xs ≡ true → some x ≡ head (xs ++ x ∷ ys)
head_leftmost x [] ys e = refl
head_leftmost x (z ∷ xs) ys e = absurd (false-true e)

head_later : (xs ys zs : List ℕ) → is_nil xs ≡ false → head (xs ++ ys) ≡ head (xs ++ zs)
head_later [] ys zs e = absurd (false-true (sym e))
head_later (x ∷ xs) ys zs e = refl

module _ (less : ℕ → ℕ → Bool) (x : ℕ) where
  AllAfter-prefix : (ls rs : List ℕ) → AllAfter less x (ls ++ rs) → AllAfter less x ls
  AllAfter-prefix [] rs c = tt
  AllAfter-prefix (y ∷ ls) rs (h, c) = (h, AllAfter-prefix ls rs c)

  AllAfter-suffix : (ls rs : List ℕ) → AllAfter less x (ls ++ rs) → AllAfter less x rs
  AllAfter-suffix [] rs c = c
  AllAfter-suffix (y ∷ ls) rs (h, c) = AllAfter-suffix ls rs c

  IsCut-prefix : (ls rs : List ℕ) → IsCut less x (ls ++ rs) → IsCut less x ls
  IsCut-prefix [] rs c = tt
  IsCut-prefix (y ∷ ls) rs (inl (h, c)) = inl (h, IsCut-prefix ls rs c)
  IsCut-prefix (y ∷ ls) rs (inr c) = inr (AllAfter-prefix (y ∷ ls) rs c)

  AllAfter-IsCut : (xs : List ℕ) → AllAfter less x xs → IsCut less x xs
  AllAfter-IsCut [] c = tt
  AllAfter-IsCut (y ∷ xs) c = inr c

  IsCut-suffix : (ls rs : List ℕ) → IsCut less x (ls ++ rs) → IsCut less x rs
  IsCut-suffix [] rs c = c
  IsCut-suffix (y ∷ ls) rs (inl (h, c)) = IsCut-suffix ls rs c
  IsCut-suffix (y ∷ ls) rs (inr c) = AllAfter-IsCut rs (AllAfter-suffix (y ∷ ls) rs c)

  insert_before :
      (ls : List ℕ) (a : ℕ) (rs : List ℕ)
      → less x a ≡ true
      → insert less x (ls ++ a ∷ rs) ≡ insert less x ls ++ a ∷ rs
  insert_before [] a rs h = rw h refl
  insert_before (y ∷ ls) a rs h = elim (Bool-cases (less x y)) [
    | inl e ↦ rw e refl
    | inr e ↦ rw e (ap (◌∷◌ y) (insert_before ls a rs h))
  ]

  insert_behind :
      (ls : List ℕ) (a : ℕ) (rs : List ℕ)
      → less x a ≡ false
      → IsCut less x (ls ++ a ∷ rs)
      → insert less x (ls ++ a ∷ rs) ≡ ls ++ a ∷ insert less x rs
  insert_behind [] a rs h c = rw h refl
  insert_behind (y ∷ ls) a rs h (inl (e, c)) = rw e (ap (◌∷◌ y) (insert_behind ls a rs h c))
  insert_behind (y ∷ ls) a rs h (inr c) =
      absurd (false-true (sym h ∙ (AllAfter-suffix (y ∷ ls) (a ∷ rs) c).0))

  -- The place that the loop finds is the one behind all nodes that x does not come before.
  add_place-insert :
      (t : RbTree) (p : Parents) (leftmost : Bool)
      → IsCut less x (elements t)
      → around (x ∷ []) (add_place less x t p leftmost).0 ≡ around (insert less x (elements t)) p
  unfolding add_place
  add_place-insert nil p leftmost c = refl
  add_place-insert (node k l a r) p leftmost c =
      if_either
        (λ (q : Parents × Bool).
          around (x ∷ []) q.0 ≡ around (insert less x (elements l ++ a ∷ elements r)) p)
        (less x a) (add_place less x l (left_of k a r ∷ p) leftmost)
        (add_place less x r (right_of k l a ∷ p) false)
        (λ h.
          add_place-insert l (left_of k a r ∷ p) leftmost
            (IsCut-prefix (elements l) (a ∷ elements r) c)
          ∙ (simp (append_assoc))
          ∙ ap (λ xs. around xs p) (sym (insert_before (elements l) a (elements r) h)))
        (λ h.
          add_place-insert r (right_of k l a ∷ p) false (
            IsCut-suffix (elements l ++ a ∷ []) (elements r)
              (subst (IsCut less x) (simp (append_assoc)) c))
          ∙ (simp (append_assoc))
          ∙ ap (λ xs. around xs p) (sym (insert_behind (elements l) a (elements r) h c)))

  is_head-insert :
      (xs ys : List ℕ) → is_head x (insert less x xs ++ ys) ≡ is_head x (insert less x xs)
  is_head-insert [] ys = refl
  is_head-insert (z ∷ xs) ys = elim (Bool-cases (less x z)) [
    | inl e ↦ rw e refl
    | inr e ↦ rw e refl
  ]

  is_head_fresh :
      (xs : List ℕ) (a : ℕ) (ys zs : List ℕ)
      → IsFresh x (xs ++ a ∷ ys)
      → is_head x (xs ++ a ∷ zs) ≡ false
  is_head_fresh [] a ys zs f = ne→== x a f.0
  is_head_fresh (b ∷ xs) a ys zs f = ne→== x b f.0

  -- The flag that it gives: no step went right, and x comes first.
  add_place_leftmost :
      (t : RbTree) (p : Parents) (leftmost : Bool)
      → IsFresh x (elements t)
      → IsCut less x (elements t)
      → (add_place less x t p leftmost).1
        ≡ (if leftmost then is_head x (insert less x (elements t)) else false)
  unfolding add_place
  add_place_leftmost nil p true f c = sym (==_refl x)
  add_place_leftmost nil p false f c = refl
  add_place_leftmost (node k l a r) p leftmost f c =
      if_either
        (λ (q : Parents × Bool).
          q.1
          ≡ (if leftmost then is_head x (insert less x (elements l ++ a ∷ elements r)) else false))
        (less x a) (add_place less x l (left_of k a r ∷ p) leftmost)
        (add_place less x r (right_of k l a ∷ p) false)
        (λ h.
          add_place_leftmost l (left_of k a r ∷ p) leftmost
            (IsFresh-split x (elements l) (a ∷ elements r) f).0
            (IsCut-prefix (elements l) (a ∷ elements r) c)
          ∙ ap (λ b. if leftmost then b else false)
              (sym (is_head-insert (elements l) (a ∷ elements r))
                ∙ ap (is_head x) (sym (insert_before (elements l) a (elements r) h))))
        (λ h.
          add_place_leftmost r (right_of k l a ∷ p) false
            (IsFresh-split x (elements l) (a ∷ elements r) f).1.1
            (IsCut-suffix (elements l ++ a ∷ []) (elements r)
              (subst (IsCut less x) (simp (append_assoc)) c))
          ∙ sym (
              ap (λ b. if leftmost then b else false)
                (ap (is_head x) (insert_behind (elements l) a (elements r) h c)
                  ∙ is_head_fresh (elements l) a (elements r) (insert less x (elements r)) f)
              ∙ if_either (λ b. b ≡ false) leftmost false false (λ _. refl) (λ _. refl)))

  add_place-Fits :
      (t : RbTree) (p : Parents) (leftmost : Bool)
      → IsRedBlack t
      → Fits p (black_height t) (is_black t)
      → Fits (add_place less x t p leftmost).0 0 true
  unfolding add_place
  add_place-Fits nil p leftmost v f = f
  add_place-Fits (node k l a r) p leftmost v f =
      if_either (λ (q : Parents × Bool). Fits q.0 0 true) (less x a) _ _
        (λ _. add_place-Fits l (left_of k a r ∷ p) leftmost v.0 (Fits-left k l a r p v f))
        (λ _. add_place-Fits r (right_of k l a ∷ p) false v.1 (Fits-right k l a r p v f))

  -- The nodes on both sides of the place are those of the tree, whatever the order says.
  add_place_parts :
      (t : RbTree) (p : Parents) (leftmost : Bool)
      → before (add_place less x t p leftmost).0 ++ behind (add_place less x t p leftmost).0
        ≡ around (elements t) p
  unfolding add_place
  add_place_parts nil p leftmost = simp (append-nil)
  add_place_parts (node k l a r) p leftmost =
      if_either
        (λ (q : Parents × Bool). before q.0 ++ behind q.0 ≡ around (elements l ++ a ∷ elements r) p)
        (less x a) _ _ (λ _. add_place_parts l (left_of k a r ∷ p) leftmost ∙ (simp (append_assoc)))
        (λ _. add_place_parts r (right_of k l a ∷ p) false ∙ (simp (append_assoc)))

  add_place-is_nil :
      (t : RbTree) (p : Parents) (leftmost : Bool)
      → leftmost ≡ is_nil (before p)
      → (add_place less x t p leftmost).1 ≡ is_nil (before (add_place less x t p leftmost).0)
  unfolding add_place
  add_place-is_nil nil p leftmost e = e
  add_place-is_nil (node k l a r) p leftmost e =
      if_either (λ (q : Parents × Bool). q.1 ≡ is_nil (before q.0)) (less x a) _ _
        (λ _. add_place-is_nil l (left_of k a r ∷ p) leftmost e)
        (λ _.
          add_place-is_nil r (right_of k l a ∷ p) false
            (sym (is_nil-append (before p ++ elements l) (a ∷ []) refl)))

-- The tree stays red-black, with its first node in `rb_leftmost`, whatever the order says.
pub add-IsRoot :
    (less : ℕ → ℕ → Bool) (x : ℕ) (tree : Root) → IsRoot tree → IsRoot (add less x tree).0
unfolding add
add-IsRoot less x tree v = record {
  whole =
      insert_fix-IsWhole nil x nil q (tt, tt, refl, (refl, refl))
        (add_place-Fits less x tree.rb_node [] true v.whole.0 v.whole.1);
  first =
      if_either (λ o. o ≡ head (elements (insert_fix nil x nil q)))
        (add_place less x tree.rb_node [] true).1 (some x) tree.rb_leftmost
        (λ e. head_leftmost x (before q) (behind q) (sym flag ∙ e) ∙ ap head (sym order))
        (λ e.
          v.first
          ∙ ap head (sym parts)
          ∙ head_later (before q) (behind q) (x ∷ behind q) (sym flag ∙ e)
          ∙ ap head (sym order));
}
  where
    q : Parents
    q = (add_place less x tree.rb_node [] true).0

    flag : (add_place less x tree.rb_node [] true).1 ≡ is_nil (before q)
    flag = add_place-is_nil less x tree.rb_node [] true refl

    order : elements (insert_fix nil x nil q) ≡ before q ++ x ∷ behind q
    order = elements-insert_fix nil x nil q ∙ simp (append_assoc)

    parts : before q ++ behind q ≡ elements tree.rb_node
    parts = add_place_parts less x tree.rb_node [] true ∙ append-nil (elements tree.rb_node)

-- A node that the order gives one place comes there, and the result says whether that is the first.
pub add_lem :
    (less : ℕ → ℕ → Bool) (x : ℕ) (tree : Root)
    → IsFresh x (elements tree.rb_node)
    → IsCut less x (elements tree.rb_node)
    → (elements (add less x tree).0.rb_node ≡ insert less x (elements tree.rb_node))
      × ((add less x tree).1 ≡ is_head x (insert less x (elements tree.rb_node)))
unfolding add
add_lem less x tree f c = (
  elements-insert_fix nil x nil (add_place less x tree.rb_node [] true).0
      ∙ add_place-insert less x tree.rb_node [] true c
      ∙ append-nil (insert less x (elements tree.rb_node)),
  add_place_leftmost less x tree.rb_node [] true f c,
)
