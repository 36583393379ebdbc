-- ===== src/Rbtree/Remove.antt =====
-- src/ds/ns_rbtree.c: `ns_rbtree_del`, and the tree as src/ns_timer.c takes it.
use nanosig.Base.{
  IsFresh, inl, inr, ℕ, ◌≡◌, refl, sym, ◌∙◌, ap, subst, Bool, false, Bool-cases, Option, some, none,
  List, [], ◌∷◌, ◌++◌, append_assoc, if◌then◌else◌, if_true, if_false, ==_refl, ne→==,
}
use nanosig.Timer.Order.{Tree, remove, head, is_head, is_some}
use nanosig.Rbtree.{Place, Root, del_at, locate, is_this, is_node, del_place, del, add}
use nanosig.Rbtree.Shape.{elements, before, behind}
use nanosig.Rbtree.Ordered.{IsRoot, add-IsRoot, add_lem}
use nanosig.Rbtree.Delete.{elements-del_at, del_at-IsWhole}
use nanosig.Rbtree.Walk.{IsLocated, IsInPlace, locate-IsLocated, locate-IsInPlace, next-head}

remove_fresh : (x : ℕ) (xs : List ℕ) → IsFresh x xs → remove x xs ≡ xs
remove_fresh x [] f = refl
remove_fresh x (y ∷ xs) (n, f) = rw (ne→== x y n) (ap (◌∷◌ y) (remove_fresh x xs f))

remove_there : (x : ℕ) (xs ys : List ℕ) → IsFresh x xs → remove x (xs ++ x ∷ ys) ≡ xs ++ ys
remove_there x [] ys f = rw (==_refl x) refl
remove_there x (y ∷ xs) ys (n, f) = rw (ne→== x y n) (ap (◌∷◌ y) (remove_there x xs ys f))

is_this-head : (x : ℕ) (xs : List ℕ) → is_this x (head xs) ≡ is_head x xs
is_this-head x [] = refl
is_this-head x (y ∷ xs) = refl

is_node-some : (o : Option ℕ) → is_node o ≡ is_some o
is_node-some none = refl
is_node-some (some x) = refl

is_head_fresh : (x : ℕ) (xs : List ℕ) → IsFresh x xs → is_head x xs ≡ false
is_head_fresh x [] f = refl
is_head_fresh x (y ∷ xs) f = ne→== x y f.0

-- What is first without x: what comes behind it when x is first, and otherwise what was first.
head_without :
    (x : ℕ) (xs ys : List ℕ)
    → IsFresh x xs
    → (if is_head x (xs ++ x ∷ ys) then head ys else head (xs ++ x ∷ ys)) ≡ head (xs ++ ys)
head_without x [] ys f = rw (==_refl x) refl
head_without x (y ∷ xs) ys f = rw (ne→== x y f.0) refl

found_there :
    (x : ℕ) (xs ys zs : List ℕ)
    → IsFresh x xs
    → xs ++ x ∷ ys ≡ zs
    → (xs ++ ys ≡ remove x zs)
      × ((if is_head x zs then head ys else head zs) ≡ head (remove x zs))
      × ((if is_head x zs then is_some (head ys) else false)
          ≡ (if is_head x zs then is_some (head (remove x zs)) else false))
found_there x xs ys zs f e =
    let out : xs ++ ys ≡ remove x zs = sym (remove_there x xs ys f) ∙ ap (remove x) e in
    let firsts : (if is_head x zs then head ys else head zs) ≡ head (remove x zs) =
      subst (λ k. (if is_head x k then head ys else head k) ≡ head (remove x zs)) e
        (head_without x xs ys f ∙ ap head out) in
    (
      out,
      firsts,
      elim (Bool-cases (is_head x zs)) [
        | inl h ↦
            let same : head ys ≡ head (remove x zs) =
              sym (if_true (head ys) (head zs) h) ∙ firsts in
            ap (λ o. if is_head x zs then is_some o else false) same
        | inr h ↦ if_false _ _ h ∙ sym (if_false _ _ h)
      ],
    )

-- What a call of `ns_rbtree_del` leaves: red-black again, with its first node in `rb_leftmost`; the
-- result says whether the first node went and another is first now.
record IsRemoved (x : ℕ) (tree : Root) (q : Root × Bool) : Type 0 where
  kept : IsRoot q.0
  order : elements q.0.rb_node ≡ remove x (elements tree.rb_node)
  result : q.1 ≡ (
      if is_head x (elements tree.rb_node)
      then is_some (head (remove x (elements tree.rb_node)))
      else false)

del_place-IsRemoved :
    (x : ℕ) (tree : Root) (o : Option Place)
    → IsRoot tree
    → IsLocated x (elements tree.rb_node) o
    → IsInPlace x o
    → IsRemoved x tree (del_place x tree o)
del_place-IsRemoved x tree none v f _ = record {
  kept = v;
  order = sym (remove_fresh x _ f);
  result = sym (if_false _ _ (is_head_fresh x _ f));
}
del_place-IsRemoved x tree (some q) v (e, f) (w, g) =
    let (out, firsts, result) =
      found_there x (before q.path ++ elements q.left) (elements q.right ++ behind q.path)
        (elements tree.rb_node) f e in
    let order : elements (del_at q.color q.left q.right q.path) ≡ remove x (elements tree.rb_node) =
      elements-del_at q.color q.left q.right q.path ∙ (simp (append_assoc)) ∙ out in
    let this : is_this x tree.rb_leftmost ≡ is_head x (elements tree.rb_node) =
      ap (is_this x) v.first ∙ is_this-head x (elements tree.rb_node) in
    record {
      kept = record {
        whole = del_at-IsWhole q.color q.left x q.right q.path w g;
        first = rw (this, next-head q, v.first) (firsts ∙ ap head (sym order));
      };
      order = order;
      result =
          rw (this, next-head q, is_node-some (head (elements q.right ++ behind q.path))) result;
    }

-- The node goes, and all others stay in order.
pub del_lem :
    (x : ℕ) (tree : Root)
    → IsRoot tree
    → IsRoot (del x tree).0
      × (elements (del x tree).0.rb_node ≡ remove x (elements tree.rb_node))
      × ((del x tree).1 ≡ (
          if is_head x (elements tree.rb_node)
          then is_some (head (remove x (elements tree.rb_node)))
          else false))
unfolding del
del_lem x tree v =
    let h : IsRemoved x tree (del_place x tree (locate x tree.rb_node [])) =
      del_place-IsRemoved x tree (locate x tree.rb_node []) v (locate-IsLocated x tree.rb_node)
        (locate-IsInPlace x tree.rb_node [] v.whole.0 v.whole.1) in
    (h.kept, h.order, h.result)

-- A tree that the calls keep.
pub record KeptTree : Type 0 where
  pub root : Root
  pub kept : IsRoot root

-- The red-black tree is the ordered tree that the timers take.
instance pub rb_tree : Tree KeptTree
rb_tree = record {
  elements = λ t. elements t.root.rb_node;
  first = λ t. t.root.rb_leftmost;
  add = λ less x t. (
    record { root = (add less x t.root).0; kept = add-IsRoot less x t.root t.kept },
    (add less x t.root).1,
  );
  del = λ x t.
      (record { root = (del x t.root).0; kept = (del_lem x t.root t.kept).0 }, (del x t.root).1);
  first_elements = λ t. t.kept.first;
  add_elements = λ less x t f c. (add_lem less x t.root f c).0;
  add_first = λ less x t f c. (add_lem less x t.root f c).1;
  del_elements = λ x t. (del_lem x t.root t.kept).1;
  del_first = λ x t. (del_lem x t.root t.kept).2;
}
