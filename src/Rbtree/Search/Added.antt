-- ===== src/Rbtree/Search/Added.antt =====
-- src/ds/ns_rbtree.c: the calls that put a new node in unless a node matches.
use nanosig.Base.{
  ℕ, ◌≡◌, ◌⊎◌, inl, inr, refl, sym, ◌∙◌, ap, subst, Bool, true, false, Option, some, none, List, [],
  ◌∷◌, ◌++◌, append_assoc, if_true, if_false,
}
use nanosig.Rbtree.{Color, RbTree, nil, node, left_of, right_of, Parents, Root, add_place, add}
use nanosig.Rbtree.Shape.{elements}
use nanosig.Rbtree.Search.{
  Sign, negative, zero_sign, positive, by_sign, match_find, Searched, matches, free_at, find_place,
  find_added, find_add, new_added, find_new_add, linked_at,
}
use nanosig.Rbtree.Search.Exact.{
  first_match, is_negative, IsSigned, IsSigned-split, Sign-cases, first_match-append, no_match_left,
  no_match_right,
}

-- A node of these that matches.
abbrev pub Matches : (ℕ → Sign) → List ℕ → ℕ → Type 0
Matches match xs a =
    (match a ≡ zero_sign) × ((before : List ℕ) × (behind : List ℕ) × (xs ≡ before ++ a ∷ behind))

module _ (match : ℕ → Sign) (less : ℕ → ℕ → Bool) (x : ℕ)
    (agree : (a : ℕ) → less x a ≡ is_negative (match a)) where
  -- What the search ends with: a node that matches, or no node does, and then the place is the one
  -- that `ns_rbtree_add` finds.
  abbrev IsSearched : RbTree → Parents → Bool → Searched → Type 0
  IsSearched t p leftmost (matches a) = Matches match (elements t) a
  IsSearched t p leftmost (free_at q b) =
      (first_match match (elements t) ≡ none) × (add_place less x t p leftmost ≡ (q, b))

  searched_left :
      (c : Color) (l : RbTree) (a : ℕ) (r : RbTree) (p : Parents) (leftmost : Bool) (o : Searched)
      → match a ≡ negative
      → first_match match (elements r) ≡ none
      → IsSearched l (left_of c a r ∷ p) leftmost o
      → IsSearched (node c l a r) p leftmost o
  unfolding add_place
  searched_left c l a r p leftmost (matches y) e h (m, (before, behind, f)) = (
    m,
    (before, behind ++ a ∷ elements r, ap (λ xs. xs ++ a ∷ elements r) f ∙ simp (append_assoc)),
  )
  searched_left c l a r p leftmost (free_at q b) e h (f, g) = (
    rw (first_match-append match (elements l) (a ∷ elements r), f, first_match, e) h,
    if_true _ _ (agree a ∙ ap is_negative e) ∙ g,
  )

  searched_right :
      (c : Color) (l : RbTree) (a : ℕ) (r : RbTree) (p : Parents) (leftmost : Bool) (o : Searched)
      → match a ≡ positive
      → first_match match (elements l) ≡ none
      → IsSearched r (right_of c l a ∷ p) false o
      → IsSearched (node c l a r) p leftmost o
  unfolding add_place
  searched_right c l a r p leftmost (matches y) e h (m, (before, behind, f)) = (
    m,
    (elements l ++ a ∷ before, behind, ap (λ xs. elements l ++ a ∷ xs) f ∙ simp (append_assoc)),
  )
  searched_right c l a r p leftmost (free_at q b) e h (f, g) = (
    rw (first_match-append match (elements l) (a ∷ elements r), h, first_match, e) f,
    if_false _ _ (agree a ∙ ap is_negative e) ∙ g,
  )

  find_place-IsSearched :
      (t : RbTree) (p : Parents) (leftmost : Bool)
      → IsSigned match (elements t)
      → IsSearched t p leftmost (find_place match t p leftmost)
  unfolding find_place add_place
  find_place-IsSearched nil p leftmost h = (refl, refl)
  find_place-IsSearched (node c l a r) p leftmost h = elim (Sign-cases (match a)) [
    | inl e ↦ at negative e (
        searched_left c l a r p leftmost _ e (no_match_right match (elements l) a (elements r) h e)
          (find_place-IsSearched l (left_of c a r ∷ p) leftmost
            (IsSigned-split match (elements l) (a ∷ elements r) h).0))
    | inr (inl e) ↦ at zero_sign e (e, (elements l, elements r, refl))
    | inr (inr e) ↦ at positive e (
        searched_right c l a r p leftmost _ e (no_match_left match (elements l) a (elements r) h e)
          (find_place-IsSearched r (right_of c l a ∷ p) false
            (IsSigned-split match (elements l ++ a ∷ []) (elements r)
              (subst (IsSigned match) (simp (append_assoc)) h)).1))
  ]
    where
      on : Sign → Searched
      on s =
          by_sign s (find_place match l (left_of c a r ∷ p) leftmost) (matches a)
            (find_place match r (right_of c l a ∷ p) false)

      at :
          (s : Sign)
          → match a ≡ s
          → IsSearched (node c l a r) p leftmost (on s)
          → IsSearched (node c l a r) p leftmost (on (match a))
      at s e = subst (λ k. IsSearched (node c l a r) p leftmost (on k)) (sym e)

  -- Where the nodes stand in the order of the key, a node is put in as `ns_rbtree_add` does if none
  -- matches, and otherwise one that matches is given and nothing changes.
  pub find_add_lem :
      (tree : Root)
      → IsSigned match (elements tree.rb_node)
      → ((first_match match (elements tree.rb_node) ≡ none)
          × (find_add match x tree ≡ ((add less x tree).0, x)))
        ⊎ ((a : ℕ) × Matches match (elements tree.rb_node) a × (find_add match x tree ≡ (tree, a)))
  unfolding find_add add
  find_add_lem tree h =
      of (find_place match tree.rb_node [] true) (find_place-IsSearched tree.rb_node [] true h)
    where
      of :
          (o : Searched)
          → IsSearched tree.rb_node [] true o
          → ((first_match match (elements tree.rb_node) ≡ none)
              × (find_added x tree o ≡ ((add less x tree).0, x)))
            ⊎ ((a : ℕ) × Matches match (elements tree.rb_node) a
                × (find_added x tree o ≡ (tree, a)))
      of (matches a) m = inr (a, m, refl)
      of (free_at q b) (n, e) =
          inl (n, ap (λ (k : Parents × Bool). (linked_at x k.0 k.1 tree, x)) (sym e))

  -- A node is made where none matches, and put in at the place of the key if it is empty.
  pub find_new_add_lem :
      (made : Option ℕ) (is_empty : ℕ → Bool) (tree : Root)
      → IsSigned match (elements tree.rb_node)
      → ((first_match match (elements tree.rb_node) ≡ none)
          × (find_new_add match made is_empty tree
              ≡ new_added made is_empty tree (
                  free_at
                    (add_place less x tree.rb_node [] true).0
                    (add_place less x tree.rb_node [] true).1)))
        ⊎ ((a : ℕ) × Matches match (elements tree.rb_node) a
            × (find_new_add match made is_empty tree ≡ (tree, some a)))
  unfolding find_new_add
  find_new_add_lem made is_empty tree h =
      of (find_place match tree.rb_node [] true) (find_place-IsSearched tree.rb_node [] true h)
    where
      of :
          (o : Searched)
          → IsSearched tree.rb_node [] true o
          → ((first_match match (elements tree.rb_node) ≡ none)
              × (new_added made is_empty tree o
                  ≡ new_added made is_empty tree (
                      free_at
                        (add_place less x tree.rb_node [] true).0
                        (add_place less x tree.rb_node [] true).1)))
            ⊎ ((a : ℕ) × Matches match (elements tree.rb_node) a
                × (new_added made is_empty tree o ≡ (tree, some a)))
      of (matches a) m = inr (a, m, refl)
      of (free_at q b) (n, e) =
          inl
            (n, ap (λ (k : Parents × Bool). new_added made is_empty tree (free_at k.0 k.1)) (sym e))

  abbrev match_of : Searched → Option ℕ
  match_of (matches a) = some a
  match_of (free_at q b) = none

  match_find-find_place :
      (t : RbTree) (p : Parents) (leftmost : Bool)
      → match_find match t ≡ match_of (find_place match t p leftmost)
  unfolding match_find find_place
  match_find-find_place nil p leftmost = refl
  match_find-find_place (node c l a r) p leftmost = elim (Sign-cases (match a)) [
    | inl e ↦ rw (match_find, find_place, e) (match_find-find_place l (left_of c a r ∷ p) leftmost)
    | inr (inl e) ↦ rw (match_find, find_place, e) refl
    | inr (inr e) ↦
        rw (match_find, find_place, e) (match_find-find_place r (right_of c l a ∷ p) false)
  ]

  -- A node that matches is found if there is one.
  pub match_find_lem :
      (tree : Root)
      → IsSigned match (elements tree.rb_node)
      → ((first_match match (elements tree.rb_node) ≡ none)
          × (match_find match tree.rb_node ≡ none))
        ⊎ ((a : ℕ) × Matches match (elements tree.rb_node) a
            × (match_find match tree.rb_node ≡ some a))
  match_find_lem tree h =
      rw (match_find-find_place tree.rb_node [] true)
        (of (find_place match tree.rb_node [] true) (find_place-IsSearched tree.rb_node [] true h))
    where
      of :
          (o : Searched)
          → IsSearched tree.rb_node [] true o
          → ((first_match match (elements tree.rb_node) ≡ none) × (match_of o ≡ none))
            ⊎ ((a : ℕ) × Matches match (elements tree.rb_node) a × (match_of o ≡ some a))
      of (matches a) m = inr (a, m, refl)
      of (free_at q b) (n, _) = inl (n, refl)
