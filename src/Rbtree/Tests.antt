-- ===== src/Rbtree/Tests.antt =====
-- The red-black tree at small inputs.
use nanosig.Base.{
  ℕ, ◌*◌, ◌^◌, ◌≤◌, ◌≡◌, ◌⊎◌, refl, inl, inr, true, false, some, none, List, [], ◌∷◌, ◌++◌, length,
  if◌then◌else◌, ltb, arith,
}
use nanosig.Timer.Order.{head}
use nanosig.Rbtree.{
  red, black, nil, node, right_of, Place, Root, add_place, add, locate, next, prev, del, insert_fix,
  zip, del_at, moved_up, successor,
}
use nanosig.Rbtree.Shape.{elements}
use nanosig.Rbtree.Ordered.{IsRoot, add-IsRoot, add_lem}
use nanosig.Rbtree.Remove.{del_lem}
use nanosig.Rbtree.Walk.{final, next-prev}
use nanosig.Rbtree.Depth.{add_place_bound}
use nanosig.Rbtree.Search.{Sign, negative, zero_sign, positive, find_first, find_add}
use nanosig.Rbtree.Search.Exact.{first_match, is_negative, find_first_lem}
use nanosig.Rbtree.Search.Added.{Matches, find_add_lem}

abbrev tree : Root
tree = record {
  rb_node = node black (node black nil 2 nil) 4 (node black nil 6 (node red nil 8 nil));
  rb_leftmost = some 2;
}

tree-IsRoot : IsRoot tree
tree-IsRoot = record {
  whole = (((tt, tt, refl, tt), (tt, (tt, tt, refl, (refl, refl)), refl, tt), refl, tt), refl);
  first = refl;
}

add_9 : elements (add ltb 9 tree).0.rb_node ≡ 2 ∷ 4 ∷ 6 ∷ 8 ∷ 9 ∷ []
unfolding add insert_fix add_place zip
add_9 = refl

del_4 : elements (del 4 tree).0.rb_node ≡ 2 ∷ 6 ∷ 8 ∷ []
unfolding del locate del_at moved_up successor zip
del_4 = refl

add-IsRoot_example : IsRoot (add ltb 9 tree).0
add-IsRoot_example = add-IsRoot ltb 9 tree tree-IsRoot

add_lem_example :
    (elements (add ltb 5 tree).0.rb_node ≡ 2 ∷ 4 ∷ 5 ∷ 6 ∷ 8 ∷ []) × ((add ltb 5 tree).1 ≡ false)
add_lem_example =
    add_lem ltb 5 tree (omega arith, (omega arith, (omega arith, (omega arith, tt))))
      (inl (refl, inl (refl, inr (refl, (refl, tt)))))

del_lem_example :
    IsRoot (del 2 tree).0
    × (elements (del 2 tree).0.rb_node ≡ 4 ∷ 6 ∷ 8 ∷ [])
    × ((del 2 tree).1 ≡ true)
del_lem_example = del_lem 2 tree tree-IsRoot

add_place_bound_example :
    (k : ℕ) × (length (add_place ltb 9 tree.rb_node [] true).0 ≤ 2 * k) × (2 ^ k ≤ 5)
add_place_bound_example = add_place_bound ltb 9 tree tree-IsRoot

abbrev place_6 : Place
place_6 = record {
  color = black;
  left = nil;
  right = node red nil 8 nil;
  path = right_of black (node black nil 2 nil) 4 ∷ [];
}

next-prev_example :
    (xs : List ℕ) × (ys : List ℕ) × (◌≡◌ {A = List ℕ} (2 ∷ 4 ∷ 6 ∷ 8 ∷ []) (xs ++ 6 ∷ ys))
    × (prev place_6 ≡ final xs)
    × (next place_6 ≡ head ys)
unfolding locate
next-prev_example = next-prev 6 tree place_6 refl

-- The key 5 or 6.
abbrev match : ℕ → Sign
match a = if ltb a 5 then positive else if ltb 6 a then negative else zero_sign

find_first_lem_example : find_first match tree.rb_node none ≡ some 6
find_first_lem_example =
    find_first_lem match tree (inl (refl, inl (refl, inr (inl (refl, inr (refl, tt))))))

find_add_lem_example :
    ((first_match match (2 ∷ 4 ∷ 6 ∷ 8 ∷ []) ≡ none)
      × (find_add match 5 tree ≡ ((add (λ y a. is_negative (match a)) 5 tree).0, 5)))
    ⊎ ((a : ℕ) × Matches match (2 ∷ 4 ∷ 6 ∷ 8 ∷ []) a × (find_add match 5 tree ≡ (tree, a)))
find_add_lem_example =
    find_add_lem match (λ y a. is_negative (match a)) 5 (λ a. refl) tree
      (inl (refl, inl (refl, inr (inl (refl, inr (refl, tt))))))
