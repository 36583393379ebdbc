-- ===== src/Rbtree/Search/Exact.antt =====
-- src/ds/ns_rbtree.c: the searches by a key find what a search through all nodes in order finds.
use nanosig.Base.{
  ℕ, ◌≡◌, ◌≢◌, ◌⊎◌, inl, inr, refl, sym, ◌∙◌, ap, subst, Bool, true, false, Option, some, none,
  List, [], ◌∷◌, ◌++◌, append_assoc, arith,
}
use nanosig.Rbtree.{RbTree, nil, node, Root}
use nanosig.Rbtree.Shape.{elements}
use nanosig.Rbtree.Search.{Sign, negative, zero_sign, positive, by_sign, find_first}

-- The first node of these that matches.
abbrev pub first_match : (ℕ → Sign) → List ℕ → Option ℕ
first_match match [] = none
first_match match (y ∷ ys) =
    by_sign (match y) (first_match match ys) (some y) (first_match match ys)

abbrev pub or_else : Option ℕ → Option ℕ → Option ℕ
or_else none o = o
or_else (some y) o = some y

abbrev pub AllBehind : (ℕ → Sign) → List ℕ → Type 0
AllBehind match [] = Unit {0}
AllBehind match (y ∷ ys) = (match y ≡ negative) × AllBehind match ys

abbrev pub IsTail : (ℕ → Sign) → List ℕ → Type 0
IsTail match [] = Unit {0}
IsTail match (y ∷ ys) = (match y ≡ zero_sign) × IsTail match ys ⊎ AllBehind match (y ∷ ys)

-- In order: the nodes that the key comes behind, then those that match, then those it comes before.
abbrev pub IsSigned : (ℕ → Sign) → List ℕ → Type 0
IsSigned match [] = Unit {0}
IsSigned match (y ∷ ys) = (match y ≡ positive) × IsSigned match ys ⊎ IsTail match (y ∷ ys)

abbrev sign_code : Sign → ℕ
sign_code negative = 0
sign_code zero_sign = 1
sign_code positive = 2

abbrev pub is_negative : Sign → Bool
is_negative negative = true
is_negative zero_sign = false
is_negative positive = false

pub Sign-cases : (s : Sign) → (s ≡ negative) ⊎ ((s ≡ zero_sign) ⊎ (s ≡ positive))
Sign-cases negative = inl refl
Sign-cases zero_sign = inr (inl refl)
Sign-cases positive = inr (inr refl)

or_else-none : (o : Option ℕ) → or_else o none ≡ o
or_else-none none = refl
or_else-none (some y) = refl

module _ (match : ℕ → Sign) where
  apart : (a : ℕ) (s t : Sign) → match a ≡ s → match a ≡ t → sign_code s ≢ sign_code t → ⊥
  apart a s t e f ne = ne (ap sign_code (sym e ∙ f))

  AllBehind-IsTail : (xs : List ℕ) → AllBehind match xs → IsTail match xs
  AllBehind-IsTail [] h = tt
  AllBehind-IsTail (y ∷ xs) h = inr h

  IsTail-IsSigned : (xs : List ℕ) → IsTail match xs → IsSigned match xs
  IsTail-IsSigned [] h = tt
  IsTail-IsSigned (y ∷ xs) h = inr h

  AllBehind-split :
      (xs ys : List ℕ) → AllBehind match (xs ++ ys) → AllBehind match xs × AllBehind match ys
  AllBehind-split [] ys h = (tt, h)
  AllBehind-split (x ∷ xs) ys (e, h) = let (k, l) = AllBehind-split xs ys h in ((e, k), l)

  IsTail-split : (xs ys : List ℕ) → IsTail match (xs ++ ys) → IsTail match xs × IsTail match ys
  IsTail-split [] ys h = (tt, h)
  IsTail-split (x ∷ xs) ys (inl (e, h)) = let (k, l) = IsTail-split xs ys h in (inl (e, k), l)
  IsTail-split (x ∷ xs) ys (inr h) =
      let (k, l) = AllBehind-split (x ∷ xs) ys h in (inr k, AllBehind-IsTail ys l)

  pub IsSigned-split :
      (xs ys : List ℕ) → IsSigned match (xs ++ ys) → IsSigned match xs × IsSigned match ys
  IsSigned-split [] ys h = (tt, h)
  IsSigned-split (x ∷ xs) ys (inl (e, h)) = let (k, l) = IsSigned-split xs ys h in (inl (e, k), l)
  IsSigned-split (x ∷ xs) ys (inr h) =
      let (k, l) = IsTail-split (x ∷ xs) ys h in (inr k, IsTail-IsSigned ys l)

  pub first_match-append :
      (xs ys : List ℕ)
      → first_match match (xs ++ ys) ≡ or_else (first_match match xs) (first_match match ys)
  first_match-append [] ys = refl
  first_match-append (x ∷ xs) ys = elim (Sign-cases (match x)) [
    | inl e ↦ rw (first_match, e) (first_match-append xs ys)
    | inr (inl e) ↦ rw (first_match, e) refl
    | inr (inr e) ↦ rw (first_match, e) (first_match-append xs ys)
  ]

  no_match_behind : (xs : List ℕ) → AllBehind match xs → first_match match xs ≡ none
  no_match_behind [] h = refl
  no_match_behind (x ∷ xs) (e, h) = rw (first_match, e) (no_match_behind xs h)

  -- Behind a node that the key comes before, none matches.
  pub no_match_right :
      (xs : List ℕ) (a : ℕ) (ys : List ℕ)
      → IsSigned match (xs ++ a ∷ ys)
      → match a ≡ negative
      → first_match match ys ≡ none
  no_match_right xs a ys h e = elim (IsSigned-split xs (a ∷ ys) h).1 [
    | inl (f, _) ↦ absurd (apart a positive negative f e (λ k. omega (arith, k)))
    | inr (inl (f, _)) ↦ absurd (apart a zero_sign negative f e (λ k. omega (arith, k)))
    | inr (inr (_, k)) ↦ no_match_behind ys k
  ]

  tail_not_positive :
      (xs : List ℕ) (a : ℕ) (ys : List ℕ) → IsTail match (xs ++ a ∷ ys) → match a ≡ positive → ⊥
  tail_not_positive xs a ys h e = elim (IsTail-split xs (a ∷ ys) h).1 [
    | inl (f, _) ↦ apart a zero_sign positive f e (λ k. omega (arith, k))
    | inr (f, _) ↦ apart a negative positive f e (λ k. omega (arith, k))
  ]

  -- Before a node that the key comes behind, none matches.
  pub no_match_left :
      (xs : List ℕ) (a : ℕ) (ys : List ℕ)
      → IsSigned match (xs ++ a ∷ ys)
      → match a ≡ positive
      → first_match match xs ≡ none
  no_match_left [] a ys h e = refl
  no_match_left (x ∷ xs) a ys (inl (f, h)) e = rw (first_match, f) (no_match_left xs a ys h e)
  no_match_left (x ∷ xs) a ys (inr h) e = absurd (tail_not_positive (x ∷ xs) a ys h e)

  find_first-or :
      (t : RbTree) (o : Option ℕ)
      → IsSigned match (elements t)
      → find_first match t o ≡ or_else (first_match match (elements t)) o
  unfolding find_first
  find_first-or nil o h = refl
  find_first-or (node c l a r) o h =
      let (hl, hr) = IsSigned-split (elements l) (a ∷ elements r) h in
      elim (Sign-cases (match a)) [
        | inl e ↦
            rw
              (
                first_match-append (elements l) (a ∷ elements r),
                first_match,
                find_first,
                e,
                no_match_right (elements l) a (elements r) h e,
              )
              (find_first-or l o hl
                ∙ ap (λ k. or_else k o) (sym (or_else-none (first_match match (elements l)))))
        | inr (inl e) ↦
            rw (first_match-append (elements l) (a ∷ elements r), first_match, find_first, e)
              (find_first-or l (some a) hl ∙ some_else (first_match match (elements l)) a o)
        | inr (inr e) ↦
            rw
              (
                first_match-append (elements l) (a ∷ elements r),
                first_match,
                find_first,
                e,
                no_match_left (elements l) a (elements r) h e,
              )
              (find_first-or r o
                (IsSigned-split (elements l ++ a ∷ []) (elements r)
                  (subst (IsSigned match) (simp (append_assoc)) h)).1)
      ]
    where
      some_else :
          (k : Option ℕ) (b : ℕ) (d : Option ℕ)
          → or_else k (some b) ≡ or_else (or_else k (some b)) d
      some_else none b d = refl
      some_else (some y) b d = refl

-- Where the nodes stand in the order of the key, `ns_rbtree_find_first` gives the first one that
-- matches.
pub find_first_lem :
    (match : ℕ → Sign) (tree : Root)
    → IsSigned match (elements tree.rb_node)
    → find_first match tree.rb_node none ≡ first_match match (elements tree.rb_node)
find_first_lem match tree h =
    find_first-or match tree.rb_node none h
    ∙ or_else-none (first_match match (elements tree.rb_node))
