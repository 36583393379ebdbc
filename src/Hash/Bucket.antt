-- ===== src/Hash/Bucket.antt =====
-- src/ds/ns_hashtbl.c: the nodes of a bucket.
use nanosig.Base.{
  Among, ℕ, ◌≡◌, ◌≢◌, refl, sym, ◌∙◌, ap, subst, inl, inr, false, Option, some, none, List, [], ◌∷◌,
  if_true, if_false, Bool-cases, ==→eq, ==→ne, ◌==◌, update_same, update_other,
}
use nanosig.Hash.{
  Table, need_remake, is_bare, bucket_nodes, set_bucket, without, without_node, unlink,
}

-- A bucket has a node.
abbrev pub In : Table → ℕ → ℕ → Type 0
In t i x = Among x (bucket_nodes (t.buckets i))

Among-without : (x y : ℕ) (xs : List ℕ) → Among x (without y xs) → Among x xs × (x ≢ y)
unfolding without
Among-without x y [] h = absurd h
Among-without x y (z ∷ zs) h = elim (Bool-cases (z == y)) [
  | inl e ↦ let (a, b) = Among-without x y zs (subst (Among x) (if_true _ _ e) h) in (inr a, b)
  | inr e ↦ elim (subst (Among x) (if_false _ (z ∷ without y zs) e) h) [
    | inl is ↦ (inl is, λ at. ==→ne z y e (sym is ∙ at))
    | inr later ↦ let (a, b) = Among-without x y zs later in (inr a, b)
  ]
]

without-Among : (x y : ℕ) (xs : List ℕ) → Among x xs → x ≢ y → Among x (without y xs)
unfolding without
without-Among x y [] h n = absurd h
without-Among x y (z ∷ zs) h n = elim (Bool-cases (z == y)) [
  | inl e ↦
      subst (Among x) (sym (if_true _ _ e)) (elim h [
        | inl is ↦ absurd (n (is ∙ ==→eq z y e))
        | inr later ↦ without-Among x y zs later n
      ])
  | inr e ↦
      subst (Among x) (sym (if_false _ (z ∷ without y zs) e))
        (elim h [ inl is ↦ inl is | inr later ↦ inr (without-Among x y zs later n) ])
]

pub unlinked : (t : Table) (x i : ℕ) → need_remake (unlink t x) i ≡ need_remake t i
unfolding need_remake unlink
unlinked t x i = same (t.buckets i)
  where
    same : (o : Option (List ℕ)) → is_bare (without_node x o) ≡ is_bare o
    same none = refl
    same (some xs) = refl

pub In-unlink : (t : Table) (x i y : ℕ) → In (unlink t x) i y → In t i y × (y ≢ x)
unfolding unlink
In-unlink t x i y h = out (t.buckets i) h
  where
    out :
        (o : Option (List ℕ))
        → Among y (bucket_nodes (without_node x o))
        → Among y (bucket_nodes o) × (y ≢ x)
    out none h = absurd h
    out (some xs) h = Among-without y x xs h

pub unlink-In : (t : Table) (x i y : ℕ) → In t i y → y ≢ x → In (unlink t x) i y
unfolding unlink
unlink-In t x i y h n = stays (t.buckets i) h
  where
    stays :
        (o : Option (List ℕ)) → Among y (bucket_nodes o) → Among y (bucket_nodes (without_node x o))
    stays none h = absurd h
    stays (some xs) h = without-Among y x xs h n

pub filled_now : (t : Table) (n : ℕ) (xs : List ℕ) → need_remake (set_bucket t n xs) n ≡ false
unfolding need_remake
filled_now t n xs = ap is_bare (update_same t.buckets n (some xs))

pub filled_other :
    (t : Table) (n : ℕ) (xs : List ℕ) (i : ℕ)
    → i ≢ n
    → need_remake (set_bucket t n xs) i ≡ need_remake t i
unfolding need_remake
filled_other t n xs i e = ap is_bare (update_other t.buckets n (some xs) i e)

pub In-set : (t : Table) (n : ℕ) (xs : List ℕ) (y : ℕ) → In (set_bucket t n xs) n y ≡ Among y xs
In-set t n xs y = ap (λ o. Among y (bucket_nodes o)) (update_same t.buckets n (some xs))

pub In-set_other :
    (t : Table) (n : ℕ) (xs : List ℕ) (i y : ℕ) → i ≢ n → In (set_bucket t n xs) i y ≡ In t i y
In-set_other t n xs i y e =
    ap (λ o. Among y (bucket_nodes o)) (update_other t.buckets n (some xs) i e)

-- A bucket that has a node is filled.
pub In-filled : (t : Table) (i y : ℕ) → In t i y → need_remake t i ≡ false
unfolding need_remake
In-filled t i y h = filled (t.buckets i) h
  where
    filled : (o : Option (List ℕ)) → Among y (bucket_nodes o) → is_bare o ≡ false
    filled none h = absurd h
    filled (some xs) h = refl
