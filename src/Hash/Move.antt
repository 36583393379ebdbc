-- ===== src/Hash/Move.antt =====
-- src/ds/ns_hashtbl.c: the nodes of the older bucket go where they belong.
use Prim.Native.Nat.{bit_and}
use native.Mathlib.Nat.{mod-lt}
use nanosig.Base.{
  Among, arith, ℕ, ◌+◌, ◌%◌, ◌^◌, ◌<◌, ◌≡◌, ◌≢◌, refl, sym, ◌∙◌, ap, ap₂, subst, inl, inr, ◌⊎◌,
  false, not, List, [], ◌∷◌, if_true, if_false, Bool-cases, ==→eq, ==→ne, ◌==◌,
}
use nanosig.Hash.{Table, need_remake, bucket_nodes, set_bucket, unlink, move_node, move_nodes}
use nanosig.Hash.Home.{home, home-mod, masked, pow_pos}
use nanosig.Hash.Fill.{Fills}
use nanosig.Hash.Bucket.{
  In, unlinked, In-unlink, unlink-In, filled_now, filled_other, In-set, In-set_other,
}

-- The hash value of a node in a table.
abbrev pub hash_of : Table → ℕ → ℕ
hash_of t x = (t.nodes x).hash_val

-- Between two tables nodes were moved out of the bucket o; these of it have still to be seen.
pub record Moves (k o : ℕ) (t u : Table) (rest : List ℕ) : Type 0 where
  pub fills : Fills k o t u
  pub same_mask : u.mask ≡ t.mask
  pub same_nodes : u.nodes ≡ t.nodes
  pub same_count : u.count ≡ t.count
  pub from : (i x : ℕ) → In u i x → (hash_of t x % 2 ^ k ≡ i) ⊎ (In t i x × (i ≡ o → Among x rest))
  pub kept : (i x : ℕ) → In t i x → (j : ℕ) × In u j x
  pub origin : (i x : ℕ) → In u i x → (j : ℕ) × In t j x

module _ {k o : ℕ} {t u : Table} (size : t.mask + 1 ≡ 2 ^ k) (x : ℕ) (rest : List ℕ)
    (v : Moves k o t u (x ∷ rest)) where
  abbrev n : ℕ
  n = hash_of t x % 2 ^ k

  new_idx : bit_and (u.nodes x).hash_val u.mask ≡ n
  new_idx =
      ap₂ (λ ns m. bit_and (ns x).hash_val m) v.same_nodes v.same_mask
      ∙ masked (hash_of t x) t.mask k size

  abbrev parted : Table
  parted = unlink u x

  abbrev joined : List ℕ
  joined = x ∷ bucket_nodes (parted.buckets n)

  abbrev moved : Table
  moved = set_bucket parted n joined

  stay : n ≡ o → Moves k o t u rest
  stay here = record {
    fills = v.fills;
    same_mask = v.same_mask;
    same_nodes = v.same_nodes;
    same_count = v.same_count;
    from = λ i y h. elim (v.from i y h) [
      | inl at ↦ inl at
      | inr (was, left) ↦ elim (Bool-cases (y == x)) [
        | inl same ↦ elim (Bool-cases (i == o)) [
          | inl e ↦ inl (ap (λ z. hash_of t z % 2 ^ k) (==→eq y x same) ∙ here ∙ sym (==→eq i o e))
          | inr e ↦ inr (was, λ at. absurd (==→ne i o e at))
        ]
        | inr other ↦
            inr (
              was,
              λ at. elim (left at) [ inl is ↦ absurd (==→ne y x other is) | inr later ↦ later ],
            )
      ]
    ];
    kept = v.kept;
    origin = v.origin;
  }

  go : home t k (hash_of t x) ≡ o → In t o x → n ≢ o → Moves k o t moved rest
  unfolding unlink
  go homed here away = record {
    fills = record {
      grows = λ j filled. elim (Bool-cases (j == n)) [
        | inl e ↦
            subst (λ i. need_remake moved i ≡ false) (sym (==→eq j n e))
              (filled_now parted n joined)
        | inr e ↦
            filled_other parted n joined j (==→ne j n e) ∙ unlinked u x j ∙ v.fills.grows j filled
      ];
      fresh = λ j bare filled. elim (Bool-cases (j == n)) [
        | inl e ↦ (
          ap (home t k) (==→eq j n e) ∙ home-mod t k k (hash_of t x) (omega arith) ∙ homed,
          subst (λ i. i < 2 ^ k) (sym (==→eq j n e)) (mod-lt (hash_of t x) (pow_pos k)),
        )
        | inr e ↦
            v.fills.fresh j bare
              (sym (filled_other parted n joined j (==→ne j n e) ∙ unlinked u x j) ∙ filled)
      ];
    };
    same_mask = v.same_mask;
    same_nodes = v.same_nodes;
    same_count = v.same_count;
    from = λ i y h. elim (Bool-cases (i == n)) [
      | inl e ↦ in_new i y (==→eq i n e) (subst (λ z. In moved z y) (==→eq i n e) h)
      | inr e ↦
          in_old i y
            (In-unlink u x i y (subst (λ T. T) (In-set_other parted n joined i y (==→ne i n e)) h))
    ];
    kept = λ i y h. elim (Bool-cases (y == x)) [
      | inl e ↦ (n, subst (λ T. T) (sym (In-set parted n joined y)) (inl (==→eq y x e)))
      | inr e ↦ let (j, was) = v.kept i y h in (j, still j y (unlink-In u x j y was (==→ne y x e)))
    ];
    origin = λ i y h. elim (Bool-cases (i == n)) [
      | inl e ↦
          elim (subst (λ T. T) (In-set parted n joined y)
            (subst (λ z. In moved z y) (==→eq i n e) h)) [
              | inl is ↦ (o, subst (In t o) (sym is) here)
              | inr was ↦ v.origin n y (In-unlink u x n y was).0
            ]
      | inr e ↦
          v.origin i y
            (In-unlink u x i y
              (subst (λ T. T) (In-set_other parted n joined i y (==→ne i n e)) h)).0
    ];
  }
    where
      in_new :
          (i y : ℕ)
          → i ≡ n
          → In moved n y
          → (hash_of t y % 2 ^ k ≡ i) ⊎ (In t i y × (i ≡ o → Among y rest))
      in_new i y e h = elim (subst (λ T. T) (In-set parted n joined y) h) [
        | inl is ↦ inl (ap (λ z. hash_of t z % 2 ^ k) is ∙ sym e)
        | inr was ↦ elim (v.from n y (In-unlink u x n y was).0) [
          | inl at ↦ inl (at ∙ sym e)
          | inr (there, left) ↦
              inr (subst (λ z. In t z y) (sym e) there, λ at. absurd (away (sym e ∙ at)))
        ]
      ]

      in_old :
          (i y : ℕ)
          → In u i y × (y ≢ x)
          → (hash_of t y % 2 ^ k ≡ i) ⊎ (In t i y × (i ≡ o → Among y rest))
      in_old i y (was, other) = elim (v.from i y was) [
        | inl at ↦ inl at
        | inr (there, left) ↦
            inr (there, λ at. elim (left at) [ inl is ↦ absurd (other is) | inr later ↦ later ])
      ]

      still : (j y : ℕ) → In (unlink u x) j y → In moved j y
      still j y h = elim (Bool-cases (j == n)) [
        | inl e ↦
            subst (λ z. In moved z y) (sym (==→eq j n e))
              (subst (λ T. T) (sym (In-set parted n joined y))
                (inr (subst (λ z. In (unlink u x) z y) (==→eq j n e) h)))
        | inr e ↦ subst (λ T. T) (sym (In-set_other parted n joined j y (==→ne j n e))) h
      ]

  moved_on : home t k (hash_of t x) ≡ o → In t o x → Moves k o t (move_node u o x) rest
  unfolding move_node
  moved_on homed here = elim (Bool-cases (bit_and (u.nodes x).hash_val u.mask == o)) [
    | inl e ↦
        subst (λ w. Moves k o t w rest) (sym (if_false _ _ (ap not e)))
          (stay (sym new_idx ∙ ==→eq _ o e))
    | inr e ↦
        subst (λ w. Moves k o t w rest)
          (ap (λ m. set_bucket (unlink u x) m (x ∷ bucket_nodes ((unlink u x).buckets m)))
              (sym new_idx)
            ∙ sym (if_true _ _ (ap not e)))
          (go homed here (λ at. ==→ne _ o e (new_idx ∙ at)))
  ]

-- All of them.
pub move_nodes_lem :
    {k o : ℕ} {t : Table} (size : t.mask + 1 ≡ 2 ^ k) (xs : List ℕ) (u : Table)
    → Moves k o t u xs
    → ((x : ℕ) → Among x xs → (home t k (hash_of t x) ≡ o) × In t o x)
    → Moves k o t (move_nodes u o xs) []
unfolding move_nodes
move_nodes_lem size [] u v homed = v
move_nodes_lem {o = o} size (x ∷ xs) u v homed =
    move_nodes_lem size xs (move_node u o x)
      (moved_on size x xs v (homed x (inl refl)).0 (homed x (inl refl)).1) (λ y h. homed y (inr h))
