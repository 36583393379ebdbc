-- ===== src/Hash/Remake.antt =====
-- src/ds/ns_hashtbl.c: `ns_hashtbl_try_remake` fills a bucket and leaves each node to be found.
use Prim.Native.Nat.{bit_and}
use native.Mathlib.Nat.{pow-suc}
use nanosig.Base.{
  ◌≢◌, ==→eq, ==→ne, ◌==◌, ℕ, suc, ◌+◌, ◌/◌, ◌%◌, ◌^◌, ◌<◌, ◌≡◌, refl, sym, ◌∙◌, ap, subst, inl,
  inr, ◌⊎◌, true, false, [], if◌then◌else◌, if_true, if_false, Bool-cases, arith, mod_small,
}
use nanosig.Hash.{set_bucket, Table, need_remake, bucket_nodes, older_mask, move_nodes, try_remake}
use nanosig.Hash.Home.{home, home_filled, home_older, older_mask_lem}
use nanosig.Hash.Fill.{home_stays}
use nanosig.Hash.Bucket.{In-set, In-set_other, filled_other, In, In-filled, filled_now}
use nanosig.Hash.Move.{hash_of, Moves, move_nodes_lem}

-- A table of 2 ^ (k + 1) buckets whose first is filled, and in which each node stands in the bucket
-- where its hash value is looked for.
pub record IsTable (k : ℕ) (t : Table) : Type 0 where
  pub size : t.mask + 1 ≡ 2 ^ suc k
  pub first : need_remake t 0 ≡ false
  pub at_home : (i x : ℕ) → In t i x → home t (suc k) (hash_of t x) ≡ i

-- The two tables have the same nodes, with the same fields.
pub record IsSame (t u : Table) : Type 0 where
  pub mask : u.mask ≡ t.mask
  pub nodes : u.nodes ≡ t.nodes
  pub count : u.count ≡ t.count
  pub kept : (i x : ℕ) → In t i x → (j : ℕ) × In u j x
  pub no_new : (i x : ℕ) → In u i x → (j : ℕ) × In t j x

-- A bucket that is still bare, and was looked for in o, becomes an empty one.
emptied :
    {k o : ℕ} {t u : Table} (idx : ℕ)
    → Moves k o t u []
    → home t k idx ≡ o
    → idx < 2 ^ k
    → need_remake u idx ≡ true
    → Moves k o t (set_bucket u idx []) []
emptied {k} {o} {t} {u} idx m homed small bare = record {
  fills = record {
    grows = λ j filled. elim (Bool-cases (j == idx)) [
      | inl e ↦
          subst (λ i. need_remake (set_bucket u idx []) i ≡ false) (sym (==→eq j idx e))
            (filled_now u idx [])
      | inr e ↦ filled_other u idx [] j (==→ne j idx e) ∙ m.fills.grows j filled
    ];
    fresh = λ j was filled. elim (Bool-cases (j == idx)) [
      | inl e ↦ (
        ap (home t k) (==→eq j idx e) ∙ homed,
        subst (λ i. i < 2 ^ k) (sym (==→eq j idx e)) small,
      )
      | inr e ↦ m.fills.fresh j was (sym (filled_other u idx [] j (==→ne j idx e)) ∙ filled)
    ];
  };
  same_mask = m.same_mask;
  same_nodes = m.same_nodes;
  same_count = m.same_count;
  from = λ i y h. elim (Bool-cases (i == idx)) [
    | inl e ↦ absurd (none_there i y e h)
    | inr e ↦ m.from i y (subst (λ T. T) (In-set_other u idx [] i y (==→ne i idx e)) h)
  ];
  kept = λ i y h.
      let (j, there) = m.kept i y h in
      (j, subst (λ T. T) (sym (In-set_other u idx [] j y (apart j y there))) there);
  origin = λ i y h. elim (Bool-cases (i == idx)) [
    | inl e ↦ absurd (none_there i y e h)
    | inr e ↦ m.origin i y (subst (λ T. T) (In-set_other u idx [] i y (==→ne i idx e)) h)
  ];
}
  where
    none_there : (i y : ℕ) → (i == idx) ≡ true → In (set_bucket u idx []) i y → ⊥
    none_there i y e h =
        subst (λ T. T) (In-set u idx [] y)
          (subst (λ z. In (set_bucket u idx []) z y) (==→eq i idx e) h)

    apart : (j y : ℕ) → In u j y → j ≢ idx
    apart j y there e =
        let never : true ≡ false = sym bare ∙ ap (need_remake u) (sym e) ∙ In-filled u j y there in
        absurd (omega (arith, ap {B = ℕ} (λ b. if b then 1 else 0) never))

module _ {k : ℕ} {t : Table} (v : IsTable k t) where
  -- Where the nodes of a bucket were moved, each node is found.
  moved-IsTable : {o : ℕ} {u : Table} → Moves (suc k) o t u [] → IsTable k u × IsSame t u
  moved-IsTable {o} {u} m = (
    record {
      size = ap (λ n. n + 1) m.same_mask ∙ v.size;
      first = m.fills.grows 0 v.first;
      at_home = λ i x h.
          ap (λ ns. home u (suc k) (ns x).hash_val) m.same_nodes ∙ placed i x h (m.from i x h);
    },
    record {
      mask = m.same_mask;
      nodes = m.same_nodes;
      count = m.same_count;
      kept = m.kept;
      no_new = m.origin;
    },
  )
    where
      placed :
          (i x : ℕ)
          → In u i x
          → (hash_of t x % 2 ^ suc k ≡ i) ⊎ (In t i x × (i ≡ o → ⊥))
          → home u (suc k) (hash_of t x) ≡ i
      placed i x h (inl at) =
          home_filled u k (hash_of t x) (ap (need_remake u) at ∙ In-filled u i x h) ∙ at
      placed i x h (inr (was, away)) =
          home_stays m.fills (suc k) 0 (hash_of t x) (omega arith)
            (λ e. away (sym (v.at_home i x was) ∙ e))
          ∙ v.at_home i x was

  -- `ns_hashtbl_try_remake` of a bucket of the table: it is filled then, the table has the same
  -- nodes, and each of them stands where its hash value is looked for.
  pub try_remake_lem :
      (idx : ℕ)
      → idx < 2 ^ suc k
      → IsTable k (try_remake t idx)
        × IsSame t (try_remake t idx)
        × (need_remake (try_remake t idx) idx ≡ false)
  unfolding try_remake
  try_remake_lem idx small = elim (Bool-cases (need_remake t idx)) [
    | inr filled ↦ subst Q (sym (if_false _ _ filled)) (v, same_itself, filled)
    | inl bare ↦ subst Q (sym (if_true _ _ bare)) (elim (Bool-cases (need_remake moved idx)) [
      | inr filled ↦
          let (w, same) = moved-IsTable moving in
          subst Q (sym (if_false _ _ filled)) (w, same, filled)
      | inl still ↦
          let (w, same) = moved-IsTable (emptied idx moving (homed bare) small still) in
          subst Q (sym (if_true _ _ still)) (w, same, filled_now moved idx [])
    ])
  ]
    where
      Q : Table → Type 0
      Q u = IsTable k u × IsSame t u × (need_remake u idx ≡ false)

      same_itself : IsSame t t
      same_itself = record {
        mask = refl;
        nodes = refl;
        count = refl;
        kept = λ i x h. (i, h);
        no_new = λ i x h. (i, h);
      }

      o : ℕ
      o = bit_and idx (older_mask t.mask t idx (t.mask / 2))

      moved : Table
      moved = move_nodes t o (bucket_nodes (t.buckets o))

      homed : need_remake t idx ≡ true → home t (suc k) idx ≡ o
      homed bare =
          home_older t k idx (ap (need_remake t) (mod_small idx (2 ^ suc k) small) ∙ bare)
          ∙ sym (
              older_mask_lem t.mask t idx k (t.mask / 2) (omega (arith, v.size, pow-suc 2 k))
                (omega arith))

      moving : Moves (suc k) o t moved []
      moving =
          move_nodes_lem v.size (bucket_nodes (t.buckets o)) t
            (record {
              fills = record {
                grows = λ j h. h;
                fresh = λ j h f.
                    absurd (omega (arith, ap {B = ℕ} (λ b. if b then 1 else 0) (sym h ∙ f)));
              };
              same_mask = refl;
              same_nodes = refl;
              same_count = refl;
              from = λ i x h. inr (h, λ e. subst (λ j. In t j x) e h);
              kept = λ i x h. (i, h);
              origin = λ i x h. (i, h);
            })
            (λ x h. (v.at_home o x h, h))
