-- ===== src/Hash/Grow.antt =====
-- src/ds/ns_hashtbl.c: `ns_hashtbl_resize`.
use native.Mathlib.Nat.{mod-lt, pow-suc}
use nanosig.Base.{
  Among, lt_or_ge, leb→le, not-true, not-false, ℕ, zero, suc, ◌+◌, ◌*◌, ◌/◌, ◌%◌, ◌^◌, ◌≤◌, ◌<◌,
  ◌≡◌, refl, sym, ◌∙◌, subst, inl, inr, ◌⊎◌, Bool, true, false, not, none, if◌then◌else◌, if_true,
  if_false, if_either, Bool-cases, arith, ltb, leb, lt→ltb, ltb-false, u32_mod, ap, mod_small,
  u32_max, Status,
}
use nanosig.Hash.{is_bare, Table, need_remake, bucket_nodes, resize}
use nanosig.Hash.Home.{home, home-zero, home_filled, home_older, home_below, mod-pow, pow_pos}
use nanosig.Hash.Bucket.{In}
use nanosig.Hash.Move.{hash_of}
use nanosig.Hash.Remake.{IsTable}

-- Where two tables have the same buckets filled, hash values are looked for in the same ones.
pub home_same :
    (t u : Table) (m h : ℕ)
    → ((j : ℕ) → j < 2 ^ m → need_remake u j ≡ need_remake t j)
    → home u m h ≡ home t m h
home_same t u zero h same = home-zero u h ∙ sym (home-zero t h)
home_same t u (suc m) h same =
    let here = same (h % 2 ^ suc m) (mod-lt h (pow_pos (suc m))) in
    elim (Bool-cases (need_remake t (h % 2 ^ suc m))) [
      | inl bare ↦
          home_older u m h (here ∙ bare)
          ∙ home_same t u m h (λ j small. same j (omega (arith, small, pow-suc 2 m)))
          ∙ sym (home_older t m h bare)
      | inr filled ↦ home_filled u m h (here ∙ filled) ∙ sym (home_filled t m h filled)
    ]

module _ {k : ℕ} {t : Table} (v : IsTable k t) where
  abbrev grown : Table
  grown = record t {
    buckets = λ i. if ltb i (t.mask + 1) then t.buckets i else none;
    mask = t.mask * 2 + 1;
    threshold = t.threshold * 2 % u32_mod;
  }

  below : (j : ℕ) → j < 2 ^ suc k → grown.buckets j ≡ t.buckets j
  below j small = if_true _ _ (lt→ltb j (t.mask + 1) (omega (arith, small, v.size)))

  above : (j : ℕ) → 2 ^ suc k ≤ j → grown.buckets j ≡ none
  above j large = if_false _ _ (ltb-false j (t.mask + 1) (omega (arith, large, v.size)))

  bare_above : (j : ℕ) → 2 ^ suc k ≤ j → need_remake grown j ≡ true
  unfolding need_remake
  bare_above j large = ap is_bare (above j large)

  same_below : (j : ℕ) → j < 2 ^ suc k → need_remake grown j ≡ need_remake t j
  unfolding need_remake
  same_below j small = ap is_bare (below j small)

  In-grown : (i x : ℕ) → In grown i x → In t i x
  In-grown i x h = elim (lt_or_ge i (2 ^ suc k)) [
    | inl small ↦ subst (λ b. Among x (bucket_nodes b)) (below i small) h
    | inr large ↦ absurd (subst (λ b. Among x (bucket_nodes b)) (above i large) h)
  ]

  -- The remainder by the new size, where its bucket is filled.
  remainder_settled :
      (h : ℕ)
      → need_remake grown (h % 2 ^ suc (suc k)) ≡ false
      → (h % 2 ^ suc (suc k) ≡ h % 2 ^ suc k) × (need_remake t (h % 2 ^ suc k) ≡ false)
  remainder_settled h filled = elim (lt_or_ge (h % 2 ^ suc (suc k)) (2 ^ suc k)) [
    | inl small ↦
        let same : h % 2 ^ suc (suc k) ≡ h % 2 ^ suc k =
          sym (mod_small (h % 2 ^ suc (suc k)) (2 ^ suc k) small)
          ∙ mod-pow h (suc k) (suc (suc k)) (omega arith) in
        (same, ap (need_remake t) (sym same) ∙ sym (same_below _ small) ∙ filled)
    | inr large ↦
        absurd
          (omega (arith, ap {B = ℕ} (λ b. if b then 1 else 0) (sym (bare_above _ large) ∙ filled)))
  ]

  grown-IsTable : IsTable (suc k) grown
  grown-IsTable = record {
    size = omega (arith, v.size, pow-suc 2 (suc k));
    first = same_below 0 (pow_pos (suc k)) ∙ v.first;
    at_home = λ i x h.
        let was = v.at_home i x (In-grown i x h) in
        let value = hash_of t x in
        elim (Bool-cases (need_remake grown (value % 2 ^ suc (suc k)))) [
          | inl bare ↦
              home_older grown (suc k) value bare ∙ home_same t grown (suc k) value same_below ∙ was
          | inr filled ↦
              let (same, there) = remainder_settled value filled in
              home_filled grown (suc k) value filled
              ∙ same
              ∙ sym (home_filled t k value there)
              ∙ was
        ];
  }

-- The ways that growing ends: refused with nothing done, or with twice as many buckets, the same
-- nodes in the same buckets, and each of them where its hash value is looked for.
pub data Grown (k : ℕ) (allocated : Bool) (t : Table) (out : Status × Table) : Type 0 where
  refused :
      out.0 ≡ Status.nomem
      → out.1 ≡ t
      → (u32_max / 2 ≤ t.mask) ⊎ (allocated ≡ false)
      → Grown k allocated t out
  grew :
      out.0 ≡ Status.ns_ok
      → IsTable (suc k) out.1
      → out.1.nodes ≡ t.nodes
      → out.1.count ≡ t.count
      → t.mask < u32_max / 2
      → allocated ≡ true
      → ((i x : ℕ) → In out.1 i x → In t i x)
      → ((i x : ℕ) → In t i x → In out.1 i x)
      → Grown k allocated t out

-- `ns_hashtbl_resize` grows the table and leaves each node to be found, or does nothing where the
-- memory is not given or the size would not be a word.
pub resize_lem :
    {k : ℕ} {t : Table} (allocated : Bool) → IsTable k t → Grown k allocated t (resize allocated t)
unfolding resize
resize_lem {k} {t} allocated v =
    if_either Q (leb (u32_max / 2) t.mask) _ _
      (λ large. refused refl refl (inl (leb→le (u32_max / 2) t.mask large)))
      (λ small.
        if_either Q (not allocated) _ _
          (λ none_given. refused refl refl (inr (not-true allocated none_given)))
          (λ given.
            grew refl (grown-IsTable v) refl refl (ground (arith, small))
              (not-false allocated given) (In-grown v) in_grown))
  where
    Q : Status × Table → Type 0
    Q out = Grown k allocated t out

    small_index : (i x : ℕ) → In t i x → i < 2 ^ suc k
    small_index i x h =
        subst (λ j. j < 2 ^ suc k) (v.at_home i x h) (home_below t (suc k) (hash_of t x))

    in_grown : (i x : ℕ) → In t i x → In (grown v) i x
    in_grown i x h = subst (λ b. Among x (bucket_nodes b)) (sym (below v i (small_index i x h))) h
