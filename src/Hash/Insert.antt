-- ===== src/Hash/Insert.antt =====
-- src/ds/ns_hashtbl.c: `ns_hashtbl_insert`.
use Prim.Native.Nat.{bit_and}
use native.Mathlib.Nat.{mod-lt}
use nanosig.Base.{
  ℕ, suc, ◌%◌, ◌^◌, ◌<◌, ◌≡◌, refl, sym, ◌∙◌, ap, subst, inl, inr, ◌⊎◌, Bool, true, false, not,
  ◌&&◌, List, ◌∷◌, if◌then◌else◌, if_true, if_false, if_either, Bool-cases, ==→eq, ==→ne, ◌==◌, leb,
  add32, u32_max, ◌/◌, ◌≤◌, update_same, update_other, Status, is_ok,
}
use nanosig.Hash.{
  Table, need_remake, bucket_nodes, set_bucket, try_remake, resize, pushed, insert_node,
}
use nanosig.Hash.Home.{home, home_filled, masked, pow_pos}
use nanosig.Hash.Bucket.{In, filled_now, filled_other, In-set, In-set_other}
use nanosig.Hash.Move.{hash_of}
use nanosig.Hash.Remake.{IsTable, try_remake_lem}
use nanosig.Hash.Grow.{home_same, Grown, refused, grew, resize_lem}

module _ {k : ℕ} {t : Table} (v : IsTable k t) (x idx : ℕ) (at : idx ≡ hash_of t x % 2 ^ suc k)
    (filled : need_remake t idx ≡ false) where
  abbrev joined : List ℕ
  joined = x ∷ bucket_nodes (t.buckets idx)

  same_hash : (y : ℕ) → hash_of (pushed t idx x) y ≡ hash_of t y
  same_hash y = elim (Bool-cases (y == x)) [
    | inl e ↦
        ap (λ z. hash_of (pushed t idx x) z) (==→eq y x e)
        ∙ ap (λ n. n.hash_val) (update_same t.nodes x (record (t.nodes x) { linked = true }))
        ∙ ap (hash_of t) (sym (==→eq y x e))
    | inr e ↦
        ap (λ n. n.hash_val)
          (update_other t.nodes x (record (t.nodes x) { linked = true }) y (==→ne y x e))
  ]

  same_need : (j : ℕ) → need_remake (pushed t idx x) j ≡ need_remake t j
  unfolding need_remake
  same_need j = elim (Bool-cases (j == idx)) [
    | inl e ↦
        ap (need_remake (pushed t idx x)) (==→eq j idx e)
        ∙ filled_now t idx joined
        ∙ sym filled
        ∙ ap (need_remake t) (sym (==→eq j idx e))
    | inr e ↦ filled_other t idx joined j (==→ne j idx e)
  ]

  -- A node of a bucket is the new one, in its bucket, or was there.
  In-pushed : (i y : ℕ) → In (pushed t idx x) i y → ((i ≡ idx) × (y ≡ x)) ⊎ In t i y
  In-pushed i y h = elim (Bool-cases (i == idx)) [
    | inl e ↦
        elim (subst (λ T. T) (In-set t idx joined y)
          (subst (λ z. In (set_bucket t idx joined) z y) (==→eq i idx e) h)) [
            | inl is ↦ inl (==→eq i idx e, is)
            | inr was ↦ inr (subst (λ z. In t z y) (sym (==→eq i idx e)) was)
          ]
    | inr e ↦ inr (subst (λ T. T) (In-set_other t idx joined i y (==→ne i idx e)) h)
  ]

  pushed-In : (i y : ℕ) → In t i y → In (pushed t idx x) i y
  pushed-In i y h = elim (Bool-cases (i == idx)) [
    | inl e ↦
        subst (λ z. In (set_bucket t idx joined) z y) (sym (==→eq i idx e))
          (subst (λ T. T) (sym (In-set t idx joined y))
            (inr (subst (λ z. In t z y) (==→eq i idx e) h)))
    | inr e ↦ subst (λ T. T) (sym (In-set_other t idx joined i y (==→ne i idx e))) h
  ]

  pushed-IsTable : IsTable k (pushed t idx x)
  pushed-IsTable = record {
    size = v.size;
    first = same_need 0 ∙ v.first;
    at_home = λ i y h.
        ap (home (pushed t idx x) (suc k)) (same_hash y)
        ∙ home_same t (pushed t idx x) (suc k) (hash_of t y) (λ j _. same_need j)
        ∙ elim (In-pushed i y h) [
          | inl (here, is) ↦
              ap (λ z. home t (suc k) (hash_of t z)) is
              ∙ home_filled t k (hash_of t x) (ap (need_remake t) (sym at) ∙ filled)
              ∙ sym at
              ∙ sym here
          | inr was ↦ v.at_home i y was
        ];
  }

-- What an insertion makes of a table: the same nodes and the new one, each of them where its hash
-- value is looked for.
pub record Inserts (t : Table) (x : ℕ) (u : Table) : Type 0 where
  pub depth : ℕ
  pub table : IsTable depth u
  pub new_in : (i : ℕ) × In u i x
  pub kept : (i y : ℕ) → In t i y → (j : ℕ) × In u j y
  pub no_other : (i y : ℕ) → In u i y → (y ≡ x) ⊎ ((j : ℕ) × In t j y)
  pub same_hash : (y : ℕ) → hash_of u y ≡ hash_of t y
  pub marked : (u.nodes x).linked ≡ true
  pub counted : u.count ≡ add32 t.count 1

-- One node more reaches the threshold, and the mask is not the largest one yet.
abbrev pub is_full : Table → Bool
is_full t = leb t.threshold (add32 t.count 1) && not (t.mask == u32_max)

-- The table is full, and it is as large as it may get or there is no memory.
abbrev pub CannotGrow : Bool → Table → Type 0
CannotGrow allocated t = (is_full t ≡ true) × ((u32_max / 2 ≤ t.mask) ⊎ (allocated ≡ false))

-- The table is not full, or it may grow and there is memory.
abbrev pub HasRoom : Bool → Table → Type 0
HasRoom allocated t = (is_full t ≡ false) ⊎ ((t.mask < u32_max / 2) × (allocated ≡ true))

pub data Inserted (allocated : Bool) (t : Table) (x : ℕ) (out : Status × Table) : Type 0 where
  already :
      (t.nodes x).linked ≡ true → out.0 ≡ Status.exists → out.1 ≡ t → Inserted allocated t x out
  no_memory :
      (t.nodes x).linked ≡ false
      → CannotGrow allocated t
      → out.0 ≡ Status.nomem
      → out.1 ≡ t
      → Inserted allocated t x out
  inserted :
      (t.nodes x).linked ≡ false
      → HasRoom allocated t
      → out.0 ≡ Status.ns_ok
      → Inserts t x out.1
      → Inserted allocated t x out

-- The table that the node comes into: grown or not.
data Sized (allocated : Bool) (t : Table) (out : Status × Table) : Type 0 where
  stopped : CannotGrow allocated t → out.0 ≡ Status.nomem → out.1 ≡ t → Sized allocated t out
  sized :
      (k : ℕ)
      → HasRoom allocated t
      → out.1.count ≡ t.count
      → out.0 ≡ Status.ns_ok
      → IsTable k out.1
      → out.1.nodes ≡ t.nodes
      → ((i x : ℕ) → In out.1 i x → In t i x)
      → ((i x : ℕ) → In t i x → In out.1 i x)
      → Sized allocated t out

Grown-Sized :
    {k : ℕ} {allocated : Bool} {t : Table} (out : Status × Table)
    → is_full t ≡ true
    → Grown k allocated t out
    → Sized allocated t out
Grown-Sized out full (refused s same why) = stopped (full, why) s same
Grown-Sized {k} out full (grew s v nodes count small given back on) =
    sized (suc k) (inr (small, given)) count s v nodes back on

-- The statements behind the growing.
insert_ready :
    {k : ℕ} {t u : Table} (x : ℕ)
    → IsTable k u
    → u.nodes ≡ t.nodes
    → u.count ≡ t.count
    → ((i y : ℕ) → In u i y → In t i y)
    → ((i y : ℕ) → In t i y → In u i y)
    → let idx = bit_and (hash_of t x) u.mask in Inserts t x (pushed (try_remake u idx) idx x)
insert_ready {k} {t} {u} x v nodes count back on =
    let (w, same, filled) =
      try_remake_lem v idx
        (subst (λ i. i < 2 ^ suc k) (sym at) (mod-lt (hash_of t x) (pow_pos (suc k)))) in
    let at_w : idx ≡ hash_of r x % 2 ^ suc k =
      at ∙ ap (λ ns. (ns x).hash_val % 2 ^ suc k) (sym nodes ∙ sym same.nodes) in
    record {
      depth = k;
      table = pushed-IsTable w x idx at_w filled;
      new_in = (
        idx,
        subst (λ T. T) (sym (In-set r idx (x ∷ bucket_nodes (r.buckets idx)) x)) (inl refl),
      );
      kept = λ i y h.
          let (j, there) = same.kept i y (on i y h) in (j, pushed-In w x idx at_w filled j y there);
      no_other = λ i y h. elim (In-pushed w x idx at_w filled i y h) [
        | inl (_, is) ↦ inl is
        | inr was ↦ let (j, there) = same.no_new i y was in inr (j, back j y there)
      ];
      same_hash =
          λ y. same_hash w x idx at_w filled y ∙ ap (λ ns. (ns y).hash_val) (same.nodes ∙ nodes);
      marked = ap (λ n. n.linked) (update_same r.nodes x (record (r.nodes x) { linked = true }));
      counted = ap (λ n. add32 n 1) (same.count ∙ count);
    }
  where
    idx : ℕ
    idx = bit_and (hash_of t x) u.mask

    r : Table
    r = try_remake u idx

    at : idx ≡ hash_of t x % 2 ^ suc k
    at = masked (hash_of t x) u.mask (suc k) v.size

-- `ns_hashtbl_insert`: of a node that is in a list it says NS_E_EXISTS and does nothing. Of another
-- it says NS_E_NOMEM and does nothing just where the table has to grow and cannot, since it is as
-- large as it may get or there is no memory. Otherwise the node comes in and is counted, the others
-- stay, and each stands where its hash value is looked for.
pub insert_node_lem :
    {k : ℕ} {t : Table} (allocated : Bool) (x : ℕ)
    → IsTable k t
    → Inserted allocated t x (insert_node allocated t x)
unfolding insert_node
insert_node_lem {k} {t} allocated x v =
    if_either Q (t.nodes x).linked _ _ (λ on. already on refl refl) (λ off. placed off ready)
  where
    Q : Status × Table → Type 0
    Q out = Inserted allocated t x out

    out : Status × Table
    out = if is_full t then resize allocated t else (Status.ns_ok, t)

    ready : Sized allocated t out
    ready =
        if_either (λ o. Sized allocated t o) (is_full t) (resize allocated t) (Status.ns_ok, t)
          (λ full. Grown-Sized (resize allocated t) full (resize_lem allocated v))
          (λ room. sized k (inl room) refl refl v refl (λ i y h. h) (λ i y h. h))

    idx : ℕ
    idx = bit_and (hash_of t x) out.1.mask

    placed :
        (t.nodes x).linked ≡ false
        → Sized allocated t out
        → Q (
            if not (is_ok out.0)
            then (out.0, t)
            else (Status.ns_ok, pushed (try_remake out.1 idx) idx x))
    placed off (stopped why s same) =
        subst Q (sym (if_true _ _ (ap (λ c. not (is_ok c)) s))) (no_memory off why s refl)
    placed off (sized j room count s w nodes back on) =
        subst Q (sym (if_false _ _ (ap (λ c. not (is_ok c)) s)))
          (inserted off room refl (insert_ready x w nodes count back on))
