-- ===== src/Links/Single.antt =====
-- include/nanosig/nanosig_slist.h: the singly linked lists, as fields of nodes at addresses.
use nanosig.Base.{
  ℕ, ◌≡◌, ◌≢◌, refl, sym, ◌∙◌, ap, subst, Bool, true, false, List, [], ◌∷◌, ◌++◌, if◌then◌else◌,
  if_true, if_false, ◌==◌, ne→==, update, update_same, update_other, IsFresh, IsDistinct,
  IsFresh-append,
}

-- `ns_slist_t` and the `next` field of the node at each address; 0 is NULL.
pub record Slist : Type 0 where
  pub next : ℕ → ℕ
  pub first : ℕ
  pub last : ℕ

pub slist_init : Slist → Slist
slist_init s = record s { first = 0; last = 0 }

-- `ns_slist_head_move_init`: the old list, which is empty then, and the new one.
pub head_move_init : Slist → Slist × Slist
head_move_init s = (slist_init s, s)

pub slist_empty : Slist → Bool
slist_empty s = s.first == 0

pub is_on_list : Slist → ℕ → Bool
is_on_list s node = if s.next node == 0 then false else true

abbrev pub link_next : Slist → ℕ → ℕ → Slist
link_next s node to = record s { next = update s.next node to }

-- The calls that add give back whether the list was empty.
pub slist_push_front : Slist → ℕ → Bool × Slist
slist_push_front s node = (
  s.first == 0,
  record (link_next s node s.first) { first = node; last = if s.last == 0 then node else s.last },
)

-- `ns_slist_add_batch`, of nodes that are linked already.
pub add_batch : Slist → ℕ → ℕ → Bool × Slist
add_batch s new_first new_last = (
  s.first == 0,
  record (link_next s new_last s.first) {
    first = new_first;
    last = if s.first == 0 then new_last else s.last;
  },
)

pub add_batch_tail : Slist → ℕ → ℕ → Bool × Slist
add_batch_tail s new_first new_last =
    let s1 = link_next s new_last 0 in
    (
      s.first == 0,
      if s.last == 0
          then record s1 { first = new_first; last = new_last }
          else record (link_next s1 s.last new_first) { last = new_last },
    )

pub slist_push_back : Slist → ℕ → Bool × Slist
slist_push_back s node =
    let s1 = link_next s node 0 in
    (
      s.first == 0,
      if s.last == 0
          then record s1 { first = node; last = node }
          else record (link_next s1 s.last node) { last = node },
    )

pub slist_insert : Slist → ℕ → ℕ → Slist
slist_insert s prev node =
    let s1 = link_next (link_next s node (s.next prev)) prev node in
    if prev == 0
    then (slist_push_front s node).1
    else record s1 { last = if s1.next node == 0 then node else s.last }

pub slist_pop_front : Slist → ℕ × Slist
slist_pop_front s =
    let node = s.first in
    let rest = s.next node in
    if node == 0 then (0, s) else (
      node,
      record (link_next s node 0) { first = rest; last = if rest == 0 then 0 else s.last },
    )

pub remove_after : Slist → ℕ → ℕ × Slist
remove_after s prev =
    let node = if prev == 0 then s.first else s.next prev in
    let s1 : Slist =
      if prev == 0 then record s { first = s.next node } else link_next s prev (s.next node) in
    let s2 : Slist = record s1 { last = if s.last == node then prev else s.last } in
    if node == 0 then (0, s) else (node, link_next s2 node 0)

-- `ns_slist_del_node_in_for_each_safe` of the list at an address, whose first field is also its
-- `next` as a node.
pub del_in_for_each : ℕ → Slist → ℕ → ℕ → Slist
del_in_for_each list s prev next =
    let s1 : Slist =
      if prev == 0
      then record s { first = next }
      else if prev == list
      then record s { first = next }
      else link_next s prev next in
    if next == 0 then record s1 { last = if s1.first == 0 then 0 else prev } else s1

-- `ns_slist_append_list` of another list over the same nodes, by its first and last node. The other
-- list is empty then.
pub append_list : Slist → ℕ → ℕ → Slist
append_list s other_first other_last =
    if other_first == 0
    then s
    else if slist_empty s
    then record s { first = other_first; last = other_last }
    else record (link_next s s.last other_first) { last = other_last }

-- From an address over the nodes of a list to NULL.
abbrev pub IsRun : (ℕ → ℕ) → ℕ → List ℕ → Type 0
IsRun next a [] = a ≡ 0
IsRun next a (x ∷ xs) = (a ≡ x) × (x ≢ 0) × IsRun next (next x) xs

abbrev pub final_or_null : List ℕ → ℕ
final_or_null [] = 0
final_or_null (x ∷ []) = x
final_or_null (x ∷ y ∷ xs) = final_or_null (y ∷ xs)

-- The list has these nodes, in this order, none twice.
pub record IsSlist (s : Slist) (xs : List ℕ) : Type 0 where
  pub run : IsRun s.next s.first xs
  pub end : s.last ≡ final_or_null xs
  pub distinct : IsDistinct xs

IsRun-update :
    (next : ℕ → ℕ) (node to a : ℕ) (xs : List ℕ)
    → IsFresh node xs
    → IsRun next a xs
    → IsRun (update next node to) a xs
IsRun-update next node to a [] f r = r
IsRun-update next node to a (x ∷ xs) (ne, f) (e, n, r) = (
  e,
  n,
  subst (λ b. IsRun (update next node to) b xs)
      (sym (update_other next node to x (λ k. ne (sym k))))
      (IsRun-update next node to (next x) xs f r),
)

final_fresh : (z x : ℕ) (xs : List ℕ) → IsFresh z (x ∷ xs) → z ≢ final_or_null (x ∷ xs)
final_fresh z x [] f = f.0
final_fresh z x (y ∷ xs) f = final_fresh z y xs f.1

final_some :
    (next : ℕ → ℕ) (a x : ℕ) (xs : List ℕ) → IsRun next a (x ∷ xs) → final_or_null (x ∷ xs) ≢ 0
final_some next a x [] r = r.1
final_some next a x (y ∷ xs) r = final_some next (next x) y xs r.2

-- The node behind the last one.
IsRun-behind :
    (next : ℕ → ℕ) (node a x : ℕ) (xs : List ℕ)
    → node ≢ 0
    → IsFresh node (x ∷ xs)
    → IsDistinct (x ∷ xs)
    → IsRun next a (x ∷ xs)
    → IsRun (update (update next node 0) (final_or_null (x ∷ xs)) node) a (x ∷ xs ++ node ∷ [])
IsRun-behind next node a x [] nz f d (e, n, r) = (
  e,
  n,
  (
    update_same (update next node 0) x node,
    nz,
    update_other (update next node 0) x node node f.0 ∙ update_same next node 0,
  ),
)
IsRun-behind next node a x (y ∷ xs) nz f d (e, n, r) =
    let l : ℕ = final_or_null (y ∷ xs) in
    (
      e,
      n,
      subst (λ b. IsRun (update (update next node 0) l node) b (y ∷ xs ++ node ∷ []))
          (sym (
            update_other (update next node 0) l node x (final_fresh x y xs d.0)
            ∙ update_other next node 0 x (λ k. f.0 (sym k))))
          (IsRun-behind next node (next x) y xs nz f.1 d.1 r),
    )

distinct_behind :
    (node : ℕ) (xs : List ℕ) → IsFresh node xs → IsDistinct xs → IsDistinct (xs ++ node ∷ [])
distinct_behind node [] f d = (tt, tt)
distinct_behind node (x ∷ xs) (ne, f) (fx, d) =
    (IsFresh-append x xs (node ∷ []) fx (λ k. ne (sym k), tt), distinct_behind node xs f d)

final_behind : (xs : List ℕ) (node : ℕ) → final_or_null (xs ++ node ∷ []) ≡ node
final_behind [] node = refl
final_behind (x ∷ []) node = refl
final_behind (x ∷ y ∷ xs) node = final_behind (y ∷ xs) node

abbrev pub is_none_left : List ℕ → Bool
is_none_left [] = true
is_none_left (x ∷ xs) = false

first_null : (next : ℕ → ℕ) (a : ℕ) (xs : List ℕ) → IsRun next a xs → (a == 0) ≡ is_none_left xs
first_null next a [] r = subst (λ b. (b == 0) ≡ true) (sym r) refl
first_null next a (x ∷ xs) (e, n, r) = ne→== a 0 (λ z. n (sym e ∙ z))

-- A node that is not NULL and not in the list comes last, and the call says whether it is alone.
pub slist_push_back_lem :
    (s : Slist) (node : ℕ) (xs : List ℕ)
    → IsSlist s xs
    → node ≢ 0
    → IsFresh node xs
    → ((slist_push_back s node).0 ≡ is_none_left xs)
      × IsSlist (slist_push_back s node).1 (xs ++ node ∷ [])
unfolding slist_push_back
slist_push_back_lem s node [] v nz f = (
  first_null s.next s.first [] v.run,
  subst (λ q. IsSlist q (node ∷ [])) (sym (if_true _ _ (ap (λ l. l == 0) v.end)))
      (record { run = (refl, nz, update_same s.next node 0); end = refl; distinct = (tt, tt) }),
)
slist_push_back_lem s node (x ∷ xs) v nz f = (
  first_null s.next s.first (x ∷ xs) v.run,
  subst (λ q. IsSlist q (x ∷ xs ++ node ∷ []))
      (sym
        (if_false _ _ (ne→== s.last 0 (λ z. final_some s.next s.first x xs v.run (sym v.end ∙ z)))))
      (record {
        run =
            subst (λ l. IsRun (update (update s.next node 0) l node) s.first (x ∷ xs ++ node ∷ []))
              (sym v.end) (IsRun-behind s.next node s.first x xs nz f v.distinct v.run);
        end = sym (final_behind (x ∷ xs) node);
        distinct = distinct_behind node (x ∷ xs) f v.distinct;
      }),
)

-- The first node comes out, is linked to nothing, and the others stay; of an empty list NULL.
pub slist_pop_front_lem :
    (s : Slist) (x : ℕ) (xs : List ℕ)
    → IsSlist s (x ∷ xs)
    → ((slist_pop_front s).0 ≡ x)
      × IsSlist (slist_pop_front s).1 xs
      × ((slist_pop_front s).1.next x ≡ 0)
unfolding slist_pop_front
slist_pop_front_lem s x xs v =
    subst Popped (sym (if_false _ _ (first_null s.next s.first (x ∷ xs) v.run))) (
      v.run.0,
      record {
        run =
            IsRun-update s.next s.first 0 (s.next s.first) xs
              (subst (λ a. IsFresh a xs) (sym v.run.0) v.distinct.0)
              (subst (λ a. IsRun s.next (s.next a) xs) (sym v.run.0) v.run.2);
        end = ends xs (subst (λ a. IsRun s.next (s.next a) xs) (sym v.run.0) v.run.2) v.end;
        distinct = v.distinct.1;
      },
      subst (λ a. update s.next s.first 0 a ≡ 0) v.run.0 (update_same s.next s.first 0),
    )
  where
    Popped : ℕ × Slist → Type 0
    Popped q = (q.0 ≡ x) × IsSlist q.1 xs × (q.1.next x ≡ 0)

    ends :
        (ys : List ℕ)
        → IsRun s.next (s.next s.first) ys
        → s.last ≡ final_or_null (x ∷ ys)
        → (if s.next s.first == 0 then 0 else s.last) ≡ final_or_null ys
    ends [] r e = if_true _ _ (first_null s.next (s.next s.first) [] r)
    ends (y ∷ ys) r e = if_false _ _ (first_null s.next (s.next s.first) (y ∷ ys) r) ∙ e

pub slist_push_front_lem :
    (s : Slist) (node : ℕ) (xs : List ℕ)
    → IsSlist s xs
    → node ≢ 0
    → IsFresh node xs
    → ((slist_push_front s node).0 ≡ is_none_left xs)
      × IsSlist (slist_push_front s node).1 (node ∷ xs)
unfolding slist_push_front
slist_push_front_lem s node xs v nz f = (
  first_null s.next s.first xs v.run,
  record {
    run = (
      refl,
      nz,
      subst (λ b. IsRun (update s.next node s.first) b xs) (sym (update_same s.next node s.first))
          (IsRun-update s.next node s.first s.first xs f v.run),
    );
    end = ends xs v.run v.end;
    distinct = (f, v.distinct);
  },
)
  where
    ends :
        (ys : List ℕ)
        → IsRun s.next s.first ys
        → s.last ≡ final_or_null ys
        → (if s.last == 0 then node else s.last) ≡ final_or_null (node ∷ ys)
    ends [] r e = if_true _ _ (ap (λ l. l == 0) e)
    ends (y ∷ ys) r e =
        if_false _ _ (ne→== s.last 0 (λ z. final_some s.next s.first y ys r (sym e ∙ z))) ∙ e
