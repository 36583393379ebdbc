-- ===== src/Links/Ring.antt =====
-- include/nanosig/nanosig_list.h: a list as a ring about its head, and the operations on it.
use nanosig.Base.{
  ℕ, ◌≡◌, ◌≢◌, sym, ◌∙◌, subst, List, [], ◌∷◌, ◌++◌, append-nil, update, update_same, update_other,
  IsFresh, IsDistinct, IsFresh-append, IsFresh-split,
}
use nanosig.Links.{Heap, insert_between, push_front, push_back}
use nanosig.Links.Chain.{
  IsChain, last_of, first_of, chain_first, chain_last, Touches, flip, link_in,
}

-- The list of a head: these nodes in order, all different, and none at NULL.
pub record IsRing (h : Heap) (head : ℕ) (xs : List ℕ) : Type 0 where
  pub chain : IsChain h head xs head
  pub distinct : IsDistinct (head ∷ xs)
  pub no_null : IsFresh 0 (head ∷ xs)

pub turn_fresh : (q a : ℕ) (xs : List ℕ) → IsFresh q (a ∷ xs) → IsFresh q (xs ++ a ∷ [])
turn_fresh q a xs f = IsFresh-append q xs (a ∷ []) f.1 (f.0, tt)

pub IsDistinct-turn : (a : ℕ) (xs : List ℕ) → IsDistinct (a ∷ xs) → IsDistinct (xs ++ a ∷ [])
IsDistinct-turn a [] d = (tt, tt)
IsDistinct-turn a (x ∷ xs) (f, (fx, d)) =
    (IsFresh-append x xs (a ∷ []) fx (flip f.0, tt), IsDistinct-turn a xs (f.1, d))

pub IsFresh-out : (y x : ℕ) (ys zs : List ℕ) → IsFresh y (ys ++ x ∷ zs) → IsFresh y (ys ++ zs)
IsFresh-out y x ys zs f = let (a, b) = IsFresh-split y ys (x ∷ zs) f in IsFresh-append y ys zs a b.1

pub IsDistinct-out : (x : ℕ) (ys zs : List ℕ) → IsDistinct (ys ++ x ∷ zs) → IsDistinct (ys ++ zs)
IsDistinct-out x [] zs d = d.1
IsDistinct-out x (y ∷ ys) zs d = (IsFresh-out y x ys zs d.0, IsDistinct-out x ys zs d.1)

pub IsDistinct-fresh : (x : ℕ) (ys zs : List ℕ) → IsDistinct (ys ++ x ∷ zs) → IsFresh x (ys ++ zs)
IsDistinct-fresh x [] zs d = d.0
IsDistinct-fresh x (y ∷ ys) zs d =
    (flip (IsFresh-split y ys (x ∷ zs) d.0).1.0, IsDistinct-fresh x ys zs d.1)

IsDistinct-in :
    (x : ℕ) (ys zs : List ℕ)
    → IsFresh x (ys ++ zs)
    → IsDistinct (ys ++ zs)
    → IsDistinct (ys ++ x ∷ zs)
IsDistinct-in x [] zs f d = (f, d)
IsDistinct-in x (y ∷ ys) zs f d =
    let (a, b) = IsFresh-split y ys zs d.0 in
    (IsFresh-append y ys (x ∷ zs) a (flip f.0, b), IsDistinct-in x ys zs f.1 d.1)

pub last_in : (q a : ℕ) (xs : List ℕ) → IsFresh q (a ∷ xs) → q ≢ last_of a xs
last_in q a [] f = f.0
last_in q a (x ∷ xs) f = last_in q x xs f.1

pub first_in : (q b : ℕ) (xs : List ℕ) → IsFresh q (b ∷ xs) → q ≢ first_of xs b
first_in q b [] f = f.0
first_in q b (x ∷ xs) f = f.1.0

-- The four writes of `ns_list_insert_between`.
module _ (h : Heap) (q p n : ℕ) (not_p : q ≢ p) (not_n : q ≢ n) where
  pub insert_between-Touches : Touches h (insert_between h q p n) p n q
  unfolding insert_between
  insert_between-Touches = record {
    nexts = λ x a b. update_other (update h.next q n) p q x a ∙ update_other h.next q n x b;
    prevs = λ x a b. update_other (update h.prev n q) q p x b ∙ update_other h.prev n q x a;
  }

  inserted :
      ((insert_between h q p n).next p ≡ q)
      × ((insert_between h q p n).prev n ≡ q)
      × ((insert_between h q p n).next q ≡ n)
      × ((insert_between h q p n).prev q ≡ p)
  unfolding insert_between
  inserted = (
    update_same (update h.next q n) p q,
    update_other (update h.prev n q) q p n (flip not_n) ∙ update_same h.prev n q,
    update_other (update h.next q n) p q q not_p ∙ update_same h.next q n,
    update_same (update h.prev n q) q p,
  )

-- A node that is in no list comes in between two neighbours.
insert_between_lem :
    {h : Heap} {head : ℕ} (q : ℕ) (ys zs : List ℕ)
    → IsRing h head (ys ++ zs)
    → q ≢ 0
    → IsFresh q (head ∷ ys ++ zs)
    → IsRing (insert_between h q (last_of head ys) (first_of zs head)) head (ys ++ q ∷ zs)
insert_between_lem {h} {head} q ys zs r q0 f =
    let (fy, fz) = IsFresh-split q ys zs f.1 in
    let not_p = last_in q head ys (f.0, fy) in
    let not_n = first_in q head zs (f.0, fz) in
    let (pn, np, qn, qp) = inserted h q (last_of head ys) (first_of zs head) not_p not_n in
    record {
      chain =
          link_in head head ys zs
            (insert_between-Touches h q (last_of head ys) (first_of zs head) not_p not_n) pn np qn
            qp r.distinct (IsDistinct-turn head (ys ++ zs) r.distinct) f
            (turn_fresh q head (ys ++ zs) f) r.chain;
      distinct =
          let (a, b) = IsFresh-split head ys zs r.distinct.0 in
          (IsFresh-append head ys (q ∷ zs) a (flip f.0, b), IsDistinct-in q ys zs f.1 r.distinct.1);
      no_null =
          let (a, b) = IsFresh-split 0 ys zs r.no_null.1 in
          (r.no_null.0, IsFresh-append 0 ys (q ∷ zs) a (flip q0, b));
    }

-- `ns_list_push_back` puts a node that the list does not have behind all of its nodes.
pub push_back_lem :
    {h : Heap} {head : ℕ} {xs : List ℕ} (q : ℕ)
    → IsRing h head xs
    → q ≢ 0
    → IsFresh q (head ∷ xs)
    → IsRing (push_back h head q) head (xs ++ q ∷ [])
unfolding push_back
push_back_lem {h} {head} {xs} q r q0 f =
    let all : xs ++ [] ≡ xs = append-nil xs in
    subst (λ p. IsRing (insert_between h q p head) head (xs ++ q ∷ []))
      (sym (chain_last h head head xs r.chain))
      (insert_between_lem q xs [] (subst (IsRing h head) (sym all) r) q0
        (subst (λ l. IsFresh q (head ∷ l)) (sym all) f))

-- `ns_list_push_front` puts it in front of them.
pub push_front_lem :
    {h : Heap} {head : ℕ} {xs : List ℕ} (q : ℕ)
    → IsRing h head xs
    → q ≢ 0
    → IsFresh q (head ∷ xs)
    → IsRing (push_front h head q) head (q ∷ xs)
unfolding push_front
push_front_lem {h} {head} {xs} q r q0 f =
    subst (λ n. IsRing (insert_between h q head n) head (q ∷ xs))
      (sym (chain_first h head head xs r.chain)) (insert_between_lem q [] xs r q0 f)
