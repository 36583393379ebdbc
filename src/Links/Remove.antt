-- ===== src/Links/Remove.antt =====
-- include/nanosig/nanosig_list.h: nodes that leave a list, and what happens to other lists.
use nanosig.Base.{
  ℕ, ◌≡◌, ◌≢◌, refl, sym, ◌∙◌, ap, subst, true, false, List, [], ◌∷◌, ◌++◌, ==_refl, ne→==, update,
  update_same, update_other, IsFresh, IsDistinct, IsFresh-split,
}
use nanosig.Links.{
  Heap, set_next, set_prev, list_init, list_empty, bypass, list_remove, remove_init, front,
  pop_front,
}
use nanosig.Links.Chain.{last_of, first_of, chain_middle, Touches, flip, link_out}
use nanosig.Links.Ring.{
  IsRing, turn_fresh, IsDistinct-turn, IsFresh-out, IsDistinct-out, IsDistinct-fresh, last_in,
  first_in,
}

-- The neighbours p and n joined, and v in both fields of q.
abbrev pub parted : Heap → ℕ → ℕ → ℕ → ℕ → Heap
parted h q p n v = record {
  next = update (update h.next p n) q v;
  prev = update (update h.prev n p) q v;
}

module _ (h : Heap) (q p n : ℕ) (at_p : h.prev q ≡ p) (at_n : h.next q ≡ n) (not_n : q ≢ n) where
  bypassed : bypass h q ≡ record { next = update h.next p n; prev = update h.prev n p }
  unfolding bypass
  bypassed = rw (at_p, at_n, ne→== q n not_n) refl

  pub removed : list_remove h q ≡ parted h q p n 0
  unfolding list_remove
  removed = ap (λ k. set_prev (set_next k q 0) q 0) bypassed

  pub removed_init : remove_init h q ≡ parted h q p n q
  unfolding remove_init list_init
  removed_init = ap (λ k. set_prev (set_next k q q) q q) bypassed

pub parted-Touches : (h : Heap) (q p n v : ℕ) → Touches h (parted h q p n v) p n q
parted-Touches h q p n v = record {
  nexts = λ x a b. update_other (update h.next p n) q v x b ∙ update_other h.next p n x a;
  prevs = λ x a b. update_other (update h.prev n p) q v x b ∙ update_other h.prev n p x a;
}

module _ {h : Heap} {head : ℕ} (q : ℕ) (ys zs : List ℕ) (r : IsRing h head (ys ++ q ∷ zs)) where
  abbrev p : ℕ
  p = last_of head ys

  abbrev n : ℕ
  n = first_of zs head

  apart : IsFresh q (head ∷ ys ++ zs)
  apart = (
    flip (IsFresh-split head ys (q ∷ zs) r.distinct.0).1.0,
    IsDistinct-fresh q ys zs r.distinct.1,
  )

  not_p : q ≢ p
  not_p = last_in q head ys (apart.0, (IsFresh-split q ys zs apart.1).0)

  pub not_n : q ≢ n
  not_n = first_in q head zs (apart.0, (IsFresh-split q ys zs apart.1).1)

  pub neighbours : (h.next q ≡ n) × (h.prev q ≡ p)
  neighbours = chain_middle h head head q ys zs r.chain

  without : IsDistinct (head ∷ ys ++ zs)
  without = (IsFresh-out head q ys zs r.distinct.0, IsDistinct-out q ys zs r.distinct.1)

  parted-IsRing : (v : ℕ) → IsRing (parted h q p n v) head (ys ++ zs)
  parted-IsRing v = record {
    chain =
        link_out head head ys zs (parted-Touches h q p n v)
          (update_other (update h.next p n) q v p (flip not_p) ∙ update_same h.next p n)
          (update_other (update h.prev n p) q v n (flip not_n) ∙ update_same h.prev n p) without
          (IsDistinct-turn head (ys ++ zs) without) apart (turn_fresh q head (ys ++ zs) apart)
          r.chain;
    distinct = without;
    no_null = (r.no_null.0, IsFresh-out 0 q ys zs r.no_null.1);
  }

  -- `ns_list_remove_init` takes a node of a list out, keeps the order of the others, and leaves the
  -- node as an empty list of its own.
  pub remove_init_lem : IsRing (remove_init h q) head (ys ++ zs) × IsRing (remove_init h q) q []
  remove_init_lem =
      subst (λ k. IsRing k head (ys ++ zs) × IsRing k q [])
        (sym (removed_init h q p n neighbours.1 neighbours.0 not_n))
        (
          parted-IsRing q,
          record {
            chain = (update_same (update h.next p n) q q, update_same (update h.prev n p) q q);
            distinct = (tt, tt);
            no_null = ((IsFresh-split 0 ys (q ∷ zs) r.no_null.1).1.0, tt);
          },
        )

  -- `ns_list_remove` takes it out and sets its fields to NULL.
  pub list_remove_lem :
      IsRing (list_remove h q) head (ys ++ zs)
      × ((list_remove h q).next q ≡ 0)
      × ((list_remove h q).prev q ≡ 0)
  list_remove_lem =
      subst (λ k. IsRing k head (ys ++ zs) × (k.next q ≡ 0) × (k.prev q ≡ 0))
        (sym (removed h q p n neighbours.1 neighbours.0 not_n))
        (parted-IsRing 0, update_same (update h.next p n) q 0, update_same (update h.prev n p) q 0)

-- A list is empty, as `ns_list_empty` tells, just where it has no nodes.
pub list_empty_lem :
    {h : Heap} {head : ℕ} (xs : List ℕ)
    → IsRing h head xs
    → list_empty h head ≡ (elim xs [ [] ↦ true | x ∷ ys ↦ false ])
unfolding list_empty
list_empty_lem {head = head} [] r = rw (r.chain.0) (==_refl head)
list_empty_lem {head = head} (x ∷ ys) r = rw (r.chain.0) (ne→== x head (flip r.distinct.0.0))

-- What `ns_list_pop_front` gives: NULL for an empty list, otherwise the first node, taken out.
abbrev pub Pops : Heap → ℕ → List ℕ → Type 0
Pops h head [] = pop_front h head ≡ (0, h)
Pops h head (x ∷ ys) = (k : Heap) × (pop_front h head ≡ (x, k)) × IsRing k head ys

-- `ns_list_pop_front` of a list gives its first node and leaves the others in order, and of an empty
-- list NULL and no change.
pub pop_front_lem : {h : Heap} {head : ℕ} (xs : List ℕ) → IsRing h head xs → Pops h head xs
unfolding pop_front front
pop_front_lem [] r = rw (list_empty_lem [] r) refl
pop_front_lem {h} (x ∷ ys) r = (
  list_remove h x,
  rw (list_empty_lem (x ∷ ys) r, r.chain.0, ne→== x 0 (flip r.no_null.1.0)) refl,
  (list_remove_lem x [] ys r).0,
)
