-- ===== src/Links/Apart.antt =====
-- include/nanosig/nanosig_list.h: an operation on one list leaves the lists without its nodes alone.
use nanosig.Base.{
  ne→==, refl, ap, ◌∙◌, ◌≡◌, ==_refl, update_other, update_same, ℕ, ◌≢◌, sym, subst, List, [], ◌∷◌,
  ◌++◌, IsFresh,
}
use nanosig.Links.{
  Heap, list_init, bypass, insert_between, push_back, remove_init, pop_front, front,
}
use nanosig.Links.Chain.{last_of, first_of, Touches, flip, IsChain-other, chain_last}
use nanosig.Links.Ring.{IsRing, turn_fresh, insert_between-Touches, last_in}
use nanosig.Links.Remove.{parted-Touches, removed, removed_init, neighbours, not_n, list_empty_lem}

-- No node of the first list is one of the second.
abbrev pub IsApart : List ℕ → List ℕ → Type 0
IsApart [] ys = Unit {0}
IsApart (x ∷ xs) ys = IsFresh x ys × IsApart xs ys

last_apart : (a : ℕ) (xs zs ws : List ℕ) → IsApart (a ∷ xs ++ zs) ws → IsFresh (last_of a xs) ws
last_apart a [] zs ws f = f.0
last_apart a (x ∷ xs) zs ws f = last_apart x xs zs ws f.1

first_apart :
    (b q : ℕ) (ys zs ws : List ℕ)
    → IsFresh b ws
    → IsApart (ys ++ q ∷ zs) ws
    → IsFresh (first_of zs b) ws
first_apart b q [] [] ws fb f = fb
first_apart b q [] (z ∷ zs) ws fb f = f.1.0
first_apart b q (y ∷ ys) zs ws fb f = first_apart b q ys zs ws fb f.1

middle_apart : (q : ℕ) (ys zs ws : List ℕ) → IsApart (ys ++ q ∷ zs) ws → IsFresh q ws
middle_apart q [] zs ws f = f.0
middle_apart q (y ∷ ys) zs ws f = middle_apart q ys zs ws f.1

IsRing-other :
    {h k : Heap} {p n q : ℕ} (t : Touches h k p n q) {o : ℕ} {ws : List ℕ}
    → IsFresh p (o ∷ ws)
    → IsFresh n (o ∷ ws)
    → IsFresh q (o ∷ ws)
    → IsRing h o ws
    → IsRing k o ws
IsRing-other {n = n} {q = q} t {o} {ws} fp fn fq r = record {
  chain = IsChain-other t o o ws fp fq (turn_fresh n o ws fn) (turn_fresh q o ws fq) r.chain;
  distinct = r.distinct;
  no_null = r.no_null;
}

-- `ns_list_push_back` on one list leaves any other list as it was.
pub push_back_other :
    {h : Heap} {head : ℕ} {xs : List ℕ} (q : ℕ) {o : ℕ} {ws : List ℕ}
    → IsRing h head xs
    → IsFresh q (head ∷ xs)
    → IsApart (head ∷ xs ++ []) (o ∷ ws)
    → IsFresh q (o ∷ ws)
    → IsRing h o ws
    → IsRing (push_back h head q) o ws
unfolding push_back
push_back_other {h} {head} {xs} q {o} {ws} r f a fq other =
    subst (λ p. IsRing (insert_between h q p head) o ws) (sym (chain_last h head head xs r.chain))
      (IsRing-other (insert_between-Touches h q (last_of head xs) head (last_in q head xs f) f.0)
        (last_apart head xs [] (o ∷ ws) a) a.0 fq other)

-- So does `ns_list_remove_init`.
pub remove_init_other :
    {h : Heap} {head : ℕ} (q : ℕ) (ys zs : List ℕ) {o : ℕ} {ws : List ℕ}
    → IsRing h head (ys ++ q ∷ zs)
    → IsApart (head ∷ ys ++ q ∷ zs) (o ∷ ws)
    → IsRing h o ws
    → IsRing (remove_init h q) o ws
remove_init_other {h} {head} q ys zs {o} {ws} r a other =
    subst (λ k. IsRing k o ws)
      (sym (
        removed_init h q (last_of head ys) (first_of zs head) (neighbours q ys zs r).1
          (neighbours q ys zs r).0 (not_n q ys zs r)))
      (IsRing-other (parted-Touches h q (last_of head ys) (first_of zs head) q)
        (last_apart head ys (q ∷ zs) (o ∷ ws) a) (first_apart head q ys zs (o ∷ ws) a.0 a.1)
        (middle_apart q ys zs (o ∷ ws) a.1) other)

-- And `ns_list_pop_front`.
pub pop_front_other :
    {h k : Heap} {head q : ℕ} {zs : List ℕ} {o : ℕ} {ws : List ℕ}
    → IsRing h head (q ∷ zs)
    → IsApart (head ∷ q ∷ zs) (o ∷ ws)
    → IsRing h o ws
    → pop_front h head ≡ (q, k)
    → IsRing k o ws
unfolding pop_front front
pop_front_other {h} {k} {head} {q} {zs} {o} {ws} r a other popped =
    subst (λ j. IsRing j o ws)
      (sym (removed h q head (first_of zs head) near.1 near.0 (not_n q [] zs r))
        ∙ sym (rw (list_empty_lem (q ∷ zs) r, r.chain.0, ne→== q 0 (flip r.no_null.1.0)) refl)
        ∙ ap (λ out. out.1) popped)
      (IsRing-other (parted-Touches h q head (first_of zs head) 0) a.0
        (first_apart head q [] zs (o ∷ ws) a.0 a.1) a.1.0 other)
  where
    near : (h.next q ≡ first_of zs head) × (h.prev q ≡ head)
    near = neighbours q [] zs r

pub IsApart-one : (o : ℕ) (ys : List ℕ) → IsFresh o ys → IsApart ys (o ∷ [])
IsApart-one o [] f = tt
IsApart-one o (y ∷ ys) (ne, f) = ((flip ne, tt), IsApart-one o ys f)

-- A node that is its own neighbour stays so.
bypass_alone : {h : Heap} (q : ℕ) → IsRing h q [] → Touches h (bypass h q) q q q
unfolding bypass
bypass_alone {h} q alone =
    rw (alone.chain.0, alone.chain.1, ==_refl q)
      (record {
        nexts = λ x a b. update_other h.next q q x a;
        prevs = λ x a b. update_other h.prev q q x a;
      })

-- A node that is set up as an empty list leaves the lists that do not have it alone.
pub list_init_other :
    {h : Heap} (q : ℕ) {o : ℕ} {ws : List ℕ}
    → IsFresh q (o ∷ ws)
    → IsRing h o ws
    → IsRing (list_init h q) o ws
unfolding list_init
list_init_other {h} q f r =
    IsRing-other
      (record {
        nexts = λ x a b. update_other h.next q q x a;
        prevs = λ x a b. update_other h.prev q q x a;
      })
      f f f r

pub list_init_lem : (h : Heap) (q : ℕ) → q ≢ 0 → IsRing (list_init h q) q []
unfolding list_init
list_init_lem h q named = record {
  chain = (update_same h.next q q, update_same h.prev q q);
  distinct = (tt, tt);
  no_null = (flip named, tt);
}

-- `ns_list_remove_init` of a node that is in no list leaves every list as it was.
pub remove_init_alone :
    {h : Heap} (q : ℕ) {o : ℕ} {ws : List ℕ}
    → IsRing h q []
    → IsFresh q (o ∷ ws)
    → IsRing h o ws
    → IsRing (remove_init h q) o ws
unfolding remove_init list_init
remove_init_alone {h} q alone f r =
    list_init_other q f (IsRing-other (bypass_alone q alone) f f f r)
