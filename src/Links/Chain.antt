-- ===== src/Links/Chain.antt =====
-- include/nanosig/nanosig_list.h: chains of nodes, and what the writes of an operation do to them.
use nanosig.Base.{ℕ, ◌≡◌, ◌≢◌, sym, ◌∙◌, List, [], ◌∷◌, ◌++◌, IsFresh, IsDistinct}
use nanosig.Links.{Heap}

-- From a, over the nodes xs, to b: each `next` goes to the node behind, each `prev` to the one in
-- front. The `next` of a and of xs counts, and the `prev` of xs and of b.
abbrev pub IsChain : Heap → ℕ → List ℕ → ℕ → Type 0
IsChain h a [] b = (h.next a ≡ b) × (h.prev b ≡ a)
IsChain h a (x ∷ xs) b = (h.next a ≡ x) × (h.prev x ≡ a) × IsChain h x xs b

abbrev pub last_of : ℕ → List ℕ → ℕ
last_of a [] = a
last_of a (x ∷ xs) = last_of x xs

abbrev pub first_of : List ℕ → ℕ → ℕ
first_of [] b = b
first_of (x ∷ xs) b = x

pub chain_first : (h : Heap) (a b : ℕ) (xs : List ℕ) → IsChain h a xs b → h.next a ≡ first_of xs b
chain_first h a b [] c = c.0
chain_first h a b (x ∷ xs) c = c.0

pub chain_last : (h : Heap) (a b : ℕ) (xs : List ℕ) → IsChain h a xs b → h.prev b ≡ last_of a xs
chain_last h a b [] c = c.1
chain_last h a b (x ∷ xs) c = chain_last h x b xs c.2

-- A node in the middle has its neighbours' addresses.
pub chain_middle :
    (h : Heap) (a b x : ℕ) (ys zs : List ℕ)
    → IsChain h a (ys ++ x ∷ zs) b
    → (h.next x ≡ first_of zs b) × (h.prev x ≡ last_of a ys)
chain_middle h a b x [] zs c = (chain_first h x b zs c.2, c.1)
chain_middle h a b x (y ∷ ys) zs c = chain_middle h y b x ys zs c.2

-- The heap k differs from h in the `next` of p, the `prev` of n, and the fields of q at most.
pub record Touches (h k : Heap) (p n q : ℕ) : Type 0 where
  pub nexts : (x : ℕ) → x ≢ p → x ≢ q → k.next x ≡ h.next x
  pub prevs : (x : ℕ) → x ≢ n → x ≢ q → k.prev x ≡ h.prev x

pub flip : {x y : ℕ} → x ≢ y → y ≢ x
flip n e = n (sym e)

pub last_fresh : (a y : ℕ) (ys zs : List ℕ) → IsFresh a (y ∷ ys ++ zs) → a ≢ last_of y ys
last_fresh a y [] zs f = f.0
last_fresh a y (x ∷ xs) zs f = last_fresh a x xs zs f.1

pub first_fresh : (y b : ℕ) (ys zs : List ℕ) → IsFresh y ((ys ++ zs) ++ b ∷ []) → y ≢ first_of zs b
first_fresh y b [] [] f = f.0
first_fresh y b [] (z ∷ zs) f = f.0
first_fresh y b (x ∷ xs) zs f = first_fresh y b xs zs f.1

module _ {h k : Heap} {p n q : ℕ} (t : Touches h k p n q) where
  -- A chain without the nodes that are touched stays.
  pub IsChain-other :
      (a b : ℕ) (xs : List ℕ)
      → IsFresh p (a ∷ xs)
      → IsFresh q (a ∷ xs)
      → IsFresh n (xs ++ b ∷ [])
      → IsFresh q (xs ++ b ∷ [])
      → IsChain h a xs b
      → IsChain k a xs b
  IsChain-other a b [] fp fq fn gq c =
      (t.nexts a (flip fp.0) (flip fq.0) ∙ c.0, t.prevs b (flip fn.0) (flip gq.0) ∙ c.1)
  IsChain-other a b (x ∷ xs) fp fq fn gq c = (
    t.nexts a (flip fp.0) (flip fq.0) ∙ c.0,
    t.prevs x (flip fn.0) (flip gq.0) ∙ c.1,
    IsChain-other x b xs fp.1 fq.1 fn.1 gq.1 c.2,
  )

-- q comes in between ys and zs.
pub link_in :
    {h k : Heap} {q : ℕ} (b a : ℕ) (ys zs : List ℕ)
    → Touches h k (last_of a ys) (first_of zs b) q
    → k.next (last_of a ys) ≡ q
    → k.prev (first_of zs b) ≡ q
    → k.next q ≡ first_of zs b
    → k.prev q ≡ last_of a ys
    → IsDistinct (a ∷ ys ++ zs)
    → IsDistinct ((ys ++ zs) ++ b ∷ [])
    → IsFresh q (a ∷ ys ++ zs)
    → IsFresh q ((ys ++ zs) ++ b ∷ [])
    → IsChain h a (ys ++ zs) b
    → IsChain k a (ys ++ q ∷ zs) b
link_in b a [] [] t pn np qn qp da db fq gq c = (pn, qp, (qn, np))
link_in b a [] (z ∷ zs) t pn np qn qp da db fq gq c =
    (pn, qp, (qn, np, IsChain-other t z b zs da.0 fq.1 db.0 gq.1 c.2))
link_in b a (y ∷ ys) zs t pn np qn qp da db fq gq c = (
  t.nexts a (last_fresh a y ys zs da.0) (flip fq.0) ∙ c.0,
  t.prevs y (first_fresh y b ys zs db.0) (flip gq.0) ∙ c.1,
  link_in b y ys zs t pn np qn qp da.1 db.1 fq.1 gq.1 c.2,
)

-- q goes out from between ys and zs.
pub link_out :
    {h k : Heap} {q : ℕ} (b a : ℕ) (ys zs : List ℕ)
    → Touches h k (last_of a ys) (first_of zs b) q
    → k.next (last_of a ys) ≡ first_of zs b
    → k.prev (first_of zs b) ≡ last_of a ys
    → IsDistinct (a ∷ ys ++ zs)
    → IsDistinct ((ys ++ zs) ++ b ∷ [])
    → IsFresh q (a ∷ ys ++ zs)
    → IsFresh q ((ys ++ zs) ++ b ∷ [])
    → IsChain h a (ys ++ q ∷ zs) b
    → IsChain k a (ys ++ zs) b
link_out b a [] [] t pn np da db fq gq c = (pn, np)
link_out b a [] (z ∷ zs) t pn np da db fq gq c =
    (pn, np, IsChain-other t z b zs da.0 fq.1 db.0 gq.1 c.2.2)
link_out b a (y ∷ ys) zs t pn np da db fq gq c = (
  t.nexts a (last_fresh a y ys zs da.0) (flip fq.0) ∙ c.0,
  t.prevs y (first_fresh y b ys zs db.0) (flip gq.0) ∙ c.1,
  link_out b y ys zs t pn np da.1 db.1 fq.1 gq.1 c.2,
)
