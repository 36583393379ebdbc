-- ===== src/Hash/Find.antt =====
-- src/ds/ns_hashtbl.c: `ns_hashtbl_find` finds the nodes of a key.
use Prim.Native.Nat.{bit_and}
use nanosig.Base.{
  Among, ℕ, suc, ◌%◌, ◌^◌, ◌<◌, ◌≡◌, refl, sym, ◌∙◌, ap, ap₂, subst, inl, inr, Bool, true, false,
  ◌&&◌, Option, some, none, List, [], ◌∷◌, if◌then◌else◌, if_true, if_false, Bool-cases, ==→eq,
  ◌==◌, arith, Bytes, length, take, Status,
}
use native.Mathlib.Nat.{mod-lt}
use nanosig.Hash.{
  Table, need_remake, bucket_nodes, fnv1a, try_remake, bytes_equal, has_key, find_in, found_or,
  find,
}
use nanosig.Hash.Home.{home, home_filled, masked, pow_pos}
use nanosig.Hash.Bucket.{In}
use nanosig.Hash.Move.{hash_of}
use nanosig.Hash.Remake.{IsTable, IsSame, try_remake_lem}

-- Each node of the table has the hash value of its key.
abbrev pub IsHashed : Table → Type 0
IsHashed t = (i x : ℕ) → In t i x → hash_of t x ≡ fnv1a (take (t.nodes x).key_len (t.nodes x).kv)

both : (a b : Bool) → (a && b) ≡ true → (a ≡ true) × (b ≡ true)
both true b h = (refl, h)
both false b h = absurd (omega (arith, ap {B = ℕ} (λ b. if b then 1 else 0) h))

bytes_equal_lem : (xs ys : Bytes) → bytes_equal xs ys ≡ true → xs ≡ ys
unfolding bytes_equal
bytes_equal_lem [] [] h = refl
bytes_equal_lem [] (y ∷ ys) h = absurd (omega (arith, ap {B = ℕ} (λ b. if b then 1 else 0) h))
bytes_equal_lem (x ∷ xs) [] h = absurd (omega (arith, ap {B = ℕ} (λ b. if b then 1 else 0) h))
bytes_equal_lem (x ∷ xs) (y ∷ ys) h =
    let (a, b) = both (x == y) (bytes_equal xs ys) h in
    ap₂ (λ c cs. c ∷ cs) (==→eq x y a) (bytes_equal_lem xs ys b)

-- What the search in a list of nodes gives.
abbrev Search : Table → Bytes → List ℕ → Option ℕ → Type 0
Search t key xs none = (x : ℕ) → Among x xs → has_key t key x ≡ false
Search t key xs (some x) = Among x xs × (has_key t key x ≡ true)

find_in_lem : (t : Table) (key : Bytes) (xs : List ℕ) → Search t key xs (find_in t key xs)
unfolding find_in
find_in_lem t key [] = λ x h. absurd h
find_in_lem t key (x ∷ xs) = elim (Bool-cases (has_key t key x)) [
  | inl e ↦ subst (Search t key (x ∷ xs)) (sym (if_true _ _ e)) (inl refl, e)
  | inr e ↦
      subst (Search t key (x ∷ xs)) (sym (if_false _ _ e))
        (later (find_in t key xs) e (find_in_lem t key xs))
]
  where
    later : (o : Option ℕ) → has_key t key x ≡ false → Search t key xs o → Search t key (x ∷ xs) o
    later none e h =
        λ y at. elim at [ inl is ↦ ap (has_key t key) is ∙ e | inr behind ↦ h y behind ]
    later (some y) e (there, has) = (inr there, has)

-- A node with the key has the key's hash value.
has_key_hash :
    (t : Table) (key : Bytes) (x : ℕ)
    → has_key t key x ≡ true
    → fnv1a (take (t.nodes x).key_len (t.nodes x).kv) ≡ fnv1a key
unfolding has_key
has_key_hash t key x h =
    let (a, b) = both ((t.nodes x).key_len == length key) _ h in
    ap (λ n. fnv1a (take n (t.nodes x).kv)) (==→eq (t.nodes x).key_len (length key) a)
    ∙ ap fnv1a (bytes_equal_lem (take (length key) (t.nodes x).kv) key b)

same_key :
    (t u : Table) (key : Bytes) (x : ℕ) → u.nodes ≡ t.nodes → has_key u key x ≡ has_key t key x
unfolding has_key
same_key t u key x e =
    ap (λ ns. (ns x).key_len == length key && bytes_equal (take (length key) (ns x).kv) key) e

-- What `ns_hashtbl_find` gives: a node of the table with the key, or that no node has it.
pub data Finds (t : Table) (key : Bytes) (out : Status × Option ℕ × Table) : Type 0 where
  found :
      (x j : ℕ)
      → out.0 ≡ Status.ns_ok
      → out.1 ≡ some x
      → In t j x
      → has_key t key x ≡ true
      → Finds t key out
  missing :
      out.0 ≡ Status.empty
      → out.1 ≡ none
      → ((j x : ℕ) → In t j x → has_key t key x ≡ false)
      → Finds t key out

-- `ns_hashtbl_find` finds a node with the key just where the table has one, and says NS_E_EMPTY
-- otherwise. The table keeps its nodes, each where its hash value is looked for.
pub find_lem :
    {k : ℕ} {t : Table} (key : Bytes)
    → IsTable k t
    → IsHashed t
    → Finds t key (find t key) × IsTable k (find t key).2 × IsSame t (find t key).2
unfolding find
find_lem {k} {t} key v hashed =
    let small : idx < 2 ^ suc k =
      subst (λ i. i < 2 ^ suc k) (sym at_idx) (mod-lt (fnv1a key) (pow_pos (suc k))) in
    let (w, same, filled) = try_remake_lem v idx small in
    answered w same filled _ (find_in_lem u key (bucket_nodes (u.buckets idx)))
  where
    idx : ℕ
    idx = bit_and (fnv1a key) t.mask

    u : Table
    u = try_remake t idx

    at_idx : idx ≡ fnv1a key % 2 ^ suc k
    at_idx = masked (fnv1a key) t.mask (suc k) v.size

    -- A node with the key stands in the bucket that is searched.
    in_bucket :
        IsTable k u
        → IsSame t u
        → need_remake u idx ≡ false
        → (j x : ℕ) → In t j x
        → has_key t key x ≡ true
        → In u idx x
    in_bucket w same filled j x h has =
        let (i, there) = same.kept j x h in
        let value : hash_of u x ≡ fnv1a key =
          ap (λ ns. (ns x).hash_val) same.nodes ∙ hashed j x h ∙ has_key_hash t key x has in
        let at : home u (suc k) (hash_of u x) ≡ idx =
          home_filled u k (hash_of u x)
            (ap (need_remake u) (ap (λ n. n % 2 ^ suc k) value ∙ sym at_idx) ∙ filled)
          ∙ ap (λ n. n % 2 ^ suc k) value
          ∙ sym at_idx in
        subst (λ b. In u b x) (sym (w.at_home i x there) ∙ at) there

    answered :
        IsTable k u
        → IsSame t u
        → need_remake u idx ≡ false
        → (o : Option ℕ) → Search u key (bucket_nodes (u.buckets idx)) o
        → Finds t key (found_or u o) × IsTable k (found_or u o).2 × IsSame t (found_or u o).2
    answered w same filled none none_has = (
      missing refl refl (λ j x h. elim (Bool-cases (has_key t key x)) [
        | inr e ↦ e
        | inl has ↦
            sym (same_key t u key x same.nodes) ∙ none_has x (in_bucket w same filled j x h has)
      ]),
      w,
      same,
    )
    answered w same filled (some x) (there, has) =
        let (j, was) = same.no_new idx x there in
        (found x j refl refl was (sym (same_key t u key x same.nodes) ∙ has), w, same)
