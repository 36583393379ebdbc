-- ===== src/Hash/Lifetime.antt =====
-- src/ds/ns_hashtbl.c: nodes and tables from their making to their end, and string keys.
use Prim.Native.Nat.{bit_and, bit_xor}
use nanosig.Base.{
  Among, ℕ, zero, suc, ◌+◌, ◌-◌, ◌*◌, ◌/◌, ◌%◌, ◌^◌, ◌<◌, ◌≤◌, ◌≡◌, inl, inr, refl, ap, subst,
  arith, Bool, true, false, not, Option, some, none, List, [], ◌∷◌, ◌++◌, if◌then◌else◌, if_true,
  if_false, if_either, Bool-cases, ltb, lt→ltb, ==→eq, ==→ne, ne→==, ◌==◌, mul32, sub32, Bytes,
  take, drop, length, update, Status,
}
use nanosig.Hash.{
  Node, Table, fnv1a_from, fnv1a, bucket_nodes, set_bucket, unlink, need_remake, is_bare,
  try_remake, find_in, found_or, find,
}
use nanosig.Hash.Home.{pow_pos}
use nanosig.Hash.Bucket.{In}
use nanosig.Hash.Remake.{IsTable}

-- `ns_hashtbl_node_new` where memory was given, which has these bytes.
abbrev pub node_new : Bytes → ℕ → ℕ → Node
node_new kv key_len value_len = record {
  hash_val = 0;
  value_len = value_len;
  key_len = key_len;
  kv = kv;
  linked = false;
}

-- A new node with its key copied to the front of its memory.
abbrev pub keyed : Bytes → Bytes → ℕ → ℕ → Node
keyed kv key value_len hash =
    record (node_new (key ++ drop (length key) kv) (length key) value_len) { hash_val = hash }

-- `ns_hashtbl_node_new_refresh`; `none` is no memory.
pub node_new_refresh : Option Bytes → Bytes → ℕ → Option Node
node_new_refresh none key value_len = none
node_new_refresh (some kv) key value_len = some (keyed kv key value_len (fnv1a key))

-- The loop of `fnv1a_str`: the hash and the length of the string in these bytes, from a hash on.
pub fnv1a_str_from : ℕ → Bytes → ℕ × ℕ
fnv1a_str_from hash [] = (hash, 0)
fnv1a_str_from hash (b ∷ bs) =
    let (h, n) = fnv1a_str_from (mul32 (bit_xor hash b) 16777619) bs in
    if b == 0 then (hash, 0) else (h, suc n)

-- `fnv1a_str`; the length goes out as an `ns_hashtbl_kv_len_t`, which has 16 bits.
pub fnv1a_str : Bytes → ℕ × ℕ
fnv1a_str str = let (hash, n) = fnv1a_str_from 2166136261 str in (hash, n % 2 ^ 16)

-- `ns_hashtbl_node_new_with_string_refresh`; a key that is `none` is NULL.
pub node_new_with_string_refresh : Option Bytes → Option Bytes → ℕ → Option Node
node_new_with_string_refresh memory none value_len = none
node_new_with_string_refresh none (some str) value_len = none
node_new_with_string_refresh (some kv) (some str) value_len =
    let (hash, key_len) = fnv1a_str str in some (keyed kv (take key_len str) value_len hash)

-- A list with a node put behind another, which is taken out then.
pub replaced_in : ℕ → ℕ → List ℕ → List ℕ
replaced_in old new [] = []
replaced_in old new (y ∷ ys) =
    let rest = replaced_in old new ys in if y == old then new ∷ ys else y ∷ rest

abbrev pub replaced_bucket : ℕ → ℕ → Option (List ℕ) → Option (List ℕ)
replaced_bucket old new none = none
replaced_bucket old new (some xs) = some (replaced_in old new xs)

-- `ns_hashtbl_node_renew`, with the new node's address and the bytes in its memory, or no memory.
-- The node that the call gives comes first; `none` is NULL.
pub node_renew : Table → ℕ → ℕ → Option Bytes → ℕ → Option ℕ × Table
node_renew t old new none value_len =
    if (t.nodes old).value_len == value_len then (some old, t) else (none, t)
node_renew t old new (some kv) value_len =
    let key = take (t.nodes old).key_len (t.nodes old).kv in
    let made = record (t.nodes old) {
      value_len = value_len;
      kv = key ++ drop (t.nodes old).key_len kv;
    } in
    let buckets =
      if (t.nodes old).linked then (λ i. replaced_bucket old new (t.buckets i)) else t.buckets in
    if (t.nodes old).value_len == value_len
    then (some old, t)
    else (some new, record t { buckets = buckets; nodes = update t.nodes new made })

-- `ns_hash_string`; `none` is NULL.
pub hash_string : Option Bytes → ℕ
hash_string none = 0
hash_string (some str) = (fnv1a_str str).0

-- `_ns_hashtbl_find_list_head`: the index of the bucket, which is filled then.
pub find_list_head : Table → Bytes → ℕ × Table
find_list_head t key = let idx = bit_and (fnv1a key) t.mask in (idx, try_remake t idx)

-- `_ns_hashtbl_find_list_head_with_string`.
pub find_list_head_with_string : Table → Bytes → ℕ × Table
find_list_head_with_string t str =
    let idx = bit_and (fnv1a_str str).0 t.mask in (idx, try_remake t idx)

-- `ns_hashtbl_find_with_string`.
pub find_with_string : Table → Option Bytes → Status × Option ℕ × Table
find_with_string t none = (Status.inval, none, t)
find_with_string t (some str) =
    let (hash, key_len) = fnv1a_str str in
    let idx = bit_and hash t.mask in
    let t1 = try_remake t idx in
    found_or t1 (find_in t1 (take key_len str) (bucket_nodes (t1.buckets idx)))

-- `ns_hashtbl_node_key_refresh`.
pub node_key_refresh : Table → ℕ → Table
node_key_refresh t x =
    let hash = fnv1a (take (t.nodes x).key_len (t.nodes x).kv) in
    let t1 : Table = record t {
      nodes = update t.nodes x (record (t.nodes x) { hash_val = hash });
    } in
    let idx = bit_and hash t.mask in
    let t2 = unlink (try_remake t1 idx) x in
    if (t.nodes x).linked then set_bucket t2 idx (x ∷ bucket_nodes (t2.buckets idx)) else t1

-- `ns_hashtbl_node_delete`; the node's memory is given back.
pub node_delete : Table → ℕ → Table
node_delete t x =
    let t1 = unlink t x in if (t.nodes x).linked then record t1 { count = sub32 t1.count 1 } else t

-- `load_factor`: a float that is not a number or below zero, or its exact value as a fraction.
pub data LoadFactor : Type 0 where
  not_positive : LoadFactor
  fraction : ℕ → ℕ → LoadFactor

-- `(unsigned int)(NS_CONFIG_HASHTBL_MIN_SIZE * load_factor)` of a factor that is cut to 1, at least 1.
abbrev pub first_threshold : ℕ → ℕ → ℕ → ℕ
first_threshold min_size n d =
    let threshold = if ltb d n then min_size else min_size * n / d in
    if threshold == 0 then 1 else threshold

abbrev pub empty_table : ℕ → ℕ → (ℕ → Node) → Table
empty_table min_size threshold nodes = record {
  buckets = λ i. if ltb i min_size then some [] else none;
  mask = min_size - 1;
  threshold = threshold;
  count = 0;
  nodes = nodes;
}

-- `ns_hashtbl_create` with NS_CONFIG_HASHTBL_MIN_SIZE and whether the two allocations succeed; the
-- nodes are those that there are already.
pub table_create : ℕ → Bool → Bool → (ℕ → Node) → LoadFactor → Option Table
table_create min_size struct_given table_given nodes not_positive = none
table_create min_size struct_given table_given nodes (fraction n d) =
    if n == 0
    then none
    else if not struct_given
    then none
    else if not table_given
    then none
    else some (empty_table min_size (first_threshold min_size n d) nodes)

-- The nodes that `ns_hashtbl_destroy` gives back, of as many buckets.
pub destroyed : ℕ → Table → List ℕ
destroyed zero t = []
destroyed (suc n) t = destroyed n t ++ bucket_nodes (t.buckets n)

pub table_destroy : Table → List ℕ
table_destroy t = destroyed (t.mask + 1) t

-- The bytes of a string, up to the first zero.
abbrev pub string_of : Bytes → Bytes
string_of [] = []
string_of (b ∷ bs) = if b == 0 then [] else b ∷ string_of bs

fnv1a_str_from-hash :
    (hash : ℕ) (str : Bytes) → (fnv1a_str_from hash str).0 ≡ fnv1a_from hash (string_of str)
unfolding fnv1a_str_from fnv1a_from
fnv1a_str_from-hash hash [] = refl
fnv1a_str_from-hash hash (b ∷ bs) = elim (Bool-cases (b == 0)) [
  | inl e ↦ rw (fnv1a_str_from, e) refl
  | inr e ↦ rw (fnv1a_str_from, e) (fnv1a_str_from-hash (mul32 (bit_xor hash b) 16777619) bs)
]

fnv1a_str_from-take :
    (hash : ℕ) (str : Bytes) → take (fnv1a_str_from hash str).1 str ≡ string_of str
unfolding fnv1a_str_from
fnv1a_str_from-take hash [] = refl
fnv1a_str_from-take hash (b ∷ bs) = elim (Bool-cases (b == 0)) [
  | inl e ↦ rw (fnv1a_str_from, e) refl
  | inr e ↦
      rw (fnv1a_str_from, e)
        (ap (λ k. b ∷ k) (fnv1a_str_from-take (mul32 (bit_xor hash b) 16777619) bs))
]

fnv1a_str_from-length :
    (hash : ℕ) (str : Bytes) → (fnv1a_str_from hash str).1 ≡ length (string_of str)
unfolding fnv1a_str_from
fnv1a_str_from-length hash [] = refl
fnv1a_str_from-length hash (b ∷ bs) = elim (Bool-cases (b == 0)) [
  | inl e ↦ rw (fnv1a_str_from, e) refl
  | inr e ↦
      rw (fnv1a_str_from, e) (ap suc (fnv1a_str_from-length (mul32 (bit_xor hash b) 16777619) bs))
]

-- The search by a string of fewer than 65536 bytes is the search by its bytes, without the zero at
-- its end.
pub find_with_string_lem :
    (t : Table) (str : Bytes)
    → length (string_of str) < 2 ^ 16
    → find_with_string t (some str) ≡ find t (string_of str)
unfolding find_with_string find fnv1a_str fnv1a
find_with_string_lem t str short =
    let kept : (fnv1a_str_from 2166136261 str).1 % 2 ^ 16 ≡ (fnv1a_str_from 2166136261 str).1 =
      omega (arith, fnv1a_str_from-length 2166136261 str) in
    rw (kept, fnv1a_str_from-hash 2166136261 str, fnv1a_str_from-take 2166136261 str) refl

nothing_In :
    (min_size threshold : ℕ) (nodes : ℕ → Node) (i x : ℕ)
    → In (empty_table min_size threshold nodes) i x
    → ⊥
nothing_In min_size threshold nodes i x =
    if_either (λ o. Among x (bucket_nodes o) → ⊥) (ltb i min_size) (some []) none (λ _ h. h)
      (λ _ h. h)

-- A new table is one that the other calls keep, without a node.
pub table_create_lem :
    (k min_size n d : ℕ) (nodes : ℕ → Node)
    → min_size ≡ 2 ^ suc k
    → 0 < n
    → (t : Table) × (table_create min_size true true nodes (fraction n d) ≡ some t)
      × IsTable k t
      × (t.count ≡ 0)
      × ((i x : ℕ) → In t i x → ⊥)
unfolding table_create need_remake
table_create_lem k min_size n d nodes size pos =
    let there : 0 < min_size = omega (arith, size, pow_pos (suc k)) in
    (
      empty_table min_size (first_threshold min_size n d) nodes,
      if_false _ _ (ne→== n 0 (omega arith)),
      record {
        size = omega (arith, size, there);
        first = ap is_bare (if_true (some []) none (lt→ltb 0 min_size there));
        at_home = λ i x h. absurd (nothing_In min_size (first_threshold min_size n d) nodes i x h);
      },
      refl,
      nothing_In min_size (first_threshold min_size n d) nodes,
    )

Among-left : (x : ℕ) (xs ys : List ℕ) → Among x xs → Among x (xs ++ ys)
Among-left x [] ys h = absurd h
Among-left x (z ∷ xs) ys (inl e) = inl e
Among-left x (z ∷ xs) ys (inr h) = inr (Among-left x xs ys h)

Among-right : (x : ℕ) (xs ys : List ℕ) → Among x ys → Among x (xs ++ ys)
Among-right x [] ys h = h
Among-right x (z ∷ xs) ys h = inr (Among-right x xs ys h)

destroyed-Among : (n : ℕ) (t : Table) (i x : ℕ) → i < n → In t i x → Among x (destroyed n t)
unfolding destroyed
destroyed-Among zero t i x h a = absurd (omega arith)
destroyed-Among (suc n) t i x h a = elim (Bool-cases (i == n)) [
  | inl e ↦ Among-right x (destroyed n t) _ (subst (λ j. In t j x) (==→eq i n e) a)
  | inr e ↦ Among-left x (destroyed n t) _ (destroyed-Among n t i x (ground (arith, ==→ne i n e)) a)
]

-- The end of a table gives back each node that is in it.
pub table_destroy_lem : (t : Table) (i x : ℕ) → i ≤ t.mask → In t i x → Among x (table_destroy t)
unfolding table_destroy
table_destroy_lem t i x h a = destroyed-Among (t.mask + 1) t i x (omega arith) a
