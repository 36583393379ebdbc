-- ===== src/Hash.antt =====
-- src/ds/ns_hashtbl.c: the hash table that grows, and fills its new buckets when they are used.
pub mod Home
pub mod Fill
pub mod Bucket
pub mod Move
pub mod Remake
pub mod Find
pub mod Grow
pub mod Insert
pub mod Lifetime
mod Tests
use Prim.Native.Nat.{bit_and, bit_xor}
use nanosig.Base.{
  ℕ, zero, suc, ◌+◌, ◌*◌, ◌/◌, Bool, true, false, not, ◌&&◌, ◌||◌, Option, some, none, List, [],
  ◌∷◌, ◌++◌, if◌then◌else◌, ltb, leb, ◌==◌, mul32, add32, sub32, u32_max, u32_mod, ◌%◌, Bytes,
  length, take, drop, update, Status, is_ok,
}

-- `struct ns_hashtbl_node` at each address. `linked` says that its `node` is in some list.
pub record Node : Type 0 where
  pub hash_val : ℕ
  pub value_len : ℕ
  pub key_len : ℕ
  pub kv : Bytes
  pub linked : Bool

-- `struct ns_hashtbl`: the nodes of each bucket in order; `none` is a bucket whose `next` is NULL,
-- which is still to be filled from an older one.
pub record Table : Type 0 where
  pub buckets : ℕ → Option (List ℕ)
  pub mask : ℕ
  pub threshold : ℕ
  pub count : ℕ
  pub nodes : ℕ → Node

-- `fnv1a`, from a hash on.
pub fnv1a_from : ℕ → Bytes → ℕ
fnv1a_from hash [] = hash
fnv1a_from hash (b ∷ bs) = fnv1a_from (mul32 (bit_xor hash b) 16777619) bs

pub fnv1a : Bytes → ℕ
fnv1a data_bytes = fnv1a_from 2166136261 data_bytes

abbrev pub is_bare : Option (List ℕ) → Bool
is_bare none = true
is_bare (some xs) = false

pub need_remake : Table → ℕ → Bool
need_remake t idx = is_bare (t.buckets idx)

abbrev pub bucket_nodes : Option (List ℕ) → List ℕ
bucket_nodes none = []
bucket_nodes (some xs) = xs

abbrev pub set_bucket : Table → ℕ → List ℕ → Table
set_bucket t idx xs = record t { buckets = update t.buckets idx (some xs) }

-- A list without a node.
pub without : ℕ → List ℕ → List ℕ
without x [] = []
without x (y ∷ ys) = let rest = without x ys in if y == x then rest else y ∷ rest

abbrev pub without_node : ℕ → Option (List ℕ) → Option (List ℕ)
without_node x none = none
without_node x (some xs) = some (without x xs)

-- `ns_list_remove(&node->node)`, from whatever bucket has it.
pub unlink : Table → ℕ → Table
unlink t x = record t { buckets = λ i. without_node x (t.buckets i) }

-- The search of `ns_hashtbl_try_remake` for the mask of the older bucket. The mask is halved in each
-- round, so that as many rounds as its value are enough.
pub older_mask : ℕ → Table → ℕ → ℕ → ℕ
older_mask zero t idx mask_tmp = mask_tmp
older_mask (suc fuel) t idx mask_tmp =
    let rest = older_mask fuel t idx (mask_tmp / 2) in
    if not (mask_tmp == 0) && need_remake t (bit_and idx mask_tmp) then rest else mask_tmp

-- One node of the older bucket goes where it belongs now.
pub move_node : Table → ℕ → ℕ → Table
move_node t old_idx x =
    let new_idx = bit_and (t.nodes x).hash_val t.mask in
    let t1 = unlink t x in
    if not (new_idx == old_idx)
    then set_bucket t1 new_idx (x ∷ bucket_nodes (t1.buckets new_idx))
    else t

pub move_nodes : Table → ℕ → List ℕ → Table
move_nodes t old_idx [] = t
move_nodes t old_idx (x ∷ xs) = move_nodes (move_node t old_idx x) old_idx xs

pub try_remake : Table → ℕ → Table
try_remake t idx =
    let mask_tmp = older_mask t.mask t idx (t.mask / 2) in
    let old_idx = bit_and idx mask_tmp in
    let moved = move_nodes t old_idx (bucket_nodes (t.buckets old_idx)) in
    if need_remake t idx
    then if need_remake moved idx then set_bucket moved idx [] else moved
    else t

-- `ns_hashtbl_resize`; `allocated` says that the new table was allocated.
pub resize : Bool → Table → Status × Table
resize allocated t =
    let old_size = t.mask + 1 in
    if leb (u32_max / 2) t.mask
    then (Status.nomem, t)
    else if not allocated
    then (Status.nomem, t)
    else (
      Status.ns_ok,
      record t {
        buckets = λ i. if ltb i old_size then t.buckets i else none;
        mask = t.mask * 2 + 1;
        threshold = t.threshold * 2 % u32_mod;
      },
    )

-- A node comes to the front of a bucket.
abbrev pub pushed : Table → ℕ → ℕ → Table
pushed t idx x = record (set_bucket t idx (x ∷ bucket_nodes (t.buckets idx))) {
  count = add32 t.count 1;
  nodes = update t.nodes x (record (t.nodes x) { linked = true });
}

-- `ns_hashtbl_insert`.
pub insert_node : Bool → Table → ℕ → Status × Table
insert_node allocated t x =
    let full = leb t.threshold (add32 t.count 1) && not (t.mask == u32_max) in
    let (rc, grown) = if full then resize allocated t else (Status.ns_ok, t) in
    let idx = bit_and (t.nodes x).hash_val grown.mask in
    let t1 = try_remake grown idx in
    if (t.nodes x).linked
    then (Status.exists, t)
    else if not (is_ok rc)
    then (rc, t)
    else (Status.ns_ok, pushed t1 idx x)

-- `ns_hashtbl_remove`.
pub remove_node : Table → ℕ → Table
remove_node t x =
    let t1 = unlink t x in
    if (t.nodes x).linked
    then record t1 {
      count = sub32 t1.count 1;
      nodes = update t1.nodes x (record (t1.nodes x) { linked = false });
    }
    else t

-- `memcmp(a, b, n) == 0` of as many bytes.
pub bytes_equal : Bytes → Bytes → Bool
bytes_equal [] [] = true
bytes_equal [] (y ∷ ys) = false
bytes_equal (x ∷ xs) [] = false
bytes_equal (x ∷ xs) (y ∷ ys) = (x == y) && bytes_equal xs ys

-- `node->key_len == key_len && memcmp(node->kv, key, key_len) == 0`.
pub has_key : Table → Bytes → ℕ → Bool
has_key t key x =
    (t.nodes x).key_len == length key && bytes_equal (take (length key) (t.nodes x).kv) key

-- The search in a bucket.
pub find_in : Table → Bytes → List ℕ → Option ℕ
find_in t key [] = none
find_in t key (x ∷ xs) = let rest = find_in t key xs in if has_key t key x then some x else rest

abbrev pub found_or : Table → Option ℕ → Status × Option ℕ × Table
found_or t none = (Status.empty, none, t)
found_or t (some x) = (Status.ns_ok, some x, t)

-- `ns_hashtbl_find`; the node comes second.
pub find : Table → Bytes → Status × Option ℕ × Table
find t key =
    let idx = bit_and (fnv1a key) t.mask in
    let t1 = try_remake t idx in found_or t1 (find_in t1 key (bucket_nodes (t1.buckets idx)))
