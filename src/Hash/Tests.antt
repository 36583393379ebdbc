-- ===== src/Hash/Tests.antt =====
-- The hash table at small inputs: two buckets of which one is bare, with a node in the other that
-- belongs into the bare one.
use nanosig.Base.{
  ℕ, zero, suc, ◌≡◌, ◌∙◌, refl, Option, some, none, true, false, List, [], ◌∷◌, arith, Bytes,
}
use nanosig.Hash.{Table, need_remake, fnv1a, fnv1a_from, try_remake, insert_node, find}
use nanosig.Hash.Home.{home, home_older, home-zero}
use nanosig.Hash.Bucket.{In}
use nanosig.Hash.Move.{hash_of}
use nanosig.Hash.Remake.{IsTable, IsSame, try_remake_lem}
use nanosig.Hash.Find.{IsHashed, Finds, find_lem}
use nanosig.Hash.Lifetime.{find_with_string, find_with_string_lem}
use nanosig.Hash.Insert.{Inserted, insert_node_lem}

abbrev key : Bytes
key = 98 ∷ []

abbrev bucket_at : ℕ → Option (List ℕ)
bucket_at zero = some (7 ∷ [])
bucket_at (suc i) = none

abbrev table : Table
table = record {
  buckets = bucket_at;
  mask = 1;
  threshold = 1;
  count = 1;
  nodes =
      λ x. record { hash_val = 3876335077; value_len = 0; key_len = 1; kv = key; linked = false };
}

table-IsTable : IsTable 0 table
unfolding need_remake
table-IsTable = record { size = refl; first = refl; at_home = found_there }
  where
    found_there : (i x : ℕ) → In table i x → home table 1 (hash_of table x) ≡ i
    found_there zero x h =
        home_older table 0 (hash_of table x) refl ∙ home-zero table (hash_of table x)
    found_there (suc i) x h = absurd h

table-IsHashed : IsHashed table
unfolding fnv1a fnv1a_from
table-IsHashed i x h = refl

try_remake_lem_example :
    IsTable 0 (try_remake table 1)
    × IsSame table (try_remake table 1)
    × (need_remake (try_remake table 1) 1 ≡ false)
try_remake_lem_example = try_remake_lem table-IsTable 1 (omega arith)

find_lem_example :
    Finds table key (find table key)
    × IsTable 0 (find table key).2
    × IsSame table (find table key).2
find_lem_example = find_lem key table-IsTable table-IsHashed

insert_node_lem_example : Inserted true table 9 (insert_node true table 9)
insert_node_lem_example = insert_node_lem true 9 table-IsTable

find_with_string_lem_example : find_with_string table (some (98 ∷ 0 ∷ 5 ∷ [])) ≡ find table key
find_with_string_lem_example = find_with_string_lem table (98 ∷ 0 ∷ 5 ∷ []) (omega arith)
