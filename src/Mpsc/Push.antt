-- ===== src/Mpsc/Push.antt =====
-- src/ds/ns_mpsc_record_ring.c: planning and pushing a record.
pub mod Parts
pub mod Planning
pub mod Runs
pub mod Written
pub mod Steps
pub mod Refine
use nanosig.Base.{
  ℕ, ◌+◌, ◌/◌, Bool, true, false, not, ◌&&◌, Option, some, none, List, [], ◌∷◌, if◌then◌else◌, ltb,
  ◌==◌, Bytes, memcpy, store_word, add64, sub64, Status,
}
use nanosig.Mpsc.Meta.{header_size, meta_encode_valid, meta_encode_fake}
use nanosig.Mpsc.Ring.{Ring, align_up, is_valid, offset, header_at, used_size, max_record_size}

-- `ns_mpsc_record_push_plan_t`; a header is its offset in the storage.
pub record Plan : Type 0 where
  pub record_size : ℕ
  pub record_total_size : ℕ
  pub publish_size : ℕ
  pub padding_size : ℕ
  pub fake_size : ℕ
  pub record_pos : ℕ
  pub fake_header : Option ℕ
  pub record_header : ℕ

-- The bytes that a fake record takes up so that the real one does not go round the end.
pub plan_fake_size : Ring → ℕ → ℕ → ℕ
plan_fake_size rg write_pos total =
    let tail = sub64 rg.capacity (offset rg write_pos) in
    if not (offset rg write_pos == 0) && ltb tail total then tail else 0

pub plan_push : Ring → ℕ → ℕ → ℕ → Option Plan
plan_push rg size write_pos read_pos =
    let used = used_size write_pos read_pos in
    let total = align_up (add64 header_size size) in
    let fake = plan_fake_size rg write_pos total in
    let publish = add64 fake total in
    if ltb rg.capacity used
    then none
    else if ltb (rg.capacity / 2) total
    then none
    else if ltb (sub64 rg.capacity used) publish
    then none
    else some (record {
      record_size = size;
      record_total_size = total;
      publish_size = publish;
      padding_size = sub64 (sub64 total header_size) size;
      fake_size = fake;
      record_pos = add64 write_pos fake;
      fake_header = if fake == 0 then none else some (header_at rg write_pos);
      record_header = header_at rg (add64 write_pos fake);
    })

-- `ns_mpsc_record_part_t`; `none` is a NULL pointer.
pub record Part : Type 0 where
  pub bytes : Option Bytes
  pub size : ℕ

abbrev is_null : Option Bytes → Bool
is_null none = true
is_null (some b) = false

-- The loop that adds the sizes up; `none` is its NS_E_INVAL.
pub sum_sizes : List Part → ℕ → Option ℕ
sum_sizes [] total = some total
sum_sizes (p ∷ ps) total =
    let rest = sum_sizes ps (add64 total p.size) in
    if is_null p.bytes && not (p.size == 0)
    then none
    else if ltb (add64 total p.size) total
    then none
    else rest

-- What the reserving loop ends with. `spinning` is a loop that has not ended.
pub data Reserved : Type 0 where
  full : Reserved
  won : Plan → Ring → Reserved
  spinning : Reserved

-- The loop about the weak compare-and-swap: one entry for each round, true where the swap fails
-- though the values are equal, which a weak one may do.
pub reserve : List Bool → Ring → ℕ → Reserved
reserve [] rg size = spinning
reserve (spurious ∷ more) rg size = elim (plan_push rg size rg.write_pos rg.read_pos) [
  | none ↦ full
  | some plan ↦ elim (not spurious && rg.reserve_pos == rg.write_pos) [
    | true ↦ won plan (record rg { reserve_pos = add64 rg.write_pos plan.publish_size })
    | false ↦ reserve more rg size
  ]
]

-- Step 1: the fake header if there is one, and the record's header marked uncommitted.
pub mark_fake : Ring → Plan → Bytes
mark_fake rg plan = elim plan.fake_header [
  | none ↦ rg.mem
  | some h ↦ store_word rg.mem h (meta_encode_fake plan.fake_size)
]

pub mark_headers : Ring → Plan → Ring
mark_headers rg plan = record rg { mem = store_word (mark_fake rg plan) plan.record_header 0 }

-- Step 2: the new write position, from which other producers go on.
pub publish : Ring → Plan → ℕ → Ring
publish rg plan reserved = record rg { write_pos = add64 reserved plan.publish_size }

-- The loop of `ns_mpsc_record_ring_write_parts`, with `dst` as an offset in the storage.
pub copy_parts : Bytes → ℕ → List Part → Bytes
copy_parts mem dst [] = mem
copy_parts mem dst (p ∷ ps) = elim p.bytes [
  | none ↦ copy_parts mem dst ps
  | some b ↦ copy_parts (memcpy mem dst b 0 p.size) (dst + p.size) ps
]

-- Step 3.
pub write_parts : Ring → ℕ → List Part → Ring
write_parts rg record_pos parts = record rg {
  mem = copy_parts rg.mem (offset rg (add64 record_pos header_size)) parts;
}

-- Step 4.
pub commit : Ring → Plan → Ring
commit rg plan = record rg {
  mem =
      store_word rg.mem plan.record_header
        (meta_encode_valid plan.record_total_size plan.padding_size);
}

-- What a call ends with; `none` is a loop that has not ended.
abbrev pub Outcome : Type 0
Outcome = Option (Status × Option Ring)

-- After the swap is won.
pub push_reserved : Ring → Plan → ℕ → List Part → Ring
push_reserved rg plan reserved parts =
    commit (write_parts (publish (mark_headers rg plan) plan reserved) plan.record_pos parts) plan

-- `ns_mpsc_record_ring_try_pushv` for at least one part.
pub push_parts : List Bool → Ring → List Part → Outcome
push_parts rounds rg parts = elim (sum_sizes parts 0) [
  | none ↦ some (Status.inval, some rg)
  | some size ↦
      if ltb (max_record_size (some rg)) size
      then some (Status.inval, some rg)
      else elim (reserve rounds rg size) [
        | full ↦ some (Status.queue_full, some rg)
        | spinning ↦ none
        | won plan rg' ↦ some (Status.ns_ok, some (push_reserved rg' plan rg.write_pos parts))
      ]
]

pub try_pushv : List Bool → Option Ring → Option (List Part) → Outcome
try_pushv rounds none parts = some (Status.inval, none)
try_pushv rounds (some rg) none = some (Status.inval, some rg)
try_pushv rounds (some rg) (some []) =
    if not (is_valid (some rg))
    then some (Status.inval, some rg)
    else push_parts rounds rg (record { bytes = none; size = 0 } ∷ [])
try_pushv rounds (some rg) (some (p ∷ ps)) =
    if not (is_valid (some rg)) then some (Status.inval, some rg) else push_parts rounds rg (p ∷ ps)

unfoldable pub try_push : List Bool → Option Ring → Option Bytes → ℕ → Outcome
try_push rounds rg bytes size =
    try_pushv rounds rg (some (record { bytes = bytes; size = size } ∷ []))
