-- ===== src/Mpsc/Ring.antt =====
-- src/ds/ns_mpsc_record_ring.c: the ring, its queries, and its initialisation.
pub mod Bounds
pub mod Layout
pub mod Writes
pub mod Holds
pub mod Init
use Prim.Native.Nat.{bit_and}
use nanosig.Base.{
  ℕ, zero, suc, ◌+◌, ◌-◌, ◌*◌, ◌/◌, Bool, true, false, not, ◌&&◌, Option, some, none, if◌then◌else◌,
  ltb, leb, ◌==◌, Bytes, store_word, add64, sub64, u64_mod, Status,
}
use nanosig.Mpsc.Meta.{header_size, alignment, stride_mask}

-- `ns_mpsc_record_ring_t`: `storage` is the address in it, 0 for NULL, and `mem` the bytes there.
pub record Ring : Type 0 where
  pub storage : ℕ
  pub mem : Bytes
  pub capacity : ℕ
  pub reserve_pos : ℕ
  pub write_pos : ℕ
  pub read_pos : ℕ

-- `ns_align_up(value, 8)`: the mask is `~7`.
pub align_up : ℕ → ℕ
align_up value = bit_and (add64 value (alignment - 1)) (u64_mod - 1 - (alignment - 1))

-- SIZE_MAX / 2.
abbrev pub half_max : ℕ
half_max = (u64_mod - 1) / 2

pub capacity_is_valid : ℕ → Bool
capacity_is_valid capacity =
    if capacity == 0
    then false
    else if not (bit_and capacity (sub64 capacity 1) == 0)
    then false
    else if ltb half_max capacity
    then false
    else if ltb capacity (header_size * 3)
    then false
    else if ltb stride_mask (capacity / 2)
    then false
    else true

pub is_valid : Option Ring → Bool
is_valid none = false
is_valid (some rg) = not (rg.storage == 0) && capacity_is_valid rg.capacity

unfoldable pub storage_is_aligned : ℕ → Bool
storage_is_aligned storage = bit_and storage (alignment - 1) == 0

pub offset : Ring → ℕ → ℕ
offset rg pos = bit_and pos (sub64 rg.capacity 1)

-- The header at a position, by its offset in the storage.
abbrev pub header_at : Ring → ℕ → ℕ
header_at rg pos = offset rg pos

pub used_size : ℕ → ℕ → ℕ
used_size write_pos read_pos = sub64 write_pos read_pos

-- The loop of `ns_mpsc_record_ring_init`, from an offset on: every header becomes uncommitted.
pub mark_all : ℕ → ℕ → Bytes → ℕ → Bytes
mark_all zero capacity mem off = mem
mark_all (suc fuel) capacity mem off =
    let rest = mark_all fuel capacity (store_word mem off 0) (off + alignment) in
    if ltb off capacity then rest else mem

-- The storage that is handed over is an address and the bytes there. Each round of the loop moves
-- on by eight bytes, so `capacity` rounds are enough.
pub init : Option Ring → ℕ → Bytes → ℕ → Status × Option Ring
init none storage mem capacity = (Status.inval, none)
init (some rg) storage mem capacity =
    if storage == 0
    then (Status.inval, some rg)
    else if not (storage_is_aligned storage)
    then (Status.inval, some rg)
    else if not (capacity_is_valid capacity)
    then (Status.inval, some rg)
    else (
      Status.ns_ok,
      some (record {
        storage = storage;
        mem = mark_all capacity capacity mem 0;
        capacity = capacity;
        reserve_pos = 0;
        write_pos = 0;
        read_pos = 0;
      }),
    )

pub ring_capacity : Option Ring → ℕ
ring_capacity none = 0
ring_capacity (some rg) = if is_valid (some rg) then rg.capacity else 0

pub free_capacity : Option Ring → ℕ
free_capacity none = 0
free_capacity (some rg) =
    let used = used_size rg.reserve_pos rg.read_pos in
    if not (is_valid (some rg))
    then 0
    else if ltb rg.capacity used
    then 0
    else sub64 rg.capacity used

pub max_record_size : Option Ring → ℕ
max_record_size none = 0
max_record_size (some rg) =
    if not (is_valid (some rg))
    then 0
    else if leb rg.capacity (align_up header_size)
    then 0
    else sub64 (rg.capacity / 2) (align_up header_size)
