-- ===== src/Mpsc/Take.antt =====
-- src/ds/ns_mpsc_record_ring.c: acquiring and releasing the oldest record.
pub mod Refine
pub mod Fifo
use nanosig.Base.{
  ℕ, zero, suc, ◌+◌, Bool, not, ◌||◌, Option, some, none, if◌then◌else◌, ltb, ◌==◌, load_word,
  store_word, add64, sub64, Status,
}
use nanosig.Mpsc.Meta.{header_size, meta_is_valid, meta_is_fake, meta_stride, payload_size}
use nanosig.Mpsc.Ring.{Ring, is_valid, header_at, used_size}

-- The status, the ring, and what went out through the two pointers: an address, 0 for NULL, and a
-- size.
pub record Acquired : Type 0 where
  pub status : Status
  pub ring : Option Ring
  pub out_record : ℕ
  pub out_size : ℕ

abbrev acquired_none : Status → Ring → Acquired
acquired_none s rg = record { status = s; ring = some rg; out_record = 0; out_size = 0 }

-- Zero the header at the read position and move on by its stride.
pub consume : Ring → ℕ → Ring
consume rg stride = record rg {
  mem = store_word rg.mem (header_at rg rg.read_pos) 0;
  read_pos = add64 rg.read_pos stride;
}

-- `(stride == 0) || (stride > used) || (stride > capacity)`.
abbrev pub bad_stride : Ring → ℕ → ℕ → Bool
bad_stride rg used stride = stride == 0 || (ltb used stride || ltb rg.capacity stride)

-- The loop, which goes round once for each fake record; `none` is a loop that has not ended.
pub acquire_loop : ℕ → Ring → Option Acquired
acquire_loop zero rg = none
acquire_loop (suc fuel) rg =
    let used = used_size rg.write_pos rg.read_pos in
    let meta = load_word rg.mem (header_at rg rg.read_pos) in
    let stride = meta_stride meta in
    let next = acquire_loop fuel (consume rg stride) in
    if ltb rg.capacity used
    then some (acquired_none Status.corrupt rg)
    else if used == 0
    then some (acquired_none Status.empty rg)
    else if meta_is_valid meta == 0
    then some (acquired_none Status.empty rg)
    else if bad_stride rg used stride
    then some (acquired_none Status.inval rg)
    else if not (meta_is_fake meta == 0)
    then next
    else elim (payload_size meta) [
      | none ↦ some (acquired_none Status.inval rg)
      | some size ↦ some (record {
        status = Status.ns_ok;
        ring = some rg;
        out_record = rg.storage + header_at rg rg.read_pos + header_size;
        out_size = size;
      })
    ]

-- The two flags say whether the out pointers are given. Every round but the last takes at least one
-- byte of what is used, so `used + 1` rounds are enough.
pub try_acquire : Option Ring → Bool → Bool → Option Acquired
try_acquire none has_record has_size =
    some (record { status = Status.inval; ring = none; out_record = 0; out_size = 0 })
try_acquire (some rg) has_record has_size =
    if not (is_valid (some rg)) || (not has_record || not has_size)
    then some (acquired_none Status.inval rg)
    else acquire_loop (suc (used_size rg.write_pos rg.read_pos)) rg

pub release : Option Ring → ℕ → Status × Option Ring
release none addr = (Status.inval, none)
release (some rg) addr =
    let used = used_size rg.write_pos rg.read_pos in
    let meta = load_word rg.mem (header_at rg rg.read_pos) in
    if not (is_valid (some rg)) || addr == 0
    then (Status.inval, some rg)
    else if ltb rg.capacity used
    then (Status.corrupt, some rg)
    else if used == 0
    then (Status.inval, some rg)
    else if ltb addr (add64 rg.storage header_size) || ltb (add64 rg.storage rg.capacity) addr
    then (Status.inval, some rg)
    else if not (sub64 addr header_size == rg.storage + header_at rg rg.read_pos)
    then (Status.inval, some rg)
    else if meta_is_valid meta == 0 || not (meta_is_fake meta == 0)
    then (Status.inval, some rg)
    else if bad_stride rg used (meta_stride meta)
    then (Status.inval, some rg)
    else elim (payload_size meta) [
      | none ↦ (Status.inval, some rg)
      | some size ↦ (Status.ns_ok, some (consume rg (meta_stride meta)))
    ]
