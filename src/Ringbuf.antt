-- ===== src/Ringbuf.antt =====
-- src/ds/ns_ringbuf.c: a byte ring over caller storage, whose positions run through twice the size.
-- A pointer that may be NULL is an `Option` of what it points to; a function returns the result of
-- the C function and the structures that it wrote. The release barriers order memory accesses of
-- one reader and one writer thread and have no effect on one thread's view.
pub mod Inv
pub mod Place
pub mod Write
pub mod Taken
pub mod Read
pub mod Peek
pub mod Client
mod Tests
use nanosig.Base.{
  ℕ, ◌/◌, ◌%◌, ◌||◌, Option, none, some, if◌then◌else◌, ltb, leb, ◌==◌, Bytes, memcpy, ℤ, pos,
  negsuc, u32_max, add32, sub32, mul32, to_i32, to_u32, Status, status_code,
}

-- `ns_ringbuf_t`.
pub record Ringbuf : Type 0 where
  pub buf : Bytes
  pub size : ℕ
  pub w : ℕ
  pub r : ℕ

-- The largest size that `ns_ringbuf_init` takes.
abbrev pub max_size : ℕ
max_size = u32_max / 3

-- `ns_ringbuf_fix`.
abbrev pub fix : Ringbuf → ℕ → ℕ
fix rb p = p % mul32 rb.size 2

pub init : Option Ringbuf → Option Bytes → ℕ → Status × Option Ringbuf
init none buf size = (Status.inval, none)
init (some rb) none size = (Status.inval, some rb)
init (some rb) (some storage) size =
    if size == 0
    then (Status.inval, some rb)
    else if ltb max_size size
    then (Status.param, some rb)
    else (Status.ns_ok, some (record { buf = storage; size = size; w = 0; r = 0 }))

pub total_size : Option Ringbuf → ℤ
total_size none = negsuc 0
total_size (some rb) = to_i32 rb.size

pub data_size : ℕ → ℕ → ℕ → ℤ
data_size size w r =
    if leb r w then to_i32 (sub32 w r) else to_i32 (sub32 (mul32 size 2) (sub32 r w))

pub readable : Option Ringbuf → ℤ
readable none = negsuc 0
readable (some rb) = data_size rb.size rb.w rb.r

-- The `uint32_t` that the operations compute: size minus the readable bytes.
pub free_space : Ringbuf → ℕ
free_space rb = sub32 rb.size (to_u32 (data_size rb.size rb.w rb.r))

pub free_size : Option Ringbuf → ℤ
free_size none = negsuc 0
free_size (some rb) = to_i32 (free_space rb)

-- The one or two `memcpy` calls that put `wl` bytes of `src` at position `p` of the storage.
pub copy_in : Ringbuf → ℕ → Bytes → ℕ → Bytes
copy_in rb p src wl =
    let first = sub32 rb.size p in
    if leb wl first
    then memcpy rb.buf p src 0 wl
    else memcpy (memcpy rb.buf p src 0 first) 0 src first (sub32 wl first)

-- The calls that take `rl` bytes from position `p` of the storage into `out`.
pub copy_out : Ringbuf → ℕ → Bytes → ℕ → Bytes
copy_out rb p out rl =
    let first = sub32 rb.size p in
    if leb rl first
    then memcpy out 0 rb.buf p rl
    else memcpy (memcpy out 0 rb.buf p first) first rb.buf 0 (sub32 rl first)

-- `len > limit ? limit : len`.
abbrev pub clamp : ℕ → ℕ → ℕ
clamp limit len = if ltb limit len then limit else len

pub write : Option Ringbuf → Option Bytes → ℕ → ℤ × Option Ringbuf
write none src len = (pos 0, none)
write (some rb) none len = (pos 0, some rb)
write (some rb) (some src) len =
    let wl = clamp (free_space rb) len in
    if len == 0 || wl == 0 then (pos 0, some rb) else (
      to_i32 wl,
      some (record rb { buf = copy_in rb (rb.w % rb.size) src wl; w = fix rb (add32 rb.w wl) }),
    )

pub draft_write : Option Ringbuf → ℕ → Option Bytes → ℕ → ℤ × Option Ringbuf
draft_write none offset src len = (pos 0, none)
draft_write (some rb) offset none len = (pos 0, some rb)
draft_write (some rb) offset (some src) len =
    let wl = clamp (sub32 (free_space rb) offset) len in
    if len == 0
    then (pos 0, some rb)
    else if leb (free_space rb) offset
    then (status_code Status.range, some rb)
    else if wl == 0
    then (pos 0, some rb)
    else (to_i32 wl, some (record rb { buf = copy_in rb (add32 rb.w offset % rb.size) src wl }))

pub write_skip : Option Ringbuf → ℕ → ℤ × Option Ringbuf
write_skip none len = (pos 0, none)
write_skip (some rb) len =
    let wl = clamp (free_space rb) len in
    if len == 0 || wl == 0
    then (pos 0, some rb)
    else (to_i32 wl, some (record rb { w = fix rb (add32 rb.w wl) }))

-- The `uint32_t` number of readable bytes.
pub data_space : Ringbuf → ℕ
data_space rb = to_u32 (data_size rb.size rb.w rb.r)

pub read : Option Ringbuf → Option Bytes → ℕ → ℤ × Option Ringbuf × Option Bytes
read none out len = (pos 0, none, out)
read (some rb) none len = (pos 0, some rb, none)
read (some rb) (some out) len =
    let rl = clamp (data_space rb) len in
    if len == 0 || rl == 0 then (pos 0, some rb, some out) else (
      to_i32 rl,
      some (record rb { r = fix rb (add32 rb.r rl) }),
      some (copy_out rb (rb.r % rb.size) out rl),
    )

pub read_skip : Option Ringbuf → ℕ → ℤ × Option Ringbuf
read_skip none len = (pos 0, none)
read_skip (some rb) len =
    let rl = clamp (data_space rb) len in
    if len == 0 || rl == 0
    then (pos 0, some rb)
    else (to_i32 rl, some (record rb { r = fix rb (add32 rb.r rl) }))

-- What `ns_ringbuf_peek` points its caller to: a place of the ring's storage, or `buf`.
pub data View : Type 0 where
  inside : ℕ → View
  copied : View

-- The pointer that comes back, and the caller's `buf` and `*len` after the call.
pub record Peeked : Type 0 where
  pub view : Option View
  pub out : Option Bytes
  pub len : Option ℕ

pub peek : Option Ringbuf → ℕ → Option Bytes → Option ℕ → Peeked
peek none offset out len = record { view = none; out = out; len = len }
peek (some rb) offset none len = record { view = none; out = none; len = len }
peek (some rb) offset (some out) none = record { view = none; out = some out; len = none }
peek (some rb) offset (some out) (some len) =
    let data_left = sub32 (data_space rb) offset in
    let p = add32 rb.r offset % rb.size in
    let first = sub32 rb.size p in
    if leb (data_space rb) offset || ltb data_left len
    then record { view = none; out = some out; len = some len }
    else if leb len first
    then record { view = some (inside p); out = some out; len = some (clamp first data_left) }
    else record { view = some copied; out = some (copy_out rb p out len); len = some len }

pub peek_copy : Option Ringbuf → ℕ → Option Bytes → ℕ → ℤ × Option Bytes
peek_copy none offset out len = (pos 0, out)
peek_copy (some rb) offset none len = (pos 0, none)
peek_copy (some rb) offset (some out) len =
    if len == 0 || (leb (data_space rb) offset || ltb (sub32 (data_space rb) offset) len)
    then (pos 0, some out)
    else (to_i32 len, some (copy_out rb (add32 rb.r offset % rb.size) out len))

pub clear : Option Ringbuf → Option Ringbuf
clear none = none
clear (some rb) = some (record rb { r = rb.w })

pub reset : Option Ringbuf → Option Ringbuf
reset none = none
reset (some rb) = some (record rb { w = 0; r = 0 })
