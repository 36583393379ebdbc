-- ===== src/Loop/Create.antt =====
-- src/nanosig.c: `ns_loop_create` and `ns_loop_destroy`.
pub mod Whole
use Prim.Native.Nat.{bit_and}
use nanosig.Base.{
  ℕ, ◌+◌, ◌-◌, Bool, true, false, not, ◌&&◌, Option, some, none, if◌then◌else◌, ltb, ◌==◌, Bytes,
  update, Status, is_ok,
}
use nanosig.Mpsc.Ring.{init}
use nanosig.Loop.{Config, Loop, ring_or}

-- What the platform's calls return. `struct_size` is `sizeof(ns_loop_t)` rounded up to the
-- alignment of a ring, `memory` and `bytes` what stands in allocated memory before it is written.
pub record Host : Type 0 where
  pub stack_range : Status
  pub stack_min : ℕ
  pub stack_max : ℕ
  pub struct_size : ℕ
  pub alloc : ℕ → ℕ
  pub memory : Loop
  pub bytes : Bytes
  pub wakeup_init : Status
  pub wakeup_deinit : Status

-- The loops in allocated memory, by address.
abbrev pub Store : Type 0
Store = ℕ → Option Loop

pub is_power_of_two : ℕ → Bool
is_power_of_two value = not (value == 0) && (bit_and value (value - 1) == 0)

pub config_validate : Host → Option Config → Status
config_validate host none = Status.inval
config_validate host (some config) =
    if not (config.flags == 0)
    then Status.inval
    else if not (is_power_of_two config.queue_byte_capacity)
    then Status.inval
    else if config.stack_size == 0
    then Status.ns_ok
    else if not (is_ok host.stack_range)
    then host.stack_range
    else if ltb config.stack_size host.stack_min
    then Status.inval
    else if ltb host.stack_max config.stack_size
    then Status.inval
    else Status.ns_ok

-- `NS_LOOP_CONFIG_DEFAULT()` in place of NULL.
abbrev pub config_or : Option Config → Config
config_or none = record { queue_byte_capacity = 1024; flags = 0; debug_name = 0; stack_size = 0 }
config_or (some config) = config

-- What `*out_loop` is at the end comes second; `given` says that `out_loop` is not NULL.
pub create : Host → Bool → Bool → Option Config → Store → Status × ℕ × Store
create host initialized given config st =
    let local_config = config_or config in
    let rc = config_validate host (some local_config) in
    let loop = host.alloc (host.struct_size + local_config.queue_byte_capacity) in
    let set_up = record (host.memory) {
      config = local_config;
      quit_requested = false;
      running = false;
      async_started = false;
      async_rc = Status.ns_ok;
      created = true;
    } in
    let (ring_rc, queue) =
      init (some set_up.queue) (loop + host.struct_size) host.bytes
        local_config.queue_byte_capacity in
    let ready = record set_up { queue = ring_or set_up.queue queue; wakeups = 0 } in
    let freed = update (update st loop (some ready)) loop none in
    if not initialized
    then (Status.shutdown, 0, st)
    else if not (is_ok rc)
    then (rc, 0, st)
    else if loop == 0
    then (Status.nomem, 0, st)
    else if not (is_ok ring_rc)
    then (ring_rc, 0, freed)
    else if not (is_ok host.wakeup_init)
    then (host.wakeup_init, 0, freed)
    else (Status.ns_ok, if given then loop else 0, update st loop (some ready))

-- `none` is an address without a loop, which is undefined.
pub destroy : Host → Store → ℕ → Option (Status × Store)
destroy host st loop = if loop == 0 then some (Status.inval, st) else elim (st loop) [
  | none ↦ none
  | some l ↦ some (
      if l.async_started
      then (Status.busy, st)
      else if l.running
      then (Status.inval, st)
      else (host.wakeup_deinit, update st loop none))
]
