-- ===== src/Signal.antt =====
-- src/nanosig.c: signals, their connections, and the emission into the loops' queues.
pub mod Message
pub mod Got
pub mod Emit
pub mod Connect
pub mod Deliver
mod Tests
use nanosig.Base.{
  ℕ, zero, suc, Bool, true, false, not, ◌&&◌, ◌||◌, Option, some, none, List, [], ◌∷◌,
  if◌then◌else◌, ltb, ◌==◌, Bytes, update, Status, is_ok,
}
use nanosig.Mpsc.Ring.{Ring}
use nanosig.Mpsc.Push.{Part, Outcome, try_pushv}
use nanosig.Links.{Heap, list_init, list_empty, push_back, remove_init, pop_front}
use nanosig.Loop.{Loop, slot_call_bytes, slot_call_size, ring_or}

-- `ns_signal_t` without its `slot_list`, whose node stands in the heap; the name is an address.
pub record Signal : Type 0 where
  pub payload_size : ℕ
  pub slot_capacity : ℕ
  pub debug_name : ℕ
  pub mutex_initialized : Bool

-- `ns_connection_t` without its `signal_node`; functions and data are addresses.
pub record Connection : Type 0 where
  pub signal : ℕ
  pub slot_fn : ℕ
  pub user_data : ℕ
  pub target_loop : ℕ

-- The objects by address. A signal goes by the address of its `slot_list` and a connection by that
-- of its `signal_node`, so that NS_CONTAINER_OF is the identity.
pub record World : Type 0 where
  pub heap : Heap
  pub signals : ℕ → Signal
  pub connections : ℕ → Connection
  pub loops : ℕ → Loop

-- What the platform's mutex calls return, and for each connection which of the weak swaps of its
-- push fail without a reason.
pub record Platform : Type 0 where
  pub mutex_init : Status
  pub mutex_deinit : Status
  pub mutex_lock : Status
  pub mutex_unlock : Status
  pub rounds : ℕ → List Bool

pub signal_lock : Platform → World → ℕ → Status
signal_lock pf w signal =
    if signal == 0 || not (w.signals signal).mutex_initialized then Status.inval else pf.mutex_lock

pub signal_unlock : Platform → World → ℕ → Status
signal_unlock pf w signal =
    if signal == 0 || not (w.signals signal).mutex_initialized
    then Status.inval
    else pf.mutex_unlock

abbrev pub set_signal : World → ℕ → Signal → World
set_signal w signal s = record w { signals = update w.signals signal s }

pub init_raw : Platform → World → ℕ → ℕ → ℕ → ℕ → Status × World
init_raw pf w signal payload_size slot_capacity debug_name =
    let fresh : Signal = record {
      payload_size = payload_size;
      slot_capacity = slot_capacity;
      debug_name = debug_name;
      mutex_initialized = false;
    } in
    let w1 = record (set_signal w signal fresh) { heap = list_init w.heap signal } in
    if signal == 0
    then (Status.inval, w)
    else if not (is_ok pf.mutex_init)
    then (pf.mutex_init, w1)
    else (Status.ns_ok, set_signal w1 signal (record fresh { mutex_initialized = true }))

pub deinit_raw : Platform → World → ℕ → Status × World
deinit_raw pf w signal =
    if signal == 0
    then (Status.inval, w)
    else if not (w.signals signal).mutex_initialized
    then (Status.ns_ok, w)
    else (
      pf.mutex_deinit,
      set_signal w signal (record (w.signals signal) { mutex_initialized = false }),
    )

pub connect : Platform → World → ℕ → ℕ → ℕ → ℕ → ℕ → Status × World
connect pf w signal slot_fn target_loop user_data connection =
    let w1 = record w {
      connections = update w.connections connection (record {
        signal = signal;
        slot_fn = slot_fn;
        user_data = user_data;
        target_loop = target_loop;
      });
      heap = list_init w.heap connection;
    } in
    if signal == 0 || (slot_fn == 0 || (target_loop == 0 || connection == 0))
    then (Status.inval, w)
    else if not (is_ok (signal_lock pf w1 signal))
    then (signal_lock pf w1 signal, w1)
    else (signal_unlock pf w1 signal, record w1 { heap = push_back w1.heap signal connection })

pub disconnect : Platform → World → ℕ → Status × World
disconnect pf w connection =
    let signal = (w.connections connection).signal in
    if connection == 0
    then (Status.inval, w)
    else if not (is_ok (signal_lock pf w signal))
    then (signal_lock pf w signal, w)
    else (signal_unlock pf w signal, record w { heap = remove_init w.heap connection })

-- The loop of `ns_signal_disconnect_all`; `none` is a loop that has not ended.
pub empty_list : ℕ → Heap → ℕ → Option Heap
empty_list zero h head = none
empty_list (suc fuel) h head =
    let (node, h') = pop_front h head in
    let rest = empty_list fuel (list_init h' node) head in
    if list_empty h head then some h else rest

pub disconnect_all : ℕ → Platform → World → ℕ → Option (Status × World)
disconnect_all fuel pf w signal =
    if signal == 0
    then some (Status.inval, w)
    else if not (is_ok (signal_lock pf w signal))
    then some (signal_lock pf w signal, w)
    else elim (empty_list fuel w.heap signal) [
      | none ↦ none
      | some h ↦ some (signal_unlock pf w signal, record w { heap = h })
    ]

-- The two parts of a record: the call's header and the payload.
pub call_parts : Connection → Option Bytes → ℕ → List Part
call_parts conn payload payload_size =
    record {
      bytes = some (slot_call_bytes conn.slot_fn conn.user_data payload_size);
      size = slot_call_size;
    }
    ∷ record { bytes = payload; size = payload_size }
    ∷ []

-- The loop gets the record, and its thread is woken.
abbrev pub delivered : World → ℕ → Option Ring → World
delivered w target queue =
    let l = w.loops target in
    record w {
      loops =
          update w.loops target
            (record l { queue = ring_or l.queue queue; wakeups = suc l.wakeups });
    }

abbrev is_null : Option Bytes → Bool
is_null none = true
is_null (some b) = false

-- The loop keeps what the push left.
abbrev pub refused : World → ℕ → Option Ring → World
refused w target queue =
    let l = w.loops target in
    record w { loops = update w.loops target (record l { queue = ring_or l.queue queue }) }

-- The loop of `ns_signal_emit_raw` from a node on: the status of the push that failed, or NS_OK.
-- `none` is a loop that has not ended.
unfoldable pub emit_loop : ℕ → Platform → World → ℕ → ℕ → Option Bytes → ℕ → Option (Status × World)
emit_loop zero pf w head node payload n = none
emit_loop (suc fuel) pf w head node payload n =
    let conn = w.connections node in
    if node == head
    then some (Status.ns_ok, w)
    else elim (try_pushv (pf.rounds node) (some (w.loops conn.target_loop).queue)
        (some (call_parts conn payload n))) [
          | none ↦ none
          | some out ↦
              let rest =
                emit_loop fuel pf (delivered w conn.target_loop out.1) head (w.heap.next node)
                  payload n in
              if not (is_ok out.0) then some (out.0, refused w conn.target_loop out.1) else rest
        ]

unfoldable pub emit_raw : ℕ → Platform → World → ℕ → Option Bytes → ℕ → Option (Status × World)
emit_raw fuel pf w signal payload payload_size =
    if signal == 0
    then some (Status.inval, w)
    else if not ((w.signals signal).payload_size == payload_size)
    then some (Status.inval, w)
    else if ltb 0 payload_size && is_null payload
    then some (Status.inval, w)
    else if not (is_ok (signal_lock pf w signal))
    then some (signal_lock pf w signal, w)
    else elim (emit_loop fuel pf w signal (w.heap.next signal) payload payload_size) [
      | none ↦ none
      | some out ↦ if is_ok out.0 then some (signal_unlock pf out.1 signal, out.1) else some out
    ]
