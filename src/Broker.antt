-- ===== src/Broker.antt =====
-- src/ns_broker.c: watchers, and the broker that serves them.
pub mod Lifetime
pub mod Submit
pub mod Start
pub mod Round
mod Tests
use nanosig.Base.{
  ℕ, Bool, true, false, not, ◌&&◌, Option, some, none, List, [], ◌∷◌, ◌++◌, if◌then◌else◌, ◌==◌,
  Status, is_ok, ltb, update,
}
use Prim.Native.Nat.{bit_and}

-- `ns_watcher_t` with its waitable; `registered` says that `registered_waitset` is the broker's, and
-- a `user_data` that is not NULL points to a watcher.
pub record Watcher : Type 0 where
  pub handler : Option ℕ
  pub events : ℕ
  pub edge_triggered : Bool
  pub primitive : ℕ
  pub user_data : Option ℕ
  pub registered : Bool

-- `~valid_events` of 32 bits, and a handle of 64 bits set by memset to 0xFF.
abbrev pub other_events : ℕ
other_events = 4294967288

abbrev pub invalid_handle : ℕ
invalid_handle = 18446744073709551615

pub events_are_valid : ℕ → Bool
events_are_valid events = if events == 0 then false else bit_and events other_events == 0

abbrev pub has_handler : Option ℕ → Bool
has_handler none = false
has_handler (some f) = true

-- `ns_watcher_is_initialized` of a pointer that is not NULL.
pub is_initialized : Watcher → Bool
is_initialized w = has_handler w.handler && events_are_valid w.events

abbrev pub reset_empty : Watcher
reset_empty = record {
  handler = none;
  events = 0;
  edge_triggered = false;
  primitive = invalid_handle;
  user_data = none;
  registered = false;
}

-- `ns_watcher_init`; `ready` is `ns_is_initialized` and `handle_is_valid` the port's predicate.
pub watcher_init :
    (ℕ → Bool) → Bool → Option Watcher → ℕ → ℕ → Bool → Option ℕ → Status × Option Watcher
watcher_init handle_is_valid ready none handle events edge handler = (Status.inval, none)
watcher_init handle_is_valid ready (some w) handle events edge handler =
    if not (has_handler handler)
    then (Status.inval, some w)
    else if not (handle_is_valid handle)
    then (Status.inval, some w)
    else if not (events_are_valid events)
    then (Status.inval, some w)
    else if not ready
    then (Status.shutdown, some w)
    else (
      Status.ns_ok,
      some (record reset_empty {
        handler = handler;
        events = events;
        edge_triggered = edge;
        primitive = handle;
      }),
    )

-- `ns_watcher_deinit`; the Boolean says that there is a broker.
pub watcher_deinit : Bool → Option Watcher → Status × Option Watcher
watcher_deinit has_broker none = (Status.inval, none)
watcher_deinit has_broker (some w) =
    if not (is_initialized w)
    then (Status.inval, some w)
    else if has_broker && w.registered
    then (Status.exists, some w)
    else (Status.ns_ok, some reset_empty)

pub watcher_handle : Option Watcher → ℕ
watcher_handle none = invalid_handle
watcher_handle (some w) = w.primitive

pub data BrokerOp : Type 0 where
  add_op remove_op : BrokerOp

-- `ns_broker_op_request_t` of a caller; `caller` is its wake-up object.
pub record Request : Type 0 where
  pub op : BrokerOp
  pub watcher : ℕ
  pub caller : ℕ

-- `rc` of a request, and the signal to its caller.
pub record Reply : Type 0 where
  pub request : Request
  pub rc : Status

-- `ns_platform_waitset_add` and `_remove` of the waitable at an address; the Boolean is what they
-- leave in `registered_waitset`.
pub record Waitset (S : Type 0) : Type 0 where
  pub add : ℕ → Watcher → S → Status × Bool × S
  pub remove : ℕ → Watcher → S → Status × Bool × S

-- `struct ns_event_broker` with the watchers by their addresses; `event` is the address of its own
-- waitable.
pub record Broker (S : Type 0) : Type 0 where
  pub waitset : S
  pub event : ℕ
  pub watchers : ℕ → Watcher
  pub op_queue : List Request
  pub quit_requested : Bool
  pub shutdown_started : Bool

-- `ns_platform_waitset_completion_t`; `none` is NULL.
pub record Completion : Type 0 where
  pub waitable : Option ℕ
  pub triggered_events : ℕ

abbrev pub is_at : ℕ → Option ℕ → Bool
is_at x none = false
is_at x (some y) = y == x

-- The loop of `ns_broker_do_remove`.
abbrev pub forget : ℕ → List Completion → List Completion
forget x [] = []
forget x (c ∷ cs) = (if is_at x c.waitable then record c { waitable = none } else c) ∷ forget x cs

module _ {S : Type 0} (ws : Waitset S) where
  -- `ns_broker_do_add`.
  pub do_add : Broker S → ℕ → Status × Broker S
  do_add b x =
      let (rc, registered, s) = ws.add x (record (b.watchers x) { user_data = some x }) b.waitset in
      if not (is_initialized (b.watchers x)) then (Status.inval, b) else (
        rc,
        record b {
          waitset = s;
          watchers = update b.watchers x (record (b.watchers x) {
            user_data = if is_ok rc then some x else none;
            registered = registered;
          });
        },
      )

  -- `ns_broker_do_remove`.
  pub do_remove : Broker S → ℕ → List Completion → Status × Broker S × List Completion
  do_remove b x cs =
      let (rc, registered, s) = ws.remove x (b.watchers x) b.waitset in
      if not (is_initialized (b.watchers x)) then (Status.inval, b, cs) else (
        rc,
        record b {
          waitset = s;
          watchers = update b.watchers x (record (b.watchers x) {
            user_data = if is_ok rc then none else (b.watchers x).user_data;
            registered = registered;
          });
        },
        if is_ok rc then forget x cs else cs,
      )

  -- The switch on the operation, and `op_rc` of a request.
  abbrev pub do_op_on :
      BrokerOp → Broker S → List Completion → ℕ → Status × Broker S × List Completion
  do_op_on add_op b cs x = let (rc, b') = do_add b x in (rc, b', cs)
  do_op_on remove_op b cs x = do_remove b x cs

  pub do_op : Broker S → List Completion → Request → Status × Broker S × List Completion
  do_op b cs req = do_op_on req.op b cs req.watcher
