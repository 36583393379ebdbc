-- ===== src/Broker/Round.antt =====
-- src/ns_broker.c: a round of the broker's loop.
pub mod Removed
pub mod Answers
use nanosig.Base.{
  ℕ, suc, Bool, true, false, not, Option, some, none, List, [], ◌∷◌, ◌++◌, if◌then◌else◌, ◌==◌,
  Status, is_ok,
}
use nanosig.Broker.{Watcher, Request, Reply, Waitset, Broker, Completion, is_at, do_op}

-- A round of `ns_broker_drain_op_queue`: what other threads have put in the queue meanwhile, and
-- what its lock returns.
pub record Turn : Type 0 where
  pub arrivals : List Request
  pub lock : Status

-- A call of a watcher's handler.
pub record HandlerCall : Type 0 where
  pub handler : Option ℕ
  pub watcher : ℕ
  pub triggered_events : ℕ

-- What a handler does to the watchers while it runs, by the watcher and the events.
abbrev pub React : Type 0
React = ℕ → ℕ → (ℕ → Watcher) → ℕ → Watcher

-- The watcher that a completion is for.
abbrev pub user_data_of : (ℕ → Watcher) → ℕ → Option ℕ → Option ℕ
user_data_of watchers event none = none
user_data_of watchers event (some w) = if w == event then none else (watchers w).user_data

abbrev pub watchers_after : React → Option ℕ → ℕ → (ℕ → Watcher) → ℕ → Watcher
watchers_after react none events watchers = watchers
watchers_after react (some y) events watchers = react y events watchers

abbrev pub call_of : (ℕ → Watcher) → Option ℕ → ℕ → List HandlerCall → List HandlerCall
call_of watchers none events calls = calls
call_of watchers (some y) events calls =
    record { handler = (watchers y).handler; watcher = y; triggered_events = events } ∷ calls

-- `ns_broker_dispatch_pending_events`.
unfoldable pub dispatch :
    React → ℕ → (ℕ → Watcher) → List Completion → (ℕ → Watcher) × List HandlerCall
dispatch react event watchers [] = (watchers, [])
dispatch react event watchers (c ∷ cs) =
    let y = user_data_of watchers event c.waitable in
    let (after, calls) =
      dispatch react event (watchers_after react y c.triggered_events watchers) cs in
    (after, call_of watchers y c.triggered_events calls)

-- The calls of `ns_platform_event_drain` in a round.
pub event_drains : ℕ → List Completion → ℕ
event_drains event [] = 0
event_drains event (c ∷ cs) =
    let rest = event_drains event cs in if is_at event c.waitable then suc rest else rest

module _ {S : Type 0} (ws : Waitset S) where
  abbrev pub Drained : Type 0
  Drained = Broker S × List Completion × List Reply

  abbrev pub answered : Reply → Option Drained → Option Drained
  answered a none = none
  answered a (some (b, cs, answers)) = some (b, cs, a ∷ answers)

  abbrev pub next_op :
      List Request
      → Broker S
      → List Completion
      → (Broker S → List Completion → Option Drained)
      → Option Drained
  next_op [] b cs rest = some (record b { op_queue = [] }, cs, [])
  next_op (req ∷ queue) b cs rest =
      let (rc, b', cs') = do_op ws (record b { op_queue = queue }) cs req in
      answered (record { request = req; rc = rc }) (rest b' cs')

  -- `ns_broker_drain_op_queue` on these turns; `none` when they do not suffice.
  unfoldable pub drain_op_queue : List Turn → Broker S → List Completion → Option Drained
  drain_op_queue [] b cs = none
  drain_op_queue (t ∷ turns) b cs =
      let served = next_op (b.op_queue ++ t.arrivals) b cs (drain_op_queue turns) in
      if is_ok t.lock
      then served
      else some (record b { op_queue = b.op_queue ++ t.arrivals }, cs, [])

  -- The dispatch of the completions that the operations leave.
  abbrev pub dispatched : React → Option Drained → Option (Broker S × List Reply × List HandlerCall)
  dispatched react none = none
  dispatched react (some (b, cs, answers)) =
      let (after, calls) = dispatch react b.event b.watchers cs in
      some (record b { watchers = after }, answers, calls)

  -- A round of `ns_broker_run` up to the timers, on what the wait returned.
  unfoldable pub round :
      React
      → List Turn
      → Status
      → List Completion
      → Broker S
      → Option (Broker S × List Reply × List HandlerCall)
  round react turns rc completions b =
      dispatched react (drain_op_queue turns b (if is_ok rc then completions else []))
