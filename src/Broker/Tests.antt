-- ===== src/Broker/Tests.antt =====
-- The broker at small inputs.
use nanosig.Base.{
  ◌⊎◌, inl, ℕ, ◌≡◌, refl, sym, ap, true, false, some, none, List, [], ◌∷◌, Status, is_ok,
}
use nanosig.Broker.{
  Watcher, remove_op, Request, Waitset, Broker, Completion, do_op, do_remove, is_initialized,
  events_are_valid,
}
use nanosig.Broker.{watcher_init}
use nanosig.Broker.Lifetime.{IsInit, watcher_init_lem}
use nanosig.Broker.Submit.{Returns, submit_op, served, submit_op_lem}
use nanosig.Broker.Start.{
  StartHost, EndHost, IsDown, global_init, global_shutdown, nothing_stands, all_stands,
  global_init_lem,
}
use nanosig.Broker.Round.{Turn, HandlerCall, React, drain_op_queue, round, dispatch}
use nanosig.Broker.Round.Removed.{IsOwn, NotCalled, round-NotCalled}

-- A waitset that takes and gives up each waitable.
abbrev waitset : Waitset (List ℕ)
waitset = record {
  add = λ x w s. (Status.ns_ok, true, x ∷ s);
  remove = λ x w s. (Status.ns_ok, false, s);
}

abbrev watchers : ℕ → Watcher
watchers x = record {
  handler = some 77;
  events = 1;
  edge_triggered = false;
  primitive = 5;
  user_data = some x;
  registered = true;
}

abbrev removal : Request
removal = record { op = remove_op; watcher = 3; caller = 100 }

abbrev broker : Broker (List ℕ)
broker = record {
  waitset = 3 ∷ 4 ∷ [];
  event = 1;
  watchers = watchers;
  op_queue = removal ∷ [];
  quit_requested = false;
  shutdown_started = false;
}

abbrev turns : List Turn
turns =
    record { arrivals = []; lock = Status.ns_ok }
    ∷ record { arrivals = []; lock = Status.ns_ok }
    ∷ []

abbrev completions : List Completion
completions =
    record { waitable = some 1; triggered_events = 1 }
    ∷ record { waitable = some 3; triggered_events = 1 }
    ∷ record { waitable = some 4; triggered_events = 1 }
    ∷ []

abbrev quiet : React
quiet y events ws = ws

watchers-IsOwn : IsOwn watchers
watchers-IsOwn w y e = sym (ap {B = ℕ} (λ o. elim o [ none ↦ 0 | some z ↦ z ]) e)

abbrev call_4 : HandlerCall
call_4 = record { handler = some 77; watcher = 4; triggered_events = 1 }

round-NotCalled_example : NotCalled 3 (call_4 ∷ [])
unfolding round drain_op_queue dispatch do_op do_remove is_initialized events_are_valid
round-NotCalled_example =
    round-NotCalled waitset quiet turns Status.ns_ok completions broker _ _ _ 3 watchers-IsOwn
      (λ y events ws h. h) refl (inl (refl, refl, refl))

abbrev env : Returns
env = record { lock = Status.ns_ok; signal = Status.busy; wakeup_init = Status.ns_ok }

abbrev serve : Broker (List ℕ) → Request → Status × Broker (List ℕ)
serve b req = (Status.ns_ok, record b { op_queue = [] })

abbrev host : StartHost
host = record {
  alloc = true;
  waitset_init = Status.ns_ok;
  event_init = Status.ns_ok;
  waitset_add = Status.ns_ok;
  mutex_init = Status.nomem;
  timer_mgr_init = Status.ns_ok;
  thread_init = Status.ns_ok;
}

-- A waitset that cannot be taken down.
abbrev ends : EndHost
ends = record {
  thread_join = Status.ns_ok;
  waitset_remove = Status.ns_ok;
  waitset_deinit = Status.exists;
  event_deinit = Status.ns_ok;
  mutex_deinit = Status.ns_ok;
}

global_init_lem_example :
    let q = global_init host ends nothing_stands in
    ((q ≡ (Status.ns_ok, all_stands)) × IsDown ends (global_shutdown ends q.1))
    ⊎ ((is_ok q.0 ≡ false) × IsDown ends q.1 × (global_shutdown ends q.1 ≡ q.1))
global_init_lem_example = global_init_lem host ends ends

watcher_init_lem_example :
    IsInit
      (λ h. true)
      true
      (watchers 3)
      5
      1
      (some 77)
      (watcher_init (λ h. true) true (some (watchers 3)) 5 1 false (some 77))
watcher_init_lem_example = watcher_init_lem (λ h. true) true (watchers 3) 5 1 false (some 77)

submit_op_lem_example :
    ((submit_op env serve (some broker) 0 (some 3) 100 remove_op).2 ≡ 0)
    × (((is_ok (submit_op env serve (some broker) 0 (some 3) 100 remove_op).0 ≡ false)
          × ((submit_op env serve (some broker) 0 (some 3) 100 remove_op).1 ≡ some broker))
        ⊎ ((false ≡ false)
            × (submit_op env serve (some broker) 0 (some 3) 100 remove_op
                ≡ served serve broker removal 0)))
submit_op_lem_example = submit_op_lem env serve broker 0 3 100 remove_op
