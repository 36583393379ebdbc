-- ===== src/Loop/Run.antt =====
-- src/nanosig.c: the life of an event loop as its thread and the others run it.
pub mod Ends
pub mod Serves
use nanosig.Base.{
  ℕ, suc, Bool, true, false, not, Option, some, none, List, [], ◌∷◌, ◌++◌, if◌then◌else◌, Status,
  is_ok,
}
use nanosig.Loop.{Loop, Call, dispatch_pending}

-- A return of `ns_platform_wakeup_wait`: its result, and what was done to the loop meanwhile.
pub record Wait : Type 0 where
  pub status : Status
  pub meanwhile : Loop → Loop

-- What a run gives: its result, the loop, and the calls of slots in order.
abbrev pub Ran : Type 0
Ran = Status × Option Loop × List Call

abbrev pub ran_behind : List Call → Option Ran → Option Ran
ran_behind cs none = none
ran_behind cs (some (s, l, ds)) = some (s, l, cs ++ ds)

-- The statements behind the loop, where it was left for quitting.
abbrev pub quitted : Loop → List Call → Option Ran
quitted l cs = some (Status.ns_ok, some (record l { quit_requested = false; running = false }), cs)

abbrev pub broken : Status → Loop → List Call → Option Ran
broken s l cs = some (s, some (record l { running = false }), cs)

-- The loop of `ns_loop_run_impl` and what follows it, on the returns of the waits in order. `none`
-- is a loop that still waits, or dispatches.
pub run_rounds : ℕ → (Call → Loop → Loop) → List Wait → Loop → Option Ran
run_rounds fuel react [] l = elim (dispatch_pending fuel react l) [
  | none ↦ none
  | some out ↦ if out.0.quit_requested then quitted out.0 out.1 else none
]
run_rounds fuel react (w ∷ ws) l = elim (dispatch_pending fuel react l) [
  | none ↦ none
  | some out ↦
      let woken = w.meanwhile out.0 in
      let rest = run_rounds fuel react ws woken in
      if out.0.quit_requested
      then quitted out.0 out.1
      else if not (is_ok w.status)
      then broken w.status woken out.1
      else ran_behind out.1 rest
]

-- `none` is a pointer that is NULL; the Boolean is what `ns_runtime_is_initialized` gives.
pub run_impl : ℕ → (Call → Loop → Loop) → List Wait → Bool → Option Loop → Option Ran
run_impl fuel react waits initialized none = some (Status.inval, none, [])
run_impl fuel react waits initialized (some l) =
    if not initialized
    then some (Status.shutdown, some l, [])
    else if l.running
    then some (Status.exists, some l, [])
    else run_rounds fuel react waits (record l { running = true })

-- `ns_loop_run`.
pub run_loop : ℕ → (Call → Loop → Loop) → List Wait → Bool → Option Loop → Option Ran
run_loop fuel react waits initialized none = some (Status.inval, none, [])
run_loop fuel react waits initialized (some l) =
    if not initialized
    then some (Status.shutdown, some l, [])
    else if l.async_started
    then some (Status.busy, some l, [])
    else run_impl fuel react waits initialized (some l)

-- The result of `ns_platform_wakeup_signal` is an argument.
pub quit : Bool → Status → Option Loop → Status × Option Loop
quit initialized signalled none = (Status.inval, none)
quit initialized signalled (some l) =
    if not initialized
    then (Status.shutdown, some l)
    else (signalled, some (record l { quit_requested = true; wakeups = suc l.wakeups }))

abbrev noted : Option Ran → Option Ran
noted none = none
noted (some (s, none, cs)) = some (s, none, cs)
noted (some (s, some l, cs)) = some (s, some (record l { async_rc = s }), cs)

pub async_entry : ℕ → (Call → Loop → Loop) → List Wait → Bool → Loop → Option Ran
async_entry fuel react waits initialized l = noted (run_impl fuel react waits initialized (some l))

-- The result of `ns_platform_thread_init` is an argument.
pub start_loop : Bool → Status → Option Loop → Status × Option Loop
start_loop initialized created none = (Status.inval, none)
start_loop initialized created (some l) =
    if not initialized
    then (Status.shutdown, some l)
    else if l.async_started
    then (Status.busy, some l)
    else if not (is_ok created)
    then (created, some (record l { async_rc = Status.ns_ok }))
    else (Status.ns_ok, some (record l { async_rc = Status.ns_ok; async_started = true }))

abbrev loop_or : Loop → Option Loop → Loop
loop_or l none = l
loop_or l (some k) = k

-- `ns_loop_stop`; `join` is what `ns_platform_thread_join` returns, and the loop as the thread then
-- has left it.
pub stop_loop : Bool → Status → (Loop → Status × Loop) → Option Loop → Status × Option Loop
stop_loop initialized signalled join none = (Status.inval, none)
stop_loop initialized signalled join (some l) =
    let (rc, left) = join (loop_or l (quit initialized signalled (some l)).1) in
    if not l.async_started
    then (Status.inval, some l)
    else if is_ok rc
    then (left.async_rc, some (record left { async_started = false }))
    else (rc, some left)
