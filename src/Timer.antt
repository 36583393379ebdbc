-- ===== src/Timer.antt =====
-- src/ns_timer.c: the timers, the manager that holds them in order, and its operations.
pub mod Order
pub mod Queue
pub mod Insert
pub mod Valid
pub mod Settle
pub mod Fire
pub mod Calls
pub mod Lifetime
mod Tests
use Prim.Native.Nat.{bit_and}
use nanosig.Base.{
  ℕ, zero, suc, ◌+◌, ◌-◌, ◌^◌, Bool, true, false, not, ◌&&◌, ◌||◌, Option, some, none, List, [],
  ◌∷◌, if◌then◌else◌, ltb, ◌==◌, ℤ, pos, negsuc, add64, sub64, to_i64, Status, is_ok,
}
use nanosig.Timer.Order.{Tree}

-- `ns_timer_t`: `linked` is a tree node that is not empty, and the last two are its signal's.
pub record Timer : Type 0 where
  pub interval_us : ℕ
  pub expire_us : ℕ
  pub attr : ℕ
  pub linked : Bool
  pub mutex_initialized : Bool
  pub payload_size : ℕ

-- `g_timer_mgr` with the timers by their addresses. The tree holds addresses; `has_notify` is a
-- callback that is not NULL.
pub record Manager (T : Type 0) : Type 0 where
  pub tree : T
  pub now : ℕ
  pub has_notify : Bool
  pub initialized : Bool
  pub timers : ℕ → Timer

-- What the platform's clock answers.
pub data Clock : Type 0 where
  time : ℕ → Clock
  failed : Status → Clock

-- What a call meets outside: `ns_is_initialized`, the lock, the clock, and for each timer what
-- `ns_signal_emit_raw` returns for its signal.
pub record Env : Type 0 where
  pub ready : Bool
  pub lock : Status
  pub clock : Clock
  pub emit : ℕ → Status

abbrev pub int64_max : ℕ
int64_max = 2 ^ 63 - 1

abbrev pub attr_repeat : ℕ
attr_repeat = 1

abbrev pub attr_reload_from_now : ℕ
attr_reload_from_now = 2

-- `attr & ~valid_attr` of a `uint32_t`.
pub attr_is_valid : ℕ → Bool
attr_is_valid attr = bit_and attr (2 ^ 32 - 1 - (attr_repeat + attr_reload_from_now)) == 0

pub remaining_us : ℕ → ℕ → ℤ
remaining_us expire_us now_us = to_i64 (sub64 expire_us now_us)

abbrev pub ltb_ℤ : ℤ → ℤ → Bool
ltb_ℤ (pos m) (pos n) = ltb m n
ltb_ℤ (pos m) (negsuc n) = false
ltb_ℤ (negsuc m) (pos n) = true
ltb_ℤ (negsuc m) (negsuc n) = ltb n m

-- `ns_timer_cmp(a, b) < 0`.
pub less : (ℕ → Timer) → ℕ → ℕ → ℕ → Bool
less timers now a b =
    ltb_ℤ (remaining_us (timers a).expire_us now) (remaining_us (timers b).expire_us now)

abbrev pub set_timer : (ℕ → Timer) → ℕ → Timer → ℕ → Timer
set_timer timers x t y = if y == x then t else timers y

pub validate_created : Timer → Status
validate_created t =
    if not t.mutex_initialized
    then Status.inval
    else if not (t.payload_size == 0)
    then Status.inval
    else Status.ns_ok

pub validate_user_input : Timer → Status
validate_user_input t =
    if not (is_ok (validate_created t))
    then validate_created t
    else if t.interval_us == 0 || ltb int64_max t.interval_us
    then Status.inval
    else if not (attr_is_valid t.attr)
    then Status.inval
    else Status.ns_ok

-- A status, the manager after the call, and whether the callback was called.
abbrev pub Answer : Type 0 → Type 0
Answer T = Status × Manager T × Bool

-- `remaining > 0`.
abbrev pub is_later : ℕ → ℕ → Bool
is_later expire now = ltb_ℤ (pos 0) (remaining_us expire now)

-- When a repeating timer is due next.
pub reload_time : Timer → ℕ → ℕ
reload_time t now =
    let next = add64 t.expire_us t.interval_us in
    if not (bit_and t.attr attr_reload_from_now == 0)
    then add64 now t.interval_us
    else if is_later next now
    then next
    else add64 now t.interval_us

abbrev pub first_error : Status → Status → Status
first_error err s = if is_ok err then s else err

module _ {T : Type 0} where
  pub mgr_lock : Env → Manager T → Status
  mgr_lock env m = if not m.initialized then Status.shutdown else env.lock

  pub refresh_now : Env → Manager T → Status × Manager T
  refresh_now env m = elim env.clock [
    | time t ↦ (Status.ns_ok, record m { now = t })
    | failed s ↦ (s, m)
  ]

  -- The callback is called after the lock is given back.
  abbrev pub notified : Answer T → Answer T
  notified (s, m, should_notify) = (s, m, is_ok s && (should_notify && m.has_notify))

  -- What the calls test before they work under the lock; `none` where all is well.
  pub guard : Env → Manager T → Status → Option Status
  guard env m valid =
      if not env.ready
      then some Status.shutdown
      else if not (is_ok valid)
      then some valid
      else if not (is_ok (mgr_lock env m))
      then some (mgr_lock env m)
      else none

  abbrev pub fired : ℕ → Option (Status × Manager T × List ℕ) → Option (Status × Manager T × List ℕ)
  fired x none = none
  fired x (some (s, m, xs)) = some (s, m, x ∷ xs)

module _ {T : Type 0} (ops : Tree T) where
  -- `ns_rbtree_del` of a timer: its node is empty then. The flag says that another timer is first now.
  pub unlink : Manager T → ℕ → Manager T × Bool
  unlink m x = (
    record m {
      tree = (ops.del x m.tree).0;
      timers = set_timer m.timers x (record (m.timers x) { linked = false });
    },
    (ops.del x m.tree).1,
  )

  -- A new due time, and `ns_rbtree_add`. The flag says that the timer is first now.
  pub link : Manager T → ℕ → ℕ → Manager T × Bool
  link m x expire =
      let timers =
        set_timer m.timers x (record (m.timers x) { expire_us = expire; linked = true }) in
      let added = ops.add (less timers m.now) x m.tree in
      (record m { tree = added.0; timers = timers }, added.1)

  pub start_locked : Env → Manager T → ℕ → Answer T
  start_locked env m x =
      let (s, m') = refresh_now env m in
      let (m'', first) = link m' x (add64 m'.now (m.timers x).interval_us) in
      if (m.timers x).linked
      then (Status.exists, m, false)
      else if not (is_ok s)
      then (s, m', false)
      else (Status.ns_ok, m'', first)

  pub cancel_locked : Manager T → ℕ → Answer T
  cancel_locked m x =
      let (m', first) = unlink m x in
      if not (m.timers x).linked then (Status.ns_ok, m, false) else (Status.ns_ok, m', first)

  -- A running timer leaves the tree.
  pub take_out : Manager T → ℕ → Manager T
  take_out m x = if (m.timers x).linked then (unlink m x).0 else m

  pub restart_locked : Env → Manager T → ℕ → Answer T
  restart_locked env m x =
      let (s, m') = refresh_now env (take_out m x) in
      let (m'', first) = link m' x (add64 m'.now (m.timers x).interval_us) in
      if not (is_ok s) then (s, m', false) else (Status.ns_ok, m'', first)

  pub start : Env → Manager T → Option ℕ → Answer T
  start env m none = (Status.inval, m, false)
  start env m (some x) = elim (guard env m (validate_user_input (m.timers x))) [
    | some s ↦ (s, m, false)
    | none ↦ notified (start_locked env m x)
  ]

  pub cancel : Env → Manager T → Option ℕ → Answer T
  cancel env m none = (Status.inval, m, false)
  cancel env m (some x) = elim (guard env m (validate_created (m.timers x))) [
    | some s ↦ (s, m, false)
    | none ↦ notified (cancel_locked m x)
  ]

  pub restart : Env → Manager T → Option ℕ → Answer T
  restart env m none = (Status.inval, m, false)
  restart env m (some x) = elim (guard env m (validate_user_input (m.timers x))) [
    | some s ↦ (s, m, false)
    | none ↦ notified (restart_locked env m x)
  ]

  -- The status, the manager, and the time that goes out; `none` leaves it as it was.
  pub next_timeout : Env → Manager T → Bool → Status × Manager T × Option ℕ
  next_timeout env m has_out =
      let (s, m') = refresh_now env m in
      if not has_out
      then (Status.inval, m, none)
      else if not (is_ok (mgr_lock env m))
      then (mgr_lock env m, m, none)
      else if not (is_ok s)
      then (s, m', none)
      else elim (ops.first m'.tree) [
        | none ↦ (Status.no_timer, m', none)
        | some x ↦ (
          Status.ns_ok,
          m',
          some (
              if is_later (m'.timers x).expire_us m'.now
              then sub64 (m'.timers x).expire_us m'.now
              else 0),
        )
      ]

  -- A round of the loop, with the first timer: it leaves the tree, and comes back if it repeats.
  pub fire_one : Manager T → ℕ → Manager T
  fire_one m x =
      let t = m.timers x in
      let m' = (unlink m x).0 in
      if not (bit_and t.attr attr_repeat == 0) then (link m' x (reload_time t m.now)).0 else m'

  -- The loop: the first error, the manager, and the timers whose signals were emitted, in order.
  -- `none` is a loop that has not ended.
  pub fire_loop : ℕ → (ℕ → Status) → Manager T → Status → Option (Status × Manager T × List ℕ)
  fire_loop zero emit m err = none
  fire_loop (suc fuel) emit m err = elim (ops.first m.tree) [
    | none ↦ some (err, m, [])
    | some x ↦
        let rest = fire_loop fuel emit (fire_one m x) (first_error err (emit x)) in
        if is_later (m.timers x).expire_us m.now then some (err, m, []) else fired x rest
  ]

  pub fire_expired : ℕ → Env → Manager T → Option (Status × Manager T × List ℕ)
  fire_expired fuel env m =
      let (s, m') = refresh_now env m in
      let done = fire_loop fuel env.emit m' Status.ns_ok in
      if not (is_ok (mgr_lock env m))
      then some (mgr_lock env m, m, [])
      else if not (is_ok s)
      then some (s, m', [])
      else done
