-- ===== src/Timer/Fire.antt =====
-- `ns_timer_mgr_fire_expired` and `ns_timer_mgr_next_timeout`.
use nanosig.Base.{
  IsFresh, Bool, ◌⊎◌, ℕ, zero, suc, ◌+◌, ◌-◌, ◌^◌, ◌≤◌, ◌<◌, ◌≡◌, refl, sym, ◌∙◌, ap, inl, inr,
  true, false, List, [], ◌∷◌, if◌then◌else◌, ltb, leb, ◌==◌, arith, Bool-cases, subst, ==_refl,
  length, some, none, Status, add64, ltb-false, lt→ltb,
}
use Prim.Native.Nat.{bit_and}
use nanosig.Timer.{
  Timer, Manager, Env, time, int64_max, less, link, unlink, reload_time, fire_one, fire_loop,
  fire_expired, first_error, fired, is_later, refresh_now, mgr_lock, next_timeout,
}
use nanosig.Timer.Settle.{repeats, Settles, Settles-none, Settles-cons, IsFresh-due}
use nanosig.Timer.Order.{Tree, insert, remove, is_head}
use nanosig.Timer.Queue.{
  IsTimed, IsQueue, IsBehind, IsBehind-IsFresh, due, is_later_exact, IsQueue-later,
}
use nanosig.Timer.Valid.{IsValid, unlink-IsValid, link-IsValid, relinked}

-- A repeating timer is due next after now, and no more than its interval later.
pub reload_time_lem :
    (t : Timer) (now : ℕ)
    → now < 2 ^ 63
    → IsTimed now t
    → t.expire_us ≤ now
    → (now < reload_time t now) × (reload_time t now ≤ now + t.interval_us)
unfolding reload_time
reload_time_lem t now h timed over =
    let next : add64 t.expire_us t.interval_us ≡ t.expire_us + t.interval_us =
      omega (arith, timed.short_interval) in
    rw
      (
        next,
        is_later_exact (t.expire_us + t.interval_us) now h (omega (arith, timed.short_interval)),
      )
      (ground (arith, timed.short_interval, timed.some_interval))

-- A round of the loop, by its first timer.
module _ {T : Type 0} (ops : Tree T) (emit : ℕ → Status) (fuel x : ℕ) (xs : List ℕ) (m : Manager T)
    (err : Status) (e : ops.elements m.tree ≡ x ∷ xs) where
  step_due :
      is_later (m.timers x).expire_us m.now ≡ false
      → fire_loop ops (suc fuel) emit m err
        ≡ fired x (fire_loop ops fuel emit (fire_one ops m x) (first_error err (emit x)))
  unfolding fire_loop
  step_due over = rw (ops.first_elements m.tree, e, fire_loop, over) refl

  step_later :
      is_later (m.timers x).expire_us m.now ≡ true
      → fire_loop ops (suc fuel) emit m err ≡ some (err, m, [])
  unfolding fire_loop
  step_later over = rw (ops.first_elements m.tree, e, fire_loop, over) refl

module _ {T : Type 0} (ops : Tree T) where
  -- One round takes the first timer out of those that are due.
  fire_one-IsValid :
      {m : Manager T} (x : ℕ) (xs : List ℕ)
      → IsValid ops m
      → ops.elements m.tree ≡ x ∷ xs
      → (m.timers x).expire_us ≤ m.now
      → IsValid ops (fire_one ops m x)
        × ((fire_one ops m x).now ≡ m.now)
        × (due (fire_one ops m x).timers m.now (ops.elements (fire_one ops m x).tree)
            ≡ due m.timers m.now xs)
        × ((lt : ℕ → ℕ → Bool) × (ops.elements (fire_one ops m x).tree
              ≡ (if repeats (m.timers x) then insert lt x xs else xs)))
  unfolding fire_one unlink link
  fire_one-IsValid {m} x xs v e over = elim (Bool-cases (bit_and (m.timers x).attr 1 == 0)) [
    | inl once ↦
        rw once (out.0, refl, out.3 ∙ ap (due m.timers m.now) rest, ((λ a b. false), out.2 ∙ rest))
    | inr again ↦ rw again (
      back.0,
      refl,
      back.3 later ∙ out.3 ∙ ap (due m.timers m.now) rest,
      (
        less (link ops m' x (reload_time (m.timers x) m.now)).0.timers m'.now,
        back.1
            ∙ ap (insert (less (link ops m' x (reload_time (m.timers x) m.now)).0.timers m'.now) x)
                (out.2 ∙ rest),
      ),
    )
  ]
    where
      m' : Manager T
      m' = (unlink ops m x).0

      out :
          IsValid ops m'
          × IsFresh x (ops.elements m'.tree)
          × (ops.elements m'.tree ≡ remove x (ops.elements m.tree))
          × (due m'.timers m.now (ops.elements m'.tree)
              ≡ due m.timers m.now (remove x (ops.elements m.tree)))
      out = unlink-IsValid ops x v

      rest : remove x (ops.elements m.tree) ≡ xs
      rest = ap (remove x) e ∙ ap (λ c. if c then xs else x ∷ remove x xs) (==_refl x)

      timed : IsTimed m.now (m.timers x)
      timed = (subst (IsQueue m.timers m.now) e v.queue).0

      next :
          (m.now < reload_time (m.timers x) m.now)
          × (reload_time (m.timers x) m.now ≤ m.now + (m.timers x).interval_us)
      next = reload_time_lem (m.timers x) m.now v.clock timed over

      later : m.now < reload_time (m.timers x) m.now
      later = next.0

      this : m'.timers x ≡ record (m.timers x) { linked = false }
      this = rw (==_refl x) refl

      back :
          IsValid ops (link ops m' x (reload_time (m.timers x) m.now)).0
          × (ops.elements (link ops m' x (reload_time (m.timers x) m.now)).0.tree
              ≡ insert
                  (less (link ops m' x (reload_time (m.timers x) m.now)).0.timers m'.now)
                  x
                  (ops.elements m'.tree))
          × ((link ops m' x (reload_time (m.timers x) m.now)).1
              ≡ is_head x (ops.elements (link ops m' x (reload_time (m.timers x) m.now)).0.tree))
          × (m'.now < reload_time (m.timers x) m.now
              → due
                  (link ops m' x (reload_time (m.timers x) m.now)).0.timers
                  m'.now
                  (ops.elements (link ops m' x (reload_time (m.timers x) m.now)).0.tree)
                ≡ due m'.timers m'.now (ops.elements m'.tree))
      back = link-IsValid ops x (reload_time (m.timers x) m.now) out.0 out.1 (
          subst (λ t. IsTimed m.now (relinked t (reload_time (m.timers x) m.now))) (sym this)
            (record {
              some_interval = timed.some_interval;
              short_interval = timed.short_interval;
              near = omega (arith, next.1, timed.short_interval);
            }))

  -- The status that stays: the first of the emissions that failed.
  abbrev pub first_failure : (ℕ → Status) → Status → List ℕ → Status
  first_failure emit err [] = err
  first_failure emit err (x ∷ xs) = first_failure emit (first_error err (emit x)) xs

  length-due : (tm : ℕ → Timer) (now : ℕ) (xs : List ℕ) → length (due tm now xs) ≤ length xs
  length-due tm now [] = omega arith
  length-due tm now (x ∷ xs) = ground (arith, length-due tm now xs)

  fire_loop_lem :
      (emit : ℕ → Status) (fuel : ℕ) (xs : List ℕ) {m : Manager T} (err : Status)
      → IsValid ops m
      → ops.elements m.tree ≡ xs
      → length (due m.timers m.now xs) < fuel
      → (m' : Manager T) × (fire_loop ops fuel emit m err
          ≡ some (first_failure emit err (due m.timers m.now xs), m', due m.timers m.now xs))
        × IsValid ops m'
        × (m'.now ≡ m.now)
        × (due m'.timers m'.now (ops.elements m'.tree) ≡ [])
        × Settles ops m m' (due m.timers m.now xs)
  unfolding fire_loop
  fire_loop_lem emit zero xs err v e enough = absurd (omega arith)
  fire_loop_lem emit (suc fuel) [] {m} err v e enough = (
    m,
    rw (ops.first_elements m.tree, e, fire_loop) refl,
    v,
    refl,
    ap (due m.timers m.now) e,
    Settles-none ops m,
  )
  fire_loop_lem emit (suc fuel) (x ∷ xs) {m} err v e enough =
      elim (Bool-cases (leb (m.timers x).expire_us m.now)) [
        | inl now_due ↦
            let over : (m.timers x).expire_us ≤ m.now = ground arith in
            let here : due m.timers m.now (x ∷ xs) ≡ x ∷ due m.timers m.now xs = rw now_due refl in
            let one = fire_one-IsValid x xs v e over in
            let same : due (fire_one ops m x).timers (fire_one ops m x).now
                  (ops.elements (fire_one ops m x).tree)
                ≡ due m.timers m.now xs =
              ap (λ n. due (fire_one ops m x).timers n (ops.elements (fire_one ops m x).tree)) one.1
              ∙ one.2 in
            let (m', run, v', now', none_due, done) =
              fire_loop_lem emit fuel (ops.elements (fire_one ops m x).tree)
                (first_error err (emit x)) one.0 refl
                (omega (arith, ap length same, ap length here)) in
            (
              m',
              step_due ops emit fuel x xs m err e (exact ∙ ltb-false _ _ over)
                  ∙ ap (fired x) run
                  ∙ ap (λ ds. some (first_failure emit err (x ∷ ds), m', x ∷ ds)) same
                  ∙ ap (λ ds. some (first_failure emit err ds, m', ds)) (sym here),
              v',
              now' ∙ one.1,
              none_due,
              subst (Settles ops m m') (sym here) (
                  Settles-cons ops m m' x xs (due m.timers m.now xs) e
                    (IsFresh-due m.timers m.now x xs (IsBehind-IsFresh m.timers x xs behind))
                    one.3.0 one.3.1 one.1 (subst (Settles ops (fire_one ops m x) m') same done)),
            )
        | inr later ↦
            let after : m.now < (m.timers x).expire_us = ground arith in
            let here : due m.timers m.now (x ∷ xs) ≡ [] = rw later refl in
            (
              m,
              step_later ops emit fuel x xs m err e (exact ∙ lt→ltb _ _ after)
                  ∙ ap (λ ds. some (first_failure emit err ds, m, ds)) (sym here),
              v,
              refl,
              ap (due m.timers m.now) e ∙ here,
              subst (Settles ops m m) (sym here) (Settles-none ops m),
            )
      ]
    where
      timed : IsTimed m.now (m.timers x)
      timed = (subst (IsQueue m.timers m.now) e v.queue).0

      behind : IsBehind m.timers x xs
      behind = (subst (IsQueue m.timers m.now) e v.queue).1

      exact : is_later (m.timers x).expire_us m.now ≡ ltb m.now (m.timers x).expire_us
      exact = is_later_exact (m.timers x).expire_us m.now v.clock timed.near

  -- With the lock and the clock at hand.
  module _ (env : Env) (m : Manager T) where
    locks : m.initialized ≡ true → env.lock ≡ Status.ns_ok → mgr_lock env m ≡ Status.ns_ok
    unfolding mgr_lock
    locks up locked = rw (up, locked) refl

    refreshes :
        (now : ℕ)
        → env.clock ≡ time now
        → refresh_now env m ≡ (Status.ns_ok, record m { now = now })
    unfolding refresh_now
    refreshes now clock = rw (clock, refresh_now) refl

  -- `ns_timer_mgr_fire_expired` ends, if it may go round once for each timer and once more. On a
  -- valid manager, with the lock and the clock at hand,
  -- at a time below 2 ^ 63 and not before the last, it emits the signals of exactly the timers
  -- that are due, in the order of their due times, and returns the first failure among the
  -- emissions. The manager stays valid, and no timer is due then. Of the timers that were due, each
  -- that repeats waits in the tree with its next due time, and each other one is unlinked; the timers
  -- that were not due are as they were, and those that waited wait.
  pub fire_expired_lem :
      (env : Env) (fuel now : ℕ) {m : Manager T}
      → IsValid ops m
      → m.initialized ≡ true
      → env.lock ≡ Status.ns_ok
      → env.clock ≡ time now
      → m.now ≤ now
      → now < 2 ^ 63
      → length (ops.elements m.tree) < fuel
      → let fired_ones = due m.timers now (ops.elements m.tree) in
        (m' : Manager T) × (fire_expired ops fuel env m
          ≡ some (first_failure env.emit Status.ns_ok fired_ones, m', fired_ones))
        × IsValid ops m'
        × (due m'.timers now (ops.elements m'.tree) ≡ [])
        × Settles ops (record m { now = now }) m' fired_ones
  unfolding fire_expired
  fire_expired_lem env fuel now {m} v up locked clock forward small enough =
      let (m', run, v', now', none_due, done) =
        fire_loop_lem env.emit fuel (ops.elements m.tree) {m = record m { now = now }} Status.ns_ok
          (record {
            clock = small;
            queue = IsQueue-later m.timers m.now now _ forward v.queue;
            idle = v.idle;
          })
          refl (omega (arith, length-due m.timers now (ops.elements m.tree))) in
      (
        m',
        rw (locks env m up locked, refreshes env m now clock) run,
        v',
        ap (λ n. due m'.timers n (ops.elements m'.tree)) (sym now') ∙ none_due,
        done,
      )

  -- `ns_timer_mgr_next_timeout` on a valid manager, with the lock and the clock at hand,
  -- at a time below 2 ^ 63 and not before the last, gives
  -- NS_E_NO_TIMER where no timer runs. Otherwise it gives the time that is left until the first
  -- timer is due, 0 if it is due already, and no other timer is due before that one.
  pub next_timeout_lem :
      (env : Env) (now : ℕ) {m : Manager T}
      → IsValid ops m
      → m.initialized ≡ true
      → env.lock ≡ Status.ns_ok
      → env.clock ≡ time now
      → m.now ≤ now
      → now < 2 ^ 63
      → let m' = record m { now = now } in
        ((ops.elements m.tree ≡ []) × (next_timeout ops env m true ≡ (Status.no_timer, m', none)))
        ⊎ ((x : ℕ) × (xs : List ℕ) × (ops.elements m.tree ≡ x ∷ xs)
            × IsBehind m.timers x xs
            × (next_timeout ops env m true
                ≡ (Status.ns_ok, m', some ((m.timers x).expire_us - now))))
  unfolding next_timeout
  next_timeout_lem env now {m} v up locked clock forward small = cases (ops.elements m.tree) refl
    where
      cases :
          (xs : List ℕ)
          → ops.elements m.tree ≡ xs
          → ((ops.elements m.tree ≡ [])
              × (next_timeout ops env m true ≡ (Status.no_timer, record m { now = now }, none)))
            ⊎ ((x : ℕ) × (ys : List ℕ) × (ops.elements m.tree ≡ x ∷ ys)
                × IsBehind m.timers x ys
                × (next_timeout ops env m true
                    ≡ (Status.ns_ok, record m { now = now }, some ((m.timers x).expire_us - now))))
      cases [] e = inl (
        e,
        rw
            (
              locks env m up locked,
              refreshes env m now clock,
              ops.first_elements m.tree,
              e,
              next_timeout,
              refreshes env m now clock,
            )
            refl,
      )
      cases (x ∷ xs) e =
          let q = subst (IsQueue m.timers m.now) e v.queue in
          let near : (m.timers x).expire_us ≤ now + int64_max = omega (arith, q.0.near) in
          inr (
            x,
            xs,
            e,
            q.1,
            rw
                (
                  locks env m up locked,
                  refreshes env m now clock,
                  ops.first_elements m.tree,
                  e,
                  next_timeout,
                  refreshes env m now clock,
                  is_later_exact (m.timers x).expire_us now small near,
                )
                (ground arith),
          )
