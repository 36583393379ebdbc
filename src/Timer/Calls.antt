-- ===== src/Timer/Calls.antt =====
-- `ns_timer_start`, `ns_timer_cancel` and `ns_timer_restart`.
use nanosig.Base.{
  is_ok, IsFresh, ℕ, ◌+◌, ◌^◌, ◌≤◌, ◌<◌, ◌≡◌, refl, sym, ◌∙◌, ap, ap₂, inl, inr, ◌⊎◌, true, false,
  ◌&&◌, List, [], ◌∷◌, if◌then◌else◌, arith, Bool-cases, ne→==, subst, ==_refl, some, none, Status,
  add64,
}
use nanosig.Timer.{
  Timer, Manager, Env, Answer, time, int64_max, less, link, unlink, validate_user_input,
  validate_created, guard, refresh_now, start_locked, cancel_locked, restart_locked, take_out,
  notified, start, cancel, restart,
}
use nanosig.Timer.Order.{Tree, insert, remove, head, is_head, is_some}
use nanosig.Timer.Queue.{IsTimed, IsQueue-later}
use nanosig.Timer.Valid.{IsValid, unlink-IsValid, link-IsValid, relinked}

-- What the tests of a timer leave.
user_input_ok :
    (t : Timer)
    → is_ok (validate_user_input t) ≡ true
    → (0 < t.interval_us) × (t.interval_us ≤ int64_max)
unfolding validate_user_input
user_input_ok t h = elim (Bool-cases (is_ok (validate_created t))) [
  | inl created ↦ ground arith
  | inr not_created ↦ absurd (ground arith)
]

remove-fresh : (x : ℕ) (xs : List ℕ) → IsFresh x xs → remove x xs ≡ xs
remove-fresh x [] f = refl
remove-fresh x (y ∷ ys) (n, f) = rw (ne→== x y n, remove-fresh x ys f) refl

is_head-fresh : (x : ℕ) (xs : List ℕ) → IsFresh x xs → is_head x xs ≡ false
is_head-fresh x [] f = refl
is_head-fresh x (y ∷ ys) (n, f) = ne→== x y n

-- A call that gets past its tests.
module _ {T : Type 0} (env : Env) (m : Manager T) (valid : Status) where
  guard_ok : guard env m valid ≡ none → is_ok valid ≡ true
  unfolding guard
  guard_ok h = ground arith

module _ {T : Type 0} (ops : Tree T) (env : Env) (now : ℕ) {m : Manager T} (x : ℕ) where
  -- On a valid manager:
  -- `ns_timer_cancel` of a timer that passes its tests returns NS_OK, running or not. The timer is not
  -- in the tree then, and all others stay in their order. The callback is called just where the
  -- timer was the first and another one is first now.
  pub cancel_lem :
      IsValid ops m
      → guard env m (validate_created (m.timers x)) ≡ none
      → (m' : Manager T) × (cancel ops env m (some x) ≡ (
        Status.ns_ok,
        m',
        (if is_head x (ops.elements m.tree) then is_some (head (ops.elements m'.tree)) else false)
            && m.has_notify,
      ))
        × IsValid ops m'
        × (ops.elements m'.tree ≡ remove x (ops.elements m.tree))
        × IsFresh x (ops.elements m'.tree)
  unfolding cancel cancel_locked unlink
  cancel_lem v passed = elim (Bool-cases (m.timers x).linked) [
    | inl running ↦
        let (v', f, same, _) = unlink-IsValid ops x v in
        (
          (unlink ops m x).0,
          rw (passed, cancel, running, ops.del_first x m.tree, same) refl,
          v',
          same,
          f,
        )
    | inr idle ↦
        let f = v.idle x idle in
        (m, rw (passed, cancel, idle, is_head-fresh x _ f) refl, v, sym (remove-fresh x _ f), f)
  ]

  module _ (v : IsValid ops m) (clock : env.clock ≡ time now) (forward : m.now ≤ now)
      (small : now < 2 ^ 63) where
    abbrev later : Manager T
    later = record m { now = now }

    later-IsValid : IsValid ops later
    later-IsValid = record {
      clock = small;
      queue = IsQueue-later m.timers m.now now _ forward v.queue;
      idle = v.idle;
    }

    -- On a valid manager, at a time below 2 ^ 63 and not before the last, with a working clock:
    -- `ns_timer_start` of a timer that passes its tests refuses a running one with NS_E_EXISTS and
    -- changes nothing. Any other is due its interval from now on, and comes into the tree behind
    -- all timers that are due no later. The callback is called just where it is the first.
    pub start_lem :
        guard env m (validate_user_input (m.timers x)) ≡ none
        → (((m.timers x).linked ≡ true) × (start ops env m (some x) ≡ (Status.exists, m, false)))
          ⊎ (((m.timers x).linked ≡ false)
              × ((m' : Manager T) × (start ops env m (some x)
                    ≡ (Status.ns_ok, m', is_head x (ops.elements m'.tree) && m.has_notify))
                  × IsValid ops m'
                  × ((m'.timers x).expire_us ≡ now + (m.timers x).interval_us)
                  × (ops.elements m'.tree ≡ insert (less m'.timers now) x (ops.elements m.tree))))
    unfolding start start_locked refresh_now link
    start_lem passed = elim (Bool-cases (m.timers x).linked) [
      | inl running ↦ inl (running, rw (passed, start, running) refl)
      | inr idle ↦
          let fine = user_input_ok (m.timers x) (guard_ok env m _ passed) in
          let soon : add64 now (m.timers x).interval_us ≡ now + (m.timers x).interval_us =
            omega (arith, fine.1) in
          let timed : IsTimed now (relinked (m.timers x) (now + (m.timers x).interval_us)) =
            record {
              some_interval = fine.0;
              short_interval = fine.1;
              near = omega (arith, fine.1);
            } in
          let (v', same, first, _) =
            link-IsValid ops {m = later} x (now + (m.timers x).interval_us) later-IsValid
              (v.idle x idle) timed in
          inr (
            idle,
            (
              (link ops later x (now + (m.timers x).interval_us)).0,
              rw (passed, start, idle, clock, refresh_now, soon, first) refl,
              v',
              ap
                  (λ c.
                    (if c
                      then relinked (m.timers x) (now + (m.timers x).interval_us)
                      else m.timers x).expire_us)
                  (==_refl x),
              same,
            ),
          )
    ]

    -- The tree without the timer, whether it ran or not.
    abbrev taken_out : Manager T
    taken_out = if (m.timers x).linked then (unlink ops later x).0 else later

    taken_out-IsValid :
        IsValid ops taken_out
        × (taken_out.now ≡ now)
        × (taken_out.has_notify ≡ m.has_notify)
        × ((taken_out.timers x).interval_us ≡ (m.timers x).interval_us)
        × (ops.elements taken_out.tree ≡ remove x (ops.elements m.tree))
        × IsFresh x (ops.elements taken_out.tree)
    unfolding unlink
    taken_out-IsValid = elim (Bool-cases (m.timers x).linked) [
      | inl running ↦
          let (v', f, same, _) = unlink-IsValid ops {m = later} x later-IsValid in
          rw running (v', refl, refl, rw (==_refl x) refl, same, f)
      | inr idle ↦
          let f = v.idle x idle in
          rw idle (later-IsValid, refl, refl, refl, sym (remove-fresh x _ f), f)
    ]

    module _ (passed : guard env m (validate_user_input (m.timers x)) ≡ none) where
      abbrev due_at : ℕ
      due_at = now + (m.timers x).interval_us

      fine : (0 < (m.timers x).interval_us) × ((m.timers x).interval_us ≤ int64_max)
      fine = user_input_ok (m.timers x) (guard_ok env m _ passed)

      soon : add64 now (m.timers x).interval_us ≡ due_at
      soon = omega (arith, fine.1)

      abbrev relink : Manager T → Answer T
      relink k =
          let (m', first) = link ops k x (add64 k.now (m.timers x).interval_us) in
          (Status.ns_ok, m', first)

      same_taken_out : record (take_out ops m x) { now = now } ≡ taken_out
      unfolding take_out unlink
      same_taken_out = elim (Bool-cases (m.timers x).linked) [
        | inl running ↦ rw running refl
        | inr idle ↦ rw idle refl
      ]

      relocked : restart_locked ops env m x ≡ relink (record (take_out ops m x) { now = now })
      unfolding restart_locked refresh_now
      relocked = rw (clock, refresh_now) refl

      restarted :
          restart ops env m (some x)
          ≡ notified
              (Status.ns_ok, (link ops taken_out x due_at).0, (link ops taken_out x due_at).1)
      unfolding restart
      restarted =
          rw (passed, restart) refl
          ∙ ap notified (relocked ∙ ap relink same_taken_out)
          ∙ ap
              (λ d. notified (Status.ns_ok, (link ops taken_out x d).0, (link ops taken_out x d).1))
              (ap (λ k. add64 k (m.timers x).interval_us) taken_out-IsValid.1 ∙ soon)

      timed : IsTimed now (relinked (taken_out.timers x) due_at)
      timed =
          let i = taken_out-IsValid.3 in
          record {
            some_interval = omega (arith, i, fine.0);
            short_interval = omega (arith, i, fine.1);
            near = omega (arith, fine.1);
          }

      -- On a valid manager, at a time below 2 ^ 63 and not before the last, with a working clock:
      -- `ns_timer_restart` of a timer that passes its tests, running or not: it is due its interval
      -- from now on, and stands once in the tree, behind all others that are due no later. The
      -- callback is called just where it is the first.
      pub restart_lem :
          (m' : Manager T) × (restart ops env m (some x)
            ≡ (Status.ns_ok, m', is_head x (ops.elements m'.tree) && m.has_notify))
          × IsValid ops m'
          × ((m'.timers x).expire_us ≡ now + (m.timers x).interval_us)
          × (ops.elements m'.tree ≡ insert (less m'.timers now) x (remove x (ops.elements m.tree)))
      unfolding link
      restart_lem =
          let out = taken_out-IsValid in
          let (v', same, first, _) =
            link-IsValid ops {m = taken_out} x due_at out.0 out.5
              (subst (λ k. IsTimed k (relinked (taken_out.timers x) due_at)) (sym out.1) timed) in
          (
            (link ops taken_out x due_at).0,
            restarted
                ∙ ap₂ (λ a b. (Status.ns_ok, (link ops taken_out x due_at).0, a && b)) first out.2,
            v',
            ap
                (λ c.
                  (if c
                    then relinked (taken_out.timers x) due_at
                    else taken_out.timers x).expire_us)
                (==_refl x),
            same
                ∙ ap₂ (λ k es. insert (less (link ops taken_out x due_at).0.timers k) x es) out.1
                    out.4,
          )
