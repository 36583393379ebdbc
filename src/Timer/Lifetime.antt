-- ===== src/Timer/Lifetime.antt =====
-- src/ns_timer.c: the start and the end of a timer and of the timer manager.
use nanosig.Base.{
  IsFresh, ℕ, zero, suc, ◌<◌, ◌≡◌, ◌⊎◌, refl, sym, ◌∙◌, ap, subst, inl, inr, Bool, true, false, not,
  ◌||◌, Option, some, none, List, [], ◌∷◌, length, arith, if◌then◌else◌, if_true, if_false,
  if_either, ltb, ◌==◌, ==→eq, ==→ne, ==_refl, not-true, not-false, Bool-cases, Status, is_ok,
}
use nanosig.Timer.{
  Timer, Manager, Env, int64_max, attr_is_valid, set_timer, validate_created, validate_user_input,
  guard, unlink, cancel,
}
use nanosig.Timer.Order.{Tree, remove}
use nanosig.Timer.Queue.{IsQueue-set, set_other}
use nanosig.Timer.Valid.{IsValid}
use nanosig.Timer.Calls.{cancel_lem}

abbrev fresh_timer : ℕ → ℕ → Timer
fresh_timer interval attr = record {
  interval_us = interval;
  expire_us = 0;
  attr = attr;
  linked = false;
  mutex_initialized = true;
  payload_size = 0;
}

module _ {T : Type 0} (ops : Tree T) (empty : T) where
  -- `ns_timer_mgr_global_init`; `empty` is what `ns_rbtree_root_init` makes, and the status is that of
  -- `ns_platform_mutex_init`.
  pub mgr_global_init : Status → Bool → Manager T → Status × Manager T
  mgr_global_init mutex_init has_notify m =
      if m.initialized
      then (Status.exists, m)
      else if not (is_ok mutex_init)
      then (mutex_init, record m { now = 0; has_notify = false; tree = empty })
      else (
        Status.ns_ok,
        record m { now = 0; has_notify = has_notify; tree = empty; initialized = true },
      )

  -- The loop that takes all timers out of the tree; `none` is a loop that has not ended.
  pub clear_tree : ℕ → Manager T → Option (Manager T)
  clear_tree zero m = none
  clear_tree (suc fuel) m = elim (ops.first m.tree) [
    | none ↦ some m
    | some x ↦ clear_tree fuel (unlink ops m x).0
  ]

  abbrev pub reset_mgr : Option (Manager T) → Option (Manager T)
  reset_mgr none = none
  reset_mgr (some m) = some (record m { now = 0; has_notify = false; tree = empty })

  -- `ns_timer_mgr_global_shutdown`, by what the lock returns.
  pub mgr_global_shutdown : ℕ → Status → Manager T → Option (Manager T)
  mgr_global_shutdown fuel lock m =
      let stopped : Manager T = record m { initialized = false } in
      let cleared = clear_tree fuel stopped in
      if not m.initialized then some m else reset_mgr (if is_ok lock then cleared else some stopped)

  -- `ns_timer_init`; the status is that of `ns_signal_init_raw`.
  pub timer_init : Env → Status → Manager T → Option ℕ → ℕ → ℕ → Status × Manager T
  timer_init env signal_init m none interval attr = (Status.inval, m)
  timer_init env signal_init m (some x) interval attr =
      if interval == 0 || ltb int64_max interval
      then (Status.inval, m)
      else if not (attr_is_valid attr)
      then (Status.inval, m)
      else if not env.ready
      then (Status.shutdown, m)
      else if not (is_ok signal_init)
      then (signal_init, m)
      else (Status.ns_ok, record m { timers = set_timer m.timers x (fresh_timer interval attr) })

  -- What `ns_timer_deinit` does after `ns_timer_cancel`.
  abbrev pub after_cancel :
      ℕ → Status → Bool → Status × Manager T × Bool → Status × Manager T × Bool
  after_cancel x deinit_rc mutex (rc, m, notify) = if not (is_ok rc) then (rc, m, notify) else (
    deinit_rc,
    record m {
      timers =
          set_timer m.timers x
            (record (m.timers x) { expire_us = 0; linked = false; mutex_initialized = mutex });
    },
    notify,
  )

  -- `ns_timer_deinit`, with what `ns_signal_deinit_raw` returns and whether it leaves a mutex.
  pub timer_deinit : Env → Status → Bool → Manager T → Option ℕ → Status × Manager T × Bool
  timer_deinit env deinit_rc mutex m none = (Status.inval, m, false)
  timer_deinit env deinit_rc mutex m (some x) =
      after_cancel x deinit_rc mutex (cancel ops env m (some x))

  set_this : (tms : ℕ → Timer) (x : ℕ) (t : Timer) → set_timer tms x t x ≡ t
  set_this tms x t = if_true t (tms x) (==_refl x)

  -- A timer outside the tree may change.
  set_timer-IsValid :
      (m : Manager T) (x : ℕ) (t : Timer)
      → IsValid ops m
      → IsFresh x (ops.elements m.tree)
      → IsValid ops (record m { timers = set_timer m.timers x t })
  set_timer-IsValid m x t v f = record {
    clock = v.clock;
    queue = IsQueue-set m.timers m.now x t _ f v.queue;
    idle = λ y e. elim (Bool-cases (y == x)) [
      | inl is ↦ rw (==→eq y x is) f
      | inr other ↦
          v.idle y
            (sym (ap (λ t. t.linked) (set_other m.timers x y t (λ k. ==→ne y x other (sym k)))) ∙ e)
    ];
  }

  record IsCleared (m : Manager T) (xs : List ℕ) (o : Option (Manager T)) : Type 0 where
    result : Manager T
    returns : o ≡ some result
    tree : ops.elements result.tree ≡ []
    stays : result.initialized ≡ m.initialized
    idle : (y : ℕ) → (m.timers y).linked ≡ false → (result.timers y).linked ≡ false
    taken : (y : ℕ) → IsFresh y xs ⊎ ((result.timers y).linked ≡ false)

  unlinked :
      (m : Manager T) (x y : ℕ) → (y == x) ≡ true → ((unlink ops m x).0.timers y).linked ≡ false
  unfolding unlink
  unlinked m x y e = ap (λ (t : Timer). t.linked) (if_true _ _ e)

  still_idle :
      (m : Manager T) (x y : ℕ)
      → (m.timers y).linked ≡ false
      → ((unlink ops m x).0.timers y).linked ≡ false
  unfolding unlink
  still_idle m x y h = if_either (λ (t : Timer). t.linked ≡ false) (y == x) _ _ (λ _. refl) (λ _. h)

  clear_tree-IsCleared :
      (fuel : ℕ) (m : Manager T) (xs : List ℕ)
      → ops.elements m.tree ≡ xs
      → length xs < fuel
      → IsCleared m xs (clear_tree fuel m)
  unfolding clear_tree unlink
  clear_tree-IsCleared zero m xs e h = absurd (omega arith)
  clear_tree-IsCleared (suc fuel) m [] e h = record {
    result = m;
    returns = rw (ops.first_elements m.tree, e, clear_tree) refl;
    tree = e;
    stays = refl;
    idle = λ y l. l;
    taken = λ y. inl tt;
  }
  clear_tree-IsCleared (suc fuel) m (x ∷ xs) e h =
      let k : IsCleared (unlink ops m x).0 xs (clear_tree fuel (unlink ops m x).0) =
        clear_tree-IsCleared fuel (unlink ops m x).0 xs
          (ops.del_elements x m.tree ∙ ap (remove x) e ∙ if_true xs (x ∷ remove x xs) (==_refl x))
          (omega arith) in
      record {
        result = k.result;
        returns = rw (ops.first_elements m.tree, e, clear_tree) k.returns;
        tree = k.tree;
        stays = k.stays;
        idle = λ y l. k.idle y (still_idle m x y l);
        taken = λ y. elim (Bool-cases (y == x)) [
          | inl is ↦ inr (k.idle y (unlinked m x y is))
          | inr other ↦ elim (k.taken y) [ inl f ↦ inl (==→ne y x other, f) | inr l ↦ inr l ]
        ];
      }

  -- Where the lock works, one round more than there are timers is enough for the end of the manager.
  -- Its tree is empty then, and no timer that stood in it is running.
  pub mgr_global_shutdown_lem :
      (fuel : ℕ) (m : Manager T)
      → m.initialized ≡ true
      → ops.elements empty ≡ []
      → length (ops.elements m.tree) < fuel
      → (m' : Manager T) × (mgr_global_shutdown fuel Status.ns_ok m ≡ some m')
        × (ops.elements m'.tree ≡ [])
        × (m'.initialized ≡ false)
        × ((y : ℕ) → IsFresh y (ops.elements m.tree) ⊎ ((m'.timers y).linked ≡ false))
  unfolding mgr_global_shutdown
  mgr_global_shutdown_lem fuel m on none_in h =
      let stopped : Manager T = record m { initialized = false } in
      let k : IsCleared stopped (ops.elements m.tree) (clear_tree fuel stopped) =
        clear_tree-IsCleared fuel stopped (ops.elements m.tree) refl h in
      let r : Manager T = k.result in
      (
        record r { now = 0; has_notify = false; tree = empty },
        if_false _ _ (ap not on) ∙ ap reset_mgr k.returns,
        none_in,
        k.stays,
        k.taken,
      )

  record IsInit (m : Manager T) (x : ℕ) (q : Status × Manager T) : Type 0 where
    cases :
        ((is_ok q.0 ≡ false) × (q.1 ≡ m))
        ⊎ ((q.0 ≡ Status.ns_ok)
            × IsValid ops q.1
            × (q.1.tree ≡ m.tree)
            × (validate_user_input (q.1.timers x) ≡ Status.ns_ok)
            × ((q.1.timers x).linked ≡ false))

  initial_valid :
      (t : Timer)
      → t.mutex_initialized ≡ true
      → t.payload_size ≡ 0
      → (t.interval_us == 0 || ltb int64_max t.interval_us) ≡ false
      → attr_is_valid t.attr ≡ true
      → validate_user_input t ≡ Status.ns_ok
  unfolding validate_user_input validate_created
  initial_valid t k p i a = rw (k, p, i, a) refl

  timer_init-IsInit :
      (env : Env) (signal_init : Status) (m : Manager T) (x interval attr : ℕ)
      → IsValid ops m
      → IsFresh x (ops.elements m.tree)
      → IsInit m x (timer_init env signal_init m (some x) interval attr)
  unfolding timer_init
  timer_init-IsInit env signal_init m x interval attr v f =
      if_either (IsInit m x) (interval == 0 || ltb int64_max interval) _ _
        (λ _. record { cases = inl (refl, refl) })
        (λ i.
          if_either (IsInit m x) (not (attr_is_valid attr)) _ _
            (λ _. record { cases = inl (refl, refl) })
            (λ a.
              if_either (IsInit m x) (not env.ready) _ _ (λ _. record { cases = inl (refl, refl) })
                (λ _.
                  if_either (IsInit m x) (not (is_ok signal_init)) _ _
                    (λ s. record { cases = inl (not-true _ s, refl) })
                    (λ _. record {
                      cases = inr (
                        refl,
                        set_timer-IsValid m x _ v f,
                        refl,
                        subst (λ t. validate_user_input t ≡ Status.ns_ok)
                            (sym (set_this m.timers x (fresh_timer interval attr)))
                            (initial_valid (fresh_timer interval attr) refl refl i (not-false _ a)),
                        ap (λ (t : Timer). t.linked)
                            (set_this m.timers x (fresh_timer interval attr)),
                      );
                    }))))

  -- A timer outside the tree: the call refuses it and changes nothing, or the timer is one that
  -- ns_timer_start accepts and does not run, and the tree is as it was.
  pub timer_init_lem :
      (env : Env) (signal_init : Status) (m : Manager T) (x interval attr : ℕ)
      → IsValid ops m
      → IsFresh x (ops.elements m.tree)
      → ((is_ok (timer_init env signal_init m (some x) interval attr).0 ≡ false)
          × ((timer_init env signal_init m (some x) interval attr).1 ≡ m))
        ⊎ (((timer_init env signal_init m (some x) interval attr).0 ≡ Status.ns_ok)
            × IsValid ops (timer_init env signal_init m (some x) interval attr).1
            × ((timer_init env signal_init m (some x) interval attr).1.tree ≡ m.tree)
            × (validate_user_input
                  ((timer_init env signal_init m (some x) interval attr).1.timers x)
                ≡ Status.ns_ok)
            × (((timer_init env signal_init m (some x) interval attr).1.timers x).linked ≡ false))
  timer_init_lem env signal_init m x interval attr v f =
      let k : IsInit m x (timer_init env signal_init m (some x) interval attr) =
        timer_init-IsInit env signal_init m x interval attr v f in
      k.cases

  -- A timer that the calls accept: it is taken out of the tree, the others stay, and the result is
  -- that of its signal's end.
  pub timer_deinit_lem :
      (env : Env) (deinit_rc : Status) (mutex : Bool) (m : Manager T) (x : ℕ)
      → IsValid ops m
      → guard env m (validate_created (m.timers x)) ≡ none
      → (m' : Manager T) × (notify : Bool) × (timer_deinit env deinit_rc mutex m (some x)
          ≡ (deinit_rc, m', notify))
        × IsValid ops m'
        × (ops.elements m'.tree ≡ remove x (ops.elements m.tree))
        × IsFresh x (ops.elements m'.tree)
  unfolding timer_deinit
  timer_deinit_lem env deinit_rc mutex m x v passed =
      let (m', e, v', same, f) = cancel_lem ops env 0 x v passed in
      (_, _, ap (after_cancel x deinit_rc mutex) e, set_timer-IsValid m' x _ v' f, same, f)
