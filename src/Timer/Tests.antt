-- ===== src/Timer/Tests.antt =====
-- The timers at small inputs, over a list that stands for the tree.
use nanosig.Base.{
  IsFresh, ℕ, zero, suc, ◌≡◌, refl, ◌⊎◌, true, false, ◌&&◌, some, List, [], ◌∷◌, arith,
  if◌then◌else◌, Status,
}
use nanosig.Timer.{
  Timer, Manager, Env, time, less, start, cancel, restart, fire_expired, guard, validate_created,
  validate_user_input, attr_is_valid, mgr_lock,
}
use nanosig.Timer.Order.{Tree, insert, remove, head, is_head, is_some}
use nanosig.Timer.Queue.{due}
use nanosig.Timer.Valid.{IsValid}
use nanosig.Timer.Settle.{Settles}
use nanosig.Timer.Fire.{fire_expired_lem}
use nanosig.Timer.Lifetime.{mgr_global_shutdown, mgr_global_shutdown_lem}
use nanosig.Timer.Calls.{start_lem, cancel_lem, restart_lem}

abbrev list_tree : Tree (List ℕ)
list_tree = record {
  elements = λ t. t;
  first = head;
  add = λ before x t. (insert before x t, is_head x (insert before x t));
  del = λ x t. (remove x t, if is_head x t then is_some (head (remove x t)) else false);
  first_elements = λ t. refl;
  add_elements = λ before x t f o. refl;
  add_first = λ before x t f o. refl;
  del_elements = λ x t. refl;
  del_first = λ x t. refl;
}

-- Timer 1 repeats every 10 and is due at 15, timer 2 every 30 and is due at 40; all others are idle.
abbrev timers : ℕ → Timer
timers (suc zero) = record {
  interval_us = 10;
  expire_us = 15;
  attr = 1;
  linked = true;
  mutex_initialized = true;
  payload_size = 0;
}
timers (suc (suc zero)) = record {
  interval_us = 30;
  expire_us = 40;
  attr = 0;
  linked = true;
  mutex_initialized = true;
  payload_size = 0;
}
timers _ = record {
  interval_us = 7;
  expire_us = 0;
  attr = 0;
  linked = false;
  mutex_initialized = true;
  payload_size = 0;
}

abbrev manager : Manager (List ℕ)
manager = record {
  tree = 1 ∷ 2 ∷ [];
  now = 10;
  has_notify = true;
  initialized = true;
  timers = timers;
}

abbrev env : Env
env = record { ready = true; lock = Status.ns_ok; clock = time 20; emit = λ x. Status.ns_ok }

idle_timers : (x : ℕ) → (timers x).linked ≡ false → IsFresh x (1 ∷ 2 ∷ [])
idle_timers zero e = (omega arith, (omega arith, tt))
idle_timers (suc zero) e = absurd (ground (arith, e))
idle_timers (suc (suc zero)) e = absurd (ground (arith, e))
idle_timers (suc (suc (suc n))) e = (omega arith, (omega arith, tt))

manager-IsValid : IsValid list_tree manager
manager-IsValid = record {
  clock = omega arith;
  queue = (
    record { some_interval = omega arith; short_interval = omega arith; near = omega arith },
    (omega arith, omega arith, tt),
    (
      record { some_interval = omega arith; short_interval = omega arith; near = omega arith },
      tt,
      tt,
    ),
  );
  idle = idle_timers;
}

fire_expired_lem_example :
    (m : Manager (List ℕ)) × (fire_expired list_tree 3 env manager ≡ some (Status.ns_ok, m, 1 ∷ []))
    × IsValid list_tree m
    × (due m.timers 20 m.tree ≡ [])
    × Settles list_tree (record manager { now = 20 }) m (1 ∷ [])
fire_expired_lem_example =
    fire_expired_lem list_tree env 3 20 manager-IsValid refl refl refl (omega arith) (omega arith)
      (omega arith)

cancel_lem_example :
    (m : Manager (List ℕ)) × (cancel list_tree env manager (some 1)
      ≡ (Status.ns_ok, m, is_some (head m.tree) && true))
    × IsValid list_tree m
    × (m.tree ≡ 2 ∷ [])
    × IsFresh 1 m.tree
unfolding guard mgr_lock validate_created
cancel_lem_example = cancel_lem list_tree env 20 1 manager-IsValid refl

start_lem_example :
    ((false ≡ true) × (start list_tree env manager (some 3) ≡ (Status.exists, manager, false)))
    ⊎ ((false ≡ false)
        × ((m : Manager (List ℕ)) × (start list_tree env manager (some 3)
              ≡ (Status.ns_ok, m, is_head 3 m.tree && true))
            × IsValid list_tree m
            × ((m.timers 3).expire_us ≡ 27)
            × (m.tree ≡ insert (less m.timers 20) 3 (1 ∷ 2 ∷ []))))
unfolding guard mgr_lock validate_user_input validate_created attr_is_valid
start_lem_example =
    start_lem list_tree env 20 3 manager-IsValid refl (omega arith) (omega arith) refl

restart_lem_example :
    (m : Manager (List ℕ)) × (restart list_tree env manager (some 1)
      ≡ (Status.ns_ok, m, is_head 1 m.tree && true))
    × IsValid list_tree m
    × ((m.timers 1).expire_us ≡ 30)
    × (m.tree ≡ insert (less m.timers 20) 1 (2 ∷ []))
unfolding guard mgr_lock validate_user_input validate_created attr_is_valid
restart_lem_example =
    restart_lem list_tree env 20 1 manager-IsValid refl (omega arith) (omega arith) refl

mgr_global_shutdown_lem_example :
    (m : Manager (List ℕ)) × (mgr_global_shutdown list_tree [] 3 Status.ns_ok manager ≡ some m)
    × (m.tree ≡ [])
    × (m.initialized ≡ false)
    × ((y : ℕ) → IsFresh y (1 ∷ 2 ∷ []) ⊎ ((m.timers y).linked ≡ false))
mgr_global_shutdown_lem_example =
    mgr_global_shutdown_lem list_tree [] 3 manager refl refl (omega arith)
