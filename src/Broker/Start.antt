-- ===== src/Broker/Start.antt =====
-- src/ns_broker.c: the start and the end of the broker.
use nanosig.Base.{
  ℕ, sym, ap, subst, ◌∙◌, if_true, if_false, Bool-cases, arith, ◌≡◌, ◌⊎◌, inl, inr, refl, if_either,
  not-true, Bool, true, false, not, if◌then◌else◌, Status, is_ok,
}

-- What stands of the broker: its memory, the waitset, the event, the event's place in the waitset,
-- the queue's lock, the timer manager, the thread; and whether `g_broker` points to it.
pub record Standing : Type 0 where
  pub memory : Bool
  pub waitset : Bool
  pub event : Bool
  pub event_added : Bool
  pub op_lock : Bool
  pub timer_mgr : Bool
  pub thread : Bool
  pub g_broker : Bool

-- What the platform and the timer manager return.
pub record StartHost : Type 0 where
  pub alloc : Bool
  pub waitset_init : Status
  pub event_init : Status
  pub waitset_add : Status
  pub mutex_init : Status
  pub timer_mgr_init : Status
  pub thread_init : Status

-- What the platform's calls that take things down return.
pub record EndHost : Type 0 where
  pub thread_join : Status
  pub waitset_remove : Status
  pub waitset_deinit : Status
  pub event_deinit : Status
  pub mutex_deinit : Status

-- A thing that is taken down, unless the platform refuses.
abbrev pub gone : Status → Bool → Bool
gone rc b = if is_ok rc then false else b

-- The labels at the end of `ns_broker_global_init`, each of which goes on to the next, whatever its
-- call returns.
abbrev pub out_free : Standing → Standing
out_free s = record s { memory = false }

abbrev pub out_waitset : EndHost → Standing → Standing
out_waitset ends s = out_free (record s { waitset = gone ends.waitset_deinit s.waitset })

abbrev pub out_event : EndHost → Standing → Standing
out_event ends s = out_waitset ends (record s { event = gone ends.event_deinit s.event })

abbrev pub out_add : EndHost → Standing → Standing
out_add ends s = out_event ends (record s { event_added = gone ends.waitset_remove s.event_added })

abbrev pub out_op_lock : EndHost → Standing → Standing
out_op_lock ends s = out_add ends (record s { op_lock = gone ends.mutex_deinit s.op_lock })

abbrev pub out_timer_mgr : EndHost → Standing → Standing
out_timer_mgr ends s = out_op_lock ends (record s { timer_mgr = false })

-- `ns_broker_global_init`.
pub global_init : StartHost → EndHost → Standing → Status × Standing
global_init host ends s0 =
    let s1 : Standing = record s0 { memory = true } in
    let s2 : Standing = record s1 { waitset = true } in
    let s3 : Standing = record s2 { event = true } in
    let s4 : Standing = record s3 { event_added = true } in
    let s5 : Standing = record s4 { op_lock = true } in
    let s6 : Standing = record s5 { timer_mgr = true } in
    let s7 : Standing = record s6 { thread = true } in
    if s0.g_broker
    then (Status.exists, s0)
    else if not host.alloc
    then (Status.nomem, s0)
    else if not (is_ok host.waitset_init)
    then (host.waitset_init, out_free s1)
    else if not (is_ok host.event_init)
    then (host.event_init, out_waitset ends s2)
    else if not (is_ok host.waitset_add)
    then (host.waitset_add, out_event ends s3)
    else if not (is_ok host.mutex_init)
    then (host.mutex_init, out_add ends s4)
    else if not (is_ok host.timer_mgr_init)
    then (host.timer_mgr_init, out_op_lock ends s5)
    else if not (is_ok host.thread_init)
    then (host.thread_init, out_timer_mgr ends s6)
    else (Status.ns_ok, record s7 { g_broker = true })

-- `ns_broker_global_shutdown`, which goes on whatever its calls return.
pub global_shutdown : EndHost → Standing → Standing
global_shutdown ends s0 =
    let s1 : Standing = record s0 { thread = gone ends.thread_join s0.thread } in
    let s2 : Standing = record s1 { timer_mgr = false } in
    let s3 : Standing = record s2 { event_added = gone ends.waitset_remove s2.event_added } in
    let s4 : Standing = record s3 { waitset = gone ends.waitset_deinit s3.waitset } in
    let s5 : Standing = record s4 { event = gone ends.event_deinit s4.event } in
    let s6 : Standing = record s5 { op_lock = gone ends.mutex_deinit s5.op_lock } in
    if not s0.g_broker then s0 else record s6 { g_broker = false; memory = false }

abbrev pub nothing_stands : Standing
nothing_stands = record {
  memory = false;
  waitset = false;
  event = false;
  event_added = false;
  op_lock = false;
  timer_mgr = false;
  thread = false;
  g_broker = false;
}

abbrev pub all_stands : Standing
all_stands = record {
  memory = true;
  waitset = true;
  event = true;
  event_added = true;
  op_lock = true;
  timer_mgr = true;
  thread = true;
  g_broker = true;
}

-- A thing that stands only because the platform refused to take it down.
abbrev pub Refused : Status → Bool → Type 0
Refused rc b = b ≡ true → is_ok rc ≡ false

-- Nothing stands but what the platform refused to take down; the memory, the timer manager and the
-- pointer to the broker are gone in any case.
pub record IsDown (ends : EndHost) (s : Standing) : Type 0 where
  pub memory : s.memory ≡ false
  pub timer_mgr : s.timer_mgr ≡ false
  pub g_broker : s.g_broker ≡ false
  pub thread : Refused ends.thread_join s.thread
  pub event_added : Refused ends.waitset_remove s.event_added
  pub waitset : Refused ends.waitset_deinit s.waitset
  pub event : Refused ends.event_deinit s.event
  pub op_lock : Refused ends.mutex_deinit s.op_lock

never : {A : Type 0} → false ≡ true → A
never e = absurd (omega (arith, ap {B = ℕ} (λ b. if b then 1 else 0) e))

none_stands : (rc : Status) → Refused rc false
none_stands rc e = never e

if_refused : (rc : Status) (b : Bool) → Refused rc (gone rc b)
if_refused rc b = elim (Bool-cases (is_ok rc)) [
  | inl good ↦ rw good (λ e. never e)
  | inr bad ↦ rw bad (λ e. refl)
]

-- What a failed start leaves, where the things up to some one had been made.
left_by :
    (ends : EndHost) (s : Standing)
    → s.memory ≡ false
    → s.timer_mgr ≡ false
    → s.g_broker ≡ false
    → s.thread ≡ false
    → Refused ends.waitset_remove s.event_added
    → Refused ends.waitset_deinit s.waitset
    → Refused ends.event_deinit s.event
    → Refused ends.mutex_deinit s.op_lock
    → IsDown ends s
left_by ends s m t g h a w e o = record {
  memory = m;
  timer_mgr = t;
  g_broker = g;
  thread = λ k. none_stands ends.thread_join (sym h ∙ k);
  event_added = a;
  waitset = w;
  event = e;
  op_lock = o;
}

-- The start made all, or it failed and is down again.
abbrev pub Starts : EndHost → Status × Standing → Type 0
Starts ends q = (q ≡ (Status.ns_ok, all_stands)) ⊎ ((is_ok q.0 ≡ false) × IsDown ends q.1)

global_init-Starts :
    (host : StartHost) (ends : EndHost) → Starts ends (global_init host ends nothing_stands)
unfolding global_init
global_init-Starts host ends =
    if_either Q (not host.alloc) (Status.nomem, nothing_stands) _
      (λ _. inr (refl, left_by ends _ refl refl refl refl (no _) (no _) (no _) (no _)))
      (λ _.
        step host.waitset_init _ _ (left_by ends _ refl refl refl refl (no _) (no _) (no _) (no _))
          (step host.event_init _ _
            (left_by ends _ refl refl refl refl (no _) (yes _) (no _) (no _))
            (step host.waitset_add _ _
              (left_by ends _ refl refl refl refl (no _) (yes _) (yes _) (no _))
              (step host.mutex_init _ _
                (left_by ends _ refl refl refl refl (yes _) (yes _) (yes _) (no _))
                (step host.timer_mgr_init _ _
                  (left_by ends _ refl refl refl refl (yes _) (yes _) (yes _) (yes _))
                  (step host.thread_init _ _
                    (left_by ends _ refl refl refl refl (yes _) (yes _) (yes _) (yes _))
                    (inl refl)))))))
  where
    Q : Status × Standing → Type 0
    Q q = Starts ends q

    no : (rc : Status) → Refused rc false
    no = none_stands

    yes : (rc : Status) → Refused rc (gone rc true)
    yes rc = if_refused rc true

    step :
        (rc : Status) (s : Standing) (q : Status × Standing)
        → IsDown ends s
        → Starts ends q
        → Starts ends (if not (is_ok rc) then (rc, s) else q)
    step rc s q d k = if_either Q (not (is_ok rc)) (rc, s) q (λ e. inr (not-true _ e, d)) (λ _. k)

-- Where no broker stands, the start makes all of it and reports NS_OK, or it reports an error and
-- takes down what it made; and the end takes down a broker that was started. Either way nothing
-- stands then but what the platform refused to take down. After a failed start the end does nothing.
pub global_init_lem :
    (host : StartHost) (ends ends' : EndHost)
    → let q = global_init host ends nothing_stands in
      ((q ≡ (Status.ns_ok, all_stands)) × IsDown ends' (global_shutdown ends' q.1))
      ⊎ ((is_ok q.0 ≡ false) × IsDown ends q.1 × (global_shutdown ends' q.1 ≡ q.1))
unfolding global_shutdown
global_init_lem host ends ends' = elim (global_init-Starts host ends) [
  | inl e ↦ inl (
    e,
    subst (λ s. IsDown ends' (global_shutdown ends' s)) (sym (ap (λ q. q.1) e))
        (record {
          memory = refl;
          timer_mgr = refl;
          g_broker = refl;
          thread = if_refused ends'.thread_join true;
          event_added = if_refused ends'.waitset_remove true;
          waitset = if_refused ends'.waitset_deinit true;
          event = if_refused ends'.event_deinit true;
          op_lock = if_refused ends'.mutex_deinit true;
        }),
  )
  | inr (bad, down) ↦ inr (bad, down, if_true _ _ (ap not down.g_broker))
]

-- The pointer to the broker says whether it was started.
pub global_init-g_broker :
    (host : StartHost) (ends : EndHost) (s : Standing)
    → s.g_broker ≡ false
    → (global_init host ends s).1.g_broker ≡ is_ok (global_init host ends s).0
unfolding global_init
global_init-g_broker host ends s off = subst Q (sym (if_false _ _ off)) (
    if_either Q (not host.alloc) (Status.nomem, s) _ (λ _. off)
      (λ _. step host.waitset_init _ _ off (
        step host.event_init _ _ off (
          step host.waitset_add _ _ off (
            step host.mutex_init _ _ off
              (step host.timer_mgr_init _ _ off (step host.thread_init _ _ off refl)))))))
  where
    Q : Status × Standing → Type 0
    Q q = q.1.g_broker ≡ is_ok q.0

    step :
        (rc : Status) (u : Standing) (q : Status × Standing)
        → u.g_broker ≡ false
        → Q q
        → Q (if not (is_ok rc) then (rc, u) else q)
    step rc u q e k = if_either Q (not (is_ok rc)) (rc, u) q (λ b. e ∙ sym (not-true _ b)) (λ _. k)

pub global_shutdown-g_broker :
    (ends : EndHost) (s : Standing) → s.g_broker ≡ true → (global_shutdown ends s).g_broker ≡ false
unfolding global_shutdown
global_shutdown-g_broker ends s on = ap (λ (u : Standing). u.g_broker) (if_false _ _ (ap not on))
