-- ===== src/Broker/Submit.antt =====
-- src/ns_broker.c: `ns_broker_add` and `ns_broker_remove` in the caller's thread.
use nanosig.Base.{
  ◌≡◌, ◌⊎◌, inl, inr, refl, sym, ◌∙◌, ap, if_either, not-true, not-false, arith, ℕ, suc, ◌-◌, true,
  false, not, Option, some, none, List, [], ◌∷◌, ◌++◌, if◌then◌else◌, Status, is_ok,
}
use nanosig.Broker.{Request, BrokerOp, Broker}

-- What the platform returns: for the queue's lock, for the signal to the broker's thread, and for a
-- new wake-up object.
pub record Returns : Type 0 where
  pub lock : Status
  pub signal : Status
  pub wakeup_init : Status

-- The last node of the queue, taken out again.
abbrev pub without_last : List Request → List Request
without_last [] = []
without_last (r ∷ []) = []
without_last (r ∷ q ∷ queue) = r ∷ without_last (q ∷ queue)

-- `ns_broker_queue_op`.
pub queue_op : {S : Type 0} → Returns → Broker S → Request → Status × Broker S
queue_op {S} env b req =
    let pushed : Broker S = record b { op_queue = b.op_queue ++ req ∷ [] } in
    if not (is_ok env.lock)
    then (env.lock, b)
    else if not (is_ok env.signal)
    then (env.signal, record pushed { op_queue = without_last pushed.op_queue })
    else (env.signal, pushed)

-- `ns_broker_submit_op` with the wake-up objects alive. The wait ends with what the broker's thread
-- leaves and answers, which is the argument `serve`; `none` is NULL.
pub submit_op :
    {S : Type 0}
    → Returns
    → (Broker S → Request → Status × Broker S)
    → Option (Broker S)
    → ℕ
    → Option ℕ
    → ℕ
    → BrokerOp
    → Status × Option (Broker S) × ℕ
submit_op env serve g_broker wakeups none caller op = (Status.inval, g_broker, wakeups)
submit_op env serve none wakeups (some x) caller op = (Status.shutdown, none, wakeups)
submit_op {S} env serve (some b) wakeups (some x) caller op =
    let req : Request = record { op = op; watcher = x; caller = caller } in
    let (queue_rc, b') = queue_op env b req in
    let (rc, b'') = serve b' req in
    if b.shutdown_started
    then (Status.shutdown, some b, wakeups)
    else if not (is_ok env.wakeup_init)
    then (env.wakeup_init, some b, wakeups)
    else if not (is_ok queue_rc)
    then (queue_rc, some b', suc wakeups - 1)
    else (rc, some b'', suc wakeups - 1)

without_last-append : (queue : List Request) (r : Request) → without_last (queue ++ r ∷ []) ≡ queue
without_last-append [] r = refl
without_last-append (q ∷ []) r = refl
without_last-append (q ∷ p ∷ queue) r = ap (◌∷◌ q) (without_last-append (p ∷ queue) r)

-- A request is in the queue, behind all others, exactly when the call reports NS_OK; otherwise
-- nothing of it is left.
pub queue_op_lem :
    {S : Type 0} (env : Returns) (b : Broker S) (req : Request)
    → ((is_ok (queue_op env b req).0 ≡ true)
        × ((queue_op env b req).1 ≡ record b { op_queue = b.op_queue ++ req ∷ [] }))
      ⊎ ((is_ok (queue_op env b req).0 ≡ false) × ((queue_op env b req).1 ≡ b))
unfolding queue_op
queue_op_lem {S} env b req =
    if_either Queued (not (is_ok env.lock)) _ _ (λ e. inr (not-true _ e, refl))
      (λ _.
        if_either Queued (not (is_ok env.signal)) _ _
          (λ e. inr (
            not-true _ e,
            ap (λ k. record b { op_queue = k }) (without_last-append b.op_queue req),
          ))
          (λ e. inl (not-false _ e, refl)))
  where
    Queued : Status × Broker S → Type 0
    Queued q =
        ((is_ok q.0 ≡ true) × (q.1 ≡ record b { op_queue = b.op_queue ++ req ∷ [] }))
        ⊎ ((is_ok q.0 ≡ false) × (q.1 ≡ b))

-- What the broker's thread makes of the request behind all others in the queue.
abbrev pub served :
    {S : Type 0}
    → (Broker S → Request → Status × Broker S)
    → Broker S
    → Request
    → ℕ
    → Status × Option (Broker S) × ℕ
served serve b req wakeups =
    let (rc, b') = serve (record b { op_queue = b.op_queue ++ req ∷ [] }) req in
    (rc, some b', wakeups)

-- A call leaves no wake-up object behind. It fails and changes nothing, or the broker has not begun
-- to shut down and the call gives what the broker's thread answers.
pub submit_op_lem :
    {S : Type 0} (env : Returns) (serve : Broker S → Request → Status × Broker S) (b : Broker S)
    (wakeups x caller : ℕ) (op : BrokerOp)
    → ((submit_op env serve (some b) wakeups (some x) caller op).2 ≡ wakeups)
      × (((is_ok (submit_op env serve (some b) wakeups (some x) caller op).0 ≡ false)
            × ((submit_op env serve (some b) wakeups (some x) caller op).1 ≡ some b))
          ⊎ ((b.shutdown_started ≡ false)
              × (submit_op env serve (some b) wakeups (some x) caller op
                  ≡ served serve b (record { op = op; watcher = x; caller = caller }) wakeups)))
unfolding submit_op
submit_op_lem {S} env serve b wakeups x caller op =
    if_either Submitted b.shutdown_started _ _ (λ _. (refl, inl (refl, refl)))
      (λ on.
        if_either Submitted (not (is_ok env.wakeup_init)) _ _
          (λ e. (refl, inl (not-true _ e, refl)))
          (λ _.
            if_either Submitted (not (is_ok (queue_op env b req).0)) _ _
              (λ e.
                (omega arith, inl (not-true _ e, refused (queue_op_lem env b req) (not-true _ e))))
              (λ e. (omega arith, inr (on, taken (queue_op_lem env b req) (not-false _ e))))))
  where
    req : Request
    req = record { op = op; watcher = x; caller = caller }

    Submitted : Status × Option (Broker S) × ℕ → Type 0
    Submitted q =
        (q.2 ≡ wakeups)
        × (((is_ok q.0 ≡ false) × (q.1 ≡ some b))
            ⊎ ((b.shutdown_started ≡ false) × (q ≡ served serve b req wakeups)))

    Queued : Type 0
    Queued =
        ((is_ok (queue_op env b req).0 ≡ true)
          × ((queue_op env b req).1 ≡ record b { op_queue = b.op_queue ++ req ∷ [] }))
        ⊎ ((is_ok (queue_op env b req).0 ≡ false) × ((queue_op env b req).1 ≡ b))

    apart : is_ok (queue_op env b req).0 ≡ true → is_ok (queue_op env b req).0 ≡ false → ⊥
    apart e f = absurd (omega (arith, ap {B = ℕ} (λ k. if k then 1 else 0) (sym e ∙ f)))

    refused : Queued → is_ok (queue_op env b req).0 ≡ false → some (queue_op env b req).1 ≡ some b
    refused (inl (e, _)) f = absurd (apart e f)
    refused (inr (_, same)) f = ap some same

    taken :
        Queued
        → is_ok (queue_op env b req).0 ≡ true
        → ◌≡◌ {A = Status × Option (Broker S) × ℕ}
            (
              (serve (queue_op env b req).1 req).0,
              some (serve (queue_op env b req).1 req).1,
              suc wakeups - 1,
            )
            (served serve b req wakeups)
    taken (inr (e, _)) f = absurd (apart f e)
    taken (inl (_, same)) f =
        let one : suc wakeups - 1 ≡ wakeups = omega arith in rw (one, same) refl
