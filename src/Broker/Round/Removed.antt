-- ===== src/Broker/Round/Removed.antt =====
-- src/ns_broker.c: a watcher that a round removed is not called in it, and each request is answered.
use nanosig.Base.{
  ◌⊎◌, inl, inr, ℕ, ◌≡◌, ◌≢◌, refl, sym, ◌∙◌, ap, subst, true, false, not, Option, some, none, List,
  [], ◌∷◌, ◌++◌, arith, if◌then◌else◌, if_true, if_either, ◌==◌, ==→eq, ==→ne, Status, is_ok,
  update,
}
use nanosig.Broker.{
  Watcher, BrokerOp, add_op, remove_op, Request, Reply, Waitset, Broker, Completion, is_at, forget,
  do_add, do_remove, do_op_on, do_op, is_initialized,
}
use nanosig.Broker.Round.{
  Turn, HandlerCall, React, user_data_of, watchers_after, call_of, dispatch, Drained, answered,
  next_op, drain_op_queue, dispatched, round,
}

-- The user data of a waitable is its own watcher.
abbrev pub IsOwn : (ℕ → Watcher) → Type 0
IsOwn watchers = (w y : ℕ) → (watchers w).user_data ≡ some y → y ≡ w

-- No completion is for this waitable.
abbrev pub IsNulled : ℕ → List Completion → Type 0
IsNulled x [] = Unit {0}
IsNulled x (c ∷ cs) = (is_at x c.waitable ≡ false) × IsNulled x cs

abbrev pub IsRemoval : ℕ → Reply → Type 0
IsRemoval x a = (a.request.op ≡ remove_op) × (a.request.watcher ≡ x) × (is_ok a.rc ≡ true)

-- One of these answers says that x is removed.
abbrev pub IsRemoved : ℕ → List Reply → Type 0
IsRemoved x [] = ⊥
IsRemoved x (a ∷ answers) = IsRemoval x a ⊎ IsRemoved x answers

abbrev pub NotCalled : ℕ → List HandlerCall → Type 0
NotCalled x [] = Unit {0}
NotCalled x (k ∷ calls) = (k.watcher ≢ x) × NotCalled x calls

forget-IsNulled : (x : ℕ) (cs : List Completion) → IsNulled x (forget x cs)
forget-IsNulled x [] = tt
forget-IsNulled x (c ∷ cs) = (
  if_either (λ (k : Completion). is_at x k.waitable ≡ false) (is_at x c.waitable) _ _ (λ _. refl)
      (λ e. e),
  forget-IsNulled x cs,
)

IsNulled-forget : (x y : ℕ) (cs : List Completion) → IsNulled x cs → IsNulled x (forget y cs)
IsNulled-forget x y [] h = tt
IsNulled-forget x y (c ∷ cs) (e, h) = (
  if_either (λ (k : Completion). is_at x k.waitable ≡ false) (is_at y c.waitable) _ _ (λ _. refl)
      (λ _. e),
  IsNulled-forget x y cs h,
)

none-some : (y : ℕ) → ◌≡◌ {A = Option ℕ} none (some y) → ⊥
none-some y e = absurd (omega (arith, ap {B = ℕ} (λ o. elim o [ none ↦ 0 | some _ ↦ 1 ]) e))

some_eq : (x y : ℕ) → some x ≡ some y → y ≡ x
some_eq x y e = sym (ap {B = ℕ} (λ o. elim o [ none ↦ 0 | some z ↦ z ]) e)

IsOwn-update :
    (watchers : ℕ → Watcher) (x : ℕ) (v : Watcher)
    → IsOwn watchers
    → ((y : ℕ) → v.user_data ≡ some y → y ≡ x)
    → IsOwn (update watchers x v)
IsOwn-update watchers x v own here w y =
    if_either (λ (u : Watcher). u.user_data ≡ some y → y ≡ w) (w == x) _ _
      (λ e h. here y h ∙ sym (==→eq w x e)) (λ _ h. own w y h)

module _ {S : Type 0} (ws : Waitset S) where
  do_add-IsOwn : (b : Broker S) (x : ℕ) → IsOwn b.watchers → IsOwn (do_add ws b x).1.watchers
  unfolding do_add
  do_add-IsOwn b x own =
      if_either (λ (q : Status × Broker S). IsOwn q.1.watchers)
        (not (is_initialized (b.watchers x))) _ _ (λ _. own)
        (λ _. IsOwn-update b.watchers x _ own (λ y.
          if_either (λ o. o ≡ some y → y ≡ x)
            (is_ok (ws.add x (record (b.watchers x) { user_data = some x }) b.waitset).0) _ _
            (λ _ e. some_eq x y e) (λ _ e. absurd (none-some y e))))

  do_remove-IsOwn :
      (b : Broker S) (x : ℕ) (cs : List Completion)
      → IsOwn b.watchers
      → IsOwn (do_remove ws b x cs).1.watchers
  unfolding do_remove
  do_remove-IsOwn b x cs own =
      if_either (λ (q : Status × Broker S × List Completion). IsOwn q.1.watchers)
        (not (is_initialized (b.watchers x))) _ _ (λ _. own)
        (λ _. IsOwn-update b.watchers x _ own (λ y.
          if_either (λ o. o ≡ some y → y ≡ x) (is_ok (ws.remove x (b.watchers x) b.waitset).0) _ _
            (λ _ e. absurd (none-some y e)) (λ _ e. own x y e)))

  do_remove-IsNulled :
      (b : Broker S) (x y : ℕ) (cs : List Completion)
      → IsNulled x cs
      → IsNulled x (do_remove ws b y cs).2
  unfolding do_remove
  do_remove-IsNulled b x y cs h =
      if_either (λ (q : Status × Broker S × List Completion). IsNulled x q.2)
        (not (is_initialized (b.watchers y))) _ _ (λ _. h)
        (λ _.
          if_either (IsNulled x) (is_ok (ws.remove y (b.watchers y) b.waitset).0) _ _
            (λ _. IsNulled-forget x y cs h) (λ _. h))

  do_remove-nulls :
      (b : Broker S) (x : ℕ) (cs : List Completion)
      → is_ok (do_remove ws b x cs).0 ≡ true
      → IsNulled x (do_remove ws b x cs).2
  unfolding do_remove
  do_remove-nulls b x cs =
      if_either (λ (q : Status × Broker S × List Completion). is_ok q.0 ≡ true → IsNulled x q.2)
        (not (is_initialized (b.watchers x))) _ _
        (λ _ e. absurd (omega (arith, ap {B = ℕ} (λ k. if k then 1 else 0) e)))
        (λ _ e. subst (IsNulled x) (sym (if_true _ _ e)) (forget-IsNulled x cs))

  -- What an operation keeps.
  record OpKeeps (b : Broker S) (cs : List Completion) (o : BrokerOp) (y : ℕ)
      (q : Status × Broker S × List Completion) : Type 0 where
    own : IsOwn b.watchers → IsOwn q.1.watchers
    nulled : (x : ℕ) → IsNulled x cs → IsNulled x q.2
    removal : o ≡ remove_op → is_ok q.0 ≡ true → IsNulled y q.2

  do_op_on-OpKeeps :
      (o : BrokerOp) (b : Broker S) (cs : List Completion) (x : ℕ)
      → OpKeeps b cs o x (do_op_on ws o b cs x)
  do_op_on-OpKeeps add_op b cs x = record {
    own = do_add-IsOwn b x;
    nulled = λ y h. h;
    removal =
        λ f _. absurd (omega (arith, ap {B = ℕ} (λ o. elim o [ add_op ↦ 0 | remove_op ↦ 1 ]) f));
  }
  do_op_on-OpKeeps remove_op b cs x = record {
    own = do_remove-IsOwn b x cs;
    nulled = λ y h. do_remove-IsNulled b y x cs h;
    removal = λ _ ok. do_remove-nulls b x cs ok;
  }

  -- What holds of the round's results if there are any.
  record IsAfter (b : Broker S) (cs : List Completion) (d : Drained ws) : Type 0 where
    own : IsOwn b.watchers → IsOwn d.0.watchers
    nulled : (x : ℕ) → IsNulled x cs → IsNulled x d.1
    removal : (x : ℕ) → IsRemoved x d.2 → IsNulled x d.1

  abbrev AfterAll : Broker S → List Completion → Option (Drained ws) → Type 0
  AfterAll b cs none = Unit {0}
  AfterAll b cs (some d) = IsAfter b cs d

  answered-AfterAll :
      (b : Broker S) (cs : List Completion) (req : Request)
      (q : Status × Broker S × List Completion) (o : Option (Drained ws))
      → OpKeeps b cs req.op req.watcher q
      → AfterAll q.1 q.2 o
      → AfterAll b cs (answered ws (record { request = req; rc = q.0 }) o)
  answered-AfterAll b cs req q none k h = tt
  answered-AfterAll b cs req q (some d) k h = record {
    own = λ o. h.own (k.own o);
    nulled = λ x n. h.nulled x (k.nulled x n);
    removal = λ x r. elim r [
      | inl (is_remove, is_x, ok) ↦
          h.nulled x (subst (λ y. IsNulled y q.2) is_x (k.removal is_remove ok))
      | inr later ↦ h.removal x later
    ];
  }

  next_op-AfterAll :
      (queue : List Request) (b : Broker S) (cs : List Completion)
      (rest : Broker S → List Completion → Option (Drained ws))
      → ((b' : Broker S) (cs' : List Completion) → AfterAll b' cs' (rest b' cs'))
      → AfterAll b cs (next_op ws queue b cs rest)
  unfolding do_op
  next_op-AfterAll [] b cs rest h = record {
    own = λ o. o;
    nulled = λ x n. n;
    removal = λ x r. absurd r;
  }
  next_op-AfterAll (req ∷ queue) b cs rest h =
      let q : Status × Broker S × List Completion =
        do_op_on ws req.op (record b { op_queue = queue }) cs req.watcher in
      let k : OpKeeps (record b { op_queue = queue }) cs req.op req.watcher q =
        do_op_on-OpKeeps req.op (record b { op_queue = queue }) cs req.watcher in
      answered-AfterAll b cs req q (rest q.1 q.2)
        (record { own = k.own; nulled = k.nulled; removal = k.removal }) (h q.1 q.2)

  drain_op_queue-AfterAll :
      (turns : List Turn) (b : Broker S) (cs : List Completion)
      → AfterAll b cs (drain_op_queue ws turns b cs)
  unfolding drain_op_queue
  drain_op_queue-AfterAll [] b cs = tt
  drain_op_queue-AfterAll (t ∷ turns) b cs =
      if_either (AfterAll b cs) (is_ok t.lock) _ _
        (λ _.
          next_op-AfterAll (b.op_queue ++ t.arrivals) b cs (drain_op_queue ws turns)
            (drain_op_queue-AfterAll turns))
        (λ _. record { own = λ o. o; nulled = λ x n. n; removal = λ x r. absurd r })

user_data_of-other :
    (watchers : ℕ → Watcher) (event x : ℕ) (o : Option ℕ)
    → IsOwn watchers
    → is_at x o ≡ false
    → is_at x (user_data_of watchers event o) ≡ false
user_data_of-other watchers event x none own e = refl
user_data_of-other watchers event x (some w) own e =
    if_either (λ k. is_at x k ≡ false) (w == event) _ _ (λ _. refl)
      (λ _. other (watchers w).user_data (own w))
  where
    other : (o : Option ℕ) → ((y : ℕ) → o ≡ some y → y ≡ w) → is_at x o ≡ false
    other none h = refl
    other (some y) h = ap (λ z. z == x) (h y refl) ∙ e

dispatch-NotCalled :
    (react : React) (event : ℕ) (watchers : ℕ → Watcher) (x : ℕ) (cs : List Completion)
    → IsOwn watchers
    → ((y events : ℕ) (ws : ℕ → Watcher) → IsOwn ws → IsOwn (react y events ws))
    → IsNulled x cs
    → NotCalled x (dispatch react event watchers cs).1
unfolding dispatch
dispatch-NotCalled react event watchers x [] own keeps h = tt
dispatch-NotCalled react event watchers x (c ∷ cs) own keeps (e, h) =
    called_or_not (user_data_of watchers event c.waitable)
      (user_data_of-other watchers event x c.waitable own e)
      (dispatch-NotCalled react event watchers x cs own keeps h)
      (λ y.
        dispatch-NotCalled react event (react y c.triggered_events watchers) x cs
          (keeps y c.triggered_events watchers own) keeps h)
  where
    called_or_not :
        (o : Option ℕ)
        → is_at x o ≡ false
        → NotCalled x (dispatch react event watchers cs).1
        → ((y : ℕ) → NotCalled x (dispatch react event (react y c.triggered_events watchers) cs).1)
        → NotCalled x (
            call_of watchers o c.triggered_events
              (dispatch react event (watchers_after react o c.triggered_events watchers) cs).1)
    called_or_not none f skip go = skip
    called_or_not (some y) f skip go = (==→ne y x f, go y)

abbrev CallsOf : {S : Type 0} → ℕ → Option (Broker S × List Reply × List HandlerCall) → Type 0
CallsOf x none = Unit {0}
CallsOf x (some (b, answers, calls)) = IsRemoved x answers → NotCalled x calls

-- Where handlers leave the user data to the broker: a watcher whose removal is answered with NS_OK
-- is not called any more in the round, even if it had an event in it.
pub round-NotCalled :
    {S : Type 0} (ws : Waitset S) (react : React) (turns : List Turn) (rc : Status)
    (completions : List Completion) (b b' : Broker S) (answers : List Reply)
    (calls : List HandlerCall) (x : ℕ)
    → IsOwn b.watchers
    → ((y events : ℕ) (watchers : ℕ → Watcher) → IsOwn watchers → IsOwn (react y events watchers))
    → round ws react turns rc completions b ≡ some (b', answers, calls)
    → IsRemoved x answers
    → NotCalled x calls
unfolding round
round-NotCalled {S} ws react turns rc completions b b' answers calls x own keeps e =
    subst (CallsOf x) e (
      of (drain_op_queue ws turns b (if is_ok rc then completions else []))
        (drain_op_queue-AfterAll ws turns b (if is_ok rc then completions else [])))
  where
    of :
        (o : Option (Drained ws))
        → AfterAll ws b (if is_ok rc then completions else []) o
        → CallsOf x (dispatched ws react o)
    of none h = tt
    of (some d) h =
        λ r. dispatch-NotCalled react d.0.event d.0.watchers x d.1 (h.own own) keeps (h.removal x r)
