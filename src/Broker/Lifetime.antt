-- ===== src/Broker/Lifetime.antt =====
-- src/ns_broker.c: a watcher from `ns_watcher_init` to `ns_watcher_deinit`.
use nanosig.Base.{
  ◌≡◌, ◌⊎◌, inl, inr, ℕ, refl, if_either, if_false, not-false, Bool, true, false, not, ◌&&◌, Option,
  some, Status, is_ok,
}
use nanosig.Broker.{
  Watcher, has_handler, is_initialized, events_are_valid, watcher_init, watcher_deinit,
  watcher_handle, reset_empty,
}

-- What `ns_watcher_init` asks for.
abbrev pub Accepts : (ℕ → Bool) → Bool → ℕ → ℕ → Option ℕ → Type 0
Accepts handle_is_valid ready handle events handler =
    (has_handler handler ≡ true)
    × (handle_is_valid handle ≡ true)
    × (events_are_valid events ≡ true)
    × (ready ≡ true)

-- What is made of a watcher's memory: nothing, or a watcher that can be taken down again.
abbrev pub IsInit :
    (ℕ → Bool) → Bool → Watcher → ℕ → ℕ → Option ℕ → Status × Option Watcher → Type 0
IsInit handle_is_valid ready w handle events handler q =
    ((is_ok q.0 ≡ false) × (q.1 ≡ some w))
    ⊎ (Accepts handle_is_valid ready handle events handler
        × (q.0 ≡ Status.ns_ok)
        × (watcher_handle q.1 ≡ handle)
        × ((has_broker : Bool) → watcher_deinit has_broker q.1 ≡ (Status.ns_ok, some reset_empty)))

and_false : (b : Bool) → (b && false) ≡ false
and_false true = refl
and_false false = refl

made :
    (handle_is_valid : ℕ → Bool) (ready : Bool) (w : Watcher) (handle events : ℕ) (edge : Bool)
    (handler : Option ℕ)
    → Accepts handle_is_valid ready handle events handler
    → IsInit handle_is_valid ready w handle events handler (
      Status.ns_ok,
      some (record reset_empty {
        handler = handler;
        events = events;
        edge_triggered = edge;
        primitive = handle;
      }),
    )
unfolding watcher_deinit is_initialized watcher_handle
made handle_is_valid ready w handle events edge handler a = inr (
  a,
  refl,
  refl,
  λ has_broker.
      rw (a.0, a.2)
        (if_false {A = Status × Option Watcher} _ (Status.ns_ok, some reset_empty)
          (and_false has_broker)),
)

-- The start refuses and changes nothing; or there are a handler, a valid handle and valid events, the
-- library is initialised, and the watcher has its handle then and can be taken down again, with
-- nothing of it left.
pub watcher_init_lem :
    (handle_is_valid : ℕ → Bool) (ready : Bool) (w : Watcher) (handle events : ℕ) (edge : Bool)
    (handler : Option ℕ)
    → IsInit handle_is_valid ready w handle events handler
        (watcher_init handle_is_valid ready (some w) handle events edge handler)
unfolding watcher_init
watcher_init_lem handle_is_valid ready w handle events edge handler =
    if_either Q (not (has_handler handler)) _ _ (λ _. inl (refl, refl))
      (λ h.
        if_either Q (not (handle_is_valid handle)) _ _ (λ _. inl (refl, refl))
          (λ k.
            if_either Q (not (events_are_valid events)) _ _ (λ _. inl (refl, refl))
              (λ v.
                if_either Q (not ready) _ _ (λ _. inl (refl, refl))
                  (λ r.
                    made handle_is_valid ready w handle events edge handler
                      (not-false _ h, not-false _ k, not-false _ v, not-false _ r)))))
  where
    Q : Status × Option Watcher → Type 0
    Q q = IsInit handle_is_valid ready w handle events handler q
