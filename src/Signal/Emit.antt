-- ===== src/Signal/Emit.antt =====
-- `ns_signal_emit_raw` into the queues of the loops.
use nanosig.Base.{
  ℕ, zero, suc, ◌<◌, ◌≡◌, ◌≢◌, refl, sym, ◌∙◌, ap, subst, inl, inr, Option, some, none, true, false,
  ◌&&◌, List, [], ◌∷◌, append-nil, if◌then◌else◌, ltb, ◌==◌, ne→==, Bool-cases, ==_refl, arith,
  length, Bytes, Status, is_ok, IsFresh,
}
use nanosig.Mpsc.Push.Parts.{Given}
use nanosig.Links.Chain.{IsChain, first_of, chain_first, flip}
use nanosig.Links.Ring.{IsRing}
use nanosig.Loop.{Call}
use nanosig.Loop.Dispatch.{Waits}
use nanosig.Signal.{
  Connection, World, Platform, signal_lock, signal_unlock, call_parts, delivered, refused,
  emit_loop, emit_raw, is_null,
}
use nanosig.Signal.Message.{message, gathered-message, parts-Given, message-IsCall, push_call}
use nanosig.Signal.Got.{
  AllConnections, Emits, Refuses-refused, Got-none, and_then, and_then-Waits, Got-cons,
}

abbrev replies : World → Status → Option (Status × World)
replies w s = some (s, w)

needs_no_payload :
    (payload : Option Bytes) (n : ℕ) → Given payload n → (ltb 0 n && is_null payload) ≡ false
needs_no_payload none n h = ground arith
needs_no_payload (some b) n h = ground arith

-- The lock of a signal that is initialised is the mutex's.
module _ (pf : Platform) (w : World) (signal : ℕ) (named : signal ≢ 0)
    (live : (w.signals signal).mutex_initialized ≡ true) where
  pub locks_live : signal_lock pf w signal ≡ pf.mutex_lock
  unfolding signal_lock
  locks_live = rw (ne→== signal 0 named, live) refl

  pub unlocks_live : signal_unlock pf w signal ≡ pf.mutex_unlock
  unfolding signal_unlock
  unlocks_live = rw (ne→== signal 0 named, live) refl

module _ (pf : Platform) (payload : Option Bytes) (n : ℕ) (given : Given payload n) where
  emit_loop_lem :
      (xs : List ℕ) (fuel head : ℕ) (w : World) (waiting : ℕ → List Call)
      → (a : ℕ) → IsChain w.heap a xs head
      → IsFresh head xs
      → AllConnections pf w.connections xs
      → ((l : ℕ) → Waits (w.loops l).queue (waiting l))
      → length xs < fuel
      → (s : Status) × (w' : World) × (emit_loop fuel pf w head (first_of xs head) payload n
          ≡ some (s, w'))
        × Emits pf w waiting payload n xs s w'
  unfolding emit_loop
  emit_loop_lem xs zero head w waiting a c f v q enough = absurd (omega arith)
  emit_loop_lem [] (suc fuel) head w waiting a c f v q enough = (
    Status.ns_ok,
    w,
    rw (==_refl head) refl,
    record {
      reached = [];
      left = [];
      split = refl;
      got = record {
        waits = λ l. subst (Waits (w.loops l).queue) (sym (append-nil (waiting l))) (q l);
        woken = λ l. omega arith;
        rest = λ l. refl;
        untouched = λ l _. refl;
        same_heap = refl;
        same_signals = refl;
        same_connections = refl;
      };
      ending = inl (refl, refl);
    },
  )
  emit_loop_lem (x ∷ xs) (suc fuel) head w waiting a c f v q enough =
      elim (push_call (pf.rounds x) (call_parts conn payload n) (message conn payload n) (q t)
        (parts-Given conn payload n given) (gathered-message conn payload n given)
        (message-IsCall conn payload n v.0.fn_word v.0.user_data_word given) v.0.ends) [
          | inl (s, bad, e) ↦ (
            s,
            refused w t (some (w.loops t).queue),
            rw (ne→== x head (flip f.0), e, bad) refl,
            record {
              reached = [];
              left = x ∷ xs;
              split = refl;
              got = Got-none w t waiting payload n q;
              ending = inr (Refuses-refused pf w payload n x xs s bad e);
            },
          )
          | inr (rg, e, waits) ↦
              let (s, w', run, done) =
                emit_loop_lem xs fuel head (delivered w t (some rg))
                  (and_then waiting t (message conn payload n)) x c.2 f.1 v.1
                  (and_then-Waits w t waiting (message conn payload n) rg q waits) (omega arith) in
              (
                s,
                w',
                rw (ne→== x head (flip f.0), e)
                    (ap (λ k. emit_loop fuel pf (delivered w t (some rg)) head k payload n)
                        (chain_first w.heap x head xs c.2)
                      ∙ run),
                record {
                  reached = x ∷ done.reached;
                  left = done.left;
                  split = ap (◌∷◌ x) done.split;
                  got = Got-cons w w' x rg waiting payload n done.reached done.got;
                  ending = done.ending;
                },
              )
        ]
    where
      conn : Connection
      conn = w.connections x

      t : ℕ
      t = conn.target_loop

  -- `ns_signal_emit_raw` of a signal that is initialised, with a payload of its size, and with a
  -- mutex that locks: it ends, in one round more than the signal has connections. The connections
  -- get the call in the order of the list up to the first whose queue refuses the record. Each loop
  -- then has, behind what waited, one call for each of its connections that was reached, and was
  -- woken as often. Where none refuses, all are reached and the result is that of the unlocking;
  -- otherwise it is what the push into that queue returns. Of the loops nothing else changes, and
  -- nothing of those that got no call; nor do the signals, the connections and the lists.
  pub emit_raw_lem :
      (fuel signal : ℕ) (xs : List ℕ) (w : World) (waiting : ℕ → List Call)
      → signal ≢ 0
      → (w.signals signal).mutex_initialized ≡ true
      → (w.signals signal).payload_size ≡ n
      → pf.mutex_lock ≡ Status.ns_ok
      → IsRing w.heap signal xs
      → AllConnections pf w.connections xs
      → ((l : ℕ) → Waits (w.loops l).queue (waiting l))
      → length xs < fuel
      → (s : Status) × (w' : World) × (emit_raw fuel pf w signal payload n
          ≡ some (if is_ok s then pf.mutex_unlock else s, w'))
        × Emits pf w waiting payload n xs s w'
  unfolding emit_raw
  emit_raw_lem fuel signal xs w waiting named live sized locks r v q enough =
      let (s, w', run, done) =
        emit_loop_lem xs fuel signal w waiting signal r.chain r.distinct.0 v q enough in
      (
        s,
        w',
        rw
            (
              ne→== signal 0 named,
              same_size,
              needs_no_payload payload n given,
              locks_live pf w signal named live ∙ locks,
              chain_first w.heap signal signal xs r.chain,
              run,
            )
            (finish s w' (
              unlocks_live pf w' signal named
                (ap (λ k. (k signal).mutex_initialized) done.got.same_signals ∙ live))),
        done,
      )
    where
      same_size : ((w.signals signal).payload_size == n) ≡ true
      same_size = ap (λ k. k == n) sized ∙ ==_refl n

      finish :
          (s : Status) (w' : World)
          → signal_unlock pf w' signal ≡ pf.mutex_unlock
          → (if is_ok s then replies w' (signal_unlock pf w' signal) else replies w' s)
            ≡ some (if is_ok s then pf.mutex_unlock else s, w')
      finish s w' e = elim (Bool-cases (is_ok s)) [
        | inl good ↦ rw good (ap (λ u. some (u, w')) e)
        | inr bad ↦ rw bad refl
      ]
