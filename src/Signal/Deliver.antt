-- ===== src/Signal/Deliver.antt =====
-- src/nanosig.c: an emission and the dispatching in the loops, together.
use nanosig.Base.{
  ℕ, ◌<◌, ◌≡◌, sym, ◌∙◌, ap, subst, Option, some, none, true, List, [], ◌∷◌, ◌++◌, append-nil,
  if◌then◌else◌, length, Bytes, Status, is_ok, arith, ◌≤◌, ◌==◌, Bool-cases, inl, inr, false,
}
use nanosig.Mpsc.Push.Parts.{Given}
use nanosig.Loop.{Loop, Call, dispatch_pending}
use nanosig.Loop.Dispatch.{Waits, Appends, dispatch_pending_once}
use nanosig.Signal.{Connection, World, Platform, emit_raw}
use nanosig.Signal.Got.{sent, AllConnections, Got, Emits, Refuses-bad}
use nanosig.Signal.Emit.{emit_raw_lem}
use nanosig.Signal.Connect.{Connects}

length-sent :
    (conns : ℕ → Connection) (payload : Option Bytes) (n l : ℕ) (xs : List ℕ)
    → length (sent conns payload n l xs) ≤ length xs
length-sent conns payload n l [] = omega arith
length-sent conns payload n l (x ∷ xs) =
    let rest = length-sent conns payload n l xs in
    elim (Bool-cases (l == (conns x).target_loop)) [
      | inl e ↦ rw e (omega (arith, rest))
      | inr e ↦ rw e (omega (arith, rest))
    ]

-- An emission that ended well has reached all.
reached_all :
    {pf : Platform} {w : World} {waiting : ℕ → List Call} {payload : Option Bytes} {n : ℕ}
    {xs : List ℕ} {s : Status} (u : Status) {w' : World}
    → (if is_ok s then u else s) ≡ Status.ns_ok
    → Emits pf w waiting payload n xs s w'
    → Got w w' waiting payload n xs
reached_all {pf} {w} {waiting} {payload} {n} {s = s} u {w' = w'} e done = elim done.ending [
  | inl (good, none_left) ↦
      subst (Got w w' waiting payload n)
        (sym (done.split ∙ ap (λ k. done.reached ++ k) none_left ∙ append-nil done.reached))
        done.got
  | inr stop ↦
      let bad = Refuses-bad pf w' payload n done.left s stop in
      let never : true ≡ false =
        ap is_ok (sym e) ∙ ap (λ b. is_ok (if b then u else s)) bad ∙ bad in
      absurd (omega (arith, ap {B = ℕ} (λ b. if b then 1 else 0) never))
]

-- A signal was emitted with success while no call waited anywhere. Dispatching a loop then calls
-- each slot that is connected to it once, in the order of the connections, with the payload's
-- bytes, and leaves its queue empty. The slots append no calls.
pub emit_then_dispatch :
    (pf : Platform) (payload : Option Bytes) (n fuel signal : ℕ) (xs : List ℕ) (w w' : World)
    (l rounds : ℕ) {react : Call → Loop → Loop}
    → Given payload n
    → Connects w signal xs
    → (w.signals signal).payload_size ≡ n
    → pf.mutex_lock ≡ Status.ns_ok
    → AllConnections pf w.connections xs
    → ((k : ℕ) → Waits (w.loops k).queue [])
    → length xs < fuel
    → emit_raw fuel pf w signal payload n ≡ some (Status.ns_ok, w')
    → Appends react (λ c l. [])
    → length xs < rounds
    → (l' : Loop) × (dispatch_pending rounds react (w'.loops l)
        ≡ some (l', sent w.connections payload n l xs))
      × Waits l'.queue []
emit_then_dispatch pf payload n fuel signal xs w w' l rounds given v sized locks conns idle enough
      ran quiet long =
    let (s, k, run, done) =
      emit_raw_lem pf payload n given fuel signal xs w (λ l. []) v.named v.live sized locks v.ring
        conns idle enough in
    let e : some (Status.ns_ok, w') ≡ some (if is_ok s then pf.mutex_unlock else s, k) =
      sym ran ∙ run in
    let got : Got w w' (λ l. []) payload n xs =
      subst (λ z. Got w z (λ l. []) payload n xs) (sym (ap (λ o. (or_else o w).1) e))
        (reached_all pf.mutex_unlock (sym (ap (λ o. (or_else o w).0) e)) done) in
    dispatch_pending_once rounds (w'.loops l) (sent w.connections payload n l xs) quiet
      (got.waits l) (le_trans_lt (length-sent w.connections payload n l xs) long)
  where
    le_trans_lt : {a b c : ℕ} → a ≤ b → b < c → a < c
    le_trans_lt h k = omega arith

    or_else : Option (Status × World) → World → Status × World
    or_else none z = (Status.ns_ok, z)
    or_else (some o) z = o
