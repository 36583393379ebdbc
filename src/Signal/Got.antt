-- ===== src/Signal/Got.antt =====
-- src/nanosig.c: what the loops have got of an emission.
use nanosig.Base.{
  ℕ, suc, ◌+◌, ◌^◌, ◌<◌, ◌≡◌, refl, sym, ◌∙◌, ap, subst, inl, inr, ◌⊎◌, Option, some, false, List,
  [], ◌∷◌, ◌++◌, append-nil, append_assoc, if◌then◌else◌, ◌==◌, ==→eq, Bool-cases, arith, length,
  Bytes, Status, is_ok, update, update_same,
}
use nanosig.Mpsc.Ring.{Ring}
use nanosig.Mpsc.Push.{try_pushv}
use nanosig.Mpsc.Push.Steps.{Ends}
use nanosig.Loop.{Call}
use nanosig.Loop.Dispatch.{Waits}
use nanosig.Signal.{Connection, World, Platform, call_parts, delivered, refused}
use nanosig.Signal.Message.{message}

-- The calls that a loop gets, of the connections in order.
abbrev pub sent : (ℕ → Connection) → Option Bytes → ℕ → ℕ → List ℕ → List Call
sent conns payload n l [] = []
sent conns payload n l (x ∷ xs) =
    let rest = sent conns payload n l xs in
    if l == (conns x).target_loop then message (conns x) payload n ∷ rest else rest

-- A connection whose addresses are words, and whose pushes end.
pub record IsConnection (pf : Platform) (conns : ℕ → Connection) (x : ℕ) : Type 0 where
  pub fn_word : (conns x).slot_fn < 2 ^ 64
  pub user_data_word : (conns x).user_data < 2 ^ 64
  pub ends : Ends (pf.rounds x)

abbrev pub AllConnections : Platform → (ℕ → Connection) → List ℕ → Type 0
AllConnections pf conns [] = Unit {0}
AllConnections pf conns (x ∷ xs) = IsConnection pf conns x × AllConnections pf conns xs

-- Between the two worlds every loop got its calls of these connections, and was woken for each.
pub record Got (w w' : World) (waiting : ℕ → List Call) (payload : Option Bytes) (n : ℕ)
    (ys : List ℕ) : Type 0 where
  pub waits : (l : ℕ) → Waits (w'.loops l).queue (waiting l ++ sent w.connections payload n l ys)
  pub woken :
      (l : ℕ)
      → (w'.loops l).wakeups ≡ (w.loops l).wakeups + length (sent w.connections payload n l ys)
  pub rest :
      (l : ℕ)
      → w'.loops l
        ≡ record (w.loops l) { queue = (w'.loops l).queue; wakeups = (w'.loops l).wakeups }
  pub untouched : (l : ℕ) → sent w.connections payload n l ys ≡ [] → w'.loops l ≡ w.loops l
  pub same_heap : w'.heap ≡ w.heap
  pub same_signals : w'.signals ≡ w.signals
  pub same_connections : w'.connections ≡ w.connections

-- The status is what the push for the first of these connections returns, which fails.
abbrev pub Refuses : Platform → World → Option Bytes → ℕ → List ℕ → Status → Type 0
Refuses pf w payload n [] s = ⊥
Refuses pf w payload n (y ∷ ys) s =
    let conn = w.connections y in
    let queue = (w.loops conn.target_loop).queue in
    (is_ok s ≡ false)
    × (try_pushv (pf.rounds y) (some queue) (some (call_parts conn payload n))
        ≡ some (s, some queue))

-- How far an emission to the connections xs comes.
pub record Emits (pf : Platform) (w : World) (waiting : ℕ → List Call) (payload : Option Bytes)
    (n : ℕ) (xs : List ℕ) (s : Status) (w' : World) : Type 0 where
  pub reached : List ℕ
  pub left : List ℕ
  pub split : xs ≡ reached ++ left
  pub got : Got w w' waiting payload n reached
  pub ending : ((s ≡ Status.ns_ok) × (left ≡ [])) ⊎ Refuses pf w' payload n left s

update_self {ℓ} : {A : Type ℓ} (f : ℕ → A) (a x : ℕ) → update f a (f a) x ≡ f x
update_self f a x = elim (Bool-cases (x == a)) [
  | inl e ↦ rw (==→eq x a e) (update_same f a (f a))
  | inr e ↦ rw e refl
]

-- A push that fails leaves the queue, so that it fails on what the emission leaves.
pub Refuses-refused :
    (pf : Platform) (w : World) (payload : Option Bytes) (n x : ℕ) (xs : List ℕ) (s : Status)
    → is_ok s ≡ false
    → let conn = w.connections x in
      let queue = (w.loops conn.target_loop).queue in
      try_pushv (pf.rounds x) (some queue) (some (call_parts conn payload n)) ≡ some (s, some queue)
      → Refuses pf (refused w conn.target_loop (some queue)) payload n (x ∷ xs) s
Refuses-refused pf w payload n x xs s bad e =
    let conn = w.connections x in
    (
      bad,
      subst
          (λ k.
            try_pushv (pf.rounds x) (some k.queue) (some (call_parts conn payload n))
            ≡ some (s, some k.queue))
          (sym (update_self w.loops conn.target_loop conn.target_loop)) e,
    )

pub Refuses-bad :
    (pf : Platform) (w : World) (payload : Option Bytes) (n : ℕ) (ys : List ℕ) (s : Status)
    → Refuses pf w payload n ys s
    → is_ok s ≡ false
Refuses-bad pf w payload n [] s h = absurd h
Refuses-bad pf w payload n (y ∷ ys) s h = h.0

-- The emission to a first connection that is refused.
pub Got-none :
    (w : World) (t : ℕ) (waiting : ℕ → List Call) (payload : Option Bytes) (n : ℕ)
    → ((l : ℕ) → Waits (w.loops l).queue (waiting l))
    → Got w (refused w t (some (w.loops t).queue)) waiting payload n []
Got-none w t waiting payload n q = record {
  waits = λ l.
      subst (λ k. Waits k.queue (waiting l ++ [])) (sym (update_self w.loops t l))
        (subst (Waits (w.loops l).queue) (sym (append-nil (waiting l))) (q l));
  woken = λ l. ap (λ k. k.wakeups) (update_self w.loops t l) ∙ omega arith;
  rest = λ l.
      subst (λ k. k ≡ record (w.loops l) { queue = k.queue; wakeups = k.wakeups })
        (sym (update_self w.loops t l)) refl;
  untouched = λ l _. update_self w.loops t l;
  same_heap = refl;
  same_signals = refl;
  same_connections = refl;
}

-- What waits after a call came in for the loop t.
abbrev pub and_then : (ℕ → List Call) → ℕ → Call → ℕ → List Call
and_then waiting t c l = if l == t then waiting l ++ c ∷ [] else waiting l

pub and_then-Waits :
    (w : World) (t : ℕ) (waiting : ℕ → List Call) (c : Call) (rg : Ring)
    → ((l : ℕ) → Waits (w.loops l).queue (waiting l))
    → Waits rg (waiting t ++ c ∷ [])
    → (l : ℕ) → Waits ((delivered w t (some rg)).loops l).queue (and_then waiting t c l)
and_then-Waits w t waiting c rg q v l = elim (Bool-cases (l == t)) [
  | inl e ↦ rw e (subst (λ k. Waits rg (waiting k ++ c ∷ [])) (sym (==→eq l t e)) v)
  | inr e ↦ rw e (q l)
]

woken_once :
    (w : World) (t : ℕ) (rg : Ring) (l : ℕ)
    → ((delivered w t (some rg)).loops l).wakeups ≡ (w.loops l).wakeups + (if l == t then 1 else 0)
woken_once w t rg l = elim (Bool-cases (l == t)) [
  | inl e ↦ rw e (ap (λ k. suc (w.loops k).wakeups) (sym (==→eq l t e)) ∙ omega arith)
  | inr e ↦ rw e (omega arith)
]

-- The emission to a first connection and then to the others.
pub Got-cons :
    (w w' : World) (x : ℕ) (rg : Ring) (waiting : ℕ → List Call) (payload : Option Bytes) (n : ℕ)
    (ys : List ℕ)
    → let conn = w.connections x in
      Got
        (delivered w conn.target_loop (some rg))
        w'
        (and_then waiting conn.target_loop (message conn payload n))
        payload
        n
        ys
      → Got w w' waiting payload n (x ∷ ys)
Got-cons w w' x rg waiting payload n ys g = record {
  waits = λ l. elim (Bool-cases (l == t)) [
    | inl e ↦ rw e (
        subst (Waits (w'.loops l).queue)
          (ap
              (λ b.
                (if b then waiting l ++ m ∷ [] else waiting l) ++ sent w.connections payload n l ys)
              e
            ∙ append_assoc (waiting l) (m ∷ []) (sent w.connections payload n l ys))
          (g.waits l))
    | inr e ↦ rw e (
        subst (Waits (w'.loops l).queue)
          (ap
            (λ b.
              (if b then waiting l ++ m ∷ [] else waiting l) ++ sent w.connections payload n l ys)
            e)
          (g.waits l))
  ];
  woken = λ l. elim (Bool-cases (l == t)) [
    | inl e ↦
        let once = ap (λ b. (w.loops l).wakeups + (if b then 1 else 0)) e in
        rw e (omega (arith, g.woken l, woken_once w t rg l, once))
    | inr e ↦
        let never = ap (λ b. (w.loops l).wakeups + (if b then 1 else 0)) e in
        rw e (omega (arith, g.woken l, woken_once w t rg l, never))
  ];
  rest = λ l. g.rest l ∙ kept (w'.loops l).queue (w'.loops l).wakeups l;
  untouched = λ l none_sent. elim (Bool-cases (l == t)) [
    | inl e ↦ absurd (
        omega (
          arith,
          ap (λ b. length (if b then m ∷ later l else later l)) (sym e) ∙ ap length none_sent,
        ))
    | inr e ↦
        g.untouched l (ap (λ b. if b then m ∷ later l else later l) (sym e) ∙ none_sent) ∙ rw e refl
  ];
  same_heap = g.same_heap;
  same_signals = g.same_signals;
  same_connections = g.same_connections;
}
  where
    t : ℕ
    t = (w.connections x).target_loop

    m : Call
    m = message (w.connections x) payload n

    later : ℕ → List Call
    later l = sent w.connections payload n l ys

    kept :
        (queue : Ring) (wakeups l : ℕ)
        → record ((delivered w t (some rg)).loops l) { queue = queue; wakeups = wakeups }
          ≡ record (w.loops l) { queue = queue; wakeups = wakeups }
    kept queue wakeups l = elim (Bool-cases (l == t)) [
      | inl e ↦
          rw e
            (ap (λ k. record (w.loops k) { queue = queue; wakeups = wakeups }) (sym (==→eq l t e)))
      | inr e ↦ rw e refl
    ]
