-- ===== src/Mpsc/Client.antt =====
-- Clients of the record ring, and the queue of records that they see.
use nanosig.Base.{
  ℕ, ◌+◌, ◌-◌, ◌<◌, ◌≡◌, refl, ◌∙◌, ap, subst, inl, inr, Option, some, none, Bool, true, List, [],
  ◌∷◌, ◌++◌, arith, length, take, drop, take_all, ◌^◌, ◌==◌, Bool-cases, Bytes, Status,
}
use mathlib.Core.List.{append-nil}
use nanosig.Mpsc.Ring.{Ring}
use nanosig.Mpsc.Ring.Layout.{Entry, fake, busy, done, span, total_size}
use nanosig.Mpsc.Ring.Holds.{Holds, payloads}
use nanosig.Mpsc.Push.{Part, try_push}
use nanosig.Mpsc.Push.Parts.{AllGiven, gathered}
use nanosig.Mpsc.Push.Written.{fakes}
use nanosig.Mpsc.Push.Planning.{pad}
use nanosig.Mpsc.Push.Steps.{Ends, after_push}
use nanosig.Mpsc.Push.Refine.{try_pushv_lem}
use nanosig.Mpsc.Take.{Acquired, try_acquire, release}
use nanosig.Mpsc.Take.Refine.{answer, skip, payload_shown}
use nanosig.Mpsc.Take.Fifo.{try_acquire_lem, release_lem}

-- A call of a producer, with the outcomes of its swaps, or of the consumer, which acquires, copies
-- the record, and releases it.
pub data Op : Type 0 where
  push : List Bool → Bytes → Op
  pop : Op

pub data Reply : Type 0 where
  pushed : Status → Reply
  popped : Option Bytes → Reply

-- The record that the consumer copies.
abbrev pub record_bytes : Ring → ℕ → ℕ → Bytes
record_bytes rg addr size = take size (drop (addr - rg.storage) rg.mem)

abbrev released : Bytes → Status × Option Ring → Option (Reply × Ring)
released b (Status.ns_ok, some rg) = some (popped (some b), rg)
released b _ = none

abbrev acquired : Status → Option Ring → ℕ → ℕ → Option (Reply × Ring)
acquired Status.ns_ok (some rg) addr size =
    released (record_bytes rg addr size) (release (some rg) addr)
acquired Status.empty (some rg) addr size = some (popped none, rg)
acquired _ _ addr size = none

abbrev answered : Option (Status × Option Ring) → Option (Reply × Ring)
answered (some (s, some rg)) = some (pushed s, rg)
answered _ = none

abbrev popped_by : Option Acquired → Option (Reply × Ring)
popped_by none = none
popped_by (some a) = acquired a.status a.ring a.out_record a.out_size

-- `none` is a call that does not end, or that ends in a way a queue has no answer for.
pub call : Ring → Op → Option (Reply × Ring)
call rg (push rounds b) = answered (try_push rounds (some rg) (some b) (length b))
call rg pop = popped_by (try_acquire (some rg) true true)

-- What a call may do to a queue of records, oldest first. A record that is too long is refused for
-- good, and one for which there is no room for now.
pub data QueueStep : List Bytes → Op → Reply → List Bytes → Type 0 where
  takes_in :
      {q : List Bytes} {rounds : List Bool} {b : Bytes}
      → QueueStep q (push rounds b) (pushed Status.ns_ok) (q ++ b ∷ [])
  full :
      {q : List Bytes} {rounds : List Bool} {b : Bytes}
      → QueueStep q (push rounds b) (pushed Status.queue_full) q
  too_long :
      {q : List Bytes} {rounds : List Bool} {b : Bytes}
      → QueueStep q (push rounds b) (pushed Status.inval) q
  gives_out : {q : List Bytes} {b : Bytes} → QueueStep (b ∷ q) pop (popped (some b)) q
  has_none : QueueStep [] pop (popped none) []

-- Every record of the ring is committed.
abbrev pub IsSettled : List Entry → Type 0
IsSettled [] = Unit {0}
IsSettled (busy n ∷ es) = ⊥
IsSettled (fake n ∷ es) = IsSettled es
IsSettled (done b ∷ es) = IsSettled es

-- The ring holds a queue of committed records.
pub record Queues (rg : Ring) (q : List Bytes) : Type 0 where
  pub position : ℕ
  pub entries : List Entry
  pub holds : Holds rg position entries
  pub settled : IsSettled entries
  pub records : payloads entries ≡ q

pub IsSettled-append : (xs ys : List Entry) → IsSettled xs → IsSettled ys → IsSettled (xs ++ ys)
IsSettled-append [] ys h k = k
IsSettled-append (fake n ∷ xs) ys h k = IsSettled-append xs ys h k
IsSettled-append (done b ∷ xs) ys h k = IsSettled-append xs ys h k
IsSettled-append (busy n ∷ xs) ys h k = absurd h

pub IsSettled-fakes : (n : ℕ) (b : Bytes) → IsSettled (fakes n ++ done b ∷ [])
IsSettled-fakes n b = elim (Bool-cases (n == 0)) [
  | inl bare ↦ rw bare tt
  | inr padded ↦ rw padded tt
]

pub IsSettled-after_push :
    (rg : Ring) (r : ℕ) (es : List Entry) (b : Bytes)
    → IsSettled es
    → IsSettled (after_push rg r es b)
IsSettled-after_push rg r es b h =
    IsSettled-append es _ h (IsSettled-fakes (pad rg.capacity (r + span es) (length b)) b)

-- A call that ends: the record has a size, and some swap does not fail without a reason.
abbrev pub IsCall : Op → Type 0
IsCall (push rounds b) = Ends rounds × (length b < 2 ^ 64)
IsCall pop = Unit {0}

-- What is asked of one call.
abbrev Refines : Ring → List Bytes → Op → Type 0
Refines rg q op =
    (reply : Reply) × (rg' : Ring) × (q' : List Bytes) × (call rg op ≡ some (reply, rg'))
    × QueueStep q op reply q'
    × Queues rg' q'

push-Refines :
    {rg : Ring} {q : List Bytes} (rounds : List Bool) (b : Bytes)
    → Queues rg q
    → Ends rounds
    → length b < 2 ^ 64
    → Refines rg q (push rounds b)
unfolding call try_push
push-Refines {rg} {q} rounds b v ends sized = elim (try_pushv_lem rounds parts v.holds given ends) [
  | inl (_, e) ↦ (pushed Status.inval, rg, q, ap answered e, too_long, v)
  | inr (inl (_, _, e)) ↦ (pushed Status.queue_full, rg, q, ap answered e, full, v)
  | inr (inr (_, _, (rg', e, held, last))) ↦ (
    pushed Status.ns_ok,
    rg',
    q ++ b ∷ [],
    ap answered e,
    takes_in,
    record {
      position = v.position;
      entries = after_push rg v.position v.entries (gathered parts);
      holds = held;
      settled = IsSettled-after_push rg v.position v.entries (gathered parts) v.settled;
      records = last ∙ ap (λ x. x ++ gathered parts ∷ []) v.records ∙ ap (λ y. q ++ (y ∷ [])) whole;
    },
  )
]
  where
    parts : List Part
    parts = record { bytes = some b; size = length b } ∷ []

    given : AllGiven parts
    given = ((omega arith, sized), tt)

    whole : gathered parts ≡ b
    whole = append-nil (take (length b) b) ∙ take_all (length b) b (omega arith)

-- What the consumer finds at the first entry that is not fake.
pop_first :
    (rg : Ring) {rg' : Ring} {q : List Bytes} {p : ℕ} (es : List Entry)
    → try_acquire (some rg) true true ≡ some (answer rg' p (skip es))
    → Holds rg' p (skip es)
    → IsSettled es
    → payloads es ≡ q
    → Refines rg q pop
unfolding call
pop_first rg {rg'} {q} {p} [] e h s same = (
  popped none,
  rg',
  q,
  ap popped_by e,
  subst (λ k. QueueStep k pop (popped none) k) same has_none,
  record { position = p; entries = []; holds = h; settled = tt; records = same },
)
pop_first rg {rg'} {q} {p} (done b ∷ es) e h s same =
    let (rg'', e', h') = release_lem h in
    (
      popped (some b),
      rg'',
      payloads es,
      ap popped_by e
          ∙ ap (released _) e'
          ∙ ap (λ c. some (popped (some c), rg''))
              (ap (λ k. take (length b) (drop k rg'.mem)) (omega arith) ∙ payload_shown h),
      subst (λ k. QueueStep k pop (popped (some b)) (payloads es)) same gives_out,
      record {
        position = p + total_size (length b);
        entries = es;
        holds = h';
        settled = s;
        records = refl;
      },
    )
pop_first rg (fake n ∷ es) e h s same = pop_first rg es e h s same
pop_first rg (busy n ∷ es) e h s same = absurd s

-- One call on a ring that queues committed records ends, and does what a queue may do.
call-Refines : {rg : Ring} {q : List Bytes} (op : Op) → Queues rg q → IsCall op → Refines rg q op
call-Refines {rg} (push rounds b) v (ends, sized) = push-Refines rounds b v ends sized
call-Refines {rg} pop v _ =
    let (rg', e, h, same) = try_acquire_lem v.holds in
    pop_first rg v.entries e h v.settled v.records

-- What a sequence of calls may do to a queue, with the replies.
pub data QueueRun : List Bytes → List Op → List Reply → List Bytes → Type 0 where
  ends : {q : List Bytes} → QueueRun q [] [] q
  steps :
      {q q' q'' : List Bytes} {op : Op} {ops : List Op} {reply : Reply} {replies : List Reply}
      → QueueStep q op reply q'
      → QueueRun q' ops replies q''
      → QueueRun q (op ∷ ops) (reply ∷ replies) q''

pub run : Ring → List Op → Option (List Reply × Ring)
run rg [] = some ([], rg)
run rg (op ∷ ops) = elim (call rg op) [
  | none ↦ none
  | some (reply, rg') ↦ elim (run rg' ops) [
    | none ↦ none
    | some (replies, rg'') ↦ some (reply ∷ replies, rg'')
  ]
]

abbrev pub AllCalls : List Op → Type 0
AllCalls [] = Unit {0}
AllCalls (op ∷ ops) = IsCall op × AllCalls ops

-- Any sequence of calls of producers and the consumer on a ring that queues committed records ends.
-- Its replies are those of a queue of records, first in and first out, byte for byte, and the ring
-- that it leaves queues what the queue holds then.
pub run-Queues :
    (ops : List Op) {rg : Ring} {q : List Bytes}
    → Queues rg q
    → AllCalls ops
    → (replies : List Reply) × (rg' : Ring) × (q' : List Bytes) × (run rg ops ≡ some (replies, rg'))
      × QueueRun q ops replies q'
      × Queues rg' q'
unfolding run
run-Queues [] {rg} {q} v _ = ([], rg, q, refl, ends, v)
run-Queues (op ∷ ops) v (c, cs) =
    let (reply, rg', q', e, one, v') = call-Refines op v c in
    let (replies, rg'', q'', e', more, v'') = run-Queues ops v' cs in
    (reply ∷ replies, rg'', q'', rw (e, run, e'), steps one more, v'')
