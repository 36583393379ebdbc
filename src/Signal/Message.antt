-- ===== src/Signal/Message.antt =====
-- src/nanosig.c: the call that a connection gets, as the parts of a record.
use nanosig.Base.{
  ℕ, ◌^◌, ◌<◌, ◌≡◌, ◌≢◌, refl, sym, ◌∙◌, ap, ap₂, inl, inr, ◌⊎◌, Option, some, none, Bool, false,
  List, [], ◌∷◌, ◌++◌, append-nil, if◌then◌else◌, ◌==◌, ==→eq, ==→ne, Bool-cases, arith,
  length-take, take, take_all, Bytes, Status, is_ok,
}
use nanosig.Mpsc.Ring.{Ring}
use nanosig.Mpsc.Push.{Part, try_pushv}
use nanosig.Mpsc.Push.Parts.{Given, AllGiven, gathered, given_bytes, length-given_bytes}
use nanosig.Mpsc.Push.Steps.{Ends, after_push}
use nanosig.Mpsc.Push.Refine.{try_pushv_lem}
use nanosig.Mpsc.Client.{IsSettled-after_push}
use nanosig.Loop.{Call, slot_call_bytes, slot_call_size}
use nanosig.Loop.Record.{encode, bytes_of, IsCall, length-slot_call_bytes, encode_eq}
use nanosig.Loop.Dispatch.{encoded-append, AllCalls-append, Waits}
use nanosig.Signal.{Connection, call_parts}

-- What a slot meets of a payload pointer to n bytes.
abbrev pub shown_payload : Option Bytes → ℕ → Option Bytes
shown_payload none n = none
shown_payload (some b) n = if n == 0 then none else some (take n b)

-- The call that a connection gets.
abbrev pub message : Connection → Option Bytes → ℕ → Call
message conn payload n = record {
  fn = conn.slot_fn;
  user_data = conn.user_data;
  payload = shown_payload payload n;
}

bytes_shown :
    (payload : Option Bytes) (n : ℕ) → given_bytes payload n ≡ bytes_of (shown_payload payload n)
bytes_shown none n = refl
bytes_shown (some b) n = elim (Bool-cases (n == 0)) [
  | inl e ↦ rw e (ap (λ k. take k b) (==→eq n 0 e))
  | inr e ↦ rw e refl
]

-- The parts of the record put together are the record of the call.
pub gathered-message :
    (conn : Connection) (payload : Option Bytes) (n : ℕ)
    → Given payload n
    → gathered (call_parts conn payload n) ≡ encode (message conn payload n)
unfolding call_parts
gathered-message conn payload n h =
    ap₂ (λ a b. a ++ b)
      (take_all slot_call_size (slot_call_bytes conn.slot_fn conn.user_data n)
        (omega (arith, length-slot_call_bytes conn.slot_fn conn.user_data n)))
      (append-nil (given_bytes payload n))
    ∙ ap (λ k. slot_call_bytes conn.slot_fn conn.user_data k ++ given_bytes payload n)
        (sym (length-given_bytes payload n h))
    ∙ sym (encode_eq (message conn payload n) (given_bytes payload n) (bytes_shown payload n))

pub parts-Given :
    (conn : Connection) (payload : Option Bytes) (n : ℕ)
    → Given payload n
    → AllGiven (call_parts conn payload n)
unfolding call_parts
parts-Given conn payload n h =
    ((omega (arith, length-slot_call_bytes conn.slot_fn conn.user_data n), omega arith), (h, tt))

pub message-IsCall :
    (conn : Connection) (payload : Option Bytes) (n : ℕ)
    → conn.slot_fn < 2 ^ 64
    → conn.user_data < 2 ^ 64
    → Given payload n
    → IsCall (message conn payload n)
message-IsCall conn none n f u h = record { fn_word = f; user_data_word = u; payload_fits = tt }
message-IsCall conn (some b) n f u h = record {
  fn_word = f;
  user_data_word = u;
  payload_fits = elim (Bool-cases (n == 0)) [
    | inl e ↦ rw e tt
    | inr e ↦
        let nonzero : n ≢ 0 = ==→ne n 0 e in
        rw e (omega (arith, length-take n b), omega (arith, length-take n b))
  ];
}

-- Pushing the record of a call.
pub push_call :
    {rg : Ring} {cs : List Call} (rounds : List Bool) (ps : List Part) (c : Call)
    → Waits rg cs
    → AllGiven ps
    → gathered ps ≡ encode c
    → IsCall c
    → Ends rounds
    → ((s : Status) × (is_ok s ≡ false)
        × (try_pushv rounds (some rg) (some ps) ≡ some (s, some rg)))
      ⊎ ((rg' : Ring) × (try_pushv rounds (some rg) (some ps) ≡ some (Status.ns_ok, some rg'))
          × Waits rg' (cs ++ c ∷ []))
push_call {rg} {cs} rounds ps c v g same call ends =
    elim (try_pushv_lem rounds ps v.queues.holds g ends) [
      | inl (_, e) ↦ inl (Status.inval, refl, e)
      | inr (inl (_, _, e)) ↦ inl (Status.queue_full, refl, e)
      | inr (inr (_, _, (rg', e, held, last))) ↦ inr (
        rg',
        e,
        record {
          queues = record {
            position = v.queues.position;
            entries = after_push rg v.queues.position v.queues.entries (gathered ps);
            holds = held;
            settled =
                IsSettled-after_push rg v.queues.position v.queues.entries (gathered ps)
                  v.queues.settled;
            records =
                last
                ∙ ap₂ (λ q b. q ++ b ∷ []) v.queues.records same
                ∙ sym (encoded-append cs (c ∷ []));
          };
          calls = AllCalls-append cs (c ∷ []) v.calls (call, tt);
        },
      )
    ]
