-- ===== src/Loop/Dispatch.antt =====
-- `ns_loop_dispatch_pending` on a queue of slot calls.
use nanosig.Base.{
  ℕ, zero, suc, ◌+◌, ◌-◌, ◌%◌, ◌<◌, ◌≡◌, refl, sym, ◌∙◌, ap, ap₂, subst, Option, some, none, true,
  List, [], ◌∷◌, ◌++◌, append-nil, leb, le→leb, arith, length, drop, Bytes, Status,
}
use nanosig.Mpsc.Ring.{Ring}
use nanosig.Mpsc.Ring.Layout.{Entry, fake, busy, done, total_size}
use nanosig.Mpsc.Ring.Holds.{Holds, payloads, payloads-append}
use nanosig.Mpsc.Take.{try_acquire, release}
use nanosig.Mpsc.Take.Refine.{answer, skip, payload_shown}
use nanosig.Mpsc.Take.Fifo.{try_acquire_lem, release_lem}
use nanosig.Mpsc.Client.{IsSettled, IsSettled-append, Queues}
use nanosig.Loop.{Loop, Call, slot_call_size, slot_call, called, dispatch_pending}
use nanosig.Loop.Record.{encode, IsCall, length-encode, slot_call-encode}

abbrev pub encoded : List Call → List Bytes
encoded [] = []
encoded (c ∷ cs) = encode c ∷ encoded cs

abbrev pub AllCalls : List Call → Type 0
AllCalls [] = Unit {0}
AllCalls (c ∷ cs) = IsCall c × AllCalls cs

pub encoded-append : (cs ds : List Call) → encoded (cs ++ ds) ≡ encoded cs ++ encoded ds
encoded-append [] ds = refl
encoded-append (c ∷ cs) ds = ap (◌∷◌ (encode c)) (encoded-append cs ds)

pub AllCalls-append : (cs ds : List Call) → AllCalls cs → AllCalls ds → AllCalls (cs ++ ds)
AllCalls-append [] ds h k = k
AllCalls-append (c ∷ cs) ds (a, h) k = (a, AllCalls-append cs ds h k)

-- The calls that wait in a ring, oldest first.
pub record Waits (rg : Ring) (cs : List Call) : Type 0 where
  pub queues : Queues rg (encoded cs)
  pub calls : AllCalls cs

-- What a slot does to the loop while it runs: it may append calls, which depend on the call and on
-- the loop in which it is made, whose queue may refuse some.
pub record Appends (react : Call → Loop → Loop) (emits : Call → Loop → List Call) : Type 0 where
  pub calls : (c : Call) (l : Loop) → AllCalls (emits c l)
  pub behind :
      (c : Call) (l : Loop) {r : ℕ} {es : List Entry}
      → Holds l.queue r es
      → IsSettled es
      → (fs : List Entry) × Holds (react c l).queue r (es ++ fs)
        × IsSettled fs
        × (payloads fs ≡ encoded (emits c l))
        × ((react c l).queue.storage ≡ l.queue.storage)
        × ((react c l).queue.capacity ≡ l.queue.capacity)

-- The dispatching of these calls in as many rounds: each round makes the oldest call, in a loop where
-- it waits with the others, and what it appends there waits behind them. Where no call waits any
-- more it ends with an empty queue; otherwise it goes on until the rounds are over.
abbrev pub Dispatches :
    (Call → Loop → List Call) → ℕ → List Call → Option (Loop × List Call) → Type 0
Dispatches emits zero cs out = out ≡ none
Dispatches emits (suc fuel) [] out = (l : Loop) × (out ≡ some (l, [])) × Waits l.queue []
Dispatches emits (suc fuel) (c ∷ cs) out =
    (l : Loop) × Waits l.queue (c ∷ cs)
    × (rest : Option (Loop × List Call)) × (out ≡ called c rest)
    × Dispatches emits fuel (cs ++ emits c l) rest

abbrev front : List Bytes → Bytes → Bytes
front [] d = d
front (x ∷ xs) d = x

module _ {react : Call → Loop → Loop} {emits : Call → Loop → List Call}
    (a : Appends react emits) where
  -- One call, with its record in front.
  dispatch_one :
      (fuel : ℕ) (l : Loop) {rg : Ring} {p : ℕ} (c : Call) (es : List Entry)
      → try_acquire (some l.queue) true true ≡ some (answer rg p (done (encode c) ∷ es))
      → Holds rg p (done (encode c) ∷ es)
      → IsSettled es
      → IsCall c
      → let l1 = record l { queue = rg } in
        (l' : Loop) × (fs : List Entry) × (dispatch_pending (suc fuel) react l
          ≡ called c (dispatch_pending fuel react l'))
        × Holds l'.queue (p + total_size (length (encode c))) (es ++ fs)
        × IsSettled fs
        × (payloads fs ≡ encoded (emits c l1))
  unfolding dispatch_pending
  dispatch_one fuel l {rg} {p} c es e h s v =
      let l1 = record l { queue = rg } in
      let (fs, held, sf, from, same_storage, same_capacity) = a.behind c l1 h s in
      let (rg', gone, held') = release_lem held in
      let off : rg.storage + p % rg.capacity + 8 - rg.storage ≡ p % rg.capacity + 8 = omega arith in
      let read : slot_call rg.mem (p % rg.capacity + 8) ≡ c =
        slot_call-encode rg.mem (p % rg.capacity + 8) c v (payload_shown h) in
      let whole : leb slot_call_size (length (encode c)) ≡ true =
        le→leb slot_call_size (length (encode c)) (omega (arith, length-encode c)) in
      let there : release (some (react c l1).queue) (rg.storage + p % rg.capacity + 8)
          ≡ (Status.ns_ok, some rg') =
        ap₂ (λ m n. release (some (react c l1).queue) (m + p % n + 8)) (sym same_storage)
          (sym same_capacity)
        ∙ gone in
      (
        record (react c l1) { queue = rg' },
        fs,
        rw (e, dispatch_pending, off, read, whole, there) refl,
        held',
        sf,
        from,
      )

  dispatch_first :
      (fuel : ℕ) (l : Loop) {rg : Ring} {p : ℕ} (es : List Entry) (cs : List Call)
      → ((k : Loop) (ds : List Call)
          → Waits k.queue ds
          → Dispatches emits fuel ds (dispatch_pending fuel react k))
      → try_acquire (some l.queue) true true ≡ some (answer rg p (skip es))
      → Holds rg p (skip es)
      → IsSettled es
      → payloads es ≡ encoded cs
      → AllCalls cs
      → Dispatches emits (suc fuel) cs (dispatch_pending (suc fuel) react l)
  unfolding dispatch_pending
  dispatch_first fuel l {rg} {p} [] [] on e h s same v = (
    record l { queue = rg },
    rw (e, dispatch_pending) refl,
    record {
      queues = record { position = p; entries = []; holds = h; settled = tt; records = refl };
      calls = tt;
    },
  )
  dispatch_first fuel l [] (c ∷ cs) on e h s same v = absurd (omega (arith, ap length same))
  dispatch_first fuel l (done b ∷ es) [] on e h s same v = absurd (omega (arith, ap length same))
  dispatch_first fuel l {rg} {p} (done b ∷ es) (c ∷ cs) on e h s same v =
      let l1 = record l { queue = rg } in
      let is : b ≡ encode c = ap (λ xs. front xs []) same in
      let (l', fs, run, held, sf, from) =
        dispatch_one fuel l c es
          (subst (λ x. try_acquire (some l.queue) true true ≡ some (answer rg p (done x ∷ es))) is
            e)
          (subst (λ x. Holds rg p (done x ∷ es)) is h) s v.0 in
      let waits : Waits l'.queue (cs ++ emits c l1) = record {
        queues = record {
          position = p + total_size (length (encode c));
          entries = es ++ fs;
          holds = held;
          settled = IsSettled-append es fs s sf;
          records =
              payloads-append es fs
              ∙ ap₂ (λ xs ys. xs ++ ys) (ap (λ xs. drop 1 xs) same) from
              ∙ sym (encoded-append cs (emits c l1));
        };
        calls = AllCalls-append cs (emits c l1) v.1 (a.calls c l1);
      } in
      (
        l1,
        record {
          queues = record {
            position = p;
            entries = done b ∷ es;
            holds = h;
            settled = s;
            records = same;
          };
          calls = v;
        },
        dispatch_pending fuel react l',
        run,
        on l' (cs ++ emits c l1) waits,
      )
  dispatch_first fuel l (fake n ∷ es) cs on e h s same v =
      dispatch_first fuel l es cs on e h s same v
  dispatch_first fuel l (busy n ∷ es) cs on e h s same v = absurd s

  pub dispatch_pending_lem :
      (fuel : ℕ) (l : Loop) (cs : List Call)
      → Waits l.queue cs
      → Dispatches emits fuel cs (dispatch_pending fuel react l)
  unfolding dispatch_pending
  dispatch_pending_lem zero l cs v = refl
  dispatch_pending_lem (suc fuel) l cs v =
      let (rg, e, h, same) = try_acquire_lem v.queues.holds in
      dispatch_first fuel l v.queues.entries cs (dispatch_pending_lem fuel) e h v.queues.settled
        v.queues.records v.calls

-- Where the slots append nothing, the calls that wait are the ones that are made.
Dispatches-quiet :
    (fuel : ℕ) (cs : List Call) (out : Option (Loop × List Call))
    → length cs < fuel
    → Dispatches (λ c l. []) fuel cs out
    → (l' : Loop) × (out ≡ some (l', cs)) × Waits l'.queue []
Dispatches-quiet zero cs out h d = absurd (omega arith)
Dispatches-quiet (suc fuel) [] out h d = d
Dispatches-quiet (suc fuel) (c ∷ cs) out h (l, waits, rest, e, d) =
    let (l', run, empty) =
      Dispatches-quiet fuel cs rest (omega arith)
        (subst (λ ds. Dispatches (λ c l. []) fuel ds rest) (append-nil cs) d) in
    (l', e ∙ ap (called c) run, empty)

-- Where no slot appends calls, one round more than there are calls is enough: each call is made
-- once, in order, and the queue is empty.
pub dispatch_pending_once :
    {react : Call → Loop → Loop} (fuel : ℕ) (l : Loop) (cs : List Call)
    → Appends react (λ c l. [])
    → Waits l.queue cs
    → length cs < fuel
    → (l' : Loop) × (dispatch_pending fuel react l ≡ some (l', cs)) × Waits l'.queue []
dispatch_pending_once {react} fuel l cs a v enough =
    Dispatches-quiet fuel cs (dispatch_pending fuel react l) enough
      (dispatch_pending_lem a fuel l cs v)
