-- ===== src/Loop/Pushes.antt =====
-- src/nanosig.c: slots and threads that push the record of a call onto the queue of a loop.
use nanosig.Base.{
  ℕ, ◌+◌, ◌^◌, ◌<◌, ◌≡◌, refl, sym, ◌∙◌, ap, ap₂, subst, inl, inr, Option, some, none, false, List,
  [], ◌∷◌, ◌++◌, append-nil, if◌then◌else◌, ◌==◌, Bool-cases, arith, length, take_all, Status,
  is_ok,
}
use nanosig.Mpsc.Ring.{Ring}
use nanosig.Mpsc.Ring.Layout.{Entry, done, span}
use nanosig.Mpsc.Ring.Holds.{Holds, payloads, payloads-append}
use nanosig.Mpsc.Push.{Part, try_pushv}
use nanosig.Mpsc.Push.Planning.{pad}
use nanosig.Mpsc.Push.Written.{fakes}
use nanosig.Mpsc.Push.Parts.{gathered}
use nanosig.Mpsc.Push.Steps.{pushed-Holds}
use nanosig.Mpsc.Push.Refine.{try_pushv_ends, payloads-fakes}
use nanosig.Mpsc.Client.{IsSettled, IsSettled-append, IsSettled-fakes}
use nanosig.Loop.{Loop, Call, ring_or}
use nanosig.Loop.Record.{encode, IsCall}
use nanosig.Loop.Dispatch.{Waits, Appends, AllCalls, AllCalls-append, encoded, encoded-append}

-- The record of a call as one part.
abbrev pub parts_of : Call → List Part
parts_of d = record { bytes = some (encode d); size = length (encode d) } ∷ []

abbrev pub push_out : Call → Loop → Option (Status × Option Ring)
push_out d l = try_pushv (false ∷ []) (some l.queue) (some (parts_of d))

abbrev queue_of : Ring → Option (Status × Option Ring) → Ring
queue_of rg none = rg
queue_of rg (some out) = ring_or rg out.1

abbrev pub taken_of : Call → Option (Status × Option Ring) → List Call
taken_of d none = []
taken_of d (some out) = if is_ok out.0 then d ∷ [] else []

-- The call is pushed, and what the queue has taken of it.
abbrev pub push_to : Call → Loop → Loop
push_to d l = record l { queue = queue_of l.queue (push_out d l) }

abbrev pub taken : Call → Loop → List Call
taken d l = taken_of d (push_out d l)

-- The slot at this address pushes the call onto the loop that runs it; the others do nothing.
abbrev pub pushes : Call → ℕ → Call → Loop → Loop
pushes d fn c l = if c.fn == fn then push_to d l else l

abbrev pub pushes_taken : Call → ℕ → Call → Loop → List Call
pushes_taken d fn c l = if c.fn == fn then taken d l else []

-- What is behind the entries of a ring after a push of the call.
abbrev Behind : Call → Ring → ℕ → List Entry → Option (Status × Option Ring) → Type 0
Behind d rg r es o =
    (fs : List Entry) × Holds (queue_of rg o) r (es ++ fs)
    × IsSettled fs
    × (payloads fs ≡ encoded (taken_of d o))
    × ((queue_of rg o).storage ≡ rg.storage)
    × ((queue_of rg o).capacity ≡ rg.capacity)

module _ (d : Call) (v : IsCall d) (short : length (encode d) < 2 ^ 64) where
  gathered-parts_of : gathered (parts_of d) ≡ encode d
  gathered-parts_of = append-nil _ ∙ take_all (length (encode d)) (encode d) (omega arith)

  pub push_to-Behind :
      (l : Loop) {r : ℕ} {es : List Entry}
      → Holds l.queue r es
      → Behind d l.queue r es (push_out d l)
  push_to-Behind l {r} {es} h =
      elim (try_pushv_ends (false ∷ []) (parts_of d) h ((omega arith, omega arith), tt) tt) [
        | inl (_, e) ↦ unmoved Status.inval refl e
        | inr (inl (_, _, e)) ↦ unmoved Status.queue_full refl e
        | inr (inr (short, fit, e)) ↦
            let b = gathered (parts_of d) in
            subst (Behind d l.queue r es) (sym e) (
              fakes (pad l.queue.capacity (r + span es) (length b)) ++ done b ∷ [],
              pushed-Holds b h short fit,
              IsSettled-fakes (pad l.queue.capacity (r + span es) (length b)) b,
              payloads-fakes (pad l.queue.capacity (r + span es) (length b)) b
                  ∙ ap (λ c. c ∷ []) gathered-parts_of,
              refl,
              refl,
            )
      ]
    where
      unmoved :
          (s : Status)
          → is_ok s ≡ false
          → push_out d l ≡ some (s, some l.queue)
          → Behind d l.queue r es (push_out d l)
      unmoved s bad e = subst (Behind d l.queue r es) (sym e) (
        [],
        subst (Holds l.queue r) (sym (append-nil es)) h,
        tt,
        ap (λ b. encoded (if b then d ∷ [] else [])) (sym bad),
        refl,
        refl,
      )

  pub taken-AllCalls : (l : Loop) → AllCalls (taken d l)
  taken-AllCalls l = cases (push_out d l)
    where
      cases : (o : Option (Status × Option Ring)) → AllCalls (taken_of d o)
      cases none = tt
      cases (some (s, rg)) = elim (Bool-cases (is_ok s)) [ inl e ↦ rw e (v, tt) | inr e ↦ rw e tt ]

  -- A thread that pushes the call.
  pub push_to-Waits :
      (l : Loop) (cs : List Call) → Waits l.queue cs → Waits (push_to d l).queue (cs ++ taken d l)
  push_to-Waits l cs w =
      let (fs, held, settled, from, _, _) = push_to-Behind l w.queues.holds in
      record {
        queues = record {
          position = w.queues.position;
          entries = w.queues.entries ++ fs;
          holds = held;
          settled = IsSettled-append w.queues.entries fs w.queues.settled settled;
          records =
              payloads-append w.queues.entries fs
              ∙ ap₂ (λ xs ys. xs ++ ys) w.queues.records from
              ∙ sym (encoded-append cs (taken d l));
        };
        calls = AllCalls-append cs (taken d l) w.calls (taken-AllCalls l);
      }

  pub pushes-Appends : (fn : ℕ) → Appends (pushes d fn) (pushes_taken d fn)
  pushes-Appends fn = record {
    calls =
        λ c l. elim (Bool-cases (c.fn == fn)) [ inl e ↦ rw e (taken-AllCalls l) | inr e ↦ rw e tt ];
    behind = λ c l {r} {es} h s. elim (Bool-cases (c.fn == fn)) [
      | inl e ↦ rw e (push_to-Behind l h)
      | inr e ↦ rw e ([], subst (Holds l.queue r) (sym (append-nil es)) h, tt, refl, refl, refl)
    ];
  }
