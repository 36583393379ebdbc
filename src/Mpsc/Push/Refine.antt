-- ===== src/Mpsc/Push/Refine.antt =====
-- `ns_mpsc_record_ring_try_pushv` on a ring that holds entries.
use nanosig.Base.{
  ℕ, ◌+◌, ◌-◌, ◌/◌, ◌^◌, ◌≤◌, ◌<◌, ◌≡◌, refl, ◌∙◌, ap, inl, inr, ◌⊎◌, some, none, Bool, true, List,
  [], ◌∷◌, ◌++◌, ◌==◌, arith, length, Bytes, lt_or_ge, Status, ltb-false, lt→ltb, Bool-cases,
}
use nanosig.Mpsc.Ring.{Ring, max_record_size, is_valid}
use nanosig.Mpsc.Ring.Bounds.{max_record_size_lem}
use nanosig.Mpsc.Ring.Layout.{Entry, done, span, total_size}
use nanosig.Mpsc.Ring.Holds.{IsRing, Holds, IsRing-is_valid, payloads, payloads-append}
use nanosig.Mpsc.Push.{Part, push_parts, try_pushv, sum_sizes}
use nanosig.Mpsc.Push.Parts.{AllGiven, gathered, sum_sizes_lem}
use nanosig.Mpsc.Push.Planning.{pad, HasRoom}
use nanosig.Mpsc.Push.Written.{fakes}
use nanosig.Mpsc.Push.Steps.{
  Ends, reserve_full, reserve_won, pushed, push_reserved_lem, after_push, pushed-Holds,
}

-- The largest payload of a record.
abbrev pub max_payload : Ring → ℕ
max_payload rg = rg.capacity / 2 - 8

module _ {rg : Ring} (v : IsRing rg) (rounds : List Bool) (ps : List Part) (g : AllGiven ps) where
  -- With at least one part or none, the loop over the parts runs on these bytes.
  as_push_parts :
      (qs : List Part) × AllGiven qs
      × (gathered qs ≡ gathered ps)
      × (try_pushv rounds (some rg) (some ps) ≡ push_parts rounds rg qs)
  unfolding try_pushv
  as_push_parts = cases ps g
    where
      accepted : is_valid (some rg) ≡ true
      accepted = IsRing-is_valid v

      cases :
          (qs : List Part)
          → AllGiven qs
          → (rs : List Part) × AllGiven rs
            × (gathered rs ≡ gathered qs)
            × (try_pushv rounds (some rg) (some qs) ≡ push_parts rounds rg rs)
      cases [] h = (record { bytes = none; size = 0 } ∷ [], (refl, tt), refl, rw accepted)
      cases (q ∷ qs) h = (q ∷ qs, h, refl, rw accepted)

  longest : max_record_size (some rg) ≡ max_payload rg
  longest = max_record_size_lem rg v.placed v.capacity

  summed :
      (qs : List Part)
      → AllGiven qs
      → length (gathered qs) < 2 ^ 64
      → sum_sizes qs 0 ≡ some (length (gathered qs))
  summed qs h fits = ground (arith, sum_sizes_lem qs 0 h)

  overflows : (qs : List Part) → AllGiven qs → 2 ^ 64 ≤ length (gathered qs) → sum_sizes qs 0 ≡ none
  overflows qs h over = ground (arith, sum_sizes_lem qs 0 h)

  too_long :
      (qs : List Part)
      → AllGiven qs
      → max_payload rg < length (gathered qs)
      → push_parts rounds rg qs ≡ some (Status.inval, some rg)
  unfolding push_parts
  too_long qs h long = elim (lt_or_ge (length (gathered qs)) (2 ^ 64)) [
    | inl fits ↦ rw (summed qs h fits, push_parts, longest, lt→ltb _ _ long)
    | inr over ↦ rw (overflows qs h over, push_parts)
  ]

  module _ {r : ℕ} {es : List Entry} (h : Holds rg r es) (ends : Ends rounds) where
    no_room :
        (qs : List Part)
        → AllGiven qs
        → length (gathered qs) ≤ max_payload rg
        → ¬ HasRoom rg r es (length (gathered qs))
        → push_parts rounds rg qs ≡ some (Status.queue_full, some rg)
    unfolding push_parts
    no_room qs k short over = rw (
      summed qs k (omega (arith, v.capacity.at_most)),
      push_parts,
      longest,
      ltb-false _ _ short,
      reserve_full h (length (gathered qs)) short rounds ends (omega arith),
    )

    goes_in :
        (qs : List Part)
        → AllGiven qs
        → length (gathered qs) ≤ max_payload rg
        → HasRoom rg r es (length (gathered qs))
        → push_parts rounds rg qs
          ≡ some (Status.ns_ok, some (pushed rg (r + span es) (gathered qs)))
    unfolding push_parts
    goes_in qs k short fit =
        rw
          (
            summed qs k (omega (arith, v.capacity.at_most)),
            push_parts,
            longest,
            ltb-false _ _ short,
            reserve_won h (length (gathered qs)) short rounds ends fit,
          )
          (ap (λ q. some (Status.ns_ok, some q))
            (push_reserved_lem rg (r + span es) qs v.capacity k h.write
              (omega (arith, v.capacity.at_most))))

pub payloads-fakes : (n : ℕ) (b : Bytes) → payloads (fakes n ++ done b ∷ []) ≡ b ∷ []
payloads-fakes n b = elim (Bool-cases (n == 0)) [ inl bare ↦ rw bare | inr padded ↦ rw padded ]

payloads-after_push :
    (rg : Ring) (r : ℕ) (es : List Entry) (b : Bytes)
    → payloads (after_push rg r es b) ≡ payloads es ++ b ∷ []
payloads-after_push rg r es b =
    payloads-append es _
    ∙ ap (◌++◌ (payloads es)) (payloads-fakes (pad rg.capacity (r + span es) (length b)) b)

-- The ways that a push ends, with the ring that it leaves.
pub try_pushv_ends :
    {rg : Ring} {r : ℕ} {es : List Entry} (rounds : List Bool) (ps : List Part)
    → Holds rg r es
    → AllGiven ps
    → Ends rounds
    → let b = gathered ps in
      ((max_payload rg < length b)
        × (try_pushv rounds (some rg) (some ps) ≡ some (Status.inval, some rg)))
      ⊎ ((length b ≤ max_payload rg)
          × (¬ HasRoom rg r es (length b))
          × (try_pushv rounds (some rg) (some ps) ≡ some (Status.queue_full, some rg)))
      ⊎ ((length b ≤ max_payload rg)
          × HasRoom rg r es (length b)
          × (try_pushv rounds (some rg) (some ps)
              ≡ some (Status.ns_ok, some (pushed rg (r + span es) b))))
try_pushv_ends {rg} {r} {es} rounds ps h g ends = elim (lt_or_ge (max_payload rg) (length b)) [
  | inl long ↦ inl (long, e ∙ too_long h.ring rounds ps g qs k (rw same long))
  | inr short ↦ elim (lt_or_ge rg.capacity needed) [
    | inl over ↦ inr (
        inl (
          short,
          (λ fit. absurd (omega arith)),
          e
              ∙ no_room h.ring rounds ps g h ends qs k (rw same short)
                  (rw same (λ fit. absurd (omega arith))),
        ))
    | inr fit ↦ inr (
        inr (
          short,
          fit,
          e
              ∙ goes_in h.ring rounds ps g h ends qs k (rw same short) (rw same fit)
              ∙ ap (λ c. some (Status.ns_ok, some (pushed rg (r + span es) c))) same,
        ))
  ]
]
  where
    b : Bytes
    b = gathered ps

    needed : ℕ
    needed = span es + (pad rg.capacity (r + span es) (length b) + total_size (length b))

    found :
        (qs : List Part) × AllGiven qs
        × (gathered qs ≡ gathered ps)
        × (try_pushv rounds (some rg) (some ps) ≡ push_parts rounds rg qs)
    found = as_push_parts h.ring rounds ps g

    qs : List Part
    qs = found.0

    k : AllGiven qs
    k = found.1

    same : gathered qs ≡ b
    same = found.2

    e : try_pushv rounds (some rg) (some ps) ≡ push_parts rounds rg qs
    e = found.3

-- `ns_mpsc_record_ring_try_pushv` on a ring that holds entries, for any parts that the caller may
-- hand over and any finite number of spurious failures of its swap. A record longer than the
-- longest is refused with NS_E_INVAL, one that does not fit behind the entries with
-- NS_E_QUEUE_FULL, and the ring is left as it was. Any other is pushed: the ring holds the entries,
-- a fake record if one is needed, and the record with the bytes of the parts, so that its payload
-- comes after all others.
pub try_pushv_lem :
    {rg : Ring} {r : ℕ} {es : List Entry} (rounds : List Bool) (ps : List Part)
    → Holds rg r es
    → AllGiven ps
    → Ends rounds
    → let b = gathered ps in
      ((max_payload rg < length b)
        × (try_pushv rounds (some rg) (some ps) ≡ some (Status.inval, some rg)))
      ⊎ ((length b ≤ max_payload rg)
          × (¬ HasRoom rg r es (length b))
          × (try_pushv rounds (some rg) (some ps) ≡ some (Status.queue_full, some rg)))
      ⊎ ((length b ≤ max_payload rg)
          × HasRoom rg r es (length b)
          × ((rg' : Ring) × (try_pushv rounds (some rg) (some ps) ≡ some (Status.ns_ok, some rg'))
              × Holds rg' r (after_push rg r es b)
              × (payloads (after_push rg r es b) ≡ payloads es ++ b ∷ [])))
try_pushv_lem {rg} {r} {es} rounds ps h g ends = elim (try_pushv_ends rounds ps h g ends) [
  | inl long ↦ inl long
  | inr (inl full) ↦ inr (inl full)
  | inr (inr (short, fit, e)) ↦ inr (
      inr (
        short,
        fit,
        (
          pushed rg (r + span es) (gathered ps),
          e,
          pushed-Holds (gathered ps) h short fit,
          payloads-after_push rg r es (gathered ps),
        ),
      ))
]

-- On an empty ring every record that is not longer than the longest is pushed, wherever the read
-- position stands.
pub try_pushv_empty :
    {rg : Ring} {r : ℕ} (rounds : List Bool) (ps : List Part)
    → Holds rg r []
    → AllGiven ps
    → Ends rounds
    → length (gathered ps) ≤ max_payload rg
    → (rg' : Ring) × (try_pushv rounds (some rg) (some ps) ≡ some (Status.ns_ok, some rg'))
      × Holds rg' r (after_push rg r [] (gathered ps))
try_pushv_empty {rg} {r} rounds ps h g ends short = elim (try_pushv_lem rounds ps h g ends) [
  | inl (long, _) ↦ absurd (omega arith)
  | inr (inl (_, over, _)) ↦ absurd (over room)
  | inr (inr (_, _, (rg', e, held, _))) ↦ (rg', e, held)
]
  where
    room : HasRoom rg r [] (length (gathered ps))
    room = ground (arith, h.ring.capacity.sixteenths, h.ring.capacity.at_least)
