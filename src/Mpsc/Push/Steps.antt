-- ===== src/Mpsc/Push/Steps.antt =====
-- src/ds/ns_mpsc_record_ring.c: the reserving loop and the steps behind it, on a ring that holds entries.
use nanosig.Base.{
  ℕ, ◌+◌, ◌-◌, ◌/◌, ◌%◌, ◌^◌, ◌≤◌, ◌<◌, ◌≡◌, refl, ◌∙◌, ap, ap₂, inl, inr, some, none, Bool, true,
  false, List, [], ◌∷◌, ◌++◌, if◌then◌else◌, ◌==◌, arith, length, Bytes, add64, Bool-cases, ==→eq,
  store_word, leb-false, le→leb, ==_refl,
}
use nanosig.Mpsc.Meta.{meta_encode_valid}
use nanosig.Mpsc.Ring.{Ring, offset}
use nanosig.Mpsc.Ring.Bounds.{IsCapacity}
use nanosig.Mpsc.Ring.Layout.{Entry, done, span, total_size, Laid-append, span-append, span_words}
use nanosig.Mpsc.Ring.Writes.{Writes, Writes-Laid}
use nanosig.Mpsc.Ring.Holds.{Holds, offset_at, word_room}
use nanosig.Mpsc.Push.{
  Part, Plan, full, won, reserve, mark_fake, mark_headers, publish, write_parts, commit,
  push_reserved, copy_parts, plan_push,
}
use nanosig.Mpsc.Push.Parts.{AllGiven, gathered, copy_parts_lem}
use nanosig.Mpsc.Push.Planning.{pad, planned, HasRoom, plan_push_lem}
use nanosig.Mpsc.Push.Written.{
  fakes, mem_faked, mem_marked, mem_committed, record_place, push_Writes, push-Laid,
}

-- The reserving loop ends: some round does not fail without a reason.
abbrev pub Ends : List Bool → Type 0
Ends [] = ⊥
Ends (false ∷ rounds) = Unit {0}
Ends (true ∷ rounds) = Ends rounds

module _ {rg : Ring} {r : ℕ} {es : List Entry} (h : Holds rg r es) (n : ℕ)
    (small : n ≤ rg.capacity / 2 - 8) where
  abbrev w : ℕ
  w = r + span es

  abbrev won_ring : Ring
  won_ring = record rg { reserve_pos = add64 rg.write_pos (planned rg.capacity w n).publish_size }

  plan_full :
      rg.capacity < span es + (pad rg.capacity w n + total_size n)
      → plan_push rg n rg.write_pos rg.read_pos ≡ none
  plan_full over =
      plan_push_lem n h small
      ∙ ap (λ t. if t then some (planned rg.capacity w n) else none) (leb-false _ _ over)

  plan_fits :
      HasRoom rg r es n → plan_push rg n rg.write_pos rg.read_pos ≡ some (planned rg.capacity w n)
  plan_fits fit =
      plan_push_lem n h small
      ∙ ap (λ t. if t then some (planned rg.capacity w n) else none) (le→leb _ _ fit)

  pub reserve_full :
      (rounds : List Bool)
      → Ends rounds
      → rg.capacity < span es + (pad rg.capacity w n + total_size n)
      → reserve rounds rg n ≡ full
  unfolding reserve
  reserve_full [] e over = absurd e
  reserve_full (spurious ∷ rounds) e over = rw (plan_full over, reserve)

  swap_free : (rg.reserve_pos == rg.write_pos) ≡ true
  swap_free = rw h.quiet (==_refl rg.write_pos)

  pub reserve_won :
      (rounds : List Bool)
      → Ends rounds
      → HasRoom rg r es n
      → reserve rounds rg n ≡ won (planned rg.capacity w n) won_ring
  unfolding reserve
  reserve_won [] e fit = absurd e
  reserve_won (true ∷ rounds) e fit = rw (plan_fits fit, reserve) (reserve_won rounds e fit)
  reserve_won (false ∷ rounds) e fit = rw (plan_fits fit, reserve) (rw (swap_free, reserve))

-- The ring after the push of the bytes b at position w.
abbrev pub pushed : Ring → (w : ℕ) → Bytes → Ring
pushed rg w b = record rg {
  mem = mem_committed rg.capacity rg.mem w b;
  reserve_pos = (w + (pad rg.capacity w (length b) + total_size (length b))) % 2 ^ 64;
  write_pos = (w + (pad rg.capacity w (length b) + total_size (length b))) % 2 ^ 64;
}

mark_fake_lem :
    (rg : Ring) (w : ℕ) (b : Bytes)
    → mark_fake rg (planned rg.capacity w (length b)) ≡ mem_faked rg.capacity rg.mem w b
unfolding mark_fake
mark_fake_lem rg w b = elim (Bool-cases (pad rg.capacity w (length b) == 0)) [
  | inl bare ↦ rw (bare, mark_fake)
  | inr padded ↦ rw (padded, mark_fake)
]

-- The four steps together, on a ring of an accepted capacity whose write position is w.
pub push_reserved_lem :
    (rg : Ring) (w : ℕ) (ps : List Part)
    → IsCapacity rg.capacity
    → AllGiven ps
    → rg.write_pos ≡ w % 2 ^ 64
    → length (gathered ps) < 2 ^ 33
    → let plan = planned rg.capacity w (length (gathered ps)) in
      push_reserved
        (record rg { reserve_pos = add64 rg.write_pos plan.publish_size })
        plan
        rg.write_pos
        ps
      ≡ pushed rg w (gathered ps)
unfolding push_reserved mark_headers publish write_parts commit
push_reserved_lem rg w ps v g e small =
    λ i. record rg { mem = mem_path i; reserve_pos = pos_path i; write_pos = pos_path i }
  where
    b : Bytes
    b = gathered ps

    plan : Plan
    plan = planned rg.capacity w (length b)

    pos_path : add64 rg.write_pos plan.publish_size ≡ (w + plan.publish_size) % 2 ^ 64
    pos_path = omega (arith, e)

    rg' : Ring
    rg' =
        publish
          (mark_headers (record rg { reserve_pos = add64 rg.write_pos plan.publish_size }) plan)
          plan rg.write_pos

    mem_path :
        (commit (write_parts rg' plan.record_pos ps) plan).mem
        ≡ mem_committed rg.capacity rg.mem w b
    mem_path =
        ap
          (λ m.
            store_word m plan.record_header
              (meta_encode_valid plan.record_total_size plan.padding_size))
          (ap₂ (λ m d. copy_parts m d ps) (ap (λ m. store_word m plan.record_header 0) faked) dst
            ∙ copy_parts_lem ps (mem_marked rg.capacity rg.mem w b)
                ((record_place rg.capacity w b + 8) % rg.capacity) g)
      where
        won_rg : Ring
        won_rg = record rg { reserve_pos = add64 rg.write_pos plan.publish_size }

        faked : mark_fake won_rg plan ≡ mem_faked rg.capacity rg.mem w b
        faked = mark_fake_lem won_rg w b

        wrapped : add64 plan.record_pos 8 ≡ (w + pad rg.capacity w (length b) + 8) % 2 ^ 64
        wrapped = omega arith

        dst :
            offset rg' (add64 plan.record_pos 8) ≡ (record_place rg.capacity w b + 8) % rg.capacity
        dst = ap (offset rg') wrapped ∙ offset_at rg' (w + pad rg.capacity w (length b) + 8) v

-- The entries after a push.
abbrev pub after_push : Ring → ℕ → List Entry → Bytes → List Entry
after_push rg r es b = es ++ (fakes (pad rg.capacity (r + span es) (length b)) ++ done b ∷ [])

span-fakes : (n : ℕ) (b : Bytes) → span (fakes n ++ done b ∷ []) ≡ n + total_size (length b)
span-fakes n b = elim (Bool-cases (n == 0)) [
  | inl bare ↦ rw bare (omega (arith, ==→eq _ _ bare))
  | inr padded ↦ rw padded (omega arith)
]

pub pushed-Holds :
    {rg : Ring} {r : ℕ} {es : List Entry} (b : Bytes)
    → Holds rg r es
    → length b ≤ rg.capacity / 2 - 8
    → HasRoom rg r es (length b)
    → Holds (pushed rg (r + span es) b) r (after_push rg r es b)
pushed-Holds {rg} {r} {es} b h small fit = record {
  ring = record {
    placed = h.ring.placed;
    reachable = h.ring.reachable;
    capacity = cap;
    backed = omega (arith, writes.same_length, h.ring.backed);
  };
  aligned = h.aligned;
  read = h.read;
  write = ap (λ q. q % 2 ^ 64) (omega (arith, whole));
  quiet = refl;
  fits = omega (arith, whole);
  laid =
      Laid-append rg.capacity _ r w es _ refl
        (Writes-Laid r es writes (omega arith) (omega arith) h.laid)
        (push-Laid cap rg.mem h.ring.backed w b words short (omega arith));
}
  where
    cap : IsCapacity rg.capacity
    cap = h.ring.capacity

    w : ℕ
    w = r + span es

    words : w % rg.capacity % 8 ≡ 0
    words = word_room w h.ring (omega (arith, h.aligned, span_words rg.capacity _ r es h.laid))

    short : total_size (length b) ≤ rg.capacity / 2
    short = omega (arith, cap.sixteenths, cap.at_least)

    writes :
        Writes rg.capacity rg.mem
          (mem_committed rg.capacity rg.mem w b)
          w
          (pad rg.capacity w (length b) + total_size (length b))
    writes = push_Writes cap rg.mem h.ring.backed w b words short

    whole :
        span (after_push rg r es b)
        ≡ span es + (pad rg.capacity w (length b) + total_size (length b))
    whole = span-append es _ ∙ ap (◌+◌ (span es)) (span-fakes (pad rg.capacity w (length b)) b)
