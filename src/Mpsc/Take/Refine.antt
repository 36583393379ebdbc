-- ===== src/Mpsc/Take/Refine.antt =====
-- `ns_mpsc_record_ring_try_acquire` and `ns_mpsc_record_ring_release` on a ring that holds entries.
use nanosig.Base.{
  ℕ, zero, suc, ◌+◌, ◌%◌, ◌^◌, ◌<◌, ◌≡◌, refl, sym, ◌∙◌, ap, subst, some, false, List, [], ◌∷◌,
  arith, length, take, drop, take-tabulate, tabulate_ext, drop-eq-tabulate, eq-tabulate, Bytes,
  byte_at, load_word, load_word_lem, store_word, Status, mod-add, mod_small, word_at, word_at_ext,
}
use nanosig.Mpsc.Meta.{payload_size}
use nanosig.Mpsc.Meta.Codec.{stride_fits, payload_size-Reads}
use nanosig.Mpsc.Ring.{Ring, offset, header_at}
use nanosig.Mpsc.Ring.Layout.{
  Entry, HeaderOf, fake, busy, done, stride, span, total_size, cell, IsRun, EntryAt, Laid-ext,
}
use nanosig.Mpsc.Ring.Writes.{Writes, store-Writes}
use nanosig.Mpsc.Ring.Holds.{Holds, offset_wrapped, used_Holds, payloads}
use nanosig.Mpsc.Take.{Acquired, consume, bad_stride, acquire_loop}

module _ {rg : Ring} {r : ℕ} {es : List Entry} (h : Holds rg r es) where
  -- The header of the oldest entry is read at its place.
  pub place_read : header_at rg rg.read_pos ≡ r % rg.capacity
  place_read = ap (offset rg) h.read ∙ offset_wrapped r h.ring

-- What the consumer reads of the oldest entry.
module _ {rg : Ring} {r : ℕ} {e : Entry} {es : List Entry} (h : Holds rg r (e ∷ es)) where
  pub first : EntryAt rg.capacity (cell rg.capacity rg.mem) r e
  first = h.laid.0

  meta_read : load_word rg.mem (header_at rg rg.read_pos) ≡ word_at (cell rg.capacity rg.mem) r
  meta_read =
      ap (load_word rg.mem) (place_read h)
      ∙ load_word_lem rg.mem (r % rg.capacity)
      ∙ word_at_ext (byte_at rg.mem) (cell rg.capacity rg.mem) (r % rg.capacity) r
          (λ i k. ap (byte_at rg.mem) (sym (straight i k)))
    where
      straight : (i : ℕ) → i < 8 → (r + i) % rg.capacity ≡ r % rg.capacity + i
      straight i k =
          sym (mod-add r i rg.capacity)
          ∙ mod_small (r % rg.capacity + i) rg.capacity
              (omega (arith, first.run.straight, first.run.some_word))

  -- Taking the oldest entry away leaves the others.
  pub consume-Holds : Holds (consume rg (stride e)) (r + stride e) es
  unfolding consume
  consume-Holds = record {
    ring = record {
      placed = h.ring.placed;
      reachable = h.ring.reachable;
      capacity = h.ring.capacity;
      backed = omega (arith, writes.same_length, h.ring.backed);
    };
    aligned = omega (arith, h.aligned, first.run.whole_words);
    read = omega (arith, h.read);
    write = h.write ∙ ap (λ q. q % 2 ^ 64) (omega arith);
    quiet = h.quiet;
    fits = omega (arith, h.fits);
    laid =
        Laid-ext rg.capacity (cell rg.capacity rg.mem)
          (cell rg.capacity (store_word rg.mem (offset rg rg.read_pos) 0)) (r + stride e) es
          (λ a i j.
            sym (writes.behind a (omega (arith, first.run.some_word)) (omega (arith, h.fits))))
          h.laid.1;
  }
    where
      writes : Writes rg.capacity rg.mem (store_word rg.mem (offset rg rg.read_pos) 0) r 8
      writes =
          subst (λ o. Writes rg.capacity rg.mem (store_word rg.mem o 0) r 8) (sym (place_read h))
            (store-Writes rg.capacity rg.mem r h.ring.backed
              (omega (arith, h.ring.capacity.at_least)) 0
              (omega (arith, first.run.straight, first.run.some_word)))

  -- A stride that a header of the ring gives is in order.
  pub good_stride : bad_stride rg (stride e + span es) (stride e) ≡ false
  good_stride = ground (arith, h.fits, first.run.some_word)

-- What stands in front of the first record that is no fake one.
abbrev pub skipped : List Entry → ℕ
skipped (fake n ∷ es) = n + skipped es
skipped _ = 0

abbrev pub skip : List Entry → List Entry
skip (fake n ∷ es) = skip es
skip es = es

pub payloads-skip : (es : List Entry) → payloads (skip es) ≡ payloads es
payloads-skip (fake n ∷ es) = payloads-skip es
payloads-skip [] = refl
payloads-skip (busy n ∷ es) = refl
payloads-skip (done b ∷ es) = refl

-- The answer of `ns_mpsc_record_ring_try_acquire` at a position with these entries.
abbrev pub answer : Ring → ℕ → List Entry → Acquired
answer rg p (done b ∷ es) = record {
  status = Status.ns_ok;
  ring = some rg;
  out_record = rg.storage + p % rg.capacity + 8;
  out_size = length b;
}
answer rg p _ = record { status = Status.empty; ring = some rg; out_record = 0; out_size = 0 }

-- The payload of a record stands where the answer points.
pub payload_shown :
    {rg : Ring} {r : ℕ} {b : Bytes} {es : List Entry}
    → Holds rg r (done b ∷ es)
    → take (length b) (drop (r % rg.capacity + 8) rg.mem) ≡ b
payload_shown {rg} {r} {b} h =
    ap (take (length b)) (drop-eq-tabulate (r % rg.capacity + 8) rg.mem 0)
    ∙ take-tabulate (length b) _ _ (omega (arith, run.straight, h.ring.backed))
    ∙ tabulate_ext (length b) (length b) _ _ refl (λ i k. place i k ∙ h.laid.0.payload i k)
    ∙ sym (eq-tabulate b 0 (length b) refl)
  where
    run : IsRun rg.capacity r (total_size (length b))
    run = h.laid.0.run

    place :
        (i : ℕ)
        → i < length b
        → byte_at rg.mem (r % rg.capacity + 8 + i) ≡ cell rg.capacity rg.mem (r + 8 + i)
    place i k = ap (byte_at rg.mem) (
        sym (
          ap (λ q. q % rg.capacity) (omega arith)
          ∙ sym (mod-add r (8 + i) rg.capacity)
          ∙ mod_small (r % rg.capacity + (8 + i)) rg.capacity (omega (arith, run.straight))
          ∙ omega arith))

-- The word that the consumer reads says what the oldest entry is.
pub header_read :
    {rg : Ring} {r : ℕ} {e : Entry} {es : List Entry}
    → Holds rg r (e ∷ es)
    → HeaderOf (load_word rg.mem (header_at rg rg.read_pos)) e
header_read {rg} {r} {e} h = subst (λ w. HeaderOf w e) (sym (meta_read h)) h.laid.0.header

-- The payload size that a committed record's header gives.
pub size_read :
    {rg : Ring} {r : ℕ} {b : Bytes} {es : List Entry}
    → Holds rg r (done b ∷ es)
    → payload_size (load_word rg.mem (header_at rg rg.read_pos)) ≡ some (length b)
size_read {rg} {r} {b} h =
    payload_size-Reads (length b) (header_read h) (omega arith) (stride_fits (header_read h))

-- The ring unchanged, at the position written another way.
same_place : {rg : Ring} {r : ℕ} {es : List Entry} → Holds rg r es → Holds rg (r + 0) es
same_place {rg} {r} {es} h = subst (λ p. Holds rg p es) (omega arith) h

-- The loop skips the fake records and ends with the answer at the first other entry.
pub acquire_loop_lem :
    (es : List Entry) (fuel : ℕ) {rg : Ring} {r : ℕ}
    → Holds rg r es
    → span es < fuel
    → (rg' : Ring) × (acquire_loop fuel rg ≡ some (answer rg' (r + skipped es) (skip es)))
      × Holds rg' (r + skipped es) (skip es)
unfolding acquire_loop
acquire_loop_lem es zero h enough = absurd (omega arith)
acquire_loop_lem [] (suc fuel) {rg} h enough = (rg, ground (arith, used_Holds h), same_place h)
acquire_loop_lem (busy n ∷ es) (suc fuel) {rg} h enough =
    (rg, ground (arith, used_Holds h, header_read h, h.fits, h.laid.0.run.some_word), same_place h)
acquire_loop_lem (done b ∷ es) (suc fuel) {rg} {r} h enough = (
  rg,
  ground (
    arith,
    used_Holds h,
    (header_read h).is_committed,
    (header_read h).is_fake,
    (header_read h).stride_is,
    h.fits,
    size_read h,
    place_read h,
    good_stride h,
  ),
  same_place h,
)
acquire_loop_lem (fake n ∷ es) (suc fuel) {rg} {r} h enough =
    let rest = acquire_loop_lem es fuel (consume-Holds h) (omega (arith, h.laid.0.run.some_word)) in
    let there : r + n + skipped es ≡ r + (n + skipped es) = omega arith in
    (
      rest.0,
      ground (
        arith,
        used_Holds h,
        (header_read h).is_committed,
        (header_read h).is_fake,
        (header_read h).stride_is,
        h.fits,
        h.laid.0.run.some_word,
        rest.1,
        there,
      ),
      subst (λ p. Holds rest.0 p (skip es)) there rest.2,
    )
