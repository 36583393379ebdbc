-- ===== src/Mpsc/Take/Fifo.antt =====
-- src/ds/ns_mpsc_record_ring.c: acquiring and releasing take the records in order.
use nanosig.Base.{
  ℕ, suc, ◌+◌, ◌%◌, ◌^◌, ◌<◌, ◌≡◌, ◌≢◌, some, true, List, ◌∷◌, arith, length, Bytes, Status,
}
use nanosig.Mpsc.Ring.{Ring, used_size}
use nanosig.Mpsc.Ring.Layout.{Entry, done, total_size}
use nanosig.Mpsc.Ring.Holds.{Holds, IsRing-is_valid, used_Holds, payloads}
use nanosig.Mpsc.Take.{consume, try_acquire, release}
use nanosig.Mpsc.Take.Refine.{
  place_read, first, header_read, size_read, consume-Holds, good_stride, answer, skip, skipped,
  acquire_loop_lem, payloads-skip,
}

-- `ns_mpsc_record_ring_try_acquire` on a ring that holds entries always ends. It takes the fake
-- records in front away and answers by the entry behind them: a committed record with its address
-- and its size, and NS_E_EMPTY where there is none or where it is not committed yet. The other
-- entries stay.
pub try_acquire_lem :
    {rg : Ring} {r : ℕ} {es : List Entry}
    → Holds rg r es
    → (rg' : Ring) × (try_acquire (some rg) true true
        ≡ some (answer rg' (r + skipped es) (skip es)))
      × Holds rg' (r + skipped es) (skip es)
      × (payloads (skip es) ≡ payloads es)
unfolding try_acquire
try_acquire_lem {rg} {r} {es} h =
    let (rg', e, h') =
      acquire_loop_lem es (suc (used_size rg.write_pos rg.read_pos)) h
        (omega (arith, used_Holds h)) in
    (rg', rw (IsRing-is_valid h.ring) e, h', payloads-skip es)

-- Releasing the record at the read position by its address takes it away and leaves the others.
pub release_lem :
    {rg : Ring} {r : ℕ} {b : Bytes} {es : List Entry}
    → Holds rg r (done b ∷ es)
    → (rg' : Ring) × (release (some rg) (rg.storage + r % rg.capacity + 8)
        ≡ (Status.ns_ok, some rg'))
      × Holds rg' (r + total_size (length b)) es
unfolding release
release_lem {rg} {r} {b} {es} h = (
  consume rg (total_size (length b)),
  rw (IsRing-is_valid h.ring, place_read h)
      (ground (
        arith,
        used_Holds h,
        (header_read h).is_committed,
        (header_read h).is_fake,
        (header_read h).stride_is,
        h.fits,
        size_read h,
        place_read h,
        good_stride h,
        h.ring.reachable,
        h.ring.placed,
        (first h).run.straight,
      )),
  consume-Holds h,
)

-- Any other address is refused with NS_E_INVAL, and the ring stays as it is.
pub release_refuses :
    {rg : Ring} {r : ℕ} {es : List Entry} (addr : ℕ)
    → Holds rg r es
    → addr < 2 ^ 64
    → addr ≢ rg.storage + r % rg.capacity + 8
    → release (some rg) addr ≡ (Status.inval, some rg)
unfolding release
release_refuses {rg} {r} {es} addr h small other =
    rw (IsRing-is_valid h.ring, place_read h)
      (ground (arith, used_Holds h, h.fits, h.ring.reachable, h.ring.placed))
