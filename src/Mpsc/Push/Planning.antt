-- ===== src/Mpsc/Push/Planning.antt =====
-- src/ds/ns_mpsc_record_ring.c: `ns_mpsc_record_ring_plan_push` in exact numbers.
use nanosig.Base.{
  ℕ, ◌+◌, ◌-◌, ◌/◌, ◌%◌, ◌^◌, ◌≤◌, ◌<◌, ◌≡◌, ◌∙◌, ap, some, none, List, if◌then◌else◌, ltb, leb,
  ◌==◌, ◌&&◌, not, arith, add64,
}
use nanosig.Mpsc.Ring.{Ring, align_up, offset}
use nanosig.Mpsc.Ring.Bounds.{IsCapacity, align_up_lem}
use nanosig.Mpsc.Ring.Layout.{Entry, span, total_size}
use nanosig.Mpsc.Ring.Holds.{IsRing, Holds, offset_wrapped, used_Holds}
use nanosig.Mpsc.Push.{Plan, plan_fake_size, plan_push}

-- The fake record in front of a record of n bytes that is pushed at position w.
abbrev pub pad : ℕ → ℕ → ℕ → ℕ
pad c w n = if not (w % c == 0) && ltb (c - w % c) (total_size n) then c - w % c else 0

pub pad-le : (c w n : ℕ) → pad c w n ≤ total_size n
pad-le c w n = ground arith

abbrev pub planned : ℕ → ℕ → ℕ → Plan
planned c w n = record {
  record_size = n;
  record_total_size = total_size n;
  publish_size = pad c w n + total_size n;
  padding_size = total_size n - 8 - n;
  fake_size = pad c w n;
  record_pos = (w + pad c w n) % 2 ^ 64;
  fake_header = if pad c w n == 0 then none else some (w % c);
  record_header = (w + pad c w n) % c;
}

-- The record fits behind what the ring holds.
abbrev pub HasRoom : Ring → ℕ → List Entry → ℕ → Type 0
HasRoom rg r es n = span es + (pad rg.capacity (r + span es) n + total_size n) ≤ rg.capacity

plan_fake_size_lem :
    {rg : Ring} (w n : ℕ)
    → IsRing rg
    → plan_fake_size rg (w % 2 ^ 64) (total_size n) ≡ pad rg.capacity w n
unfolding plan_fake_size
plan_fake_size_lem {rg} w n v =
    rw (offset_wrapped w v) (ground (arith, v.capacity.at_most, v.capacity.at_least))

align_up_total : (n : ℕ) → n < 2 ^ 33 → align_up (add64 8 n) ≡ total_size n
align_up_total n h = ap align_up (omega arith) ∙ align_up_lem (8 + n) (omega arith)

-- A record that is not longer than the ring takes is planned if there is room, and only then.
pub plan_push_lem :
    {rg : Ring} {r : ℕ} {es : List Entry} (n : ℕ)
    → Holds rg r es
    → n ≤ rg.capacity / 2 - 8
    → plan_push rg n rg.write_pos rg.read_pos ≡ (
        if leb (span es + (pad rg.capacity (r + span es) n + total_size n)) rg.capacity
        then some (planned rg.capacity (r + span es) n)
        else none)
unfolding plan_push
plan_push_lem {rg} {r} {es} n h hn =
    rw (used_Holds h, align_up_total n small, fake)
      (rw (place, header, header')
        (ground (arith, h.fits, cap.at_most, cap.at_least, cap.sixteenths)))
  where
    cap : IsCapacity rg.capacity
    cap = h.ring.capacity

    small : n < 2 ^ 33
    small = omega (arith, cap.at_most)

    fake : plan_fake_size rg rg.write_pos (total_size n) ≡ pad rg.capacity (r + span es) n
    fake =
        ap (λ q. plan_fake_size rg q (total_size n)) h.write
        ∙ plan_fake_size_lem (r + span es) n h.ring

    place :
        add64 rg.write_pos (pad rg.capacity (r + span es) n)
        ≡ (r + span es + pad rg.capacity (r + span es) n) % 2 ^ 64
    place = omega (arith, h.write)

    header :
        offset rg ((r + span es + pad rg.capacity (r + span es) n) % 2 ^ 64)
        ≡ (r + span es + pad rg.capacity (r + span es) n) % rg.capacity
    header = offset_wrapped (r + span es + pad rg.capacity (r + span es) n) h.ring

    header' : offset rg rg.write_pos ≡ (r + span es) % rg.capacity
    header' = ap (offset rg) h.write ∙ offset_wrapped (r + span es) h.ring
