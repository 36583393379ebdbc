-- ===== src/Mpsc/Ring/Init.antt =====
-- `ns_mpsc_record_ring_init`.
use nanosig.Base.{
  ℕ, zero, suc, ◌+◌, ◌*◌, ◌%◌, ◌^◌, ◌≤◌, ◌<◌, ◌≡◌, ◌≢◌, refl, true, some, [], length, arith, Bytes,
  byte_at, store_word, length-store_word, byte_at-store_zero, leb, ltb, ◌&&◌, if◌then◌else◌, Status,
  word_at, word_at_bytes, byte_at-word_zero, Bool-cases, inl, inr, ◌⊎◌, false,
}
use nanosig.Mpsc.Ring.{Ring, init, mark_all, capacity_is_valid, storage_is_aligned}
use nanosig.Mpsc.Ring.Bounds.{IsCapacity, capacity_is_valid_iff}
use nanosig.Mpsc.Ring.Holds.{Holds}

length-mark_all :
    (fuel c : ℕ) (mem : Bytes) (off : ℕ) → length (mark_all fuel c mem off) ≡ length mem
unfolding mark_all
length-mark_all zero c mem off = refl
length-mark_all (suc fuel) c mem off =
    ground
      (arith, length-mark_all fuel c (store_word mem off 0) (off + 8), length-store_word mem off 0)

-- With enough fuel the loop zeroes every byte from the offset to the capacity, and no other.
byte_at-mark_all :
    (fuel c : ℕ) (mem : Bytes) (off i : ℕ)
    → c ≤ length mem
    → c % 8 ≡ 0
    → off % 8 ≡ 0
    → c ≤ off + fuel * 8
    → byte_at (mark_all fuel c mem off) i ≡ (if leb off i && ltb i c then 0 else byte_at mem i)
unfolding mark_all
byte_at-mark_all zero c mem off i room wc wo h = ground arith
byte_at-mark_all (suc fuel) c mem off i room wc wo h = ground (
  arith,
  byte_at-mark_all fuel c (store_word mem off 0) (off + 8) i,
  length-store_word mem off 0,
  byte_at-store_zero mem off i,
)

-- `ns_mpsc_record_ring_init` over aligned storage of an accepted capacity succeeds: the ring is
-- empty, and every header in it is zero, so that none reads as committed.
pub init-Holds :
    (old : Ring) (storage : ℕ) (mem : Bytes) (c : ℕ)
    → storage ≢ 0
    → storage_is_aligned storage ≡ true
    → IsCapacity c
    → c ≤ length mem
    → storage + c < 2 ^ 64
    → (rg : Ring) × (init (some old) storage mem c ≡ (Status.ns_ok, some rg))
      × Holds rg 0 []
      × ((p : ℕ) → p + 8 ≤ c → word_at (byte_at rg.mem) p ≡ 0)
unfolding init
init-Holds old storage mem c placed ready v room reach = (
  rg,
  ground (arith, (capacity_is_valid_iff c).1 v),
  record {
    ring = record {
      placed = placed;
      reachable = reach;
      capacity = v;
      backed = omega (arith, length-mark_all c c mem 0);
    };
    aligned = refl;
    read = refl;
    write = refl;
    quiet = refl;
    fits = omega arith;
    laid = tt;
  },
  λ p h. word_at_bytes (byte_at rg.mem) p 0 (omega arith) (λ i l. ground (
    arith,
    byte_at-word_zero 8 i,
    byte_at-mark_all c c mem 0 (p + i) room (omega (arith, v.sixteenths)) refl,
  )),
)
  where
    rg : Ring
    rg = record {
      storage = storage;
      mem = mark_all c c mem 0;
      capacity = c;
      reserve_pos = 0;
      write_pos = 0;
      read_pos = 0;
    }

-- Everything else `ns_mpsc_record_ring_init` refuses with NS_E_INVAL, and leaves the ring as it was:
-- a NULL or unaligned storage, and every capacity that is not accepted.
pub init_refuses :
    (old : Ring) (storage : ℕ) (mem : Bytes) (c : ℕ)
    → (storage ≡ 0) ⊎ (storage_is_aligned storage ≡ false) ⊎ (¬ IsCapacity c)
    → init (some old) storage mem c ≡ (Status.inval, some old)
unfolding init
init_refuses old storage mem c h = elim (Bool-cases (capacity_is_valid c)) [
  | inl accepted ↦ ground (arith, (capacity_is_valid_iff c).0 accepted)
  | inr refused ↦ ground arith
]
