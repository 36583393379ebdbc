-- ===== src/Mpsc/Ring/Bounds.antt =====
-- src/ds/ns_mpsc_record_ring.c: what an accepted capacity gives, and the sizes and offsets exactly.
use Prim.Native.Nat.{bit_and}
use nanosig.Base.{
  ℕ, ◌+◌, ◌-◌, ◌*◌, ◌/◌, ◌%◌, ◌^◌, ◌≤◌, ◌<◌, ◌≡◌, ◌≢◌, ◌↔◌, ◌∙◌, ap, true, arith, sub64, IsPow2,
  IsPow2-pow, IsPow2-divides, bit_and_mask, bit_and_digit, IsPow2-of_mask, mask_of_pow2, some,
}
use nanosig.Mpsc.Ring.{
  Ring, align_up, capacity_is_valid, is_valid, offset, used_size, max_record_size,
}

-- An accepted capacity.
pub record IsCapacity (c : ℕ) : Type 0 where
  pub pow2 : IsPow2 c
  pub at_least : 32 ≤ c
  pub at_most : c < 2 ^ 33
  pub sixteenths : c % 16 ≡ 0

pow2_sixteenths : {c : ℕ} → IsPow2 c → 24 ≤ c → (c % 16 ≡ 0) × (32 ≤ c)
pow2_sixteenths {c} p h = let (q, e) = IsPow2-divides (IsPow2-pow 4) p (omega arith) in omega arith

capacity_is_valid-IsCapacity : (c : ℕ) → capacity_is_valid c ≡ true → IsCapacity c
unfolding capacity_is_valid
capacity_is_valid-IsCapacity c h =
    let nonzero : c ≢ 0 = ground arith in
    let masked : bit_and c (sub64 c 1) ≡ 0 = ground arith in
    let below : c < 2 ^ 33 = ground arith in
    let above : 24 ≤ c = ground arith in
    let same : sub64 c 1 ≡ c - 1 = omega arith in
    let p : IsPow2 c = IsPow2-of_mask c nonzero (rw same at masked) in
    record {
      pow2 = p;
      at_least = (pow2_sixteenths p above).1;
      at_most = below;
      sixteenths = (pow2_sixteenths p above).0;
    }

IsCapacity-capacity_is_valid : (c : ℕ) → IsCapacity c → capacity_is_valid c ≡ true
unfolding capacity_is_valid
IsCapacity-capacity_is_valid c v =
    let same : sub64 c 1 ≡ c - 1 = omega (arith, v.at_least, v.at_most) in
    rw (same, mask_of_pow2 v.pow2) (ground arith)

-- `ns_mpsc_record_ring_capacity_is_valid` accepts exactly the powers of two from 32 to 2 ^ 32 (a
-- power of two below 2 ^ 33), which are multiples of 16.
pub capacity_is_valid_iff : (c : ℕ) → (capacity_is_valid c ≡ true) ↔ IsCapacity c
capacity_is_valid_iff c = (capacity_is_valid-IsCapacity c, IsCapacity-capacity_is_valid c)

pub is_valid_of : (rg : Ring) → rg.storage ≢ 0 → IsCapacity rg.capacity → is_valid (some rg) ≡ true
unfolding is_valid
is_valid_of rg a v = ground (arith, IsCapacity-capacity_is_valid rg.capacity v)

-- A position's place in the storage is its remainder by the capacity.
pub offset-mod : (rg : Ring) (pos : ℕ) → IsCapacity rg.capacity → offset rg pos ≡ pos % rg.capacity
unfolding offset
offset-mod rg pos v =
    ap (bit_and pos) (omega (arith, v.at_least, v.at_most)) ∙ bit_and_mask pos v.pow2

-- `ns_align_up` rounds up to the next multiple of eight.
pub align_up_lem : (n : ℕ) → n + 7 < 2 ^ 64 → align_up n ≡ (n + 7) / 8 * 8
unfolding align_up
align_up_lem n h =
    let exact : (n + 7) % 2 ^ 64 ≡ n + 7 = omega arith in
    rw exact (
      omega (
        arith,
        bit_and_digit (n + 7) (2 ^ 64 - 8),
        bit_and_digit ((n + 7) / 2) (2 ^ 63 - 4),
        bit_and_digit ((n + 7) / 2 / 2) (2 ^ 62 - 2),
        bit_and_mask ((n + 7) / 2 / 2 / 2) (IsPow2-pow 61),
      ))

-- The used bytes are the distance of the two positions, also where these wrap at 2 ^ 64.
pub used_size_lem : (r w : ℕ) → r ≤ w → w - r < 2 ^ 64 → used_size (w % 2 ^ 64) (r % 2 ^ 64) ≡ w - r
unfolding used_size
used_size_lem r w h d = omega arith

pub max_record_size_lem :
    (rg : Ring)
    → rg.storage ≢ 0
    → IsCapacity rg.capacity
    → max_record_size (some rg) ≡ rg.capacity / 2 - 8
unfolding max_record_size
max_record_size_lem rg a v =
    ground (arith, is_valid_of rg a v, align_up_lem 8, v.at_least, v.at_most)
