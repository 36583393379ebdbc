-- ===== src/Mpsc/Push/Parts.antt =====
-- src/ds/ns_mpsc_record_ring.c: the parts of a record, put together.
use nanosig.Base.{
  ℕ, ◌+◌, ◌^◌, ◌≤◌, ◌<◌, ◌≡◌, refl, sym, ◌∙◌, ap, Option, some, none, List, [], ◌∷◌, ◌++◌,
  if◌then◌else◌, ltb, arith, length, take, length-take, length-append, Bytes, blit, blit_nil,
  blit-append, memcpy-blit_all, false, not, ◌&&◌, ◌==◌, add64, memcpy,
}
use nanosig.Mpsc.Push.{Part, is_null, sum_sizes, copy_parts}

-- A part that the caller may hand over: a NULL pointer with size 0, or a pointer to `size` bytes.
abbrev pub Given : Option Bytes → ℕ → Type 0
Given none n = n ≡ 0
Given (some b) n = (n ≤ length b) × (n < 2 ^ 64)

abbrev pub AllGiven : List Part → Type 0
AllGiven [] = Unit {0}
AllGiven (p ∷ ps) = Given p.bytes p.size × AllGiven ps

abbrev pub given_bytes : Option Bytes → ℕ → Bytes
given_bytes none n = []
given_bytes (some b) n = take n b

-- The bytes of the record.
abbrev pub gathered : List Part → Bytes
gathered [] = []
gathered (p ∷ ps) = given_bytes p.bytes p.size ++ gathered ps

pub length-given_bytes : (b : Option Bytes) (n : ℕ) → Given b n → length (given_bytes b n) ≡ n
length-given_bytes none n h = sym h
length-given_bytes (some b) n h = omega (arith, length-take n b)

Given-lt : (b : Option Bytes) (n : ℕ) → Given b n → n < 2 ^ 64
Given-lt none n h = omega arith
Given-lt (some b) n h = h.1

Given-not_refused : (b : Option Bytes) (n : ℕ) → Given b n → (is_null b && not (n == 0)) ≡ false
Given-not_refused none n h = ground arith
Given-not_refused (some b) n h = refl

-- The sum is exact, and refused just where it leaves 64 bits.
pub sum_sizes_lem :
    (ps : List Part) (total : ℕ)
    → AllGiven ps
    → total < 2 ^ 64
    → sum_sizes ps total ≡ (
        if ltb (total + length (gathered ps)) (2 ^ 64)
        then some (total + length (gathered ps))
        else none)
unfolding sum_sizes
sum_sizes_lem [] total g h = ground arith
sum_sizes_lem (p ∷ ps) total g h = rw (Given-not_refused p.bytes p.size g.0) (
    ground (
      arith,
      Given-lt p.bytes p.size g.0,
      length-given_bytes p.bytes p.size g.0,
      length-append (given_bytes p.bytes p.size) (gathered ps),
      sum_sizes_lem ps (add64 total p.size) g.1 (omega arith),
    ))

copy_one :
    (copy_rest : Bytes → ℕ → Bytes) (rest : Bytes)
    → ((m : Bytes) (d : ℕ) → copy_rest m d ≡ blit m d rest)
    → (b : Option Bytes) (n : ℕ) (mem : Bytes) (dst : ℕ) → Given b n
    → elim b [ none ↦ copy_rest mem dst | some x ↦ copy_rest (memcpy mem dst x 0 n) (dst + n) ]
      ≡ blit mem dst (given_bytes b n ++ rest)
copy_one copy_rest rest h none n mem dst g = h mem dst
copy_one copy_rest rest h (some x) n mem dst g =
    h (memcpy mem dst x 0 n) (dst + n)
    ∙ ap (λ m. blit m (dst + n) rest) (memcpy-blit_all mem dst x n g.0)
    ∙ sym (blit-append mem dst (dst + n) (take n x) rest (omega (arith, length-take n x)))

-- The copies of the parts, one behind the other, write the record's bytes.
pub copy_parts_lem :
    (ps : List Part) (mem : Bytes) (dst : ℕ)
    → AllGiven ps
    → copy_parts mem dst ps ≡ blit mem dst (gathered ps)
unfolding copy_parts
copy_parts_lem [] mem dst g = sym (blit_nil mem dst)
copy_parts_lem (p ∷ ps) mem dst g =
    copy_one (λ m d. copy_parts m d ps) (gathered ps) (λ m d. copy_parts_lem ps m d g.1) p.bytes
      p.size mem dst g.0
