-- ===== src/Mpsc/Ring/Holds.antt =====
-- src/ds/ns_mpsc_record_ring.c: the state of a ring between calls.
use nanosig.Base.{
  ℕ, ◌+◌, ◌%◌, ◌^◌, ◌≤◌, ◌<◌, ◌≡◌, ◌≢◌, ◌∙◌, ap, ap₂, refl, true, some, List, [], ◌∷◌, ◌++◌, length,
  arith, Bytes, IsPow2-pow, mod-mod_pow2,
}
use nanosig.Mpsc.Ring.{Ring, is_valid, offset, used_size}
use nanosig.Mpsc.Ring.Bounds.{IsCapacity, is_valid_of, offset-mod, used_size_lem}
use nanosig.Mpsc.Ring.Layout.{Entry, done, span, cell, Laid}

-- The storage is there, eight bytes aligned in an address space of 64 bits.
pub record IsRing (rg : Ring) : Type 0 where
  pub placed : rg.storage ≢ 0
  pub reachable : rg.storage + rg.capacity < 2 ^ 64
  pub capacity : IsCapacity rg.capacity
  pub backed : rg.capacity ≤ length rg.mem

-- The ring holds the entries from a read position on. Positions are counted without end here; the
-- ring keeps them modulo 2 ^ 64.
pub record Holds (rg : Ring) (r : ℕ) (es : List Entry) : Type 0 where
  pub ring : IsRing rg
  pub aligned : r % 8 ≡ 0
  pub read : rg.read_pos ≡ r % 2 ^ 64
  pub write : rg.write_pos ≡ (r + span es) % 2 ^ 64
  pub quiet : rg.reserve_pos ≡ rg.write_pos
  pub fits : span es ≤ rg.capacity
  pub laid : Laid rg.capacity (cell rg.capacity rg.mem) r es

-- The payloads of the committed records, oldest first.
abbrev pub payloads : List Entry → List Bytes
payloads [] = []
payloads (done b ∷ es) = b ∷ payloads es
payloads (_ ∷ es) = payloads es

pub payloads-append : (xs ys : List Entry) → payloads (xs ++ ys) ≡ payloads xs ++ payloads ys
payloads-append [] ys = refl
payloads-append (done b ∷ xs) ys = ap (◌∷◌ b) (payloads-append xs ys)
payloads-append (Entry.fake n ∷ xs) ys = payloads-append xs ys
payloads-append (Entry.busy n ∷ xs) ys = payloads-append xs ys

pub IsRing-is_valid : {rg : Ring} → IsRing rg → is_valid (some rg) ≡ true
IsRing-is_valid {rg} v = is_valid_of rg v.placed v.capacity

-- The place of a position that is kept modulo 2 ^ 64.
pub offset_at :
    (rg : Ring) (p : ℕ) → IsCapacity rg.capacity → offset rg (p % 2 ^ 64) ≡ p % rg.capacity
offset_at rg p v =
    offset-mod rg (p % 2 ^ 64) v ∙ mod-mod_pow2 p v.pow2 (IsPow2-pow 64) (omega (arith, v.at_most))

pub offset_wrapped : {rg : Ring} (p : ℕ) → IsRing rg → offset rg (p % 2 ^ 64) ≡ p % rg.capacity
offset_wrapped {rg} p v = offset_at rg p v.capacity

pub used_Holds :
    {rg : Ring} {r : ℕ} {es : List Entry}
    → Holds rg r es
    → used_size rg.write_pos rg.read_pos ≡ span es
used_Holds {rg} {r} {es} h =
    ap₂ used_size h.write h.read
    ∙ used_size_lem r (r + span es) (omega arith) (omega (arith, h.fits, h.ring.capacity.at_most))
    ∙ omega arith

-- A place of whole words is at least one word before the end.
pub word_room : {rg : Ring} (p : ℕ) → IsRing rg → p % 8 ≡ 0 → (p % rg.capacity) % 8 ≡ 0
word_room {rg} p v h = mod-mod_eighth p ∙ h
  where
    mod-mod_eighth : (q : ℕ) → (q % rg.capacity) % 8 ≡ q % 8
    mod-mod_eighth q =
        mod-mod_pow2 q (IsPow2-pow 3) v.capacity.pow2 (omega (arith, v.capacity.at_least))
