-- ===== src/Mpsc/Push/Runs.antt =====
-- src/ds/ns_mpsc_record_ring.c: where a pushed record and the fake one in front of it lie.
use nanosig.Base.{
  ℕ, ◌+◌, ◌-◌, ◌/◌, ◌%◌, ◌≤◌, ◌≡◌, ◌≢◌, sym, ◌∙◌, ap, inl, inr, ltb, ◌==◌, ◌&&◌, not, arith,
  Bool-cases, mod-add,
}
use native.Mathlib.Nat.{mod_self}
use nanosig.Mpsc.Ring.Bounds.{IsCapacity}
use nanosig.Mpsc.Ring.Layout.{total_size, IsRun}
use nanosig.Mpsc.Push.Planning.{pad}

module _ {c : ℕ} (v : IsCapacity c) (w n : ℕ) (words : w % c % 8 ≡ 0)
    (fit : total_size n ≤ c / 2) where
  -- The record does not go round the end.
  pub record_run : IsRun c (w + pad c w n) (total_size n)
  record_run = record {
    some_word = omega arith;
    whole_words = omega arith;
    straight = elim (Bool-cases (not (w % c == 0) && ltb (c - w % c) (total_size n))) [
      | inl padded ↦
          let start : (w + (c - w % c)) % c ≡ 0 = sym (mod-add w (c - w % c) c) ∙ at_end in
          rw (padded, start) (omega arith)
      | inr bare ↦
          let start : (w + 0) % c ≡ w % c = ap (λ q. q % c) (omega arith) in
          rw (bare, start) (ground (arith, v.at_least))
    ];
  }
    where
      at_end : (w % c + (c - w % c)) % c ≡ 0
      at_end = ap (λ q. q % c) (omega (arith, v.at_least)) ∙ mod_self c

  -- A fake record fills the storage up to its end.
  pub fake_run : pad c w n ≢ 0 → IsRun c w (pad c w n)
  fake_run nonzero = ground (arith, v.at_least, v.sixteenths)
