-- ===== src/Mpsc/Push/Written.antt =====
-- src/ds/ns_mpsc_record_ring.c: the storage after the four steps of a push.
use nanosig.Base.{
  ℕ, ◌+◌, ◌-◌, ◌/◌, ◌%◌, ◌≤◌, ◌<◌, ◌≡◌, ◌≢◌, sym, ◌∙◌, subst, inl, inr, List, [], ◌∷◌, ◌++◌,
  if◌then◌else◌, ◌==◌, arith, length, Bytes, lt_or_ge, Bool-cases, ==→eq, ==→ne, ne→==, mod-add,
  mod_small, word_at, word_at_ext, store_word, blit,
}
use native.Mathlib.Nat.{mod-lt}
use nanosig.Mpsc.Meta.{meta_encode_valid, meta_encode_fake}
use nanosig.Mpsc.Meta.Codec.{Reads, meta_encode_valid-Reads, meta_encode_fake-Reads}
use nanosig.Mpsc.Ring.Bounds.{IsCapacity}
use nanosig.Mpsc.Ring.Layout.{Entry, fake, done, total_size, cell, IsRun, EntryAt, Laid}
use nanosig.Mpsc.Ring.Writes.{
  Writes, Writes-refl, Writes-trans, Writes-widen, blit-Writes, cell-blit, store-Writes,
  word_stored,
}
use nanosig.Mpsc.Push.Planning.{pad, pad-le}
use nanosig.Mpsc.Push.Runs.{record_run, fake_run}

-- The fake record of a size, if it is not 0.
abbrev pub fakes : ℕ → List Entry
fakes n = if n == 0 then [] else fake n ∷ []

-- The record's position, and the storage after each step, for bytes b pushed at position w.
abbrev pub record_place : ℕ → ℕ → Bytes → ℕ
record_place c w b = w + pad c w (length b)

abbrev pub mem_faked : ℕ → Bytes → ℕ → Bytes → Bytes
mem_faked c mem w b =
    if pad c w (length b) == 0
    then mem
    else store_word mem (w % c) (meta_encode_fake (pad c w (length b)))

abbrev pub mem_marked : ℕ → Bytes → ℕ → Bytes → Bytes
mem_marked c mem w b = store_word (mem_faked c mem w b) (record_place c w b % c) 0

abbrev pub mem_filled : ℕ → Bytes → ℕ → Bytes → Bytes
mem_filled c mem w b = blit (mem_marked c mem w b) ((record_place c w b + 8) % c) b

abbrev pub mem_committed : ℕ → Bytes → ℕ → Bytes → Bytes
mem_committed c mem w b =
    store_word (mem_filled c mem w b) (record_place c w b % c)
      (meta_encode_valid (total_size (length b)) (total_size (length b) - 8 - length b))

module _ {c : ℕ} (v : IsCapacity c) (mem : Bytes) (room : c ≤ length mem) (w : ℕ) (b : Bytes)
    (words : w % c % 8 ≡ 0) (fit : total_size (length b) ≤ c / 2) where
  abbrev place : ℕ
  place = record_place c w b

  abbrev fake_marked : Bytes
  fake_marked = mem_faked c mem w b

  abbrev marked : Bytes
  marked = mem_marked c mem w b

  abbrev filled : Bytes
  filled = mem_filled c mem w b

  abbrev committed : Bytes
  committed = mem_committed c mem w b

  some_cell : 0 < c
  some_cell = omega (arith, v.at_least)

  run : IsRun c place (total_size (length b))
  run = record_run v w (length b) words fit

  fake_Writes : Writes c mem fake_marked w (pad c w (length b))
  fake_Writes = elim (Bool-cases (pad c w (length b) == 0)) [
    | inl bare ↦ rw bare (Writes-refl c mem w (pad c w (length b)))
    | inr padded ↦
        let r = fake_run v w (length b) words fit (==→ne _ _ padded) in
        rw padded (
          Writes-widen w (pad c w (length b)) (omega arith) (omega (arith, r.some_word))
            (store-Writes c mem w room some_cell _ (omega (arith, r.some_word, r.straight))))
  ]

  room₁ : c ≤ length fake_marked
  room₁ = omega (arith, fake_Writes.same_length)

  mark_Writes : Writes c fake_marked marked place (total_size (length b))
  mark_Writes =
      Writes-widen place (total_size (length b)) (omega arith) (omega arith)
        (store-Writes c fake_marked place room₁ some_cell 0 (omega (arith, run.straight)))

  room₂ : c ≤ length marked
  room₂ = omega (arith, mark_Writes.same_length, room₁)

  -- An empty payload writes nothing, wherever its place would be.
  payload_straight : (place + 8) % c + length b ≤ c
  payload_straight = elim (lt_or_ge 0 (length b)) [
    | inl some_byte ↦
        let here : (place + 8) % c ≡ place % c + 8 =
          sym (mod-add place 8 c) ∙ mod_small (place % c + 8) c (omega (arith, run.straight)) in
        omega (arith, run.straight)
    | inr no_byte ↦ omega (arith, mod-lt (place + 8) some_cell)
  ]

  fill_Writes : Writes c marked filled place (total_size (length b))
  fill_Writes =
      Writes-widen place (total_size (length b)) (omega arith) (omega arith)
        (blit-Writes c marked (place + 8) room₂ some_cell b payload_straight)

  room₃ : c ≤ length filled
  room₃ = omega (arith, fill_Writes.same_length, room₂)

  commit_store : Writes c filled committed place 8
  commit_store = store-Writes c filled place room₃ some_cell _ (omega (arith, run.straight))

  commit_Writes : Writes c filled committed place (total_size (length b))
  commit_Writes =
      Writes-widen place (total_size (length b)) (omega arith) (omega arith) commit_store

  record_Writes : Writes c fake_marked committed place (total_size (length b))
  record_Writes = Writes-trans mark_Writes (Writes-trans fill_Writes commit_Writes)

  -- The push writes in the run that it reserved, and nowhere else.
  pub push_Writes :
      Writes c mem (mem_committed c mem w b) w (pad c w (length b) + total_size (length b))
  push_Writes =
      Writes-trans (Writes-widen w _ (omega arith) (omega arith) fake_Writes)
        (Writes-widen w _ (omega arith) (omega arith) record_Writes)

  record_at : EntryAt c (cell c committed) place (done b)
  record_at = record {
    run = run;
    header =
        subst (λ m. Reads m (total_size (length b)) (total_size (length b) - 8 - length b) 0)
          (sym (
            word_stored c filled place room₃ some_cell _ (omega (arith, run.straight))
              encoded.is_word))
          encoded;
    payload = λ i h.
        commit_store.behind (place + 8 + i) (omega arith) (omega (arith, run.straight))
        ∙ cell-blit c marked (place + 8) room₂ some_cell b i payload_straight h;
  }
    where
      encoded :
          Reads
            (meta_encode_valid (total_size (length b)) (total_size (length b) - 8 - length b))
            (total_size (length b))
            (total_size (length b) - 8 - length b)
            0
      encoded =
          meta_encode_valid-Reads (total_size (length b)) (total_size (length b) - 8 - length b)
            (omega (arith, v.at_most)) (omega arith)

  fake_at :
      pad c w (length b) ≢ 0
      → pad c w (length b) + total_size (length b) ≤ c
      → EntryAt c (cell c committed) w (fake (pad c w (length b)))
  fake_at nonzero whole = record {
    run = r;
    header = subst (λ m. Reads m (pad c w (length b)) 0 1) (sym (kept ∙ stored)) encoded;
    payload = λ i h. absurd (omega arith);
  }
    where
      r : IsRun c w (pad c w (length b))
      r = fake_run v w (length b) words fit nonzero

      encoded : Reads (meta_encode_fake (pad c w (length b))) (pad c w (length b)) 0 1
      encoded =
          meta_encode_fake-Reads (pad c w (length b))
            (omega (arith, v.at_most, pad-le c w (length b)))

      kept : word_at (cell c committed) w ≡ word_at (cell c fake_marked) w
      kept =
          word_at_ext (cell c committed) (cell c fake_marked) w w
            (λ i h. record_Writes.before (w + i) (omega (arith, r.some_word)) (omega arith))

      stored : word_at (cell c fake_marked) w ≡ meta_encode_fake (pad c w (length b))
      stored = rw (ne→== _ _ nonzero) (
          word_stored c mem w room some_cell _ (omega (arith, r.some_word, r.straight))
            encoded.is_word)

  -- The run that was reserved holds the fake record, if one is wanted, and the record.
  pub push-Laid :
      pad c w (length b) + total_size (length b) ≤ c
      → Laid c (cell c (mem_committed c mem w b)) w (fakes (pad c w (length b)) ++ done b ∷ [])
  push-Laid whole = elim (Bool-cases (pad c w (length b) == 0)) [
    | inl bare ↦
        let flat : place ≡ w = omega (arith, ==→eq _ _ bare) in
        let gone : fakes (pad c w (length b)) ≡ [] = rw bare in
        subst laid_with (sym gone)
          (subst (λ p. EntryAt c (cell c committed) p (done b)) flat record_at, tt)
    | inr padded ↦
        let there : fakes (pad c w (length b)) ≡ fake (pad c w (length b)) ∷ [] = rw padded in
        subst laid_with (sym there) (fake_at (==→ne _ _ padded) whole, (record_at, tt))
  ]
    where
      laid_with : List Entry → Type 0
      laid_with es = Laid c (cell c committed) w (es ++ done b ∷ [])
