-- ===== src/Mpsc/Ring/Writes.antt =====
-- src/ds/ns_mpsc_record_ring.c: what a write to the storage leaves alone.
use nanosig.Base.{
  ℕ, ◌+◌, ◌%◌, ◌^◌, ◌≤◌, ◌<◌, ◌≡◌, refl, sym, ◌∙◌, ap, subst, arith, length, take_all, List, Bytes,
  byte_at, memcpy, length-memcpy, blit, memcpy-blit_all, word_at, word_at_bytes, word_bytes,
  store_word, store_word_lem,
}
use nanosig.Mpsc.Ring.Layout.{
  Entry, span, cell, Laid, Laid-ext, cell-written, cell-behind, cell-before,
}

-- From one storage to the other only the n bytes from position p on may change.
pub record Writes (c : ℕ) (mem mem' : Bytes) (p n : ℕ) : Type 0 where
  pub same_length : length mem' ≡ length mem
  pub before : (a : ℕ) → a < p → p + n ≤ a + c → cell c mem' a ≡ cell c mem a
  pub behind : (a : ℕ) → p + n ≤ a → a < p + c → cell c mem' a ≡ cell c mem a

pub Writes-refl : (c : ℕ) (mem : Bytes) (p n : ℕ) → Writes c mem mem p n
Writes-refl c mem p n = record {
  same_length = refl;
  before = λ a h k. refl;
  behind = λ a h k. refl;
}

pub Writes-trans :
    {c : ℕ} {mem mem' mem'' : Bytes} {p n : ℕ}
    → Writes c mem mem' p n
    → Writes c mem' mem'' p n
    → Writes c mem mem'' p n
Writes-trans u v = record {
  same_length = v.same_length ∙ u.same_length;
  before = λ a h k. v.before a h k ∙ u.before a h k;
  behind = λ a h k. v.behind a h k ∙ u.behind a h k;
}

-- A write of a part is a write of the whole.
pub Writes-widen :
    {c : ℕ} {mem mem' : Bytes} {p n : ℕ} (q m : ℕ)
    → q ≤ p
    → p + n ≤ q + m
    → Writes c mem mem' p n
    → Writes c mem mem' q m
Writes-widen q m h k u = record {
  same_length = u.same_length;
  before = λ a i j. u.before a (omega arith) (omega arith);
  behind = λ a i j. u.behind a (omega arith) (omega arith);
}

-- Entries before the write stay.
pub Writes-Laid :
    {c : ℕ} {mem mem' : Bytes} {p n : ℕ} (r : ℕ) (es : List Entry)
    → Writes c mem mem' p n
    → r + span es ≤ p
    → p + n ≤ r + c
    → Laid c (cell c mem) r es
    → Laid c (cell c mem') r es
Writes-Laid {c} {mem} {mem'} r es u h k =
    Laid-ext c (cell c mem) (cell c mem') r es
      (λ a i j. sym (u.before a (omega arith) (omega arith)))

module _ (c : ℕ) (mem : Bytes) (p : ℕ) (room : c ≤ length mem) (some_cell : 0 < c) where
  memcpy-Writes :
      (src : Bytes) (n : ℕ) → p % c + n ≤ c → Writes c mem (memcpy mem (p % c) src 0 n) p n
  memcpy-Writes src n straight = record {
    same_length = length-memcpy mem (p % c) src 0 n;
    before = cell-before c mem p src n room straight some_cell;
    behind = cell-behind c mem p src n room straight some_cell;
  }

  memcpy_all : (src : Bytes) → memcpy mem (p % c) src 0 (length src) ≡ blit mem (p % c) src
  memcpy_all src =
      memcpy-blit_all mem (p % c) src (length src) (omega arith)
      ∙ ap (blit mem (p % c)) (take_all (length src) src (omega arith))

  pub blit-Writes :
      (src : Bytes) → p % c + length src ≤ c → Writes c mem (blit mem (p % c) src) p (length src)
  blit-Writes src straight =
      subst (λ m. Writes c mem m p (length src)) (memcpy_all src)
        (memcpy-Writes src (length src) straight)

  pub cell-blit :
      (src : Bytes) (i : ℕ)
      → p % c + length src ≤ c
      → i < length src
      → cell c (blit mem (p % c) src) (p + i) ≡ byte_at src i
  cell-blit src i straight h =
      ap (λ m. cell c m (p + i)) (sym (memcpy_all src))
      ∙ cell-written c mem p src (length src) room straight some_cell i h

  module _ (v : ℕ) (straight : p % c + 8 ≤ c) where
    pub store-Writes : Writes c mem (store_word mem (p % c) v) p 8
    store-Writes =
        subst (λ m. Writes c mem m p 8) (sym (store_word_lem mem (p % c) v))
          (memcpy-Writes (word_bytes 8 v) 8 straight)

    pub word_stored : v < 2 ^ 64 → word_at (cell c (store_word mem (p % c) v)) p ≡ v
    word_stored fits = word_at_bytes (cell c (store_word mem (p % c) v)) p v fits (λ i h.
        ap (λ m. cell c m (p + i)) (store_word_lem mem (p % c) v)
        ∙ cell-written c mem p (word_bytes 8 v) 8 room straight some_cell i h)
