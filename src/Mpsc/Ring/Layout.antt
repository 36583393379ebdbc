-- ===== src/Mpsc/Ring/Layout.antt =====
-- src/ds/ns_mpsc_record_ring.c: how the records lie in the storage.
use nanosig.Base.{
  ℕ, ◌+◌, ◌-◌, ◌*◌, ◌/◌, ◌%◌, ◌≤◌, ◌<◌, ◌≡◌, refl, sym, ◌∙◌, ap, inl, inr, lt_or_ge, arith, List,
  [], ◌∷◌, ◌++◌, length, Bytes, byte_at, memcpy, byte_at-memcpy, word_at, word_at_ext, subst,
  mod-add, mod_small, mod_over, mod_wrap,
}
use nanosig.Mpsc.Meta.{meta_is_valid}
use nanosig.Mpsc.Meta.Codec.{Reads}

-- What a run of the storage between the read and the write position is: a fake record of a size, a
-- reserved record of a size that is not committed yet, or a committed record with its bytes.
pub data Entry : Type 0 where
  fake : ℕ → Entry
  busy : ℕ → Entry
  done : Bytes → Entry

-- The bytes that a record of n payload bytes takes up.
abbrev pub total_size : ℕ → ℕ
total_size n = (8 + n + 7) / 8 * 8

abbrev pub stride : Entry → ℕ
stride (fake n) = n
stride (busy n) = n
stride (done b) = total_size (length b)

abbrev pub span : List Entry → ℕ
span [] = 0
span (e ∷ es) = stride e + span es

-- The storage by position: the positions go on without end, the storage goes round.
abbrev pub cell : ℕ → Bytes → ℕ → ℕ
cell c mem a = byte_at mem (a % c)

-- A run of n bytes in whole words that does not go round the end of the storage.
pub record IsRun (c p n : ℕ) : Type 0 where
  pub some_word : 8 ≤ n
  pub whole_words : n % 8 ≡ 0
  pub straight : p % c + n ≤ c

-- The word that heads the entry.
abbrev pub HeaderOf : ℕ → Entry → Type 0
HeaderOf w (fake n) = Reads w n 0 1
HeaderOf w (busy n) = meta_is_valid w ≡ 0
HeaderOf w (done b) = Reads w (total_size (length b)) (total_size (length b) - 8 - length b) 0

abbrev pub payload_of : Entry → Bytes
payload_of (done b) = b
payload_of _ = []

-- An entry lies at a position: its run, its header, and behind that its payload.
pub record EntryAt (c : ℕ) (f : ℕ → ℕ) (p : ℕ) (e : Entry) : Type 0 where
  pub run : IsRun c p (stride e)
  pub header : HeaderOf (word_at f p) e
  pub payload : (i : ℕ) → i < length (payload_of e) → f (p + 8 + i) ≡ byte_at (payload_of e) i

-- The entries lie one behind the other from a position on.
abbrev pub Laid : ℕ → (ℕ → ℕ) → ℕ → List Entry → Type 0
Laid c f p [] = Unit {0}
Laid c f p (e ∷ es) = EntryAt c f p e × Laid c f (p + stride e) es

length-payload_of : (e : Entry) → 8 ≤ stride e → 8 + length (payload_of e) ≤ stride e
length-payload_of (done b) h = omega arith
length-payload_of (fake n) h = h
length-payload_of (busy n) h = h

-- An entry depends on the bytes of its run alone.
EntryAt-ext :
    (c : ℕ) (f g : ℕ → ℕ) (p : ℕ) (e : Entry)
    → ((a : ℕ) → p ≤ a → a < p + stride e → f a ≡ g a)
    → EntryAt c f p e
    → EntryAt c g p e
EntryAt-ext c f g p e same h = record {
  run = h.run;
  header = subst (λ w. HeaderOf w e) (word_at_ext f g p p same_word) h.header;
  payload = λ i l. sym (same (p + 8 + i) (omega arith) (omega (arith, long))) ∙ h.payload i l;
}
  where
    long : 8 + length (payload_of e) ≤ stride e
    long = length-payload_of e h.run.some_word

    same_word : (i : ℕ) → i < 8 → f (p + i) ≡ g (p + i)
    same_word i l = same (p + i) (omega arith) (omega (arith, long))

pub Laid-ext :
    (c : ℕ) (f g : ℕ → ℕ) (p : ℕ) (es : List Entry)
    → ((a : ℕ) → p ≤ a → a < p + span es → f a ≡ g a)
    → Laid c f p es
    → Laid c g p es
Laid-ext c f g p [] same h = tt
Laid-ext c f g p (e ∷ es) same h = (
  EntryAt-ext c f g p e (λ a l k. same a l (omega arith)) h.0,
  Laid-ext c f g (p + stride e) es (λ a l k. same a (omega arith) (omega arith)) h.1,
)

pub Laid-append :
    (c : ℕ) (f : ℕ → ℕ) (p q : ℕ) (xs ys : List Entry)
    → q ≡ p + span xs
    → Laid c f p xs
    → Laid c f q ys
    → Laid c f p (xs ++ ys)
Laid-append c f p q [] ys e hx hy = subst (λ k. Laid c f k ys) (omega arith) hy
Laid-append c f p q (x ∷ xs) ys e hx hy =
    (hx.0, Laid-append c f (p + stride x) q xs ys (omega arith) hx.1 hy)

pub span-append : (xs ys : List Entry) → span (xs ++ ys) ≡ span xs + span ys
span-append [] ys = omega arith
span-append (x ∷ xs) ys = omega (arith, span-append xs ys)

pub span_words : (c : ℕ) (f : ℕ → ℕ) (p : ℕ) (es : List Entry) → Laid c f p es → span es % 8 ≡ 0
span_words c f p [] h = refl
span_words c f p (e ∷ es) h =
    omega (arith, h.0.run.whole_words, span_words c f (p + stride e) es h.1)

-- n bytes written at position p, where they do not go round the end.
module _ (c : ℕ) (mem : Bytes) (p : ℕ) (src : Bytes) (n : ℕ) where
  abbrev pub written_at : ℕ → ℕ
  written_at = cell c (memcpy mem (p % c) src 0 n)

  module _ (room : c ≤ length mem) (straight : p % c + n ≤ c) (some_cell : 0 < c) where
    pub cell-written : (i : ℕ) → i < n → written_at (p + i) ≡ byte_at src i
    cell-written i h =
        ap (byte_at (memcpy mem (p % c) src 0 n)) place
        ∙ ground (arith, byte_at-memcpy mem (p % c) src 0 n (p % c + i), ap (byte_at src) back)
      where
        place : (p + i) % c ≡ p % c + i
        place = sym (mod-add p i c) ∙ mod_small (p % c + i) c (omega arith)

        back : 0 + (p % c + i - p % c) ≡ i
        back = omega arith

    pub cell-behind : (a : ℕ) → p + n ≤ a → a < p + c → written_at a ≡ cell c mem a
    cell-behind a h k = elim (lt_or_ge (p % c + (a - p)) c) [
      | inl ahead ↦
          ground (
            arith,
            place,
            mod_small (p % c + (a - p)) c,
            byte_at-memcpy mem (p % c) src 0 n (a % c),
          )
      | inr round ↦
          ground
            (arith, place, mod_over (p % c + (a - p)) c, byte_at-memcpy mem (p % c) src 0 n (a % c))
    ]
      where
        place : a % c ≡ (p % c + (a - p)) % c
        place = sym (mod-add p (a - p) c ∙ ap (λ q. q % c) (omega arith))

    pub cell-before : (a : ℕ) → a < p → p + n ≤ a + c → written_at a ≡ cell c mem a
    cell-before a h k =
        ap (byte_at (memcpy mem (p % c) src 0 n)) (sym round)
        ∙ cell-behind (a + c) k (omega arith)
        ∙ ap (byte_at mem) round
      where
        round : (a + c) % c ≡ a % c
        round = mod_wrap a (a + c) c refl
