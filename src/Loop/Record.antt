-- ===== src/Loop/Record.antt =====
-- src/nanosig.c: a slot call as the bytes of a record.
use nanosig.Base.{
  ℕ, zero, suc, ◌+◌, ◌^◌, ◌≤◌, ◌<◌, ◌≡◌, ◌≢◌, refl, sym, ◌∙◌, ap, ap₂, Option, some, none, [], ◌∷◌,
  ◌++◌, if◌then◌else◌, ◌==◌, ne→==, arith, length, length-append, take, drop, take_exact,
  drop_exact, Bytes, byte_at, word_bytes, load_word, load_word_lem, word_at_bytes,
  length-word_bytes,
}
use nanosig.Loop.{Call, slot_call_bytes, slot_call_size, slot_call}

abbrev pub bytes_of : Option Bytes → Bytes
bytes_of none = []
bytes_of (some b) = b

-- The record of a call.
unfoldable pub encode : Call → Bytes
encode c = slot_call_bytes c.fn c.user_data (length (bytes_of c.payload)) ++ bytes_of c.payload

-- A payload that can be emitted: none, or some bytes.
abbrev pub IsPayload : Option Bytes → Type 0
IsPayload none = Unit {0}
IsPayload (some b) = (length b ≢ 0) × (length b < 2 ^ 64)

pub record IsCall (c : Call) : Type 0 where
  pub fn_word : c.fn < 2 ^ 64
  pub user_data_word : c.user_data < 2 ^ 64
  pub payload_fits : IsPayload c.payload

byte_at-append_left : (xs ys : Bytes) (i : ℕ) → i < length xs → byte_at (xs ++ ys) i ≡ byte_at xs i
byte_at-append_left [] ys i h = absurd (omega arith)
byte_at-append_left (x ∷ xs) ys zero h = refl
byte_at-append_left (x ∷ xs) ys (suc i) h = byte_at-append_left xs ys i (omega arith)

byte_at-append_right :
    (xs ys : Bytes) (n i : ℕ) → n ≡ length xs + i → byte_at (xs ++ ys) n ≡ byte_at ys i
byte_at-append_right [] ys n i e = ap (byte_at ys) (omega arith)
byte_at-append_right (x ∷ xs) ys zero i e = absurd (omega arith)
byte_at-append_right (x ∷ xs) ys (suc n) i e = byte_at-append_right xs ys n i (omega arith)

byte_at-drop : (n : ℕ) (xs : Bytes) (i : ℕ) → byte_at (drop n xs) i ≡ byte_at xs (n + i)
byte_at-drop zero xs i = ap (byte_at xs) (omega arith)
byte_at-drop (suc n) [] i = refl
byte_at-drop (suc n) (x ∷ xs) i =
    byte_at-drop n xs i ∙ ap (byte_at (x ∷ xs)) {x = suc (n + i)} (omega arith)

byte_at-take : (n : ℕ) (xs : Bytes) (i : ℕ) → i < n → byte_at (take n xs) i ≡ byte_at xs i
byte_at-take zero xs i h = absurd (omega arith)
byte_at-take (suc n) [] i h = refl
byte_at-take (suc n) (x ∷ xs) zero h = refl
byte_at-take (suc n) (x ∷ xs) (suc i) h = byte_at-take n xs i (omega arith)

drop_nil : (n : ℕ) → drop {A = ℕ} n [] ≡ []
drop_nil zero = refl
drop_nil (suc n) = refl

take_nil : (n : ℕ) → take {A = ℕ} n [] ≡ []
take_nil zero = refl
take_nil (suc n) = refl

drop-drop : (n m : ℕ) (xs : Bytes) → drop m (drop n xs) ≡ drop (n + m) xs
drop-drop zero m xs = ap (λ k. drop k xs) (omega arith)
drop-drop (suc n) m [] = drop_nil m ∙ sym (drop_nil (suc n + m))
drop-drop (suc n) m (x ∷ xs) =
    drop-drop n m xs ∙ ap (λ k. drop k (x ∷ xs)) {x = suc (n + m)} (omega arith)

drop-take : (m n : ℕ) (xs : Bytes) → drop m (take (m + n) xs) ≡ take n (drop m xs)
drop-take zero n xs = ap (λ k. take k xs) (omega arith)
drop-take (suc m) n [] = ap (drop (suc m)) (take_nil (suc m + n)) ∙ sym (take_nil n)
drop-take (suc m) n (x ∷ xs) =
    ap (λ k. drop (suc m) (take k (x ∷ xs))) {y = suc (m + n)} (omega arith) ∙ drop-take m n xs

-- Of bytes that stand in storage, those behind the first ones stand behind them.
shown_rest :
    (mem : Bytes) (off : ℕ) (xs ys : Bytes)
    → take (length (xs ++ ys)) (drop off mem) ≡ xs ++ ys
    → take (length ys) (drop (off + length xs) mem) ≡ ys
shown_rest mem off xs ys shown =
    ap (take (length ys)) (sym (drop-drop off (length xs) mem))
    ∙ sym (drop-take (length xs) (length ys) (drop off mem))
    ∙ ap (drop (length xs)) (ap (λ k. take k (drop off mem)) (sym (length-append xs ys)) ∙ shown)
    ∙ drop_exact (length xs) xs ys refl

-- A word that stands in storage is loaded.
shown_word :
    (mem : Bytes) (off at v : ℕ)
    → v < 2 ^ 64
    → at ≡ off
    → take (length (word_bytes 8 v)) (drop at mem) ≡ word_bytes 8 v
    → load_word mem off ≡ v
shown_word mem off at v h e shown =
    load_word_lem mem off
    ∙ word_at_bytes (byte_at mem) off v h (λ i k.
      ap (λ o. byte_at mem (o + i)) (sym e)
      ∙ sym (byte_at-drop at mem i)
      ∙ sym (
          byte_at-take (length (word_bytes 8 v)) (drop at mem) i
            (omega (arith, length-word_bytes 8 v)))
      ∙ ap (λ b. byte_at b i) shown)

-- The first of two runs of bytes that stand in storage.
shown_first :
    (mem : Bytes) (off : ℕ) (xs ys : Bytes)
    → take (length (xs ++ ys)) (drop off mem) ≡ xs ++ ys
    → take (length xs) (drop off mem) ≡ xs
shown_first mem off xs ys shown =
    take-take (length xs) (length (xs ++ ys)) (drop off mem) (omega (arith, length-append xs ys))
    ∙ ap (take (length xs)) shown
    ∙ take_exact (length xs) xs ys refl
  where
    take-take : (m n : ℕ) (zs : Bytes) → m ≤ n → take m zs ≡ take m (take n zs)
    take-take zero n zs h = refl
    take-take (suc m) zero zs h = absurd (omega arith)
    take-take (suc m) (suc n) [] h = refl
    take-take (suc m) (suc n) (z ∷ zs) h = ap (◌∷◌ z) (take-take m n zs (omega arith))

pub length-slot_call_bytes : (f u n : ℕ) → length (slot_call_bytes f u n) ≡ slot_call_size
unfolding slot_call_bytes
length-slot_call_bytes f u n = omega (
  arith,
  length-append (word_bytes 8 f) (word_bytes 8 u ++ word_bytes 8 n),
  length-append (word_bytes 8 u) (word_bytes 8 n),
  length-word_bytes 8 f,
  length-word_bytes 8 u,
  length-word_bytes 8 n,
)

pub length-encode : (c : Call) → length (encode c) ≡ slot_call_size + length (bytes_of c.payload)
unfolding encode slot_call_bytes
length-encode c =
    length-append (slot_call_bytes c.fn c.user_data n) (bytes_of c.payload)
    ∙ ap (λ k. k + n) (length-slot_call_bytes c.fn c.user_data n)
  where
    n : ℕ
    n = length (bytes_of c.payload)

-- Where the record of a call stands in storage, it is read as that call.
pub slot_call-encode :
    (mem : Bytes) (off : ℕ) (c : Call)
    → IsCall c
    → take (length (encode c)) (drop off mem) ≡ encode c
    → slot_call mem off ≡ c
unfolding slot_call encode slot_call_bytes
slot_call-encode mem off c v shown =
    ap₂ (λ f u. record { fn = f; user_data = u; payload = payload_at })
      (shown_word mem off off c.fn v.fn_word refl (shown_first mem off w1 (w2 ++ w3) head))
      (shown_word mem (off + 8) (off + length w1) c.user_data v.user_data_word
        (omega (arith, length-word_bytes 8 c.fn)) (shown_first mem (off + length w1) w2 w3 behind))
    ∙ ap (λ p. record { fn = c.fn; user_data = c.user_data; payload = p }) same_payload
  where
    n : ℕ
    n = length (bytes_of c.payload)

    w1 : Bytes
    w1 = word_bytes 8 c.fn

    w2 : Bytes
    w2 = word_bytes 8 c.user_data

    w3 : Bytes
    w3 = word_bytes 8 n

    fits : (p : Option Bytes) → IsPayload p → length (bytes_of p) < 2 ^ 64
    fits none h = omega arith
    fits (some b) h = h.1

    head : take (length (w1 ++ (w2 ++ w3))) (drop off mem) ≡ w1 ++ (w2 ++ w3)
    head = shown_first mem off (w1 ++ (w2 ++ w3)) (bytes_of c.payload) shown

    behind : take (length (w2 ++ w3)) (drop (off + length w1) mem) ≡ w2 ++ w3
    behind = shown_rest mem off w1 (w2 ++ w3) head

    size : load_word mem (off + 16) ≡ n
    size =
        shown_word mem (off + 16) (off + length w1 + length w2) n (fits c.payload v.payload_fits)
          (omega (arith, length-word_bytes 8 c.fn, length-word_bytes 8 c.user_data))
          (shown_rest mem (off + length w1) w2 w3 behind)

    payload_at : Option Bytes
    payload_at =
        if load_word mem (off + 16) == 0
        then none
        else some (take (load_word mem (off + 16)) (drop (off + slot_call_size) mem))

    payload_bytes : take n (drop (off + slot_call_size) mem) ≡ bytes_of c.payload
    payload_bytes =
        ap (λ k. take n (drop (off + k) mem)) (sym (length-slot_call_bytes c.fn c.user_data n))
        ∙ shown_rest mem off (w1 ++ (w2 ++ w3)) (bytes_of c.payload) shown

    read_as :
        (p : Option Bytes)
        → IsPayload p
        → (if length (bytes_of p) == 0 then none else some (bytes_of p)) ≡ p
    read_as none h = refl
    read_as (some b) h = rw (ne→== (length b) 0 h.0) refl

    same_payload : payload_at ≡ c.payload
    same_payload =
        ap (λ k. if k == 0 then none else some (take k (drop (off + slot_call_size) mem))) size
        ∙ ap (λ b. if n == 0 then none else some b) payload_bytes
        ∙ read_as c.payload v.payload_fits

pub encode_eq :
    (c : Call) (b : Bytes)
    → b ≡ bytes_of c.payload
    → encode c ≡ slot_call_bytes c.fn c.user_data (length b) ++ b
unfolding encode
encode_eq c b e = ap (λ p. slot_call_bytes c.fn c.user_data (length p) ++ p) (sym e)
