-- ===== src/Base/Object.antt =====
-- A `size_t` object of eight bytes in storage, least significant byte first.
use Prim.Native.Nat.{ℕ, zero, suc, ◌+◌, ◌-◌, ◌*◌, ◌/◌, ◌%◌, ◌^◌, ◌≤◌, ◌<◌}
use mathlib.Core.Path.{◌≡◌, refl, ap, sym, ◌∙◌}
use mathlib.Core.List.{[], ◌∷◌}
use native.Mathlib.Omega.{arith}
use mathlib.Core.Bool.{◌&&◌}
use nanosig.Base.Tests.{leb, ltb, if◌then◌else◌}
use nanosig.Base.Lists.{length, tabulate, tabulate_ext, eq-tabulate}
use nanosig.Base.Memory.{Bytes, byte_at, memcpy, length-memcpy, byte_at-memcpy}

pub word_bytes : ℕ → ℕ → Bytes
word_bytes zero v = []
word_bytes (suc k) v = v % 256 ∷ word_bytes k (v / 256)

pub of_bytes : Bytes → ℕ
of_bytes [] = 0
of_bytes (b ∷ bs) = b + 256 * of_bytes bs

-- The number that the k bytes from an address on stand for, read through a function.
abbrev pub word_at : (ℕ → ℕ) → ℕ → ℕ
word_at byte a = of_bytes (tabulate 8 (λ i. byte (a + i)))

-- An atomic load and store of a `size_t` at an offset of the storage.
pub load_word : Bytes → ℕ → ℕ
load_word mem a = word_at (byte_at mem) a

pub store_word : Bytes → ℕ → ℕ → Bytes
store_word mem a v = memcpy mem a (word_bytes 8 v) 0 8

abbrev Fits : ℕ → ℕ → Type 0
Fits zero v = v ≡ 0
Fits (suc k) v = Fits k (v / 256)

of_bytes-word_bytes : (k v : ℕ) → Fits k v → of_bytes (word_bytes k v) ≡ v
unfolding of_bytes word_bytes
of_bytes-word_bytes zero v h = omega arith
of_bytes-word_bytes (suc k) v h = omega (arith, of_bytes-word_bytes k (v / 256) h)

pub length-word_bytes : (k v : ℕ) → length (word_bytes k v) ≡ k
unfolding word_bytes
length-word_bytes zero v = refl
length-word_bytes (suc k) v = ap suc (length-word_bytes k (v / 256))

pub length-store_word : (mem : Bytes) (a v : ℕ) → length (store_word mem a v) ≡ length mem
unfolding store_word
length-store_word mem a v = length-memcpy mem a (word_bytes 8 v) 0 8

pub load_word_lem : (mem : Bytes) (a : ℕ) → load_word mem a ≡ word_at (byte_at mem) a
unfolding load_word
load_word_lem mem a = refl

pub store_word_lem :
    (mem : Bytes) (a v : ℕ) → store_word mem a v ≡ memcpy mem a (word_bytes 8 v) 0 8
unfolding store_word
store_word_lem mem a v = refl

-- Eight bytes that are a word's stand for it.
pub word_at_bytes :
    (byte : ℕ → ℕ) (a v : ℕ)
    → v < 2 ^ 64
    → ((i : ℕ) → i < 8 → byte (a + i) ≡ byte_at (word_bytes 8 v) i)
    → word_at byte a ≡ v
word_at_bytes byte a v h same =
    ap of_bytes (
      tabulate_ext 8 8 (λ i. byte (a + i)) (byte_at (word_bytes 8 v)) refl same
      ∙ sym (eq-tabulate (word_bytes 8 v) 0 8 (sym (length-word_bytes 8 v))))
    ∙ of_bytes-word_bytes 8 v (omega arith)

-- A word read depends on its eight bytes alone.
pub word_at_ext :
    (f g : ℕ → ℕ) (a b : ℕ) → ((i : ℕ) → i < 8 → f (a + i) ≡ g (b + i)) → word_at f a ≡ word_at g b
word_at_ext f g a b same =
    ap of_bytes (tabulate_ext 8 8 (λ i. f (a + i)) (λ i. g (b + i)) refl same)

pub load-store_word :
    (mem : Bytes) (a v : ℕ) → a + 8 ≤ length mem → v < 2 ^ 64 → load_word (store_word mem a v) a ≡ v
unfolding load_word store_word
load-store_word mem a v h fits =
    word_at_bytes (byte_at (memcpy mem a (word_bytes 8 v) 0 8)) a v fits (λ i hi. ground (
      arith,
      byte_at-memcpy mem a (word_bytes 8 v) 0 8 (a + i),
      ap (byte_at (word_bytes 8 v)) (cancel i),
    ))
  where
    cancel : (i : ℕ) → 0 + (a + i - a) ≡ i
    cancel i = omega arith

-- The bytes of the word 0.
pub byte_at-word_zero : (k i : ℕ) → byte_at (word_bytes k 0) i ≡ 0
unfolding word_bytes
byte_at-word_zero zero i = refl
byte_at-word_zero (suc k) zero = refl
byte_at-word_zero (suc k) (suc i) = byte_at-word_zero k i

pub byte_at-store_zero :
    (mem : Bytes) (a i : ℕ)
    → a + 8 ≤ length mem
    → byte_at (store_word mem a 0) i ≡ (if leb a i && ltb i (a + 8) then 0 else byte_at mem i)
unfolding store_word
byte_at-store_zero mem a i h =
    ground (arith, byte_at-memcpy mem a (word_bytes 8 0) 0 8 i, byte_at-word_zero 8 (0 + (i - a)))
