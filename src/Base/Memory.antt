-- ===== src/Base/Memory.antt =====
-- Storage as a list of bytes, and `memcpy` between two such lists.
use Prim.Native.Nat.{ℕ, zero, suc, ◌+◌, ◌-◌, ◌≤◌, ◌<◌}
use mathlib.Core.Path.{◌≡◌, refl, sym, ap, ap₂, ◌∙◌}
use mathlib.Core.Bool.{◌&&◌}
use mathlib.Core.List.{List, [], ◌∷◌, ◌++◌}
use native.Mathlib.Omega.{arith}
use nanosig.Base.Tests.{ltb, leb, if◌then◌else◌}
use nanosig.Base.Lists.{
  length, get_or, set, take, tabulate, tabulate_ext, take-eq-tabulate, length-set, get_or-set_self,
  get_or-set_ne,
}

-- Bytes are only moved, never computed with, so a byte is any number.
abbrev pub Bytes : Type 0
Bytes = List ℕ

-- The byte at an index; code that stays in bounds never meets the 0.
abbrev pub byte_at : Bytes → ℕ → ℕ
byte_at xs i = get_or xs i 0

-- `memcpy(dst + d, src + s, n)`.
pub memcpy : Bytes → ℕ → Bytes → ℕ → ℕ → Bytes
memcpy dst d src s zero = dst
memcpy dst d src s (suc n) = memcpy (set dst d (byte_at src s)) (suc d) src (suc s) n

pub length-memcpy :
    (dst : Bytes) (d : ℕ) (src : Bytes) (s n : ℕ) → length (memcpy dst d src s n) ≡ length dst
unfolding memcpy
length-memcpy dst d src s zero = refl
length-memcpy dst d src s (suc n) =
    length-memcpy (set dst d (byte_at src s)) (suc d) src (suc s) n
    ∙ length-set dst d (byte_at src s)

pub memcpy_below :
    (dst : Bytes) (d : ℕ) (src : Bytes) (s n j : ℕ)
    → j < d
    → byte_at (memcpy dst d src s n) j ≡ byte_at dst j
unfolding memcpy
memcpy_below dst d src s zero j h = refl
memcpy_below dst d src s (suc n) j h =
    memcpy_below (set dst d (byte_at src s)) (suc d) src (suc s) n j (omega arith)
    ∙ get_or-set_ne dst d j (byte_at src s) 0 (omega arith)

-- Where the copy fits, a byte in the range comes from the source and the others stay.
pub byte_at-memcpy :
    (dst : Bytes) (d : ℕ) (src : Bytes) (s n j : ℕ)
    → d + n ≤ length dst
    → byte_at (memcpy dst d src s n) j
      ≡ (if leb d j && ltb j (d + n) then byte_at src (s + (j - d)) else byte_at dst j)
unfolding memcpy
byte_at-memcpy dst d src s zero j h = ground arith
byte_at-memcpy dst d src s (suc n) j h = ground (
  arith,
  byte_at-memcpy (set dst d (byte_at src s)) (suc d) src (suc s) n j,
  memcpy_below (set dst d (byte_at src s)) (suc d) src (suc s) n j,
  length-set dst d (byte_at src s),
  get_or-set_self dst d (byte_at src s) 0,
  get_or-set_ne dst d j (byte_at src s) 0,
)

pub memcpy_zero : (dst : Bytes) (d : ℕ) (src : Bytes) (s : ℕ) → memcpy dst d src s 0 ≡ dst
unfolding memcpy
memcpy_zero dst d src s = refl

-- Writing a whole list from an index on.
pub blit : Bytes → ℕ → Bytes → Bytes
blit mem d [] = mem
blit mem d (b ∷ bs) = blit (set mem d b) (suc d) bs

pub blit_nil : (mem : Bytes) (d : ℕ) → blit mem d [] ≡ mem
unfolding blit
blit_nil mem d = refl

pub blit-append :
    (mem : Bytes) (d e : ℕ) (xs ys : Bytes)
    → e ≡ d + length xs
    → blit mem d (xs ++ ys) ≡ blit (blit mem d xs) e ys
unfolding blit
blit-append mem d e [] ys h = ap (λ k. blit mem k ys) (omega arith)
blit-append mem d e (x ∷ xs) ys h = blit-append (set mem d x) (suc d) e xs ys (omega arith)

pub memcpy-blit :
    (mem : Bytes) (d : ℕ) (src : Bytes) (s n : ℕ)
    → memcpy mem d src s n ≡ blit mem d (tabulate n (λ i. byte_at src (s + i)))
unfolding memcpy blit
memcpy-blit mem d src s zero = refl
memcpy-blit mem d src s (suc n) =
    memcpy-blit (set mem d (byte_at src s)) (suc d) src (suc s) n
    ∙ ap₂ (λ b bs. blit (set mem d b) (suc d) bs) (ap (byte_at src) (omega arith))
        (tabulate_ext n n _ _ refl (λ i h. ap (byte_at src) (omega arith)))

pub memcpy-blit_all :
    (mem : Bytes) (d : ℕ) (src : Bytes) (n : ℕ)
    → n ≤ length src
    → memcpy mem d src 0 n ≡ blit mem d (take n src)
memcpy-blit_all mem d src n h =
    memcpy-blit mem d src 0 n
    ∙ ap (blit mem d) (
        tabulate_ext n n _ _ refl (λ i l. ap (byte_at src) (omega arith))
        ∙ sym (take-eq-tabulate n src 0 h))
