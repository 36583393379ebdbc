-- ===== src/Base/Bits.antt =====
-- Masks and shifted fields as arithmetic. A power of two is a relation, since the source finds out
-- at run time whether a capacity is one, by `(c & (c - 1)) == 0`.
use Prim.Native.Nat.{
  ℕ, zero, suc, ◌+◌, ◌-◌, ◌*◌, ◌/◌, ◌%◌, ◌^◌, ◌≤◌, ◌<◌, min, max, bit_and, bit_or, digits, bitwise,
  bit_and-bitwise, bit_or-bitwise,
}
use mathlib.Core.Path.{◌≡◌, refl, ap, ◌∙◌, sym}
use mathlib.Core.Logic.{◌≢◌, inl, inr}
use native.Mathlib.Omega.{arith}
use native.Mathlib.Nat.{
  pow-suc, div-add-mod, add-mul-mod_self_left, mod-mod_of_dvd, mod-eq_of_lt, mod_self,
}
use nanosig.Base.Tests.{lt_or_ge}

module _ (last : ℕ → ℕ) (digit : ℕ → ℕ → ℕ) where
  digits_zero : (n b : ℕ) → digits last digit n 0 b ≡ last b
  digits_zero zero b = refl
  digits_zero (suc n) b = refl

  -- More fuel than the number changes nothing.
  digits_enough : (m k a b : ℕ) → a ≤ k → k ≤ m → digits last digit m a b ≡ digits last digit k a b
  digits_enough m k zero b h g = digits_zero m b ∙ sym (digits_zero k b)
  digits_enough m zero (suc a) b h g = absurd (omega arith)
  digits_enough zero (suc k) (suc a) b h g = absurd (omega arith)
  digits_enough (suc m) (suc k) (suc a) b h g =
      ap (λ t. t * 2 + digit (suc a % 2) (b % 2))
        (digits_enough m k (suc a / 2) (b / 2) (omega arith) (omega arith))

  bitwise_digit :
      (a b : ℕ)
      → 0 < a
      → bitwise last digit a b ≡ bitwise last digit (a / 2) (b / 2) * 2 + digit (a % 2) (b % 2)
  bitwise_digit zero b h = absurd (omega arith)
  bitwise_digit (suc a) b h =
      ap (λ t. t * 2 + digit (suc a % 2) (b % 2))
        (digits_enough a (suc a / 2) (suc a / 2) (b / 2) (omega arith) (omega arith))

pub bit_and_digit : (a b : ℕ) → bit_and a b ≡ bit_and (a / 2) (b / 2) * 2 + min (a % 2) (b % 2)
bit_and_digit a b = elim (lt_or_ge 0 a) [
  | inl some_bit ↦
      bit_and-bitwise a b
      ∙ bitwise_digit (λ _. 0) min a b some_bit
      ∙ ap (λ t. t * 2 + min (a % 2) (b % 2)) (sym (bit_and-bitwise (a / 2) (b / 2)))
  | inr none_left ↦
      let z : a ≡ 0 = omega arith in
      rw z (omega (arith, bit_and-bitwise 0 b, bit_and-bitwise 0 (b / 2)))
]

pub bit_or_digit : (a b : ℕ) → bit_or a b ≡ bit_or (a / 2) (b / 2) * 2 + max (a % 2) (b % 2)
bit_or_digit a b = elim (lt_or_ge 0 a) [
  | inl some_bit ↦
      bit_or-bitwise a b
      ∙ bitwise_digit (λ c. c) max a b some_bit
      ∙ ap (λ t. t * 2 + max (a % 2) (b % 2)) (sym (bit_or-bitwise (a / 2) (b / 2)))
  | inr none_left ↦
      let z : a ≡ 0 = omega arith in
      rw z (omega (arith, bit_or-bitwise 0 b, bit_or-bitwise 0 (b / 2)))
]

pub data IsPow2 : ℕ → Type 0 where
  unit : (c : ℕ) → c ≡ 1 → IsPow2 c
  double : (c m : ℕ) → IsPow2 m → c ≡ m * 2 → IsPow2 c

pub IsPow2-pos : {c : ℕ} → IsPow2 c → 0 < c
IsPow2-pos (unit c e) = omega arith
IsPow2-pos (double c m p e) = omega (arith, IsPow2-pos p)

pub IsPow2-pow : (k : ℕ) → IsPow2 (2 ^ k)
IsPow2-pow zero = unit _ refl
IsPow2-pow (suc k) = double _ (2 ^ k) (IsPow2-pow k) (pow-suc 2 k)

-- The remainder by an even modulus, one binary digit at a time.
mod-double : (x m : ℕ) → 0 < m → x % (m * 2) ≡ (x / 2 % m) * 2 + x % 2
mod-double x m h =
    ap (λ q. q % (m * 2)) split ∙ add-mul-mod_self_left _ _ _ ∙ mod-eq_of_lt (omega arith)
  where
    split : x ≡ ((x / 2 % m) * 2 + x % 2) + m * 2 * (x / 2 / m)
    split = omega (arith, div-add-mod (x / 2) m)

and_zero_below : (n x : ℕ) → x ≤ n → bit_and x 0 ≡ 0
and_zero_below zero zero h = refl
and_zero_below zero (suc x) h = absurd (omega arith)
and_zero_below (suc n) zero h = refl
and_zero_below (suc n) (suc x) h =
    omega (arith, bit_and_digit (suc x) 0, and_zero_below n (suc x / 2) (omega arith))

and_self_below : (n x : ℕ) → x ≤ n → bit_and x x ≡ x
and_self_below zero zero h = refl
and_self_below zero (suc x) h = absurd (omega arith)
and_self_below (suc n) zero h = refl
and_self_below (suc n) (suc x) h =
    omega (arith, bit_and_digit (suc x) (suc x), and_self_below n (suc x / 2) (omega arith))

-- `x & (c - 1)` is the remainder by a power of two.
pub bit_and_mask : {c : ℕ} (x : ℕ) → IsPow2 c → bit_and x (c - 1) ≡ x % c
bit_and_mask x (unit c e) = rw e (and_zero_below x x (omega arith) ∙ omega arith)
bit_and_mask x (double c m p e) = rw e (
    omega (
      arith,
      bit_and_digit x (m * 2 - 1),
      ap (bit_and (x / 2)) halved,
      bit_and_mask (x / 2) p,
      mod-double x m (IsPow2-pos p),
      IsPow2-pos p,
    ))
  where
    halved : (m * 2 - 1) / 2 ≡ m - 1
    halved = omega (arith, IsPow2-pos p)

IsPow2-below : (n c : ℕ) → c ≤ n → c ≢ 0 → bit_and c (c - 1) ≡ 0 → IsPow2 c
IsPow2-below zero c h ne e = absurd (ne (omega arith))
IsPow2-below (suc n) c h ne e = elim (lt_or_ge 0 (c % 2)) [
  | inl odd ↦
      let half : (c - 1) / 2 ≡ c / 2 = omega arith in
      unit c (
        omega (
          arith,
          bit_and_digit c (c - 1),
          ap (bit_and (c / 2)) half,
          and_self_below (c / 2) (c / 2) (omega arith),
        ))
  | inr even ↦
      let half : (c - 1) / 2 ≡ c / 2 - 1 = omega arith in
      double c (c / 2)
        (IsPow2-below n (c / 2) (omega arith) (omega arith)
          (omega (arith, bit_and_digit c (c - 1), ap (bit_and (c / 2)) half)))
        (omega arith)
]

-- The source's test finds exactly the powers of two.
pub IsPow2-of_mask : (c : ℕ) → c ≢ 0 → bit_and c (c - 1) ≡ 0 → IsPow2 c
IsPow2-of_mask c = IsPow2-below c c (omega arith)

pub mask_of_pow2 : {c : ℕ} → IsPow2 c → bit_and c (c - 1) ≡ 0
mask_of_pow2 {c} p = bit_and_mask c p ∙ mod_self c

pub IsPow2-divides : {c d : ℕ} → IsPow2 c → IsPow2 d → c ≤ d → (q : ℕ) × (d ≡ c * q)
IsPow2-divides {d} (unit c e) p h = (d, rw e (omega arith))
IsPow2-divides (double c m p e) (unit d f) h = absurd (omega (arith, IsPow2-pos p))
IsPow2-divides (double c m p e) (double d n q f) h =
    let (k, g) = IsPow2-divides p q (omega arith) in
    (k, f ∙ ap (λ t. t * 2) g ∙ sym (ap (λ t. t * k) e ∙ omega arith))

-- A remainder by a larger power of two does not change one by a smaller.
pub mod-mod_pow2 : {c d : ℕ} (x : ℕ) → IsPow2 c → IsPow2 d → c ≤ d → x % d % c ≡ x % c
mod-mod_pow2 {c} x p q h = mod-mod_of_dvd c x (∣◌∣₁ (IsPow2-divides p q h))

-- Fields that share no bit: `|` is the sum.
pub bit_or_fields : {c : ℕ} (a b : ℕ) → IsPow2 c → a < c → bit_or a (b * c) ≡ a + b * c
bit_or_fields a b (unit c e) h =
    let z : a ≡ 0 = omega arith in rw (z, e) (omega (arith, bit_or-bitwise 0 (b * 1)))
bit_or_fields a b (double c m p e) h = rw e (
    omega (
      arith,
      bit_or_digit a (b * (m * 2)),
      ap (bit_or (a / 2)) half,
      bit_or_fields (a / 2) b p (omega arith),
    ))
  where
    half : b * (m * 2) / 2 ≡ b * m
    half = omega arith
