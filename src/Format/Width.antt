-- ===== src/Format/Width.antt =====
-- src/ns_formatio.c: how many bytes are printed for a number.
use Prim.Native.Nat.{max}
use nanosig.Base.{
  ℕ, zero, suc, ◌+◌, ◌-◌, ◌/◌, ◌%◌, ◌≡◌, refl, ◌∙◌, ap, inl, inr, Bool, true, false, ◌&&◌, Option,
  some, none, List, [], ◌∷◌, ◌++◌, length, length-append, if◌then◌else◌, if_false, Bool-cases, ltb,
  arith,
}
use nanosig.Format.{
  BaseType, radix, Flags, num_bit_count, digit_char, number_chars, repeated, magnitude, sign_chars,
  special_chars, precision_zeros, pads_zeros, vprintf_number,
}

length-number_chars :
    (n num : ℕ) (base : BaseType) (large : Bool) → length (number_chars n num base large) ≡ n
unfolding number_chars
length-number_chars zero num base large = refl
length-number_chars (suc n) num base large = omega (
  arith,
  length-append (number_chars n (num / radix base) base large)
      (digit_char large (num % radix base) ∷ []),
  length-number_chars n (num / radix base) base large,
)

length-repeated : (n ch : ℕ) → length (repeated n ch) ≡ n
length-repeated zero ch = refl
length-repeated (suc n) ch = ap suc (length-repeated n ch)

length_sides :
    (left : Bool) (n : ℕ)
    → length (if left then [] else repeated n 32) + length (if left then repeated n 32 else []) ≡ n
length_sides true n = omega (arith, length-repeated n 32)
length_sides false n = omega (arith, length-repeated n 32)

length_parts :
    (a s p z d e : List ℕ)
    → length (a ++ (s ++ (p ++ (z ++ (d ++ e)))))
      ≡ length a + length e + (length s + length p + length d) + length z
length_parts a s p z d e = omega (
  arith,
  length-append a (s ++ (p ++ (z ++ (d ++ e)))),
  length-append s (p ++ (z ++ (d ++ e))),
  length-append p (z ++ (d ++ e)),
  length-append z (d ++ e),
  length-append d e,
)

and_false : (b : Bool) → (b && false) ≡ false
and_false true = refl
and_false false = refl

-- Either the zeros or the spaces fill the field.
filled :
    (flags : Flags) (precision : Option ℕ) (field_width count fixed : ℕ)
    → (if pads_zeros flags precision
          then 0
          else field_width - (fixed + precision_zeros precision count))
        + fixed
        + (if pads_zeros flags precision
            then field_width - (fixed + precision_zeros precision count)
            else precision_zeros precision count)
      ≡ max field_width (fixed + precision_zeros precision count)
filled flags none field_width count fixed = elim (Bool-cases flags.zeropad) [
  | inl e ↦ rw e (omega arith)
  | inr e ↦ rw e (omega arith)
]
filled flags (some p) field_width count fixed = omega arith

-- Where the memory for the digits is given, the number fills its field, and it is longer only where
-- the sign, the prefix, the digits and the zeros that the precision asks for are.
pub length-vprintf_number :
    (num field_width : ℕ) (precision : Option ℕ) (flags : Flags) (base : BaseType)
    → length (vprintf_number true num field_width precision flags base)
      ≡ max field_width (
          length (sign_chars flags num)
          + length (special_chars flags base)
          + num_bit_count 64 (magnitude flags num) base
          + precision_zeros precision (num_bit_count 64 (magnitude flags num) base))
unfolding vprintf_number
length-vprintf_number num field_width precision flags base =
    ap length (if_false _ _ (and_false (ltb 16 count)))
    ∙ length_parts (if flags.left then [] else repeated spaces 32) (sign_chars flags num)
        (special_chars flags base) (repeated zeros 48)
        (number_chars count (magnitude flags num) base flags.large)
        (if flags.left then repeated spaces 32 else [])
    ∙ omega (
      arith,
      length_sides flags.left spaces,
      length-repeated zeros 48,
      length-number_chars count (magnitude flags num) base flags.large,
      filled flags precision field_width count fixed,
    )
  where
    count : ℕ
    count = num_bit_count 64 (magnitude flags num) base

    fixed : ℕ
    fixed = length (sign_chars flags num) + length (special_chars flags base) + count

    reality : ℕ
    reality = fixed + precision_zeros precision count

    zeros : ℕ
    zeros =
        if pads_zeros flags precision
        then field_width - reality
        else precision_zeros precision count

    spaces : ℕ
    spaces = if pads_zeros flags precision then 0 else field_width - reality
