-- ===== src/Format/Digits.antt =====
-- src/ns_formatio.c: the digits of a number, read back.
use native.Mathlib.Nat.{pow-suc}
use nanosig.Base.{
  ℕ, zero, suc, ◌+◌, ◌-◌, ◌*◌, ◌/◌, ◌%◌, ◌^◌, ◌<◌, ◌≡◌, refl, sym, ◌∙◌, ap, subst, inl, inr, Bool,
  true, false, List, [], ◌∷◌, ◌++◌, if◌then◌else◌, if_true, if_false, Bool-cases, ltb, ◌==◌, ==→eq,
  arith,
}
use nanosig.Format.{BaseType, bin, oct, dec, hex, radix, num_bit_count, digit_char, number_chars}

-- The digit of a character, and the number that characters stand for.
abbrev pub digit_value : ℕ → ℕ
digit_value c = if ltb c 58 then c - 48 else if ltb c 97 then c - 55 else c - 87

abbrev pub read_from : BaseType → ℕ → List ℕ → ℕ
read_from base acc [] = acc
read_from base acc (c ∷ cs) = read_from base (acc * radix base + digit_value c) cs

read_from-append :
    (base : BaseType) (acc : ℕ) (xs : List ℕ) (c : ℕ)
    → read_from base acc (xs ++ c ∷ []) ≡ read_from base acc xs * radix base + digit_value c
read_from-append base acc [] c = refl
read_from-append base acc (x ∷ xs) c = read_from-append base (acc * radix base + digit_value x) xs c

digit_value-digit_char : (large : Bool) (d : ℕ) → d < 16 → digit_value (digit_char large d) ≡ d
digit_value-digit_char true d h = ground arith
digit_value-digit_char false d h = ground arith

rem_small : (base : BaseType) (num : ℕ) → num % radix base < 16
rem_small bin num = omega arith
rem_small oct num = omega arith
rem_small dec num = omega arith
rem_small hex num = omega arith

split_number : (base : BaseType) (num : ℕ) → num / radix base * radix base + num % radix base ≡ num
split_number bin num = omega arith
split_number oct num = omega arith
split_number dec num = omega arith
split_number hex num = omega arith

quotient_small : (base : BaseType) (num p : ℕ) → num < p * 2 → num / radix base < p
quotient_small bin num p h = omega arith
quotient_small oct num p h = omega arith
quotient_small dec num p h = omega arith
quotient_small hex num p h = omega arith

read_number_chars :
    (base : BaseType) (large : Bool) (fuel num : ℕ)
    → num < 2 ^ fuel
    → read_from base 0 (number_chars (num_bit_count fuel num base) num base large) ≡ num
unfolding num_bit_count number_chars
read_number_chars base large zero num h = omega arith
read_number_chars base large (suc fuel) num h = elim (Bool-cases (num / radix base == 0)) [
  | inl e ↦
      subst (λ n. read_from base 0 (number_chars n num base large) ≡ num) (sym (if_true _ _ e))
        (last_digit
          ∙ sym (ap (λ q. q * radix base + num % radix base) (==→eq _ _ e))
          ∙ split_number base num)
  | inr e ↦
      subst (λ n. read_from base 0 (number_chars n num base large) ≡ num) (sym (if_false _ _ e))
        (read_from-append base 0
            (number_chars (num_bit_count fuel (num / radix base) base) (num / radix base) base
              large)
            (digit_char large (num % radix base))
          ∙ ap
              (λ k.
                read_from base 0 (
                    number_chars (num_bit_count fuel (num / radix base) base) (num / radix base)
                      base large)
                  * radix base
                + k)
              (digit_value-digit_char large (num % radix base) (rem_small base num))
          ∙ ap (λ k. k * radix base + num % radix base)
              (read_number_chars base large fuel (num / radix base)
                (quotient_small base num (2 ^ fuel) (omega (arith, h, pow-suc 2 fuel))))
          ∙ split_number base num)
]
  where
    last_digit :
        0 * radix base + digit_value (digit_char large (num % radix base))
        ≡ 0 * radix base + num % radix base
    last_digit =
        ap (λ k. 0 * radix base + k)
          (digit_value-digit_char large (num % radix base) (rem_small base num))

-- A number of 64 bits has the digits that are printed for it.
pub number_chars_lem :
    (base : BaseType) (large : Bool) (num : ℕ)
    → num < 2 ^ 64
    → read_from base 0 (number_chars (num_bit_count 64 num base) num base large) ≡ num
number_chars_lem base large num h = read_number_chars base large 64 num h
