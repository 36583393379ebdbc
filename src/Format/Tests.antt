-- ===== src/Format/Tests.antt =====
-- The printing of numbers at small inputs.
use Prim.Native.Nat.{max}
use nanosig.Base.{◌+◌, ◌^◌, ◌-◌, ◌≡◌, refl, true, false, some, none, [], ◌∷◌, length, arith}
use nanosig.Format.{hex, dec, Flags, num_bit_count, number_chars, vprintf_number}
use nanosig.Format.Digits.{read_from, number_chars_lem}
use nanosig.Format.Width.{length-vprintf_number}

abbrev flags : Flags
flags = record {
  left = false;
  plus = false;
  space = false;
  special = true;
  zeropad = true;
  large = false;
  signed = true;
}

-- `%#06x` of 255, and `%d` of -7 in a field of 4 with zeros.
hex_255 : vprintf_number true 255 6 none flags hex ≡ 48 ∷ 120 ∷ 48 ∷ 48 ∷ 102 ∷ 102 ∷ []
unfolding vprintf_number num_bit_count number_chars
hex_255 = refl

minus_7 : vprintf_number true (2 ^ 64 - 7) 4 none flags dec ≡ 45 ∷ 48 ∷ 48 ∷ 55 ∷ []
unfolding vprintf_number num_bit_count number_chars
minus_7 = refl

number_chars_lem_example :
    read_from hex 0 (number_chars (num_bit_count 64 255 hex) 255 hex true) ≡ 255
number_chars_lem_example = number_chars_lem hex true 255 (omega arith)

length-vprintf_number_example :
    length (vprintf_number true 255 9 (some 3) flags hex)
    ≡ max 9 (0 + 2 + num_bit_count 64 255 hex + (3 - num_bit_count 64 255 hex))
length-vprintf_number_example = length-vprintf_number 255 9 (some 3) flags hex
