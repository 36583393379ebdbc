-- ===== src/Format.antt =====
-- src/ns_formatio.c: the printing of whole numbers.
pub mod Digits
pub mod Width
mod Tests
use nanosig.Base.{
  ℕ, zero, suc, ◌+◌, ◌-◌, ◌/◌, ◌%◌, ◌^◌, Bool, true, false, not, ◌&&◌, Option, some, none, List, [],
  ◌∷◌, ◌++◌, length, if◌then◌else◌, ltb, leb, ◌==◌, sub64,
}

-- `enum ns_base_type`.
pub data BaseType : Type 0 where
  bin oct dec hex : BaseType

abbrev pub radix : BaseType → ℕ
radix bin = 2
radix oct = 8
radix dec = 10
radix hex = 16

-- The flags that the printing of numbers reads.
pub record Flags : Type 0 where
  pub left : Bool
  pub plus : Bool
  pub space : Bool
  pub special : Bool
  pub zeropad : Bool
  pub large : Bool
  pub signed : Bool

-- `num_bit_count`; a number of 64 bits has at most 64 digits, so that 64 rounds are enough.
pub num_bit_count : ℕ → ℕ → BaseType → ℕ
num_bit_count zero number base = 0
num_bit_count (suc fuel) number base =
    let rest = num_bit_count fuel (number / radix base) base in
    if number / radix base == 0 then 1 else suc rest

-- `small_digits` and `large_digits`, as character codes.
abbrev pub digit_char : Bool → ℕ → ℕ
digit_char large d = if ltb d 10 then 48 + d else if large then 55 + d else 87 + d

-- The loop that writes so many digits from the last one on, with `num_rsh`.
pub number_chars : ℕ → ℕ → BaseType → Bool → List ℕ
number_chars zero num base large = []
number_chars (suc n) num base large =
    number_chars n (num / radix base) base large ++ digit_char large (num % radix base) ∷ []

abbrev pub repeated : ℕ → ℕ → List ℕ
repeated zero ch = []
repeated (suc n) ch = ch ∷ repeated n ch

-- `(long long)num < 0` of a signed number.
abbrev pub is_minus : Flags → ℕ → Bool
is_minus flags num = flags.signed && leb (2 ^ 63) num

abbrev pub magnitude : Flags → ℕ → ℕ
magnitude flags num = if is_minus flags num then sub64 0 num else num

abbrev pub sign_chars : Flags → ℕ → List ℕ
sign_chars flags num =
    if is_minus flags num
    then 45 ∷ []
    else if flags.plus
    then 43 ∷ []
    else if flags.space
    then 32 ∷ []
    else []

abbrev pub special_chars : Flags → BaseType → List ℕ
special_chars flags bin =
    if flags.special then (if flags.large then 48 ∷ 66 ∷ [] else 48 ∷ 98 ∷ []) else []
special_chars flags oct = if flags.special then 48 ∷ [] else []
special_chars flags dec = []
special_chars flags hex =
    if flags.special then (if flags.large then 48 ∷ 88 ∷ [] else 48 ∷ 120 ∷ []) else []

-- The zeros that a precision asks for; `none` is a negative one.
abbrev pub precision_zeros : Option ℕ → ℕ → ℕ
precision_zeros none bit_count = 0
precision_zeros (some p) bit_count = p - bit_count

abbrev pub pads_zeros : Flags → Option ℕ → Bool
pads_zeros flags none = flags.zeropad
pads_zeros flags (some p) = false

-- `vprintf_number`: the bytes that go out; `allocated` says that memory for more than 16 digits was
-- given. A field width of 0 stands for negative ones too.
pub vprintf_number : Bool → ℕ → ℕ → Option ℕ → Flags → BaseType → List ℕ
vprintf_number allocated num field_width precision flags base =
    let bit_count = num_bit_count 64 (magnitude flags num) base in
    let digits = number_chars bit_count (magnitude flags num) base flags.large in
    let sign = sign_chars flags num in
    let special = special_chars flags base in
    let asked = precision_zeros precision bit_count in
    let reality = length sign + length special + bit_count + asked in
    let zeros = if pads_zeros flags precision then field_width - reality else asked in
    let spaces = if pads_zeros flags precision then 0 else field_width - reality in
    if ltb 16 bit_count && not allocated
    then []
    else (if flags.left then [] else repeated spaces 32)
      ++ (sign
          ++ (special
              ++ (repeated zeros 48
                  ++ (digits ++ (if flags.left then repeated spaces 32 else [])))))
