-- ===== src/Base/Words.antt =====
-- Machine words: 32-bit and 64-bit unsigned numbers with their wrap, and signed readings of them.
use Prim.Native.Nat.{ℕ, ◌+◌, ◌-◌, ◌*◌, ◌%◌, ◌^◌}
use nanosig.Base.Tests.{ltb, if◌then◌else◌}

-- `negsuc n` is -(n + 1).
pub data ℤ : Type 0 where
  pos : ℕ → ℤ
  negsuc : ℕ → ℤ

abbrev pub u32_mod : ℕ
u32_mod = 2 ^ 32

abbrev pub u64_mod : ℕ
u64_mod = 2 ^ 64

abbrev pub u32_max : ℕ
u32_max = 0xffff_ffff

-- uint32_t arithmetic; `-` on ℕ stops at 0, so the modulus comes first.
abbrev pub add32 : ℕ → ℕ → ℕ
add32 a b = (a + b) % u32_mod

abbrev pub sub32 : ℕ → ℕ → ℕ
sub32 a b = (a + u32_mod - b) % u32_mod

abbrev pub mul32 : ℕ → ℕ → ℕ
mul32 a b = (a * b) % u32_mod

-- uint64_t and, on a 64-bit target, size_t arithmetic.
abbrev pub add64 : ℕ → ℕ → ℕ
add64 a b = (a + b) % u64_mod

abbrev pub sub64 : ℕ → ℕ → ℕ
sub64 a b = (a + u64_mod - b) % u64_mod

-- `(int32_t)x` of a uint32_t, and `(uint32_t)x` of an int32_t.
abbrev pub to_i32 : ℕ → ℤ
to_i32 x = if ltb x (2 ^ 31) then pos x else negsuc (2 ^ 32 - 1 - x)

abbrev pub to_u32 : ℤ → ℕ
to_u32 (pos n) = n % u32_mod
to_u32 (negsuc n) = u32_mod - 1 - n % u32_mod

-- `(int64_t)x` of a uint64_t.
abbrev pub to_i64 : ℕ → ℤ
to_i64 x = if ltb x (2 ^ 63) then pos x else negsuc (2 ^ 64 - 1 - x)
