-- ===== src/Base/Modulo.antt =====
-- Remainders by a variable: a turn round the modulus changes nothing.
use Prim.Native.Nat.{ℕ, ◌+◌, ◌-◌, ◌*◌, ◌%◌, ◌≤◌, ◌<◌}
use mathlib.Core.Path.{◌≡◌, ◌∙◌, ap}
use native.Mathlib.Omega.{arith}
use native.Mathlib.Nat.{add-mod_right, mod-add-mod, mod-eq_of_lt}

pub mod_wrap : (x y n : ℕ) → y ≡ x + n → y % n ≡ x % n
mod_wrap x y n e = ap (λ k. k % n) e ∙ add-mod_right x n

pub mod_wrap_twice : (x y n : ℕ) → y ≡ x + n * 2 → y % n ≡ x % n
mod_wrap_twice x y n e = mod_wrap (x + n) y n (omega arith) ∙ add-mod_right x n

-- A remainder may be taken before an addition or after it.
pub mod-add : (x y n : ℕ) → (x % n + y) % n ≡ (x + y) % n
mod-add x y n = mod-add-mod x n y

pub mod_small : (x n : ℕ) → x < n → x % n ≡ x
mod_small x n h = mod-eq_of_lt h

pub mod_over : (x n : ℕ) → n ≤ x → x < n * 2 → x % n ≡ x - n
mod_over x n h k = mod_wrap (x - n) x n (omega arith) ∙ mod-eq_of_lt (omega arith)
