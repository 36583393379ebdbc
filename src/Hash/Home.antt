-- ===== src/Hash/Home.antt =====
-- src/ds/ns_hashtbl.c: the bucket in which a hash value is looked for.
use Prim.Native.Nat.{bit_and, ◌∣◌}
use native.Mathlib.Nat.{dvd_refl, dvd-mul_right_of_dvd, mod-mod_of_dvd, mod-lt, pow-suc}
use nanosig.Base.{
  ℕ, zero, suc, ◌+◌, ◌-◌, ◌/◌, ◌%◌, ◌^◌, ◌≤◌, ◌<◌, ◌≡◌, refl, sym, ◌∙◌, ap, subst, inl, inr, Bool,
  true, false, not, ◌&&◌, if◌then◌else◌, if_true, if_false, Bool-cases, ne→==, ◌==◌, arith,
  IsPow2-pow, bit_and_mask, mod_small,
}
use nanosig.Hash.{Table, need_remake, older_mask}

-- The bucket of a hash value in a table of 2 ^ k buckets: of the remainders by 2 ^ k, by the power
-- before, and so on, the first whose bucket is filled.
pub home : Table → ℕ → ℕ → ℕ
home t zero h = 0
home t (suc k) h =
    let rest = home t k h in if need_remake t (h % 2 ^ suc k) then rest else h % 2 ^ suc k

pow-dvd : (a d b : ℕ) → b ≡ d + a → 2 ^ a ∣ 2 ^ b
pow-dvd a zero b e = subst (λ n. 2 ^ a ∣ 2 ^ n) (omega (arith, e)) (dvd_refl (2 ^ a))
pow-dvd a (suc d) zero e = absurd (omega (arith, e))
pow-dvd a (suc d) (suc b) e =
    subst (λ n. 2 ^ a ∣ n) (sym (pow-suc 2 b))
      (dvd-mul_right_of_dvd (2 ^ a) (pow-dvd a d b (omega (arith, e))) 2)

-- A remainder by a larger power has the same remainder by a smaller one.
pub mod-pow : (h a b : ℕ) → a ≤ b → h % 2 ^ b % 2 ^ a ≡ h % 2 ^ a
mod-pow h a b le = mod-mod_of_dvd (2 ^ a) h (pow-dvd a (b - a) b (omega (arith, le)))

pub home-mod : (t : Table) (k m h : ℕ) → k ≤ m → home t k (h % 2 ^ m) ≡ home t k h
unfolding home
home-mod t zero m h le = refl
home-mod t (suc k) m h le =
    ap (λ n. if need_remake t n then home t k (h % 2 ^ m) else n) (mod-pow h (suc k) m le)
    ∙ ap (λ n. if need_remake t (h % 2 ^ suc k) then n else h % 2 ^ suc k)
        (home-mod t k m h (omega (arith, le)))

pub home-zero : (t : Table) (h : ℕ) → home t zero h ≡ 0
unfolding home
home-zero t h = refl

pub home_filled :
    (t : Table) (k h : ℕ) → need_remake t (h % 2 ^ suc k) ≡ false → home t (suc k) h ≡ h % 2 ^ suc k
unfolding home
home_filled t k h e = if_false _ _ e

pub home_older :
    (t : Table) (k h : ℕ) → need_remake t (h % 2 ^ suc k) ≡ true → home t (suc k) h ≡ home t k h
unfolding home
home_older t k h e = if_true _ _ e

pub pow_pos : (k : ℕ) → 1 ≤ 2 ^ k
pow_pos zero = omega arith
pow_pos (suc k) = omega (arith, pow_pos k, pow-suc 2 k)

pub pow_grows : (k m : ℕ) → k ≤ m → 2 ^ k ≤ 2 ^ m
pow_grows zero m le = pow_pos m
pow_grows (suc k) zero le = absurd (omega arith)
pow_grows (suc k) (suc m) le =
    omega (arith, pow_grows k m (omega (arith, le)), pow-suc 2 k, pow-suc 2 m)

pub home_below : (t : Table) (k h : ℕ) → home t k h < 2 ^ k
home_below t zero h = omega (arith, home-zero t h)
home_below t (suc k) h = elim (Bool-cases (need_remake t (h % 2 ^ suc k))) [
  | inl bare ↦ omega (arith, home_older t k h bare, home_below t k h, pow-suc 2 k)
  | inr filled ↦ omega (arith, home_filled t k h filled, mod-lt h (pow_pos (suc k)))
]

-- A bucket that is not filled is looked for below its own power, in any larger table.
pub home_settles :
    (t : Table) (k d n j : ℕ)
    → n ≡ d + k
    → j < 2 ^ k
    → need_remake t j ≡ true
    → home t n j ≡ home t k j
home_settles t k zero n j e small bare = ap (λ i. home t i j) (omega (arith, e))
home_settles t k (suc d) zero j e small bare = absurd (omega (arith, e))
home_settles t k (suc d) (suc n) j e small bare =
    home_older t n j (
      ap (need_remake t)
        (mod_small j (2 ^ suc n) (omega (arith, small, pow_grows k (suc n) (omega (arith, e)))))
      ∙ bare)
    ∙ home_settles t k d n j (omega (arith, e)) small bare

pub masked : (idx m k : ℕ) → m + 1 ≡ 2 ^ k → bit_and idx m ≡ idx % 2 ^ k
masked idx m k e = ap (bit_and idx) (omega (arith, e)) ∙ bit_and_mask idx (IsPow2-pow k)

-- The search for the older bucket finds the home.
pub older_mask_lem :
    (fuel : ℕ) (t : Table) (idx k m : ℕ)
    → m + 1 ≡ 2 ^ k
    → m ≤ fuel
    → bit_and idx (older_mask fuel t idx m) ≡ home t k idx
unfolding older_mask home
older_mask_lem fuel t idx zero m e enough =
    let none_left : m ≡ 0 = omega (arith, e) in
    subst (λ n. bit_and idx (older_mask fuel t idx n) ≡ 0) (sym none_left) (ended fuel)
  where
    nothing : bit_and idx 0 ≡ 0
    nothing =
        let below : idx % 1 < 1 = mod-lt idx (omega arith) in
        masked idx 0 0 refl ∙ omega (arith, below)

    ended : (f : ℕ) → bit_and idx (older_mask f t idx 0) ≡ 0
    ended zero = nothing
    ended (suc f) = nothing
older_mask_lem zero t idx (suc k) m e enough =
    absurd (omega (arith, e, enough, pow_pos k, pow-suc 2 k))
older_mask_lem (suc fuel) t idx (suc k) m e enough =
    elim (Bool-cases (need_remake t (idx % 2 ^ suc k))) [
      | inl bare ↦
          ap (bit_and idx) (if_true _ _ (going (at_m ∙ bare)))
          ∙ older_mask_lem fuel t idx k (m / 2) (omega (arith, e, pow-suc 2 k))
              (omega (arith, e, enough, pow_pos k, pow-suc 2 k))
          ∙ sym (home_older t k idx bare)
      | inr filled ↦
          ap (bit_and idx) (if_false _ _ (stopping (at_m ∙ filled)))
          ∙ masked idx m (suc k) e
          ∙ sym (home_filled t k idx filled)
    ]
  where
    at_m : need_remake t (bit_and idx m) ≡ need_remake t (idx % 2 ^ suc k)
    at_m = ap (need_remake t) (masked idx m (suc k) e)

    going : {b : Bool} → b ≡ true → (not (m == 0) && b) ≡ true
    going {b} h = ap (λ c. not c && b) (ne→== m 0 (omega (arith, e, pow_pos k, pow-suc 2 k))) ∙ h

    stopping : {b : Bool} → b ≡ false → (not (m == 0) && b) ≡ false
    stopping {b} h = ap (λ c. not c && b) (ne→== m 0 (omega (arith, e, pow_pos k, pow-suc 2 k))) ∙ h
