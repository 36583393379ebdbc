-- ===== src/Timer/Queue.antt =====
-- src/ns_timer.c: timers in the order of their due times.
use nanosig.Base.{
  inl, inr, lt_or_ge, lt→ltb, IsFresh, ℕ, ◌+◌, ◌^◌, ◌≤◌, ◌<◌, ◌≡◌, ◌≢◌, refl, sym, ◌∙◌, List, [],
  ◌∷◌, if◌then◌else◌, ltb, leb, arith, ne→==, ltb-false, pos,
}
use nanosig.Timer.{Timer, int64_max, less, remaining_us, set_timer, ltb_ℤ}
use nanosig.Timer.Order.{AllAfter, IsCut}

-- A timer that stands in the tree: its interval is one that the calls accept, and it is not further
-- ahead than the longest interval.
pub record IsTimed (now : ℕ) (t : Timer) : Type 0 where
  pub some_interval : 0 < t.interval_us
  pub short_interval : t.interval_us ≤ int64_max
  pub near : t.expire_us ≤ now + int64_max

-- The timers behind a first one are others, and not due before it.
abbrev pub IsBehind : (ℕ → Timer) → ℕ → List ℕ → Type 0
IsBehind tm x [] = Unit {0}
IsBehind tm x (y ∷ ys) = (x ≢ y) × ((tm x).expire_us ≤ (tm y).expire_us) × IsBehind tm x ys

-- Timers in the order of their due times, at a time of the clock.
abbrev pub IsQueue : (ℕ → Timer) → ℕ → List ℕ → Type 0
IsQueue tm now [] = Unit {0}
IsQueue tm now (x ∷ xs) = IsTimed now (tm x) × IsBehind tm x xs × IsQueue tm now xs

-- The timers in front that are due.
abbrev pub due : (ℕ → Timer) → ℕ → List ℕ → List ℕ
due tm now [] = []
due tm now (x ∷ xs) = if leb (tm x).expire_us now then x ∷ due tm now xs else []

-- Within its range the signed difference orders the due times as they are.
pub less_exact :
    (tm : ℕ → Timer) (now a b : ℕ)
    → now < 2 ^ 63
    → IsTimed now (tm a)
    → IsTimed now (tm b)
    → less tm now a b ≡ ltb (tm a).expire_us (tm b).expire_us
unfolding less remaining_us
less_exact tm now a b h ta tb = ground (arith, ta.near, tb.near)

pub is_later_exact :
    (expire now : ℕ)
    → now < 2 ^ 63
    → expire ≤ now + int64_max
    → ltb_ℤ (pos 0) (remaining_us expire now) ≡ ltb now expire
unfolding remaining_us
is_later_exact expire now h k = ground arith

-- A timer that is due before one of the queue is due before those behind it.
IsQueue-AllAfter :
    (tm : ℕ → Timer) (now x y : ℕ) (ys : List ℕ)
    → now < 2 ^ 63
    → IsTimed now (tm x)
    → (tm x).expire_us < (tm y).expire_us
    → IsBehind tm y ys
    → IsQueue tm now ys
    → AllAfter (less tm now) x ys
IsQueue-AllAfter tm now x y [] h t lt b q = tt
IsQueue-AllAfter tm now x y (z ∷ zs) h t lt (_, le, b) (tz, _, q) = (
  less_exact tm now x z h t tz ∙ lt→ltb _ _ (omega arith),
  IsQueue-AllAfter tm now x y zs h t lt b q,
)

pub IsQueue-IsCut :
    (tm : ℕ → Timer) (now x : ℕ) (xs : List ℕ)
    → now < 2 ^ 63
    → IsTimed now (tm x)
    → IsQueue tm now xs
    → IsCut (less tm now) x xs
IsQueue-IsCut tm now x [] h t q = tt
IsQueue-IsCut tm now x (y ∷ ys) h t (ty, b, q) = elim (lt_or_ge (tm x).expire_us (tm y).expire_us) [
  | inl lt ↦
      inr (less_exact tm now x y h t ty ∙ lt→ltb _ _ lt, IsQueue-AllAfter tm now x y ys h t lt b q)
  | inr ge ↦ inl (less_exact tm now x y h t ty ∙ ltb-false _ _ ge, IsQueue-IsCut tm now x ys h t q)
]

pub IsBehind-IsFresh : (tm : ℕ → Timer) (x : ℕ) (xs : List ℕ) → IsBehind tm x xs → IsFresh x xs
IsBehind-IsFresh tm x [] b = tt
IsBehind-IsFresh tm x (y ∷ ys) (ne, _, b) = (ne, IsBehind-IsFresh tm x ys b)

-- A timer elsewhere may change.
pub set_other : (tm : ℕ → Timer) (x y : ℕ) (t : Timer) → x ≢ y → set_timer tm x t y ≡ tm y
set_other tm x y t ne = rw (ne→== y x (λ e. ne (sym e))) refl

IsBehind-set :
    (tm : ℕ → Timer) (x y : ℕ) (t : Timer) (ys : List ℕ)
    → x ≢ y
    → IsFresh x ys
    → IsBehind tm y ys
    → IsBehind (set_timer tm x t) y ys
IsBehind-set tm x y t [] ne f b = tt
IsBehind-set tm x y t (z ∷ zs) ne (n, f) (d, le, b) =
    (d, rw (set_other tm x y t ne, set_other tm x z t n) le, IsBehind-set tm x y t zs ne f b)

pub IsQueue-set :
    (tm : ℕ → Timer) (now x : ℕ) (t : Timer) (xs : List ℕ)
    → IsFresh x xs
    → IsQueue tm now xs
    → IsQueue (set_timer tm x t) now xs
IsQueue-set tm now x t [] f q = tt
IsQueue-set tm now x t (y ∷ ys) (ne, f) (ty, b, q) =
    (rw (set_other tm x y t ne) ty, IsBehind-set tm x y t ys ne f b, IsQueue-set tm now x t ys f q)

pub due-set :
    (tm : ℕ → Timer) (now x : ℕ) (t : Timer) (xs : List ℕ)
    → IsFresh x xs
    → due (set_timer tm x t) now xs ≡ due tm now xs
due-set tm now x t [] f = refl
due-set tm now x t (y ∷ ys) (ne, f) = rw (set_other tm x y t ne, due-set tm now x t ys f) refl

-- As time goes by, what is near stays near.
pub IsQueue-later :
    (tm : ℕ → Timer) (now now' : ℕ) (xs : List ℕ)
    → now ≤ now'
    → IsQueue tm now xs
    → IsQueue tm now' xs
IsQueue-later tm now now' [] h q = tt
IsQueue-later tm now now' (x ∷ xs) h (t, b, q) = (
  record {
    some_interval = t.some_interval;
    short_interval = t.short_interval;
    near = omega (arith, t.near);
  },
  b,
  IsQueue-later tm now now' xs h q,
)
