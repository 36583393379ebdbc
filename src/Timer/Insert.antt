-- ===== src/Timer/Insert.antt =====
-- src/ns_timer.c: timers in order, where one comes in or goes out.
use nanosig.Base.{
  IsFresh, ℕ, ◌^◌, ◌≤◌, ◌<◌, ◌≡◌, ◌≢◌, refl, sym, ◌∙◌, inl, inr, Bool, List, [], ◌∷◌, ◌==◌, arith,
  Bool-cases, ==→eq, ==→ne, ltb→lt, subst,
}
use nanosig.Timer.{Timer, less}
use nanosig.Timer.Order.{insert, remove}
use nanosig.Timer.Queue.{IsTimed, IsBehind, IsQueue, due, less_exact, IsBehind-IsFresh}

pub IsFresh-insert :
    (before : ℕ → ℕ → Bool) (y x : ℕ) (xs : List ℕ)
    → y ≢ x
    → IsFresh y xs
    → IsFresh y (insert before x xs)
IsFresh-insert before y x [] ne f = (ne, tt)
IsFresh-insert before y x (z ∷ zs) ne (n, f) = elim (Bool-cases (before x z)) [
  | inl e ↦ rw e (ne, (n, f))
  | inr e ↦ rw e (n, IsFresh-insert before y x zs ne f)
]

IsBehind-insert :
    (tm : ℕ → Timer) (before : ℕ → ℕ → Bool) (y x : ℕ) (xs : List ℕ)
    → y ≢ x
    → (tm y).expire_us ≤ (tm x).expire_us
    → IsBehind tm y xs
    → IsBehind tm y (insert before x xs)
IsBehind-insert tm before y x [] ne le b = (ne, le, tt)
IsBehind-insert tm before y x (z ∷ zs) ne le (n, l, b) = elim (Bool-cases (before x z)) [
  | inl e ↦ rw e (ne, le, (n, l, b))
  | inr e ↦ rw e (n, l, IsBehind-insert tm before y x zs ne le b)
]

IsBehind-earlier :
    (tm : ℕ → Timer) (x y : ℕ) (ys : List ℕ)
    → (tm x).expire_us ≤ (tm y).expire_us
    → IsFresh x ys
    → IsBehind tm y ys
    → IsBehind tm x ys
IsBehind-earlier tm x y [] le f b = tt
IsBehind-earlier tm x y (z ∷ zs) le (n, f) (_, l, b) =
    (n, omega arith, IsBehind-earlier tm x y zs le f b)

pub IsQueue-insert :
    (tm : ℕ → Timer) (now x : ℕ) (xs : List ℕ)
    → now < 2 ^ 63
    → IsTimed now (tm x)
    → IsFresh x xs
    → IsQueue tm now xs
    → IsQueue tm now (insert (less tm now) x xs)
IsQueue-insert tm now x [] h t f q = (t, tt, tt)
IsQueue-insert tm now x (y ∷ ys) h t (n, f) (ty, b, q) = elim (Bool-cases (less tm now x y)) [
  | inl e ↦
      let lt : (tm x).expire_us < (tm y).expire_us =
        ltb→lt _ _ (sym (less_exact tm now x y h t ty) ∙ e) in
      rw e (t, (n, omega arith, IsBehind-earlier tm x y ys (omega arith) f b), (ty, b, q))
  | inr e ↦
      let le : (tm y).expire_us ≤ (tm x).expire_us =
        ground (arith, sym (less_exact tm now x y h t ty) ∙ e) in
      rw e (
        ty,
        IsBehind-insert tm (less tm now) y x ys (λ k. n (sym k)) le b,
        IsQueue-insert tm now x ys h t f q,
      )
]

-- A timer that is not due changes nothing about those that are.
pub due-insert :
    (tm : ℕ → Timer) (now x : ℕ) (xs : List ℕ)
    → now < 2 ^ 63
    → IsTimed now (tm x)
    → now < (tm x).expire_us
    → IsQueue tm now xs
    → due tm now (insert (less tm now) x xs) ≡ due tm now xs
due-insert tm now x [] h t later q = ground arith
due-insert tm now x (y ∷ ys) h t later (ty, b, q) = elim (Bool-cases (less tm now x y)) [
  | inl e ↦
      let lt : (tm x).expire_us < (tm y).expire_us =
        ltb→lt _ _ (sym (less_exact tm now x y h t ty) ∙ e) in
      rw e (ground arith)
  | inr e ↦ rw (e, due-insert tm now x ys h t later q) refl
]

pub IsFresh-remove : (y x : ℕ) (xs : List ℕ) → IsFresh y xs → IsFresh y (remove x xs)
IsFresh-remove y x [] f = tt
IsFresh-remove y x (z ∷ zs) (n, f) = elim (Bool-cases (x == z)) [
  | inl e ↦ rw e f
  | inr e ↦ rw e (n, IsFresh-remove y x zs f)
]

pub IsFresh-removed :
    (tm : ℕ → Timer) (now x : ℕ) (xs : List ℕ) → IsQueue tm now xs → IsFresh x (remove x xs)
IsFresh-removed tm now x [] q = tt
IsFresh-removed tm now x (z ∷ zs) (t, b, q) = elim (Bool-cases (x == z)) [
  | inl e ↦ rw e (subst (λ k. IsFresh k zs) (sym (==→eq _ _ e)) (IsBehind-IsFresh tm z zs b))
  | inr e ↦ rw e (==→ne _ _ e, IsFresh-removed tm now x zs q)
]

IsBehind-remove :
    (tm : ℕ → Timer) (y x : ℕ) (xs : List ℕ) → IsBehind tm y xs → IsBehind tm y (remove x xs)
IsBehind-remove tm y x [] b = tt
IsBehind-remove tm y x (z ∷ zs) (n, l, b) = elim (Bool-cases (x == z)) [
  | inl e ↦ rw e b
  | inr e ↦ rw e (n, l, IsBehind-remove tm y x zs b)
]

pub IsQueue-remove :
    (tm : ℕ → Timer) (now x : ℕ) (xs : List ℕ) → IsQueue tm now xs → IsQueue tm now (remove x xs)
IsQueue-remove tm now x [] q = tt
IsQueue-remove tm now x (z ∷ zs) (t, b, q) = elim (Bool-cases (x == z)) [
  | inl e ↦ rw e q
  | inr e ↦ rw e (t, IsBehind-remove tm z x zs b, IsQueue-remove tm now x zs q)
]
