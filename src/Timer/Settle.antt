-- ===== src/Timer/Settle.antt =====
-- src/ns_timer.c: what a round of `ns_timer_mgr_fire_expired` makes of each timer.
use nanosig.Base.{
  leb, Among, IsFresh, ℕ, ◌≡◌, ◌≢◌, refl, sym, ◌∙◌, ap, subst, inl, inr, Bool, true, false, not,
  List, [], ◌∷◌, if◌then◌else◌, ◌==◌, Bool-cases, ==_refl, ne→==,
}
use Prim.Native.Nat.{bit_and}
use nanosig.Timer.{Timer, Manager, link, unlink, reload_time, fire_one}
use nanosig.Timer.Queue.{due}
use nanosig.Timer.Order.{Tree, insert}

-- A timer with NS_TIMER_ATTR_REPEAT.
abbrev pub repeats : Timer → Bool
repeats t = not (bit_and t.attr 1 == 0)

-- A timer that was due: it waits for its next due time, or stands still.
abbrev pub settled : ℕ → Timer → Timer
settled now t =
    if repeats t
    then record t { expire_us = reload_time t now; linked = true }
    else record t { linked = false }

-- What became of the timers that were fired, and of the others.
pub record Settles {T : Type 0} (ops : Tree T) (m m' : Manager T) (fired : List ℕ) : Type 0 where
  pub settles : (y : ℕ) → Among y fired → m'.timers y ≡ settled m.now (m.timers y)
  pub again : (y : ℕ) → Among y fired → repeats (m.timers y) ≡ true → Among y (ops.elements m'.tree)
  pub others : (y : ℕ) → IsFresh y fired → m'.timers y ≡ m.timers y
  pub still :
      (y : ℕ) → IsFresh y fired → Among y (ops.elements m.tree) → Among y (ops.elements m'.tree)

insert-here : (lt : ℕ → ℕ → Bool) (x : ℕ) (xs : List ℕ) → Among x (insert lt x xs)
insert-here lt x [] = inl refl
insert-here lt x (y ∷ ys) = elim (Bool-cases (lt x y)) [
  | inl e ↦ rw e (inl refl)
  | inr e ↦ rw e (inr (insert-here lt x ys))
]

insert-still : (lt : ℕ → ℕ → Bool) (x y : ℕ) (xs : List ℕ) → Among y xs → Among y (insert lt x xs)
insert-still lt x y [] a = absurd a
insert-still lt x y (z ∷ zs) a = elim (Bool-cases (lt x z)) [
  | inl e ↦ rw e (inr a)
  | inr e ↦ rw e (elim a [ inl is ↦ inl is | inr rest ↦ inr (insert-still lt x y zs rest) ])
]

pub Among-IsFresh : (x y : ℕ) (xs : List ℕ) → Among x xs → IsFresh y xs → y ≢ x
Among-IsFresh x y [] a f = absurd a
Among-IsFresh x y (z ∷ zs) (inl e) (ne, f) = λ is. ne (is ∙ e)
Among-IsFresh x y (z ∷ zs) (inr a) (ne, f) = Among-IsFresh x y zs a f

pub IsFresh-due :
    (tm : ℕ → Timer) (now x : ℕ) (xs : List ℕ) → IsFresh x xs → IsFresh x (due tm now xs)
IsFresh-due tm now x [] f = tt
IsFresh-due tm now x (y ∷ ys) (ne, f) = elim (Bool-cases (leb (tm y).expire_us now)) [
  | inl e ↦ rw e (ne, IsFresh-due tm now x ys f)
  | inr e ↦ rw e tt
]

-- Nothing was fired.
pub Settles-none : {T : Type 0} (ops : Tree T) (m : Manager T) → Settles ops m m []
Settles-none ops m = record {
  settles = λ y a. absurd a;
  again = λ y a. absurd a;
  others = λ y f. refl;
  still = λ y f a. a;
}

module _ {T : Type 0} (ops : Tree T) (m : Manager T) (x : ℕ) where
  fire_one-this : (fire_one ops m x).timers x ≡ settled m.now (m.timers x)
  unfolding fire_one unlink link
  fire_one-this = elim (Bool-cases (repeats (m.timers x))) [
    | inl e ↦ rw (e, ==_refl x) refl
    | inr e ↦ rw (e, ==_refl x) refl
  ]

  fire_one-other : (y : ℕ) → x ≢ y → (fire_one ops m x).timers y ≡ m.timers y
  unfolding fire_one unlink link
  fire_one-other y ne = elim (Bool-cases (repeats (m.timers x))) [
    | inl e ↦ rw (e, ne→== y x (λ k. ne (sym k))) refl
    | inr e ↦ rw (e, ne→== y x (λ k. ne (sym k))) refl
  ]

-- A round with the first timer, which is due, and then the others.
pub Settles-cons :
    {T : Type 0} (ops : Tree T) (m m' : Manager T) (x : ℕ) (xs ds : List ℕ)
    → ops.elements m.tree ≡ x ∷ xs
    → IsFresh x ds
    → (lt : ℕ → ℕ → Bool)
    → ops.elements (fire_one ops m x).tree ≡ (if repeats (m.timers x) then insert lt x xs else xs)
    → (fire_one ops m x).now ≡ m.now
    → Settles ops (fire_one ops m x) m' ds
    → Settles ops m m' (x ∷ ds)
Settles-cons ops m m' x xs ds e f lt made now s = record {
  settles = λ y a. elim a [
    | inl is ↦
        ap m'.timers is
        ∙ s.others x f
        ∙ fire_one-this ops m x
        ∙ ap (λ z. settled m.now (m.timers z)) (sym is)
    | inr rest ↦
        s.settles y rest
        ∙ ap (λ n. settled n ((fire_one ops m x).timers y)) now
        ∙ ap (settled m.now) (fire_one-other ops m x y (Among-IsFresh y x ds rest f))
  ];
  again = λ y a r. elim a [
    | inl is ↦
        let rx : repeats (m.timers x) ≡ true = ap (λ z. repeats (m.timers z)) (sym is) ∙ r in
        subst (λ z. Among z (ops.elements m'.tree)) (sym is)
          (s.still x f (
            subst (Among x) (sym (made ∙ ap (λ b. if b then insert lt x xs else xs) rx))
              (insert-here lt x xs)))
    | inr rest ↦
        s.again y rest (ap repeats (fire_one-other ops m x y (Among-IsFresh y x ds rest f)) ∙ r)
  ];
  others = λ y g. s.others y g.1 ∙ fire_one-other ops m x y (λ k. g.0 (sym k));
  still = λ y g a. s.still y g.1 (
      subst (Among y) (sym made) (
        kept (repeats (m.timers x)) y
          (elim (subst (Among y) e a) [ inl is ↦ absurd (g.0 is) | inr rest ↦ rest ])));
}
  where
    kept : (b : Bool) (y : ℕ) → Among y xs → Among y (if b then insert lt x xs else xs)
    kept true y a = insert-still lt x y xs a
    kept false y a = a
