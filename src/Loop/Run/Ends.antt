-- ===== src/Loop/Run/Ends.antt =====
-- src/nanosig.c: how a run of an event loop ends.
use nanosig.Base.{
  if_true, if_false, Option-cases, ◌∙◌, ap, not, if◌then◌else◌, ℕ, Bool, true, false, ◌≡◌, refl,
  sym, subst, inl, inr, ◌⊎◌, Option, some, none, Bool-cases, List, [], ◌∷◌, Status, is_ok,
}
use nanosig.Loop.{Loop, Call, dispatch_pending}
use nanosig.Loop.Run.{Wait, Ran, run_rounds, run_impl, ran_behind, quitted, broken}

-- The ways that a round can go.
module _ (fuel : ℕ) (react : Call → Loop → Loop) (l : Loop) where
  round_endless :
      (waits : List Wait)
      → dispatch_pending fuel react l ≡ none
      → run_rounds fuel react waits l ≡ none
  unfolding run_rounds
  round_endless [] e = rw (e, run_rounds) refl
  round_endless (w ∷ ws) e = rw (e, run_rounds) refl

  module _ (k : Loop) (cs : List Call) (e : dispatch_pending fuel react l ≡ some (k, cs)) where
    pub round_quits :
        (waits : List Wait) → k.quit_requested ≡ true → run_rounds fuel react waits l ≡ quitted k cs
    unfolding run_rounds
    round_quits [] quits = rw (e, run_rounds) (if_true _ _ quits)
    round_quits (w ∷ ws) quits = rw (e, run_rounds) (if_true _ _ quits)

    round_waits : k.quit_requested ≡ false → run_rounds fuel react [] l ≡ none
    unfolding run_rounds
    round_waits stays = rw (e, run_rounds) (if_false _ _ stays)

    round_breaks :
        (w : Wait) (ws : List Wait)
        → k.quit_requested ≡ false
        → is_ok w.status ≡ false
        → run_rounds fuel react (w ∷ ws) l ≡ broken w.status (w.meanwhile k) cs
    unfolding run_rounds
    round_breaks w ws stays bad = rw (e, run_rounds) (if_false _ _ stays ∙ if_true _ _ (ap not bad))

    pub round_goes :
        (w : Wait) (ws : List Wait)
        → k.quit_requested ≡ false
        → is_ok w.status ≡ true
        → run_rounds fuel react (w ∷ ws) l
          ≡ ran_behind cs (run_rounds fuel react ws (w.meanwhile k))
    unfolding run_rounds
    round_goes w ws stays good =
        rw (e, run_rounds) (if_false _ _ stays ∙ if_false _ _ (ap not good))

-- A run that is over has left the loop as not running.
abbrev IsOver : Option Ran → Type 0
IsOver none = Unit {0}
IsOver (some (s, none, cs)) = ⊥
IsOver (some (s, some l, cs)) = l.running ≡ false

ran_behind-IsOver : (cs : List Call) (o : Option Ran) → IsOver o → IsOver (ran_behind cs o)
ran_behind-IsOver cs none h = tt
ran_behind-IsOver cs (some (s, none, ds)) h = absurd h
ran_behind-IsOver cs (some (s, some l, ds)) h = h

run_rounds-IsOver :
    (fuel : ℕ) (react : Call → Loop → Loop) (waits : List Wait) (l : Loop)
    → IsOver (run_rounds fuel react waits l)
run_rounds-IsOver fuel react [] l = elim (Option-cases (dispatch_pending fuel react l)) [
  | inl e ↦ subst IsOver (sym (round_endless fuel react l [] e)) tt
  | inr (out, e) ↦ elim (Bool-cases out.0.quit_requested) [
    | inl quits ↦ subst IsOver (sym (round_quits fuel react l out.0 out.1 e [] quits)) refl
    | inr stays ↦ subst IsOver (sym (round_waits fuel react l out.0 out.1 e stays)) tt
  ]
]
run_rounds-IsOver fuel react (w ∷ ws) l = elim (Option-cases (dispatch_pending fuel react l)) [
  | inl e ↦ subst IsOver (sym (round_endless fuel react l (w ∷ ws) e)) tt
  | inr (out, e) ↦ elim (Bool-cases out.0.quit_requested) [
    | inl quits ↦ subst IsOver (sym (round_quits fuel react l out.0 out.1 e (w ∷ ws) quits)) refl
    | inr stays ↦ waited out.0 out.1 e stays (run_rounds-IsOver fuel react ws (w.meanwhile out.0))
  ]
]
  where
    waited :
        (k : Loop) (cs : List Call)
        → dispatch_pending fuel react l ≡ some (k, cs)
        → k.quit_requested ≡ false
        → IsOver (run_rounds fuel react ws (w.meanwhile k))
        → IsOver (run_rounds fuel react (w ∷ ws) l)
    waited k cs e stays on = elim (Bool-cases (is_ok w.status)) [
      | inl good ↦
          subst IsOver (sym (round_goes fuel react l k cs e w ws stays good))
            (ran_behind-IsOver cs _ on)
      | inr bad ↦ subst IsOver (sym (round_breaks fuel react l k cs e w ws stays bad)) refl
    ]

-- A run has refused and done nothing, since the library is not initialised or the loop runs
-- already, or it is over with the loop marked as not running.
abbrev pub EndsWell : Bool → Loop → Option Ran → Type 0
EndsWell initialized l none = Unit {0}
EndsWell initialized l (some (s, none, cs)) = ⊥
EndsWell initialized l (some (s, some k, cs)) =
    (k ≡ l)
      × (cs ≡ [])
      × ((initialized ≡ false) × (s ≡ Status.shutdown) ⊎ (l.running ≡ true) × (s ≡ Status.exists))
    ⊎ (k.running ≡ false)

IsOver-EndsWell :
    (initialized : Bool) (l : Loop) (o : Option Ran) → IsOver o → EndsWell initialized l o
IsOver-EndsWell initialized l none h = tt
IsOver-EndsWell initialized l (some (s, none, cs)) h = absurd h
IsOver-EndsWell initialized l (some (s, some k, cs)) h = inr h

-- `ns_loop_run_impl`, whatever the waits return, the slots do to the loop and the other threads do
-- meanwhile: where it returns, either it refused, since the library is not initialised or the loop
-- runs already, and did nothing, or the loop is marked as not running.
pub run_impl_ends :
    (fuel : ℕ) (react : Call → Loop → Loop) (waits : List Wait) (initialized : Bool) (l : Loop)
    → EndsWell initialized l (run_impl fuel react waits initialized (some l))
unfolding run_impl
run_impl_ends fuel react waits false l = inl (refl, refl, inl (refl, refl))
run_impl_ends fuel react waits true l = tested l.running refl
  where
    tested :
        (b : Bool)
        → l.running ≡ b
        → EndsWell true l (
            if b
            then some (Status.exists, some l, [])
            else run_rounds fuel react waits (record l { running = true }))
    tested true runs = inl (refl, refl, inr (runs, refl))
    tested false idle =
        IsOver-EndsWell true l _ (run_rounds-IsOver fuel react waits (record l { running = true }))
