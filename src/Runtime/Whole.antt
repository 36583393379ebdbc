-- ===== src/Runtime/Whole.antt =====
-- src/nanosig.c: `ns_init` starts all of the library's parts or none, and `ns_shutdown` ends all.
use nanosig.Base.{
  if_either, not-true, not-false, Bool, true, false, not, ◌≡◌, refl, sym, ◌∙◌, ap, subst, inl, inr,
  ◌⊎◌, Bool-cases, if_true, if_false, Status, is_ok,
}
use nanosig.Runtime.{Parts, Runtime, runtime_is_initialized, init_runtime, shutdown_runtime}

-- Which parts are up.
pub record Up : Type 0 where
  pub platform : Bool
  pub debug : Bool
  pub broker : Bool

abbrev pub up : Bool → Bool → Bool → Up
up a b c = record { platform = a; debug = b; broker = c }

-- A part's start works where the parts below it are up, and brings it up just where it succeeds;
-- its end takes it down where the parts above it are down.
pub record IsParts {S : Type 0} (p : Parts S) (is_up : S → Up) : Type 0 where
  pub platform_starts :
      (s : S)
      → is_up s ≡ up false false false
      → is_up (p.platform_init s).1 ≡ up (is_ok (p.platform_init s).0) false false
  pub debug_starts :
      (s : S)
      → is_up s ≡ up true false false
      → is_up (p.debug_init s).1 ≡ up true (is_ok (p.debug_init s).0) false
  pub broker_starts :
      (s : S)
      → is_up s ≡ up true true false
      → is_up (p.broker_init s).1 ≡ up true true (is_ok (p.broker_init s).0)
  pub broker_ends :
      (s : S) → is_up s ≡ up true true true → is_up (p.broker_shutdown s) ≡ up true true false
  pub debug_ends :
      (s : S) → is_up s ≡ up true true false → is_up (p.debug_shutdown s) ≡ up true false false
  pub platform_ends :
      (s : S)
      → is_up s ≡ up true false false
      → is_up (p.platform_shutdown s).1 ≡ up false false false

-- The parts are all up where the library is initialised, and all down otherwise.
abbrev pub IsWhole : {S : Type 0} → (S → Up) → Runtime S → Type 0
IsWhole is_up r = is_up r.parts ≡ up r.initialized r.initialized r.initialized

pub data Op : Type 0 where
  init_op shutdown_op : Op

abbrev pub answer : {S : Type 0} → Parts S → Op → Runtime S → Status × Runtime S
answer p init_op r = init_runtime p r
answer p shutdown_op r = shutdown_runtime p r

-- What a call says, and the mark after it.
abbrev pub Says : {S : Type 0} → Op → Runtime S → Status × Runtime S → Type 0
Says init_op r (s, k) =
    (r.initialized ≡ true) × (s ≡ Status.exists) × (k ≡ r)
    ⊎ (r.initialized ≡ false) × (k.initialized ≡ is_ok s)
Says shutdown_op r (s, k) =
    (k.initialized ≡ false)
    × ((r.initialized ≡ false) × (s ≡ Status.ns_ok) × (k ≡ r) ⊎ (r.initialized ≡ true))

module _ {S : Type 0} {p : Parts S} {is_up : S → Up} (v : IsParts p is_up) where
  -- Started as a whole or not at all.
  abbrev Started : Status × Runtime S → Type 0
  Started (s, r) = IsWhole is_up r × (r.initialized ≡ is_ok s)

  starting : (r : Runtime S) → r.initialized ≡ false → IsWhole is_up r → Started (init_runtime p r)
  unfolding init_runtime runtime_is_initialized
  starting r fresh whole = subst Started (sym (if_false _ _ fresh)) (
      if_either Started _ _ _
        (λ bad.
          let e = not-true _ bad in
          (p1 ∙ ap (λ b. up b false false) e ∙ ap (λ b. up b b b) (sym fresh), fresh ∙ sym e))
        (λ good1.
          let h1 = p1 ∙ ap (λ b. up b false false) (not-false _ good1) in
          if_either Started _ _ _
            (λ bad.
              let e = not-true _ bad in
              let h2 = v.debug_starts _ h1 ∙ ap (λ b. up true b false) e in
              (v.platform_ends _ h2 ∙ ap (λ b. up b b b) (sym fresh), fresh ∙ sym e))
            (λ good2.
              let h2 = v.debug_starts _ h1 ∙ ap (λ b. up true b false) (not-false _ good2) in
              if_either Started _ _ _
                (λ bad.
                  let e = not-true _ bad in
                  let h3 = v.broker_starts _ h2 ∙ ap (λ b. up true true b) e in
                  (
                    v.platform_ends _ (v.debug_ends _ h3) ∙ ap (λ b. up b b b) (sym fresh),
                    fresh ∙ sym e,
                  ))
                (λ good3.
                  (v.broker_starts _ h2 ∙ ap (λ b. up true true b) (not-false _ good3), refl)))))
    where
      p1 : is_up (p.platform_init r.parts).1 ≡ up (is_ok (p.platform_init r.parts).0) false false
      p1 = v.platform_starts r.parts (whole ∙ ap (λ b. up b b b) fresh)

  -- `ns_init` and `ns_shutdown`, of a library whose parts are all up or all down as its mark says.
  -- Each leaves it so again. `ns_init` of a library that is initialised says NS_E_EXISTS and does
  -- nothing, otherwise the library is initialised just where it succeeds. After `ns_shutdown` it is
  -- not initialised, and one that was not is left alone with NS_OK.
  pub answer-IsWhole :
      (o : Op) (r : Runtime S)
      → IsWhole is_up r
      → IsWhole is_up (answer p o r).1 × Says o r (answer p o r)
  unfolding init_runtime shutdown_runtime runtime_is_initialized
  answer-IsWhole init_op r whole = elim (Bool-cases r.initialized) [
    | inl on ↦
        subst (λ k. IsWhole is_up k.1 × Says init_op r k) (sym (if_true _ _ on))
          (whole, inl (on, refl, refl))
    | inr off ↦ let (w, m) = starting r off whole in (w, inr (off, m))
  ]
  answer-IsWhole shutdown_op r whole = elim (Bool-cases r.initialized) [
    | inl on ↦
        subst (λ k. IsWhole is_up k.1 × Says shutdown_op r k) (sym (if_false _ _ (ap not on)))
          (
            v.platform_ends _ (v.debug_ends _ (v.broker_ends _ (whole ∙ ap (λ b. up b b b) on))),
            (refl, inr on),
          )
    | inr off ↦
        subst (λ k. IsWhole is_up k.1 × Says shutdown_op r k) (sym (if_true _ _ (ap not off)))
          (whole, (off, inl (off, refl, refl)))
  ]
