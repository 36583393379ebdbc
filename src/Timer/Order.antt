-- ===== src/Timer/Order.antt =====
-- include/nanosig/nanosig_rbtree.h as src/ns_timer.c uses it: an ordered tree of addresses.
use nanosig.Base.{
  IsFresh, ℕ, ◌≡◌, ◌⊎◌, Bool, true, false, Option, some, none, List, [], ◌∷◌, if◌then◌else◌, ◌==◌,
}

abbrev pub AllAfter : (ℕ → ℕ → Bool) → ℕ → List ℕ → Type 0
AllAfter less x [] = Unit {0}
AllAfter less x (y ∷ ys) = (less x y ≡ true) × AllAfter less x ys

-- The order gives x one place among these: it does not come before the first ones, and it comes
-- before all others.
abbrev pub IsCut : (ℕ → ℕ → Bool) → ℕ → List ℕ → Type 0
IsCut less x [] = Unit {0}
IsCut less x (y ∷ ys) = (less x y ≡ false) × IsCut less x ys ⊎ AllAfter less x (y ∷ ys)

-- The place of a new element: behind all that it does not come before.
abbrev pub insert : (ℕ → ℕ → Bool) → ℕ → List ℕ → List ℕ
insert less x [] = x ∷ []
insert less x (y ∷ ys) = if less x y then x ∷ y ∷ ys else y ∷ insert less x ys

abbrev pub remove : ℕ → List ℕ → List ℕ
remove x [] = []
remove x (y ∷ ys) = if x == y then ys else y ∷ remove x ys

abbrev pub head : List ℕ → Option ℕ
head [] = none
head (x ∷ xs) = some x

abbrev pub is_head : ℕ → List ℕ → Bool
is_head x [] = false
is_head x (y ∷ ys) = x == y

abbrev pub is_some : Option ℕ → Bool
is_some none = false
is_some (some x) = true

-- The operations, and what the header says of them: `add` takes the order at the time of the call
-- and tells whether the new element is first; `del` tells whether the first was taken away and
-- another is first now.
pub record Tree (T : Type 0) : Type 0 where
  pub elements : T → List ℕ
  pub first : T → Option ℕ
  pub add : (ℕ → ℕ → Bool) → ℕ → T → T × Bool
  pub del : ℕ → T → T × Bool
  pub first_elements : (t : T) → first t ≡ head (elements t)
  pub add_elements :
      (less : ℕ → ℕ → Bool) (x : ℕ) (t : T)
      → IsFresh x (elements t)
      → IsCut less x (elements t)
      → elements (add less x t).0 ≡ insert less x (elements t)
  pub add_first :
      (less : ℕ → ℕ → Bool) (x : ℕ) (t : T)
      → IsFresh x (elements t)
      → IsCut less x (elements t)
      → (add less x t).1 ≡ is_head x (insert less x (elements t))
  pub del_elements : (x : ℕ) (t : T) → elements (del x t).0 ≡ remove x (elements t)
  pub del_first :
      (x : ℕ) (t : T)
      → (del x t).1
        ≡ (if is_head x (elements t) then is_some (head (remove x (elements t))) else false)
