-- ===== src/Base/Update.antt =====
-- Functions of an address, changed at one address, and lists of different addresses.
use Prim.Native.Nat.{ℕ}
use mathlib.Core.Path.{◌≡◌, refl}
use mathlib.Core.Logic.{◌≢◌, ◌⊎◌}
use mathlib.Core.List.{List, [], ◌∷◌, ◌++◌}
use nanosig.Base.Tests.{◌==◌, if◌then◌else◌, ==_refl, ne→==}

abbrev pub update {ℓ} : {A : Type ℓ} → (ℕ → A) → ℕ → A → ℕ → A
update f a v x = if x == a then v else f x

pub update_same {ℓ} : {A : Type ℓ} (f : ℕ → A) (a : ℕ) (v : A) → update f a v a ≡ v
update_same f a v = rw (==_refl a) refl

pub update_other {ℓ} :
    {A : Type ℓ} (f : ℕ → A) (a : ℕ) (v : A) (x : ℕ) → x ≢ a → update f a v x ≡ f x
update_other f a v x h = rw (ne→== x a h) refl

abbrev pub IsFresh : ℕ → List ℕ → Type 0
IsFresh x [] = Unit {0}
IsFresh x (y ∷ ys) = (x ≢ y) × IsFresh x ys

-- An element of a list.
abbrev pub Among : ℕ → List ℕ → Type 0
Among x [] = ⊥
Among x (y ∷ ys) = (x ≡ y) ⊎ Among x ys

abbrev pub IsDistinct : List ℕ → Type 0
IsDistinct [] = Unit {0}
IsDistinct (x ∷ xs) = IsFresh x xs × IsDistinct xs

pub IsFresh-append : (x : ℕ) (xs ys : List ℕ) → IsFresh x xs → IsFresh x ys → IsFresh x (xs ++ ys)
IsFresh-append x [] ys h k = k
IsFresh-append x (z ∷ xs) ys (n, h) k = (n, IsFresh-append x xs ys h k)

pub IsFresh-split : (x : ℕ) (xs ys : List ℕ) → IsFresh x (xs ++ ys) → IsFresh x xs × IsFresh x ys
IsFresh-split x [] ys h = (tt, h)
IsFresh-split x (z ∷ xs) ys (n, h) = let (a, b) = IsFresh-split x xs ys h in ((n, a), b)
