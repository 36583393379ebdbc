-- ===== src/Base/Lists.antt =====
-- Lists measured and indexed by native numbers, under the library's names.
use Prim.Native.Nat.{ℕ, zero, suc, ◌+◌, ◌-◌, ◌≤◌, ◌<◌, min}
use mathlib.Core.Path.{◌≡◌, refl, ap, ap₂, ◌∙◌}
use mathlib.Core.Logic.{◌≢◌}
use mathlib.Core.List.{List, [], ◌∷◌, ◌++◌}
use native.Mathlib.Omega.{arith}

module _ {ℓ} {A : Type ℓ} where
  abbrev pub length : List A → ℕ
  length [] = 0
  length (x ∷ xs) = suc (length xs)

  abbrev pub get_or : List A → ℕ → A → A
  get_or [] i d = d
  get_or (x ∷ xs) zero d = x
  get_or (x ∷ xs) (suc i) d = get_or xs i d

  -- A write out of bounds changes nothing.
  abbrev pub set : List A → ℕ → A → List A
  set [] i v = []
  set (x ∷ xs) zero v = v ∷ xs
  set (x ∷ xs) (suc i) v = x ∷ set xs i v

  abbrev pub take : ℕ → List A → List A
  take zero xs = []
  take (suc n) [] = []
  take (suc n) (x ∷ xs) = x ∷ take n xs

  abbrev pub drop : ℕ → List A → List A
  drop zero xs = xs
  drop (suc n) [] = []
  drop (suc n) (x ∷ xs) = drop n xs

  -- The list of the first n values of a function.
  abbrev pub tabulate : ℕ → (ℕ → A) → List A
  tabulate zero f = []
  tabulate (suc n) f = f 0 ∷ tabulate n (λ i. f (suc i))

module _ {ℓ} {A : Type ℓ} where
  pub length-append : (xs ys : List A) → length (xs ++ ys) ≡ length xs + length ys
  length-append [] ys = omega arith
  length-append (x ∷ xs) ys = omega (arith, length-append xs ys)

  pub length-set : (xs : List A) (i : ℕ) (v : A) → length (set xs i v) ≡ length xs
  length-set [] i v = refl
  length-set (x ∷ xs) zero v = refl
  length-set (x ∷ xs) (suc i) v = ap suc (length-set xs i v)

  pub get_or-set_self :
      (xs : List A) (i : ℕ) (v d : A) → i < length xs → get_or (set xs i v) i d ≡ v
  get_or-set_self [] i v d h = absurd (omega arith)
  get_or-set_self (x ∷ xs) zero v d h = refl
  get_or-set_self (x ∷ xs) (suc i) v d h = get_or-set_self xs i v d (omega arith)

  pub get_or-set_ne :
      (xs : List A) (i j : ℕ) (v d : A) → i ≢ j → get_or (set xs i v) j d ≡ get_or xs j d
  get_or-set_ne [] i j v d h = refl
  get_or-set_ne (x ∷ xs) zero zero v d h = absurd (h refl)
  get_or-set_ne (x ∷ xs) zero (suc j) v d h = refl
  get_or-set_ne (x ∷ xs) (suc i) zero v d h = refl
  get_or-set_ne (x ∷ xs) (suc i) (suc j) v d h = get_or-set_ne xs i j v d (λ e. h (ap suc e))

  pub length-take : (n : ℕ) (xs : List A) → length (take n xs) ≡ min n (length xs)
  length-take zero xs = omega arith
  length-take (suc n) [] = omega arith
  length-take (suc n) (x ∷ xs) = omega (arith, length-take n xs)

  pub length-drop : (n : ℕ) (xs : List A) → length (drop n xs) ≡ length xs - n
  length-drop zero xs = omega arith
  length-drop (suc n) [] = omega arith
  length-drop (suc n) (x ∷ xs) = omega (arith, length-drop n xs)

  pub length-tabulate : (n : ℕ) (f : ℕ → A) → length (tabulate n f) ≡ n
  length-tabulate zero f = refl
  length-tabulate (suc n) f = ap suc (length-tabulate n (λ i. f (suc i)))

  pub tabulate_ext :
      (n m : ℕ) (f g : ℕ → A) → n ≡ m → ((i : ℕ) → i < n → f i ≡ g i) → tabulate n f ≡ tabulate m g
  tabulate_ext zero zero f g e h = refl
  tabulate_ext zero (suc m) f g e h = absurd (omega arith)
  tabulate_ext (suc n) zero f g e h = absurd (omega arith)
  tabulate_ext (suc n) (suc m) f g e h = ap₂ ◌∷◌ (h 0 (omega arith)) (
      tabulate_ext n m (λ i. f (suc i)) (λ i. g (suc i)) (omega arith)
        (λ i p. h (suc i) (omega arith)))

  pub tabulate-append :
      (k m n : ℕ) (f g h : ℕ → A)
      → k ≡ m + n
      → ((i : ℕ) → i < m → f i ≡ g i)
      → ((i : ℕ) → i < n → f (m + i) ≡ h i)
      → tabulate k f ≡ tabulate m g ++ tabulate n h
  tabulate-append k zero n f g h e p q =
      tabulate_ext k n f h (omega arith) (λ i l. ap f (omega arith) ∙ q i (omega arith))
  tabulate-append zero (suc m) n f g h e p q = absurd (omega arith)
  tabulate-append (suc k) (suc m) n f g h e p q = ap₂ ◌∷◌ (p 0 (omega arith)) (
      tabulate-append k m n (λ i. f (suc i)) (λ i. g (suc i)) h (omega arith)
        (λ i l. p (suc i) (omega arith)) (λ i l. ap f (omega arith) ∙ q i l))

  pub take-tabulate : (m n : ℕ) (f : ℕ → A) → m ≤ n → take m (tabulate n f) ≡ tabulate m f
  take-tabulate zero n f h = refl
  take-tabulate (suc m) zero f h = absurd (omega arith)
  take-tabulate (suc m) (suc n) f h =
      ap (◌∷◌ (f 0)) (take-tabulate m n (λ i. f (suc i)) (omega arith))

  pub drop-tabulate :
      (m n : ℕ) (f : ℕ → A) → drop m (tabulate n f) ≡ tabulate (n - m) (λ i. f (m + i))
  drop-tabulate zero n f = tabulate_ext n _ f _ (omega arith) (λ i p. ap f (omega arith))
  drop-tabulate (suc m) zero f = tabulate_ext 0 _ f _ (omega arith) (λ i p. absurd (omega arith))
  drop-tabulate (suc m) (suc n) f =
      drop-tabulate m n (λ i. f (suc i))
      ∙ tabulate_ext _ _ _ _ (omega arith) (λ i p. ap f (omega arith))

  pub take-eq-tabulate :
      (n : ℕ) (xs : List A) (d : A) → n ≤ length xs → take n xs ≡ tabulate n (λ i. get_or xs i d)
  take-eq-tabulate zero xs d h = refl
  take-eq-tabulate (suc n) [] d h = absurd (omega arith)
  take-eq-tabulate (suc n) (x ∷ xs) d h = ap (◌∷◌ x) (take-eq-tabulate n xs d (omega arith))

  pub get_or-tabulate :
      (n : ℕ) (f : ℕ → A) (i : ℕ) (d : A) → i < n → get_or (tabulate n f) i d ≡ f i
  get_or-tabulate zero f i d h = absurd (omega arith)
  get_or-tabulate (suc n) f zero d h = refl
  get_or-tabulate (suc n) f (suc i) d h = get_or-tabulate n (λ j. f (suc j)) i d (omega arith)

  pub take_all : (n : ℕ) (xs : List A) → length xs ≤ n → take n xs ≡ xs
  take_all zero [] h = refl
  take_all zero (x ∷ xs) h = absurd (omega arith)
  take_all (suc n) [] h = refl
  take_all (suc n) (x ∷ xs) h = ap (◌∷◌ x) (take_all n xs (omega arith))

  pub take_exact : (n : ℕ) (xs ys : List A) → n ≡ length xs → take n (xs ++ ys) ≡ xs
  take_exact zero [] ys e = refl
  take_exact zero (x ∷ xs) ys e = absurd (omega arith)
  take_exact (suc n) [] ys e = absurd (omega arith)
  take_exact (suc n) (x ∷ xs) ys e = ap (◌∷◌ x) (take_exact n xs ys (omega arith))

  pub drop_exact : (n : ℕ) (xs ys : List A) → n ≡ length xs → drop n (xs ++ ys) ≡ ys
  drop_exact zero [] ys e = refl
  drop_exact zero (x ∷ xs) ys e = absurd (omega arith)
  drop_exact (suc n) [] ys e = absurd (omega arith)
  drop_exact (suc n) (x ∷ xs) ys e = drop_exact n xs ys (omega arith)

  pub eq-tabulate :
      (xs : List A) (d : A) (n : ℕ) → n ≡ length xs → xs ≡ tabulate n (λ i. get_or xs i d)
  eq-tabulate [] d zero e = refl
  eq-tabulate [] d (suc n) e = absurd (omega arith)
  eq-tabulate (x ∷ xs) d zero e = absurd (omega arith)
  eq-tabulate (x ∷ xs) d (suc n) e = ap (◌∷◌ x) (eq-tabulate xs d n (omega arith))

  pub drop-eq-tabulate :
      (m : ℕ) (xs : List A) (d : A)
      → drop m xs ≡ tabulate (length xs - m) (λ i. get_or xs (m + i) d)
  drop-eq-tabulate m xs d =
      ap (drop m) (eq-tabulate xs d (length xs) refl) ∙ drop-tabulate m (length xs) _

module _ {ℓ} {A : Type ℓ} where
  abbrev pub replicate : ℕ → A → List A
  replicate zero a = []
  replicate (suc n) a = a ∷ replicate n a

  pub length-replicate : (n : ℕ) (a : A) → length (replicate n a) ≡ n
  length-replicate zero a = refl
  length-replicate (suc n) a = ap suc (length-replicate n a)
