-- ===== src/Base/Lists.antt =====
-- Lists indexed by the native numbers, and the list of the values of a function.
use Prim.Native.Nat.{ℕ, zero, suc, ◌+◌, ◌-◌, ◌≤◌, ◌<◌}
use mathlib.Core.Path.{◌≡◌, refl, ap, ap₂, ◌∙◌}
use mathlib.Core.Logic.{◌⊎◌, inl, inr}
use mathlib.Core.List.{List, [], ◌∷◌, ◌++◌}
use mathlib.Core.Option.{Option, none, some}
use native.Mathlib.Omega.{arith}

module _ {ℓ} {A : Type ℓ} where
  abbrev pub length : List A → ℕ
  length [] = 0
  length (x ∷ xs) = suc (length xs)

  abbrev pub get_elem? : List A → ℕ → Option A
  get_elem? [] i = none
  get_elem? (x ∷ xs) zero = some x
  get_elem? (x ∷ xs) (suc i) = get_elem? xs i

  abbrev pub get_or : List A → ℕ → A → A
  get_or [] i d = d
  get_or (x ∷ xs) zero d = x
  get_or (x ∷ xs) (suc i) d = get_or xs i d

  abbrev pub take : ℕ → List A → List A
  take zero xs = []
  take (suc n) [] = []
  take (suc n) (x ∷ xs) = x ∷ take n xs

  abbrev pub drop : ℕ → List A → List A
  drop zero xs = xs
  drop (suc n) [] = []
  drop (suc n) (x ∷ xs) = drop n xs

  pub length-append : (xs ys : List A) → length (xs ++ ys) ≡ length xs + length ys
  length-append [] ys = omega arith
  length-append (x ∷ xs) ys = omega (arith, length-append xs ys)

  -- A split on a computed option that keeps the equation.
  pub Option-cases : (o : Option A) → (o ≡ none) ⊎ ((a : A) × (o ≡ some a))
  Option-cases none = inl refl
  Option-cases (some a) = inr (a, refl)

  -- The list f 0, f 1, ..., f (n - 1).
  abbrev pub tabulate : ℕ → (ℕ → A) → List A
  tabulate zero f = []
  tabulate (suc n) f = f 0 ∷ tabulate n (λ k. f (k + 1))

  pub length-tabulate : (n : ℕ) (f : ℕ → A) → length (tabulate n f) ≡ n
  length-tabulate zero f = refl
  length-tabulate (suc n) f = ap suc (length-tabulate n (λ k. f (k + 1)))

  -- Two functions that agree below `n` have the same list.
  pub tabulate_ext :
      (n : ℕ) (f g : ℕ → A) → ((k : ℕ) → k < n → f k ≡ g k) → tabulate n f ≡ tabulate n g
  tabulate_ext zero f g h = refl
  tabulate_ext (suc n) f g h =
      ap₂ ◌∷◌ (h 0 (omega arith))
        (tabulate_ext n (λ k. f (k + 1)) (λ k. g (k + 1)) (λ k l. h (k + 1) (omega arith)))

  pub tabulate_length : (n m : ℕ) (f : ℕ → A) → n ≡ m → tabulate n f ≡ tabulate m f
  tabulate_length n m f h = ap (λ l. tabulate l f) h

  pub tabulate-append :
      (n m : ℕ) (f : ℕ → A) → tabulate (n + m) f ≡ tabulate n f ++ tabulate m (λ k. f (n + k))
  tabulate-append zero m f =
      tabulate_length (0 + m) m f (omega arith)
      ∙ tabulate_ext m f (λ k. f (0 + k)) (λ k h. ap f (omega arith))
  tabulate-append (suc n) m f =
      tabulate_length (suc n + m) (suc (n + m)) f (omega arith)
      ∙ ap (◌∷◌ (f 0)) (
          tabulate-append n m (λ k. f (k + 1))
          ∙ ap (◌++◌ (tabulate n (λ k. f (k + 1)))) (
              tabulate_ext m (λ k. f (n + k + 1)) (λ k. f (suc n + k)) (λ k h. ap f (omega arith))))

  pub take-tabulate : (n m : ℕ) (f : ℕ → A) → n ≤ m → take n (tabulate m f) ≡ tabulate n f
  take-tabulate zero m f h = refl
  take-tabulate (suc n) zero f h = absurd (omega arith)
  take-tabulate (suc n) (suc m) f h =
      ap (◌∷◌ (f 0)) (take-tabulate n m (λ k. f (k + 1)) (omega arith))

  pub drop-tabulate :
      (n m : ℕ) (f : ℕ → A) → n ≤ m → drop n (tabulate m f) ≡ tabulate (m - n) (λ k. f (n + k))
  drop-tabulate zero m f h =
      tabulate_ext m f (λ k. f (0 + k)) (λ k l. ap f (omega arith))
      ∙ tabulate_length m (m - 0) (λ k. f (0 + k)) (omega arith)
  drop-tabulate (suc n) zero f h = absurd (omega arith)
  drop-tabulate (suc n) (suc m) f h =
      drop-tabulate n m (λ k. f (k + 1)) (omega arith)
      ∙ tabulate_length (m - n) (suc m - suc n) (λ k. f (n + k + 1)) (omega arith)
      ∙ tabulate_ext (suc m - suc n) (λ k. f (n + k + 1)) (λ k. f (suc n + k))
          (λ k l. ap f (omega arith))

  pub drop-append : (n : ℕ) (xs ys : List A) → length xs ≡ n → drop n (xs ++ ys) ≡ ys
  drop-append zero [] ys h = refl
  drop-append zero (x ∷ xs) ys h = absurd (omega arith)
  drop-append (suc n) [] ys h = absurd (omega arith)
  drop-append (suc n) (x ∷ xs) ys h = drop-append n xs ys (omega arith)
