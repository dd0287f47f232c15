-- ===== src/Base/Lists.antt =====
-- Lists measured and indexed by native numbers, and lists of identifiers as sets.
use Prim.Native.Nat.{ℕ, zero, suc, ◌+◌}
use mathlib.Core.Path.{◌≡◌, refl}
use mathlib.Core.Logic.{◌⊎◌}
use mathlib.Core.Bool.{Bool, false, ◌||◌}
use mathlib.Core.List.{List, [], ◌∷◌, ◌++◌}
use mathlib.Core.Option.{Option, none, some}
use native.Mathlib.Omega.{arith}
use kitmux_linux.Base.Tests.{◌==◌}

module _ {ℓ} {A : Type ℓ} where
  abbrev pub length : List A → ℕ
  length [] = 0
  length (x ∷ xs) = suc (length xs)

  abbrev pub get_elem? : List A → ℕ → Option A
  get_elem? [] i = none
  get_elem? (x ∷ xs) zero = some x
  get_elem? (x ∷ xs) (suc i) = get_elem? xs i

  -- A write out of bounds changes nothing.
  abbrev pub set : List A → ℕ → A → List A
  set [] i v = []
  set (x ∷ xs) zero v = v ∷ xs
  set (x ∷ xs) (suc i) v = x ∷ set xs i v

  -- `flat_map`
  abbrev pub concat_map {κ} : {C : Type κ} → (A → List C) → List A → List C
  concat_map g [] = []
  concat_map g (x ∷ xs) = g x ++ concat_map g xs

  abbrev pub All {κ} : (A → Type κ) → List A → Type κ
  All P [] = Unit
  All P (x ∷ xs) = P x × All P xs

  pub length-append : (xs ys : List A) → length (xs ++ ys) ≡ length xs + length ys
  length-append [] ys = omega arith
  length-append (x ∷ xs) ys = omega (arith, length-append xs ys)

-- A value stands in the list.
abbrev pub Member : {A : Type 0} → A → List A → Type 0
Member x [] = ⊥
Member x (y ∷ ys) = (y ≡ x) ⊎ Member x ys

-- `id` occurs in the list.
unfoldable pub elem : List ℕ → ℕ → Bool
elem [] id = false
elem (x ∷ xs) id = x == id || elem xs id

-- No identifier occurs twice.
abbrev pub Distinct : List ℕ → Type 0
Distinct [] = Unit
Distinct (x ∷ xs) = (elem xs x ≡ false) × Distinct xs

pub elem-append : (xs ys : List ℕ) (id : ℕ) → elem (xs ++ ys) id ≡ (elem xs id || elem ys id)
unfolding elem
elem-append [] ys id = refl
elem-append (x ∷ xs) ys id = ground (arith, elem-append xs ys id)
