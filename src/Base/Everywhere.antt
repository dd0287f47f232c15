-- ===== src/Base/Everywhere.antt =====
-- A property of every element of a vector under the vector's operations, and writes in place.
use Prim.Native.Nat.{ℕ, zero, suc}
use mathlib.Core.Path.{◌≡◌, refl, ap, subst}
use mathlib.Core.List.{List, [], ◌∷◌, ◌++◌, map}
use mathlib.Core.Option.{some}
use native.Mathlib.Omega.{arith}
use kitmux_linux.Base.Lists.{length, get_elem?, set, All}
use kitmux_linux.Base.Vec.{remove_at}

module _ {A : Type 0} (P : A → Type 0) where
  pub All-get : (xs : List A) (i : ℕ) (x : A) → All P xs → get_elem? xs i ≡ some x → P x
  All-get [] i x a h = absurd (ground arith)
  All-get (y ∷ ys) zero x a h = let e : y ≡ x = cc in subst P e a.0
  All-get (y ∷ ys) (suc i) x a h = All-get ys i x a.1 h

  pub All-set : (xs : List A) (i : ℕ) (x : A) → All P xs → P x → All P (set xs i x)
  All-set [] i x a p = tt
  All-set (y ∷ ys) zero x a p = (p, a.1)
  All-set (y ∷ ys) (suc i) x a p = (a.0, All-set ys i x a.1 p)

  pub All-remove_at : (xs : List A) (i : ℕ) → All P xs → All P (remove_at xs i)
  unfolding remove_at
  All-remove_at [] i a = tt
  All-remove_at (y ∷ ys) zero a = a.1
  All-remove_at (y ∷ ys) (suc i) a = (a.0, All-remove_at ys i a.1)

  pub All-push : (xs : List A) (x : A) → All P xs → P x → All P (xs ++ x ∷ [])
  All-push [] x a p = (p, tt)
  All-push (y ∷ ys) x a p = (a.0, All-push ys x a.1 p)

module _ {A : Type 0} where
  pub length-set : (xs : List A) (i : ℕ) (x : A) → length (set xs i x) ≡ length xs
  length-set [] i x = refl
  length-set (y ∷ ys) zero x = refl
  length-set (y ∷ ys) (suc i) x = ap suc (length-set ys i x)

  pub get_elem?-set :
      (xs : List A) (i : ℕ) (x y : A) → get_elem? xs i ≡ some y → get_elem? (set xs i x) i ≡ some x
  get_elem?-set [] i x y h = absurd (ground arith)
  get_elem?-set (z ∷ xs) zero x y h = refl
  get_elem?-set (z ∷ xs) (suc i) x y h = get_elem?-set xs i x y h

  -- A write that keeps the identifier keeps the sequence of identifiers.
  pub map-set :
      (id : A → ℕ) (xs : List A) (i : ℕ) (x y : A)
      → get_elem? xs i ≡ some y
      → id x ≡ id y
      → map id (set xs i x) ≡ map id xs
  map-set id [] i x y h e = refl
  map-set id (z ∷ xs) zero x y h e = let ez : z ≡ y = cc in rw (e, ez) refl
  map-set id (z ∷ xs) (suc i) x y h e = ap (λ l. id z ∷ l) (map-set id xs i x y h e)
