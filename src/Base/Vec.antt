-- ===== src/Base/Vec.antt =====
-- The operations of `Vec` that the program uses, over the native numbers.
use Prim.Native.Nat.{ℕ, zero, suc, ◌<◌, ◌≤◌}
use mathlib.Core.Path.{◌≡◌, refl, ap}
use mathlib.Core.Bool.{Bool, true, false}
use mathlib.Core.List.{List, [], ◌∷◌, ◌++◌, map}
use mathlib.Core.Option
use mathlib.Core.Option.{Option, none, some}
use native.Mathlib.Omega.{arith}
use kitmux_linux.Base.Tests.{ltb, ◌==◌, if◌then◌else◌, Bool-cases}
use mathlib.Core.Logic.{inl, inr}
use kitmux_linux.Base.Lists.{length, get_elem?, elem, Distinct}
use kitmux_linux.Base.Adds.{Adds, here, there}

module _ {ℓ} {A : Type ℓ} where
  -- `iter().position(test)`
  unfoldable pub position : (A → Bool) → List A → Option ℕ
  position test [] = none
  position test (x ∷ xs) = if test x then some 0 else Option.map suc (position test xs)

  -- `Vec::remove`, which panics out of bounds, and there changes nothing here.
  unfoldable pub remove_at : List A → ℕ → List A
  remove_at [] i = []
  remove_at (x ∷ xs) zero = xs
  remove_at (x ∷ xs) (suc i) = x ∷ remove_at xs i

  -- `Vec::insert`, which panics behind the end, and there appends here.
  unfoldable pub insert_at : List A → ℕ → A → List A
  insert_at xs zero v = v ∷ xs
  insert_at [] (suc i) v = v ∷ []
  insert_at (x ∷ xs) (suc i) v = x ∷ insert_at xs i v

  pub get_elem?-some : (xs : List A) (i : ℕ) → i < length xs → (x : A) × (get_elem? xs i ≡ some x)
  get_elem?-some [] i h = absurd (omega arith)
  get_elem?-some (x ∷ xs) zero h = (x, refl)
  get_elem?-some (x ∷ xs) (suc i) h = get_elem?-some xs i (omega arith)

  pub lt_of_get : (xs : List A) (i : ℕ) (x : A) → get_elem? xs i ≡ some x → i < length xs
  lt_of_get [] i x h = absurd (ground arith)
  lt_of_get (y ∷ xs) zero x h = omega arith
  lt_of_get (y ∷ xs) (suc i) x h = omega (arith, lt_of_get xs i x h)

  pub length-remove_at :
      (xs : List A) (i : ℕ) → i < length xs → suc (length (remove_at xs i)) ≡ length xs
  unfolding remove_at
  length-remove_at [] i h = absurd (omega arith)
  length-remove_at (x ∷ xs) zero h = refl
  length-remove_at (x ∷ xs) (suc i) h = ap suc (length-remove_at xs i (omega arith))

  pub length-insert_at : (xs : List A) (i : ℕ) (v : A) → length (insert_at xs i v) ≡ suc (length xs)
  unfolding insert_at
  length-insert_at [] zero v = refl
  length-insert_at [] (suc i) v = refl
  length-insert_at (x ∷ xs) zero v = refl
  length-insert_at (x ∷ xs) (suc i) v = ap suc (length-insert_at xs i v)

  pub remove_at-insert_at :
      (xs : List A) (i : ℕ) (v : A) → i ≤ length xs → remove_at (insert_at xs i v) i ≡ xs
  unfolding remove_at insert_at
  remove_at-insert_at [] zero v h = refl
  remove_at-insert_at [] (suc i) v h = absurd (omega arith)
  remove_at-insert_at (x ∷ xs) zero v h = refl
  remove_at-insert_at (x ∷ xs) (suc i) v h =
      ap (λ ys. x ∷ ys) (remove_at-insert_at xs i v (omega arith))

  pub get_elem?-remove_at :
      (xs : List A) (i j : ℕ)
      → i < length xs
      → get_elem? (remove_at xs i) j ≡ (if ltb j i then get_elem? xs j else get_elem? xs (suc j))
  unfolding remove_at
  get_elem?-remove_at [] i j h = absurd (omega arith)
  get_elem?-remove_at (x ∷ xs) zero j h = ground arith
  get_elem?-remove_at (x ∷ xs) (suc i) zero h = ground arith
  get_elem?-remove_at (x ∷ xs) (suc i) (suc j) h = ground (arith, get_elem?-remove_at xs i j)

  pub get_elem?-insert_at :
      (xs : List A) (i : ℕ) (v : A) → i ≤ length xs → get_elem? (insert_at xs i v) i ≡ some v
  unfolding insert_at
  get_elem?-insert_at [] zero v h = refl
  get_elem?-insert_at [] (suc i) v h = absurd (omega arith)
  get_elem?-insert_at (x ∷ xs) zero v h = refl
  get_elem?-insert_at (x ∷ xs) (suc i) v h = get_elem?-insert_at xs i v (omega arith)

  pub get_elem?-insert_at_shift :
      (xs : List A) (i : ℕ) (v : A) (k : ℕ)
      → i ≤ length xs
      → get_elem? (insert_at xs i v) (if ltb k i then k else suc k) ≡ get_elem? xs k
  unfolding insert_at
  get_elem?-insert_at_shift [] zero v k h = ground arith
  get_elem?-insert_at_shift [] (suc i) v k h = absurd (omega arith)
  get_elem?-insert_at_shift (x ∷ xs) zero v k h = ground arith
  get_elem?-insert_at_shift (x ∷ xs) (suc i) v zero h = ground arith
  get_elem?-insert_at_shift (x ∷ xs) (suc i) v (suc k) h =
      ground (arith, get_elem?-insert_at_shift xs i v k)

  pub position_sound :
      (test : A → Bool) (xs : List A) (i : ℕ)
      → position test xs ≡ some i
      → (x : A) × (get_elem? xs i ≡ some x) × (test x ≡ true)
  unfolding position
  position_sound test [] i h = absurd (ground arith)
  position_sound test (x ∷ xs) zero h = (x, refl, ground arith)
  position_sound test (x ∷ xs) (suc i) h = position_sound test xs i (ground arith)

  pub position_complete :
      (test : A → Bool) (xs : List A) (i : ℕ) (x : A)
      → get_elem? xs i ≡ some x
      → test x ≡ true
      → (j : ℕ) × (position test xs ≡ some j)
  unfolding position
  position_complete test [] i x h k = absurd (ground arith)
  position_complete test (y ∷ xs) zero x h k = (0, ground arith)
  position_complete test (y ∷ xs) (suc i) x h k =
      let (j, e) = position_complete test xs i x h k in
      ((if test y then 0 else suc j), ground arith)

  -- `push`
  pub get_elem?-push : (xs : List A) (x : A) → get_elem? (xs ++ x ∷ []) (length xs) ≡ some x
  get_elem?-push [] x = refl
  get_elem?-push (y ∷ xs) x = get_elem?-push xs x

  pub length-push : (xs : List A) (x : A) → length (xs ++ x ∷ []) ≡ suc (length xs)
  length-push [] x = refl
  length-push (y ∷ xs) x = ap suc (length-push xs x)

module _ {A : Type 0} (id : A → ℕ) where
  pub push-Adds : (xs : List A) (x : A) → Adds (id x) (map id xs) (map id (xs ++ x ∷ []))
  push-Adds [] x = here
  push-Adds (y ∷ xs) x = there (push-Adds xs x)

  pub remove_at-Adds :
      (xs : List A) (i : ℕ) (x : A)
      → get_elem? xs i ≡ some x
      → Adds (id x) (map id (remove_at xs i)) (map id xs)
  unfolding remove_at
  remove_at-Adds [] i x h = absurd (ground arith)
  remove_at-Adds (y ∷ xs) zero x h = let e : y ≡ x = cc in rw e here
  remove_at-Adds (y ∷ xs) (suc i) x h = there (remove_at-Adds xs i x h)

  pub insert_at-Adds :
      (xs : List A) (i : ℕ) (v : A) → Adds (id v) (map id xs) (map id (insert_at xs i v))
  unfolding insert_at
  insert_at-Adds [] zero v = here
  insert_at-Adds [] (suc i) v = here
  insert_at-Adds (x ∷ xs) zero v = here
  insert_at-Adds (x ∷ xs) (suc i) v = there (insert_at-Adds xs i v)

  pub elem-get :
      (xs : List A) (i : ℕ) (x : A) → get_elem? xs i ≡ some x → elem (map id xs) (id x) ≡ true
  unfolding elem
  elem-get [] i x h = absurd (ground arith)
  elem-get (y ∷ xs) zero x h = ground arith
  elem-get (y ∷ xs) (suc i) x h = ground (arith, elem-get xs i x)

  pub get-elem :
      (xs : List A) (k : ℕ)
      → elem (map id xs) k ≡ true
      → (i : ℕ) × (x : A) × (get_elem? xs i ≡ some x) × (id x ≡ k)
  unfolding elem
  get-elem [] k h = absurd (ground arith)
  get-elem (y ∷ xs) k h = elim (Bool-cases (id y == k)) [
    | inl e ↦ (0, y, refl, ground arith)
    | inr e ↦ let (i, x, g, e') = get-elem xs k (ground arith) in (suc i, x, g, e')
  ]

  -- With distinct identifiers an entry stands at one place.
  pub Distinct-get :
      (xs : List A) (i j : ℕ) (x y : A)
      → Distinct (map id xs)
      → get_elem? xs i ≡ some x
      → get_elem? xs j ≡ some y
      → id x ≡ id y
      → i ≡ j
  Distinct-get [] i j x y d h k e = absurd (ground arith)
  Distinct-get (z ∷ xs) zero zero x y d h k e = refl
  Distinct-get (z ∷ xs) zero (suc j) x y d h k e = absurd (ground (arith, elem-get xs j y k))
  Distinct-get (z ∷ xs) (suc i) zero x y d h k e = absurd (ground (arith, elem-get xs i x h))
  Distinct-get (z ∷ xs) (suc i) (suc j) x y d h k e = ap suc (Distinct-get xs i j x y d.1 h k e)

  -- A position by identifier is found exactly for an identifier in the list.
  pub position-elem :
      (xs : List A) (k : ℕ)
      → elem (map id xs) k ≡ (elim (position (λ x. id x == k) xs) [ some _ ↦ true | none ↦ false ])
  unfolding elem position
  position-elem [] k = refl
  position-elem (x ∷ xs) k = ground (arith, position-elem xs k)
