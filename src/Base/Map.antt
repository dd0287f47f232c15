-- ===== src/Base/Map.antt =====
-- A `HashMap` with identifiers as keys, as an association list.
use Prim.Native.Nat.{ℕ}
use mathlib.Core.Path.{◌≡◌, refl, ap, subst₂}
use mathlib.Core.Logic.{◌⊎◌, inl, inr}
use mathlib.Core.Bool.{Bool, true, false, not, ◌&&◌, ◌||◌}
use mathlib.Core.List.{List, [], ◌∷◌}
use mathlib.Core.Option.{Option, none, some}
use native.Mathlib.Omega.{arith}
use kitmux_linux.Base.Tests.{◌==◌, if◌then◌else◌, Bool-cases, ==_iff}
use kitmux_linux.Base.Lists.{All, elem, Distinct}

module _ {ℓ} {V : Type ℓ} where
  unfoldable pub get : ℕ → List (ℕ × V) → Option V
  get k [] = none
  get k ((j, v) ∷ m) = if j == k then some v else get k m

  -- `insert` replaces the value of a key that is there.
  unfoldable pub insert : ℕ → V → List (ℕ × V) → List (ℕ × V)
  insert k v [] = (k, v) ∷ []
  insert k v ((j, w) ∷ m) = if j == k then (k, v) ∷ m else (j, w) ∷ insert k v m

  unfoldable pub remove : ℕ → List (ℕ × V) → List (ℕ × V)
  remove k [] = []
  remove k ((j, w) ∷ m) = if j == k then m else (j, w) ∷ remove k m

  abbrev pub keys : List (ℕ × V) → List ℕ
  keys [] = []
  keys ((k, v) ∷ m) = k ∷ keys m

  pub get-insert :
      (k j : ℕ) (v : V) (m : List (ℕ × V))
      → get j (insert k v m) ≡ (if k == j then some v else get j m)
  unfolding get insert
  get-insert k j v [] = refl
  get-insert k j v ((i, w) ∷ m) = ground (arith, get-insert k j v m)

  -- `contains_key`
  abbrev pub has : ℕ → List (ℕ × V) → Bool
  has k m = elim (get k m) [ some _ ↦ true | none ↦ false ]

  pub has-insert : (k j : ℕ) (v : V) (m : List (ℕ × V)) → has j (insert k v m) ≡ (k == j || has j m)
  has-insert k j v m = ground (arith, get-insert k j v m)

-- An entry stands in the list.
module _ {V : Type 0} where
  abbrev pub In : ℕ × V → List (ℕ × V) → Type 0
  In e [] = ⊥
  In e (x ∷ xs) = (x ≡ e) ⊎ In e xs

module _ {V : Type 0} where
  pub has-keys : (k : ℕ) (m : List (ℕ × V)) → has k m ≡ elem (keys m) k
  unfolding get elem
  has-keys k [] = refl
  has-keys k ((j, v) ∷ m) = ground (arith, has-keys k m)

  pub insert-keys :
      (k j : ℕ) (v : V) (m : List (ℕ × V))
      → elem (keys (insert k v m)) j ≡ (k == j || elem (keys m) j)
  unfolding insert elem
  insert-keys k j v [] = refl
  insert-keys k j v ((i, w) ∷ m) = ground (arith, insert-keys k j v m)

  pub insert-Distinct :
      (k : ℕ) (v : V) (m : List (ℕ × V)) → Distinct (keys m) → Distinct (keys (insert k v m))
  unfolding insert elem
  insert-Distinct k v [] d = (refl, tt)
  insert-Distinct k v ((i, w) ∷ m) d =
      ground (arith, insert-keys k i v m, insert-Distinct k v m d.1)

  pub remove-keys :
      (k j : ℕ) (m : List (ℕ × V))
      → Distinct (keys m)
      → elem (keys (remove k m)) j ≡ (not (k == j) && elem (keys m) j)
  unfolding remove elem
  remove-keys k j [] d = ground arith
  remove-keys k j ((i, w) ∷ m) d = ground (arith, remove-keys k j m d.1)

  pub remove-Distinct :
      (k : ℕ) (m : List (ℕ × V)) → Distinct (keys m) → Distinct (keys (remove k m))
  unfolding remove
  remove-Distinct k [] d = tt
  remove-Distinct k ((i, w) ∷ m) d = ground (arith, remove-keys k i m d.1, remove-Distinct k m d.1)

  -- Every entry satisfies a predicate.
  pub insert-All :
      (P : ℕ × V → Type 0) (k : ℕ) (v : V) (m : List (ℕ × V))
      → P (k, v)
      → All P m
      → All P (insert k v m)
  unfolding insert
  insert-All P k v [] p a = (p, tt)
  insert-All P k v ((i, w) ∷ m) p a = elim (Bool-cases (i == k)) [
    | inl e ↦ rw e (p, a.1)
    | inr e ↦ rw e (a.0, insert-All P k v m p a.1)
  ]

  pub remove-All : (P : ℕ × V → Type 0) (k : ℕ) (m : List (ℕ × V)) → All P m → All P (remove k m)
  unfolding remove
  remove-All P k [] a = tt
  remove-All P k ((i, w) ∷ m) a = elim (Bool-cases (i == k)) [
    | inl e ↦ rw e a.1
    | inr e ↦ rw e (a.0, remove-All P k m a.1)
  ]

  pub get-All :
      (P : ℕ × V → Type 0) (k : ℕ) (v : V) (m : List (ℕ × V))
      → get k m ≡ some v
      → All P m
      → P (k, v)
  unfolding get
  get-All P k v [] h a = absurd (ground arith)
  get-All P k v ((i, w) ∷ m) h a = elim (Bool-cases (i == k)) [
    | inl e ↦
        let e' : i ≡ k = (==_iff i k).0 e in
        let ew : w ≡ v = ground arith in subst₂ (λ x y. P (x, y)) e' ew a.0
    | inr e ↦ get-All P k v m (ground arith) a.1
  ]

  pub In-has : (k : ℕ) (v : V) (m : List (ℕ × V)) → In (k, v) m → has k m ≡ true
  unfolding get
  In-has k v [] i = absurd i
  In-has k v ((j, w) ∷ m) (inl e) = let e' : j ≡ k = ap (λ t. t.0) e in ground arith
  In-has k v ((j, w) ∷ m) (inr i) = ground (arith, In-has k v m i)
