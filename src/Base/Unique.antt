-- ===== src/Base/Unique.antt =====
-- Checking a sequence of identifiers for duplicates by inserting them into a set one by one.
use Prim.Native.Nat.{ℕ}
use mathlib.Core.Path.{◌≡◌, refl}
use mathlib.Core.Bool.{false}
use mathlib.Core.List.{List, [], ◌∷◌, ◌++◌}
use mathlib.Core.Option
use mathlib.Core.Option.{Option, none, some}
use native.Mathlib.Omega.{arith}
use kitmux_linux.Base.Tests.{if◌then◌else◌}
use kitmux_linux.Base.Lists.{All, elem, Distinct}

-- `none` from the first value on that is in the set already.
unfoldable pub insert_all : List ℕ → List ℕ → Option (List ℕ)
insert_all [] seen = some seen
insert_all (x ∷ xs) seen = let rest = insert_all xs (x ∷ seen) in if elem seen x then none else rest

pub insert_all-append :
    (xs ys seen : List ℕ)
    → insert_all (xs ++ ys) seen ≡ Option.bind (insert_all xs seen) (insert_all ys)
unfolding insert_all Option.bind
insert_all-append [] ys seen = refl
insert_all-append (x ∷ xs) ys seen = ground (arith, insert_all-append xs ys (x ∷ seen))

-- No identifier of the first list is in the second.
abbrev pub Apart : List ℕ → List ℕ → Type 0
Apart xs seen = All (λ x. elem seen x ≡ false) xs

Apart-cons : (x : ℕ) (xs seen : List ℕ) → elem xs x ≡ false → Apart xs seen → Apart xs (x ∷ seen)
unfolding elem
Apart-cons x [] seen h a = tt
Apart-cons x (y ∷ ys) seen h a = (ground arith, Apart-cons x ys seen (ground arith) a.1)

Apart-uncons :
    (x : ℕ) (xs seen : List ℕ) → Apart xs (x ∷ seen) → (elem xs x ≡ false) × Apart xs seen
unfolding elem
Apart-uncons x [] seen a = (refl, tt)
Apart-uncons x (y ∷ ys) seen a =
    let rest = Apart-uncons x ys seen a.1 in (ground arith, (ground arith, rest.1))

pub Apart-nil : (xs : List ℕ) → Apart xs []
unfolding elem
Apart-nil [] = tt
Apart-nil (x ∷ xs) = (refl, Apart-nil xs)

-- The insertions all succeed exactly if the values are distinct and none was in the set.
pub insert_all_sound :
    (xs seen t : List ℕ) → insert_all xs seen ≡ some t → Distinct xs × Apart xs seen
unfolding insert_all
insert_all_sound [] seen t h = (tt, tt)
insert_all_sound (x ∷ xs) seen t h =
    let rest = insert_all_sound xs (x ∷ seen) t (ground arith) in
    let apart = Apart-uncons x xs seen rest.1 in ((apart.0, rest.0), (ground arith, apart.1))

pub insert_all_complete :
    (xs seen : List ℕ) → Distinct xs → Apart xs seen → (t : List ℕ) × (insert_all xs seen ≡ some t)
unfolding insert_all
insert_all_complete [] seen d a = (seen, refl)
insert_all_complete (x ∷ xs) seen d a =
    let (t, e) = insert_all_complete xs (x ∷ seen) d.1 (Apart-cons x xs seen d.0 a.1) in
    (t, ground arith)
