-- ===== src/Base/Adds.antt =====
-- One list is another with one identifier put in somewhere.
use Prim.Native.Nat.{ℕ}
use mathlib.Core.Path.{◌≡◌, refl}
use mathlib.Core.Bool.{false, ◌||◌}
use mathlib.Core.List.{List, [], ◌∷◌, ◌++◌}
use native.Mathlib.Omega.{arith}
use kitmux_linux.Base.Tests.{◌==◌}
use kitmux_linux.Base.Lists.{elem, Distinct}

pub data Adds (x : ℕ) : List ℕ → List ℕ → Type 0 where
  here : {xs : List ℕ} → Adds x xs (x ∷ xs)
  there : {y : ℕ} {xs ys : List ℕ} → Adds x xs ys → Adds x (y ∷ xs) (y ∷ ys)

pub Adds-append_left :
    {x : ℕ} {xs ys : List ℕ} (zs : List ℕ) → Adds x xs ys → Adds x (xs ++ zs) (ys ++ zs)
Adds-append_left zs here = here
Adds-append_left zs (there a) = there (Adds-append_left zs a)

pub Adds-append_right :
    {x : ℕ} (zs : List ℕ) {xs ys : List ℕ} → Adds x xs ys → Adds x (zs ++ xs) (zs ++ ys)
Adds-append_right [] a = a
Adds-append_right (z ∷ zs) a = there (Adds-append_right zs a)

-- The longer list holds that identifier and those of the shorter one.
pub elem-Adds :
    {x : ℕ} {xs ys : List ℕ} → Adds x xs ys → (i : ℕ) → elem ys i ≡ (x == i || elem xs i)
unfolding elem
elem-Adds here i = refl
elem-Adds (there a) i = ground (arith, elem-Adds a i)

pub Adds-Distinct :
    {x : ℕ} {xs ys : List ℕ} → Adds x xs ys → elem xs x ≡ false → Distinct xs → Distinct ys
unfolding elem
Adds-Distinct here h d = (h, d)
Adds-Distinct (there {y = y} a) h d =
    (ground (arith, elem-Adds a y), Adds-Distinct a (ground arith) d.1)

pub Distinct-Adds :
    {x : ℕ} {xs ys : List ℕ} → Adds x xs ys → Distinct ys → (elem xs x ≡ false) × Distinct xs
unfolding elem
Distinct-Adds here d = d
Distinct-Adds {x} (there {y = y} a) d =
    let rest = Distinct-Adds a d.1 in
    let e = elem-Adds a y in (ground arith, (ground arith, rest.1))
