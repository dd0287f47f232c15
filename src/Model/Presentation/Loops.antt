-- ===== src/Model/Presentation/Loops.antt =====
-- What the nested loops over a list collect, member by member.
use mathlib.Core.Option
use kitmux_linux.Base.{
  ℕ, zero, suc, ◌+◌, ◌≡◌, ◌↔◌, ◌⊎◌, refl, inl, inr, Member, get_elem?, true, Option, some, List, [],
  ◌∷◌, ◌++◌, elem, All, arith, ==_iff,
}
use kitmux_linux.Model.Presentation.{RuntimePresentation}

pub zero_add : (k : ℕ) → 0 + k ≡ k
zero_add k = omega arith

-- At some index from `index` on, of a member of the list.
abbrev pub At : {A : Type 0} → (ℕ → A → Type 0) → ℕ → List A → Type 0
At P index xs = (k : ℕ) × (x : _) × (get_elem? xs k ≡ some x) × P (index + k) x

pub At-cons :
    {A : Type 0} (P : ℕ → A → Type 0) (index : ℕ) (x : A) (xs : List A)
    → (P index x ⊎ At P (suc index) xs) ↔ At P index (x ∷ xs)
At-cons P index x xs = (sound, complete)
  where
    sound : P index x ⊎ At P (suc index) xs → At P index (x ∷ xs)
    sound (inl h) = let e : index + 0 ≡ index = omega arith in (0, x, refl, rw e h)
    sound (inr (k, y, g, h)) =
        let e : index + suc k ≡ suc index + k = omega arith in (suc k, y, g, rw e h)

    complete : At P index (x ∷ xs) → P index x ⊎ At P (suc index) xs
    complete (zero, y, g, h) =
        let e : index + 0 ≡ index = omega arith in
        let same : y ≡ x = cc in inl (rw same at (rw e at h))
    complete (suc k, y, g, h) =
        let e : index + suc k ≡ suc index + k = omega arith in inr (k, y, g, rw e at h)

weaken :
    (x : ℕ) (xs ys : List ℕ) → All (λ p. elem xs p ≡ true) ys → All (λ p. elem (x ∷ xs) p ≡ true) ys
unfolding elem
weaken x xs [] a = tt
weaken x xs (y ∷ ys) a = (ground arith, weaken x xs ys a.1)

pub every : (xs : List ℕ) → All (λ p. elem xs p ≡ true) xs
unfolding elem
every [] = tt
every (x ∷ xs) = (ground (arith, ==_iff x x), weaken x xs xs (every xs))

Member-append :
    {A : Type 0} (r : A) (xs ys : List A) → Member r (xs ++ ys) ↔ (Member r xs ⊎ Member r ys)
Member-append r [] ys = ground arith
Member-append r (x ∷ xs) ys = ground (arith, Member-append r xs ys)

pub either : {A B C D : Type 0} → (A → C) → (B → D) → A ⊎ B → C ⊎ D
either f g (inl a) = inl (f a)
either f g (inr b) = inr (g b)

-- The result is a list, of exactly the presentations with the property.
abbrev pub Presents : Option (List RuntimePresentation) → (RuntimePresentation → Type 0) → Type 0
Presents o P =
    (rs : List RuntimePresentation) × (o ≡ some rs)
    × ((r : RuntimePresentation) → Member r rs ↔ P r)

pub Presents-nil :
    {A : Type 0} (P : RuntimePresentation → ℕ → A → Type 0) (index : ℕ)
    → Presents (some []) (λ r. At (P r) index [])
Presents-nil P index = ([], refl, λ r. (λ m. absurd m, λ (k, x, g, h). absurd (ground arith)))

pub joined :
    {A : Type 0} (P : RuntimePresentation → ℕ → A → Type 0) (index : ℕ) (x : A) (xs : List A)
    (a b : Option (List RuntimePresentation))
    → Presents a (λ r. P r index x)
    → Presents b (λ r. At (P r) (suc index) xs)
    → Presents
        (Option.bind a (λ here. Option.map (λ later. here ++ later) b))
        (λ r. At (P r) index (x ∷ xs))
unfolding Option.bind
joined P index x xs a b (here, ea, ha) (later, eb, hb) = (
  here ++ later,
  rw (ea, eb) refl,
  λ r.
      let (apart, together) = Member-append r here later in
      let (into, out) = At-cons (P r) index x xs in
      (
        λ m. into (either (ha r).0 (hb r).0 (apart m)),
        λ h. together (either (ha r).1 (hb r).1 (out h)),
      ),
)
