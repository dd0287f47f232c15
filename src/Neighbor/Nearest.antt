-- ===== src/Neighbor/Nearest.antt =====
-- The order of the candidates for the focus and the choice among them.
use kitmux_linux.Base.{
  ℕ, ◌≡◌, refl, subst, ◌⊎◌, inl, inr, Bool, true, false, some, List, [], ◌∷◌, if◌then◌else◌, arith,
  All, Bool-cases,
}
use kitmux_linux.Base.Int.{ℤ, ltb_ℤ}
use kitmux_linux.Base.Map.{In}
use kitmux_linux.Neighbor.{key_lt, pair_lt, Candidate, select, least, min_by_key}

-- A lexicographic comparison of integers first, `x` and `y` being those of the rest.
abbrev lex : ℤ → ℤ → Bool → Bool
lex a b x = if ltb_ℤ a b then true else if ltb_ℤ b a then false else x

lex_trans :
    (a b c : ℤ) (x y z : Bool)
    → (x ≡ false → y ≡ false → z ≡ false)
    → lex a b x ≡ false
    → lex b c y ≡ false
    → lex a c z ≡ false
lex_trans a b c x y z t h k = ground arith

lex_asym : (a b : ℤ) (x y : Bool) → (x ≡ true → y ≡ false) → lex a b x ≡ true → lex b a y ≡ false
lex_asym a b x y t h = ground arith

lex_irrefl : (a : ℤ) (x : Bool) → x ≡ false → lex a a x ≡ false
lex_irrefl a x h = ground arith

key_lt_trans : (a b c : ℤ × ℤ × ℕ) → key_lt a b ≡ false → key_lt b c ≡ false → key_lt a c ≡ false
unfolding key_lt pair_lt
key_lt_trans a b c = lex_trans a.0 b.0 c.0 _ _ _ (lex_trans a.1 b.1 c.1 _ _ _ (λ h k. ground arith))

key_lt_asym : (a b : ℤ × ℤ × ℕ) → key_lt a b ≡ true → key_lt b a ≡ false
unfolding key_lt pair_lt
key_lt_asym a b = lex_asym a.0 b.0 _ _ (lex_asym a.1 b.1 _ _ (λ h. ground arith))

key_lt_irrefl : (a : ℤ × ℤ × ℕ) → key_lt a a ≡ false
unfolding key_lt pair_lt
key_lt_irrefl a = lex_irrefl a.0 _ (lex_irrefl a.1 _ (ground arith))

pub select-In :
    (keep : Candidate → Bool) (c : Candidate) (xs : List Candidate)
    → In c (select keep xs)
    → In c xs × (keep c ≡ true)
unfolding select
select-In keep c [] i = absurd i
select-In keep c (x ∷ xs) i = elim (Bool-cases (keep x)) [
  | inl e ↦ kept (select-In keep c xs) e (rw (e, select) at i)
  | inr e ↦ let (j, k) = select-In keep c xs (rw (e, select) at i) in (inr j, k)
]
  where
    kept :
        (In c (select keep xs) → In c xs × (keep c ≡ true))
        → keep x ≡ true
        → (x ≡ c) ⊎ In c (select keep xs)
        → In c (x ∷ xs) × (keep c ≡ true)
    kept rec e (inl h) = (inl h, rw (← h) e)
    kept rec e (inr j) = let (k, l) = rec j in (inr k, l)

-- A value that `select` keeps is selected.
pub In-select :
    (keep : Candidate → Bool) (c : Candidate) (xs : List Candidate)
    → In c xs
    → keep c ≡ true
    → In c (select keep xs)
unfolding select
In-select keep c [] i h = absurd i
In-select keep c (x ∷ xs) (inl e) h = rw (e, h) (inl refl)
In-select keep c (x ∷ xs) (inr i) h = elim (Bool-cases (keep x)) [
  | inl e ↦ rw e (inr (In-select keep c xs i h))
  | inr e ↦ rw e (In-select keep c xs i h)
]

skip : {A B C : Type 0} → A ⊎ C → A ⊎ (B ⊎ C)
skip (inl a) = inl a
skip (inr c) = inr (inr c)

module _ (f : Candidate → ℤ × ℤ × ℕ) where
  -- `r` stands among the values, and none of them is smaller.
  abbrev Least : Candidate → List Candidate → Candidate → Type 0
  Least best cs r =
      ((best ≡ r) ⊎ In r cs)
      × (key_lt (f best) (f r) ≡ false)
      × All (λ c. key_lt (f c) (f r) ≡ false) cs

  least_lem : (best : Candidate) (cs : List Candidate) → Least best cs (least f best cs)
  unfolding least
  least_lem best [] = (inl refl, key_lt_irrefl (f best), tt)
  least_lem best (c ∷ cs) = go (key_lt (f c) (f best)) refl (least_lem c cs) (least_lem best cs)
    where
      go :
          (b : Bool)
          → key_lt (f c) (f best) ≡ b
          → Least c cs (least f c cs)
          → Least best cs (least f best cs)
          → Least best (c ∷ cs) (least f (if b then c else best) cs)
      go true e (at, le, all) _ =
          (inr at, key_lt_trans (f best) (f c) _ (key_lt_asym (f c) (f best) e) le, (le, all))
      go false e _ (at, le, all) = (skip at, le, (key_lt_trans (f c) (f best) _ e le, all))

All-In : (P : Candidate → Type 0) (c : Candidate) (xs : List Candidate) → All P xs → In c xs → P c
All-In P c [] a i = absurd i
All-In P c (x ∷ xs) a (inl e) = subst P e a.0
All-In P c (x ∷ xs) a (inr i) = All-In P c xs a.1 i

pub min_by_key_lem :
    (f : Candidate → ℤ × ℤ × ℕ) (xs : List Candidate) (c : Candidate)
    → min_by_key f xs ≡ some c
    → In c xs × ((d : Candidate) → In d xs → key_lt (f d) (f c) ≡ false)
unfolding min_by_key
min_by_key_lem f [] c h = absurd (ground arith)
min_by_key_lem f (x ∷ xs) c h =
    let e : least f x xs ≡ c = cc in
    let (at, le, all) = least_lem f x xs in
    (
      rw e at at,
      λ d i. rw e at (All-In (λ d. key_lt (f d) (f (least f x xs)) ≡ false) d (x ∷ xs) (le, all) i),
    )
