-- ===== src/Split/Shape.antt =====
-- What an edit of the split tree does to its identifiers, its ratios and its panes.
use mathlib.Core.List.{append-nil}
use kitmux_linux.Base.{
  ℕ, ◌≡◌, refl, ap, Bool, true, false, Option, none, some, List, [], ◌∷◌, ◌++◌, map, ◌==◌, arith,
  elem, Distinct, inl, inr, Bool-cases, ==_iff,
}
use kitmux_linux.Base.Adds.{Adds, here, there, Adds-append_left, Adds-append_right}
use kitmux_linux.Ids.{PaneId, SplitId}
use kitmux_linux.Float.{Float}
use kitmux_linux.Split.{
  SplitNode, pane, split, SplitAxis, pane_ids, removing, swap_panes_unchecked, split_mut,
  finite_ratio_or_default, with_id, split_pane_unchecked,
}
use kitmux_linux.Split.Panes.{insert_after, erase_first, exchange, pane_ids-split}
use kitmux_linux.Split.Valid.{split_ids, Ratios}

pub insert_after-Adds :
    (p new : ℕ) (xs : List ℕ) → elem xs p ≡ true → Adds new xs (insert_after p new xs)
unfolding insert_after elem
insert_after-Adds p new [] h = absurd (ground arith)
insert_after-Adds p new (x ∷ xs) h = elim (Bool-cases (x == p)) [
  | inl e ↦ rw e (there here)
  | inr e ↦ rw e (there (insert_after-Adds p new xs (ground arith)))
]

pub erase_first-Adds : (p : ℕ) (xs : List ℕ) → elem xs p ≡ true → Adds p (erase_first p xs) xs
unfolding erase_first elem
erase_first-Adds p [] h = absurd (ground arith)
erase_first-Adds p (x ∷ xs) h = elim (Bool-cases (x == p)) [
  | inl e ↦ rw (e, (==_iff x p).0 e) here
  | inr e ↦ rw e (there (erase_first-Adds p xs (ground arith)))
]

pub elem-exchange :
    (a b i : ℕ) (xs : List ℕ) → elem (map (exchange a b) xs) (exchange a b i) ≡ elem xs i
unfolding elem exchange
elem-exchange a b i [] = refl
elem-exchange a b i (x ∷ xs) = ground (arith, elem-exchange a b i xs)

pub exchange-Distinct : (a b : ℕ) (xs : List ℕ) → Distinct xs → Distinct (map (exchange a b) xs)
exchange-Distinct a b [] d = tt
exchange-Distinct a b (x ∷ xs) d =
    (ground (arith, elem-exchange a b x xs), exchange-Distinct a b xs d.1)

module _ {F : Type 0} where
  pane_ids_cong :
      (s : SplitId) (a : SplitAxis) (r r' : F) (m m' n n' : SplitNode F)
      → pane_ids m' ≡ pane_ids m
      → pane_ids n' ≡ pane_ids n
      → pane_ids (split s a r' m' n') ≡ pane_ids (split s a r m n)
  pane_ids_cong s a r r' m m' n n' h k = cc (pane_ids-split s a r m n, pane_ids-split s a r' m' n')

module _ {F : Type 0} (P : F → Type 0) where
  pub swap_unchecked-shape :
      (n : SplitNode F) (a b : PaneId)
      → (split_ids (swap_panes_unchecked n a b) ≡ split_ids n)
        × (Ratios P n → Ratios P (swap_panes_unchecked n a b))
  unfolding swap_panes_unchecked
  swap_unchecked-shape (pane i) a b = elim (Bool-cases (i == a)) [
    | inl e ↦ rw e (refl, λ h. tt)
    | inr e ↦ rw e (elim (Bool-cases (i == b)) [
      | inl e' ↦ rw e' (refl, λ h. tt)
      | inr e' ↦ rw e' (refl, λ h. tt)
    ])
  ]
  swap_unchecked-shape (split s x r m n) a b =
      let hm = swap_unchecked-shape m a b in
      let hn = swap_unchecked-shape n a b in (rw (hm.0, hn.0), λ h. (h.0, hm.1 h.1, hn.1 h.2))

  pub split_mut-shape :
      (n : SplitNode F) (id : SplitId) (write : F → F)
      → ((r : F) → P r → P (write r))
      → (pane_ids (split_mut n id write).0 ≡ pane_ids n)
        × (split_ids (split_mut n id write).0 ≡ split_ids n)
        × (Ratios P n → Ratios P (split_mut n id write).0)
  unfolding split_mut
  split_mut-shape (pane i) id write keep = (refl, refl, λ h. h)
  split_mut-shape (split s a r m n) id write keep =
      let hm = split_mut-shape m id write keep in
      let hn = split_mut-shape n id write keep in
      elim (Bool-cases (s == id)) [
        | inl e ↦
            rw e
              (pane_ids_cong s a r (write r) m m n n refl refl, refl, λ h. (keep r h.0, h.1, h.2))
        | inr e ↦ elim (Bool-cases (split_mut m id write).1) [
          | inl e' ↦
              rw (e, e')
                (
                  pane_ids_cong s a r r m _ n n hm.0 refl,
                  ap (λ xs. s ∷ (xs ++ split_ids n)) hm.1,
                  λ h. (h.0, hm.2 h.1, h.2),
                )
          | inr e' ↦
              rw (e, e')
                (
                  pane_ids_cong s a r r m m n _ refl hn.0,
                  ap (λ xs. s ∷ (split_ids m ++ xs)) hn.1,
                  λ h. (h.0, h.1, hn.2 h.2),
                )
        ]
      ]

-- What is left after a removal: a child of the split that held the pane moves up, so one split
-- goes with the pane.
module _ {F : Type 0} (P : F → Type 0) where
  abbrev pub Left : SplitNode F → Option (SplitNode F) → Type 0
  Left n none = split_ids n ≡ []
  Left n (some m) = ((s : SplitId) × Adds s (split_ids m) (split_ids n)) × (Ratios P n → Ratios P m)

  pub removing-Left :
      (n : SplitNode F) (p : PaneId) → (removing n p).1 ≡ true → Left n (removing n p).0
  unfolding removing
  removing-Left (pane i) p h = elim (Bool-cases (i == p)) [
    | inl e ↦ rw e refl
    | inr e ↦ absurd (ground arith)
  ]
  removing-Left (split s a r m n) p h =
      go (removing m p) (removing n p) refl refl (removing-Left m p) (removing-Left n p)
    where
      go :
          (x y : Option (SplitNode F) × Bool)
          → removing m p ≡ x
          → removing n p ≡ y
          → (x.1 ≡ true → Left m x.0)
          → (y.1 ≡ true → Left n y.0)
          → Left (split s a r m n) (removing (split s a r m n) p).0
      go (some m', true) y ex ey hm hn =
          let ((t, l), k) = hm refl in
          rw ex ((t, there (Adds-append_left _ l)), λ g. (g.0, k g.1, g.2))
      go (none, true) y ex ey hm hn = rw (ex, hm refl) ((s, here), λ g. g.2)
      go (_, false) (some n', true) ex ey hm hn =
          let ((t, l), k) = hn refl in
          rw (ex, ey) ((t, there (Adds-append_right _ l)), λ g. (g.0, g.1, k g.2))
      go (_, false) (none, true) ex ey hm hn =
          rw (ex, ey, hn refl) ((s, rw append-nil here), λ g. g.1)
      go (_, false) (_, false) ex ey hm hn = absurd (ground arith)

module _ {F : Type 0} ⦃f : Float F⦄ where
  pub split_unchecked_id :
      (fresh : SplitId) (n : SplitNode F) (p : PaneId) (axis : SplitAxis) (new : PaneId)
      → (split_pane_unchecked fresh n p axis new).1 ≡ false
      → (split_pane_unchecked fresh n p axis new).0 ≡ n
  unfolding split_pane_unchecked
  split_unchecked_id fresh (pane i) p axis new h = ground arith
  split_unchecked_id fresh (split s a r m n) p axis new h =
      ground (arith, split_unchecked_id fresh m p axis new, split_unchecked_id fresh n p axis new)

  pub split_unchecked-Adds :
      (fresh : SplitId) (n : SplitNode F) (p : PaneId) (axis : SplitAxis) (new : PaneId)
      → (split_pane_unchecked fresh n p axis new).1 ≡ true
      → Adds fresh (split_ids n) (split_ids (split_pane_unchecked fresh n p axis new).0)
  unfolding split_pane_unchecked with_id
  split_unchecked-Adds fresh (pane i) p axis new h = elim (Bool-cases (i == p)) [
    | inl e ↦ rw e here
    | inr e ↦ absurd (ground arith)
  ]
  split_unchecked-Adds fresh (split s a r m n) p axis new h =
      elim (Bool-cases (split_pane_unchecked fresh m p axis new).1) [
        | inl e ↦ rw e (there (Adds-append_left _ (split_unchecked-Adds fresh m p axis new e)))
        | inr e ↦
            rw (e, split_unchecked_id fresh m p axis new e)
              (there (Adds-append_right _ (split_unchecked-Adds fresh n p axis new (ground arith))))
      ]

  pub split_unchecked-Ratios :
      (P : F → Type 0) (fresh : SplitId) (n : SplitNode F) (p : PaneId) (axis : SplitAxis)
      (new : PaneId)
      → P (finite_ratio_or_default f.half)
      → Ratios P n
      → Ratios P (split_pane_unchecked fresh n p axis new).0
  unfolding split_pane_unchecked with_id
  split_unchecked-Ratios P fresh (pane i) p axis new k h = elim (Bool-cases (i == p)) [
    | inl e ↦ rw e (k, tt, tt)
    | inr e ↦ rw e tt
  ]
  split_unchecked-Ratios P fresh (split s a r m n) p axis new k h =
      let hm = split_unchecked-Ratios P fresh m p axis new k h.1 in
      let hn = split_unchecked-Ratios P fresh n p axis new k h.2 in
      elim (Bool-cases (split_pane_unchecked fresh m p axis new).1) [
        | inl e ↦ rw e (h.0, hm, h.2)
        | inr e ↦ rw e (h.0, hm, hn)
      ]
