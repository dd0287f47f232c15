-- ===== src/Split/Edits.antt =====
-- Well-formedness under the edits of the split tree.
use kitmux_linux.Base.{
  ◌&&◌, ℕ, ◌≡◌, ap, sym, ◌∙◌, true, false, ◌||◌, not, some, List, [], ◌∷◌, ◌==◌, arith, elem,
  if◌then◌else◌, Distinct, inl, inr, Bool-cases,
}
use kitmux_linux.Base.Adds.{Adds, elem-Adds, Adds-Distinct, Distinct-Adds}
use kitmux_linux.Ids.{PaneId, SplitId}
use kitmux_linux.Float.{Float}
use kitmux_linux.Split.{
  SplitNode, SplitAxis, pane_ids, contains, removing, removing_pane, swap_panes, split_mut,
  valid_ratio, split_pane_unchecked, split_pane, clamp_to_bounds, adjust_ratio, set_ratio,
}
use kitmux_linux.Split.Panes.{
  insert_after, erase_first, exchange, left_panes, contains-elem, removing_lem, swap_unchecked_lem,
  split_unchecked_lem,
}
use kitmux_linux.Split.Ratio.{clamp_to_bounds-valid, default-valid}
use kitmux_linux.Split.Valid.{split_ids, IsWellFormed}
use kitmux_linux.Split.Shape.{
  insert_after-Adds, erase_first-Adds, elem-exchange, exchange-Distinct, swap_unchecked-shape,
  split_mut-shape, Left, removing-Left, split_unchecked_id, split_unchecked-Adds,
  split_unchecked-Ratios,
}

module _ {F : Type 0} ⦃f : Float F⦄ where
  -- Splitting a pane keeps a tree well formed, if the identifier drawn for the new split is not
  -- in the tree.
  pub split_pane-IsWellFormed :
      (fresh : SplitId) (n : SplitNode F) (p : PaneId) (axis : SplitAxis) (new : PaneId)
      → elem (split_ids n) fresh ≡ false
      → IsWellFormed n
      → IsWellFormed (split_pane fresh n p axis new).0
  unfolding split_pane
  split_pane-IsWellFormed fresh n p axis new h w = elim (Bool-cases (contains n new)) [
    | inl e ↦ rw e w
    | inr e ↦ rw e (elim (Bool-cases (split_pane_unchecked fresh n p axis new).1) [
      | inl e' ↦
          let spec = split_unchecked_lem fresh n p axis new in
          record {
            panes = rw spec.1 (
                Adds-Distinct (insert_after-Adds p new (pane_ids n) (sym spec.0 ∙ e'))
                  (sym (contains-elem n new) ∙ e) w.panes);
            splits = Adds-Distinct (split_unchecked-Adds fresh n p axis new e') h w.splits;
            ratios =
                split_unchecked-Ratios (λ r. valid_ratio r ≡ true) fresh n p axis new
                  (default-valid F) w.ratios;
          }
      | inr e' ↦ rw (split_unchecked_id fresh n p axis new e') w
    ])
  ]

  -- What a removal leaves of a well-formed tree, if it leaves a tree, is well formed.
  pub removing_pane-IsWellFormed :
      (n m : SplitNode F) (p : PaneId)
      → IsWellFormed n
      → removing_pane n p ≡ some m
      → IsWellFormed m
  unfolding removing_pane
  removing_pane-IsWellFormed n m p w h = elim (Bool-cases (removing n p).1) [
    | inl e ↦
        let left : (removing n p).0 ≡ some m = ground arith in
        let l : Left (λ r. valid_ratio r ≡ true) n (some m) =
          rw left at (removing-Left (λ r. valid_ratio r ≡ true) n p e) in
        let spec = removing_lem n p in
        let adds : Adds p (pane_ids m) (pane_ids n) =
          rw (ap left_panes (sym left) ∙ spec.1)
            (erase_first-Adds p (pane_ids n) (sym spec.0 ∙ e)) in
        record {
          panes = (Distinct-Adds adds w.panes).1;
          splits = (Distinct-Adds l.0.1 w.splits).1;
          ratios = l.1 w.ratios;
        }
    | inr e ↦ let same : n ≡ m = ground arith in rw (← same) w
  ]

  -- Swapping two panes keeps a tree well formed.
  pub swap_panes-IsWellFormed :
      (n : SplitNode F) (a b : PaneId) → IsWellFormed n → IsWellFormed (swap_panes n a b).0
  unfolding swap_panes
  swap_panes-IsWellFormed n a b w =
      elim (Bool-cases (a == b || not (contains n a) || not (contains n b))) [
        | inl e ↦ rw e w
        | inr e ↦
            let shape = swap_unchecked-shape (λ r. valid_ratio r ≡ true) n a b in
            rw e (record {
              panes = rw (swap_unchecked_lem n a b) (exchange-Distinct a b (pane_ids n) w.panes);
              splits = rw shape.0 w.splits;
              ratios = shape.1 w.ratios;
            })
      ]

  finite_of_valid : (r : F) → valid_ratio r ≡ true → f.finite r ≡ true
  unfolding valid_ratio
  finite_of_valid r h = ground arith

  split_mut-IsWellFormed :
      (n : SplitNode F) (id : SplitId) (write : F → F)
      → ((r : F) → valid_ratio r ≡ true → valid_ratio (write r) ≡ true)
      → IsWellFormed n
      → IsWellFormed (split_mut n id write).0
  split_mut-IsWellFormed n id write keep w =
      let shape = split_mut-shape (λ r. valid_ratio r ≡ true) n id write keep in
      record { panes = rw shape.0 w.panes; splits = rw shape.1 w.splits; ratios = shape.2 w.ratios }

  -- Setting or adjusting a ratio within bounds that are not NaN keeps a tree well formed, also
  -- when the ratio or the step is not finite.
  pub set_ratio-IsWellFormed :
      (n : SplitNode F) (id : SplitId) (ratio step lower upper : F)
      → f.number lower ≡ true
      → f.number upper ≡ true
      → IsWellFormed n
      → IsWellFormed (set_ratio n id ratio (lower, upper)).0
        × IsWellFormed (adjust_ratio n id step (lower, upper)).0
  unfolding set_ratio adjust_ratio
  set_ratio-IsWellFormed n id ratio step lower upper nl nu w =
      (split_mut-IsWellFormed n id _ set_valid w, split_mut-IsWellFormed n id _ adjust_valid w)
    where
      set_valid :
          (r : F)
          → valid_ratio r ≡ true
          → valid_ratio (if f.finite ratio then clamp_to_bounds ratio (lower, upper) else r) ≡ true
      set_valid r h = elim (Bool-cases (f.finite ratio)) [
        | inl e ↦ rw e (clamp_to_bounds-valid F ratio lower upper (f.number-finite ratio e) nl nu)
        | inr e ↦ rw e h
      ]

      adjust_valid :
          (r : F)
          → valid_ratio r ≡ true
          → valid_ratio (clamp_to_bounds (if f.finite step then f.add r step else r) (lower, upper))
            ≡ true
      adjust_valid r h = elim (Bool-cases (f.finite step)) [
        | inl e ↦ rw e (
            clamp_to_bounds-valid F _ lower upper (f.number-add r step (finite_of_valid r h) e) nl
              nu)
        | inr e ↦
            rw e (
              clamp_to_bounds-valid F r lower upper (f.number-finite r (finite_of_valid r h)) nl nu)
      ]

-- The panes after each edit.
pub elem-insert_after :
    (p new i : ℕ) (xs : List ℕ)
    → elem xs p ≡ true
    → elem (insert_after p new xs) i ≡ (new == i || elem xs i)
elem-insert_after p new i xs h = elem-Adds (insert_after-Adds p new xs h) i

pub elem-erase_first :
    (p i : ℕ) (xs : List ℕ) → Distinct xs → elem (erase_first p xs) i ≡ (not (p == i) && elem xs i)
unfolding erase_first elem
elem-erase_first p i [] d = ground arith
elem-erase_first p i (x ∷ xs) d = ground (arith, elem-erase_first p i xs d.1)

exchange_twice : (a b i : ℕ) → exchange a b (exchange a b i) ≡ i
unfolding exchange
exchange_twice a b i = ground arith

module _ {F : Type 0} where
  pub elem-swap_panes :
      (n : SplitNode F) (a b i : PaneId)
      → elem (pane_ids (swap_panes n a b).0) i ≡ elem (pane_ids n) i
  unfolding swap_panes exchange
  elem-swap_panes n a b i =
      let e = elem-exchange a b (exchange a b i) (pane_ids n) in
      ground (
        arith,
        swap_unchecked_lem n a b,
        e,
        exchange_twice a b i,
        contains-elem n a,
        contains-elem n b,
      )

-- A ratio does not touch the panes.
module _ {F : Type 0} ⦃f : Float F⦄ where
  pub ratio-pane_ids :
      (n : SplitNode F) (id : SplitId) (ratio step : F) (b : F × F)
      → (pane_ids (set_ratio n id ratio b).0 ≡ pane_ids n)
        × (pane_ids (adjust_ratio n id step b).0 ≡ pane_ids n)
  unfolding set_ratio adjust_ratio
  ratio-pane_ids n id ratio step b = (
    (split_mut-shape (λ _. Unit) n id _ (λ r h. h)).0,
    (split_mut-shape (λ _. Unit) n id _ (λ r h. h)).0,
  )
