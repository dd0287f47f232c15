-- ===== src/Split/Valid.antt =====
-- The well-formedness that `has_unique_ids_and_valid_ratios` tests.
use mathlib.Core.Option
use kitmux_linux.Base.{
  ◌≡◌, refl, ◌↔◌, Bool, true, ◌&&◌, Option, none, some, List, [], ◌∷◌, ◌++◌, arith, if◌then◌else◌,
  Distinct, Option-cases, inl, inr,
}
use kitmux_linux.Base.Unique.{
  insert_all, insert_all-append, insert_all_sound, insert_all_complete, Apart-nil,
}
use kitmux_linux.Ids.{PaneId, SplitId}
use kitmux_linux.Float.{Float}
use kitmux_linux.Split.{
  SplitNode, pane, split, pane_ids, valid_ratio, visit, has_unique_ids_and_valid_ratios,
}
use kitmux_linux.Split.Panes.{pane_ids-pane, pane_ids-split}

-- The identifiers and the ratios of the splits, parents first.
module _ {F : Type 0} where
  abbrev pub split_ids : SplitNode F → List SplitId
  split_ids (pane i) = []
  split_ids (split s a r m n) = s ∷ (split_ids m ++ split_ids n)

  abbrev pub Ratios {ℓ} : (F → Type ℓ) → SplitNode F → Type ℓ
  Ratios P (pane i) = Unit
  Ratios P (split s a r m n) = P r × Ratios P m × Ratios P n

abbrev both : Option (List PaneId) → Option (List SplitId) → Option (List PaneId × List SplitId)
both (some ps) (some ss) = some (ps, ss)
both _ _ = none

module _ {F : Type 0} ⦃f : Float F⦄ where
  abbrev all_valid : SplitNode F → Bool
  all_valid (pane i) = true
  all_valid (split s a r m n) = valid_ratio r && (all_valid m && all_valid n)

  pub record IsWellFormed (n : SplitNode F) : Type 0 where
    pub panes : Distinct (pane_ids n)
    pub splits : Distinct (split_ids n)
    pub ratios : Ratios (λ r. valid_ratio r ≡ true) n

  visit_lem :
      (n : SplitNode F) (ps : List PaneId) (ss : List SplitId)
      → visit n (ps, ss) ≡ (
          if all_valid n
          then both (insert_all (pane_ids n) ps) (insert_all (split_ids n) ss)
          else none)
  unfolding visit insert_all Option.bind
  visit_lem (pane i) ps ss = rw (pane_ids-pane F) (ground arith)
  visit_lem (split s a r m n) ps ss =
      rw (pane_ids-split, insert_all-append)
        (go (insert_all (pane_ids m) ps) refl (insert_all (split_ids m) (s ∷ ss)) refl
          (visit_lem m ps (s ∷ ss)) (visit_lem n))
    where
      go :
          (x : Option (List PaneId))
          → insert_all (pane_ids m) ps ≡ x
          → (y : Option (List SplitId)) → insert_all (split_ids m) (s ∷ ss) ≡ y
          → visit m (ps, s ∷ ss) ≡ (
              if all_valid m
              then both (insert_all (pane_ids m) ps) (insert_all (split_ids m) (s ∷ ss))
              else none)
          → ((ps' : List PaneId) (ss' : List SplitId)
              → visit n (ps', ss') ≡ (
                  if all_valid n
                  then both (insert_all (pane_ids n) ps') (insert_all (split_ids n) ss')
                  else none))
          → visit (split s a r m n) (ps, ss) ≡ (
              if all_valid (split s a r m n)
              then both
                  (Option.bind (insert_all (pane_ids m) ps) (insert_all (pane_ids n)))
                  (insert_all (split_ids (split s a r m n)) ss)
              else none)
      go none ex y ey hm hn = ground (arith, insert_all-append (split_ids m) (split_ids n) (s ∷ ss))
      go (some ps') ex none ey hm hn =
          ground (arith, insert_all-append (split_ids m) (split_ids n) (s ∷ ss))
      go (some ps') ex (some ss') ey hm hn =
          ground (arith, insert_all-append (split_ids m) (split_ids n) (s ∷ ss), hn ps' ss')

  all_valid-Ratios : (n : SplitNode F) → (all_valid n ≡ true) ↔ Ratios (λ r. valid_ratio r ≡ true) n
  all_valid-Ratios (pane i) = ground arith
  all_valid-Ratios (split s a r m n) = ground (arith, all_valid-Ratios m, all_valid-Ratios n)

  -- The check has_unique_ids_and_valid_ratios accepts exactly the trees whose panes are distinct,
  -- whose splits are distinct, and whose ratios all pass the check of a ratio.
  pub has_unique_ids-iff-IsWellFormed :
      (n : SplitNode F) → (has_unique_ids_and_valid_ratios n ≡ true) ↔ IsWellFormed n
  unfolding has_unique_ids_and_valid_ratios
  has_unique_ids-iff-IsWellFormed n = (sound, complete)
    where
      sound : has_unique_ids_and_valid_ratios n ≡ true → IsWellFormed n
      sound h = elim (Option-cases (insert_all (pane_ids n) [])) [
        | inl e ↦ absurd (ground (arith, visit_lem n [] []))
        | inr (ps, e) ↦ elim (Option-cases (insert_all (split_ids n) [])) [
          | inl e' ↦ absurd (ground (arith, visit_lem n [] []))
          | inr (ss, e') ↦ record {
            panes = (insert_all_sound (pane_ids n) [] ps e).0;
            splits = (insert_all_sound (split_ids n) [] ss e').0;
            ratios = (all_valid-Ratios n).0 (ground (arith, visit_lem n [] []));
          }
        ]
      ]

      complete : IsWellFormed n → has_unique_ids_and_valid_ratios n ≡ true
      complete h =
          let (ps, e) = insert_all_complete (pane_ids n) [] h.panes (Apart-nil (pane_ids n)) in
          let (ss, e') = insert_all_complete (split_ids n) [] h.splits (Apart-nil (split_ids n)) in
          let v = (all_valid-Ratios n).1 h.ratios in ground (arith, visit_lem n [] [])
