-- ===== src/Model/Tab/Removal.antt =====
-- Removing a pane from a tab.
use kitmux_linux.Base.{
  ℕ, suc, ◌+◌, ◌-◌, ◌≤◌, ◌<◌, ◌≡◌, ◌≢◌, refl, sym, ap, ◌∙◌, inl, inr, true, false, none, some, List,
  [], ◌∷◌, map, ◌==◌, leb, ltb, length, get_elem?, elem, if◌then◌else◌, arith, Distinct, Bool-cases,
  Option-cases, ==_iff,
}
use kitmux_linux.Base.Map.{get, remove, keys, has-keys, remove-keys, remove-Distinct, remove-All}
use kitmux_linux.Base.Vec.{
  position_sound, position_complete, lt_of_get, get_elem?-some, Distinct-get, elem-get, get-elem,
}
use kitmux_linux.Ids.{PaneId}
use kitmux_linux.Float.{Float}
use kitmux_linux.Split.{SplitNode, removing_pane}
use kitmux_linux.Split
use kitmux_linux.Split.Panes.{erase_first, left_panes, pane_ids-removing_pane}
use kitmux_linux.Split.Edits.{removing_pane-IsWellFormed, elem-erase_first}
use kitmux_linux.Runtime.{PaneContainer}
use kitmux_linux.Model.Tab.{TabModel, replacement, remove_pane, pane_ids}
use kitmux_linux.Model.Tab.Valid.{IsValid, Entry}

pub map_id : (xs : List ℕ) → map (λ x. x) xs ≡ xs
map_id [] = refl
map_id (x ∷ xs) = ap (◌∷◌ x) (map_id xs)

-- With two panes or more the replacement is another pane.
replacement_lem :
    (order : List PaneId) (i p : ℕ)
    → Distinct order
    → 1 < length order
    → get_elem? order i ≡ some p
    → (q : PaneId) × (replacement order i ≡ some q) × (elem order q ≡ true) × ((p == q) ≡ false)
unfolding replacement
replacement_lem order i p d two g =
    let lt = lt_of_get order i p g in
    elim (Bool-cases (ltb (i + 1) (length order))) [
      | inl e ↦
          let (q, h) = get_elem?-some order (i + 1) (ground arith) in
          (q, rw e h, in_order (i + 1) q h, differs (i + 1) q h (omega arith))
      | inr e ↦
          let l : i + 1 ≡ length order = ground arith in
          let (q, h) = get_elem?-some order (i - 1) (omega arith) in
          (q, rw e h, in_order (i - 1) q h, differs (i - 1) q h (omega arith))
    ]
  where
    in_order : (j q : ℕ) → get_elem? order j ≡ some q → elem order q ≡ true
    in_order j q h = rw map_id at (elem-get (λ x. x) order j q h)

    differs : (j q : ℕ) → get_elem? order j ≡ some q → i ≢ j → (p == q) ≡ false
    differs j q h n = elim (Bool-cases (p == q)) [
      | inl e ↦
          absurd (n (Distinct-get (λ x. x) order i j p q (rw map_id d) g h ((==_iff p q).0 e)))
      | inr e ↦ e
    ]

length-keys {ℓ} : {V : Type ℓ} (m : List (ℕ × V)) → length (keys m) ≡ length m
length-keys [] = refl
length-keys ((k, v) ∷ m) = ap suc (length-keys m)

length-erase_first : (p : ℕ) (xs : List ℕ) → length xs ≤ suc (length (erase_first p xs))
unfolding erase_first
length-erase_first p [] = omega arith
length-erase_first p (x ∷ xs) = ground (arith, length-erase_first p xs)

-- Two distinct keys make two panes.
two_panes :
    (ks ids : List ℕ)
    → Distinct ks
    → ((p : ℕ) → elem ks p ≡ elem ids p)
    → 1 < length ks
    → 1 < length ids
unfolding elem
two_panes [] ids d a h = absurd (omega arith)
two_panes (k ∷ []) ids d a h = absurd (omega arith)
two_panes (k ∷ j ∷ ks) [] d a h = absurd (ground (arith, a k))
two_panes (k ∷ j ∷ ks) (x ∷ []) d a h = absurd (ground (arith, a k, a j))
two_panes (k ∷ j ∷ ks) (x ∷ y ∷ ids) d a h = omega arith

module _ {F T B : Type 0} ⦃f : Float F⦄ where
  pub record Removed (t : TabModel F T B) (p : PaneId) (t' : TabModel F T B) (c : PaneContainer T B)
      : Type 0 where
    pub valid : IsValid t'
    pub container : get p t.panes ≡ some c
    pub order : Split.pane_ids t'.root ≡ erase_first p (Split.pane_ids t.root)
    pub focus_kept :
        t'.focused_pane_id
        ≡ (if t.focused_pane_id == p then t'.focused_pane_id else t.focused_pane_id)
    pub same_tab : (t'.id ≡ t.id) × (t'.custom_title ≡ t.custom_title)

  -- Removing a pane from a valid tab of at least two panes, one of them that pane, succeeds and
  -- does not panic: it hands over the container of the pane and leaves a valid tab with the other
  -- panes in their order, whose focus has moved only if the removed pane had it.
  pub remove_pane_lem :
      (t : TabModel F T B) (p : PaneId)
      → IsValid t
      → 1 < length t.panes
      → elem (Split.pane_ids t.root) p ≡ true
      → (t' : TabModel F T B) × (c : PaneContainer T B) × (remove_pane t p ≡ some (t', some c))
        × Removed t p t' c
  unfolding remove_pane pane_ids
  remove_pane_lem t p v two h =
      let ids = Split.pane_ids t.root in
      let two' : 1 < length ids =
        two_panes (keys t.panes) ids v.registry v.agree (omega (arith, length-keys t.panes)) in
      let (k, x, gk, ek) = get-elem (λ y. y) ids p (rw map_id h) in
      let (i, ei) = position_complete (λ y. y == p) ids k x gk ((==_iff x p).1 ek) in
      let (y, gi, ty) = position_sound (λ y. y == p) ids i ei in
      let gi' : get_elem? ids i ≡ some p = gi ∙ ap some ((==_iff y p).0 ty) in
      let (q, rq, eq, ne) = replacement_lem ids i p v.tree.panes two' gi' in
      let order = pane_ids-removing_pane t.root p in
      elim (Option-cases (removing_pane t.root p)) [
        | inl n ↦ absurd (shrunk ids n (order) two')
        | inr (root, er) ↦ elim (Option-cases (get p t.panes)) [
          | inl n ↦ absurd (ground (arith, v.agree p, has-keys p t.panes))
          | inr (c, g) ↦
              let order' : Split.pane_ids root ≡ erase_first p ids =
                ap left_panes (sym er) ∙ order in
              let t' : TabModel F T B = record t {
                root = root;
                focused_pane_id = if t.focused_pane_id == p then q else t.focused_pane_id;
                panes = remove p t.panes;
              } in
              let many : leb (length t.panes) 1 ≡ false = ground arith in
              (
                t',
                c,
                rw (many, ei, er, rq, g),
                record {
                  valid = record {
                    tree = removing_pane-IsWellFormed t.root root p v.tree er;
                    registry = remove-Distinct p t.panes v.registry;
                    agree = λ r. ground (
                      arith,
                      remove-keys p r t.panes v.registry,
                      v.agree r,
                      elem-erase_first p r ids v.tree.panes,
                      order',
                    );
                    focused = rw order' (
                        ground (
                          arith,
                          elem-erase_first p q ids v.tree.panes,
                          elem-erase_first p t.focused_pane_id ids v.tree.panes,
                        ));
                    containers = remove-All Entry p t.panes v.containers;
                  };
                  container = g;
                  order = order';
                  focus_kept = ground arith;
                  same_tab = (refl, refl);
                },
              )
        ]
      ]
    where
      shrunk :
          (ids : List ℕ)
          → removing_pane t.root p ≡ none
          → left_panes (removing_pane t.root p) ≡ erase_first p ids
          → 1 < length ids
          → ⊥
      shrunk ids n o l =
          let e : erase_first p ids ≡ [] = sym o ∙ ap left_panes n in
          omega (arith, length-erase_first p ids, ap length e)
