-- ===== src/Model/Tab/Focus.antt =====
-- Moving the focus of a tab and resizing its panes.
use kitmux_linux.Base.{
  ◌≡◌, refl, sym, ◌∙◌, inl, inr, true, some, ◌==◌, leb, length, get_elem?, elem, if◌then◌else◌,
  arith, Bool-cases, Option-cases,
}
use kitmux_linux.Base.Int.{ℤ}
use kitmux_linux.Base.Map.{get, has, has-keys, In-has}
use kitmux_linux.Base.Vec.{position, elem-get}
use kitmux_linux.Ids.{PaneId, SplitId}
use kitmux_linux.Float.{Float}
use kitmux_linux.Split.{
  SplitNode, Direction, set_ratio, adjust_ratio, find_split, resize_target, ratio_delta,
}
use kitmux_linux.Split
use kitmux_linux.Split.Panes.{contains-elem}
use kitmux_linux.Split.Valid.{IsWellFormed}
use kitmux_linux.Split.Edits.{set_ratio-IsWellFormed, ratio-pane_ids}
use kitmux_linux.Layout.{PixelRect, PixelSize, SplitLayout, ratio_bounds, bounds_of}
use kitmux_linux.Layout
use kitmux_linux.Layout.Correct.{has-layout}
use kitmux_linux.Neighbor.{directional_neighbor}
use kitmux_linux.Neighbor.Choice.{neighbor-In}
use kitmux_linux.Model.Tab.{
  TabModel, focus, cycle_focus, move_focus, resize_focused, set_split_ratio, pane_ids, layout,
}
use kitmux_linux.Model.Selection.{wrapped_index}
use kitmux_linux.Model.Tab.Valid.{IsValid}
use kitmux_linux.Model.Tab.Removal.{map_id}

module _ {F : Type 0} ⦃f : Float F⦄ where
  -- The bounds that `ratio_bounds` gives are numbers.
  bounds-number :
      (n : SplitNode F) (rect : PixelRect) (gap : ℤ) (leaf : PixelSize) (lower upper : F)
      → bounds_of n rect gap leaf ≡ some (lower, upper)
      → (f.number lower ≡ true) × (f.number upper ≡ true)
  unfolding bounds_of
  bounds-number (SplitNode.pane i) rect gap leaf lower upper h = absurd (ground arith)
  bounds-number (SplitNode.split s a r m n) rect gap leaf lower upper h =
      let le : f.le lower upper ≡ true = ground arith in f.number-le lower upper le

  ratio_bounds-number :
      (n : SplitNode F) (id : SplitId) (rect : PixelRect) (gap : ℤ) (leaf : PixelSize) (b : F × F)
      → ratio_bounds n id rect gap leaf ≡ some b
      → (f.number b.0 ≡ true) × (f.number b.1 ≡ true)
  unfolding ratio_bounds
  ratio_bounds-number n id rect gap leaf b h = elim (Option-cases (find_split n id)) [
    | inl e ↦ absurd (ground arith)
    | inr (m, e) ↦ bounds-number m rect gap leaf b.0 b.1 (ground arith)
  ]

module _ {F T B : Type 0} ⦃f : Float F⦄ where
  focus_on :
      (t : TabModel F T B) (p : PaneId)
      → IsValid t
      → elem (Split.pane_ids t.root) p ≡ true
      → IsValid (record t { focused_pane_id = p })
  focus_on t p v h = record {
    tree = v.tree;
    registry = v.registry;
    agree = v.agree;
    focused = h;
    containers = v.containers;
  }

  -- Focusing a pane keeps a valid tab valid; it reports true exactly for a pane of the tree, and
  -- then the focus is on that pane, and else where it was.
  pub focus_lem :
      (t : TabModel F T B) (p : PaneId)
      → IsValid t
      → IsValid (focus t p).0
        × ((focus t p).1 ≡ elem (Split.pane_ids t.root) p)
        × ((focus t p).0.focused_pane_id ≡ (if (focus t p).1 then p else t.focused_pane_id))
  unfolding focus
  focus_lem t p v = elim (Bool-cases (has p t.panes)) [
    | inl e ↦ rw e (
      focus_on t p v (sym (v.agree p) ∙ sym (has-keys p t.panes) ∙ e),
      sym (sym (v.agree p) ∙ sym (has-keys p t.panes) ∙ e),
      refl,
    )
    | inr e ↦ rw e (v, sym (sym (v.agree p) ∙ sym (has-keys p t.panes) ∙ e), refl)
  ]

  -- Cycling the focus in either direction keeps a valid tab valid: its focus is on a pane of the
  -- tree.
  pub cycle_focus-IsValid :
      (t : TabModel F T B) (direction : ℤ) → IsValid t → IsValid (cycle_focus t direction).0
  unfolding cycle_focus pane_ids
  cycle_focus-IsValid t direction v =
      let ids = Split.pane_ids t.root in
      elim (Bool-cases (leb (length ids) 1)) [
        | inl e ↦ rw e v
        | inr e ↦ elim (Option-cases (position (λ id. id == t.focused_pane_id) ids)) [
          | inl n ↦ rw (e, n) v
          | inr (i, n) ↦
              elim (Option-cases (get_elem? ids (wrapped_index i direction (length ids)))) [
                | inl g ↦ rw (e, n, g) v
                | inr (p, g) ↦
                    rw (e, n, g) (focus_on t p v (rw map_id at (elem-get (λ x. x) ids _ p g)))
              ]
        ]
      ]

  -- The layout has frames only of panes of the tab.
  abbrev pub Shows : TabModel F T B → SplitLayout → Type 0
  Shows t shown =
      (q : PaneId) → has q shown.pane_frames ≡ true → elem (Split.pane_ids t.root) q ≡ true

  -- The layout of the tab's own tree is one.
  pub layout-Shows :
      (t : TabModel F T B) (rect : PixelRect) (gap : ℤ) (leaf : PixelSize)
      → Shows t (layout t rect gap leaf)
  unfolding layout
  layout-Shows t rect gap leaf q known =
      sym (contains-elem t.root q) ∙ sym (has-layout t.root rect gap leaf q) ∙ known

  -- Moving the focus in a direction over a layout of panes of the tab keeps a valid tab valid.
  pub move_focus-IsValid :
      (t : TabModel F T B) (direction : Direction) (shown : SplitLayout)
      → Shows t shown
      → IsValid t
      → IsValid (move_focus t direction shown).0
  unfolding move_focus
  move_focus-IsValid t direction shown shows v =
      let frames = shown.pane_frames in
      elim (Option-cases (directional_neighbor t.focused_pane_id direction frames (pane_ids t))) [
        | inl e ↦ rw e v
        | inr (q, e) ↦
            let (r, i) = neighbor-In t.focused_pane_id direction frames (pane_ids t) q e in
            rw e (focus_on t q v (shows q (In-has q r frames i)))
      ]

  with_root :
      (t : TabModel F T B) (root : SplitNode F)
      → IsValid t
      → IsWellFormed root
      → Split.pane_ids root ≡ Split.pane_ids t.root
      → IsValid (record t { root = root })
  with_root t root v w e = record {
    tree = w;
    registry = v.registry;
    agree = λ p. v.agree p ∙ rw e;
    focused = rw e v.focused;
    containers = v.containers;
  }

  with_ratio :
      (t : TabModel F T B) (id : SplitId) (ratio step : F) (b : F × F)
      → IsValid t
      → f.number b.0 ≡ true
      → f.number b.1 ≡ true
      → IsValid (record t { root = (set_ratio t.root id ratio b).0 })
        × IsValid (record t { root = (adjust_ratio t.root id step b).0 })
  with_ratio t id ratio step b v nl nu =
      let w = set_ratio-IsWellFormed t.root id ratio step b.0 b.1 nl nu v.tree in
      let e = ratio-pane_ids t.root id ratio step b in
      (with_root t _ v w.0 e.0, with_root t _ v w.1 e.1)

  -- Setting the ratio of a split and resizing the focused pane, within the bounds that the layout
  -- gives, keep a valid tab valid, for every ratio and every step, finite or not.
  pub resize-IsValid :
      (t : TabModel F T B) (direction : Direction) (id : SplitId) (ratio step : F)
      (rect : PixelRect) (gap : ℤ) (leaf : PixelSize)
      → IsValid t
      → IsValid (set_split_ratio t id ratio rect gap leaf).0
        × IsValid (resize_focused t direction rect gap leaf step).0
  unfolding set_split_ratio resize_focused layout
  resize-IsValid t direction id ratio step rect gap leaf v = (
    elim (Option-cases (ratio_bounds t.root id rect gap leaf)) [
      | inl e ↦ rw (e, set_split_ratio) v
      | inr (b, e) ↦
          let nb = ratio_bounds-number t.root id rect gap leaf b e in
          rw (e, set_split_ratio) (with_ratio t id ratio step b v nb.0 nb.1).0
    ],
    elim (Option-cases (resize_target t.root t.focused_pane_id direction)) [
      | inl e ↦ rw (e, resize_focused) v
      | inr (target, e) ↦
          elim (Option-cases
            (get target.split_id (Layout.layout t.root rect gap leaf).split_frames)) [
              | inl g ↦ rw (e, g, resize_focused) v
              | inr (r, g) ↦ elim (Option-cases (ratio_bounds t.root target.split_id r gap leaf)) [
                | inl h ↦ rw (e, g, h, resize_focused) v
                | inr (b, h) ↦
                    let nb = ratio_bounds-number t.root target.split_id r gap leaf b h in
                    rw (e, g, h, resize_focused)
                      (with_ratio t target.split_id ratio (ratio_delta target step) b v nb.0 nb.1).1
              ]
            ]
    ],
  )
