-- ===== src/Model/Tab/Steps.antt =====
-- The states of a tab that the operations of kitmux-linux/rust/model/src/model.rs lead to.
use kitmux_linux.Base.{ℕ, ◌≡◌, ◌<◌, true, false, some, List, length, All, elem, subst}
use kitmux_linux.Base.Int.{ℤ}
use kitmux_linux.Base.Result.{ok}
use kitmux_linux.Ids.{TabId, PaneId, SplitId, SurfaceId}
use kitmux_linux.Float.{Float}
use kitmux_linux.Split.{SplitNode, SplitAxis, Direction, pane_ids}
use kitmux_linux.Split.Valid.{split_ids}
use kitmux_linux.Layout.{PixelRect, PixelSize, SplitLayout}
use kitmux_linux.Runtime.{PaneSurface, PaneContainer}
use kitmux_linux.Runtime.Container
use kitmux_linux.Model.Tab.{
  TabModel, new_tab, split_pane, remove_pane, swap_panes, focus, cycle_focus, move_focus,
  add_surface, select_surface, set_split_ratio, resize_focused,
}
use kitmux_linux.Model.Tab.Valid.{IsValid, new_tab-IsValid}
use kitmux_linux.Model.Tab.Edits.{
  split_pane-IsValid, swap_panes-IsValid, add_surface-IsValid, select_surface-IsValid,
}
use kitmux_linux.Model.Tab.Focus.{
  Shows, focus_lem, cycle_focus-IsValid, move_focus-IsValid, resize-IsValid,
}
use kitmux_linux.Model.Tab.Removal.{remove_pane_lem}

module _ {F T B : Type 0} ⦃f : Float F⦄ where
  -- One call of an operation on a tab.
  pub data Step : TabModel F T B → TabModel F T B → Type 0 where
    splitting :
        (fresh : SplitId) (t : TabModel F T B) (p : PaneId) (axis : SplitAxis)
        (new : PaneContainer T B) (t' : TabModel F T B)
        → Container.IsValid new
        → elem (split_ids t.root) fresh ≡ false
        → split_pane fresh t p axis new ≡ ok t'
        → Step t t'
    removing :
        (t : TabModel F T B) (p : PaneId) (t' : TabModel F T B) (c : PaneContainer T B)
        → 1 < length t.panes
        → elem (pane_ids t.root) p ≡ true
        → remove_pane t p ≡ some (t', some c)
        → Step t t'
    swapping : (t : TabModel F T B) (a b : PaneId) → Step t (swap_panes t a b).0
    focusing : (t : TabModel F T B) (p : PaneId) → Step t (focus t p).0
    cycling : (t : TabModel F T B) (direction : ℤ) → Step t (cycle_focus t direction).0
    moving :
        (t : TabModel F T B) (direction : Direction) (shown : SplitLayout)
        → Shows t shown
        → Step t (move_focus t direction shown).0
    adding :
        (t : TabModel F T B) (p : PaneId) (s : PaneSurface T B) (t' : TabModel F T B) (i : ℕ)
        → add_surface t p s ≡ ok (t', i)
        → Step t t'
    selecting :
        (t : TabModel F T B) (p : PaneId) (id : SurfaceId) → Step t (select_surface t p id).0
    setting_ratio :
        (t : TabModel F T B) (id : SplitId) (ratio : F) (rect : PixelRect) (gap : ℤ)
        (leaf : PixelSize)
        → Step t (set_split_ratio t id ratio rect gap leaf).0
    resizing :
        (t : TabModel F T B) (direction : Direction) (step : F) (rect : PixelRect) (gap : ℤ)
        (leaf : PixelSize)
        → Step t (resize_focused t direction rect gap leaf step).0

  -- The tabs that are made of valid containers, and what calls lead to from there.
  pub data Reachable : TabModel F T B → Type 0 where
    made :
        (id : TabId) (root : SplitNode F) (focused : PaneId) (ps : List (PaneContainer T B))
        (t : TabModel F T B)
        → All Container.IsValid ps
        → new_tab id root focused ps ≡ ok t
        → Reachable t
    stepped : (t t' : TabModel F T B) → Reachable t → Step t t' → Reachable t'

  removed_tab :
      (t : TabModel F T B) (p : PaneId) (t' : TabModel F T B) (c : PaneContainer T B)
      → IsValid t
      → 1 < length t.panes
      → elem (pane_ids t.root) p ≡ true
      → remove_pane t p ≡ some (t', some c)
      → IsValid t'
  removed_tab t p t' c v two h e =
      let (t1, c1, e1, r) = remove_pane_lem t p v two h in
      let same : t1 ≡ t' = cc in subst IsValid same r.valid

  Step-IsValid : (t t' : TabModel F T B) → IsValid t → Step t t' → IsValid t'
  Step-IsValid _ _ v (Step.splitting fresh t p axis new t' vn h e) =
      (split_pane-IsValid fresh t p axis new t' v vn h e).0
  Step-IsValid _ _ v (Step.removing t p t' c two h e) = removed_tab t p t' c v two h e
  Step-IsValid _ _ v (Step.swapping t a b) = swap_panes-IsValid t a b v
  Step-IsValid _ _ v (Step.focusing t p) = (focus_lem t p v).0
  Step-IsValid _ _ v (Step.cycling t direction) = cycle_focus-IsValid t direction v
  Step-IsValid _ _ v (Step.moving t direction shown shows) =
      move_focus-IsValid t direction shown shows v
  Step-IsValid _ _ v (Step.adding t p s t' i e) = add_surface-IsValid t p s t' i v e
  Step-IsValid _ _ v (Step.selecting t p id) = select_surface-IsValid t p id v
  Step-IsValid _ _ v (Step.setting_ratio t id ratio rect gap leaf) =
      (resize-IsValid t Direction.left id ratio ratio rect gap leaf v).0
  Step-IsValid _ _ v (Step.resizing t direction step rect gap leaf) =
      (resize-IsValid t direction 0 step step rect gap leaf v).1

  -- Every tab that TabModel::new makes of valid containers and any sequence of splits, removals,
  -- swaps, changes of the focus, additions and selections of surfaces and changes of ratios leads
  -- to is valid, where a new container is valid, a new split has an identifier that the tree does
  -- not have, a removal is one of a pane of the tree that leaves another, and a move of the focus
  -- in a direction goes over a layout that has frames only of panes of the tree, as the tab's own
  -- has.
  pub Reachable-IsValid : (t : TabModel F T B) → Reachable t → IsValid t
  Reachable-IsValid _ (Reachable.made id root focused ps t vs e) =
      new_tab-IsValid id root focused ps t vs e
  Reachable-IsValid _ (Reachable.stepped t t' r s) = Step-IsValid t t' (Reachable-IsValid t r) s
