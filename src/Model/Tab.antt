-- ===== src/Model/Tab.antt =====
-- `TabModel` of kitmux-linux/rust/model/src/model.rs: a split tree of panes with the focused pane
-- and the registry of the panes' containers.
pub mod Valid
pub mod Edits
pub mod Removal
pub mod Steps
pub mod Focus
use mathlib.Core.Option
use kitmux_linux.Base.{
  ℕ, suc, ◌+◌, ◌-◌, Bool, true, false, ◌&&◌, ◌||◌, not, Option, none, some, List, [], ◌∷◌, map,
  ◌==◌, leb, ltb, length, get_elem?, elem, if◌then◌else◌,
}
use kitmux_linux.Base.Int.{ℤ}
use kitmux_linux.Base.Map.{get, has, insert, remove, keys}
use kitmux_linux.Base.Result.{Result, ok, err}
use kitmux_linux.Base.Vec.{position}
use kitmux_linux.Ids.{PaneId, SplitId, SurfaceId, TabId}
use kitmux_linux.Float.{Float}
use kitmux_linux.Split.{
  SplitNode, SplitAxis, Direction, ResizeTarget, has_unique_ids_and_valid_ratios, removing_pane,
  resize_target, adjust_ratio, set_ratio, ratio_delta,
}
use kitmux_linux.Split
use kitmux_linux.Layout.{PixelRect, PixelSize, SplitLayout, ratio_bounds}
use kitmux_linux.Layout
use kitmux_linux.Neighbor.{directional_neighbor}
use kitmux_linux.Runtime.{
  Runtimes, PaneSurface, PaneContainer, PaneContainerError, close_container, pump_container,
}
use kitmux_linux.Runtime
use kitmux_linux.Model.Error.{
  ModelError, invalid_split_tree, pane_registry_mismatch, unknown_pane, duplicate_pane,
  surface_error,
}
use kitmux_linux.Text.{Text, same_text}
use kitmux_linux.Model.Label.{normalized_label}
use kitmux_linux.Model.Selection.{wrapped_index}

pub record TabModel (F T B : Type 0) : Type 0 where
  pub id : TabId
  pub custom_title : Option Text
  pub root : SplitNode F
  pub focused_pane_id : PaneId
  pub panes : List (PaneId × PaneContainer T B)

-- Every identifier of the first list is in the second.
unfoldable pub subset : List ℕ → List ℕ → Bool
subset [] ys = true
subset (x ∷ xs) ys = elem ys x && subset xs ys

-- Equality of `HashSet`s.
unfoldable pub same_set : List ℕ → List ℕ → Bool
unfolding subset
same_set xs ys = subset xs ys && subset ys xs

unfoldable pub same_title : Option Text → Option Text → Bool
same_title none none = true
same_title (some a) (some b) = same_text a b
same_title _ _ = false

module _ {T B : Type 0} where
  -- The loop of `TabModel::new` that fills the registry.
  unfoldable pub register :
      List (PaneContainer T B)
      → List (PaneId × PaneContainer T B)
      → Result (List (PaneId × PaneContainer T B)) ModelError
  register [] registry = ok registry
  register (p ∷ ps) registry =
      let rest = register ps (insert p.id p registry) in
      if has p.id registry then err (duplicate_pane p.id) else rest

-- The pane behind the removed one, or before it if it is the last.
unfoldable pub replacement : List PaneId → ℕ → Option PaneId
replacement order index =
    if ltb (index + 1) (length order)
    then get_elem? order (index + 1)
    else get_elem? order (index - 1)

module _ {F T B : Type 0} where
  unfoldable pub rename : TabModel F T B → Option Text → TabModel F T B × Bool
  rename t title =
      let title' = Option.bind title normalized_label in
      if same_title t.custom_title title'
      then (t, false)
      else (record t { custom_title = title' }, true)

  unfoldable pub pane_ids : TabModel F T B → List PaneId
  pane_ids t = Split.pane_ids t.root

  unfoldable pub pane_count : TabModel F T B → ℕ
  pane_count t = length t.panes

  unfoldable pub focus : TabModel F T B → PaneId → TabModel F T B × Bool
  focus t p = if has p t.panes then (record t { focused_pane_id = p }, true) else (t, false)

  unfoldable pub focus_found : TabModel F T B → Option PaneId → TabModel F T B × Bool
  focus_found t none = (t, false)
  focus_found t (some p) = (record t { focused_pane_id = p }, true)

  -- The index is in bounds, so that `focus_found` gets `none` only where the source returns false.
  unfoldable pub cycle_focus : TabModel F T B → ℤ → TabModel F T B × Bool
  unfolding pane_ids focus_found
  cycle_focus t direction =
      let ids = pane_ids t in
      if leb (length ids) 1
      then (t, false)
      else elim (position (λ id. id == t.focused_pane_id) ids) [
        | none ↦ (t, false)
        | some index ↦ focus_found t (get_elem? ids (wrapped_index index direction (length ids)))
      ]

  unfoldable pub move_focus : TabModel F T B → Direction → SplitLayout → TabModel F T B × Bool
  unfolding pane_ids focus_found
  move_focus t direction layout =
      focus_found t
        (directional_neighbor t.focused_pane_id direction layout.pane_frames (pane_ids t))

  unfoldable pub swap_panes : TabModel F T B → PaneId → PaneId → TabModel F T B × Bool
  swap_panes t a b =
      let (root, done) = Split.swap_panes t.root a b in (record t { root = root }, done)

  -- `add` on the container of the pane.
  unfoldable pub add_surface :
      TabModel F T B → PaneId → PaneSurface T B → Result (TabModel F T B × ℕ) ModelError
  add_surface t p surface = elim (get p t.panes) [
    | none ↦ err (unknown_pane p)
    | some c ↦ elim (Runtime.add c surface) [
      | err e ↦ err (surface_error e)
      | ok (c', index) ↦ ok (record t { panes = insert p c' t.panes }, index)
    ]
  ]

  unfoldable pub select_surface : TabModel F T B → PaneId → SurfaceId → TabModel F T B × Bool
  select_surface t p surface = elim (get p t.panes) [
    | none ↦ (t, false)
    | some c ↦
        let (c', done) = Runtime.select c surface in
        (record t { panes = insert p c' t.panes }, done)
  ]

  -- The second half of `remove_pane`. Where `replacement` is `none` the source panics.
  unfoldable pub detach :
      TabModel F T B
      → PaneId
      → SplitNode F
      → Option PaneId
      → Option (TabModel F T B × Option (PaneContainer T B))
  detach t p root none = none
  detach t p root (some next) = some (
    record t {
      root = root;
      focused_pane_id = if t.focused_pane_id == p then next else t.focused_pane_id;
      panes = remove p t.panes;
    },
    get p t.panes,
  )

  -- `none` where the source returns `None` and has changed nothing.
  unfoldable pub remove_pane :
      TabModel F T B → PaneId → Option (TabModel F T B × Option (PaneContainer T B))
  unfolding pane_ids detach
  remove_pane t p =
      let order = pane_ids t in
      if leb (length t.panes) 1 then none else elim (position (λ id. id == p) order) [
        | none ↦ none
        | some index ↦ elim (removing_pane t.root p) [
          | none ↦ none
          | some root ↦ detach t p root (replacement order index)
        ]
      ]

module _ {F T B : Type 0} ⦃f : Float F⦄ where
  -- `TabModel::new`
  unfoldable pub new_tab :
      TabId → SplitNode F → PaneId → List (PaneContainer T B) → Result (TabModel F T B) ModelError
  unfolding register same_set
  new_tab id root focused panes =
      if not (has_unique_ids_and_valid_ratios root)
      then err invalid_split_tree
      else elim (register panes []) [
        | err e ↦ err e
        | ok registry ↦
            let leaf_ids = Split.pane_ids root in
            if not (same_set leaf_ids (keys registry))
            then err pane_registry_mismatch
            else if not (elem leaf_ids focused)
            then err (unknown_pane focused)
            else ok (record {
              id = id;
              custom_title = none;
              root = root;
              focused_pane_id = focused;
              panes = registry;
            })
      ]

  unfoldable pub layout : TabModel F T B → PixelRect → ℤ → PixelSize → SplitLayout
  layout t rect gap leaf = Layout.layout t.root rect gap leaf

  unfoldable pub resize_focused :
      TabModel F T B → Direction → PixelRect → ℤ → PixelSize → F → TabModel F T B × Bool
  unfolding layout
  resize_focused t direction rect gap leaf step =
      elim (resize_target t.root t.focused_pane_id direction) [
        | none ↦ (t, false)
        | some target ↦ elim (get target.split_id (layout t rect gap leaf).split_frames) [
          | none ↦ (t, false)
          | some split_rect ↦ elim (ratio_bounds t.root target.split_id split_rect gap leaf) [
            | none ↦ (t, false)
            | some bounds ↦
                let (root, done) =
                  adjust_ratio t.root target.split_id (ratio_delta target step) bounds in
                (record t { root = root }, done)
          ]
        ]
      ]

  unfoldable pub set_split_ratio :
      TabModel F T B → SplitId → F → PixelRect → ℤ → PixelSize → TabModel F T B × Bool
  set_split_ratio t id ratio split_rect gap leaf =
      elim (ratio_bounds t.root id split_rect gap leaf) [
        | none ↦ (t, false)
        | some bounds ↦
            let (root, done) = set_ratio t.root id ratio bounds in (record t { root = root }, done)
      ]

  -- `fresh` is the identifier that the new split draws.
  unfoldable pub split_pane :
      SplitId
      → TabModel F T B
      → PaneId
      → SplitAxis
      → PaneContainer T B
      → Result (TabModel F T B) ModelError
  split_pane fresh t p axis new =
      let (root, done) = Split.split_pane fresh t.root p axis new.id in
      if not (has p t.panes)
      then err (unknown_pane p)
      else if has new.id t.panes
      then err (duplicate_pane new.id)
      else if not done
      then err invalid_split_tree
      else ok
          (record t { root = root; focused_pane_id = new.id; panes = insert new.id new t.panes })

module _ {T B : Type 0} where
  -- Acts on every container of the registry.
  abbrev pub on_panes :
      (PaneContainer T B → PaneContainer T B)
      → List (PaneId × PaneContainer T B)
      → List (PaneId × PaneContainer T B)
  on_panes g [] = []
  on_panes g ((p, c) ∷ m) = (p, g c) ∷ on_panes g m

module _ {F T B : Type 0} ⦃rt : Runtimes T B⦄ where
  unfoldable pub close_tab_panes : TabModel F T B → TabModel F T B
  close_tab_panes t = record t { panes = on_panes close_container t.panes }

  unfoldable pub pump_tab : TabModel F T B → TabModel F T B
  pump_tab t = record t { panes = on_panes pump_container t.panes }
