-- ===== src/Model/Global.antt =====
-- The nested loops of `validate_global_ids` of kitmux-linux/rust/model/src/model.rs.
pub mod Inserts
pub mod Unique
use mathlib.Core.Option
use kitmux_linux.Base.{
  ℕ, suc, ◌+◌, ◌-◌, Bool, true, false, not, ◌&&◌, Option, none, some, List, [], ◌∷◌, ◌++◌, map,
  ◌==◌, leb, ltb, length, elem, get_elem?, set, if◌then◌else◌,
}
use kitmux_linux.Base.Int.{ℤ}
use kitmux_linux.Base.Map.{has}
use kitmux_linux.Base.Result.{Result, ok, err}
use kitmux_linux.Base.Vec.{position}
use kitmux_linux.Ids.{PaneId, SurfaceId, TabId, GroupId, WorkspaceId}
use kitmux_linux.Runtime.{Runtimes, PaneSurface, PaneContainer, close_container}
use kitmux_linux.Model.Error.{Level, ModelError, duplicate_id, validate_non_empty_active}
use kitmux_linux.Model.Selection.{all_unique, wrapped_index, remove_selected, move_selected}
use kitmux_linux.Model.Tab.{TabModel, pane_count, focus, remove_pane, close_tab_panes}
use kitmux_linux.Model.Group.{GroupModel, remove_tab, close_tabs}
use kitmux_linux.Model.Workspace.{WorkspaceModel, remove_group, close_groups, pump_groups}

-- The four sets of identifiers that `validate_global_ids` collects.
pub record Seen : Type 0 where
  pub groups : List GroupId
  pub tabs : List TabId
  pub panes : List PaneId
  pub surfaces : List SurfaceId

abbrev pub nothing_seen : Seen
nothing_seen = record { groups = []; tabs = []; panes = []; surfaces = [] }

module _ {T B : Type 0} where
  -- The loops of `validate_global_ids`, from the innermost one outwards. The source draws the panes
  -- of a tab in the order of a hash table, here in that of the association list.
  unfoldable pub visit_surfaces : List (PaneSurface T B) → Seen → Result Seen ModelError
  visit_surfaces [] seen = ok seen
  visit_surfaces (s ∷ rest) seen =
      let later = visit_surfaces rest (record seen { surfaces = s.id ∷ seen.surfaces }) in
      if elem seen.surfaces s.id then err (duplicate_id Level.surface) else later

  unfoldable pub visit_panes : List (PaneId × PaneContainer T B) → Seen → Result Seen ModelError
  unfolding visit_surfaces
  visit_panes [] seen = ok seen
  visit_panes ((p, c) ∷ rest) seen =
      if elem seen.panes c.id
      then err (duplicate_id Level.pane)
      else elim (visit_surfaces c.surfaces (record seen { panes = c.id ∷ seen.panes })) [
        | err e ↦ err e
        | ok seen' ↦ visit_panes rest seen'
      ]

module _ {F T B : Type 0} where
  unfoldable pub visit_tabs : List (TabModel F T B) → Seen → Result Seen ModelError
  unfolding visit_panes
  visit_tabs [] seen = ok seen
  visit_tabs (t ∷ rest) seen =
      if elem seen.tabs t.id
      then err (duplicate_id Level.tab)
      else elim (visit_panes t.panes (record seen { tabs = t.id ∷ seen.tabs })) [
        | err e ↦ err e
        | ok seen' ↦ visit_tabs rest seen'
      ]

  unfoldable pub visit_groups : List (GroupModel F T B) → Seen → Result Seen ModelError
  unfolding visit_tabs
  visit_groups [] seen = ok seen
  visit_groups (g ∷ rest) seen =
      if elem seen.groups g.id
      then err (duplicate_id Level.group)
      else elim (visit_tabs g.tabs (record seen { groups = g.id ∷ seen.groups })) [
        | err e ↦ err e
        | ok seen' ↦ visit_groups rest seen'
      ]

  unfoldable pub visit_workspaces : List (WorkspaceModel F T B) → Seen → Result Seen ModelError
  unfolding visit_groups
  visit_workspaces [] seen = ok seen
  visit_workspaces (w ∷ rest) seen = elim (visit_groups w.groups seen) [
    | err e ↦ err e
    | ok seen' ↦ visit_workspaces rest seen'
  ]
