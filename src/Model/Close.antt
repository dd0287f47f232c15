-- ===== src/Model/Close.antt =====
-- Closing a pane in `AppModel` of kitmux-linux/rust/model/src/model.rs: the scope of the close is the
-- smallest part of the hierarchy that may go.
pub mod Parts
pub mod Laws
use mathlib.Core.Option
use kitmux_linux.Base.{
  ℕ, suc, ◌+◌, ◌-◌, Bool, true, false, not, ◌&&◌, Option, none, some, List, [], ◌∷◌, ◌++◌, map,
  ◌==◌, leb, ltb, length, elem, get_elem?, set, concat_map, if◌then◌else◌,
}
use kitmux_linux.Base.Int.{ℤ}
use kitmux_linux.Base.Map.{has}
use kitmux_linux.Base.Result.{Result, ok, err}
use kitmux_linux.Base.Vec.{position}
use kitmux_linux.Ids.{PaneId, SurfaceId, TabId, GroupId, WorkspaceId}
use kitmux_linux.Runtime.{Runtimes, PaneSurface, PaneContainer, close_container}
use kitmux_linux.Model.Error.{Level, ModelError, duplicate_id, validate_non_empty_active}
use kitmux_linux.Model.Selection.{all_unique, wrapped_index, remove_selected, move_selected}
use kitmux_linux.Model.Tab.{TabModel, pane_count, focus, remove_pane, close_tab_panes}
use kitmux_linux.Model.Group.{GroupModel, remove_tab, close_tabs}
use kitmux_linux.Model.Workspace.{WorkspaceModel, remove_group, close_groups, pump_groups}
use kitmux_linux.Model.App.{
  AppModel, put_workspace, put_group, put_tab, find_pane_location, at_location, remove_workspace,
}

pub data CloseScope : Type 0 where
  pane : PaneId → CloseScope
  tab : TabId → CloseScope
  group : GroupId → CloseScope
  workspace : WorkspaceId → CloseScope

pub data CloseOutcome : Type 0 where
  removed host_close_required : CloseScope → CloseOutcome

unfoldable pub values {ℓ} : {A : Type ℓ} → List (PaneId × A) → List A
values [] = []
values ((p, c) ∷ m) = c ∷ values m

abbrev one {ℓ} : {A : Type ℓ} → Option A → List A
one none = []
one (some x) = x ∷ []

module _ {F T B : Type 0} where
  abbrev pub scope_at :
      PaneId → WorkspaceModel F T B → GroupModel F T B → TabModel F T B → CloseScope
  scope_at p w g t =
      if ltb 1 (pane_count t)
      then CloseScope.pane p
      else if ltb 1 (length g.tabs)
      then CloseScope.tab t.id
      else if ltb 1 (length w.groups)
      then CloseScope.group g.id
      else CloseScope.workspace w.id

  -- `none` where the source returns `None`, or would panic on an index.
  unfoldable pub resolve_close_scope : AppModel F T B → PaneId → Option CloseScope
  unfolding find_pane_location at_location
  resolve_close_scope a p =
      Option.bind (find_pane_location a p)
        (λ l. Option.map (λ (w, g, t). scope_at p w g t) (at_location a l))

  -- The containers of a part of the hierarchy.
  unfoldable pub tab_containers : TabModel F T B → List (PaneContainer T B)
  unfolding values
  tab_containers t = values t.panes

  unfoldable pub group_containers : GroupModel F T B → List (PaneContainer T B)
  unfolding tab_containers
  group_containers g = concat_map tab_containers g.tabs

  unfoldable pub workspace_containers : WorkspaceModel F T B → List (PaneContainer T B)
  unfolding group_containers
  workspace_containers w = concat_map group_containers w.groups

module _ {F T B : Type 0} ⦃rt : Runtimes T B⦄ where
  -- `close_pane` after the scope is known. With the outcome and the state goes what was removed:
  -- the containers, as `close_all` leaves them when they are dropped.
  unfoldable pub close_at :
      AppModel F T B
      → PaneId
      → ℕ × ℕ × ℕ
      → WorkspaceModel F T B × GroupModel F T B × TabModel F T B
      → CloseScope
      → Option (CloseOutcome × List (PaneContainer T B) × AppModel F T B)
  unfolding remove_workspace
  close_at a p (i, j, k) (w, g, t) (CloseScope.pane q) =
      Option.map
        (λ (t', c). (
          removed (CloseScope.pane q),
          map close_container (one c),
          put_workspace a i (put_group w j (put_tab g k t')),
        ))
        (remove_pane t p)
  close_at a p (i, j, k) (w, g, t) (CloseScope.tab id) =
      Option.map
        (λ (gone, g'). (
          removed (CloseScope.tab id),
          tab_containers (close_tab_panes gone),
          put_workspace a i (put_group w j g'),
        ))
        (remove_tab g k)
  close_at a p (i, j, k) (w, g, t) (CloseScope.group id) =
      Option.map
        (λ (gone, w').
          (removed (CloseScope.group id), group_containers (close_tabs gone), put_workspace a i w'))
        (remove_group w j)
  close_at a p (i, j, k) (w, g, t) (CloseScope.workspace id) =
      if ltb 1 (length a.workspaces)
      then Option.map
          (λ (gone, a').
            (removed (CloseScope.workspace id), workspace_containers (close_groups gone), a'))
          (remove_workspace a i)
      else some (host_close_required (CloseScope.workspace id), [], a)

  -- `none` where the source returns `None` and has changed nothing, or would panic on an index.
  unfoldable pub close_pane :
      AppModel F T B → PaneId → Option (CloseOutcome × List (PaneContainer T B) × AppModel F T B)
  unfolding close_at resolve_close_scope
  close_pane a p = Option.bind (find_pane_location a p) (λ l.
      Option.bind (resolve_close_scope a p)
        (λ scope. Option.bind (at_location a l) (λ place. close_at a p l place scope)))
