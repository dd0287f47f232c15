-- ===== src/Model/App.antt =====
-- `AppModel` of kitmux-linux/rust/model/src/model.rs: the whole hierarchy, workspaces of groups of
-- tabs of panes.
pub mod Laws
pub mod Find
use mathlib.Core.Option
use kitmux_linux.Base.{
  ℕ, suc, ◌+◌, ◌-◌, Bool, true, false, not, ◌&&◌, Option, none, some, List, [], ◌∷◌, ◌++◌, map,
  ◌==◌, leb, ltb, length, elem, get_elem?, set, if◌then◌else◌,
}
use kitmux_linux.Base.Int.{ℤ}
use kitmux_linux.Base.Map.{has}
use kitmux_linux.Base.Result.{Result, ok, err}
use kitmux_linux.Base.Vec.{position}
use kitmux_linux.Ids.{PaneId, SurfaceId, TabId, GroupId, WorkspaceId}
use kitmux_linux.Runtime.{Runtimes, PaneSurface, PaneContainer, close_container}
use kitmux_linux.Model.Error.{Level, ModelError, duplicate_id, validate_non_empty_active}
use kitmux_linux.Model.Selection.{all_unique, wrapped_index, remove_selected, move_selected}
use kitmux_linux.Model.Tab.{TabModel, pane_count, focus, remove_pane, close_tab_panes}
use kitmux_linux.Model.Group.{GroupModel, remove_tab, close_tabs}
use kitmux_linux.Model.Workspace.{WorkspaceModel, remove_group, close_groups, pump_groups}
use kitmux_linux.Model.Global.{Seen, nothing_seen, visit_workspaces}

pub record AppModel (F T B : Type 0) : Type 0 where
  pub workspaces : List (WorkspaceModel F T B)
  pub active_workspace_index : ℕ

-- `Vec::pop`
unfoldable pub pop {ℓ} : {A : Type ℓ} → List A → List A
pop [] = []
pop (x ∷ []) = []
pop (x ∷ y ∷ ys) = x ∷ pop (y ∷ ys)

module _ {F T B : Type 0} where
  abbrev pub workspace_id : WorkspaceModel F T B → WorkspaceId
  workspace_id w = w.id

  -- `none` is `Ok(())`.
  unfoldable pub validate_global_ids : AppModel F T B → Option ModelError
  unfolding visit_workspaces
  validate_global_ids a =
      if not (all_unique (map workspace_id a.workspaces))
      then some (duplicate_id Level.workspace)
      else elim (visit_workspaces a.workspaces nothing_seen) [ err e ↦ some e | ok seen ↦ none ]

  -- `AppModel::new`
  unfoldable pub new_app : List (WorkspaceModel F T B) → ℕ → Result (AppModel F T B) ModelError
  unfolding validate_global_ids
  new_app workspaces active = elim (validate_non_empty_active workspaces active Level.workspace) [
    | some e ↦ err e
    | none ↦
        let model : AppModel F T B = record {
          workspaces = workspaces;
          active_workspace_index = active;
        } in
        elim (validate_global_ids model) [ some e ↦ err e | none ↦ ok model ]
  ]

  unfoldable pub select_workspace : AppModel F T B → ℕ → AppModel F T B × Bool
  select_workspace a index =
      if leb (length a.workspaces) index
      then (a, false)
      else (record a { active_workspace_index = index }, true)

  unfoldable pub cycle_workspace : AppModel F T B → ℤ → AppModel F T B × Bool
  cycle_workspace a direction = if leb (length a.workspaces) 1 then (a, false) else (
    record a {
      active_workspace_index =
          wrapped_index a.active_workspace_index direction (length a.workspaces);
    },
    true,
  )

  -- The state after the call goes with its result, as an error may come after the push.
  unfoldable pub append_workspace :
      AppModel F T B → WorkspaceModel F T B → AppModel F T B × Result ℕ ModelError
  unfolding validate_global_ids pop
  append_workspace a w =
      let a' = record a { workspaces = a.workspaces ++ w ∷ [] } in
      let active = length a'.workspaces - 1 in
      if elem (map workspace_id a.workspaces) w.id
      then (a, err (duplicate_id Level.workspace))
      else elim (validate_global_ids a') [
        | some e ↦ (record a' { workspaces = pop a'.workspaces }, err e)
        | none ↦ (record a' { active_workspace_index = active }, ok active)
      ]

  -- `none` is a panic.
  unfoldable pub move_workspace : AppModel F T B → WorkspaceId → ℕ → Option (AppModel F T B × Bool)
  move_workspace a id target =
      Option.map
        (λ (workspaces, active, moved).
          (record { workspaces = workspaces; active_workspace_index = active }, moved))
        (move_selected workspace_id a.workspaces a.active_workspace_index id target)

  unfoldable pub remove_workspace :
      AppModel F T B → ℕ → Option (WorkspaceModel F T B × AppModel F T B)
  remove_workspace a index =
      Option.map
        (λ (w, workspaces, active).
          (w, record { workspaces = workspaces; active_workspace_index = active }))
        (remove_selected a.workspaces a.active_workspace_index index)

  -- `none` where the indexing of the active members panics.
  unfoldable pub active_tab : AppModel F T B → Option (TabModel F T B)
  active_tab a = Option.bind (get_elem? a.workspaces a.active_workspace_index) (λ w.
      Option.bind (get_elem? w.groups w.active_group_index)
        (λ g. get_elem? g.tabs g.active_tab_index))

  abbrev pub holds : PaneId → TabModel F T B → Bool
  holds p t = has p t.panes

  -- The loops of `find_pane_location`.
  unfoldable pub find_in_groups : PaneId → List (GroupModel F T B) → Option (ℕ × ℕ)
  find_in_groups p [] = none
  find_in_groups p (g ∷ rest) = elim (position (holds p) g.tabs) [
    | some t ↦ some (0, t)
    | none ↦ Option.map (λ (i, t). (suc i, t)) (find_in_groups p rest)
  ]

  unfoldable pub find_in_workspaces : PaneId → List (WorkspaceModel F T B) → Option (ℕ × ℕ × ℕ)
  unfolding find_in_groups
  find_in_workspaces p [] = none
  find_in_workspaces p (w ∷ rest) = elim (find_in_groups p w.groups) [
    | some (g, t) ↦ some (0, g, t)
    | none ↦ Option.map (λ (i, g, t). (suc i, g, t)) (find_in_workspaces p rest)
  ]

  unfoldable pub find_pane_location : AppModel F T B → PaneId → Option (ℕ × ℕ × ℕ)
  unfolding find_in_workspaces
  find_pane_location a p = find_in_workspaces p a.workspaces

  -- The members of the hierarchy at three indices: `none` where indexing panics.
  unfoldable pub at_location :
      AppModel F T B → ℕ × ℕ × ℕ → Option (WorkspaceModel F T B × GroupModel F T B × TabModel F T B)
  at_location a (i, j, k) = Option.bind (get_elem? a.workspaces i) (λ w.
      Option.bind (get_elem? w.groups j) (λ g. Option.map (λ t. (w, g, t)) (get_elem? g.tabs k)))

  -- Writes through `&mut self.workspaces[i]` and so on.
  abbrev pub put_workspace : AppModel F T B → ℕ → WorkspaceModel F T B → AppModel F T B
  put_workspace a i w = record a { workspaces = set a.workspaces i w }

  abbrev pub put_group : WorkspaceModel F T B → ℕ → GroupModel F T B → WorkspaceModel F T B
  put_group w j g = record w { groups = set w.groups j g }

  abbrev pub put_tab : GroupModel F T B → ℕ → TabModel F T B → GroupModel F T B
  put_tab g k t = record g { tabs = set g.tabs k t }

  -- `none` is a panic.
  unfoldable pub focus_pane : AppModel F T B → PaneId → Option (AppModel F T B × Bool)
  unfolding find_pane_location at_location focus
  focus_pane a p = elim (find_pane_location a p) [
    | none ↦ some (a, false)
    | some (i, j, k) ↦
        Option.map
          (λ (w, g, t).
            let (t', done) = focus t p in
            let g' = record (put_tab g k t') { active_tab_index = k } in
            let w' = record (put_group w j g') { active_group_index = j } in
            (record (put_workspace a i w') { active_workspace_index = i }, done))
          (at_location a (i, j, k))
  ]

module _ {F T B : Type 0} ⦃rt : Runtimes T B⦄ where
  -- The source returns the identifier of the closed workspace.
  unfoldable pub close_workspace :
      AppModel F T B → ℕ → Option (WorkspaceModel F T B × AppModel F T B)
  unfolding remove_workspace
  close_workspace a index = Option.map (λ (w, a'). (close_groups w, a')) (remove_workspace a index)

  unfoldable pub pump_terminals : AppModel F T B → AppModel F T B
  pump_terminals a = record a { workspaces = map pump_groups a.workspaces }
