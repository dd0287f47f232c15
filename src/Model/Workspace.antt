-- ===== src/Model/Workspace.antt =====
-- `WorkspaceModel` of kitmux-linux/rust/model/src/model.rs: groups with an active one.
use mathlib.Core.Option
use kitmux_linux.Base.{
  ℕ, ◌-◌, Bool, true, false, not, Option, none, some, List, [], ◌∷◌, ◌++◌, map, leb, length, elem,
  if◌then◌else◌,
}
use kitmux_linux.Base.Int.{ℤ}
use kitmux_linux.Base.Result.{Result, ok, err}
use kitmux_linux.Ids.{WorkspaceId, GroupId}
use kitmux_linux.Runtime.{Runtimes}
use kitmux_linux.Model.Error.{Level, ModelError, duplicate_id, validate_non_empty_active}
use kitmux_linux.Text.{Text, same_text}
use kitmux_linux.Model.Label.{normalized_label}
use kitmux_linux.Model.Selection.{all_unique, wrapped_index, remove_selected, move_selected}
use kitmux_linux.Model.Group.{GroupModel, close_tabs, pump_tabs}

pub record WorkspaceModel (F T B : Type 0) : Type 0 where
  pub id : WorkspaceId
  pub name : Text
  pub groups : List (GroupModel F T B)
  pub active_group_index : ℕ

-- "Workspace 1"
abbrev default_name : Text
default_name = 87 ∷ 111 ∷ 114 ∷ 107 ∷ 115 ∷ 112 ∷ 97 ∷ 99 ∷ 101 ∷ 32 ∷ 49 ∷ []

module _ {F T B : Type 0} where
  abbrev pub group_id : GroupModel F T B → GroupId
  group_id t = t.id

  -- `WorkspaceModel::new`
  unfoldable pub new_workspace :
      WorkspaceId → List (GroupModel F T B) → ℕ → Result (WorkspaceModel F T B) ModelError
  new_workspace id groups active = elim (validate_non_empty_active groups active Level.group) [
    | some e ↦ err e
    | none ↦
        if not (all_unique (map group_id groups))
        then err (duplicate_id Level.group)
        else ok
            (record { id = id; name = default_name; groups = groups; active_group_index = active })
  ]

  unfoldable pub rename : WorkspaceModel F T B → Text → WorkspaceModel F T B × Bool
  rename w name = elim (normalized_label name) [
    | none ↦ (w, false)
    | some name' ↦ if same_text w.name name' then (w, false) else (record w { name = name' }, true)
  ]

  unfoldable pub select_group : WorkspaceModel F T B → ℕ → WorkspaceModel F T B × Bool
  select_group w index =
      if leb (length w.groups) index
      then (w, false)
      else (record w { active_group_index = index }, true)

  unfoldable pub cycle_group : WorkspaceModel F T B → ℤ → WorkspaceModel F T B × Bool
  cycle_group w direction = if leb (length w.groups) 1 then (w, false) else (
    record w {
      active_group_index = wrapped_index w.active_group_index direction (length w.groups);
    },
    true,
  )

  unfoldable pub append_group :
      WorkspaceModel F T B → GroupModel F T B → Result (WorkspaceModel F T B × ℕ) ModelError
  append_group w group =
      let groups = w.groups ++ group ∷ [] in
      let active = length groups - 1 in
      if elem (map group_id w.groups) group.id
      then err (duplicate_id Level.group)
      else ok (record w { groups = groups; active_group_index = active }, active)

  -- `none` is a panic.
  unfoldable pub move_group :
      WorkspaceModel F T B → GroupId → ℕ → Option (WorkspaceModel F T B × Bool)
  move_group w id target =
      Option.map
        (λ (groups, active, moved).
          (record w { groups = groups; active_group_index = active }, moved))
        (move_selected group_id w.groups w.active_group_index id target)

  unfoldable pub remove_group :
      WorkspaceModel F T B → ℕ → Option (GroupModel F T B × WorkspaceModel F T B)
  remove_group w index =
      Option.map
        (λ (group, groups, active).
          (group, record w { groups = groups; active_group_index = active }))
        (remove_selected w.groups w.active_group_index index)

module _ {F T B : Type 0} ⦃rt : Runtimes T B⦄ where
  -- `close_all`
  unfoldable pub close_groups : WorkspaceModel F T B → WorkspaceModel F T B
  close_groups w = record w { groups = map close_tabs w.groups }

  unfoldable pub pump_groups : WorkspaceModel F T B → WorkspaceModel F T B
  pump_groups w = record w { groups = map pump_tabs w.groups }

  -- The source returns the identifier of the closed group.
  unfoldable pub close_group :
      WorkspaceModel F T B → ℕ → Option (GroupModel F T B × WorkspaceModel F T B)
  unfolding remove_group
  close_group w index = Option.map (λ (group, w'). (close_tabs group, w')) (remove_group w index)
