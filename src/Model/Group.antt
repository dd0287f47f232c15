-- ===== src/Model/Group.antt =====
-- `GroupModel` of kitmux-linux/rust/model/src/model.rs: tabs with an active one.
use mathlib.Core.Option
use kitmux_linux.Base.{
  ℕ, ◌-◌, Bool, true, false, not, Option, none, some, List, [], ◌∷◌, ◌++◌, map, leb, length, elem,
  if◌then◌else◌,
}
use kitmux_linux.Base.Int.{ℤ}
use kitmux_linux.Base.Result.{Result, ok, err}
use kitmux_linux.Ids.{GroupId, TabId}
use kitmux_linux.Runtime.{Runtimes}
use kitmux_linux.Model.Error.{Level, ModelError, duplicate_id, validate_non_empty_active}
use kitmux_linux.Text.{Text, same_text}
use kitmux_linux.Model.Label.{normalized_label}
use kitmux_linux.Model.Selection.{all_unique, wrapped_index, remove_selected, move_selected}
use kitmux_linux.Model.Tab.{TabModel, close_tab_panes, pump_tab}

pub record GroupModel (F T B : Type 0) : Type 0 where
  pub id : GroupId
  pub name : Text
  pub tabs : List (TabModel F T B)
  pub active_tab_index : ℕ

-- "Group 1"
abbrev default_name : Text
default_name = 71 ∷ 114 ∷ 111 ∷ 117 ∷ 112 ∷ 32 ∷ 49 ∷ []

module _ {F T B : Type 0} where
  abbrev pub tab_id : TabModel F T B → TabId
  tab_id t = t.id

  -- `GroupModel::new`
  unfoldable pub new_group :
      GroupId → List (TabModel F T B) → ℕ → Result (GroupModel F T B) ModelError
  new_group id tabs active = elim (validate_non_empty_active tabs active Level.tab) [
    | some e ↦ err e
    | none ↦
        if not (all_unique (map tab_id tabs))
        then err (duplicate_id Level.tab)
        else ok (record { id = id; name = default_name; tabs = tabs; active_tab_index = active })
  ]

  unfoldable pub rename : GroupModel F T B → Text → GroupModel F T B × Bool
  rename g name = elim (normalized_label name) [
    | none ↦ (g, false)
    | some name' ↦ if same_text g.name name' then (g, false) else (record g { name = name' }, true)
  ]

  unfoldable pub select_tab : GroupModel F T B → ℕ → GroupModel F T B × Bool
  select_tab g index =
      if leb (length g.tabs) index
      then (g, false)
      else (record g { active_tab_index = index }, true)

  unfoldable pub cycle_tab : GroupModel F T B → ℤ → GroupModel F T B × Bool
  cycle_tab g direction = if leb (length g.tabs) 1 then (g, false) else (
    record g { active_tab_index = wrapped_index g.active_tab_index direction (length g.tabs) },
    true,
  )

  unfoldable pub append_tab :
      GroupModel F T B → TabModel F T B → Result (GroupModel F T B × ℕ) ModelError
  append_tab g tab =
      let tabs = g.tabs ++ tab ∷ [] in
      let active = length tabs - 1 in
      if elem (map tab_id g.tabs) tab.id
      then err (duplicate_id Level.tab)
      else ok (record g { tabs = tabs; active_tab_index = active }, active)

  -- `none` is a panic.
  unfoldable pub move_tab : GroupModel F T B → TabId → ℕ → Option (GroupModel F T B × Bool)
  move_tab g id target =
      Option.map
        (λ (tabs, active, moved). (record g { tabs = tabs; active_tab_index = active }, moved))
        (move_selected tab_id g.tabs g.active_tab_index id target)

  unfoldable pub remove_tab : GroupModel F T B → ℕ → Option (TabModel F T B × GroupModel F T B)
  remove_tab g index =
      Option.map (λ (tab, tabs, active). (tab, record g { tabs = tabs; active_tab_index = active }))
        (remove_selected g.tabs g.active_tab_index index)

module _ {F T B : Type 0} ⦃rt : Runtimes T B⦄ where
  -- `close_all`
  unfoldable pub close_tabs : GroupModel F T B → GroupModel F T B
  close_tabs g = record g { tabs = map close_tab_panes g.tabs }

  unfoldable pub pump_tabs : GroupModel F T B → GroupModel F T B
  pump_tabs g = record g { tabs = map pump_tab g.tabs }

  -- The source returns the identifier of the closed tab.
  unfoldable pub close_tab : GroupModel F T B → ℕ → Option (TabModel F T B × GroupModel F T B)
  unfolding remove_tab
  close_tab g index = Option.map (λ (tab, g'). (close_tab_panes tab, g')) (remove_tab g index)
