-- ===== src/Model/Rename.antt =====
-- The renaming methods of `AppModel` of kitmux-linux/rust/model/src/model.rs, which look for the
-- first part of the hierarchy with the identifier.
use mathlib.Core.Option
use kitmux_linux.Base.{Bool, false, Option, none, some, List, [], ◌∷◌, ◌==◌, if◌then◌else◌}
use kitmux_linux.Ids.{TabId, GroupId, WorkspaceId}
use kitmux_linux.Text.{Text}
use kitmux_linux.Model.Tab
use kitmux_linux.Model.Group
use kitmux_linux.Model.Workspace
use kitmux_linux.Model.App.{AppModel}

module _ {A : Type 0} where
  -- `iter_mut()`, `find` and an update: `none` where no element is found.
  unfoldable pub in_first : (A → Option (A × Bool)) → List A → Option (List A × Bool)
  in_first change [] = none
  in_first change (x ∷ xs) = elim (change x) [
    | some (x', done) ↦ some (x' ∷ xs, done)
    | none ↦ Option.map (λ (xs', done). (x ∷ xs', done)) (in_first change xs)
  ]

  -- `is_some_and`
  abbrev or_same : A → Option (A × Bool) → A × Bool
  or_same a none = (a, false)
  or_same a (some r) = r

module _ {F T B : Type 0} where
  unfoldable pub rename_workspace : AppModel F T B → WorkspaceId → Text → AppModel F T B × Bool
  unfolding in_first Workspace.rename
  rename_workspace a id name = or_same a (
      Option.map (λ (ws, done). (record a { workspaces = ws }, done))
        (in_first (λ w. if w.id == id then some (Workspace.rename w name) else none) a.workspaces))

  unfoldable pub rename_group : AppModel F T B → GroupId → Text → AppModel F T B × Bool
  unfolding in_first Group.rename
  rename_group a id name = or_same a (
      Option.map (λ (ws, done). (record a { workspaces = ws }, done))
        (in_first
          (λ w.
            Option.map (λ (gs, done). (record w { groups = gs }, done))
              (in_first (λ g. if g.id == id then some (Group.rename g name) else none) w.groups))
          a.workspaces))

  unfoldable pub rename_tab : AppModel F T B → TabId → Option Text → AppModel F T B × Bool
  unfolding in_first Tab.rename
  rename_tab a id title = or_same a (
      Option.map (λ (ws, done). (record a { workspaces = ws }, done))
        (in_first
          (λ w.
            Option.map (λ (gs, done). (record w { groups = gs }, done))
              (in_first
                (λ g.
                  Option.map (λ (ts, done). (record g { tabs = ts }, done))
                    (in_first (λ t. if t.id == id then some (Tab.rename t title) else none) g.tabs))
                w.groups))
          a.workspaces))
