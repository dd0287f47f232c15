-- ===== src/Model/Hierarchy.antt =====
-- The invariant of the hierarchy, level by level.
use kitmux_linux.Base.{ℕ, ◌≡◌, sym, List, some, get_elem?, set, All, arith, subst}
use kitmux_linux.Base.Everywhere.{All-set, All-remove_at, length-set, map-set}
use kitmux_linux.Base.Vec.{remove_at, lt_of_get}
use kitmux_linux.Float.{Float}
use kitmux_linux.Model.Selection.{remove_selected}
use kitmux_linux.Model.Selection.Laws.{IsSelection, remove_selected_lem}
use kitmux_linux.Model.Tab.Valid
use kitmux_linux.Model.Group.{GroupModel, tab_id}
use kitmux_linux.Model.Workspace.{WorkspaceModel, group_id}
use kitmux_linux.Model.App.{AppModel, workspace_id}

-- A level of the hierarchy: its members are valid, have distinct identifiers, and one is active.
pub record IsLevel {A : Type 0} (P : A → Type 0) (id : A → ℕ) (values : List A) (active : ℕ)
    : Type 0 where
  pub selection : IsSelection id values active
  pub members : All P values

module _ {A : Type 0} (P : A → Type 0) (id : A → ℕ) (values : List A) (active : ℕ) where
  -- A write of a valid member with the identifier of the old one.
  pub set-IsLevel :
      (i : ℕ) (x y : A)
      → IsLevel P id values active
      → get_elem? values i ≡ some y
      → id x ≡ id y
      → P x
      → IsLevel P id (set values i x) active
  set-IsLevel i x y v g e p = record {
    selection = record {
      in_range = omega (arith, v.selection.in_range, length-set values i x);
      distinct = rw (map-set id values i x y g e) v.selection.distinct;
    };
    members = All-set P values i x v.members p;
  }

  -- What `remove_selected` leaves.
  pub remove_selected-IsLevel :
      (i : ℕ) (x : A) (rest : List A) (active' : ℕ)
      → IsLevel P id values active
      → remove_selected values active i ≡ some (x, rest, active')
      → IsLevel P id rest active'
  unfolding remove_selected
  remove_selected-IsLevel i x rest active' v h =
      let r = remove_selected_lem id values active i x rest active' v.selection h in
      let er : rest ≡ remove_at values i = ground arith in
      record {
        selection = r.selection;
        members = subst (All P) (sym er) (All-remove_at P values i v.members);
      }

  pub activate-IsLevel :
      (i : ℕ) (x : A)
      → IsLevel P id values active
      → get_elem? values i ≡ some x
      → IsLevel P id values i
  activate-IsLevel i x v g = record {
    selection = record { in_range = lt_of_get values i x g; distinct = v.selection.distinct };
    members = v.members;
  }

module _ {F T B : Type 0} ⦃f : Float F⦄ where
  abbrev pub IsGroup : GroupModel F T B → Type 0
  IsGroup g = IsLevel Valid.IsValid tab_id g.tabs g.active_tab_index

  abbrev pub IsWorkspace : WorkspaceModel F T B → Type 0
  IsWorkspace w = IsLevel IsGroup group_id w.groups w.active_group_index

  -- Every tab is valid, and at each level the identifiers are distinct and a member is active.
  abbrev pub IsHierarchy : AppModel F T B → Type 0
  IsHierarchy a = IsLevel IsWorkspace workspace_id a.workspaces a.active_workspace_index
