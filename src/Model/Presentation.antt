-- ===== src/Model/Presentation.antt =====
-- `runtime_presentations` of kitmux-linux/rust/model/src/model.rs: what the host shows of every
-- surface of the hierarchy.
pub mod Loops
pub mod Total
use mathlib.Core.Option
use kitmux_linux.Base.{
  ℕ, suc, Bool, true, false, not, ◌&&◌, Option, none, some, List, [], ◌∷◌, ◌++◌, ◌==◌,
  if◌then◌else◌,
}
use kitmux_linux.Base.Map.{get}
use kitmux_linux.Ids.{PaneId, SurfaceId, TabId, GroupId, WorkspaceId}
use kitmux_linux.Runtime.{Runtimes, RuntimeKind, PaneSurface, PaneContainer, kind, is_closed}
use kitmux_linux.Split
use kitmux_linux.Model.Tab.{TabModel}
use kitmux_linux.Model.Group.{GroupModel}
use kitmux_linux.Model.Workspace.{WorkspaceModel}
use kitmux_linux.Model.App.{AppModel}

pub record RuntimeLocation : Type 0 where
  pub workspace_id : WorkspaceId
  pub group_id : GroupId
  pub tab_id : TabId
  pub pane_id : PaneId
  pub surface_id : SurfaceId

pub record RuntimePresentation : Type 0 where
  pub location : RuntimeLocation
  pub kind : RuntimeKind
  pub layout_visible : Bool
  pub surface_visible : Bool
  pub accepts_input : Bool
  pub pumps_while_hidden : Bool

unfoldable pub is_terminal : RuntimeKind → Bool
is_terminal RuntimeKind.terminal = true
is_terminal RuntimeKind.browser = false

module _ {T B : Type 0} ⦃rt : Runtimes T B⦄ where
  -- The loops, from the innermost one outwards; `index` is the one that `enumerate` gives.
  unfoldable pub present_surfaces :
      WorkspaceId × GroupId × TabId × PaneId
      → Bool
      → Bool
      → ℕ
      → ℕ
      → List (PaneSurface T B)
      → List RuntimePresentation
  present_surfaces at visible focused active index [] = []
  present_surfaces (w, g, t, p) visible focused active index (s ∷ rest) =
      let surface_visible = visible && index == active in
      record {
        location = record {
          workspace_id = w;
          group_id = g;
          tab_id = t;
          pane_id = p;
          surface_id = s.id;
        };
        kind = kind s.runtime;
        layout_visible = visible;
        surface_visible = surface_visible;
        accepts_input = surface_visible && focused;
        pumps_while_hidden = is_terminal (kind s.runtime) && not (is_closed s.runtime);
      }
      ∷ present_surfaces (w, g, t, p) visible focused active (suc index) rest

module _ {F T B : Type 0} ⦃rt : Runtimes T B⦄ where
  -- `none` where `tab.panes[&pane_id]` panics.
  unfoldable pub present_panes :
      WorkspaceId × GroupId
      → TabModel F T B
      → Bool
      → List PaneId
      → Option (List RuntimePresentation)
  unfolding present_surfaces
  present_panes at t visible [] = some []
  present_panes (w, g) t visible (p ∷ rest) = Option.bind (get p t.panes) (λ c.
      Option.map
        (λ later.
          present_surfaces (w, g, t.id, p) visible (p == t.focused_pane_id) c.active_surface_index 0
            c.surfaces
          ++ later)
        (present_panes (w, g) t visible rest))

  unfoldable pub present_tabs :
      WorkspaceId × GroupId
      → Bool
      → ℕ
      → ℕ
      → List (TabModel F T B)
      → Option (List RuntimePresentation)
  unfolding present_panes
  present_tabs at visible active index [] = some []
  present_tabs at visible active index (t ∷ rest) =
      Option.bind (present_panes at t (visible && index == active) (Split.pane_ids t.root)) (λ here.
        Option.map (λ later. here ++ later) (present_tabs at visible active (suc index) rest))

  unfoldable pub present_groups :
      WorkspaceId → Bool → ℕ → ℕ → List (GroupModel F T B) → Option (List RuntimePresentation)
  unfolding present_tabs
  present_groups w visible active index [] = some []
  present_groups w visible active index (g ∷ rest) =
      Option.bind (present_tabs (w, g.id) (visible && index == active) g.active_tab_index 0 g.tabs)
        (λ here.
          Option.map (λ later. here ++ later) (present_groups w visible active (suc index) rest))

  unfoldable pub present_workspaces :
      ℕ → ℕ → List (WorkspaceModel F T B) → Option (List RuntimePresentation)
  unfolding present_groups
  present_workspaces active index [] = some []
  present_workspaces active index (w ∷ rest) =
      Option.bind (present_groups w.id (index == active) w.active_group_index 0 w.groups)
        (λ here. Option.map (λ later. here ++ later) (present_workspaces active (suc index) rest))

  unfoldable pub runtime_presentations : AppModel F T B → Option (List RuntimePresentation)
  unfolding present_workspaces
  runtime_presentations a = present_workspaces a.active_workspace_index 0 a.workspaces
