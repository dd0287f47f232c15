-- ===== src/Tests/Samples.antt =====
-- The data that the tests run on: ratios counted in tenths, a tab of two panes, and an application
-- of two workspaces.
use kitmux_linux.Base.{
  ℕ, ◌+◌, ◌-◌, ◌*◌, ◌/◌, refl, true, none, [], ◌∷◌, leb, ltb, min, max, arith, elem,
}
use kitmux_linux.Base.Int.{ℤ, pos, negsuc}
use kitmux_linux.Float.{Float}
use kitmux_linux.Split.{SplitNode, SplitAxis, pane, split, pane_ids, collect_pane_ids, valid_ratio}
use kitmux_linux.Layout.{PixelRect, PixelSize}
use kitmux_linux.Runtime.{PaneRuntime, PaneSurface, PaneContainer}
use kitmux_linux.Runtime.Mock.{MockRuntimeSnapshot, fresh, mock_runtimes}
use kitmux_linux.Runtime.Container
use kitmux_linux.Split.Valid.{IsWellFormed}
use kitmux_linux.Model.Tab.{TabModel}
use kitmux_linux.Model.Tab.Valid
use kitmux_linux.Model.Group.{GroupModel}
use kitmux_linux.Model.Workspace.{WorkspaceModel}
use kitmux_linux.Model.App.{AppModel}
use kitmux_linux.Model.Hierarchy.{IsGroup, IsWorkspace, IsHierarchy}

abbrev tenths_of_int : ℤ → ℕ
tenths_of_int (pos n) = n * 10
tenths_of_int (negsuc n) = 0

instance abbrev pub tenths : Float ℕ
tenths = record {
  zero = 0;
  half = 5;
  one = 10;
  tenth = 1;
  nine_tenths = 9;
  finite = λ x. true;
  number = λ x. true;
  le = leb;
  lt = ltb;
  add = λ x y. x + y;
  sub = λ x y. x - y;
  mul = λ x y. x * y / 10;
  div = λ x y. x * 10 / y;
  max = max;
  min = min;
  of_int = tenths_of_int;
  round = λ x. pos (x / 10);
  number-finite = λ x h. refl;
  number-add = λ x y h k. refl;
  lt-le = λ x y h k. ground arith;
  le_refl = λ x h. ground arith;
  finite_between = λ x y z h k l m. refl;
  number-le = λ x y h. (refl, refl);
  le_trans = λ x y z h k. ground arith;
  finite-zero = refl;
  finite-half = refl;
  finite-one = refl;
  zero-le-half = refl;
  half-le-one = refl;
}

abbrev pub Tree : Type 0
Tree = SplitNode ℕ

abbrev pub Mock : Type 0
Mock = MockRuntimeSnapshot

abbrev pub two_panes : Tree
two_panes = split 10 SplitAxis.left_right 5 (pane 1) (pane 2)

abbrev pub surface : ℕ → PaneSurface Mock Mock
surface id = record { id = id; runtime = PaneRuntime.terminal fresh }

abbrev pub container : ℕ → PaneContainer Mock Mock
container id = record { id = id; surfaces = surface (id + 100) ∷ []; active_surface_index = 0 }

abbrev pub tab : TabModel ℕ Mock Mock
tab = record {
  id = 7;
  custom_title = none;
  root = two_panes;
  focused_pane_id = 1;
  panes = (1, container 1) ∷ (2, container 2) ∷ [];
}

abbrev pub other_tab : TabModel ℕ Mock Mock
other_tab = record {
  id = 8;
  custom_title = none;
  root = pane 3;
  focused_pane_id = 3;
  panes = (3, container 3) ∷ [];
}

abbrev pub group : GroupModel ℕ Mock Mock
group = record { id = 20; name = 71 ∷ []; tabs = tab ∷ []; active_tab_index = 0 }

abbrev pub other_group : GroupModel ℕ Mock Mock
other_group = record { id = 21; name = 72 ∷ []; tabs = other_tab ∷ []; active_tab_index = 0 }

abbrev pub workspace : WorkspaceModel ℕ Mock Mock
workspace = record { id = 30; name = 87 ∷ []; groups = group ∷ []; active_group_index = 0 }

abbrev pub other_workspace : WorkspaceModel ℕ Mock Mock
other_workspace = record {
  id = 31;
  name = 88 ∷ [];
  groups = other_group ∷ [];
  active_group_index = 0;
}

abbrev pub app : AppModel ℕ Mock Mock
app = record { workspaces = workspace ∷ []; active_workspace_index = 0 }

abbrev pub two_workspaces : AppModel ℕ Mock Mock
two_workspaces = record {
  workspaces = workspace ∷ other_workspace ∷ [];
  active_workspace_index = 0;
}

abbrev pub screen : PixelRect
screen = record { x = pos 0; y = pos 0; width = pos 101; height = pos 50 }

abbrev pub leaf : PixelSize
leaf = record { width = pos 10; height = pos 10 }

pub container-IsValid : (id : ℕ) → Container.IsValid (container id)
unfolding elem
container-IsValid id = record { active = omega arith; distinct = (refl, tt) }

pub two_panes-IsWellFormed : IsWellFormed two_panes
unfolding elem pane_ids collect_pane_ids valid_ratio
two_panes-IsWellFormed = record {
  panes = (refl, (refl, tt));
  splits = (refl, tt);
  ratios = (refl, tt, tt);
}

pub tab-IsValid : Valid.IsValid tab
unfolding elem pane_ids collect_pane_ids
tab-IsValid = record {
  tree = two_panes-IsWellFormed;
  registry = (refl, (refl, tt));
  agree = λ p. refl;
  focused = refl;
  containers = ((refl, container-IsValid 1), ((refl, container-IsValid 2), tt));
}

pub other_tab-IsValid : Valid.IsValid other_tab
unfolding elem pane_ids collect_pane_ids
other_tab-IsValid = record {
  tree = record { panes = (refl, tt); splits = tt; ratios = tt };
  registry = (refl, tt);
  agree = λ p. refl;
  focused = refl;
  containers = ((refl, container-IsValid 3), tt);
}

pub group-IsGroup : IsGroup group
unfolding elem
group-IsGroup = record {
  selection = record { in_range = omega arith; distinct = (refl, tt) };
  members = (tab-IsValid, tt);
}

pub workspace-IsWorkspace : IsWorkspace workspace
unfolding elem
workspace-IsWorkspace = record {
  selection = record { in_range = omega arith; distinct = (refl, tt) };
  members = (group-IsGroup, tt);
}

pub app-IsHierarchy : IsHierarchy app
unfolding elem
app-IsHierarchy = record {
  selection = record { in_range = omega arith; distinct = (refl, tt) };
  members = (workspace-IsWorkspace, tt);
}
