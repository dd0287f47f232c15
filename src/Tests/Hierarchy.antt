-- ===== src/Tests/Hierarchy.antt =====
-- The theorems on tabs and applications at the sample data.
use mathlib.Core.Option
use kitmux_linux.Base.{
  ℕ, ◌≡◌, ◌↔◌, ◌⊎◌, refl, true, false, none, some, List, [], ◌∷◌, elem, Member, arith,
}
use kitmux_linux.Base.Map.{get, insert}
use kitmux_linux.Base.Result.{ok, err}
use kitmux_linux.Split.{SplitAxis, Direction, pane_ids, collect_pane_ids}
use kitmux_linux.Split.{pane, split}
use kitmux_linux.Split
use kitmux_linux.Split.Panes.{insert_after}
use kitmux_linux.Runtime.{PaneContainer}
use kitmux_linux.Runtime
use kitmux_linux.Runtime.Mock.{mock_runtimes}
use kitmux_linux.Model.Error.{ModelError}
use kitmux_linux.Model.Tab.{TabModel, new_tab, split_pane, swap_panes, remove_pane, add_surface}
use kitmux_linux.Model.Tab.Valid.{new_tab-IsValid}
use kitmux_linux.Model.Tab.Valid
use kitmux_linux.Model.Tab.Edits.{split_pane-IsValid}
use kitmux_linux.Model.Tab.Steps.{Step, Reachable, Reachable-IsValid}
use kitmux_linux.Model.Tab.Removal.{Removed, remove_pane_lem}
use kitmux_linux.Model.App.{AppModel, new_app, append_workspace, focus_pane, active_tab}
use kitmux_linux.Model.App.Laws.{validate_global_ids_iff, new_app_iff, append_workspace_lem}
use kitmux_linux.Model.App.Laws
use kitmux_linux.Model.App.Find.{NotIn, InWorkspace, focus_pane_lem}
use kitmux_linux.Model.Hierarchy.{IsHierarchy}
use kitmux_linux.Model.Presentation.{RuntimePresentation, runtime_presentations}
use kitmux_linux.Model.Presentation.Total.{Presented, runtime_presentations_lem}
use kitmux_linux.Tests.Samples.{
  tenths, Mock, two_panes, surface, container, container-IsValid, tab, tab-IsValid, workspace,
  other_workspace, app, app-IsHierarchy,
}

app-IsValid : Laws.IsValid app
unfolding elem
app-IsValid = record {
  active = omega arith;
  workspaces = (refl, tt);
  below = record {
    groups = (refl, tt);
    tabs = (refl, tt);
    panes = (refl, (refl, tt));
    surfaces = (refl, (refl, tt));
  };
}

append_workspace_lem_example :
    ((append_workspace app other_workspace ≡ (
      record { workspaces = workspace ∷ other_workspace ∷ []; active_workspace_index = 1 },
      ok 1,
    ))
      × Laws.IsValid
          (record { workspaces = workspace ∷ other_workspace ∷ []; active_workspace_index = 1 }))
    ⊎ ((e : ModelError) × (append_workspace app other_workspace ≡ (app, err e))
        × ¬ Laws.IsValid
            (record { workspaces = workspace ∷ other_workspace ∷ []; active_workspace_index = 1 }))
append_workspace_lem_example = append_workspace_lem app other_workspace app-IsValid

new_app_iff_example : (new_app (workspace ∷ []) 0 ≡ ok app) ↔ (
    (app ≡ record { workspaces = workspace ∷ []; active_workspace_index = 0 }) × Laws.IsValid app)
new_app_iff_example = new_app_iff (workspace ∷ []) 0 app

focus_pane_lem_example :
    (NotIn 2 app.workspaces × (focus_pane app 2 ≡ some (app, false)))
    ⊎ ((i : ℕ) × (j : ℕ) × (k : ℕ) × (r : InWorkspace 2 app.workspaces i j k) × (a' : AppModel ℕ
          Mock Mock)
        × (focus_pane app 2 ≡ some (a', true))
        × IsHierarchy a'
        × (a'.active_workspace_index ≡ i)
        × (active_tab a' ≡ some (record r.below.tab { focused_pane_id = 2 })))
focus_pane_lem_example = focus_pane_lem app 2 app-IsHierarchy

remove_pane_lem_example :
    (t' : TabModel ℕ Mock Mock) × (c : PaneContainer Mock Mock) × (remove_pane tab 2
      ≡ some (t', some c))
    × Removed tab 2 t' c
unfolding pane_ids collect_pane_ids elem
remove_pane_lem_example = remove_pane_lem tab 2 tab-IsValid (omega arith) refl

abbrev split_tab : TabModel ℕ Mock Mock
split_tab = record {
  id = 7;
  custom_title = none;
  root =
      split 10 SplitAxis.left_right 5 (split 11 SplitAxis.top_bottom 5 (pane 1) (pane 3)) (pane 2);
  focused_pane_id = 3;
  panes = (1, container 1) ∷ (2, container 2) ∷ (3, container 3) ∷ [];
}

split_runs : split_pane 11 tab 1 SplitAxis.top_bottom (container 3) ≡ ok split_tab
unfolding split_pane get insert elem pane_ids collect_pane_ids Split.split_pane
    Split.split_pane_unchecked Split.contains Split.with_id
split_runs = refl

split_pane-IsValid_example :
    Valid.IsValid split_tab
    × (Split.pane_ids split_tab.root ≡ insert_after 1 3 (Split.pane_ids two_panes))
    × (split_tab.focused_pane_id ≡ 3)
    × (get 3 split_tab.panes ≡ some (container 3))
unfolding elem
split_pane-IsValid_example =
    split_pane-IsValid 11 tab 1 SplitAxis.top_bottom (container 3) split_tab tab-IsValid
      (container-IsValid 3) refl split_runs

tab_runs : new_tab 7 two_panes 1 (container 1 ∷ container 2 ∷ []) ≡ ok tab
unfolding new_tab Split.has_unique_ids_and_valid_ratios Split.visit Split.valid_ratio get insert
    elem pane_ids collect_pane_ids Option.bind
tab_runs = refl

new_tab-IsValid_example : Valid.IsValid tab
new_tab-IsValid_example =
    new_tab-IsValid 7 two_panes 1 (container 1 ∷ container 2 ∷ []) tab
      (container-IsValid 1, (container-IsValid 2, tt)) tab_runs

abbrev added : TabModel ℕ Mock Mock
added = record tab {
  panes =
      (1, record { id = 1; surfaces = surface 101 ∷ surface 150 ∷ []; active_surface_index = 1 })
      ∷ (2, container 2)
      ∷ [];
}

add_runs : add_surface tab 1 (surface 150) ≡ ok (added, 1)
unfolding add_surface get Runtime.add elem insert
add_runs = refl

runtime_presentations_lem_example :
    (rs : List RuntimePresentation) × (runtime_presentations app ≡ some rs)
    × ((r : RuntimePresentation) → Member r rs ↔ Presented app r)
runtime_presentations_lem_example = runtime_presentations_lem app app-IsHierarchy

-- A surface is added to the first pane, and then the panes are swapped.
Reachable-IsValid_example : Valid.IsValid (swap_panes added 1 2).0
Reachable-IsValid_example = Reachable-IsValid (swap_panes added 1 2).0 (
    Reachable.stepped added _
      (Reachable.stepped tab added
        (Reachable.made 7 two_panes 1 (container 1 ∷ container 2 ∷ []) tab
          (container-IsValid 1, (container-IsValid 2, tt)) tab_runs)
        (Step.adding tab 1 (surface 150) added 1 add_runs))
      (Step.swapping added 1 2))
