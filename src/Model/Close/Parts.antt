-- ===== src/Model/Close/Parts.antt =====
-- Closing a pane at its place, case by case of the scope.
use kitmux_linux.Base.{
  ℕ, ◌<◌, ◌≤◌, ◌≡◌, ◌⊎◌, refl, sym, ◌∙◌, inl, inr, true, some, List, [], ◌∷◌, ltb, elem, get_elem?,
  length, set, arith, Bool-cases, Option-cases,
}
use kitmux_linux.Base.Map.{has-keys}
use kitmux_linux.Base.Vec.{lt_of_get}
use kitmux_linux.Ids.{PaneId}
use kitmux_linux.Float.{Float}
use kitmux_linux.Split
use kitmux_linux.Runtime.{Runtimes, PaneContainer, close_container}
use kitmux_linux.Model.Selection.{remove_selected}
use kitmux_linux.Model.Selection.Laws.{
  IsSelection, Removes, remove_selected-none, remove_selected_lem,
}
use kitmux_linux.Model.Tab.{TabModel, pane_count, close_tab_panes}
use kitmux_linux.Model.Tab.Valid
use kitmux_linux.Model.Tab.Removal.{Removed, remove_pane_lem}
use kitmux_linux.Model.Group.{GroupModel, tab_id, remove_tab, close_tabs}
use kitmux_linux.Model.Workspace.{WorkspaceModel, group_id, remove_group, close_groups}
use kitmux_linux.Model.App.{AppModel, workspace_id, remove_workspace}
use kitmux_linux.Model.App.Find.{InWorkspace}
use kitmux_linux.Model.Hierarchy.{
  IsGroup, IsWorkspace, IsHierarchy, set-IsLevel, remove_selected-IsLevel,
}
use kitmux_linux.Model.Close.{
  CloseScope, CloseOutcome, removed, host_close_required, scope_at, close_at, tab_containers,
  group_containers, workspace_containers,
}

-- A removal that succeeds.
removing :
    {A : Type 0} (id : A → ℕ) (values : List A) (active i : ℕ) (x : A)
    → IsSelection id values active
    → 1 < length values
    → get_elem? values i ≡ some x
    → (rest : List A) × (active' : ℕ) × (remove_selected values active i ≡ some (x, rest, active'))
      × Removes id values active i x rest active'
removing id values active i x v two g = elim (Option-cases (remove_selected values active i)) [
  | inl e ↦
      let n = (remove_selected-none id values active i).0 e in
      absurd (ground (arith, lt_of_get values i x g))
  | inr ((y, rest, active'), e) ↦
      let m = remove_selected_lem id values active i y rest active' v e in
      let same : y ≡ x = cc (m.removed) in (rest, active', rw same at e, rw same at m)
]

module _ {F T B : Type 0} ⦃f : Float F⦄ ⦃rt : Runtimes T B⦄ where
  -- The hierarchy with another group in the place of one.
  abbrev pub with_group :
      AppModel F T B → ℕ → WorkspaceModel F T B → ℕ → GroupModel F T B → AppModel F T B
  with_group a i w j g = record a {
    workspaces = set a.workspaces i (record w { groups = set w.groups j g });
  }

  module _ (a : AppModel F T B) (p : PaneId) (i j k : ℕ)
      (r : InWorkspace p a.workspaces i j k) where
    -- What goes, by the scope. The scope is the smallest part of the hierarchy around the pane that
    -- does not leave the part above it empty; only the last workspace is left to the host.
    abbrev pub Closes :
        CloseScope → CloseOutcome → List (PaneContainer T B) → AppModel F T B → Type 0
    Closes (CloseScope.pane q) outcome gone a' =
        (q ≡ p)
        × (1 < length r.below.tab.panes)
        × (outcome ≡ removed (CloseScope.pane p))
        × ((t' : TabModel F T B) × (c : PaneContainer T B) × Removed r.below.tab p t' c
            × (gone ≡ close_container c ∷ [])
            × (a'
                ≡ with_group a i r.workspace j
                    (record r.below.group { tabs = set r.below.group.tabs k t' })))
    Closes (CloseScope.tab id) outcome gone a' =
        (id ≡ r.below.tab.id)
        × (length r.below.tab.panes ≤ 1)
        × (1 < length r.below.group.tabs)
        × (outcome ≡ removed (CloseScope.tab id))
        × (gone ≡ tab_containers (close_tab_panes r.below.tab))
        × ((rest : List (TabModel F T B)) × (active : ℕ) × Removes tab_id r.below.group.tabs
              r.below.group.active_tab_index k r.below.tab rest active
            × (a'
                ≡ with_group a i r.workspace j
                    (record r.below.group { tabs = rest; active_tab_index = active })))
    Closes (CloseScope.group id) outcome gone a' =
        (id ≡ r.below.group.id)
        × (length r.below.tab.panes ≤ 1)
        × (length r.below.group.tabs ≤ 1)
        × (1 < length r.workspace.groups)
        × (outcome ≡ removed (CloseScope.group id))
        × (gone ≡ group_containers (close_tabs r.below.group))
        × ((rest : List (GroupModel F T B)) × (active : ℕ) × Removes group_id r.workspace.groups
              r.workspace.active_group_index j r.below.group rest active
            × (a' ≡ record a {
              workspaces =
                  set a.workspaces i
                    (record r.workspace { groups = rest; active_group_index = active });
            }))
    Closes (CloseScope.workspace id) outcome gone a' =
        (id ≡ r.workspace.id)
        × (length r.below.tab.panes ≤ 1)
        × (length r.below.group.tabs ≤ 1)
        × (length r.workspace.groups ≤ 1)
        × (((length a.workspaces ≡ 1)
              × (outcome ≡ host_close_required (CloseScope.workspace id))
              × (gone ≡ [])
              × (a' ≡ a))
            ⊎ ((1 < length a.workspaces)
                × (outcome ≡ removed (CloseScope.workspace id))
                × (gone ≡ workspace_containers (close_groups r.workspace))
                × ((rest : List (WorkspaceModel F T B)) × (active : ℕ) × Removes workspace_id
                      a.workspaces a.active_workspace_index i r.workspace rest active
                    × (a' ≡ record { workspaces = rest; active_workspace_index = active }))))

    pub record ClosedAt (scope : CloseScope) : Type 0 where
      pub outcome : CloseOutcome
      pub gone : List (PaneContainer T B)
      pub after : AppModel F T B
      pub runs :
          close_at a p (i, j, k) (r.workspace, r.below.group, r.below.tab) scope
          ≡ some (outcome, gone, after)
      pub valid : IsHierarchy after
      pub closes : Closes scope outcome gone after

    module _ (va : IsHierarchy a) (vw : IsWorkspace r.workspace) (vg : IsGroup r.below.group)
        (vt : Valid.IsValid r.below.tab) where
      with_group-IsHierarchy :
          (g' : GroupModel F T B)
          → g'.id ≡ r.below.group.id
          → IsGroup g'
          → IsHierarchy (with_group a i r.workspace j g')
      with_group-IsHierarchy g' e v =
          let w = r.workspace in
          set-IsLevel IsWorkspace workspace_id a.workspaces a.active_workspace_index i
            (record w { groups = set w.groups j g' }) w va r.at_workspace refl
            (set-IsLevel IsGroup group_id w.groups w.active_group_index j g' r.below.group vw
              r.below.at_group e v)

      close_pane_at : 1 < length r.below.tab.panes → ClosedAt (CloseScope.pane p)
      unfolding close_at
      close_pane_at many =
          let g = r.below.group in
          let t = r.below.tab in
          let h : elem (Split.pane_ids t.root) p ≡ true =
            sym (vt.agree p) ∙ sym (has-keys p t.panes) ∙ r.below.found in
          let (t', c, q, m) = remove_pane_lem t p vt many h in
          let g' : GroupModel F T B = record g { tabs = set g.tabs k t' } in
          let vg' : IsGroup g' =
            set-IsLevel Valid.IsValid tab_id g.tabs g.active_tab_index k t' t vg r.below.at_tab
              m.same_tab.0 m.valid in
          record {
            outcome = removed (CloseScope.pane p);
            gone = close_container c ∷ [];
            after = with_group a i r.workspace j g';
            runs = rw (q, close_at) refl;
            valid = with_group-IsHierarchy g' refl vg';
            closes = (refl, many, refl, (t', c, m, refl, refl));
          }

      close_tab_at :
          length r.below.tab.panes ≤ 1
          → 1 < length r.below.group.tabs
          → ClosedAt (CloseScope.tab r.below.tab.id)
      unfolding close_at remove_tab
      close_tab_at single many =
          let g = r.below.group in
          let (rest, active, q, m) =
            removing tab_id g.tabs g.active_tab_index k r.below.tab vg.selection many
              r.below.at_tab in
          let g' : GroupModel F T B = record g { tabs = rest; active_tab_index = active } in
          let vg' : IsGroup g' =
            remove_selected-IsLevel Valid.IsValid tab_id g.tabs g.active_tab_index k r.below.tab
              rest active vg q in
          record {
            outcome = removed (CloseScope.tab r.below.tab.id);
            gone = tab_containers (close_tab_panes r.below.tab);
            after = with_group a i r.workspace j g';
            runs = rw (q, remove_tab, close_at) refl;
            valid = with_group-IsHierarchy g' refl vg';
            closes = (refl, single, many, refl, refl, (rest, active, m, refl));
          }

      close_group_at :
          length r.below.tab.panes ≤ 1
          → length r.below.group.tabs ≤ 1
          → 1 < length r.workspace.groups
          → ClosedAt (CloseScope.group r.below.group.id)
      unfolding close_at remove_group
      close_group_at single single' many =
          let w = r.workspace in
          let (rest, active, q, m) =
            removing group_id w.groups w.active_group_index j r.below.group vw.selection many
              r.below.at_group in
          let w' : WorkspaceModel F T B = record w { groups = rest; active_group_index = active } in
          let vw' : IsWorkspace w' =
            remove_selected-IsLevel IsGroup group_id w.groups w.active_group_index j r.below.group
              rest active vw q in
          record {
            outcome = removed (CloseScope.group r.below.group.id);
            gone = group_containers (close_tabs r.below.group);
            after = record a { workspaces = set a.workspaces i w' };
            runs = rw (q, remove_group, close_at) refl;
            valid =
                set-IsLevel IsWorkspace workspace_id a.workspaces a.active_workspace_index i w' w va
                  r.at_workspace refl vw';
            closes = (refl, single, single', many, refl, refl, (rest, active, m, refl));
          }

      close_workspace_at :
          length r.below.tab.panes ≤ 1
          → length r.below.group.tabs ≤ 1
          → length r.workspace.groups ≤ 1
          → ClosedAt (CloseScope.workspace r.workspace.id)
      unfolding close_at remove_workspace
      close_workspace_at single single' single'' = elim (Bool-cases (ltb 1 (length a.workspaces))) [
        | inl e ↦
            let many : 1 < length a.workspaces = ground (arith, e) in
            let (rest, active, q, m) =
              removing workspace_id a.workspaces a.active_workspace_index i r.workspace va.selection
                many r.at_workspace in
            record {
              outcome = removed (CloseScope.workspace r.workspace.id);
              gone = workspace_containers (close_groups r.workspace);
              after = record { workspaces = rest; active_workspace_index = active };
              runs = rw (e, q, remove_workspace, close_at) refl;
              valid =
                  remove_selected-IsLevel IsWorkspace workspace_id a.workspaces
                    a.active_workspace_index i r.workspace rest active va q;
              closes = (
                refl,
                single,
                single',
                single'',
                inr (many, refl, refl, (rest, active, m, refl)),
              );
            }
        | inr last ↦
            let only : length a.workspaces ≡ 1 = ground (arith, last, va.selection.in_range) in
            record {
              outcome = host_close_required (CloseScope.workspace r.workspace.id);
              gone = [];
              after = a;
              runs = rw (last, close_at) refl;
              valid = va;
              closes = (refl, single, single', single'', inl (only, refl, refl, refl));
            }
      ]

      pub close_at_lem : ClosedAt (scope_at p r.workspace r.below.group r.below.tab)
      unfolding pane_count
      close_at_lem = elim (Bool-cases (ltb 1 (length r.below.tab.panes))) [
        | inl e ↦ rw e (close_pane_at (ground (arith, e)))
        | inr n ↦ elim (Bool-cases (ltb 1 (length r.below.group.tabs))) [
          | inl e ↦ rw (n, e) (close_tab_at (ground (arith, n)) (ground (arith, e)))
          | inr n' ↦ elim (Bool-cases (ltb 1 (length r.workspace.groups))) [
            | inl e ↦
                rw (n, n', e)
                  (close_group_at (ground (arith, n)) (ground (arith, n')) (ground (arith, e)))
            | inr n'' ↦
                rw (n, n', n'')
                  (close_workspace_at (ground (arith, n)) (ground (arith, n'))
                    (ground (arith, n'')))
          ]
        ]
      ]
