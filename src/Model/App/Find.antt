-- ===== src/Model/App/Find.antt =====
-- Finding the tab that holds a pane, and focusing the pane.
use mathlib.Core.Option
use kitmux_linux.Base.{
  ℕ, suc, ◌≡◌, refl, inl, inr, All, Bool, true, false, none, some, List, [], ◌∷◌, get_elem?, set,
  subst, ◌⊎◌, arith, Option-cases,
}
use kitmux_linux.Base.Map.{has}
use kitmux_linux.Base.Everywhere.{All-get, get_elem?-set}
use kitmux_linux.Base.Vec.{position, position_sound}
use kitmux_linux.Ids.{PaneId}
use kitmux_linux.Float.{Float}
use kitmux_linux.Model.Tab.{TabModel, focus}
use kitmux_linux.Model.Tab.Valid
use kitmux_linux.Model.Tab.Focus.{focus_lem}
use kitmux_linux.Model.Group.{GroupModel, tab_id}
use kitmux_linux.Model.Workspace.{WorkspaceModel, group_id}
use kitmux_linux.Model.Hierarchy.{IsGroup, IsWorkspace, IsHierarchy, set-IsLevel, activate-IsLevel}
use kitmux_linux.Model.App.{
  AppModel, workspace_id, holds, find_in_groups, find_in_workspaces, find_pane_location,
  at_location, active_tab, focus_pane,
}

position-none :
    {A : Type 0} (test : A → Bool) (xs : List A)
    → position test xs ≡ none
    → All (λ x. test x ≡ false) xs
unfolding position
position-none test [] h = tt
position-none test (x ∷ xs) h = elim (Option-cases (position test xs)) [
  | inl n ↦ (ground arith, position-none test xs n)
  | inr (i, e) ↦ absurd (ground arith)
]

module _ {F T B : Type 0} where
  -- No tab of these groups, or of these workspaces, has the pane.
  abbrev pub NotInGroups : PaneId → List (GroupModel F T B) → Type 0
  NotInGroups p gs = All (λ g. All (λ t. has p t.panes ≡ false) g.tabs) gs

  abbrev pub NotIn : PaneId → List (WorkspaceModel F T B) → Type 0
  NotIn p ws = All (λ w. NotInGroups p w.groups) ws

  find_in_groups-none :
      (p : PaneId) (gs : List (GroupModel F T B)) → find_in_groups p gs ≡ none → NotInGroups p gs
  unfolding find_in_groups
  find_in_groups-none p [] h = tt
  find_in_groups-none p (g ∷ gs) h = elim (Option-cases (position (holds p) g.tabs)) [
    | inr (k, e) ↦ absurd (ground arith)
    | inl e ↦ elim (Option-cases (find_in_groups p gs)) [
      | inl n ↦ (position-none (holds p) g.tabs e, find_in_groups-none p gs n)
      | inr ((j, k), e') ↦ absurd (ground arith)
    ]
  ]

  pub find_in_workspaces-none :
      (p : PaneId) (ws : List (WorkspaceModel F T B)) → find_in_workspaces p ws ≡ none → NotIn p ws
  unfolding find_in_workspaces
  find_in_workspaces-none p [] h = tt
  find_in_workspaces-none p (w ∷ ws) h = elim (Option-cases (find_in_groups p w.groups)) [
    | inr ((j, k), e) ↦ absurd (ground arith)
    | inl e ↦ elim (Option-cases (find_in_workspaces p ws)) [
      | inl n ↦ (find_in_groups-none p w.groups e, find_in_workspaces-none p ws n)
      | inr ((i, j, k), e') ↦ absurd (ground arith)
    ]
  ]

  pub record InGroup (p : PaneId) (gs : List (GroupModel F T B)) (j k : ℕ) : Type 0 where
    pub group : GroupModel F T B
    pub tab : TabModel F T B
    pub at_group : get_elem? gs j ≡ some group
    pub at_tab : get_elem? group.tabs k ≡ some tab
    pub found : has p tab.panes ≡ true

  find_in_groups_lem :
      (p : PaneId) (gs : List (GroupModel F T B)) (j k : ℕ)
      → find_in_groups p gs ≡ some (j, k)
      → InGroup p gs j k
  unfolding find_in_groups
  find_in_groups_lem p [] j k h = absurd (ground arith)
  find_in_groups_lem p (g ∷ gs) j k h = elim (Option-cases (position (holds p) g.tabs)) [
    | inr (t, e) ↦
        let (x, gx, hx) = position_sound (holds p) g.tabs t e in
        let ej : 0 ≡ j = ground arith in
        let ek : t ≡ k = ground arith in
        rw (← ej, ← ek) (record { group = g; tab = x; at_group = refl; at_tab = gx; found = hx })
    | inl e ↦ elim (Option-cases (find_in_groups p gs)) [
      | inl n ↦ absurd (ground arith)
      | inr ((j', k'), e') ↦
          let r = find_in_groups_lem p gs j' k' e' in
          let ej : suc j' ≡ j = ground arith in
          let ek : k' ≡ k = ground arith in
          rw (← ej, ← ek)
            (record {
              group = r.group;
              tab = r.tab;
              at_group = r.at_group;
              at_tab = r.at_tab;
              found = r.found;
            })
    ]
  ]

  pub record InWorkspace (p : PaneId) (ws : List (WorkspaceModel F T B)) (i j k : ℕ) : Type 0 where
    pub workspace : WorkspaceModel F T B
    pub at_workspace : get_elem? ws i ≡ some workspace
    pub below : InGroup p workspace.groups j k

  pub find_in_workspaces_lem :
      (p : PaneId) (ws : List (WorkspaceModel F T B)) (i j k : ℕ)
      → find_in_workspaces p ws ≡ some (i, j, k)
      → InWorkspace p ws i j k
  unfolding find_in_workspaces
  find_in_workspaces_lem p [] i j k h = absurd (ground arith)
  find_in_workspaces_lem p (w ∷ ws) i j k h = elim (Option-cases (find_in_groups p w.groups)) [
    | inr ((j', k'), e) ↦
        let ei : 0 ≡ i = ground arith in
        let ej : j' ≡ j = ground arith in
        let ek : k' ≡ k = ground arith in
        rw (← ei, ← ej, ← ek)
          (record {
            workspace = w;
            at_workspace = refl;
            below = find_in_groups_lem p w.groups j' k' e;
          })
    | inl n ↦ elim (Option-cases (find_in_workspaces p ws)) [
      | inl n' ↦ absurd (ground arith)
      | inr ((i', j', k'), e) ↦
          let r = find_in_workspaces_lem p ws i' j' k' e in
          let ei : suc i' ≡ i = ground arith in
          let ej : j' ≡ j = ground arith in
          let ek : k' ≡ k = ground arith in
          rw (← ei, ← ej, ← ek)
            (record { workspace = r.workspace; at_workspace = r.at_workspace; below = r.below })
    ]
  ]

module _ {F T B : Type 0} ⦃f : Float F⦄ where
  -- In a hierarchy whose tabs are valid and in which every level has distinct identifiers and an
  -- active member, focusing a pane never panics. Where no tab has the pane the call reports false
  -- and changes nothing; otherwise it reports true, the hierarchy is valid again, and a tab that
  -- had the pane is now the active tab of the active group of the active workspace, as it was but
  -- with the focus on that pane.
  pub focus_pane_lem :
      (a : AppModel F T B) (p : PaneId)
      → IsHierarchy a
      → (NotIn p a.workspaces × (focus_pane a p ≡ some (a, false)))
        ⊎ ((i : ℕ) × (j : ℕ) × (k : ℕ) × (r : InWorkspace p a.workspaces i j k) × (a' : AppModel F T
              B)
            × (focus_pane a p ≡ some (a', true))
            × IsHierarchy a'
            × (a'.active_workspace_index ≡ i)
            × (active_tab a' ≡ some (record r.below.tab { focused_pane_id = p })))
  unfolding find_pane_location at_location focus_pane active_tab focus Option.bind
  focus_pane_lem a p v = elim (Option-cases (find_in_workspaces p a.workspaces)) [
    | inl n ↦ inl (find_in_workspaces-none p a.workspaces n, rw (n, focus_pane) refl)
    | inr ((i, j, k), e) ↦
        let r = find_in_workspaces_lem p a.workspaces i j k e in
        let w = r.workspace in
        let g = r.below.group in
        let t = r.below.tab in
        let vw = All-get IsWorkspace a.workspaces i w v.members r.at_workspace in
        let vg = All-get IsGroup w.groups j g vw.members r.below.at_group in
        let vt = All-get Valid.IsValid g.tabs k t vg.members r.below.at_tab in
        let t' : TabModel F T B = record t { focused_pane_id = p } in
        let g' : GroupModel F T B = record g { tabs = set g.tabs k t'; active_tab_index = k } in
        let w' : WorkspaceModel F T B = record w {
          groups = set w.groups j g';
          active_group_index = j;
        } in
        let a' : AppModel F T B = record {
          workspaces = set a.workspaces i w';
          active_workspace_index = i;
        } in
        let ht = r.below.found in
        let ef : (focus t p).0 ≡ t' = rw ht refl in
        let vt' : Valid.IsValid t' = subst Valid.IsValid ef (focus_lem t p vt).0 in
        let st = get_elem?-set g.tabs k t' t r.below.at_tab in
        let sg = get_elem?-set w.groups j g' g r.below.at_group in
        let sw = get_elem?-set a.workspaces i w' w r.at_workspace in
        let vg' : IsGroup g' =
          activate-IsLevel Valid.IsValid tab_id (set g.tabs k t') g.active_tab_index k t'
            (set-IsLevel Valid.IsValid tab_id g.tabs g.active_tab_index k t' t vg r.below.at_tab
              refl vt')
            st in
        let vw' : IsWorkspace w' =
          activate-IsLevel IsGroup group_id (set w.groups j g') w.active_group_index j g'
            (set-IsLevel IsGroup group_id w.groups w.active_group_index j g' g vw r.below.at_group
              refl vg')
            sg in
        let va' : IsHierarchy a' =
          activate-IsLevel IsWorkspace workspace_id (set a.workspaces i w') a.active_workspace_index
            i w'
            (set-IsLevel IsWorkspace workspace_id a.workspaces a.active_workspace_index i w' w v
              r.at_workspace refl vw')
            sw in
        inr (
          i,
          j,
          k,
          r,
          a',
          rw (e, r.at_workspace, r.below.at_group, r.below.at_tab, ht, focus_pane) refl,
          va',
          refl,
          rw (sw, sg, st, active_tab) refl,
        )
  ]
