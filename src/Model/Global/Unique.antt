-- ===== src/Model/Global/Unique.antt =====
-- The identifiers that the nested loops of the check visit, kind by kind.
use kitmux_linux.Base.{
  ℕ, ◌≡◌, ap, inl, inr, false, List, [], ◌∷◌, map, elem, Distinct, concat_map, arith,
}
use kitmux_linux.Base.Result.{ok, Result-cases}
use kitmux_linux.Base.Unique.{insert_all, insert_all_sound, insert_all_complete, Apart-nil}
use kitmux_linux.Model.Tab.{TabModel}
use kitmux_linux.Model.Group.{GroupModel, tab_id}
use kitmux_linux.Model.Workspace.{WorkspaceModel, group_id}
use kitmux_linux.Model.Global.{
  Seen, nothing_seen, visit_panes, visit_tabs, visit_groups, visit_workspaces,
}
use kitmux_linux.Model.Global.Inserts.{
  Inserts, Inserts-join, Inserts-split, Inserts-nil, ok-Inserts, surface_ids, container_ids,
  panes_sound, panes_complete,
}

module _ {F T B : Type 0} where
  abbrev pub tab_panes : TabModel F T B → List ℕ
  tab_panes t = container_ids t.panes

  abbrev pub tab_surfaces : TabModel F T B → List ℕ
  tab_surfaces t = surface_ids t.panes

  tabs_sound :
      (xs : List (TabModel F T B)) (s s' : Seen)
      → visit_tabs xs s ≡ ok s'
      → Inserts s s' [] (map tab_id xs) (concat_map tab_panes xs) (concat_map tab_surfaces xs)
  unfolding visit_tabs insert_all
  tabs_sound [] s s' h = ok-Inserts s s' h
  tabs_sound (x ∷ xs) s s' h =
      elim (Result-cases (visit_panes x.panes (record s { tabs = x.id ∷ s.tabs }))) [
        | inl (y, e) ↦ absurd (ground arith)
        | inr (s1, e) ↦
            let r =
              Inserts-join (record s { tabs = x.id ∷ s.tabs }) s1 s' [] [] (tab_panes x)
                (tab_surfaces x) [] (map tab_id xs) (concat_map tab_panes xs)
                (concat_map tab_surfaces xs) (panes_sound x.panes _ s1 e)
                (tabs_sound xs s1 s' (ground arith)) in
            record {
              groups = r.groups;
              tabs = ground (arith, r.tabs);
              panes = r.panes;
              surfaces = r.surfaces;
            }
      ]

  tabs_complete :
      (xs : List (TabModel F T B)) (s s' : Seen)
      → Inserts s s' [] (map tab_id xs) (concat_map tab_panes xs) (concat_map tab_surfaces xs)
      → visit_tabs xs s ≡ ok s'
  unfolding visit_tabs insert_all
  tabs_complete [] s s' h = ap ok (Inserts-nil s s' h)
  tabs_complete (x ∷ xs) s s' h =
      let n : elem s.tabs x.id ≡ false = ground (arith, h.tabs) in
      let (s1, l, r) =
        Inserts-split (record s { tabs = x.id ∷ s.tabs }) s' [] [] (tab_panes x) (tab_surfaces x) []
          (map tab_id xs) (concat_map tab_panes xs) (concat_map tab_surfaces xs)
          (record {
            groups = h.groups;
            tabs = ground (arith, h.tabs);
            panes = h.panes;
            surfaces = h.surfaces;
          }) in
      let e = panes_complete x.panes (record s { tabs = x.id ∷ s.tabs }) s1 l in
      rw (n, e) (tabs_complete xs s1 s' r)

  abbrev pub group_tabs : GroupModel F T B → List ℕ
  group_tabs g = map tab_id g.tabs

  abbrev pub group_panes : GroupModel F T B → List ℕ
  group_panes g = concat_map tab_panes g.tabs

  abbrev pub group_surfaces : GroupModel F T B → List ℕ
  group_surfaces g = concat_map tab_surfaces g.tabs

  groups_sound :
      (xs : List (GroupModel F T B)) (s s' : Seen)
      → visit_groups xs s ≡ ok s'
      → Inserts s s'
          (map group_id xs)
          (concat_map group_tabs xs)
          (concat_map group_panes xs)
          (concat_map group_surfaces xs)
  unfolding visit_groups insert_all
  groups_sound [] s s' h = ok-Inserts s s' h
  groups_sound (x ∷ xs) s s' h =
      elim (Result-cases (visit_tabs x.tabs (record s { groups = x.id ∷ s.groups }))) [
        | inl (y, e) ↦ absurd (ground arith)
        | inr (s1, e) ↦
            let r =
              Inserts-join (record s { groups = x.id ∷ s.groups }) s1 s' [] (group_tabs x)
                (group_panes x) (group_surfaces x) (map group_id xs) (concat_map group_tabs xs)
                (concat_map group_panes xs) (concat_map group_surfaces xs)
                (tabs_sound x.tabs _ s1 e) (groups_sound xs s1 s' (ground arith)) in
            record {
              groups = ground (arith, r.groups);
              tabs = r.tabs;
              panes = r.panes;
              surfaces = r.surfaces;
            }
      ]

  groups_complete :
      (xs : List (GroupModel F T B)) (s s' : Seen)
      → Inserts s s'
          (map group_id xs)
          (concat_map group_tabs xs)
          (concat_map group_panes xs)
          (concat_map group_surfaces xs)
      → visit_groups xs s ≡ ok s'
  unfolding visit_groups insert_all
  groups_complete [] s s' h = ap ok (Inserts-nil s s' h)
  groups_complete (x ∷ xs) s s' h =
      let n : elem s.groups x.id ≡ false = ground (arith, h.groups) in
      let (s1, l, r) =
        Inserts-split (record s { groups = x.id ∷ s.groups }) s' [] (group_tabs x) (group_panes x)
          (group_surfaces x) (map group_id xs) (concat_map group_tabs xs)
          (concat_map group_panes xs) (concat_map group_surfaces xs)
          (record {
            groups = ground (arith, h.groups);
            tabs = h.tabs;
            panes = h.panes;
            surfaces = h.surfaces;
          }) in
      let e = tabs_complete x.tabs (record s { groups = x.id ∷ s.groups }) s1 l in
      rw (n, e) (groups_complete xs s1 s' r)

  abbrev pub workspace_groups : WorkspaceModel F T B → List ℕ
  workspace_groups w = map group_id w.groups

  abbrev pub workspace_tabs : WorkspaceModel F T B → List ℕ
  workspace_tabs w = concat_map group_tabs w.groups

  abbrev pub workspace_panes : WorkspaceModel F T B → List ℕ
  workspace_panes w = concat_map group_panes w.groups

  abbrev pub workspace_surfaces : WorkspaceModel F T B → List ℕ
  workspace_surfaces w = concat_map group_surfaces w.groups

  workspaces_sound :
      (xs : List (WorkspaceModel F T B)) (s s' : Seen)
      → visit_workspaces xs s ≡ ok s'
      → Inserts s s'
          (concat_map workspace_groups xs)
          (concat_map workspace_tabs xs)
          (concat_map workspace_panes xs)
          (concat_map workspace_surfaces xs)
  unfolding visit_workspaces insert_all
  workspaces_sound [] s s' h = ok-Inserts s s' h
  workspaces_sound (x ∷ xs) s s' h = elim (Result-cases (visit_groups x.groups s)) [
    | inl (y, e) ↦ absurd (ground arith)
    | inr (s1, e) ↦
        Inserts-join s s1 s' (workspace_groups x) (workspace_tabs x) (workspace_panes x)
          (workspace_surfaces x) (concat_map workspace_groups xs) (concat_map workspace_tabs xs)
          (concat_map workspace_panes xs) (concat_map workspace_surfaces xs)
          (groups_sound x.groups s s1 e) (workspaces_sound xs s1 s' (ground arith))
  ]

  workspaces_complete :
      (xs : List (WorkspaceModel F T B)) (s s' : Seen)
      → Inserts s s'
          (concat_map workspace_groups xs)
          (concat_map workspace_tabs xs)
          (concat_map workspace_panes xs)
          (concat_map workspace_surfaces xs)
      → visit_workspaces xs s ≡ ok s'
  unfolding visit_workspaces insert_all
  workspaces_complete [] s s' h = ap ok (Inserts-nil s s' h)
  workspaces_complete (x ∷ xs) s s' h =
      let (s1, l, r) =
        Inserts-split s s' (workspace_groups x) (workspace_tabs x) (workspace_panes x)
          (workspace_surfaces x) (concat_map workspace_groups xs) (concat_map workspace_tabs xs)
          (concat_map workspace_panes xs) (concat_map workspace_surfaces xs) h in
      let e = groups_complete x.groups s s1 l in
      rw (e, visit_workspaces) (workspaces_complete xs s1 s' r)

  -- No identifier of a kind occurs twice in the hierarchy below these workspaces.
  pub record GloballyDistinct (xs : List (WorkspaceModel F T B)) : Type 0 where
    pub groups : Distinct (concat_map workspace_groups xs)
    pub tabs : Distinct (concat_map workspace_tabs xs)
    pub panes : Distinct (concat_map workspace_panes xs)
    pub surfaces : Distinct (concat_map workspace_surfaces xs)

  pub visit_workspaces_sound :
      (xs : List (WorkspaceModel F T B)) (s : Seen)
      → visit_workspaces xs nothing_seen ≡ ok s
      → GloballyDistinct xs
  visit_workspaces_sound xs s h =
      let i = workspaces_sound xs nothing_seen s h in
      record {
        groups = (insert_all_sound _ [] _ i.groups).0;
        tabs = (insert_all_sound _ [] _ i.tabs).0;
        panes = (insert_all_sound _ [] _ i.panes).0;
        surfaces = (insert_all_sound _ [] _ i.surfaces).0;
      }

  pub visit_workspaces_complete :
      (xs : List (WorkspaceModel F T B))
      → GloballyDistinct xs
      → (s : Seen) × (visit_workspaces xs nothing_seen ≡ ok s)
  visit_workspaces_complete xs d =
      let (g, eg) = insert_all_complete _ [] d.groups (Apart-nil _) in
      let (t, et) = insert_all_complete _ [] d.tabs (Apart-nil _) in
      let (p, ep) = insert_all_complete _ [] d.panes (Apart-nil _) in
      let (f, ef) = insert_all_complete _ [] d.surfaces (Apart-nil _) in
      let s : Seen = record { groups = g; tabs = t; panes = p; surfaces = f } in
      (
        s,
        workspaces_complete xs nothing_seen s
            (record { groups = eg; tabs = et; panes = ep; surfaces = ef }),
      )
