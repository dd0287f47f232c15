-- ===== src/Snapshot/Members.antt =====
-- The workspaces, groups and tabs of a saved session that have been checked and repaired.
use mathlib.Core.Option
use kitmux_linux.Base.{
  ℕ, suc, ◌≡◌, refl, ap, ◌∙◌, inl, inr, true, false, not, none, some, List, [], ◌∷◌, concat_map,
  length, elem, All, arith, Option-cases,
}
use kitmux_linux.Base.Int.{pos, ◌≤ℤ◌}
use kitmux_linux.Base.Result.{OnOk, guard-OnOk, bind-OnOk}
use kitmux_linux.Base.Unique.{insert_all, insert_all-append}
use kitmux_linux.Ids.{WorkspaceId, PaneId}
use kitmux_linux.Float.{Float}
use kitmux_linux.Split.{pane_ids, has_unique_ids_and_valid_ratios}
use kitmux_linux.Split.Valid.{IsWellFormed, has_unique_ids-iff-IsWellFormed}
use kitmux_linux.Snapshot.Data.{TerminalTabSnapshot, TabGroupSnapshot, WorkspaceSnapshot}
use kitmux_linux.Text.{Text}
use kitmux_linux.Snapshot.{
  non_empty, repair_tab, validate_tab, validate_tabs, validate_group, validate_groups, workspace_id,
  validate_workspace, validate_workspaces,
}
use kitmux_linux.Snapshot.Checks.{
  InRange, clamp_index-InRange, at_least_lem, first_or-elem, pane_ids_some, Inserted, AllOf,
  checked_list, non_empty-length, IsUnseen, unseen_rest,
}

module _ {F : Type 0} ⦃f : Float F⦄ where
  pub record IsTab (t : TerminalTabSnapshot F) : Type 0 where
    pub root : IsWellFormed t.root
    pub focus : elem (pane_ids t.root) t.focused_pane_id ≡ true

  pub record IsGroup (g : TabGroupSnapshot F) : Type 0 where
    pub active : InRange g.active_terminal_tab_index (length g.terminal_tabs)
    pub tabs : All IsTab g.terminal_tabs

  pub record IsWorkspace (w : WorkspaceSnapshot F) : Type 0 where
    pub id : (i : WorkspaceId) × (w.id ≡ some i)
    pub active : InRange w.active_tab_group_index (length w.tab_groups)
    pub created : pos (length w.tab_groups) ≤ℤ w.created_group_count
    pub groups : All IsGroup w.tab_groups

  abbrev pub tab_panes : TerminalTabSnapshot F → List PaneId
  tab_panes t = pane_ids t.root

  abbrev pub group_panes : TabGroupSnapshot F → List PaneId
  group_panes g = concat_map tab_panes g.terminal_tabs

  abbrev pub workspace_panes : WorkspaceSnapshot F → List PaneId
  workspace_panes w = concat_map group_panes w.tab_groups

  abbrev pub own_id : WorkspaceSnapshot F → List WorkspaceId
  own_id w = elim w.id [ some i ↦ i ∷ [] | none ↦ [] ]

  abbrev pub workspace_ids : List (WorkspaceSnapshot F) → List WorkspaceId
  workspace_ids ws = concat_map own_id ws

  module _ (uuid_text : PaneId → Text) (fresh : ℕ → WorkspaceId) where
    repair_tab-IsTab :
        (tab : TerminalTabSnapshot F)
        → IsWellFormed tab.root
        → IsTab (repair_tab uuid_text fresh tab)
    unfolding repair_tab
    repair_tab-IsTab tab w =
        let some_pane =
          first_or-elem tab.focused_pane_id (pane_ids tab.root) (pane_ids_some tab.root) in
        record { root = w; focus = ground (arith, some_pane) }

    validate_tab-IsTab :
        (panes : List PaneId) (tab : TerminalTabSnapshot F)
        → OnOk (Inserted IsTab tab_panes panes) (validate_tab uuid_text fresh panes tab)
    unfolding validate_tab repair_tab
    validate_tab-IsTab panes tab = guard-OnOk (has_unique_ids_and_valid_ratios tab.root) _ _ λ h.
        elim (Option-cases (insert_all (pane_ids tab.root) panes)) [
          | inl e ↦ rw e OnOk.on_err
          | inr (panes', e) ↦
              let w = (has_unique_ids-iff-IsWellFormed tab.root).0 h in
              rw e (OnOk.on_ok (repair_tab-IsTab tab w, e))
        ]

    validate_tabs-AllOf :
        (panes : List PaneId) (tabs : List (TerminalTabSnapshot F))
        → OnOk
            (Inserted (AllOf IsTab (length tabs)) (concat_map tab_panes) panes)
            (validate_tabs uuid_text fresh panes tabs)
    unfolding validate_tabs insert_all
    validate_tabs-AllOf panes [] = OnOk.on_ok ((refl, tt), refl)
    validate_tabs-AllOf panes (tab ∷ tabs) =
        checked_list tab_panes panes (validate_tab uuid_text fresh panes tab)
          (λ p. validate_tabs uuid_text fresh p tabs) (validate_tab-IsTab panes tab)
          λ p. validate_tabs-AllOf p tabs

    validate_group-IsGroup :
        (panes : List PaneId) (group : TabGroupSnapshot F)
        → OnOk (Inserted IsGroup group_panes panes) (validate_group uuid_text fresh panes group)
    unfolding validate_group
    validate_group-IsGroup panes group = guard-OnOk (non_empty group.terminal_tabs) _ _ λ some_tab.
        bind-OnOk (validate_tabs uuid_text fresh panes group.terminal_tabs) _
          (validate_tabs-AllOf panes group.terminal_tabs)
          λ (tabs, panes') ((l, a), e).
            let n = non_empty-length group.terminal_tabs tabs some_tab l in
            OnOk.on_ok (
              record { active = clamp_index-InRange group.active_terminal_tab_index _ n; tabs = a },
              e,
            )

    validate_groups-AllOf :
        (panes : List PaneId) (groups : List (TabGroupSnapshot F))
        → OnOk
            (Inserted (AllOf IsGroup (length groups)) (concat_map group_panes) panes)
            (validate_groups uuid_text fresh panes groups)
    unfolding validate_groups insert_all
    validate_groups-AllOf panes [] = OnOk.on_ok ((refl, tt), refl)
    validate_groups-AllOf panes (group ∷ groups) =
        checked_list group_panes panes (validate_group uuid_text fresh panes group)
          (λ p. validate_groups uuid_text fresh p groups) (validate_group-IsGroup panes group)
          λ p. validate_groups-AllOf p groups

    -- A workspace with its identifier.
    abbrev IsNamed : WorkspaceId → WorkspaceSnapshot F → Type 0
    IsNamed id w = IsWorkspace w × (w.id ≡ some id)

    validate_workspace-IsNamed :
        (id : WorkspaceId) (panes : List PaneId) (workspace : WorkspaceSnapshot F)
        → OnOk
            (Inserted (IsNamed id) workspace_panes panes)
            (validate_workspace uuid_text fresh id panes workspace)
    unfolding validate_workspace
    validate_workspace-IsNamed id panes workspace =
        guard-OnOk (non_empty workspace.tab_groups) _ _ λ some_group.
          bind-OnOk (validate_groups uuid_text fresh panes workspace.tab_groups) _
            (validate_groups-AllOf panes workspace.tab_groups)
            λ (groups, panes') ((l, a), e).
              let n = non_empty-length workspace.tab_groups groups some_group l in
              OnOk.on_ok (
                (
                  record {
                    id = (id, refl);
                    active = clamp_index-InRange workspace.active_tab_group_index _ n;
                    created = at_least_lem workspace.created_group_count _;
                    groups = a;
                  },
                  refl,
                ),
                e,
              )

    abbrev pub AllNamed : ℕ → List WorkspaceId → List (WorkspaceSnapshot F) → Type 0
    AllNamed n seen ws = AllOf IsWorkspace n ws × IsUnseen seen (workspace_ids ws)

    named_first :
        (id : WorkspaceId) (seen : List WorkspaceId) (w : WorkspaceSnapshot F)
        (ws : List (WorkspaceSnapshot F)) (n : ℕ)
        → elem seen id ≡ false
        → IsNamed id w
        → AllNamed n (id ∷ seen) ws
        → AllNamed (suc n) seen (w ∷ ws)
    named_first id seen w ws n fresh_id (v, named) ((l, a), (d, u)) =
        let rest = unseen_rest id seen (workspace_ids ws) u in
        ((ap suc l, (v, a)), rw named ((rest.0, d), (fresh_id, rest.1)))

    pub validate_workspaces-AllNamed :
        (n : ℕ) (seen : List WorkspaceId) (panes : List PaneId)
        (workspaces : List (WorkspaceSnapshot F))
        → OnOk
            (Inserted (AllNamed (length workspaces) seen) (concat_map workspace_panes) panes)
            (validate_workspaces uuid_text fresh n seen panes workspaces)
    unfolding validate_workspaces insert_all Option.bind
    validate_workspaces-AllNamed n seen panes [] = OnOk.on_ok (((refl, tt), (tt, tt)), refl)
    validate_workspaces-AllNamed n seen panes (workspace ∷ workspaces) =
        let id = workspace_id uuid_text fresh n workspace in
        guard-OnOk (not (elem seen id)) _ _ λ new_id.
          bind-OnOk (validate_workspace uuid_text fresh id panes workspace) _
            (validate_workspace-IsNamed id panes workspace)
            λ (w, panes') (v, e).
              bind-OnOk (validate_workspaces uuid_text fresh (suc n) (id ∷ seen) panes' workspaces)
                _ (validate_workspaces-AllNamed (suc n) (id ∷ seen) panes' workspaces)
                λ (ws, panes'') (a, e'). OnOk.on_ok (
                  named_first id seen w ws _ (ground (arith, new_id)) v a,
                  insert_all-append (workspace_panes w) (concat_map workspace_panes ws) panes
                      ∙ rw (e, e') refl,
                )
