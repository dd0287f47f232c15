-- ===== src/Snapshot.antt =====
-- kitmux-linux/rust/model/src/state.rs: the check and repair of a saved session.
use mathlib.Core.Option
use kitmux_linux.Base.{
  ℕ, suc, ◌*◌, Bool, true, false, not, ◌&&◌, ◌||◌, Option, none, some, List, [], ◌∷◌, leb, length,
  elem, map, if◌then◌else◌,
}
use kitmux_linux.Base.Int.{ℤ, pos, leb_ℤ}
use kitmux_linux.Base.Result.{Result, ok, err, ◌>>=◌, ◌>>◌, guard}
use kitmux_linux.Base.Unique.{insert_all}
use kitmux_linux.Ids.{WorkspaceId, PaneId}
use kitmux_linux.Float.{Float}
use kitmux_linux.Split.{SplitNode, pane_ids, has_unique_ids_and_valid_ratios}
use kitmux_linux.Text.{Text, codes, trim, is_empty}
use kitmux_linux.Control.Frames.{Bytes}
use kitmux_linux.Snapshot.Data.{
  PaneDetail, TerminalTabSnapshot, TabGroupSnapshot, WorkspaceSnapshot, AppSnapshot,
  SnapshotCodecError,
}
use kitmux_linux.Snapshot.Details.{clamp_index, repair_details}
pub mod Data
pub mod Details
pub mod Repaired
pub mod Checks
pub mod Members
pub mod Valid

abbrev pub snapshot_version : ℤ
snapshot_version = pos 1

abbrev pub snapshot_max_bytes : ℕ
snapshot_max_bytes = 8 * 1024 * 1024

-- `max` with a length.
unfoldable pub at_least : ℤ → ℕ → ℤ
at_least a n = if leb_ℤ a (pos n) then pos n else a

abbrev pub invalid : {A : Type 0} → Text → Result A SnapshotCodecError
invalid reason = err (SnapshotCodecError.invalid reason)

-- An empty list is refused.
abbrev pub non_empty : {A : Type 0} → List A → Bool
non_empty [] = false
non_empty (_ ∷ _) = true

-- A tree has at least one pane.
abbrev pub first_or : PaneId → List PaneId → PaneId
first_or id [] = id
first_or _ (p ∷ ps) = p

abbrev trimmed_title : Option Text → Option Text
trimmed_title none = none
trimmed_title (some title) = let t = trim title in if is_empty t then none else some t

abbrev some_unless_empty : {A : Type 0} → List A → Option (List A)
some_unless_empty [] = none
some_unless_empty (x ∷ xs) = some (x ∷ xs)

-- The calls of `serde_json`: a slice to a value, the version of a value, a value to a snapshot, and
-- a snapshot to its text.
pub record Serde (F Value : Type 0) : Type 0 where
  pub from_slice : Bytes → Option Value
  pub version_of : Value → Option ℤ
  pub from_value : Value → Option (AppSnapshot F)
  pub to_vec_pretty : AppSnapshot F → Option Bytes

abbrev pub or_malformed : {A : Type 0} → Option A → Result A SnapshotCodecError
or_malformed none = err SnapshotCodecError.malformed
or_malformed (some a) = ok a

-- The sets of identifiers that have been seen are lists. A pane identifier is written as the text
-- of its UUID, and `unwrap_or_default` draws the n-th new workspace identifier for the n-th workspace.
module _ {F : Type 0} ⦃f : Float F⦄ (uuid_text : PaneId → Text) (fresh : ℕ → WorkspaceId) where
  unfoldable pub repair_tab : TerminalTabSnapshot F → TerminalTabSnapshot F
  repair_tab tab =
      let ids = pane_ids tab.root in
      record tab {
        focused_pane_id =
            if elem ids tab.focused_pane_id
            then tab.focused_pane_id
            else first_or tab.focused_pane_id ids;
        custom_title = trimmed_title tab.custom_title;
        pane_details =
            Option.bind tab.pane_details
              (λ details. some_unless_empty (repair_details (map uuid_text ids) details));
      }

  unfoldable pub validate_tab :
      List PaneId
      → TerminalTabSnapshot F
      → Result (TerminalTabSnapshot F × List PaneId) SnapshotCodecError
  validate_tab panes tab = do
    guard (has_unique_ids_and_valid_ratios tab.root)
        (SnapshotCodecError.invalid (codes "invalid split tree"))
    panes' ← elim (insert_all (pane_ids tab.root) panes) [
      | none ↦ invalid (codes "duplicate pane ID")
      | some seen ↦ ok seen
    ]
    ok (repair_tab tab, panes')

  unfoldable pub validate_tabs :
      List PaneId
      → List (TerminalTabSnapshot F)
      → Result (List (TerminalTabSnapshot F) × List PaneId) SnapshotCodecError
  validate_tabs panes [] = ok ([], panes)
  validate_tabs panes (tab ∷ tabs) = do
    (tab', panes') ← validate_tab panes tab
    (tabs', panes'') ← validate_tabs panes' tabs
    ok (tab' ∷ tabs', panes'')

  unfoldable pub validate_group :
      List PaneId
      → TabGroupSnapshot F
      → Result (TabGroupSnapshot F × List PaneId) SnapshotCodecError
  validate_group panes group = do
    guard (non_empty group.terminal_tabs)
        (SnapshotCodecError.invalid (codes "empty terminal-tab list"))
    (tabs, panes') ← validate_tabs panes group.terminal_tabs
    ok (
      record group {
        terminal_tabs = tabs;
        active_terminal_tab_index = clamp_index group.active_terminal_tab_index (length tabs);
      },
      panes',
    )

  unfoldable pub validate_groups :
      List PaneId
      → List (TabGroupSnapshot F)
      → Result (List (TabGroupSnapshot F) × List PaneId) SnapshotCodecError
  validate_groups panes [] = ok ([], panes)
  validate_groups panes (group ∷ groups) = do
    (group', panes') ← validate_group panes group
    (groups', panes'') ← validate_groups panes' groups
    ok (group' ∷ groups', panes'')

  abbrev pub workspace_id : ℕ → WorkspaceSnapshot F → WorkspaceId
  workspace_id n workspace = elim workspace.id [ some id ↦ id | none ↦ fresh n ]

  -- The identifier has been inserted before.
  unfoldable pub validate_workspace :
      WorkspaceId
      → List PaneId
      → WorkspaceSnapshot F
      → Result (WorkspaceSnapshot F × List PaneId) SnapshotCodecError
  validate_workspace id panes workspace = do
    guard (non_empty workspace.tab_groups)
        (SnapshotCodecError.invalid (codes "empty tab-group list"))
    (groups, panes') ← validate_groups panes workspace.tab_groups
    ok (
      record workspace {
        id = some id;
        tab_groups = groups;
        active_tab_group_index = clamp_index workspace.active_tab_group_index (length groups);
        created_group_count = at_least workspace.created_group_count (length groups);
      },
      panes',
    )

  unfoldable pub validate_workspaces :
      ℕ
      → List WorkspaceId
      → List PaneId
      → List (WorkspaceSnapshot F)
      → Result (List (WorkspaceSnapshot F) × List PaneId) SnapshotCodecError
  validate_workspaces n ids panes [] = ok ([], panes)
  validate_workspaces n ids panes (workspace ∷ workspaces) = do
    let id = workspace_id n workspace
    guard (not (elem ids id)) (SnapshotCodecError.invalid (codes "duplicate workspace ID"))
    (workspace', panes') ← validate_workspace id panes workspace
    (workspaces', panes'') ← validate_workspaces (suc n) (id ∷ ids) panes' workspaces
    ok (workspace' ∷ workspaces', panes'')

  -- The font sizes 4 and 512.
  module _ (smallest largest : F) where
    unfoldable pub repair_font_size : Option F → Option F
    repair_font_size none = none
    repair_font_size (some size) =
        if not (f.finite size) || not (f.le smallest size && f.le size largest)
        then none
        else some size

    unfoldable pub validate_snapshot : AppSnapshot F → Result (AppSnapshot F) SnapshotCodecError
    validate_snapshot snapshot = do
      guard (non_empty snapshot.workspaces)
          (SnapshotCodecError.invalid (codes "empty workspace list"))
      (workspaces, _) ← validate_workspaces 0 [] [] snapshot.workspaces
      ok (record {
        version = snapshot_version;
        active_workspace_index = clamp_index snapshot.active_workspace_index (length workspaces);
        created_workspace_count = at_least snapshot.created_workspace_count (length workspaces);
        workspaces = workspaces;
        font_size = repair_font_size snapshot.font_size;
      })

    module _ {Value : Type 0} (serde : Serde F Value) where
      unfoldable pub decode_snapshot : Bytes → Result (AppSnapshot F) SnapshotCodecError
      decode_snapshot bytes = do
        guard (leb (length bytes) snapshot_max_bytes) SnapshotCodecError.too_large
        value ← or_malformed (serde.from_slice bytes)
        version ← or_malformed (serde.version_of value)
        guard (leb_ℤ version snapshot_version) (SnapshotCodecError.unsupported_version version)
        snapshot ← or_malformed (serde.from_value value)
        validate_snapshot snapshot

      unfoldable pub encode_snapshot : AppSnapshot F → Result Bytes SnapshotCodecError
      encode_snapshot snapshot = do
        snapshot' ← validate_snapshot snapshot
        bytes ← or_malformed (serde.to_vec_pretty snapshot')
        guard (leb (length bytes) snapshot_max_bytes) SnapshotCodecError.too_large
        ok bytes
