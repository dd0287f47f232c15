-- ===== src/Snapshot/Data.antt =====
-- The data of a saved session in kitmux-linux/rust/model/src/state.rs.
use kitmux_linux.Base.{ℕ, Option, List}
use kitmux_linux.Base.Int.{ℤ}
use kitmux_linux.Ids.{WorkspaceId, PaneId}
use kitmux_linux.Split.{SplitNode}
use kitmux_linux.Text.{Text}

pub data PaneContentKind : Type 0 where
  terminal browser : PaneContentKind

-- The identifier is the number of a UUID.
pub record PaneSurfaceDetail : Type 0 where
  pub id : ℕ
  pub cwd : Option Text
  pub resume_command : Option Text
  pub kind : PaneContentKind
  pub url : Option Text

pub record PaneDetail : Type 0 where
  pub cwd : Option Text
  pub resume_command : Option Text
  pub kind : Option PaneContentKind
  pub url : Option Text
  pub ssh_profile_id : Option ℕ
  pub surfaces : Option (List PaneSurfaceDetail)
  pub active_surface_index : Option ℤ

-- The details, a `BTreeMap` from the texts of pane identifiers, in the order of the keys.
pub record TerminalTabSnapshot (F : Type 0) : Type 0 where
  pub focused_pane_id : PaneId
  pub root : SplitNode F
  pub custom_title : Option Text
  pub pane_details : Option (List (Text × PaneDetail))

pub record TabGroupSnapshot (F : Type 0) : Type 0 where
  pub name : Text
  pub active_terminal_tab_index : ℤ
  pub terminal_tabs : List (TerminalTabSnapshot F)

pub record WorkspaceSnapshot (F : Type 0) : Type 0 where
  pub id : Option WorkspaceId
  pub name : Text
  pub active_tab_group_index : ℤ
  pub created_group_count : ℤ
  pub tab_groups : List (TabGroupSnapshot F)
  pub color_index : Option ℤ

pub record AppSnapshot (F : Type 0) : Type 0 where
  pub version : ℤ
  pub active_workspace_index : ℤ
  pub created_workspace_count : ℤ
  pub workspaces : List (WorkspaceSnapshot F)
  pub font_size : Option F

pub data SnapshotCodecError : Type 0 where
  too_large malformed : SnapshotCodecError
  unsupported_version : ℤ → SnapshotCodecError
  invalid : Text → SnapshotCodecError
