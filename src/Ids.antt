-- ===== src/Ids.antt =====
-- kitmux-linux/rust/model/src/ids.rs: the newtypes over a UUID. An identifier is the 128-bit number
-- of its UUID; the model compares identifiers and never looks inside. `X::new()` draws a random UUID
-- outside the program, so an operation that calls it takes the fresh identifier as an argument.
use kitmux_linux.Base.{ℕ}

abbrev pub WorkspaceId : Type 0
WorkspaceId = ℕ

abbrev pub GroupId : Type 0
GroupId = ℕ

abbrev pub TabId : Type 0
TabId = ℕ

abbrev pub SurfaceId : Type 0
SurfaceId = ℕ

abbrev pub PaneId : Type 0
PaneId = ℕ

abbrev pub SplitId : Type 0
SplitId = ℕ
