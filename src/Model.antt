-- ===== src/Model.antt =====
-- kitmux-linux/rust/model/src/model.rs: the hierarchy of workspaces, groups, tabs and panes, a module
-- for each of its parts.
pub mod Error
pub mod Label
pub mod Selection
pub mod Tab
pub mod Group
pub mod Workspace
pub mod Global
pub mod App
pub mod Close
pub mod Hierarchy
pub mod Presentation
pub mod Rename
