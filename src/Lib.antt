-- ===== src/Lib.antt =====
-- kitmux on Linux: the model of its workspaces, which the crate kitmux-linux/rust/model holds apart
-- from GTK, from the terminals and from the files.
--
-- An application is a hierarchy of workspaces, groups, tabs and panes. A tab arranges its panes in a
-- split tree and keeps, in a registry, a container for each: a stack of surfaces, each of which runs
-- a terminal or a browser. The host asks the model for the layout of a tab, moves the focus, splits
-- and closes panes by commands and shortcuts, and pumps the terminals.
--
-- - Ids: ids.rs. An identifier is the number of its UUID; drawing one is outside the model, so an
--   operation that draws one takes it as an argument.
-- - Float: the operations on f64 that the source uses, as an interface with the laws of IEEE 754
--   that the proofs rely on.
-- - Split: split.rs, the tree and its edits. A method on `&mut self` returns the new tree with its
--   result. Below it Split/Panes, Split/Swap, Split/Valid, Split/Ratio, Split/Shape and Split/Edits.
-- - Layout: minimum_size, layout and ratio_bounds of split.rs, over i32 with its wrap-around.
-- - Neighbor: directional_neighbor of split.rs; Neighbor/Axis describes frames along an axis,
--   Neighbor/Choice the pane that is chosen.
-- - Runtime: runtime.rs, the containers; the traits of runtimes are a parameter, which Runtime/Mock
--   instantiates as the mocks of the source do.
-- - Model: model.rs. Error, Label and Selection hold what the levels share; Tab, Group, Workspace
--   and App are TabModel, GroupModel, WorkspaceModel and AppModel; Rename holds its
--   renaming methods, Global is the check of identifiers, Close is close_pane, Presentation is runtime_presentations, and Hierarchy is the
--   invariant that the proofs on App, Close and Presentation share.
-- - Commands: commands.rs, the table of commands. Shortcuts: the shortcuts of interaction.rs.
-- - Terminal: the cells under the pointer and the confirmation of a paste, of interaction.rs.
-- - Text: texts as lists of characters, with what the crates call of str and char.
-- - Control: control.rs. Method is the table of methods, Frames is LineFrameDecoder (Frames/Lines has
--   its specification, Frames/Chunks the streams in pieces), Codec the check, decoding and encoding
--   of requests and responses over serde_json as an interface, Events the
--   ControlEventHistory of control_socket.rs, with calls one after the other.
-- - Cli: cli.rs, the command line of kitmuxctl. Its requests go to the server of Control.
-- - Resume: resume.rs, which commands of a saved session run again (Resume/States, Resume/Policy).
-- - Snapshot: state.rs, a saved session: Data its types, Details the repair of the details of a pane.
-- - Platform: the directories and the address of the control socket in platform.rs.
-- - Base: lists, maps and integers over the native numbers. Tests: the theorems at concrete data.
--
-- Indices and lengths are natural numbers, i32 is an integer with its wrap-around written out, and
-- the counters of the mocks wrap at 2^64. A hash map is an association list in the order of
-- insertion, so that an error of validate_global_ids may name another kind where several occur
-- twice. Where the source would panic on an index, the model returns none. Recursion is structural,
-- but for two loops: LineFrameDecoder::push gets as fuel one more than the bytes in the buffer, of
-- which each round takes at least one, and a number is printed with at most 20 digits, which a number
-- below 2^64 does not exceed. The library serde_json, the test of a UUID, the number of the process
-- and the user data base are parameters; a text is a list of code points, and its length in bytes is
-- that of its UTF-8 encoding.
--
-- Not modelled: the settings, the scrolling and the links of a terminal, the SSH profiles and the import of states of the model crate, its
-- other files and sockets, derived serialisation, and the GTK application, which is glue around the model.
pub mod Base
pub mod Ids
pub mod Float
pub mod Split
pub mod Layout
pub mod Neighbor
pub mod Runtime
pub mod Model
pub mod Commands
pub mod Shortcuts
pub mod Tests
pub mod Text
pub mod Control
pub mod Resume
pub mod Platform
pub mod Cli
pub mod Snapshot
pub mod Terminal
