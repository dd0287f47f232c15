-- ===== src/Resume.antt =====
-- kitmux-linux/rust/model/src/resume.rs: which commands of a saved session are run again, and
-- `valid_resume_command` of kitmux-linux/rust/model/src/state.rs.
use mathlib.Core.Option
use kitmux_linux.Base.{
  ℕ, Bool, true, false, not, ◌&&◌, ◌||◌, Option, none, some, List, [], ◌∷◌, ◌==◌, leb, elem,
  if◌then◌else◌,
}
use kitmux_linux.Base.Map.{get, insert, has}
use kitmux_linux.Ids.{PaneId, SurfaceId}
use kitmux_linux.Text.{Text, same_text, trim, is_empty, byte_len, any, is_control}
pub mod States
pub mod Policy
pub mod Command

abbrev pub resume_command_max_bytes : ℕ
resume_command_max_bytes = 2048

-- `valid_resume_command` of a command that is there.
unfoldable pub valid_command : Text → Option Text
unfolding trim is_empty byte_len any is_control
valid_command command =
    let trimmed = trim command in
    if not (is_empty trimmed)
      && leb (byte_len trimmed) resume_command_max_bytes
      && not (any is_control trimmed)
    then some trimmed
    else none

unfoldable pub valid_resume_command : Option Text → Option Text
unfolding valid_command
valid_resume_command none = none
valid_resume_command (some command) = valid_command command

pub record ResumeCommandIdentity : Type 0 where
  pub pane_id : PaneId
  pub surface_id : SurfaceId
  pub command : Text
  pub cwd : Option Text

pub record ResumeCommandCurrentState : Type 0 where
  pub pane_id : PaneId
  pub surface_id : SurfaceId
  pub command : Option Text
  pub cwd : Option Text
  pub is_eligible : Bool

-- The selection, a set, is the list of its members.
pub record ResumeCommandSelectionPolicy : Type 0 where
  pub displayed_rows : List ResumeCommandIdentity
  pub selected : List SurfaceId

abbrev pub row_id : ResumeCommandIdentity → SurfaceId
row_id row = row.surface_id

-- The rows whose surface has not been seen, each of which is then seen.
unfoldable pub unseen_rows :
    List SurfaceId → List ResumeCommandIdentity → List ResumeCommandIdentity
unfolding elem
unseen_rows seen [] = []
unseen_rows seen (row ∷ rows) =
    let kept = unseen_rows (row.surface_id ∷ seen) rows in
    let skipped = unseen_rows seen rows in if elem seen row.surface_id then skipped else row ∷ kept

-- `ResumeCommandSelectionPolicy::new`
unfoldable pub new_policy : List ResumeCommandIdentity → ResumeCommandSelectionPolicy
unfolding unseen_rows
new_policy rows = record { displayed_rows = unseen_rows [] rows; selected = [] }

unfoldable pub selected_ids : List SurfaceId → List ResumeCommandIdentity → List SurfaceId
unfolding elem
selected_ids selected [] = []
selected_ids selected (row ∷ rows) =
    let rest = selected_ids selected rows in
    if elem selected row.surface_id then row.surface_id ∷ rest else rest

unfoldable pub selected_row_ids : ResumeCommandSelectionPolicy → List SurfaceId
unfolding selected_ids
selected_row_ids policy = selected_ids policy.selected policy.displayed_rows

unfoldable pub is_selected : ResumeCommandSelectionPolicy → SurfaceId → Bool
unfolding elem
is_selected policy surface_id = elem policy.selected surface_id

unfoldable pub displays : SurfaceId → List ResumeCommandIdentity → Bool
displays surface_id [] = false
displays surface_id (row ∷ rows) = row.surface_id == surface_id || displays surface_id rows

-- `HashSet::remove`
unfoldable pub without : SurfaceId → List SurfaceId → List SurfaceId
without id [] = []
without id (x ∷ xs) = let rest = without id xs in if x == id then rest else x ∷ rest

unfoldable pub set_selected :
    ResumeCommandSelectionPolicy → SurfaceId → Bool → ResumeCommandSelectionPolicy
unfolding displays without
set_selected policy surface_id selected =
    if not (displays surface_id policy.displayed_rows)
    then policy
    else if selected
    then record policy { selected = surface_id ∷ policy.selected }
    else record policy { selected = without surface_id policy.selected }

abbrev pub StateMap : Type 0
StateMap = List (SurfaceId × ResumeCommandCurrentState)

-- The loop over the current states: the map from surfaces, and the surfaces that occur again.
unfoldable pub index_states :
    StateMap → List SurfaceId → List ResumeCommandCurrentState → StateMap × List SurfaceId
unfolding get insert
index_states by_id duplicates [] = (by_id, duplicates)
index_states by_id duplicates (state ∷ states) =
    let again = has state.surface_id by_id in
    index_states (insert state.surface_id state by_id)
      (if again then state.surface_id ∷ duplicates else duplicates) states

abbrev pub same_option : Option Text → Option Text → Bool
same_option none none = true
same_option (some a) (some b) = same_text a b
same_option _ _ = false

-- The condition under which a displayed row is run.
unfoldable pub is_executable :
    List SurfaceId → StateMap → List SurfaceId → ResumeCommandIdentity → Bool
unfolding elem get valid_resume_command same_text
is_executable selected by_id duplicates displayed =
    if not (elem selected displayed.surface_id)
      || elem duplicates displayed.surface_id
      || not (same_option (valid_resume_command (some displayed.command)) (some displayed.command))
    then false
    else elim (get displayed.surface_id by_id) [
      | none ↦ false
      | some live ↦
          live.pane_id == displayed.pane_id
          && live.is_eligible
          && same_option live.cwd displayed.cwd
          && same_option (valid_resume_command live.command) (some displayed.command)
    ]

unfoldable pub filter_rows :
    (ResumeCommandIdentity → Bool) → List ResumeCommandIdentity → List ResumeCommandIdentity
filter_rows test [] = []
filter_rows test (row ∷ rows) =
    let rest = filter_rows test rows in if test row then row ∷ rest else rest

-- The early return of `executable_rows`.
abbrev pub unless_empty : List SurfaceId → List ResumeCommandIdentity → List ResumeCommandIdentity
unless_empty [] rows = []
unless_empty (_ ∷ _) rows = rows

unfoldable pub executable_rows :
    ResumeCommandSelectionPolicy → List ResumeCommandCurrentState → List ResumeCommandIdentity
unfolding filter_rows is_executable index_states
executable_rows policy current =
    let (by_id, duplicates) = index_states [] [] current in
    unless_empty policy.selected
      (filter_rows (is_executable policy.selected by_id duplicates) policy.displayed_rows)
