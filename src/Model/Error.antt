-- ===== src/Model/Error.antt =====
-- `ModelError` of kitmux-linux/rust/model/src/model.rs, and the check of a vector with its active
-- index.
use kitmux_linux.Base.{ℕ, Option, none, some, List, ◌==◌, leb, length, if◌then◌else◌}
use kitmux_linux.Ids.{PaneId}
use kitmux_linux.Runtime.{PaneContainerError}

-- The names of levels and kinds, which the source passes as strings.
pub data Level : Type 0 where
  workspace group tab pane surface : Level

pub data ModelError : Type 0 where
  empty_hierarchy : Level → ModelError
  active_index_out_of_bounds : Level → ModelError
  duplicate_id : Level → ModelError
  invalid_split_tree : ModelError
  pane_registry_mismatch : ModelError
  unknown_pane : PaneId → ModelError
  duplicate_pane : PaneId → ModelError
  surface_error : PaneContainerError → ModelError

-- `none` is `Ok(())`.
unfoldable pub validate_non_empty_active {ℓ} : {A : Type ℓ} → List A → ℕ → Level → Option ModelError
validate_non_empty_active values active_index level =
    if length values == 0
    then some (empty_hierarchy level)
    else if leb (length values) active_index
    then some (active_index_out_of_bounds level)
    else none
