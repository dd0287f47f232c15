-- ===== src/Tests/Parts.antt =====
-- The theorems on selections, containers, commands and shortcuts at concrete data.
use kitmux_linux.Base.{
  ℕ, ◌≡◌, ◌↔◌, ◌⊎◌, refl, Bool, true, not, ◌||◌, none, some, List, [], ◌∷◌, ◌++◌, elem, map, length,
  leb, arith,
}
use kitmux_linux.Base.Vec.{remove_at}
use kitmux_linux.Base.Result.{ok, err}
use kitmux_linux.Runtime.{
  PaneSurface, PaneContainer, surface_id, active_surface, add, remove, duplicate_surface_id,
}
use kitmux_linux.Runtime.Container.{Removes, new_container_lem, add_lem, select_lem, remove_lem}
use kitmux_linux.Runtime.Container
use kitmux_linux.Model.Selection.{remove_selected, move_selected}
use kitmux_linux.Model.Selection.Laws.{
  IsSelection, Moves, all_unique-Distinct, remove_selected_lem, move_selected_lem,
}
use kitmux_linux.Model.Selection.Laws
use kitmux_linux.Commands.{CommandId, as_str, from_str}
use kitmux_linux.Commands.Roundtrip.{from_str_iff}
use kitmux_linux.Shortcuts.{linux_default_bindings, from_bindings, resolve, control_chord}
use kitmux_linux.Shortcuts.Conflicts.{sole, bound, resolve-from_bindings}
use kitmux_linux.Tests.Samples.{Mock, surface}

abbrev three : List ℕ
three = 5 ∷ 6 ∷ 7 ∷ []

abbrev id : ℕ → ℕ
id x = x

three-IsSelection : IsSelection id three 2
unfolding elem
three-IsSelection = record { in_range = omega arith; distinct = (refl, (refl, (refl, tt))) }

remove_selected_lem_example : Laws.Removes id three 2 0 5 (6 ∷ 7 ∷ []) 1
unfolding remove_selected remove_at
remove_selected_lem_example =
    remove_selected_lem id three 2 0 5 (6 ∷ 7 ∷ []) 1 three-IsSelection refl

move_selected_lem_example :
    (values' : List ℕ) × (active' : ℕ) × (moved : Bool) × (move_selected id three 2 5 2
      ≡ some (values', active', moved))
    × Moves id three 2 5 2 values' active' moved
move_selected_lem_example = move_selected_lem id three 2 5 2 three-IsSelection

abbrev surfaces : List (PaneSurface Mock Mock)
surfaces = surface 101 ∷ surface 102 ∷ []

abbrev both : PaneContainer Mock Mock
both = record { id = 1; surfaces = surfaces; active_surface_index = 1 }

both-IsValid : Container.IsValid both
unfolding elem
both-IsValid = record { active = omega arith; distinct = (refl, (refl, tt)) }

add_lem_example :
    ((elem (map surface_id both.surfaces) 103 ≡ true)
      × (add both (surface 103) ≡ err (duplicate_surface_id 103)))
    ⊎ ((c' : PaneContainer Mock Mock) × (add both (surface 103) ≡ ok (c', c'.active_surface_index))
        × Container.IsValid c'
        × (c'.surfaces ≡ both.surfaces ++ surface 103 ∷ [])
        × (active_surface c' ≡ some (surface 103)))
add_lem_example = add_lem both (surface 103) both-IsValid

remove_lem_example :
    ((remove both 102 ≡ none)
      × ((leb (length both.surfaces) 1 || not (elem (map surface_id both.surfaces) 102)) ≡ true))
    ⊎ ((s : PaneSurface Mock Mock) × (c' : PaneContainer Mock Mock) × (remove both 102
          ≡ some (s, c'))
        × Container.Removes both 102 s c')
remove_lem_example = remove_lem both 102 both-IsValid

from_str_iff_example :
    (from_str (as_str CommandId.pane_close) ≡ some CommandId.pane_close)
    ↔ (as_str CommandId.pane_close ≡ as_str CommandId.pane_close)
from_str_iff_example = from_str_iff (as_str CommandId.pane_close) CommandId.pane_close

resolve-from_bindings_example :
    resolve (from_bindings linux_default_bindings) (control_chord 99 true)
    ≡ sole (bound linux_default_bindings (control_chord 99 true))
resolve-from_bindings_example = resolve-from_bindings linux_default_bindings (control_chord 99 true)
