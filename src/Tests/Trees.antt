-- ===== src/Tests/Trees.antt =====
-- The theorems on trees, layouts and focus at a tree of two panes.
use kitmux_linux.Base.{
  ℕ, ◌/◌, ◌≡◌, ◌⊎◌, ◌↔◌, refl, none, true, not, ◌&&◌, some, List, [], ◌∷◌, ◌==◌, elem,
  if◌then◌else◌, map, arith,
}
use kitmux_linux.Base.Int.{pos, add_i32, sub_i32, mul_i32, wrap_i32, max_ℤ, min_ℤ, clamp_ℤ}
use kitmux_linux.Base.Map.{get, insert}
use kitmux_linux.Split.{
  SplitAxis, Direction, pane, pane_ids, removing, swap_panes, split_pane, set_ratio, adjust_ratio,
  has_unique_ids_and_valid_ratios,
}
use kitmux_linux.Split.Panes.{
  left_panes, erase_first, insert_after, exchange, removing_lem, split_pane_lem,
}
use kitmux_linux.Split.Swap.{swap_panes_lem}
use kitmux_linux.Split.Valid.{IsWellFormed, has_unique_ids-iff-IsWellFormed}
use kitmux_linux.Split.Edits.{set_ratio-IsWellFormed}
use kitmux_linux.Layout.{PixelRect, layout, minimum_size, stack_sizes, split_rects}
use kitmux_linux.Layout.Geometry.{IsRect, Inside, Beside}
use kitmux_linux.Layout.Tiling.{Fits}
use kitmux_linux.Layout.Minimum.{SizeFits}
use kitmux_linux.Layout.Correct.{
  gap_of, layout-Inside, layout-Beside, layout-divider, layout-minimum,
}
use kitmux_linux.Neighbor.{Candidate, directional_neighbor}
use kitmux_linux.Neighbor.Axis.{Ahead, IsCandidate, Nearer}
use kitmux_linux.Neighbor.Choice.{directional_neighbor_lem}
use kitmux_linux.Terminal.{terminal_cell}
use kitmux_linux.Terminal.Cells.{IsCell, terminal_cell_lem}
use kitmux_linux.Tests.Samples.{tenths, Tree, two_panes, two_panes-IsWellFormed, screen, leaf}

removing_lem_example :
    ((removing two_panes 1).1 ≡ elem (pane_ids two_panes) 1)
    × (left_panes (removing two_panes 1).0 ≡ erase_first 1 (pane_ids two_panes))
removing_lem_example = removing_lem two_panes 1

split_pane_lem_example :
    ((split_pane 11 two_panes 1 SplitAxis.top_bottom 3).1
      ≡ (elem (pane_ids two_panes) 1 && not (elem (pane_ids two_panes) 3)))
    × (pane_ids (split_pane 11 two_panes 1 SplitAxis.top_bottom 3).0 ≡ (
        if elem (pane_ids two_panes) 3
        then pane_ids two_panes
        else insert_after 1 3 (pane_ids two_panes)))
split_pane_lem_example = split_pane_lem 11 two_panes 1 SplitAxis.top_bottom 3

swap_panes_lem_example :
    ((swap_panes two_panes 1 2).1
      ≡ (not (1 == 2) && (elem (pane_ids two_panes) 1 && elem (pane_ids two_panes) 2)))
    × (pane_ids (swap_panes two_panes 1 2).0 ≡ (
        if (swap_panes two_panes 1 2).1
        then map (exchange 1 2) (pane_ids two_panes)
        else pane_ids two_panes))
swap_panes_lem_example = swap_panes_lem two_panes 1 2

has_unique_ids-iff-IsWellFormed_example :
    (has_unique_ids_and_valid_ratios two_panes ≡ true) ↔ IsWellFormed two_panes
has_unique_ids-iff-IsWellFormed_example = has_unique_ids-iff-IsWellFormed two_panes

abbrev the_rest : Tree
the_rest = pane 2

set_ratio-IsWellFormed_example :
    IsWellFormed (set_ratio two_panes 10 7 (2, 8)).0
    × IsWellFormed (adjust_ratio two_panes 10 1 (2, 8)).0
set_ratio-IsWellFormed_example =
    set_ratio-IsWellFormed two_panes 10 7 1 2 8 refl refl two_panes-IsWellFormed

screen-IsRect : IsRect screen
screen-IsRect = record { across = omega arith; down = omega arith }

two_panes-Fits : Fits two_panes (gap_of (pos 1)) leaf
unfolding max_ℤ
two_panes-Fits = omega arith

abbrev left_frame : PixelRect
left_frame = record { x = pos 0; y = pos 0; width = pos 50; height = pos 50 }

abbrev right_frame : PixelRect
right_frame = record { x = pos 51; y = pos 0; width = pos 50; height = pos 50 }

abbrev divider : PixelRect
divider = record { x = pos 50; y = pos 0; width = pos 1; height = pos 50 }

layout-Inside_example : Inside right_frame screen
unfolding get insert layout minimum_size stack_sizes split_rects add_i32 sub_i32 wrap_i32 max_ℤ
    min_ℤ clamp_ℤ
layout-Inside_example =
    layout-Inside two_panes screen (pos 1) leaf 2 right_frame screen-IsRect two_panes-Fits refl

layout-Beside_example : Beside left_frame right_frame
unfolding get insert layout minimum_size stack_sizes split_rects add_i32 sub_i32 wrap_i32 max_ℤ
    min_ℤ clamp_ℤ
layout-Beside_example =
    layout-Beside two_panes screen (pos 1) leaf 1 2 left_frame right_frame screen-IsRect
      two_panes-Fits (λ e. omega arith) refl refl

layout-divider_example : Inside divider screen × Beside divider left_frame
unfolding get insert layout minimum_size stack_sizes split_rects add_i32 sub_i32 wrap_i32 max_ℤ
    min_ℤ clamp_ℤ
layout-divider_example =
    layout-divider two_panes screen (pos 1) leaf 10 1 divider left_frame screen-IsRect
      two_panes-Fits refl refl

layout-minimum_example : SizeFits leaf right_frame
unfolding get insert layout minimum_size stack_sizes split_rects add_i32 sub_i32 wrap_i32 max_ℤ
    min_ℤ clamp_ℤ
layout-minimum_example =
    layout-minimum two_panes screen (pos 1) leaf 2 right_frame screen-IsRect two_panes-Fits
      (omega arith) refl

abbrev shown : List (ℕ × PixelRect)
shown = (1, left_frame) ∷ (2, right_frame) ∷ []

directional_neighbor_lem_example :
    ((directional_neighbor 1 Direction.right shown (1 ∷ 2 ∷ []) ≡ none)
      × ((source : PixelRect)
          → get 1 shown ≡ some source
          → (c : Candidate) → ¬ Ahead 1 Direction.right source shown c))
    ⊎ ((q : ℕ) × (source : PixelRect) × (r : PixelRect) × (directional_neighbor 1 Direction.right
            shown
            (1 ∷ 2 ∷ [])
          ≡ some q)
        × (get 1 shown ≡ some source)
        × IsCandidate 1 Direction.right source shown (q, r)
        × ((c : Candidate)
            → IsCandidate 1 Direction.right source shown c
            → ¬ Nearer Direction.right source (1 ∷ 2 ∷ []) c (q, r)))
directional_neighbor_lem_example = directional_neighbor_lem 1 Direction.right shown (1 ∷ 2 ∷ [])

-- The neighbour on the right of the left one of two panes is the right one.
neighbor_runs : directional_neighbor 1 Direction.right shown (1 ∷ 2 ∷ []) ≡ some 2
unfolding directional_neighbor get add_i32 wrap_i32 mul_i32 max_ℤ min_ℤ
neighbor_runs = refl

-- A frame of 100 x 50 pixels at (10, 10) with cells of 8 x 16.
abbrev frame : PixelRect
frame = record { x = pos 10; y = pos 10; width = pos 100; height = pos 50 }

terminal_cell_lem_example :
    IsCell 100 50 8 16 (terminal_cell (λ x. pos (x / 10)) 230 900 frame (pos 8) (pos 16))
terminal_cell_lem_example =
    terminal_cell_lem (λ x. pos (x / 10)) 230 900 frame 100 50 8 16 refl refl (omega arith)
      (omega arith) (omega arith) (omega arith) (omega arith) (omega arith)
