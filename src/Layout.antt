-- ===== src/Layout.antt =====
-- kitmux-linux/rust/model/src/split.rs: pixel sizes and rectangles, the minimum size of a split
-- tree and the frames that `layout` gives its panes, its splits and their dividers.
mod Cut
pub mod Geometry
mod Entries
mod Frames
pub mod Tiling
pub mod Minimum
pub mod Correct
use kitmux_linux.Base.{Option, none, some, List, [], if◌then◌else◌}
use kitmux_linux.Base.Int.{ℤ, pos, leb_ℤ, ltb_ℤ, add_i32, sub_i32, max_ℤ, min_ℤ, clamp_ℤ}
use kitmux_linux.Base.Map.{insert}
use kitmux_linux.Ids.{PaneId, SplitId}
use kitmux_linux.Float.{Float}
use kitmux_linux.Split.{SplitAxis, left_right, top_bottom, SplitNode, pane, split, find_split}

pub record PixelSize : Type 0 where
  pub width : ℤ
  pub height : ℤ

pub record PixelRect : Type 0 where
  pub x : ℤ
  pub y : ℤ
  pub width : ℤ
  pub height : ℤ

abbrev not_negative : ℤ → ℤ
not_negative a = if ltb_ℤ a (pos 0) then pos 0 else a

-- `PixelSize::new`
unfoldable pub pixel_size : ℤ → ℤ → PixelSize
pixel_size width height = record { width = not_negative width; height = not_negative height }

-- `PixelRect::new`
unfoldable pub pixel_rect : ℤ → ℤ → ℤ → ℤ → PixelRect
pixel_rect x y width height = record {
  x = x;
  y = y;
  width = not_negative width;
  height = not_negative height;
}

pub record SplitLayout : Type 0 where
  pub pane_frames : List (PaneId × PixelRect)
  pub split_frames : List (SplitId × PixelRect)
  pub divider_frames : List (SplitId × PixelRect)

-- `SplitLayout::default`
abbrev pub empty_layout : SplitLayout
empty_layout = record { pane_frames = []; split_frames = []; divider_frames = [] }

-- The extent along the axis, which the source writes as a `match` each time.
abbrev pub size_along : SplitAxis → PixelSize → ℤ
size_along left_right s = s.width
size_along top_bottom s = s.height

abbrev pub rect_along : SplitAxis → PixelRect → ℤ
rect_along left_right r = r.width
rect_along top_bottom r = r.height

-- The arms of `minimum_size` for a split.
unfoldable pub stack_sizes : SplitAxis → ℤ → PixelSize → PixelSize → PixelSize
unfolding pixel_size
stack_sizes left_right gap first second =
    pixel_size (add_i32 (add_i32 first.width (max_ℤ gap (pos 0))) second.width)
      (max_ℤ first.height second.height)
stack_sizes top_bottom gap first second =
    pixel_size (max_ℤ first.width second.width)
      (add_i32 (add_i32 first.height (max_ℤ gap (pos 0))) second.height)

-- The three rectangles of a split: the first child, the divider and the second child.
unfoldable pub child_rects : SplitAxis → PixelRect → ℤ → ℤ → ℤ → PixelRect × PixelRect × PixelRect
unfolding pixel_rect
child_rects left_right r first gap second = (
  pixel_rect r.x r.y first r.height,
  pixel_rect (add_i32 r.x first) r.y gap r.height,
  pixel_rect (add_i32 (add_i32 r.x first) gap) r.y second r.height,
)
child_rects top_bottom r first gap second = (
  pixel_rect r.x r.y r.width first,
  pixel_rect r.x (add_i32 r.y first) r.width gap,
  pixel_rect r.x (add_i32 (add_i32 r.y first) gap) r.width second,
)

module _ {F : Type 0} where
  unfoldable pub minimum_size : SplitNode F → ℤ → PixelSize → PixelSize
  minimum_size (pane i) gap leaf = leaf
  minimum_size (split s axis r first second) gap leaf =
      stack_sizes axis gap (minimum_size first gap leaf) (minimum_size second gap leaf)

module _ {F : Type 0} ⦃f : Float F⦄ where
  -- The length of the first child: the ratio's share within the two minima where both fit, else a
  -- share in proportion to the minima, else all of it.
  unfoldable pub first_length : F → ℤ → ℤ → ℤ → ℤ
  first_length ratio usable first_min second_min =
      let desired = f.round (f.mul (f.of_int usable) ratio) in
      let minimum_total = max_ℤ (add_i32 first_min second_min) (pos 1) in
      let share =
        f.round (f.div (f.mul (f.of_int usable) (f.of_int first_min)) (f.of_int minimum_total)) in
      if leb_ℤ (add_i32 first_min second_min) usable
      then clamp_ℤ desired first_min (sub_i32 usable second_min)
      else if leb_ℤ (pos 2) usable
      then clamp_ℤ share (pos 1) (sub_i32 usable (pos 1))
      else usable

  -- The rectangles of a split's children and of its divider.
  unfoldable pub split_rects :
      SplitAxis → F → PixelRect → ℤ → PixelSize → PixelSize → PixelRect × PixelRect × PixelRect
  unfolding first_length child_rects
  split_rects axis ratio rect gap first_minimum second_minimum =
      let along = rect_along axis rect in
      let actual_gap = min_ℤ gap along in
      let usable = max_ℤ (sub_i32 along actual_gap) (pos 0) in
      let first =
        first_length ratio usable (size_along axis first_minimum)
          (size_along axis second_minimum) in
      child_rects axis rect first actual_gap (sub_i32 usable first)

  unfoldable pub fill_layout : SplitNode F → PixelRect → ℤ → PixelSize → SplitLayout → SplitLayout
  fill_layout (pane i) rect gap leaf result = record result {
    pane_frames = insert i rect result.pane_frames;
  }
  fill_layout (split s axis ratio first second) rect gap leaf result =
      let rects =
        split_rects axis ratio rect gap (minimum_size first gap leaf)
          (minimum_size second gap leaf) in
      let result' = record result {
        split_frames = insert s rect result.split_frames;
        divider_frames = insert s rects.1 result.divider_frames;
      } in
      fill_layout second rects.2 gap leaf (fill_layout first rects.0 gap leaf result')

  unfoldable pub layout : SplitNode F → PixelRect → ℤ → PixelSize → SplitLayout
  unfolding fill_layout
  layout node rect gap leaf = fill_layout node rect (max_ℤ gap (pos 0)) leaf empty_layout

  unfoldable pub bounds_of : SplitNode F → PixelRect → ℤ → PixelSize → Option (F × F)
  bounds_of (pane i) rect gap leaf = none
  bounds_of (split s axis r first second) rect gap leaf =
      let usable = sub_i32 (rect_along axis rect) (max_ℤ gap (pos 0)) in
      let first_along = size_along axis (minimum_size first gap leaf) in
      let second_along = size_along axis (minimum_size second gap leaf) in
      let lower = f.max f.tenth (f.div (f.of_int first_along) (f.of_int usable)) in
      let upper =
        f.min f.nine_tenths (f.sub f.one (f.div (f.of_int second_along) (f.of_int usable))) in
      if leb_ℤ usable (pos 0) then none else if f.le lower upper then some (lower, upper) else none

  unfoldable pub ratio_bounds : SplitNode F → SplitId → PixelRect → ℤ → PixelSize → Option (F × F)
  unfolding bounds_of
  ratio_bounds node id rect gap leaf = elim (find_split node id) [
    | none ↦ none
    | some n ↦ bounds_of n rect gap leaf
  ]
