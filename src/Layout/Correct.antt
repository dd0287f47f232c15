-- ===== src/Layout/Correct.antt =====
-- What a client sees of `layout`: the frames in its maps.
use kitmux_linux.Base.{ℕ, ◌≡◌, ◌≢◌, refl, inl, inr, ◌||◌, some, [], arith}
use kitmux_linux.Base.Int.{ℤ, pos, pos_part, max_ℤ}
use kitmux_linux.Base.Map.{get, has, has-insert, In, insert}
use kitmux_linux.Ids.{PaneId, SplitId}
use kitmux_linux.Float.{Float}
use kitmux_linux.Split.{left_right, top_bottom, SplitNode, pane, split, contains}
use kitmux_linux.Layout.{
  PixelSize, PixelRect, SplitLayout, stack_sizes, minimum_size, split_rects, fill_layout,
  empty_layout, layout,
}
use kitmux_linux.Layout.Geometry.{IsRect, Inside, Beside}
use kitmux_linux.Layout.Entries.{In-get, SideBySide-In, All-In}
use kitmux_linux.Layout.Frames.{pane_frames, divider_frames, fill_layout-frames}
use kitmux_linux.Layout.Tiling.{Fits, tiled}
use kitmux_linux.Layout.Minimum.{SizeFits, large}

-- The gap that `layout` uses.
abbrev pub gap_of : ℤ → ℕ
gap_of gap = pos_part (max_ℤ gap (pos 0))

gap_pos : (gap : ℤ) → max_ℤ gap (pos 0) ≡ pos (gap_of gap)
unfolding max_ℤ
gap_pos gap = ground arith

module _ {F : Type 0} where
  minimum_size-gap :
      (n : SplitNode F) (gap : ℤ) (leaf : PixelSize)
      → minimum_size n (max_ℤ gap (pos 0)) leaf ≡ minimum_size n gap leaf
  unfolding minimum_size stack_sizes max_ℤ
  minimum_size-gap (pane i) gap leaf = refl
  minimum_size-gap (split s left_right r m n) gap leaf =
      ground (arith, minimum_size-gap m gap leaf, minimum_size-gap n gap leaf)
  minimum_size-gap (split s top_bottom r m n) gap leaf =
      ground (arith, minimum_size-gap m gap leaf, minimum_size-gap n gap leaf)

module _ {F : Type 0} ⦃f : Float F⦄ where
  In-layout :
      (n : SplitNode F) (rect : PixelRect) (gap : ℤ) (leaf : PixelSize) (p : PaneId) (r : PixelRect)
      → get p (layout n rect gap leaf).pane_frames ≡ some r
      → In (p, r) (pane_frames n rect (pos (gap_of gap)) leaf)
  unfolding layout get
  In-layout n rect gap leaf p r h =
      let e = (fill_layout-frames n rect (max_ℤ gap (pos 0)) leaf empty_layout).0 in
      elim (In-get p r _ [] (rw e at h)) [
        | inl i ↦ rw (gap_pos gap) at i
        | inr k ↦ absurd (ground arith)
      ]

  In-layout_divider :
      (n : SplitNode F) (rect : PixelRect) (gap : ℤ) (leaf : PixelSize) (s : SplitId)
      (r : PixelRect)
      → get s (layout n rect gap leaf).divider_frames ≡ some r
      → In (s, r) (divider_frames n rect (pos (gap_of gap)) leaf)
  unfolding layout get
  In-layout_divider n rect gap leaf s r h =
      let e = (fill_layout-frames n rect (max_ℤ gap (pos 0)) leaf empty_layout).1 in
      elim (In-get s r _ [] (rw e at h)) [
        | inl i ↦ rw (gap_pos gap) at i
        | inr k ↦ absurd (ground arith)
      ]

  -- Every frame of a pane lies in the rectangle that is laid out, for a rectangle within the
  -- range of an i32 and a tree whose panes, each with the minimum leaf size and a gap, fit side
  -- by side into that range.
  pub layout-Inside :
      (n : SplitNode F) (rect : PixelRect) (gap : ℤ) (leaf : PixelSize) (p : PaneId) (r : PixelRect)
      → IsRect rect
      → Fits n (gap_of gap) leaf
      → get p (layout n rect gap leaf).pane_frames ≡ some r
      → Inside r rect
  layout-Inside n rect gap leaf p r ir h e =
      All-In _ (p, r) _ (tiled n rect (gap_of gap) leaf h ir).panes_inside
        (In-layout n rect gap leaf p r e)

  -- The frames of two different panes share no pixel, for a rectangle within the range of an i32
  -- and a tree whose panes, each with the minimum leaf size and a gap, fit side by side into that
  -- range.
  pub layout-Beside :
      (n : SplitNode F) (rect : PixelRect) (gap : ℤ) (leaf : PixelSize) (p q : PaneId)
      (r r' : PixelRect)
      → IsRect rect
      → Fits n (gap_of gap) leaf
      → p ≢ q
      → get p (layout n rect gap leaf).pane_frames ≡ some r
      → get q (layout n rect gap leaf).pane_frames ≡ some r'
      → Beside r r'
  layout-Beside n rect gap leaf p q r r' ir h ne e e' =
      SideBySide-In p q r r' _ ne (tiled n rect (gap_of gap) leaf h ir).panes_beside
        (In-layout n rect gap leaf p r e) (In-layout n rect gap leaf q r' e')

  -- A divider lies in the rectangle that is laid out and shares no pixel with the frame of a
  -- pane, for a rectangle within the range of an i32 and a tree whose panes, each with the
  -- minimum leaf size and a gap, fit side by side into that range.
  pub layout-divider :
      (n : SplitNode F) (rect : PixelRect) (gap : ℤ) (leaf : PixelSize) (s : SplitId) (p : PaneId)
      (d r : PixelRect)
      → IsRect rect
      → Fits n (gap_of gap) leaf
      → get s (layout n rect gap leaf).divider_frames ≡ some d
      → get p (layout n rect gap leaf).pane_frames ≡ some r
      → Inside d rect × Beside d r
  layout-divider n rect gap leaf s p d r ir h e e' =
      let t = tiled n rect (gap_of gap) leaf h ir in
      let i = In-layout_divider n rect gap leaf s d e in
      (
        All-In _ (s, d) _ t.dividers_inside i,
        All-In _ (p, r) _ (All-In _ (s, d) _ t.apart i) (In-layout n rect gap leaf p r e'),
      )

  -- If the rectangle is at least as large as the minimum size of the tree, every pane gets at
  -- least the minimum leaf size, whatever the ratios are, for a rectangle within the range of an
  -- i32 and a tree whose panes, each with the minimum leaf size and a gap, fit side by side into
  -- that range.
  pub layout-minimum :
      (n : SplitNode F) (rect : PixelRect) (gap : ℤ) (leaf : PixelSize) (p : PaneId) (r : PixelRect)
      → IsRect rect
      → Fits n (gap_of gap) leaf
      → SizeFits (minimum_size n gap leaf) rect
      → get p (layout n rect gap leaf).pane_frames ≡ some r
      → SizeFits leaf r
  layout-minimum n rect gap leaf p r ir h m e =
      let m' : SizeFits (minimum_size n (pos (gap_of gap)) leaf) rect =
        rw (← gap_pos gap, minimum_size-gap n gap leaf) m in
      All-In _ (p, r) _ (large n rect (gap_of gap) leaf h ir m') (In-layout n rect gap leaf p r e)

  has-fill_layout :
      (n : SplitNode F) (rect : PixelRect) (gap : ℤ) (leaf : PixelSize) (result : SplitLayout)
      (p : PaneId)
      → has p (fill_layout n rect gap leaf result).pane_frames
        ≡ (contains n p || has p result.pane_frames)
  unfolding fill_layout contains
  has-fill_layout (pane i) rect gap leaf result p = has-insert i p rect result.pane_frames
  has-fill_layout (split s axis r m n) rect gap leaf result p =
      let rects = split_rects axis r rect gap (minimum_size m gap leaf) (minimum_size n gap leaf) in
      let result' : SplitLayout = record result {
        split_frames = insert s rect result.split_frames;
        divider_frames = insert s rects.1 result.divider_frames;
      } in
      rw
        (
          has-fill_layout n rects.2 gap leaf (fill_layout m rects.0 gap leaf result') p,
          has-fill_layout m rects.0 gap leaf result' p,
        )
        (ground arith)

  -- The layout has a frame for exactly the panes of the tree.
  pub has-layout :
      (n : SplitNode F) (rect : PixelRect) (gap : ℤ) (leaf : PixelSize) (p : PaneId)
      → has p (layout n rect gap leaf).pane_frames ≡ contains n p
  unfolding layout get
  has-layout n rect gap leaf p =
      rw (has-fill_layout n rect (max_ℤ gap (pos 0)) leaf empty_layout p) (ground arith)
