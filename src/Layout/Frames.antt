-- ===== src/Layout/Frames.antt =====
-- The frames of a layout, left to right, as lists; `fill_layout` enters them one after the other.
use kitmux_linux.Base.{ℕ, ◌+◌, ◌^◌, ◌≤◌, ◌<◌, max, ◌≡◌, refl, [], ◌∷◌, ◌++◌, arith}
use kitmux_linux.Base.Int.{ℤ, pos, add_i32, max_ℤ}
use kitmux_linux.Base.Map.{insert}
use kitmux_linux.Float.{Float}
use kitmux_linux.Split.{SplitAxis, left_right, top_bottom, SplitNode, pane, split}
use kitmux_linux.Layout.{
  PixelSize, PixelRect, pixel_size, SplitLayout, stack_sizes, minimum_size, split_rects,
  fill_layout,
}
use kitmux_linux.Layout.Cut.{add_i32-pos, max_ℤ-pos}
use kitmux_linux.Layout.Entries.{Frames, insert_entries, insert_entries-append}

module _ {F : Type 0} ⦃f : Float F⦄ where
  unfoldable pub pane_frames : SplitNode F → PixelRect → ℤ → PixelSize → Frames
  pane_frames (pane i) rect gap leaf = (i, rect) ∷ []
  pane_frames (split s axis r m n) rect gap leaf =
      let rects = split_rects axis r rect gap (minimum_size m gap leaf) (minimum_size n gap leaf) in
      pane_frames m rects.0 gap leaf ++ pane_frames n rects.2 gap leaf

  unfoldable pub divider_frames : SplitNode F → PixelRect → ℤ → PixelSize → Frames
  divider_frames (pane i) rect gap leaf = []
  divider_frames (split s axis r m n) rect gap leaf =
      let rects = split_rects axis r rect gap (minimum_size m gap leaf) (minimum_size n gap leaf) in
      (s, rects.1) ∷ (divider_frames m rects.0 gap leaf ++ divider_frames n rects.2 gap leaf)

  pub fill_layout-frames :
      (n : SplitNode F) (rect : PixelRect) (gap : ℤ) (leaf : PixelSize) (result : SplitLayout)
      → ((fill_layout n rect gap leaf result).pane_frames
          ≡ insert_entries (pane_frames n rect gap leaf) result.pane_frames)
        × ((fill_layout n rect gap leaf result).divider_frames
            ≡ insert_entries (divider_frames n rect gap leaf) result.divider_frames)
  unfolding fill_layout pane_frames divider_frames insert_entries
  fill_layout-frames (pane i) rect gap leaf result = (refl, refl)
  fill_layout-frames (split s axis r m n) rect gap leaf result =
      let rects = split_rects axis r rect gap (minimum_size m gap leaf) (minimum_size n gap leaf) in
      let result' : SplitLayout = record result {
        split_frames = insert s rect result.split_frames;
        divider_frames = insert s rects.1 result.divider_frames;
      } in
      let hm = fill_layout-frames m rects.0 gap leaf result' in
      let hn = fill_layout-frames n rects.2 gap leaf (fill_layout m rects.0 gap leaf result') in
      (rw (hn.0, hm.0, insert_entries-append), rw (hn.1, hm.1, insert_entries-append))

abbrev pub ite_axis : SplitAxis → ℕ → ℕ → ℕ
ite_axis left_right across down = across
ite_axis top_bottom across down = down

-- The minimum size of a split, from those of its children, as plain numbers.
stack_along :
    (a g c : ℕ)
    → a + g + c < 2 ^ 31
    → add_i32 (add_i32 (pos a) (max_ℤ (pos g) (pos 0))) (pos c) ≡ pos (a + g + c)
stack_along a g c h = rw (max_ℤ-pos g, add_i32-pos a g (omega arith), add_i32-pos (a + g) c h)

stack_across : (a b : ℕ) → max_ℤ (pos a) (pos b) ≡ pos (max a b)
unfolding max_ℤ
stack_across a b = ground arith

pub stack_sizes-pos :
    (axis : SplitAxis) (g : ℕ) (first second : PixelSize) (a b c d : ℕ)
    → first.width ≡ pos a
    → first.height ≡ pos b
    → second.width ≡ pos c
    → second.height ≡ pos d
    → a + g + c < 2 ^ 31
    → b + g + d < 2 ^ 31
    → let s = stack_sizes axis (pos g) first second in
      (w h : ℕ) × (s.width ≡ pos w)
      × (s.height ≡ pos h)
      × (w ≤ a + g + c)
      × (h ≤ b + g + d)
      × (ite_axis axis w h ≡ ite_axis axis (a + g + c) (b + g + d))
      × (ite_axis axis h w ≡ ite_axis axis (max b d) (max a c))
unfolding stack_sizes pixel_size
stack_sizes-pos left_right g first second a b c d ea eb ec ed h k =
    let e = stack_along a g c h in
    let e' = stack_across b d in
    (
      a + g + c,
      max b d,
      rw (ea, ec, e) (ground arith),
      rw (eb, ed, e') (ground arith),
      omega arith,
      omega arith,
      refl,
      refl,
    )
stack_sizes-pos top_bottom g first second a b c d ea eb ec ed h k =
    let e = stack_along b g d k in
    let e' = stack_across a c in
    (
      max a c,
      b + g + d,
      rw (ea, ec, e') (ground arith),
      rw (eb, ed, e) (ground arith),
      omega arith,
      omega arith,
      refl,
      refl,
    )

-- An upper bound for the extent that a tree needs: each pane takes its length and a gap.
module _ {F : Type 0} where
  abbrev pub cost : ℕ → SplitNode F → ℕ
  cost c (pane i) = c
  cost c (split s a r m n) = cost c m + cost c n

  pub minimum_size_lem :
      (n : SplitNode F) (g lw lh : ℕ) (leaf : PixelSize)
      → leaf.width ≡ pos lw
      → leaf.height ≡ pos lh
      → cost (lw + g) n < 2 ^ 31
      → cost (lh + g) n < 2 ^ 31
      → (w h : ℕ) × ((minimum_size n (pos g) leaf).width ≡ pos w)
        × ((minimum_size n (pos g) leaf).height ≡ pos h)
        × (w + g ≤ cost (lw + g) n)
        × (h + g ≤ cost (lh + g) n)
  unfolding minimum_size
  minimum_size_lem (pane i) g lw lh leaf ew eh cw ch = (lw, lh, ew, eh, omega arith, omega arith)
  minimum_size_lem (split s axis r m n) g lw lh leaf ew eh cw ch =
      let (a, b, ea, eb, la, lb) =
        minimum_size_lem m g lw lh leaf ew eh (omega arith) (omega arith) in
      let (c, d, ec, ed, lc, ld) =
        minimum_size_lem n g lw lh leaf ew eh (omega arith) (omega arith) in
      let (w, h, e, e', lw', lh', _, _) =
        stack_sizes-pos axis g _ _ a b c d ea eb ec ed (omega arith) (omega arith) in
      (w, h, e, e', omega arith, omega arith)
