-- ===== src/Layout/Minimum.antt =====
-- Minimum sizes and the frames of a rectangle that is large enough.
use kitmux_linux.Base.{ℕ, ◌+◌, ◌≤◌, ◌≡◌, ap, max, All, arith}
use kitmux_linux.Base.Int.{pos, pos_part}
use kitmux_linux.Ids.{SplitId}
use kitmux_linux.Float.{Float}
use kitmux_linux.Split.{SplitAxis, left_right, top_bottom, SplitNode, pane, split}
use kitmux_linux.Layout.{PixelSize, PixelRect, size_along, rect_along, minimum_size, split_rects}
use kitmux_linux.Layout.Geometry.{IsRect, other}
use kitmux_linux.Layout.Entries.{Frames, All-append}
use kitmux_linux.Layout.Frames.{pane_frames, ite_axis, minimum_size_lem, stack_sizes-pos}
use kitmux_linux.Layout.Tiling.{pos_of, Fits, Fits-first, split_rects-Cuts}

-- A size is at most the rectangle's.
abbrev pub SizeFits : PixelSize → PixelRect → Type 0
SizeFits s r = (pos_part s.width ≤ pos_part r.width) × (pos_part s.height ≤ pos_part r.height)

abbrev pub AllLarge : PixelSize → Frames → Type 0
AllLarge leaf = All λ e. SizeFits leaf e.1

-- From the extents along and across to width and height, for either axis.
by_axis :
    (axis : SplitAxis) (rect first second : PixelRect) (m n : PixelSize) (a b c d g w h l k : ℕ)
    → m.width ≡ pos a
    → m.height ≡ pos b
    → n.width ≡ pos c
    → n.height ≡ pos d
    → ite_axis axis w h ≡ ite_axis axis (a + g + c) (b + g + d)
    → ite_axis axis h w ≡ ite_axis axis (max b d) (max a c)
    → w ≤ pos_part rect.width
    → h ≤ pos_part rect.height
    → rect_along axis first ≡ pos l
    → rect_along axis second ≡ pos k
    → rect_along (other axis) first ≡ rect_along (other axis) rect
    → rect_along (other axis) second ≡ rect_along (other axis) rect
    → (pos_part (size_along axis m) + g + pos_part (size_along axis n)
          ≤ pos_part (rect_along axis rect)
        → (pos_part (size_along axis m) ≤ l) × (pos_part (size_along axis n) ≤ k))
    → SizeFits m first × SizeFits n second
by_axis left_right rect first second m n a b c d g w h l k ea eb ec ed e e' lw lh ef es cf cs fit =
    let ef' = ap pos_part ef in
    let es' = ap pos_part es in
    let cf' = ap pos_part cf in
    let cs' = ap pos_part cs in
    let f = fit (rw (ea, ec) (omega arith)) in
    ((omega (arith, f.0), rw eb (omega arith)), (omega (arith, f.1), rw ed (omega arith)))
by_axis top_bottom rect first second m n a b c d g w h l k ea eb ec ed e e' lw lh ef es cf cs fit =
    let ef' = ap pos_part ef in
    let es' = ap pos_part es in
    let cf' = ap pos_part cf in
    let cs' = ap pos_part cs in
    let f = fit (rw (eb, ed) (omega arith)) in
    ((rw ea (omega arith), omega (arith, f.0)), (rw ec (omega arith), omega (arith, f.1)))

module _ {F : Type 0} ⦃f : Float F⦄ where
  -- Both children of a split get their minimum, if the split got its own.
  children-SizeFits :
      (s : SplitId) (axis : SplitAxis) (r : F) (m n : SplitNode F) (g : ℕ) (leaf : PixelSize)
      (rect : PixelRect)
      → Fits (split s axis r m n) g leaf
      → IsRect rect
      → SizeFits (minimum_size (split s axis r m n) (pos g) leaf) rect
      → let m' = minimum_size m (pos g) leaf in
        let n' = minimum_size n (pos g) leaf in
        let rects = split_rects axis r rect (pos g) m' n' in
        SizeFits m' rects.0 × SizeFits n' rects.2
  unfolding minimum_size
  children-SizeFits s axis r m n g leaf rect h ir e =
      let fits = Fits-first s axis r m n g leaf h in
      let ew = pos_of leaf.width h.leaf_width in
      let eh = pos_of leaf.height h.leaf_height in
      let (a, b, ea, eb, la, lb) = minimum_size_lem m g _ _ leaf ew eh fits.0.wide fits.0.high in
      let (c, d, ec, ed, lc, ld) = minimum_size_lem n g _ _ leaf ew eh fits.1.wide fits.1.high in
      let (w, w', ew, ew', _, _, along, across) =
        stack_sizes-pos axis g _ _ a b c d ea eb ec ed (omega (arith, h.wide))
          (omega (arith, h.high)) in
      let (l, k, cut, fit) = split_rects-Cuts s axis r m n g leaf rect h ir in
      let e₀ : w ≤ pos_part rect.width = rw ew at e.0 in
      let e₁ : w' ≤ pos_part rect.height = rw ew' at e.1 in
      by_axis axis rect _ _ _ _ a b c d g w w' l k ea eb ec ed along across e₀ e₁ cut.first_along
        cut.second_along cut.first_across cut.second_across fit

  pub large :
      (n : SplitNode F) (rect : PixelRect) (g : ℕ) (leaf : PixelSize)
      → Fits n g leaf
      → IsRect rect
      → SizeFits (minimum_size n (pos g) leaf) rect
      → AllLarge leaf (pane_frames n rect (pos g) leaf)
  unfolding pane_frames minimum_size
  large (pane i) rect g leaf h ir e = (e, tt)
  large (split s axis r m n) rect g leaf h ir e =
      let fits = Fits-first s axis r m n g leaf h in
      let (l, k, c, _) = split_rects-Cuts s axis r m n g leaf rect h ir in
      let sizes = children-SizeFits s axis r m n g leaf rect h ir e in
      All-append _ (pane_frames m _ (pos g) leaf) (pane_frames n _ (pos g) leaf)
        (large m _ g leaf fits.0 c.first sizes.0) (large n _ g leaf fits.1 c.second sizes.1)
