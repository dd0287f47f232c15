-- ===== src/Layout/Tiling.antt =====
-- Frames and dividers of a layout within one another and beside one another.
use kitmux_linux.Base.{ℕ, ◌+◌, ◌^◌, ◌≤◌, ◌<◌, ◌≡◌, refl, arith}
use kitmux_linux.Base.Int.{ℤ, pos, negsuc, pos_part, neg_part}
use kitmux_linux.Ids.{SplitId}
use kitmux_linux.Float.{Float}
use kitmux_linux.Split.{SplitAxis, left_right, top_bottom, SplitNode, pane, split}
use kitmux_linux.Layout.{PixelSize, PixelRect, size_along, rect_along, minimum_size, split_rects}
use kitmux_linux.Layout.Cut.{split_rects_lem}
use kitmux_linux.Layout.Geometry.{IsRect, Inside-refl, Beside-sym, child_rects-Cuts, Cuts}
use kitmux_linux.Layout.Entries.{
  AllInside, AllInside-mono, Cross, Cross-Inside, Cross-append_right, SideBySide, SideBySide-append,
  All-append, Beside-All,
}
use kitmux_linux.Layout.Frames.{pane_frames, divider_frames, cost, minimum_size_lem, ite_axis}

pub pos_of : (a : ℤ) → neg_part a ≡ 0 → a ≡ pos (pos_part a)
pos_of (pos n) h = refl
pos_of (negsuc n) h = absurd (omega arith)

rect_along-IsRect :
    (axis : SplitAxis) (r : PixelRect)
    → IsRect r
    → (rect_along axis r ≡ pos (ite_axis axis (pos_part r.width) (pos_part r.height)))
      × (ite_axis axis (pos_part r.width) (pos_part r.height) < 2 ^ 31)
rect_along-IsRect left_right r h = (pos_of r.width h.across.0, omega arith)
rect_along-IsRect top_bottom r h = (pos_of r.height h.down.0, omega arith)

size_along-pos :
    (axis : SplitAxis) (s : PixelSize) (w h : ℕ)
    → s.width ≡ pos w
    → s.height ≡ pos h
    → size_along axis s ≡ pos (ite_axis axis w h)
size_along-pos left_right s w h e e' = e
size_along-pos top_bottom s w h e e' = e'

ite_axis-add-lt :
    (axis : SplitAxis) (a b c d k : ℕ)
    → a + c < k
    → b + d < k
    → ite_axis axis a b + ite_axis axis c d < k
ite_axis-add-lt left_right a b c d k h h' = h
ite_axis-add-lt top_bottom a b c d k h h' = h'

-- The leaf size and the gap are lengths, and the panes of the tree, each with a gap, fit into the
-- range of an `i32` side by side.
pub record Fits {F : Type 0} (n : SplitNode F) (g : ℕ) (leaf : PixelSize) : Type 0 where
  pub leaf_width : neg_part leaf.width ≡ 0
  pub leaf_height : neg_part leaf.height ≡ 0
  pub wide : cost (pos_part leaf.width + g) n < 2 ^ 31
  pub high : cost (pos_part leaf.height + g) n < 2 ^ 31

module _ {F : Type 0} where
  pub Fits-first :
      (s : SplitId) (axis : SplitAxis) (r : F) (m n : SplitNode F) (g : ℕ) (leaf : PixelSize)
      → Fits (split s axis r m n) g leaf
      → Fits m g leaf × Fits n g leaf
  Fits-first s axis r m n g leaf h = omega arith

module _ {F : Type 0} ⦃f : Float F⦄ where
  -- One level of `fill_layout`: what the split makes of its rectangle.
  pub split_rects-Cuts :
      (s : SplitId) (axis : SplitAxis) (r : F) (m n : SplitNode F) (g : ℕ) (leaf : PixelSize)
      (rect : PixelRect)
      → Fits (split s axis r m n) g leaf
      → IsRect rect
      → let m' = minimum_size m (pos g) leaf in
        let n' = minimum_size n (pos g) leaf in
        let rects = split_rects axis r rect (pos g) m' n' in
        (l k : ℕ) × Cuts axis rect l k rects.0 rects.1 rects.2
        × (pos_part (size_along axis m') + g + pos_part (size_along axis n')
              ≤ pos_part (rect_along axis rect)
            → (pos_part (size_along axis m') ≤ l) × (pos_part (size_along axis n') ≤ k))
  split_rects-Cuts s axis r m n g leaf rect h ir =
      let fits = Fits-first s axis r m n g leaf h in
      let ew = pos_of leaf.width h.leaf_width in
      let eh = pos_of leaf.height h.leaf_height in
      let (a, b, ea, eb, la, lb) = minimum_size_lem m g _ _ leaf ew eh fits.0.wide fits.0.high in
      let (c, d, ec, ed, lc, ld) = minimum_size_lem n g _ _ leaf ew eh fits.1.wide fits.1.high in
      let em = size_along-pos axis _ a b ea eb in
      let en = size_along-pos axis _ c d ec ed in
      let along = rect_along-IsRect axis rect ir in
      let lt =
        ite_axis-add-lt axis a b c d (2 ^ 31) (omega (arith, h.wide)) (omega (arith, h.high)) in
      let (l, gap, k, e, sum, fit) =
        split_rects_lem axis r rect g _ _ _ _ _ along.0 em en along.1 lt in
      (l, k, rw e (child_rects-Cuts axis rect l gap k _ ir along.0 sum), rw (em, en, along.0) fit)

  pub record Tiled (n : SplitNode F) (rect : PixelRect) (gap : ℤ) (leaf : PixelSize) : Type 0 where
    pub panes_inside : AllInside rect (pane_frames n rect gap leaf)
    pub dividers_inside : AllInside rect (divider_frames n rect gap leaf)
    pub panes_beside : SideBySide (pane_frames n rect gap leaf)
    pub dividers_beside : SideBySide (divider_frames n rect gap leaf)
    pub apart : Cross (divider_frames n rect gap leaf) (pane_frames n rect gap leaf)

  pub tiled :
      (n : SplitNode F) (rect : PixelRect) (g : ℕ) (leaf : PixelSize)
      → Fits n g leaf
      → IsRect rect
      → Tiled n rect (pos g) leaf
  unfolding pane_frames divider_frames
  tiled (pane i) rect g leaf h ir = record {
    panes_inside = (Inside-refl rect, tt);
    dividers_inside = tt;
    panes_beside = (tt, tt);
    dividers_beside = tt;
    apart = tt;
  }
  tiled (split s axis r m n) rect g leaf h ir =
      let fits = Fits-first s axis r m n g leaf h in
      let (l, k, c, _) = split_rects-Cuts s axis r m n g leaf rect h ir in
      let rects =
        split_rects axis r rect (pos g) (minimum_size m (pos g) leaf)
          (minimum_size n (pos g) leaf) in
      let a = rects.0 in
      let d = rects.1 in
      let b = rects.2 in
      let tm = tiled m a g leaf fits.0 c.first in
      let tn = tiled n b g leaf fits.1 c.second in
      let fm = pane_frames m a (pos g) leaf in
      let fn = pane_frames n b (pos g) leaf in
      let dm = divider_frames m a (pos g) leaf in
      let dn = divider_frames n b (pos g) leaf in
      let d_fm =
        Beside-All d d a fm (Inside-refl d) tm.panes_inside
          (Beside-sym a d c.first_beside_divider) in
      let d_fn =
        Beside-All d d b fn (Inside-refl d) tn.panes_inside
          (Beside-sym b d c.second_beside_divider) in
      let d_dm =
        Beside-All d d a dm (Inside-refl d) tm.dividers_inside
          (Beside-sym a d c.first_beside_divider) in
      let d_dn =
        Beside-All d d b dn (Inside-refl d) tn.dividers_inside
          (Beside-sym b d c.second_beside_divider) in
      let ba = Beside-sym a b c.first_beside_second in
      record {
        panes_inside =
            All-append _ fm fn (AllInside-mono a rect fm c.first_inside tm.panes_inside)
              (AllInside-mono b rect fn c.second_inside tn.panes_inside);
        dividers_inside = (
          c.divider_inside,
          All-append _ dm dn (AllInside-mono a rect dm c.first_inside tm.dividers_inside)
              (AllInside-mono b rect dn c.second_inside tn.dividers_inside),
        );
        panes_beside =
            SideBySide-append fm fn tm.panes_beside tn.panes_beside
              (Cross-Inside a b fm fn tm.panes_inside tn.panes_inside c.first_beside_second);
        dividers_beside = (
          All-append _ dm dn d_dm d_dn,
          SideBySide-append dm dn tm.dividers_beside tn.dividers_beside
              (Cross-Inside a b dm dn tm.dividers_inside tn.dividers_inside c.first_beside_second),
        );
        apart = (
          All-append _ fm fn d_fm d_fn,
          All-append _ dm dn
              (Cross-append_right dm fm fn tm.apart
                (Cross-Inside a b dm fn tm.dividers_inside tn.panes_inside c.first_beside_second))
              (Cross-append_right dn fm fn
                (Cross-Inside b a dn fm tn.dividers_inside tm.panes_inside ba) tn.apart),
        );
      }
