-- ===== src/Layout/Geometry.antt =====
-- Rectangles inside and beside one another, and what a split makes of its rectangle.
use kitmux_linux.Base.{ℕ, ◌+◌, ◌^◌, ◌≤◌, ◌<◌, ◌≡◌, refl, ap, ◌-◌, ◌⊎◌, inl, inr, arith}
use kitmux_linux.Base.Int.{ℤ, pos, negsuc, pos_part, neg_part, add_i32, add_i32_parts}
use kitmux_linux.Split.{SplitAxis, left_right, top_bottom}
use kitmux_linux.Layout.{PixelRect, pixel_rect, rect_along, child_rects}

-- a + i ≤ b + j, as integers.
abbrev pub LeShift : ℤ → ℕ → ℤ → ℕ → Type 0
LeShift a i b j = pos_part a + i + neg_part b ≤ pos_part b + j + neg_part a

-- An interval that an `i32` can hold: a + l is in range.
abbrev pub IsSpan : ℤ → ℤ → Type 0
IsSpan a l =
    (neg_part l ≡ 0)
    × (neg_part a ≤ 2 ^ 31)
    × (pos_part a + pos_part l < 2 ^ 31)
    × (pos_part l < 2 ^ 31)

pub record IsRect (r : PixelRect) : Type 0 where
  pub across : IsSpan r.x r.width
  pub down : IsSpan r.y r.height

-- The first rectangle lies in the second.
pub record Inside (r o : PixelRect) : Type 0 where
  pub left_edge : LeShift o.x 0 r.x 0
  pub right_edge : LeShift r.x (pos_part r.width) o.x (pos_part o.width)
  pub top_edge : LeShift o.y 0 r.y 0
  pub bottom_edge : LeShift r.y (pos_part r.height) o.y (pos_part o.height)

-- No pixel lies in both: one ends, across or down, where the other begins or before.
abbrev pub Beside : PixelRect → PixelRect → Type 0
Beside r q =
    LeShift r.x (pos_part r.width) q.x 0
    ⊎ LeShift q.x (pos_part q.width) r.x 0
    ⊎ LeShift r.y (pos_part r.height) q.y 0
    ⊎ LeShift q.y (pos_part q.height) r.y 0

pub Inside-refl : (r : PixelRect) → Inside r r
Inside-refl r = omega arith

pub Inside-trans : (r q o : PixelRect) → Inside r q → Inside q o → Inside r o
Inside-trans r q o h k = omega arith

pub Beside-Inside : (r q a b : PixelRect) → Inside r a → Inside q b → Beside a b → Beside r q
Beside-Inside r q a b h k (inl e) = inl (omega arith)
Beside-Inside r q a b h k (inr (inl e)) = inr (inl (omega arith))
Beside-Inside r q a b h k (inr (inr (inl e))) = inr (inr (inl (omega arith)))
Beside-Inside r q a b h k (inr (inr (inr e))) = inr (inr (inr (omega arith)))

pub Beside-sym : (r q : PixelRect) → Beside r q → Beside q r
Beside-sym r q (inl e) = inr (inl e)
Beside-sym r q (inr (inl e)) = inl e
Beside-sym r q (inr (inr (inl e))) = inr (inr (inr e))
Beside-sym r q (inr (inr (inr e))) = inr (inr (inl e))

-- The axis across.
abbrev pub other : SplitAxis → SplitAxis
other left_right = top_bottom
other top_bottom = left_right

-- What the three rectangles of a split are to the rectangle that is split.
pub record Cuts (axis : SplitAxis) (rect : PixelRect) (l k : ℕ) (a d b : PixelRect) : Type 0 where
  pub first : IsRect a
  pub second : IsRect b
  pub first_inside : Inside a rect
  pub divider_inside : Inside d rect
  pub second_inside : Inside b rect
  pub first_beside_divider : Beside a d
  pub first_beside_second : Beside a b
  pub second_beside_divider : Beside b d
  pub first_along : rect_along axis a ≡ pos l
  pub second_along : rect_along axis b ≡ pos k
  pub first_across : rect_along (other axis) a ≡ rect_along (other axis) rect
  pub second_across : rect_along (other axis) b ≡ rect_along (other axis) rect

one_part : (a : ℤ) → (pos_part a ≡ 0) ⊎ (neg_part a ≡ 0)
one_part (pos n) = inr refl
one_part (negsuc n) = inl refl

-- Moving along by a length that stays in range.
add_start :
    (a : ℤ) (l n : ℕ)
    → neg_part a ≤ 2 ^ 31
    → pos_part a + n < 2 ^ 31
    → l ≤ n
    → (pos_part (add_i32 a (pos l)) + neg_part a ≡ neg_part (add_i32 a (pos l)) + pos_part a + l)
      × (neg_part (add_i32 a (pos l)) ≤ 2 ^ 31)
      × (pos_part (add_i32 a (pos l)) + (n - l) < 2 ^ 31)
add_start a l n h k le =
    let e = add_i32_parts a (pos l) (omega arith) (omega arith) in
    let o = one_part a in
    let o' = one_part (add_i32 a (pos l)) in (omega arith, omega arith, omega arith)

pixel_rect_id :
    (x y w h : ℤ)
    → neg_part w ≡ 0
    → neg_part h ≡ 0
    → pixel_rect x y w h ≡ record { x = x; y = y; width = w; height = h }
unfolding pixel_rect
pixel_rect_id x y w h e e' = ground arith

pub child_rects-Cuts :
    (axis : SplitAxis) (rect : PixelRect) (l d k w : ℕ)
    → IsRect rect
    → rect_along axis rect ≡ pos w
    → l + d + k ≡ w
    → let (a, div, b) = child_rects axis rect (pos l) (pos d) (pos k) in Cuts axis rect l k a div b
unfolding child_rects
child_rects-Cuts left_right rect l d k w h e s =
    let ew : pos_part rect.width ≡ w = ap pos_part e in
    let x₁ = add_i32 rect.x (pos l) in
    let s₁ = add_start rect.x l w (omega arith) (omega arith) (omega arith) in
    let s₂ = add_start x₁ d (w - l) s₁.1 s₁.2 (omega arith) in
    rw
      (
        pixel_rect_id rect.x rect.y (pos l) rect.height refl h.down.0,
        pixel_rect_id x₁ rect.y (pos d) rect.height refl h.down.0,
        pixel_rect_id (add_i32 x₁ (pos d)) rect.y (pos k) rect.height refl h.down.0,
      )
      (record {
        first = omega arith;
        second = omega arith;
        first_inside = omega arith;
        divider_inside = omega arith;
        second_inside = omega arith;
        first_beside_divider = inl (omega arith);
        first_beside_second = inl (omega arith);
        second_beside_divider = inr (inl (omega arith));
        first_along = refl;
        second_along = refl;
        first_across = refl;
        second_across = refl;
      })
child_rects-Cuts top_bottom rect l d k w h e s =
    let eh : pos_part rect.height ≡ w = ap pos_part e in
    let y₁ = add_i32 rect.y (pos l) in
    let s₁ = add_start rect.y l w (omega arith) (omega arith) (omega arith) in
    let s₂ = add_start y₁ d (w - l) s₁.1 s₁.2 (omega arith) in
    rw
      (
        pixel_rect_id rect.x rect.y rect.width (pos l) h.across.0 refl,
        pixel_rect_id rect.x y₁ rect.width (pos d) h.across.0 refl,
        pixel_rect_id rect.x (add_i32 y₁ (pos d)) rect.width (pos k) h.across.0 refl,
      )
      (record {
        first = omega arith;
        second = omega arith;
        first_inside = omega arith;
        divider_inside = omega arith;
        second_inside = omega arith;
        first_beside_divider = inr (inr (inl (omega arith)));
        first_beside_second = inr (inr (inl (omega arith)));
        second_beside_divider = inr (inr (inr (omega arith)));
        first_along = refl;
        second_along = refl;
        first_across = refl;
        second_across = refl;
      })
