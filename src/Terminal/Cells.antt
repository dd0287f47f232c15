-- ===== src/Terminal/Cells.antt =====
-- The cell that a pointer is over lies in the grid and contains its pixel.
use native.Mathlib.Nat.{div-mul-le_self, lt-div-mul-add, le-div_iff_mul-le, div-lt_iff_lt-mul}
use kitmux_linux.Base.{
  ℕ, suc, ◌+◌, ◌-◌, ◌*◌, ◌/◌, ◌^◌, ◌≡◌, ◌≤◌, ◌<◌, true, false, Option, none, some, ltb, leb, arith,
  Bool-cases, ◌⊎◌, inl, inr,
}
use kitmux_linux.Base.Int.{
  ℤ, pos, negsuc, pos_part, sub_ℕ, ◌≤ℤ◌, ◌<ℤ◌, ltb_ℤ, sub_i32, mul_i32, clamp_ℤ, wrap_i32_id,
}
use kitmux_linux.Float.{Float}
use kitmux_linux.Layout.{PixelRect, pixel_size}
use kitmux_linux.Terminal.{
  TerminalCellCoordinate, div_i32, is_positive, terminal_grid_size, pixel_in, terminal_cell,
}

-- Along one side of `size` pixels, cell number `index` of so many pixels contains the pixel.
abbrev pub IsIn : ℕ → ℕ → ℕ → ℤ → Type 0
IsIn size cell index pixel =
    (pos (index * cell) ≤ℤ pixel)
    × (pixel <ℤ pos (index * cell + cell))
    × (index * cell + cell ≤ size)

abbrev pub IsCell : ℕ → ℕ → ℕ → ℕ → Option TerminalCellCoordinate → Type 0
IsCell width height cell_width cell_height none = ⊥
IsCell width height cell_width cell_height (some c) =
    IsIn width cell_width c.column c.pixel_x
    × IsIn height cell_height c.row c.pixel_y
    × (c.in_left_half ≡ ltb ((pos_part c.pixel_x - c.column * cell_width) * 2) cell_width)

le_div : (a b k : ℕ) → 0 < b → k * b ≤ a → leb k (a / b) ≡ true
le_div a b k h le =
    let at_least : k ≤ a / b = (le-div_iff_mul-le h).1 le in ground (arith, at_least)

cell-IsIn :
    (size cell p : ℕ) → 0 < cell → p < size / cell * cell → IsIn size cell (p / cell) (pos p)
cell-IsIn size cell p h inside =
    let before : p / cell < size / cell = (div-lt_iff_lt-mul h).1 inside in
    let fits : suc (p / cell) * cell ≤ size = (le-div_iff_mul-le h).0 before in
    let below = div-mul-le_self p cell in
    let above : p < p / cell * cell + cell = lt-div-mul-add h in
    let next : suc (p / cell) * cell ≡ p / cell * cell + cell = grind arith in
    (omega (arith, below), omega (arith, above), omega (arith, next, fits))

mul_i32_pos : (a b : ℕ) → a * b < 2 ^ 31 → mul_i32 (pos a) (pos b) ≡ pos (a * b)
unfolding mul_i32
mul_i32_pos a b h =
    let n : sub_ℕ (a * b + 0) (a * 0 + 0 * b) ≡ pos (a * b) = ground arith in
    rw n (wrap_i32_id (pos (a * b)) (h, omega arith))

sub_i32_pos : (a b : ℕ) → b ≤ a → a < 2 ^ 31 → sub_i32 (pos a) (pos b) ≡ pos (a - b)
unfolding sub_i32
sub_i32_pos a b le h =
    let n : sub_ℕ (a + 0) (0 + b) ≡ pos (a - b) = ground (arith, le) in
    rw n (wrap_i32_id (pos (a - b)) (omega (arith, h), omega arith))

-- A value clamped to 0 .. m.
clamp_lem : (a : ℤ) (m : ℕ) → (p : ℕ) × ((clamp_ℤ a (pos 0) (pos m) ≡ pos p) × (p ≤ m))
unfolding clamp_ℤ
clamp_lem (pos n) m = elim (Bool-cases (ltb m n)) [
  | inl h ↦ (m, (ground (arith, h), omega arith))
  | inr h ↦ (n, (ground (arith, h), ground (arith, h)))
]
clamp_lem (negsuc n) m = (0, (ground arith, omega arith))

module _ {F : Type 0} ⦃f : Float F⦄ (floor : F → ℤ) where
  pixel_in_lem :
      (x : F) (origin : ℤ) (size cell : ℕ)
      → 0 < cell
      → cell ≤ size
      → size < 2 ^ 31
      → (p : ℕ) × ((pixel_in floor x origin (mul_i32 (pos (size / cell)) (pos cell)) ≡ pos p)
          × (p < size / cell * cell))
  unfolding pixel_in
  pixel_in_lem x origin size cell h fits few =
      let below : size / cell * cell ≤ size = div-mul-le_self size cell in
      let one : 1 ≤ size / cell = (le-div_iff_mul-le h).1 (omega (arith, fits)) in
      let some_pixel : 1 ≤ size / cell * cell = ground (arith, one, h) in
      let extent = mul_i32_pos (size / cell) cell (omega (arith, below, few)) in
      let (p, (is, le)) = clamp_lem (floor (f.sub x (f.of_int origin))) (size / cell * cell - 1) in
      let last = sub_i32_pos (size / cell * cell) 1 some_pixel (omega (arith, below, few)) in
      (p, (rw (extent, last) is, omega (arith, le, some_pixel)))

grid_lem :
    (frame : PixelRect) (w h cw ch : ℕ)
    → frame.width ≡ pos w
    → frame.height ≡ pos h
    → 0 < cw
    → 0 < ch
    → 2 * cw ≤ w
    → ch ≤ h
    → terminal_grid_size frame (pos cw) (pos ch)
      ≡ some (record { width = pos (w / cw); height = pos (h / ch) })
unfolding terminal_grid_size div_i32 is_positive pixel_size
grid_lem frame w h cw ch width height some_w some_h columns rows =
    let two = le_div w cw 2 some_w columns in
    let one = le_div h ch 1 some_h (omega (arith, rows)) in
    rw (width, height) (ground (arith, two, one, some_w, some_h))

-- The remainder of a pixel in its cell, doubled, does not overflow.
half_lem :
    (p cell : ℕ)
    → 0 < cell
    → p < 2 ^ 31
    → cell * 2 ≤ 2 ^ 31
    → ltb_ℤ (mul_i32 (sub_i32 (pos p) (mul_i32 (pos (p / cell)) (pos cell))) (pos 2)) (pos cell)
      ≡ ltb ((p - p / cell * cell) * 2) cell
half_lem p cell h few small =
    let below = div-mul-le_self p cell in
    let above : p < p / cell * cell + cell = lt-div-mul-add h in
    let start = mul_i32_pos (p / cell) cell (omega (arith, below, few)) in
    let offset = sub_i32_pos p (p / cell * cell) below few in
    let doubled = mul_i32_pos (p - p / cell * cell) 2 (omega (arith, above, small)) in
    rw (start, offset, doubled) (ground arith)

module _ {F : Type 0} ⦃f : Float F⦄ (floor : F → ℤ) where
  -- Where a frame of less than 2^31 pixels in width and height has room for two columns and one
  -- row of cells of positive size, terminal_cell answers, whatever the pointer: the cell lies in
  -- the frame, its pixel lies in the cell, and the flag says whether that is the left half.
  pub terminal_cell_lem :
      (x y : F) (frame : PixelRect) (w h cw ch : ℕ)
      → frame.width ≡ pos w
      → frame.height ≡ pos h
      → w < 2 ^ 31
      → h < 2 ^ 31
      → 0 < cw
      → 0 < ch
      → 2 * cw ≤ w
      → ch ≤ h
      → IsCell w h cw ch (terminal_cell floor x y frame (pos cw) (pos ch))
  unfolding terminal_cell div_i32
  terminal_cell_lem x y frame w h cw ch width height few_w few_h some_w some_h columns rows =
      let grid = grid_lem frame w h cw ch width height some_w some_h columns rows in
      let (p, (px, inside_w)) =
        pixel_in_lem floor x frame.x w cw some_w (omega (arith, columns)) few_w in
      let (q, (py, inside_h)) = pixel_in_lem floor y frame.y h ch some_h rows few_h in
      let below = div-mul-le_self w cw in
      let half =
        half_lem p cw some_w (omega (arith, inside_w, below, few_w))
          (omega (arith, columns, few_w)) in
      rw (grid, px, py) (cell-IsIn w cw p some_w inside_w, cell-IsIn h ch q some_h inside_h, half)

div_lt : (a b k : ℕ) → 0 < b → a < k * b → leb k (a / b) ≡ false
div_lt a b k h lt = let less : a / b < k = (div-lt_iff_lt-mul h).1 lt in ground (arith, less)

-- Where a frame has no room for two columns or for one row, there is no cell.
module _ {F : Type 0} ⦃f : Float F⦄ (floor : F → ℤ) where
  pub terminal_cell-none :
      (x y : F) (frame : PixelRect) (w h cw ch : ℕ)
      → frame.width ≡ pos w
      → frame.height ≡ pos h
      → 0 < cw
      → 0 < ch
      → (w < 2 * cw) ⊎ (h < ch)
      → terminal_cell floor x y frame (pos cw) (pos ch) ≡ none
  unfolding terminal_cell terminal_grid_size div_i32 is_positive
  terminal_cell-none x y frame w h cw ch width height some_w some_h small = elim small [
    | inl narrow ↦ let no = div_lt w cw 2 some_w narrow in rw (width, height) (ground (arith, no))
    | inr low ↦
        let no = div_lt h ch 1 some_h (omega (arith, low)) in
        rw (width, height) (ground (arith, no))
  ]
