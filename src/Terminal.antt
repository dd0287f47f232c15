-- ===== src/Terminal.antt =====
-- kitmux-linux/rust/model/src/interaction.rs: the confirmation of a paste, the grid of a terminal and
-- the cell under the pointer. A text is the list of its characters.
pub mod Cells
use kitmux_linux.Base.{
  ℕ, ◌/◌, Bool, true, false, not, ◌&&◌, ◌||◌, Option, none, some, ◌==◌, ltb, if◌then◌else◌,
}
use mathlib.Core.Option
use kitmux_linux.Base.Int.{ℤ, pos, pos_part, ltb_ℤ, leb_ℤ, sub_i32, mul_i32, clamp_ℤ}
use kitmux_linux.Float.{Float}
use kitmux_linux.Layout.{PixelSize, PixelRect, pixel_size}
use kitmux_linux.Text.{Text, any, byte_len}

pub data PasteConfirmationReason : Type 0 where
  large : ℕ → PasteConfirmationReason
  control_characters : PasteConfirmationReason

-- The test of the closure.
unfoldable pub is_unsafe : ℕ → Bool
is_unsafe value =
    not (value == 0x09)
    && not (value == 0x0a)
    && not (value == 0x0d)
    && (ltb value 0x20 || value == 0x7f)

unfoldable pub paste_confirmation_reason : Text → ℕ → Option PasteConfirmationReason
paste_confirmation_reason text large_byte_threshold =
    if ltb large_byte_threshold (byte_len text)
    then some (PasteConfirmationReason.large (byte_len text))
    else if any is_unsafe text
    then some PasteConfirmationReason.control_characters
    else none

-- The quotient of two positive numbers.
unfoldable pub div_i32 : ℤ → ℤ → ℤ
div_i32 a b = pos (pos_part a / pos_part b)

unfoldable pub is_positive : ℤ → Bool
is_positive a = ltb_ℤ (pos 0) a

unfoldable pub terminal_grid_size : PixelRect → ℤ → ℤ → Option PixelSize
terminal_grid_size frame cell_width cell_height =
    if is_positive frame.width
      && is_positive frame.height
      && is_positive cell_width
      && is_positive cell_height
      && leb_ℤ (pos 2) (div_i32 frame.width cell_width)
      && leb_ℤ (pos 1) (div_i32 frame.height cell_height)
    then some (pixel_size (div_i32 frame.width cell_width) (div_i32 frame.height cell_height))
    else none

pub record TerminalCellCoordinate : Type 0 where
  pub column : ℕ
  pub row : ℕ
  pub in_left_half : Bool
  pub pixel_x : ℤ
  pub pixel_y : ℤ

-- `floor() as i64`, which saturates, is a parameter.
module _ {F : Type 0} ⦃f : Float F⦄ (floor : F → ℤ) where
  -- The pixel of the pointer in a grid of so many pixels.
  unfoldable pub pixel_in : F → ℤ → ℤ → ℤ
  pixel_in x origin extent =
      clamp_ℤ (floor (f.sub x (f.of_int origin))) (pos 0) (sub_i32 extent (pos 1))

  unfoldable pub terminal_cell : F → F → PixelRect → ℤ → ℤ → Option TerminalCellCoordinate
  terminal_cell x y frame cell_width cell_height =
      Option.map
        (λ grid.
          let pixel_x = pixel_in x frame.x (mul_i32 grid.width cell_width) in
          let pixel_y = pixel_in y frame.y (mul_i32 grid.height cell_height) in
          let column = div_i32 pixel_x cell_width in
          let row = div_i32 pixel_y cell_height in
          record {
            column = pos_part column;
            row = pos_part row;
            in_left_half =
                ltb_ℤ (mul_i32 (sub_i32 pixel_x (mul_i32 column cell_width)) (pos 2)) cell_width;
            pixel_x = pixel_x;
            pixel_y = pixel_y;
          })
        (terminal_grid_size frame cell_width cell_height)

  unfoldable pub terminal_cell_scaled :
      F → F → F → PixelRect → ℤ → ℤ → Option TerminalCellCoordinate
  terminal_cell_scaled logical_x logical_y backing_scale frame cell_width cell_height =
      if f.finite backing_scale && f.lt f.zero backing_scale
      then terminal_cell (f.mul logical_x backing_scale) (f.mul logical_y backing_scale) frame
          cell_width cell_height
      else none
