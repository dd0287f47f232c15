-- ===== src/Neighbor.antt =====
-- kitmux-linux/rust/model/src/split.rs: `directional_neighbor`, the pane to which the focus moves.
pub mod Nearest
pub mod Axis
pub mod Choice
use mathlib.Core.Option
use kitmux_linux.Base.{
  ℕ, suc, ◌-◌, ◌^◌, Bool, true, false, ◌&&◌, not, Option, none, some, List, [], ◌∷◌, ◌==◌, ltb,
  if◌then◌else◌,
}
use kitmux_linux.Base.Int.{ℤ, pos, ltb_ℤ, add_i32, sub_i32, mul_i32, max_ℤ, min_ℤ}
use kitmux_linux.Base.Map.{get, insert}
use kitmux_linux.Ids.{PaneId}
use kitmux_linux.Split.{Direction, left, right, up, down}
use kitmux_linux.Layout.{PixelRect}

abbrev max_x : PixelRect → ℤ
max_x r = add_i32 r.x r.width

abbrev max_y : PixelRect → ℤ
max_y r = add_i32 r.y r.height

abbrev center_x2 : PixelRect → ℤ
center_x2 r = add_i32 (mul_i32 r.x (pos 2)) r.width

abbrev center_y2 : PixelRect → ℤ
center_y2 r = add_i32 (mul_i32 r.y (pos 2)) r.height

abbrev abs_i32 : ℤ → ℤ
abs_i32 a = if ltb_ℤ a (pos 0) then sub_i32 (pos 0) a else a

unfoldable pub is_in_direction : Direction → PixelRect → PixelRect → Bool
is_in_direction left source rect = ltb_ℤ (center_x2 rect) (center_x2 source)
is_in_direction right source rect = ltb_ℤ (center_x2 source) (center_x2 rect)
is_in_direction up source rect = ltb_ℤ (center_y2 rect) (center_y2 source)
is_in_direction down source rect = ltb_ℤ (center_y2 source) (center_y2 rect)

abbrev overlaps_y : PixelRect → PixelRect → Bool
overlaps_y source rect = ltb_ℤ (max_ℤ rect.y source.y) (min_ℤ (max_y rect) (max_y source))

abbrev overlaps_x : PixelRect → PixelRect → Bool
overlaps_x source rect = ltb_ℤ (max_ℤ rect.x source.x) (min_ℤ (max_x rect) (max_x source))

unfoldable pub overlaps : Direction → PixelRect → PixelRect → Bool
overlaps left source rect = overlaps_y source rect
overlaps right source rect = overlaps_y source rect
overlaps up source rect = overlaps_x source rect
overlaps down source rect = overlaps_x source rect

-- The distance along the direction and the doubled distance of the centres across it.
unfoldable pub distance : Direction → PixelRect → PixelRect → ℤ × ℤ
distance left source rect = (
  max_ℤ (sub_i32 source.x (max_x rect)) (pos 0),
  abs_i32 (sub_i32 (center_y2 source) (center_y2 rect)),
)
distance right source rect = (
  max_ℤ (sub_i32 rect.x (max_x source)) (pos 0),
  abs_i32 (sub_i32 (center_y2 source) (center_y2 rect)),
)
distance up source rect = (
  max_ℤ (sub_i32 source.y (max_y rect)) (pos 0),
  abs_i32 (sub_i32 (center_x2 source) (center_x2 rect)),
)
distance down source rect = (
  max_ℤ (sub_i32 rect.y (max_y source)) (pos 0),
  abs_i32 (sub_i32 (center_x2 source) (center_x2 rect)),
)

-- The map from a pane to its index: a later index replaces an earlier one.
unfoldable pub order_from : ℕ → List PaneId → List (PaneId × ℕ) → List (PaneId × ℕ)
order_from i [] order = order
order_from i (id ∷ ids) order = order_from (suc i) ids (insert id i order)

-- `order.get(id).copied().unwrap_or(usize::MAX)`
unfoldable pub rank : List PaneId → PaneId → ℕ
unfolding order_from
rank ids id = elim (get id (order_from 0 ids [])) [ some i ↦ i | none ↦ 2 ^ 64 - 1 ]

abbrev pub Candidate : Type 0
Candidate = PaneId × PixelRect

-- The key that `min_by_key` compares: distance along, distance across, rank.
unfoldable pub key : Direction → PixelRect → List PaneId → Candidate → ℤ × ℤ × ℕ
unfolding distance rank
key direction source ids c = let d = distance direction source c.1 in (d.0, d.1, rank ids c.0)

-- The order of tuples, lexicographic.
unfoldable pub pair_lt : ℤ → ℕ → ℤ → ℕ → Bool
pair_lt a m b n = if ltb_ℤ a b then true else if ltb_ℤ b a then false else ltb m n

unfoldable pub key_lt : ℤ × ℤ × ℕ → ℤ × ℤ × ℕ → Bool
key_lt k l =
    if ltb_ℤ k.0 l.0 then true else if ltb_ℤ l.0 k.0 then false else pair_lt k.1 k.2 l.1 l.2

unfoldable pub select {ℓ} : {A : Type ℓ} → (A → Bool) → List A → List A
select keep [] = []
select keep (x ∷ xs) = let rest = select keep xs in if keep x then x ∷ rest else rest

-- `min_by_key` keeps the first of the least ones.
unfoldable pub least : (Candidate → ℤ × ℤ × ℕ) → Candidate → List Candidate → Candidate
least f best [] = best
least f best (c ∷ cs) = least f (if key_lt (f c) (f best) then c else best) cs

unfoldable pub min_by_key : (Candidate → ℤ × ℤ × ℕ) → List Candidate → Option Candidate
unfolding least key_lt
min_by_key f [] = none
min_by_key f (c ∷ cs) = some (least f c cs)

-- The panes in the direction; of these only the ones that overlap the source, if there are any.
unfoldable pub candidates :
    PaneId → Direction → PixelRect → List (PaneId × PixelRect) → List Candidate
unfolding select is_in_direction overlaps
candidates pane_id direction source frames =
    let ahead = select (λ c. not (c.0 == pane_id) && is_in_direction direction source c.1) frames in
    let aligned = select (λ c. overlaps direction source c.1) ahead in
    elim aligned [ [] ↦ ahead | c ∷ cs ↦ c ∷ cs ]

unfoldable pub directional_neighbor :
    PaneId → Direction → List (PaneId × PixelRect) → List PaneId → Option PaneId
unfolding candidates min_by_key key
directional_neighbor pane_id direction frames ordered_pane_ids = elim (get pane_id frames) [
  | none ↦ none
  | some source ↦
      Option.map (λ c. c.0)
        (min_by_key (key direction source ordered_pane_ids)
          (candidates pane_id direction source frames))
]
