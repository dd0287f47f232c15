-- ===== src/Split.antt =====
-- kitmux-linux/rust/model/src/split.rs: the tree of panes and splits, and the operations that read
-- and edit it. A method on `&mut self` returns the new tree with its result. Layout is in `Layout`.
pub mod Panes
pub mod Swap
pub mod Valid
pub mod Ratio
pub mod Shape
pub mod Edits
use mathlib.Core.Option
use kitmux_linux.Base.{
  Bool, true, false, ◌&&◌, ◌||◌, not, Option, none, some, List, [], ◌∷◌, ◌++◌, ◌==◌, if◌then◌else◌,
  elem,
}
use kitmux_linux.Base.Int.{ℤ, pos, negsuc}
use kitmux_linux.Ids.{PaneId, SplitId}
use kitmux_linux.Float.{Float, clamp}

pub data SplitAxis : Type 0 where
  left_right top_bottom : SplitAxis

pub data Direction : Type 0 where
  left right up down : Direction

-- The fields of a `Split` are the arguments of the constructor: identifier, axis, ratio, children.
pub data SplitNode (F : Type 0) : Type 0 where
  pane : PaneId → SplitNode F
  split : SplitId → SplitAxis → F → SplitNode F → SplitNode F → SplitNode F

pub record ResizeTarget : Type 0 where
  pub split_id : SplitId
  pub ratio_delta_sign : ℤ

-- The match on axis, direction and side in `resize_target`.
unfoldable pub delta_sign : SplitAxis → Direction → Bool → Option ℤ
delta_sign SplitAxis.left_right Direction.right true = some (pos 1)
delta_sign SplitAxis.top_bottom Direction.down true = some (pos 1)
delta_sign SplitAxis.left_right Direction.left false = some (negsuc 0)
delta_sign SplitAxis.top_bottom Direction.up false = some (negsuc 0)
delta_sign _ _ _ = none

abbrev pub or_else {ℓ} : {A : Type ℓ} → Option A → Option A → Option A
or_else (some a) other = some a
or_else none other = other

module _ {F : Type 0} where
  -- `collect_pane_ids` pushes to the vector that it is given.
  unfoldable pub collect_pane_ids : SplitNode F → List PaneId → List PaneId
  collect_pane_ids (pane i) result = result ++ i ∷ []
  collect_pane_ids (split s axis r first second) result =
      collect_pane_ids second (collect_pane_ids first result)

  unfoldable pub pane_ids : SplitNode F → List PaneId
  pane_ids node = collect_pane_ids node []

  unfoldable pub contains : SplitNode F → PaneId → Bool
  contains (pane i) p = i == p
  contains (split s axis r first second) p = contains first p || contains second p

  -- The tree that is left, if any, and whether the pane was found.
  unfoldable pub removing : SplitNode F → PaneId → Option (SplitNode F) × Bool
  removing (pane i) p = if i == p then (none, true) else (some (pane i), false)
  removing (split s axis r first second) p =
      let (first', in_first) = removing first p in
      let (second', in_second) = removing second p in
      if in_first
      then (elim first' [ some n ↦ some (split s axis r n second) | none ↦ some second ], true)
      else if in_second
      then (elim second' [ some n ↦ some (split s axis r first n) | none ↦ some first ], true)
      else (some (split s axis r first second), false)

  unfoldable pub removing_pane : SplitNode F → PaneId → Option (SplitNode F)
  removing_pane node p =
      let (rest, removed) = removing node p in if removed then rest else some node

  unfoldable pub swap_panes_unchecked : SplitNode F → PaneId → PaneId → SplitNode F
  swap_panes_unchecked (pane i) a b = if i == a then pane b else if i == b then pane a else pane i
  swap_panes_unchecked (split s axis r first second) a b =
      split s axis r (swap_panes_unchecked first a b) (swap_panes_unchecked second a b)

  unfoldable pub swap_panes : SplitNode F → PaneId → PaneId → SplitNode F × Bool
  swap_panes node a b =
      if a == b || not (contains node a) || not (contains node b)
      then (node, false)
      else (swap_panes_unchecked node a b, true)

  -- `split`: the first split with the identifier, parents before children.
  unfoldable pub find_split : SplitNode F → SplitId → Option (SplitNode F)
  find_split (pane i) id = none
  find_split (split s axis r first second) id =
      if s == id
      then some (split s axis r first second)
      else or_else (find_split first id) (find_split second id)

  -- `split_mut` returns a reference to that split, through which the callers write its ratio: here
  -- the write is an argument, and the result says whether the split was found.
  unfoldable pub split_mut : SplitNode F → SplitId → (F → F) → SplitNode F × Bool
  split_mut (pane i) id write = (pane i, false)
  split_mut (split s axis r first second) id write =
      let (first', in_first) = split_mut first id write in
      let (second', in_second) = split_mut second id write in
      if s == id
      then (split s axis (write r) first second, true)
      else if in_first
      then (split s axis r first' second, true)
      else (split s axis r first second', in_second)

  -- The nearest ancestor of the pane whose divider moves that way.
  unfoldable pub resize_target : SplitNode F → PaneId → Direction → Option ResizeTarget
  unfolding delta_sign contains
  resize_target (pane i) p direction = none
  resize_target (split s axis r first second) p direction =
      let in_first = contains first p in
      if not in_first && not (contains second p)
      then none
      else or_else
          (if in_first then resize_target first p direction else resize_target second p direction)
          (Option.map (λ sign. record { split_id = s; ratio_delta_sign = sign })
            (delta_sign axis direction in_first))

module _ {F : Type 0} ⦃f : Float F⦄ where
  -- `ratio.is_finite() && (0.0..=1.0).contains(&ratio)`
  unfoldable pub valid_ratio : F → Bool
  valid_ratio r = f.finite r && (f.le f.zero r && f.le r f.one)

  -- `HashSet::insert` says whether the value is new.
  unfoldable pub visit :
      SplitNode F → List PaneId × List SplitId → Option (List PaneId × List SplitId)
  unfolding valid_ratio
  visit (pane i) (pane_ids, split_ids) =
      if elem pane_ids i then none else some (i ∷ pane_ids, split_ids)
  visit (split s axis r first second) (pane_ids, split_ids) =
      if valid_ratio r && not (elem split_ids s)
      then Option.bind (visit first (pane_ids, s ∷ split_ids)) (visit second)
      else none

  unfoldable pub has_unique_ids_and_valid_ratios : SplitNode F → Bool
  unfolding visit
  has_unique_ids_and_valid_ratios node = elim (visit node ([], [])) [ some _ ↦ true | none ↦ false ]

  unfoldable pub finite_ratio_or_default : F → F
  unfolding clamp
  finite_ratio_or_default value = if f.finite value then clamp value f.zero f.one else f.half

  unfoldable pub with_id : SplitId → SplitAxis → F → SplitNode F → SplitNode F → SplitNode F
  unfolding finite_ratio_or_default
  with_id id axis ratio first second = split id axis (finite_ratio_or_default ratio) first second

  -- `fresh` is the identifier that `Split::new` draws.
  unfoldable pub split_pane_unchecked :
      SplitId → SplitNode F → PaneId → SplitAxis → PaneId → SplitNode F × Bool
  split_pane_unchecked fresh (pane i) p axis new =
      if i == p then (with_id fresh axis f.half (pane i) (pane new), true) else (pane i, false)
  split_pane_unchecked fresh (split s a r first second) p axis new =
      let (first', in_first) = split_pane_unchecked fresh first p axis new in
      let (second', in_second) = split_pane_unchecked fresh second p axis new in
      if in_first
      then (split s a r first' second, true)
      else (split s a r first' second', in_second)

  unfoldable pub split_pane :
      SplitId → SplitNode F → PaneId → SplitAxis → PaneId → SplitNode F × Bool
  unfolding split_pane_unchecked contains
  split_pane fresh node p axis new =
      if contains node new then (node, false) else split_pane_unchecked fresh node p axis new

  unfoldable pub clamp_to_bounds : F → F × F → F
  unfolding clamp
  clamp_to_bounds value bounds =
      let lower = clamp bounds.0 f.zero f.one in
      let upper = clamp bounds.1 lower f.one in clamp value lower upper

  unfoldable pub adjust_ratio : SplitNode F → SplitId → F → F × F → SplitNode F × Bool
  unfolding split_mut
  adjust_ratio node id delta bounds =
      split_mut node id
        λ ratio. clamp_to_bounds (if f.finite delta then f.add ratio delta else ratio) bounds

  unfoldable pub set_ratio : SplitNode F → SplitId → F → F × F → SplitNode F × Bool
  unfolding split_mut
  set_ratio node id ratio bounds =
      split_mut node id λ old. if f.finite ratio then clamp_to_bounds ratio bounds else old

  unfoldable pub ratio_delta : ResizeTarget → F → F
  ratio_delta target step = f.mul (f.of_int target.ratio_delta_sign) step
