-- ===== src/Model/Selection.antt =====
-- The helpers of kitmux-linux/rust/model/src/model.rs that every level of the hierarchy shares: a
-- vector of members with the index of the active one.
pub mod Laws
pub mod Cycle
use mathlib.Core.Option
use kitmux_linux.Base.{
  ℕ, suc, ◌+◌, ◌-◌, ◌%◌, Bool, true, false, ◌||◌, Option, none, some, List, [], ◌∷◌, map, ◌==◌, ltb,
  leb, min, length, get_elem?, if◌then◌else◌,
}
use kitmux_linux.Base.Int.{ℤ, pos, negsuc, pos_part, neg_part}
use kitmux_linux.Base.Unique.{insert_all}
use kitmux_linux.Base.Vec.{position, remove_at, insert_at}

-- `all_unique`
unfoldable pub all_unique : List ℕ → Bool
unfolding insert_all
all_unique values = elim (insert_all values []) [ some _ ↦ true | none ↦ false ]

-- `rem_euclid` of an integer by a positive number.
unfoldable pub rem_euclid : ℤ → ℕ → ℕ
rem_euclid (pos n) m = n % m
rem_euclid (negsuc n) m = m - 1 - n % m

abbrev add_index : ℕ → ℤ → ℤ
add_index a (pos n) = pos (a + n)
add_index a (negsuc n) = if ltb n a then pos (a - suc n) else negsuc (n - a)

-- `(index as i64 + i64::from(direction)).rem_euclid(count)`: the index of a vector and an `i32` add
-- without overflow in an `i64`.
unfoldable pub wrapped_index : ℕ → ℤ → ℕ → ℕ
unfolding rem_euclid
wrapped_index index direction count = rem_euclid (add_index index direction) count

module _ {A : Type 0} where
  -- The members, the active index and what was removed.
  unfoldable pub remove_selected : List A → ℕ → ℕ → Option (A × List A × ℕ)
  remove_selected values active_index removal_index =
      let rest = remove_at values removal_index in
      let active =
        if active_index == removal_index
        then min removal_index (length rest - 1)
        else if ltb removal_index active_index
        then active_index - 1
        else active_index in
      if leb (length values) 1 || leb (length values) removal_index
      then none
      else Option.map (λ removed. (removed, rest, active)) (get_elem? values removal_index)

  -- The second half of `move_selected`, from the active member and the one that moves.
  unfoldable pub relocate :
      (A → ℕ) → List A → ℕ → ℕ → Option A → Option A → Option (List A × ℕ × Bool)
  relocate identify values source target (some active) (some moved) =
      let values' = insert_at (remove_at values source) target moved in
      Option.map (λ i. (values', i, true))
        (position (λ value. identify value == identify active) values')
  relocate identify values source target _ _ = none

  -- `none` is a panic: the active index is out of bounds, or `expect` finds no active member.
  unfoldable pub move_selected : (A → ℕ) → List A → ℕ → ℕ → ℕ → Option (List A × ℕ × Bool)
  unfolding relocate
  move_selected identify values active_index id target_index =
      if leb (length values) target_index
      then some (values, active_index, false)
      else elim (position (λ value. identify value == id) values) [
        | none ↦ some (values, active_index, false)
        | some source_index ↦
            if source_index == target_index
            then some (values, active_index, false)
            else relocate identify values source_index target_index (get_elem? values active_index)
                (get_elem? values source_index)
      ]
