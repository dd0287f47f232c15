-- ===== src/Split/Swap.antt =====
-- `swap_panes` and the order and shape of the tree.
use kitmux_linux.Base.{◌≡◌, ap₂, ◌&&◌, not, map, ◌==◌, arith, elem, if◌then◌else◌}
use kitmux_linux.Ids.{PaneId}
use kitmux_linux.Split.{
  SplitNode, pane, split, pane_ids, contains, swap_panes_unchecked, swap_panes,
}
use kitmux_linux.Split.Panes.{exchange, contains-elem, swap_unchecked_lem}

module _ {F : Type 0} where
  -- A swap happens exactly for two different panes that both are in the tree; it then exchanges
  -- the two in the order of the panes, and otherwise leaves that order.
  pub swap_panes_lem :
      (n : SplitNode F) (a b : PaneId)
      → ((swap_panes n a b).1 ≡ (not (a == b) && (elem (pane_ids n) a && elem (pane_ids n) b)))
        × (pane_ids (swap_panes n a b).0
            ≡ (if (swap_panes n a b).1 then map (exchange a b) (pane_ids n) else pane_ids n))
  unfolding swap_panes
  swap_panes_lem n a b =
      ground (arith, contains-elem n a, contains-elem n b, swap_unchecked_lem n a b)

  swap_unchecked_twice :
      (n : SplitNode F) (a b : PaneId) → swap_panes_unchecked (swap_panes_unchecked n a b) a b ≡ n
  unfolding swap_panes_unchecked
  swap_unchecked_twice (pane i) a b = ground arith
  swap_unchecked_twice (split s x r m n) a b =
      ap₂ (split s x r) (swap_unchecked_twice m a b) (swap_unchecked_twice n a b)

  contains-swap :
      (n : SplitNode F) (a b : PaneId)
      → (contains (swap_panes_unchecked n a b) a ≡ contains n b)
        × (contains (swap_panes_unchecked n a b) b ≡ contains n a)
  unfolding swap_panes_unchecked contains
  contains-swap (pane i) a b = ground arith
  contains-swap (split s x r m n) a b = ground (arith, contains-swap m a b, contains-swap n a b)

  -- Swapping the same two panes again restores the tree: its shape, its identifiers, its ratios
  -- and its panes.
  pub swap_panes_twice :
      (n : SplitNode F) (a b : PaneId) → (swap_panes (swap_panes n a b).0 a b).0 ≡ n
  unfolding swap_panes
  swap_panes_twice n a b = ground (arith, swap_unchecked_twice n a b, contains-swap n a b)
