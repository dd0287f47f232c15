-- ===== src/Split/Panes.antt =====
-- The edits of the split tree as operations on the list of its panes, left to right.
use mathlib.Core.List.{append-nil, append_assoc, map-append}
use kitmux_linux.Base.{
  ℕ, ◌≡◌, refl, ap, sym, ◌∙◌, Bool, true, false, ◌&&◌, not, Option, none, some, List, [], ◌∷◌, ◌++◌,
  map, ◌==◌, if◌then◌else◌, arith, elem, elem-append,
}
use kitmux_linux.Ids.{PaneId, SplitId}
use kitmux_linux.Float.{Float}
use kitmux_linux.Split.{
  finite_ratio_or_default, SplitNode, pane, split, SplitAxis, collect_pane_ids, pane_ids, contains,
  removing, removing_pane, swap_panes_unchecked, with_id, split_pane_unchecked, split_pane,
}

-- Puts `new` behind the first `p`.
unfoldable pub insert_after : ℕ → ℕ → List ℕ → List ℕ
insert_after p new [] = []
insert_after p new (x ∷ xs) = if x == p then x ∷ new ∷ xs else x ∷ insert_after p new xs

-- Drops the first `p`.
unfoldable pub erase_first : ℕ → List ℕ → List ℕ
erase_first p [] = []
erase_first p (x ∷ xs) = if x == p then xs else x ∷ erase_first p xs

-- Exchanges two identifiers.
unfoldable pub exchange : ℕ → ℕ → ℕ → ℕ
exchange a b x = if x == a then b else if x == b then a else x

-- The panes of what is left: none, or those of a tree.
module _ {F : Type 0} where
  abbrev pub left_panes : Option (SplitNode F) → List PaneId
  left_panes none = []
  left_panes (some n) = pane_ids n

insert_after-append_left :
    (p new : ℕ) (xs ys : List ℕ)
    → elem xs p ≡ true
    → insert_after p new (xs ++ ys) ≡ insert_after p new xs ++ ys
unfolding insert_after elem
insert_after-append_left p new [] ys h = cc
insert_after-append_left p new (x ∷ xs) ys h = ground (arith, insert_after-append_left p new xs ys)

insert_after-append_right :
    (p new : ℕ) (xs ys : List ℕ)
    → elem xs p ≡ false
    → insert_after p new (xs ++ ys) ≡ xs ++ insert_after p new ys
unfolding insert_after elem
insert_after-append_right p new [] ys h = refl
insert_after-append_right p new (x ∷ xs) ys h =
    ground (arith, insert_after-append_right p new xs ys)

erase_first-append_left :
    (p : ℕ) (xs ys : List ℕ) → elem xs p ≡ true → erase_first p (xs ++ ys) ≡ erase_first p xs ++ ys
unfolding erase_first elem
erase_first-append_left p [] ys h = cc
erase_first-append_left p (x ∷ xs) ys h = ground (arith, erase_first-append_left p xs ys)

erase_first-append_right :
    (p : ℕ) (xs ys : List ℕ) → elem xs p ≡ false → erase_first p (xs ++ ys) ≡ xs ++ erase_first p ys
unfolding erase_first elem
erase_first-append_right p [] ys h = refl
erase_first-append_right p (x ∷ xs) ys h = ground (arith, erase_first-append_right p xs ys)

pub pane_ids-pane : (F : Type 0) (i : PaneId) → pane_ids {F = F} (pane i) ≡ i ∷ []
unfolding collect_pane_ids pane_ids
pane_ids-pane F i = refl

erase_first_id : (p : ℕ) (xs : List ℕ) → elem xs p ≡ false → erase_first p xs ≡ xs
unfolding erase_first elem
erase_first_id p [] h = refl
erase_first_id p (x ∷ xs) h = ground (arith, erase_first_id p xs)

insert_after_id : (p new : ℕ) (xs : List ℕ) → elem xs p ≡ false → insert_after p new xs ≡ xs
unfolding insert_after elem
insert_after_id p new [] h = refl
insert_after_id p new (x ∷ xs) h = ground (arith, insert_after_id p new xs)

module _ {F : Type 0} where
  collect-append : (n : SplitNode F) (xs : List PaneId) → collect_pane_ids n xs ≡ xs ++ pane_ids n
  unfolding collect_pane_ids pane_ids
  collect-append (pane i) xs = refl
  collect-append (split s a r m n) xs =
      rw
        (
          collect-append n (collect_pane_ids m xs),
          collect-append m xs,
          collect-append n (collect_pane_ids m []),
        )
        (append_assoc xs (pane_ids m) (pane_ids n))

  pub pane_ids-split :
      (s : SplitId) (a : SplitAxis) (r : F) (m n : SplitNode F)
      → pane_ids (split s a r m n) ≡ pane_ids m ++ pane_ids n
  unfolding pane_ids collect_pane_ids
  pane_ids-split s a r m n = collect-append n (collect_pane_ids m [])

  -- `contains` finds exactly the panes that the tree lists.
  pub contains-elem : (n : SplitNode F) (p : PaneId) → contains n p ≡ elem (pane_ids n) p
  unfolding contains elem
  contains-elem (pane i) p = rw (pane_ids-pane F) (ground arith)
  contains-elem (split s a r m n) p =
      rw (pane_ids-split, elem-append, contains-elem m p, contains-elem n p)

  -- What a split becomes from what is left of its children.
  removing_cases :
      (s : SplitId) (a : SplitAxis) (r : F) (m n : SplitNode F) (p : PaneId)
      (x y : Option (SplitNode F) × Bool)
      → removing m p ≡ x
      → removing n p ≡ y
      → (x.1 ≡ elem (pane_ids m) p)
      → (left_panes x.0 ≡ erase_first p (pane_ids m))
      → (y.1 ≡ elem (pane_ids n) p)
      → (left_panes y.0 ≡ erase_first p (pane_ids n))
      → ((removing (split s a r m n) p).1 ≡ elem (pane_ids (split s a r m n)) p)
        × (left_panes (removing (split s a r m n) p).0 ≡ erase_first p (pane_ids (split s a r m n)))
  unfolding removing
  removing_cases s a r m n p (some m', true) y em en h1 h2 h3 h4 =
      rw (em, pane_ids-split, elem-append)
        (ground
          (arith, pane_ids-split s a r m' n, erase_first-append_left p (pane_ids m) (pane_ids n)))
  removing_cases s a r m n p (none, true) y em en h1 h2 h3 h4 =
      rw (em, pane_ids-split, elem-append)
        (ground (arith, erase_first-append_left p (pane_ids m) (pane_ids n)))
  removing_cases s a r m n p (_, false) (some n', true) em en h1 h2 h3 h4 =
      rw (em, en, pane_ids-split, elem-append)
        (ground
          (arith, pane_ids-split s a r m n', erase_first-append_right p (pane_ids m) (pane_ids n)))
  removing_cases s a r m n p (_, false) (none, true) em en h1 h2 h3 h4 =
      rw (em, en, pane_ids-split, elem-append)
        (ground
          (arith, append-nil (pane_ids m), erase_first-append_right p (pane_ids m) (pane_ids n)))
  removing_cases s a r m n p (_, false) (_, false) em en h1 h2 h3 h4 =
      rw (em, en, pane_ids-split, elem-append)
        (ground (
          arith,
          pane_ids-split s a r m n,
          erase_first_id p (pane_ids m ++ pane_ids n),
          elem-append (pane_ids m) (pane_ids n) p,
        ))

  -- A removal finds the pane exactly if it is in the tree, and the panes that are left, none if
  -- no tree is left, are those of the tree in order without its first occurrence.
  pub removing_lem :
      (n : SplitNode F) (p : PaneId)
      → ((removing n p).1 ≡ elem (pane_ids n) p)
        × (left_panes (removing n p).0 ≡ erase_first p (pane_ids n))
  unfolding removing elem erase_first
  removing_lem (pane i) p = rw (pane_ids-pane F) (ground (arith, pane_ids-pane F i))
  removing_lem (split s a r m n) p =
      let hm = removing_lem m p in
      let hn = removing_lem n p in
      removing_cases s a r m n p (removing m p) (removing n p) refl refl hm.0 hm.1 hn.0 hn.1

  pub pane_ids-removing_pane :
      (n : SplitNode F) (p : PaneId) → left_panes (removing_pane n p) ≡ erase_first p (pane_ids n)
  unfolding removing_pane
  pane_ids-removing_pane n p = ground (arith, removing_lem n p, erase_first_id p (pane_ids n))

  pub swap_unchecked_lem :
      (n : SplitNode F) (a b : PaneId)
      → pane_ids (swap_panes_unchecked n a b) ≡ map (exchange a b) (pane_ids n)
  unfolding swap_panes_unchecked exchange
  swap_unchecked_lem (pane i) a b =
      ground (arith, pane_ids-pane F i, pane_ids-pane F a, pane_ids-pane F b)
  swap_unchecked_lem (split s x r m n) a b =
      rw (pane_ids-split, swap_unchecked_lem m a b, swap_unchecked_lem n a b)
        (sym (map-append (exchange a b) (pane_ids m) (pane_ids n))
          ∙ ap (map (exchange a b)) (sym (pane_ids-split s x r m n)))

module _ {F : Type 0} ⦃f : Float F⦄ where
  pane_ids-with_id :
      (s : SplitId) (a : SplitAxis) (r : F) (m n : SplitNode F)
      → pane_ids (with_id s a r m n) ≡ pane_ids m ++ pane_ids n
  unfolding with_id
  pane_ids-with_id s a r m n = pane_ids-split s a (finite_ratio_or_default r) m n

  pub split_unchecked_lem :
      (fresh : SplitId) (n : SplitNode F) (p : PaneId) (axis : SplitAxis) (new : PaneId)
      → (((split_pane_unchecked fresh n p axis new).1) ≡ elem (pane_ids n) p)
        × (pane_ids (split_pane_unchecked fresh n p axis new).0 ≡ insert_after p new (pane_ids n))
  unfolding split_pane_unchecked insert_after elem
  split_unchecked_lem fresh (pane i) p axis new = ground (
    arith,
    pane_ids-pane F i,
    pane_ids-pane F new,
    pane_ids-with_id fresh axis f.half (pane i) (pane new),
  )
  split_unchecked_lem fresh (split s a r m n) p axis new =
      let m' = (split_pane_unchecked fresh m p axis new).0 in
      let n' = (split_pane_unchecked fresh n p axis new).0 in
      rw (pane_ids-split, elem-append)
        (ground (
          arith,
          pane_ids-split s a r m' n,
          pane_ids-split s a r m' n',
          split_unchecked_lem fresh m p axis new,
          split_unchecked_lem fresh n p axis new,
          insert_after_id p new (pane_ids m),
          insert_after-append_left p new (pane_ids m) (pane_ids n),
          insert_after-append_right p new (pane_ids m) (pane_ids n),
        ))

  -- Splitting a pane succeeds exactly if the target is a pane of the tree and the new pane is
  -- not. Unless the new pane is in the tree already, which leaves the order of the panes, it
  -- stands right behind the target, if that is there.
  pub split_pane_lem :
      (fresh : SplitId) (n : SplitNode F) (p : PaneId) (axis : SplitAxis) (new : PaneId)
      → ((split_pane fresh n p axis new).1 ≡ (elem (pane_ids n) p && not (elem (pane_ids n) new)))
        × (pane_ids (split_pane fresh n p axis new).0
            ≡ (if elem (pane_ids n) new then pane_ids n else insert_after p new (pane_ids n)))
  unfolding split_pane
  split_pane_lem fresh n p axis new =
      ground (arith, contains-elem n new, split_unchecked_lem fresh n p axis new)
