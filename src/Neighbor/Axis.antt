-- ===== src/Neighbor/Axis.antt =====
-- The frames along an axis: which lie in a direction, which overlap, and which is nearer.
use kitmux_linux.Base.{
  ℕ, suc, ◌+◌, ◌-◌, ◌^◌, ◌<◌, ◌≡◌, ◌≢◌, ◌↔◌, ◌⊎◌, refl, inl, inr, true, false, Option, none, some,
  List, [], ◌∷◌, ◌==◌, if◌then◌else◌, arith,
}
use kitmux_linux.Base.Int.{ℤ, pos, ltb_ℤ, ◌<ℤ◌, add_i32, sub_i32, mul_i32, max_ℤ, min_ℤ}
use kitmux_linux.Base.Map.{get, insert, In, get-insert}
use kitmux_linux.Ids.{PaneId}
use kitmux_linux.Split.{SplitAxis, left_right, top_bottom, Direction, left, right, up, down}
use kitmux_linux.Layout.{PixelRect, rect_along}
use kitmux_linux.Neighbor.{
  abs_i32, is_in_direction, overlaps, distance, order_from, rank, key, key_lt, pair_lt, Candidate,
}

abbrev pub axis_of : Direction → SplitAxis
axis_of left = left_right
axis_of right = left_right
axis_of up = top_bottom
axis_of down = top_bottom

abbrev pub other_axis : SplitAxis → SplitAxis
other_axis left_right = top_bottom
other_axis top_bottom = left_right

-- The edges of a frame along an axis, and the double of its centre, with the wrap-around of `i32`.
abbrev pub low : SplitAxis → PixelRect → ℤ
low left_right r = r.x
low top_bottom r = r.y

abbrev pub high : SplitAxis → PixelRect → ℤ
high axis r = add_i32 (low axis r) (rect_along axis r)

abbrev pub middle : SplitAxis → PixelRect → ℤ
middle axis r = add_i32 (mul_i32 (low axis r) (pos 2)) (rect_along axis r)

-- Left and up go towards smaller coordinates: the first of the two frames in that order.
abbrev pub ordered {ℓ} :
    {A : Type ℓ} → Direction → (PixelRect → PixelRect → A) → PixelRect → PixelRect → A
ordered left f source r = f r source
ordered right f source r = f source r
ordered up f source r = f r source
ordered down f source r = f source r

-- The centre lies in the direction.
abbrev pub IsAhead : Direction → PixelRect → PixelRect → Type 0
IsAhead d source r = ordered d (λ a b. middle (axis_of d) a <ℤ middle (axis_of d) b) source r

-- Neither frame ends, across the direction, before it begins or before the other begins.
abbrev pub Overlaps : Direction → PixelRect → PixelRect → Type 0
Overlaps d source r =
    let axis = other_axis (axis_of d) in
    (low axis r <ℤ high axis r)
    × (low axis r <ℤ high axis source)
    × (low axis source <ℤ high axis r)
    × (low axis source <ℤ high axis source)

-- The gap between the frames in the direction, and how far their centres are apart across it.
abbrev pub gap : Direction → PixelRect → PixelRect → ℤ
gap d source r =
    ordered d (λ a b. max_ℤ (sub_i32 (low (axis_of d) b) (high (axis_of d) a)) (pos 0)) source r

abbrev pub offset : Direction → PixelRect → PixelRect → ℤ
offset d source r =
    let axis = other_axis (axis_of d) in abs_i32 (sub_i32 (middle axis source) (middle axis r))

-- The last index of a pane in the order of the panes.
abbrev pub last_index : PaneId → List PaneId → Option ℕ
last_index id [] = none
last_index id (x ∷ xs) = elim (last_index id xs) [
  | some i ↦ some (suc i)
  | none ↦ if x == id then some 0 else none
]

-- The place of a pane in the order; one that is not there comes last.
abbrev pub place : List PaneId → PaneId → ℕ
place ids id = elim (last_index id ids) [ some i ↦ i | none ↦ 2 ^ 64 - 1 ]

-- The first frame is nearer: its gap is smaller, or else its offset, or else its place.
abbrev pub Nearer : Direction → PixelRect → List PaneId → Candidate → Candidate → Type 0
Nearer d source ids c e =
    (gap d source c.1 <ℤ gap d source e.1)
    ⊎ ((gap d source c.1 ≡ gap d source e.1)
        × ((offset d source c.1 <ℤ offset d source e.1)
            ⊎ ((offset d source c.1 ≡ offset d source e.1) × (place ids c.0 < place ids e.0))))

-- A frame of another pane that lies in the direction.
abbrev pub Ahead : PaneId → Direction → PixelRect → List (PaneId × PixelRect) → Candidate → Type 0
Ahead p d source frames c = In c frames × (c.0 ≢ p) × IsAhead d source c.1

-- One of those that overlap the source, or, where none does, any of them.
abbrev pub IsCandidate :
    PaneId → Direction → PixelRect → List (PaneId × PixelRect) → Candidate → Type 0
IsCandidate p d source frames c =
    Ahead p d source frames c
    × (Overlaps d source c.1
        ⊎ ((e : Candidate) → Ahead p d source frames e → ¬ Overlaps d source e.1))

overlap_iff :
    (a b c d : ℤ)
    → (ltb_ℤ (max_ℤ a b) (min_ℤ c d) ≡ true) ↔ ((a <ℤ c) × (a <ℤ d) × (b <ℤ c) × (b <ℤ d))
unfolding max_ℤ min_ℤ
overlap_iff a b c d = ground arith

pub overlaps_iff :
    (d : Direction) (source r : PixelRect) → (overlaps d source r ≡ true) ↔ Overlaps d source r
unfolding overlaps
overlaps_iff left source r = overlap_iff _ _ _ _
overlaps_iff right source r = overlap_iff _ _ _ _
overlaps_iff up source r = overlap_iff _ _ _ _
overlaps_iff down source r = overlap_iff _ _ _ _

pub IsAhead-iff :
    (d : Direction) (source r : PixelRect)
    → (is_in_direction d source r ≡ true) ↔ IsAhead d source r
unfolding is_in_direction
IsAhead-iff left source r = ground arith
IsAhead-iff right source r = ground arith
IsAhead-iff up source r = ground arith
IsAhead-iff down source r = ground arith

order_from_lem :
    (id : PaneId) (i : ℕ) (ids : List PaneId) (m : List (PaneId × ℕ))
    → get id (order_from i ids m)
      ≡ (elim (last_index id ids) [ some k ↦ some (i + k) | none ↦ get id m ])
unfolding order_from
order_from_lem id i [] m = refl
order_from_lem id i (x ∷ xs) m =
    ground (arith, order_from_lem id (suc i) xs (insert x i m), get-insert x id i m)

rank_lem : (ids : List PaneId) (id : PaneId) → rank ids id ≡ place ids id
unfolding rank get
rank_lem ids id = ground (arith, order_from_lem id 0 ids [])

distance_lem :
    (d : Direction) (source r : PixelRect)
    → distance d source r ≡ (gap d source r, offset d source r)
unfolding distance
distance_lem left source r = refl
distance_lem right source r = refl
distance_lem up source r = refl
distance_lem down source r = refl

key_lem :
    (d : Direction) (source : PixelRect) (ids : List PaneId) (c : Candidate)
    → key d source ids c ≡ (gap d source c.1, offset d source c.1, place ids c.0)
unfolding key
key_lem d source ids c = rw (distance_lem d source c.1, rank_lem ids c.0) refl

precedes :
    (a b m n : ℤ) (i j : ℕ)
    → key_lt (a, m, i) (b, n, j) ≡ false
    → ¬ ((a <ℤ b) ⊎ ((a ≡ b) × ((m <ℤ n) ⊎ ((m ≡ n) × (i < j)))))
unfolding key_lt pair_lt
precedes a b m n i j h (inl l) = ground (arith, h, l)
precedes a b m n i j h (inr (e, inl l)) = ground (arith, rw e at h, l)
precedes a b m n i j h (inr (e, inr (e', l))) = ground (arith, rw (e, e') at h, l)

pub key_lt-Nearer :
    (d : Direction) (source : PixelRect) (ids : List PaneId) (c e : Candidate)
    → key_lt (key d source ids c) (key d source ids e) ≡ false
    → ¬ Nearer d source ids c e
key_lt-Nearer d source ids c e h =
    precedes (gap d source c.1) (gap d source e.1) (offset d source c.1) (offset d source e.1)
      (place ids c.0) (place ids e.0) (rw (key_lem d source ids c, key_lem d source ids e) at h)
