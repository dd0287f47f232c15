-- ===== src/Neighbor/Choice.antt =====
-- Which pane is the neighbour.
use kitmux_linux.Base.{
  ℕ, ◌≡◌, ◌≢◌, ◌↔◌, ◌⊎◌, refl, inl, inr, Bool, true, ◌&&◌, not, none, some, List, [], ◌∷◌, ◌==◌,
  arith, Option-cases, ==_iff,
}
use kitmux_linux.Base.Int.{ℤ}
use kitmux_linux.Base.Map.{get, In}
use kitmux_linux.Ids.{PaneId}
use kitmux_linux.Split.{Direction}
use kitmux_linux.Layout.{PixelRect}
use kitmux_linux.Neighbor.{
  is_in_direction, overlaps, key, Candidate, select, min_by_key, candidates, directional_neighbor,
}
use kitmux_linux.Neighbor.Nearest.{select-In, In-select, min_by_key_lem}
use kitmux_linux.Neighbor.Axis.{
  IsAhead, Overlaps, Nearer, Ahead, IsCandidate, overlaps_iff, IsAhead-iff, key_lt-Nearer,
}

min_by_key-none :
    (f : Candidate → ℤ × ℤ × ℕ) (cs : List Candidate) → min_by_key f cs ≡ none → cs ≡ []
unfolding min_by_key
min_by_key-none f [] h = refl
min_by_key-none f (c ∷ cs) h = absurd (ground arith)

module _ (p : PaneId) (d : Direction) (source : PixelRect)
    (frames : List (PaneId × PixelRect)) where
  is_ahead : Candidate → Bool
  is_ahead c = not (c.0 == p) && is_in_direction d source c.1

  selected_iff : (c : Candidate) → (is_ahead c ≡ true) ↔ ((c.0 ≢ p) × IsAhead d source c.1)
  unfolding is_ahead
  selected_iff c = ground (arith, IsAhead-iff d source c.1, ==_iff c.0 p)

  ahead_frames : List Candidate
  ahead_frames = select is_ahead frames

  Ahead-iff : (c : Candidate) → In c ahead_frames ↔ Ahead p d source frames c
  unfolding ahead_frames
  Ahead-iff c = (
    λ i.
        let (j, k) = select-In is_ahead c frames i in
        let (ne, h) = (selected_iff c).0 k in (j, ne, h),
    λ (j, ne, h). In-select is_ahead c frames j ((selected_iff c).1 (ne, h)),
  )

  aligned_lem :
      (aligned : List Candidate)
      → select (λ c. overlaps d source c.1) ahead_frames ≡ aligned
      → (c : Candidate)
      → In c (elim aligned [ [] ↦ ahead_frames | e ∷ es ↦ e ∷ es ])
        ↔ IsCandidate p d source frames c
  aligned_lem [] n c = (
    λ i. (
      (Ahead-iff c).0 i,
      inr (λ e a o. rw n at (
          In-select (λ c. overlaps d source c.1) e ahead_frames ((Ahead-iff e).1 a)
            ((overlaps_iff d source e.1).1 o))),
    ),
    λ (a, _). (Ahead-iff c).1 a,
  )
  aligned_lem (e ∷ es) n c =
      let (j, k) = select-In (λ c. overlaps d source c.1) e ahead_frames (rw n (inl refl)) in
      (
        λ i.
            let (j, k) = select-In (λ c. overlaps d source c.1) c ahead_frames (rw n i) in
            ((Ahead-iff c).0 j, inl ((overlaps_iff d source c.1).0 k)),
        λ (a, o).
            let shares : Overlaps d source c.1 = elim o [
              | inl x ↦ x
              | inr nobody ↦ absurd (nobody e ((Ahead-iff e).0 j) ((overlaps_iff d source e.1).0 k))
            ] in
            rw n at (
              In-select (λ c. overlaps d source c.1) c ahead_frames ((Ahead-iff c).1 a)
                ((overlaps_iff d source c.1).1 shares)),
      )

  candidates_iff :
      (c : Candidate) → In c (candidates p d source frames) ↔ IsCandidate p d source frames c
  unfolding candidates ahead_frames is_ahead
  candidates_iff c = aligned_lem _ refl c

  none-Ahead :
      (aligned : List Candidate)
      → (elim aligned [ [] ↦ ahead_frames | e ∷ es ↦ e ∷ es ]) ≡ []
      → (c : Candidate) → ¬ Ahead p d source frames c
  none-Ahead [] n c a = rw n at ((Ahead-iff c).1 a)
  none-Ahead (e ∷ es) n c a = absurd (ground arith)

  candidates-none :
      candidates p d source frames ≡ [] → (c : Candidate) → ¬ Ahead p d source frames c
  unfolding candidates ahead_frames is_ahead
  candidates-none n = none-Ahead _ n

-- Where the pane has no frame, or no frame of another pane lies in the direction, there is no
-- neighbour. Otherwise there is one: it has a frame, which lies in the direction and overlaps the
-- one of the pane across it, unless no frame in the direction does; and no such frame is nearer:
-- none has a smaller gap to the pane, none with the same gap a centre that is less far off across
-- the direction, and none with both equal an earlier place in the order of the panes. Gaps,
-- centres and edges are those of `i32` arithmetic.
pub directional_neighbor_lem :
    (p : PaneId) (d : Direction) (frames : List (PaneId × PixelRect)) (ids : List PaneId)
    → ((directional_neighbor p d frames ids ≡ none)
        × ((source : PixelRect)
            → get p frames ≡ some source
            → (c : Candidate) → ¬ Ahead p d source frames c))
      ⊎ ((q : PaneId) × (source : PixelRect) × (r : PixelRect) × (directional_neighbor p d frames
              ids
            ≡ some q)
          × (get p frames ≡ some source)
          × IsCandidate p d source frames (q, r)
          × ((c : Candidate) → IsCandidate p d source frames c → ¬ Nearer d source ids c (q, r)))
unfolding directional_neighbor
directional_neighbor_lem p d frames ids = elim (Option-cases (get p frames)) [
  | inl e ↦ inl (rw (e, directional_neighbor) refl, λ source g. absurd (ground (arith, e, g)))
  | inr (source, e) ↦
      let k = key d source ids in
      let cs = candidates p d source frames in
      elim (Option-cases (min_by_key k cs)) [
        | inl n ↦ inl (
          rw (e, n, directional_neighbor) refl,
          λ source' g c a.
              let same : source' ≡ source = cc in
              candidates-none p d source frames (min_by_key-none k cs n) c (rw same at a),
        )
        | inr (c, m) ↦
            let (i, least) = min_by_key_lem k cs c m in
            inr (
              c.0,
              source,
              c.1,
              rw (e, m, directional_neighbor) refl,
              e,
              (candidates_iff p d source frames c).0 i,
              λ x is.
                  key_lt-Nearer d source ids x c
                    (least x ((candidates_iff p d source frames x).1 is)),
            )
      ]
]

-- A neighbour has a frame.
pub neighbor-In :
    (p : PaneId) (d : Direction) (frames : List (PaneId × PixelRect)) (ids : List PaneId)
    (q : PaneId)
    → directional_neighbor p d frames ids ≡ some q
    → (r : PixelRect) × In (q, r) frames
neighbor-In p d frames ids q h = elim (directional_neighbor_lem p d frames ids) [
  | inl (n, _) ↦ absurd (ground (arith, h, n))
  | inr (q', source, r, e, _, is, _) ↦ let same : q' ≡ q = cc in (r, rw same at is.0.0)
]
