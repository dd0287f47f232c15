-- ===== src/Resume/Policy.antt =====
-- The commands that a policy runs again.
use kitmux_linux.Base.{
  ◌≡◌, refl, ap, inl, inr, ◌↔◌, Bool, true, false, not, ◌&&◌, some, List, [], ◌∷◌, map, ◌==◌, elem,
  Member, Distinct, arith, Bool-cases, ==_iff,
}
use kitmux_linux.Ids.{SurfaceId}
use kitmux_linux.Resume.{
  ResumeCommandIdentity, ResumeCommandCurrentState, ResumeCommandSelectionPolicy, row_id,
  valid_command, unseen_rows, new_policy, displays, without, set_selected, index_states,
  is_executable, filter_rows, executable_rows, unless_empty,
}
use kitmux_linux.Resume.States.{states_of, index_states_lem, Unchanged, MayRun, executable_state}

Member-filter :
    (test : ResumeCommandIdentity → Bool) (rows : List ResumeCommandIdentity)
    (row : ResumeCommandIdentity)
    → Member row (filter_rows test rows) ↔ (Member row rows × (test row ≡ true))
unfolding filter_rows
Member-filter test [] row = ground arith
Member-filter test (x ∷ rows) row =
    let same : x ≡ row → test x ≡ test row = ap test in
    elim (Bool-cases (test x)) [
      | inl e ↦ rw e (ground (arith, e, same, Member-filter test rows row))
      | inr e ↦ rw e (ground (arith, e, same, Member-filter test rows row))
    ]

nothing_selected :
    (selected : List SurfaceId) (rows : List ResumeCommandIdentity) (row : ResumeCommandIdentity)
    (id : SurfaceId) (P Q R : Type 0)
    → (Member row rows ↔ (P × ((elem selected id ≡ true) × Q × R)))
    → (Member row (unless_empty selected rows) ↔ (P × ((elem selected id ≡ true) × Q × R)))
unfolding elem
nothing_selected [] rows row id P Q R h = ground arith
nothing_selected (_ ∷ _) rows row id P Q R h = h

-- The rows to execute are exactly the displayed rows that are selected, whose command is as
-- valid_resume_command leaves it, and whose surface has exactly one current state, which is
-- eligible, has the same pane and directory, and has a command that valid_resume_command makes
-- the displayed one.
pub executable_rows_iff :
    (policy : ResumeCommandSelectionPolicy) (current : List ResumeCommandCurrentState)
    (row : ResumeCommandIdentity)
    → Member row (executable_rows policy current)
      ↔ (Member row policy.displayed_rows × MayRun policy current row)
unfolding executable_rows
executable_rows_iff policy current row =
    let r = index_states [] [] current in
    let a = index_states_lem row.surface_id [] [] current in
    let m = Member-filter (is_executable policy.selected r.0 r.1) policy.displayed_rows row in
    let e = executable_state policy.selected r row (states_of row.surface_id current) a in
    nothing_selected policy.selected _ row row.surface_id (Member row policy.displayed_rows)
      (valid_command row.command ≡ some row.command)
      (Unchanged row (states_of row.surface_id current)) (ground (arith, m, e))

-- What a policy keeps: the displayed rows have different surfaces, and only those are selected.
pub record IsPolicy (policy : ResumeCommandSelectionPolicy) : Type 0 where
  pub rows : Distinct (map row_id policy.displayed_rows)
  pub selection :
      (id : SurfaceId) → elem policy.selected id ≡ true → displays id policy.displayed_rows ≡ true

displays_rows :
    (id : SurfaceId) (rows : List ResumeCommandIdentity)
    → displays id rows ≡ elem (map row_id rows) id
unfolding displays elem
displays_rows id [] = refl
displays_rows id (x ∷ rows) = rw (displays_rows id rows) refl

unseen_elem :
    (seen : List SurfaceId) (rows : List ResumeCommandIdentity) (id : SurfaceId)
    → elem seen id ≡ true
    → elem (map row_id (unseen_rows seen rows)) id ≡ false
unfolding unseen_rows elem
unseen_elem seen [] id h = refl
unseen_elem seen (x ∷ rows) id h = ground (
  arith,
  h,
  ==_iff x.surface_id id,
  unseen_elem seen rows id h,
  unseen_elem (x.surface_id ∷ seen) rows id,
)

unseen-Distinct :
    (seen : List SurfaceId) (rows : List ResumeCommandIdentity)
    → Distinct (map row_id (unseen_rows seen rows))
unfolding unseen_rows elem
unseen-Distinct seen [] = tt
unseen-Distinct seen (x ∷ rows) = elim (Bool-cases (elem seen x.surface_id)) [
  | inl e ↦ rw e (unseen-Distinct seen rows)
  | inr e ↦ rw e (
    unseen_elem (x.surface_id ∷ seen) rows x.surface_id
        (ground (arith, ==_iff x.surface_id x.surface_id)),
    unseen-Distinct (x.surface_id ∷ seen) rows,
  )
]

pub new_policy-IsPolicy : (rows : List ResumeCommandIdentity) → IsPolicy (new_policy rows)
unfolding new_policy elem
new_policy-IsPolicy rows = record {
  rows = unseen-Distinct [] rows;
  selection = λ id h. absurd (ground (arith, h));
}

elem-without :
    (id j : SurfaceId) (xs : List SurfaceId) → elem (without id xs) j ≡ (not (id == j) && elem xs j)
unfolding without elem
elem-without id j [] = ground arith
elem-without id j (x ∷ xs) = ground (arith, elem-without id j xs)

selected_within :
    (policy : ResumeCommandSelectionPolicy) (id j : SurfaceId) (b : Bool)
    → IsPolicy policy
    → elem (set_selected policy id b).selected j ≡ true
    → displays j policy.displayed_rows ≡ true
unfolding set_selected elem
selected_within policy id j true v h = ground (arith, h, v.selection j, ==_iff id j)
selected_within policy id j false v h =
    ground (arith, h, v.selection j, elem-without id j policy.selected)

same_rows :
    (policy : ResumeCommandSelectionPolicy) (id : SurfaceId) (b : Bool)
    → (set_selected policy id b).displayed_rows ≡ policy.displayed_rows
unfolding set_selected
same_rows policy id b = ground arith

pub set_selected-IsPolicy :
    (policy : ResumeCommandSelectionPolicy) (id : SurfaceId) (b : Bool)
    → IsPolicy policy
    → IsPolicy (set_selected policy id b)
set_selected-IsPolicy policy id b v =
    let e = same_rows policy id b in
    record { rows = rw e v.rows; selection = λ j h. rw e (selected_within policy id j b v h) }

-- A policy that calls of set_selected lead to.
pub data Reachable : ResumeCommandSelectionPolicy → Type 0 where
  started : (rows : List ResumeCommandIdentity) → Reachable (new_policy rows)
  selecting :
      (policy : ResumeCommandSelectionPolicy) (id : SurfaceId) (b : Bool)
      → Reachable policy
      → Reachable (set_selected policy id b)

Reachable-IsPolicy : (policy : ResumeCommandSelectionPolicy) → Reachable policy → IsPolicy policy
Reachable-IsPolicy _ (started rows) = new_policy-IsPolicy rows
Reachable-IsPolicy _ (selecting policy id b r) =
    set_selected-IsPolicy policy id b (Reachable-IsPolicy policy r)

filter_elem :
    (test : ResumeCommandIdentity → Bool) (rows : List ResumeCommandIdentity) (id : SurfaceId)
    → elem (map row_id rows) id ≡ false
    → elem (map row_id (filter_rows test rows)) id ≡ false
unfolding filter_rows elem
filter_elem test [] id h = h
filter_elem test (x ∷ rows) id h = ground (arith, h, filter_elem test rows id)

filter-Distinct :
    (test : ResumeCommandIdentity → Bool) (rows : List ResumeCommandIdentity)
    → Distinct (map row_id rows)
    → Distinct (map row_id (filter_rows test rows))
unfolding filter_rows
filter-Distinct test [] d = tt
filter-Distinct test (x ∷ rows) (n, d) = elim (Bool-cases (test x)) [
  | inl e ↦ rw e (filter_elem test rows x.surface_id n, filter-Distinct test rows d)
  | inr e ↦ rw e (filter-Distinct test rows d)
]

unless_empty-Distinct :
    (selected : List SurfaceId) (rows : List ResumeCommandIdentity)
    → Distinct (map row_id rows)
    → Distinct (map row_id (unless_empty selected rows))
unless_empty-Distinct [] rows d = tt
unless_empty-Distinct (_ ∷ _) rows d = d

-- In a policy that ResumeCommandSelectionPolicy::new makes and any calls of set_selected change,
-- no two of the rows to execute have the same surface.
pub executable_rows-Distinct :
    (policy : ResumeCommandSelectionPolicy) (current : List ResumeCommandCurrentState)
    → Reachable policy
    → Distinct (map row_id (executable_rows policy current))
unfolding executable_rows
executable_rows-Distinct policy current r =
    unless_empty-Distinct policy.selected _
      (filter-Distinct _ policy.displayed_rows (Reachable-IsPolicy policy r).rows)
