-- ===== src/Resume/States.antt =====
-- The current states of the surfaces, and what makes a row run.
use kitmux_linux.Base.{
  ◌≡◌, refl, inl, inr, ◌↔◌, true, ◌||◌, Option, none, some, List, [], ◌∷◌, ◌==◌, elem, arith,
  if◌then◌else◌, Bool-cases, ==_iff,
}
use kitmux_linux.Base.Map.{get, insert, has, get-insert}
use kitmux_linux.Ids.{SurfaceId}
use kitmux_linux.Text.{Text}
use kitmux_linux.Text.Laws.{same_text_iff}
use kitmux_linux.Resume.{
  ResumeCommandIdentity, ResumeCommandCurrentState, ResumeCommandSelectionPolicy, StateMap,
  valid_command, valid_resume_command, index_states, is_executable, same_option,
}

-- The current states of a surface, in order.
unfoldable pub states_of :
    SurfaceId → List ResumeCommandCurrentState → List ResumeCommandCurrentState
states_of id [] = []
states_of id (x ∷ xs) = let rest = states_of id xs in if x.surface_id == id then x ∷ rest else rest

-- What the map and the duplicates say of a surface with these further states.
abbrev Agrees :
    SurfaceId
    → StateMap
    → List SurfaceId
    → StateMap × List SurfaceId
    → List ResumeCommandCurrentState
    → Type 0
Agrees id m d r [] = (get id r.0 ≡ get id m) × (elem r.1 id ≡ elem d id)
Agrees id m d r (s ∷ []) = (get id r.0 ≡ some s) × (elem r.1 id ≡ (elem d id || has id m))
Agrees id m d r (s ∷ t ∷ ss) = elem r.1 id ≡ true

abbrev noted : StateMap → List SurfaceId → ResumeCommandCurrentState → List SurfaceId
noted m d x = if has x.surface_id m then x.surface_id ∷ d else d

Agrees-step :
    (id : SurfaceId) (m : StateMap) (d : List SurfaceId) (r : StateMap × List SurfaceId)
    (x : ResumeCommandCurrentState) (ys : List ResumeCommandCurrentState)
    → Agrees id (insert x.surface_id x m) (noted m d x) r ys
    → Agrees id m d r (if x.surface_id == id then x ∷ ys else ys)
unfolding elem
Agrees-step id m d r x [] a = elim (Bool-cases (x.surface_id == id)) [
  | inl e ↦
      let e' : x.surface_id ≡ id = (==_iff x.surface_id id).0 e in
      rw e (ground (arith, e, e', a, get-insert x.surface_id id x m))
  | inr e ↦ rw e (ground (arith, e, a, get-insert x.surface_id id x m))
]
Agrees-step id m d r x (s ∷ []) a = elim (Bool-cases (x.surface_id == id)) [
  | inl e ↦
      let e' : x.surface_id ≡ id = (==_iff x.surface_id id).0 e in
      rw e (ground (arith, e, e', a, get-insert x.surface_id id x m))
  | inr e ↦ rw e (ground (arith, e, a, get-insert x.surface_id id x m))
]
Agrees-step id m d r x (s ∷ t ∷ ss) a = elim (Bool-cases (x.surface_id == id)) [
  | inl e ↦
      let e' : x.surface_id ≡ id = (==_iff x.surface_id id).0 e in
      rw e (ground (arith, e, e', a, get-insert x.surface_id id x m))
  | inr e ↦ rw e (ground (arith, e, a, get-insert x.surface_id id x m))
]

pub index_states_lem :
    (id : SurfaceId) (m : StateMap) (d : List SurfaceId) (xs : List ResumeCommandCurrentState)
    → Agrees id m d (index_states m d xs) (states_of id xs)
unfolding index_states states_of
index_states_lem id m d [] = (refl, refl)
index_states_lem id m d (x ∷ xs) =
    Agrees-step id m d _ x (states_of id xs)
      (index_states_lem id (insert x.surface_id x m) (noted m d x) xs)

same_option_iff : (a b : Option Text) → (same_option a b ≡ true) ↔ (a ≡ b)
same_option_iff none none = ground arith
same_option_iff none (some b) = ground arith
same_option_iff (some a) none = ground arith
same_option_iff (some a) (some b) = ground (arith, same_text_iff a b)

-- The only state of the surface of the row is live and as the row was displayed.
abbrev pub Unchanged : ResumeCommandIdentity → List ResumeCommandCurrentState → Type 0
Unchanged row (live ∷ []) =
    (live.pane_id ≡ row.pane_id)
    × (live.is_eligible ≡ true)
    × (live.cwd ≡ row.cwd)
    × (valid_resume_command live.command ≡ some row.command)
Unchanged row _ = ⊥

-- A row may be run.
abbrev pub MayRun :
    ResumeCommandSelectionPolicy → List ResumeCommandCurrentState → ResumeCommandIdentity → Type 0
MayRun policy current row =
    (elem policy.selected row.surface_id ≡ true)
    × (valid_command row.command ≡ some row.command)
    × Unchanged row (states_of row.surface_id current)

pub executable_state :
    (selected : List SurfaceId) (r : StateMap × List SurfaceId) (row : ResumeCommandIdentity)
    (ys : List ResumeCommandCurrentState)
    → Agrees row.surface_id [] [] r ys
    → (is_executable selected r.0 r.1 row ≡ true) ↔ (
        (elem selected row.surface_id ≡ true)
        × (valid_command row.command ≡ some row.command)
        × Unchanged row ys)
unfolding is_executable elem get valid_resume_command
executable_state selected r row [] a =
    ground (arith, a, same_option_iff (valid_command row.command) (some row.command))
executable_state selected r row (s ∷ []) a = ground (
  arith,
  a,
  same_option_iff (valid_command row.command) (some row.command),
  same_option_iff s.cwd row.cwd,
  same_option_iff (valid_resume_command s.command) (some row.command),
)
executable_state selected r row (s ∷ t ∷ ss) a = ground (arith, a)
