-- ===== src/Model/App/Laws.antt =====
-- Building an application, checking its identifiers and appending a workspace.
use kitmux_linux.Base.{
  ℕ, ◌-◌, ◌<◌, ◌≡◌, ◌↔◌, ◌⊎◌, refl, ap, inl, inr, true, none, List, [], ◌∷◌, ◌++◌, map, length,
  length-append, elem, Distinct, arith, Bool-cases, Option-cases,
}
use kitmux_linux.Base.Result.{ok, err, Result-cases}
use kitmux_linux.Base.Adds.{Distinct-Adds}
use kitmux_linux.Base.Vec.{push-Adds}
use kitmux_linux.Model.Error.{Level, ModelError, duplicate_id, validate_non_empty_active}
use kitmux_linux.Model.Selection.{all_unique}
use kitmux_linux.Model.Selection.Laws.{all_unique-Distinct}
use kitmux_linux.Model.Workspace.{WorkspaceModel}
use kitmux_linux.Model.Global.{visit_workspaces, nothing_seen}
use kitmux_linux.Model.Global.Unique.{
  GloballyDistinct, visit_workspaces_sound, visit_workspaces_complete,
}
use kitmux_linux.Model.App.{
  AppModel, workspace_id, validate_global_ids, new_app, pop, append_workspace,
}

pop-append {ℓ} : {A : Type ℓ} → (xs : List A) (x : A) → pop (xs ++ x ∷ []) ≡ xs
unfolding pop
pop-append [] x = refl
pop-append (y ∷ []) x = refl
pop-append (y ∷ z ∷ ys) x = ap (λ l. y ∷ l) (pop-append (z ∷ ys) x)

module _ {F T B : Type 0} where
  -- The nested loops of validate_global_ids report no error exactly on the hierarchies in which
  -- no two workspaces, groups, tabs, panes or surfaces have the same identifier.
  pub validate_global_ids_iff :
      (a : AppModel F T B)
      → (validate_global_ids a ≡ none)
        ↔ (Distinct (map workspace_id a.workspaces) × GloballyDistinct a.workspaces)
  unfolding validate_global_ids
  validate_global_ids_iff a = (sound, complete)
    where
      sound :
          validate_global_ids a ≡ none
          → Distinct (map workspace_id a.workspaces) × GloballyDistinct a.workspaces
      sound h =
          let u : all_unique (map workspace_id a.workspaces) ≡ true = ground arith in
          elim (Result-cases (visit_workspaces a.workspaces nothing_seen)) [
            | inl (x, e) ↦ absurd (ground arith)
            | inr (s, e) ↦ (
              (all_unique-Distinct (map workspace_id a.workspaces)).0 u,
              visit_workspaces_sound a.workspaces s e,
            )
          ]

      complete :
          Distinct (map workspace_id a.workspaces) × GloballyDistinct a.workspaces
          → validate_global_ids a ≡ none
      complete (d, g) =
          let u = (all_unique-Distinct (map workspace_id a.workspaces)).1 d in
          let (s, e) = visit_workspaces_complete a.workspaces g in rw (u, e) refl

  -- Every identifier is used once and the active workspace exists.
  pub record IsValid (a : AppModel F T B) : Type 0 where
    pub active : a.active_workspace_index < length a.workspaces
    pub workspaces : Distinct (map workspace_id a.workspaces)
    pub below : GloballyDistinct a.workspaces

  -- AppModel::new returns an application exactly if that is made of the arguments, its active
  -- index is that of a workspace, and no workspace, group, tab, pane or surface identifier in it
  -- is used twice.
  pub new_app_iff :
      (workspaces : List (WorkspaceModel F T B)) (active : ℕ) (a : AppModel F T B)
      → (new_app workspaces active ≡ ok a)
        ↔ ((a ≡ record { workspaces = workspaces; active_workspace_index = active }) × IsValid a)
  unfolding new_app validate_non_empty_active
  new_app_iff ws active a = (sound, complete)
    where
      sound :
          new_app ws active ≡ ok a
          → (a ≡ record { workspaces = ws; active_workspace_index = active }) × IsValid a
      sound h =
          let model : AppModel F T B = record {
            workspaces = ws;
            active_workspace_index = active;
          } in
          elim (Option-cases (validate_global_ids model)) [
            | inl e ↦
                let same : a ≡ model = ground arith in
                let d = (validate_global_ids_iff model).0 e in
                (same, rw same (record { active = ground arith; workspaces = d.0; below = d.1 }))
            | inr (x, e) ↦ absurd (ground arith)
          ]

      complete :
          (a ≡ record { workspaces = ws; active_workspace_index = active }) × IsValid a
          → new_app ws active ≡ ok a
      complete (same, v) =
          let e = (validate_global_ids_iff a).1 (v.workspaces, v.below) in
          let ew : a.workspaces ≡ ws = ap (λ x. x.workspaces) same in
          let ea : a.active_workspace_index ≡ active = ap (λ x. x.active_workspace_index) same in
          ground (arith, v.active)

  -- Appending a workspace to an application with an active workspace and no identifier used twice
  -- either puts it last, makes it active and leaves such an application, or fails and leaves the
  -- application as it was; it fails only where the workspace would bring in an identifier that is
  -- used twice.
  pub append_workspace_lem :
      (a : AppModel F T B) (w : WorkspaceModel F T B)
      → IsValid a
      → let n = length a.workspaces in
        let a' : AppModel F T B = record {
          workspaces = a.workspaces ++ w ∷ [];
          active_workspace_index = n;
        } in
        ((append_workspace a w ≡ (a', ok n)) × IsValid a')
        ⊎ ((e : ModelError) × (append_workspace a w ≡ (a, err e)) × ¬ IsValid a')
  unfolding append_workspace
  append_workspace_lem a w v =
      let ws = a.workspaces ++ w ∷ [] in
      let model : AppModel F T B = record a { workspaces = ws } in
      let len : length ws - 1 ≡ length a.workspaces =
        omega (arith, length-append a.workspaces (w ∷ [])) in
      elim (Bool-cases (elem (map workspace_id a.workspaces) w.id)) [
        | inl e ↦ inr (
          duplicate_id Level.workspace,
          rw e refl,
          λ u.
              let d = (Distinct-Adds (push-Adds workspace_id a.workspaces w) u.workspaces).0 in
              ground (arith, d),
        )
        | inr n ↦ elim (Option-cases (validate_global_ids model)) [
          | inl e ↦
              let d = (validate_global_ids_iff model).0 e in
              inl (
                rw (n, e, len) refl,
                record {
                  active = omega (arith, length-append a.workspaces (w ∷ []));
                  workspaces = d.0;
                  below = d.1;
                },
              )
          | inr (x, e) ↦ inr (
            x,
            rw (n, e) (ap (λ l. (record a { workspaces = l }, err x)) (pop-append a.workspaces w)),
            λ u. let k = (validate_global_ids_iff model).1 (u.workspaces, u.below) in ground arith,
          )
        ]
      ]
