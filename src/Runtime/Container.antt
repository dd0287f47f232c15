-- ===== src/Runtime/Container.antt =====
-- The invariant of a pane's stack of surfaces.
use kitmux_linux.Base.{
  ℕ, ◌-◌, ◌<◌, ◌≡◌, ◌↔◌, refl, sym, ap, ◌∙◌, ◌⊎◌, inl, inr, true, false, not, ◌||◌, none, some,
  List, [], ◌∷◌, ◌++◌, map, ◌==◌, ltb, leb, min, length, if◌then◌else◌, arith, elem, elem-append,
  Distinct, Bool-cases, Option-cases, ==_iff,
}
use kitmux_linux.Base.Adds.{Adds, Adds-Distinct, Distinct-Adds}
use kitmux_linux.Base.Unique.{Apart, Apart-nil}
use kitmux_linux.Base.Result.{ok, err}
use kitmux_linux.Base.Vec.{
  position, remove_at, lt_of_get, length-remove_at, get_elem?-remove_at, position_sound,
  remove_at-Adds, push-Adds, get_elem?-push, length-push, position-elem,
}
use kitmux_linux.Ids.{PaneId, SurfaceId}
use kitmux_linux.Runtime.{
  PaneSurface, PaneContainer, duplicate_surface_id, surface_id, first_duplicate, new_container,
  active_surface, add, select, remove,
}

Apart-append :
    (xs seen : List ℕ) (x : ℕ) → elem xs x ≡ false → Apart xs seen → Apart xs (seen ++ x ∷ [])
unfolding elem
Apart-append [] seen x h a = tt
Apart-append (y ∷ ys) seen x h a =
    (ground (arith, elem-append seen (x ∷ []) y), Apart-append ys seen x (ground arith) a.1)

Apart-unappend :
    (xs seen : List ℕ) (x : ℕ) → Apart xs (seen ++ x ∷ []) → (elem xs x ≡ false) × Apart xs seen
unfolding elem
Apart-unappend [] seen x a = (refl, tt)
Apart-unappend (y ∷ ys) seen x a =
    let rest = Apart-unappend ys seen x a.1 in
    (
      ground (arith, elem-append seen (x ∷ []) y),
      (ground (arith, elem-append seen (x ∷ []) y), rest.1),
    )

module _ {T B : Type 0} where
  pub record IsValid (c : PaneContainer T B) : Type 0 where
    pub active : c.active_surface_index < length c.surfaces
    pub distinct : Distinct (map surface_id c.surfaces)

  first_duplicate_sound :
      (before : List SurfaceId) (xs : List (PaneSurface T B))
      → first_duplicate before xs ≡ none
      → Distinct (map surface_id xs) × Apart (map surface_id xs) before
  unfolding first_duplicate
  first_duplicate_sound before [] h = (tt, tt)
  first_duplicate_sound before (x ∷ xs) h =
      let rest = first_duplicate_sound (before ++ x.id ∷ []) xs (ground arith) in
      let apart = Apart-unappend (map surface_id xs) before x.id rest.1 in
      ((apart.0, rest.0), (ground arith, apart.1))

  first_duplicate_complete :
      (before : List SurfaceId) (xs : List (PaneSurface T B))
      → Distinct (map surface_id xs)
      → Apart (map surface_id xs) before
      → first_duplicate before xs ≡ none
  unfolding first_duplicate
  first_duplicate_complete before [] d a = refl
  first_duplicate_complete before (x ∷ xs) d a =
      let rest =
        first_duplicate_complete (before ++ x.id ∷ []) xs d.1
          (Apart-append (map surface_id xs) before x.id d.0 a.1) in
      ground arith

  -- PaneContainer::new returns a container exactly if that is made of the identifier and the
  -- surfaces, with the active index or that of the last surface if it is less, and has a surface,
  -- no two of the same identifier, and an active one.
  pub new_container_lem :
      (id : PaneId) (xs : List (PaneSurface T B)) (active : ℕ) (c : PaneContainer T B)
      → (new_container id xs active ≡ ok c) ↔ (
          (c ≡ record { id = id; surfaces = xs; active_surface_index = min active (length xs - 1) })
          × IsValid c)
  unfolding new_container
  new_container_lem id xs active c = (sound, complete)
    where
      sound :
          new_container id xs active ≡ ok c
          → (c ≡ record {
            id = id;
            surfaces = xs;
            active_surface_index = min active (length xs - 1);
          })
            × IsValid c
      sound h =
          let e : c ≡ record {
            id = id;
            surfaces = xs;
            active_surface_index = min active (length xs - 1);
          } =
            ground arith in
          let n : first_duplicate [] xs ≡ none = ground arith in
          let es : c.surfaces ≡ xs = ap (λ t. t.surfaces) e in
          let ea : c.active_surface_index ≡ min active (length xs - 1) =
            ap (λ t. t.active_surface_index) e in
          (
            e,
            record {
              active = rw (ea, es) (ground arith);
              distinct = rw es ((first_duplicate_sound [] xs n).0);
            },
          )

      complete :
          (c ≡ record { id = id; surfaces = xs; active_surface_index = min active (length xs - 1) })
            × IsValid c
          → new_container id xs active ≡ ok c
      complete h =
          let es : c.surfaces ≡ xs = ap (λ t. t.surfaces) h.0 in
          let d : Distinct (map surface_id xs) = rw es at (h.1).distinct in
          let lt : 0 < length xs = ground (arith, ap length es, h.1.active) in
          let n = first_duplicate_complete [] xs d (Apart-nil (map surface_id xs)) in
          ground (arith, h.0)

  -- In a valid container, adding a surface whose identifier is there already fails with that
  -- identifier, and adding any other succeeds: the container is valid again, and the surface is
  -- the last and the active one.
  pub add_lem :
      (c : PaneContainer T B) (s : PaneSurface T B)
      → IsValid c
      → ((elem (map surface_id c.surfaces) s.id ≡ true)
          × (add c s ≡ err (duplicate_surface_id s.id)))
        ⊎ ((c' : PaneContainer T B) × (add c s ≡ ok (c', c'.active_surface_index))
            × IsValid c'
            × (c'.surfaces ≡ c.surfaces ++ s ∷ [])
            × (active_surface c' ≡ some s))
  unfolding add active_surface
  add_lem c s v = elim (Bool-cases (elem (map surface_id c.surfaces) s.id)) [
    | inl e ↦ inl (e, rw e)
    | inr e ↦
        let xs = c.surfaces ++ s ∷ [] in
        let c' : PaneContainer T B = record c {
          surfaces = xs;
          active_surface_index = length xs - 1;
        } in
        let len = length-push c.surfaces s in
        let last : length xs - 1 ≡ length c.surfaces = omega arith in
        inr (
          c',
          rw e,
          record {
            active = omega arith;
            distinct = Adds-Distinct (push-Adds surface_id c.surfaces s) e v.distinct;
          },
          refl,
          rw last (get_elem?-push c.surfaces s),
        )
  ]

  -- Selecting in a valid container keeps it valid and keeps the surfaces. It reports true exactly
  -- for the identifier of a surface; either nothing has changed and it reports false, or the
  -- surface with that identifier is active.
  pub select_lem :
      (c : PaneContainer T B) (id : SurfaceId)
      → IsValid c
      → IsValid (select c id).0
        × ((select c id).0.surfaces ≡ c.surfaces)
        × ((select c id).1 ≡ elem (map surface_id c.surfaces) id)
        × (((select c id) ≡ (c, false))
            ⊎ ((s : PaneSurface T B) × (active_surface (select c id).0 ≡ some s) × (s.id ≡ id)))
  unfolding select active_surface
  select_lem c id v = elim (Option-cases (position (λ s. surface_id s == id) c.surfaces)) [
    | inl e ↦
        rw (e, select) (v, refl, sym (position-elem surface_id c.surfaces id ∙ rw e), inl refl)
    | inr (i, e) ↦
        let (s, g, t) = position_sound (λ s. surface_id s == id) c.surfaces i e in
        rw (e, select)
          (
            record { active = lt_of_get c.surfaces i s g; distinct = v.distinct },
            refl,
            sym (position-elem surface_id c.surfaces id ∙ rw e),
            inr (s, g, (==_iff s.id id).0 t),
          )
  ]

  pub record Removes (c : PaneContainer T B) (id : SurfaceId) (s : PaneSurface T B)
      (c' : PaneContainer T B) : Type 0 where
    pub removed : s.id ≡ id
    pub valid : IsValid c'
    pub members : Adds id (map surface_id c'.surfaces) (map surface_id c.surfaces)
    pub kept : (active_surface c ≡ some s) ⊎ (active_surface c' ≡ active_surface c)

  -- Removing a surface from a valid container fails only if it is the last one or not there;
  -- otherwise it hands over the surface with the identifier and leaves a valid container without
  -- it, whose active surface is the same unless that was the removed one.
  pub remove_lem :
      (c : PaneContainer T B) (id : SurfaceId)
      → IsValid c
      → ((remove c id ≡ none)
          × ((leb (length c.surfaces) 1 || not (elem (map surface_id c.surfaces) id)) ≡ true))
        ⊎ ((s : PaneSurface T B) × (c' : PaneContainer T B) × (remove c id ≡ some (s, c'))
            × Removes c id s c')
  unfolding remove active_surface
  remove_lem c id v = elim (Bool-cases (leb (length c.surfaces) 1)) [
    | inl e ↦ inl (rw e, rw e)
    | inr e ↦ elim (Option-cases (position (λ s. surface_id s == id) c.surfaces)) [
      | inl e' ↦ inl (rw (e, e'), rw (e, position-elem surface_id c.surfaces id, e'))
      | inr (i, e') ↦
          let (s, g, t) = position_sound (λ s. surface_id s == id) c.surfaces i e' in
          let lt = lt_of_get c.surfaces i s g in
          let rest = remove_at c.surfaces i in
          let len = length-remove_at c.surfaces i lt in
          let active = c.active_surface_index in
          let active' : ℕ =
            if leb (length rest) active
            then length rest - 1
            else if ltb i active
            then active - 1
            else active in
          let c' : PaneContainer T B = record c {
            surfaces = rest;
            active_surface_index = active';
          } in
          let adds = remove_at-Adds surface_id c.surfaces i s g in
          inr (
            s,
            c',
            rw (e, e', g),
            record {
              removed = (==_iff s.id id).0 t;
              valid = record {
                active = ground arith;
                distinct = (Distinct-Adds adds v.distinct).1;
              };
              members = rw (← (==_iff s.id id).0 t) adds;
              kept = elim (Bool-cases (i == active)) [
                | inl k ↦ inl (ground (arith, g))
                | inr k ↦ inr (ground (arith, get_elem?-remove_at c.surfaces i active'))
              ];
            },
          )
    ]
  ]
