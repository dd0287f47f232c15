-- ===== src/Model/Global/Inserts.antt =====
-- What the loops of the check insert into the sets, and the loops over the panes of a tab.
use mathlib.Core.Option
use kitmux_linux.Base.{
  ℕ, ◌≡◌, refl, ap, ◌∙◌, inl, inr, false, some, List, [], ◌∷◌, ◌++◌, map, elem, arith, Option-cases,
}
use kitmux_linux.Base.Result.{Result, ok, ok_inj, Result-cases}
use kitmux_linux.Base.Unique.{insert_all, insert_all-append}
use kitmux_linux.Ids.{PaneId}
use kitmux_linux.Runtime.{PaneSurface, PaneContainer, surface_id}
use kitmux_linux.Model.Global.{Seen, visit_surfaces, visit_panes}

-- Inserting these identifiers one by one, kind by kind, meets no duplicate.
pub record Inserts (s s' : Seen) (gs ts ps ss : List ℕ) : Type 0 where
  pub groups : insert_all gs s.groups ≡ some s'.groups
  pub tabs : insert_all ts s.tabs ≡ some s'.tabs
  pub panes : insert_all ps s.panes ≡ some s'.panes
  pub surfaces : insert_all ss s.surfaces ≡ some s'.surfaces

insert_all-join :
    (xs ys a b c : List ℕ)
    → insert_all xs a ≡ some b
    → insert_all ys b ≡ some c
    → insert_all (xs ++ ys) a ≡ some c
unfolding Option.bind
insert_all-join xs ys a b c h k = insert_all-append xs ys a ∙ rw h k

insert_all-split :
    (xs ys a c : List ℕ)
    → insert_all (xs ++ ys) a ≡ some c
    → (b : List ℕ) × (insert_all xs a ≡ some b) × (insert_all ys b ≡ some c)
unfolding Option.bind
insert_all-split xs ys a c h = elim (Option-cases (insert_all xs a)) [
  | inl e ↦ absurd (ground (arith, insert_all-append xs ys a))
  | inr (b, e) ↦ (b, e, ground (arith, insert_all-append xs ys a))
]

pub Inserts-join :
    (s s1 s2 : Seen) (gs ts ps ss gs' ts' ps' ss' : List ℕ)
    → Inserts s s1 gs ts ps ss
    → Inserts s1 s2 gs' ts' ps' ss'
    → Inserts s s2 (gs ++ gs') (ts ++ ts') (ps ++ ps') (ss ++ ss')
Inserts-join s s1 s2 gs ts ps ss gs' ts' ps' ss' h k = record {
  groups = insert_all-join gs gs' s.groups s1.groups s2.groups h.groups k.groups;
  tabs = insert_all-join ts ts' s.tabs s1.tabs s2.tabs h.tabs k.tabs;
  panes = insert_all-join ps ps' s.panes s1.panes s2.panes h.panes k.panes;
  surfaces = insert_all-join ss ss' s.surfaces s1.surfaces s2.surfaces h.surfaces k.surfaces;
}

pub Inserts-split :
    (s s2 : Seen) (gs ts ps ss gs' ts' ps' ss' : List ℕ)
    → Inserts s s2 (gs ++ gs') (ts ++ ts') (ps ++ ps') (ss ++ ss')
    → (s1 : Seen) × Inserts s s1 gs ts ps ss × Inserts s1 s2 gs' ts' ps' ss'
Inserts-split s s2 gs ts ps ss gs' ts' ps' ss' h =
    let (g, g1, g2) = insert_all-split gs gs' s.groups s2.groups h.groups in
    let (t, t1, t2) = insert_all-split ts ts' s.tabs s2.tabs h.tabs in
    let (p, p1, p2) = insert_all-split ps ps' s.panes s2.panes h.panes in
    let (f, f1, f2) = insert_all-split ss ss' s.surfaces s2.surfaces h.surfaces in
    (
      record { groups = g; tabs = t; panes = p; surfaces = f },
      record { groups = g1; tabs = t1; panes = p1; surfaces = f1 },
      record { groups = g2; tabs = t2; panes = p2; surfaces = f2 },
    )

pub Inserts-nil : (s s' : Seen) → Inserts s s' [] [] [] [] → s ≡ s'
unfolding insert_all
Inserts-nil s s' h =
    let g : s.groups ≡ s'.groups = cc in
    let t : s.tabs ≡ s'.tabs = cc in
    let p : s.panes ≡ s'.panes = cc in let f : s.surfaces ≡ s'.surfaces = cc in cc

pub ok-Inserts :
    {E : Type 0} (s s' : Seen) → ◌≡◌ {A = Result Seen E} (ok s) (ok s') → Inserts s s' [] [] [] []
unfolding insert_all
ok-Inserts s s' h =
    let e : s ≡ s' = ok_inj h in
    rw (← e) (record { groups = refl; tabs = refl; panes = refl; surfaces = refl })

module _ {T B : Type 0} where
  abbrev pub surface_ids : List (PaneId × PaneContainer T B) → List ℕ
  surface_ids [] = []
  surface_ids ((p, c) ∷ m) = map surface_id c.surfaces ++ surface_ids m

  abbrev pub container_ids : List (PaneId × PaneContainer T B) → List ℕ
  container_ids [] = []
  container_ids ((p, c) ∷ m) = c.id ∷ container_ids m

  surfaces_sound :
      (xs : List (PaneSurface T B)) (s s' : Seen)
      → visit_surfaces xs s ≡ ok s'
      → Inserts s s' [] [] [] (map surface_id xs)
  unfolding visit_surfaces insert_all
  surfaces_sound [] s s' h = ok-Inserts s s' h
  surfaces_sound (x ∷ xs) s s' h =
      let r = surfaces_sound xs (record s { surfaces = x.id ∷ s.surfaces }) s' (ground arith) in
      record {
        groups = r.groups;
        tabs = r.tabs;
        panes = r.panes;
        surfaces = ground (arith, r.surfaces);
      }

  surfaces_complete :
      (xs : List (PaneSurface T B)) (s s' : Seen)
      → Inserts s s' [] [] [] (map surface_id xs)
      → visit_surfaces xs s ≡ ok s'
  unfolding visit_surfaces insert_all
  surfaces_complete [] s s' h = ap ok (Inserts-nil s s' h)
  surfaces_complete (x ∷ xs) s s' h =
      let n : elem s.surfaces x.id ≡ false = ground (arith, h.surfaces) in
      rw n (
        surfaces_complete xs (record s { surfaces = x.id ∷ s.surfaces }) s'
          (record {
            groups = h.groups;
            tabs = h.tabs;
            panes = h.panes;
            surfaces = ground (arith, h.surfaces);
          }))

  -- One identifier of a kind, and what hangs below it, in front of the rest.
  pub panes_sound :
      (m : List (PaneId × PaneContainer T B)) (s s' : Seen)
      → visit_panes m s ≡ ok s'
      → Inserts s s' [] [] (container_ids m) (surface_ids m)
  unfolding visit_panes insert_all
  panes_sound [] s s' h = ok-Inserts s s' h
  panes_sound ((p, c) ∷ m) s s' h =
      elim (Result-cases (visit_surfaces c.surfaces (record s { panes = c.id ∷ s.panes }))) [
        | inl (x, e) ↦ absurd (ground arith)
        | inr (s1, e) ↦
            let r =
              Inserts-join (record s { panes = c.id ∷ s.panes }) s1 s' [] [] []
                (map surface_id c.surfaces) [] [] (container_ids m) (surface_ids m)
                (surfaces_sound c.surfaces _ s1 e) (panes_sound m s1 s' (ground arith)) in
            record {
              groups = r.groups;
              tabs = r.tabs;
              panes = ground (arith, r.panes);
              surfaces = r.surfaces;
            }
      ]

  pub panes_complete :
      (m : List (PaneId × PaneContainer T B)) (s s' : Seen)
      → Inserts s s' [] [] (container_ids m) (surface_ids m)
      → visit_panes m s ≡ ok s'
  unfolding visit_panes insert_all
  panes_complete [] s s' h = ap ok (Inserts-nil s s' h)
  panes_complete ((p, c) ∷ m) s s' h =
      let n : elem s.panes c.id ≡ false = ground (arith, h.panes) in
      let (s1, l, r) =
        Inserts-split (record s { panes = c.id ∷ s.panes }) s' [] [] [] (map surface_id c.surfaces)
          [] [] (container_ids m) (surface_ids m)
          (record {
            groups = h.groups;
            tabs = h.tabs;
            panes = ground (arith, h.panes);
            surfaces = h.surfaces;
          }) in
      let e = surfaces_complete c.surfaces (record s { panes = c.id ∷ s.panes }) s1 l in
      rw (n, e) (panes_complete m s1 s' r)
