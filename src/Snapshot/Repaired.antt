-- ===== src/Snapshot/Repaired.antt =====
-- Repairing the details of a pane twice.
use kitmux_linux.Base.{
  ℕ, ◌≡◌, refl, ap, ap₂, sym, ◌∙◌, inl, inr, Bool, false, Option, none, some, List, [], ◌∷◌, length,
  elem, arith, Bool-cases, Option-cases,
}
use kitmux_linux.Base.Int.{ℤ, pos, negsuc}
use kitmux_linux.Text.{Text, trim}
use kitmux_linux.Text.Trim.{trim_idem}
use kitmux_linux.Resume.{valid_command, valid_resume_command}
use kitmux_linux.Resume.Command.{valid_command_lem}
use kitmux_linux.Snapshot.Data.{PaneContentKind, PaneSurfaceDetail, PaneDetail}
use kitmux_linux.Snapshot.Details.{
  clamp_index, is_path, filter_text, valid_absolute_path, is_url, valid_url, repair_surface,
  retain_surfaces, repair_plain, with_surfaces, or_plain, repair_with, repair_detail, index_or_zero,
}

clamp_index_idem : (i : ℤ) (n : ℕ) → clamp_index (clamp_index i n) n ≡ clamp_index i n
unfolding clamp_index
clamp_index_idem (pos i) n = ground arith
clamp_index_idem (negsuc i) n = ground arith

filter_text_idem :
    (test : Text → Bool) (v : Option Text)
    → filter_text test (filter_text test v) ≡ filter_text test v
filter_text_idem test none = refl
filter_text_idem test (some t) = elim (Bool-cases (test t)) [
  | inl e ↦ rw (e, e) refl
  | inr e ↦ rw e refl
]

valid_absolute_path_idem :
    (v : Option Text) → valid_absolute_path (valid_absolute_path v) ≡ valid_absolute_path v
unfolding valid_absolute_path
valid_absolute_path_idem v = filter_text_idem is_path v

valid_url_idem : (v : Option Text) → valid_url (valid_url v) ≡ valid_url v
unfolding valid_url
valid_url_idem none = refl
valid_url_idem (some t) = elim (Bool-cases (is_url (trim t))) [
  | inl e ↦ rw (valid_url, e, trim_idem t, e) refl
  | inr e ↦ rw (valid_url, e) refl
]

valid_resume_command_idem :
    (v : Option Text) → valid_resume_command (valid_resume_command v) ≡ valid_resume_command v
unfolding valid_resume_command
valid_resume_command_idem none = refl
valid_resume_command_idem (some c) = elim (Option-cases (valid_command c)) [
  | inl e ↦ rw e refl
  | inr (t, e) ↦ rw e (valid_command_lem c t e).4
]

repair_surface_idem : (s : PaneSurfaceDetail) → repair_surface (repair_surface s) ≡ repair_surface s
unfolding repair_surface
repair_surface_idem s = by_kind s.id s.cwd s.resume_command s.kind s.url
  where
    by_kind :
        (id : ℕ) (cwd command : Option Text) (kind : PaneContentKind) (url : Option Text)
        → let s : PaneSurfaceDetail = record {
          id = id;
          cwd = cwd;
          resume_command = command;
          kind = kind;
          url = url;
        } in
          repair_surface (repair_surface s) ≡ repair_surface s
    by_kind id cwd command PaneContentKind.browser url = rw (valid_url_idem url) refl
    by_kind id cwd command PaneContentKind.terminal url =
        rw (valid_absolute_path_idem cwd, valid_resume_command_idem command) refl

repair_surface_id : (s : PaneSurfaceDetail) → (repair_surface s).id ≡ s.id
unfolding repair_surface
repair_surface_id s = ground arith

retain_new :
    (seen : List ℕ) (s : PaneSurfaceDetail) (ss : List PaneSurfaceDetail)
    → elem seen s.id ≡ false
    → retain_surfaces seen (s ∷ ss) ≡ repair_surface s ∷ retain_surfaces (s.id ∷ seen) ss
unfolding retain_surfaces
retain_new seen s ss e = rw e refl

-- The surfaces that are kept were not seen and are distinct; repairing keeps their identifiers.
retain_surfaces_idem :
    (seen : List ℕ) (ss : List PaneSurfaceDetail)
    → retain_surfaces seen (retain_surfaces seen ss) ≡ retain_surfaces seen ss
unfolding retain_surfaces
retain_surfaces_idem seen [] = refl
retain_surfaces_idem seen (s ∷ ss) = elim (Bool-cases (elem seen s.id)) [
  | inl e ↦ rw e (retain_surfaces_idem seen ss)
  | inr e ↦
      let k = retain_new seen s ss e in
      let again =
        retain_new seen (repair_surface s) (retain_surfaces (s.id ∷ seen) ss)
          (rw (repair_surface_id s) e) in
      ap (retain_surfaces seen) k
      ∙ again
      ∙ ap₂ (λ t id. t ∷ retain_surfaces (id ∷ seen) (retain_surfaces (s.id ∷ seen) ss))
          (repair_surface_idem s) (repair_surface_id s)
      ∙ ap (λ ts. repair_surface s ∷ ts) (retain_surfaces_idem (s.id ∷ seen) ss)
      ∙ sym k
]

repair_plain_idem : (d : PaneDetail) → repair_plain (repair_plain d) ≡ repair_plain d
unfolding repair_plain
repair_plain_idem d =
    by_kind d.cwd d.resume_command d.kind d.url d.ssh_profile_id d.surfaces d.active_surface_index
  where
    by_kind :
        (cwd command : Option Text) (kind : Option PaneContentKind) (url : Option Text)
        (profile : Option ℕ) (surfaces : Option (List PaneSurfaceDetail)) (index : Option ℤ)
        → let d : PaneDetail = record {
          cwd = cwd;
          resume_command = command;
          kind = kind;
          url = url;
          ssh_profile_id = profile;
          surfaces = surfaces;
          active_surface_index = index;
        } in
          repair_plain (repair_plain d) ≡ repair_plain d
    by_kind cwd command (some PaneContentKind.browser) url profile surfaces index =
        rw (valid_url_idem url) refl
    by_kind cwd command (some PaneContentKind.terminal) url (some profile) surfaces index = refl
    by_kind cwd command (some PaneContentKind.terminal) url none surfaces index =
        rw (valid_absolute_path_idem cwd, valid_resume_command_idem command) refl
    by_kind cwd command none url (some profile) surfaces index = refl
    by_kind cwd command none url none surfaces index =
        rw (valid_absolute_path_idem cwd, valid_resume_command_idem command) refl

-- Surfaces that are left, repaired again.
with_surfaces_idem :
    (d : PaneDetail) (s : PaneSurfaceDetail) (ss : List PaneSurfaceDetail)
    → retain_surfaces [] (s ∷ ss) ≡ s ∷ ss
    → repair_detail (with_surfaces d (s ∷ ss)) ≡ with_surfaces d (s ∷ ss)
unfolding repair_detail with_surfaces
with_surfaces_idem d s ss h =
    rw (h, clamp_index_idem (index_or_zero d.active_surface_index) (length (s ∷ ss))) refl

-- A pane without surfaces stays one.
plain_detail : (d : PaneDetail) → repair_detail (repair_plain d) ≡ repair_plain (repair_plain d)
unfolding repair_detail repair_plain
plain_detail d =
    let k : (repair_plain d).surfaces ≡ none = ground arith in rw (repair_detail, k) refl

or_plain_idem :
    (d : PaneDetail) (stack : List PaneSurfaceDetail)
    → retain_surfaces [] stack ≡ stack
    → repair_detail (or_plain d stack) ≡ or_plain d stack
or_plain_idem d [] h = plain_detail d ∙ repair_plain_idem d
or_plain_idem d (s ∷ ss) h = with_surfaces_idem d s ss h

repair_detail-none : (d : PaneDetail) → d.surfaces ≡ none → repair_detail d ≡ repair_plain d
unfolding repair_detail
repair_detail-none d e = ap (repair_with d) e

repair_detail-some :
    (d : PaneDetail) (stack : List PaneSurfaceDetail)
    → d.surfaces ≡ some stack
    → repair_detail d ≡ or_plain d (retain_surfaces [] stack)
unfolding repair_detail
repair_detail-some d stack e = ap (repair_with d) e

-- Repairing the details of a pane, with the surfaces, the directory, the command and the address
-- in them, a second time changes nothing.
pub repair_detail_idem : (d : PaneDetail) → repair_detail (repair_detail d) ≡ repair_detail d
repair_detail_idem d = elim (Option-cases d.surfaces) [
  | inl e ↦
      let k = repair_detail-none d e in
      ap repair_detail k ∙ plain_detail d ∙ repair_plain_idem d ∙ sym k
  | inr (stack, e) ↦
      let k = repair_detail-some d stack e in
      ap repair_detail k
      ∙ or_plain_idem d (retain_surfaces [] stack) (retain_surfaces_idem [] stack)
      ∙ sym k
]
