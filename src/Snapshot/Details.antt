-- ===== src/Snapshot/Details.antt =====
-- The repair of the details of a pane in kitmux-linux/rust/model/src/state.rs.
use mathlib.Core.Option
use kitmux_linux.Base.{
  ℕ, ◌-◌, Bool, true, false, not, ◌&&◌, ◌||◌, Option, none, some, List, [], ◌∷◌, ◌==◌, leb, length,
  elem, if◌then◌else◌,
}
use kitmux_linux.Base.Int.{ℤ, pos, negsuc}
use kitmux_linux.Text.{
  Text, codes, trim, byte_len, any, is_control, is_whitespace, starts_with, same_text,
}
use kitmux_linux.Resume.{valid_resume_command}
use kitmux_linux.Snapshot.Data.{PaneContentKind, PaneSurfaceDetail, PaneDetail}

-- `index.clamp(0, count.saturating_sub(1))`
unfoldable pub clamp_index : ℤ → ℕ → ℤ
clamp_index (pos i) count = pos (if leb i (count - 1) then i else count - 1)
clamp_index (negsuc i) count = pos 0

abbrev pub is_path : Text → Bool
is_path path = starts_with path (codes "/") && not (any is_control path)

abbrev pub filter_text : (Text → Bool) → Option Text → Option Text
filter_text test none = none
filter_text test (some t) = if test t then some t else none

unfoldable pub valid_absolute_path : Option Text → Option Text
valid_absolute_path value = filter_text is_path value

-- `split_once("://")`: what stands behind it.
unfoldable pub after_scheme : Text → Option Text
after_scheme [] = none
after_scheme (c ∷ cs) =
    let rest = after_scheme cs in
    if starts_with (c ∷ cs) (codes "://") then some (behind cs) else rest
  where
    behind : Text → Text
    behind (_ ∷ _ ∷ t) = t
    behind _ = []

-- The first part of `split(['/', '?', '#'])` is not empty.
unfoldable pub has_authority : Text → Bool
has_authority [] = false
has_authority (c ∷ cs) = not (c == 47 || c == 63 || c == 35)

abbrev authority_of : Option Text → Bool
authority_of none = false
authority_of (some rest) = has_authority rest

-- The test of `valid_url`.
unfoldable pub is_url : Text → Bool
is_url url =
    leb (byte_len url) 8192
    && not (any is_control url)
    && not (any is_whitespace url)
    && (starts_with url (codes "http://") || starts_with url (codes "https://"))
    && authority_of (after_scheme url)

unfoldable pub valid_url : Option Text → Option Text
valid_url value = filter_text is_url (Option.map trim value)

unfoldable pub repair_surface : PaneSurfaceDetail → PaneSurfaceDetail
repair_surface surface = elim surface.kind [
  | PaneContentKind.browser ↦ record surface {
    cwd = none;
    resume_command = none;
    url = valid_url surface.url;
  }
  | PaneContentKind.terminal ↦ record surface {
    url = none;
    cwd = valid_absolute_path surface.cwd;
    resume_command = valid_resume_command surface.resume_command;
  }
]

-- `retain_mut`: the surfaces whose identifier has not been seen, repaired.
unfoldable pub retain_surfaces : List ℕ → List PaneSurfaceDetail → List PaneSurfaceDetail
retain_surfaces seen [] = []
retain_surfaces seen (surface ∷ surfaces) =
    let skipped = retain_surfaces seen surfaces in
    let kept = retain_surfaces (surface.id ∷ seen) surfaces in
    if elem seen surface.id then skipped else repair_surface surface ∷ kept

-- A pane without surfaces.
unfoldable pub repair_plain : PaneDetail → PaneDetail
repair_plain detail = elim detail.kind [
  | some PaneContentKind.browser ↦ record detail {
    surfaces = none;
    active_surface_index = none;
    cwd = none;
    resume_command = none;
    ssh_profile_id = none;
    url = valid_url detail.url;
  }
  | _ ↦ elim detail.ssh_profile_id [
    | some profile ↦ record detail {
      surfaces = none;
      active_surface_index = none;
      kind = none;
      url = none;
      cwd = none;
      resume_command = none;
    }
    | none ↦ record detail {
      surfaces = none;
      active_surface_index = none;
      kind = none;
      url = none;
      cwd = valid_absolute_path detail.cwd;
      resume_command = valid_resume_command detail.resume_command;
    }
  ]
]

abbrev pub index_or_zero : Option ℤ → ℤ
index_or_zero none = pos 0
index_or_zero (some i) = i

-- A pane with surfaces, of which one or more are left.
unfoldable pub with_surfaces : PaneDetail → List PaneSurfaceDetail → PaneDetail
with_surfaces detail stack = record detail {
  active_surface_index =
      some (clamp_index (index_or_zero detail.active_surface_index) (length stack));
  surfaces = some stack;
  cwd = none;
  resume_command = none;
  kind = none;
  url = none;
  ssh_profile_id = none;
}

abbrev pub or_plain : PaneDetail → List PaneSurfaceDetail → PaneDetail
or_plain detail [] = repair_plain detail
or_plain detail (s ∷ stack) = with_surfaces detail (s ∷ stack)

-- An empty stack leaves no surfaces either.
abbrev pub repair_with : PaneDetail → Option (List PaneSurfaceDetail) → PaneDetail
repair_with detail none = repair_plain detail
repair_with detail (some stack) = or_plain detail (retain_surfaces [] stack)

unfoldable pub repair_detail : PaneDetail → PaneDetail
repair_detail detail = repair_with detail detail.surfaces

abbrev is_some : {A : Type 0} → Option A → Bool
is_some none = false
is_some (some a) = true

abbrev is_browser : Option PaneContentKind → Bool
is_browser (some PaneContentKind.browser) = true
is_browser _ = false

unfoldable pub detail_has_data : PaneDetail → Bool
detail_has_data detail =
    is_some detail.surfaces
    || is_browser detail.kind
    || is_some detail.cwd
    || is_some detail.resume_command
    || is_some detail.ssh_profile_id

abbrev pub contains_text : Text → List Text → Bool
contains_text t [] = false
contains_text t (x ∷ xs) = same_text x t || contains_text t xs

-- The loop over the details of a tab, for the texts of its panes.
unfoldable pub repair_details : List Text → List (Text × PaneDetail) → List (Text × PaneDetail)
repair_details ids [] = []
repair_details ids ((raw, detail) ∷ details) =
    let rest = repair_details ids details in
    let repaired = repair_detail detail in
    if contains_text raw ids && detail_has_data repaired then (raw, repaired) ∷ rest else rest
