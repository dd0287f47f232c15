-- ===== src/Model/Presentation/Total.antt =====
-- The presentations of a hierarchy: which surfaces, where, and with which flags.
use mathlib.Core.Option
use kitmux_linux.Base.{
  ℕ, suc, ◌≡◌, ◌↔◌, refl, sym, inl, inr, Member, get_elem?, Bool, true, not, ◌&&◌, some, List, [],
  ◌∷◌, ◌==◌, elem, All, arith, Option-cases,
}
use kitmux_linux.Base.Map.{get, has-keys}
use kitmux_linux.Ids.{PaneId, TabId, GroupId, WorkspaceId}
use kitmux_linux.Float.{Float}
use kitmux_linux.Runtime.{Runtimes, PaneSurface, PaneContainer, kind, is_closed}
use kitmux_linux.Split
use kitmux_linux.Model.Tab.{TabModel}
use kitmux_linux.Model.Tab.Valid
use kitmux_linux.Model.Group.{GroupModel}
use kitmux_linux.Model.Workspace.{WorkspaceModel}
use kitmux_linux.Model.App.{AppModel}
use kitmux_linux.Model.Hierarchy.{IsGroup, IsWorkspace, IsHierarchy}
use kitmux_linux.Model.Presentation.{
  RuntimePresentation, is_terminal, present_surfaces, present_panes, present_tabs, present_groups,
  present_workspaces, runtime_presentations,
}
use kitmux_linux.Model.Presentation.Loops.{
  zero_add, At, At-cons, every, either, Presents, Presents-nil, joined,
}

module _ {T B : Type 0} ⦃rt : Runtimes T B⦄ where
  -- What is presented of a surface, whose layout is visible or not, in a pane with the focus or not.
  abbrev pub presented :
      WorkspaceId × GroupId × TabId × PaneId
      → Bool
      → Bool
      → Bool
      → PaneSurface T B
      → RuntimePresentation
  presented (w, g, t, p) visible active focused s = record {
    location = record {
      workspace_id = w;
      group_id = g;
      tab_id = t;
      pane_id = p;
      surface_id = s.id;
    };
    kind = kind s.runtime;
    layout_visible = visible;
    surface_visible = visible && active;
    accepts_input = (visible && active) && focused;
    pumps_while_hidden = is_terminal (kind s.runtime) && not (is_closed s.runtime);
  }

  abbrev OfSurface :
      WorkspaceId × GroupId × TabId × PaneId
      → Bool
      → Bool
      → ℕ
      → RuntimePresentation
      → ℕ
      → PaneSurface T B
      → Type 0
  OfSurface at visible focused active r index s =
      r ≡ presented at visible (index == active) focused s

  surfaces_lem :
      (at : WorkspaceId × GroupId × TabId × PaneId) (visible focused : Bool) (active index : ℕ)
      (ss : List (PaneSurface T B)) (r : RuntimePresentation)
      → Member r (present_surfaces at visible focused active index ss)
        ↔ At (OfSurface at visible focused active r) index ss
  unfolding present_surfaces
  surfaces_lem at visible focused active index [] r =
      (λ m. absurd m, λ (k, x, g, h). absurd (ground arith))
  surfaces_lem (w, g, t, p) visible focused active index (s ∷ ss) r =
      let at : WorkspaceId × GroupId × TabId × PaneId = (w, g, t, p) in
      let (into, out) = At-cons (OfSurface at visible focused active r) index s ss in
      let (sound, complete) = surfaces_lem at visible focused active (suc index) ss r in
      (λ m. into (either sym sound m), λ h. either sym complete (out h))

module _ {F T B : Type 0} ⦃f : Float F⦄ ⦃rt : Runtimes T B⦄ where
  abbrev OfPane :
      WorkspaceId × GroupId → TabModel F T B → Bool → RuntimePresentation → ℕ → PaneId → Type 0
  OfPane (w, g) t visible r index p =
      (c : PaneContainer T B) × (get p t.panes ≡ some c)
      × At (OfSurface (w, g, t.id, p) visible (p == t.focused_pane_id) c.active_surface_index r) 0
          c.surfaces

  abbrev OfTab :
      WorkspaceId × GroupId → Bool → ℕ → RuntimePresentation → ℕ → TabModel F T B → Type 0
  OfTab at visible active r index t =
      At (OfPane at t (visible && index == active) r) 0 (Split.pane_ids t.root)

  abbrev OfGroup : WorkspaceId → Bool → ℕ → RuntimePresentation → ℕ → GroupModel F T B → Type 0
  OfGroup w visible active r index g =
      At (OfTab (w, g.id) (visible && index == active) g.active_tab_index r) 0 g.tabs

  abbrev OfWorkspace : ℕ → RuntimePresentation → ℕ → WorkspaceModel F T B → Type 0
  OfWorkspace active r index w =
      At (OfGroup w.id (index == active) w.active_group_index r) 0 w.groups

  panes-Presents :
      (w : WorkspaceId) (g : GroupId) (t : TabModel F T B) (visible : Bool) (index : ℕ)
      (ps : List PaneId)
      → All (λ p. elem (Split.pane_ids t.root) p ≡ true) ps
      → Valid.IsValid t
      → Presents (present_panes (w, g) t visible ps) (λ r. At (OfPane (w, g) t visible r) index ps)
  unfolding present_panes Option.bind
  panes-Presents w g t visible index [] a v = Presents-nil (OfPane (w, g) t visible) index
  panes-Presents w g t visible index (p ∷ ps) a v = elim (Option-cases (get p t.panes)) [
    | inl n ↦ absurd (ground (arith, v.agree p, has-keys p t.panes, a.0))
    | inr (c, e) ↦
        let focused = p == t.focused_pane_id in
        let here =
          present_surfaces (w, g, t.id, p) visible focused c.active_surface_index 0 c.surfaces in
        let exact =
          surfaces_lem (w, g, t.id, p) visible focused c.active_surface_index 0 c.surfaces in
        rw e (
          joined (OfPane (w, g) t visible) index p ps (some here) _
            (
              here,
              refl,
              λ r. (
                λ m. (c, e, (exact r).0 m),
                λ (c', e', m). let same : c' ≡ c = cc in (exact r).1 (rw same at m),
              ),
            )
            (panes-Presents w g t visible (suc index) ps a.1 v))
  ]

  tabs-Presents :
      (at : WorkspaceId × GroupId) (visible : Bool) (active index : ℕ) (ts : List (TabModel F T B))
      → All Valid.IsValid ts
      → Presents
          (present_tabs at visible active index ts)
          (λ r. At (OfTab at visible active r) index ts)
  unfolding present_tabs
  tabs-Presents (w, g) visible active index [] a = Presents-nil (OfTab (w, g) visible active) index
  tabs-Presents (w, g) visible active index (t ∷ ts) a =
      joined (OfTab (w, g) visible active) index t ts _ _
        (panes-Presents w g t (visible && index == active) 0 (Split.pane_ids t.root)
          (every (Split.pane_ids t.root)) a.0)
        (tabs-Presents (w, g) visible active (suc index) ts a.1)

  groups-Presents :
      (w : WorkspaceId) (visible : Bool) (active index : ℕ) (gs : List (GroupModel F T B))
      → All IsGroup gs
      → Presents
          (present_groups w visible active index gs)
          (λ r. At (OfGroup w visible active r) index gs)
  unfolding present_groups
  groups-Presents w visible active index [] a = Presents-nil (OfGroup w visible active) index
  groups-Presents w visible active index (g ∷ gs) a =
      joined (OfGroup w visible active) index g gs _ _
        (tabs-Presents (w, g.id) (visible && index == active) g.active_tab_index 0 g.tabs
          a.0.members)
        (groups-Presents w visible active (suc index) gs a.1)

  workspaces-Presents :
      (active index : ℕ) (ws : List (WorkspaceModel F T B))
      → All IsWorkspace ws
      → Presents (present_workspaces active index ws) (λ r. At (OfWorkspace active r) index ws)
  unfolding present_workspaces
  workspaces-Presents active index [] a = Presents-nil (OfWorkspace active) index
  workspaces-Presents active index (w ∷ ws) a =
      joined (OfWorkspace active) index w ws _ _
        (groups-Presents w.id (index == active) w.active_group_index 0 w.groups a.0.members)
        (workspaces-Presents active (suc index) ws a.1)

  -- A surface of the hierarchy, by its place, and what the host is told of it: its layout is visible
  -- if its workspace, group and tab are the active ones, it is visible if it is besides the active
  -- surface of its pane, and it accepts input if that pane has the focus.
  pub record Presented (a : AppModel F T B) (r : RuntimePresentation) : Type 0 where
    pub i : ℕ
    pub j : ℕ
    pub k : ℕ
    pub l : ℕ
    pub n : ℕ
    pub workspace : WorkspaceModel F T B
    pub group : GroupModel F T B
    pub tab : TabModel F T B
    pub pane_id : PaneId
    pub container : PaneContainer T B
    pub surface : PaneSurface T B
    pub at_workspace : get_elem? a.workspaces i ≡ some workspace
    pub at_group : get_elem? workspace.groups j ≡ some group
    pub at_tab : get_elem? group.tabs k ≡ some tab
    pub at_pane : get_elem? (Split.pane_ids tab.root) l ≡ some pane_id
    pub at_container : get pane_id tab.panes ≡ some container
    pub at_surface : get_elem? container.surfaces n ≡ some surface
    pub is :
        r
        ≡ presented
            (workspace.id, group.id, tab.id, pane_id)
            ((i == a.active_workspace_index && j == workspace.active_group_index)
              && k == group.active_tab_index)
            (n == container.active_surface_index)
            (pane_id == tab.focused_pane_id)
            surface

  At-Presented :
      (a : AppModel F T B) (r : RuntimePresentation)
      → At (OfWorkspace a.active_workspace_index r) 0 a.workspaces ↔ Presented a r
  At-Presented a r = (sound, complete)
    where
      sound : At (OfWorkspace a.active_workspace_index r) 0 a.workspaces → Presented a r
      sound (i, w, ew, (j, g, eg, (k, t, et, (l, p, ep, (c, ec, (n, s, es, e)))))) = record {
        i = i;
        j = j;
        k = k;
        l = l;
        n = n;
        workspace = w;
        group = g;
        tab = t;
        pane_id = p;
        container = c;
        surface = s;
        at_workspace = ew;
        at_group = eg;
        at_tab = et;
        at_pane = ep;
        at_container = ec;
        at_surface = es;
        is = rw (zero_add i, zero_add j, zero_add k, zero_add n) at e;
      }

      complete : Presented a r → At (OfWorkspace a.active_workspace_index r) 0 a.workspaces
      complete h = (
        h.i,
        h.workspace,
        h.at_workspace,
        (
          h.j,
          h.group,
          h.at_group,
          (
            h.k,
            h.tab,
            h.at_tab,
            (
              h.l,
              h.pane_id,
              h.at_pane,
              (
                h.container,
                h.at_container,
                (
                  h.n,
                  h.surface,
                  h.at_surface,
                  rw (zero_add h.i, zero_add h.j, zero_add h.k, zero_add h.n) h.is,
                ),
              ),
            ),
          ),
        ),
      )

  -- Presenting a hierarchy whose tabs are valid and in which every level has distinct identifiers
  -- and an active member never panics, and presents exactly the surfaces of the panes of its
  -- tabs: each with its place and its kind, with a visible layout if its workspace, its group and
  -- its tab are the active ones, as visible if it is besides the active surface of its pane, and
  -- as accepting input if besides that pane has the focus of its tab.
  pub runtime_presentations_lem :
      (a : AppModel F T B)
      → IsHierarchy a
      → (rs : List RuntimePresentation) × (runtime_presentations a ≡ some rs)
        × ((r : RuntimePresentation) → Member r rs ↔ Presented a r)
  unfolding runtime_presentations
  runtime_presentations_lem a v =
      let (rs, e, exact) = workspaces-Presents a.active_workspace_index 0 a.workspaces v.members in
      (
        rs,
        e,
        λ r.
            let (into, out) = At-Presented a r in
            (λ m. into ((exact r).0 m), λ h. (exact r).1 (out h)),
      )
