-- ===== src/Runtime.antt =====
-- kitmux-linux/rust/model/src/runtime.rs: the runtimes of a pane's surfaces and the stack of
-- surfaces. A terminal or a browser is a trait object, so its state is a parameter.
pub mod Mock
pub mod Container
use mathlib.Core.Option
use kitmux_linux.Base.{
  ℕ, suc, ◌+◌, ◌-◌, ◌%◌, ◌^◌, ◌≡◌, Bool, true, false, not, ◌&&◌, Option, none, some, List, [], ◌∷◌,
  ◌++◌, map, ◌==◌, ltb, leb, min, length, get_elem?, elem, if◌then◌else◌,
}
use kitmux_linux.Base.Result.{Result, ok, err}
use kitmux_linux.Base.Vec.{position, remove_at}
use kitmux_linux.Ids.{PaneId, SurfaceId}

-- The traits `TerminalRuntime` and `BrowserRuntime`, over the states of the two kinds of runtime.
pub record Runtimes (T B : Type 0) : Type 0 where
  pub pump : T → T
  pub close_terminal : T → T
  pub terminal_closed : T → Bool
  pub close_browser : B → B
  pub browser_closed : B → Bool

pub data RuntimeKind : Type 0 where
  terminal browser : RuntimeKind

pub data PaneRuntime (T B : Type 0) : Type 0 where
  terminal : T → PaneRuntime T B
  browser : B → PaneRuntime T B

pub record PaneSurface (T B : Type 0) : Type 0 where
  pub id : SurfaceId
  pub runtime : PaneRuntime T B

pub data PaneContainerError : Type 0 where
  empty_surface_stack : PaneContainerError
  duplicate_surface_id : SurfaceId → PaneContainerError

pub record PaneContainer (T B : Type 0) : Type 0 where
  pub id : PaneId
  pub surfaces : List (PaneSurface T B)
  pub active_surface_index : ℕ

module _ {T B : Type 0} where
  unfoldable pub kind : PaneRuntime T B → RuntimeKind
  kind (terminal t) = RuntimeKind.terminal
  kind (browser b) = RuntimeKind.browser

  abbrev pub surface_id : PaneSurface T B → SurfaceId
  surface_id s = s.id

  -- The loop of `PaneContainer::new`: the first surface whose identifier occurs before it.
  unfoldable pub first_duplicate : List SurfaceId → List (PaneSurface T B) → Option SurfaceId
  first_duplicate before [] = none
  first_duplicate before (s ∷ rest) =
      let later = first_duplicate (before ++ s.id ∷ []) rest in
      if elem before s.id then some s.id else later

  -- `PaneContainer::new`
  unfoldable pub new_container :
      PaneId → List (PaneSurface T B) → ℕ → Result (PaneContainer T B) PaneContainerError
  unfolding first_duplicate
  new_container id surfaces active =
      if length surfaces == 0 then err empty_surface_stack else elim (first_duplicate [] surfaces) [
        | some d ↦ err (duplicate_surface_id d)
        | none ↦ ok (record {
          id = id;
          surfaces = surfaces;
          active_surface_index = min active (length surfaces - 1);
        })
      ]

  unfoldable pub active_surface : PaneContainer T B → Option (PaneSurface T B)
  active_surface c = get_elem? c.surfaces c.active_surface_index

  unfoldable pub add :
      PaneContainer T B → PaneSurface T B → Result (PaneContainer T B × ℕ) PaneContainerError
  add c surface =
      let surfaces' = c.surfaces ++ surface ∷ [] in
      let active = length surfaces' - 1 in
      if elem (map surface_id c.surfaces) surface.id
      then err (duplicate_surface_id surface.id)
      else ok (record c { surfaces = surfaces'; active_surface_index = active }, active)

  unfoldable pub select : PaneContainer T B → SurfaceId → PaneContainer T B × Bool
  select c id = elim (position (λ s. surface_id s == id) c.surfaces) [
    | none ↦ (c, false)
    | some index ↦ (record c { active_surface_index = index }, true)
  ]

  -- The removed surface with what is left.
  unfoldable pub remove :
      PaneContainer T B → SurfaceId → Option (PaneSurface T B × PaneContainer T B)
  remove c id =
      if leb (length c.surfaces) 1
      then none
      else elim (position (λ s. surface_id s == id) c.surfaces) [
        | none ↦ none
        | some index ↦
            let rest = remove_at c.surfaces index in
            let active = c.active_surface_index in
            let active' =
              if leb (length rest) active
              then length rest - 1
              else if ltb index active
              then active - 1
              else active in
            Option.map
              (λ removed. (removed, record c { surfaces = rest; active_surface_index = active' }))
              (get_elem? c.surfaces index)
      ]

module _ {T B : Type 0} ⦃rt : Runtimes T B⦄ where
  unfoldable pub is_closed : PaneRuntime T B → Bool
  is_closed (terminal t) = rt.terminal_closed t
  is_closed (browser b) = rt.browser_closed b

  unfoldable pub pump_if_terminal : PaneRuntime T B → PaneRuntime T B
  pump_if_terminal (terminal t) = if rt.terminal_closed t then terminal t else terminal (rt.pump t)
  pump_if_terminal (browser b) = browser b

  unfoldable pub close : PaneRuntime T B → PaneRuntime T B
  close (terminal t) = if rt.terminal_closed t then terminal t else terminal (rt.close_terminal t)
  close (browser b) = if rt.browser_closed b then browser b else browser (rt.close_browser b)

  -- `PaneSurface::close` and `pump_if_terminal` go to the runtime.
  unfoldable pub close_surface : PaneSurface T B → PaneSurface T B
  unfolding close
  close_surface s = record s { runtime = close s.runtime }

  unfoldable pub pump_surface : PaneSurface T B → PaneSurface T B
  unfolding pump_if_terminal
  pump_surface s = record s { runtime = pump_if_terminal s.runtime }

  unfoldable pub close_container : PaneContainer T B → PaneContainer T B
  unfolding close_surface
  close_container c = record c { surfaces = map close_surface c.surfaces }

  unfoldable pub pump_container : PaneContainer T B → PaneContainer T B
  unfolding pump_surface
  pump_container c = record c { surfaces = map pump_surface c.surfaces }
