-- ===== src/Model/Close/Laws.antt =====
-- Closing a pane: its scope, what goes and what is left.
use mathlib.Core.Option
use kitmux_linux.Base.{ℕ, ◌≡◌, some, List}
use kitmux_linux.Ids.{PaneId}
use kitmux_linux.Float.{Float}
use kitmux_linux.Runtime.{Runtimes, PaneContainer}
use kitmux_linux.Model.Tab.Valid
use kitmux_linux.Model.App.{AppModel}
use kitmux_linux.Model.App.Find.{InWorkspace}
use kitmux_linux.Model.Hierarchy.{IsHierarchy}
use kitmux_linux.Model.Close.{CloseScope, CloseOutcome, resolve_close_scope, close_pane}
use kitmux_linux.Model.Close.Parts.{Closes}

module _ {F T B : Type 0} ⦃f : Float F⦄ ⦃rt : Runtimes T B⦄ where
  -- A close of a pane that a tab has.
  pub record Closed (a : AppModel F T B) (p : PaneId) : Type 0 where
    pub i : ℕ
    pub j : ℕ
    pub k : ℕ
    pub place : InWorkspace p a.workspaces i j k
    pub scope : CloseScope
    pub outcome : CloseOutcome
    pub gone : List (PaneContainer T B)
    pub after : AppModel F T B
    pub resolves : resolve_close_scope a p ≡ some scope
    pub runs : close_pane a p ≡ some (outcome, gone, after)
    pub valid : IsHierarchy after
    pub closes : Closes a p i j k place scope outcome gone after
