-- ===== src/Model/Tab/Edits.antt =====
-- The operations that change a tab's tree or registry.
use kitmux_linux.Base.{
  ℕ, ◌≡◌, refl, sym, ◌∙◌, inl, inr, true, false, ◌||◌, some, ◌==◌, elem, arith, Option-cases,
}
use kitmux_linux.Base.Map.{
  get, has, insert, keys, has-keys, insert-keys, insert-Distinct, insert-All, get-All, get-insert,
}
use kitmux_linux.Base.Result.{ok}
use kitmux_linux.Ids.{PaneId, SplitId, SurfaceId}
use kitmux_linux.Float.{Float}
use kitmux_linux.Split.{SplitNode, SplitAxis, removing_pane}
use kitmux_linux.Split
use kitmux_linux.Split.Panes.{insert_after, split_pane_lem}
use kitmux_linux.Split.Valid.{split_ids}
use kitmux_linux.Split.Edits.{
  split_pane-IsWellFormed, swap_panes-IsWellFormed, elem-insert_after, elem-swap_panes,
}
use kitmux_linux.Runtime.{PaneContainer, PaneSurface}
use kitmux_linux.Runtime
use kitmux_linux.Runtime.Container
use kitmux_linux.Runtime.Container.{add_lem, select_lem}
use kitmux_linux.Model.Tab.{TabModel, swap_panes, add_surface, select_surface, split_pane}
use kitmux_linux.Model.Tab.Valid.{IsValid, Entry}

module _ {T B : Type 0} where
  -- Surfaces come and go, the container keeps its identifier.
  added_id :
      (c : PaneContainer T B) (s : PaneSurface T B) (c' : PaneContainer T B) {i : ℕ}
      → Runtime.add c s ≡ ok (c', i)
      → c'.id ≡ c.id
  unfolding Runtime.add
  added_id c s c' h = ground arith

  selected_id : (c : PaneContainer T B) (id : SurfaceId) → (Runtime.select c id).0.id ≡ c.id
  unfolding Runtime.select
  selected_id c id = ground arith

module _ {F T B : Type 0} ⦃f : Float F⦄ where
  -- Where splitting a pane of a valid tab succeeds, with a valid new container and a split
  -- identifier that the tree does not have, the tab is valid again, the new pane stands right
  -- behind the old one in the tree, is registered with its container, and has the focus.
  pub split_pane-IsValid :
      (fresh : SplitId) (t : TabModel F T B) (p : PaneId) (axis : SplitAxis)
      (new : PaneContainer T B) (t' : TabModel F T B)
      → IsValid t
      → Container.IsValid new
      → elem (split_ids t.root) fresh ≡ false
      → split_pane fresh t p axis new ≡ ok t'
      → IsValid t'
        × (Split.pane_ids t'.root ≡ insert_after p new.id (Split.pane_ids t.root))
        × (t'.focused_pane_id ≡ new.id)
        × (get new.id t'.panes ≡ some new)
  unfolding split_pane
  split_pane-IsValid fresh t p axis new t' v vn h e =
      let root' = (Split.split_pane fresh t.root p axis new.id).0 in
      let hp : has p t.panes ≡ true = ground arith in
      let hn : has new.id t.panes ≡ false = ground arith in
      let e' : t'
          ≡ record t { root = root'; focused_pane_id = new.id; panes = insert new.id new t.panes } =
        ground arith in
      let ep : elem (Split.pane_ids t.root) p ≡ true =
        sym (v.agree p) ∙ sym (has-keys p t.panes) ∙ hp in
      let en : elem (Split.pane_ids t.root) new.id ≡ false =
        sym (v.agree new.id) ∙ sym (has-keys new.id t.panes) ∙ hn in
      let ids : Split.pane_ids root' ≡ insert_after p new.id (Split.pane_ids t.root) =
        (split_pane_lem fresh t.root p axis new.id).1 ∙ rw en in
      let el : (q : PaneId)
          → elem (Split.pane_ids root') q ≡ (new.id == q || elem (Split.pane_ids t.root) q) =
        λ q. rw ids (elem-insert_after p new.id q (Split.pane_ids t.root) ep) in
      rw e' (
        record {
          tree = split_pane-IsWellFormed fresh t.root p axis new.id h v.tree;
          registry = insert-Distinct new.id new t.panes v.registry;
          agree = λ q. insert-keys new.id q new t.panes ∙ rw (v.agree q) (sym (el q));
          focused = el new.id ∙ ground arith;
          containers = insert-All Entry new.id new t.panes (refl, vn) v.containers;
        },
        ids,
        refl,
        get-insert new.id new.id new t.panes ∙ ground arith,
      )

  -- Swapping two panes keeps a valid tab valid.
  pub swap_panes-IsValid :
      (t : TabModel F T B) (a b : PaneId) → IsValid t → IsValid (swap_panes t a b).0
  unfolding swap_panes
  swap_panes-IsValid t a b v = record {
    tree = swap_panes-IsWellFormed t.root a b v.tree;
    registry = v.registry;
    agree = λ p. v.agree p ∙ sym (elem-swap_panes t.root a b p);
    focused = elem-swap_panes t.root a b t.focused_pane_id ∙ v.focused;
    containers = v.containers;
  }

  with_container :
      (t : TabModel F T B) (p : PaneId) (c c' : PaneContainer T B)
      → IsValid t
      → get p t.panes ≡ some c
      → c'.id ≡ c.id
      → Container.IsValid c'
      → IsValid (record t { panes = insert p c' t.panes })
  with_container t p c c' v g e vc =
      let entry = get-All Entry p c t.panes g v.containers in
      let known : elem (keys t.panes) p ≡ true = sym (has-keys p t.panes) ∙ ground arith in
      record {
        tree = v.tree;
        registry = insert-Distinct p c' t.panes v.registry;
        agree = λ q. ground (arith, insert-keys p q c' t.panes, v.agree q);
        focused = v.focused;
        containers = insert-All Entry p c' t.panes (e ∙ entry.0, vc) v.containers;
      }

  pub add_surface-IsValid :
      (t : TabModel F T B) (p : PaneId) (s : PaneSurface T B) (t' : TabModel F T B) (i : ℕ)
      → IsValid t
      → add_surface t p s ≡ ok (t', i)
      → IsValid t'
  unfolding add_surface
  add_surface-IsValid t p s t' i v e = elim (Option-cases (get p t.panes)) [
    | inl n ↦ absurd (ground arith)
    | inr (c, g) ↦
        let entry = get-All Entry p c t.panes g v.containers in
        elim (add_lem c s entry.1) [
          | inl (_, r) ↦ absurd (ground arith)
          | inr (c', r, vc, es, _) ↦
              let e' : t' ≡ record t { panes = insert p c' t.panes } = ground arith in
              rw e' (with_container t p c c' v g (added_id c s c' r) vc)
        ]
  ]

  pub select_surface-IsValid :
      (t : TabModel F T B) (p : PaneId) (id : SurfaceId)
      → IsValid t
      → IsValid (select_surface t p id).0
  unfolding select_surface
  select_surface-IsValid t p id v = elim (Option-cases (get p t.panes)) [
    | inl n ↦ rw (select_surface, n) v
    | inr (c, g) ↦
        let entry = get-All Entry p c t.panes g v.containers in
        rw (g, select_surface)
          (with_container t p c (Runtime.select c id).0 v g (selected_id c id)
            (select_lem c id entry.1).0)
  ]
