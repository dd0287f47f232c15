-- ===== src/Model/Tab/Valid.antt =====
-- What a valid tab is, and the construction of one.
use kitmux_linux.Base.{ℕ, ◌≡◌, refl, true, none, List, [], ◌∷◌, elem, arith, All, Distinct}
use kitmux_linux.Base.Map.{insert, keys, insert-Distinct, insert-All}
use kitmux_linux.Base.Result.{Result, ok, err}
use kitmux_linux.Ids.{PaneId, TabId}
use kitmux_linux.Float.{Float}
use kitmux_linux.Split.{SplitNode, SplitAxis, has_unique_ids_and_valid_ratios}
use kitmux_linux.Split
use kitmux_linux.Split.Valid.{IsWellFormed, has_unique_ids-iff-IsWellFormed}
use kitmux_linux.Runtime.{PaneContainer}
use kitmux_linux.Runtime.Container
use kitmux_linux.Model.Error.{ModelError}
use kitmux_linux.Model.Tab.{TabModel, subset, same_set, register, new_tab}

subset-elem : (xs ys : List ℕ) (i : ℕ) → subset xs ys ≡ true → elem xs i ≡ true → elem ys i ≡ true
unfolding subset elem
subset-elem [] ys i h k = absurd (ground arith)
subset-elem (x ∷ xs) ys i h k = ground (arith, subset-elem xs ys i)

-- Equal sets have the same elements.
pub same_set-elem : (xs ys : List ℕ) (i : ℕ) → same_set xs ys ≡ true → elem ys i ≡ elem xs i
unfolding same_set
same_set-elem xs ys i h = ground (arith, subset-elem xs ys i, subset-elem ys xs i)

module _ {T B : Type 0} where
  -- The container of a pane is registered under its own identifier and is valid.
  abbrev pub Entry : PaneId × PaneContainer T B → Type 0
  Entry e = (e.1.id ≡ e.0) × Container.IsValid e.1

  pub register-IsValid :
      (ps : List (PaneContainer T B)) (m m' : List (PaneId × PaneContainer T B))
      → All Container.IsValid ps
      → Distinct (keys m)
      → All Entry m
      → register ps m ≡ ok m'
      → Distinct (keys m') × All Entry m'
  unfolding register
  register-IsValid [] m m' v d a h = let e : m ≡ m' = cc in rw (← e) (d, a)
  register-IsValid (p ∷ ps) m m' v d a h =
      register-IsValid ps (insert p.id p m) m' v.1 (insert-Distinct p.id p m d)
        (insert-All Entry p.id p m (refl, v.0) a) (ground arith)

module _ {F T B : Type 0} ⦃f : Float F⦄ where
  pub record IsValid (t : TabModel F T B) : Type 0 where
    pub tree : IsWellFormed t.root
    pub registry : Distinct (keys t.panes)
    pub agree : (p : PaneId) → elem (keys t.panes) p ≡ elem (Split.pane_ids t.root) p
    pub focused : elem (Split.pane_ids t.root) t.focused_pane_id ≡ true
    pub containers : All Entry t.panes

  -- A tab that TabModel::new builds from valid containers is valid: its tree is well formed, the
  -- tree and the registry have the same panes, each container is registered under its own
  -- identifier, and the focus is on a pane of the tree.
  pub new_tab-IsValid :
      (id : TabId) (root : SplitNode F) (focused : PaneId) (ps : List (PaneContainer T B))
      (t : TabModel F T B)
      → All Container.IsValid ps
      → new_tab id root focused ps ≡ ok t
      → IsValid t
  unfolding new_tab
  new_tab-IsValid id root focused ps t v h = go (register ps []) refl
    where
      go :
          (r : Result (List (PaneId × PaneContainer T B)) ModelError)
          → register ps [] ≡ r
          → IsValid t
      go (err e) er = absurd (ground arith)
      go (ok m) er =
          let reg = register-IsValid ps [] m v tt tt er in
          let w : has_unique_ids_and_valid_ratios root ≡ true = ground arith in
          let s : same_set (Split.pane_ids root) (keys m) ≡ true = ground arith in
          let g : elem (Split.pane_ids root) focused ≡ true = ground arith in
          let e : t ≡ record {
            id = id;
            custom_title = none;
            root = root;
            focused_pane_id = focused;
            panes = m;
          } =
            ground arith in
          rw e (record {
            tree = (has_unique_ids-iff-IsWellFormed root).0 w;
            registry = reg.0;
            agree = λ p. same_set-elem (Split.pane_ids root) (keys m) p s;
            focused = g;
            containers = reg.1;
          })
