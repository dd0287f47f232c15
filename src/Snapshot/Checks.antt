-- ===== src/Snapshot/Checks.antt =====
-- The steps of the checks of a saved session.
use mathlib.Core.Option
use kitmux_linux.Base.{
  ℕ, suc, ◌≡◌, ◌<◌, refl, ap, ◌∙◌, true, false, some, List, [], ◌∷◌, ◌++◌, concat_map, length, elem,
  All, Distinct, arith, ==_iff,
}
use kitmux_linux.Base.Int.{ℤ, pos, negsuc, ◌≤ℤ◌}
use kitmux_linux.Base.Result.{Result, ok, ◌>>=◌, OnOk, bind-OnOk}
use kitmux_linux.Base.Unique.{insert_all, insert_all-append}
use kitmux_linux.Ids.{WorkspaceId, PaneId}
use kitmux_linux.Split.{SplitNode, pane, split, pane_ids}
use kitmux_linux.Split.Panes.{pane_ids-pane, pane_ids-split}
use kitmux_linux.Snapshot.Details.{clamp_index}
use kitmux_linux.Snapshot.{at_least, non_empty, first_or}

-- An index of a list of that length.
abbrev pub InRange : ℤ → ℕ → Type 0
InRange i n = (k : ℕ) × (i ≡ pos k) × (k < n)

pub clamp_index-InRange : (i : ℤ) (n : ℕ) → 0 < n → InRange (clamp_index i n) n
unfolding clamp_index
clamp_index-InRange (pos i) n h = (_, refl, ground (arith, h))
clamp_index-InRange (negsuc i) n h = (0, refl, h)

pub at_least_lem : (a : ℤ) (n : ℕ) → pos n ≤ℤ at_least a n
unfolding at_least
at_least_lem (pos a) n = ground arith
at_least_lem (negsuc a) n = ground arith

pub first_or-elem :
    (id : PaneId) (ids : List PaneId) → non_empty ids ≡ true → elem ids (first_or id ids) ≡ true
unfolding elem
first_or-elem id [] h = absurd (ground (arith, h))
first_or-elem id (p ∷ ps) h = ground (arith, ==_iff p p)

non_empty-append : (xs ys : List PaneId) → non_empty xs ≡ true → non_empty (xs ++ ys) ≡ true
non_empty-append [] ys h = absurd (ground (arith, h))
non_empty-append (x ∷ xs) ys h = refl

pub pane_ids_some : {F : Type 0} (n : SplitNode F) → non_empty (pane_ids n) ≡ true
pane_ids_some {F} (pane i) = rw (pane_ids-pane F) refl
pane_ids_some (split s a r m n) =
    rw pane_ids-split (non_empty-append (pane_ids m) (pane_ids n) (pane_ids_some m))

-- What has been checked, with the panes inserted into the set.
abbrev pub Inserted :
    {A : Type 0} → (A → Type 0) → (A → List PaneId) → List PaneId → A × List PaneId → Type 0
Inserted P ids panes (a, panes') = P a × (insert_all (ids a) panes ≡ some panes')

-- As many as before, each checked.
abbrev pub AllOf : {A : Type 0} → (A → Type 0) → ℕ → List A → Type 0
AllOf P n xs = (length xs ≡ n) × All P xs

-- A list whose members are checked one after the other.
pub checked_list :
    {A E : Type 0} {P : A → Type 0} {n : ℕ} (ids : A → List PaneId) (panes : List PaneId)
    (m : Result (A × List PaneId) E) (rest : List PaneId → Result (List A × List PaneId) E)
    → OnOk (Inserted P ids panes) m
    → ((panes' : List PaneId) → OnOk (Inserted (AllOf P n) (concat_map ids) panes') (rest panes'))
    → OnOk
        (Inserted (AllOf P (suc n)) (concat_map ids) panes)
        (m >>= λ (x, panes'). (rest panes' >>= λ (xs, panes''). ok (x ∷ xs, panes'')))
unfolding Option.bind
checked_list ids panes m rest h k = bind-OnOk m _ h λ (x, panes') (p, e).
    bind-OnOk (rest panes') _ (k panes') λ (xs, panes'') ((l, a), e').
      OnOk.on_ok
        ((ap suc l, (p, a)), insert_all-append (ids x) (concat_map ids xs) panes ∙ rw (e, e') refl)

pub non_empty-length :
    {A B : Type 0} (xs : List A) (ys : List B)
    → non_empty xs ≡ true
    → length ys ≡ length xs
    → 0 < length ys
non_empty-length [] ys h e = absurd (ground (arith, h))
non_empty-length (x ∷ xs) ys h e = omega (arith, e)

-- The identifiers are distinct, and none has been seen.
abbrev pub IsUnseen : List WorkspaceId → List WorkspaceId → Type 0
IsUnseen seen ids = Distinct ids × All (λ id. elem seen id ≡ false) ids

-- Identifiers that are apart from a set with one more.
pub unseen_rest :
    (id : WorkspaceId) (seen ids : List WorkspaceId)
    → All (λ i. elem (id ∷ seen) i ≡ false) ids
    → (elem ids id ≡ false) × All (λ i. elem seen i ≡ false) ids
unfolding elem
unseen_rest id seen [] a = (refl, tt)
unseen_rest id seen (x ∷ ids) (h, a) =
    let (rest, apart) = unseen_rest id seen ids a in
    (ground (arith, h, rest, ==_iff x id, ==_iff id x), (ground (arith, h), apart))
