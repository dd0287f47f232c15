-- ===== src/Model/Selection/Laws.antt =====
-- What moving and removing members does to the active one.
use kitmux_linux.Base.{
  ℕ, suc, ◌-◌, ◌<◌, ◌≤◌, ◌≡◌, ◌↔◌, ◌⊎◌, ◌≢◌, refl, sym, ap, ◌∙◌, inl, inr, Bool, true, false, ◌||◌,
  none, some, List, [], map, ◌==◌, ltb, leb, min, length, get_elem?, if◌then◌else◌, arith, Distinct,
  elem, Bool-cases, Option-cases, ==_iff,
}
use kitmux_linux.Base.Adds.{Adds, Adds-Distinct, Distinct-Adds}
use kitmux_linux.Base.Unique.{insert_all, insert_all_sound, insert_all_complete, Apart-nil}
use kitmux_linux.Base.Vec.{
  position, remove_at, insert_at, get_elem?-some, lt_of_get, length-remove_at, length-insert_at,
  get_elem?-remove_at, get_elem?-insert_at, get_elem?-insert_at_shift, position_sound,
  position_complete, remove_at-Adds, insert_at-Adds, Distinct-get, position-elem,
  remove_at-insert_at,
}
use kitmux_linux.Model.Selection.{all_unique, remove_selected, relocate, move_selected}

-- The check all_unique accepts exactly the sequences in which no value occurs twice.
pub all_unique-Distinct : (xs : List ℕ) → (all_unique xs ≡ true) ↔ Distinct xs
unfolding all_unique
all_unique-Distinct xs = (sound, complete)
  where
    sound : all_unique xs ≡ true → Distinct xs
    sound h = elim (Option-cases (insert_all xs [])) [
      | inl e ↦ absurd (ground arith)
      | inr (t, e) ↦ (insert_all_sound xs [] t e).0
    ]

    complete : Distinct xs → all_unique xs ≡ true
    complete d = let (t, e) = insert_all_complete xs [] d (Apart-nil xs) in ground arith

-- The members have distinct identifiers and the active index is that of a member.
pub record IsSelection {A : Type 0} (id : A → ℕ) (values : List A) (active : ℕ) : Type 0 where
  pub in_range : active < length values
  pub distinct : Distinct (map id values)

module _ {A : Type 0} (id : A → ℕ) (values : List A) (active : ℕ) where
  -- Removal is refused exactly for the last member and for an index out of range.
  pub remove_selected-none :
      (i : ℕ)
      → (remove_selected values active i ≡ none)
        ↔ ((leb (length values) 1 || leb (length values) i) ≡ true)
  unfolding remove_selected
  remove_selected-none i = (sound, complete)
    where
      sound :
          remove_selected values active i ≡ none
          → (leb (length values) 1 || leb (length values) i) ≡ true
      sound h = elim (Bool-cases (leb (length values) i)) [
        | inl e ↦ ground arith
        | inr e ↦ let (x, g) = get_elem?-some values i (ground arith) in ground arith
      ]

      complete :
          (leb (length values) 1 || leb (length values) i) ≡ true
          → remove_selected values active i ≡ none
      complete h = rw h

  pub record Removes (i : ℕ) (x : A) (rest : List A) (active' : ℕ) : Type 0 where
    pub removed : get_elem? values i ≡ some x
    pub selection : IsSelection id rest active'
    pub members : Adds (id x) (map id rest) (map id values)
    pub others : rest ≡ remove_at values i
    pub kept : (active ≡ i) ⊎ (get_elem? rest active' ≡ get_elem? values active)

  -- Where a removal from members with distinct identifiers, one of them active, succeeds, it
  -- hands over the member at the index and leaves the others, still with distinct identifiers and
  -- one of them active; the active member is the same, unless it was at the index.
  pub remove_selected_lem :
      (i : ℕ) (x : A) (rest : List A) (active' : ℕ)
      → IsSelection id values active
      → remove_selected values active i ≡ some (x, rest, active')
      → Removes i x rest active'
  unfolding remove_selected
  remove_selected_lem i x rest active' v h =
      let two : 1 < length values = ground arith in
      let lt : i < length values = ground arith in
      let g : get_elem? values i ≡ some x = ground arith in
      let er : rest ≡ remove_at values i = ground arith in
      let len = length-remove_at values i lt in
      let ea : active' ≡ (
          if active == i
          then min i (length rest - 1)
          else if ltb i active
          then active - 1
          else active) =
        ground arith in
      let adds = remove_at-Adds id values i x g in
      record {
        removed = g;
        selection = record {
          in_range = ground arith;
          distinct = rw er ((Distinct-Adds adds v.distinct).1);
        };
        members = rw er adds;
        others = er;
        kept = elim (Bool-cases (active == i)) [
          | inl e ↦ inl ((==_iff active i).0 e)
          | inr e ↦ inr (rw er (ground (arith, get_elem?-remove_at values i active')))
        ];
      }

  -- The member that stands at `k` stands somewhere after another one has moved.
  relocated :
      (source target k : ℕ) (moved a : A)
      → target < length values
      → get_elem? values source ≡ some moved
      → get_elem? values k ≡ some a
      → (j : ℕ) × (get_elem? (insert_at (remove_at values source) target moved) j ≡ some a)
  relocated source target k moved a ht hs hk =
      let lt = lt_of_get values source moved hs in
      let len = length-remove_at values source lt in
      let rest = remove_at values source in
      elim (Bool-cases (k == source)) [
        | inl e ↦ (
          target,
          get_elem?-insert_at rest target moved (omega arith)
              ∙ sym hs
              ∙ ap (get_elem? values) (sym ((==_iff k source).0 e))
              ∙ hk,
        )
        | inr e ↦
            let k' : ℕ = if ltb k source then k else k - 1 in
            let g : get_elem? rest k' ≡ some a =
              ground (arith, get_elem?-remove_at values source k', hk) in
            (
              (if ltb k' target then k' else suc k'),
              get_elem?-insert_at_shift rest target moved k' (omega arith) ∙ g,
            )
      ]

  -- Nothing to do: the target is out of range, or no member has the identifier, or the one that has
  -- it stands at the target already.
  abbrev pub Idle : ℕ → ℕ → List A → Type 0
  Idle i target values' =
      (values' ≡ values)
      × ((length values ≤ target)
          ⊎ (elem (map id values) i ≡ false)
          ⊎ ((x : A) × (get_elem? values target ≡ some x) × (id x ≡ i)))

  -- The member with the identifier has gone from its place to the target, past the others, which keep
  -- their order.
  abbrev pub Moved : ℕ → ℕ → List A → Type 0
  Moved i target values' =
      (target < length values)
      × ((source : ℕ) × (x : A) × (get_elem? values source ≡ some x)
          × (id x ≡ i)
          × (source ≢ target)
          × (get_elem? values' target ≡ some x)
          × (remove_at values' target ≡ remove_at values source))

  pub record Moves (i target : ℕ) (values' : List A) (active' : ℕ) (moved : Bool) : Type 0 where
    pub selection : IsSelection id values' active'
    pub same_active : get_elem? values' active' ≡ get_elem? values active
    pub same_length : length values' ≡ length values
    pub outcome : (moved ≡ false) × Idle i target values' ⊎ (moved ≡ true) × Moved i target values'

  relocate_lem :
      (i source target : ℕ) (a x : A)
      → IsSelection id values active
      → target < length values
      → get_elem? values active ≡ some a
      → get_elem? values source ≡ some x
      → id x ≡ i
      → source ≢ target
      → (values' : List A) × (active' : ℕ) × (relocate id values source target (some a) (some x)
          ≡ some (values', active', true))
        × Moves i target values' active' true
  unfolding relocate
  relocate_lem i source target a x v ht ha hx e ne =
      let lt = lt_of_get values source x hx in
      let len = length-remove_at values source lt in
      let rest = remove_at values source in
      let values' = insert_at rest target x in
      let removed = Distinct-Adds (remove_at-Adds id values source x hx) v.distinct in
      let distinct = Adds-Distinct (insert_at-Adds id rest target x) removed.0 removed.1 in
      let (j, g) = relocated source target active x a ht hx ha in
      let (k, p) =
        position_complete (λ value. id value == id a) values' j a g
          ((==_iff (id a) (id a)).1 refl) in
      let (y, gy, ey) = position_sound (λ value. id value == id a) values' k p in
      let same : k ≡ j =
        Distinct-get id values' k j y a distinct gy g ((==_iff (id y) (id a)).0 ey) in
      let gk : get_elem? values' k ≡ some a = rw same g in
      (
        values',
        k,
        rw p,
        record {
          selection = record { in_range = lt_of_get values' k a gk; distinct = distinct };
          same_active = gk ∙ sym ha;
          same_length = length-insert_at rest target x ∙ len;
          outcome = inr (
            refl,
            (
              ht,
              (
                source,
                x,
                hx,
                e,
                ne,
                get_elem?-insert_at rest target x (omega arith),
                remove_at-insert_at rest target x (omega arith),
              ),
            ),
          );
        },
      )

  stays :
      (i target : ℕ)
      → IsSelection id values active
      → Idle i target values
      → Moves i target values active false
  stays i target v idle = record {
    selection = v;
    same_active = refl;
    same_length = refl;
    outcome = inl (refl, idle);
  }

  -- On members with distinct identifiers, one of them active, a move never panics; it leaves such
  -- members, as many as before, with the same member active. It reports true exactly if the
  -- target is in range and the member with the identifier stands elsewhere; then that member
  -- stands at the target, and the others are in the order they had. Otherwise nothing has moved.
  pub move_selected_lem :
      (i target : ℕ)
      → IsSelection id values active
      → (values' : List A) × (active' : ℕ) × (moved : Bool) × (move_selected id values active i
            target
          ≡ some (values', active', moved))
        × Moves i target values' active' moved
  unfolding move_selected
  move_selected_lem i target v = elim (Bool-cases (leb (length values) target)) [
    | inl e ↦ (values, active, false, rw e, stays i target v (refl, inl (ground arith)))
    | inr e ↦ elim (Option-cases (position (λ value. id value == i) values)) [
      | inl e' ↦
          let absent : elem (map id values) i ≡ false = rw e' at (position-elem id values i) in
          (values, active, false, rw (e, e'), stays i target v (refl, inr (inl absent)))
      | inr (source, e') ↦ elim (Bool-cases (source == target)) [
        | inl e'' ↦
            let (x, hx, ex) = position_sound (λ value. id value == i) values source e' in
            let at_target : get_elem? values target ≡ some x =
              ap (get_elem? values) (sym ((==_iff source target).0 e'')) ∙ hx in
            (
              values,
              active,
              false,
              rw (e, e', e''),
              stays i target v (refl, inr (inr (x, at_target, (==_iff (id x) i).0 ex))),
            )
        | inr e'' ↦
            let (a, ha) = get_elem?-some values active v.in_range in
            let (x, hx, ex) = position_sound (λ value. id value == i) values source e' in
            let (values', active', r, m) =
              relocate_lem i source target a x v (ground arith) ha hx ((==_iff (id x) i).0 ex)
                (λ same. absurd (ground (arith, e'', (==_iff source target).1 same))) in
            (values', active', true, rw (e, e', e'', ha, hx) r, m)
      ]
    ]
  ]
