-- ===== src/Shortcuts/Conflicts.antt =====
-- Chords and the bindings that have them.
use kitmux_linux.Base.{
  ◌≡◌, refl, ap, ◌∙◌, inl, inr, Bool, true, false, Option, none, some, List, [], ◌∷◌, if◌then◌else◌,
  arith, Bool-cases, ==_iff,
}
use kitmux_linux.Shortcuts.{
  ShortcutChord, same_bool, same_chord, enter, enter_all, from_bindings, lookup, flatten, resolve,
}

same_bool_sound : (a b : Bool) → same_bool a b ≡ true → a ≡ b
unfolding same_bool
same_bool_sound true true h = refl
same_bool_sound true false h = absurd (ground arith)
same_bool_sound false true h = absurd (ground arith)
same_bool_sound false false h = refl

same_bool_refl : (a : Bool) → same_bool a a ≡ true
unfolding same_bool
same_bool_refl true = refl
same_bool_refl false = refl

same_chord_sound : (a b : ShortcutChord) → same_chord a b ≡ true → a ≡ b
unfolding same_chord
same_chord_sound a b h =
    let k : a.key ≡ b.key = (==_iff a.key b.key).0 (ground arith) in
    let c = same_bool_sound a.control b.control (ground arith) in
    let s = same_bool_sound a.shift b.shift (ground arith) in
    let l = same_bool_sound a.alt b.alt (ground arith) in
    let u = same_bool_sound a.super_key b.super_key (ground arith) in cc

same_chord_refl : (a : ShortcutChord) → same_chord a a ≡ true
unfolding same_chord
same_chord_refl a =
    let k = (==_iff a.key a.key).1 refl in
    let c = same_bool_refl a.control in
    let s = same_bool_refl a.shift in
    let l = same_bool_refl a.alt in let u = same_bool_refl a.super_key in ground arith

same_chord_join :
    (a b c : ShortcutChord) → same_chord a c ≡ true → same_chord b c ≡ true → same_chord a b ≡ true
same_chord_join a b c h k =
    let ea = same_chord_sound a c h in
    let eb = same_chord_sound b c k in rw (ea, eb) (same_chord_refl c)

module _ {A : Type 0} where
  -- The actions that the bindings give a chord, in order.
  abbrev pub bound : List (ShortcutChord × A) → ShortcutChord → List A
  bound [] chord = []
  bound ((c, a) ∷ rest) chord =
      if same_chord c chord then a ∷ bound rest chord else bound rest chord

  -- The only element.
  abbrev pub sole : List A → Option A
  sole (a ∷ []) = some a
  sole _ = none

  -- What the map holds for a chord, from what it held and the actions entered since.
  entered : Option (Option A) → List A → Option (Option A)
  entered v [] = v
  entered none (a ∷ as') = entered (some (some a)) as'
  entered (some v) (a ∷ as') = some none

  lookup-enter :
      (chord c : ShortcutChord) (a : A) (m : List (ShortcutChord × Option A))
      → lookup (enter c a m) chord
        ≡ (if same_chord c chord then entered (lookup m chord) (a ∷ []) else lookup m chord)
  unfolding lookup enter entered
  lookup-enter chord c a [] = ground arith
  lookup-enter chord c a ((d, v) ∷ m) = elim (Bool-cases (same_chord d c)) [
    | inl e ↦ let s = same_chord_sound d c e in rw s (ground arith)
    | inr e ↦ elim (Bool-cases (same_chord d chord)) [
      | inl e' ↦
          let n : same_chord c chord ≡ false = ground (arith, same_chord_join d c chord) in
          rw (e, n, e', lookup) refl
      | inr e' ↦ rw (e, e', lookup) (lookup-enter chord c a m)
    ]
  ]

  entered_more :
      (v : Option (Option A)) (a : A) (as' : List A)
      → entered (entered v (a ∷ [])) as' ≡ entered v (a ∷ as')
  unfolding entered
  entered_more none a as' = refl
  entered_more (some v) a [] = refl
  entered_more (some v) a (b ∷ bs) = refl

  lookup-enter_all :
      (bs : List (ShortcutChord × A)) (m : List (ShortcutChord × Option A)) (chord : ShortcutChord)
      → lookup (enter_all bs m) chord ≡ entered (lookup m chord) (bound bs chord)
  unfolding enter_all entered
  lookup-enter_all [] m chord = refl
  lookup-enter_all ((c, a) ∷ bs) m chord =
      let r = lookup-enter_all bs (enter c a m) chord in
      let l = lookup-enter chord c a m in
      elim (Bool-cases (same_chord c chord)) [
        | inl e ↦ rw e (
            r
            ∙ ap (λ v. entered v (bound bs chord)) (l ∙ rw e refl)
            ∙ entered_more (lookup m chord) a (bound bs chord))
        | inr e ↦ rw e (r ∙ ap (λ v. entered v (bound bs chord)) (l ∙ rw e refl))
      ]

  -- A chord resolves, in the map made from a list of bindings, to the action of the only binding
  -- that has it; where no binding or more than one has it, it resolves to nothing.
  pub resolve-from_bindings :
      (bs : List (ShortcutChord × A)) (chord : ShortcutChord)
      → resolve (from_bindings bs) chord ≡ sole (bound bs chord)
  unfolding resolve from_bindings entered
  resolve-from_bindings bs chord =
      ap flatten (lookup-enter_all bs [] chord) ∙ flatten_sole (bound bs chord)
    where
      flatten_sole : (as' : List A) → flatten (entered none as') ≡ sole as'
      flatten_sole [] = refl
      flatten_sole (a ∷ []) = refl
      flatten_sole (a ∷ b ∷ bs) = refl
