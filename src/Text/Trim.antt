-- ===== src/Text/Trim.antt =====
-- Trimming a text.
use mathlib.Core.List.{reverse, reverse-reverse, reverse-append}
use kitmux_linux.Base.{
  ◌≡◌, refl, sym, ap, ◌∙◌, inl, inr, Bool, true, not, [], ◌∷◌, ◌++◌, arith, Bool-cases,
}
use kitmux_linux.Text.{Text, trim, trim_start, is_whitespace}

-- The text does not start with white space.
starts_plain : Text → Bool
starts_plain [] = true
starts_plain (c ∷ cs) = not (is_whitespace c)

trim_start-plain : (t : Text) → starts_plain (trim_start t) ≡ true
unfolding trim_start starts_plain
trim_start-plain [] = refl
trim_start-plain (c ∷ cs) = elim (Bool-cases (is_whitespace c)) [
  | inl e ↦ rw e (trim_start-plain cs)
  | inr e ↦ rw (e, e) refl
]

plain_trim_start : (t : Text) → starts_plain t ≡ true → trim_start t ≡ t
unfolding trim_start starts_plain
plain_trim_start [] h = refl
plain_trim_start (c ∷ cs) h = ground (arith, h)

-- What is trimmed stands in front.
trim_start_suffix : (t : Text) → (p : Text) × (t ≡ p ++ trim_start t)
unfolding trim_start
trim_start_suffix [] = ([], refl)
trim_start_suffix (c ∷ cs) =
    let (p, e) = trim_start_suffix cs in
    elim (Bool-cases (is_whitespace c)) [
      | inl w ↦ (c ∷ p, rw (w, ← e) refl)
      | inr w ↦ ([], rw w refl)
    ]

starts_plain-append : (a b : Text) → starts_plain (a ++ b) ≡ true → starts_plain a ≡ true
unfolding starts_plain
starts_plain-append [] b h = refl
starts_plain-append (c ∷ a) b h = h

plain_trim_end :
    (w : Text) → starts_plain w ≡ true → starts_plain (reverse (trim_start (reverse w))) ≡ true
plain_trim_end w h =
    let (p, e) = trim_start_suffix (reverse w) in
    let s = trim_start (reverse w) in
    let k : w ≡ reverse s ++ reverse p =
      sym (reverse-reverse w) ∙ ap reverse e ∙ reverse-append p s in
    starts_plain-append (reverse s) (reverse p) (rw (← k) h)

pub trim_idem : (t : Text) → trim (trim t) ≡ trim t
unfolding trim
trim_idem t =
    let w = trim_start t in
    let s = trim_start (reverse w) in
    let front : trim_start (reverse s) ≡ reverse s =
      plain_trim_start (reverse s) (plain_trim_end w (trim_start-plain t)) in
    let back : trim_start s ≡ s = plain_trim_start s (trim_start-plain (reverse w)) in
    rw (front, reverse-reverse s, back) refl
