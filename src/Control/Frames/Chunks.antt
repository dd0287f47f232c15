-- ===== src/Control/Frames/Chunks.antt =====
-- A byte stream that arrives in pieces.
use mathlib.Core.Option
use mathlib.Core.List.{append_assoc}
use kitmux_linux.Base.{
  ℕ, ◌≡◌, refl, ap, ◌∙◌, inl, inr, true, false, ◌&&◌, none, some, List, [], ◌∷◌, ◌++◌, map, ◌==◌,
  leb, length, arith, All, Bool-cases, ◌≤◌,
}
use kitmux_linux.Base.Result.{ok, if-ok}
use kitmux_linux.Control.Frames.{Bytes, LineFrameDecoder, newline, last, is_byte, push}
use kitmux_linux.Control.Frames.Lines.{
  lines, strip, first_line, all_fit, outcome, delivered, push_refines, lines_line,
}

-- A byte that is no newline, in front of a stream.
first_line-append :
    (x : ℕ) (p : List Bytes × Bytes) (ys : Bytes)
    → (x == 10) ≡ false
    → first_line x (p.0 ++ (lines (p.1 ++ ys)).0, (lines (p.1 ++ ys)).1) ≡ (
      (first_line x p).0 ++ (lines ((first_line x p).1 ++ ys)).0,
      (lines ((first_line x p).1 ++ ys)).1,
    )
unfolding lines
first_line-append x ([], r) ys e = rw e refl
first_line-append x (l ∷ ls, r) ys e = refl

pub lines-append :
    (xs ys : Bytes)
    → lines (xs ++ ys)
      ≡ ((lines xs).0 ++ (lines ((lines xs).1 ++ ys)).0, (lines ((lines xs).1 ++ ys)).1)
unfolding lines
lines-append [] ys = refl
lines-append (x ∷ xs) ys = elim (Bool-cases (x == 10)) [
  | inl e ↦ rw (lines-append xs ys, e) refl
  | inr e ↦ rw (lines-append xs ys, e) (first_line-append x (lines xs) ys e)
]

all_fit-append :
    (n : ℕ) (xs ys : List Bytes) → all_fit n (xs ++ ys) ≡ (all_fit n xs && all_fit n ys)
all_fit-append n [] ys = refl
all_fit-append n (x ∷ xs) ys = ground (arith, all_fit-append n xs ys)

map_append : (xs ys : List Bytes) → map strip (xs ++ ys) ≡ map strip xs ++ map strip ys
map_append [] ys = refl
map_append (x ∷ xs) ys = rw (map_append xs ys) refl

-- What a push that succeeds has seen.
delivered-ok :
    (d d' : LineFrameDecoder) (z : List Bytes × Bytes) (fs : List Bytes)
    → delivered d z ≡ ok (fs, d')
    → (all_fit d.maximum_bytes (map strip z.0) ≡ true)
      × (leb (length (strip z.1)) d.maximum_bytes ≡ true)
      × (map strip z.0 ≡ fs)
      × (record d { buffered = z.1 } ≡ d')
unfolding delivered
delivered-ok d d' (ls, rest) fs h =
    let (t, e) = if-ok _ _ _ h in
    (ground (arith, t), ground (arith, t), ap (λ t. t.0) e, ap (λ t. t.1) e)

pushed :
    (d d' : LineFrameDecoder) (a : Bytes) (fs : List Bytes)
    → push d a ≡ some (ok fs, d')
    → delivered d (lines (d.buffered ++ a)) ≡ ok (fs, d')
pushed d d' a fs h =
    let r = push_refines d a in
    let e : Option.map outcome (push d a) ≡ some (ok (fs, d')) = rw h refl in cc

-- If pushing some bytes succeeds and then pushing further bytes succeeds, pushing all of them at
-- once delivers the frames of both pushes and leaves the same decoder.
pub push_chunks :
    (d d' d'' : LineFrameDecoder) (a b : Bytes) (fs gs : List Bytes)
    → push d a ≡ some (ok fs, d')
    → push d' b ≡ some (ok gs, d'')
    → Option.map outcome (push d (a ++ b)) ≡ some (ok (fs ++ gs, d''))
unfolding delivered
push_chunks d d' d'' a b fs gs h k =
    let z = lines (d.buffered ++ a) in
    let (fit, _, ef, ed) = delivered-ok d d' z fs (pushed d d' a fs h) in
    let y = lines (d'.buffered ++ b) in
    let (fit', rest, ef', ed') = delivered-ok d' d'' y gs (pushed d' d'' b gs k) in
    let eb : z.1 ≡ d'.buffered = ap (λ r. r.buffered) ed in
    let em : d.maximum_bytes ≡ d'.maximum_bytes = ap (λ r. r.maximum_bytes) ed in
    let e : lines (d.buffered ++ (a ++ b)) ≡ (z.0 ++ y.0, y.1) =
      rw (← append_assoc d.buffered a b, lines-append (d.buffered ++ a) b, eb) refl in
    let ea = all_fit-append d.maximum_bytes (map strip z.0) (map strip y.0) in
    push_refines d (a ++ b)
    ∙ rw (e, map_append z.0 y.0, ea, fit, em, fit', rest)
        (rw (ef, ef') (ap (λ d. some (ok (fs ++ gs, d))) ed'))

-- Frames as a peer writes them: each with a newline behind it.
unfoldable pub encode : List Bytes → Bytes
encode [] = []
encode (f ∷ fs) = f ++ 10 ∷ encode fs

-- A payload of at most n bytes that has no newline and does not end in a carriage return.
abbrev pub IsPayload : ℕ → Bytes → Type 0
IsPayload n f = (newline f ≡ none) × (is_byte 13 (last f) ≡ false) × (length f ≤ n)

encoded_lines :
    (n : ℕ) (fs : List Bytes)
    → All (IsPayload n) fs
    → (lines (encode fs) ≡ (fs, [])) × (map strip fs ≡ fs) × (all_fit n fs ≡ true)
unfolding encode lines strip
encoded_lines n [] a = (refl, refl, refl)
encoded_lines n (f ∷ fs) ((none_here, no_cr, le), a) =
    let (el, es, ef) = encoded_lines n fs a in
    (rw (lines_line (encode fs) f none_here, el) refl, rw (no_cr, es) refl, ground (arith, ef, le))

-- A decoder that has received nothing.
abbrev pub empty_decoder : ℕ → LineFrameDecoder
empty_decoder n = record { maximum_bytes = n; buffered = [] }

-- Frames that are written one after the other are read as they were.
pub push-encode :
    (n : ℕ) (fs : List Bytes)
    → All (IsPayload n) fs
    → Option.map outcome (push (empty_decoder n) (encode fs)) ≡ some (ok (fs, empty_decoder n))
unfolding delivered strip
push-encode n fs a =
    let (el, es, ef) = encoded_lines n fs a in
    push_refines (empty_decoder n) (encode fs) ∙ rw (el, es, ef) (ground arith)
