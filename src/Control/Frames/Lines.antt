-- ===== src/Control/Frames/Lines.antt =====
-- The loop of `LineFrameDecoder::push` against a specification: the lines of a byte stream.
use mathlib.Core.Option
use kitmux_linux.Base.{
  ℕ, zero, suc, ◌-◌, ◌<◌, ◌≡◌, refl, ap, inl, inr, Bool, true, false, not, ◌&&◌, Option, none, some,
  List, [], ◌∷◌, ◌++◌, map, ◌==◌, leb, ltb, length, length-append, get_elem?, arith, if◌then◌else◌,
  Option-cases, Bool-cases,
}
use kitmux_linux.Base.Result.{Result, ok, err}
use kitmux_linux.Text.{take, drop}
use kitmux_linux.Control.{ControlCodecError}
use kitmux_linux.Control.Frames.{
  Bytes, LineFrameDecoder, too_large, newline, last, pop, is_byte, payload_bytes, frame_at, exceeds,
  Pushed, frame_before, drain, push,
}

abbrev pub first_line : ℕ → List Bytes × Bytes → List Bytes × Bytes
first_line x ([], rest) = ([], x ∷ rest)
first_line x (l ∷ ls, rest) = ((x ∷ l) ∷ ls, rest)

-- The complete lines of a stream, and what stands behind the last newline.
unfoldable pub lines : Bytes → List Bytes × Bytes
lines [] = ([], [])
lines (x ∷ xs) = let rest = lines xs in if x == 10 then ([] ∷ rest.0, rest.1) else first_line x rest

-- A line without the carriage return at its end.
unfoldable pub strip : Bytes → Bytes
unfolding last pop
strip l = if is_byte 13 (last l) then pop l else l

abbrev pub all_fit : ℕ → List Bytes → Bool
all_fit n [] = true
all_fit n (l ∷ ls) = leb (length l) n && all_fit n ls

-- A caller sees no buffer of a decoder that has failed.
abbrev pub outcome : Pushed → Result (List Bytes × LineFrameDecoder) ControlCodecError
outcome (ok frames, d) = ok (frames, d)
outcome (err e, d) = err e

-- The specification: all lines that are complete, and the rest, if every payload is in bounds.
unfoldable pub delivered :
    LineFrameDecoder → List Bytes × Bytes → Result (List Bytes × LineFrameDecoder) ControlCodecError
unfolding strip too_large
delivered d (ls, rest) =
    if all_fit d.maximum_bytes (map strip ls) && leb (length (strip rest)) d.maximum_bytes
    then ok (map strip ls, record d { buffered = rest })
    else err (too_large d)

length-pop : (l : Bytes) → length (pop l) ≡ length l - 1
unfolding pop
length-pop [] = refl
length-pop (x ∷ []) = refl
length-pop (x ∷ y ∷ xs) = omega (arith, length-pop (y ∷ xs))

-- The bytes up to the first newline, and those behind it.
newline_split :
    (xs : Bytes) (i : ℕ)
    → newline xs ≡ some i
    → (l : Bytes) × (r : Bytes) × (xs ≡ l ++ 10 ∷ r) × (length l ≡ i) × (newline l ≡ none)
unfolding newline
newline_split [] i h = absurd (ground arith)
newline_split (x ∷ xs) i h = elim (Bool-cases (x == 10)) [
  | inl e ↦ ([], xs, (let ex : x ≡ 10 = ground arith in rw ex refl), ground arith, refl)
  | inr e ↦ elim (Option-cases (newline xs)) [
    | inl n ↦ absurd (ground (arith, h, n, e))
    | inr (j, ej) ↦
        let (l, r, ex, el, en) = newline_split xs j ej in
        (x ∷ l, r, rw (← ex) refl, ground (arith, h, ej, e), ground (arith, e, en))
  ]
]

newline-none :
    (x : ℕ) (l : Bytes) → newline (x ∷ l) ≡ none → ((x == 10) ≡ false) × (newline l ≡ none)
unfolding newline
newline-none x l n = elim (Bool-cases (x == 10)) [
  | inl e ↦ absurd (ground (arith, n, e))
  | inr e ↦ elim (Option-cases (newline l)) [
    | inl m ↦ (e, m)
    | inr (j, ej) ↦ absurd (ground (arith, n, e, ej))
  ]
]

-- What the code computes from the index of the newline, for a line and the bytes behind it.
module _ (r : Bytes) where
  pop_line : (l : Bytes) → pop (take (suc (length l)) (l ++ 10 ∷ r)) ≡ l
  unfolding pop take
  pop_line [] = refl
  pop_line (x ∷ []) = refl
  pop_line (x ∷ y ∷ l) = rw (pop_line (y ∷ l)) refl

  drop_line : (l : Bytes) → drop (suc (length l)) (l ++ 10 ∷ r) ≡ r
  unfolding drop
  drop_line [] = refl
  drop_line (x ∷ l) = drop_line l

  last_line : (x : ℕ) (l : Bytes) → get_elem? (x ∷ l ++ 10 ∷ r) (length l) ≡ last (x ∷ l)
  unfolding last
  last_line x [] = refl
  last_line x (y ∷ l) = last_line y l

  payload_line : (l : Bytes) → payload_bytes (l ++ 10 ∷ r) (length l) ≡ length (strip l)
  unfolding payload_bytes strip last
  payload_line [] = refl
  payload_line (x ∷ l) =
      let n : suc (length l) - 1 ≡ length l = omega arith in
      let e : get_elem? (x ∷ l ++ 10 ∷ r) (suc (length l) - 1) ≡ last (x ∷ l) =
        rw n (last_line x l) in
      ground (arith, length-pop (x ∷ l), e)

  frame_line : (l : Bytes) → frame_at (l ++ 10 ∷ r) (length l) ≡ strip l
  unfolding frame_at strip
  frame_line l = rw (pop_line l) refl

  pub lines_line :
      (l : Bytes) → newline l ≡ none → lines (l ++ 10 ∷ r) ≡ (l ∷ (lines r).0, (lines r).1)
  unfolding lines newline
  lines_line [] n = refl
  lines_line (x ∷ l) n = let (e, n') = newline-none x l n in rw (lines_line l n', e) refl

lines-none : (l : Bytes) → newline l ≡ none → lines l ≡ ([], l)
unfolding lines newline
lines-none [] n = refl
lines-none (x ∷ l) n = let (e, n') = newline-none x l n in rw (lines-none l n', e) refl

exceeds_lem :
    (d : LineFrameDecoder) → exceeds d ≡ not (leb (length (strip d.buffered)) d.maximum_bytes)
unfolding exceeds strip
exceeds_lem d = ground (arith, length-pop d.buffered)

-- One round of the loop: the line up to the first newline, and then the bytes behind it.
delivered_line :
    (d : LineFrameDecoder) (l : Bytes) (ls : List Bytes × Bytes) (o : Option Pushed)
    → Option.map outcome o ≡ some (delivered d ls)
    → Option.map outcome (
        if ltb d.maximum_bytes (length (strip l))
        then some (err (too_large d), d)
        else Option.map (frame_before (strip l)) o)
      ≡ some (delivered d (l ∷ ls.0, ls.1))
unfolding delivered
delivered_line d l ls none h = absurd (ground (arith, h))
delivered_line d l ls (some (ok frames, d')) h = ground (arith, h)
delivered_line d l ls (some (err e, d')) h = ground (arith, h)

-- The last round.
delivered_rest :
    (d : LineFrameDecoder)
    → Option.map outcome (some (if exceeds d then (err (too_large d), d) else (ok [], d)))
      ≡ some (delivered d ([], d.buffered))
unfolding delivered
delivered_rest d = ground (arith, exceeds_lem d)

drain_lem :
    (fuel : ℕ) (d : LineFrameDecoder)
    → length d.buffered < fuel
    → Option.map outcome (drain fuel d) ≡ some (delivered d (lines d.buffered))
unfolding drain delivered
drain_lem zero d h = absurd (omega arith)
drain_lem (suc fuel) d h = elim (Option-cases (newline d.buffered)) [
  | inl n ↦ rw (n, drain, lines-none d.buffered n) (delivered_rest d)
  | inr (i, n) ↦
      let (l, r, e, el, en) = newline_split d.buffered i n in
      let ed : drop (suc i) d.buffered ≡ r = rw (e, ← el) (drop_line r l) in
      let ep : payload_bytes d.buffered i ≡ length (strip l) = rw (e, ← el) (payload_line r l) in
      let ef : frame_at d.buffered i ≡ strip l = rw (e, ← el) (frame_line r l) in
      let ez : lines d.buffered ≡ (l ∷ (lines r).0, (lines r).1) = rw e (lines_line r l en) in
      let en' : length d.buffered ≡ length (l ++ 10 ∷ r) = ap length e in
      let b : length r < fuel = omega (arith, length-append l (10 ∷ r)) in
      let rest = drain_lem fuel (record d { buffered = r }) b in
      rw (n, drain, ed, ep, ef, ez) (delivered_line d l (lines r) _ rest)
]

-- Pushing bytes into a decoder never runs out of the fuel of its loop, and does what the
-- specification says: of the bytes buffered before and the new ones it delivers the lines that a
-- newline ends, each without a carriage return at its end, and keeps the rest, if each of them
-- and the rest without its carriage return is at most maximum_bytes long; otherwise it fails with
-- the error of that size.
pub push_refines :
    (d : LineFrameDecoder) (bytes : Bytes)
    → Option.map outcome (push d bytes) ≡ some (delivered d (lines (d.buffered ++ bytes)))
unfolding push delivered
push_refines d bytes =
    drain_lem (suc (length (d.buffered ++ bytes))) (record d { buffered = d.buffered ++ bytes })
      (omega arith)
