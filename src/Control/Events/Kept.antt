-- ===== src/Control/Events/Kept.antt =====
-- The events that a history keeps.
use mathlib.Core.List.{append_assoc, append-nil}
use kitmux_linux.Base.{
  ℕ, zero, suc, ◌+◌, ◌-◌, ◌%◌, ◌^◌, ◌≡◌, ◌<◌, refl, sym, ap, ◌∙◌, inl, inr, true, List, [], ◌∷◌,
  ◌++◌, ltb, length, length-append, arith, Bool-cases,
}
use kitmux_linux.Control.Events.{
  ControlEvent, ControlEventHistory, Call, no_events, pop_oldest, event_of, record_event,
}

-- The calls of a session, one after the other.
abbrev pub recorded : ControlEventHistory → List Call → ControlEventHistory
recorded h [] = h
recorded h (c ∷ cs) = recorded (record_event h c) cs

-- All events of the calls, with consecutive cursors from the one after n on.
abbrev pub numbered : ℕ → List Call → List ControlEvent
numbered n [] = []
numbered n (c ∷ cs) = event_of (suc n) c ∷ numbered (suc n) cs

-- All but the first n events.
abbrev pub skip_events : ℕ → List ControlEvent → List ControlEvent
skip_events zero es = es
skip_events (suc n) [] = []
skip_events (suc n) (e ∷ es) = skip_events n es

-- The loop leaves the last 512 events.
pop_oldest_lem : (es : List ControlEvent) → pop_oldest es ≡ skip_events (length es - 512) es
unfolding pop_oldest
pop_oldest_lem [] = refl
pop_oldest_lem (e ∷ es) = elim (Bool-cases (ltb 512 (length (e ∷ es)))) [
  | inl h ↦
      let n : suc (length es) - 512 ≡ suc (length es - 512) = ground (arith, h) in
      rw (h, n) (pop_oldest_lem es)
  | inr h ↦ let n : suc (length es) - 512 ≡ 0 = ground (arith, h) in rw (h, n) refl
]

pop_oldest-append :
    (xs ys : List ControlEvent) → pop_oldest (pop_oldest xs ++ ys) ≡ pop_oldest (xs ++ ys)
unfolding pop_oldest
pop_oldest-append [] ys = refl
pop_oldest-append (x ∷ xs) ys = elim (Bool-cases (ltb 512 (length (x ∷ xs)))) [
  | inl h ↦
      let longer : ltb 512 (suc (length (xs ++ ys))) ≡ true =
        ground (arith, h, length-append xs ys) in
      rw (h, longer) (pop_oldest-append xs ys)
  | inr h ↦ rw h refl
]

recorded_lem :
    (cs : List Call) (h : ControlEventHistory) (log : List ControlEvent)
    → h.events ≡ pop_oldest log
    → h.next_cursor + length cs < 2 ^ 64
    → ((recorded h cs).events ≡ pop_oldest (log ++ numbered h.next_cursor cs))
      × ((recorded h cs).next_cursor ≡ h.next_cursor + length cs)
unfolding record_event
recorded_lem [] h log e few = (e ∙ ap pop_oldest (sym (append-nil log)), omega arith)
recorded_lem (c ∷ cs) h log e few =
    let n : (h.next_cursor + 1) % 2 ^ 64 ≡ suc h.next_cursor = omega (arith, few) in
    let event = event_of (suc h.next_cursor) c in
    let kept : pop_oldest (h.events ++ event_of ((h.next_cursor + 1) % 2 ^ 64) c ∷ [])
        ≡ pop_oldest (log ++ event ∷ []) =
      rw (n, e) (pop_oldest-append log (event ∷ [])) in
    let (es, m) =
      recorded_lem cs (record_event h c) (log ++ event ∷ []) kept (omega (arith, n, few)) in
    let all : pop_oldest (log ++ event ∷ [] ++ numbered ((h.next_cursor + 1) % 2 ^ 64) cs)
        ≡ pop_oldest (log ++ event ∷ numbered (suc h.next_cursor) cs) =
      rw (n, append_assoc log (event ∷ []) (numbered (suc h.next_cursor) cs)) refl in
    (es ∙ all, m ∙ omega (arith, n))

length-numbered : (n : ℕ) (cs : List Call) → length (numbered n cs) ≡ length cs
length-numbered n [] = refl
length-numbered n (c ∷ cs) = ap suc (length-numbered (suc n) cs)

-- After fewer than 2^64 calls of record, one after the other, a new history holds the last 512
-- events of the calls in their order, each with the number of its call as its cursor, and its
-- next cursor is the number of the calls.
pub recorded_events_lem :
    (cs : List Call)
    → length cs < 2 ^ 64
    → ((recorded no_events cs).events ≡ skip_events (length cs - 512) (numbered 0 cs))
      × ((recorded no_events cs).next_cursor ≡ length cs)
unfolding no_events pop_oldest
recorded_events_lem cs few =
    let (es, n) = recorded_lem cs no_events [] refl (omega (arith, few)) in
    (es ∙ pop_oldest_lem (numbered 0 cs) ∙ rw (length-numbered 0 cs) refl, n ∙ omega arith)
