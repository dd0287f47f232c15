-- ===== src/Control/Events.antt =====
-- `ControlEventHistory` of kitmux-linux/rust/model/src/control_socket.rs: the last events of the
-- control socket. A call is one step, though `record` takes its number before it takes the lock; the
-- time that has elapsed is an argument of the call.
use kitmux_linux.Base.{
  ℕ, zero, suc, ◌+◌, ◌%◌, ◌^◌, Bool, true, false, ◌&&◌, Option, none, some, List, [], ◌∷◌, ◌++◌,
  ltb, length, min, if◌then◌else◌,
}
use kitmux_linux.Text.{Text, starts_with}
pub mod Kept

abbrev pub control_max_event_history : ℕ
control_max_event_history = 512

pub record ControlEvent : Type 0 where
  pub cursor : ℕ
  pub method : Text
  pub request_id : Text
  pub ok : Bool
  pub peer_uid : ℕ
  pub monotonic_ms : ℕ

pub record ControlEventHistory : Type 0 where
  pub events : List ControlEvent
  pub next_cursor : ℕ

-- `ControlEventHistory::default`
unfoldable pub no_events : ControlEventHistory
no_events = record { events = []; next_cursor = 0 }

-- The loop that removes the oldest events.
unfoldable pub pop_oldest : List ControlEvent → List ControlEvent
pop_oldest [] = []
pop_oldest (e ∷ es) =
    let rest = pop_oldest es in
    if ltb control_max_event_history (length (e ∷ es)) then rest else e ∷ es

-- The arguments of a call of `record`, with the time.
pub record Call : Type 0 where
  pub method : Text
  pub request_id : Text
  pub ok : Bool
  pub peer_uid : ℕ
  pub monotonic_ms : ℕ

-- The event of a call, with a cursor of 64 bits.
abbrev pub event_of : ℕ → Call → ControlEvent
event_of cursor call = record {
  cursor = cursor;
  method = call.method;
  request_id = call.request_id;
  ok = call.ok;
  peer_uid = call.peer_uid;
  monotonic_ms = call.monotonic_ms;
}

-- `ControlEventHistory::record`
unfoldable pub record_event : ControlEventHistory → Call → ControlEventHistory
record_event h call =
    let cursor = (h.next_cursor + 1) % 2 ^ 64 in
    record { events = pop_oldest (h.events ++ event_of cursor call ∷ []); next_cursor = cursor }

abbrev pub in_category : Option Text → Text → Bool
in_category none method = true
in_category (some category) method = starts_with method category

-- The filter of `list`, and the events it takes.
unfoldable pub listed : ℕ → Option Text → List ControlEvent → List ControlEvent
listed after category [] = []
listed after category (e ∷ es) =
    let rest = listed after category es in
    if ltb after e.cursor && in_category category e.method then e ∷ rest else rest

abbrev pub take_events : ℕ → List ControlEvent → List ControlEvent
take_events zero es = []
take_events (suc n) [] = []
take_events (suc n) (e ∷ es) = e ∷ take_events n es

unfoldable pub list_events : ControlEventHistory → ℕ → ℕ → Option Text → List ControlEvent
list_events h after limit category = take_events (min limit 500) (listed after category h.events)

unfoldable pub cursor : ControlEventHistory → ℕ
cursor h = h.next_cursor
