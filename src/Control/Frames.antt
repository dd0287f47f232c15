-- ===== src/Control/Frames.antt =====
-- `LineFrameDecoder` of kitmux-linux/rust/model/src/control.rs: frames that end at a newline.
use mathlib.Core.Option
use kitmux_linux.Base.{
  ℕ, zero, suc, ◌+◌, ◌-◌, Bool, true, false, not, ◌&&◌, ◌||◌, Option, none, some, List, [], ◌∷◌,
  ◌++◌, ◌==◌, ltb, length, get_elem?, if◌then◌else◌,
}
use kitmux_linux.Base.Result.{Result, ok, err}
use kitmux_linux.Text.{take, drop}
use kitmux_linux.Control.{ControlCodecError, control_max_request_bytes, control_max_response_bytes}
pub mod Lines
pub mod Chunks

-- Bytes.
abbrev pub Bytes : Type 0
Bytes = List ℕ

pub record LineFrameDecoder : Type 0 where
  pub maximum_bytes : ℕ
  pub buffered : Bytes

-- `LineFrameDecoder::request` and `LineFrameDecoder::response`
unfoldable pub request : LineFrameDecoder
request = record { maximum_bytes = control_max_request_bytes; buffered = [] }

unfoldable pub response : LineFrameDecoder
response = record { maximum_bytes = control_max_response_bytes; buffered = [] }

unfoldable pub too_large : LineFrameDecoder → ControlCodecError
too_large d =
    if d.maximum_bytes == control_max_request_bytes
    then ControlCodecError.request_too_large
    else ControlCodecError.response_too_large

-- The index of the first newline.
unfoldable pub newline : Bytes → Option ℕ
newline [] = none
newline (x ∷ xs) = if x == 10 then some 0 else Option.map suc (newline xs)

unfoldable pub last : Bytes → Option ℕ
last [] = none
last (x ∷ []) = some x
last (x ∷ y ∷ xs) = last (y ∷ xs)

-- `Vec::pop`
unfoldable pub pop : Bytes → Bytes
pop [] = []
pop (x ∷ []) = []
pop (x ∷ y ∷ xs) = x ∷ pop (y ∷ xs)

abbrev pub is_byte : ℕ → Option ℕ → Bool
is_byte c none = false
is_byte c (some x) = x == c

unfoldable pub payload_bytes : Bytes → ℕ → ℕ
payload_bytes buffered index =
    if ltb 0 index && is_byte 13 (get_elem? buffered (index - 1)) then index - 1 else index

-- The frame that is drained up to the newline at the index.
unfoldable pub frame_at : Bytes → ℕ → Bytes
unfolding take last pop
frame_at buffered index =
    let frame = pop (take (suc index) buffered) in
    if is_byte 13 (last frame) then pop frame else frame

-- The bytes behind the last newline are too many, even for a payload with a carriage return.
unfoldable pub exceeds : LineFrameDecoder → Bool
unfolding last
exceeds d =
    let n = length d.buffered in
    ltb d.maximum_bytes n && not (n == d.maximum_bytes + 1 && is_byte 13 (last d.buffered))

-- What `push` answers, and the decoder after it.
abbrev pub Pushed : Type 0
Pushed = Result (List Bytes) ControlCodecError × LineFrameDecoder

abbrev pub frame_before : Bytes → Pushed → Pushed
frame_before frame (ok frames, d) = (ok (frame ∷ frames), d)
frame_before frame (err e, d) = (err e, d)

-- The loop of `push` and what follows it; `none` is out of fuel.
unfoldable pub drain : ℕ → LineFrameDecoder → Option Pushed
unfolding newline payload_bytes frame_at exceeds too_large drop
drain zero d = none
drain (suc fuel) d = elim (newline d.buffered) [
  | none ↦ some (if exceeds d then (err (too_large d), d) else (ok [], d))
  | some index ↦
      let rest = drain fuel (record d { buffered = drop (suc index) d.buffered }) in
      if ltb d.maximum_bytes (payload_bytes d.buffered index)
      then some (err (too_large d), d)
      else Option.map (frame_before (frame_at d.buffered index)) rest
]

unfoldable pub push : LineFrameDecoder → Bytes → Option Pushed
unfolding drain
push d bytes =
    let buffered = d.buffered ++ bytes in
    drain (suc (length buffered)) (record d { buffered = buffered })

unfoldable pub finish : LineFrameDecoder → Result (Unit {0}) ControlCodecError
finish d = elim d.buffered [ [] ↦ ok tt | _ ∷ _ ↦ err ControlCodecError.incomplete_frame ]
