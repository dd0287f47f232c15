-- ===== src/Tests/Protocol.antt =====
-- The theorems on the control protocol and the command line at concrete data.
use mathlib.Core.Option
use kitmux_linux.Base.{
  ℕ, ◌≡◌, ◌≤◌, ◌↔◌, refl, Bool, true, false, ◌&&◌, Option, none, some, List, [], ◌∷◌, ◌==◌, leb,
  length, All, ap, arith, if◌then◌else◌,
}
use kitmux_linux.Base.Int.{ℤ, pos, negsuc}
use kitmux_linux.Base.Result.{ok}
use kitmux_linux.Text.{
  Text, codes, same_text, byte_len, char_len, is_empty, any, is_control, take, drop,
}
use kitmux_linux.Text.Laws.{same_text_sound}
use kitmux_linux.Control.{ControlRequest, control_max_request_bytes, method_id, failure}
use kitmux_linux.Control.Method.{as_str, method_from_str, find_method}
use kitmux_linux.Control.Frames.{
  Bytes, LineFrameDecoder, push, drain, newline, payload_bytes, frame_at, exceeds, last, pop,
}
use kitmux_linux.Control.Frames.Lines.{outcome, lines, delivered, push_refines}
use kitmux_linux.Control.Frames.Chunks.{encode, empty_decoder, push_chunks}
use kitmux_linux.Control.Codec.{
  Json, valid_param, valid_params, validate_control_params, valid_envelope, encode_control_request,
  decode_control_request, decode_control_response,
}
use kitmux_linux.Control.Codec.Bounds.{
  IsRequest, IsResponse, decode_control_request_iff, decode_control_response_iff,
}
use kitmux_linux.Control.Codec.Wire.{decode_all, requests_over_wire}
use kitmux_linux.Control.Events.{Call, no_events, event_of}
use kitmux_linux.Control.Events.Kept.{recorded, recorded_events_lem}

-- A decoder in the middle of the frame "ab".
abbrev started : LineFrameDecoder
started = record { maximum_bytes = 4; buffered = 97 ∷ [] }

push_refines_example :
    Option.map outcome (push started (98 ∷ 13 ∷ 10 ∷ 99 ∷ []))
    ≡ some (delivered started (lines (97 ∷ 98 ∷ 13 ∷ 10 ∷ 99 ∷ [])))
push_refines_example = push_refines started (98 ∷ 13 ∷ 10 ∷ 99 ∷ [])

abbrev rest_c : LineFrameDecoder
rest_c = record { maximum_bytes = 4; buffered = 99 ∷ [] }

first_push : push started (98 ∷ 13 ∷ 10 ∷ 99 ∷ []) ≡ some (ok ((97 ∷ 98 ∷ []) ∷ []), rest_c)
unfolding push drain newline payload_bytes frame_at exceeds take drop last pop
first_push = refl

second_push : push rest_c (10 ∷ []) ≡ some (ok ((99 ∷ []) ∷ []), empty_decoder 4)
unfolding push drain newline payload_bytes frame_at exceeds take drop last pop
second_push = refl

push_chunks_example :
    Option.map outcome (push started (98 ∷ 13 ∷ 10 ∷ 99 ∷ 10 ∷ []))
    ≡ some (ok ((97 ∷ 98 ∷ []) ∷ (99 ∷ []) ∷ [], empty_decoder 4))
push_chunks_example =
    push_chunks started rest_c (empty_decoder 4) (98 ∷ 13 ∷ 10 ∷ 99 ∷ []) (10 ∷ [])
      ((97 ∷ 98 ∷ []) ∷ []) ((99 ∷ []) ∷ []) first_push second_push

-- A codec of the requests for a ping, whose identifier is printable.
abbrev ping : Text → ControlRequest ℕ
ping id = record { version = pos 1; id = id; method = codes "ping"; params = []; context = none }

abbrev printable : Text → Bool
printable [] = true
printable (c ∷ cs) = leb 32 c && printable cs

abbrev write : ℤ → Text → Text → List (Text × Text) → Option ℕ → Option Bytes
write (pos n) id method [] none =
    if n == 1 && (same_text method (codes "ping") && printable id) then some id else none
write _ _ _ _ _ = none

write_back :
    (v : ℤ) (id method : Text) (ps : List (Text × Text)) (c : Option ℕ) (bytes : Bytes)
    → write v id method ps c ≡ some bytes
    → ping bytes ≡ record { version = v; id = id; method = method; params = ps; context = c }
write_back (pos n) id method [] none bytes h =
    let v : n ≡ 1 = ground (arith, h) in
    let i : id ≡ bytes = ground (arith, h) in
    let m : method ≡ codes "ping" = same_text_sound method (codes "ping") (ground (arith, h)) in
    rw (v, i, m) refl
write_back (pos n) id method [] (some x) bytes h = absurd (ground (arith, h))
write_back (pos n) id method (p ∷ ps) c bytes h = absurd (ground (arith, h))
write_back (negsuc n) id method ps c bytes h = absurd (ground (arith, h))

printable-All : (id : Text) → printable id ≡ true → All (λ b. leb 32 b ≡ true) id
printable-All [] h = tt
printable-All (c ∷ cs) h = (ground (arith, h), printable-All cs (ground (arith, h)))

write_compact :
    (v : ℤ) (id method : Text) (ps : List (Text × Text)) (c : Option ℕ) (bytes : Bytes)
    → write v id method ps c ≡ some bytes
    → All (λ b. leb 32 b ≡ true) bytes
write_compact (pos n) id method [] none bytes h =
    let i : id ≡ bytes = ground (arith, h) in rw (← i) (printable-All id (ground (arith, h)))
write_compact (pos n) id method [] (some x) bytes h = absurd (ground (arith, h))
write_compact (pos n) id method (p ∷ ps) c bytes h = absurd (ground (arith, h))
write_compact (negsuc n) id method ps c bytes h = absurd (ground (arith, h))

abbrev pings : Json ℕ
pings = record {
  exact = λ v. false;
  request_to_vec = λ r. write r.version r.id r.method r.params r.context;
  request_from_slice = λ bytes. some (ping bytes);
  response_to_vec = λ r. none;
  response_from_slice = λ bytes. some (failure bytes (codes "timeout") []);
  request_back =
      λ r bytes back h. ap some (write_back r.version r.id r.method r.params r.context bytes h);
  response_back = λ r bytes back h. absurd (ground (arith, h));
  request_compact = λ r bytes h. write_compact r.version r.id r.method r.params r.context bytes h;
}

decode_control_request_iff_example :
    (decode_control_request pings (codes "a") ≡ ok (ping (codes "a"))) ↔ (
      (length (codes "a") ≤ 65536)
      × (some (ping (codes "a")) ≡ some (ping (codes "a")))
      × IsRequest (ping (codes "a")))
decode_control_request_iff_example = decode_control_request_iff pings (codes "a") (ping (codes "a"))

decode_control_response_iff_example :
    (decode_control_response pings (codes "a") ≡ ok (failure (codes "a") (codes "timeout") [])) ↔ (
      (length (codes "a") ≤ 524288)
      × (pings.response_from_slice (codes "a") ≡ some (failure (codes "a") (codes "timeout") []))
      × IsResponse {Value = ℕ} (failure (codes "a") (codes "timeout") []))
decode_control_response_iff_example =
    decode_control_response_iff pings (codes "a") (failure (codes "a") (codes "timeout") [])

encoded_a : encode_control_request pings (ping (codes "a")) ≡ ok (codes "a")
unfolding encode_control_request decode_control_request valid_envelope validate_control_params
    valid_params valid_param method_id method_from_str find_method as_str same_text byte_len
    char_len is_empty any is_control
encoded_a = refl

encoded_b : encode_control_request pings (ping (codes "b")) ≡ ok (codes "b")
unfolding encode_control_request decode_control_request valid_envelope validate_control_params
    valid_params valid_param method_id method_from_str find_method as_str same_text byte_len
    char_len is_empty any is_control
encoded_b = refl

requests_over_wire_example :
    (Option.map outcome
        (push (empty_decoder control_max_request_bytes) (encode (codes "a" ∷ codes "b" ∷ [])))
      ≡ some (ok (codes "a" ∷ codes "b" ∷ [], empty_decoder control_max_request_bytes)))
    × (decode_all pings (codes "a" ∷ codes "b" ∷ [])
        ≡ ok (ping (codes "a") ∷ ping (codes "b") ∷ []))
requests_over_wire_example =
    requests_over_wire pings (ping (codes "a") ∷ ping (codes "b") ∷ []) (codes "a" ∷ codes "b" ∷ [])
      ((tt, encoded_a), ((tt, encoded_b), tt))

abbrev pinged : Call
pinged = record {
  method = codes "ping";
  request_id = codes "a";
  ok = true;
  peer_uid = 1000;
  monotonic_ms = 7;
}

recorded_events_lem_example :
    ((recorded no_events (pinged ∷ [])).events ≡ event_of 1 pinged ∷ [])
    × ((recorded no_events (pinged ∷ [])).next_cursor ≡ 1)
recorded_events_lem_example = recorded_events_lem (pinged ∷ []) (omega arith)
