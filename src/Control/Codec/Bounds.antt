-- ===== src/Control/Codec/Bounds.antt =====
-- The requests and responses that the decoders let through.
use kitmux_linux.Base.{
  ℕ, ◌≡◌, ◌≤◌, refl, ◌⊎◌, ◌↔◌, Bool, true, false, not, ◌&&◌, ◌||◌, Option, none, some, List, [],
  ◌∷◌, length, All, arith,
}
use kitmux_linux.Base.Int.{ℤ, pos, negsuc}
use kitmux_linux.Base.Result.{ok}
use kitmux_linux.Text.{Text, codes, byte_len, is_empty, is_control, any}
use kitmux_linux.Text.Laws.{same_text_iff}
use kitmux_linux.Control.{ControlRequest, ControlResponse, ControlError, method_id}
use kitmux_linux.Control.Method.{ControlMethod, as_str, method_from_str}
use kitmux_linux.Control.Method.Roundtrip.{method_from_str_iff}
use kitmux_linux.Control.Frames.{Bytes}
use kitmux_linux.Control.Codec.{
  Json, is_pane_send, same_ℤ, valid_param, valid_params, valid_envelope, validate_control_params,
  decode_control_request, decode_control_response, valid_response, same_bool, is_some,
}

-- A text of one to n bytes.
abbrev pub Within : ℕ → Text → Type 0
Within n t = (is_empty t ≡ false) × (byte_len t ≤ n)

-- A text without control characters.
abbrev pub Plain : Text → Type 0
Plain t = any is_control t ≡ false

-- Only the text of `pane.send` may have control characters.
abbrev pub IsParam : Text → Text × Text → Type 0
IsParam method (key, value) =
    Within 128 key
    × Plain key
    × Within 49152 value
    × (((method ≡ codes "pane.send") × (key ≡ codes "text")) ⊎ Plain value)

pub record IsRequest {Value : Type 0} (r : ControlRequest Value) : Type 0 where
  pub version : r.version ≡ pos 1
  pub id : Within 256 r.id × Plain r.id
  pub method : Within 128 r.method × Plain r.method
  pub count : length r.params ≤ 32
  pub params : All (IsParam r.method) r.params

same_ℤ_iff : (a b : ℤ) → (same_ℤ a b ≡ true) ↔ (a ≡ b)
same_ℤ_iff (pos a) (pos b) = ground arith
same_ℤ_iff (negsuc a) (negsuc b) = ground arith
same_ℤ_iff (pos a) (negsuc b) = ground arith
same_ℤ_iff (negsuc a) (pos b) = ground arith

is_pane_send-some :
    (o : Option ControlMethod) → is_pane_send o ≡ true → o ≡ some ControlMethod.pane_send
is_pane_send-some none h = absurd (ground (arith, h))
is_pane_send-some (some ControlMethod.pane_send) h = refl
is_pane_send-some (some _) h = absurd (ground (arith, h))

is_pane_send_iff : (m : Text) → (is_pane_send (method_from_str m) ≡ true) ↔ (m ≡ codes "pane.send")
unfolding as_str
is_pane_send_iff m =
    let (sound, complete) = method_from_str_iff m ControlMethod.pane_send in
    ((λ h. sound (is_pane_send-some _ h)), λ e. rw (complete e) refl)

valid_param_iff :
    (m : Text) (p : Text × Text)
    → (valid_param (is_pane_send (method_from_str m)) p ≡ true) ↔ IsParam m p
unfolding valid_param
valid_param_iff m (key, value) =
    ground (arith, is_pane_send_iff m, same_text_iff key (codes "text"))

valid_params_iff :
    (m : Text) (ps : List (Text × Text))
    → (valid_params (is_pane_send (method_from_str m)) ps ≡ true) ↔ All (IsParam m) ps
unfolding valid_params
valid_params_iff m [] = ground arith
valid_params_iff m (p ∷ ps) = ground (arith, valid_param_iff m p, valid_params_iff m ps)

module _ {Value : Type 0} where
  pub validate_control_params_iff :
      (r : ControlRequest Value)
      → (validate_control_params r ≡ ok tt)
        ↔ ((length r.params ≤ 32) × All (IsParam r.method) r.params)
  unfolding validate_control_params method_id
  validate_control_params_iff r = ground (arith, valid_params_iff r.method r.params)

  valid_envelope_iff :
      (r : ControlRequest Value)
      → (valid_envelope r ≡ true)
        ↔ ((Within 256 r.id × Plain r.id) × (Within 128 r.method × Plain r.method))
  unfolding valid_envelope
  valid_envelope_iff r = ground arith

-- Either a success with a result and no error, or a failure with an error and no result.
abbrev pub IsOutcome : {Value : Type 0} → Bool → Option Value → Option ControlError → Type 0
IsOutcome true (some result) none = Unit
IsOutcome false none (some error) = Unit
IsOutcome _ _ _ = ⊥

pub record IsResponse {Value : Type 0} (r : ControlResponse Value) : Type 0 where
  pub version : r.version ≡ pos 1
  pub id : byte_len r.id ≤ 256
  pub outcome : IsOutcome r.ok r.result r.error

valid_outcome_iff :
    {Value : Type 0} (b : Bool) (v : Option Value) (e : Option ControlError)
    → (not (same_bool b (is_some e) || (b && not (is_some v)) || (not b && is_some v)) ≡ true)
      ↔ IsOutcome b v e
valid_outcome_iff true none none = ground arith
valid_outcome_iff true none (some e) = ground arith
valid_outcome_iff true (some v) none = ground arith
valid_outcome_iff true (some v) (some e) = ground arith
valid_outcome_iff false none none = ground arith
valid_outcome_iff false none (some e) = ground arith
valid_outcome_iff false (some v) none = ground arith
valid_outcome_iff false (some v) (some e) = ground arith

valid_response_iff :
    {Value : Type 0} (r : ControlResponse Value)
    → (valid_response r ≡ true) ↔ ((byte_len r.id ≤ 256) × IsOutcome r.ok r.result r.error)
unfolding valid_response
valid_response_iff r = ground (arith, valid_outcome_iff r.ok r.result r.error)

module _ {Value : Type 0} (json : Json Value) where
  -- Bytes decode to a request exactly if they are at most 65,536, the library parses them to that
  -- request, its version is 1, its identifier has 1 to 256 bytes and its method 1 to 128, both
  -- without control characters, and it has at most 32 parameters, with keys of 1 to 128 bytes
  -- without control characters and values of 1 to 49,152 bytes, which have no control characters
  -- either, except for the text of pane.send.
  pub decode_control_request_iff :
      (bytes : Bytes) (r : ControlRequest Value)
      → (decode_control_request json bytes ≡ ok r)
        ↔ ((length bytes ≤ 65536) × (json.request_from_slice bytes ≡ some r) × IsRequest r)
  unfolding decode_control_request
  decode_control_request_iff bytes r =
      ground
        (arith, same_ℤ_iff r.version (pos 1), valid_envelope_iff r, validate_control_params_iff r)

  -- Bytes decode to a response exactly if they are at most 524,288, the library parses them to
  -- that response, its version is 1, its identifier has at most 256 bytes, and it is either a
  -- success with a result and no error or a failure with an error and no result.
  pub decode_control_response_iff :
      (bytes : Bytes) (r : ControlResponse Value)
      → (decode_control_response json bytes ≡ ok r)
        ↔ ((length bytes ≤ 524288) × (json.response_from_slice bytes ≡ some r) × IsResponse r)
  unfolding decode_control_response
  decode_control_response_iff bytes r =
      ground (arith, same_ℤ_iff r.version (pos 1), valid_response_iff r)
