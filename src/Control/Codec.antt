-- ===== src/Control/Codec.antt =====
-- The encoding of requests and responses in kitmux-linux/rust/model/src/control.rs, over the
-- library `serde_json`.
use kitmux_linux.Base.{
  ℕ, suc, ◌≡◌, refl, Bool, true, false, not, ◌&&◌, ◌||◌, Option, none, some, List, [], ◌∷◌, ◌==◌,
  ltb, leb, length, All, if◌then◌else◌,
}
use kitmux_linux.Base.Int.{ℤ, pos, negsuc}
use kitmux_linux.Base.Result.{Result, ok, err, ◌>>=◌, ◌>>◌, guard}
use kitmux_linux.Text.{Text, codes, same_text, byte_len, is_empty, is_control, any}
use kitmux_linux.Control.{
  ControlRequest, ControlResponse, ControlCodecError, control_protocol_version,
  control_max_request_bytes, control_max_response_bytes, control_max_request_id_bytes,
  control_max_method_bytes, control_max_param_count, control_max_param_key_bytes,
  control_max_param_value_bytes, method_id,
}
use kitmux_linux.Control.Method.{ControlMethod}
use kitmux_linux.Control.Frames.{Bytes}
pub mod Bounds
pub mod Wire

-- A value that is absent, or that the library reads back as it was: `null` in an optional field is
-- read as its absence.
abbrev pub ReadBack : {Value : Type 0} → (Value → Bool) → Option Value → Type 0
ReadBack exact none = Unit
ReadBack exact (some v) = exact v ≡ true

-- The library `serde_json` at the two types, with what it documents: a serialised value is read
-- back, and the compact form has no control characters, since those of strings are escaped.
pub record Json (Value : Type 0) : Type 0 where
  pub exact : Value → Bool
  pub request_to_vec : ControlRequest Value → Option Bytes
  pub request_from_slice : Bytes → Option (ControlRequest Value)
  pub response_to_vec : ControlResponse Value → Option Bytes
  pub response_from_slice : Bytes → Option (ControlResponse Value)
  pub request_back :
      (r : ControlRequest Value) (bytes : Bytes)
      → ReadBack exact r.context
      → request_to_vec r ≡ some bytes
      → request_from_slice bytes ≡ some r
  pub response_back :
      (r : ControlResponse Value) (bytes : Bytes)
      → ReadBack exact r.result
      → response_to_vec r ≡ some bytes
      → response_from_slice bytes ≡ some r
  pub request_compact :
      (r : ControlRequest Value) (bytes : Bytes)
      → request_to_vec r ≡ some bytes
      → All (λ b. leb 32 b ≡ true) bytes

abbrev same_ℤ : ℤ → ℤ → Bool
same_ℤ (pos a) (pos b) = a == b
same_ℤ (negsuc a) (negsuc b) = a == b
same_ℤ _ _ = false

abbrev is_some : {A : Type 0} → Option A → Bool
is_some none = false
is_some (some a) = true

abbrev same_bool : Bool → Bool → Bool
same_bool true b = b
same_bool false b = not b

abbrev is_pane_send : Option ControlMethod → Bool
is_pane_send (some ControlMethod.pane_send) = true
is_pane_send _ = false

-- `map_err(…)?` of a call of the library.
abbrev or_err : {A : Type 0} → Option A → ControlCodecError → Result A ControlCodecError
or_err none e = err e
or_err (some a) e = ok a

-- The condition of the loop of `validate_control_params` under which a parameter is accepted.
unfoldable pub valid_param : Bool → Text × Text → Bool
unfolding same_text byte_len is_empty is_control any
valid_param send (key, value) =
    let allows_control_value = send && same_text key (codes "text") in
    not (
      is_empty key
      || ltb control_max_param_key_bytes (byte_len key)
      || any is_control key
      || is_empty value
      || ltb control_max_param_value_bytes (byte_len value)
      || (not allows_control_value && any is_control value))

unfoldable pub valid_params : Bool → List (Text × Text) → Bool
unfolding valid_param
valid_params send [] = true
valid_params send (p ∷ ps) = valid_param send p && valid_params send ps

module _ {Value : Type 0} where
  unfoldable pub validate_control_params :
      ControlRequest Value → Result (Unit {0}) ControlCodecError
  unfolding valid_params method_id
  validate_control_params request = do
    guard (leb (length request.params) control_max_param_count) ControlCodecError.invalid_params
    guard (valid_params (is_pane_send (method_id request)) request.params)
        ControlCodecError.invalid_params

  unfoldable pub valid_envelope : ControlRequest Value → Bool
  unfolding byte_len is_empty is_control any
  valid_envelope request = not (
      is_empty request.id
      || ltb control_max_request_id_bytes (byte_len request.id)
      || is_empty request.method
      || ltb control_max_method_bytes (byte_len request.method)
      || any is_control request.id
      || any is_control request.method)

  unfoldable pub valid_response : ControlResponse Value → Bool
  unfolding byte_len
  valid_response response = not (
      ltb control_max_request_id_bytes (byte_len response.id)
      || same_bool response.ok (is_some response.error)
      || (response.ok && not (is_some response.result))
      || (not response.ok && is_some response.result))

module _ {Value : Type 0} (json : Json Value) where
  unfoldable pub decode_control_request : Bytes → Result (ControlRequest Value) ControlCodecError
  unfolding valid_envelope validate_control_params
  decode_control_request bytes = do
    guard (leb (length bytes) control_max_request_bytes) ControlCodecError.request_too_large
    request ← or_err (json.request_from_slice bytes) ControlCodecError.malformed_request
    guard (same_ℤ request.version control_protocol_version)
        (ControlCodecError.unsupported_version request.version)
    guard (valid_envelope request) ControlCodecError.invalid_envelope
    validate_control_params request
    ok request

  unfoldable pub encode_control_request : ControlRequest Value → Result Bytes ControlCodecError
  unfolding decode_control_request
  encode_control_request request = do
    bytes ← or_err (json.request_to_vec request) ControlCodecError.malformed_request
    decode_control_request bytes
    ok bytes

  unfoldable pub decode_control_response : Bytes → Result (ControlResponse Value) ControlCodecError
  unfolding valid_response
  decode_control_response bytes = do
    guard (leb (length bytes) control_max_response_bytes) ControlCodecError.response_too_large
    response ← or_err (json.response_from_slice bytes) ControlCodecError.malformed_response
    guard (same_ℤ response.version control_protocol_version)
        (ControlCodecError.unsupported_version response.version)
    guard (valid_response response) ControlCodecError.invalid_response
    ok response

  unfoldable pub encode_control_response : ControlResponse Value → Result Bytes ControlCodecError
  unfolding decode_control_response
  encode_control_response response = do
    bytes ← or_err (json.response_to_vec response) ControlCodecError.malformed_response
    guard (leb (length bytes) control_max_response_bytes) ControlCodecError.response_too_large
    decode_control_response bytes
    ok bytes
