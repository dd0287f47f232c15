-- ===== src/Control.antt =====
-- kitmux-linux/rust/model/src/control.rs: the control protocol.
use kitmux_linux.Base.{ℕ, ◌*◌, Bool, true, false, Option, none, some, List}
use kitmux_linux.Base.Int.{ℤ, pos}
use kitmux_linux.Text.{Text, codes}
use kitmux_linux.Control.Method.{ControlMethod, method_from_str}
pub mod Method
pub mod Frames
pub mod Codec
pub mod Events

abbrev pub control_protocol_version : ℤ
control_protocol_version = pos 1

abbrev pub control_max_request_bytes : ℕ
control_max_request_bytes = 64 * 1024

abbrev pub control_max_response_bytes : ℕ
control_max_response_bytes = 512 * 1024

abbrev pub control_max_request_id_bytes : ℕ
control_max_request_id_bytes = 256

abbrev pub control_max_method_bytes : ℕ
control_max_method_bytes = 128

abbrev pub control_max_param_count : ℕ
control_max_param_count = 32

abbrev pub control_max_param_key_bytes : ℕ
control_max_param_key_bytes = 128

abbrev pub control_max_param_value_bytes : ℕ
control_max_param_value_bytes = 48 * 1024

-- The parameters, a `BTreeMap` that is iterated in the order of its keys: an association list in
-- that order. The context is a value of the library `serde_json`.
pub record ControlRequest (Value : Type 0) : Type 0 where
  pub version : ℤ
  pub id : Text
  pub method : Text
  pub params : List (Text × Text)
  pub context : Option Value

pub record ControlError : Type 0 where
  pub code : Text
  pub message : Text

pub record ControlResponse (Value : Type 0) : Type 0 where
  pub version : ℤ
  pub id : Text
  pub ok : Bool
  pub result : Option Value
  pub error : Option ControlError

module _ {Value : Type 0} where
  unfoldable pub method_id : ControlRequest Value → Option ControlMethod
  method_id request = method_from_str request.method

  -- `ControlResponse::success`
  unfoldable pub success : Text → Value → ControlResponse Value
  success id result = record {
    version = control_protocol_version;
    id = id;
    ok = true;
    result = some result;
    error = none;
  }

  -- `ControlResponse::failure`
  unfoldable pub failure : Text → Text → Text → ControlResponse Value
  failure id code message = record {
    version = control_protocol_version;
    id = id;
    ok = false;
    result = none;
    error = some (record { code = code; message = message });
  }

pub data ControlCodecError : Type 0 where
  request_too_large response_too_large malformed_request invalid_params : ControlCodecError
  malformed_response invalid_envelope invalid_response : ControlCodecError
  incomplete_frame timeout : ControlCodecError
  unsupported_version : ℤ → ControlCodecError

unfoldable pub response_code : ControlCodecError → Text
response_code ControlCodecError.request_too_large = codes "request_too_large"
response_code ControlCodecError.response_too_large = codes "response_too_large"
response_code ControlCodecError.invalid_params = codes "invalid_params"
response_code (ControlCodecError.unsupported_version version) = codes "unsupported_version"
response_code ControlCodecError.invalid_envelope = codes "invalid_request"
response_code ControlCodecError.invalid_response = codes "invalid_request"
response_code ControlCodecError.malformed_request = codes "malformed_request"
response_code ControlCodecError.malformed_response = codes "malformed_request"
response_code ControlCodecError.incomplete_frame = codes "malformed_request"
response_code ControlCodecError.timeout = codes "timeout"
