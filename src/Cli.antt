-- ===== src/Cli.antt =====
-- kitmux-linux/rust/model/src/cli.rs: the invocation that a command line makes.
use mathlib.Core.Option
use kitmux_linux.Base.{
  ℕ, zero, suc, ◌+◌, ◌*◌, Bool, true, false, not, ◌&&◌, ◌||◌, Option, none, some, List, [], ◌∷◌,
  ◌++◌, ◌==◌, ltb, leb, if◌then◌else◌,
}
use kitmux_linux.Base.Result.{Result, ok, err, ◌>>=◌, ◌>>◌, guard}
use kitmux_linux.Text.{
  Text, codes, same_text, byte_len, is_empty, is_control, any, split_once, starts_with,
}
use kitmux_linux.Control.{ControlRequest, control_protocol_version}
use kitmux_linux.Control.Method.{method_from_str}
use kitmux_linux.Platform.{
  Environment, UnixSocketAddress, decimal, error_text, new_address, resolve_control_socket,
}
use kitmux_linux.Cli.Arguments.{
  cli_max_argument_bytes, CliParseError, Params, text_less, insert, accepts, insert_param,
  one_param, two_params, close_params, event_key, event_params, given_params, join_words,
  is_lower_hex, not_hex, valid_fingerprint, role, connection, is_profile_list,
}
use kitmux_linux.Cli.Command.{parse_command}
pub mod Arguments
pub mod Command
pub mod Taken
pub mod Accepted
pub mod Invocation

pub record CliInvocation (Value : Type 0) : Type 0 where
  pub json : Bool
  pub socket : UnixSocketAddress
  pub request : ControlRequest Value

-- The address that `--socket` gives, with its error as a usage error.
abbrev pub socket_argument : Text → Result UnixSocketAddress CliParseError
socket_argument value = elim (new_address value) [
  | ok socket ↦ ok socket
  | err error ↦ err (CliParseError.usage (error_text error))
]

-- An option that ends the loop of `parse_cli`, or is refused; `none` goes on.
abbrev pub refuses : Text → Option CliParseError
refuses argument =
    if same_text argument (codes "--help") || same_text argument (codes "-h")
    then some CliParseError.help
    else if same_text argument (codes "--version") || same_text argument (codes "-V")
    then some CliParseError.version
    else none

abbrev pub Options : Type 0
Options = Result (Bool × UnixSocketAddress × List Text) CliParseError

-- The arms of the loop, with what follows `--json` and `--socket`, and where the loop ends.
abbrev pub option_arm : Text → Options → Options → Options → Options
option_arm argument after_json after_socket stop = elim (refuses argument) [
  | some error ↦ err error
  | none ↦
      if same_text argument (codes "--json")
      then after_json
      else if same_text argument (codes "--socket")
      then after_socket
      else if starts_with argument (codes "-")
      then err (CliParseError.usage (codes "unknown option " ++ argument))
      else stop
]

-- The loop over the options: whether the output is JSON, the socket, and the other arguments.
unfoldable pub options : Bool → UnixSocketAddress → List Text → Options
options json socket [] = ok (json, socket, [])
options json socket (argument ∷ []) =
    option_arm argument (ok (true, socket, []))
      (err (CliParseError.usage (codes "--socket requires an absolute path")))
      (ok (json, socket, argument ∷ []))
options json socket (argument ∷ value ∷ arguments) =
    let after_json = options true socket (value ∷ arguments) in
    let after_socket = socket_argument value >>= λ socket'. options json socket' arguments in
    option_arm argument after_json after_socket (ok (json, socket, argument ∷ value ∷ arguments))

-- The address that the environment gives.
abbrev pub environment_socket :
    Option Text → Environment → ℕ → Result UnixSocketAddress CliParseError
environment_socket entry environment uid = elim (resolve_control_socket entry environment uid) [
  | ok socket ↦ ok socket
  | err error ↦ err (CliParseError.usage (error_text error))
]

-- `parse_cli` of the process, for the user and its entry in the user data base.
unfoldable pub parse_cli :
    {Value : Type 0}
    → ℕ
    → (Text → Bool)
    → Option Text
    → ℕ
    → List Text
    → Environment
    → Result (CliInvocation Value) CliParseError
parse_cli pid is_uuid entry uid arguments environment = do
  socket ← environment_socket entry environment uid
  (json, socket', rest) ← options false socket arguments
  request' ← parse_command pid is_uuid rest
  ok (record { json = json; socket = socket'; request = request' })
