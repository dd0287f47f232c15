-- ===== src/Cli/Invocation.antt =====
-- A whole command line: its socket and its request.
use kitmux_linux.Base.{
  ℕ, ◌≡◌, ◌≤◌, refl, inl, inr, Bool, true, false, Option, none, some, List, [], ◌∷◌, length,
}
use kitmux_linux.Base.Result.{Result-cases, ok, OnOk, if-OnOk, bind-OnOk, ok-OnOk}
use kitmux_linux.Text.{Text, codes, same_text, starts_with}
use kitmux_linux.Control.{ControlRequest}
use kitmux_linux.Control.Codec.Bounds.{IsRequest}
use kitmux_linux.Platform.{Environment, UnixSocketAddress, new_address, resolve_control_socket}
use kitmux_linux.Platform.Sockets.{IsSocketPath, new_address_sound, resolve_control_socket_sound}
use kitmux_linux.Cli.Arguments.{CliParseError}
use kitmux_linux.Cli.Command.{parse_command}
use kitmux_linux.Cli.{
  CliInvocation, Options, options, option_arm, refuses, socket_argument, environment_socket,
  parse_cli,
}
use kitmux_linux.Cli.Accepted.{parse_command-IsRequest}

abbrev IsAddress : UnixSocketAddress → Type 0
IsAddress socket = IsSocketPath socket.path

abbrev HasAddress : Bool × UnixSocketAddress × List Text → Type 0
HasAddress (json, socket, rest) = IsSocketPath socket.path

socket_argument-IsAddress : (value : Text) → OnOk IsAddress (socket_argument value)
socket_argument-IsAddress value = elim (Result-cases (new_address value)) [
  | inl (e, k) ↦ rw (socket_argument, k) OnOk.on_err
  | inr (socket, k) ↦ rw (socket_argument, k) (OnOk.on_ok (new_address_sound value socket k))
]

environment_socket-IsAddress :
    (entry : Option Text) (environment : Environment) (uid : ℕ)
    → OnOk IsAddress (environment_socket entry environment uid)
environment_socket-IsAddress entry environment uid =
    elim (Result-cases (resolve_control_socket entry environment uid)) [
      | inl (e, k) ↦ rw (environment_socket, k) OnOk.on_err
      | inr (socket, k) ↦
          rw (environment_socket, k)
            (OnOk.on_ok (resolve_control_socket_sound entry environment uid socket k))
    ]

option_arm-HasAddress :
    (refused : Option CliParseError) (argument : Text) (a b c : Options)
    → OnOk HasAddress a
    → OnOk HasAddress b
    → OnOk HasAddress c
    → refuses argument ≡ refused
    → OnOk HasAddress (option_arm argument a b c)
option_arm-HasAddress (some error) argument a b c ha hb hc e = rw (option_arm, e) OnOk.on_err
option_arm-HasAddress none argument a b c ha hb hc e =
    rw (option_arm, e)
      (if-OnOk (same_text argument (codes "--json")) _ _ ha (
        if-OnOk (same_text argument (codes "--socket")) _ _ hb
          (if-OnOk (starts_with argument (codes "-")) _ _ OnOk.on_err hc)))

options-HasAddress :
    (json : Bool) (socket : UnixSocketAddress) (arguments : List Text)
    → IsAddress socket
    → OnOk HasAddress (options json socket arguments)
unfolding options
options-HasAddress json socket [] h = OnOk.on_ok h
options-HasAddress json socket (argument ∷ []) h =
    option_arm-HasAddress _ argument _ _ _ (OnOk.on_ok h) OnOk.on_err (OnOk.on_ok h) refl
options-HasAddress json socket (argument ∷ value ∷ arguments) h =
    option_arm-HasAddress _ argument _ _ _ (options-HasAddress true socket (value ∷ arguments) h)
      (bind-OnOk (socket_argument value) _ (socket_argument-IsAddress value)
        λ socket' h'. options-HasAddress json socket' arguments h')
      (OnOk.on_ok h) refl

module _ {Value : Type 0} (pid : ℕ) (is_uuid : Text → Bool) where
  -- A request that the server accepts, if it has at most 32 parameters.
  abbrev Accepted : ControlRequest Value → Type 0
  Accepted r = length r.params ≤ 32 → IsRequest r

  abbrev IsInvocation : CliInvocation Value → Type 0
  IsInvocation i = IsSocketPath i.socket.path × Accepted i.request

  parse_command-Accepted :
      (arguments : List Text) → OnOk Accepted (parse_command pid is_uuid arguments)
  parse_command-Accepted arguments =
      elim (Result-cases (parse_command {Value = Value} pid is_uuid arguments)) [
        | inl (e, k) ↦ rw k OnOk.on_err
        | inr (r, k) ↦
            rw k (OnOk.on_ok λ few. (parse_command-IsRequest pid is_uuid arguments r k few).0)
      ]

  parse_cli-IsInvocation :
      (entry : Option Text) (uid : ℕ) (arguments : List Text) (environment : Environment)
      → OnOk IsInvocation (parse_cli pid is_uuid entry uid arguments environment)
  unfolding parse_cli
  parse_cli-IsInvocation entry uid arguments environment =
      bind-OnOk (environment_socket entry environment uid) _
        (environment_socket-IsAddress entry environment uid)
        λ socket a.
          bind-OnOk (options false socket arguments) _ (options-HasAddress false socket arguments a)
            λ r a'.
              bind-OnOk (parse_command pid is_uuid r.2) _ (parse_command-Accepted r.2)
                λ request accepted. OnOk.on_ok (a', accepted)

  -- Where parse_cli makes an invocation whose request has at most 32 parameters, the socket has
  -- an absolute path of at most 107 bytes without NUL, and the request has the version, the
  -- identifier, the method and the parameters that decode_control_request demands.
  pub parse_cli_lem :
      (entry : Option Text) (uid : ℕ) (arguments : List Text) (environment : Environment)
      (i : CliInvocation Value)
      → parse_cli pid is_uuid entry uid arguments environment ≡ ok i
      → length i.request.params ≤ 32
      → IsSocketPath i.socket.path × IsRequest i.request
  parse_cli_lem entry uid arguments environment i h few =
      let (a, accepted) = ok-OnOk _ i (parse_cli-IsInvocation entry uid arguments environment) h in
      (a, accepted few)
