-- ===== src/Cli/Command.antt =====
-- `parse_command` of kitmux-linux/rust/model/src/cli.rs and the parsers it calls.
use kitmux_linux.Base.{ℕ, Bool, ◌&&◌, ◌||◌, none, some, List, [], ◌∷◌, ◌++◌, if◌then◌else◌}
use kitmux_linux.Base.Result.{Result, ok, err, ◌>>=◌}
use kitmux_linux.Text.{Text, codes, same_text}
use kitmux_linux.Control.{ControlRequest, control_protocol_version}
use kitmux_linux.Control.Method.{method_from_str}
use kitmux_linux.Platform.{decimal}
use kitmux_linux.Cli.Arguments.{
  CliParseError, Params, one_param, two_params, close_params, event_params, given_params,
  join_words, connection, is_profile_list,
}

-- What a command answers, for a context of the type of the protocol.
abbrev pub Parsed : Type 0 → Type 0
Parsed Value = Result (ControlRequest Value) CliParseError

-- The number of the process, and the test of `Uuid::parse_str`, are given.
module _ {Value : Type 0} (pid : ℕ) (is_uuid : Text → Bool) where
  unfoldable pub request : Text → Params → Parsed Value
  request method params = elim (method_from_str method) [
    | none ↦ err (CliParseError.usage (codes "unsupported control method " ++ method))
    | some _ ↦ ok (record {
      version = control_protocol_version;
      id = codes "cli-" ++ decimal pid;
      method = method;
      params = params;
      context = none;
    })
  ]

  abbrev hierarchy_usage : Text → Parsed Value
  hierarchy_usage noun = err (
      CliParseError.usage
        (codes "usage: kitmuxctl " ++ noun ++ codes " new|select|rename|move|close ..."))

  -- The arms of `parse_hierarchy`, by the number of the arguments behind the action.
  unfoldable pub hierarchy : Text → Text → List Text → Parsed Value
  hierarchy noun action [] =
      if same_text action (codes "new")
      then request (noun ++ codes ".create") []
      else hierarchy_usage noun
  hierarchy noun action (id ∷ []) =
      if same_text action (codes "select")
      then one_param (codes "id") id >>= request (noun ++ codes ".select")
      else if same_text action (codes "close")
      then one_param (codes "id") id >>= request (noun ++ codes ".close")
      else hierarchy_usage noun
  hierarchy noun action (id ∷ x ∷ []) =
      if same_text action (codes "rename")
      then two_params (codes "id") id (codes "name") x >>= request (noun ++ codes ".rename")
      else if same_text action (codes "move")
      then two_params (codes "id") id (codes "index") x >>= request (noun ++ codes ".move")
      else if same_text action (codes "close")
      then close_params id x >>= request (noun ++ codes ".close")
      else hierarchy_usage noun
  hierarchy noun action (id ∷ x ∷ y ∷ words) =
      if same_text action (codes "rename")
      then two_params (codes "id") id (codes "name") (join_words x (y ∷ words))
        >>= request (noun ++ codes ".rename")
      else hierarchy_usage noun

  unfoldable pub parse_hierarchy : Text → List Text → Parsed Value
  parse_hierarchy noun [] =
      err (CliParseError.usage (noun ++ codes " requires new, select, rename, move, or close"))
  parse_hierarchy noun (action ∷ arguments) = hierarchy noun action arguments

  abbrev pane_usage : Parsed Value
  pane_usage = err (
      CliParseError.usage (
        codes
          "usage: kitmuxctl pane split|focus|rename|move|close|send|send-key|read-screen|notify ..."))

  -- The actions of a pane with one text.
  unfoldable pub pane_text : Text → Text → Text → Parsed Value
  pane_text action id text =
      if same_text action (codes "rename")
      then two_params (codes "id") id (codes "name") text >>= request (codes "pane.rename")
      else if same_text action (codes "send")
      then two_params (codes "id") id (codes "text") text >>= request (codes "pane.send")
      else if same_text action (codes "notify")
      then two_params (codes "id") id (codes "message") text >>= request (codes "pane.notify")
      else pane_usage

  -- The arms of `parse_pane`, by the number of the arguments behind the action.
  unfoldable pub pane : Text → List Text → Parsed Value
  pane action [] = pane_usage
  pane action (id ∷ []) =
      if same_text action (codes "split")
        && (same_text id (codes "right") || same_text id (codes "down"))
      then one_param (codes "axis") id >>= request (codes "pane.split")
      else if same_text action (codes "focus")
      then one_param (codes "id") id >>= request (codes "pane.focus")
      else if same_text action (codes "close")
      then one_param (codes "id") id >>= request (codes "pane.close")
      else if same_text action (codes "read-screen")
      then one_param (codes "id") id >>= request (codes "pane.read_screen")
      else pane_usage
  pane action (id ∷ x ∷ []) =
      if same_text action (codes "move")
      then two_params (codes "id") id (codes "target") x >>= request (codes "pane.move")
      else if same_text action (codes "close")
      then close_params id x >>= request (codes "pane.close")
      else if same_text action (codes "send-key")
      then two_params (codes "id") id (codes "key") x >>= request (codes "pane.send_key")
      else if same_text action (codes "read-screen")
      then two_params (codes "id") id (codes "lines") x >>= request (codes "pane.read_screen")
      else pane_text action id x
  pane action (id ∷ x ∷ y ∷ words) = pane_text action id (join_words x (y ∷ words))

  unfoldable pub parse_pane : List Text → Parsed Value
  parse_pane [] = err (
      CliParseError.usage (
        codes
          "pane requires split, focus, rename, move, close, send, send-key, read-screen, or notify"))
  parse_pane (action ∷ arguments) = pane action arguments

  unfoldable pub parse_events : List Text → Parsed Value
  parse_events arguments = event_params [] arguments >>= request (codes "event.list")

  abbrev ssh_usage : Parsed Value
  ssh_usage = err (
      CliParseError.usage
        (codes "usage: kitmuxctl ssh profile list|connect PROFILE_UUID|reconnect PANE_UUID"))

  abbrev ssh_action : List Text → Parsed Value
  ssh_action [] = ssh_usage
  ssh_action (action ∷ arguments) =
      if same_text action (codes "connect") || same_text action (codes "reconnect")
      then connection is_uuid action arguments >>= request (codes "ssh." ++ action)
      else ssh_usage

  unfoldable pub parse_ssh : List Text → Parsed Value
  parse_ssh arguments =
      if is_profile_list arguments
      then request (codes "ssh.profile.list") []
      else ssh_action arguments

  -- The arm "request" of `parse_command`.
  unfoldable pub parse_request : List Text → Parsed Value
  parse_request [] = err (CliParseError.usage (codes "request requires a method"))
  parse_request (method ∷ arguments) = given_params [] arguments >>= request method

  -- The arm of the commands without arguments.
  unfoldable pub parse_plain : Text → List Text → Parsed Value
  parse_plain command [] = request command []
  parse_plain command (_ ∷ _) = err (CliParseError.usage (command ++ codes " takes no arguments"))

  unfoldable pub parse_command : List Text → Parsed Value
  parse_command [] = err CliParseError.help
  parse_command (command ∷ tail) =
      if same_text command (codes "ping")
        || same_text command (codes "tree")
        || same_text command (codes "identify")
        || same_text command (codes "capabilities")
      then parse_plain command tail
      else if same_text command (codes "events")
      then parse_events tail
      else if same_text command (codes "ssh")
      then parse_ssh tail
      else if same_text command (codes "request")
      then parse_request tail
      else if same_text command (codes "workspace")
          || same_text command (codes "group")
          || same_text command (codes "tab")
      then parse_hierarchy command tail
      else if same_text command (codes "pane")
      then parse_pane tail
      else err (CliParseError.usage (codes "unknown command " ++ command))
