-- ===== src/Cli/Accepted.antt =====
-- The requests that the command line makes, and the server's test of them.
use kitmux_linux.Base.{
  ℕ, ◌≡◌, ◌≤◌, refl, inl, inr, Bool, ◌&&◌, ◌||◌, List, [], ◌∷◌, ◌++◌, All, length, arith,
  Option-cases, if◌then◌else◌,
}
use kitmux_linux.Base.Int.{pos}
use kitmux_linux.Base.Result.{Result, ok, ◌>>=◌, OnOk, if-OnOk, ok-OnOk}
use kitmux_linux.Text.{Text, codes, same_text, is_empty, byte_len, char_len, any, is_control}
use kitmux_linux.Control.{ControlRequest}
use kitmux_linux.Control.Method.{ControlMethod, as_str, method_from_str}
use kitmux_linux.Control.Method.Roundtrip.{method_from_str_iff, as_str_bounds}
use kitmux_linux.Control.Codec.Bounds.{IsRequest, IsParam, Within, Plain}
use kitmux_linux.Platform.{decimal}
use kitmux_linux.Platform.Decimal.{decimal_lem}
use kitmux_linux.Cli.Arguments.{Params, CliParseError, accepts, join_words, is_profile_list}
use kitmux_linux.Cli.Command.{
  Parsed, request, hierarchy, parse_hierarchy, pane_text, pane, parse_pane, parse_events, parse_ssh,
  parse_request, parse_plain, parse_command,
}
use kitmux_linux.Cli.Taken.{
  AllTaken, taken_then, one_param-AllTaken, two_params-AllTaken, close_params-AllTaken,
  event_params-AllTaken, given_params-AllTaken, connection-AllTaken,
}

-- A request of a known method, with parameters that have been tested.
abbrev pub IsMade : {Value : Type 0} → ℕ → ControlRequest Value → Type 0
IsMade pid r =
    (r.version ≡ pos 1)
    × (r.id ≡ codes "cli-" ++ decimal pid)
    × ((m : ControlMethod) × (r.method ≡ as_str m))
    × AllTaken r.params

-- What a parameter of the command line is to the server.
taken_params : (method : Text) (params : Params) → AllTaken params → All (IsParam method) params
unfolding accepts
taken_params method [] a = tt
taken_params method ((key, value) ∷ params) (h, a) =
    (ground (arith, h), taken_params method params a)

cli_id-Plain : (pid : ℕ) (id : Text) → id ≡ codes "cli-" ++ decimal pid → Within 256 id × Plain id
unfolding is_empty byte_len char_len any is_control
cli_id-Plain pid id e =
    let (le, plain) = decimal_lem is_control (λ d h. ground (arith, h)) pid in
    rw e ((refl, omega (arith, le)), plain)

module _ {Value : Type 0} (pid : ℕ) (is_uuid : Text → Bool) where
  abbrev Makes : Parsed Value → Type 0
  Makes r = OnOk (IsMade pid) r

  request-IsMade :
      (method : Text) (params : Params)
      → AllTaken params
      → Makes (request pid is_uuid method params)
  unfolding request
  request-IsMade method params a = elim (Option-cases (method_from_str method)) [
    | inl e ↦ rw (request, e) OnOk.on_err
    | inr (m, e) ↦
        rw (request, e) (OnOk.on_ok (refl, refl, (m, (method_from_str_iff method m).0 e), a))
  ]

  -- Parameters that are collected for a method.
  requests :
      (m : Result Params CliParseError) (method : Text)
      → OnOk AllTaken m
      → Makes (m >>= request pid is_uuid method)
  requests m method h = taken_then m _ h λ params a. request-IsMade method params a

  -- A branch that makes a request, if the text is the one of the branch.
  arm : (b : Bool) (x y : Parsed Value) → Makes x → Makes y → Makes (if b then x else y)
  arm b x y h k = if-OnOk b x y h k

  hierarchy-IsMade :
      (noun action : Text) (arguments : List Text)
      → Makes (hierarchy pid is_uuid noun action arguments)
  unfolding hierarchy
  hierarchy-IsMade noun action [] =
      arm (same_text action (codes "new")) _ _ (request-IsMade _ [] tt) OnOk.on_err
  hierarchy-IsMade noun action (id ∷ []) =
      arm (same_text action (codes "select")) _ _ (requests _ _ (one_param-AllTaken _ id)) (
        arm (same_text action (codes "close")) _ _ (requests _ _ (one_param-AllTaken _ id))
          OnOk.on_err)
  hierarchy-IsMade noun action (id ∷ x ∷ []) =
      arm (same_text action (codes "rename")) _ _ (requests _ _ (two_params-AllTaken _ id _ x)) (
        arm (same_text action (codes "move")) _ _ (requests _ _ (two_params-AllTaken _ id _ x)) (
          arm (same_text action (codes "close")) _ _ (requests _ _ (close_params-AllTaken id x))
            OnOk.on_err))
  hierarchy-IsMade noun action (id ∷ x ∷ y ∷ words) =
      arm (same_text action (codes "rename")) _ _
        (requests _ _ (two_params-AllTaken _ id _ (join_words x (y ∷ words)))) OnOk.on_err

  parse_hierarchy-IsMade :
      (noun : Text) (arguments : List Text) → Makes (parse_hierarchy pid is_uuid noun arguments)
  unfolding parse_hierarchy
  parse_hierarchy-IsMade noun [] = OnOk.on_err
  parse_hierarchy-IsMade noun (action ∷ arguments) = hierarchy-IsMade noun action arguments

  pane_text-IsMade : (action id text : Text) → Makes (pane_text pid is_uuid action id text)
  unfolding pane_text
  pane_text-IsMade action id text =
      arm (same_text action (codes "rename")) _ _ (requests _ _ (two_params-AllTaken _ id _ text)) (
        arm (same_text action (codes "send")) _ _ (requests _ _ (two_params-AllTaken _ id _ text)) (
          arm (same_text action (codes "notify")) _ _
            (requests _ _ (two_params-AllTaken _ id _ text)) OnOk.on_err))

  pane-IsMade : (action : Text) (arguments : List Text) → Makes (pane pid is_uuid action arguments)
  unfolding pane
  pane-IsMade action [] = OnOk.on_err
  pane-IsMade action (id ∷ []) =
      let one = λ (key method : Text). requests _ method (one_param-AllTaken key id) in
      arm
        (same_text action (codes "split")
          && (same_text id (codes "right") || same_text id (codes "down")))
        _ _ (one _ _)
        (arm (same_text action (codes "focus")) _ _ (one _ _) (
          arm (same_text action (codes "close")) _ _ (one _ _)
            (arm (same_text action (codes "read-screen")) _ _ (one _ _) OnOk.on_err)))
  pane-IsMade action (id ∷ x ∷ []) =
      let two =
        λ (key method : Text). requests _ method (two_params-AllTaken (codes "id") id key x) in
      arm (same_text action (codes "move")) _ _ (two _ _) (
        arm (same_text action (codes "close")) _ _ (requests _ _ (close_params-AllTaken id x)) (
          arm (same_text action (codes "send-key")) _ _ (two _ _) (
            arm (same_text action (codes "read-screen")) _ _ (two _ _)
              (pane_text-IsMade action id x))))
  pane-IsMade action (id ∷ x ∷ y ∷ words) = pane_text-IsMade action id (join_words x (y ∷ words))

  parse_pane-IsMade : (arguments : List Text) → Makes (parse_pane pid is_uuid arguments)
  unfolding parse_pane
  parse_pane-IsMade [] = OnOk.on_err
  parse_pane-IsMade (action ∷ arguments) = pane-IsMade action arguments

  parse_ssh-IsMade : (arguments : List Text) → Makes (parse_ssh pid is_uuid arguments)
  unfolding parse_ssh
  parse_ssh-IsMade [] = OnOk.on_err
  parse_ssh-IsMade (action ∷ arguments) =
      arm (is_profile_list (action ∷ arguments)) _ _ (request-IsMade _ [] tt) (
        arm (same_text action (codes "connect") || same_text action (codes "reconnect")) _ _
          (requests _ _ (connection-AllTaken is_uuid action arguments)) OnOk.on_err)

  parse_request-IsMade : (arguments : List Text) → Makes (parse_request pid is_uuid arguments)
  unfolding parse_request
  parse_request-IsMade [] = OnOk.on_err
  parse_request-IsMade (method ∷ arguments) =
      requests _ method (given_params-AllTaken [] arguments tt)

  parse_plain-IsMade :
      (command : Text) (arguments : List Text) → Makes (parse_plain pid is_uuid command arguments)
  unfolding parse_plain
  parse_plain-IsMade command [] = request-IsMade command [] tt
  parse_plain-IsMade command (_ ∷ _) = OnOk.on_err

  parse_command-IsMade : (arguments : List Text) → Makes (parse_command pid is_uuid arguments)
  unfolding parse_command parse_events
  parse_command-IsMade [] = OnOk.on_err
  parse_command-IsMade (command ∷ tail) =
      arm
        (same_text command (codes "ping")
          || same_text command (codes "tree")
          || same_text command (codes "identify")
          || same_text command (codes "capabilities"))
        _ _ (parse_plain-IsMade command tail)
        (arm (same_text command (codes "events")) _ _
          (requests _ _ (event_params-AllTaken [] tail tt))
          (arm (same_text command (codes "ssh")) _ _ (parse_ssh-IsMade tail) (
            arm (same_text command (codes "request")) _ _ (parse_request-IsMade tail) (
              arm
                (same_text command (codes "workspace")
                  || same_text command (codes "group")
                  || same_text command (codes "tab"))
                _ _ (parse_hierarchy-IsMade command tail)
                (arm (same_text command (codes "pane")) _ _ (parse_pane-IsMade tail)
                  OnOk.on_err)))))

  -- A request of the command line with at most 32 parameters passes the test of the server.
  pub parse_command-IsRequest :
      (arguments : List Text) (r : ControlRequest Value)
      → parse_command pid is_uuid arguments ≡ ok r
      → length r.params ≤ 32
      → IsRequest r × ((m : ControlMethod) × (r.method ≡ as_str m))
  parse_command-IsRequest arguments r h few =
      let (version, id, (m, method), a) =
        ok-OnOk (parse_command pid is_uuid arguments) r (parse_command-IsMade arguments) h in
      let (n, l, p) = as_str_bounds m in
      (
        record {
          version = version;
          id = cli_id-Plain pid r.id id;
          method = rw method ((n, ground (arith, l)), p);
          count = few;
          params = taken_params r.method r.params a;
        },
        (m, method),
      )
