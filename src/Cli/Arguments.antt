-- ===== src/Cli/Arguments.antt =====
-- The arguments of kitmux-linux/rust/model/src/cli.rs and the parameters made of them.
use kitmux_linux.Base.{
  ℕ, ◌*◌, Bool, true, false, not, ◌&&◌, ◌||◌, none, some, List, [], ◌∷◌, ◌++◌, ◌==◌, ltb, leb,
  if◌then◌else◌,
}
use kitmux_linux.Base.Result.{Result, ok, err, ◌>>=◌, ◌>>◌, guard}
use kitmux_linux.Text.{Text, codes, same_text, byte_len, is_empty, is_control, any, split_once}

abbrev pub cli_max_argument_bytes : ℕ
cli_max_argument_bytes = 16 * 1024

pub data CliParseError : Type 0 where
  help version : CliParseError
  usage : Text → CliParseError

-- A `BTreeMap` from texts to texts.
abbrev pub Params : Type 0
Params = List (Text × Text)

-- The order of texts.
unfoldable pub text_less : Text → Text → Bool
text_less [] [] = false
text_less [] (b ∷ bs) = true
text_less (a ∷ as') [] = false
text_less (a ∷ as') (b ∷ bs) = ltb a b || (a == b && text_less as' bs)

-- `BTreeMap::insert`, which keeps the order of the keys and replaces the value of one that is there.
unfoldable pub insert : Text → Text → Params → Params
insert key value [] = (key, value) ∷ []
insert key value ((k, v) ∷ params) =
    let rest = insert key value params in
    if same_text key k
    then (key, value) ∷ params
    else if text_less key k
    then (key, value) ∷ (k, v) ∷ params
    else (k, v) ∷ rest

-- The condition of `insert_param` under which a parameter is taken.
unfoldable pub accepts : Text → Text → Bool
accepts key value = not (
    is_empty key
    || ltb 128 (byte_len key)
    || is_empty value
    || ltb cli_max_argument_bytes (byte_len value)
    || any is_control key
    || any is_control value)

unfoldable pub insert_param : Params → Text → Text → Result Params CliParseError
insert_param params key value = do
  guard (accepts key value) (
      CliParseError.usage
        (codes "CLI identifiers and values must be non-empty, bounded, and control-free"))
  ok (insert key value params)

unfoldable pub one_param : Text → Text → Result Params CliParseError
one_param key value = insert_param [] key value

-- Two maps of one entry each, chained and collected.
unfoldable pub two_params : Text → Text → Text → Text → Result Params CliParseError
two_params key value key' value' = do
  params ← one_param key value
  _ ← one_param key' value'
  ok (insert key' value' params)

-- The parameters of a close with one more argument.
unfoldable pub close_params : Text → Text → Result Params CliParseError
close_params id flag = do
  params ← one_param (codes "id") id
  (if same_text flag (codes "--force")
      then insert_param params (codes "force") (codes "true")
      else err (CliParseError.usage (codes "close accepts only --force")))

-- The loop of `parse_events`.
unfoldable pub event_key : Text → Result Text CliParseError
event_key option =
    if same_text option (codes "--after")
    then ok (codes "after")
    else if same_text option (codes "--limit")
    then ok (codes "limit")
    else if same_text option (codes "--category")
    then ok (codes "category")
    else err (CliParseError.usage (codes "events accepts --after, --limit, and --category"))

unfoldable pub event_params : Params → List Text → Result Params CliParseError
event_params params [] = ok params
event_params params (option ∷ []) =
    err (CliParseError.usage (codes "events options require values"))
event_params params (option ∷ value ∷ arguments) = do
  key ← event_key option
  params' ← insert_param params key value
  event_params params' arguments

-- The loop over the parameters of `request`.
unfoldable pub given_params : Params → List Text → Result Params CliParseError
given_params params [] = ok params
given_params params (argument ∷ arguments) = elim (split_once 61 argument) [
  | none ↦ err (CliParseError.usage (codes "request parameters must use key=value"))
  | some (key, value) ↦ do params' ← insert_param params key value; given_params params' arguments
]

-- `join(" ")` of the words from the first one on.
unfoldable pub join_words : Text → List Text → Text
join_words word [] = word
join_words word (next ∷ words) = word ++ 32 ∷ join_words next words

unfoldable pub is_lower_hex : ℕ → Bool
is_lower_hex c = (leb 48 c && leb c 57) || (leb 97 c && leb c 102)

abbrev pub not_hex : ℕ → Bool
not_hex c = not (is_lower_hex c)

unfoldable pub valid_fingerprint : Text → Bool
valid_fingerprint value = byte_len value == 64 && not (any not_hex value)

-- What the identifier of a connection names.
abbrev pub role : Text → Text
role action = if same_text action (codes "connect") then codes "profile" else codes "pane"

module _ (is_uuid : Text → Bool) where
  -- `parse_ssh` for a connection, by the number of the arguments behind the action.
  unfoldable pub connection : Text → List Text → Result Params CliParseError
  connection action (id ∷ []) =
      if is_uuid id
      then one_param (role action) id
      else err (CliParseError.usage (codes "ssh " ++ action ++ codes " requires an exact UUID"))
  connection action (id ∷ flag ∷ fingerprint ∷ []) = do
    guard (is_uuid id)
        (CliParseError.usage (codes "ssh " ++ action ++ codes " requires an exact UUID"))
    params ← one_param (role action) id
    guard (same_text flag (codes "--approve") && valid_fingerprint fingerprint) (
        CliParseError.usage
          (codes "--approve requires a lowercase 64-character SHA-256 fingerprint"))
    insert_param params (codes "fingerprint") fingerprint
  connection action _ = err (
      CliParseError.usage (
        codes "ssh "
        ++ action
        ++ codes " requires an exact UUID and optional --approve FINGERPRINT"))

abbrev pub is_profile_list : List Text → Bool
is_profile_list (a ∷ b ∷ []) = same_text a (codes "profile") && same_text b (codes "list")
is_profile_list _ = false
