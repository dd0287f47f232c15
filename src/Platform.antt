-- ===== src/Platform.antt =====
-- kitmux-linux/rust/model/src/platform.rs: the directories of the user, the address of the control
-- socket, and the test of a private directory. A path is the text of its name.
use mathlib.Core.Option
use kitmux_linux.Base.{
  ℕ, zero, suc, ◌+◌, ◌/◌, ◌%◌, ◌^◌, Bool, true, false, not, ◌&&◌, ◌||◌, Option, none, some, List,
  [], ◌∷◌, ◌++◌, ◌==◌, ltb, leb, if◌then◌else◌,
}
use kitmux_linux.Base.Result.{Result, ok, err, ◌>>=◌, ◌>>◌, guard}
use kitmux_linux.Text.{Text, codes, byte_len, any, is_empty}
pub mod Decimal
pub mod Sockets

-- `HashMap<String, String>`
abbrev pub Environment : Type 0
Environment = Text → Option Text

pub data RuntimePathError : Type 0 where
  not_absolute : Text → RuntimePathError
  socket_path_too_long : ℕ → RuntimePathError
  non_utf8 contains_nul missing_parent unsafe_runtime_directory : RuntimePathError
  unsafe_permissions : ℕ → RuntimePathError
  wrong_owner : ℕ → ℕ → RuntimePathError
  io : Text → RuntimePathError

-- The digits of a number in a base, at most `fuel` of them.
unfoldable pub digits : ℕ → ℕ → ℕ → Text → Text
digits zero base n rest = rest
digits (suc fuel) base n rest =
    let rest' = (48 + n % base) ∷ rest in
    let more = digits fuel base (n / base) rest' in if ltb n base then rest' else more

-- `{}` and `{:o}` of a number below 2 ^ 64.
unfoldable pub decimal : ℕ → Text
decimal n = digits 20 10 n []

unfoldable pub octal : ℕ → Text
octal n = digits 22 8 n []

-- `fmt` of the errors.
unfoldable pub error_text : RuntimePathError → Text
error_text (RuntimePathError.not_absolute name) = name ++ codes " path must be absolute"
error_text (RuntimePathError.socket_path_too_long length) =
    codes "Unix socket path is " ++ decimal length ++ codes " bytes; Linux allows 107"
error_text RuntimePathError.non_utf8 = codes "path is not UTF-8"
error_text RuntimePathError.contains_nul = codes "path contains NUL"
error_text RuntimePathError.missing_parent = codes "path has no parent directory"
error_text RuntimePathError.unsafe_runtime_directory =
    codes "runtime directory is not a real directory"
error_text (RuntimePathError.unsafe_permissions mode) =
    codes "runtime directory permissions " ++ octal mode ++ codes " are not private"
error_text (RuntimePathError.wrong_owner expected actual) =
    codes "runtime directory owner "
    ++ decimal actual
    ++ codes " does not match "
    ++ decimal expected
error_text (RuntimePathError.io message) = message

-- `Path::is_absolute`
unfoldable pub is_absolute : Text → Bool
is_absolute [] = false
is_absolute (c ∷ cs) = c == 47

abbrev ends_in_separator : Text → Bool
ends_in_separator [] = true
ends_in_separator (c ∷ []) = c == 47
ends_in_separator (c ∷ d ∷ cs) = ends_in_separator (d ∷ cs)

-- `Path::join` with a relative path.
unfoldable pub join : Text → Text → Text
join path name = if ends_in_separator path then path ++ name else path ++ 47 ∷ name

-- A variable that is set and not empty.
unfoldable pub variable : Environment → Text → Option Text
variable environment key =
    Option.bind (environment key) (λ value. if is_empty value then none else some value)

pub record XdgPaths : Type 0 where
  pub config_home : Text
  pub data_home : Text
  pub state_home : Text
  pub cache_home : Text
  pub runtime_dir : Option Text

unfoldable pub xdg_home : Environment → Text → Text → Result Text RuntimePathError
xdg_home environment key fallback = elim (variable environment key) [
  | none ↦ ok fallback
  | some path ↦ if is_absolute path then ok path else err (RuntimePathError.not_absolute key)
]

unfoldable pub absolute_or_none : Option Text → Option Text
absolute_or_none none = none
absolute_or_none (some path) = if is_absolute path then some path else none

-- `XdgPaths::resolve`
unfoldable pub resolve_xdg : Environment → Text → Result XdgPaths RuntimePathError
resolve_xdg environment home = do
  guard (is_absolute home) (RuntimePathError.not_absolute (codes "home"))
  config ← xdg_home environment (codes "XDG_CONFIG_HOME") (join home (codes ".config"))
  data_home ← xdg_home environment (codes "XDG_DATA_HOME") (join home (codes ".local/share"))
  state ← xdg_home environment (codes "XDG_STATE_HOME") (join home (codes ".local/state"))
  cache ← xdg_home environment (codes "XDG_CACHE_HOME") (join home (codes ".cache"))
  ok (record {
    config_home = config;
    data_home = data_home;
    state_home = state;
    cache_home = cache;
    runtime_dir = absolute_or_none (variable environment (codes "XDG_RUNTIME_DIR"));
  })

unfoldable pub settings_file : XdgPaths → Text
settings_file xdg = join xdg.config_home (codes "kitmux/settings.json")

unfoldable pub state_file : XdgPaths → Text
state_file xdg = join xdg.state_home (codes "kitmux/state.json")

unfoldable pub ssh_profiles_file : XdgPaths → Text
ssh_profiles_file xdg = join xdg.config_home (codes "kitmux/ssh-profiles.json")

abbrev pub linux_sun_path_max_bytes : ℕ
linux_sun_path_max_bytes = 107

abbrev is_nul : ℕ → Bool
is_nul c = c == 0

unfoldable pub path_bytes : Text → Result ℕ RuntimePathError
path_bytes path = if any is_nul path then err RuntimePathError.contains_nul else ok (byte_len path)

pub record UnixSocketAddress : Type 0 where
  pub path : Text

-- `UnixSocketAddress::new`
unfoldable pub new_address : Text → Result UnixSocketAddress RuntimePathError
new_address path = do
  guard (is_absolute path) (RuntimePathError.not_absolute (codes "socket"))
  length ← path_bytes path
  guard (leb length linux_sun_path_max_bytes) (RuntimePathError.socket_path_too_long length)
  ok (record { path = path })

-- "/tmp/kitmux-{uid}/kitmux.sock"
unfoldable pub fallback_path : ℕ → Text
fallback_path uid = codes "/tmp/kitmux-" ++ decimal uid ++ codes "/kitmux.sock"

-- `UnixSocketAddress::resolve`
unfoldable pub resolve_address :
    Environment → XdgPaths → ℕ → Result UnixSocketAddress RuntimePathError
resolve_address environment xdg uid = elim (variable environment (codes "KITMUX_SOCKET_PATH")) [
  | some value ↦ new_address value
  | none ↦ elim xdg.runtime_dir [
    | none ↦ new_address (fallback_path uid)
    | some root ↦ do
      let path = join root (codes "kitmux/kitmux.sock")
      length ← path_bytes path
      (if leb length linux_sun_path_max_bytes
          then new_address path
          else new_address (fallback_path uid))
  ]
]

-- The home of the user; the entry of the user data base, a text if it has one, is what `getpwuid_r`
-- gives.
unfoldable pub current_user_home : Option Text → Environment → Text
current_user_home entry environment = elim (absolute_or_none entry) [
  | some home ↦ home
  | none ↦ elim (absolute_or_none (environment (codes "HOME"))) [
    | some home ↦ home
    | none ↦ codes "/tmp"
  ]
]

unfoldable pub resolve_control_socket :
    Option Text → Environment → ℕ → Result UnixSocketAddress RuntimePathError
resolve_control_socket entry environment uid = do
  xdg ← resolve_xdg environment (current_user_home entry environment)
  resolve_address environment xdg uid

-- What the system says of a file.
pub record Metadata : Type 0 where
  pub is_symlink : Bool
  pub is_dir : Bool
  pub uid : ℕ
  pub mode : ℕ

-- `mode & 0o077` and `mode & 0o777` are the remainders by 2 ^ 6 and 2 ^ 9.
unfoldable pub validate_private_directory : Metadata → ℕ → Result (Unit {0}) RuntimePathError
validate_private_directory metadata expected = do
  guard (not (metadata.is_symlink || not metadata.is_dir)) RuntimePathError.unsafe_runtime_directory
  guard (metadata.uid == expected) (RuntimePathError.wrong_owner expected metadata.uid)
  guard (metadata.mode % 2 ^ 6 == 0) (RuntimePathError.unsafe_permissions (metadata.mode % 2 ^ 9))
