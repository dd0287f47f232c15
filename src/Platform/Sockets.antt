-- ===== src/Platform/Sockets.antt =====
-- The addresses of the control socket.
use mathlib.Core.Option
use kitmux_linux.Base.{
  ℕ, ◌≡◌, ◌≤◌, refl, inl, inr, ◌⊎◌, ◌↔◌, Bool, true, false, Option, none, some, [], ◌∷◌, leb, arith,
  if◌then◌else◌, Option-cases,
}
use kitmux_linux.Base.Result.{Result, Result-cases, ok}
use kitmux_linux.Text.{Text, codes, byte_len, char_len, any}
use kitmux_linux.Text.Laws.{byte_len-append, any-append}
use kitmux_linux.Platform.Decimal.{decimal_lem}
use kitmux_linux.Platform.{
  Environment, UnixSocketAddress, XdgPaths, decimal, is_absolute, is_nul, variable, path_bytes,
  new_address, fallback_path, resolve_address, join, resolve_control_socket, current_user_home,
  resolve_xdg, xdg_home, absolute_or_none,
}

-- A path that a Unix socket can be bound to.
pub record IsSocketPath (path : Text) : Type 0 where
  pub absolute : is_absolute path ≡ true
  pub no_nul : any is_nul path ≡ false
  pub short : byte_len path ≤ 107

new_address_iff :
    (path : Text) (address : UnixSocketAddress)
    → (new_address path ≡ ok address) ↔ (IsSocketPath path × (address.path ≡ path))
unfolding new_address path_bytes
new_address_iff path address = ground arith

fallback_path-IsSocketPath : (uid : ℕ) → IsSocketPath (fallback_path uid)
unfolding fallback_path is_absolute any byte_len char_len
fallback_path-IsSocketPath uid =
    let (le, plain) = decimal_lem is_nul (λ d h. ground (arith, h)) uid in
    let tail = codes "/kitmux.sock" in
    let n = byte_len-append (decimal uid) tail in
    let z = any-append is_nul (decimal uid) tail in
    record { absolute = refl; no_nul = rw (z, plain) refl; short = rw n (omega (arith, le)) }

pub new_address_sound :
    (path : Text) (address : UnixSocketAddress)
    → new_address path ≡ ok address
    → IsSocketPath address.path
unfolding new_address path_bytes
new_address_sound path address h = ground (arith, h)

-- Every address that is resolved can be bound.
resolve_address_sound :
    (environment : Environment) (xdg : XdgPaths) (uid : ℕ) (address : UnixSocketAddress)
    → resolve_address environment xdg uid ≡ ok address
    → IsSocketPath address.path
unfolding resolve_address
resolve_address_sound environment xdg uid address h =
    let given = variable environment (codes "KITMUX_SOCKET_PATH") in
    elim (Option-cases given) [
      | inr (value, e) ↦ new_address_sound value address (ground (arith, h, e))
      | inl e ↦ elim (Option-cases xdg.runtime_dir) [
        | inl r ↦ new_address_sound (fallback_path uid) address (ground (arith, h, e, r))
        | inr (root, r) ↦
            let path = join root (codes "kitmux/kitmux.sock") in
            let k : (new_address path ≡ ok address)
                ⊎ (new_address (fallback_path uid) ≡ ok address) =
              ground (arith, h, e, r) in
            elim k [
              | inl k' ↦ new_address_sound path address k'
              | inr k' ↦ new_address_sound (fallback_path uid) address k'
            ]
      ]
    ]

-- A run without an error.
abbrev pub Succeeds : {A E : Type 0} → Result A E → Type 0
Succeeds {A} r = (a : A) × (r ≡ ok a)

new_address-Succeeds : (path : Text) → IsSocketPath path → Succeeds (new_address path)
new_address-Succeeds path v = (record { path = path }, (new_address_iff path _).1 (v, refl))

-- The variable is not set, is empty, or is an absolute path.
abbrev pub AbsoluteIfSet : Environment → Text → Type 0
AbsoluteIfSet environment key =
    (variable environment key ≡ none)
    ⊎ ((path : Text) × (variable environment key ≡ some path) × (is_absolute path ≡ true))

xdg_home-Succeeds :
    (environment : Environment) (key fallback : Text)
    → AbsoluteIfSet environment key
    → Succeeds (xdg_home environment key fallback)
unfolding xdg_home
xdg_home-Succeeds environment key fallback (inl e) = (fallback, rw (xdg_home, e) refl)
xdg_home-Succeeds environment key fallback (inr (path, e, a)) = (path, rw (xdg_home, e, a) refl)

current_user_home_absolute :
    (entry : Option Text) (environment : Environment)
    → is_absolute (current_user_home entry environment) ≡ true
unfolding current_user_home absolute_or_none is_absolute
current_user_home_absolute entry environment = ground arith

resolve_xdg-Succeeds :
    (environment : Environment) (home : Text)
    → is_absolute home ≡ true
    → AbsoluteIfSet environment (codes "XDG_CONFIG_HOME")
    → AbsoluteIfSet environment (codes "XDG_DATA_HOME")
    → AbsoluteIfSet environment (codes "XDG_STATE_HOME")
    → AbsoluteIfSet environment (codes "XDG_CACHE_HOME")
    → (xdg : XdgPaths) × (resolve_xdg environment home ≡ ok xdg)
      × (xdg.runtime_dir ≡ absolute_or_none (variable environment (codes "XDG_RUNTIME_DIR")))
unfolding resolve_xdg
resolve_xdg-Succeeds environment home h a b c d =
    let (config, e1) = xdg_home-Succeeds environment _ (join home (codes ".config")) a in
    let (data_home, e2) = xdg_home-Succeeds environment _ (join home (codes ".local/share")) b in
    let (state, e3) = xdg_home-Succeeds environment _ (join home (codes ".local/state")) c in
    let (cache, e4) = xdg_home-Succeeds environment _ (join home (codes ".cache")) d in
    let xdg : XdgPaths = record {
      config_home = config;
      data_home = data_home;
      state_home = state;
      cache_home = cache;
      runtime_dir = absolute_or_none (variable environment (codes "XDG_RUNTIME_DIR"));
    } in
    (xdg, rw (h, e1, e2, e3, e4) refl, refl)

-- A directory that is absolute and has no NUL in its name.
abbrev IsDirectory : Text → Type 0
IsDirectory root = (is_absolute root ≡ true) × (any is_nul root ≡ false)

join-IsDirectory :
    (root name : Text) → IsDirectory root → any is_nul name ≡ false → IsDirectory (join root name)
unfolding join is_absolute any
join-IsDirectory [] name (a, n) h = absurd (ground (arith, a))
join-IsDirectory (c ∷ cs) name (a, n) h =
    ground (arith, a, n, h, any-append is_nul cs name, any-append is_nul cs (47 ∷ name))

-- The path that is bound if it is short enough.
short_or_fallback :
    (path : Text) (uid : ℕ) (b : Bool)
    → IsDirectory path
    → leb (byte_len path) 107 ≡ b
    → Succeeds (if b then new_address path else new_address (fallback_path uid))
short_or_fallback path uid true (a, n) h =
    new_address-Succeeds path (record { absolute = a; no_nul = n; short = ground (arith, h) })
short_or_fallback path uid false d h =
    new_address-Succeeds (fallback_path uid) (fallback_path-IsSocketPath uid)

resolve_address-Succeeds :
    (environment : Environment) (xdg : XdgPaths) (uid : ℕ)
    → variable environment (codes "KITMUX_SOCKET_PATH") ≡ none
    → ((root : Text) → xdg.runtime_dir ≡ some root → IsDirectory root)
    → Succeeds (resolve_address environment xdg uid)
unfolding resolve_address path_bytes any
resolve_address-Succeeds environment xdg uid unset dir = elim (Option-cases xdg.runtime_dir) [
  | inl r ↦
      rw (resolve_address, unset, r)
        (new_address-Succeeds (fallback_path uid) (fallback_path-IsSocketPath uid))
  | inr (root, r) ↦
      let path = join root (codes "kitmux/kitmux.sock") in
      let d = join-IsDirectory root (codes "kitmux/kitmux.sock") (dir root r) refl in
      rw (resolve_address, unset, r, d.1) (short_or_fallback path uid _ d refl)
]

runtime-IsDirectory :
    (environment : Environment) (root : Text)
    → ((key value : Text) → environment key ≡ some value → any is_nul value ≡ false)
    → absolute_or_none (variable environment (codes "XDG_RUNTIME_DIR")) ≡ some root
    → IsDirectory root
unfolding absolute_or_none variable is_absolute Option.bind
runtime-IsDirectory environment root plain h =
    elim (Option-cases (environment (codes "XDG_RUNTIME_DIR"))) [
      | inl e ↦ absurd (ground (arith, h, e))
      | inr (value, e) ↦ let p = plain _ value e in ground (arith, h, e, p)
    ]

-- If no variable of the environment has a NUL, none of XDG_CONFIG_HOME, XDG_DATA_HOME,
-- XDG_STATE_HOME and XDG_CACHE_HOME is set to a relative path, and KITMUX_SOCKET_PATH is unset or
-- empty, the control socket resolves without an error to an absolute path of at most 107 bytes
-- without NUL.
pub resolve_control_socket_lem :
    (entry : Option Text) (environment : Environment) (uid : ℕ)
    → ((key value : Text) → environment key ≡ some value → any is_nul value ≡ false)
    → AbsoluteIfSet environment (codes "XDG_CONFIG_HOME")
    → AbsoluteIfSet environment (codes "XDG_DATA_HOME")
    → AbsoluteIfSet environment (codes "XDG_STATE_HOME")
    → AbsoluteIfSet environment (codes "XDG_CACHE_HOME")
    → variable environment (codes "KITMUX_SOCKET_PATH") ≡ none
    → (address : UnixSocketAddress) × (resolve_control_socket entry environment uid ≡ ok address)
      × IsSocketPath address.path
unfolding resolve_control_socket
resolve_control_socket_lem entry environment uid plain a b c d unset =
    let home = current_user_home entry environment in
    let absolute = current_user_home_absolute entry environment in
    let (xdg, e, r) = resolve_xdg-Succeeds environment home absolute a b c d in
    let (address, k) =
      resolve_address-Succeeds environment xdg uid unset
        λ root h. runtime-IsDirectory environment root plain (rw (← r) h) in
    (address, rw (e, k) refl, resolve_address_sound environment xdg uid address k)

-- An address that is resolved can be bound.
pub resolve_control_socket_sound :
    (entry : Option Text) (environment : Environment) (uid : ℕ) (address : UnixSocketAddress)
    → resolve_control_socket entry environment uid ≡ ok address
    → IsSocketPath address.path
unfolding resolve_control_socket
resolve_control_socket_sound entry environment uid address h =
    elim (Result-cases (resolve_xdg environment (current_user_home entry environment))) [
      | inl (e, k) ↦ absurd (ground (arith, h, k))
      | inr (xdg, k) ↦ resolve_address_sound environment xdg uid address (ground (arith, h, k))
    ]
