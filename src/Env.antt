-- ===== src/Env.antt =====
-- src/env.cpp and include/vynkor/env.hpp: where the socket is and which credentials a plugin has. The
-- environment and the system calls are a parameter.
pub mod Laws
pub mod Tests
use vynkor_sdk_cpp.Base.{
  ℕ, Bool, true, false, not, ◌&&◌, Option, none, some, [], ◌∷◌, ◌++◌, if◌then◌else◌,
}
use vynkor_sdk_cpp.Base.Text.{Text, lit, is_empty, to_string}
use vynkor_sdk_cpp.Error.{Result, ok, throws, internal}
use vynkor_sdk_cpp.Mac.{Bytes}

-- What `mkdir` answers: success, EEXIST, or another error.
pub data Mkdir : Type 0 where
  made already_there refused : Mkdir

-- `stat` with S_ISDIR, `getenv`, `getuid`, `mkdir` with mode 0700 and whether `chmod` to 0700 succeeds.
pub record System : Type 0 where
  pub getenv : Text → Option Text
  pub is_directory : Text → Bool
  pub getuid : ℕ
  pub mkdir : Text → Mkdir
  pub chmod : Text → Bool

-- The variable, where it is set and not empty.
unfoldable pub env_value : System → Text → Option Text
env_value sys name = elim (sys.getenv name) [
  | none ↦ none
  | some [] ↦ none
  | some (c ∷ s) ↦ some (c ∷ s)
]

unfoldable pub ensure_private_dir : System → Text → Bool
ensure_private_dir sys dir = elim (sys.mkdir dir) [
  | made ↦ sys.chmod dir
  | already_there ↦ sys.chmod dir
  | refused ↦ false
]

abbrev pub run_user : System → Text
run_user sys = lit "/run/user/" ++ to_string sys.getuid

-- Below the home directory, if it can be made private.
unfoldable pub home_socket : System → Text
home_socket sys = elim (env_value sys (lit "HOME")) [
  | none ↦ []
  | some home ↦
      let dir = home ++ lit "/.local/state/vyn/run" in
      if ensure_private_dir sys dir then dir ++ lit "/vyn.sock" else []
]

unfoldable pub default_socket_path : System → Text
default_socket_path sys = elim (env_value sys (lit "VYN_SOCKET_PATH")) [
  | some path ↦ path
  | none ↦ elim (env_value sys (lit "XDG_RUNTIME_DIR")) [
    | some xdg ↦ xdg ++ lit "/vyn.sock"
    | none ↦
        if sys.is_directory (run_user sys) then run_user sys ++ lit "/vyn.sock" else home_socket sys
  ]
]

-- The explicit value, else the variable, else nothing.
unfoldable pub explicit_or : System → Text → Text → Text
explicit_or sys name [] = elim (env_value sys name) [ none ↦ [] | some value ↦ value ]
explicit_or sys name (c ∷ s) = c ∷ s

unfoldable pub resolve_jwt_token : System → Text → Text
resolve_jwt_token sys explicit_token = explicit_or sys (lit "VYN_JWT_TOKEN") explicit_token

unfoldable pub resolve_jwt_secret : System → Bytes → Bytes
resolve_jwt_secret sys explicit_secret = explicit_or sys (lit "VYN_JWT_SECRET") explicit_secret

pub data Kind : Type 0 where
  no_credentials device shared : Kind

pub record WsCredentials : Type 0 where
  pub kind : Kind
  pub device_id : Text
  pub secret : Bytes

unfoldable pub resolve_ws_credentials : Text → Text → Text → Result WsCredentials
resolve_ws_credentials device_id device_secret jwt_secret =
    let has_id = not (is_empty device_id) in
    let has_secret = not (is_empty device_secret) in
    if has_id && has_secret
    then if not (is_empty jwt_secret)
      then throws (
          internal (
            lit
              "VYN_JWT_SECRET is set alongside VYN_DEVICE_ID/VYN_DEVICE_SECRET — a paired device must not hold the host master secret; unset it"))
      else ok (record { kind = device; device_id = device_id; secret = device_secret })
    else if has_id
    then throws (internal (lit "VYN_DEVICE_ID is set without VYN_DEVICE_SECRET"))
    else if has_secret
    then throws (internal (lit "VYN_DEVICE_SECRET is set without VYN_DEVICE_ID"))
    else if not (is_empty jwt_secret)
    then ok (record { kind = shared; device_id = []; secret = jwt_secret })
    else ok (record { kind = no_credentials; device_id = []; secret = [] })

-- The variable, or nothing where it is not set.
unfoldable pub get : System → Text → Text
get sys key = elim (sys.getenv key) [ none ↦ [] | some v ↦ v ]

unfoldable pub resolve_ws_credentials_from_env : System → Result WsCredentials
resolve_ws_credentials_from_env sys =
    resolve_ws_credentials (get sys (lit "VYN_DEVICE_ID")) (get sys (lit "VYN_DEVICE_SECRET"))
      (get sys (lit "VYN_JWT_SECRET"))
