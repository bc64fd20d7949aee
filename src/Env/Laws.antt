-- ===== src/Env/Laws.antt =====
-- The policies of src/env.cpp: which credentials a plugin may hold, and which directories may hold
-- the socket.
use vynkor_sdk_cpp.Base.{
  ◌≡◌, ◌≢◌, ◌⊎◌, ◌↔◌, inl, inr, refl, sym, ◌∙◌, subst, arith, true, some, [], ◌∷◌, ◌++◌, Bool-cases,
  Option-cases,
}
use vynkor_sdk_cpp.Base.Text.{Text, lit}
use vynkor_sdk_cpp.Error.{ok}
use vynkor_sdk_cpp.Env.{
  System, Mkdir, made, already_there, refused, env_value, ensure_private_dir, run_user, home_socket,
  default_socket_path, WsCredentials, device, shared, no_credentials, resolve_ws_credentials,
}

-- The credentials of a paired device, of the host, or none.
abbrev pub Allowed : Text → Text → Text → WsCredentials → Type 0
Allowed device_id device_secret jwt_secret c =
    ((device_id ≢ [])
      × (device_secret ≢ [])
      × (jwt_secret ≡ [])
      × (c ≡ record { kind = device; device_id = device_id; secret = device_secret }))
    ⊎ (((device_id ≡ [])
          × (device_secret ≡ [])
          × (jwt_secret ≢ [])
          × (c ≡ record { kind = shared; device_id = []; secret = jwt_secret }))
        ⊎ ((device_id ≡ [])
            × (device_secret ≡ [])
            × (jwt_secret ≡ [])
            × (c ≡ record { kind = no_credentials; device_id = []; secret = [] })))

-- Credentials are returned exactly in three cases, and throw in all others: a device with its id and
-- its own secret, which must not hold the master secret; the host with the master secret and neither
-- device variable; or nothing at all.
pub resolve_ws_credentials_iff :
    (device_id device_secret jwt_secret : Text) (c : WsCredentials)
    → (resolve_ws_credentials device_id device_secret jwt_secret ≡ ok c)
      ↔ Allowed device_id device_secret jwt_secret c
unfolding resolve_ws_credentials
resolve_ws_credentials_iff [] [] [] c = ground arith
resolve_ws_credentials_iff [] [] (z ∷ zs) c = ground arith
resolve_ws_credentials_iff [] (y ∷ ys) [] c = ground arith
resolve_ws_credentials_iff [] (y ∷ ys) (z ∷ zs) c = ground arith
resolve_ws_credentials_iff (x ∷ xs) [] [] c = ground arith
resolve_ws_credentials_iff (x ∷ xs) [] (z ∷ zs) c = ground arith
resolve_ws_credentials_iff (x ∷ xs) (y ∷ ys) [] c = ground arith
resolve_ws_credentials_iff (x ∷ xs) (y ∷ ys) (z ∷ zs) c = ground arith

-- The variable has this value, which is not empty.
abbrev pub IsSetTo : System → Text → Text → Type 0
IsSetTo sys name value = (sys.getenv name ≡ some value) × (value ≢ [])

-- The directory was made or was there already, and its mode was then set to 0700.
abbrev pub IsMadePrivate : System → Text → Type 0
IsMadePrivate sys dir =
    ((sys.mkdir dir ≡ made) ⊎ (sys.mkdir dir ≡ already_there)) × (sys.chmod dir ≡ true)

-- Where a socket path may come from.
abbrev pub PathSource : System → Text → Type 0
PathSource sys path =
    IsSetTo sys (lit "VYN_SOCKET_PATH") path
    ⊎ (((xdg : Text) × IsSetTo sys (lit "XDG_RUNTIME_DIR") xdg × (path ≡ xdg ++ lit "/vyn.sock"))
        ⊎ (((sys.is_directory (run_user sys) ≡ true) × (path ≡ run_user sys ++ lit "/vyn.sock"))
            ⊎ ((home : Text) × IsSetTo sys (lit "HOME") home
                × IsMadePrivate sys (home ++ lit "/.local/state/vyn/run")
                × (path ≡ (home ++ lit "/.local/state/vyn/run") ++ lit "/vyn.sock"))))

env_value-IsSetTo :
    (sys : System) (name value : Text) → env_value sys name ≡ some value → IsSetTo sys name value
unfolding env_value
env_value-IsSetTo sys name value h = elim (Option-cases (sys.getenv name)) [
  | inl e ↦ cc (rw (e, env_value) at h)
  | inr ([], e) ↦ cc (rw (e, env_value) at h)
  | inr (c ∷ s, e) ↦
      let same : some (c ∷ s) ≡ some value = rw (e, env_value) at h in
      (e ∙ same, λ empty. cc (same, empty))
]

Mkdir-cases : (m : Mkdir) → (m ≡ made) ⊎ ((m ≡ already_there) ⊎ (m ≡ refused))
Mkdir-cases made = inl refl
Mkdir-cases already_there = inr (inl refl)
Mkdir-cases refused = inr (inr refl)

ensure_private_dir-IsMadePrivate :
    (sys : System) (dir : Text) → ensure_private_dir sys dir ≡ true → IsMadePrivate sys dir
unfolding ensure_private_dir
ensure_private_dir-IsMadePrivate sys dir h = elim (Mkdir-cases (sys.mkdir dir)) [
  | inl e ↦ (inl e, rw (e, ensure_private_dir) at h)
  | inr (inl e) ↦ (inr e, rw (e, ensure_private_dir) at h)
  | inr (inr e) ↦ cc (rw (e, ensure_private_dir) at h)
]

home_socket-PathSource : (sys : System) → home_socket sys ≢ [] → PathSource sys (home_socket sys)
unfolding home_socket
home_socket-PathSource sys h = elim (Option-cases (env_value sys (lit "HOME"))) [
  | inl e ↦ absurd (h (rw (e, home_socket)))
  | inr (home, e) ↦
      let dir = home ++ lit "/.local/state/vyn/run" in
      elim (Bool-cases (ensure_private_dir sys dir)) [
        | inl private ↦ inr (
            inr (
              inr (
                home,
                env_value-IsSetTo sys (lit "HOME") home e,
                ensure_private_dir-IsMadePrivate sys dir private,
                rw (e, private, home_socket),
              )))
        | inr failed ↦ absurd (h (rw (e, failed, home_socket)))
      ]
]

-- A default socket path, where there is one, is the non-empty value of VYN_SOCKET_PATH, or vyn.sock in the
-- directory that a non-empty XDG_RUNTIME_DIR names, in /run/user of the user where that is a directory, or in
-- .local/state/vyn/run below a non-empty HOME, for which `mkdir` made the directory or answered that it exists
-- and `chmod` to 0700 succeeded.
pub default_socket_path-PathSource :
    (sys : System) → default_socket_path sys ≢ [] → PathSource sys (default_socket_path sys)
unfolding default_socket_path
default_socket_path-PathSource sys h = elim (Option-cases (env_value sys (lit "VYN_SOCKET_PATH"))) [
  | inr (path, e) ↦
      let same : default_socket_path sys ≡ path = rw (e, default_socket_path) refl in
      inl (
        subst (IsSetTo sys (lit "VYN_SOCKET_PATH")) (sym same)
          (env_value-IsSetTo sys (lit "VYN_SOCKET_PATH") path e))
  | inl e ↦ elim (Option-cases (env_value sys (lit "XDG_RUNTIME_DIR"))) [
    | inr (xdg, f) ↦ inr (
        inl (
          xdg,
          env_value-IsSetTo sys (lit "XDG_RUNTIME_DIR") xdg f,
          rw (e, f, default_socket_path),
        ))
    | inl f ↦ elim (Bool-cases (sys.is_directory (run_user sys))) [
      | inl d ↦ inr (inr (inl (d, rw (e, f, d, default_socket_path))))
      | inr d ↦
          let same : default_socket_path sys ≡ home_socket sys =
            rw (e, f, d, default_socket_path) in
          subst (PathSource sys) (sym same) (home_socket-PathSource sys (λ empty. h (same ∙ empty)))
    ]
  ]
]
