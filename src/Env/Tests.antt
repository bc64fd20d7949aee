-- ===== src/Env/Tests.antt =====
-- Runs of src/env.cpp.
use vynkor_sdk_cpp.Base.{◌≡◌, ◌≢◌, ◌↔◌, refl, true, false, none, some, [], text_eq, if◌then◌else◌}
use vynkor_sdk_cpp.Base.Text.{lit}
use vynkor_sdk_cpp.Error.{ok}
use vynkor_sdk_cpp.Env.{
  System, made, device, env_value, home_socket, default_socket_path, resolve_ws_credentials,
  ensure_private_dir,
}
use vynkor_sdk_cpp.Env.Laws.{
  Allowed, PathSource, resolve_ws_credentials_iff, default_socket_path-PathSource,
}

-- Only HOME is set.
abbrev homely : System
homely = record {
  getenv = λ name. if text_eq name (lit "HOME") then some (lit "/root") else none;
  is_directory = λ path. false;
  getuid = 0;
  mkdir = λ dir. made;
  chmod = λ dir. true;
}

resolve_ws_credentials_iff_example :
    (resolve_ws_credentials (lit "phone") (lit "s") []
      ≡ ok (record { kind = device; device_id = lit "phone"; secret = lit "s" }))
    ↔ Allowed
        (lit "phone")
        (lit "s")
        []
        (record { kind = device; device_id = lit "phone"; secret = lit "s" })
resolve_ws_credentials_iff_example =
    resolve_ws_credentials_iff (lit "phone") (lit "s") []
      (record { kind = device; device_id = lit "phone"; secret = lit "s" })

homely_path : default_socket_path homely ≡ lit "/root/.local/state/vyn/run/vyn.sock"
unfolding default_socket_path home_socket env_value ensure_private_dir lit text_eq
homely_path = refl

homely_some : default_socket_path homely ≢ []
unfolding lit
homely_some h = cc (h, homely_path)

default_socket_path-PathSource_example : PathSource homely (default_socket_path homely)
default_socket_path-PathSource_example = default_socket_path-PathSource homely homely_some
