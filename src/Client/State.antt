-- ===== src/Client/State.antt =====
-- src/client.cpp: the connection itself. What `socket`, `connect` and the WebSocket handshake answer are
-- arguments; closing a socket has no state to keep here.
use vynkor_sdk_cpp.Base.{
  ℕ, Bool, true, false, Option, none, some, [], ◌∷◌, ◌++◌, length, leb, if◌then◌else◌,
}
use vynkor_sdk_cpp.Base.Text.{Text, lit}
use vynkor_sdk_cpp.Error.{Result, ok, throws, io, internal, ◌>>=◌}
use vynkor_sdk_cpp.Mac.{Bytes}
use vynkor_sdk_cpp.Client.Reassembly.{Streams}

-- `fd` is none for -1; `ws` says that there is a WebSocket connection.
pub record VynkorClient : Type 0 where
  pub socket_path : Text
  pub fd : Option ℕ
  pub ws : Bool
  pub secret : Bytes
  pub device_id : Text
  pub session_key : Option Bytes
  pub reassembly : Streams
  pub next_stream_id : ℕ

abbrev pub new_client : Text → Bytes → VynkorClient
new_client socket_path secret = record {
  socket_path = socket_path;
  fd = none;
  ws = false;
  secret = secret;
  device_id = [];
  session_key = none;
  reassembly = [];
  next_stream_id = 1;
}

abbrev pub adopt_fd : ℕ → Bytes → VynkorClient
adopt_fd fd secret = record (new_client [] secret) { fd = some fd }

-- The move constructor: every member but `device_id_` is taken from the other client.
unfoldable pub moved : VynkorClient → VynkorClient
moved other = record other { device_id = [] }

-- The move assignment to another client, which keeps its own `device_id_`.
unfoldable pub move_assigned : VynkorClient → VynkorClient → VynkorClient
move_assigned self other = record other { device_id = self.device_id }

abbrev pub set_device_id : VynkorClient → Text → VynkorClient
set_device_id c device_id = record c { device_id = device_id }

abbrev pub is_secured : VynkorClient → Bool
is_secured c = elim c.session_key [ none ↦ false | some key ↦ true ]

unfoldable pub close : VynkorClient → VynkorClient
close c = record c { ws = false; fd = none }

unfoldable pub native_handle : VynkorClient → Result (Option ℕ)
native_handle c =
    if c.ws
    then throws (internal (lit "native_handle is only valid on the UDS transport"))
    else ok c.fd

-- `sizeof(sockaddr_un{}.sun_path)`
abbrev pub sun_path_size : ℕ
sun_path_size = 108

-- `socket` gives a descriptor or fails, `connected` is whether `::connect` succeeds.
unfoldable pub connect : Option ℕ → Bool → VynkorClient → VynkorClient × Result (Unit {0})
unfolding close
connect socket connected c =
    let closed = close c in
    elim socket [
      | none ↦ (closed, throws (io (lit "socket() failed")))
      | some fd ↦
          if leb sun_path_size (length c.socket_path)
          then (closed, throws (io (lit "socket path too long: " ++ c.socket_path)))
          else if connected
          then (record closed { fd = some fd }, ok tt)
          else (closed, throws (io (lit "connect() failed: " ++ c.socket_path)))
    ]

-- The static factories: a client that is returned is connected.
unfoldable pub connect_with_secret : Option ℕ → Bool → Text → Bytes → Result VynkorClient
connect_with_secret socket connected socket_path secret =
    let (client, status) = connect socket connected (new_client socket_path secret) in
    status >>= λ done. ok client

unfoldable pub connect_from_env : Option ℕ → Bool → Result Text → Bytes → Result VynkorClient
connect_from_env socket connected default_path secret =
    default_path >>= λ socket_path. connect_with_secret socket connected socket_path secret

-- The protocol header of the gateway: the marker, and the token behind it.
unfoldable pub ws_protocol : Text → Text
ws_protocol [] = lit "vynkor"
ws_protocol (c ∷ token) = lit "vynkor, " ++ (c ∷ token)

-- `handshake` is what `parse_ws_url` and `WsConnection::connect` give for the protocol.
unfoldable pub connect_ws : (Text → Result (Unit {0})) → Text → Bytes → Result VynkorClient
connect_ws handshake jwt_token secret =
    handshake (ws_protocol jwt_token) >>= λ done. ok (record (new_client [] secret) { ws = true })

unfoldable pub connect_ws_device :
    (Text → Result (Unit {0})) → Text → Text → Bytes → Result VynkorClient
connect_ws_device handshake jwt_token device_id device_secret =
    connect_ws handshake jwt_token device_secret >>= λ client. ok (set_device_id client device_id)
