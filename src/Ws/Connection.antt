-- ===== src/Ws/Connection.antt =====
-- src/ws.cpp, `WsConnection`: the sockets and the TLS objects that a connection holds, from `connect` to `teardown`.
-- What the system calls and OpenSSL answer are parameters.
pub mod Released
pub mod Tests
use vynkor_sdk_cpp.Base.{
  ℕ, Bool, true, false, Option, none, some, List, [], ◌∷◌, ◌++◌, ◌==◌, if◌then◌else◌,
}
use vynkor_sdk_cpp.Base.Text.{Text, lit, to_string}
use vynkor_sdk_cpp.Error.{Exception, Result, ok, throws, io}
use vynkor_sdk_cpp.Mac.{Bytes}
use vynkor_sdk_cpp.Ws.Url.{WsUrl}
use vynkor_sdk_cpp.Ws.Codec.{ws_encode_client_frame, op_binary, op_close}
use vynkor_sdk_cpp.Ws.Stream.{
  Fill, StreamWrite, Written, all_written, write_waits, write_throws, stream_write_all, ws_io,
}
use vynkor_sdk_cpp.Ws.Receive.{Reply, Received, receive_binary_deadline}
use vynkor_sdk_cpp.Ws.Handshake.{Digests, Opened, opened, open_throws, open_waits, open_handshake}

-- `WsConnection::Impl` without its buffer.
pub record Impl : Type 0 where
  pub fd : Option ℕ
  pub ssl_ctx : Bool
  pub ssl : Bool

abbrev pub fresh : Impl
fresh = record { fd = none; ssl_ctx = false; ssl = false }

-- The calls that take and give back a resource.
pub data Call : Type 0 where
  socket_opened socket_closed : ℕ → Call
  ctx_made ctx_freed ssl_made ssl_shut_down ssl_freed : Call

abbrev pub when : Bool → List Call → List Call
when true calls = calls
when false calls = []

abbrev pub close_fd : Option ℕ → List Call
close_fd none = []
close_fd (some fd) = socket_closed fd ∷ []

-- `Impl::teardown`
unfoldable pub teardown : Impl → List Call × Impl
teardown impl = (
  when impl.ssl (ssl_shut_down ∷ (ssl_freed ∷ []))
      ++ (when impl.ssl_ctx (ctx_freed ∷ []) ++ close_fd impl.fd),
  fresh,
)

-- An address of `getaddrinfo`: `socket` fails, `connect` fails, or the socket is connected. The numbers are
-- file descriptors and errno.
pub data Address : Type 0 where
  no_socket : ℕ → Address
  refused : ℕ → ℕ → Address
  accepted : ℕ → Address

-- The loop over the addresses, with `last_errno`.
unfoldable pub try_addresses : List Address → ℕ → List Call × (Option ℕ × ℕ)
try_addresses [] last_errno = ([], (none, last_errno))
try_addresses (no_socket errno ∷ more) last_errno = try_addresses more errno
try_addresses (refused fd errno ∷ more) last_errno =
    let rest = try_addresses more errno in (socket_opened fd ∷ (socket_closed fd ∷ rest.0), rest.1)
try_addresses (accepted fd ∷ more) last_errno = (socket_opened fd ∷ [], (some fd, 0))

-- The message of a connection that no address accepted.
abbrev pub connect_failed : (ℕ → Text) → WsUrl → ℕ → Exception
connect_failed strerror url last_errno = io (
    lit "websocket connect failed: "
    ++ (url.host
        ++ (lit ":"
            ++ (to_string url.port
                ++ (if last_errno == 0
                    then []
                    else lit " (" ++ (strerror last_errno ++ lit ")"))))))

-- Where the TLS set-up fails, with OpenSSL's reason.
pub data TlsAnswer : Type 0 where
  no_ctx no_verify_paths no_ssl no_handshake : Option Text → TlsAnswer
  shaken : TlsAnswer

-- The calls, what the connection holds, and how the set-up ends.
unfoldable pub tls_setup : Text → Impl → TlsAnswer → List Call × (Impl × Result (Unit {0}))
tls_setup host impl (no_ctx reason) = ([], (impl, throws (ws_io reason (lit "SSL_CTX_new failed"))))
tls_setup host impl (no_verify_paths reason) = (
  ctx_made ∷ [],
  (
    record impl { ssl_ctx = true },
    throws (ws_io reason (lit "SSL_CTX_set_default_verify_paths failed")),
  ),
)
tls_setup host impl (no_ssl reason) =
    (ctx_made ∷ [], (record impl { ssl_ctx = true }, throws (ws_io reason (lit "SSL_new failed"))))
tls_setup host impl (no_handshake reason) = (
  ctx_made ∷ (ssl_made ∷ []),
  (
    record impl { ssl_ctx = true; ssl = true },
    throws (ws_io reason (lit "TLS handshake failed with " ++ host)),
  ),
)
tls_setup host impl shaken =
    (ctx_made ∷ (ssl_made ∷ []), (record impl { ssl_ctx = true; ssl = true }, ok tt))

abbrev pub maybe_tls : WsUrl → Impl → TlsAnswer → List Call × (Impl × Result (Unit {0}))
maybe_tls url impl answer = if url.tls then tls_setup url.host impl answer else ([], (impl, ok tt))

-- A connection with its buffer, an exception, or a wait for the response.
pub data Connected : Type 0 where
  connected : Impl → Bytes → Connected
  connect_throws : Exception → Connected
  connect_waits : Impl → Connected

-- An exception destroys the connection, which tears it down.
abbrev pub thrown : List Call → Impl → Exception → List Call × Connected
thrown calls impl e = (calls ++ (teardown impl).0, connect_throws e)

abbrev pub opened_or_thrown : List Call → Impl → Opened → List Call × Connected
opened_or_thrown calls impl (opened request left) = (calls, connected impl left)
opened_or_thrown calls impl (open_throws e) = thrown calls impl e
opened_or_thrown calls impl open_waits = (calls, connect_waits impl)

abbrev pub after_tls :
    Opened → List Call → List Call × (Impl × Result (Unit {0})) → List Call × Connected
after_tls handshake calls (more, (impl, throws e)) = thrown (calls ++ more) impl e
after_tls handshake calls (more, (impl, ok done)) = opened_or_thrown (calls ++ more) impl handshake

abbrev pub after_tcp :
    (ℕ → Text) → WsUrl → TlsAnswer → Opened → List Call × (Option ℕ × ℕ) → List Call × Connected
after_tcp strerror url tls handshake (calls, (none, last_errno)) =
    thrown calls fresh (connect_failed strerror url last_errno)
after_tcp strerror url tls handshake (calls, (some fd, last_errno)) =
    after_tls handshake calls (maybe_tls url (record fresh { fd = some fd }) tls)

-- `connect`; the addresses are none where `getaddrinfo` fails. The handshake is `open_handshake`.
unfoldable pub connect :
    Digests
    → (ℕ → Text)
    → WsUrl
    → Text
    → Option (List Address)
    → TlsAnswer
    → Option Bytes
    → Written
    → List Fill
    → List Call × Connected
connect d strerror url protocol none tls drawn written fills =
    thrown [] fresh (io (lit "websocket connect: getaddrinfo failed for " ++ url.host))
connect d strerror url protocol (some addresses) tls drawn written fills =
    after_tcp strerror url tls (open_handshake d url protocol drawn written fills)
      (try_addresses addresses 0)

-- A frame that is masked and written; without random bytes nothing is.
abbrev pub write_frame : Bool → Option Bytes → List StreamWrite → ℕ → Bytes → Bytes × Written
write_frame tls mask script opcode bytes = elim (ws_encode_client_frame mask opcode bytes) [
  | throws e ↦ ([], write_throws e)
  | ok frame ↦ stream_write_all tls script frame
]

abbrev pub send_binary : Bool → Option Bytes → List StreamWrite → Bytes → Bytes × Written
send_binary tls mask script bytes = write_frame tls mask script op_binary bytes

-- Without a deadline; the fills are those of an unlimited wait.
abbrev pub receive_binary : List Reply → List Fill → Bytes → Received
receive_binary replies fills buf = receive_binary_deadline replies fills buf

-- The close frame is written as far as it goes; whatever it throws is dropped. While the write waits, nothing is
-- torn down.
unfoldable pub close : Impl → Option Bytes → List StreamWrite → Bytes × (List Call × Impl)
close impl mask script =
    let sent = write_frame impl.ssl mask script op_close [] in
    (
      sent.0,
      elim sent.1 [
        | write_waits ↦ ([], impl)
        | all_written ↦ teardown impl
        | write_throws e ↦ teardown impl
      ],
    )
