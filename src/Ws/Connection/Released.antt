-- ===== src/Ws/Connection/Released.antt =====
-- src/ws.cpp, `WsConnection`: no socket and no TLS object is leaked.
use vynkor_sdk_cpp.Base.{
  ℕ, ◌≡◌, ◌≢◌, ◌⊎◌, subst, sym, refl, ap, ◌∙◌, Bool, true, false, Option, none, some, List, [], ◌∷◌,
  ◌++◌, ◌==◌, ==_refl, if◌then◌else◌, inl, inr, Option-cases,
}
use vynkor_sdk_cpp.Base.Text.{Text, lit}
use vynkor_sdk_cpp.Error.{Exception, Result, ok, throws, io}
use vynkor_sdk_cpp.Mac.{Bytes}
use vynkor_sdk_cpp.Ws.Url.{WsUrl}
use vynkor_sdk_cpp.Ws.Stream.{Fill, Written, StreamWrite, write_waits, all_written, write_throws}
use vynkor_sdk_cpp.Ws.Handshake.{Digests, Opened, opened, open_throws, open_waits, open_handshake}
use vynkor_sdk_cpp.Ws.Connection.{
  Impl, fresh, Call, socket_opened, socket_closed, ctx_made, ctx_freed, ssl_made, ssl_shut_down,
  ssl_freed, teardown, Address, no_socket, refused, accepted, try_addresses, TlsAnswer, no_ctx,
  no_verify_paths, no_ssl, no_handshake, shaken, tls_setup, maybe_tls, Connected, connected,
  connect_throws, connect_waits, thrown, opened_or_thrown, after_tls, after_tcp, connect_failed,
  connect, close, write_frame,
}
use vynkor_sdk_cpp.Ws.Codec.{op_close}

-- The open sockets, and whether there is a TLS context and a TLS object.
pub record Held : Type 0 where
  pub sockets : List ℕ
  pub has_ctx : Bool
  pub has_ssl : Bool

abbrev pub nothing : Held
nothing = record { sockets = []; has_ctx = false; has_ssl = false }

abbrev pub socket_list : Option ℕ → List ℕ
socket_list none = []
socket_list (some fd) = fd ∷ []

abbrev pub held_by : Impl → Held
held_by impl = record { sockets = socket_list impl.fd; has_ctx = impl.ssl_ctx; has_ssl = impl.ssl }

-- Closing the socket that was opened last, none for any other.
abbrev pub without : ℕ → List ℕ → Option (List ℕ)
without fd [] = none
without fd (g ∷ sockets) = if fd == g then some sockets else none

abbrev pub with_sockets : Held → Option (List ℕ) → Option Held
with_sockets h none = none
with_sockets h (some sockets) = some (record h { sockets = sockets })

-- One call; none where it makes what is there or frees what is not.
unfoldable pub after : Call → Held → Option Held
after (socket_opened fd) h = some (record h { sockets = fd ∷ h.sockets })
after (socket_closed fd) h = with_sockets h (without fd h.sockets)
after ctx_made h = if h.has_ctx then none else some (record h { has_ctx = true })
after ctx_freed h = if h.has_ctx then some (record h { has_ctx = false }) else none
after ssl_made h = if h.has_ssl then none else some (record h { has_ssl = true })
after ssl_shut_down h = if h.has_ssl then some h else none
after ssl_freed h = if h.has_ssl then some (record h { has_ssl = false }) else none

-- What is held after these calls, none after a wrong one.
unfoldable pub run : List Call → Held → Option Held
run [] h = some h
run (call ∷ calls) h = elim (after call h) [ none ↦ none | some h' ↦ run calls h' ]

-- What the outcome of `connect` still holds.
abbrev pub holding : Connected → Held
holding (connected impl left) = held_by impl
holding (connect_throws e) = nothing
holding (connect_waits impl) = held_by impl

run-append : (xs ys : List Call) (h h' : Held) → run xs h ≡ some h' → run (xs ++ ys) h ≡ run ys h'
unfolding run
run-append [] ys h h' e = ap (run ys) (cc e)
run-append (call ∷ xs) ys h h' e = elim (Option-cases (after call h)) [
  | inl wrong ↦ cc (rw (wrong, run) at e)
  | inr (next, right) ↦ rw (right, run) (run-append xs ys next h' (rw (right, run) at e))
]

run-teardown : (impl : Impl) → run (teardown impl).0 (held_by impl) ≡ some nothing
unfolding run after teardown
run-teardown impl = teardown-cases impl.fd impl.ssl_ctx impl.ssl
  where
    teardown-cases :
        (fd : Option ℕ) (ctx ssl : Bool)
        → run
            (teardown (record { fd = fd; ssl_ctx = ctx; ssl = ssl })).0
            (held_by (record { fd = fd; ssl_ctx = ctx; ssl = ssl }))
          ≡ some nothing
    teardown-cases none true true = refl
    teardown-cases none true false = refl
    teardown-cases none false true = refl
    teardown-cases none false false = refl
    teardown-cases (some fd) true true = rw (==_refl fd, run, after) refl
    teardown-cases (some fd) true false = rw (==_refl fd, run, after) refl
    teardown-cases (some fd) false true = rw (==_refl fd, run, after) refl
    teardown-cases (some fd) false false = rw (==_refl fd, run, after) refl

run-try_addresses :
    (addresses : List Address) (last_errno : ℕ)
    → run (try_addresses addresses last_errno).0 nothing
      ≡ some (record nothing { sockets = socket_list (try_addresses addresses last_errno).1.0 })
unfolding run after try_addresses
run-try_addresses [] last_errno = refl
run-try_addresses (no_socket errno ∷ more) last_errno = run-try_addresses more errno
run-try_addresses (refused fd errno ∷ more) last_errno =
    rw (==_refl fd, run, after) (run-try_addresses more errno)
run-try_addresses (accepted fd ∷ more) last_errno = refl

-- The calls are right so far, and this is what the connection holds.
abbrev Owns : List Call → Impl → Type 0
Owns calls impl = run calls nothing ≡ some (held_by impl)

abbrev Accounted : List Call × Connected → Type 0
Accounted (calls, out) = run calls nothing ≡ some (holding out)

thrown-Accounted :
    (calls : List Call) (impl : Impl) (e : Exception)
    → Owns calls impl
    → Accounted (thrown calls impl e)
thrown-Accounted calls impl e owns =
    run-append calls (teardown impl).0 nothing (held_by impl) owns ∙ run-teardown impl

opened_or_thrown-Accounted :
    (calls : List Call) (impl : Impl) (handshake : Opened)
    → Owns calls impl
    → Accounted (opened_or_thrown calls impl handshake)
opened_or_thrown-Accounted calls impl (opened request left) owns = owns
opened_or_thrown-Accounted calls impl (open_throws e) owns = thrown-Accounted calls impl e owns
opened_or_thrown-Accounted calls impl open_waits owns = owns

after_tls-Accounted :
    (handshake : Opened) (calls more : List Call) (impl : Impl) (set_up : Result (Unit {0}))
    → Owns (calls ++ more) impl
    → Accounted (after_tls handshake calls (more, (impl, set_up)))
after_tls-Accounted handshake calls more impl (throws e) owns =
    thrown-Accounted (calls ++ more) impl e owns
after_tls-Accounted handshake calls more impl (ok done) owns =
    opened_or_thrown-Accounted (calls ++ more) impl handshake owns

tls_setup-Owns :
    (host : Text) (fd : ℕ) (answer : TlsAnswer)
    → run
        (tls_setup host (record fresh { fd = some fd }) answer).0
        (held_by (record fresh { fd = some fd }))
      ≡ some (held_by (tls_setup host (record fresh { fd = some fd }) answer).1.0)
unfolding run after tls_setup
tls_setup-Owns host fd (no_ctx reason) = refl
tls_setup-Owns host fd (no_verify_paths reason) = refl
tls_setup-Owns host fd (no_ssl reason) = refl
tls_setup-Owns host fd (no_handshake reason) = refl
tls_setup-Owns host fd shaken = refl

maybe_tls-Accounted :
    (tls : Bool) (host : Text) (port : ℕ) (path : Text) (fd : ℕ) (calls : List Call)
    (answer : TlsAnswer) (handshake : Opened)
    → Owns calls (record fresh { fd = some fd })
    → Accounted (
        after_tls handshake calls (
          maybe_tls
            (record { tls = tls; host = host; port = port; path = path })
            (record fresh { fd = some fd })
            answer))
unfolding run
maybe_tls-Accounted false host port path fd calls answer handshake owns =
    after_tls-Accounted handshake calls [] (record fresh { fd = some fd }) (ok tt)
      (run-append calls [] nothing (held_by (record fresh { fd = some fd })) owns)
maybe_tls-Accounted true host port path fd calls answer handshake owns =
    after_tls-Accounted handshake calls (tls_setup host (record fresh { fd = some fd }) answer).0
      (tls_setup host (record fresh { fd = some fd }) answer).1.0
      (tls_setup host (record fresh { fd = some fd }) answer).1.1
      (run-append calls (tls_setup host (record fresh { fd = some fd }) answer).0 nothing
          (held_by (record fresh { fd = some fd })) owns
        ∙ tls_setup-Owns host fd answer)

after_tcp-Accounted :
    (strerror : ℕ → Text) (url : WsUrl) (answer : TlsAnswer) (handshake : Opened)
    (calls : List Call) (found : Option ℕ) (errno : ℕ)
    → run calls nothing ≡ some (record nothing { sockets = socket_list found })
    → Accounted (after_tcp strerror url answer handshake (calls, (found, errno)))
after_tcp-Accounted strerror url answer handshake calls none errno owns =
    thrown-Accounted calls fresh (connect_failed strerror url errno) owns
after_tcp-Accounted strerror url answer handshake calls (some fd) errno owns =
    maybe_tls-Accounted url.tls url.host url.port url.path fd calls answer handshake owns

Written-cases :
    (w : Written)
    → (w ≡ write_waits) ⊎ ((w ≡ all_written) ⊎ ((e : Exception) × (w ≡ write_throws e)))
Written-cases write_waits = inl refl
Written-cases all_written = inr (inl refl)
Written-cases (write_throws e) = inr (inr (e, refl))

-- The calls are right and account for what is left; that is everything while the write of the close frame waits,
-- and nothing once it has returned or thrown.
abbrev pub IsReleased : Impl → Written → List Call × Impl → Type 0
IsReleased impl written (calls, left) =
    (run calls (held_by impl) ≡ some (held_by left))
    × (((written ≡ write_waits) × (left ≡ impl)) ⊎ ((written ≢ write_waits) × (left ≡ fresh)))

close-IsReleased :
    (impl : Impl) (mask : Option Bytes) (script : List StreamWrite)
    → IsReleased impl (write_frame impl.ssl mask script op_close []).1 (close impl mask script).1
unfolding close run teardown
close-IsReleased impl mask script =
    let sent = write_frame impl.ssl mask script op_close [] in
    elim (Written-cases sent.1) [
      | inl waits ↦
          let same : (close impl mask script).1 ≡ ([], impl) = rw (waits, close) refl in
          subst (IsReleased impl sent.1) (sym same) (refl, inl (waits, refl))
      | inr (inl written) ↦
          let same : (close impl mask script).1 ≡ teardown impl = rw (written, close) refl in
          subst (IsReleased impl sent.1) (sym same)
            (run-teardown impl, inr ((λ waits. cc (waits, written)), refl))
      | inr (inr (e, failed)) ↦
          let same : (close impl mask script).1 ≡ teardown impl = rw (failed, close) refl in
          subst (IsReleased impl sent.1) (sym same)
            (run-teardown impl, inr ((λ waits. cc (waits, failed)), refl))
    ]

-- Whatever the system and OpenSSL answer, `connect` closes and frees only what it has opened and made: where it
-- throws, it has given everything back, and else the connection holds what is left. `close` frees only what the
-- connection holds: everything, which leaves it with nothing, once the write of its close frame has returned or
-- thrown, and nothing while that write waits.
pub connect-close :
    (d : Digests) (strerror : ℕ → Text) (url : WsUrl) (protocol : Text)
    (addresses : Option (List Address)) (answer : TlsAnswer) (drawn : Option Bytes)
    (written : Written) (fills : List Fill) (impl : Impl) (mask : Option Bytes)
    (script : List StreamWrite)
    → (run (connect d strerror url protocol addresses answer drawn written fills).0 nothing
        ≡ some (holding (connect d strerror url protocol addresses answer drawn written fills).1))
      × IsReleased impl (write_frame impl.ssl mask script op_close []).1 (close impl mask script).1
unfolding connect teardown run
connect-close d strerror url protocol none answer drawn written fills impl mask script = (
  thrown-Accounted [] fresh (io (lit "websocket connect: getaddrinfo failed for " ++ url.host))
      refl,
  close-IsReleased impl mask script,
)
connect-close d strerror url protocol (some addresses) answer drawn written fills impl mask script =
    (
      after_tcp-Accounted strerror url answer (open_handshake d url protocol drawn written fills)
          (try_addresses addresses 0).0 (try_addresses addresses 0).1.0
          (try_addresses addresses 0).1.1 (run-try_addresses addresses 0),
      close-IsReleased impl mask script,
    )
