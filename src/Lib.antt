-- ===== src/Lib.antt =====
-- A verification library for the Vynkor C++ SDK: a static library that plugins link to talk to
-- the kernel over a Unix socket or a WebSocket.
--
-- The parts and how they interact. `src/framing.cpp` turns a payload into a wire frame (a 44-byte
-- header with magic, flags, length, target and CRC, the payload, and a MAC tag on a secured
-- connection) and reads frames back; `src/mac.cpp` derives the session key and computes the tags.
-- `src/client.cpp` keeps the connection: it sends envelopes in frames, splits and reassembles
-- fragmented payloads and waits for replies. `src/confirmation_gate.cpp` puts a two-step
-- confirmation in front of a high-risk operation of a plugin. `src/env.cpp` finds the socket path
-- and the credentials.
--
-- The files. `Base` holds what all share: Boolean tests on numbers, lists on the native numbers,
-- byte strings (`Text`, a list of bytes) and the arithmetic of bit operations. `Error` is
-- `include/vynkor/error.hpp`: a function that may throw returns a `Result`, and an exception is a
-- value. `Mac` is `src/mac.cpp` (`hmac_sha256`, `hkdf_expand`, `derive_session_key`,
-- `compute_tag`, `verify_tag`). `Framing` is `src/framing.cpp`: `Framing.Crc` the checksum,
-- `Framing.Header` the header, `Framing.Fragment` the fragment header, `Framing.Zstd` the two
-- wrappers of zstd, `Framing.Pack` the four writers, `Framing.Parse` the parser behind every
-- reader; `Framing.Sound`, `Framing.Wire` and `Framing.RoundTrip` hold proofs. `Protocol` is the
-- part of `proto/vynkor_protocol.proto` that the library reads and writes, `Response` the answer
-- envelopes of `src/concurrent.cpp`. `Gate` is `src/confirmation_gate.cpp`: `Gate.Json` its JSON
-- helpers, `Gate.Callers` the configuration and the allowlist, `Gate.Pending` the pending map,
-- `Gate.Route` the routing of one call, with what the executor was called with in the outcome,
-- `Gate.Helpers` the two helpers of the caller. `Env` is `src/env.cpp`, with `getenv` and the
-- system calls as the parameter `System`. `Client.Reassembly` is `absorb_fragment` of
-- `src/client.cpp`, from one map of unfinished streams to the next, `Client.Write` its
-- `write_all` over a script of what `write` answers, `Client.State` the connection and its
-- constructors, `Client.Send` the frames that it hands to the transport with `send_fragmented`,
-- `Client.Receive` `recv_frame` and `recv`, `Client.Requests` the envelopes that it sends,
-- `Client.Replies` what it makes of replies, and `Client.Session` the exchanges with the kernel:
-- each sends a request, reads until a reply ends it, and gives the client back; `Client.Gateway`
-- joins the client with `src/ws.cpp`. `Framing.Read` is the part of `src/framing.cpp` that
-- collects a frame from a socket, `recv_exact` to `read_frame_full_with_deadline`, over a script
-- of what `read`, `poll` and the clock give. `Ws` is `src/ws.cpp`: `Ws.Codec` the frames of RFC
-- 6455, `Ws.Stream` the loops around `poll`, `read` and `write`, `Ws.Receive` the assembly of a
-- message, `Ws.Url` `parse_ws_url`, `Ws.Handshake` the opening handshake (`Ws.Handshake.Response` says
-- in other words what its tests accept), `Ws.Connection` what a
-- connection holds from `connect` to `close`. `Plugin` is `include/vynkor/plugin.hpp`: `serve`,
-- with what the handlers of a plugin give as a script. `Concurrent` is `run_concurrent_loop` of
-- `src/concurrent.cpp`, as steps of the loop and of the handler threads that may happen in any
-- order; `Concurrent.Wake` is the pipe that wakes that loop, `Concurrent.Serve` is
-- `serve_concurrent`. `Echo` is `examples/echo_plugin.cpp`.
--
-- Conventions. A byte is a number below 256; the 16-bit, 32-bit and 64-bit fields of the source
-- keep their wrap-around where a value can exceed its width. State is passed explicitly: an
-- operation takes the state and returns it with its result or its exception, so what a throw
-- leaves behind is visible. Clock readings are arguments. A `std::map` or `std::unordered_map` is
-- an association list. All recursion is structural: a loop that waits for input recurs over the
-- script of what its calls give, and where the script ends the loop is said to wait. `to_string`
-- has 20 units of fuel, which is enough because every number that is printed is below 2 ^ 64 and
-- so has at most 20 digits. The wait for a response has one round more than there are arrivals,
-- and each round but the last reads one; its deadline is in the reads of `within`. The lifetime of
-- a pending request is the 64 bits of a number with a sign.
--
-- Parameters. OpenSSL's HMAC and CRYPTO_memcmp (`OpenSsl`, with `IsOpenSsl` for the documented
-- behaviour: tags of 32 bytes, concatenating updates, comparison of equal lengths) and zstd
-- (`Zstd`, `IsZstd`: decompression fills the stated size, and a compressed frame decompresses to
-- its source) stand for code outside the repository, and so do SHA-1 and base64 (`Digests`).
-- Nothing is assumed about the strength of the cryptography.
--
-- Not modelled: the code that protobuf generates (its encoding is a parameter), the printing of
-- the example, and the tests and build files.
--
pub mod Base
pub mod Error
pub mod Mac
pub mod Framing
pub mod Protocol
pub mod Response
pub mod Env
pub mod Gate
pub mod Client
pub mod Ws
pub mod Concurrent
pub mod Echo
pub mod Plugin
