-- ===== src/Client/Gateway.antt =====
-- src/client.cpp over src/ws.cpp: the frames of a client that is connected by a WebSocket, up to what the gateway
-- reads and from what it writes.
pub mod Tests
use vynkor_sdk_cpp.Base.{
  ℕ, ◌<◌, ◌≤◌, ◌^◌, ◌≡◌, refl, ap, sym, ◌∙◌, arith, Bool, true, false, Option, none, some, List, [],
  ◌∷◌, ◌++◌, append-nil, length, take, drop, take-append-drop, take_all, All, inl, inr, ltb,
  Bool-cases, bit_or, bit_and,
}
use vynkor_sdk_cpp.Base.Text.{Text}
use vynkor_sdk_cpp.Error.{ok, throws, Result-cases}
use vynkor_sdk_cpp.Mac.{Bytes, IsByte, OpenSsl, IsOpenSsl}
use vynkor_sdk_cpp.Framing.Header.{max_payload_size}
use vynkor_sdk_cpp.Framing.Zstd.{Zstd, IsZstd}
use vynkor_sdk_cpp.Framing.Pack.{pack_frame_ws}
use vynkor_sdk_cpp.Framing.Parse.{FrameResult, parse_frame_bytes}
use vynkor_sdk_cpp.Framing.Sound.{parse_frame_bytes_small}
use vynkor_sdk_cpp.Framing.RoundTrip.{keyed, parse_frame_bytes-pack_frame_ws}
use vynkor_sdk_cpp.Client.State.{VynkorClient}
use vynkor_sdk_cpp.Client.Send.{send_raw, send_raw_with_flags, key_flag}
use vynkor_sdk_cpp.Ws.Codec.{ws_encode_client_frame, op_binary}
use vynkor_sdk_cpp.Ws.Codec.Encode.{server_reads, ws_encode_client_frame-server_reads}
use vynkor_sdk_cpp.Ws.Stream.{
  StreamWrite, wrote, rewrite, write_error, Written, all_written, write_waits, write_throws,
  stream_write_all,
}
use vynkor_sdk_cpp.Framing.Read.{parse_frame_from_buffer}
use vynkor_sdk_cpp.Framing.Parse.{mac_present}
use vynkor_sdk_cpp.Client.Receive.{read_transport_frame, ws_message}
use vynkor_sdk_cpp.Ws.Codec.{WsIncomingFrame}
use vynkor_sdk_cpp.Ws.Stream.{Fill}
use vynkor_sdk_cpp.Ws.Receive.{Reply, received, receive_binary_deadline}
use vynkor_sdk_cpp.Ws.Receive.Frames.{AllFilled, chunks}
use vynkor_sdk_cpp.Ws.Receive.Message.{wire, AllFit}
use vynkor_sdk_cpp.Ws.Receive.Fragments.{Message, receive_binary_deadline-Message}
use vynkor_sdk_cpp.Ws.Connection.{send_binary, write_frame}

-- A loop that returns has written everything.
stream_write_all-whole :
    (tls : Bool) (script : List StreamWrite) (bytes : Bytes)
    → (stream_write_all tls script bytes).1 ≡ all_written
    → (stream_write_all tls script bytes).0 ≡ bytes
unfolding stream_write_all
stream_write_all-whole tls [] [] h = refl
stream_write_all-whole tls (w ∷ script) [] h = refl
stream_write_all-whole tls [] (b ∷ bs) h = cc h
stream_write_all-whole tls (rewrite ∷ script) (b ∷ bs) h =
    stream_write_all-whole tls script (b ∷ bs) h
stream_write_all-whole tls (write_error reason ∷ script) (b ∷ bs) h = cc h
stream_write_all-whole tls (wrote n ∷ script) (b ∷ bs) h =
    ap (λ t. b ∷ t)
      (ap (λ t. take n bs ++ t) (stream_write_all-whole tls script (drop n bs) h)
        ∙ take-append-drop n bs)

-- What a client over a WebSocket packs is read back by a peer with its key.
send_raw-parsed :
    (o : OpenSsl) (z : Zstd) (c : VynkorClient) (target : Text) (payload frame : Bytes)
    (key : Option Bytes)
    → IsOpenSsl o
    → IsZstd z
    → c.session_key ≡ key
    → c.ws ≡ true
    → All IsByte payload
    → send_raw o z c target payload ≡ ok frame
    → (r : FrameResult) × (parse_frame_bytes o z frame key ≡ ok (r, length frame))
      × (r.payload ≡ payload)
      × (r.has_mac ≡ keyed key)
unfolding send_raw send_raw_with_flags
send_raw-parsed o z c target payload frame key lo lz same over_ws bytes h =
    elim (Bool-cases (ltb max_payload_size (length payload))) [
      | inl big ↦ cc (rw (over_ws, big, send_raw, send_raw_with_flags) at h)
      | inr fits ↦ packed-parsed key (rw (same, over_ws, fits, send_raw, send_raw_with_flags) at h)
    ]
  where
    packed-parsed :
        (k : Option Bytes)
        → pack_frame_ws o target (bit_or (key_flag k) 0) payload k ≡ ok frame
        → (r : FrameResult) × (parse_frame_bytes o z frame k ≡ ok (r, length frame))
          × (r.payload ≡ payload)
          × (r.has_mac ≡ keyed k)
    packed-parsed none packed =
        let (r, parsed, kept, _, mac, _) =
          parse_frame_bytes-pack_frame_ws o z target 0 payload none frame [] lo lz (omega arith)
            refl refl bytes packed in
        (r, ap (λ t. parse_frame_bytes o z t none) (sym (append-nil frame)) ∙ parsed, kept, mac)
    packed-parsed (some k) packed =
        let (r, parsed, kept, _, mac, _) =
          parse_frame_bytes-pack_frame_ws o z target 1 payload (some k) frame [] lo lz (omega arith)
            refl refl bytes packed in
        (r, ap (λ t. parse_frame_bytes o z t (some k)) (sym (append-nil frame)) ∙ parsed, kept, mac)

-- A client that is connected by a WebSocket sends a payload of bytes with `send_raw`, and the write of the message
-- returns: then the gateway, which holds the same session key or none like the client, reads one binary message,
-- leaves what follows, and finds in it one whole frame with the payload, authenticated exactly if there is a key.
-- OpenSSL and zstd are assumed to behave as documented.
pub send_raw-server_reads :
    (o : OpenSsl) (z : Zstd) (c : VynkorClient) (target : Text) (payload frame rest : Bytes)
    (m0 m1 m2 m3 : ℕ) (tls : Bool) (script : List StreamWrite)
    → IsOpenSsl o
    → IsZstd z
    → c.ws ≡ true
    → All IsByte payload
    → send_raw o z c target payload ≡ ok frame
    → (send_binary tls (some (m0 ∷ (m1 ∷ (m2 ∷ (m3 ∷ []))))) script frame).1 ≡ all_written
    → (r : FrameResult) × (server_reads
          ((send_binary tls (some (m0 ∷ (m1 ∷ (m2 ∷ (m3 ∷ []))))) script frame).0 ++ rest)
        ≡ some (op_binary, frame, rest))
      × (parse_frame_bytes o z frame c.session_key ≡ ok (r, length frame))
      × (r.payload ≡ payload)
      × (r.has_mac ≡ keyed c.session_key)
send_raw-server_reads o z c target payload frame rest m0 m1 m2 m3 tls script lo lz over_ws bytes h
      written =
    let (r, parsed, kept, mac) =
      send_raw-parsed o z c target payload frame c.session_key lo lz refl over_ws bytes h in
    let mask = m0 ∷ (m1 ∷ (m2 ∷ (m3 ∷ []))) in
    elim (Result-cases (ws_encode_client_frame (some mask) op_binary frame)) [
      | inr (e, failed) ↦ cc (rw (failed, write_frame) at written)
      | inl (wire, encoded) ↦
          let sent : (send_binary tls (some mask) script frame).0 ≡ wire =
            rw (encoded, write_frame)
              (stream_write_all-whole tls script wire (rw (encoded, write_frame) at written)) in
          let small : length frame < 2 ^ 64 =
            omega
              (arith, parse_frame_bytes_small o z frame c.session_key r (length frame) parsed) in
          (
            r,
            ap (λ t. server_reads (t ++ rest)) sent
                ∙ ws_encode_client_frame-server_reads m0 m1 m2 m3 op_binary frame wire rest
                    (omega arith) small encoded,
            parsed,
            kept,
            mac,
          )
    ]

-- The gateway packs a payload of bytes with its key, or without one, and sends the frame as one message, in fragments
-- or whole, with pings, pongs and texts before and between them, and whole frames behind. Then, however the bytes are
-- cut into fills, a client with the same key, or without one, receives the message, with its pongs written, reads the
-- frame with the payload and its flags, and leaves the bytes behind the message. The flags have 16 bits, do not hold
-- FLAG_COMPRESSED, and hold FLAG_MAC_PRESENT exactly if there is a key; the WebSocket frames have at most 4 MiB with
-- their header. OpenSSL and zstd are assumed to behave as documented.
pub receive_binary_deadline-read_transport_frame :
    (o : OpenSsl) (z : Zstd) (target : Text) (flags : ℕ) (payload frame : Bytes)
    (key : Option Bytes) (replies : List Reply) (frames more : List WsIncomingFrame)
    (sent : List Bytes) (fills : List Fill) (buf : Bytes)
    → IsOpenSsl o
    → IsZstd z
    → flags < 0x10000
    → bit_and flags 2 ≡ 0
    → mac_present flags ≡ keyed key
    → All IsByte payload
    → pack_frame_ws o target flags payload key ≡ ok frame
    → Message replies frames frame sent
    → AllFit (frames ++ more)
    → AllFilled fills
    → buf ++ chunks fills ≡ wire (frames ++ more)
    → (left : Bytes) × (later : List Fill) × (r : FrameResult) × (receive_binary_deadline replies
          fills buf
        ≡ received frame left later sent)
      × (read_transport_frame o z key (ws_message (ok frame)) ≡ ok r)
      × (r.payload ≡ payload)
      × (r.flags ≡ flags)
      × (left ++ chunks later ≡ wire more)
unfolding read_transport_frame parse_frame_from_buffer
receive_binary_deadline-read_transport_frame o z target flags payload frame key replies frames more
      sent fills buf lo lz f clear k bytes packed message fit gives stream =
    let (r, parsed, kept, same_flags, _, _) =
      parse_frame_bytes-pack_frame_ws o z target flags payload key frame [] lo lz f clear k bytes
        packed in
    let alone : parse_frame_bytes o z frame key ≡ ok (r, length frame) =
      ap (λ t. parse_frame_bytes o z t key) (sym (append-nil frame)) ∙ parsed in
    let whole : parse_frame_bytes o z (take (length frame) frame) key ≡ ok (r, length frame) =
      ap (λ t. parse_frame_bytes o z t key) (take_all (length frame) frame (omega arith)) ∙ alone in
    let (left, later, got, _, behind) =
      receive_binary_deadline-Message replies frames more frame sent fills buf message fit
        (omega (arith, parse_frame_bytes_small o z frame key r (length frame) alone)) gives
        stream in
    (
      left,
      later,
      r,
      got,
      rw (whole, read_transport_frame, parse_frame_from_buffer) refl,
      kept,
      same_flags,
      behind,
    )
