-- ===== src/Client/Receive.antt =====
-- src/client.cpp: how the client receives: a frame of the transport, a complete frame, an envelope.
pub mod Chunks
pub mod Fragments
use vynkor_sdk_cpp.Base.{
  ℕ, Bool, true, false, not, Option, none, some, List, [], ◌∷◌, length, bit_and, ◌==◌,
  if◌then◌else◌,
}
use vynkor_sdk_cpp.Base.Text.{Text, lit}
use vynkor_sdk_cpp.Error.{Exception, Result, ok, throws, internal, proto, ◌>>=◌}
use vynkor_sdk_cpp.Mac.{Bytes, OpenSsl}
use vynkor_sdk_cpp.Protocol.{Envelope}
use vynkor_sdk_cpp.Framing.Header.{flag_fragmented, flag_raw_binary}
use vynkor_sdk_cpp.Framing.Zstd.{Zstd}
use vynkor_sdk_cpp.Framing.Parse.{FrameResult}
use vynkor_sdk_cpp.Framing.Read.{parse_frame_from_buffer}
use vynkor_sdk_cpp.Client.Reassembly.{Streams, absorb_fragment}

-- `read_transport_frame`: what the transport gives is one message of the WebSocket, or what the frame
-- reader of the socket gave.
pub data Transport : Type 0 where
  ws_message : Result Bytes → Transport
  uds_frame : Result FrameResult → Transport

unfoldable pub read_transport_frame : OpenSsl → Zstd → Option Bytes → Transport → Result FrameResult
read_transport_frame o z key (uds_frame read) = read
read_transport_frame o z key (ws_message received) =
    received >>= λ message. parse_frame_from_buffer o z message (length message) key >>= λ r. ok r.0

-- One call of `read_transport_frame`, with the clock at the pruning and at the creation of a buffer.
pub record Arrival : Type 0 where
  pub now : ℕ
  pub seen : ℕ
  pub read : Result FrameResult

-- A complete frame, an exception, or the loop waits for the next frame.
pub data Received : Type 0 where
  complete : FrameResult → List Arrival → Received
  receive_throws : Exception → List Arrival → Received
  receive_waits : Received

-- `flags & FLAG_FRAGMENTED`
abbrev pub is_fragment : FrameResult → Bool
is_fragment frame = not (bit_and frame.flags flag_fragmented == 0)

-- Both `recv_frame` and `recv_frame_with_deadline`: they differ in the deadline of the read.
unfoldable pub recv_frame : Streams → List Arrival → Streams × Received
recv_frame m [] = (m, receive_waits)
recv_frame m (a ∷ arrivals) = elim a.read [
  | throws e ↦ (m, receive_throws e arrivals)
  | ok frame ↦ elim (is_fragment frame) [
    | false ↦ (m, complete frame arrivals)
    | true ↦ elim (absorb_fragment a.now a.seen m frame).1 [
      | throws e ↦ ((absorb_fragment a.now a.seen m frame).0, receive_throws e arrivals)
      | ok (some whole) ↦ ((absorb_fragment a.now a.seen m frame).0, complete whole arrivals)
      | ok none ↦ recv_frame (absorb_fragment a.now a.seen m frame).0 arrivals
    ]
  ]
]

-- `ParseFromArray`, `none` where it fails.
abbrev pub parsed : (Bytes → Option Envelope) → FrameResult → Result Envelope
parsed parse_from_array frame = elim (parse_from_array frame.payload) [
  | none ↦ throws (proto (lit "protobuf parse failed"))
  | some env ↦ ok env
]

-- What `recv` and `recv_timeout` make of a frame.
unfoldable pub envelope_of : (Bytes → Option Envelope) → FrameResult → Result Envelope
envelope_of parse_from_array frame =
    if not (bit_and frame.flags flag_raw_binary == 0)
    then throws (internal (lit "received raw-binary frame; use recv_frame() for audio"))
    else parsed parse_from_array frame

-- The envelope or the exception, with the arrivals behind it; none is a wait.
unfoldable pub recv :
    (Bytes → Option Envelope)
    → Streams
    → List Arrival
    → Streams × Option (Result Envelope × List Arrival)
recv parse_from_array m arrivals =
    let out = recv_frame m arrivals in
    (
      out.0,
      elim out.1 [
        | receive_waits ↦ none
        | receive_throws e later ↦ some (throws e, later)
        | complete frame later ↦ some (envelope_of parse_from_array frame, later)
      ],
    )
