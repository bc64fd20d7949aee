-- ===== src/Ws/Stream.antt =====
-- src/ws.cpp, `WsConnection::Impl`: the bytes below the frames. What `poll`, `read`, `write` and their
-- TLS counterparts answer is a script; the deadline is none for the idle default.
use vynkor_sdk_cpp.Base.{
  ℕ, Bool, true, false, ◌&&◌, Option, none, some, List, [], ◌∷◌, ◌++◌, take, drop, leb,
  if◌then◌else◌,
}
use vynkor_sdk_cpp.Base.Text.{Text, lit}
use vynkor_sdk_cpp.Error.{Exception, io, timeout}
use vynkor_sdk_cpp.Mac.{Bytes}
use vynkor_sdk_cpp.Framing.Read.{PollAnswer, poll_interrupted, poll_failed, expired, ready}

-- `ERR_peek_last_error` and `ERR_reason_error_string`.
unfoldable pub ws_io : Option Text → Text → Exception
ws_io none what = io what
ws_io (some reason) what = io (what ++ (lit ": " ++ reason))

-- The data is readable, an exception, or the script ends in a call that waits.
pub data Polled : Type 0 where
  readable poll_waits : Polled
  poll_throws : Exception → Polled

unfoldable pub poll_readable : Option ℕ → List (ℕ × PollAnswer) → Polled
poll_readable deadline [] = poll_waits
poll_readable deadline ((now, poll) ∷ rounds) =
    let rest = poll_readable deadline rounds in
    let late : Bool = elim deadline [ none ↦ false | some d ↦ leb d now ] in
    if late then poll_throws timeout else elim poll [
      | poll_interrupted ↦ rest
      | poll_failed ↦ poll_throws (io (lit "websocket poll failed"))
      | expired ↦ elim deadline [ none ↦ readable | some d ↦ poll_throws timeout ]
      | ready ↦ readable
    ]

-- `read` or `SSL_read`: bytes, a call to repeat (EINTR, or TLS that wants more), the end of the stream, or
-- an error, with OpenSSL's reason.
pub data StreamRead : Type 0 where
  chunk : ℕ → Bytes → StreamRead
  retry end_of_stream : StreamRead
  read_error : Option Text → StreamRead

-- One round: whether TLS holds decoded bytes, the polls, and the read.
pub record FillRound : Type 0 where
  pub pending : Bool
  pub polls : List (ℕ × PollAnswer)
  pub read : StreamRead

-- What one call of `stream_fill` appends to the buffer: at least one byte.
pub data Fill : Type 0 where
  filled : ℕ → Bytes → Fill
  fill_throws : Exception → Fill
  fill_waits : Fill

unfoldable pub read_answer : Bool → StreamRead → Fill → Fill
read_answer tls (chunk b bs) again = filled b bs
read_answer tls retry again = again
read_answer tls end_of_stream again = fill_throws (io (lit "websocket connection closed"))
read_answer true (read_error reason) again =
    fill_throws (ws_io reason (lit "websocket read failed"))
read_answer false (read_error reason) again = fill_throws (io (lit "websocket connection closed"))

unfoldable pub stream_fill : Bool → Option ℕ → List FillRound → Fill
stream_fill tls deadline [] = fill_waits
stream_fill tls deadline (round ∷ rounds) =
    let again = stream_fill tls deadline rounds in
    let polled = if tls && round.pending then readable else poll_readable deadline round.polls in
    elim polled [
      | readable ↦ read_answer tls round.read again
      | poll_waits ↦ fill_waits
      | poll_throws e ↦ fill_throws e
    ]

-- `write` or `SSL_write`: a number of bytes, one more than it says; a call to repeat; or an error.
pub data StreamWrite : Type 0 where
  wrote : ℕ → StreamWrite
  rewrite : StreamWrite
  write_error : Option Text → StreamWrite

pub data Written : Type 0 where
  all_written write_waits : Written
  write_throws : Exception → Written

-- What the peer receives, and how the loop ends.
unfoldable pub stream_write_all : Bool → List StreamWrite → Bytes → Bytes × Written
stream_write_all tls script [] = ([], all_written)
stream_write_all tls [] (b ∷ bs) = ([], write_waits)
stream_write_all tls (rewrite ∷ script) (b ∷ bs) = stream_write_all tls script (b ∷ bs)
stream_write_all tls (write_error reason ∷ script) (b ∷ bs) = (
  [],
  write_throws (
      if tls
      then ws_io reason (lit "websocket send failed")
      else io (lit "websocket send failed: write()")),
)
stream_write_all tls (wrote n ∷ script) (b ∷ bs) =
    let (sent, status) = stream_write_all tls script (drop n bs) in
    (b ∷ (take n bs ++ sent), status)
