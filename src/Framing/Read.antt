-- ===== src/Framing/Read.antt =====
-- src/framing.cpp: the readers that take a frame off a socket. What the system calls answer is a
-- script, one for each loop; `incoming` is what the peer has sent and the socket has not handed out.
pub mod Exact
pub mod Frames
pub mod Timeouts
pub mod Tests
use vynkor_sdk_cpp.Base.{
  ℕ, zero, suc, ◌+◌, ◌-◌, ◌*◌, ◌/◌, ◌%◌, ◌^◌, min, max, Option, List, [], ◌∷◌, ◌++◌, length, take,
  drop, ltb, leb, if◌then◌else◌,
}
use vynkor_sdk_cpp.Base.Text.{lit}
use vynkor_sdk_cpp.Error.{
  Exception, Result, ok, throws, io, payload_too_large, frame_read_timeout, timeout,
}
use vynkor_sdk_cpp.Mac.{Bytes, OpenSsl}
use vynkor_sdk_cpp.Framing.Zstd.{Zstd}
use vynkor_sdk_cpp.Framing.Header.{read_be16, read_be32, frame_header_size, max_payload_size}
use vynkor_sdk_cpp.Framing.Parse.{FrameResult, parse_frame_bytes, tag_size}

-- `read`: EINTR, another failure, or up to that many bytes and one more; none where the peer has
-- closed the connection.
pub data ReadAnswer : Type 0 where
  interrupted failed : ReadAnswer
  up_to : ℕ → ReadAnswer

pub data PollAnswer : Type 0 where
  poll_interrupted poll_failed expired ready : PollAnswer

-- One round of a loop with a deadline: the clock in nanoseconds, `poll`, and `read` after it.
pub record Tick : Type 0 where
  pub now : ℕ
  pub poll : PollAnswer
  pub read : ReadAnswer

-- A value and what is left of `incoming`, an exception, or the script ends in a call that waits.
pub data Recv (A : Type 0) : Type 0 where
  got : A → Bytes → Recv A
  raised : Exception → Recv A
  waiting : Recv A

abbrev pub and_then : {A B : Type 0} → Recv A → (A → Bytes → Recv B) → Recv B
and_then (got a left) next = next a left
and_then (raised e) next = raised e
and_then waiting next = waiting

abbrev pub lift : {A : Type 0} → Result A → Bytes → Recv A
lift (ok a) left = got a left
lift (throws e) left = raised e

abbrev pub prepend : Bytes → Recv Bytes → Recv Bytes
prepend chunk rest = and_then rest (λ more left. got (chunk ++ more) left)

abbrev pub closed : {A : Type 0} → Recv A
closed = raised (io (lit "connection closed or recv error"))

unfoldable pub recv_exact : List ReadAnswer → ℕ → Bytes → Recv Bytes
recv_exact script zero incoming = got [] incoming
recv_exact [] (suc n) incoming = waiting
recv_exact (interrupted ∷ script) (suc n) incoming = recv_exact script (suc n) incoming
recv_exact (failed ∷ script) (suc n) incoming = closed
recv_exact (up_to k ∷ script) (suc n) [] = closed
recv_exact (up_to k ∷ script) (suc n) (b ∷ bs) =
    let chunk = take (min k n) bs in
    prepend (b ∷ chunk) (recv_exact script (n - length chunk) (drop (min k n) bs))

-- What one round decides: to throw, to go on, or to read up to that many bytes and one more.
pub data Round : Type 0 where
  stop : Exception → Round
  again : Round
  reads : ℕ → Round

unfoldable pub round_of : ℕ → Tick → Round
round_of deadline tick = if leb deadline tick.now then stop frame_read_timeout else elim tick.poll [
  | poll_interrupted ↦ again
  | poll_failed ↦ stop (io (lit "poll failed during frame read"))
  | expired ↦ stop frame_read_timeout
  | ready ↦ elim tick.read [
    | interrupted ↦ again
    | failed ↦ stop (io (lit "connection closed or recv error"))
    | up_to k ↦ reads k
  ]
]

unfoldable pub recv_exact_deadline : ℕ → List Tick → ℕ → Bytes → Recv Bytes
unfolding round_of
recv_exact_deadline deadline script zero incoming = got [] incoming
recv_exact_deadline deadline [] (suc n) incoming = waiting
recv_exact_deadline deadline (tick ∷ script) (suc n) incoming = elim (round_of deadline tick) [
  | stop e ↦ raised e
  | again ↦ recv_exact_deadline deadline script (suc n) incoming
  | reads k ↦ elim incoming [
    | [] ↦ closed
    | b ∷ bs ↦
        let chunk = take (min k n) bs in
        prepend (b ∷ chunk)
          (recv_exact_deadline deadline script (n - length chunk) (drop (min k n) bs))
  ]
]

-- What the calls of one frame's reader answer: for the first byte, the clock after it, for the rest
-- of the header, and for what follows the header.
pub record Script : Type 0 where
  pub first : List ReadAnswer
  pub begun : ℕ
  pub header : List Tick
  pub body : List Tick

-- A time and the 32 bits of an `int` of milliseconds; those of a negative one give a time that is past.
abbrev pub int_deadline : ℕ → ℕ → ℕ
int_deadline begun bits =
    if ltb bits (2 ^ 31) then begun + bits * 1000000 else begun - (2 ^ 32 - bits) * 1000000

module _ (o : OpenSsl) (z : Zstd) (session_key : Option Bytes) where
  -- Once the header is there.
  unfoldable pub read_body : ℕ → List Tick → Bytes → Bytes → Recv FrameResult
  read_body deadline script header incoming =
      let flags = read_be16 header 2 in
      let len = read_be32 header 4 in
      if ltb max_payload_size len
      then raised (payload_too_large len)
      else and_then (recv_exact_deadline deadline script (len + tag_size flags) incoming)
          (λ body left.
            and_then (lift (parse_frame_bytes o z (header ++ body) session_key) left)
              (λ parsed left'. got parsed.0 left'))

  -- The first byte without a limit, and the rest until the deadline.
  abbrev pub read_frame_until : ℕ → Script → Bytes → Recv FrameResult
  read_frame_until deadline script incoming =
      and_then (recv_exact script.first 1 incoming) (λ first left.
        and_then (recv_exact_deadline deadline script.header (frame_header_size - 1) left)
          (λ more left'. read_body deadline script.body (first ++ more) left'))

  -- The milliseconds are an `int` that is not negative.
  unfoldable pub read_frame_full_with_timeout : ℕ → Script → Bytes → Recv FrameResult
  read_frame_full_with_timeout frame_timeout_ms script incoming =
      read_frame_until (script.begun + frame_timeout_ms * 1000000) script incoming

  -- The rounds before the first byte: the clock and `poll`, for which the cast of its timeout is left to its
  -- answer; then the clock once more. The remaining milliseconds are cast to `int`.
  unfoldable pub read_frame_full_with_deadline :
      ℕ → List (ℕ × PollAnswer) → ℕ → Script → Bytes → Recv FrameResult
  read_frame_full_with_deadline deadline [] now2 script incoming = waiting
  read_frame_full_with_deadline deadline ((now, poll) ∷ waits) now2 script incoming =
      let rest = read_frame_full_with_deadline deadline waits now2 script incoming in
      if leb deadline now then raised timeout else elim poll [
        | poll_interrupted ↦ rest
        | poll_failed ↦ raised (io (lit "poll failed during frame read"))
        | expired ↦ raised timeout
        | ready ↦
            let remaining_ms2 = max 1 ((deadline - now2) / 1000000) in
            read_frame_until (int_deadline script.begun (remaining_ms2 % 2 ^ 32)) script incoming
      ]

  -- FRAME_READ_TIMEOUT_MS
  unfoldable pub read_frame_full : Script → Bytes → Recv FrameResult
  read_frame_full script incoming = read_frame_full_with_timeout 10000 script incoming

-- `parse_frame_from_buffer`: the frame, and what goes to `*consumed`.
unfoldable pub parse_frame_from_buffer :
    OpenSsl → Zstd → Bytes → ℕ → Option Bytes → Result (FrameResult × ℕ)
parse_frame_from_buffer o z buf len session_key = parse_frame_bytes o z (take len buf) session_key

unfoldable pub read_frame : OpenSsl → Zstd → Script → Bytes → Recv Bytes
unfolding read_frame_full
read_frame o z script incoming =
    and_then (read_frame_full o z Option.none script incoming) (λ r left. got r.payload left)
