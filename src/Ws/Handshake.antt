-- ===== src/Ws/Handshake.antt =====
-- src/ws.cpp, `WsConnection::connect`: the opening handshake, on a stream that is connected. SHA-1, base64 and the
-- random bytes are OpenSSL's: parameters, as are the bytes that the stream gives.
pub mod Head
pub mod Response
pub mod Checked
pub mod Tests
use vynkor_sdk_cpp.Base.{
  ℕ, zero, suc, ◌+◌, ◌-◌, Bool, true, false, ◌&&◌, ◌||◌, Option, none, some, List, [], ◌∷◌, ◌++◌,
  length, take, drop, ltb, leb, ◌==◌, if◌then◌else◌, text_eq,
}
use vynkor_sdk_cpp.Base.Text.{Text, lit, to_string, starts_with, find_char}
use vynkor_sdk_cpp.Error.{Exception, Result, ok, throws, internal, throw_if, ◌>>=◌, ◌>>◌}
use vynkor_sdk_cpp.Mac.{Bytes}
use vynkor_sdk_cpp.Ws.Url.{WsUrl}
use vynkor_sdk_cpp.Ws.Stream.{
  Fill, filled, fill_throws, fill_waits, Written, all_written, write_waits, write_throws,
}

-- `EVP_Digest` with SHA-1, none where it fails, and `EVP_EncodeBlock`.
pub record Digests : Type 0 where
  pub evp_sha1 : Bytes → Option Bytes
  pub evp_encode_block : Bytes → Text

abbrev pub ws_guid : Text
ws_guid = lit "258EAFA5-E914-47DA-95CA-C5AB0DC85B11"

unfoldable pub sha1_base64 : Digests → Text → Result Text
sha1_base64 d input = elim (d.evp_sha1 input) [
  | none ↦ throws (internal (lit "EVP_Digest(SHA-1) failed"))
  | some digest ↦ ok (d.evp_encode_block digest)
]

-- `tolower` in the C locale.
abbrev pub to_lower : ℕ → ℕ
to_lower c = if leb b'A' c && leb c b'Z' then c + 32 else c

unfoldable pub iequal : Text → Text → Bool
iequal [] [] = true
iequal [] (c ∷ t) = false
iequal (b ∷ s) [] = false
iequal (b ∷ s) (c ∷ t) = (to_lower b == to_lower c) && iequal s t

abbrev pub crlf : Text
crlf = 13 ∷ 10 ∷ []

abbrev pub protocol_line : Text → Text
protocol_line [] = []
protocol_line (c ∷ protocol) = lit "Sec-WebSocket-Protocol: " ++ ((c ∷ protocol) ++ crlf)

unfoldable pub opening_request : WsUrl → Text → Text → Text
opening_request url key protocol =
    lit "GET "
    ++ (url.path
        ++ (lit " HTTP/1.1"
            ++ (crlf
                ++ (lit "Host: "
                    ++ (url.host
                        ++ (lit ":"
                            ++ (to_string url.port
                                ++ (crlf
                                    ++ (lit "Upgrade: websocket"
                                        ++ (crlf
                                            ++ (lit "Connection: Upgrade"
                                                ++ (crlf
                                                    ++ (lit "Sec-WebSocket-Key: "
                                                        ++ (key
                                                            ++ (crlf
                                                            ++ (lit "Sec-WebSocket-Version: 13"
                                                            ++ (crlf
                                                            ++ (protocol_line protocol
                                                            ++ crlf))))))))))))))))))

-- `std::search` for the end of the head.
unfoldable pub find_head_end : Bytes → Option ℕ
find_head_end [] = none
find_head_end (b ∷ buf) =
    if starts_with (b ∷ buf) (13 ∷ 10 ∷ 13 ∷ 10 ∷ [])
    then some 0
    else elim (find_head_end buf) [ none ↦ none | some i ↦ some (suc i) ]

abbrev pub max_head : ℕ
max_head = 16384

-- The head of the response with what is left in the buffer, an exception, or the loop waits.
pub data Headed : Type 0 where
  headed : Text → Bytes → Headed
  head_throws : Exception → Headed
  head_waits : Headed

-- One test of the loop; `later` is what the loop does after the next fill.
unfoldable pub try_head : Bytes → Headed → Headed
try_head buf later = elim (find_head_end buf) [
  | some i ↦ headed (take i buf) (drop (i + 4) buf)
  | none ↦
      if ltb max_head (length buf)
      then head_throws (internal (lit "websocket handshake response too large"))
      else later
]

unfoldable pub read_head : List Fill → Bytes → Headed
read_head [] buf = try_head buf head_waits
read_head (filled b bs ∷ fills) buf = try_head buf (read_head fills (buf ++ (b ∷ bs)))
read_head (fill_throws e ∷ fills) buf = try_head buf (head_throws e)
read_head (fill_waits ∷ fills) buf = try_head buf head_waits

-- The character in front of the first of the lines behind it.
abbrev pub onto_first : ℕ → List Text → List Text
onto_first c [] = (c ∷ []) ∷ []
onto_first c (line ∷ more) = (c ∷ line) ∷ more

-- What the calls of `std::getline` give.
unfoldable pub lines_of : Text → List Text
lines_of [] = []
lines_of (c ∷ s) = if c == 10 then [] ∷ lines_of s else onto_first c (lines_of s)

unfoldable pub contains : Text → Text → Bool
contains [] needle = starts_with [] needle
contains (c ∷ s) needle = starts_with (c ∷ s) needle || contains s needle

abbrev pub status_fits : Text → Bool
status_fits line = contains line (lit " 101 ") || starts_with line (lit "HTTP/1.1 101")

-- `line.pop_back()` where the line ends in a carriage return.
unfoldable pub drop_cr : Text → Text
drop_cr [] = []
drop_cr (c ∷ []) = if c == 13 then [] else c ∷ []
drop_cr (c ∷ d ∷ s) = c ∷ drop_cr (d ∷ s)

abbrev pub is_blank : ℕ → Bool
is_blank c = (c == 32) || (c == 9)

unfoldable pub trim_front : Text → Text
trim_front [] = []
trim_front (c ∷ s) = if is_blank c then trim_front s else c ∷ s

abbrev pub unless_blank : ℕ → Text → Text
unless_blank c [] = if is_blank c then [] else c ∷ []
unless_blank c (d ∷ s) = c ∷ d ∷ s

unfoldable pub trim_back : Text → Text
trim_back [] = []
trim_back (c ∷ s) = unless_blank c (trim_back s)

unfoldable pub trim : Text → Text
unfolding trim_front trim_back
trim s = trim_back (trim_front s)

-- The name and the value of a header line, none without a colon.
unfoldable pub header_of : Text → Option (Text × Text)
header_of line = elim (find_char b':' (drop_cr line)) [
  | none ↦ none
  | some i ↦ some (trim (take i (drop_cr line)), trim (drop (i + 1) (drop_cr line)))
]

abbrev pub is_upgrade : Text × Text → Bool
is_upgrade (name, value) = iequal name (lit "upgrade") && iequal value (lit "websocket")

abbrev pub is_accept : Text → Text × Text → Bool
is_accept expected (name, value) =
    iequal name (lit "sec-websocket-accept") && text_eq value expected

-- `saw_upgrade` and `accept_ok` after the loop over the lines.
unfoldable pub scan_headers : Text → List Text → Bool → Bool → Bool × Bool
scan_headers expected [] saw_upgrade accept_ok = (saw_upgrade, accept_ok)
scan_headers expected (line ∷ more) saw_upgrade accept_ok = elim (header_of line) [
  | none ↦ scan_headers expected more saw_upgrade accept_ok
  | some header ↦
      scan_headers expected more (saw_upgrade || is_upgrade header)
        (accept_ok || is_accept expected header)
]

-- The first line; without one it stays empty.
abbrev pub first_line : List Text → Text × List Text
first_line [] = ([], [])
first_line (line ∷ more) = (line, more)

-- What is checked of the head.
unfoldable pub check_head : Digests → Text → Text → Result (Unit {0})
check_head d key head =
    let (status_line, more) = first_line (lines_of head) in
    if status_fits status_line
    then (sha1_base64 d (key ++ ws_guid) >>= λ expected.
        let (saw_upgrade, accept_ok) = scan_headers expected more false false in
        if saw_upgrade
        then (if accept_ok
            then ok tt
            else throws (internal (lit "websocket handshake: Sec-WebSocket-Accept mismatch")))
        else throws (internal (lit "websocket handshake: missing Upgrade header")))
    else throws (internal (lit "websocket handshake rejected: " ++ status_line))

-- The request, and the buffer of the connection, an exception, or a wait.
pub data Opened : Type 0 where
  opened : Text → Bytes → Opened
  open_throws : Exception → Opened
  open_waits : Opened

abbrev pub checked : Text → Bytes → Result (Unit {0}) → Opened
checked request left (throws e) = open_throws e
checked request left (ok done) = opened request left

abbrev pub answered_head : Digests → Text → Text → Headed → Opened
answered_head d key request (head_throws e) = open_throws e
answered_head d key request head_waits = open_waits
answered_head d key request (headed head left) = checked request left (check_head d key head)

-- From the nonce of `RAND_bytes`, how the write of the request ends, and the fills.
unfoldable pub open_handshake : Digests → WsUrl → Text → Option Bytes → Written → List Fill → Opened
open_handshake d url protocol none written fills = open_throws (internal (lit "RAND_bytes failed"))
open_handshake d url protocol (some nonce) (write_throws e) fills = open_throws e
open_handshake d url protocol (some nonce) write_waits fills = open_waits
open_handshake d url protocol (some nonce) all_written fills =
    let key = d.evp_encode_block nonce in
    answered_head d key (opening_request url key protocol) (read_head fills [])
