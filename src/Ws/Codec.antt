-- ===== src/Ws/Codec.antt =====
-- src/ws.cpp: the frame codec of RFC 6455, from the side of the client.
pub mod Mask
pub mod Encode
pub mod Decode
pub mod Stable
use vynkor_sdk_cpp.Base.{
  ℕ, ◌+◌, ◌*◌, ◌/◌, ◌%◌, bit_and, bit_or, bit_xor, Bool, true, false, not, Option, none, some, List,
  [], ◌∷◌, ◌++◌, length, take, drop, get_or, ltb, leb, ◌==◌, if◌then◌else◌,
}
use vynkor_sdk_cpp.Base.Text.{lit}
use vynkor_sdk_cpp.Error.{Result, ok, throws, internal, payload_too_large}
use vynkor_sdk_cpp.Mac.{Bytes}
use vynkor_sdk_cpp.Framing.Header.{be16, be32, read_be16, read_be32}

abbrev pub op_cont : ℕ
op_cont = 0x0

abbrev pub op_text : ℕ
op_text = 0x1

abbrev pub op_binary : ℕ
op_binary = 0x2

abbrev pub op_close : ℕ
op_close = 0x8

abbrev pub op_ping : ℕ
op_ping = 0x9

abbrev pub op_pong : ℕ
op_pong = 0xa

abbrev pub ws_max_message_size : ℕ
ws_max_message_size = 4 * 1024 * 1024

-- `htobe64` and `be64toh` with `memcpy`.
abbrev pub be64 : ℕ → Bytes
be64 n = be32 (n / 0x100000000) ++ be32 n

abbrev pub read_be64 : Bytes → ℕ → ℕ
read_be64 buf i = read_be32 buf i * 0x100000000 + read_be32 buf (i + 4)

-- `payload[i] ^ mask[i % 4]`, from the index `i` on.
unfoldable pub mask_from : Bytes → ℕ → Bytes → Bytes
mask_from mask i [] = []
mask_from mask i (b ∷ bs) = bit_xor b (get_or mask (i % 4) 0) ∷ mask_from mask (i + 1) bs

unfoldable pub length_field : ℕ → Bytes
length_field len =
    if ltb len 126
    then bit_or 0x80 len ∷ []
    else if leb len 0xffff
    then bit_or 0x80 126 ∷ be16 len
    else bit_or 0x80 127 ∷ be64 len

-- `random` is what RAND_bytes gives, none where it fails.
unfoldable pub ws_encode_client_frame : Option Bytes → ℕ → Bytes → Result Bytes
ws_encode_client_frame random opcode payload = elim random [
  | none ↦ throws (internal (lit "RAND_bytes failed"))
  | some mask ↦
      ok
        ((bit_or 0x80 opcode ∷ length_field (length payload)) ++ (mask ++ mask_from mask 0 payload))
]

pub record WsIncomingFrame : Type 0 where
  pub fin : Bool
  pub opcode : ℕ
  pub payload : Bytes

-- The end of the decoder, once the length is known: the frame and what goes to `*consumed`.
unfoldable pub cut_frame : Bool → ℕ → ℕ → ℕ → Bytes → Result (Option (WsIncomingFrame × ℕ))
cut_frame fin opcode offset len buf =
    if ltb ws_max_message_size len
    then throws (payload_too_large len)
    else if ltb (length buf) (offset + len)
    then ok none
    else ok (
        some (
          record { fin = fin; opcode = opcode; payload = take len (drop offset buf) },
          offset + len,
        ))

-- `none` is the answer false: more bytes are needed.
unfoldable pub ws_try_decode_server_frame : Bytes → Result (Option (WsIncomingFrame × ℕ))
ws_try_decode_server_frame buf =
    let b0 = get_or buf 0 0 in
    let b1 = get_or buf 1 0 in
    let fin = not (bit_and b0 0x80 == 0) in
    let opcode = bit_and b0 0x0f in
    let masked = not (bit_and b1 0x80 == 0) in
    let len = bit_and b1 0x7f in
    if ltb (length buf) 2
    then ok none
    else if masked
    then throws (internal (lit "websocket: server sent a masked frame"))
    else if len == 126
    then if ltb (length buf) 4 then ok none else cut_frame fin opcode 4 (read_be16 buf 2) buf
    else if len == 127
    then if ltb (length buf) 10 then ok none else cut_frame fin opcode 10 (read_be64 buf 2) buf
    else cut_frame fin opcode 2 len buf
