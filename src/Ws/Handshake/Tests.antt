-- ===== src/Ws/Handshake/Tests.antt =====
-- Runs of the opening handshake.
use vynkor_sdk_cpp.Base.{
  ◌≡◌, inl, refl, arith, false, some, List, [], ◌∷◌, ◌++◌, take, drop, text_eq,
}
use vynkor_sdk_cpp.Base.Text.{Text, lit, starts_with, find_char}
use vynkor_sdk_cpp.Mac.{Bytes}
use vynkor_sdk_cpp.Ws.Url.{WsUrl}
use vynkor_sdk_cpp.Ws.Stream.{Fill, filled, all_written}
use vynkor_sdk_cpp.Ws.Handshake.{
  Digests, sha1_base64, iequal, contains, drop_cr, trim, trim_front, trim_back, header_of, lines_of,
  find_head_end, open_handshake, opened, opening_request,
}
use vynkor_sdk_cpp.Ws.Handshake.Head.{gathered}
use vynkor_sdk_cpp.Ws.Handshake.Response.{iequal_sound}
use vynkor_sdk_cpp.Ws.Handshake.Checked.{here, there, IsUpgrade, open_handshake_accepts}

-- Not SHA-1 and not base64.
abbrev pub toy_digests : Digests
toy_digests = record {
  evp_sha1 = λ input. some (b'd' ∷ []);
  evp_encode_block = λ bytes. b'A' ∷ (b'=' ∷ []);
}

abbrev pub url : WsUrl
url = record { tls = false; host = lit "gw"; port = 80; path = lit "/ws" }

abbrev pub head : Text
head = lit "HTTP/1.1 101 Switching\r\nupgrade:WebSocket\r\nSec-WebSocket-Accept: A="

abbrev pub fills : List Fill
fills =
    filled b'H' (drop 1 head ++ (13 ∷ [])) ∷ (filled 10 (13 ∷ (10 ∷ (7 ∷ []))) ∷ (filled 8 [] ∷ []))

head_lem : find_head_end (gathered fills) ≡ some 67
unfolding find_head_end gathered lit starts_with
head_lem = refl

abbrev key : Text
key = b'A' ∷ (b'=' ∷ [])

head-IsUpgrade : IsUpgrade toy_digests key (take 67 (gathered fills))
unfolding gathered lit lines_of header_of drop_cr find_char trim trim_front trim_back starts_with
    contains iequal text_eq sha1_base64
head-IsUpgrade = record {
  status = inl (lit "HTTP/1.1", lit "Switching" ++ (13 ∷ []), refl);
  digest = b'd' ∷ [];
  hashed = refl;
  upgrade =
      here _ _ (lit "upgrade", lit "WebSocket") refl
        (
          iequal_sound (lit "upgrade") (lit "upgrade") refl,
          iequal_sound (lit "WebSocket") (lit "websocket") refl,
        );
  accept = there _ _ (
      here _ _ (lit "Sec-WebSocket-Accept", key) refl
        (iequal_sound (lit "Sec-WebSocket-Accept") (lit "sec-websocket-accept") refl, refl));
}

open_handshake_accepts_example :
    (left : Bytes) × (rest : Bytes) × (open_handshake toy_digests url [] (some []) all_written fills
      ≡ opened (opening_request url key []) left)
    × (drop 71 (gathered fills) ≡ left ++ rest)
open_handshake_accepts_example =
    open_handshake_accepts toy_digests url [] [] fills 67 head_lem (omega arith) head-IsUpgrade
