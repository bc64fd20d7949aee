-- ===== src/Ws/Url/Tests.antt =====
-- Runs of `parse_ws_url`.
use vynkor_sdk_cpp.Base.{◌≡◌, refl, arith, true, false, [], ◌∷◌}
use vynkor_sdk_cpp.Base.Text.{lit, starts_with, find_char, rfind_char, skip_space}
use vynkor_sdk_cpp.Error.{ok, throws, invalid_argument, out_of_range, internal}
use vynkor_sdk_cpp.Ws.Url.{WsUrl, parse_ws_url, plain_host, bracketed, stoi, decimal, url_of}
use vynkor_sdk_cpp.Ws.Url.WellFormed.{IsWellFormed, parse_ws_url-IsWellFormed}
use vynkor_sdk_cpp.Ws.Url.RoundTrip.{url_text, parse_ws_url-url_text}

abbrev gateway : WsUrl
gateway = record { tls = true; host = lit "gw"; port = 443; path = lit "/ws" }

abbrev local : WsUrl
local = record { tls = false; host = lit "::1"; port = 8080; path = b'/' ∷ [] }

parse_gateway : parse_ws_url (lit "wss://gw/ws") ≡ ok gateway
unfolding parse_ws_url plain_host bracketed stoi decimal url_of lit starts_with find_char rfind_char
    skip_space
parse_gateway = refl

parse_local : parse_ws_url (lit "ws://[::1]:8080") ≡ ok local
unfolding parse_ws_url plain_host bracketed stoi decimal url_of lit starts_with find_char rfind_char
    skip_space
parse_local = refl

parse_no_number : parse_ws_url (lit "ws://gw:/") ≡ throws (invalid_argument (lit "stoi"))
unfolding parse_ws_url plain_host bracketed stoi decimal url_of lit starts_with find_char rfind_char
    skip_space
parse_no_number = refl

parse_large : parse_ws_url (lit "ws://gw:4294967296") ≡ throws out_of_range
unfolding parse_ws_url plain_host bracketed stoi decimal url_of lit starts_with find_char rfind_char
    skip_space
parse_large = refl

parse_no_host : parse_ws_url (lit "ws:///") ≡ throws (internal (lit "invalid ws url: missing host"))
unfolding parse_ws_url plain_host bracketed stoi decimal url_of lit starts_with find_char rfind_char
    skip_space
parse_no_host = refl

parse_ws_url-IsWellFormed_example : IsWellFormed gateway
parse_ws_url-IsWellFormed_example =
    parse_ws_url-IsWellFormed (lit "wss://gw/ws") gateway parse_gateway

parse_ws_url-url_text_example : parse_ws_url (url_text true local) ≡ ok local
unfolding lit
parse_ws_url-url_text_example =
    parse_ws_url-url_text true local [] (λ e. cc e)
      ((refl, (refl, (refl, tt))), (refl, (refl, (refl, tt)))) (omega arith) (omega arith) refl
