-- ===== src/Ws/Url.antt =====
-- src/ws.cpp, `parse_ws_url`, and `WsUrl` of include/vynkor/ws.hpp.
pub mod WellFormed
pub mod Numbers
pub mod RoundTrip
pub mod Tests
use vynkor_sdk_cpp.Base.{
  ℕ, zero, suc, ◌+◌, ◌-◌, ◌*◌, ◌%◌, ◌^◌, Bool, true, false, not, ◌&&◌, ◌||◌, Option, none, some,
  List, [], ◌∷◌, ◌++◌, length, take, drop, get_or, ltb, leb, ◌==◌, if◌then◌else◌,
}
use vynkor_sdk_cpp.Base.Text.{Text, lit, starts_with, find_char, rfind_char, is_empty, skip_space}
use vynkor_sdk_cpp.Error.{
  Result, ok, throws, internal, invalid_argument, out_of_range, throw_if, ◌>>=◌, ◌>>◌,
}

pub record WsUrl : Type 0 where
  pub tls : Bool
  pub host : Text
  pub port : ℕ
  pub path : Text

-- The decimal number at the front, and whether a digit was seen.
unfoldable pub decimal : Text → ℕ → Bool → ℕ × Bool
decimal [] n seen = (n, seen)
decimal (c ∷ s) n seen =
    let rest = decimal s (n * 10 + (c - b'0')) true in
    if leb b'0' c && leb c b'9' then rest else (n, seen)

-- `std::stoi`: leading space, a sign, then the digits up to the first other character; without a digit, or
-- outside the range of an int, it throws. A negative int is given as its 32 bits.
unfoldable pub stoi : Text → Result ℕ
unfolding decimal skip_space starts_with
stoi text =
    let s = skip_space text in
    let minus = starts_with s (b'-' ∷ []) in
    let plus = starts_with s (b'+' ∷ []) in
    let (n, seen) = decimal (if minus || plus then drop 1 s else s) 0 false in
    if not seen
    then throws (invalid_argument (lit "stoi"))
    else if ltb (if minus then 2147483648 else 2147483647) n
    then throws out_of_range
    else ok (if minus then (2 ^ 32 - n) % 2 ^ 32 else n)

-- `static_cast<uint16_t>(std::stoi(text))`
abbrev pub port_of : Text → Result ℕ
port_of text = stoi text >>= λ n. ok (n % 2 ^ 16)

-- The rest of the URL behind its scheme.
abbrev pub scheme : Text → Result (Bool × Text)
scheme url =
    if starts_with url (lit "ws://")
    then ok (false, drop 5 url)
    else if starts_with url (lit "wss://")
    then ok (true, drop 6 url)
    else throws (internal (lit "invalid ws url: scheme must be ws:// or wss://"))

-- `authority` and `path`
abbrev pub split_path : Text → Text × Text
split_path rest = elim (find_char b'/' rest) [
  | none ↦ (rest, b'/' ∷ [])
  | some i ↦ (take i rest, drop i rest)
]

-- The branch of an authority that starts with `[`; the port is zero where there is none.
unfoldable pub bracketed : Text → Result (Text × ℕ)
bracketed hostport = elim (find_char b']' hostport) [
  | none ↦ throws (internal (lit "invalid ws url: unterminated IPv6 literal"))
  | some i ↦
      let host = take (i - 1) (drop 1 hostport) in
      if not (ltb (i + 1) (length hostport))
      then ok (host, 0)
      else if not (get_or hostport (i + 1) 0 == b':')
      then throws (internal (lit "invalid ws url: bad text after IPv6 literal"))
      else port_of (drop (i + 2) hostport) >>= λ port. ok (host, port)
]

-- The other branch.
unfoldable pub plain_host : Text → Result (Text × ℕ)
plain_host hostport = elim (rfind_char b':' hostport) [
  | none ↦ ok (hostport, 0)
  | some zero ↦ ok (hostport, 0)
  | some (suc i) ↦ port_of (drop (i + 2) hostport) >>= λ port. ok (take (i + 1) hostport, port)
]

abbrev pub host_port : Text → Result (Text × ℕ)
host_port hostport =
    if starts_with hostport (b'[' ∷ []) then bracketed hostport else plain_host hostport

abbrev pub default_port : Bool → ℕ → ℕ
default_port tls port = if port == 0 then (if tls then 443 else 80) else port

-- What stands behind the two branches.
unfoldable pub url_of : Bool → Text → Text × ℕ → Result WsUrl
url_of tls path (host, port) =
    throw_if (is_empty host) (internal (lit "invalid ws url: missing host"))
    >> ok (record {
      tls = tls;
      host = host;
      port = default_port tls port;
      path = if is_empty path then b'/' ∷ [] else path;
    })

unfoldable pub parse_ws_url : Text → Result WsUrl
parse_ws_url url = scheme url >>= λ schemed.
    host_port (split_path schemed.1).0 >>= λ found. url_of schemed.0 (split_path schemed.1).1 found
