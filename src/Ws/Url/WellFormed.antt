-- ===== src/Ws/Url/WellFormed.antt =====
-- src/ws.cpp, `parse_ws_url`: what a parsed URL looks like.
use vynkor_sdk_cpp.Base.{
  ℕ, zero, suc, ◌+◌, ◌%◌, ◌^◌, ◌<◌, ◌≡◌, ◌≢◌, refl, sym, arith, Bool, true, false, some, [], ◌∷◌,
  length, drop, get_or, ltb, ◌==◌, if◌then◌else◌, inl, inr, subst, Bool-cases, Option-cases,
}
use vynkor_sdk_cpp.Base.Text.{Text, starts_with, find_char, rfind_char, is_empty}
use vynkor_sdk_cpp.Error.{ok, Result-cases, >>=-eq-ok, throw_if-eq-ok}
use vynkor_sdk_cpp.Ws.Url.{
  WsUrl, scheme, split_path, stoi, port_of, bracketed, plain_host, host_port, default_port, url_of,
  parse_ws_url,
}

drop-find_char :
    (c : ℕ) (s : Text) (i : ℕ) → find_char c s ≡ some i → (rest : Text) × (drop i s ≡ c ∷ rest)
unfolding find_char
drop-find_char c [] i h = cc h
drop-find_char c (x ∷ s) i h = elim (Bool-cases (x == c)) [
  | inl same ↦
      let first : 0 ≡ i = cc (rw (same, find_char) at h) in
      let this : x ≡ c = ground (arith, same) in (s, rw (sym first, this) refl)
  | inr other ↦ elim (Option-cases (find_char c s)) [
    | inl missing ↦ cc (rw (other, missing, find_char) at h)
    | inr (j, there) ↦
        let next : j + 1 ≡ i = cc (rw (other, there, find_char) at h) in
        let behind : i ≡ suc j = omega (arith, next) in
        let (rest, e) = drop-find_char c s j there in (rest, rw behind e)
  ]
]

split_path-slash : (rest : Text) → (more : Text) × ((split_path rest).1 ≡ b'/' ∷ more)
split_path-slash rest = elim (Option-cases (find_char b'/' rest)) [
  | inl missing ↦ ([], rw (missing, split_path) refl)
  | inr (i, there) ↦
      let (more, e) = drop-find_char b'/' rest i there in (more, rw (there, split_path) e)
]

port_of-lt : (text : Text) (p : ℕ) → port_of text ≡ ok p → p < 2 ^ 16
port_of-lt text p h =
    let (n, called, e) = >>=-eq-ok (stoi text) _ h in
    let same : n % 2 ^ 16 ≡ p = cc e in omega (arith, same)

zero-lt : (p : ℕ) → 0 ≡ p → p < 2 ^ 16
zero-lt p e = omega (arith, e)

bracketed-lt : (hostport host : Text) (p : ℕ) → bracketed hostport ≡ ok (host, p) → p < 2 ^ 16
unfolding bracketed
bracketed-lt hostport host p h = elim (Option-cases (find_char b']' hostport)) [
  | inl missing ↦ cc (rw (missing, bracketed) at h)
  | inr (i, there) ↦ elim (Bool-cases (ltb (i + 1) (length hostport))) [
    | inr ends ↦ zero-lt p (cc (rw (there, ends, bracketed) at h))
    | inl more ↦ elim (Bool-cases (get_or hostport (i + 1) 0 == b':')) [
      | inr other ↦ cc (rw (there, more, other, bracketed) at h)
      | inl colon ↦
          let (q, called, e) =
            >>=-eq-ok (port_of (drop (i + 2) hostport)) _
              (rw (there, more, colon, bracketed) at h) in
          let same : q ≡ p = cc e in rw (sym same) (port_of-lt (drop (i + 2) hostport) q called)
    ]
  ]
]

plain_host-lt : (hostport host : Text) (p : ℕ) → plain_host hostport ≡ ok (host, p) → p < 2 ^ 16
unfolding plain_host
plain_host-lt hostport host p h = elim (Option-cases (rfind_char b':' hostport)) [
  | inl missing ↦ zero-lt p (cc (rw (missing, plain_host) at h))
  | inr (zero, there) ↦ zero-lt p (cc (rw (there, plain_host) at h))
  | inr (suc i, there) ↦
      let (q, called, e) =
        >>=-eq-ok (port_of (drop (i + 2) hostport)) _ (rw (there, plain_host) at h) in
      let same : q ≡ p = cc e in rw (sym same) (port_of-lt (drop (i + 2) hostport) q called)
]

host_port-lt : (hostport host : Text) (p : ℕ) → host_port hostport ≡ ok (host, p) → p < 2 ^ 16
host_port-lt hostport host p h = elim (Bool-cases (starts_with hostport (b'[' ∷ []))) [
  | inl open_bracket ↦ bracketed-lt hostport host p (rw (open_bracket, host_port) at h)
  | inr other ↦ plain_host-lt hostport host p (rw (other, host_port) at h)
]

default_port-bounds :
    (tls : Bool) (p : ℕ) → p < 2 ^ 16 → (0 < default_port tls p) × (default_port tls p < 2 ^ 16)
default_port-bounds true p h = ground (arith, h)
default_port-bounds false p h = ground (arith, h)

is_empty-no : (s : Text) → is_empty s ≡ false → s ≢ []
is_empty-no [] h = cc h
is_empty-no (c ∷ s) h = λ e. cc e

slash_path :
    (path more : Text)
    → path ≡ b'/' ∷ more
    → (if is_empty path then b'/' ∷ [] else path) ≡ b'/' ∷ more
slash_path path more e = rw e refl

-- What `parse_ws_url` promises of the URL that it returns.
pub record IsWellFormed (u : WsUrl) : Type 0 where
  pub has_host : u.host ≢ []
  pub port_positive : 0 < u.port
  pub port_fits : u.port < 2 ^ 16
  pub path_slash : (more : Text) × (u.path ≡ b'/' ∷ more)

url_of-IsWellFormed :
    (tls : Bool) (path host more : Text) (p : ℕ) (u : WsUrl)
    → path ≡ b'/' ∷ more
    → p < 2 ^ 16
    → url_of tls path (host, p) ≡ ok u
    → IsWellFormed u
unfolding url_of
url_of-IsWellFormed tls path host more p u slashed small h =
    let (there, e) = throw_if-eq-ok (is_empty host) _ _ h in
    let made : WsUrl = record {
      tls = tls;
      host = host;
      port = default_port tls p;
      path = if is_empty path then b'/' ∷ [] else path;
    } in
    let same : made ≡ u = cc e in
    subst (λ v. IsWellFormed v) same
      (record {
        has_host = is_empty-no host there;
        port_positive = (default_port-bounds tls p small).0;
        port_fits = (default_port-bounds tls p small).1;
        path_slash = (more, slash_path path more slashed);
      })

-- Every URL that `parse_ws_url` returns, whatever the text, has a host that is not empty, a port
-- between 1 and 65535, and a path that begins with a slash.
pub parse_ws_url-IsWellFormed : (url : Text) (u : WsUrl) → parse_ws_url url ≡ ok u → IsWellFormed u
unfolding parse_ws_url
parse_ws_url-IsWellFormed url u h = elim (Result-cases (scheme url)) [
  | inr (e, failed) ↦ cc (rw (failed, parse_ws_url) at h)
  | inl ((tls, rest), schemed) ↦ elim (Result-cases (host_port (split_path rest).0)) [
    | inr (e, failed) ↦ cc (rw (schemed, failed, parse_ws_url) at h)
    | inl ((host, p), found) ↦
        url_of-IsWellFormed tls (split_path rest).1 host (split_path-slash rest).0 p u
          (split_path-slash rest).1 (host_port-lt (split_path rest).0 host p found)
          (rw (schemed, found, parse_ws_url) at h)
  ]
]
