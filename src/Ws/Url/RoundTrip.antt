-- ===== src/Ws/Url/RoundTrip.antt =====
-- src/ws.cpp, `parse_ws_url`: the URLs that are put together from their parts are read.
use vynkor_sdk_cpp.Base.{
  ℕ, zero, suc, ◌+◌, ◌-◌, ◌^◌, ◌<◌, ◌≡◌, ◌≢◌, refl, ap, sym, ◌∙◌, arith, Bool, true, false, some,
  [], ◌∷◌, ◌++◌, append_assoc, length, length-append, take, drop, take_append, drop_append, get_or,
  All, All-append, ltb, ◌==◌, if◌then◌else◌, inl, inr,
}
use vynkor_sdk_cpp.Base.Text.{Text, lit, starts_with, find_char, rfind_char, to_string}
use vynkor_sdk_cpp.Error.{ok}
use vynkor_sdk_cpp.Ws.Url.{
  WsUrl, scheme, split_path, bracketed, plain_host, host_port, url_of, parse_ws_url,
}
use vynkor_sdk_cpp.Ws.Url.Numbers.{
  IsNot, IsDigit-IsNot, find_char-append, rfind_char-append, to_string-IsDigit, port_of-to_string,
}

-- `host:port`, or `[host]:port`.
abbrev pub authority_of : Bool → Text → ℕ → Text
authority_of true host port = b'[' ∷ (host ++ (b']' ∷ (b':' ∷ to_string port)))
authority_of false host port = host ++ (b':' ∷ to_string port)

abbrev pub scheme_of : Bool → Text
scheme_of tls = if tls then lit "wss://" else lit "ws://"

abbrev pub url_text : Bool → WsUrl → Text
url_text brackets u = scheme_of u.tls ++ (authority_of brackets u.host u.port ++ u.path)

-- A host that can stand in brackets, or without them: then it may hold colons, the last one is the port's.
abbrev pub CanStand : Bool → Text → Type 0
CanStand true host = All (IsNot b'/') host × All (IsNot b']') host
CanStand false host = All (IsNot b'/') host × (starts_with host (b'[' ∷ []) ≡ false)

scheme_lem : (tls : Bool) (rest : Text) → scheme (scheme_of tls ++ rest) ≡ ok (tls, rest)
unfolding lit starts_with
scheme_lem true rest = refl
scheme_lem false rest = refl

split_path-append :
    (front more : Text)
    → All (IsNot b'/') front
    → split_path (front ++ (b'/' ∷ more)) ≡ (front, b'/' ∷ more)
split_path-append front more h =
    rw
      (
        find_char-append b'/' front more h,
        take_append (length front) front (b'/' ∷ more) refl,
        drop_append (length front) front (b'/' ∷ more) refl,
        split_path,
      )
      refl

drop_after : (n : ℕ) (xs ys : Text) (x : ℕ) → n ≡ length xs + 1 → drop n (xs ++ (x ∷ ys)) ≡ ys
drop_after n xs ys x h =
    ap (drop n) (sym (append_assoc xs (x ∷ []) ys))
    ∙ drop_append n (xs ++ (x ∷ [])) ys (length-append xs (x ∷ []) ∙ omega (arith, h))

get_or_after : (n : ℕ) (xs ys : Text) (x : ℕ) → n ≡ length xs → get_or (xs ++ (x ∷ ys)) n 0 ≡ x
get_or_after n [] ys x h = rw h refl
get_or_after zero (y ∷ xs) ys x h = omega (arith, h)
get_or_after (suc n) (y ∷ xs) ys x h = get_or_after n xs ys x (omega (arith, h))

plain_host-append :
    (c : ℕ) (host : Text) (port : ℕ)
    → port < 2 ^ 16
    → plain_host ((c ∷ host) ++ (b':' ∷ to_string port)) ≡ ok (c ∷ host, port)
unfolding plain_host
plain_host-append c host port small =
    let colon : rfind_char b':' ((c ∷ host) ++ (b':' ∷ to_string port)) ≡ some (suc (length host)) =
      rfind_char-append b':' (c ∷ host) (to_string port)
        (IsDigit-IsNot b':' (inl (omega arith)) (to_string port) (to_string-IsDigit port))
      ∙ ap some (omega arith) in
    rw
      (
        colon,
        drop_after (length host + 2) (c ∷ host) (to_string port) b':' (omega arith),
        take_append (length host + 1) (c ∷ host) (b':' ∷ to_string port) (omega arith),
        port_of-to_string port small,
        plain_host,
      )
      refl

bracketed-append :
    (host : Text) (port : ℕ)
    → port < 2 ^ 16
    → All (IsNot b']') host
    → bracketed (authority_of true host port) ≡ ok (host, port)
unfolding bracketed
bracketed-append host port small h =
    let close : find_char b']' (authority_of true host port) ≡ some (suc (length host)) =
      find_char-append b']' (b'[' ∷ host) (b':' ∷ to_string port) (refl, h)
      ∙ ap some (omega arith) in
    let front : Text = b'[' ∷ (host ++ (b']' ∷ [])) in
    let regroup : authority_of true host port ≡ front ++ (b':' ∷ to_string port) =
      ap (λ (t : Text). b'[' ∷ t) (sym (append_assoc host (b']' ∷ []) (b':' ∷ to_string port))) in
    let long : length front ≡ length host + 2 = omega (arith, length-append host (b']' ∷ [])) in
    let size : length (authority_of true host port) ≡ length host + 3 + length (to_string port) =
      omega (arith, length-append host (b']' ∷ (b':' ∷ to_string port))) in
    let more : ltb (suc (length host) + 1) (length (authority_of true host port)) ≡ true =
      ground (arith, size) in
    let at_colon : get_or (authority_of true host port) (suc (length host) + 1) 0 ≡ b':' =
      ap (λ (t : Text). get_or t (suc (length host) + 1) 0) regroup
      ∙ get_or_after (suc (length host) + 1) front (to_string port) b':' (omega (arith, long)) in
    let port_text : drop (suc (length host) + 2) (authority_of true host port) ≡ to_string port =
      ap (drop (suc (length host) + 2)) regroup
      ∙ drop_after (suc (length host) + 2) front (to_string port) b':' (omega (arith, long)) in
    let host_text : take (suc (length host) - 1) (drop 1 (authority_of true host port)) ≡ host =
      take_append (suc (length host) - 1) host (b']' ∷ (b':' ∷ to_string port)) (omega arith) in
    rw (close, more, at_colon, port_text, host_text, port_of-to_string port small, bracketed) refl

starts_with-append_no :
    (c : ℕ) (xs ys : Text)
    → xs ≢ []
    → starts_with xs (c ∷ []) ≡ false
    → starts_with (xs ++ ys) (c ∷ []) ≡ false
unfolding starts_with
starts_with-append_no c [] ys some_text h = elim (some_text refl) [ ]
starts_with-append_no c (x ∷ xs) ys some_text h = ground (arith, h)

host_port-authority :
    (brackets : Bool) (host : Text) (port : ℕ)
    → host ≢ []
    → port < 2 ^ 16
    → CanStand brackets host
    → host_port (authority_of brackets host port) ≡ ok (host, port)
unfolding starts_with
host_port-authority true host port some_host small (slash, close) =
    bracketed-append host port small close
host_port-authority false [] port some_host small can = elim (some_host refl) [ ]
host_port-authority false (c ∷ host) port some_host small (slash, other) =
    let plain : starts_with (authority_of false (c ∷ host) port) (b'[' ∷ []) ≡ false =
      starts_with-append_no b'[' (c ∷ host) (b':' ∷ to_string port) some_host other in
    rw (plain, host_port) (plain_host-append c host port small)

port-slash : (port : ℕ) → All (IsNot b'/') (to_string port)
port-slash port = IsDigit-IsNot b'/' (inr (omega arith)) (to_string port) (to_string-IsDigit port)

authority-slash :
    (brackets : Bool) (host : Text) (port : ℕ)
    → CanStand brackets host
    → All (IsNot b'/') (authority_of brackets host port)
authority-slash true host port (slash, close) = (
  refl,
  All-append (IsNot b'/') host (b']' ∷ (b':' ∷ to_string port)) slash
      (refl, (refl, port-slash port)),
)
authority-slash false host port (slash, other) =
    All-append (IsNot b'/') host (b':' ∷ to_string port) slash (refl, port-slash port)

url_of-parts :
    (tls : Bool) (c : ℕ) (host more : Text) (port : ℕ)
    → 0 < port
    → url_of tls (b'/' ∷ more) (c ∷ host, port)
      ≡ ok (record { tls = tls; host = c ∷ host; port = port; path = b'/' ∷ more })
unfolding url_of
url_of-parts tls c host more port positive =
    let set_port : (port == 0) ≡ false = ground (arith, positive) in rw set_port refl

parts-url :
    (brackets tls : Bool) (host more : Text) (port : ℕ)
    → host ≢ []
    → CanStand brackets host
    → 0 < port
    → port < 2 ^ 16
    → parse_ws_url (scheme_of tls ++ (authority_of brackets host port ++ (b'/' ∷ more)))
      ≡ ok (record { tls = tls; host = host; port = port; path = b'/' ∷ more })
unfolding parse_ws_url
parts-url brackets tls [] more port some_host can positive small = elim (some_host refl) [ ]
parts-url brackets tls (c ∷ host) more port some_host can positive small =
    rw
      (
        scheme_lem tls (authority_of brackets (c ∷ host) port ++ (b'/' ∷ more)),
        split_path-append (authority_of brackets (c ∷ host) port) more
            (authority-slash brackets (c ∷ host) port can),
        host_port-authority brackets (c ∷ host) port some_host small can,
        parse_ws_url,
      )
      (url_of-parts tls c host more port positive)

-- A URL that is put together from a host, a port and a path that begins with a slash is parsed into these parts.
-- In brackets the host has no slash and no closing bracket; without them it has no slash and does not begin with an
-- opening bracket, but it may hold colons.
pub parse_ws_url-url_text :
    (brackets : Bool) (u : WsUrl) (more : Text)
    → u.host ≢ []
    → CanStand brackets u.host
    → 0 < u.port
    → u.port < 2 ^ 16
    → u.path ≡ b'/' ∷ more
    → parse_ws_url (url_text brackets u) ≡ ok u
parse_ws_url-url_text brackets u more some_host can positive small slash =
    ap (λ path. parse_ws_url (scheme_of u.tls ++ (authority_of brackets u.host u.port ++ path)))
      slash
    ∙ (parts-url brackets u.tls u.host more u.port some_host can positive small
        ∙ ap {A = Text}
            (λ path. ok (record { tls = u.tls; host = u.host; port = u.port; path = path }))
            (sym slash))
