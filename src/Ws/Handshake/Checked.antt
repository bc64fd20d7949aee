-- ===== src/Ws/Handshake/Checked.antt =====
-- src/ws.cpp, `WsConnection::connect`: which responses open the connection.
use vynkor_sdk_cpp.Base.{
  ℕ, ◌+◌, ◌≤◌, ◌≡◌, inl, inr, ◌↔◌, refl, Bool, true, false, ◌||◌, none, some, List, [], ◌∷◌, ◌++◌,
  take, drop, Option-cases, arith,
}
use vynkor_sdk_cpp.Base.Text.{Text}
use vynkor_sdk_cpp.Error.{ok}
use vynkor_sdk_cpp.Mac.{Bytes}
use vynkor_sdk_cpp.Ws.Url.{WsUrl}
use vynkor_sdk_cpp.Ws.Stream.{Fill, all_written}
use vynkor_sdk_cpp.Ws.Handshake.{
  Digests, sha1_base64, ws_guid, header_of, is_upgrade, is_accept, scan_headers, first_line,
  lines_of, check_head, find_head_end, max_head, opened, opening_request, open_handshake,
}
use vynkor_sdk_cpp.Ws.Handshake.Response.{
  IsSwitching, IsUpgradeHeader, IsAcceptHeader, status_fits_complete, is_upgrade_iff, is_accept_iff,
}
use vynkor_sdk_cpp.Ws.Handshake.Head.{gathered, read_head-finds}

-- A line among these is a header of this kind.
pub data Has (P : Text × Text → Type 0) : List Text → Type 0 where
  here :
      (line : Text) (more : List Text) (header : Text × Text)
      → header_of line ≡ some header
      → P header
      → Has P (line ∷ more)
  there : (line : Text) (more : List Text) → Has P more → Has P (line ∷ more)

module _ (test : Text × Text → Bool) where
  unfoldable any_header : List Text → Bool → Bool
  any_header [] seen = seen
  any_header (line ∷ more) seen = elim (header_of line) [
    | none ↦ any_header more seen
    | some header ↦ any_header more (seen || test header)
  ]

  any_header-seen : (lines : List Text) → any_header lines true ≡ true
  unfolding any_header
  any_header-seen [] = refl
  any_header-seen (line ∷ more) = elim (Option-cases (header_of line)) [
    | inl missing ↦ rw (missing, any_header) (any_header-seen more)
    | inr (header, found) ↦ rw (found, any_header) (any_header-seen more)
  ]

-- The test decides the kind.
module _ (test : Text × Text → Bool) (P : Text × Text → Type 0)
    (test_iff : (header : Text × Text) → (test header ≡ true) ↔ P header) where
  Has-any_header :
      (lines : List Text) (seen : Bool) → Has P lines → any_header test lines seen ≡ true
  unfolding any_header
  Has-any_header ls seen (here line more header found kind) =
      let passes : test header ≡ true = (test_iff header).1 kind in
      let now : (seen || test header) ≡ true = ground (arith, passes) in
      rw (found, any_header) (rw now (any_header-seen test more))
  Has-any_header ls seen (there line more has) = elim (Option-cases (header_of line)) [
    | inl missing ↦ rw (missing, any_header) (Has-any_header more seen has)
    | inr (header, found) ↦ rw (found, any_header) (Has-any_header more (seen || test header) has)
  ]

scan_headers-any_header :
    (expected : Text) (lines : List Text) (saw_upgrade accept_ok : Bool)
    → scan_headers expected lines saw_upgrade accept_ok
      ≡ (any_header is_upgrade lines saw_upgrade, any_header (is_accept expected) lines accept_ok)
unfolding scan_headers any_header
scan_headers-any_header expected [] saw_upgrade accept_ok = refl
scan_headers-any_header expected (line ∷ more) saw_upgrade accept_ok =
    elim (Option-cases (header_of line)) [
      | inl missing ↦
          rw (missing, scan_headers, any_header)
            (scan_headers-any_header expected more saw_upgrade accept_ok)
      | inr (header, found) ↦
          rw (found, scan_headers, any_header)
            (scan_headers-any_header expected more (saw_upgrade || is_upgrade header)
              (accept_ok || is_accept expected header))
    ]

-- The response switches to the protocol, for this key: RFC 6455, section 4.1, with the status 101, a header that
-- upgrades to websocket, and one that accepts with the base64 text of the SHA-1 digest of the key and the GUID.
pub record IsUpgrade (d : Digests) (key head : Text) : Type 0 where
  pub status : IsSwitching (first_line (lines_of head)).0
  pub digest : Bytes
  pub hashed : d.evp_sha1 (key ++ ws_guid) ≡ some digest
  pub upgrade : Has IsUpgradeHeader (first_line (lines_of head)).1
  pub accept : Has (IsAcceptHeader (d.evp_encode_block digest)) (first_line (lines_of head)).1

IsUpgrade-check_head :
    (d : Digests) (key head : Text) → IsUpgrade d key head → check_head d key head ≡ ok tt
unfolding check_head sha1_base64
IsUpgrade-check_head d key head up =
    let more = (first_line (lines_of head)).1 in
    let expected = d.evp_encode_block up.digest in
    rw
      (
        status_fits_complete (first_line (lines_of head)).0 up.status,
        up.hashed,
        sha1_base64,
        scan_headers-any_header expected more false false,
        Has-any_header is_upgrade IsUpgradeHeader is_upgrade_iff more false up.upgrade,
        Has-any_header (is_accept expected) (IsAcceptHeader expected) (is_accept_iff expected) more
            false up.accept,
        check_head,
      )
      refl

-- `connect` hands a connection over for every stream that begins with a head which accepts the upgrade and
-- ends within 16384 bytes, however the bytes are split over reads, and loses nothing of what follows.
pub open_handshake_accepts :
    (d : Digests) (url : WsUrl) (protocol : Text) (nonce : Bytes) (fills : List Fill) (i : ℕ)
    → find_head_end (gathered fills) ≡ some i
    → i + 4 ≤ max_head
    → IsUpgrade d (d.evp_encode_block nonce) (take i (gathered fills))
    → (left : Bytes) × (rest : Bytes) × (open_handshake d url protocol
          (some nonce)
          all_written
          fills
        ≡ opened (opening_request url (d.evp_encode_block nonce) protocol) left)
      × (drop (i + 4) (gathered fills) ≡ left ++ rest)
unfolding open_handshake
open_handshake_accepts d url protocol nonce fills i h small up =
    let (left, rest, read, split) = read_head-finds fills [] i h small in
    (
      left,
      rest,
      rw
          (
            read,
            IsUpgrade-check_head d (d.evp_encode_block nonce) (take i (gathered fills)) up,
            open_handshake,
          )
          refl,
      split,
    )
