-- ===== src/Mac/Laws.antt =====
-- The tag of a frame and the session key.
use vynkor_sdk_cpp.Base.{
  ◌≡◌, refl, ap, sym, ◌∙◌, arith, some, [], ◌∷◌, ◌++◌, length, take, drop, replicate, true,
  Bool-cases, Option-cases, inl, inr, ◌==◌, ==_iff, ◌↔◌, take_all, append-nil,
}
use vynkor_sdk_cpp.Base.Text.{Text, lit}
use vynkor_sdk_cpp.Error.{ok, ◌>>=◌, >>=-eq-ok}
use vynkor_sdk_cpp.Mac.{
  Bytes, OpenSsl, IsOpenSsl, concat, compute_tag, verify_tag, hmac_sha256, hkdf_extract,
  hkdf_expand, derive_session_key,
}

module _ (o : OpenSsl) (lawful : IsOpenSsl o) where
  compute_tag_lem :
      (k header payload tag : Bytes)
      → compute_tag o k header payload ≡ ok tag
      → o.hmac_ctx k (header ∷ payload ∷ []) ≡ some tag
  unfolding compute_tag
  compute_tag_lem k header payload tag h = ground arith

  pub length-compute_tag :
      (k header payload tag : Bytes) → compute_tag o k header payload ≡ ok tag → length tag ≡ 32
  length-compute_tag k header payload tag h =
      (lawful.hmac_length k (concat (header ∷ payload ∷ [])) tag (
        sym (lawful.hmac_updates k (header ∷ payload ∷ []))
        ∙ compute_tag_lem k header payload tag h)).0

  pub verify-compute_tag :
      (k header payload tag : Bytes)
      → compute_tag o k header payload ≡ ok tag
      → verify_tag o k header payload tag ≡ ok true
  unfolding verify_tag
  verify-compute_tag k header payload tag h =
      rw (length-compute_tag k header payload tag h, h, (lawful.memcmp_iff tag tag refl).1 refl)

  verify_tag-compute_tag :
      (k header payload tag : Bytes)
      → verify_tag o k header payload tag ≡ ok true
      → compute_tag o k header payload ≡ ok tag
  unfolding verify_tag
  verify_tag-compute_tag k header payload tag h = elim (Bool-cases (length tag == 32)) [
    | inr short ↦ cc (rw short at h)
    | inl sized ↦
        let (expected, e, m) = >>=-eq-ok (compute_tag o k header payload) _ (rw sized at h) in
        e
        ∙ ap ok (
            (lawful.memcmp_iff expected tag
                (length-compute_tag k header payload expected e ∙ sym ((==_iff _ _).0 sized))).0
              (cc m))
  ]

-- A tag is accepted exactly if it is the tag that the sender computes for that key, header and payload.
pub verify_tag_iff :
    (o : OpenSsl) (k header payload tag : Bytes)
    → IsOpenSsl o
    → (verify_tag o k header payload tag ≡ ok true) ↔ (compute_tag o k header payload ≡ ok tag)
verify_tag_iff o k header payload tag lawful = (
  verify_tag-compute_tag o lawful k header payload tag,
  verify-compute_tag o lawful k header payload tag,
)

-- All 32 bytes of a MAC are the block.
full_block :
    (o : OpenSsl) (k d : Bytes)
    → IsOpenSsl o
    → (hmac_sha256 o k d >>= λ t. ok (take 32 t ++ drop 32 (replicate 32 0))) ≡ hmac_sha256 o k d
unfolding hmac_sha256
full_block o k d lawful = elim (Option-cases (o.hmac k d)) [
  | inl e ↦ rw (e, hmac_sha256)
  | inr (t, e) ↦
      let sized = (lawful.hmac_length k d t e).0 in
      rw (e, hmac_sha256) (ap ok (append-nil (take 32 t) ∙ take_all 32 t (omega arith)))
]

-- The session key is one block of HKDF-SHA256 (RFC 5869): the MAC, under the MAC of the secret with
-- the nonce as key, of the plugin's info string and the byte 1; it fails exactly if one MAC does.
pub derive_session_key_lem :
    (o : OpenSsl) (secret nonce : Bytes) (plugin_id : Text)
    → IsOpenSsl o
    → derive_session_key o secret nonce plugin_id ≡ (
        hmac_sha256 o nonce secret >>= λ prk.
        hmac_sha256 o prk ((lit "vynkor-frame-mac-v1|" ++ plugin_id) ++ (0x01 ∷ [])))
unfolding derive_session_key hkdf_extract hkdf_expand
derive_session_key_lem o secret nonce plugin_id lawful =
    simp (λ (k d : Bytes). full_block o k d lawful)
