-- ===== src/Mac.antt =====
-- src/mac.cpp and include/vynkor/mac.hpp: the session key and the tag of a frame. OpenSSL's HMAC and
-- CRYPTO_memcmp are parameters.
pub mod Laws
pub mod Tests
use vynkor_sdk_cpp.Base.{
  ℕ, ◌+◌, ◌≤◌, ◌<◌, ◌≡◌, Bool, true, false, not, Option, none, some, List, [], ◌∷◌, ◌++◌, All,
  length, take, drop, replicate, ltb, ◌==◌, if◌then◌else◌, ◌↔◌,
}
use vynkor_sdk_cpp.Base.Text.{Text, lit}
use vynkor_sdk_cpp.Error.{Result, ok, throws, internal, ◌>>=◌, ◌>>◌, throw_if}

abbrev pub Bytes : Type 0
Bytes = List ℕ

abbrev pub IsByte : ℕ → Type 0
IsByte b = b < 256

abbrev pub flag_mac_present : ℕ
flag_mac_present = 0x0001

abbrev pub mac_tag_len : ℕ
mac_tag_len = 32

-- `hmac` is HMAC(EVP_sha256(), key, data); `hmac_ctx` is the incremental interface, with one
-- HMAC_Update for each chunk; `none` is a failed call. `hmac_ctx_new` says that HMAC_CTX_new
-- returns a context, and `crypto_memcmp` compares two buffers.
pub record OpenSsl : Type 0 where
  pub hmac : Bytes → Bytes → Option Bytes
  pub hmac_ctx_new : Bool
  pub hmac_ctx : Bytes → List Bytes → Option Bytes
  pub crypto_memcmp : Bytes → Bytes → ℕ

abbrev pub concat : List Bytes → Bytes
concat [] = []
concat (c ∷ cs) = c ++ concat cs

-- What OpenSSL documents: a tag has 32 bytes, updates are concatenated, and CRYPTO_memcmp answers
-- zero exactly on equal buffers.
pub record IsOpenSsl (o : OpenSsl) : Type 0 where
  pub hmac_length : (k d t : Bytes) → o.hmac k d ≡ some t → (length t ≡ 32) × All IsByte t
  pub hmac_updates : (k : Bytes) (cs : List Bytes) → o.hmac_ctx k cs ≡ o.hmac k (concat cs)
  pub memcmp_iff :
      (a b : Bytes) → length a ≡ length b → ((o.crypto_memcmp a b == 0) ≡ true) ↔ (a ≡ b)

module _ (o : OpenSsl) where
  unfoldable pub hmac_sha256 : Bytes → Bytes → Result Bytes
  hmac_sha256 key bytes = elim (o.hmac key bytes) [
    | none ↦ throws (internal (lit "mac: HMAC failed"))
    | some t ↦ ok t
  ]

  unfoldable pub hkdf_extract : Bytes → Bytes → Result Bytes
  hkdf_extract salt ikm = hmac_sha256 salt ikm

  -- `out` starts as 32 zero bytes.
  unfoldable pub hkdf_expand : Bytes → Bytes → ℕ → Result Bytes
  hkdf_expand prk info len = do
    throw_if (ltb 32 len) (internal (lit "mac: hkdf_expand length > 32 unsupported"))
    t1 ← hmac_sha256 prk (info ++ (0x01 ∷ []))
    ok (take len t1 ++ drop len (replicate 32 0))

  unfoldable pub derive_session_key : Bytes → Bytes → Text → Result Bytes
  derive_session_key secret nonce plugin_id = do
    prk ← hkdf_extract nonce secret
    hkdf_expand prk (lit "vynkor-frame-mac-v1|" ++ plugin_id) 32

  unfoldable pub compute_tag : Bytes → Bytes → Bytes → Result Bytes
  compute_tag key header payload =
      if o.hmac_ctx_new
      then elim (o.hmac_ctx key (header ∷ payload ∷ [])) [
        | none ↦ throws (internal (lit "mac: HMAC computation failed"))
        | some t ↦ ok t
      ]
      else throws (internal (lit "mac: HMAC_CTX_new failed"))

  unfoldable pub verify_tag : Bytes → Bytes → Bytes → Bytes → Result Bool
  unfolding compute_tag
  verify_tag key header payload tag =
      if not (length tag == 32)
      then ok false
      else do expected ← compute_tag key header payload; ok (o.crypto_memcmp expected tag == 0)
