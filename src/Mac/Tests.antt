-- ===== src/Mac/Tests.antt =====
-- A small instance of the OpenSSL interface, and runs of src/mac.cpp with it.
use vynkor_sdk_cpp.Base.{
  ℕ, zero, suc, inl, inr, ap, sym, ◌∙◌, subst, ◌+◌, ◌%◌, ◌<◌, ◌≡◌, refl, arith, true, Option, some,
  [], ◌∷◌, All, length, replicate, length-replicate, ◌==◌, if◌then◌else◌, text_eq, text_eq_iff, ◌↔◌,
  Bool-cases,
}
use vynkor_sdk_cpp.Mac.{Bytes, IsByte, OpenSsl, IsOpenSsl, concat}

abbrev sum : Bytes → ℕ
sum [] = 0
sum (b ∷ bs) = b + sum bs

-- A checksum in the place of the MAC.
abbrev checksum : Bytes → Bytes → Option Bytes
checksum key bytes = some (replicate 32 ((sum key + sum bytes) % 256))

abbrev pub toy_ssl : OpenSsl
toy_ssl = record {
  hmac = checksum;
  hmac_ctx_new = true;
  hmac_ctx = λ key chunks. checksum key (concat chunks);
  crypto_memcmp = λ a b. if text_eq a b then 0 else 1;
}

All-replicate : (n b : ℕ) → b < 256 → All IsByte (replicate n b)
All-replicate zero b h = tt
All-replicate (suc n) b h = (h, All-replicate n b h)

checksum_lem : (k d t : Bytes) → checksum k d ≡ some t → (length t ≡ 32) × All IsByte t
checksum_lem k d t e =
    let c = (sum k + sum d) % 256 in
    let same : replicate 32 c ≡ t = cc e in
    (
      ap length (sym same) ∙ length-replicate 32 c,
      subst (All IsByte) same (All-replicate 32 c (omega arith)),
    )

memcmp_lem : (a b : Bytes) → (((if text_eq a b then 0 else 1) == 0) ≡ true) ↔ (a ≡ b)
memcmp_lem a b = elim (Bool-cases (text_eq a b)) [
  | inl e ↦ rw e (λ h. (text_eq_iff a b).0 e, λ h. refl)
  | inr f ↦ rw f (λ h. cc h, λ h. cc (f, (text_eq_iff a b).1 h))
]

pub toy_ssl-IsOpenSsl : IsOpenSsl toy_ssl
toy_ssl-IsOpenSsl = record {
  hmac_length = λ k d t e. checksum_lem k d t e;
  hmac_updates = λ k cs. refl;
  memcmp_iff = λ a b sized. memcmp_lem a b;
}
