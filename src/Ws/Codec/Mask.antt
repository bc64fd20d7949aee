-- ===== src/Ws/Codec/Mask.antt =====
-- Masking: applied twice it gives the payload back, and it keeps the length.
use vynkor_sdk_cpp.Base.{ℕ, suc, ◌+◌, ◌%◌, ◌≡◌, refl, ap, ◌∙◌, bit_xor, [], ◌∷◌, length, get_or}
use vynkor_sdk_cpp.Base.Bits.Xor.{bit_xor_assoc, bit_xor_self, bit_xor-zero}
use vynkor_sdk_cpp.Mac.{Bytes}
use vynkor_sdk_cpp.Ws.Codec.{mask_from}

pub mask_from-mask_from :
    (mask : Bytes) (i : ℕ) (payload : Bytes) → mask_from mask i (mask_from mask i payload) ≡ payload
unfolding mask_from
mask_from-mask_from mask i [] = refl
mask_from-mask_from mask i (b ∷ bs) =
    let m = get_or mask (i % 4) 0 in
    let back : bit_xor (bit_xor b m) m ≡ b =
      bit_xor_assoc b m m ∙ (ap (bit_xor b) (bit_xor_self m) ∙ bit_xor-zero b) in
    rw back (ap (λ t. b ∷ t) (mask_from-mask_from mask (i + 1) bs))

pub length-mask_from :
    (mask : Bytes) (i : ℕ) (payload : Bytes) → length (mask_from mask i payload) ≡ length payload
unfolding mask_from
length-mask_from mask i [] = refl
length-mask_from mask i (b ∷ bs) = ap suc (length-mask_from mask (i + 1) bs)
