-- ===== src/Framing/Crc/Reference.antt =====
-- The table-driven CRC computes the shift register of the standard, one message bit at a time.
use vynkor_sdk_cpp.Base.{
  ℕ, zero, suc, ◌+◌, ◌*◌, ◌/◌, ◌%◌, ◌^◌, ◌<◌, bit_and, bit_xor, ◌≡◌, refl, sym, ap, ◌∙◌, arith,
  List, [], ◌∷◌, All, get_or, ◌==◌, if◌then◌else◌,
}
use native.Mathlib.Nat.{pow-suc, div-div-eq-div-mul}
use vynkor_sdk_cpp.Base.Bits.Flags.{bit_and-1, bit_and-255}
use vynkor_sdk_cpp.Base.Bits.Xor.{
  bit_xor-half, bit_xor-parity, bit_xor-zero, bit_xor_assoc, bit_xor_comm, bit_xor-lt,
  bit_xor_fields,
}
use vynkor_sdk_cpp.Framing.Crc.{
  crc_bit, crc_rounds, table_from, build_crc32_table, crc32_loop, vynkor_crc32,
}

-- The register of CRC-32/ISO-HDLC (reflected, polynomial 0xEDB88320) takes one message bit.
pub feed_bit : ℕ → ℕ → ℕ
feed_bit c m = if (c + m) % 2 == 0 then c / 2 else bit_xor (c / 2) 0xedb88320

-- The `n` lowest bits of `b`, least significant first.
pub feed_bits : ℕ → ℕ → ℕ → ℕ
feed_bits zero c b = c
feed_bits (suc n) c b = feed_bits n (feed_bit c (b % 2)) (b / 2)

pub feed : List ℕ → ℕ → ℕ
feed [] c = c
feed (b ∷ bs) c = feed bs (feed_bits 8 c b)

-- Initial value and final complement as in the catalogue.
pub crc32_reference : List ℕ → ℕ
crc32_reference bytes = bit_xor (feed bytes 0xffffffff) 0xffffffff

crc_bit-feed_bit : (c b : ℕ) → crc_bit (bit_xor c b) ≡ bit_xor (feed_bit c (b % 2)) (b / 2)
unfolding crc_bit feed_bit
crc_bit-feed_bit c b = ground (
  arith,
  bit_and-1 (bit_xor c b),
  bit_xor-half c b,
  bit_xor-parity c b,
  bit_xor_assoc (c / 2) 0xedb88320 (b / 2),
  bit_xor_comm 0xedb88320 (b / 2),
  bit_xor_comm 0xedb88320 (bit_xor (c / 2) (b / 2)),
  bit_xor_assoc (c / 2) (b / 2) 0xedb88320,
)

crc_rounds-feed_bits : (n c b : ℕ) → b < 2 ^ n → crc_rounds n (bit_xor c b) ≡ feed_bits n c b
unfolding crc_rounds feed_bits
crc_rounds-feed_bits zero c zero h = bit_xor-zero c
crc_rounds-feed_bits zero c (suc b) h = absurd (omega arith)
crc_rounds-feed_bits (suc n) c b h =
    rw (crc_bit-feed_bit c b)
      (crc_rounds-feed_bits n (feed_bit c (b % 2)) (b / 2) (omega (arith, pow-suc 2 n)))

double-half : (h : ℕ) → 2 * h / 2 ≡ h
double-half h = omega arith

pow-suc_front : (k : ℕ) → 2 ^ suc k ≡ 2 * 2 ^ k
pow-suc_front k = omega (arith, pow-suc 2 k)

mul_two_pow-suc : (q k : ℕ) → q * 2 ^ suc k ≡ 2 * (q * 2 ^ k)
mul_two_pow-suc q k = omega (arith, ap (λ (t : ℕ). q * t) (pow-suc 2 k))

-- A round is linear in the bits above the lowest.
crc_bit-xor : (a h : ℕ) → crc_bit (bit_xor a (2 * h)) ≡ bit_xor (crc_bit a) h
unfolding crc_bit
crc_bit-xor a h = ground (
  arith,
  bit_and-1 a,
  bit_and-1 (bit_xor a (2 * h)),
  bit_xor-half a (2 * h),
  bit_xor-parity a (2 * h),
  ap (bit_xor (a / 2)) (double-half h),
  bit_xor_assoc 0xedb88320 (a / 2) h,
)

crc_rounds-xor : (n a h : ℕ) → crc_rounds n (bit_xor a (h * 2 ^ n)) ≡ bit_xor (crc_rounds n a) h
unfolding crc_rounds
crc_rounds-xor zero a h = ap (bit_xor a) (omega arith)
crc_rounds-xor (suc n) a h =
    rw (mul_two_pow-suc h n, crc_bit-xor a (h * 2 ^ n)) (crc_rounds-xor n (crc_bit a) h)

get_or-table_from : (n i k : ℕ) → k < n → get_or (table_from n i) k 0 ≡ crc_rounds 8 (i + k)
unfolding table_from
get_or-table_from zero i k h = absurd (omega arith)
get_or-table_from (suc n) i zero h = ap (crc_rounds 8) (omega arith)
get_or-table_from (suc n) i (suc k) h =
    get_or-table_from n (i + 1) k (omega arith) ∙ ap (crc_rounds 8) {x = i + 1 + k} (omega arith)

bit_xor_high : (k a b : ℕ) → b < 2 ^ k → bit_xor a b / 2 ^ k ≡ a / 2 ^ k
bit_xor_high zero a zero h = rw (bit_xor-zero a)
bit_xor_high zero a (suc b) h = absurd (omega arith)
bit_xor_high (suc k) a b h =
    ap (λ (t : ℕ). bit_xor a b / t) (pow-suc_front k)
    ∙ sym (div-div-eq-div-mul (bit_xor a b) 2 (2 ^ k))
    ∙ ap (λ (t : ℕ). t / 2 ^ k) (bit_xor-half a b)
    ∙ bit_xor_high k (a / 2) (b / 2) (omega (arith, pow-suc 2 k))
    ∙ div-div-eq-div-mul a 2 (2 ^ k)
    ∙ ap (λ (t : ℕ). a / t) (sym (pow-suc_front k))

-- One byte through the table is eight message bits through the register.
table_step :
    (crc b : ℕ)
    → b < 256
    → bit_xor (get_or build_crc32_table (bit_and (bit_xor crc b) 0xff) 0) (crc / 256)
      ≡ feed_bits 8 crc b
unfolding build_crc32_table
table_step crc b h =
    let x = bit_xor crc b in
    rw (bit_and-255 x, get_or-table_from 256 0 (x % 256) (omega arith))
      (ap (λ (t : ℕ). bit_xor (crc_rounds 8 t) (crc / 256)) (omega arith)
        ∙ ap (bit_xor (crc_rounds 8 (x % 256))) (sym (bit_xor_high 8 crc b h))
        ∙ sym (crc_rounds-xor 8 (x % 256) (x / 256))
        ∙ ap (crc_rounds 8) (bit_xor_fields 8 (x / 256) (x % 256) (omega arith) ∙ omega arith)
        ∙ crc_rounds-feed_bits 8 crc b h)

crc32_loop-feed :
    (bytes : List ℕ) (c : ℕ) → All (λ b. b < 256) bytes → crc32_loop bytes c ≡ feed bytes c
unfolding crc32_loop feed
crc32_loop-feed [] c h = refl
crc32_loop-feed (b ∷ bs) c (hb, hbs) = rw (table_step c b hb) (crc32_loop-feed bs _ hbs)

-- On every string of bytes the table-driven loop returns the CRC-32/ISO-HDLC of the bit-serial
-- shift register (reflected polynomial 0xEDB88320, initial value and final complement 0xFFFFFFFF).
pub vynkor_crc32-crc32_reference :
    (bytes : List ℕ) → All (λ b. b < 256) bytes → vynkor_crc32 bytes ≡ crc32_reference bytes
unfolding vynkor_crc32 crc32_reference
vynkor_crc32-crc32_reference bytes h = rw (crc32_loop-feed bytes 0xffffffff h)

feed_bit-lt : (c m : ℕ) → c < 2 ^ 32 → feed_bit c m < 2 ^ 32
unfolding feed_bit
feed_bit-lt c m h = ground (arith, bit_xor-lt 32 (c / 2) 0xedb88320)

feed_bits-lt : (n c b : ℕ) → c < 2 ^ 32 → feed_bits n c b < 2 ^ 32
unfolding feed_bits
feed_bits-lt zero c b h = h
feed_bits-lt (suc n) c b h = feed_bits-lt n _ _ (feed_bit-lt c (b % 2) h)

feed-lt : (bytes : List ℕ) (c : ℕ) → c < 2 ^ 32 → feed bytes c < 2 ^ 32
unfolding feed
feed-lt [] c h = h
feed-lt (b ∷ bs) c h = feed-lt bs _ (feed_bits-lt 8 c b h)

-- The CRC of a string of bytes fits its field of four bytes.
pub vynkor_crc32-lt : (bytes : List ℕ) → All (λ b. b < 256) bytes → vynkor_crc32 bytes < 2 ^ 32
vynkor_crc32-lt bytes h =
    rw (vynkor_crc32-crc32_reference bytes h)
      (unfold crc32_reference in bit_xor-lt 32 _ _ (feed-lt bytes _ (omega arith)) (omega arith))
