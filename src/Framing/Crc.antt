-- ===== src/Framing/Crc.antt =====
-- src/framing.cpp: CRC-32/ISO-HDLC by a table of 256 entries.
pub mod Reference
use vynkor_sdk_cpp.Base.{
  ℕ, zero, suc, ◌+◌, ◌/◌, bit_and, bit_xor, List, [], ◌∷◌, get_or, ◌==◌, if◌then◌else◌,
}

-- One round of the inner loop over `j`.
pub crc_bit : ℕ → ℕ
crc_bit c = if bit_and c 1 == 0 then c / 2 else bit_xor 0xedb88320 (c / 2)

pub crc_rounds : ℕ → ℕ → ℕ
crc_rounds zero c = c
crc_rounds (suc n) c = crc_rounds n (crc_bit c)

-- The entries from `i` on, `n` of them.
pub table_from : ℕ → ℕ → List ℕ
table_from zero i = []
table_from (suc n) i = crc_rounds 8 i ∷ table_from n (i + 1)

pub build_crc32_table : List ℕ
build_crc32_table = table_from 256 0

pub crc32_loop : List ℕ → ℕ → ℕ
crc32_loop [] crc = crc
crc32_loop (b ∷ bs) crc =
    crc32_loop bs (bit_xor (get_or build_crc32_table (bit_and (bit_xor crc b) 0xff) 0) (crc / 256))

unfoldable pub vynkor_crc32 : List ℕ → ℕ
unfolding crc32_loop build_crc32_table table_from crc_rounds crc_bit
vynkor_crc32 bytes = bit_xor (crc32_loop bytes 0xffffffff) 0xffffffff
