-- ===== src/Framing/Fragment.antt =====
-- src/framing.cpp: the 10-byte header in front of a fragment.
use vynkor_sdk_cpp.Base.{
  ℕ, ◌<◌, ◌≡◌, refl, arith, Option, none, some, ◌++◌, length, ltb, replicate, drop, if◌then◌else◌,
}
use vynkor_sdk_cpp.Mac.{Bytes}
use vynkor_sdk_cpp.Framing.Header.{be16, be32, read_be16, read_be32, memcpy}

abbrev pub frag_header_size : ℕ
frag_header_size = 10

pub record FragmentHeader : Type 0 where
  pub fragment_id : ℕ
  pub sequence : ℕ
  pub total : ℕ
  pub stream_id : ℕ

unfoldable pub pack_frag_header : ℕ → ℕ → ℕ → ℕ → Bytes
pack_frag_header fragment_id sequence total stream_id =
    let out0 = replicate frag_header_size 0 in
    let out1 = memcpy out0 0 (be16 fragment_id) in
    let out2 = memcpy out1 2 (be16 sequence) in
    let out3 = memcpy out2 4 (be16 total) in memcpy out3 6 (be32 stream_id)

unfoldable pub parse_frag_header : Bytes → Option FragmentHeader
parse_frag_header payload =
    if ltb (length payload) frag_header_size
    then none
    else some (record {
      fragment_id = read_be16 payload 0;
      sequence = read_be16 payload 2;
      total = read_be16 payload 4;
      stream_id = read_be32 payload 6;
    })

pub length-pack_frag_header :
    (fragment_id sequence total stream_id : ℕ)
    → length (pack_frag_header fragment_id sequence total stream_id) ≡ frag_header_size
unfolding pack_frag_header
length-pack_frag_header fragment_id sequence total stream_id = refl

pub drop-pack_frag_header :
    (fragment_id sequence total stream_id : ℕ) (chunk : Bytes)
    → drop frag_header_size (pack_frag_header fragment_id sequence total stream_id ++ chunk) ≡ chunk
unfolding pack_frag_header
drop-pack_frag_header fragment_id sequence total stream_id chunk = refl

-- The parser reads back every header whose fields fit their widths (16, 16, 16 and 32 bits), whatever
-- fragment data follow it.
pub parse_frag_header-pack_frag_header :
    (fragment_id sequence total stream_id : ℕ) (chunk : Bytes)
    → fragment_id < 0x10000
    → sequence < 0x10000
    → total < 0x10000
    → stream_id < 0x100000000
    → parse_frag_header (pack_frag_header fragment_id sequence total stream_id ++ chunk)
      ≡ some (record {
        fragment_id = fragment_id;
        sequence = sequence;
        total = total;
        stream_id = stream_id;
      })
unfolding pack_frag_header parse_frag_header
parse_frag_header-pack_frag_header fragment_id sequence total stream_id chunk f s t i = ground arith
