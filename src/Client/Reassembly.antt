-- ===== src/Client/Reassembly.antt =====
-- src/client.cpp, `absorb_fragment`, with `ReassemblyBuf` of include/vynkor/client.hpp: fragments are
-- collected by stream until the set is complete. Times of the steady clock are nanoseconds.
pub mod Bounds
pub mod Maps
pub mod Tests
use vynkor_sdk_cpp.Base.{
  ℕ, zero, suc, ◌+◌, ◌-◌, ◌*◌, bit_and, Bool, true, false, not, ◌||◌, Option, none, some, List, [],
  ◌∷◌, ◌++◌, length, drop, replicate, ltb, leb, ◌==◌, if◌then◌else◌,
}
use vynkor_sdk_cpp.Base.Text.{lit, to_string}
use vynkor_sdk_cpp.Error.{Result, ok, throws, internal, payload_too_large, out_of_range, ◌>>=◌}
use vynkor_sdk_cpp.Mac.{Bytes}
use vynkor_sdk_cpp.Framing.Header.{max_payload_size}
use vynkor_sdk_cpp.Framing.Fragment.{FragmentHeader, frag_header_size, parse_frag_header}
use vynkor_sdk_cpp.Framing.Parse.{FrameResult}

abbrev pub Fragments : Type 0
Fragments = List (ℕ × Bytes)

pub record ReassemblyBuf : Type 0 where
  pub fragments : Fragments
  pub total : ℕ
  pub flags : ℕ
  pub first_seen : ℕ
  pub buffered_bytes : ℕ

abbrev pub Streams : Type 0
Streams = List (ℕ × ReassemblyBuf)

abbrev pub max_reassembly_streams : ℕ
max_reassembly_streams = 64

abbrev pub reassembly_timeout : ℕ
reassembly_timeout = 30 * 1000000000

module _ {ℓ} {A : Type ℓ} where
  unfoldable pub find : ℕ → List (ℕ × A) → Option A
  find k [] = none
  find k ((j, x) ∷ m) = if j == k then some x else find k m

  unfoldable pub erase : ℕ → List (ℕ × A) → List (ℕ × A)
  erase k [] = []
  erase k ((j, x) ∷ m) = if j == k then m else (j, x) ∷ erase k m

  -- `m[k] = x`
  unfoldable pub assign : ℕ → A → List (ℕ × A) → List (ℕ × A)
  assign k y [] = (k, y) ∷ []
  assign k y ((j, x) ∷ m) = if j == k then (j, y) ∷ m else (j, x) ∷ assign k y m

-- The fragments from `seq` on, `n` of them; `at` throws where one is missing.
unfoldable pub gather : Fragments → ℕ → ℕ → Result Bytes
gather fragments zero seq = ok []
gather fragments (suc n) seq =
    let rest = gather fragments n (seq + 1) in
    elim (find seq fragments) [
      | none ↦ throws out_of_range
      | some chunk ↦ rest >>= λ out. ok (chunk ++ out)
    ]

abbrev pub reassemble : ReassemblyBuf → Result Bytes
reassemble buf = gather buf.fragments buf.total 0

unfoldable pub prune_stale : ℕ → Streams → Streams
prune_stale now [] = []
prune_stale now ((id, buf) ∷ m) =
    let rest = prune_stale now m in
    if leb reassembly_timeout (now - buf.first_seen) then rest else (id, buf) ∷ rest

abbrev pub new_buf : ℕ → FragmentHeader → ℕ → ReassemblyBuf
new_buf now hdr flags = record {
  fragments = [];
  total = hdr.total;
  flags = bit_and flags 0xfffa;
  first_seen = now;
  buffered_bytes = 0;
}

-- The stream's buffer, found or emplaced.
unfoldable pub open_stream : ℕ → Streams → FragmentHeader → ℕ → Streams × Result ReassemblyBuf
open_stream now m hdr flags = elim (find hdr.stream_id m) [
  | some buf ↦
      if buf.total == hdr.total
      then (m, ok buf)
      else (erase hdr.stream_id m, throws (internal (lit "fragment total mismatch within stream")))
  | none ↦
      if leb max_reassembly_streams (length m)
      then (m, throws (internal (lit "too many concurrent fragment streams")))
      else (assign hdr.stream_id (new_buf now hdr flags) m, ok (new_buf now hdr flags))
]

abbrev pub replaced_len : ℕ → Fragments → ℕ
replaced_len sequence fragments = elim (find sequence fragments) [
  | none ↦ 0
  | some chunk ↦ length chunk
]

-- The buffer with the chunk in its place.
abbrev pub with_chunk : ReassemblyBuf → ℕ → Bytes → ℕ → ReassemblyBuf
with_chunk buf sequence chunk new_total = record buf {
  fragments = assign sequence chunk buf.fragments;
  buffered_bytes = new_total;
}

abbrev pub is_complete : ReassemblyBuf → Bool
is_complete buf = length buf.fragments == buf.total

abbrev pub whole_frame : ℕ → Bytes → FrameResult
whole_frame flags payload = record {
  payload = payload;
  flags = flags;
  has_mac = false;
  mac = replicate 32 0;
  raw_header = replicate 44 0;
}

-- What is done once the set may be complete.
unfoldable pub finish : Streams → ℕ → ReassemblyBuf → Streams × Result (Option FrameResult)
finish m stream_id buf =
    if is_complete buf
    then elim (reassemble buf) [
      | throws e ↦ (assign stream_id buf m, throws e)
      | ok payload ↦ (erase stream_id m, ok (some (whole_frame buf.flags payload)))
    ]
    else (assign stream_id buf m, ok none)

unfoldable pub store_chunk :
    Streams → FragmentHeader → ReassemblyBuf → Bytes → Streams × Result (Option FrameResult)
store_chunk m hdr buf chunk =
    let new_total = buf.buffered_bytes - replaced_len hdr.sequence buf.fragments + length chunk in
    if ltb max_payload_size new_total
    then (erase hdr.stream_id m, throws (payload_too_large (max_payload_size + 1)))
    else finish m hdr.stream_id (with_chunk buf hdr.sequence chunk new_total)

-- `now` is the reading at the pruning, `seen` the one at the creation of a buffer.
unfoldable pub absorb_fragment :
    ℕ → ℕ → Streams → FrameResult → Streams × Result (Option FrameResult)
absorb_fragment now seen streams frame =
    let m = prune_stale now streams in
    elim (parse_frag_header frame.payload) [
      | none ↦ (m, throws (internal (lit "fragment header too short")))
      | some hdr ↦
          if (hdr.total == 0) || leb hdr.total hdr.sequence
          then (
            m,
            throws (
                internal (
                  lit "invalid fragment header: seq "
                  ++ (to_string hdr.sequence ++ (lit " / total " ++ to_string hdr.total)))),
          )
          else let (opened, found) = open_stream seen m hdr frame.flags in
            elim found [
              | throws e ↦ (opened, throws e)
              | ok buf ↦ store_chunk opened hdr buf (drop frag_header_size frame.payload)
            ]
    ]
