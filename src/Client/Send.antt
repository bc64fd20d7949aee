-- ===== src/Client/Send.antt =====
-- src/client.cpp: the frames that the client hands to its transport. `write_all` and `send_binary` are
-- modelled in Client/Write and Ws; what they give for a frame is an argument here.
pub mod Chunks
pub mod Fragments
pub mod Tests
use vynkor_sdk_cpp.Base.{
  ℕ, zero, suc, ◌+◌, ◌-◌, ◌*◌, ◌/◌, ◌%◌, ◌^◌, bit_or, Bool, true, false, ◌||◌, Option, none, some,
  List, [], ◌∷◌, ◌++◌, length, take, drop, min, ltb, leb, ◌==◌, if◌then◌else◌,
}
use vynkor_sdk_cpp.Base.Text.{Text, lit, to_string}
use vynkor_sdk_cpp.Error.{Result, ok, throws, internal, payload_too_large, ◌>>=◌, ◌>>◌, throw_if}
use vynkor_sdk_cpp.Mac.{Bytes, OpenSsl, flag_mac_present}
use vynkor_sdk_cpp.Protocol.{Envelope}
use vynkor_sdk_cpp.Framing.Header.{max_payload_size, flag_fragmented, flag_raw_binary}
use vynkor_sdk_cpp.Framing.Zstd.{Zstd}
use vynkor_sdk_cpp.Framing.Pack.{pack_frame_raw, pack_frame_ws}
use vynkor_sdk_cpp.Framing.Fragment.{pack_frag_header, frag_header_size}
use vynkor_sdk_cpp.Client.State.{VynkorClient}

-- `base_flags`
abbrev pub key_flag : Option Bytes → ℕ
key_flag none = 0
key_flag (some key) = flag_mac_present

-- What the loop of `send_fragmented` sends as the fragment `seq`.
unfoldable pub chunk_at : ℕ → Bytes → ℕ → Bytes
chunk_at chunk_size payload seq =
    let start = seq * chunk_size in
    take (min chunk_size (length payload - start)) (drop start payload)

abbrev pub fragment_payload : ℕ → Bytes → ℕ → ℕ → ℕ → Bytes
fragment_payload chunk_size payload total stream_id seq =
    pack_frag_header (stream_id % 0x10000) seq total stream_id ++ chunk_at chunk_size payload seq

-- The arithmetic of `size_t` wraps around.
unfoldable pub fragment_count : Bytes → ℕ → ℕ
fragment_count [] chunk_size = 1
fragment_count (b ∷ bs) chunk_size = (length (b ∷ bs) + chunk_size - 1) % 2 ^ 64 / chunk_size

-- `next_stream_id_` skips zero when it wraps around.
unfoldable pub following_id : ℕ → ℕ
following_id id = let next = (id + 1) % 0x100000000 in if next == 0 then 1 else next

-- The checks in front of the loop, and the number of fragments.
unfoldable pub fragment_total : VynkorClient → Bytes → ℕ → Result ℕ
fragment_total c payload chunk_size = do
  throw_if c.ws (internal (lit "fragmented frames are not supported over WebSocket (R5-03)"))
  throw_if (ltb max_payload_size (length payload)) (payload_too_large (length payload))
  throw_if ((chunk_size == 0) || ltb max_payload_size ((chunk_size + frag_header_size) % 2 ^ 64))
      (internal (lit "invalid fragment chunk_size: " ++ to_string chunk_size))
  let total = fragment_count payload chunk_size
  throw_if (ltb 0xffff total)
      (internal (lit "payload needs " ++ (to_string total ++ lit " fragments; max is 65535")))
  ok total

module _ (o : OpenSsl) (z : Zstd) where
  -- The bytes of the frame.
  unfoldable pub send_raw_with_flags : VynkorClient → Text → ℕ → Bytes → Result Bytes
  send_raw_with_flags c target extra_flags payload =
      let flags = bit_or (key_flag c.session_key) extra_flags in
      if c.ws
      then if ltb max_payload_size (length payload)
        then throws (payload_too_large (length payload))
        else pack_frame_ws o target flags payload c.session_key
      else pack_frame_raw o z target flags payload c.session_key

  unfoldable pub send_raw : VynkorClient → Text → Bytes → Result Bytes
  send_raw c target payload = send_raw_with_flags c target 0 payload

  -- `serialize` is SerializeToString.
  unfoldable pub send : (Envelope → Bytes) → VynkorClient → Text → Envelope → Result Bytes
  send serialize c target env = send_raw c target (serialize env)

  unfoldable pub send_raw_audio : VynkorClient → Text → Bytes → Result Bytes
  send_raw_audio c target bytes = send_raw_with_flags c target flag_raw_binary bytes

  -- The frames of `n` fragments from `seq` on, and how the loop ends; `written` is what the transport gives
  -- for the frame of a fragment.
  unfoldable pub send_fragments :
      (ℕ → Result (Unit {0}))
      → VynkorClient
      → Text
      → (ℕ → Bytes)
      → ℕ
      → ℕ
      → List Bytes × Result (Unit {0})
  send_fragments written c target payload_of zero seq = ([], ok tt)
  send_fragments written c target payload_of (suc n) seq =
      let rest = send_fragments written c target payload_of n (seq + 1) in
      elim (send_raw_with_flags c target flag_fragmented (payload_of seq) >>= λ frame.
      written seq >>= λ done. ok frame) [
        | throws e ↦ ([], throws e)
        | ok frame ↦ (frame ∷ rest.0, rest.1)
      ]

  unfoldable pub send_fragmented :
      (ℕ → Result (Unit {0}))
      → VynkorClient
      → Text
      → Bytes
      → ℕ
      → VynkorClient × List Bytes × Result (Unit {0})
  send_fragmented written c target payload chunk_size = elim (fragment_total c payload chunk_size) [
    | throws e ↦ (c, [], throws e)
    | ok total ↦
        let stream_id = c.next_stream_id in
        let out =
          send_fragments written c target (fragment_payload chunk_size payload total stream_id)
            total 0 in
        (record c { next_stream_id = following_id stream_id }, out.0, out.1)
  ]
