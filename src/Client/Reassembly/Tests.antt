-- ===== src/Client/Reassembly/Tests.antt =====
-- Runs of `absorb_fragment`: two fragments of one stream, in either order.
use vynkor_sdk_cpp.Base.{ℕ, false, ◌≡◌, refl, arith, some, [], ◌∷◌, ◌++◌, replicate}
use vynkor_sdk_cpp.Error.{ok}
use vynkor_sdk_cpp.Mac.{Bytes}
use vynkor_sdk_cpp.Framing.Fragment.{pack_frag_header, parse_frag_header}
use vynkor_sdk_cpp.Framing.Parse.{FrameResult}
use vynkor_sdk_cpp.Client.Reassembly.{
  Streams, find, erase, assign, gather, prune_stale, open_stream, finish, store_chunk, whole_frame,
  absorb_fragment,
}
use vynkor_sdk_cpp.Client.Reassembly.Bounds.{IsBounded, absorb_fragment-IsBounded}

-- A fragment of the stream 7, which has two.
abbrev fragment : ℕ → Bytes → FrameResult
fragment sequence chunk = record {
  payload = pack_frag_header 7 sequence 2 7 ++ chunk;
  flags = 0x15;
  has_mac = false;
  mac = replicate 32 0;
  raw_header = replicate 44 0;
}

abbrev after_last : Streams
after_last = (absorb_fragment 1 1 [] (fragment 1 (8 ∷ 9 ∷ []))).0

-- The last fragment arrives first; the first completes the set.
out_of_order :
    absorb_fragment 2 2 after_last (fragment 0 (6 ∷ []))
    ≡ ([], ok (some (whole_frame 0x10 (6 ∷ 8 ∷ 9 ∷ []))))
unfolding absorb_fragment parse_frag_header pack_frag_header prune_stale open_stream find erase
    assign store_chunk finish gather
out_of_order = refl

absorb_fragment-IsBounded_example : IsBounded (absorb_fragment 1 1 [] (fragment 1 (8 ∷ 9 ∷ []))).0
absorb_fragment-IsBounded_example =
    absorb_fragment-IsBounded 1 1 [] (fragment 1 (8 ∷ 9 ∷ [])) (omega arith, tt)
