-- ===== src/Client/Send/Tests.antt =====
-- A payload in two fragments, from one client to another.
use vynkor_sdk_cpp.Base.{◌≡◌, refl, arith, none, List, [], ◌∷◌, ◌++◌}
use vynkor_sdk_cpp.Base.Text.{lit}
use vynkor_sdk_cpp.Error.{ok}
use vynkor_sdk_cpp.Mac.{Bytes}
use vynkor_sdk_cpp.Mac.Tests.{toy_ssl, toy_ssl-IsOpenSsl}
use vynkor_sdk_cpp.Framing.Tests.{toy_zstd, toy_zstd-IsZstd}
use vynkor_sdk_cpp.Framing.Pack.{pack_frame_raw, wire_form, is_candidate, tag_of}
use vynkor_sdk_cpp.Client.State.{VynkorClient, adopt_fd}
use vynkor_sdk_cpp.Framing.Fragment.{pack_frag_header}
use vynkor_sdk_cpp.Client.Reassembly.{find, whole_frame}
use vynkor_sdk_cpp.Client.Receive.Fragments.{Delivers}
use vynkor_sdk_cpp.Client.Send.{
  chunk_at, fragment_count, following_id, send_raw_with_flags, send_fragments, fragment_total,
  send_fragmented,
}
use vynkor_sdk_cpp.Client.Send.Fragments.{arrivals, send_fragmented-recv_frame}

abbrev client : VynkorClient
client = adopt_fd 3 []

abbrev frames : List Bytes
frames = (send_fragmented toy_ssl toy_zstd (λ k. ok tt) client (lit "peer") (7 ∷ 8 ∷ 9 ∷ []) 2).1

send_fragmented-recv_frame_example :
    Delivers
      (whole_frame 0 (7 ∷ 8 ∷ 9 ∷ []))
      []
      (arrivals toy_ssl toy_zstd none ((5, 5) ∷ (6, 6) ∷ []) frames ++ [])
      []
unfolding send_fragmented fragment_total fragment_count send_fragments send_raw_with_flags
    pack_frame_raw wire_form is_candidate tag_of pack_frag_header chunk_at find
send_fragmented-recv_frame_example =
    send_fragmented-recv_frame toy_ssl toy_zstd toy_ssl-IsOpenSsl toy_zstd-IsZstd (λ k. ok tt)
      client (lit "peer") (7 ∷ 8 ∷ 9 ∷ []) 2 frames [] 5 5 ((6, 6) ∷ []) []
      (omega arith, (omega arith, (omega arith, tt))) (omega arith) (omega arith) refl refl refl
      (omega arith) refl (omega arith, tt)

-- A chunk size of SIZE_MAX passes the check, and nothing is sent.
nothing_sent :
    send_fragmented toy_ssl toy_zstd
      (λ k. ok tt)
      client
      (lit "peer")
      (7 ∷ 8 ∷ 9 ∷ [])
      0xffffffffffffffff
    ≡ (record client { next_stream_id = 2 }, [], ok tt)
unfolding send_fragmented fragment_total fragment_count send_fragments following_id
nothing_sent = refl
