-- ===== src/Framing/Read/Frames.antt =====
-- The frame readers on a socket: the frame that they return is the one at the front of the stream,
-- however it arrives.
use vynkor_sdk_cpp.Base.{
  ℕ, ◌+◌, ◌*◌, ◌≤◌, ◌≡◌, ap, sym, ◌∙◌, arith, Option, List, [], ◌∷◌, ◌++◌, length, length-append,
  append_assoc, append_cancel, get_or-append_left, ltb, le→ltb_false, Bool-cases, inl, inr,
}
use vynkor_sdk_cpp.Error.{Result, ok, throws}
use vynkor_sdk_cpp.Mac.{Bytes, OpenSsl}
use vynkor_sdk_cpp.Framing.Zstd.{Zstd}
use vynkor_sdk_cpp.Framing.Header.{read_be16, read_be32, max_payload_size}
use vynkor_sdk_cpp.Framing.Parse.{FrameResult, parse_frame_bytes, tag_size}
use vynkor_sdk_cpp.Framing.Sound.{parse_frame_bytes-Parsed}
use vynkor_sdk_cpp.Framing.Read.{Tick, got, lift, Script, read_body, read_frame_full_with_timeout}
use vynkor_sdk_cpp.Framing.Read.Exact.{
  and_then-eq-got, IsNext, recv_exact-IsNext, recv_exact_deadline-IsNext, IsTimely, progress,
  recv_exact_deadline-progress, Reads, recv_exact_one,
}

-- The fixed fields lie in the header.
read_flags_left :
    (header body : Bytes) → 44 ≤ length header → read_be16 (header ++ body) 2 ≡ read_be16 header 2
read_flags_left header body h = omega (
  arith,
  get_or-append_left header body 2 0 (omega (arith, h)),
  get_or-append_left header body 3 0 (omega (arith, h)),
)

read_length_left :
    (header body : Bytes) → 44 ≤ length header → read_be32 (header ++ body) 4 ≡ read_be32 header 4
read_length_left header body h = omega (
  arith,
  get_or-append_left header body 4 0 (omega (arith, h)),
  get_or-append_left header body 5 0 (omega (arith, h)),
  get_or-append_left header body 6 0 (omega (arith, h)),
  get_or-append_left header body 7 0 (omega (arith, h)),
)

lift-eq-got :
    {A : Type 0} (m : Result A) (left left' : Bytes) (a : A)
    → lift m left ≡ got a left'
    → (m ≡ ok a) × (left ≡ left')
lift-eq-got (ok b) left left' a h = (ap ok (cc h), cc h)
lift-eq-got (throws e) left left' a h = cc h

module _ (o : OpenSsl) (z : Zstd) (key : Option Bytes) where
  -- A frame that is parsed whole stands in front of what is left.
  abbrev pub IsFront : Bytes → FrameResult → Bytes → Type 0
  IsFront incoming r left =
      (frame : Bytes) × (incoming ≡ frame ++ left)
      × (parse_frame_bytes o z frame key ≡ ok (r, length frame))

  parsed-IsFront :
      (header body incoming mid left : Bytes) (r : FrameResult) (n : ℕ)
      → length header ≡ 44
      → IsNext (read_be32 header 4 + tag_size (read_be16 header 2)) incoming body mid
      → parse_frame_bytes o z (header ++ body) key ≡ ok (r, n)
      → mid ≡ left
      → IsFront (header ++ incoming) r left
  parsed-IsFront header body incoming mid left r n sized (whole, counted) accepted same =
      let p = parse_frame_bytes-Parsed o z (header ++ body) key r n accepted in
      let all : n ≡ length (header ++ body) = omega (
        arith,
        p.consumed,
        length-append header body,
        read_length_left header body (omega (arith, sized)),
        ap tag_size (read_flags_left header body (omega (arith, sized))),
      ) in
      (
        header ++ body,
        ap (λ t. header ++ t) (sym whole ∙ ap (λ t. body ++ t) same)
            ∙ sym (append_assoc header body left),
        accepted ∙ ap (λ k. ok (r, k)) all,
      )

  read_body-IsFront :
      (deadline : ℕ) (script : List Tick) (header incoming : Bytes) (r : FrameResult) (left : Bytes)
      → length header ≡ 44
      → read_body o z key deadline script header incoming ≡ got r left
      → IsFront (header ++ incoming) r left
  unfolding read_body
  read_body-IsFront deadline script header incoming r left sized h =
      elim (Bool-cases (ltb max_payload_size (read_be32 header 4))) [
        | inl big ↦ cc (rw (big, read_body) at h)
        | inr fits ↦
            let (body, mid, e, h1) = and_then-eq-got _ _ r left (rw (fits, read_body) at h) in
            let ((r', n), mid', e1, h2) = and_then-eq-got _ _ r left h1 in
            let (accepted, same) = lift-eq-got _ mid mid' (r', n) e1 in
            parsed-IsFront header body incoming mid left r n sized
              (recv_exact_deadline-IsNext deadline script _ incoming body mid e)
              (accepted ∙ ap (λ t. ok (t, n)) (cc h2)) (same ∙ cc h2)
      ]

  -- Whatever the system calls answer (short reads, interruptions, any timing): a frame that the reader
  -- returns is the front of the stream, parsed as `parse_frame_bytes` parses a buffer that holds just
  -- that frame, and the stream goes on behind it.
  pub read_frame_full_with_timeout-IsFront :
      (frame_timeout_ms : ℕ) (script : Script) (incoming : Bytes) (r : FrameResult) (left : Bytes)
      → read_frame_full_with_timeout o z key frame_timeout_ms script incoming ≡ got r left
      → IsFront incoming r left
  unfolding read_frame_full_with_timeout
  read_frame_full_with_timeout-IsFront frame_timeout_ms script incoming r left h =
      let (first, mid, e, h1) = and_then-eq-got _ _ r left h in
      let (more, mid', e1, h2) = and_then-eq-got _ _ r left h1 in
      let (whole, one) = recv_exact-IsNext script.first 1 incoming first mid e in
      let (whole', rest) = recv_exact_deadline-IsNext _ script.header 43 mid more mid' e1 in
      let (frame, front, accepted) =
        read_body-IsFront _ script.body (first ++ more) mid' r left
          (omega (arith, length-append first more, one, rest)) h2 in
      (
        frame,
        sym whole
            ∙ (ap (λ t. first ++ t) (sym whole') ∙ (sym (append_assoc first more mid') ∙ front)),
        accepted,
      )

  -- A script whose loops neither stop nor end too early for `n` bytes.
  abbrev pub IsPrompt : ℕ → ℕ → Script → Type 0
  IsPrompt frame_timeout_ms n script =
      let deadline = script.begun + frame_timeout_ms * 1000000 in
      Reads script.first
      × ((IsTimely deadline script.header × (43 ≤ progress deadline script.header))
          × (IsTimely deadline script.body × (n ≤ 44 + progress deadline script.body)))

  read_body-progress :
      (deadline : ℕ) (script : List Tick) (header incoming frame rest : Bytes) (r : FrameResult)
      → length header ≡ 44
      → header ++ incoming ≡ frame ++ rest
      → parse_frame_bytes o z frame key ≡ ok (r, length frame)
      → IsTimely deadline script
      → length frame ≤ 44 + progress deadline script
      → read_body o z key deadline script header incoming ≡ got r rest
  unfolding read_body
  read_body-progress deadline script header incoming frame rest r sized cut accepted timely enough =
      let p = parse_frame_bytes-Parsed o z frame key r (length frame) accepted in
      let len : read_be32 header 4 ≡ read_be32 frame 4 =
        sym (read_length_left header incoming (omega (arith, sized)))
        ∙ (ap (λ t. read_be32 t 4) cut ∙ read_length_left frame rest p.long) in
      let flags : read_be16 header 2 ≡ read_be16 frame 2 =
        sym (read_flags_left header incoming (omega (arith, sized)))
        ∙ (ap (λ t. read_be16 t 2) cut ∙ read_flags_left frame rest p.long) in
      let n = read_be32 header 4 + tag_size (read_be16 header 2) in
      let total : 44 + n ≡ length frame = omega (arith, p.consumed, len, ap tag_size flags) in
      let (body, left, e) =
        recv_exact_deadline-progress deadline script n incoming timely (omega (arith, total)) (
          omega (
            arith,
            total,
            sized,
            ap length cut,
            length-append header incoming,
            length-append frame rest,
          )) in
      let (whole, counted) = recv_exact_deadline-IsNext deadline script n incoming body left e in
      let (same, after) =
        append_cancel (header ++ body) left frame rest
          (omega (arith, length-append header body, sized, counted, total))
          (append_assoc header body left ∙ (ap (λ t. header ++ t) whole ∙ cut)) in
      rw
        (
          le→ltb_false max_payload_size (read_be32 header 4) (omega (arith, p.fits, len)),
          e,
          same,
          accepted,
        )
        (ap (got r) after)

  -- If a frame that parses stands in front of the stream, and no read fails and none of the bytes comes
  -- after the deadline, then the reader returns that frame and leaves what follows, however the bytes are
  -- split over the reads and whichever calls are interrupted.
  pub read_frame_full_with_timeout_progress :
      (frame_timeout_ms : ℕ) (script : Script) (frame rest : Bytes) (r : FrameResult)
      → parse_frame_bytes o z frame key ≡ ok (r, length frame)
      → IsPrompt frame_timeout_ms (length frame) script
      → read_frame_full_with_timeout o z key frame_timeout_ms script (frame ++ rest) ≡ got r rest
  unfolding read_frame_full_with_timeout
  read_frame_full_with_timeout_progress frame_timeout_ms script [] rest r accepted prompt =
      let p = parse_frame_bytes-Parsed o z [] key r 0 accepted in absurd (omega (arith, p.long))
  read_frame_full_with_timeout_progress frame_timeout_ms script (b ∷ frame) rest r accepted
        (first, ((timely, enough), (timely', enough'))) =
      let p = parse_frame_bytes-Parsed o z (b ∷ frame) key r _ accepted in
      let deadline = script.begun + frame_timeout_ms * 1000000 in
      let (more, left, e) =
        recv_exact_deadline-progress deadline script.header 43 (frame ++ rest) timely enough
          (omega (arith, p.long, length-append frame rest)) in
      let (whole, sized) =
        recv_exact_deadline-IsNext deadline script.header 43 (frame ++ rest) more left e in
      rw (recv_exact_one script.first b (frame ++ rest) first, e)
        (read_body-progress deadline script.body (b ∷ more) left (b ∷ frame) rest r
          (omega (arith, sized)) (ap (λ t. b ∷ t) whole) accepted timely' enough')
