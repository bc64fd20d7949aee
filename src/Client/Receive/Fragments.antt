-- ===== src/Client/Receive/Fragments.antt =====
-- src/client.cpp, `recv_frame`: the fragments of one stream, in their order, make one frame.
use vynkor_sdk_cpp.Base.{
  ℕ, suc, ◌+◌, ◌-◌, ◌≤◌, ◌<◌, ◌≡◌, refl, ap, ◌∙◌, arith, true, false, Option, none, some, List, [],
  ◌∷◌, ◌++◌, length, drop, bit_and, ltb, leb, ◌==◌, ==_refl, ◌||◌, inl, inr, Bool-cases,
  if◌then◌else◌, le→ltb_false,
}
use vynkor_sdk_cpp.Error.{Result, ok}
use vynkor_sdk_cpp.Mac.{Bytes}
use vynkor_sdk_cpp.Framing.Header.{max_payload_size}
use vynkor_sdk_cpp.Framing.Fragment.{
  FragmentHeader, frag_header_size, pack_frag_header, parse_frag_header, drop-pack_frag_header,
  parse_frag_header-pack_frag_header,
}
use vynkor_sdk_cpp.Framing.Parse.{FrameResult}
use vynkor_sdk_cpp.Client.Reassembly.{
  ReassemblyBuf, Streams, max_reassembly_streams, reassembly_timeout, find, erase, assign, gather,
  prune_stale, open_stream, replaced_len, whole_frame, finish, store_chunk, absorb_fragment,
}
use vynkor_sdk_cpp.Client.Reassembly.Bounds.{length-prune_stale}
use vynkor_sdk_cpp.Client.Reassembly.Maps.{find-assign, find-prune_none, find-prune_some}
use vynkor_sdk_cpp.Client.Receive.{Arrival, complete, is_fragment, recv_frame}
use vynkor_sdk_cpp.Client.Receive.Chunks.{
  upto, joined, bytes_upto, find-upto-none, length-upto, gather-upto,
}

recv_frame-whole :
    (m p : Streams) (a : Arrival) (arrivals : List Arrival) (frame whole : FrameResult)
    → a.read ≡ ok frame
    → is_fragment frame ≡ true
    → absorb_fragment a.now a.seen m frame ≡ (p, ok (some whole))
    → recv_frame m (a ∷ arrivals) ≡ (p, complete whole arrivals)
unfolding recv_frame
recv_frame-whole m p a arrivals frame whole read marked absorbed =
    let left : (absorb_fragment a.now a.seen m frame).0 ≡ p = ap (λ t. t.0) absorbed in
    let result : (absorb_fragment a.now a.seen m frame).1 ≡ ok (some whole) =
      ap (λ t. t.1) absorbed in
    rw (read, marked, result, left, recv_frame) refl

recv_frame-none :
    (m p : Streams) (a : Arrival) (arrivals : List Arrival) (frame : FrameResult)
    → a.read ≡ ok frame
    → is_fragment frame ≡ true
    → absorb_fragment a.now a.seen m frame ≡ (p, ok none)
    → recv_frame m (a ∷ arrivals) ≡ recv_frame p arrivals
unfolding recv_frame
recv_frame-none m p a arrivals frame read marked absorbed =
    let left : (absorb_fragment a.now a.seen m frame).0 ≡ p = ap (λ t. t.0) absorbed in
    let result : (absorb_fragment a.now a.seen m frame).1 ≡ ok none = ap (λ t. t.1) absorbed in
    rw (read, marked, result, left, recv_frame) refl

absorb-store_chunk :
    (now seen : ℕ) (m p : Streams) (frame : FrameResult) (hdr : FragmentHeader)
    (buf : ReassemblyBuf) (data_bytes : Bytes)
    → parse_frag_header frame.payload ≡ some hdr
    → ((hdr.total == 0) || leb hdr.total hdr.sequence) ≡ false
    → drop frag_header_size frame.payload ≡ data_bytes
    → open_stream seen (prune_stale now m) hdr frame.flags ≡ (p, ok buf)
    → absorb_fragment now seen m frame ≡ store_chunk p hdr buf data_bytes
unfolding absorb_fragment
absorb-store_chunk now seen m p frame hdr buf data_bytes head guard dropped opened =
    let left : (open_stream seen (prune_stale now m) hdr frame.flags).0 ≡ p =
      ap (λ t. t.0) opened in
    let result : (open_stream seen (prune_stale now m) hdr frame.flags).1 ≡ ok buf =
      ap (λ t. t.1) opened in
    rw (head, guard, result, left, dropped, absorb_fragment) refl

-- What the sender puts in front of a chunk.
abbrev pub headed : ℕ → ℕ → ℕ → (ℕ → Bytes) → ℕ → Bytes
headed fragment_id total stream_id chunk seq =
    pack_frag_header fragment_id seq total stream_id ++ chunk seq

module _ (chunk : ℕ → Bytes) (fragment_id total stream_id first : ℕ) where
  abbrev Brings : ℕ → Arrival → Type 0
  Brings k a =
      (frame : FrameResult) × (a.read ≡ ok frame)
      × (frame.payload ≡ headed fragment_id total stream_id chunk k)
      × (is_fragment frame ≡ true)

  -- The arrivals from the fragment `k` to the last, in time.
  abbrev pub BringsFrom : ℕ → List Arrival → Type 0
  BringsFrom k [] = k ≡ total
  BringsFrom k (a ∷ arrivals) =
      (leb reassembly_timeout (a.now - first) ≡ false) × Brings k a × BringsFrom (suc k) arrivals

-- The call returns this frame, and these arrivals are left.
abbrev pub Delivers : FrameResult → Streams → List Arrival → List Arrival → Type 0
Delivers whole m arrivals later =
    (m' : Streams) × (recv_frame m arrivals ≡ (m', complete whole later))

module _ (chunk : ℕ → Bytes) (fragment_id total stream_id first flags : ℕ)
    (small_id : fragment_id < 0x10000) (few : total < 0x10000) (narrow : stream_id < 0x100000000)
    (fits : (k : ℕ) → k ≤ total → bytes_upto chunk k ≤ max_payload_size) where
  abbrev buffer : ℕ → ReassemblyBuf
  buffer k = record {
    fragments = upto chunk k;
    total = total;
    flags = flags;
    first_seen = first;
    buffered_bytes = bytes_upto chunk k;
  }

  abbrev Later : ℕ → List Arrival → Type 0
  Later = BringsFrom chunk fragment_id total stream_id first

  abbrev Gives : Streams → List Arrival → List Arrival → Type 0
  Gives = Delivers (whole_frame flags (joined chunk total 0))

  abbrev header : ℕ → FragmentHeader
  header k = record {
    fragment_id = fragment_id;
    sequence = k;
    total = total;
    stream_id = stream_id;
  }

  abbrev stored : Streams → ℕ → Streams × Result (Option FrameResult)
  stored m k =
      if suc k == total
      then (erase stream_id m, ok (some (whole_frame flags (joined chunk total 0))))
      else (assign stream_id (buffer (suc k)) m, ok none)

  finish-buffer : (m : Streams) (k : ℕ) → finish m stream_id (buffer (suc k)) ≡ stored m k
  unfolding finish
  finish-buffer m k = elim (Bool-cases (suc k == total)) [
    | inl done ↦
        let same : suc k ≡ total = ground (arith, done) in
        let whole : gather (upto chunk (suc k)) total 0 ≡ ok (joined chunk total 0) =
          gather-upto chunk (suc k) total 0 (omega (arith, same)) in
        rw (length-upto chunk (suc k), done, whole, finish) refl
    | inr more ↦ rw (length-upto chunk (suc k), more, finish) refl
  ]

  store_chunk-finish :
      (m : Streams) (k : ℕ)
      → k < total
      → store_chunk m (header k) (buffer k) (chunk k) ≡ finish m stream_id (buffer (suc k))
  unfolding store_chunk upto bytes_upto
  store_chunk-finish m k h =
      let counted : bytes_upto chunk k - replaced_len k (upto chunk k) + length (chunk k)
          ≡ bytes_upto chunk k + length (chunk k) =
        rw (find-upto-none chunk k k (omega arith), replaced_len) (omega arith) in
      let room : ltb max_payload_size (bytes_upto chunk k + length (chunk k)) ≡ false =
        le→ltb_false _ _ (fits (suc k) (omega (arith, h))) in
      rw (counted, room, store_chunk) refl

  store_chunk-buffer :
      (m : Streams) (k : ℕ) → k < total → store_chunk m (header k) (buffer k) (chunk k) ≡ stored m k
  store_chunk-buffer m k h = store_chunk-finish m k h ∙ finish-buffer m k

  header-read :
      (payload : Bytes) (k : ℕ)
      → k < total
      → payload ≡ headed fragment_id total stream_id chunk k
      → (parse_frag_header payload ≡ some (header k))
        × (drop frag_header_size payload ≡ chunk k)
        × (((total == 0) || leb total k) ≡ false)
  header-read payload k h e = (
    ap parse_frag_header e
        ∙ parse_frag_header-pack_frag_header fragment_id k total stream_id (chunk k) small_id
            (omega (arith, h, few)) few narrow,
    ap (drop frag_header_size) e ∙ drop-pack_frag_header fragment_id k total stream_id (chunk k),
    ground (arith, h),
  )

  brings_length : (k : ℕ) (arrivals : List Arrival) → Later k arrivals → k + length arrivals ≡ total
  brings_length k [] h = omega (arith, h)
  brings_length k (a ∷ arrivals) (young, brings, h) =
      omega (arith, brings_length (suc k) arrivals h)

  absorb-later :
      (now seen : ℕ) (m : Streams) (frame : FrameResult) (k : ℕ)
      → k < total
      → frame.payload ≡ headed fragment_id total stream_id chunk k
      → leb reassembly_timeout (now - first) ≡ false
      → find stream_id m ≡ some (buffer k)
      → absorb_fragment now seen m frame ≡ stored (prune_stale now m) k
  unfolding open_stream
  absorb-later now seen m frame k h payload young found =
      let (head, dropped, guard) = header-read frame.payload k h payload in
      let there = find-prune_some now stream_id (buffer k) m young found in
      absorb-store_chunk now seen m (prune_stale now m) frame (header k) (buffer k) (chunk k) head
        guard dropped (rw (there, ==_refl total, open_stream) refl)
      ∙ store_chunk-buffer (prune_stale now m) k h

  -- The arrival of one fragment; `goes_on` is what the later ones do.
  recv_frame-stored :
      (m p : Streams) (a : Arrival) (arrivals later : List Arrival) (k : ℕ) (frame : FrameResult)
      → a.read ≡ ok frame
      → is_fragment frame ≡ true
      → absorb_fragment a.now a.seen m frame ≡ stored p k
      → Later (suc k) arrivals
      → ((find stream_id (assign stream_id (buffer (suc k)) p) ≡ some (buffer (suc k)))
          → (suc k == total) ≡ false
          → Gives (assign stream_id (buffer (suc k)) p) (arrivals ++ later) later)
      → Gives m (a ∷ (arrivals ++ later)) later
  recv_frame-stored m p a [] later k frame read marked absorbed brings goes_on =
      let last : (suc k == total) ≡ true = ground (arith, brings) in
      (
        erase stream_id p,
        recv_frame-whole m _ a later frame _ read marked (absorbed ∙ rw last refl),
      )
  recv_frame-stored m p a (b ∷ arrivals) later k frame read marked absorbed brings goes_on =
      let more : (suc k == total) ≡ false =
        ground (arith, brings_length (suc k) (b ∷ arrivals) brings) in
      let (m', e) = goes_on (find-assign stream_id (buffer (suc k)) p) more in
      (
        m',
        recv_frame-none m _ a ((b ∷ arrivals) ++ later) frame read marked (absorbed ∙ rw more refl)
            ∙ e,
      )

  recv_frame-rest :
      (m : Streams) (k : ℕ) (a : Arrival) (arrivals later : List Arrival)
      → Later k (a ∷ arrivals)
      → find stream_id m ≡ some (buffer k)
      → Gives m (a ∷ (arrivals ++ later)) later
  recv_frame-rest m k a [] later (young, (frame, read, payload, marked), brings) found =
      recv_frame-stored m (prune_stale a.now m) a [] later k frame read marked
        (absorb-later a.now a.seen m frame k (omega (arith, brings)) payload young found) brings
        (λ there more. absurd (ground (arith, brings, more)))
  recv_frame-rest m k a (b ∷ arrivals) later (young, (frame, read, payload, marked), brings) found =
      let inside : k < total = omega (arith, brings_length (suc k) (b ∷ arrivals) brings) in
      recv_frame-stored m (prune_stale a.now m) a (b ∷ arrivals) later k frame read marked
        (absorb-later a.now a.seen m frame k inside payload young found) brings
        (λ there more.
          recv_frame-rest (assign stream_id (buffer (suc k)) (prune_stale a.now m)) (suc k) b
            arrivals later brings there)

  open_stream-first :
      (seen : ℕ) (m : Streams) (frame_flags : ℕ)
      → find stream_id m ≡ none
      → length m < max_reassembly_streams
      → seen ≡ first
      → bit_and frame_flags 0xfffa ≡ flags
      → open_stream seen m (header 0) frame_flags ≡ (assign stream_id (buffer 0) m, ok (buffer 0))
  unfolding open_stream upto bytes_upto
  open_stream-first seen m frame_flags none_yet space at_first kept =
      let room : leb max_reassembly_streams (length m) ≡ false = ground (arith, space) in
      rw (none_yet, room, at_first, kept, open_stream) refl

  -- From the first fragment of a stream that is not known, below 64 streams, to the last.
  pub recv_frame-first :
      (m : Streams) (a : Arrival) (arrivals later : List Arrival) (frame : FrameResult)
      → find stream_id m ≡ none
      → length m < max_reassembly_streams
      → 0 < total
      → a.seen ≡ first
      → a.read ≡ ok frame
      → frame.payload ≡ headed fragment_id total stream_id chunk 0
      → is_fragment frame ≡ true
      → bit_and frame.flags 0xfffa ≡ flags
      → BringsFrom chunk fragment_id total stream_id first 1 arrivals
      → Delivers (whole_frame flags (joined chunk total 0)) m (a ∷ (arrivals ++ later)) later
  recv_frame-first m a arrivals later frame none_yet space some_total at_first read payload marked
        kept brings =
      let pruned = prune_stale a.now m in
      let opened = assign stream_id (buffer 0) pruned in
      let (head, dropped, guard) = header-read frame.payload 0 some_total payload in
      let absorbed =
        absorb-store_chunk a.now a.seen m opened frame (header 0) (buffer 0) (chunk 0) head guard
          dropped
          (open_stream-first a.seen pruned frame.flags (find-prune_none a.now stream_id m none_yet)
            (omega (arith, length-prune_stale a.now m, space)) at_first kept)
        ∙ store_chunk-buffer opened 0 some_total in
      recv_frame-stored m opened a arrivals later 0 frame read marked absorbed brings
        (goes_on opened arrivals brings)
    where
      goes_on :
          (opened : Streams) (arrivals : List Arrival)
          → Later 1 arrivals
          → (find stream_id (assign stream_id (buffer 1) opened) ≡ some (buffer 1))
          → (1 == total) ≡ false
          → Gives (assign stream_id (buffer 1) opened) (arrivals ++ later) later
      goes_on opened [] brings there more = absurd (ground (arith, brings, more))
      goes_on opened (b ∷ arrivals) brings there more =
          recv_frame-rest (assign stream_id (buffer 1) opened) 1 b arrivals later brings there
