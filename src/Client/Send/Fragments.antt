-- ===== src/Client/Send/Fragments.antt =====
-- src/client.cpp: what `send_fragmented` writes is what `recv_frame` of the peer puts together.
use vynkor_sdk_cpp.Base.{
  ℕ, zero, suc, ◌+◌, ◌-◌, ◌*◌, ◌%◌, ◌^◌, ◌≤◌, ◌<◌, ◌≡◌, refl, ap, sym, ◌∙◌, subst, arith, true,
  false, not, Option, none, some, List, [], ◌∷◌, ◌++◌, length, take, drop, min, bit_or, bit_and,
  leb, ◌==◌, All, All-take, All-drop, inl, inr, take_all, append-nil,
}
use vynkor_sdk_cpp.Base.Text.{Text}
use vynkor_sdk_cpp.Error.{Result, ok, ◌>>=◌, Result-cases}
use vynkor_sdk_cpp.Mac.{Bytes, IsByte, OpenSsl, IsOpenSsl}
use vynkor_sdk_cpp.Framing.Header.{max_payload_size, flag_fragmented}
use vynkor_sdk_cpp.Framing.Zstd.{Zstd, IsZstd}
use vynkor_sdk_cpp.Framing.Fragment.{pack_frag_header, frag_header_size}
use vynkor_sdk_cpp.Framing.Parse.{FrameResult, mac_present}
use vynkor_sdk_cpp.Framing.Pack.{pack_frame_raw}
use vynkor_sdk_cpp.Framing.Read.{parse_frame_from_buffer}
use vynkor_sdk_cpp.Framing.RoundTrip.{keyed, parse_frame_bytes-pack_frame_raw}
use vynkor_sdk_cpp.Client.State.{VynkorClient}
use vynkor_sdk_cpp.Client.Reassembly.{
  Streams, max_reassembly_streams, reassembly_timeout, find, whole_frame,
}
use vynkor_sdk_cpp.Client.Receive.{Arrival, is_fragment}
use vynkor_sdk_cpp.Client.Receive.Fragments.{headed, BringsFrom, Delivers, recv_frame-first}
use vynkor_sdk_cpp.Client.Receive.Chunks.{joined, bytes_upto}
use vynkor_sdk_cpp.Client.Send.{
  key_flag, chunk_at, fragment_payload, send_raw_with_flags, send_fragments, fragment_total,
  send_fragmented,
}
use vynkor_sdk_cpp.Client.Send.Chunks.{
  joined-chunks, bytes-chunks, Counted, fragment_total-Counted, Counted-enough,
}

-- What the peer's `read_transport_frame` gives for the frames, at these times.
abbrev pub arrivals : OpenSsl → Zstd → Option Bytes → List (ℕ × ℕ) → List Bytes → List Arrival
arrivals o z key [] frames = []
arrivals o z key (time ∷ times) [] = []
arrivals o z key ((now, seen) ∷ times) (frame ∷ frames) =
    record {
      now = now;
      seen = seen;
      read = parse_frame_from_buffer o z frame (length frame) key >>= λ r. ok r.0;
    }
    ∷ arrivals o z key times frames

-- No reading of the clock is 30 seconds behind the first.
abbrev pub InTime : ℕ → List (ℕ × ℕ) → Type 0
InTime first [] = Unit {0}
InTime first ((now, seen) ∷ times) = (now < first + reassembly_timeout) × InTime first times

record Carried (o : OpenSsl) (z : Zstd) (key : Option Bytes) (payload frame : Bytes) : Type 0 where
  result : FrameResult
  read : (parse_frame_from_buffer o z frame (length frame) key >>= λ r. ok r.0) ≡ ok result
  payload_lem : result.payload ≡ payload
  marked : is_fragment result ≡ true
  unmarked : bit_and result.flags 0xfffa ≡ 0

module _ (o : OpenSsl) (z : Zstd) (lo : IsOpenSsl o) (lz : IsZstd z) where
  packed-Carried :
      (target : Text) (flags : ℕ) (payload frame : Bytes) (key : Option Bytes)
      → flags < 0x10000
      → bit_and flags 2 ≡ 0
      → mac_present flags ≡ keyed key
      → not (bit_and flags flag_fragmented == 0) ≡ true
      → bit_and flags 0xfffa ≡ 0
      → All IsByte payload
      → pack_frame_raw o z target flags payload key ≡ ok frame
      → Carried o z key payload frame
  unfolding parse_frame_from_buffer
  packed-Carried target flags payload frame key small clear mac fragmented unmarked bytes packed =
      let (r, parsed, same, kept, _, _) =
        parse_frame_bytes-pack_frame_raw o z target flags payload key frame [] lo lz small clear mac
          bytes packed in
      let whole : take (length frame) frame ≡ frame ++ [] =
        take_all (length frame) frame (omega arith) ∙ sym (append-nil frame) in
      record {
        result = r;
        read = rw (whole, parsed, parse_frame_from_buffer) refl;
        payload_lem = same;
        marked = ap (λ f. not (bit_and f flag_fragmented == 0)) kept ∙ fragmented;
        unmarked = ap (λ f. bit_and f 0xfffa) kept ∙ unmarked;
      }

  send-Carried :
      (c : VynkorClient) (target : Text) (payload frame : Bytes)
      → c.ws ≡ false
      → All IsByte payload
      → send_raw_with_flags o z c target flag_fragmented payload ≡ ok frame
      → Carried o z c.session_key payload frame
  unfolding send_raw_with_flags
  send-Carried c target payload frame uds bytes h = flagged c.session_key (rw uds at h)
    where
      flagged :
          (key : Option Bytes)
          → pack_frame_raw o z target (bit_or (key_flag key) flag_fragmented) payload key ≡ ok frame
          → Carried o z key payload frame
      flagged none packed =
          packed-Carried target 4 payload frame none (omega arith) refl refl refl refl bytes packed
      flagged (some key) packed =
          packed-Carried target 5 payload frame (some key) (omega arith) refl refl refl refl bytes
            packed

  send_fragments-suc :
      (written : ℕ → Result (Unit {0})) (c : VynkorClient) (target : Text) (payload_of : ℕ → Bytes)
      (n seq : ℕ) (frames : List Bytes)
      → send_fragments o z written c target payload_of (suc n) seq ≡ (frames, ok tt)
      → (frame : Bytes) × (rest : List Bytes) × (frames ≡ frame ∷ rest)
        × (send_raw_with_flags o z c target flag_fragmented (payload_of seq) ≡ ok frame)
        × (send_fragments o z written c target payload_of n (seq + 1) ≡ (rest, ok tt))
  unfolding send_fragments
  send_fragments-suc written c target payload_of n seq frames h =
      elim (Result-cases (send_raw_with_flags o z c target flag_fragmented (payload_of seq))) [
        | inr (e, failed) ↦ cc (rw (failed, send_fragments) at h)
        | inl (frame, sent) ↦ elim (Result-cases (written seq)) [
          | inr (e, failed) ↦ cc (rw (sent, failed, send_fragments) at h)
          | inl (done, finished) ↦
              let rest = send_fragments o z written c target payload_of n (seq + 1) in
              let h' : (frame ∷ rest.0, rest.1) ≡ (frames, ok tt) =
                rw (sent, finished, send_fragments) at h in
              (frame, rest.0, sym (ap (λ t. t.0) h'), sent, ap (λ t. (rest.0, t.1)) h')
        ]
      ]

  module _ (chunk : ℕ → Bytes) (fragment_id total stream_id first : ℕ)
      (bytes : (k : ℕ) → All IsByte (headed fragment_id total stream_id chunk k))
      (written : ℕ → Result (Unit {0})) (c : VynkorClient) (target : Text)
      (uds : c.ws ≡ false) where
    -- The frames of a loop that ends without an exception, as they arrive.
    send_fragments-Brings :
        (n seq : ℕ) (frames : List Bytes) (times : List (ℕ × ℕ))
        → seq + n ≡ total
        → send_fragments o z written c target (headed fragment_id total stream_id chunk) n seq
          ≡ (frames, ok tt)
        → length times ≡ length frames
        → InTime first times
        → BringsFrom chunk fragment_id total stream_id first seq
            (arrivals o z c.session_key times frames)
    unfolding send_fragments
    send_fragments-Brings zero seq [] [] count sent same in_time = omega (arith, count)
    send_fragments-Brings zero seq [] (t ∷ times) count sent same in_time =
        absurd (omega (arith, same))
    send_fragments-Brings zero seq (f ∷ frames) times count sent same in_time =
        let e : [] ≡ f ∷ frames = ap (λ t. t.0) sent in cc e
    send_fragments-Brings (suc n) seq frames [] count sent same in_time =
        let (frame, rest, e, _, _) =
          send_fragments-suc written c target (headed fragment_id total stream_id chunk) n seq
            frames sent in
        cc (e, same)
    send_fragments-Brings (suc n) seq frames ((now, seen) ∷ times) count sent same
          (young, in_time) =
        let (frame, rest, e, packed, goes_on) =
          send_fragments-suc written c target (headed fragment_id total stream_id chunk) n seq
            frames sent in
        let carried =
          send-Carried c target (headed fragment_id total stream_id chunk seq) frame uds (bytes seq)
            packed in
        let fresh : leb reassembly_timeout (now - first) ≡ false = ground (arith, young) in
        let more =
          send_fragments-Brings n (seq + 1) rest times (omega (arith, count)) goes_on
            (omega (arith, same, ap length e)) in_time in
        subst
          (λ f.
            BringsFrom chunk fragment_id total stream_id first seq
              (arrivals o z c.session_key ((now, seen) ∷ times) f))
          (sym e)
          (
            fresh,
            (carried.result, carried.read, carried.payload_lem, carried.marked),
            subst {A = ℕ}
                (λ k.
                  BringsFrom chunk fragment_id total stream_id first k
                    (arrivals o z c.session_key times rest))
                {x = seq + 1} {y = suc seq} (omega arith) more,
          )

  chunk-IsByte :
      (chunk_size total stream_id : ℕ) (payload : Bytes) (k : ℕ)
      → All IsByte payload
      → All IsByte (headed (stream_id % 0x10000) total stream_id (chunk_at chunk_size payload) k)
  unfolding chunk_at pack_frag_header
  chunk-IsByte chunk_size total stream_id payload k bytes = (
    omega arith,
    (
      omega arith,
      (
        omega arith,
        (
          omega arith,
          (
            omega arith,
            (
              omega arith,
              (
                omega arith,
                (
                  omega arith,
                  (
                    omega arith,
                    (
                      omega arith,
                      All-take IsByte (min chunk_size (length payload - k * chunk_size))
                          (drop (k * chunk_size) payload)
                          (All-drop IsByte (k * chunk_size) payload bytes),
                    ),
                  ),
                ),
              ),
            ),
          ),
        ),
      ),
    ),
  )

  module _ (written : ℕ → Result (Unit {0})) (c : VynkorClient) (target : Text) (payload : Bytes)
      (chunk_size : ℕ) (bytes : All IsByte payload) (narrow : c.next_stream_id < 0x100000000)
      (no_wrap : chunk_size + frag_header_size < 2 ^ 64) (m : Streams)
      (fresh : find c.next_stream_id m ≡ none) (space : length m < max_reassembly_streams)
      (now seen : ℕ) (times : List (ℕ × ℕ)) (in_time : InTime seen times)
      (later : List Arrival) where
    abbrev id16 : ℕ
    id16 = c.next_stream_id % 0x10000

    chunk-fits :
        (k : ℕ)
        → length payload ≤ max_payload_size
        → bytes_upto (chunk_at chunk_size payload) k ≤ max_payload_size
    chunk-fits k fits = omega (arith, fits, bytes-chunks chunk_size payload k)

    whole_payload :
        (total : ℕ)
        → length payload ≤ total * chunk_size
        → joined (chunk_at chunk_size payload) total 0 ≡ payload
    whole_payload total enough =
        joined-chunks chunk_size payload total 0 (
          subst {A = ℕ} (λ k. length payload ≤ k * chunk_size) {x = total} {y = 0 + total}
            (omega arith) enough)
        ∙ ap {A = ℕ} (λ k. drop k payload) {x = 0 * chunk_size} {y = 0} (omega arith)

    delivered :
        (total : ℕ) (frames : List Bytes)
        → Counted c payload chunk_size total
        → (0 < total) × (length payload ≤ total * chunk_size)
        → send_fragments o z written c target
            (fragment_payload chunk_size payload total c.next_stream_id)
            total
            0
          ≡ (frames, ok tt)
        → suc (length times) ≡ length frames
        → Delivers
            (whole_frame 0 payload)
            m
            (arrivals o z c.session_key ((now, seen) ∷ times) frames ++ later)
            later
    delivered zero frames counted (some_total, enough) sent same =
        absurd (omega (arith, some_total))
    delivered (suc n) frames counted (some_total, enough) sent same =
        let chunk = chunk_at chunk_size payload in
        let total = suc n in
        let all = λ (k : ℕ). chunk-IsByte chunk_size total c.next_stream_id payload k bytes in
        let (frame, rest, e, packed, goes_on) =
          send_fragments-suc written c target (headed id16 total c.next_stream_id chunk) n 0 frames
            sent in
        let carried =
          send-Carried c target (headed id16 total c.next_stream_id chunk 0) frame counted.on_uds
            (all 0) packed in
        let brings =
          send_fragments-Brings chunk id16 total c.next_stream_id seen all written c target
            counted.on_uds n 1 rest times (omega arith) goes_on (omega (arith, same, ap length e))
            in_time in
        let few : total < 0x10000 = omega (arith, counted.few) in
        let got =
          recv_frame-first chunk id16 total c.next_stream_id seen 0 (omega arith) few narrow
            (λ k small. chunk-fits k counted.fits) m
            (record {
              now = now;
              seen = seen;
              read = parse_frame_from_buffer o z frame (length frame) c.session_key >>= λ r. ok r.0;
            })
            (arrivals o z c.session_key times rest) later carried.result fresh space some_total refl
            carried.read carried.payload_lem carried.marked carried.unmarked brings in
        subst
          (λ f.
            Delivers (whole_frame 0 payload) m
              (arrivals o z c.session_key ((now, seen) ∷ times) f ++ later) later)
          (sym e)
          (subst
            (λ p.
              Delivers (whole_frame 0 p) m
                (arrivals o z c.session_key ((now, seen) ∷ times) (frame ∷ rest) ++ later) later)
            (whole_payload total enough) got)

  -- Where `send_fragmented` ends without an exception, on a client whose stream id has 32 bits and a chunk size
  -- that `size_t` can add the header size to, a peer with the same key, which has fewer than 64 streams
  -- and none with that id, and which reads just these frames within 30 seconds of the first, gets
  -- the payload as one frame without flags, and what arrives later is left. OpenSSL and zstd are assumed
  -- to behave as documented.
  pub send_fragmented-recv_frame :
      (written : ℕ → Result (Unit {0})) (c : VynkorClient) (target : Text) (payload : Bytes)
      (chunk_size : ℕ) (frames : List Bytes) (m : Streams) (now seen : ℕ) (times : List (ℕ × ℕ))
      (later : List Arrival)
      → All IsByte payload
      → c.next_stream_id < 0x100000000
      → chunk_size + frag_header_size < 2 ^ 64
      → (send_fragmented o z written c target payload chunk_size).1 ≡ frames
      → (send_fragmented o z written c target payload chunk_size).2 ≡ ok tt
      → find c.next_stream_id m ≡ none
      → length m < max_reassembly_streams
      → suc (length times) ≡ length frames
      → InTime seen times
      → Delivers
          (whole_frame 0 payload)
          m
          (arrivals o z c.session_key ((now, seen) ∷ times) frames ++ later)
          later
  unfolding send_fragmented
  send_fragmented-recv_frame written c target payload chunk_size frames m now seen times later bytes
        narrow no_wrap sent fine fresh space same in_time =
      elim (Result-cases (fragment_total c payload chunk_size)) [
        | inr (e, failed) ↦ cc (rw (failed, send_fragmented) at fine)
        | inl (total, counting) ↦
            let counted = fragment_total-Counted c payload chunk_size total counting in
            delivered written c target payload chunk_size bytes narrow no_wrap m fresh space now
              seen times in_time later total frames counted
              (Counted-enough c payload chunk_size total no_wrap counted)
              (ap (λ f. (f, (loop total).1)) (rw (counting, send_fragmented) at sent)
                ∙ ap (λ r. (frames, r)) (rw (counting, send_fragmented) at fine))
              same
      ]
    where
      loop : ℕ → List Bytes × Result (Unit {0})
      loop total =
          send_fragments o z written c target
            (fragment_payload chunk_size payload total c.next_stream_id) total 0
