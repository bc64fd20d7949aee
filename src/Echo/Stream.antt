-- ===== src/Echo/Stream.antt =====
-- examples/echo_plugin.cpp: a streamed request, from its acceptance to its last chunk.
use vynkor_sdk_cpp.Base.{
  ℕ, suc, ◌/◌, ◌<◌, ◌≡◌, refl, ap, sym, ◌∙◌, arith, true, false, Option, none, some, List, [], ◌∷◌,
  ◌++◌, append-nil, append_assoc, length, take-append-drop, All, ltb, ◌==◌, text_eq, text_eq_refl,
}
use vynkor_sdk_cpp.Base.Text.{Text, lit}
use vynkor_sdk_cpp.Error.{Result, ok, throws}
use vynkor_sdk_cpp.Mac.{Bytes}
use vynkor_sdk_cpp.Protocol.{
  Envelope, ActionRequest, action_request, action_request_chunk, action_response_chunk, status_ok,
}
use vynkor_sdk_cpp.Echo.{
  Chunks, assign, joined, EchoPlugin, idle, answer, handle_action, first_half, second_half,
  finish_stream, Turn, handle_request_chunk, on_message,
}

abbrev pub replied : Result (Option Envelope) → List Envelope
replied (throws e) = []
replied (ok none) = []
replied (ok (some env)) = env ∷ []

-- The messages in their order, with all that goes out; each message has the same turn.
unfoldable pub feed : Turn → EchoPlugin → List Envelope → EchoPlugin × List Envelope
feed turn p [] = (p, [])
feed turn p (env ∷ envs) =
    let h = on_message p turn env in
    let rest = feed turn h.plugin envs in (rest.0, h.sends ++ (replied h.reply ++ rest.1))

-- The pieces of a request as its chunks from a number on, the last one final.
unfoldable pub numbered : Text → ℕ → Bytes → List Bytes → List Envelope
numbered action_id k piece [] = action_request_chunk action_id k piece true ∷ []
numbered action_id k piece (next ∷ pieces) =
    action_request_chunk action_id k piece false ∷ numbered action_id (suc k) next pieces

unfoldable pub whole : Bytes → List Bytes → Bytes
whole piece [] = piece
whole piece (next ∷ pieces) = piece ++ whole next pieces

abbrev Below : ℕ → Chunks → Type 0
Below k chunks = All (λ (c : ℕ × Bytes). c.0 < k) chunks

Below-suc : (k : ℕ) (chunks : Chunks) → Below k chunks → Below (suc k) chunks
Below-suc k [] h = tt
Below-suc k (c ∷ chunks) (low, h) = (omega (arith, low), Below-suc k chunks h)

assign-Below :
    (k : ℕ) (x : Bytes) (chunks : Chunks)
    → Below k chunks
    → assign k x chunks ≡ chunks ++ ((k, x) ∷ [])
unfolding assign
assign-Below k x [] h = refl
assign-Below k x ((j, old) ∷ chunks) (low, h) =
    let other : (k == j) ≡ false = ground (arith, low) in
    let later : ltb k j ≡ false = ground (arith, low) in
    rw (other, later, assign) (ap (λ t. (j, old) ∷ t) (assign-Below k x chunks h))

Below-assign :
    (k : ℕ) (x : Bytes) (chunks : Chunks) → Below k chunks → Below (suc k) (chunks ++ ((k, x) ∷ []))
Below-assign k x [] h = (omega arith, tt)
Below-assign k x (c ∷ chunks) (low, h) = (omega (arith, low), Below-assign k x chunks h)

joined-append :
    (k : ℕ) (x : Bytes) (chunks : Chunks) → joined (chunks ++ ((k, x) ∷ [])) ≡ joined chunks ++ x
unfolding joined
joined-append k x [] = append-nil x
joined-append k x ((j, old) ∷ chunks) =
    ap (λ t. old ++ t) (joined-append k x chunks) ∙ sym (append_assoc old (joined chunks) x)

-- What goes out at the end of a stream.
abbrev pub echoed : Text → Bytes → List Envelope
echoed action_id full =
    action_response_chunk action_id 0 (first_half full)
    ∷ (action_response_chunk action_id 1 (second_half full)
        ∷ (answer action_id status_ok full [] ∷ []))

module _ (turn : Turn) (first_sent : turn.first ≡ ok tt) (second_sent : turn.second ≡ ok tt)
    (action_id : Text) where
  last_chunk :
      (k : ℕ) (piece full : Bytes) (chunks : Chunks)
      → joined (assign k piece chunks) ≡ full
      → handle_request_chunk
          (record { stream_action_id = action_id; stream_chunks = chunks })
          turn
          action_id
          k
          piece
          true
        ≡ record {
          plugin = idle;
          sends =
              action_response_chunk action_id 0 (first_half full)
              ∷ (action_response_chunk action_id 1 (second_half full) ∷ []);
          reply = ok (some (answer action_id status_ok full []));
        }
  unfolding handle_request_chunk finish_stream
  last_chunk k piece full chunks e =
      rw (text_eq_refl action_id, handle_request_chunk)
        (ap
            (λ t.
              finish_stream
                (record { stream_action_id = action_id; stream_chunks = assign k piece chunks }) t
                turn.first turn.second)
            e
          ∙ rw (first_sent, second_sent, finish_stream) refl)

  more_chunks :
      (k : ℕ) (piece : Bytes) (chunks : Chunks)
      → Below k chunks
      → handle_request_chunk
          (record { stream_action_id = action_id; stream_chunks = chunks })
          turn
          action_id
          k
          piece
          false
        ≡ record {
          plugin = record {
            stream_action_id = action_id;
            stream_chunks = chunks ++ ((k, piece) ∷ []);
          };
          sends = [];
          reply = ok none;
        }
  unfolding handle_request_chunk
  more_chunks k piece chunks below =
      rw (text_eq_refl action_id, handle_request_chunk)
        (ap {A = Chunks}
          (λ t. record {
            plugin = record { stream_action_id = action_id; stream_chunks = t };
            sends = [];
            reply = ok none;
          })
          (assign-Below k piece chunks below))

  feed-numbered :
      (k : ℕ) (piece : Bytes) (pieces : List Bytes) (chunks : Chunks)
      → Below k chunks
      → feed turn
          (record { stream_action_id = action_id; stream_chunks = chunks })
          (numbered action_id k piece pieces)
        ≡ (idle, echoed action_id (joined chunks ++ whole piece pieces))
  unfolding feed numbered whole on_message
  feed-numbered k piece [] chunks below =
      let full = ap joined (assign-Below k piece chunks below) ∙ joined-append k piece chunks in
      rw (last_chunk k piece (joined chunks ++ piece) chunks full, feed, on_message) refl
  feed-numbered k piece (next ∷ pieces) chunks below =
      rw (more_chunks k piece chunks below, feed, on_message)
        (feed-numbered (suc k) next pieces (chunks ++ ((k, piece) ∷ []))
            (Below-assign k piece chunks below)
          ∙ ap {A = Bytes} (λ t. (idle, echoed action_id t))
              (ap (λ t. t ++ whole next pieces) (joined-append k piece chunks)
                ∙ append_assoc (joined chunks) piece (whole next pieces)))

-- Whatever stream was open before, an action `stream_echo` that is streamed is accepted, and when its pieces have
-- come in their order, and the sends succeed, the plugin has sent the acceptance, two chunks and a response. The
-- response carries the concatenation of the pieces, and so do the two chunks together; no stream is open then.
pub feed-stream_echo :
    (turn : Turn) (p : EchoPlugin) (req : ActionRequest) (piece : Bytes) (pieces : List Bytes)
    → turn.first ≡ ok tt
    → turn.second ≡ ok tt
    → req.action ≡ lit "stream_echo"
    → req.streaming ≡ true
    → (feed turn p (action_request req ∷ numbered req.action_id 0 piece pieces)
        ≡ (idle, answer req.action_id status_ok [] [] ∷ echoed req.action_id (whole piece pieces)))
      × (first_half (whole piece pieces) ++ second_half (whole piece pieces) ≡ whole piece pieces)
unfolding feed on_message handle_action joined
feed-stream_echo turn p req piece pieces first_sent second_sent named streamed =
    let accepts : text_eq req.action (lit "stream_echo") ≡ true =
      ap (λ t. text_eq t (lit "stream_echo")) named ∙ text_eq_refl (lit "stream_echo") in
    let rest = feed-numbered turn first_sent second_sent req.action_id 0 piece pieces [] tt in
    (
      rw (accepts, streamed, feed, on_message, handle_action) (rw rest refl),
      take-append-drop (length (whole piece pieces) / 2) (whole piece pieces),
    )
