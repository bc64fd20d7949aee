-- ===== src/Ws/Receive/Message.antt =====
-- src/ws.cpp, `receive_binary_deadline` on a stream of whole frames: the loop over bytes against the
-- same switch over the list of frames.
use vynkor_sdk_cpp.Base.{◌≤◌, ◌<◌, ◌≡◌, refl, List, [], ◌∷◌, ◌++◌, length, inl, inr, ◌⊎◌}
use vynkor_sdk_cpp.Error.{Exception}
use vynkor_sdk_cpp.Mac.{Bytes}
use vynkor_sdk_cpp.Ws.Codec.{WsIncomingFrame, ws_max_message_size, ws_try_decode_server_frame}
use vynkor_sdk_cpp.Ws.Codec.Decode.{server_frame}
use vynkor_sdk_cpp.Ws.Stream.{Fill, filled, fill_throws, fill_waits}
use vynkor_sdk_cpp.Ws.Receive.{
  frame_at, blocked, try_frame, next_frame, Reply, Rx, Step, delivers, goes_on, fails, on_frame,
  Received, received, receive_throws, receive_waits, last_words, receive_loop,
}
use vynkor_sdk_cpp.Ws.Receive.Frames.{AllFilled, chunks, next_frame-Found}

abbrev pub wire : List WsIncomingFrame → Bytes
wire [] = []
wire (frame ∷ frames) = server_frame frame.fin frame.opcode frame.payload ++ wire frames

abbrev pub AllFit : List WsIncomingFrame → Type 0
AllFit [] = Unit {0}
AllFit (frame ∷ frames) =
    (frame.opcode < 16)
    × (length (server_frame frame.fin frame.opcode frame.payload) ≤ ws_max_message_size)
    × AllFit frames

-- The message and the frames behind it, the exception, or no frame or reply is left.
pub data Outcome : Type 0 where
  assembled : Bytes → List WsIncomingFrame → List Bytes → Outcome
  refused : Exception → List Bytes → Outcome
  starved : Outcome

unfoldable pub over_frames : List Reply → List WsIncomingFrame → Rx → Outcome
over_frames [] frames s = starved
over_frames (reply ∷ replies) [] s = starved
over_frames (reply ∷ replies) (frame ∷ frames) s = elim (on_frame reply s frame) [
  | delivers message ↦ assembled message frames s.sent
  | fails e ↦ refused e (last_words reply s frame)
  | goes_on s' ↦ over_frames replies frames s'
]

-- What the loop over bytes gives, where the loop over frames gives this.
abbrev pub Implements : Outcome → Received → Type 0
Implements (assembled message frames sent) r =
    (left : Bytes) × (later : List Fill) × (r ≡ received message left later sent)
    × AllFilled later
    × (left ++ chunks later ≡ wire frames)
Implements (refused e sent) r = r ≡ receive_throws e sent
Implements starved r = r ≡ receive_waits

next_frame_none :
    (fills : List Fill) (buf : Bytes)
    → AllFilled fills
    → buf ++ chunks fills ≡ []
    → next_frame fills buf ≡ blocked
unfolding next_frame try_frame ws_try_decode_server_frame
next_frame_none [] [] gives e = refl
next_frame_none (filled b bs ∷ fills) [] gives e = cc e
next_frame_none fills (b ∷ buf) gives e = cc e
next_frame_none (fill_throws x ∷ fills) [] gives e = absurd gives
next_frame_none (fill_waits ∷ fills) [] gives e = absurd gives

pub Step-cases :
    (t : Step)
    → ((m : Bytes) × (t ≡ delivers m))
      ⊎ (((e : Exception) × (t ≡ fails e)) ⊎ ((s : Rx) × (t ≡ goes_on s)))
Step-cases (delivers m) = inl (m, refl)
Step-cases (fails e) = inr (inl (e, refl))
Step-cases (goes_on s) = inr (inr (s, refl))

step_lem :
    (reply : Reply) (replies : List Reply) (fills : List Fill) (buf : Bytes) (s : Rx)
    (frame : WsIncomingFrame) (left : Bytes) (later : List Fill)
    → next_frame fills buf ≡ frame_at frame left later
    → (frames : List WsIncomingFrame) → AllFilled later
    → left ++ chunks later ≡ wire frames
    → ((s' : Rx) → Implements (over_frames replies frames s') (receive_loop replies later left s'))
    → Implements
        (over_frames (reply ∷ replies) (frame ∷ frames) s)
        (receive_loop (reply ∷ replies) fills buf s)
unfolding over_frames receive_loop
step_lem reply replies fills buf s frame left later h frames gives e again =
    elim (Step-cases (on_frame reply s frame)) [
      | inl (m, t) ↦ rw (h, t, over_frames, receive_loop) (left, later, refl, gives, e)
      | inr (inl (x, t)) ↦ rw (h, t, over_frames, receive_loop) refl
      | inr (inr (s', t)) ↦ rw (h, t, over_frames, receive_loop) (again s')
    ]

-- However the bytes of whole frames are cut into fills, the loop over the bytes gives what the
-- same switch gives over the list of frames.
pub receive_loop-Implements :
    (replies : List Reply) (frames : List WsIncomingFrame) (fills : List Fill) (buf : Bytes)
    (s : Rx)
    → AllFit frames
    → AllFilled fills
    → buf ++ chunks fills ≡ wire frames
    → Implements (over_frames replies frames s) (receive_loop replies fills buf s)
unfolding over_frames receive_loop
receive_loop-Implements [] frames fills buf s fit gives e = refl
receive_loop-Implements (reply ∷ replies) [] fills buf s fit gives e =
    rw (next_frame_none fills buf gives e, receive_loop) refl
receive_loop-Implements (reply ∷ replies) (frame ∷ frames) fills buf s (small, fits, fit) gives e =
    let f =
      next_frame-Found frame.fin frame.opcode frame.payload (wire frames) small fits fills buf gives
        e in
    step_lem reply replies fills buf s frame f.left f.later f.found frames f.gives f.behind
      (λ s'. receive_loop-Implements replies frames f.later f.left s' fit f.gives f.behind)
